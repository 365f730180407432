-- ===== src/Multisig/Safety.antt =====
-- What a released escrow, an accepted approval, an expiry and an execution guarantee.
use swap_trade_backend.Common.{
  ℕ, ◌≤◌, ◌≡◌, refl, ◌==◌, true, false, inl, inr, some, List, [], ◌∷◌, length, Map, lookup, insert,
  lookup-insert_self, nat_key, All, All-map, arith, Bool-cases, sym, subst, err,
}
use swap_trade_backend.Multisig.{
  MultiSigWallet, EscrowAgreement, MultiSigApproval, EscrowStatus, Custody, Outside,
  SignatureScheme, SubmitApprovalDto, includes, save_escrow, escrow_expired, not_pending,
  not_approved,
}
use swap_trade_backend.Multisig.Approval.{
  is_counted, count_approved, approvals_of, is_pending, is_ecdsa, has_expired, submit_approval,
  execute_escrow, verify_signature,
}
use swap_trade_backend.Multisig.Invariant.{IsValid, IsAuthorized, is_released}
use swap_trade_backend.Multisig.History.{
  CustodyCall, run_custody, run_custody-IsValid, no_custody, no_custody-IsValid, IsBySigners,
  IsOncePerSigner-IsBySigners,
}

count_approved-length :
    (id : ℕ) (approvals : List MultiSigApproval)
    → All (λ a. is_counted a.status ≡ true) approvals
    → count_approved id approvals ≡ length (approvals_of id approvals)
unfolding count_approved
count_approved-length id [] h = refl
count_approved-length id (a ∷ rest) h = ground (arith, count_approved-length id rest h.1)

-- The approval is by a signer of the wallet of the escrow.
abbrev pub IsSignedFor : Custody → EscrowAgreement → MultiSigApproval → Type 0
IsSignedFor c e a =
    (w : MultiSigWallet) × (lookup e.wallet_id c.wallets ≡ some w)
    × (includes a.signer_address w.signers ≡ true)

signed_for :
    (c : Custody) (id : ℕ) (e : EscrowAgreement) (approvals : List MultiSigApproval)
    → lookup id c.escrows ≡ some e
    → All (IsAuthorized c) approvals
    → All (IsSignedFor c e) (approvals_of id approvals)
signed_for c id e [] h a = tt
signed_for c id e (x ∷ rest) h a =
    let (f, w, p, q, r, s) = a.0 in
    elim (Bool-cases (x.escrow_id == id)) [
      | inr k ↦ rw k (signed_for c id e rest h a.1)
      | inl k ↦
          let at : x.escrow_id ≡ id = ground arith in
          let found : lookup id c.escrows ≡ some f =
            subst (λ i. lookup i c.escrows ≡ some f) at p in
          let same : f ≡ e = ground arith in
          rw k (
            (w, subst (λ y. lookup y.wallet_id c.wallets ≡ some w) same q, r),
            signed_for c id e rest h a.1,
          )
    ]

-- After any history of calls, on any outside world and any trades: an escrow that is APPROVED or
-- EXECUTED has at least as many approvals as it requires, all by different signers, each of whom
-- is a signer of the escrow's wallet.
pub run_custody_released :
    (out : Outside) (trades : Map ℕ ℕ) (xs : List (ℕ × CustodyCall)) (id : ℕ) (e : EscrowAgreement)
    → let c = run_custody out (no_custody trades) xs in
      lookup id c.escrows ≡ some e
      → is_released e.status ≡ true
      → (e.required_approvals ≤ length (approvals_of id c.approvals))
        × IsBySigners (approvals_of id c.approvals)
        × All (IsSignedFor c e) (approvals_of id c.approvals)
run_custody_released out trades xs id e h r =
    let c = run_custody out (no_custody trades) xs in
    let v : IsValid c =
      run_custody-IsValid out (no_custody trades) xs (no_custody-IsValid trades) in
    let b = v.escrows_backed id e h in
    let counts = count_approved-length id c.approvals (
      All-map (IsAuthorized c) (λ a. is_counted a.status ≡ true)
        (λ a k. let (e, w, p, q, r, s) = k in s) c.approvals v.authorized) in
    let reached = b.reached r in
    let counted = b.counted in
    (
      omega arith,
      IsOncePerSigner-IsBySigners id c.approvals v.once,
      signed_for c id e c.approvals h v.authorized,
    )

-- Of a signature that is not ECDSA the service tests neither the payload nor the signer, whatever
-- the outside world: only its form.
pub verify_signature_unsigned :
    (out out' : Outside) (payload payload' signature signer signer' : List ℕ) (s : SignatureScheme)
    → is_ecdsa s ≡ false
    → verify_signature out payload signature signer s
      ≡ verify_signature out' payload' signature signer' s
unfolding verify_signature
verify_signature_unsigned out out' payload payload' signature signer signer' s h =
    rw (h, verify_signature) refl

-- In a valid custody, a submission for an escrow that awaits approvals past its time throws, and
-- all the same marks the escrow as expired: from then on no submission and no execution of it
-- goes through, at any time.
pub submit_approval_expired :
    (out : Outside) (now id : ℕ) (dto : SubmitApprovalDto) (c : Custody) (e : EscrowAgreement)
    → IsValid c
    → lookup id c.escrows ≡ some e
    → is_pending e.status ≡ true
    → has_expired now e.expires_at ≡ true
    → (d : Custody) × (submit_approval out now id dto c ≡ (err escrow_expired, d))
      × ((later : ℕ) (next : SubmitApprovalDto)
          → submit_approval out later id next d ≡ (err not_pending, d))
      × ((later : ℕ) → execute_escrow out later id d ≡ err not_approved)
unfolding submit_approval execute_escrow
submit_approval_expired out now id dto c e v h p t =
    let f : EscrowAgreement = record e { status = EscrowStatus.expired } in
    let found : lookup id (insert e.id f c.escrows) ≡ some f =
      subst (λ j. lookup id (insert j f c.escrows) ≡ some f) (sym (v.escrows_backed id e h).keyed)
        (lookup-insert_self id f c.escrows) in
    rw (h, p, t, submit_approval)
      (
        save_escrow f c,
        refl,
        λ later next. rw (found, submit_approval) refl,
        λ later. rw (found, execute_escrow) refl,
      )
