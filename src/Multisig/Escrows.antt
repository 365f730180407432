-- ===== src/Multisig/Escrows.antt =====
-- Approving and executing escrows keeps a custody valid.
use swap_trade_backend.Common.{
  ℕ, ◌≤◌, ◌≡◌, refl, ◌==◌, leb, true, false, inl, inr, some, List, [], ◌∷◌, ◌++◌, lookup, insert,
  insert_all, nat_key, codes_key, All-append, All-map, arith, Bool-cases, Option-cases, sym, subst,
  ◌∙◌, Throws-cases, lookup-insert_self,
}
use swap_trade_backend.Multisig.{
  MultiSigWallet, MultiSigApproval, EscrowAgreement, EscrowStatus, Custody, Outside,
  SubmitApprovalDto, save_escrow, write_audit, AuditMetadata,
}
use swap_trade_backend.Multisig.Approval.{
  count_approved, is_pending, is_approved, has_expired, check_approval, record_approval,
  after_check, submit_approval, execute_escrow, approval_from, counted_escrow, wallet_index,
}
use swap_trade_backend.Multisig.Invariant.{
  IsValid, IsAuthorized, IsAuthorized-Extends, IsBacked, is_released, Extends, IsValid-Extends,
  kept_entry,
}
use swap_trade_backend.Multisig.Wallets.{Keeps, SameWallet}
use swap_trade_backend.Multisig.Checks.{
  not_approved_yet, IsOncePerSigner-append, count_approved-other, HasPassed,
  check_approval-HasPassed,
}

-- The escrow is saved with another status or count.
resaved-IsValid :
    (id : ℕ) (e f : EscrowAgreement) (c : Custody)
    → IsValid c
    → lookup id c.escrows ≡ some e
    → f.id ≡ e.id
    → f.wallet_id ≡ e.wallet_id
    → f.approved_count ≡ e.approved_count
    → (is_released f.status ≡ true → f.required_approvals ≤ f.approved_count)
    → IsValid (save_escrow f c)
resaved-IsValid id e f c v h same wallet count reached =
    let b = v.escrows_backed id e h in
    let at : f.id ≡ id = same ∙ b.keyed in
    let found : lookup f.id c.escrows ≡ some e =
      subst (λ x. lookup x c.escrows ≡ some e) (sym at) h in
    IsValid-Extends c _ v refl
      (kept_entry f.id f e c.escrows SameWallet found wallet (λ e. refl), λ i w h. (w, h, refl))
      v.wallets_numbered
      (insert_all (IsBacked c.approvals c.next_id) f.id f c.escrows
        (record {
          keyed = refl;
          known = rw at b.known;
          counted =
              subst (λ x. f.approved_count ≡ count_approved x c.approvals) (sym at)
                (count ∙ b.counted);
          reached = reached;
        })
        (λ i e h _. v.escrows_backed i e h))

approved_is_released : (s : EscrowStatus) → is_approved s ≡ true → is_released s ≡ true
approved_is_released EscrowStatus.approved p = refl
approved_is_released EscrowStatus.pending_approval p = cc
approved_is_released EscrowStatus.executed p = cc
approved_is_released EscrowStatus.cancelled p = cc
approved_is_released EscrowStatus.expired p = cc

pending_not_released : (s : EscrowStatus) → is_pending s ≡ true → is_released s ≡ false
pending_not_released EscrowStatus.pending_approval p = refl
pending_not_released EscrowStatus.approved p = cc
pending_not_released EscrowStatus.executed p = cc
pending_not_released EscrowStatus.cancelled p = cc
pending_not_released EscrowStatus.expired p = cc

released_IsReached :
    (n : ℕ) (e : EscrowAgreement)
    → is_pending e.status ≡ true
    → is_released (counted_escrow n e).status ≡ true
    → e.required_approvals ≤ n
released_IsReached n e p r = elim (Bool-cases (leb e.required_approvals n)) [
  | inl k ↦ ground arith
  | inr k ↦
      let s : is_released e.status ≡ true = rw k at r in
      let t = pending_not_released e.status p in cc
]

executed-IsValid :
    (id : ℕ) (e : EscrowAgreement) (tx : ℕ) (c : Custody)
    → IsValid c
    → lookup id c.escrows ≡ some e
    → is_approved e.status ≡ true
    → (out : Outside) (now : ℕ) (what : AuditMetadata)
    → IsValid (
        write_audit out now what id
          (save_escrow (record e { executed_tx_hash = some tx; status = EscrowStatus.executed }) c))
executed-IsValid id e tx c v h p out now what =
    let saved =
      resaved-IsValid id e (record e { executed_tx_hash = some tx; status = EscrowStatus.executed })
        c v h refl refl refl
        (λ r. (v.escrows_backed id e h).reached (approved_is_released e.status p)) in
    record {
      once = saved.once;
      authorized = saved.authorized;
      wallets_numbered = saved.wallets_numbered;
      escrows_backed = saved.escrows_backed;
    }

-- With one approval more, each escrow is backed: its own has one more, the others as many as before.
approved-IsBacked :
    (id i : ℕ) (e g : EscrowAgreement) (a : MultiSigApproval) (c : Custody)
    → IsValid c
    → lookup id c.escrows ≡ some e
    → is_pending e.status ≡ true
    → a.escrow_id ≡ id
    → let next = c.approvals ++ a ∷ [] in
      lookup i (insert e.id (counted_escrow (count_approved id next) e) c.escrows) ≡ some g
      → IsBacked next c.next_id i g
approved-IsBacked id i e g a c v h pending of_escrow found =
    let next = c.approvals ++ a ∷ [] in
    let n = count_approved id next in
    let b = v.escrows_backed id e h in
    insert_all (IsBacked next c.next_id) e.id (counted_escrow n e) c.escrows
      (record {
        keyed = refl;
        known = rw b.keyed b.known;
        counted = rw b.keyed refl;
        reached = released_IsReached n e pending;
      })
      (λ i g k other.
        let old = v.escrows_backed i g k in
        record {
          keyed = old.keyed;
          known = old.known;
          counted =
              old.counted
              ∙ sym (
                  count_approved-other i c.approvals a
                    (subst (λ j. i == j ≡ false) (b.keyed ∙ sym of_escrow) other));
          reached = old.reached;
        })
      i g found

-- What `record_approval` leaves, when the checks have passed.
record_approval-IsValid :
    (out : Outside) (now id : ℕ) (e : EscrowAgreement) (w : MultiSigWallet) (signer : List ℕ)
    (dto : SubmitApprovalDto) (c : Custody)
    → IsValid c
    → lookup id c.escrows ≡ some e
    → is_pending e.status ≡ true
    → HasPassed out id e dto c w signer
    → IsValid (record_approval out now id e w signer dto c).1
unfolding record_approval
record_approval-IsValid out now id e w signer dto c v h pending passed =
    let a = approval_from out id w signer dto in
    let n = count_approved id (c.approvals ++ a ∷ []) in
    let f = counted_escrow n e in
    let b = v.escrows_backed id e h in
    let d = (record_approval out now id e w signer dto c).1 in
    let found : lookup e.id c.escrows ≡ some e =
      subst (λ x. lookup x c.escrows ≡ some e) (sym b.keyed) h in
    let x : Extends c d =
      (kept_entry e.id f e c.escrows SameWallet found refl (λ e. refl), λ i w h. (w, h, refl)) in
    let stored : lookup id (insert e.id f c.escrows) ≡ some f =
      subst (λ j. lookup id (insert j f c.escrows) ≡ some f) (sym b.keyed)
        (lookup-insert_self id f c.escrows) in
    record {
      once =
          IsOncePerSigner-append c.approvals a
            (not_approved_yet id signer c.approvals passed.is_new) v.once;
      authorized =
          All-append (IsAuthorized d) c.approvals (a ∷ [])
            (All-map (IsAuthorized c) (IsAuthorized d) (IsAuthorized-Extends c d x) c.approvals
              v.authorized)
            ((f, w, stored, passed.wallet, passed.is_signer, refl), tt);
      wallets_numbered = v.wallets_numbered;
      escrows_backed = λ i g k. approved-IsBacked id i e g a c v h pending refl k;
    }

checked-IsValid :
    (out : Outside) (now id : ℕ) (e : EscrowAgreement) (dto : SubmitApprovalDto) (c : Custody)
    → IsValid c
    → lookup id c.escrows ≡ some e
    → is_pending e.status ≡ true
    → IsValid (after_check out now id e dto c (check_approval out id e dto c)).1
checked-IsValid out now id e dto c v h p = elim (Throws-cases (check_approval out id e dto c)) [
  | inl (x, t) ↦ rw t v
  | inr ((w, signer), t) ↦ rw t (
      record_approval-IsValid out now id e w signer dto c v h p
        (check_approval-HasPassed out id e dto c w signer t))
]

-- On every branch: also behind an exception, where only the status of an expired escrow changes.
pub submit_approval-IsValid :
    (out : Outside) (now id : ℕ) (dto : SubmitApprovalDto) (c : Custody)
    → IsValid c
    → IsValid (submit_approval out now id dto c).1
unfolding submit_approval
submit_approval-IsValid out now id dto c v = elim (Option-cases (lookup id c.escrows)) [
  | inl h ↦ rw (h, submit_approval) v
  | inr (e, h) ↦
      rw (h, submit_approval)
        (elim (Bool-cases (is_pending e.status)) [
          | inr p ↦ rw (p, submit_approval) v
          | inl p ↦
              rw (p, submit_approval)
                (elim (Bool-cases (has_expired now e.expires_at)) [
                  | inl t ↦
                      rw (t, submit_approval)
                        (resaved-IsValid id e (record e { status = EscrowStatus.expired }) c v h
                          refl refl refl (λ r. cc))
                  | inr t ↦ rw (t, submit_approval) (checked-IsValid out now id e dto c v h p)
                ])
        ])
]

pub execute_escrow-Keeps :
    (out : Outside) (now id : ℕ) (c : Custody) → IsValid c → Keeps (execute_escrow out now id c)
unfolding execute_escrow
execute_escrow-Keeps out now id c v = elim (Option-cases (lookup id c.escrows)) [
  | inl h ↦ rw (h, execute_escrow) tt
  | inr (e, h) ↦
      rw (h, execute_escrow)
        (elim (Bool-cases (is_approved e.status)) [
          | inr p ↦ rw (p, execute_escrow) tt
          | inl p ↦
              rw (p, execute_escrow)
                (elim (Bool-cases out.has_contract) [
                  | inr t ↦ rw (t, execute_escrow) (executed-IsValid id e _ c v h p out now _)
                  | inl t ↦
                      rw (t, execute_escrow)
                        (elim (Option-cases
                          (out.release e.chain_id (wallet_index e.trade_id c) e)) [
                            | inl r ↦ rw (r, execute_escrow) tt
                            | inr (tx, r) ↦
                                rw (r, execute_escrow) (executed-IsValid id e tx c v h p out now _)
                          ])
                ])
        ])
]
