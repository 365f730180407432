-- ===== src/Multisig/Acceptance.antt =====
-- Which approvals are taken.
use swap_trade_backend.Common.{
  ℕ, ◌≤◌, ◌≡◌, refl, sym, subst, ◌↔◌, inl, inr, true, false, Option, none, some, List, All, lookup,
  nat_key, arith, Bool-cases, Option-cases, Throws-cases, ok,
}
use swap_trade_backend.Multisig.{
  MultiSigWallet, EscrowAgreement, EscrowStatus, Custody, Outside, SubmitApprovalDto, includes,
  includes_scheme, to_lower_case,
}
use swap_trade_backend.Multisig.Approval.{
  is_pending, has_expired, check_approval, ApprovalResult, submit_approval, record_approval,
}
use swap_trade_backend.Multisig.Checks.{HasPassed, check_approval-HasPassed}
use swap_trade_backend.Multisig.Requirements.{
  IsSignatureOf, HasDevice, HasNotApproved, verify_signature_iff, enforce_hardware_policy_iff,
  has_approved_iff,
}

abbrev pub IsInTime : ℕ → Option ℕ → Type 0
IsInTime now none = Unit
IsInTime now (some expires_at) = now ≤ expires_at

-- What a submission has to meet.
pub record IsAcceptable (out : Outside) (now id : ℕ) (dto : SubmitApprovalDto) (c : Custody)
    : Type 0 where
  pub escrow : EscrowAgreement
  pub wallet : MultiSigWallet
  pub found : lookup id c.escrows ≡ some escrow
  pub pending : escrow.status ≡ EscrowStatus.pending_approval
  pub in_time : IsInTime now escrow.expires_at
  pub owned : lookup escrow.wallet_id c.wallets ≡ some wallet
  pub member : includes (to_lower_case dto.signer_address) wallet.signers ≡ true
  pub supported : includes_scheme dto.signature_scheme wallet.supported_schemes ≡ true
  pub is_new : All (HasNotApproved id (to_lower_case dto.signer_address)) c.approvals
  pub signed :
      IsSignatureOf out dto.payload dto.signature
        (to_lower_case dto.signer_address)
        dto.signature_scheme
  pub device :
      HasDevice wallet escrow (to_lower_case dto.signer_address) dto.hardware_wallet_fingerprint

is_pending_iff : (s : EscrowStatus) → (is_pending s ≡ true) ↔ (s ≡ EscrowStatus.pending_approval)
is_pending_iff EscrowStatus.pending_approval = (λ h. refl, λ h. refl)
is_pending_iff EscrowStatus.approved = (λ h. cc, λ h. cc)
is_pending_iff EscrowStatus.executed = (λ h. cc, λ h. cc)
is_pending_iff EscrowStatus.cancelled = (λ h. cc, λ h. cc)
is_pending_iff EscrowStatus.expired = (λ h. cc, λ h. cc)

has_expired_iff :
    (now : ℕ) (expires_at : Option ℕ)
    → (has_expired now expires_at ≡ false) ↔ IsInTime now expires_at
has_expired_iff now none = (λ h. tt, λ h. refl)
has_expired_iff now (some t) = (λ h. ground arith, λ h. ground arith)

HasPassed-IsAcceptable :
    (out : Outside) (now id : ℕ) (e : EscrowAgreement) (w : MultiSigWallet) (signer : List ℕ)
    (dto : SubmitApprovalDto) (c : Custody)
    → lookup id c.escrows ≡ some e
    → is_pending e.status ≡ true
    → has_expired now e.expires_at ≡ false
    → HasPassed out id e dto c w signer
    → IsAcceptable out now id dto c
HasPassed-IsAcceptable out now id e w signer dto c found pending in_time p =
    let at = to_lower_case dto.signer_address in
    let same : signer ≡ at = sym p.named in
    record {
      escrow = e;
      wallet = w;
      found = found;
      pending = (is_pending_iff e.status).0 pending;
      in_time = (has_expired_iff now e.expires_at).0 in_time;
      owned = p.wallet;
      member = subst (λ s. includes s w.signers ≡ true) same p.is_signer;
      supported = p.supported;
      is_new =
          subst (λ s. All (HasNotApproved id s) c.approvals) same
            ((has_approved_iff id signer c.approvals).0 p.is_new);
      signed =
          subst (λ s. IsSignatureOf out dto.payload dto.signature s dto.signature_scheme) same
            ((verify_signature_iff out dto.payload dto.signature signer dto.signature_scheme).0
              p.verified);
      device =
          subst (λ s. HasDevice w e s dto.hardware_wallet_fingerprint) same
            ((enforce_hardware_policy_iff w e signer dto).0 p.allowed);
    }

IsAcceptable-check_approval :
    (out : Outside) (now id : ℕ) (dto : SubmitApprovalDto) (c : Custody)
    → (a : IsAcceptable out now id dto c)
    → check_approval out id a.escrow dto c ≡ ok (a.wallet, to_lower_case dto.signer_address)
unfolding check_approval
IsAcceptable-check_approval out now id dto c a =
    let at = to_lower_case dto.signer_address in
    let new = (has_approved_iff id at c.approvals).1 a.is_new in
    let signed =
      (verify_signature_iff out dto.payload dto.signature at dto.signature_scheme).1 a.signed in
    let allowed = (enforce_hardware_policy_iff a.wallet a.escrow at dto).1 a.device in
    rw (a.owned, check_approval, a.member, a.supported, new, signed, allowed) refl

submit_approval-HasPassed :
    (out : Outside) (now id : ℕ) (dto : SubmitApprovalDto) (c d : Custody) (r : ApprovalResult)
    → submit_approval out now id dto c ≡ (ok r, d)
    → (e : EscrowAgreement) × (w : MultiSigWallet) × (signer : List ℕ) × (lookup id c.escrows
        ≡ some e)
      × (is_pending e.status ≡ true)
      × (has_expired now e.expires_at ≡ false)
      × HasPassed out id e dto c w signer
unfolding submit_approval
submit_approval-HasPassed out now id dto c d r h = elim (Option-cases (lookup id c.escrows)) [
  | inl n ↦ let x = rw (n, submit_approval) at h in cc
  | inr (e, n) ↦ elim (Bool-cases (is_pending e.status)) [
    | inr p ↦ let x = rw (n, p, submit_approval) at h in cc
    | inl p ↦ elim (Bool-cases (has_expired now e.expires_at)) [
      | inl t ↦ let x = rw (n, p, t, submit_approval) at h in cc
      | inr t ↦ elim (Throws-cases (check_approval out id e dto c)) [
        | inl (x, k) ↦ let y = rw (n, p, t, k, submit_approval) at h in cc
        | inr ((w, signer), k) ↦
            (e, w, signer, n, p, t, check_approval-HasPassed out id e dto c w signer k)
      ]
    ]
  ]
]

taken-IsAcceptable :
    (out : Outside) (now id : ℕ) (dto : SubmitApprovalDto) (c d : Custody) (r : ApprovalResult)
    → submit_approval out now id dto c ≡ (ok r, d)
    → IsAcceptable out now id dto c
taken-IsAcceptable out now id dto c d r h =
    let (e, w, signer, n, p, t, passed) = submit_approval-HasPassed out now id dto c d r h in
    HasPassed-IsAcceptable out now id e w signer dto c n p t passed

IsAcceptable-submit_approval :
    (out : Outside) (now id : ℕ) (dto : SubmitApprovalDto) (c : Custody)
    → (a : IsAcceptable out now id dto c)
    → let r =
        record_approval out now id a.escrow a.wallet (to_lower_case dto.signer_address) dto c in
      submit_approval out now id dto c ≡ (ok r.0, r.1)
unfolding submit_approval
IsAcceptable-submit_approval out now id dto c a =
    let pending = (is_pending_iff a.escrow.status).1 a.pending in
    let in_time = (has_expired_iff now a.escrow.expires_at).1 a.in_time in
    let passed = IsAcceptable-check_approval out now id dto c a in
    rw (a.found, submit_approval, pending, in_time, passed) refl

-- An approval is taken exactly when its escrow awaits approvals and has not expired, the signer is
-- one of the escrow's wallet, which supports the scheme, and has not approved the escrow before;
-- when an ECDSA signature recovers to the signer, and one of another scheme is 0x and at least 128
-- hexadecimal digits; and when, from the limit of the wallet on, the device registered for the
-- signer has the fingerprint that is given, which is not empty.
pub submit_approval-IsAcceptable :
    (out : Outside) (now id : ℕ) (dto : SubmitApprovalDto) (c : Custody)
    → ((r : ApprovalResult) × (d : Custody) × (submit_approval out now id dto c ≡ (ok r, d)))
      ↔ IsAcceptable out now id dto c
submit_approval-IsAcceptable out now id dto c = (
  λ taken. taken-IsAcceptable out now id dto c taken.1 taken.0 taken.2,
  λ a. (_, _, IsAcceptable-submit_approval out now id dto c a),
)
