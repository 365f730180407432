-- ===== src/Multisig/Checks.antt =====
-- What the checks of an approval establish, and the lists of approvals.
use swap_trade_backend.Common.{
  ℕ, ◌≡◌, refl, ◌==◌, true, false, ◌&&◌, some, List, [], ◌∷◌, ◌++◌, lookup, nat_key, codes_key,
  codes_same, All, All-append, arith, subst, ap, ok, or_raise, raise_if, bind_ok, then_ok,
  ok_injective, passed_test, raise_if_ok, or_raise_ok,
}
use swap_trade_backend.Multisig.{
  MultiSigWallet, EscrowAgreement, MultiSigApproval, Custody, Outside, SubmitApprovalDto, includes,
  includes_scheme, to_lower_case,
}
use swap_trade_backend.Multisig.Approval.{
  count_approved, has_approved, check_approval, verify_signature, enforce_hardware_policy,
}
use swap_trade_backend.Multisig.Invariant.{IsOncePerSigner}

pub not_approved_yet :
    (id : ℕ) (signer : List ℕ) (approvals : List MultiSigApproval)
    → has_approved id signer approvals ≡ false
    → All (λ b. b.escrow_id == id && codes_same b.signer_address signer ≡ false) approvals
not_approved_yet id signer [] h = tt
not_approved_yet id signer (a ∷ rest) h = ground (arith, not_approved_yet id signer rest)

codes_same_sym : (a b : List ℕ) → codes_same a b ≡ codes_same b a
codes_same_sym [] [] = refl
codes_same_sym [] (b ∷ v) = refl
codes_same_sym (a ∷ u) [] = refl
codes_same_sym (a ∷ u) (b ∷ v) = ground (arith, codes_same_sym u v)

pub IsOncePerSigner-append :
    (approvals : List MultiSigApproval) (a : MultiSigApproval)
    → All
        (λ b. b.escrow_id == a.escrow_id && codes_same b.signer_address a.signer_address ≡ false)
        approvals
    → IsOncePerSigner approvals
    → IsOncePerSigner (approvals ++ a ∷ [])
IsOncePerSigner-append [] a h o = (tt, tt)
IsOncePerSigner-append (b ∷ rest) a h o =
    let flip = codes_same_sym a.signer_address b.signer_address in
    (
      All-append
          (λ x. x.escrow_id == b.escrow_id && codes_same x.signer_address b.signer_address ≡ false)
          rest (a ∷ []) o.0 (ground (arith, h.0, flip), tt),
      IsOncePerSigner-append rest a h.1 o.1,
    )

pub count_approved-other :
    (id : ℕ) (approvals : List MultiSigApproval) (a : MultiSigApproval)
    → id == a.escrow_id ≡ false
    → count_approved id (approvals ++ a ∷ []) ≡ count_approved id approvals
unfolding count_approved
count_approved-other id [] a h = ground arith
count_approved-other id (b ∷ rest) a h = ground (arith, count_approved-other id rest a h)

-- What the checks establish when they pass.
pub record HasPassed (out : Outside) (id : ℕ) (e : EscrowAgreement) (dto : SubmitApprovalDto)
    (c : Custody) (w : MultiSigWallet) (signer : List ℕ) : Type 0 where
  pub wallet : lookup e.wallet_id c.wallets ≡ some w
  pub is_signer : includes signer w.signers ≡ true
  pub supported : includes_scheme dto.signature_scheme w.supported_schemes ≡ true
  pub is_new : has_approved id signer c.approvals ≡ false
  pub verified : verify_signature out dto.payload dto.signature signer dto.signature_scheme ≡ ok tt
  pub allowed : enforce_hardware_policy w e signer dto ≡ ok tt
  pub named : to_lower_case dto.signer_address ≡ signer

pub check_approval-HasPassed :
    (out : Outside) (id : ℕ) (e : EscrowAgreement) (dto : SubmitApprovalDto) (c : Custody)
    (w : MultiSigWallet) (signer : List ℕ)
    → check_approval out id e dto c ≡ ok (w, signer)
    → HasPassed out id e dto c w signer
unfolding check_approval
check_approval-HasPassed out id e dto c w signer h =
    let (w', a, h1) = bind_ok (or_raise (lookup e.wallet_id c.wallets) _) _ _ h in
    let (b, h2) = then_ok (raise_if _ _) _ _ h1 in
    let (d, h3) = then_ok (raise_if _ _) _ _ h2 in
    let (f, h4) = then_ok (raise_if _ _) _ _ h3 in
    let (g, h5) =
      then_ok
        (verify_signature out dto.payload dto.signature (to_lower_case dto.signer_address)
          dto.signature_scheme)
        _ _ h4 in
    let (k, h6) =
      then_ok (enforce_hardware_policy w' e (to_lower_case dto.signer_address) dto) _ _ h5 in
    let same = ok_injective (w', to_lower_case dto.signer_address) (w, signer) h6 in
    let wallets_same : w' ≡ w = ap (λ r. r.0) same in
    let signers_same : to_lower_case dto.signer_address ≡ signer = ap (λ r. r.1) same in
    subst (λ x. HasPassed out id e dto c w x) signers_same
      (subst (λ x. HasPassed out id e dto c x (to_lower_case dto.signer_address)) wallets_same
        (record {
          wallet = or_raise_ok _ _ _ a;
          is_signer = passed_test _ _ b;
          supported = passed_test _ _ d;
          is_new = raise_if_ok _ _ f;
          verified = g;
          allowed = k;
          named = refl;
        }))
