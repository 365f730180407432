-- ===== src/Multisig/Requirements.antt =====
-- What a signature and a device have to be, apart from the code, for an approval to be taken.
use swap_trade_backend.Common.{
  ℕ, ◌≤◌, ◌≡◌, refl, sym, subst, ◌≢◌, ◌⊎◌, ◌↔◌, inl, inr, ◌==◌, ltb, true, false, Option, none,
  some, List, [], ◌∷◌, length, All, lookup, codes_key, codes_same, codes_same_iff, arith,
  Bool-cases, ok, bind_ok, or_raise, or_raise_ok, passed_test,
}
use swap_trade_backend.Multisig.{
  MultiSigWallet, EscrowAgreement, HardwareSigner, MultiSigApproval, Outside, SignatureScheme,
  SubmitApprovalDto, to_lower_case,
}
use swap_trade_backend.Multisig.Approval.{
  is_hex_digit, all_hex, is_valid_hex_signature, is_ecdsa, verify_signature, same_fingerprint,
  enforce_hardware_policy, has_approved,
}

abbrev pub IsHexDigit : ℕ → Type 0
IsHexDigit c = ((48 ≤ c) × (c ≤ 57)) ⊎ (((65 ≤ c) × (c ≤ 70)) ⊎ ((97 ≤ c) × (c ≤ 102)))

-- 0x and at least 128 hexadecimal digits.
abbrev pub IsHexSignature : List ℕ → Type 0
IsHexSignature s =
    (digits : List ℕ) × (s ≡ 48 ∷ 120 ∷ digits) × All IsHexDigit digits × (128 ≤ length digits)

all_hex_iff : (cs : List ℕ) → (all_hex cs ≡ true) ↔ All IsHexDigit cs
all_hex_iff [] = (λ h. tt, λ h. refl)
all_hex_iff (c ∷ cs) =
    let rest = all_hex_iff cs in
    (
      λ h.
          let one : is_hex_digit c ≡ true = ground arith in
          let more : all_hex cs ≡ true = ground arith in (ground arith, rest.0 more),
      λ h. let more = rest.1 h.1 in let one = h.0 in ground arith,
    )

is_valid_hex_signature_iff : (s : List ℕ) → (is_valid_hex_signature s ≡ true) ↔ IsHexSignature s
is_valid_hex_signature_iff s =
    (forward s, λ h. subst (λ x. is_valid_hex_signature x ≡ true) (sym h.1) (backward h.0 h.2 h.3))
  where
    forward : (s : List ℕ) → is_valid_hex_signature s ≡ true → IsHexSignature s
    forward [] h = cc
    forward (z ∷ []) h = cc
    forward (z ∷ x ∷ []) h = cc
    forward (z ∷ x ∷ c ∷ cs) h =
        let zero : z ≡ 48 = ground arith in
        let cross : x ≡ 120 = ground arith in
        let all : all_hex (c ∷ cs) ≡ true = ground arith in
        (c ∷ cs, rw (zero, cross) refl, (all_hex_iff (c ∷ cs)).0 all, ground arith)

    backward :
        (digits : List ℕ)
        → All IsHexDigit digits
        → 128 ≤ length digits
        → is_valid_hex_signature (48 ∷ 120 ∷ digits) ≡ true
    backward [] a l = absurd (omega arith)
    backward (c ∷ cs) a l = let all = (all_hex_iff (c ∷ cs)).1 a in ground arith

-- A signature that recovers to the signer, or one of another scheme that has the form.
abbrev pub IsSignatureOf : Outside → List ℕ → List ℕ → List ℕ → SignatureScheme → Type 0
IsSignatureOf out payload signature signer SignatureScheme.ecdsa =
    (recovered : List ℕ) × (out.verify_message payload signature ≡ some recovered)
    × (to_lower_case recovered ≡ signer)
IsSignatureOf out payload signature signer _ = IsHexSignature signature

-- From the limit of the wallet on: a device registered for the signer, named by its fingerprint.
abbrev pub HasDevice : MultiSigWallet → EscrowAgreement → List ℕ → Option ℕ → Type 0
HasDevice w e signer fingerprint =
    w.hardware_required_above ≤ e.amount
    → (device : HardwareSigner) × (lookup signer w.hardware_signers ≡ some device)
      × (fingerprint ≡ some device.fingerprint)
      × (device.fingerprint ≢ 0)

abbrev pub HasNotApproved : ℕ → List ℕ → MultiSigApproval → Type 0
HasNotApproved id signer a = a.escrow_id ≡ id → a.signer_address ≢ signer

verify_signature-ecdsa :
    (out : Outside) (payload signature signer : List ℕ)
    → (verify_signature out payload signature signer SignatureScheme.ecdsa ≡ ok tt)
      ↔ IsSignatureOf out payload signature signer SignatureScheme.ecdsa
unfolding verify_signature
verify_signature-ecdsa out payload signature signer = (
  λ h.
      let (recovered, found, same) =
        bind_ok (or_raise (out.verify_message payload signature) _) _ _ h in
      (
        recovered,
        or_raise_ok _ _ _ found,
        (codes_same_iff (to_lower_case recovered) signer).0 (passed_test _ _ same),
      ),
  λ h.
      let (recovered, found, same) = h in
      let test = (codes_same_iff (to_lower_case recovered) signer).1 same in
      rw (found, test, verify_signature) refl,
)

verify_signature-hex :
    (out : Outside) (payload signature signer : List ℕ) (scheme : SignatureScheme)
    → is_ecdsa scheme ≡ false
    → (verify_signature out payload signature signer scheme ≡ ok tt) ↔ IsHexSignature signature
unfolding verify_signature
verify_signature-hex out payload signature signer scheme other = (
  λ h.
      let test = rw (other, verify_signature) at h in
      (is_valid_hex_signature_iff signature).0 (passed_test _ _ test),
  λ h.
      let test = (is_valid_hex_signature_iff signature).1 h in
      rw (other, test, verify_signature) refl,
)

pub verify_signature_iff :
    (out : Outside) (payload signature signer : List ℕ) (scheme : SignatureScheme)
    → (verify_signature out payload signature signer scheme ≡ ok tt)
      ↔ IsSignatureOf out payload signature signer scheme
verify_signature_iff out payload signature signer SignatureScheme.ecdsa =
    verify_signature-ecdsa out payload signature signer
verify_signature_iff out payload signature signer SignatureScheme.eddsa =
    verify_signature-hex out payload signature signer SignatureScheme.eddsa refl
verify_signature_iff out payload signature signer SignatureScheme.schnorr =
    verify_signature-hex out payload signature signer SignatureScheme.schnorr refl

same_fingerprint_iff :
    (f : ℕ) (g : Option ℕ) → (same_fingerprint f g ≡ true) ↔ ((g ≡ some f) × (f ≢ 0))
same_fingerprint_iff f none = (λ h. cc, λ h. cc)
same_fingerprint_iff f (some g) = (
  λ h.
      let one : g ≡ f = ground arith in
      let two : g == 0 ≡ false = ground arith in (rw one refl, λ z. ground arith),
  λ h. let one : g ≡ f = cc in let two = h.1 in ground arith,
)

pub enforce_hardware_policy_iff :
    (w : MultiSigWallet) (e : EscrowAgreement) (signer : List ℕ) (dto : SubmitApprovalDto)
    → (enforce_hardware_policy w e signer dto ≡ ok tt)
      ↔ HasDevice w e signer dto.hardware_wallet_fingerprint
unfolding enforce_hardware_policy
enforce_hardware_policy_iff w e signer dto =
    elim (Bool-cases (ltb e.amount w.hardware_required_above)) [
      | inl t ↦ (λ h le. absurd (ground arith), λ h. rw (t, enforce_hardware_policy) refl)
      | inr t ↦ (
        λ h le.
            let asked = rw (t, enforce_hardware_policy) at h in
            let (device, found, same) =
              bind_ok (or_raise (lookup signer w.hardware_signers) _) _ _ asked in
            let (one, two) =
              (same_fingerprint_iff device.fingerprint dto.hardware_wallet_fingerprint).0
                (passed_test _ _ same) in
            (device, or_raise_ok _ _ _ found, one, two),
        λ h.
            let (device, found, one, two) = h (ground arith) in
            let test =
              (same_fingerprint_iff device.fingerprint dto.hardware_wallet_fingerprint).1
                (one, two) in
            rw (t, found, test, enforce_hardware_policy) refl,
      )
    ]

pub has_approved_iff :
    (id : ℕ) (signer : List ℕ) (approvals : List MultiSigApproval)
    → (has_approved id signer approvals ≡ false) ↔ All (HasNotApproved id signer) approvals
has_approved_iff id signer [] = (λ h. tt, λ h. refl)
has_approved_iff id signer (a ∷ rest) =
    let more = has_approved_iff id signer rest in
    (
      λ h. (
        λ same by.
            let t = (codes_same_iff a.signer_address signer).1 by in
            let clash : true ≡ false = ground arith in cc,
        more.0 (ground arith),
      ),
      λ h.
          let later = more.1 h.1 in
          elim (Bool-cases (a.escrow_id == id)) [
            | inr e ↦ rw (e, later) refl
            | inl e ↦ elim (Bool-cases (codes_same a.signer_address signer)) [
              | inr t ↦ rw (e, t, later) refl
              | inl t ↦ absurd (h.0 (ground arith) ((codes_same_iff a.signer_address signer).0 t))
            ]
          ],
    )
