-- ===== src/Multisig/Approval.antt =====
-- submitApproval, executeEscrow and their checks, in trading/multisig-wallet.service.ts.
use swap_trade_backend.Common.{
  ℕ, ◌+◌, ◌-◌, ◌%◌, ◌==◌, ltb, leb, Bool, true, false, not, ◌&&◌, ◌||◌, Option, none, some, List,
  [], ◌∷◌, ◌++◌, length, keep_if, lookup, nat_key, codes_key, codes_same, if◌then◌else◌, Throws, ok,
  err, ◌>>=◌, ◌>>◌, raise_if, or_raise,
}
use swap_trade_backend.Multisig.{
  MultiSigWallet, EscrowAgreement, MultiSigApproval, EscrowStatus, ApprovalStatus, SignatureScheme,
  SubmitApprovalDto, Custody, Outside, MultisigError, approval_submitted, escrow_executed,
  to_lower_case, includes, includes_scheme, write_audit, save_escrow, escrow_not_found, not_pending,
  escrow_expired, wallet_not_found, not_authorized, scheme_disabled, already_approved,
  malformed_signature, invalid_signature, no_hardware_signer, wrong_fingerprint, not_approved,
  release_failed,
}

abbrev pub is_hex_digit : ℕ → Bool
is_hex_digit c = (leb 48 c && leb c 57) || (leb 65 c && leb c 70) || (leb 97 c && leb c 102)

abbrev pub all_hex : List ℕ → Bool
all_hex [] = true
all_hex (c ∷ cs) = is_hex_digit c && all_hex cs

-- `/^0x[0-9a-fA-F]+$/` and a length of at least 130
abbrev pub is_valid_hex_signature : List ℕ → Bool
is_valid_hex_signature (z ∷ x ∷ c ∷ cs) =
    z == 48 && x == 120 && all_hex (c ∷ cs) && leb 130 (length cs + 3)
is_valid_hex_signature _ = false

abbrev pub is_ecdsa : SignatureScheme → Bool
is_ecdsa SignatureScheme.ecdsa = true
is_ecdsa _ = false

unfoldable pub verify_signature :
    Outside → List ℕ → List ℕ → List ℕ → SignatureScheme → Throws MultisigError (Unit {0})
verify_signature out payload signature signer scheme =
    if is_ecdsa scheme
    then (do
      recovered ← or_raise (out.verify_message payload signature) malformed_signature
      raise_if (not (codes_same (to_lower_case recovered) signer)) invalid_signature)
    else raise_if (not (is_valid_hex_signature signature)) malformed_signature

-- A fingerprint that is given, is not the empty text (0), and is the one that is registered.
abbrev pub same_fingerprint : ℕ → Option ℕ → Bool
same_fingerprint f none = false
same_fingerprint f (some g) = not (g == 0) && g == f

unfoldable pub enforce_hardware_policy :
    MultiSigWallet → EscrowAgreement → List ℕ → SubmitApprovalDto → Throws MultisigError (Unit {0})
enforce_hardware_policy w e signer dto =
    if ltb e.amount w.hardware_required_above then ok tt else (do
      device ← or_raise (lookup signer w.hardware_signers) no_hardware_signer
      raise_if (not (same_fingerprint device.fingerprint dto.hardware_wallet_fingerprint))
          wrong_fingerprint)

abbrev pub is_pending : EscrowStatus → Bool
is_pending EscrowStatus.pending_approval = true
is_pending _ = false

abbrev pub is_approved : EscrowStatus → Bool
is_approved EscrowStatus.approved = true
is_approved _ = false

abbrev pub has_expired : ℕ → Option ℕ → Bool
has_expired now none = false
has_expired now (some t) = ltb t now

-- `find({ where: { escrowId } })`
abbrev pub approvals_of : ℕ → List MultiSigApproval → List MultiSigApproval
approvals_of id = keep_if λ a. a.escrow_id == id

abbrev pub has_approved : ℕ → List ℕ → List MultiSigApproval → Bool
has_approved id signer [] = false
has_approved id signer (a ∷ rest) =
    (a.escrow_id == id && codes_same a.signer_address signer) || has_approved id signer rest

abbrev pub is_counted : ApprovalStatus → Bool
is_counted ApprovalStatus.approved = true
is_counted ApprovalStatus.rejected = false

-- `count({ where: { escrowId, status: APPROVED } })`
unfoldable pub count_approved : ℕ → List MultiSigApproval → ℕ
count_approved id [] = 0
count_approved id (a ∷ rest) =
    let later = count_approved id rest in
    if a.escrow_id == id && is_counted a.status then later + 1 else later

-- The checks of `submitApproval` after those on the escrow: the wallet and the signer.
unfoldable pub check_approval :
    Outside
    → ℕ
    → EscrowAgreement
    → SubmitApprovalDto
    → Custody
    → Throws MultisigError (MultiSigWallet × List ℕ)
unfolding verify_signature enforce_hardware_policy
check_approval out id e dto c = do
  w ← or_raise (lookup e.wallet_id c.wallets) wallet_not_found
  let signer = to_lower_case dto.signer_address
  raise_if (not (includes signer w.signers)) not_authorized
  raise_if (not (includes_scheme dto.signature_scheme w.supported_schemes)) scheme_disabled
  raise_if (has_approved id signer c.approvals) already_approved
  verify_signature out dto.payload dto.signature signer dto.signature_scheme
  enforce_hardware_policy w e signer dto
  ok (w, signer)

pub record ApprovalResult : Type 0 where
  pub escrow : EscrowAgreement
  pub approval : MultiSigApproval
  pub approvals_remaining : ℕ

abbrev pub approval_from :
    Outside → ℕ → MultiSigWallet → List ℕ → SubmitApprovalDto → MultiSigApproval
approval_from out id w signer dto = record {
  escrow_id = id;
  wallet_id = w.id;
  signer_address = signer;
  signature = dto.signature;
  signature_scheme = dto.signature_scheme;
  payload_hash = out.hash_payload dto.payload;
  hardware_wallet_fingerprint = dto.hardware_wallet_fingerprint;
  status = ApprovalStatus.approved;
}

abbrev pub counted_escrow : ℕ → EscrowAgreement → EscrowAgreement
counted_escrow n e = record e {
  approved_count = n;
  status = if leb e.required_approvals n then EscrowStatus.approved else e.status;
}

-- What `submitApproval` writes once its checks have passed.
unfoldable pub record_approval :
    Outside
    → ℕ
    → ℕ
    → EscrowAgreement
    → MultiSigWallet
    → List ℕ
    → SubmitApprovalDto
    → Custody
    → ApprovalResult × Custody
unfolding count_approved
record_approval out now id e w signer dto c =
    let a = approval_from out id w signer dto in
    let added = record c { approvals = c.approvals ++ a ∷ [] } in
    let n = count_approved id added.approvals in
    (
      record {
        escrow = counted_escrow n e;
        approval = a;
        approvals_remaining = e.required_approvals - n;
      },
      write_audit out now (approval_submitted signer n e.required_approvals dto.signature_scheme) id
          (save_escrow (counted_escrow n e) added),
    )

abbrev pub after_check :
    Outside
    → ℕ
    → ℕ
    → EscrowAgreement
    → SubmitApprovalDto
    → Custody
    → Throws MultisigError (MultiSigWallet × List ℕ)
    → Throws MultisigError ApprovalResult × Custody
after_check out now id e dto c (err x) = (err x, c)
after_check out now id e dto c (ok (w, signer)) =
    let r = record_approval out now id e w signer dto c in (ok r.0, r.1)

unfoldable pub submit_approval :
    Outside → ℕ → ℕ → SubmitApprovalDto → Custody → Throws MultisigError ApprovalResult × Custody
unfolding check_approval
submit_approval out now id dto c = elim (lookup id c.escrows) [
  | none ↦ (err escrow_not_found, c)
  | some e ↦
      if not (is_pending e.status)
      then (err not_pending, c)
      else if has_expired now e.expires_at
      then (err escrow_expired, save_escrow (record e { status = EscrowStatus.expired }) c)
      else after_check out now id e dto c (check_approval out id e dto c)
]

-- The index of the wallet that signs: that of the trade's user, modulo 10.
abbrev pub wallet_index : Option ℕ → Custody → ℕ
wallet_index none c = 0
wallet_index (some t) c =
    let of_trade = elim (lookup t c.trades) as (λ _. ℕ) [ none ↦ 0 | some user ↦ user % 10 ] in
    if t == 0 then 0 else of_trade

unfoldable pub execute_escrow :
    Outside → ℕ → ℕ → Custody → Throws MultisigError (EscrowAgreement × Custody)
execute_escrow out now id c = do
  e ← or_raise (lookup id c.escrows) escrow_not_found
  raise_if (not (is_approved e.status)) not_approved
  tx ←
      (if out.has_contract
        then or_raise (out.release e.chain_id (wallet_index e.trade_id c) e) release_failed
        else ok (out.offchain_hash e.id now))
  let done = record e { executed_tx_hash = some tx; status = EscrowStatus.executed }
  ok (done, write_audit out now (escrow_executed tx e.amount e.chain_id) id (save_escrow done c))
