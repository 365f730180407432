-- ===== src/Multisig/Examples.antt =====
-- The theorems on custody at a wallet of two signers. The outside world of the example recovers
-- from a signature the signer that it spells.
use swap_trade_backend.Common.{
  ℕ, ◌≤◌, ◌≡◌, refl, false, none, some, List, [], ◌∷◌, ◌++◌, length, All, lookup, nat_key,
  codes_key, ok, err,
}
use swap_trade_backend.Multisig.{
  Custody, Outside, EscrowAgreement, EscrowStatus, SignatureScheme, SubmitApprovalDto,
  CreateMultiSigWalletDto, CreateEscrowDto, create_wallet, create_escrow, unique, escrow_expired,
  not_pending, not_approved,
}
use swap_trade_backend.Multisig.Approval.{
  approvals_of, submit_approval, check_approval, record_approval, count_approved, verify_signature,
  enforce_hardware_policy, execute_escrow, ApprovalResult,
}
use swap_trade_backend.Multisig.Invariant.{IsValid}
use swap_trade_backend.Multisig.Acceptance.{IsAcceptable}
use swap_trade_backend.Multisig.Acceptance
use swap_trade_backend.Multisig.History.{
  CustodyCall, creates_wallet, creates_escrow, submits, run_custody, no_custody, IsBySigners,
  run_custody-IsValid, no_custody-IsValid,
}
use swap_trade_backend.Multisig.Safety.{IsSignedFor}
use swap_trade_backend.Multisig.Safety

abbrev world : Outside
world = record {
  verify_message = λ payload signature. some signature;
  hash_payload = length;
  hash_entry = λ d. d.timestamp;
  has_contract = false;
  release = λ chain index e. none;
  offchain_hash = λ id now. now;
  large_tx_threshold = 1000;
}

abbrev wallet_dto : CreateMultiSigWalletDto
wallet_dto = record {
  name = 1;
  chain_id = 1;
  signers = (97 ∷ []) ∷ (66 ∷ []) ∷ [];
  threshold = 2;
  custody_model = none;
  supported_schemes = none;
  hardware_required_above = none;
}

abbrev escrow_dto : CreateEscrowDto
escrow_dto = record {
  trade_id = none;
  wallet_id = 0;
  chain_id = 1;
  buyer = 1;
  seller = 2;
  asset = 3;
  amount = 10;
  token_address = none;
  required_approvals = none;
  expires_at = some 9;
}

abbrev signed_by : List ℕ → SubmitApprovalDto
signed_by signer = record {
  signer_address = signer;
  payload = [];
  signature = signer;
  signature_scheme = SignatureScheme.ecdsa;
  hardware_wallet_fingerprint = none;
}

abbrev opened : List (ℕ × CustodyCall)
opened = (1, creates_wallet wallet_dto) ∷ (2, creates_escrow escrow_dto) ∷ []

abbrev all_calls : List (ℕ × CustodyCall)
all_calls =
    opened ++ (3, submits 1 (signed_by (97 ∷ []))) ∷ (4, submits 1 (signed_by (98 ∷ []))) ∷ []

abbrev agreement : EscrowStatus → ℕ → EscrowAgreement
agreement s n = record {
  id = 1;
  trade_id = none;
  wallet_id = 0;
  chain_id = 1;
  buyer = 1;
  seller = 2;
  asset = 3;
  token_address = none;
  amount = 10;
  status = s;
  required_approvals = 2;
  approved_count = n;
  executed_tx_hash = none;
  expires_at = some 9;
}

approved_now :
    lookup 1 (run_custody world (no_custody []) all_calls).escrows
    ≡ some (agreement EscrowStatus.approved 2)
unfolding create_wallet unique create_escrow submit_approval check_approval record_approval
    count_approved verify_signature enforce_hardware_policy
approved_now = refl

run_custody_released_example :
    let c = run_custody world (no_custody []) all_calls in
    (2 ≤ length (approvals_of 1 c.approvals))
    × IsBySigners (approvals_of 1 c.approvals)
    × All (IsSignedFor c (agreement EscrowStatus.approved 2)) (approvals_of 1 c.approvals)
run_custody_released_example =
    Safety.run_custody_released world [] all_calls 1 (agreement EscrowStatus.approved 2)
      approved_now refl

abbrev opened_custody : Custody
opened_custody = run_custody world (no_custody []) opened

pending_now : lookup 1 opened_custody.escrows ≡ some (agreement EscrowStatus.pending_approval 0)
unfolding create_wallet unique create_escrow
pending_now = refl

opened_custody-IsValid : IsValid opened_custody
opened_custody-IsValid = run_custody-IsValid world (no_custody []) opened (no_custody-IsValid [])

accepted :
    (r : ApprovalResult) × (d : Custody) × (submit_approval world 3 1
        (signed_by (97 ∷ []))
        opened_custody
      ≡ (ok r, d))
unfolding create_wallet unique create_escrow submit_approval check_approval record_approval
    count_approved verify_signature enforce_hardware_policy
accepted = (_, _, refl)

submit_approval-IsAcceptable_example : IsAcceptable world 3 1 (signed_by (97 ∷ [])) opened_custody
submit_approval-IsAcceptable_example =
    (Acceptance.submit_approval-IsAcceptable world 3 1 (signed_by (97 ∷ [])) opened_custody).0
      accepted

submit_approval_expired_example :
    (d : Custody) × (submit_approval world 20 1 (signed_by (97 ∷ [])) opened_custody
      ≡ (err escrow_expired, d))
    × ((later : ℕ) (next : SubmitApprovalDto)
        → submit_approval world later 1 next d ≡ (err not_pending, d))
    × ((later : ℕ) → execute_escrow world later 1 d ≡ err not_approved)
submit_approval_expired_example =
    Safety.submit_approval_expired world 20 1 (signed_by (97 ∷ [])) opened_custody
      (agreement EscrowStatus.pending_approval 0) opened_custody-IsValid pending_now refl refl
