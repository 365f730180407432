-- ===== src/Multisig/Types.antt =====
-- trading/entities/multisig-wallet, multisig-approval, escrow-agreement and trading/dto/multisig.dto.
-- Addresses and signatures are lists of character codes; amounts count the smallest unit.
use swap_trade_backend.Common.{ℕ, Bool, Option, List, Map}

pub data CustodyModel : Type 0 where
  centralized decentralized hybrid : CustodyModel

pub data SignatureScheme : Type 0 where
  ecdsa eddsa schnorr : SignatureScheme

pub data EscrowStatus : Type 0 where
  pending_approval approved executed cancelled expired : EscrowStatus

pub data ApprovalStatus : Type 0 where
  approved rejected : ApprovalStatus

pub record HardwareSigner : Type 0 where
  pub fingerprint : ℕ
  pub public_key : Option ℕ
  pub added_at : ℕ

pub record MultiSigWallet : Type 0 where
  pub id : ℕ
  pub name : ℕ
  pub chain_id : ℕ
  pub signers : List (List ℕ)
  pub threshold : ℕ
  pub custody_model : CustodyModel
  pub supported_schemes : List SignatureScheme
  pub hardware_required_above : ℕ
  pub hardware_signers : Map (List ℕ) HardwareSigner

pub record MultiSigApproval : Type 0 where
  pub escrow_id : ℕ
  pub wallet_id : ℕ
  pub signer_address : List ℕ
  pub signature : List ℕ
  pub signature_scheme : SignatureScheme
  pub payload_hash : ℕ
  pub hardware_wallet_fingerprint : Option ℕ
  pub status : ApprovalStatus

pub record EscrowAgreement : Type 0 where
  pub id : ℕ
  pub trade_id : Option ℕ
  pub wallet_id : ℕ
  pub chain_id : ℕ
  pub buyer : ℕ
  pub seller : ℕ
  pub asset : ℕ
  pub token_address : Option ℕ
  pub amount : ℕ
  pub status : EscrowStatus
  pub required_approvals : ℕ
  pub approved_count : ℕ
  pub executed_tx_hash : Option ℕ
  pub expires_at : Option ℕ

pub record CreateMultiSigWalletDto : Type 0 where
  pub name : ℕ
  pub chain_id : ℕ
  pub signers : List (List ℕ)
  pub threshold : ℕ
  pub custody_model : Option CustodyModel
  pub supported_schemes : Option (List SignatureScheme)
  pub hardware_required_above : Option ℕ

pub record RegisterHardwareWalletDto : Type 0 where
  pub signer_address : List ℕ
  pub fingerprint : ℕ
  pub public_key : Option ℕ

pub record CreateEscrowDto : Type 0 where
  pub trade_id : Option ℕ
  pub wallet_id : ℕ
  pub chain_id : ℕ
  pub buyer : ℕ
  pub seller : ℕ
  pub asset : ℕ
  pub amount : ℕ
  pub token_address : Option ℕ
  pub required_approvals : Option ℕ
  pub expires_at : Option ℕ

pub record SubmitApprovalDto : Type 0 where
  pub signer_address : List ℕ
  pub payload : List ℕ
  pub signature : List ℕ
  pub signature_scheme : SignatureScheme
  pub hardware_wallet_fingerprint : Option ℕ

-- What an entry of the audit log says; its constructor is the action.
pub data AuditMetadata : Type 0 where
  wallet_created : ℕ → ℕ → CustodyModel → AuditMetadata
  hardware_registered : List ℕ → ℕ → AuditMetadata
  escrow_created : ℕ → ℕ → ℕ → CustodyModel → AuditMetadata
  approval_submitted : List ℕ → ℕ → ℕ → SignatureScheme → AuditMetadata
  escrow_executed : ℕ → ℕ → ℕ → AuditMetadata

-- The data that is hashed.
pub record AuditData : Type 0 where
  pub resource_id : ℕ
  pub metadata : AuditMetadata
  pub timestamp : ℕ
  pub previous_hash : Option ℕ

pub record AuditLog : Type 0 where
  pub entry : AuditData
  pub hash : ℕ

-- Before the first entry there is no hash: `previous_hash` is then none, for GENESIS_HASH.
pub record Custody : Type 0 where
  pub wallets : Map ℕ MultiSigWallet
  pub escrows : Map ℕ EscrowAgreement
  pub approvals : List MultiSigApproval
  pub trades : Map ℕ ℕ
  pub audit : List AuditLog
  pub next_id : ℕ

pub data MultisigError : Type 0 where
  threshold_too_high wallet_not_found not_a_signer too_many_approvals trade_not_found :
      MultisigError
  escrow_not_found not_pending escrow_expired not_authorized scheme_disabled : MultisigError
  already_approved malformed_signature invalid_signature no_hardware_signer : MultisigError
  wrong_fingerprint not_approved release_failed : MultisigError

-- ethers, the contract of a chain and the environment: what the service calls and cannot read.
-- `release` gets the chain, the index of the wallet that signs and the escrow; it may throw.
pub record Outside : Type 0 where
  pub verify_message : List ℕ → List ℕ → Option (List ℕ)
  pub hash_payload : List ℕ → ℕ
  pub hash_entry : AuditData → ℕ
  pub has_contract : Bool
  pub release : ℕ → ℕ → EscrowAgreement → Option ℕ
  pub offchain_hash : ℕ → ℕ → ℕ
  pub large_tx_threshold : ℕ
