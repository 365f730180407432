-- ===== src/Multisig.antt =====
-- trading/multisig-wallet.service.ts: wallets with several signers, escrows and their approvals.
-- A call gives its result or exception and the state that it leaves: `submitApproval` on an expired
-- escrow saves, then throws. The latest audit entry is the last one saved.
pub mod Types
pub mod Approval
pub mod Invariant
pub mod Wallets
pub mod Checks
pub mod Requirements
pub mod Acceptance
pub mod Escrows
pub mod History
pub mod Safety
mod Examples
pub use Types.*
use swap_trade_backend.Common.{
  ℕ, zero, suc, ◌+◌, ◌-◌, ◌%◌, ◌==◌, ltb, leb, Bool, true, false, not, ◌&&◌, ◌||◌, Option, none,
  some, List, [], ◌∷◌, ◌++◌, map, length, keep_if, Map, lookup, insert, nat_key, codes_key,
  codes_same, if◌then◌else◌, Throws, ok, err, ◌>>=◌, ◌>>◌, raise_if, or_raise,
}

-- `toLowerCase` on addresses, which are ASCII.
abbrev pub to_lower_case : List ℕ → List ℕ
to_lower_case = map λ c. if leb 65 c && leb c 90 then c + 32 else c

abbrev pub includes : List ℕ → List (List ℕ) → Bool
includes a [] = false
includes a (b ∷ bs) = codes_same a b || includes a bs

-- `[...new Set(xs)]`
unfoldable pub unique : List (List ℕ) → List (List ℕ)
unique [] = []
unique (a ∷ rest) = a ∷ keep_if (λ b. not (codes_same b a)) (unique rest)

abbrev pub same_scheme : SignatureScheme → SignatureScheme → Bool
same_scheme SignatureScheme.ecdsa SignatureScheme.ecdsa = true
same_scheme SignatureScheme.eddsa SignatureScheme.eddsa = true
same_scheme SignatureScheme.schnorr SignatureScheme.schnorr = true
same_scheme _ _ = false

abbrev pub includes_scheme : SignatureScheme → List SignatureScheme → Bool
includes_scheme s [] = false
includes_scheme s (t ∷ ts) = same_scheme s t || includes_scheme s ts

abbrev pub or_default {ℓ} : {A : Type ℓ} → Option A → A → A
or_default none d = d
or_default (some a) d = a

abbrev last_hash : List AuditLog → Option ℕ
last_hash [] = none
last_hash (l ∷ []) = some l.hash
last_hash (l ∷ k ∷ ls) = last_hash (k ∷ ls)

abbrev pub write_audit : Outside → ℕ → AuditMetadata → ℕ → Custody → Custody
write_audit out now what resource c =
    let data_to_hash : AuditData = record {
      resource_id = resource;
      metadata = what;
      timestamp = now;
      previous_hash = last_hash c.audit;
    } in
    record c {
      audit = c.audit ++ record { entry = data_to_hash; hash = out.hash_entry data_to_hash } ∷ [];
    }

abbrev pub save_wallet : MultiSigWallet → Custody → Custody
save_wallet w c = record c { wallets = insert w.id w c.wallets }

abbrev pub save_escrow : EscrowAgreement → Custody → Custody
save_escrow e c = record c { escrows = insert e.id e c.escrows }

unfoldable pub create_wallet :
    Outside
    → ℕ
    → CreateMultiSigWalletDto
    → Custody
    → Throws MultisigError (MultiSigWallet × Custody)
unfolding unique
create_wallet out now dto c = do
  let signers = unique (map to_lower_case dto.signers)
  raise_if (ltb (length signers) dto.threshold) threshold_too_high
  let w : MultiSigWallet = record {
    id = c.next_id;
    name = dto.name;
    chain_id = dto.chain_id;
    signers = signers;
    threshold = dto.threshold;
    custody_model = or_default dto.custody_model decentralized;
    supported_schemes = or_default dto.supported_schemes (SignatureScheme.ecdsa ∷ []);
    hardware_required_above = or_default dto.hardware_required_above out.large_tx_threshold;
    hardware_signers = [];
  }
  ok (
    w,
    write_audit out now (wallet_created w.threshold (length w.signers) w.custody_model) w.id
        (save_wallet w (record c { next_id = c.next_id + 1 })),
  )

unfoldable pub register_hardware_wallet :
    Outside
    → ℕ
    → ℕ
    → RegisterHardwareWalletDto
    → Custody
    → Throws MultisigError (MultiSigWallet × Custody)
register_hardware_wallet out now id dto c = do
  w ← or_raise (lookup id c.wallets) wallet_not_found
  let signer = to_lower_case dto.signer_address
  raise_if (not (includes signer w.signers)) not_a_signer
  let device : HardwareSigner = record {
    fingerprint = dto.fingerprint;
    public_key = dto.public_key;
    added_at = now;
  }
  let saved = record w { hardware_signers = insert signer device w.hardware_signers }
  ok (
    saved,
    write_audit out now (hardware_registered signer dto.fingerprint) id (save_wallet saved c),
  )

-- A trade id of 0 counts as none.
abbrev pub trade_exists : Option ℕ → Custody → Bool
trade_exists none c = true
trade_exists (some t) c =
    let known = elim (lookup t c.trades) as (λ _. Bool) [ none ↦ false | some u ↦ true ] in
    t == 0 || known

unfoldable pub create_escrow :
    Outside → ℕ → CreateEscrowDto → Custody → Throws MultisigError (EscrowAgreement × Custody)
create_escrow out now dto c = do
  w ← or_raise (lookup dto.wallet_id c.wallets) wallet_not_found
  let required = or_default dto.required_approvals w.threshold
  raise_if (ltb (length w.signers) required) too_many_approvals
  raise_if (not (trade_exists dto.trade_id c)) trade_not_found
  let e : EscrowAgreement = record {
    id = c.next_id;
    trade_id = dto.trade_id;
    wallet_id = dto.wallet_id;
    chain_id = dto.chain_id;
    buyer = dto.buyer;
    seller = dto.seller;
    asset = dto.asset;
    token_address = dto.token_address;
    amount = dto.amount;
    status = pending_approval;
    required_approvals = required;
    approved_count = 0;
    executed_tx_hash = none;
    expires_at = dto.expires_at;
  }
  ok (
    e,
    write_audit out now (escrow_created dto.wallet_id dto.amount required w.custody_model) e.id
        (save_escrow e (record c { next_id = c.next_id + 1 })),
  )
