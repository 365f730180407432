-- ===== src/Multisig/Invariant.antt =====
-- What holds of a custody between two calls.
use swap_trade_backend.Common.{
  ℕ, ◌≤◌, ◌<◌, ◌≡◌, refl, ◌==◌, Bool, true, false, ◌&&◌, inl, inr, some, List, [], ◌∷◌, Map, lookup,
  insert, lookup-insert, nat_key, codes_key, codes_same, All, All-map, arith, Bool-cases, sym,
  subst,
}
use swap_trade_backend.Multisig.{
  MultiSigWallet, EscrowAgreement, MultiSigApproval, EscrowStatus, Custody, includes,
}
use swap_trade_backend.Multisig.Approval.{is_counted, count_approved}

-- No later approval is by the same signer on the same escrow.
abbrev pub IsOncePerSigner : List MultiSigApproval → Type 0
IsOncePerSigner [] = Unit
IsOncePerSigner (a ∷ rest) =
    All (λ b. b.escrow_id == a.escrow_id && codes_same b.signer_address a.signer_address ≡ false)
      rest
    × IsOncePerSigner rest

-- The approval counts, and its signer is one of the wallet of its escrow.
abbrev pub IsAuthorized : Custody → MultiSigApproval → Type 0
IsAuthorized c a =
    (e : EscrowAgreement) × (w : MultiSigWallet) × (lookup a.escrow_id c.escrows ≡ some e)
    × (lookup e.wallet_id c.wallets ≡ some w)
    × (includes a.signer_address w.signers ≡ true)
    × (is_counted a.status ≡ true)

abbrev pub is_released : EscrowStatus → Bool
is_released EscrowStatus.approved = true
is_released EscrowStatus.executed = true
is_released _ = false

-- The stored count is that of the approvals, and it was reached before anything was released.
pub record IsBacked (approvals : List MultiSigApproval) (next id : ℕ) (e : EscrowAgreement)
    : Type 0 where
  pub keyed : e.id ≡ id
  pub known : id < next
  pub counted : e.approved_count ≡ count_approved id approvals
  pub reached : is_released e.status ≡ true → e.required_approvals ≤ e.approved_count

abbrev pub IsNumbered : ℕ → ℕ → MultiSigWallet → Type 0
IsNumbered next id w = (w.id ≡ id) × (id < next)

pub record IsValid (c : Custody) : Type 0 where
  pub once : IsOncePerSigner c.approvals
  pub authorized : All (IsAuthorized c) c.approvals
  pub wallets_numbered :
      (id : ℕ) (w : MultiSigWallet) → lookup id c.wallets ≡ some w → IsNumbered c.next_id id w
  pub escrows_backed :
      (id : ℕ) (e : EscrowAgreement)
      → lookup id c.escrows ≡ some e
      → IsBacked c.approvals c.next_id id e

-- Escrows keep their wallets, and wallets their signers.
abbrev pub Extends : Custody → Custody → Type 0
Extends c d =
    ((id : ℕ) (e : EscrowAgreement)
      → lookup id c.escrows ≡ some e
      → (f : EscrowAgreement) × (lookup id d.escrows ≡ some f) × (f.wallet_id ≡ e.wallet_id))
    × ((id : ℕ) (w : MultiSigWallet)
        → lookup id c.wallets ≡ some w
        → (x : MultiSigWallet) × (lookup id d.wallets ≡ some x) × (x.signers ≡ w.signers))

pub IsAuthorized-Extends :
    (c d : Custody) → Extends c d → (a : MultiSigApproval) → IsAuthorized c a → IsAuthorized d a
IsAuthorized-Extends c d x a (e, w, p, q, r, s) =
    let (f, pf, same) = x.0 a.escrow_id e p in
    let (y, py, signers) = x.1 e.wallet_id w q in (f, y, pf, rw same py, rw signers r, s)

-- One entry of a map of numbered things is written: an old one or the next.
pub kept_entry {κ} :
    {V : Type κ} (j : ℕ) (new old : V) (m : Map ℕ V) (R : V → V → Type 0)
    → lookup j m ≡ some old
    → R old new
    → ((v : V) → R v v)
    → (i : ℕ) (v : V) → lookup i m ≡ some v
    → (u : V) × (lookup i (insert j new m) ≡ some u) × R v u
kept_entry {V = V} j new old m R e r reflexive i v h = elim (Bool-cases (i == j)) [
  | inl s ↦
      let at : i ≡ j = ground arith in
      let same : old ≡ v = ground arith in
      (new, rw (lookup-insert i j new m, s) refl, subst (λ x. R x new) same r)
  | inr s ↦ (v, rw (lookup-insert i j new m, s) h, reflexive v)
]

pub kept_entry-fresh {κ} :
    {V : Type κ} (j : ℕ) (new : V) (m : Map ℕ V) (R : V → V → Type 0)
    → ((i : ℕ) (v : V) → lookup i m ≡ some v → i < j)
    → ((v : V) → R v v)
    → (i : ℕ) (v : V) → lookup i m ≡ some v
    → (u : V) × (lookup i (insert j new m) ≡ some u) × R v u
kept_entry-fresh j new m R below reflexive i v h =
    let lt = below i v h in
    let other : i == j ≡ false = ground arith in
    (v, rw (lookup-insert i j new m, other) h, reflexive v)

-- A state with the same approvals.
pub IsValid-Extends :
    (c d : Custody)
    → IsValid c
    → d.approvals ≡ c.approvals
    → Extends c d
    → ((id : ℕ) (w : MultiSigWallet) → lookup id d.wallets ≡ some w → IsNumbered d.next_id id w)
    → ((id : ℕ) (e : EscrowAgreement)
        → lookup id d.escrows ≡ some e
        → IsBacked c.approvals d.next_id id e)
    → IsValid d
IsValid-Extends c d v same x numbered backed = record {
  once = rw same v.once;
  authorized = subst (All (IsAuthorized d)) (sym same) (
      All-map (IsAuthorized c) (IsAuthorized d) (IsAuthorized-Extends c d x) c.approvals
        v.authorized);
  wallets_numbered = numbered;
  escrows_backed = λ id e h. rw same (backed id e h);
}
