-- ===== src/Multisig/Wallets.antt =====
-- Creating wallets and escrows and registering devices keeps a custody valid.
use swap_trade_backend.Common.{
  ℕ, ◌+◌, ◌≤◌, ◌<◌, ◌≡◌, refl, ltb, inl, inr, some, List, [], ◌∷◌, map, length, lookup, insert_all,
  nat_key, codes_key, All, All-map, arith, Bool-cases, Option-cases, sym, subst, Throws, ok, err,
}
use swap_trade_backend.Multisig.{
  MultiSigWallet, EscrowAgreement, MultiSigApproval, Custody, Outside, MultisigError,
  CreateMultiSigWalletDto, RegisterHardwareWalletDto, CreateEscrowDto, includes, unique,
  to_lower_case, create_wallet, register_hardware_wallet, create_escrow, trade_exists, or_default,
}
use swap_trade_backend.Multisig.Approval.{count_approved}
use swap_trade_backend.Multisig.Invariant.{
  IsValid, IsAuthorized, IsBacked, IsNumbered, IsValid-Extends, kept_entry, kept_entry-fresh,
}

-- What a call leaves: a valid custody, or the old one behind an exception.
abbrev pub Keeps : {A : Type 0} → Throws MultisigError (A × Custody) → Type 0
Keeps (ok (_, c)) = IsValid c
Keeps (err e) = Unit

abbrev pub SameWallet : EscrowAgreement → EscrowAgreement → Type 0
SameWallet e f = f.wallet_id ≡ e.wallet_id

abbrev SameSigners : MultiSigWallet → MultiSigWallet → Type 0
SameSigners w x = x.signers ≡ w.signers

pub later_IsBacked :
    (approvals : List MultiSigApproval) (next id : ℕ) (e : EscrowAgreement)
    → IsBacked approvals next id e
    → IsBacked approvals (next + 1) id e
later_IsBacked approvals next id e b =
    let k = b.known in
    record { keyed = b.keyed; known = omega arith; counted = b.counted; reached = b.reached }

pub create_wallet-Keeps :
    (out : Outside) (now : ℕ) (dto : CreateMultiSigWalletDto) (c : Custody)
    → IsValid c
    → Keeps (create_wallet out now dto c)
unfolding create_wallet
create_wallet-Keeps out now dto c v =
    elim (Bool-cases (ltb (length (unique (map to_lower_case dto.signers))) dto.threshold)) [
      | inl t ↦ rw (t, create_wallet) tt
      | inr t ↦
          rw (t, create_wallet)
            (IsValid-Extends c _ v refl
              (
                λ i e h. (e, h, refl),
                kept_entry-fresh c.next_id _ c.wallets SameSigners
                    (λ i w h. (v.wallets_numbered i w h).1) (λ w. refl),
              )
              (insert_all (IsNumbered (c.next_id + 1)) c.next_id _ c.wallets (refl, omega arith)
                (λ i w h _. let (a, b) = v.wallets_numbered i w h in (a, omega arith)))
              (λ i e h. later_IsBacked c.approvals c.next_id i e (v.escrows_backed i e h)))
    ]

pub register_hardware_wallet-Keeps :
    (out : Outside) (now id : ℕ) (dto : RegisterHardwareWalletDto) (c : Custody)
    → IsValid c
    → Keeps (register_hardware_wallet out now id dto c)
unfolding register_hardware_wallet
register_hardware_wallet-Keeps out now id dto c v = elim (Option-cases (lookup id c.wallets)) [
  | inl e ↦ rw (e, register_hardware_wallet) tt
  | inr (w, e) ↦
      let (a, b) = v.wallets_numbered id w e in
      let found : lookup w.id c.wallets ≡ some w =
        subst (λ x. lookup x c.wallets ≡ some w) (sym a) e in
      rw (e, register_hardware_wallet)
        (elim (Bool-cases (includes (to_lower_case dto.signer_address) w.signers)) [
          | inr t ↦ rw (t, register_hardware_wallet) tt
          | inl t ↦
              rw (t, register_hardware_wallet)
                (IsValid-Extends c _ v refl
                  (
                    λ i e h. (e, h, refl),
                    kept_entry w.id _ w c.wallets SameSigners found refl (λ w. refl),
                  )
                  (insert_all (IsNumbered c.next_id) w.id _ c.wallets (refl, rw a b)
                    (λ i w h _. v.wallets_numbered i w h))
                  v.escrows_backed)
        ])
]

count_approved-none :
    (n id : ℕ) (approvals : List MultiSigApproval)
    → All (λ a. a.escrow_id < n) approvals
    → n ≤ id
    → count_approved id approvals ≡ 0
unfolding count_approved
count_approved-none n id [] a h = refl
count_approved-none n id (x ∷ rest) a h = ground (arith, count_approved-none n id rest a.1)

pub old_approvals : (c : Custody) → IsValid c → All (λ a. a.escrow_id < c.next_id) c.approvals
old_approvals c v =
    All-map (IsAuthorized c) (λ a. a.escrow_id < c.next_id)
      (λ a h. let (e, w, p, _, _, _) = h in (v.escrows_backed a.escrow_id e p).known) c.approvals
      v.authorized

pub create_escrow-Keeps :
    (out : Outside) (now : ℕ) (dto : CreateEscrowDto) (c : Custody)
    → IsValid c
    → Keeps (create_escrow out now dto c)
unfolding create_escrow
create_escrow-Keeps out now dto c v = elim (Option-cases (lookup dto.wallet_id c.wallets)) [
  | inl e ↦ rw (e, create_escrow) tt
  | inr (w, e) ↦
      rw (e, create_escrow)
        (elim (Bool-cases
          (ltb (length w.signers) (or_default dto.required_approvals w.threshold))) [
            | inl t ↦ rw (t, create_escrow) tt
            | inr t ↦
                rw (t, create_escrow)
                  (elim (Bool-cases (trade_exists dto.trade_id c)) [
                    | inr n ↦ rw (n, create_escrow) tt
                    | inl n ↦
                        rw (n, create_escrow)
                          (IsValid-Extends c _ v refl
                            (
                              kept_entry-fresh c.next_id _ c.escrows SameWallet
                                  (λ i e h. (v.escrows_backed i e h).known) (λ e. refl),
                              λ i w h. (w, h, refl),
                            )
                            (λ i w h. let (a, b) = v.wallets_numbered i w h in (a, omega arith))
                            (insert_all (IsBacked c.approvals (c.next_id + 1)) c.next_id _ c.escrows
                              (record {
                                keyed = refl;
                                known = omega arith;
                                counted = sym (
                                    count_approved-none c.next_id c.next_id c.approvals
                                      (old_approvals c v) (omega arith));
                                reached = λ r. cc;
                              })
                              (λ i e h _.
                                later_IsBacked c.approvals c.next_id i e (v.escrows_backed i e h))))
                  ])
          ])
]
