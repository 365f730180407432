-- ===== src/Swap/Outcome.antt =====
-- What the settlement of a swap does to the tables, whatever attempts it takes.
use swap_trade_backend.Common.{
  ℕ, ◌≡◌, refl, ap, subst, ◌∙◌, ◌==◌, false, inl, inr, Option, none, some, Map, lookup, insert,
  nat_key, pair_key, pair_same, if◌then◌else◌, ok, lookup-insert, lookup-insert_self, Bool-cases,
  Option-cases, ok_injective,
}
use swap_trade_backend.Common.{Number}
use swap_trade_backend.Swap.{SwapHistory, UserBalance, Balances, Db}
use swap_trade_backend.Swap.Settlement.{update_swap, save_balance, paid_in, update_balances}

module _ {F : Type 0} where
  -- What a swap is about, apart from how far it is.
  abbrev pub terms : SwapHistory F → ℕ × ℕ × ℕ × F
  terms s = (s.user_id, s.from_asset, s.to_asset, s.amount_in)

  abbrev pub terms_of : Option (SwapHistory F) → Option (ℕ × ℕ × ℕ × F)
  terms_of none = none
  terms_of (some s) = some (terms s)

  -- No balance moves, and only the progress of the swap `id` may have changed.
  pub record IsKept (id : ℕ) (db after : Db F) : Type 0 where
    pub balances : after.balances ≡ db.balances
    pub assets : after.assets ≡ db.assets
    pub others : (i : ℕ) → i == id ≡ false → lookup i after.swaps ≡ lookup i db.swaps
    pub own : terms_of (lookup id after.swaps) ≡ terms_of (lookup id db.swaps)

  pub IsKept-refl : (id : ℕ) (db : Db F) → IsKept id db db
  IsKept-refl id db = record { balances = refl; assets = refl; others = λ i h. refl; own = refl }

  pub IsKept-trans : (id : ℕ) (a b c : Db F) → IsKept id a b → IsKept id b c → IsKept id a c
  IsKept-trans id a b c h k = record {
    balances = k.balances ∙ h.balances;
    assets = k.assets ∙ h.assets;
    others = λ i e. k.others i e ∙ h.others i e;
    own = k.own ∙ h.own;
  }

  abbrev pub balance_key : UserBalance F → ℕ × ℕ
  balance_key b = (b.user_id, b.asset_id)

  -- Each balance stands under its user and its asset.
  abbrev pub IsKeyed : Balances F → Type 0
  IsKeyed balances =
      (k : ℕ × ℕ) (b : UserBalance F) → lookup k balances ≡ some b → balance_key b ≡ k

module _ {F : Type 0} ⦃n : Number F⦄ where
  -- The balances after a payment: of the amounts, one is taken and the other is added, in this
  -- order, and no other balance changes.
  pub record IsPaid (user from to : ℕ) (taken given : F) (assets : Map ℕ ℕ)
      (balances after : Balances F) : Type 0 where
    pub asset_in : ℕ
    pub asset_out : ℕ
    pub source : UserBalance F
    pub knows_in : lookup from assets ≡ some asset_in
    pub knows_out : lookup to assets ≡ some asset_out
    pub has_source : lookup (user, asset_in) balances ≡ some source
    pub is_enough : n.lt source.balance taken ≡ false
    pub moved :
        (k : ℕ × ℕ)
        → lookup k after ≡ (
            if pair_same k (user, asset_out)
            then some (paid_in user asset_out given (lookup (user, asset_out) balances))
            else if pair_same k (user, asset_in)
            then some (record source { balance = n.sub source.balance taken })
            else lookup k balances)

  pub update_swap-IsKept :
      (id : ℕ) (change : SwapHistory F → SwapHistory F) (db : Db F)
      → ((s : SwapHistory F) → terms (change s) ≡ terms s)
      → IsKept id db (update_swap id change db)
  update_swap-IsKept id change db same = elim (Option-cases (lookup id db.swaps)) [
    | inl e ↦ rw (e, update_swap) (IsKept-refl id db)
    | inr (s, e) ↦
        rw (e, update_swap)
          (record {
            balances = refl;
            assets = refl;
            others = λ i h. rw (lookup-insert i id (change s) db.swaps, h) refl;
            own = rw (lookup-insert_self id (change s) db.swaps, e) (ap (λ t. some t) (same s));
          })
  ]

  pub paid_in_key :
      (user asset : ℕ) (given : F) (o : Option (UserBalance F))
      → ((b : UserBalance F) → o ≡ some b → balance_key b ≡ (user, asset))
      → balance_key (paid_in user asset given o) ≡ (user, asset)
  paid_in_key user asset given none keyed = refl
  paid_in_key user asset given (some b) keyed = keyed b refl

  -- Two balances that are saved under their keys.
  lookup-save_balance :
      (db : Db F) (source target : UserBalance F) (p q k : ℕ × ℕ)
      → balance_key source ≡ p
      → balance_key target ≡ q
      → lookup k (save_balance target (save_balance source db)).balances ≡ (
          if pair_same k q
          then some target
          else if pair_same k p
          then some source
          else lookup k db.balances)
  lookup-save_balance db source target p q k e h =
      rw
        (
          h,
          e,
          lookup-insert k q target (insert p source db.balances),
          lookup-insert k p source db.balances,
        )
        refl

  pub update_balances-IsPaid :
      (user from to : ℕ) (taken given : F) (db after : Db F)
      → IsKeyed db.balances
      → update_balances user from to taken given db ≡ ok after
      → IsPaid user from to taken given db.assets db.balances after.balances
        × (after.swaps ≡ db.swaps)
        × (after.assets ≡ db.assets)
  unfolding update_balances
  update_balances-IsPaid user from to taken given db after keyed h =
      elim (Option-cases (lookup from db.assets)) [
        | inl e ↦ let x = rw (e, update_balances) at h in cc
        | inr (a, e) ↦ elim (Option-cases (lookup to db.assets)) [
          | inl f ↦ let x = rw (e, f, update_balances) at h in cc
          | inr (b, f) ↦ elim (Option-cases (lookup (user, a) db.balances)) [
            | inl g ↦ let x = rw (e, f, g, update_balances) at h in cc
            | inr (source, g) ↦ elim (Bool-cases (n.lt source.balance taken)) [
              | inl t ↦ let x = rw (e, f, g, t, update_balances) at h in cc
              | inr t ↦
                  let saved = rw (e, f, g, t, update_balances) at h in
                  let less = record source { balance = n.sub source.balance taken } in
                  let target = paid_in user b given (lookup (user, b) db.balances) in
                  subst
                    (λ x.
                      IsPaid user from to taken given db.assets db.balances x.balances
                      × (x.swaps ≡ db.swaps)
                      × (x.assets ≡ db.assets))
                    (ok_injective (save_balance target (save_balance less db)) after saved)
                    (
                      record {
                        asset_in = a;
                        asset_out = b;
                        source = source;
                        knows_in = e;
                        knows_out = f;
                        has_source = g;
                        is_enough = t;
                        moved = λ k.
                            lookup-save_balance db less target (user, a) (user, b) k
                              (keyed (user, a) source g)
                              (paid_in_key user b given (lookup (user, b) db.balances)
                                (keyed (user, b)));
                      },
                      refl,
                      refl,
                    )
            ]
          ]
        ]
      ]
