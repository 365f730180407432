-- ===== src/Swap/Refunds.antt =====
-- What a batch that is aborted does to the balances.
use swap_trade_backend.Common.{
  ℕ, ◌≡◌, refl, sym, ap, subst, ◌∙◌, ◌==◌, ==_iff, inl, inr, Option, none, some, List, [], ◌∷◌, Map,
  lookup, insert, nat_key, pair_key, err, ok, Bool-cases, Option-cases,
}
use swap_trade_backend.Common.{Number}
use swap_trade_backend.Swap.{SwapHistory, UserBalance, Balances, Db, World, Cache, Problem}
use swap_trade_backend.Swap.Settlement.{
  update_swap, within, settle, restore, mark_rolled_back, rollback,
}
use swap_trade_backend.Swap.Batch.{mark_aborted, rollback_all, update_all}
use swap_trade_backend.Swap.Outcome.{terms_of, IsKept, update_swap-IsKept}

module _ {F : Type 0} ⦃n : Number F⦄ where
  abbrev pub with_more : F → UserBalance F → UserBalance F
  with_more amount b = record b { balance = n.add b.balance amount }

  -- The amount of a swap, added to the user's balance of its first asset, if there is one.
  abbrev pub refund : Map ℕ ℕ → Option (ℕ × ℕ × ℕ × F) → Balances F → Balances F
  refund assets none balances = balances
  refund assets (some (user, from, to, amount)) balances = elim (lookup from assets) [
    | none ↦ balances
    | some asset ↦ elim (lookup (user, asset) balances) [
      | none ↦ balances
      | some b ↦ insert (b.user_id, b.asset_id) (with_more amount b) balances
    ]
  ]

  abbrev pub refunds : Db F → List ℕ → Balances F → Balances F
  refunds db [] balances = balances
  refunds db (id ∷ ids) balances =
      refunds db ids (refund db.assets (terms_of (lookup id db.swaps)) balances)

  -- The same swaps, on the same terms.
  abbrev IsAlike : Db F → Db F → Type 0
  IsAlike db after =
      (after.assets ≡ db.assets)
      × ((i : ℕ) → terms_of (lookup i after.swaps) ≡ terms_of (lookup i db.swaps))

  IsKept-IsAlike : (id : ℕ) (db after : Db F) → IsKept id db after → IsAlike db after
  IsKept-IsAlike id db after k = (
    k.assets,
    λ i. elim (Bool-cases (i == id)) [
      | inl e ↦
          let same : id ≡ i = sym ((==_iff i id).0 e) in
          subst (λ j. terms_of (lookup j after.swaps) ≡ terms_of (lookup j db.swaps)) same k.own
      | inr e ↦ ap (λ o. terms_of o) (k.others i e)
    ],
  )

  rollback-refund :
      (id : ℕ) (db : Db F)
      → ((rollback id db).balances ≡ refund db.assets (terms_of (lookup id db.swaps)) db.balances)
        × IsAlike db (rollback id db)
  unfolding rollback
  rollback-refund id db = elim (Option-cases (lookup id db.swaps)) [
    | inl e ↦ rw (e, rollback) (refl, (refl, λ i. refl))
    | inr (s, e) ↦ elim (Option-cases (lookup s.from_asset db.assets)) [
      | inl f ↦ rw (e, rollback, refund, f) (refl, (refl, λ i. refl))
      | inr (asset, f) ↦ elim (Option-cases (lookup (s.user_id, asset) db.balances)) [
        | inl g ↦
            let kept = update_swap-IsKept id mark_rolled_back db (λ t. refl) in
            rw (e, rollback, refund, f, g) (kept.balances, IsKept-IsAlike id db _ kept)
        | inr (b, g) ↦
            let paid = restore s.amount_in (some b) db in
            let kept = update_swap-IsKept id mark_rolled_back paid (λ t. refl) in
            rw (e, rollback, refund, f, g) (kept.balances, IsKept-IsAlike id paid _ kept)
      ]
    ]
  ]

  IsAlike-trans : (a b c : Db F) → IsAlike a b → IsAlike b c → IsAlike a c
  IsAlike-trans a b c h k = (k.0 ∙ h.0, λ i. k.1 i ∙ h.1 i)

  pub rollback_all-refunds :
      (ids : List ℕ) (db now : Db F)
      → IsAlike db now
      → (rollback_all ids now).balances ≡ refunds db ids now.balances
  rollback_all-refunds [] db now a = refl
  rollback_all-refunds (id ∷ ids) db now a =
      let (one, alike) = rollback-refund id now in
      let from_now : refund now.assets (terms_of (lookup id now.swaps)) now.balances
          ≡ refund db.assets (terms_of (lookup id db.swaps)) now.balances =
        ap (λ m. refund m (terms_of (lookup id now.swaps)) now.balances) a.0
        ∙ ap (λ o. refund db.assets o now.balances) (a.1 id) in
      rollback_all-refunds ids db (rollback id now) (IsAlike-trans db now (rollback id now) a alike)
      ∙ ap (λ b. refunds db ids b) (one ∙ from_now)

  pub update_all_balances :
      (ids : List ℕ) (p : Problem) (db : Db F)
      → (update_all ids (mark_aborted p) db).balances ≡ db.balances
  update_all_balances [] p db = refl
  update_all_balances (id ∷ ids) p db =
      update_all_balances ids p (update_swap id (mark_aborted p) db)
      ∙ (update_swap-IsKept id (mark_aborted p) db (λ s. refl)).balances

  -- From the world on, all of the first swaps settle, each after a mark on it, and the one after
  -- them throws.
  pub data IsAborted (cache : Cache F) (mark : SwapHistory F → SwapHistory F) (p : Problem)
      : List ℕ → List ℕ → World F → Type 0 where
    throws :
        (id : ℕ) (ids : List ℕ) (w : World F)
        → (settle cache id (within (update_swap id mark) w)).0 ≡ err p
        → IsAborted cache mark p [] (id ∷ ids) w
    settles :
        (id : ℕ) (settled ids : List ℕ) (w : World F) (trade : F × F × F)
        → (settle cache id (within (update_swap id mark) w)).0 ≡ ok trade
        → IsAborted cache mark p settled ids (settle cache id (within (update_swap id mark) w)).1
        → IsAborted cache mark p (id ∷ settled) (id ∷ ids) w
