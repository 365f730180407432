-- ===== src/Swap/Settled.antt =====
-- What one attempt to settle a swap comes to.
use swap_trade_backend.Common.{
  ℕ, ◌≡◌, refl, sym, ap, subst, ◌∙◌, ◌==◌, false, inl, inr, Option, some, lookup, nat_key, Throws,
  err, ok, lookup-insert, lookup-insert_self, Bool-cases, Option-cases, Throws-cases,
}
use swap_trade_backend.Common.{Number}
use swap_trade_backend.Swap.{SwapStatus, SwapHistory, Db, World, Cache, Problem, PriceQuote}
use swap_trade_backend.Swap.Pricing.{get_quote, validate_slippage, execute_amm_swap}
use swap_trade_backend.Swap.Settlement.{
  is_terminal, update_swap, update_balances, mark_breached, mark_completed, pay_out, settle_at,
  attempt_settlement,
}
use swap_trade_backend.Swap.Outcome.{
  terms_of, IsKept, IsKept-refl, IsKeyed, IsPaid, update_swap-IsKept, update_balances-IsPaid,
}

module _ {F : Type 0} ⦃n : Number F⦄ where
  abbrev pub IsCompleted : F → Option (SwapHistory F) → Type 0
  IsCompleted out o =
      (s : SwapHistory F) × (o ≡ some s)
      × (s.status ≡ SwapStatus.completed)
      × (s.amount_out ≡ some out)

  -- The user is paid once, on the terms of the swap, and the swap is completed.
  pub record IsSettled (id : ℕ) (db : Db F) (out : F) (after : Db F) : Type 0 where
    pub user : ℕ
    pub from : ℕ
    pub to : ℕ
    pub taken : F
    pub found : terms_of (lookup id db.swaps) ≡ some (user, from, to, taken)
    pub paid : IsPaid user from to taken out db.assets db.balances after.balances
    pub done : IsCompleted out (lookup id after.swaps)
    pub assets : after.assets ≡ db.assets
    pub others : (i : ℕ) → i == id ≡ false → lookup i after.swaps ≡ lookup i db.swaps

  pub kept-IsSettled :
      (id : ℕ) (db mid after : Db F) (out : F)
      → IsKept id db mid
      → IsSettled id mid out after
      → IsSettled id db out after
  kept-IsSettled id db mid after out k s = record {
    user = s.user;
    from = s.from;
    to = s.to;
    taken = s.taken;
    found = sym k.own ∙ s.found;
    paid =
        subst (λ b. IsPaid s.user s.from s.to s.taken out db.assets b after.balances) k.balances
          (subst (λ a. IsPaid s.user s.from s.to s.taken out a mid.balances after.balances) k.assets
            s.paid);
    done = s.done;
    assets = s.assets ∙ k.assets;
    others = λ i e. s.others i e ∙ k.others i e;
  }

  -- An attempt that throws keeps the balances, one that returns settles the swap.
  abbrev pub IsAttempt : ℕ → Db F → Throws Problem (F × F × F) × World F → Type 0
  IsAttempt id db (err p, w) = IsKept id db w.db
  IsAttempt id db (ok trade, w) = IsSettled id db trade.0 w.db

  pay_out-IsAttempt :
      (id : ℕ) (s : SwapHistory F) (quote : PriceQuote F) (actual : F) (trade : F × F × F) (at : ℕ)
      (w : World F)
      → IsKeyed w.db.balances
      → lookup id w.db.swaps ≡ some s
      → IsAttempt id w.db (pay_out id s quote actual trade at w)
  unfolding pay_out
  pay_out-IsAttempt id s quote actual trade at w keyed found =
      elim (Throws-cases
        (update_balances s.user_id s.from_asset s.to_asset s.amount_in trade.0 w.db)) [
          | inl (p, e) ↦ rw (e, pay_out) (IsKept-refl id w.db)
          | inr (db, e) ↦
              let (paid, swaps, assets) =
                update_balances-IsPaid s.user_id s.from_asset s.to_asset s.amount_in trade.0 w.db db
                  keyed e in
              let still : lookup id db.swaps ≡ some s = ap (λ m. lookup id m) swaps ∙ found in
              let mark = mark_completed trade actual quote.price_impact at in
              rw (e, pay_out, update_swap, still)
                (record {
                  user = s.user_id;
                  from = s.from_asset;
                  to = s.to_asset;
                  taken = s.amount_in;
                  found = ap (λ o. terms_of o) found;
                  paid = paid;
                  done = (mark s, lookup-insert_self id (mark s) db.swaps, refl, refl);
                  assets = assets;
                  others = λ i h.
                      (rw (lookup-insert i id (mark s) db.swaps, h) refl)
                      ∙ ap (λ m. lookup i m) swaps;
                })
        ]

  settle_at-IsAttempt :
      (id : ℕ) (s : SwapHistory F) (quote : PriceQuote F) (at : ℕ) (w : World F)
      → IsKeyed w.db.balances
      → lookup id w.db.swaps ≡ some s
      → IsAttempt id w.db (settle_at id s quote at w)
  unfolding settle_at
  settle_at-IsAttempt id s quote at w keyed found =
      let checked = validate_slippage s.quoted_rate quote.rate s.slippage_tolerance in
      elim (Bool-cases checked.0) [
        | inl v ↦
            elim (Throws-cases (execute_amm_swap s.from_asset s.to_asset s.amount_in w.pools)) [
              | inl (p, e) ↦ rw (v, e, settle_at) (IsKept-refl id w.db)
              | inr (traded, e) ↦
                  rw (v, e, settle_at)
                    (pay_out-IsAttempt id s quote checked.1 traded.0 at
                      (record w { pools = traded.1 }) keyed found)
            ]
        | inr v ↦
            rw (v, settle_at) (update_swap-IsKept id (mark_breached checked.1) w.db (λ t. refl))
      ]

  pub get_quote_db :
      (cache : Cache F) (from to : ℕ) (amount : F) (w : World F)
      → (get_quote cache from to amount w).1.db ≡ w.db
  unfolding get_quote
  get_quote_db cache from to amount w = elim (Option-cases (cache.get w.lookups)) [
    | inl e ↦ rw (e, get_quote) refl
    | inr (q, e) ↦ rw (e, get_quote) refl
  ]

  pub attempt_settlement-IsAttempt :
      (cache : Cache F) (id : ℕ) (w : World F)
      → IsKeyed w.db.balances
      → IsAttempt id w.db (attempt_settlement cache id w)
  unfolding attempt_settlement
  attempt_settlement-IsAttempt cache id w keyed = elim (Option-cases (lookup id w.db.swaps)) [
    | inl e ↦ rw (e, attempt_settlement) (IsKept-refl id w.db)
    | inr (s, e) ↦ elim (Bool-cases (is_terminal s.status)) [
      | inl t ↦ rw (e, t, attempt_settlement) (IsKept-refl id w.db)
      | inr t ↦
          let asked = get_quote cache s.from_asset s.to_asset s.amount_in w in
          let same = get_quote_db cache s.from_asset s.to_asset s.amount_in w in
          elim (Throws-cases asked.0) [
            | inl (p, q) ↦
                rw (e, t, q, attempt_settlement)
                  (subst (λ d. IsKept id w.db d) (sym same) (IsKept-refl id w.db))
            | inr (quote, q) ↦
                rw (e, t, q, attempt_settlement)
                  (subst
                    (λ d. IsAttempt id d (settle_at id s quote (cache.now asked.1.lookups) asked.1))
                    same
                    (settle_at-IsAttempt id s quote (cache.now asked.1.lookups) asked.1
                      (rw same keyed) (ap (λ d. lookup id d.swaps) same ∙ e)))
          ]
    ]
  ]
