-- ===== src/Swap/Unpooled.antt =====
-- Swaps between assets that share no pool.
use swap_trade_backend.Common.{
  ℕ, zero, suc, ◌+◌, ◌≡◌, refl, sym, ap, subst, ◌∙◌, inl, inr, none, some, lookup, nat_key, Throws,
  err, ok, Bool-cases, Option-cases, Throws-cases,
}
use swap_trade_backend.Common.{Number}
use swap_trade_backend.Swap.{SwapHistory, World, Cache, Problem, PriceQuote}
use swap_trade_backend.Swap.Pricing.{get_pool, get_quote, validate_slippage, execute_amm_swap}
use swap_trade_backend.Swap.Settlement.{
  is_terminal, update_swap, within, mark_breached, settle_at, attempt_settlement, mark_retrying,
  mark_exhausted, settle_loop, settle,
}
use swap_trade_backend.Swap.Outcome.{
  terms, terms_of, IsKept, IsKept-refl, IsKept-trans, update_swap-IsKept,
}
use swap_trade_backend.Swap.Settled.{get_quote_db}

module _ {F : Type 0} ⦃n : Number F⦄ where
  get_quote_pools :
      (cache : Cache F) (from to : ℕ) (amount : F) (w : World F)
      → (get_quote cache from to amount w).1.pools ≡ w.pools
  unfolding get_quote
  get_quote_pools cache from to amount w = elim (Option-cases (cache.get w.lookups)) [
    | inl e ↦ rw (e, get_quote) refl
    | inr (q, e) ↦ rw (e, get_quote) refl
  ]

  -- An exception, with the balances and the pools as they were.
  abbrev IsRefused : ℕ → World F → Throws Problem (F × F × F) × World F → Type 0
  IsRefused id w (ok t, after) = ⊥
  IsRefused id w (err p, after) = IsKept id w.db after.db × (after.pools ≡ w.pools)

  -- What a swap between assets without a pool looks like.
  abbrev IsUnpooled : ℕ → World F → Type 0
  IsUnpooled id w =
      (s : SwapHistory F)
      → lookup id w.db.swaps ≡ some s
      → get_pool s.from_asset s.to_asset w.pools ≡ none

  settle_at-IsRefused :
      (id : ℕ) (s : SwapHistory F) (quote : PriceQuote F) (at : ℕ) (w : World F)
      → get_pool s.from_asset s.to_asset w.pools ≡ none
      → IsRefused id w (settle_at id s quote at w)
  unfolding settle_at execute_amm_swap
  settle_at-IsRefused id s quote at w none_found =
      let checked = validate_slippage s.quoted_rate quote.rate s.slippage_tolerance in
      elim (Bool-cases checked.0) [
        | inl v ↦ rw (v, settle_at, execute_amm_swap, none_found) (IsKept-refl id w.db, refl)
        | inr v ↦
            rw (v, settle_at)
              (update_swap-IsKept id (mark_breached checked.1) w.db (λ t. refl), refl)
      ]

  refused_parts :
      (id : ℕ) (w : World F) (p : Problem) (r : Throws Problem (F × F × F) × World F)
      → r.0 ≡ err p
      → IsRefused id w r
      → IsKept id w.db r.1.db × (r.1.pools ≡ w.pools)
  refused_parts id w p (err q, after) e h = h
  refused_parts id w p (ok t, after) e h = absurd h

  shifted-IsRefused :
      (id : ℕ) (w mid : World F) (r : Throws Problem (F × F × F) × World F)
      → IsKept id w.db mid.db
      → mid.pools ≡ w.pools
      → IsRefused id mid r
      → IsRefused id w r
  shifted-IsRefused id w mid (ok t, after) kept e h = h
  shifted-IsRefused id w mid (err p, after) kept e h =
      (IsKept-trans id w.db mid.db after.db kept h.0, h.1 ∙ e)

  asked_IsRefused :
      (id : ℕ) (w asked : World F) (r : Throws Problem (F × F × F) × World F)
      → asked.db ≡ w.db
      → asked.pools ≡ w.pools
      → IsRefused id asked r
      → IsRefused id w r
  asked_IsRefused id w asked (ok t, after) e f h = h
  asked_IsRefused id w asked (err p, after) e f h =
      (subst (λ d. IsKept id d after.db) e h.0, h.1 ∙ f)

  attempt_settlement-IsRefused :
      (cache : Cache F) (id : ℕ) (w : World F)
      → IsUnpooled id w
      → IsRefused id w (attempt_settlement cache id w)
  unfolding attempt_settlement
  attempt_settlement-IsRefused cache id w u = elim (Option-cases (lookup id w.db.swaps)) [
    | inl e ↦ rw (e, attempt_settlement) (IsKept-refl id w.db, refl)
    | inr (s, e) ↦ elim (Bool-cases (is_terminal s.status)) [
      | inl t ↦ rw (e, t, attempt_settlement) (IsKept-refl id w.db, refl)
      | inr t ↦
          let asked = get_quote cache s.from_asset s.to_asset s.amount_in w in
          let same = get_quote_db cache s.from_asset s.to_asset s.amount_in w in
          let pools = get_quote_pools cache s.from_asset s.to_asset s.amount_in w in
          elim (Throws-cases asked.0) [
            | inl (p, q) ↦
                rw (e, t, q, attempt_settlement)
                  (subst (λ d. IsKept id w.db d) (sym same) (IsKept-refl id w.db), pools)
            | inr (quote, q) ↦
                rw (e, t, q, attempt_settlement)
                  (asked_IsRefused id w asked.1
                    (settle_at id s quote (cache.now asked.1.lookups) asked.1) same pools
                    (settle_at-IsRefused id s quote (cache.now asked.1.lookups) asked.1
                      (ap (λ m. get_pool s.from_asset s.to_asset m) pools ∙ u s e)))
          ]
    ]
  ]

  -- The swap is still without a pool, after a mark on it.
  marked-IsUnpooled :
      (id : ℕ) (change : SwapHistory F → SwapHistory F) (w after : World F)
      → ((s : SwapHistory F) → terms (change s) ≡ terms s)
      → IsKept id w.db after.db
      → after.pools ≡ w.pools
      → IsUnpooled id w
      → IsUnpooled id (within (update_swap id change) after)
  marked-IsUnpooled id change w after same kept pools u s found =
      let k =
        IsKept-trans id w.db after.db (update_swap id change after.db) kept
          (update_swap-IsKept id change after.db same) in
      elim (Option-cases (lookup id w.db.swaps)) [
        | inl e ↦
            let own : none ≡ some (terms s) =
              sym (ap (λ o. terms_of o) e) ∙ sym k.own ∙ ap (λ o. terms_of o) found in
            cc
        | inr (t, e) ↦
            let own : some (terms s) ≡ some (terms t) =
              sym (ap (λ o. terms_of o) found) ∙ k.own ∙ ap (λ o. terms_of o) e in
            let one : terms s ≡ terms t = cc in
            ap (λ m. get_pool s.from_asset s.to_asset m) pools
            ∙ ap (λ x. get_pool x.1 x.2 w.pools) one
            ∙ u t e
      ]

  -- An exception and a mark on the swap.
  marked-IsRefused :
      (id : ℕ) (change : SwapHistory F → SwapHistory F) (p : Problem) (w : World F)
      (r : Throws Problem (F × F × F) × World F)
      → ((s : SwapHistory F) → terms (change s) ≡ terms s)
      → r.0 ≡ err p
      → IsRefused id w r
      → IsRefused id w (err p, within (update_swap id change) r.1)
  marked-IsRefused id change p w (err q, after) same e h = (
    IsKept-trans id w.db after.db (update_swap id change after.db) h.0
        (update_swap-IsKept id change after.db same),
    h.1,
  )
  marked-IsRefused id change p w (ok t, after) same e h = absurd h

  returned_IsRefused :
      (id : ℕ) (t : F × F × F) (w : World F) (r : Throws Problem (F × F × F) × World F)
      → r.0 ≡ ok t
      → IsRefused id w r
      → ⊥
  returned_IsRefused id t w (err p, after) e h = cc
  returned_IsRefused id t w (ok u, after) e h = h

  settle_loop-IsRefused :
      (cache : Cache F) (id left attempt : ℕ) (w : World F)
      → IsUnpooled id w
      → IsRefused id w (settle_loop cache id left attempt w)
  unfolding settle_loop
  settle_loop-IsRefused cache id zero attempt w u =
      let tried = attempt_settlement cache id w in
      let one = attempt_settlement-IsRefused cache id w u in
      elim (Throws-cases tried.0) [
        | inl (p, e) ↦
            rw (e, settle_loop) (marked-IsRefused id (mark_exhausted p) p w tried (λ s. refl) e one)
        | inr (t, e) ↦ absurd (returned_IsRefused id t w tried e one)
      ]
  settle_loop-IsRefused cache id (suc left) attempt w u =
      let tried = attempt_settlement cache id w in
      let one = attempt_settlement-IsRefused cache id w u in
      elim (Throws-cases tried.0) [
        | inl (p, e) ↦
            let mark = mark_retrying (attempt + 1) in
            let next = within (update_swap id mark) tried.1 in
            let (kept, pools) = marked-IsRefused id mark p w tried (λ s. refl) e one in
            let (before, same) = refused_parts id w p tried e one in
            rw (e, settle_loop)
              (shifted-IsRefused id w next (settle_loop cache id left (attempt + 1) next) kept pools
                (settle_loop-IsRefused cache id left (attempt + 1) next
                  (marked-IsUnpooled id mark w tried.1 (λ s. refl) before same u)))
        | inr (t, e) ↦ absurd (returned_IsRefused id t w tried e one)
      ]

  refused_outcome :
      (id : ℕ) (w : World F) (r : Throws Problem (F × F × F) × World F)
      → IsRefused id w r
      → ((p : Problem) × (r.0 ≡ err p)) × IsKept id w.db r.1.db × (r.1.pools ≡ w.pools)
  refused_outcome id w (ok t, after) h = absurd h
  refused_outcome id w (err p, after) h = ((p, refl), h.0, h.1)

  -- A swap between assets that share no pool is never settled, whatever quote its route had: the
  -- settlement throws, and no balance, no pool and no other swap has changed.
  pub settle-unpooled :
      (cache : Cache F) (id : ℕ) (w : World F)
      → ((s : SwapHistory F)
          → lookup id w.db.swaps ≡ some s
          → get_pool s.from_asset s.to_asset w.pools ≡ none)
      → let r = settle cache id w in
        ((p : Problem) × (r.0 ≡ err p)) × IsKept id w.db r.1.db × (r.1.pools ≡ w.pools)
  unfolding settle
  settle-unpooled cache id w u =
      refused_outcome id w (settle cache id w) (settle_loop-IsRefused cache id 3 0 w u)
