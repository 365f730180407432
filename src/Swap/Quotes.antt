-- ===== src/Swap/Quotes.antt =====
-- Every route that is found can be quoted: the pools cover the graph of routes, and trading keeps
-- them.
use swap_trade_backend.Common.{
  ℕ, ◌≡◌, refl, sym, ap, subst, ◌∙◌, true, inl, inr, ◌⊎◌, none, some, List, [], ◌∷◌, lookup, insert,
  pair_key, lookup-insert, err, ok, is_some, Bool-cases, Option-cases, arith, ok_injective,
}
use swap_trade_backend.Common.{Number}
use swap_trade_backend.Swap.{Pools, PoolState, PriceQuote, Problem}
use swap_trade_backend.Swap.Pricing.{
  route_graph, has, last_of, rounds, initial_pools, get_pool, write_pool, find_optimal_route,
  simulate_amm_swap, trade_with, execute_amm_swap, quote_hop, quote_hops, quote_along_route,
  quote_for, priced,
}
use swap_trade_backend.Swap.Routes.{IsHops, IsPath, search-IsPath}

module _ {F : Type 0} ⦃n : Number F⦄ where
  is_some-insert :
      (k j : ℕ × ℕ) (p : PoolState F) (pools : Pools F)
      → is_some (lookup k pools) ≡ true
      → is_some (lookup k (insert j p pools)) ≡ true
  is_some-insert k j p pools h = rw (lookup-insert k j p pools) (ground arith)

  get_pool-insert :
      (a b : ℕ) (j : ℕ × ℕ) (p : PoolState F) (pools : Pools F)
      → is_some (get_pool a b pools) ≡ true
      → is_some (get_pool a b (insert j p pools)) ≡ true
  get_pool-insert a b j p pools h = elim (Option-cases (lookup (a, b) (insert j p pools))) [
    | inr (x, e) ↦ rw (e, get_pool) refl
    | inl e ↦
        rw (e, get_pool)
          (is_some-insert (b, a) j p pools
            (elim (Option-cases (lookup (a, b) pools)) [
              | inl f ↦ let x = rw (f, get_pool) at h in x
              | inr (y, f) ↦
                  let g : is_some (lookup (a, b) (insert j p pools)) ≡ true =
                    is_some-insert (a, b) j p pools (rw f refl) in
                  let x = rw e at g in cc
            ]))
  ]

  write_pool_keeps :
      (from to a b : ℕ) (p : PoolState F) (pools : Pools F)
      → is_some (get_pool a b pools) ≡ true
      → is_some (get_pool a b (write_pool from to p pools)) ≡ true
  write_pool_keeps from to a b p pools h = elim (Bool-cases (is_some (lookup (from, to) pools))) [
    | inl e ↦ rw (e, write_pool) (get_pool-insert a b (from, to) p pools h)
    | inr e ↦ rw (e, write_pool) (get_pool-insert a b (to, from) p pools h)
  ]

module _ {F : Type 0} ⦃n : Number F⦄ where
  -- Two assets that pair have a pool.
  abbrev pub HasPools : Pools F → Type 0
  HasPools pools = (a b : ℕ) → has b (route_graph a) ≡ true → is_some (get_pool a b pools) ≡ true

  quote_hop_ok :
      (a b : ℕ) (pools : Pools F) (leg : F × F × F)
      → is_some (get_pool a b pools) ≡ true
      → (next : F × F × F) × (quote_hop a b pools leg ≡ ok next)
  unfolding quote_hop simulate_amm_swap
  quote_hop_ok a b pools leg h = elim (Option-cases (get_pool a b pools)) [
    | inl e ↦ let x = rw e at h in cc
    | inr (p, e) ↦ rw (e, quote_hop, simulate_amm_swap, e) (_, refl)
  ]

  quote_hops_ok :
      (from : ℕ) (route : List ℕ) (pools : Pools F) (leg : F × F × F)
      → HasPools pools
      → IsHops from route
      → (next : F × F × F) × (quote_hops from route pools leg ≡ ok next)
  unfolding quote_hops
  quote_hops_ok from [] pools leg c h = (leg, refl)
  quote_hops_ok from (to ∷ route) pools leg c h =
      let (mid, e) = quote_hop_ok from to pools leg (c from to h.0) in
      let (next, f) = quote_hops_ok to route pools mid c h.1 in (next, rw (e, quote_hops) f)

  -- The route of a pool, or one along the graph.
  find_optimal_route-cases :
      (from to : ℕ) (pools : Pools F) (route : List ℕ)
      → find_optimal_route from to pools ≡ some route
      → ((is_some (get_pool from to pools) ≡ true) × (route ≡ from ∷ to ∷ []))
        ⊎ (IsPath from route × (last_of from route ≡ to))
  unfolding find_optimal_route
  find_optimal_route-cases from to pools route h =
      elim (Bool-cases (is_some (get_pool from to pools))) [
        | inl e ↦
            let x = rw (e, find_optimal_route) at h in
            let same : from ∷ to ∷ [] ≡ route = cc in inl (e, sym same)
        | inr e ↦
            let x = rw (e, find_optimal_route) at h in inr (search-IsPath to from rounds route x)
      ]

  -- What is asked of a quote.
  abbrev pub IsQuoteFor : ℕ → ℕ → F → Pools F → PriceQuote F → Type 0
  IsQuoteFor from to amount pools q =
      (find_optimal_route from to pools ≡ some q.route)
      × (q.from_asset ≡ from)
      × (q.to_asset ≡ to)
      × (q.amount_in ≡ amount)

  quote_found :
      (now from to : ℕ) (rest : List ℕ) (amount : F) (pools : Pools F) (leg : F × F × F)
      → find_optimal_route from to pools ≡ some (from ∷ rest)
      → last_of from rest ≡ to
      → quote_hops from rest pools (amount, n.decimal 0 0, n.infinity) ≡ ok leg
      → (q : PriceQuote F) × (quote_for now from to amount pools ≡ ok q)
        × IsQuoteFor from to amount pools q
  unfolding quote_for quote_along_route
  quote_found now from to rest amount pools leg e f g = (
    priced now from rest amount leg,
    rw (e, quote_for, quote_along_route, g) refl,
    (e, refl, f, refl),
  )

  one_hop :
      (a b : ℕ) (pools : Pools F) (leg next : F × F × F)
      → quote_hop a b pools leg ≡ ok next
      → quote_hops a (b ∷ []) pools leg ≡ ok next
  unfolding quote_hops
  one_hop a b pools leg next g = rw (quote_hops, g) refl

  -- Pools that cover the graph: a quote is refused only when no route is found, and otherwise it
  -- is for the assets and the amount that were asked, along the route that is found.
  pub quote_for-find_optimal_route :
      (now from to : ℕ) (amount : F) (pools : Pools F)
      → HasPools pools
      → ((find_optimal_route from to pools ≡ none)
          × (quote_for now from to amount pools ≡ err Problem.no_swap_route))
        ⊎ ((q : PriceQuote F) × (quote_for now from to amount pools ≡ ok q)
            × IsQuoteFor from to amount pools q)
  unfolding quote_for
  quote_for-find_optimal_route now from to amount pools c =
      let start : F × F × F = (amount, n.decimal 0 0, n.infinity) in
      elim (Option-cases (find_optimal_route from to pools)) [
        | inl e ↦ inl (e, rw (e, quote_for) refl)
        | inr (route, e) ↦ elim (find_optimal_route-cases from to pools route e) [
          | inl (found, f) ↦
              let (next, g) = quote_hop_ok from to pools start found in
              inr (
                quote_found now from to (to ∷ []) amount pools next (e ∙ ap (λ r. some r) f) refl
                  (one_hop from to pools start next g))
          | inr (path, last) ↦
              let (rest, f, hops) = path in
              let (next, g) = quote_hops_ok from rest pools start c hops in
              inr (
                quote_found now from to rest amount pools next (e ∙ ap (λ r. some r) f)
                  (ap (λ r. last_of from r) (sym f) ∙ last) g)
        ]
      ]

  -- Trading takes no pool away.
  pub execute_amm_swap-HasPools :
      (from to : ℕ) (amount : F) (pools : Pools F) (traded : (F × F × F) × Pools F)
      → HasPools pools
      → execute_amm_swap from to amount pools ≡ ok traded
      → HasPools traded.1
  unfolding execute_amm_swap
  execute_amm_swap-HasPools from to amount pools traded c h =
      elim (Option-cases (get_pool from to pools)) [
        | inl e ↦ let x = rw (e, execute_amm_swap) at h in cc
        | inr (p, e) ↦
            let x = rw (e, execute_amm_swap) at h in
            let t = trade_with from amount p in
            let same : write_pool from to t.1 pools ≡ traded.1 =
              ap (λ y. y.1) (ok_injective _ _ x) in
            subst (λ m. HasPools m) same (λ a b k. write_pool_keeps from to a b t.1 pools (c a b k))
      ]

-- At the start every two assets that pair have a pool.
pub initial_pools-HasPools : (F : Type 0) ⦃n : Number F⦄ → HasPools (initial_pools {F = F})
unfolding route_graph initial_pools
initial_pools-HasPools F a b h = ground arith
