-- ===== src/Swap/Pricing.antt =====
-- swap/swap-pricing.service.ts: routes, quotes and the constant-product pools. BTC-USDT and
-- USDT-BTC name one pool, which is found under either name.
use swap_trade_backend.Common.{
  ℕ, zero, suc, ◌+◌, ltb, ◌==◌, Bool, true, false, not, ◌&&◌, Option, none, some, List, [], ◌∷◌,
  ◌++◌, length, lookup, insert, pair_key, if◌then◌else◌, Throws, err, ok, is_some, ◌>>=◌,
}
use swap_trade_backend.Common.{Number}
use swap_trade_backend.Swap.{PoolState, PriceQuote, Pools, Problem, World, Cache}

abbrev pub usdt : ℕ
usdt = 1

abbrev pub btc : ℕ
btc = 2

abbrev pub eth : ℕ
eth = 3

abbrev pub bnb : ℕ
bnb = 4

abbrev pub sol : ℕ
sol = 5

-- Which assets each asset can directly pair with.
unfoldable pub route_graph : ℕ → List ℕ
route_graph a =
    if a == usdt
    then btc ∷ eth ∷ bnb ∷ sol ∷ []
    else if a == btc
    then usdt ∷ eth ∷ []
    else if a == eth
    then usdt ∷ btc ∷ bnb ∷ sol ∷ []
    else if a == bnb
    then usdt ∷ eth ∷ []
    else if a == sol
    then usdt ∷ eth ∷ []
    else []

-- `visited.has`
abbrev pub has : ℕ → List ℕ → Bool
has a [] = false
has a (b ∷ bs) = if a == b then true else has a bs

-- The last asset of a path that starts at `a`.
abbrev pub last_of : ℕ → List ℕ → ℕ
last_of a [] = a
last_of a (b ∷ bs) = last_of b bs

-- The loop over the neighbours of the last asset: a route, or the queue and the visited assets.
unfoldable pub expand :
    ℕ → List ℕ → List ℕ → List (List ℕ) × List ℕ → Throws (List ℕ) (List (List ℕ) × List ℕ)
expand to path [] (queue, visited) = ok (queue, visited)
expand to path (n ∷ ns) (queue, visited) =
    let pushed = expand to path ns (queue ++ (path ++ n ∷ []) ∷ [], n ∷ visited) in
    let left = expand to path ns (queue, visited) in
    if n == to
    then err (path ++ to ∷ [])
    else if not (has n visited) && ltb (length path) 4
    then pushed
    else left

-- `while (queue.length > 0)`. A path is never empty: it starts with `from`.
unfoldable pub search_routes : ℕ → ℕ → ℕ → List (List ℕ) → List ℕ → Option (List ℕ)
unfolding expand route_graph
search_routes to from zero queue visited = none
search_routes to from (suc fuel) [] visited = none
search_routes to from (suc fuel) (path ∷ queue) visited =
    elim (expand to path (route_graph (last_of from path)) (queue, visited)) [
      | err found ↦ some found
      | ok next ↦ search_routes to from fuel next.0 next.1
    ]

-- Each round takes one path from the queue, and an asset enters the queue once.
abbrev pub rounds : ℕ
rounds = 7

module _ {F : Type 0} ⦃n : Number F⦄ where
  abbrev pub pool : ℕ → ℕ → ℕ → ℕ → ℕ → (ℕ × ℕ) × PoolState F
  pool a b x y product = (
    (a, b),
    record {
      base_asset = a;
      quote_asset = b;
      base_reserve = n.decimal x 0;
      quote_reserve = n.decimal y 0;
      k = n.decimal product 0;
      fee = n.decimal 3 3;
    },
  )

  unfoldable pub initial_pools : Pools F
  initial_pools =
      pool usdt btc 5000000 100 500000000
      ∷ pool usdt eth 5000000 2500 12500000000
      ∷ pool usdt bnb 1000000 2000 2000000000
      ∷ pool usdt sol 1000000 10000 10000000000
      ∷ pool btc eth 100 2500 250000
      ∷ pool eth bnb 2500 10000 25000000
      ∷ pool eth sol 2500 62500 156250000
      ∷ []

  abbrev pub get_pool : ℕ → ℕ → Pools F → Option (PoolState F)
  get_pool a b pools = elim (lookup (a, b) pools) [
    | some found ↦ some found
    | none ↦ lookup (b, a) pools
  ]

  -- The object that `get_pool` found, changed in place.
  abbrev pub write_pool : ℕ → ℕ → PoolState F → Pools F → Pools F
  write_pool a b p pools =
      if is_some (lookup (a, b) pools) then insert (a, b) p pools else insert (b, a) p pools

  unfoldable pub find_optimal_route : ℕ → ℕ → Pools F → Option (List ℕ)
  unfolding search_routes
  find_optimal_route from to pools =
      if is_some (get_pool from to pools)
      then some (from ∷ to ∷ [])
      else search_routes to from rounds ((from ∷ []) ∷ []) (from ∷ [])

  abbrev pub is_base : ℕ → PoolState F → Bool
  is_base from p = p.base_asset == from

  abbrev pub reserve_in : ℕ → PoolState F → F
  reserve_in from p = if is_base from p then p.base_reserve else p.quote_reserve

  abbrev pub reserve_out : ℕ → PoolState F → F
  reserve_out from p = if is_base from p then p.quote_reserve else p.base_reserve

  -- reserveOut * amountInWithFee / (reserveIn + amountInWithFee)
  unfoldable pub pool_output : ℕ → F → PoolState F → F
  pool_output from amount p =
      let with_fee = n.mul amount (n.sub (n.decimal 1 0) p.fee) in
      n.div (n.mul (reserve_out from p) with_fee) (n.add (reserve_in from p) with_fee)

  -- The swap that leaves the pool alone: its amount and its impact on the price.
  unfoldable pub simulate_amm_swap : ℕ → ℕ → F → Pools F → Throws Problem (F × F)
  unfolding pool_output
  simulate_amm_swap from to amount pools = elim (get_pool from to pools) [
    | none ↦ err Problem.no_pool
    | some p ↦
        let out = pool_output from amount p in
        let spot = n.div (reserve_out from p) (reserve_in from p) in
        ok (out, n.div (n.abs (n.sub spot (n.div out amount))) spot)
  ]

  -- The amount, the rate and the impact, and the pool after the trade.
  unfoldable pub trade_with : ℕ → F → PoolState F → (F × F × F) × PoolState F
  unfolding pool_output
  trade_with from amount p =
      let out = pool_output from amount p in
      let rate = n.div out amount in
      let spot =
        if is_base from p
        then n.div (reserve_out from p) (reserve_in from p)
        else n.div (reserve_in from p) (reserve_out from p) in
      (
        (out, rate, n.div (n.abs (n.sub spot rate)) spot),
        if is_base from p
            then record p {
              base_reserve = n.add p.base_reserve amount;
              quote_reserve = n.sub p.quote_reserve out;
            }
            else record p {
              quote_reserve = n.add p.quote_reserve amount;
              base_reserve = n.sub p.base_reserve out;
            },
      )

  unfoldable pub execute_amm_swap : ℕ → ℕ → F → Pools F → Throws Problem ((F × F × F) × Pools F)
  unfolding trade_with
  execute_amm_swap from to amount pools = elim (get_pool from to pools) [
    | none ↦ err Problem.no_pool
    | some p ↦
        let traded = trade_with from amount p in ok (traded.0, write_pool from to traded.1 pools)
  ]

  abbrev pub lesser : F → F → F
  lesser a b = if n.lt b a then b else a

  -- One hop of the loop of quoteAlongRoute, on the amount, the impact and the lowest liquidity.
  unfoldable pub quote_hop : ℕ → ℕ → Pools F → F × F × F → Throws Problem (F × F × F)
  unfolding simulate_amm_swap
  quote_hop from to pools (amount, impact, lowest) = elim (get_pool from to pools) [
    | none ↦ err Problem.no_pool
    | some p ↦ simulate_amm_swap from to amount pools >>= (λ s.
        let liquidity = lesser p.base_reserve p.quote_reserve in
        let one = n.decimal 1 0 in
        ok (s.0, n.sub one (n.mul (n.sub one impact) (n.sub one s.1)), lesser lowest liquidity))
  ]

  unfoldable pub quote_hops : ℕ → List ℕ → Pools F → F × F × F → Throws Problem (F × F × F)
  unfolding quote_hop
  quote_hops from [] pools leg = ok leg
  quote_hops from (to ∷ route) pools leg =
      quote_hop from to pools leg >>= (λ next. quote_hops to route pools next)

  abbrev pub priced : ℕ → ℕ → List ℕ → F → F × F × F → PriceQuote F
  priced now from route amount (out, impact, lowest) = record {
    from_asset = from;
    to_asset = last_of from route;
    amount_in = amount;
    amount_out = out;
    rate = n.div out amount;
    price_impact = impact;
    route = from ∷ route;
    liquidity_available = lowest;
    quoted_at = now;
  }

  unfoldable pub quote_along_route : ℕ → List ℕ → F → Pools F → Throws Problem (PriceQuote F)
  unfolding quote_hops
  quote_along_route now [] amount pools = err Problem.no_swap_route
  quote_along_route now (from ∷ route) amount pools =
      quote_hops from route pools (amount, n.decimal 0 0, n.infinity)
      >>= (λ leg. ok (priced now from route amount leg))

  unfoldable pub quote_for : ℕ → ℕ → ℕ → F → Pools F → Throws Problem (PriceQuote F)
  unfolding quote_along_route find_optimal_route
  quote_for now from to amount pools = elim (find_optimal_route from to pools) [
    | none ↦ err Problem.no_swap_route
    | some route ↦ quote_along_route now route amount pools
  ]

  unfoldable pub get_quote : Cache F → ℕ → ℕ → F → World F → Throws Problem (PriceQuote F) × World F
  unfolding quote_for
  get_quote cache from to amount w =
      let asked = record w { lookups = w.lookups + 1 } in
      elim (cache.get w.lookups) [
        | some quote ↦ (ok quote, asked)
        | none ↦ (quote_for (cache.now w.lookups) from to amount w.pools, asked)
      ]

  -- Whether the rate is within the tolerance, and how far it is from the quoted rate.
  unfoldable pub validate_slippage : F → F → F → Bool × F
  validate_slippage quoted executed tolerance =
      let actual = n.div (n.abs (n.sub quoted executed)) quoted in (n.le actual tolerance, actual)

  unfoldable pub check_liquidity : ℕ → ℕ → F → Pools F → Bool × F
  check_liquidity from to amount pools = elim (get_pool from to pools) [
    | none ↦ (false, n.decimal 0 0)
    | some p ↦ let most = n.mul p.base_reserve (n.decimal 1 1) in (n.le amount most, most)
  ]
