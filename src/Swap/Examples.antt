-- ===== src/Swap/Examples.antt =====
-- The theorems on swaps at two users of two pools, with whole numbers for amounts.
use swap_trade_backend.Common.{
  max, ℕ, ◌+◌, ◌-◌, ◌*◌, ◌/◌, ◌≡◌, refl, subst, ltb, leb, ◌==◌, ◌⊎◌, Option, none, some, List, [],
  ◌∷◌, All, lookup, nat_key, pair_key, Throws, err, ok, arith, if◌then◌else◌, map,
}
use swap_trade_backend.Common.{Number}
use swap_trade_backend.Swap.{
  SwapStatus, SwapType, SwapHistory, UserBalance, World, Cache, Problem, PriceQuote,
}
use swap_trade_backend.Swap.Pricing.{
  usdt, btc, eth, bnb, get_pool, find_optimal_route, quote_for, initial_pools, get_quote,
  search_routes, expand, route_graph, validate_slippage, execute_amm_swap, quote_along_route,
  quote_hops, quote_hop, simulate_amm_swap, trade_with, pool_output,
}
use swap_trade_backend.Swap.Settlement.{
  settle, settle_loop, attempt_settlement, settle_at, pay_out, update_balances, rollback,
}
use swap_trade_backend.Swap.Batch.{process_atomic_batch, atomic_loop, undo_batch, mark_processing}
use swap_trade_backend.Swap.Saga.{
  quote_legs, execute_multi_leg_swap, run_saga, run_legs, mark_started, SagaStep,
}
use swap_trade_backend.Swap.Outcome.{IsKeyed, IsKept}
use swap_trade_backend.Swap.Settled.{IsAttempt}
use swap_trade_backend.Swap.Retries.{IsExhausted}
use swap_trade_backend.Swap.Retries
use swap_trade_backend.Swap.Refunds.{refunds, IsAborted}
use swap_trade_backend.Swap.Aborted
use swap_trade_backend.Swap.Completion
use swap_trade_backend.Swap.Completion.{IsDone}
use swap_trade_backend.Swap.Unpooled
use swap_trade_backend.Swap.Quotes
use swap_trade_backend.Swap.Quotes.{IsQuoteFor}
use swap_trade_backend.Swap.Legs.{backwards, IsQuoted, with_rows}
use swap_trade_backend.Swap.Legs

-- Whole numbers; a literal with a point is cut off there.
instance abbrev whole : Number ℕ
whole = record {
  add = ◌+◌;
  sub = ◌-◌;
  mul = ◌*◌;
  div = ◌/◌;
  abs = λ a. a;
  lt = ltb;
  le = leb;
  decimal = λ a k. if k == 0 then a else 0;
  infinity = 1000000000;
  equal = ◌==◌;
  greatest = max;
  to_fixed = λ k a. a;
}

abbrev empty_cache : Cache ℕ
empty_cache = record { get = λ i. none; now = λ i. 1000 + i }

abbrev swap : ℕ → ℕ → ℕ → ℕ → SwapStatus → SwapHistory ℕ
swap id from to amount status = record {
  id = id;
  user_id = 7;
  from_asset = from;
  to_asset = to;
  amount_in = amount;
  amount_out = none;
  quoted_rate = 1;
  executed_rate = none;
  slippage_tolerance = 1;
  actual_slippage = none;
  price_impact = none;
  status = status;
  swap_type = SwapType.single;
  route = none;
  retry_count = 0;
  error_message = none;
  failure_reason = none;
  job_id = none;
  batch_id = none;
  executed_at = none;
  settled_at = none;
}

abbrev owned : ℕ → ℕ → UserBalance ℕ
owned asset amount = record {
  user_id = 7;
  asset_id = asset;
  balance = amount;
  total_invested = 0;
  cumulative_pnl = 0;
  average_buy_price = 0;
}

-- The first swap can be paid; the second cannot; the third has no pool; the last is completed.
abbrev world : World ℕ
world = record {
  db = record {
    swaps =
        (1, swap 1 usdt btc 100 SwapStatus.pending)
        ∷ (2, swap 2 usdt btc 9000 SwapStatus.pending)
        ∷ (3, swap 3 btc bnb 1 SwapStatus.pending)
        ∷ (4, swap 4 usdt btc 100 SwapStatus.completed)
        ∷ [];
    balances = ((7, 10), owned 10 500) ∷ [];
    assets = (usdt, 10) ∷ (btc, 20) ∷ (bnb, 40) ∷ [];
  };
  pools =
      (
        (usdt, btc),
        record {
          base_asset = usdt;
          quote_asset = btc;
          base_reserve = 1000;
          quote_reserve = 1000;
          k = 1000000;
          fee = 0;
        },
      )
      ∷ (
        (btc, eth),
        record {
          base_asset = btc;
          quote_asset = eth;
          base_reserve = 100;
          quote_reserve = 2000;
          k = 200000;
          fee = 0;
        },
      )
      ∷ [];
  lookups = 0;
}

world-IsKeyed : IsKeyed world.db.balances
world-IsKeyed k b h = ground arith

abbrev ap_balance : Option (UserBalance ℕ) → Option ℕ
ap_balance none = none
ap_balance (some b) = some b.balance

third-unpooled :
    (s : SwapHistory ℕ)
    → lookup 3 world.db.swaps ≡ some s
    → get_pool s.from_asset s.to_asset world.pools ≡ none
third-unpooled s h =
    let same : swap 3 btc bnb 1 SwapStatus.pending ≡ s = cc in
    subst (λ t. get_pool t.from_asset t.to_asset world.pools ≡ none) same refl

settles : settle empty_cache 1 world ≡ (ok (90, 0, 1), (settle empty_cache 1 world).1)
unfolding settle settle_loop attempt_settlement settle_at pay_out update_balances get_quote
    quote_for find_optimal_route quote_along_route quote_hops quote_hop simulate_amm_swap
    pool_output validate_slippage execute_amm_swap trade_with
settles = refl

settle-IsAttempt_example :
    IsAttempt 1 world.db (settle empty_cache 1 world) × IsExhausted 1 (settle empty_cache 1 world)
settle-IsAttempt_example = Retries.settle-IsAttempt empty_cache 1 world world-IsKeyed

-- A completed swap: the first attempt refuses it, the mark for the retry hides that it was
-- completed, and the second attempt takes the amount again.
settles_again : ap_balance (lookup (7, 10) (settle empty_cache 4 world).1.db.balances) ≡ some 400
unfolding settle settle_loop attempt_settlement settle_at pay_out update_balances get_quote
    quote_for find_optimal_route quote_along_route quote_hops quote_hop simulate_amm_swap
    pool_output validate_slippage execute_amm_swap trade_with
settles_again = refl

aborts :
    (process_atomic_batch empty_cache 5 (1 ∷ 2 ∷ []) world).0
    ≡ err (Problem.insufficient_balance usdt)
unfolding process_atomic_batch atomic_loop settle settle_loop attempt_settlement settle_at pay_out
    update_balances get_quote quote_for find_optimal_route quote_along_route quote_hops quote_hop
    simulate_amm_swap pool_output validate_slippage execute_amm_swap trade_with
aborts = refl

process_atomic_batch-refunds_example :
    (settled : List ℕ) × IsAborted empty_cache
      (mark_processing 5)
      (Problem.insufficient_balance usdt)
      settled
      (1 ∷ 2 ∷ [])
      world
    × ((process_atomic_batch empty_cache 5 (1 ∷ 2 ∷ []) world).1.db.balances
        ≡ refunds world.db settled world.db.balances)
process_atomic_batch-refunds_example =
    Aborted.process_atomic_batch-refunds empty_cache 5 (1 ∷ 2 ∷ []) world
      (Problem.insufficient_balance usdt) aborts

-- The user had 500 and never swapped anything.
gains_amount :
    ap_balance
      (lookup (7, 10) (process_atomic_batch empty_cache 5 (1 ∷ 2 ∷ []) world).1.db.balances)
    ≡ some 600
unfolding process_atomic_batch atomic_loop undo_batch rollback settle settle_loop attempt_settlement
    settle_at pay_out update_balances get_quote quote_for find_optimal_route quote_along_route
    quote_hops quote_hop simulate_amm_swap pool_output validate_slippage execute_amm_swap trade_with
gains_amount = refl

process_atomic_batch-IsDone_example :
    let after = (process_atomic_batch empty_cache 5 (1 ∷ []) world).1 in
    All (IsDone after.db) (1 ∷ []) × ((i : ℕ) → IsDone world.db i → IsDone after.db i)
unfolding process_atomic_batch atomic_loop settle settle_loop attempt_settlement settle_at pay_out
    update_balances get_quote quote_for find_optimal_route quote_along_route quote_hops quote_hop
    simulate_amm_swap pool_output validate_slippage execute_amm_swap trade_with
process_atomic_batch-IsDone_example =
    Completion.process_atomic_batch-IsDone empty_cache 5 (1 ∷ []) world
      (process_atomic_batch empty_cache 5 (1 ∷ []) world).1 world-IsKeyed refl

-- There is a route from BTC to BNB, and no pool.
has_route : find_optimal_route {F = ℕ} btc bnb initial_pools ≡ some (btc ∷ usdt ∷ bnb ∷ [])
unfolding find_optimal_route search_routes expand route_graph initial_pools
has_route = refl

settle-unpooled_example :
    ((p : Problem) × ((settle empty_cache 3 world).0 ≡ err p))
    × IsKept 3 world.db (settle empty_cache 3 world).1.db
    × ((settle empty_cache 3 world).1.pools ≡ world.pools)
settle-unpooled_example = Unpooled.settle-unpooled empty_cache 3 world third-unpooled

quote_for-find_optimal_route_example :
    ((find_optimal_route {F = ℕ} btc bnb initial_pools ≡ none)
      × (quote_for {F = ℕ} 5 btc bnb 10 initial_pools ≡ err Problem.no_swap_route))
    ⊎ ((q : PriceQuote ℕ) × (quote_for {F = ℕ} 5 btc bnb 10 initial_pools ≡ ok q)
        × IsQuoteFor {F = ℕ} btc bnb 10 initial_pools q)
quote_for-find_optimal_route_example =
    Quotes.quote_for-find_optimal_route 5 btc bnb 10 initial_pools (Quotes.initial_pools-HasPools ℕ)

-- A saga from USDT over BTC to ETH, which has a pool and no row among the assets: the first leg
-- is settled and the second throws.
abbrev fresh : ℕ → ℕ
fresh i = 100 + i

abbrev steps_of : Throws Problem (List (SagaStep ℕ)) → List (SagaStep ℕ)
steps_of (err p) = []
steps_of (ok steps) = steps

abbrev saga_steps : List (SagaStep ℕ)
saga_steps = steps_of (quote_legs empty_cache fresh 0 usdt (btc ∷ eth ∷ []) 100 world).0

quotes : (quote_legs empty_cache fresh 0 usdt (btc ∷ eth ∷ []) 100 world).0 ≡ ok saga_steps
unfolding quote_legs get_quote quote_for find_optimal_route quote_along_route quote_hops quote_hop
    simulate_amm_swap pool_output
quotes = refl

fails :
    (execute_multi_leg_swap empty_cache fresh 7 (usdt ∷ btc ∷ eth ∷ []) 100 1 9 world).0
    ≡ err (Problem.multi_leg_failed (Problem.asset_not_found eth))
unfolding execute_multi_leg_swap run_saga run_legs quote_legs settle settle_loop attempt_settlement
    settle_at pay_out update_balances get_quote quote_for find_optimal_route quote_along_route
    quote_hops quote_hop simulate_amm_swap pool_output validate_slippage execute_amm_swap trade_with
fails = refl

execute_multi_leg_swap-refunds_example :
    let asked = (quote_legs empty_cache fresh 0 usdt (btc ∷ eth ∷ []) 100 world).1 in
    let begun = with_rows 7 1 9 (usdt ∷ btc ∷ eth ∷ []) saga_steps asked in
    IsQuoted fresh 0 usdt (btc ∷ eth ∷ []) 100 saga_steps
    × ((settled : List ℕ) × IsAborted empty_cache mark_started
          (Problem.asset_not_found eth)
          settled
          (map (λ s. s.swap_id) saga_steps)
          begun
        × ((execute_multi_leg_swap empty_cache fresh 7
              (usdt ∷ btc ∷ eth ∷ [])
              100
              1
              9
              world).1.db.balances
            ≡ refunds begun.db (backwards settled) world.db.balances))
execute_multi_leg_swap-refunds_example =
    Legs.execute_multi_leg_swap-refunds empty_cache fresh 7 usdt btc (eth ∷ []) 100 1 9 world
      saga_steps (Problem.asset_not_found eth) quotes fails
