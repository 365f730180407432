-- ===== src/Matching/Trade.antt =====
-- trading/matching-engine/core/matching-engine.ts: one match, and the loops of limit and market
-- orders. An order of the book that the code changes through its reference is the first order of
-- the best level, and is written back there. `now` is the clock. Rounds are bounded by fuel.
pub mod Write
pub mod Step
pub mod Progress
pub mod Loop
use swap_trade_backend.Common.{
  ℕ, zero, suc, ◌+◌, ◌-◌, ◌*◌, ◌==◌, ltb, leb, min, Bool, true, false, not, ◌&&◌, ◌||◌, Option,
  none, some, List, [], ◌∷◌, ◌++◌, length, set, keep_if, Map, lookup, insert, nat_key,
  if◌then◌else◌,
}
use swap_trade_backend.Matching.Types.{
  Order, OrderSide, OrderType, OrderStatus, TimeInForce, MatchResult, opposite, is_buy, truthy,
}
use swap_trade_backend.Matching.Level.{OrderBookLevel, get_first_order}
use swap_trade_backend.Matching.Book.{
  OrderBook, new_book, side_of, set_side, get_best, get_best_level, add_order, remove_order,
  update_order_quantity, price_of,
}

pub data Event : Type 0 where
  matched : MatchResult → Event
  order_filled order_partially_filled order_cancelled order_added : Order → Event
  order_rejected stop_order_added : Order → Event

-- 0.1%, in thousandths.
abbrev pub fee_rate : ℕ
fee_rate = 1

abbrev pub is_ioc : TimeInForce → Bool
is_ioc TimeInForce.ioc = true
is_ioc _ = false

abbrev pub is_fok : TimeInForce → Bool
is_fok TimeInForce.fok = true
is_fok _ = false

abbrev pub is_cancelled : OrderStatus → Bool
is_cancelled OrderStatus.cancelled = true
is_cancelled _ = false

-- Whether the price of an incoming order rules out a trade at `best`.
abbrev pub misses : OrderSide → Option ℕ → ℕ → Bool
misses s none best = false
misses OrderSide.buy (some p) best = not (p == 0) && ltb p best
misses OrderSide.sell (some p) best = not (p == 0) && ltb best p

unfoldable pub first_of_best : OrderSide → OrderBook → Option Order
unfolding get_best_level get_first_order
first_of_best s b = elim (get_best_level s b) [ none ↦ none | some l ↦ get_first_order l ]

unfoldable pub find_match : Order → OrderBook → Option Order
unfolding first_of_best
find_match o b = elim (get_best (opposite o.side) b) [
  | none ↦ none
  | some best ↦ if misses o.side o.price best then none else first_of_best (opposite o.side) b
]

abbrev pub take : ℕ → Order → Order
take n o = record o {
  remaining_quantity = o.remaining_quantity - n;
  filled_quantity = o.filled_quantity + n;
}

unfoldable pub match_result : ℕ → Order → Order → MatchResult
match_result now o m =
    let n = min o.remaining_quantity m.remaining_quantity in
    record {
      buy_order_id = if is_buy o.side then o.id else m.id;
      sell_order_id = if is_buy o.side then m.id else o.id;
      price = price_of m;
      quantity = n;
      timestamp = now;
      buyer_fee = n * price_of m * fee_rate;
      seller_fee = n * price_of m * fee_rate;
    }

-- The incoming order, the order of the book and the result.
unfoldable pub execute_match : ℕ → Order → Order → Order × Order × MatchResult
unfolding match_result
execute_match now o m =
    let n = min o.remaining_quantity m.remaining_quantity in
    (take n o, take n m, match_result now o m)

-- The first order of the best level of a side, changed through its reference.
unfoldable pub write_first : OrderSide → Order → OrderBook → OrderBook
unfolding get_best
write_first s o b = elim (get_best s b) [
  | none ↦ b
  | some p ↦ elim (lookup p (side_of s b).levels) [
    | none ↦ b
    | some l ↦
        let d = side_of s b in
        set_side s
          (record d { levels = insert p (record l { orders = set l.orders 0 o }) d.levels }) b
  ]
]

-- What the loops do with the order of the book once it has traded.
unfoldable pub settle_resting : OrderSide → Order → OrderBook → OrderBook
unfolding write_first
settle_resting s m b =
    if m.remaining_quantity == 0
    then (remove_order m.id (write_first s (record m { status = OrderStatus.filled }) b)).1
    else (update_order_quantity m.id m.remaining_quantity
        (write_first s (record m { status = OrderStatus.partial }) b)).1

-- What a loop changes.
pub record Trading : Type 0 where
  pub order : Order
  pub book : OrderBook
  pub matches : List MatchResult
  pub events : List Event

-- One round of the limit order's loop against `m`, up to the tests that may leave it.
unfoldable pub limit_round : ℕ → Order → Trading → Trading
unfolding execute_match settle_resting
limit_round now m t =
    let (o, rest, result) = execute_match now t.order m in
    record {
      order = o;
      book = settle_resting (opposite t.order.side) rest t.book;
      matches = t.matches ++ result ∷ [];
      events =
          t.events
          ++ matched result
            ∷ (if rest.remaining_quantity == 0
                then order_filled (record rest { status = OrderStatus.filled })
                else order_partially_filled (record rest { status = OrderStatus.partial }))
            ∷ [];
    }

abbrev pub finish : OrderStatus → (Order → Event) → Trading → Trading
finish s event t =
    let o = record t.order { status = s } in
    record t { order = o; events = t.events ++ event o ∷ [] }

-- `none` means that the rounds ran out.
unfoldable pub limit_loop : ℕ → ℕ → Trading → Option Trading
limit_loop now zero t = none
limit_loop now (suc fuel) t = elim (t.order.remaining_quantity == 0) [
  | true ↦ some t
  | false ↦ elim (find_match t.order t.book) [
    | none ↦ some t
    | some m ↦
        let u = limit_round now m t in
        elim (u.order.remaining_quantity == 0) [
          | true ↦ some (finish OrderStatus.filled order_filled u)
          | false ↦ elim (is_ioc u.order.time_in_force) [
            | true ↦ some (finish OrderStatus.cancelled order_cancelled u)
            | false ↦ limit_loop now fuel u
          ]
        ]
  ]
]

unfoldable pub market_round : ℕ → Order → Trading → Trading
unfolding execute_match settle_resting
market_round now m t =
    let (o, rest, result) = execute_match now t.order m in
    record {
      order = o;
      book = settle_resting (opposite t.order.side) rest t.book;
      matches = t.matches ++ result ∷ [];
      events =
          t.events
          ++ matched result
            ∷ (if rest.remaining_quantity == 0
                then order_filled (record rest { status = OrderStatus.filled }) ∷ []
                else []);
    }

unfoldable pub market_loop : ℕ → ℕ → Trading → Option Trading
market_loop now zero t = none
market_loop now (suc fuel) t = elim (t.order.remaining_quantity == 0) [
  | true ↦ some t
  | false ↦ elim (get_best_level (opposite t.order.side) t.book) [
    | none ↦ some (finish OrderStatus.rejected order_rejected t)
    | some l ↦ elim (get_first_order l) [
      | none ↦ some t
      | some m ↦ market_loop now fuel (market_round now m t)
    ]
  ]
]

abbrev pub begin : Order → OrderBook → Trading
begin o b = record { order = o; book = b; matches = []; events = [] }

-- Each round of a loop that goes on empties an order of the book, so these rounds are enough; the
-- last may leave an order in part, and a market loop tests once more.
abbrev pub rounds : OrderBook → ℕ
rounds b = suc (suc (length b.order_index))

abbrev pub has_any {ℓ} : {A : Type ℓ} → List A → Bool
has_any [] = false
has_any (x ∷ xs) = true

abbrev pub resting_status : Trading → OrderStatus
resting_status t = if has_any t.matches then OrderStatus.partial else OrderStatus.pending

-- What the limit order does with the outcome of its loop: `none` is the error of `addOrder`. The
-- flag says that the matches are given back.
unfoldable pub limit_rest : Trading → Option (Bool × Trading)
limit_rest t =
    let o = record t.order { status = resting_status t } in
    if is_fok t.order.time_in_force && ltb 0 t.order.remaining_quantity
    then some (false, finish OrderStatus.cancelled order_cancelled t)
    else if ltb 0 t.order.remaining_quantity && not (is_cancelled t.order.status)
    then (elim (add_order o t.book) [
      | none ↦ none
      | some b ↦
          some (true, record t { order = o; book = b; events = t.events ++ order_added o ∷ [] })
    ])
    else some (true, t)

unfoldable pub market_rest : Trading → Trading
market_rest t =
    if t.order.remaining_quantity == 0
    then finish OrderStatus.filled order_filled t
    else record t { order = record t.order { status = OrderStatus.partial } }
