-- ===== src/Matching/Engine.antt =====
-- trading/matching-engine/core/matching-engine.ts: the state of the engine and its handlers.
-- A handler runs from its lock to the release in one go, since nothing between them waits; one that
-- finds the lock taken is the outcome `waits`. A loop that would not end is the outcome `hangs`.
pub mod Submit
pub mod Endings
use swap_trade_backend.Common.{
  ℕ, ◌==◌, leb, Bool, true, false, not, ◌&&◌, Option, none, some, List, [], ◌∷◌, ◌++◌, keep_if, Map,
  lookup, insert, nat_key, if◌then◌else◌,
}
use swap_trade_backend.Matching.Types.{Order, OrderType, OrderStatus, MatchResult, is_buy, truthy}
use swap_trade_backend.Matching.Book.{OrderBook, new_book, remove_order}
use swap_trade_backend.Matching.Trade.{
  Event, order_cancelled, stop_order_added, Trading, begin, rounds, limit_loop, limit_rest,
  market_loop, market_rest, has_any,
}

pub record Engine : Type 0 where
  pub order_books : Map ℕ OrderBook
  pub stop_orders : Map ℕ (List Order)
  pub processing_lock : Map ℕ Bool
  pub events : List Event

pub data Error : Type 0 where
  quantity_not_positive limit_without_price stop_without_price no_price : Error

pub data Outcome : Type 0 where
  done : List MatchResult → Order → Engine → Outcome
  throws : Error → Engine → Outcome
  waits hangs : Engine → Outcome

-- `getOrCreateOrderBook`
unfoldable pub book_of : ℕ → Engine → OrderBook
book_of a e = elim (lookup a e.order_books) [ none ↦ new_book a | some b ↦ b ]

unfoldable pub get_or_create : ℕ → Engine → Engine
unfolding book_of
get_or_create a e = elim (lookup a e.order_books) [
  | none ↦ record e { order_books = insert a (new_book a) e.order_books }
  | some b ↦ e
]

abbrev pub is_locked : ℕ → Engine → Bool
is_locked a e = elim (lookup a e.processing_lock) [ none ↦ false | some t ↦ t ]

abbrev pub set_lock : ℕ → Bool → Engine → Engine
set_lock a t e = record e { processing_lock = insert a t e.processing_lock }

-- The engine once a handler for asset `a` has traded and released its lock.
abbrev pub commit : ℕ → Trading → Engine → Engine
commit a t e = record e {
  order_books = insert a t.book e.order_books;
  processing_lock = insert a false (insert a true e.processing_lock);
  events = e.events ++ t.events;
}

abbrev pub limit_answer : ℕ → Engine → Trading → Option (Bool × Trading) → Outcome
limit_answer a e t none = throws no_price (commit a t e)
limit_answer a e t (some (kept, u)) = done (if kept then u.matches else []) u.order (commit a u e)

abbrev pub limit_outcome : ℕ → Engine → Option Trading → Outcome
limit_outcome a e none = hangs (set_lock a true e)
limit_outcome a e (some t) = limit_answer a e t (limit_rest t)

abbrev pub market_outcome : ℕ → Engine → Option Trading → Outcome
market_outcome a e none = hangs (set_lock a true e)
market_outcome a e (some t) = let u = market_rest t in done u.matches u.order (commit a u e)

unfoldable pub execute_limit_order : ℕ → Order → Engine → Outcome
unfolding book_of get_or_create
execute_limit_order now o engine =
    let e = get_or_create o.asset engine in
    let b = book_of o.asset engine in
    if is_locked o.asset e
    then waits e
    else limit_outcome o.asset e (limit_loop now (rounds b) (begin o b))

unfoldable pub execute_market_order : ℕ → Order → Engine → Outcome
unfolding book_of get_or_create
execute_market_order now o engine =
    let e = get_or_create o.asset engine in
    let b = book_of o.asset engine in
    if is_locked o.asset e
    then waits e
    else market_outcome o.asset e (market_loop now (rounds b) (begin o b))

abbrev pub stop_queue : ℕ → Engine → List Order
stop_queue a e = elim (lookup a e.stop_orders) [ none ↦ [] | some os ↦ os ]

unfoldable pub handle_stop_order : Order → Engine → Outcome
handle_stop_order o e =
    let waiting = stop_queue o.asset e in
    let queued = record o { status = OrderStatus.pending } in
    if truthy o.stop_price
    then done [] queued (record e {
      stop_orders = insert o.asset (waiting ++ queued ∷ []) e.stop_orders;
      events = e.events ++ stop_order_added queued ∷ [];
    })
    else throws stop_without_price e

abbrev pub is_limit : OrderType → Bool
is_limit OrderType.limit = true
is_limit _ = false

abbrev pub is_stop : OrderType → Bool
is_stop OrderType.stop_limit = true
is_stop OrderType.stop_market = true
is_stop _ = false

unfoldable pub validate_order : Order → Option Error
validate_order o =
    if o.quantity == 0
    then some quantity_not_positive
    else if is_limit o.type && not (truthy o.price)
    then some limit_without_price
    else if is_stop o.type && not (truthy o.stop_price)
    then some stop_without_price
    else none

abbrev pub dispatch : OrderType → ℕ → Order → Engine → Outcome
dispatch OrderType.market now o e = execute_market_order now o e
dispatch OrderType.stop_limit now o e = handle_stop_order o e
dispatch OrderType.stop_market now o e = handle_stop_order o e
dispatch OrderType.limit now o e = execute_limit_order now o e

unfoldable pub submit_order : ℕ → Order → Engine → Outcome
unfolding validate_order
submit_order now o e = elim (validate_order o) [
  | some error ↦ throws error e
  | none ↦ dispatch o.type now o e
]

abbrev pub or_zero : Option ℕ → ℕ
or_zero none = 0
or_zero (some n) = n

unfoldable pub should_trigger : ℕ → Order → Bool
should_trigger price o =
    if is_buy o.side then leb (or_zero o.stop_price) price else leb price (or_zero o.stop_price)

abbrev pub is_stop_market : OrderType → Bool
is_stop_market OrderType.stop_market = true
is_stop_market _ = false

unfoldable pub triggered : Order → Order
triggered o =
    if is_stop_market o.type
    then record o { type = OrderType.market; price = none }
    else record o { type = OrderType.limit }

pub data Checked : Type 0 where
  finished blocked : Engine → Checked
  failed : Error → Engine → Checked

-- The submissions one after the other. An error leaves the rest unsubmitted; so does a handler that
-- waits or hangs, for as long as it does.
unfoldable pub submit_all : ℕ → List Order → Engine → Checked
submit_all now [] e = finished e
submit_all now (o ∷ os) e = elim (submit_order now (triggered o) e) [
  | done _ _ e' ↦ submit_all now os e'
  | throws x e' ↦ failed x e'
  | waits e' ↦ blocked e'
  | hangs e' ↦ blocked e'
]

unfoldable pub check_stop_orders : ℕ → ℕ → ℕ → Engine → Checked
unfolding submit_all should_trigger
check_stop_orders now a price e =
    let hit = keep_if (should_trigger price) (stop_queue a e) in
    let kept = keep_if (λ o. not (should_trigger price o)) (stop_queue a e) in
    if has_any hit
    then submit_all now hit (record e { stop_orders = insert a kept e.stop_orders })
    else finished e

pub data Cancellation : Type 0 where
  answer : Option Order → Engine → Cancellation
  must_wait : Cancellation

abbrev released : ℕ → Engine → Engine
released a e = record e { processing_lock = insert a false (insert a true e.processing_lock) }

unfoldable pub cancel_order : ℕ → ℕ → Engine → Cancellation
cancel_order a j e = if is_locked a e then must_wait else (elim (lookup a e.order_books) [
  | none ↦ answer none (released a e)
  | some b ↦
      let (found, rest) = remove_order j b in
      let e' = record (released a e) { order_books = insert a rest e.order_books } in
      elim found [
        | none ↦ answer none e'
        | some o ↦
            let c = record o { status = OrderStatus.cancelled } in
            answer (some c) (record e' { events = e.events ++ order_cancelled c ∷ [] })
      ]
])
