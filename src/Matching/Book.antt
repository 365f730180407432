-- ===== src/Matching/Book.antt =====
-- trading/matching-engine/core/order-book.ts: two sides, each a map from prices to levels with the
-- prices sorted best first, and an index from order ids to their place.
pub mod Search
pub mod Side
pub mod Invariant
pub mod Addition
pub mod Removal
pub mod Update
pub mod Best
use swap_trade_backend.Common.{
  ℕ, zero, suc, ◌+◌, ◌/◌, ◌==◌, ltb, min, Bool, true, false, ◌&&◌, Option, none, some, List, [],
  ◌∷◌, length, get_elem?, insert_at, Map, lookup, insert, erase, nat_key, if◌then◌else◌,
}
use swap_trade_backend.Matching.Types.{Order, OrderSide, truthy}
use swap_trade_backend.Matching.Level.{OrderBookLevel, new_level, is_empty}
use swap_trade_backend.Matching.Level

pub record BookSide : Type 0 where
  pub levels : Map ℕ OrderBookLevel
  pub sorted_prices : List ℕ

pub record Place : Type 0 where
  pub side : OrderSide
  pub price : ℕ

pub record OrderBook : Type 0 where
  pub asset : ℕ
  pub buys : BookSide
  pub sells : BookSide
  pub order_index : Map ℕ Place

abbrev pub no_orders : BookSide
no_orders = record { levels = []; sorted_prices = [] }

unfoldable pub new_book : ℕ → OrderBook
new_book a = record { asset = a; buys = no_orders; sells = no_orders; order_index = [] }

abbrev pub side_of : OrderSide → OrderBook → BookSide
side_of OrderSide.buy b = b.buys
side_of OrderSide.sell b = b.sells

abbrev pub set_side : OrderSide → BookSide → OrderBook → OrderBook
set_side OrderSide.buy d b = record b { buys = d }
set_side OrderSide.sell d b = record b { sells = d }

-- `compareFn(a, b) < 0`: descending for bids, ascending for asks.
abbrev pub ahead : OrderSide → ℕ → ℕ → Bool
ahead OrderSide.buy a b = ltb b a
ahead OrderSide.sell a b = ltb a b

abbrev pub price_at : List ℕ → ℕ → ℕ
price_at [] i = 0
price_at (x ∷ xs) zero = x
price_at (x ∷ xs) (suc i) = price_at xs i

-- The binary search, with a bound on its rounds.
unfoldable pub search_place : OrderSide → List ℕ → ℕ → ℕ → ℕ → ℕ → ℕ
search_place s prices price zero left right = left
search_place s prices price (suc fuel) left right =
    let mid = (left + right) / 2 in
    let first = ahead s (price_at prices mid) price in
    let next =
      search_place s prices price fuel (if first then mid + 1 else left)
        (if first then right else mid) in
    if ltb left right then next else left

unfoldable pub insert_sorted_price : List ℕ → ℕ → OrderSide → List ℕ
unfolding search_place
insert_sorted_price prices price s =
    insert_at prices (search_place s prices price (length prices) 0 (length prices)) price

-- `indexOf` and `splice(index, 1)`
abbrev pub without_price : ℕ → List ℕ → List ℕ
without_price p [] = []
without_price p (x ∷ xs) = if p == x then xs else x ∷ without_price p xs

unfoldable pub add_to_side : Order → ℕ → BookSide → BookSide
add_to_side o p d = elim (lookup p d.levels) [
  | some l ↦ record d { levels = insert p (Level.add_order o l) d.levels }
  | none ↦ record d {
    levels = insert p (Level.add_order o (new_level p)) d.levels;
    sorted_prices = insert_sorted_price d.sorted_prices p o.side;
  }
]

abbrev pub price_of : Order → ℕ
price_of o = elim o.price [ none ↦ 0 | some p ↦ p ]

-- `none` is the error that an order with no price raises.
unfoldable pub add_order : Order → OrderBook → Option OrderBook
add_order o b =
    let p = price_of o in
    let book = set_side o.side (add_to_side o p (side_of o.side b)) b in
    if truthy o.price
    then some (record book {
      order_index = insert o.id (record { side = o.side; price = p }) b.order_index;
    })
    else none

-- The side once the level at `p` has become `l`.
unfoldable pub keep_level : ℕ → OrderBookLevel → BookSide → BookSide
keep_level p l d =
    if is_empty l
    then record { levels = erase p d.levels; sorted_prices = without_price p d.sorted_prices }
    else record d { levels = insert p l d.levels }

unfoldable pub remove_order : ℕ → OrderBook → Option Order × OrderBook
unfolding keep_level
remove_order j b = elim (lookup j b.order_index) [
  | none ↦ (none, b)
  | some place ↦ elim (lookup place.price (side_of place.side b).levels) [
    | none ↦ (none, b)
    | some l ↦
        let (o, rest) = Level.remove_order j l in
        let book = set_side place.side (keep_level place.price rest (side_of place.side b)) b in
        (o, record book { order_index = erase j b.order_index })
  ]
]

unfoldable pub update_order_quantity : ℕ → ℕ → OrderBook → Bool × OrderBook
update_order_quantity j n b = elim (lookup j b.order_index) [
  | none ↦ (false, b)
  | some place ↦ elim (lookup place.price (side_of place.side b).levels) [
    | none ↦ (false, b)
    | some l ↦
        let (found, new) = Level.update_order_quantity j n l in
        let d = side_of place.side b in
        (found, set_side place.side (record d { levels = insert place.price new d.levels }) b)
  ]
]

-- `getBestBid` and `getBestAsk`
unfoldable pub get_best : OrderSide → OrderBook → Option ℕ
get_best s b = get_elem? (side_of s b).sorted_prices 0

-- `getBestBidLevel` and `getBestAskLevel`
unfoldable pub get_best_level : OrderSide → OrderBook → Option OrderBookLevel
unfolding get_best
get_best_level s b = elim (get_best s b) [ none ↦ none | some p ↦ lookup p (side_of s b).levels ]

unfoldable pub depth_of : ℕ → List ℕ → Map ℕ OrderBookLevel → List (ℕ × ℕ)
depth_of zero prices levels = []
depth_of (suc n) [] levels = []
depth_of (suc n) (p ∷ prices) levels = elim (lookup p levels) [
  | none ↦ depth_of n prices levels
  | some l ↦ (p, l.total_quantity) ∷ depth_of n prices levels
]

unfoldable pub get_depth : ℕ → OrderBook → List (ℕ × ℕ) × List (ℕ × ℕ)
unfolding depth_of
get_depth n b = (
  depth_of (min n (length b.buys.sorted_prices)) b.buys.sorted_prices b.buys.levels,
  depth_of (min n (length b.sells.sorted_prices)) b.sells.sorted_prices b.sells.levels,
)

unfoldable pub get_volume_at_price : OrderSide → ℕ → OrderBook → ℕ
get_volume_at_price s p b = elim (lookup p (side_of s b).levels) [
  | none ↦ 0
  | some l ↦ l.total_quantity
]

unfoldable pub clear : OrderBook → OrderBook
clear b = record b { buys = no_orders; sells = no_orders; order_index = [] }
