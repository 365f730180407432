-- ===== src/Matching/Level.antt =====
-- trading/matching-engine/core/order-book-level.ts: the orders that rest at one price, in the
-- order of their arrival, with an index from ids to positions. Subtractions stop at 0; that they
-- are exact is a consequence of the invariant in Level/Index.
pub mod Index
pub mod Reference
use swap_trade_backend.Common.{
  ℕ, zero, suc, ◌+◌, ◌-◌, ◌==◌, Bool, true, false, Option, none, some, List, [], ◌∷◌, ◌++◌, length,
  get_elem?, set, remove_at, Map, lookup, insert, erase, nat_key, if◌then◌else◌,
}
use swap_trade_backend.Matching.Types.{Order}

pub record OrderBookLevel : Type 0 where
  pub price : ℕ
  pub total_quantity : ℕ
  pub orders : List Order
  pub order_map : Map ℕ ℕ

unfoldable pub new_level : ℕ → OrderBookLevel
new_level p = record { price = p; total_quantity = 0; orders = []; order_map = [] }

unfoldable pub add_order : Order → OrderBookLevel → OrderBookLevel
add_order o l = record l {
  orders = l.orders ++ o ∷ [];
  order_map = insert o.id (length l.orders) l.order_map;
  total_quantity = l.total_quantity + o.remaining_quantity;
}

-- `xs.slice(n)`
abbrev pub drop {ℓ} : {A : Type ℓ} → ℕ → List A → List A
drop zero xs = xs
drop (suc n) [] = []
drop (suc n) (x ∷ xs) = drop n xs

-- `for (let i = index; i < this.orders.length; i++) this.orderMap.set(this.orders[i].id, i)`, over
-- the orders from `index` on.
unfoldable pub reindex : List Order → ℕ → Map ℕ ℕ → Map ℕ ℕ
reindex [] i m = m
reindex (o ∷ rest) i m = reindex rest (suc i) (insert o.id i m)

-- The removal once the index has given a position that holds `o`.
unfoldable pub remove_found : ℕ → ℕ → Order → OrderBookLevel → OrderBookLevel
remove_found order_id index o l =
    let rest = remove_at l.orders index in
    record l {
      total_quantity = l.total_quantity - o.remaining_quantity;
      orders = rest;
      order_map = reindex (drop index rest) index (erase order_id l.order_map);
    }

-- `none` for a position outside the list stands for the error that reading a field of undefined
-- raises; the invariant excludes it.
unfoldable pub remove_order : ℕ → OrderBookLevel → Option Order × OrderBookLevel
unfolding remove_found
remove_order order_id l = elim (lookup order_id l.order_map) [
  | none ↦ (none, l)
  | some index ↦ elim (get_elem? l.orders index) [
    | none ↦ (none, l)
    | some o ↦ (some o, remove_found order_id index o l)
  ]
]

unfoldable pub resize : ℕ → Order → Order
resize n o = record o { remaining_quantity = n; filled_quantity = o.quantity - n }

-- The total loses the difference of the old and the new quantity, which may be negative.
unfoldable pub update_order_quantity : ℕ → ℕ → OrderBookLevel → Bool × OrderBookLevel
unfolding resize
update_order_quantity order_id n l = elim (lookup order_id l.order_map) [
  | none ↦ (false, l)
  | some index ↦ elim (get_elem? l.orders index) [
    | none ↦ (false, l)
    | some o ↦ (
      true,
      record l {
        orders = set l.orders index (resize n o);
        total_quantity = l.total_quantity + n - o.remaining_quantity;
      },
    )
  ]
]

unfoldable pub get_first_order : OrderBookLevel → Option Order
get_first_order l = get_elem? l.orders 0

unfoldable pub is_empty : OrderBookLevel → Bool
is_empty l = length l.orders == 0

unfoldable pub get_all_orders : OrderBookLevel → List Order
get_all_orders l = l.orders
