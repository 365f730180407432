-- ===== src/Matching/Book/Invariant.antt =====
-- The book as a map from ids to orders: its invariant, and what each operation does to that map.
use swap_trade_backend.Common.{
  ℕ, ◌≡◌, refl, ◌==◌, Bool, true, false, ◌&&◌, inl, inr, ◌≢◌, Option, none, some, List, [], ◌∷◌,
  ◌++◌, Map, arith, if◌then◌else◌, Option-cases, lookup, insert, lookup-insert, nat_key, sym, ap,
  ◌∙◌,
}
use swap_trade_backend.Matching.Types.{Order, OrderSide}
use swap_trade_backend.Matching.Level.{OrderBookLevel, new_level, is_empty}
use swap_trade_backend.Matching.Level
use swap_trade_backend.Matching.Level.Reference.{find_order}
use swap_trade_backend.Matching.Book.{
  OrderBook, BookSide, Place, side_of, set_side, new_book, clear, add_order, add_to_side,
}
use swap_trade_backend.Matching.Book.Side.{SideIsValid, rests, holds, no_orders-SideIsValid}

abbrev pub same_side : OrderSide → OrderSide → Bool
same_side OrderSide.buy OrderSide.buy = true
same_side OrderSide.buy OrderSide.sell = false
same_side OrderSide.sell OrderSide.buy = false
same_side OrderSide.sell OrderSide.sell = true

abbrev pub at_place : OrderSide → ℕ → Option Place → Bool
at_place s p none = false
at_place s p (some x) = same_side s x.side && p == x.price

-- Each side is valid, and the index says of each id exactly where it rests.
pub record BookIsValid (b : OrderBook) : Type 0 where
  pub sides : (s : OrderSide) → SideIsValid s (side_of s b)
  pub placed :
      (j : ℕ) (s : OrderSide) (p : ℕ)
      → holds j p (side_of s b) ≡ at_place s p (lookup j b.order_index)

-- The order with an id, wherever it rests.
abbrev pub view_from : ℕ → OrderBook → Option Place → Option Order
view_from j b none = none
view_from j b (some x) = rests j x.price (side_of x.side b)

abbrev pub view : OrderBook → ℕ → Option Order
view b j = view_from j b (lookup j b.order_index)

pub new_book-BookIsValid : (a : ℕ) → BookIsValid (new_book a)
unfolding new_book
new_book-BookIsValid a = record { sides = empty_side; placed = none_held }
  where
    empty_side : (s : OrderSide) → SideIsValid s (side_of s (new_book a))
    empty_side OrderSide.buy = no_orders-SideIsValid OrderSide.buy
    empty_side OrderSide.sell = no_orders-SideIsValid OrderSide.sell

    none_held : (j : ℕ) (s : OrderSide) (p : ℕ) → holds j p (side_of s (new_book a)) ≡ false
    none_held j OrderSide.buy p = refl
    none_held j OrderSide.sell p = refl

-- `clear` leaves the empty book of the same asset.
pub clear-new_book : (b : OrderBook) → clear b ≡ new_book b.asset
unfolding clear new_book
clear-new_book b = refl

find_order-append :
    (j : ℕ) (os : List Order) (o : Order)
    → find_order j (os ++ o ∷ [])
      ≡ elim (find_order j os) [ some x ↦ some x | none ↦ if j == o.id then some o else none ]
find_order-append j [] o = refl
find_order-append j (x ∷ os) o = ground (arith, find_order-append j os o)

rests-add_to_side :
    (j q : ℕ) (o : Order) (p : ℕ) (d : BookSide)
    → holds o.id p d ≡ false
    → rests j q (add_to_side o p d) ≡ (if (q == p) && (j == o.id) then some o else rests j q d)
unfolding add_to_side Level.add_order new_level
rests-add_to_side j q o p d n = elim (Option-cases (lookup p d.levels)) [
  | inr (l, e) ↦
      rw (e, add_to_side)
        (ground
          (arith, lookup-insert q p (Level.add_order o l) d.levels, find_order-append j l.orders o))
  | inl e ↦
      rw (e, add_to_side)
        (ground (arith, lookup-insert q p (Level.add_order o (new_level p)) d.levels))
]

side_of-set_side :
    (s t : OrderSide) (d : BookSide) (b : OrderBook)
    → side_of s (set_side t d b) ≡ (if same_side s t then d else side_of s b)
side_of-set_side OrderSide.buy OrderSide.buy d b = refl
side_of-set_side OrderSide.buy OrderSide.sell d b = refl
side_of-set_side OrderSide.sell OrderSide.buy d b = refl
side_of-set_side OrderSide.sell OrderSide.sell d b = refl

pub same_side→eq : (s t : OrderSide) → same_side s t ≡ true → s ≡ t
same_side→eq s t h = ground arith

side_of-index :
    (s : OrderSide) (m : Map ℕ Place) (b : OrderBook)
    → side_of s (record b { order_index = m }) ≡ side_of s b
side_of-index OrderSide.buy m b = refl
side_of-index OrderSide.sell m b = refl

-- The book with one side and the index replaced.
abbrev pub changed : OrderSide → BookSide → Map ℕ Place → OrderBook → OrderBook
changed t d m b = record (set_side t d b) { order_index = m }

pub side_of-changed :
    (s t : OrderSide) (d : BookSide) (m : Map ℕ Place) (b : OrderBook)
    → side_of s (changed t d m b) ≡ (if same_side s t then d else side_of s b)
side_of-changed s t d m b = side_of-index s m (set_side t d b) ∙ side_of-set_side s t d b

pub changed-SideIsValid :
    (t : OrderSide) (d : BookSide) (m : Map ℕ Place) (b : OrderBook)
    → SideIsValid t d
    → ((s : OrderSide) → SideIsValid s (side_of s b))
    → (s : OrderSide) → SideIsValid s (side_of s (changed t d m b))
changed-SideIsValid OrderSide.buy d m b h v OrderSide.buy = h
changed-SideIsValid OrderSide.buy d m b h v OrderSide.sell = v OrderSide.sell
changed-SideIsValid OrderSide.sell d m b h v OrderSide.buy = v OrderSide.buy
changed-SideIsValid OrderSide.sell d m b h v OrderSide.sell = h

-- The book that `add_order` gives back when it does not raise.
abbrev pub with_order : Order → ℕ → OrderBook → OrderBook
with_order o p b =
    changed o.side (add_to_side o p (side_of o.side b))
      (insert o.id (record { side = o.side; price = p }) b.order_index) b

pub add_order-priced :
    (o : Order) (p : ℕ) (b : OrderBook)
    → o.price ≡ some p
    → p ≢ 0
    → add_order o b ≡ some (with_order o p b)
unfolding add_order
add_order-priced o p b e n = ground arith

module _ (o : Order) (p : ℕ) (b : OrderBook) (v : BookIsValid b) (priced : o.price ≡ some p)
    (new : lookup o.id b.order_index ≡ none) where
  pub fresh : (s : OrderSide) (q : ℕ) → holds o.id q (side_of s b) ≡ false
  fresh s q = v.placed o.id s q ∙ (rw new)

  pub rests-with_order :
      (j : ℕ) (s : OrderSide) (q : ℕ)
      → rests j q (side_of s (with_order o p b)) ≡ (
          if same_side s o.side && (q == p && (j == o.id)) then some o else rests j q (side_of s b))
  rests-with_order j s q =
      ap (rests j q) (side_of-changed s o.side (add_to_side o p (side_of o.side b)) _ b)
      ∙ split (same_side s o.side) refl
    where
      split :
          (t : Bool)
          → same_side s o.side ≡ t
          → rests j q (if t then add_to_side o p (side_of o.side b) else side_of s b)
            ≡ (if t && (q == p && (j == o.id)) then some o else rests j q (side_of s b))
      split false e = refl
      split true e =
          rests-add_to_side j q o p (side_of o.side b) (fresh o.side p)
          ∙ ap (λ x. if q == p && (j == o.id) then some o else rests j q (side_of x b))
              (sym (same_side→eq s o.side e))
