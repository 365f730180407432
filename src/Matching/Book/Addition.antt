-- ===== src/Matching/Book/Addition.antt =====
-- Adding to a valid book, seen as a change of the map from ids to orders.
use swap_trade_backend.Common.{
  ℕ, ◌≡◌, refl, ◌==◌, Bool, true, false, ◌≢◌, Option, none, some, arith, if◌then◌else◌, lookup,
  lookup-insert, nat_key, ap, ◌∙◌,
}
use swap_trade_backend.Matching.Types.{Order, OrderSide}
use swap_trade_backend.Matching.Book.{OrderBook, Place, side_of, add_order, add_to_side}
use swap_trade_backend.Matching.Book.Side.{IsBalanced, add_to_side-SideIsValid}
use swap_trade_backend.Matching.Book.Invariant.{
  BookIsValid, same_side, view, view_from, with_order, add_order-priced, rests-with_order, fresh,
  changed-SideIsValid,
}

pub same_side_refl : (s : OrderSide) → same_side s s ≡ true
same_side_refl OrderSide.buy = refl
same_side_refl OrderSide.sell = refl

view-with_order :
    (o : Order) (p : ℕ) (b : OrderBook) (v : BookIsValid b) (e : o.price ≡ some p)
    → lookup o.id b.order_index ≡ none
    → (j : ℕ) → view (with_order o p b) j ≡ (if j == o.id then some o else view b j)
view-with_order o p b v e n j =
    ap (view_from j (with_order o p b)) (lookup-insert j o.id place b.order_index)
    ∙ split (j == o.id) refl
  where
    place : Place
    place = record { side = o.side; price = p }

    elsewhere :
        (m : Option Place) → j == o.id ≡ false → view_from j (with_order o p b) m ≡ view_from j b m
    elsewhere none h = refl
    elsewhere (some x) h = ground (arith, rests-with_order o p b v e n j x.side x.price)

    split :
        (t : Bool)
        → j == o.id ≡ t
        → view_from j (with_order o p b) (if t then some place else lookup j b.order_index)
          ≡ (if t then some o else view b j)
    split true h = ground (arith, rests-with_order o p b v e n j o.side p, same_side_refl o.side)
    split false h = elsewhere (lookup j b.order_index) h

pub with_order-BookIsValid :
    (o : Order) (p : ℕ) (b : OrderBook)
    → BookIsValid b
    → IsBalanced o
    → o.price ≡ some p
    → lookup o.id b.order_index ≡ none
    → BookIsValid (with_order o p b)
with_order-BookIsValid o p b v bal e n = record {
  sides =
      changed-SideIsValid o.side (add_to_side o p (side_of o.side b)) _ b
        (add_to_side-SideIsValid o o.side p (side_of o.side b) (e, refl, bal)
          (fresh o p b v e n o.side p) (v.sides o.side))
        v.sides;
  placed = λ j s q. ground (
    arith,
    rests-with_order o p b v e n j s q,
    lookup-insert j o.id (record { side = o.side; price = p }) b.order_index,
    v.placed j s q,
  );
}

-- An order in balance, with a price above 0 and an id that the book does not know, is added: the
-- book stays valid, the id now leads to the order, and every other id leads where it led.
pub add_order-BookIsValid :
    (o : Order) (p : ℕ) (b : OrderBook)
    → BookIsValid b
    → IsBalanced o
    → o.price ≡ some p
    → p ≢ 0
    → lookup o.id b.order_index ≡ none
    → (c : OrderBook) × (add_order o b ≡ some c)
      × BookIsValid c
      × ((j : ℕ) → view c j ≡ (if j == o.id then some o else view b j))
add_order-BookIsValid o p b v bal e nz n = (
  with_order o p b,
  add_order-priced o p b e nz,
  with_order-BookIsValid o p b v bal e n,
  view-with_order o p b v e n,
)
