-- ===== src/Matching/Book/Update.antt =====
-- Setting an order's quantity to the one that it has leaves the book as it is.
use swap_trade_backend.Common.{
  ℕ, zero, suc, ◌≡◌, refl, ◌==◌, true, inl, inr, Option, none, some, List, [], ◌∷◌, set, get_elem?,
  All, Map, arith, Option-cases, Bool-cases, lookup, insert, nat_key, sym, ap, subst, ◌∙◌,
}
use swap_trade_backend.Matching.Types.{Order, OrderSide}
use swap_trade_backend.Matching.Level.{OrderBookLevel, resize}
use swap_trade_backend.Matching.Level
use swap_trade_backend.Matching.Level.Index.{position-some}
use swap_trade_backend.Matching.Level.Reference.{find_order, get_elem?-position}
use swap_trade_backend.Matching.Book.{OrderBook, side_of, set_side, update_order_quantity}
use swap_trade_backend.Matching.Book.Side.{RestsAt, LevelFits}
use swap_trade_backend.Matching.Book.Invariant.{BookIsValid, view, view_from}
use swap_trade_backend.Matching.Book.Removal.{level_at}

insert_same {ℓ} :
    {V : Type ℓ} (p : ℕ) (x : V) (m : Map ℕ V) → lookup p m ≡ some x → insert p x m ≡ m
insert_same p x [] h = cc
insert_same p x ((q, y) ∷ m) h = ground (arith, insert_same p x m)

set_same {ℓ} :
    {A : Type ℓ} (k : ℕ) (x : A) (xs : List A) → get_elem? xs k ≡ some x → set xs k x ≡ xs
set_same k x [] h = refl
set_same zero x (y ∷ xs) h = ground arith
set_same (suc k) x (y ∷ xs) h = ap (◌∷◌ y) (set_same k x xs h)

pub All-find {κ} :
    (P : Order → Type κ) (j : ℕ) (o : Order) (os : List Order)
    → All P os
    → find_order j os ≡ some o
    → P o
All-find P j o [] a h = cc
All-find P j o (x ∷ os) a h = elim (Bool-cases (j == x.id)) [
  | inl e ↦ subst P (ground arith) a.0
  | inr e ↦ All-find P j o os a.1 (ground arith)
]

level_update_same :
    (s : OrderSide) (p j : ℕ) (o : Order) (l : OrderBookLevel)
    → LevelFits s p l
    → find_order j l.orders ≡ some o
    → Level.update_order_quantity j o.remaining_quantity l ≡ (true, l)
unfolding Level.update_order_quantity
level_update_same s p j o l f h =
    let (k, at) = position-some j o l.orders h in
    let g = get_elem?-position j k l.orders at ∙ h in
    let (_, _, bal) = All-find (RestsAt s p) j o l.orders f.resting h in
    let same : resize o.remaining_quantity o ≡ o = unfold resize in (ground arith) in
    rw (f.valid.indexed j ∙ at, Level.update_order_quantity)
      (rw (g, Level.update_order_quantity) (rw (same, set_same k o l.orders g) (ground arith)))

set_side_same :
    (s : OrderSide) (p : ℕ) (l : OrderBookLevel) (b : OrderBook)
    → lookup p (side_of s b).levels ≡ some l
    → set_side s (record (side_of s b) { levels = insert p l (side_of s b).levels }) b ≡ b
set_side_same OrderSide.buy p l b h = rw (insert_same p l b.buys.levels h)
set_side_same OrderSide.sell p l b h = rw (insert_same p l b.sells.levels h)

-- In a valid book, `update_order_quantity` with the quantity that the order already has finds the
-- order and changes nothing: neither the order nor the total of its level.
pub update_order_quantity_same :
    (j : ℕ) (o : Order) (b : OrderBook)
    → BookIsValid b
    → view b j ≡ some o
    → update_order_quantity j o.remaining_quantity b ≡ (true, b)
unfolding update_order_quantity
update_order_quantity_same j o b v h = elim (Option-cases (lookup j b.order_index)) [
  | inl e ↦ cc (ap (view_from j b) (sym e), h)
  | inr (x, e) ↦
      let (l, q) = level_at j b x v e in
      let level_order : Option OrderBookLevel → Option Order =
        λ m. elim m [ none ↦ none | some y ↦ find_order j y.orders ] in
      let g : find_order j l.orders ≡ some o =
        ap level_order (sym q) ∙ (ap (view_from j b) (sym e) ∙ h) in
      rw (e, update_order_quantity)
        (rw (q, update_order_quantity)
          (rw (level_update_same x.side x.price j o l ((v.sides x.side).fits x.price l q) g)
            (ap (λ (c : OrderBook). (true, c)) (set_side_same x.side x.price l b q))))
]
