-- ===== src/Matching/Trade/Step.antt =====
-- One round of a loop: what a match moves, and what it leaves of the book.
use swap_trade_backend.Common.{
  ℕ, ◌-◌, ◌≤◌, ◌<◌, ◌≡◌, refl, ◌==◌, true, false, inl, inr, Option, none, some, List, [], ◌∷◌,
  length, set, get_elem?, All, Map, arith, if◌then◌else◌, Bool-cases, Option-cases, is_some, lookup,
  erase, nat_key, ap, subst, ◌∙◌, ==_refl,
}
use swap_trade_backend.Matching.Types.{Order, OrderSide, OrderStatus, opposite}
use swap_trade_backend.Matching.Level.{OrderBookLevel, get_first_order}
use swap_trade_backend.Matching.Level.Reference.{position, remaining, remaining-set, find_order}
use swap_trade_backend.Matching.Book.{
  OrderBook, BookSide, Place, side_of, set_side, get_best, get_best_level, remove_order,
}
use swap_trade_backend.Matching.Book.Side.{LevelFits, RestsAt, rests}
use swap_trade_backend.Matching.Book.Invariant.{BookIsValid, view, changed}
use swap_trade_backend.Matching.Book.Removal.{remove_order-BookIsValid}
use swap_trade_backend.Matching.Book.Update.{update_order_quantity_same}
use swap_trade_backend.Matching.Trade.{
  write_first, settle_resting, first_of_best, find_match, misses, take,
}
use swap_trade_backend.Matching.Trade.Write.{
  written, retotal, written-BookIsValid, view-written, view-rests,
}

-- `m` is the first order of the best level of side `s`.
pub record IsFirst (s : OrderSide) (b : OrderBook) (m : Order) : Type 0 where
  pub price : ℕ
  pub level : OrderBookLevel
  pub best : get_best s b ≡ some price
  pub there : lookup price (side_of s b).levels ≡ some level
  pub first : get_elem? level.orders 0 ≡ some m

-- What the loops ask for finds such an order.
pub level-IsFirst :
    (s : OrderSide) (b : OrderBook) (l : OrderBookLevel) (m : Order)
    → get_best_level s b ≡ some l
    → get_first_order l ≡ some m
    → IsFirst s b m
unfolding get_best_level get_first_order
level-IsFirst s b l m h f = elim (Option-cases (get_best s b)) [
  | inl e ↦ absurd (ground arith)
  | inr (p, e) ↦ record { price = p; level = l; best = e; there = ground arith; first = f }
]

pub find_match-IsFirst :
    (o : Order) (b : OrderBook) (m : Order)
    → find_match o b ≡ some m
    → (f : IsFirst (opposite o.side) b m) × (misses o.side o.price f.price ≡ false)
unfolding find_match first_of_best get_best_level get_first_order
find_match-IsFirst o b m h = elim (Option-cases (get_best (opposite o.side) b)) [
  | inl e ↦ absurd (ground arith)
  | inr (p, e) ↦ elim (Option-cases (lookup p (side_of (opposite o.side) b).levels)) [
    | inl n ↦ absurd (ground arith)
    | inr (l, q) ↦
        (record { price = p; level = l; best = e; there = q; first = ground arith }, ground arith)
  ]
]

position_first : (m : Order) (os : List Order) → get_elem? os 0 ≡ some m → position m.id os ≡ some 0
position_first m [] h = cc
position_first m (x ∷ os) h = ground arith

first-RestsAt :
    (s : OrderSide) (p : ℕ) (m : Order) (l : OrderBookLevel)
    → LevelFits s p l
    → get_elem? l.orders 0 ≡ some m
    → RestsAt s p m
first-RestsAt s p m l f h = go l.orders f.resting h
  where
    go : (os : List Order) → All (RestsAt s p) os → get_elem? os 0 ≡ some m → RestsAt s p m
    go [] a e = cc
    go (x ∷ os) a e = let q : x ≡ m = ground arith in subst (RestsAt s p) q a.0

length-erase : (j : ℕ) (m : Map ℕ Place) → length (erase j m) ≤ length m
length-erase j [] = omega arith
length-erase j ((i, x) ∷ m) = ground (arith, length-erase j m)

length-erase-lt :
    (j : ℕ) (x : Place) (m : Map ℕ Place) → lookup j m ≡ some x → length (erase j m) < length m
length-erase-lt j x [] h = cc
length-erase-lt j x ((i, y) ∷ m) h = ground (arith, length-erase-lt j x m, length-erase j m)

order_index-set_side :
    (s : OrderSide) (d : BookSide) (b : OrderBook) → (set_side s d b).order_index ≡ b.order_index
order_index-set_side OrderSide.buy d b = refl
order_index-set_side OrderSide.sell d b = refl

order_index-remove_order :
    (j : ℕ) (b : OrderBook) (m : Order)
    → (remove_order j b).0 ≡ some m
    → length (remove_order j b).1.order_index < length b.order_index
unfolding remove_order
order_index-remove_order j b m h = elim (Option-cases (lookup j b.order_index)) [
  | inl e ↦ absurd (ground arith)
  | inr (x, e) ↦ elim (Option-cases (lookup x.price (side_of x.side b).levels)) [
    | inl n ↦ absurd (ground arith)
    | inr (l, q) ↦ rw (e, remove_order) (rw (q, remove_order) (length-erase-lt j x b.order_index e))
  ]
]

set_side-changed :
    (s : OrderSide) (d : BookSide) (b : OrderBook) → set_side s d b ≡ changed s d b.order_index b
set_side-changed OrderSide.buy d b = refl
set_side-changed OrderSide.sell d b = refl

module _ (s : OrderSide) (b : OrderBook) (v : BookIsValid b) (m : Order) (f : IsFirst s b m) where
  pub first_resting : RestsAt s f.price m
  first_resting =
      first-RestsAt s f.price m f.level ((v.sides s).fits f.price f.level f.there) f.first

  -- Its id leads to it.
  pub first-view : view b m.id ≡ some m
  first-view =
      let g : find_order m.id f.level.orders ≡ some m = find_first f.level.orders f.first in
      let r : rests m.id f.price (side_of s b) ≡ some m = (rw (f.there, rests) g) in
      view-rests m.id s f.price b v (ap is_some r) ∙ r
    where
      find_first : (os : List Order) → get_elem? os 0 ≡ some m → find_order m.id os ≡ some m
      find_first [] e = cc
      find_first (x ∷ os) e = ground arith

  module _ (o : Order) (same_id : o.id ≡ m.id) (rests_at : RestsAt s f.price o)
      (less : o.remaining_quantity ≤ m.remaining_quantity) where
    write_first-written :
        write_first s o b
        ≡ written s f.price 0 m o f.level b v f.there f.first
            (position_first m f.level.orders f.first)
            same_id
            rests_at
            f.level.total_quantity
    unfolding write_first written retotal
    write_first-written =
        (rw (f.best, write_first) (rw (f.there, write_first))) ∙ set_side-changed s _ b

    covers : remaining (set f.level.orders 0 o) ≤ f.level.total_quantity
    covers =
        let c = ((v.sides s).fits f.price f.level f.there).valid.covered in
        omega (arith, c, remaining-set o 0 m f.level.orders f.first)

    -- The write leaves a valid book in which the id leads to the new order.
    pub write_first-BookIsValid :
        BookIsValid (write_first s o b)
        × ((i : ℕ) → view (write_first s o b) i ≡ (if i == m.id then some o else view b i))
        × ((write_first s o b).order_index ≡ b.order_index)
    write_first-BookIsValid =
        let q = position_first m f.level.orders f.first in
        rw write_first-written (
          written-BookIsValid s f.price 0 m o f.level b v f.there f.first q same_id rests_at
              f.level.total_quantity covers,
          view-written s f.price 0 m o f.level b v f.there f.first q same_id rests_at
              f.level.total_quantity covers,
          unfold written in refl,
        )

-- What trading `n` leaves of the order of the book.
abbrev pub traded : OrderStatus → ℕ → Order → Order
traded st n m = record (take n m) { status = st }

abbrev pub left_of : ℕ → Order → Option Order
left_of n m = if m.remaining_quantity - n == 0 then none else some (traded OrderStatus.partial n m)

module _ (s : OrderSide) (b : OrderBook) (v : BookIsValid b) (m : Order) (f : IsFirst s b m) (n : ℕ)
    (fits : n ≤ m.remaining_quantity) where
  traded-RestsAt : (st : OrderStatus) → RestsAt s f.price (traded st n m)
  traded-RestsAt st = let (a, c, d) = first_resting s b v m f in (a, c, omega arith)

  pub settle_resting-BookIsValid :
      BookIsValid (settle_resting s (take n m) b)
      × ((i : ℕ)
          → view (settle_resting s (take n m) b) i ≡ (if i == m.id then left_of n m else view b i))
  unfolding settle_resting
  settle_resting-BookIsValid = elim (Bool-cases (m.remaining_quantity - n == 0)) [
    | inl e ↦
        let (a, c, d) =
          write_first-BookIsValid s b v m f (traded OrderStatus.filled n m) refl
            (traded-RestsAt OrderStatus.filled) (omega arith) in
        let (x, y, z) = remove_order-BookIsValid m.id _ a in
        rw e (y, λ i. z i ∙ (ground (arith, c i)))
    | inr e ↦
        let (a, c, d) =
          write_first-BookIsValid s b v m f (traded OrderStatus.partial n m) refl
            (traded-RestsAt OrderStatus.partial) (omega arith) in
        let u =
          update_order_quantity_same m.id (traded OrderStatus.partial n m) _ a
            (c m.id ∙ (rw (==_refl m.id))) in
        rw e (rw u (a, c))
  ]

  -- An order that is emptied leaves the index.
  pub order_index-settle_resting :
      m.remaining_quantity ≡ n
      → length (settle_resting s (take n m) b).order_index < length b.order_index
  unfolding settle_resting
  order_index-settle_resting h =
      let e : m.remaining_quantity - n == 0 ≡ true = ground arith in
      let (a, c, d) =
        write_first-BookIsValid s b v m f (traded OrderStatus.filled n m) refl
          (traded-RestsAt OrderStatus.filled) (omega arith) in
      let (x, y, z) = remove_order-BookIsValid m.id _ a in
      rw e (
        subst
          (λ t.
            length
              (remove_order m.id (write_first s (traded OrderStatus.filled n m) b)).1.order_index
            < length t)
          d
          (order_index-remove_order m.id _ (traded OrderStatus.filled n m)
            (x ∙ (c m.id ∙ (rw (==_refl m.id))))))
