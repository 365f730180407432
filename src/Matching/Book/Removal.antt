-- ===== src/Matching/Book/Removal.antt =====
-- Removing from a valid book, seen as a change of the map from ids to orders.
use swap_trade_backend.Common.{
  ℕ, ◌≡◌, refl, ◌==◌, Bool, true, false, ◌&&◌, inl, inr, Option, none, some, List, [], ◌∷◌, length,
  All, arith, if◌then◌else◌, Bool-cases, Option-cases, is_some, lookup, erase, lookup-insert,
  lookup-erase, nat_key, sym, ap, ◌∙◌, ==_iff,
}
use swap_trade_backend.Matching.Types.{Order, OrderSide}
use swap_trade_backend.Matching.Level.{OrderBookLevel, is_empty}
use swap_trade_backend.Matching.Level
use swap_trade_backend.Matching.Level.Index.{remove_order-IsValid}
use swap_trade_backend.Matching.Level.Reference.{find_order, without, IsUnique, position-none}
use swap_trade_backend.Matching.Book.{OrderBook, BookSide, Place, side_of, remove_order, keep_level}
use swap_trade_backend.Matching.Book.Side.{LevelFits, RestsAt, rests, holds, keep_level-SideIsValid}
use swap_trade_backend.Matching.Book.Invariant.{
  BookIsValid, at_place, same_side, same_side→eq, view, view_from, changed, side_of-changed,
  changed-SideIsValid,
}
use swap_trade_backend.Matching.Book.Addition.{same_side_refl}

-- Removal.
find_order-without :
    (i j : ℕ) (os : List Order)
    → IsUnique os
    → find_order i (without j os) ≡ (if i == j then none else find_order i os)
find_order-without i j [] u = ground arith
find_order-without i j (x ∷ os) u =
    ground (arith, find_order-without i j os u.1, position-none x.id os u.0)

find_order_empty : (i : ℕ) (os : List Order) → (length os == 0) ≡ true → find_order i os ≡ none
find_order_empty i [] h = refl
find_order_empty i (x ∷ os) h = ground arith

rests-keep_level :
    (i q p : ℕ) (new : OrderBookLevel) (d : BookSide)
    → rests i q (keep_level p new d) ≡ (if q == p then find_order i new.orders else rests i q d)
unfolding keep_level is_empty
rests-keep_level i q p new d = elim (Bool-cases (is_empty new)) [
  | inl e ↦ rw e (ground (arith, lookup-erase q p d.levels, find_order_empty i new.orders e))
  | inr e ↦ rw e (ground (arith, lookup-insert q p new d.levels))
]

All-without :
    (s : OrderSide) (p j : ℕ) (os : List Order)
    → All (RestsAt s p) os
    → All (RestsAt s p) (without j os)
All-without s p j [] a = tt
All-without s p j (x ∷ os) a = ground (arith, All-without s p j os a.1)

price-remove_order : (j : ℕ) (l : OrderBookLevel) → (Level.remove_order j l).1.price ≡ l.price
unfolding Level.remove_order
price-remove_order j l = ground arith

remove_order-LevelFits :
    (s : OrderSide) (p j : ℕ) (l : OrderBookLevel)
    → LevelFits s p l
    → LevelFits s p (Level.remove_order j l).1
remove_order-LevelFits s p j l f =
    let (a, b, c, d) = remove_order-IsValid j l f.valid in
    record {
      valid = a;
      priced = price-remove_order j l ∙ f.priced;
      resting = rw c (All-without s p j l.orders f.resting);
    }

-- The book that a removal leaves, once the place and the level are known.
abbrev after_removal : ℕ → OrderSide → ℕ → OrderBookLevel → OrderBook → OrderBook
after_removal j t p l b =
    changed t (keep_level p (Level.remove_order j l).1 (side_of t b)) (erase j b.order_index) b

module _ (j : ℕ) (b : OrderBook) (v : BookIsValid b) (x : Place) (l : OrderBookLevel)
    (at : lookup j b.order_index ≡ some x)
    (there : lookup x.price (side_of x.side b).levels ≡ some l) where
  removed : OrderBook
  removed = after_removal j x.side x.price l b

  remove_order-at : remove_order j b ≡ ((Level.remove_order j l).0, removed)
  unfolding remove_order removed
  remove_order-at = rw (at, remove_order) (rw (there, remove_order))

  level_fits : LevelFits x.side x.price l
  level_fits = (v.sides x.side).fits x.price l there

  rests-level :
      (i q : ℕ)
      → (if q == x.price
          then find_order i (Level.remove_order j l).1.orders
          else rests i q (side_of x.side b))
        ≡ (if i == j && (q == x.price) then none else rests i q (side_of x.side b))
  rests-level i q =
      let (a, c, d, e) = remove_order-IsValid j l level_fits.valid in
      rw d (ground (arith, there, find_order-without i j l.orders level_fits.valid.unique))

  -- Every other order rests where it did, and the removed one nowhere.
  rests-removed :
      (i : ℕ) (s : OrderSide) (q : ℕ)
      → rests i q (side_of s removed) ≡ (if i == j then none else rests i q (side_of s b))
  unfolding removed
  rests-removed i s q =
      ap (rests i q) (side_of-changed s x.side _ (erase j b.order_index) b)
      ∙ split (same_side s x.side) refl
    where
      gone : (holds j q (side_of s b)) ≡ at_place s q (some x)
      gone = v.placed j s q ∙ ap (at_place s q) at

      split :
          (t : Bool)
          → same_side s x.side ≡ t
          → rests i q (
              if t
              then keep_level x.price (Level.remove_order j l).1 (side_of x.side b)
              else side_of s b)
            ≡ (if i == j then none else rests i q (side_of s b))
      split false e = ground (arith, gone)
      split true e =
          rests-keep_level i q x.price (Level.remove_order j l).1 (side_of x.side b)
          ∙ (rests-level i q ∙ (rw (sym (same_side→eq s x.side e)) (ground (arith, gone))))

  removed-BookIsValid : BookIsValid removed
  unfolding removed
  removed-BookIsValid = record {
    sides =
        changed-SideIsValid x.side _ (erase j b.order_index) b
          (keep_level-SideIsValid x.side x.price l (Level.remove_order j l).1 (side_of x.side b)
            (v.sides x.side) there (remove_order-LevelFits x.side x.price j l level_fits))
          v.sides;
    placed = λ i s q.
        ap is_some (rests-removed i s q)
        ∙ (ground (arith, v.placed i s q, lookup-erase i j b.order_index));
  }

  view-removed : (i : ℕ) → view removed i ≡ (if i == j then none else view b i)
  unfolding removed
  view-removed i = ap (view_from i removed) (lookup-erase i j b.order_index) ∙ split (i == j) refl
    where
      elsewhere : (m : Option Place) → i == j ≡ false → view_from i removed m ≡ view_from i b m
      elsewhere none h = refl
      elsewhere (some y) h = ground (arith, rests-removed i y.side y.price)

      split :
          (t : Bool)
          → i == j ≡ t
          → view_from i removed (if t then none else lookup i b.order_index)
            ≡ (if t then none else view b i)
      split true h = refl
      split false h = elsewhere (lookup i b.order_index) h

  found_order : (Level.remove_order j l).0 ≡ view b j
  found_order =
      (remove_order-IsValid j l level_fits.valid).1
      ∙ sym (ap (view_from j b) at ∙ ap (λ m. level_order m) there)
    where
      level_order : Option OrderBookLevel → Option Order
      level_order m = elim m [ none ↦ none | some y ↦ find_order j y.orders ]

-- The place that the index names has a level.
pub level_at :
    (j : ℕ) (b : OrderBook) (x : Place)
    → BookIsValid b
    → lookup j b.order_index ≡ some x
    → (l : OrderBookLevel) × (lookup x.price (side_of x.side b).levels ≡ some l)
level_at j b x v e = elim (Option-cases (lookup x.price (side_of x.side b).levels)) [
  | inr (l, q) ↦ (l, q)
  | inl q ↦ absurd (ground (arith, v.placed j x.side x.price, same_side_refl x.side))
]

remove_order-absent :
    (j : ℕ) (b : OrderBook) → lookup j b.order_index ≡ none → remove_order j b ≡ (none, b)
unfolding remove_order
remove_order-absent j b e = rw (e, remove_order)

-- `remove_order` gives back the order that the id leads to, if any; afterwards the id leads nowhere,
-- every other id leads where it led, and the book is valid.
pub remove_order-BookIsValid :
    (j : ℕ) (b : OrderBook)
    → BookIsValid b
    → ((remove_order j b).0 ≡ view b j)
      × BookIsValid (remove_order j b).1
      × ((i : ℕ) → view (remove_order j b).1 i ≡ (if i == j then none else view b i))
remove_order-BookIsValid j b v = elim (Option-cases (lookup j b.order_index)) [
  | inl e ↦
      let r = remove_order-absent j b e in
      let same : (i : ℕ) → view b i ≡ (if i == j then none else view b i) =
        λ i. unseen i (i == j) refl e in
      rw r (sym (ap (view_from j b) e), v, same)
  | inr (x, e) ↦
      let (l, q) = level_at j b x v e in
      rw (remove_order-at j b v x l e q)
        (found_order j b v x l e q, removed-BookIsValid j b v x l e q, view-removed j b v x l e q)
]
  where
    unseen :
        (i : ℕ) (t : Bool)
        → i == j ≡ t
        → lookup j b.order_index ≡ none
        → view b i ≡ (if t then none else view b i)
    unseen i false h e = refl
    unseen i true h e =
        ap (λ k. view_from i b (lookup k b.order_index)) ((==_iff i j).0 h) ∙ ap (view_from i b) e
