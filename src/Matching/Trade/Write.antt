-- ===== src/Matching/Trade/Write.antt =====
-- Replacing a level by one with the same ids, and the write to the first order of the best level.
use swap_trade_backend.Common.{
  ℕ, zero, suc, ◌≤◌, ◌≡◌, refl, ◌==◌, Bool, true, false, ◌&&◌, Option, none, some, List, [], ◌∷◌,
  length, set, get_elem?, All, arith, if◌then◌else◌, is_some, lookup, insert, lookup-insert,
  nat_key, sym, ap, ◌∙◌,
}
use swap_trade_backend.Matching.Types.{Order, OrderSide}
use swap_trade_backend.Matching.Level.{OrderBookLevel, is_empty}
use swap_trade_backend.Matching.Level.Reference.{
  find_order, position-set, IsUnique-set, remaining, position, find_order-none, position-none,
}
use swap_trade_backend.Matching.Book.{OrderBook, Place, side_of}
use swap_trade_backend.Matching.Book.Side.{LevelFits, RestsAt, rests, holds, put_level-SideIsValid}
use swap_trade_backend.Matching.Book.Invariant.{
  BookIsValid, at_place, same_side, same_side→eq, view, view_from, changed, side_of-changed,
  changed-SideIsValid,
}

same_side_comm : (s t : OrderSide) → same_side s t ≡ same_side t s
same_side_comm OrderSide.buy OrderSide.buy = refl
same_side_comm OrderSide.buy OrderSide.sell = refl
same_side_comm OrderSide.sell OrderSide.buy = refl
same_side_comm OrderSide.sell OrderSide.sell = refl

-- The book with the level of side `s` at `p` replaced.
abbrev pub with_level : OrderSide → ℕ → OrderBookLevel → OrderBook → OrderBook
with_level s p new b =
    changed s (record (side_of s b) { levels = insert p new (side_of s b).levels }) b.order_index b

module _ (s : OrderSide) (p : ℕ) (l new : OrderBookLevel) (b : OrderBook) (v : BookIsValid b)
    (there : lookup p (side_of s b).levels ≡ some l) (fits : LevelFits s p new)
    (full : is_empty new ≡ false)
    (same_ids : (i : ℕ) → is_some (find_order i new.orders) ≡ is_some (find_order i l.orders)) where
  pub rests-with_level :
      (i : ℕ) (t : OrderSide) (q : ℕ)
      → rests i q (side_of t (with_level s p new b))
        ≡ (if same_side t s && (q == p) then find_order i new.orders else rests i q (side_of t b))
  rests-with_level i t q =
      ap (rests i q) (side_of-changed t s _ b.order_index b) ∙ split (same_side t s) refl
    where
      split :
          (c : Bool)
          → same_side t s ≡ c
          → rests i q (
              if c
              then record (side_of s b) { levels = insert p new (side_of s b).levels }
              else side_of t b)
            ≡ (if c && (q == p) then find_order i new.orders else rests i q (side_of t b))
      split false e = refl
      split true e =
          rw (same_side→eq t s e) (ground (arith, lookup-insert q p new (side_of s b).levels))

  pub with_level-BookIsValid : BookIsValid (with_level s p new b)
  with_level-BookIsValid = record {
    sides =
        changed-SideIsValid s _ b.order_index b
          (put_level-SideIsValid s p l new (side_of s b) (v.sides s) there fits full) v.sides;
    placed = λ i t q. ap is_some (rests-with_level i t q) ∙ (held i t q (same_side t s) refl);
  }
    where
      held :
          (i : ℕ) (t : OrderSide) (q : ℕ) (c : Bool)
          → same_side t s ≡ c
          → is_some (if c && (q == p) then find_order i new.orders else rests i q (side_of t b))
            ≡ at_place t q (lookup i b.order_index)
      held i t q false e = v.placed i t q
      held i t q true e = ground (arith, v.placed i t q, same_ids i, there, same_side→eq t s e)

  pub view-with_level :
      (i : ℕ)
      → view (with_level s p new b) i
        ≡ (if is_some (find_order i l.orders) then find_order i new.orders else view b i)
  view-with_level i = go (lookup i b.order_index) refl
    where
      go :
          (m : Option Place)
          → lookup i b.order_index ≡ m
          → view_from i (with_level s p new b) m
            ≡ (if is_some (find_order i l.orders) then find_order i new.orders else view_from i b m)
      go none e = ground (arith, v.placed i s p, there)
      go (some x) e =
          rests-with_level i x.side x.price
          ∙ (ground (arith, v.placed i s p, there, e, same_side_comm s x.side))

-- An id leads to what rests under it at any place.
pub view-rests :
    (i : ℕ) (s : OrderSide) (p : ℕ) (b : OrderBook)
    → BookIsValid b
    → holds i p (side_of s b) ≡ true
    → view b i ≡ rests i p (side_of s b)
view-rests i s p b v h = go (lookup i b.order_index) refl
  where
    go : (m : Option Place) → lookup i b.order_index ≡ m → view_from i b m ≡ rests i p (side_of s b)
    go none e = ground (arith, v.placed i s p)
    go (some x) e =
        let q : same_side s x.side && (p == x.price) ≡ true =
          ap (at_place s p) (sym e) ∙ (sym (v.placed i s p) ∙ h) in
        let a : s ≡ x.side = same_side→eq s x.side (ground arith) in
        let c : p ≡ x.price = ground arith in λ k. rests i (sym c k) (side_of (sym a k) b)

-- An order written over one with its id.

find_order-set :
    (new : Order) (i k : ℕ) (old : Order) (os : List Order)
    → get_elem? os k ≡ some old
    → new.id ≡ old.id
    → position old.id os ≡ some k
    → find_order i (set os k new) ≡ (if i == old.id then some new else find_order i os)
find_order-set new i k old [] g e h = cc
find_order-set new i zero old (x ∷ os) g e h = ground arith
find_order-set new i (suc k) old (x ∷ os) g e h = ground (arith, find_order-set new i k old os)

All-set :
    (P : Order → Type 0) (new : Order) (k : ℕ) (os : List Order)
    → P new
    → All P os
    → All P (set os k new)
All-set P new k [] h a = tt
All-set P new zero (x ∷ os) h a = (h, a.1)
All-set P new (suc k) (x ∷ os) h a = (a.0, All-set P new k os h a.1)

-- The level with the order at position `k` replaced.
abbrev pub with_entry : ℕ → Order → OrderBookLevel → OrderBookLevel
with_entry k o l = record l { orders = set l.orders k o }

module _ (s : OrderSide) (p k : ℕ) (m o : Order) (l : OrderBookLevel) (b : OrderBook)
    (v : BookIsValid b) (there : lookup p (side_of s b).levels ≡ some l)
    (old : get_elem? l.orders k ≡ some m) (placed_at : position m.id l.orders ≡ some k)
    (same_id : o.id ≡ m.id) (rests_at : RestsAt s p o) where
  ids_kept : (i : ℕ) → is_some (find_order i (set l.orders k o)) ≡ is_some (find_order i l.orders)
  ids_kept i = ground (
    arith,
    find_order-set o i k m l.orders old same_id placed_at,
    position-none m.id l.orders,
    find_order-none m.id l.orders,
  )

  -- The level with a total that covers what the orders ask for.
  unfoldable pub retotal : ℕ → OrderBookLevel
  retotal n = record (with_entry k o l) { total_quantity = n }

  retotal-LevelFits : (n : ℕ) → remaining (set l.orders k o) ≤ n → LevelFits s p (retotal n)
  unfolding retotal
  retotal-LevelFits n h =
      let f = (v.sides s).fits p l there in
      record {
        valid = record {
          indexed = λ j. f.valid.indexed j ∙ sym (position-set o j k m l.orders old same_id);
          unique = IsUnique-set o k m l.orders old same_id f.valid.unique;
          covered = h;
        };
        priced = f.priced;
        resting = All-set (RestsAt s p) o k l.orders rests_at f.resting;
      }

  retotal_full : (n : ℕ) → is_empty (retotal n) ≡ false
  unfolding retotal is_empty
  retotal_full n = go l.orders k old
    where
      go : (os : List Order) (k : ℕ) → get_elem? os k ≡ some m → (length (set os k o) == 0) ≡ false
      go [] k g = cc
      go (x ∷ os) zero g = ground arith
      go (x ∷ os) (suc k) g = ground arith

  unfoldable pub written : ℕ → OrderBook
  unfolding retotal
  written n = with_level s p (retotal n) b

  pub written-BookIsValid : (n : ℕ) → remaining (set l.orders k o) ≤ n → BookIsValid (written n)
  unfolding written
  written-BookIsValid n h =
      with_level-BookIsValid s p l (retotal n) b v there (retotal-LevelFits n h) (retotal_full n)
        (unfold retotal in ids_kept)

  pub view-written :
      (n : ℕ)
      → remaining (set l.orders k o) ≤ n
      → (i : ℕ) → view (written n) i ≡ (if i == m.id then some o else view b i)
  unfolding written retotal
  view-written n h i =
      view-with_level s p l (retotal n) b v there (retotal-LevelFits n h) (retotal_full n) ids_kept
        i
      ∙ (ground (
        arith,
        find_order-set o i k m l.orders old same_id placed_at,
        position-none m.id l.orders,
        find_order-none m.id l.orders,
        view-rests i s p b v,
        there,
      ))
