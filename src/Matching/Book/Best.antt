-- ===== src/Matching/Book/Best.antt =====
-- The best price of a side, and the level that stands there.
use swap_trade_backend.Common.{
  ℕ, ◌≡◌, refl, ◌==◌, true, false, inl, inr, some, List, [], ◌∷◌, length, get_elem?, All, IsSorted,
  arith, Option-cases, is_some, lookup, nat_key, sym, ◌∙◌,
}
use swap_trade_backend.Matching.Types.{Order, OrderSide}
use swap_trade_backend.Matching.Level.{OrderBookLevel, is_empty, get_first_order}
use swap_trade_backend.Matching.Book.{OrderBook, ahead, side_of, get_best, get_best_level}
use swap_trade_backend.Matching.Book.Search.{contains}
use swap_trade_backend.Matching.Book.Side.{holds}
use swap_trade_backend.Matching.Book.Invariant.{BookIsValid}

ahead_irrefl : (s : OrderSide) (p : ℕ) → ahead s p p ≡ false
ahead_irrefl OrderSide.buy p = ground arith
ahead_irrefl OrderSide.sell p = ground arith

ahead_asym : (s : OrderSide) (p q : ℕ) → ahead s p q ≡ true → ahead s q p ≡ false
ahead_asym OrderSide.buy p q h = ground arith
ahead_asym OrderSide.sell p q h = ground arith

first_not_behind :
    (s : OrderSide) (p q : ℕ) (xs : List ℕ)
    → All (λ y. ahead s p y ≡ true) xs
    → contains q xs ≡ true
    → ahead s q p ≡ false
first_not_behind s p q [] a c = cc
first_not_behind s p q (x ∷ xs) a c =
    ground (arith, ahead_asym s p x, first_not_behind s p q xs a.1)

contains_of_holds :
    (s : OrderSide) (j q : ℕ) (b : OrderBook)
    → BookIsValid b
    → holds j q (side_of s b) ≡ true
    → contains q (side_of s b).sorted_prices ≡ true
contains_of_holds s j q b v h = ground (arith, (v.sides s).listed q)

-- In a valid book no order of a side rests at a better price than the best price of that side, and
-- if there is no best price, no order rests on the side at all.
pub get_best-not_behind :
    (s : OrderSide) (j q : ℕ) (b : OrderBook)
    → BookIsValid b
    → holds j q (side_of s b) ≡ true
    → (p : ℕ) × (get_best s b ≡ some p) × (ahead s q p ≡ false)
unfolding get_best
get_best-not_behind s j q b v h =
    go (side_of s b).sorted_prices (v.sides s).sorted (contains_of_holds s j q b v h)
  where
    go :
        (xs : List ℕ)
        → IsSorted (ahead s) xs
        → contains q xs ≡ true
        → (p : ℕ) × (get_elem? xs 0 ≡ some p) × (ahead s q p ≡ false)
    go [] o c = cc
    go (x ∷ xs) o c = (x, refl, ground (arith, ahead_irrefl s q, first_not_behind s x q xs o.0))

not_empty-first :
    (l : OrderBookLevel) → is_empty l ≡ false → (m : Order) × (get_first_order l ≡ some m)
unfolding is_empty get_first_order
not_empty-first l h = go l.orders h
  where
    go : (os : List Order) → (length os == 0) ≡ false → (m : Order) × (get_elem? os 0 ≡ some m)
    go [] e = cc
    go (x ∷ os) e = (x, refl)

best_listed :
    (s : OrderSide) (p : ℕ) (b : OrderBook)
    → BookIsValid b
    → get_best s b ≡ some p
    → is_some (lookup p (side_of s b).levels) ≡ true
unfolding get_best
best_listed s p b v h = sym ((v.sides s).listed p) ∙ (go (side_of s b).sorted_prices h)
  where
    go : (xs : List ℕ) → get_elem? xs 0 ≡ some p → contains p xs ≡ true
    go [] e = cc
    go (x ∷ xs) e = ground arith

-- In a valid book a side that has a best price has a level there, with a first order.
pub get_best-level :
    (s : OrderSide) (p : ℕ) (b : OrderBook)
    → BookIsValid b
    → get_best s b ≡ some p
    → (l : OrderBookLevel) × (m : Order) × (get_best_level s b ≡ some l)
      × (get_first_order l ≡ some m)
unfolding get_best_level
get_best-level s p b v h = elim (Option-cases (lookup p (side_of s b).levels)) [
  | inl e ↦ absurd (ground (arith, best_listed s p b v h))
  | inr (l, e) ↦
      let (m, f) = not_empty-first l ((v.sides s).busy p l e) in (l, m, rw (h, get_best_level) e, f)
]
