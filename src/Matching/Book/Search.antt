-- ===== src/Matching/Book/Search.antt =====
-- The binary search for the place of a price agrees with a scan, and the insertion keeps the list
-- strictly sorted.
use swap_trade_backend.Common.{
  ℕ, zero, suc, ◌+◌, ◌/◌, ◌≤◌, ◌<◌, ◌≡◌, refl, ◌==◌, ltb, Bool, true, false, ◌||◌, List, [], ◌∷◌,
  inl, inr, length, insert_at, All, IsSorted, arith, if◌then◌else◌, Bool-cases,
}
use swap_trade_backend.Matching.Types.{OrderSide}
use swap_trade_backend.Matching.Book.{
  ahead, price_at, search_place, insert_sorted_price, without_price,
}

-- How many prices stand ahead of `price`.
abbrev pub scan : OrderSide → List ℕ → ℕ → ℕ
scan s [] price = 0
scan s (x ∷ xs) price = let rest = scan s xs price in if ahead s x price then suc rest else 0

abbrev pub contains : ℕ → List ℕ → Bool
contains p [] = false
contains p (x ∷ xs) = p == x || contains p xs

scan-le-length : (s : OrderSide) (xs : List ℕ) (p : ℕ) → scan s xs p ≤ length xs
scan-le-length s [] p = omega arith
scan-le-length s (x ∷ xs) p = ground (arith, scan-le-length s xs p)

-- In a sorted list the prices ahead of `p` are those before its place.
not_ahead_after :
    (s : OrderSide) (x p : ℕ) (xs : List ℕ) (i : ℕ)
    → All (λ y. ahead s x y ≡ true) xs
    → ahead s x p ≡ false
    → i < length xs
    → ahead s (price_at xs i) p ≡ false
not_ahead_after s x p [] i a h b = elim b [ ]
not_ahead_after OrderSide.buy x p (y ∷ xs) zero a h b = ground arith
not_ahead_after OrderSide.sell x p (y ∷ xs) zero a h b = ground arith
not_ahead_after s x p (y ∷ xs) (suc i) a h b = not_ahead_after s x p xs i a.1 h (omega arith)

ahead-scan :
    (s : OrderSide) (xs : List ℕ) (p i : ℕ)
    → IsSorted (ahead s) xs
    → i < length xs
    → ahead s (price_at xs i) p ≡ ltb i (scan s xs p)
ahead-scan s [] p i h b = elim b [ ]
ahead-scan s (x ∷ xs) p zero h b = ground arith
ahead-scan s (x ∷ xs) p (suc i) h b = elim (Bool-cases (ahead s x p)) [
  | inl e ↦ rw e (ground (arith, ahead-scan s xs p i h.1 (omega arith)))
  | inr e ↦ rw (e, not_ahead_after s x p xs i h.0 e (omega arith)) (ground arith)
]

search-scan :
    (s : OrderSide) (xs : List ℕ) (p fuel left right : ℕ)
    → IsSorted (ahead s) xs
    → right ≤ length xs
    → left ≤ scan s xs p
    → scan s xs p ≤ right
    → right ≤ left + fuel
    → search_place s xs p fuel left right ≡ scan s xs p
unfolding search_place
search-scan s xs p zero left right h a b c d = omega arith
search-scan s xs p (suc fuel) left right h a b c d = elim (Bool-cases (ltb left right)) [
  | inr e ↦ rw e (ground arith)
  | inl e ↦
      let mid = (left + right) / 2 in
      let q = ahead-scan s xs p mid h (ground arith) in
      rw (e, q)
        (elim (Bool-cases (ltb mid (scan s xs p))) [
          | inl t ↦
              rw t (search-scan s xs p fuel (mid + 1) right h a (ground arith) c (ground arith))
          | inr t ↦
              rw t
                (search-scan s xs p fuel left mid h (ground arith) b (ground arith) (ground arith))
        ])
]

-- In a sorted list the search, with as many rounds as prices, stops at the number of prices that
-- stand ahead.
pub search_place-scan :
    (s : OrderSide) (xs : List ℕ) (p : ℕ)
    → IsSorted (ahead s) xs
    → search_place s xs p (length xs) 0 (length xs) ≡ scan s xs p
search_place-scan s xs p h =
    search-scan s xs p (length xs) 0 (length xs) h (omega arith) (omega arith)
      (scan-le-length s xs p) (omega arith)

contains-insert_at :
    (q p i : ℕ) (xs : List ℕ) → contains q (insert_at xs i p) ≡ q == p || contains q xs
contains-insert_at q p i [] = refl
contains-insert_at q p zero (x ∷ xs) = refl
contains-insert_at q p (suc i) (x ∷ xs) = ground (arith, contains-insert_at q p i xs)

All-insert_at :
    (f : ℕ → Bool) (p i : ℕ) (xs : List ℕ)
    → f p ≡ true
    → All (λ y. f y ≡ true) xs
    → All (λ y. f y ≡ true) (insert_at xs i p)
All-insert_at f p i [] h a = (h, tt)
All-insert_at f p zero (x ∷ xs) h a = (h, a)
All-insert_at f p (suc i) (x ∷ xs) h a = (a.0, All-insert_at f p i xs h a.1)

All-ahead :
    (s : OrderSide) (p x : ℕ) (xs : List ℕ)
    → ahead s p x ≡ true
    → All (λ y. ahead s x y ≡ true) xs
    → All (λ y. ahead s p y ≡ true) xs
All-ahead s p x [] h a = tt
All-ahead OrderSide.buy p x (y ∷ xs) h a = (ground arith, All-ahead OrderSide.buy p x xs h a.1)
All-ahead OrderSide.sell p x (y ∷ xs) h a = (ground arith, All-ahead OrderSide.sell p x xs h a.1)

ahead-total : (s : OrderSide) (x p : ℕ) → ahead s x p ≡ false → p == x ≡ false → ahead s p x ≡ true
ahead-total OrderSide.buy x p h n = ground arith
ahead-total OrderSide.sell x p h n = ground arith

insert_at-scan-IsSorted :
    (s : OrderSide) (xs : List ℕ) (p : ℕ)
    → IsSorted (ahead s) xs
    → contains p xs ≡ false
    → IsSorted (ahead s) (insert_at xs (scan s xs p) p)
insert_at-scan-IsSorted s [] p h n = (tt, tt)
insert_at-scan-IsSorted s (x ∷ xs) p h n = elim (Bool-cases (ahead s x p)) [
  | inl e ↦ rw e (
    All-insert_at (ahead s x) p (scan s xs p) xs e h.0,
    insert_at-scan-IsSorted s xs p h.1 (ground arith),
  )
  | inr e ↦
      let a : ahead s p x ≡ true = ahead-total s x p e (ground arith) in
      rw e ((a, All-ahead s p x xs a h.0), h)
]

-- Inserting a price that is not there keeps the list strictly sorted, best first, and adds that
-- price and no other.
pub insert_sorted_price-IsSorted :
    (s : OrderSide) (xs : List ℕ) (p : ℕ)
    → IsSorted (ahead s) xs
    → contains p xs ≡ false
    → IsSorted (ahead s) (insert_sorted_price xs p s)
      × ((q : ℕ) → contains q (insert_sorted_price xs p s) ≡ q == p || contains q xs)
unfolding insert_sorted_price
insert_sorted_price-IsSorted s xs p h n =
    rw (search_place-scan s xs p h)
      (insert_at-scan-IsSorted s xs p h n, λ q. contains-insert_at q p (scan s xs p) xs)

All-without_price :
    (f : ℕ → Bool) (p : ℕ) (xs : List ℕ)
    → All (λ y. f y ≡ true) xs
    → All (λ y. f y ≡ true) (without_price p xs)
All-without_price f p [] a = tt
All-without_price f p (x ∷ xs) a = ground (arith, All-without_price f p xs a.1)

pub without_price-IsSorted :
    (s : OrderSide) (p : ℕ) (xs : List ℕ)
    → IsSorted (ahead s) xs
    → IsSorted (ahead s) (without_price p xs)
without_price-IsSorted s p [] h = tt
without_price-IsSorted s p (x ∷ xs) h =
    ground (arith, without_price-IsSorted s p xs h.1, All-without_price (ahead s x) p xs h.0)

ahead_absent :
    (s : OrderSide) (x : ℕ) (xs : List ℕ) → All (λ y. ahead s x y ≡ true) xs → contains x xs ≡ false
ahead_absent s x [] a = refl
ahead_absent OrderSide.buy x (y ∷ xs) a = ground (arith, ahead_absent OrderSide.buy x xs a.1)
ahead_absent OrderSide.sell x (y ∷ xs) a = ground (arith, ahead_absent OrderSide.sell x xs a.1)

pub contains-without_price :
    (s : OrderSide) (q p : ℕ) (xs : List ℕ)
    → IsSorted (ahead s) xs
    → contains q (without_price p xs) ≡ (if q == p then false else contains q xs)
contains-without_price s q p [] h = ground arith
contains-without_price s q p (x ∷ xs) h =
    ground (arith, contains-without_price s q p xs h.1, ahead_absent s x xs h.0)
