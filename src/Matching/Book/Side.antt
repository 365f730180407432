-- ===== src/Matching/Book/Side.antt =====
-- The invariant of one side of the book, and that each write to a side keeps it.
use swap_trade_backend.Common.{
  ℕ, ◌+◌, ◌≡◌, refl, ◌==◌, Bool, false, inl, inr, Option, none, some, List, [], ◌∷◌, ◌++◌, length,
  All, All-append, IsSorted, arith, if◌then◌else◌, Bool-cases, Option-cases, is_some, lookup,
  insert, lookup-insert, lookup-erase, nat_key, subst,
}
use swap_trade_backend.Matching.Types.{Order, OrderSide}
use swap_trade_backend.Matching.Level.{OrderBookLevel, new_level, is_empty}
use swap_trade_backend.Matching.Level
use swap_trade_backend.Matching.Level.Index
use swap_trade_backend.Matching.Level.Index.{add_order-IsValid, new_level-IsValid}
use swap_trade_backend.Matching.Level.Reference.{find_order, position, find_order-none}
use swap_trade_backend.Matching.Book.{BookSide, ahead, add_to_side, keep_level, no_orders}
use swap_trade_backend.Matching.Book.Search.{
  contains, insert_sorted_price-IsSorted, without_price-IsSorted, contains-without_price,
}

-- What is filled and what remains make up the quantity.
abbrev pub IsBalanced : Order → Type 0
IsBalanced o = o.filled_quantity + o.remaining_quantity ≡ o.quantity

-- An order that rests on side `s` at price `p`.
abbrev pub RestsAt : OrderSide → ℕ → Order → Type 0
RestsAt s p o = (o.price ≡ some p) × (o.side ≡ s) × IsBalanced o

pub record LevelFits (s : OrderSide) (p : ℕ) (l : OrderBookLevel) : Type 0 where
  pub valid : Level.Index.IsValid l
  pub priced : l.price ≡ p
  pub resting : All (RestsAt s p) l.orders

pub record SideIsValid (s : OrderSide) (d : BookSide) : Type 0 where
  pub sorted : IsSorted (ahead s) d.sorted_prices
  pub listed : (p : ℕ) → contains p d.sorted_prices ≡ is_some (lookup p d.levels)
  pub fits : (p : ℕ) (l : OrderBookLevel) → lookup p d.levels ≡ some l → LevelFits s p l
  pub busy : (p : ℕ) (l : OrderBookLevel) → lookup p d.levels ≡ some l → is_empty l ≡ false

-- The order with id `j` that rests at price `p`.
abbrev pub rests : ℕ → ℕ → BookSide → Option Order
rests j p d = elim (lookup p d.levels) [ none ↦ none | some l ↦ find_order j l.orders ]

abbrev pub holds : ℕ → ℕ → BookSide → Bool
holds j p d = is_some (rests j p d)

pub no_orders-SideIsValid : (s : OrderSide) → SideIsValid s no_orders
no_orders-SideIsValid s = record {
  sorted = tt;
  listed = λ p. refl;
  fits = λ p l h. cc;
  busy = λ p l h. cc;
}

abbrev Fits : OrderSide → ℕ → Option OrderBookLevel → Type 0
Fits s p none = Unit
Fits s p (some l) = LevelFits s p l × (is_empty l ≡ false)

Fits-get :
    (s : OrderSide) (p : ℕ) (l : OrderBookLevel) (o : Option OrderBookLevel)
    → Fits s p o
    → o ≡ some l
    → LevelFits s p l × (is_empty l ≡ false)
Fits-get s p l none f h = cc
Fits-get s p l (some x) f h = subst (λ y. LevelFits s p y × (is_empty y ≡ false)) (ground arith) f

pub Fits-of :
    (s : OrderSide) (d : BookSide) → SideIsValid s d → (p : ℕ) → Fits s p (lookup p d.levels)
Fits-of s d v p = go (lookup p d.levels) refl
  where
    go : (o : Option OrderBookLevel) → lookup p d.levels ≡ o → Fits s p o
    go none e = tt
    go (some l) e = (v.fits p l e, v.busy p l e)

-- A side is valid when its prices are sorted and list the levels, and each level fits.
pub side_of_Fits :
    (s : OrderSide) (d : BookSide)
    → IsSorted (ahead s) d.sorted_prices
    → ((p : ℕ) → contains p d.sorted_prices ≡ is_some (lookup p d.levels))
    → ((p : ℕ) → Fits s p (lookup p d.levels))
    → SideIsValid s d
side_of_Fits s d a b f = record {
  sorted = a;
  listed = b;
  fits = λ p l e. (Fits-get s p l _ (f p) e).0;
  busy = λ p l e. (Fits-get s p l _ (f p) e).1;
}

Fits-if :
    (s : OrderSide) (q : ℕ) (p : ℕ) (x o : Option OrderBookLevel)
    → Fits s p x
    → Fits s q o
    → Fits s q (if q == p then x else o)
Fits-if s q p x o f g = elim (Bool-cases (q == p)) [
  | inl e ↦ let h : q ≡ p = ground arith in rw e (rw h f)
  | inr e ↦ rw e g
]

-- Writing a level that fits and is not empty over the one at its price.
pub put_level-SideIsValid :
    (s : OrderSide) (p : ℕ) (l new : OrderBookLevel) (d : BookSide)
    → SideIsValid s d
    → lookup p d.levels ≡ some l
    → LevelFits s p new
    → is_empty new ≡ false
    → SideIsValid s (record d { levels = insert p new d.levels })
put_level-SideIsValid s p l new d v h f n =
    side_of_Fits s _ v.sorted (λ q. ground (arith, v.listed q, lookup-insert q p new d.levels))
      (λ q.
        rw (lookup-insert q p new d.levels)
          (Fits-if s q p (some new) (lookup q d.levels) (f, n) (Fits-of s d v q)))

-- The level at `p` is replaced, or deleted with its price when it is empty.
pub keep_level-SideIsValid :
    (s : OrderSide) (p : ℕ) (l new : OrderBookLevel) (d : BookSide)
    → SideIsValid s d
    → lookup p d.levels ≡ some l
    → LevelFits s p new
    → SideIsValid s (keep_level p new d)
unfolding keep_level
keep_level-SideIsValid s p l new d v h f = elim (Bool-cases (is_empty new)) [
  | inr e ↦ rw e (put_level-SideIsValid s p l new d v h f e)
  | inl e ↦ rw e (
      side_of_Fits s _ (without_price-IsSorted s p d.sorted_prices v.sorted)
        (λ q. ground (
          arith,
          v.listed q,
          lookup-erase q p d.levels,
          contains-without_price s q p d.sorted_prices v.sorted,
        ))
        (λ q.
          rw (lookup-erase q p d.levels)
            (Fits-if s q p none (lookup q d.levels) tt (Fits-of s d v q))))
]

holds-false :
    (j p : ℕ) (l : OrderBookLevel) (d : BookSide)
    → holds j p d ≡ false
    → lookup p d.levels ≡ some l
    → position j l.orders ≡ none
holds-false j p l d h e = elim (Option-cases (find_order j l.orders)) [
  | inl n ↦ find_order-none j l.orders n
  | inr (o, m) ↦ ground arith
]

add_order-LevelFits :
    (o : Order) (s : OrderSide) (p : ℕ) (l : OrderBookLevel)
    → RestsAt s p o
    → position o.id l.orders ≡ none
    → LevelFits s p l
    → LevelFits s p (Level.add_order o l)
unfolding Level.add_order
add_order-LevelFits o s p l r n f = record {
  valid = add_order-IsValid o l n f.valid;
  priced = f.priced;
  resting = All-append (RestsAt s p) l.orders (o ∷ []) f.resting (r, tt);
}

not_empty-add_order : (o : Order) (l : OrderBookLevel) → is_empty (Level.add_order o l) ≡ false
unfolding is_empty Level.add_order
not_empty-add_order o l = go l.orders
  where
    go : (os : List Order) → (length (os ++ o ∷ []) == 0) ≡ false
    go [] = ground arith
    go (x ∷ os) = ground arith

new_level-LevelFits : (s : OrderSide) (p : ℕ) → LevelFits s p (new_level p)
unfolding new_level
new_level-LevelFits s p = record { valid = new_level-IsValid p; priced = refl; resting = tt }

-- A new order goes to the end of its level, which is made and listed if it was not there.
pub add_to_side-SideIsValid :
    (o : Order) (s : OrderSide) (p : ℕ) (d : BookSide)
    → RestsAt s p o
    → holds o.id p d ≡ false
    → SideIsValid s d
    → SideIsValid s (add_to_side o p d)
unfolding add_to_side
add_to_side-SideIsValid o s p d r n v = elim (Option-cases (lookup p d.levels)) [
  | inr (l, e) ↦
      rw (e, add_to_side)
        (put_level-SideIsValid s p l (Level.add_order o l) d v e
          (add_order-LevelFits o s p l r (holds-false o.id p l d n e) (v.fits p l e))
          (not_empty-add_order o l))
  | inl e ↦
      let new = Level.add_order o (new_level p) in
      let f : LevelFits s p new =
        add_order-LevelFits o s p (new_level p) r (unfold new_level in refl)
          (new_level-LevelFits s p) in
      let c : contains p d.sorted_prices ≡ false = ground (arith, v.listed p) in
      let (a, b) = insert_sorted_price-IsSorted s d.sorted_prices p v.sorted c in
      rw (e, add_to_side)
        (simp r.1 (
          side_of_Fits s _ a (λ q. ground (arith, v.listed q, b q, lookup-insert q p new d.levels))
            (λ q. rw (lookup-insert q p new d.levels) (
              Fits-if s q p (some new) (lookup q d.levels) (f, not_empty-add_order o (new_level p))
                (Fits-of s d v q)))))
]
