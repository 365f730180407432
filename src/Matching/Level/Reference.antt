-- ===== src/Matching/Level/Reference.antt =====
-- The independent description of a level: a plain list of orders, searched by id.
use swap_trade_backend.Common.{
  ℕ, zero, suc, ◌+◌, ◌≡◌, refl, ◌==◌, Option, none, some, List, [], ◌∷◌, ◌++◌, length, get_elem?,
  set, remove_at, sum_by, arith, if◌then◌else◌,
}
use swap_trade_backend.Matching.Types.{Order}
use swap_trade_backend.Matching.Level.{drop}

abbrev pub next_position : Option ℕ → Option ℕ
next_position none = none
next_position (some i) = some (suc i)

-- The position of the first order with an id.
abbrev pub position : ℕ → List Order → Option ℕ
position j [] = none
position j (o ∷ os) = if j == o.id then some 0 else next_position (position j os)

abbrev pub find_order : ℕ → List Order → Option Order
find_order j [] = none
find_order j (o ∷ os) = if j == o.id then some o else find_order j os

-- The list without its first order with an id.
abbrev pub without : ℕ → List Order → List Order
without j [] = []
without j (o ∷ os) = if j == o.id then os else o ∷ without j os

-- No two orders share an id.
abbrev pub IsUnique : List Order → Type 0
IsUnique [] = Unit
IsUnique (o ∷ os) = (position o.id os ≡ none) × IsUnique os

abbrev pub remaining : List Order → ℕ
remaining = sum_by λ o. o.remaining_quantity

pub position-append :
    (j : ℕ) (os : List Order) (o : Order)
    → position j (os ++ o ∷ []) ≡ elim (position j os) [
      | some i ↦ some i
      | none ↦ if j == o.id then some (length os) else none
    ]
position-append j [] o = refl
position-append j (x ∷ os) o = ground (arith, position-append j os o)

pub IsUnique-append :
    (os : List Order) (o : Order) → position o.id os ≡ none → IsUnique os → IsUnique (os ++ o ∷ [])
IsUnique-append [] o h u = (refl, tt)
IsUnique-append (x ∷ os) o h u =
    ground (arith, position-append x.id os o, IsUnique-append os o, u.1, u.0)

-- Reading and removing at the position of an id is reading and removing by the id.
pub get_elem?-position :
    (j i : ℕ) (os : List Order) → position j os ≡ some i → get_elem? os i ≡ find_order j os
get_elem?-position j i [] h = cc
get_elem?-position j zero (x ∷ os) h = ground arith
get_elem?-position j (suc i) (x ∷ os) h = ground (arith, get_elem?-position j i os)

pub remove_at-position :
    (j i : ℕ) (os : List Order) → position j os ≡ some i → remove_at os i ≡ without j os
remove_at-position j i [] h = cc
remove_at-position j zero (x ∷ os) h = ground arith
remove_at-position j (suc i) (x ∷ os) h = ground (arith, remove_at-position j i os)

pub find_order-none : (j : ℕ) (os : List Order) → find_order j os ≡ none → position j os ≡ none
find_order-none j [] h = refl
find_order-none j (x ∷ os) h = ground (arith, find_order-none j os)

pub position-none : (j : ℕ) (os : List Order) → position j os ≡ none → find_order j os ≡ none
position-none j [] h = refl
position-none j (x ∷ os) h = ground (arith, position-none j os)

pub position-without-none :
    (j k : ℕ) (os : List Order) → position j os ≡ none → position j (without k os) ≡ none
position-without-none j k [] h = refl
position-without-none j k (x ∷ os) h = ground (arith, position-without-none j k os)

pub IsUnique-without : (j : ℕ) (os : List Order) → IsUnique os → IsUnique (without j os)
IsUnique-without j [] u = tt
IsUnique-without j (x ∷ os) u =
    ground (arith, IsUnique-without j os u.1, position-without-none x.id j os u.0)

pub remaining-without :
    (j : ℕ) (o : Order) (os : List Order)
    → find_order j os ≡ some o
    → remaining (without j os) + o.remaining_quantity ≡ remaining os
remaining-without j o [] h = cc
remaining-without j o (x ∷ os) h = ground (arith, remaining-without j o os)

pub position-drop-none :
    (j n : ℕ) (os : List Order) → position j os ≡ none → position j (drop n os) ≡ none
position-drop-none j zero os h = h
position-drop-none j (suc n) [] h = refl
position-drop-none j (suc n) (x ∷ os) h = position-drop-none j n os (ground arith)

pub without_missing : (j : ℕ) (os : List Order) → find_order j os ≡ none → without j os ≡ os
without_missing j [] h = refl
without_missing j (x ∷ os) h = ground (arith, without_missing j os)

-- Writing an order over one with the same id moves nothing.
module _ (new : Order) where
  pub position-set :
      (j i : ℕ) (old : Order) (os : List Order)
      → get_elem? os i ≡ some old
      → new.id ≡ old.id
      → position j (set os i new) ≡ position j os
  position-set j i old [] h e = cc
  position-set j zero old (x ∷ os) h e = ground arith
  position-set j (suc i) old (x ∷ os) h e = ground (arith, position-set j i old os)

  pub IsUnique-set :
      (i : ℕ) (old : Order) (os : List Order)
      → get_elem? os i ≡ some old
      → new.id ≡ old.id
      → IsUnique os
      → IsUnique (set os i new)
  IsUnique-set i old [] h e u = tt
  IsUnique-set zero old (x ∷ os) h e u = ground arith
  IsUnique-set (suc i) old (x ∷ os) h e u =
      ground (arith, IsUnique-set i old os h e u.1, position-set x.id i old os h e, u.0)

  pub remaining-set :
      (i : ℕ) (old : Order) (os : List Order)
      → get_elem? os i ≡ some old
      → remaining (set os i new) + old.remaining_quantity ≡ remaining os + new.remaining_quantity
  remaining-set i old [] h = cc
  remaining-set zero old (x ∷ os) h = ground arith
  remaining-set (suc i) old (x ∷ os) h = ground (arith, remaining-set i old os)
