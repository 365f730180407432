-- ===== src/Common/Maps.antt =====
-- A JavaScript `Map` (or a table with a unique key) as an association list, generic in the key.
use Prim.Native.Nat.{ℕ}
use mathlib.Core.Path.{◌≡◌, refl, sym, subst, ◌∙◌}
use mathlib.Core.Logic.{◌↔◌, inl, inr}
use mathlib.Core.Bool.{Bool, true, false, ◌&&◌}
use mathlib.Core.List.{List, [], ◌∷◌}
use mathlib.Core.Option.{Option, none, some}
use native.Mathlib.Omega.{arith}
use swap_trade_backend.Common.Lists.{All}
use swap_trade_backend.Common.Tests.{◌==◌, ==_iff, if◌then◌else◌, Bool-cases}

-- Keys that can be compared.
pub record Key {ℓ} (K : Type ℓ) : Type ℓ where
  pub same : K → K → Bool
  pub same_iff : (a b : K) → (same a b ≡ true) ↔ (a ≡ b)

abbrev nat_same : ℕ → ℕ → Bool
nat_same a b = a == b

instance abbrev pub nat_key : Key ℕ
nat_key = record { same = nat_same; same_iff = ==_iff }

-- A text as the list of its character codes.
abbrev pub codes_same : List ℕ → List ℕ → Bool
codes_same [] [] = true
codes_same (a ∷ u) (b ∷ v) = a == b && codes_same u v
codes_same _ _ = false

codes_same→eq : (a b : List ℕ) → codes_same a b ≡ true → a ≡ b
codes_same→eq [] [] h = refl
codes_same→eq [] (b ∷ v) h = cc
codes_same→eq (a ∷ u) [] h = cc
codes_same→eq (a ∷ u) (b ∷ v) h = ground (arith, codes_same→eq u v)

codes_same_refl : (a : List ℕ) → codes_same a a ≡ true
codes_same_refl [] = refl
codes_same_refl (a ∷ u) = ground (arith, codes_same_refl u)

pub codes_same_iff : (a b : List ℕ) → (codes_same a b ≡ true) ↔ (a ≡ b)
codes_same_iff a b = (codes_same→eq a b, λ e. rw e (codes_same_refl b))

instance abbrev pub codes_key : Key (List ℕ)
codes_key = record { same = codes_same; same_iff = codes_same_iff }

-- Two columns that are unique together.
abbrev pub pair_same : ℕ × ℕ → ℕ × ℕ → Bool
pair_same (a, b) (c, d) = a == c && b == d

pub pair_same_iff : (p q : ℕ × ℕ) → (pair_same p q ≡ true) ↔ (p ≡ q)
pair_same_iff (a, b) (c, d) = (λ h. ground arith, λ h. ground arith)

instance abbrev pub pair_key : Key (ℕ × ℕ)
pair_key = record { same = pair_same; same_iff = pair_same_iff }

abbrev pub Map {ℓ κ} : Type ℓ → Type κ → Type (ℓ ⊔ κ)
Map K V = List (K × V)

pub same_refl {ℓ} : {K : Type ℓ} ⦃k : Key K⦄ (j : K) → k.same j j ≡ true
same_refl ⦃k⦄ j = (k.same_iff j j).1 refl

module _ {ℓ κ} {K : Type ℓ} ⦃k : Key K⦄ {V : Type κ} where
  -- `m.get(key)`
  abbrev pub lookup : K → Map K V → Option V
  lookup j [] = none
  lookup j ((i, v) ∷ m) = if k.same j i then some v else lookup j m

  -- `m.set(key, v)`: an entry keeps its place, a new one goes to the end.
  abbrev pub insert : K → V → Map K V → Map K V
  insert j v [] = (j, v) ∷ []
  insert j v ((i, w) ∷ m) = if k.same j i then (j, v) ∷ m else (i, w) ∷ insert j v m

  -- `m.delete(key)`
  abbrev pub erase : K → Map K V → Map K V
  erase j [] = []
  erase j ((i, w) ∷ m) = let rest = erase j m in if k.same j i then rest else (i, w) ∷ rest

  pub lookup-insert :
      (i j : K) (v : V) (m : Map K V)
      → lookup i (insert j v m) ≡ (if k.same i j then some v else lookup i m)
  lookup-insert i j v [] = refl
  lookup-insert i j v ((h, w) ∷ m) =
      ground (arith, k.same_iff i j, k.same_iff i h, k.same_iff j h, lookup-insert i j v m)

  pub lookup-erase :
      (i j : K) (m : Map K V) → lookup i (erase j m) ≡ (if k.same i j then none else lookup i m)
  lookup-erase i j [] = ground arith
  lookup-erase i j ((h, w) ∷ m) =
      ground (arith, k.same_iff i j, k.same_iff i h, k.same_iff j h, lookup-erase i j m)

  pub lookup-insert_self : (j : K) (v : V) (m : Map K V) → lookup j (insert j v m) ≡ some v
  lookup-insert_self j v m = rw (lookup-insert j j v m, same_refl j)

  pub lookup-erase_self : (j : K) (m : Map K V) → lookup j (erase j m) ≡ none
  lookup-erase_self j m = rw (lookup-erase j j m, same_refl j)

  -- What holds of a new entry and of the others holds of all.
  pub insert_all {μ} :
      (P : K → V → Type μ) (j : K) (v : V) (m : Map K V)
      → P j v
      → ((i : K) (w : V) → lookup i m ≡ some w → k.same i j ≡ false → P i w)
      → (i : K) (w : V) → lookup i (insert j v m) ≡ some w
      → P i w
  insert_all P j v m new old i w e =
      let found : (if k.same i j then some v else lookup i m) ≡ some w =
        sym (lookup-insert i j v m) ∙ e in
      elim (Bool-cases (k.same i j)) [
        | inl s ↦
            let a : v ≡ w = ground arith in
            let b : j ≡ i = sym ((k.same_iff i j).0 s) in
            subst (λ x. P i x) a (subst (λ x. P x v) b new)
        | inr s ↦ let a : lookup i m ≡ some w = ground arith in old i w a s
      ]

  pub All-insert {μ} :
      (P : K × V → Type μ) (j : K) (v : V) (m : Map K V) → P (j, v) → All P m → All P (insert j v m)
  All-insert P j v [] p a = (p, tt)
  All-insert P j v ((i, w) ∷ m) p a = elim (Bool-cases (k.same j i)) [
    | inl e ↦ rw e (p, a.1)
    | inr e ↦ rw e (a.0, All-insert P j v m p a.1)
  ]

  pub All-erase {μ} : (P : K × V → Type μ) (j : K) (m : Map K V) → All P m → All P (erase j m)
  All-erase P j [] a = tt
  All-erase P j ((i, w) ∷ m) a = elim (Bool-cases (k.same j i)) [
    | inl e ↦ rw e (All-erase P j m a.1)
    | inr e ↦ rw e (a.0, All-erase P j m a.1)
  ]
