-- ===== src/Common/Rows.antt =====
-- Rows of a table: sums over them, changes of every row, and keys that stand once.
use Prim.Native.Nat.{ℕ, ◌+◌}
use mathlib.Core.Path.{◌≡◌, refl, sym, ap, ◌∙◌}
use mathlib.Core.Logic.{inl, inr}
use mathlib.Core.Bool.{Bool, true, false}
use mathlib.Core.List.{List, [], ◌∷◌, map}
use mathlib.Core.Option.{Option, none, some}
use native.Mathlib.Omega.{arith}
use swap_trade_backend.Common.Lists.{All, All-map, All-both, All-keep_if, keep_if, sum_by}
use swap_trade_backend.Common.Tests.{Bool-cases}
use swap_trade_backend.Common.Maps.{Key, Map, lookup, insert, lookup-insert, same_refl}

pub same_sym {ℓ} : {K : Type ℓ} ⦃k : Key K⦄ (i j : K) → k.same j i ≡ false → k.same i j ≡ false
same_sym ⦃k⦄ i j h = elim (Bool-cases (k.same i j)) [
  | inl e ↦ let x : k.same j i ≡ true = (k.same_iff j i).1 (sym ((k.same_iff i j).0 e)) in cc
  | inr e ↦ e
]

abbrev pub changed {ℓ} : {A : Type ℓ} → (A → A) → Option A → Option A
changed g none = none
changed g (some a) = some (g a)

module _ {ℓ κ} {K : Type ℓ} ⦃k : Key K⦄ {V : Type κ} where
  -- A sum over the values.
  abbrev pub sum_of : (V → ℕ) → Map K V → ℕ
  sum_of f = sum_by (λ row. f row.1)

  pub sum_of-insert :
      (f : V → ℕ) (j : K) (old new : V) (m : Map K V)
      → lookup j m ≡ some old
      → sum_of f (insert j new m) + f old ≡ sum_of f m + f new
  sum_of-insert f j old new [] h = cc
  sum_of-insert f j old new ((i, w) ∷ m) h = elim (Bool-cases (k.same j i)) [
    | inl e ↦ let x = rw e at h in let same : w ≡ old = cc in rw (e, same) (omega arith)
    | inr e ↦ let x = rw e at h in let rest = sum_of-insert f j old new m x in rw e (omega arith)
  ]

  pub sum_of-insert_new :
      (f : V → ℕ) (j : K) (new : V) (m : Map K V)
      → lookup j m ≡ none
      → sum_of f (insert j new m) ≡ sum_of f m + f new
  sum_of-insert_new f j new [] h = omega arith
  sum_of-insert_new f j new ((i, w) ∷ m) h = elim (Bool-cases (k.same j i)) [
    | inl e ↦ let x = rw e at h in cc
    | inr e ↦ let x = rw e at h in let rest = sum_of-insert_new f j new m x in rw e (omega arith)
  ]

  abbrev pub change_row : (V → V) → K × V → K × V
  change_row g (i, v) = (i, g v)

  pub lookup-change_row :
      (g : V → V) (j : K) (m : Map K V) → lookup j (map (change_row g) m) ≡ changed g (lookup j m)
  lookup-change_row g j [] = refl
  lookup-change_row g j ((i, w) ∷ m) = elim (Bool-cases (k.same j i)) [
    | inl e ↦ rw e refl
    | inr e ↦ rw e (lookup-change_row g j m)
  ]

  -- No key stands twice.
  abbrev pub IsUnique : Map K V → Type κ
  IsUnique [] = Unit {κ}
  IsUnique ((i, v) ∷ m) = (lookup i m ≡ none) × IsUnique m

  pub IsUnique-insert : (j : K) (v : V) (m : Map K V) → IsUnique m → IsUnique (insert j v m)
  IsUnique-insert j v [] u = (refl, tt)
  IsUnique-insert j v ((i, w) ∷ m) u = elim (Bool-cases (k.same j i)) [
    | inl e ↦ let same : j ≡ i = (k.same_iff j i).0 e in rw e (ap (λ x. lookup x m) same ∙ u.0, u.1)
    | inr e ↦
        let apart : k.same i j ≡ false = same_sym i j e in
        rw e (rw (lookup-insert i j v m, apart) (u.0), IsUnique-insert j v m u.1)
  ]

  -- A row of such a table is what its key finds.
  abbrev pub IsFound : Map K V → K × V → Type κ
  IsFound m row = lookup row.0 m ≡ some row.1

  pub All-IsFound : (m : Map K V) → IsUnique m → All (IsFound m) m
  All-IsFound [] u = tt
  All-IsFound ((i, w) ∷ m) u = (
    rw (same_refl i) refl,
    All-map (IsFound m) (IsFound ((i, w) ∷ m))
        (λ row h. elim (Bool-cases (k.same row.0 i)) [
          | inl e ↦
              let same : row.0 ≡ i = (k.same_iff row.0 i).0 e in
              let x : none ≡ some row.1 = sym u.0 ∙ ap (λ y. lookup y m) (sym same) ∙ h in cc
          | inr e ↦ rw e h
        ])
        m (All-IsFound m u.1),
  )

  abbrev pub values : Map K V → List V
  values m = map (λ row. row.1) m

  -- Values that a column tells apart.
  abbrev pub IsApart : (V → K) → List V → Type 0
  IsApart f [] = Unit {0}
  IsApart f (v ∷ vs) = All (λ w. k.same (f v) (f w) ≡ false) vs × IsApart f vs

  -- The column holds the key of its row.
  abbrev pub HoldsKey : (V → K) → K × V → Type ℓ
  HoldsKey f row = f row.1 ≡ row.0

  pub All-values {μ} : (P : V → Type μ) (m : Map K V) → All (λ row. P row.1) m → All P (values m)
  All-values P [] a = tt
  All-values P (row ∷ m) a = (a.0, All-values P m a.1)

  -- The values of a table whose rows hold their keys: each is found under its own key, and the
  -- column tells them apart.
  pub All-values_found :
      (f : V → K) (m : Map K V)
      → IsUnique m
      → All (HoldsKey f) m
      → All (λ v. lookup (f v) m ≡ some v) (values m)
  All-values_found f m u a =
      All-values (λ v. lookup (f v) m ≡ some v) m
        (All-map (λ row. HoldsKey f row × IsFound m row) (λ row. lookup (f row.1) m ≡ some row.1)
          (λ row h. ap (λ j. lookup j m) h.0 ∙ h.1) m
          (All-both (HoldsKey f) (IsFound m) m a (All-IsFound m u)))

  pub values-IsApart :
      (f : V → K) (m : Map K V) → IsUnique m → All (HoldsKey f) m → IsApart f (values m)
  values-IsApart f [] u a = tt
  values-IsApart f ((i, w) ∷ m) u a = (
    All-map (λ v. lookup (f v) m ≡ some v) (λ v. k.same (f w) (f v) ≡ false)
        (λ v h. elim (Bool-cases (k.same (f w) (f v))) [
          | inl e ↦
              let same : i ≡ f v = sym a.0 ∙ (k.same_iff (f w) (f v)).0 e in
              let x : none ≡ some v = sym u.0 ∙ ap (λ j. lookup j m) same ∙ h in cc
          | inr e ↦ e
        ])
        (values m) (All-values_found f m u.1 a.1),
    values-IsApart f m u.1 a.1,
  )

  pub IsApart-keep_if :
      (f : V → K) (test : V → Bool) (vs : List V) → IsApart f vs → IsApart f (keep_if test vs)
  IsApart-keep_if f test [] a = tt
  IsApart-keep_if f test (v ∷ vs) a = elim (Bool-cases (test v)) [
    | inl e ↦ rw e (
      All-map (λ w. (k.same (f v) (f w) ≡ false) × (test w ≡ true))
          (λ w. k.same (f v) (f w) ≡ false) (λ w h. h.0) (keep_if test vs)
          (All-keep_if (λ w. k.same (f v) (f w) ≡ false) test vs a.0),
      IsApart-keep_if f test vs a.1,
    )
    | inr e ↦ rw e (IsApart-keep_if f test vs a.1)
  ]
