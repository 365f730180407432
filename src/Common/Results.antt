-- ===== src/Common/Results.antt =====
-- Code that can throw: an exception or a value. The exception type is a parameter.
use mathlib.Core.Path.{◌≡◌, refl}
use mathlib.Core.Logic.{◌⊎◌, inl, inr}
use mathlib.Core.Bool.{Bool, true, false, not}
use mathlib.Core.Option.{Option, none, some}

pub data Throws {ℓ κ} (E : Type ℓ) (A : Type κ) : Type (ℓ ⊔ κ) where
  err : E → Throws E A
  ok : A → Throws E A

module _ {ℓ} {E : Type ℓ} where
  infixl 4 ◌>>=◌ ◌>>◌
  -- What follows a call that may have thrown.
  abbrev pub ◌>>=◌ {κ μ} : {A : Type κ} {B : Type μ} → Throws E A → (A → Throws E B) → Throws E B
  err thrown >>= next = err thrown
  ok result >>= next = next result

  abbrev pub ◌>>◌ {κ μ} : {A : Type κ} {B : Type μ} → Throws E A → Throws E B → Throws E B
  err thrown >> next = err thrown
  ok result >> next = next

  -- `if (test) throw thrown`
  abbrev pub raise_if : Bool → E → Throws E (Unit {0})
  raise_if false thrown = ok tt
  raise_if true thrown = err thrown

  -- `if (!found) throw thrown`
  abbrev pub or_raise {κ} : {A : Type κ} → Option A → E → Throws E A
  or_raise (some found) thrown = ok found
  or_raise none thrown = err thrown

module _ {ℓ} {E : Type ℓ} where
  -- A chain that gives a value went through each of its calls.
  pub bind_ok {κ μ} :
      {A : Type κ} {B : Type μ} (call : Throws E A) (next : A → Throws E B) (b : B)
      → (call >>= next) ≡ ok b
      → (a : A) × (call ≡ ok a) × (next a ≡ ok b)
  bind_ok (err thrown) next b h = cc
  bind_ok (ok a) next b h = (a, refl, h)

  pub then_ok {κ} :
      {B : Type κ} (call : Throws E (Unit {0})) (next : Throws E B) (b : B)
      → (call >> next) ≡ ok b
      → (call ≡ ok tt) × (next ≡ ok b)
  then_ok (err thrown) next b h = cc
  then_ok (ok tt) next b h = (refl, h)

  pub raise_if_ok : (test : Bool) (thrown : E) → raise_if test thrown ≡ ok tt → test ≡ false
  raise_if_ok false thrown h = refl
  raise_if_ok true thrown h = cc

  pub or_raise_ok {κ} :
      {A : Type κ} (found : Option A) (thrown : E) (a : A)
      → or_raise found thrown ≡ ok a
      → found ≡ some a
  or_raise_ok none thrown a h = cc
  or_raise_ok (some b) thrown a h = cc

  pub ok_injective {κ} : {A : Type κ} (a b : A) → Path (Throws E A) (ok a) (ok b) → a ≡ b
  ok_injective a b h = cc

  pub passed_test : (test : Bool) (thrown : E) → raise_if (not test) thrown ≡ ok tt → test ≡ true
  passed_test true thrown h = refl
  passed_test false thrown h = cc

  pub Throws-cases {κ} :
      {A : Type κ} (r : Throws E A) → ((e : E) × (r ≡ err e)) ⊎ ((a : A) × (r ≡ ok a))
  Throws-cases (err e) = inl (e, refl)
  Throws-cases (ok a) = inr (a, refl)
