-- ===== src/Common/Numbers.antt =====
-- JavaScript numbers, as an interface of which no law is assumed.
use Prim.Native.Nat.{ℕ}
use mathlib.Core.Bool.{Bool}

-- The arithmetic of the language: + - * / Math.abs < <=, the literals (`decimal n k` is n with the
-- point k places from its right), ===, Math.max, and `Number(a.toFixed(k))`.
pub record Number (F : Type 0) : Type 0 where
  pub add : F → F → F
  pub sub : F → F → F
  pub mul : F → F → F
  pub div : F → F → F
  pub abs : F → F
  pub lt : F → F → Bool
  pub le : F → F → Bool
  pub decimal : ℕ → ℕ → F
  pub infinity : F
  pub equal : F → F → Bool
  pub greatest : F → F → F
  pub to_fixed : ℕ → F → F
