-- ===== src/Options/History.antt =====
-- Any sequence of calls of the options service, from empty tables.
use swap_trade_backend.Common.{
  ℕ, ◌≡◌, refl, inl, inr, none, List, [], ◌∷◌, Map, lookup, nat_key, pair_key, Number, Option-cases,
}
use swap_trade_backend.Options.{
  OptionContract, PlaceOptionOrderDto, UpdateOptionContractDto, Exchange,
}
use swap_trade_backend.Options.Orders.{place_order, cancel_order}
use swap_trade_backend.Options.Contracts.{
  create_contract, update_contract, delete_contract, process_expiries,
}
use swap_trade_backend.Options.Invariant.{IsConsistent}
use swap_trade_backend.Options.Changes.{contracts-IsConsistent}
use swap_trade_backend.Options.Calls.{
  kept_or, placed_or, place_order-IsConsistent, cancel_order-IsConsistent, expire_all-IsConsistent,
}

abbrev pub empty : {F : Type 0} → Exchange F
empty = record { contracts = []; orders = []; positions = [] }

-- A call with the time and the id of a new row where it uses them.
pub data OptionCall (F : Type 0) : Type 0 where
  create : OptionContract F → OptionCall F
  update : ℕ → UpdateOptionContractDto F → OptionCall F
  delete : ℕ → OptionCall F
  place : ℕ → ℕ → ℕ → PlaceOptionOrderDto F → OptionCall F
  cancel : ℕ → OptionCall F
  expire : ℕ → Map ℕ F → OptionCall F

module _ {F : Type 0} ⦃n : Number F⦄ where
  abbrev pub step : OptionCall F → Exchange F → Exchange F
  step (create c) x = create_contract c x
  step (update id dto) x = kept_or x (update_contract id dto x)
  step (delete id) x = kept_or x (delete_contract id x)
  step (place now id contract dto) x = placed_or x (place_order now id contract dto x)
  step (cancel id) x = kept_or x (cancel_order id x)
  step (expire now prices) x = (process_expiries now prices x).1

  abbrev pub run : List (OptionCall F) → Exchange F → Exchange F
  run [] x = x
  run (call ∷ calls) x = run calls (step call x)

  -- The database gives each new order an id that no row has.
  abbrev pub IsFresh : OptionCall F → Exchange F → Type 0
  IsFresh (place now id contract dto) x = lookup id x.orders ≡ none
  IsFresh _ x = Unit {0}

  abbrev pub AllFresh : List (OptionCall F) → Exchange F → Type 0
  AllFresh [] x = Unit {0}
  AllFresh (call ∷ calls) x = IsFresh call x × AllFresh calls (step call x)

  step-IsConsistent :
      (call : OptionCall F) (x : Exchange F)
      → IsFresh call x
      → IsConsistent x
      → IsConsistent (step call x)
  unfolding create_contract update_contract delete_contract process_expiries
  step-IsConsistent (create c) x f v = contracts-IsConsistent _ x v
  step-IsConsistent (update id dto) x f v = elim (Option-cases (lookup id x.contracts)) [
    | inl e ↦ rw (e, update_contract) v
    | inr (c, e) ↦ rw (e, update_contract) (contracts-IsConsistent _ x v)
  ]
  step-IsConsistent (delete id) x f v = elim (Option-cases (lookup id x.contracts)) [
    | inl e ↦ rw (e, delete_contract) v
    | inr (c, e) ↦ rw (e, delete_contract) (contracts-IsConsistent _ x v)
  ]
  step-IsConsistent (place now id contract dto) x f v =
      place_order-IsConsistent now id contract dto x f v
  step-IsConsistent (cancel id) x f v = cancel_order-IsConsistent id x v
  step-IsConsistent (expire now prices) x f v = expire_all-IsConsistent now prices _ x v

  run-IsConsistent :
      (calls : List (OptionCall F)) (x : Exchange F)
      → AllFresh calls x
      → IsConsistent x
      → IsConsistent (run calls x)
  run-IsConsistent [] x f v = v
  run-IsConsistent (call ∷ calls) x f v =
      run-IsConsistent calls (step call x) f.1 (step-IsConsistent call x f.0 v)

  empty-IsConsistent : IsConsistent {F = F} empty
  empty-IsConsistent = record {
    unique = tt;
    valid = tt;
    placed = tt;
    reconciled = λ side k. refl;
    balanced = λ c. refl;
  }

  -- Over any calls from empty tables, each new order with an id that no row has: each order is
  -- filled as far as its status says and never above its quantity, each position holds what the
  -- orders of its user bought and sold of its contract, and as much of each contract is bought
  -- as is sold.
  pub run-empty-IsConsistent :
      (calls : List (OptionCall F)) → AllFresh calls empty → IsConsistent (run calls empty)
  run-empty-IsConsistent calls f = run-IsConsistent calls empty f empty-IsConsistent
