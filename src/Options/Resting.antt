-- ===== src/Options/Resting.antt =====
-- The orders that are loaded to be matched with a new one.
use swap_trade_backend.Common.{
  ℕ, ◌≤◌, ◌≡◌, refl, ◌==◌, ==_iff, Bool, true, false, not, ◌&&◌, some, Map, lookup, nat_key,
  pair_key, keep_if, IsUnique, HoldsKey, IsApart, IsApart-keep_if, All, All-map, All-both,
  All-keep_if, All-values, All-values_found, values, values-IsApart, arith,
}
use swap_trade_backend.Options.{OptionOrder, OptionOrderSide, OptionOrderStatus}
use swap_trade_backend.Options.Orders.{
  opposite, same_side, is_open, can_cancel, rests_for, resting_orders,
}
use swap_trade_backend.Options.Invariant.{StatusIsValid, OrderIsValid, order_id, RowIsValid}
use swap_trade_backend.Options.Matched.{Rests}

same_side→eq : (a b : OptionOrderSide) → same_side a b ≡ true → a ≡ b
same_side→eq OptionOrderSide.buy OptionOrderSide.buy h = refl
same_side→eq OptionOrderSide.sell OptionOrderSide.sell h = refl
same_side→eq OptionOrderSide.buy OptionOrderSide.sell h = cc
same_side→eq OptionOrderSide.sell OptionOrderSide.buy h = cc

open_unfilled :
    (s : OptionOrderStatus) (filled quantity : ℕ)
    → is_open s ≡ true
    → StatusIsValid s filled quantity
    → filled ≡ 0
open_unfilled OptionOrderStatus.open_ f q h v = v
open_unfilled OptionOrderStatus.partially_filled f q h v = cc
open_unfilled OptionOrderStatus.filled f q h v = cc
open_unfilled OptionOrderStatus.cancelled f q h v = cc
open_unfilled OptionOrderStatus.expired f q h v = cc

-- An order that can be cancelled is not filled too far.
pub cancellable :
    (s : OptionOrderStatus) (filled quantity : ℕ)
    → not (can_cancel s) ≡ false
    → StatusIsValid s filled quantity
    → filled ≤ quantity
cancellable OptionOrderStatus.open_ f q h v = rw v (omega arith)
cancellable OptionOrderStatus.partially_filled f q h v = omega arith
cancellable OptionOrderStatus.filled f q h v = cc
cancellable OptionOrderStatus.cancelled f q h v = cc
cancellable OptionOrderStatus.expired f q h v = cc

pub and_true : (a b : Bool) → a && b ≡ true → (a ≡ true) × (b ≡ true)
and_true a b h = (ground arith, ground arith)

module _ {F : Type 0} where
  All-HoldsKey :
      (orders : Map ℕ (OptionOrder F)) → All RowIsValid orders → All (HoldsKey order_id) orders
  All-HoldsKey = All-map RowIsValid (HoldsKey order_id) (λ row h. h.0)

  -- The rows that are loaded for an order in a consistent table.
  pub resting_orders-Rests :
      (contract : ℕ) (order : OptionOrder F) (orders : Map ℕ (OptionOrder F))
      → IsUnique orders
      → All RowIsValid orders
      → All (Rests contract order orders) (resting_orders contract (opposite order.side) orders)
        × IsApart order_id (resting_orders contract (opposite order.side) orders)
  resting_orders-Rests contract order orders u v =
      let keys = All-HoldsKey orders v in
      let test = rests_for contract (opposite order.side) in
      let Found : OptionOrder F → Type 0 = λ r. (lookup r.id orders ≡ some r) × OrderIsValid r in
      let all : All Found (values orders) =
        All-both (λ r. lookup r.id orders ≡ some r) OrderIsValid (values orders)
          (All-values_found order_id orders u keys)
          (All-values OrderIsValid orders
            (All-map RowIsValid (λ row. OrderIsValid row.1) (λ row h. h.1) orders v)) in
      (
        All-map (λ r. Found r × (test r ≡ true)) (Rests contract order orders)
            (λ r h.
              let (first, open_too) =
                and_true (r.contract_id == contract && same_side r.side (opposite order.side))
                  (is_open r.status) h.1 in
              let (of_contract, side) =
                and_true (r.contract_id == contract) (same_side r.side (opposite order.side))
                  first in
              (
                h.0.0,
                (==_iff r.contract_id contract).0 of_contract,
                same_side→eq r.side (opposite order.side) side,
                open_unfilled r.status r.filled_quantity r.quantity open_too h.0.1,
              ))
            (keep_if test (values orders)) (All-keep_if Found test (values orders) all),
        IsApart-keep_if order_id test (values orders) (values-IsApart order_id orders u keys),
      )
