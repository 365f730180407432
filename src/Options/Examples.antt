-- ===== src/Options/Examples.antt =====
-- The theorems on options at two sellers and a buyer of one contract, with whole numbers for prices.
use swap_trade_backend.Common.{
  ℕ, ◌+◌, ◌-◌, ◌*◌, ◌/◌, ◌≡◌, refl, ltb, leb, ◌==◌, max, Option, none, some, List, [], ◌∷◌, lookup,
  nat_key, pair_key, if◌then◌else◌, Number,
}
use swap_trade_backend.Options.{
  OptionType, OptionContract, OptionContractStatus, OptionOrder, OptionOrderSide, OptionOrderType,
  OptionOrderStatus, PlaceOptionOrderDto, Exchange,
}
use swap_trade_backend.Options.Valuation.{calculate_greeks, calculate_margin, unrealized}
use swap_trade_backend.Options.Orders.{
  place_order, place_saved, match_order, match_loop, match_with, apply_fill, reprice,
  is_price_match, refresh_position_risk, order_of,
}
use swap_trade_backend.Options.Contracts.{create_contract}
use swap_trade_backend.Options.Invariant.{IsConsistent}
use swap_trade_backend.Options.History.{OptionCall, create, place, cancel, expire, run, empty}
use swap_trade_backend.Options.Calls.{placed_or}
use swap_trade_backend.Options.History
use swap_trade_backend.Options.Partial

instance abbrev whole : Number ℕ
whole = record {
  add = ◌+◌;
  sub = ◌-◌;
  mul = ◌*◌;
  div = ◌/◌;
  abs = λ a. a;
  lt = ltb;
  le = leb;
  decimal = λ a k. if k == 0 then a else 0;
  infinity = 1000000000;
  equal = ◌==◌;
  greatest = max;
  to_fixed = λ k a. a;
}

abbrev contract : OptionContract ℕ
contract = record {
  id = 1;
  underlying_asset = 2;
  option_type = OptionType.call;
  strike_price = 100;
  expiry_at = 5000;
  contract_size = 1;
  mark_price = 110;
  volatility = 1;
  status = OptionContractStatus.active;
  settlement_price = none;
}

abbrev request : ℕ → OptionOrderSide → ℕ → ℕ → PlaceOptionOrderDto ℕ
request user side quantity price = record {
  user_id = user;
  side = side;
  order_type = OptionOrderType.limit;
  quantity = quantity;
  limit_price = some price;
}

-- A sale of 10 that is filled by 4, and then a sale of 3.
abbrev calls : List (OptionCall ℕ)
calls =
    create contract
    ∷ place 10 71 1 (request 7 OptionOrderSide.sell 10 50)
    ∷ place 11 72 1 (request 8 OptionOrderSide.buy 4 60)
    ∷ place 12 73 1 (request 9 OptionOrderSide.sell 3 50)
    ∷ []

abbrev state : Exchange ℕ
state = run calls empty

abbrev fill_of : Option (OptionOrder ℕ) → Option (ℕ × OptionOrderStatus)
fill_of none = none
fill_of (some o) = some (o.filled_quantity, o.status)

partly : fill_of (lookup 71 state.orders) ≡ some (4, OptionOrderStatus.partially_filled)
unfolding create_contract place_order place_saved match_order match_loop match_with apply_fill
    reprice is_price_match refresh_position_risk calculate_greeks calculate_margin unrealized
partly = refl

run-empty-IsConsistent_example : IsConsistent state
unfolding create_contract place_order place_saved match_order match_loop match_with apply_fill
    reprice is_price_match refresh_position_risk calculate_greeks calculate_margin unrealized
run-empty-IsConsistent_example =
    History.run-empty-IsConsistent calls (tt, (refl, (refl, (refl, tt))))

-- The sale of 10 as it stands afterwards.
abbrev row_or : OptionOrder ℕ → Option (OptionOrder ℕ) → OptionOrder ℕ
row_or other none = other
row_or other (some o) = o

abbrev partial_sale : OptionOrder ℕ
partial_sale =
    row_or (order_of contract 71 (request 7 OptionOrderSide.sell 10 50)) (lookup 71 state.orders)

-- A purchase of 6 takes the 3 of the later sale, and nothing of the 6 that are left of this one.
place_order-closed_example :
    lookup 71
      (placed_or state (place_order 13 74 1 (request 8 OptionOrderSide.buy 6 60) state)).orders
    ≡ some partial_sale
unfolding create_contract place_order place_saved match_order match_loop match_with apply_fill
    reprice is_price_match refresh_position_risk calculate_greeks calculate_margin unrealized
place_order-closed_example =
    Partial.place_order-closed 13 74 1 (request 8 OptionOrderSide.buy 6 60) state 71 partial_sale
      (History.run-empty-IsConsistent calls (tt, (refl, (refl, (refl, tt))))) refl refl refl

takes_later :
    fill_of (
      lookup 74
        (placed_or state (place_order 13 74 1 (request 8 OptionOrderSide.buy 6 60) state)).orders)
    ≡ some (3, OptionOrderStatus.partially_filled)
unfolding create_contract place_order place_saved match_order match_loop match_with apply_fill
    reprice is_price_match refresh_position_risk calculate_greeks calculate_margin unrealized
takes_later = refl
