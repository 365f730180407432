-- ===== src/Matching/Types.antt =====
-- trading/matching-engine/types/order.types.ts. Quantities and prices are whole numbers of the
-- smallest unit; an absent price is `none`. The untyped `metadata` of an order is left out.
use swap_trade_backend.Common.{ℕ, Bool, true, false, Option, none, some, ◌==◌, not}

pub data OrderType : Type 0 where
  limit market stop_limit stop_market : OrderType

pub data OrderSide : Type 0 where
  buy sell : OrderSide

pub data OrderStatus : Type 0 where
  pending partial filled cancelled rejected expired : OrderStatus

pub data TimeInForce : Type 0 where
  gtc ioc fok day : TimeInForce

pub record Order : Type 0 where
  pub id : ℕ
  pub user_id : ℕ
  pub asset : ℕ
  pub side : OrderSide
  pub type : OrderType
  pub price : Option ℕ
  pub stop_price : Option ℕ
  pub quantity : ℕ
  pub filled_quantity : ℕ
  pub remaining_quantity : ℕ
  pub time_in_force : TimeInForce
  pub timestamp : ℕ
  pub priority : ℕ
  pub status : OrderStatus

-- Fees are in thousandths of the unit of value, so that 0.1% is a whole number.
pub record MatchResult : Type 0 where
  pub buy_order_id : ℕ
  pub sell_order_id : ℕ
  pub price : ℕ
  pub quantity : ℕ
  pub timestamp : ℕ
  pub buyer_fee : ℕ
  pub seller_fee : ℕ

abbrev pub is_buy : OrderSide → Bool
is_buy OrderSide.buy = true
is_buy OrderSide.sell = false

abbrev pub opposite : OrderSide → OrderSide
opposite OrderSide.buy = OrderSide.sell
opposite OrderSide.sell = OrderSide.buy

-- A number that may be undefined, in a JavaScript test: undefined and 0 are false.
abbrev pub truthy : Option ℕ → Bool
truthy none = false
truthy (some p) = not (p == 0)
