-- ===== src/Options.antt =====
-- options/: contracts, orders and positions of the options exchange. Prices are JavaScript numbers,
-- of which no law is assumed; a quantity is a natural number of hundred-millionths, the scale of
-- its column. Ids, users and assets are numbers; a date is a number of milliseconds.
pub mod Valuation
pub mod Orders
pub mod Contracts
pub mod Invariant
pub mod Matched
pub mod Fills
pub mod Resting
pub mod Changes
pub mod Calls
pub mod History
pub mod Partial
mod Examples
use swap_trade_backend.Common.{ℕ, Option, List, Map, Number}

pub data OptionType : Type 0 where
  call put : OptionType

pub data OptionContractStatus : Type 0 where
  active expired settled : OptionContractStatus

pub data OptionOrderSide : Type 0 where
  buy sell : OptionOrderSide

pub data OptionOrderType : Type 0 where
  market limit : OptionOrderType

pub data OptionOrderStatus : Type 0 where
  open_ partially_filled filled cancelled expired : OptionOrderStatus

pub record OptionContract (F : Type 0) : Type 0 where
  pub id : ℕ
  pub underlying_asset : ℕ
  pub option_type : OptionType
  pub strike_price : F
  pub expiry_at : ℕ
  pub contract_size : F
  pub mark_price : F
  pub volatility : F
  pub status : OptionContractStatus
  pub settlement_price : Option F

pub record Greeks (F : Type 0) : Type 0 where
  pub delta : F
  pub gamma : F
  pub theta : F
  pub vega : F

pub record OptionOrder (F : Type 0) : Type 0 where
  pub id : ℕ
  pub contract_id : ℕ
  pub user_id : ℕ
  pub side : OptionOrderSide
  pub order_type : OptionOrderType
  pub quantity : ℕ
  pub limit_price : Option F
  pub filled_quantity : ℕ
  pub average_fill_price : F
  pub margin_requirement : F
  pub greeks : Option (Greeks F)
  pub status : OptionOrderStatus

pub record OptionPosition (F : Type 0) : Type 0 where
  pub contract_id : ℕ
  pub user_id : ℕ
  pub long_quantity : ℕ
  pub short_quantity : ℕ
  pub average_entry_price : F
  pub margin_held : F
  pub realized_pnl : F
  pub unrealized_pnl : F

pub record PlaceOptionOrderDto (F : Type 0) : Type 0 where
  pub user_id : ℕ
  pub side : OptionOrderSide
  pub order_type : OptionOrderType
  pub quantity : ℕ
  pub limit_price : Option F

pub record UpdateOptionContractDto (F : Type 0) : Type 0 where
  pub mark_price : Option F
  pub volatility : Option F
  pub status : Option OptionContractStatus
  pub settlement_price : Option F

-- What a match reports.
pub record OptionMatch (F : Type 0) : Type 0 where
  pub maker_order_id : ℕ
  pub taker_order_id : ℕ
  pub quantity : ℕ
  pub price : F

pub data OptionProblem : Type 0 where
  contract_not_found order_not_found contract_not_active : OptionProblem
  limit_price_required order_cannot_be_cancelled : OptionProblem

-- The tables. Rows stand in the order in which they were created.
pub record Exchange (F : Type 0) : Type 0 where
  pub contracts : Map ℕ (OptionContract F)
  pub orders : Map ℕ (OptionOrder F)
  pub positions : Map (ℕ × ℕ) (OptionPosition F)
