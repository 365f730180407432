-- ===== src/Swap.antt =====
-- swap/: the data of swaps, of balances and of the simulated pools. Amounts, rates and prices are
-- JavaScript numbers: their operations are those of an instance of Number, of which no law is
-- assumed. Asset symbols, ids and job ids are numbers, a date is a number of milliseconds.
pub mod Pricing
pub mod Settlement
pub mod Batch
pub mod Saga
pub mod Jobs
pub mod Routes
pub mod Quotes
pub mod Outcome
pub mod Settled
pub mod Retries
pub mod Refunds
pub mod Aborted
pub mod Legs
pub mod Completion
pub mod Unpooled
mod Examples
use swap_trade_backend.Common.{ℕ, Bool, true, false, Option, none, some, List, Map}

pub data SwapStatus : Type 0 where
  pending processing completed failed retrying rolled_back : SwapStatus

pub data SwapType : Type 0 where
  single multi_leg batch : SwapType

-- The exceptions, by their message.
pub data Problem : Type 0 where
  swap_not_found terminal_state slippage_exceeded no_swap_route no_pool : Problem
  asset_not_found insufficient_balance : ℕ → Problem
  route_too_short : Problem
  multi_leg_failed : Problem → Problem

pub data FailureReason : Type 0 where
  slippage_breached max_retries_exceeded atomic_batch_rollback : FailureReason
  atomic_batch_aborted job_exhausted_retries batch_job_failed : FailureReason

pub record SwapHistory (F : Type 0) : Type 0 where
  pub id : ℕ
  pub user_id : ℕ
  pub from_asset : ℕ
  pub to_asset : ℕ
  pub amount_in : F
  pub amount_out : Option F
  pub quoted_rate : F
  pub executed_rate : Option F
  pub slippage_tolerance : F
  pub actual_slippage : Option F
  pub price_impact : Option F
  pub status : SwapStatus
  pub swap_type : SwapType
  pub route : Option (List ℕ)
  pub retry_count : ℕ
  pub error_message : Option Problem
  pub failure_reason : Option FailureReason
  pub job_id : Option ℕ
  pub batch_id : Option ℕ
  pub executed_at : Option ℕ
  pub settled_at : Option ℕ

-- The columns of a balance that the swaps set.
pub record UserBalance (F : Type 0) : Type 0 where
  pub user_id : ℕ
  pub asset_id : ℕ
  pub balance : F
  pub total_invested : F
  pub cumulative_pnl : F
  pub average_buy_price : F

pub record PoolState (F : Type 0) : Type 0 where
  pub base_asset : ℕ
  pub quote_asset : ℕ
  pub base_reserve : F
  pub quote_reserve : F
  pub k : F
  pub fee : F

pub record PriceQuote (F : Type 0) : Type 0 where
  pub from_asset : ℕ
  pub to_asset : ℕ
  pub amount_in : F
  pub amount_out : F
  pub rate : F
  pub price_impact : F
  pub route : List ℕ
  pub liquidity_available : F
  pub quoted_at : ℕ

abbrev pub Balances : Type 0 → Type 0
Balances F = Map (ℕ × ℕ) (UserBalance F)

abbrev pub Swaps : Type 0 → Type 0
Swaps F = Map ℕ (SwapHistory F)

-- The tables. `assets` is the id of each symbol.
pub record Db (F : Type 0) : Type 0 where
  pub swaps : Swaps F
  pub balances : Balances F
  pub assets : Map ℕ ℕ

abbrev pub Pools : Type 0 → Type 0
Pools F = Map (ℕ × ℕ) (PoolState F)

-- What changes in the course of a job: the tables, the pools of the pricing service, which live
-- in memory, and how many times the cache of quotes was asked.
pub record World (F : Type 0) : Type 0 where
  pub db : Db F
  pub pools : Pools F
  pub lookups : ℕ

-- The cache of quotes and the clock, by the number of the lookup.
pub record Cache (F : Type 0) : Type 0 where
  pub get : ℕ → Option (PriceQuote F)
  pub now : ℕ → ℕ
