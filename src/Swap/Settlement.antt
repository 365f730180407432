-- ===== src/Swap/Settlement.antt =====
-- swap/swap-settlement.service.ts: the settlement of one swap, with its retries, and the rollback.
-- The application has one SQLite connection, so a statement of the service's own repository that
-- runs while a transaction is open is part of that transaction. Logging, the delay between
-- attempts and the caches of balances are left out.
use swap_trade_backend.Common.{
  ℕ, zero, suc, ◌+◌, Bool, true, false, not, Option, none, some, lookup, insert, nat_key, pair_key,
  if◌then◌else◌, Throws, err, ok,
}
use swap_trade_backend.Common.{Number}
use swap_trade_backend.Swap.{
  SwapStatus, SwapHistory, UserBalance, Db, World, Cache, Problem, FailureReason, PriceQuote,
}
use swap_trade_backend.Swap.Pricing.{get_quote, validate_slippage, execute_amm_swap}

abbrev pub max_settlement_retries : ℕ
max_settlement_retries = 3

abbrev pub is_terminal : SwapStatus → Bool
is_terminal SwapStatus.completed = true
is_terminal SwapStatus.failed = true
is_terminal _ = false

module _ {F : Type 0} ⦃n : Number F⦄ where
  -- `update(SwapHistory, id, ...)`: nothing happens when there is no such row.
  abbrev pub update_swap : ℕ → (SwapHistory F → SwapHistory F) → Db F → Db F
  update_swap id change db = elim (lookup id db.swaps) [
    | none ↦ db
    | some s ↦ record db { swaps = insert id (change s) db.swaps }
  ]

  abbrev pub within : (Db F → Db F) → World F → World F
  within change w = record w { db = change w.db }

  abbrev pub balance_of : ℕ → ℕ → Db F → Option (UserBalance F)
  balance_of user asset db = lookup (user, asset) db.balances

  abbrev pub save_balance : UserBalance F → Db F → Db F
  save_balance b db = record db { balances = insert (b.user_id, b.asset_id) b db.balances }

  abbrev pub new_balance : ℕ → ℕ → F → UserBalance F
  new_balance user asset amount = record {
    user_id = user;
    asset_id = asset;
    balance = amount;
    total_invested = n.decimal 0 0;
    cumulative_pnl = n.decimal 0 0;
    average_buy_price = n.decimal 0 0;
  }

  -- The balance that is paid into, as it was loaded, or a new one.
  abbrev pub paid_in : ℕ → ℕ → F → Option (UserBalance F) → UserBalance F
  paid_in user asset amount (some b) = record b { balance = n.add b.balance amount }
  paid_in user asset amount none = new_balance user asset amount

  -- Both balances are loaded before either is saved.
  unfoldable pub update_balances : ℕ → ℕ → ℕ → F → F → Db F → Throws Problem (Db F)
  update_balances user from to amount_in amount_out db = elim (lookup from db.assets) [
    | none ↦ err (Problem.asset_not_found from)
    | some a ↦ elim (lookup to db.assets) [
      | none ↦ err (Problem.asset_not_found to)
      | some b ↦
          let target = paid_in user b amount_out (balance_of user b db) in
          elim (balance_of user a db) [
            | none ↦ err (Problem.insufficient_balance from)
            | some source ↦
                if n.lt source.balance amount_in
                then err (Problem.insufficient_balance from)
                else ok (
                    save_balance target (
                      save_balance (record source { balance = n.sub source.balance amount_in }) db))
          ]
    ]
  ]

  abbrev pub mark_breached : F → SwapHistory F → SwapHistory F
  mark_breached actual s = record s {
    status = SwapStatus.failed;
    actual_slippage = some actual;
    error_message = some Problem.slippage_exceeded;
    failure_reason = some FailureReason.slippage_breached;
  }

  abbrev pub mark_completed : F × F × F → F → F → ℕ → SwapHistory F → SwapHistory F
  mark_completed (amount_out, executed_rate, _) actual impact at s = record s {
    status = SwapStatus.completed;
    amount_out = some amount_out;
    executed_rate = some executed_rate;
    actual_slippage = some actual;
    price_impact = some impact;
    executed_at = some at;
    settled_at = some at;
  }

  -- From the balances on, when the pool has changed already.
  unfoldable pub pay_out :
      ℕ
      → SwapHistory F
      → PriceQuote F
      → F
      → F × F × F
      → ℕ
      → World F
      → Throws Problem (F × F × F) × World F
  unfolding update_balances
  pay_out id s quote actual trade at w =
      elim (update_balances s.user_id s.from_asset s.to_asset s.amount_in trade.0 w.db) [
        | err p ↦ (err p, w)
        | ok db ↦ (
          ok trade,
          record w { db = update_swap id (mark_completed trade actual quote.price_impact at) db },
        )
      ]

  -- From the live quote on.
  unfoldable pub settle_at :
      ℕ → SwapHistory F → PriceQuote F → ℕ → World F → Throws Problem (F × F × F) × World F
  unfolding validate_slippage execute_amm_swap pay_out
  settle_at id s quote at w =
      let checked = validate_slippage s.quoted_rate quote.rate s.slippage_tolerance in
      if not checked.0
      then (err Problem.slippage_exceeded, within (update_swap id (mark_breached checked.1)) w)
      else elim (execute_amm_swap s.from_asset s.to_asset s.amount_in w.pools) [
        | err p ↦ (err p, w)
        | ok traded ↦ pay_out id s quote checked.1 traded.0 at (record w { pools = traded.1 })
      ]

  unfoldable pub attempt_settlement : Cache F → ℕ → World F → Throws Problem (F × F × F) × World F
  unfolding get_quote settle_at
  attempt_settlement cache id w = elim (lookup id w.db.swaps) [
    | none ↦ (err Problem.swap_not_found, w)
    | some s ↦
        if is_terminal s.status
        then (err Problem.terminal_state, w)
        else let asked = get_quote cache s.from_asset s.to_asset s.amount_in w in
          elim asked.0 [
            | err p ↦ (err p, asked.1)
            | ok quote ↦ settle_at id s quote (cache.now asked.1.lookups) asked.1
          ]
  ]

  abbrev pub mark_retrying : ℕ → SwapHistory F → SwapHistory F
  mark_retrying attempt s = record s { status = SwapStatus.retrying; retry_count = attempt }

  abbrev pub mark_exhausted : Problem → SwapHistory F → SwapHistory F
  mark_exhausted p s = record s {
    status = SwapStatus.failed;
    error_message = some p;
    failure_reason = some FailureReason.max_retries_exceeded;
  }

  -- The loop, from attempt number `attempt` on, with so many retries left.
  unfoldable pub settle_loop : Cache F → ℕ → ℕ → ℕ → World F → Throws Problem (F × F × F) × World F
  unfolding attempt_settlement
  settle_loop cache id zero attempt w =
      let tried = attempt_settlement cache id w in
      elim tried.0 [
        | ok trade ↦ (ok trade, tried.1)
        | err p ↦ (err p, within (update_swap id (mark_exhausted p)) tried.1)
      ]
  settle_loop cache id (suc left) attempt w =
      let tried = attempt_settlement cache id w in
      let next =
        settle_loop cache id left (attempt + 1)
          (within (update_swap id (mark_retrying (attempt + 1))) tried.1) in
      elim tried.0 [ ok trade ↦ (ok trade, tried.1) | err p ↦ next ]

  unfoldable pub settle : Cache F → ℕ → World F → Throws Problem (F × F × F) × World F
  unfolding settle_loop
  settle cache id w = settle_loop cache id max_settlement_retries 0 w

  abbrev pub mark_rolled_back : SwapHistory F → SwapHistory F
  mark_rolled_back s = record s {
    status = SwapStatus.rolled_back;
    failure_reason = some FailureReason.atomic_batch_rollback;
  }

  -- Restore the amount, if the user has a balance of the asset.
  abbrev pub restore : F → Option (UserBalance F) → Db F → Db F
  restore amount none db = db
  restore amount (some b) db = save_balance (record b { balance = n.add b.balance amount }) db

  unfoldable pub rollback : ℕ → Db F → Db F
  rollback id db = elim (lookup id db.swaps) [
    | none ↦ db
    | some s ↦ elim (lookup s.from_asset db.assets) [
      | none ↦ db
      | some asset ↦
          update_swap id mark_rolled_back (restore s.amount_in (balance_of s.user_id asset db) db)
    ]
  ]
