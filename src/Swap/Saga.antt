-- ===== src/Swap/Saga.antt =====
-- swap/swap-saga.service.ts: a swap over several legs. The catch of a compensation that throws is
-- left out: only the database can make it throw.
use swap_trade_backend.Common.{
  ℕ, ◌+◌, Bool, true, false, none, some, List, [], ◌∷◌, ◌++◌, map, insert, nat_key, if◌then◌else◌,
  Throws, err, ok,
}
use swap_trade_backend.Common.{Number}
use swap_trade_backend.Swap.{
  SwapStatus, SwapType, SwapHistory, Db, World, Cache, Problem, PriceQuote,
}
use swap_trade_backend.Swap.Pricing.{get_quote}
use swap_trade_backend.Swap.Settlement.{update_swap, within, settle}
use swap_trade_backend.Swap.Batch.{rollback_all}

pub data StepStatus : Type 0 where
  pending completed compensated : StepStatus

pub record SagaStep (F : Type 0) : Type 0 where
  pub swap_id : ℕ
  pub from_asset : ℕ
  pub to_asset : ℕ
  pub amount_in : F
  pub quote : PriceQuote F
  pub status : StepStatus

pub record SagaResult (F : Type 0) : Type 0 where
  pub batch_id : ℕ
  pub steps : List (SagaStep F)
  pub success : Bool
  pub total_amount_out : F
  pub final_asset : ℕ

abbrev is_completed : StepStatus → Bool
is_completed StepStatus.completed = true
is_completed _ = false

module _ {F : Type 0} ⦃n : Number F⦄ where
  -- Phase 1 of a saga: a quote for each leg, on what the leg before was quoted.
  unfoldable pub quote_legs :
      Cache F
      → (ℕ → ℕ)
      → ℕ
      → ℕ
      → List ℕ
      → F
      → World F
      → Throws Problem (List (SagaStep F)) × World F
  unfolding get_quote
  quote_legs cache uuid i from [] amount w = (ok [], w)
  quote_legs cache uuid i from (to ∷ route) amount w =
      let asked = get_quote cache from to amount w in
      elim asked.0 [
        | err p ↦ (err p, asked.1)
        | ok q ↦
            let rest = quote_legs cache uuid (i + 1) to route q.amount_out asked.1 in
            elim rest.0 [
              | err p ↦ (err p, rest.1)
              | ok steps ↦ (
                ok (
                    record {
                      swap_id = uuid i;
                      from_asset = from;
                      to_asset = to;
                      amount_in = amount;
                      quote = q;
                      status = StepStatus.pending;
                    }
                    ∷ steps),
                rest.1,
              )
            ]
      ]

  abbrev pub record_of : ℕ → F → ℕ → List ℕ → SagaStep F → SwapHistory F
  record_of user tolerance batch_id route s = record {
    id = s.swap_id;
    user_id = user;
    from_asset = s.from_asset;
    to_asset = s.to_asset;
    amount_in = s.amount_in;
    amount_out = none;
    quoted_rate = s.quote.rate;
    executed_rate = none;
    slippage_tolerance = tolerance;
    actual_slippage = none;
    price_impact = none;
    status = SwapStatus.pending;
    swap_type = SwapType.multi_leg;
    route = some route;
    retry_count = 0;
    error_message = none;
    failure_reason = none;
    job_id = none;
    batch_id = some batch_id;
    executed_at = none;
    settled_at = none;
  }

  -- Phase 2.
  abbrev pub save_records : List (SwapHistory F) → Db F → Db F
  save_records [] db = db
  save_records (s ∷ ss) db = save_records ss (record db { swaps = insert s.id s db.swaps })

  abbrev pub mark_started : SwapHistory F → SwapHistory F
  mark_started s = record s { status = SwapStatus.processing }

  -- Phase 3: the legs inside the transaction, and the steps as they are marked.
  unfoldable pub run_legs :
      Cache F
      → List (SagaStep F)
      → World F
      → (Throws Problem (Unit {0}) × List (SagaStep F)) × World F
  unfolding settle
  run_legs cache [] w = ((ok tt, []), w)
  run_legs cache (s ∷ steps) w =
      let tried = settle cache s.swap_id (within (update_swap s.swap_id mark_started) w) in
      let rest = run_legs cache steps tried.1 in
      elim tried.0 [
        | err p ↦ ((err p, s ∷ steps), tried.1)
        | ok _ ↦ ((rest.0.0, record s { status = StepStatus.completed } ∷ rest.0.1), rest.1)
      ]

  -- The completed legs, the last one first.
  abbrev pub to_compensate : List (SagaStep F) → List ℕ
  to_compensate [] = []
  to_compensate (s ∷ steps) =
      let later = to_compensate steps in
      if is_completed s.status then later ++ s.swap_id ∷ [] else later

  unfoldable pub compensate : List (SagaStep F) → Db F → Db F
  compensate steps db = rollback_all (to_compensate steps) db

  -- The last step, of a route with at least one leg.
  abbrev pub final_step : SagaStep F → List (SagaStep F) → SagaStep F
  final_step s [] = s
  final_step s (t ∷ steps) = final_step t steps

  abbrev pub saga_result : ℕ → List (SagaStep F) → Throws Problem (SagaResult F)
  saga_result batch_id [] = err Problem.route_too_short
  saga_result batch_id (s ∷ steps) =
      let last = final_step s steps in
      ok (record {
        batch_id = batch_id;
        steps = s ∷ steps;
        success = true;
        total_amount_out = last.quote.amount_out;
        final_asset = last.to_asset;
      })

  -- From the records on.
  unfoldable pub run_saga :
      Cache F → ℕ → List (SagaStep F) → World F → Throws Problem (SagaResult F) × World F
  unfolding run_legs compensate
  run_saga cache batch_id steps w =
      let r = run_legs cache steps w in
      elim r.0.0 [
        | ok _ ↦ (saga_result batch_id r.0.1, r.1)
        | err p ↦ (err (Problem.multi_leg_failed p), record r.1 { db = compensate r.0.1 w.db })
      ]

  unfoldable pub execute_multi_leg_swap :
      Cache F → (ℕ → ℕ) → ℕ → List ℕ → F → F → ℕ → World F → Throws Problem (SagaResult F) × World F
  unfolding quote_legs run_saga
  execute_multi_leg_swap cache uuid user [] amount tolerance batch_id w =
      (err Problem.route_too_short, w)
  execute_multi_leg_swap cache uuid user (a ∷ []) amount tolerance batch_id w =
      (err Problem.route_too_short, w)
  execute_multi_leg_swap cache uuid user (a ∷ b ∷ route) amount tolerance batch_id w =
      let legs = quote_legs cache uuid 0 a (b ∷ route) amount w in
      elim legs.0 [
        | err p ↦ (err p, legs.1)
        | ok steps ↦
            let rows = map (record_of user tolerance batch_id (a ∷ b ∷ route)) steps in
            run_saga cache batch_id steps (within (save_records rows) legs.1)
      ]
