-- ===== src/Tolerance/Examples.antt =====
-- The theorems on fault tolerance at one service with the default configuration.
use swap_trade_backend.Common.{
  ℕ, ◌+◌, ◌≤◌, ◌≡◌, refl, true, false, some, List, [], ◌∷◌, All, lookup, nat_key, arith,
}
use swap_trade_backend.Tolerance.{
  CircuitBreakerState, CircuitBreaker, FaultTolerance, default_config, get_circuit_breaker,
  record_success, record_failure, is_request_allowed, reset_circuit_breaker,
}
use swap_trade_backend.Tolerance.Failover.{targets_of, get_next_failover_target}
use swap_trade_backend.Tolerance.Breakers.{
  BreakerCall, succeeds, fails, requests, resets, run, answers, IsBlocked,
}
use swap_trade_backend.Tolerance.Breakers
use swap_trade_backend.Tolerance.Recovery.{no_breakers}
use swap_trade_backend.Tolerance.Recovery
use swap_trade_backend.Tolerance.Targets.{
  TargetCall, registers, marks_unavailable, run_targets, IsLeast,
}
use swap_trade_backend.Tolerance.Targets

-- Three successes, and then one failure at time 1000.
abbrev before : FaultTolerance
before = run (succeeds 1 5 ∷ succeeds 2 5 ∷ succeeds 3 5 ∷ []) (no_breakers default_config)

abbrev after : FaultTolerance
after = record_failure 1000 5 before

record_failure-opened_example :
    (b : CircuitBreaker) × (lookup 5 after.circuit_breakers ≡ some b)
    × (b.state ≡ CircuitBreakerState.open_)
    × (b.next_retry_time ≡ some (1000 + 60000))
unfolding record_success
record_failure-opened_example =
    Breakers.record_failure-opened_breaker 1000 5 before refl (omega arith)

abbrev quiet : List BreakerCall
quiet = requests 1500 5 ∷ succeeds 1600 5 ∷ resets 1700 6 ∷ requests 60999 5 ∷ []

after-IsBlocked : IsBlocked 5 61000 after
unfolding record_success record_failure
after-IsBlocked = (refl, (_, refl, refl, refl))

answers-IsBlocked_example :
    All (λ answer. answer ≡ false) (answers 5 quiet after) × IsBlocked 5 61000 (run quiet after)
answers-IsBlocked_example =
    Breakers.answers-IsBlocked 5 61000 quiet after (omega arith, (tt, (refl, (omega arith, tt))))
      after-IsBlocked

asks_twice : answers 5 quiet after ≡ false ∷ false ∷ []
unfolding record_success record_failure is_request_allowed reset_circuit_breaker
asks_twice = refl

abbrev failed : List BreakerCall
failed = succeeds 1 5 ∷ fails 1000 5 ∷ requests 1500 5 ∷ []

run-recovers_example :
    let s = run failed (no_breakers default_config) in
    (r : ℕ) × ((now : ℕ)
      → r ≤ now
      → ((is_request_allowed now 5 s).0 ≡ true)
        × ((later : ℕ)
            → (get_circuit_breaker later 5
                (record_success later 5 (is_request_allowed now 5 s).1)).state
              ≡ CircuitBreakerState.closed))
unfolding record_success record_failure is_request_allowed
run-recovers_example = Recovery.run-recovers default_config failed 5 refl

abbrev targets : List TargetCall
targets =
    registers 1 5 81 3 ∷ registers 2 5 82 1 ∷ registers 3 5 83 2 ∷ marks_unavailable 4 5 82 ∷ []

run_targets-IsLeast_example :
    let s = run_targets targets (no_breakers default_config) in
    IsLeast (targets_of 5 s) (get_next_failover_target 5 s)
run_targets-IsLeast_example = Targets.run_targets-IsLeast default_config targets 5
