-- ===== src/Tolerance.antt =====
-- queue/queue-fault-tolerance.service.ts: circuit breakers, failover targets and retry counts.
-- Services, targets and jobs are numbers; times are in milliseconds. The threshold is a fraction,
-- and a rate is compared with it by cross multiplication. Logging and events are left out.
pub mod Failover
pub mod Breakers
pub mod Recovery
pub mod Priorities
pub mod Targets
mod Examples
use swap_trade_backend.Common.{
  ℕ, ◌+◌, ◌*◌, leb, ltb, Bool, true, false, Option, none, some, List, [], Map, lookup, insert,
  erase, nat_key, if◌then◌else◌,
}

pub data CircuitBreakerState : Type 0 where
  closed open_ half_open : CircuitBreakerState

pub record CircuitBreaker : Type 0 where
  pub state : CircuitBreakerState
  pub failure_count : ℕ
  pub success_count : ℕ
  pub last_failure_time : Option ℕ
  pub last_state_change : ℕ
  pub next_retry_time : Option ℕ

pub record FailoverTarget : Type 0 where
  pub target_id : ℕ
  pub priority : ℕ
  pub is_available : Bool
  pub last_health_check : ℕ
  pub consecutive_failures : ℕ

-- The part of the configuration that the service reads.
pub record FaultToleranceConfig : Type 0 where
  pub enable_failover : Bool
  pub max_failover_attempts : ℕ
  pub enable_circuit_breaker : Bool
  pub threshold_numerator : ℕ
  pub threshold_denominator : ℕ
  pub reset_timeout : ℕ

pub record FaultTolerance : Type 0 where
  pub config : FaultToleranceConfig
  pub circuit_breakers : Map ℕ CircuitBreaker
  pub failover_targets : Map ℕ (List FailoverTarget)
  pub retry_attempts : Map ℕ ℕ

abbrev pub default_config : FaultToleranceConfig
default_config = record {
  enable_failover = true;
  max_failover_attempts = 3;
  enable_circuit_breaker = true;
  threshold_numerator = 1;
  threshold_denominator = 2;
  reset_timeout = 60000;
}

abbrev pub new_breaker : ℕ → CircuitBreaker
new_breaker now = record {
  state = CircuitBreakerState.closed;
  failure_count = 0;
  success_count = 0;
  last_failure_time = none;
  last_state_change = now;
  next_retry_time = none;
}

abbrev pub breaker_or_new : ℕ → Option CircuitBreaker → CircuitBreaker
breaker_or_new now none = new_breaker now
breaker_or_new now (some b) = b

-- The breaker, which is made if there is none. A caller that changes it writes it back.
abbrev pub get_circuit_breaker : ℕ → ℕ → FaultTolerance → CircuitBreaker
get_circuit_breaker now id s = breaker_or_new now (lookup id s.circuit_breakers)

abbrev pub write_breaker : ℕ → CircuitBreaker → FaultTolerance → FaultTolerance
write_breaker id b s = record s { circuit_breakers = insert id b s.circuit_breakers }

abbrev pub after_success : ℕ → CircuitBreaker → CircuitBreaker
after_success now b =
    let counted = record b { success_count = b.success_count + 1; failure_count = 0 } in
    elim b.state [
      | CircuitBreakerState.half_open ↦ record counted {
        state = CircuitBreakerState.closed;
        last_state_change = now;
      }
      | _ ↦ counted
    ]

unfoldable pub record_success : ℕ → ℕ → FaultTolerance → FaultTolerance
record_success now id s = write_breaker id (after_success now (get_circuit_breaker now id s)) s

abbrev pub opened_breaker : ℕ → ℕ → CircuitBreaker → CircuitBreaker
opened_breaker now timeout b = record b {
  state = CircuitBreakerState.open_;
  last_state_change = now;
  next_retry_time = some (now + timeout);
}

-- failureCount / (failureCount + successCount) >= threshold
abbrev pub is_exceeded : FaultToleranceConfig → CircuitBreaker → Bool
is_exceeded c b =
    leb (c.threshold_numerator * (b.failure_count + b.success_count))
      (b.failure_count * c.threshold_denominator)

abbrev pub after_failure : ℕ → FaultToleranceConfig → CircuitBreaker → CircuitBreaker
after_failure now c b =
    let counted = record b {
      failure_count = b.failure_count + 1;
      success_count = 0;
      last_failure_time = some now;
    } in
    elim b.state [
      | CircuitBreakerState.closed ↦
          if is_exceeded c counted then opened_breaker now c.reset_timeout counted else counted
      | CircuitBreakerState.half_open ↦ opened_breaker now c.reset_timeout counted
      | CircuitBreakerState.open_ ↦ counted
    ]

unfoldable pub record_failure : ℕ → ℕ → FaultTolerance → FaultTolerance
record_failure now id s =
    write_breaker id (after_failure now s.config (get_circuit_breaker now id s)) s

abbrev pub is_due : ℕ → Option ℕ → Bool
is_due now none = false
is_due now (some retry) = leb retry now

-- Whether a request passes, and the breaker afterwards.
abbrev pub asked_breaker : ℕ → CircuitBreaker → Bool × CircuitBreaker
asked_breaker now b = elim b.state [
  | CircuitBreakerState.closed ↦ (true, b)
  | CircuitBreakerState.half_open ↦ (true, b)
  | CircuitBreakerState.open_ ↦
      if is_due now b.next_retry_time
      then (true, record b { state = CircuitBreakerState.half_open; last_state_change = now })
      else (false, b)
]

unfoldable pub is_request_allowed : ℕ → ℕ → FaultTolerance → Bool × FaultTolerance
is_request_allowed now id s =
    let answer = asked_breaker now (get_circuit_breaker now id s) in
    if s.config.enable_circuit_breaker then (answer.0, write_breaker id answer.1 s) else (true, s)

unfoldable pub reset_circuit_breaker : ℕ → ℕ → FaultTolerance → FaultTolerance
reset_circuit_breaker now id s =
    write_breaker id
      (record (get_circuit_breaker now id s) {
        state = CircuitBreakerState.closed;
        failure_count = 0;
        success_count = 0;
        last_state_change = now;
        next_retry_time = none;
      })
      s

-- `updateConfig` with or without its part on fault tolerance.
abbrev pub update_config : Option FaultToleranceConfig → FaultTolerance → FaultTolerance
update_config none s = s
update_config (some config) s = record s { config = config }

abbrev count_or_zero : Option ℕ → ℕ
count_or_zero none = 0
count_or_zero (some n) = n

abbrev pub get_retry_count : ℕ → FaultTolerance → ℕ
get_retry_count job s = count_or_zero (lookup job s.retry_attempts)

abbrev pub increment_retry_count : ℕ → FaultTolerance → ℕ × FaultTolerance
increment_retry_count job s =
    let next = get_retry_count job s + 1 in
    (next, record s { retry_attempts = insert job next s.retry_attempts })

abbrev pub reset_retry_count : ℕ → FaultTolerance → FaultTolerance
reset_retry_count job s = record s { retry_attempts = erase job s.retry_attempts }

abbrev pub should_retry : ℕ → ℕ → FaultTolerance → Bool
should_retry job most s = ltb (get_retry_count job s) most
