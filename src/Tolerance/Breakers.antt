-- ===== src/Tolerance/Breakers.antt =====
-- When a circuit breaker opens, and what an open one lets through.
use swap_trade_backend.Common.{
  ℕ, zero, suc, ◌+◌, ◌*◌, ◌≤◌, ◌<◌, ◌≡◌, refl, sym, ap, subst, ◌∙◌, ◌==◌, ==_iff, leb, Bool, true,
  false, inl, inr, some, List, [], ◌∷◌, All, lookup, nat_key, if◌then◌else◌, lookup-insert,
  lookup-insert_self, Bool-cases, arith,
}
use swap_trade_backend.Tolerance.{
  CircuitBreakerState, CircuitBreaker, FaultToleranceConfig, FaultTolerance, get_circuit_breaker,
  after_success, after_failure, asked_breaker, is_exceeded, record_success, record_failure,
  is_request_allowed, reset_circuit_breaker, update_config, write_breaker,
}

-- The calls on breakers, with their time and service, and a change of the configuration.
pub data BreakerCall : Type 0 where
  succeeds fails requests resets : ℕ → ℕ → BreakerCall
  configures : FaultToleranceConfig → BreakerCall

abbrev pub step : BreakerCall → FaultTolerance → FaultTolerance
step (succeeds now id) s = record_success now id s
step (fails now id) s = record_failure now id s
step (requests now id) s = (is_request_allowed now id s).1
step (resets now id) s = reset_circuit_breaker now id s
step (configures c) s = update_config (some c) s

abbrev pub run : List BreakerCall → FaultTolerance → FaultTolerance
run [] s = s
run (call ∷ calls) s = run calls (step call s)

-- What the requests to a service are answered, over some calls.
abbrev pub answers : ℕ → List BreakerCall → FaultTolerance → List Bool
answers id [] s = []
answers id (requests now i ∷ calls) s =
    let r = is_request_allowed now i s in
    let rest = answers id calls r.1 in if i == id then r.0 ∷ rest else rest
answers id (call ∷ calls) s = answers id calls (step call s)

-- The breaker of a service is open until a time, and breakers are enabled.
abbrev pub IsBlocked : ℕ → ℕ → FaultTolerance → Type 0
IsBlocked id until s =
    (s.config.enable_circuit_breaker ≡ true)
    × ((b : CircuitBreaker) × (lookup id s.circuit_breakers ≡ some b)
        × (b.state ≡ CircuitBreakerState.open_)
        × (b.next_retry_time ≡ some until))

-- Calls that neither reset the service nor ask for it at or after the time, nor disable breakers.
abbrev pub IsQuiet : ℕ → ℕ → BreakerCall → Type 0
IsQuiet id until (succeeds now i) = Unit {0}
IsQuiet id until (fails now i) = Unit {0}
IsQuiet id until (requests now i) = now < until
IsQuiet id until (resets now i) = i == id ≡ false
IsQuiet id until (configures c) = c.enable_circuit_breaker ≡ true

times_le : (a b k : ℕ) → a ≤ b → a * k ≤ k * b
times_le a b zero h = omega arith
times_le a b (suc k) h = let rest = times_le a b k h in omega arith

le→leb : (a b : ℕ) → a ≤ b → leb a b ≡ true
le→leb a b h = ground arith

closed_opens :
    (now : ℕ) (c : FaultToleranceConfig) (b : CircuitBreaker)
    → b.state ≡ CircuitBreakerState.closed
    → is_exceeded c (record b { failure_count = b.failure_count + 1; success_count = 0 }) ≡ true
    → ((after_failure now c b).state ≡ CircuitBreakerState.open_)
      × ((after_failure now c b).next_retry_time ≡ some (now + c.reset_timeout))
closed_opens now c b closed over = rw (closed, over) (refl, refl)

-- One failure opens a breaker that is closed, whatever succeeded before it, when the threshold is
-- at most one; it is to be tried again after the timeout.
pub record_failure-opened_breaker :
    (now id : ℕ) (s : FaultTolerance)
    → (get_circuit_breaker now id s).state ≡ CircuitBreakerState.closed
    → s.config.threshold_numerator ≤ s.config.threshold_denominator
    → (b : CircuitBreaker) × (lookup id (record_failure now id s).circuit_breakers ≡ some b)
      × (b.state ≡ CircuitBreakerState.open_)
      × (b.next_retry_time ≡ some (now + s.config.reset_timeout))
unfolding record_failure
record_failure-opened_breaker now id s closed small =
    let b = get_circuit_breaker now id s in
    let next = after_failure now s.config b in
    let over : is_exceeded s.config
          (record b { failure_count = b.failure_count + 1; success_count = 0 })
        ≡ true =
      (let sum : b.failure_count + 1 + 0 ≡ b.failure_count + 1 = omega arith in
        rw sum (
          le→leb (s.config.threshold_numerator * (b.failure_count + 1))
            ((b.failure_count + 1) * s.config.threshold_denominator)
            (times_le s.config.threshold_numerator s.config.threshold_denominator
              (b.failure_count + 1) small))) in
    let opens = closed_opens now s.config b closed over in
    (next, lookup-insert_self id next s.circuit_breakers, opens.0, opens.1)

-- What a call writes for another service.
other-IsBlocked :
    (id until i : ℕ) (b : CircuitBreaker) (s : FaultTolerance)
    → i == id ≡ false
    → IsBlocked id until s
    → IsBlocked id until (write_breaker i b s)
other-IsBlocked id until i b s apart (on, (c, found, is_open, retry)) =
    let other : id == i ≡ false = ground arith in
    (on, (c, rw (lookup-insert id i b s.circuit_breakers, other) found, is_open, retry))

-- What a call writes for this one, as long as it is open until the same time.
own-IsBlocked :
    (id until i : ℕ) (b : CircuitBreaker) (s : FaultTolerance)
    → i == id ≡ true
    → b.state ≡ CircuitBreakerState.open_
    → b.next_retry_time ≡ some until
    → s.config.enable_circuit_breaker ≡ true
    → IsBlocked id until (write_breaker i b s)
own-IsBlocked id until i b s same is_open retry on =
    let key : i ≡ id = (==_iff i id).0 same in
    (on, (b, rw key (lookup-insert_self id b s.circuit_breakers), is_open, retry))

-- A breaker that is open stays so, whatever is recorded.
success_keeps :
    (now until : ℕ) (b : CircuitBreaker)
    → b.state ≡ CircuitBreakerState.open_
    → b.next_retry_time ≡ some until
    → ((after_success now b).state ≡ CircuitBreakerState.open_)
      × ((after_success now b).next_retry_time ≡ some until)
success_keeps now until b is_open retry = rw is_open (refl, retry)

failure_keeps :
    (now until : ℕ) (c : FaultToleranceConfig) (b : CircuitBreaker)
    → b.state ≡ CircuitBreakerState.open_
    → b.next_retry_time ≡ some until
    → ((after_failure now c b).state ≡ CircuitBreakerState.open_)
      × ((after_failure now c b).next_retry_time ≡ some until)
failure_keeps now until c b is_open retry = rw is_open (refl, retry)

asked_early :
    (now until : ℕ) (b : CircuitBreaker)
    → b.state ≡ CircuitBreakerState.open_
    → b.next_retry_time ≡ some until
    → now < until
    → asked_breaker now b ≡ (false, b)
asked_early now until b is_open retry early =
    let later : leb until now ≡ false = ground arith in rw (is_open, retry, later) refl

-- The breaker that a call on the service finds.
found_breaker :
    (now id : ℕ) (b : CircuitBreaker) (s : FaultTolerance)
    → lookup id s.circuit_breakers ≡ some b
    → get_circuit_breaker now id s ≡ b
found_breaker now id b s h = rw h refl

pub chosen : {A : Type 0} {test : Bool} (x y : A) → test ≡ true → (if test then x else y) ≡ x
chosen x y h = rw h refl

pub requested :
    (now id : ℕ) (s : FaultTolerance)
    → s.config.enable_circuit_breaker ≡ true
    → (is_request_allowed now id s).1
      ≡ write_breaker id (asked_breaker now (get_circuit_breaker now id s)).1 s
unfolding is_request_allowed
requested now id s on = ap (λ (r : Bool × FaultTolerance). r.1) (chosen _ _ on)

step-IsBlocked :
    (id until : ℕ) (call : BreakerCall) (s : FaultTolerance)
    → IsQuiet id until call
    → IsBlocked id until s
    → IsBlocked id until (step call s)
unfolding record_success record_failure is_request_allowed reset_circuit_breaker
step-IsBlocked id until (succeeds now i) s q (on, (b, found, is_open, retry)) =
    elim (Bool-cases (i == id)) [
      | inr e ↦ other-IsBlocked id until i _ s e (on, (b, found, is_open, retry))
      | inl e ↦
          let same : i ≡ id = (==_iff i id).0 e in
          let here = found_breaker now i b s (ap (λ j. lookup j s.circuit_breakers) same ∙ found) in
          let kept = success_keeps now until b is_open retry in
          rw here (own-IsBlocked id until i (after_success now b) s e kept.0 kept.1 on)
    ]
step-IsBlocked id until (fails now i) s q (on, (b, found, is_open, retry)) =
    elim (Bool-cases (i == id)) [
      | inr e ↦ other-IsBlocked id until i _ s e (on, (b, found, is_open, retry))
      | inl e ↦
          let same : i ≡ id = (==_iff i id).0 e in
          let here = found_breaker now i b s (ap (λ j. lookup j s.circuit_breakers) same ∙ found) in
          let kept = failure_keeps now until s.config b is_open retry in
          rw here (own-IsBlocked id until i (after_failure now s.config b) s e kept.0 kept.1 on)
    ]
step-IsBlocked id until (requests now i) s q (on, (b, found, is_open, retry)) =
    subst (λ x. IsBlocked id until x) (sym (requested now i s on))
      (elim (Bool-cases (i == id)) [
        | inr e ↦ other-IsBlocked id until i _ s e (on, (b, found, is_open, retry))
        | inl e ↦
            let same : i ≡ id = (==_iff i id).0 e in
            let here =
              found_breaker now i b s (ap (λ j. lookup j s.circuit_breakers) same ∙ found) in
            rw (here, asked_early now until b is_open retry q)
              (own-IsBlocked id until i b s e is_open retry on)
      ])
step-IsBlocked id until (resets now i) s q v = other-IsBlocked id until i _ s q v
step-IsBlocked id until (configures c) s q (on, v) = (q, v)

refused :
    (id until now : ℕ) (s : FaultTolerance)
    → IsBlocked id until s
    → now < until
    → (is_request_allowed now id s).0 ≡ false
unfolding is_request_allowed
refused id until now s (on, (b, found, is_open, retry)) early =
    rw
      (
        on,
        is_request_allowed,
        found_breaker now id b s found,
        asked_early now until b is_open retry early,
      )
      refl

-- While a breaker is open until a time, no request of its service before that time passes, whatever
-- else is recorded, asked and configured in between, and it stays open. The service is not reset
-- and breakers are not disabled.
pub answers-IsBlocked :
    (id until : ℕ) (calls : List BreakerCall) (s : FaultTolerance)
    → All (IsQuiet id until) calls
    → IsBlocked id until s
    → All (λ answer. answer ≡ false) (answers id calls s) × IsBlocked id until (run calls s)
answers-IsBlocked id until [] s q v = (tt, v)
answers-IsBlocked id until (succeeds now i ∷ calls) s q v =
    answers-IsBlocked id until calls (record_success now i s) q.1
      (step-IsBlocked id until (succeeds now i) s tt v)
answers-IsBlocked id until (fails now i ∷ calls) s q v =
    answers-IsBlocked id until calls (record_failure now i s) q.1
      (step-IsBlocked id until (fails now i) s tt v)
answers-IsBlocked id until (resets now i ∷ calls) s q v =
    answers-IsBlocked id until calls (reset_circuit_breaker now i s) q.1
      (step-IsBlocked id until (resets now i) s q.0 v)
answers-IsBlocked id until (configures c ∷ calls) s q v =
    answers-IsBlocked id until calls (update_config (some c) s) q.1
      (step-IsBlocked id until (configures c) s q.0 v)
answers-IsBlocked id until (requests now i ∷ calls) s q v =
    let next = (is_request_allowed now i s).1 in
    let rest =
      answers-IsBlocked id until calls next q.1
        (step-IsBlocked id until (requests now i) s q.0 v) in
    elim (Bool-cases (i == id)) [
      | inr e ↦ rw e rest
      | inl e ↦
          let same : i ≡ id = (==_iff i id).0 e in
          let no = ap (λ j. (is_request_allowed now j s).0) same ∙ refused id until now s v q.0 in
          rw e ((no, rest.0), rest.1)
    ]
