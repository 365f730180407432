-- ===== src/Tolerance/Recovery.antt =====
-- A breaker that has opened lets requests through again.
use swap_trade_backend.Common.{
  ℕ, ◌+◌, ◌≤◌, ◌≡◌, refl, sym, ap, subst, ◌∙◌, Bool, true, inl, inr, Option, some, List, [], ◌∷◌,
  All, All-insert, Map, lookup, nat_key, lookup-insert_self, Bool-cases, Option-cases, arith, ◌==◌,
  ◌⊎◌,
}
use swap_trade_backend.Tolerance.{
  CircuitBreakerState, CircuitBreaker, FaultToleranceConfig, FaultTolerance, get_circuit_breaker,
  breaker_or_new, after_success, after_failure, asked_breaker, record_success, record_failure,
  is_request_allowed, reset_circuit_breaker, write_breaker, is_exceeded, is_due,
}
use swap_trade_backend.Tolerance.Breakers.{
  BreakerCall, succeeds, fails, requests, resets, configures, step, run, requested, chosen,
}

abbrev pub no_breakers : FaultToleranceConfig → FaultTolerance
no_breakers config = record {
  config = config;
  circuit_breakers = [];
  failover_targets = [];
  retry_attempts = [];
}

-- An open breaker knows when it is to be tried again.
abbrev pub StateHasRetry : CircuitBreakerState → Option ℕ → Type 0
StateHasRetry CircuitBreakerState.open_ retry = (r : ℕ) × (retry ≡ some r)
StateHasRetry _ retry = Unit {0}

abbrev pub HasRetry : CircuitBreaker → Type 0
HasRetry b = StateHasRetry b.state b.next_retry_time

abbrev AllRetry : Map ℕ CircuitBreaker → Type 0
AllRetry = All λ row. HasRetry row.1

CircuitBreakerState-cases :
    (s : CircuitBreakerState)
    → (s ≡ CircuitBreakerState.closed)
      ⊎ ((s ≡ CircuitBreakerState.open_) ⊎ (s ≡ CircuitBreakerState.half_open))
CircuitBreakerState-cases CircuitBreakerState.closed = inl refl
CircuitBreakerState-cases CircuitBreakerState.open_ = inr (inl refl)
CircuitBreakerState-cases CircuitBreakerState.half_open = inr (inr refl)

retry_of :
    (b : CircuitBreaker)
    → b.state ≡ CircuitBreakerState.open_
    → HasRetry b
    → (r : ℕ) × (b.next_retry_time ≡ some r)
retry_of b is_open h = subst (λ s. StateHasRetry s b.next_retry_time) is_open h

after_success-HasRetry :
    (now : ℕ) (b : CircuitBreaker) → HasRetry b → HasRetry (after_success now b)
after_success-HasRetry now b h = elim (CircuitBreakerState-cases b.state) [
  | inl e ↦ rw e tt
  | inr (inl e) ↦ let r = retry_of b e h in rw e r
  | inr (inr e) ↦ rw e tt
]

after_failure-HasRetry :
    (now : ℕ) (c : FaultToleranceConfig) (b : CircuitBreaker)
    → HasRetry b
    → HasRetry (after_failure now c b)
after_failure-HasRetry now c b h =
    let counted = record b {
      failure_count = b.failure_count + 1;
      success_count = 0;
      last_failure_time = some now;
    } in
    elim (CircuitBreakerState-cases b.state) [
      | inl e ↦ elim (Bool-cases (is_exceeded c counted)) [
        | inl f ↦ rw (e, f) (now + c.reset_timeout, refl)
        | inr f ↦ rw (e, f) tt
      ]
      | inr (inl e) ↦ let r = retry_of b e h in rw e r
      | inr (inr e) ↦ rw e (now + c.reset_timeout, refl)
    ]

asked_breaker-HasRetry :
    (now : ℕ) (b : CircuitBreaker) → HasRetry b → HasRetry (asked_breaker now b).1
asked_breaker-HasRetry now b h = elim (CircuitBreakerState-cases b.state) [
  | inl e ↦ rw e tt
  | inr (inl e) ↦
      let r = retry_of b e h in
      elim (Bool-cases (is_due now b.next_retry_time)) [
        | inl f ↦ rw (e, f) tt
        | inr f ↦ rw (e, f) r
      ]
  | inr (inr e) ↦ rw e tt
]

found-HasRetry :
    (now id : ℕ) (m : Map ℕ CircuitBreaker)
    → AllRetry m
    → HasRetry (breaker_or_new now (lookup id m))
found-HasRetry now id [] a = tt
found-HasRetry now id ((i, b) ∷ m) a = elim (Bool-cases (id == i)) [
  | inl e ↦ rw e (a.0)
  | inr e ↦ rw e (found-HasRetry now id m a.1)
]

written-AllRetry :
    (id : ℕ) (b : CircuitBreaker) (s : FaultTolerance)
    → HasRetry b
    → AllRetry s.circuit_breakers
    → AllRetry (write_breaker id b s).circuit_breakers
written-AllRetry id b s h a = All-insert (λ row. HasRetry row.1) id b s.circuit_breakers h a

step-AllRetry :
    (call : BreakerCall) (s : FaultTolerance)
    → AllRetry s.circuit_breakers
    → AllRetry (step call s).circuit_breakers
unfolding record_success record_failure is_request_allowed reset_circuit_breaker
step-AllRetry (succeeds now id) s a =
    let b = get_circuit_breaker now id s in
    written-AllRetry id (after_success now b) s
      (after_success-HasRetry now b (found-HasRetry now id s.circuit_breakers a)) a
step-AllRetry (fails now id) s a =
    let b = get_circuit_breaker now id s in
    written-AllRetry id (after_failure now s.config b) s
      (after_failure-HasRetry now s.config b (found-HasRetry now id s.circuit_breakers a)) a
step-AllRetry (requests now id) s a = elim (Bool-cases s.config.enable_circuit_breaker) [
  | inr e ↦ rw (e, is_request_allowed) a
  | inl e ↦
      let b = get_circuit_breaker now id s in
      subst (λ (x : FaultTolerance). AllRetry x.circuit_breakers) (sym (requested now id s e))
        (written-AllRetry id (asked_breaker now b).1 s
          (asked_breaker-HasRetry now b (found-HasRetry now id s.circuit_breakers a)) a)
]
step-AllRetry (resets now id) s a = written-AllRetry id _ s tt a
step-AllRetry (configures c) s a = a

run-AllRetry :
    (calls : List BreakerCall) (s : FaultTolerance)
    → AllRetry s.circuit_breakers
    → AllRetry (run calls s).circuit_breakers
run-AllRetry [] s a = a
run-AllRetry (call ∷ calls) s a = run-AllRetry calls (step call s) (step-AllRetry call s a)

-- A request that comes late enough passes, and a success after it closes the breaker.
asked_late :
    (b : CircuitBreaker)
    → HasRetry b
    → (r : ℕ) × ((now : ℕ)
        → r ≤ now
        → ((asked_breaker now b).0 ≡ true)
          × ((later : ℕ)
              → (after_success later (asked_breaker now b).1).state ≡ CircuitBreakerState.closed))
asked_late b h = elim (CircuitBreakerState-cases b.state) [
  | inl e ↦ (0, λ now le. (rw e refl, λ later. rw e refl))
  | inr (inr e) ↦ (0, λ now le. (rw e refl, λ later. rw e refl))
  | inr (inl e) ↦
      let (r, retry) = retry_of b e h in
      (
        r,
        λ now le.
            let due : is_due now b.next_retry_time ≡ true = rw retry (ground arith) in
            (rw (e, due) refl, λ later. rw (e, due) refl),
      )
]

written_found :
    (now id : ℕ) (b : CircuitBreaker) (s : FaultTolerance)
    → get_circuit_breaker now id (write_breaker id b s) ≡ b
written_found now id b s = rw (lookup-insert_self id b s.circuit_breakers) refl

-- A request that passes with a breaker that a success would close.
passes_and_closes :
    (now id : ℕ) (s : FaultTolerance)
    → s.config.enable_circuit_breaker ≡ true
    → (asked_breaker now (get_circuit_breaker now id s)).0 ≡ true
    → ((later : ℕ)
        → (after_success later (asked_breaker now (get_circuit_breaker now id s)).1).state
          ≡ CircuitBreakerState.closed)
    → ((is_request_allowed now id s).0 ≡ true)
      × ((later : ℕ)
          → (get_circuit_breaker later id
              (record_success later id (is_request_allowed now id s).1)).state
            ≡ CircuitBreakerState.closed)
unfolding record_success is_request_allowed
passes_and_closes now id s on passes closes =
    let b = get_circuit_breaker now id s in
    let next = write_breaker id (asked_breaker now b).1 s in
    let same : is_request_allowed now id s ≡ ((asked_breaker now b).0, next) = chosen _ _ on in
    (
      ap (λ (r : Bool × FaultTolerance). r.0) same ∙ passes,
      λ later.
          subst
            (λ (x : FaultTolerance).
              (get_circuit_breaker later id (record_success later id x)).state
              ≡ CircuitBreakerState.closed)
            (sym (requested now id s on))
            (let found = written_found later id (asked_breaker now b).1 s in
              let done = after_success later (get_circuit_breaker later id next) in
              ap (λ (x : CircuitBreaker). x.state) (written_found later id done next)
              ∙ ap (λ (x : CircuitBreaker). (after_success later x).state) found
              ∙ closes later),
    )

-- Over any calls from a service without breakers, if breakers are enabled in the end: from some
-- time on, every request of a service passes, and if what it asked for succeeds, the breaker is
-- closed.
pub run-recovers :
    (config : FaultToleranceConfig) (calls : List BreakerCall) (id : ℕ)
    → let s = run calls (no_breakers config) in
      s.config.enable_circuit_breaker ≡ true
      → (r : ℕ) × ((now : ℕ)
          → r ≤ now
          → ((is_request_allowed now id s).0 ≡ true)
            × ((later : ℕ)
                → (get_circuit_breaker later id
                    (record_success later id (is_request_allowed now id s).1)).state
                  ≡ CircuitBreakerState.closed))
unfolding record_success is_request_allowed
run-recovers config calls id on =
    let s = run calls (no_breakers config) in
    let all = run-AllRetry calls (no_breakers config) tt in
    elim (Option-cases (lookup id s.circuit_breakers)) [
      | inl e ↦ (
        0,
        λ now le.
            passes_and_closes now id s on (ap (λ o. (asked_breaker now (breaker_or_new now o)).0) e)
              (λ later.
                ap (λ o. (after_success later (asked_breaker now (breaker_or_new now o)).1).state)
                  e),
      )
      | inr (b, e) ↦
          let known =
            subst (λ o. HasRetry (breaker_or_new 0 o)) e
              (found-HasRetry 0 id s.circuit_breakers all) in
          let (r, late) = asked_late b known in
          (
            r,
            λ now le.
                let (passes, closes) = late now le in
                passes_and_closes now id s on
                  (ap (λ o. (asked_breaker now (breaker_or_new now o)).0) e ∙ passes)
                  (λ later.
                    ap
                      (λ o.
                        (after_success later (asked_breaker now (breaker_or_new now o)).1).state)
                      e
                    ∙ closes later),
          )
    ]
