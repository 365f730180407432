-- ===== src/Tolerance/Targets.antt =====
-- The target that is tried next.
use swap_trade_backend.Common.{
  ℕ, ◌≤◌, ◌≡◌, refl, sym, subst, ◌==◌, leb→le, Bool, true, false, inl, inr, Option, none, some,
  List, [], ◌∷◌, All, All-map, All-insert, Map, lookup, nat_key, if◌then◌else◌, Bool-cases,
  Option-cases, arith,
}
use swap_trade_backend.Tolerance.{FailoverTarget, FaultTolerance, FaultToleranceConfig}
use swap_trade_backend.Tolerance.Failover.{
  targets_or_none, targets_of, write_targets, change_target, sort_targets, register_failover_target,
  registered, drop_target, unregister_failover_target, first_available, get_next_failover_target,
  unavailable, available, mark_target, mark_target_unavailable, mark_target_available,
}
use swap_trade_backend.Tolerance.Recovery.{no_breakers}
use swap_trade_backend.Tolerance.Breakers.{chosen}
use swap_trade_backend.Tolerance.Priorities.{
  no_later, IsByPriority, sort_targets-IsByPriority, change_target-IsByPriority,
  drop_target-IsByPriority,
}

passed_over : {A : Type 0} {test : Bool} (x y : A) → test ≡ false → (if test then x else y) ≡ y
passed_over x y h = rw h refl

-- The answer for a list: an available target of least priority, or none if none is available.
abbrev pub IsLeast : List FailoverTarget → Option FailoverTarget → Type 0
IsLeast ts none = All (λ u. u.is_available ≡ false) ts
IsLeast ts (some t) =
    (t.is_available ≡ true) × All (λ u. u.is_available ≡ true → t.priority ≤ u.priority) ts

first_here :
    (t : FailoverTarget) (ts : List FailoverTarget)
    → t.is_available ≡ true
    → first_available (t ∷ ts) ≡ some t
unfolding first_available
first_here t ts h = chosen _ _ h

first_later :
    (t : FailoverTarget) (ts : List FailoverTarget)
    → t.is_available ≡ false
    → first_available (t ∷ ts) ≡ first_available ts
unfolding first_available
first_later t ts h = passed_over _ _ h

-- A target in front that is not available.
IsLeast-unavailable :
    (t : FailoverTarget) (ts : List FailoverTarget) (o : Option FailoverTarget)
    → t.is_available ≡ false
    → IsLeast ts o
    → IsLeast (t ∷ ts) o
IsLeast-unavailable t ts none h a = (h, a)
IsLeast-unavailable t ts (some u) h a = (a.0, ((λ k. let x = h in cc), a.1))

first_available-IsLeast :
    (ts : List FailoverTarget) → IsByPriority ts → IsLeast ts (first_available ts)
unfolding first_available
first_available-IsLeast [] s = tt
first_available-IsLeast (t ∷ ts) s = elim (Bool-cases t.is_available) [
  | inl e ↦
      subst (λ o. IsLeast (t ∷ ts) o) (sym (first_here t ts e))
        (
          e,
          (
            (λ k. omega arith),
            All-map (λ u. no_later t u ≡ true)
                (λ u. u.is_available ≡ true → t.priority ≤ u.priority)
                (λ u h k. leb→le t.priority u.priority h) ts s.0,
          ),
        )
  | inr e ↦
      subst (λ o. IsLeast (t ∷ ts) o) (sym (first_later t ts e))
        (IsLeast-unavailable t ts (first_available ts) e (first_available-IsLeast ts s.1))
]

-- The calls on targets, with the time where they use it.
pub data TargetCall : Type 0 where
  registers : ℕ → ℕ → ℕ → ℕ → TargetCall
  unregisters : ℕ → ℕ → TargetCall
  marks_unavailable marks_available : ℕ → ℕ → ℕ → TargetCall

abbrev pub step_targets : TargetCall → FaultTolerance → FaultTolerance
step_targets (registers now service id priority) s =
    register_failover_target now service id priority s
step_targets (unregisters service id) s = (unregister_failover_target service id s).1
step_targets (marks_unavailable now service id) s = mark_target_unavailable now service id s
step_targets (marks_available now service id) s = mark_target_available now service id s

abbrev pub run_targets : List TargetCall → FaultTolerance → FaultTolerance
run_targets [] s = s
run_targets (call ∷ calls) s = run_targets calls (step_targets call s)

-- The targets of every service stand by their priority.
abbrev AllByPriority : FaultTolerance → Type 0
AllByPriority s = All (λ row. IsByPriority row.1) s.failover_targets

found-IsByPriority :
    (service : ℕ) (m : Map ℕ (List FailoverTarget))
    → All (λ row. IsByPriority row.1) m
    → IsByPriority (targets_or_none (lookup service m))
found-IsByPriority service [] a = tt
found-IsByPriority service ((i, ts) ∷ m) a = elim (Bool-cases (service == i)) [
  | inl e ↦ rw e (a.0)
  | inr e ↦ rw e (found-IsByPriority service m a.1)
]

written-AllByPriority :
    (service : ℕ) (ts : List FailoverTarget) (s : FaultTolerance)
    → IsByPriority ts
    → AllByPriority s
    → AllByPriority (write_targets service ts s)
written-AllByPriority service ts s h a =
    All-insert (λ row. IsByPriority row.1) service ts s.failover_targets h a

mark_target-AllByPriority :
    (change : FailoverTarget → FailoverTarget) (service id : ℕ) (s : FaultTolerance)
    → ((t : FailoverTarget) → (change t).priority ≡ t.priority)
    → AllByPriority s
    → AllByPriority (mark_target change service id s)
unfolding mark_target
mark_target-AllByPriority change service id s same a =
    let ts = targets_of service s in
    elim (Option-cases (change_target id change ts)) [
      | inl e ↦ rw (e, mark_target) a
      | inr (changed, e) ↦
          rw (e, mark_target)
            (written-AllByPriority service changed s
              (change_target-IsByPriority id change ts changed same
                (found-IsByPriority service s.failover_targets a) e)
              a)
    ]

step_targets-AllByPriority :
    (call : TargetCall) (s : FaultTolerance) → AllByPriority s → AllByPriority (step_targets call s)
unfolding register_failover_target unregister_failover_target
step_targets-AllByPriority (registers now service id priority) s a =
    let ts = registered now id priority (targets_of service s) in
    written-AllByPriority service (sort_targets ts) s (sort_targets-IsByPriority ts) a
step_targets-AllByPriority (unregisters service id) s a =
    let ts = targets_of service s in
    elim (Option-cases (drop_target id ts)) [
      | inl e ↦ rw (e, step_targets, unregister_failover_target) a
      | inr (left, e) ↦
          rw (e, step_targets, unregister_failover_target)
            (written-AllByPriority service left s
              (drop_target-IsByPriority id ts left (found-IsByPriority service s.failover_targets a)
                e)
              a)
    ]
step_targets-AllByPriority (marks_unavailable now service id) s a =
    mark_target-AllByPriority (unavailable now) service id s (λ t. refl) a
step_targets-AllByPriority (marks_available now service id) s a =
    mark_target-AllByPriority (available now) service id s (λ t. refl) a

run_targets-AllByPriority :
    (calls : List TargetCall) (s : FaultTolerance)
    → AllByPriority s
    → AllByPriority (run_targets calls s)
run_targets-AllByPriority [] s a = a
run_targets-AllByPriority (call ∷ calls) s a =
    run_targets-AllByPriority calls (step_targets call s) (step_targets-AllByPriority call s a)

-- Over any calls from a service without targets, the next target of a service is available and has
-- the least priority of those that are; there is none only when none is available.
pub run_targets-IsLeast :
    (config : FaultToleranceConfig) (calls : List TargetCall) (service : ℕ)
    → let s = run_targets calls (no_breakers config) in
      IsLeast (targets_of service s) (get_next_failover_target service s)
run_targets-IsLeast config calls service =
    let s = run_targets calls (no_breakers config) in
    first_available-IsLeast (targets_of service s) (
      found-IsByPriority service s.failover_targets
        (run_targets-AllByPriority calls (no_breakers config) tt))
