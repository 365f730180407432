-- ===== src/Tolerance/Failover.antt =====
-- queue/queue-fault-tolerance.service.ts: failover targets, and the execution over them. The
-- operation is an argument: its answer by the number of the attempt and the target. So is the clock:
-- the time at which an attempt ends.
use swap_trade_backend.Common.{
  ℕ, zero, suc, ◌+◌, ◌==◌, leb, Bool, true, false, Option, none, some, List, [], ◌∷◌, ◌++◌, lookup,
  insert, nat_key, if◌then◌else◌, Throws, err, ok,
}
use swap_trade_backend.Tolerance.{FailoverTarget, FaultTolerance}

abbrev pub targets_or_none : Option (List FailoverTarget) → List FailoverTarget
targets_or_none none = []
targets_or_none (some ts) = ts

abbrev pub targets_of : ℕ → FaultTolerance → List FailoverTarget
targets_of service s = targets_or_none (lookup service s.failover_targets)

abbrev pub write_targets : ℕ → List FailoverTarget → FaultTolerance → FaultTolerance
write_targets service ts s = record s { failover_targets = insert service ts s.failover_targets }

-- `targets.find((t) => t.targetId === targetId)`, changed in place.
unfoldable pub change_target :
    ℕ → (FailoverTarget → FailoverTarget) → List FailoverTarget → Option (List FailoverTarget)
change_target id change [] = none
change_target id change (t ∷ ts) =
    let rest = change_target id change ts in
    if t.target_id == id
    then some (change t ∷ ts)
    else elim rest [ none ↦ none | some changed ↦ some (t ∷ changed) ]

-- One step of a stable sort.
unfoldable pub place_target : FailoverTarget → List FailoverTarget → List FailoverTarget
place_target t [] = t ∷ []
place_target t (u ∷ us) =
    let rest = place_target t us in if leb t.priority u.priority then t ∷ u ∷ us else u ∷ rest

-- `targets.sort((a, b) => a.priority - b.priority)`
unfoldable pub sort_targets : List FailoverTarget → List FailoverTarget
unfolding place_target
sort_targets [] = []
sort_targets (t ∷ ts) = place_target t (sort_targets ts)

abbrev pub reprioritised : ℕ → FailoverTarget → FailoverTarget
reprioritised priority t = record t { priority = priority; is_available = true }

abbrev pub new_target : ℕ → ℕ → ℕ → FailoverTarget
new_target now id priority = record {
  target_id = id;
  priority = priority;
  is_available = true;
  last_health_check = now;
  consecutive_failures = 0;
}

-- The target with its new priority, or a new one at the end.
abbrev pub registered : ℕ → ℕ → ℕ → List FailoverTarget → List FailoverTarget
registered now id priority ts = elim (change_target id (reprioritised priority) ts) [
  | some changed ↦ changed
  | none ↦ ts ++ new_target now id priority ∷ []
]

unfoldable pub register_failover_target : ℕ → ℕ → ℕ → ℕ → FaultTolerance → FaultTolerance
unfolding sort_targets
register_failover_target now service id priority s =
    write_targets service (sort_targets (registered now id priority (targets_of service s))) s

-- `splice(findIndex(...), 1)`
unfoldable pub drop_target : ℕ → List FailoverTarget → Option (List FailoverTarget)
drop_target id [] = none
drop_target id (t ∷ ts) =
    let rest = drop_target id ts in
    if t.target_id == id then some ts else elim rest [ none ↦ none | some left ↦ some (t ∷ left) ]

unfoldable pub unregister_failover_target : ℕ → ℕ → FaultTolerance → Bool × FaultTolerance
unfolding drop_target
unregister_failover_target service id s = elim (drop_target id (targets_of service s)) [
  | none ↦ (false, s)
  | some left ↦ (true, write_targets service left s)
]

unfoldable pub first_available : List FailoverTarget → Option FailoverTarget
first_available [] = none
first_available (t ∷ ts) = if t.is_available then some t else first_available ts

abbrev pub get_next_failover_target : ℕ → FaultTolerance → Option FailoverTarget
get_next_failover_target service s = first_available (targets_of service s)

abbrev pub unavailable : ℕ → FailoverTarget → FailoverTarget
unavailable now t = record t {
  is_available = false;
  consecutive_failures = t.consecutive_failures + 1;
  last_health_check = now;
}

abbrev pub available : ℕ → FailoverTarget → FailoverTarget
available now t = record t {
  is_available = true;
  consecutive_failures = 0;
  last_health_check = now;
}

unfoldable pub mark_target :
    (FailoverTarget → FailoverTarget) → ℕ → ℕ → FaultTolerance → FaultTolerance
unfolding change_target
mark_target change service id s = elim (change_target id change (targets_of service s)) [
  | none ↦ s
  | some changed ↦ write_targets service changed s
]

abbrev pub mark_target_unavailable : ℕ → ℕ → ℕ → FaultTolerance → FaultTolerance
mark_target_unavailable now = mark_target (unavailable now)

abbrev pub mark_target_available : ℕ → ℕ → ℕ → FaultTolerance → FaultTolerance
mark_target_available now = mark_target (available now)

module _ {E A : Type 0} where
  -- The loop, with so many attempts left: a result or the last error, if there was one.
  unfoldable pub try_targets :
      (ℕ → ℕ)
      → ℕ
      → (ℕ → ℕ → Throws E A)
      → ℕ
      → ℕ
      → Option E
      → FaultTolerance
      → Throws (Option E) A × FaultTolerance
  unfolding first_available mark_target
  try_targets clock service operation zero attempt last s = (err last, s)
  try_targets clock service operation (suc left) attempt last s =
      elim (get_next_failover_target service s) [
        | none ↦ (err last, s)
        | some target ↦ elim (operation attempt target.target_id) [
          | ok result ↦
              (ok result, mark_target_available (clock attempt) service target.target_id s)
          | err e ↦
              try_targets clock service operation left (attempt + 1) (some e)
                (mark_target_unavailable (clock attempt) service target.target_id s)
        ]
      ]

  abbrev pub answered : Throws E A → Throws (Option E) A
  answered (err e) = err (some e)
  answered (ok a) = ok a

  abbrev pub or_fallback : Option (Throws E A) → Throws (Option E) A → Throws (Option E) A
  or_fallback fallback (ok a) = ok a
  or_fallback none (err last) = err last
  or_fallback (some answer) (err last) = answered answer

  -- The fallback, where there is one, is used when no attempt succeeds. The error `none` says that
  -- there was no target to try.
  unfoldable pub execute_with_failover :
      (ℕ → ℕ)
      → ℕ
      → (ℕ → ℕ → Throws E A)
      → Option (Throws E A)
      → FaultTolerance
      → Throws (Option E) A × FaultTolerance
  unfolding try_targets
  execute_with_failover clock service operation fallback s =
      let tried = try_targets clock service operation s.config.max_failover_attempts 0 none s in
      if s.config.enable_failover
      then (or_fallback fallback tried.0, tried.1)
      else (answered (operation 0 service), s)
