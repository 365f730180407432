-- ===== src/Tolerance/Priorities.antt =====
-- Lists of targets that stand by their priority.
use swap_trade_backend.Common.{
  ℕ, ◌≡◌, ap, subst, ◌∙◌, ◌==◌, leb, Bool, true, inl, inr, some, List, [], ◌∷◌, All, All-map,
  IsSorted, nat_key, Bool-cases, Option-cases, arith,
}
use swap_trade_backend.Tolerance.{FailoverTarget}
use swap_trade_backend.Tolerance.Failover.{change_target, place_target, sort_targets, drop_target}

abbrev pub no_later : FailoverTarget → FailoverTarget → Bool
no_later t u = leb t.priority u.priority

abbrev pub IsByPriority : List FailoverTarget → Type 0
IsByPriority = IsSorted no_later

place_target-All :
    (P : FailoverTarget → Type 0) (t : FailoverTarget) (us : List FailoverTarget)
    → P t
    → All P us
    → All P (place_target t us)
unfolding place_target
place_target-All P t [] p a = (p, tt)
place_target-All P t (u ∷ us) p a = elim (Bool-cases (leb t.priority u.priority)) [
  | inl e ↦ rw (e, place_target) (p, a)
  | inr e ↦ rw (e, place_target) (a.0, place_target-All P t us p a.1)
]

place_target-IsByPriority :
    (t : FailoverTarget) (us : List FailoverTarget)
    → IsByPriority us
    → IsByPriority (place_target t us)
unfolding place_target
place_target-IsByPriority t [] s = (tt, tt)
place_target-IsByPriority t (u ∷ us) s = elim (Bool-cases (leb t.priority u.priority)) [
  | inl e ↦
      rw (e, place_target)
        (
          (
            e,
            All-map (λ v. no_later u v ≡ true) (λ v. no_later t v ≡ true) (λ v h. ground arith) us
                s.0,
          ),
          s,
        )
  | inr e ↦
      rw (e, place_target)
        (
          place_target-All (λ v. no_later u v ≡ true) t us (ground arith) s.0,
          place_target-IsByPriority t us s.1,
        )
]

pub sort_targets-IsByPriority : (ts : List FailoverTarget) → IsByPriority (sort_targets ts)
unfolding sort_targets
sort_targets-IsByPriority [] = tt
sort_targets-IsByPriority (t ∷ ts) =
    place_target-IsByPriority t (sort_targets ts) (sort_targets-IsByPriority ts)

-- A change that keeps the priority.
changed-All :
    (u : FailoverTarget) (id : ℕ) (change : FailoverTarget → FailoverTarget)
    (ts changed : List FailoverTarget)
    → ((t : FailoverTarget) → (change t).priority ≡ t.priority)
    → All (λ v. no_later u v ≡ true) ts
    → change_target id change ts ≡ some changed
    → All (λ v. no_later u v ≡ true) changed
unfolding change_target
changed-All u id change [] changed same a h = cc
changed-All u id change (t ∷ ts) changed same a h = elim (Bool-cases (t.target_id == id)) [
  | inl e ↦
      let x = rw (e, change_target) at h in
      let result : change t ∷ ts ≡ changed = cc in
      subst (λ l. All (λ v. no_later u v ≡ true) l) result
        (ap (λ p. leb u.priority p) (same t) ∙ a.0, a.1)
  | inr e ↦ elim (Option-cases (change_target id change ts)) [
    | inl f ↦ let x = rw (e, f, change_target) at h in cc
    | inr (rest, f) ↦
        let x = rw (e, f, change_target) at h in
        let result : t ∷ rest ≡ changed = cc in
        subst (λ l. All (λ v. no_later u v ≡ true) l) result
          (a.0, changed-All u id change ts rest same a.1 f)
  ]
]

pub change_target-IsByPriority :
    (id : ℕ) (change : FailoverTarget → FailoverTarget) (ts changed : List FailoverTarget)
    → ((t : FailoverTarget) → (change t).priority ≡ t.priority)
    → IsByPriority ts
    → change_target id change ts ≡ some changed
    → IsByPriority changed
unfolding change_target
change_target-IsByPriority id change [] changed same s h = cc
change_target-IsByPriority id change (t ∷ ts) changed same s h =
    elim (Bool-cases (t.target_id == id)) [
      | inl e ↦
          let x = rw (e, change_target) at h in
          let result : change t ∷ ts ≡ changed = cc in
          subst IsByPriority result (
            All-map (λ v. no_later t v ≡ true) (λ v. no_later (change t) v ≡ true)
                (λ v k. ap (λ p. leb p v.priority) (same t) ∙ k) ts s.0,
            s.1,
          )
      | inr e ↦ elim (Option-cases (change_target id change ts)) [
        | inl f ↦ let x = rw (e, f, change_target) at h in cc
        | inr (rest, f) ↦
            let x = rw (e, f, change_target) at h in
            let result : t ∷ rest ≡ changed = cc in
            subst IsByPriority result (
              changed-All t id change ts rest same s.0 f,
              change_target-IsByPriority id change ts rest same s.1 f,
            )
      ]
    ]

dropped-All :
    (P : FailoverTarget → Type 0) (id : ℕ) (ts left : List FailoverTarget)
    → All P ts
    → drop_target id ts ≡ some left
    → All P left
unfolding drop_target
dropped-All P id [] left a h = cc
dropped-All P id (t ∷ ts) left a h = elim (Bool-cases (t.target_id == id)) [
  | inl e ↦
      let x = rw (e, drop_target) at h in let result : ts ≡ left = cc in subst (All P) result a.1
  | inr e ↦ elim (Option-cases (drop_target id ts)) [
    | inl f ↦ let x = rw (e, f, drop_target) at h in cc
    | inr (rest, f) ↦
        let x = rw (e, f, drop_target) at h in
        let result : t ∷ rest ≡ left = cc in
        subst (All P) result (a.0, dropped-All P id ts rest a.1 f)
  ]
]

pub drop_target-IsByPriority :
    (id : ℕ) (ts left : List FailoverTarget)
    → IsByPriority ts
    → drop_target id ts ≡ some left
    → IsByPriority left
unfolding drop_target
drop_target-IsByPriority id [] left s h = cc
drop_target-IsByPriority id (t ∷ ts) left s h = elim (Bool-cases (t.target_id == id)) [
  | inl e ↦
      let x = rw (e, drop_target) at h in
      let result : ts ≡ left = cc in subst IsByPriority result s.1
  | inr e ↦ elim (Option-cases (drop_target id ts)) [
    | inl f ↦ let x = rw (e, f, drop_target) at h in cc
    | inr (rest, f) ↦
        let x = rw (e, f, drop_target) at h in
        let result : t ∷ rest ≡ left = cc in
        subst IsByPriority result (
          dropped-All (λ v. no_later t v ≡ true) id ts rest s.0 f,
          drop_target-IsByPriority id ts rest s.1 f,
        )
  ]
]
