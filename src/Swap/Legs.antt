-- ===== src/Swap/Legs.antt =====
-- What a saga quotes, and what it does to the balances when it fails.
use swap_trade_backend.Common.{
  ℕ, ◌+◌, ◌≡◌, refl, ap, subst, ◌∙◌, inl, inr, List, [], ◌∷◌, ◌++◌, insert, nat_key, pair_key,
  Throws, err, ok, Throws-cases, All, map,
}
use swap_trade_backend.Common.{Number}
use swap_trade_backend.Swap.{SwapHistory, Db, World, Cache, Problem}
use swap_trade_backend.Swap.Pricing.{get_quote}
use swap_trade_backend.Swap.Settled.{get_quote_db}
use swap_trade_backend.Swap.Settlement.{update_swap, within, settle}
use swap_trade_backend.Swap.Saga.{
  StepStatus, SagaStep, quote_legs, record_of, save_records, mark_started, run_legs, to_compensate,
  compensate, run_saga, saga_result, execute_multi_leg_swap,
}
use swap_trade_backend.Swap.Refunds.{refunds, IsAborted, throws, settles, rollback_all-refunds}

abbrev pub backwards : List ℕ → List ℕ
backwards [] = []
backwards (x ∷ xs) = backwards xs ++ x ∷ []

module _ {F : Type 0} ⦃n : Number F⦄ where
  -- Steps of which none is completed.
  abbrev IsPending : List (SagaStep F) → Type 0
  IsPending = All λ s. s.status ≡ StepStatus.pending

  to_compensate_pending : (steps : List (SagaStep F)) → IsPending steps → to_compensate steps ≡ []
  to_compensate_pending [] a = refl
  to_compensate_pending (s ∷ steps) a = rw (a.0) (to_compensate_pending steps a.1)

  run_legs-IsAborted :
      (cache : Cache F) (steps : List (SagaStep F)) (w : World F) (p : Problem)
      → IsPending steps
      → (run_legs cache steps w).0.0 ≡ err p
      → (settled : List ℕ) × IsAborted cache mark_started p settled (map (λ s. s.swap_id) steps) w
        × (to_compensate (run_legs cache steps w).0.1 ≡ backwards settled)
  unfolding run_legs
  run_legs-IsAborted cache [] w p a h = cc
  run_legs-IsAborted cache (s ∷ steps) w p a h =
      let tried = settle cache s.swap_id (within (update_swap s.swap_id mark_started) w) in
      let ids = map (λ s. s.swap_id) steps in
      elim (Throws-cases tried.0) [
        | inl (q, e) ↦
            let same : q ≡ p = (let x = rw (e, run_legs) at h in cc) in
            (
              [],
              throws s.swap_id ids w (subst (λ x. tried.0 ≡ err x) same e),
              rw (e, run_legs) (to_compensate_pending (s ∷ steps) a),
            )
        | inr (t, e) ↦
            let x = rw (e, run_legs) at h in
            let (settled, aborted, all) = run_legs-IsAborted cache steps tried.1 p a.1 x in
            (
              s.swap_id ∷ settled,
              settles s.swap_id settled ids w t e aborted,
              rw (e, run_legs) (ap (λ l. l ++ s.swap_id ∷ []) all),
            )
      ]

  -- One leg after the other along the route, each on what the one before was quoted.
  abbrev pub IsQuoted : (ℕ → ℕ) → ℕ → ℕ → List ℕ → F → List (SagaStep F) → Type 0
  IsQuoted uuid i from [] amount [] = Unit {0}
  IsQuoted uuid i from (to ∷ route) amount (s ∷ steps) =
      (s.swap_id ≡ uuid i)
      × (s.from_asset ≡ from)
      × (s.to_asset ≡ to)
      × (s.amount_in ≡ amount)
      × (s.status ≡ StepStatus.pending)
      × IsQuoted uuid (i + 1) to route s.quote.amount_out steps
  IsQuoted _ _ _ _ _ _ = ⊥

  IsQuoted-IsPending :
      (uuid : ℕ → ℕ) (i from : ℕ) (route : List ℕ) (amount : F) (steps : List (SagaStep F))
      → IsQuoted uuid i from route amount steps
      → IsPending steps
  IsQuoted-IsPending uuid i from [] amount [] q = tt
  IsQuoted-IsPending uuid i from (to ∷ route) amount (s ∷ steps) (_, _, _, _, e, rest) =
      (e, IsQuoted-IsPending uuid (i + 1) to route s.quote.amount_out steps rest)
  IsQuoted-IsPending uuid i from [] amount (s ∷ steps) q = absurd q
  IsQuoted-IsPending uuid i from (to ∷ route) amount [] q = absurd q

  -- Quoting changes no table, and what it returns is one leg for each hop of the route.
  abbrev QuotedOrNot :
      (ℕ → ℕ) → ℕ → ℕ → List ℕ → F → World F → Throws Problem (List (SagaStep F)) × World F → Type 0
  QuotedOrNot uuid i from route amount w (err p, after) = after.db ≡ w.db
  QuotedOrNot uuid i from route amount w (ok steps, after) =
      (after.db ≡ w.db) × IsQuoted uuid i from route amount steps

  pub quote_legs-IsQuoted :
      (cache : Cache F) (uuid : ℕ → ℕ) (i from : ℕ) (route : List ℕ) (amount : F) (w : World F)
      → QuotedOrNot uuid i from route amount w (quote_legs cache uuid i from route amount w)
  unfolding quote_legs
  quote_legs-IsQuoted cache uuid i from [] amount w = (refl, tt)
  quote_legs-IsQuoted cache uuid i from (to ∷ route) amount w =
      let asked = get_quote cache from to amount w in
      let same = get_quote_db cache from to amount w in
      elim (Throws-cases asked.0) [
        | inl (p, e) ↦ rw (e, quote_legs) same
        | inr (q, e) ↦
            let rest = quote_legs cache uuid (i + 1) to route q.amount_out asked.1 in
            let later = quote_legs-IsQuoted cache uuid (i + 1) to route q.amount_out asked.1 in
            elim (Throws-cases rest.0) [
              | inl (p, f) ↦
                  rw (e, f, quote_legs) (let x = rw (f, QuotedOrNot) at later in x ∙ same)
              | inr (steps, f) ↦
                  let x = rw (f, QuotedOrNot) at later in
                  rw (e, f, quote_legs) (x.0 ∙ same, (refl, refl, refl, refl, refl, x.1))
            ]
      ]

  saga_result_other :
      (batch_id : ℕ) (steps : List (SagaStep F)) (p : Problem)
      → saga_result batch_id steps ≡ err (Problem.multi_leg_failed p)
      → ⊥
  saga_result_other batch_id [] p h = cc
  saga_result_other batch_id (s ∷ steps) p h = cc

  run_saga-refunds :
      (cache : Cache F) (batch_id : ℕ) (steps : List (SagaStep F)) (w : World F) (p : Problem)
      → IsPending steps
      → (run_saga cache batch_id steps w).0 ≡ err (Problem.multi_leg_failed p)
      → (settled : List ℕ) × IsAborted cache mark_started p settled (map (λ s. s.swap_id) steps) w
        × ((run_saga cache batch_id steps w).1.db.balances
            ≡ refunds w.db (backwards settled) w.db.balances)
  unfolding run_saga compensate
  run_saga-refunds cache batch_id steps w p a h =
      let r = run_legs cache steps w in
      elim (Throws-cases r.0.0) [
        | inr (t, e) ↦
            let x = rw (e, run_saga) at h in absurd (saga_result_other batch_id r.0.1 p x)
        | inl (q, e) ↦
            let same : q ≡ p = (let x = rw (e, run_saga) at h in cc) in
            let (settled, aborted, all) =
              run_legs-IsAborted cache steps w p a (subst (λ x. r.0.0 ≡ err x) same e) in
            (
              settled,
              aborted,
              rw (e, run_saga, compensate)
                  (rollback_all-refunds (to_compensate r.0.1) w.db w.db (refl, λ i. refl)
                    ∙ ap (λ l. refunds w.db l w.db.balances) all),
            )
      ]

  save_records_balances :
      (rows : List (SwapHistory F)) (db : Db F) → (save_records rows db).balances ≡ db.balances
  save_records_balances [] db = refl
  save_records_balances (s ∷ rows) db =
      save_records_balances rows (record db { swaps = insert s.id s db.swaps })

  -- The rows of a saga, and the world in which its legs run.
  abbrev pub with_rows : ℕ → F → ℕ → List ℕ → List (SagaStep F) → World F → World F
  with_rows user tolerance batch_id route steps w =
      within (save_records (map (record_of user tolerance batch_id route) steps)) w

  -- A saga whose route could be quoted, with a leg for each hop on what the leg before was
  -- quoted, and that then fails: it has settled some of its legs, in order, and stopped at one
  -- that throws. The balances afterwards are those from before the saga with the amount of each
  -- settled leg added to the balance it was to be taken from.
  pub execute_multi_leg_swap-refunds :
      (cache : Cache F) (uuid : ℕ → ℕ) (user a b : ℕ) (route : List ℕ) (amount tolerance : F)
      (batch_id : ℕ) (w : World F) (steps : List (SagaStep F)) (p : Problem)
      → (quote_legs cache uuid 0 a (b ∷ route) amount w).0 ≡ ok steps
      → (execute_multi_leg_swap cache uuid user (a ∷ b ∷ route) amount tolerance batch_id w).0
        ≡ err (Problem.multi_leg_failed p)
      → let asked = (quote_legs cache uuid 0 a (b ∷ route) amount w).1 in
        let begun = with_rows user tolerance batch_id (a ∷ b ∷ route) steps asked in
        IsQuoted uuid 0 a (b ∷ route) amount steps
        × ((settled : List ℕ) × IsAborted cache mark_started p settled
              (map (λ s. s.swap_id) steps)
              begun
            × ((execute_multi_leg_swap cache uuid user
                  (a ∷ b ∷ route)
                  amount
                  tolerance
                  batch_id
                  w).1.db.balances
                ≡ refunds begun.db (backwards settled) w.db.balances))
  unfolding execute_multi_leg_swap
  execute_multi_leg_swap-refunds cache uuid user a b route amount tolerance batch_id w steps p e h =
      let legs = quote_legs cache uuid 0 a (b ∷ route) amount w in
      let begun = with_rows user tolerance batch_id (a ∷ b ∷ route) steps legs.1 in
      let quoted : QuotedOrNot uuid 0 a (b ∷ route) amount w legs =
        quote_legs-IsQuoted cache uuid 0 a (b ∷ route) amount w in
      let (same, chain) = rw (e, QuotedOrNot) at quoted in
      let failed = rw (e, execute_multi_leg_swap) at h in
      let (settled, aborted, all) =
        run_saga-refunds cache batch_id steps begun p
          (IsQuoted-IsPending uuid 0 a (b ∷ route) amount steps chain) failed in
      let rows = map (record_of user tolerance batch_id (a ∷ b ∷ route)) steps in
      let before : begun.db.balances ≡ w.db.balances =
        save_records_balances rows legs.1.db ∙ ap (λ d. d.balances) same in
      (
        chain,
        (
          settled,
          aborted,
          rw (e, execute_multi_leg_swap)
              (all ∙ ap (λ x. refunds begun.db (backwards settled) x) before),
        ),
      )
