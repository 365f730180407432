-- ===== src/Swap/Batch.antt =====
-- swap/swap-batch.processor.ts: one swap alone, an atomic batch and a best-effort batch. A
-- transaction that fails puts the tables back; the pools and the cache are outside of it. The swaps
-- of a best-effort batch, which `Promise.allSettled` starts together, are settled one after another.
use swap_trade_backend.Common.{ℕ, not, some, List, [], ◌∷◌, ◌++◌, keep_if, nat_key, Throws, err, ok}
use swap_trade_backend.Common.{Number}
use swap_trade_backend.Swap.{SwapStatus, SwapHistory, Db, World, Cache, Problem, FailureReason}
use swap_trade_backend.Swap.Pricing.{has}
use swap_trade_backend.Swap.Settlement.{update_swap, within, settle, rollback}

module _ {F : Type 0} ⦃n : Number F⦄ where
  -- `dataSource.transaction`, on what its body came to.
  abbrev pub ended : {A : Type 0} → Db F → Throws Problem A × World F → Throws Problem A × World F
  ended before (err p, w) = (err p, record w { db = before })
  ended before (ok a, w) = (ok a, w)

  abbrev pub mark_processing : ℕ → SwapHistory F → SwapHistory F
  mark_processing job s = record s { status = SwapStatus.processing; job_id = some job }

  -- The body of the transaction of processSingleSwap, and of each swap of a best-effort batch.
  unfoldable pub settle_alone : Cache F → ℕ → ℕ → World F → Throws Problem (F × F × F) × World F
  unfolding settle
  settle_alone cache job id w =
      let started = within (update_swap id (mark_processing job)) w in
      ended started.db (settle cache id started)

  abbrev pub rollback_all : List ℕ → Db F → Db F
  rollback_all [] db = db
  rollback_all (id ∷ ids) db = rollback_all ids (rollback id db)

  abbrev pub mark_aborted : Problem → SwapHistory F → SwapHistory F
  mark_aborted p s = record s {
    status = SwapStatus.failed;
    failure_reason = some FailureReason.atomic_batch_aborted;
    error_message = some p;
  }

  abbrev pub update_all : List ℕ → (SwapHistory F → SwapHistory F) → Db F → Db F
  update_all [] change db = db
  update_all (id ∷ ids) change db = update_all ids change (update_swap id change db)

  -- The loop inside the transaction of an atomic batch, and the swaps that it settled.
  unfoldable pub atomic_loop :
      Cache F → ℕ → List ℕ → List ℕ → World F → (Throws Problem (Unit {0}) × List ℕ) × World F
  unfolding settle
  atomic_loop cache job [] settled w = ((ok tt, settled), w)
  atomic_loop cache job (id ∷ ids) settled w =
      let tried = settle cache id (within (update_swap id (mark_processing job)) w) in
      let rest = atomic_loop cache job ids (settled ++ id ∷ []) tried.1 in
      elim tried.0 [ err p ↦ ((err p, settled), tried.1) | ok _ ↦ rest ]

  -- The catch branch, on the tables from before the transaction.
  unfoldable pub undo_batch : Problem → List ℕ → List ℕ → Db F → Db F
  undo_batch p settled ids db =
      update_all (keep_if (λ id. not (has id settled)) ids) (mark_aborted p)
        (rollback_all settled db)

  unfoldable pub process_atomic_batch :
      Cache F → ℕ → List ℕ → World F → Throws Problem (Unit {0}) × World F
  unfolding atomic_loop undo_batch
  process_atomic_batch cache job ids w =
      let r = atomic_loop cache job ids [] w in
      elim r.0.0 [
        | ok _ ↦ (ok tt, r.1)
        | err p ↦ (err p, record r.1 { db = undo_batch p r.0.1 ids w.db })
      ]

  -- `Promise.allSettled`: here each swap ends before the next one starts.
  unfoldable pub process_best_effort_batch : Cache F → ℕ → List ℕ → World F → World F
  unfolding settle_alone
  process_best_effort_batch cache job [] w = w
  process_best_effort_batch cache job (id ∷ ids) w =
      process_best_effort_batch cache job ids (settle_alone cache job id w).1
