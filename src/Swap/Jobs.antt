-- ===== src/Swap/Jobs.antt =====
-- swap/swap-batch.processor.ts: the handlers of the jobs of the swap queue, and what a failed job
-- marks.
use swap_trade_backend.Common.{
  ℕ, ◌==◌, Bool, true, false, ◌&&◌, Option, none, some, List, map, nat_key, if◌then◌else◌, Throws,
  err, ok,
}
use swap_trade_backend.Common.{Number}
use swap_trade_backend.Swap.{SwapStatus, SwapHistory, Db, World, Cache, Problem, FailureReason}
use swap_trade_backend.Swap.Settlement.{update_swap}
use swap_trade_backend.Swap.Batch.{settle_alone, process_atomic_batch, process_best_effort_batch}
use swap_trade_backend.Swap.Saga.{execute_multi_leg_swap}

-- The payloads, by the type of the job.
pub data SwapJobData (F : Type 0) : Type 0 where
  single : ℕ → SwapJobData F
  multi_leg : ℕ → ℕ → List ℕ → F → F → SwapJobData F
  batch : ℕ → Bool → List ℕ → SwapJobData F

abbrev is_processing : SwapStatus → Bool
is_processing SwapStatus.processing = true
is_processing _ = false

abbrev is_of_batch : ℕ → Option ℕ → Bool
is_of_batch batch_id none = false
is_of_batch batch_id (some b) = b == batch_id

module _ {F : Type 0} ⦃n : Number F⦄ where
  -- The answer of a handler to the queue.
  abbrev pub without_value :
      {A : Type 0} → Throws Problem A × World F → Throws Problem (Unit {0}) × World F
  without_value (err p, w) = (err p, w)
  without_value (ok _, w) = (ok tt, w)

  -- The handlers, by the type of the job.
  unfoldable pub process_job :
      Cache F → (ℕ → ℕ) → ℕ → SwapJobData F → World F → Throws Problem (Unit {0}) × World F
  unfolding settle_alone execute_multi_leg_swap process_atomic_batch process_best_effort_batch
  process_job cache uuid job (single id) w = without_value (settle_alone cache job id w)
  process_job cache uuid job (multi_leg batch_id user route amount tolerance) w =
      without_value (execute_multi_leg_swap cache uuid user route amount tolerance batch_id w)
  process_job cache uuid job (batch id true ids) w = process_atomic_batch cache job ids w
  process_job cache uuid job (batch id false ids) w =
      (ok tt, process_best_effort_batch cache job ids w)

  abbrev pub mark_job_failed : FailureReason → Problem → SwapHistory F → SwapHistory F
  mark_job_failed why p s = record s {
    status = SwapStatus.failed;
    error_message = some p;
    failure_reason = some why;
  }

  -- The update of the swaps of a batch that are still being processed.
  abbrev pub fail_batch : ℕ → Problem → ℕ × SwapHistory F → ℕ × SwapHistory F
  fail_batch batch_id p (id, s) = (
    id,
    if is_of_batch batch_id s.batch_id && is_processing s.status
        then mark_job_failed FailureReason.batch_job_failed p s
        else s,
  )

  unfoldable pub on_failed : SwapJobData F → Problem → Db F → Db F
  on_failed (single id) p db =
      update_swap id (mark_job_failed FailureReason.job_exhausted_retries p) db
  on_failed (multi_leg _ _ _ _ _) p db = db
  on_failed (batch id _ _) p db = record db { swaps = map (fail_batch id p) db.swaps }
