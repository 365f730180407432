-- ===== src/Swap/Aborted.antt =====
-- What an atomic batch that fails does to the balances.
use swap_trade_backend.Common.{
  ℕ, ◌≡◌, refl, sym, ap, subst, ◌∙◌, not, inl, inr, List, [], ◌∷◌, ◌++◌, append-nil, append_assoc,
  nat_key, pair_key, keep_if, err, Throws-cases,
}
use swap_trade_backend.Common.{Number}
use swap_trade_backend.Swap.{World, Cache, Problem}
use swap_trade_backend.Swap.Pricing.{has}
use swap_trade_backend.Swap.Settlement.{update_swap, within, settle}
use swap_trade_backend.Swap.Batch.{
  mark_processing, rollback_all, atomic_loop, undo_batch, process_atomic_batch,
}
use swap_trade_backend.Swap.Refunds.{
  refunds, IsAborted, throws, settles, rollback_all-refunds, update_all_balances,
}

module _ {F : Type 0} ⦃n : Number F⦄ where
  atomic_loop-IsAborted :
      (cache : Cache F) (job : ℕ) (ids before : List ℕ) (w : World F) (p : Problem)
      → (atomic_loop cache job ids before w).0.0 ≡ err p
      → (settled : List ℕ) × IsAborted cache (mark_processing job) p settled ids w
        × ((atomic_loop cache job ids before w).0.1 ≡ before ++ settled)
  unfolding atomic_loop
  atomic_loop-IsAborted cache job [] before w p h = cc
  atomic_loop-IsAborted cache job (id ∷ ids) before w p h =
      let tried = settle cache id (within (update_swap id (mark_processing job)) w) in
      elim (Throws-cases tried.0) [
        | inl (q, e) ↦
            let same : q ≡ p = (let x = rw (e, atomic_loop) at h in cc) in
            (
              [],
              throws id ids w (subst (λ x. tried.0 ≡ err x) same e),
              rw (e, atomic_loop) (sym (append-nil before)),
            )
        | inr (t, e) ↦
            let x = rw (e, atomic_loop) at h in
            let (settled, aborted, all) =
              atomic_loop-IsAborted cache job ids (before ++ id ∷ []) tried.1 p x in
            (
              id ∷ settled,
              settles id settled ids w t e aborted,
              rw (e, atomic_loop) (all ∙ append_assoc before (id ∷ []) settled),
            )
      ]

  -- An atomic batch that throws has settled some of its swaps, in order, and stopped at one that
  -- throws. The balances afterwards are those from before the batch with the amount of each
  -- settled swap added to the balance it was to be taken from, though the end of the transaction
  -- had put that balance back already.
  pub process_atomic_batch-refunds :
      (cache : Cache F) (job : ℕ) (ids : List ℕ) (w : World F) (p : Problem)
      → (process_atomic_batch cache job ids w).0 ≡ err p
      → (settled : List ℕ) × IsAborted cache (mark_processing job) p settled ids w
        × ((process_atomic_batch cache job ids w).1.db.balances
            ≡ refunds w.db settled w.db.balances)
  unfolding process_atomic_batch undo_batch
  process_atomic_batch-refunds cache job ids w p h =
      let r = atomic_loop cache job ids [] w in
      elim (Throws-cases r.0.0) [
        | inr (t, e) ↦ let x = rw (e, process_atomic_batch) at h in cc
        | inl (q, e) ↦
            let same : q ≡ p = (let x = rw (e, process_atomic_batch) at h in cc) in
            let (settled, aborted, all) =
              atomic_loop-IsAborted cache job ids [] w p (subst (λ x. r.0.0 ≡ err x) same e) in
            (
              settled,
              aborted,
              rw (e, process_atomic_batch, undo_batch)
                  (update_all_balances (keep_if (λ id. not (has id r.0.1)) ids) q
                      (rollback_all r.0.1 w.db)
                    ∙ rollback_all-refunds r.0.1 w.db w.db (refl, λ i. refl)
                    ∙ ap (λ l. refunds w.db l w.db.balances) all),
            )
      ]
