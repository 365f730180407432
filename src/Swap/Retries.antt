-- ===== src/Swap/Retries.antt =====
-- What the loop of attempts to settle a swap does.
use swap_trade_backend.Common.{
  ℕ, zero, suc, ◌+◌, ◌≡◌, refl, sym, ap, subst, inl, inr, some, lookup, nat_key, Throws, err, ok,
  lookup-insert_self, Option-cases, Throws-cases, ok_injective,
}
use swap_trade_backend.Common.{Number}
use swap_trade_backend.Swap.{SwapStatus, SwapHistory, Db, World, Cache, Problem, FailureReason}
use swap_trade_backend.Swap.Settlement.{
  update_swap, within, attempt_settlement, mark_retrying, mark_exhausted, settle_loop, settle,
}
use swap_trade_backend.Swap.Outcome.{terms, IsKept, IsKept-trans, IsKeyed, update_swap-IsKept}
use swap_trade_backend.Swap.Settled.{
  IsSettled, kept-IsSettled, IsAttempt, attempt_settlement-IsAttempt,
}

module _ {F : Type 0} ⦃n : Number F⦄ where
  kept-IsAttempt :
      (id : ℕ) (db mid : Db F) (r : Throws Problem (F × F × F) × World F)
      → IsKept id db mid
      → IsAttempt id mid r
      → IsAttempt id db r
  kept-IsAttempt id db mid (err p, w) k a = IsKept-trans id db mid w.db k a
  kept-IsAttempt id db mid (ok trade, w) k a = kept-IsSettled id db mid w.db trade.0 k a

  -- A mark on the swap, after an attempt that failed.
  marked-IsKept :
      (id : ℕ) (change : SwapHistory F → SwapHistory F) (p : Problem) (db : Db F)
      (r : Throws Problem (F × F × F) × World F)
      → ((s : SwapHistory F) → terms (change s) ≡ terms s)
      → r.0 ≡ err p
      → IsAttempt id db r
      → IsKept id db (update_swap id change r.1.db)
  marked-IsKept id change p db (err q, w) same e a =
      IsKept-trans id db w.db (update_swap id change w.db) a
        (update_swap-IsKept id change w.db same)
  marked-IsKept id change p db (ok t, w) same e a = cc

  pub returned-IsSettled :
      (id : ℕ) (t : F × F × F) (db : Db F) (r : Throws Problem (F × F × F) × World F)
      → r.0 ≡ ok t
      → IsAttempt id db r
      → IsSettled id db t.0 r.1.db
  returned-IsSettled id t db (err p, w) e a = cc
  returned-IsSettled id t db (ok u, w) e a =
      subst (λ v. IsSettled id db v.0 w.db) (ok_injective u t e) a

  pub settle_loop-IsAttempt :
      (cache : Cache F) (id left attempt : ℕ) (w : World F)
      → IsKeyed w.db.balances
      → IsAttempt id w.db (settle_loop cache id left attempt w)
  unfolding settle_loop
  settle_loop-IsAttempt cache id zero attempt w keyed =
      let tried = attempt_settlement cache id w in
      let one = attempt_settlement-IsAttempt cache id w keyed in
      elim (Throws-cases tried.0) [
        | inl (p, e) ↦
            rw (e, settle_loop) (marked-IsKept id (mark_exhausted p) p w.db tried (λ s. refl) e one)
        | inr (t, e) ↦ rw (e, settle_loop) (returned-IsSettled id t w.db tried e one)
      ]
  settle_loop-IsAttempt cache id (suc left) attempt w keyed =
      let tried = attempt_settlement cache id w in
      let one = attempt_settlement-IsAttempt cache id w keyed in
      elim (Throws-cases tried.0) [
        | inl (p, e) ↦
            let mark = mark_retrying (attempt + 1) in
            let kept = marked-IsKept id mark p w.db tried (λ s. refl) e one in
            let next = within (update_swap id mark) tried.1 in
            rw (e, settle_loop)
              (kept-IsAttempt id w.db next.db (settle_loop cache id left (attempt + 1) next) kept (
                settle_loop-IsAttempt cache id left (attempt + 1) next
                  (subst (λ b. IsKeyed b) (sym kept.balances) keyed)))
        | inr (t, e) ↦ rw (e, settle_loop) (returned-IsSettled id t w.db tried e one)
      ]

  -- How the swap stands after a settlement that threw, if there is one.
  abbrev pub IsExhausted : ℕ → Throws Problem (F × F × F) × World F → Type 0
  IsExhausted id (ok trade, w) = Unit {0}
  IsExhausted id (err p, w) =
      (s : SwapHistory F)
      → lookup id w.db.swaps ≡ some s
      → (s.status ≡ SwapStatus.failed)
        × (s.failure_reason ≡ some FailureReason.max_retries_exceeded)
        × (s.error_message ≡ some p)

  mark_exhausted-IsExhausted :
      (id : ℕ) (p : Problem) (w : World F)
      → IsExhausted id (err p, within (update_swap id (mark_exhausted p)) w)
  mark_exhausted-IsExhausted id p w s = elim (Option-cases (lookup id w.db.swaps)) [
    | inl e ↦ rw (e, update_swap) (λ h. let x = e in cc)
    | inr (t, e) ↦
        let mark = mark_exhausted p t in
        rw (e, update_swap, lookup-insert_self id mark w.db.swaps)
          (λ h.
            let same : mark ≡ s = cc in
            (
              sym (ap (λ x. x.status) same),
              sym (ap (λ x. x.failure_reason) same),
              sym (ap (λ x. x.error_message) same),
            ))
  ]

  settle_loop-IsExhausted :
      (cache : Cache F) (id left attempt : ℕ) (w : World F)
      → IsExhausted id (settle_loop cache id left attempt w)
  unfolding settle_loop
  settle_loop-IsExhausted cache id zero attempt w =
      let tried = attempt_settlement cache id w in
      elim (Throws-cases tried.0) [
        | inl (p, e) ↦ rw (e, settle_loop) (mark_exhausted-IsExhausted id p tried.1)
        | inr (t, e) ↦ rw (e, settle_loop) tt
      ]
  settle_loop-IsExhausted cache id (suc left) attempt w =
      let tried = attempt_settlement cache id w in
      elim (Throws-cases tried.0) [
        | inl (p, e) ↦
            rw (e, settle_loop)
              (settle_loop-IsExhausted cache id left (attempt + 1)
                (within (update_swap id (mark_retrying (attempt + 1))) tried.1))
        | inr (t, e) ↦ rw (e, settle_loop) tt
      ]

  -- A settlement ends in one of two ways: it returns, the user is paid once on the terms of the
  -- swap and the swap is completed; or it throws, no balance changes and the swap, if there is
  -- one, is failed with the last error. Other swaps are left alone either way. Each balance is
  -- to stand under its user and its asset.
  pub settle-IsAttempt :
      (cache : Cache F) (id : ℕ) (w : World F)
      → IsKeyed w.db.balances
      → IsAttempt id w.db (settle cache id w) × IsExhausted id (settle cache id w)
  unfolding settle
  settle-IsAttempt cache id w keyed =
      (settle_loop-IsAttempt cache id 3 0 w keyed, settle_loop-IsExhausted cache id 3 0 w)
