-- ===== src/Swap/Completion.antt =====
-- What an atomic batch that succeeds leaves behind.
use swap_trade_backend.Common.{
  ℕ, ◌≡◌, refl, sym, ap, subst, ◌∙◌, ◌==◌, ==_iff, inl, inr, some, List, [], ◌∷◌, ◌++◌, Map, lookup,
  nat_key, pair_key, pair_same, pair_same_iff, ok, Bool-cases, Throws-cases, All,
}
use swap_trade_backend.Common.{Number}
use swap_trade_backend.Swap.{SwapStatus, SwapHistory, UserBalance, Balances, Db, World, Cache}
use swap_trade_backend.Swap.Settlement.{update_swap, within, settle, paid_in}
use swap_trade_backend.Swap.Batch.{mark_processing, atomic_loop, process_atomic_batch}
use swap_trade_backend.Swap.Outcome.{
  terms, IsKeyed, IsPaid, balance_key, update_swap-IsKept, paid_in_key,
}
use swap_trade_backend.Swap.Retries.{settle-IsAttempt, returned-IsSettled}

module _ {F : Type 0} ⦃n : Number F⦄ where
  IsPaid-IsKeyed :
      (user from to : ℕ) (taken given : F) (assets : Map ℕ ℕ) (balances after : Balances F)
      → IsPaid user from to taken given assets balances after
      → IsKeyed balances
      → IsKeyed after
  IsPaid-IsKeyed user from to taken given assets balances after p keyed k b h =
      let out : ℕ × ℕ = (user, p.asset_out) in
      let in_ : ℕ × ℕ = (user, p.asset_in) in
      let target = paid_in user p.asset_out given (lookup out balances) in
      let less : UserBalance F = record p.source { balance = n.sub p.source.balance taken } in
      let found = sym (p.moved k) ∙ h in
      elim (Bool-cases (pair_same k out)) [
        | inl e ↦
            let x = rw e at found in
            let same : target ≡ b = cc in
            sym (ap (λ t. balance_key t) same)
            ∙ paid_in_key user p.asset_out given (lookup out balances) (keyed out)
            ∙ sym ((pair_same_iff k out).0 e)
        | inr e ↦ elim (Bool-cases (pair_same k in_)) [
          | inl f ↦
              let x = rw (e, f) at found in
              let same : less ≡ b = cc in
              sym (ap (λ t. balance_key t) same)
              ∙ keyed in_ p.source p.has_source
              ∙ sym ((pair_same_iff k in_).0 f)
          | inr f ↦ let x = rw (e, f) at found in keyed k b x
        ]
      ]

  -- A swap that is completed, with the amount it came to.
  abbrev pub IsDone : Db F → ℕ → Type 0
  IsDone db id =
      (s : SwapHistory F) × (lookup id db.swaps ≡ some s)
      × (s.status ≡ SwapStatus.completed)
      × ((out : F) × (s.amount_out ≡ some out))

  -- A settlement, after a mark on the swap, completes it and keeps the others completed.
  settled-IsDone :
      (cache : Cache F) (change : SwapHistory F → SwapHistory F) (id : ℕ) (w : World F)
      (t : F × F × F)
      → ((s : SwapHistory F) → terms (change s) ≡ terms s)
      → IsKeyed w.db.balances
      → (settle cache id (within (update_swap id change) w)).0 ≡ ok t
      → let after = (settle cache id (within (update_swap id change) w)).1.db in
        IsKeyed after.balances × IsDone after id × ((i : ℕ) → IsDone w.db i → IsDone after i)
  settled-IsDone cache change id w t same keyed e =
      let begun = within (update_swap id change) w in
      let after = (settle cache id begun).1.db in
      let kept = update_swap-IsKept id change w.db same in
      let keyed_too = subst (λ b. IsKeyed b) (sym kept.balances) keyed in
      let s =
        returned-IsSettled id t begun.db (settle cache id begun) e
          (settle-IsAttempt cache id begun keyed_too).0 in
      let own : IsDone after id = (s.done.0, s.done.1, s.done.2, (t.0, s.done.3)) in
      (
        IsPaid-IsKeyed s.user s.from s.to s.taken t.0 begun.db.assets begun.db.balances
            after.balances s.paid keyed_too,
        own,
        λ i d. elim (Bool-cases (i == id)) [
          | inl f ↦ subst (λ j. IsDone after j) (sym ((==_iff i id).0 f)) own
          | inr f ↦ (d.0, s.others i f ∙ kept.others i f ∙ d.1, d.2, d.3)
        ],
      )

  atomic_loop-IsDone :
      (cache : Cache F) (job : ℕ) (ids before : List ℕ) (w : World F) (after : Db F)
      → IsKeyed w.db.balances
      → (atomic_loop cache job ids before w).0.0 ≡ ok tt
      → (atomic_loop cache job ids before w).1.db ≡ after
      → All (IsDone after) ids × ((i : ℕ) → IsDone w.db i → IsDone after i)
  unfolding atomic_loop
  atomic_loop-IsDone cache job [] before w after keyed h g =
      (tt, λ i d. subst (λ x. IsDone x i) g d)
  atomic_loop-IsDone cache job (id ∷ ids) before w after keyed h g =
      let tried = settle cache id (within (update_swap id (mark_processing job)) w) in
      elim (Throws-cases tried.0) [
        | inl (p, e) ↦ let x = rw (e, atomic_loop) at h in cc
        | inr (t, e) ↦
            let x = rw (e, atomic_loop) at h in
            let y = rw (e, atomic_loop) at g in
            let (keyed_too, own, kept) =
              settled-IsDone cache (mark_processing job) id w t (λ s. refl) keyed e in
            let (rest, later) =
              atomic_loop-IsDone cache job ids (before ++ id ∷ []) tried.1 after keyed_too x y in
            ((later id own, rest), λ i d. later i (kept i d))
      ]

  -- After an atomic batch that returns, each of its swaps is completed, and so is each swap that
  -- was completed before it. Each balance is to stand under its user and its asset.
  pub process_atomic_batch-IsDone :
      (cache : Cache F) (job : ℕ) (ids : List ℕ) (w : World F) (after : World F)
      → IsKeyed w.db.balances
      → process_atomic_batch cache job ids w ≡ (ok tt, after)
      → All (IsDone after.db) ids × ((i : ℕ) → IsDone w.db i → IsDone after.db i)
  unfolding process_atomic_batch
  process_atomic_batch-IsDone cache job ids w after keyed h =
      let r = atomic_loop cache job ids [] w in
      elim (Throws-cases r.0.0) [
        | inl (p, e) ↦ let x = rw (e, process_atomic_batch) at h in cc
        | inr (t, e) ↦
            let x = rw (e, process_atomic_batch) at h in
            atomic_loop-IsDone cache job ids [] w after.db keyed e (ap (λ y. y.1.db) x)
      ]
