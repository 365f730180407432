-- ===== src/Matching/Engine/Submit.antt =====
-- Submitting and cancelling: the books stay valid, the lock is released, and no loop hangs.
use swap_trade_backend.Common.{
  ℕ, ◌≡◌, refl, ◌≢◌, ◌==◌, ltb, Bool, true, false, not, ◌&&◌, inl, inr, Option, none, some, Map,
  arith, Bool-cases, Option-cases, lookup, insert, lookup-insert, lookup-insert_self, nat_key, sym,
  ap, subst, ◌∙◌,
}
use swap_trade_backend.Matching.Types.{Order, OrderType, OrderStatus, truthy}
use swap_trade_backend.Matching.Book.{OrderBook, new_book}
use swap_trade_backend.Matching.Book.Side.{IsBalanced}
use swap_trade_backend.Matching.Book.Invariant.{BookIsValid, view, view_from, new_book-BookIsValid}
use swap_trade_backend.Matching.Book.Addition.{add_order-BookIsValid, same_side_refl}
use swap_trade_backend.Matching.Trade.{
  Trading, begin, rounds, limit_loop, limit_rest, market_loop, market_rest, finish, order_filled,
  resting_status, is_fok, is_cancelled,
}
use swap_trade_backend.Matching.Trade.Progress.{Progress}
use swap_trade_backend.Matching.Trade.Loop.{
  Ends, MarketEnds, limit_loop-Ends, market_loop-MarketEnds,
}
use swap_trade_backend.Matching.Engine.{
  Engine, Outcome, done, throws, waits, hangs, book_of, get_or_create, is_locked, commit,
  execute_limit_order, execute_market_order, handle_stop_order, validate_order, dispatch,
  submit_order, limit_answer, limit_outcome, market_outcome,
}

abbrev pub BooksAreValid : Map ℕ OrderBook → Type 0
BooksAreValid m = (a : ℕ) (b : OrderBook) → lookup a m ≡ some b → BookIsValid b

-- Every book of the engine is valid.
abbrev pub EngineIsValid : Engine → Type 0
EngineIsValid e = BooksAreValid e.order_books

pub book_of-BookIsValid : (a : ℕ) (e : Engine) → EngineIsValid e → BookIsValid (book_of a e)
unfolding book_of
book_of-BookIsValid a e v = elim (Option-cases (lookup a e.order_books)) [
  | inl n ↦ rw (n, book_of) (new_book-BookIsValid a)
  | inr (b, h) ↦ rw (h, book_of) (v a b h)
]

insert-BooksAreValid :
    (a : ℕ) (b : OrderBook) (m : Map ℕ OrderBook)
    → BooksAreValid m
    → BookIsValid b
    → BooksAreValid (insert a b m)
insert-BooksAreValid a b m v h i c k = elim (Bool-cases (i == a)) [
  | inl t ↦ let q : b ≡ c = ground (arith, lookup-insert i a b m) in subst BookIsValid q h
  | inr t ↦ v i c (ground (arith, lookup-insert i a b m))
]

get_or_create-EngineIsValid :
    (a : ℕ) (e : Engine) → EngineIsValid e → EngineIsValid (get_or_create a e)
unfolding get_or_create
get_or_create-EngineIsValid a e v = elim (Option-cases (lookup a e.order_books)) [
  | inl n ↦
      rw (n, get_or_create)
        (insert-BooksAreValid a (new_book a) e.order_books v (new_book-BookIsValid a))
  | inr (b, h) ↦ rw (h, get_or_create) v
]

is_locked-get_or_create : (a i : ℕ) (e : Engine) → is_locked i (get_or_create a e) ≡ is_locked i e
unfolding get_or_create
is_locked-get_or_create a i e = ground arith

commit_unlocks : (a : ℕ) (t : Trading) (e : Engine) → is_locked a (commit a t e) ≡ false
commit_unlocks a t e = rw (lookup-insert_self a false (insert a true e.processing_lock), is_locked)

index_of_view :
    (j : ℕ) (b : OrderBook) → BookIsValid b → view b j ≡ none → lookup j b.order_index ≡ none
index_of_view j b v h = elim (Option-cases (lookup j b.order_index)) [
  | inl e ↦ e
  | inr (x, e) ↦
      let g : view_from j b (some x) ≡ none = ap (view_from j b) (sym e) ∙ h in
      absurd (ground (arith, v.placed j x.side x.price, same_side_refl x.side))
]

-- What the limit handler does after its loop.
abbrev RestIsValid : Option (Bool × Trading) → Type 0
RestIsValid none = ⊥
RestIsValid (some (kept, u)) = BookIsValid u.book × IsBalanced u.order

limit_rest-RestIsValid :
    (o : Order) (b : OrderBook) (t : Trading)
    → Progress o b t
    → view b o.id ≡ none
    → truthy o.price ≡ true
    → RestIsValid (limit_rest t)
unfolding limit_rest
limit_rest-RestIsValid o b t p new priced =
    elim (Bool-cases (is_fok t.order.time_in_force && ltb 0 t.order.remaining_quantity)) [
      | inl k ↦ rw (k, limit_rest) (p.valid, p.balanced)
      | inr k ↦
          rw (k, limit_rest)
            (elim (Bool-cases
              (ltb 0 t.order.remaining_quantity && not (is_cancelled t.order.status))) [
                | inr r ↦ rw (r, limit_rest) (p.valid, p.balanced)
                | inl r ↦
                    let (x, e, nz) = price_cases o.price priced in
                    let gone : view t.book t.order.id ≡ none =
                      ap (view t.book) p.same_id ∙ p.no_new o.id new in
                    let (c, added, valid, _) =
                      add_order-BookIsValid (record t.order { status = resting_status t }) x t.book
                        p.valid p.balanced (p.same_price ∙ e) nz
                        (index_of_view t.order.id t.book p.valid gone) in
                    rw (r, limit_rest) (rw (added, limit_rest) (valid, p.balanced))
              ])
    ]
  where
    price_cases : (q : Option ℕ) → truthy q ≡ true → (x : ℕ) × (q ≡ some x) × (x ≢ 0)
    price_cases none h = cc
    price_cases (some x) h = (x, refl, λ e. ground arith)

-- What a submission promises: a handler that ends leaves valid books, a free lock and an order in
-- balance; an error is one of validation and changes nothing; waiting means that the lock was held.
abbrev pub Promised : Order → Engine → Outcome → Type 0
Promised o e (done ms u e') =
    EngineIsValid e' × (is_locked o.asset e' ≡ is_locked o.asset e) × IsBalanced u
Promised o e (throws x e') = (validate_order o ≡ some x) × (e' ≡ e)
Promised o e (waits e') = is_locked o.asset e ≡ true
Promised o e (hangs e') = ⊥

module _ (now : ℕ) (o : Order) (e : Engine) (v : EngineIsValid e) (h : IsBalanced o)
    (new : view (book_of o.asset e) o.id ≡ none) where
  free : is_locked o.asset (get_or_create o.asset e) ≡ false → is_locked o.asset e ≡ false
  free l = sym (is_locked-get_or_create o.asset o.asset e) ∙ l

  committed :
      (u : Trading)
      → BookIsValid u.book
      → is_locked o.asset (get_or_create o.asset e) ≡ false
      → EngineIsValid (commit o.asset u (get_or_create o.asset e))
        × (is_locked o.asset (commit o.asset u (get_or_create o.asset e)) ≡ is_locked o.asset e)
  committed u b l = (
    insert-BooksAreValid o.asset u.book _ (get_or_create-EngineIsValid o.asset e v) b,
    commit_unlocks o.asset u (get_or_create o.asset e) ∙ sym (free l),
  )

  answer-Promised :
      (t : Trading) (r : Option (Bool × Trading))
      → RestIsValid r
      → is_locked o.asset (get_or_create o.asset e) ≡ false
      → Promised o e (limit_answer o.asset (get_or_create o.asset e) t r)
  answer-Promised t none g l = absurd g
  answer-Promised t (some (kept, u)) g l = let (a, b) = committed u g.0 l in (a, b, g.1)

  outcome-Promised :
      (r : Option Trading)
      → Ends o (book_of o.asset e) r
      → truthy o.price ≡ true
      → is_locked o.asset (get_or_create o.asset e) ≡ false
      → Promised o e (limit_outcome o.asset (get_or_create o.asset e) r)
  outcome-Promised none g p l = absurd g
  outcome-Promised (some t) g p l =
      answer-Promised t (limit_rest t) (limit_rest-RestIsValid o (book_of o.asset e) t g.0 new p) l

  limit-Promised : truthy o.price ≡ true → Promised o e (execute_limit_order now o e)
  unfolding execute_limit_order
  limit-Promised p = elim (Bool-cases (is_locked o.asset (get_or_create o.asset e))) [
    | inl l ↦ rw l (sym (is_locked-get_or_create o.asset o.asset e) ∙ l)
    | inr l ↦ rw l (
        outcome-Promised (limit_loop now (rounds (book_of o.asset e)) (begin o (book_of o.asset e)))
          (limit_loop-Ends o now (book_of o.asset e) (book_of-BookIsValid o.asset e v) h) p l)
  ]

  market_outcome-Promised :
      (r : Option Trading)
      → MarketEnds o (book_of o.asset e) r
      → is_locked o.asset (get_or_create o.asset e) ≡ false
      → Promised o e (market_outcome o.asset (get_or_create o.asset e) r)
  unfolding market_rest
  market_outcome-Promised none g l = absurd g
  market_outcome-Promised (some t) g l = elim (Bool-cases (t.order.remaining_quantity == 0)) [
    | inl z ↦
        let (a, b) = committed (finish OrderStatus.filled order_filled t) g.0.valid l in
        rw z (a, b, g.0.balanced)
    | inr z ↦
        let (a, b) =
          committed (record t { order = record t.order { status = OrderStatus.partial } }) g.0.valid
            l in
        rw z (a, b, g.0.balanced)
  ]

  market-Promised : Promised o e (execute_market_order now o e)
  unfolding execute_market_order
  market-Promised = elim (Bool-cases (is_locked o.asset (get_or_create o.asset e))) [
    | inl l ↦ rw l (sym (is_locked-get_or_create o.asset o.asset e) ∙ l)
    | inr l ↦ rw l (
        market_outcome-Promised
          (market_loop now (rounds (book_of o.asset e)) (begin o (book_of o.asset e)))
          (market_loop-MarketEnds o now (book_of o.asset e) (book_of-BookIsValid o.asset e v) h) l)
  ]

  stop-Promised : truthy o.stop_price ≡ true → Promised o e (handle_stop_order o e)
  unfolding handle_stop_order
  stop-Promised p = rw p (v, refl, h)

  -- Submitting an order in balance, whose id does not rest in its book, to an engine with valid
  -- books never hangs. If the handler ends, every book is valid, the lock of the asset is as it was,
  -- and the order is in balance. An error is one of validation and leaves the engine as it was; the
  -- handler waits only where the lock of the asset is held.
  pub submit_order-Promised : Promised o e (submit_order now o e)
  unfolding submit_order
  submit_order-Promised = elim (Option-cases (validate_order o)) [
    | inr (x, bad) ↦ rw (bad, submit_order) (bad, refl)
    | inl good ↦ rw (good, submit_order) (dispatched o.type refl good)
  ]
    where
      dispatched :
          (k : OrderType) → o.type ≡ k → validate_order o ≡ none → Promised o e (dispatch k now o e)
      dispatched OrderType.market q g = market-Promised
      dispatched OrderType.limit q g = limit-Promised (unfold validate_order in ground arith)
      dispatched OrderType.stop_limit q g = stop-Promised (unfold validate_order in ground arith)
      dispatched OrderType.stop_market q g = stop-Promised (unfold validate_order in ground arith)
