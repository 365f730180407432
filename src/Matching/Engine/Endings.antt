-- ===== src/Matching/Engine/Endings.antt =====
-- How orders end that find too little on the other side: where the code differs from its names.
use swap_trade_backend.Common.{
  ℕ, ◌-◌, ◌<◌, ◌≡◌, refl, ◌≢◌, ◌==◌, ltb, true, false, none, some, [], ◌∷◌, ◌++◌, arith, lookup,
  set, ==_refl, lookup-insert_self, nat_key, ◌∙◌,
}
use swap_trade_backend.Matching.Types.{Order, OrderSide, OrderStatus, opposite}
use swap_trade_backend.Matching.Book.{
  OrderBook, BookSide, side_of, set_side, get_best_level, get_volume_at_price,
}
use swap_trade_backend.Matching.Book.Invariant.{BookIsValid, view, with_order, add_order-priced}
use swap_trade_backend.Matching.Book.Update.{update_order_quantity_same}
use swap_trade_backend.Matching.Trade.{
  Trading, begin, rounds, limit_rest, market_loop, market_rest, settle_resting, write_first,
  find_match, finish, order_cancelled, order_rejected, is_fok, take, is_cancelled, order_added,
  limit_loop,
}
use swap_trade_backend.Matching.Trade.Step.{IsFirst, write_first-BookIsValid, traded, first_resting}
use swap_trade_backend.Matching.Engine.{
  Engine, done, execute_limit_order, execute_market_order, get_or_create, book_of, is_locked,
  commit,
}

volume-set_side :
    (s : OrderSide) (p : ℕ) (d : BookSide) (b : OrderBook)
    → get_volume_at_price s p (set_side s d b)
      ≡ elim (lookup p d.levels) [ none ↦ 0 | some l ↦ l.total_quantity ]
unfolding get_volume_at_price
volume-set_side OrderSide.buy p d b = refl
volume-set_side OrderSide.sell p d b = refl

volume-write_first :
    (s : OrderSide) (b : OrderBook) (m o : Order) (f : IsFirst s b m)
    → get_volume_at_price s f.price (write_first s o b) ≡ get_volume_at_price s f.price b
unfolding write_first get_volume_at_price
volume-write_first s b m o f =
    rw (f.best, write_first)
      (rw (f.there, write_first)
        (volume-set_side s f.price _ b
          ∙ ground (
            arith,
            f.there,
            lookup-insert_self f.price (record f.level { orders = set f.level.orders 0 o })
                (side_of s b).levels,
          )))

-- A trade that fills the first order of the best level in part leaves the volume that the book
-- reports at that price where it was, although the order now asks for less.
pub partial_fill_keeps_volume :
    (s : OrderSide) (b : OrderBook) (m : Order) (n : ℕ)
    → BookIsValid b
    → (f : IsFirst s b m) → 0 < n
    → n < m.remaining_quantity
    → (get_volume_at_price s f.price (settle_resting s (take n m) b)
        ≡ get_volume_at_price s f.price b)
      × (view (settle_resting s (take n m) b) m.id ≡ some (traded OrderStatus.partial n m))
unfolding settle_resting
partial_fill_keeps_volume s b m n v f pos h =
    let z : m.remaining_quantity - n == 0 ≡ false = ground arith in
    let o = traded OrderStatus.partial n m in
    let (a, c, d) = first_resting s b v m f in
    let (valid, sees, _) =
      write_first-BookIsValid s b v m f o refl (a, c, omega arith) (omega arith) in
    let seen : view (write_first s o b) m.id ≡ some o = sees m.id ∙ (rw (==_refl m.id)) in
    rw z (rw (update_order_quantity_same m.id o _ valid seen) (volume-write_first s b m o f, seen))

module _ (now : ℕ) (o : Order) (p : ℕ) (b : OrderBook) (priced : o.price ≡ some p) (nz : p ≢ 0)
    (rem : 0 < o.remaining_quantity) (nomatch : find_match o b ≡ none) where
  unmatched_loop : limit_loop now (rounds b) (begin o b) ≡ some (begin o b)
  unfolding limit_loop
  unmatched_loop =
      let z : o.remaining_quantity == 0 ≡ false = ground arith in
      rw (z, limit_loop) (rw (nomatch, limit_loop))

  abbrev waiting : Order
  waiting = record o { status = OrderStatus.pending }

  abbrev pub rested : Trading
  rested = record {
    order = waiting;
    book = with_order waiting p b;
    matches = [];
    events = order_added waiting ∷ [];
  }

  unmatched_rest :
      is_fok o.time_in_force ≡ false
      → is_cancelled o.status ≡ false
      → limit_rest (begin o b) ≡ some (true, rested)
  unfolding limit_rest
  unmatched_rest k c =
      let r : ltb 0 o.remaining_quantity ≡ true = ground arith in
      rw (k, limit_rest)
        (rw (r, c, limit_rest) (rw (add_order-priced waiting p b priced nz, limit_rest)))

-- A limit order that is not fill-or-kill, an immediate-or-cancel order too, and that matches
-- nothing is not cancelled: if the lock is free, the handler ends with no match, the order pending
-- and on the book.
pub unmatched_limit_rests :
    (now : ℕ) (o : Order) (p : ℕ) (e : Engine)
    → is_fok o.time_in_force ≡ false
    → o.price ≡ some p
    → p ≢ 0
    → 0 < o.remaining_quantity
    → is_cancelled o.status ≡ false
    → is_locked o.asset (get_or_create o.asset e) ≡ false
    → find_match o (book_of o.asset e) ≡ none
    → let w = record o { status = OrderStatus.pending } in
      (u : Trading) × (execute_limit_order now o e
        ≡ done [] w (commit o.asset u (get_or_create o.asset e)))
      × (u.book ≡ with_order w p (book_of o.asset e))
unfolding execute_limit_order
unmatched_limit_rests now o p e k pr nz rem c free nomatch =
    let b = book_of o.asset e in
    (
      rested now o p b pr nz rem nomatch,
      rw free (
          rw (unmatched_loop now o p b pr nz rem nomatch)
            (rw (unmatched_rest now o p b pr nz rem nomatch k c))),
      refl,
    )

-- A market order that finds the other side empty trades nothing; the handler raises the rejection
-- and then gives the order back as partially filled, not as rejected.
pub unmatched_market_partial :
    (now : ℕ) (o : Order) (e : Engine)
    → 0 < o.remaining_quantity
    → is_locked o.asset (get_or_create o.asset e) ≡ false
    → get_best_level (opposite o.side) (book_of o.asset e) ≡ none
    → (e' : Engine) × (execute_market_order now o e
        ≡ done [] (record o { status = OrderStatus.partial }) e')
      × (e'.events
          ≡ (get_or_create o.asset e).events
            ++ order_rejected (record o { status = OrderStatus.rejected }) ∷ [])
unfolding execute_market_order market_loop market_rest
unmatched_market_partial now o e rem free empty =
    let z : o.remaining_quantity == 0 ≡ false = ground arith in
    let b = book_of o.asset e in
    (
      commit o.asset
          (record (finish OrderStatus.rejected order_rejected (begin o b)) {
            order = record o { status = OrderStatus.partial };
          })
          (get_or_create o.asset e),
      rw free (rw (z, market_loop) (rw (empty, market_loop) (rw z))),
      refl,
    )

-- If the loop of a fill-or-kill order ends with a quantity left, the handler reports no match and a
-- cancelled order, and the engine keeps the book with the trades of the loop in it.
pub fill_or_kill_keeps_trades :
    (now : ℕ) (o : Order) (e : Engine) (t : Trading)
    → is_locked o.asset (get_or_create o.asset e) ≡ false
    → limit_loop now (rounds (book_of o.asset e)) (begin o (book_of o.asset e)) ≡ some t
    → is_fok t.order.time_in_force ≡ true
    → 0 < t.order.remaining_quantity
    → (e' : Engine) × (execute_limit_order now o e
        ≡ done [] (record t.order { status = OrderStatus.cancelled }) e')
      × (lookup o.asset e'.order_books ≡ some t.book)
unfolding execute_limit_order limit_rest
fill_or_kill_keeps_trades now o e t free ran k rem =
    let r : ltb 0 t.order.remaining_quantity ≡ true = ground arith in
    (
      commit o.asset (finish OrderStatus.cancelled order_cancelled t) (get_or_create o.asset e),
      rw free (rw ran (rw (k, r, limit_rest))),
      lookup-insert_self o.asset t.book (get_or_create o.asset e).order_books,
    )
