-- ===== src/Matching/Trade/Progress.antt =====
-- What a loop of a taker order has reached, and one round of it against the first order of the
-- best opposite level.
use swap_trade_backend.Common.{
  ℕ, ◌+◌, ◌-◌, ◌<◌, ◌≡◌, refl, ◌==◌, min, false, none, List, [], ◌∷◌, ◌++◌, length, sum_by,
  sum_by-append, arith, nat_key, ◌∙◌,
}
use swap_trade_backend.Matching.Types.{Order, MatchResult, opposite}
use swap_trade_backend.Matching.Book.{OrderBook}
use swap_trade_backend.Matching.Book.Side.{IsBalanced}
use swap_trade_backend.Matching.Book.Invariant.{BookIsValid, view}
use swap_trade_backend.Matching.Trade.{Event, Trading, begin, match_result, settle_resting, take}
use swap_trade_backend.Matching.Trade.Step.{
  IsFirst, settle_resting-BookIsValid, order_index-settle_resting, first-view,
}

abbrev pub traded_quantity : List MatchResult → ℕ
traded_quantity = sum_by λ r. r.quantity

-- What a loop that began with order `o` and book `b` has reached: ids that led nowhere still do.
pub record Progress (o : Order) (b : OrderBook) (t : Trading) : Type 0 where
  pub valid : BookIsValid t.book
  pub no_new : (i : ℕ) → view b i ≡ none → view t.book i ≡ none
  pub balanced : IsBalanced t.order
  pub filled : t.order.filled_quantity ≡ o.filled_quantity + traded_quantity t.matches
  pub same_id : t.order.id ≡ o.id
  pub same_side : t.order.side ≡ o.side
  pub same_price : t.order.price ≡ o.price
  pub same_quantity : t.order.quantity ≡ o.quantity
  pub same_time : t.order.time_in_force ≡ o.time_in_force

pub begin-Progress :
    (o : Order) (b : OrderBook) → BookIsValid b → IsBalanced o → Progress o b (begin o b)
begin-Progress o b v h = record {
  valid = v;
  no_new = λ i e. e;
  balanced = h;
  filled = omega arith;
  same_id = refl;
  same_side = refl;
  same_price = refl;
  same_quantity = refl;
  same_time = refl;
}

abbrev pub matched_with : Order → Order → ℕ
matched_with o m = min o.remaining_quantity m.remaining_quantity

-- One round against the first order of the best opposite level.
module _ (o : Order) (start : OrderBook) (now : ℕ) (t : Trading) (m : Order)
    (p : Progress o start t) (f : IsFirst (opposite t.order.side) t.book m) where
  abbrev book_after : OrderBook
  book_after = settle_resting (opposite t.order.side) (take (matched_with t.order m) m) t.book

  pub round-Progress :
      (events : List Event)
      → Progress o start (record {
        order = take (matched_with t.order m) t.order;
        book = book_after;
        matches = t.matches ++ match_result now t.order m ∷ [];
        events = events;
      })
  unfolding match_result
  round-Progress events =
      let (a, c) =
        settle_resting-BookIsValid (opposite t.order.side) t.book p.valid m f
          (matched_with t.order m) (omega arith) in
      let seen = first-view (opposite t.order.side) t.book p.valid m f in
      record {
        valid = a;
        no_new = λ i e. c i ∙ (ground (arith, p.no_new i e, seen));
        balanced = omega (arith, p.balanced);
        filled = omega (
          arith,
          p.filled,
          sum_by-append {0} (λ (r : MatchResult). r.quantity) t.matches
              (match_result now t.order m ∷ []),
        );
        same_id = p.same_id;
        same_side = p.same_side;
        same_price = p.same_price;
        same_quantity = p.same_quantity;
        same_time = p.same_time;
      }

  pub round_shrinks :
      t.order.remaining_quantity - matched_with t.order m == 0 ≡ false
      → length book_after.order_index < length t.book.order_index
  round_shrinks h =
      order_index-settle_resting (opposite t.order.side) t.book p.valid m f (matched_with t.order m)
        (omega arith) (ground arith)
