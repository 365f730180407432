-- ===== src/Matching/Trade/Loop.antt =====
-- The loops of limit and market orders end within their rounds, and keep the book valid and the
-- quantities in balance.
use swap_trade_backend.Common.{
  ℕ, zero, suc, ◌+◌, ◌-◌, ◌<◌, ◌≡◌, refl, ◌==◌, true, false, ◌⊎◌, inl, inr, Option, none, some,
  length, All, All-append, arith, Bool-cases, Option-cases, nat_key,
}
use swap_trade_backend.Matching.Types.{Order, OrderSide, OrderStatus, MatchResult, opposite}
use swap_trade_backend.Matching.Level.{OrderBookLevel, get_first_order}
use swap_trade_backend.Matching.Book.{OrderBook, get_best, get_best_level}
use swap_trade_backend.Matching.Book.Best.{get_best-level}
use swap_trade_backend.Matching.Book.Side.{IsBalanced}
use swap_trade_backend.Matching.Book.Invariant.{BookIsValid}
use swap_trade_backend.Matching.Trade.{
  Event, Trading, begin, rounds, limit_round, limit_loop, market_round, market_loop, finish,
  execute_match, match_result, find_match, misses, is_ioc, order_filled, order_cancelled,
  is_cancelled,
}
use swap_trade_backend.Matching.Trade.Step.{
  IsFirst, level-IsFirst, find_match-IsFirst, first_resting,
}
use swap_trade_backend.Matching.Trade.Progress.{
  Progress, begin-Progress, matched_with, round-Progress, round_shrinks,
}

abbrev pub PriceAllowed : Order → MatchResult → Type 0
PriceAllowed o r = misses o.side o.price r.price ≡ false

-- A limit loop stops for one of four reasons.
abbrev pub Stopped : Trading → Type 0
Stopped u =
    (u.order.remaining_quantity ≡ 0)
    ⊎ ((find_match u.order u.book ≡ none) ⊎ (is_cancelled u.order.status ≡ true))

abbrev pub Ends : Order → OrderBook → Option Trading → Type 0
Ends o b none = ⊥
Ends o b (some u) = Progress o b u × All (PriceAllowed o) u.matches × Stopped u

limit_round-Progress :
    (o : Order) (start : OrderBook) (now : ℕ) (t : Trading) (m : Order)
    → Progress o start t
    → find_match t.order t.book ≡ some m
    → All (PriceAllowed o) t.matches
    → Progress o start (limit_round now m t) × All (PriceAllowed o) (limit_round now m t).matches
unfolding limit_round execute_match match_result
limit_round-Progress o start now t m p h a =
    let (f, ok) = find_match-IsFirst t.order t.book m h in
    let (pr, _, _) = first_resting (opposite t.order.side) t.book p.valid m f in
    let allowed : PriceAllowed o (match_result now t.order m) =
      rw (← p.same_side) (rw (← p.same_price) (rw pr ok)) in
    (round-Progress o start now t m p f _, All-append (PriceAllowed o) t.matches _ a (allowed, tt))

finish-Ends :
    (o : Order) (start : OrderBook) (st : OrderStatus) (event : Order → Event) (u : Trading)
    → Progress o start u
    → All (PriceAllowed o) u.matches
    → (u.order.remaining_quantity ≡ 0) ⊎ (is_cancelled st ≡ true)
    → Ends o start (some (finish st event u))
finish-Ends o start st event u p a (inl z) = (ground arith, a, inl z)
finish-Ends o start st event u p a (inr c) = (ground arith, a, inr (inr c))

limit_round_shrinks :
    (o : Order) (start : OrderBook) (now : ℕ) (t : Trading) (m : Order)
    → Progress o start t
    → find_match t.order t.book ≡ some m
    → (limit_round now m t).order.remaining_quantity == 0 ≡ false
    → length (limit_round now m t).book.order_index < length t.book.order_index
unfolding limit_round execute_match
limit_round_shrinks o start now t m p h z =
    round_shrinks o start now t m p (find_match-IsFirst t.order t.book m h).0 z

limit_loop-fuel :
    (o : Order) (start : OrderBook) (now fuel : ℕ) (t : Trading)
    → Progress o start t
    → All (PriceAllowed o) t.matches
    → length t.book.order_index < fuel
    → Ends o start (limit_loop now fuel t)
unfolding limit_loop
limit_loop-fuel o start now zero t p a h = elim h [ ]
limit_loop-fuel o start now (suc fuel) t p a h =
    elim (Bool-cases (t.order.remaining_quantity == 0)) [
      | inl z ↦ rw (z, limit_loop) (p, a, inl (ground arith))
      | inr z ↦
          rw (z, limit_loop)
            (elim (Option-cases (find_match t.order t.book)) [
              | inl n ↦ rw (n, limit_loop) (p, a, inr (inl n))
              | inr (m, e) ↦
                  let u = limit_round now m t in
                  let (q, b) = limit_round-Progress o start now t m p e a in
                  let goes_on = limit_loop-fuel o start now fuel u q b in
                  rw (e, limit_loop)
                    (elim (Bool-cases (u.order.remaining_quantity == 0)) [
                      | inl y ↦
                          rw (y, limit_loop)
                            (finish-Ends o start OrderStatus.filled order_filled u q b
                              (inl (ground arith)))
                      | inr y ↦
                          rw (y, limit_loop)
                            (elim (Bool-cases (is_ioc u.order.time_in_force)) [
                              | inl i ↦
                                  rw (i, limit_loop)
                                    (finish-Ends o start OrderStatus.cancelled order_cancelled u q b
                                      (inr refl))
                              | inr i ↦
                                  rw (i, limit_loop)
                                    (goes_on
                                      (omega (arith, limit_round_shrinks o start now t m p e y)))
                            ])
                    ])
            ])
    ]

-- On a valid book the loop of a limit order always ends within two rounds more than there
-- are orders in the index. Every trade it made is at a price that the order's limit allows, the filled
-- quantity grew by what was traded, the book is still valid, and the loop stopped because nothing
-- remains, nothing matches, or the order was cancelled.
pub limit_loop-Ends :
    (o : Order) (now : ℕ) (b : OrderBook)
    → BookIsValid b
    → IsBalanced o
    → Ends o b (limit_loop now (rounds b) (begin o b))
limit_loop-Ends o now b v h =
    limit_loop-fuel o b now (rounds b) (begin o b) (begin-Progress o b v h) tt (omega arith)

-- A market loop stops because nothing remains or the other side is empty.
abbrev pub MarketEnds : Order → OrderBook → Option Trading → Type 0
MarketEnds o b none = ⊥
MarketEnds o b (some u) =
    Progress o b u
    × ((u.order.remaining_quantity ≡ 0) ⊎ (get_best (opposite u.order.side) u.book ≡ none))

abbrev EnoughRounds : ℕ → Trading → Type 0
EnoughRounds fuel t =
    ((t.order.remaining_quantity ≡ 0) × (0 < fuel)) ⊎ (length t.book.order_index + 1 < fuel)

market_round-Progress :
    (o : Order) (start : OrderBook) (now : ℕ) (t : Trading) (m : Order)
    → Progress o start t
    → IsFirst (opposite t.order.side) t.book m
    → Progress o start (market_round now m t)
unfolding market_round execute_match
market_round-Progress o start now t m p f = round-Progress o start now t m p f _

market_round-EnoughRounds :
    (o : Order) (start : OrderBook) (now fuel : ℕ) (t : Trading) (m : Order)
    → Progress o start t
    → IsFirst (opposite t.order.side) t.book m
    → length t.book.order_index + 1 < suc fuel
    → EnoughRounds fuel (market_round now m t)
unfolding market_round execute_match
market_round-EnoughRounds o start now fuel t m p f h =
    elim (Bool-cases (t.order.remaining_quantity - matched_with t.order m == 0)) [
      | inl z ↦ inl (ground arith, ground arith)
      | inr z ↦ inr (omega (arith, round_shrinks o start now t m p f z))
    ]

no_best :
    (s : OrderSide) (b : OrderBook)
    → BookIsValid b
    → get_best_level s b ≡ none
    → get_best s b ≡ none
no_best s b v h = elim (Option-cases (get_best s b)) [
  | inl e ↦ e
  | inr (p, e) ↦ let (l, m, q, f) = get_best-level s p b v e in cc
]

has_first :
    (s : OrderSide) (b : OrderBook) (l : OrderBookLevel)
    → BookIsValid b
    → get_best_level s b ≡ some l
    → (m : Order) × (get_first_order l ≡ some m)
unfolding get_best_level
has_first s b l v h = elim (Option-cases (get_best s b)) [
  | inl e ↦ absurd (ground arith)
  | inr (p, e) ↦ let (k, m, q, f) = get_best-level s p b v e in (m, ground arith)
]

market_loop-fuel :
    (o : Order) (start : OrderBook) (now fuel : ℕ) (t : Trading)
    → Progress o start t
    → EnoughRounds fuel t
    → MarketEnds o start (market_loop now fuel t)
unfolding market_loop
market_loop-fuel o start now zero t p h = absurd (omega arith)
market_loop-fuel o start now (suc fuel) t p h =
    elim (Bool-cases (t.order.remaining_quantity == 0)) [
      | inl z ↦ rw (z, market_loop) (p, inl (ground arith))
      | inr z ↦
          let s = opposite t.order.side in
          rw (z, market_loop)
            (elim (Option-cases (get_best_level s t.book)) [
              | inl n ↦ rw (n, market_loop) (ground arith, inr (no_best s t.book p.valid n))
              | inr (l, e) ↦
                  let (m, g) = has_first s t.book l p.valid e in
                  let f = level-IsFirst s t.book l m e g in
                  rw (e, market_loop)
                    (rw (g, market_loop)
                      (market_loop-fuel o start now fuel (market_round now m t)
                        (market_round-Progress o start now t m p f)
                        (market_round-EnoughRounds o start now fuel t m p f (ground arith))))
            ])
    ]

-- On a valid book the loop of a market order always ends within its rounds: either nothing of the
-- order remains, or the other side of the book is empty. The book stays valid, and the filled
-- quantity grew by what was traded.
pub market_loop-MarketEnds :
    (o : Order) (now : ℕ) (b : OrderBook)
    → BookIsValid b
    → IsBalanced o
    → MarketEnds o b (market_loop now (rounds b) (begin o b))
market_loop-MarketEnds o now b v h =
    market_loop-fuel o b now (rounds b) (begin o b) (begin-Progress o b v h) (inr (omega arith))
