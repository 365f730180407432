-- ===== src/Matching/Examples.antt =====
-- The theorems on the matching engine at concrete orders.
use swap_trade_backend.Common.{
  ℕ, ◌≡◌, refl, ◌==◌, true, false, ◌||◌, Option, none, some, [], ◌∷◌, ◌+◌, ◌<◌, subst, arith,
  if◌then◌else◌, nat_key, IsSorted,
}
use swap_trade_backend.Matching.Types.{Order, OrderSide, OrderType, OrderStatus, TimeInForce}
use swap_trade_backend.Matching.Level.{
  OrderBookLevel, new_level, get_first_order, is_empty, reindex,
}
use swap_trade_backend.Matching.Level
use swap_trade_backend.Matching.Level.Index
use swap_trade_backend.Matching.Level.Index.{new_level-IsValid, asked}
use swap_trade_backend.Matching.Level.Reference.{find_order, without}
use swap_trade_backend.Matching.Book.{
  OrderBook, new_book, insert_sorted_price, remove_order, add_order, get_best, get_best_level,
  ahead, get_volume_at_price, add_to_side, search_place, keep_level,
}
use swap_trade_backend.Matching.Book.Invariant.{BookIsValid, view, with_order, new_book-BookIsValid}
use swap_trade_backend.Matching.Book.Addition
use swap_trade_backend.Matching.Book.Addition.{with_order-BookIsValid}
use swap_trade_backend.Matching.Book.Removal
use swap_trade_backend.Matching.Book.Search
use swap_trade_backend.Matching.Book.Search.{contains}
use swap_trade_backend.Matching.Book.Best
use swap_trade_backend.Matching.Trade.{
  Trading, is_fok, limit_round, execute_match, write_first, find_match, begin, rounds, limit_loop,
  market_loop, settle_resting, take,
}
use swap_trade_backend.Matching.Trade.Step.{IsFirst, left_of, traded}
use swap_trade_backend.Matching.Trade.Step
use swap_trade_backend.Matching.Trade.Loop.{Ends, MarketEnds}
use swap_trade_backend.Matching.Trade.Loop
use swap_trade_backend.Matching.Engine.{Engine, submit_order, book_of}
use swap_trade_backend.Matching.Engine.Submit.{EngineIsValid, Promised}
use swap_trade_backend.Matching.Engine.Submit
use swap_trade_backend.Matching.Engine.Endings

-- User 1 sells 10 at 100.
abbrev ask : Order
ask = record {
  id = 7;
  user_id = 1;
  asset = 3;
  side = OrderSide.sell;
  type = OrderType.limit;
  price = some 100;
  stop_price = none;
  quantity = 10;
  filled_quantity = 0;
  remaining_quantity = 10;
  time_in_force = TimeInForce.gtc;
  timestamp = 1;
  priority = 0;
  status = OrderStatus.pending;
}

-- User 2 buys 4 at up to 101.
abbrev bid : Order
bid = record ask {
  id = 8;
  user_id = 2;
  side = OrderSide.buy;
  price = some 101;
  quantity = 4;
  remaining_quantity = 4;
}

-- The same at market, 15 of it.
abbrev taker : Order
taker = record bid { type = OrderType.market; price = none; quantity = 15; remaining_quantity = 15 }

abbrev book : OrderBook
book = with_order ask 100 (new_book 3)

book_valid : BookIsValid book
book_valid =
    with_order-BookIsValid ask 100 (new_book 3) (new_book-BookIsValid 3) refl refl
      (unfold new_book in refl)

abbrev engine : Engine
engine = record {
  order_books = (3, book) ∷ [];
  stop_orders = [];
  processing_lock = [];
  events = [];
}

engine_valid : EngineIsValid engine
engine_valid a b h = subst BookIsValid (ground arith) book_valid

-- The ask is what an order on the other side meets.
first_ask : IsFirst OrderSide.sell book ask
unfolding new_book get_best add_to_side insert_sorted_price Level.add_order new_level
first_ask = record { price = 100; level = _; best = refl; there = refl; first = refl }

submit_order-Promised_example : Promised bid engine (submit_order 5 bid engine)
submit_order-Promised_example =
    Submit.submit_order-Promised 5 bid engine engine_valid refl (unfold book_of new_book in refl)

limit_loop-Ends_example : Ends bid book (limit_loop 5 (rounds book) (begin bid book))
limit_loop-Ends_example = Loop.limit_loop-Ends bid 5 book book_valid refl

market_loop-MarketEnds_example :
    MarketEnds taker book (market_loop 5 (rounds book) (begin taker book))
market_loop-MarketEnds_example = Loop.market_loop-MarketEnds taker 5 book book_valid refl

settle_resting-BookIsValid_example :
    BookIsValid (settle_resting OrderSide.sell (take 4 ask) book)
    × ((i : ℕ)
        → view (settle_resting OrderSide.sell (take 4 ask) book) i
          ≡ (if i == 7 then left_of 4 ask else view book i))
settle_resting-BookIsValid_example =
    Step.settle_resting-BookIsValid OrderSide.sell book book_valid ask first_ask 4 (omega arith)

add_order-BookIsValid_example :
    (c : OrderBook) × (add_order bid book ≡ some c)
    × BookIsValid c
    × ((j : ℕ) → view c j ≡ (if j == 8 then some bid else view book j))
add_order-BookIsValid_example =
    Addition.add_order-BookIsValid bid 101 book book_valid refl refl (omega arith)
      (unfold new_book in refl)

remove_order-BookIsValid_example :
    ((remove_order 7 book).0 ≡ view book 7)
    × BookIsValid (remove_order 7 book).1
    × ((i : ℕ) → view (remove_order 7 book).1 i ≡ (if i == 7 then none else view book i))
remove_order-BookIsValid_example = Removal.remove_order-BookIsValid 7 book book_valid

ask_seen : view book 7 ≡ some ask
unfolding new_book add_to_side Level.add_order new_level
ask_seen = refl

search_place-scan_example : search_place OrderSide.buy (9 ∷ 7 ∷ 4 ∷ []) 5 3 0 3 ≡ 2
search_place-scan_example = Search.search_place-scan OrderSide.buy (9 ∷ 7 ∷ 4 ∷ []) 5 (ground arith)

insert_sorted_price-IsSorted_example :
    IsSorted (ahead OrderSide.buy) (insert_sorted_price (9 ∷ 7 ∷ 4 ∷ []) 5 OrderSide.buy)
    × ((q : ℕ)
        → contains q (insert_sorted_price (9 ∷ 7 ∷ 4 ∷ []) 5 OrderSide.buy)
          ≡ q == 5 || contains q (9 ∷ 7 ∷ 4 ∷ []))
insert_sorted_price-IsSorted_example =
    Search.insert_sorted_price-IsSorted OrderSide.buy (9 ∷ 7 ∷ 4 ∷ []) 5 (ground arith) refl

get_best-not_behind_example :
    (p : ℕ) × (get_best OrderSide.sell book ≡ some p) × (ahead OrderSide.sell 100 p ≡ false)
get_best-not_behind_example =
    Best.get_best-not_behind OrderSide.sell 7 100 book book_valid
      (unfold new_book add_to_side Level.add_order new_level in refl)

-- A level with the ask.
abbrev level : OrderBookLevel
level = Level.add_order ask (new_level 100)

level-IsValid : Index.IsValid level
level-IsValid =
    Index.add_order-IsValid ask (new_level 100) (unfold new_level in refl) (new_level-IsValid 100)

level_remove_example :
    Index.IsValid (Level.remove_order 7 level).1
    × ((Level.remove_order 7 level).0 ≡ find_order 7 level.orders)
    × ((Level.remove_order 7 level).1.orders ≡ without 7 level.orders)
    × ((Level.remove_order 7 level).1.total_quantity + asked (find_order 7 level.orders)
        ≡ level.total_quantity)
level_remove_example = Index.remove_order-IsValid 7 level level-IsValid

partial_fill_keeps_volume_example :
    (get_volume_at_price OrderSide.sell 100 (settle_resting OrderSide.sell (take 4 ask) book)
      ≡ get_volume_at_price OrderSide.sell 100 book)
    × (view (settle_resting OrderSide.sell (take 4 ask) book) 7
        ≡ some (traded OrderStatus.partial 4 ask))
unfolding first_ask
partial_fill_keeps_volume_example =
    Endings.partial_fill_keeps_volume OrderSide.sell book ask 4 book_valid first_ask (omega arith)
      (omega arith)

-- An immediate-or-cancel bid below the ask.
abbrev low_bid : Order
low_bid = record bid { price = some 99; time_in_force = TimeInForce.ioc }

-- A market sale that finds no bid.
abbrev sale : Order
sale = record taker { side = OrderSide.sell }

-- A fill-or-kill bid for more than there is.
abbrev greedy : Order
greedy = record bid { quantity = 15; remaining_quantity = 15; time_in_force = TimeInForce.fok }

abbrev or_begin : Option Trading → Trading
or_begin none = begin greedy book
or_begin (some t) = t

greedy_end : Trading
unfolding limit_loop find_match get_best get_best_level get_first_order limit_round execute_match
    settle_resting write_first remove_order keep_level book_of new_book add_to_side
    insert_sorted_price Level.add_order new_level Level.remove_order is_empty reindex
greedy_end = or_begin (limit_loop 5 (rounds book) (begin greedy book))

greedy_ran :
    limit_loop 5 (rounds (book_of 3 engine)) (begin greedy (book_of 3 engine)) ≡ some greedy_end
unfolding greedy_end
greedy_ran = refl

greedy_left :
    (is_fok greedy_end.order.time_in_force ≡ true) × (0 < greedy_end.order.remaining_quantity)
unfolding greedy_end
greedy_left = (refl, omega arith)
