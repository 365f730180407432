-- ===== src/Bidding/Examples.antt =====
-- The theorems on the clock at one auction.
use swap_trade_backend.Common.{
  keep_if, ◌≤◌, ℕ, ◌≡◌, refl, false, none, some, List, [], ◌∷◌, lookup, nat_key, arith,
}
use swap_trade_backend.Bidding.{
  Auction, AuctionStatus, Timers, tick, extend_if_anti_snipe, with_status,
}
use swap_trade_backend.Bidding.Clock.{TimerStep, starts, ticks, extends, run_timer, IsEvolved}
use swap_trade_backend.Bidding.Clock
use swap_trade_backend.Bidding.Ending.{IsAnnounced}
use swap_trade_backend.Bidding.Ending
use swap_trade_backend.Bidding.Replay.{
  AuctionEvent, ReplayCall, records, clears, run_replay, latest, recorded, get_events_since,
  is_newer, get_buffer_size,
}
use swap_trade_backend.Bidding.Replay
use swap_trade_backend.Bidding.Presence.Mirror.{in_room, in_set}
use swap_trade_backend.Bidding.Presence.Rooms.{
  PresenceCall, joins, leaves, disconnects, bids, run_presence, joined, nobody,
}
use swap_trade_backend.Bidding.Presence.Rooms

abbrev lot : Auction
lot = record {
  id = 4;
  asset_id = 1;
  title = 2;
  description = none;
  reserve_price = 0;
  starting_price = 10;
  min_bid_increment = 1;
  current_highest_bid = none;
  current_highest_bidder_id = none;
  status = AuctionStatus.active;
  starts_at = 0;
  ends_at = 100000;
  extension_seconds = 30;
  extension_count = 0;
  max_extensions = 10;
  bid_count = 0;
  winner_id = none;
  winning_bid = none;
}

abbrev open_lot : Timers
open_lot = record { auctions = (4, lot) ∷ []; running = []; events = [] }

abbrev evening : List TimerStep
evening =
    starts lot
    ∷ extends 80000 4
    ∷ ticks 90000 4
    ∷ extends 100000 4
    ∷ ticks 140000 4
    ∷ ticks 141000 4
    ∷ []

run_timer-IsEvolved_example : IsEvolved open_lot.auctions (run_timer open_lot evening).auctions
run_timer-IsEvolved_example = Clock.run_timer-IsEvolved open_lot evening

run_timer-IsAnnounced_example :
    IsAnnounced 4 (run_timer open_lot evening).auctions (run_timer open_lot evening).events
run_timer-IsAnnounced_example = Ending.run_timer-IsAnnounced 4 open_lot evening refl

extend_if_anti_snipe-tick_example :
    (t : Timers) × (tick 50000 4 open_lot ≡ t)
    × (lookup 4 t.auctions ≡ some (with_status AuctionStatus.ending lot))
    × ((later : ℕ) → extend_if_anti_snipe later 4 t ≡ (false, t))
extend_if_anti_snipe-tick_example =
    Ending.extend_if_anti_snipe-tick 50000 4 lot open_lot refl refl (omega arith) (omega arith)

abbrev early : AuctionEvent
early = record { content = 1; timestamp = 10 }

abbrev late : AuctionEvent
late = record { content = 2; timestamp = 20 }

abbrev talk : List ReplayCall
talk = records 4 early ∷ clears 4 ∷ records 4 late ∷ records 5 early ∷ []

get_events_since-run_replay_example :
    let r = run_replay [] talk in
    let es = latest (recorded 4 [] talk) in
    (get_events_since 1000 4 none r ≡ es)
    × ((since : ℕ) → get_events_since 1000 4 (some since) r ≡ keep_if (is_newer 1000 since) es)
    × (get_buffer_size 4 r ≤ 50)
get_events_since-run_replay_example = Replay.get_events_since-run_replay 1000 4 talk

abbrev visits : List PresenceCall
visits =
    joins 1 4 7 5 ∷ joins 2 6 7 5 ∷ joins 3 4 8 9 ∷ bids 4 4 7 ∷ leaves 4 8 ∷ disconnects 8 ∷ []

run_presence-joined_example :
    (in_room 4 7 (run_presence nobody visits) ≡ joined 4 7 false visits)
    × (in_set 4 7 (run_presence nobody visits) ≡ joined 4 7 false visits)
run_presence-joined_example = Rooms.run_presence-joined visits 4 7
