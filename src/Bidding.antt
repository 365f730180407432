-- ===== src/Bidding.antt =====
-- bidding/entities/auction.entity.ts and bidding/auction/auction-timer.service.ts: the clock of an
-- auction. Times are in milliseconds; amounts count the smallest unit. One tick or one extension
-- is one step: it reads and writes its row as a whole.
pub mod Clock
pub mod Ending
pub mod Replay
pub mod Presence
mod Examples
use swap_trade_backend.Common.{
  ℕ, ◌+◌, ◌-◌, ◌*◌, ◌==◌, ltb, leb, Bool, true, false, Option, none, some, List, [], ◌∷◌, ◌++◌,
  keep_if, not, ◌||◌, Map, lookup, insert, nat_key, if◌then◌else◌,
}

pub data AuctionStatus : Type 0 where
  scheduled active ending ended cancelled settled : AuctionStatus

pub record Auction : Type 0 where
  pub id : ℕ
  pub asset_id : ℕ
  pub title : ℕ
  pub description : Option ℕ
  pub reserve_price : ℕ
  pub starting_price : ℕ
  pub min_bid_increment : ℕ
  pub current_highest_bid : Option ℕ
  pub current_highest_bidder_id : Option ℕ
  pub status : AuctionStatus
  pub starts_at : ℕ
  pub ends_at : ℕ
  pub extension_seconds : ℕ
  pub extension_count : ℕ
  pub max_extensions : ℕ
  pub bid_count : ℕ
  pub winner_id : Option ℕ
  pub winning_bid : Option ℕ

-- A tick holds the remaining time, whether it is the last minute, and the extensions so far.
pub data TimerEvent : Type 0 where
  ticked : ℕ → ℕ → Bool → ℕ → TimerEvent
  now_ending : ℕ → TimerEvent
  now_ended : ℕ → TimerEvent
  extended : ℕ → ℕ → ℕ → TimerEvent

-- The rows, the auctions whose timer runs, and what was emitted.
pub record Timers : Type 0 where
  pub auctions : Map ℕ Auction
  pub running : List ℕ
  pub events : List TimerEvent

abbrev pub ending_threshold : ℕ
ending_threshold = 60000

abbrev pub anti_snipe_window : ℕ
anti_snipe_window = 30000

abbrev pub has_timer : ℕ → List ℕ → Bool
has_timer id [] = false
has_timer id (i ∷ is) = i == id || has_timer id is

unfoldable pub start_timer : Auction → Timers → Timers
start_timer a s =
    if has_timer a.id s.running then s else record s { running = s.running ++ a.id ∷ [] }

unfoldable pub stop_timer : ℕ → Timers → Timers
stop_timer id s = record s { running = keep_if (λ i. not (i == id)) s.running }

abbrev pub is_running : ℕ → Timers → Bool
is_running id s = has_timer id s.running

abbrev pub on_module_destroy : Timers → Timers
on_module_destroy s = record s { running = [] }

abbrev pub is_active : AuctionStatus → Bool
is_active AuctionStatus.active = true
is_active _ = false

abbrev pub is_over : AuctionStatus → Bool
is_over AuctionStatus.ended = true
is_over AuctionStatus.settled = true
is_over AuctionStatus.cancelled = true
is_over _ = false

abbrev pub emit : TimerEvent → Timers → Timers
emit e s = record s { events = s.events ++ e ∷ [] }

-- `auctionRepo.update(id, ...)`
abbrev pub update_row : ℕ → Auction → Timers → Timers
update_row id a s = record s { auctions = insert id a s.auctions }

abbrev pub with_status : AuctionStatus → Auction → Auction
with_status t a = record a { status = t }

abbrev pub prolonged : Auction → Auction
prolonged a = record a {
  ends_at = a.ends_at + a.extension_seconds * 1000;
  extension_count = a.extension_count + 1;
  status = AuctionStatus.active;
}

unfoldable pub extend_if_anti_snipe : ℕ → ℕ → Timers → Bool × Timers
extend_if_anti_snipe now id s = elim (lookup id s.auctions) [
  | none ↦ (false, s)
  | some a ↦
      if not (is_active a.status) || leb a.max_extensions a.extension_count
      then (false, s)
      else if ltb (now + anti_snipe_window) a.ends_at
      then (false, s)
      else (
        true,
        emit (extended id (prolonged a).ends_at (prolonged a).extension_count)
            (update_row id (prolonged a) s),
      )
]

-- The last minute begins.
abbrev pub mark_ending : ℕ → ℕ → Auction → Timers → Timers
mark_ending now id a s =
    if leb a.ends_at (now + ending_threshold)
    then (if is_active a.status
        then emit (now_ending id) (update_row id (with_status AuctionStatus.ending a) s)
        else s)
    else s

unfoldable pub tick : ℕ → ℕ → Timers → Timers
unfolding stop_timer
tick now id s = elim (lookup id s.auctions) [
  | none ↦ stop_timer id s
  | some a ↦
      if is_over a.status
      then stop_timer id s
      else if leb a.ends_at now
      then emit (now_ended id) (update_row id (with_status AuctionStatus.ended a) (stop_timer id s))
      else emit
          (ticked id (a.ends_at - now) (leb a.ends_at (now + ending_threshold)) a.extension_count)
          (mark_ending now id a s)
]
