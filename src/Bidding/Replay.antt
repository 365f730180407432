-- ===== src/Bidding/Replay.antt =====
-- bidding/replay/message-replay.service.ts: the last events of an auction, for clients that come
-- back. A timestamp is a number of milliseconds.
use swap_trade_backend.Common.{
  ℕ, ◌+◌, ◌-◌, ◌≤◌, ◌≡◌, refl, ◌==◌, ltb, Bool, ◌&&◌, inl, inr, Option, none, some, List, [], ◌∷◌,
  ◌++◌, length, drop, keep_if, Map, lookup, insert, erase, nat_key, if◌then◌else◌, lookup-insert,
  lookup-erase, length-append, length-drop, drop-append, drop-drop, arith, Bool-cases, sym, ap, ◌∙◌,
  subst,
}

pub record AuctionEvent : Type 0 where
  pub content : ℕ
  pub timestamp : ℕ

abbrev pub Buffers : Type 0
Buffers = Map ℕ (List AuctionEvent)

abbrev pub max_replay_events : ℕ
max_replay_events = 50

abbrev pub replay_window : ℕ
replay_window = 300000

abbrev pub buffer_or_empty : Option (List AuctionEvent) → List AuctionEvent
buffer_or_empty none = []
buffer_or_empty (some es) = es

abbrev pub buffer_of : ℕ → Buffers → List AuctionEvent
buffer_of id r = buffer_or_empty (lookup id r)

-- Evict the oldest entries beyond the cap.
unfoldable pub evict : List AuctionEvent → List AuctionEvent
evict es = if ltb max_replay_events (length es) then drop (length es - max_replay_events) es else es

unfoldable pub record_event : ℕ → AuctionEvent → Buffers → Buffers
unfolding evict
record_event id e r = insert id (evict (buffer_of id r ++ e ∷ [])) r

abbrev pub is_newer : ℕ → ℕ → AuctionEvent → Bool
is_newer now since e = ltb since e.timestamp && ltb now (e.timestamp + replay_window)

unfoldable pub get_events_since : ℕ → ℕ → Option ℕ → Buffers → List AuctionEvent
get_events_since now id none r = buffer_of id r
get_events_since now id (some since) r = keep_if (is_newer now since) (buffer_of id r)

unfoldable pub clear_auction : ℕ → Buffers → Buffers
clear_auction id r = erase id r

abbrev pub get_buffer_size : ℕ → Buffers → ℕ
get_buffer_size id r = length (buffer_of id r)

-- The last fifty.
abbrev pub latest : List AuctionEvent → List AuctionEvent
latest es = drop (length es - 50) es

evict-latest : (es : List AuctionEvent) → evict es ≡ latest es
unfolding evict
evict-latest es = elim (Bool-cases (ltb 50 (length es))) [
  | inl h ↦ rw h refl
  | inr h ↦ let few : length es - 50 ≡ 0 = ground arith in rw (h, few) refl
]

latest-append :
    (es : List AuctionEvent) (e : AuctionEvent)
    → latest (latest es ++ e ∷ []) ≡ latest (es ++ e ∷ [])
latest-append es e =
    let n = length es - 50 in
    let longer = length-append es (e ∷ []) in
    let shorter = length-append (drop n es) (e ∷ []) in
    let kept = length-drop n es in
    let moved : drop n es ++ e ∷ [] ≡ drop n (es ++ e ∷ []) =
      sym (drop-append n es (e ∷ []) (omega arith)) in
    let total : n + (length (drop n es ++ e ∷ []) - 50) ≡ length (es ++ e ∷ []) - 50 =
      omega arith in
    ap (drop (length (drop n es ++ e ∷ []) - 50)) moved
    ∙ drop-drop (length (drop n es ++ e ∷ []) - 50) n (es ++ e ∷ [])
    ∙ ap (λ k. drop k (es ++ e ∷ [])) total

pub data ReplayCall : Type 0 where
  records : ℕ → AuctionEvent → ReplayCall
  clears : ℕ → ReplayCall

abbrev pub run_replay : Buffers → List ReplayCall → Buffers
run_replay r [] = r
run_replay r (records id e ∷ cs) = run_replay (record_event id e r) cs
run_replay r (clears id ∷ cs) = run_replay (clear_auction id r) cs

-- The events of an auction since it was last cleared, after those given.
abbrev pub recorded : ℕ → List AuctionEvent → List ReplayCall → List AuctionEvent
recorded id es [] = es
recorded id es (records i e ∷ cs) = recorded id (if id == i then es ++ e ∷ [] else es) cs
recorded id es (clears i ∷ cs) = recorded id (if id == i then [] else es) cs

record_event-latest :
    (id i : ℕ) (e : AuctionEvent) (r : Buffers) (es : List AuctionEvent)
    → buffer_of id r ≡ latest es
    → buffer_of id (record_event i e r) ≡ latest (if id == i then es ++ e ∷ [] else es)
unfolding record_event
record_event-latest id i e r es h = elim (Bool-cases (id == i)) [
  | inl s ↦
      let at : id ≡ i = ground arith in
      rw (lookup-insert id i (evict (buffer_of i r ++ e ∷ [])) r, s)
        (evict-latest (buffer_of i r ++ e ∷ [])
          ∙ ap (λ x. latest (x ++ e ∷ [])) (subst (λ j. buffer_of j r ≡ latest es) at h)
          ∙ latest-append es e)
  | inr s ↦ rw (lookup-insert id i (evict (buffer_of i r ++ e ∷ [])) r, s) h
]

clear_auction-latest :
    (id i : ℕ) (r : Buffers) (es : List AuctionEvent)
    → buffer_of id r ≡ latest es
    → buffer_of id (clear_auction i r) ≡ latest (if id == i then [] else es)
unfolding clear_auction
clear_auction-latest id i r es h = elim (Bool-cases (id == i)) [
  | inl s ↦ rw (lookup-erase id i r, s) refl
  | inr s ↦ rw (lookup-erase id i r, s) h
]

buffered :
    (id : ℕ) (cs : List ReplayCall) (r : Buffers) (es : List AuctionEvent)
    → buffer_of id r ≡ latest es
    → buffer_of id (run_replay r cs) ≡ latest (recorded id es cs)
buffered id [] r es h = h
buffered id (records i e ∷ cs) r es h =
    buffered id cs (record_event i e r) _ (record_event-latest id i e r es h)
buffered id (clears i ∷ cs) r es h =
    buffered id cs (clear_auction i r) _ (clear_auction-latest id i r es h)

-- After any history of events and clearings on empty buffers, an auction's clients are given the
-- last fifty of the events since it was last cleared, in their order: all of them without a time,
-- and with one those that are newer than it and not five minutes old. Never more than fifty are
-- kept.
pub get_events_since-run_replay :
    (now id : ℕ) (cs : List ReplayCall)
    → let r = run_replay [] cs in
      let es = latest (recorded id [] cs) in
      (get_events_since now id none r ≡ es)
      × ((since : ℕ) → get_events_since now id (some since) r ≡ keep_if (is_newer now since) es)
      × (get_buffer_size id r ≤ 50)
unfolding get_events_since
get_events_since-run_replay now id cs =
    let same = buffered id cs [] [] refl in
    let size = length-drop (length (recorded id [] cs) - 50) (recorded id [] cs) in
    (same, λ since. ap (keep_if (is_newer now since)) same, rw same (omega arith))
