-- ===== src/Bidding/Ending.antt =====
-- The end of an auction is announced once, and what the last minute does to extensions.
use swap_trade_backend.Common.{
  ℕ, ◌+◌, ◌-◌, ◌≤◌, ◌<◌, ◌≡◌, refl, ◌==◌, ltb, leb, true, false, inl, inr, ◌⊎◌, some, List, [], ◌∷◌,
  ◌++◌, Map, lookup, insert, lookup-insert, lookup-insert_self, nat_key, if◌then◌else◌, arith,
  Bool-cases, Option-cases, subst,
}
use swap_trade_backend.Bidding.{
  Auction, AuctionStatus, Timers, TimerEvent, ticked, now_ending, now_ended, emit, update_row,
  start_timer, stop_timer, extend_if_anti_snipe, tick, prolonged, with_status, is_active, is_over,
  mark_ending, ending_threshold, anti_snipe_window, has_timer,
}
use swap_trade_backend.Bidding.Clock.{
  TimerStep, active_not_over, starts, stops, destroys, ticks, extends, step_timer, run_timer,
}

-- 1 for the event that announces the end of the auction.
abbrev pub is_end_of : ℕ → TimerEvent → ℕ
is_end_of id (now_ended i) = if i == id then 1 else 0
is_end_of id _ = 0

abbrev pub ends_announced : ℕ → List TimerEvent → ℕ
ends_announced id [] = 0
ends_announced id (e ∷ es) = is_end_of id e + ends_announced id es

ends_announced-append :
    (id : ℕ) (es : List TimerEvent) (e : TimerEvent)
    → ends_announced id (es ++ e ∷ []) ≡ ends_announced id es + is_end_of id e
ends_announced-append id [] e = omega arith
ends_announced-append id (x ∷ xs) e = omega (arith, ends_announced-append id xs e)

-- The end was not announced, or it was, once, and the auction is over.
abbrev pub IsAnnounced : ℕ → Map ℕ Auction → List TimerEvent → Type 0
IsAnnounced id m es =
    (ends_announced id es ≡ 0)
    ⊎ ((ends_announced id es ≡ 1)
        × (a : Auction) × (lookup id m ≡ some a)
        × (is_over a.status ≡ true))

emitted-IsAnnounced :
    (id : ℕ) (m : Map ℕ Auction) (es : List TimerEvent) (e : TimerEvent)
    → is_end_of id e ≡ 0
    → IsAnnounced id m es
    → IsAnnounced id m (es ++ e ∷ [])
emitted-IsAnnounced id m es e z (inl h) = inl (omega (arith, ends_announced-append id es e))
emitted-IsAnnounced id m es e z (inr (h, a, p, o)) =
    inr (omega (arith, ends_announced-append id es e), a, p, o)

-- The row of an auction that is not over is written.
written-IsAnnounced :
    (id j : ℕ) (m : Map ℕ Auction) (es : List TimerEvent) (b c : Auction)
    → lookup j m ≡ some b
    → is_over b.status ≡ false
    → IsAnnounced id m es
    → IsAnnounced id (insert j c m) es
written-IsAnnounced id j m es b c h o (inl z) = inl z
written-IsAnnounced id j m es b c h o (inr (z, a, p, q)) = elim (Bool-cases (id == j)) [
  | inl s ↦
      let at : id ≡ j = ground arith in
      let found : lookup j m ≡ some a = subst (λ x. lookup x m ≡ some a) at p in
      let same : a ≡ b = ground arith in
      let over : is_over b.status ≡ true = subst (λ x. is_over x.status ≡ true) same q in cc
  | inr s ↦ inr (z, a, rw (lookup-insert id j c m, s) p, q)
]

not_yet :
    (id j : ℕ) (m : Map ℕ Auction) (es : List TimerEvent) (b : Auction)
    → j ≡ id
    → lookup j m ≡ some b
    → is_over b.status ≡ false
    → IsAnnounced id m es
    → ends_announced id es ≡ 0
not_yet id j m es b at h o (inl z) = z
not_yet id j m es b at h o (inr (z, a, p, q)) =
    let found : lookup id m ≡ some b = subst (λ x. lookup x m ≡ some b) at h in
    let same : a ≡ b = ground arith in
    let over : is_over b.status ≡ true = subst (λ x. is_over x.status ≡ true) same q in cc

ended-IsAnnounced :
    (id j : ℕ) (m : Map ℕ Auction) (es : List TimerEvent) (b : Auction)
    → lookup j m ≡ some b
    → is_over b.status ≡ false
    → IsAnnounced id m es
    → IsAnnounced id (insert j (with_status AuctionStatus.ended b) m) (es ++ now_ended j ∷ [])
ended-IsAnnounced id j m es b h o v = elim (Bool-cases (j == id)) [
  | inr s ↦
      emitted-IsAnnounced id _ es (now_ended j) (rw s refl)
        (written-IsAnnounced id j m es b (with_status AuctionStatus.ended b) h o v)
  | inl s ↦
      let at : j ≡ id = ground arith in
      let one : is_end_of id (now_ended j) ≡ 1 = rw s refl in
      let zero_yet : ends_announced id es ≡ 0 = not_yet id j m es b at h o v in
      inr (
        omega (arith, ends_announced-append id es (now_ended j)),
        with_status AuctionStatus.ended b,
        rw at (lookup-insert_self id (with_status AuctionStatus.ended b) m),
        refl,
      )
]

mark_ending-IsAnnounced :
    (id now j : ℕ) (b : Auction) (s : Timers)
    → lookup j s.auctions ≡ some b
    → is_over b.status ≡ false
    → IsAnnounced id s.auctions s.events
    → let t = mark_ending now j b s in IsAnnounced id t.auctions t.events
mark_ending-IsAnnounced id now j b s h o v =
    elim (Bool-cases (leb b.ends_at (now + ending_threshold))) [
      | inr r ↦ rw r v
      | inl r ↦ rw r (elim (Bool-cases (is_active b.status)) [
        | inr p ↦ rw p v
        | inl p ↦ rw p (
            emitted-IsAnnounced id _ s.events (now_ending j) refl (
              written-IsAnnounced id j s.auctions s.events b (with_status AuctionStatus.ending b) h
                o v))
      ])
    ]

tick-IsAnnounced :
    (id now j : ℕ) (s : Timers)
    → IsAnnounced id s.auctions s.events
    → let t = tick now j s in IsAnnounced id t.auctions t.events
unfolding tick stop_timer
tick-IsAnnounced id now j s v = elim (Option-cases (lookup j s.auctions)) [
  | inl h ↦ rw (h, tick) v
  | inr (b, h) ↦
      rw (h, tick)
        (elim (Bool-cases (is_over b.status)) [
          | inl o ↦ rw (o, tick) v
          | inr o ↦
              rw (o, tick)
                (elim (Bool-cases (leb b.ends_at now)) [
                  | inl r ↦ rw (r, tick) (ended-IsAnnounced id j s.auctions s.events b h o v)
                  | inr r ↦
                      rw (r, tick)
                        (emitted-IsAnnounced id _ _ _ refl
                          (mark_ending-IsAnnounced id now j b s h o v))
                ])
        ])
]

extend-IsAnnounced :
    (id now j : ℕ) (s : Timers)
    → IsAnnounced id s.auctions s.events
    → let t = (extend_if_anti_snipe now j s).1 in IsAnnounced id t.auctions t.events
unfolding extend_if_anti_snipe
extend-IsAnnounced id now j s v = elim (Option-cases (lookup j s.auctions)) [
  | inl h ↦ rw (h, extend_if_anti_snipe) v
  | inr (b, h) ↦
      rw (h, extend_if_anti_snipe)
        (elim (Bool-cases (is_active b.status)) [
          | inr p ↦ rw (p, extend_if_anti_snipe) v
          | inl p ↦
              rw (p, extend_if_anti_snipe)
                (elim (Bool-cases (leb b.max_extensions b.extension_count)) [
                  | inl q ↦ rw (q, extend_if_anti_snipe) v
                  | inr q ↦
                      rw (q, extend_if_anti_snipe)
                        (elim (Bool-cases (ltb (now + anti_snipe_window) b.ends_at)) [
                          | inl r ↦ rw (r, extend_if_anti_snipe) v
                          | inr r ↦
                              rw (r, extend_if_anti_snipe)
                                (emitted-IsAnnounced id _ s.events _ refl (
                                  written-IsAnnounced id j s.auctions s.events b (prolonged b) h
                                    (active_not_over b.status p) v))
                        ])
                ])
        ])
]

step_timer-IsAnnounced :
    (id : ℕ) (s : Timers) (x : TimerStep)
    → IsAnnounced id s.auctions s.events
    → IsAnnounced id (step_timer s x).auctions (step_timer s x).events
unfolding start_timer stop_timer
step_timer-IsAnnounced id s (starts a) v = elim (Bool-cases (has_timer a.id s.running)) [
  | inl h ↦ rw (h, start_timer) v
  | inr h ↦ rw (h, start_timer) v
]
step_timer-IsAnnounced id s (stops j) v = v
step_timer-IsAnnounced id s destroys v = v
step_timer-IsAnnounced id s (ticks now j) v = tick-IsAnnounced id now j s v
step_timer-IsAnnounced id s (extends now j) v = extend-IsAnnounced id now j s v

after_steps :
    (id : ℕ) (s : Timers) (xs : List TimerStep)
    → IsAnnounced id s.auctions s.events
    → IsAnnounced id (run_timer s xs).auctions (run_timer s xs).events
after_steps id s [] v = v
after_steps id s (x ∷ xs) v = after_steps id (step_timer s x) xs (step_timer-IsAnnounced id s x v)

-- From any rows and timers, with nothing emitted yet: after any sequence of starts, stops, ticks
-- and extensions the end of an auction was announced never, or once, and then it is over.
pub run_timer-IsAnnounced :
    (id : ℕ) (s : Timers) (xs : List TimerStep)
    → s.events ≡ []
    → IsAnnounced id (run_timer s xs).auctions (run_timer s xs).events
run_timer-IsAnnounced id s xs e = after_steps id s xs (inl (rw e refl))

-- A tick in the last minute of an active auction that is not at its end marks it as ending; from
-- then on the anti-snipe extension does nothing for it, however late the bid comes.
pub extend_if_anti_snipe-tick :
    (now id : ℕ) (a : Auction) (s : Timers)
    → lookup id s.auctions ≡ some a
    → is_active a.status ≡ true
    → now < a.ends_at
    → a.ends_at ≤ now + ending_threshold
    → (t : Timers) × (tick now id s ≡ t)
      × (lookup id t.auctions ≡ some (with_status AuctionStatus.ending a))
      × ((later : ℕ) → extend_if_anti_snipe later id t ≡ (false, t))
unfolding tick stop_timer extend_if_anti_snipe
extend_if_anti_snipe-tick now id a s h p lt le =
    let open_still = active_not_over a.status p in
    let before : leb a.ends_at now ≡ false = ground arith in
    let minute : leb a.ends_at (now + ending_threshold) ≡ true = ground arith in
    let ending_row = with_status AuctionStatus.ending a in
    let found : lookup id (insert id ending_row s.auctions) ≡ some ending_row =
      lookup-insert_self id ending_row s.auctions in
    let marked =
      emit (ticked id (a.ends_at - now) true a.extension_count)
        (emit (now_ending id) (update_row id ending_row s)) in
    rw (h, open_still, before, minute, p, tick)
      (marked, refl, found, λ later. rw (found, extend_if_anti_snipe) refl)
