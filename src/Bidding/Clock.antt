-- ===== src/Bidding/Clock.antt =====
-- What any sequence of ticks and extensions does to an auction.
use swap_trade_backend.Common.{
  ℕ, ◌+◌, ◌*◌, ◌≤◌, ◌≡◌, refl, ltb, leb, true, false, inl, inr, ◌⊎◌, some, List, [], ◌∷◌, Map,
  lookup, insert, insert_all, nat_key, arith, Bool-cases, Option-cases, sym, subst,
}
use swap_trade_backend.Bidding.{
  Auction, AuctionStatus, Timers, start_timer, stop_timer, on_module_destroy, extend_if_anti_snipe,
  tick, prolonged, with_status, is_active, is_over, mark_ending, ending_threshold,
  anti_snipe_window, has_timer,
}

pub data TimerStep : Type 0 where
  starts : Auction → TimerStep
  stops : ℕ → TimerStep
  destroys : TimerStep
  ticks : ℕ → ℕ → TimerStep
  extends : ℕ → ℕ → TimerStep

abbrev pub step_timer : Timers → TimerStep → Timers
step_timer s (starts a) = start_timer a s
step_timer s (stops id) = stop_timer id s
step_timer s destroys = on_module_destroy s
step_timer s (ticks now id) = tick now id s
step_timer s (extends now id) = (extend_if_anti_snipe now id s).1

abbrev pub run_timer : Timers → List TimerStep → Timers
run_timer s [] = s
run_timer s (x ∷ xs) = run_timer (step_timer s x) xs

-- How an auction may have changed: it was extended some times, within its limit, by its extension
-- each time; one that was over is unchanged.
pub record IsLater (a b : Auction) : Type 0 where
  pub extensions : ℕ
  pub counted : b.extension_count ≡ a.extension_count + extensions
  pub moved : b.ends_at ≡ a.ends_at + extensions * (a.extension_seconds * 1000)
  pub same_length : b.extension_seconds ≡ a.extension_seconds
  pub same_limit : b.max_extensions ≡ a.max_extensions
  pub within : (extensions ≡ 0) ⊎ (b.extension_count ≤ a.max_extensions)
  pub over_stays : is_over a.status ≡ true → b ≡ a

pub IsLater-refl : (a : Auction) → IsLater a a
IsLater-refl a = record {
  extensions = 0;
  counted = omega arith;
  moved = omega arith;
  same_length = refl;
  same_limit = refl;
  within = inl refl;
  over_stays = λ h. refl;
}

next_product : (n m : ℕ) → (n + 1) * m ≡ n * m + m
next_product n m = omega arith

pub active_not_over : (s : AuctionStatus) → is_active s ≡ true → is_over s ≡ false
active_not_over AuctionStatus.active h = refl
active_not_over AuctionStatus.scheduled h = refl
active_not_over AuctionStatus.ending h = refl
active_not_over AuctionStatus.ended h = cc
active_not_over AuctionStatus.cancelled h = cc
active_not_over AuctionStatus.settled h = cc

IsLater-with_status :
    (t : AuctionStatus) (a b : Auction)
    → IsLater a b
    → is_over b.status ≡ false
    → IsLater a (with_status t b)
IsLater-with_status t a b l h = record {
  extensions = l.extensions;
  counted = l.counted;
  moved = l.moved;
  same_length = l.same_length;
  same_limit = l.same_limit;
  within = l.within;
  over_stays = λ o.
      let same = l.over_stays o in
      let x : is_over b.status ≡ true = subst (λ y. is_over y.status ≡ true) (sym same) o in cc;
}

IsLater-prolonged :
    (a b : Auction)
    → IsLater a b
    → is_active b.status ≡ true
    → leb b.max_extensions b.extension_count ≡ false
    → IsLater a (prolonged b)
IsLater-prolonged a b l h room =
    let counted = l.counted in
    let moved = l.moved in
    let same_limit = l.same_limit in
    let length = l.same_length in
    let moved' : b.ends_at + b.extension_seconds * 1000
        ≡ a.ends_at + (l.extensions + 1) * (a.extension_seconds * 1000) =
      rw (next_product l.extensions (a.extension_seconds * 1000), length) (omega arith) in
    record {
      extensions = l.extensions + 1;
      counted = omega arith;
      moved = moved';
      same_length = l.same_length;
      same_limit = l.same_limit;
      within = inr (ground arith);
      over_stays = λ o.
          let same = l.over_stays o in
          let x : is_over b.status ≡ true = subst (λ y. is_over y.status ≡ true) (sym same) o in
          let y = active_not_over b.status h in cc;
    }

-- Every auction of the second table is a later state of that of the first.
abbrev pub IsEvolved : Map ℕ Auction → Map ℕ Auction → Type 0
IsEvolved m n =
    (id : ℕ) (b : Auction)
    → lookup id n ≡ some b
    → (a : Auction) × (lookup id m ≡ some a) × IsLater a b

evolve :
    (m n : Map ℕ Auction) (id : ℕ) (b c : Auction)
    → IsEvolved m n
    → lookup id n ≡ some b
    → ((a : Auction) → IsLater a b → IsLater a c)
    → IsEvolved m (insert id c n)
evolve m n id b c v h f =
    insert_all (λ i x. (a : Auction) × (lookup i m ≡ some a) × IsLater a x) id c n
      (let (a, p, l) = v id b h in (a, p, f a l)) (λ i x p _. v i x p)

extend-IsEvolved :
    (m : Map ℕ Auction) (now id : ℕ) (s : Timers)
    → IsEvolved m s.auctions
    → IsEvolved m (extend_if_anti_snipe now id s).1.auctions
unfolding extend_if_anti_snipe
extend-IsEvolved m now id s v = elim (Option-cases (lookup id s.auctions)) [
  | inl h ↦ rw (h, extend_if_anti_snipe) v
  | inr (b, h) ↦
      rw (h, extend_if_anti_snipe)
        (elim (Bool-cases (is_active b.status)) [
          | inr p ↦ rw (p, extend_if_anti_snipe) v
          | inl p ↦
              rw (p, extend_if_anti_snipe)
                (elim (Bool-cases (leb b.max_extensions b.extension_count)) [
                  | inl q ↦ rw (q, extend_if_anti_snipe) v
                  | inr q ↦
                      rw (q, extend_if_anti_snipe)
                        (elim (Bool-cases (ltb (now + anti_snipe_window) b.ends_at)) [
                          | inl r ↦ rw (r, extend_if_anti_snipe) v
                          | inr r ↦
                              rw (r, extend_if_anti_snipe)
                                (evolve m s.auctions id b (prolonged b) v h
                                  (λ a l. IsLater-prolonged a b l p q))
                        ])
                ])
        ])
]

mark_ending-IsEvolved :
    (m : Map ℕ Auction) (now id : ℕ) (b : Auction) (s : Timers)
    → IsEvolved m s.auctions
    → lookup id s.auctions ≡ some b
    → is_over b.status ≡ false
    → IsEvolved m (mark_ending now id b s).auctions
mark_ending-IsEvolved m now id b s v h o =
    elim (Bool-cases (leb b.ends_at (now + ending_threshold))) [
      | inr r ↦ rw r v
      | inl r ↦ rw r (elim (Bool-cases (is_active b.status)) [
        | inr p ↦ rw p v
        | inl p ↦ rw p (
            evolve m s.auctions id b (with_status AuctionStatus.ending b) v h
              (λ a l. IsLater-with_status AuctionStatus.ending a b l o))
      ])
    ]

tick-IsEvolved :
    (m : Map ℕ Auction) (now id : ℕ) (s : Timers)
    → IsEvolved m s.auctions
    → IsEvolved m (tick now id s).auctions
unfolding tick stop_timer
tick-IsEvolved m now id s v = elim (Option-cases (lookup id s.auctions)) [
  | inl h ↦ rw (h, tick) v
  | inr (b, h) ↦
      rw (h, tick)
        (elim (Bool-cases (is_over b.status)) [
          | inl o ↦ rw (o, tick) v
          | inr o ↦
              rw (o, tick)
                (elim (Bool-cases (leb b.ends_at now)) [
                  | inl r ↦
                      rw (r, tick)
                        (evolve m s.auctions id b (with_status AuctionStatus.ended b) v h
                          (λ a l. IsLater-with_status AuctionStatus.ended a b l o))
                  | inr r ↦ rw (r, tick) (mark_ending-IsEvolved m now id b s v h o)
                ])
        ])
]

step_timer-IsEvolved :
    (m : Map ℕ Auction) (s : Timers) (x : TimerStep)
    → IsEvolved m s.auctions
    → IsEvolved m (step_timer s x).auctions
unfolding start_timer stop_timer
step_timer-IsEvolved m s (starts a) v = elim (Bool-cases (has_timer a.id s.running)) [
  | inl h ↦ rw (h, start_timer) v
  | inr h ↦ rw (h, start_timer) v
]
step_timer-IsEvolved m s (stops id) v = v
step_timer-IsEvolved m s destroys v = v
step_timer-IsEvolved m s (ticks now id) v = tick-IsEvolved m now id s v
step_timer-IsEvolved m s (extends now id) v = extend-IsEvolved m now id s v

evolves_on :
    (m : Map ℕ Auction) (s : Timers) (xs : List TimerStep)
    → IsEvolved m s.auctions
    → IsEvolved m (run_timer s xs).auctions
evolves_on m s [] v = v
evolves_on m s (x ∷ xs) v = evolves_on m (step_timer s x) xs (step_timer-IsEvolved m s x v)

-- Whatever the sequence of starts, stops, ticks and extensions, every auction is a later state of
-- the auction that was there: its end moved by its extension for each one counted, the count went
-- beyond its limit by none of them, and an auction that was over is unchanged.
pub run_timer-IsEvolved :
    (s : Timers) (xs : List TimerStep) → IsEvolved s.auctions (run_timer s xs).auctions
run_timer-IsEvolved s xs = evolves_on s.auctions s xs (λ id b h. (b, h, IsLater-refl b))
