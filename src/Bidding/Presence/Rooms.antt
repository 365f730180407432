-- ===== src/Bidding/Presence/Rooms.antt =====
-- Any history of joins, leaves, bids and disconnections.
use swap_trade_backend.Common.{
  ℕ, ◌≡◌, refl, ◌==◌, Bool, false, not, ◌&&◌, ◌||◌, inl, inr, List, [], ◌∷◌, lookup, nat_key,
  lookup-erase, arith, Bool-cases, Option-cases, sym, ap, ◌∙◌,
}
use swap_trade_backend.Bidding.Presence.{
  Presence, set_or_empty, has, join, leave, leave_all, disconnect_socket, mark_bid_placed,
}
use swap_trade_backend.Bidding.Presence.Mirror.{
  in_room, in_set, both, join-in_room, join-in_set, leave-in_room, leave-in_set, leave_all-in_room,
  leave_all-other_set, mark_bid_placed-in_room,
}

-- A socket stands in a room exactly when the room stands in its set.
abbrev pub IsMirrored : Presence → Type 0
IsMirrored p = (a s : ℕ) → in_room a s p ≡ in_set a s p

-- What a disconnection leaves of the rooms.
disconnect_socket-in_room :
    (t a s : ℕ) (p : Presence)
    → IsMirrored p
    → in_room a s (disconnect_socket t p).1 ≡ (not (s == t) && in_room a s p)
unfolding disconnect_socket
disconnect_socket-in_room t a s p v =
    let ids = set_or_empty (lookup t p.socket_rooms) in
    leave_all-in_room t ids a s p ∙ (elim (Bool-cases (s == t)) [
      | inr e ↦ rw e (elim (Bool-cases (has a ids)) [ inl g ↦ rw g refl | inr g ↦ rw g refl ])
      | inl e ↦
          let at : s ≡ t = ground arith in
          rw e (elim (Bool-cases (has a ids)) [ inl g ↦ rw g refl | inr g ↦ rw (g, v a s, at) g ])
    ])

disconnect_socket-in_set :
    (t a s : ℕ) (p : Presence)
    → in_set a s (disconnect_socket t p).1 ≡ (not (s == t) && in_set a s p)
unfolding disconnect_socket
disconnect_socket-in_set t a s p =
    let ids = set_or_empty (lookup t p.socket_rooms) in
    rw (lookup-erase s t (leave_all t ids p).socket_rooms) (elim (Bool-cases (s == t)) [
      | inl e ↦ rw e refl
      | inr e ↦ rw e (leave_all-other_set t ids a s p e)
    ])

mark_bid_placed-in_set :
    (now b t a s : ℕ) (p : Presence) → in_set a s (mark_bid_placed now b t p) ≡ in_set a s p
unfolding mark_bid_placed
mark_bid_placed-in_set now b t a s p = elim (Option-cases (lookup b p.rooms)) [
  | inl h ↦ rw (h, mark_bid_placed) refl
  | inr (m, h) ↦
      rw (h, mark_bid_placed)
        (elim (Option-cases (lookup t m)) [
          | inl k ↦ rw (k, mark_bid_placed) refl
          | inr (info, k) ↦ rw (k, mark_bid_placed) refl
        ])
]

pub data PresenceCall : Type 0 where
  joins : ℕ → ℕ → ℕ → ℕ → PresenceCall
  leaves : ℕ → ℕ → PresenceCall
  disconnects : ℕ → PresenceCall
  bids : ℕ → ℕ → ℕ → PresenceCall

abbrev pub step_presence : Presence → PresenceCall → Presence
step_presence p (joins now a s user) = join now a s user p
step_presence p (leaves a s) = leave a s p
step_presence p (disconnects s) = (disconnect_socket s p).1
step_presence p (bids now a s) = mark_bid_placed now a s p

abbrev pub run_presence : Presence → List PresenceCall → Presence
run_presence p [] = p
run_presence p (c ∷ cs) = run_presence (step_presence p c) cs

-- Whether a socket is in a room by the history alone: the last join, leave or disconnection
-- decides.
abbrev pub joined : ℕ → ℕ → Bool → List PresenceCall → Bool
joined a s now_in [] = now_in
joined a s now_in (joins _ b t _ ∷ cs) = joined a s (both a s b t || now_in) cs
joined a s now_in (leaves b t ∷ cs) = joined a s (not (both a s b t) && now_in) cs
joined a s now_in (disconnects t ∷ cs) = joined a s (not (s == t) && now_in) cs
joined a s now_in (bids _ _ _ ∷ cs) = joined a s now_in cs

-- The rooms and the sets agree with the history.
abbrev Agrees : (ℕ → ℕ → Bool) → Presence → Type 0
Agrees f p = (a s : ℕ) → (in_room a s p ≡ f a s) × (in_set a s p ≡ f a s)

follow_history :
    (f : ℕ → ℕ → Bool) (cs : List PresenceCall) (p : Presence)
    → Agrees f p
    → (a s : ℕ)
    → (in_room a s (run_presence p cs) ≡ joined a s (f a s) cs)
      × (in_set a s (run_presence p cs) ≡ joined a s (f a s) cs)
follow_history f [] p v a s = v a s
follow_history f (joins now b t user ∷ cs) p v a s =
    follow_history (λ a s. both a s b t || f a s) cs (join now b t user p)
      (λ a s. (
        join-in_room now b t user a s p ∙ ap (λ x. both a s b t || x) (v a s).0,
        join-in_set now b t user a s p ∙ ap (λ x. both a s b t || x) (v a s).1,
      ))
      a s
follow_history f (leaves b t ∷ cs) p v a s =
    follow_history (λ a s. not (both a s b t) && f a s) cs (leave b t p)
      (λ a s. (
        leave-in_room b t a s p ∙ ap (λ x. not (both a s b t) && x) (v a s).0,
        leave-in_set b t a s p ∙ ap (λ x. not (both a s b t) && x) (v a s).1,
      ))
      a s
follow_history f (disconnects t ∷ cs) p v a s =
    follow_history (λ a s. not (s == t) && f a s) cs (disconnect_socket t p).1
      (λ a s. (
        disconnect_socket-in_room t a s p (λ a s. (v a s).0 ∙ sym (v a s).1)
            ∙ ap (λ x. not (s == t) && x) (v a s).0,
        disconnect_socket-in_set t a s p ∙ ap (λ x. not (s == t) && x) (v a s).1,
      ))
      a s
follow_history f (bids now b t ∷ cs) p v a s =
    follow_history f cs (mark_bid_placed now b t p)
      (λ a s. (
        mark_bid_placed-in_room now b t a s p ∙ (v a s).0,
        mark_bid_placed-in_set now b t a s p ∙ (v a s).1,
      ))
      a s

abbrev pub nobody : Presence
nobody = record { rooms = []; socket_rooms = [] }

-- After any history of joins, leaves, disconnections and bids on an empty service, a socket stands
-- in an auction's room, and the auction in the socket's set, exactly when the history says so: it
-- joined, and has neither left since nor been disconnected.
pub run_presence-joined :
    (cs : List PresenceCall) (a s : ℕ)
    → (in_room a s (run_presence nobody cs) ≡ joined a s false cs)
      × (in_set a s (run_presence nobody cs) ≡ joined a s false cs)
run_presence-joined cs a s = follow_history (λ a s. false) cs nobody (λ a s. (refl, refl)) a s
