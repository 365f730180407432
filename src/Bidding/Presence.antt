-- ===== src/Bidding/Presence.antt =====
-- bidding/presence/presence.service.ts: which sockets are in the rooms of which auctions, kept
-- twice: by auction and by socket.
pub mod Mirror
pub mod Rooms
use swap_trade_backend.Common.{
  ℕ, zero, suc, ◌+◌, ◌≡◌, refl, ◌==◌, Bool, true, false, not, ◌&&◌, ◌||◌, inl, inr, Option, none,
  some, List, [], ◌∷◌, ◌++◌, length, keep_if, map, Map, lookup, insert, erase, nat_key, is_some,
  if◌then◌else◌, lookup-insert, lookup-erase, arith, Bool-cases, Option-cases, sym, ap, ◌∙◌, subst,
}

pub record ParticipantInfo : Type 0 where
  pub user_id : ℕ
  pub socket_id : ℕ
  pub joined_at : ℕ
  pub has_bid : Bool
  pub last_activity : ℕ

abbrev pub Room : Type 0
Room = Map ℕ ParticipantInfo

pub record Presence : Type 0 where
  pub rooms : Map ℕ Room
  pub socket_rooms : Map ℕ (List ℕ)

abbrev pub room_or_empty : Option Room → Room
room_or_empty none = []
room_or_empty (some m) = m

abbrev pub set_or_empty : Option (List ℕ) → List ℕ
set_or_empty none = []
set_or_empty (some is) = is

abbrev pub has : ℕ → List ℕ → Bool
has i [] = false
has i (j ∷ js) = i == j || has i js

-- `set.add(i)`
abbrev pub add_to_set : ℕ → List ℕ → List ℕ
add_to_set i js = if has i js then js else js ++ i ∷ []

unfoldable pub join : ℕ → ℕ → ℕ → ℕ → Presence → Presence
join now auction socket user p =
    let info : ParticipantInfo = record {
      user_id = user;
      socket_id = socket;
      joined_at = now;
      has_bid = false;
      last_activity = now;
    } in
    record {
      rooms = insert auction (insert socket info (room_or_empty (lookup auction p.rooms))) p.rooms;
      socket_rooms =
          insert socket (add_to_set auction (set_or_empty (lookup socket p.socket_rooms)))
            p.socket_rooms;
    }

-- An empty room is deleted.
abbrev pub keep_room : ℕ → Room → Map ℕ Room → Map ℕ Room
keep_room auction m rooms = if length m == 0 then erase auction rooms else insert auction m rooms

abbrev pub leave_room : ℕ → ℕ → Option Room → Map ℕ Room → Map ℕ Room
leave_room auction socket none rooms = rooms
leave_room auction socket (some m) rooms = keep_room auction (erase socket m) rooms

abbrev pub leave_set : ℕ → ℕ → Option (List ℕ) → Map ℕ (List ℕ) → Map ℕ (List ℕ)
leave_set auction socket none sets = sets
leave_set auction socket (some is) sets = insert socket (keep_if (λ i. not (i == auction)) is) sets

unfoldable pub leave : ℕ → ℕ → Presence → Presence
leave auction socket p = record {
  rooms = leave_room auction socket (lookup auction p.rooms) p.rooms;
  socket_rooms = leave_set auction socket (lookup socket p.socket_rooms) p.socket_rooms;
}

abbrev pub leave_all : ℕ → List ℕ → Presence → Presence
leave_all socket [] p = p
leave_all socket (a ∷ auctions) p = leave_all socket auctions (leave a socket p)

unfoldable pub disconnect_socket : ℕ → Presence → List ℕ × Presence
disconnect_socket socket p =
    let ids = set_or_empty (lookup socket p.socket_rooms) in
    let left = leave_all socket ids p in
    (ids, record left { socket_rooms = erase socket left.socket_rooms })

unfoldable pub mark_bid_placed : ℕ → ℕ → ℕ → Presence → Presence
mark_bid_placed now auction socket p = elim (lookup auction p.rooms) [
  | none ↦ p
  | some m ↦ elim (lookup socket m) [
    | none ↦ p
    | some info ↦ record p {
      rooms =
          insert auction (insert socket (record info { has_bid = true; last_activity = now }) m)
            p.rooms;
    }
  ]
]

abbrev pub get_participants : ℕ → Presence → List ParticipantInfo
get_participants auction p = map (λ e. e.1) (room_or_empty (lookup auction p.rooms))

abbrev pub get_participant_count : ℕ → Presence → ℕ
get_participant_count auction p = length (room_or_empty (lookup auction p.rooms))

abbrev pub get_active_bidder_count : ℕ → Presence → ℕ
get_active_bidder_count auction p = length (keep_if (λ i. i.has_bid) (get_participants auction p))

abbrev any_of_user : ℕ → List ParticipantInfo → Bool
any_of_user user [] = false
any_of_user user (i ∷ is) = i.user_id == user || any_of_user user is

abbrev pub is_present : ℕ → ℕ → Presence → Bool
is_present auction user p = any_of_user user (get_participants auction p)

abbrev pub get_socket_ids_for_user : ℕ → ℕ → Presence → List ℕ
get_socket_ids_for_user auction user p =
    map (λ i. i.socket_id) (keep_if (λ i. i.user_id == user) (get_participants auction p))
