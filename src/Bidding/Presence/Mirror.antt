-- ===== src/Bidding/Presence/Mirror.antt =====
-- The rooms and the sets of the sockets say the same.
use swap_trade_backend.Common.{
  ℕ, suc, ◌≡◌, refl, ◌==◌, Bool, false, not, ◌&&◌, ◌||◌, inl, inr, List, [], ◌∷◌, ◌++◌, length,
  keep_if, Map, lookup, erase, nat_key, is_some, if◌then◌else◌, lookup-insert, lookup-erase, arith,
  Bool-cases, Option-cases, ◌∙◌,
}
use swap_trade_backend.Bidding.Presence.{
  Presence, Room, room_or_empty, set_or_empty, has, add_to_set, join, keep_room, leave, leave_all,
  mark_bid_placed,
}

-- The socket stands in the auction's room.
abbrev pub in_room : ℕ → ℕ → Presence → Bool
in_room a s p = is_some (lookup s (room_or_empty (lookup a p.rooms)))

-- The auction stands in the socket's set.
abbrev pub in_set : ℕ → ℕ → Presence → Bool
in_set a s p = has a (set_or_empty (lookup s p.socket_rooms))

abbrev pub both : ℕ → ℕ → ℕ → ℕ → Bool
both a s b t = a == b && (s == t)

pub join-in_room :
    (now b t user a s : ℕ) (p : Presence)
    → in_room a s (join now b t user p) ≡ (both a s b t || in_room a s p)
unfolding join
join-in_room now b t user a s p = rw (lookup-insert a b _ p.rooms) (elim (Bool-cases (a == b)) [
  | inr e ↦ rw e refl
  | inl e ↦
      let at : a ≡ b = ground arith in
      rw (e, at, lookup-insert s t _ (room_or_empty (lookup b p.rooms)))
        (elim (Bool-cases (s == t)) [ inl f ↦ rw f refl | inr f ↦ rw f refl ])
])

has-append : (i j : ℕ) (js : List ℕ) → has i (js ++ j ∷ []) ≡ (i == j || has i js)
has-append i j [] = refl
has-append i j (k ∷ ks) = ground (arith, has-append i j ks)

has-add_to_set : (i j : ℕ) (js : List ℕ) → has i (add_to_set j js) ≡ (i == j || has i js)
has-add_to_set i j js = elim (Bool-cases (has j js)) [
  | inr e ↦ rw e (has-append i j js)
  | inl e ↦ rw e (elim (Bool-cases (i == j)) [
    | inl f ↦ let at : i ≡ j = ground arith in rw (f, at, e) refl
    | inr f ↦ rw f refl
  ])
]

pub join-in_set :
    (now b t user a s : ℕ) (p : Presence)
    → in_set a s (join now b t user p) ≡ (both a s b t || in_set a s p)
unfolding join
join-in_set now b t user a s p =
    rw (lookup-insert s t _ p.socket_rooms) (elim (Bool-cases (s == t)) [
      | inr e ↦ rw e (elim (Bool-cases (a == b)) [ inl f ↦ rw f refl | inr f ↦ rw f refl ])
      | inl e ↦
          let at : s ≡ t = ground arith in
          rw (e, at, has-add_to_set a b (set_or_empty (lookup t p.socket_rooms)))
            (elim (Bool-cases (a == b)) [ inl f ↦ rw f refl | inr f ↦ rw f refl ])
    ])

keep_room-lookup :
    (a b s : ℕ) (m : Room) (rooms : Map ℕ Room)
    → is_some (lookup s (room_or_empty (lookup a (keep_room b m rooms)))) ≡ (
        if a == b
        then is_some (lookup s m)
        else is_some (lookup s (room_or_empty (lookup a rooms))))
keep_room-lookup a b s [] rooms =
    rw (lookup-erase a b rooms)
      (elim (Bool-cases (a == b)) [ inl e ↦ rw e refl | inr e ↦ rw e refl ])
keep_room-lookup a b s (x ∷ m) rooms =
    let big : suc (length m) == 0 ≡ false = ground arith in
    rw (big, lookup-insert a b (x ∷ m) rooms)
      (elim (Bool-cases (a == b)) [ inl e ↦ rw e refl | inr e ↦ rw e refl ])

pub leave-in_room :
    (b t a s : ℕ) (p : Presence) → in_room a s (leave b t p) ≡ (not (both a s b t) && in_room a s p)
unfolding leave
leave-in_room b t a s p = elim (Option-cases (lookup b p.rooms)) [
  | inl h ↦
      rw (h, leave)
        (elim (Bool-cases (a == b)) [
          | inr e ↦ rw e refl
          | inl e ↦
              let at : a ≡ b = ground arith in
              rw (e, at, h) (elim (Bool-cases (s == t)) [ inl f ↦ rw f refl | inr f ↦ rw f refl ])
        ])
  | inr (m, h) ↦
      rw (h, leave, keep_room-lookup a b s (erase t m) p.rooms)
        (elim (Bool-cases (a == b)) [
          | inr e ↦ rw e refl
          | inl e ↦
              let at : a ≡ b = ground arith in
              rw (e, at, h, lookup-erase s t m)
                (elim (Bool-cases (s == t)) [ inl f ↦ rw f refl | inr f ↦ rw f refl ])
        ])
]

has-keep_if :
    (a b : ℕ) (is : List ℕ) → has a (keep_if (λ i. not (i == b)) is) ≡ (not (a == b) && has a is)
has-keep_if a b [] = ground arith
has-keep_if a b (i ∷ is) = ground (arith, has-keep_if a b is)

pub leave-in_set :
    (b t a s : ℕ) (p : Presence) → in_set a s (leave b t p) ≡ (not (both a s b t) && in_set a s p)
unfolding leave
leave-in_set b t a s p = elim (Option-cases (lookup t p.socket_rooms)) [
  | inl h ↦
      rw (h, leave)
        (elim (Bool-cases (s == t)) [
          | inr e ↦ rw e (elim (Bool-cases (a == b)) [ inl f ↦ rw f refl | inr f ↦ rw f refl ])
          | inl e ↦
              let at : s ≡ t = ground arith in
              rw (e, at, h) (elim (Bool-cases (a == b)) [ inl f ↦ rw f refl | inr f ↦ rw f refl ])
        ])
  | inr (is, h) ↦
      rw (h, leave, lookup-insert s t (keep_if (λ i. not (i == b)) is) p.socket_rooms)
        (elim (Bool-cases (s == t)) [
          | inr e ↦ rw e (elim (Bool-cases (a == b)) [ inl f ↦ rw f refl | inr f ↦ rw f refl ])
          | inl e ↦
              let at : s ≡ t = ground arith in
              rw (e, at, h, has-keep_if a b is)
                (elim (Bool-cases (a == b)) [ inl f ↦ rw f refl | inr f ↦ rw f refl ])
        ])
]

pub leave_all-in_room :
    (t : ℕ) (ids : List ℕ) (a s : ℕ) (p : Presence)
    → in_room a s (leave_all t ids p) ≡ (not (has a ids && (s == t)) && in_room a s p)
leave_all-in_room t [] a s p = refl
leave_all-in_room t (b ∷ ids) a s p =
    leave_all-in_room t ids a s (leave b t p)
    ∙ (rw (leave-in_room b t a s p) (elim (Bool-cases (a == b)) [
      | inl e ↦ rw e (elim (Bool-cases (s == t)) [
        | inl f ↦ rw f (elim (Bool-cases (has a ids)) [ inl g ↦ rw g refl | inr g ↦ rw g refl ])
        | inr f ↦ rw f (elim (Bool-cases (has a ids)) [ inl g ↦ rw g refl | inr g ↦ rw g refl ])
      ])
      | inr e ↦ rw e refl
    ]))

pub leave_all-other_set :
    (t : ℕ) (ids : List ℕ) (a s : ℕ) (p : Presence)
    → s == t ≡ false
    → in_set a s (leave_all t ids p) ≡ in_set a s p
leave_all-other_set t [] a s p h = refl
leave_all-other_set t (b ∷ ids) a s p h =
    leave_all-other_set t ids a s (leave b t p) h
    ∙ leave-in_set b t a s p
    ∙ (rw h (elim (Bool-cases (a == b)) [ inl f ↦ rw f refl | inr f ↦ rw f refl ]))

pub mark_bid_placed-in_room :
    (now b t a s : ℕ) (p : Presence) → in_room a s (mark_bid_placed now b t p) ≡ in_room a s p
unfolding mark_bid_placed
mark_bid_placed-in_room now b t a s p = elim (Option-cases (lookup b p.rooms)) [
  | inl h ↦ rw (h, mark_bid_placed) refl
  | inr (m, h) ↦
      rw (h, mark_bid_placed)
        (elim (Option-cases (lookup t m)) [
          | inl k ↦ rw (k, mark_bid_placed) refl
          | inr (info, k) ↦
              rw (k, mark_bid_placed, lookup-insert a b _ p.rooms)
                (elim (Bool-cases (a == b)) [
                  | inr e ↦ rw e refl
                  | inl e ↦
                      let at : a ≡ b = ground arith in
                      rw (e, at, h, lookup-insert s t _ m)
                        (elim (Bool-cases (s == t)) [
                          | inr f ↦ rw f refl
                          | inl f ↦ let there : s ≡ t = ground arith in rw (f, there, k) refl
                        ])
                ])
        ])
]
