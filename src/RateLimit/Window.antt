-- ===== src/RateLimit/Window.antt =====
-- Which requests pass in a window, over all that share a key and whatever else is asked in between.
use swap_trade_backend.Common.{
  sym, ap, subst, codes_same_iff, same_refl, ℕ, ◌+◌, ◌<◌, ◌≡◌, refl, ◌==◌, leb, Bool, true, false,
  not, ◌&&◌, inl, inr, none, some, List, [], ◌∷◌, All, lookup, erase, All-map, All-insert,
  All-erase, codes_key, codes_same, lookup-insert, lookup-erase, lookup-insert_self, if◌then◌else◌,
  arith, Bool-cases, ◌∙◌,
}
use swap_trade_backend.RateLimit.{
  RateLimitRecord, Store, Request, get_endpoint_limit, should_bypass, cleanup,
  cleanup_expired_records, key_of, actual_limit, check_rate_limit,
}

-- A record that is alive survives the clean-up, if its key has no other entry that is expired.
abbrev pub IsFresh : ℕ → List ℕ → Store → Type 0
IsFresh now key = All λ e. (codes_same key e.0 && leb e.1.reset_time now) ≡ false

cleanup-lookup :
    (now : ℕ) (key : List ℕ) (rs store : Store)
    → IsFresh now key rs
    → lookup key (cleanup now rs store) ≡ lookup key store
cleanup-lookup now key [] store f = refl
cleanup-lookup now key ((k, r) ∷ rs) store f =
    cleanup-lookup now key rs (if leb r.reset_time now then erase k store else store) f.1
    ∙ (elim (Bool-cases (leb r.reset_time now)) [
      | inr e ↦ rw e refl
      | inl e ↦
          let other : codes_same key k ≡ false = ground arith in
          rw e (rw (lookup-erase key k store, other) refl)
    ])

-- Every record of the key runs out at one time.
abbrev pub HasReset : ℕ → List ℕ → Store → Type 0
HasReset reset key = All λ e. (codes_same key e.0 && not (e.1.reset_time == reset)) ≡ false

HasReset-IsFresh :
    (now reset : ℕ) (key : List ℕ) (store : Store)
    → now < reset
    → HasReset reset key store
    → IsFresh now key store
HasReset-IsFresh now reset key store lt =
    All-map (λ e. (codes_same key e.0 && not (e.1.reset_time == reset)) ≡ false)
      (λ e. (codes_same key e.0 && leb e.1.reset_time now) ≡ false) (λ e h. ground arith) store

All-cleanup :
    (P : List ℕ × RateLimitRecord → Type 0) (now : ℕ) (rs store : Store)
    → All P store
    → All P (cleanup now rs store)
All-cleanup P now [] store a = a
All-cleanup P now ((k, r) ∷ rs) store a = elim (Bool-cases (leb r.reset_time now)) [
  | inl e ↦ rw e (All-cleanup P now rs (erase k store) (All-erase P k store a))
  | inr e ↦ rw e (All-cleanup P now rs store a)
]

-- The window of a key: its record, and when it runs out.
abbrev pub IsOpen : ℕ → ℕ → List ℕ → Store → Type 0
IsOpen n reset key store =
    (lookup key store ≡ some (record { count = n; reset_time = reset })) × HasReset reset key store

-- A request of the key, in its window.
own-IsOpen :
    (now n reset : ℕ) (q : Request) (store : Store)
    → should_bypass q.endpoint ≡ false
    → now < reset
    → IsOpen n reset (key_of q) store
    → let r = check_rate_limit now q store in
      (r.0.0 ≡ leb (n + 1) (actual_limit q)) × IsOpen (n + 1) reset (key_of q) r.1
unfolding check_rate_limit
own-IsOpen now n reset q store b lt (found, resets) =
    let key = key_of q in
    let kept = cleanup_expired_records now store in
    let same : lookup key kept ≡ some (record { count = n; reset_time = reset }) =
      cleanup-lookup now key store store (HasReset-IsFresh now reset key store lt resets) ∙ found in
    let alive : leb reset now ≡ false = ground arith in
    rw (b, check_rate_limit, same, alive)
      (
        refl,
        (
          lookup-insert_self key (record { count = n + 1; reset_time = reset }) kept,
          All-insert (λ e. (codes_same key e.0 && not (e.1.reset_time == reset)) ≡ false) key
              (record { count = n + 1; reset_time = reset }) kept (ground arith)
              (All-cleanup (λ e. (codes_same key e.0 && not (e.1.reset_time == reset)) ≡ false) now
                store store resets),
        ),
      )

-- A request of another key.
other-IsOpen :
    (now n reset : ℕ) (key : List ℕ) (q : Request) (store : Store)
    → codes_same key (key_of q) ≡ false
    → now < reset
    → IsOpen n reset key store
    → IsOpen n reset key (check_rate_limit now q store).1
unfolding check_rate_limit
other-IsOpen now n reset key q store other lt (found, resets) =
    let kept = cleanup_expired_records now store in
    elim (Bool-cases (should_bypass q.endpoint)) [
      | inl b ↦ rw (b, check_rate_limit) (found, resets)
      | inr b ↦
          rw (b, check_rate_limit, lookup-insert key (key_of q) _ kept, other)
            (
              cleanup-lookup now key store store (HasReset-IsFresh now reset key store lt resets)
                  ∙ found,
              All-insert (λ e. (codes_same key e.0 && not (e.1.reset_time == reset)) ≡ false)
                  (key_of q) _ kept (rw other refl)
                  (All-cleanup (λ e. (codes_same key e.0 && not (e.1.reset_time == reset)) ≡ false)
                    now store store resets),
            )
    ]

-- A request that bypasses the limit is not counted.
bypassed :
    (now : ℕ) (q : Request) (store : Store)
    → should_bypass q.endpoint ≡ true
    → let r = check_rate_limit now q store in (r.0.0 ≡ true) × (r.1 ≡ store)
unfolding check_rate_limit
bypassed now q store b = rw (b, check_rate_limit) (refl, refl)

-- The answers to the requests that share a key, to whatever endpoint and in whatever role.
abbrev pub answers : List ℕ → List (ℕ × Request) → Store → List Bool
answers key [] store = []
answers key ((now, q) ∷ xs) store =
    let r = check_rate_limit now q store in
    let rest = answers key xs r.1 in if codes_same key (key_of q) then r.0.0 ∷ rest else rest

-- The requests of a key are numbered, but for those that bypass the limit; each passes up to the
-- limit of its own endpoint and role.
abbrev pub numbered : List ℕ → ℕ → List (ℕ × Request) → List Bool
numbered key n [] = []
numbered key n ((_, q) ∷ xs) =
    let same = numbered key n xs in
    let next = numbered key (n + 1) xs in
    if codes_same key (key_of q)
    then (if should_bypass q.endpoint then true ∷ same else leb (n + 1) (actual_limit q) ∷ next)
    else same

-- Every answer, in the window of a key that has been asked `n` times.
answers-open :
    (key : List ℕ) (xs : List (ℕ × Request)) (n reset : ℕ) (store : Store)
    → All (λ x. x.0 < reset) xs
    → IsOpen n reset key store
    → answers key xs store ≡ numbered key n xs
answers-open key [] n reset store a v = refl
answers-open key ((now, q) ∷ xs) n reset store a v = elim (Bool-cases (codes_same key (key_of q))) [
  | inr e ↦ rw e (
      answers-open key xs n reset (check_rate_limit now q store).1 a.1
        (other-IsOpen now n reset key q store e a.0 v))
  | inl e ↦ elim (Bool-cases (should_bypass q.endpoint)) [
    | inl b ↦
        let (allowed, same) = bypassed now q store b in
        rw (e, b, allowed)
          (ap (λ ys. true ∷ ys)
            (ap (answers key xs) same ∙ answers-open key xs n reset store a.1 v))
    | inr b ↦
        let one : key_of q ≡ key = sym ((codes_same_iff key (key_of q)).0 e) in
        let (allowed, next) =
          own-IsOpen now n reset q store b a.0 (subst (λ k. IsOpen n reset k store) (sym one) v) in
        let rest =
          answers-open key xs (n + 1) reset (check_rate_limit now q store).1 a.1
            (subst (λ k. IsOpen (n + 1) reset k (check_rate_limit now q store).1) one next) in
        rw (e, b, allowed) (ap (λ ys. leb (n + 1) (actual_limit q) ∷ ys) rest)
  ]
]

-- The store has no record of the key.
abbrev pub IsAbsent : List ℕ → Store → Type 0
IsAbsent key = All λ e. codes_same key e.0 ≡ false

lookup-absent : (key : List ℕ) (store : Store) → IsAbsent key store → lookup key store ≡ none
lookup-absent key [] a = refl
lookup-absent key ((k, r) ∷ rs) a = rw a.0 (lookup-absent key rs a.1)

opening-IsOpen :
    (now : ℕ) (q : Request) (store : Store)
    → should_bypass q.endpoint ≡ false
    → IsAbsent (key_of q) store
    → let r = check_rate_limit now q store in
      (r.0.0 ≡ leb 1 (actual_limit q))
      × IsOpen 1 (now + (get_endpoint_limit q.endpoint).window) (key_of q) r.1
unfolding check_rate_limit
opening-IsOpen now q store b a =
    let key = key_of q in
    let kept = cleanup_expired_records now store in
    let reset = now + (get_endpoint_limit q.endpoint).window in
    let gone = All-cleanup (λ e. codes_same key e.0 ≡ false) now store store a in
    let none_yet : lookup key kept ≡ none = lookup-absent key kept gone in
    rw (b, check_rate_limit, none_yet)
      (
        refl,
        (
          lookup-insert_self key (record { count = 1; reset_time = reset }) kept,
          All-insert (λ e. (codes_same key e.0 && not (e.1.reset_time == reset)) ≡ false) key
              (record { count = 1; reset_time = reset }) kept (ground arith)
              (All-map (λ e. codes_same key e.0 ≡ false)
                (λ e. (codes_same key e.0 && not (e.1.reset_time == reset)) ≡ false)
                (λ e h. rw h refl) kept gone),
        ),
      )

-- In the window that the first request of a key opens, when the store has no record of the key:
-- the requests with that key are numbered together, over all their endpoints and roles and
-- whatever requests of other keys come in between, in whatever order the times are; one passes
-- exactly when its number is at most the limit of its own endpoint times the multiplier of its own
-- role, and those that bypass the limit pass and are not counted.
pub answers-numbered :
    (now : ℕ) (q : Request) (xs : List (ℕ × Request)) (store : Store)
    → should_bypass q.endpoint ≡ false
    → IsAbsent (key_of q) store
    → All (λ x. x.0 < now + (get_endpoint_limit q.endpoint).window) xs
    → answers (key_of q) ((now, q) ∷ xs) store ≡ numbered (key_of q) 0 ((now, q) ∷ xs)
answers-numbered now q xs store b a w =
    let (allowed, opened) = opening-IsOpen now q store b a in
    let rest =
      answers-open (key_of q) xs 1 (now + (get_endpoint_limit q.endpoint).window)
        (check_rate_limit now q store).1 w opened in
    rw (same_refl (key_of q), b, allowed) (ap (λ ys. leb 1 (actual_limit q) ∷ ys) rest)
