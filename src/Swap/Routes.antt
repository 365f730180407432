-- ===== src/Swap/Routes.antt =====
-- The routes that the search finds, and the quotes along them.
use swap_trade_backend.Common.{
  ℕ, zero, suc, ◌≡◌, refl, ap, subst, ◌==◌, ==_iff, ltb, true, not, ◌&&◌, inl, inr, some, List, [],
  ◌∷◌, ◌++◌, All, All-append, All-map, ==_refl, length, pair_key, Throws, err, ok, Bool-cases,
  Throws-cases, arith,
}
use swap_trade_backend.Swap.Pricing.{route_graph, has, last_of, expand, search_routes}

-- Each asset pairs with the next one.
abbrev pub IsHops : ℕ → List ℕ → Type 0
IsHops from [] = Unit {0}
IsHops from (a ∷ bs) = (has a (route_graph from) ≡ true) × IsHops a bs

-- A path from an asset over such hops.
abbrev pub IsPath : ℕ → List ℕ → Type 0
IsPath from path = (rest : List ℕ) × (path ≡ from ∷ rest) × IsHops from rest

IsHops-append :
    (from n : ℕ) (rest : List ℕ)
    → IsHops from rest
    → has n (route_graph (last_of from rest)) ≡ true
    → IsHops from (rest ++ n ∷ [])
IsHops-append from n [] h e = (e, tt)
IsHops-append from n (a ∷ bs) h e = (h.0, IsHops-append a n bs h.1 e)

last_of-append : (from n : ℕ) (rest : List ℕ) → last_of from (rest ++ n ∷ []) ≡ n
last_of-append from n [] = refl
last_of-append from n (a ∷ bs) = last_of-append a n bs

IsPath-append :
    (from n : ℕ) (path : List ℕ)
    → IsPath from path
    → has n (route_graph (last_of from path)) ≡ true
    → IsPath from (path ++ n ∷ []) × (last_of from (path ++ n ∷ []) ≡ n)
IsPath-append from n path (rest, e, h) k =
    let next = subst (λ p. has n (route_graph (last_of from p)) ≡ true) e k in
    (
      (rest ++ n ∷ [], ap (λ p. p ++ n ∷ []) e, IsHops-append from n rest h next),
      last_of-append from n path,
    )

-- A route to `to`, or a queue of paths.
abbrev IsExpanded : ℕ → ℕ → Throws (List ℕ) (List (List ℕ) × List ℕ) → Type 0
IsExpanded from to (err found) = IsPath from found × (last_of from found ≡ to)
IsExpanded from to (ok (queue, visited)) = All (IsPath from) queue

expand-IsExpanded :
    (from to : ℕ) (path ns : List ℕ) (queue : List (List ℕ)) (visited : List ℕ)
    → IsPath from path
    → All (λ n. has n (route_graph (last_of from path)) ≡ true) ns
    → All (IsPath from) queue
    → IsExpanded from to (expand to path ns (queue, visited))
unfolding expand
expand-IsExpanded from to path [] queue visited p a q = q
expand-IsExpanded from to path (n ∷ ns) queue visited p a q =
    let longer = IsPath-append from n path p a.0 in
    elim (Bool-cases (n == to)) [
      | inl e ↦
          let same : n ≡ to = (==_iff n to).0 e in
          rw (e, expand)
            (subst (λ x. IsPath from (path ++ x ∷ []) × (last_of from (path ++ x ∷ []) ≡ x)) same
              longer)
      | inr e ↦ elim (Bool-cases (not (has n visited) && ltb (length path) 4)) [
        | inl f ↦
            rw (e, f, expand)
              (expand-IsExpanded from to path ns (queue ++ (path ++ n ∷ []) ∷ []) (n ∷ visited) p
                a.1 (All-append (IsPath from) queue ((path ++ n ∷ []) ∷ []) q (longer.0, tt)))
        | inr f ↦ rw (e, f, expand) (expand-IsExpanded from to path ns queue visited p a.1 q)
      ]
    ]

has-All : (xs : List ℕ) → All (λ n. has n xs ≡ true) xs
has-All [] = tt
has-All (x ∷ xs) = (
  rw (==_refl x) refl,
  All-map (λ n. has n xs ≡ true) (λ n. has n (x ∷ xs) ≡ true) (λ n h. ground (arith, h)) xs
      (has-All xs),
)

search_routes-IsPath :
    (to from fuel : ℕ) (queue : List (List ℕ)) (visited route : List ℕ)
    → All (IsPath from) queue
    → search_routes to from fuel queue visited ≡ some route
    → IsPath from route × (last_of from route ≡ to)
unfolding search_routes
search_routes-IsPath to from zero queue visited route a h = cc
search_routes-IsPath to from (suc fuel) [] visited route a h = cc
search_routes-IsPath to from (suc fuel) (path ∷ queue) visited route a h =
    let ns = route_graph (last_of from path) in
    let one = expand-IsExpanded from to path ns queue visited a.0 (has-All ns) a.1 in
    let next = expand to path ns (queue, visited) in
    elim (Throws-cases next) [
      | inl (found, e) ↦
          let x = rw (e, search_routes) at h in
          let y = rw (e, IsExpanded) at one in
          let same : found ≡ route = cc in subst (λ r. IsPath from r × (last_of from r ≡ to)) same y
      | inr (n, e) ↦
          let x = rw (e, search_routes) at h in
          let y = rw (e, IsExpanded) at one in search_routes-IsPath to from fuel n.0 n.1 route y x
    ]

-- The search from one asset.
pub search-IsPath :
    (to from fuel : ℕ) (route : List ℕ)
    → search_routes to from fuel ((from ∷ []) ∷ []) (from ∷ []) ≡ some route
    → IsPath from route × (last_of from route ≡ to)
search-IsPath to from fuel route h =
    search_routes-IsPath to from fuel ((from ∷ []) ∷ []) (from ∷ []) route (([], refl, tt), tt) h
