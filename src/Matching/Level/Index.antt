-- ===== src/Matching/Level/Index.antt =====
-- The invariant of a level, and that its indexed operations agree with the plain list.
use swap_trade_backend.Common.{
  ℕ, zero, suc, ◌+◌, ◌-◌, ◌≤◌, ◌≡◌, refl, ◌∙◌, ◌==◌, Option, none, some, List, [], ◌∷◌, inl, inr,
  length, get_elem?, set, sum_by-append, Map, lookup, insert, erase, lookup-insert, lookup-erase,
  nat_key, arith, if◌then◌else◌, Option-cases, is_some, sym,
}
use swap_trade_backend.Matching.Types.{Order}
use swap_trade_backend.Matching.Level.{
  OrderBookLevel, new_level, add_order, remove_order, reindex, drop, update_order_quantity, resize,
}
use swap_trade_backend.Matching.Level.Reference.{
  position, find_order, without, IsUnique, remaining, position-append, IsUnique-append,
  get_elem?-position, remove_at-position, find_order-none, position-none, position-without-none,
  IsUnique-without, remaining-without, position-drop-none, without_missing, position-set,
  IsUnique-set, remaining-set,
}

-- The index gives each id its position, ids are distinct, and the total covers what the orders
-- still ask for.
pub record IsValid (l : OrderBookLevel) : Type 0 where
  pub indexed : (j : ℕ) → lookup j l.order_map ≡ position j l.orders
  pub unique : IsUnique l.orders
  pub covered : remaining l.orders ≤ l.total_quantity

pub new_level-IsValid : (p : ℕ) → IsValid (new_level p)
unfolding new_level
new_level-IsValid p = record { indexed = λ j. refl; unique = tt; covered = omega arith }

abbrev shift : ℕ → Option ℕ → Option ℕ → Option ℕ
shift i none d = d
shift i (some k) d = some (i + k)

lookup-reindex :
    (j : ℕ) (os : List Order) (i : ℕ) (m : Map ℕ ℕ)
    → IsUnique os
    → lookup j (reindex os i m) ≡ shift i (position j os) (lookup j m)
unfolding reindex
lookup-reindex j [] i m u = refl
lookup-reindex j (o ∷ os) i m u =
    ground (arith, lookup-reindex j os (suc i) (insert o.id i m) u.1, lookup-insert j o.id i m, u.0)

IsUnique-drop : (n : ℕ) (os : List Order) → IsUnique os → IsUnique (drop n os)
IsUnique-drop zero os u = u
IsUnique-drop (suc n) [] u = tt
IsUnique-drop (suc n) (o ∷ os) u = IsUnique-drop n os u.1

-- After a removal at `i`, an id stands either behind `i` or where it stood.
position-remaining :
    (j k i : ℕ) (os : List Order)
    → IsUnique os
    → position k os ≡ some i
    → shift i (position j (drop i (without k os))) (if j == k then none else position j os)
      ≡ position j (without k os)
position-remaining j k i [] u h = cc
position-remaining j k zero (o ∷ os) u h = ground (arith, u.0)
position-remaining j k (suc i) (o ∷ os) u h = ground (
  arith,
  position-remaining j k i os u.1,
  u.0,
  position-without-none j k os,
  position-drop-none j i (without k os),
)

pub add_order-IsValid :
    (o : Order) (l : OrderBookLevel)
    → position o.id l.orders ≡ none
    → IsValid l
    → IsValid (add_order o l)
unfolding add_order
add_order-IsValid o l new v = record {
  indexed = λ j. ground (
    arith,
    lookup-insert j o.id (length l.orders) l.order_map,
    v.indexed j,
    position-append j l.orders o,
  );
  unique = IsUnique-append l.orders o new v.unique;
  covered =
      omega (
        arith,
        v.covered,
        sum_by-append {0} (λ (x : Order). x.remaining_quantity) l.orders (o ∷ []),
      );
}

-- In a valid level a removal is the removal by id from the plain list.
pub remove_order-missing :
    (j : ℕ) (l : OrderBookLevel)
    → IsValid l
    → find_order j l.orders ≡ none
    → remove_order j l ≡ (none, l)
unfolding remove_order
remove_order-missing j l v h = ground (arith, v.indexed j, find_order-none j l.orders)

-- What an order that is found still asks for.
abbrev pub asked : Option Order → ℕ
asked none = 0
asked (some o) = o.remaining_quantity

-- The level that a removal leaves.
abbrev pub shrunk : ℕ → ℕ → Order → OrderBookLevel → OrderBookLevel
shrunk j i o l = record l {
  total_quantity = l.total_quantity - o.remaining_quantity;
  orders = without j l.orders;
  order_map = reindex (drop i (without j l.orders)) i (erase j l.order_map);
}

pub position-some :
    (j : ℕ) (o : Order) (os : List Order)
    → find_order j os ≡ some o
    → (i : ℕ) × (position j os ≡ some i)
position-some j o [] h = cc
position-some j o (x ∷ os) h = elim (Option-cases (position j (x ∷ os))) [
  | inl e ↦ cc (position-none j (x ∷ os) e, h)
  | inr (i, e) ↦ (i, e)
]

pub remove_order-found :
    (j i : ℕ) (o : Order) (l : OrderBookLevel)
    → IsValid l
    → find_order j l.orders ≡ some o
    → position j l.orders ≡ some i
    → remove_order j l ≡ (some o, shrunk j i o l)
unfolding remove_order
remove_order-found j i o l v h p =
    ground (arith, v.indexed j, get_elem?-position j i l.orders, remove_at-position j i l.orders)

pub shrunk-IsValid :
    (j i : ℕ) (o : Order) (l : OrderBookLevel)
    → IsValid l
    → find_order j l.orders ≡ some o
    → position j l.orders ≡ some i
    → IsValid (shrunk j i o l)
shrunk-IsValid j i o l v h p = record {
  indexed = λ a.
      lookup-reindex a (drop i (without j l.orders)) i (erase j l.order_map)
        (IsUnique-drop i (without j l.orders) (IsUnique-without j l.orders v.unique))
      ∙ (rw (lookup-erase a j l.order_map, v.indexed a)
          (position-remaining a j i l.orders v.unique p));
  unique = IsUnique-without j l.orders v.unique;
  covered = omega (arith, v.covered, remaining-without j o l.orders h);
}

-- In a valid level, `remove_order` gives back the order that a search by id finds, leaves the list
-- without it, lowers the total by exactly its remaining quantity, and keeps the level valid.
pub remove_order-IsValid :
    (j : ℕ) (l : OrderBookLevel)
    → IsValid l
    → IsValid (remove_order j l).1
      × ((remove_order j l).0 ≡ find_order j l.orders)
      × ((remove_order j l).1.orders ≡ without j l.orders)
      × ((remove_order j l).1.total_quantity + asked (find_order j l.orders) ≡ l.total_quantity)
remove_order-IsValid j l v = elim (Option-cases (find_order j l.orders)) [
  | inl e ↦
      rw (remove_order-missing j l v e)
        (v, rw e, rw (without_missing j l.orders e), rw e (omega arith))
  | inr (o, e) ↦
      let (i, p) = position-some j o l.orders e in
      rw (remove_order-found j i o l v e p) (
        shrunk-IsValid j i o l v e p,
        rw e,
        refl,
        rw e (omega (arith, v.covered, remaining-without j o l.orders e)),
      )
]

resized : ℕ → ℕ → Order → OrderBookLevel → OrderBookLevel
resized i n o l = record l {
  orders = set l.orders i (resize n o);
  total_quantity = l.total_quantity + n - o.remaining_quantity;
}

resized-IsValid :
    (i n : ℕ) (o : Order) (l : OrderBookLevel)
    → IsValid l
    → get_elem? l.orders i ≡ some o
    → IsValid (resized i n o l)
unfolding resized resize
resized-IsValid i n o l v h = record {
  indexed = λ j. v.indexed j ∙ sym (position-set (resize n o) j i o l.orders h refl);
  unique = IsUnique-set (resize n o) i o l.orders h refl v.unique;
  covered = omega (arith, v.covered, remaining-set (resize n o) i o l.orders h);
}

-- `update_order_quantity` reports whether the id is present, and keeps the level valid.
pub update_order_quantity-IsValid :
    (j n : ℕ) (l : OrderBookLevel)
    → IsValid l
    → IsValid (update_order_quantity j n l).1
      × ((update_order_quantity j n l).0 ≡ is_some (find_order j l.orders))
unfolding update_order_quantity resized
update_order_quantity-IsValid j n l v = elim (Option-cases (find_order j l.orders)) [
  | inl e ↦
      let q = v.indexed j ∙ find_order-none j l.orders e in rw (q, update_order_quantity) (v, rw e)
  | inr (o, e) ↦
      let (i, p) = position-some j o l.orders e in
      let g = get_elem?-position j i l.orders p ∙ e in
      rw (v.indexed j ∙ p, update_order_quantity)
        (rw (g, update_order_quantity) (resized-IsValid i n o l v g, rw e))
]
