-- ===== src/Options/Matched.antt =====
-- What a match of two option orders changes in the table of orders.
use swap_trade_backend.Common.{
  ℕ, ◌+◌, ◌≡◌, refl, sym, ap, ◌∙◌, ◌==◌, ==_iff, Bool, true, false, ◌&&◌, inl, inr, some, Map,
  lookup, insert, nat_key, pair_key, pair_same, if◌then◌else◌, sum_of, sum_of-insert, lookup-insert,
  arith, Bool-cases,
}
use swap_trade_backend.Options.{OptionOrder, OptionOrderSide}
use swap_trade_backend.Options.Orders.{opposite, same_side, fill_order}
use swap_trade_backend.Options.Invariant.{
  filled_for, filled_of, filled_for-fill_order, filled_of-fill_order,
}

not_opposite : (s : OptionOrderSide) → s ≡ opposite s → ⊥
not_opposite OptionOrderSide.buy h = cc
not_opposite OptionOrderSide.sell h = cc

-- Of a match, one side buys what the other sells.
both_sides :
    (same : Bool) (s : OptionOrderSide) (q : ℕ)
    → (if same && same_side OptionOrderSide.buy (opposite s) then q else 0)
        + (if same && same_side OptionOrderSide.buy s then q else 0)
      ≡ (if same && same_side OptionOrderSide.sell (opposite s) then q else 0)
        + (if same && same_side OptionOrderSide.sell s then q else 0)
both_sides true OptionOrderSide.buy q = omega arith
both_sides true OptionOrderSide.sell q = omega arith
both_sides false OptionOrderSide.buy q = refl
both_sides false OptionOrderSide.sell q = refl

module _ {F : Type 0} where
  -- An order in the table that has not been filled, on the other side from the one that is matched.
  abbrev pub Rests : ℕ → OptionOrder F → Map ℕ (OptionOrder F) → OptionOrder F → Type 0
  Rests contract order orders r =
      (lookup r.id orders ≡ some r)
      × (r.contract_id ≡ contract)
      × (r.side ≡ opposite order.side)
      × (r.filled_quantity ≡ 0)

  pub other_id :
      (contract : ℕ) (order r : OptionOrder F) (orders : Map ℕ (OptionOrder F))
      → lookup order.id orders ≡ some order
      → Rests contract order orders r
      → order.id == r.id ≡ false
  other_id contract order r orders stored rests = elim (Bool-cases (order.id == r.id)) [
    | inr e ↦ e
    | inl e ↦
        let same : order.id ≡ r.id = (==_iff order.id r.id).0 e in
        let rows : some order ≡ some r = sym stored ∙ ap (λ i. lookup i orders) same ∙ rests.0 in
        let one : order ≡ r = cc in
        absurd (not_opposite order.side (ap (λ o. o.side) one ∙ rests.2))
  ]

  -- The sum over the orders after both sides of a match are saved.
  two_fills :
      (f : OptionOrder F → ℕ) (r maker order taker : OptionOrder F) (a b : ℕ)
      (orders : Map ℕ (OptionOrder F))
      → lookup r.id orders ≡ some r
      → lookup order.id orders ≡ some order
      → order.id == r.id ≡ false
      → f maker ≡ f r + a
      → f taker ≡ f order + b
      → sum_of f (insert order.id taker (insert r.id maker orders)) ≡ sum_of f orders + a + b
  two_fills f r maker order taker a b orders h k apart e g =
      let first = sum_of-insert f r.id r maker orders h in
      let still : lookup order.id (insert r.id maker orders) ≡ some order =
        rw (lookup-insert order.id r.id maker orders, apart) k in
      let second = sum_of-insert f order.id order taker (insert r.id maker orders) still in
      omega arith

  filled_after :
      (on : OptionOrderSide) (k contract q : ℕ) (price : F) (r order : OptionOrder F)
      (orders : Map ℕ (OptionOrder F))
      → Rests k order orders r
      → lookup order.id orders ≡ some order
      → order.contract_id ≡ k
      → order.id == r.id ≡ false
      → sum_of
          (filled_of on contract)
          (insert order.id (fill_order q price order) (insert r.id (fill_order q price r) orders))
        ≡ sum_of (filled_of on contract) orders
          + (if contract == k && same_side on (opposite order.side) then q else 0)
          + (if contract == k && same_side on order.side then q else 0)
  filled_after on k contract q price r order orders rests stored of_contract apart =
      two_fills (filled_of on contract) r (fill_order q price r) order (fill_order q price order) _
        _ orders rests.0 stored apart
        (filled_of-fill_order on contract q price r
          ∙ ap
              (λ j.
                filled_of on contract r + (if contract == j && same_side on r.side then q else 0))
              rests.1
          ∙ ap (λ s. filled_of on contract r + (if contract == k && same_side on s then q else 0))
              rests.2)
        (filled_of-fill_order on contract q price order
          ∙ ap
              (λ j.
                filled_of on contract order
                + (if contract == j && same_side on order.side then q else 0))
              of_contract)

  -- The sums over what is bought and what is sold grow alike.
  pub sold_as_bought :
      (k contract q : ℕ) (price : F) (r order : OptionOrder F) (orders : Map ℕ (OptionOrder F))
      → Rests k order orders r
      → lookup order.id orders ≡ some order
      → order.contract_id ≡ k
      → order.id == r.id ≡ false
      → let after =
          insert order.id (fill_order q price order) (insert r.id (fill_order q price r) orders) in
        sum_of (filled_of OptionOrderSide.buy contract) after
          + sum_of (filled_of OptionOrderSide.sell contract) orders
        ≡ sum_of (filled_of OptionOrderSide.sell contract) after
          + sum_of (filled_of OptionOrderSide.buy contract) orders
  sold_as_bought k contract q price r order orders rests stored of_contract apart =
      let bought =
        filled_after OptionOrderSide.buy k contract q price r order orders rests stored of_contract
          apart in
      let sold =
        filled_after OptionOrderSide.sell k contract q price r order orders rests stored of_contract
          apart in
      let alike = both_sides (contract == k) order.side q in omega arith

  -- The sum over the orders of one user and contract after both sides of a match are saved.
  pub placed_after :
      (side : OptionOrderSide) (place : ℕ × ℕ) (k q : ℕ) (price : F) (r order : OptionOrder F)
      (orders : Map ℕ (OptionOrder F))
      → Rests k order orders r
      → lookup order.id orders ≡ some order
      → order.contract_id ≡ k
      → order.id == r.id ≡ false
      → sum_of
          (filled_for side place)
          (insert order.id (fill_order q price order) (insert r.id (fill_order q price r) orders))
        ≡ sum_of (filled_for side place) orders
          + (if pair_same place (k, r.user_id) && same_side side r.side then q else 0)
          + (if pair_same place (k, order.user_id) && same_side side order.side then q else 0)
  placed_after side place k q price r order orders rests stored of_contract apart =
      two_fills (filled_for side place) r (fill_order q price r) order (fill_order q price order) _
        _ orders rests.0 stored apart
        (filled_for-fill_order side place q price r
          ∙ ap
              (λ j.
                filled_for side place r
                + (if pair_same place (j, r.user_id) && same_side side r.side then q else 0))
              rests.1)
        (filled_for-fill_order side place q price order
          ∙ ap
              (λ j.
                filled_for side place order
                + (if pair_same place (j, order.user_id) && same_side side order.side
                    then q
                    else 0))
              of_contract)

  -- An order with a third id rests as before.
  pub fill_order-Rests :
      (k q : ℕ) (price : F) (r order w : OptionOrder F) (orders : Map ℕ (OptionOrder F))
      → lookup order.id orders ≡ some order
      → Rests k order orders w
      → r.id == w.id ≡ false
      → Rests k
          (fill_order q price order)
          (insert order.id (fill_order q price order) (insert r.id (fill_order q price r) orders))
          w
  fill_order-Rests k q price r order w orders stored rests apart =
      let taker = fill_order q price order in
      let maker = fill_order q price r in
      let other = other_id k order w orders stored rests in
      let one : w.id == order.id ≡ false = ground arith in
      let two : w.id == r.id ≡ false = ground arith in
      (
        rw
            (
              lookup-insert w.id order.id taker (insert r.id maker orders),
              one,
              lookup-insert w.id r.id maker orders,
              two,
            )
            (rests.0),
        rests.1,
        rests.2,
        rests.3,
      )
