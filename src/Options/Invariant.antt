-- ===== src/Options/Invariant.antt =====
-- What holds of the tables of the options exchange: orders are filled as far as their status says,
-- and each position is the sum of the fills of its user's orders.
use swap_trade_backend.Common.{
  ℕ, ◌+◌, ◌≤◌, ◌<◌, ◌≡◌, refl, sym, ap, ◌∙◌, ◌==◌, leb, leb→le, leb→gt, ◌&&◌, inl, inr, Option,
  none, some, [], ◌∷◌, Map, lookup, nat_key, pair_key, pair_same, pair_same_iff, if◌then◌else◌,
  Number, sum_of, lookup-insert, IsUnique, HoldsKey, All, All-insert, arith, Bool-cases,
}
use swap_trade_backend.Options.{
  OptionContract, OptionOrder, OptionOrderSide, OptionOrderStatus, OptionPosition, Exchange,
}
use swap_trade_backend.Options.Orders.{
  same_side, fill_order, position_or_new, add_quantity, reprice, apply_fill,
}

-- How much of a quantity is filled, by the status.
abbrev pub StatusIsValid : OptionOrderStatus → ℕ → ℕ → Type 0
StatusIsValid OptionOrderStatus.open_ filled quantity = filled ≡ 0
StatusIsValid OptionOrderStatus.partially_filled filled quantity = filled < quantity
StatusIsValid OptionOrderStatus.filled filled quantity = filled ≡ quantity
StatusIsValid OptionOrderStatus.cancelled filled quantity = filled ≤ quantity
StatusIsValid OptionOrderStatus.expired filled quantity = filled ≤ quantity

module _ {F : Type 0} where
  abbrev pub OrderIsValid : OptionOrder F → Type 0
  OrderIsValid o = StatusIsValid o.status o.filled_quantity o.quantity

  -- What an order has bought, or sold, of a contract for a user.
  abbrev pub filled_for : OptionOrderSide → ℕ × ℕ → OptionOrder F → ℕ
  filled_for side place o =
      if pair_same place (o.contract_id, o.user_id) && same_side side o.side
      then o.filled_quantity
      else 0

  -- What an order has bought, or sold, of a contract for anyone.
  abbrev pub filled_of : OptionOrderSide → ℕ → OptionOrder F → ℕ
  filled_of side contract o =
      if contract == o.contract_id && same_side side o.side then o.filled_quantity else 0

  abbrev pub quantity_on : OptionOrderSide → Option (OptionPosition F) → ℕ
  quantity_on side none = 0
  quantity_on OptionOrderSide.buy (some p) = p.long_quantity
  quantity_on OptionOrderSide.sell (some p) = p.short_quantity

  -- Each position holds what the orders of its user have bought and sold of its contract.
  abbrev pub IsReconciled : Exchange F → Type 0
  IsReconciled x =
      (side : OptionOrderSide) (place : ℕ × ℕ)
      → quantity_on side (lookup place x.positions) ≡ sum_of (filled_for side place) x.orders

  -- As much of each contract is bought as is sold.
  abbrev pub IsBalanced : Exchange F → Type 0
  IsBalanced x =
      (contract : ℕ)
      → sum_of (filled_of OptionOrderSide.buy contract) x.orders
        ≡ sum_of (filled_of OptionOrderSide.sell contract) x.orders

  abbrev pub order_id : OptionOrder F → ℕ
  order_id o = o.id

  abbrev pub place_of : OptionPosition F → ℕ × ℕ
  place_of p = (p.contract_id, p.user_id)

  abbrev pub RowIsValid : ℕ × OptionOrder F → Type 0
  RowIsValid row = HoldsKey order_id row × OrderIsValid row.1

  pub record IsConsistent (x : Exchange F) : Type 0 where
    pub unique : IsUnique x.orders
    pub valid : All RowIsValid x.orders
    pub placed : All (HoldsKey place_of) x.positions
    pub reconciled : IsReconciled x
    pub balanced : IsBalanced x

  pub fill_order-OrderIsValid :
      (quantity : ℕ) (price : F) (o : OptionOrder F)
      → o.filled_quantity + quantity ≤ o.quantity
      → OrderIsValid (fill_order quantity price o)
  fill_order-OrderIsValid quantity price o h =
      elim (Bool-cases (leb o.quantity (o.filled_quantity + quantity))) [
        | inl e ↦ let le = leb→le o.quantity (o.filled_quantity + quantity) e in rw e (omega arith)
        | inr e ↦ let lt = leb→gt o.quantity (o.filled_quantity + quantity) e in rw e (omega arith)
      ]

  -- The order of a place, with more filled.
  pub filled_for-fill_order :
      (side : OptionOrderSide) (place : ℕ × ℕ) (quantity : ℕ) (price : F) (o : OptionOrder F)
      → filled_for side place (fill_order quantity price o)
        ≡ filled_for side place o
          + (if pair_same place (o.contract_id, o.user_id) && same_side side o.side
              then quantity
              else 0)
  filled_for-fill_order side place quantity price o =
      elim (Bool-cases (pair_same place (o.contract_id, o.user_id) && same_side side o.side)) [
        | inl e ↦ rw e refl
        | inr e ↦ rw e refl
      ]

  pub filled_of-fill_order :
      (side : OptionOrderSide) (contract quantity : ℕ) (price : F) (o : OptionOrder F)
      → filled_of side contract (fill_order quantity price o)
        ≡ filled_of side contract o
          + (if contract == o.contract_id && same_side side o.side then quantity else 0)
  filled_of-fill_order side contract quantity price o =
      elim (Bool-cases (contract == o.contract_id && same_side side o.side)) [
        | inl e ↦ rw e refl
        | inr e ↦ rw e refl
      ]

module _ {F : Type 0} ⦃n : Number F⦄ where
  -- The position that a fill changes, as it is saved.
  abbrev entered :
      OptionContract F → ℕ → OptionOrderSide → ℕ → F → Option (OptionPosition F) → OptionPosition F
  entered c user side quantity price o =
      reprice c side price (add_quantity side quantity (position_or_new c.id user o))

  place_of-entered :
      (c : OptionContract F) (user : ℕ) (side : OptionOrderSide) (quantity : ℕ) (price : F)
      (o : Option (OptionPosition F))
      → ((p : OptionPosition F) → o ≡ some p → place_of p ≡ (c.id, user))
      → place_of (entered c user side quantity price o) ≡ (c.id, user)
  unfolding reprice
  place_of-entered c user OptionOrderSide.buy quantity price none placed = refl
  place_of-entered c user OptionOrderSide.sell quantity price none placed = refl
  place_of-entered c user OptionOrderSide.buy quantity price (some p) placed = placed p refl
  place_of-entered c user OptionOrderSide.sell quantity price (some p) placed = placed p refl

  quantity_on-entered :
      (c : OptionContract F) (user : ℕ) (side on : OptionOrderSide) (quantity : ℕ) (price : F)
      (o : Option (OptionPosition F))
      → quantity_on on (some (entered c user side quantity price o))
        ≡ quantity_on on o + (if same_side on side then quantity else 0)
  unfolding reprice
  quantity_on-entered c user OptionOrderSide.buy OptionOrderSide.buy quantity price none = refl
  quantity_on-entered c user OptionOrderSide.buy OptionOrderSide.sell quantity price none = refl
  quantity_on-entered c user OptionOrderSide.sell OptionOrderSide.buy quantity price none = refl
  quantity_on-entered c user OptionOrderSide.sell OptionOrderSide.sell quantity price none = refl
  quantity_on-entered c user OptionOrderSide.buy OptionOrderSide.buy quantity price (some p) = refl
  quantity_on-entered c user OptionOrderSide.buy OptionOrderSide.sell quantity price (some p) =
      omega arith
  quantity_on-entered c user OptionOrderSide.sell OptionOrderSide.buy quantity price (some p) =
      omega arith
  quantity_on-entered c user OptionOrderSide.sell OptionOrderSide.sell quantity price (some p) =
      refl

  -- Positions that stand under their contract and their user.
  abbrev pub IsPlaced : Map (ℕ × ℕ) (OptionPosition F) → Type 0
  IsPlaced positions = All (HoldsKey place_of) positions

  placed_lookup :
      (k : ℕ × ℕ) (positions : Map (ℕ × ℕ) (OptionPosition F)) (p : OptionPosition F)
      → IsPlaced positions
      → lookup k positions ≡ some p
      → place_of p ≡ k
  placed_lookup k [] p a h = cc
  placed_lookup k ((i, v) ∷ m) p a h = elim (Bool-cases (pair_same k i)) [
    | inl e ↦
        let x = rw e at h in
        let same : v ≡ p = cc in
        sym (ap (λ y. place_of y) same) ∙ a.0 ∙ sym ((pair_same_iff k i).0 e)
    | inr e ↦ let x = rw e at h in placed_lookup k m p a.1 x
  ]

  -- A fill adds its quantity to one side of one position.
  pub quantity_on-apply_fill :
      (c : OptionContract F) (user : ℕ) (side : OptionOrderSide) (quantity : ℕ) (price : F)
      (x : Exchange F)
      → IsPlaced x.positions
      → ((on : OptionOrderSide) (place : ℕ × ℕ)
          → quantity_on on (lookup place (apply_fill c user side quantity price x).positions)
            ≡ quantity_on on (lookup place x.positions)
              + (if pair_same place (c.id, user) && same_side on side then quantity else 0))
        × IsPlaced (apply_fill c user side quantity price x).positions
  unfolding apply_fill
  quantity_on-apply_fill c user side quantity price x placed =
      let o = lookup (c.id, user) x.positions in
      let p = entered c user side quantity price o in
      let key : place_of p ≡ (c.id, user) =
        place_of-entered c user side quantity price o
          (λ q h. placed_lookup (c.id, user) x.positions q placed h) in
      (
        λ on place.
            rw (key, lookup-insert place (c.id, user) p x.positions)
              (elim (Bool-cases (pair_same place (c.id, user))) [
                | inl e ↦
                    let same : place ≡ (c.id, user) = (pair_same_iff place (c.id, user)).0 e in
                    rw (e, same) (quantity_on-entered c user side on quantity price o)
                | inr e ↦ rw e (omega arith)
              ]),
        All-insert (HoldsKey place_of) (place_of p) p x.positions refl placed,
      )
