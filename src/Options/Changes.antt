-- ===== src/Options/Changes.antt =====
-- Changes of one table that keep the tables consistent.
use swap_trade_backend.Common.{
  ℕ, ◌≡◌, refl, ◌∙◌, Option, none, some, [], ◌∷◌, Map, lookup, nat_key, pair_key, map,
  sum_of-insert, sum_of-insert_new, IsUnique-insert, HoldsKey, All, All-insert, change_row, changed,
  lookup-change_row, arith,
}
use swap_trade_backend.Options.{
  OptionContract, OptionOrder, OptionOrderSide, OptionOrderStatus, OptionPosition, Exchange,
}
use swap_trade_backend.Options.Orders.{save_order}
use swap_trade_backend.Options.Invariant.{
  StatusIsValid, OrderIsValid, filled_for, filled_of, quantity_on, IsConsistent, place_of,
  RowIsValid,
}

module _ {F : Type 0} where
  changed_places :
      (g : OptionPosition F → OptionPosition F) (m : Map (ℕ × ℕ) (OptionPosition F))
      → ((p : OptionPosition F) → place_of (g p) ≡ place_of p)
      → All (HoldsKey place_of) m
      → All (HoldsKey place_of) (map (change_row g) m)
  changed_places g [] place a = tt
  changed_places g (row ∷ m) place a = (place row.1 ∙ a.0, changed_places g m place a.1)

  changed_quantity :
      (g : OptionPosition F → OptionPosition F) (side : OptionOrderSide)
      (o : Option (OptionPosition F))
      → ((side : OptionOrderSide) (p : OptionPosition F)
          → quantity_on side (some (g p)) ≡ quantity_on side (some p))
      → quantity_on side (changed g o) ≡ quantity_on side o
  changed_quantity g side none same = refl
  changed_quantity g side (some p) same = same side p

  nothing_filled_for :
      (side : OptionOrderSide) (k : ℕ × ℕ) (o : OptionOrder F)
      → o.filled_quantity ≡ 0
      → filled_for side k o ≡ 0
  nothing_filled_for side k o h = ground arith

  nothing_filled_of :
      (side : OptionOrderSide) (c : ℕ) (o : OptionOrder F)
      → o.filled_quantity ≡ 0
      → filled_of side c o ≡ 0
  nothing_filled_of side c o h = ground arith

  -- A change of positions that leaves their quantities.
  pub positions-IsConsistent :
      (g : OptionPosition F → OptionPosition F) (x : Exchange F)
      → ((p : OptionPosition F) → place_of (g p) ≡ place_of p)
      → ((side : OptionOrderSide) (p : OptionPosition F)
          → quantity_on side (some (g p)) ≡ quantity_on side (some p))
      → IsConsistent x
      → IsConsistent (record x { positions = map (change_row g) x.positions })
  positions-IsConsistent g x place same v = record {
    unique = v.unique;
    valid = v.valid;
    placed = changed_places g x.positions place v.placed;
    reconciled = λ side k.
        (rw (lookup-change_row g k x.positions)
          (changed_quantity g side (lookup k x.positions) same))
        ∙ v.reconciled side k;
    balanced = v.balanced;
  }

  pub contracts-IsConsistent :
      (contracts : Map ℕ (OptionContract F)) (x : Exchange F)
      → IsConsistent x
      → IsConsistent (record x { contracts = contracts })
  contracts-IsConsistent contracts x v = record {
    unique = v.unique;
    valid = v.valid;
    placed = v.placed;
    reconciled = v.reconciled;
    balanced = v.balanced;
  }

  -- A new row for which nothing is filled.
  pub fresh_order-IsConsistent :
      (o : OptionOrder F) (x : Exchange F)
      → lookup o.id x.orders ≡ none
      → o.filled_quantity ≡ 0
      → OrderIsValid o
      → IsConsistent x
      → IsConsistent (save_order o x)
  fresh_order-IsConsistent o x fresh unfilled valid v = record {
    unique = IsUnique-insert o.id o x.orders v.unique;
    valid = All-insert RowIsValid o.id o x.orders (refl, valid) v.valid;
    placed = v.placed;
    reconciled = λ side k.
        let sum = sum_of-insert_new (filled_for side k) o.id o x.orders fresh in
        let nothing = nothing_filled_for side k o unfilled in
        let before = v.reconciled side k in omega arith;
    balanced = λ c.
        let bought = sum_of-insert_new (filled_of OptionOrderSide.buy c) o.id o x.orders fresh in
        let sold = sum_of-insert_new (filled_of OptionOrderSide.sell c) o.id o x.orders fresh in
        let no_buy = nothing_filled_of OptionOrderSide.buy c o unfilled in
        let no_sell = nothing_filled_of OptionOrderSide.sell c o unfilled in
        let before = v.balanced c in omega arith;
  }

  -- A row whose status changes, to one that its fill allows.
  pub status-IsConsistent :
      (o : OptionOrder F) (status : OptionOrderStatus) (x : Exchange F)
      → lookup o.id x.orders ≡ some o
      → StatusIsValid status o.filled_quantity o.quantity
      → IsConsistent x
      → IsConsistent (save_order (record o { status = status }) x)
  status-IsConsistent o status x found valid v =
      let new = record o { status = status } in
      record {
        unique = IsUnique-insert o.id new x.orders v.unique;
        valid = All-insert RowIsValid o.id new x.orders (refl, valid) v.valid;
        placed = v.placed;
        reconciled = λ side k.
            let sum = sum_of-insert (filled_for side k) o.id o new x.orders found in
            let before = v.reconciled side k in omega arith;
        balanced = λ c.
            let bought =
              sum_of-insert (filled_of OptionOrderSide.buy c) o.id o new x.orders found in
            let sold = sum_of-insert (filled_of OptionOrderSide.sell c) o.id o new x.orders found in
            let before = v.balanced c in omega arith;
      }
