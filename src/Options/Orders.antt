-- ===== src/Options/Orders.antt =====
-- options/options.service.ts: placing, matching and cancelling orders. The audit log and the
-- invalidation of caches are left out. An order that was loaded is saved as a whole.
use swap_trade_backend.Common.{
  ℕ, ◌+◌, ◌-◌, ◌==◌, leb, min, Bool, true, false, not, ◌&&◌, ◌||◌, Option, none, some, List, [],
  ◌∷◌, ◌++◌, map, keep_if, Map, lookup, insert, nat_key, pair_key, if◌then◌else◌, Number, Throws,
  ok, ◌>>=◌, ◌>>◌, raise_if, or_raise,
}
use swap_trade_backend.Options.{
  OptionContract, OptionContractStatus, OptionOrder, OptionOrderSide, OptionOrderType,
  OptionOrderStatus, OptionPosition, PlaceOptionOrderDto, OptionMatch, OptionProblem, Exchange,
}
use swap_trade_backend.Options.Valuation.{calculate_greeks, calculate_margin, unrealized}

abbrev pub opposite : OptionOrderSide → OptionOrderSide
opposite OptionOrderSide.buy = OptionOrderSide.sell
opposite OptionOrderSide.sell = OptionOrderSide.buy

abbrev pub same_side : OptionOrderSide → OptionOrderSide → Bool
same_side OptionOrderSide.buy OptionOrderSide.buy = true
same_side OptionOrderSide.sell OptionOrderSide.sell = true
same_side _ _ = false

abbrev pub is_open : OptionOrderStatus → Bool
is_open OptionOrderStatus.open_ = true
is_open _ = false

abbrev pub is_active : OptionContractStatus → Bool
is_active OptionContractStatus.active = true
is_active _ = false

abbrev pub can_cancel : OptionOrderStatus → Bool
can_cancel OptionOrderStatus.open_ = true
can_cancel OptionOrderStatus.partially_filled = true
can_cancel _ = false

abbrev pub is_market : OptionOrderType → Bool
is_market OptionOrderType.market = true
is_market OptionOrderType.limit = false

-- The status after a fill.
abbrev pub filled_status : ℕ → ℕ → OptionOrderStatus
filled_status quantity filled =
    if leb quantity filled then OptionOrderStatus.filled else OptionOrderStatus.partially_filled

module _ {F : Type 0} where
  abbrev pub price_or : F → Option F → F
  price_or fallback none = fallback
  price_or fallback (some p) = p

  abbrev pub get_contract_or_throw : ℕ → Exchange F → Throws OptionProblem (OptionContract F)
  get_contract_or_throw id x = or_raise (lookup id x.contracts) OptionProblem.contract_not_found

  abbrev pub get_order : ℕ → Exchange F → Throws OptionProblem (OptionOrder F)
  get_order id x = or_raise (lookup id x.orders) OptionProblem.order_not_found

  abbrev pub save_order : OptionOrder F → Exchange F → Exchange F
  save_order o x = record x { orders = insert o.id o x.orders }

  abbrev pub save_position : OptionPosition F → Exchange F → Exchange F
  save_position p x = record x { positions = insert (p.contract_id, p.user_id) p x.positions }

  abbrev pub limit_missing : PlaceOptionOrderDto F → Bool
  limit_missing dto = elim dto.limit_price [
    | none ↦ not (is_market dto.order_type)
    | some p ↦ false
  ]

  abbrev pub fill_order : ℕ → F → OptionOrder F → OptionOrder F
  fill_order quantity price o = record o {
    filled_quantity = o.filled_quantity + quantity;
    average_fill_price = price;
    status = filled_status o.quantity (o.filled_quantity + quantity);
  }

  -- The rows that a taker of the opposite side is matched with.
  abbrev pub rests_for : ℕ → OptionOrderSide → OptionOrder F → Bool
  rests_for contract side o = o.contract_id == contract && same_side o.side side && is_open o.status

  abbrev pub resting_orders : ℕ → OptionOrderSide → Map ℕ (OptionOrder F) → List (OptionOrder F)
  resting_orders contract side orders =
      keep_if (rests_for contract side) (map (λ row. row.1) orders)

-- The order that is matched, what is left of it, the matches and the tables.
pub record Matching (F : Type 0) : Type 0 where
  pub order : OptionOrder F
  pub remaining : ℕ
  pub matches : List (OptionMatch F)
  pub exchange : Exchange F

module _ {F : Type 0} ⦃n : Number F⦄ where
  unfoldable pub is_price_match : OptionOrder F → OptionOrder F → F → Bool
  is_price_match order resting mark =
      let incoming = price_or mark order.limit_price in
      let resting_price = price_or mark resting.limit_price in
      if is_market order.order_type then true else elim order.side [
        | OptionOrderSide.buy ↦ n.le resting_price incoming
        | OptionOrderSide.sell ↦ n.le incoming resting_price
      ]

  abbrev pub fill_price : OptionOrder F → OptionOrder F → F → F
  fill_price order resting mark =
      let resting_price = price_or mark resting.limit_price in
      if is_market order.order_type then resting_price else price_or resting_price order.limit_price

  abbrev pub new_position : ℕ → ℕ → OptionPosition F
  new_position contract user = record {
    contract_id = contract;
    user_id = user;
    long_quantity = 0;
    short_quantity = 0;
    average_entry_price = n.decimal 0 0;
    margin_held = n.decimal 0 0;
    realized_pnl = n.decimal 0 0;
    unrealized_pnl = n.decimal 0 0;
  }

  abbrev pub position_or_new : ℕ → ℕ → Option (OptionPosition F) → OptionPosition F
  position_or_new contract user none = new_position contract user
  position_or_new contract user (some p) = p

  abbrev pub add_quantity : OptionOrderSide → ℕ → OptionPosition F → OptionPosition F
  add_quantity OptionOrderSide.buy quantity p = record p {
    long_quantity = p.long_quantity + quantity;
  }
  add_quantity OptionOrderSide.sell quantity p = record p {
    short_quantity = p.short_quantity + quantity;
  }

  -- The prices of a position after a fill.
  unfoldable pub reprice :
      OptionContract F → OptionOrderSide → F → OptionPosition F → OptionPosition F
  reprice c side price p =
      let entered = record p {
        average_entry_price = price;
        margin_held = calculate_margin c side p.short_quantity (calculate_greeks c);
      } in
      record entered { unrealized_pnl = unrealized c entered }

  unfoldable pub apply_fill :
      OptionContract F → ℕ → OptionOrderSide → ℕ → F → Exchange F → Exchange F
  unfolding reprice
  apply_fill c user side quantity price x =
      let held = position_or_new c.id user (lookup (c.id, user) x.positions) in
      save_position (reprice c side price (add_quantity side quantity held)) x

  -- The body of the loop, for an order whose price matches.
  unfoldable pub match_with : OptionContract F → OptionOrder F → Matching F → Matching F
  unfolding apply_fill
  match_with c resting t =
      let quantity = min t.remaining (resting.quantity - resting.filled_quantity) in
      let price = fill_price t.order resting c.mark_price in
      let maker = fill_order quantity price resting in
      let taker = fill_order quantity price t.order in
      let saved = save_order taker (save_order maker t.exchange) in
      record {
        order = taker;
        remaining = t.remaining - quantity;
        matches =
            t.matches
            ++ record {
              maker_order_id = resting.id;
              taker_order_id = taker.id;
              quantity = quantity;
              price = price;
            }
              ∷ [];
        exchange =
            apply_fill c resting.user_id resting.side quantity price
              (apply_fill c taker.user_id taker.side quantity price saved);
      }

  unfoldable pub match_loop : OptionContract F → List (OptionOrder F) → Matching F → Matching F
  unfolding match_with is_price_match
  match_loop c [] t = t
  match_loop c (resting ∷ rs) t =
      let matched = match_loop c rs (match_with c resting t) in
      let passed_over = match_loop c rs t in
      if leb t.remaining 0
      then t
      else if is_price_match t.order resting c.mark_price
      then matched
      else passed_over

  unfoldable pub match_order : OptionContract F → OptionOrder F → Exchange F → Matching F
  unfolding match_loop
  match_order c order x =
      match_loop c (resting_orders c.id (opposite order.side) x.orders)
        (record { order = order; remaining = order.quantity; matches = []; exchange = x })

  abbrev pub refreshed : OptionContract F → OptionPosition F → OptionPosition F
  refreshed c p =
      let margin = calculate_margin c OptionOrderSide.sell p.short_quantity (calculate_greeks c) in
      record p { margin_held = margin; unrealized_pnl = unrealized c p }

  abbrev pub refresh_row :
      OptionContract F → (ℕ × ℕ) × OptionPosition F → (ℕ × ℕ) × OptionPosition F
  refresh_row c (k, p) = (k, if p.contract_id == c.id then refreshed c p else p)

  unfoldable pub refresh_position_risk : OptionContract F → Exchange F → Exchange F
  refresh_position_risk c x = record x { positions = map (refresh_row c) x.positions }

  abbrev pub order_of : OptionContract F → ℕ → PlaceOptionOrderDto F → OptionOrder F
  order_of c id dto =
      let greeks = calculate_greeks c in
      record {
        id = id;
        contract_id = c.id;
        user_id = dto.user_id;
        side = dto.side;
        order_type = dto.order_type;
        quantity = dto.quantity;
        limit_price = dto.limit_price;
        filled_quantity = 0;
        average_fill_price = n.decimal 0 0;
        margin_requirement = calculate_margin c dto.side dto.quantity greeks;
        greeks = some greeks;
        status = OptionOrderStatus.open_;
      }

  -- From the saved order on.
  unfoldable pub place_saved :
      OptionContract F → OptionOrder F → Exchange F → List (OptionMatch F) × Exchange F
  unfolding match_order refresh_position_risk
  place_saved c order x =
      let t = match_order c order (save_order order x) in
      (t.matches, refresh_position_risk c t.exchange)

  -- `id` is the id that the database gives to the new row.
  unfoldable pub place_order :
      ℕ
      → ℕ
      → ℕ
      → PlaceOptionOrderDto F
      → Exchange F
      → Throws OptionProblem (List (OptionMatch F) × Exchange F)
  unfolding place_saved
  place_order now id contract dto x = get_contract_or_throw contract x >>= (λ c.
      raise_if (not (is_active c.status) || leb c.expiry_at now) OptionProblem.contract_not_active
      >> raise_if (limit_missing dto) OptionProblem.limit_price_required
      >> ok (place_saved c (order_of c id dto) x))

  unfoldable pub cancel_order : ℕ → Exchange F → Throws OptionProblem (Exchange F)
  cancel_order id x = get_order id x >>= (λ o.
      raise_if (not (can_cancel o.status)) OptionProblem.order_cannot_be_cancelled
      >> ok (save_order (record o { status = OptionOrderStatus.cancelled }) x))
