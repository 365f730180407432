-- ===== src/Options/Calls.antt =====
-- Placing and cancelling orders and the expiry of contracts keep the tables consistent.
use swap_trade_backend.Common.{
  ℕ, ◌≡◌, refl, sym, ap, subst, ◌∙◌, ◌==◌, ==_iff, leb, not, ◌||◌, inl, inr, none, some, List, [],
  ◌∷◌, Map, lookup, insert, nat_key, pair_key, if◌then◌else◌, Number, lookup-insert_self, All,
  arith, Bool-cases, Bool, true, false, Option-cases, Throws, err, ok,
}
use swap_trade_backend.Options.{
  OptionContract, OptionContractStatus, OptionOrder, OptionOrderSide, OptionOrderStatus,
  OptionPosition, PlaceOptionOrderDto, OptionMatch, OptionProblem, Exchange,
}
use swap_trade_backend.Options.Orders.{
  opposite, is_active, can_cancel, resting_orders, match_order, refreshed, refresh_position_risk,
  order_of, place_saved, place_order, cancel_order, save_order, limit_missing, price_or,
}
use swap_trade_backend.Options.Contracts.{
  settle_position, settle_contract, expire_all, save_contract,
}
use swap_trade_backend.Options.Invariant.{OrderIsValid, quantity_on, IsConsistent, RowIsValid}
use swap_trade_backend.Options.Fills.{IsMatching, match_loop-IsMatching}
use swap_trade_backend.Options.Resting.{resting_orders-Rests, cancellable}
use swap_trade_backend.Options.Changes.{
  positions-IsConsistent, contracts-IsConsistent, fresh_order-IsConsistent, status-IsConsistent,
}

-- A call that throws leaves the tables.
abbrev pub kept_or : {F : Type 0} → Exchange F → Throws OptionProblem (Exchange F) → Exchange F
kept_or x (err p) = x
kept_or x (ok y) = y

abbrev pub placed_or :
    {F : Type 0}
    → Exchange F
    → Throws OptionProblem (List (OptionMatch F) × Exchange F)
    → Exchange F
placed_or x (err p) = x
placed_or x (ok placed) = placed.1

module _ {F : Type 0} ⦃n : Number F⦄ where
  match_order-IsMatching :
      (c : OptionContract F) (order : OptionOrder F) (x : Exchange F)
      → lookup order.id x.orders ≡ some order
      → order.contract_id ≡ c.id
      → order.filled_quantity ≡ 0
      → IsConsistent x
      → IsMatching c [] (match_order c order x)
  unfolding match_order
  match_order-IsMatching c order x stored of_contract unfilled v =
      let (all, apart) = resting_orders-Rests c.id order x.orders v.unique v.valid in
      match_loop-IsMatching c (resting_orders c.id (opposite order.side) x.orders)
        (record { order = order; remaining = order.quantity; matches = []; exchange = x })
        (record {
          consistent = v;
          stored = stored;
          left = omega arith;
          of_contract = of_contract;
          resting = all;
          apart = apart;
        })

  if_quantity :
      (b : Bool) (side : OptionOrderSide) (p q : OptionPosition F)
      → quantity_on side (some q) ≡ quantity_on side (some p)
      → quantity_on side (some (if b then q else p)) ≡ quantity_on side (some p)
  if_quantity true side p q h = h
  if_quantity false side p q h = refl

  refreshed_quantity :
      (c : OptionContract F) (side : OptionOrderSide) (p : OptionPosition F)
      → quantity_on side (some (if p.contract_id == c.id then refreshed c p else p))
        ≡ quantity_on side (some p)
  refreshed_quantity c OptionOrderSide.buy p = if_quantity _ OptionOrderSide.buy p _ refl
  refreshed_quantity c OptionOrderSide.sell p = if_quantity _ OptionOrderSide.sell p _ refl

  settled_quantity :
      (c : OptionContract F) (price : F) (side : OptionOrderSide) (p : OptionPosition F)
      → quantity_on side (some (if p.contract_id == c.id then settle_position c price p else p))
        ≡ quantity_on side (some p)
  settled_quantity c price OptionOrderSide.buy p = if_quantity _ OptionOrderSide.buy p _ refl
  settled_quantity c price OptionOrderSide.sell p = if_quantity _ OptionOrderSide.sell p _ refl

  place_saved-IsConsistent :
      (c : OptionContract F) (order : OptionOrder F) (x : Exchange F)
      → lookup order.id x.orders ≡ none
      → order.contract_id ≡ c.id
      → order.filled_quantity ≡ 0
      → OrderIsValid order
      → IsConsistent x
      → IsConsistent (place_saved c order x).1
  unfolding place_saved refresh_position_risk
  place_saved-IsConsistent c order x fresh of_contract unfilled valid v =
      let saved = save_order order x in
      let m =
        match_order-IsMatching c order saved (lookup-insert_self order.id order x.orders)
          of_contract unfilled (fresh_order-IsConsistent order x fresh unfilled valid v) in
      positions-IsConsistent (λ p. if p.contract_id == c.id then refreshed c p else p)
        (match_order c order saved).exchange
        (λ p. elim (Bool-cases (p.contract_id == c.id)) [ inl e ↦ rw e refl | inr e ↦ rw e refl ])
        (λ side p. refreshed_quantity c side p) m.consistent

  pub place_order-IsConsistent :
      (now id contract : ℕ) (dto : PlaceOptionOrderDto F) (x : Exchange F)
      → lookup id x.orders ≡ none
      → IsConsistent x
      → IsConsistent (placed_or x (place_order now id contract dto x))
  unfolding place_order
  place_order-IsConsistent now id contract dto x fresh v =
      elim (Option-cases (lookup contract x.contracts)) [
        | inl e ↦ rw (e, place_order) v
        | inr (c, e) ↦ elim (Bool-cases (not (is_active c.status) || leb c.expiry_at now)) [
          | inl f ↦ rw (e, f, place_order) v
          | inr f ↦ elim (Bool-cases (limit_missing dto)) [
            | inl g ↦ rw (e, f, g, place_order) v
            | inr g ↦
                rw (e, f, g, place_order)
                  (place_saved-IsConsistent c (order_of c id dto) x fresh refl refl refl v)
          ]
        ]
      ]

  found_row :
      (id : ℕ) (orders : Map ℕ (OptionOrder F)) (o : OptionOrder F)
      → All RowIsValid orders
      → lookup id orders ≡ some o
      → (o.id ≡ id) × OrderIsValid o
  found_row id [] o a h = cc
  found_row id ((i, w) ∷ m) o a h = elim (Bool-cases (id == i)) [
    | inl e ↦
        let x = rw e at h in
        let same : w ≡ o = cc in
        let key : id ≡ i = (==_iff id i).0 e in
        (sym (ap (λ y. y.id) same) ∙ a.0.0 ∙ sym key, subst (λ y. OrderIsValid y) same a.0.1)
    | inr e ↦ let x = rw e at h in found_row id m o a.1 x
  ]

  pub cancel_order-IsConsistent :
      (id : ℕ) (x : Exchange F) → IsConsistent x → IsConsistent (kept_or x (cancel_order id x))
  unfolding cancel_order
  cancel_order-IsConsistent id x v = elim (Option-cases (lookup id x.orders)) [
    | inl e ↦ rw (e, cancel_order) v
    | inr (o, e) ↦ elim (Bool-cases (not (can_cancel o.status))) [
      | inl f ↦ rw (e, f, cancel_order) v
      | inr f ↦
          let (key, valid) = found_row id x.orders o v.valid e in
          rw (e, f, cancel_order)
            (status-IsConsistent o OptionOrderStatus.cancelled x
              (ap (λ i. lookup i x.orders) key ∙ e)
              (cancellable o.status o.filled_quantity o.quantity f valid) v)
    ]
  ]

  settle_contract-IsConsistent :
      (c : OptionContract F) (price : F) (x : Exchange F)
      → IsConsistent x
      → IsConsistent (settle_contract c price x)
  unfolding settle_contract
  settle_contract-IsConsistent c price x v =
      let settled = record c {
        status = OptionContractStatus.settled;
        settlement_price = some price;
      } in
      positions-IsConsistent
        (λ p. if p.contract_id == settled.id then settle_position settled price p else p)
        (save_contract settled x)
        (λ p. elim (Bool-cases (p.contract_id == c.id)) [ inl e ↦ rw e refl | inr e ↦ rw e refl ])
        (λ side p. settled_quantity settled price side p)
        (contracts-IsConsistent (insert c.id settled x.contracts) x v)

  pub expire_all-IsConsistent :
      (now : ℕ) (prices : Map ℕ F) (cs : List (OptionContract F)) (x : Exchange F)
      → IsConsistent x
      → IsConsistent (expire_all now prices cs x).1
  unfolding expire_all
  expire_all-IsConsistent now prices [] x v = v
  expire_all-IsConsistent now prices (c ∷ cs) x v = elim (Bool-cases (leb c.expiry_at now)) [
    | inl e ↦
        let price = price_or c.mark_price (lookup c.underlying_asset prices) in
        rw (e, expire_all)
          (expire_all-IsConsistent now prices cs (settle_contract c price x)
            (settle_contract-IsConsistent c price x v))
    | inr e ↦ rw (e, expire_all) (expire_all-IsConsistent now prices cs x v)
  ]
