-- ===== src/Options/Partial.antt =====
-- Orders that are not open are never matched again.
use swap_trade_backend.Common.{
  ℕ, ◌≡◌, refl, sym, ap, subst, ◌∙◌, ◌==◌, ==_iff, min, leb, ◌-◌, true, false, not, ◌&&◌, ◌||◌, inl,
  inr, none, some, List, [], ◌∷◌, lookup, insert, nat_key, keep_if, values, Number, lookup-insert,
  HoldsKey, All, All-map, All-keep_if, All-values_found, arith, Bool-cases, Option-cases,
}
use swap_trade_backend.Options.{
  OptionContract, OptionOrder, OptionOrderSide, Exchange, PlaceOptionOrderDto,
}
use swap_trade_backend.Options.Orders.{
  opposite, same_side, is_open, rests_for, fill_order, fill_price, Matching, match_with, apply_fill,
  match_loop, is_price_match, match_order, refresh_position_risk, place_saved, save_order,
  place_order, order_of, limit_missing, is_active,
}
use swap_trade_backend.Options.Invariant.{IsConsistent, order_id, RowIsValid}
use swap_trade_backend.Options.Resting.{and_true}
use swap_trade_backend.Options.Changes.{fresh_order-IsConsistent}
use swap_trade_backend.Options.Calls.{placed_or}

module _ {F : Type 0} ⦃n : Number F⦄ where
  match_with-other :
      (c : OptionContract F) (r : OptionOrder F) (t : Matching F) (i : ℕ)
      → i == t.order.id ≡ false
      → r.id == i ≡ false
      → lookup i (match_with c r t).exchange.orders ≡ lookup i t.exchange.orders
  unfolding match_with apply_fill
  match_with-other c r t i h k =
      let q = min t.remaining (r.quantity - r.filled_quantity) in
      let price = fill_price t.order r c.mark_price in
      let maker = fill_order q price r in
      let taker = fill_order q price t.order in
      let other : i == r.id ≡ false = ground arith in
      rw
        (
          lookup-insert i t.order.id taker (insert r.id maker t.exchange.orders),
          h,
          lookup-insert i r.id maker t.exchange.orders,
          other,
        )
        refl

  match_with_taker :
      (c : OptionContract F) (r : OptionOrder F) (t : Matching F)
      → (match_with c r t).order.id ≡ t.order.id
  unfolding match_with
  match_with_taker c r t = refl

  match_loop-other :
      (c : OptionContract F) (rs : List (OptionOrder F)) (t : Matching F) (i : ℕ)
      → i == t.order.id ≡ false
      → All (λ r. r.id == i ≡ false) rs
      → lookup i (match_loop c rs t).exchange.orders ≡ lookup i t.exchange.orders
  unfolding match_loop
  match_loop-other c [] t i h a = refl
  match_loop-other c (r ∷ rs) t i h a = elim (Bool-cases (leb t.remaining 0)) [
    | inl e ↦ rw (e, match_loop) refl
    | inr e ↦ elim (Bool-cases (is_price_match t.order r c.mark_price)) [
      | inr f ↦ rw (e, f, match_loop) (match_loop-other c rs t i h a.1)
      | inl f ↦
          rw (e, f, match_loop)
            (match_loop-other c rs (match_with c r t) i
                (subst (λ j. i == j ≡ false) (sym (match_with_taker c r t)) h) a.1
              ∙ match_with-other c r t i h a.0)
    ]
  ]

  -- None of the orders that are to be matched has the id of one that is not open.
  closed-rests_for :
      (contract : ℕ) (side : OptionOrderSide) (x : Exchange F) (i : ℕ) (o : OptionOrder F)
      → IsConsistent x
      → lookup i x.orders ≡ some o
      → is_open o.status ≡ false
      → All (λ r. r.id == i ≡ false) (keep_if (rests_for contract side) (values x.orders))
  closed-rests_for contract side x i o v found closed =
      let test = rests_for contract side in
      let rows = values x.orders in
      let keys = All-map RowIsValid (HoldsKey order_id) (λ row h. h.0) x.orders v.valid in
      All-map (λ r. (lookup r.id x.orders ≡ some r) × (test r ≡ true)) (λ r. r.id == i ≡ false)
        (λ r h. elim (Bool-cases (r.id == i)) [
          | inr e ↦ e
          | inl e ↦
              let same : r.id ≡ i = (==_iff r.id i).0 e in
              let one : some r ≡ some o = sym h.0 ∙ ap (λ j. lookup j x.orders) same ∙ found in
              let row : r ≡ o = cc in
              let opened =
                (and_true (r.contract_id == contract && same_side r.side side) (is_open r.status)
                  h.1).1 in
              let clash : true ≡ false = sym opened ∙ ap (λ y. is_open y.status) row ∙ closed in cc
        ])
        (keep_if test rows)
        (All-keep_if (λ r. lookup r.id x.orders ≡ some r) test rows
          (All-values_found order_id x.orders v.unique keys))

  place_saved-closed :
      (c : OptionContract F) (order : OptionOrder F) (x : Exchange F) (i : ℕ) (o : OptionOrder F)
      → IsConsistent (save_order order x)
      → lookup order.id x.orders ≡ none
      → lookup i x.orders ≡ some o
      → is_open o.status ≡ false
      → lookup i (place_saved c order x).1.orders ≡ some o
  unfolding place_saved match_order refresh_position_risk
  place_saved-closed c order x i o v fresh found closed =
      let saved = save_order order x in
      let apart : i == order.id ≡ false = elim (Bool-cases (i == order.id)) [
        | inr e ↦ e
        | inl e ↦
            let same : order.id ≡ i = sym ((==_iff i order.id).0 e) in
            let clash : none ≡ some o = sym fresh ∙ ap (λ j. lookup j x.orders) same ∙ found in cc
      ] in
      let still : lookup i saved.orders ≡ some o =
        rw (lookup-insert i order.id order x.orders, apart) found in
      match_loop-other c (keep_if (rests_for c.id (opposite order.side)) (values saved.orders))
        (record { order = order; remaining = order.quantity; matches = []; exchange = saved }) i
        apart (closed-rests_for c.id (opposite order.side) saved i o v still closed)
      ∙ still

  -- An order that is not open, such as one that is filled in part, stays as it is when another
  -- order is placed and matched: it is not among the orders that are loaded for the match. The
  -- tables are to be consistent and the new order to get an id that no row has.
  pub place_order-closed :
      (now id contract : ℕ) (dto : PlaceOptionOrderDto F) (x : Exchange F) (i : ℕ)
      (o : OptionOrder F)
      → IsConsistent x
      → lookup id x.orders ≡ none
      → lookup i x.orders ≡ some o
      → is_open o.status ≡ false
      → lookup i (placed_or x (place_order now id contract dto x)).orders ≡ some o
  unfolding place_order
  place_order-closed now id contract dto x i o v fresh found closed =
      elim (Option-cases (lookup contract x.contracts)) [
        | inl e ↦ rw (e, place_order) found
        | inr (c, e) ↦ elim (Bool-cases (not (is_active c.status) || leb c.expiry_at now)) [
          | inl f ↦ rw (e, f, place_order) found
          | inr f ↦ elim (Bool-cases (limit_missing dto)) [
            | inl g ↦ rw (e, f, g, place_order) found
            | inr g ↦
                let order = order_of c id dto in
                rw (e, f, g, place_order)
                  (place_saved-closed c order x i o
                    (fresh_order-IsConsistent order x fresh refl refl v) fresh found closed)
          ]
        ]
      ]
