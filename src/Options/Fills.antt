-- ===== src/Options/Fills.antt =====
-- The matching of an order keeps the tables consistent.
use swap_trade_backend.Common.{
  ◌+◌, ◌-◌, ◌≡◌, refl, ◌==◌, min, leb, false, inl, inr, some, List, [], ◌∷◌, lookup, insert,
  nat_key, pair_key, Number, lookup-insert_self, IsUnique-insert, IsApart, All, All-insert, All-map,
  All-both, arith, Bool-cases,
}
use swap_trade_backend.Options.{OptionContract, OptionOrder}
use swap_trade_backend.Options.Orders.{
  fill_order, fill_price, save_order, apply_fill, Matching, match_with, match_loop, is_price_match,
}
use swap_trade_backend.Options.Matched.{
  Rests, other_id, sold_as_bought, placed_after, fill_order-Rests,
}
use swap_trade_backend.Options.Invariant.{
  IsConsistent, order_id, RowIsValid, fill_order-OrderIsValid, quantity_on-apply_fill,
}

module _ {F : Type 0} where
  -- The loop of matches, with orders still to be tried.
  pub record IsMatching (c : OptionContract F) (rs : List (OptionOrder F)) (t : Matching F)
      : Type 0 where
    pub consistent : IsConsistent t.exchange
    pub stored : lookup t.order.id t.exchange.orders ≡ some t.order
    pub left : t.order.filled_quantity + t.remaining ≡ t.order.quantity
    pub of_contract : t.order.contract_id ≡ c.id
    pub resting : All (Rests c.id t.order t.exchange.orders) rs
    pub apart : IsApart order_id rs

module _ {F : Type 0} ⦃n : Number F⦄ where
  match_with-IsConsistent :
      (c : OptionContract F) (r : OptionOrder F) (rs : List (OptionOrder F)) (t : Matching F)
      → IsMatching c (r ∷ rs) t
      → IsConsistent (match_with c r t).exchange
  unfolding match_with apply_fill
  match_with-IsConsistent c r rs t m =
      let rests = m.resting.0 in
      let orders = t.exchange.orders in
      let q = min t.remaining (r.quantity - r.filled_quantity) in
      let price = fill_price t.order r c.mark_price in
      let maker = fill_order q price r in
      let taker = fill_order q price t.order in
      let apart = other_id c.id t.order r orders m.stored rests in
      let saved = save_order taker (save_order maker t.exchange) in
      let (one, placed) =
        quantity_on-apply_fill c taker.user_id taker.side q price saved m.consistent.placed in
      let mid = apply_fill c taker.user_id taker.side q price saved in
      let (two, placed_too) = quantity_on-apply_fill c r.user_id r.side q price mid placed in
      record {
        unique =
            IsUnique-insert taker.id taker (insert maker.id maker orders)
              (IsUnique-insert maker.id maker orders m.consistent.unique);
        valid =
            All-insert RowIsValid taker.id taker (insert maker.id maker orders)
              (refl, fill_order-OrderIsValid q price t.order (let h = m.left in omega arith))
              (All-insert RowIsValid maker.id maker orders
                (refl, fill_order-OrderIsValid q price r (let h = rests.3 in omega arith))
                m.consistent.valid);
        placed = placed_too;
        reconciled = λ side place.
            let sums =
              placed_after side place c.id q price r t.order orders rests m.stored m.of_contract
                apart in
            let first = one side place in
            let second = two side place in
            let before = m.consistent.reconciled side place in omega arith;
        balanced = λ contract.
            let sums =
              sold_as_bought c.id contract q price r t.order orders rests m.stored m.of_contract
                apart in
            let before = m.consistent.balanced contract in omega arith;
      }

  match_with-IsMatching :
      (c : OptionContract F) (r : OptionOrder F) (rs : List (OptionOrder F)) (t : Matching F)
      → IsMatching c (r ∷ rs) t
      → IsMatching c rs (match_with c r t)
  unfolding match_with apply_fill
  match_with-IsMatching c r rs t m =
      let orders = t.exchange.orders in
      let q = min t.remaining (r.quantity - r.filled_quantity) in
      let price = fill_price t.order r c.mark_price in
      let maker = fill_order q price r in
      let taker = fill_order q price t.order in
      let between = insert r.id maker orders in
      record {
        consistent = match_with-IsConsistent c r rs t m;
        stored = lookup-insert_self t.order.id taker between;
        left = (let h = m.left in omega arith);
        of_contract = m.of_contract;
        resting =
            All-map (λ w. Rests c.id t.order orders w × (r.id == w.id ≡ false))
              (Rests c.id taker (insert t.order.id taker between))
              (λ w h. fill_order-Rests c.id q price r t.order w orders m.stored h.0 h.1) rs
              (All-both (Rests c.id t.order orders) (λ w. r.id == w.id ≡ false) rs m.resting.1
                m.apart.0);
        apart = m.apart.1;
      }

  -- Fewer orders to be tried.
  skipped-IsMatching :
      (c : OptionContract F) (rs : List (OptionOrder F)) (r : OptionOrder F) (t : Matching F)
      → IsMatching c (r ∷ rs) t
      → IsMatching c rs t
  skipped-IsMatching c rs r t m = record {
    consistent = m.consistent;
    stored = m.stored;
    left = m.left;
    of_contract = m.of_contract;
    resting = m.resting.1;
    apart = m.apart.1;
  }

  stopped-IsMatching :
      (c : OptionContract F) (rs : List (OptionOrder F)) (t : Matching F)
      → IsMatching c rs t
      → IsMatching c [] t
  stopped-IsMatching c rs t m = record {
    consistent = m.consistent;
    stored = m.stored;
    left = m.left;
    of_contract = m.of_contract;
    resting = tt;
    apart = tt;
  }

  pub match_loop-IsMatching :
      (c : OptionContract F) (rs : List (OptionOrder F)) (t : Matching F)
      → IsMatching c rs t
      → IsMatching c [] (match_loop c rs t)
  unfolding match_loop
  match_loop-IsMatching c [] t m = m
  match_loop-IsMatching c (r ∷ rs) t m = elim (Bool-cases (leb t.remaining 0)) [
    | inl e ↦ rw (e, match_loop) (stopped-IsMatching c (r ∷ rs) t m)
    | inr e ↦ elim (Bool-cases (is_price_match t.order r c.mark_price)) [
      | inl f ↦
          rw (e, f, match_loop)
            (match_loop-IsMatching c rs (match_with c r t) (match_with-IsMatching c r rs t m))
      | inr f ↦ rw (e, f, match_loop) (match_loop-IsMatching c rs t (skipped-IsMatching c rs r t m))
    ]
  ]
