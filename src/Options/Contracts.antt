-- ===== src/Options/Contracts.antt =====
-- options/options.service.ts: contracts, their expiry, and the risk of a user.
use swap_trade_backend.Common.{
  ℕ, ◌==◌, leb, Option, none, some, List, [], ◌∷◌, map, keep_if, Map, lookup, insert, erase,
  nat_key, if◌then◌else◌, Number, Throws, ok, ◌>>=◌, length,
}
use swap_trade_backend.Options.{
  OptionContract, OptionContractStatus, OptionPosition, UpdateOptionContractDto, OptionProblem,
  Exchange,
}
use swap_trade_backend.Options.Valuation.{net_long, calculate_intrinsic_value}
use swap_trade_backend.Options.Orders.{get_contract_or_throw, is_active, price_or}

abbrev given {ℓ} : {A : Type ℓ} → Option A → A → A
given none old = old
given (some new) old = new

module _ {F : Type 0} where
  abbrev pub save_contract : OptionContract F → Exchange F → Exchange F
  save_contract c x = record x { contracts = insert c.id c x.contracts }

  -- `contract` is the request with the id of the new row and its status ACTIVE.
  unfoldable pub create_contract : OptionContract F → Exchange F → Exchange F
  create_contract contract x = save_contract contract x

  abbrev given_price : Option F → Option F → Option F
  given_price none old = old
  given_price (some new) old = some new

  -- `Object.assign(contract, dto)`
  abbrev pub assign_contract : UpdateOptionContractDto F → OptionContract F → OptionContract F
  assign_contract dto c = record c {
    mark_price = given dto.mark_price c.mark_price;
    volatility = given dto.volatility c.volatility;
    status = given dto.status c.status;
    settlement_price = given_price dto.settlement_price c.settlement_price;
  }

  unfoldable pub update_contract :
      ℕ → UpdateOptionContractDto F → Exchange F → Throws OptionProblem (Exchange F)
  update_contract id dto x =
      get_contract_or_throw id x >>= (λ c. ok (save_contract (assign_contract dto c) x))

  unfoldable pub delete_contract : ℕ → Exchange F → Throws OptionProblem (Exchange F)
  delete_contract id x =
      get_contract_or_throw id x >>= (λ c. ok (record x { contracts = erase c.id x.contracts }))

module _ {F : Type 0} ⦃n : Number F⦄ where
  abbrev pub settle_position : OptionContract F → F → OptionPosition F → OptionPosition F
  settle_position c price p =
      let intrinsic = calculate_intrinsic_value c price in
      record p {
        unrealized_pnl = n.decimal 0 0;
        realized_pnl = n.add p.realized_pnl (n.mul (n.mul (net_long p) intrinsic) c.contract_size);
      }

  abbrev pub settle_row :
      OptionContract F → F → (ℕ × ℕ) × OptionPosition F → (ℕ × ℕ) × OptionPosition F
  settle_row c price (k, p) = (k, if p.contract_id == c.id then settle_position c price p else p)

  -- One contract that has expired.
  unfoldable pub settle_contract : OptionContract F → F → Exchange F → Exchange F
  settle_contract c price x =
      let settled = record c {
        status = OptionContractStatus.settled;
        settlement_price = some price;
      } in
      record (save_contract settled x) { positions = map (settle_row settled price) x.positions }

  unfoldable pub expire_all :
      ℕ → Map ℕ F → List (OptionContract F) → Exchange F → List (ℕ × F) × Exchange F
  unfolding settle_contract
  expire_all now prices [] x = ([], x)
  expire_all now prices (c ∷ cs) x =
      let price = price_or c.mark_price (lookup c.underlying_asset prices) in
      let kept = expire_all now prices cs x in
      let rest = expire_all now prices cs (settle_contract c price x) in
      if leb c.expiry_at now then ((c.id, price) ∷ rest.0, rest.1) else kept

  unfoldable pub process_expiries : ℕ → Map ℕ F → Exchange F → List (ℕ × F) × Exchange F
  unfolding expire_all
  process_expiries now prices x =
      expire_all now prices (keep_if (λ c. is_active c.status) (map (λ row. row.1) x.contracts)) x

  -- The margin, the unrealized and the realized profit of a user, over the contracts that exist.
  abbrev pub totals : Map ℕ (OptionContract F) → List (OptionPosition F) → F × F × F → F × F × F
  totals contracts [] (margin, unrealized, realized) = (margin, unrealized, realized)
  totals contracts (p ∷ ps) (margin, unrealized, realized) = elim (lookup p.contract_id contracts) [
    | none ↦ totals contracts ps (margin, unrealized, realized)
    | some c ↦ totals contracts ps (
      n.add margin p.margin_held,
      n.add unrealized p.unrealized_pnl,
      n.add realized p.realized_pnl,
    )
  ]

  -- The totals, the sum of both profits, and the number of positions.
  unfoldable pub get_user_risk : ℕ → Exchange F → (F × F × F) × F × ℕ
  get_user_risk user x =
      let held = keep_if (λ p. p.user_id == user) (map (λ row. row.1) x.positions) in
      let zero = n.decimal 0 0 in
      let t = totals x.contracts held (zero, zero, zero) in (t, n.add t.1 t.2, length held)
