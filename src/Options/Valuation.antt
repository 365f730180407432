-- ===== src/Options/Valuation.antt =====
-- options/options.service.ts: greeks, margins, intrinsic values and profits.
use swap_trade_backend.Common.{ℕ, Number, if◌then◌else◌}
use swap_trade_backend.Options.{OptionType, OptionContract, OptionOrderSide, OptionPosition, Greeks}

module _ {F : Type 0} ⦃n : Number F⦄ where
  -- A quantity as a number.
  abbrev pub units : ℕ → F
  units quantity = n.decimal quantity 8

  abbrev pub negative : F → F
  negative a = n.sub (n.decimal 0 0) a

  unfoldable pub calculate_greeks : OptionContract F → Greeks F
  calculate_greeks c =
      let moneyness =
        if n.equal c.strike_price (n.decimal 0 0)
        then n.decimal 0 0
        else n.div (n.sub c.mark_price c.strike_price) c.strike_price in
      record {
        delta = n.to_fixed 4 (elim c.option_type [
          | OptionType.call ↦ n.add (n.decimal 5 1) moneyness
          | OptionType.put ↦ n.add (negative (n.decimal 5 1)) moneyness
        ]);
        gamma = n.to_fixed 4 (n.mul c.volatility (n.decimal 8 2));
        theta = n.to_fixed 4 (n.mul (negative (n.decimal 2 2)) c.volatility);
        vega = n.to_fixed 4 (n.mul (n.decimal 12 2) c.volatility);
      }

  unfoldable pub calculate_margin : OptionContract F → OptionOrderSide → ℕ → Greeks F → F
  calculate_margin c side quantity greeks =
      let base = n.mul (n.mul c.mark_price (units quantity)) c.contract_size in
      elim side [
        | OptionOrderSide.buy ↦ n.to_fixed 8 (n.mul base (n.decimal 2 1))
        | OptionOrderSide.sell ↦
            n.to_fixed 8
              (n.mul base (n.add (n.add (n.decimal 4 1) (n.abs greeks.delta)) greeks.gamma))
      ]

  abbrev pub net_long : OptionPosition F → F
  net_long p = n.sub (units p.long_quantity) (units p.short_quantity)

  -- (markPrice - averageEntryPrice) * netLong * contractSize
  unfoldable pub unrealized : OptionContract F → OptionPosition F → F
  unrealized c p =
      n.to_fixed 8
        (n.mul (n.mul (n.sub c.mark_price p.average_entry_price) (net_long p)) c.contract_size)

  unfoldable pub calculate_intrinsic_value : OptionContract F → F → F
  calculate_intrinsic_value c settlement_price = elim c.option_type [
    | OptionType.call ↦ n.greatest (n.decimal 0 0) (n.sub settlement_price c.strike_price)
    | OptionType.put ↦ n.greatest (n.decimal 0 0) (n.sub c.strike_price settlement_price)
  ]
