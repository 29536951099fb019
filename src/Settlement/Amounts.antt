-- ===== src/Settlement/Amounts.antt =====
-- `_decimal_volume`, `_decimal_price` and `_amounts` of polygon_settlement_normalize.py. Amounts
-- are decoded from unsigned words, so they are natural numbers.
use oddsfox_pipeline.Base.{
  ℕ, ◌+◌, ◌*◌, ◌/◌, ◌%◌, ◌^◌, ◌&&◌, ◌||◌, Result, ok, err, ◌>>◌, raise_if, ltb, ◌==◌, if◌then◌else◌,
}
use oddsfox_pipeline.Settlement.Types.{
  SettlementEvent, SettlementError, Side, buy, sell, volume_out_of_bound, price_inputs,
  invalid_amounts,
}

abbrev pub price_scale : ℕ
price_scale = 10 ^ 18

abbrev pub max_ratio_safe_volume_unscaled : ℕ
max_ratio_safe_volume_unscaled = 340_282_366_920_938_463_374

-- The 21 digits at most that pass the guard fit the 28 of the decimal context, so the scaling by
-- 10^-6 and the `quantize` to it are exact.
unfoldable pub decimal_volume : ℕ → Result SettlementError ℕ
decimal_volume value =
    if value == 0 || ltb max_ratio_safe_volume_unscaled value
    then err volume_out_of_bound
    else ok value

-- `collateral * 10^18 / shares`, rounded half to even. The scale is a parameter of the arithmetic.
unfoldable pub round_half_even : ℕ → ℕ → ℕ → ℕ
round_half_even scale collateral shares =
    let scaled = collateral * scale / shares in
    let doubled = collateral * scale % shares * 2 in
    if ltb shares doubled || (doubled == shares && scaled % 2 == 1) then scaled + 1 else scaled

unfoldable pub decimal_price : ℕ → ℕ → Result SettlementError ℕ
decimal_price collateral shares =
    if shares == 0 || collateral == 0 || ltb shares collateral
    then err price_inputs
    else ok (round_half_even price_scale collateral shares)

-- (shares, collateral) of a fill, by its side.
abbrev pub by_side : Side → ℕ → ℕ → ℕ × ℕ
by_side buy maker taker = (taker, maker)
by_side sell maker taker = (maker, taker)

unfoldable pub amounts : SettlementEvent → Result SettlementError (ℕ × ℕ)
amounts event = do
  let pair = by_side event.side event.maker_amount event.taker_amount
  raise_if (pair.0 == 0 || pair.1 == 0 || ltb pair.0 pair.1) invalid_amounts
  ok pair
