-- ===== src/Remittance/Fees.antt =====
-- What a quote costs (apps/api/src/treasury/remittance.service.ts).
use genesis_reserve_smarter.Base.{
  ℕ, ◌*◌, ◌/◌, ◌≡◌, refl, String, Option, none, some, true, false, arith,
}
use genesis_reserve_smarter.Base.Int.{ℤ, pos, ◌+ℤ◌, ltb_ℤ, ◌≤ℤ◌, ◌<ℤ◌, int_laws, negsuc, +ℤ_parts}
use genesis_reserve_smarter.Effect.{Result, ok, err}
use genesis_reserve_smarter.Remittance.{
  CorridorConfig, FxQuote, Settings, ProviderQuote, Numbers, Rate, get_corridor_config,
  get_fx_quote, quote_in, received, override_of, asked, should_use_zero_hash, tx_fee_of, fx_fee_of,
}

-- The charges for a text of at least $1: the fee is $0.25 or more and both leave something to send.
abbrev pub AreCharges : ℤ → ℤ → ℤ → Type 0
AreCharges send tx_fee fx_fee =
    (pos 250000 ≤ℤ tx_fee) × (tx_fee +ℤ pos 750000 ≤ℤ send) × (tx_fee +ℤ fx_fee <ℤ send)

charges : (send : ℤ) → pos 1000000 ≤ℤ send → AreCharges send (tx_fee_of send) (fx_fee_of send)
unfolding tx_fee_of fx_fee_of
charges (pos n) h = ground (
  arith,
  +ℤ_parts (pos (n * 80 / 1000000)) (pos 750000),
  +ℤ_parts (pos 250000) (pos 750000),
  +ℤ_parts (pos (n * 80 / 1000000)) (pos (n * 25 / 10000)),
  +ℤ_parts (pos 250000) (pos (n * 25 / 10000)),
)
charges (negsuc n) h = absurd (omega arith)

corridor_minimum :
    (corridor : String) (k : CorridorConfig)
    → get_corridor_config corridor ≡ some k
    → k.min_amount_usdc ≡ pos 1000000
unfolding get_corridor_config
corridor_minimum corridor k h = ground (arith, h)

-- A quote that is given, and adds up.
abbrev pub Priced : ℤ → Result FxQuote → Type 0
Priced send (ok q) =
    (q.send_amount_usdc ≡ send)
    × (q.net_send_usdc +ℤ q.tx_fee_usdc ≡ send)
    × (q.total_fees_usdc ≡ q.tx_fee_usdc +ℤ q.fx_fee_usdc)
    × (pos 250000 ≤ℤ q.tx_fee_usdc)
    × (pos 750000 ≤ℤ q.net_send_usdc)
    × (q.total_fees_usdc <ℤ send)
Priced send (err e) = ⊥

-- What a quote asks of the corridor that it is for.
abbrev pub Within : ℤ → Option CorridorConfig → Type 0
Within send o =
    (k : CorridorConfig) × (o ≡ some k)
    × (k.enabled ≡ true)
    × (k.min_amount_usdc ≤ℤ send)
    × (send ≤ℤ k.max_amount_usdc)

module _ (n : Numbers) (s : Settings) (mid_rate : Rate) (q : Option ProviderQuote)
    (quote_id : String) (now : ℕ) where
  -- Within the limits of an enabled corridor a quote is given, whatever the provider answers, as long as
  -- it names an amount or the amount by the rate is finite: the fee
  -- is at least $0.25, the fee and what is sent on add up to the amount, at least $0.75 is sent on,
  -- and the fees together are less than the amount.
  pub get_fx_quote-Priced :
      (send : ℤ) (corridor : String) (k : CorridorConfig) (a : ℤ)
      → get_corridor_config corridor ≡ some k
      → k.enabled ≡ true
      → k.min_amount_usdc ≤ℤ send
      → send ≤ℤ k.max_amount_usdc
      → received n (override_of n mid_rate (asked n (should_use_zero_hash s corridor) q)) send
        ≡ some a
      → Priced send (get_fx_quote n s mid_rate q quote_id now send corridor)
  unfolding get_fx_quote
  get_fx_quote-Priced send corridor k a found enabled above below finite =
      let least = corridor_minimum corridor k found in
      let enough : pos 1000000 ≤ℤ send = ground (arith, least, above) in
      let c = charges send enough in
      let low : ltb_ℤ send k.min_amount_usdc ≡ false = ground (arith, above) in
      let high : ltb_ℤ k.max_amount_usdc send ≡ false = ground (arith, below) in
      rw (found, enabled, low, high, finite)
        (refl, omega (int_laws, c.0), refl, c.0, omega (int_laws, c.1), c.2)

  quote_in-Within :
      (send : ℤ) (corridor : String) (o : Option CorridorConfig) (r : FxQuote)
      → quote_in n s mid_rate q quote_id now send corridor o ≡ ok r
      → Within send o
  quote_in-Within send corridor none r h = ground (arith, h)
  quote_in-Within send corridor (some k) r h =
      (k, refl, ground (arith, h), ground (arith, h), ground (arith, h))

  -- Whoever gets a quote asked within the limits of a known and enabled corridor.
  pub get_fx_quote-Within :
      (send : ℤ) (corridor : String) (r : FxQuote)
      → get_fx_quote n s mid_rate q quote_id now send corridor ≡ ok r
      → Within send (get_corridor_config corridor)
  unfolding get_fx_quote
  get_fx_quote-Within send corridor r h = quote_in-Within send corridor _ r h
