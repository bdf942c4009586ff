-- ===== src/Remittance.antt =====
-- Quotes and payouts (apps/api/src/treasury/remittance.service.ts). A floating-point number stands
-- as its text, and its arithmetic is a parameter; so are the drawn or cached FX rate, the reading of
-- REMITTANCE_PROVIDER and ZEROHASH_CORRIDORS, and what the Zero Hash adapter answers.
pub mod Fees
pub mod Payout
use genesis_reserve_smarter.Base.{
  ℕ, ◌*◌, ◌+◌, String, Option, none, some, Bool, true, false, List, [], ◌∷◌, str_eq, if◌then◌else◌,
  any, not, ◌||◌, get_or,
}
use genesis_reserve_smarter.Base.Int.{ℤ, pos, ◌-ℤ◌, ◌+ℤ◌, ◌*ℤ◌, div_ℤ, ltb_ℤ}
use genesis_reserve_smarter.Effect.{
  Result, ok, err, corridor_not_available, below_minimum, above_maximum, range_error,
}

abbrev pub Rate : Type 0
Rate = String

pub record FxQuote : Type 0 where
  pub quote_id : String
  pub send_amount_usdc : ℤ
  pub receive_amount : ℤ
  pub receive_currency : String
  pub fx_rate : Rate
  pub genesis_rate : Rate
  pub platform_fee_bps : ℤ
  pub fx_spread_bps : ℤ
  pub tx_fee_usdc : ℤ
  pub fx_fee_usdc : ℤ
  pub total_fees_usdc : ℤ
  pub net_send_usdc : ℤ
  pub eta_seconds : ℕ
  pub corridor : String
  pub provider : String
  pub expires_at : ℕ

pub record CorridorConfig : Type 0 where
  pub corridor : String
  pub enabled : Bool
  pub provider : String
  pub min_amount_usdc : ℤ
  pub max_amount_usdc : ℤ
  pub payout_methods : List String
  pub cutoff_utc_hour : ℕ
  pub sla_hours : ℕ
  pub fx_provider : String
  pub receive_currency : String

abbrev pub us_ph : CorridorConfig
us_ph = record {
  corridor = "US-PH";
  enabled = true;
  provider = "moneygram";
  min_amount_usdc = pos 1000000;
  max_amount_usdc = pos 5000000000;
  payout_methods = "bank_transfer" ∷ "cash_pickup" ∷ [];
  cutoff_utc_hour = 20;
  sla_hours = 1;
  fx_provider = "bloomberg";
  receive_currency = "PHP";
}

abbrev pub us_mx : CorridorConfig
us_mx = record {
  corridor = "US-MX";
  enabled = true;
  provider = "moneygram";
  min_amount_usdc = pos 1000000;
  max_amount_usdc = pos 5000000000;
  payout_methods = "bank_transfer" ∷ "cash_pickup" ∷ "mobile_wallet" ∷ [];
  cutoff_utc_hour = 22;
  sla_hours = 2;
  fx_provider = "bloomberg";
  receive_currency = "MXN";
}

abbrev pub us_in : CorridorConfig
us_in = record {
  corridor = "US-IN";
  enabled = true;
  provider = "circle_cctp";
  min_amount_usdc = pos 1000000;
  max_amount_usdc = pos 10000000000;
  payout_methods = "bank_transfer" ∷ [];
  cutoff_utc_hour = 18;
  sla_hours = 1;
  fx_provider = "bloomberg";
  receive_currency = "INR";
}

abbrev pub us_ng : CorridorConfig
us_ng = record {
  corridor = "US-NG";
  enabled = false;
  provider = "moneygram";
  min_amount_usdc = pos 1000000;
  max_amount_usdc = pos 2000000000;
  payout_methods = "bank_transfer" ∷ [];
  cutoff_utc_hour = 20;
  sla_hours = 24;
  fx_provider = "bloomberg";
  receive_currency = "NGN";
}

-- `CORRIDORS[corridor]`, also `getCorridorConfig`.
unfoldable pub get_corridor_config : String → Option CorridorConfig
get_corridor_config corridor =
    if str_eq corridor "US-PH"
    then some us_ph
    else if str_eq corridor "US-MX"
    then some us_mx
    else if str_eq corridor "US-IN"
    then some us_in
    else if str_eq corridor "US-NG"
    then some us_ng
    else none

-- REMITTANCE_PROVIDER in upper case, and the corridors that ZEROHASH_CORRIDORS lists.
pub record Settings : Type 0 where
  pub remittance_provider : String
  pub zerohash_corridors : List String

unfoldable pub should_use_zero_hash : Settings → String → Bool
should_use_zero_hash s corridor =
    str_eq s.remittance_provider "ZERO_HASH" || any (str_eq corridor) s.zerohash_corridors

-- What `createQuote` of the adapter answers; an absent text and an empty one are both `none`.
pub record ProviderQuote : Type 0 where
  pub provider_quote_id : Option String
  pub fx_rate : Option String
  pub receive_amount : Option String

pub record Numbers : Type 0 where
  -- `Number(text)`, where it is finite and positive
  pub parse_rate : String → Option Rate
  -- `BigInt(text)`, which throws on a text that is no integer
  pub parse_bigint : String → Option ℤ
  -- `midRate * (1 - 25 / 10000)`
  pub with_spread : Rate → Rate
  -- `BigInt(Math.floor(Number(netSend) / 1e6 * genesisRate))`, which throws where the product is not
  -- finite
  pub local_amount : ℤ → Rate → Option ℤ

abbrev pub fx_spread_bps : ℤ
fx_spread_bps = pos 25

abbrev pub tx_fee_rate_ppm : ℤ
tx_fee_rate_ppm = pos 80

abbrev pub tx_fee_min_usdc : ℤ
tx_fee_min_usdc = pos 250000

unfoldable pub tx_fee_of : ℤ → ℤ
unfolding ◌*ℤ◌ div_ℤ
tx_fee_of send =
    let variable = div_ℤ (send *ℤ tx_fee_rate_ppm) (pos 1000000) in
    if ltb_ℤ tx_fee_min_usdc variable then variable else tx_fee_min_usdc

unfoldable pub fx_fee_of : ℤ → ℤ
unfolding ◌*ℤ◌ div_ℤ
fx_fee_of send = div_ℤ (send *ℤ fx_spread_bps) (pos 10000)

unfoldable pub effective_tx_fee_bps : ℤ → ℤ → ℤ
unfolding ◌*ℤ◌ div_ℤ
effective_tx_fee_bps fee send = if ltb_ℤ (pos 0) send then div_ℤ (fee *ℤ pos 10000) send else pos 0

-- What the provider's quote changes: the rate, the amount received and the quote's id.
pub record Override : Type 0 where
  pub mid_rate : Rate
  pub receive : Option ℤ
  pub quote_id : Option String

abbrev pub positive : ℤ → Option ℤ
positive a = if ltb_ℤ (pos 0) a then some a else none

module _ (n : Numbers) where
  abbrev pub rate_of : Option String → Rate → Rate
  rate_of none mid_rate = mid_rate
  rate_of (some text) mid_rate = get_or (n.parse_rate text) mid_rate

  -- The amount is read after the rate, so a rate is kept where reading the amount throws.
  abbrev pub amount_of : Rate → Option String → Option ℤ → Override
  amount_of mid_rate id none = record { mid_rate = mid_rate; receive = none; quote_id = none }
  amount_of mid_rate id (some a) = record {
    mid_rate = mid_rate;
    receive = positive a;
    quote_id = id;
  }

  abbrev pub received_of : Rate → Option String → Option String → Override
  received_of mid_rate id none = record { mid_rate = mid_rate; receive = none; quote_id = id }
  received_of mid_rate id (some text) = amount_of mid_rate id (n.parse_bigint text)

  -- `none`: the adapter is not asked, or has failed.
  abbrev pub override_of : Rate → Option ProviderQuote → Override
  override_of mid_rate none = record { mid_rate = mid_rate; receive = none; quote_id = none }
  override_of mid_rate (some q) =
      received_of (rate_of q.fx_rate mid_rate) q.provider_quote_id q.receive_amount

  -- `providerReceiveAmount ?? BigInt(localAmt)`
  abbrev pub received : Override → ℤ → Option ℤ
  received o send = elim o.receive [
    | none ↦ n.local_amount (send -ℤ tx_fee_of send) (n.with_spread o.mid_rate)
    | some a ↦ some a
  ]

  abbrev pub quote_of : ℤ → Override → CorridorConfig → String → Bool → ℤ → String → ℕ → FxQuote
  quote_of receive o config corridor use_zero_hash send quote_id now =
      let tx_fee = tx_fee_of send in
      let net_send = send -ℤ tx_fee in
      let genesis_rate = n.with_spread o.mid_rate in
      record {
        quote_id = get_or o.quote_id quote_id;
        send_amount_usdc = send;
        receive_amount = receive;
        receive_currency = config.receive_currency;
        fx_rate = o.mid_rate;
        genesis_rate = genesis_rate;
        platform_fee_bps = effective_tx_fee_bps tx_fee send;
        fx_spread_bps = fx_spread_bps;
        tx_fee_usdc = tx_fee;
        fx_fee_usdc = fx_fee_of send;
        total_fees_usdc = tx_fee +ℤ fx_fee_of send;
        net_send_usdc = net_send;
        eta_seconds = config.sla_hours * 3600;
        corridor = corridor;
        provider = if use_zero_hash then "zerohash" else config.provider;
        expires_at = now + 60000;
      }

  -- The conversion to bigint stands outside the `try`.
  abbrev pub quoted :
      Option ℤ → Override → CorridorConfig → String → Bool → ℤ → String → ℕ → Result FxQuote
  quoted none o config corridor use_zero_hash send quote_id now = err range_error
  quoted (some receive) o config corridor use_zero_hash send quote_id now =
      ok (quote_of receive o config corridor use_zero_hash send quote_id now)

  abbrev pub asked : Bool → Option ProviderQuote → Option ProviderQuote
  asked true q = q
  asked false q = none

  abbrev pub quote_in :
      Settings
      → Rate
      → Option ProviderQuote
      → String
      → ℕ
      → ℤ
      → String
      → Option CorridorConfig
      → Result FxQuote
  quote_in s mid_rate q quote_id now send corridor none = err corridor_not_available
  quote_in s mid_rate q quote_id now send corridor (some config) =
      let use_zero_hash = should_use_zero_hash s corridor in
      if not config.enabled
      then err corridor_not_available
      else if ltb_ℤ send config.min_amount_usdc
      then err below_minimum
      else if ltb_ℤ config.max_amount_usdc send
      then err above_maximum
      else let o = override_of mid_rate (asked use_zero_hash q) in
        quoted (received o send) o config corridor use_zero_hash send quote_id now

  -- `mid_rate` is the answer of `_getFXRate`, and `quote_id` the id that the time and a random text
  -- make.
  unfoldable pub get_fx_quote :
      Settings → Rate → Option ProviderQuote → String → ℕ → ℤ → String → Result FxQuote
  unfolding get_corridor_config
  get_fx_quote s mid_rate q quote_id now send corridor =
      quote_in s mid_rate q quote_id now send corridor (get_corridor_config corridor)
