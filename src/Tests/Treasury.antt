-- ===== src/Tests/Treasury.antt =====
-- A quote and its reservation (apps/api/src/treasury/remittance.service.ts,
-- apps/api/src/treasury/treasury.service.ts).
use genesis_reserve_smarter.Base.{String, ◌≡◌, refl, none, some, true, false, List, [], ◌∷◌, arith}
use genesis_reserve_smarter.Base.Int.{ℤ, pos, ◌-ℤ◌}
use genesis_reserve_smarter.Database.{
  IdentityCase, SanctionStatus, Tables, no_rows, TreasuryMode, TreasuryAccount,
}
use genesis_reserve_smarter.Effect.{World, done, world_of, corridor_not_available, ok, err}
use genesis_reserve_smarter.Ledger.Books.{AreSound}
use genesis_reserve_smarter.Ledger.Books.Kept.{seeded-AreSound}
use genesis_reserve_smarter.Compliance.{
  check_kyc_tier, check_sanctions, check_velocity, sum_amounts, kyc_level_of,
}
use genesis_reserve_smarter.Compliance.Status.{get_account_status}
use genesis_reserve_smarter.Ledger.Orders.{get_account, create_account, insert_account}
use genesis_reserve_smarter.Ledger.Orders.Lookup.{create_account-get_account}
use genesis_reserve_smarter.Compliance.Screens.{screen_transfer, persist_screening, judge_transfer}
use genesis_reserve_smarter.Remittance.{
  Numbers, Settings, get_corridor_config, get_fx_quote, tx_fee_of, us_ph, FxQuote, quote_of,
  should_use_zero_hash,
}
use genesis_reserve_smarter.Remittance.Fees.{
  Priced, Within, get_fx_quote-Priced, get_fx_quote-Within,
}
use genesis_reserve_smarter.Treasury.{
  ReserveRequest, Cached, response, quote, Memory, RemittanceQuote, cached_at,
}
use genesis_reserve_smarter.Treasury.Reserve.{
  ReserveInputs, reserve_funds, reserve_from, reserve_screened, quote_for, QuoteParams, build_quote,
  remittance_quote,
}
use genesis_reserve_smarter.Treasury.Idempotency.{reserve_funds-again, build_quote-again}
use genesis_reserve_smarter.Treasury.Orders.{CreateParams, OrderInputs, create_order}
use genesis_reserve_smarter.Treasury.Orders.Unstored.{Never, create_order-Never}
use genesis_reserve_smarter.Treasury.Sound.{reserve_funds-AreSound}
use genesis_reserve_smarter.Tests.{
  migrated, chart_of_accounts, id_digest, first_moment, show_number, same_text, no_cast,
}

abbrev numbers : Numbers
numbers = record {
  parse_rate = λ s. none;
  parse_bigint = λ s. none;
  with_spread = λ r. r;
  local_amount = λ net r. some net;
}

abbrev settings : Settings
settings = record { remittance_provider = ""; zerohash_corridors = [] }

get_fx_quote-Priced_example :
    Priced
      (pos 2000000)
      (get_fx_quote numbers settings "55.26" none "q_1" 1000 (pos 2000000) "US-PH")
unfolding get_corridor_config should_use_zero_hash ◌-ℤ◌ tx_fee_of
get_fx_quote-Priced_example =
    get_fx_quote-Priced numbers settings "55.26" none "q_1" 1000 (pos 2000000) "US-PH" us_ph
      (pos 1750000) refl refl (omega arith) (omega arith) refl

get_fx_quote-Within_example : Within (pos 2000000) (get_corridor_config "US-PH")
unfolding get_fx_quote get_corridor_config should_use_zero_hash ◌-ℤ◌ tx_fee_of
get_fx_quote-Within_example =
    get_fx_quote-Within numbers settings "55.26" none "q_1" 1000 (pos 2000000) "US-PH"
      (quote_of numbers (pos 1750000)
        (record { mid_rate = "55.26"; receive = none; quote_id = none }) us_ph "US-PH" false
        (pos 2000000) "q_1" 1000)
      refl

abbrev alice : TreasuryAccount
alice = record {
  account_id = "pta-1";
  owner_id = "u1";
  wallet_address = "0xa";
  mode = TreasuryMode.flexible_reserve;
  kyc_level = 1;
  risk_tier = 1;
  jurisdiction = "US";
  policy_version = 1;
  partner_pricing_id = "p";
  updated_at = 0;
}

abbrev memory_of : List (String × Cached) → World Memory
memory_of cache = record {
  db = record {
    backend = record { tables = record migrated { accounts = alice ∷ [] }; published = [] };
    cache = cache;
  };
  faults = [];
}

abbrev reserve_request : ℤ → ReserveRequest
reserve_request amount = record {
  account_id = "pta-1";
  amount = amount;
  external_order_id = "order-1";
  expiry_seconds = none;
  idempotency_key = "k";
}

abbrev reserve_inputs : ReserveInputs
reserve_inputs = record {
  now = 5000;
  vault = ok (record { reservation_id = "r"; tx_hash = "0x1" });
  moment = first_moment;
}

-- The wallet has no identity case, so its screening fails.
abbrev refusal : Cached
refusal = response (record {
  reservation_id = "";
  account_id = "pta-1";
  amount = pos 2000000;
  expiry = 5000;
  ledger_entry_id = "";
  reserved = false;
  failure_reason = some "FAIL";
})

reserve_funds-again_example :
    reserve_funds id_digest same_text no_cast
      (reserve_request (pos 9000000))
      reserve_inputs
      (memory_of (("other", refusal) ∷ ("k", refusal) ∷ []))
    ≡ done refusal (memory_of (("other", refusal) ∷ ("k", refusal) ∷ []))
unfolding reserve_funds cached_at get_account reserve_from screen_transfer check_kyc_tier
    check_sanctions check_velocity sum_amounts persist_screening reserve_screened judge_transfer
    kyc_level_of
reserve_funds-again_example =
    reserve_funds-again id_digest same_text no_cast (reserve_request (pos 2000000))
      (reserve_request (pos 9000000)) reserve_inputs reserve_inputs (memory_of [])
      (memory_of (("k", refusal) ∷ [])) (memory_of (("other", refusal) ∷ ("k", refusal) ∷ []))
      refusal (("other", refusal) ∷ []) refl refl (refl, refl)

abbrev quote_params : ℤ → QuoteParams
quote_params amount = record {
  account_id = "pta-1";
  send_amount = amount;
  send_currency = "USDC";
  receive_currency = "PHP";
  corridor = "US-PH";
  idempotency_key = "k";
}

abbrev fx_quote : FxQuote
fx_quote =
    quote_of numbers (pos 1750000) (record { mid_rate = "55.26"; receive = none; quote_id = none })
      us_ph "US-PH" false (pos 2000000) "q_1" 1000

abbrev built : RemittanceQuote
built =
    remittance_quote same_text (λ s. "id") show_number (quote_params (pos 2000000)) 1000 fx_quote
      alice none us_ph

build_quote-again_example :
    build_quote same_text
      (λ s. "id")
      show_number
      (quote_params (pos 5000000))
      900000
      (err corridor_not_available)
      (memory_of (("other", quote built) ∷ ("id", quote built) ∷ ("k", quote built) ∷ []))
    ≡ done
        (quote built)
        (memory_of (("other", quote built) ∷ ("id", quote built) ∷ ("k", quote built) ∷ []))
unfolding build_quote cached_at get_account quote_for get_account_status get_corridor_config
build_quote-again_example =
    build_quote-again same_text (λ s. "id") show_number (quote_params (pos 2000000))
      (quote_params (pos 5000000)) 1000 900000 (ok fx_quote) (err corridor_not_available)
      (memory_of []) (memory_of (("id", quote built) ∷ ("k", quote built) ∷ []))
      (memory_of (("other", quote built) ∷ ("id", quote built) ∷ ("k", quote built) ∷ []))
      (quote built) (("other", quote built) ∷ []) refl refl (refl, refl)

abbrev verified : IdentityCase
verified = record {
  identity_id = "i1";
  user_id = "u1";
  provider_ref = "chk";
  docs_verified = true;
  liveness_pass = true;
  kyc_level = 2;
  sanction_status = SanctionStatus.pass;
  jurisdiction = "US";
}

-- The migrated tables with an account of a verified user, so a reservation is granted and posted.
abbrev verified_memory : World Memory
verified_memory = record {
  db = record {
    backend = record {
      tables = record migrated {
        accounts = alice ∷ [];
        user_ids = "u1" ∷ [];
        identity_cases = verified ∷ [];
      };
      published = [];
    };
    cache = [];
  };
  faults = [];
}

verified_memory-AreSound : AreSound id_digest verified_memory.db.backend.tables
verified_memory-AreSound =
    let seeded : AreSound id_digest migrated = seeded-AreSound id_digest chart_of_accounts in
    record { derived = seeded.derived; balanced = seeded.balanced; chained = seeded.chained }

reserve_funds-AreSound_example :
    AreSound id_digest
      (world_of (
        reserve_funds id_digest same_text no_cast
          (reserve_request (pos 2000000))
          reserve_inputs
          verified_memory)).db.backend.tables
reserve_funds-AreSound_example =
    reserve_funds-AreSound id_digest same_text no_cast (reserve_request (pos 2000000))
      reserve_inputs verified_memory verified_memory-AreSound

abbrev create_params : CreateParams
create_params = record {
  quote_id = "id";
  account_id = "pta-1";
  recipient_id = "bob";
  payout_method = "bank_transfer";
  idempotency_key = "c";
  originator_name = some "Alice";
}

abbrev order_inputs : OrderInputs
order_inputs = record {
  now = 1000;
  reserve = reserve_inputs;
  fx = ok fx_quote;
  transfer = ok (record { provider_transfer_id = "t"; status = "SETTLED" });
}

-- The funds are reserved already.
abbrev reserved_before : Cached
reserved_before = response (record {
  reservation_id = "r";
  account_id = "pta-1";
  amount = pos 2000000;
  expiry = 305000;
  ledger_entry_id = "ent_1";
  reserved = true;
  failure_reason = none;
})

create_order-Never_example : Never (
    create_order id_digest same_text same_text no_cast create_params order_inputs
      (memory_of (("id", quote built) ∷ ("res:c", reserved_before) ∷ [])))
create_order-Never_example =
    create_order-Never id_digest same_text same_text no_cast create_params order_inputs
      (memory_of (("id", quote built) ∷ ("res:c", reserved_before) ∷ [])) refl

-- Another owner, whose account would have the same id.
abbrev alice_only : Tables
alice_only = record no_rows { accounts = alice ∷ [] }

create_account-get_account_example :
    get_account "pta-1" (record { db = alice_only; faults = [] })
    ≡ done (some alice) (record { db = alice_only; faults = [] })
unfolding create_account insert_account
create_account-get_account_example =
    create_account-get_account (record alice { owner_id = "u2"; wallet_address = "0xb" }) alice_only
      alice_only refl
