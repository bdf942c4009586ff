-- ===== src/Treasury/Accounts.antt =====
-- `activateAccount`, `updateTreasuryMode` and `_readVaultBalances`
-- (apps/api/src/treasury/treasury.service.ts).
use genesis_reserve_smarter.Base.{ℕ, String, Option, none, some, Bool, [], ◌∷◌, str_eq, any, get_or}
use genesis_reserve_smarter.Base.Int.{ℤ, pos}
use genesis_reserve_smarter.Base.Like.{cat}
use genesis_reserve_smarter.Database.{TreasuryAccount, TreasuryMode, Tables}
use genesis_reserve_smarter.Effect.{
  Io, Result, pure, throw, or_throw, ◌>>=◌, ◌>>◌, require, account_not_found,
  compliance_record_missing,
}
use genesis_reserve_smarter.Ledger.Orders.{get_account, create_account, update_account_mode}
use genesis_reserve_smarter.Compliance.Status.{verify_on_chain_record}

pub record ActivateParams : Type 0 where
  pub owner_id : String
  pub wallet_address : String
  pub mode : TreasuryMode
  pub kyc_level : ℕ
  pub risk_tier : ℕ
  pub jurisdiction : String
  pub partner_pricing_id : String

unfoldable pub needs_travel_rule : String → Bool
needs_travel_rule jurisdiction = any (str_eq jurisdiction) ("US" ∷ "GB" ∷ "DE" ∷ "IN" ∷ [])

-- `prefix` is the first eight characters of a text. The stored account keeps no travel rule flag.
abbrev pub new_account : (String → String) → ActivateParams → ℕ → TreasuryAccount
new_account prefix p now = record {
  account_id = cat "pta-" (prefix p.owner_id);
  owner_id = p.owner_id;
  wallet_address = p.wallet_address;
  mode = p.mode;
  kyc_level = p.kyc_level;
  risk_tier = p.risk_tier;
  jurisdiction = p.jurisdiction;
  policy_version = 1;
  partner_pricing_id = p.partner_pricing_id;
  updated_at = now;
}

-- `vault` answers the call of the contract, which is told whether the travel rule applies.
unfoldable pub activate_account :
    (lower prefix : String → String)
    → (Bool → Result (Unit {0}))
    → ActivateParams
    → ℕ
    → Io Tables TreasuryAccount
activate_account lower prefix vault p now = do
  valid ← verify_on_chain_record lower p.wallet_address
  require valid (compliance_record_missing p.wallet_address)
  or_throw (vault (needs_travel_rule p.jurisdiction))
  let account = new_account prefix p now
  create_account account
  pure account

abbrev pub update_mode_of :
    Result (Unit {0}) → String → TreasuryMode → ℕ → Option TreasuryAccount → Io Tables (Unit {0})
update_mode_of vault id mode now none = throw (account_not_found id)
update_mode_of vault id mode now (some account) = do or_throw vault; update_account_mode id mode now

unfoldable pub update_treasury_mode :
    Result (Unit {0}) → String → TreasuryMode → ℕ → Io Tables (Unit {0})
update_treasury_mode vault id mode now = do
  account ← get_account id
  update_mode_of vault id mode now account

pub record VaultBalances : Type 0 where
  pub available : ℤ
  pub reserved : ℤ
  pub invested : ℤ

-- The four reads of the contract, each `none` where it fails.
unfoldable pub read_vault_balances :
    (liquid_buffer reserved_for_payouts deployed_assets total_assets : Option ℤ) → VaultBalances
read_vault_balances none none none total_assets = record {
  available = get_or total_assets (pos 0);
  reserved = pos 0;
  invested = pos 0;
}
read_vault_balances none none (some d) total_assets = record {
  available = pos 0;
  reserved = pos 0;
  invested = d;
}
read_vault_balances none (some r) deployed_assets total_assets = record {
  available = pos 0;
  reserved = r;
  invested = get_or deployed_assets (pos 0);
}
read_vault_balances (some l) reserved_for_payouts deployed_assets total_assets = record {
  available = l;
  reserved = get_or reserved_for_payouts (pos 0);
  invested = get_or deployed_assets (pos 0);
}
