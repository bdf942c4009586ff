-- ===== src/Compliance.antt =====
-- The screening service (apps/api/src/treasury/compliance.service.ts): its gates here, what it
-- decides and stores in the modules below. `lower` is the lower case of a text, and `cast` is the
-- server's reading of a text as bigint: not the repository's code, so parameters.
pub mod Screens
pub mod Status
pub mod Verdict
pub mod Gates
use genesis_reserve_smarter.Base.{
  ℕ, ◌+◌, ◌-◌, String, Option, none, some, Bool, true, false, ◌&&◌, ◌||◌, List, [], ◌∷◌, str_eq,
  if◌then◌else◌, get_or, any, select, ltb, leb, length, not, find, is_some,
}
use genesis_reserve_smarter.Base.Int.{ℤ, pos, ◌+ℤ◌, ltb_ℤ, leb_ℤ}
use genesis_reserve_smarter.Base.Json.{get_text}
use genesis_reserve_smarter.Base.Like.{cat, like}
use genesis_reserve_smarter.Database.{
  LedgerEntry, TreasuryAccount, IdentityCase, Screening, SanctionStatus, TravelRuleRecord, Tables,
  entry_type_text,
}
use genesis_reserve_smarter.Effect.{
  Io, Result, ok, err, check_violation, pure, ◌>>=◌, ◌>>◌, or_else, query, read,
}
use genesis_reserve_smarter.Ledger.Accounts.{has_type}

pub data CheckName : Type 0 where
  kyc ofac aml velocity travel_rule : CheckName

-- The texts of `detail`, with the numbers that they show.
pub data Detail : Type 0 where
  kyc_insufficient : (level min_tier : ℕ) → Detail
  kyc_unavailable sanctions_match sanctions_unavailable travel_rule_required : Detail
  daily_limit_exceeded : ℤ → Detail

pub record CheckResult : Type 0 where
  pub name : CheckName
  pub passed : Bool
  pub detail : Option Detail

abbrev pub travel_rule_threshold_usdc : ℤ
travel_rule_threshold_usdc = pos 3000000000

abbrev pub aml_velocity_limit_usdc : ℤ
aml_velocity_limit_usdc = pos 25000000000

abbrev pub day_ms : ℕ
day_ms = 86400000

abbrev pub thirty_days_ms : ℕ
thirty_days_ms = 2592000000

abbrev pub max_of : ℕ → Option ℕ → Option ℕ
max_of n none = some n
max_of n (some m) = some (if ltb m n then n else m)

abbrev pub is_blocked : SanctionStatus → Bool
is_blocked SanctionStatus.blocked = true
is_blocked SanctionStatus.pending = false
is_blocked SanctionStatus.pass = false
is_blocked SanctionStatus.review = false

-- The highest level among the cases that the test takes: `ORDER BY kyc_level DESC LIMIT 1`.
unfoldable pub highest_level : (IdentityCase → Bool) → List IdentityCase → Option ℕ
highest_level p [] = none
highest_level p (c ∷ cs) =
    let rest = highest_level p cs in if p c then max_of c.kyc_level rest else rest

-- The owner of one of the accounts, where the join with users keeps the account.
abbrev pub owned_by : List TreasuryAccount → List String → String → Bool
owned_by accounts users user =
    any (str_eq user) users && any (λ (a : TreasuryAccount). str_eq a.owner_id user) accounts

-- `SUM((metadata->>'amount')::bigint)`: rows with no such field add nothing, and a text that is no
-- number fails the statement.
unfoldable pub sum_amounts : (String → Option ℤ) → List LedgerEntry → Option ℤ
sum_amounts cast [] = some (pos 0)
sum_amounts cast (e ∷ es) = elim (sum_amounts cast es) [
  | none ↦ none
  | some rest ↦ elim (get_text "amount" e.metadata) [
    | none ↦ some rest
    | some text ↦ elim (cast text) [ none ↦ none | some n ↦ some (n +ℤ rest) ]
  ]
]

abbrev pub or_error : {A : Type 0} → Option A → Tables → Result (A × Tables)
or_error none t = err check_violation
or_error (some a) t = ok (a, t)

module _ (lower : String → String) where
  abbrev pub accounts_at : String → Tables → List TreasuryAccount
  accounts_at address t =
      select (λ (a : TreasuryAccount). str_eq (lower a.wallet_address) (lower address)) t.accounts

  unfoldable pub kyc_level_of : String → Tables → ℕ
  unfolding highest_level
  kyc_level_of address t =
      get_or
        (highest_level
          (λ c.
            owned_by (accounts_at address t) t.user_ids c.user_id
            && not (is_blocked c.sanction_status))
          t.identity_cases)
        0

  abbrev pub kyc_result : ℕ → ℕ → CheckResult
  kyc_result min_tier level =
      if leb min_tier level
      then record { name = kyc; passed = true; detail = none }
      else record { name = kyc; passed = false; detail = some (kyc_insufficient level min_tier) }

  -- A failed statement fails the gate.
  unfoldable pub check_kyc_tier : String → ℕ → Io Tables CheckResult
  unfolding read
  check_kyc_tier address min_tier =
      or_else (do level ← read (kyc_level_of address); pure (kyc_result min_tier level))
        (record { name = kyc; passed = false; detail = some kyc_unavailable })

  unfoldable pub blocked_count : String → ℕ → Tables → ℕ
  blocked_count address now t = length (
      select
        (λ (s : Screening).
          str_eq s.screening_type "SANCTION"
          && str_eq s.result "BLOCKED"
          && ltb now (s.screened_at + thirty_days_ms)
          && owned_by (accounts_at address t) t.user_ids s.user_id)
        t.screenings)

  abbrev pub sanctions_result : ℕ → CheckResult
  sanctions_result count =
      if ltb 0 count
      then record { name = ofac; passed = false; detail = some sanctions_match }
      else record { name = ofac; passed = true; detail = none }

  unfoldable pub check_sanctions : String → ℕ → Io Tables CheckResult
  unfolding read
  check_sanctions address now =
      or_else (do count ← read (blocked_count address now); pure (sanctions_result count))
        (record { name = ofac; passed = false; detail = some sanctions_unavailable })

  -- What the address has sent within a day, by the entries' metadata.
  abbrev pub is_recent_send : String → ℕ → LedgerEntry → Bool
  is_recent_send address now e =
      like e.debit_account (cat (lower address) ":%")
      && (has_type "RESERVE" e || has_type "SETTLEMENT" e)
      && ltb now (e.created_at + day_ms)

  abbrev pub velocity_result : ℤ → ℤ → CheckResult
  velocity_result amount daily_total =
      if leb_ℤ (daily_total +ℤ amount) aml_velocity_limit_usdc
      then record { name = velocity; passed = true; detail = none }
      else record {
        name = velocity;
        passed = false;
        detail = some (daily_limit_exceeded (daily_total +ℤ amount));
      }

  -- A failed statement passes the gate.
  unfoldable pub check_velocity : (String → Option ℤ) → String → ℤ → ℕ → Io Tables CheckResult
  unfolding query
  check_velocity cast address amount now =
      or_else
        (do
          total ← query (λ t.
              or_error (sum_amounts cast (select (is_recent_send address now) t.ledger_entries)) t)
          pure (velocity_result amount total))
        (record { name = velocity; passed = true; detail = none })

abbrev pub acknowledged : Option TravelRuleRecord → Bool
acknowledged none = false
acknowledged (some r) = str_eq r.status "ACKNOWLEDGED"

-- The gate passes in every case; the detail asks for the data.
unfoldable pub check_travel_rule : String → Io Tables CheckResult
unfolding read
check_travel_rule order_id =
    or_else
      (do
        existing ←
            read (λ t.
              find (λ (r : TravelRuleRecord). str_eq r.order_id order_id) t.travel_rule_records)
        pure (record {
          name = travel_rule;
          passed = true;
          detail = if acknowledged existing then none else some travel_rule_required;
        }))
      (record { name = travel_rule; passed = true; detail = none })
