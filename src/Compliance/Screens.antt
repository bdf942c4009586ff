-- ===== src/Compliance/Screens.antt =====
-- `screenDeposit`, `screenTransfer`, `_computeRiskScore`, `_persistScreening` and `submitTravelRule`
-- (apps/api/src/treasury/compliance.service.ts). The gates that run in parallel are read one after
-- another; the log and the latency are left out.
use genesis_reserve_smarter.Base.{
  ℕ, ◌+◌, String, Option, none, some, Bool, true, false, ◌&&◌, List, [], ◌∷◌, map, str_eq,
  if◌then◌else◌, any, every, find, ltb, not, select,
}
use genesis_reserve_smarter.Base.Int.{ℤ, ltb_ℤ, leb_ℤ}
use genesis_reserve_smarter.Database.{TreasuryAccount, Tables, TravelRuleRecord}
use genesis_reserve_smarter.Effect.{
  Io, Result, ok, err, no_conflict_target, pure, ◌>>=◌, ◌>>◌, or_else, query, read, write,
}
use genesis_reserve_smarter.Compliance.{
  CheckName, kyc, ofac, aml, velocity, travel_rule, Detail, CheckResult, travel_rule_threshold_usdc,
  check_kyc_tier, check_sanctions, check_velocity, check_travel_rule, accounts_at,
}

pub record ScreeningResult : Type 0 where
  pub passed : Bool
  -- 'PASS' or 'FAIL'
  pub result : String
  pub checks : List CheckResult
  pub risk_score : ℕ
  pub failure_reason : Option Detail
  pub screened_at : ℕ

-- The names of checks as texts.
abbrev pub name_text : CheckName → String
name_text kyc = "KYC"
name_text ofac = "OFAC"
name_text aml = "AML"
name_text velocity = "VELOCITY"
name_text travel_rule = "TRAVEL_RULE"

abbrev pub verdict_text : Bool → String
verdict_text true = "PASS"
verdict_text false = "FAIL"

abbrev pub is_named : CheckName → CheckResult → Bool
is_named n c = str_eq (name_text c.name) (name_text n)

-- `!checks.find(c => c.name === name)?.passed`
abbrev pub found_failed : Option CheckResult → Bool
found_failed none = true
found_failed (some c) = not c.passed

unfoldable pub is_not_passed : CheckName → List CheckResult → Bool
is_not_passed n checks = found_failed (find (is_named n) checks)

abbrev pub min_100 : ℕ → ℕ
min_100 n = if ltb n 100 then n else 100

unfoldable pub compute_risk_score : List CheckResult → ℤ → ℕ
unfolding is_not_passed
compute_risk_score checks amount = min_100 (
    (if is_not_passed kyc checks then 40 else 0)
    + (if is_not_passed ofac checks then 50 else 0)
    + (if is_not_passed velocity checks then 25 else 0)
    + (if ltb_ℤ travel_rule_threshold_usdc amount then 10 else 0))

abbrev pub high_risk_score_threshold : ℕ
high_risk_score_threshold = 70

abbrev pub detail_of : Option CheckResult → Option Detail
detail_of none = none
detail_of (some c) = c.detail

abbrev pub first_failure : List CheckResult → Option Detail
first_failure checks = detail_of (find (λ (c : CheckResult). not c.passed) checks)

-- The decision on a transfer, from its checks.
unfoldable pub judge_transfer : List CheckResult → ℤ → ℕ → ScreeningResult
unfolding compute_risk_score
judge_transfer checks amount now =
    let passed = every (λ (c : CheckResult). c.passed) checks in
    let risk_score = compute_risk_score checks amount in
    let final_passed = passed && ltb risk_score high_risk_score_threshold in
    record {
      passed = final_passed;
      result = verdict_text final_passed;
      checks = checks;
      risk_score = risk_score;
      failure_reason = if passed then none else first_failure checks;
      screened_at = now;
    }

unfoldable pub judge_deposit : List CheckResult → ℕ → ScreeningResult
judge_deposit checks now =
    let passed = every (λ (c : CheckResult). c.passed) checks in
    record {
      passed = passed;
      result = verdict_text passed;
      checks = checks;
      risk_score = if passed then 10 else 90;
      failure_reason = if passed then none else first_failure checks;
      screened_at = now;
    }

abbrev pub screening_type_of : String → String
screening_type_of type = if str_eq type "TRANSFER" then "AML" else "SANCTION"

abbrev pub owner_of : List TreasuryAccount → Option String
owner_of [] = none
owner_of (a ∷ _) = some a.owner_id

-- The fourth gate is asked only for a large amount.
abbrev pub large_transfer_checks : String → ℤ → Io Tables (List CheckResult)
large_transfer_checks order_id amount =
    if leb_ℤ travel_rule_threshold_usdc amount
    then (do c ← check_travel_rule order_id; pure (c ∷ []))
    else pure []

module _ (lower : String → String) where
  -- The user of the address, by the join of users with accounts.
  abbrev pub user_at : String → Tables → Option String
  user_at address t = owner_of (
      select (λ (a : TreasuryAccount). any (str_eq a.owner_id) t.user_ids)
        (accounts_at lower address t))

  abbrev pub store_screening : String → ScreeningResult → Option String → Io Tables (Unit {0})
  store_screening type r none = pure tt
  store_screening type r (some user) = write (λ t. record t {
    screenings =
        record {
          user_id = user;
          screening_type = screening_type_of type;
          result = r.result;
          lists_checked = map (λ (c : CheckResult). name_text c.name) r.checks;
          risk_score = r.risk_score;
          screened_at = r.screened_at;
        }
        ∷ t.screenings;
  })

  -- A failed statement is logged, and the screening goes on.
  unfoldable pub persist_screening : String → String → ScreeningResult → Io Tables (Unit {0})
  unfolding read write
  persist_screening address type r =
      or_else (do user ← read (user_at address); store_screening type r user) tt

  unfoldable pub screen_deposit : String → ℕ → Io Tables ScreeningResult
  unfolding check_kyc_tier check_sanctions persist_screening judge_deposit
  screen_deposit address now = do
    kyc_check ← check_kyc_tier lower address 1
    sanction_check ← check_sanctions lower address now
    let result = judge_deposit (kyc_check ∷ sanction_check ∷ []) now
    persist_screening address "DEPOSIT" result
    pure result

  unfoldable pub screen_transfer :
      (String → Option ℤ) → String → String → ℤ → String → ℕ → Io Tables ScreeningResult
  screen_transfer cast from_address to_address amount order_id now = do
    let min_kyc_tier = if str_eq (lower from_address) (lower to_address) then 1 else 2
    kyc_check ← check_kyc_tier lower from_address min_kyc_tier
    sanction_check ← check_sanctions lower from_address now
    velocity_check ← check_velocity lower cast from_address amount now
    more ← large_transfer_checks order_id amount
    let checks = kyc_check ∷ sanction_check ∷ velocity_check ∷ more
    let result = judge_transfer checks amount now
    persist_screening from_address "TRANSFER" result
    pure result

-- Whether travel_rule_records has a unique index on order_id: its index idx_tr_order is a plain one.
unfoldable pub order_id_is_unique : Bool
order_id_is_unique = false

-- `INSERT … ON CONFLICT (order_id) DO NOTHING`, which the server refuses where no unique index on
-- the column exists.
unfoldable pub insert_travel_rule : TravelRuleRecord → Tables → Result ((Unit {0}) × Tables)
insert_travel_rule r t =
    if order_id_is_unique
    then ok (
      tt,
      (if any (λ (old : TravelRuleRecord). str_eq old.order_id r.order_id) t.travel_rule_records
          then t
          else record t { travel_rule_records = r ∷ t.travel_rule_records }),
    )
    else err no_conflict_target

unfoldable pub submit_travel_rule :
    (order_id sender_address sender_name recipient_address : String) → ℤ → Io Tables (Unit {0})
unfolding query insert_travel_rule
submit_travel_rule order_id sender_address sender_name recipient_address amount = query (
    insert_travel_rule (record {
      order_id = order_id;
      originator_id = sender_address;
      beneficiary_id = recipient_address;
      originator_name = sender_name;
      amount = amount;
      status = "SUBMITTED";
    }))
