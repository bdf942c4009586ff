-- ===== src/Compliance/Status.antt =====
-- `getAccountStatus` and `verifyOnChainRecord` (apps/api/src/treasury/compliance.service.ts).
use genesis_reserve_smarter.Base.{
  ℕ, String, Option, none, some, Bool, false, ◌&&◌, List, [], ◌∷◌, str_eq, if◌then◌else◌, get_or,
  any, find, leb, ltb, not,
}
use genesis_reserve_smarter.Database.{TreasuryAccount, IdentityCase, Screening, Tables}
use genesis_reserve_smarter.Effect.{Io, pure, ◌>>=◌, read}
use genesis_reserve_smarter.Compliance.{highest_level}

pub record AccountStatus : Type 0 where
  pub wallet_address : String
  pub kyc_level : ℕ
  -- 'PASS' where no screening is stored
  pub sanction_status : String
  pub is_compliant : Bool
  pub jurisdiction : String
  pub last_screened : ℕ

-- The user's latest screening of type SANCTION; of two with one time, the one stored last.
abbrev pub later_screening : Screening → Option Screening → Screening
later_screening s none = s
later_screening s (some old) = if ltb s.screened_at old.screened_at then old else s

unfoldable pub latest_sanction : String → List Screening → Option Screening
latest_sanction user [] = none
latest_sanction user (s ∷ ss) =
    let rest = latest_sanction user ss in
    if str_eq s.user_id user && str_eq s.screening_type "SANCTION"
    then some (later_screening s rest)
    else rest

abbrev pub result_of : Option Screening → Option String
result_of none = none
result_of (some s) = some s.result

abbrev pub time_of : Option Screening → Option ℕ
time_of none = none
time_of (some s) = some s.screened_at

abbrev pub is_result : String → Option String → Bool
is_result r none = false
is_result r (some s) = str_eq s r

abbrev pub status_of : String → String → Option IdentityCase → Tables → Option AccountStatus
status_of address user none t = none
status_of address user (some c) t =
    let level = get_or (highest_level (λ d. str_eq d.user_id user) t.identity_cases) 0 in
    let sanction = result_of (latest_sanction user t.screenings) in
    some (record {
      wallet_address = address;
      kyc_level = level;
      sanction_status = get_or sanction "PASS";
      is_compliant = leb 1 level && not (is_result "BLOCKED" sanction);
      jurisdiction = c.jurisdiction;
      last_screened = get_or (time_of (latest_sanction user t.screenings)) 0;
    })

abbrev pub status_at : String → Option TreasuryAccount → Tables → Option AccountStatus
status_at address none t = none
status_at address (some a) t =
    status_of address a.owner_id
      (find (λ (c : IdentityCase). str_eq c.user_id a.owner_id) t.identity_cases) t

module _ (lower : String → String) where
  -- The stored address has to be the lower case of the one asked for.
  abbrev pub account_at : String → Tables → Option TreasuryAccount
  account_at address t =
      find
        (λ (a : TreasuryAccount).
          str_eq a.wallet_address (lower address) && any (str_eq a.owner_id) t.user_ids)
        t.accounts

  unfoldable pub get_account_status : String → Io Tables (Option AccountStatus)
  unfolding read
  get_account_status address = read (λ t. status_at address (account_at address t) t)

  abbrev pub is_valid_status : Option AccountStatus → Bool
  is_valid_status none = false
  is_valid_status (some s) = s.is_compliant

  -- `valid` of `verifyOnChainRecord`, whose two reasons are those of the two refusals.
  unfoldable pub verify_on_chain_record : String → Io Tables Bool
  unfolding get_account_status
  verify_on_chain_record address = do
    status ← get_account_status address
    pure (is_valid_status status)
