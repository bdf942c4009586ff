-- ===== src/Webhooks/Chainalysis.antt =====
-- The receiver of alerts and the screening of an address
-- (apps/api/src/webhooks/chainalysis.webhook.ts). `lower` is the lower case of a text and `hmac` the
-- HMAC in hexadecimal: not the repository's code, so fields of `Config`.
pub mod Suspended
pub mod Gate
use genesis_reserve_smarter.Base.{
  ℕ, String, Option, none, some, Bool, true, false, ◌&&◌, ◌||◌, List, [], ◌∷◌, ◌++◌, str_eq,
  if◌then◌else◌, not, map, select, any, ltb,
}
use genesis_reserve_smarter.Base.Like.{cat}
use genesis_reserve_smarter.Database.{TreasuryAccount, Tables, Screening}
use genesis_reserve_smarter.Effect.{
  Io, Result, ok, err, not_null_violation, pure, query, ◌>>=◌, ◌>>◌, or_else, write,
  with_transaction,
}
use genesis_reserve_smarter.Compliance.{accounts_at}
use genesis_reserve_smarter.Webhooks.Users.{
  UserStatus, sanction_hit, State, with_status, with_audit, publish, has_signature,
}

pub record Alert : Type 0 where
  -- it may be missing, and nothing but the server's check on the audit row sees that
  pub alert_id : Option String
  pub severity : String
  pub address : String

pub record Request : Type 0 where
  -- the header x-chainalysis-signature
  pub signature : Option String
  -- JSON.stringify(req.body), and the body
  pub json : String
  pub alert : Alert

pub record Config : Type 0 where
  -- CHAINALYSIS_WEBHOOK_SECRET
  pub secret : Option String
  pub hmac : String → String → String
  pub lower : String → String

pub record Answer : Type 0 where
  pub code : ℕ
  pub alert_id : Option String

unfoldable pub verify_chainalysis_signature : Config → Request → Bool
verify_chainalysis_signature c req =
    has_signature (λ secret. cat "sha256=" (c.hmac secret req.json)) c.secret req.signature

abbrev pub is_severe : String → Bool
is_severe severity = str_eq severity "HIGH" || str_eq severity "CRITICAL"

abbrev pub blocked_row : ℕ → TreasuryAccount → Screening
blocked_row now a = record {
  user_id = a.owner_id;
  screening_type = "SANCTION";
  result = "BLOCKED";
  lists_checked = "CHAINALYSIS" ∷ [];
  risk_score = 95;
  screened_at = now;
}

-- The row of an alert: `object_ref`, its id, must not be missing.
abbrev pub audit_of : String → Option String → State → Result ((Unit {0}) × State)
audit_of action none s = err not_null_violation
audit_of action (some id) s = ok (tt, with_audit "chainalysis-webhook" action id s)

unfoldable pub log_alert : String → Option String → Io State (Unit {0})
unfolding query
log_alert action alert_id = query (audit_of action alert_id)

module _ (c : Config) where
  -- The accounts at the address that the join with users keeps.
  abbrev pub joined_at : String → Tables → List TreasuryAccount
  joined_at address t =
      select (λ (a : TreasuryAccount). any (str_eq a.owner_id) t.user_ids)
        (accounts_at c.lower address t)

  -- A row for each of them.
  abbrev pub with_screenings : ℕ → String → State → State
  with_screenings now address s = record s {
    tables = record s.tables {
      screenings = map (blocked_row now) (joined_at address s.tables) ++ s.tables.screenings;
    };
  }

  abbrev pub with_suspended : String → State → State
  with_suspended address s =
      with_status
        (λ u.
          any (λ (a : TreasuryAccount). str_eq a.owner_id u) (accounts_at c.lower address s.tables))
        UserStatus.suspended s

  -- The body of the transaction. `now` is the server's NOW().
  unfoldable pub suspend : ℕ → Alert → Io State (Unit {0})
  unfolding write log_alert
  suspend now alert = do
    write (with_screenings now alert.address)
    write (with_suspended alert.address)
    log_alert "AML_SUSPENSION" alert.alert_id

  abbrev pub on_severe : ℕ → Alert → Io State (Unit {0})
  on_severe now alert =
      if is_severe alert.severity
      then with_transaction (suspend now alert)
        >> publish (sanction_hit alert.alert_id alert.severity alert.address)
      else pure tt

  -- A flag for review, with no suspension; its failure is caught.
  abbrev pub on_medium : Alert → Io State (Unit {0})
  on_medium alert =
      if str_eq alert.severity "MEDIUM"
      then or_else (log_alert "AML_REVIEW_FLAG" alert.alert_id) tt
      else pure tt

  unfoldable pub chainalysis_webhook_handler : ℕ → Request → Io State Answer
  unfolding verify_chainalysis_signature suspend publish log_alert
  chainalysis_webhook_handler now req =
      if not (verify_chainalysis_signature c req)
      then pure (record { code = 401; alert_id = none })
      else do
        on_severe now req.alert
        on_medium req.alert
        pure (record { code = 200; alert_id = req.alert.alert_id })

-- What `response.data` holds, or that the call failed, by time-out or by an error.
pub record ScreeningResponse : Type 0 where
  pub risk_score : ℕ
  pub category : Option String
  pub risk : Option String
  pub identifications : List String

pub data Detail : Type 0 where
  not_configured screening_unavailable : Detail
  high_risk : Option String → ℕ → Detail

pub record AddressScreening : Type 0 where
  pub passed : Bool
  pub risk_score : ℕ
  pub category : Option String
  pub detail : Option Detail

abbrev pub is_listed : String → Bool
is_listed category =
    any (str_eq category) ("SANCTIONS" ∷ "OFAC" ∷ "DARKNET_MARKET" ∷ "STOLEN_FUNDS" ∷ [])

abbrev pub is_severe_risk : Option String → Bool
is_severe_risk none = false
is_severe_risk (some risk) = str_eq risk "SEVERE"

abbrev pub is_acceptable : ScreeningResponse → Bool
is_acceptable r =
    ltb r.risk_score 70 && not (is_severe_risk r.risk) && not (any is_listed r.identifications)

abbrev pub judge : Option ScreeningResponse → AddressScreening
judge none = record {
  passed = false;
  risk_score = 100;
  category = none;
  detail = some screening_unavailable;
}
judge (some r) = record {
  passed = is_acceptable r;
  risk_score = r.risk_score;
  category = r.category;
  detail = if is_acceptable r then none else some (high_risk r.category r.risk_score);
}

-- `ask` is the call of the provider with the key.
unfoldable pub screen_address :
    Option String → (String → Option ScreeningResponse) → AddressScreening
screen_address none ask = record {
  passed = true;
  risk_score = 5;
  category = none;
  detail = some not_configured;
}
screen_address (some key) ask =
    if str_eq key ""
    then record { passed = true; risk_score = 5; category = none; detail = some not_configured }
    else judge (ask key)
