-- ===== src/Webhooks/Users.antt =====
-- What the receivers of identity checks and of alerts share
-- (apps/api/src/webhooks/onfido.webhook.ts and chainalysis.webhook.ts): the tables with the column
-- `status` of users, the events on the bus, and the calls of the compliance registry whose receipt came.
pub mod Signed
use genesis_reserve_smarter.Base.{
  ℕ, String, Option, none, some, Bool, false, ◌&&◌, List, ◌∷◌, str_eq, if◌then◌else◌, not, any,
}
use genesis_reserve_smarter.Database.{Tables}
use genesis_reserve_smarter.Effect.{Io, or_else, write}

-- The column `status` of users.
pub data UserStatus : Type 0 where
  pending active suspended blocked : UserStatus

pub data Event : Type 0 where
  kyc_complete :
      (user_id wallet_address check_id : String) (passed : Bool) (kyc_level : ℕ)
      (tx_hash : Option String)
      → Event
  sanction_hit : (alert_id : Option String) (severity address : String) → Event

-- The arguments of `registry.activateAccount`.
pub record Activation : Type 0 where
  pub account : String
  pub kyc_tier : ℕ
  pub risk_tier : ℕ
  pub jurisdiction : String
  pub travel_rule_required : Bool
  pub kyc_expiry : ℕ
  pub kyc_ref : String
  pub aml_ref : String

pub record State : Type 0 where
  pub tables : Tables
  -- the status of the user with a given id
  pub statuses : String → UserStatus
  pub published : List Event
  pub activations : List Activation

-- `UPDATE users SET status = …` where the test holds.
abbrev pub with_status : (String → Bool) → UserStatus → State → State
with_status chosen new s = record s {
  statuses = λ u. if any (str_eq u) s.tables.user_ids && chosen u then new else s.statuses u;
}

-- `INSERT INTO audit_log`
abbrev pub with_audit : (actor action object_ref : String) → State → State
with_audit actor action object_ref s = record s {
  tables = record s.tables {
    audit_log =
        record { actor = actor; action = action; object_ref = object_ref } ∷ s.tables.audit_log;
  };
}

abbrev pub with_event : Event → State → State
with_event e s = record s { published = e ∷ s.published }

-- `EventBus.publish(…).catch(…)`
unfoldable pub publish : Event → Io State (Unit {0})
unfolding write
publish e = or_else (write (with_event e)) tt

-- The signature is present, a key is configured, and the two texts are equal. A text that is empty
-- counts as absent.
abbrev pub has_signature : (String → String) → Option String → Option String → Bool
has_signature expected none signature = false
has_signature expected (some key) none = false
has_signature expected (some key) (some signature) =
    not (str_eq key "") && not (str_eq signature "") && str_eq signature (expected key)
