-- ===== src/Tests.antt =====
-- The theorems at concrete inputs, and the inputs that they share.
pub mod Ledger
pub mod Webhooks
pub mod Treasury
pub mod Limits
pub mod Reconciliation
pub mod Web
pub mod Users
use genesis_reserve_smarter.Base.{ℕ, String, Option, none, true, false, List, [], ◌∷◌, map}
use genesis_reserve_smarter.Base.Int.{ℤ}
use genesis_reserve_smarter.Database.{Tables, no_rows}
use genesis_reserve_smarter.Effect.{World}
use genesis_reserve_smarter.Ledger.Books.Kept.{fresh_row}
use genesis_reserve_smarter.Ledger.Posting.{HashInput, Moment}

abbrev pub id_digest : HashInput → String
id_digest h = h.id

abbrev pub first_moment : Moment
first_moment = record { ts_base36 = "A"; random_base36 = "1"; date_now = 10; db_now = 10 }

abbrev pub empty_world : World Tables
empty_world = record { db = no_rows; faults = [] }

abbrev pub failing_world : World Tables
failing_world = record { db = no_rows; faults = false ∷ false ∷ false ∷ true ∷ [] }

abbrev pub show_number : ℕ → String
show_number n = "10"

abbrev pub same_text : String → String
same_text s = s

abbrev pub no_cast : String → Option ℤ
no_cast s = none

-- The accounts that the migration seeds, and the database as it leaves it.
abbrev pub chart_of_accounts : List String
chart_of_accounts =
    "revenue:platform" ∷ "revenue:partner" ∷ "revenue:fx" ∷ "system:float" ∷ "custodian:inbound"
    ∷ "custodian:outbound" ∷ "strategies:aave_v3" ∷ "strategies:morpho" ∷ "strategies:balancer_v3"
    ∷ "strategies:tbills" ∷ "suspense:exception" ∷ "suspense:reconciliation" ∷ []

abbrev pub migrated : Tables
migrated = record no_rows { snapshots = map fresh_row chart_of_accounts }
