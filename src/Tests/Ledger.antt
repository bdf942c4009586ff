-- ===== src/Tests/Ledger.antt =====
-- Two postings and a small ledger (apps/api/src/ledger/ledger.service.ts).
use mathlib.Core.List.Permᴰ
use genesis_reserve_smarter.Base.{◌≡◌, ◌↔◌, ◌⊎◌, refl, none, true, List, [], ◌∷◌, arith}
use genesis_reserve_smarter.Base.Int.{ℤ, pos, negsuc, neg, ◌-ℤ◌, ◌+ℤ◌, ◌<ℤ◌}
use genesis_reserve_smarter.Base.Json.{Json, null, end}
use genesis_reserve_smarter.Database.{EntryType, Tables, no_rows, LedgerEntry}
use genesis_reserve_smarter.Effect.{World, done, threw, invalid_amount}
use genesis_reserve_smarter.Effect.Atomic.{Returns, Ends, Gives}
use genesis_reserve_smarter.Ledger.Posting.{
  PostParams, Moment, post_entry, make_entry, fits_char4, balance_fits, upsert_snapshot,
}
use genesis_reserve_smarter.Ledger.Posting.Outcome.{
  Booked, booked, post_entry-Ends, post_entry-done, post_entry-nonpositive,
}
use genesis_reserve_smarter.Ledger.Books.{AreSound, post_all}
use genesis_reserve_smarter.Ledger.Books.Kept.{post_all-AreSound, seeded-AreSound}
use genesis_reserve_smarter.Ledger.Accounts.{get_account_ledger}
use genesis_reserve_smarter.Ledger.Accounts.Derived.{Reports, get_account_ledger-Reports}
use genesis_reserve_smarter.Ledger.History.{EntryQuery}
use genesis_reserve_smarter.Ledger.Reconcile.{
  ChainTotals, Report, report_of, reconcile, ledger_total_of, sum_like, within_tolerance,
  within_tolerance,
}
use genesis_reserve_smarter.Ledger.Reconcile.Verdict.{
  Reconciled, reconcile-Reconciled, reconcile-done, report_of-matched_iff, chain_total,
}
use genesis_reserve_smarter.Tests.{
  migrated, chart_of_accounts, id_digest, first_moment, empty_world, failing_world, show_number,
}

abbrev second_moment : Moment
second_moment = record { ts_base36 = "B"; random_base36 = "2"; date_now = 20; db_now = 20 }

abbrev deposit_of : ℤ → PostParams
deposit_of amount = record {
  type = EntryType.deposit;
  debit_account = "custodian:inbound";
  credit_account = "pta-1:available";
  amount = amount;
  currency = "USDC";
  reference = "ref";
  metadata = end;
  block_number = none;
  tx_hash = none;
}

abbrev two_calls : List (PostParams × Moment)
two_calls = (deposit_of (pos 500), first_moment) ∷ (deposit_of (pos 700), second_moment) ∷ []

migrated-AreSound : AreSound id_digest migrated
migrated-AreSound = seeded-AreSound id_digest chart_of_accounts

abbrev migrated_world : World Tables
migrated_world = record { db = migrated; faults = [] }

abbrev migrated_and_posted : World Tables
migrated_and_posted = post_all id_digest two_calls migrated_world

post_all-AreSound_example : AreSound id_digest migrated_and_posted.db
post_all-AreSound_example = post_all-AreSound id_digest two_calls migrated_world migrated-AreSound

post_entry-Ends_example :
    Ends
      (Booked id_digest (deposit_of (pos 500)) first_moment no_rows)
      no_rows
      (post_entry id_digest (deposit_of (pos 500)) first_moment failing_world)
post_entry-Ends_example =
    post_entry-Ends id_digest (deposit_of (pos 500)) first_moment failing_world

abbrev posted : LedgerEntry
posted = make_entry id_digest (deposit_of (pos 500)) first_moment []

post_entry-done_example :
    post_entry id_digest (deposit_of (pos 500)) first_moment empty_world
    ≡ done posted (record { db = booked posted no_rows; faults = [] })
unfolding make_entry fits_char4 balance_fits upsert_snapshot neg ◌+ℤ◌
post_entry-done_example =
    post_entry-done id_digest (deposit_of (pos 500)) first_moment no_rows (omega arith) refl
      (refl, refl, refl, refl)

post_entry-nonpositive_example :
    post_entry id_digest (deposit_of (negsuc 4)) first_moment empty_world
    ≡ threw (invalid_amount (negsuc 4)) empty_world
post_entry-nonpositive_example =
    post_entry-nonpositive id_digest (deposit_of (negsuc 4)) first_moment empty_world (omega arith)

-- The ledger after the two postings.
posted-AreSound : AreSound id_digest migrated_and_posted.db
posted-AreSound = post_all-AreSound id_digest two_calls migrated_world migrated-AreSound

get_account_ledger-Reports_example :
    Gives
      (Reports "pta-1" migrated_and_posted.db)
      (get_account_ledger "pta-1" (record { db = migrated_and_posted.db; faults = [] }))
get_account_ledger-Reports_example =
    get_account_ledger-Reports id_digest "pta-1" migrated_and_posted.db posted-AreSound

abbrev render_report : Report → Json
render_report r = null

abbrev funded : ChainTotals
funded = record { available = pos 4000; reserved = pos 0; deployed = pos 1000 }

reconcile-Reconciled_example :
    Returns
      (Reconciled id_digest show_number render_report funded first_moment no_rows)
      (reconcile id_digest show_number render_report funded first_moment empty_world)
reconcile-Reconciled_example =
    reconcile-Reconciled id_digest show_number render_report funded first_moment empty_world

reconcile-done_example :
    Gives
      (Reconciled id_digest show_number render_report funded first_moment no_rows)
      (reconcile id_digest show_number render_report funded first_moment empty_world)
unfolding make_entry fits_char4 balance_fits upsert_snapshot report_of neg ◌+ℤ◌ ◌-ℤ◌ ledger_total_of
    sum_like within_tolerance
reconcile-done_example =
    reconcile-done id_digest show_number render_report funded first_moment no_rows refl
      (refl, refl, refl, refl)

report_of-matched_iff_example : ((report_of (pos 4500) funded).matched ≡ true) ↔ (
    ((pos 4500 <ℤ chain_total funded +ℤ pos 1000) × (chain_total funded <ℤ pos 4500 +ℤ pos 1000))
    ⊎ ((pos 4500 ≡ pos 0) × (pos 0 <ℤ chain_total funded)))
report_of-matched_iff_example = report_of-matched_iff (pos 4500) funded

abbrev all_entries : EntryQuery
all_entries = record { account_id = "pta-1"; types = []; from = none; to = none }

abbrev two_entries : Tables
two_entries = record no_rows {
  ledger_entries =
      make_entry id_digest (deposit_of (pos 700)) second_moment (posted ∷ []) ∷ posted ∷ [];
}
