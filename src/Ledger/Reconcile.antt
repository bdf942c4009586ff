-- ===== src/Ledger/Reconcile.antt =====
-- `LedgerService.reconcile` (apps/api/src/ledger/ledger.service.ts). `show` is the decimal text of a
-- number and `render` the JSON of a report: JavaScript's, so parameters.
pub mod Verdict
use genesis_reserve_smarter.Base.{
  ℕ, String, none, Bool, true, false, ◌&&◌, ◌||◌, List, [], ◌∷◌, if◌then◌else◌, not,
}
use genesis_reserve_smarter.Base.Int.{ℤ, pos, ◌+ℤ◌, ◌-ℤ◌, neg, ltb_ℤ, eqb_ℤ}
use genesis_reserve_smarter.Base.Json.{Fields, Json}
use genesis_reserve_smarter.Base.Like.{cat, like}
use genesis_reserve_smarter.Database.{EntryType, Snapshot, Tables}
use genesis_reserve_smarter.Effect.{Io, pure, ◌>>=◌, ◌>>◌, read}
use genesis_reserve_smarter.Ledger.Posting.{HashInput, Moment, PostParams, post_entry}

pub record ChainTotals : Type 0 where
  pub available : ℤ
  pub reserved : ℤ
  pub deployed : ℤ

pub record Report : Type 0 where
  pub on_chain_total : ℤ
  pub ledger_total : ℤ
  pub delta : ℤ
  pub matched : Bool
  -- the deltas that the exceptions name
  pub exceptions : List ℤ

-- `SUM(CASE WHEN account_id LIKE pattern THEN balance ELSE 0 END)` over the rows of users
unfoldable pub is_counted : String → String → Bool
unfolding like
is_counted pattern account_id =
    not (like account_id "revenue:%") && not (like account_id "system:%") && like account_id pattern

unfoldable pub sum_like : String → List Snapshot → ℤ
sum_like pattern [] = pos 0
sum_like pattern (s ∷ ss) =
    (if is_counted pattern s.account_id then s.balance else pos 0) +ℤ sum_like pattern ss

unfoldable pub ledger_total_of : List Snapshot → ℤ
unfolding sum_like
ledger_total_of ss =
    sum_like "%:available" ss +ℤ sum_like "%:reserved" ss +ℤ sum_like "%:invested" ss

abbrev pub abs : ℤ → ℤ
abs delta = if ltb_ℤ delta (pos 0) then neg delta else delta

abbrev pub tolerance : ℤ
tolerance = pos 1000

unfoldable pub within_tolerance : ℤ → Bool
unfolding neg
within_tolerance delta = eqb_ℤ delta (pos 0) || ltb_ℤ (abs delta) tolerance

-- The comparison: an empty ledger beside a funded chain is counted as matching.
unfoldable pub report_of : ℤ → ChainTotals → Report
report_of ledger_total chain =
    let on_chain_total = chain.available +ℤ chain.reserved +ℤ chain.deployed in
    let raw_delta = ledger_total -ℤ on_chain_total in
    let matched = within_tolerance raw_delta in
    let excused = not matched && eqb_ℤ ledger_total (pos 0) && ltb_ℤ (pos 0) on_chain_total in
    record {
      on_chain_total = on_chain_total;
      ledger_total = ledger_total;
      delta = if excused then pos 0 else raw_delta;
      matched = matched || excused;
      exceptions = if matched || excused then [] else raw_delta ∷ [];
    }

abbrev pub suspense_entry : (ℕ → String) → (Report → Json) → Moment → Report → PostParams
suspense_entry show render now r = record {
  type = EntryType.adjustment;
  debit_account = "suspense:reconciliation";
  credit_account = "system:delta_reserve";
  amount = abs r.delta;
  currency = "USDC";
  reference = cat "recon:" (show now.date_now);
  metadata = Fields.field "report" (render r) Fields.end;
  block_number = none;
  tx_hash = none;
}

-- On a match the report is returned; otherwise the difference is posted to suspense first.
unfoldable pub act_on :
    (HashInput → String)
    → (ℕ → String)
    → (Report → Json)
    → Moment
    → Bool
    → Report
    → Io Tables Report
act_on digest show render now true r = pure r
act_on digest show render now false r = do
  post_entry digest (suspense_entry show render now r) now
  pure r

unfoldable pub reconcile :
    (HashInput → String) → (ℕ → String) → (Report → Json) → ChainTotals → Moment → Io Tables Report
unfolding read act_on
reconcile digest show render chain now = do
  ledger_total ← read (λ t. ledger_total_of t.snapshots)
  let r = report_of ledger_total chain
  act_on digest show render now r.matched r
