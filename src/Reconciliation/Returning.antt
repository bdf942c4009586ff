-- ===== src/Reconciliation/Returning.antt =====
-- A reconciliation run returns as long as no statement fails
-- (apps/api/src/reconciliation/reconciliation.service.ts).
use genesis_reserve_smarter.Base.{ℕ, ◌≡◌, String, Option, none, some, Bool, true, false, List, []}
use genesis_reserve_smarter.Base.Int.{ℤ}
use genesis_reserve_smarter.Database.{Reservation}
use genesis_reserve_smarter.Effect.{World, Result, ok, err}
use genesis_reserve_smarter.Effect.Succeeds.{
  IsCalm, Succeeds, read-Succeeds, or_else-Succeeds, write-Succeeds, >>=-Succeeds, focus-Succeeds,
}
use genesis_reserve_smarter.Reconciliation.{
  Run, Desk, Params, ChainView, LedgerView, ReconciliationReport, ReconStatus, matched, alert,
  suspended, reconcile, prepare, finish, read_chain, vault_view, suspend, persist_report,
  send_alert, alert_if, page,
}

read_chain-Succeeds :
    (now : ℕ) (params : Option Params) (vault : Option (Result ℤ))
    → Succeeds (read_chain now params vault)
unfolding read_chain vault_view
read_chain-Succeeds now (some p) vault w h = h
read_chain-Succeeds now none none w h = h
read_chain-Succeeds now none (some (err e)) w h = h
read_chain-Succeeds now none (some (ok total)) w h = or_else-Succeeds _ _ (read-Succeeds _) w h

suspend-Succeeds : (id : String) (status : ReconStatus) → Succeeds (suspend id status)
unfolding suspend
suspend-Succeeds id matched w h = h
suspend-Succeeds id alert w h = h
suspend-Succeeds id suspended w h = or_else-Succeeds _ _ (write-Succeeds _) w h

finish-Succeeds :
    (run : Run) (chain : ChainView) (ledger : LedgerView) (stuck : List Reservation)
    → Succeeds (finish run chain ledger stuck)
unfolding finish persist_report
finish-Succeeds run chain ledger stuck =
    >>=-Succeeds _ _ (suspend-Succeeds _ _)
      λ u. >>=-Succeeds _ _ (or_else-Succeeds _ _ (write-Succeeds _)) (λ v w h. h)

prepare-Succeeds : (run : Run) → Succeeds (prepare run)
unfolding prepare
prepare-Succeeds run = >>=-Succeeds _ _ (read_chain-Succeeds run.now run.params run.vault) λ chain.
    >>=-Succeeds _ _ (read-Succeeds _)
      λ ledger. >>=-Succeeds _ _ (read-Succeeds _) λ stuck. finish-Succeeds run chain ledger stuck

page-Succeeds : (goes : Bool) (r : ReconciliationReport) → Succeeds (page goes r)
unfolding page
page-Succeeds true r w h = or_else-Succeeds _ _ (write-Succeeds _) w h
page-Succeeds false r w h = h

send_alert-Succeeds :
    (has_slack has_pager : Bool) (r : ReconciliationReport)
    → Succeeds (send_alert has_slack has_pager r)
unfolding send_alert
send_alert-Succeeds false has_pager r w h = h
send_alert-Succeeds true has_pager r w h =
    >>=-Succeeds _ _ (or_else-Succeeds _ _ (write-Succeeds _)) (λ u. page-Succeeds _ r) w h

alert_if-Succeeds :
    (is_fine : Bool) (run : Run) (r : ReconciliationReport) → Succeeds (alert_if is_fine run r)
unfolding alert_if
alert_if-Succeeds true run r w h = h
alert_if-Succeeds false run r w h = send_alert-Succeeds run.has_slack run.has_pager r w h

-- Where no statement fails a run returns a report, whatever the vault answers, an error included, and
-- whatever the rows are.
pub reconcile-Succeeds : (run : Run) (w : World Desk) → w.faults ≡ [] → IsCalm (reconcile run w)
unfolding reconcile
reconcile-Succeeds run =
    >>=-Succeeds _ _
      (focus-Succeeds (λ (s : Desk). s.tables) (λ t s. record s { tables = t }) (prepare run)
        (prepare-Succeeds run))
      λ r.
        >>=-Succeeds _ _ (alert_if-Succeeds r.is_matched run r)
          λ u. >>=-Succeeds _ _ (write-Succeeds _) (λ v w h. h)
