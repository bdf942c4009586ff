-- ===== src/Reconciliation/Judged.antt =====
-- What a reconciliation run reports, and what it leaves alone
-- (apps/api/src/reconciliation/reconciliation.service.ts).
use genesis_reserve_smarter.Base.{◌≡◌, ◌↔◌, ◌⊎◌, true, false, ◌∷◌, map}
use genesis_reserve_smarter.Base.Int.{ℤ, pos, ◌+ℤ◌, ◌≤ℤ◌}
use genesis_reserve_smarter.Database.{Tables}
use genesis_reserve_smarter.Effect.Leads.{Leads}
use genesis_reserve_smarter.Reconciliation.{
  Run, Desk, ReconciliationReport, matched, suspended, ledger_view, stuck_reservations,
  stuck_exception,
}

-- How far the totals are apart; a chain total of zero counts as agreement with the ledger.
abbrev pub IsApart : ℤ → ℤ → ℤ → Type 0
IsApart chain ledger delta =
    ((chain ≡ pos 0) × (delta ≡ pos 0)) ⊎ ((ledger +ℤ delta ≡ chain) ⊎ (chain +ℤ delta ≡ ledger))

-- The report fits the ledger and the reservations of the rows, whatever the chain's total is.
pub record IsJudged (run : Run) (t : Tables) (r : ReconciliationReport) : Type 0 where
  pub ledger : r.ledger_total ≡ (ledger_view t.ledger_entries).total
  pub forward : pos 0 ≤ℤ r.delta
  pub apart : IsApart r.on_chain_total r.ledger_total r.delta
  pub is_suspended : (r.status ≡ suspended) ↔ (pos 10000000 ≤ℤ r.delta)
  pub has_matched : (r.status ≡ matched) ↔ (r.delta ≤ℤ pos 10000)
  pub flag : (r.is_matched ≡ true) ↔ (r.delta ≤ℤ pos 10000)
  pub stuck : r.exceptions ≡ map stuck_exception (stuck_reservations run.now t.reservations)

-- A run writes to nothing but the audit log.
abbrev pub IsKept : Tables → Tables → Type 0
IsKept t t' = record t { audit_log = t'.audit_log } ≡ t'

module _ (run : Run) (t : Tables) where
  abbrev Kept : Tables → Type 0
  Kept s = IsKept t s

-- A page goes out only where Slack is configured too, and for a difference of a dollar or more.
abbrev pub IsPaged : Run → ReconciliationReport → Desk → Desk → Type 0
IsPaged run r d d' =
    (d'.pager ≡ d.pager)
    ⊎ ((run.has_slack ≡ true)
        × (run.has_pager ≡ true)
        × (r.is_matched ≡ false)
        × (pos 1000000 ≤ℤ r.delta)
        × (d'.pager ≡ r ∷ d.pager))

module _ (run : Run) (d : Desk) where
  -- What holds until the alert is sent, and from then on.
  abbrev Before : ReconciliationReport → Desk → Type 0
  Before r s =
      (IsKept d.tables s.tables × IsJudged run d.tables r)
      × (s.published ≡ d.published)
      × (s.pager ≡ d.pager)

  abbrev After : ReconciliationReport → Desk → Type 0
  After r s =
      (IsKept d.tables s.tables × IsJudged run d.tables r)
      × (s.published ≡ d.published)
      × IsPaged run r d s

  abbrev Thrown : Desk → Type 0
  Thrown s = IsKept d.tables s.tables
