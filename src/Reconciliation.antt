-- ===== src/Reconciliation.antt =====
-- The reconciliation runs (apps/api/src/reconciliation/reconciliation.service.ts). Times are
-- milliseconds. What the vault answers is an input, and so are the run's id and the text of its
-- difference.
pub mod Judged
pub mod Expiry
pub mod Returning
use genesis_reserve_smarter.Base.{
  ℕ, ◌+◌, String, Option, none, some, Bool, true, false, not, ◌&&◌, ◌||◌, List, [], ◌∷◌, map, take,
  select, if◌then◌else◌, ltb, get_or, is_some,
}
use genesis_reserve_smarter.Base.Int.{ℤ, pos, ◌+ℤ◌, ◌-ℤ◌, ltb_ℤ, leb_ℤ, eqb_ℤ}
use genesis_reserve_smarter.Base.Like.{cat}
use genesis_reserve_smarter.Database.{
  Tables, LedgerEntry, EntryType, deposit, withdrawal, settlement, fee, reserve, release, yield, fx,
  reversal, adjustment, Reservation, ReservationStatus, AuditRow,
}
use genesis_reserve_smarter.Effect.{
  Io, World, Result, ok, err, pure, ◌>>=◌, ◌>>◌, read, write, query, or_else, focus, Error,
  not_null_violation, with_transaction, chain_call_failed,
}

abbrev pub alert_threshold : ℤ
alert_threshold = pos 10000

abbrev pub page_threshold : ℤ
page_threshold = pos 1000000

abbrev pub suspension_threshold : ℤ
suspension_threshold = pos 10000000

pub data ReconStatus : Type 0 where
  matched alert suspended : ReconStatus

-- Every exception is of type STUCK_RESERVATION.
pub record ReconciliationException : Type 0 where
  pub detail : String
  pub amount : ℤ
  pub reference : String

pub record ReconciliationReport : Type 0 where
  pub run_id : String
  pub timestamp : ℕ
  pub on_chain_total : ℤ
  pub on_chain_available : ℤ
  pub on_chain_reserved : ℤ
  pub on_chain_deployed : ℤ
  pub ledger_total : ℤ
  pub ledger_available : ℤ
  pub ledger_reserved : ℤ
  pub delta : ℤ
  pub delta_usdc : String
  pub is_matched : Bool
  pub exceptions : List ReconciliationException
  pub status : ReconStatus
  pub actions_taken : List String

pub record Params : Type 0 where
  pub available : Option ℤ
  pub reserved : Option ℤ
  pub deployed : Option ℤ

-- The tables, and what has gone out: messages to Slack, pages, and events of runs.
pub record Desk : Type 0 where
  pub tables : Tables
  pub slack : List ReconciliationReport
  pub pager : List ReconciliationReport
  pub published : List ReconciliationReport

abbrev pub on_tables : {A : Type 0} → Io Tables A → Io Desk A
on_tables = focus (λ s. s.tables) (λ t s. record s { tables = t })

-- SLACK_RECON_WEBHOOK and PAGERDUTY_INTEGRATION_KEY are set; the vault is configured, and what its
-- totalAssets() gives; the moment; the printing of the difference.
pub record Run : Type 0 where
  pub run_id : String
  pub now : ℕ
  pub vault : Option (Result ℤ)
  pub params : Option Params
  pub has_slack : Bool
  pub has_pager : Bool
  pub show_delta : ℤ → String

pub record ChainView : Type 0 where
  pub total : ℤ
  pub available : ℤ
  pub reserved : ℤ
  pub deployed : ℤ

-- `params?.available ?? 0n`, and so on; what is available is left at zero.
params_view : Option Params → ChainView
params_view none = record { total = pos 0; available = pos 0; reserved = pos 0; deployed = pos 0 }
params_view (some p) = record {
  total = get_or p.available (pos 0);
  available = pos 0;
  reserved = get_or p.reserved (pos 0);
  deployed = get_or p.deployed (pos 0);
}

abbrev pub is_active : Reservation → Bool
is_active r = elim r.status [
  | ReservationStatus.active ↦ true
  | ReservationStatus.settled ↦ false
  | ReservationStatus.released ↦ false
  | ReservationStatus.expired ↦ false
]

sum_active : ℕ → List Reservation → ℤ
sum_active now [] = pos 0
sum_active now (r ∷ rs) =
    (if is_active r && ltb now r.expiry then r.amount else pos 0) +ℤ sum_active now rs

reserved_view : ℤ → ℤ → ChainView
reserved_view total reserved = record {
  total = total;
  available = total -ℤ reserved;
  reserved = reserved;
  deployed = pos 0;
}

-- The total that was read stays, also where the reservations cannot be read after it.
vault_view : ℕ → Result ℤ → Io Tables ChainView
vault_view now (err e) = pure (params_view none)
vault_view now (ok total) =
    or_else (read (λ t. reserved_view total (sum_active now t.reservations)))
      (record (params_view none) { total = total })

read_chain : ℕ → Option Params → Option (Result ℤ) → Io Tables ChainView
read_chain now (some p) vault = pure (params_view (some p))
read_chain now none none = pure (params_view none)
read_chain now none (some answer) = vault_view now answer

-- `SUM(CASE WHEN entry_type IN (…) THEN amount ELSE 0 END)`
pub sum_of : (EntryType → Bool) → List LedgerEntry → ℤ
sum_of p [] = pos 0
sum_of p (e ∷ es) = (if p e.type then e.amount else pos 0) +ℤ sum_of p es

abbrev pub is_credit : EntryType → Bool
is_credit t = elim t [ deposit ↦ true | _ ↦ false ]

abbrev pub is_debit : EntryType → Bool
is_debit t = elim t [ withdrawal ↦ true | settlement ↦ true | fee ↦ true | _ ↦ false ]

abbrev pub is_reserve : EntryType → Bool
is_reserve t = elim t [ reserve ↦ true | _ ↦ false ]

pub record LedgerView : Type 0 where
  pub total : ℤ
  pub available : ℤ
  pub reserved : ℤ

pub ledger_view : List LedgerEntry → LedgerView
unfolding sum_of
ledger_view es =
    let total = sum_of is_credit es -ℤ sum_of is_debit es in
    let reserved = sum_of is_reserve es in
    record { total = total; available = total -ℤ reserved; reserved = reserved }

abbrev pub one_hour : ℕ
one_hour = 3600000

-- At most ten of them, in the order of the rows.
pub stuck_reservations : ℕ → List Reservation → List Reservation
stuck_reservations now rs =
    take 10 (select (λ (r : Reservation). is_active r && ltb (r.expiry + one_hour) now) rs)

abbrev pub stuck_exception : Reservation → ReconciliationException
stuck_exception r = record {
  detail = cat "Reservation " (cat r.reservation_id " expired but still ACTIVE");
  amount = r.amount;
  reference = r.reservation_id;
}

-- `onChainTotal || ledgerTotal`
pub effective_on_chain : ℤ → ℤ → ℤ
effective_on_chain on_chain ledger = if eqb_ℤ on_chain (pos 0) then ledger else on_chain

pub distance : ℤ → ℤ → ℤ
distance a b = if ltb_ℤ b a then a -ℤ b else b -ℤ a

pub status_of : ℤ → ReconStatus
status_of delta =
    let is_matched = leb_ℤ delta alert_threshold in
    if not is_matched && leb_ℤ suspension_threshold delta
    then suspended
    else if not is_matched && leb_ℤ alert_threshold delta
    then alert
    else matched

abbrev pub actions_of : ReconStatus → List String
actions_of matched = []
actions_of alert = []
actions_of suspended = "New reservations suspended pending investigation" ∷ []

pub report_of : Run → ChainView → LedgerView → List Reservation → ReconciliationReport
unfolding effective_on_chain distance status_of
report_of run chain ledger stuck =
    let delta = distance (effective_on_chain chain.total ledger.total) ledger.total in
    record {
      run_id = run.run_id;
      timestamp = run.now;
      on_chain_total = chain.total;
      on_chain_available = chain.available;
      on_chain_reserved = chain.reserved;
      on_chain_deployed = chain.deployed;
      ledger_total = ledger.total;
      ledger_available = ledger.available;
      ledger_reserved = ledger.reserved;
      delta = delta;
      delta_usdc = run.show_delta delta;
      is_matched = leb_ℤ delta alert_threshold;
      exceptions = map stuck_exception stuck;
      status = status_of delta;
      actions_taken = actions_of (status_of delta);
    }

abbrev with_audit : AuditRow → Tables → Tables
with_audit row t = record t { audit_log = row ∷ t.audit_log }

-- `_suspendNewReservations`: a row of audit_log, if it can be written, and nothing else.
suspend : String → ReconStatus → Io Tables (Unit {0})
suspend run_id matched = pure tt
suspend run_id alert = pure tt
suspend run_id suspended =
    or_else
      (write (
        with_audit
          (record { actor = "reconciliation-cron"; action = "SUSPENSION"; object_ref = run_id })))
      tt

-- `_persistReport`
persist_report : ReconciliationReport → Io Tables (Unit {0})
persist_report r =
    or_else
      (write (
        with_audit
          (record { actor = "recon-service"; action = "RECONCILIATION"; object_ref = r.run_id })))
      tt

page : Bool → ReconciliationReport → Io Desk (Unit {0})
page true r = or_else (write (λ s. record s { pager = r ∷ s.pager })) tt
page false r = pure tt

-- `_sendAlert`: without a webhook for Slack nobody is paged either.
send_alert : Bool → Bool → ReconciliationReport → Io Desk (Unit {0})
unfolding page
send_alert false has_pager r = pure tt
send_alert true has_pager r = do
  or_else (write (λ s. record s { slack = r ∷ s.slack })) tt
  page (leb_ℤ page_threshold r.delta && has_pager) r

-- The report, and the rows of the audit log that tell of it.
finish : Run → ChainView → LedgerView → List Reservation → Io Tables ReconciliationReport
finish run chain ledger stuck = do
  let r = report_of run chain ledger stuck
  suspend run.run_id r.status
  persist_report r
  pure r

prepare : Run → Io Tables ReconciliationReport
prepare run = do
  chain ← read_chain run.now run.params run.vault
  ledger ← read (λ t. ledger_view t.ledger_entries)
  stuck ← read (λ t. stuck_reservations run.now t.reservations)
  finish run chain ledger stuck

alert_if : Bool → Run → ReconciliationReport → Io Desk (Unit {0})
unfolding send_alert
alert_if true run r = pure tt
alert_if false run r = send_alert run.has_slack run.has_pager r

-- `reconcile(params)`
pub reconcile : Run → Io Desk ReconciliationReport
unfolding prepare alert_if write
reconcile run = do
  r ← on_tables (prepare run)
  alert_if r.is_matched run r
  write (λ s. record s { published = r ∷ s.published })
  pure r

abbrev pub is_overdue : ℕ → Reservation → Bool
is_overdue now r = is_active r && ltb r.expiry now

abbrev pub expire : ℕ → Reservation → Reservation
expire now r = if is_overdue now r then record r { status = ReservationStatus.expired } else r

-- `UPDATE fund_reservations SET status = 'EXPIRED' … RETURNING`
mark_expired : ℕ → Io Tables (List Reservation)
unfolding query
mark_expired now = query λ t. ok (
  select (is_overdue now) t.reservations,
  record t { reservations = map (expire now) t.reservations },
)

-- The INSERT of a RELEASE entry names no id, and the table has no default for one.
post_release : Reservation → Io Tables (Unit {0})
unfolding query
post_release r = query (λ t. err not_null_violation)

post_releases : List Reservation → Io Tables (Unit {0})
unfolding with_transaction post_release
post_releases [] = pure tt
post_releases (r ∷ rs) = or_else (with_transaction (post_release r)) tt >> post_releases rs

abbrev pub length_of : List Reservation → ℕ
length_of [] = 0
length_of (r ∷ rs) = length_of rs + 1

-- `expireStuckReservations()`
pub expire_stuck_reservations : ℕ → Io Tables ℕ
unfolding mark_expired post_releases
expire_stuck_reservations now = do
  rows ← mark_expired now
  post_releases rows
  pure (length_of rows)
