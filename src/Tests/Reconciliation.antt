-- ===== src/Tests/Reconciliation.antt =====
-- A vault of 20 dollars beside an empty ledger, and a reservation that is overdue
-- (apps/api/src/reconciliation/reconciliation.service.ts).
use genesis_reserve_smarter.Base.{◌↔◌, ◌<◌, ◌≡◌, refl, none, some, true, false, [], ◌∷◌, any}
use genesis_reserve_smarter.Base.Int.{pos}
use genesis_reserve_smarter.Database.{Tables, no_rows, Reservation, ReservationStatus}
use genesis_reserve_smarter.Effect.{World, ok}
use genesis_reserve_smarter.Effect.Leads.{Closes}
use genesis_reserve_smarter.Effect.Succeeds.{IsCalm}
use genesis_reserve_smarter.Reconciliation.{
  Run, Desk, reconcile, expire_stuck_reservations, is_overdue,
}
use genesis_reserve_smarter.Reconciliation.Expiry.{marked, expire_stuck_reservations-Closes}
use genesis_reserve_smarter.Reconciliation.Returning.{reconcile-Succeeds}

abbrev overdue : Reservation
overdue = record {
  reservation_id = "r1";
  amount = pos 5;
  expiry = 10;
  status = ReservationStatus.active;
}

abbrev rows : Tables
rows = record no_rows { reservations = overdue ∷ [] }

abbrev hourly : Run
hourly = record {
  run_id = "recon_1";
  now = 4000000;
  vault = some (ok (pos 20000000));
  params = none;
  has_slack = true;
  has_pager = true;
  show_delta = λ d. "20.0000";
}

abbrev desk : World Desk
desk = record { db = record { tables = rows; slack = []; pager = []; published = [] }; faults = [] }

reconcile-Succeeds_example : IsCalm (reconcile hourly desk)
reconcile-Succeeds_example = reconcile-Succeeds hourly desk refl

expire_stuck_reservations-Closes_example :
    Closes
      (λ n s.
        (s ≡ marked 4000000 rows)
        × (n ≡ 1)
        × ((r : Reservation)
            → (is_overdue 4000000 r ≡ true)
              ↔ ((r.status ≡ ReservationStatus.active) × (r.expiry < 4000000)))
        × (any (is_overdue 4000000) s.reservations ≡ false)
        × (s.ledger_entries ≡ []))
      (λ s. s ≡ rows)
      (expire_stuck_reservations 4000000 (record { db = rows; faults = [] }))
expire_stuck_reservations-Closes_example =
    expire_stuck_reservations-Closes 4000000 (record { db = rows; faults = [] })
