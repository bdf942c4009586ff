-- ===== src/Reconciliation/Expiry.antt =====
-- What the expiry of stuck reservations does, and that it posts nothing
-- (apps/api/src/reconciliation/reconciliation.service.ts).
use genesis_reserve_smarter.Base.{
  ℕ, ◌≡◌, refl, subst, ap, ◌∙◌, ◌↔◌, ◌<◌, inl, inr, true, false, arith, if◌then◌else◌, List, [],
  ◌∷◌, map, select, any, Bool-cases,
}
use genesis_reserve_smarter.Database.{Tables, Reservation, ReservationStatus}
use genesis_reserve_smarter.Effect.{
  World, Outcome, done, threw, pure, query, or_else, with_transaction, next_fault, advance,
}
use genesis_reserve_smarter.Effect.Atomic.{Returns, Ends, with_transaction-Ends}
use genesis_reserve_smarter.Effect.Leads.{
  Closes-mono, Closes, Leads, query-Leads, or_else-Leads, >>=-Leads,
}
use genesis_reserve_smarter.Reconciliation.{
  expire_stuck_reservations, mark_expired, post_releases, post_release, is_overdue, expire,
  length_of, is_active,
}

-- The marked rows: none is overdue any more.
none_overdue :
    (now : ℕ) (rs : List Reservation) → any (is_overdue now) (map (expire now) rs) ≡ false
none_overdue now [] = refl
none_overdue now (r ∷ rs) = elim (Bool-cases (is_overdue now r)) [
  | inl over ↦ rw over (none_overdue now rs)
  | inr fine ↦ rw (fine, fine) (none_overdue now rs)
]

post_release-Returns : (r : Reservation) (w : World Tables) → Returns (λ a s. ⊥) (post_release r w)
unfolding post_release query
post_release-Returns r w = elim (Bool-cases (next_fault w.faults)) [
  | inl fails ↦ rw fails tt
  | inr works ↦ rw works tt
]

Ends-Closes :
    (t : Tables) (o : Outcome Tables (Unit {0}))
    → Ends (λ a s. ⊥) t o
    → Closes (λ a s. s ≡ t) (λ s. s ≡ t) o
Ends-Closes t (done a w) h = absurd h
Ends-Closes t (threw e w) h = h

-- A posting of a release cannot succeed, and it leaves the rows as they were.
post_releases-Leads :
    (t : Tables) (rs : List Reservation)
    → Leads (λ s. s ≡ t) (λ u s. s ≡ t) (λ s. ⊥) (post_releases rs)
unfolding post_releases
post_releases-Leads t [] w h = h
post_releases-Leads t (r ∷ rs) w h =
    >>=-Leads (λ s. s ≡ t) (λ u s. s ≡ t) (λ u s. s ≡ t) (λ s. ⊥)
      (or_else (with_transaction (post_release r)) tt) (λ u. post_releases rs)
      (or_else-Leads (λ s. s ≡ t) (λ u s. s ≡ t) (λ s. ⊥) (with_transaction (post_release r)) tt
        λ v e.
          subst
            (λ (x : Tables).
              Closes (λ a s. s ≡ x) (λ s. s ≡ x) (with_transaction (post_release r) v))
            e
            (Ends-Closes v.db (with_transaction (post_release r) v) (
              with_transaction-Ends (λ a s. ⊥) (post_release r) v
                (post_release-Returns r (advance (advance v))))))
      (λ u. post_releases-Leads t rs) w h

abbrev pub marked : ℕ → Tables → Tables
marked now t = record t {
  reservations =
      map
        (λ (r : Reservation).
          if is_overdue now r then record r { status = ReservationStatus.expired } else r)
        t.reservations;
}

is_active_at :
    (st : ReservationStatus) (r : Reservation)
    → (is_active (record r { status = st }) ≡ true) ↔ (st ≡ ReservationStatus.active)
is_active_at ReservationStatus.active r = (λ h. refl, λ h. refl)
is_active_at ReservationStatus.settled r = (λ h. cc h, λ h. cc h)
is_active_at ReservationStatus.released r = (λ h. cc h, λ h. cc h)
is_active_at ReservationStatus.expired r = (λ h. cc h, λ h. cc h)

is_active_iff : (r : Reservation) → (is_active r ≡ true) ↔ (r.status ≡ ReservationStatus.active)
is_active_iff r = is_active_at r.status r

-- Overdue is what is active and past its expiry.
is_overdue_iff :
    (now : ℕ) (r : Reservation)
    → (is_overdue now r ≡ true) ↔ ((r.status ≡ ReservationStatus.active) × (r.expiry < now))
is_overdue_iff now r = ground (arith, is_active_iff r)

-- Either the update fails and nothing changes; or the overdue reservations, and no others, are marked
-- as expired, none is overdue then, and their number is returned. No entry is posted for them: the
-- ledger stays as it was.
pub expire_stuck_reservations-Closes :
    (now : ℕ) (w : World Tables)
    → Closes
        (λ n s.
          (s ≡ marked now w.db)
          × (n ≡ length_of (select (is_overdue now) w.db.reservations))
          × ((r : Reservation)
              → (is_overdue now r ≡ true)
                ↔ ((r.status ≡ ReservationStatus.active) × (r.expiry < now)))
          × (any (is_overdue now) s.reservations ≡ false)
          × (s.ledger_entries ≡ w.db.ledger_entries))
        (λ s. s ≡ w.db)
        (expire_stuck_reservations now w)
unfolding expire_stuck_reservations mark_expired
expire_stuck_reservations-Closes now w =
    let t = w.db in
    let Q : ℕ → Tables → Type 0 = λ n s.
      (s ≡ marked now t)
      × (n ≡ length_of (select (is_overdue now) t.reservations))
      × ((r : Reservation)
          → (is_overdue now r ≡ true) ↔ ((r.status ≡ ReservationStatus.active) × (r.expiry < now)))
      × (any (is_overdue now) s.reservations ≡ false)
      × (s.ledger_entries ≡ t.ledger_entries) in
    let Rows : List Reservation → Tables → Type 0 =
      λ rows s. (s ≡ marked now t) × (rows ≡ select (is_overdue now) t.reservations) in
    >>=-Leads (λ s. s ≡ t) Rows Q (λ s. s ≡ t) (mark_expired now) _
      (query-Leads (λ s. s ≡ t) Rows (λ s. s ≡ t) _ (λ s e. e)
        λ s e. (ap (marked now) e, ap (λ (x : Tables). select (is_overdue now) x.reservations) e))
      (λ rows v p.
        >>=-Leads (λ s. s ≡ marked now t) (λ u s. s ≡ marked now t) Q (λ s. s ≡ t)
          (post_releases rows) (λ u. pure (length_of rows))
          (λ x e.
            Closes-mono (λ u s. s ≡ marked now t) (λ u s. s ≡ marked now t) (λ s. ⊥) (λ s. s ≡ t)
              (post_releases rows x) (λ u s q. q) (λ s q. absurd q)
              (post_releases-Leads (marked now t) rows x e))
          (λ u x e. (
            e,
            ap length_of p.1,
            is_overdue_iff now,
            ap (λ (y : Tables). any (is_overdue now) y.reservations) e
                ∙ none_overdue now t.reservations,
            ap (λ (y : Tables). y.ledger_entries) e,
          ))
          v p.0)
      w refl
