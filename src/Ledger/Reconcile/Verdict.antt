-- ===== src/Ledger/Reconcile/Verdict.antt =====
-- When `LedgerService.reconcile` finds a match, and what it posts when it does not.
use genesis_reserve_smarter.Base.{
  ℕ, String, ◌≡◌, ◌↔◌, ◌⊎◌, inl, inr, refl, ap, ◌∙◌, Bool, true, false, Bool-cases, str_eq, eq_iff,
  arith, any, List, [], ◌∷◌,
}
use genesis_reserve_smarter.Base.Int.{
  ℤ, pos, ◌+ℤ◌, ◌-ℤ◌, ◌≤ℤ◌, ◌<ℤ◌, neg, int_laws, eq_of_parts, +ℤ-zero,
}
use genesis_reserve_smarter.Base.Json.{Json}
use genesis_reserve_smarter.Database.{Snapshot, Tables, LedgerEntry}
use genesis_reserve_smarter.Effect.{
  World, Outcome, done, threw, read, query, continue, pure, advance, next_fault,
}
use genesis_reserve_smarter.Effect.Atomic.{Returns, Ends, Gives, Gives-of}
use genesis_reserve_smarter.Ledger.Posting.{
  HashInput, Moment, upsert_snapshot, make_entry, post_entry, clashes,
}
use genesis_reserve_smarter.Ledger.Posting.Outcome.{
  Booked, Fits, booked, post_entry-Ends, post_entry-done,
}
use genesis_reserve_smarter.Ledger.Reconcile.{
  ChainTotals, Report, report_of, within_tolerance, is_counted, sum_like, ledger_total_of, abs,
  suspense_entry, act_on, reconcile,
}

abbrev pub chain_total : ChainTotals → ℤ
chain_total c = c.available +ℤ c.reserved +ℤ c.deployed

within_tolerance_iff :
    (l x : ℤ) → (within_tolerance (l -ℤ x) ≡ true) ↔ ((l <ℤ x +ℤ pos 1000) × (x <ℤ l +ℤ pos 1000))
unfolding within_tolerance neg
within_tolerance_iff l x = grind int_laws

-- A report is a match exactly when the totals differ by less than 1000 units, or when the ledger holds
-- nothing and the chain something.
pub report_of-matched_iff :
    (ledger : ℤ) (c : ChainTotals)
    → ((report_of ledger c).matched ≡ true) ↔ (
        ((ledger <ℤ chain_total c +ℤ pos 1000) × (chain_total c <ℤ ledger +ℤ pos 1000))
        ⊎ ((ledger ≡ pos 0) × (pos 0 <ℤ chain_total c)))
unfolding report_of
report_of-matched_iff ledger c =
    ground (arith, within_tolerance_iff ledger (chain_total c), eq_of_parts ledger (pos 0))

-- The difference of a mismatch is at least the tolerance, so its posting is not refused as zero.
report_of-mismatch :
    (ledger : ℤ) (c : ChainTotals)
    → (report_of ledger c).matched ≡ false
    → ((report_of ledger c).delta ≡ ledger -ℤ chain_total c)
      × (pos 1000 ≤ℤ abs (report_of ledger c).delta)
unfolding report_of within_tolerance neg
report_of-mismatch ledger c h = ground arith

-- A posting to an account that a pattern does not count leaves its sum alone.
sum_like-upsert_snapshot :
    (pattern account : String) (d : ℤ) (now : ℕ) (ss : List Snapshot)
    → is_counted pattern account ≡ false
    → sum_like pattern (upsert_snapshot account d now ss) ≡ sum_like pattern ss
unfolding sum_like upsert_snapshot
sum_like-upsert_snapshot pattern account d now [] h = rw h (+ℤ-zero (pos 0))
sum_like-upsert_snapshot pattern account d now (s ∷ ss) h =
    elim (Bool-cases (str_eq s.account_id account)) [
      | inl same ↦
          let uncounted : is_counted pattern s.account_id ≡ false =
            ap (is_counted pattern) ((eq_iff s.account_id account).0 same) ∙ h in
          rw (same, uncounted)
      | inr other ↦ rw (other, sum_like-upsert_snapshot pattern account d now ss h)
    ]

-- No pattern of the total counts the accounts of a reconciliation entry.
ledger_total_of-upsert_snapshot :
    (account : String) (d : ℤ) (now : ℕ) (ss : List Snapshot)
    → is_counted "%:available" account ≡ false
    → is_counted "%:reserved" account ≡ false
    → is_counted "%:invested" account ≡ false
    → ledger_total_of (upsert_snapshot account d now ss) ≡ ledger_total_of ss
unfolding ledger_total_of
ledger_total_of-upsert_snapshot account d now ss a r i = rw (
  sum_like-upsert_snapshot "%:available" account d now ss a,
  sum_like-upsert_snapshot "%:reserved" account d now ss r,
  sum_like-upsert_snapshot "%:invested" account d now ss i,
)

module _ (digest : HashInput → String) (show : ℕ → String) (render : Report → Json)
    (chain : ChainTotals) (now : Moment) where
  -- What a run that returns has done.
  pub record Reconciled (t : Tables) (r : Report) (t' : Tables) : Type 0 where
    pub report : r ≡ report_of (ledger_total_of t.snapshots) chain
    pub kept_total : ledger_total_of t'.snapshots ≡ ledger_total_of t.snapshots
    pub on_match : r.matched ≡ true → t' ≡ t
    pub on_mismatch :
        r.matched ≡ false
        → t'.ledger_entries
          ≡ make_entry digest (suspense_entry show render now r) now t.ledger_entries
            ∷ t.ledger_entries

  suspense-Reconciled :
      (t t' : Tables) (e : LedgerEntry)
      → let r = report_of (ledger_total_of t.snapshots) chain in
        r.matched ≡ false
        → Booked digest (suspense_entry show render now r) now t e t'
        → Reconciled t r t'
  unfolding make_entry is_counted
  suspense-Reconciled t t' e mismatch (made, _, _, same) = record {
    report = refl;
    kept_total =
        rw (same, made)
          (ledger_total_of-upsert_snapshot "system:delta_reserve" _ _ _ refl refl refl
            ∙ ledger_total_of-upsert_snapshot "suspense:reconciliation" _ _ _ refl refl refl);
    on_match = λ matched. cc;
    on_mismatch = λ _. rw same (ap (λ x. x ∷ t.ledger_entries) made);
  }

  posted-Reconciled :
      (t : Tables) (o : Outcome Tables LedgerEntry)
      → let r = report_of (ledger_total_of t.snapshots) chain in
        r.matched ≡ false
        → Ends (Booked digest (suspense_entry show render now r) now t) t o
        → Returns (Reconciled t) (continue o (λ _. pure r))
  posted-Reconciled t (done e w) mismatch b = suspense-Reconciled t w.db e mismatch b
  posted-Reconciled t (threw e w) mismatch b = tt

  act_on-Reconciled :
      (w : World Tables) (b : Bool)
      → let r = report_of (ledger_total_of w.db.snapshots) chain in
        r.matched ≡ b → Returns (Reconciled w.db) (act_on digest show render now b r w)
  unfolding act_on
  act_on-Reconciled w true e = record {
    report = refl;
    kept_total = refl;
    on_match = λ _. refl;
    on_mismatch = λ m. cc;
  }
  act_on-Reconciled w false e =
      posted-Reconciled w.db (post_entry digest _ now w) e (post_entry-Ends digest _ now w)

  -- Whatever statement fails, a run throws, or it returns the comparison of the total of the counted
  -- balances with the chain's. A match writes nothing; a mismatch adds one entry, from the suspense
  -- account, and leaves the counted total as it was.
  pub reconcile-Reconciled :
      (w : World Tables) → Returns (Reconciled w.db) (reconcile digest show render chain now w)
  unfolding reconcile query read
  reconcile-Reconciled w = elim (Bool-cases (next_fault w.faults)) [
    | inl down ↦ rw down tt
    | inr up ↦ rw up (act_on-Reconciled (advance w) _ refl)
  ]

  act_on-Gives :
      (t : Tables) (b : Bool)
      → let r = report_of (ledger_total_of t.snapshots) chain in
        let p = suspense_entry show render now r in
        r.matched ≡ b
        → any (clashes (make_entry digest p now t.ledger_entries)) t.ledger_entries ≡ false
        → Fits digest p now t
        → Gives (Reconciled t) (act_on digest show render now b r (record { db = t; faults = [] }))
  unfolding act_on
  act_on-Gives t true e fresh fits = act_on-Reconciled (record { db = t; faults = [] }) true e
  act_on-Gives t false e fresh fits =
      let r = report_of (ledger_total_of t.snapshots) chain in
      let p = suspense_entry show render now r in
      let large : pos 1000 ≤ℤ abs r.delta = (report_of-mismatch _ chain e).1 in
      let positive : pos 1 ≤ℤ p.amount = grind (int_laws, large) in
      let posted = make_entry digest p now t.ledger_entries in
      Gives-of (Reconciled t)
        (act_on digest show render now false r (record { db = t; faults = [] })) r
        (record { db = booked posted t; faults = [] })
        (act_on-Reconciled (record { db = t; faults = [] }) false e)
        (ap (λ o. continue o (λ _. pure r)) (post_entry-done digest p now t positive fresh fits))

  -- Without failures a run returns and has done so, if the id and the hash of the suspense entry that
  -- it would post are new and the columns can hold its amount and its two balances.
  pub reconcile-done :
      (t : Tables)
      → let p = suspense_entry show render now (report_of (ledger_total_of t.snapshots) chain) in
        any (clashes (make_entry digest p now t.ledger_entries)) t.ledger_entries ≡ false
        → Fits digest p now t
        → Gives
            (Reconciled t)
            (reconcile digest show render chain now (record { db = t; faults = [] }))
  unfolding reconcile query read
  reconcile-done t fresh fits =
      act_on-Gives t (report_of (ledger_total_of t.snapshots) chain).matched refl fresh fits
