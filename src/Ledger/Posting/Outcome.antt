-- ===== src/Ledger/Posting/Outcome.antt =====
-- What a call of `postEntry` does to the tables, whatever statement fails.
use genesis_reserve_smarter.Base.{◌≡◌, String, true, false, [], ◌∷◌, arith, any}
use genesis_reserve_smarter.Base.Int.{pos, ◌≤ℤ◌, neg, leb_ℤ}
use genesis_reserve_smarter.Database.{LedgerEntry, Tables}
use genesis_reserve_smarter.Effect.{
  World, done, threw, invalid_amount, query, read, advance, committed,
}
use genesis_reserve_smarter.Effect.Atomic.{Returns, Ends, with_transaction-Ends}
use genesis_reserve_smarter.Ledger.Posting.{
  PostParams, HashInput, Moment, clashes, insert_entry, make_entry, post_rows, post_entry,
  upsert_snapshot, update_balance_snapshot, update_snapshots, fits_numeric, fits_char4,
  balance_fits,
}

-- The tables with both sides of an entry on them.
abbrev pub booked : LedgerEntry → Tables → Tables
booked e t = record t {
  ledger_entries = e ∷ t.ledger_entries;
  snapshots =
      upsert_snapshot e.credit_account e.amount e.created_at
        (upsert_snapshot e.debit_account (neg e.amount) e.created_at t.snapshots);
}

module _ (digest : HashInput → String) (p : PostParams) (now : Moment) where
  -- What a posting that returns has done: the entry that the parameters describe, with a positive
  -- amount and a new id and hash, stands above the old ones, and both balances have moved.
  abbrev pub Booked : Tables → LedgerEntry → Tables → Type 0
  Booked t e t' =
      (e ≡ make_entry digest p now t.ledger_entries)
      × (pos 1 ≤ℤ e.amount)
      × (any (clashes e) t.ledger_entries ≡ false)
      × (t' ≡ booked e t)

  post_rows-Returns : (w : World Tables) → Returns (Booked w.db) (post_rows digest p now w)
  unfolding post_rows query read insert_entry update_balance_snapshot update_snapshots make_entry
  post_rows-Returns w = ground arith

  -- Whatever statement fails, a posting either returns and has booked the entry, or throws and the
  -- tables are as they were.
  pub post_entry-Ends : (w : World Tables) → Ends (Booked w.db) w.db (post_entry digest p now w)
  unfolding post_entry
  post_entry-Ends w = ground (
    arith,
    with_transaction-Ends (Booked w.db) (post_rows digest p now) w
        (post_rows-Returns (advance (advance w))),
  )

  -- The columns can hold the entry and both new balances.
  abbrev pub Fits : Tables → Type 0
  Fits t =
      let e = make_entry digest p now t.ledger_entries in
      (fits_numeric e.amount ≡ true)
      × (fits_char4 e.currency ≡ true)
      × (balance_fits e.debit_account (neg e.amount) t.snapshots ≡ true)
      × (balance_fits e.credit_account e.amount
            (upsert_snapshot e.debit_account (neg e.amount) e.created_at t.snapshots)
          ≡ true)

  -- Without failures a posting with a positive amount and a new id and hash, whose amount, currency
  -- and new balances the columns can hold, returns and has booked the entry.
  pub post_entry-done :
      (t : Tables)
      → pos 1 ≤ℤ p.amount
      → any (clashes (make_entry digest p now t.ledger_entries)) t.ledger_entries ≡ false
      → Fits t
      → let e = make_entry digest p now t.ledger_entries in
        post_entry digest p now (record { db = t; faults = [] })
        ≡ done e (record { db = booked e t; faults = [] })
  unfolding post_entry committed query read insert_entry update_balance_snapshot update_snapshots
      make_entry
  post_entry-done t h k (fits, short, debit, credit) =
      let positive : leb_ℤ p.amount (pos 0) ≡ false = ground arith in
      ground (arith, positive, k, fits, short, debit, credit)

  -- An amount of zero or less is refused before any statement.
  pub post_entry-nonpositive :
      (w : World Tables)
      → p.amount ≤ℤ pos 0
      → post_entry digest p now w ≡ threw (invalid_amount p.amount) w
  unfolding post_entry
  post_entry-nonpositive w h = ground arith
