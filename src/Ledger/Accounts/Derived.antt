-- ===== src/Ledger/Accounts/Derived.antt =====
-- The balances that `getAccountLedger` reports are those that the entries give.
use genesis_reserve_smarter.Base.{
  ◌≡◌, ◌∙◌, refl, sym, ap, String, Option, none, some, List, [], ◌∷◌, arith, str_eq, eq_iff,
  eq_refl, get_or, select, any, true, Bool-cases, inl, inr, ℕ, ◌≤◌,
}
use genesis_reserve_smarter.Base.Int.{ℤ, pos}
use genesis_reserve_smarter.Base.Like.{cat}
use genesis_reserve_smarter.Database.{Snapshot, Tables}
use genesis_reserve_smarter.Effect.{query, read}
use genesis_reserve_smarter.Effect.Atomic.{Gives}
use genesis_reserve_smarter.Ledger.Accounts.{
  AccountLedger, in_any, account_keys, balance_of, get_account_ledger,
}
use genesis_reserve_smarter.Ledger.Posting.{HashInput}
use genesis_reserve_smarter.Ledger.Books.{net, postings, snapshot_of, Agrees, AreDerived, AreSound}

-- The rows that were asked for answer for each key that was asked for.
balance_of-select :
    (keys : List String) (k : String) (ss : List Snapshot)
    → any (str_eq k) keys ≡ true
    → balance_of k (select (in_any keys) ss) ≡ balance_of k ss
unfolding balance_of
balance_of-select keys k [] h = refl
balance_of-select keys k (s ∷ ss) h = elim (Bool-cases (str_eq s.account_id k)) [
  | inl same ↦
      let asked : in_any keys s ≡ true =
        ap (λ x. any (str_eq x) keys) ((eq_iff s.account_id k).0 same) ∙ h in
      rw (asked, same)
  | inr other ↦ ground (arith, other, balance_of-select keys k ss h)
]

abbrev balance_in : Option Snapshot → Option ℤ
balance_in none = none
balance_in (some s) = some s.balance

balance_of-eq : (k : String) (ss : List Snapshot) → balance_of k ss ≡ balance_in (snapshot_of k ss)
unfolding balance_of snapshot_of
balance_of-eq k [] = refl
balance_of-eq k (s ∷ ss) = ground (arith, balance_of-eq k ss)

agreed_balance :
    (o : Option Snapshot) (m : ℤ) (n : ℕ) (d : ℤ)
    → Agrees o m n
    → (get_or (balance_in o) (pos 0) ≡ m) × (1 ≤ n → get_or (balance_in o) d ≡ m)
agreed_balance none m n d h = (sym h.0, λ p. absurd (omega arith))
agreed_balance (some s) m n d h = (h.0, λ p. h.0)

reported :
    (keys : List String) (k : String) (d : ℤ) (t : Tables)
    → AreDerived t
    → any (str_eq k) keys ≡ true
    → let rows = select (in_any keys) t.snapshots in
      (get_or (balance_of k rows) (pos 0) ≡ net k t.ledger_entries)
      × (1 ≤ postings k t.ledger_entries → get_or (balance_of k rows) d ≡ net k t.ledger_entries)
reported keys k d t derived asked =
    rw (balance_of-select keys k t.snapshots asked, balance_of-eq k t.snapshots)
      (agreed_balance (snapshot_of k t.snapshots) _ _ d (derived k))

-- What a call of `getAccountLedger` that returns has reported.
pub record Reports (id : String) (t : Tables) (r : AccountLedger) (t' : Tables) : Type 0 where
  pub unchanged : t' ≡ t
  pub reserved : r.reserved ≡ net (cat id ":reserved") t.ledger_entries
  pub invested : r.invested ≡ net (cat id ":invested") t.ledger_entries
  pub available :
      1 ≤ postings (cat id ":available") t.ledger_entries
      → r.available ≡ net (cat id ":available") t.ledger_entries

asked_reserved : (id : String) → any (str_eq (cat id ":reserved")) (account_keys id) ≡ true
asked_reserved id = ground (arith, eq_refl (cat id ":reserved"))

asked_invested : (id : String) → any (str_eq (cat id ":invested")) (account_keys id) ≡ true
asked_invested id = ground (arith, eq_refl (cat id ":invested"))

asked_available : (id : String) → any (str_eq (cat id ":available")) (account_keys id) ≡ true
asked_available id = ground (arith, eq_refl (cat id ":available"))

-- In a sound ledger a report whose statements do not fail returns the balances that the entries
-- give: for the reserved and the invested account always, for the available account once an entry has
-- touched it. Nothing is written.
pub get_account_ledger-Reports :
    (digest : HashInput → String) (id : String) (t : Tables)
    → AreSound digest t
    → Gives (Reports id t) (get_account_ledger id (record { db = t; faults = [] }))
unfolding get_account_ledger query read
get_account_ledger-Reports digest id t sound =
    let report = λ (k : String) (d : ℤ). reported (account_keys id) k d t sound.derived in
    let rows = select (in_any (account_keys id)) t.snapshots in
    record {
      unchanged = refl;
      reserved = (report (cat id ":reserved") (pos 0) (asked_reserved id)).0;
      invested = (report (cat id ":invested") (pos 0) (asked_invested id)).0;
      available =
          (report (cat id ":available") (get_or (balance_of id rows) (pos 0))
            (asked_available id)).1;
    }
