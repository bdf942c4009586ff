-- ===== src/Ledger/Books.antt =====
-- What the ledger promises (apps/api/src/ledger/ledger.service.ts, the invariants of its header):
-- the balances are derived from the entries, the books balance, entries are positive and chained.
pub mod Kept
use genesis_reserve_smarter.Base.{
  ℕ, ◌+◌, String, ◌≡◌, ◌⊎◌, Bool, true, false, Option, none, some, List, [], ◌∷◌, str_eq,
  if◌then◌else◌, any,
}
use genesis_reserve_smarter.Base.Int.{ℤ, pos, ◌+ℤ◌, neg, ◌≤ℤ◌}
use genesis_reserve_smarter.Database.{LedgerEntry, Snapshot, Tables}
use genesis_reserve_smarter.Ledger.Posting.{
  HashInput, PostParams, Moment, prev_hash_of, clashes, post_entry,
}
use genesis_reserve_smarter.Effect.{World, world_of}

-- What an account holds by the entries alone: its credits less its debits.
abbrev pub when : Bool → ℤ → ℤ
when true d = d
when false d = pos 0

abbrev pub one : Bool → ℕ
one true = 1
one false = 0

unfoldable pub effect : String → LedgerEntry → ℤ
effect a e =
    when (str_eq e.debit_account a) (neg e.amount) +ℤ when (str_eq e.credit_account a) e.amount

unfoldable pub net : String → List LedgerEntry → ℤ
net a [] = pos 0
net a (e ∷ es) = effect a e +ℤ net a es

-- How often the entries post to an account.
unfoldable pub sides : String → LedgerEntry → ℕ
sides a e = one (str_eq e.debit_account a) + one (str_eq e.credit_account a)

unfoldable pub postings : String → List LedgerEntry → ℕ
postings a [] = 0
postings a (e ∷ es) = sides a e + postings a es

unfoldable pub snapshot_of : String → List Snapshot → Option Snapshot
snapshot_of a [] = none
snapshot_of a (s ∷ ss) = if str_eq s.account_id a then some s else snapshot_of a ss

unfoldable pub total : List Snapshot → ℤ
total [] = pos 0
total (s ∷ ss) = s.balance +ℤ total ss

-- The row of an account against what the entries say. The counter of a row that a posting has made is
-- one behind, since it is the column's default, 0, after the first posting; that of a row of the
-- migration, which is there before any posting, is exact.
abbrev pub Agrees : Option Snapshot → ℤ → ℕ → Type 0
Agrees none balance n = (balance ≡ pos 0) × (n ≡ 0)
Agrees (some s) balance n = (s.balance ≡ balance) × ((s.entry_count + 1 ≡ n) ⊎ (s.entry_count ≡ n))

abbrev pub AreDerived : Tables → Type 0
AreDerived t =
    (a : String)
    → Agrees (snapshot_of a t.snapshots) (net a t.ledger_entries) (postings a t.ledger_entries)

-- The hash of an entry is that of its fields at some time.
abbrev pub IsHashed : (HashInput → String) → LedgerEntry → Type 0
IsHashed digest e =
    (ts : ℕ) × (e.hash
      ≡ digest (record {
        id = e.id;
        type = e.type;
        debit_account = e.debit_account;
        credit_account = e.credit_account;
        amount = e.amount;
        currency = e.currency;
        reference = e.reference;
        prev_hash = e.prev_hash;
        ts = ts;
      }))

-- Every entry is positive, clashes with no older one, is hashed, and names the hash of the latest
-- older entry of its debit account.
abbrev pub AreChained : (HashInput → String) → List LedgerEntry → Type 0
AreChained digest [] = Unit
AreChained digest (e ∷ es) =
    (pos 1 ≤ℤ e.amount)
    × (any (clashes e) es ≡ false)
    × IsHashed digest e
    × (e.prev_hash ≡ prev_hash_of e.debit_account es)
    × AreChained digest es

pub record AreSound (digest : HashInput → String) (t : Tables) : Type 0 where
  pub derived : AreDerived t
  pub balanced : total t.snapshots ≡ pos 0
  pub chained : AreChained digest t.ledger_entries

-- Calls of `postEntry` one after another; the caller of a failed one goes on.
unfoldable pub post_all :
    (HashInput → String) → List (PostParams × Moment) → World Tables → World Tables
post_all digest [] w = w
post_all digest ((p, now) ∷ calls) w = post_all digest calls (world_of (post_entry digest p now w))
