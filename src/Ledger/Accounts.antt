-- ===== src/Ledger/Accounts.antt =====
-- `getAccountLedger` (apps/api/src/ledger/ledger.service.ts). The three reads run one after another.
pub mod Derived
use genesis_reserve_smarter.Base.{
  ℕ, String, Option, none, some, Bool, ◌&&◌, ◌||◌, List, [], ◌∷◌, str_eq, if◌then◌else◌, get_or,
  any, select, length,
}
use genesis_reserve_smarter.Base.Int.{ℤ, pos, ◌+ℤ◌}
use genesis_reserve_smarter.Base.Like.{cat, like}
use genesis_reserve_smarter.Database.{LedgerEntry, EntryType, Snapshot, Tables, entry_type_text}
use genesis_reserve_smarter.Effect.{Io, pure, ◌>>=◌, read}
use genesis_reserve_smarter.Ledger.Posting.{zero_hash, latest_where, hash_of}

pub record AccountLedger : Type 0 where
  pub account_id : String
  pub available : ℤ
  pub reserved : ℤ
  pub invested : ℤ
  pub total_deposited : ℤ
  pub total_withdrawn : ℤ
  pub total_yield : ℤ
  pub total_fees : ℤ
  pub entry_count : ℕ
  pub last_entry_hash : String
  pub last_updated : ℕ

-- `account_id = ANY($1::text[])`
abbrev pub in_any : List String → Snapshot → Bool
in_any keys s = any (str_eq s.account_id) keys

abbrev pub account_keys : String → List String
account_keys id = id ∷ cat id ":available" ∷ cat id ":reserved" ∷ cat id ":invested" ∷ []

-- `balances.get(key)`, on the map built from the rows, whose keys are distinct.
unfoldable pub balance_of : String → List Snapshot → Option ℤ
balance_of key [] = none
balance_of key (s ∷ ss) = if str_eq s.account_id key then some s.balance else balance_of key ss

-- `SUM(CASE WHEN … THEN amount ELSE 0 END)`, 0 over no rows
unfoldable pub sum_where : (LedgerEntry → Bool) → List LedgerEntry → ℤ
sum_where p [] = pos 0
sum_where p (e ∷ es) = (if p e then e.amount else pos 0) +ℤ sum_where p es

abbrev pub has_type : String → LedgerEntry → Bool
has_type name e = str_eq (entry_type_text e.type) name

abbrev pub either_like : String → LedgerEntry → Bool
either_like pattern e = like e.debit_account pattern || like e.credit_account pattern

abbrev pub created_of : Option LedgerEntry → Option ℕ
created_of none = none
created_of (some e) = some e.created_at

unfoldable pub get_account_ledger : String → Io Tables AccountLedger
unfolding read balance_of sum_where like entry_type_text latest_where
get_account_ledger id = do
  let pattern = cat id ":%"
  rows ← read (λ t. select (in_any (account_keys id)) t.snapshots)
  entries ← read (λ t. select (either_like pattern) t.ledger_entries)
  last_entry ← read (λ t. latest_where (either_like pattern) t.ledger_entries)
  pure (record {
    account_id = id;
    available =
        get_or (balance_of (cat id ":available") rows) (get_or (balance_of id rows) (pos 0));
    reserved = get_or (balance_of (cat id ":reserved") rows) (pos 0);
    invested = get_or (balance_of (cat id ":invested") rows) (pos 0);
    total_deposited =
        sum_where (λ e. has_type "DEPOSIT" e && like e.credit_account pattern) entries;
    total_withdrawn =
        sum_where (λ e. has_type "WITHDRAWAL" e && like e.debit_account pattern) entries;
    total_yield = sum_where (λ e. has_type "YIELD" e && like e.credit_account pattern) entries;
    total_fees = sum_where (λ e. has_type "FEE" e && like e.debit_account pattern) entries;
    entry_count = length entries;
    last_entry_hash = get_or (hash_of last_entry) zero_hash;
    last_updated = get_or (created_of last_entry) 0;
  })
