-- ===== src/Ledger/Posting.antt =====
-- `postEntry` and `_updateBalanceSnapshot` (apps/api/src/ledger/ledger.service.ts). SHA-256 over
-- `JSON.stringify` is the parameter `digest`. The clocks and the two random texts of one call are
-- its argument `Moment`.
pub mod Outcome
use genesis_reserve_smarter.Base.{
  ℕ, ◌+◌, String, Option, none, some, Bool, ◌||◌, ◌&&◌, List, [], ◌∷◌, str_eq, if◌then◌else◌,
  get_or, not, any, every, drop, ltb, ◌==◌,
}
use genesis_reserve_smarter.Base.Int.{ℤ, pos, ◌+ℤ◌, neg, leb_ℤ, ltb_ℤ}
use genesis_reserve_smarter.Base.Json.{Fields}
use genesis_reserve_smarter.Base.Like.{cat, codes}
use genesis_reserve_smarter.Database.{LedgerEntry, EntryType, Snapshot, Tables}
use genesis_reserve_smarter.Effect.{
  Io, Result, ok, err, unique_violation, check_violation, invalid_amount, numeric_out_of_range,
  value_too_long, pure, require, ◌>>=◌, ◌>>◌, query, read, with_transaction,
}

-- What `postEntry` is called with.
pub record PostParams : Type 0 where
  pub type : EntryType
  pub debit_account : String
  pub credit_account : String
  pub amount : ℤ
  pub currency : String
  pub reference : String
  pub metadata : Fields
  pub block_number : Option ℕ
  pub tx_hash : Option String

-- The object whose JSON text is hashed.
pub record HashInput : Type 0 where
  pub id : String
  pub type : EntryType
  pub debit_account : String
  pub credit_account : String
  pub amount : ℤ
  pub currency : String
  pub reference : String
  pub prev_hash : String
  pub ts : ℕ

pub record Moment : Type 0 where
  pub ts_base36 : String
  pub random_base36 : String
  pub date_now : ℕ
  pub db_now : ℕ

-- `'0'.repeat(64)`
abbrev pub zero_hash : String
zero_hash = "0000000000000000000000000000000000000000000000000000000000000000"

unfoldable pub generate_entry_id : Moment → String
generate_entry_id now = cat "ent_" (cat now.ts_base36 now.random_base36)

abbrev pub touches : String → LedgerEntry → Bool
touches account e = str_eq e.debit_account account || str_eq e.credit_account account

-- Of two candidates the later one; of two with one time, which the query leaves open, the one
-- inserted last.
abbrev pub later_of : LedgerEntry → Option LedgerEntry → LedgerEntry
later_of e none = e
later_of e (some old) = if ltb e.created_at old.created_at then old else e

-- `WHERE … ORDER BY created_at DESC LIMIT 1`
unfoldable pub latest_where : (LedgerEntry → Bool) → List LedgerEntry → Option LedgerEntry
latest_where p [] = none
latest_where p (e ∷ es) =
    let rest = latest_where p es in if p e then some (later_of e rest) else rest

-- `WHERE debit_account = $1 OR credit_account = $1 ORDER BY created_at DESC LIMIT 1`
unfoldable pub latest_entry : String → List LedgerEntry → Option LedgerEntry
unfolding latest_where
latest_entry account = latest_where (touches account)

abbrev pub hash_of : Option LedgerEntry → Option String
hash_of none = none
hash_of (some e) = some e.hash

unfoldable pub prev_hash_of : String → List LedgerEntry → String
unfolding latest_entry
prev_hash_of account es = get_or (hash_of (latest_entry account es)) zero_hash

-- `INSERT … ON CONFLICT (account_id) DO UPDATE`: a first row gets the column's default entry_count.
unfoldable pub upsert_snapshot : String → ℤ → ℕ → List Snapshot → List Snapshot
upsert_snapshot account delta now [] =
    record { account_id = account; balance = delta; entry_count = 0; last_updated = now } ∷ []
upsert_snapshot account delta now (s ∷ ss) =
    if str_eq s.account_id account
    then record s {
      balance = s.balance +ℤ delta;
      entry_count = s.entry_count + 1;
      last_updated = now;
    }
      ∷ ss
    else s ∷ upsert_snapshot account delta now ss

-- NUMERIC(36,0): the number has at most 36 digits.
abbrev pub numeric_bound : ℤ
numeric_bound = pos 1000000000000000000000000000000000000

abbrev pub fits_numeric : ℤ → Bool
fits_numeric n = ltb_ℤ n numeric_bound && ltb_ℤ (neg numeric_bound) n

-- CHAR(4): what stands after the fourth character is spaces.
unfoldable pub fits_char4 : String → Bool
fits_char4 s = every (λ c. c == 32) (drop 4 (codes s))

-- The balance that the upsert would store fits its column.
unfoldable pub balance_fits : String → ℤ → List Snapshot → Bool
balance_fits account delta [] = fits_numeric delta
balance_fits account delta (s ∷ ss) =
    if str_eq s.account_id account
    then fits_numeric (s.balance +ℤ delta)
    else balance_fits account delta ss

unfoldable pub update_snapshots : ℕ → String → ℤ → Tables → Result ((Unit {0}) × Tables)
unfolding upsert_snapshot balance_fits
update_snapshots now account delta t =
    if balance_fits account delta t.snapshots
    then ok (tt, record t { snapshots = upsert_snapshot account delta now t.snapshots })
    else err numeric_out_of_range

unfoldable pub update_balance_snapshot : ℕ → String → ℤ → Io Tables (Unit {0})
unfolding query update_snapshots
update_balance_snapshot now account delta = query (update_snapshots now account delta)

-- The INSERT: `id` is the primary key, `hash` is unique, `amount` is checked to be positive and has at
-- most 36 digits, `currency` has at most four characters.
abbrev pub clashes : LedgerEntry → LedgerEntry → Bool
clashes e old = str_eq old.id e.id || str_eq old.hash e.hash

unfoldable pub insert_entry : LedgerEntry → Tables → Result ((Unit {0}) × Tables)
unfolding fits_char4
insert_entry e t =
    if leb_ℤ e.amount (pos 0)
    then err check_violation
    else if not (fits_numeric e.amount)
    then err numeric_out_of_range
    else if not (fits_char4 e.currency)
    then err value_too_long
    else if any (clashes e) t.ledger_entries
    then err unique_violation
    else ok (tt, record t { ledger_entries = e ∷ t.ledger_entries })

module _ (digest : HashInput → String) where
  -- The row for the parameters, above the rows `es`.
  unfoldable pub make_entry : PostParams → Moment → List LedgerEntry → LedgerEntry
  unfolding generate_entry_id prev_hash_of
  make_entry p now es =
      let id = generate_entry_id now in
      let prev = prev_hash_of p.debit_account es in
      record {
        id = id;
        type = p.type;
        debit_account = p.debit_account;
        credit_account = p.credit_account;
        amount = p.amount;
        currency = p.currency;
        reference = p.reference;
        metadata = p.metadata;
        prev_hash = prev;
        hash = digest (record {
          id = id;
          type = p.type;
          debit_account = p.debit_account;
          credit_account = p.credit_account;
          amount = p.amount;
          currency = p.currency;
          reference = p.reference;
          prev_hash = prev;
          ts = now.date_now;
        });
        created_at = now.db_now;
        block_number = p.block_number;
        tx_hash = p.tx_hash;
      }

  -- The statements between BEGIN and COMMIT.
  unfoldable pub post_rows : PostParams → Moment → Io Tables LedgerEntry
  unfolding read query insert_entry make_entry update_balance_snapshot
  post_rows p now = do
    e ← read (λ t. make_entry p now t.ledger_entries)
    query (insert_entry e)
    update_balance_snapshot now.db_now p.debit_account (neg p.amount)
    update_balance_snapshot now.db_now p.credit_account p.amount
    pure e

  unfoldable pub post_entry : PostParams → Moment → Io Tables LedgerEntry
  unfolding post_rows with_transaction
  post_entry p now = do
    require (not (leb_ℤ p.amount (pos 0))) (invalid_amount p.amount)
    with_transaction (post_rows p now)
