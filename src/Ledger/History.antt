-- ===== src/Ledger/History.antt =====
-- `getEntries`, `exportISO20022` and `_iso20022TxCode` (apps/api/src/ledger/ledger.service.ts).
pub mod Pages
use genesis_reserve_smarter.Base.{
  ℕ, ◌+◌, ◌-◌, ◌*◌, String, Option, none, some, Bool, true, false, ◌&&◌, List, [], ◌∷◌, str_eq,
  if◌then◌else◌, get_or, any, select, length, take, drop, ltb, leb, ◌==◌,
}
use genesis_reserve_smarter.Base.Like.{cat, like}
use genesis_reserve_smarter.Database.{LedgerEntry, EntryType, Tables, entry_type_text}
use genesis_reserve_smarter.Effect.{
  Io, Result, ok, err, invalid_offset, type_error, pure, or_throw, ◌>>=◌, query, read,
}
use genesis_reserve_smarter.Ledger.Accounts.{either_like}

pub record EntryQuery : Type 0 where
  pub account_id : String
  pub types : List EntryType
  pub from : Option ℕ
  pub to : Option ℕ

pub record EntryPage : Type 0 where
  pub entries : List LedgerEntry
  pub total : ℕ
  pub page : ℕ

abbrev pub type_among : List EntryType → LedgerEntry → Bool
type_among [] e = true
type_among (t ∷ ts) e = any (λ u. str_eq (entry_type_text u) (entry_type_text e.type)) (t ∷ ts)

abbrev pub not_before : Option ℕ → LedgerEntry → Bool
not_before none e = true
not_before (some from) e = leb from e.created_at

abbrev pub not_after : Option ℕ → LedgerEntry → Bool
not_after none e = true
not_after (some to) e = leb e.created_at to

-- The WHERE clause.
unfoldable pub is_asked : EntryQuery → LedgerEntry → Bool
unfolding like entry_type_text
is_asked q e =
    either_like (cat q.account_id "%") e
    && type_among q.types e
    && not_before q.from e
    && not_after q.to e

abbrev pub asked_rows : EntryQuery → Tables → List LedgerEntry
asked_rows q t = select (is_asked q) t.ledger_entries

-- The server's arrangement of rows by `ORDER BY created_at DESC`, which leaves the order of rows with
-- one time open.
module _ (arrange : List LedgerEntry → List LedgerEntry) where
  -- `LIMIT … OFFSET (page - 1) * pageSize`: the server refuses the negative offset of page 0.
  unfoldable pub page_rows : EntryQuery → ℕ → ℕ → Tables → Result ((List LedgerEntry) × Tables)
  unfolding is_asked
  page_rows q page page_size t =
      if page == 0 && ltb 0 page_size
      then err invalid_offset
      else ok (take page_size (drop ((page - 1) * page_size) (arrange (asked_rows q t))), t)

  unfoldable pub get_entries : EntryQuery → Option ℕ → Option ℕ → Io Tables EntryPage
  unfolding query page_rows read
  get_entries q page page_size = do
    rows ← query (page_rows q (get_or page 1) (get_or page_size 20))
    total ← read (λ t. length (asked_rows q t))
    pure (record { entries = rows; total = total; page = get_or page 1 })

unfoldable pub iso20022_tx_code : EntryType → String
iso20022_tx_code EntryType.deposit = "RCDT"
iso20022_tx_code EntryType.withdrawal = "CDPT"
iso20022_tx_code EntryType.reserve = "LEVR"
iso20022_tx_code EntryType.release = "CAJT"
iso20022_tx_code EntryType.settlement = "XBRD"
iso20022_tx_code EntryType.fee = "CHRG"
iso20022_tx_code EntryType.yield = "DIVD"
iso20022_tx_code EntryType.fx = "FXBK"
iso20022_tx_code EntryType.reversal = "RVSL"
iso20022_tx_code EntryType.adjustment = "AJST"

-- The properties of a row of `SELECT * FROM ledger_entries`: its columns.
abbrev pub entry_columns : List String
entry_columns =
    "id" ∷ "entry_type" ∷ "debit_account" ∷ "credit_account" ∷ "amount" ∷ "currency" ∷ "reference"
    ∷ "metadata" ∷ "prev_hash" ∷ "hash" ∷ "block_number" ∷ "tx_hash" ∷ "created_at" ∷ []

-- What the callback of `entries.map` reads first: the row's id, and `e.createdAt`, whose
-- `toISOString` is called; the later fields of the statement do not come to be read without it.
unfoldable pub statement_refs : List LedgerEntry → Result (List String)
statement_refs [] = ok []
statement_refs (e ∷ es) =
    if any (str_eq "createdAt") entry_columns
    then elim (statement_refs es) [ ok refs ↦ ok (e.id ∷ refs) | err x ↦ err x ]
    else err type_error

unfoldable pub export_iso20022 :
    (List LedgerEntry → List LedgerEntry) → String → ℕ → ℕ → Io Tables (List String)
unfolding get_entries statement_refs
export_iso20022 arrange id from to = do
  page ←
      get_entries arrange (record { account_id = id; types = []; from = some from; to = some to })
        none (some 1000)
  or_throw (statement_refs page.entries)
