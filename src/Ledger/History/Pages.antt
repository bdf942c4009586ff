-- ===== src/Ledger/History/Pages.antt =====
-- The pages of `getEntries` (apps/api/src/ledger/ledger.service.ts).
use genesis_reserve_smarter.Base.{
  ℕ, ◌-◌, ◌*◌, ◌≤◌, ◌≡◌, ◌↔◌, ◌⊎◌, some, true, List, [], ◌∷◌, take, drop, any, length, str_eq,
}
use genesis_reserve_smarter.Base.Like.{cat, like}
use genesis_reserve_smarter.Database.{LedgerEntry, EntryType, Tables, entry_type_text}
use genesis_reserve_smarter.Ledger.History.{EntryQuery, EntryPage, is_asked}

-- No entry is newer than the one before it.
abbrev pub HeadIsNewest : ℕ → List LedgerEntry → Type 0
HeadIsNewest time [] = Unit
HeadIsNewest time (e ∷ es) = e.created_at ≤ time

abbrev pub IsNewestFirst : List LedgerEntry → Type 0
IsNewestFirst [] = Unit
IsNewestFirst (e ∷ es) = HeadIsNewest e.created_at es × IsNewestFirst es

-- What an entry must be to fit a query: it posts to an account whose name begins with the one asked
-- for, it is of a type asked for, where any is, and its time lies between the ends that are given.
abbrev pub IsWanted : EntryQuery → LedgerEntry → Type 0
IsWanted q e =
    ((like e.debit_account (cat q.account_id "%") ≡ true)
      ⊎ (like e.credit_account (cat q.account_id "%") ≡ true))
    × ((q.types ≡ [])
        ⊎ (any (λ (u : EntryType). str_eq (entry_type_text u) (entry_type_text e.type)) q.types
            ≡ true))
    × ((from : ℕ) → q.from ≡ some from → from ≤ e.created_at)
    × ((to : ℕ) → q.to ≡ some to → e.created_at ≤ to)

-- What a page that is returned holds, where the rows asked for are arranged as `sorted`.
abbrev pub IsPage : EntryQuery → ℕ → ℕ → List LedgerEntry → Tables → EntryPage → Tables → Type 0
IsPage q page size sorted t p t' =
    (t' ≡ t)
    × (p.entries ≡ take size (drop ((page - 1) * size) sorted))
    × IsNewestFirst p.entries
    × (p.total ≡ length sorted)
    × ((e : LedgerEntry) → (is_asked q e ≡ true) ↔ IsWanted q e)
