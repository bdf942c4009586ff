-- ===== src/Ledger/Orders.antt =====
-- The account and order helpers (apps/api/src/ledger/ledger.service.ts), over treasury_accounts and
-- remittance_orders with the keys that their columns refer to.
pub mod Lookup
use genesis_reserve_smarter.Base.{
  ℕ, ◌+◌, String, Option, Bool, ◌∷◌, str_eq, if◌then◌else◌, any, find, map,
}
use genesis_reserve_smarter.Database.{TreasuryAccount, TreasuryMode, OrderRow, OrderStatus, Tables}
use genesis_reserve_smarter.Effect.{
  Io, Result, ok, err, unique_violation, foreign_key_violation, query, read, write,
}

abbrev pub has_account_id : String → TreasuryAccount → Bool
has_account_id id a = str_eq a.account_id id

abbrev pub has_order_id : String → OrderRow → Bool
has_order_id id o = str_eq o.order_id id

unfoldable pub get_account : String → Io Tables (Option TreasuryAccount)
unfolding read query
get_account id = read (λ t. find (has_account_id id) t.accounts)

-- `ON CONFLICT (account_id) DO NOTHING`; the owner has to be a user, and a wallet has one account.
unfoldable pub insert_account : TreasuryAccount → Tables → Result ((Unit {0}) × Tables)
insert_account a t =
    if any (has_account_id a.account_id) t.accounts
    then ok (tt, t)
    else if any (λ (b : TreasuryAccount). str_eq b.wallet_address a.wallet_address) t.accounts
    then err unique_violation
    else if any (str_eq a.owner_id) t.user_ids
    then ok (tt, record t { accounts = a ∷ t.accounts })
    else err foreign_key_violation

unfoldable pub create_account : TreasuryAccount → Io Tables (Unit {0})
unfolding query insert_account
create_account a = query (insert_account a)

-- An order has a new id, and refers to a stored quote and to an account.
unfoldable pub insert_order : OrderRow → Tables → Result ((Unit {0}) × Tables)
insert_order o t =
    if any (has_order_id o.order_id) t.orders
    then err unique_violation
    else if any (str_eq o.quote_id) t.quote_ids
    then if any (has_account_id o.account_id) t.accounts
      then ok (tt, record t { orders = o ∷ t.orders })
      else err foreign_key_violation
    else err foreign_key_violation

unfoldable pub create_order : OrderRow → Io Tables (Unit {0})
unfolding query insert_order
create_order o = query (insert_order o)

unfoldable pub get_order : String → Io Tables (Option OrderRow)
unfolding read query
get_order id = read (λ t. find (has_order_id id) t.orders)

abbrev pub with_status : OrderStatus → Option ℕ → OrderRow → OrderRow
with_status status settled_at o = record o { status = status; settled_at = settled_at }

-- `UPDATE … WHERE order_id = $1`: without a date the settlement date is cleared.
unfoldable pub update_order_status : String → OrderStatus → Option ℕ → Io Tables (Unit {0})
unfolding write
update_order_status id status settled_at = write (λ t. record t {
  orders = map (λ o. if has_order_id id o then with_status status settled_at o else o) t.orders;
})

abbrev pub with_mode : TreasuryMode → ℕ → TreasuryAccount → TreasuryAccount
with_mode mode now a = record a {
  mode = mode;
  policy_version = a.policy_version + 1;
  updated_at = now;
}

unfoldable pub update_account_mode : String → TreasuryMode → ℕ → Io Tables (Unit {0})
unfolding write
update_account_mode id mode now = write (λ t. record t {
  accounts = map (λ a. if has_account_id id a then with_mode mode now a else a) t.accounts;
})
