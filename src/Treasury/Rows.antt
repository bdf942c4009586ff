-- ===== src/Treasury/Rows.antt =====
-- A relation between the rows before and after a request, from those of the services that it calls
-- (apps/api/src/treasury/treasury.service.ts).
use genesis_reserve_smarter.Base.{
  ℕ, ◌≡◌, ◌∙◌, sym, ap, subst, String, Option, none, some, Bool, true, false, str_eq, find,
}
use genesis_reserve_smarter.Base.Int.{ℤ}
use genesis_reserve_smarter.Database.{Tables, TreasuryAccount, LedgerEntry}
use genesis_reserve_smarter.Effect.{World, Io, Result, ok, err, world_of, or_throw, ◌>>=◌}
use genesis_reserve_smarter.Effect.Always.{Always, >>=-Always, read-Always, world_of-map_world}
use genesis_reserve_smarter.Webhooks.ZeroHash.{State, on_tables}
use genesis_reserve_smarter.Ledger.Posting.{HashInput, PostParams, Moment, post_entry}
use genesis_reserve_smarter.Ledger.Orders.{get_account, has_account_id}
use genesis_reserve_smarter.Compliance.Screens.{ScreeningResult, screen_transfer}
use genesis_reserve_smarter.Treasury.{ReserveRequest, Cached, Memory, on_rows, cached_at}
use genesis_reserve_smarter.Treasury.Reserve.{
  ReserveInputs, Receipt, reserve_funds, reserve_uncached, reserve_from, reserve_screened,
  reserve_entry, remember, granted,
}

module _ (R : Tables → Tables → Type 0) (same : (t : Tables) → R t t)
    (step : (t u v : Tables) → R t u → R u v → R t v) where
  -- The relation on the rows of the whole state.
  abbrev pub OnRows : Memory → Memory → Type 0
  OnRows s s' = R s.backend.tables s'.backend.tables

  OnRows-refl : (s : Memory) → OnRows s s
  OnRows-refl s = same s.backend.tables

  pub OnRows-trans : (s t u : Memory) → OnRows s t → OnRows t u → OnRows s u
  OnRows-trans s t u = step s.backend.tables t.backend.tables u.backend.tables

  pub on_rows-Always : {A : Type 0} (m : Io Tables A) → Always R m → Always OnRows (on_rows m)
  on_rows-Always m h w =
      let inner : World State = record { db = w.db.backend; faults = w.faults } in
      let rows : World Tables = record { db = w.db.backend.tables; faults = w.faults } in
      let e : (world_of (on_rows m w)).db.backend.tables ≡ (world_of (m rows)).db =
        ap (λ (u : World Memory). u.db.backend.tables) (world_of-map_world _ (on_tables m inner))
        ∙ ap (λ (u : World State). u.db.tables) (world_of-map_world _ (m rows)) in
      subst (R w.db.backend.tables) (sym e) (h rows)

  pub or_throw-Always : {A : Type 0} (r : Result A) → Always OnRows (or_throw r)
  or_throw-Always (ok a) w = OnRows-refl w.db
  or_throw-Always (err e) w = OnRows-refl w.db

  pub get_account-Always : (id : String) → Always R (get_account id)
  unfolding get_account
  get_account-Always id w = read-Always R same (λ t. find (has_account_id id) t.accounts) w

  module _ (digest : HashInput → String) (lower : String → String) (cast : String → Option ℤ)
      (post : (p : PostParams) (now : Moment) → Always R (post_entry digest p now))
      (screen : (address : String) (amount : ℤ) (order_id : String) (now : ℕ)
        → Always R (screen_transfer lower cast address address amount order_id now)) where
    reserve_screened-Always :
        (req : ReserveRequest) (i : ReserveInputs) (r : ScreeningResult) (b : Bool)
        → Always OnRows (reserve_screened digest lower cast req i r b)
    unfolding reserve_screened
    reserve_screened-Always req i r false w = OnRows-refl w.db
    reserve_screened-Always req i r true w =
        let entry = λ (receipt : Receipt).
          post_entry digest (reserve_entry digest lower cast req receipt) i.moment in
        let finish = λ (receipt : Receipt) (e : LedgerEntry).
          remember digest lower cast req (granted digest lower cast req i.now receipt e) in
        >>=-Always OnRows OnRows-trans (or_throw i.vault)
          (λ receipt. on_rows (entry receipt) >>= finish receipt) (or_throw-Always i.vault)
          (λ receipt.
            >>=-Always OnRows OnRows-trans (on_rows (entry receipt)) (finish receipt)
              (on_rows-Always (entry receipt)
                (post (reserve_entry digest lower cast req receipt) i.moment))
              λ e v. OnRows-refl v.db)
          w

    reserve_from-Always :
        (req : ReserveRequest) (i : ReserveInputs) (a : Option TreasuryAccount)
        → Always OnRows (reserve_from digest lower cast req i a)
    unfolding reserve_from
    reserve_from-Always req i none w = OnRows-refl w.db
    reserve_from-Always req i (some a) w =
        let check =
          screen_transfer lower cast a.wallet_address a.wallet_address req.amount
            req.external_order_id i.now in
        >>=-Always OnRows OnRows-trans (on_rows check)
          (λ r. reserve_screened digest lower cast req i r (str_eq r.result "PASS"))
          (on_rows-Always check (screen a.wallet_address req.amount req.external_order_id i.now))
          (λ r. reserve_screened-Always req i r (str_eq r.result "PASS")) w

    reserve_uncached-Always :
        (req : ReserveRequest) (i : ReserveInputs) (c : Option Cached)
        → Always OnRows (reserve_uncached digest lower cast req i c)
    unfolding reserve_uncached
    reserve_uncached-Always req i none w =
        >>=-Always OnRows OnRows-trans (on_rows (get_account req.account_id))
          (reserve_from digest lower cast req i)
          (on_rows-Always (get_account req.account_id) (get_account-Always req.account_id))
          (reserve_from-Always req i) w
    reserve_uncached-Always req i (some c) w = OnRows-refl w.db

    pub reserve_funds-Always :
        (req : ReserveRequest) (i : ReserveInputs)
        → Always OnRows (reserve_funds digest lower cast req i)
    unfolding reserve_funds
    reserve_funds-Always req i w =
        reserve_uncached-Always req i (cached_at req.idempotency_key w.db.cache) w
