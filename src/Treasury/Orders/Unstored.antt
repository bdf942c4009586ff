-- ===== src/Treasury/Orders/Unstored.antt =====
-- An order whose quote is in no row of remittance_quotes
-- (apps/api/src/treasury/treasury.service.ts).
use genesis_reserve_smarter.Base.{
  ◌≡◌, ◌∙◌, refl, ap, String, Option, none, some, Bool, true, false, str_eq, any, arith, Bool-cases,
  inl, inr,
}
use genesis_reserve_smarter.Base.Int.{ℤ}
use genesis_reserve_smarter.Base.Like.{cat}
use genesis_reserve_smarter.Database.{Tables, OrderRow, LedgerEntry, TreasuryAccount}
use genesis_reserve_smarter.Effect.{
  World, Outcome, done, threw, Io, Result, err, world_of, or_throw, ◌>>=◌, continue, query, write,
  next_fault, Error, unique_violation, foreign_key_violation,
}
use genesis_reserve_smarter.Effect.Atomic.{Returns, Ends}
use genesis_reserve_smarter.Effect.Always.{Always, >>=-Always, world_of-map_world}
use genesis_reserve_smarter.Ledger.Posting.{HashInput, PostParams, Moment, post_entry}
use genesis_reserve_smarter.Ledger.Posting.Outcome.{Booked, post_entry-Ends}
use genesis_reserve_smarter.Ledger.Orders.{insert_order, get_account, has_order_id}
use genesis_reserve_smarter.Ledger.Orders
use genesis_reserve_smarter.Compliance.Screens.{
  submit_travel_rule, insert_travel_rule, order_id_is_unique,
}
use genesis_reserve_smarter.Remittance.{FxQuote}
use genesis_reserve_smarter.Remittance.Payout.{
  PayoutResult, PayoutParams, Transfer, execute_payout, submit_money_gram, submit_circle_cctp,
  submit_zero_hash,
}
use genesis_reserve_smarter.Webhooks.ZeroHash.{State}
use genesis_reserve_smarter.Treasury.{
  ReserveRequest, ReserveResponse, RemittanceQuote, Memory, on_rows, cache_get,
}
use genesis_reserve_smarter.Treasury.Reserve.{ReserveInputs, reserve_funds}
use genesis_reserve_smarter.Treasury.Rows.{
  OnRows, OnRows-trans, on_rows-Always, or_throw-Always, get_account-Always, reserve_funds-Always,
}
use genesis_reserve_smarter.Treasury.Sound.{Screened-KeepsRest}
use genesis_reserve_smarter.Treasury.Orders.{
  CreateParams, OrderInputs, on_backend, open_quote, reservation_of, travel_rule_step, submit_for,
  order_row, persist_order, pay_out, with_reservation, with_quote, create_order,
}

-- The stored quotes stay.
abbrev SameQuotes : Tables → Tables → Type 0
SameQuotes t t' = t'.quote_ids ≡ t.quote_ids

SameQuotes-refl : (t : Tables) → SameQuotes t t
SameQuotes-refl t = refl

SameQuotes-trans : (t u v : Tables) → SameQuotes t u → SameQuotes u v → SameQuotes t v
SameQuotes-trans t u v h k = k ∙ h

posted_quotes :
    (digest : HashInput → String) (p : PostParams) (now : Moment) (t : Tables)
    (o : Outcome Tables LedgerEntry)
    → Ends (Booked digest p now t) t o
    → SameQuotes t (world_of o).db
posted_quotes digest p now t (done e w) (_, _, _, same) = ap (λ (u : Tables). u.quote_ids) same
posted_quotes digest p now t (threw e w) same = ap (λ (u : Tables). u.quote_ids) same

travel_rule-SameQuotes :
    (order_id sender name recipient : String) (amount : ℤ)
    → Always SameQuotes (submit_travel_rule order_id sender name recipient amount)
unfolding submit_travel_rule query insert_travel_rule order_id_is_unique
travel_rule-SameQuotes order_id sender name recipient amount w = ground arith

-- No payout route touches the stored quotes.
payout-SameQuotes :
    (upper : String → String) (answer : Result Transfer) (p : PayoutParams) (w : World State)
    → SameQuotes w.db.tables (world_of (execute_payout upper answer p w)).db.tables
unfolding execute_payout submit_money_gram submit_circle_cctp submit_zero_hash query write
payout-SameQuotes upper answer p w = ground arith

-- A call that never returns.
abbrev pub Never : {A : Type 0} → Outcome Memory A → Type 0
Never o = Returns (λ _ _. ⊥) o

module _ (id : String) where
  -- The quote is not stored.
  abbrev pub Unstored : Memory → Type 0
  Unstored s = any (str_eq id) s.backend.tables.quote_ids ≡ false

  Never-then :
      {A B : Type 0} (m : Io Memory A) (f : A → Io Memory B) (w : World Memory)
      → Unstored w.db
      → Always (OnRows SameQuotes SameQuotes-refl SameQuotes-trans) m
      → ((a : A) (v : World Memory) → Unstored v.db → Never (f a v))
      → Never ((m >>= f) w)
  Never-then m f w h keeps next = go (m w) (keeps w)
    where
      go :
          (o : Outcome Memory _)
          → SameQuotes w.db.backend.tables (world_of o).db.backend.tables
          → Never (continue o f)
      go (done a v) same = next a v (ap (any (str_eq id)) same ∙ h)
      go (threw e v) same = tt

abbrev Same : Memory → Memory → Type 0
Same = OnRows SameQuotes SameQuotes-refl SameQuotes-trans

Same-rows : {A : Type 0} (m : Io Tables A) → Always SameQuotes m → Always Same (on_rows m)
Same-rows = on_rows-Always SameQuotes SameQuotes-refl SameQuotes-trans

Same-or_throw : {A : Type 0} (r : Result A) → Always Same (or_throw r)
Same-or_throw = or_throw-Always SameQuotes SameQuotes-refl SameQuotes-trans

on_backend-Same :
    {A : Type 0} (m : Io State A)
    → ((w : World State) → SameQuotes w.db.tables (world_of (m w)).db.tables)
    → Always Same (on_backend m)
on_backend-Same m h w =
    let inner : World State = record { db = w.db.backend; faults = w.faults } in
    ap (λ (u : World Memory). u.db.backend.tables.quote_ids) (world_of-map_world _ (m inner))
    ∙ h inner

insert_order-unstored :
    (o : OrderRow) (t : Tables)
    → any (str_eq o.quote_id) t.quote_ids ≡ false
    → (e : Error) × (insert_order o t ≡ err e)
unfolding insert_order
insert_order-unstored o t h = elim (Bool-cases (any (has_order_id o.order_id) t.orders)) [
  | inl known ↦ (unique_violation, rw known refl)
  | inr fresh ↦ (foreign_key_violation, rw (fresh, h) refl)
]

module _ (digest : HashInput → String) (lower upper : String → String) (cast : String → Option ℤ)
    (p : CreateParams) where
  persist-Never :
      (q : RemittanceQuote) (r : ReserveResponse) (payout : PayoutResult) (w : World Memory)
      → Unstored p.quote_id w.db
      → Never (persist_order digest lower upper cast p q r payout w)
  unfolding Orders.create_order query
  persist-Never q r payout w h =
      let row = order_row p q r payout in
      let refused = insert_order-unstored row w.db.backend.tables h in
      elim (Bool-cases (next_fault w.faults)) [
        | inl down ↦ rw down tt
        | inr up ↦ rw (up, refused.1) tt
      ]

  pay_out-Never :
      (i : OrderInputs) (q : RemittanceQuote) (r : ReserveResponse) (fx : FxQuote)
      (w : World Memory)
      → Unstored p.quote_id w.db
      → Never (pay_out digest lower upper cast p i q r fx w)
  pay_out-Never i q r fx w h =
      let params : PayoutParams = record {
        order_id = p.quote_id;
        reservation_id = r.reservation_id;
        quote = fx;
        recipient_name = p.recipient_id;
      } in
      Never-then p.quote_id (on_backend (execute_payout upper i.transfer params))
        (persist_order digest lower upper cast p q r) w h
        (on_backend-Same (execute_payout upper i.transfer params)
          (payout-SameQuotes upper i.transfer params))
        (persist-Never q r)

  submit_for-Same :
      (q : RemittanceQuote) (name : String) (a : Option TreasuryAccount)
      → Always Same (submit_for p q name a)
  submit_for-Same q name none w = refl
  submit_for-Same q name (some a) w =
      Same-rows (submit_travel_rule p.quote_id a.wallet_address name p.recipient_id q.send_amount)
        (travel_rule-SameQuotes p.quote_id a.wallet_address name p.recipient_id q.send_amount) w

  travel_rule_step-Same :
      (q : RemittanceQuote) (b : Bool) (name : Option String)
      → Always Same (travel_rule_step p q b name)
  travel_rule_step-Same q false name w = refl
  travel_rule_step-Same q true none w = refl
  travel_rule_step-Same q true (some name) w =
      >>=-Always Same (OnRows-trans SameQuotes SameQuotes-refl SameQuotes-trans)
        (on_rows (get_account p.account_id)) (submit_for p q name)
        (Same-rows (get_account p.account_id)
          (get_account-Always SameQuotes SameQuotes-refl SameQuotes-trans p.account_id))
        (submit_for-Same q name) w

  with_reservation-Never :
      (i : OrderInputs) (q : RemittanceQuote) (r : ReserveResponse) (w : World Memory)
      → Unstored p.quote_id w.db
      → Never (with_reservation digest lower upper cast p i q r w)
  with_reservation-Never i q r w h =
      Never-then p.quote_id (travel_rule_step p q q.travel_rule_req p.originator_name)
        (λ _. or_throw i.fx >>= pay_out digest lower upper cast p i q r) w h
        (travel_rule_step-Same q q.travel_rule_req p.originator_name)
        λ _ v k.
          Never-then p.quote_id (or_throw i.fx) (pay_out digest lower upper cast p i q r) v k
            (Same-or_throw i.fx) (pay_out-Never i q r)

  reserve-Same :
      (req : ReserveRequest) (i : ReserveInputs)
      → Always Same (reserve_funds digest lower cast req i)
  reserve-Same =
      reserve_funds-Always SameQuotes SameQuotes-refl SameQuotes-trans digest lower cast
        (λ a now w.
          posted_quotes digest a now w.db (post_entry digest a now w)
            (post_entry-Ends digest a now w))
        λ address amount order_id now w.
          ap (λ (u : Tables). u.quote_ids)
            (Screened-KeepsRest lower cast address amount order_id now w)

  with_quote-Never :
      (i : OrderInputs) (q : RemittanceQuote) (w : World Memory)
      → Unstored p.quote_id w.db
      → Never (with_quote digest lower upper cast p i q w)
  with_quote-Never i q w h =
      let req : ReserveRequest = record {
        account_id = p.account_id;
        amount = q.send_amount;
        external_order_id = p.quote_id;
        expiry_seconds = none;
        idempotency_key = cat "res:" p.idempotency_key;
      } in
      Never-then p.quote_id (reserve_funds digest lower cast req i.reserve)
        (λ answer.
          or_throw (reservation_of answer) >>= with_reservation digest lower upper cast p i q)
        w h (reserve-Same req i.reserve)
        λ answer v k.
          Never-then p.quote_id (or_throw (reservation_of answer))
            (with_reservation digest lower upper cast p i q) v k
            (Same-or_throw (reservation_of answer)) (with_reservation-Never i q)

  -- While the quote of a request is in no row of remittance_quotes, creating its order never
  -- returns: whatever the statements do and the vault and the provider answer, it throws.
  pub create_order-Never :
      (i : OrderInputs) (w : World Memory)
      → Unstored p.quote_id w.db
      → Never (create_order digest lower upper cast p i w)
  unfolding create_order
  create_order-Never i w h =
      Never-then p.quote_id (cache_get p.quote_id)
        (λ c. or_throw (open_quote i.now p.quote_id c) >>= with_quote digest lower upper cast p i) w
        h (λ v. refl)
        λ c v k.
          Never-then p.quote_id (or_throw (open_quote i.now p.quote_id c))
            (with_quote digest lower upper cast p i) v k
            (Same-or_throw (open_quote i.now p.quote_id c)) (with_quote-Never i)
