-- ===== src/Webhooks/ZeroHash/Terminal.antt =====
-- An order that has reached its end stays there, whatever is delivered
-- (apps/api/src/webhooks/zerohash.webhook.ts).
use genesis_reserve_smarter.Base.{
  ◌≡◌, refl, sym, ap, ◌∙◌, String, Option, none, some, Bool, true, false, List, [], ◌∷◌, map, find,
  str_eq, eq_iff, eq_refl, subst, arith, Bool-cases, inl, inr, is_some,
}
use genesis_reserve_smarter.Database.{WebhookEvent, OrderRow, OrderStatus, Tables}
use genesis_reserve_smarter.Effect.{World, world_of, advance, pure, query, write}
use genesis_reserve_smarter.Effect.Always.{
  Always, continue-Always, write_here, read_then, read-Always, write-Always, query-Always,
  >>=-Always,
}
use genesis_reserve_smarter.Ledger.Orders.{has_order_id}
use genesis_reserve_smarter.Webhooks.ZeroHash.{
  InternalStatus, order_status, would_not_advance, order_of_transfer, is_text, moved, set_status,
  with_processed, transition_of, apply_order_transition, mark_processed, insert_event_record,
  insert_event, is_event, record_of, store_event, event_record_of,
}

-- The primary key: no order id stands twice.
abbrev pub AreDistinct : List OrderRow → Type 0
AreDistinct [] = Unit
AreDistinct (o ∷ os) = (find (has_order_id o.order_id) os ≡ none) × AreDistinct os

abbrev status_in : Option OrderRow → Option OrderStatus
status_in none = none
status_in (some o) = some o.status

abbrev pub status_at : String → Tables → Option OrderStatus
status_at id t = status_in (find (has_order_id id) t.orders)

abbrev pub is_final : OrderStatus → Bool
is_final OrderStatus.settled = true
is_final OrderStatus.failed = true
is_final OrderStatus.compliance_hold = true
is_final OrderStatus.in_transit = false
is_final OrderStatus.pending = false
is_final OrderStatus.reserved = false
is_final OrderStatus.cancelled = false

-- Order ids stay distinct, and every order at its end stays there.
abbrev pub KeepsFinal : Tables → Tables → Type 0
KeepsFinal t t' =
    AreDistinct t.orders
    → AreDistinct t'.orders
      × ((id : String) (s : OrderStatus)
          → status_at id t ≡ some s
          → is_final s ≡ true
          → status_at id t' ≡ some s)

pub KeepsFinal-refl : (t : Tables) → KeepsFinal t t
KeepsFinal-refl t d = (d, λ id s h f. h)

pub KeepsFinal-trans : (t u v : Tables) → KeepsFinal t u → KeepsFinal u v → KeepsFinal t v
KeepsFinal-trans t u v h k d =
    let (d', h') = h d in let (d'', k') = k d' in (d'', λ id s e f. k' id s (h' id s e f) f)

-- A write that leaves the orders alone.
KeepsFinal-same : (t t' : Tables) → t'.orders ≡ t.orders → KeepsFinal t t'
KeepsFinal-same t t' e d = rw e (KeepsFinal-refl t d)

found-id :
    (id : String) (os : List OrderRow) {o : OrderRow}
    → find (has_order_id id) os ≡ some o
    → str_eq o.order_id id ≡ true
found-id id [] h = cc
found-id id (x ∷ xs) {o} h = ground (arith, h, found-id id xs {o = o})

found_first : (x : OrderRow) (xs : List OrderRow) → find (has_order_id x.order_id) (x ∷ xs) ≡ some x
found_first x xs = rw (eq_refl x.order_id) refl

-- In a table of distinct orders an order that any test finds is the one that its id finds.
found_self :
    (p : OrderRow → Bool) (os : List OrderRow) {o : OrderRow}
    → AreDistinct os
    → find p os ≡ some o
    → find (has_order_id o.order_id) os ≡ some o
found_self p [] d h = cc
found_self p (x ∷ xs) {o} d h = elim (Bool-cases (p x)) [
  | inl hit ↦
      let same : x ≡ o = (let e : some x ≡ some o = rw hit at h in cc e) in
      subst (λ (y : OrderRow). find (has_order_id y.order_id) (x ∷ xs) ≡ some y) same
        (found_first x xs)
  | inr miss ↦
      let later : find (has_order_id o.order_id) xs ≡ some o = found_self p xs d.1 (rw miss at h) in
      elim (Bool-cases (str_eq x.order_id o.order_id)) [
        | inl same ↦
            let twice : find (has_order_id x.order_id) xs ≡ some o =
              rw ((eq_iff x.order_id o.order_id).0 same) later in
            cc (twice, d.0)
        | inr other ↦ rw other later
      ]
]

module _ (k : String) (new : InternalStatus) (provider : String) where
  abbrev moved_in : Option OrderRow → Option OrderRow
  moved_in none = none
  moved_in (some o) = some (moved k new provider o)

  find-moved :
      (id : String) (os : List OrderRow)
      → find (has_order_id id) (map (moved k new provider) os)
        ≡ moved_in (find (has_order_id id) os)
  find-moved id [] = refl
  find-moved id (x ∷ xs) = ground (arith, find-moved id xs)

  moved_id : (o : OrderRow) → (moved k new provider o).order_id ≡ o.order_id
  moved_id o = ground arith

  moved-AreDistinct :
      (os : List OrderRow) → AreDistinct os → AreDistinct (map (moved k new provider) os)
  moved-AreDistinct [] d = tt
  moved-AreDistinct (x ∷ xs) d =
      let elsewhere : find (has_order_id x.order_id) (map (moved k new provider) xs) ≡ none =
        find-moved x.order_id xs ∙ ap moved_in d.0 in
      (
        ap (λ id. find (has_order_id id) (map (moved k new provider) xs)) (moved_id x) ∙ elsewhere,
        moved-AreDistinct xs d.1,
      )

  -- The status of an order that the update does not name stays.
  moved_elsewhere :
      (id : String) (r : Option OrderRow) (s : OrderStatus)
      → str_eq id k ≡ false
      → ((o : OrderRow) → r ≡ some o → str_eq o.order_id id ≡ true)
      → status_in r ≡ some s
      → status_in (moved_in r) ≡ some s
  moved_elsewhere id none s other named h = h
  moved_elsewhere id (some o) s other named h =
      let same : o.order_id ≡ id = (eq_iff o.order_id id).0 (named o refl) in
      ground (arith, same, other, h)

-- An order that may advance is not at its end.
may_advance :
    (current : OrderStatus) (new : InternalStatus)
    → would_not_advance current (order_status new) ≡ false
    → is_final current ≡ false
may_advance current new h = ground (arith, h)

-- Setting the status of an order that is not at its end.
set_status-KeepsFinal :
    (o : OrderRow) (new : InternalStatus) (provider : String) (t : Tables)
    → find (has_order_id o.order_id) t.orders ≡ some o
    → is_final o.status ≡ false
    → KeepsFinal t (set_status o.order_id new provider t)
unfolding set_status
set_status-KeepsFinal o new provider t here ongoing d = (
  moved-AreDistinct o.order_id new provider t.orders d,
  λ id s h final. elim (Bool-cases (str_eq id o.order_id)) [
    | inl same ↦
        let at_o : status_in (find (has_order_id o.order_id) t.orders) ≡ some s =
          subst (λ x. status_in (find (has_order_id x) t.orders) ≡ some s)
            ((eq_iff id o.order_id).0 same) h in
        let e : some o.status ≡ some s = ap status_in (sym here) ∙ at_o in
        let e' : o.status ≡ s = cc e in
        let clash : is_final o.status ≡ true = ap is_final e' ∙ final in cc (clash, ongoing)
    | inr other ↦
        ap status_in (find-moved o.order_id new provider id t.orders)
        ∙ moved_elsewhere o.order_id new provider id (find (has_order_id id) t.orders) s other
            (λ x e. found-id id t.orders e) h
  ],
)

-- What an event does to an order that its transfer finds.
transition-KeepsFinal :
    (new : InternalStatus) (provider : String) (r : Option OrderRow) (w : World Tables)
    → ((o : OrderRow)
        → r ≡ some o
        → AreDistinct w.db.orders
        → find (has_order_id o.order_id) w.db.orders ≡ some o)
    → KeepsFinal w.db (world_of (transition_of new provider r w)).db
transition-KeepsFinal new provider none w here = KeepsFinal-refl w.db
transition-KeepsFinal new provider (some o) w here =
    elim (Bool-cases (would_not_advance o.status (order_status new))) [
      | inl stays ↦ rw stays (KeepsFinal-refl w.db)
      | inr moves ↦ rw moves (
          continue-Always KeepsFinal KeepsFinal-trans w.db
            (write (set_status o.order_id new provider) w) (λ _. pure (some o.order_id))
            (write_here KeepsFinal KeepsFinal-refl (set_status o.order_id new provider) w λ d.
              set_status-KeepsFinal o new provider w.db (here o refl d)
                (may_advance o.status new moves) d)
            λ a v. KeepsFinal-refl v.db)
    ]

pub apply_order_transition-KeepsFinal :
    (transfer_id : String) (new : InternalStatus) (provider : String)
    → Always KeepsFinal (apply_order_transition transfer_id new provider)
unfolding apply_order_transition
apply_order_transition-KeepsFinal transfer_id new provider w =
    read_then KeepsFinal KeepsFinal-refl (order_of_transfer transfer_id)
      (transition_of new provider) w
      (transition-KeepsFinal new provider (order_of_transfer transfer_id w.db) (advance w)
        λ o e d. found_self (λ o. is_text transfer_id o.provider_transfer_id) w.db.orders d e)

pub mark_processed-KeepsFinal : (record_id : String) → Always KeepsFinal (mark_processed record_id)
unfolding mark_processed
mark_processed-KeepsFinal record_id =
    write-Always KeepsFinal KeepsFinal-refl (with_processed record_id)
      λ s. KeepsFinal-same s (with_processed record_id s) refl

insert_event-KeepsFinal :
    (new_id event_id event_type : String) (old : Option WebhookEvent) (t : Tables)
    → KeepsFinal t (insert_event new_id event_id event_type old t)
insert_event-KeepsFinal new_id event_id event_type none t =
    KeepsFinal-same t (insert_event new_id event_id event_type none t) refl
insert_event-KeepsFinal new_id event_id event_type (some r) t = KeepsFinal-refl t

store_event-KeepsFinal :
    (new_id event_id event_type : String)
    → Always KeepsFinal (query (store_event new_id event_id event_type))
store_event-KeepsFinal new_id event_id event_type =
    query-Always KeepsFinal KeepsFinal-refl (store_event new_id event_id event_type) λ s s' a e.
      let new =
        insert_event new_id event_id event_type (find (is_event event_id) s.webhook_events) s in
      let same : new ≡ s' = cc e in
      subst (KeepsFinal s) same (insert_event-KeepsFinal new_id event_id event_type _ s)

event_record_of-KeepsFinal :
    (new_id event_id : String) (known : Bool)
    → Always KeepsFinal (event_record_of new_id event_id known)
event_record_of-KeepsFinal new_id event_id true w =
    read-Always KeepsFinal KeepsFinal-refl
      (λ t. record_of (find (is_event event_id) t.webhook_events)) w
event_record_of-KeepsFinal new_id event_id false w = KeepsFinal-refl w.db

pub insert_event_record-KeepsFinal :
    (new_id event_id event_type : String)
    → Always KeepsFinal (insert_event_record new_id event_id event_type)
unfolding insert_event_record
insert_event_record-KeepsFinal new_id event_id event_type =
    >>=-Always KeepsFinal KeepsFinal-trans (query (store_event new_id event_id event_type))
      (λ old. event_record_of new_id event_id (is_some old))
      (store_event-KeepsFinal new_id event_id event_type)
      λ old. event_record_of-KeepsFinal new_id event_id (is_some old)
