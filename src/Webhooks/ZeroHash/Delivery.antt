-- ===== src/Webhooks/ZeroHash/Delivery.antt =====
-- Deliveries to the Zero Hash receiver (apps/api/src/webhooks/zerohash.webhook.ts), any number of
-- them, in any order and with any failures.
use genesis_reserve_smarter.Base.{
  ◌≡◌, sym, subst, String, Option, none, some, Bool, true, false, List, [], ◌∷◌, str_eq, Bool-cases,
  inl, inr, not, ◌||◌,
}
use genesis_reserve_smarter.Base.Json.{Fields}
use genesis_reserve_smarter.Database.{OrderStatus, Tables}
use genesis_reserve_smarter.Effect.{Io, World, Outcome, done, threw, world_of, ◌>>◌}
use genesis_reserve_smarter.Effect.Always.{
  Always, world_of-map_world, >>=-Always, around-Always, write-Always,
}
use genesis_reserve_smarter.Webhooks.ZeroHash.{
  State, on_tables, InternalStatus, Mapped, unknown, informational, status, provider_status,
  apply_order_transition, mark_processed, insert_event_record, publish_order_event, with_published,
}
use genesis_reserve_smarter.Webhooks.ZeroHash.Handler.{
  Config, Request, zero_hash_webhook_handler, settle_transfer, process_event, receive, route,
  respond, transfer_id_of, provider_status_of, verify_signature,
}
use genesis_reserve_smarter.Webhooks.ZeroHash.Terminal.{
  KeepsFinal, KeepsFinal-refl, KeepsFinal-trans, AreDistinct, status_at, is_final,
  apply_order_transition-KeepsFinal, mark_processed-KeepsFinal, insert_event_record-KeepsFinal,
}

-- The relation on the tables of the whole state.
abbrev Keeps : State → State → Type 0
Keeps s s' = KeepsFinal s.tables s'.tables

Keeps-refl : (s : State) → Keeps s s
Keeps-refl s = KeepsFinal-refl s.tables

Keeps-trans : (s t u : State) → Keeps s t → Keeps t u → Keeps s u
Keeps-trans s t u = KeepsFinal-trans s.tables t.tables u.tables

on_tables-Keeps : {A : Type 0} (m : Io Tables A) → Always KeepsFinal m → Always Keeps (on_tables m)
on_tables-Keeps m h w =
    let v : World Tables = record { db = w.db.tables; faults = w.faults } in
    subst (λ (u : World State). KeepsFinal w.db.tables u.db.tables)
      (sym (world_of-map_world _ (m v))) (h v)

publish-Keeps :
    (new : InternalStatus) (order : Option String) → Always Keeps (publish_order_event new order)
unfolding publish_order_event
publish-Keeps new none w = Keeps-refl w.db
publish-Keeps new (some id) w =
    write-Always Keeps Keeps-refl (with_published new id) (λ s. Keeps-refl s) w

module _ (c : Config) where
  settle_transfer-Keeps :
      (new : InternalStatus) (payload : Fields) (record_id : String)
      → Always Keeps (settle_transfer c new payload record_id)
  settle_transfer-Keeps new payload record_id =
      let apply : Io Tables (Option String) =
        apply_order_transition (transfer_id_of payload) new
          (c.lower (provider_status_of payload)) in
      >>=-Always Keeps Keeps-trans (on_tables apply)
        (λ order. on_tables (mark_processed record_id) >> publish_order_event new order)
        (on_tables-Keeps apply (apply_order_transition-KeepsFinal _ new _))
        λ order.
          >>=-Always Keeps Keeps-trans (on_tables (mark_processed record_id))
            (λ _. publish_order_event new order)
            (on_tables-Keeps (mark_processed record_id) (mark_processed-KeepsFinal record_id))
            λ _. publish-Keeps new order

  marked-Keeps : (record_id : String) → Always Keeps (on_tables (mark_processed record_id))
  marked-Keeps record_id =
      on_tables-Keeps (mark_processed record_id) (mark_processed-KeepsFinal record_id)

  process_event-Keeps :
      (m : Mapped) (payload : Fields) (record_id : String)
      → Always Keeps (process_event c m payload record_id)
  unfolding process_event
  process_event-Keeps informational payload record_id w = marked-Keeps record_id w
  process_event-Keeps unknown payload record_id w = marked-Keeps record_id w
  process_event-Keeps (status new) payload record_id w =
      elim (Bool-cases (str_eq (transfer_id_of payload) "")) [
        | inl unnamed ↦ rw unnamed (marked-Keeps record_id w)
        | inr named ↦ rw named (
            around-Always Keeps Keeps-trans Keeps-refl (settle_transfer c new payload record_id)
              (settle_transfer-Keeps new payload record_id) w)
      ]

  respond-Keeps :
      (s : State) (o : Outcome State (Unit {0}))
      → Keeps s (world_of o).db
      → Keeps s (world_of (respond c o)).db
  respond-Keeps s (done _ w) h = h
  respond-Keeps s (threw e w) h = h

  route-Keeps :
      (processed : Bool) (record_id : String) (req : Request)
      → Always Keeps (route c processed record_id req)
  route-Keeps true record_id req w = Keeps-refl w.db
  route-Keeps false record_id req w =
      respond-Keeps w.db (process_event c (provider_status req.event_type) req.payload record_id w)
        (process_event-Keeps (provider_status req.event_type) req.payload record_id w)

  receive-Keeps : (new_id : String) (req : Request) → Always Keeps (receive c new_id req)
  receive-Keeps new_id req =
      let stored : Io Tables (Bool × String) =
        insert_event_record new_id req.event_id req.event_type in
      >>=-Always Keeps Keeps-trans (on_tables stored) (λ found. route c found.0 found.1 req)
        (on_tables-Keeps stored (insert_event_record-KeepsFinal new_id _ _))
        λ found. route-Keeps found.0 found.1 req

  handler-Keeps :
      (new_id : String) (req : Request) → Always Keeps (zero_hash_webhook_handler c new_id req)
  unfolding zero_hash_webhook_handler
  handler-Keeps new_id req w = elim (Bool-cases (not (verify_signature c req))) [
    | inl forged ↦ rw forged (Keeps-refl w.db)
    | inr genuine ↦ elim (Bool-cases (str_eq req.event_id "" || str_eq req.event_type "")) [
      | inl bare ↦ rw genuine (rw bare (Keeps-refl w.db))
      | inr full ↦ rw genuine (rw full (receive-Keeps new_id req w))
    ]
  ]

  -- Each request after the one before it, with the id that its record would get.
  abbrev pub deliver_all : List (String × Request) → World State → World State
  deliver_all [] w = w
  deliver_all ((new_id, req) ∷ later) w =
      deliver_all later (world_of (zero_hash_webhook_handler c new_id req w))

  deliver_all-Keeps :
      (requests : List (String × Request)) (w : World State)
      → Keeps w.db (deliver_all requests w).db
  deliver_all-Keeps [] w = Keeps-refl w.db
  deliver_all-Keeps ((new_id, req) ∷ later) w =
      let first = world_of (zero_hash_webhook_handler c new_id req w) in
      Keeps-trans w.db first.db (deliver_all later first).db (handler-Keeps new_id req w)
        (deliver_all-Keeps later first)

  -- Where order ids are distinct, an order that is SETTLED, FAILED or COMPLIANCE_HOLD has the same
  -- status after any list of requests to the handler, with any signatures, event types, payloads
  -- and failing statements; also after a compliance hold, which the header of the file lets any
  -- status take.
  pub deliver_all-status_at :
      (requests : List (String × Request)) (w : World State) (id : String) (s : OrderStatus)
      → AreDistinct w.db.tables.orders
      → status_at id w.db.tables ≡ some s
      → is_final s ≡ true
      → status_at id (deliver_all requests w).db.tables ≡ some s
  deliver_all-status_at requests w id s distinct here final =
      (deliver_all-Keeps requests w distinct).1 id s here final
