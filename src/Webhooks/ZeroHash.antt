-- ===== src/Webhooks/ZeroHash.antt =====
-- The Zero Hash receiver (apps/api/src/webhooks/zerohash.webhook.ts). HMAC, the hexadecimal reading
-- of a signature and the lower case of a text are parameters; the record's new id is an input. An
-- absent text field and an empty one are both falsy, and are both the empty text here. The
-- column provider_payload and the log are left out.
pub mod Terminal
pub mod Handler
pub mod Delivery
pub mod Answers
use genesis_reserve_smarter.Base.{
  ℕ, String, ◌≡◌, Option, none, some, Bool, true, false, ◌&&◌, ◌||◌, List, [], ◌∷◌, map, str_eq,
  if◌then◌else◌, any, find, not, length, ◌==◌, is_some, get_or,
}
use genesis_reserve_smarter.Base.Int.{ℤ, pos, negsuc, leb_ℤ}
use genesis_reserve_smarter.Base.Json.{Json, null, text, literal, obj, Fields, end, field}
use genesis_reserve_smarter.Database.{OrderRow, OrderStatus, WebhookEvent, Tables}
use genesis_reserve_smarter.Effect.{Io, Result, pure, ◌>>=◌, ◌>>◌, query, read, write, ok, focus}

-- The tables and the event bus, whose published events stand newest first.
pub record State : Type 0 where
  pub tables : Tables
  pub published : List (String × String)

abbrev pub on_tables : {A : Type 0} → Io Tables A → Io State A
on_tables = focus (λ s. s.tables) (λ t s. record s { tables = t })

pub data InternalStatus : Type 0 where
  in_transit settled failed compliance_hold : InternalStatus

-- What PROVIDER_STATUS_MAP holds at an event type, the names that every object has aside.
pub data Mapped : Type 0 where
  unknown informational : Mapped
  status : InternalStatus → Mapped

abbrev pub is_one_of : List String → String → Bool
is_one_of names s = any (str_eq s) names

unfoldable pub provider_status : String → Mapped
provider_status event_type =
    if is_one_of
      ("transfer.submitted" ∷ "transfer.approved" ∷ "transfer.pending" ∷ "transfer.in_transit"
        ∷ "transfer.broadcasting" ∷ "withdrawal.approved" ∷ "withdrawal.broadcasting" ∷ [])
      event_type
    then status in_transit
    else if is_one_of
        ("transfer.settled" ∷ "transfer.completed" ∷ "withdrawal.settled" ∷ "withdrawal.confirmed"
          ∷ "trade.terminated" ∷ "trade.settled" ∷ [])
        event_type
    then status settled
    else if is_one_of
        ("transfer.failed" ∷ "transfer.cancelled" ∷ "transfer.canceled" ∷ "withdrawal.failed" ∷ [])
        event_type
    then status failed
    else if is_one_of ("transfer.rejected" ∷ "transfer.compliance_hold" ∷ []) event_type
    then status compliance_hold
    else if is_one_of
        ("participant.approved" ∷ "participant.rejected" ∷ "participant.pending_approval" ∷ [])
        event_type
    then informational
    else unknown

abbrev pub order_status : InternalStatus → OrderStatus
order_status in_transit = OrderStatus.in_transit
order_status settled = OrderStatus.settled
order_status failed = OrderStatus.failed
order_status compliance_hold = OrderStatus.compliance_hold

-- `statusRank[order.status] ?? -1`
abbrev pub status_rank : OrderStatus → ℤ
status_rank OrderStatus.in_transit = pos 1
status_rank OrderStatus.settled = pos 2
status_rank OrderStatus.failed = pos 2
status_rank OrderStatus.compliance_hold = pos 2
status_rank OrderStatus.pending = negsuc 0
status_rank OrderStatus.reserved = negsuc 0
status_rank OrderStatus.cancelled = negsuc 0

abbrev pub is_in_transit : OrderStatus → Bool
is_in_transit OrderStatus.in_transit = true
is_in_transit OrderStatus.settled = false
is_in_transit OrderStatus.failed = false
is_in_transit OrderStatus.compliance_hold = false
is_in_transit OrderStatus.pending = false
is_in_transit OrderStatus.reserved = false
is_in_transit OrderStatus.cancelled = false

abbrev pub would_not_advance : OrderStatus → OrderStatus → Bool
would_not_advance current new =
    leb_ℤ (status_rank new) (status_rank current) && not (is_in_transit current)

abbrev pub is_text : String → Option String → Bool
is_text s none = false
is_text s (some r) = str_eq r s

abbrev pub order_of_transfer : String → Tables → Option OrderRow
order_of_transfer id t = find (λ (o : OrderRow). is_text id o.provider_transfer_id) t.orders

abbrev pub moved : String → InternalStatus → String → OrderRow → OrderRow
moved order_id new provider o =
    if str_eq o.order_id order_id
    then record o { status = order_status new; provider_status = some provider }
    else o

unfoldable pub set_status : String → InternalStatus → String → Tables → Tables
set_status order_id new provider t = record t {
  orders = map (moved order_id new provider) t.orders;
}

-- `applyOrderTransition`: the id of the order, also where its status is left alone.
abbrev pub transition_of : InternalStatus → String → Option OrderRow → Io Tables (Option String)
transition_of new provider none = pure none
transition_of new provider (some o) =
    if would_not_advance o.status (order_status new)
    then pure (some o.order_id)
    else (do write (set_status o.order_id new provider); pure (some o.order_id))

unfoldable pub apply_order_transition : String → InternalStatus → String → Io Tables (Option String)
unfolding read write
apply_order_transition transfer_id new provider = do
  order ← read (order_of_transfer transfer_id)
  transition_of new provider order

abbrev pub event_name : InternalStatus → String
event_name in_transit = "remittance.in_transit"
event_name settled = "remittance.settled"
event_name failed = "remittance.failed"
event_name compliance_hold = "remittance.compliance_hold"

abbrev pub with_published : InternalStatus → String → State → State
with_published new order_id s = record s { published = (event_name new, order_id) ∷ s.published }

unfoldable pub publish_order_event : InternalStatus → Option String → Io State (Unit {0})
unfolding write
publish_order_event new none = pure tt
publish_order_event new (some order_id) = write (with_published new order_id)

abbrev pub is_event : String → WebhookEvent → Bool
is_event event_id r = str_eq r.provider "ZERO_HASH" && str_eq r.provider_event_id event_id

abbrev pub with_processed : String → Tables → Tables
with_processed record_id t = record t {
  webhook_events =
      map
        (λ (r : WebhookEvent).
          if str_eq r.record_id record_id then record r { processed = true } else r)
        t.webhook_events;
}

unfoldable pub mark_processed : String → Io Tables (Unit {0})
unfolding write
mark_processed record_id = write (with_processed record_id)

-- Whether the event was processed, and the id of its record.
abbrev pub record_of : Option WebhookEvent → Bool × String
record_of none = (false, "")
record_of (some r) = (r.processed, r.record_id)

abbrev pub insert_event : String → String → String → Option WebhookEvent → Tables → Tables
insert_event new_id event_id event_type none t = record t {
  webhook_events =
      record {
        record_id = new_id;
        provider = "ZERO_HASH";
        provider_event_id = event_id;
        event_type = event_type;
        signature_valid = true;
        processed = false;
      }
      ∷ t.webhook_events;
}
insert_event new_id event_id event_type (some r) t = t

-- The insert, which gives back the record that was there.
abbrev pub store_event : String → String → String → Tables → Result (Option WebhookEvent × Tables)
store_event new_id event_id event_type t =
    let old = find (is_event event_id) t.webhook_events in
    ok (old, insert_event new_id event_id event_type old t)

-- `insertEventRecord`: the insert, and on a conflict the read of the record that is there.
abbrev pub event_record_of : String → String → Bool → Io Tables (Bool × String)
event_record_of new_id event_id true =
    read (λ t. record_of (find (is_event event_id) t.webhook_events))
event_record_of new_id event_id false = pure (false, new_id)

unfoldable pub insert_event_record : String → String → String → Io Tables (Bool × String)
unfolding query read
insert_event_record new_id event_id event_type = do
  existing ← query (store_event new_id event_id event_type)
  event_record_of new_id event_id (is_some existing)
