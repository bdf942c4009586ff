-- ===== src/Webhooks/ZeroHash/Answers.antt =====
-- What a delivery to the Zero Hash receiver comes to
-- (apps/api/src/webhooks/zerohash.webhook.ts).
use genesis_reserve_smarter.Base.{
  ℕ, ◌≡◌, ◌↔◌, refl, Bool, String, Option, none, some, true, false, List, [], ◌∷◌, map, str_eq,
  Bool-cases, inl, inr, ◌||◌, ◌&&◌, if◌then◌else◌, find, length, ◌==◌, arith,
}
use genesis_reserve_smarter.Database.{OrderRow, OrderStatus, Tables, WebhookEvent}
use genesis_reserve_smarter.Effect.{
  World, done, world_of, around, query, read, write, control, committed,
}
use genesis_reserve_smarter.Webhooks.ZeroHash.{
  State, InternalStatus, status, provider_status, order_status, would_not_advance,
  apply_order_transition, mark_processed, insert_event_record, publish_order_event, is_event,
  event_name, set_status, order_of_transfer,
}
use genesis_reserve_smarter.Webhooks.ZeroHash.Handler.{
  Config, Request, zero_hash_webhook_handler, process_event, verify, same_bytes, transfer_id_of,
  provider_status_of, verify_signature, answer,
}

-- Equal bytes, and nothing else, pass the comparison.
same_bytes_iff : (a b : List ℕ) → ((length a == length b) && same_bytes a b ≡ true) ↔ (a ≡ b)
same_bytes_iff [] [] = (λ h. refl, λ e. refl)
same_bytes_iff [] (y ∷ ys) = ground arith
same_bytes_iff (x ∷ xs) [] = ground arith
same_bytes_iff (x ∷ xs) (y ∷ ys) = ground (arith, same_bytes_iff xs ys)

abbrev pub quiet : State → World State
quiet s = record { db = s; faults = [] }

-- A settled, failed or held order stays as it is, also under a compliance hold; every other order, a
-- canceled one included, takes the status of any event.
abbrev pub stays : OrderStatus → Bool
stays OrderStatus.settled = true
stays OrderStatus.failed = true
stays OrderStatus.compliance_hold = true
stays OrderStatus.in_transit = false
stays OrderStatus.pending = false
stays OrderStatus.reserved = false
stays OrderStatus.cancelled = false

abbrev pub named_status : InternalStatus → OrderStatus
named_status InternalStatus.in_transit = OrderStatus.in_transit
named_status InternalStatus.settled = OrderStatus.settled
named_status InternalStatus.failed = OrderStatus.failed
named_status InternalStatus.compliance_hold = OrderStatus.compliance_hold

each_status :
    (P : InternalStatus → Type 0)
    → P InternalStatus.in_transit
    → P InternalStatus.settled
    → P InternalStatus.failed
    → P InternalStatus.compliance_hold
    → (new : InternalStatus) → P new
each_status P a b c d InternalStatus.in_transit = a
each_status P a b c d InternalStatus.settled = b
each_status P a b c d InternalStatus.failed = c
each_status P a b c d InternalStatus.compliance_hold = d

would_not_advance-stays :
    (current : OrderStatus) (new : InternalStatus)
    → would_not_advance current (order_status new) ≡ stays current
would_not_advance-stays OrderStatus.settled =
    each_status
      (λ new. would_not_advance OrderStatus.settled (order_status new) ≡ stays OrderStatus.settled)
      refl refl refl refl
would_not_advance-stays OrderStatus.failed =
    each_status
      (λ new. would_not_advance OrderStatus.failed (order_status new) ≡ stays OrderStatus.failed)
      refl refl refl refl
would_not_advance-stays OrderStatus.compliance_hold =
    each_status
      (λ new.
        would_not_advance OrderStatus.compliance_hold (order_status new)
        ≡ stays OrderStatus.compliance_hold)
      refl refl refl refl
would_not_advance-stays OrderStatus.in_transit =
    each_status
      (λ new.
        would_not_advance OrderStatus.in_transit (order_status new) ≡ stays OrderStatus.in_transit)
      refl refl refl refl
would_not_advance-stays OrderStatus.pending =
    each_status
      (λ new. would_not_advance OrderStatus.pending (order_status new) ≡ stays OrderStatus.pending)
      refl refl refl refl
would_not_advance-stays OrderStatus.reserved =
    each_status
      (λ new.
        would_not_advance OrderStatus.reserved (order_status new) ≡ stays OrderStatus.reserved)
      refl refl refl refl
would_not_advance-stays OrderStatus.cancelled =
    each_status
      (λ new.
        would_not_advance OrderStatus.cancelled (order_status new) ≡ stays OrderStatus.cancelled)
      refl refl refl refl

order_status-eq : (new : InternalStatus) → order_status new ≡ named_status new
order_status-eq InternalStatus.in_transit = refl
order_status-eq InternalStatus.settled = refl
order_status-eq InternalStatus.failed = refl
order_status-eq InternalStatus.compliance_hold = refl

abbrev pub named_event : InternalStatus → String
named_event InternalStatus.in_transit = "remittance.in_transit"
named_event InternalStatus.settled = "remittance.settled"
named_event InternalStatus.failed = "remittance.failed"
named_event InternalStatus.compliance_hold = "remittance.compliance_hold"

event_name-eq : (new : InternalStatus) → event_name new ≡ named_event new
event_name-eq InternalStatus.in_transit = refl
event_name-eq InternalStatus.settled = refl
event_name-eq InternalStatus.failed = refl
event_name-eq InternalStatus.compliance_hold = refl

abbrev pub new_event : String → Request → WebhookEvent
new_event new_id req = record {
  record_id = new_id;
  provider = "ZERO_HASH";
  provider_event_id = req.event_id;
  event_type = req.event_type;
  signature_valid = true;
  processed = false;
}

abbrev pub marked : String → List WebhookEvent → List WebhookEvent
marked id =
    map (λ (r : WebhookEvent). if str_eq r.record_id id then record r { processed = true } else r)

-- The order as an event may leave it: as it is, or with the event's status.
abbrev pub advanced : OrderRow → InternalStatus → String → Tables → Tables
advanced o new provider t = if stays o.status then t else record t {
  orders =
      map
        (λ (r : OrderRow).
          if str_eq r.order_id o.order_id
          then record r { status = named_status new; provider_status = some provider }
          else r)
        t.orders;
}

-- The state after a new event for the transfer of an order: the record of the event is stored and
-- marked, the order is as `advanced` says, and the event of the new status is published either way.
abbrev pub settled_state :
    (lower : String → String) → String → Request → State → InternalStatus → OrderRow → State
settled_state lower new_id req s new o = record {
  tables = advanced o new (lower (provider_status_of req.payload)) (record s.tables {
    webhook_events = marked new_id (new_event new_id req ∷ s.tables.webhook_events);
  });
  published = (named_event new, o.order_id) ∷ s.published;
}

module _ (c : Config) where
  -- The signature is that of the body, under the key.
  abbrev pub IsSigned : String → Option String → Option String → Type 0
  IsSigned key signature raw_body =
      (g : String) × (b : String) × (signature ≡ some g)
      × (raw_body ≡ some b)
      × (str_eq g "" ≡ false)
      × (c.signature_bytes g ≡ c.digest_bytes (c.hmac key b))

  verify-IsSigned :
      (key : String) (signature raw_body : Option String)
      → str_eq key "" ≡ false
      → verify c (some key) signature raw_body ≡ true
      → IsSigned key signature raw_body
  verify-IsSigned key none raw_body full h = ground (arith, full, h)
  verify-IsSigned key (some g) none full h = ground (arith, full, h)
  verify-IsSigned key (some g) (some b) full h =
      (g, b, refl, refl, ground (arith, full, h), (same_bytes_iff _ _).0 (ground (arith, full, h)))

  -- With a secret configured that is not empty, a request whose signature is absent
  -- or empty, whose body is absent or whose
  -- signature bytes differ from the HMAC of the body is answered 401, and nothing has changed.
  pub handler-unsigned :
      (key new_id : String) (req : Request) (w : World State)
      → c.secret ≡ some key
      → str_eq key "" ≡ false
      → (IsSigned key req.signature req.raw_body → ⊥)
      → zero_hash_webhook_handler c new_id req w ≡ done (answer 401) w
  unfolding zero_hash_webhook_handler verify_signature
  handler-unsigned key new_id req w configured full unsigned =
      elim (Bool-cases (verify c (some key) req.signature req.raw_body)) [
        | inl passes ↦
            absurd (unsigned (verify-IsSigned key req.signature req.raw_body full passes))
        | inr fails ↦ rw (configured, fails) refl
      ]

  -- An event that is stored as processed leaves every table and the bus as they are, whatever fails.
  pub handler-duplicate :
      (new_id : String) (req : Request) (w : World State) (r : WebhookEvent)
      → find (is_event req.event_id) w.db.tables.webhook_events ≡ some r
      → r.processed ≡ true
      → (world_of (zero_hash_webhook_handler c new_id req w)).db ≡ w.db
  unfolding zero_hash_webhook_handler insert_event_record query read
  handler-duplicate new_id req w r here processed = ground (arith, here, processed)

  -- Without failures a genuine new event of a mapped type for the transfer of a stored order is
  -- answered 200: its record is stored and marked as processed, the order takes the event's status
  -- unless it is settled, failed or held already, and in both cases the event of that status is
  -- published.
  pub handler-settles :
      (new_id : String) (req : Request) (s : State) (new : InternalStatus) (o : OrderRow)
      → verify_signature c req ≡ true
      → (str_eq req.event_id "" || str_eq req.event_type "") ≡ false
      → find (is_event req.event_id) s.tables.webhook_events ≡ none
      → provider_status req.event_type ≡ status new
      → str_eq (transfer_id_of req.payload) "" ≡ false
      → order_of_transfer (transfer_id_of req.payload) s.tables ≡ some o
      → zero_hash_webhook_handler c new_id req (quiet s)
        ≡ done (answer 200) (quiet (settled_state c.lower new_id req s new o))
  unfolding zero_hash_webhook_handler insert_event_record query read write process_event
      apply_order_transition mark_processed publish_order_event around control committed set_status
  handler-settles new_id req s new o genuine full unseen known named here =
      let rule = would_not_advance-stays o.status new in
      elim (Bool-cases (stays o.status)) [
        | inl still ↦
            rw (genuine, full, unseen, known, named, here, rule, still, event_name-eq new) refl
        | inr moves ↦
            rw
              (
                genuine,
                full,
                unseen,
                known,
                named,
                here,
                rule,
                moves,
                order_status-eq new,
                event_name-eq new,
              )
              refl
      ]
