-- ===== src/Webhooks/ZeroHash/Handler.antt =====
-- `zeroHashWebhookHandler`, `processZeroHashEvent` and the signature check
-- (apps/api/src/webhooks/zerohash.webhook.ts).
use genesis_reserve_smarter.Base.{
  ℕ, String, Option, none, some, Bool, true, false, ◌&&◌, ◌||◌, List, [], ◌∷◌, str_eq,
  if◌then◌else◌, not, length, ◌==◌,
}
use genesis_reserve_smarter.Base.Json.{Json, null, text, literal, obj, Fields, end, field}
use genesis_reserve_smarter.Effect.{Io, Outcome, done, threw, pure, ◌>>=◌, ◌>>◌, around}
use genesis_reserve_smarter.Webhooks.ZeroHash.{
  State, on_tables, InternalStatus, Mapped, unknown, informational, status, provider_status,
  apply_order_transition, publish_order_event, mark_processed, insert_event_record,
}

-- `payload.key`
unfoldable pub property : String → Fields → Json
property key end = null
property key (field k v rest) = if str_eq k key then v else property key rest

-- The text that `String(…)` makes of a truthy value; a falsy one gives the empty text.
abbrev pub truthy_text : Json → String
truthy_text null = ""
truthy_text (text s) = s
truthy_text (literal s) = if str_eq s "0" || str_eq s "false" then "" else s
truthy_text (obj _) = "[object Object]"

-- `a || b`
abbrev pub or_text : String → String → String
or_text a b = if str_eq a "" then b else a

-- `payload.message || payload`: a text or a number has no properties of the names asked for.
abbrev pub message_of : Json → Fields → Fields
message_of (obj m) payload = m
message_of null payload = payload
message_of (text s) payload = if str_eq s "" then payload else end
message_of (literal s) payload = if str_eq s "0" || str_eq s "false" then payload else end

unfoldable pub transfer_id_of : Fields → String
unfolding property
transfer_id_of payload =
    let msg = message_of (property "message" payload) payload in
    or_text (truthy_text (property "id" msg)) (
      or_text (truthy_text (property "transferId" msg)) (
        or_text (truthy_text (property "transfer_id" msg))
          (truthy_text (property "withdrawal_id" msg))))

unfoldable pub provider_status_of : Fields → String
unfolding property
provider_status_of payload =
    let msg = message_of (property "message" payload) payload in
    or_text (truthy_text (property "status" msg)) (truthy_text (property "on_chain_status" msg))

pub record Request : Type 0 where
  pub signature : Option String
  pub raw_body : Option String
  pub event_id : String
  pub event_type : String
  pub payload : Fields

-- What the response says: its status, and whether the event was a duplicate.
pub record Response : Type 0 where
  pub code : ℕ
  pub duplicate : Bool

abbrev pub answer : ℕ → Response
answer code = record { code = code; duplicate = false }

pub record Config : Type 0 where
  -- ZEROHASH_WEBHOOK_SECRET
  pub secret : Option String
  -- createHmac('sha256', secret).update(body).digest('hex')
  pub hmac : String → String → String
  -- Buffer.from(signature.toLowerCase().replace(/^sha256=/, ''), 'hex'), and for the digest
  pub signature_bytes : String → List ℕ
  pub digest_bytes : String → List ℕ
  pub lower : String → String

abbrev pub same_bytes : List ℕ → List ℕ → Bool
same_bytes [] [] = true
same_bytes [] (y ∷ ys) = false
same_bytes (x ∷ xs) [] = false
same_bytes (x ∷ xs) (y ∷ ys) = (x == y) && same_bytes xs ys

-- With no secret configured, or an empty one, every request passes; an empty signature is none.
abbrev pub verify : Config → Option String → Option String → Option String → Bool
verify c none signature raw_body = true
verify c (some secret) none raw_body = str_eq secret ""
verify c (some secret) (some signature) none = str_eq secret ""
verify c (some secret) (some signature) (some body) =
    let a = c.signature_bytes signature in
    let b = c.digest_bytes (c.hmac secret body) in
    str_eq secret "" || (not (str_eq signature "") && (length a == length b) && same_bytes a b)

unfoldable pub verify_signature : Config → Request → Bool
verify_signature c req = verify c c.secret req.signature req.raw_body

module _ (c : Config) where
  -- The part inside `withTransaction`.
  abbrev pub settle_transfer : InternalStatus → Fields → String → Io State (Unit {0})
  settle_transfer new payload record_id = do
    order_id ←
        on_tables (
          apply_order_transition (transfer_id_of payload) new
            (c.lower (provider_status_of payload)))
    on_tables (mark_processed record_id)
    publish_order_event new order_id

  unfoldable pub process_event : Mapped → Fields → String → Io State (Unit {0})
  process_event informational payload record_id = on_tables (mark_processed record_id)
  process_event unknown payload record_id = on_tables (mark_processed record_id)
  process_event (status new) payload record_id =
      if str_eq (transfer_id_of payload) ""
      then on_tables (mark_processed record_id)
      else around (settle_transfer new payload record_id)

  abbrev pub respond : Outcome State (Unit {0}) → Outcome State Response
  respond (done _ w) = done (answer 200) w
  respond (threw e w) = done (answer 500) w

  abbrev pub route : Bool → String → Request → Io State Response
  route true record_id req = pure (record { code = 200; duplicate = true })
  route false record_id req =
      λ w. respond (process_event (provider_status req.event_type) req.payload record_id w)

  abbrev pub receive : String → Request → Io State Response
  receive new_id req = do
    (already_processed, record_id) ←
        on_tables (insert_event_record new_id req.event_id req.event_type)
    route already_processed record_id req

  -- The whole handler. `new_id` is the id that the server gives a new record.
  unfoldable pub zero_hash_webhook_handler : String → Request → Io State Response
  unfolding verify_signature
  zero_hash_webhook_handler new_id req =
      if not (verify_signature c req)
      then pure (answer 401)
      else if str_eq req.event_id "" || str_eq req.event_type ""
      then pure (answer 400)
      else receive new_id req
