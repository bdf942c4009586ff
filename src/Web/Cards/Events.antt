-- ===== src/Web/Cards/Events.antt =====
-- Which events of the processor are taken, and what one does
-- (apps/web/src/app/api/gr/_lib/card-service.ts).
use genesis_reserve_smarter.Base.{
  String, ◌≡◌, ◌≢◌, refl, Option, none, some, true, false, eq_iff, any, arith, Option-cases, inl,
  inr, ◌⊎◌,
}
use genesis_reserve_smarter.Web.Js.{Js}
use genesis_reserve_smarter.Web.Cards.{Settings, Store, Draws, is_stripe}
use genesis_reserve_smarter.Web.Cards.Signature.{
  Secrets, StripeSignature, Verified, verified, unverified, verify_webhook_signature, check_time,
  check_digest, abs, parse_stripe_style_signature, secure_hex_equal, expected_digest,
}
use genesis_reserve_smarter.Web.Cards.Processor.{
  Sdk, handle_processor_webhook, handler_of, if_verified,
}

-- The header names a moment within the tolerance, and holds the digest that the configured secret
-- gives for that moment and the payload.
abbrev pub IsSigned : Settings → Secrets → Option String → String → Type 0
IsSigned c k signature payload =
    (header : String) × (parsed : StripeSignature) × (secret : String) × (signature ≡ some header)
    × (parse_stripe_style_signature c k header ≡ some parsed)
    × (k.webhook_secret ≡ some secret)
    × (secret ≢ "")
    × (c.less k.tolerance_sec (abs c (c.minus k.now_sec parsed.timestamp)) ≡ false)
    × (any
          (λ (candidate : String).
            secure_hex_equal k candidate (expected_digest k secret parsed.timestamp payload))
          parsed.signatures
        ≡ true)

abbrev Digested : Secrets → StripeSignature → String → Option String → Type 0
Digested k parsed payload o =
    (secret : String) × (o ≡ some secret)
    × (secret ≢ "")
    × (any
          (λ (candidate : String).
            secure_hex_equal k candidate (expected_digest k secret parsed.timestamp payload))
          parsed.signatures
        ≡ true)

verified-Digested :
    (k : Secrets) (parsed : StripeSignature) (payload : String) (o : Option String)
    → check_digest k parsed payload o ≡ verified
    → Digested k parsed payload o
unfolding check_digest
verified-Digested k parsed payload none h = absurd (ground (arith, h))
verified-Digested k parsed payload (some secret) h =
    (secret, refl, ground (arith, h, eq_iff secret ""), ground (arith, h))

verified-IsSigned :
    (c : Settings) (k : Secrets) (signature : Option String) (payload : String)
    → verify_webhook_signature c k signature payload ≡ verified
    → IsSigned c k signature payload
unfolding verify_webhook_signature
verified-IsSigned c k none payload h = absurd (ground (arith, h))
verified-IsSigned c k (some header) payload h =
    let timed : check_time c k (parse_stripe_style_signature c k header) payload ≡ verified =
      ground (arith, h) in
    elim (Option-cases (parse_stripe_style_signature c k header)) [
      | inl e ↦ absurd (unfold check_time in ground (arith, timed, e))
      | inr (parsed, e) ↦
          let late = c.less k.tolerance_sec (abs c (c.minus k.now_sec parsed.timestamp)) in
          let now = rw e at timed in
          let in_time : late ≡ false = unfold check_time in ground (arith, now) in
          let digest : check_digest k parsed payload k.webhook_secret ≡ verified =
            unfold check_time in ground (arith, now) in
          let d = verified-Digested k parsed payload k.webhook_secret digest in
          (header, parsed, d.0, refl, e, d.1, d.2, in_time, d.3)
    ]

if_verified-refused :
    (sdk : Sdk) (d : Draws) (body : Option Js) (o : Verified) (s : Store)
    → o ≢ verified
    → ((if_verified sdk d body o s).0 ≡ s) × ((if_verified sdk d body o s).1.status ≡ 400)
unfolding if_verified
if_verified-refused sdk d body (unverified reason) s ne = (refl, refl)
if_verified-refused sdk d body verified s ne = absurd (ne refl)

Verified-cases : (o : Verified) → (o ≡ verified) ⊎ (o ≢ verified)
Verified-cases verified = inl refl
Verified-cases (unverified reason) = inr λ h. ground (arith, h)

-- Where Stripe is not the provider, an event whose header does not hold a fresh and right signature
-- of its text is answered 400 and changes nothing, whatever it says.
pub handle_processor_webhook-unsigned :
    (c : Settings) (k : Secrets) (sdk : Sdk) (d : Draws) (signature : Option String)
    (payload_raw : String) (body : Option Js) (s : Store)
    → is_stripe c ≡ false
    → (IsSigned c k signature payload_raw → ⊥)
    → ((handle_processor_webhook c k sdk d signature payload_raw body s).0 ≡ s)
      × ((handle_processor_webhook c k sdk d signature payload_raw body s).1.status ≡ 400)
unfolding handle_processor_webhook handler_of
handle_processor_webhook-unsigned c k sdk d signature payload_raw body s mock forged = rw mock (
    if_verified-refused sdk d body (verify_webhook_signature c k signature payload_raw) s
      λ h. forged (verified-IsSigned c k signature payload_raw h))
