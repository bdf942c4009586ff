-- ===== src/Web/Cards/Signature.antt =====
-- The signature of a webhook (apps/web/src/app/api/gr/_lib/card-service.ts): its header is read, and
-- its time and its digest are checked. HMAC-SHA256, `trim` and the decoding of hexadecimal digits are
-- parameters.
use Prim.Native.Char.{Char, code}
use genesis_reserve_smarter.Base.{
  ℕ, zero, suc, String, Option, none, some, Bool, true, false, not, ◌&&◌, List, [], ◌∷◌, map,
  str_eq, if◌then◌else◌, ◌==◌, find, select, any,
}
use genesis_reserve_smarter.Base.Like.{cat}
use genesis_reserve_smarter.Web.Js.{text}
use genesis_reserve_smarter.Web.Cards.{Settings}

-- `s.split(',')`
add_first : Char → List String → List String
add_first c [] = String.◌∷◌ c "" ∷ []
add_first c (part ∷ parts) = String.◌∷◌ c part ∷ parts

unfoldable pub split_commas : String → List String
unfolding add_first
split_commas String.[] = "" ∷ []
split_commas (String.◌∷◌ c s) =
    let parts = split_commas s in if code c == b',' then "" ∷ parts else add_first c parts

-- `s.startsWith(prefix)`
unfoldable pub starts_with : String → String → Bool
starts_with s String.[] = true
starts_with String.[] (String.◌∷◌ p prefix) = false
starts_with (String.◌∷◌ c s) (String.◌∷◌ p prefix) = (code c == code p) && starts_with s prefix

-- `s.slice(n)`
unfoldable pub slice : ℕ → String → String
slice zero s = s
slice (suc n) String.[] = ""
slice (suc n) (String.◌∷◌ c s) = slice n s

-- STRIPE_WEBHOOK_SECRET, the tolerance and the time in seconds, and the functions of the libraries.
pub record Secrets : Type 0 where
  pub webhook_secret : Option String
  pub tolerance_sec : String
  pub now_sec : String
  pub trim : String → String
  pub hmac_sha256_hex : String → String → String
  pub from_hex : String → List ℕ

pub record StripeSignature : Type 0 where
  pub timestamp : String
  pub signatures : List String

signature_of : Settings → Option String → List String → Option StripeSignature
signature_of c none v1_parts = none
signature_of c (some ts_part) [] = none
signature_of c (some ts_part) (part ∷ parts) =
    let timestamp = c.number_of (some (text (slice 2 ts_part))) in
    let signatures = select (λ (s : String). not (str_eq s "")) (map (slice 3) (part ∷ parts)) in
    if not (c.is_finite timestamp) then none else elim signatures [
      | [] ↦ none
      | s ∷ more ↦ some (record { timestamp = timestamp; signatures = s ∷ more })
    ]

-- `parseStripeStyleSignature(signature)`
unfoldable pub parse_stripe_style_signature : Settings → Secrets → String → Option StripeSignature
unfolding signature_of
parse_stripe_style_signature c k signature =
    let parts = map k.trim (split_commas signature) in
    signature_of c (find (λ (p : String). starts_with p "t=") parts)
      (select (λ (p : String). starts_with p "v1=") parts)

-- `timingSafeEqual` on buffers of one length.
unfoldable pub same_bytes : List ℕ → List ℕ → Bool
same_bytes [] [] = true
same_bytes (a ∷ left) [] = false
same_bytes [] (b ∷ right) = false
same_bytes (a ∷ left) (b ∷ right) = (a == b) && same_bytes left right

-- `secureHexEqual(a, b)`
unfoldable pub secure_hex_equal : Secrets → String → String → Bool
unfolding same_bytes
secure_hex_equal k a b = same_bytes (k.from_hex a) (k.from_hex b)

-- `Math.abs(n)`
unfoldable pub abs : Settings → String → String
abs c n = if c.less n "0" then c.minus "0" n else n

pub data Verified : Type 0 where
  verified : Verified
  unverified : String → Verified

-- The digest that the secret gives for the time and the payload.
unfoldable pub expected_digest : Secrets → String → String → String → String
expected_digest k secret timestamp payload =
    k.hmac_sha256_hex secret (cat timestamp (cat "." payload))

unfoldable pub check_digest : Secrets → StripeSignature → String → Option String → Verified
unfolding expected_digest secure_hex_equal
check_digest k parsed payload none = unverified "Webhook secret is not configured."
check_digest k parsed payload (some secret) =
    if str_eq secret ""
    then unverified "Webhook secret is not configured."
    else if not (
        any
          (λ (candidate : String).
            secure_hex_equal k candidate (expected_digest k secret parsed.timestamp payload))
          parsed.signatures)
    then unverified "Webhook signature verification failed."
    else verified

unfoldable pub check_time : Settings → Secrets → Option StripeSignature → String → Verified
unfolding check_digest abs
check_time c k none payload = unverified "Invalid webhook signature format."
check_time c k (some parsed) payload =
    if c.less k.tolerance_sec (abs c (c.minus k.now_sec parsed.timestamp))
    then unverified "Webhook signature timestamp outside tolerance."
    else check_digest k parsed payload k.webhook_secret

-- `verifyWebhookSignature(signature, payload)`
unfoldable pub verify_webhook_signature : Settings → Secrets → Option String → String → Verified
unfolding check_time
verify_webhook_signature c k none payload = unverified "Missing webhook signature."
verify_webhook_signature c k (some signature) payload =
    if str_eq signature ""
    then unverified "Missing webhook signature."
    else check_time c k (parse_stripe_style_signature c k signature) payload
