-- ===== src/Webhooks/Users/Signed.antt =====
-- What the comparison of signatures tells (apps/api/src/webhooks/onfido.webhook.ts and
-- chainalysis.webhook.ts).
use genesis_reserve_smarter.Base.{
  ◌≡◌, refl, String, Option, none, some, true, false, str_eq, eq_iff, arith,
}
use genesis_reserve_smarter.Webhooks.Users.{has_signature}

-- A key is set and is not empty, and the signature is the one that it gives.
abbrev pub IsSigned : (String → String) → Option String → Option String → Type 0
IsSigned expected key signature =
    (k : String) × (g : String) × (key ≡ some k)
    × (signature ≡ some g)
    × (str_eq k "" ≡ false)
    × (g ≡ expected k)

pub has_signature-IsSigned :
    (expected : String → String) (key signature : Option String)
    → has_signature expected key signature ≡ true
    → IsSigned expected key signature
has_signature-IsSigned expected none signature h = cc h
has_signature-IsSigned expected (some k) none h = cc h
has_signature-IsSigned expected (some k) (some g) h =
    (k, g, refl, refl, ground (arith, h), ground (arith, h, eq_iff g (expected k)))
