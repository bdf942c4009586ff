-- ===== src/Webhooks/Onfido/Gate.antt =====
-- A clear check and the KYC gate (apps/api/src/webhooks/onfido.webhook.ts and
-- apps/api/src/treasury/compliance.service.ts).
use genesis_reserve_smarter.Base.{
  ℕ, ◌≤◌, ◌≡◌, ◌⊎◌, inl, inr, refl, sym, subst, ap, ◌∙◌, String, Option, none, some, Bool, true,
  false, List, [], ◌∷◌, map, select, any, find, str_eq, get_or, if◌then◌else◌, ◌&&◌, not, arith,
  eq_refl, some-injective,
}
use genesis_reserve_smarter.Base.Finds.{any-select_found}
use genesis_reserve_smarter.Database.{TreasuryAccount, IdentityCase, Tables}
use genesis_reserve_smarter.Effect.{World, read}
use genesis_reserve_smarter.Effect.Leads.{Closes, Closes-mono, read-Leads, >>=-Leads}
use genesis_reserve_smarter.Compliance.{
  accounts_at, kyc_level_of, highest_level, max_of, is_blocked, owned_by,
}
use genesis_reserve_smarter.Webhooks.Users.{State}
use genesis_reserve_smarter.Webhooks.Onfido.{
  Config, Check, Request, Applicant, Answer, is_passed, level_of, applicant_in, applicant_from,
  first_applicant, applicant_of, judged, settle_check, onfido_webhook_handler,
  verify_onfido_signature,
}
use genesis_reserve_smarter.Webhooks.Onfido.Verified.{Kept, recorded, settle_check-Leads}

-- A level that is found stays below the highest.
below_max :
    (b : Bool) (n m : ℕ) (o : Option ℕ)
    → m ≤ get_or o 0
    → m ≤ get_or (if b then max_of n o else o) 0
below_max b n m none h = ground arith
below_max b n m (some k) h = ground arith

at_most_max : (n : ℕ) (o : Option ℕ) → n ≤ get_or (max_of n o) 0
at_most_max n none = ground arith
at_most_max n (some k) = ground arith

owner_at :
    (lower : String → String) (user : String) (accounts : List TreasuryAccount)
    (acc : TreasuryAccount)
    → find (λ (a : TreasuryAccount). str_eq a.owner_id user) accounts ≡ some acc
    → any
        (λ (a : TreasuryAccount). str_eq a.owner_id user)
        (select
          (λ (a : TreasuryAccount). str_eq (lower a.wallet_address) (lower acc.wallet_address))
          accounts)
      ≡ true
owner_at lower user accounts acc h =
    any-select_found _
      (λ (a : TreasuryAccount). str_eq (lower a.wallet_address) (lower acc.wallet_address)) accounts
      acc h (eq_refl (lower acc.wallet_address))

-- Where the first applicant comes from.
first_of :
    (b : Bool) (o rest : Option Applicant) (a : Applicant)
    → (if b then elim o [ none ↦ rest | some x ↦ some x ] else rest) ≡ some a
    → (o ≡ some a) ⊎ (rest ≡ some a)
first_of true none rest a h = inr h
first_of true (some x) rest a h = inl h
first_of false o rest a h = inr h

abbrev Owns : Option TreasuryAccount → IdentityCase → Applicant → Type 0
Owns account k a =
    (acc : TreasuryAccount) × (account ≡ some acc)
    × (a ≡ record {
      identity_id = k.identity_id;
      user_id = k.user_id;
      wallet_address = acc.wallet_address;
    })

applicant_from-Owns :
    (k : IdentityCase) (o : Option TreasuryAccount) (a : Applicant)
    → applicant_from k o ≡ some a
    → Owns o k a
applicant_from-Owns k none a h = cc h
applicant_from-Owns k (some acc) a h = (acc, refl, sym (some-injective _ _ h))

judged_level :
    (check : Check) (id : String) (k : IdentityCase)
    → k.identity_id ≡ id
    → (judged check id k).kyc_level ≡ level_of check
judged_level check id k e =
    subst (λ i. (judged check i k).kyc_level ≡ level_of check) e (rw (eq_refl k.identity_id) refl)

-- The applicant's user owns an account at the applicant's wallet.
owner-first_applicant :
    (lower : String → String) (id : String) (a : Applicant) (accounts : List TreasuryAccount)
    (cases : List IdentityCase)
    → first_applicant id accounts cases ≡ some a
    → any
        (λ (x : TreasuryAccount). str_eq x.owner_id a.user_id)
        (select
          (λ (x : TreasuryAccount). str_eq (lower x.wallet_address) (lower a.wallet_address))
          accounts)
      ≡ true
unfolding first_applicant
owner-first_applicant lower id a accounts [] h = cc h
owner-first_applicant lower id a accounts (k ∷ ks) h =
    elim (first_of (str_eq k.provider_ref id) (applicant_in accounts k) _ a h) [
      | inr later ↦ owner-first_applicant lower id a accounts ks later
      | inl here ↦
          let (acc, found, same) = applicant_from-Owns k _ a here in
          subst
            (λ (x : Applicant).
              any (λ (y : TreasuryAccount). str_eq y.owner_id x.user_id)
                (select
                  (λ (y : TreasuryAccount).
                    str_eq (lower y.wallet_address) (lower x.wallet_address))
                  accounts)
              ≡ true)
            (sym same) (owner_at lower k.user_id accounts acc found)
    ]

module _ (check : Check) (a : Applicant) (p : IdentityCase → Bool)
    (takes : (k : IdentityCase)
      → k.user_id ≡ a.user_id
      → k.identity_id ≡ a.identity_id
      → p (judged check a.identity_id k) ≡ true) where
  level_of-first_applicant :
      (id : String) (accounts : List TreasuryAccount) (cases : List IdentityCase)
      → first_applicant id accounts cases ≡ some a
      → level_of check ≤ get_or (highest_level p (map (judged check a.identity_id) cases)) 0
  unfolding first_applicant highest_level
  level_of-first_applicant id accounts [] h = cc h
  level_of-first_applicant id accounts (k ∷ ks) h =
      let rest = highest_level p (map (judged check a.identity_id) ks) in
      elim (first_of (str_eq k.provider_ref id) (applicant_in accounts k) _ a h) [
        | inr later ↦
            below_max (p (judged check a.identity_id k)) (judged check a.identity_id k).kyc_level
              (level_of check) rest (level_of-first_applicant id accounts ks later)
        | inl here ↦
            let (acc, found, same) = applicant_from-Owns k _ a here in
            let of_case : k.identity_id ≡ a.identity_id =
              ap (λ (x : Applicant). x.identity_id) (sym same) in
            let of_user : k.user_id ≡ a.user_id = ap (λ (x : Applicant). x.user_id) (sym same) in
            rw (takes k of_user of_case) (
              subst (λ n. level_of check ≤ get_or (max_of n rest) 0)
                (sym (judged_level check a.identity_id k of_case))
                (at_most_max (level_of check) rest))
      ]

-- The gate's predicate after the check.
abbrev holds : (String → String) → String → Tables → IdentityCase → Bool
holds lower wallet t k =
    owned_by (accounts_at lower wallet t) t.user_ids k.user_id && not (is_blocked k.sanction_status)

judged-holds :
    (lower : String → String) (check : Check) (user id wallet : String) (t : Tables)
    (k : IdentityCase)
    → is_passed check ≡ true
    → any (str_eq user) t.user_ids ≡ true
    → any (λ (x : TreasuryAccount). str_eq x.owner_id user) (accounts_at lower wallet t) ≡ true
    → k.user_id ≡ user
    → k.identity_id ≡ id
    → holds lower wallet t (judged check id k) ≡ true
judged-holds lower check user id wallet t k clear known owner u i =
    subst (λ j. holds lower wallet t (judged check j k) ≡ true) i
      (let known' = subst (λ v. any (str_eq v) t.user_ids ≡ true) (sym u) known in
        let owner' =
          subst
            (λ v.
              any (λ (x : TreasuryAccount). str_eq x.owner_id v) (accounts_at lower wallet t)
              ≡ true)
            (sym u) owner in
        rw (eq_refl k.identity_id, clear, known', owner') refl)

-- The level that the gate reads after a clear check.
recorded-level :
    (lower : String → String) (check : Check) (a : Applicant) (s t : State)
    → is_passed check ≡ true
    → applicant_of check.id s.tables ≡ some a
    → any (str_eq a.user_id) s.tables.user_ids ≡ true
    → Kept (recorded check a s) t
    → 2 ≤ kyc_level_of lower a.wallet_address t.tables
unfolding kyc_level_of
recorded-level lower check a s t clear found known (cases, accounts, users, statuses) =
    let two : level_of check ≡ 2 = rw clear refl in
    rw (cases, accounts, users)
      (subst
        (λ n.
          n
          ≤ get_or
              (highest_level (holds lower a.wallet_address s.tables)
                (map (judged check a.identity_id) s.tables.identity_cases))
              0)
        two
        (level_of-first_applicant check a (holds lower a.wallet_address s.tables)
          (λ k u i.
            judged-holds lower check a.user_id a.identity_id a.wallet_address s.tables k clear known
              (owner-first_applicant lower check.id a s.tables.accounts s.tables.identity_cases
                found)
              u i)
          check.id s.tables.accounts s.tables.identity_cases found))

-- After a signed request for a completed check with a clear result, whose id is that of a case with
-- an account of a known user, either the call has thrown and everything is as it was, or the level
-- that the KYC gate of the screening service reads for the account's wallet is at least 2.
pub onfido_webhook_handler-kyc_level_of :
    (c : Config) (lower : String → String) (req : Request) (check : Check) (a : Applicant)
    (w : World State)
    → verify_onfido_signature c req ≡ true
    → req.action ≡ some "check.completed"
    → req.check ≡ some check
    → is_passed check ≡ true
    → applicant_of check.id w.db.tables ≡ some a
    → any (str_eq a.user_id) w.db.tables.user_ids ≡ true
    → Closes
        (λ ans t. 2 ≤ kyc_level_of lower a.wallet_address t.tables)
        (λ t. t ≡ w.db)
        (onfido_webhook_handler c req w)
unfolding onfido_webhook_handler
onfido_webhook_handler-kyc_level_of c lower req check a w signed completed some_check clear found
      known =
    let s = w.db in
    let Q : Answer → State → Type 0 = λ ans t. 2 ≤ kyc_level_of lower a.wallet_address t.tables in
    rw (signed, completed, some_check)
      (>>=-Leads (λ t. t ≡ s) (λ f t. (t ≡ s) × (f ≡ some a)) Q (λ t. t ≡ s)
        (read (λ (t : State). applicant_of check.id t.tables)) (settle_check c check)
        (read-Leads _ _ _ _ (λ t e. e)
          (λ t e. (e, ap (λ (x : State). applicant_of check.id x.tables) e ∙ found)))
        (λ f v k.
          subst (λ x. Closes Q (λ t. t ≡ s) (settle_check c check x v)) (sym k.1)
            (Closes-mono _ Q _ (λ t. t ≡ s) (settle_check c check (some a) v)
              (λ ans t q. recorded-level lower check a s t clear found known q.3) (λ t e. e)
              (settle_check-Leads c check a s v k.0)))
        w refl)
