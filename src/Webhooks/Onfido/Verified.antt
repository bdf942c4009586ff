-- ===== src/Webhooks/Onfido/Verified.antt =====
-- What the receiver of identity checks leaves, on every branch and whatever fails, and that a clear
-- check opens the KYC gate (apps/api/src/webhooks/onfido.webhook.ts).
use genesis_reserve_smarter.Base.{
  ◌↔◌, some-injective, ℕ, ◌≡◌, ◌⊎◌, inl, inr, refl, sym, subst, ap, String, Option, none, some,
  true, false, map, any, str_eq, if◌then◌else◌, ◌&&◌, not, Bool-cases, eq_iff, arith,
}
use genesis_reserve_smarter.Database.{IdentityCase, SanctionStatus}
use genesis_reserve_smarter.Effect.{
  World, Outcome, done, threw, pure, ◌>>◌, read, write, with_transaction,
}
use genesis_reserve_smarter.Effect.Leads.{
  Closes, Leads, Closes-mono, read-Leads, write-Leads, or_else-Leads, >>=-Leads,
  with_transaction-Leads,
}
use genesis_reserve_smarter.Webhooks.Users.{
  Event, UserStatus, State, with_audit, with_event, publish, has_signature, kyc_complete,
}
use genesis_reserve_smarter.Webhooks.Users.Signed.{IsSigned, has_signature-IsSigned}
use genesis_reserve_smarter.Webhooks.Onfido.{
  Config, Check, Request, Applicant, Answer, processed_answer, is_passed, is_text, level_of,
  applicant_of, with_judged, with_user, store_result, or_audit, activate_on_chain, try_activate,
  settle_check, process_check, onfido_webhook_handler, verify_onfido_signature, activation_of,
}

-- The rows that the gates read: what is done after the transaction leaves them.
abbrev pub Kept : State → State → Type 0
Kept s t =
    (t.tables.identity_cases ≡ s.tables.identity_cases)
    × (t.tables.accounts ≡ s.tables.accounts)
    × (t.tables.user_ids ≡ s.tables.user_ids)
    × (t.statuses ≡ s.statuses)

-- The state with the result of the check in the applicant's case and user.
abbrev pub recorded : Check → Applicant → State → State
recorded check a s = with_user check a (with_judged check a s)

module _ (c : Config) (s : State) where
  activate_on_chain-Leads :
      (wallet : String) (level : ℕ) (ref : String)
      → Leads (Kept s) (λ h t. Kept s t) (Kept s) (activate_on_chain c wallet level ref)
  unfolding activate_on_chain activation_of
  activate_on_chain-Leads wallet level ref w p = ground arith

  or_audit-Closes :
      (ref : String) (o : Outcome State String)
      → Closes (λ h t. Kept s t) (Kept s) o
      → Closes (λ h t. Kept s t) (λ t. ⊥) (or_audit c ref o)
  or_audit-Closes ref (done hash w) h = h
  or_audit-Closes ref (threw e w) h =
      or_else-Leads (Kept s) (λ x t. Kept s t) (λ t. ⊥)
        (write (with_audit "onfido-webhook" "KYC_ONCHAIN_FAILED" ref) >> pure none) none
        (>>=-Leads (Kept s) (λ u t. Kept s t) (λ x t. Kept s t) (Kept s)
          (write (with_audit "onfido-webhook" "KYC_ONCHAIN_FAILED" ref)) (λ u. pure none)
          (write-Leads (Kept s) (λ u t. Kept s t) (Kept s) _ (λ t k. k) (λ t k. k)) (λ u v k. k))
        w h

  try_activate-Leads :
      (check : Check) (a : Applicant)
      → Leads (Kept s) (λ h t. Kept s t) (λ t. ⊥) (try_activate c check a)
  unfolding try_activate
  try_activate-Leads check a w p =
      elim (Bool-cases (is_passed check && not (str_eq a.wallet_address ""))) [
        | inl tries ↦ rw tries (
            or_audit-Closes check.id
              (activate_on_chain c a.wallet_address (level_of check) check.id w)
              (activate_on_chain-Leads a.wallet_address (level_of check) check.id w p))
        | inr skips ↦ rw skips p
      ]

  publish-Leads : (e : Event) → Leads (Kept s) (λ u t. Kept s t) (λ t. ⊥) (publish e)
  unfolding publish
  publish-Leads e =
      or_else-Leads (Kept s) (λ u t. Kept s t) (λ t. ⊥) (write (with_event e)) tt
        (write-Leads (Kept s) (λ u t. Kept s t) (Kept s) _ (λ t k. k) (λ t k. k))

store_result-Leads :
    (check : Check) (a : Applicant) (s : State)
    → Leads (λ t. t ≡ s) (λ u t. t ≡ recorded check a s) (λ t. Unit {0}) (store_result check a)
unfolding store_result
store_result-Leads check a s =
    >>=-Leads (λ t. t ≡ s) (λ u t. t ≡ with_judged check a s) (λ u t. t ≡ recorded check a s)
      (λ t. Unit {0}) (write (with_judged check a)) (λ u. write (with_user check a))
      (write-Leads _ _ _ _ (λ t e. tt) (λ t e. ap (with_judged check a) e))
      (λ u. write-Leads _ _ _ _ (λ t e. tt) (λ t e. ap (with_user check a) e))

-- Both updates or neither; after them nothing that fails is thrown.
pub settle_check-Leads :
    (c : Config) (check : Check) (a : Applicant) (s : State)
    → Leads
        (λ t. t ≡ s)
        (λ ans t.
          (ans.code ≡ 200)
          × (ans.processed ≡ true)
          × (ans.passed ≡ some (is_passed check))
          × Kept (recorded check a s) t)
        (λ t. t ≡ s)
        (settle_check c check (some a))
unfolding settle_check
settle_check-Leads c check a s =
    let r = recorded check a s in
    let Q : Answer → State → Type 0 = λ ans t.
      (ans.code ≡ 200)
      × (ans.processed ≡ true)
      × (ans.passed ≡ some (is_passed check))
      × Kept r t in
    >>=-Leads (λ t. t ≡ s) (λ u t. t ≡ r) Q (λ t. t ≡ s) (with_transaction (store_result check a)) _
      (with_transaction-Leads (λ t. t ≡ s) (λ u t. t ≡ r) (λ t. t ≡ s) (store_result check a)
        (λ t e. e) (store_result-Leads check a s))
      λ u v e.
        Closes-mono Q Q (λ t. ⊥) (λ t. t ≡ s) _ (λ x t q. q) (λ t b. absurd b)
          (>>=-Leads (Kept r) (λ h t. Kept r t) Q (λ t. ⊥) (try_activate c check a) _
            (try_activate-Leads c r check a)
            (λ h.
              >>=-Leads (Kept r) (λ x t. Kept r t) Q (λ t. ⊥)
                (publish (
                  kyc_complete a.user_id a.wallet_address check.id (is_passed check)
                    (level_of check) h))
                (λ x. pure (processed_answer c check h)) (publish-Leads c r _)
                (λ x v' k. (refl, refl, refl, k)))
            v (subst (Kept r) (sym e) (refl, refl, refl, refl)))

abbrev pub status_for : Check → UserStatus
status_for check = if is_passed check then UserStatus.active else UserStatus.pending

-- The case with the result: only that of the identity changes.
abbrev pub with_result : Check → String → IdentityCase → IdentityCase
with_result check identity_id k =
    if str_eq k.identity_id identity_id
    then record k {
      kyc_level = if is_passed check then 2 else 0;
      liveness_pass = is_passed check;
      docs_verified = is_passed check;
      sanction_status = if is_passed check then SanctionStatus.pass else SanctionStatus.review;
    }
    else k

abbrev pub IsClear : Check → Type 0
IsClear check = (check.result ≡ some "clear") × (check.sub_result ≡ some "clear")

-- What a call that returns has done to the rows `s`.
abbrev pub Answered : Config → Request → State → Answer → State → Type 0
Answered c req s ans t =
    ((ans.processed ≡ false) × (t ≡ s))
    ⊎ ((check : Check) × (a : Applicant) × (ans.code ≡ 200)
        × (ans.passed ≡ some (is_passed check))
        × IsSigned (λ token. c.hmac token req.json) c.token req.signature
        × (req.action ≡ some "check.completed")
        × (req.check ≡ some check)
        × (applicant_of check.id s.tables ≡ some a)
        × (t.tables.identity_cases ≡ map (with_result check a.identity_id) s.tables.identity_cases)
        × ((is_passed check ≡ true) ↔ IsClear check)
        × ((user : String)
            → t.statuses user ≡ (
                if any (str_eq user) s.tables.user_ids && str_eq user a.user_id
                then status_for check
                else s.statuses user)))

is_text-eq : (s : String) (o : Option String) → is_text s o ≡ true → o ≡ some s
is_text-eq s none h = cc h
is_text-eq s (some x) h = ground (arith, h, eq_iff x s)

text_is : (s : String) (o : Option String) → o ≡ some s → is_text s o ≡ true
text_is s none h = cc h
text_is s (some x) h = (eq_iff x s).1 (some-injective x s h)

is_passed_iff : (check : Check) → (is_passed check ≡ true) ↔ IsClear check
unfolding is_passed
is_passed_iff check = (
  λ h. (
    is_text-eq "clear" check.result (ground (arith, h)),
    is_text-eq "clear" check.sub_result (ground (arith, h)),
  ),
  λ h. rw (text_is "clear" check.result h.0, text_is "clear" check.sub_result h.1) refl,
)

module _ (c : Config) (req : Request) (s : State)
    (signed : IsSigned (λ token. c.hmac token req.json) c.token req.signature)
    (completed : req.action ≡ some "check.completed") where
  process_check-Leads :
      (o : Option Check)
      → req.check ≡ o
      → Leads (λ t. t ≡ s) (Answered c req s) (λ t. t ≡ s) (process_check c o)
  unfolding settle_check
  process_check-Leads none e =
      read-Leads (λ t. t ≡ s) (Answered c req s) (λ t. t ≡ s) _ (λ t k. k) (λ t k. inl (refl, k))
  process_check-Leads (some check) e =
      >>=-Leads (λ t. t ≡ s) (λ found t. (t ≡ s) × (found ≡ applicant_of check.id s.tables))
        (Answered c req s) (λ t. t ≡ s) (read (λ (t : State). applicant_of check.id t.tables))
        (settle_check c check)
        (read-Leads _ _ _ _ (λ t k. k)
          (λ t k. (k, ap (λ (x : State). applicant_of check.id x.tables) k)))
        λ found.
          elim found
            as (λ f.
              Leads (λ t. (t ≡ s) × (f ≡ applicant_of check.id s.tables)) (Answered c req s)
                (λ t. t ≡ s) (settle_check c check f)) [
                  | none ↦ λ v k. inl (refl, k.0)
                  | some a ↦ λ v k.
                      Closes-mono _ (Answered c req s) _ (λ t. t ≡ s)
                        (settle_check c check (some a) v)
                        (λ ans t q. inr (
                          check,
                          a,
                          q.0,
                          q.2,
                          signed,
                          completed,
                          e,
                          sym k.1,
                          q.3.0,
                          is_passed_iff check,
                          λ user. ap (λ (f : String → UserStatus). f user) q.3.3,
                        ))
                        (λ t h. h) (settle_check-Leads c check a s v k.0)
                ]

-- Whatever fails: a call that throws leaves everything as it was, and so does one that answers
-- `processed: false`. Any other answers 200, only to a signed request for a completed check whose id
-- is that of a case, and then the cases of that identity have the check's result, a pass at level 2
-- for a result and sub-result of "clear" and a review at level 0 for any other, while every other case
-- stays as it was; and the user has the status of the result while every other user's status stays as it was.
pub onfido_webhook_handler-Answered :
    (c : Config) (req : Request) (w : World State)
    → Closes (Answered c req w.db) (λ t. t ≡ w.db) (onfido_webhook_handler c req w)
unfolding onfido_webhook_handler verify_onfido_signature
onfido_webhook_handler-Answered c req w =
    elim (Bool-cases (has_signature (λ token. c.hmac token req.json) c.token req.signature)) [
      | inr fails ↦ rw fails (inl (refl, refl))
      | inl signed ↦ elim (Bool-cases (is_text "check.completed" req.action)) [
        | inr other ↦ rw (signed, other) (inl (refl, refl))
        | inl completed ↦
            rw (signed, completed)
              (process_check-Leads c req w.db
                (has_signature-IsSigned (λ token. c.hmac token req.json) c.token req.signature
                  signed)
                (is_text-eq "check.completed" req.action completed) req.check refl w refl)
      ]
    ]
