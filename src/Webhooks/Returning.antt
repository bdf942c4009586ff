-- ===== src/Webhooks/Returning.antt =====
-- The receivers of identity checks and of alerts answer as long as no statement fails
-- (apps/api/src/webhooks/onfido.webhook.ts and chainalysis.webhook.ts).
use genesis_reserve_smarter.Base.{
  refl, ◌⊎◌, inl, inr, sym, subst, ℕ, ◌≡◌, String, Option, none, some, Bool, true, false, ◌&&◌, not,
  [], str_eq, if◌then◌else◌, arith,
}
use genesis_reserve_smarter.Effect.{World, Outcome, done, threw, Io, pure, query, or_else}
use genesis_reserve_smarter.Effect.Succeeds.{
  IsCalm, Succeeds, read-Succeeds, or_else-Succeeds, write-Succeeds, >>=-Succeeds,
  with_transaction-Succeeds,
}
use genesis_reserve_smarter.Webhooks.Users.{State, Event, publish}
use genesis_reserve_smarter.Webhooks.Onfido.{
  Check, Applicant, is_text, is_passed, level_of, store_result, or_audit, activate_on_chain,
  activation_of, try_activate, settle_check, process_check, onfido_webhook_handler,
  verify_onfido_signature, Config as OnfidoConfig, Request as OnfidoRequest,
}
use genesis_reserve_smarter.Webhooks.Chainalysis.{
  Config, Request, is_severe, log_alert, suspend, on_severe, chainalysis_webhook_handler,
  verify_chainalysis_signature,
}

if-Succeeds :
    {S A : Type 0} (b : Bool) (m k : Io S A)
    → Succeeds m
    → Succeeds k
    → Succeeds (if b then m else k)
if-Succeeds true m k h g = h
if-Succeeds false m k h g = g

publish-Succeeds : (e : Event) → Succeeds (publish e)
unfolding publish
publish-Succeeds e = or_else-Succeeds _ _ (write-Succeeds _)

module _ (c : OnfidoConfig) where
  -- An error of the chain, with no failure ahead.
  abbrev IsQuiet : Outcome State String → Type 0
  IsQuiet (done h w) = w.faults ≡ []
  IsQuiet (threw e w) = w.faults ≡ []

  activate_on_chain-IsQuiet :
      (wallet : String) (level : ℕ) (ref : String) (w : World State)
      → w.faults ≡ []
      → IsQuiet (activate_on_chain c wallet level ref w)
  unfolding activate_on_chain activation_of
  activate_on_chain-IsQuiet wallet level ref w h = ground arith

  or_audit-IsCalm :
      (ref : String) (o : Outcome State String) → IsQuiet o → IsCalm (or_audit c ref o)
  or_audit-IsCalm ref (done hash w) h = h
  or_audit-IsCalm ref (threw e w) h =
      or_else-Succeeds _ _ (>>=-Succeeds _ _ (write-Succeeds _) (λ u v k. k)) w h

  try_activate-Succeeds : (check : Check) (a : Applicant) → Succeeds (try_activate c check a)
  unfolding try_activate
  try_activate-Succeeds check a =
      if-Succeeds (is_passed check && not (str_eq a.wallet_address "")) _ (pure none)
        (λ w h.
          or_audit-IsCalm check.id _
            (activate_on_chain-IsQuiet a.wallet_address (level_of check) check.id w h))
        (λ w h. h)

  settle_check-Succeeds :
      (check : Check) (found : Option Applicant) → Succeeds (settle_check c check found)
  unfolding settle_check store_result
  settle_check-Succeeds check none w h = h
  settle_check-Succeeds check (some a) w h =
      >>=-Succeeds _ _
        (with_transaction-Succeeds (store_result check a)
          (>>=-Succeeds _ _ (write-Succeeds _) (λ u. write-Succeeds _)))
        (λ u.
          >>=-Succeeds _ _ (try_activate-Succeeds check a)
            (λ hash. >>=-Succeeds _ _ (publish-Succeeds _) (λ x v k. k)))
        w h

  process_check-Succeeds : (o : Option Check) → Succeeds (process_check c o)
  process_check-Succeeds none = read-Succeeds _
  process_check-Succeeds (some check) =
      >>=-Succeeds _ _ (read-Succeeds _) (settle_check-Succeeds check)

  -- Where no statement fails the receiver of identity checks answers, whatever the request is and
  -- whatever the chain says, an error included.
  pub onfido_webhook_handler-Succeeds :
      (req : OnfidoRequest) (w : World State)
      → w.faults ≡ []
      → IsCalm (onfido_webhook_handler c req w)
  unfolding onfido_webhook_handler
  onfido_webhook_handler-Succeeds req =
      if-Succeeds (not (verify_onfido_signature c req)) _ _ (λ w h. h)
        (if-Succeeds (not (is_text "check.completed" req.action)) _ _ (λ w h. h)
          (process_check-Succeeds req.check))

log_alert-Succeeds : (action id : String) → Succeeds (log_alert action (some id))
unfolding log_alert query
log_alert-Succeeds action id w h = rw h refl

-- The audit row of an alert, caught where its id is missing.
caught-Succeeds : (action : String) (o : Option String) → Succeeds (or_else (log_alert action o) tt)
unfolding log_alert query
caught-Succeeds action none w h = rw h refl
caught-Succeeds action (some id) w h = rw h refl

on_severe-Succeeds :
    (c : Config) (now : ℕ) (req : Request)
    → (is_severe req.alert.severity ≡ false) ⊎ ((id : String) × (req.alert.alert_id ≡ some id))
    → Succeeds (on_severe c now req.alert)
unfolding suspend
on_severe-Succeeds c now req (inl calm) v h = rw calm h
on_severe-Succeeds c now req (inr (id, has)) w e =
    if-Succeeds (is_severe req.alert.severity) _ _
      (>>=-Succeeds _ _
        (with_transaction-Succeeds (suspend c now req.alert) (
          >>=-Succeeds _ _ (write-Succeeds _) (λ u. >>=-Succeeds _ _ (write-Succeeds _) (λ x.
            subst (λ o. Succeeds (log_alert "AML_SUSPENSION" o)) (sym has)
              (log_alert-Succeeds "AML_SUSPENSION" id)))))
        (λ u. publish-Succeeds _))
      (λ v h. h) w e

-- Where no statement fails the receiver of alerts answers, whatever the request is, unless it is a
-- severe alert with no id.
pub chainalysis_webhook_handler-Succeeds :
    (c : Config) (now : ℕ) (req : Request) (w : World State)
    → (is_severe req.alert.severity ≡ false) ⊎ ((id : String) × (req.alert.alert_id ≡ some id))
    → w.faults ≡ []
    → IsCalm (chainalysis_webhook_handler c now req w)
unfolding chainalysis_webhook_handler suspend
chainalysis_webhook_handler-Succeeds c now req w named =
    if-Succeeds (not (verify_chainalysis_signature c req)) _ _ (λ v h. h)
      (>>=-Succeeds _ _ (on_severe-Succeeds c now req named) (λ u.
        >>=-Succeeds _ _
          (if-Succeeds (str_eq req.alert.severity "MEDIUM") _ _
            (caught-Succeeds "AML_REVIEW_FLAG" req.alert.alert_id) (λ v h. h))
          (λ x v h. h)))
      w
