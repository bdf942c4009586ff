-- ===== src/Webhooks/Chainalysis/Suspended.antt =====
-- What the receiver of alerts leaves, on every branch and whatever fails, and that a severe alert
-- closes the sanctions gate (apps/api/src/webhooks/chainalysis.webhook.ts and
-- apps/api/src/treasury/compliance.service.ts).
use genesis_reserve_smarter.Base.{
  ℕ, ◌≡◌, ◌⊎◌, inl, inr, refl, subst, ap, String, Option, none, some, Bool, true, false, [], ◌∷◌,
  ◌++◌, map, select, any, str_eq, if◌then◌else◌, Bool-cases, eq_iff,
}
use genesis_reserve_smarter.Base.Like.{cat}
use genesis_reserve_smarter.Database.{Tables, TreasuryAccount}
use genesis_reserve_smarter.Effect.{World, pure, ◌>>◌, query, write, next_fault, with_transaction}
use genesis_reserve_smarter.Effect.Leads.{
  Closes, Leads, Closes-mono, query-Leads, write-Leads, or_else-Leads, >>=-Leads,
  with_transaction-Leads,
}
use genesis_reserve_smarter.Compliance.{accounts_at, owned_by}
use genesis_reserve_smarter.Webhooks.Users.{
  UserStatus, State, with_audit, with_event, publish, has_signature, sanction_hit,
}
use genesis_reserve_smarter.Webhooks.Users.Signed.{IsSigned, has_signature-IsSigned}
use genesis_reserve_smarter.Webhooks.Chainalysis.{
  Config, Alert, Request, Answer, is_severe, log_alert, with_screenings, with_suspended, suspend,
  on_severe, on_medium, chainalysis_webhook_handler, verify_chainalysis_signature,
}

module _ (c : Config) (now : ℕ) (alert : Alert) where
  -- The users of the tables who own an account at the address.
  abbrev pub is_owner : State → String → Bool
  is_owner s user = owned_by (accounts_at c.lower alert.address s.tables) s.tables.user_ids user

  -- The tables after a suspension: a blocked screening for each account of a user at the address, and
  -- an audit row of the alert.
  abbrev pub suspended_tables : String → Tables → Tables
  suspended_tables id t = record t {
    screenings =
        map
          (λ (a : TreasuryAccount). record {
            user_id = a.owner_id;
            screening_type = "SANCTION";
            result = "BLOCKED";
            lists_checked = "CHAINALYSIS" ∷ [];
            risk_score = 95;
            screened_at = now;
          })
          (select (λ (a : TreasuryAccount). any (str_eq a.owner_id) t.user_ids)
            (accounts_at c.lower alert.address t))
        ++ t.screenings;
    audit_log =
        record { actor = "chainalysis-webhook"; action = "AML_SUSPENSION"; object_ref = id }
        ∷ t.audit_log;
  }

  abbrev pub Suspended : State → State → Type 0
  Suspended s t =
      (id : String) × (alert.alert_id ≡ some id)
      × (t.tables ≡ suspended_tables id s.tables)
      × ((user : String)
          → t.statuses user ≡ (if is_owner s user then UserStatus.suspended else s.statuses user))

  log_alert-Leads :
      (action : String) (o : Option String) (s : State) (E : State → Type 0)
      → ((t : State) → t ≡ s → E t)
      → Leads
          (λ t. t ≡ s)
          (λ u t.
            (id : String) × (o ≡ some id) × (t ≡ with_audit "chainalysis-webhook" action id s))
          E
          (log_alert action o)
  unfolding log_alert query
  log_alert-Leads action none s E same w e = elim (Bool-cases (next_fault w.faults)) [
    | inl fails ↦ rw fails (same w.db e)
    | inr works ↦ rw works (same w.db e)
  ]
  log_alert-Leads action (some id) s E same w e =
      query-Leads (λ t. t ≡ s)
        (λ u t.
          (x : String) × (some id ≡ some x) × (t ≡ with_audit "chainalysis-webhook" action x s))
        E (λ t. (tt, with_audit "chainalysis-webhook" action id t)) same
        (λ t k. (id, refl, ap (with_audit "chainalysis-webhook" action id) k)) w e

  suspend-Leads :
      (s : State) → Leads (λ t. t ≡ s) (λ u t. Suspended s t) (λ t. Unit {0}) (suspend c now alert)
  unfolding suspend
  suspend-Leads s =
      let s₁ = with_screenings c now alert.address s in
      let s₂ = with_suspended c alert.address s₁ in
      let Q : Unit {0} → State → Type 0 = λ u t. Suspended s t in
      >>=-Leads (λ t. t ≡ s) (λ u t. t ≡ s₁) Q (λ t. Unit {0})
        (write (with_screenings c now alert.address))
        (λ u. write (with_suspended c alert.address) >> log_alert "AML_SUSPENSION" alert.alert_id)
        (write-Leads _ _ _ _ (λ t e. tt) (λ t e. ap (with_screenings c now alert.address) e))
        (λ u.
          >>=-Leads (λ t. t ≡ s₁) (λ x t. t ≡ s₂) Q (λ t. Unit {0})
            (write (with_suspended c alert.address))
            (λ x. log_alert "AML_SUSPENSION" alert.alert_id)
            (write-Leads _ _ _ _ (λ t e. tt) (λ t e. ap (with_suspended c alert.address) e))
            (λ x w e.
              Closes-mono _ Q (λ t. Unit {0}) (λ t. Unit {0}) _
                (λ y t q. (
                  q.0,
                  q.1,
                  ap (λ (z : State). z.tables) q.2,
                  λ user. ap (λ (z : State). z.statuses user) q.2,
                ))
                (λ t z. tt)
                (log_alert-Leads "AML_SUSPENSION" alert.alert_id s₂ (λ t. Unit {0}) (λ t k. tt) w
                  e)))

  pub on_severe-Leads :
      (s : State)
      → is_severe alert.severity ≡ true
      → Leads (λ t. t ≡ s) (λ u t. Suspended s t) (λ t. t ≡ s) (on_severe c now alert)
  unfolding publish
  on_severe-Leads s severe w e = rw severe (
      >>=-Leads (λ t. t ≡ s) (λ u t. Suspended s t) (λ u t. Suspended s t) (λ t. t ≡ s)
        (with_transaction (suspend c now alert))
        (λ u. publish (sanction_hit alert.alert_id alert.severity alert.address))
        (with_transaction-Leads (λ t. t ≡ s) (λ u t. Suspended s t) (λ t. t ≡ s)
          (suspend c now alert) (λ t k. k) (suspend-Leads s))
        (λ u.
          or_else-Leads (Suspended s) (λ x t. Suspended s t) (λ t. t ≡ s)
            (write (with_event (sanction_hit alert.alert_id alert.severity alert.address))) tt
            (write-Leads (Suspended s) (λ x t. Suspended s t) (Suspended s) _ (λ t k. k)
              (λ t k. k)))
        w e)

  -- What a call that returns has done to the rows `s`.
  abbrev pub Unsevere : State → State → Type 0
  Unsevere s t =
      (t ≡ s)
      ⊎ ((id : String) × (alert.alert_id ≡ some id)
          × (alert.severity ≡ "MEDIUM")
          × (t ≡ with_audit "chainalysis-webhook" "AML_REVIEW_FLAG" id s))

  on_medium-Leads :
      (s : State) → Leads (λ t. t ≡ s) (λ u t. Unsevere s t) (λ t. ⊥) (on_medium c alert)
  on_medium-Leads s w e = elim (Bool-cases (str_eq alert.severity "MEDIUM")) [
    | inr other ↦ rw other (inl e)
    | inl medium ↦ rw medium (
        or_else-Leads (λ t. t ≡ s) (λ u t. Unsevere s t) (λ t. ⊥)
          (log_alert "AML_REVIEW_FLAG" alert.alert_id) tt
          (λ v k.
            Closes-mono _ (λ u t. Unsevere s t) (λ t. t ≡ s) (Unsevere s) _
              (λ u t q. inr (q.0, q.1, (eq_iff alert.severity "MEDIUM").0 medium, q.2))
              (λ t q. inl q)
              (log_alert-Leads "AML_REVIEW_FLAG" alert.alert_id s (λ t. t ≡ s) (λ t q. q) v k))
          w e)
  ]

  pub severe-not_medium : is_severe alert.severity ≡ true → str_eq alert.severity "MEDIUM" ≡ false
  severe-not_medium severe = elim (Bool-cases (str_eq alert.severity "MEDIUM")) [
    | inr other ↦ other
    | inl medium ↦
        absurd
          (cc (subst (λ x. is_severe x ≡ true) ((eq_iff alert.severity "MEDIUM").0 medium) severe))
  ]

  -- Either no severe alert, or a severe one.
  abbrev pub Acted : State → State → Type 0
  Acted s t =
      ((is_severe alert.severity ≡ true) × Suspended s t)
      ⊎ ((is_severe alert.severity ≡ false) × Unsevere s t)

abbrev pub Handled : Config → ℕ → Request → State → Answer → State → Type 0
Handled c now req s ans t =
    ((ans.code ≡ 401) × (t ≡ s))
    ⊎ ((ans.code ≡ 200)
        × IsSigned (λ secret. cat "sha256=" (c.hmac secret req.json)) c.secret req.signature
        × Acted c now req.alert s t)

Acted-Leads :
    (c : Config) (now : ℕ) (req : Request) (s : State)
    → Leads
        (λ t. t ≡ s)
        (λ (ans : Answer) t. (ans.code ≡ 200) × Acted c now req.alert s t)
        (λ t. t ≡ s)
        (on_severe c now req.alert
          >> (on_medium c req.alert >> pure (record { code = 200; alert_id = req.alert.alert_id })))
Acted-Leads c now req s =
    let alert = req.alert in
    let Q : Answer → State → Type 0 = λ ans t. (ans.code ≡ 200) × Acted c now alert s t in
    let E : State → Type 0 = λ t. t ≡ s in
    elim (Bool-cases (is_severe alert.severity)) [
      | inl severe ↦
          >>=-Leads (λ t. t ≡ s) (λ u t. Suspended c now alert s t) Q E (on_severe c now alert) _
            (on_severe-Leads c now alert s severe)
            (λ u v k. rw (severe-not_medium c now alert severe) (refl, inl (severe, k)))
      | inr calm ↦
          >>=-Leads (λ t. t ≡ s) (λ u t. t ≡ s) Q E (on_severe c now alert) _ (λ v k. rw calm k)
            (λ u.
              >>=-Leads (λ t. t ≡ s) (λ x t. Unsevere c now alert s t) Q E (on_medium c alert) _
                (λ v k.
                  Closes-mono (λ x t. Unsevere c now alert s t) (λ x t. Unsevere c now alert s t)
                    (λ t. ⊥) E _ (λ x t q. q) (λ t b. absurd b) (on_medium-Leads c now alert s v k))
                (λ x v k. (refl, inr (calm, k))))
    ]

-- Whatever fails: a call that throws leaves everything as it was, and so does one that answers 401.
-- Any other answers 200 and only to a signed request. For a severe alert, which then has an id, it has
-- suspended the users who own an account at the address and no others, and stored a blocked screening
-- for each of those accounts, and an audit row; for any other alert it has at most stored an audit
-- row, and that only for one of severity MEDIUM with an id.
pub chainalysis_webhook_handler-Handled :
    (c : Config) (now : ℕ) (req : Request) (w : World State)
    → Closes (Handled c now req w.db) (λ t. t ≡ w.db) (chainalysis_webhook_handler c now req w)
unfolding chainalysis_webhook_handler verify_chainalysis_signature
chainalysis_webhook_handler-Handled c now req w =
    let expected : String → String = λ secret. cat "sha256=" (c.hmac secret req.json) in
    elim (Bool-cases (has_signature expected c.secret req.signature)) [
      | inr fails ↦ rw fails (inl (refl, refl))
      | inl signed ↦ rw signed (
          Closes-mono _ (Handled c now req w.db) _ (λ t. t ≡ w.db) _
            (λ ans t q.
              inr (q.0, has_signature-IsSigned expected c.secret req.signature signed, q.1))
            (λ t h. h) (Acted-Leads c now req w.db w refl))
    ]
