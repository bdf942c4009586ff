-- ===== src/Webhooks/Chainalysis/Gate.antt =====
-- A severe alert and the sanctions gate (apps/api/src/webhooks/chainalysis.webhook.ts and
-- apps/api/src/treasury/compliance.service.ts).
use genesis_reserve_smarter.Base.{
  String, ℕ, ◌+◌, ◌≤◌, ◌<◌, ◌≡◌, inl, inr, refl, sym, subst, some, Bool, true, false, List, ◌∷◌,
  ◌++◌, map, select, any, find, length, str_eq, Bool-cases, arith, eq_refl,
}
use genesis_reserve_smarter.Base.Finds.{find-holds, select-find, any-find}
use genesis_reserve_smarter.Database.{TreasuryAccount, Tables}
use genesis_reserve_smarter.Effect.{World, Outcome, done, threw}
use genesis_reserve_smarter.Effect.Atomic.{Gives}
use genesis_reserve_smarter.Effect.Leads.{Closes, >>=-Leads}
use genesis_reserve_smarter.Compliance.{
  accounts_at, owned_by, blocked_count, thirty_days_ms, check_sanctions, CheckResult, ofac,
}
use genesis_reserve_smarter.Compliance.Gates.{Decides, check_sanctions-Decides}
use genesis_reserve_smarter.Webhooks.Users.{State}
use genesis_reserve_smarter.Webhooks.Chainalysis.{
  Config, Request, Answer, is_severe, blocked_row, joined_at, chainalysis_webhook_handler,
  verify_chainalysis_signature, on_severe,
}
use genesis_reserve_smarter.Webhooks.Chainalysis.Suspended.{
  Suspended, suspended_tables, on_severe-Leads, severe-not_medium,
}

-- The first blocked row is counted.
first_counts :
    {A : Type 0} (q : A → Bool) (a : A) (rest : List A)
    → q a ≡ true
    → 1 ≤ length (select q (a ∷ rest))
first_counts q a rest h = rw h ground arith

mapped_counts :
    {A B : Type 0} (q : B → Bool) (f : A → B) (a : A) (rest kept : List A) (old : List B)
    → kept ≡ a ∷ rest
    → q (f a) ≡ true
    → 1 ≤ length (select q (map f kept ++ old))
mapped_counts q f a rest kept old e h =
    subst (λ xs. 1 ≤ length (select q (map f xs ++ old))) (sym e)
      (first_counts q (f a) (map f rest ++ old) h)

-- A gate that passes only with no blocked row fails where there is one.
refused :
    (n : ℕ) (t : Tables) (o : Outcome Tables CheckResult)
    → 1 ≤ n
    → Decides ofac (n ≡ 0) t o
    → Gives (λ (r : CheckResult) x. r.passed ≡ false) o
refused n t (done r w) some_row (same, named, safe) = elim (Bool-cases r.passed) [
  | inl passes ↦ absurd (ground (arith, safe passes))
  | inr fails ↦ fails
]
refused n t (threw e w) some_row h = absurd h

module _ (c : Config) (now later : ℕ) (req : Request) (a : TreasuryAccount) (s : State)
    (found : find
        (λ (x : TreasuryAccount). any (str_eq x.owner_id) s.tables.user_ids)
        (accounts_at c.lower req.alert.address s.tables)
      ≡ some a)
    (soon : later < now + thirty_days_ms) where
  owned :
      owned_by (accounts_at c.lower req.alert.address s.tables) s.tables.user_ids a.owner_id ≡ true
  owned =
      let at = accounts_at c.lower req.alert.address s.tables in
      let p : TreasuryAccount → Bool =
        λ (x : TreasuryAccount). any (str_eq x.owner_id) s.tables.user_ids in
      rw
        (
          find-holds p at a found,
          any-find p (λ (x : TreasuryAccount). str_eq x.owner_id a.owner_id) at a found
              (eq_refl a.owner_id),
        )
        refl

  suspended-blocked_count :
      (id : String)
      → 1
        ≤ blocked_count c.lower req.alert.address later
            (suspended_tables c now req.alert id s.tables)
  unfolding blocked_count
  suspended-blocked_count id =
      let at = accounts_at c.lower req.alert.address s.tables in
      let (rest, e) =
        select-find (λ (x : TreasuryAccount). any (str_eq x.owner_id) s.tables.user_ids) at a
          found in
      mapped_counts _ (blocked_row now) a rest (joined_at c req.alert.address s.tables)
        s.tables.screenings e (rw owned (ground (arith, soon)))

  closed_gate :
      (t : State) (faults : List Bool)
      → Suspended c now req.alert s t
      → Gives
          (λ (r : CheckResult) x. r.passed ≡ false)
          (check_sanctions c.lower req.alert.address later
            (record { db = t.tables; faults = faults }))
  closed_gate t faults h =
      refused (blocked_count c.lower req.alert.address later t.tables) t.tables _
        (subst (λ x. 1 ≤ blocked_count c.lower req.alert.address later x) (sym h.2)
          (suspended-blocked_count h.0))
        (check_sanctions-Decides c.lower req.alert.address later
          (record { db = t.tables; faults = faults }))

-- After a signed severe alert for an address at which a user of the tables owns an account, either
-- the call has thrown and everything is as it was, or for thirty days the sanctions gate of the
-- screening service refuses the address, whatever fails then.
pub chainalysis_webhook_handler-check_sanctions :
    (c : Config) (now later : ℕ) (req : Request) (a : TreasuryAccount) (w : World State)
    (faults : List Bool)
    → verify_chainalysis_signature c req ≡ true
    → is_severe req.alert.severity ≡ true
    → find
        (λ (x : TreasuryAccount). any (str_eq x.owner_id) w.db.tables.user_ids)
        (accounts_at c.lower req.alert.address w.db.tables)
      ≡ some a
    → later < now + thirty_days_ms
    → Closes
        (λ ans t.
          Gives
            (λ (r : CheckResult) x. r.passed ≡ false)
            (check_sanctions c.lower req.alert.address later
              (record { db = t.tables; faults = faults })))
        (λ t. t ≡ w.db)
        (chainalysis_webhook_handler c now req w)
unfolding chainalysis_webhook_handler
chainalysis_webhook_handler-check_sanctions c now later req a w faults signed severe found soon =
    let Q : Answer → State → Type 0 = λ ans t.
      Gives (λ (r : CheckResult) x. r.passed ≡ false)
        (check_sanctions c.lower req.alert.address later
          (record { db = t.tables; faults = faults })) in
    rw signed (
      >>=-Leads (λ t. t ≡ w.db) (λ u t. Suspended c now req.alert w.db t) Q (λ t. t ≡ w.db)
        (on_severe c now req.alert) _ (on_severe-Leads c now req.alert w.db severe)
        (λ u v k.
          rw (severe-not_medium c now req.alert severe)
            (closed_gate c now later req a w.db found soon v.db faults k))
        w refl)
