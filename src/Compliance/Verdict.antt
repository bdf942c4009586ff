-- ===== src/Compliance/Verdict.antt =====
-- What a screening of a transfer decides (apps/api/src/treasury/compliance.service.ts).
use genesis_reserve_smarter.Base.{
  ℕ, ◌≤◌, ◌≡◌, refl, String, Option, Bool, true, arith, if◌then◌else◌, every, List, [], ◌∷◌, str_eq,
  not, ap, ◌∙◌, Bool-cases, inl, inr,
}
use genesis_reserve_smarter.Base.Int.{ℤ, leb_ℤ}
use genesis_reserve_smarter.Database.{Tables}
use genesis_reserve_smarter.Effect.{
  World, Outcome, done, threw, Io, query, continue, pure, ◌>>=◌, ◌>>◌,
}
use genesis_reserve_smarter.Effect.Atomic.{Gives}
use genesis_reserve_smarter.Compliance.{
  CheckName, kyc, ofac, velocity, travel_rule, CheckResult, kyc_level_of, blocked_count,
  check_kyc_tier, check_sanctions, check_velocity, check_travel_rule, travel_rule_threshold_usdc,
}
use genesis_reserve_smarter.Compliance.Screens.{
  ScreeningResult, judge_transfer, compute_risk_score, persist_screening, screen_transfer,
  verdict_text, large_transfer_checks, is_named, name_text, is_not_passed,
}
use genesis_reserve_smarter.Compliance.Gates.{
  Decides, after_gate, check_kyc_tier-Decides, check_sanctions-Decides, check_velocity-Decides,
  check_travel_rule-Decides,
}

abbrev is_passed : CheckResult → Bool
is_passed c = c.passed

named :
    (n : CheckName) (c : CheckResult) {m : CheckName}
    → c.name ≡ m
    → is_named n c ≡ str_eq (name_text m) (name_text n)
named n c h = ap (λ m. str_eq (name_text m) (name_text n)) h

-- A list that starts with the checks of the first three gates.
module _ (k s v : CheckResult) (more : List CheckResult) (hk : k.name ≡ kyc) (hs : s.name ≡ ofac)
    (hv : v.name ≡ velocity) where
  abbrev all_checks : List CheckResult
  all_checks = k ∷ s ∷ v ∷ more

  kyc_not_passed : is_not_passed kyc all_checks ≡ not k.passed
  unfolding is_not_passed
  kyc_not_passed = rw (named kyc k hk)

  ofac_not_passed : is_not_passed ofac all_checks ≡ not s.passed
  unfolding is_not_passed
  ofac_not_passed = rw (named ofac k hk, named ofac s hs)

  velocity_not_passed : is_not_passed velocity all_checks ≡ not v.passed
  unfolding is_not_passed
  velocity_not_passed = rw (named velocity k hk, named velocity s hs, named velocity v hv)

  -- Where every check passes the score stays below the threshold, so the checks alone decide.
  judge_transfer-passed :
      (amount : ℤ) (now : ℕ)
      → (judge_transfer all_checks amount now).passed ≡ every is_passed all_checks
  unfolding judge_transfer compute_risk_score
  judge_transfer-passed amount now =
      ground (arith, kyc_not_passed, ofac_not_passed, velocity_not_passed)

-- The tables but for the stored screenings.
abbrev pub KeepsRest : Tables → Tables → Type 0
KeepsRest t t' = t' ≡ record t { screenings = t'.screenings }

persist_screening-Gives :
    (lower : String → String) (address type : String) (r : ScreeningResult) (w : World Tables)
    (t : Tables)
    → w.db ≡ t
    → Gives (λ _ t'. KeepsRest t t') (persist_screening lower address type r w)
unfolding persist_screening query
persist_screening-Gives lower address type r w t e = ground arith

-- What a screening of a transfer has done, at the tables `t`.
pub record Screened (lower : String → String) (from_address to_address : String) (amount : ℤ)
    (now : ℕ) (t : Tables) (r : ScreeningResult) (t' : Tables) : Type 0 where
  pub decided : r.passed ≡ every is_passed r.checks
  pub result : r.result ≡ verdict_text r.passed
  pub known :
      r.passed ≡ true
      → (if str_eq (lower from_address) (lower to_address) then 1 else 2)
        ≤ kyc_level_of lower from_address t
  pub unlisted : r.passed ≡ true → blocked_count lower from_address now t ≡ 0
  pub rest : KeepsRest t t'

module _ (lower : String → String) (cast : String → Option ℤ) (from_address to_address : String)
    (amount : ℤ) (order_id : String) (now : ℕ) where
  Judged : Tables → ScreeningResult → Tables → Type 0
  Judged = Screened lower from_address to_address amount now

  -- After the checks the result is stored, or the failure to store it is passed over.
  stored :
      (t : Tables) (r : ScreeningResult) (o : Outcome Tables (Unit {0}))
      → Gives (λ _ t'. KeepsRest t t') o
      → ((t' : Tables) → KeepsRest t t' → Judged t r t')
      → Gives (Judged t) (continue o (λ _. pure r))
  stored t r (done _ w) kept judged = judged w.db kept
  stored t r (threw e w) kept judged = absurd kept

  one_more :
      (t u : Tables) (o : Outcome Tables CheckResult)
      (k : List CheckResult → Io Tables ScreeningResult)
      → u ≡ t
      → Decides travel_rule (Unit {0}) u o
      → ((more : List CheckResult) (w' : World Tables) → w'.db ≡ t → Gives (Judged t) (k more w'))
      → Gives (Judged t) (continue (continue o (λ c. pure (c ∷ []))) k)
  one_more t u (done c w) k e h next = next (c ∷ []) w (h.0 ∙ e)
  one_more t u (threw x w) k e h next = absurd h

  -- The fourth gate is passed, or not asked.
  large_transfer :
      (t : Tables) (w : World Tables)
      → w.db ≡ t
      → (k : List CheckResult → Io Tables ScreeningResult)
      → ((more : List CheckResult) (w' : World Tables) → w'.db ≡ t → Gives (Judged t) (k more w'))
      → Gives (Judged t) (◌>>=◌ (large_transfer_checks order_id amount) k w)
  large_transfer t w e k next = elim (Bool-cases (leb_ℤ travel_rule_threshold_usdc amount)) [
    | inl large ↦ rw large (
        one_more t w.db (check_travel_rule order_id w) k e (check_travel_rule-Decides order_id w)
          next)
    | inr small ↦ rw small (next [] w e)
  ]

  module _ (t : Tables) (k s v : CheckResult) (hk : k.name ≡ kyc) (hs : s.name ≡ ofac)
      (hv : v.name ≡ velocity)
      (known : k.passed ≡ true
        → (if str_eq (lower from_address) (lower to_address) then 1 else 2)
          ≤ kyc_level_of lower from_address t)
      (unlisted : s.passed ≡ true → blocked_count lower from_address now t ≡ 0) where
    finish :
        (more : List CheckResult) (w : World Tables)
        → w.db ≡ t
        → let r = judge_transfer (k ∷ s ∷ v ∷ more) amount now in
          Gives (Judged t) ((persist_screening lower from_address "TRANSFER" r >> pure r) w)
    unfolding Judged judge_transfer
    finish more w e =
        let r = judge_transfer (k ∷ s ∷ v ∷ more) amount now in
        let decided = judge_transfer-passed k s v more hk hs hv amount now in
        stored t r (persist_screening lower from_address "TRANSFER" r w)
          (persist_screening-Gives lower from_address "TRANSFER" r w t e)
          λ t' rest. record {
            decided = decided;
            result = refl;
            known = λ passed. ground (arith, decided, known);
            unlisted = λ passed. ground (arith, decided, unlisted);
            rest = rest;
          }

  -- A screening of a transfer gives a verdict whatever statement fails: it passes exactly when all its
  -- checks pass, only for a wallet whose level reaches the minimum and that has no recent sanction
  -- hit, and it changes nothing but the stored screenings.
  pub screen_transfer-Screened :
      (w : World Tables)
      → Gives
          (Screened lower from_address to_address amount now w.db)
          (screen_transfer lower cast from_address to_address amount order_id now w)
  unfolding screen_transfer Judged
  screen_transfer-Screened w =
      after_gate kyc _ w.db (check_kyc_tier lower from_address _ w) _ _
        (check_kyc_tier-Decides lower from_address _ w)
        λ k w1 e1 n1 p1.
          after_gate ofac _ w1.db (check_sanctions lower from_address now w1) _ _
            (check_sanctions-Decides lower from_address now w1)
            λ s w2 e2 n2 p2.
              after_gate velocity _ w2.db (check_velocity lower cast from_address amount now w2) _ _
                (check_velocity-Decides lower from_address cast amount now w2)
                λ v w3 e3 n3 p3.
                  let close = finish w.db k s v n1 n2 n3 p1 (λ ok. rw (← e1) (p2 ok)) in
                  large_transfer w.db w3 (e3 ∙ e2 ∙ e1) _ close
