-- ===== src/Compliance/Gates.antt =====
-- Each gate of a screening gives a verdict whatever fails, and writes nothing.
use genesis_reserve_smarter.Base.{ℕ, ◌≤◌, ◌≡◌, String, Option, true, arith}
use genesis_reserve_smarter.Base.Int.{ℤ}
use genesis_reserve_smarter.Database.{Tables}
use genesis_reserve_smarter.Effect.{World, Outcome, done, threw, Io, query, continue}
use genesis_reserve_smarter.Effect.Atomic.{Gives}
use genesis_reserve_smarter.Compliance.{
  CheckName, kyc, ofac, velocity, travel_rule, CheckResult, check_kyc_tier, kyc_level_of,
  check_sanctions, blocked_count, check_velocity, check_travel_rule,
}

-- The gate's call ends with a check of its name, leaves the tables, and passes only if `P`.
abbrev pub Decides : CheckName → Type 0 → Tables → Outcome Tables CheckResult → Type 0
Decides name P t (done c w) = (w.db ≡ t) × (c.name ≡ name) × (c.passed ≡ true → P)
Decides name P t (threw e w) = ⊥

module _ (lower : String → String) (address : String) where
  pub check_kyc_tier-Decides :
      (min_tier : ℕ) (w : World Tables)
      → Decides kyc
          (min_tier ≤ kyc_level_of lower address w.db)
          w.db
          (check_kyc_tier lower address min_tier w)
  unfolding check_kyc_tier query
  check_kyc_tier-Decides min_tier w = ground arith

  pub check_sanctions-Decides :
      (now : ℕ) (w : World Tables)
      → Decides ofac
          (blocked_count lower address now w.db ≡ 0)
          w.db
          (check_sanctions lower address now w)
  unfolding check_sanctions query
  check_sanctions-Decides now w = ground arith

  pub check_velocity-Decides :
      (cast : String → Option ℤ) (amount : ℤ) (now : ℕ) (w : World Tables)
      → Decides velocity (Unit {0}) w.db (check_velocity lower cast address amount now w)
  unfolding check_velocity query
  check_velocity-Decides cast amount now w = ground arith

pub check_travel_rule-Decides :
    (order_id : String) (w : World Tables)
    → Decides travel_rule (Unit {0}) w.db (check_travel_rule order_id w)
unfolding check_travel_rule query
check_travel_rule-Decides order_id w = ground arith

-- To go on after a gate.
pub after_gate :
    {R : Type 0} (name : CheckName) (P : Type 0) (t : Tables) (o : Outcome Tables CheckResult)
    (k : CheckResult → Io Tables R) (Q : R → Tables → Type 0)
    → Decides name P t o
    → ((c : CheckResult) (w : World Tables)
        → w.db ≡ t
        → c.name ≡ name
        → (c.passed ≡ true → P)
        → Gives Q (k c w))
    → Gives Q (continue o k)
after_gate name P t (done c w) k Q (same, named, safe) next = next c w same named safe
after_gate name P t (threw e w) k Q h next = absurd h
