-- ===== src/Ledger/Books/Kept.antt =====
-- A posting keeps the promises of the ledger.
use genesis_reserve_smarter.Base.{
  ℕ, ◌≡◌, refl, ap, String, Bool, Option, none, some, List, [], ◌∷◌, arith, str_eq, eq_iff, subst₂,
  if◌then◌else◌, true, false, ◌+◌, inl, inr, map, Bool-cases,
}
use genesis_reserve_smarter.Base.Int.{ℤ, pos, neg, ◌+ℤ◌, +ℤ-zero, int_laws}
use genesis_reserve_smarter.Database.{LedgerEntry, Snapshot, Tables, no_rows}
use genesis_reserve_smarter.Effect.{World, done, threw, Outcome, world_of}
use genesis_reserve_smarter.Effect.Atomic.{Ends}
use genesis_reserve_smarter.Ledger.Posting.{
  HashInput, PostParams, Moment, post_entry, make_entry, upsert_snapshot,
}
use genesis_reserve_smarter.Ledger.Posting.Outcome.{booked, Booked, post_entry-Ends}
use genesis_reserve_smarter.Ledger.Books.{
  when, one, effect, net, sides, postings, snapshot_of, total, Agrees, AreDerived, AreSound,
  post_all,
}

-- One upsert moves the sum of the balances by its delta.
total-upsert_snapshot :
    (a : String) (d : ℤ) (now : ℕ) (ss : List Snapshot)
    → total (upsert_snapshot a d now ss) ≡ total ss +ℤ d
unfolding total upsert_snapshot
total-upsert_snapshot a d now [] = omega int_laws
total-upsert_snapshot a d now (s ∷ ss) = grind (int_laws, total-upsert_snapshot a d now ss)

-- The row that one more posting of `d` leaves.
abbrev bumped : String → ℤ → ℕ → Option Snapshot → Snapshot
bumped a d now none = record { account_id = a; balance = d; entry_count = 0; last_updated = now }
bumped a d now (some s) = record s {
  balance = s.balance +ℤ d;
  entry_count = s.entry_count + 1;
  last_updated = now;
}

snapshot_of-upsert_snapshot :
    (a b : String) (d : ℤ) (now : ℕ) (ss : List Snapshot)
    → snapshot_of b (upsert_snapshot a d now ss)
      ≡ (if str_eq a b then some (bumped a d now (snapshot_of b ss)) else snapshot_of b ss)
unfolding snapshot_of upsert_snapshot
snapshot_of-upsert_snapshot a b d now [] = refl
snapshot_of-upsert_snapshot a b d now (s ∷ ss) = ground (
  arith,
  eq_iff a b,
  eq_iff s.account_id a,
  eq_iff s.account_id b,
  snapshot_of-upsert_snapshot a b d now ss,
)

Agrees-bumped :
    (a : String) (d : ℤ) (now : ℕ) (hit : Bool) (o : Option Snapshot) (m : ℤ) (n : ℕ)
    → Agrees o m n
    → Agrees (if hit then some (bumped a d now o) else o) (m +ℤ when hit d) (n + one hit)
Agrees-bumped a d now true none m n h = (rw h.0 (omega int_laws), inl (omega arith))
Agrees-bumped a d now true (some s) m n (same, inl behind) =
    (ap (λ x. x +ℤ d) same, inl (ap (λ x. x + 1) behind))
Agrees-bumped a d now true (some s) m n (same, inr exact) =
    (ap (λ x. x +ℤ d) same, inr (ap (λ x. x + 1) exact))
Agrees-bumped a d now false none m n h = ground (arith, +ℤ-zero m)
Agrees-bumped a d now false (some s) m n h = ground (arith, +ℤ-zero m)

Agrees-cast :
    (o : Option Snapshot) {m m' : ℤ} {n n' : ℕ} → m ≡ m' → n ≡ n' → Agrees o m n → Agrees o m' n'
Agrees-cast o p q h = subst₂ (λ m n. Agrees o m n) p q h

regroup : (a b c : ℤ) → a +ℤ b +ℤ c ≡ b +ℤ c +ℤ a
regroup a b c = omega int_laws

regroup_ℕ : (a b c : ℕ) → a + b + c ≡ b + c + a
regroup_ℕ a b c = omega arith

-- Both balances of an entry move as the entry says.
booked-AreDerived : (e : LedgerEntry) (t : Tables) → AreDerived t → AreDerived (booked e t)
unfolding net postings effect sides
booked-AreDerived e t h a =
    let debited =
      Agrees-bumped e.debit_account (neg e.amount) e.created_at (str_eq e.debit_account a)
        (snapshot_of a t.snapshots) (net a t.ledger_entries) (postings a t.ledger_entries) (h a) in
    let both =
      Agrees-bumped e.credit_account e.amount e.created_at (str_eq e.credit_account a) _ _ _
        debited in
    rw
      (
        snapshot_of-upsert_snapshot e.credit_account a e.amount e.created_at _,
        snapshot_of-upsert_snapshot e.debit_account a (neg e.amount) e.created_at t.snapshots,
      )
      (Agrees-cast _
        (regroup (net a t.ledger_entries) (when (str_eq e.debit_account a) (neg e.amount))
          (when (str_eq e.credit_account a) e.amount))
        (regroup_ℕ (postings a t.ledger_entries) (one (str_eq e.debit_account a))
          (one (str_eq e.credit_account a)))
        both)

booked-balanced :
    (e : LedgerEntry) (t : Tables)
    → total t.snapshots ≡ pos 0
    → total (booked e t).snapshots ≡ pos 0
booked-balanced e t h =
    rw
      (
        total-upsert_snapshot e.credit_account e.amount e.created_at _,
        total-upsert_snapshot e.debit_account (neg e.amount) e.created_at t.snapshots,
        h,
      )
      (omega int_laws)

abbrev pub fresh_row : String → Snapshot
fresh_row a = record { account_id = a; balance = pos 0; entry_count = 0; last_updated = 0 }

Agrees-fresh_row :
    (a : String) (accounts : List String)
    → Agrees (snapshot_of a (map fresh_row accounts)) (pos 0) 0
unfolding snapshot_of
Agrees-fresh_row a [] = (refl, refl)
Agrees-fresh_row a (b ∷ bs) = elim (Bool-cases (str_eq b a)) [
  | inl here ↦ rw here (refl, inr refl)
  | inr there ↦ rw there (Agrees-fresh_row a bs)
]

total-fresh_row : (accounts : List String) → total (map fresh_row accounts) ≡ pos 0
unfolding total ◌+ℤ◌
total-fresh_row [] = refl
total-fresh_row (b ∷ bs) = rw (total-fresh_row bs) refl

module _ (digest : HashInput → String) where
  Booked-AreSound :
      (p : PostParams) (now : Moment) (e : LedgerEntry) (t t' : Tables)
      → Booked digest p now t e t'
      → AreSound digest t
      → AreSound digest t'
  unfolding make_entry
  Booked-AreSound p now e t t' (made, positive, fresh, same) sound = rw same (record {
    derived = booked-AreDerived e t sound.derived;
    balanced = booked-balanced e t sound.balanced;
    chained = (positive, fresh, (now.date_now, ground arith), ground arith, sound.chained);
  })

  -- A posting that throws keeps the promises, since it changes nothing.
  Ends-AreSound :
      (p : PostParams) (now : Moment) (t : Tables) (o : Outcome Tables LedgerEntry)
      → Ends (Booked digest p now t) t o
      → AreSound digest t
      → AreSound digest (world_of o).db
  Ends-AreSound p now t (done e w) h sound = Booked-AreSound p now e t w.db h sound
  Ends-AreSound p now t (threw e w) h sound = rw h sound

  -- One call of `postEntry`, whatever statement fails, keeps the ledger sound.
  pub post_entry-AreSound :
      (p : PostParams) (now : Moment) (w : World Tables)
      → AreSound digest w.db
      → AreSound digest (world_of (post_entry digest p now w)).db
  post_entry-AreSound p now w sound =
      Ends-AreSound p now w.db (post_entry digest p now w) (post_entry-Ends digest p now w) sound

  -- A sound ledger stays sound under any sequence of calls of `postEntry`, the failed ones included:
  -- each stored balance is that of the entries, the balances add up to zero, and every entry is
  -- positive, new, hashed and linked to the latest older entry of its debit account.
  pub post_all-AreSound :
      (calls : List (PostParams × Moment)) (w : World Tables)
      → AreSound digest w.db
      → AreSound digest (post_all digest calls w).db
  unfolding post_all
  post_all-AreSound [] w sound = sound
  post_all-AreSound ((p, now) ∷ calls) w sound =
      post_all-AreSound calls _ (post_entry-AreSound p now w sound)

  -- The rows of the migration: a balance of zero for each account, and no entry.
  pub seeded-AreSound :
      (accounts : List String)
      → AreSound digest (record no_rows { snapshots = map fresh_row accounts })
  unfolding net postings
  seeded-AreSound accounts = record {
    derived = λ a. Agrees-fresh_row a accounts;
    balanced = total-fresh_row accounts;
    chained = tt;
  }
