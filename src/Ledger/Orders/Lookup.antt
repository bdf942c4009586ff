-- ===== src/Ledger/Orders/Lookup.antt =====
-- What `getAccount` finds after `createAccount`
-- (apps/api/src/ledger/ledger.service.ts).
use genesis_reserve_smarter.Base.{
  ◌≡◌, refl, ap, none, some, Bool, true, false, List, [], ◌∷◌, any, find, str_eq, eq_refl, get_or,
  arith, Bool-cases, inl, inr,
}
use genesis_reserve_smarter.Database.{TreasuryAccount, Tables}
use genesis_reserve_smarter.Effect.{
  World, done, Result, ok, err, settle, query, read, unique_violation, foreign_key_violation,
}
use genesis_reserve_smarter.Ledger.Orders.{
  has_account_id, insert_account, create_account, get_account,
}

found_any :
    (p : TreasuryAccount → Bool) (xs : List TreasuryAccount)
    → any p xs ≡ true
    → (x : TreasuryAccount) × (find p xs ≡ some x)
found_any p [] h = absurd (ground (arith, h))
found_any p (x ∷ xs) h = elim (Bool-cases (p x)) [
  | inl hit ↦ (x, rw hit refl)
  | inr miss ↦ let later = found_any p xs (rw miss at h) in (later.0, rw (miss, later.1) refl)
]

found_none :
    (p : TreasuryAccount → Bool) (xs : List TreasuryAccount) → any p xs ≡ false → find p xs ≡ none
found_none p [] h = refl
found_none p (x ∷ xs) h = elim (Bool-cases (p x)) [
  | inl hit ↦ ground (arith, hit, h)
  | inr miss ↦ rw miss (found_none p xs (rw miss at h))
]

inserted :
    (a : TreasuryAccount) (t t' : Tables)
    → insert_account a t ≡ ok (tt, t')
    → find (has_account_id a.account_id) t'.accounts
      ≡ some (get_or (find (has_account_id a.account_id) t.accounts) a)
unfolding insert_account
inserted a t t' h = elim (Bool-cases (any (has_account_id a.account_id) t.accounts)) [
  | inl taken ↦
      let old = found_any (has_account_id a.account_id) t.accounts taken in
      let same : t ≡ t' = (let e : ok (tt, t) ≡ ok (tt, t') = rw taken at h in cc e) in
      rw (← same, old.1) refl
  | inr free ↦
      let missing = found_none (has_account_id a.account_id) t.accounts free in
      elim (Bool-cases
        (any (λ (b : TreasuryAccount). str_eq b.wallet_address a.wallet_address) t.accounts)) [
          | inl shared ↦ let e : err unique_violation ≡ ok (tt, t') = rw (free, shared) at h in cc e
          | inr own ↦ elim (Bool-cases (any (str_eq a.owner_id) t.user_ids)) [
            | inl known ↦
                let e : ok (tt, record t { accounts = a ∷ t.accounts }) ≡ ok (tt, t') =
                  rw (free, own, known) at h in
                let same : record t { accounts = a ∷ t.accounts } ≡ t' = cc e in
                rw (← same, missing, eq_refl a.account_id) refl
            | inr unknown ↦
                let e : err foreign_key_violation ≡ ok (tt, t') = rw (free, own, unknown) at h in
                cc e
          ]
        ]
]

settled :
    (r : Result ((Unit {0}) × Tables)) (w : World Tables) (t' : Tables)
    → settle r w ≡ done tt (record { db = t'; faults = [] })
    → r ≡ ok (tt, t')
settled (ok (u, s)) w t' h = let e : s ≡ t' = cc h in ap (λ (x : Tables). ok (tt, x)) e
settled (err x) w t' h = cc h

-- Without failures, where `createAccount` returns, `getAccount` then finds the account that stood under
-- that id before, and the new one only if there was none.
pub create_account-get_account :
    (a : TreasuryAccount) (t t' : Tables)
    → create_account a (record { db = t; faults = [] }) ≡ done tt (record { db = t'; faults = [] })
    → get_account a.account_id (record { db = t'; faults = [] })
      ≡ done
          (some (get_or (find (has_account_id a.account_id) t.accounts) a))
          (record { db = t'; faults = [] })
unfolding create_account get_account query read
create_account-get_account a t t' h =
    rw (inserted a t t' (settled (insert_account a t) (record { db = t; faults = [] }) t' h)) refl
