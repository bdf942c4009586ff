-- ===== src/Effect.antt =====
-- How a service method runs (apps/api/src/config/db.ts and the `pool` of the services): a method
-- takes the database and gives back a result or a thrown error with the database that it leaves.
-- PostgreSQL is not part of the repository: a statement changes the tables as the source's SQL says,
-- or fails. `faults` lists, statement by statement, whether the server or the connection fails
-- there; it is an arbitrary input, so a theorem over it covers every pattern of failures.
pub mod Atomic
pub mod Always
pub mod Leads
pub mod Succeeds
use genesis_reserve_smarter.Base.{Bool, true, false, String, List, [], ◌∷◌}
use genesis_reserve_smarter.Base.Int.{ℤ}

-- The errors that the backend throws.
pub data Error : Type 0 where
  unavailable unique_violation check_violation foreign_key_violation : Error
  invalid_amount : ℤ → Error
  account_not_found corridor_not_found quote_not_found quote_expired order_not_found :
      String → Error
  compliance_record_missing reservation_failed unknown_payout_provider : String → Error
  corridor_not_available below_minimum above_maximum chain_call_failed invalid_offset
        no_conflict_target undefined_column not_null_violation type_error numeric_out_of_range
        value_too_long range_error :
      Error

pub data Result (A : Type 0) : Type 0 where
  ok : A → Result A
  err : Error → Result A

pub record World (S : Type 0) : Type 0 where
  pub db : S
  pub faults : List Bool

-- How a method ends: with a value or a thrown error, and the world that it leaves.
pub data Outcome (S A : Type 0) : Type 0 where
  done : A → World S → Outcome S A
  threw : Error → World S → Outcome S A

abbrev pub world_of : {S A : Type 0} → Outcome S A → World S
world_of (done a w) = w
world_of (threw e w) = w

-- A method of a service.
abbrev pub Io : Type 0 → Type 0 → Type 0
Io S A = World S → Outcome S A

module _ {S A : Type 0} where
  abbrev pub pure : A → Io S A
  pure a w = done a w

  abbrev pub throw : Error → Io S A
  throw e w = threw e w

-- A computation that throws and touches no table.
abbrev pub or_throw : {S A : Type 0} → Result A → Io S A
or_throw (ok a) = pure a
or_throw (err e) = throw e

abbrev pub continue : {S A B : Type 0} → Outcome S A → (A → Io S B) → Outcome S B
continue (done a w) f = f a w
continue (threw e w) f = threw e w

infixl 5 ◌>>=◌ ◌>>◌
abbrev pub ◌>>=◌ : {S A B : Type 0} → Io S A → (A → Io S B) → Io S B
◌>>=◌ m f w = continue (m w) f

abbrev pub ◌>>◌ : {S A B : Type 0} → Io S A → Io S B → Io S B
m >> k = m >>= λ _. k

-- `if (!condition) throw e`
abbrev pub require : {S : Type 0} → Bool → Error → Io S (Unit {0})
require true e w = done tt w
require false e w = threw e w

abbrev pub next_fault : List Bool → Bool
next_fault [] = false
next_fault (b ∷ bs) = b

abbrev pub later_faults : List Bool → List Bool
later_faults [] = []
later_faults (b ∷ bs) = bs

abbrev pub advance : {S : Type 0} → World S → World S
advance w = record w { faults = later_faults w.faults }

-- One statement: it fails where the next fault says so, and then it has changed nothing.
module _ {S A : Type 0} where
  abbrev pub settle : Result (A × S) → World S → Outcome S A
  settle (ok (a, s)) w = done a (record w { db = s })
  settle (err e) w = threw e w

  abbrev pub attempt : Bool → Result (A × S) → World S → Outcome S A
  attempt true r w = threw unavailable w
  attempt false r w = settle r w

  unfoldable pub query : (S → Result (A × S)) → Io S A
  query run w = attempt (next_fault w.faults) (run w.db) (advance w)

-- A statement that only reads; `catch` on it.
unfoldable pub read : {S A : Type 0} → (S → A) → Io S A
unfolding query
read f = query (λ s. ok (f s, s))

-- A statement that writes and cannot violate a constraint.
unfoldable pub write : {S : Type 0} → (S → S) → Io S (Unit {0})
unfolding query
write f = query (λ s. ok (tt, f s))

-- connect(), BEGIN and COMMIT change no row that a statement sees.
unfoldable pub control : {S : Type 0} → Io S (Unit {0})
unfolding write
control = write (λ s. s)

abbrev pub recover : {S A : Type 0} → Outcome S A → A → Outcome S A
recover (done a w) b = done a w
recover (threw e w) b = done b w

-- `try { … } catch { return fallback }`: what was written stays written.
abbrev pub or_else : {S A : Type 0} → Io S A → A → Io S A
or_else m a w = recover (m w) a

-- After a throw the rows are those at BEGIN: by ROLLBACK, or since the server drops the transaction
-- of a lost connection.
module _ {S A : Type 0} where
  abbrev pub rolled_back : S → Outcome S A → Outcome S A
  rolled_back s (done a w) = done a w
  rolled_back s (threw e w) = threw e (record { db = s; faults = later_faults w.faults })

  unfoldable pub committed : Io S A → Io S A
  unfolding control
  committed fn = do control; a ← fn; control; pure a

  -- `withTransaction(fn)`: connect; BEGIN, the body, COMMIT; on any throw ROLLBACK and rethrow.
  unfoldable pub with_transaction : Io S A → Io S A
  unfolding control
  with_transaction fn = do control; λ w. rolled_back w.db (committed fn w)

abbrev pub map_world : {S T A : Type 0} → (World S → World T) → Outcome S A → Outcome T A
map_world f (done a w) = done a (f w)
map_world f (threw e w) = threw e (f w)

-- A method on a part of a larger state.
abbrev pub focus : {S T A : Type 0} → (T → S) → (S → T → T) → Io S A → Io T A
focus get put m w =
    map_world (λ v. record { db = put v.db w.db; faults = v.faults })
      (m (record { db = get w.db; faults = w.faults }))

abbrev pub closed : {S A : Type 0} → Outcome S A → Outcome S A
closed (done a w) = done a w
closed (threw e w) = threw e (advance w)

-- `withTransaction` around statements that go through the pool and not through its client: its
-- BEGIN, COMMIT and ROLLBACK touch none of them.
unfoldable pub around : {S A : Type 0} → Io S A → Io S A
unfolding committed control
around fn = do control; λ w. closed (committed fn w)
