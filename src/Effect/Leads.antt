-- ===== src/Effect/Leads.antt =====
-- From what holds of the rows before a call to what holds after it, returned or thrown
-- (apps/api/src/config/db.ts).
use genesis_reserve_smarter.Base.{◌≡◌, refl, sym, subst, Bool, true, false}
use genesis_reserve_smarter.Effect.{
  World, Outcome, done, threw, ok, Io, ◌>>=◌, continue, query, read, write, or_else, recover,
  advance, attempt, next_fault, focus, map_world, with_transaction,
}
use genesis_reserve_smarter.Effect.Atomic.{Returns, Ends, with_transaction-Ends}

-- `Q` holds after a return, `E` after a throw.
abbrev pub Closes : {S A : Type 0} → (A → S → Type 0) → (S → Type 0) → Outcome S A → Type 0
Closes Q E (done a w) = Q a w.db
Closes Q E (threw e w) = E w.db

abbrev pub Leads : {S A : Type 0} → (S → Type 0) → (A → S → Type 0) → (S → Type 0) → Io S A → Type 0
Leads {S} P Q E m = (w : World S) → P w.db → Closes Q E (m w)

module _ {S : Type 0} where
  module _ {A : Type 0} (P : S → Type 0) (Q : A → S → Type 0) (E : S → Type 0) where
    attempt-Closes :
        (b : Bool) (a : A) (s : S) (w : World S)
        → E w.db
        → Q a s
        → Closes Q E (attempt b (ok (a, s)) w)
    attempt-Closes true a s w e q = e
    attempt-Closes false a s w e q = q

    pub read-Leads :
        (f : S → A) → ((s : S) → P s → E s) → ((s : S) → P s → Q (f s) s) → Leads P Q E (read f)
    unfolding read query
    read-Leads f e q w p =
        attempt-Closes (next_fault w.faults) (f w.db) w.db (advance w) (e w.db p) (q w.db p)

    recover-Closes : (o : Outcome S A) (a : A) → Closes Q (Q a) o → Closes Q E (recover o a)
    recover-Closes (done b w) a h = h
    recover-Closes (threw e w) a h = h

    pub or_else-Leads : (m : Io S A) (a : A) → Leads P Q (Q a) m → Leads P Q E (or_else m a)
    or_else-Leads m a h w p = recover-Closes (m w) a (h w p)

    pub query-Leads :
        (run : S → A × S)
        → ((s : S) → P s → E s)
        → ((s : S) → P s → Q (run s).0 (run s).1)
        → Leads P Q E (query (λ s. ok (run s)))
    unfolding query
    query-Leads run e q w p =
        attempt-Closes (next_fault w.faults) (run w.db).0 (run w.db).1 (advance w) (e w.db p)
          (q w.db p)

  pub write-Leads :
      (P : S → Type 0) (Q : Unit {0} → S → Type 0) (E : S → Type 0) (f : S → S)
      → ((s : S) → P s → E s)
      → ((s : S) → P s → Q tt (f s))
      → Leads P Q E (write f)
  unfolding write query
  write-Leads P Q E f e q w p =
      attempt-Closes P Q E (next_fault w.faults) tt (f w.db) (advance w) (e w.db p) (q w.db p)

  module _ {A B : Type 0} (P : S → Type 0) (M : A → S → Type 0) (Q : B → S → Type 0)
      (E : S → Type 0) where
    continue-Closes :
        (o : Outcome S A) (f : A → Io S B)
        → Closes M E o
        → ((a : A) → Leads (M a) Q E (f a))
        → Closes Q E (continue o f)
    continue-Closes (done a w) f h k = k a w h
    continue-Closes (threw e w) f h k = h

    pub >>=-Leads :
        (m : Io S A) (f : A → Io S B)
        → Leads P M E m
        → ((a : A) → Leads (M a) Q E (f a))
        → Leads P Q E (m >>= f)
    >>=-Leads m f h k w p = continue-Closes (m w) f (h w p) k

module _ {S T A : Type 0} (get : T → S) (put : S → T → T) (P : T → Type 0) (Q : A → T → Type 0)
    (E : T → Type 0) where
  map_world-Closes :
      (t : T) (o : Outcome S A)
      → Closes (λ a s. Q a (put s t)) (λ s. E (put s t)) o
      → Closes Q E (map_world (λ (v : World S). record { db = put v.db t; faults = v.faults }) o)
  map_world-Closes t (done a w) h = h
  map_world-Closes t (threw e w) h = h

  pub focus-Leads :
      (m : Io S A)
      → ((t : T) → P t → Leads (λ s. s ≡ get t) (λ a s. Q a (put s t)) (λ s. E (put s t)) m)
      → Leads P Q E (focus get put m)
  focus-Leads m h w p =
      map_world-Closes w.db (m (record { db = get w.db; faults = w.faults }))
        (h w.db p (record { db = get w.db; faults = w.faults }) refl)

pub Closes-mono :
    {S A : Type 0} (Q R : A → S → Type 0) (E F : S → Type 0) (o : Outcome S A)
    → ((a : A) (s : S) → Q a s → R a s)
    → ((s : S) → E s → F s)
    → Closes Q E o
    → Closes R F o
Closes-mono Q R E F (done a w) q e h = q a w.db h
Closes-mono Q R E F (threw x w) q e h = e w.db h

module _ {S A : Type 0} (P : S → Type 0) (Q : A → S → Type 0) (E : S → Type 0) where
  Closes-Returns : (o : Outcome S A) → Closes Q E o → Returns Q o
  Closes-Returns (done a w) h = h
  Closes-Returns (threw e w) h = tt

  Ends-Closes : (s : S) (o : Outcome S A) → E s → Ends Q s o → Closes Q E o
  Ends-Closes s (done a w) e h = h
  Ends-Closes s (threw x w) e h = subst E (sym h) e

-- A transaction that fails is rolled back to the rows before it.
pub with_transaction-Leads :
    {S A : Type 0} (P : S → Type 0) (Q : A → S → Type 0) (E : S → Type 0) (fn : Io S A)
    → ((s : S) → P s → E s)
    → Leads P Q (λ s. Unit {0}) fn
    → Leads P Q E (with_transaction fn)
with_transaction-Leads P Q E fn e h w p =
    Ends-Closes P Q E w.db (with_transaction fn w) (e w.db p) (
      with_transaction-Ends Q fn w
        (Closes-Returns P Q (λ s. Unit {0}) (fn (advance (advance w))) (h (advance (advance w)) p)))
