-- ===== src/Effect/Succeeds.antt =====
-- Methods that return as long as no statement fails (apps/api/src/config/db.ts).
use genesis_reserve_smarter.Base.{◌≡◌, refl, []}
use genesis_reserve_smarter.Effect.{
  World, Outcome, done, threw, Io, ◌>>=◌, continue, query, read, write, or_else, recover, focus,
  map_world, control, committed, rolled_back, with_transaction,
}

-- A return, with no failure ahead.
abbrev pub IsCalm : {S A : Type 0} → Outcome S A → Type 0
IsCalm (done a w) = w.faults ≡ []
IsCalm (threw e w) = ⊥

abbrev pub Succeeds : {S A : Type 0} → Io S A → Type 0
Succeeds {S} m = (w : World S) → w.faults ≡ [] → IsCalm (m w)

module _ {S : Type 0} where
  module _ {A : Type 0} where
    pub read-Succeeds : (f : S → A) → Succeeds (read f)
    unfolding read query
    read-Succeeds f w h = rw h refl

    recover-IsCalm : (o : Outcome S A) (a : A) → IsCalm o → IsCalm (recover o a)
    recover-IsCalm (done b w) a h = h
    recover-IsCalm (threw e w) a h = absurd h

    pub or_else-Succeeds : (m : Io S A) (a : A) → Succeeds m → Succeeds (or_else m a)
    or_else-Succeeds m a k w h = recover-IsCalm (m w) a (k w h)

  pub write-Succeeds : (f : S → S) → Succeeds (write f)
  unfolding write query
  write-Succeeds f w h = rw h refl

  module _ {A B : Type 0} where
    continue-IsCalm :
        (o : Outcome S A) (f : A → Io S B)
        → IsCalm o
        → ((a : A) → Succeeds (f a))
        → IsCalm (continue o f)
    continue-IsCalm (done a w) f h k = k a w h
    continue-IsCalm (threw e w) f h k = absurd h

    pub >>=-Succeeds :
        (m : Io S A) (f : A → Io S B) → Succeeds m → ((a : A) → Succeeds (f a)) → Succeeds (m >>= f)
    >>=-Succeeds m f h k w e = continue-IsCalm (m w) f (h w e) k

map_world-IsCalm :
    {S T A : Type 0} (put : S → T → T) (t : T) (o : Outcome S A)
    → IsCalm o
    → IsCalm (map_world (λ (v : World S). record { db = put v.db t; faults = v.faults }) o)
map_world-IsCalm put t (done a w) h = h
map_world-IsCalm put t (threw e w) h = absurd h

pub focus-Succeeds :
    {S T A : Type 0} (get : T → S) (put : S → T → T) (m : Io S A)
    → Succeeds m
    → Succeeds (focus get put m)
focus-Succeeds get put m k w h =
    map_world-IsCalm put w.db (m (record { db = get w.db; faults = w.faults }))
      (k (record { db = get w.db; faults = w.faults }) h)

rolled_back-IsCalm : {S A : Type 0} (s : S) (o : Outcome S A) → IsCalm o → IsCalm (rolled_back s o)
rolled_back-IsCalm s (done a w) h = h
rolled_back-IsCalm s (threw e w) h = absurd h

pub with_transaction-Succeeds :
    {S A : Type 0} (fn : Io S A) → Succeeds fn → Succeeds (with_transaction fn)
unfolding with_transaction committed control
with_transaction-Succeeds fn h = >>=-Succeeds control _ (write-Succeeds _) λ u w e.
    rolled_back-IsCalm w.db (committed fn w) (
      >>=-Succeeds control _ (write-Succeeds _)
        (λ x. >>=-Succeeds fn _ h (λ a. >>=-Succeeds control _ (write-Succeeds _) (λ y v k. k))) w
        e)
