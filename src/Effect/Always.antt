-- ===== src/Effect/Always.antt =====
-- A relation between the rows before and after a call, returned or thrown, from that of its parts.
use genesis_reserve_smarter.Base.{◌≡◌, refl, Bool, true, false, Bool-cases, inl, inr}
use genesis_reserve_smarter.Effect.{
  World, Outcome, done, threw, Result, ok, err, Io, world_of, pure, ◌>>=◌, continue, query, read,
  write, control, committed, closed, around, advance, attempt, next_fault, map_world,
}

module _ {S : Type 0} (R : S → S → Type 0) where
  -- `m` relates the rows that it finds to those that it leaves.
  abbrev pub Always : {A : Type 0} → Io S A → Type 0
  Always m = (w : World S) → R w.db (world_of (m w)).db

  module _ (same : (s : S) → R s s) where
    pub pure-Always : {A : Type 0} (a : A) → Always (pure a)
    pure-Always a w = same w.db

    module _ {A : Type 0} where
      attempt-Always :
          (b : Bool) (r : Result (A × S)) (w : World S)
          → ((a : A) (s : S) → r ≡ ok (a, s) → R w.db s)
          → R w.db (world_of (attempt b r w)).db
      attempt-Always true r w h = same w.db
      attempt-Always false (ok (a, s)) w h = h a s refl
      attempt-Always false (err e) w h = same w.db

      pub query-Always :
          (run : S → Result (A × S))
          → ((s s' : S) (a : A) → run s ≡ ok (a, s') → R s s')
          → Always (query run)
      unfolding query
      query-Always run h w =
          attempt-Always (next_fault w.faults) (run w.db) (advance w) (λ a s e. h w.db s a e)

      attempt_ok :
          (b : Bool) (a : A) (s : S) (w : World S)
          → R w.db s
          → R w.db (world_of (attempt b (ok (a, s)) w)).db
      attempt_ok true a s w h = same w.db
      attempt_ok false a s w h = h

      pub read-Always : (f : S → A) → Always (read f)
      unfolding read query
      read-Always f w = attempt_ok (next_fault w.faults) (f w.db) w.db (advance w) (same w.db)

    pub write-Always : (f : S → S) → ((s : S) → R s (f s)) → Always (write f)
    unfolding write query
    write-Always f h w = attempt_ok (next_fault w.faults) tt (f w.db) (advance w) (h w.db)

    -- A write that is right for the rows that it meets.
    pub write_here : (f : S → S) (w : World S) → R w.db (f w.db) → R w.db (world_of (write f w)).db
    unfolding write query
    write_here f w h = attempt_ok (next_fault w.faults) tt (f w.db) (advance w) h

    -- A read and what is done with the value, for the rows that are read.
    pub read_then :
        {A B : Type 0} (f : S → A) (k : A → Io S B) (w : World S)
        → R w.db (world_of (k (f w.db) (advance w))).db
        → R w.db (world_of ((read f >>= k) w)).db
    unfolding read query
    read_then f k w h = elim (Bool-cases (next_fault w.faults)) [
      | inl fails ↦ rw fails (same w.db)
      | inr works ↦ rw works h
    ]

    pub control-Always : Always control
    unfolding control
    control-Always = write-Always (λ s. s) same

    closed-Always :
        {A : Type 0} (s : S) (o : Outcome S A) → R s (world_of o).db → R s (world_of (closed o)).db
    closed-Always s (done a w) h = h
    closed-Always s (threw e w) h = h

  module _ (step : (s t u : S) → R s t → R t u → R s u) where
    pub continue-Always :
        {A B : Type 0} (s : S) (o : Outcome S A) (f : A → Io S B)
        → R s (world_of o).db
        → ((a : A) → Always (f a))
        → R s (world_of (continue o f)).db
    continue-Always s (done a w) f h k = step s w.db _ h (k a w)
    continue-Always s (threw e w) f h k = h

    pub >>=-Always :
        {A B : Type 0} (m : Io S A) (f : A → Io S B)
        → Always m
        → ((a : A) → Always (f a))
        → Always (m >>= f)
    >>=-Always m f h k w = continue-Always w.db (m w) f (h w) k

    module _ (same : (s : S) → R s s) where
      committed-Always : {A : Type 0} (fn : Io S A) → Always fn → Always (committed fn)
      unfolding committed
      committed-Always fn h = >>=-Always control _ (control-Always same) λ _.
          >>=-Always fn _ h
            λ a. >>=-Always control _ (control-Always same) (λ _. pure-Always same a)

      pub around-Always : {A : Type 0} (fn : Io S A) → Always fn → Always (around fn)
      unfolding around
      around-Always fn h =
          >>=-Always control _ (control-Always same)
            λ _ w. closed-Always same w.db (committed fn w) (committed-Always fn h w)

pub world_of-map_world :
    {S T A : Type 0} (f : World S → World T) (o : Outcome S A)
    → world_of (map_world f o) ≡ f (world_of o)
world_of-map_world f (done a w) = refl
world_of-map_world f (threw e w) = refl
