-- ===== src/Effect/Atomic.antt =====
-- What holds of every statement and every transaction, whatever fails (apps/api/src/config/db.ts).
use genesis_reserve_smarter.Base.{◌≡◌, refl, arith}
use genesis_reserve_smarter.Effect.{
  World, Outcome, done, threw, Io, query, rolled_back, committed, with_transaction, advance,
}

module _ {S A : Type 0} where
  -- What a call that returns has done.
  abbrev pub Returns : (A → S → Type 0) → Outcome S A → Type 0
  Returns Q (done a w) = Q a w.db
  Returns Q (threw e w) = Unit

  -- A call that returns has done `Q`, and one that throws has changed nothing.
  abbrev pub Ends : (A → S → Type 0) → S → Outcome S A → Type 0
  Ends Q s (done a w) = Q a w.db
  Ends Q s (threw e w) = w.db ≡ s

  -- A call that returns, and what it has done.
  abbrev pub Gives : (A → S → Type 0) → Outcome S A → Type 0
  Gives Q (done a w) = Q a w.db
  Gives Q (threw e w) = ⊥

  pub Gives-of :
      (Q : A → S → Type 0) (o : Outcome S A) (a : A) (w : World S)
      → Returns Q o
      → o ≡ done a w
      → Gives Q o
  Gives-of Q (done b v) a w h e = h
  Gives-of Q (threw x v) a w h e = cc e

  rolled_back-Ends :
      (Q : A → S → Type 0) (s : S) (o : Outcome S A) → Returns Q o → Ends Q s (rolled_back s o)
  rolled_back-Ends Q s (done a w) h = h
  rolled_back-Ends Q s (threw e w) h = refl

  committed-Returns :
      (Q : A → S → Type 0) (fn : Io S A) (w : World S)
      → Returns Q (fn (advance w))
      → Returns Q (committed fn w)
  unfolding committed query
  committed-Returns Q fn w h = ground arith

  pub with_transaction-Ends :
      (Q : A → S → Type 0) (fn : Io S A) (w : World S)
      → Returns Q (fn (advance (advance w)))
      → Ends Q w.db (with_transaction fn w)
  unfolding with_transaction
  with_transaction-Ends Q fn w h = ground (
    arith,
    rolled_back-Ends Q w.db (committed fn (advance w)) (committed-Returns Q fn (advance w) h),
  )
