-- ===== src/Treasury/Idempotency.antt =====
-- A repeated request gets the first answer (apps/api/src/treasury/treasury.service.ts).
use genesis_reserve_smarter.Base.{
  ◌≡◌, refl, sym, subst, String, Option, none, some, Bool, true, false, List, [], ◌∷◌, ◌++◌, any,
  ap, ◌∙◌, arith, str_eq, eq_refl, Bool-cases, inl, inr, ℕ,
}
use genesis_reserve_smarter.Base.Int.{ℤ}
use genesis_reserve_smarter.Database.{TreasuryAccount}
use genesis_reserve_smarter.Effect.{World, Outcome, done, threw, Io, Result, continue, or_throw}
use genesis_reserve_smarter.Effect.Atomic.{Returns}
use genesis_reserve_smarter.Ledger.Posting.{HashInput, post_entry}
use genesis_reserve_smarter.Ledger.Orders.{get_account}
use genesis_reserve_smarter.Compliance.Screens.{ScreeningResult, screen_transfer}
use genesis_reserve_smarter.Compliance.Status.{get_account_status}
use genesis_reserve_smarter.Remittance.{FxQuote, get_corridor_config}
use genesis_reserve_smarter.Treasury.{ReserveRequest, Cached, Memory, on_rows, cached_at}
use genesis_reserve_smarter.Treasury.Reserve.{
  ReserveInputs, reserve_funds, reserve_uncached, reserve_from, reserve_screened, reserve_entry,
  QuoteParams, build_quote, quote_uncached, quote_for, config_of,
}

continue-Returns :
    {A B : Type 0} (Q : B → Memory → Type 0) (o : Outcome Memory A) (f : A → Io Memory B)
    → ((a : A) (w : World Memory) → Returns Q (f a w))
    → Returns Q (continue o f)
continue-Returns Q (done a w) f h = h a w
continue-Returns Q (threw e w) f h = tt

-- The answer is stored under the key.
abbrev Stored : String → Cached → Memory → Type 0
Stored key c s = cached_at key s.cache ≡ some c

stored_first :
    (key : String) (c : Cached) (rest : List (String × Cached))
    → cached_at key ((key, c) ∷ rest) ≡ some c
unfolding cached_at
stored_first key c rest = rw (eq_refl key) refl

-- What was set since under other keys.
abbrev pub OthersSince : String → List (String × Cached) → World Memory → World Memory → Type 0
OthersSince key added v u =
    (u.db.cache ≡ added ++ v.db.cache)
    × (any (λ (x : String × Cached). str_eq x.0 key) added ≡ false)

cached_at-append :
    (key : String) (added rest : List (String × Cached))
    → any (λ (x : String × Cached). str_eq x.0 key) added ≡ false
    → cached_at key (added ++ rest) ≡ cached_at key rest
unfolding cached_at
cached_at-append key [] rest h = refl
cached_at-append key ((k, c) ∷ added) rest h = ground (arith, h, cached_at-append key added rest)

Stored-since :
    (key : String) (c : Cached) (added : List (String × Cached)) (v u : World Memory)
    → OthersSince key added v u
    → Stored key c v.db
    → Stored key c u.db
Stored-since key c added v u (since, others) stored =
    ap (cached_at key) since ∙ cached_at-append key added v.db.cache others ∙ stored

-- A returned outcome has done what `Returns` says.
returned :
    {A : Type 0} (Q : A → Memory → Type 0) (o : Outcome Memory A) (a : A) (w : World Memory)
    → Returns Q o
    → o ≡ done a w
    → Q a w.db
returned Q o a w h e = subst (Returns Q) e h

module _ (digest : HashInput → String) (lower : String → String) (cast : String → Option ℤ) where
  reserve_screened-Stored :
      (req : ReserveRequest) (i : ReserveInputs) (screen : ScreeningResult) (b : Bool)
      (w : World Memory)
      → Returns (Stored req.idempotency_key) (reserve_screened digest lower cast req i screen b w)
  unfolding reserve_screened
  reserve_screened-Stored req i screen false w = stored_first req.idempotency_key _ w.db.cache
  reserve_screened-Stored req i screen true w =
      continue-Returns (Stored req.idempotency_key) (or_throw i.vault w) _ λ receipt v.
        continue-Returns (Stored req.idempotency_key)
          (on_rows (post_entry digest (reserve_entry digest lower cast req receipt) i.moment) v) _
          λ e u. stored_first req.idempotency_key _ u.db.cache

  reserve_from-Stored :
      (req : ReserveRequest) (i : ReserveInputs) (a : Option TreasuryAccount) (w : World Memory)
      → Returns (Stored req.idempotency_key) (reserve_from digest lower cast req i a w)
  unfolding reserve_from
  reserve_from-Stored req i none w = tt
  reserve_from-Stored req i (some account) w =
      continue-Returns (Stored req.idempotency_key)
        (on_rows
          (screen_transfer lower cast account.wallet_address account.wallet_address req.amount
            req.external_order_id i.now)
          w)
        (λ screen. reserve_screened digest lower cast req i screen (str_eq screen.result "PASS"))
        λ screen v. reserve_screened-Stored req i screen (str_eq screen.result "PASS") v

  reserve_uncached-Stored :
      (req : ReserveRequest) (i : ReserveInputs) (c : Option Cached) (w : World Memory)
      → cached_at req.idempotency_key w.db.cache ≡ c
      → Returns (Stored req.idempotency_key) (reserve_uncached digest lower cast req i c w)
  unfolding reserve_uncached
  reserve_uncached-Stored req i none w e =
      continue-Returns (Stored req.idempotency_key) (on_rows (get_account req.account_id) w)
        (reserve_from digest lower cast req i) λ a v. reserve_from-Stored req i a v
  reserve_uncached-Stored req i (some c) w e = e

  reserve_funds-Stored :
      (req : ReserveRequest) (i : ReserveInputs) (w : World Memory)
      → Returns (Stored req.idempotency_key) (reserve_funds digest lower cast req i w)
  unfolding reserve_funds
  reserve_funds-Stored req i w = reserve_uncached-Stored req i _ w refl

  reserve_funds-cached :
      (req : ReserveRequest) (i : ReserveInputs) (w : World Memory) (c : Cached)
      → Stored req.idempotency_key c w.db
      → reserve_funds digest lower cast req i w ≡ done c w
  unfolding reserve_funds reserve_uncached
  reserve_funds-cached req i w c h = rw h refl

  -- Once a request to reserve has returned, a later one with its idempotency key, whatever else it asks,
  -- gets the same answer, and no statement runs, nothing is reserved or posted again; whatever has
  -- changed in between, as long as the map was set under other keys only.
  pub reserve_funds-again :
      (req later : ReserveRequest) (i j : ReserveInputs) (w v u : World Memory) (c : Cached)
      (added : List (String × Cached))
      → reserve_funds digest lower cast req i w ≡ done c v
      → later.idempotency_key ≡ req.idempotency_key
      → OthersSince req.idempotency_key added v u
      → reserve_funds digest lower cast later j u ≡ done c u
  reserve_funds-again req later i j w v u c added first same since =
      let stored =
        returned (Stored req.idempotency_key) _ c v (reserve_funds-Stored req i w) first in
      reserve_funds-cached later j u c (
        subst (λ k. Stored k c u.db) (sym same)
          (Stored-since req.idempotency_key c added v u since stored))

module _ (lower : String → String) (keccak : String → String) (show : ℕ → String) where
  -- A quote is stored under the key of its request, unless that is the id of the quote.
  twice_stored :
      (key id : String) (c : Cached) (rest : List (String × Cached))
      → cached_at key ((id, c) ∷ (key, c) ∷ rest) ≡ some c
  unfolding cached_at
  twice_stored key id c rest = elim (Bool-cases (str_eq id key)) [
    | inl same ↦ rw same refl
    | inr other ↦ rw (other, eq_refl key) refl
  ]

  quote_for-Stored :
      (p : QuoteParams) (now : ℕ) (fx : FxQuote) (a : Option TreasuryAccount) (w : World Memory)
      → Returns (Stored p.idempotency_key) (quote_for lower keccak show p now fx a w)
  unfolding quote_for
  quote_for-Stored p now fx none w = tt
  quote_for-Stored p now fx (some account) w =
      continue-Returns (Stored p.idempotency_key)
        (on_rows (get_account_status lower account.wallet_address) w) _
        λ status v.
          continue-Returns (Stored p.idempotency_key)
            (or_throw (config_of lower keccak show p.corridor (get_corridor_config p.corridor)) v) _
            λ config u. twice_stored p.idempotency_key _ _ u.db.cache

  quote_uncached-Stored :
      (p : QuoteParams) (now : ℕ) (fx : Result FxQuote) (c : Option Cached) (w : World Memory)
      → cached_at p.idempotency_key w.db.cache ≡ c
      → Returns (Stored p.idempotency_key) (quote_uncached lower keccak show p now fx c w)
  unfolding quote_uncached
  quote_uncached-Stored p now fx none w e =
      continue-Returns (Stored p.idempotency_key) (on_rows (get_account p.account_id) w) _ λ a v.
        continue-Returns (Stored p.idempotency_key) (or_throw fx v)
          (λ answer. quote_for lower keccak show p now answer a)
          λ answer u. quote_for-Stored p now answer a u
  quote_uncached-Stored p now fx (some c) w e = e

  -- Once a quote has been built, a later request with its idempotency key, whatever else it asks and
  -- however late it comes, gets the same answer, also one that has expired, and changes nothing;
  -- whatever has changed in between, as long as the map was set under other keys only.
  pub build_quote-again :
      (p later : QuoteParams) (now then_now : ℕ) (fx then_fx : Result FxQuote)
      (w v u : World Memory) (c : Cached) (added : List (String × Cached))
      → build_quote lower keccak show p now fx w ≡ done c v
      → later.idempotency_key ≡ p.idempotency_key
      → OthersSince p.idempotency_key added v u
      → build_quote lower keccak show later then_now then_fx u ≡ done c u
  unfolding build_quote quote_uncached
  build_quote-again p later now then_now fx then_fx w v u c added first same since =
      let stored =
        returned (Stored p.idempotency_key) _ c v (quote_uncached-Stored p now fx _ w refl) first in
      let found : cached_at later.idempotency_key u.db.cache ≡ some c =
        subst (λ k. Stored k c u.db) (sym same)
          (Stored-since p.idempotency_key c added v u since stored) in
      rw found refl
