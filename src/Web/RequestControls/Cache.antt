-- ===== src/Web/RequestControls/Cache.antt =====
-- The cache of answers beside the history of its uses
-- (apps/web/src/app/api/gr/_lib/request-controls.ts).
use genesis_reserve_smarter.Base.{
  ℕ, ◌+◌, ◌≤◌, ◌≡◌, refl, String, Option, none, some, List, [], ◌∷◌, str_eq, eq_iff, if◌then◌else◌,
  leb, arith, Bool-cases, Option-cases, inl, inr, ◌∙◌, ap,
}
use genesis_reserve_smarter.Base.Maps.{Dict, lookup, lookup-put, lookup-remove}
use genesis_reserve_smarter.Web.RequestControls.{CacheEntry, get_cached, set_cached}

pub data CacheUse (T : Type 0) : Type 0 where
  get_at : ℕ → String → CacheUse T
  set_at : ℕ → String → T → ℕ → CacheUse T

-- The clock does not run backwards: the uses come in the order of their moments, from the first
-- moment on and up to the last one.
abbrev pub AreInOrder : {T : Type 0} → ℕ → List (CacheUse T) → ℕ → Type 0
AreInOrder from [] now = from ≤ now
AreInOrder from (get_at t key ∷ later) now = (from ≤ t) × AreInOrder t later now
AreInOrder from (set_at t key payload ttl_ms ∷ later) now = (from ≤ t) × AreInOrder t later now

module _ {T : Type 0} where
  abbrev pub store_after : List (CacheUse T) → Dict (CacheEntry T) → Dict (CacheEntry T)
  store_after [] store = store
  store_after (get_at t key ∷ later) store = store_after later (get_cached t key store).0
  store_after (set_at t key payload ttl_ms ∷ later) store =
      store_after later (set_cached t key payload ttl_ms store)

  -- What was last set for the key, in a history that nothing is deleted from.
  abbrev pub last_set : String → List (CacheUse T) → Option (CacheEntry T) → Option (CacheEntry T)
  last_set key [] e = e
  last_set key (get_at t k ∷ later) e = last_set key later e
  last_set key (set_at t k payload ttl_ms ∷ later) e =
      last_set key later
        (if str_eq k key then some (record { expires_at = t + ttl_ms; payload = payload }) else e)

  -- The payload, while it has not expired.
  abbrev pub unexpired : ℕ → Option (CacheEntry T) → Option T
  unexpired now none = none
  unexpired now (some e) = if leb e.expires_at now then none else some e.payload

  get_cached_value :
      (now : ℕ) (key : String) (store : Dict (CacheEntry T))
      → (get_cached now key store).1 ≡ unexpired now (lookup key store)
  unfolding get_cached
  get_cached_value now key store = elim (Option-cases (lookup key store)) [
    | inl e ↦ rw e refl
    | inr (x, e) ↦ rw e (ground arith)
  ]

  -- Looking a key up changes no answer from that moment on.
  get_cached_store :
      (t now : ℕ) (k key : String) (store : Dict (CacheEntry T))
      → t ≤ now
      → unexpired now (lookup key (get_cached t k store).0) ≡ unexpired now (lookup key store)
  unfolding get_cached
  get_cached_store t now k key store h = elim (Option-cases (lookup k store)) [
    | inl e ↦ rw e refl
    | inr (x, e) ↦ rw e (ground (arith, lookup-remove key k store, eq_iff k key, e))
  ]

  lookup-set_cached :
      (t ttl_ms : ℕ) (k key : String) (payload : T) (store : Dict (CacheEntry T))
      → lookup key (set_cached t k payload ttl_ms store) ≡ (
          if str_eq k key
          then some (record { expires_at = t + ttl_ms; payload = payload })
          else lookup key store)
  unfolding set_cached
  lookup-set_cached t ttl_ms k key payload store = lookup-put key k _ store

  abbrev Agree : ℕ → Option (CacheEntry T) → Option (CacheEntry T) → Type 0
  Agree from d e = (now : ℕ) → from ≤ now → unexpired now d ≡ unexpired now e

  store_after-last_set :
      (key : String) (uses : List (CacheUse T)) (from now : ℕ) (store : Dict (CacheEntry T))
      (e : Option (CacheEntry T))
      → AreInOrder from uses now
      → Agree from (lookup key store) e
      → unexpired now (lookup key (store_after uses store)) ≡ unexpired now (last_set key uses e)
  store_after-last_set key [] from now store e h a = a now h
  store_after-last_set key (get_at t k ∷ later) from now store e h a =
      store_after-last_set key later t now (get_cached t k store).0 e h.1
        λ n le. get_cached_store t n k key store le ∙ a n (omega (arith, h.0))
  store_after-last_set key (set_at t k payload ttl_ms ∷ later) from now store e h a =
      store_after-last_set key later t now (set_cached t k payload ttl_ms store) _ h.1 λ n le.
        ap (unexpired n) (lookup-set_cached t ttl_ms k key payload store)
        ∙ elim (Bool-cases (str_eq k key)) [
          | inl same ↦ rw same refl
          | inr other ↦ rw other (a n (omega (arith, h.0)))
        ]

  -- After any uses, in the order of time, a look-up gives what was last set for the key if its time
  -- is not over, and nothing otherwise; the deletions on the way make no difference.
  pub get_cached-store_after :
      (key : String) (uses : List (CacheUse T)) (now : ℕ)
      → AreInOrder 0 uses now
      → (get_cached now key (store_after uses [])).1 ≡ unexpired now (last_set key uses none)
  get_cached-store_after key uses now h =
      get_cached_value now key (store_after uses [])
      ∙ store_after-last_set key uses 0 now [] none h (nothing key)
    where
      nothing : (key : String) → Agree 0 (lookup key []) none
      nothing key n le = unfold lookup in refl
