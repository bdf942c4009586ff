-- ===== src/Web/RequestControls.antt =====
-- The limits on requests and the cache of answers (apps/web/src/app/api/gr/_lib/request-controls.ts).
-- `Date.now()` is an argument.
pub mod Limits
pub mod Cache
use genesis_reserve_smarter.Base.{
  ℕ, ◌+◌, ◌-◌, String, Option, none, some, Bool, false, ◌||◌, ltb, leb, if◌then◌else◌,
}
use genesis_reserve_smarter.Base.Maps.{Dict, lookup, put, remove}

pub record RateWindow : Type 0 where
  pub window_start : ℕ
  pub count : ℕ

abbrev pub Windows : Type 0
Windows = Dict RateWindow

-- `now - existing.windowStart > windowMs`; a clock set back makes the difference negative.
unfoldable pub has_passed : ℕ → ℕ → RateWindow → Bool
has_passed window_ms now existing = ltb (existing.window_start + window_ms) now

fresh_window : String → ℕ → Windows → Windows × Bool
fresh_window key now windows = (put key (record { window_start = now; count = 1 }) windows, false)

counted_in : ℕ → String → RateWindow → Windows → Windows × Bool
counted_in limit_per_window key existing windows =
    let next : RateWindow = record existing { count = existing.count + 1 } in
    (put key next windows, ltb limit_per_window next.count)

limited_by : ℕ → ℕ → ℕ → String → Option RateWindow → Windows → Windows × Bool
limited_by limit window_ms now key none windows = fresh_window key now windows
limited_by limit window_ms now key (some existing) windows =
    if has_passed window_ms now existing
    then fresh_window key now windows
    else counted_in limit key existing windows

-- `createRateLimiter(limitPerWindow, windowMs).isLimited(key)` at the moment `now`.
unfoldable pub is_limited : ℕ → ℕ → ℕ → String → Windows → Windows × Bool
unfolding limited_by fresh_window counted_in has_passed
is_limited limit window_ms now key windows =
    limited_by limit window_ms now key (lookup key windows) windows

pub record CacheEntry (T : Type 0) : Type 0 where
  pub expires_at : ℕ
  pub payload : T

module _ {T : Type 0} where
  entry_or_delete :
      ℕ → String → Option (CacheEntry T) → Dict (CacheEntry T) → Dict (CacheEntry T) × Option T
  entry_or_delete now key none store = (store, none)
  entry_or_delete now key (some entry) store =
      if leb entry.expires_at now then (remove key store, none) else (store, some entry.payload)

  -- `createTtlCache().get(key)`
  unfoldable pub get_cached : ℕ → String → Dict (CacheEntry T) → Dict (CacheEntry T) × Option T
  unfolding entry_or_delete
  get_cached now key store = entry_or_delete now key (lookup key store) store

  -- `createTtlCache().set(key, payload, ttlMs)`
  unfoldable pub set_cached : ℕ → String → T → ℕ → Dict (CacheEntry T) → Dict (CacheEntry T)
  set_cached now key payload ttl_ms store =
      put key (record { expires_at = now + ttl_ms; payload = payload }) store
