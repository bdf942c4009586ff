-- ===== src/Web/RequestControls/Limits.antt =====
-- What the rate limiter admits (apps/web/src/app/api/gr/_lib/request-controls.ts).
use genesis_reserve_smarter.Base.{
  ℕ, ◌+◌, ◌-◌, ◌≤◌, ◌<◌, ◌≡◌, refl, String, some, true, false, not, ◌&&◌, List, [], ◌∷◌, str_eq,
  eq_iff, eq_refl, if◌then◌else◌, leb, ltb, arith, All, length, Bool-cases, Option-cases, inl, inr,
  subst, sym, ◌∙◌, ◌⊎◌,
}
use genesis_reserve_smarter.Base.Maps.{lookup, lookup-put}
use genesis_reserve_smarter.Web.RequestControls.{RateWindow, Windows, is_limited, has_passed}

abbrev pub min : ℕ → ℕ → ℕ
min a b = if leb a b then a else b

-- A request: its key and the moment at which it comes.
abbrev pub Call : Type 0
Call = String × ℕ

-- The moments of the calls with this key.
abbrev pub times_of : String → List Call → List ℕ
times_of key [] = []
times_of key ((k, t) ∷ later) = if str_eq k key then t ∷ times_of key later else times_of key later

module _ (limit window_ms : ℕ) where
  abbrev pub windows_after : List Call → Windows → Windows
  windows_after [] windows = windows
  windows_after ((k, t) ∷ later) windows =
      windows_after later (is_limited limit window_ms t k windows).0

  -- How many calls with this key are let through.
  abbrev pub admitted : String → List Call → Windows → ℕ
  admitted key [] windows = 0
  admitted key ((k, t) ∷ later) windows =
      let answer = is_limited limit window_ms t k windows in
      (if str_eq k key && not answer.1 then 1 else 0) + admitted key later answer.0

  -- No window of the key that is still open at this moment.
  abbrev pub IsFree : String → ℕ → Windows → Type 0
  IsFree key t windows =
      (r : RateWindow) → lookup key windows ≡ some r → has_passed window_ms t r ≡ true

  -- A call with another key leaves the window alone.
  is_limited_other :
      (key k : String) (t : ℕ) (windows : Windows)
      → str_eq k key ≡ false
      → lookup key (is_limited limit window_ms t k windows).0 ≡ lookup key windows
  unfolding is_limited
  is_limited_other key k t windows other = elim (Option-cases (lookup k windows)) [
    | inl e ↦
        rw e (ground (arith, lookup-put key k (record { window_start = t; count = 1 }) windows))
    | inr (r, e) ↦ rw e (
        ground (
          arith,
          lookup-put key k (record { window_start = t; count = 1 }) windows,
          lookup-put key k (record r { count = r.count + 1 }) windows,
        ))
  ]

  -- In an open window each call is counted, and let through up to the limit.
  is_limited_open :
      (key : String) (t : ℕ) (windows : Windows) (r : RateWindow)
      → lookup key windows ≡ some r
      → t ≤ r.window_start + window_ms
      → (lookup key (is_limited limit window_ms t key windows).0
          ≡ some (record r { count = r.count + 1 }))
        × ((is_limited limit window_ms t key windows).1 ≡ ltb limit (r.count + 1))
  unfolding is_limited
  is_limited_open key t windows r e h =
      rw e
        (ground (arith, lookup-put key key (record r { count = r.count + 1 }) windows, eq_refl key))

  is_limited_free :
      (key : String) (t : ℕ) (windows : Windows)
      → IsFree key t windows
      → (lookup key (is_limited limit window_ms t key windows).0
          ≡ some (record { window_start = t; count = 1 }))
        × ((is_limited limit window_ms t key windows).1 ≡ false)
  unfolding is_limited
  is_limited_free key t windows free = elim (Option-cases (lookup key windows)) [
    | inl e ↦ rw e (
        ground
          (arith, lookup-put key key (record { window_start = t; count = 1 }) windows, eq_refl key))
    | inr (r, e) ↦ rw e (
        ground (
          arith,
          free r e,
          lookup-put key key (record { window_start = t; count = 1 }) windows,
          eq_refl key,
        ))
  ]

  -- Calls in an open window are let through while its count is below the limit.
  admitted_open :
      (key : String) (calls : List Call) (windows : Windows) (r : RateWindow)
      → lookup key windows ≡ some r
      → All (λ t. t ≤ r.window_start + window_ms) (times_of key calls)
      → admitted key calls windows ≡ min (length (times_of key calls)) (limit - r.count)
  admitted_open key [] windows r e h = ground arith
  admitted_open key ((k, t) ∷ later) windows r e h =
      let next = (is_limited limit window_ms t k windows).0 in
      elim (Bool-cases (str_eq k key)) [
        | inl same ↦
            let k_is : k ≡ key = (eq_iff k key).0 same in
            let here = rw same at h in
            let now =
              subst
                (λ (j : String).
                  (lookup key (is_limited limit window_ms t j windows).0
                    ≡ some (record r { count = r.count + 1 }))
                  × ((is_limited limit window_ms t j windows).1 ≡ ltb limit (r.count + 1)))
                (sym k_is) (is_limited_open key t windows r e here.0) in
            let rest =
              admitted_open key later next (record r { count = r.count + 1 }) now.0 here.1 in
            rw (same, now.1) (ground (arith, rest))
        | inr other ↦
            let there = rw other at h in
            let rest =
              admitted_open key later next r (is_limited_other key k t windows other ∙ e) there in
            rw other (ground (arith, rest))
      ]

  -- From a call that opens a window for its key on, and while the key's calls stay within the window,
  -- exactly as many of them are let through as the limit says, but at least the first one; the calls
  -- with other keys, at whatever moments, make no difference.
  pub admitted-eq-min :
      (key : String) (t : ℕ) (later : List Call) (windows : Windows)
      → IsFree key t windows
      → All (λ u. u ≤ t + window_ms) (times_of key later)
      → admitted key ((key, t) ∷ later) windows ≡ 1 + min (length (times_of key later)) (limit - 1)
  admitted-eq-min key t later windows free h =
      let now = is_limited_free key t windows free in
      let rest =
        admitted_open key later (is_limited limit window_ms t key windows).0
          (record { window_start = t; count = 1 }) now.0 h in
      rw (now.1, eq_refl key, rest) refl

  -- Every window of the key started at a moment with the property.
  abbrev StartedIn : (ℕ → Type 0) → String → Windows → Type 0
  StartedIn P key windows = (r : RateWindow) → lookup key windows ≡ some r → P r.window_start

  -- After a call the key's window is the new one or has the start of the one before.
  is_limited_start :
      (k : String) (t : ℕ) (windows : Windows) (r : RateWindow)
      → lookup k (is_limited limit window_ms t k windows).0 ≡ some r
      → (r.window_start ≡ t)
        ⊎ ((q : RateWindow) × (lookup k windows ≡ some q) × (q.window_start ≡ r.window_start))
  unfolding is_limited
  is_limited_start k t windows r now = elim (Option-cases (lookup k windows)) [
    | inl e ↦
        let now' = rw e at now in
        inl (
          ground (
            arith,
            now',
            lookup-put k k (record { window_start = t; count = 1 }) windows,
            eq_refl k,
          ))
    | inr (q, e) ↦
        let now' = rw e at now in
        elim (Bool-cases (has_passed window_ms t q)) [
          | inl passed ↦ inl (
              ground (
                arith,
                now',
                passed,
                lookup-put k k (record { window_start = t; count = 1 }) windows,
                eq_refl k,
              ))
          | inr stays ↦ inr (
            q,
            e,
            ground (
              arith,
              now',
              stays,
              lookup-put k k (record q { count = q.count + 1 }) windows,
              eq_refl k,
            ),
          )
        ]
  ]

  is_limited-StartedIn :
      (P : ℕ → Type 0) (k : String) (t : ℕ) (windows : Windows)
      → P t
      → StartedIn P k windows
      → StartedIn P k (is_limited limit window_ms t k windows).0
  is_limited-StartedIn P k t windows p s r now = elim (is_limited_start k t windows r now) [
    | inl fresh ↦ subst P (sym fresh) p
    | inr (q, e, same) ↦ subst P same (s q e)
  ]

  no_windows : (P : ℕ → Type 0) (key : String) → StartedIn P key []
  unfolding lookup
  no_windows P key r e = absurd (ground (arith, e))

  windows_after-StartedIn :
      (P : ℕ → Type 0) (key : String) (calls : List Call) (windows : Windows)
      → All P (times_of key calls)
      → StartedIn P key windows
      → StartedIn P key (windows_after calls windows)
  windows_after-StartedIn P key [] windows h s = s
  windows_after-StartedIn P key ((k, t) ∷ later) windows h s =
      let next = (is_limited limit window_ms t k windows).0 in
      elim (Bool-cases (str_eq k key)) [
        | inl same ↦
            let k_is : k ≡ key = (eq_iff k key).0 same in
            let here = rw same at h in
            let kept =
              subst (λ (j : String). StartedIn P key (is_limited limit window_ms t j windows).0)
                (sym k_is) (is_limited-StartedIn P key t windows here.0 s) in
            windows_after-StartedIn P key later next here.1 kept
        | inr other ↦
            let there = rw other at h in
            windows_after-StartedIn P key later next there
              λ r e. s r (sym (is_limited_other key k t windows other) ∙ e)
      ]

  -- After any calls a key whose own calls are all more than a window ago is let through again.
  pub is_limited-windows_after :
      (key : String) (now : ℕ) (calls : List Call)
      → All (λ t. t + window_ms < now) (times_of key calls)
      → (is_limited limit window_ms now key (windows_after calls [])).1 ≡ false
  is_limited-windows_after key now calls h =
      let old =
        windows_after-StartedIn (λ t. t + window_ms < now) key calls [] h (no_windows _ key) in
      (is_limited_free key now (windows_after calls [])
        λ r e. unfold has_passed in ground (arith, old r e)).1
