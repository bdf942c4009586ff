-- ===== src/Tests/Limits.antt =====
-- A limiter and a cache (apps/web/src/app/api/gr/_lib/request-controls.ts).
use genesis_reserve_smarter.Base.{String, ◌≡◌, some, false, List, [], ◌∷◌, arith}
use genesis_reserve_smarter.Base.Maps.{lookup}
use genesis_reserve_smarter.Web.RequestControls.{is_limited, get_cached}
use genesis_reserve_smarter.Web.RequestControls.Limits.{
  Call, admitted, windows_after, admitted-eq-min, is_limited-windows_after,
}
use genesis_reserve_smarter.Web.RequestControls.Cache.{
  CacheUse, get_at, set_at, store_after, get_cached-store_after,
}

abbrev later_calls : List Call
later_calls = ("a", 1) ∷ ("b", 3) ∷ ("a", 5) ∷ ("a", 10) ∷ []

admitted-eq-min_example : admitted 2 10 "a" (("a", 0) ∷ later_calls) [] ≡ 2
unfolding lookup
admitted-eq-min_example =
    admitted-eq-min 2 10 "a" 0 later_calls [] (λ r e. absurd (cc)) (omega arith)

is_limited-windows_after_example :
    (is_limited 2 10 30 "a" (windows_after 2 10 later_calls [])).1 ≡ false
is_limited-windows_after_example = is_limited-windows_after 2 10 "a" 30 later_calls (omega arith)

abbrev cache_uses : List (CacheUse String)
cache_uses = set_at 0 "a" "x" 5 ∷ get_at 3 "a" ∷ get_at 6 "a" ∷ set_at 7 "a" "y" 5 ∷ []

get_cached-store_after_example : (get_cached 11 "a" (store_after cache_uses [])).1 ≡ some "y"
get_cached-store_after_example = get_cached-store_after "a" cache_uses 11 (omega arith)
