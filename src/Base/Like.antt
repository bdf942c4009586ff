-- ===== src/Base/Like.antt =====
-- SQL's `LIKE`: `%` stands for any text, `_` for any one character, and a backslash
-- before a character for that character.
use Prim.Native.Nat.{ℕ}
use Prim.Native.Char.{code}
use Prim.Native.String.{String, ◌++◌ as join}
use mathlib.Core.Bool.{Bool, true, false, not, ◌&&◌, ◌||◌}
use mathlib.Core.List.{List, [], ◌∷◌}
use genesis_reserve_smarter.Base.Tests.{if◌then◌else◌, ◌==◌}

abbrev pub codes : String → List ℕ
codes String.[] = []
codes (String.◌∷◌ c s) = code c ∷ codes s

-- Concatenation of texts, as in a template literal.
abbrev pub cat : String → String → String
cat = join

-- What the rest of a pattern matches at any later place.
later_match : (List ℕ → Bool) → List ℕ → Bool
later_match p [] = p []
later_match p (c ∷ s) = p (c ∷ s) || later_match p s

one_match : Bool → (List ℕ → Bool) → ℕ → List ℕ → Bool
one_match wild p c [] = false
one_match wild p c (d ∷ s) = (wild || (c == d)) && p s

abbrev is_empty : List ℕ → Bool
is_empty [] = true
is_empty (_ ∷ _) = false

-- `escaped`: the character before was a backslash, so the next one stands for itself. The server
-- refuses a pattern that ends with a backslash; here it matches nothing.
unfoldable pub matches_from : Bool → List ℕ → List ℕ → Bool
unfolding later_match one_match
matches_from escaped [] s = not escaped && is_empty s
matches_from true (c ∷ pattern) s = one_match false (matches_from false pattern) c s
matches_from false (c ∷ pattern) s =
    let rest = matches_from false pattern in
    let literal = matches_from true pattern in
    if c == 92
    then literal s
    else if c == b'%'
    then later_match rest s
    else one_match (c == b'_') rest c s

unfoldable pub like : String → String → Bool
unfolding matches_from
like value pattern = matches_from false (codes pattern) (codes value)
