-- ===== src/Base/Strings.antt =====
-- Go's strings as lists of code points, and the functions of package `strings` that the program
-- calls.
use Prim.Native.Nat.{ℕ, ◌+◌}
use Prim.Native.Char.{code}
use Prim.Native.String.{String}
use mathlib.Core.Bool.{Bool, true, false, ◌&&◌, ◌||◌}
use mathlib.Core.List.{List, [], ◌∷◌, map, reverse}
use mini_sb_agent.Base.Tests.{length, drop, leb, nat_beq, if◌then◌else◌, is_empty}

abbrev pub Text : Type 0
Text = List ℕ

-- The code points of a literal.
abbrev pub codes : String → Text
codes String.[] = []
codes (String.◌∷◌ c s) = code c ∷ codes s

-- `unicode.IsSpace`
unfoldable pub is_space : ℕ → Bool
is_space c =
    (leb 9 c && leb c 13)
    || nat_beq c 32
    || nat_beq c 0x85
    || nat_beq c 0xa0
    || nat_beq c 0x1680
    || (leb 0x2000 c && leb c 0x200a)
    || nat_beq c 0x2028
    || nat_beq c 0x2029
    || nat_beq c 0x202f
    || nat_beq c 0x205f
    || nat_beq c 0x3000

-- Drops the leading code points that pass the test.
unfoldable pub drop_while : (ℕ → Bool) → Text → Text
drop_while p [] = []
drop_while p (c ∷ s) = if p c then drop_while p s else c ∷ s

-- `strings.TrimFunc`: both ends.
unfoldable pub trim : (ℕ → Bool) → Text → Text
unfolding drop_while
trim p s = reverse (drop_while p (reverse (drop_while p s)))

-- `strings.TrimSpace`
unfoldable pub trim_space : Text → Text
unfolding trim is_space
trim_space s = trim is_space s

-- `unicode.ToLower` on ASCII and on the two other letters whose lower case is an ASCII letter
-- (U+0130 and U+212A). The remaining letters are kept: no word that the program compares with
-- holds one.
unfoldable pub lower : ℕ → ℕ
lower c =
    if leb b'A' c && leb c b'Z'
    then c + 32
    else if nat_beq c 0x130
    then b'i'
    else if nat_beq c 0x212a
    then b'k'
    else c

-- `strings.ToLower` on the letters of ASCII.
unfoldable pub to_lower : Text → Text
unfolding lower
to_lower s = map lower s

-- `strings.HasPrefix`
unfoldable pub has_prefix : Text → Text → Bool
has_prefix s [] = true
has_prefix [] (c ∷ p) = false
has_prefix (d ∷ s) (c ∷ p) = nat_beq d c && has_prefix s p

-- `strings.Contains`
unfoldable pub contains : Text → Text → Bool
unfolding has_prefix
contains [] p = is_empty p
contains (c ∷ s) p = has_prefix (c ∷ s) p || contains s p

-- `strings.TrimPrefix`
unfoldable pub trim_prefix : Text → Text → Text
unfolding has_prefix
trim_prefix s p = if has_prefix s p then drop (length p) s else s

-- `strings.TrimRight`, for the code points that pass the test.
unfoldable pub trim_right : (ℕ → Bool) → Text → Text
unfolding drop_while
trim_right p s = reverse (drop_while p (reverse s))
