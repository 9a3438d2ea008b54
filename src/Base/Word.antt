-- ===== src/Base/Word.antt =====
-- Go's `int64` as a bit pattern below `2 ^ 64`, read as signed: a pattern from `2 ^ 63` on is
-- negative. Addition and subtraction wrap around.
use Prim.Native.Nat.{ℕ, ◌+◌, ◌-◌, ◌*◌, ◌/◌, ◌%◌, ◌^◌}
use mathlib.Core.Bool.{Bool, ◌&&◌}
use mini_sb_agent.Base.Tests.{ltb, leb, if◌then◌else◌}

abbrev pub word : ℕ
word = 2 ^ 64

abbrev pub half_word : ℕ
half_word = 2 ^ 63

abbrev pub add64 : ℕ → ℕ → ℕ
add64 a b = (a + b) % word

abbrev pub sub64 : ℕ → ℕ → ℕ
sub64 a b = (a + word - b) % word

abbrev pub mul64 : ℕ → ℕ → ℕ
mul64 a b = (a * b) % word

-- `x < 0`
abbrev pub is_neg : ℕ → Bool
is_neg x = leb half_word x

-- `x > 0`
abbrev pub is_pos : ℕ → Bool
is_pos x = ltb 0 x && ltb x half_word

-- `x / d` for a positive `d`: Go's division drops the fraction on either side of 0.
abbrev pub div64 : ℕ → ℕ → ℕ
div64 x d = if is_neg x then (word - (word - x) / d) % word else x / d

-- `x < y` on signed values
abbrev pub lt64 : ℕ → ℕ → Bool
lt64 x y = ltb ((x + half_word) % word) ((y + half_word) % word)
