-- ===== src/Http/Reading.antt =====
-- What panelapi/minhttp.go uses of bufio, io, strings and strconv, on a stream of bytes.
--
-- A stream is what arrives before the other side closes the connection. The lines of a header are
-- ASCII.
use mini_sb_agent.Base.{
  ℕ, ◌+◌, ◌-◌, ◌*◌, Bool, true, false, ◌&&◌, ◌||◌, Option, none, some, List, [], ◌∷◌, ◌++◌, ltb,
  leb, if◌then◌else◌, length, is_empty, ◌==◌, nat_eq, list_eq, pair_eq, half_word, Text, codes,
  is_space, drop_while, ℤ, pos, diff, take, drop, trim_right,
}

abbrev pub longer : ℕ → Option (Text × Text) → Option (Text × Text)
longer c none = none
longer c (some (line, s)) = some (c ∷ line, s)

-- `ReadString('\n')`: the line with its end, and what follows it; `none` if the stream ends before.
unfoldable pub read_line : Text → Option (Text × Text)
read_line [] = none
read_line (c ∷ s) = let rest = read_line s in if c == b'\n' then some (c ∷ [], s) else longer c rest

-- `io.ReadFull` into a buffer of `n` bytes.
unfoldable pub read_full : ℕ → Text → Option (Text × Text)
read_full n s = if leb n (length s) then some (take n s, drop n s) else none

abbrev pub is_line_end : ℕ → Bool
is_line_end c = c == b'\r' || c == b'\n'

abbrev with_line : Text → Option (List Text × Text) → Option (List Text × Text)
with_line line none = none
with_line line (some (lines, s)) = some (line ∷ lines, s)

-- The loop that reads lines up to an empty one: the lines, and what follows the empty one. `line` is
-- what is read of the current line.
unfoldable pub read_block : Text → Text → Option (List Text × Text)
unfolding trim_right drop_while
read_block line [] = none
read_block line (c ∷ s) =
    let longer = read_block (line ++ c ∷ []) s in
    let next = read_block [] s in
    let shown = trim_right is_line_end line in
    if c == b'\n' then (if is_empty shown then some ([], s) else with_line shown next) else longer

abbrev behind : ℕ → Option (Text × Text) → Option (Text × Text)
behind d none = none
behind d (some (before, after)) = some (d ∷ before, after)

-- What stands before and after the first `c`: `strings.IndexByte` and the two slices.
unfoldable pub cut_at : ℕ → Text → Option (Text × Text)
cut_at c [] = none
cut_at c (d ∷ s) = let rest = cut_at c s in if d == c then some ([], s) else behind d rest

-- `strings.Fields`; `word` is what is read of the current one.
unfoldable pub fields_from : Text → Text → List Text
unfolding is_space
fields_from current [] = if is_empty current then [] else current ∷ []
fields_from current (c ∷ s) =
    let longer = fields_from (current ++ c ∷ []) s in
    let next = fields_from [] s in
    if is_space c then (if is_empty current then next else current ∷ next) else longer

-- `strings.Join` with a blank between the words
unfoldable pub join_words : List Text → Text
join_words [] = []
join_words (w ∷ []) = w
join_words (w ∷ ws) = w ++ codes " " ++ join_words ws

-- The value of a digit, of a base up to 36.
unfoldable pub digit_value : ℕ → Option ℕ
digit_value c =
    if leb b'0' c && leb c b'9'
    then some (c - b'0')
    else if leb b'a' c && leb c b'z'
    then some (c - b'a' + 10)
    else if leb b'A' c && leb c b'Z'
    then some (c - b'A' + 10)
    else none

abbrev pub next_digit : ℕ → ℕ → Option ℕ → Option ℕ
next_digit base n none = none
next_digit base n (some d) = if ltb d base then some (n * base + d) else none

-- The digits read so far are worth `n`.
unfoldable pub read_digits : ℕ → ℕ → Text → Option ℕ
unfolding digit_value
read_digits base n [] = some n
read_digits base n (c ∷ s) = elim (next_digit base n (digit_value c)) [
  | none ↦ none
  | some m ↦ read_digits base m s
]

-- The number without its sign: an empty text is none.
abbrev pub read_unsigned : ℕ → Text → Option ℕ
read_unsigned base [] = none
read_unsigned base (c ∷ s) = read_digits base 0 (c ∷ s)

abbrev pub in_range : Bool → Option ℕ → Option ℤ
in_range negative none = none
in_range true (some n) = if leb n half_word then some (diff 0 n) else none
in_range false (some n) = if ltb n half_word then some (pos n) else none

-- `strconv.ParseInt` for 64 bits, in a base that is given
unfoldable pub parse_int : ℕ → Text → Option ℤ
unfolding read_digits
parse_int base [] = none
parse_int base (c ∷ s) =
    if c == b'-'
    then in_range true (read_unsigned base s)
    else if c == b'+'
    then in_range false (read_unsigned base s)
    else in_range false (read_unsigned base (c ∷ s))
