-- ===== src/Http/Digits.antt =====
-- Numbers in digits, and what the reader of panelapi/minhttp.go makes of them.
use mini_sb_agent.Base.{
  ℕ, zero, suc, ◌+◌, ◌-◌, ◌*◌, ◌/◌, ◌%◌, ◌<◌, ◌≡◌, refl, inl, inr, true, false, none, some, [], ◌∷◌,
  ◌++◌, arith, ltb, if◌then◌else◌, Bool-cases, Option-cases, is_empty, All, All-append, ◌==◌,
  nat_eq, list_eq, pair_eq, half_word, Text, is_space, pos,
}
use mini_sb_agent.Http.Reading.{digit_value, next_digit, read_digits, in_range, parse_int}

-- The digit of a value below 16.
abbrev pub digit_of : ℕ → ℕ
digit_of d = if ltb d 10 then b'0' + d else b'a' + (d - 10)

-- The digits of `n` in the base, of which there are at most as many as the fuel.
unfoldable pub print_from : ℕ → ℕ → ℕ → Text
print_from base zero n = []
print_from base (suc fuel) n =
    let before = print_from base fuel (n / base) in
    if ltb n base then digit_of n ∷ [] else before ++ digit_of (n % base) ∷ []

-- The fuel is enough: each digit but the last is one of a smaller number.
unfoldable pub print_number : ℕ → ℕ → Text
unfolding print_from
print_number base n = print_from base (suc n) n

digit_value-digit_of : (d : ℕ) → d < 16 → digit_value (digit_of d) ≡ some d
unfolding digit_value
digit_value-digit_of d h = ground (arith, h)

read_digits-append :
    (base m a d c : ℕ) (s : Text)
    → read_digits base m s ≡ some a
    → digit_value c ≡ some d
    → ltb d base ≡ true
    → read_digits base m (s ++ c ∷ []) ≡ some (a * base + d)
unfolding read_digits
read_digits-append base m a d c [] e v l =
    let same : m ≡ a = ground (arith, e) in rw (read_digits, v, l, same) refl
read_digits-append base m a d c (x ∷ s) e v l =
    elim (Option-cases (next_digit base m (digit_value x))) [
      | inl q ↦
          let stuck : none ≡ some a = rw (read_digits, q) at e in absurd (ground (arith, stuck))
      | inr (m', q) ↦
          rw (read_digits, q) (read_digits-append base m' a d c s (rw (read_digits, q) at e) v l)
    ]

read_digits-print_from : (fuel n : ℕ) → n < fuel → read_digits 16 0 (print_from 16 fuel n) ≡ some n
unfolding print_from read_digits
read_digits-print_from zero n h = absurd (omega (arith, h))
read_digits-print_from (suc fuel) n h = elim (Bool-cases (ltb n 16)) [
  | inl small ↦
      rw (small, read_digits, digit_value-digit_of n (ground (arith, small)))
        (ground (arith, small))
  | inr large ↦
      let before = read_digits-print_from fuel (n / 16) (ground (arith, h, large)) in
      rw
        (
          large,
          read_digits-append 16 0 (n / 16) (n % 16) (digit_of (n % 16))
              (print_from 16 fuel (n / 16)) before (digit_value-digit_of (n % 16) (omega arith))
              (ground arith),
        )
        (ground arith)
]

-- What the texts around a printed number need of its digits.
pub record IsDigit (c : ℕ) : Type 0 where
  pub no_space : is_space c ≡ false
  pub no_line_end : (c == b'\n') ≡ false
  pub no_semicolon : (c == b';') ≡ false
  pub no_sign : ((c == b'-') ≡ false) × ((c == b'+') ≡ false)

digit_of-IsDigit : (d : ℕ) → d < 16 → IsDigit (digit_of d)
unfolding is_space
digit_of-IsDigit d h = record {
  no_space = ground (arith, h);
  no_line_end = ground (arith, h);
  no_semicolon = ground (arith, h);
  no_sign = (ground (arith, h), ground (arith, h));
}

print_from-IsDigit : (fuel n : ℕ) → All IsDigit (print_from 16 fuel n)
unfolding print_from
print_from-IsDigit zero n = tt
print_from-IsDigit (suc fuel) n = elim (Bool-cases (ltb n 16)) [
  | inl small ↦ rw small (digit_of-IsDigit n (ground (arith, small)), tt)
  | inr large ↦ rw large (
      All-append IsDigit (print_from 16 fuel (n / 16)) (digit_of (n % 16) ∷ [])
        (print_from-IsDigit fuel (n / 16)) (digit_of-IsDigit (n % 16) (omega arith), tt))
]

append_nonempty : (s : Text) (c : ℕ) → is_empty (s ++ c ∷ []) ≡ false
append_nonempty [] c = refl
append_nonempty (x ∷ s) c = refl

print_from_nonempty : (fuel n : ℕ) → is_empty (print_from 16 (suc fuel) n) ≡ false
unfolding print_from
print_from_nonempty fuel n = elim (Bool-cases (ltb n 16)) [
  | inl small ↦ rw small refl
  | inr large ↦ rw large (append_nonempty (print_from 16 fuel (n / 16)) (digit_of (n % 16)))
]

parse_int-unsigned :
    (base : ℕ) (s : Text)
    → All IsDigit s
    → is_empty s ≡ false
    → parse_int base s ≡ in_range false (read_digits base 0 s)
unfolding parse_int
parse_int-unsigned base [] h e = cc
parse_int-unsigned base (c ∷ s) h e = rw (h.0.no_sign.0, h.0.no_sign.1) refl

pub print_number-IsDigit : (n : ℕ) → All IsDigit (print_number 16 n)
unfolding print_number
print_number-IsDigit n = print_from-IsDigit (suc n) n

-- A number in hexadecimal digits is read back.
pub parse_int-print_number :
    (n : ℕ) → n < half_word → parse_int 16 (print_number 16 n) ≡ some (pos n)
unfolding print_number
parse_int-print_number n h =
    let digits =
      parse_int-unsigned 16 (print_from 16 (suc n) n) (print_from-IsDigit (suc n) n)
        (print_from_nonempty n n) in
    rw (digits, read_digits-print_from (suc n) n (omega arith)) (ground (arith, h))
