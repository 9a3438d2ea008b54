-- ===== src/Stats/Bounds.antt =====
-- `readHTTPRequest` of cmd/mini-sb-agent/main.go always answers, from a bounded part of the stream.
use mini_sb_agent.Base.{
  ℕ, zero, suc, ◌+◌, ◌≤◌, ◌<◌, ◌≡◌, refl, ap, ◌≢◌, ◌⊎◌, inl, inr, false, List, [], ◌∷◌, ◌++◌, arith,
  ltb, Bool-cases, length, is_empty, Result, ok, err, ◌>>=◌, ◌==◌, nat_eq, list_eq, pair_eq, Text,
  trim_space,
}
use mini_sb_agent.Http.Reading.{fields_from}
use mini_sb_agent.Stats.{
  RequestError, out_of_fuel, line_too_long, one_longer, read_slice, line_buffer, max_request,
  first_of, request_line, target_of, read_http_request,
}

-- A line takes a byte at least.
abbrev Slices : Result RequestError (Text × Text) → Type 0
Slices (err e) = e ≢ out_of_fuel
Slices (ok (line, s)) = 0 < length line

one_longer-Slices :
    (c : ℕ) (r : Result RequestError (Text × Text)) → Slices r → Slices (one_longer c r)
one_longer-Slices c (err e) h = h
one_longer-Slices c (ok (line, s)) h = omega arith

read_slice-Slices : (n : ℕ) (s : Text) → Slices (read_slice n s)
unfolding read_slice
read_slice-Slices zero s = λ e. cc
read_slice-Slices (suc n) [] = λ e. cc
read_slice-Slices (suc n) (c ∷ s) = elim (Bool-cases (c == b'\n')) [
  | inl ends ↦ rw ends (omega arith)
  | inr goes ↦ rw goes (one_longer-Slices c (read_slice n s) (read_slice-Slices n s))
]

err_injective : (d e : RequestError) → ◌≡◌ {A = Result RequestError Text} (err d) (err e) → d ≡ e
err_injective d e q = cc

bind_not_out_of_fuel :
    {A : Type 0} (r : Result RequestError A) (next : A → Result RequestError Text)
    → r ≢ err out_of_fuel
    → ((a : A) → next a ≢ err out_of_fuel)
    → (r >>= next) ≢ err out_of_fuel
bind_not_out_of_fuel (ok a) next h k = k a
bind_not_out_of_fuel (err e) next h k = λ q. h (ap err (err_injective e out_of_fuel q))

Slice-cases :
    (r : Result RequestError (Text × Text))
    → ((e : RequestError) × (r ≡ err e)) ⊎ ((line : Text) × ((s : Text) × (r ≡ ok (line, s))))
Slice-cases (err e) = inl (e, refl)
Slice-cases (ok (line, s)) = inr (line, (s, refl))

within_max : (n : ℕ) → ltb max_request n ≡ false → n ≤ max_request
within_max n h = ground (arith, h)

-- The turns suffice: each reads a byte of those that the request may have.
request_line_total :
    (fuel : ℕ) (line : Text) (total : ℕ) (s : Text)
    → max_request < fuel + total
    → total ≤ max_request
    → request_line fuel line total s ≢ err out_of_fuel
unfolding request_line
request_line_total zero line total s enough small = absurd (omega (arith, enough, small))
request_line_total (suc fuel) line total s enough small =
    let some_bytes = read_slice-Slices line_buffer s in
    elim (Slice-cases (read_slice line_buffer s)) [
      | inl (e, stops) ↦
          rw (request_line, stops) (λ q. (rw stops at some_bytes) (err_injective e out_of_fuel q))
      | inr (chunk, (s', more)) ↦
          let grows : 0 < length chunk = rw more at some_bytes in
          elim (Bool-cases (ltb max_request (total + length chunk))) [
            | inl large ↦ rw (request_line, more, large) (λ q. cc)
            | inr fits ↦ elim (Bool-cases (is_empty (trim_space chunk))) [
              | inl last ↦ rw (request_line, more, fits, last) (λ q. cc)
              | inr next ↦
                  rw (request_line, more, fits, next)
                    (request_line_total fuel (first_of line chunk) (total + length chunk) s'
                      (omega (arith, enough, grows)) (within_max (total + length chunk) fits))
            ]
          ]
    ]

target_of_total : (words : List Text) → target_of words ≢ err out_of_fuel
target_of_total [] e = cc
target_of_total (method ∷ []) e = cc
target_of_total (method ∷ target ∷ words) e = cc

-- The reader never runs out of turns, whatever arrives.
read_http_request_total : (s : Text) → read_http_request s ≢ err out_of_fuel
unfolding read_http_request
read_http_request_total s =
    bind_not_out_of_fuel (request_line (suc max_request) [] 0 s) _
      (request_line_total (suc max_request) [] 0 s (omega arith) (omega arith))
      (λ line. target_of_total (fields_from [] (trim_space line)))

-- Two streams give the same line, and what is left of them differs as they do.
abbrev Agree : ℕ → Text → Text → Text → Type 0
Agree n p s t =
    ((e : RequestError) × (read_slice n (p ++ s) ≡ err e) × (read_slice n (p ++ t) ≡ err e))
    ⊎ ((line : Text) × ((p' : Text) × (read_slice n (p ++ s) ≡ ok (line, p' ++ s))
          × (read_slice n (p ++ t) ≡ ok (line, p' ++ t))
          × (length line + length p' ≡ length p)
          × (length line ≤ n)))

read_slice-Agree : (n : ℕ) (p s t : Text) → n ≤ length p → Agree n p s t
unfolding read_slice
read_slice-Agree zero p s t h = inl (line_too_long, refl, refl)
read_slice-Agree (suc n) [] s t h = absurd (omega (arith, h))
read_slice-Agree (suc n) (c ∷ p) s t h = elim (Bool-cases (c == b'\n')) [
  | inl ends ↦ inr (c ∷ [], (p, rw ends refl, rw ends refl, omega arith, omega arith))
  | inr goes ↦ elim (read_slice-Agree n p s t (omega (arith, h))) [
    | inl (e, one, two) ↦ inl (e, rw (goes, one) refl, rw (goes, two) refl)
    | inr (line, (p', one, two, sum, short)) ↦ inr (
      c ∷ line,
      (p', rw (goes, one) refl, rw (goes, two) refl, omega (arith, sum), omega (arith, short)),
    )
  ]
]

request_line_prefix :
    (fuel : ℕ) (line : Text) (total : ℕ) (p s t : Text)
    → max_request + line_buffer ≤ total + length p
    → total ≤ max_request
    → request_line fuel line total (p ++ s) ≡ request_line fuel line total (p ++ t)
unfolding request_line
request_line_prefix zero line total p s t long small = refl
request_line_prefix (suc fuel) line total p s t long small =
    elim (read_slice-Agree line_buffer p s t (omega (arith, long, small))) [
      | inl (e, one, two) ↦ rw (request_line, one, two) refl
      | inr (chunk, (p', one, two, sum, short)) ↦
          elim (Bool-cases (ltb max_request (total + length chunk))) [
            | inl large ↦ rw (request_line, one, two, large) refl
            | inr fits ↦
                let rest =
                  request_line_prefix fuel (first_of line chunk) (total + length chunk) p' s t
                    (omega (arith, long, sum)) (within_max (total + length chunk) fits) in
                rw (request_line, one, two, fits, rest) refl
          ]
    ]

-- On a stream of at least 20 KiB the reader's answer depends on the first 20 KiB only, so that nothing
-- that comes later is waited for, and the fuel is enough.
pub read_http_request_bounded :
    (p s t : Text)
    → max_request + line_buffer ≤ length p
    → (read_http_request (p ++ s) ≡ read_http_request (p ++ t))
      × (read_http_request (p ++ s) ≢ err out_of_fuel)
unfolding read_http_request
read_http_request_bounded p s t long = (
  ap (λ r. r >>= (λ line. target_of (fields_from [] (trim_space line))))
      (request_line_prefix (suc max_request) [] 0 p s t (omega (arith, long)) (omega arith)),
  read_http_request_total (p ++ s),
)
