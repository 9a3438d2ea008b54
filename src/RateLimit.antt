-- ===== src/RateLimit.antt =====
-- counter/ratelimit.go: the token bucket.
--
-- The source counts tokens in `float64` bytes and time in `float64` seconds. Here tokens are whole
-- numbers of 1e-9 bytes and times are nanoseconds, so that `elapsed * rate` is exact: the rounding of
-- the tokens is not modelled. The duration that `reserve` answers is computed from the missing tokens
-- with the source's rounding. Each operation runs under the limiter's lock and takes the reading of
-- the clock that it makes there as the argument `now`.
pub mod Bounds
pub mod Throughput
pub mod Wait
pub mod Conn
pub mod Writing
pub mod Packets
use mini_sb_agent.Base.{
  ℕ, zero, suc, ◌+◌, ◌-◌, ◌*◌, ◌/◌, ◌%◌, ◌^◌, ◌≤◌, ◌<◌, String, ◌≡◌, refl, sym, ap, ◌∙◌, ◌≢◌, ◌↔◌,
  ◌⊎◌, inl, inr, Bool, true, false, not, ◌&&◌, ◌||◌, Option, none, some, List, [], ◌∷◌, ◌++◌, map,
  append-nil, append_assoc, arith, ltb, leb, nat_beq, nat_beq_iff, if◌then◌else◌, Bool-cases,
  Option-cases, is_some, length, is_empty, all, any, keep, All, length-append, All-append, Result,
  ok, err, ◌>>=◌, ◌>>◌, reject_if, >>=-eq-ok, is_ok, Eq, ◌==◌, nat_eq, list_eq, pair_eq, list_beq,
  list_beq_iff, pair_beq, pair_beq_iff, Map, lookup, has, insert, delete, IsMap, lookup-insert,
  lookup-delete, beq_refl, insert-IsMap, delete-IsMap, select, answer, lookup-select, select-IsMap,
  word, half_word, add64, sub64, mul64, is_neg, is_pos, div64, lt64, Text, codes, is_space,
  drop_while, trim, trim_space, lower, to_lower, has_prefix, contains, ℤ, pos, negsuc, pos_part,
  neg_part, diff, ◌+ℤ◌, ◌-ℤ◌, ◌≤ℤ◌, ltb_ℤ, +ℤ_parts, -ℤ_parts, take, drop, length-take, length-drop,
  take-append-take-drop, take-take, take_all, trim_prefix, trim_right,
}

abbrev pub max_write_chunk : ℕ
max_write_chunk = 65536

abbrev pub max_read_chunk : ℕ
max_read_chunk = 65536

-- 200 ms and 1 s in nanoseconds
abbrev pub default_burst_window : ℕ
default_burst_window = 200000000

abbrev pub second : ℕ
second = 1000000000

-- `rate` and `burst` are `int64` patterns; `last` is `none` for the zero time.
pub record RateLimiter : Type 0 where
  pub rate : ℕ
  pub burst : ℕ
  pub tokens : ℤ
  pub last : Option ℕ
  pub disabled : Bool
  pub closed : Bool

-- `float64(b)` in units of 1e-9 bytes
abbrev pub in_tokens : ℕ → ℤ
in_tokens b = if is_neg b then negsuc ((word - b) * second - 1) else pos (b * second)

unfoldable pub burst_of : ℕ → ℕ
burst_of bytes_per_second =
    let b = div64 (mul64 bytes_per_second default_burst_window) second in
    if lt64 b max_write_chunk then max_write_chunk else b

-- `SetRate`
unfoldable pub set_rate : ℕ → ℕ → RateLimiter → RateLimiter
set_rate bytes_per_second now l =
    let burst' = burst_of bytes_per_second in
    if not (is_pos bytes_per_second)
    then record l { rate = bytes_per_second; burst = burst'; disabled = true; tokens = pos 0 }
    else record {
      rate = bytes_per_second;
      burst = burst';
      tokens =
          if ltb_ℤ l.tokens (pos 0) || ltb_ℤ (in_tokens burst') l.tokens then pos 0 else l.tokens;
      last = some now;
      disabled = false;
      closed = false;
    }

-- `NewRateLimiter`
unfoldable pub new_rate_limiter : ℕ → ℕ → RateLimiter
unfolding set_rate
new_rate_limiter bytes_per_second now = set_rate bytes_per_second now (record {
  rate = 0;
  burst = 0;
  tokens = pos 0;
  last = some now;
  disabled = false;
  closed = false;
})

-- `Close`
unfoldable pub close : RateLimiter → RateLimiter
close l = record l { closed = true; disabled = true; rate = 0; burst = 0; tokens = pos 0 }

-- `Closed`; `none` is the nil limiter.
unfoldable pub is_closed : Option RateLimiter → Bool
is_closed none = true
is_closed (some l) = l.closed

abbrev pub last_or : ℕ → Option ℕ → ℕ
last_or now none = now
last_or now (some t) = t

-- The refill with which `allow` and `reserve` begin.
unfoldable pub refill : ℕ → RateLimiter → RateLimiter
refill now l =
    let before = last_or now l.last in
    if ltb before now
    then (let grown = l.tokens +ℤ pos ((now - before) * l.rate) in
        record l {
          tokens = if ltb_ℤ (in_tokens l.burst) grown then in_tokens l.burst else grown;
          last = some now;
        })
    else record l { last = some before }

-- `need`: no call is charged more than the burst.
unfoldable pub need : ℕ → RateLimiter → ℤ
need n l =
    if ltb_ℤ (in_tokens l.burst) (pos (n * second)) then in_tokens l.burst else pos (n * second)

-- `ErrLimiterClosed`
pub data LimiterError : Type 0 where
  limiter_closed : LimiterError

abbrev pub is_unlimited : ℕ → RateLimiter → Bool
is_unlimited n l = l.disabled || not (is_pos l.rate) || n == 0

unfoldable pub take_now : ℕ → RateLimiter → Result LimiterError Bool × RateLimiter
unfolding need
take_now n l =
    if ltb_ℤ l.tokens (need n l)
    then (ok false, l)
    else (ok true, record l { tokens = l.tokens -ℤ need n l })

-- `allow`
unfoldable pub allow : ℕ → ℕ → RateLimiter → Result LimiterError Bool × RateLimiter
unfolding refill take_now
allow n now l =
    if l.closed
    then (err limiter_closed, l)
    else if is_unlimited n l
    then (ok true, l)
    else take_now n (refill now l)

-- `Allow`
unfoldable pub allow_opt :
    ℕ → ℕ → Option RateLimiter → Result LimiterError Bool × Option RateLimiter
unfolding allow
allow_opt n now none = (ok true, none)
allow_opt n now (some l) =
    if n == 0 then (ok true, some l) else (let (r, l') = allow n now l in (r, some l'))

-- The number of binary digits, of which there are at most `fuel`.
unfoldable pub bit_count : ℕ → ℕ → ℕ
bit_count zero n = 0
bit_count (suc fuel) n = let rest = bit_count fuel (n / 2) in if n == 0 then 0 else suc rest

-- A `float64` that is not negative, as a quotient; the denominator is positive.
pub record Float : Type 0 where
  pub num : ℕ
  pub den : ℕ

-- `num / den` to the nearest whole number, halves to the even one.
unfoldable pub nearest : ℕ → ℕ → ℕ
nearest num den =
    let q = num / den in
    let rest = 2 * (num % den) in
    if ltb den rest || (nat_beq den rest && nat_beq (q % 2) 1) then q + 1 else q

-- The nearest number of 53 binary digits, as IEEE 754 rounds; the exponents are not bounded.
unfoldable pub round_float : Float → Float
unfolding bit_count nearest
round_float x =
    let up = 2 ^ (53 + bit_count 1024 x.den) in
    let down = 2 ^ bit_count 1024 x.num in
    let digits = if ltb (x.num * up) (x.den * down * 2 ^ 53) then up else up / 2 in
    record { num = nearest (x.num * digits) (x.den * down) * down; den = digits }

abbrev pub float_of : ℕ → Float
float_of n = round_float (record { num = n; den = 1 })

unfoldable pub divide : Float → Float → Float
unfolding round_float
divide x y = round_float (record { num = x.num * y.den; den = x.den * y.num })

unfoldable pub times : Float → Float → Float
unfolding round_float
times x y = round_float (record { num = x.num * y.num; den = x.den * y.den })

-- `time.Duration(f)`, an `int64` pattern: the fraction is dropped, and what is out of range becomes
-- the least number, as on amd64.
unfoldable pub to_duration : Float → ℕ
to_duration x = let n = x.num / x.den in if ltb n half_word then n else half_word

-- `time.Duration(missing / float64(l.rate) * float64(time.Second))`, rounded as the source rounds;
-- `missing` is in units of 1e-9 bytes.
unfoldable pub duration : ℕ → ℕ → ℕ
unfolding to_duration times divide
duration missing rate = to_duration (
    times (divide (round_float (record { num = missing; den = second })) (float_of rate))
      (float_of second))

-- The time to wait until the missing tokens have come in.
unfoldable pub take_later : ℕ → RateLimiter → Result LimiterError ℕ × RateLimiter
unfolding need
take_later n l = (
  ok (if ltb_ℤ l.tokens (need n l) then duration (pos_part (need n l -ℤ l.tokens)) l.rate else 0),
  record l { tokens = l.tokens -ℤ need n l },
)

-- `reserve`
unfoldable pub reserve : ℕ → ℕ → RateLimiter → Result LimiterError ℕ × RateLimiter
unfolding refill take_later
reserve n now l =
    if l.closed
    then (err limiter_closed, l)
    else if is_unlimited n l
    then (ok 0, l)
    else take_later n (refill now l)
