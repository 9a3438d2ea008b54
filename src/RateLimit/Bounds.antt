-- ===== src/RateLimit/Bounds.antt =====
-- The invariant of the token bucket of counter/ratelimit.go, and the bound on what it lets through.
use mini_sb_agent.Base.{
  ℕ, ◌+◌, ◌-◌, ◌*◌, ◌≤◌, ◌<◌, ◌≡◌, ap, true, false, arith, nat_eq, list_eq, pair_eq, half_word,
  is_pos, pos, ◌+ℤ◌, ◌≤ℤ◌, +ℤ_parts, -ℤ_parts,
}
use mini_sb_agent.RateLimit.{
  RateLimiter, set_rate, close, refill, need, allow, reserve, burst_of, in_tokens, max_write_chunk,
  last_or,
}

-- An open limiter has a burst of at least one chunk; one that limits has a positive rate; the bucket
-- never holds more than the burst; a closed limiter is disabled.
pub record IsValid (l : RateLimiter) : Type 0 where
  pub burst_fits : l.burst < half_word
  pub burst_chunk : l.closed ≡ false → max_write_chunk ≤ l.burst
  pub tokens_fit : l.tokens ≤ℤ in_tokens l.burst
  pub closed_disabled : l.closed ≡ true → l.disabled ≡ true
  pub limits_pos : l.disabled ≡ false → is_pos l.rate ≡ true

burst_of_bounds : (b : ℕ) → (max_write_chunk ≤ burst_of b) × (burst_of b < half_word)
unfolding burst_of
burst_of_bounds b = ground arith

set_rate-IsValid : (b now : ℕ) (l : RateLimiter) → IsValid l → IsValid (set_rate b now l)
unfolding set_rate
set_rate-IsValid b now l h = ground (arith, burst_of_bounds b)

close-IsValid : (l : RateLimiter) → IsValid (close l)
unfolding close
close-IsValid l = ground arith

pub refill-IsValid : (now : ℕ) (l : RateLimiter) → IsValid l → IsValid (refill now l)
unfolding refill
refill-IsValid now l h = ground arith

pub need_nonneg : (n : ℕ) (l : RateLimiter) → IsValid l → pos 0 ≤ℤ need n l
unfolding need
need_nonneg n l h = ground arith

pub allow-IsValid : (n now : ℕ) (l : RateLimiter) → IsValid l → IsValid (allow n now l).1
unfolding allow
allow-IsValid n now l h =
    grind (arith, refill-IsValid now l h, need_nonneg n (refill now l), -ℤ_parts)

pub reserve-IsValid : (n now : ℕ) (l : RateLimiter) → IsValid l → IsValid (reserve n now l).1
unfolding reserve
reserve-IsValid n now l h =
    grind (arith, refill-IsValid now l h, need_nonneg n (refill now l), -ℤ_parts)

mul_sub_add : (a b r : ℕ) → b < a → (a - b) * r + b * r ≡ a * r
mul_sub_add a b r h =
    let e : (a - b) + b ≡ a = omega arith in omega (arith, ap (λ (k : ℕ). k * r) e)

-- A refill adds at most what the rate yields in the time since the last one.
pub refill_bound :
    (now : ℕ) (l : RateLimiter)
    → is_pos l.rate ≡ true
    → let l' = refill now l in
      l'.tokens +ℤ pos (last_or now l.last * l.rate)
      ≤ℤ l.tokens +ℤ pos (last_or now l'.last * l.rate)
unfolding refill
refill_bound now l h = grind (arith, mul_sub_add now (last_or now l.last) l.rate, +ℤ_parts)

-- Each operation of a limiter, with any rate, size and clock, keeps the bucket within its bounds: the
-- tokens never exceed the burst, the burst is never below the size of a write chunk while the limiter
-- is open, and a closed limiter does not limit.
pub operations-IsValid :
    (n now : ℕ) (l : RateLimiter)
    → IsValid l
    → IsValid (set_rate n now l)
      × IsValid (close l)
      × IsValid (allow n now l).1
      × IsValid (reserve n now l).1
operations-IsValid n now l h = (
  set_rate-IsValid n now l h,
  close-IsValid l,
  allow-IsValid n now l h,
  reserve-IsValid n now l h,
)
