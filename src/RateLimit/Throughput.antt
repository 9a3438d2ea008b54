-- ===== src/RateLimit/Throughput.antt =====
-- How many bytes the token bucket of counter/ratelimit.go lets through in a time.
use mini_sb_agent.Base.{
  ℕ, zero, suc, ◌+◌, ◌*◌, ◌≤◌, ◌<◌, ◌≡◌, Bool, true, false, some, List, [], ◌∷◌, map, arith, All,
  Result, ok, err, nat_eq, list_eq, pair_eq, pos, ◌+ℤ◌, ◌≤ℤ◌, +ℤ_parts, -ℤ_parts,
}
use mini_sb_agent.RateLimit.{
  RateLimiter, LimiterError, refill, need, allow, reserve, take_now, take_later, second, last_or,
}
use mini_sb_agent.RateLimit.Bounds.{
  IsValid, allow-IsValid, reserve-IsValid, refill-IsValid, refill_bound,
}

-- A call of `allow` or `reserve` for some bytes, at a reading of the clock.
pub data Call : Type 0 where
  allows reserves : ℕ → ℕ → Call

abbrev pub size : Call → ℕ
size (allows n now) = n
size (reserves n now) = n

abbrev pub after : Call → RateLimiter → RateLimiter
after (allows n now) l = (allow n now l).1
after (reserves n now) l = (reserve n now l).1

abbrev bytes_if : ℕ → Result LimiterError Bool → ℕ
bytes_if n (ok true) = n
bytes_if n (ok false) = 0
bytes_if n (err e) = 0

-- The bytes that the call lets through: `reserve` lets all pass, after the wait that it answers.
abbrev pub passed : Call → RateLimiter → ℕ
passed (allows n now) l = bytes_if n (allow n now l).0
passed (reserves n now) l = n

pub after_all : List Call → RateLimiter → RateLimiter
after_all [] l = l
after_all (k ∷ ks) l = after_all ks (after k l)

pub passed_all : List Call → RateLimiter → ℕ
passed_all [] l = 0
passed_all (k ∷ ks) l = passed k l + passed_all ks (after k l)

-- A limiter that limits, with the clock read at `t`.
pub record IsLimiting (t : ℕ) (l : RateLimiter) : Type 0 where
  pub valid : IsValid l
  pub is_open : l.closed ≡ false
  pub enabled : l.disabled ≡ false
  pub read_at : l.last ≡ some t

-- The time of the last refill.
abbrev pub clock : RateLimiter → ℕ
clock l = last_or 0 l.last

pub need-eq : (n : ℕ) (l : RateLimiter) → IsValid l → n ≤ l.burst → need n l ≡ pos (n * second)
unfolding need
need-eq n l h fits = ground arith

-- What a step from `l` to `l'` that lets `b` bytes pass may do to the bucket.
abbrev pub Drains : ℕ → RateLimiter → RateLimiter → Type 0
Drains b l l' =
    (l'.burst ≡ l.burst)
    × (l'.rate ≡ l.rate)
    × (pos (b * second) +ℤ l'.tokens +ℤ pos (clock l * l.rate)
        ≤ℤ l.tokens +ℤ pos (clock l' * l.rate))

pub refill-IsLimiting :
    (now t : ℕ) (l : RateLimiter)
    → IsLimiting t l
    → IsLimiting (clock (refill now l)) (refill now l)
unfolding refill
refill-IsLimiting now t l h = record {
  valid = refill-IsValid now l h.valid;
  is_open = ground arith;
  enabled = ground arith;
  read_at = ground arith;
}

refill-Drains : (now t : ℕ) (l : RateLimiter) → IsLimiting t l → Drains 0 l (refill now l)
unfolding refill
refill-Drains now t l h = grind (arith, refill_bound now l, +ℤ_parts)

allow-eq :
    (n now t : ℕ) (l : RateLimiter)
    → IsLimiting t l
    → 0 < n
    → allow n now l ≡ take_now n (refill now l)
unfolding allow
allow-eq n now t l h p = ground arith

pub reserve-eq :
    (n now t : ℕ) (l : RateLimiter)
    → IsLimiting t l
    → 0 < n
    → reserve n now l ≡ take_later n (refill now l)
unfolding reserve
reserve-eq n now t l h p = ground arith

allow-zero : (now : ℕ) (l : RateLimiter) → l.closed ≡ false → allow 0 now l ≡ (ok true, l)
unfolding allow
allow-zero now l h = ground arith

reserve-zero : (now : ℕ) (l : RateLimiter) → l.closed ≡ false → reserve 0 now l ≡ (ok 0, l)
unfolding reserve
reserve-zero now l h = ground arith

take_now-Drains :
    (n t : ℕ) (l : RateLimiter)
    → IsLimiting t l
    → n ≤ l.burst
    → Drains (bytes_if n (take_now n l).0) l (take_now n l).1
unfolding take_now
take_now-Drains n t l h fits = grind (arith, need-eq n l h.valid, +ℤ_parts, -ℤ_parts)

take_later-Drains :
    (n t : ℕ) (l : RateLimiter) → IsLimiting t l → n ≤ l.burst → Drains n l (take_later n l).1
unfolding take_later
take_later-Drains n t l h fits = grind (arith, need-eq n l h.valid, +ℤ_parts, -ℤ_parts)

pub Drains-trans :
    (b b' : ℕ) (l l' l'' : RateLimiter) → Drains b l l' → Drains b' l' l'' → Drains (b + b') l l''
Drains-trans b b' l l' l'' d d' = grind (arith, +ℤ_parts)

Drains-after_refill :
    (b : ℕ) (l l' l'' : RateLimiter) → Drains 0 l l' → Drains b l' l'' → Drains b l l''
Drains-after_refill b l l' l'' d d' = grind (arith, +ℤ_parts)

pub after-IsLimiting :
    (k : Call) (t : ℕ) (l : RateLimiter)
    → IsLimiting t l
    → IsLimiting (clock (after k l)) (after k l)
unfolding allow reserve
after-IsLimiting (allows n now) t l h = record {
  valid = allow-IsValid n now l h.valid;
  is_open = ground arith;
  enabled = ground arith;
  read_at = ground arith;
}
after-IsLimiting (reserves n now) t l h = record {
  valid = reserve-IsValid n now l h.valid;
  is_open = ground arith;
  enabled = ground arith;
  read_at = ground arith;
}

allow-Drains :
    (n now t : ℕ) (l : RateLimiter)
    → IsLimiting t l
    → n ≤ l.burst
    → Drains (bytes_if n (allow n now l).0) l (allow n now l).1
allow-Drains zero now t l h fits = rw (allow-zero now l h.is_open) (grind (arith, +ℤ_parts))
allow-Drains (suc n) now t l h fits =
    let l' = refill now l in
    let d = refill-Drains now t l h in
    rw (allow-eq (suc n) now t l h (omega arith)) (
      Drains-after_refill _ l l' (take_now (suc n) l').1 d
        (take_now-Drains (suc n) _ l' (refill-IsLimiting now t l h) (omega (arith, d))))

pub reserve-Drains :
    (n now t : ℕ) (l : RateLimiter) → IsLimiting t l → n ≤ l.burst → Drains n l (reserve n now l).1
reserve-Drains zero now t l h fits = rw (reserve-zero now l h.is_open) (grind (arith, +ℤ_parts))
reserve-Drains (suc n) now t l h fits =
    let l' = refill now l in
    let d = refill-Drains now t l h in
    rw (reserve-eq (suc n) now t l h (omega arith)) (
      Drains-after_refill (suc n) l l' (take_later (suc n) l').1 d
        (take_later-Drains (suc n) _ l' (refill-IsLimiting now t l h) (omega (arith, d))))

after-Drains :
    (k : Call) (t : ℕ) (l : RateLimiter)
    → IsLimiting t l
    → size k ≤ l.burst
    → Drains (passed k l) l (after k l)
after-Drains (allows n now) = allow-Drains n now
after-Drains (reserves n now) = reserve-Drains n now

-- The calls let through at most what the bucket held, and what the rate yields up to the last
-- refill: in units of 1e-9 bytes, for calls within the burst on a limiter that limits.
pub passed_all-Drains :
    (ks : List Call) (t : ℕ) (l : RateLimiter)
    → IsLimiting t l
    → All (λ k. size k ≤ l.burst) ks
    → Drains (passed_all ks l) l (after_all ks l)
unfolding passed_all after_all
passed_all-Drains [] t l h fits = grind (arith, +ℤ_parts)
passed_all-Drains (k ∷ ks) t l h fits =
    let d = after-Drains k t l h fits.0 in
    let h' = after-IsLimiting k t l h in
    Drains-trans (passed k l) (passed_all ks (after k l)) l (after k l) (after_all ks (after k l)) d
      (passed_all-Drains ks _ (after k l) h' (rw d.0 fits.1))

-- Packets at their times, each put to `allow`.
abbrev pub packets : List (ℕ × ℕ) → List Call
packets = map (λ p. allows p.0 p.1)

refill_nonneg :
    (now : ℕ) (l : RateLimiter) → IsValid l → pos 0 ≤ℤ l.tokens → pos 0 ≤ℤ (refill now l).tokens
unfolding refill
refill_nonneg now l h p = grind (arith, +ℤ_parts)

allow_nonneg :
    (n now : ℕ) (l : RateLimiter)
    → IsValid l
    → pos 0 ≤ℤ l.tokens
    → pos 0 ≤ℤ (allow n now l).1.tokens
unfolding allow
allow_nonneg n now l h p = grind (arith, refill_nonneg now l h p, -ℤ_parts)

after_packets_nonneg :
    (ps : List (ℕ × ℕ)) (l : RateLimiter)
    → IsValid l
    → pos 0 ≤ℤ l.tokens
    → pos 0 ≤ℤ (after_all (packets ps) l).tokens
unfolding after_all
after_packets_nonneg [] l h p = p
after_packets_nonneg (k ∷ ps) l h p =
    after_packets_nonneg ps (allow k.0 k.1 l).1 (allow-IsValid k.0 k.1 l h)
      (allow_nonneg k.0 k.1 l h p)

packets_fit :
    (ps : List (ℕ × ℕ)) (b : ℕ) → All (λ p. p.0 ≤ b) ps → All (λ k. size k ≤ b) (packets ps)
packets_fit [] b h = tt
packets_fit (p ∷ ps) b h = (h.0, packets_fit ps b h.1)

-- Of packets no larger than the burst, on a limiter that limits and whose bucket is not in debt,
-- `allow` passes in all at most the burst and what the rate yields from the last refill before the
-- first packet to the last one: in units of 1e-9 bytes.
pub passed_packets-le :
    (ps : List (ℕ × ℕ)) (t : ℕ) (l : RateLimiter)
    → IsLimiting t l
    → pos 0 ≤ℤ l.tokens
    → All (λ p. p.0 ≤ l.burst) ps
    → passed_all (packets ps) l * second + t * l.rate
      ≤ l.burst * second + clock (after_all (packets ps) l) * l.rate
passed_packets-le ps t l h p fits =
    let d = passed_all-Drains (packets ps) t l h (packets_fit ps l.burst fits) in
    let q = after_packets_nonneg ps l h.valid p in grind (arith, d, q, +ℤ_parts)
