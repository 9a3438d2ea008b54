-- ===== src/RateLimit/Wait.antt =====
-- `Wait` of counter/ratelimit.go, which sleeps between reservations while other goroutines may use
-- and change the limiter.
use mini_sb_agent.Base.{
  ℕ, zero, suc, ◌+◌, ◌-◌, ◌*◌, ◌≤◌, ◌<◌, ◌≡◌, refl, inl, inr, Bool, not, ◌&&◌, ◌||◌, Option, none,
  some, List, [], ◌∷◌, arith, ltb, if◌then◌else◌, Bool-cases, All, Result, ok, err, nat_eq, list_eq,
  pair_eq, is_pos, pos, pos_part, ◌-ℤ◌, ltb_ℤ,
}
use mini_sb_agent.RateLimit.{RateLimiter, LimiterError, refill, reserve, duration, second}
use mini_sb_agent.RateLimit.Throughput.{clock}

-- What surrounds a call: the clock as it reads at the `k`-th time that the call holds the lock, and
-- what others have done to the limiter just before.
pub record World : Type 0 where
  pub clock : ℕ → ℕ
  pub others : ℕ → RateLimiter → RateLimiter

-- The error if any, the sleeps in order, and the limiter at the end.
pub record Waited : Type 0 where
  pub error : Option LimiterError
  pub sleeps : List ℕ
  pub limiter : RateLimiter

abbrev pub error_of : {A : Type 0} → Result LimiterError A → Option LimiterError
error_of (ok a) = none
error_of (err e) = some e

abbrev pub is_off : RateLimiter → Bool
is_off l = l.disabled || not (is_pos l.rate) || l.closed

abbrev pub chunk_of : ℕ → ℕ → ℕ
chunk_of remaining burst = if is_pos burst && ltb burst remaining then burst else remaining

-- `if wait > 0`, where the duration is an `int64` pattern.
abbrev pub slept : ℕ → Waited → Waited
slept d r = if is_pos d then record r { sleeps = d ∷ r.sleeps } else r

-- The return from a limiter that does not limit.
abbrev pub give_up : Result LimiterError ℕ × RateLimiter → Waited
give_up (r, l) = record { error = error_of r; sleeps = []; limiter = l }

-- What follows the reservation of a chunk: the error, or the sleep and the `rest` of the loop.
abbrev pub after_chunk : Result LimiterError ℕ → RateLimiter → Option Waited → Option Waited
after_chunk (err e) l rest = some (record { error = some e; sleeps = []; limiter = l })
after_chunk (ok d) l none = none
after_chunk (ok d) l (some r) = some (slept d r)

after_chunk_total :
    (r : Result LimiterError ℕ) (l : RateLimiter) (rest : Option Waited)
    → (x : Waited) × (rest ≡ some x)
    → (x : Waited) × (after_chunk r l rest ≡ some x)
after_chunk_total (err e) l rest h = (record { error = some e; sleeps = []; limiter = l }, refl)
after_chunk_total (ok d) l none h = cc h.1
after_chunk_total (ok d) l (some x) h = (slept d x, refl)

module _ (w : World) where
  -- One chunk reserved, when the lock has been taken `k` times before.
  pub reserve_at : ℕ → ℕ → RateLimiter → Result LimiterError ℕ × RateLimiter
  reserve_at k n l = reserve n (w.clock k) (w.others k l)

  -- The loop of `Wait`, on fuel.
  pub wait_loop : ℕ → ℕ → ℕ → RateLimiter → Option Waited
  wait_loop zero k remaining l = none
  wait_loop (suc f) k zero l = some (record { error = none; sleeps = []; limiter = l })
  wait_loop (suc f) k (suc m) l =
      let l' = w.others k l in
      let chunk = chunk_of (suc m) l'.burst in
      let (r, l'') = reserve_at (k + 1) chunk l' in
      let rest = wait_loop f (k + 2) (suc m - chunk) l'' in
      if is_off l' then some (give_up (reserve_at (k + 1) 0 l')) else after_chunk r l'' rest

  -- `Wait` on a limiter that is not nil; on nil it returns at once, and its callers test for that.
  -- `n + 1` rounds of fuel are enough.
  pub wait : ℕ → RateLimiter → Option Waited
  unfolding wait_loop
  wait n l = wait_loop (suc n) 0 n l

  chunk_of_bounds : (m b : ℕ) → 0 < m → (0 < chunk_of m b) × (chunk_of m b ≤ m)
  chunk_of_bounds m b h = ground arith

  -- The loop ends, whatever the others do to the limiter meanwhile.
  wait_loop_total :
      (f k n : ℕ) (l : RateLimiter) → n < f → (r : Waited) × (wait_loop f k n l ≡ some r)
  unfolding wait_loop
  wait_loop_total zero k n l h = absurd (omega arith)
  wait_loop_total (suc f) k zero l h = (record { error = none; sleeps = []; limiter = l }, refl)
  wait_loop_total (suc f) k (suc m) l h =
      let l' = w.others k l in
      let chunk = chunk_of (suc m) l'.burst in
      let q = reserve_at (k + 1) chunk l' in
      let ih =
        wait_loop_total f (k + 2) (suc m - chunk) q.1
          (omega (arith, chunk_of_bounds (suc m) l'.burst (omega arith))) in
      elim (Bool-cases (is_off l')) [
        | inl off ↦ (give_up (reserve_at (k + 1) 0 l'), rw off)
        | inr on ↦ rw on (after_chunk_total q.0 q.1 _ ih)
      ]

-- `Wait` returns, whatever others do to the limiter while it runs.
pub wait_total : (w : World) (n : ℕ) (l : RateLimiter) → (r : Waited) × (wait w n l ≡ some r)
unfolding wait
wait_total w n l = wait_loop_total w (suc n) 0 n l (omega arith)

-- A world in which no one else uses the limiter.
abbrev pub alone : (ℕ → ℕ) → World
alone clock = record { clock = clock; others = λ k l. l }

-- What `b` bytes cost a limiter at a time: the bucket is refilled and pays them in full, if need be
-- with a debt.
abbrev pub charged : ℕ → ℕ → RateLimiter → RateLimiter
charged b now l = let l' = refill now l in record l' { tokens = l'.tokens -ℤ pos (b * second) }

-- How long the bytes that a bucket has not got need at the rate.
abbrev pub pause : ℕ → RateLimiter → ℕ
pause b l =
    if ltb_ℤ l.tokens (pos (b * second))
    then duration (pos_part (pos (b * second) -ℤ l.tokens)) l.rate
    else 0

abbrev pub sum : List ℕ → ℕ
sum [] = 0
sum (b ∷ bs) = b + sum bs

abbrev pub positive_before : ℕ → List ℕ → List ℕ
positive_before d ds = if is_pos d then d ∷ ds else ds

-- The chunks as they are paid one after another: of a chunk's two locks the second one reads the
-- clock.
module _ (clock_at : ℕ → ℕ) where
  pub charged_all : ℕ → List ℕ → RateLimiter → RateLimiter
  charged_all k [] l = l
  charged_all k (b ∷ bs) l = charged_all (k + 2) bs (charged b (clock_at (k + 1)) l)

  pub pauses : ℕ → List ℕ → RateLimiter → List ℕ
  pauses k [] l = []
  pauses k (b ∷ bs) l =
      positive_before (pause b (refill (clock_at (k + 1)) l))
        (pauses (k + 2) bs (charged b (clock_at (k + 1)) l))

  -- The chunks and what becomes of them.
  abbrev pub Charges : ℕ → ℕ → RateLimiter → Option Waited → Type 0
  Charges k n l w =
      (bs : List ℕ) × (sum bs ≡ n)
      × All (λ b. (0 < b) × (b ≤ l.burst)) bs
      × (w ≡ some (record { error = none; sleeps = pauses k bs l; limiter = charged_all k bs l }))
