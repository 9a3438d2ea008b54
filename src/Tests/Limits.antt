-- ===== src/Tests/Limits.antt =====
-- Inputs for counter/ratelimit.go: a limiter of a million bytes in a second.
use mini_sb_agent.Base.{
  ℕ, ◌+◌, ◌*◌, ◌≤◌, ◌≡◌, refl, sym, ap, false, none, some, List, [], ◌∷◌, ◌++◌, arith, ltb,
  if◌then◌else◌, length, nat_eq, list_eq, pair_eq, pos, take_all,
}
use mini_sb_agent.RateLimit.{
  RateLimiter, second, duration, to_duration, times, divide, round_float, nearest, bit_count,
  set_rate, close, allow, reserve,
}
use mini_sb_agent.RateLimit.Bounds.{IsValid, operations-IsValid}
use mini_sb_agent.RateLimit.Throughput.{
  IsLimiting, clock, packets, passed_all, after_all, passed_packets-le,
}
use mini_sb_agent.RateLimit.Wait.{World, Waited, wait, wait_total}
use mini_sb_agent.RateLimit.Conn.{Bytes, Conn, write_limited}
use mini_sb_agent.RateLimit.Writing.{Writes, write_limited-Writes}
use mini_sb_agent.RateLimit.Packets.{PacketConn}

abbrev limiter : RateLimiter
limiter = record {
  rate = 1000000;
  burst = 200000;
  tokens = pos (200000 * 1000000000);
  last = some 0;
  disabled = false;
  closed = false;
}

limiter-IsValid : IsValid limiter
limiter-IsValid = record {
  burst_fits = omega arith;
  burst_chunk = λ e. omega arith;
  tokens_fit = ground arith;
  closed_disabled = λ e. ground arith;
  limits_pos = λ e. refl;
}

limiter-IsLimiting : IsLimiting 0 limiter
limiter-IsLimiting = record {
  valid = limiter-IsValid;
  is_open = refl;
  enabled = refl;
  read_at = refl;
}

operations-IsValid_example :
    IsValid (set_rate 500 9 limiter)
    × IsValid (close limiter)
    × IsValid (allow 500 9 limiter).1
    × IsValid (reserve 500 9 limiter).1
operations-IsValid_example = operations-IsValid 500 9 limiter limiter-IsValid

-- Two packets, one second apart.
abbrev two_packets : List (ℕ × ℕ)
two_packets = (1400, 0) ∷ (200000, 1000000000) ∷ []

passed_packets-le_example :
    passed_all (packets two_packets) limiter * second + 0 * 1000000
    ≤ 200000 * second + clock (after_all (packets two_packets) limiter) * 1000000
passed_packets-le_example =
    passed_packets-le two_packets 0 limiter limiter-IsLimiting (ground arith)
      (omega arith, (omega arith, tt))

abbrev others_close : World
others_close = record { clock = λ k. k; others = λ k l. if ltb 1 k then close l else l }

wait_total_example : (r : Waited) × (wait others_close 500000 limiter ≡ some r)
wait_total_example = wait_total others_close 500000 limiter

-- 65 bytes at 125000 bytes in a second are 520000 ns, which the rounding of the source misses by one.
duration_rounds : duration (65 * second) 125000 ≡ 519999
unfolding duration to_duration times divide round_float nearest bit_count
duration_rounds = refl

-- A megabyte in a second, exactly.
duration_exact : duration (1000000 * second) 1000000 ≡ second
unfolding duration to_duration times divide round_float nearest bit_count
duration_exact = refl

-- A connection whose state is what it has sent, and that sends all.
abbrev pub wire : Conn Bytes
wire = record {
  read = λ n s. (([], none), s);
  write = λ b s. ((length b, none), s ++ b);
  read_buffer = λ s. (([], none), s);
  write_buffer = λ b s. (none, s ++ b);
}

write_limited-Writes_example :
    Writes
      (λ s. s)
      0
      (1 ∷ 2 ∷ 3 ∷ [])
      (9 ∷ [])
      (write_limited wire (some (λ n s. (none, s))) (1 ∷ 2 ∷ 3 ∷ []) (9 ∷ []))
write_limited-Writes_example =
    write_limited-Writes (λ s. s) wire
      (λ b s. (omega arith, ap (λ k. s ++ k) (sym (take_all (length b) b (omega arith)))))
      (λ n s. (none, s)) 1 (2 ∷ 3 ∷ []) (9 ∷ []) (λ n s. refl)

-- A packet connection whose state is what it has sent.
abbrev pub packet_wire : PacketConn ℕ (List Bytes)
packet_wire = record {
  read_packet = λ s. ((0, [], none), s);
  write_packet = λ b dest s. (none, s ++ b ∷ []);
}
