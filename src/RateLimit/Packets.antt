-- ===== src/RateLimit/Packets.antt =====
-- counter/ratelimit.go: the wrappers that limit packets. They never wait: a packet that the limiter
-- does not allow is dropped.
use mini_sb_agent.Base.{
  ℕ, Bool, true, false, not, ◌&&◌, Option, none, some, [], ◌∷◌, if◌then◌else◌, is_some, length,
  Result, ok, err, nat_eq, list_eq, pair_eq, Text, codes,
}
use mini_sb_agent.Counter.Conn.{Failure}
use mini_sb_agent.RateLimit.{LimiterError, limiter_closed}
use mini_sb_agent.RateLimit.Conn.{Bytes}

-- `N.PacketConn` over a state `S`, with destinations `D`. A read answers the buffer as it leaves it.
pub record PacketConn (D S : Type 0) : Type 0 where
  pub read_packet : S → (D × Bytes × Failure) × S
  pub write_packet : Bytes → D → S → Failure × S

-- `Allow` of a limiter that lies in `S`; `none` is the nil limiter.
abbrev pub Gate : Type 0 → Type 0
Gate S = Option (ℕ → S → Result LimiterError Bool × S)

abbrev pub closed_text : Text
closed_text = codes "rate limiter closed"

module _ {D S : Type 0} where
  -- What is left of a packet that was read, by the answer of the gate.
  abbrev pub gate_read : D → Bytes → Result LimiterError Bool × S → (D × Bytes × Failure) × S
  gate_read dest bs (err limiter_closed, s) = ((dest, bs, some closed_text), s)
  gate_read dest bs (ok true, s) = ((dest, bs, none), s)
  gate_read dest bs (ok false, s) = ((dest, [], none), s)

  abbrev pub gated_read : Gate S → (D × Bytes × Failure) × S → (D × Bytes × Failure) × S
  gated_read (some allow) ((dest, x ∷ bs, none), s) =
      gate_read dest (x ∷ bs) (allow (length (x ∷ bs)) s)
  gated_read (some allow) ((dest, [], none), s) = ((dest, [], none), s)
  gated_read (some allow) ((dest, bs, some e), s) = ((dest, bs, some e), s)
  gated_read none r = r

  -- `RateLimitedPacketConn.ReadPacket`
  pub read_packet_limited : PacketConn D S → Gate S → S → (D × Bytes × Failure) × S
  read_packet_limited c g s = gated_read g (c.read_packet s)

  abbrev pub gate_write : PacketConn D S → Bytes → D → Result LimiterError Bool × S → Failure × S
  gate_write c bs dest (err limiter_closed, s) = (some closed_text, s)
  gate_write c bs dest (ok true, s) = c.write_packet bs dest s
  gate_write c bs dest (ok false, s) = (none, s)

  -- `RateLimitedPacketConn.WritePacket`
  unfoldable pub write_packet_limited : PacketConn D S → Gate S → Bytes → D → S → Failure × S
  write_packet_limited c none bs dest s = c.write_packet bs dest s
  write_packet_limited c (some allow) [] dest s = c.write_packet [] dest s
  write_packet_limited c (some allow) (x ∷ bs) dest s =
      gate_write c (x ∷ bs) dest (allow (length (x ∷ bs)) s)

  -- `NewRateLimitedPacketConn`
  unfoldable pub new_rate_limited_packet_conn : PacketConn D S → Gate S → Gate S → PacketConn D S
  unfolding read_packet_limited write_packet_limited
  new_rate_limited_packet_conn c rg wg =
      if not (is_some rg) && not (is_some wg) then c else record {
        read_packet = read_packet_limited c rg;
        write_packet = write_packet_limited c wg;
      }
