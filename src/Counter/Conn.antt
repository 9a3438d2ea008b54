-- ===== src/Counter/Conn.antt =====
-- counter/counter.go: the connection wrappers. Each forwards to the wrapped connection, whose
-- answer is a parameter, and adds the bytes moved to the storage at address `a`.
use mini_sb_agent.Base.{
  ℕ, ◌+◌, not, ◌&&◌, Option, none, some, List, [], ◌∷◌, ltb, nat_beq, if◌then◌else◌, is_some,
  nat_eq, list_eq, pair_eq, Text,
}
use mini_sb_agent.Counter.{TrafficCounter, add_up, add_down, get_counter}

-- Go's `error`: `none` is nil.
abbrev pub Failure : Type 0
Failure = Option Text

module _ (a : ℕ) where
  -- `ConnCounter.Read`: the bytes count even beside an error.
  unfoldable pub read : ℕ × Failure → TrafficCounter → (ℕ × Failure) × TrafficCounter
  read (n, e) c = ((n, e), if ltb 0 n then add_up a n c else c)

  -- `ConnCounter.Write`
  unfoldable pub write : ℕ × Failure → TrafficCounter → (ℕ × Failure) × TrafficCounter
  write (n, e) c = ((n, e), if ltb 0 n then add_down a n c else c)

  -- `ConnCounter.ReadBuffer`; `n` is the buffer's length after the inner call.
  unfoldable pub read_buffer : ℕ → Failure → TrafficCounter → Failure × TrafficCounter
  read_buffer n e c = (e, if not (is_some e) && ltb 0 n then add_up a n c else c)

  -- `ConnCounter.WriteBuffer`; `n` is the buffer's length before the inner call.
  unfoldable pub write_buffer : ℕ → Failure → TrafficCounter → Failure × TrafficCounter
  write_buffer n e c = (e, if not (is_some e) && ltb 0 n then add_down a n c else c)

  -- `PacketConnCounter.ReadPacket`, which also hands on the packet's destination.
  unfoldable pub read_packet {ℓ} :
      {D : Type ℓ} → D → ℕ → Failure → TrafficCounter → (D × Failure) × TrafficCounter
  read_packet dest n e c = ((dest, e), if not (is_some e) && ltb 0 n then add_up a n c else c)

  -- `PacketConnCounter.WritePacket`
  unfoldable pub write_packet : ℕ → Failure → TrafficCounter → Failure × TrafficCounter
  write_packet n e c = (e, if not (is_some e) && ltb 0 n then add_down a n c else c)

-- What happens to the counters while no snapshot is committed: a connection is opened for a user,
-- or one of the wrappers is called on a connection that counts into address `a`.
pub data Event : Type 0 where
  opened : Text → Event
  reads writes : ℕ → ℕ → Failure → Event
  reads_buffer writes_buffer : ℕ → ℕ → Failure → Event
  reads_packet writes_packet : ℕ → ℕ → Failure → Event

unfoldable pub step : Event → TrafficCounter → TrafficCounter
unfolding read write read_buffer write_buffer read_packet write_packet
step (opened user) c = (get_counter user c).1
step (reads a n e) c = (read a (n, e) c).1
step (writes a n e) c = (write a (n, e) c).1
step (reads_buffer a n e) c = (read_buffer a n e c).1
step (writes_buffer a n e) c = (write_buffer a n e c).1
step (reads_packet a n e) c = (read_packet {0} a {D = Unit} tt n e c).1
step (writes_packet a n e) c = (write_packet a n e c).1

unfoldable pub run : List Event → TrafficCounter → TrafficCounter
run [] c = c
run (ev ∷ evs) c = run evs (step ev c)

abbrev at_address : ℕ → ℕ → ℕ → ℕ
at_address a b n = if nat_beq b a then n else 0

abbrev unless_failed : Failure → ℕ → ℕ
unless_failed none n = n
unless_failed (some e) n = 0

-- The bytes that one event moves up through a connection on address `a`.
abbrev pub uploaded : ℕ → Event → ℕ
uploaded a (reads b n e) = at_address a b n
uploaded a (reads_buffer b n e) = at_address a b (unless_failed e n)
uploaded a (reads_packet b n e) = at_address a b (unless_failed e n)
uploaded a (opened u) = 0
uploaded a (writes b n e) = 0
uploaded a (writes_buffer b n e) = 0
uploaded a (writes_packet b n e) = 0

abbrev pub downloaded : ℕ → Event → ℕ
downloaded a (writes b n e) = at_address a b n
downloaded a (writes_buffer b n e) = at_address a b (unless_failed e n)
downloaded a (writes_packet b n e) = at_address a b (unless_failed e n)
downloaded a (opened u) = 0
downloaded a (reads b n e) = 0
downloaded a (reads_buffer b n e) = 0
downloaded a (reads_packet b n e) = 0

-- The sum of `f` over a run.
abbrev pub total : (Event → ℕ) → List Event → ℕ
total f [] = 0
total f (ev ∷ evs) = f ev + total f evs
