-- ===== src/Hook/RoutedPackets.antt =====
-- `Hook.RoutedPacketConnection` of cmd/mini-sb-agent/main.go: a user's packets count under the
-- limiters of the node and of the user.
use mini_sb_agent.Base.{
  ℕ, ◌+◌, ◌%◌, ◌<◌, ◌≡◌, refl, sym, ap, ◌∙◌, ◌⊎◌, inl, inr, Bool, true, false, none, some, List, [],
  ◌∷◌, ◌++◌, arith, is_some, length, Result, ok, err, nat_eq, list_eq, pair_eq, word,
}
use mathlib.Core.Path.{subst}
use mini_sb_agent.Counter.Conn.{Failure, read_packet, write_packet}
use mini_sb_agent.RateLimit.{LimiterError, limiter_closed}
use mini_sb_agent.RateLimit.Conn.{Bytes}
use mini_sb_agent.RateLimit.Packets.{
  PacketConn, Gate, gate_write, write_packet_limited, new_rate_limited_packet_conn,
}
use mini_sb_agent.Hook.Routed.{Counted}

module _ {D W : Type 0} where
  -- `NewPacketConnCounter`
  unfoldable pub new_packet_conn_counter : ℕ → PacketConn D W → PacketConn D (Counted W)
  unfolding read_packet write_packet
  new_packet_conn_counter a c = record {
    read_packet = λ s.
        let ((dest, bs, e), w) = c.read_packet s.1 in
        let ((dest', e'), t) = read_packet a dest (length bs) e s.0 in ((dest', bs, e'), (t, w));
    write_packet = λ bs dest s.
        let (e, w) = c.write_packet bs dest s.1 in
        let (e', t) = write_packet a (length bs) e s.0 in (e', (t, w));
  }

  -- The wrappers of `RoutedPacketConnection`, from the connection outwards.
  unfoldable pub routed_packet_conn :
      ℕ
      → PacketConn D W
      → Gate (Counted W)
      → Gate (Counted W)
      → Gate (Counted W)
      → Gate (Counted W)
      → PacketConn D (Counted W)
  unfolding new_packet_conn_counter new_rate_limited_packet_conn
  routed_packet_conn a c node_read node_write user_read user_write =
      new_rate_limited_packet_conn
        (new_rate_limited_packet_conn (new_packet_conn_counter a c) node_read node_write) user_read
        user_write

write_packet-new_rate_limited_packet_conn :
    {D S : Type 0} (c : PacketConn D S) (rg wg : Gate S) (bs : Bytes) (dest : D) (s : S)
    → (new_rate_limited_packet_conn c rg wg).write_packet bs dest s
      ≡ write_packet_limited c wg bs dest s
unfolding new_rate_limited_packet_conn write_packet_limited
write_packet-new_rate_limited_packet_conn c none none bs dest s = refl
write_packet-new_rate_limited_packet_conn c none (some w) bs dest s = refl
write_packet-new_rate_limited_packet_conn c (some r) none bs dest s = refl
write_packet-new_rate_limited_packet_conn c (some r) (some w) bs dest s = refl

-- A packet is sent whole if there is no error, and otherwise not at all.
abbrev pub SendsOrFails : {D W : Type 0} → (W → List Bytes) → PacketConn D W → Type 0
SendsOrFails {D = D} {W = W} log c =
    (bs : Bytes) (dest : D) (w : W)
    → (((c.write_packet bs dest w).0 ≡ none)
        × (log (c.write_packet bs dest w).1 ≡ log w ++ bs ∷ []))
      ⊎ ((is_some (c.write_packet bs dest w).0 ≡ true) × (log (c.write_packet bs dest w).1 ≡ log w))

module _ {W : Type 0} (log : W → List Bytes) where
  -- A limiter's answer sends and counts nothing.
  abbrev pub IsQuietGate : Gate (Counted W) → Type 0
  IsQuietGate none = Unit {0}
  IsQuietGate (some allow) =
      (n : ℕ) (s : Counted W) → (log (allow n s).1.1 ≡ log s.1) × ((allow n s).1.0 ≡ s.0)

  module _ (a : ℕ) where
    abbrev down : Counted W → ℕ
    down s = (s.0.storages a).down_counter

    -- The packet is on the wire and counted, or neither.
    abbrev pub IsSettled : Bytes → Counted W → Failure × Counted W → Type 0
    IsSettled bs s (e, s') =
        ((e ≡ none) × (log s'.1 ≡ log s.1 ++ bs ∷ []) × (down s' ≡ (down s + length bs) % word))
        ⊎ ((log s'.1 ≡ log s.1) × (s'.0 ≡ s.0))

module _ {D W : Type 0} (log : W → List Bytes) (a : ℕ) where
  -- Every write of a packet from a storage that holds a 64-bit pattern.
  abbrev Settles : PacketConn D (Counted W) → Type 0
  Settles c =
      (bs : Bytes) (dest : D) (s : Counted W)
      → down log a s < word
      → IsSettled log a bs s (c.write_packet bs dest s)

  new_packet_conn_counter-Settles :
      (c : PacketConn D W) → SendsOrFails log c → Settles (new_packet_conn_counter a c)
  unfolding new_packet_conn_counter write_packet
  new_packet_conn_counter-Settles c honest bs dest s pattern = elim (honest bs dest s.1) [
    | inl (done, gained) ↦ inl (done, gained, ground (arith, done, pattern))
    | inr (failed, same) ↦ inr (same, rw failed refl)
  ]

  gate_write-IsSettled :
      (c : PacketConn D (Counted W)) (bs : Bytes) (dest : D) (s : Counted W)
      (r : Result LimiterError Bool × Counted W)
      → Settles c
      → down log a s < word
      → log r.1.1 ≡ log s.1
      → r.1.0 ≡ s.0
      → IsSettled log a bs s (gate_write c bs dest r)
  gate_write-IsSettled c bs dest s (err limiter_closed, s') h pattern same_log same =
      inr (same_log, same)
  gate_write-IsSettled c bs dest s (ok false, s') h pattern same_log same = inr (same_log, same)
  gate_write-IsSettled c bs dest s (ok true, s') h pattern same_log same =
      let count : down log a s' ≡ down log a s = ap (λ t. (t.storages a).down_counter) same in
      elim (h bs dest s' (rw count pattern)) [
        | inl (done, gained, counted) ↦ inl (
          done,
          gained ∙ ap (λ l. l ++ bs ∷ []) same_log,
          counted ∙ ap (λ d. (d + length bs) % word) count,
        )
        | inr (kept_log, kept) ↦ inr (kept_log ∙ same_log, kept ∙ same)
      ]

  limited-IsSettled :
      (c : PacketConn D (Counted W)) (g : Gate (Counted W)) (bs : Bytes) (dest : D) (s : Counted W)
      → Settles c
      → IsQuietGate log g
      → down log a s < word
      → IsSettled log a bs s (write_packet_limited c g bs dest s)
  unfolding write_packet_limited
  limited-IsSettled c none bs dest s h quiet pattern = h bs dest s pattern
  limited-IsSettled c (some allow) [] dest s h quiet pattern = h [] dest s pattern
  limited-IsSettled c (some allow) (x ∷ bs) dest s h quiet pattern =
      let (same_log, same) = quiet (length (x ∷ bs)) s in
      gate_write-IsSettled c (x ∷ bs) dest s (allow (length (x ∷ bs)) s) h pattern same_log same

  new_rate_limited_packet_conn-Settles :
      (c : PacketConn D (Counted W)) (rg wg : Gate (Counted W))
      → Settles c
      → IsQuietGate log wg
      → Settles (new_rate_limited_packet_conn c rg wg)
  new_rate_limited_packet_conn-Settles c rg wg h quiet bs dest s pattern =
      subst (IsSettled log a bs s)
        (sym (write_packet-new_rate_limited_packet_conn c rg wg bs dest s))
        (limited-IsSettled c wg bs dest s h quiet pattern)

-- `WritePacket` on a user's packet connection, through the user's limiter, the node's limiter and the
-- counter, whichever of the limiters are nil and whatever they answer: either the packet is on the
-- wire, once and whole, and its bytes are counted for the user, or it is not sent and nothing is
-- counted. The connection's own `WritePacket` sends the packet whole or answers an error, the limiters
-- send and count nothing, and the storage holds a 64-bit pattern.
pub routed_packet_conn-IsSettled :
    {D W : Type 0} (log : W → List Bytes) (a : ℕ) (c : PacketConn D W)
    (node_read node_write user_read user_write : Gate (Counted W)) (bs : Bytes) (dest : D)
    (s : Counted W)
    → SendsOrFails log c
    → IsQuietGate log node_write
    → IsQuietGate log user_write
    → (s.0.storages a).down_counter < word
    → IsSettled log a bs s
        ((routed_packet_conn a c node_read node_write user_read user_write).write_packet bs dest s)
unfolding routed_packet_conn
routed_packet_conn-IsSettled log a c node_read node_write user_read user_write bs dest s honest
      quiet_node quiet_user pattern =
    let c0 = new_packet_conn_counter a c in
    let c1 = new_rate_limited_packet_conn c0 node_read node_write in
    new_rate_limited_packet_conn-Settles log a c1 user_read user_write
      (new_rate_limited_packet_conn-Settles log a c0 node_read node_write
        (new_packet_conn_counter-Settles log a c honest) quiet_node)
      quiet_user bs dest s pattern
