-- ===== src/Tests/Routed.antt =====
-- Inputs for `RoutedConnection` of cmd/mini-sb-agent/main.go: a user's connection with two limiters.
use mini_sb_agent.Base.{
  ◌+◌, ◌%◌, ◌≤◌, ◌≡◌, refl, sym, ap, inl, none, some, List, [], ◌∷◌, ◌++◌, arith, ltb, length, ok,
  nat_eq, list_eq, pair_eq, word, take, take_all,
}
use mini_sb_agent.RateLimit.Conn.{Bytes, Limiter}
use mini_sb_agent.Hook.Routed.{Counted, routed_conn, routed_conn-counts}
use mini_sb_agent.Tests.Counters.{start}
use mini_sb_agent.RateLimit.Packets.{Gate}
use mini_sb_agent.Hook.RoutedPackets.{IsSettled, routed_packet_conn, routed_packet_conn-IsSettled}
use mini_sb_agent.Tests.Limits.{wire, packet_wire}

abbrev quiet : Limiter (Counted Bytes)
quiet = some (λ n s. (none, s))

routed_conn-counts_example :
    let ((n, e), s') =
      (routed_conn 0 wire none quiet none quiet).write (1 ∷ 2 ∷ 3 ∷ []) (start, []) in
    (n ≤ 3)
    × (s'.1 ≡ [] ++ take n (1 ∷ 2 ∷ 3 ∷ []))
    × ((s'.0.storages 0).down_counter ≡ ((start.storages 0).down_counter + n) % word)
routed_conn-counts_example =
    routed_conn-counts (λ s. s) 0 wire none quiet none quiet (1 ∷ 2 ∷ 3 ∷ []) (start, [])
      (λ b w. (omega arith, ap (λ k. w ++ k) (sym (take_all (length b) b (omega arith)))))
      (λ n s. (refl, refl)) (λ n s. (refl, refl)) (omega arith)

-- A gate that drops packets of a thousand bytes and more.
abbrev gate : Gate (Counted (List Bytes))
gate = some (λ n s. (ok (ltb n 1000), s))

routed_packet_conn-IsSettled_example :
    IsSettled
      (λ s. s)
      0
      (1 ∷ 2 ∷ [])
      (start, [])
      ((routed_packet_conn 0 packet_wire none gate none gate).write_packet
        (1 ∷ 2 ∷ [])
        5
        (start, []))
routed_packet_conn-IsSettled_example =
    routed_packet_conn-IsSettled (λ s. s) 0 packet_wire none gate none gate (1 ∷ 2 ∷ []) 5
      (start, []) (λ bs dest w. inl (refl, refl)) (λ n s. (refl, refl)) (λ n s. (refl, refl))
      (omega arith)
