-- ===== src/Hook/Routed.antt =====
-- `Hook.RoutedConnection` of cmd/mini-sb-agent/main.go: a user's connection counts its bytes under the
-- limiters of the node and of the user.
use mini_sb_agent.Base.{
  ℕ, zero, suc, ◌+◌, ◌%◌, ◌≤◌, ◌<◌, ◌≡◌, refl, sym, ap, ◌∙◌, inl, inr, none, some, [], ◌∷◌, ◌++◌,
  arith, Bool-cases, length, length-append, ◌==◌, nat_eq, list_eq, pair_eq, word, take, drop,
  length-take,
}
use mathlib.Core.Path.{subst}
use mini_sb_agent.Counter.{TrafficCounter}
use mini_sb_agent.Counter.Conn.{Failure, read, write, read_buffer, write_buffer}
use mini_sb_agent.RateLimit.{max_write_chunk}
use mini_sb_agent.RateLimit.Conn.{
  Bytes, Conn, Limiter, after_write, after_wait, write_loop, write_limited, new_rate_limited_conn,
}
use mini_sb_agent.RateLimit.Writing.{Writes, WritesPrefix, IsSilent, write_limited-Writes}

-- What a connection works on: the counter of its inbound, and the wire with the limiters.
abbrev pub Counted : Type 0 → Type 0
Counted W = TrafficCounter × W

module _ {W : Type 0} where
  -- `NewConnCounter`: each call forwards to the connection and counts at address `a`.
  unfoldable pub new_conn_counter : ℕ → Conn W → Conn (Counted W)
  unfolding read write read_buffer write_buffer
  new_conn_counter a c = record {
    read = λ n s.
        let ((bs, e), w) = c.read n s.1 in
        let ((k, e'), t) = read a (length bs, e) s.0 in ((bs, e'), (t, w));
    write = λ b s. let (r, w) = c.write b s.1 in let (r', t) = write a r s.0 in (r', (t, w));
    read_buffer = λ s.
        let ((bs, e), w) = c.read_buffer s.1 in
        let (e', t) = read_buffer a (length bs) e s.0 in ((bs, e'), (t, w));
    write_buffer = λ b s.
        let (e, w) = c.write_buffer b s.1 in
        let (e', t) = write_buffer a (length b) e s.0 in (e', (t, w));
  }

  -- The wrappers of `RoutedConnection`, from the connection outwards: the counter, the limiters of
  -- the node and those of the user.
  unfoldable pub routed_conn :
      ℕ
      → Conn W
      → Limiter (Counted W)
      → Limiter (Counted W)
      → Limiter (Counted W)
      → Limiter (Counted W)
      → Conn (Counted W)
  unfolding new_conn_counter new_rate_limited_conn
  routed_conn a c node_read node_write user_read user_write =
      new_rate_limited_conn (new_rate_limited_conn (new_conn_counter a c) node_read node_write)
        user_read user_write

-- Any property that the connection's own `Write` and the waits keep is kept.
module _ {S : Type 0} (P : S → Type 0) (c : Conn S)
    (write_keeps : (b : Bytes) (s : S) → P s → P (c.write b s).1) where
  -- A wait keeps the property.
  abbrev Keeps : (ℕ → S → Failure × S) → Type 0
  Keeps wait = (n : ℕ) (s : S) → P s → P (wait n s).1

  after_wait-keeps :
      (total : ℕ) (w : Failure × S) (r : (ℕ × Failure) × S)
      → P w.1
      → P r.1
      → P (after_wait total w r).1
  after_wait-keeps total (some e, s) r h h' = h
  after_wait-keeps total (none, s) r h h' = h'

  after_write-keeps :
      (total size : ℕ) (w r : (ℕ × Failure) × S) → P w.1 → P r.1 → P (after_write total size w r).1
  after_write-keeps total size ((n, some e), s) r h h' = h
  after_write-keeps total size ((n, none), s) r h h' = elim (Bool-cases (n == size)) [
    | inl full ↦ rw full h'
    | inr short ↦ rw short h
  ]

  write_loop-keeps :
      (wait : ℕ → S → Failure × S) (f total : ℕ) (b : Bytes) (s : S)
      → Keeps wait
      → P s
      → P (write_loop c wait f total b s).1
  unfolding write_loop
  write_loop-keeps wait zero total b s k h = h
  write_loop-keeps wait (suc f) total [] s k h = h
  write_loop-keeps wait (suc f) total (x ∷ b) s k h =
      let chunk = take max_write_chunk (x ∷ b) in
      let waited = wait (length chunk) s in
      let written = c.write chunk waited.1 in
      let after = write_keeps chunk waited.1 (k (length chunk) s h) in
      after_wait-keeps total waited _ (k (length chunk) s h) (
        after_write-keeps total (length chunk) written _ after (
          write_loop-keeps wait f (total + written.0.0) (drop max_write_chunk (x ∷ b)) written.1 k
            after))

  write_limited-keeps :
      (wait : ℕ → S → Failure × S) (b : Bytes) (s : S)
      → Keeps wait
      → P s
      → P (write_limited c (some wait) b s).1
  unfolding write_limited
  write_limited-keeps wait [] s k h = write_keeps [] s h
  write_limited-keeps wait (x ∷ b) s k h = write_loop-keeps wait (length (x ∷ b)) 0 (x ∷ b) s k h

-- Nil limiters change nothing: a limited connection's `Write` is that of the write limiter.
write-new_rate_limited_conn :
    {S : Type 0} (c : Conn S) (rl wl : Limiter S) (b : Bytes) (s : S)
    → (new_rate_limited_conn c rl wl).write b s ≡ write_limited c wl b s
unfolding new_rate_limited_conn write_limited
write-new_rate_limited_conn c none none b s = refl
write-new_rate_limited_conn c none (some w) b s = refl
write-new_rate_limited_conn c (some r) none b s = refl
write-new_rate_limited_conn c (some r) (some w) b s = refl

-- Waiting puts nothing on the wire.
abbrev IsStill : {S : Type 0} → (S → Bytes) → Limiter S → Type 0
IsStill log none = Unit {0}
IsStill log (some wait) = IsSilent log wait

Writes-WritesPrefix :
    {S : Type 0} (log : S → Bytes) (b : Bytes) (s : S) (r : (ℕ × Failure) × S)
    → Writes log 0 b s r
    → WritesPrefix log b s r
Writes-WritesPrefix log b s ((n, e), s') (m, q, le, w, z) =
    let same : m ≡ n = omega (arith, q) in
    (omega (arith, q, le), w ∙ ap (λ k. log s ++ take k b) same)

-- A limited `Write` of a connection that reports the prefix which it writes does so too.
write_limited-WritesPrefix :
    {S : Type 0} (log : S → Bytes) (c : Conn S)
    (honest : (b : Bytes) (s : S) → WritesPrefix log b s (c.write b s)) (l : Limiter S) (b : Bytes)
    (s : S)
    → IsStill log l
    → WritesPrefix log b s (write_limited c l b s)
unfolding write_limited
write_limited-WritesPrefix log c honest none b s still = honest b s
write_limited-WritesPrefix log c honest (some wait) [] s still = honest [] s
write_limited-WritesPrefix log c honest (some wait) (x ∷ b) s still =
    Writes-WritesPrefix log (x ∷ b) s (write_limited c (some wait) (x ∷ b) s)
      (write_limited-Writes log c honest wait x b s still)

-- Waiting writes and counts nothing.
abbrev pub IsQuiet : {W : Type 0} → (W → Bytes) → Limiter (Counted W) → Type 0
IsQuiet log none = Unit {0}
IsQuiet {W = W} log (some wait) =
    (n : ℕ) (s : Counted W) → (log (wait n s).1.1 ≡ log s.1) × ((wait n s).1.0 ≡ s.0)

module _ {W : Type 0} (log : W → Bytes) (a : ℕ) (start : Counted W) where
  abbrev down : Counted W → ℕ
  down s = (s.0.storages a).down_counter

  -- Since `start` as many bytes were counted as the wire has gained.
  abbrev Tallies : Counted W → Type 0
  Tallies s =
      (j : ℕ) × (length (log s.1) ≡ length (log start.1) + j) × (down s ≡ (down start + j) % word)

  -- The bytes on the wire, seen from the counted connection.
  abbrev wire_log : Counted W → Bytes
  wire_log s = log s.1

  module _ (c : Conn W) (honest : (b : Bytes) (w : W) → WritesPrefix log b w (c.write b w)) where
    counted_honest :
        (b : Bytes) (s : Counted W) → WritesPrefix wire_log b s ((new_conn_counter a c).write b s)
    unfolding new_conn_counter write
    counted_honest b s = honest b s.1

    counted-Tallies :
        (b : Bytes) (s : Counted W) → Tallies s → Tallies ((new_conn_counter a c).write b s).1
    unfolding new_conn_counter write
    counted-Tallies b s (j, l, d) =
        let (le, p) = honest b s.1 in
        let n = (c.write b s.1).0.0 in
        let longer = ap length p ∙ length-append (log s.1) (take n b) in
        let taken = length-take n b in
        (j + n, omega (arith, longer, taken, le, l), ground (arith, d))

    IsQuiet-IsStill : (l : Limiter (Counted W)) → IsQuiet log l → IsStill wire_log l
    IsQuiet-IsStill none q = tt
    IsQuiet-IsStill (some wait) q = λ n s. (q n s).0

    limited-Tallies :
        (c' : Conn (Counted W)) (l : Limiter (Counted W)) (b : Bytes) (s : Counted W)
        → ((b : Bytes) (s : Counted W) → Tallies s → Tallies (c'.write b s).1)
        → IsQuiet log l
        → Tallies s
        → Tallies (write_limited c' l b s).1
    unfolding write_limited
    limited-Tallies c' none b s keeps q h = keeps b s h
    limited-Tallies c' (some wait) b s keeps q h =
        write_limited-keeps Tallies c' keeps wait b s
          (λ n s (j, l, d).
            (j, ap length (q n s).0 ∙ l, ap (λ t. (t.storages a).down_counter) (q n s).1 ∙ d))
          h

    module _ (rl wl : Limiter (Counted W)) (c' : Conn (Counted W)) (quiet : IsQuiet log wl) where
      limited_conn_honest :
          ((b : Bytes) (s : Counted W) → WritesPrefix wire_log b s (c'.write b s))
          → (b : Bytes) (s : Counted W)
          → WritesPrefix wire_log b s ((new_rate_limited_conn c' rl wl).write b s)
      limited_conn_honest honest' b s =
          subst (WritesPrefix wire_log b s) (sym (write-new_rate_limited_conn c' rl wl b s))
            (write_limited-WritesPrefix wire_log c' honest' wl b s (IsQuiet-IsStill wl quiet))

      limited_conn-Tallies :
          ((b : Bytes) (s : Counted W) → Tallies s → Tallies (c'.write b s).1)
          → (b : Bytes) (s : Counted W) → Tallies s
          → Tallies ((new_rate_limited_conn c' rl wl).write b s).1
      limited_conn-Tallies keeps b s h =
          subst (λ r. Tallies r.1) (sym (write-new_rate_limited_conn c' rl wl b s))
            (limited-Tallies c' wl b s keeps quiet h)

-- `Write` on a user's connection, through the user's limiter, the node's limiter and the counter,
-- whichever of the limiters are nil and whatever their waits answer: the wire gains exactly the prefix
-- of the bytes that the answer counts, and the user's storage counts exactly as many bytes down. The
-- connection's own `Write` puts on the wire the prefix that it reports, the waits write and count
-- nothing, and the storage holds a 64-bit pattern.
pub routed_conn-counts :
    {W : Type 0} (log : W → Bytes) (a : ℕ) (c : Conn W)
    (node_read node_write user_read user_write : Limiter (Counted W)) (b : Bytes) (s : Counted W)
    → ((b' : Bytes) (w : W) → WritesPrefix log b' w (c.write b' w))
    → IsQuiet log node_write
    → IsQuiet log user_write
    → (s.0.storages a).down_counter < word
    → (let ((n, e), s') = (routed_conn a c node_read node_write user_read user_write).write b s in
        (n ≤ length b)
        × (log s'.1 ≡ log s.1 ++ take n b)
        × ((s'.0.storages a).down_counter ≡ ((s.0.storages a).down_counter + n) % word))
unfolding routed_conn
routed_conn-counts log a c node_read node_write user_read user_write b s honest quiet_node
      quiet_user pattern =
    let c0 = new_conn_counter a c in
    let c1 = new_rate_limited_conn c0 node_read node_write in
    let honest1 =
      limited_conn_honest log a s c honest node_read node_write c0 quiet_node
        (counted_honest log a s c honest) in
    let tally1 =
      limited_conn-Tallies log a s c honest node_read node_write c0 quiet_node
        (counted-Tallies log a s c honest) in
    let (le, gained) =
      limited_conn_honest log a s c honest user_read user_write c1 quiet_user honest1 b s in
    let (j, l, d) =
      limited_conn-Tallies log a s c honest user_read user_write c1 quiet_user tally1 b s
        (0, omega arith, omega (arith, pattern)) in
    let ((n, e), s') = (new_rate_limited_conn c1 user_read user_write).write b s in
    let longer = ap length gained ∙ length-append (log s.1) (take n b) in
    let same : j ≡ n = omega (arith, l, longer, le, length-take n b) in
    (le, gained, d ∙ ap (λ k. ((s.0.storages a).down_counter + k) % word) same)
