-- ===== src/RateLimit/Conn.antt =====
-- counter/ratelimit.go: the wrappers that limit a stream. A connection is what its four calls do to
-- a state `S`, which holds the wire and the limiters; a wrapper makes a connection of another.
use mini_sb_agent.Base.{
  ℕ, zero, suc, ◌+◌, not, ◌&&◌, ◌||◌, Option, none, some, List, [], ◌∷◌, ltb, if◌then◌else◌,
  is_some, length, is_empty, ◌==◌, nat_eq, list_eq, pair_eq, Text, codes, take, drop,
}
use mini_sb_agent.Counter.Conn.{Failure}
use mini_sb_agent.RateLimit.{max_write_chunk, max_read_chunk}

abbrev pub Bytes : Type 0
Bytes = List ℕ

-- `N.ExtendedConn`. `read n` reads into a buffer of `n` bytes and answers what it read.
pub record Conn (S : Type 0) : Type 0 where
  pub read : ℕ → S → (Bytes × Failure) × S
  pub write : Bytes → S → (ℕ × Failure) × S
  pub read_buffer : S → (Bytes × Failure) × S
  pub write_buffer : Bytes → S → Failure × S

-- `Wait` of a limiter that lies in `S`; `none` is the nil limiter.
abbrev pub Limiter : Type 0 → Type 0
Limiter S = Option (ℕ → S → Failure × S)

abbrev pub first_error : Failure → Failure → Failure
first_error none e = e
first_error (some x) e = some x

-- `io.ErrShortWrite`
abbrev pub short_write : Text
short_write = codes "short write"

module _ {S : Type 0} where
  abbrev pub wait_for : Limiter S → ℕ → S → Failure × S
  wait_for none n s = (none, s)
  wait_for (some wait) n s = wait n s

  -- `RateLimitedConn.Read`: a read error goes before an error of the limiter.
  pub read_limited : Conn S → Limiter S → ℕ → S → (Bytes × Failure) × S
  read_limited c l n s =
      let ((bs, e), s') =
        c.read (if is_some l && ltb max_read_chunk n then max_read_chunk else n) s in
      if is_empty bs
      then ((bs, e), s')
      else (let (we, s'') = wait_for l (length bs) s' in ((bs, first_error e we), s''))

  -- What follows the write of one chunk of `size` bytes: the error, the short write, or the `rest`
  -- of the loop from the state after it.
  abbrev pub after_write : ℕ → ℕ → (ℕ × Failure) × S → ((ℕ × Failure) × S) → (ℕ × Failure) × S
  after_write total size ((n, some e), s) rest = ((total + n, some e), s)
  after_write total size ((n, none), s) rest =
      if n == size then rest else ((total + n, some short_write), s)

  abbrev pub after_wait : ℕ → Failure × S → ((ℕ × Failure) × S) → (ℕ × Failure) × S
  after_wait total (some e, s) rest = ((total, some e), s)
  after_wait total (none, s) rest = rest

  -- The loop of `RateLimitedConn.Write` on the bytes that are left, with `total` written.
  unfoldable pub write_loop : Conn S → (ℕ → S → Failure × S) → ℕ → ℕ → Bytes → S → (ℕ × Failure) × S
  write_loop c wait zero total b s = ((total, none), s)
  write_loop c wait (suc f) total [] s = ((total, none), s)
  write_loop c wait (suc f) total (x ∷ b) s =
      let chunk = take max_write_chunk (x ∷ b) in
      let waited = wait (length chunk) s in
      let written = c.write chunk waited.1 in
      let rest =
        write_loop c wait f (total + written.0.0) (drop max_write_chunk (x ∷ b)) written.1 in
      after_wait total waited (after_write total (length chunk) written rest)

  -- `RateLimitedConn.Write`; the number of bytes is fuel enough.
  unfoldable pub write_limited : Conn S → Limiter S → Bytes → S → (ℕ × Failure) × S
  unfolding write_loop
  write_limited c none b s = c.write b s
  write_limited c (some wait) [] s = c.write [] s
  write_limited c (some wait) (x ∷ b) s = write_loop c wait (length (x ∷ b)) 0 (x ∷ b) s

  -- `RateLimitedConn.ReadBuffer`
  pub read_buffer_limited : Conn S → Limiter S → S → (Bytes × Failure) × S
  read_buffer_limited c l s =
      let ((bs, e), s') = c.read_buffer s in
      if is_some e || is_empty bs
      then ((bs, e), s')
      else (let (we, s'') = wait_for l (length bs) s' in ((bs, we), s''))

  -- The rest of `RateLimitedConn.WriteBuffer` when at most a chunk is left.
  pub write_buffer_last : Conn S → (ℕ → S → Failure × S) → Bytes → S → Failure × S
  write_buffer_last c wait [] s = (none, s)
  write_buffer_last c wait (x ∷ b) s =
      let (we, s') = wait (length (x ∷ b)) s in
      if is_some we then (we, s') else c.write_buffer (x ∷ b) s'

  abbrev pub if_nil : Failure × S → Failure × S → Failure × S
  if_nil (some e, s) rest = (some e, s)
  if_nil (none, s) rest = rest

  -- The loop of `RateLimitedConn.WriteBuffer`: the count that the inner write answers is not read.
  pub write_buffer_loop : Conn S → (ℕ → S → Failure × S) → ℕ → Bytes → S → Failure × S
  unfolding write_buffer_last
  write_buffer_loop c wait zero b s = write_buffer_last c wait b s
  write_buffer_loop c wait (suc f) b s =
      let waited = wait max_write_chunk s in
      let written = c.write (take max_write_chunk b) waited.1 in
      let rest = write_buffer_loop c wait f (drop max_write_chunk b) written.1 in
      if ltb max_write_chunk (length b)
      then if_nil waited (if_nil (written.0.1, written.1) rest)
      else write_buffer_last c wait b s

  -- `RateLimitedConn.WriteBuffer`
  pub write_buffer_limited : Conn S → Limiter S → Bytes → S → Failure × S
  unfolding write_buffer_loop
  write_buffer_limited c none b s = c.write_buffer b s
  write_buffer_limited c (some wait) [] s = c.write_buffer [] s
  write_buffer_limited c (some wait) (x ∷ b) s = write_buffer_loop c wait (length (x ∷ b)) (x ∷ b) s

  -- `NewRateLimitedConn`: with neither limiter the connection itself.
  unfoldable pub new_rate_limited_conn : Conn S → Limiter S → Limiter S → Conn S
  unfolding read_limited write_limited read_buffer_limited write_buffer_limited
  new_rate_limited_conn c rl wl = if not (is_some rl) && not (is_some wl) then c else record {
    read = read_limited c rl;
    write = write_limited c wl;
    read_buffer = read_buffer_limited c rl;
    write_buffer = write_buffer_limited c wl;
  }
