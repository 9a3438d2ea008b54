-- ===== src/RateLimit/Writing.antt =====
-- What `Write` and `WriteBuffer` of counter/ratelimit.go put on the wire.
use mini_sb_agent.Base.{
  ℕ, zero, suc, ◌+◌, ◌≤◌, ◌≡◌, refl, sym, ap, ◌∙◌, ◌⊎◌, inl, inr, true, none, some, [], ◌∷◌, ◌++◌,
  append-nil, append_assoc, arith, Bool-cases, is_some, length, ◌==◌, nat_eq, list_eq, pair_eq,
  take, drop, length-take, length-drop, take-append-take-drop, take-take, take_all,
}
use native.Mathlib.Decide.{dec_le}
use mini_sb_agent.Counter.Conn.{Failure}
use mini_sb_agent.RateLimit.{max_write_chunk}
use mini_sb_agent.RateLimit.Conn.{Bytes, Conn, after_write, after_wait, write_loop, write_limited}

-- A chunk and a prefix of what follows it.
take_chunk :
    (k m : ℕ) (b : Bytes)
    → m ≤ length (drop k b)
    → take k b ++ take m (drop k b) ≡ take (length (take k b) + m) b
take_chunk k m b h = take-append-take-drop k m b ∙ elim (dec_le k (length b)) [
  | yes fits ↦ ap (λ n. take (n + m) b) (omega (arith, length-take k b))
  | no over ↦
      take_all (k + m) b (omega arith)
      ∙ sym (take_all (length (take k b) + m) b (omega (arith, length-take k b)))
]

chunk_end :
    (k n m : ℕ) (b : Bytes) (e : Failure)
    → n ≡ length (take k b)
    → (is_some e ≡ true) ⊎ (m ≡ length (drop k b))
    → (is_some e ≡ true) ⊎ (n + m ≡ length b)
chunk_end k n m b e full (inl failed) = inl failed
chunk_end k n m b e full (inr all_written) = inr (omega (arith, length-take k b, length-drop k b))

module _ {S : Type 0} (log : S → Bytes) where
  -- A result of a write of `b` from state `s` on, where `total` bytes had been written before: the
  -- wire holds as much more of `b` as is reported, and with no error all of it.
  abbrev pub Writes : ℕ → Bytes → S → (ℕ × Failure) × S → Type 0
  Writes total b s ((n, e), s') =
      (m : ℕ) × (n ≡ total + m)
      × (m ≤ length b)
      × (log s' ≡ log s ++ take m b)
      × ((is_some e ≡ true) ⊎ (m ≡ length b))

  -- The contract of `io.Writer` without its last clause, that a short count comes with an error.
  abbrev pub WritesPrefix : Bytes → S → (ℕ × Failure) × S → Type 0
  WritesPrefix b s ((n, e), s') = (n ≤ length b) × (log s' ≡ log s ++ take n b)

  -- Waiting writes nothing.
  abbrev pub IsSilent : (ℕ → S → Failure × S) → Type 0
  IsSilent wait = (n : ℕ) (s : S) → log (wait n s).1 ≡ log s

  nothing : (b : Bytes) (s : S) → log s ≡ log s ++ take 0 b
  unfolding take
  nothing b s = sym (append-nil (log s))

  after_wait-Writes :
      (total : ℕ) (b : Bytes) (s : S) (w : Failure × S) (r : (ℕ × Failure) × S)
      → log w.1 ≡ log s
      → Writes total b w.1 r
      → Writes total b s (after_wait total w r)
  unfolding take
  after_wait-Writes total b s (some e, s') r h h' =
      (0, omega arith, omega arith, rw (h, take) (sym (append-nil (log s))), inl refl)
  after_wait-Writes total b s (none, s') r h (m, p, q, w, z) = (m, p, q, rw (← h) w, z)

  chunk-Writes :
      (k total n : ℕ) (b : Bytes) (s s' : S) (r : (ℕ × Failure) × S)
      → n ≡ length (take k b)
      → log s' ≡ log s ++ take n (take k b)
      → Writes (total + n) (drop k b) s' r
      → Writes total b s r
  chunk-Writes k total n b s s' r full p (m, q, le, w, z) = (
    n + m,
    omega (arith, q),
    omega (arith, length-take k b, length-drop k b),
    w
        ∙ ap (λ x. x ++ take m (drop k b))
            (p ∙ ap (λ x. log s ++ x) (take_all n (take k b) (omega (arith, full))))
        ∙ append_assoc (log s) (take k b) (take m (drop k b))
        ∙ ap (λ x. log s ++ x) (take_chunk k m b le ∙ ap (λ j. take (j + m) b) (sym full)),
    chunk_end k n m b _ full z,
  )

  after_write-Writes :
      (k total : ℕ) (b : Bytes) (s : S) (w r : (ℕ × Failure) × S)
      → WritesPrefix (take k b) s w
      → Writes (total + w.0.0) (drop k b) w.1 r
      → Writes total b s (after_write total (length (take k b)) w r)
  after_write-Writes k total b s ((n, some e), s') r (le, p) h = (
    n,
    refl,
    omega (arith, length-take k b),
    p ∙ ap (λ x. log s ++ x) (take-take n k b (omega (arith, length-take k b))),
    inl refl,
  )
  after_write-Writes k total b s ((n, none), s') r (le, p) h =
      elim (Bool-cases (n == length (take k b))) [
        | inl full ↦ rw full (chunk-Writes k total n b s s' r (ground arith) p h)
        | inr short ↦ rw short (
          n,
          refl,
          omega (arith, length-take k b),
          p ∙ ap (λ x. log s ++ x) (take-take n k b (omega (arith, length-take k b))),
          inl refl,
        )
      ]

  module _ (c : Conn S) (honest : (b : Bytes) (s : S) → WritesPrefix b s (c.write b s)) where
    write_loop-Writes :
        (wait : ℕ → S → Failure × S) (f total : ℕ) (b : Bytes) (s : S)
        → IsSilent wait
        → length b ≤ f
        → Writes total b s (write_loop c wait f total b s)
    unfolding write_loop
    write_loop-Writes wait zero total [] s silent h =
        (0, omega arith, omega arith, nothing [] s, inr refl)
    write_loop-Writes wait zero total (x ∷ b) s silent h = absurd (omega arith)
    write_loop-Writes wait (suc f) total [] s silent h =
        (0, omega arith, omega arith, nothing [] s, inr refl)
    write_loop-Writes wait (suc f) total (x ∷ b) s silent h =
        let chunk = take max_write_chunk (x ∷ b) in
        let waited = wait (length chunk) s in
        let written = c.write chunk waited.1 in
        let left = drop max_write_chunk (x ∷ b) in
        after_wait-Writes total (x ∷ b) s waited _ (silent (length chunk) s) (
          after_write-Writes max_write_chunk total (x ∷ b) waited.1 written _
            (honest chunk waited.1)
            (write_loop-Writes wait f (total + written.0.0) left written.1 silent
              (omega (arith, length-drop max_write_chunk (x ∷ b)))))

    -- `Write` through a write limiter, on a connection whose own `Write` puts on the wire the prefix
    -- that it reports: the wire gains exactly the prefix of the bytes that the answer counts, and
    -- all of them if there is no error, whatever the waits answer.
    pub write_limited-Writes :
        (wait : ℕ → S → Failure × S) (x : ℕ) (b : Bytes) (s : S)
        → IsSilent wait
        → Writes 0 (x ∷ b) s (write_limited c (some wait) (x ∷ b) s)
    unfolding write_limited
    write_limited-Writes wait x b s silent =
        write_loop-Writes wait (length (x ∷ b)) 0 (x ∷ b) s silent (omega arith)
