-- ===== src/Counter/Rounds.antt =====
-- A billing round of counter/counter.go: a snapshot, traffic while it is pushed, and the commit.
use mini_sb_agent.Base.{
  ℕ, ◌+◌, ◌%◌, ◌<◌, ◌≡◌, refl, inl, inr, Bool, Option, none, some, List, [], ◌∷◌, arith,
  if◌then◌else◌, Bool-cases, nat_eq, list_eq, pair_eq, list_beq_iff, lookup, IsMap, lookup-insert,
  lookup-select, select-IsMap, word, add64, sub64, Text,
}
use mini_sb_agent.Counter.{
  TrafficStorage, TrafficCounter, Snapshot, get_counter, up_delta, down_delta, delta_entry,
  snapshot_delta, commit_snapshot,
}
use mini_sb_agent.Counter.Accounts.{
  IsValid, get_counter-IsValid, committed, storages-commit_snapshot, commit_snapshot-IsValid,
  counters-commit_snapshot,
}
use mini_sb_agent.Counter.Conn.{
  Event, opened, reads, writes, reads_buffer, writes_buffer, reads_packet, writes_packet, step, run,
  uploaded, downloaded, total,
}

-- The counters hold 64-bit patterns.
pub record IsWord (s : TrafficStorage) : Type 0 where
  pub up : s.up_counter < word
  pub down : s.down_counter < word
  pub was_up : s.committed_up < word
  pub was_down : s.committed_down < word

-- What `u` bytes up and `d` bytes down make of a storage.
abbrev pub Grows : TrafficStorage → ℕ → ℕ → TrafficStorage → Type 0
Grows s u d t =
    (t.up_counter ≡ (s.up_counter + u) % word)
    × (t.down_counter ≡ (s.down_counter + d) % word)
    × (t.committed_up ≡ s.committed_up)
    × (t.committed_down ≡ s.committed_down)

-- One attempt to report: traffic, a snapshot, traffic while it is pushed, and the commit if the
-- push went through.
pub record Round : Type 0 where
  pub before : List Event
  pub during : List Event
  pub pushed : Bool

pub after_round : Round → TrafficCounter → TrafficCounter
after_round r c =
    let c' = run r.before c in
    let later = run r.during c' in
    if r.pushed then commit_snapshot (snapshot_delta c') later else later

abbrev pub amount : Option (ℕ × ℕ) → ℕ × ℕ
amount none = (0, 0)
amount (some d) = d

-- What the round bills to the user.
pub billed : Text → Round → TrafficCounter → ℕ × ℕ
billed user r c =
    if r.pushed then amount (lookup user (snapshot_delta (run r.before c))) else (0, 0)

-- The bytes that `f` counts in a round.
abbrev pub round_total : (Event → ℕ) → Round → ℕ
round_total f r = total f r.before + total f r.during

pub after_rounds : List Round → TrafficCounter → TrafficCounter
after_rounds [] c = c
after_rounds (r ∷ rs) c = after_rounds rs (after_round r c)

-- What the rounds bill to the user, up and down.
pub billed_sum : Text → List Round → TrafficCounter → ℕ × ℕ
billed_sum user [] c = (0, 0)
billed_sum user (r ∷ rs) c =
    let b = billed user r c in
    let rest = billed_sum user rs (after_round r c) in (b.0 + rest.0, b.1 + rest.1)

abbrev pub rounds_total : (Event → ℕ) → List Round → ℕ
rounds_total f [] = 0
rounds_total f (r ∷ rs) = round_total f r + rounds_total f rs

committed-IsWord : (d : Option (ℕ × ℕ)) (s : TrafficStorage) → IsWord s → IsWord (committed d s)
committed-IsWord none s w = w
committed-IsWord (some d) s w = omega arith

-- The arithmetic of one direction of a round, for a counter at `x` with `k` of it committed: `u`
-- bytes before the snapshot, `v` after it, and a commit of what was pending.
commit_conserves :
    (x k u v : ℕ)
    → k < word
    → x < word
    → let pending = sub64 ((x + u) % word) k in
      (pending + sub64 (((x + u) % word + v) % word) (add64 k pending)) % word
      ≡ (sub64 x k + (u + v)) % word
commit_conserves x k u v hk hx = omega arith

wait_conserves :
    (x k u v : ℕ)
    → k < word
    → x < word
    → (0 + sub64 (((x + u) % word + v) % word) k) % word ≡ (sub64 x k + (u + v)) % word
wait_conserves x k u v hk hx = omega arith

module _ (user : Text) (a : ℕ) where
  -- The storage at `a` is the user's.
  abbrev pub Owns : TrafficCounter → Type 0
  Owns c = IsValid c × (lookup user c.counters ≡ some a) × IsWord (c.storages a)

  get_counter-keeps :
      (v : Text) (c : TrafficCounter)
      → Owns c
      → (lookup user (get_counter v c).1.counters ≡ some a)
        × ((get_counter v c).1.storages a ≡ c.storages a)
  unfolding get_counter
  get_counter-keeps v c (h, e, w) =
      ground (arith, lookup-insert v user c.next c.counters, h.below user a, list_beq_iff v user)

  -- An event on an open connection changes neither the map nor what was committed.
  pub step-counters :
      (ev : Event) (c : TrafficCounter)
      → Owns c
      → IsValid (step ev c) × (lookup user (step ev c).counters ≡ some a)
  unfolding step
  step-counters (opened v) c o = (get_counter-IsValid v c o.0, (get_counter-keeps v c o).0)
  step-counters (reads b n x) c (h, e, w) = ground arith
  step-counters (writes b n x) c (h, e, w) = ground arith
  step-counters (reads_buffer b n x) c (h, e, w) = ground arith
  step-counters (writes_buffer b n x) c (h, e, w) = ground arith
  step-counters (reads_packet b n x) c (h, e, w) = ground arith
  step-counters (writes_packet b n x) c (h, e, w) = ground arith

  pub step-Grows :
      (ev : Event) (c : TrafficCounter)
      → Owns c
      → Grows (c.storages a) (uploaded a ev) (downloaded a ev) ((step ev c).storages a)
  unfolding step
  step-Grows (opened v) c (h, e, w) = ground (arith, get_counter-keeps v c (h, e, w))
  step-Grows (reads b n x) c (h, e, w) = ground arith
  step-Grows (writes b n x) c (h, e, w) = ground arith
  step-Grows (reads_buffer b n x) c (h, e, w) = ground arith
  step-Grows (writes_buffer b n x) c (h, e, w) = ground arith
  step-Grows (reads_packet b n x) c (h, e, w) = ground arith
  step-Grows (writes_packet b n x) c (h, e, w) = ground arith

  Grows-IsWord : (s t : TrafficStorage) (u d : ℕ) → IsWord s → Grows s u d t → IsWord t
  Grows-IsWord s t u d w g = omega arith

  run-Owns : (evs : List Event) (c : TrafficCounter) → Owns c → Owns (run evs c)
  unfolding run
  run-Owns [] c o = o
  run-Owns (ev ∷ evs) c o =
      let (h, e) = step-counters ev c o in
      run-Owns evs (step ev c) (h, e, Grows-IsWord _ _ _ _ o.2 (step-Grows ev c o))

  pub run-Grows :
      (evs : List Event) (c : TrafficCounter)
      → Owns c
      → Grows
          (c.storages a)
          (total (uploaded a) evs)
          (total (downloaded a) evs)
          ((run evs c).storages a)
  unfolding run
  run-Grows [] c (h, e, w) = omega arith
  run-Grows (ev ∷ evs) c o =
      let (h, e) = step-counters ev c o in
      let g = step-Grows ev c o in
      let o' : Owns (step ev c) = (h, e, Grows-IsWord _ _ _ _ o.2 g) in
      omega (arith, g, run-Grows evs (step ev c) o')

  -- What the snapshot says of the user.
  pub lookup-snapshot_delta :
      (c : TrafficCounter) → Owns c → lookup user (snapshot_delta c) ≡ delta_entry (c.storages a)
  unfolding snapshot_delta
  lookup-snapshot_delta c (h, e, w) =
      rw (lookup-select (λ v b. delta_entry (c.storages b)) user c.counters h.is_map, e) refl

  snapshot_delta-IsMap : (c : TrafficCounter) → IsValid c → IsMap (snapshot_delta c)
  unfolding snapshot_delta
  snapshot_delta-IsMap c h = select-IsMap (λ v b. delta_entry (c.storages b)) c.counters h.is_map

  commit-Owns :
      (snap : Snapshot) (c : TrafficCounter) → IsMap snap → Owns c → Owns (commit_snapshot snap c)
  commit-Owns snap c m (h, e, w) = (
    commit_snapshot-IsValid snap c h,
    rw (counters-commit_snapshot snap c) e,
    rw (storages-commit_snapshot user a snap c m h e) (committed-IsWord (lookup user snap) _ w),
  )

  snapshot_delta-Owns : (c : TrafficCounter) → Owns c → IsMap (snapshot_delta c)
  unfolding snapshot_delta
  snapshot_delta-Owns c (h, e, w) =
      select-IsMap (λ v b. delta_entry (c.storages b)) c.counters h.is_map

  after_round-Owns : (r : Round) (c : TrafficCounter) → Owns c → Owns (after_round r c)
  unfolding after_round
  after_round-Owns r c o =
      let o' = run-Owns r.before c o in
      let o'' = run-Owns r.during (run r.before c) o' in
      elim (Bool-cases r.pushed) [
        | inl yes_pushed ↦
            rw yes_pushed
              (commit-Owns (snapshot_delta (run r.before c)) _ (snapshot_delta-Owns _ o') o'')
        | inr failed ↦ rw failed o''
      ]

  -- Billed and pending bytes together grow by the bytes of the round's traffic.
  abbrev pub Conserves : (ℕ × ℕ) → TrafficStorage → TrafficStorage → ℕ → ℕ → Type 0
  Conserves b s t u d =
      ((b.0 + up_delta t) % word ≡ (up_delta s + u) % word)
      × ((b.1 + down_delta t) % word ≡ (down_delta s + d) % word)

  round-Conserves :
      (r : Round) (c : TrafficCounter)
      → Owns c
      → Conserves
          (billed user r c)
          (c.storages a)
          ((after_round r c).storages a)
          (round_total (uploaded a) r)
          (round_total (downloaded a) r)
  unfolding after_round billed
  round-Conserves r c o =
      let c' = run r.before c in
      let o' = run-Owns r.before c o in
      let s = c.storages a in
      ground (
        arith,
        run-Grows r.before c o,
        run-Grows r.during c' o',
        lookup-snapshot_delta c' o',
        storages-commit_snapshot user a (snapshot_delta c') (run r.during c')
            (snapshot_delta-Owns c' o') (run-Owns r.during c' o').0 (run-Owns r.during c' o').1,
      )

  -- However many pushes fail, the bytes billed to a user and the bytes still pending are together
  -- the bytes that the user's connections moved, up and down, modulo `2 ^ 64`: none is lost and none
  -- is billed twice. The counters start from any valid state in which the user owns storage `a`.
  pub billed-add-pending :
      (rs : List Round) (c : TrafficCounter)
      → Owns c
      → Conserves
          (billed_sum user rs c)
          (c.storages a)
          ((after_rounds rs c).storages a)
          (rounds_total (uploaded a) rs)
          (rounds_total (downloaded a) rs)
  unfolding after_rounds billed_sum
  billed-add-pending [] c o = omega arith
  billed-add-pending (r ∷ rs) c o =
      let (p, q) = round-Conserves r c o in
      let (p', q') = billed-add-pending rs (after_round r c) (after_round-Owns r c o) in
      (omega (arith, p, p'), omega (arith, q, q'))
