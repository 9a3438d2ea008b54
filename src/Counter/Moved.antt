-- ===== src/Counter/Moved.antt =====
-- The bytes that a user's connections move while no snapshot is committed: counter/counter.go.
use mini_sb_agent.Base.{
  ℕ, ◌+◌, ◌%◌, ◌≡◌, refl, ap, ◌∙◌, inl, inr, not, ◌||◌, Option, none, some, List, [], ◌∷◌, arith,
  if◌then◌else◌, Bool-cases, Option-cases, nat_eq, list_eq, pair_eq, Map, lookup, has, IsMap,
  lookup-insert, answer, word, Text,
}
use mini_sb_agent.Counter.{
  TrafficCounter, Snapshot, get_counter, up_delta, down_delta, commit_entry, commit_snapshot,
  is_settled, remove_absent,
}
use mini_sb_agent.Counter.Accounts.{
  IsValid, committed, storages-commit_snapshot, counters-commit_snapshot, commit_entry-IsValid,
}
use mini_sb_agent.Counter.Pruning.{lookup-remove_absent, remove_absent-IsValid, step-IsValid}
use mini_sb_agent.Counter.Conn.{
  Event, opened, reads, writes, reads_buffer, writes_buffer, reads_packet, writes_packet, step, run,
  uploaded, downloaded,
}
use mini_sb_agent.Counter.Rounds.{amount, IsWord, Owns, step-counters, step-Grows}

-- The counters are well formed and hold 64-bit patterns.
abbrev pub IsCounter : TrafficCounter → Type 0
IsCounter c = IsValid c × ((a : ℕ) → IsWord (c.storages a))

abbrev pub pending_at : TrafficCounter → Option ℕ → ℕ × ℕ
pending_at c none = (0, 0)
pending_at c (some a) = (up_delta (c.storages a), down_delta (c.storages a))

-- The bytes that were counted for the user and not committed yet, up and down.
abbrev pub pending_in : Text → TrafficCounter → ℕ × ℕ
pending_in user c = pending_at c (lookup user c.counters)

abbrev moved_at : Option ℕ → Event → ℕ × ℕ
moved_at none ev = (0, 0)
moved_at (some a) ev = (uploaded a ev, downloaded a ev)

-- The bytes that the events move through connections which count into the user's storage.
unfoldable pub moved : Text → List Event → TrafficCounter → ℕ × ℕ
moved user [] c = (0, 0)
moved user (ev ∷ evs) c =
    let now = moved_at (lookup user c.counters) ev in
    let rest = moved user evs (step ev c) in (now.0 + rest.0, now.1 + rest.1)

step-IsWord :
    (ev : Event) (c : TrafficCounter)
    → ((a : ℕ) → IsWord (c.storages a))
    → (a : ℕ) → IsWord ((step ev c).storages a)
unfolding step get_counter
step-IsWord (opened v) c w a = elim (Option-cases (lookup v c.counters)) [
  | inl new ↦ ground (arith, new, w a)
  | inr (b, old) ↦ ground (arith, old, w a)
]
step-IsWord (reads b n x) c w a = ground (arith, w a, w b)
step-IsWord (writes b n x) c w a = ground (arith, w a, w b)
step-IsWord (reads_buffer b n x) c w a = ground (arith, w a, w b)
step-IsWord (writes_buffer b n x) c w a = ground (arith, w a, w b)
step-IsWord (reads_packet b n x) c w a = ground (arith, w a, w b)
step-IsWord (writes_packet b n x) c w a = ground (arith, w a, w b)

step-IsCounter : (ev : Event) (c : TrafficCounter) → IsCounter c → IsCounter (step ev c)
step-IsCounter ev c (h, w) = (step-IsValid ev c h, step-IsWord ev c w)

pub run-IsCounter : (evs : List Event) (c : TrafficCounter) → IsCounter c → IsCounter (run evs c)
unfolding run
run-IsCounter [] c h = h
run-IsCounter (ev ∷ evs) c h = run-IsCounter evs (step ev c) (step-IsCounter ev c h)

commit_entry-IsCounter :
    (v : Text) (d : ℕ × ℕ) (c : TrafficCounter) → IsCounter c → IsCounter (commit_entry v d c)
unfolding commit_entry
commit_entry-IsCounter v d c (h, w) = (commit_entry-IsValid v d c h, λ a. commit_entry-IsWord a)
  where
    commit_entry-IsWord : (a : ℕ) → IsWord ((commit_entry v d c).storages a)
    commit_entry-IsWord a = elim (Option-cases (lookup v c.counters)) [
      | inl new ↦ rw (new, commit_entry) (w a)
      | inr (b, old) ↦
          let wb = w b in let wa = w a in rw (old, commit_entry) (ground (arith, wa, wb))
    ]

-- Pending bytes grow by the bytes moved, as 64-bit patterns.
abbrev pub GrowsBy : ℕ × ℕ → ℕ × ℕ → ℕ × ℕ → Type 0
GrowsBy before more after =
    (after.0 % word ≡ (before.0 + more.0) % word) × (after.1 % word ≡ (before.1 + more.1) % word)

module _ (user : Text) where
  -- An event that opens no storage for a user without one leaves the user without.
  step-unknown :
      (ev : Event) (c : TrafficCounter)
      → lookup user c.counters ≡ none
      → pending_in user (step ev c) ≡ (0, 0)
  unfolding step get_counter
  step-unknown (opened v) c e = elim (Option-cases (lookup v c.counters)) [
    | inl new ↦ ground (arith, e, new, lookup-insert v user c.next c.counters)
    | inr (b, old) ↦ ground (arith, e, old)
  ]
  step-unknown (reads b n x) c e = ground (arith, e)
  step-unknown (writes b n x) c e = ground (arith, e)
  step-unknown (reads_buffer b n x) c e = ground (arith, e)
  step-unknown (writes_buffer b n x) c e = ground (arith, e)
  step-unknown (reads_packet b n x) c e = ground (arith, e)
  step-unknown (writes_packet b n x) c e = ground (arith, e)

  step-GrowsBy :
      (ev : Event) (c : TrafficCounter)
      → IsCounter c
      → GrowsBy
          (pending_in user c)
          (moved_at (lookup user c.counters) ev)
          (pending_in user (step ev c))
  step-GrowsBy ev c (h, w) = elim (Option-cases (lookup user c.counters)) [
    | inl unknown ↦ rw (unknown, step-unknown ev c unknown) (refl, refl)
    | inr (a, there) ↦
        let o : Owns user a c = (h, there, w a) in
        let (h', there') = step-counters user a ev c o in
        let g = step-Grows user a ev c o in
        let w' = w a in rw (there, there') (omega (arith, g, w'), omega (arith, g, w'))
  ]

  -- What was pending and what is moved is pending then.
  pub run-GrowsBy :
      (evs : List Event) (c : TrafficCounter)
      → IsCounter c
      → GrowsBy (pending_in user c) (moved user evs c) (pending_in user (run evs c))
  unfolding run moved
  run-GrowsBy [] c h = (omega arith, omega arith)
  run-GrowsBy (ev ∷ evs) c h =
      let (p, q) = step-GrowsBy ev c h in
      let (p', q') = run-GrowsBy evs (step ev c) (step-IsCounter ev c h) in
      (omega (arith, p, p'), omega (arith, q, q'))

  -- A storage stays the user's.
  pub run-keeps_storage :
      (a : ℕ) (evs : List Event) (c : TrafficCounter)
      → IsCounter c
      → lookup user c.counters ≡ some a
      → lookup user (run evs c).counters ≡ some a
  unfolding run
  run-keeps_storage a [] c h e = e
  run-keeps_storage a (ev ∷ evs) c h e =
      run-keeps_storage a evs (step ev c) (step-IsCounter ev c h)
        (step-counters user a ev c (h.0, e, h.1 a)).1

  -- What a commit books to a user is not pending any more.
  pub commit_snapshot-GrowsBy :
      (a : ℕ) (snap : Snapshot) (c : TrafficCounter)
      → IsMap snap
      → IsCounter c
      → lookup user c.counters ≡ some a
      → GrowsBy
          (pending_in user (commit_snapshot snap c))
          (amount (lookup user snap))
          (pending_in user c)
  commit_snapshot-GrowsBy a snap c m (h, w) e =
      let same = counters-commit_snapshot snap c in
      let booked = storages-commit_snapshot user a snap c m h e in
      let w' = w a in rw (same, e, booked) (of_entry (lookup user snap))
    where
      of_entry :
          (o : Option (ℕ × ℕ))
          → let t = committed o (c.storages a) in
            GrowsBy
              (up_delta t, down_delta t)
              (amount o)
              (up_delta (c.storages a), down_delta (c.storages a))
      of_entry none = (omega arith, omega arith)
      of_entry (some d) = let w' = w a in (omega (arith, w'), omega (arith, w'))

  -- Who loses the entry has nothing pending.
  pub remove_absent-pending :
      (active : Map Text (Unit {0})) (c : TrafficCounter)
      → IsCounter c
      → pending_in user (remove_absent active c) ≡ pending_in user c
  unfolding remove_absent
  remove_absent-pending active c (h, w) =
      ap (pending_at (remove_absent active c)) (lookup-remove_absent active c h user)
      ∙ of_account (lookup user c.counters)
    where
      of_account :
          (o : Option ℕ)
          → pending_at c (
              answer
                (λ v a. if has v active || not (is_settled (c.storages a)) then some a else none)
                user
                o)
            ≡ pending_at c o
      of_account none = refl
      of_account (some a) =
          let w' = w a in
          elim (Bool-cases (has user active || not (is_settled (c.storages a)))) [
            | inl kept ↦ rw kept refl
            | inr dropped ↦ rw dropped (ground (arith, dropped, w'))
          ]

pub remove_absent-IsCounter :
    (active : Map Text (Unit {0})) (c : TrafficCounter)
    → IsCounter c
    → IsCounter (remove_absent active c)
unfolding remove_absent
remove_absent-IsCounter active c (h, w) = (remove_absent-IsValid active c h, w)

pub commit_snapshot-IsCounter :
    (snap : Snapshot) (c : TrafficCounter) → IsCounter c → IsCounter (commit_snapshot snap c)
unfolding commit_snapshot
commit_snapshot-IsCounter [] c h = h
commit_snapshot-IsCounter ((v, d) ∷ snap) c h =
    commit_snapshot-IsCounter snap (commit_entry v d c) (commit_entry-IsCounter v d c h)
