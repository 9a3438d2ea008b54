-- ===== src/Hook/Traffic.antt =====
-- Traffic through the inbounds of cmd/mini-sb-agent/main.go, and what each step does to the counter of
-- one inbound.
use mini_sb_agent.Base.{
  ℕ, ◌≡◌, refl, sym, ap, ◌∙◌, inl, inr, false, Option, none, some, List, [], ◌∷◌, if◌then◌else◌,
  Bool-cases, Option-cases, ◌==◌, nat_eq, list_eq, pair_eq, list_beq_iff, Map, lookup, insert,
  IsMap, lookup-insert, insert-IsMap, select, answer, lookup-select, Text,
}
use mathlib.Core.Path.{subst}
use mini_sb_agent.Counter.{
  TrafficCounter, Snapshot, new_traffic_counter, commit_entry, commit_snapshot, remove_absent,
}
use mini_sb_agent.Counter.Conn.{Event, step, run}
use mini_sb_agent.Counter.Moved.{IsCounter, pending_in, moved, run-IsCounter}
use mini_sb_agent.Panel.{Delta}
use mini_sb_agent.Hook.{
  Hook, tag_or_default, or_new, tc, remove_absents, commit_snapshots, with_commit,
  lookup-commit_snapshots,
}

-- An event of a connection of an inbound; `opened` is told the name that `ResolveUser` gives.
abbrev pub Passage : Type 0
Passage = Text × Event

unfoldable pub pass : Passage → Hook → Hook
pass (tag, ev) h = let (c, h') = tc tag h in insert (tag_or_default tag) (step ev c) h'

unfoldable pub run_traffic : List Passage → Hook → Hook
run_traffic [] h = h
run_traffic (p ∷ ps) h = run_traffic ps (pass p h)

-- The events of an inbound.
abbrev pub events_of : Text → List Passage → List Event
events_of tag [] = []
events_of tag ((t, ev) ∷ ps) =
    if tag_or_default t == tag then ev ∷ events_of tag ps else events_of tag ps

-- The counter that an inbound has, or that its first connection makes.
abbrev pub counter_of : Text → Hook → TrafficCounter
counter_of tag h = or_new (lookup tag h)

-- The bytes of a user of an inbound that are counted and not committed yet, up and down.
abbrev pub pending : Text → Text → Hook → ℕ × ℕ
pending tag user h = pending_in user (counter_of tag h)

-- The bytes that a run of events moves for a user of an inbound.
abbrev pub moved_through : Text → Text → List Passage → Hook → ℕ × ℕ
moved_through tag user ps h = moved user (events_of tag ps) (counter_of tag h)

-- Each counter is well formed and holds 64-bit patterns.
abbrev pub AreCounters : Hook → Type 0
AreCounters h = IsMap h × ((tag : Text) → IsCounter (counter_of tag h))

tc-counter : (tag : Text) (h : Hook) → (tc tag h).0 ≡ counter_of (tag_or_default tag) h
unfolding tc
tc-counter tag h = elim (Option-cases (lookup (tag_or_default tag) h)) [
  | inl missing ↦ rw (missing, tc) refl
  | inr (c, there) ↦ rw (there, tc) refl
]

tc-other :
    (t tag : Text) (h : Hook)
    → (tag_or_default t == tag) ≡ false
    → lookup tag (tc t h).1 ≡ lookup tag h
unfolding tc
tc-other t tag h other = elim (Option-cases (lookup (tag_or_default t) h)) [
  | inl missing ↦
      rw (missing, tc) (lookup-insert (tag_or_default t) tag new_traffic_counter h ∙ rw other refl)
  | inr (c, there) ↦ rw (there, tc) refl
]

tc-IsMap : (t : Text) (h : Hook) → IsMap h → IsMap (tc t h).1
unfolding tc
tc-IsMap t h m = elim (Option-cases (lookup (tag_or_default t) h)) [
  | inl missing ↦ rw (missing, tc) (insert-IsMap (tag_or_default t) new_traffic_counter h m)
  | inr (c, there) ↦ rw (there, tc) m
]

counter_of-pass :
    (tag t : Text) (ev : Event) (h : Hook)
    → counter_of tag (pass (t, ev) h)
      ≡ (if tag_or_default t == tag then step ev (counter_of tag h) else counter_of tag h)
unfolding pass
counter_of-pass tag t ev h =
    let name = tag_or_default t in
    let (c, h') = tc t h in
    let put = lookup-insert name tag (step ev c) h' in
    elim (Bool-cases (name == tag)) [
      | inl here ↦
          let own : counter_of name h ≡ counter_of tag h =
            ap (λ k. counter_of k h) ((list_beq_iff name tag).0 here) in
          let now : or_new (lookup tag (insert name (step ev c) h')) ≡ step ev c =
            ap or_new put ∙ rw here refl in
          rw here (now ∙ ap (step ev) (tc-counter t h ∙ own))
      | inr other ↦
          let now : or_new (lookup tag (insert name (step ev c) h')) ≡ or_new (lookup tag h') =
            ap or_new put ∙ rw other refl in
          rw other (now ∙ ap or_new (tc-other t tag h other))
    ]

pass-IsMap : (p : Passage) (h : Hook) → IsMap h → IsMap (pass p h)
unfolding pass
pass-IsMap (t, ev) h m =
    insert-IsMap (tag_or_default t) (step ev (tc t h).0) (tc t h).1 (tc-IsMap t h m)

run_traffic-IsMap : (ps : List Passage) (h : Hook) → IsMap h → IsMap (run_traffic ps h)
unfolding run_traffic
run_traffic-IsMap [] h m = m
run_traffic-IsMap (p ∷ ps) h m = run_traffic-IsMap ps (pass p h) (pass-IsMap p h m)

pub counter_of-run_traffic :
    (tag : Text) (ps : List Passage) (h : Hook)
    → counter_of tag (run_traffic ps h) ≡ run (events_of tag ps) (counter_of tag h)
unfolding run_traffic run
counter_of-run_traffic tag [] h = refl
counter_of-run_traffic tag ((t, ev) ∷ ps) h =
    let first = counter_of-pass tag t ev h in
    let rest = counter_of-run_traffic tag ps (pass (t, ev) h) in
    elim (Bool-cases (tag_or_default t == tag)) [
      | inl here ↦ rw here (rest ∙ ap (run (events_of tag ps)) (first ∙ rw here refl))
      | inr other ↦ rw other (rest ∙ ap (run (events_of tag ps)) (first ∙ rw other refl))
    ]

pub run_traffic-AreCounters :
    (ps : List Passage) (h : Hook) → AreCounters h → AreCounters (run_traffic ps h)
run_traffic-AreCounters ps h (m, all_counters) = (
  run_traffic-IsMap ps h m,
  λ tag.
      subst IsCounter (sym (counter_of-run_traffic tag ps h))
        (run-IsCounter (events_of tag ps) (counter_of tag h) (all_counters tag)),
)

-- What a commit does to a counter.
abbrev pub commit_part : Option Snapshot → TrafficCounter → TrafficCounter
commit_part none c = c
commit_part (some users) c = commit_snapshot users c

commit_snapshot-new :
    (users : Snapshot) → commit_snapshot users new_traffic_counter ≡ new_traffic_counter
unfolding commit_snapshot commit_entry lookup
commit_snapshot-new [] = refl
commit_snapshot-new ((v, d) ∷ users) = commit_snapshot-new users

pub counter_of-commit_snapshots :
    (tag : Text) (snap : Delta) (h : Hook)
    → IsMap snap
    → counter_of tag (commit_snapshots snap h) ≡ commit_part (lookup tag snap) (counter_of tag h)
counter_of-commit_snapshots tag snap h m =
    ap or_new (lookup-commit_snapshots tag snap h m) ∙ of_parts (lookup tag snap) (lookup tag h)
  where
    of_parts :
        (p : Option Snapshot) (o : Option TrafficCounter)
        → or_new (with_commit p o) ≡ commit_part p (or_new o)
    of_parts none none = refl
    of_parts none (some c) = refl
    of_parts (some users) none = sym (commit_snapshot-new users)
    of_parts (some users) (some c) = refl

pub counter_of-remove_absents :
    (active : Map Text (Unit {0})) (tag : Text) (h : Hook)
    → IsMap h
    → counter_of tag (remove_absents active h) ≡ remove_absent active (counter_of tag h)
unfolding remove_absents remove_absent select
counter_of-remove_absents active tag h m =
    ap or_new (lookup-select (λ t c. some (remove_absent active c)) tag h m)
    ∙ of_counter (lookup tag h)
  where
    of_counter :
        (o : Option TrafficCounter)
        → or_new (answer (λ t c. some (remove_absent active c)) tag o)
          ≡ remove_absent active (or_new o)
    of_counter none = refl
    of_counter (some c) = refl
