-- ===== src/Sync/Flow.antt =====
-- What the steps of a round of panelapi/sync.go do to the bytes of one user: the pruning, the flush and
-- the traffic, also between a snapshot and its commit.
use mini_sb_agent.Base.{
  ℕ, ◌≡◌, refl, sym, ap, ◌∙◌, inl, inr, Option, none, some, List, arith, Option-cases, nat_eq,
  list_eq, pair_eq, lookup, IsMap, answer, lookup-select, Text,
}
use mathlib.Core.Path.{subst}
use mini_sb_agent.Counter.{TrafficCounter, Snapshot, snapshot_delta, delta_entry}
use mini_sb_agent.Counter.Accounts.{counters-commit_snapshot}
use mini_sb_agent.Counter.Rounds.{amount}
use mini_sb_agent.Counter.Moved.{
  IsCounter, pending_in, GrowsBy, run-GrowsBy, run-keeps_storage, commit_snapshot-GrowsBy,
  remove_absent-pending, commit_snapshot-IsCounter, remove_absent-IsCounter,
}
use mini_sb_agent.Panel.{Delta, PushResult, flush}
use mini_sb_agent.Panel.Commit.{entry, lookup_in, IsDelta}
use mini_sb_agent.Panel.Push.{entry_of}
use mini_sb_agent.Panel.Flushed.{flush-IsDelta}
use mini_sb_agent.Hook.{Hook, or_new, snapshot_deltas, commit_snapshots}
use mini_sb_agent.Hook.Traffic.{
  Passage, run_traffic, events_of, counter_of, pending, moved_through, AreCounters, commit_part,
  counter_of-run_traffic, run_traffic-AreCounters, counter_of-commit_snapshots,
  counter_of-remove_absents,
}
use mini_sb_agent.Sync.Report.{delta_of, entry-snapshot_deltas}
use mini_sb_agent.Sync.Settled.{commit_snapshots-IsMap}
use mini_sb_agent.Sync.Pruned.{
  IsSound, KeptByPruning, remove_absents-IsMap, snapshot_deltas-IsDelta,
}

-- `flush` with the traffic that flows between the snapshot and the commit.
unfoldable pub flush_during : (Delta → PushResult) → List Passage → Hook → Hook
unfolding commit_snapshots snapshot_deltas flush
flush_during push during h = elim (flush push (snapshot_deltas h)) [
  | none ↦ run_traffic during h
  | some delta ↦ commit_snapshots delta (run_traffic during h)
]

pub AreCounters-IsSound : (h : Hook) → AreCounters h → IsSound h
AreCounters-IsSound h (m, all_counters) = (
  record { is_map = m; valid = λ tag c e. (at_tag tag c e).0 },
  λ tag c e a. let w = (at_tag tag c e).1 a in (w.up, w.down, w.was_up, w.was_down),
)
  where
    at_tag : (tag : Text) (c : TrafficCounter) → lookup tag h ≡ some c → IsCounter c
    at_tag tag c e = subst IsCounter (ap or_new e) (all_counters tag)

remove_absents-AreCounters : KeptByPruning AreCounters
remove_absents-AreCounters active h (m, all_counters) = (
  remove_absents-IsMap active h m,
  λ tag.
      subst IsCounter (sym (counter_of-remove_absents active tag h m))
        (remove_absent-IsCounter active (counter_of tag h) (all_counters tag)),
)

commit_part-IsCounter :
    (p : Option Snapshot) (c : TrafficCounter) → IsCounter c → IsCounter (commit_part p c)
commit_part-IsCounter none c h = h
commit_part-IsCounter (some users) c h = commit_snapshot-IsCounter users c h

commit_snapshots-AreCounters :
    (d : Delta) (h : Hook) → IsMap d → AreCounters h → AreCounters (commit_snapshots d h)
commit_snapshots-AreCounters d h m (hm, all_counters) = (
  commit_snapshots-IsMap d h hm,
  λ tag.
      subst IsCounter (sym (counter_of-commit_snapshots tag d h m))
        (commit_part-IsCounter (lookup tag d) (counter_of tag h) (all_counters tag)),
)

-- The report's entry for a user who has no storage is missing.
entry-unknown :
    (tag user : Text) (h : Hook)
    → AreCounters h
    → lookup user (counter_of tag h).counters ≡ none
    → entry tag user (snapshot_deltas h) ≡ none
unfolding snapshot_delta
entry-unknown tag user h sound unknown =
    entry-snapshot_deltas tag user h sound.0 ∙ of_counter (lookup tag h) refl
  where
    of_counter : (o : Option TrafficCounter) → lookup tag h ≡ o → delta_of user o ≡ none
    of_counter none e = refl
    of_counter (some c) e =
        let same : counter_of tag h ≡ c = ap or_new e in
        let is_map = (subst IsCounter same (sound.1 tag)).0.is_map in
        let gone : lookup user c.counters ≡ none =
          ap (λ k. lookup user k.counters) (sym same) ∙ unknown in
        lookup-select (λ v a. delta_entry (c.storages a)) user c.counters is_map
        ∙ ap (answer (λ v a. delta_entry (c.storages a)) user) gone

module _ (tag user : Text) where
  -- The update of the users changes nothing that is pending.
  pub remove_absents-pending :
      (p : ℕ × ℕ) → KeptByPruning (λ h. AreCounters h × (pending tag user h ≡ p))
  remove_absents-pending p active h (sound, e) = (
    remove_absents-AreCounters active h sound,
    ap (pending_in user) (counter_of-remove_absents active tag h sound.0)
        ∙ (remove_absent-pending user active (counter_of tag h) (sound.1 tag) ∙ e),
  )

  pub run_traffic-GrowsBy :
      (ps : List Passage) (h : Hook)
      → AreCounters h
      → GrowsBy
          (pending tag user h)
          (moved_through tag user ps h)
          (pending tag user (run_traffic ps h))
  run_traffic-GrowsBy ps h sound =
      subst (λ c. GrowsBy (pending tag user h) (moved_through tag user ps h) (pending_in user c))
        (sym (counter_of-run_traffic tag ps h))
        (run-GrowsBy user (events_of tag ps) (counter_of tag h) (sound.1 tag))

  stays_through :
      (ps : List Passage) (h : Hook)
      → AreCounters h
      → (a : ℕ) → lookup user (counter_of tag h).counters ≡ some a
      → lookup user (counter_of tag (run_traffic ps h)).counters ≡ some a
  stays_through ps h sound a e =
      ap (λ c. lookup user c.counters) (counter_of-run_traffic tag ps h)
      ∙ run-keeps_storage user a (events_of tag ps) (counter_of tag h) (sound.1 tag) e

  -- A user without a storage has nothing pending after a commit either.
  commit_part-unknown :
      (p : Option Snapshot) (c : TrafficCounter)
      → lookup user c.counters ≡ none
      → pending_in user (commit_part p c) ≡ pending_in user c
  commit_part-unknown none c e = refl
  commit_part-unknown (some users) c e =
      let same = counters-commit_snapshot users c in rw (same, e) refl

  commit_part-GrowsBy :
      (p : Option Snapshot) (c : TrafficCounter) (a : ℕ)
      → ((users : Snapshot) → p ≡ some users → IsMap users)
      → IsCounter c
      → lookup user c.counters ≡ some a
      → GrowsBy (pending_in user (commit_part p c)) (amount (lookup_in user p)) (pending_in user c)
  commit_part-GrowsBy none c a m h e = (omega arith, omega arith)
  commit_part-GrowsBy (some users) c a m h e =
      commit_snapshot-GrowsBy user a users c (m users refl) h e

  module _ (h h' : Hook) (sound : AreCounters h) (sound' : AreCounters h')
      (stays : (a : ℕ)
        → lookup user (counter_of tag h).counters ≡ some a
        → lookup user (counter_of tag h').counters ≡ some a) where
    -- What the commit of a report books is not pending any more.
    commit_snapshots-GrowsBy :
        (d : Delta)
        → IsDelta d
        → (entry tag user (snapshot_deltas h) ≡ none → entry tag user d ≡ none)
        → GrowsBy
            (pending tag user (commit_snapshots d h'))
            (amount (entry tag user d))
            (pending tag user h')
    commit_snapshots-GrowsBy d (m, inner) part =
        let now = counter_of-commit_snapshots tag d h' m in
        subst (λ c. GrowsBy (pending_in user c) (amount (entry tag user d)) (pending tag user h'))
          (sym now)
          (elim (Option-cases (lookup user (counter_of tag h').counters)) [
            | inr (a, there) ↦
                commit_part-GrowsBy (lookup tag d) (counter_of tag h') a (inner tag) (sound'.1 tag)
                  there
            | inl unknown ↦
                let before : lookup user (counter_of tag h).counters ≡ none =
                  elim (Option-cases (lookup user (counter_of tag h).counters)) [
                    | inl missing ↦ missing
                    | inr (a, there) ↦ absurd (ground (arith, stays a there, unknown))
                  ] in
                let nothing = part (entry-unknown tag user h sound before) in
                let same = commit_part-unknown (lookup tag d) (counter_of tag h') unknown in
                rw (nothing, same) (omega arith, omega arith)
          ])

  pub flush_during-GrowsBy :
      (push : Delta → PushResult) (ps : List Passage) (h : Hook)
      → AreCounters h
      → (entry tag user (snapshot_deltas h) ≡ none
          → entry_of tag user (flush push (snapshot_deltas h)) ≡ none)
      → GrowsBy
          (pending tag user (flush_during push ps h))
          (amount (entry_of tag user (flush push (snapshot_deltas h))))
          (pending tag user (run_traffic ps h))
  unfolding flush_during
  flush_during-GrowsBy push ps h sound part =
      let delta = snapshot_deltas h in
      let sound' = run_traffic-AreCounters ps h sound in
      elim (Option-cases (flush push delta)) [
        | inl nothing_sent ↦ rw (nothing_sent, flush_during) (omega arith, omega arith)
        | inr (d, sent_some) ↦
            let is_delta = snapshot_deltas-IsDelta h (AreCounters-IsSound h sound).0 in
            let of_part : entry tag user delta ≡ none → entry tag user d ≡ none =
              λ e. sym (ap (entry_of tag user) sent_some) ∙ part e in
            rw (sent_some, flush_during)
              (commit_snapshots-GrowsBy h (run_traffic ps h) sound sound' (stays_through ps h sound)
                d (flush-IsDelta push delta d is_delta sent_some) of_part)
      ]

pub flush_during-AreCounters :
    (push : Delta → PushResult) (ps : List Passage) (h : Hook)
    → AreCounters h
    → AreCounters (flush_during push ps h)
unfolding flush_during
flush_during-AreCounters push ps h sound =
    let delta = snapshot_deltas h in
    let sound' = run_traffic-AreCounters ps h sound in
    elim (Option-cases (flush push delta)) [
      | inl nothing_sent ↦ rw (nothing_sent, flush_during) sound'
      | inr (d, sent_some) ↦
          let is_delta = snapshot_deltas-IsDelta h (AreCounters-IsSound h sound).0 in
          rw (sent_some, flush_during)
            (commit_snapshots-AreCounters d (run_traffic ps h)
              (flush-IsDelta push delta d is_delta sent_some).0 sound')
    ]
