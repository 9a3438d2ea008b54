-- ===== src/Sync/Shutdown.antt =====
-- `FinalFlush` of panelapi/sync.go with the counters of cmd/mini-sb-agent/main.go: what is posted
-- and what is left when a node's last push went through.
use mini_sb_agent.Base.{
  ◌≡◌, refl, ◌⊎◌, inl, inr, true, false, Option, none, some, List, [], ◌∷◌, arith, Bool-cases,
  is_empty, nat_eq, list_eq, pair_eq, lookup, has, Text,
}
use mini_sb_agent.Topology.{NodeSpec}
use mini_sb_agent.Panel.{
  Http, new_topology_panel, push_topology, push_accepted, Delta, Acked, PushResult, is_allowed,
  is_numeric_user, has_traffic, flush, flushed, commit_delta,
}
use mini_sb_agent.Panel.Commit.{entry}
use mini_sb_agent.Hook.{Hook, snapshot_deltas, commit_snapshots, flush_hook}
use mini_sb_agent.Sync.Report.{IsHook}
use mini_sb_agent.Sync.Settled.{AllRanged, has_no_traffic, commit_snapshots-settles}

acked_some : (tag : Text) (acked : Acked) → has tag acked ≡ true → is_empty acked ≡ false
unfolding lookup
acked_some tag [] e = absurd (ground (arith, e))
acked_some tag (x ∷ acked) e = refl

module _ (h : Hook) (k : IsHook h) (ranged : AllRanged h) (tag user : Text)
    (numeric : is_numeric_user user ≡ true) where
  flushed_report :
      (push : Delta → PushResult) (snap : Delta)
      → has_traffic (snapshot_deltas h) ≡ true
      → flushed (snapshot_deltas h) (push (snapshot_deltas h)) ≡ some snap
      → flush push (snapshot_deltas h) ≡ some snap
  unfolding flush
  flushed_report push snap traffic e = rw traffic e

  flush_hook-taken :
      (push : Delta → PushResult) (snap : Delta)
      → has_traffic (snapshot_deltas h) ≡ true
      → flushed (snapshot_deltas h) (push (snapshot_deltas h)) ≡ some snap
      → flush_hook push h ≡ commit_snapshots snap h
  unfolding flush_hook
  flush_hook-taken push snap traffic e = rw (flushed_report push snap traffic e, flush_hook) refl

  flush_idle :
      (push : Delta → PushResult)
      → has_traffic (snapshot_deltas h) ≡ false
      → flush push (snapshot_deltas h) ≡ none
  unfolding flush
  flush_idle push idle = rw idle refl

  flush_hook-idle :
      (push : Delta → PushResult) → has_traffic (snapshot_deltas h) ≡ false → flush_hook push h ≡ h
  unfolding flush_hook
  flush_hook-idle push idle = rw (flush_idle push idle, flush_hook) refl

  -- What is committed when a push has gone through, all of it or the part of the tag.
  flushed_part :
      (delta : Delta) (r : PushResult)
      → (r.failed ≡ false) ⊎ (has tag r.acked ≡ true)
      → (only : Option Acked) × (is_allowed only tag ≡ true)
        × (flushed delta r ≡ some (commit_delta delta only))
  unfolding flushed
  flushed_part delta r (inl taken) = (none, refl, rw taken refl)
  flushed_part delta r (inr acked) = elim (Bool-cases r.failed) [
    | inr taken ↦ (none, refl, rw taken refl)
    | inl failed ↦ (some r.acked, acked, rw (failed, acked_some tag r.acked acked) refl)
  ]

  -- What is pushed of a tag is booked, also when other pushes fail.
  pub flush_hook-books :
      (push : Delta → PushResult)
      → ((push (snapshot_deltas h)).failed ≡ false)
        ⊎ (has tag (push (snapshot_deltas h)).acked ≡ true)
      → entry tag user (snapshot_deltas (flush_hook push h)) ≡ none
  flush_hook-books push taken = elim (Bool-cases (has_traffic (snapshot_deltas h))) [
    | inl traffic ↦
        let delta = snapshot_deltas h in
        let (only, allowed, e) = flushed_part delta (push delta) taken in
        rw (flush_hook-taken push (commit_delta delta only) traffic e)
          (commit_snapshots-settles h k ranged tag user numeric only allowed)
    | inr idle ↦
        rw (flush_hook-idle push idle) (has_no_traffic tag user (snapshot_deltas h) numeric idle)
  ]

module _ (http : Http) (base_url token : Text) (nodes : List NodeSpec) (h : Hook) where
  -- `FinalFlush` in topology mode.
  abbrev pub final_push : Delta → PushResult
  final_push d = push_topology http (new_topology_panel base_url token nodes) d (push_accepted [])
