-- ===== src/Hook.antt =====
-- The traffic side of `Hook` in cmd/mini-sb-agent/main.go: one counter for each inbound.
pub mod Traffic
pub mod Routed
pub mod RoutedPackets
use mini_sb_agent.Base.{
  ℕ, ◌≡◌, inl, inr, Bool, false, Option, none, some, List, [], ◌∷◌, arith, if◌then◌else◌,
  Option-cases, is_empty, nat_eq, list_eq, pair_eq, list_beq_iff, Map, lookup, has, insert, IsMap,
  lookup-insert, select, lookup-select, select-IsMap, Text, codes,
}
use mini_sb_agent.Topology.{NodeSpec}
use mini_sb_agent.Counter.{
  TrafficCounter, new_traffic_counter, get_counter, snapshot, Snapshot, snapshot_delta,
  commit_snapshot, remove_absent,
}
use mini_sb_agent.Panel.{
  Delta, PushResult, commit_delta, committed_users, flushed, flush, Client, Http, push_topology,
  push_accepted,
}
use mini_sb_agent.Panel.Push.{is_accepted, all_accepted, push_topology-acked, push_topology-failed}

-- `byInbound`
abbrev pub Hook : Type 0
Hook = Map Text TrafficCounter

abbrev pub tag_or_default : Text → Text
tag_or_default tag = if is_empty tag then codes "default" else tag

abbrev pub or_new : Option TrafficCounter → TrafficCounter
or_new none = new_traffic_counter
or_new (some c) = c

-- `Hook.tc`: the inbound's counter, made on the first call.
unfoldable pub tc : Text → Hook → TrafficCounter × Hook
tc tag h =
    let name = tag_or_default tag in
    elim (lookup name h) [
      | some c ↦ (c, h)
      | none ↦ (new_traffic_counter, insert name new_traffic_counter h)
    ]

-- The counting side of `Hook.RoutedConnection` and `Hook.RoutedPacketConnection`: the address of
-- the storage that the connection's counter holds, `none` for a connection without a user.
unfoldable pub routed_connection : (Text → Text) → Text → Text → Hook → Option ℕ × Hook
unfolding tc get_counter
routed_connection resolve tag user h =
    if is_empty user
    then (none, h)
    else let (c, h') = tc tag h in
      let (a, c') = get_counter (resolve user) c in (some a, insert (tag_or_default tag) c' h')

-- `Hook.Snapshot`
abbrev pub snapshots : Bool → Hook → Map Text Snapshot
snapshots reset h = select (λ tag c. some (snapshot reset c)) h

abbrev pub delta_or_none : Snapshot → Option Snapshot
delta_or_none d = if is_empty d then none else some d

-- `Hook.SnapshotDelta`
unfoldable pub snapshot_deltas : Hook → Delta
snapshot_deltas h = select (λ tag c. delta_or_none (snapshot_delta c)) h

-- `Hook.CommitSnapshot`
unfoldable pub commit_snapshots : Delta → Hook → Hook
commit_snapshots [] h = h
commit_snapshots ((tag, users) ∷ snap) h =
    commit_snapshots snap
      (elim (lookup tag h) [ none ↦ h | some c ↦ insert tag (commit_snapshot users c) h ])

-- `Hook.RemoveAbsent`
unfoldable pub remove_absents : Map Text (Unit {0}) → Hook → Hook
remove_absents active h = select (λ tag c. some (remove_absent active c)) h

-- `Syncer.flush` with the hook's `SnapshotDelta` and `CommitSnapshot`, where no traffic flows while
-- the push is under way.
unfoldable pub flush_hook : (Delta → PushResult) → Hook → Hook
unfolding commit_snapshots snapshot_deltas
flush_hook push h = elim (flush push (snapshot_deltas h)) [
  | none ↦ h
  | some delta ↦ commit_snapshots delta h
]

abbrev pub with_commit : Option Snapshot → Option TrafficCounter → Option TrafficCounter
with_commit users none = none
with_commit none (some c) = some c
with_commit (some users) (some c) = some (commit_snapshot users c)

pub lookup-commit_snapshots :
    (tag : Text) (snap : Delta) (h : Hook)
    → IsMap snap
    → lookup tag (commit_snapshots snap h) ≡ with_commit (lookup tag snap) (lookup tag h)
unfolding commit_snapshots lookup
lookup-commit_snapshots tag [] h m = ground arith
lookup-commit_snapshots tag ((t, users) ∷ snap) h m = elim (Option-cases (lookup t h)) [
  | inl missing ↦ ground (arith, list_beq_iff t tag, m.0, lookup-commit_snapshots tag snap h m.1)
  | inr (c, there) ↦ ground (
    arith,
    list_beq_iff t tag,
    m.0,
    lookup-insert t tag (commit_snapshot users c) h,
    lookup-commit_snapshots tag snap (insert t (commit_snapshot users c) h) m.1,
  )
]

pub snapshot_deltas-IsMap : (h : Hook) → IsMap h → IsMap (snapshot_deltas h)
unfolding snapshot_deltas
snapshot_deltas-IsMap h m = select-IsMap (λ tag c. delta_or_none (snapshot_delta c)) h m

pub commit_delta-IsMap :
    (delta : Delta) (only : Option (Map Text Unit)) → IsMap delta → IsMap (commit_delta delta only)
unfolding commit_delta
commit_delta-IsMap delta only m = select-IsMap (committed_users only) delta m

lookup-commit_delta :
    (delta : Delta) (acked : Map Text (Unit {0})) (tag : Text)
    → IsMap delta
    → has tag acked ≡ false
    → lookup tag (commit_delta delta (some acked)) ≡ none
unfolding commit_delta
lookup-commit_delta delta acked tag m e =
    ground (arith, lookup-select (committed_users (some acked)) tag delta m)

-- When some node's push fails, the counters of an inbound whose own push did not go through are left
-- as they are, so that its bytes are sent again in the next round.
pub flush_hook-keeps :
    (http : Http) (cs : List (Client × NodeSpec)) (h : Hook) (tag : Text)
    → IsMap h
    → all_accepted http (snapshot_deltas h) cs ≡ false
    → is_accepted http (snapshot_deltas h) cs tag ≡ false
    → lookup tag (flush_hook (λ d. push_topology http cs d (push_accepted [])) h) ≡ lookup tag h
unfolding flush_hook flush flushed lookup
flush_hook-keeps http cs h tag m some_failed not_sent =
    let delta = snapshot_deltas h in
    let r = push_topology http cs delta (push_accepted []) in
    ground (
      arith,
      push_topology-acked http cs delta (push_accepted []) tag,
      push_topology-failed http cs delta (push_accepted []),
      lookup-commit_delta delta r.acked tag (snapshot_deltas-IsMap h m),
      lookup-commit_snapshots tag (commit_delta delta (some r.acked)) h
          (commit_delta-IsMap delta (some r.acked) (snapshot_deltas-IsMap h m)),
    )
