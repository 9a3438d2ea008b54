-- ===== src/Sync/Report.antt =====
-- What a round's update of the users leaves of the report: panelapi/sync.go, counter/counter.go.
use mini_sb_agent.Base.{
  ℕ, ◌≡◌, refl, sym, ap, ◌∙◌, Bool, true, false, Option, none, some, List, [], ◌∷◌, Result, ok, err,
  nat_eq, list_eq, pair_eq, Map, lookup, insert, IsMap, answer, lookup-select, select-IsMap, Text,
}
use mathlib.Core.Path.{subst}
use mini_sb_agent.Topology.{NodeSpec}
use mini_sb_agent.Users.{User}
use mini_sb_agent.Users.Manager.{active_ids}
use mini_sb_agent.Users.Manager.Inbounds.{InboundMethods, apply_box}
use mini_sb_agent.Users.Merge.{fetch_topology_users, merge_users_by_node}
use mini_sb_agent.Panel.Commit.{entry, lookup_in}
use mini_sb_agent.Counter.{TrafficCounter, Snapshot, snapshot_delta, remove_absent}
use mini_sb_agent.Counter.Accounts.{IsValid}
use mini_sb_agent.Counter.Pruning.{snapshot_delta-remove_absent}
use mini_sb_agent.Hook.{Hook, remove_absents, snapshot_deltas, delta_or_none}
use mini_sb_agent.Sync.{
  AgentState, Fetched, topology_lists, shared_lists, is_topology, with_users, apply_by_node,
  fetch_users, prune_if, new_panel_users_callback, users_applied, sync_users,
}

-- The counters are well formed, and no inbound has two.
pub record IsHook (h : Hook) : Type 0 where
  pub is_map : IsMap h
  pub valid : (tag : Text) (c : TrafficCounter) → lookup tag h ≡ some c → IsValid c

lookup_in-delta_or_none :
    (user : Text) (d : Snapshot) → lookup_in user (delta_or_none d) ≡ lookup user d
unfolding lookup
lookup_in-delta_or_none user [] = refl
lookup_in-delta_or_none user (x ∷ d) = refl

abbrev pub delta_of : Text → Option TrafficCounter → Option (ℕ × ℕ)
delta_of user none = none
delta_of user (some c) = lookup user (snapshot_delta c)

-- The report's entry is that of the inbound's own counter.
pub entry-snapshot_deltas :
    (tag user : Text) (h : Hook)
    → IsMap h
    → entry tag user (snapshot_deltas h) ≡ delta_of user (lookup tag h)
unfolding snapshot_deltas
entry-snapshot_deltas tag user h m =
    ap (lookup_in user) (lookup-select (λ t c. delta_or_none (snapshot_delta c)) tag h m)
    ∙ of_counter (lookup tag h)
  where
    of_counter :
        (o : Option TrafficCounter)
        → lookup_in user (answer (λ t c. delta_or_none (snapshot_delta c)) tag o) ≡ delta_of user o
    of_counter none = refl
    of_counter (some c) = lookup_in-delta_or_none user (snapshot_delta c)

module _ (active : Map Text (Unit {0})) (tag user : Text) (h : Hook) (k : IsHook h) where
  remove_absents-report :
      entry tag user (snapshot_deltas (remove_absents active h))
      ≡ entry tag user (snapshot_deltas h)
  unfolding remove_absents
  remove_absents-report =
      let pruned_map = select-IsMap (λ t c. some (remove_absent active c)) h k.is_map in
      let pruned = lookup-select (λ t c. some (remove_absent active c)) tag h k.is_map in
      entry-snapshot_deltas tag user (remove_absents active h) pruned_map
      ∙ (ap (delta_of user) pruned
          ∙ (of_counter (lookup tag h) refl ∙ sym (entry-snapshot_deltas tag user h k.is_map)))
    where
      of_counter :
          (o : Option TrafficCounter)
          → lookup tag h ≡ o
          → delta_of user (answer (λ t c. some (remove_absent active c)) tag o) ≡ delta_of user o
      of_counter none e = refl
      of_counter (some c) e = snapshot_delta-remove_absent active c (k.valid tag c e) user

module _ {I : Type 0} (methods : InboundMethods I) (enabled : Bool) (now : ℕ) where
  fetched_all-hook :
      (nodes : List NodeSpec) (by_node : Map Text (List User)) (s : AgentState I)
      (merged : Result ℕ (List User))
      → merge_users_by_node by_node ≡ merged
      → (fetch_topology_users (apply_by_node methods enabled now nodes) [] by_node s).0.hook
        ≡ s.hook
  unfolding fetch_topology_users
  fetched_all-hook nodes by_node s (err id) e = rw (e, fetch_topology_users) refl
  fetched_all-hook nodes by_node s (ok us) e = rw (e, fetch_topology_users) refl

  fetch_topology_users-hook :
      (nodes : List NodeSpec) (lists : List (Text × Option (List User)))
      (by_node : Map Text (List User)) (s : AgentState I)
      → (fetch_topology_users (apply_by_node methods enabled now nodes) lists by_node s).0.hook
        ≡ s.hook
  unfolding fetch_topology_users
  fetch_topology_users-hook nodes [] by_node s =
      fetched_all-hook nodes by_node s (merge_users_by_node by_node) refl
  fetch_topology_users-hook nodes ((node_key, none) ∷ lists) by_node s = refl
  fetch_topology_users-hook nodes ((node_key, some us) ∷ lists) by_node s =
      fetch_topology_users-hook nodes lists (insert node_key us by_node) s

  pub fetch_users-hook :
      (fetched : Fetched) (s : AgentState I)
      → (fetch_users methods enabled now fetched s).0.hook ≡ s.hook
  unfolding fetch_users
  fetch_users-hook (topology_lists nodes lists) s = fetch_topology_users-hook nodes lists [] s
  fetch_users-hook (shared_lists lists) s = refl

  prune_if-report :
      (tag user : Text) (r : AgentState I × Bool)
      → IsHook r.0.hook
      → entry tag user (snapshot_deltas (prune_if methods enabled now r).0.hook)
        ≡ entry tag user (snapshot_deltas r.0.hook)
  prune_if-report tag user (s, true) k =
      remove_absents-report (active_ids s.manager) tag user s.hook k
  prune_if-report tag user (s, false) k = refl

  users_applied-report :
      (tag user : Text) (topology_mode : Bool) (s : AgentState I) (o : Option (List User))
      → IsHook s.hook
      → entry tag user
          (snapshot_deltas (users_applied methods enabled now topology_mode (s, o)).hook)
        ≡ entry tag user (snapshot_deltas s.hook)
  unfolding new_panel_users_callback
  users_applied-report tag user topology_mode s none k = refl
  users_applied-report tag user true s (some us) k =
      remove_absents-report (active_ids s.manager) tag user s.hook k
  users_applied-report tag user false s (some us) k =
      prune_if-report tag user
        (with_users methods enabled now s (apply_box methods enabled now s.inbounds us s.manager)) k

  -- Whatever the panel answers to the fetch of the users, in either mode, and whether they can be
  -- applied or not: the report that the same round pushes then holds exactly the bytes that the
  -- counters held before. The hook's counters are well formed.
  pub sync_users-report :
      (fetched : Fetched) (s : AgentState I) (tag user : Text)
      → IsHook s.hook
      → entry tag user (snapshot_deltas (sync_users methods enabled now fetched s).hook)
        ≡ entry tag user (snapshot_deltas s.hook)
  unfolding sync_users
  sync_users-report fetched s tag user k =
      let kept = fetch_users-hook fetched s in
      let (s', o) = fetch_users methods enabled now fetched s in
      users_applied-report tag user (is_topology fetched) s' o (subst IsHook (sym kept) k)
      ∙ ap (λ h. entry tag user (snapshot_deltas h)) kept
