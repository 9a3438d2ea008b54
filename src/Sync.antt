-- ===== src/Sync.antt =====
-- A round of the syncer: panelapi/sync.go with the callbacks that cmd/mini-sb-agent/main.go gives it.
--
-- The answers of the panel are arguments: the lists of users that the clients fetch, `none` for an
-- error, and the panel's `PushTraffic`.
pub mod Report
pub mod Settled
pub mod Shutdown
pub mod Pruned
pub mod Flow
pub mod Run
use mini_sb_agent.Base.{
  ℕ, zero, suc, ◌+◌, ◌-◌, ◌*◌, ◌/◌, ◌%◌, ◌^◌, ◌≤◌, ◌<◌, String, ◌≡◌, refl, sym, ap, ◌∙◌, ◌≢◌, ◌↔◌,
  ◌⊎◌, inl, inr, Bool, true, false, not, ◌&&◌, ◌||◌, Option, none, some, List, [], ◌∷◌, ◌++◌, map,
  append-nil, append_assoc, arith, ltb, leb, nat_beq, nat_beq_iff, if◌then◌else◌, Bool-cases,
  Option-cases, is_some, length, is_empty, all, any, keep, All, length-append, All-append, Result,
  ok, err, ◌>>=◌, ◌>>◌, reject_if, >>=-eq-ok, is_ok, Eq, ◌==◌, nat_eq, list_eq, pair_eq, list_beq,
  list_beq_iff, pair_beq, pair_beq_iff, Map, lookup, has, insert, delete, IsMap, lookup-insert,
  lookup-delete, beq_refl, insert-IsMap, delete-IsMap, select, answer, lookup-select, select-IsMap,
  word, half_word, add64, sub64, mul64, is_neg, is_pos, div64, lt64, Text, codes, is_space,
  drop_while, trim, trim_space, lower, to_lower, has_prefix, contains, ℤ, pos, negsuc, pos_part,
  neg_part, diff, ◌+ℤ◌, ◌-ℤ◌, ◌≤ℤ◌, ltb_ℤ, +ℤ_parts, -ℤ_parts, take, drop, length-take, length-drop,
  take-append-take-drop, take-take, take_all, trim_prefix, trim_right,
}
use mini_sb_agent.Topology.{NodeSpec}
use mini_sb_agent.Users.{User}
use mini_sb_agent.Users.Manager.{UserManager, active_ids}
use mini_sb_agent.Users.Manager.Inbounds.{
  InboundMethods, Protocol, apply_box, apply_box_by_inbound, group_node_users,
}
use mini_sb_agent.Users.Merge.{fetch_topology_users, fetch_multi}
use mini_sb_agent.Panel.{Delta, PushResult}
use mini_sb_agent.Hook.{Hook, remove_absents, flush_hook}

-- What a round works on, with the inbounds of the data path.
pub record AgentState (I : Type 0) : Type 0 where
  pub hook : Hook
  pub manager : UserManager
  pub inbounds : Map Text (Protocol × I)

-- The panel of the agent, with the lists that its clients fetch in this round: in topology mode one
-- for each key of a node, and otherwise one for each panel, that share the users.
pub data Fetched : Type 0 where
  topology_lists : List NodeSpec → List (Text × Option (List User)) → Fetched
  shared_lists : List (Option (List User)) → Fetched

abbrev pub is_topology : Fetched → Bool
is_topology (topology_lists nodes lists) = true
is_topology (shared_lists lists) = false

module _ {I : Type 0} (methods : InboundMethods I) (enabled : Bool) (now : ℕ) where
  abbrev pub with_users :
      AgentState I → Map Text (Protocol × I) × UserManager × Bool → AgentState I × Bool
  with_users s (inbounds, manager, done) =
      (record s { inbounds = inbounds; manager = manager }, done)

  -- The callback of `newTopologyPanel`.
  abbrev pub apply_by_node :
      List NodeSpec → Map Text (List User) → AgentState I → AgentState I × Bool
  apply_by_node nodes by_node s = with_users s (
      apply_box_by_inbound methods enabled now s.inbounds (group_node_users nodes by_node [])
        s.manager)

  -- `FetchUsers` of the panel.
  unfoldable pub fetch_users : Fetched → AgentState I → AgentState I × Option (List User)
  unfolding fetch_topology_users apply_box_by_inbound fetch_multi
  fetch_users (topology_lists nodes lists) s = fetch_topology_users (apply_by_node nodes) lists [] s
  fetch_users (shared_lists lists) s = (s, fetch_multi lists [])

  abbrev pub prune : AgentState I → AgentState I
  prune s = record s { hook = remove_absents (active_ids s.manager) s.hook }

  abbrev pub prune_if : AgentState I × Bool → AgentState I × Bool
  prune_if (s, true) = (prune s, true)
  prune_if (s, false) = (s, false)

  -- `newPanelUsersCallback`: the state, and whether there was no error.
  unfoldable pub new_panel_users_callback : Bool → List User → AgentState I → AgentState I × Bool
  unfolding remove_absents apply_box
  new_panel_users_callback true us s = (prune s, true)
  new_panel_users_callback false us s =
      prune_if (with_users s (apply_box methods enabled now s.inbounds us s.manager))

  abbrev pub users_applied : Bool → AgentState I × Option (List User) → AgentState I
  users_applied topology_mode (s, none) = s
  users_applied topology_mode (s, some us) = (new_panel_users_callback topology_mode us s).0

  -- The part of `syncOnce` before the flush.
  unfoldable pub sync_users : Fetched → AgentState I → AgentState I
  unfolding fetch_users new_panel_users_callback
  sync_users fetched s = users_applied (is_topology fetched) (fetch_users fetched s)

  -- `FinalFlush`
  abbrev pub final_flush : (Delta → PushResult) → AgentState I → AgentState I
  final_flush push s = record s { hook = flush_hook push s.hook }

  -- `syncOnce`
  unfoldable pub sync_once : Fetched → (Delta → PushResult) → AgentState I → AgentState I
  unfolding sync_users flush_hook
  sync_once fetched push s = final_flush push (sync_users fetched s)
