-- ===== src/Sync/Run.antt =====
-- The whole run of the agent in topology mode: the syncer that `main` of cmd/mini-sb-agent/main.go
-- starts, `Run` of panelapi/sync.go, with the traffic between the rounds and during the pushes.
pub mod Bills
use mini_sb_agent.Base.{
  ℕ, zero, suc, ◌+◌, ◌-◌, ◌*◌, ◌/◌, ◌%◌, ◌^◌, ◌≤◌, ◌<◌, String, ◌≡◌, refl, sym, ap, ◌∙◌, ◌≢◌, ◌↔◌,
  ◌⊎◌, inl, inr, Bool, true, false, not, ◌&&◌, ◌||◌, Option, none, some, List, [], ◌∷◌, ◌++◌, map,
  append-nil, append_assoc, arith, ltb, leb, nat_beq, nat_beq_iff, if◌then◌else◌, Bool-cases,
  Option-cases, is_some, length, is_empty, all, any, keep, All, length-append, All-append, Result,
  ok, err, ◌>>=◌, ◌>>◌, reject_if, >>=-eq-ok, is_ok, Eq, ◌==◌, nat_eq, list_eq, pair_eq, list_beq,
  list_beq_iff, pair_beq, pair_beq_iff, Map, lookup, has, insert, delete, IsMap, lookup-insert,
  lookup-delete, beq_refl, insert-IsMap, delete-IsMap, select, answer, lookup-select, select-IsMap,
  word, half_word, add64, sub64, mul64, is_neg, is_pos, div64, lt64, Text, codes, is_space,
  drop_while, trim, trim_space, lower, to_lower, has_prefix, contains, ℤ, pos, negsuc, pos_part,
  neg_part, diff, ◌+ℤ◌, ◌-ℤ◌, ◌≤ℤ◌, ltb_ℤ, +ℤ_parts, -ℤ_parts, take, drop, length-take, length-drop,
  take-append-take-drop, take-take, take_all, trim_prefix, trim_right,
}
use mathlib.Core.Path.{subst}
use mini_sb_agent.Topology.{NodeSpec, Topology, inbound_tag, validate}
use mini_sb_agent.Topology.Valid.{Distinct, IsTopology, validate_iff}
use mini_sb_agent.Users.Manager.Inbounds.{InboundMethods}
use mini_sb_agent.Users.Manager.Groups.{Runs}
use mini_sb_agent.Counter.Rounds.{amount}
use mini_sb_agent.Counter.Moved.{GrowsBy}
use mini_sb_agent.Panel.{
  Delta, PushResult, Http, is_numeric_user, atoi, flush, new_node_client, new_topology_panel,
  push_topology, push_accepted,
}
use mini_sb_agent.Panel.Commit.{entry}
use mini_sb_agent.Panel.Push.{entry_of, flush-push_topology}
use mini_sb_agent.Panel.Posted.{posted, IsOnlyName}
use mini_sb_agent.Panel.Flushed.{flush-posted}
use mini_sb_agent.Hook.{snapshot_deltas, flush_hook}
use mini_sb_agent.Hook.Traffic.{
  Passage, run_traffic, pending, moved_through, AreCounters, run_traffic-AreCounters,
}
use mini_sb_agent.Sync.{AgentState, Fetched, sync_users, sync_once}
use mini_sb_agent.Sync.Pruned.{sync_users-keeps, snapshot_deltas-IsDelta, sent-snapshot_deltas}
use mini_sb_agent.Sync.Flow.{
  flush_during, AreCounters-IsSound, remove_absents-pending, run_traffic-GrowsBy,
  flush_during-GrowsBy, flush_during-AreCounters,
}

-- A round: the traffic since the last one, the lists that the panel answers, the time, the network
-- and the traffic while the push is under way.
pub record AgentRound : Type 0 where
  pub before : List Passage
  pub fetched : Fetched
  pub now : ℕ
  pub http : Http
  pub during : List Passage

module _ {I : Type 0} (methods : InboundMethods I) (enabled : Bool) (base_url token : Text)
    (nodes : List NodeSpec) where
  abbrev pub push_of : AgentRound → Delta → PushResult
  push_of r d = push_topology r.http (new_topology_panel base_url token nodes) d (push_accepted [])

  -- The agent when the round takes its snapshot.
  abbrev pub at_snapshot : AgentRound → AgentState I → AgentState I
  at_snapshot r s =
      sync_users methods enabled r.now r.fetched (record s { hook = run_traffic r.before s.hook })

  abbrev pub after_agent_round : AgentRound → AgentState I → AgentState I
  after_agent_round r s =
      let s' = at_snapshot r s in record s' { hook = flush_during (push_of r) r.during s'.hook }

  -- With no traffic during the push this is `syncOnce`.
  after_agent_round-sync_once :
      (r : AgentRound) (s : AgentState I)
      → r.during ≡ []
      → after_agent_round r s
        ≡ sync_once methods enabled r.now r.fetched
            (push_of r)
            (record s { hook = run_traffic r.before s.hook })
  unfolding sync_once flush_during flush_hook run_traffic
  after_agent_round-sync_once r s e = rw e refl

  unfoldable pub run_agent : List AgentRound → AgentState I → AgentState I
  run_agent [] s = s
  run_agent (r ∷ rs) s = run_agent rs (after_agent_round r s)

  abbrev pub plus : ℕ × ℕ → ℕ × ℕ → ℕ × ℕ
  plus v w = (v.0 + w.0, v.1 + w.1)

  module _ (n : NodeSpec) (user : Text) (uid : ℕ) where
    -- The bytes that the POSTs of the node's client put on the account, those that the panel took.
    unfoldable pub posted_sum : List AgentRound → AgentState I → ℕ × ℕ
    posted_sum [] s = (0, 0)
    posted_sum (r ∷ rs) s =
        plus
          (posted r.http (snapshot_deltas (at_snapshot r s).hook) (new_node_client base_url token n)
            uid)
          (posted_sum rs (after_agent_round r s))

    -- The bytes that the user's connections through the node's inbound move.
    unfoldable pub moved_sum : List AgentRound → AgentState I → ℕ × ℕ
    moved_sum [] s = (0, 0)
    moved_sum (r ∷ rs) s =
        plus
          (plus (moved_through (inbound_tag n) user r.before s.hook)
            (moved_through (inbound_tag n) user r.during (at_snapshot r s).hook))
          (moved_sum rs (after_agent_round r s))

    -- In no report of the run does another name of the inbound stand for the number.
    unfoldable pub AreOnlyNames : List AgentRound → AgentState I → Type 0
    AreOnlyNames [] s = Unit {0}
    AreOnlyNames (r ∷ rs) s =
        IsOnlyName (inbound_tag n) user uid (snapshot_deltas (at_snapshot r s).hook)
        × AreOnlyNames rs (after_agent_round r s)

    -- What was pending before and what moved is what was posted and what is pending.
    abbrev pub Balances : ℕ × ℕ → ℕ × ℕ → ℕ × ℕ → ℕ × ℕ → Type 0
    Balances before moved paid left =
        ((paid.0 + left.0) % word ≡ (before.0 + moved.0) % word)
        × ((paid.1 + left.1) % word ≡ (before.1 + moved.1) % word)
