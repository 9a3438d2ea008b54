-- ===== src/Tests/Syncs.antt =====
-- Inputs for a round of panelapi/sync.go: one inbound, and a panel that has no users left.
use mini_sb_agent.Base.{
  ◌≡◌, refl, true, some, [], ◌∷◌, arith, nat_eq, list_eq, pair_eq, list_beq_iff, lookup, Text,
  codes,
}
use mathlib.Core.Path.{subst}
use mini_sb_agent.Users.Manager.{new_user_manager}
use mini_sb_agent.Users.Manager.Inbounds.{InboundMethods}
use mini_sb_agent.Counter.{TrafficCounter}
use mini_sb_agent.Counter.Accounts.{IsValid}
use mini_sb_agent.Panel.Commit.{entry}
use mini_sb_agent.Hook.{Hook, snapshot_deltas}
use mini_sb_agent.Sync.{AgentState, Fetched, shared_lists, sync_users}
use mini_sb_agent.Sync.Report.{IsHook, sync_users-report}
use mini_sb_agent.Tests.Counters.{start, start-IsValid, alice}

abbrev hook : Hook
hook = (codes "vless-21-in", start) ∷ []

hook-IsHook : IsHook hook
unfolding lookup
hook-IsHook = record { is_map = (refl, tt); valid = in_hook }
  where
    in_hook : (tag : Text) (c : TrafficCounter) → lookup tag hook ≡ some c → IsValid c
    in_hook tag c e =
        let same : start ≡ c = ground (arith, list_beq_iff (codes "vless-21-in") tag, e) in
        subst IsValid same start-IsValid

-- An inbound that keeps nothing.
abbrev methods : InboundMethods Unit
methods = record {
  del_users = λ ss i. some i;
  add_vless_users = λ us i. some i;
  add_hysteria2_users = λ us i. some i;
}

abbrev agent : AgentState Unit
agent = record { hook = hook; manager = new_user_manager 0 1; inbounds = [] }

-- No user is left, so that every settled one is removed.
abbrev fetched : Fetched
fetched = shared_lists (some [] ∷ [])

sync_users-report_example :
    entry
      (codes "vless-21-in")
      alice
      (snapshot_deltas (sync_users methods true 5 fetched agent).hook)
    ≡ entry (codes "vless-21-in") alice (snapshot_deltas hook)
sync_users-report_example =
    sync_users-report methods true 5 fetched agent (codes "vless-21-in") alice hook-IsHook
