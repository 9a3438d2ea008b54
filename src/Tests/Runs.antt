-- ===== src/Tests/Runs.antt =====
-- Inputs for a run of the agent: panelapi/sync.go with the data path of cmd/mini-sb-agent/main.go.
use mini_sb_agent.Base.{ℕ, true, none, some, List, [], ◌∷◌, nat_eq, list_eq, pair_eq, Text, codes}
use mini_sb_agent.Topology.{NodeSpec, Topology}
use mini_sb_agent.Users.Manager.{new_user_manager}
use mini_sb_agent.Users.Manager.Inbounds.{InboundMethods}
use mini_sb_agent.Counter.Conn.{opened, reads, writes}
use mini_sb_agent.Hook.Traffic.{Passage}
use mini_sb_agent.Sync.{AgentState, topology_lists}
use mini_sb_agent.Sync.Run.{AgentRound}
use mini_sb_agent.Tests.Topologies.{node, direct}

abbrev first : NodeSpec
first = node "21" "vless" direct

abbrev topology : Topology
topology = record { nodes = first ∷ [] }

abbrev tag : Text
tag = codes "vless-21-in"

abbrev methods : InboundMethods Unit
methods = record {
  del_users = λ ss i. some i;
  add_vless_users = λ us i. some i;
  add_hysteria2_users = λ us i. some i;
}

abbrev agent : AgentState Unit
agent = record { hook = []; manager = new_user_manager 0 1; inbounds = [] }

-- A push that fails, and one that goes through, each with traffic on its way.
abbrev round_of : ℕ → List Passage → AgentRound
round_of status before = record {
  before = before;
  fetched = topology_lists (first ∷ []) ((codes "vless:21", some []) ∷ []);
  now = 5;
  http = record { is_url = λ u. true; post = λ u p. some status };
  during = (tag, writes 0 3 none) ∷ [];
}

abbrev first_round : AgentRound
first_round = round_of 500 ((tag, opened (codes "7")) ∷ (tag, reads 0 10 none) ∷ [])

abbrev second_round : AgentRound
second_round = round_of 200 []

abbrev rounds : List AgentRound
rounds = first_round ∷ second_round ∷ []
