-- ===== src/Tests/Topologies.antt =====
-- Inputs for panelapi/topology.go.
use mini_sb_agent.Base.{String, ◌≡◌, ◌↔◌, [], ◌∷◌, ok, nat_eq, list_eq, pair_eq, codes}
use mini_sb_agent.Topology.{Topology, NodeSpec, OutboundSpec, validate}
use mini_sb_agent.Topology.Valid.{IsTopology, validate_iff}

abbrev pub direct : OutboundSpec
direct = record {
  type = codes "direct";
  server = [];
  server_port = 0;
  method = [];
  password = [];
  plugin = [];
  plugin_opts = [];
}

abbrev pub node : String → String → OutboundSpec → NodeSpec
node id type outbound = record {
  node_id = codes id;
  node_type = codes type;
  tag = [];
  outbound = outbound;
}

abbrev pub two_nodes : Topology
two_nodes = record { nodes = node "21" " VLESS-Reality" direct ∷ node "21" "hy2" direct ∷ [] }

validate_iff_example : (validate two_nodes ≡ ok tt) ↔ IsTopology two_nodes
validate_iff_example = validate_iff two_nodes
