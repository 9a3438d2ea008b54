-- ===== src/Tests/Configs.antt =====
-- Inputs for cmd/mini-sb-agent/xboard_config.go: a topology of one VLESS node.
use mini_sb_agent.Base.{
  ◌≡◌, refl, true, none, some, [], ◌∷◌, ◌++◌, map, all, All, ok, nat_eq, list_eq, pair_eq, list_beq,
  lookup, codes, to_lower,
}
use mini_sb_agent.Topology.{
  safe_tag_part, check_outbound, normalize_node_type, one_of, is_valid_node_id, validate, Topology,
  inbound_tag,
}
use mini_sb_agent.Topology.Valid.{Distinct}
use mini_sb_agent.Config.{NodeConfig, reality, Files}
use mini_sb_agent.Config.Generate.{builtins, SingBoxConfig, rule_outbound, generate_topology_config}
use mini_sb_agent.Config.Routes.{rule_of, HasTag, generate_topology_config-routes}
use mini_sb_agent.Tests.Topologies.{node, direct}

abbrev one_node : Topology
one_node = record { nodes = node "21" "vless" direct ∷ [] }

abbrev pub node_config : NodeConfig
node_config = record {
  protocol = codes "vless";
  listen_ip = [];
  server_port = 443;
  version = 0;
  server_name = [];
  up_mbps = 0;
  down_mbps = 0;
  obfs = [];
  obfs_password = [];
  tls_server_name = codes "a.com";
  tls_server_port = codes "8443";
  private_key = codes "k";
  short_id = [];
}

abbrev pub files : Files
files = record {
  dir = λ p. p;
  join = λ p q. p ++ (codes "/" ++ q);
  ensure_self_signed_cert = λ c k n. true;
}

abbrev config : SingBoxConfig
config = record {
  inbounds =
      record {
        type = codes "vless";
        tag = codes "vless-21-in";
        listen = codes "::";
        listen_port = 443;
        tls_name = codes "a.com";
        tls = reality 8443 (codes "k") [];
        up_limit = none;
        down_limit = none;
        obfuscation = none;
      }
      ∷ [];
  outbounds = builtins;
  rules = record { inbound = codes "vless-21-in"; outbound = codes "direct" } ∷ [];
  final = codes "block";
}

generated :
    generate_topology_config files (λ n. some node_config) (codes "out") [] [] one_node ≡ ok config
unfolding generate_topology_config validate is_valid_node_id one_of list_beq normalize_node_type
    to_lower lookup check_outbound inbound_tag all safe_tag_part
generated = refl

generate_topology_config-routes_example :
    (map (λ i. i.tag) config.inbounds ≡ map inbound_tag one_node.nodes)
    × Distinct (map inbound_tag one_node.nodes)
    × (config.rules ≡ map rule_of one_node.nodes)
    × All (λ n. HasTag (rule_outbound n) config.outbounds) one_node.nodes
    × (config.final ≡ codes "block")
generate_topology_config-routes_example =
    generate_topology_config-routes files (λ n. some node_config) (codes "out") [] [] one_node
      config generated
