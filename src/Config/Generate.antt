-- ===== src/Config/Generate.antt =====
-- `generateTopologyConfig` of cmd/mini-sb-agent/xboard_config.go, with the outbounds and the rules.
use mini_sb_agent.Base.{
  Bool, not, ◌&&◌, Option, none, some, List, [], ◌∷◌, ◌++◌, ltb, if◌then◌else◌, length, Result, ok,
  err, ◌>>=◌, ◌>>◌, reject_if, is_ok, ◌==◌, nat_eq, list_eq, pair_eq, Text, codes,
}
use mini_sb_agent.Topology.{
  OutboundSpec, NodeSpec, Topology, inbound_tag, outbound_tag, outbound_type, one_of, hy2,
  shadowsocks_names, validate,
}
use mini_sb_agent.Config.{
  NodeConfig, InboundConfig, GenerateOptions, Files, ConfigError, fetch_failed, protocol_mismatch,
  invalid_topology, inbound_from_node_config, validate_node_protocol, default_listen,
  normalize_node_mode,
}

-- An object of `outbounds`.
pub data OutboundConfig : Type 0 where
  builtin : Text → OutboundConfig
  shadowsocks : Text → OutboundSpec → OutboundConfig

abbrev pub config_tag : OutboundConfig → Text
config_tag (builtin t) = t
config_tag (shadowsocks t o) = t

-- `outboundFromNodeSpec`
unfoldable pub outbound_from_node_spec : NodeSpec → OutboundConfig
outbound_from_node_spec n = shadowsocks (outbound_tag n) n.outbound

pub record Rule : Type 0 where
  pub inbound : Text
  pub outbound : Text

pub record SingBoxConfig : Type 0 where
  pub inbounds : List InboundConfig
  pub outbounds : List OutboundConfig
  pub rules : List Rule
  pub final : Text

abbrev pub builtins : List OutboundConfig
builtins = builtin (codes "direct") ∷ builtin (codes "block") ∷ builtin (codes "dns-out") ∷ []

-- `buildSingBoxConfigFromInbounds`
unfoldable pub build_sing_box_config_from_inbounds : List InboundConfig → SingBoxConfig
build_sing_box_config_from_inbounds inbounds = record {
  inbounds = inbounds;
  outbounds = builtins;
  rules = [];
  final = codes "direct";
}

-- The outbound of the node's rule.
abbrev pub rule_outbound : NodeSpec → Text
rule_outbound n =
    if outbound_type n.outbound == codes "direct" then codes "direct" else outbound_tag n

abbrev pub node_outbounds : NodeSpec → List OutboundConfig
node_outbounds n =
    if outbound_type n.outbound == codes "direct"
    then []
    else if one_of (outbound_type n.outbound) shadowsocks_names
    then outbound_from_node_spec n ∷ []
    else []

abbrev pub node_options : Files → Text → Text → Text → Bool → NodeSpec → GenerateOptions
node_options files out cert_path key_path several n =
    if several && normalize_node_mode n.node_type == hy2
    then record {
      out = out;
      cert_path = files.join (files.dir out) (codes "cert-" ++ (n.node_id ++ codes ".pem"));
      key_path = files.join (files.dir out) (codes "key-" ++ (n.node_id ++ codes ".pem"));
    }
    else record { out = out; cert_path = cert_path; key_path = key_path }

abbrev pub fetched : Option NodeConfig → Result ConfigError NodeConfig
fetched none = err fetch_failed
fetched (some cfg) = ok cfg

-- `generateTopologyConfig` up to the file that it writes, with `fetch` for `FetchNodeConfig`.
module _ (files : Files) (fetch : NodeSpec → Option NodeConfig)
    (out cert_path key_path : Text) where
  -- The inbound of one node.
  unfoldable pub node_inbound : Bool → NodeSpec → Result ConfigError InboundConfig
  unfolding inbound_from_node_config validate_node_protocol default_listen normalize_node_mode
  node_inbound several n = do
    cfg ← fetched (fetch n)
    reject_if (not (validate_node_protocol n cfg)) protocol_mismatch
    i ←
        inbound_from_node_config files cfg (node_options files out cert_path key_path several n)
          (default_listen cfg.listen_ip)
    ok (record i { tag = inbound_tag n })

  -- The loop, on the configuration so far.
  unfoldable pub add_nodes : Bool → List NodeSpec → SingBoxConfig → Result ConfigError SingBoxConfig
  unfolding node_inbound outbound_from_node_spec
  add_nodes several [] c = ok c
  add_nodes several (n ∷ ns) c = node_inbound several n >>= λ i. add_nodes several ns (record {
    inbounds = c.inbounds ++ (i ∷ []);
    outbounds = c.outbounds ++ node_outbounds n;
    rules = c.rules ++ (record { inbound = inbound_tag n; outbound = rule_outbound n } ∷ []);
    final = c.final;
  })

  unfoldable pub generate_topology_config : Topology → Result ConfigError SingBoxConfig
  unfolding add_nodes
  generate_topology_config t =
      if not (is_ok (validate t))
      then err invalid_topology
      else add_nodes (ltb 1 (length t.nodes)) t.nodes
          (record { inbounds = []; outbounds = builtins; rules = []; final = codes "block" })
