-- ===== src/Config/NodeApi.antt =====
-- panelapi/node_config.go: how the configuration of a node is fetched.
--
-- `get` is the network: the answer to a GET, `none` for an error. encoding/json reads a body as a
-- `NodeConfig`, or as an object that has one under `data`.
use mini_sb_agent.Base.{
  ◌/◌, Bool, not, ◌||◌, Option, none, some, List, [], ◌∷◌, if◌then◌else◌, is_empty, ◌==◌, nat_eq,
  list_eq, pair_eq, Text, codes, trim_right,
}
use mini_sb_agent.Http.{HttpReply}
use mini_sb_agent.Panel.{Client, Http, Url, endpoint}
use mini_sb_agent.Config.{NodeConfig}

pub record NodeJson (W : Type 0) : Type 0 where
  pub decode_config : W → Option NodeConfig
  pub decode_wrapped : W → Option NodeConfig

-- A configuration that says something.
abbrev pub is_given : NodeConfig → Bool
is_given cfg = not (is_empty cfg.protocol) || not (cfg.server_port == 0)

abbrev pub given : Option NodeConfig → Option NodeConfig
given none = none
given (some cfg) = if is_given cfg then some cfg else none

abbrev pub or_else : {A : Type 0} → Option A → Option A → Option A
or_else none o = o
or_else (some a) o = some a

-- `NewClient`
unfoldable pub new_client : Text → Text → Text → Text → Client
unfolding trim_right
new_client base_url token node_id node_type = record {
  base_url = trim_right (λ c. c == b'/') base_url;
  token = token;
  node_id = node_id;
  node_type = node_type;
  client_tag = [];
}

module _ {W : Type 0} (json : NodeJson W) where
  -- `decodeNodeConfig`
  unfoldable pub decode_node_config : W → Option NodeConfig
  decode_node_config raw =
      or_else (given (json.decode_config raw)) (given (json.decode_wrapped raw))

  abbrev pub config_in : Option (HttpReply W) → Option NodeConfig
  config_in none = none
  config_in (some reply) =
      if reply.status_code / 100 == 2 then decode_node_config reply.content else none

  module _ (http : Http) (get : Url → Option (HttpReply W)) where
    abbrev pub config_at : Option Url → Option NodeConfig
    config_at none = none
    config_at (some url) = config_in (get url)

    -- `FetchNodeConfig`
    unfoldable pub fetch_node_config : Client → Option NodeConfig
    unfolding decode_node_config endpoint
    fetch_node_config c = config_at (endpoint http c (codes "/api/v1/server/UniProxy/config"))

    abbrev pub probe_next :
        Text → Option NodeConfig → Option (Text × NodeConfig) → Option (Text × NodeConfig)
    probe_next node_type none rest = rest
    probe_next node_type (some cfg) rest = some (node_type, cfg)

    -- The loop of `ProbeNodeConfig`.
    unfoldable pub probe_types : Text → Text → Text → List Text → Option (Text × NodeConfig)
    unfolding fetch_node_config new_client
    probe_types base_url token node_id [] = none
    probe_types base_url token node_id (t ∷ ts) =
        probe_next t (fetch_node_config (new_client base_url token node_id t))
          (probe_types base_url token node_id ts)

    -- `ProbeNodeConfig`
    abbrev pub probe_node_config : Text → Text → Text → Option (Text × NodeConfig)
    probe_node_config base_url token node_id =
        probe_types base_url token node_id
          (codes "vless" ∷ codes "hysteria2" ∷ codes "hysteria" ∷ [])
