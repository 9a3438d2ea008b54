-- ===== src/Tests/Xboards.antt =====
-- Inputs for `xboard-generate-config` of cmd/mini-sb-agent/xboard_config.go: two VLESS nodes.
use mini_sb_agent.Topology.{one_of}
use mini_sb_agent.Base.{
  ◌≡◌, refl, Option, none, some, [], ◌∷◌, all, All, ok, nat_eq, list_eq, pair_eq, list_beq, Text,
  codes, trim_space, to_lower,
}
use mini_sb_agent.Config.{NodeConfig, InboundConfig, reality}
use mini_sb_agent.Config.Generate.{SingBoxConfig, build_sing_box_config_from_inbounds}
use mini_sb_agent.Config.Xboard.{XboardOptions, run_xboard_generate_config}
use mini_sb_agent.Config.Reported.{IsReported, run_xboard_generate_config-IsReported}
use mini_sb_agent.Tests.Configs.{node_config, files}

abbrev options : XboardOptions
options = record {
  panel_url = codes "http://panel";
  panel_token = codes "t";
  panel_node_id = codes "21";
  panel_node_type = [];
  node_mode = codes "Both";
  vless_node_id = [];
  hy2_node_id = codes "22";
  node_type_out_path = [];
  files_out = record { out = codes "out"; cert_path = []; key_path = [] };
}

abbrev fetch : Text → Text → Option NodeConfig
fetch id node_type = some node_config

abbrev generated : InboundConfig
generated = record {
  type = codes "vless";
  tag = codes "vless-in";
  listen = codes "::";
  listen_port = 443;
  tls_name = codes "a.com";
  tls = reality 8443 (codes "k") [];
  up_limit = none;
  down_limit = none;
  obfuscation = none;
}

abbrev config : SingBoxConfig
config = build_sing_box_config_from_inbounds (generated ∷ generated ∷ [])

-- Nothing refuses a panel that answers for both nodes with one protocol: the tags are then equal.
same_tag_twice : run_xboard_generate_config files fetch options ≡ ok (codes "both", config)
unfolding run_xboard_generate_config list_beq one_of to_lower trim_space all
same_tag_twice = refl

run_xboard_generate_config-IsReported_example :
    All (IsReported (codes "http://panel") (codes "t") (codes "21") (codes "22")) config.inbounds
run_xboard_generate_config-IsReported_example =
    run_xboard_generate_config-IsReported files fetch options (codes "both") config
      (codes "http://panel") (codes "t") (codes "21") (codes "22") same_tag_twice
