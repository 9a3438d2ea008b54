-- ===== src/Config/Xboard.antt =====
-- `generateXboardConfig` of cmd/mini-sb-agent/xboard_config.go, and `runXboardGenerateConfig` behind
-- the command line, up to the files that they write.
use mini_sb_agent.Base.{
  Bool, not, ◌&&◌, ◌||◌, Option, List, [], ◌∷◌, if◌then◌else◌, is_empty, Result, ok, err, ◌>>=◌,
  ◌>>◌, reject_if, ◌==◌, nat_eq, list_eq, pair_eq, Text, codes,
}
use mini_sb_agent.Topology.{vless, hy2}
use mini_sb_agent.Config.{
  NodeConfig, InboundConfig, GenerateOptions, Files, ConfigError, inbound_from_node_config,
  default_listen, normalize_node_mode, first_non_empty,
}
use mini_sb_agent.Config.Generate.{SingBoxConfig, build_sing_box_config_from_inbounds, fetched}

-- The other fields of `xboardGenerateOptions`.
pub record XboardOptions : Type 0 where
  pub panel_url : Text
  pub panel_token : Text
  pub panel_node_id : Text
  pub panel_node_type : Text
  pub node_mode : Text
  pub vless_node_id : Text
  pub hy2_node_id : Text
  pub node_type_out_path : Text
  pub files_out : GenerateOptions

pub data XboardError : Type 0 where
  missing_options missing_node_id unknown_mode : XboardError
  config_error : ConfigError → XboardError

abbrev pub lifted : {A : Type 0} → Result ConfigError A → Result XboardError A
lifted (ok a) = ok a
lifted (err e) = err (config_error e)

abbrev pub is_open : Text → Bool
is_open mode = is_empty mode || mode == codes "auto"

-- The first lines of `generateXboardConfig`.
unfoldable pub mode_of : XboardOptions → Text
unfolding normalize_node_mode
mode_of opts =
    let asked = normalize_node_mode opts.node_mode in
    let mode = if is_open asked then normalize_node_mode opts.panel_node_type else asked in
    if is_open mode then vless else mode

-- `fetch` is `FetchNodeConfig` of the client for a node id and a type.
module _ (files : Files) (fetch : Text → Text → Option NodeConfig) where
  -- The inbound of the node `id`.
  unfoldable pub fetched_inbound : XboardOptions → Text → Text → Result XboardError InboundConfig
  unfolding inbound_from_node_config default_listen
  fetched_inbound opts id node_type = do
    cfg ← lifted (fetched (fetch id node_type))
    lifted (inbound_from_node_config files cfg opts.files_out (default_listen cfg.listen_ip))

  -- The case of one node.
  abbrev pub one_inbound : XboardOptions → Text → Text → Result XboardError (List InboundConfig)
  one_inbound opts id node_type =
      if is_empty id
      then err missing_node_id
      else (fetched_inbound opts id node_type >>= (λ i. ok (i ∷ [])))

  -- The case of two nodes: both are fetched before an inbound is built.
  abbrev pub two_inbounds : XboardOptions → Text → Text → Result XboardError (List InboundConfig)
  two_inbounds opts vless_id hy2_id = do
    reject_if (is_empty vless_id || is_empty hy2_id) missing_node_id
    vless_cfg ← lifted (fetched (fetch vless_id (codes "vless")))
    hy2_cfg ← lifted (fetched (fetch hy2_id (codes "hysteria")))
    one ← lifted (
        inbound_from_node_config files vless_cfg opts.files_out
          (default_listen vless_cfg.listen_ip))
    two ←
        lifted
          (inbound_from_node_config files hy2_cfg opts.files_out (default_listen hy2_cfg.listen_ip))
    ok (one ∷ two ∷ [])

  abbrev pub inbounds_of : XboardOptions → Text → Result XboardError (List InboundConfig)
  inbounds_of opts mode =
      if mode == vless
      then one_inbound opts (first_non_empty (opts.vless_node_id ∷ opts.panel_node_id ∷ []))
          (codes "vless")
      else if mode == hy2
      then one_inbound opts (first_non_empty (opts.hy2_node_id ∷ opts.panel_node_id ∷ []))
          (codes "hysteria")
      else if mode == codes "both"
      then two_inbounds opts (first_non_empty (opts.vless_node_id ∷ opts.panel_node_id ∷ []))
          opts.hy2_node_id
      else err unknown_mode

  -- `generateXboardConfig`: the mode and the configuration.
  unfoldable pub generate_xboard_config : XboardOptions → Result XboardError (Text × SingBoxConfig)
  unfolding mode_of fetched_inbound first_non_empty build_sing_box_config_from_inbounds
  generate_xboard_config opts = do
    inbounds ← inbounds_of opts (mode_of opts)
    ok (mode_of opts, build_sing_box_config_from_inbounds inbounds)

  abbrev pub with_mode : XboardOptions → XboardOptions
  with_mode opts =
      let mode =
        if is_empty opts.node_mode && not (is_empty opts.panel_node_type)
        then normalize_node_mode opts.panel_node_type
        else opts.node_mode in
      record opts { node_mode = if is_empty mode then codes "vless" else mode }

  -- `runXboardGenerateConfig` on the options of the command line
  unfoldable pub run_xboard_generate_config :
      XboardOptions → Result XboardError (Text × SingBoxConfig)
  unfolding generate_xboard_config
  run_xboard_generate_config opts =
      if is_empty opts.panel_url || is_empty opts.panel_token || is_empty opts.files_out.out
      then err missing_options
      else generate_xboard_config (with_mode opts)
