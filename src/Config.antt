-- ===== src/Config.antt =====
-- cmd/mini-sb-agent/xboard_config.go: the inbounds of the configuration of the data path.
--
-- The source builds a tree of `map[string]any` that encoding/json prints; here each object with
-- fixed keys is a record.
pub mod Generate
pub mod Routes
pub mod Capabilities
pub mod Start
pub mod NodeApi
pub mod Xboard
pub mod Tuning
pub mod Reported
use mini_sb_agent.Base.{
  ℕ, zero, suc, ◌+◌, ◌-◌, ◌*◌, ◌/◌, ◌%◌, ◌^◌, ◌≤◌, ◌<◌, String, ◌≡◌, refl, sym, ap, ◌∙◌, ◌≢◌, ◌↔◌,
  ◌⊎◌, inl, inr, Bool, true, false, not, ◌&&◌, ◌||◌, Option, none, some, List, [], ◌∷◌, ◌++◌, map,
  append-nil, append_assoc, arith, ltb, leb, nat_beq, nat_beq_iff, if◌then◌else◌, Bool-cases,
  Option-cases, is_some, length, is_empty, all, any, keep, All, length-append, All-append, Result,
  ok, err, ◌>>=◌, ◌>>◌, reject_if, >>=-eq-ok, is_ok, Eq, ◌==◌, nat_eq, list_eq, pair_eq, list_beq,
  list_beq_iff, pair_beq, pair_beq_iff, Map, lookup, has, insert, delete, IsMap, lookup-insert,
  lookup-delete, beq_refl, insert-IsMap, delete-IsMap, select, answer, lookup-select, select-IsMap,
  word, half_word, add64, sub64, mul64, is_neg, is_pos, div64, lt64, Text, codes, is_space,
  drop_while, trim, trim_space, lower, to_lower, has_prefix, contains, ℤ, pos, negsuc, pos_part,
  neg_part, diff, ◌+ℤ◌, ◌-ℤ◌, ◌≤ℤ◌, ltb_ℤ, +ℤ_parts, -ℤ_parts, take, drop, length-take, length-drop,
  take-append-take-drop, take-take, take_all, trim_prefix, trim_right,
}
use mini_sb_agent.Topology.{
  OutboundSpec, NodeSpec, Topology, inbound_tag, outbound_tag, outbound_type, panel_node_type,
  one_of, vless, hysteria, hy2, vless_names, hysteria_names, shadowsocks_names, validate,
}
use mini_sb_agent.Panel.{is_numeric_user, atoi}

-- `NodeConfig` and `TLSSettings` of panelapi/node_config.go: the fields that are read.
pub record NodeConfig : Type 0 where
  pub protocol : Text
  pub listen_ip : Text
  pub server_port : ℕ
  pub version : ℕ
  pub server_name : Text
  pub up_mbps : ℕ
  pub down_mbps : ℕ
  pub obfs : Text
  pub obfs_password : Text
  pub tls_server_name : Text
  pub tls_server_port : Text
  pub private_key : Text
  pub short_id : Text

abbrev pub both_names : List Text
both_names = codes "both" ∷ codes "dual" ∷ codes "all" ∷ []

-- `normalizeNodeMode`
unfoldable pub normalize_node_mode : Text → Text
normalize_node_mode v =
    let mode = to_lower (trim_space v) in
    if one_of mode vless_names
    then vless
    else if one_of mode hysteria_names
    then hy2
    else if one_of mode both_names
    then codes "both"
    else mode

-- `norm` of `validateNodeProtocol`
unfoldable pub norm : Text → Text
norm p =
    let word = to_lower (trim_space p) in
    if one_of word vless_names then vless else if one_of word hysteria_names then hysteria else word

-- `validateNodeProtocol`
unfoldable pub validate_node_protocol : NodeSpec → NodeConfig → Bool
unfolding norm
validate_node_protocol n cfg = norm n.node_type == norm cfg.protocol

-- `firstNonEmpty`
unfoldable pub first_non_empty : List Text → Text
first_non_empty [] = []
first_non_empty (v ∷ vs) = if is_empty v then first_non_empty vs else v

-- `defaultListen`
unfoldable pub default_listen : Text → Text
default_listen listen = if is_empty listen then codes "::" else listen

pub data TlsConfig : Type 0 where
  reality : (handshake_port : ℕ) → (private_key : Text) → (short_ids : List Text) → TlsConfig
  certificate : (cert_path : Text) → (key_path : Text) → TlsConfig

-- An object of `inbounds`; a key that the source leaves out is `none`.
pub record InboundConfig : Type 0 where
  pub type : Text
  pub tag : Text
  pub listen : Text
  pub listen_port : ℕ
  pub tls_name : Text
  pub tls : TlsConfig
  pub up_limit : Option ℕ
  pub down_limit : Option ℕ
  pub obfuscation : Option (Text × Text)

abbrev number_of : Option ℕ → ℕ
number_of none = 443
number_of (some p) = if is_pos p then p else 443

abbrev without_plus : Text → Text
without_plus s = trim_prefix s (codes "+")

-- `handshakePort`: 443 unless `strconv.Atoi` reads a positive number.
unfoldable pub handshake_port : Text → ℕ
unfolding trim_prefix is_numeric_user atoi
handshake_port s =
    if is_numeric_user (without_plus s) then number_of (atoi (without_plus s)) else 443

pub data ConfigError : Type 0 where
  missing_port missing_private_key unsupported_version unsupported_protocol no_certificate :
      ConfigError
  invalid_topology fetch_failed protocol_mismatch : ConfigError

-- `vlessInboundFromNodeConfig`
unfoldable pub vless_inbound_from_node_config : NodeConfig → Text → Result ConfigError InboundConfig
unfolding handshake_port first_non_empty
vless_inbound_from_node_config cfg listen = do
  reject_if (not (is_pos cfg.server_port)) missing_port
  reject_if (is_empty cfg.private_key) missing_private_key
  ok (record {
    type = codes "vless";
    tag = codes "vless-in";
    listen = listen;
    listen_port = cfg.server_port;
    tls_name = first_non_empty (cfg.tls_server_name ∷ codes "www.microsoft.com" ∷ []);
    tls =
        reality (handshake_port cfg.tls_server_port) cfg.private_key
          (if is_empty cfg.short_id then [] else cfg.short_id ∷ []);
    up_limit = none;
    down_limit = none;
    obfuscation = none;
  })

-- `xboardGenerateOptions`: the fields that the inbounds read.
pub record GenerateOptions : Type 0 where
  pub out : Text
  pub cert_path : Text
  pub key_path : Text

-- The files: path/filepath's `Dir` and `Join`, and `ensureSelfSignedCert` as whether it succeeds for
-- a certificate path, a key path and a name.
pub record Files : Type 0 where
  pub dir : Text → Text
  pub join : Text → Text → Text
  pub ensure_self_signed_cert : Text → Text → Text → Bool

abbrev pub positive : ℕ → Option ℕ
positive n = if is_pos n then some n else none

module _ (files : Files) where
  abbrev pub path_or : Text → Text → Text → Text
  path_or path out name = if is_empty path then files.join (files.dir out) name else path

  -- `hy2InboundFromNodeConfig`
  unfoldable pub hy2_inbound_from_node_config :
      NodeConfig → GenerateOptions → Text → Result ConfigError InboundConfig
  unfolding first_non_empty
  hy2_inbound_from_node_config cfg opts listen =
      let cert = path_or opts.cert_path opts.out (codes "cert.pem") in
      let private = path_or opts.key_path opts.out (codes "key.pem") in
      let name = first_non_empty (cfg.server_name ∷ cfg.tls_server_name ∷ codes "bing.com" ∷ []) in
      reject_if (not (is_pos cfg.server_port)) missing_port
      >> reject_if (not (files.ensure_self_signed_cert cert private name)) no_certificate
      >> ok (record {
        type = codes "hysteria2";
        tag = codes "hy2-in";
        listen = listen;
        listen_port = cfg.server_port;
        tls_name = name;
        tls = certificate cert private;
        up_limit = positive cfg.up_mbps;
        down_limit = positive cfg.down_mbps;
        obfuscation =
            if is_empty cfg.obfs || is_empty cfg.obfs_password
            then none
            else some (cfg.obfs, cfg.obfs_password);
      })

  abbrev pub hysteria_protocols : List Text
  hysteria_protocols = codes "hysteria" ∷ codes "hysteria2" ∷ []

  -- `inboundFromNodeConfig`
  unfoldable pub inbound_from_node_config :
      NodeConfig → GenerateOptions → Text → Result ConfigError InboundConfig
  unfolding vless_inbound_from_node_config hy2_inbound_from_node_config
  inbound_from_node_config cfg opts listen =
      let protocol = to_lower cfg.protocol in
      if protocol == codes "vless"
      then vless_inbound_from_node_config cfg listen
      else if one_of protocol hysteria_protocols
      then (reject_if (not (nat_beq cfg.version 0 || nat_beq cfg.version 2)) unsupported_version
          >> hy2_inbound_from_node_config cfg opts listen)
      else err unsupported_protocol
