-- ===== src/Config/Reported.antt =====
-- Which clients report the traffic of the inbounds that cmd/mini-sb-agent/xboard_config.go generates.
use mini_sb_agent.Base.{
  ◌≡◌, refl, ◌⊎◌, inl, inr, not, ◌||◌, Option, List, [], ◌∷◌, arith, nat_beq, Bool-cases, is_empty,
  any, All, Result, ok, err, ◌>>=◌, reject_if, ◌==◌, nat_eq, list_eq, pair_eq, list_beq, is_pos,
  Text, codes, to_lower,
}
use mathlib.Core.Path.{subst}
use mini_sb_agent.Topology.{vless, hy2, one_of}
use mini_sb_agent.Panel.{matches_inbound}
use mini_sb_agent.Config.{
  NodeConfig, InboundConfig, GenerateOptions, Files, ConfigError, missing_port, missing_private_key,
  unsupported_version, vless_inbound_from_node_config, hy2_inbound_from_node_config,
  inbound_from_node_config, hysteria_protocols, default_listen, first_non_empty, path_or,
}
use mini_sb_agent.Config.Generate.{SingBoxConfig, build_sing_box_config_from_inbounds, fetched}
use mini_sb_agent.Config.NodeApi.{new_client}
use mini_sb_agent.Config.Xboard.{
  XboardOptions, XboardError, lifted, mode_of, fetched_inbound, one_inbound, two_inbounds,
  inbounds_of, generate_xboard_config, with_mode, run_xboard_generate_config, missing_node_id,
}

-- A result, if there is one, has the property.
abbrev pub IfOk : {E A : Type 0} → (A → Type 0) → Result E A → Type 0
IfOk P (ok a) = P a
IfOk P (err e) = Unit

bind-IfOk :
    {E A B : Type 0} (P : A → Type 0) (Q : B → Type 0) (r : Result E A) (next : A → Result E B)
    → IfOk P r
    → ((a : A) → P a → IfOk Q (next a))
    → IfOk Q (r >>= next)
bind-IfOk P Q (ok a) next h k = k a h
bind-IfOk P Q (err e) next h k = tt

any-IfOk : {E A : Type 0} (r : Result E A) → IfOk (λ a. Unit {0}) r
any-IfOk (ok a) = tt
any-IfOk (err e) = tt

lifted-IfOk :
    {A : Type 0} (P : A → Type 0) (r : Result ConfigError A) → IfOk P r → IfOk P (lifted r)
lifted-IfOk P (ok a) h = h
lifted-IfOk P (err e) h = tt

-- The inbound is of one of the two protocols, under the tag of this protocol.
abbrev pub HasOwnTag : InboundConfig → Type 0
HasOwnTag i =
    ((i.type ≡ codes "vless") × (i.tag ≡ codes "vless-in"))
    ⊎ ((i.type ≡ codes "hysteria2") × (i.tag ≡ codes "hy2-in"))

vless_inbound-HasOwnTag :
    (cfg : NodeConfig) (listen : Text) → IfOk HasOwnTag (vless_inbound_from_node_config cfg listen)
unfolding vless_inbound_from_node_config
vless_inbound-HasOwnTag cfg listen =
    bind-IfOk (λ u. Unit {0}) HasOwnTag (reject_if (not (is_pos cfg.server_port)) missing_port) _
      (any-IfOk _)
      (λ u t.
        bind-IfOk (λ u'. Unit {0}) HasOwnTag
          (reject_if (is_empty cfg.private_key) missing_private_key) _ (any-IfOk _)
          (λ u' t'. inl (refl, refl)))

module _ (files : Files) where
  hy2_inbound-HasOwnTag :
      (cfg : NodeConfig) (opts : GenerateOptions) (listen : Text)
      → IfOk HasOwnTag (hy2_inbound_from_node_config files cfg opts listen)
  unfolding hy2_inbound_from_node_config
  hy2_inbound-HasOwnTag cfg opts listen =
      let cert = path_or files opts.cert_path opts.out (codes "cert.pem") in
      let private = path_or files opts.key_path opts.out (codes "key.pem") in
      let name = first_non_empty (cfg.server_name ∷ cfg.tls_server_name ∷ codes "bing.com" ∷ []) in
      elim (Bool-cases (not (is_pos cfg.server_port))) [
        | inl no_port ↦ rw no_port tt
        | inr port ↦ elim (Bool-cases (not (files.ensure_self_signed_cert cert private name))) [
          | inl no_cert ↦ rw (port, no_cert) tt
          | inr certified ↦ rw (port, certified) (inr (refl, refl))
        ]
      ]

  inbound-HasOwnTag :
      (cfg : NodeConfig) (opts : GenerateOptions) (listen : Text)
      → IfOk HasOwnTag (inbound_from_node_config files cfg opts listen)
  unfolding inbound_from_node_config
  inbound-HasOwnTag cfg opts listen = elim (Bool-cases (to_lower cfg.protocol == codes "vless")) [
    | inl is_vless ↦ rw is_vless (vless_inbound-HasOwnTag cfg listen)
    | inr other ↦ elim (Bool-cases (one_of (to_lower cfg.protocol) (hysteria_protocols files))) [
      | inl is_hysteria ↦
          rw (other, is_hysteria)
            (bind-IfOk (λ u. Unit {0}) HasOwnTag
              (reject_if (not (nat_beq cfg.version 0 || nat_beq cfg.version 2)) unsupported_version)
              _ (any-IfOk _) (λ u t. hy2_inbound-HasOwnTag cfg opts listen))
      | inr unknown ↦ rw (other, unknown) tt
    ]
  ]

  module _ (fetch : Text → Text → Option NodeConfig) where
    node_inbound-HasOwnTag :
        (cfg : NodeConfig) (opts : XboardOptions)
        → IfOk HasOwnTag (
            lifted
              (inbound_from_node_config files cfg opts.files_out (default_listen cfg.listen_ip)))
    node_inbound-HasOwnTag cfg opts =
        lifted-IfOk HasOwnTag _
          (inbound-HasOwnTag cfg opts.files_out (default_listen cfg.listen_ip))

    one_inbound-HasOwnTag :
        (opts : XboardOptions) (id node_type : Text)
        → IfOk (All HasOwnTag) (one_inbound files fetch opts id node_type)
    unfolding fetched_inbound
    one_inbound-HasOwnTag opts id node_type = elim (Bool-cases (is_empty id)) [
      | inl missing ↦ rw missing tt
      | inr given ↦ rw given (
          bind-IfOk HasOwnTag (All HasOwnTag) (fetched_inbound files fetch opts id node_type) _
            (bind-IfOk (λ cfg. Unit {0}) HasOwnTag (lifted (fetched (fetch id node_type))) _
              (any-IfOk _) (λ cfg t. node_inbound-HasOwnTag cfg opts))
            (λ i h. (h, tt)))
    ]

    two_inbounds-HasOwnTag :
        (opts : XboardOptions) (vless_id hy2_id : Text)
        → IfOk (All HasOwnTag) (two_inbounds files fetch opts vless_id hy2_id)
    two_inbounds-HasOwnTag opts vless_id hy2_id =
        bind-IfOk (λ u. Unit {0}) (All HasOwnTag)
          (reject_if (is_empty vless_id || is_empty hy2_id) missing_node_id) _ (any-IfOk _)
          (λ u t.
            bind-IfOk (λ c. Unit {0}) (All HasOwnTag)
              (lifted (fetched (fetch vless_id (codes "vless")))) _ (any-IfOk _)
              (λ one t'.
                bind-IfOk (λ c. Unit {0}) (All HasOwnTag)
                  (lifted (fetched (fetch hy2_id (codes "hysteria")))) _ (any-IfOk _)
                  (λ two t''.
                    bind-IfOk HasOwnTag (All HasOwnTag) _ _ (node_inbound-HasOwnTag one opts)
                      (λ i h.
                        bind-IfOk HasOwnTag (All HasOwnTag) _ _ (node_inbound-HasOwnTag two opts)
                          (λ j k. (h, (k, tt)))))))

    inbounds_of-HasOwnTag :
        (opts : XboardOptions) (mode : Text)
        → IfOk (All HasOwnTag) (inbounds_of files fetch opts mode)
    inbounds_of-HasOwnTag opts mode =
        let vless_id = first_non_empty (opts.vless_node_id ∷ opts.panel_node_id ∷ []) in
        let hy2_id = first_non_empty (opts.hy2_node_id ∷ opts.panel_node_id ∷ []) in
        elim (Bool-cases (mode == vless)) [
          | inl one ↦ rw one (one_inbound-HasOwnTag opts vless_id (codes "vless"))
          | inr not_one ↦ elim (Bool-cases (mode == hy2)) [
            | inl two ↦ rw (not_one, two) (one_inbound-HasOwnTag opts hy2_id (codes "hysteria"))
            | inr not_two ↦ elim (Bool-cases (mode == codes "both")) [
              | inl both ↦
                  rw (not_one, not_two, both)
                    (two_inbounds-HasOwnTag opts vless_id opts.hy2_node_id)
              | inr none_of ↦ rw (not_one, not_two, none_of) tt
            ]
          ]
        ]

    generate-HasOwnTag :
        (opts : XboardOptions)
        → IfOk (λ r. All HasOwnTag r.1.inbounds) (generate_xboard_config files fetch opts)
    unfolding generate_xboard_config build_sing_box_config_from_inbounds
    generate-HasOwnTag opts =
        bind-IfOk (All HasOwnTag) (λ r. All HasOwnTag r.1.inbounds)
          (inbounds_of files fetch opts (mode_of opts)) _
          (inbounds_of-HasOwnTag opts (mode_of opts)) (λ inbounds h. h)

-- The inbound is of VLESS or of Hysteria2; the client of a VLESS node reports its traffic exactly in
-- the first case, and the client of a Hysteria2 node exactly in the second.
abbrev pub IsReported : Text → Text → Text → Text → InboundConfig → Type 0
IsReported base_url token node_id hy2_node_id i =
    ((i.type ≡ codes "vless") ⊎ (i.type ≡ codes "hysteria2"))
    × (matches_inbound (new_client base_url token node_id (codes "vless")) i.tag
        ≡ (i.type == codes "vless"))
    × (matches_inbound (new_client base_url token hy2_node_id (codes "hysteria")) i.tag
        ≡ (i.type == codes "hysteria2"))

HasOwnTag-IsReported :
    (base_url token node_id hy2_node_id : Text) (i : InboundConfig)
    → HasOwnTag i
    → IsReported base_url token node_id hy2_node_id i
unfolding matches_inbound one_of to_lower list_beq new_client any
HasOwnTag-IsReported base_url token node_id hy2_node_id i (inl (p, e)) =
    (inl p, rw (e, p) refl, rw (e, p) refl)
HasOwnTag-IsReported base_url token node_id hy2_node_id i (inr (p, e)) =
    (inr p, rw (e, p) refl, rw (e, p) refl)

All-map :
    {A : Type 0} (P Q : A → Type 0) (xs : List A) → ((x : A) → P x → Q x) → All P xs → All Q xs
All-map P Q [] f h = tt
All-map P Q (x ∷ xs) f h = (f x h.0, All-map P Q xs f h.1)

-- Each inbound of a configuration that the command generates, in any mode and from any answers of the
-- panel, is of VLESS or of Hysteria2. The agent's client of a VLESS node reports its traffic exactly if
-- it is of VLESS, and the client of a Hysteria2 node exactly if it is of Hysteria2: no inbound is
-- reported by both, and one whose protocol is not that of the node asked for is not reported by that
-- node's client.
pub run_xboard_generate_config-IsReported :
    (files : Files) (fetch : Text → Text → Option NodeConfig) (opts : XboardOptions) (mode : Text)
    (c : SingBoxConfig) (base_url token node_id hy2_node_id : Text)
    → run_xboard_generate_config files fetch opts ≡ ok (mode, c)
    → All (IsReported base_url token node_id hy2_node_id) c.inbounds
unfolding run_xboard_generate_config
run_xboard_generate_config-IsReported files fetch opts mode c base_url token node_id hy2_node_id e =
    elim (Bool-cases
      (is_empty opts.panel_url || is_empty opts.panel_token || is_empty opts.files_out.out)) [
        | inl missing ↦ absurd (ground (arith, missing, e))
        | inr given ↦
            let made : generate_xboard_config files fetch (with_mode files fetch opts)
                ≡ ok (mode, c) =
              rw (given, run_xboard_generate_config) at e in
            let tags : All HasOwnTag c.inbounds =
              subst (IfOk {E = XboardError} (λ r. All HasOwnTag r.1.inbounds)) made
                (generate-HasOwnTag files fetch (with_mode files fetch opts)) in
            All-map HasOwnTag (IsReported base_url token node_id hy2_node_id) c.inbounds
              (λ i h. HasOwnTag-IsReported base_url token node_id hy2_node_id i h) tags
      ]
