-- ===== src/Config/Capabilities.antt =====
-- cmd/mini-sb-agent/capabilities.go: which topologies a build can run.
use mini_sb_agent.Base.{
  ℕ, ◌+◌, ◌≡◌, Bool, true, not, ◌&&◌, ◌||◌, List, [], ◌∷◌, ◌++◌, map, arith, leb, nat_beq,
  if◌then◌else◌, all, ◌==◌, nat_eq, list_eq, pair_eq, word, Text, codes,
}
use mini_sb_agent.Topology.{NodeSpec, Topology, panel_node_type, vless}

-- `BuildCapabilities`
pub record BuildCapabilities : Type 0 where
  pub build_id : Text
  pub vless_inbound : Bool
  pub hysteria2_inbound : Bool
  pub shadowsocks_outbound : Bool
  pub direct_outbound : Bool
  pub user_rate_limit : Bool
  pub tun_inbound : Bool

-- The constants that the build tags choose, such as `vlessBuildEnabled`.
pub record BuildTags : Type 0 where
  pub vless_build_enabled : Bool
  pub hysteria2_build_enabled : Bool
  pub shadowsocks_outbound_build_enabled : Bool
  pub user_rate_limit_build_enabled : Bool
  pub tun_build_enabled : Bool

abbrev part_if : Bool → Text → List Text
part_if enabled part = if enabled then part ∷ [] else []

-- `strings.Join` with a dash
abbrev join_dash : List Text → Text
join_dash [] = []
join_dash (p ∷ []) = p
join_dash (p ∷ q ∷ ps) = p ++ (b'-' ∷ join_dash (q ∷ ps))

-- `currentBuildCapabilities`
unfoldable pub current_build_capabilities : BuildTags → BuildCapabilities
current_build_capabilities tags = record {
  build_id = join_dash (
      part_if tags.vless_build_enabled (codes "vless")
      ++ (part_if tags.hysteria2_build_enabled (codes "hy2")
          ++ (codes "direct" ∷ part_if tags.shadowsocks_outbound_build_enabled (codes "ss"))));
  vless_inbound = tags.vless_build_enabled;
  hysteria2_inbound = tags.hysteria2_build_enabled;
  shadowsocks_outbound = tags.shadowsocks_outbound_build_enabled;
  direct_outbound = true;
  user_rate_limit = tags.user_rate_limit_build_enabled;
  tun_inbound = tags.tun_build_enabled;
}

-- The lower-case ASCII letter that a letter folds to, if any.
abbrev pub fold : ℕ → ℕ
fold c =
    if leb b'A' c && leb c b'Z'
    then c + 32
    else if nat_beq c 0x17f
    then b's'
    else if nat_beq c 0x212a
    then b'k'
    else c

-- `strings.EqualFold` with a lower-case ASCII word
abbrev pub equal_fold : Text → Text → Bool
equal_fold s word = map fold s == word

-- The body of the loop of `validateTopologyCapabilities`.
unfoldable pub has_capabilities : BuildCapabilities → NodeSpec → Bool
has_capabilities caps n =
    (if panel_node_type n == vless then caps.vless_inbound else caps.hysteria2_inbound)
    && (not (
          equal_fold n.outbound.type (codes "shadowsocks")
          || equal_fold n.outbound.type (codes "ss"))
        || caps.shadowsocks_outbound)

-- `validateTopologyCapabilities`
unfoldable pub validate_topology_capabilities : Topology → BuildCapabilities → Bool
unfolding has_capabilities
validate_topology_capabilities t caps = all (has_capabilities caps) t.nodes

-- The build id tells builds apart by their protocols.
build_id-injective :
    (s t : BuildTags)
    → (current_build_capabilities s).build_id ≡ (current_build_capabilities t).build_id
    → (s.vless_build_enabled ≡ t.vless_build_enabled)
      × (s.hysteria2_build_enabled ≡ t.hysteria2_build_enabled)
      × (s.shadowsocks_outbound_build_enabled ≡ t.shadowsocks_outbound_build_enabled)
unfolding current_build_capabilities
build_id-injective s t e = ground (arith, e)
