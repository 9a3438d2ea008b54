-- ===== src/Topology.antt =====
-- panelapi/topology.go: nodes, their identities and tags, and the check of a topology.
pub mod Valid
use mini_sb_agent.Base.{
  ℕ, zero, suc, ◌+◌, ◌-◌, ◌*◌, ◌/◌, ◌%◌, ◌^◌, ◌≤◌, ◌<◌, String, ◌≡◌, refl, sym, ap, ◌∙◌, ◌≢◌, ◌↔◌,
  ◌⊎◌, inl, inr, Bool, true, false, not, ◌&&◌, ◌||◌, Option, none, some, List, [], ◌∷◌, ◌++◌, map,
  append-nil, append_assoc, arith, ltb, leb, nat_beq, nat_beq_iff, if◌then◌else◌, Bool-cases,
  Option-cases, is_some, length, is_empty, all, any, keep, All, length-append, All-append, Result,
  ok, err, ◌>>=◌, ◌>>◌, reject_if, >>=-eq-ok, is_ok, Eq, ◌==◌, nat_eq, list_eq, pair_eq, list_beq,
  list_beq_iff, pair_beq, pair_beq_iff, Map, lookup, has, insert, delete, IsMap, lookup-insert,
  lookup-delete, beq_refl, insert-IsMap, delete-IsMap, select, answer, lookup-select, select-IsMap,
  word, half_word, add64, sub64, mul64, is_neg, is_pos, div64, lt64, Text, codes, is_space,
  drop_while, trim, trim_space, lower, to_lower, has_prefix, contains, ℤ, pos, negsuc, pos_part,
  neg_part, diff, ◌+ℤ◌, ◌-ℤ◌, ◌≤ℤ◌, ltb_ℤ, +ℤ_parts, -ℤ_parts, take, drop, length-take, length-drop,
  take-append-take-drop, take-take, take_all,
}

pub record OutboundSpec : Type 0 where
  pub type : Text
  pub server : Text
  pub server_port : ℕ
  pub method : Text
  pub password : Text
  pub plugin : Text
  pub plugin_opts : Text

pub record NodeSpec : Type 0 where
  pub node_id : Text
  pub node_type : Text
  pub tag : Text
  pub outbound : OutboundSpec

pub record Topology : Type 0 where
  pub nodes : List NodeSpec

abbrev pub vless : Text
vless = codes "vless"

abbrev pub hysteria : Text
hysteria = codes "hysteria"

abbrev pub hy2 : Text
hy2 = codes "hy2"

-- `slices` of alternatives in a `switch`
unfoldable pub one_of : Text → List Text → Bool
one_of s [] = false
one_of s (t ∷ ts) = s == t || one_of s ts

abbrev pub vless_names : List Text
vless_names = codes "vless" ∷ codes "vless-reality" ∷ codes "reality" ∷ []

abbrev pub hysteria_names : List Text
hysteria_names = codes "hy2" ∷ codes "hysteria" ∷ codes "hysteria2" ∷ []

-- `normalizeNodeType`, with `strings.ToLower` on the letters of ASCII.
unfoldable pub normalize_node_type : Text → Text
normalize_node_type node_type =
    let word = to_lower (trim_space node_type) in
    if one_of word vless_names then vless else if one_of word hysteria_names then hysteria else word

-- The characters that `tagUnsafe` leaves alone.
unfoldable pub is_tag_safe : ℕ → Bool
is_tag_safe c =
    (leb b'a' c && leb c b'z')
    || (leb b'A' c && leb c b'Z')
    || (leb b'0' c && leb c b'9')
    || c == b'_'
    || c == b'-'

-- `tagUnsafe.ReplaceAllString(_, "-")`: each run of other characters becomes one dash. The first
-- argument says whether the character before was of such a run.
unfoldable pub replace_unsafe : Bool → Text → Text
unfolding is_tag_safe
replace_unsafe in_run [] = []
replace_unsafe in_run (c ∷ s) =
    let rest = replace_unsafe (not (is_tag_safe c)) s in
    if is_tag_safe c then c ∷ rest else if in_run then rest else b'-' ∷ rest

-- `safeTagPart`
unfoldable pub safe_tag_part : Text → Text
unfolding replace_unsafe trim trim_space
safe_tag_part value = trim (λ c. c == b'-') (replace_unsafe false (trim_space value))

-- `validateNodeID`
unfoldable pub is_valid_node_id : Text → Bool
unfolding trim_space contains
is_valid_node_id value =
    let id = trim_space value in
    not (
      is_empty id
      || contains id (codes "/")
      || contains id (codes "\\")
      || contains id (codes ".."))

-- `NodeKey`
unfoldable pub node_key : Text → Text → Text
node_key node_type node_id = normalize_node_type node_type ++ (b':' ∷ trim_space node_id)

-- `NodeSpec.Key`
abbrev pub key : NodeSpec → Text
key n = node_key n.node_type n.node_id

-- the protocol as it stands in tags
abbrev pub tag_protocol : Text → Text
tag_protocol node_type =
    let protocol = normalize_node_type node_type in if protocol == hysteria then hy2 else protocol

-- `NodeSpec.InboundTag`
unfoldable pub inbound_tag : NodeSpec → Text
inbound_tag n =
    let tag = safe_tag_part n.tag in
    if not (is_empty tag)
    then tag
    else tag_protocol n.node_type ++ (codes "-" ++ (safe_tag_part n.node_id ++ codes "-in"))

-- `NodeSpec.OutboundTag`
unfoldable pub outbound_tag : NodeSpec → Text
outbound_tag n =
    codes "node-"
    ++ (tag_protocol n.node_type ++ (codes "-" ++ (safe_tag_part n.node_id ++ codes "-out")))

-- `NodeSpec.PanelNodeType`
unfoldable pub panel_node_type : NodeSpec → Text
panel_node_type n = if normalize_node_type n.node_type == hysteria then hysteria else vless

pub data TopologyError : Type 0 where
  no_nodes : TopologyError
  unsafe_node_id unsupported_node_type bad_shadowsocks unsupported_outbound : ℕ → TopologyError
  duplicate_key duplicate_inbound_tag duplicate_outbound_tag : Text → TopologyError

-- `strings.ToLower(strings.TrimSpace(node.Outbound.Type))`
abbrev pub outbound_type : OutboundSpec → Text
outbound_type o = to_lower (trim_space o.type)

abbrev pub shadowsocks_names : List Text
shadowsocks_names = codes "shadowsocks" ∷ codes "ss" ∷ []

unfoldable pub has_shadowsocks_fields : OutboundSpec → Bool
has_shadowsocks_fields o = not (
    is_empty o.server
    || not (is_pos o.server_port)
    || ltb 65535 o.server_port
    || is_empty o.method
    || is_empty o.password)

-- The last `switch` of `Validate`.
unfoldable pub check_outbound : ℕ → OutboundSpec → Result TopologyError Unit
unfolding has_shadowsocks_fields
check_outbound i o =
    if outbound_type o == codes "direct"
    then ok tt
    else if one_of (outbound_type o) shadowsocks_names
    then reject_if (not (has_shadowsocks_fields o)) (bad_shadowsocks i)
    else err (unsupported_outbound i)

abbrev pub is_supported_type : Text → Bool
is_supported_type node_type = one_of (normalize_node_type node_type) (vless ∷ hysteria ∷ [])

-- The three `seen` maps of `Validate`.
pub record Seen : Type 0 where
  pub keys : Map Text (Unit {0})
  pub tags : Map Text (Unit {0})
  pub outbound_tags : Map Text (Unit {0})

-- The body of the loop of `Validate` for node `i`.
unfoldable pub check_node : ℕ → NodeSpec → Seen → Result TopologyError Seen
check_node i n seen = do
  reject_if (not (is_valid_node_id n.node_id)) (unsafe_node_id i)
  reject_if (not (is_supported_type n.node_type)) (unsupported_node_type i)
  reject_if (has (key n) seen.keys) (duplicate_key (key n))
  reject_if (has (inbound_tag n) seen.tags) (duplicate_inbound_tag (inbound_tag n))
  reject_if (has (outbound_tag n) seen.outbound_tags) (duplicate_outbound_tag (outbound_tag n))
  check_outbound i n.outbound
  ok (record {
    keys = insert (key n) tt seen.keys;
    tags = insert (inbound_tag n) tt seen.tags;
    outbound_tags = insert (outbound_tag n) tt seen.outbound_tags;
  })

unfoldable pub check_nodes : ℕ → List NodeSpec → Seen → Result TopologyError Unit
unfolding check_node
check_nodes i [] seen = ok tt
check_nodes i (n ∷ ns) seen = check_node i n seen >>= check_nodes (i + 1) ns

-- `Topology.Validate`
unfoldable pub validate : Topology → Result TopologyError Unit
unfolding check_nodes
validate t =
    if is_empty t.nodes
    then err no_nodes
    else check_nodes 0 t.nodes (record { keys = []; tags = []; outbound_tags = [] })
