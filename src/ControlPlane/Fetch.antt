-- ===== src/ControlPlane/Fetch.antt =====
-- `FetchTopology` of panelapi/control_plane.go against the panel server: what was published arrives.
use mini_sb_agent.Base.{
  ℕ, ◌≡◌, refl, ap, ◌∙◌, inl, inr, false, Option, none, some, [], ◌∷◌, ◌++◌, if◌then◌else◌,
  Bool-cases, is_empty, ok, ◌==◌, nat_eq, list_eq, pair_eq, list_beq, Map, lookup, insert, Text,
  codes, trim_space, has_prefix, drop,
}
use mini_sb_agent.Topology.Valid.{validate_iff}
use mini_sb_agent.PanelServer.Store.{Store, Agent, TopologyRecord, find_secret}
use mini_sb_agent.PanelServer.Store.Published.{IsPublished, AllPublished}
use mini_sb_agent.PanelServer.Server.{
  TopologyResponse, Request, topology_response, bearer, agent_topology, topology_answer,
}
use mini_sb_agent.PanelServer.Routes.{
  Json, header, Server, get_topology, serve_http, request_of, reply_of, route, agent_of_path,
  fixed_route, handle, split_slash,
}
use mini_sb_agent.ControlPlane.{
  ControlPlaneClient, request_headers, copy_headers, set_header, topology_path, topology_request,
  read_topology, check_topology, fetch_with, fetch_topology,
}
use mini_sb_agent.ControlPlane.Wire.{
  delivered, exchange, arrived, carried, header-carried, bearer-append,
}
use mini_sb_agent.ControlPlane.Delivery.{StandsFor}

-- What the server tells of a record.
abbrev pub response_of : TopologyRecord → TopologyResponse
response_of r = record { schema_version = 1; revision = r.revision; topology = r.topology }

-- The headers of a fetch by a client with a token.
abbrev fetch_headers : ControlPlaneClient → Map Text Text
fetch_headers c =
    set_header (codes "X-Agent-ID") c.agent_id
      ((codes "Authorization", codes "Bearer " ++ c.token) ∷ [])

request_headers-fetch_headers :
    (c : ControlPlaneClient)
    → is_empty c.base_url ≡ false
    → is_empty c.token ≡ false
    → request_headers c [] ≡ ok (fetch_headers c)
unfolding request_headers copy_headers insert list_beq
request_headers-fetch_headers c b t = rw (b, t) refl

lookup-fetch_headers :
    (c : ControlPlaneClient) (etag : Text)
    → let headers = set_header (codes "If-None-Match") etag (fetch_headers c) in
      (lookup (codes "Authorization") headers ≡ some (codes "Bearer " ++ c.token))
      × (header (lookup (codes "If-None-Match") headers) ≡ etag)
unfolding insert lookup list_beq
lookup-fetch_headers c [] = elim (Bool-cases (is_empty c.agent_id)) [
  | inl unnamed ↦ rw unnamed (refl, refl)
  | inr named ↦ rw named (refl, refl)
]
lookup-fetch_headers c (x ∷ etag) = elim (Bool-cases (is_empty c.agent_id)) [
  | inl unnamed ↦ rw unnamed (refl, refl)
  | inr named ↦ rw named (refl, refl)
]

check_topology-response_of :
    (r : TopologyRecord)
    → IsPublished r
    → is_empty (trim_space r.revision) ≡ false
    → check_topology (response_of r) ≡ ok (some (response_of r))
unfolding check_topology
check_topology-response_of r h named = rw (named, (validate_iff r.topology).1 h.valid) refl

agent_topology-known :
    {B : Type 0} (r : Request B) (s : Store) (token : Text) (x : Agent)
    → r.authorization ≡ codes "Bearer " ++ token
    → trim_space token ≡ token
    → find_secret token s.agents ≡ some x
    → agent_topology r s ≡ topology_answer r.if_none_match (lookup x.id s.topologies)
unfolding agent_topology
agent_topology-known r s token x auth trimmed found =
    let shown : bearer r.authorization ≡ token = ap bearer auth ∙ bearer-append token trimmed in
    rw (shown, found, agent_topology) refl

module _ {W : Type 0} (json : Json W) (server : Server) (path_of : Text → Text)
    (decode : W → Option TopologyResponse) (c : ControlPlaneClient) where
  -- The client has a URL and a token with no blank around it, and its URL leads to the server.
  pub record CanFetch : Type 0 where
    pub has_url : is_empty c.base_url ≡ false
    pub has_token : is_empty c.token ≡ false
    pub trimmed : trim_space c.token ≡ c.token
    pub bearer_trimmed : trim_space (codes "Bearer " ++ c.token) ≡ codes "Bearer " ++ c.token
    pub path : path_of (c.base_url ++ topology_path) ≡ topology_path

  topology_route : route (codes "GET") topology_path ≡ get_topology
  unfolding route agent_of_path split_slash fixed_route has_prefix drop list_beq
  topology_route = refl

  serve-fetch :
      (a etag : Text) (now : ℕ) (revision : Text) (s : Store)
      → CanFetch
      → StandsFor c.token a s
      → trim_space etag ≡ etag
      → let r = topology_request {W = W} c etag (fetch_headers c) in
        arrived json server path_of now revision r s
        ≡ (reply_of json server (topology_answer etag (lookup a s.topologies)), s)
  unfolding serve_http handle
  serve-fetch a etag now revision s h (x, found, same) plain_etag =
      let (auth, inm) = lookup-fetch_headers c etag in
      let headers = set_header (codes "If-None-Match") etag (fetch_headers c) in
      let r =
        request_of json server json.decode_topology
          (record (topology_request {W = W} c etag (fetch_headers c)) {
            headers = carried headers;
          }) in
      let auth' : r.authorization ≡ codes "Bearer " ++ c.token =
        header-carried (codes "Authorization") headers
        ∙ (ap (λ o. trim_space (header o)) auth ∙ h.bearer_trimmed) in
      let inm' : r.if_none_match ≡ etag =
        header-carried (codes "If-None-Match") headers ∙ (ap trim_space inm ∙ plain_etag) in
      let known : agent_topology r s ≡ topology_answer r.if_none_match (lookup x.id s.topologies) =
        agent_topology-known r s c.token x auth' h.trimmed found in
      rw (h.path, topology_route, known, same, inm') refl

  reply_read :
      (etag : Text) (r : TopologyRecord)
      → IsPublished r
      → is_empty (trim_space r.revision) ≡ false
      → decode (json.encode_body (topology_response (response_of r))) ≡ some (response_of r)
      → read_topology decode (some (reply_of json server (topology_answer etag (some r))))
        ≡ ok (if etag == r.etag then none else some (response_of r))
  unfolding read_topology
  reply_read etag r h named back = elim (Bool-cases (etag == r.etag)) [
    | inl same ↦ rw same refl
    | inr other ↦ rw (other, back) (check_topology-response_of r h named)
  ]

  -- Over a wire that loses nothing a connected client, whose token stands for an agent, fetches what
  -- the store holds for this agent: the record's revision and topology, or `none` if it names the
  -- record's entity tag already. This holds for a store whose topologies are published, a revision
  -- with a printed character, an entity tag with no blank around it, and a client that decodes the
  -- encoded answer; the store stays as it is.
  pub fetch_topology-round_trip :
      (a etag : Text) (now : ℕ) (revision : Text) (s : Store) (r : TopologyRecord)
      → CanFetch
      → StandsFor c.token a s
      → trim_space etag ≡ etag
      → AllPublished s.topologies
      → lookup a s.topologies ≡ some r
      → is_empty (trim_space r.revision) ≡ false
      → decode (json.encode_body (topology_response (response_of r))) ≡ some (response_of r)
      → fetch_topology (exchange json server path_of delivered now revision) decode c etag s
        ≡ (ok (if etag == r.etag then none else some (response_of r)), s)
  unfolding fetch_topology exchange
  fetch_topology-round_trip a etag now revision s r h k plain_etag published at named back =
      let send = exchange json server path_of delivered now revision in
      let sent = request_headers-fetch_headers c h.has_url h.has_token in
      let start : fetch_topology send decode c etag s
          ≡ fetch_with send decode c etag (request_headers c []) s =
        refl in
      start
      ∙ rw
          (
            sent,
            serve-fetch a etag now revision s h k plain_etag,
            at,
            reply_read etag r (published a r at) named back,
          )
          refl
