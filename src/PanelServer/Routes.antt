-- ===== src/PanelServer/Routes.antt =====
-- panelserver/server.go: the router that `New` builds and `ServeHTTP`.
--
-- The patterns are those of net/http's `ServeMux`: GET stands for HEAD too, `GET /` is the pattern
-- for each path that no other pattern fits, and a request whose path fits patterns of other methods
-- only is answered 405. The path is the one that the mux compares, whose escaped characters are decoded
-- already; a path with an empty or dotted segment is not modelled, since the mux redirects it before.
use mini_sb_agent.Base.{
  ℕ, ◌+◌, Bool, false, not, ◌&&◌, ◌||◌, Option, none, some, [], ◌∷◌, ◌++◌, if◌then◌else◌, length,
  is_empty, ◌==◌, nat_eq, list_eq, pair_eq, lookup, Text, codes, has_prefix, drop,
}
use mini_sb_agent.Http.{HttpRequest, HttpReply}
use mini_sb_agent.Topology.{Topology}
use mini_sb_agent.PanelServer.Store.{Store, Agent, TrafficPushRequest}
use mini_sb_agent.PanelServer.Server.{
  Request, Response, Body, agent_topology, agent_traffic, admin_agents, admin_put_agent,
  admin_put_topology,
}

pub data Route : Type 0 where
  dashboard healthz get_topology post_traffic get_agents post_agent not_allowed : Route
  put_agent_topology : Text → Route

-- The segment before the first slash, and what follows that slash.
unfoldable pub split_slash : Text → Text × Option Text
split_slash [] = ([], none)
split_slash (c ∷ s) =
    let (first, rest) = split_slash s in if c == b'/' then ([], some s) else (c ∷ first, rest)

abbrev pub agents_path : Text
agents_path = codes "/api/v1/admin/agents"

abbrev is_text : Text → Option Text → Bool
is_text t none = false
is_text t (some s) = s == t

-- The `id` of `/api/v1/admin/agents/{id}/topology`, if the path is of this form.
unfoldable pub agent_of_path : Text → Option Text
unfolding split_slash has_prefix drop
agent_of_path path =
    let (id, rest) = split_slash (drop (length agents_path + 1) path) in
    if has_prefix path (agents_path ++ codes "/")
      && not (is_empty id)
      && is_text (codes "topology") rest
    then some id
    else none

abbrev pub is_get : Text → Bool
is_get method = method == codes "GET" || method == codes "HEAD"

-- The routes whose pattern has no wildcard but `/`.
unfoldable pub fixed_route : Text → Text → Route
fixed_route method path =
    if is_get method
    then (if path == codes "/healthz"
        then healthz
        else if path == codes "/api/v2/agent/topology"
        then get_topology
        else if path == agents_path
        then get_agents
        else dashboard)
    else if method == codes "POST" && path == codes "/api/v2/agent/traffic"
    then post_traffic
    else if method == codes "POST" && path == agents_path
    then post_agent
    else not_allowed

abbrev pub route_for : Text → Text → Option Text → Route
route_for method path none = fixed_route method path
route_for method path (some id) =
    if method == codes "PUT" then put_agent_topology id else fixed_route method path

-- The patterns of `New`.
unfoldable pub route : Text → Text → Route
unfolding agent_of_path fixed_route
route method path = route_for method path (agent_of_path path)

-- What encoding/json does for the server: the bodies that it reads, each of at most 1 MiB, and those
-- that it writes. `page` is the dashboard.
pub record Json (W : Type 0) : Type 0 where
  pub decode_traffic : W → Option TrafficPushRequest
  pub decode_agent : W → Option Agent
  pub decode_topology : W → Option Topology
  pub encode_body : Body → W
  pub status_ok : W
  pub page : W
  pub refusal : W

-- `Server`, with the digest of its store's entity tags.
pub record Server : Type 0 where
  pub admin_token : Text
  pub digest : Text → Text

abbrev pub header : Option Text → Text
header none = []
header (some value) = value

abbrev body_of : {W B : Type 0} → (W → Option B) → Option W → Option B
body_of decode none = none
body_of decode (some w) = decode w

module _ {W : Type 0} (json : Json W) (server : Server) where
  -- What the handlers read of a request.
  abbrev pub request_of : {B : Type 0} → (W → Option B) → HttpRequest W → Request B
  request_of decode r = record {
    authorization = header (lookup (codes "Authorization") r.headers);
    if_none_match = header (lookup (codes "If-None-Match") r.headers);
    idempotency_key = header (lookup (codes "Idempotency-Key") r.headers);
    body = body_of decode r.content;
  }

  abbrev pub reply_of : Response → HttpReply W
  reply_of r = record { status_code = r.status; content = json.encode_body r.body }

  abbrev pub answered : Response × Store → HttpReply W × Store
  answered (r, s) = (reply_of r, s)

  abbrev pub plain : ℕ → W → Store → HttpReply W × Store
  plain status w s = (record { status_code = status; content = w }, s)

  -- The handler of a route, at the time `now` and with the random revision that it may draw.
  unfoldable pub handle : Route → ℕ → Text → HttpRequest W → Store → HttpReply W × Store
  unfolding agent_topology agent_traffic admin_agents admin_put_agent admin_put_topology
  handle dashboard now revision r s = plain 200 json.page s
  handle healthz now revision r s = plain 200 json.status_ok s
  handle not_allowed now revision r s = plain 405 json.refusal s
  handle get_topology now revision r s =
      (reply_of (agent_topology (request_of json.decode_topology r) s), s)
  handle post_traffic now revision r s =
      answered (agent_traffic now (request_of json.decode_traffic r) s)
  handle get_agents now revision r s =
      (reply_of (admin_agents server.admin_token (request_of json.decode_agent r) s), s)
  handle post_agent now revision r s =
      answered (admin_put_agent server.admin_token now (request_of json.decode_agent r) s)
  handle (put_agent_topology id) now revision r s = answered (
      admin_put_topology server.admin_token server.digest revision now id
        (request_of json.decode_topology r) s)

  -- `ServeHTTP` for a request with the path `path`
  unfoldable pub serve_http : Text → ℕ → Text → HttpRequest W → Store → HttpReply W × Store
  unfolding route handle
  serve_http path now revision r s = handle (route r.method path) now revision r s
