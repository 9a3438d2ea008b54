-- ===== src/PanelServer/Server.antt =====
-- panelserver/server.go: the handlers as functions of a request and the store.
--
-- The router, the encoding of the answers and the decoding of the bodies are net/http's and
-- encoding/json's: a request holds its decoded body, `none` if it is not valid JSON of at most
-- 1 MiB, and a response holds the value that is encoded.
use mini_sb_agent.Base.{
  ℕ, Bool, not, ◌&&◌, Option, none, some, List, [], if◌then◌else◌, is_empty, Result, ok, err, ◌==◌,
  nat_eq, list_eq, pair_eq, Text, codes, trim_space, trim_prefix,
}
use mini_sb_agent.Topology.{Topology}
use mini_sb_agent.PanelServer.Store.{
  Store, Agent, TopologyRecord, TrafficPushRequest, StoreError, put_agent, put_topology,
  agent_by_secret, agents_of, topology_of, apply_traffic,
}

-- The headers that the handlers read, and the body.
pub record Request (B : Type 0) : Type 0 where
  pub authorization : Text
  pub if_none_match : Text
  pub idempotency_key : Text
  pub body : Option B

-- `TopologyResponse` of panelapi/control_plane.go
pub record TopologyResponse : Type 0 where
  pub schema_version : ℕ
  pub revision : Text
  pub topology : Topology

pub data Body : Type 0 where
  nothing : Body
  error_text : Text → Body
  store_error : StoreError → Body
  topology_response : TopologyResponse → Body
  applied : Bool → Body
  agent_list : List Agent → Body
  one_agent : Agent → Body
  topology_record : TopologyRecord → Body

pub record Response : Type 0 where
  pub status : ℕ
  pub etag : Option Text
  pub body : Body

abbrev pub respond : ℕ → Body → Response
respond status body = record { status = status; etag = none; body = body }

-- `writeError`
abbrev pub write_error : ℕ → Text → Response
write_error status message = respond status (error_text message)

-- `bearer`
unfoldable pub bearer : Text → Text
unfolding trim_prefix trim_space
bearer authorization = trim_space (trim_prefix authorization (codes "Bearer "))

-- `equal`
unfoldable pub equal : Text → Text → Bool
equal a b = not (is_empty a) && not (is_empty b) && a == b

abbrev pub unauthorized_agent : Response
unauthorized_agent = write_error 401 (codes "invalid agent token")

abbrev pub unauthorized_admin : Response
unauthorized_admin = write_error 401 (codes "invalid admin token")

abbrev pub topology_answer : Text → Option TopologyRecord → Response
topology_answer if_none_match none = write_error 404 (codes "no topology assigned")
topology_answer if_none_match (some r) =
    if if_none_match == r.etag
    then record { status = 304; etag = some r.etag; body = nothing }
    else record {
      status = 200;
      etag = some r.etag;
      body =
          topology_response
            (record { schema_version = 1; revision = r.revision; topology = r.topology });
    }

-- `agentTopology`
unfoldable pub agent_topology : {B : Type 0} → Request B → Store → Response
unfolding bearer
agent_topology r s = elim (agent_by_secret (bearer r.authorization) s) [
  | none ↦ unauthorized_agent
  | some agent ↦ topology_answer r.if_none_match (topology_of agent.id s)
]

abbrev pub traffic_answer : Result StoreError Bool × Store → Response × Store
traffic_answer (err e, s) = (respond 400 (store_error e), s)
traffic_answer (ok b, s) = (respond 202 (applied b), s)

-- The part of `agentTraffic` behind the decoding of the body.
abbrev pub accept_traffic : ℕ → Text → Agent → Option TrafficPushRequest → Store → Response × Store
accept_traffic now k agent none s = (write_error 400 (codes "invalid JSON payload"), s)
accept_traffic now k agent (some p) s =
    if not (is_empty k) && not (is_empty p.batch_id) && not (k == p.batch_id)
    then (write_error 400 (codes "idempotency key does not match batch_id"), s)
    else traffic_answer (apply_traffic now agent.id p s)

abbrev pub serve_traffic : ℕ → Option Agent → Request TrafficPushRequest → Store → Response × Store
serve_traffic now none r s = (unauthorized_agent, s)
serve_traffic now (some agent) r s = accept_traffic now r.idempotency_key agent r.body s

-- `agentTraffic`
unfoldable pub agent_traffic : ℕ → Request TrafficPushRequest → Store → Response × Store
unfolding bearer
agent_traffic now r s = serve_traffic now (agent_by_secret (bearer r.authorization) s) r s

-- `requireAdmin`
abbrev pub is_admin : {B : Type 0} → Text → Request B → Bool
is_admin admin_token r = equal (bearer r.authorization) admin_token

-- `adminAgents`
unfoldable pub admin_agents : {B : Type 0} → Text → Request B → Store → Response
unfolding agents_of
admin_agents admin_token r s =
    if not (is_admin admin_token r)
    then unauthorized_admin
    else respond 200 (agent_list (agents_of s))

abbrev pub put_agent_answer : Agent → Result StoreError Unit × Store → Response × Store
put_agent_answer a (err e, s) = (respond 400 (store_error e), s)
put_agent_answer a (ok _, s) = (respond 201 (one_agent (record a { secret = [] })), s)

abbrev pub put_agent_body : ℕ → Option Agent → Store → Response × Store
put_agent_body now none s = (write_error 400 (codes "invalid JSON payload"), s)
put_agent_body now (some a) s = put_agent_answer a (put_agent now a s)

-- `adminPutAgent`
unfoldable pub admin_put_agent : Text → ℕ → Request Agent → Store → Response × Store
admin_put_agent admin_token now r s =
    if not (is_admin admin_token r) then (unauthorized_admin, s) else put_agent_body now r.body s

abbrev pub record_answer : Option TopologyRecord → Response
record_answer none = respond 200 nothing
record_answer (some r) = respond 200 (topology_record r)

abbrev pub put_topology_answer : Text → Result StoreError Unit × Store → Response × Store
put_topology_answer id (err e, s) = (respond 400 (store_error e), s)
put_topology_answer id (ok _, s) = (record_answer (topology_of id s), s)

abbrev pub put_topology_body :
    (Text → Text) → Text → ℕ → Text → Option Topology → Store → Response × Store
put_topology_body digest revision now id none s =
    (write_error 400 (codes "invalid JSON payload"), s)
put_topology_body digest revision now id (some t) s =
    put_topology_answer id (put_topology digest revision now id t s)

-- `adminPutTopology` for the agent `id` of the path
unfoldable pub admin_put_topology :
    Text → (Text → Text) → Text → ℕ → Text → Request Topology → Store → Response × Store
admin_put_topology admin_token digest revision now id r s =
    if not (is_admin admin_token r)
    then (unauthorized_admin, s)
    else put_topology_body digest revision now id r.body s
