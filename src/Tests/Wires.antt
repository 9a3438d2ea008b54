-- ===== src/Tests/Wires.antt =====
-- Inputs for panelapi/control_plane.go and the router of panelserver/server.go: a client of the
-- store's agent, on a wire whose bodies are the values themselves.
use mini_sb_agent.Base.{
  ◌≡◌, refl, true, false, Option, none, some, List, [], ◌∷◌, map, arith, if◌then◌else◌, length,
  is_empty, any, ok, ◌==◌, nat_eq, list_eq, pair_eq, list_beq, list_beq_iff, lookup, has, insert,
  Text, codes, is_space, drop_while, trim, trim_space, to_lower, has_prefix, drop, trim_prefix,
}
use mathlib.Core.Path.{subst}
use mini_sb_agent.Topology.{
  outbound_tag, safe_tag_part, inbound_tag, check_outbound, is_valid_node_id, one_of,
  normalize_node_type, node_key, validate,
}
use mini_sb_agent.Topology.Valid.{IsTopology, validate_iff}
use mini_sb_agent.Http.{HttpRequest}
use mini_sb_agent.PanelServer.Store.{
  put_agent, put_topology, TopologyRecord, TrafficPushRequest, new_store, usage_at, find_secret,
  check_items, owned_keys, apply_traffic,
}
use mini_sb_agent.PanelServer.Store.Accounts.{Adds, booked}
use mini_sb_agent.PanelServer.Store.Effects.{secret_of}
use mini_sb_agent.PanelServer.Store.History.{step, run}
use mini_sb_agent.PanelServer.Store.Published.{IsPublished, AllPublished, run-AllPublished}
use mini_sb_agent.PanelServer.Server.{Body, TopologyResponse, topology_response, bearer, equal}
use mini_sb_agent.PanelServer.Routes.{Json, Server, serve_http}
use mini_sb_agent.PanelServer.AdminOnly.{token_of, serve_http-admin_only}
use mini_sb_agent.ControlPlane.{ControlPlaneClient, fetch_topology}
use mini_sb_agent.ControlPlane.Wire.{lost_request, lost_reply, delivered, exchange}
use mini_sb_agent.ControlPlane.Delivery.{IsConnected, StandsFor, sends}
use mini_sb_agent.ControlPlane.Retries.{Attempt, calls_of, push_once, push_all, push_all-run}
use mini_sb_agent.ControlPlane.ExactlyOnce.{Accepts, retried, answered_at, retried-exactly_once}
use mini_sb_agent.ControlPlane.Fetch.{CanFetch, response_of, fetch_topology-round_trip}
use mini_sb_agent.Tests.Topologies.{two_nodes}
use mini_sb_agent.Tests.Stores.{agent, batch, calls, account, store}

data Wire : Type 0 where
  plain_text : Wire
  traffic : TrafficPushRequest → Wire
  body : Body → Wire

abbrev traffic_of : Wire → Option TrafficPushRequest
traffic_of (traffic p) = some p
traffic_of _ = none

abbrev response_in : Wire → Option TopologyResponse
response_in (body (topology_response t)) = some t
response_in _ = none

abbrev json : Json Wire
json = record {
  decode_traffic = traffic_of;
  decode_agent = λ w. none;
  decode_topology = λ w. none;
  encode_body = body;
  status_ok = plain_text;
  page = plain_text;
  refusal = plain_text;
}

abbrev server : Server
server = record { admin_token = codes "admin"; digest = λ t. t }

abbrev url : Text
url = codes "http://panel"

abbrev path_of : Text → Text
path_of u = drop (length url) u

abbrev client : ControlPlaneClient
client = record { base_url = url; token = codes "s1"; agent_id = codes "a1" }

connected : IsConnected json server path_of traffic client batch
unfolding trim_space trim drop_while is_space drop
connected = record {
  has_url = refl;
  has_token = refl;
  trimmed = refl;
  bearer_trimmed = refl;
  batch_trimmed = refl;
  path = refl;
  body = refl;
}

stands_for : StandsFor client.token (codes "a1") store
unfolding find_secret list_beq
stands_for = (agent, refl, refl)

abbrev attempts : List Attempt
attempts =
    record { fate = lost_request; now = 3; revision = [] }
    ∷ record { fate = lost_reply; now = 4; revision = [] }
    ∷ []

push_all-run_example :
    push_all json server path_of traffic client (map (λ x. (batch, x)) attempts) store
    ≡ run server.digest (calls_of (codes "a1") (map (λ x. (batch, x)) attempts)) store
push_all-run_example =
    push_all-run json server path_of traffic client (codes "a1") (map (λ x. (batch, x)) attempts)
      store (connected, (connected, tt)) stands_for

batch_goes : sends batch ≡ true
unfolding trim_space trim drop_while is_space any
batch_goes = refl

abbrev stored : TopologyRecord
stored = record { revision = codes "r1"; etag = codes "e"; topology = two_nodes; updated_at = 2 }

stored_at : lookup (codes "a1") store.topologies ≡ some stored
unfolding lookup list_beq
stored_at = refl

accepts : Accepts (codes "a1") batch store
unfolding lookup list_beq check_items owned_keys insert node_key normalize_node_type one_of to_lower
    trim_space
accepts = (stored, refl, refl, refl)

batch_new : has (codes "a1", batch.batch_id) store.batches ≡ false
unfolding lookup
batch_new = refl

retried-exactly_once_example :
    let (result, s') =
      push_once json server path_of traffic client batch
        (answered_at 9 [])
        (retried json server path_of traffic client (codes "a1") batch attempts store) in
    (result ≡ ok tt)
    × Adds
        (booked account (codes "a1") batch.items)
        (usage_at account store.usage)
        (usage_at account s'.usage)
retried-exactly_once_example =
    retried-exactly_once json server path_of traffic client (codes "a1") batch account attempts 9 []
      store connected batch_goes stands_for accepts batch_new

store_valid : validate two_nodes ≡ ok tt
unfolding validate is_valid_node_id one_of list_beq normalize_node_type to_lower lookup
    check_outbound insert node_key inbound_tag safe_tag_part outbound_tag
store_valid = refl

published : AllPublished store.topologies
unfolding lookup
published id r e =
    let same : stored ≡ r = ground (arith, list_beq_iff (codes "a1") id, e) in
    subst IsPublished same
      (record { valid = (validate_iff two_nodes).0 store_valid; has_etag = refl })

nothing_published : AllPublished new_store.topologies
unfolding lookup
nothing_published id r e = cc

registered :
    lookup (codes "a1") (run (λ t. t) calls new_store).topologies
    ≡ some (record {
      revision = codes "r1";
      etag = codes "\"r1\"";
      topology = two_nodes;
      updated_at = 2;
    })
unfolding lookup run step apply_traffic put_topology validate is_valid_node_id one_of list_beq
    normalize_node_type to_lower check_outbound insert node_key inbound_tag safe_tag_part
    outbound_tag put_agent
registered = refl

run-AllPublished_example : IsTopology two_nodes × (is_empty (codes "\"r1\"") ≡ false)
run-AllPublished_example =
    run-AllPublished (λ t. t) calls new_store (codes "a1")
      (record {
        revision = codes "r1";
        etag = codes "\"r1\"";
        topology = two_nodes;
        updated_at = 2;
      })
      nothing_published registered

can_fetch : CanFetch {W = Wire} json server path_of response_in client
unfolding trim_space trim drop_while is_space drop
can_fetch = record {
  has_url = refl;
  has_token = refl;
  trimmed = refl;
  bearer_trimmed = refl;
  path = refl;
}

revision_shown : is_empty (trim_space stored.revision) ≡ false
unfolding trim_space trim drop_while is_space
revision_shown = refl

no_etag : trim_space [] ≡ []
unfolding trim_space trim drop_while
no_etag = refl

fetch_topology-round_trip_example :
    fetch_topology (exchange json server path_of delivered 9 []) response_in client [] store
    ≡ (ok (if [] == stored.etag then none else some (response_of stored)), store)
fetch_topology-round_trip_example =
    fetch_topology-round_trip json server path_of response_in client (codes "a1") [] 9 [] store
      stored can_fetch stands_for no_etag published stored_at revision_shown refl

-- A request to replace the agent's topology, with the agent's own token.
abbrev request : HttpRequest Wire
request = record {
  method = codes "PUT";
  url = codes "http://panel/api/v1/admin/agents/a1/topology";
  headers = (codes "Authorization", codes "Bearer s1") ∷ [];
  content = some plain_text;
}

not_the_admin : equal (token_of json server request) server.admin_token ≡ false
unfolding equal bearer trim_space trim drop_while trim_prefix has_prefix is_space drop lookup
    list_beq
not_the_admin = refl

serve_http-admin_only_example :
    let s' = (serve_http json server (path_of request.url) 9 [] request store).1 in
    (s'.topologies ≡ store.topologies)
    × (secret_of (lookup (codes "a1") s'.agents) ≡ secret_of (lookup (codes "a1") store.agents))
serve_http-admin_only_example =
    serve_http-admin_only json server (path_of request.url) 9 [] request store (codes "a1")
      not_the_admin
