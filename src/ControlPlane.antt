-- ===== src/ControlPlane.antt =====
-- panelapi/control_plane.go: the client of the panel server.
--
-- `send` is `minHTTPClient.do` on a state `S` of the rest of the world: the answer, or `none` for an
-- error of the network. `encode` and `decode` are encoding/json's.
pub mod Wire
pub mod Delivery
pub mod Retries
pub mod ExactlyOnce
pub mod Fetch
use mini_sb_agent.Base.{
  ℕ, zero, suc, ◌+◌, ◌-◌, ◌*◌, ◌/◌, ◌%◌, ◌^◌, ◌≤◌, ◌<◌, String, ◌≡◌, refl, sym, ap, ◌∙◌, ◌≢◌, ◌↔◌,
  ◌⊎◌, inl, inr, Bool, true, false, not, ◌&&◌, ◌||◌, Option, none, some, List, [], ◌∷◌, ◌++◌, map,
  append-nil, append_assoc, arith, ltb, leb, nat_beq, nat_beq_iff, if◌then◌else◌, Bool-cases,
  Option-cases, is_some, length, is_empty, all, any, keep, All, length-append, All-append, Result,
  ok, err, ◌>>=◌, ◌>>◌, reject_if, >>=-eq-ok, is_ok, Eq, ◌==◌, nat_eq, list_eq, pair_eq, list_beq,
  list_beq_iff, pair_beq, pair_beq_iff, Map, lookup, has, insert, delete, IsMap, lookup-insert,
  lookup-delete, beq_refl, insert-IsMap, delete-IsMap, select, answer, lookup-select, select-IsMap,
  word, half_word, add64, sub64, mul64, is_neg, is_pos, div64, lt64, Text, codes, is_space,
  drop_while, trim, trim_space, lower, to_lower, has_prefix, contains, ℤ, pos, negsuc, pos_part,
  neg_part, diff, ◌+ℤ◌, ◌-ℤ◌, ◌≤ℤ◌, ltb_ℤ, +ℤ_parts, -ℤ_parts, take, drop, length-take, length-drop,
  take-append-take-drop, take-take, take_all, trim_prefix, trim_right,
}
use mini_sb_agent.Http.{HttpRequest, HttpReply}
use mini_sb_agent.Topology.{Topology, validate}
use mini_sb_agent.PanelServer.Store.{TrafficItem, TrafficPushRequest}
use mini_sb_agent.PanelServer.Server.{TopologyResponse}

pub record ControlPlaneClient : Type 0 where
  pub base_url : Text
  pub token : Text
  pub agent_id : Text

-- `NewControlPlaneClient`
unfoldable pub new_control_plane_client : Text → Text → Text → ControlPlaneClient
unfolding trim_right
new_control_plane_client base_url token agent_id = record {
  base_url = trim_right (λ c. nat_beq c b'/') base_url;
  token = token;
  agent_id = agent_id;
}

pub data ControlPlaneError : Type 0 where
  no_base_url network bad_json unsupported_schema empty_revision invalid_topology :
      ControlPlaneError
  empty_batch_id incomplete_item : ControlPlaneError
  bad_status : ℕ → ControlPlaneError

abbrev pub set_header : Text → Text → Map Text Text → Map Text Text
set_header name value headers = if is_empty value then headers else insert name value headers

-- The loop that copies `extra`.
unfoldable pub copy_headers : Map Text Text → Map Text Text → Map Text Text
copy_headers [] headers = headers
copy_headers ((name, value) ∷ extra) headers = copy_headers extra (insert name value headers)

abbrev pub bearer_of : Text → Text
bearer_of token = if is_empty token then [] else codes "Bearer " ++ token

-- `requestHeaders`
unfoldable pub request_headers :
    ControlPlaneClient → Map Text Text → Result ControlPlaneError (Map Text Text)
unfolding copy_headers
request_headers c extra =
    if is_empty c.base_url
    then err no_base_url
    else ok (
        set_header (codes "X-Agent-ID") c.agent_id
          (set_header (codes "Authorization") (bearer_of c.token) (copy_headers extra [])))

abbrev pub topology_path : Text
topology_path = codes "/api/v2/agent/topology"

abbrev pub traffic_path : Text
traffic_path = codes "/api/v2/agent/traffic"

abbrev pub decoded : {A : Type 0} → Option A → Result ControlPlaneError A
decoded none = err bad_json
decoded (some a) = ok a

-- The tests of `FetchTopology` on a decoded answer.
unfoldable pub check_topology :
    TopologyResponse → Result ControlPlaneError (Option TopologyResponse)
check_topology out = do
  reject_if (not (out.schema_version == 1)) unsupported_schema
  reject_if (is_empty (trim_space out.revision)) empty_revision
  reject_if (not (is_ok (validate out.topology))) invalid_topology
  ok (some out)

-- The tests of `PushTraffic` on one item.
abbrev pub is_incomplete : TrafficItem → Bool
is_incomplete item = is_empty (trim_space item.node_id) || is_empty (trim_space item.node_type)

abbrev pub traffic_headers : TrafficPushRequest → Map Text Text
traffic_headers p =
    (codes "Content-Type", codes "application/json") ∷ (codes "Idempotency-Key", p.batch_id) ∷ []

module _ {W : Type 0} where
  -- The part of `FetchTopology` behind the answer: `none` if the topology has not changed.
  unfoldable pub read_topology :
      (W → Option TopologyResponse)
      → Option (HttpReply W)
      → Result ControlPlaneError (Option TopologyResponse)
  unfolding check_topology
  read_topology decode none = err network
  read_topology decode (some reply) =
      if reply.status_code == 304
      then ok none
      else if reply.status_code / 100 == 2
      then decoded (decode reply.content) >>= check_topology
      else err (bad_status reply.status_code)

  abbrev pub topology_request : ControlPlaneClient → Text → Map Text Text → HttpRequest W
  topology_request c etag headers = record {
    method = codes "GET";
    url = c.base_url ++ topology_path;
    headers = set_header (codes "If-None-Match") etag headers;
    content = none;
  }

  abbrev pub pushed : Option (HttpReply W) → Result ControlPlaneError Unit
  pushed none = err network
  pushed (some reply) =
      if reply.status_code / 100 == 2 then ok tt else err (bad_status reply.status_code)

  abbrev pub traffic_request : W → ControlPlaneClient → Map Text Text → HttpRequest W
  traffic_request body c headers = record {
    method = codes "POST";
    url = c.base_url ++ traffic_path;
    headers = headers;
    content = some body;
  }

module _ {W S : Type 0} (send : HttpRequest W → S → Option (HttpReply W) × S) where
  abbrev pub fetch_with :
      (W → Option TopologyResponse)
      → ControlPlaneClient
      → Text
      → Result ControlPlaneError (Map Text Text)
      → S
      → Result ControlPlaneError (Option TopologyResponse) × S
  fetch_with decode c etag (err e) s = (err e, s)
  fetch_with decode c etag (ok headers) s =
      let (reply, s') = send (topology_request c etag headers) s in (read_topology decode reply, s')

  -- `FetchTopology`
  unfoldable pub fetch_topology :
      (W → Option TopologyResponse)
      → ControlPlaneClient
      → Text
      → S
      → Result ControlPlaneError (Option TopologyResponse) × S
  unfolding request_headers
  fetch_topology decode c etag s = fetch_with decode c etag (request_headers c []) s

  abbrev pub push_body :
      W
      → ControlPlaneClient
      → Result ControlPlaneError (Map Text Text)
      → S
      → Result ControlPlaneError Unit × S
  push_body body c (err e) s = (err e, s)
  push_body body c (ok headers) s =
      let (reply, s') = send (traffic_request body c headers) s in (pushed reply, s')

  -- `PushTraffic`
  unfoldable pub push_traffic :
      (TrafficPushRequest → W)
      → ControlPlaneClient
      → TrafficPushRequest
      → S
      → Result ControlPlaneError Unit × S
  unfolding request_headers
  push_traffic encode c p s =
      if is_empty (trim_space p.batch_id)
      then (err empty_batch_id, s)
      else if is_empty p.items
      then (ok tt, s)
      else if any is_incomplete p.items
      then (err incomplete_item, s)
      else push_body (encode p) c (request_headers c (traffic_headers p)) s
