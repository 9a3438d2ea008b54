-- ===== src/PanelServer/AdminOnly.antt =====
-- What a request without the administrator's token cannot change on the server of
-- panelserver/server.go.
use mini_sb_agent.Base.{
  ℕ, ◌≡◌, refl, inl, inr, Bool, false, not, ◌&&◌, Option, none, some, Bool-cases, is_empty, Result,
  ok, err, ◌==◌, nat_eq, list_eq, pair_eq, lookup, Text, codes,
}
use mini_sb_agent.Http.{HttpRequest}
use mini_sb_agent.PanelServer.Store.{Store, Agent, TrafficPushRequest, StoreError, apply_traffic}
use mini_sb_agent.PanelServer.Store.Effects.{
  secret_of, apply_traffic-topologies, apply_traffic-secrets,
}
use mini_sb_agent.PanelServer.Server.{
  Request, bearer, equal, agent_traffic, accept_traffic, serve_traffic, traffic_answer,
  admin_put_agent, admin_put_topology,
}
use mini_sb_agent.PanelServer.Routes.{
  Route, dashboard, healthz, get_topology, post_traffic, get_agents, post_agent, not_allowed,
  put_agent_topology, Json, Server, header, request_of, route, handle, serve_http,
}

-- The second store has the topologies and the secrets of the first one.
pub record SameConfiguration (s s' : Store) : Type 0 where
  pub topologies : s'.topologies ≡ s.topologies
  pub secrets : (id : Text) → secret_of (lookup id s'.agents) ≡ secret_of (lookup id s.agents)

unchanged : (s : Store) → SameConfiguration s s
unchanged s = record { topologies = refl; secrets = λ id. refl }

traffic_answer-SameConfiguration :
    (q : Result StoreError Bool × Store) (s : Store)
    → SameConfiguration s q.1
    → SameConfiguration s (traffic_answer q).1
traffic_answer-SameConfiguration (ok b, s') s h = h
traffic_answer-SameConfiguration (err e, s') s h = h

accept_traffic-SameConfiguration :
    (now : ℕ) (key : Text) (a : Agent) (body : Option TrafficPushRequest) (s : Store)
    → SameConfiguration s (accept_traffic now key a body s).1
accept_traffic-SameConfiguration now key a none s = unchanged s
accept_traffic-SameConfiguration now key a (some p) s =
    let applied : SameConfiguration s (apply_traffic now a.id p s).1 = record {
      topologies = apply_traffic-topologies now a.id p s;
      secrets = λ id. apply_traffic-secrets now a.id p s id;
    } in
    elim (Bool-cases (not (is_empty key) && not (is_empty p.batch_id) && not (key == p.batch_id))) [
      | inl mismatch ↦ rw mismatch (unchanged s)
      | inr fits ↦ rw fits (traffic_answer-SameConfiguration (apply_traffic now a.id p s) s applied)
    ]

serve_traffic-SameConfiguration :
    (now : ℕ) (o : Option Agent) (r : Request TrafficPushRequest) (s : Store)
    → SameConfiguration s (serve_traffic now o r s).1
serve_traffic-SameConfiguration now none r s = unchanged s
serve_traffic-SameConfiguration now (some a) r s =
    accept_traffic-SameConfiguration now r.idempotency_key a r.body s

agent_traffic-SameConfiguration :
    (now : ℕ) (r : Request TrafficPushRequest) (s : Store)
    → SameConfiguration s (agent_traffic now r s).1
unfolding agent_traffic
agent_traffic-SameConfiguration now r s = serve_traffic-SameConfiguration now _ r s

module _ {W : Type 0} (json : Json W) (server : Server) where
  -- The token of a request.
  abbrev pub token_of : HttpRequest W → Text
  token_of r = bearer (header (lookup (codes "Authorization") r.headers))

  handle-SameConfiguration :
      (p : Route) (now : ℕ) (revision : Text) (r : HttpRequest W) (s : Store)
      → equal (token_of r) server.admin_token ≡ false
      → SameConfiguration s (handle json server p now revision r s).1
  unfolding handle admin_put_agent admin_put_topology
  handle-SameConfiguration dashboard now revision r s h = unchanged s
  handle-SameConfiguration healthz now revision r s h = unchanged s
  handle-SameConfiguration not_allowed now revision r s h = unchanged s
  handle-SameConfiguration get_topology now revision r s h = unchanged s
  handle-SameConfiguration get_agents now revision r s h = unchanged s
  handle-SameConfiguration post_traffic now revision r s h =
      agent_traffic-SameConfiguration now (request_of json server json.decode_traffic r) s
  handle-SameConfiguration post_agent now revision r s h = rw h (unchanged s)
  handle-SameConfiguration (put_agent_topology id) now revision r s h = rw h (unchanged s)

  -- A request whose token is not the administrator's, whatever its method, path and body, leaves
  -- every topology and every agent's secret as it was, and registers and removes no agent.
  pub serve_http-admin_only :
      (path : Text) (now : ℕ) (revision : Text) (r : HttpRequest W) (s : Store) (id : Text)
      → equal (token_of r) server.admin_token ≡ false
      → let s' = (serve_http json server path now revision r s).1 in
        (s'.topologies ≡ s.topologies)
        × (secret_of (lookup id s'.agents) ≡ secret_of (lookup id s.agents))
  unfolding serve_http
  serve_http-admin_only path now revision r s id h =
      let kept = handle-SameConfiguration (route r.method path) now revision r s h in
      (kept.topologies, kept.secrets id)
