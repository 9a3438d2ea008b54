-- ===== src/ControlPlane/Delivery.antt =====
-- `PushTraffic` of panelapi/control_plane.go against the panel server: the pushes of a client are the
-- calls of `ApplyTraffic`.
use mini_sb_agent.Base.{
  ℕ, ◌≡◌, refl, ap, ◌∙◌, Bool, true, false, not, ◌&&◌, some, ◌++◌, arith, is_empty, any, Result, ok,
  err, ◌==◌, nat_eq, list_eq, pair_eq, list_beq, list_beq_iff, lookup, Text, codes, trim_space,
  has_prefix, drop,
}
use mini_sb_agent.PanelServer.Store.{
  Store, Agent, TrafficPushRequest, find_secret, apply_traffic, StoreError,
}
use mini_sb_agent.PanelServer.Store.Effects.{apply_traffic-find_secret}
use mini_sb_agent.PanelServer.Server.{agent_traffic, traffic_answer}
use mini_sb_agent.PanelServer.Routes.{
  Json, Server, header, post_traffic, serve_http, answered, route, agent_of_path, fixed_route,
  handle, split_slash,
}
use mini_sb_agent.ControlPlane.{
  ControlPlaneClient, ControlPlaneError, network, bad_status, request_headers, traffic_headers,
  traffic_path, is_incomplete, traffic_request, pushed, push_body, push_traffic,
}
use mini_sb_agent.ControlPlane.Wire.{
  Fate, lost_request, lost_reply, delivered, exchange, bearer-append, push_headers,
  request_headers-traffic_headers, lookup-push_headers, carried, arrived, header-carried,
}

-- The request is one that the client sends.
abbrev pub sends : TrafficPushRequest → Bool
sends p =
    not (is_empty (trim_space p.batch_id))
    && not (is_empty p.items)
    && not (any is_incomplete p.items)

-- The token stands for the agent `a`.
abbrev pub StandsFor : Text → Text → Store → Type 0
StandsFor token a s = (x : Agent) × (find_secret token s.agents ≡ some x) × (x.id ≡ a)

-- What a client learns of the server's answer.
abbrev pub learned : Result StoreError Bool → Result ControlPlaneError Unit
learned (ok b) = ok tt
learned (err e) = err (bad_status 400)

-- The push as its fate makes of the call.
abbrev pub outcome :
    Fate → Result StoreError Bool × Store → Store → Result ControlPlaneError Unit × Store
outcome lost_request r s = (err network, s)
outcome lost_reply r s = (err network, r.1)
outcome delivered r s = (learned r.0, r.1)

keys_differ : (x : Text) → (not (is_empty x) && not (is_empty x) && not (x == x)) ≡ false
keys_differ x = ground (arith, list_beq_iff x x)

module _ {W : Type 0} (json : Json W) (server : Server) (path_of : Text → Text)
    (encode : TrafficPushRequest → W) (c : ControlPlaneClient) where
  -- The client has a URL, a token and batch ids with no blank around them, its URL leads to the server, and the
  -- server decodes what the client encodes.
  pub record IsConnected (p : TrafficPushRequest) : Type 0 where
    pub has_url : is_empty c.base_url ≡ false
    pub has_token : is_empty c.token ≡ false
    pub trimmed : trim_space c.token ≡ c.token
    pub bearer_trimmed : trim_space (codes "Bearer " ++ c.token) ≡ codes "Bearer " ++ c.token
    pub batch_trimmed : trim_space p.batch_id ≡ p.batch_id
    pub path : path_of (c.base_url ++ traffic_path) ≡ traffic_path
    pub body : json.decode_traffic (encode p) ≡ some p

  traffic_route : route (codes "POST") traffic_path ≡ post_traffic
  unfolding route agent_of_path split_slash fixed_route has_prefix drop list_beq
  traffic_route = refl

  -- A push that arrives is a call of `ApplyTraffic` for the agent of the token.
  serve-push :
      (p : TrafficPushRequest) (a : Text) (now : ℕ) (revision : Text) (s : Store)
      → IsConnected p
      → StandsFor c.token a s
      → let r = traffic_request (encode p) c (push_headers c p) in
        arrived json server path_of now revision r s
        ≡ answered json server (traffic_answer (apply_traffic now a p s))
  unfolding serve_http handle agent_traffic
  serve-push p a now revision s h (x, found, same) =
      let (auth, idem) = lookup-push_headers c p in
      let headers = push_headers c p in
      let auth' : header (lookup (codes "Authorization") (carried headers))
          ≡ codes "Bearer " ++ c.token =
        header-carried (codes "Authorization") headers
        ∙ (ap (λ o. trim_space (header o)) auth ∙ h.bearer_trimmed) in
      let idem' : header (lookup (codes "Idempotency-Key") (carried headers)) ≡ p.batch_id =
        header-carried (codes "Idempotency-Key") headers
        ∙ (ap (λ o. trim_space (header o)) idem ∙ h.batch_trimmed) in
      rw
        (
          h.path,
          traffic_route,
          auth',
          idem',
          h.body,
          bearer-append c.token h.trimmed,
          found,
          keys_differ p.batch_id,
          same,
        )
        refl

  answered-learned :
      (r : Result StoreError Bool × Store)
      → let (reply, s') = answered json server (traffic_answer r) in
        (pushed (some reply) ≡ learned r.0) × (s' ≡ r.1)
  answered-learned (ok b, s) = (refl, refl)
  answered-learned (err e, s) = (refl, refl)

  push_body-outcome :
      (p : TrafficPushRequest) (a : Text) (fate : Fate) (now : ℕ) (revision : Text) (s : Store)
      → IsConnected p
      → StandsFor c.token a s
      → push_body
          (exchange json server path_of fate now revision)
          (encode p)
          c
          (ok (push_headers c p))
          s
        ≡ outcome fate (apply_traffic now a p s) s
  unfolding exchange
  push_body-outcome p a lost_request now revision s h k = refl
  push_body-outcome p a lost_reply now revision s h k =
      rw (serve-push p a now revision s h k, (answered-learned (apply_traffic now a p s)).1) refl
  push_body-outcome p a delivered now revision s h k =
      rw
        (
          serve-push p a now revision s h k,
          (answered-learned (apply_traffic now a p s)).0,
          (answered-learned (apply_traffic now a p s)).1,
        )
        refl

  pub push_traffic-outcome :
      (p : TrafficPushRequest) (a : Text) (fate : Fate) (now : ℕ) (revision : Text) (s : Store)
      → IsConnected p
      → StandsFor c.token a s
      → sends p ≡ true
      → push_traffic (exchange json server path_of fate now revision) encode c p s
        ≡ outcome fate (apply_traffic now a p s) s
  unfolding push_traffic
  push_traffic-outcome p a fate now revision s h k go =
      let sent = request_headers-traffic_headers c p h.has_url h.has_token in
      let body : push_traffic (exchange json server path_of fate now revision) encode c p s
          ≡ push_body (exchange json server path_of fate now revision) (encode p) c
              (request_headers c (traffic_headers p)) s =
        ground (arith, go) in
      body ∙ rw sent (push_body-outcome p a fate now revision s h k)

  pub StandsFor-apply :
      (p : TrafficPushRequest) (a : Text) (now : ℕ) (s : Store)
      → StandsFor c.token a s
      → StandsFor c.token a (apply_traffic now a p s).1
  StandsFor-apply p a now s (x, found, same) =
      let (x', found', same') = apply_traffic-find_secret c.token now a p s x found in
      (x', found', same' ∙ same)
