-- ===== src/ControlPlane/Wire.antt =====
-- The client of panelapi/control_plane.go and the server of panelserver/server.go on one wire that
-- may lose a request or its answer.
use mini_sb_agent.Base.{
  ℕ, ◌≡◌, refl, inl, inr, false, Option, none, some, [], ◌∷◌, ◌++◌, map, Bool-cases, is_empty, ok,
  ◌==◌, nat_eq, list_eq, pair_eq, list_beq, Map, lookup, insert, Text, codes, drop_while, trim,
  trim_space, has_prefix, drop, trim_prefix,
}
use mini_sb_agent.Http.{HttpRequest, HttpReply}
use mini_sb_agent.PanelServer.Store.{Store, TrafficPushRequest}
use mini_sb_agent.PanelServer.Server.{bearer}
use mini_sb_agent.PanelServer.Routes.{Json, Server, header, serve_http}
use mini_sb_agent.ControlPlane.{
  ControlPlaneClient, set_header, request_headers, copy_headers, traffic_headers,
}

-- What becomes of an exchange.
pub data Fate : Type 0 where
  lost_request lost_reply delivered : Fate

-- The headers as the other side reads them: net/http drops the blanks around a value. No value may
-- hold the end of a line.
abbrev pub carried : Map Text Text → Map Text Text
carried headers = map (λ h. (h.0, trim_space h.1)) headers

pub header-carried :
    (name : Text) (headers : Map Text Text)
    → header (lookup name (carried headers)) ≡ trim_space (header (lookup name headers))
unfolding lookup trim_space trim drop_while
header-carried name [] = refl
header-carried name ((other, value) ∷ headers) = elim (Bool-cases (other == name)) [
  | inl here ↦ rw here refl
  | inr later ↦ rw later (header-carried name headers)
]

module _ {W : Type 0} (json : Json W) (server : Server) (path_of : Text → Text) where
  -- `ServeHTTP` on a request that arrives; `path_of` reads the path from a URL.
  abbrev pub arrived : ℕ → Text → HttpRequest W → Store → HttpReply W × Store
  arrived now revision r s =
      serve_http json server (path_of r.url) now revision (record r { headers = carried r.headers })
        s

  -- The exchange at the time `now`.
  unfoldable pub exchange : Fate → ℕ → Text → HttpRequest W → Store → Option (HttpReply W) × Store
  unfolding serve_http
  exchange lost_request now revision r s = (none, s)
  exchange lost_reply now revision r s = (none, (arrived now revision r s).1)
  exchange delivered now revision r s =
      let (reply, s') = arrived now revision r s in (some reply, s')

-- `bearer` reads the token back.
pub bearer-append :
    (token : Text) → trim_space token ≡ token → bearer (codes "Bearer " ++ token) ≡ token
unfolding bearer trim_prefix has_prefix drop
bearer-append token h = h

-- The headers of a push, for a client with a token.
abbrev pub push_headers : ControlPlaneClient → TrafficPushRequest → Map Text Text
push_headers c p = set_header (codes "X-Agent-ID") c.agent_id (
    (codes "Content-Type", codes "application/json")
    ∷ (codes "Idempotency-Key", p.batch_id)
    ∷ (codes "Authorization", codes "Bearer " ++ c.token)
    ∷ [])

pub request_headers-traffic_headers :
    (c : ControlPlaneClient) (p : TrafficPushRequest)
    → is_empty c.base_url ≡ false
    → is_empty c.token ≡ false
    → request_headers c (traffic_headers p) ≡ ok (push_headers c p)
unfolding request_headers copy_headers insert list_beq
request_headers-traffic_headers c p b t = rw (b, t) refl

pub lookup-push_headers :
    (c : ControlPlaneClient) (p : TrafficPushRequest)
    → (lookup (codes "Authorization") (push_headers c p) ≡ some (codes "Bearer " ++ c.token))
      × (lookup (codes "Idempotency-Key") (push_headers c p) ≡ some p.batch_id)
unfolding insert lookup list_beq
lookup-push_headers c p = elim (Bool-cases (is_empty c.agent_id)) [
  | inl unnamed ↦ rw unnamed (refl, refl)
  | inr named ↦ rw named (refl, refl)
]
