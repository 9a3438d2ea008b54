-- ===== src/PanelServer/Access.antt =====
-- Who may see and change what through the handlers of panelserver/server.go.
use mini_sb_agent.Base.{
  ℕ, ◌≡◌, refl, ap, ◌∙◌, ◌≢◌, inl, inr, Bool, true, false, not, ◌&&◌, ◌||◌, Option, none, some,
  List, [], ◌∷◌, map, arith, Bool-cases, Option-cases, is_some, is_empty, All, Result, ok, err,
  ◌==◌, nat_eq, list_eq, pair_eq, list_beq_iff, Map, lookup, has, insert, IsMap, lookup-insert,
  insert-IsMap, Text,
}
use mini_sb_agent.PanelServer.Store.{
  Store, Agent, Usage, UsageKey, TrafficPushRequest, TrafficItem, StoreError, stamped, touch,
  TopologyRecord, put_agent, find_secret, public_agent, apply_traffic, book_items, item_key,
  usage_at, add_usage, book_batch, if_checked, apply_assigned, put_topology,
}
use mini_sb_agent.Topology.{Topology}
use mini_sb_agent.PanelServer.Server.{
  Request, Body, bearer, agent_traffic, admin_agents, admin_put_agent, is_admin, put_agent_answer,
  put_agent_body, one_agent, accept_traffic, traffic_answer, agent_list,
}

-- Each agent stands under its own id and has a secret, and no id stands twice.
pub record IsAgents (m : Map Text Agent) : Type 0 where
  pub is_map : IsMap m
  pub own_id : (id : Text) (a : Agent) → lookup id m ≡ some a → a.id ≡ id
  pub has_secret : (id : Text) (a : Agent) → lookup id m ≡ some a → is_empty a.secret ≡ false

no-IsAgents : IsAgents []
unfolding lookup
no-IsAgents = record { is_map = tt; own_id = λ id a e. cc; has_secret = λ id a e. cc }

insert-IsAgents :
    (a : Agent) (id : Text) (m : Map Text Agent)
    → a.id ≡ id
    → is_empty a.secret ≡ false
    → IsAgents m
    → IsAgents (insert id a m)
insert-IsAgents a id m e q h = record {
  is_map = insert-IsMap id a m h.is_map;
  own_id = λ j b p. ground (arith, lookup-insert id j a m, list_beq_iff id j, h.own_id j b);
  has_secret = λ j b p. ground (arith, lookup-insert id j a m, list_beq_iff id j, h.has_secret j b);
}

put_agent-IsAgents :
    (now : ℕ) (a : Agent) (s : Store) → IsAgents s.agents → IsAgents (put_agent now a s).1.agents
unfolding put_agent
put_agent-IsAgents now a s h = elim (Bool-cases (is_empty a.id || is_empty a.secret)) [
  | inl bad ↦ rw (bad, put_agent) h
  | inr good ↦
      rw (good, put_agent) (insert-IsAgents (stamped now a) a.id s.agents refl (ground arith) h)
]

put_topology-agents :
    (digest : Text → Text) (revision : Text) (now : ℕ) (id : Text) (t : Topology) (s : Store)
    → (put_topology digest revision now id t s).1.agents ≡ s.agents
unfolding put_topology
put_topology-agents digest revision now id t s = ground arith

touch-IsAgents :
    (now : ℕ) (id : Text) (m : Map Text Agent) (o : Option Agent)
    → lookup id m ≡ o
    → is_some o ≡ true
    → IsAgents m
    → IsAgents (insert id (touch now o) m)
touch-IsAgents now id m none e q h = cc
touch-IsAgents now id m (some a) e q h =
    insert-IsAgents (touch now (some a)) id m (h.own_id id a e) (h.has_secret id a e) h

if_checked-IsAgents :
    (now : ℕ) (id : Text) (p : TrafficPushRequest) (s : Store) (c : Result StoreError Unit)
    → has id s.agents ≡ true
    → IsAgents s.agents
    → IsAgents (if_checked c s (book_batch now id p s)).1.agents
unfolding book_batch
if_checked-IsAgents now id p s (err e) known h = h
if_checked-IsAgents now id p s (ok _) known h =
    touch-IsAgents now id s.agents (lookup id s.agents) refl known h

apply_assigned-IsAgents :
    (now : ℕ) (id : Text) (p : TrafficPushRequest) (s : Store) (o : Option TopologyRecord)
    → has id s.agents ≡ true
    → IsAgents s.agents
    → IsAgents (apply_assigned now id p s o).1.agents
unfolding apply_assigned
apply_assigned-IsAgents now id p s none known h = h
apply_assigned-IsAgents now id p s (some r) known h = if_checked-IsAgents now id p s _ known h

apply_traffic-IsAgents :
    (now : ℕ) (id : Text) (p : TrafficPushRequest) (s : Store)
    → IsAgents s.agents
    → IsAgents (apply_traffic now id p s).1.agents
unfolding apply_traffic
apply_traffic-IsAgents now id p s h = elim (Bool-cases (is_empty p.batch_id)) [
  | inl empty ↦ rw empty h
  | inr named ↦ elim (Bool-cases (has id s.agents)) [
    | inr unknown ↦ rw (named, unknown) h
    | inl known ↦ elim (Bool-cases (has (id, p.batch_id) s.batches)) [
      | inl seen ↦ rw (named, known, seen) h
      | inr new ↦ rw (named, known, new) (apply_assigned-IsAgents now id p s _ known h)
    ]
  ]
]

find_secret_sound :
    (token : Text) (m : Map Text Agent) (a : Agent)
    → IsMap m
    → find_secret token m ≡ some a
    → (id : Text) × (lookup id m ≡ some a) × (a.secret ≡ token)
unfolding find_secret lookup
find_secret_sound token [] a h e = cc
find_secret_sound token ((j, b) ∷ m) a h e = elim (Bool-cases (b.secret == token)) [
  | inl it ↦ (
    j,
    ground (arith, list_beq_iff j j, list_beq_iff b.secret token),
    ground (arith, list_beq_iff b.secret token),
  )
  | inr other ↦
      let rest : find_secret token m ≡ some a = ground arith in
      let (id, p, q) = find_secret_sound token m a h.1 rest in
      (id, ground (arith, list_beq_iff j id, h.0), q)
]

-- The agent of a token is registered under its own id with that token.
agent_of_token :
    (token : Text) (m : Map Text Agent) (a : Agent)
    → IsAgents m
    → find_secret token m ≡ some a
    → (lookup a.id m ≡ some a) × (a.secret ≡ token)
agent_of_token token m a h e =
    let (id, p, q) = find_secret_sound token m a h.is_map e in
    (ap (λ x. lookup x m) (h.own_id id a p) ∙ p, q)

lookup-book_items_ne :
    (k : UsageKey) (id : Text) (items : List TrafficItem) (m : Map UsageKey Usage)
    → (id == k.0) ≡ false
    → lookup k (book_items id items m) ≡ lookup k m
unfolding book_items
lookup-book_items_ne k id [] m h = refl
lookup-book_items_ne k id (item ∷ items) m h =
    let j = item_key id item in
    let u = add_usage (usage_at j m) item in
    lookup-book_items_ne k id items (insert j u m) h ∙ ground (arith, lookup-insert j k u m)

apply_traffic_others :
    (k : UsageKey) (now : ℕ) (id : Text) (p : TrafficPushRequest) (s : Store)
    → (id == k.0) ≡ false
    → lookup k (apply_traffic now id p s).1.usage ≡ lookup k s.usage
unfolding apply_traffic
apply_traffic_others k now id p s h = ground (arith, lookup-book_items_ne k id p.items s.usage h)

traffic_answer-store : (q : Result StoreError Bool × Store) → (traffic_answer q).1 ≡ q.1
traffic_answer-store (err e, s) = refl
traffic_answer-store (ok b, s) = refl

accept_traffic_others :
    (now : ℕ) (key : Text) (a : Agent) (body : Option TrafficPushRequest) (s : Store) (k : UsageKey)
    → (a.id == k.0) ≡ false
    → lookup k (accept_traffic now key a body s).1.usage ≡ lookup k s.usage
accept_traffic_others now key a none s k h = refl
accept_traffic_others now key a (some p) s k h =
    elim (Bool-cases (not (is_empty key) && not (is_empty p.batch_id) && not (key == p.batch_id))) [
      | inl mismatch ↦ rw mismatch refl
      | inr fits ↦
          rw (fits, traffic_answer-store (apply_traffic now a.id p s))
            (apply_traffic_others k now a.id p s h)
    ]

-- A traffic report changes no account of an agent whose secret is not the request's token: on a
-- store whose agents are well formed, whatever the request holds.
pub agent_traffic_isolated :
    (now : ℕ) (r : Request TrafficPushRequest) (s : Store) (k : UsageKey) (owner : Agent)
    → IsAgents s.agents
    → lookup k.0 s.agents ≡ some owner
    → owner.secret ≢ bearer r.authorization
    → lookup k (agent_traffic now r s).1.usage ≡ lookup k s.usage
unfolding agent_traffic
agent_traffic_isolated now r s k owner h e ne =
    let token = bearer r.authorization in
    elim (Option-cases (find_secret token s.agents)) [
      | inl nobody ↦ rw nobody refl
      | inr (a, found) ↦
          let (at, q) = agent_of_token token s.agents a h found in
          rw found (
            accept_traffic_others now r.idempotency_key a r.body s k
              (ground (arith, list_beq_iff a.id k.0)))
    ]

-- The body shows no agent's secret.
abbrev pub HidesSecrets : Body → Type 0
HidesSecrets (agent_list as_shown) = All (λ a. a.secret ≡ []) as_shown
HidesSecrets (one_agent a) = a.secret ≡ []
HidesSecrets _ = Unit

public_agents_hidden :
    (m : Map Text Agent) → All (λ a. a.secret ≡ []) (map (λ e. public_agent e.1) m)
unfolding public_agent
public_agents_hidden [] = tt
public_agents_hidden (e ∷ m) = (refl, public_agents_hidden m)

admin_agents_hidden :
    {B : Type 0} (token : Text) (r : Request B) (s : Store)
    → HidesSecrets (admin_agents token r s).body
unfolding admin_agents
admin_agents_hidden token r s = elim (Bool-cases (is_admin token r)) [
  | inl admin ↦ rw admin (public_agents_hidden s.agents)
  | inr other ↦ rw other tt
]

put_agent_answer_hidden :
    (a : Agent) (q : Result StoreError Unit × Store) → HidesSecrets (put_agent_answer a q).0.body
put_agent_answer_hidden a (err e, s) = tt
put_agent_answer_hidden a (ok _, s) = refl

put_agent_body_hidden :
    (now : ℕ) (b : Option Agent) (s : Store) → HidesSecrets (put_agent_body now b s).0.body
put_agent_body_hidden now none s = tt
put_agent_body_hidden now (some a) s = put_agent_answer_hidden a (put_agent now a s)

admin_put_agent_hidden :
    (token : Text) (now : ℕ) (r : Request Agent) (s : Store)
    → HidesSecrets (admin_put_agent token now r s).0.body
unfolding admin_put_agent
admin_put_agent_hidden token now r s = elim (Bool-cases (is_admin token r)) [
  | inl admin ↦ rw admin (put_agent_body_hidden now r.body s)
  | inr other ↦ rw other tt
]

-- The answers that show agents, to a request for the list and to one that registers an agent, hold
-- no secret, whoever asks.
pub secrets_hidden :
    (token : Text) (now : ℕ) (r : Request Agent) (s : Store)
    → HidesSecrets (admin_agents token r s).body
      × HidesSecrets (admin_put_agent token now r s).0.body
secrets_hidden token now r s = (admin_agents_hidden token r s, admin_put_agent_hidden token now r s)
