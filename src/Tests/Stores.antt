-- ===== src/Tests/Stores.antt =====
-- Inputs for panelserver: a store with one agent that runs two nodes.
use mini_sb_agent.Base.{
  ◌≤◌, ◌≡◌, refl, ◌∙◌, ◌≢◌, none, some, List, [], ◌∷◌, arith, nat_eq, list_eq, pair_eq, list_beq,
  list_beq_iff, lookup, Text, codes, is_space, drop_while, trim, trim_space, has_prefix, drop,
  trim_prefix,
}
use mini_sb_agent.PanelServer.Store.{
  Agent, UsageKey, Store, TrafficPushRequest, apply_traffic, usage_at, new_store,
}
use mini_sb_agent.PanelServer.Store.Accounts.{Adds, Outcome, apply_traffic-Outcome}
use mini_sb_agent.PanelServer.Store.History.{
  Call, puts_agent, puts_topology, applies, run, times_applied, accepted_sum, times_applied-le_one,
  run-Adds,
}
use mini_sb_agent.PanelServer.Server.{Request, bearer, agent_traffic, admin_agents, admin_put_agent}
use mini_sb_agent.PanelServer.Access.{
  IsAgents, HidesSecrets, agent_traffic_isolated, secrets_hidden,
}
use mini_sb_agent.Tests.Topologies.{two_nodes}

abbrev pub agent : Agent
agent = record {
  id = codes "a1";
  name = codes "first";
  secret = codes "s1";
  created_at = none;
  seen_at = none;
}

abbrev pub batch : TrafficPushRequest
batch = record {
  batch_id = codes "b1";
  items =
      record {
        node_id = codes "21";
        node_type = codes "vless";
        user_id = 7;
        upload = 10;
        download = 20;
      }
      ∷ [];
}

abbrev pub calls : List Call
calls =
    puts_agent 1 agent
    ∷ puts_topology (codes "r1") 2 (codes "a1") two_nodes
    ∷ applies 3 (codes "a1") batch
    ∷ applies 4 (codes "a1") batch
    ∷ []

abbrev pub account : UsageKey
account = (codes "a1", (codes "vless:21", 7))

times_applied-le_one_example : times_applied (λ s. s) (codes "a1", codes "b1") calls new_store ≤ 1
times_applied-le_one_example =
    times_applied-le_one (λ s. s) (codes "a1", codes "b1") calls new_store

run-Adds_example :
    Adds
      (accepted_sum (λ s. s) account calls new_store)
      (usage_at account new_store.usage)
      (usage_at account (run (λ s. s) calls new_store).usage)
run-Adds_example = run-Adds (λ s. s) account calls new_store

abbrev pub store : Store
store = record {
  agents = (codes "a1", agent) ∷ [];
  topologies =
      (
        codes "a1",
        record { revision = codes "r1"; etag = codes "e"; topology = two_nodes; updated_at = 2 },
      )
      ∷ [];
  usage = [];
  batches = [];
}

apply_traffic-Outcome_example :
    Outcome (codes "a1") batch store (apply_traffic 3 (codes "a1") batch store)
apply_traffic-Outcome_example = apply_traffic-Outcome 3 (codes "a1") batch store

store-IsAgents : IsAgents store.agents
unfolding lookup
store-IsAgents = record {
  is_map = (refl, tt);
  own_id = λ id a e. ground (arith, list_beq_iff (codes "a1") id);
  has_secret = λ id a e. ground arith;
}

abbrev request : Text → Request TrafficPushRequest
request authorization = record {
  authorization = authorization;
  if_none_match = [];
  idempotency_key = [];
  body = some batch;
}

store_agent : lookup (codes "a1") store.agents ≡ some agent
unfolding lookup list_beq
store_agent = refl

other_bearer : bearer (codes "Bearer s2") ≡ codes "s2"
unfolding bearer trim_space trim drop_while trim_prefix has_prefix is_space drop
other_bearer = refl

other_token : agent.secret ≢ bearer (codes "Bearer s2")
other_token e = let same : codes "s1" ≡ codes "s2" = e ∙ other_bearer in ground (arith, same)

agent_traffic_isolated_example :
    lookup account (agent_traffic 3 (request (codes "Bearer s2")) store).1.usage
    ≡ lookup account store.usage
agent_traffic_isolated_example =
    agent_traffic_isolated 3 (request (codes "Bearer s2")) store account agent store-IsAgents
      store_agent other_token

abbrev registration : Request Agent
registration = record {
  authorization = codes "Bearer admin";
  if_none_match = [];
  idempotency_key = [];
  body = some agent;
}

secrets_hidden_example :
    HidesSecrets (admin_agents (codes "admin") registration store).body
    × HidesSecrets (admin_put_agent (codes "admin") 5 registration store).0.body
secrets_hidden_example = secrets_hidden (codes "admin") 5 registration store
