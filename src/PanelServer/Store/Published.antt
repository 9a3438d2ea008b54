-- ===== src/PanelServer/Store/Published.antt =====
-- What `PutTopology` of panelserver/store.go publishes stays valid.
use mini_sb_agent.Base.{
  ℕ, ◌≡◌, refl, inl, inr, false, some, List, [], ◌∷◌, arith, Bool-cases, is_empty, Result, ok, err,
  ◌==◌, nat_eq, list_eq, pair_eq, Map, lookup, has, insert, lookup-insert, Text,
}
use mathlib.Core.Path.{subst}
use mini_sb_agent.Topology.{Topology, TopologyError, validate}
use mini_sb_agent.Topology.Valid.{IsTopology, validate_iff}
use mini_sb_agent.PanelServer.Store.{Store, Agent, TopologyRecord, put_agent, put_topology}
use mini_sb_agent.PanelServer.Store.Effects.{apply_traffic-topologies}
use mini_sb_agent.PanelServer.Store.History.{Call, puts_agent, puts_topology, applies, step, run}

-- The record's topology passes `Validate`, and it has an entity tag.
pub record IsPublished (r : TopologyRecord) : Type 0 where
  pub valid : IsTopology r.topology
  pub has_etag : is_empty r.etag ≡ false

-- Each record of the map is published.
abbrev pub AllPublished : Map Text TopologyRecord → Type 0
AllPublished m = (id : Text) (r : TopologyRecord) → lookup id m ≡ some r → IsPublished r

insert-AllPublished :
    (id : Text) (r : TopologyRecord) (m : Map Text TopologyRecord)
    → IsPublished r
    → AllPublished m
    → AllPublished (insert id r m)
insert-AllPublished id r m h all_of j q e = elim (Bool-cases (id == j)) [
  | inl here ↦
      let same : r ≡ q = ground (arith, lookup-insert id j r m, here, e) in subst IsPublished same h
  | inr there ↦ all_of j q (ground (arith, lookup-insert id j r m, there, e))
]

put_agent-topologies :
    (now : ℕ) (agent : Agent) (s : Store) → (put_agent now agent s).1.topologies ≡ s.topologies
unfolding put_agent
put_agent-topologies now agent s = ground arith

module _ (digest : Text → Text) where
  put_topology-AllPublished :
      (revision : Text) (now : ℕ) (id : Text) (t : Topology) (s : Store)
      (c : Result TopologyError Unit)
      → validate t ≡ c
      → AllPublished s.topologies
      → AllPublished (put_topology digest revision now id t s).1.topologies
  unfolding put_topology
  put_topology-AllPublished revision now id t s (err e) v h = rw (v, put_topology) h
  put_topology-AllPublished revision now id t s (ok u) v h = elim (Bool-cases (has id s.agents)) [
    | inr unknown ↦ rw (v, unknown, put_topology) h
    | inl known ↦
        rw (v, known, put_topology)
          (insert-AllPublished id _ s.topologies
            (record { valid = (validate_iff t).0 v; has_etag = refl }) h)
  ]

  step-AllPublished :
      (k : Call) (s : Store) → AllPublished s.topologies → AllPublished (step digest k s).topologies
  unfolding step
  step-AllPublished (puts_agent now agent) s h = rw (put_agent-topologies now agent s) h
  step-AllPublished (puts_topology revision now id t) s h =
      put_topology-AllPublished revision now id t s (validate t) refl h
  step-AllPublished (applies now id p) s h = rw (apply_traffic-topologies now id p s) h

  -- After any calls on a store whose topologies are all published they still are: each passes
  -- `Validate` and has an entity tag.
  pub run-AllPublished :
      (ks : List Call) (s : Store) (id : Text) (r : TopologyRecord)
      → AllPublished s.topologies
      → lookup id (run digest ks s).topologies ≡ some r
      → IsTopology r.topology × (is_empty r.etag ≡ false)
  unfolding run
  run-AllPublished [] s id r h e = let p = h id r e in (p.valid, p.has_etag)
  run-AllPublished (k ∷ ks) s id r h e =
      run-AllPublished ks (step digest k s) id r (step-AllPublished k s h) e
