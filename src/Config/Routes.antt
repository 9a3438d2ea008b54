-- ===== src/Config/Routes.antt =====
-- The routes of a configuration that `generateTopologyConfig` of cmd/mini-sb-agent/xboard_config.go
-- builds.
use mini_sb_agent.Base.{
  ◌≡◌, refl, ap, ◌⊎◌, inl, inr, Bool, Option, List, [], ◌∷◌, ◌++◌, map, append-nil, append_assoc,
  arith, ltb, Bool-cases, length, All, Result, ok, err, >>=-eq-ok, ◌==◌, nat_eq, list_eq, pair_eq,
  list_beq, Text, codes,
}
use mini_sb_agent.Topology.{NodeSpec, Topology, inbound_tag, outbound_tag, outbound_type, validate}
use mini_sb_agent.Topology.Valid.{Distinct, IsOutbound, IsNode, validate_iff}
use mini_sb_agent.Config.{NodeConfig, InboundConfig, ConfigError, Files}
use mini_sb_agent.Config.Generate.{
  config_tag, OutboundConfig, outbound_from_node_spec, builtins, Rule, SingBoxConfig, rule_outbound,
  node_outbounds, node_inbound, add_nodes, generate_topology_config,
}

map-append : {A B : Type 0} (f : A → B) (xs ys : List A) → map f (xs ++ ys) ≡ map f xs ++ map f ys
map-append f [] ys = refl
map-append f (x ∷ xs) ys = ap (◌∷◌ (f x)) (map-append f xs ys)

-- The rule of a node.
abbrev pub rule_of : NodeSpec → Rule
rule_of n = record { inbound = inbound_tag n; outbound = rule_outbound n }

-- An outbound of the tag is in the list.
abbrev pub HasTag : Text → List OutboundConfig → Type 0
HasTag t [] = ⊥
HasTag t (o ∷ os) = (config_tag o ≡ t) ⊎ HasTag t os

HasTag-append :
    (t : Text) (os ps : List OutboundConfig) → HasTag t os ⊎ HasTag t ps → HasTag t (os ++ ps)
HasTag-append t [] ps (inl h) = absurd h
HasTag-append t [] ps (inr h) = h
HasTag-append t (o ∷ os) ps (inl (inl h)) = inl h
HasTag-append t (o ∷ os) ps (inl (inr h)) = inr (HasTag-append t os ps (inl h))
HasTag-append t (o ∷ os) ps (inr h) = inr (HasTag-append t os ps (inr h))

outbounds_of :
    (c d : SingBoxConfig)
    → Path (Result ConfigError SingBoxConfig) (ok c) (ok d)
    → c.outbounds ≡ d.outbounds
outbounds_of c d e = ground (arith, e)

result_cases : {E : Type 0} (r : Result E Unit) → (r ≡ ok tt) ⊎ ((x : E) × (r ≡ err x))
result_cases (ok tt) = inl refl
result_cases (err x) = inr (x, refl)

module _ (files : Files) (fetch : NodeSpec → Option NodeConfig)
    (out cert_path key_path : Text) where
  abbrev inbound_of : Bool → NodeSpec → Result ConfigError InboundConfig
  inbound_of several n = node_inbound files fetch out cert_path key_path several n

  node_inbound-tag :
      (several : Bool) (n : NodeSpec) (i : InboundConfig)
      → inbound_of several n ≡ ok i
      → i.tag ≡ inbound_tag n
  unfolding node_inbound
  node_inbound-tag several n i e = ground arith

  -- The configuration with one node more.
  abbrev with_node : InboundConfig → NodeSpec → SingBoxConfig → SingBoxConfig
  with_node i n c = record {
    inbounds = c.inbounds ++ (i ∷ []);
    outbounds = c.outbounds ++ node_outbounds n;
    rules = c.rules ++ (rule_of n ∷ []);
    final = c.final;
  }

  -- What the loop adds to the configuration.
  abbrev Adds : List NodeSpec → SingBoxConfig → SingBoxConfig → Type 0
  Adds ns c d =
      (map (λ i. i.tag) d.inbounds ≡ map (λ i. i.tag) c.inbounds ++ map inbound_tag ns)
      × (d.rules ≡ c.rules ++ map rule_of ns)
      × (d.final ≡ c.final)

  add_nodes-Adds :
      (several : Bool) (ns : List NodeSpec) (c d : SingBoxConfig)
      → add_nodes files fetch out cert_path key_path several ns c ≡ ok d
      → Adds ns c d
  unfolding add_nodes
  add_nodes-Adds several [] c d e =
      ground (arith, append-nil (map (λ i. i.tag) c.inbounds), append-nil c.rules)
  add_nodes-Adds several (n ∷ ns) c d e =
      let (i, one, rest) =
        >>=-eq-ok (inbound_of several n)
          (λ i. add_nodes files fetch out cert_path key_path several ns (with_node i n c)) e in
      let (tags, rules, final) = add_nodes-Adds several ns (with_node i n c) d rest in
      let own = node_inbound-tag several n i one in
      ground (
        arith,
        tags,
        rules,
        final,
        own,
        map-append (λ j. j.tag) c.inbounds (i ∷ []),
        append_assoc (map (λ j. j.tag) c.inbounds) (inbound_tag n ∷ []) (map inbound_tag ns),
        append_assoc c.rules (rule_of n ∷ []) (map rule_of ns),
      )

  -- No outbound is lost.
  add_nodes-keeps :
      (several : Bool) (ns : List NodeSpec) (c d : SingBoxConfig) (t : Text)
      → add_nodes files fetch out cert_path key_path several ns c ≡ ok d
      → HasTag t c.outbounds
      → HasTag t d.outbounds
  unfolding add_nodes
  add_nodes-keeps several [] c d t e h = rw (← outbounds_of c d e) h
  add_nodes-keeps several (n ∷ ns) c d t e h =
      let (i, one, rest) =
        >>=-eq-ok (inbound_of several n)
          (λ i. add_nodes files fetch out cert_path key_path several ns (with_node i n c)) e in
      add_nodes-keeps several ns (with_node i n c) d t rest
        (HasTag-append t c.outbounds (node_outbounds n) (inl h))

  node_outbounds-HasTag :
      (n : NodeSpec) (os : List OutboundConfig)
      → IsOutbound n.outbound
      → HasTag (codes "direct") os
      → HasTag (rule_outbound n) (os ++ node_outbounds n)
  unfolding outbound_from_node_spec list_beq
  node_outbounds-HasTag n os (inl direct) h =
      rw (direct) (HasTag-append (codes "direct") os [] (inl h))
  node_outbounds-HasTag n os (inr ss) h =
      elim (Bool-cases (outbound_type n.outbound == codes "direct")) [
        | inl direct ↦ rw (direct) (HasTag-append (codes "direct") os [] (inl h))
        | inr other ↦
            rw (other, ss.0)
              (HasTag-append (outbound_tag n) os (outbound_from_node_spec n ∷ []) (inr (inl refl)))
      ]

  add_nodes-HasTag :
      (several : Bool) (ns : List NodeSpec) (c d : SingBoxConfig)
      → add_nodes files fetch out cert_path key_path several ns c ≡ ok d
      → All IsNode ns
      → HasTag (codes "direct") c.outbounds
      → All (λ n. HasTag (rule_outbound n) d.outbounds) ns
  unfolding add_nodes
  add_nodes-HasTag several [] c d e v h = tt
  add_nodes-HasTag several (n ∷ ns) c d e v h =
      let (i, one, rest) =
        >>=-eq-ok (inbound_of several n)
          (λ i. add_nodes files fetch out cert_path key_path several ns (with_node i n c)) e in
      (
        add_nodes-keeps several ns (with_node i n c) d (rule_outbound n) rest
            (node_outbounds-HasTag n c.outbounds v.0.outbound_valid h),
        add_nodes-HasTag several ns (with_node i n c) d rest v.1
            (HasTag-append (codes "direct") c.outbounds (node_outbounds n) (inl h)),
      )

  -- A configuration that is generated has, for each node of the topology in order, an inbound with
  -- the node's tag and one rule that sends the traffic of this tag to an outbound that the
  -- configuration has; the tags are distinct, and traffic that no rule matches is blocked.
  pub generate_topology_config-routes :
      (t : Topology) (d : SingBoxConfig)
      → generate_topology_config files fetch out cert_path key_path t ≡ ok d
      → (map (λ i. i.tag) d.inbounds ≡ map inbound_tag t.nodes)
        × Distinct (map inbound_tag t.nodes)
        × (d.rules ≡ map rule_of t.nodes)
        × All (λ n. HasTag (rule_outbound n) d.outbounds) t.nodes
        × (d.final ≡ codes "block")
  unfolding generate_topology_config
  generate_topology_config-routes t d e = elim (result_cases (validate t)) [
    | inr (x, bad) ↦ absurd (ground (arith, bad))
    | inl good ↦
        let valid = (validate_iff t).0 good in
        let start : SingBoxConfig = record {
          inbounds = [];
          outbounds = builtins;
          rules = [];
          final = codes "block";
        } in
        let run : add_nodes files fetch out cert_path key_path (ltb 1 (length t.nodes)) t.nodes
              start
            ≡ ok d =
          rw (good) at e in
        let (tags, rules, final) = add_nodes-Adds _ t.nodes start d run in
        (
          tags,
          valid.tags_distinct,
          rules,
          add_nodes-HasTag _ t.nodes start d run valid.nodes_valid (inl refl),
          final,
        )
  ]
