-- ===== src/Config/Start.antt =====
-- The start of topology mode: `LoadTopology` of panelapi/topology.go and the checks that `main` of
-- cmd/mini-sb-agent/main.go makes before the data path is built.
use mini_sb_agent.Base.{
  ◌≡◌, refl, sym, ap, ◌∙◌, inl, inr, Bool, true, false, not, ◌||◌, Option, none, some, List, [],
  ◌∷◌, arith, Option-cases, is_empty, all, All, Result, ok, err, ◌>>=◌, ◌>>◌, reject_if, >>=-eq-ok,
  nat_eq, list_eq, pair_eq, Text,
}
use mathlib.Core.Path.{subst}
use mini_sb_agent.Topology.{NodeSpec, Topology, TopologyError, validate}
use mini_sb_agent.Config.{NodeConfig, ConfigError, Files}
use mini_sb_agent.Config.Generate.{SingBoxConfig, generate_topology_config}
use mini_sb_agent.Config.Capabilities.{
  BuildCapabilities, has_capabilities, validate_topology_capabilities,
}

pub data LoadError : Type 0 where
  unreadable malformed : LoadError
  invalid : TopologyError → LoadError

abbrev checked : Topology → Result TopologyError (Unit {0}) → Result LoadError Topology
checked t (ok _) = ok t
checked t (err e) = err (invalid e)

-- `LoadTopology` on what the file holds, `none` for an error, with encoding/json as `decode`.
unfoldable pub load_topology : (Text → Option Topology) → Option Text → Result LoadError Topology
load_topology decode none = err unreadable
load_topology decode (some text) = elim (decode text) [
  | none ↦ err malformed
  | some t ↦ checked t (validate t)
]

pub data StartError : Type 0 where
  bad_topology : LoadError → StartError
  missing_capability no_panel : StartError
  bad_config : ConfigError → StartError

abbrev as_start : {A E : Type 0} → (E → StartError) → Result E A → Result StartError A
as_start f (ok a) = ok a
as_start f (err e) = err (f e)

as_start-ok :
    {A E : Type 0} (f : E → StartError) (r : Result E A) (a : A) → as_start f r ≡ ok a → r ≡ ok a
as_start-ok f (ok b) a e = ground (arith, e)
as_start-ok f (err x) a e = absurd (ground (arith, e))

reject_if-ok : {E : Type 0} (b : Bool) (x : E) (u : Unit) → reject_if b x ≡ ok u → b ≡ false
reject_if-ok true x u e = absurd (ground (arith, e))
reject_if-ok false x u e = refl

each_holds : {A : Type 0} (f : A → Bool) (xs : List A) → all f xs ≡ true → All (λ x. f x ≡ true) xs
unfolding all
each_holds f [] e = tt
each_holds f (x ∷ xs) e =
    let here : f x ≡ true = ground (arith, e) in
    let later : all f xs ≡ true = ground (arith, e) in (here, each_holds f xs later)

checked-ok :
    (s t : Topology) (r : Result TopologyError (Unit {0}))
    → validate s ≡ r
    → checked s r ≡ ok t
    → validate t ≡ ok tt
checked-ok s t (ok _) h e = let same : s ≡ t = ground (arith, e) in ap validate (sym same) ∙ h
checked-ok s t (err x) h e = absurd (ground (arith, e))

load_topology-valid :
    (decode : Text → Option Topology) (file : Option Text) (t : Topology)
    → load_topology decode file ≡ ok t
    → validate t ≡ ok tt
unfolding load_topology
load_topology-valid decode none t e = absurd (ground (arith, e))
load_topology-valid decode (some text) t e = elim (Option-cases (decode text)) [
  | inl bad ↦ absurd (ground (arith, bad, e))
  | inr (s, good) ↦ checked-ok s t (validate s) refl (rw (good, load_topology) at e)
]

module _ (decode : Text → Option Topology) (files : Files) (fetch : NodeSpec → Option NodeConfig)
    (caps : BuildCapabilities) (config cert key : Text) where
  -- The steps of `main` with `-topology`, each of which ends the process when it fails.
  unfoldable pub start_topology :
      Option Text → Text → Text → Result StartError (Topology × SingBoxConfig)
  unfolding load_topology
  start_topology file panel_url panel_token = do
    t ← as_start bad_topology (load_topology decode file)
    reject_if (not (validate_topology_capabilities t caps)) missing_capability
    reject_if (is_empty panel_url || is_empty panel_token) no_panel
    c ← as_start bad_config (generate_topology_config files fetch config cert key t)
    ok (t, c)

  -- What `main` has checked when it builds the data path.
  abbrev pub IsStarted : Text → Text → Topology × SingBoxConfig → Type 0
  IsStarted panel_url panel_token (t, c) =
      (validate t ≡ ok tt)
      × All (λ n. has_capabilities caps n ≡ true) t.nodes
      × (is_empty panel_url ≡ false)
      × (is_empty panel_token ≡ false)
      × (generate_topology_config files fetch config cert key t ≡ ok c)

  -- The agent goes on to build the data path only with a topology that `Validate` accepts and that the
  -- build can run, with a panel and its token, and with the configuration that was generated for it.
  start_topology-IsStarted :
      (file : Option Text) (panel_url panel_token : Text) (r : Topology × SingBoxConfig)
      → start_topology file panel_url panel_token ≡ ok r
      → IsStarted panel_url panel_token r
  unfolding start_topology validate_topology_capabilities
  start_topology-IsStarted file panel_url panel_token r e =
      let (t, loaded, e1) = >>=-eq-ok (as_start bad_topology (load_topology decode file)) _ e in
      let (u, capable, e2) =
        >>=-eq-ok (reject_if (not (validate_topology_capabilities t caps)) missing_capability) _
          e1 in
      let (v, panel, e3) =
        >>=-eq-ok (reject_if (is_empty panel_url || is_empty panel_token) no_panel) _ e2 in
      let (c, made, e4) =
        >>=-eq-ok (as_start bad_config (generate_topology_config files fetch config cert key t)) _
          e3 in
      let same : (t, c) ≡ r = ground (arith, e4) in
      let valid =
        load_topology-valid decode file t
          (as_start-ok bad_topology (load_topology decode file) t loaded) in
      let able : all (has_capabilities caps) t.nodes ≡ true =
        let rejected = reject_if-ok (not (validate_topology_capabilities t caps)) _ u capable in
        ground (arith, rejected) in
      let given = reject_if-ok (is_empty panel_url || is_empty panel_token) _ v panel in
      let generated =
        as_start-ok bad_config (generate_topology_config files fetch config cert key t) c made in
      subst (IsStarted panel_url panel_token) same (
        valid,
        each_holds (has_capabilities caps) t.nodes able,
        ground (arith, given),
        ground (arith, given),
        generated,
      )
