-- ===== src/ControlPlane/ExactlyOnce.antt =====
-- A batch that is pushed until an answer comes: panelapi/control_plane.go and panelserver/store.go.
use mini_sb_agent.Base.{
  ℕ, ◌≡◌, refl, ap, ◌∙◌, ◌⊎◌, inl, inr, Bool, true, false, some, List, [], ◌∷◌, map, arith,
  is_empty, ok, ◌==◌, nat_eq, list_eq, pair_eq, list_beq_iff, lookup, has, lookup-insert, beq_refl,
  answer, Text, drop_while, trim, trim_space,
}
use mathlib.Core.Path.{subst}
use mini_sb_agent.PanelServer.Store.{
  Store, Usage, UsageKey, TopologyRecord, TrafficPushRequest, apply_traffic, usage_at, book_batch,
  check_items, owned_keys, apply_assigned, touch,
}
use mini_sb_agent.PanelServer.Store.Accounts.{Adds, booked, book_items-Adds}
use mini_sb_agent.PanelServer.Store.Effects.{apply_traffic-assigned}
use mini_sb_agent.PanelServer.Routes.{Json, Server}
use mini_sb_agent.ControlPlane.{ControlPlaneClient}
use mini_sb_agent.ControlPlane.Wire.{Fate, lost_request, lost_reply, delivered}
use mini_sb_agent.ControlPlane.Delivery.{
  sends, StandsFor, IsConnected, outcome, learned, push_traffic-outcome, StandsFor-apply,
}
use mini_sb_agent.ControlPlane.Retries.{Attempt, push_once, push_all}

-- The agent is registered and has a topology whose nodes the items name.
abbrev pub Accepts : Text → TrafficPushRequest → Store → Type 0
Accepts a p s =
    (r : TopologyRecord) × (lookup a s.topologies ≡ some r)
    × (check_items (owned_keys r.topology.nodes) p.items ≡ ok tt)
    × (has a s.agents ≡ true)

module _ (a : Text) (p : TrafficPushRequest) where
  apply_traffic-new :
      (now : ℕ) (s : Store)
      → is_empty p.batch_id ≡ false
      → Accepts a p s
      → has (a, p.batch_id) s.batches ≡ false
      → apply_traffic now a p s ≡ (ok true, book_batch now a p s)
  unfolding apply_assigned
  apply_traffic-new now s named (r, at, checked, known) new =
      apply_traffic-assigned now a p s named known new ∙ rw (at, checked) refl

  apply_traffic-seen :
      (now : ℕ) (s : Store)
      → is_empty p.batch_id ≡ false
      → Accepts a p s
      → has (a, p.batch_id) s.batches ≡ true
      → apply_traffic now a p s ≡ (ok false, s)
  unfolding apply_traffic
  apply_traffic-seen now s named (r, at, checked, known) old = rw (named, known, old) refl

  -- After some pushes: the batch is new and nothing is booked, or it counts as seen and is booked.
  record Progress (k : UsageKey) (before : Usage) (s : Store) : Type 0 where
    accepts : Accepts a p s
    account :
        ((has (a, p.batch_id) s.batches ≡ false) × (usage_at k s.usage ≡ before))
        ⊎ ((has (a, p.batch_id) s.batches ≡ true)
            × Adds (booked k a p.items) before (usage_at k s.usage))

  book_batch-Accepts : (now : ℕ) (s : Store) → Accepts a p s → Accepts a p (book_batch now a p s)
  unfolding book_batch
  book_batch-Accepts now s (r, at, checked, known) = (
    r,
    at,
    checked,
    ground (arith, lookup-insert a a (touch now (lookup a s.agents)) s.agents, list_beq_iff a a),
  )

  batch_seen : (now : ℕ) (s : Store) → has (a, p.batch_id) (book_batch now a p s).batches ≡ true
  unfolding book_batch
  batch_seen now s =
      let batch : Text × Text = (a, p.batch_id) in
      let same : (batch == batch) ≡ true = beq_refl batch in
      rw (lookup-insert (a, p.batch_id) (a, p.batch_id) tt s.batches, same) refl

  book_batch-Progress :
      (now : ℕ) (k : UsageKey) (s : Store)
      → Accepts a p s
      → Progress k (usage_at k s.usage) (book_batch now a p s)
  unfolding book_batch
  book_batch-Progress now k s h = record {
    accepts = book_batch-Accepts now s h;
    account = inr (batch_seen now s, book_items-Adds k a p.items s.usage);
  }

  apply_traffic-Progress :
      (now : ℕ) (k : UsageKey) (before : Usage) (s : Store)
      → is_empty p.batch_id ≡ false
      → Progress k before s
      → ((b : Bool) × ((apply_traffic now a p s).0 ≡ ok b))
        × Progress k before (apply_traffic now a p s).1
        × (has (a, p.batch_id) (apply_traffic now a p s).1.batches ≡ true)
  apply_traffic-Progress now k before s named h = elim h.account [
    | inl (new, same) ↦
        let next = book_batch-Progress now k s h.accepts in
        rw (apply_traffic-new now s named h.accepts new) (
          (true, refl),
          subst (λ u. Progress k u (book_batch now a p s)) same next,
          batch_seen now s,
        )
    | inr (old, adds) ↦ rw (apply_traffic-seen now s named h.accepts old) ((false, refl), h, old)
  ]

-- An attempt that gets its answer.
abbrev pub answered_at : ℕ → Text → Attempt
answered_at now revision = record { fate = delivered; now = now; revision = revision }

sends-named : (p : TrafficPushRequest) → sends p ≡ true → is_empty p.batch_id ≡ false
unfolding trim_space trim drop_while
sends-named p go = ground (arith, go)

module _ {W : Type 0} (json : Json W) (server : Server) (path_of : Text → Text)
    (encode : TrafficPushRequest → W) (c : ControlPlaneClient) (a : Text)
    (p : TrafficPushRequest) where
  -- The store after repeated pushes of the one batch.
  abbrev pub retried : List Attempt → Store → Store
  retried xs s = push_all json server path_of encode c (map (λ x. (p, x)) xs) s

  push_once-Progress :
      (k : UsageKey) (before : Usage) (x : Attempt) (s : Store)
      → IsConnected json server path_of encode c p
      → sends p ≡ true
      → StandsFor c.token a s
      → Progress a p k before s
      → let s' = (push_once json server path_of encode c p x s).1 in
        StandsFor c.token a s' × Progress a p k before s'
  push_once-Progress k before x s h go stands g =
      let done =
        push_traffic-outcome json server path_of encode c p a x.fate x.now x.revision s h stands
          go in
      let (answer, next, seen) = apply_traffic-Progress a p x.now k before s (sends-named p go) g in
      rw done (
        by_fate x.fate stands g (StandsFor-apply json server path_of encode c p a x.now s stands)
          next)
    where
      by_fate :
          (f : Fate)
          → StandsFor c.token a s
          → Progress a p k before s
          → StandsFor c.token a (apply_traffic x.now a p s).1
          → Progress a p k before (apply_traffic x.now a p s).1
          → let s' = (outcome f (apply_traffic x.now a p s) s).1 in
            StandsFor c.token a s' × Progress a p k before s'
      by_fate lost_request t g t' g' = (t, g)
      by_fate lost_reply t g t' g' = (t', g')
      by_fate delivered t g t' g' = (t', g')

  retried-Progress :
      (k : UsageKey) (before : Usage) (xs : List Attempt) (s : Store)
      → IsConnected json server path_of encode c p
      → sends p ≡ true
      → StandsFor c.token a s
      → Progress a p k before s
      → StandsFor c.token a (retried xs s) × Progress a p k before (retried xs s)
  unfolding push_all
  retried-Progress k before [] s h go stands g = (stands, g)
  retried-Progress k before (x ∷ xs) s h go stands g =
      let (stands', g') = push_once-Progress k before x s h go stands g in
      retried-Progress k before xs _ h go stands' g'

  -- A batch that the server accepts and has not seen is pushed again and again by a connected client
  -- whose token stands for the agent, with requests and answers lost in any way. When a push gets its
  -- answer the batch is booked exactly once: that push succeeds, and each account has then grown by
  -- what the items put on it, modulo `2 ^ 64`. The batch is one that the client sends.
  pub retried-exactly_once :
      (k : UsageKey) (xs : List Attempt) (now : ℕ) (revision : Text) (s : Store)
      → IsConnected json server path_of encode c p
      → sends p ≡ true
      → StandsFor c.token a s
      → Accepts a p s
      → has (a, p.batch_id) s.batches ≡ false
      → let (result, s') =
          push_once json server path_of encode c p (answered_at now revision) (retried xs s) in
        (result ≡ ok tt) × Adds (booked k a p.items) (usage_at k s.usage) (usage_at k s'.usage)
  retried-exactly_once k xs now revision s h go stands accepts new =
      let start : Progress a p k (usage_at k s.usage) s = record {
        accepts = accepts;
        account = inl (new, refl);
      } in
      let (stands', g) = retried-Progress k (usage_at k s.usage) xs s h go stands start in
      let done =
        push_traffic-outcome json server path_of encode c p a delivered now revision (retried xs s)
          h stands' go in
      let ((b, said), next, seen) =
        apply_traffic-Progress a p now k (usage_at k s.usage) (retried xs s) (sends-named p go) g in
      rw done
        (ap learned said, booked_once (apply_traffic now a p (retried xs s)).1 next.account seen)
    where
      booked_once :
          (s' : Store)
          → ((has (a, p.batch_id) s'.batches ≡ false) × (usage_at k s'.usage ≡ usage_at k s.usage))
            ⊎ ((has (a, p.batch_id) s'.batches ≡ true)
                × Adds (booked k a p.items) (usage_at k s.usage) (usage_at k s'.usage))
          → has (a, p.batch_id) s'.batches ≡ true
          → Adds (booked k a p.items) (usage_at k s.usage) (usage_at k s'.usage)
      booked_once s' (inl (unseen, e)) seen_now = cc (unseen, seen_now)
      booked_once s' (inr (old, adds)) seen_now = adds
