-- ===== src/PanelServer/Store/Effects.antt =====
-- What `ApplyTraffic` of panelserver/store.go leaves as it was: topologies, names and secrets.
use mini_sb_agent.Base.{
  ℕ, ◌≡◌, refl, sym, ap, ◌∙◌, ◌⊎◌, inl, inr, true, false, Option, none, some, [], ◌∷◌, arith,
  Bool-cases, Option-cases, is_some, is_empty, Result, ok, err, ◌==◌, nat_eq, list_eq, pair_eq,
  list_beq_iff, Map, lookup, has, insert, lookup-insert, Text,
}
use mathlib.Core.Path.{subst}
use mini_sb_agent.PanelServer.Store.{
  Store, Agent, TopologyRecord, TrafficPushRequest, StoreError, find_secret, touch, book_batch,
  if_checked, apply_assigned, apply_traffic,
}

-- The store after a call is the old one, or that of a batch booked for an agent that there is.
abbrev pub Books : ℕ → Text → TrafficPushRequest → Store → Store → Type 0
Books now a p s s' =
    (s' ≡ s) ⊎ (((x : Agent) × (lookup a s.agents ≡ some x)) × (s' ≡ book_batch now a p s))

module _ (now : ℕ) (a : Text) (p : TrafficPushRequest) (s : Store) where
  if_checked-Books :
      (x : Agent) (c : Result StoreError Unit)
      → lookup a s.agents ≡ some x
      → Books now a p s (if_checked c s (book_batch now a p s)).1
  if_checked-Books x (err e) known = inl refl
  if_checked-Books x (ok _) known = inr ((x, known), refl)

  apply_assigned-Books :
      (x : Agent) (o : Option TopologyRecord)
      → lookup a s.agents ≡ some x
      → Books now a p s (apply_assigned now a p s o).1
  unfolding apply_assigned
  apply_assigned-Books x none known = inl refl
  apply_assigned-Books x (some r) known = if_checked-Books x _ known

  pub apply_traffic-assigned :
      is_empty p.batch_id ≡ false
      → has a s.agents ≡ true
      → has (a, p.batch_id) s.batches ≡ false
      → apply_traffic now a p s ≡ apply_assigned now a p s (lookup a s.topologies)
  unfolding apply_traffic
  apply_traffic-assigned named known new = rw (named, known, new) refl

  pub apply_traffic-Books : Books now a p s (apply_traffic now a p s).1
  unfolding apply_traffic
  apply_traffic-Books = elim (Bool-cases (is_empty p.batch_id)) [
    | inl empty ↦ rw empty (inl refl)
    | inr named ↦ elim (Option-cases (lookup a s.agents)) [
      | inl unknown ↦ rw (named, unknown) (inl refl)
      | inr (x, known) ↦ elim (Bool-cases (has (a, p.batch_id) s.batches)) [
        | inl seen ↦ rw (named, known, seen) (inl refl)
        | inr new ↦
            let booked = apply_assigned-Books x (lookup a s.topologies) known in
            subst (λ r. Books now a p s r.1)
              (sym (apply_traffic-assigned named (ap is_some known) new)) booked
      ]
    ]
  ]

-- The agent that a secret finds is found again, with the same id, when the agent `id` is touched.
find_secret-touch :
    (token id : Text) (now : ℕ) (m : Map Text Agent) (x y : Agent)
    → lookup id m ≡ some y
    → find_secret token m ≡ some x
    → (x' : Agent) × (find_secret token (insert id (touch now (some y)) m) ≡ some x')
      × (x'.id ≡ x.id)
unfolding find_secret lookup insert
find_secret-touch token id now [] x y e f = cc
find_secret-touch token id now ((j, b) ∷ m) x y e f = elim (Bool-cases (j == id)) [
  | inl here ↦
      let same : b ≡ y = ground (arith, here, e) in
      elim (Bool-cases (b.secret == token)) [
        | inl it ↦
            let found : b ≡ x = ground (arith, it, f) in
            (
              touch now (some y),
              rw (here, ← same, it) refl,
              ap {A = Agent} (λ z. z.id) ((sym same) ∙ found),
            )
        | inr other ↦ (x, rw (here, ← same, other) (rw other at f), refl)
      ]
  | inr later ↦ elim (Bool-cases (b.secret == token)) [
    | inl it ↦
        let found : b ≡ x = ground (arith, it, f) in
        (b, rw (later, it) refl, ap {A = Agent} (λ z. z.id) found)
    | inr other ↦
        let (x', p, q) = find_secret-touch token id now m x y (rw later at e) (rw other at f) in
        (x', rw (later, other) p, q)
  ]
]

pub apply_traffic-find_secret :
    (token : Text) (now : ℕ) (a : Text) (p : TrafficPushRequest) (s : Store) (x : Agent)
    → find_secret token s.agents ≡ some x
    → (x' : Agent) × (find_secret token (apply_traffic now a p s).1.agents ≡ some x')
      × (x'.id ≡ x.id)
unfolding book_batch
apply_traffic-find_secret token now a p s x f = elim (apply_traffic-Books now a p s) [
  | inl same ↦ (x, rw same f, refl)
  | inr ((y, known), books) ↦ rw (books, known) (find_secret-touch token a now s.agents x y known f)
]

pub apply_traffic-topologies :
    (now : ℕ) (a : Text) (p : TrafficPushRequest) (s : Store)
    → (apply_traffic now a p s).1.topologies ≡ s.topologies
unfolding book_batch
apply_traffic-topologies now a p s = elim (apply_traffic-Books now a p s) [
  | inl same ↦ rw same refl
  | inr (known, books) ↦ rw books refl
]

abbrev pub secret_of : Option Agent → Option Text
secret_of none = none
secret_of (some x) = some x.secret

pub apply_traffic-secrets :
    (now : ℕ) (a : Text) (p : TrafficPushRequest) (s : Store) (id : Text)
    → secret_of (lookup id (apply_traffic now a p s).1.agents) ≡ secret_of (lookup id s.agents)
unfolding book_batch
apply_traffic-secrets now a p s id = elim (apply_traffic-Books now a p s) [
  | inl same ↦ rw same refl
  | inr ((y, known), books) ↦
      rw (books, known)
        (ground (arith, lookup-insert a id (touch now (some y)) s.agents, list_beq_iff a id, known))
]
