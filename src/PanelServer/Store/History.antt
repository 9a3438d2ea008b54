-- ===== src/PanelServer/Store/History.antt =====
-- Runs of the calls that change the store of panelserver/store.go.
use mini_sb_agent.Base.{
  ℕ, ◌+◌, ◌≤◌, ◌≡◌, inl, inr, Bool, true, false, ◌&&◌, List, [], ◌∷◌, arith, if◌then◌else◌,
  Bool-cases, Result, ok, err, ◌==◌, nat_eq, list_eq, pair_eq, pair_beq_iff, has, lookup-insert,
  Text,
}
use mini_sb_agent.Topology.{Topology}
use mini_sb_agent.PanelServer.Store.{
  Store, Agent, UsageKey, TrafficPushRequest, StoreError, usage_at, put_agent, put_topology,
  apply_traffic,
}
use mini_sb_agent.PanelServer.Store.Accounts.{Adds, booked, Outcome, apply_traffic-Outcome}

-- The calls in the order in which they take the lock, with what each draws from outside.
pub data Call : Type 0 where
  puts_agent : ℕ → Agent → Call
  puts_topology : Text → ℕ → Text → Topology → Call
  applies : ℕ → Text → TrafficPushRequest → Call

abbrev pub was_applied : Result StoreError Bool → Bool
was_applied (ok b) = b
was_applied (err e) = false

module _ (digest : Text → Text) where
  unfoldable pub step : Call → Store → Store
  step (puts_agent now agent) s = (put_agent now agent s).1
  step (puts_topology revision now id t) s = (put_topology digest revision now id t s).1
  step (applies now id p) s = (apply_traffic now id p s).1

  unfoldable pub run : List Call → Store → Store
  run [] s = s
  run (k ∷ ks) s = run ks (step k s)

  -- Whether the call applies the batch.
  pub applies_batch : Text × Text → Call → Store → ℕ
  applies_batch b (applies now id p) s =
      if was_applied (apply_traffic now id p s).0 && (id, p.batch_id) == b then 1 else 0
  applies_batch b (puts_agent now agent) s = 0
  applies_batch b (puts_topology revision now id t) s = 0

  -- How often a run applies the batch.
  pub times_applied : Text × Text → List Call → Store → ℕ
  times_applied b [] s = 0
  times_applied b (k ∷ ks) s = applies_batch b k s + times_applied b ks (step k s)

  -- What the batches that a run applies put on an account.
  pub accepted : UsageKey → Call → Store → ℕ × ℕ
  accepted k (applies now id p) s =
      if was_applied (apply_traffic now id p s).0 then booked k id p.items else (0, 0)
  accepted k (puts_agent now agent) s = (0, 0)
  accepted k (puts_topology revision now id t) s = (0, 0)

  pub accepted_sum : UsageKey → List Call → Store → ℕ × ℕ
  accepted_sum k [] s = (0, 0)
  accepted_sum k (c ∷ cs) s =
      let d = accepted k c s in
      let rest = accepted_sum k cs (step c s) in (d.0 + rest.0, d.1 + rest.1)

  -- 1 if the batch counts as seen.
  abbrev seen : Text × Text → Store → ℕ
  seen b s = if has b s.batches then 1 else 0

  put_topology-same :
      (revision : Text) (now : ℕ) (id : Text) (t : Topology) (s : Store)
      → let s' = (put_topology digest revision now id t s).1 in
        (s'.batches ≡ s.batches) × (s'.usage ≡ s.usage)
  unfolding put_topology
  put_topology-same revision now id t s = ground arith

  put_agent-same :
      (now : ℕ) (agent : Agent) (s : Store)
      → let s' = (put_agent now agent s).1 in (s'.batches ≡ s.batches) × (s'.usage ≡ s.usage)
  unfolding put_agent
  put_agent-same now agent s = ground arith

  applied-seen :
      (b : Text × Text) (id : Text) (p : TrafficPushRequest) (s : Store)
      (r : Result StoreError Bool × Store)
      → Outcome id p s r
      → (if was_applied r.0 && (id, p.batch_id) == b then 1 else 0) + seen b s ≤ seen b r.1
  applied-seen b id p s (err e, s') h = rw h (omega arith)
  applied-seen b id p s (ok false, s') (h, old) = rw h (omega arith)
  applied-seen b id p s (ok true, s') (new, h, same, items, sums) =
      elim (Bool-cases ((id, p.batch_id) == b)) [
        | inl it ↦
            let e : (id, p.batch_id) ≡ b = (pair_beq_iff (id, p.batch_id) b).0 it in
            let old : has b s.batches ≡ false = rw (← e) new in
            rw (h, lookup-insert (id, p.batch_id) b tt s.batches, it, old) (omega arith)
        | inr other ↦ rw (h, lookup-insert (id, p.batch_id) b tt s.batches, other) (omega arith)
      ]

  step-seen :
      (b : Text × Text) (c : Call) (s : Store) → applies_batch b c s + seen b s ≤ seen b (step c s)
  unfolding step applies_batch
  step-seen b (puts_agent now agent) s = rw (put_agent-same now agent s).0 (omega arith)
  step-seen b (puts_topology revision now id t) s =
      rw (put_topology-same revision now id t s).0 (omega arith)
  step-seen b (applies now id p) s =
      applied-seen b id p s (apply_traffic now id p s) (apply_traffic-Outcome now id p s)

  times_applied-seen :
      (b : Text × Text) (cs : List Call) (s : Store) → times_applied b cs s + seen b s ≤ 1
  unfolding times_applied
  times_applied-seen b [] s = ground arith
  times_applied-seen b (c ∷ cs) s =
      omega (arith, step-seen b c s, times_applied-seen b cs (step c s))

  -- Whatever calls are made in whatever order, a batch of an agent is applied at most once.
  pub times_applied-le_one :
      (b : Text × Text) (cs : List Call) (s : Store) → times_applied b cs s ≤ 1
  times_applied-le_one b cs s = omega (arith, times_applied-seen b cs s)

  Outcome-Adds :
      (k : UsageKey) (id : Text) (p : TrafficPushRequest) (s : Store)
      (r : Result StoreError Bool × Store)
      → Outcome id p s r
      → Adds
          (if was_applied r.0 then booked k id p.items else (0, 0))
          (usage_at k s.usage)
          (usage_at k r.1.usage)
  Outcome-Adds k id p s (err e, s') h = rw h (omega arith)
  Outcome-Adds k id p s (ok false, s') (h, old) = rw h (omega arith)
  Outcome-Adds k id p s (ok true, s') (new, h, same, items, sums) = sums k

  step-Adds :
      (k : UsageKey) (c : Call) (s : Store)
      → Adds (accepted k c s) (usage_at k s.usage) (usage_at k (step c s).usage)
  unfolding step accepted
  step-Adds k (puts_agent now agent) s = rw (put_agent-same now agent s).1 (omega arith)
  step-Adds k (puts_topology revision now id t) s =
      rw (put_topology-same revision now id t s).1 (omega arith)
  step-Adds k (applies now id p) s =
      Outcome-Adds k id p s (apply_traffic now id p s) (apply_traffic-Outcome now id p s)

  -- An account holds what it held and what the applied batches put on it, modulo `2 ^ 64`, after
  -- any calls.
  pub run-Adds :
      (k : UsageKey) (cs : List Call) (s : Store)
      → Adds (accepted_sum k cs s) (usage_at k s.usage) (usage_at k (run cs s).usage)
  unfolding run accepted_sum
  run-Adds k [] s = omega arith
  run-Adds k (c ∷ cs) s =
      let first = step-Adds k c s in omega (arith, first, run-Adds k cs (step c s))
