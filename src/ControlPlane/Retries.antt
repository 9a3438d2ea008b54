-- ===== src/ControlPlane/Retries.antt =====
-- Repeated pushes of panelapi/control_plane.go over a wire that loses requests and answers.
use mini_sb_agent.Base.{
  ℕ, ◌≡◌, refl, inl, inr, Bool, true, false, ◌&&◌, List, [], ◌∷◌, arith, if◌then◌else◌, Bool-cases,
  All, Result, nat_eq, list_eq, pair_eq, Text,
}
use mini_sb_agent.PanelServer.Store.{Store, TrafficPushRequest, apply_traffic}
use mini_sb_agent.PanelServer.Store.History.{Call, applies, run, step}
use mini_sb_agent.PanelServer.Routes.{Json, Server}
use mini_sb_agent.ControlPlane.{ControlPlaneClient, ControlPlaneError, push_traffic}
use mini_sb_agent.ControlPlane.Wire.{Fate, lost_request, lost_reply, delivered, exchange}
use mini_sb_agent.ControlPlane.Delivery.{
  sends, StandsFor, IsConnected, outcome, push_traffic-outcome, StandsFor-apply,
}

-- One push: what becomes of it, and what the server draws.
pub record Attempt : Type 0 where
  pub fate : Fate
  pub now : ℕ
  pub revision : Text

abbrev pub arrives : Fate → Bool
arrives lost_request = false
arrives lost_reply = true
arrives delivered = true

-- The calls of the store that pushes make for the agent `a`.
unfoldable pub calls_of : Text → List (TrafficPushRequest × Attempt) → List Call
calls_of a [] = []
calls_of a ((p, x) ∷ xs) =
    let rest = calls_of a xs in if sends p && arrives x.fate then applies x.now a p ∷ rest else rest

module _ {W : Type 0} (json : Json W) (server : Server) (path_of : Text → Text)
    (encode : TrafficPushRequest → W) (c : ControlPlaneClient) where
  abbrev pub push_once :
      TrafficPushRequest → Attempt → Store → Result ControlPlaneError Unit × Store
  push_once p x s = push_traffic (exchange json server path_of x.fate x.now x.revision) encode c p s

  -- The store after pushes, one after the other.
  unfoldable pub push_all : List (TrafficPushRequest × Attempt) → Store → Store
  push_all [] s = s
  push_all ((p, x) ∷ xs) s = push_all xs (push_once p x s).1

  abbrev Connected : TrafficPushRequest → Type 0
  Connected p = IsConnected json server path_of encode c p

  push_idle :
      (p : TrafficPushRequest) (x : Attempt) (s : Store) → sends p ≡ false → (push_once p x s).1 ≡ s
  unfolding push_traffic
  push_idle p x s e = ground (arith, e)

  push-step :
      (a : Text) (p : TrafficPushRequest) (x : Attempt) (s : Store)
      → Connected p
      → StandsFor c.token a s
      → sends p ≡ true
      → (push_once p x s).1 ≡ (if arrives x.fate then (apply_traffic x.now a p s).1 else s)
  push-step a p x s h k go =
      rw (push_traffic-outcome json server path_of encode c p a x.fate x.now x.revision s h k go)
        (by_fate x.fate)
    where
      by_fate :
          (f : Fate)
          → (outcome f (apply_traffic x.now a p s) s).1
            ≡ (if arrives f then (apply_traffic x.now a p s).1 else s)
      by_fate lost_request = refl
      by_fate lost_reply = refl
      by_fate delivered = refl

  -- The pushes of a connected client whose token stands for the agent `a`, each of a batch of its own
  -- or a repetition, lost or not, do to the store exactly what the calls of `ApplyTraffic` by those
  -- that arrive do.
  pub push_all-run :
      (a : Text) (xs : List (TrafficPushRequest × Attempt)) (s : Store)
      → All (λ x. Connected x.0) xs
      → StandsFor c.token a s
      → push_all xs s ≡ run server.digest (calls_of a xs) s
  unfolding push_all calls_of run step
  push_all-run a [] s h k = refl
  push_all-run a ((p, x) ∷ xs) s h k = elim (Bool-cases (sends p)) [
    | inr idle ↦ rw (push_idle p x s idle, idle) (push_all-run a xs s h.1 k)
    | inl go ↦
        let one = push-step a p x s h.0 k go in
        elim (Bool-cases (arrives x.fate)) [
          | inl here ↦
              rw (one, go, here)
                (push_all-run a xs _ h.1
                  (StandsFor-apply json server path_of encode c p a x.now s k))
          | inr lost ↦ rw (one, go, lost) (push_all-run a xs s h.1 k)
        ]
  ]
