-- ===== src/Users/Manager/Rounds.antt =====
-- Who can log in after any number of rounds: `ApplyBoxByInbound` of cmd/mini-sb-agent/user_manager.go,
-- which the syncer calls once a round.
use mini_sb_agent.Base.{
  ℕ, ◌≡◌, refl, sym, ap, inl, inr, Bool, true, false, Option, some, List, [], ◌∷◌, arith,
  Bool-cases, All, ◌==◌, nat_eq, list_eq, pair_eq, Map, lookup, IsMap, Text,
}
use mathlib.Core.Path.{subst}
use mini_sb_agent.Users.{User, users_by_id}
use mini_sb_agent.Users.Manager.{
  UserManager, new_user_manager, new_limiter_pair, users_or_none, inbound_snapshot,
}
use mini_sb_agent.Users.Manager.Inbounds.{
  InboundMethods, VlessUser, Hysteria2User, Protocol, vless_protocol, hysteria2_protocol,
  other_protocol, apply_vless_users, apply_hysteria2_users, apply_users, call_del, call_add_vless,
  call_add_hysteria2, attempt, and_then, found_users, apply_inbounds, apply_box_by_inbound,
}
use mini_sb_agent.Users.Manager.Logins.{HasDistinct}
use mini_sb_agent.Users.Manager.Accepts.{InboundLaws, secret, AcceptsExactly}
use mini_sb_agent.Users.Manager.InStep.{
  InStep, HasApartSecrets, apply_box_by_inbound-InStep, inbound_snapshot-commit_users,
}

-- No error comes from an inbound, as none comes from sing-box's.
pub record NeverFails {I : Type 0} (methods : InboundMethods I) : Type 0 where
  pub del_done : (ss : List Text) (i : I) → (i' : I) × (methods.del_users ss i ≡ some i')
  pub add_vless_done :
      (us : List VlessUser) (i : I) → (i' : I) × (methods.add_vless_users us i ≡ some i')
  pub add_hysteria2_done :
      (us : List Hysteria2User) (i : I) → (i' : I) × (methods.add_hysteria2_users us i ≡ some i')

module _ {I : Type 0} (methods : InboundMethods I) (never_fails : NeverFails methods) where
  call_del-done : (ss : List Text) (i : I) → (i' : I) × (call_del methods ss i ≡ some i')
  call_del-done [] i = (i, refl)
  call_del-done (s ∷ ss) i = never_fails.del_done (s ∷ ss) i

  call_add_vless-done :
      (us : List VlessUser) (i : I) → (i' : I) × (call_add_vless methods us i ≡ some i')
  call_add_vless-done [] i = (i, refl)
  call_add_vless-done (u ∷ us) i = never_fails.add_vless_done (u ∷ us) i

  call_add_hysteria2-done :
      (us : List Hysteria2User) (i : I) → (i' : I) × (call_add_hysteria2 methods us i ≡ some i')
  call_add_hysteria2-done [] i = (i, refl)
  call_add_hysteria2-done (u ∷ us) i = never_fails.add_hysteria2_done (u ∷ us) i

  both-done :
      (first : Option I) (second : I → Option I) (i : I)
      → (i' : I) × (first ≡ some i')
      → ((j : I) → (j' : I) × (second j ≡ some j'))
      → (and_then methods (attempt methods first i) second).1 ≡ true
  both-done first second i (i1, one) two = let (i2, done) = two i1 in rw (one, done) refl

  apply_users-done :
      (p : Protocol) (i : I) (us : List User) (old : Map ℕ User)
      → (apply_users methods p i us old).1 ≡ true
  unfolding apply_vless_users apply_hysteria2_users
  apply_users-done vless_protocol i us old =
      both-done _ (call_add_vless methods _) i (call_del-done _ i) (call_add_vless-done _)
  apply_users-done hysteria2_protocol i us old =
      both-done _ (call_add_hysteria2 methods _) i (call_del-done _ i) (call_add_hysteria2-done _)
  apply_users-done other_protocol i us old = refl

  apply_inbounds-done :
      (inbounds : Map Text (Protocol × I)) (lists : Map Text (List User)) (m : UserManager)
      → (apply_inbounds methods inbounds lists m).1 ≡ true
  unfolding apply_inbounds
  apply_inbounds-done [] lists m = refl
  apply_inbounds-done ((t, (q, j)) ∷ inbounds) lists m = ground (
    arith,
    apply_users-done q j (found_users (lookup t lists)) (users_or_none (lookup t m.by_inbound)),
    apply_inbounds-done inbounds lists m,
  )

-- The rounds' lists: each inbound has one, in which no two users have one secret.
abbrev pub AreLists : Map Text (List User) → Type 0
AreLists lists = IsMap lists × HasApartSecrets lists

-- No inbound lets anyone in, as before the first round.
abbrev pub LetsNoOneIn : {I : Type 0} → (Text → I → Bool) → Map Text (Protocol × I) → Type 0
LetsNoOneIn accepts inbounds =
    (tag x : Text) (p : Protocol) (i : _) → lookup tag inbounds ≡ some (p, i) → accepts x i ≡ false

no_snapshot :
    (node_mbps now : ℕ) (tag : Text) → inbound_snapshot tag (new_user_manager node_mbps now) ≡ []
unfolding new_user_manager new_limiter_pair inbound_snapshot lookup
no_snapshot node_mbps now tag = ground arith

empty-HasDistinct : (f : User → Text) → HasDistinct f []
unfolding lookup
empty-HasDistinct f i j u v e = absurd (ground (arith, e))

empty-AcceptsExactly :
    {I : Type 0} (accepts : Text → I → Bool) (p : Protocol) (i : I)
    → ((x : Text) → accepts x i ≡ false)
    → AcceptsExactly accepts p i []
unfolding lookup
empty-AcceptsExactly accepts vless_protocol i none_in = λ x. (
  (λ h. absurd (ground (arith, h, none_in x))),
  λ (id, (u, e, same, shown)). absurd (ground (arith, e)),
)
empty-AcceptsExactly accepts hysteria2_protocol i none_in = λ x. (
  (λ h. absurd (ground (arith, h, none_in x))),
  λ (id, (u, e, same, shown)). absurd (ground (arith, e)),
)
empty-AcceptsExactly accepts other_protocol i none_in = tt

module _ {I : Type 0} (methods : InboundMethods I) (enabled : Bool) where
  -- The applications of the rounds, each at its time.
  abbrev pub apply_rounds :
      List (ℕ × Map Text (List User))
      → Map Text (Protocol × I) × UserManager
      → Map Text (Protocol × I) × UserManager
  apply_rounds [] s = s
  apply_rounds ((now, lists) ∷ rounds) s =
      let (inbounds', m', done) = apply_box_by_inbound methods enabled now s.0 lists s.1 in
      apply_rounds rounds (inbounds', m')

  module _ (tag : Text) (p : Protocol) where
    -- The tag has an inbound of the protocol.
    abbrev pub HasInbound : Map Text (Protocol × I) → Type 0
    HasInbound inbounds = (i : I) × (lookup tag inbounds ≡ some (p, i))

    apply_inbounds-HasInbound :
        (inbounds : Map Text (Protocol × I)) (lists : Map Text (List User)) (m : UserManager)
        → HasInbound inbounds
        → HasInbound (apply_inbounds methods inbounds lists m).0
    unfolding apply_inbounds lookup
    apply_inbounds-HasInbound [] lists m h = h
    apply_inbounds-HasInbound ((t, (q, j)) ∷ inbounds) lists m (i, at) =
        let us = found_users (lookup t lists) in
        let (j', done) = apply_users methods q j us (users_or_none (lookup t m.by_inbound)) in
        elim (Bool-cases (t == tag)) [
          | inl here ↦
              let entry : some (q, j) ≡ some (p, i) = rw here at at in
              let protocols : q ≡ p = ground (arith, entry) in
              (j', rw here (ap (λ k. some (k, j')) protocols))
          | inr other ↦
              let rest : lookup tag inbounds ≡ some (p, i) = rw other at at in
              elim (Bool-cases done) [
                | inl went ↦
                    let (i', there) = apply_inbounds-HasInbound inbounds lists m (i, rest) in
                    (i', rw (other, went) there)
                | inr failed ↦ (i, rw (other, failed) rest)
              ]
        ]

    apply_rounds-HasInbound :
        (rounds : List (ℕ × Map Text (List User))) (s : Map Text (Protocol × I) × UserManager)
        → HasInbound s.0
        → HasInbound (apply_rounds rounds s).0
    unfolding apply_box_by_inbound
    apply_rounds-HasInbound [] s h = h
    apply_rounds-HasInbound ((now, lists) ∷ rounds) s h =
        apply_rounds-HasInbound rounds _ (apply_inbounds-HasInbound s.0 lists s.1 h)

  module _ (accepts : Text → I → Bool) (laws : InboundLaws methods accepts)
      (never_fails : NeverFails methods) where
    new_user_manager-InStep :
        (node_mbps now : ℕ) (inbounds : Map Text (Protocol × I))
        → LetsNoOneIn accepts inbounds
        → InStep accepts inbounds (new_user_manager node_mbps now)
    new_user_manager-InStep node_mbps now inbounds empty = record {
      is_map = λ tag. subst IsMap (sym (no_snapshot node_mbps now tag)) tt;
      distinct = λ tag p i at.
          subst (HasDistinct (secret p)) (sym (no_snapshot node_mbps now tag))
            (empty-HasDistinct (secret p));
      exact = λ tag p i at.
          subst (AcceptsExactly accepts p i) (sym (no_snapshot node_mbps now tag))
            (empty-AcceptsExactly accepts p i (λ x. empty tag x p i at));
    }

    apply_rounds-InStep :
        (rounds : List (ℕ × Map Text (List User))) (s : Map Text (Protocol × I) × UserManager)
        → All (λ r. AreLists r.1) rounds
        → InStep accepts s.0 s.1
        → InStep accepts (apply_rounds rounds s).0 (apply_rounds rounds s).1
    unfolding apply_box_by_inbound
    apply_rounds-InStep [] s good h = h
    apply_rounds-InStep ((now, lists) ∷ rounds) (inbounds, m) (g, good) h =
        let done = apply_inbounds-done methods never_fails inbounds lists m in
        apply_rounds-InStep rounds _ good (
          rw done (
            apply_box_by_inbound-InStep methods accepts laws enabled now inbounds lists m g.0 g.1 h
              done))

    -- However many rounds have been applied to inbounds that let no one in: after one more, the inbound
    -- of a tag is there, and a VLESS inbound lets in exactly the UUIDs and a Hysteria2 inbound exactly
    -- the passwords of the users on the last round's list of that tag; earlier users are out. The
    -- inbounds add and delete users as sing-box's do and never fail, and no list that was applied has
    -- two users with one UUID or one password.
    pub apply_rounds-accepts :
        (node_mbps start now : ℕ) (inbounds : Map Text (Protocol × I))
        (rounds : List (ℕ × Map Text (List User))) (last : Map Text (List User)) (tag : Text)
        (p : Protocol)
        → LetsNoOneIn accepts inbounds
        → All (λ r. AreLists r.1) rounds
        → AreLists last
        → HasInbound tag p inbounds
        → (let s = apply_rounds rounds (inbounds, new_user_manager node_mbps start) in
            (i : I) × (lookup tag (apply_box_by_inbound methods enabled now s.0 last s.1).0
              ≡ some (p, i))
            × AcceptsExactly accepts p i (users_by_id (found_users (lookup tag last))))
    unfolding apply_box_by_inbound
    apply_rounds-accepts node_mbps start now inbounds rounds last tag p empty good g there =
        let s = apply_rounds rounds (inbounds, new_user_manager node_mbps start) in
        let before =
          apply_rounds-InStep rounds (inbounds, new_user_manager node_mbps start) good
            (new_user_manager-InStep node_mbps start inbounds empty) in
        let after_last =
          apply_box_by_inbound-InStep methods accepts laws enabled now s.0 last s.1 g.0 g.1 before
            (apply_inbounds-done methods never_fails s.0 last s.1) in
        let (i, at) = apply_inbounds-HasInbound tag p s.0 last s.1 (
          apply_rounds-HasInbound tag p rounds (inbounds, new_user_manager node_mbps start)
            there) in
        (
          i,
          at,
          subst (AcceptsExactly accepts p i)
              (inbound_snapshot-commit_users enabled now tag last s.1 g.0)
              (after_last.exact tag p i at),
        )
