-- ===== src/Users/Manager/InStep.antt =====
-- The invariant between the snapshots of cmd/mini-sb-agent/user_manager.go and what the inbounds
-- accept.
use mini_sb_agent.Base.{
  ℕ, ◌≡◌, refl, sym, ap, ◌∙◌, inl, inr, Bool, true, Option, none, some, List, [], ◌∷◌, arith,
  if◌then◌else◌, Bool-cases, Option-cases, ◌==◌, nat_eq, list_eq, pair_eq, list_beq_iff, Map,
  lookup, has, IsMap, select, answer, lookup-select, Text,
}
use mathlib.Core.Path.{subst}
use mini_sb_agent.Users.{User, users_by_id, users_by_id_from}
use mini_sb_agent.Users.Delta.{users_by_id_from-IsMap}
use mini_sb_agent.Users.Manager.{
  LimiterPair, UserManager, close_absent, close_limiter, close_pair, update_limiter,
  update_limiters, set_pair_rate, new_limiter_pair, users_or_none, inbound_snapshot,
}
use mini_sb_agent.Users.Manager.Inbounds.{
  InboundMethods, Protocol, apply_users, found_users, apply_inbounds, union_of, commit_users,
}
use mini_sb_agent.Users.Manager.Logins.{HasDistinct}
use mini_sb_agent.Users.Manager.Accepts.{InboundLaws, secret, AcceptsExactly, apply_users-exact}

by_inbound-close_limiter :
    (id : ℕ) (m : UserManager) → (close_limiter id m).by_inbound ≡ m.by_inbound
unfolding close_limiter close_pair
by_inbound-close_limiter id m = elim (Option-cases (lookup id m.limiters)) [
  | inl missing ↦ ground (arith, missing)
  | inr (p, there) ↦ ground (arith, there)
]

by_inbound-close_absent :
    (ps : Map ℕ LimiterPair) (us : Map ℕ User) (m : UserManager)
    → (close_absent ps us m).by_inbound ≡ m.by_inbound
unfolding close_absent
by_inbound-close_absent [] us m = refl
by_inbound-close_absent ((id, p) ∷ ps) us m = ground (
  arith,
  by_inbound-close_limiter id m,
  by_inbound-close_absent ps us (if has id us then m else close_limiter id m),
)

module _ (enabled : Bool) (now : ℕ) where
  by_inbound-update_limiter :
      (u : User) (m : UserManager) → (update_limiter enabled now u m).by_inbound ≡ m.by_inbound
  unfolding update_limiter set_pair_rate new_limiter_pair
  by_inbound-update_limiter u m = elim (Option-cases (lookup u.id m.limiters)) [
    | inl missing ↦ ground (arith, missing)
    | inr (p, there) ↦ ground (arith, there)
  ]

  by_inbound-update_limiters :
      (us : Map ℕ User) (m : UserManager)
      → (update_limiters enabled now us m).by_inbound ≡ m.by_inbound
  unfolding update_limiters
  by_inbound-update_limiters [] m = refl
  by_inbound-update_limiters ((id, u) ∷ us) m =
      by_inbound-update_limiters us (update_limiter enabled now u m) ∙ by_inbound-update_limiter u m

  by_inbound-commit_users :
      (lists : Map Text (List User)) (m : UserManager)
      → (commit_users enabled now lists m).by_inbound
        ≡ select (λ tag us. some (users_by_id us)) lists
  unfolding commit_users
  by_inbound-commit_users lists m =
      by_inbound-update_limiters (union_of lists []) _
      ∙ by_inbound-close_absent m.limiters (union_of lists []) _

  -- The snapshot of an inbound after a commit is that of its list.
  pub inbound_snapshot-commit_users :
      (tag : Text) (lists : Map Text (List User)) (m : UserManager)
      → IsMap lists
      → inbound_snapshot tag (commit_users enabled now lists m)
        ≡ users_by_id (found_users (lookup tag lists))
  unfolding inbound_snapshot users_by_id_from
  inbound_snapshot-commit_users tag lists m is_map =
      ap (λ s. users_or_none (lookup tag s)) (by_inbound-commit_users lists m)
      ∙ (ap users_or_none (lookup-select (λ t us. some (users_by_id us)) tag lists is_map)
          ∙ of_list (lookup tag lists))
    where
      of_list :
          (o : Option (List User))
          → users_or_none (answer (λ t us. some (users_by_id us)) tag o)
            ≡ users_by_id (found_users o)
      of_list none = refl
      of_list (some us) = refl

module _ {I : Type 0} (methods : InboundMethods I) (lists : Map Text (List User)) (m : UserManager)
    (tag : Text) (p : Protocol) (i' : I) where
  -- What the loop does with an inbound.
  abbrev of_tag : Protocol → Text → I → I × Bool
  of_tag k s i =
      apply_users methods k i (found_users (lookup s lists)) (users_or_none (lookup s m.by_inbound))

  -- The users of its own tag were applied to an inbound of that tag.
  abbrev WasApplied : Map Text (Protocol × I) → Type 0
  WasApplied inbounds =
      (i : I) × (lookup tag inbounds ≡ some (p, i))
      × (apply_users methods p i (found_users (lookup tag lists)) (inbound_snapshot tag m)
          ≡ (i', true))

  pub lookup-apply_inbounds :
      (inbounds : Map Text (Protocol × I))
      → (apply_inbounds methods inbounds lists m).1 ≡ true
      → lookup tag (apply_inbounds methods inbounds lists m).0 ≡ some (p, i')
      → WasApplied inbounds
  unfolding apply_inbounds lookup inbound_snapshot
  lookup-apply_inbounds [] e found = absurd (ground (arith, found))
  lookup-apply_inbounds ((t, (q, j)) ∷ inbounds) e found =
      let next = found_users (lookup t lists) in
      let old = users_or_none (lookup t m.by_inbound) in
      elim (Bool-cases (apply_users methods q j next old).1) [
        | inr failed ↦ absurd (ground (arith, failed, e))
        | inl done ↦
            let rest : (apply_inbounds methods inbounds lists m).1 ≡ true =
              ground (arith, done, e) in
            elim (Bool-cases (t == tag)) [
              | inl here ↦
                  let same : t ≡ tag = ground (arith, here, list_beq_iff t tag) in
                  let entry : some (q, (apply_users methods q j next old).0) ≡ some (p, i') =
                    rw here at found in
                  let protocols : q ≡ p = ground (arith, entry) in
                  let states : (apply_users methods q j next old).0 ≡ i' = ground (arith, entry) in
                  (
                    j,
                    rw here (ap (λ k. some (k, j)) protocols),
                    ap (λ k. of_tag k tag j) (sym protocols)
                        ∙ (ap (λ s. of_tag q s j) (sym same)
                            ∙ (ap (λ b. ((apply_users methods q j next old).0, b)) done
                                ∙ ap (λ s. (s, true)) states)),
                  )
              | inr other ↦
                  let (i, at, applied) =
                    lookup-apply_inbounds inbounds rest (rw (other, done) at found) in
                  (i, rw other at, applied)
            ]
      ]

-- Each inbound lets in exactly the users of its snapshot, no two of whom have one secret.
pub record InStep {I : Type 0} (accepts : Text → I → Bool) (inbounds : Map Text (Protocol × I))
    (m : UserManager) : Type 0 where
  pub is_map : (tag : Text) → IsMap (inbound_snapshot tag m)
  pub distinct :
      (tag : Text) (p : Protocol) (i : I)
      → lookup tag inbounds ≡ some (p, i)
      → HasDistinct (secret p) (inbound_snapshot tag m)
  pub exact :
      (tag : Text) (p : Protocol) (i : I)
      → lookup tag inbounds ≡ some (p, i)
      → AcceptsExactly accepts p i (inbound_snapshot tag m)

-- No list has two users with one secret, of those that a protocol has.
abbrev pub HasApartSecrets : Map Text (List User) → Type 0
HasApartSecrets lists =
    (p : Protocol) (tag : Text)
    → HasDistinct (secret p) (users_by_id (found_users (lookup tag lists)))

module _ {I : Type 0} (methods : InboundMethods I) (accepts : Text → I → Bool)
    (laws : InboundLaws methods accepts) (enabled : Bool) (now : ℕ) where
  pub apply_box_by_inbound-InStep :
      (inbounds : Map Text (Protocol × I)) (lists : Map Text (List User)) (m : UserManager)
      → IsMap lists
      → HasApartSecrets lists
      → InStep accepts inbounds m
      → (apply_inbounds methods inbounds lists m).1 ≡ true
      → InStep accepts
          (apply_inbounds methods inbounds lists m).0
          (commit_users enabled now lists m)
  apply_box_by_inbound-InStep inbounds lists m lists_map apart before done = record {
    is_map = λ tag.
        subst IsMap (sym (now_in tag))
          (users_by_id_from-IsMap (found_users (lookup tag lists)) [] tt);
    distinct = λ tag p i at. subst (HasDistinct (secret p)) (sym (now_in tag)) (apart p tag);
    exact = λ tag p i' at.
        let (i, was, applied) = lookup-apply_inbounds methods lists m tag p i' inbounds done at in
        subst (AcceptsExactly accepts p i') (sym (now_in tag)) (
          apply_users-exact methods accepts laws i i' (inbound_snapshot tag m)
            (found_users (lookup tag lists)) (before.is_map tag) p (before.distinct tag p i was)
            (before.exact tag p i was) applied);
  }
    where
      now_in :
          (tag : Text)
          → inbound_snapshot tag (commit_users enabled now lists m)
            ≡ users_by_id (found_users (lookup tag lists))
      now_in tag = inbound_snapshot-commit_users enabled now tag lists m lists_map
