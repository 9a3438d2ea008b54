-- ===== src/Panel/Commit.antt =====
-- What `flush` of panelapi/sync.go commits.
use mini_sb_agent.Base.{
  ℕ, ◌≡◌, refl, ◌∙◌, inl, inr, true, ◌&&◌, Option, none, some, [], ◌∷◌, arith, if◌then◌else◌,
  Option-cases, is_empty, nat_eq, list_eq, pair_eq, Map, lookup, IsMap, lookup-select, Text,
}
use mini_sb_agent.Panel.{
  Delta, Acked, is_numeric_user, numeric_users, is_allowed, committed_users, commit_delta,
}

-- The bytes of a user of an inbound.
abbrev pub lookup_in : Text → Option (Map Text (ℕ × ℕ)) → Option (ℕ × ℕ)
lookup_in user none = none
lookup_in user (some users) = lookup user users

abbrev pub entry : Text → Text → Delta → Option (ℕ × ℕ)
entry tag user delta = lookup_in user (lookup tag delta)

-- The delta is a map of maps.
abbrev pub IsDelta : Delta → Type 0
IsDelta delta =
    IsMap delta
    × ((tag : Text) (users : Map Text (ℕ × ℕ)) → lookup tag delta ≡ some users → IsMap users)

pub lookup-empty : (m : Map Text (ℕ × ℕ)) (k : Text) → is_empty m ≡ true → lookup k m ≡ none
unfolding lookup
lookup-empty [] k e = refl
lookup-empty (x ∷ m) k e = cc

pub lookup-numeric_users :
    (users : Map Text (ℕ × ℕ)) (user : Text)
    → IsMap users
    → lookup user (numeric_users users) ≡ (if is_numeric_user user then lookup user users else none)
unfolding numeric_users
lookup-numeric_users users user h =
    lookup-select (λ j v. if is_numeric_user j then some v else none) user users h ∙ ground arith

-- What `commitDelta` keeps, entry by entry: the bytes of the numeric users of the allowed inbounds,
-- unchanged, and nothing else.
pub entry-commit_delta :
    (tag user : Text) (delta : Delta) (only : Option Acked)
    → IsDelta delta
    → entry tag user (commit_delta delta only)
      ≡ (if is_allowed only tag && is_numeric_user user then entry tag user delta else none)
unfolding commit_delta
entry-commit_delta tag user delta only (h, inner) = elim (Option-cases (lookup tag delta)) [
  | inl missing ↦ ground (arith, lookup-select (committed_users only) tag delta h)
  | inr (users, there) ↦ ground (
    arith,
    lookup-select (committed_users only) tag delta h,
    lookup-numeric_users users user (inner tag users there),
    lookup-empty (numeric_users users) user,
  )
]
