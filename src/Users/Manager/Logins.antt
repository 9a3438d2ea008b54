-- ===== src/Users/Manager/Logins.antt =====
-- What deleting and adding the secrets that changed makes of a set of secrets, for the applications of
-- users in cmd/mini-sb-agent/user_apply_vless_enabled.go and user_apply_hy2_enabled.go.
use mini_sb_agent.Base.{
  ℕ, ◌≡◌, refl, sym, ap, ◌∙◌, inl, inr, Bool, true, false, not, ◌&&◌, ◌||◌, some, List, [], ◌∷◌,
  arith, Bool-cases, Option-cases, is_empty, any, keep, ◌==◌, nat_eq, list_eq, pair_eq,
  list_beq_iff, Map, lookup, IsMap, Text,
}
use mini_sb_agent.Users.{User, users_by_id, same_credentials, is_unchanged, user_changes}
use mini_sb_agent.Users.Delta.{Listed, user_changes-exact}
use mini_sb_agent.Users.Manager.Inbounds.{removed_secrets}

abbrev pub member : Text → List Text → Bool
member x ss = any (λ s. s == x) ss

-- Some user of the list has the secret, which is not empty.
abbrev pub HasSecretIn : (User → Text) → Text → List User → Type 0
HasSecretIn f x us = (u : User) × Listed u us × (f u ≡ x) × (is_empty x ≡ false)

-- Some user of the map has the secret, which is not empty.
abbrev pub HasSecretOf : (User → Text) → Text → Map ℕ User → Type 0
HasSecretOf f x m =
    (id : ℕ) × ((u : User) × (lookup id m ≡ some u) × (f u ≡ x) × (is_empty x ≡ false))

same_credentials_sym : (u v : User) → same_credentials u v ≡ true → same_credentials v u ≡ true
unfolding same_credentials
same_credentials_sym u v h = ground (
  arith,
  h,
  list_beq_iff u.uuid v.uuid,
  list_beq_iff u.password v.password,
  list_beq_iff u.name v.name,
  list_beq_iff v.uuid u.uuid,
  list_beq_iff v.password u.password,
  list_beq_iff v.name u.name,
)

module _ (f : User → Text) where
  member_sound :
      (x : Text) (us : List User) → member x (removed_secrets f us) ≡ true → HasSecretIn f x us
  unfolding any keep
  member_sound x [] h = cc
  member_sound x (u ∷ us) h = elim (Bool-cases (is_empty (f u))) [
    | inl empty ↦ let (v, l, e, n) = member_sound x us (rw empty at h) in (v, inr l, e, n)
    | inr shown ↦ elim (Bool-cases (f u == x)) [
      | inl here ↦
          let same : f u ≡ x = ground (arith, here, list_beq_iff (f u) x) in
          (u, inl refl, same, ap is_empty (sym same) ∙ shown)
      | inr later ↦
          let (v, l, e, n) = member_sound x us (rw (shown, later) at h) in (v, inr l, e, n)
    ]
  ]

  member_complete :
      (x : Text) (us : List User) (u : User)
      → Listed u us
      → f u ≡ x
      → is_empty x ≡ false
      → member x (removed_secrets f us) ≡ true
  unfolding any keep
  member_complete x [] u l e n = absurd l
  member_complete x (v ∷ us) u (inl here) e n =
      let same : f v ≡ x = ap f here ∙ e in
      let shown : is_empty (f v) ≡ false = ap is_empty same ∙ n in
      rw shown (ground (arith, same, list_beq_iff (f v) x))
  member_complete x (v ∷ us) u (inr later) e n =
      let rest = member_complete x us u later e n in
      elim (Bool-cases (is_empty (f v))) [
        | inl empty ↦ rw empty rest
        | inr shown ↦ rw shown (ground (arith, rest))
      ]

-- No two users of the map have the same secret, unless it is empty.
abbrev pub HasDistinct : (User → Text) → Map ℕ User → Type 0
HasDistinct f m =
    (i j : ℕ) (u v : User)
    → lookup i m ≡ some u
    → lookup j m ≡ some v
    → f u ≡ f v
    → is_empty (f u) ≡ false
    → i ≡ j

-- The secret is one of the equal credentials.
abbrev pub IsCredential : (User → Text) → Type 0
IsCredential f = (u v : User) → same_credentials u v ≡ true → f u ≡ f v

-- Whether a secret is accepted after the secrets of those who left are deleted and those of the
-- new ones added.
abbrev pub after : (User → Text) → Map ℕ User → List User → Text → Bool → Bool
after f old next x accepted =
    let (removed, added) = user_changes old next in
    (accepted && not (member x (removed_secrets f removed))) || member x (removed_secrets f added)

module _ (f : User → Text) (credential : IsCredential f) (old : Map ℕ User) (next : List User)
    (is_map : IsMap old) (distinct : HasDistinct f old) (x : Text) where
  -- A user of one map that the other has unchanged has its secret there.
  unchanged-secret :
      (m : Map ℕ User) (id : ℕ) (u : User)
      → is_unchanged (lookup id m) u ≡ true
      → (v : User) × (lookup id m ≡ some v) × (same_credentials u v ≡ true) × (f v ≡ f u)
  unchanged-secret m id u e = elim (Option-cases (lookup id m)) [
    | inl missing ↦ absurd (ground (arith, missing, e))
    | inr (v, at) ↦
        let same : same_credentials u v ≡ true = rw at at e in
        (v, at, same, sym (credential u v same))
  ]

  pub after_sound :
      (accepted : Bool)
      → (accepted ≡ true → HasSecretOf f x old)
      → after f old next x accepted ≡ true
      → HasSecretOf f x (users_by_id next)
  after_sound accepted before h =
      let (removed, added) = user_changes old next in
      elim (Bool-cases (member x (removed_secrets f added))) [
        | inl new ↦
            let (u, l, e, n) = member_sound f x added new in
            let (id, at, changed) = (user_changes-exact old next u is_map).1.0 l in
            (id, (u, at, e, n))
        | inr not_new ↦
            let was : accepted ≡ true = ground (arith, h, not_new) in
            let kept : member x (removed_secrets f removed) ≡ false = ground (arith, h, not_new) in
            let (id, (w, at, e, n)) = before was in
            elim (Bool-cases (is_unchanged (lookup id (users_by_id next)) w)) [
              | inl same ↦
                  let (v, there, creds, secret) = unchanged-secret (users_by_id next) id w same in
                  (id, (v, there, secret ∙ e, n))
              | inr changed ↦
                  let l = (user_changes-exact old next w is_map).0.1 (id, at, changed) in
                  let gone = member_complete f x removed w l e n in
                  absurd (ground (arith, gone, kept))
            ]
      ]

  pub after_complete :
      (accepted : Bool)
      → (HasSecretOf f x old → accepted ≡ true)
      → HasSecretOf f x (users_by_id next)
      → after f old next x accepted ≡ true
  after_complete accepted before (id, (v, at, e, n)) =
      let (removed, added) = user_changes old next in
      elim (Bool-cases (is_unchanged (lookup id old) v)) [
        | inr changed ↦
            let l = (user_changes-exact old next v is_map).1.1 (id, at, changed) in
            let new = member_complete f x added v l e n in ground (arith, new)
        | inl same ↦
            let (w, there, creds, secret) = unchanged-secret old id v same in
            let was = before (id, (w, there, secret ∙ e, n)) in
            elim (Bool-cases (member x (removed_secrets f removed))) [
              | inr kept ↦ ground (arith, was, kept)
              | inl gone ↦
                  let (r, l, er, nr) = member_sound f x removed gone in
                  let (j, old_at, changed) = (user_changes-exact old next r is_map).0.0 l in
                  let same_id : j ≡ id =
                    distinct j id r w old_at there (er ∙ sym (secret ∙ e)) (ap is_empty er ∙ nr) in
                  let same_user : some r ≡ some w =
                    sym old_at ∙ (ap (λ k. lookup k old) same_id ∙ there) in
                  let is_w : r ≡ w = ground (arith, same_user) in
                  let kept_w : is_unchanged (lookup id (users_by_id next)) w ≡ true =
                    rw at (same_credentials_sym v w creds) in
                  let gone_w : is_unchanged (lookup id (users_by_id next)) w ≡ false =
                    ap (λ y. is_unchanged (lookup id (users_by_id next)) y) (sym is_w)
                    ∙ (ap (λ k. is_unchanged (lookup k (users_by_id next)) r) (sym same_id)
                        ∙ changed) in
                  absurd (ground (arith, kept_w, gone_w))
            ]
      ]
