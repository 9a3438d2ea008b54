-- ===== src/Users/Manager/Accepts.antt =====
-- Who can log in after an application of users: cmd/mini-sb-agent/user_apply_vless_enabled.go and
-- user_apply_hy2_enabled.go.
use mini_sb_agent.Base.{
  ℕ, ◌≡◌, refl, sym, ap, ◌∙◌, ◌↔◌, inl, inr, Bool, true, false, not, ◌&&◌, ◌||◌, Option, none, some,
  List, [], ◌∷◌, map, arith, Bool-cases, Option-cases, is_empty, any, keep, ◌==◌, nat_eq, list_eq,
  pair_eq, list_beq_iff, Map, IsMap, Text,
}
use mini_sb_agent.Users.{User, users_by_id, same_credentials, user_changes}
use mini_sb_agent.Users.Manager.Inbounds.{
  InboundMethods, VlessUser, Hysteria2User, Protocol, vless_protocol, hysteria2_protocol,
  other_protocol, vless_user_from_panel_user, hysteria2_user_from_panel_user, nonempty,
  removed_secrets, apply_vless_users, apply_hysteria2_users, apply_users, call_del, call_add_vless,
  call_add_hysteria2, attempt, and_then,
}
use mini_sb_agent.Users.Manager.Logins.{
  member, HasSecretOf, HasDistinct, IsCredential, after, after_sound, after_complete,
}

-- What sing-box's inbounds do: `DelUsers` takes away the secrets that it is given, `AddUsers` adds
-- those of its users. `accepts` tells who can log in.
pub record InboundLaws {I : Type 0} (methods : InboundMethods I) (accepts : Text → I → Bool)
    : Type 0 where
  pub deletes :
      (ss : List Text) (i i' : I) (x : Text)
      → methods.del_users ss i ≡ some i'
      → accepts x i' ≡ (accepts x i && not (member x ss))
  pub adds_vless :
      (us : List VlessUser) (i i' : I) (x : Text)
      → methods.add_vless_users us i ≡ some i'
      → accepts x i' ≡ (accepts x i || any (λ u. u.vless_uuid == x) us)
  pub adds_hysteria2 :
      (us : List Hysteria2User) (i i' : I) (x : Text)
      → methods.add_hysteria2_users us i ≡ some i'
      → accepts x i' ≡ (accepts x i || any (λ u. u.hysteria2_password == x) us)

-- What a user of an inbound of the protocol logs in with.
abbrev pub secret : Protocol → User → Text
secret vless_protocol u = u.uuid
secret hysteria2_protocol u = u.password
secret other_protocol u = []

secret-IsCredential : (p : Protocol) → IsCredential (secret p)
unfolding same_credentials
secret-IsCredential vless_protocol u v h = ground (arith, h, list_beq_iff u.uuid v.uuid)
secret-IsCredential hysteria2_protocol u v h = ground (arith, h, list_beq_iff u.password v.password)
secret-IsCredential other_protocol u v h = refl

-- The list that is added holds the users' secrets, without the empty ones.
added-member {ℓ} :
    {B : Type ℓ} (f : User → Text) (make : User → B) (read : B → Text)
    → ((u : User) → read (make u) ≡ f u)
    → (x : Text) (us : List User)
    → any (λ b. read b == x) (map make (keep (λ u. nonempty (f u)) us))
      ≡ member x (removed_secrets f us)
unfolding any keep
added-member f make read same x [] = refl
added-member f make read same x (u ∷ us) = elim (Bool-cases (is_empty (f u))) [
  | inl empty ↦ rw empty (added-member f make read same x us)
  | inr shown ↦
      let rest = added-member f make read same x us in
      let here : (read (make u) == x) ≡ (f u == x) = ap (λ s. s == x) (same u) in
      rw shown (ground (arith, rest, here))
]

-- Two calls, the second only after the first went through.
both_done :
    {I : Type 0} (methods : InboundMethods I) (first : Option I) (second : I → Option I) (i i' : I)
    → and_then methods (attempt methods first i) second ≡ (i', true)
    → (i1 : I) × (first ≡ some i1) × (second i1 ≡ some i')
both_done methods none second i i' e = absurd (ground (arith, e))
both_done methods (some i1) second i i' e = elim (Option-cases (second i1)) [
  | inl failed ↦
      let stuck : (i1, false) ≡ (i', true) = rw failed at e in absurd (ground (arith, stuck))
  | inr (i2, done) ↦
      let ends : (i2, true) ≡ (i', true) = rw done at e in
      (i1, refl, done ∙ ap (λ r. some r.0) ends)
]

module _ {I : Type 0} (methods : InboundMethods I) (accepts : Text → I → Bool)
    (laws : InboundLaws methods accepts) (x : Text) where
  call_del-accepts :
      (ss : List Text) (i i' : I)
      → call_del methods ss i ≡ some i'
      → accepts x i' ≡ (accepts x i && not (member x ss))
  unfolding any
  call_del-accepts [] i i' e = let same : i ≡ i' = ground (arith, e) in rw (← same) (ground arith)
  call_del-accepts (s ∷ ss) i i' e = laws.deletes (s ∷ ss) i i' x e

  call_add_vless-accepts :
      (us : List VlessUser) (i i' : I)
      → call_add_vless methods us i ≡ some i'
      → accepts x i' ≡ (accepts x i || any (λ u. u.vless_uuid == x) us)
  unfolding any
  call_add_vless-accepts [] i i' e =
      let same : i ≡ i' = ground (arith, e) in rw (← same) (ground arith)
  call_add_vless-accepts (u ∷ us) i i' e = laws.adds_vless (u ∷ us) i i' x e

  call_add_hysteria2-accepts :
      (us : List Hysteria2User) (i i' : I)
      → call_add_hysteria2 methods us i ≡ some i'
      → accepts x i' ≡ (accepts x i || any (λ u. u.hysteria2_password == x) us)
  unfolding any
  call_add_hysteria2-accepts [] i i' e =
      let same : i ≡ i' = ground (arith, e) in rw (← same) (ground arith)
  call_add_hysteria2-accepts (u ∷ us) i i' e = laws.adds_hysteria2 (u ∷ us) i i' x e

  apply_vless_users-accepts :
      (i i' : I) (old : Map ℕ User) (next : List User)
      → apply_vless_users methods i next old ≡ (i', true)
      → accepts x i' ≡ after (secret vless_protocol) old next x (accepts x i)
  unfolding apply_vless_users vless_user_from_panel_user
  apply_vless_users-accepts i i' old next e =
      let (removed, added) = user_changes old next in
      let ss = removed_secrets (λ u. u.uuid) removed in
      let us = map vless_user_from_panel_user (keep (λ u. nonempty u.uuid) added) in
      let (i1, deleted, done) =
        both_done methods (call_del methods ss i) (call_add_vless methods us) i i' e in
      let shown =
        added-member (λ u. u.uuid) vless_user_from_panel_user (λ u. u.vless_uuid) (λ u. refl) x
          added in
      let d = call_del-accepts ss i i1 deleted in
      let a = call_add_vless-accepts us i1 i' done in ground (arith, a, d, shown)

  apply_hysteria2_users-accepts :
      (i i' : I) (old : Map ℕ User) (next : List User)
      → apply_hysteria2_users methods i next old ≡ (i', true)
      → accepts x i' ≡ after (secret hysteria2_protocol) old next x (accepts x i)
  unfolding apply_hysteria2_users
  apply_hysteria2_users-accepts i i' old next e =
      let (removed, added) = user_changes old next in
      let ss = removed_secrets (λ u. u.password) removed in
      let us = map hysteria2_user_from_panel_user (keep (λ u. nonempty u.password) added) in
      let (i1, deleted, done) =
        both_done methods (call_del methods ss i) (call_add_hysteria2 methods us) i i' e in
      let shown =
        added-member (λ u. u.password) hysteria2_user_from_panel_user (λ u. u.hysteria2_password)
          (λ u. refl) x added in
      let d = call_del-accepts ss i i1 deleted in
      let a = call_add_hysteria2-accepts us i1 i' done in ground (arith, a, d, shown)

-- The inbound lets in exactly those who have the secret of some user of the map. Of an inbound of
-- another protocol, whose users the agent does not set, nothing is asked.
abbrev pub AcceptsExactly : {I : Type 0} → (Text → I → Bool) → Protocol → I → Map ℕ User → Type 0
AcceptsExactly accepts vless_protocol i m =
    (x : Text) → (accepts x i ≡ true) ↔ HasSecretOf (secret vless_protocol) x m
AcceptsExactly accepts hysteria2_protocol i m =
    (x : Text) → (accepts x i ≡ true) ↔ HasSecretOf (secret hysteria2_protocol) x m
AcceptsExactly accepts other_protocol i m = Unit {0}

module _ {I : Type 0} (methods : InboundMethods I) (accepts : Text → I → Bool)
    (laws : InboundLaws methods accepts) (i i' : I) (old : Map ℕ User) (next : List User)
    (is_map : IsMap old) where
  after-exact :
      (p : Protocol) (x : Text)
      → HasDistinct (secret p) old
      → (accepts x i ≡ true) ↔ HasSecretOf (secret p) x old
      → accepts x i' ≡ after (secret p) old next x (accepts x i)
      → (accepts x i' ≡ true) ↔ HasSecretOf (secret p) x (users_by_id next)
  after-exact p x distinct before now = (
    (λ h.
        after_sound (secret p) (secret-IsCredential p) old next is_map distinct x (accepts x i)
          before.0 (sym now ∙ h)),
    (λ h.
        now
        ∙ after_complete (secret p) (secret-IsCredential p) old next is_map distinct x (accepts x i)
            before.1 h),
  )

  -- After `applyVLESSUsers` or `applyHysteria2Users` went through, the inbound lets in exactly the
  -- panel's users.
  pub apply_users-exact :
      (p : Protocol)
      → HasDistinct (secret p) old
      → AcceptsExactly accepts p i old
      → apply_users methods p i next old ≡ (i', true)
      → AcceptsExactly accepts p i' (users_by_id next)
  apply_users-exact vless_protocol distinct before e = λ x.
      after-exact vless_protocol x distinct (before x)
        (apply_vless_users-accepts methods accepts laws x i i' old next e)
  apply_users-exact hysteria2_protocol distinct before e = λ x.
      after-exact hysteria2_protocol x distinct (before x)
        (apply_hysteria2_users-accepts methods accepts laws x i i' old next e)
  apply_users-exact other_protocol distinct before e = tt
