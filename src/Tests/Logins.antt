-- ===== src/Tests/Logins.antt =====
-- Inputs for cmd/mini-sb-agent/user_apply_vless_enabled.go and user_apply_hy2_enabled.go: an inbound
-- that is the list of the secrets that it accepts.
use mini_sb_agent.Base.{
  ℕ, ◌≡◌, refl, sym, ap, ◌∙◌, inl, inr, Bool, true, not, ◌&&◌, ◌||◌, some, List, [], ◌∷◌, ◌++◌, map,
  arith, Bool-cases, any, keep, All, ◌==◌, nat_eq, list_eq, pair_eq, list_beq, list_beq_iff, Map,
  lookup, insert, Text, codes,
}
use mini_sb_agent.Users.{User, users_by_id, users_by_id_from}
use mini_sb_agent.Users.Manager.{new_user_manager}
use mini_sb_agent.Users.Manager.Inbounds.{
  InboundMethods, Protocol, vless_protocol, hysteria2_protocol, found_users, apply_box_by_inbound,
}
use mini_sb_agent.Users.Manager.Logins.{member}
use mini_sb_agent.Users.Manager.Accepts.{InboundLaws, AcceptsExactly}
use mini_sb_agent.Users.Manager.InStep.{HasApartSecrets}
use mini_sb_agent.Users.Manager.Rounds.{
  NeverFails, AreLists, LetsNoOneIn, apply_rounds, HasInbound, apply_rounds-accepts,
}

abbrev Inbound : Type 0
Inbound = List Text

abbrev without : List Text → Text → Bool
without ss s = not (member s ss)

abbrev methods : InboundMethods Inbound
methods = record {
  del_users = λ ss i. some (keep (without ss) i);
  add_vless_users = λ us i. some (i ++ map (λ u. u.vless_uuid) us);
  add_hysteria2_users = λ us i. some (i ++ map (λ u. u.hysteria2_password) us);
}

deleted :
    (x : Text) (ss i : List Text)
    → member x (keep (without ss) i) ≡ (member x i && not (member x ss))
unfolding any keep
deleted x ss [] = refl
deleted x ss (s ∷ i) = elim (Bool-cases (s == x)) [
  | inl here ↦
      let same : s ≡ x = ground (arith, here, list_beq_iff s x) in
      let as_x : member s ss ≡ member x ss = ap (λ y. member y ss) same in
      elim (Bool-cases (member s ss)) [
        | inl gone ↦ ground (arith, deleted x ss i, here, gone, sym as_x ∙ gone)
        | inr stays ↦ ground (arith, deleted x ss i, here, stays, sym as_x ∙ stays)
      ]
  | inr other ↦ ground (arith, deleted x ss i, other)
]

added :
    {B : Type 0} (read : B → Text) (x : Text) (i : List Text) (us : List B)
    → member x (i ++ map read us) ≡ (member x i || any (λ u. read u == x) us)
unfolding any
added read x [] [] = refl
added read x [] (u ∷ us) = ap (λ b. read u == x || b) (added read x [] us)
added read x (s ∷ i) us = ap (λ b. s == x || b) (added read x i us) ∙ ground arith

laws : InboundLaws methods member
laws = record {
  deletes = λ ss i i' x e.
      let same : keep (without ss) i ≡ i' = ground (arith, e) in rw (← same) (deleted x ss i);
  adds_vless = λ us i i' x e.
      let same : i ++ map (λ u. u.vless_uuid) us ≡ i' = ground (arith, e) in
      rw (← same) (added (λ u. u.vless_uuid) x i us);
  adds_hysteria2 = λ us i i' x e.
      let same : i ++ map (λ u. u.hysteria2_password) us ≡ i' = ground (arith, e) in
      rw (← same) (added (λ u. u.hysteria2_password) x i us);
}

never_fails : NeverFails methods
never_fails = record {
  del_done = λ ss i. (_, refl);
  add_vless_done = λ us i. (_, refl);
  add_hysteria2_done = λ us i. (_, refl);
}

abbrev vless_in : Text
vless_in = codes "v"

abbrev hysteria2_in : Text
hysteria2_in = codes "h"

abbrev inbounds : Map Text (Protocol × Inbound)
inbounds = (vless_in, (vless_protocol, [])) ∷ (hysteria2_in, (hysteria2_protocol, [])) ∷ []

abbrev user : ℕ → Text → User
user id s = record { id = id; uuid = s; password = s; name = []; speed_limit = 0 }

-- One user for each inbound.
abbrev lists : Text → Text → Map Text (List User)
lists s t = (vless_in, user 7 s ∷ []) ∷ (hysteria2_in, user 8 t ∷ []) ∷ []

one-HasApartSecrets : (s t : Text) → HasApartSecrets (lists s t)
unfolding lookup users_by_id_from insert
one-HasApartSecrets s t p tag i j u v e1 e2 same shown = ground (arith, e1, e2)

are_lists : (s t : Text) → AreLists (lists s t)
unfolding lookup list_beq
are_lists s t = ((refl, (refl, tt)), one-HasApartSecrets s t)

empty : LetsNoOneIn member inbounds
unfolding lookup any
empty tag x p i at = let no_one : i ≡ [] = ground (arith, at) in rw no_one refl

abbrev first_round : List (ℕ × Map Text (List User))
first_round = (1, lists (codes "a") (codes "b")) ∷ []

first_round-AreLists : All (λ r. AreLists r.1) first_round
first_round-AreLists = (are_lists (codes "a") (codes "b"), tt)

abbrev last : Map Text (List User)
last = lists (codes "c") (codes "b")

there : HasInbound methods true vless_in vless_protocol inbounds
unfolding lookup list_beq
there = ([], refl)

apply_rounds-accepts_example :
    let s = apply_rounds methods true first_round (inbounds, new_user_manager 0 0) in
    (i : Inbound) × (lookup vless_in (apply_box_by_inbound methods true 2 s.0 last s.1).0
      ≡ some (vless_protocol, i))
    × AcceptsExactly member vless_protocol i (users_by_id (found_users (lookup vless_in last)))
apply_rounds-accepts_example =
    apply_rounds-accepts methods true member laws never_fails 0 0 2 inbounds first_round last
      vless_in vless_protocol empty first_round-AreLists (are_lists (codes "c") (codes "b")) there
