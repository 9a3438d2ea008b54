-- ===== src/Users/Manager/Inbounds.antt =====
-- cmd/mini-sb-agent/user_apply_vless_enabled.go, user_apply_hy2_enabled.go, node_runtime.go and
-- `ApplyBox` of user_manager.go: how the users reach the inbounds of the data path.
use mini_sb_agent.Base.{
  ℕ, Bool, true, false, not, ◌&&◌, Option, none, some, List, [], ◌∷◌, map, if◌then◌else◌, is_empty,
  keep, nat_eq, list_eq, pair_eq, Map, lookup, insert, select, Text, codes,
}
use mini_sb_agent.Topology.{NodeSpec, key, inbound_tag}
use mini_sb_agent.Users.{User, users_by_id, user_changes, secrets_from}
use mini_sb_agent.Users.Manager.{
  UserManager, close_absent, update_limiters, apply_global, users_or_none,
}

-- `option.VLESSUser` as `vlessUserFromPanelUser` fills it.
pub record VlessUser : Type 0 where
  pub vless_name : Text
  pub vless_uuid : Text
  pub flow : Text

-- `option.Hysteria2User` with its identity
pub record Hysteria2User : Type 0 where
  pub hysteria2_name : Text
  pub hysteria2_password : Text
  pub user_id : ℕ

unfoldable pub vless_user_from_panel_user : User → VlessUser
vless_user_from_panel_user u = record {
  vless_name = u.uuid;
  vless_uuid = u.uuid;
  flow = codes "xtls-rprx-vision";
}

abbrev pub nonempty : Text → Bool
nonempty s = not (is_empty s)

-- The secrets of the users of a list, without the empty ones.
abbrev pub removed_secrets : (User → Text) → List User → List Text
removed_secrets f us = keep nonempty (map f us)

abbrev pub hysteria2_user_from_panel_user : User → Hysteria2User
hysteria2_user_from_panel_user u = record {
  hysteria2_name = if is_empty u.name then u.password else u.name;
  hysteria2_password = u.password;
  user_id = u.id;
}

-- An inbound of the data path: the methods that the agent calls are sing-box's, and change the
-- inbound's own state; `none` is an error.
pub record InboundMethods (I : Type 0) : Type 0 where
  pub del_users : List Text → I → Option I
  pub add_vless_users : List VlessUser → I → Option I
  pub add_hysteria2_users : List Hysteria2User → I → Option I

-- The type of an inbound, which the source tests by a type assertion.
pub data Protocol : Type 0 where
  vless_protocol hysteria2_protocol other_protocol : Protocol

-- The users of a list that may be missing, which is nil.
abbrev pub found_users : Option (List User) → List User
found_users none = []
found_users (some us) = us

module _ {I : Type 0} (methods : InboundMethods I) where
  abbrev pub call_del : List Text → I → Option I
  call_del [] i = some i
  call_del (s ∷ ss) i = methods.del_users (s ∷ ss) i

  abbrev pub call_add_vless : List VlessUser → I → Option I
  call_add_vless [] i = some i
  call_add_vless (u ∷ us) i = methods.add_vless_users (u ∷ us) i

  abbrev pub call_add_hysteria2 : List Hysteria2User → I → Option I
  call_add_hysteria2 [] i = some i
  call_add_hysteria2 (u ∷ us) i = methods.add_hysteria2_users (u ∷ us) i

  -- The inbound after a call that may fail, and whether it went through.
  abbrev pub attempt : Option I → I → I × Bool
  attempt none i = (i, false)
  attempt (some i') i = (i', true)

  abbrev pub and_then : I × Bool → (I → Option I) → I × Bool
  and_then (i, true) f = attempt (f i) i
  and_then (i, false) f = (i, false)

  -- `applyVLESSUsers`
  unfoldable pub apply_vless_users : I → List User → Map ℕ User → I × Bool
  unfolding user_changes vless_user_from_panel_user
  apply_vless_users i users old =
      let (removed, added) = user_changes old users in
      and_then (attempt (call_del (removed_secrets (λ u. u.uuid) removed) i) i)
        (call_add_vless (map vless_user_from_panel_user (keep (λ u. nonempty u.uuid) added)))

  -- `applyHysteria2Users`
  unfoldable pub apply_hysteria2_users : I → List User → Map ℕ User → I × Bool
  unfolding user_changes
  apply_hysteria2_users i users old =
      let (removed, added) = user_changes old users in
      and_then (attempt (call_del (removed_secrets (λ u. u.password) removed) i) i) (
        call_add_hysteria2
          (map hysteria2_user_from_panel_user (keep (λ u. nonempty u.password) added)))

  abbrev pub apply_users : Protocol → I → List User → Map ℕ User → I × Bool
  apply_users vless_protocol i users old = apply_vless_users i users old
  apply_users hysteria2_protocol i users old = apply_hysteria2_users i users old
  apply_users other_protocol i users old = (i, true)

  -- The loop of `ApplyBoxByInbound` over the inbounds: they change one by one, until an error.
  unfoldable pub apply_inbounds :
      Map Text (Protocol × I) → Map Text (List User) → UserManager → Map Text (Protocol × I) × Bool
  unfolding apply_vless_users apply_hysteria2_users
  apply_inbounds [] by_inbound m = ([], true)
  apply_inbounds ((tag, (protocol, i)) ∷ inbounds) by_inbound m =
      let (i', done) =
        apply_users protocol i (found_users (lookup tag by_inbound))
          (users_or_none (lookup tag m.by_inbound)) in
      let rest = apply_inbounds inbounds by_inbound m in
      ((tag, (protocol, i')) ∷ (if done then rest.0 else inbounds), done && rest.1)

-- The union of the snapshots; a later one of the same user wins.
unfoldable pub union_into : Map ℕ User → Map ℕ User → Map ℕ User
union_into [] union = union
union_into ((id, u) ∷ us) union = union_into us (insert id u union)

unfoldable pub union_of : Map Text (List User) → Map ℕ User → Map ℕ User
unfolding union_into
union_of [] union = union
union_of ((tag, us) ∷ more) union = union_of more (union_into (users_by_id us) union)

-- The commit of `ApplyBoxByInbound`.
unfoldable pub commit_users : Bool → ℕ → Map Text (List User) → UserManager → UserManager
unfolding union_of close_absent update_limiters
commit_users enabled now by_inbound m =
    let union = union_of by_inbound [] in
    let m' = record m {
      by_inbound = select (λ tag us. some (users_by_id us)) by_inbound;
      users = union;
      by_secret = secrets_from union;
    } in
    update_limiters enabled now union (close_absent m'.limiters union m')

module _ {I : Type 0} (methods : InboundMethods I) (enabled : Bool) (now : ℕ) where
  -- `ApplyBoxByInbound`: the inbounds, the manager, and whether there was no error.
  unfoldable pub apply_box_by_inbound :
      Map Text (Protocol × I)
      → Map Text (List User)
      → UserManager
      → Map Text (Protocol × I) × UserManager × Bool
  unfolding apply_inbounds commit_users
  apply_box_by_inbound inbounds by_inbound m =
      let (inbounds', done) = apply_inbounds methods inbounds by_inbound m in
      (inbounds', (if done then commit_users enabled now by_inbound m else m), done)

  -- `ApplyBox`
  unfoldable pub apply_box :
      Map Text (Protocol × I)
      → List User
      → UserManager
      → Map Text (Protocol × I) × UserManager × Bool
  unfolding apply_box_by_inbound apply_global
  apply_box inbounds users m =
      let r = apply_box_by_inbound inbounds (select (λ tag i. some users) inbounds) m in
      if is_empty inbounds then (inbounds, apply_global enabled now users m, true) else r

-- `groupNodeUsers`
unfoldable pub group_node_users :
    List NodeSpec → Map Text (List User) → Map Text (List User) → Map Text (List User)
group_node_users [] by_node out = out
group_node_users (n ∷ ns) by_node out =
    group_node_users ns by_node (insert (inbound_tag n) (found_users (lookup (key n) by_node)) out)
