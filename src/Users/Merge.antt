-- ===== src/Users/Merge.antt =====
-- cmd/mini-sb-agent/topology_panel.go: the users of several nodes as one list, and the users that
-- panelapi/client.go and multi.go fetch.
use mini_sb_agent.Base.{
  ℕ, ◌≡◌, ◌⊎◌, Bool, true, false, not, ◌&&◌, Option, none, some, List, [], ◌∷◌, ◌++◌, map,
  if◌then◌else◌, is_empty, Result, ok, err, ◌>>=◌, ◌==◌, nat_eq, list_eq, pair_eq, Map, lookup, has,
  insert, is_pos, Text,
}
use mini_sb_agent.Users.{User}
use mini_sb_agent.Users.Manager.{itoa}

-- The test of `mergeUsersByNode`, negated.
unfoldable pub same_definition : User → User → Bool
same_definition u v = u.uuid == v.uuid && u.password == v.password && u.speed_limit == v.speed_limit

abbrev pub conflicts : Option User → User → Bool
conflicts none u = false
conflicts (some v) u = not (same_definition v u)

-- The inner loop of `mergeUsersByNode`; the error names the id.
unfoldable pub merge_users : List User → Map ℕ User → Result ℕ (Map ℕ User)
unfolding same_definition
merge_users [] merged = ok merged
merge_users (u ∷ us) merged =
    if conflicts (lookup u.id merged) u
    then err u.id
    else merge_users us (if has u.id merged then merged else insert u.id u merged)

unfoldable pub merge_nodes : Map Text (List User) → Map ℕ User → Result ℕ (Map ℕ User)
unfolding merge_users
merge_nodes [] merged = ok merged
merge_nodes ((node_key, us) ∷ more) merged = merge_users us merged >>= merge_nodes more

abbrev values : Map ℕ User → List User
values m = map (λ e. e.1) m

-- `mergeUsersByNode`
unfoldable pub merge_users_by_node : Map Text (List User) → Result ℕ (List User)
unfolding merge_nodes
merge_users_by_node by_node = merge_nodes by_node [] >>= λ m. ok (values m)

-- `topologyPanel.FetchUsers` on the lists that the clients fetched, `none` for an error, with the
-- callback `apply`; the result is `none` for an error.
unfoldable pub fetch_topology_users :
    {S : Type 0}
    → (Map Text (List User) → S → S × Bool)
    → List (Text × Option (List User))
    → Map Text (List User)
    → S
    → S × Option (List User)
unfolding merge_users_by_node
fetch_topology_users apply [] by_node s = elim (merge_users_by_node by_node) [
  | err id ↦ (s, none)
  | ok merged ↦ let (s', done) = apply by_node s in (s', if done then some merged else none)
]
fetch_topology_users apply ((node_key, none) ∷ more) by_node s = (s, none)
fetch_topology_users apply ((node_key, some us) ∷ more) by_node s =
    fetch_topology_users apply more (insert node_key us by_node) s

-- The loop of `Client.FetchUsers` that fills in what the panel leaves out.
unfoldable pub fill_in : User → User
unfolding itoa
fill_in u = record u {
  password = if is_empty u.password then u.uuid else u.password;
  name = if is_empty u.name then itoa u.id else u.name;
}

-- `MultiPanel.FetchUsers` on the lists of its panels: a user that was seen is left out, unless its id
-- is not positive.
unfoldable pub merge_seen : List User → Map ℕ (Unit {0}) → List User × Map ℕ (Unit {0})
merge_seen [] seen = ([], seen)
merge_seen (u ∷ us) seen =
    let rest = merge_seen us (if is_pos u.id then insert u.id tt seen else seen) in
    if is_pos u.id && has u.id seen then rest else (u ∷ rest.0, rest.1)

unfoldable pub fetch_multi : List (Option (List User)) → Map ℕ (Unit {0}) → Option (List User)
unfolding merge_seen
fetch_multi [] seen = some []
fetch_multi (none ∷ more) seen = none
fetch_multi (some us ∷ more) seen =
    let (kept, seen') = merge_seen us seen in
    elim (fetch_multi more seen') [ none ↦ none | some rest ↦ some (kept ++ rest) ]

-- The user is in the list.
abbrev pub ListedIn : User → List User → Type 0
ListedIn u [] = ⊥
ListedIn u (v ∷ us) = (v ≡ u) ⊎ ListedIn u us

-- The user is in the list of some node.
abbrev pub OfNode : User → Map Text (List User) → Type 0
OfNode u [] = ⊥
OfNode u ((k, us) ∷ more) = ListedIn u us ⊎ OfNode u more

-- The map has the user's id with the same definition.
abbrev Represents : Map ℕ User → User → Type 0
Represents m u = (v : User) × (lookup u.id m ≡ some v) × (same_definition v u ≡ true)
