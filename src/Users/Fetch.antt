-- ===== src/Users/Fetch.antt =====
-- Where lists of users come from: `FetchUsers` of panelapi/client.go and panelapi/local.go.
--
-- encoding/json and the network are parameters: `get` is the answer to a GET, `none` for an error.
use mini_sb_agent.Base.{
  ◌/◌, not, Option, none, some, List, [], ◌∷◌, ◌++◌, map, if◌then◌else◌, is_empty, ◌==◌, nat_eq,
  list_eq, pair_eq, Map, Text, codes,
}
use mini_sb_agent.Http.{HttpReply}
use mini_sb_agent.Panel.{Client, Http, Url, Delta, PushResult, push_accepted, endpoint}
use mini_sb_agent.Users.{User}
use mini_sb_agent.Users.Merge.{fill_in}

-- `UserList` of panelapi/types.go
pub record UserList : Type 0 where
  pub users : List User
  pub more_users : List User

abbrev pub listed_users : UserList → List User
listed_users l = if is_empty l.users then l.more_users else l.users

module _ {W : Type 0} (decode : W → Option UserList) where
  abbrev pub filled : Option UserList → Option (List User)
  filled none = none
  filled (some l) = some (map fill_in (listed_users l))

  abbrev pub users_in : Option (HttpReply W) → Option (List User)
  users_in none = none
  users_in (some reply) =
      if reply.status_code / 100 == 2 then filled (decode reply.content) else none

  abbrev pub users_at : (Url → Option (HttpReply W)) → Option Url → Option (List User)
  users_at get none = none
  users_at get (some url) = users_in (get url)

  -- `Client.FetchUsers`
  unfoldable pub fetch_client_users :
      Http → (Url → Option (HttpReply W)) → Client → Option (List User)
  unfolding fill_in endpoint
  fetch_client_users http get c =
      users_at get (endpoint http c (codes "/api/v1/server/UniProxy/user"))

-- `localUserFile`
pub record LocalUserFile : Type 0 where
  pub file_users : List User
  pub file_data : List User
  pub file_inbounds : Map Text (List User)

-- The loop over the lists of the inbounds.
unfoldable pub concat_inbounds : Map Text (List User) → List User
concat_inbounds [] = []
concat_inbounds ((tag, us) ∷ more) = us ++ concat_inbounds more

abbrev pub file_list : LocalUserFile → List User
file_list f =
    if not (is_empty f.file_users)
    then f.file_users
    else if not (is_empty f.file_data)
    then f.file_data
    else concat_inbounds f.file_inbounds

module _ {W : Type 0} (decode : W → Option LocalUserFile) where
  abbrev pub list_in : Option LocalUserFile → Option (List User)
  list_in none = none
  list_in (some f) = some (file_list f)

  -- `ParseUsers`
  unfoldable pub parse_users : W → Option (List User)
  unfolding concat_inbounds
  parse_users w = list_in (decode w)

  abbrev pub parsed : Option W → Option (List User)
  parsed none = none
  parsed (some w) = parse_users w

  -- `LocalUsers.FetchUsers`, with `os.ReadFile`
  unfoldable pub fetch_local_users : (Text → Option W) → Text → Option (List User)
  unfolding parse_users
  fetch_local_users read path = parsed (read path)

-- `LocalUsers.PushTraffic`
unfoldable pub push_local : Delta → PushResult
push_local delta = push_accepted []
