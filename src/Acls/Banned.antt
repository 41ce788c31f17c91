-- ===== src/Acls/Banned.antt =====
-- The ACLs of rooms and whether they ban a server (roomserver/acls/acls.go). `is_cidr` says whether
-- net.ParseCIDR takes a text: what it makes of leading zeros depends on the release of Go.
use dendrite.Base.{
  ℕ, Bool, true, false, not, ◌&&◌, List, [], ◌∷◌, ◌++◌, Option, none, some, map, String, String_eq,
  Result, err, ok, if◌then◌else◌, any,
}
use dendrite.Base.Map.{Map, lookup, insert}
use dendrite.Acls.Pattern.{Part, compile_acl_regex, match_string}
use dendrite.Acls.Host.{split_host_port}

abbrev pub Bytes : Type 0
Bytes = List ℕ

-- The content of an event of type m.room.server_acl
pub record ServerAcl : Type 0 where
  pub allowed : List Bytes
  pub denied : List Bytes
  pub allow_ip_literals : Bool

-- `serverACL`
pub record CompiledAcl : Type 0 where
  pub acl : ServerAcl
  pub allowed_regexes : List (List Part)
  pub denied_regexes : List (List Part)

-- A state event: its room, and its content if that decodes.
pub record AclEvent : Type 0 where
  pub room_id : String
  pub content : Option ServerAcl

abbrev pub Acls : Type 0
Acls = Map String CompiledAcl

-- A quoted pattern always compiles.
abbrev pub compiled : ServerAcl → CompiledAcl
compiled acl = record {
  acl = acl;
  allowed_regexes = map compile_acl_regex acl.allowed;
  denied_regexes = map compile_acl_regex acl.denied;
}

abbrev with_content : Acls → String → Option ServerAcl → Acls
with_content acls room none = acls
with_content acls room (some acl) = insert room (compiled acl) acls

unfoldable pub on_server_acl_update : Acls → AclEvent → Acls
on_server_acl_update acls state = with_content acls state.room_id state.content

-- A room whose state cannot be read, or that has no such event, is passed over.
abbrev with_state : Acls → Result ℕ (Option AclEvent) → Acls
with_state acls (err e) = acls
with_state acls (ok none) = acls
with_state acls (ok (some state)) = on_server_acl_update acls state

-- The loop of `NewServerACLs` over the known rooms.
unfoldable pub new_server_acls : (String → Result ℕ (Option AclEvent)) → List String → Acls → Acls
new_server_acls get_state_event [] acls = acls
new_server_acls get_state_event (room ∷ rooms) acls =
    new_server_acls get_state_event rooms (with_state acls (get_state_event room))

abbrev pub host_of : Bytes → Option Bytes → Bytes
host_of server_name none = server_name
host_of server_name (some host) = host

module _ (is_cidr : Bytes → Bool) where
  -- `fmt.Sprintf("%s/0", serverName)`
  abbrev pub is_ip_literal : Bytes → Bool
  is_ip_literal name = is_cidr (name ++ (b'/' ∷ b'0' ∷ []))

  -- From the compiled ACL and the name without a port on.
  abbrev pub is_banned_by : CompiledAcl → Bytes → Bool
  is_banned_by acls name =
      if is_ip_literal name && not acls.acl.allow_ip_literals
      then true
      else (if any (λ expr. match_string expr name) acls.denied_regexes
          then true
          else (if any (λ expr. match_string expr name) acls.allowed_regexes then false else true))

  abbrev pub banned_if_found : Option CompiledAcl → Bytes → Bool
  banned_if_found none name = false
  banned_if_found (some acls) name = is_banned_by acls name

  unfoldable pub is_server_banned_from_room : Acls → Bytes → String → Bool
  is_server_banned_from_room acls server_name room_id =
      banned_if_found (lookup room_id acls) (host_of server_name (split_host_port server_name))
