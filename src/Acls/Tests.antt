-- ===== src/Acls/Tests.antt =====
-- The theorem about server ACLs at an ACL that denies one server.
use dendrite.Base.{
  ℕ, ◌≡◌, refl, Bool, true, false, [], ◌∷◌, Option, some, String, String_eq, Result, ok, ◌↔◌,
}
use dendrite.Base.Map.{lookup, insert}
use dendrite.Acls.Pattern.{compile_acl_regex, match_string, match_here, after_dots}
use dendrite.Acls.Host.{split_host_port, at_last_colon, at_bracket}
use dendrite.Acls.Banned.{
  Bytes, ServerAcl, AclEvent, Acls, compiled, on_server_acl_update, new_server_acls, host_of,
  is_server_banned_from_room,
}
use dendrite.Acls.Glob.{IsLine}
use dendrite.Acls.Decision.{LetsInIfAny, is_server_banned_from_room-LetsInIfAny}

-- evil
abbrev evil : Bytes
evil = b'e' ∷ b'v' ∷ b'i' ∷ b'l' ∷ []

-- devils
abbrev devils : Bytes
devils = b'd' ∷ b'e' ∷ b'v' ∷ b'i' ∷ b'l' ∷ b's' ∷ []

-- ok:80
abbrev other : Bytes
other = b'o' ∷ b'k' ∷ b':' ∷ b'8' ∷ b'0' ∷ []

abbrev all : Bytes
all = b'*' ∷ []

abbrev acl : ServerAcl
acl = record { allowed = all ∷ []; denied = evil ∷ []; allow_ip_literals = false }

abbrev room : String
room = "!r"

abbrev state : String → Result ℕ (Option AclEvent)
state id = ok (some (record { room_id = id; content = some acl }))

abbrev acls : Acls
acls = new_server_acls state (room ∷ []) []

abbrev no_literal : Bytes → Bool
no_literal s = false

found : lookup room acls ≡ some (compiled acl)
unfolding lookup insert on_server_acl_update new_server_acls
found = refl

devils-IsLine : IsLine (host_of devils (split_host_port devils))
unfolding split_host_port at_last_colon
devils-IsLine = (refl, (refl, (refl, (refl, (refl, (refl, tt))))))

is_server_banned_from_room-LetsInIfAny_example :
    (is_server_banned_from_room no_literal acls devils room ≡ false)
    ↔ LetsInIfAny no_literal (host_of devils (split_host_port devils)) (some acl)
is_server_banned_from_room-LetsInIfAny_example =
    is_server_banned_from_room-LetsInIfAny no_literal acls devils room (some acl) devils-IsLine
      found

-- A pattern without wildcards bans each server whose name has it somewhere.
bans_more :
    (is_server_banned_from_room no_literal acls evil room ≡ true)
    × (is_server_banned_from_room no_literal acls devils room ≡ true)
    × (is_server_banned_from_room no_literal acls other room ≡ false)
unfolding is_server_banned_from_room new_server_acls on_server_acl_update lookup insert
    split_host_port at_last_colon at_bracket match_string match_here after_dots compile_acl_regex
bans_more = (refl, refl, refl)
