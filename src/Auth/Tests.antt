-- ===== src/Auth/Tests.antt =====
-- The theorem about user-interactive authentication at a log-in with a password.
use dendrite.Base.{
  ℕ, ◌≡◌, refl, true, false, [], ◌∷◌, none, some, nat_eq, String, String_eq, Result, err, ok,
  if◌then◌else◌,
}
use dendrite.Base.Map.{lookup, insert, delete}
use dendrite.Auth.UserInteractive.{
  Login, Response, Request, UserInteractive, is_single_stage_flow, add_completed_stage, new_session,
  verify, username, third_party_id,
}
use dendrite.Auth.Verified.{IsVerified, verify-IsVerified}

abbrev password : String
password = "m.login.password"

abbrev alice : Login
alice = record {
  login_type = "m.login.password";
  identifier = record { identifier_type = "m.id.user"; user = "alice"; medium = ""; address = "" };
  user = "";
  medium = "email";
  address = "a@example.org";
  initial_display_name = none;
  device_id = none;
}

-- The body is a number, and 7 is the password.
abbrev login_type_password : ℕ → Result String Login
login_type_password body = if nat_eq body 7 then ok alice else err "M_FORBIDDEN"

abbrev fresh : UserInteractive ℕ String
fresh = record {
  completed = [];
  flows = (password ∷ []) ∷ [];
  types = (password, login_type_password) ∷ [];
  sessions = ("s1", []) ∷ [];
}

abbrev with_password : String → Request ℕ
with_password session = record {
  has_auth = true;
  auth_type = password;
  auth_session = session;
  body = some 7;
}

verify-IsVerified_example :
    IsVerified fresh (with_password "s1") (verify fresh none (with_password "s1"))
verify-IsVerified_example = verify-IsVerified fresh none (with_password "s1")

abbrev without_auth : Request ℕ
without_auth = record { has_auth = false; auth_type = ""; auth_session = ""; body = none }

-- What one client has completed is told to the next one, which has done nothing yet.
told_to_others :
    (verify (verify fresh none (with_password "s1")).0 (some "s2") without_auth).1
    ≡ err (
        Response.challenged
          (record { completed = password ∷ []; flows = (password ∷ []) ∷ []; session = "s2" }))
unfolding verify add_completed_stage new_session is_single_stage_flow lookup insert delete
told_to_others = refl

names : (username alice ≡ "alice") × (third_party_id alice ≡ ("email", "a@example.org"))
unfolding username third_party_id
names = (refl, refl)
