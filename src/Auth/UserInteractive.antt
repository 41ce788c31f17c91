-- ===== src/Auth/UserInteractive.antt =====
-- The user-interactive authentication of clientapi/auth/user_interactive.go. What gjson and
-- encoding/json find in the body of a request is the record `Request`; a type of login is a function
-- on the body, which gives a login or the error to respond with; `token` is what
-- `GenerateAccessToken` returns, and `none` its error.
use dendrite.Base.{
  Bool, true, false, ◌||◌, List, [], ◌∷◌, ◌++◌, Option, none, some, String, String_eq, ◌==◌, Result,
  err, ok, if◌then◌else◌, any,
}
use dendrite.Base.Map.{Map, lookup, insert, delete}

pub record LoginIdentifier : Type 0 where
  pub identifier_type : String
  pub user : String
  pub medium : String
  pub address : String

pub record Login : Type 0 where
  pub login_type : String
  pub identifier : LoginIdentifier
  pub user : String
  pub medium : String
  pub address : String
  pub initial_display_name : Option String
  pub device_id : Option String

abbrev pub m_id_user : String
m_id_user = "m.id.user"

abbrev pub m_id_thirdparty : String
m_id_thirdparty = "m.id.thirdparty"

abbrev pub email : String
email = "email"

abbrev pub no_text : String
no_text = ""

unfoldable pub username : Login → String
username r = if r.identifier.identifier_type == m_id_user then r.identifier.user else r.user

unfoldable pub third_party_id : Login → String × String
third_party_id r =
    if r.identifier.identifier_type == m_id_thirdparty
    then (r.identifier.medium, r.identifier.address)
    else (if r.medium == email then (email, r.address) else (no_text, no_text))

pub record Challenge : Type 0 where
  pub completed : List String
  pub flows : List (List String)
  pub session : String

-- The responses, the JSON of a failed login among them.
pub data Response (J : Type 0) : Type 0 where
  challenged : Challenge → Response J
  internal_server_error unknown_type missing_session not_decoded : Response J
  login_failed : Challenge → J → Response J

pub record Request (B : Type 0) : Type 0 where
  pub has_auth : Bool
  pub auth_type : String
  pub auth_session : String
  pub body : Option B

-- A flow is the list of its stages. Types and sessions are Go maps.
pub record UserInteractive (B J : Type 0) : Type 0 where
  pub completed : List String
  pub flows : List (List String)
  pub types : Map String (B → Result J Login)
  pub sessions : Map String (List String)

abbrev pub is_single_stage : String → List String → Bool
is_single_stage auth_type [] = false
is_single_stage auth_type (stage ∷ []) = stage == auth_type
is_single_stage auth_type (stage ∷ next ∷ stages) = false

abbrev pub is_known : Option (List String) → Bool
is_known none = false
is_known (some stages) = true

abbrev pub Verdict : Type 0 → Type 0 → Type 0
Verdict B J = UserInteractive B J × Result (Response J) Login

module _ {B J : Type 0} where
  unfoldable pub is_single_stage_flow : UserInteractive B J → String → Bool
  is_single_stage_flow u auth_type = any (is_single_stage auth_type) u.flows

  unfoldable pub add_completed_stage : UserInteractive B J → String → String → UserInteractive B J
  add_completed_stage u session_id auth_type = record u {
    completed = u.completed ++ (auth_type ∷ []);
    sessions = delete session_id u.sessions;
  }

  abbrev pub challenge : UserInteractive B J → String → Challenge
  challenge u session_id = record { completed = u.completed; flows = u.flows; session = session_id }

  unfoldable pub new_session :
      UserInteractive B J → Option String → UserInteractive B J × Response J
  new_session u none = (u, internal_server_error)
  new_session u (some session_id) =
      let started = record u { sessions = insert session_id [] u.sessions } in
      (started, challenged (challenge started session_id))

  -- After the login function.
  abbrev pub after_login : UserInteractive B J → Request B → Result J Login → Verdict B J
  after_login u r (err json) = (u, err (login_failed (challenge u r.auth_session) json))
  after_login u r (ok login) = (add_completed_stage u r.auth_session r.auth_type, ok login)

  -- After the session has been looked up.
  abbrev pub decoded :
      UserInteractive B J → Request B → (B → Result J Login) → Option B → Verdict B J
  decoded u r login none = (u, err not_decoded)
  decoded u r login (some body) = after_login u r (login body)

  abbrev pub with_type : UserInteractive B J → Request B → Option (B → Result J Login) → Verdict B J
  with_type u r none = (u, err unknown_type)
  with_type u r (some login) =
      if is_known (lookup r.auth_session u.sessions) || is_single_stage_flow u r.auth_type
      then decoded u r login r.body
      else (u, err missing_session)

  unfoldable pub verify : UserInteractive B J → Option String → Request B → Verdict B J
  verify u token r =
      if r.has_auth
      then with_type u r (lookup r.auth_type u.types)
      else (let started = new_session u token in (started.0, err started.1))
