-- ===== src/Auth/Verified.antt =====
-- What `Verify` (clientapi/auth/user_interactive.go) accepts.
use dendrite.Base.{
  ◌≡◌, refl, sym, Bool, true, false, ◌||◌, [], ◌∷◌, ◌++◌, Option, none, some, arith, String,
  String_eq, ◌==◌, Result, err, ok, if◌then◌else◌, inl, inr, Bool-cases, subst,
}
use dendrite.Base.Map.{lookup, lookup-delete, lookup-insert}
use dendrite.Auth.UserInteractive.{
  Login, Response, not_decoded, login_failed, unknown_type, missing_session, internal_server_error,
  Request, UserInteractive, challenge, Verdict, is_single_stage_flow, add_completed_stage,
  new_session, is_known, after_login, decoded, with_type, verify,
}

module _ {B J : Type 0} where
  -- The login function accepted the body.
  abbrev pub LoggedIn : (B → Result J Login) → Request B → Login → Type 0
  LoggedIn f r login = (body : B) × (r.body ≡ some body) × (f body ≡ ok login)

  -- What holds after a request has been answered.
  abbrev pub IsVerified : UserInteractive B J → Request B → Verdict B J → Type 0
  IsVerified u r (u', err response) =
      (r.has_auth ≡ true → u' ≡ u)
      × (u'.completed ≡ u.completed)
      × ((s : String)
          → is_known (lookup s u.sessions) ≡ true
          → is_known (lookup s u'.sessions) ≡ true)
  IsVerified u r (u', ok login) =
      (r.has_auth ≡ true)
      × ((f : B → Result J Login) × (lookup r.auth_type u.types ≡ some f) × LoggedIn f r login)
      × ((is_known (lookup r.auth_session u.sessions) || is_single_stage_flow u r.auth_type) ≡ true)
      × (u'.completed ≡ u.completed ++ (r.auth_type ∷ []))
      × ((s : String)
          → lookup s u'.sessions ≡ (if r.auth_session == s then none else lookup s u.sessions))

  refused : (u : UserInteractive B J) (r : Request B) (x : Response J) → IsVerified u r (u, err x)
  refused u r x = (λ h. refl, refl, λ s h. h)

  decoded-IsVerified :
      (u : UserInteractive B J) (r : Request B) (f : B → Result J Login) (body : Option B)
      → r.has_auth ≡ true
      → lookup r.auth_type u.types ≡ some f
      → (is_known (lookup r.auth_session u.sessions) || is_single_stage_flow u r.auth_type) ≡ true
      → r.body ≡ body
      → IsVerified u r (decoded u r f body)
  unfolding add_completed_stage
  decoded-IsVerified u r f none a t k b = refused u r not_decoded
  decoded-IsVerified u r f (some body) a t k b = answered (f body) refl
    where
      answered : (x : Result J Login) → f body ≡ x → IsVerified u r (after_login u r x)
      answered (err json) e = refused u r (login_failed (challenge u r.auth_session) json)
      answered (ok login) e =
          (a, (f, t, (body, b, e)), k, refl, λ s. lookup-delete r.auth_session s u.sessions)

  with_type-IsVerified :
      (u : UserInteractive B J) (r : Request B) (f : Option (B → Result J Login))
      → r.has_auth ≡ true
      → lookup r.auth_type u.types ≡ f
      → IsVerified u r (with_type u r f)
  with_type-IsVerified u r none a t = refused u r unknown_type
  with_type-IsVerified u r (some f) a t =
      let k = is_known (lookup r.auth_session u.sessions) || is_single_stage_flow u r.auth_type in
      elim (Bool-cases k) [
        | inl e ↦ rw e (decoded-IsVerified u r f r.body a t e refl)
        | inr e ↦ rw e (refused u r missing_session)
      ]

  new_session-IsVerified :
      (u : UserInteractive B J) (r : Request B) (token : Option String)
      → r.has_auth ≡ false
      → IsVerified u r ((new_session u token).0, err (new_session u token).1)
  unfolding new_session
  new_session-IsVerified u r none a = refused u r internal_server_error
  new_session-IsVerified u r (some id) a = (
    λ h. ground (arith, a, h),
    refl,
    λ s h.
        subst (λ o. is_known o ≡ true) (sym (lookup-insert id s [] u.sessions)) (ground (arith, h)),
  )

  -- A request that `Verify` does not accept leaves the completed stages as they are and forgets no
  -- session, and if it has an `auth` key it changes nothing. It accepts a request only if this has
  -- an `auth` key of a registered type whose login accepts the body, and either names a session
  -- that it knows or is of a type that is a whole flow. It then adds the type to the completed
  -- stages and forgets that session and no other.
  pub verify-IsVerified :
      (u : UserInteractive B J) (token : Option String) (r : Request B)
      → IsVerified u r (verify u token r)
  unfolding verify
  verify-IsVerified u token r = elim (Bool-cases r.has_auth) [
    | inl e ↦
        subst (λ b. IsVerified u r (answer b)) (sym e)
          (with_type-IsVerified u r (lookup r.auth_type u.types) e refl)
    | inr e ↦ subst (λ b. IsVerified u r (answer b)) (sym e) (new_session-IsVerified u r token e)
  ]
    where
      answer : Bool → Verdict B J
      answer b =
          if b
          then with_type u r (lookup r.auth_type u.types)
          else ((new_session u token).0, err (new_session u token).1)
