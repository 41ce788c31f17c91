-- ===== src/Acls/Decision.antt =====
-- Which servers the ACL of a room lets in (`IsServerBannedFromRoom` of roomserver/acls/acls.go).
use dendrite.Base.{
  ℕ, ◌≡◌, refl, Bool, true, false, not, ◌&&◌, List, [], ◌∷◌, Option, none, some, map, arith, String,
  String_eq, if◌then◌else◌, any, inl, inr, Bool-cases, ◌↔◌,
}
use dendrite.Base.Map.{lookup}
use dendrite.Acls.Pattern.{compile_acl_regex, match_string}
use dendrite.Acls.Host.{split_host_port}
use dendrite.Acls.Banned.{
  Bytes, ServerAcl, Acls, CompiledAcl, compiled, host_of, is_ip_literal, is_banned_by,
  is_server_banned_from_room,
}
use dendrite.Acls.Glob.{IsLine, IsGlobbed, match_string-compile_acl_regex}

-- One of the patterns stands for some part of the text.
pub data GlobbedBy (s : List ℕ) : List (List ℕ) → Type 0 where
  first : {p : List ℕ} {ps : List (List ℕ)} → IsGlobbed p s → GlobbedBy s (p ∷ ps)
  later : {p : List ℕ} {ps : List (List ℕ)} → GlobbedBy s ps → GlobbedBy s (p ∷ ps)

-- The specification, but for what a pattern stands for.
abbrev pub LetsIn : (Bytes → Bool) → Bytes → ServerAcl → Type 0
LetsIn is_cidr host acl =
    ((is_ip_literal is_cidr host && not acl.allow_ip_literals) ≡ false)
    × ¬ (GlobbedBy host acl.denied)
    × GlobbedBy host acl.allowed

-- A room without an ACL lets every server in.
abbrev pub LetsInIfAny : (Bytes → Bool) → Bytes → Option ServerAcl → Type 0
LetsInIfAny is_cidr host none = Unit
LetsInIfAny is_cidr host (some acl) = LetsIn is_cidr host acl

abbrev pub compiled_if_any : Option ServerAcl → Option CompiledAcl
compiled_if_any none = none
compiled_if_any (some acl) = some (compiled acl)

absurd : (b : Bool) → b ≡ true → b ≡ false → ⊥
absurd b t f = ground (arith, t, f)

last_test_passes :
    (a b c : Bool)
    → ((if a then true else (if b then true else (if c then false else true))) ≡ false)
      ↔ ((a ≡ false) × (b ≡ false) × (c ≡ true))
last_test_passes a b c = (λ h. ground (arith, h), λ h. ground (arith, h.0, h.1, h.2))

module _ (s : List ℕ) (l : IsLine s) where
  abbrev matched : List (List ℕ) → Bool
  matched ps = any (λ expr. match_string expr s) (map compile_acl_regex ps)

  matched-GlobbedBy : (ps : List (List ℕ)) → matched ps ≡ true → GlobbedBy s ps
  matched-GlobbedBy [] h = ground (arith, h)
  matched-GlobbedBy (p ∷ ps) h = elim (Bool-cases (match_string (compile_acl_regex p) s)) [
    | inl e ↦ GlobbedBy.first ((match_string-compile_acl_regex p s l).0 e)
    | inr e ↦ GlobbedBy.later (matched-GlobbedBy ps (ground (arith, e, h)))
  ]

  GlobbedBy-matched : (ps : List (List ℕ)) → GlobbedBy s ps → matched ps ≡ true
  GlobbedBy-matched ps (GlobbedBy.first {p = p} {ps = rest} g) =
      let it = (match_string-compile_acl_regex p s l).1 g in rw it refl
  GlobbedBy-matched ps (GlobbedBy.later {p = p} {ps = rest} g) =
      let it = GlobbedBy-matched rest g in ground (arith, it)

  not_matched : (ps : List (List ℕ)) → ¬ (GlobbedBy s ps) → matched ps ≡ false
  not_matched ps n = elim (Bool-cases (matched ps)) [
    | inl e ↦ elim (n (matched-GlobbedBy ps e)) [ ]
    | inr e ↦ e
  ]

  module _ (is_cidr : Bytes → Bool) (acl : ServerAcl) where
    is_banned_by-LetsIn : (is_banned_by is_cidr (compiled acl) s ≡ false) ↔ LetsIn is_cidr s acl
    is_banned_by-LetsIn = (
      λ h.
          let c =
            (last_test_passes (is_ip_literal is_cidr s && not acl.allow_ip_literals)
                (matched acl.denied) (matched acl.allowed)).0
              h in
          (
            c.0,
            λ g. absurd (matched acl.denied) (GlobbedBy-matched acl.denied g) c.1,
            matched-GlobbedBy acl.allowed c.2,
          ),
      λ k.
          (last_test_passes (is_ip_literal is_cidr s && not acl.allow_ip_literals)
              (matched acl.denied) (matched acl.allowed)).1
            (k.0, not_matched acl.denied k.1, GlobbedBy-matched acl.allowed k.2),
    )

-- On a host name in one line, `IsServerBannedFromRoom` lets a server in exactly if the room has no
-- ACL, or its host, which is its name without a port, is not an IP literal that the ACL does not
-- allow, none of the denied patterns stands for a part of the host, and one of the allowed patterns
-- does.
pub is_server_banned_from_room-LetsInIfAny :
    (is_cidr : Bytes → Bool) (acls : Acls) (server_name : Bytes) (room_id : String)
    (acl : Option ServerAcl)
    → IsLine (host_of server_name (split_host_port server_name))
    → lookup room_id acls ≡ compiled_if_any acl
    → (is_server_banned_from_room is_cidr acls server_name room_id ≡ false)
      ↔ LetsInIfAny is_cidr (host_of server_name (split_host_port server_name)) acl
unfolding is_server_banned_from_room
is_server_banned_from_room-LetsInIfAny is_cidr acls server_name room_id none line h =
    rw h (λ e. tt, λ u. refl)
is_server_banned_from_room-LetsInIfAny is_cidr acls server_name room_id (some acl) line h =
    rw h (is_banned_by-LetsIn (host_of server_name (split_host_port server_name)) line is_cidr acl)
