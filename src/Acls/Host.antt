-- ===== src/Acls/Host.antt =====
-- net.SplitHostPort of Go, as roomserver/acls/acls.go calls it: the host, or `none` for an error.
use dendrite.Base.{
  ℕ, Bool, not, ◌&&◌, ◌||◌, List, [], ◌∷◌, Option, none, some, nat_eq, if◌then◌else◌, any,
}

abbrev pub has : ℕ → List ℕ → Bool
has c s = any (nat_eq c) s

abbrev onto_host : ℕ → Option (List ℕ × List ℕ) → Option (List ℕ × List ℕ)
onto_host c none = none
onto_host c (some (host, port)) = some (c ∷ host, port)

-- What stands before and behind the last colon.
unfoldable pub at_last_colon : List ℕ → Option (List ℕ × List ℕ)
at_last_colon [] = none
at_last_colon (c ∷ s) =
    let rest = at_last_colon s in
    if has b':' s then onto_host c rest else if nat_eq c b':' then some ([], s) else none

-- What stands before and behind the first closing bracket.
unfoldable pub at_bracket : List ℕ → Option (List ℕ × List ℕ)
at_bracket [] = none
at_bracket (c ∷ s) =
    let rest = at_bracket s in if nat_eq c b']' then some ([], s) else onto_host c rest

-- No brackets may be left, and a host without brackets may have no colon.
abbrev plain_host : Option (List ℕ × List ℕ) → Option (List ℕ)
plain_host none = none
plain_host (some (host, port)) =
    if has b':' host || (has b'[' host || (has b']' host || (has b'[' port || has b']' port)))
    then none
    else some host

-- Behind the closing bracket there is a colon, and then no other one.
abbrev bracketed_port : List ℕ → List ℕ → Option (List ℕ)
bracketed_port host [] = none
bracketed_port host (c ∷ port) =
    if nat_eq c b':' && not (has b':' port || (has b'[' host || (has b'[' port || has b']' port)))
    then some host
    else none

abbrev bracketed_host : Option (List ℕ × List ℕ) → Option (List ℕ)
bracketed_host none = none
bracketed_host (some (host, behind)) = bracketed_port host behind

unfoldable pub split_host_port : List ℕ → Option (List ℕ)
split_host_port [] = none
split_host_port (c ∷ s) =
    if nat_eq c b'[' then bracketed_host (at_bracket s) else plain_host (at_last_colon (c ∷ s))
