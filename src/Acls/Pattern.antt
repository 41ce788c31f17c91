-- ===== src/Acls/Pattern.antt =====
-- The patterns of server ACLs (`compileACLRegex` of roomserver/acls/acls.go), and how Go's regexp
-- matches what they are compiled to. Texts are lists of code points.
use dendrite.Base.{ℕ, Bool, true, false, not, ◌&&◌, ◌||◌, List, [], ◌∷◌, map, nat_eq, if◌then◌else◌}

-- An expression is a sequence of escaped characters, of `.` and of `.*`.
pub data Part : Type 0 where
  literal : ℕ → Part
  any_char any_chars : Part

-- QuoteMeta, and then the replacements of the escaped `?` and `*`.
abbrev pub part_of : ℕ → Part
part_of c = if nat_eq c b'?' then any_char else if nat_eq c b'*' then any_chars else literal c

unfoldable pub compile_acl_regex : List ℕ → List Part
compile_acl_regex orig = map part_of orig

-- What `.` matches without the flag s.
abbrev pub is_dot : ℕ → Bool
is_dot c = not (nat_eq c 10)

-- `.*` and then what the rest of the expression matches.
unfoldable pub after_dots : (List ℕ → Bool) → List ℕ → Bool
after_dots rest [] = rest []
after_dots rest (c ∷ s) = let more = after_dots rest s in rest (c ∷ s) || (is_dot c && more)

abbrev pub after_one : (ℕ → Bool) → (List ℕ → Bool) → List ℕ → Bool
after_one p rest [] = false
after_one p rest (c ∷ s) = p c && rest s

-- Whether the expression matches at the start of a text.
unfoldable pub match_here : List Part → List ℕ → Bool
match_here [] s = true
match_here (literal l ∷ expr) s = after_one (nat_eq l) (match_here expr) s
match_here (any_char ∷ expr) s = after_one is_dot (match_here expr) s
match_here (any_chars ∷ expr) s = after_dots (match_here expr) s

-- MatchString: whether the expression matches somewhere.
unfoldable pub match_string : List Part → List ℕ → Bool
match_string expr [] = match_here expr []
match_string expr (c ∷ s) = let later = match_string expr s in match_here expr (c ∷ s) || later
