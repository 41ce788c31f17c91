-- ===== src/Acls/Glob.antt =====
-- What the patterns of server ACLs (roomserver/acls/acls.go) match.
use dendrite.Base.{
  ℕ, ◌≡◌, refl, sym, ap, ◌∙◌, subst, Bool, true, false, List, [], ◌∷◌, ◌++◌, arith, nat_eq,
  nat_eq_iff, All, inl, inr, Bool-cases, ◌↔◌,
}
use dendrite.Acls.Pattern.{
  Part, literal, part_of, compile_acl_regex, is_dot, after_dots, after_one, match_here,
  match_string,
}

-- The globs of the specification: `?` stands for one character, `*` for any number of them.
pub data Glob : List ℕ → List ℕ → Type 0 where
  done : Glob [] []
  same :
      {p s : List ℕ} (c : ℕ)
      → nat_eq c b'?' ≡ false
      → nat_eq c b'*' ≡ false
      → Glob p s
      → Glob (c ∷ p) (c ∷ s)
  one : {p s : List ℕ} (c : ℕ) → Glob p s → Glob (b'?' ∷ p) (c ∷ s)
  none_more : {p s : List ℕ} → Glob p s → Glob (b'*' ∷ p) s
  one_more : {p s : List ℕ} (c : ℕ) → Glob (b'*' ∷ p) s → Glob (b'*' ∷ p) (c ∷ s)

-- A text in one line.
abbrev pub IsLine : List ℕ → Type 0
IsLine = All (λ c. is_dot c ≡ true)

-- A part at the start of the text.
abbrev GlobsStart : List ℕ → List ℕ → Type 0
GlobsStart p s = (mid : List ℕ) × (post : List ℕ) × (s ≡ mid ++ post) × Glob p mid

-- What the lemmas on the parts of a pattern take from the rest of it.
abbrev FindsStart : (List ℕ → Bool) → List ℕ → Type 0
FindsStart rest p = (t : List ℕ) → rest t ≡ true → GlobsStart p t

same-GlobsStart :
    (rest : List ℕ → Bool) (p : List ℕ) (c : ℕ)
    → nat_eq c b'?' ≡ false
    → nat_eq c b'*' ≡ false
    → FindsStart rest p
    → FindsStart (after_one (nat_eq c) rest) (c ∷ p)
same-GlobsStart rest p c q r f [] h = ground (arith, h)
same-GlobsStart rest p c q r f (d ∷ s) h =
    let equal : c ≡ d = (nat_eq_iff c d).0 (ground (arith, h)) in
    let start = f s (ground (arith, h)) in
    (
      c ∷ start.0,
      start.1,
      ap (λ x. x ∷ s) (sym equal) ∙ ap (◌∷◌ c) start.2,
      Glob.same c q r start.3,
    )

one-GlobsStart :
    (rest : List ℕ → Bool) (p : List ℕ)
    → FindsStart rest p
    → FindsStart (after_one is_dot rest) (b'?' ∷ p)
one-GlobsStart rest p f [] h = ground (arith, h)
one-GlobsStart rest p f (d ∷ s) h =
    let start = f s (ground (arith, h)) in
    (d ∷ start.0, start.1, ap (◌∷◌ d) start.2, Glob.one d start.3)

more-GlobsStart :
    (rest : List ℕ → Bool) (p : List ℕ)
    → FindsStart rest p
    → FindsStart (after_dots rest) (b'*' ∷ p)
unfolding after_dots
more-GlobsStart rest p f [] h =
    let start = f [] h in (start.0, start.1, start.2, Glob.none_more start.3)
more-GlobsStart rest p f (c ∷ s) h = elim (Bool-cases (rest (c ∷ s))) [
  | inl e ↦ let start = f (c ∷ s) e in (start.0, start.1, start.2, Glob.none_more start.3)
  | inr e ↦
      let start = more-GlobsStart rest p f s (ground (arith, e, h)) in
      (c ∷ start.0, start.1, ap (◌∷◌ c) start.2, Glob.one_more c start.3)
]

match_here-GlobsStart : (p : List ℕ) → FindsStart (match_here (compile_acl_regex p)) p
unfolding match_here compile_acl_regex
match_here-GlobsStart [] s h = ([], s, refl, Glob.done)
match_here-GlobsStart (c ∷ p) s h = elim (Bool-cases (nat_eq c b'?')) [
  | inl e ↦
      let it : c ≡ b'?' = (nat_eq_iff c b'?').0 e in
      subst (λ x. GlobsStart (x ∷ p) s) (sym it)
        (one-GlobsStart (match_here (compile_acl_regex p)) p (match_here-GlobsStart p) s
          (subst (λ x. match_here (part_of x ∷ compile_acl_regex p) s ≡ true) it h))
  | inr e ↦ elim (Bool-cases (nat_eq c b'*')) [
    | inl k ↦
        let it : c ≡ b'*' = (nat_eq_iff c b'*').0 k in
        subst (λ x. GlobsStart (x ∷ p) s) (sym it)
          (more-GlobsStart (match_here (compile_acl_regex p)) p (match_here-GlobsStart p) s
            (subst (λ x. match_here (part_of x ∷ compile_acl_regex p) s ≡ true) it h))
    | inr k ↦
        let it : part_of c ≡ literal c = rw (e, k) refl in
        same-GlobsStart (match_here (compile_acl_regex p)) p c e k (match_here-GlobsStart p) s
          (subst (λ x. match_here (x ∷ compile_acl_regex p) s ≡ true) it h)
  ]
]

after_dots_now : (rest : List ℕ → Bool) (s : List ℕ) → rest s ≡ true → after_dots rest s ≡ true
unfolding after_dots
after_dots_now rest [] h = h
after_dots_now rest (c ∷ s) h = ground (arith, h)

Glob-match_here :
    (p mid post : List ℕ)
    → Glob p mid
    → IsLine mid
    → match_here (compile_acl_regex p) (mid ++ post) ≡ true
unfolding match_here compile_acl_regex after_dots
Glob-match_here p mid post Glob.done l = refl
Glob-match_here p mid post (Glob.same {p = q} {s = s} c e k g) l =
    let rest = Glob-match_here q s post g l.1 in
    let it : nat_eq c c ≡ true = ground arith in rw (e, k, it) rest
Glob-match_here p mid post (Glob.one {p = q} {s = s} c g) l =
    let rest = Glob-match_here q s post g l.1 in ground (arith, l.0, rest)
Glob-match_here p mid post (Glob.none_more {p = q} g) l =
    after_dots_now (match_here (compile_acl_regex q)) (mid ++ post) (Glob-match_here q mid post g l)
Glob-match_here p mid post (Glob.one_more {p = q} {s = s} c g) l =
    let rest = Glob-match_here (b'*' ∷ q) s post g l.1 in ground (arith, l.0, rest)

-- Some part of the text is what the glob stands for.
abbrev pub IsGlobbed : List ℕ → List ℕ → Type 0
IsGlobbed p s =
    (before : List ℕ) × (mid : List ℕ) × (post : List ℕ) × (s ≡ before ++ (mid ++ post))
    × Glob p mid

match_string-IsGlobbed :
    (p s : List ℕ) → match_string (compile_acl_regex p) s ≡ true → IsGlobbed p s
unfolding match_string
match_string-IsGlobbed p [] h =
    let start = match_here-GlobsStart p [] h in ([], start.0, start.1, start.2, start.3)
match_string-IsGlobbed p (c ∷ s) h = elim (Bool-cases (match_here (compile_acl_regex p) (c ∷ s))) [
  | inl e ↦
      let start = match_here-GlobsStart p (c ∷ s) e in ([], start.0, start.1, start.2, start.3)
  | inr e ↦
      let later = match_string-IsGlobbed p s (ground (arith, e, h)) in
      (c ∷ later.0, later.1, later.2, ap (◌∷◌ c) later.3, later.4)
]

IsLine-behind : (a b : List ℕ) → IsLine (a ++ b) → IsLine b
IsLine-behind [] b l = l
IsLine-behind (c ∷ a) b l = IsLine-behind a b l.1

IsLine-before : (a b : List ℕ) → IsLine (a ++ b) → IsLine a
IsLine-before [] b l = tt
IsLine-before (c ∷ a) b l = (l.0, IsLine-before a b l.1)

match_string_now :
    (expr : List Part) (s : List ℕ) → match_here expr s ≡ true → match_string expr s ≡ true
unfolding match_string
match_string_now expr [] h = h
match_string_now expr (c ∷ s) h = ground (arith, h)

match_string_later :
    (expr : List Part) (before s : List ℕ)
    → match_here expr s ≡ true
    → match_string expr (before ++ s) ≡ true
unfolding match_string
match_string_later expr [] s h = match_string_now expr s h
match_string_later expr (c ∷ before) s h =
    let later = match_string_later expr before s h in ground (arith, later)

-- On a text in one line, the expression that a pattern is compiled to matches exactly if the
-- pattern, as a glob, stands for some part of the text: it need not stand for all of it.
pub match_string-compile_acl_regex :
    (p s : List ℕ) → IsLine s → (match_string (compile_acl_regex p) s ≡ true) ↔ IsGlobbed p s
match_string-compile_acl_regex p s l = (
  match_string-IsGlobbed p s,
  λ g.
      let behind : IsLine (g.1 ++ g.2) = IsLine-behind g.0 (g.1 ++ g.2) (subst IsLine g.3 l) in
      subst (λ t. match_string (compile_acl_regex p) t ≡ true) (sym g.3)
        (match_string_later (compile_acl_regex p) g.0 (g.1 ++ g.2)
          (Glob-match_here p g.1 g.2 g.4 (IsLine-before g.1 g.2 behind))),
)
