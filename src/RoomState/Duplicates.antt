-- ===== src/RoomState/Duplicates.antt =====
-- `findDuplicateStateKeys` (roomserver/state/state.go).
use dendrite.Base.{
  ℕ, suc, ◌+◌, ◌≤◌, ◌≡◌, refl, sym, ap, ◌∙◌, Bool, true, false, List, [], ◌∷◌, ◌++◌, arith, ltb,
  nat_eq, if◌then◌else◌, All, length, keep, inl, inr, Bool-cases, length-append,
}
use dendrite.Base.Sort.{IsSorted, All-imp}
use dendrite.RoomState.Entries.{StateKeyTuple, StateEntry, key_eq, key_less, by_key}

-- A block of entries with one key goes to the result unless it has one entry only.
abbrev pub flush : List StateEntry → List StateEntry → List StateEntry
flush block result = if nat_eq (length block) 1 then result else block ++ result

-- The loop, from an entry on: the block that started with `start` (index j in the code) so far.
unfoldable pub blocks : List StateEntry → StateEntry → List StateEntry → List StateEntry
blocks block start [] = flush block []
blocks block start (e ∷ a) =
    let same = blocks (block ++ (e ∷ [])) start a in
    let next = flush block (blocks (e ∷ []) e a) in if key_eq start.key e.key then same else next

unfoldable pub find_duplicate_state_keys : List StateEntry → List StateEntry
find_duplicate_state_keys [] = []
find_duplicate_state_keys (e ∷ a) = blocks (e ∷ []) e a

-- How many entries there are for a key.
abbrev pub count : StateKeyTuple → List StateEntry → ℕ
count k [] = 0
count k (e ∷ a) = if key_eq e.key k then suc (count k a) else count k a

-- Whether an entry's key has more than one entry.
abbrev pub is_repeated : List StateEntry → StateEntry → Bool
is_repeated a e = ltb 1 (count e.key a)

count-append :
    (k : StateKeyTuple) (a b : List StateEntry) → count k (a ++ b) ≡ count k a + count k b
count-append k [] b = omega arith
count-append k (e ∷ a) b = ground (arith, count-append k a b)

keep-append :
    (p : StateEntry → Bool) (a b : List StateEntry) → keep p (a ++ b) ≡ keep p a ++ keep p b
keep-append p [] b = refl
keep-append p (e ∷ a) b = elim (Bool-cases (p e)) [
  | inl t ↦ rw t (ap (◌∷◌ e) (keep-append p a b))
  | inr t ↦ rw t (keep-append p a b)
]

pub keep_same :
    (p q : StateEntry → Bool) (a : List StateEntry) → All (λ e. p e ≡ q e) a → keep p a ≡ keep q a
keep_same p q [] h = refl
keep_same p q (e ∷ a) h = elim (Bool-cases (q e)) [
  | inl t ↦ rw (h.0, t) (ap (◌∷◌ e) (keep_same p q a h.1))
  | inr t ↦ rw (h.0, t) (keep_same p q a h.1)
]

keep_whole : (p : StateEntry → Bool) (a : List StateEntry) → All (λ e. p e ≡ true) a → keep p a ≡ a
keep_whole p [] h = refl
keep_whole p (e ∷ a) h = rw h.0 (ap (◌∷◌ e) (keep_whole p a h.1))

keep_none : (p : StateEntry → Bool) (a : List StateEntry) → All (λ e. p e ≡ false) a → keep p a ≡ []
keep_none p [] h = refl
keep_none p (e ∷ a) h = rw h.0 (keep_none p a h.1)

-- The entries of a block all have one key.
abbrev IsBlock : StateEntry → List StateEntry → Type 0
IsBlock start = All (λ e. key_eq start.key e.key ≡ true)

-- The entries after a block have greater keys.
abbrev IsAbove : StateEntry → List StateEntry → Type 0
IsAbove start = All (λ e. key_less start.key e.key ≡ true)

count-block :
    (start : StateEntry) (k : StateKeyTuple) (a : List StateEntry)
    → key_eq start.key k ≡ true
    → IsBlock start a
    → count k a ≡ length a
count-block start k [] q h = refl
count-block start k (e ∷ a) q h = ground (arith, q, h.0, count-block start k a q h.1)

count-above :
    (start : StateEntry) (k : StateKeyTuple) (a : List StateEntry)
    → key_eq start.key k ≡ true
    → IsAbove start a
    → count k a ≡ 0
count-above start k [] q h = refl
count-above start k (e ∷ a) q h = ground (arith, q, h.0, count-above start k a q h.1)

count_below :
    (start : StateEntry) (k : StateKeyTuple) (a : List StateEntry)
    → key_less start.key k ≡ true
    → IsBlock start a
    → count k a ≡ 0
count_below start k [] q h = refl
count_below start k (e ∷ a) q h = ground (arith, q, h.0, count_below start k a q h.1)

count_later :
    (start : StateEntry) (block after : List StateEntry) (e : StateEntry)
    → key_less start.key e.key ≡ true
    → IsBlock start block
    → count e.key (block ++ after) ≡ count e.key after
count_later start block after e q b =
    omega (arith, count-append e.key block after, count_below start e.key block q b)

count_here :
    (start : StateEntry) (block after : List StateEntry) (e : StateEntry)
    → key_eq start.key e.key ≡ true
    → IsBlock start block
    → IsAbove start after
    → count e.key (block ++ after) ≡ length block
count_here start block after e q b a = omega (
  arith,
  count-append e.key block after,
  count-block start e.key block q b,
  count-above start e.key after q a,
)

-- The part of the result that a finished block gives.
flush-keep :
    (start : StateEntry) (block after : List StateEntry)
    → 1 ≤ length block
    → IsBlock start block
    → IsAbove start after
    → flush block (keep (is_repeated after) after)
      ≡ keep (is_repeated (block ++ after)) (block ++ after)
flush-keep start block after l b a =
    let whole : List StateEntry = block ++ after in
    let split = keep-append (is_repeated whole) block after in
    let later =
      keep_same (is_repeated whole) (is_repeated after) after
        (All-imp (λ e q. ap (ltb 1) (count_later start block after e q b)) after a) in
    elim (Bool-cases (nat_eq (length block) 1)) [
      | inl t ↦ rw t (
          sym (
            split
            ∙ ap (λ m. m ++ keep (is_repeated whole) after)
                (keep_none (is_repeated whole) block (
                  All-imp (λ e q. ground (arith, t, count_here start block after e q b a)) block b))
            ∙ later))
      | inr t ↦ rw t (
          sym (
            split
            ∙ ap (λ m. m ++ keep (is_repeated whole) after)
                (keep_whole (is_repeated whole) block (
                  All-imp (λ e q. ground (arith, t, l, count_here start block after e q b a)) block
                    b))
            ∙ ap (λ m. block ++ m) later))
    ]

append_assoc : (a b c : List StateEntry) → (a ++ b) ++ c ≡ a ++ (b ++ c)
append_assoc [] b c = refl
append_assoc (e ∷ a) b c = ap (◌∷◌ e) (append_assoc a b c)

append-nil : (a : List StateEntry) → a ++ [] ≡ a
append-nil [] = refl
append-nil (e ∷ a) = ap (◌∷◌ e) (append-nil a)

All-snoc {κ} :
    (P : StateEntry → Type κ) (a : List StateEntry) (e : StateEntry)
    → All P a
    → P e
    → All P (a ++ (e ∷ []))
All-snoc P [] e h q = (q, tt)
All-snoc P (x ∷ a) e h q = (h.0, All-snoc P a e h.1 q)

blocks_same :
    (block : List StateEntry) (start e : StateEntry) (a : List StateEntry)
    → key_eq start.key e.key ≡ true
    → blocks block start (e ∷ a) ≡ blocks (block ++ (e ∷ [])) start a
unfolding blocks
blocks_same block start e a h = rw h

blocks_next :
    (block : List StateEntry) (start e : StateEntry) (a : List StateEntry)
    → key_eq start.key e.key ≡ false
    → blocks block start (e ∷ a) ≡ flush block (blocks (e ∷ []) e a)
unfolding blocks
blocks_next block start e a h = rw h

blocks-keep :
    (block : List StateEntry) (start : StateEntry) (a : List StateEntry)
    → 1 ≤ length block
    → IsBlock start block
    → IsSorted by_key (start ∷ a)
    → blocks block start a ≡ keep (is_repeated (block ++ a)) (block ++ a)
blocks-keep block start [] l b s = unfold blocks in flush-keep start block [] l b tt
blocks-keep block start (e ∷ a) l b s = elim (Bool-cases (key_eq start.key e.key)) [
  | inl t ↦
      blocks_same block start e a t
      ∙ blocks-keep (block ++ (e ∷ [])) start a (omega (arith, length-append block (e ∷ []), l))
          (All-snoc (λ x. key_eq start.key x.key ≡ true) block e b t) (s.0.1, s.1.1)
      ∙ ap (λ m. keep (is_repeated m) m) (append_assoc block (e ∷ []) a)
  | inr t ↦
      blocks_next block start e a t
      ∙ ap (flush block) (blocks-keep (e ∷ []) e a (omega arith) (ground arith, tt) s.1)
      ∙ flush-keep start block (e ∷ a) l b
          (ground (arith, t, s.0.0), All-imp (λ x q. ground (arith, t, s.0.0, q)) a s.1.0)
]

-- On a list sorted by the keys, `findDuplicateStateKeys` returns, in order, exactly the entries
-- whose key has more than one entry.
pub find_duplicate_state_keys-keep :
    (a : List StateEntry) → IsSorted by_key a → find_duplicate_state_keys a ≡ keep (is_repeated a) a
unfolding find_duplicate_state_keys
find_duplicate_state_keys-keep [] s = refl
find_duplicate_state_keys-keep (e ∷ a) s =
    blocks-keep (e ∷ []) e a (omega arith) (ground arith, tt) s
