-- ===== src/Storage/Known.antt =====
-- What the loops at the top of `AddState` (roomserver/storage/shared/storage.go) make of a state
-- some of whose events the blocks already have.
use dendrite.Base.{
  ℕ, zero, suc, ◌≡◌, refl, sym, ap, subst, Bool, false, not, List, [], ◌∷◌, ◌++◌, some, arith, ok,
  nat_eq, if◌then◌else◌, any, keep, length, get_elem?, inl, inr, Bool-cases,
}
use dendrite.RoomState.Entries.{StateEntry}
use dendrite.Storage.Tables.{among}
use dendrite.Storage.Add.{remove_at, compared, without_events, without_blocks, without_known}

abbrev pub is_known : List (List ℕ) → StateEntry → Bool
is_known blocks e = any (λ events. among events e.event_nid) blocks

get_elem?-middle :
    (before : List StateEntry) (e : StateEntry) (behind : List StateEntry)
    → get_elem? (before ++ (e ∷ behind)) (length before) ≡ some e
get_elem?-middle [] e behind = refl
get_elem?-middle (x ∷ before) e behind = get_elem?-middle before e behind

remove_at-middle :
    (before : List StateEntry) (e : StateEntry) (behind : List StateEntry)
    → remove_at (length before) (before ++ (e ∷ behind)) ≡ before ++ behind
remove_at-middle [] e behind = refl
remove_at-middle (x ∷ before) e behind = ap (◌∷◌ x) (remove_at-middle before e behind)

compared-middle :
    (event : ℕ) (before : List StateEntry) (e : StateEntry) (behind : List StateEntry)
    → compared
        (length before)
        event
        (before ++ (e ∷ behind))
        (get_elem? (before ++ (e ∷ behind)) (length before))
      ≡ ok (if nat_eq e.event_nid event then before ++ behind else before ++ (e ∷ behind))
compared-middle event before e behind =
    rw (get_elem?-middle before e behind, remove_at-middle before e behind) refl

-- An entry that the events do not have stays where it is.
without_events-new :
    (events : List ℕ) (before : List StateEntry) (e : StateEntry) (behind : List StateEntry)
    → among events e.event_nid ≡ false
    → without_events (length before) events (before ++ (e ∷ behind)) ≡ ok (before ++ (e ∷ behind))
unfolding without_events
without_events-new [] before e behind h = refl
without_events-new (event ∷ events) before e behind h =
    let fresh : nat_eq e.event_nid event ≡ false = ground (arith, h) in
    rw (compared-middle event before e behind, fresh)
      (without_events-new events before e behind (ground (arith, h)))

without_blocks-new :
    (blocks : List (List ℕ)) (before : List StateEntry) (e : StateEntry) (behind : List StateEntry)
    → is_known blocks e ≡ false
    → without_blocks (length before) blocks (before ++ (e ∷ behind)) ≡ ok (before ++ (e ∷ behind))
unfolding without_blocks
without_blocks-new [] before e behind h = refl
without_blocks-new (events ∷ blocks) before e behind h =
    rw (without_events-new events before e behind (ground (arith, h)))
      (without_blocks-new blocks before e behind (ground (arith, h)))

-- An entry in front of a new one is taken out if the events have it, once.
without_events-pair :
    (events : List ℕ) (before : List StateEntry) (e x : StateEntry) (behind : List StateEntry)
    → among events x.event_nid ≡ false
    → without_events (length before) events (before ++ (e ∷ x ∷ behind))
      ≡ ok (if among events e.event_nid then before ++ (x ∷ behind) else before ++ (e ∷ x ∷ behind))
unfolding without_events
without_events-pair [] before e x behind h = refl
without_events-pair (event ∷ events) before e x behind h =
    elim (Bool-cases (nat_eq e.event_nid event)) [
      | inl t ↦
          rw (compared-middle event before e (x ∷ behind), t)
            (without_events-new events before x behind (ground (arith, h)))
      | inr t ↦
          rw (compared-middle event before e (x ∷ behind), t)
            (without_events-pair events before e x behind (ground (arith, h)))
    ]

without_blocks-pair :
    (blocks : List (List ℕ)) (before : List StateEntry) (e x : StateEntry)
    (behind : List StateEntry)
    → is_known blocks x ≡ false
    → without_blocks (length before) blocks (before ++ (e ∷ x ∷ behind))
      ≡ ok (if is_known blocks e then before ++ (x ∷ behind) else before ++ (e ∷ x ∷ behind))
unfolding without_blocks
without_blocks-pair [] before e x behind h = refl
without_blocks-pair (events ∷ blocks) before e x behind h =
    elim (Bool-cases (among events e.event_nid)) [
      | inl t ↦
          rw (without_events-pair events before e x behind (ground (arith, h)), t)
            (without_blocks-new blocks before x behind (ground (arith, h)))
      | inr t ↦
          rw (without_events-pair events before e x behind (ground (arith, h)), t)
            (without_blocks-pair blocks before e x behind (ground (arith, h)))
    ]

append_middle :
    (before : List StateEntry) (e : StateEntry) (behind : List StateEntry)
    → (before ++ (e ∷ [])) ++ behind ≡ before ++ (e ∷ behind)
append_middle [] e behind = refl
append_middle (x ∷ before) e behind = ap (◌∷◌ x) (append_middle before e behind)

pub append_nil : (a : List StateEntry) → a ++ [] ≡ a
append_nil [] = refl
append_nil (e ∷ a) = ap (◌∷◌ e) (append_nil a)

length-snoc :
    (before : List StateEntry) (e : StateEntry) → length (before ++ (e ∷ [])) ≡ suc (length before)
length-snoc [] e = refl
length-snoc (x ∷ before) e = omega (arith, length-snoc before e)

abbrev pub new_ones : List (List ℕ) → List StateEntry → List StateEntry
new_ones blocks state = keep (λ e. not (is_known blocks e)) state

new_ones-append :
    (blocks : List (List ℕ)) (a b : List StateEntry)
    → new_ones blocks (a ++ b) ≡ new_ones blocks a ++ new_ones blocks b
new_ones-append blocks [] b = refl
new_ones-append blocks (e ∷ a) b = elim (Bool-cases (is_known blocks e)) [
  | inl t ↦ rw t (new_ones-append blocks a b)
  | inr t ↦ rw t (ap (◌∷◌ e) (new_ones-append blocks a b))
]

split_last :
    (x : StateEntry) (l : List StateEntry)
    → (before : List StateEntry) × (e : StateEntry) × (x ∷ l ≡ before ++ (e ∷ []))
split_last x [] = ([], x, refl)
split_last x (y ∷ l) = let rest = split_last y l in (x ∷ rest.0, rest.1, ap (◌∷◌ x) rest.2)

-- What the loop leaves when a new entry follows the ones that it still has to look at.
abbrev KeepsNew : List (List ℕ) → ℕ → Type 0
KeepsNew blocks n =
    (before : List StateEntry) (x : StateEntry) (behind : List StateEntry)
    → length before ≡ n
    → is_known blocks x ≡ false
    → without_known n blocks (before ++ (x ∷ behind)) ≡ ok (new_ones blocks before ++ (x ∷ behind))

without_known_round :
    (blocks : List (List ℕ)) (n : ℕ) (before : List StateEntry) (e x : StateEntry)
    (behind : List StateEntry)
    → KeepsNew blocks n
    → length before ≡ n
    → is_known blocks x ≡ false
    → without_known (suc n) blocks (before ++ (e ∷ x ∷ behind))
      ≡ ok (new_ones blocks (before ++ (e ∷ [])) ++ (x ∷ behind))
unfolding without_known
without_known_round blocks n before e x behind kept l h =
    let round = without_blocks-pair blocks before e x behind h in
    let at =
      subst
        (λ i.
          without_blocks i blocks (before ++ (e ∷ x ∷ behind))
          ≡ ok (if is_known blocks e then before ++ (x ∷ behind) else before ++ (e ∷ x ∷ behind)))
        l round in
    elim (Bool-cases (is_known blocks e)) [
      | inl t ↦
          rw (at, new_ones-append blocks before (e ∷ []), t, append_nil (new_ones blocks before))
            (kept before x behind l h)
      | inr t ↦
          rw
            (
              at,
              new_ones-append blocks before (e ∷ []),
              t,
              append_middle (new_ones blocks before) e (x ∷ behind),
            )
            (kept before e (x ∷ behind) l t)
    ]

without_known-KeepsNew : (blocks : List (List ℕ)) (n : ℕ) → KeepsNew blocks n
without_known-KeepsNew blocks zero [] x behind l h = unfold without_known in refl
without_known-KeepsNew blocks zero (y ∷ before) x behind l h = ground (arith, l)
without_known-KeepsNew blocks (suc n) [] x behind l h = ground (arith, l)
without_known-KeepsNew blocks (suc n) (y ∷ before) x behind l h =
    let s = split_last y before in
    let shorter : length s.0 ≡ n = omega (arith, l, ap length s.2, length-snoc s.0 s.1) in
    subst
      (λ b.
        without_known (suc n) blocks (b ++ (x ∷ behind)) ≡ ok (new_ones blocks b ++ (x ∷ behind)))
      (sym s.2)
      (rw (append_middle s.0 s.1 (x ∷ behind))
        (without_known_round blocks n s.0 s.1 x behind (without_known-KeepsNew blocks n) shorter h))

-- If the blocks do not have the last entry of a state, then the loops at the top of `AddState` end
-- without a panic and take out exactly the entries whose events the blocks have, wherever they
-- stand.
pub without_known-new_ones :
    (blocks : List (List ℕ)) (state : List StateEntry) (e : StateEntry)
    → is_known blocks e ≡ false
    → without_known (length (state ++ (e ∷ []))) blocks (state ++ (e ∷ []))
      ≡ ok (new_ones blocks (state ++ (e ∷ [])))
unfolding without_known
without_known-new_ones blocks state e h =
    rw
      (
        length-snoc state e,
        without_blocks-new blocks state e [] h,
        new_ones-append blocks state (e ∷ []),
        h,
      )
      (without_known-KeepsNew blocks (length state) state e [] refl h)
