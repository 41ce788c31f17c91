-- ===== src/Storage/Emptied.antt =====
-- What the loops at the top of `AddState` (roomserver/storage/shared/storage.go) make of a state of
-- one entry.
use dendrite.Base.{
  ℕ, ◌≡◌, refl, sym, ◌∙◌, List, [], ◌∷◌, ◌++◌, Option, none, some, Result, err, ok, ◌>>=◌, nat_eq,
  if◌then◌else◌, get_elem?, inl, inr, Bool-cases,
}
use dendrite.RoomState.Entries.{StateEntry}
use dendrite.Storage.Tables.{Failure, panicked}
use dendrite.Storage.Add.{compared, without_events, without_blocks, without_known}

-- The events after the first that a test finds.
abbrev pub behind_first : ℕ → List ℕ → Option (List ℕ)
behind_first n [] = none
behind_first n (event ∷ events) = if nat_eq n event then some events else behind_first n events

-- What becomes of a state of one entry.
abbrev pub left_of_one : StateEntry → Option (List ℕ) → Result Failure (List StateEntry)
left_of_one e none = ok (e ∷ [])
left_of_one e (some []) = ok []
left_of_one e (some (event ∷ events)) = err panicked

abbrev pub all_events : List (List ℕ) → List ℕ
all_events [] = []
all_events (events ∷ blocks) = events ++ all_events blocks

bind_both :
    (m : Result Failure (List StateEntry))
    (f g : List StateEntry → Result Failure (List StateEntry))
    → ((v : List StateEntry) → f v ≡ g v)
    → (m >>= f) ≡ (m >>= g)
bind_both (err x) f g h = refl
bind_both (ok v) f g h = h v

bind_assoc :
    (m : Result Failure (List StateEntry))
    (f g : List StateEntry → Result Failure (List StateEntry))
    → (m >>= f >>= g) ≡ (m >>= λ v. f v >>= g)
bind_assoc (err x) f g = refl
bind_assoc (ok v) f g = refl

without_events-append :
    (i : ℕ) (a b : List ℕ) (state : List StateEntry)
    → without_events i (a ++ b) state ≡ (without_events i a state >>= without_events i b)
unfolding without_events
without_events-append i [] b state = refl
without_events-append i (event ∷ a) b state =
    bind_both (compared i event state (get_elem? state i)) (without_events i (a ++ b)) _
      (without_events-append i a b)
    ∙ sym (bind_assoc (compared i event state (get_elem? state i)) (without_events i a) _)

-- The blocks, as if they were one.
without_blocks-all_events :
    (i : ℕ) (blocks : List (List ℕ)) (state : List StateEntry)
    → without_blocks i blocks state ≡ without_events i (all_events blocks) state
unfolding without_blocks without_events
without_blocks-all_events i [] state = refl
without_blocks-all_events i (events ∷ blocks) state =
    bind_both (without_events i events state) (without_blocks i blocks) _
      (without_blocks-all_events i blocks)
    ∙ sym (without_events-append i events (all_events blocks) state)

without_events-one :
    (events : List ℕ) (e : StateEntry)
    → without_events 0 events (e ∷ []) ≡ left_of_one e (behind_first e.event_nid events)
unfolding without_events
without_events-one [] e = refl
without_events-one (event ∷ events) e = elim (Bool-cases (nat_eq e.event_nid event)) [
  | inl t ↦ rw t (after events)
  | inr t ↦ rw t (without_events-one events e)
]
  where
    after : (l : List ℕ) → without_events 0 l [] ≡ left_of_one e (some l)
    after [] = refl
    after (n ∷ l) = refl

-- A state of one entry is left alone by the loops at the top of `AddState` if the blocks do not
-- have its event, and is emptied if their very last event is the first one that is the same. In all
-- other cases the loops read past the end of the state that they have emptied, and panic.
pub without_known-one :
    (blocks : List (List ℕ)) (e : StateEntry)
    → without_known 1 blocks (e ∷ []) ≡ left_of_one e (behind_first e.event_nid (all_events blocks))
unfolding without_known
without_known-one blocks e =
    bind_ok (without_blocks 0 blocks (e ∷ []))
    ∙ without_blocks-all_events 0 blocks (e ∷ [])
    ∙ without_events-one (all_events blocks) e
  where
    bind_ok : (m : Result Failure (List StateEntry)) → (m >>= λ v. ok v) ≡ m
    bind_ok (ok v) = refl
    bind_ok (err x) = refl
