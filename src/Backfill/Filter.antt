-- ===== src/Backfill/Filter.antt =====
-- `CheckServerAllowedToSeeEvent` (roomserver/internal/helpers/helpers.go) reads a part of the state
-- only.
use dendrite.Base.{
  ℕ, ◌≡◌, refl, sym, ap, ◌∙◌, subst, Bool, true, false, ◌&&◌, ◌||◌, List, [], ◌∷◌, Option, some,
  map, arith, ◌==◌, ℕ_eq, List_eq, list_beq, list_beq_iff, String, String_eq, any, keep, All, inl,
  inr, Bool-cases, Option-cases,
}
use dendrite.Base.Sort.{All-imp}
use dendrite.RoomState.Entries.{StateEntry}
use dendrite.RoomState.Load.{and_then}
use dendrite.Backfill.Visibility.{
  Bytes, StateEvent, history_visibility_type, understood, visibility_from,
  history_visibility_for_room, is_for, is_domain, is_user_with,
  is_any_user_on_server_with_membership, is_server_allowed, has_suffix, entries, is_kept_key,
  decided, check_server_allowed_to_see_event,
}

-- What `SplitID` is documented to return: what follows a colon, up to the end.
abbrev pub SplitsAtColon : (Bytes → Option Bytes) → Type 0
SplitsAtColon split_id =
    (key domain : Bytes) → split_id key ≡ some domain → has_suffix key (b':' ∷ domain) ≡ true

module _ (ev : StateEntry → StateEvent) (p : StateEntry → Bool) where
  visibility_from-keep :
      (visibility : String) (l : List StateEntry)
      → All (λ e. ((ev e).event_type == history_visibility_type) ≡ true → p e ≡ true) l
      → visibility_from visibility (map ev (keep p l)) ≡ visibility_from visibility (map ev l)
  unfolding visibility_from
  visibility_from-keep visibility [] h = refl
  visibility_from-keep visibility (e ∷ l) h = elim (Bool-cases (p e)) [
    | inl t ↦
        rw
          (
            t,
            visibility_from-keep visibility l h.1,
            visibility_from-keep (understood visibility (ev e).history_visibility) l h.1,
          )
          refl
    | inr t ↦
        let other : ((ev e).event_type == history_visibility_type) ≡ false =
          ground (arith, t, h.0) in
        rw (t, other) (visibility_from-keep visibility l h.1)
  ]

  any-keep :
      (q : StateEvent → Bool) (l : List StateEntry)
      → All (λ e. q (ev e) ≡ true → p e ≡ true) l
      → any q (map ev (keep p l)) ≡ any q (map ev l)
  any-keep q [] h = refl
  any-keep q (e ∷ l) h = elim (Bool-cases (p e)) [
    | inl t ↦ rw t (ap (λ b. q (ev e) || b) (any-keep q l h.1))
    | inr t ↦
        let other : q (ev e) ≡ false = ground (arith, t, h.0) in rw (t, other) (any-keep q l h.1)
  ]

-- The event has the key that the database has under the NID. The history visibility has none.
abbrev pub IsKeyed : (StateEntry → StateEvent) → (ℕ → Bytes) → StateEntry → Type 0
IsKeyed ev key e =
    ((ev e).state_key ≡ some (key e.key.event_state_key_nid))
    × (((ev e).event_type == history_visibility_type) ≡ true → key e.key.event_state_key_nid ≡ [])

abbrev pub has_key_kept : (ℕ → Bytes) → Bytes → StateEntry → Bool
has_key_kept key server e = is_kept_key server (key e.key.event_state_key_nid)

module _ (split_id : Bytes → Option Bytes) (splits : SplitsAtColon split_id)
    (ev : StateEntry → StateEvent) (key : ℕ → Bytes) where
  domain-kept :
      (server : Bytes) (k : Bytes)
      → is_domain server (split_id k) ≡ true
      → has_suffix k (b':' ∷ server) ≡ true
  domain-kept server k h = elim (Option-cases (split_id k)) [
    | inl e ↦ let wrong : true ≡ false = sym h ∙ ap (is_domain server) e in ground (arith, wrong)
    | inr (d, e) ↦
        let same : list_beq ℕ_eq d server ≡ true = sym (ap (is_domain server) e) ∙ h in
        subst (λ x. has_suffix k (b':' ∷ x) ≡ true) ((list_beq_iff ℕ_eq d server).0 same)
          (splits k d e)
  ]

  user-kept :
      (server : Bytes) (want : String) (e : StateEntry)
      → IsKeyed ev key e
      → is_user_with split_id server want (ev e) ≡ true
      → is_kept_key server (key e.key.event_state_key_nid) ≡ true
  user-kept server want e k h =
      let k' : Bytes = key e.key.event_state_key_nid in
      let asked : (is_for want (ev e).membership && is_domain server (split_id k')) ≡ true =
        sym (ap (λ s. is_for want (ev e).membership && is_domain server (and_then s split_id)) k.0)
        ∙ h in
      let domain : is_domain server (split_id k') ≡ true = ground (arith, asked) in
      ground (arith, domain-kept server k' domain)

  module _ (server : Bytes) (in_room : Bool) where
    is_server_allowed-keep :
        (l : List StateEntry)
        → All (IsKeyed ev key) l
        → is_server_allowed split_id server in_room (map ev (keep (has_key_kept key server) l))
          ≡ is_server_allowed split_id server in_room (map ev l)
    unfolding is_server_allowed history_visibility_for_room is_any_user_on_server_with_membership
    is_server_allowed-keep l h =
        rw
          (
            visibility_from-keep ev (has_key_kept key server) "shared" l
                (All-imp (λ e k t. ap (is_kept_key server) (k.1 t)) l h),
            any-keep ev (has_key_kept key server) (is_user_with split_id server "join") l
                (All-imp (λ e k. user-kept server "join" e k) l h),
            any-keep ev (has_key_kept key server) (is_user_with split_id server "invite") l
                (All-imp (λ e k. user-kept server "invite" e k) l h),
          )
          refl

    decided-keep :
        (l : List StateEntry)
        → decided split_id (some (λ n. some (key n))) (λ m. some (map ev m)) server in_room l
          ≡ some (any (λ e. true) l && is_server_allowed split_id server in_room (map ev l))
    decided-keep [] = refl
    decided-keep (e ∷ l) = refl

    any-keep_all :
        (q : StateEntry → Bool) (l : List StateEntry) → any (λ e. true) (keep q l) ≡ any q l
    any-keep_all q [] = refl
    any-keep_all q (e ∷ l) = elim (Bool-cases (q e)) [
      | inl t ↦ rw t refl
      | inr t ↦ rw t (any-keep_all q l)
    ]

    -- If the database has the events and the state keys of the state, and history visibility is
    -- set under the empty state key only, then `CheckServerAllowedToSeeEvent` answers what
    -- `IsServerAllowed` says of the whole state, although it loads only the events whose state key
    -- is empty or ends in the name of the server, but for a state that has no such event: there it
    -- denies.
    pub check_server_allowed_to_see_event-is_server_allowed :
        (l : List StateEntry)
        → All (IsKeyed ev key) l
        → check_server_allowed_to_see_event split_id
            (some (λ n. some (key n)))
            (λ m. some (map ev m))
            server
            in_room
            (entries l)
          ≡ some (
              any (has_key_kept key server) l
              && is_server_allowed split_id server in_room (map ev l))
    unfolding check_server_allowed_to_see_event
    check_server_allowed_to_see_event-is_server_allowed l h =
        decided-keep (keep (has_key_kept key server) l)
        ∙ (rw (is_server_allowed-keep l h, any-keep_all (has_key_kept key server) l) refl)
