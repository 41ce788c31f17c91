-- ===== src/Extremities/Tests.antt =====
-- The theorems about the forward extremities at a small room: 3 and 4 are the extremities, and 5
-- follows 3.
use dendrite.Base.{
  ℕ, ◌≡◌, refl, true, false, List, [], ◌∷◌, none, some, String, ◌==◌, String_eq, if◌then◌else◌,
}
use dendrite.Base.Map.{lookup, insert, delete}
use dendrite.Extremities.Latest.{
  StateAtEventAndReference, PreviousEvents, calculate_latest, store_previous_events,
  insert_previous_event, existing_refs, existing_prevs, delete_all, values, is_referenced,
}
use dendrite.Extremities.Forward.{calculate_latest-extremity, calculate_latest-calculate_latest}
use dendrite.Extremities.Valid.{extremity, kept, last_with}

abbrev event : String → ℕ → StateAtEventAndReference
event id nid = record {
  state_at_event = record {
    overwrite = false;
    before_state_snapshot_nid = 1;
    is_rejected = false;
    state_entry = record {
      key = record { event_type_nid = 9; event_state_key_nid = 0 };
      event_nid = nid;
    };
  };
  event_reference = record { event_id = id; event_sha256 = "sha" };
}

abbrev three : String
three = "$3"

abbrev four : String
four = "$4"

abbrev five : String
five = "$5"

abbrev old : List StateAtEventAndReference
old = event three 3 ∷ event four 4 ∷ []

abbrev stored : PreviousEvents
stored = store_previous_events 5 ((event three 3).event_reference ∷ []) []

not_referenced : is_referenced stored (event five 5).event_reference ≡ false
unfolding is_referenced store_previous_events insert_previous_event insert lookup
not_referenced = refl

four_and_five :
    calculate_latest stored old (event five 5).event_reference (three ∷ []) (event five 5)
    ≡ (event five 5 ∷ event four 4 ∷ [], true)
unfolding calculate_latest existing_refs existing_prevs delete_all values is_referenced
    store_previous_events insert_previous_event insert lookup delete
four_and_five = refl

calculate_latest-extremity_example :
    let (latest, changed) =
      calculate_latest stored old (event five 5).event_reference (three ∷ []) (event five 5) in
    (changed ≡ true)
    × (extremity four latest ≡ (
        if five == four
        then some (event five 5)
        else kept four stored (three ∷ []) (last_with four old none)))
calculate_latest-extremity_example =
    calculate_latest-extremity stored old (event five 5).event_reference (three ∷ []) (event five 5)
      four refl not_referenced refl

calculate_latest-calculate_latest_lem :
    let (latest, changed) =
      calculate_latest stored old (event five 5).event_reference (three ∷ []) (event five 5) in
    calculate_latest stored latest (event five 5).event_reference (three ∷ []) (event five 5)
    ≡ (latest, false)
calculate_latest-calculate_latest_lem =
    calculate_latest-calculate_latest stored old (event five 5).event_reference (three ∷ [])
      (event five 5) refl
