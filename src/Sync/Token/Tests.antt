-- ===== src/Sync/Token/Tests.antt =====
-- The theorems about tokens at concrete tokens, and runs of the readers.
use dendrite.Base.{ℕ, ◌≡◌, refl, false, not, List, [], ◌∷◌, ok, err, ◌||◌, arith}
use dendrite.Base.Int.{pos}
use dendrite.Sync.Token.{StreamingToken, zero_token, is_after, is_empty, with_updates, log_is_empty}
use dendrite.Sync.Token.Order.{is_after-with_updates, with_updates-upper, is_empty-is_after}
use dendrite.Sync.Token.Text.{
  panic, show, decimal, digits, natural, atoi, split, read_stream_token, read_topology_token,
  show_stream_token, show_positions, show_log, show_topology_token,
}
use dendrite.Sync.Token.RoundTrip.{
  read-show_stream_token, read-show_topology_token, read_topology_token-panic, stored,
}
use mathlib.Core.Option.{some}

abbrev early : StreamingToken
early = record {
  pdu_position = pos 12;
  typing_position = pos 0;
  receipt_position = pos 3;
  send_to_device_position = pos 0;
  invite_position = pos 1;
  account_data_position = pos 0;
  device_list_position = record { partition = pos 0; offset = pos 40 };
}

abbrev later : StreamingToken
later = record early { pdu_position = pos 15; receipt_position = pos 2 }

is_after-with_updates_example :
    is_after (with_updates early later) zero_token
    ≡ (is_after early zero_token || is_after later zero_token)
is_after-with_updates_example = is_after-with_updates early later zero_token refl

with_updates-upper_example :
    (is_after early (with_updates early later) ≡ false)
    × (is_after later (with_updates early later) ≡ false)
with_updates-upper_example = with_updates-upper early later

is_empty-is_after_example : is_empty (some early) ≡ not (is_after early zero_token)
is_empty-is_after_example = is_empty-is_after early (omega arith) refl

read-show_stream_token_example : read_stream_token (show_stream_token early) ≡ ok (stored early)
read-show_stream_token_example = read-show_stream_token early (omega arith)

read-show_topology_token_example :
    read_topology_token (show_topology_token (record { depth = pos 7; pdu_position = pos 90 }))
    ≡ ok (record { depth = pos 7; pdu_position = pos 90 })
read-show_topology_token_example =
    read-show_topology_token (record { depth = pos 7; pdu_position = pos 90 }) (omega arith)
      (omega arith)

-- t1_2_3
abbrev three_parts : List ℕ
three_parts = b'1' ∷ b'_' ∷ b'2' ∷ b'_' ∷ b'3' ∷ []

read_topology_token-panic_example : read_topology_token (b't' ∷ three_parts) ≡ err panic
unfolding split atoi natural digits
read_topology_token-panic_example =
    read_topology_token-panic three_parts (b'1' ∷ []) (b'2' ∷ []) (b'3' ∷ []) [] {x = pos 1}
      {y = pos 2} {z = pos 3} refl refl refl refl

-- s12_0_3_0_1_0.dl-0-40
show_early :
    show_stream_token early
    ≡ b's' ∷ b'1' ∷ b'2' ∷ b'_' ∷ b'0' ∷ b'_' ∷ b'3' ∷ b'_' ∷ b'0' ∷ b'_' ∷ b'1' ∷ b'_' ∷ b'0'
      ∷ b'.' ∷ b'd' ∷ b'l' ∷ b'-' ∷ b'0' ∷ b'-' ∷ b'4' ∷ b'0' ∷ []
unfolding show_stream_token show_positions show_log show decimal log_is_empty
show_early = refl
