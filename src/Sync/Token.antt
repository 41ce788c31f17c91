-- ===== src/Sync/Token.antt =====
-- The positions of the sync API (syncapi/types/types.go): log positions, ranges, streaming tokens
-- and topology tokens, with the tests and updates that the API makes on them. A stream position is
-- an int64 and is an integer here; `IsEmpty` adds positions and so wraps at 64 bits.
pub mod Order
pub mod Text
pub mod RoundTrip
mod Tests
use dendrite.Base.{
  ℕ, ◌+◌, ◌%◌, ◌^◌, Bool, true, false, ◌&&◌, Option, none, some, nat_eq, if◌then◌else◌,
}
use dendrite.Base.Int.{ℤ, pos, ◌+ℤ◌, pos_part, neg_part, ltb_ℤ, eqb_ℤ}

pub record LogPosition : Type 0 where
  pub partition : ℤ
  pub offset : ℤ

unfoldable pub log_is_empty : LogPosition → Bool
log_is_empty p = eqb_ℤ p.offset (pos 0)

-- `IsAfter` of a log position; its argument is a pointer.
unfoldable pub log_is_after : LogPosition → Option LogPosition → Bool
log_is_after p none = false
log_is_after p (some lp) =
    if eqb_ℤ p.partition lp.partition then ltb_ℤ lp.offset p.offset else false

pub record Range : Type 0 where
  pub from : ℤ
  pub to : ℤ
  pub backwards : Bool

unfoldable pub low : Range → ℤ
low r = if r.backwards then r.to else r.from

unfoldable pub high : Range → ℤ
high r = if r.backwards then r.from else r.to

pub record StreamingToken : Type 0 where
  pub pdu_position : ℤ
  pub typing_position : ℤ
  pub receipt_position : ℤ
  pub send_to_device_position : ℤ
  pub invite_position : ℤ
  pub account_data_position : ℤ
  pub device_list_position : LogPosition

unfoldable pub is_after : StreamingToken → StreamingToken → Bool
unfolding log_is_after
is_after t other =
    if ltb_ℤ other.pdu_position t.pdu_position
    then true
    else if ltb_ℤ other.typing_position t.typing_position
    then true
    else if ltb_ℤ other.receipt_position t.receipt_position
    then true
    else if ltb_ℤ other.send_to_device_position t.send_to_device_position
    then true
    else if ltb_ℤ other.invite_position t.invite_position
    then true
    else if ltb_ℤ other.account_data_position t.account_data_position
    then true
    else if log_is_after t.device_list_position (some other.device_list_position)
    then true
    else false

-- Whether an int64 that holds this integer modulo 2^64 is zero.
unfoldable pub is_zero64 : ℤ → Bool
is_zero64 z = nat_eq ((pos_part z + neg_part z) % 2 ^ 64) 0

unfoldable pub is_empty : Option StreamingToken → Bool
unfolding is_zero64 log_is_empty ◌+ℤ◌
is_empty none = true
is_empty (some t) =
    is_zero64 (
      t.pdu_position +ℤ t.typing_position +ℤ t.receipt_position +ℤ t.send_to_device_position
      +ℤ t.invite_position +ℤ t.account_data_position)
    && log_is_empty t.device_list_position

-- A position is overwritten by one that is greater.
unfoldable pub newer : ℤ → ℤ → ℤ
newer mine theirs = if ltb_ℤ mine theirs then theirs else mine

unfoldable pub apply_updates : StreamingToken → StreamingToken → StreamingToken
apply_updates t other = record {
  pdu_position = newer t.pdu_position other.pdu_position;
  typing_position = newer t.typing_position other.typing_position;
  receipt_position = newer t.receipt_position other.receipt_position;
  send_to_device_position = newer t.send_to_device_position other.send_to_device_position;
  invite_position = newer t.invite_position other.invite_position;
  account_data_position = newer t.account_data_position other.account_data_position;
  device_list_position =
      if log_is_after other.device_list_position (some t.device_list_position)
      then other.device_list_position
      else t.device_list_position;
}

-- The copy that `WithUpdates` returns.
unfoldable pub with_updates : StreamingToken → StreamingToken → StreamingToken
with_updates t other = apply_updates t other

pub record TopologyToken : Type 0 where
  pub depth : ℤ
  pub pdu_position : ℤ

unfoldable pub stream_token : TopologyToken → StreamingToken
stream_token t = record {
  pdu_position = t.pdu_position;
  typing_position = pos 0;
  receipt_position = pos 0;
  send_to_device_position = pos 0;
  invite_position = pos 0;
  account_data_position = pos 0;
  device_list_position = record { partition = pos 0; offset = pos 0 };
}

-- `Decrement`. The sums stay within int64 for a token that is not 1000 short of its end.
unfoldable pub decrement : TopologyToken → TopologyToken
unfolding ◌+ℤ◌
decrement t =
    let lower = ltb_ℤ (pos 1) t.depth in
    let depth = if lower then t.depth +ℤ ℤ.negsuc 0 else pos 1 in
    record {
      depth = if ltb_ℤ depth (pos 1) then pos 1 else depth;
      pdu_position = if lower then t.pdu_position +ℤ pos 1000 else t.pdu_position;
    }

abbrev pub zero_token : StreamingToken
zero_token = record {
  pdu_position = pos 0;
  typing_position = pos 0;
  receipt_position = pos 0;
  send_to_device_position = pos 0;
  invite_position = pos 0;
  account_data_position = pos 0;
  device_list_position = record { partition = pos 0; offset = pos 0 };
}
