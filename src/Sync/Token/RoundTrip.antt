-- ===== src/Sync/Token/RoundTrip.antt =====
-- Reading back what `String` writes, and texts with too many positions
-- (syncapi/types/types.go).
mod Numbers
mod Parts
use dendrite.Base.{
  ℕ, zero, suc, ◌+◌, ◌-◌, ◌*◌, ◌/◌, ◌%◌, ◌^◌, ◌≤◌, ◌<◌, ◌≡◌, ◌≢◌, ◌⊎◌, inl, inr, refl, ◌∙◌, Bool,
  true, false, List, [], ◌∷◌, ◌++◌, Option, none, some, if◌then◌else◌, length, Result, ok, err,
  ◌>>=◌, arith, All, Bool-cases, ap,
}
use dendrite.Base.Int.{ℤ, pos, negsuc, ◌≤ℤ◌, eqb_ℤ}
use mathlib.Core.List.{append-nil}
use Numbers.{InRange, IsPlain, show-IsDigit, All-mono, All-append, atoi-show, show-IsPlain}
use Parts.{split-append, split_last}
use dendrite.Sync.Token.{LogPosition, StreamingToken, TopologyToken, log_is_empty}
use dendrite.Sync.Token.Text.{
  TokenError, panic, show, atoi, split, read_positions, to_int32, read_log, read_logs, zeros,
  position_at, token_of, read_categories, read_stream_token, read_topology_token, show_stream_token,
  show_positions, show_topology_token, show_log,
}

-- Every integer of the token is an int64, and the partition is an int32 that is not negative.
pub record IsStorable (t : StreamingToken) : Type 0 where
  pub pdu : InRange t.pdu_position
  pub typing : InRange t.typing_position
  pub receipt : InRange t.receipt_position
  pub send_to_device : InRange t.send_to_device_position
  pub invite : InRange t.invite_position
  pub account_data : InRange t.account_data_position
  pub partition :
      (pos 0 ≤ℤ t.device_list_position.partition)
      × (t.device_list_position.partition ≤ℤ pos (2 ^ 31 - 1))
  pub offset :
      (pos 0 ≤ℤ t.device_list_position.offset) × (t.device_list_position.offset ≤ℤ pos (2 ^ 63 - 1))

plain_no : (sep : ℕ) → sep ≢ 45 → (sep < 48) ⊎ (57 < sep) → (z : ℤ) → All (λ c. c ≢ sep) (show z)
plain_no sep m d z = All-mono (λ c p. ground arith) (show z) (show-IsPlain z)

no_underscore : (z : ℤ) → All (λ c. c ≢ 95) (show z)
no_underscore = plain_no 95 (omega arith) (omega arith)

split_positions :
    (t : StreamingToken)
    → split b'_' (show_positions t)
      ≡ show t.pdu_position
        ∷ show t.typing_position
        ∷ show t.receipt_position
        ∷ show t.send_to_device_position
        ∷ show t.invite_position
        ∷ show t.account_data_position
        ∷ []
unfolding show_positions
split_positions t = simp (split-append, split_last, no_underscore)

no_dot : (z : ℤ) → All (λ c. c ≢ 46) (show z)
no_dot = plain_no 46 (omega arith) (omega arith)

no_dot_join :
    (z : ℤ) (rest : List ℕ) → All (λ c. c ≢ 46) rest → All (λ c. c ≢ 46) (show z ++ (b'_' ∷ rest))
no_dot_join z rest h = All-append (λ c. c ≢ 46) (show z) (b'_' ∷ rest) (no_dot z) (omega arith, h)

positions_no_dot : (t : StreamingToken) → All (λ c. c ≢ 46) (show_positions t)
unfolding show_positions
positions_no_dot t = search (no_dot_join, no_dot) depth 8

positions_of : StreamingToken → List ℤ
positions_of t =
    t.pdu_position ∷ t.typing_position ∷ t.receipt_position ∷ t.send_to_device_position
    ∷ t.invite_position ∷ t.account_data_position ∷ []

read_positions-show :
    (t : StreamingToken)
    → IsStorable t
    → read_positions 0 6 (split b'_' (show_positions t)) (zeros 6) ≡ ok (positions_of t)
unfolding positions_of
read_positions-show t h = rw split_positions (
    unfold read_positions in
    simp (
      atoi-show t.pdu_position h.pdu,
      atoi-show t.typing_position h.typing,
      atoi-show t.receipt_position h.receipt,
      atoi-show t.send_to_device_position h.send_to_device,
      atoi-show t.invite_position h.invite,
      atoi-show t.account_data_position h.account_data,
    ))

to_int32_id : (z : ℤ) → pos 0 ≤ℤ z → z ≤ℤ pos (2 ^ 31 - 1) → to_int32 z ≡ z
unfolding to_int32
to_int32_id (pos n) h k = ground arith
to_int32_id (negsuc n) h k = absurd (omega arith)

no_minus : (z : ℤ) → pos 0 ≤ℤ z → All (λ c. c ≢ 45) (show z)
no_minus z h = All-mono (λ c p. omega arith) (show z) (show-IsDigit z h)

split_log :
    (dl : LogPosition)
    → pos 0 ≤ℤ dl.partition
    → pos 0 ≤ℤ dl.offset
    → split b'-' (b'd' ∷ (b'l' ∷ (b'-' ∷ (show dl.partition ++ (b'-' ∷ show dl.offset)))))
      ≡ (b'd' ∷ (b'l' ∷ [])) ∷ show dl.partition ∷ show dl.offset ∷ []
split_log dl hp ho =
    split-append b'-' (b'd' ∷ (b'l' ∷ [])) _ (omega arith, (omega arith, tt))
    ∙ rw (
      split-append b'-' (show dl.partition) (show dl.offset) (no_minus dl.partition hp),
      split_last b'-' (show dl.offset) (no_minus dl.offset ho),
    )

int64_nonneg : (z : ℤ) → pos 0 ≤ℤ z → z ≤ℤ pos (2 ^ 63 - 1) → InRange z
int64_nonneg z h k = ground arith

int32_nonneg : (z : ℤ) → pos 0 ≤ℤ z → z ≤ℤ pos (2 ^ 31 - 1) → InRange z
int32_nonneg z h k = ground arith

read_log-show :
    (dl : LogPosition) (t : StreamingToken)
    → (pos 0 ≤ℤ dl.partition) × (dl.partition ≤ℤ pos (2 ^ 31 - 1))
    → (pos 0 ≤ℤ dl.offset) × (dl.offset ≤ℤ pos (2 ^ 63 - 1))
    → read_log (b'd' ∷ (b'l' ∷ (b'-' ∷ (show dl.partition ++ (b'-' ∷ show dl.offset))))) t
      ≡ ok (record t { device_list_position = dl })
unfolding read_log
read_log-show dl t hp ho =
    rw (split_log dl hp.0 ho.0, read_log)
      (rw (
        atoi-show dl.partition (int32_nonneg dl.partition hp.0 hp.1),
        atoi-show dl.offset (int64_nonneg dl.offset ho.0 ho.1),
        to_int32_id dl.partition hp.0 hp.1,
      ))

-- What is kept of a token: the partition of a log position at offset zero is not written.
pub stored : StreamingToken → StreamingToken
stored t = record t {
  device_list_position =
      if log_is_empty t.device_list_position
      then record { partition = pos 0; offset = pos 0 }
      else t.device_list_position;
}

abbrev log_text : LogPosition → List ℕ
log_text dl = b'd' ∷ (b'l' ∷ (b'-' ∷ (show dl.partition ++ (b'-' ∷ show dl.offset))))

show_log-empty : (dl : LogPosition) → log_is_empty dl ≡ true → show_log dl ≡ []
unfolding show_log
show_log-empty dl e = rw e

show_log-text : (dl : LogPosition) → log_is_empty dl ≡ false → show_log dl ≡ b'.' ∷ log_text dl
unfolding show_log
show_log-text dl e = rw e

log_no_dot : (dl : LogPosition) → All (λ c. c ≢ 46) (log_text dl)
log_no_dot dl = (
  omega arith,
  (
    omega arith,
    (
      omega arith,
      All-append (λ c. c ≢ 46) (show dl.partition) (b'-' ∷ show dl.offset) (no_dot dl.partition)
          (omega arith, no_dot dl.offset),
    ),
  ),
)

categories-empty :
    (t : StreamingToken)
    → log_is_empty t.device_list_position ≡ true
    → split b'.' (show_positions t ++ show_log t.device_list_position) ≡ show_positions t ∷ []
categories-empty t e =
    rw (show_log-empty t.device_list_position e, append-nil)
      (split_last b'.' (show_positions t) (positions_no_dot t))

categories-log :
    (t : StreamingToken)
    → log_is_empty t.device_list_position ≡ false
    → split b'.' (show_positions t ++ show_log t.device_list_position)
      ≡ show_positions t ∷ log_text t.device_list_position ∷ []
categories-log t e = rw (show_log-text t.device_list_position e) (
    split-append b'.' (show_positions t) (log_text t.device_list_position) (positions_no_dot t)
    ∙ ap (◌∷◌ (show_positions t))
        (split_last b'.' (log_text t.device_list_position) (log_no_dot t.device_list_position)))

-- `NewStreamTokenFromString` reads back what `String` writes, but for the partition of a log
-- position at offset zero, if every position is an int64 and the log position is not negative.
pub read-show_stream_token :
    (t : StreamingToken) → IsStorable t → read_stream_token (show_stream_token t) ≡ ok (stored t)
unfolding show_stream_token read_stream_token
read-show_stream_token t h = elim (Bool-cases (log_is_empty t.device_list_position)) [
  | inl e ↦
      rw (categories-empty t e, read_positions-show t h)
        (unfold read_logs positions_of stored in rw e)
  | inr e ↦
      rw (categories-log t e, read_positions-show t h)
        (unfold read_logs positions_of stored in
          rw (read_log-show t.device_list_position _ h.partition h.offset, e))
]

-- `NewTopologyTokenFromString` reads back what `String` writes, if both positions are int64.
pub read-show_topology_token :
    (t : TopologyToken)
    → InRange t.depth
    → InRange t.pdu_position
    → read_topology_token (show_topology_token t) ≡ ok t
unfolding show_topology_token read_topology_token
read-show_topology_token t hd hp =
    rw
      (
        split-append b'_' (show t.depth) (show t.pdu_position) (no_underscore t.depth),
        split_last b'_' (show t.pdu_position) (no_underscore t.pdu_position),
      )
      (unfold read_positions in rw (atoi-show t.depth hd, atoi-show t.pdu_position hp))

-- A topology token whose text has three or more parts, the first three of them numbers, does not
-- give an error: it panics, whatever follows.
pub read_topology_token-panic :
    (text a b c : List ℕ) (more : List (List ℕ)) {x y z : ℤ}
    → split b'_' text ≡ a ∷ b ∷ c ∷ more
    → atoi a ≡ ok x
    → atoi b ≡ ok y
    → atoi c ≡ ok z
    → read_topology_token (b't' ∷ text) ≡ err panic
unfolding read_topology_token
read_topology_token-panic text a b c more hs ha hb hc =
    rw hs (unfold read_positions in simp (ha, hb, hc))
