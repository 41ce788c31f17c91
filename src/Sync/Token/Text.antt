-- ===== src/Sync/Token/Text.antt =====
-- How tokens are written and read (`String`, `NewStreamTokenFromString` and
-- `NewTopologyTokenFromString` of syncapi/types/types.go), over the bytes of the text. `split` and
-- `atoi` are what the code uses of Go's strings.Split and strconv.Atoi.
use dendrite.Base.{
  ℕ, zero, suc, ◌+◌, ◌-◌, ◌*◌, ◌/◌, ◌%◌, ◌^◌, Bool, true, false, ◌&&◌, List, [], ◌∷◌, ◌++◌, Option,
  none, some, ltb, leb, nat_eq, if◌then◌else◌, Result, ok, err, ◌>>=◌,
}
use dendrite.Base.Int.{ℤ, pos, negsuc, sub_ℕ}
use dendrite.Sync.Token.{LogPosition, StreamingToken, TopologyToken, log_is_empty}

-- `panic` is the run-time panic of an index out of range; the others are returned errors.
pub data TokenError : Type 0 where
  empty_token wrong_prefix bad_number bad_log_position unknown_log panic : TokenError

-- A number in decimal, with fuel: more than the number itself is enough.
unfoldable pub decimal : ℕ → ℕ → List ℕ
decimal zero n = []
decimal (suc f) n =
    let more = decimal f (n / 10) ++ (b'0' + n % 10) ∷ [] in
    if ltb n 10 then (b'0' + n) ∷ [] else more

-- fmt's %d
unfoldable pub show : ℤ → List ℕ
unfolding decimal
show (pos n) = decimal (suc n) n
show (negsuc n) = b'-' ∷ decimal (suc (suc n)) (suc n)

abbrev pub is_digit : ℕ → Bool
is_digit c = leb b'0' c && leb c b'9'

unfoldable pub digits : ℕ → List ℕ → Option ℕ
digits acc [] = some acc
digits acc (c ∷ cs) = if is_digit c then digits (acc * 10 + (c - b'0')) cs else none

-- The value, if there is a digit and no other character.
unfoldable pub natural : List ℕ → Option ℕ
unfolding digits
natural [] = none
natural (c ∷ cs) = digits 0 (c ∷ cs)

abbrev pub in_int64 : Bool → Option ℕ → Result TokenError ℤ
in_int64 minus none = err bad_number
in_int64 false (some n) = if ltb n (2 ^ 63) then ok (pos n) else err bad_number
in_int64 true (some n) = if leb n (2 ^ 63) then ok (sub_ℕ 0 n) else err bad_number

-- strconv.Atoi
unfoldable pub atoi : List ℕ → Result TokenError ℤ
unfolding natural
atoi [] = err bad_number
atoi (c ∷ cs) =
    if nat_eq c b'-'
    then in_int64 true (natural cs)
    else if nat_eq c b'+'
    then in_int64 false (natural cs)
    else in_int64 false (natural (c ∷ cs))

abbrev pub onto_head : ℕ → List (List ℕ) → List (List ℕ)
onto_head c [] = (c ∷ []) ∷ []
onto_head c (p ∷ ps) = (c ∷ p) ∷ ps

-- strings.Split by a separator of one byte
unfoldable pub split : ℕ → List ℕ → List (List ℕ)
split sep [] = [] ∷ []
split sep (c ∷ cs) = if nat_eq c sep then [] ∷ split sep cs else onto_head c (split sep cs)

abbrev pub set_position : List ℤ → ℕ → ℤ → List ℤ
set_position [] i v = []
set_position (x ∷ xs) zero v = v ∷ xs
set_position (x ∷ xs) (suc i) v = x ∷ set_position xs i v

-- The loop over the parts from index i on: `positions` has n places, and `i > len(positions)` ends
-- the loop, so that index n itself is read and then written out of range.
unfoldable pub read_positions : ℕ → ℕ → List (List ℕ) → List ℤ → Result TokenError (List ℤ)
read_positions i n [] positions = ok positions
read_positions i n (p ∷ parts) positions =
    if ltb n i
    then ok positions
    else atoi p >>= λ v.
        if ltb i n then read_positions (suc i) n parts (set_position positions i v) else err panic

-- The conversion to int32, which wraps.
unfoldable pub to_int32 : ℤ → ℤ
to_int32 (pos n) = let m = n % 2 ^ 32 in if ltb m (2 ^ 31) then pos m else sub_ℕ m (2 ^ 32)
to_int32 (negsuc n) =
    let m = 2 ^ 32 - 1 - n % 2 ^ 32 in if ltb m (2 ^ 31) then pos m else sub_ℕ m (2 ^ 32)

abbrev pub is_dl : List ℕ → Bool
is_dl (c ∷ d ∷ []) = nat_eq c b'd' && nat_eq d b'l'
is_dl _ = false

-- One log position of the token's text; a later one overwrites an earlier one.
unfoldable pub read_log : List ℕ → StreamingToken → Result TokenError StreamingToken
read_log text token = elim (split b'-' text) [
  | name ∷ partition ∷ offset ∷ [] ↦
      if is_dl name
      then (atoi partition >>= λ p. atoi offset >>= λ o.
          ok
            (record token { device_list_position = record { partition = to_int32 p; offset = o } }))
      else err unknown_log
  | _ ↦ err bad_log_position
]

unfoldable pub read_logs : List (List ℕ) → StreamingToken → Result TokenError StreamingToken
read_logs [] token = ok token
read_logs (text ∷ more) token = read_log text token >>= λ t. read_logs more t

abbrev pub position_at : List ℤ → ℕ → ℤ
position_at [] i = pos 0
position_at (x ∷ xs) zero = x
position_at (x ∷ xs) (suc i) = position_at xs i

abbrev pub token_of : List ℤ → StreamingToken
token_of ps = record {
  pdu_position = position_at ps 0;
  typing_position = position_at ps 1;
  receipt_position = position_at ps 2;
  send_to_device_position = position_at ps 3;
  invite_position = position_at ps 4;
  account_data_position = position_at ps 5;
  device_list_position = record { partition = pos 0; offset = pos 0 };
}

abbrev pub zeros : ℕ → List ℤ
zeros zero = []
zeros (suc n) = pos 0 ∷ zeros n

abbrev pub read_categories : List (List ℕ) → Result TokenError StreamingToken
read_categories [] = err empty_token
read_categories (first ∷ logs) =
    read_positions 0 6 (split b'_' first) (zeros 6) >>= λ ps. read_logs logs (token_of ps)

-- `NewStreamTokenFromString`
unfoldable pub read_stream_token : List ℕ → Result TokenError StreamingToken
read_stream_token [] = err empty_token
read_stream_token (c ∷ rest) =
    if nat_eq c b's' then read_categories (split b'.' rest) else err wrong_prefix

-- `NewTopologyTokenFromString`
unfoldable pub read_topology_token : List ℕ → Result TokenError TopologyToken
read_topology_token [] = err empty_token
read_topology_token (c ∷ rest) =
    if nat_eq c b't'
    then (read_positions 0 2 (split b'_' rest) (zeros 2) >>= λ ps.
        ok (record { depth = position_at ps 0; pdu_position = position_at ps 1 }))
    else err wrong_prefix

unfoldable pub show_log : LogPosition → List ℕ
show_log dl =
    if log_is_empty dl
    then []
    else b'.' ∷ (b'd' ∷ (b'l' ∷ (b'-' ∷ (show dl.partition ++ (b'-' ∷ show dl.offset)))))

unfoldable pub show_positions : StreamingToken → List ℕ
show_positions t =
    show t.pdu_position
    ++ (b'_'
        ∷ (show t.typing_position
            ++ (b'_'
                ∷ (show t.receipt_position
                    ++ (b'_'
                        ∷ (show t.send_to_device_position
                            ++ (b'_'
                                ∷ (show t.invite_position
                                    ++ (b'_' ∷ show t.account_data_position)))))))))

-- `String` of a streaming token: the device list position is left out if its offset is zero.
unfoldable pub show_stream_token : StreamingToken → List ℕ
show_stream_token t = b's' ∷ (show_positions t ++ show_log t.device_list_position)

-- `String` of a topology token
unfoldable pub show_topology_token : TopologyToken → List ℕ
show_topology_token t = b't' ∷ (show t.depth ++ (b'_' ∷ show t.pdu_position))
