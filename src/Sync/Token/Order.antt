-- ===== src/Sync/Token/Order.antt =====
-- How streaming tokens compare before and after `WithUpdates`, and the zero token
-- (syncapi/types/types.go).
use dendrite.Base.{
  ℕ, ◌+◌, ◌^◌, ◌≤◌, ◌≡◌, refl, sym, ap, ◌∙◌, Bool, not, true, false, ◌&&◌, ◌||◌, some, arith,
  if◌then◌else◌, nat_eq,
}
use dendrite.Base.Int.{ℤ, pos, pos_part, ltb_ℤ, eqb_ℤ, ◌≤ℤ◌, ◌+ℤ◌}
use mathlib.Core.Path.{ap₂}
use dendrite.Sync.Token.{
  LogPosition, StreamingToken, log_is_after, log_is_empty, is_after, zero_token, is_zero64,
  is_empty, newer, apply_updates, with_updates,
}

or_interchange : (a b c d : Bool) → ((a || b) || (c || d)) ≡ ((a || c) || (b || d))
or_interchange a b c d = ground arith

newer-after : (t o u : ℤ) → ltb_ℤ u (newer t o) ≡ (ltb_ℤ u t || ltb_ℤ u o)
unfolding newer
newer-after t o u = ground arith

log_newer-after :
    (t o u : LogPosition)
    → t.partition ≡ o.partition
    → log_is_after (if log_is_after o (some t) then o else t) (some u)
      ≡ (log_is_after t (some u) || log_is_after o (some u))
unfolding log_is_after
log_newer-after t o u h = ground arith

or_chain : (a b c d e f g : Bool) → Bool
or_chain a b c d e f g = a || (b || (c || (d || (e || (f || g)))))

or_chain-or_chain :
    {a b c d e f g : Bool} (x y z u v w r x' y' z' u' v' w' r' : Bool)
    → a ≡ (x || x')
    → b ≡ (y || y')
    → c ≡ (z || z')
    → d ≡ (u || u')
    → e ≡ (v || v')
    → f ≡ (w || w')
    → g ≡ (r || r')
    → or_chain a b c d e f g ≡ (or_chain x y z u v w r || or_chain x' y' z' u' v' w' r')
unfolding or_chain
or_chain-or_chain _ _ _ _ _ _ _ _ _ _ _ _ _ _ ha hb hc hd he hf hg =
    simp (ha, hb, hc, hd, he, hf, hg, or_interchange)

if_chain :
    (a b c d e f g : Bool)
    → (if a
        then true
        else if b
        then true
        else if c
        then true
        else if d
        then true
        else if e
        then true
        else if f
        then true
        else if g
        then true
        else false)
      ≡ or_chain a b c d e f g
unfolding or_chain
if_chain true b c d e f g = refl
if_chain false true c d e f g = refl
if_chain false false true d e f g = refl
if_chain false false false true e f g = refl
if_chain false false false false true f g = refl
if_chain false false false false false true g = refl
if_chain false false false false false false true = refl
if_chain false false false false false false false = refl

is_after-or_chain :
    (t u : StreamingToken)
    → is_after t u
      ≡ or_chain
          (ltb_ℤ u.pdu_position t.pdu_position)
          (ltb_ℤ u.typing_position t.typing_position)
          (ltb_ℤ u.receipt_position t.receipt_position)
          (ltb_ℤ u.send_to_device_position t.send_to_device_position)
          (ltb_ℤ u.invite_position t.invite_position)
          (ltb_ℤ u.account_data_position t.account_data_position)
          (log_is_after t.device_list_position (some u.device_list_position))
unfolding is_after
is_after-or_chain t u = if_chain _ _ _ _ _ _ _

-- After an update the token is after a third token exactly when the old token or the update was,
-- provided that the two are about the same partition of the device list log.
pub is_after-with_updates :
    (t other u : StreamingToken)
    → t.device_list_position.partition ≡ other.device_list_position.partition
    → is_after (with_updates t other) u ≡ (is_after t u || is_after other u)
unfolding with_updates apply_updates
is_after-with_updates t other u h =
    is_after-or_chain (apply_updates t other) u
    ∙ or_chain-or_chain _ _ _ _ _ _ _ _ _ _ _ _ _ _
        (newer-after t.pdu_position other.pdu_position u.pdu_position)
        (newer-after t.typing_position other.typing_position u.typing_position)
        (newer-after t.receipt_position other.receipt_position u.receipt_position)
        (newer-after t.send_to_device_position other.send_to_device_position
          u.send_to_device_position)
        (newer-after t.invite_position other.invite_position u.invite_position)
        (newer-after t.account_data_position other.account_data_position u.account_data_position)
        (log_newer-after t.device_list_position other.device_list_position u.device_list_position h)
    ∙ sym (ap₂ ◌||◌ (is_after-or_chain t u) (is_after-or_chain other u))

newer-upper : (t o : ℤ) → (ltb_ℤ (newer t o) t ≡ false) × (ltb_ℤ (newer t o) o ≡ false)
unfolding newer
newer-upper t o = ground arith

log_newer-upper :
    (t o : LogPosition)
    → (log_is_after t (some (if log_is_after o (some t) then o else t)) ≡ false)
      × (log_is_after o (some (if log_is_after o (some t) then o else t)) ≡ false)
unfolding log_is_after
log_newer-upper t o = ground arith

or_chain-false :
    {a b c d e f g : Bool}
    → a ≡ false
    → b ≡ false
    → c ≡ false
    → d ≡ false
    → e ≡ false
    → f ≡ false
    → g ≡ false
    → or_chain a b c d e f g ≡ false
unfolding or_chain
or_chain-false ha hb hc hd he hf hg = simp (ha, hb, hc, hd, he, hf, hg)

-- Neither token is ever after the result of the update, whatever the partitions.
pub with_updates-upper :
    (t other : StreamingToken)
    → (is_after t (with_updates t other) ≡ false) × (is_after other (with_updates t other) ≡ false)
unfolding with_updates apply_updates
with_updates-upper t other = (
  is_after-or_chain t (apply_updates t other)
      ∙ or_chain-false (newer-upper t.pdu_position other.pdu_position).0
          (newer-upper t.typing_position other.typing_position).0
          (newer-upper t.receipt_position other.receipt_position).0
          (newer-upper t.send_to_device_position other.send_to_device_position).0
          (newer-upper t.invite_position other.invite_position).0
          (newer-upper t.account_data_position other.account_data_position).0
          (log_newer-upper t.device_list_position other.device_list_position).0,
  is_after-or_chain other (apply_updates t other)
      ∙ or_chain-false (newer-upper t.pdu_position other.pdu_position).1
          (newer-upper t.typing_position other.typing_position).1
          (newer-upper t.receipt_position other.receipt_position).1
          (newer-upper t.send_to_device_position other.send_to_device_position).1
          (newer-upper t.invite_position other.invite_position).1
          (newer-upper t.account_data_position other.account_data_position).1
          (log_newer-upper t.device_list_position other.device_list_position).1,
)

-- A position whose absolute value is below 2^60: six such add up without wrapping.
abbrev pub IsSmall : ℤ → Type 0
IsSmall z = (pos 0 ≤ℤ z) × (z ≤ℤ pos (2 ^ 60))

pub record IsIssued (t : StreamingToken) : Type 0 where
  pub pdu : IsSmall t.pdu_position
  pub typing : IsSmall t.typing_position
  pub receipt : IsSmall t.receipt_position
  pub send_to_device : IsSmall t.send_to_device_position
  pub invite : IsSmall t.invite_position
  pub account_data : IsSmall t.account_data_position
  pub device_list : pos 0 ≤ℤ t.device_list_position.offset

sum_is_zero :
    (a b c d e f : ℕ)
    → a ≤ 2 ^ 60
    → b ≤ 2 ^ 60
    → c ≤ 2 ^ 60
    → d ≤ 2 ^ 60
    → e ≤ 2 ^ 60
    → f ≤ 2 ^ 60
    → is_zero64 (pos a +ℤ pos b +ℤ pos c +ℤ pos d +ℤ pos e +ℤ pos f)
      ≡ nat_eq (a + b + c + d + e + f) 0
unfolding is_zero64 ◌+ℤ◌
sum_is_zero a b c d e f ha hb hc hd he hf = ground arith

zero-or_chain :
    (a b c d e f o : ℕ)
    → (nat_eq (a + b + c + d + e + f) 0 && eqb_ℤ (pos o) (pos 0))
      ≡ not (
          or_chain
            (ltb_ℤ (pos 0) (pos a))
            (ltb_ℤ (pos 0) (pos b))
            (ltb_ℤ (pos 0) (pos c))
            (ltb_ℤ (pos 0) (pos d))
            (ltb_ℤ (pos 0) (pos e))
            (ltb_ℤ (pos 0) (pos f))
            (ltb_ℤ (pos 0) (pos o)))
unfolding or_chain
zero-or_chain a b c d e f o = ground arith

small_pos : (z : ℤ) → pos 0 ≤ℤ z → z ≡ pos (pos_part z)
small_pos z h = ground arith

small_bound : (z : ℤ) → IsSmall z → pos_part z ≤ 2 ^ 60
small_bound z h = ground arith

no_position :
    (a b c d e f o : ℤ)
    → IsSmall a
    → IsSmall b
    → IsSmall c
    → IsSmall d
    → IsSmall e
    → IsSmall f
    → pos 0 ≤ℤ o
    → (is_zero64 (a +ℤ b +ℤ c +ℤ d +ℤ e +ℤ f) && eqb_ℤ o (pos 0))
      ≡ not (
          or_chain
            (ltb_ℤ (pos 0) a)
            (ltb_ℤ (pos 0) b)
            (ltb_ℤ (pos 0) c)
            (ltb_ℤ (pos 0) d)
            (ltb_ℤ (pos 0) e)
            (ltb_ℤ (pos 0) f)
            (ltb_ℤ (pos 0) o))
no_position a b c d e f o ha hb hc hd he hf ho =
    rw
      (
        small_pos a ha.0,
        small_pos b hb.0,
        small_pos c hc.0,
        small_pos d hd.0,
        small_pos e he.0,
        small_pos f hf.0,
        small_pos o ho,
      )
      (ap (λ z. z && eqb_ℤ (pos (pos_part o)) (pos 0))
          (sum_is_zero (pos_part a) (pos_part b) (pos_part c) (pos_part d) (pos_part e) (pos_part f)
            (small_bound a ha) (small_bound b hb) (small_bound c hc) (small_bound d hd)
            (small_bound e he) (small_bound f hf))
        ∙ zero-or_chain (pos_part a) (pos_part b) (pos_part c) (pos_part d) (pos_part e)
            (pos_part f) (pos_part o))

-- Of a token whose positions are not negative and below 2^60, `IsEmpty` is true exactly when the
-- token is not after the zero token in any position, provided that its partition is 0.
pub is_empty-is_after :
    (t : StreamingToken)
    → IsIssued t
    → t.device_list_position.partition ≡ pos 0
    → is_empty (some t) ≡ not (is_after t zero_token)
unfolding is_empty log_is_after log_is_empty
is_empty-is_after t h p =
    rw (is_after-or_chain t zero_token, p)
      (no_position _ _ _ _ _ _ t.device_list_position.offset h.pdu h.typing h.receipt
        h.send_to_device h.invite h.account_data h.device_list)
