-- ===== src/Metered/Amounts.antt =====
-- The limits of a grant, the rate window (src/domain/meteredPayment.ts), and the amounts that the metered
-- operations check and write (src/services/meteredPayment.service.ts).
use fiberpassbackend.Prelude.{
  ℕ, ◌+◌, ◌*◌, ◌/◌, Bool, true, ◌&&◌, ◌||◌, Option, none, some, ◌==◌, leb, ltb, if◌then◌else◌,
  Outcome, ok, err, ◌>>=◌, ◌>>◌, reject_if,
}
use fiberpassbackend.Prelude.Int.{ℤ, pos, negsuc, sub_ℕ}
use fiberpassbackend.Money.{
  MoneyError, Unknown, parse_atomic_amount, max_safe_integer, checked_atomic_value,
}
use fiberpassbackend.Metered.Records.{MeteredGrantRecord, SessionRecord, MeteredError}

pub data LimitError : Type 0 where
  not_positive event_above_total event_above_batch threshold_above_batch : LimitError

unfoldable pub assert_metered_grant_limits :
    (max_per_event total_limit immediate_threshold max_batch : ℕ) → Outcome LimitError (Unit {0})
assert_metered_grant_limits per_event total threshold max_batch = do
  reject_if (per_event == 0 || total == 0 || threshold == 0 || max_batch == 0)
      LimitError.not_positive
  reject_if (ltb total per_event) LimitError.event_above_total
  reject_if (ltb max_batch per_event) LimitError.event_above_batch
  reject_if (ltb max_batch threshold) LimitError.threshold_above_batch
  ok tt

pub record RateWindow : Type 0 where
  pub start : ℕ
  pub end : ℕ

-- The schema keeps the number of seconds positive.
unfoldable pub next_rate_window : (now window_seconds : ℕ) → RateWindow
next_rate_window now window_seconds =
    let window_ms = window_seconds * 1000 in
    let start_ms = now / window_ms * window_ms in
    record { start = start_ms; end = start_ms + window_ms }

abbrev pub amount_invalid : Outcome MoneyError ℕ → Outcome MeteredError ℕ
amount_invalid (ok n) = ok n
amount_invalid (err e) = err MeteredError.atomic_amount_invalid

-- The canonical string that the source returns is kept as its number.
unfoldable pub exact_metered_amount : Unknown → (positive : Bool) → Outcome MeteredError ℕ
unfolding parse_atomic_amount
exact_metered_amount value positive = do
  n ← amount_invalid (parse_atomic_amount value)
  reject_if (positive && n == 0) MeteredError.atomic_amount_invalid
  ok n

unfoldable pub safe_metered_atomic_number : ℕ → Outcome MeteredError ℕ
safe_metered_atomic_number value =
    if ltb max_safe_integer value then err MeteredError.legacy_ledger_limit else ok value

abbrev convert : Outcome MoneyError ℕ → Outcome MeteredError ℕ
convert (ok n) = ok n
convert (err e) = err (MeteredError.money e)

-- `atomicAmountFromBigInt` of a sum, which refuses a value of more than 256 bits.
unfoldable pub atomic : ℕ → Outcome MeteredError ℕ
unfolding checked_atomic_value
atomic n = convert (checked_atomic_value (pos n))

-- `sessionAtomic`: the atomic amount, or else the minor one where that is a safe integer.
unfoldable pub session_atomic : (atomic minor : Option ℕ) → ℕ
session_atomic (some atomic) minor = atomic
session_atomic none (some minor) = if leb minor max_safe_integer then minor else 0
session_atomic none none = 0

abbrev pub session_limit : SessionRecord → ℕ
unfolding session_atomic
session_limit s = session_atomic s.limit_atomic s.limit_minor

abbrev pub session_spent : SessionRecord → ℕ
unfolding session_atomic
session_spent s = session_atomic s.spent_atomic s.spent_minor

abbrev pub session_reserved : SessionRecord → ℕ
unfolding session_atomic
session_reserved s = session_atomic s.reserved_atomic s.reserved_minor

-- `setSessionAtomic`, which writes both amounts.
unfoldable pub set_session_reserved : ℕ → SessionRecord → Outcome MeteredError SessionRecord
unfolding safe_metered_atomic_number
set_session_reserved value s = do
  minor ← safe_metered_atomic_number value
  ok (record s { reserved_atomic = some value; reserved_minor = some minor })

unfoldable pub set_session_spent : ℕ → SessionRecord → Outcome MeteredError SessionRecord
unfolding safe_metered_atomic_number
set_session_spent value s = do
  minor ← safe_metered_atomic_number value
  ok (record s { spent_atomic = some value; spent_minor = some minor })

abbrev pub metered_grant_remaining : MeteredGrantRecord → ℤ
metered_grant_remaining grant =
    sub_ℕ grant.total_limit_atomic (grant.spent_atomic + grant.reserved_atomic)

-- `amount > remaining`
abbrev pub exceeds : ℕ → ℤ → Bool
exceeds amount (pos remaining) = ltb remaining amount
exceeds amount (negsuc n) = true
