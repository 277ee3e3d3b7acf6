-- ===== src/Money.antt =====
-- Atomic amounts (src/lib/money.ts): the checked 256-bit values, their canonical decimal strings,
-- parsing, printing and arithmetic. A bigint is an integer, and a string is the list of its code
-- points. Children prove the round trips.
pub mod Digits
mod Tests
pub mod Laws
pub mod Decimal
use fiberpassbackend.Prelude.{
  ℕ, zero, suc, ◌+◌, ◌-◌, ◌*◌, ◌/◌, ◌%◌, ◌^◌, Bool, true, false, ◌&&◌, List, [], ◌∷◌, ◌++◌, ltb,
  leb, ◌==◌, if◌then◌else◌, Outcome, ok, err, ◌>>=◌, Text, all,
}
use fiberpassbackend.Prelude.Int.{ℤ, pos, negsuc, sub_ℕ}

pub data MoneyError : Type 0 where
  negative_amount amount_too_large not_a_string not_canonical : MoneyError
  not_legacy_safe legacy_not_safe : MoneyError

-- `MAX_ATOMIC_VALUE`
abbrev pub max_atomic_value : ℕ
max_atomic_value = 2 ^ 256 - 1

-- `Number.MAX_SAFE_INTEGER`
abbrev pub max_safe_integer : ℕ
max_safe_integer = 2 ^ 53 - 1

unfoldable pub checked_atomic_value : ℤ → Outcome MoneyError ℕ
checked_atomic_value (negsuc n) = err MoneyError.negative_amount
checked_atomic_value (pos n) =
    if ltb max_atomic_value n then err MoneyError.amount_too_large else ok n

-- `toString(10)` of a non-negative value, on fuel that bounds the number of digits.
digits_from : ℕ → ℕ → Text
digits_from zero n = []
digits_from (suc f) n = elim (ltb n 10) [
  | true ↦ (b'0' + n) ∷ []
  | false ↦ digits_from f (n / 10) ++ (b'0' + n % 10) ∷ []
]

unfoldable pub print_digits : ℕ → Text
unfolding digits_from
print_digits n = digits_from (suc n) n

-- `BigInt(value)` of a string of digits, with the digits read so far.
unfoldable pub read_digits : ℕ → Text → ℕ
read_digits acc [] = acc
read_digits acc (c ∷ cs) = read_digits (acc * 10 + (c - b'0')) cs

abbrev pub is_digit : ℕ → Bool
is_digit c = leb b'0' c && leb c b'9'

-- /^(0|[1-9]\d*)$/
unfoldable pub is_canonical : Text → Bool
is_canonical [] = false
is_canonical (c ∷ []) = is_digit c
is_canonical (c ∷ d ∷ cs) = leb b'1' c && leb c b'9' && all is_digit (d ∷ cs)

unfoldable pub atomic_amount_from_bigint : ℤ → Outcome MoneyError Text
unfolding checked_atomic_value print_digits
atomic_amount_from_bigint value = do ok (print_digits (← checked_atomic_value value))

-- An argument of type `unknown`: a string, or any other value.
pub data Unknown : Type 0 where
  text : Text → Unknown
  other : Unknown

unfoldable pub parse_atomic_amount : Unknown → Outcome MoneyError ℕ
unfolding checked_atomic_value read_digits is_canonical
parse_atomic_amount other = err MoneyError.not_a_string
parse_atomic_amount (text value) =
    if is_canonical value
    then checked_atomic_value (pos (read_digits 0 value))
    else err MoneyError.not_canonical

unfoldable pub as_atomic_amount : Unknown → Outcome MoneyError Text
unfolding parse_atomic_amount atomic_amount_from_bigint
as_atomic_amount value = do atomic_amount_from_bigint (pos (← parse_atomic_amount value))

unfoldable pub atomic_amount_to_legacy_safe_number : Text → Outcome MoneyError ℕ
unfolding parse_atomic_amount
atomic_amount_to_legacy_safe_number value = do
  parsed ← parse_atomic_amount (text value)
  if ltb max_safe_integer parsed then err MoneyError.not_legacy_safe else ok parsed

-- `values.reduce((total, value) => total + parseAtomicAmount(value), 0n)`
unfoldable pub total_atomic : ℕ → List Text → Outcome MoneyError ℕ
unfolding parse_atomic_amount
total_atomic total [] = ok total
total_atomic total (value ∷ values) = do
  parsed ← parse_atomic_amount (text value)
  total_atomic (total + parsed) values

unfoldable pub add_atomic_amounts : List Text → Outcome MoneyError Text
unfolding total_atomic atomic_amount_from_bigint
add_atomic_amounts values = do atomic_amount_from_bigint (pos (← total_atomic 0 values))

unfoldable pub subtract_atomic_amounts : Text → Text → Outcome MoneyError Text
unfolding parse_atomic_amount atomic_amount_from_bigint
subtract_atomic_amounts left right = do
  a ← parse_atomic_amount (text left)
  b ← parse_atomic_amount (text right)
  atomic_amount_from_bigint (sub_ℕ a b)

unfoldable pub cap_atomic_amount : Text → Text → Outcome MoneyError Text
unfolding parse_atomic_amount
cap_atomic_amount value maximum = do
  a ← parse_atomic_amount (text value)
  b ← parse_atomic_amount (text maximum)
  ok (if leb a b then value else maximum)

-- `legacyMinorToAtomicAmount` of a non-negative integer; it refuses every other number too.
unfoldable pub legacy_minor_to_atomic_amount : ℕ → Outcome MoneyError Text
legacy_minor_to_atomic_amount value =
    if ltb max_safe_integer value
    then err MoneyError.legacy_not_safe
    else atomic_amount_from_bigint (pos value)
