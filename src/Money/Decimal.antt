-- ===== src/Money/Decimal.antt =====
-- Currencies and decimal money strings (src/lib/money.ts): `getCurrencyMetadata`,
-- `formatAtomicAmount` and the string case of `majorToAtomicAmount`.
mod Texts
pub mod RoundTrip
use fiberpassbackend.Prelude.{
  ℕ, zero, suc, ◌+◌, ◌-◌, ◌*◌, ◌^◌, Bool, true, false, not, ◌&&◌, ◌||◌, List, [], ◌∷◌, ◌++◌,
  reverse, ltb, leb, ◌==◌, if◌then◌else◌, Outcome, ok, err, ◌>>=◌, ◌>>◌, require, reject_if, Text,
  text_eq, codes, all, any, length, take, drop, replicate, map, ◌≡◌, refl,
}
use fiberpassbackend.Prelude.Int.{pos}
use fiberpassbackend.Money.{
  MoneyError, print_digits, read_digits, is_digit, text, parse_atomic_amount,
  atomic_amount_from_bigint,
}

pub data DecimalError : Type 0 where
  money : MoneyError → DecimalError
  unsupported_currency bad_decimals not_a_decimal too_many_decimals : DecimalError

pub data Currency : Type 0 where
  btc usdc ckb : Currency

unfoldable pub decimals_of : Currency → ℕ
decimals_of Currency.btc = 11
decimals_of Currency.usdc = 6
decimals_of Currency.ckb = 8

-- `toUpperCase` as far as the result can be a name of the table: two letters outside ASCII have an
-- ASCII letter as their upper case.
abbrev upper : ℕ → ℕ
upper c =
    if leb b'a' c && leb c b'z'
    then c - 32
    else if c == 0x131
    then b'I'
    else if c == 0x17f
    then b'S'
    else c

unfoldable pub get_currency_metadata : Text → Outcome DecimalError Currency
unfolding text_eq
get_currency_metadata currency =
    let name = map upper currency in
    if text_eq name (codes "BTC")
    then ok Currency.btc
    else if text_eq name (codes "USDC")
    then ok Currency.usdc
    else if text_eq name (codes "CKB")
    then ok Currency.ckb
    else err DecimalError.unsupported_currency

-- Errors of the atomic functions pass through.
abbrev pub lift : {A : Type 0} → Outcome MoneyError A → Outcome DecimalError A
lift (ok a) = ok a
lift (err e) = err (DecimalError.money e)

-- `digits.padStart(width, '0')`
abbrev pub pad_start : ℕ → Text → Text
pad_start width s = replicate (width - length s) b'0' ++ s

-- `fraction.replace(/0+$/, '')`
unfoldable pub trim_zeros : Text → Text
trim_zeros [] = []
trim_zeros (c ∷ cs) =
    let rest = trim_zeros cs in
    elim rest [ [] ↦ (if c == b'0' then [] else c ∷ []) | d ∷ ds ↦ c ∷ d ∷ ds ]

-- `fraction ? whole + '.' + fraction : whole`
abbrev pub join_point : Text → Text → Text
join_point whole [] = whole
join_point whole (c ∷ cs) = whole ++ b'.' ∷ c ∷ cs

-- `padded.slice(0, -decimals)` and `padded.slice(-decimals)`, for `decimals` positive and at most
-- the length.
unfoldable pub format_atomic_amount : Text → ℕ → Bool → Outcome DecimalError Text
unfolding trim_zeros parse_atomic_amount print_digits
format_atomic_amount value decimals trim_trailing_zeros = do
  reject_if (ltb 30 decimals) DecimalError.bad_decimals
  parsed ← lift (parse_atomic_amount (text value))
  let digits = print_digits parsed
  let padded = pad_start (decimals + 1) digits
  let whole = take (length padded - decimals) padded
  let fraction = drop (length padded - decimals) padded
  ok (
      if decimals == 0
      then digits
      else join_point whole (if trim_trailing_zeros then trim_zeros fraction else fraction))

-- White space that `trim` takes off.
abbrev is_space : ℕ → Bool
is_space c =
    leb 9 c && leb c 13
    || c == 32
    || c == 0xa0
    || c == 0x1680
    || leb 0x2000 c && leb c 0x200a
    || c == 0x2028
    || c == 0x2029
    || c == 0x202f
    || c == 0x205f
    || c == 0x3000
    || c == 0xfeff

drop_spaces : Text → Text
drop_spaces [] = []
drop_spaces (c ∷ cs) = if is_space c then drop_spaces cs else c ∷ cs

unfoldable pub trim : Text → Text
unfolding drop_spaces
trim s = reverse (drop_spaces (reverse (drop_spaces s)))

-- `raw.split('.')`: what stands before the first point, and what stands behind it.
unfoldable pub before_point : Text → Text
before_point [] = []
before_point (c ∷ cs) = if c == b'.' then [] else c ∷ before_point cs

unfoldable pub after_point : Text → Text
after_point [] = []
after_point (c ∷ cs) = if c == b'.' then cs else after_point cs

-- /^\d+$/, and with the optional fraction /^\d+(\.\d+)?$/
abbrev pub is_digits : Text → Bool
is_digits [] = false
is_digits (c ∷ cs) = is_digit c && all is_digit cs

abbrev is_point_free : Text → Bool
is_point_free = all (λ c. not (c == b'.'))

unfoldable pub is_decimal : Text → Bool
unfolding before_point after_point
is_decimal s = is_digits (before_point s) && (is_point_free s || is_digits (after_point s))

unfoldable pub major_to_atomic_amount : Text → Text → Outcome DecimalError Text
unfolding get_currency_metadata decimals_of trim is_decimal read_digits atomic_amount_from_bigint
major_to_atomic_amount value currency = do
  asset ← get_currency_metadata currency
  let decimals = decimals_of asset
  let raw = trim value
  require (is_decimal raw) DecimalError.not_a_decimal
  let whole = before_point raw
  let fraction = after_point raw
  reject_if (any (λ c. leb b'1' c && leb c b'9') (drop decimals fraction))
      DecimalError.too_many_decimals
  let padded = take decimals (fraction ++ replicate decimals b'0')
  lift
      (atomic_amount_from_bigint (pos (read_digits 0 whole * 10 ^ decimals + read_digits 0 padded)))
