-- ===== src/Money/Laws.antt =====
-- The laws of atomic amounts (src/lib/money.ts): what parsing accepts, and exact arithmetic.
use fiberpassbackend.Prelude.{
  ℕ, ◌+◌, ◌-◌, ◌≤◌, ◌≡◌, List, [], ◌∷◌, arith, ok, err, Text, map, sum, ltb, ◌>>=◌, Bool-cases, inl,
  inr, ◌⊎◌, ◌↔◌, if◌then◌else◌, subst,
}
use fiberpassbackend.Money.{
  MoneyError, max_atomic_value, read_digits, is_canonical, checked_atomic_value, print_digits, text,
  parse_atomic_amount, as_atomic_amount, total_atomic, add_atomic_amounts, subtract_atomic_amounts,
  legacy_minor_to_atomic_amount, max_safe_integer, atomic_amount_from_bigint,
}
use fiberpassbackend.Money.Digits.{read-print, print-read, print-is_canonical}

-- Parsing the printed form of a value of at most 256 bits gives the value back.
pub parse-print :
    (n : ℕ) → n ≤ max_atomic_value → parse_atomic_amount (text (print_digits n)) ≡ ok n
unfolding parse_atomic_amount
parse-print n h = unfold checked_atomic_value in ground (arith, read-print n, print-is_canonical n)

pub parse-eq-ok :
    (s : Text) {n : ℕ}
    → parse_atomic_amount (text s) ≡ ok n
    → (n ≤ max_atomic_value) × (print_digits n ≡ s)
unfolding parse_atomic_amount
parse-eq-ok s h = ground (arith, print-read s)

-- Parsing returns the number that the digits stand for, of at most 256 bits, or throws.
pub parse_cases :
    (s : Text)
    → ((parse_atomic_amount (text s) ≡ ok (read_digits 0 s)) × (read_digits 0 s ≤ max_atomic_value))
      ⊎ ((e : MoneyError) × (parse_atomic_amount (text s) ≡ err e))
unfolding parse_atomic_amount
parse_cases s = elim (Bool-cases (is_canonical s)) [
  | inl c ↦ elim (Bool-cases (ltb max_atomic_value (read_digits 0 s))) [
    | inl large ↦ inr (MoneyError.amount_too_large, rw (c, large))
    | inr fits ↦ inl (rw (c, fits), ground arith)
  ]
  | inr refused ↦ inr (MoneyError.not_canonical, rw refused)
]

-- A string is accepted with the value n exactly when n has at most 256 bits and the string is the
-- printed form of n.
pub parse_atomic_amount_iff :
    (s : Text) (n : ℕ)
    → (parse_atomic_amount (text s) ≡ ok n) ↔ ((n ≤ max_atomic_value) × (print_digits n ≡ s))
parse_atomic_amount_iff s n = (
  λ h. parse-eq-ok s h,
  λ h. subst (λ t. parse_atomic_amount (text t) ≡ ok n) h.1 (parse-print n h.0),
)

-- Normalising an amount changes no string that it accepts, and accepts what parsing accepts.
pub as_atomic_amount_lem :
    (s : Text) → as_atomic_amount (text s) ≡ (parse_atomic_amount (text s) >>= λ n. ok s)
unfolding as_atomic_amount
as_atomic_amount_lem s = ground (arith, print-read s)

-- Every value in the list has at most 256 bits.
abbrev pub AllBounded : List ℕ → Type 0
AllBounded [] = Unit
AllBounded (n ∷ ns) = (n ≤ max_atomic_value) × AllBounded ns

total_atomic-print :
    (acc : ℕ) (ns : List ℕ)
    → AllBounded ns
    → total_atomic acc (map print_digits ns) ≡ ok (acc + sum ns)
unfolding total_atomic
total_atomic-print acc [] h = ground arith
total_atomic-print acc (n ∷ ns) h =
    rw (parse-print n h.0) (rw (total_atomic-print (acc + n) ns h.1) (ground arith))

-- The sum of printed amounts is the printed exact sum, or the overflow error when that sum does not
-- fit in 256 bits.
pub add_atomic_amounts-print :
    (ns : List ℕ)
    → AllBounded ns
    → add_atomic_amounts (map print_digits ns) ≡ (
        if ltb max_atomic_value (sum ns)
        then err MoneyError.amount_too_large
        else ok (print_digits (sum ns)))
unfolding add_atomic_amounts
add_atomic_amounts-print ns h = rw (total_atomic-print 0 ns h) (ground arith)

-- The difference of printed amounts is exact, or the error for a negative amount.
pub subtract_atomic_amounts-print :
    (a b : ℕ)
    → a ≤ max_atomic_value
    → b ≤ max_atomic_value
    → subtract_atomic_amounts (print_digits a) (print_digits b)
      ≡ (if ltb a b then err MoneyError.negative_amount else ok (print_digits (a - b)))
unfolding subtract_atomic_amounts
subtract_atomic_amounts-print a b h k = rw (parse-print a h, parse-print b k) (ground arith)

-- A legacy minor amount prints its value exactly when it is a safe integer.
pub legacy_minor_to_atomic_amount_lem :
    (n : ℕ)
    → legacy_minor_to_atomic_amount n
      ≡ (if ltb max_safe_integer n then err MoneyError.legacy_not_safe else ok (print_digits n))
unfolding legacy_minor_to_atomic_amount atomic_amount_from_bigint
legacy_minor_to_atomic_amount_lem n = ground arith
