-- ===== src/Money/Digits.antt =====
-- The decimal digits of src/lib/money.ts: printing and reading are inverse to each other.
use fiberpassbackend.Prelude.{
  ℕ, zero, suc, ◌+◌, ◌-◌, ◌*◌, ◌/◌, ◌%◌, ◌<◌, ◌≡◌, refl, sym, Bool, true, false, ◌&&◌, [], ◌∷◌,
  ◌++◌, arith, leb, Text, all, append_assoc, append-nil,
}
use fiberpassbackend.Money.{digits_from, print_digits, read_digits, is_digit, is_canonical}

pub read_digits-append :
    (acc : ℕ) (xs ys : Text) → read_digits acc (xs ++ ys) ≡ read_digits (read_digits acc xs) ys
unfolding read_digits
read_digits-append acc [] ys = refl
read_digits-append acc (c ∷ xs) ys = read_digits-append (acc * 10 + (c - b'0')) xs ys

-- More fuel than the value needs changes nothing.
digits_from_fuel : (f g n : ℕ) → n < f → n < g → digits_from f n ≡ digits_from g n
unfolding digits_from
digits_from_fuel zero g n h k = elim h [ ]
digits_from_fuel (suc f) zero n h k = elim k [ ]
digits_from_fuel (suc f) (suc g) n h k = ground (arith, digits_from_fuel f g (n / 10))

print_digits_small : (n : ℕ) → n < 10 → print_digits n ≡ (b'0' + n) ∷ []
unfolding print_digits
print_digits_small n h = ground arith

print_digits_step :
    (m d : ℕ) → 0 < m → d < 10 → print_digits (m * 10 + d) ≡ print_digits m ++ (b'0' + d) ∷ []
unfolding print_digits
print_digits_step m d pos small = ground (
  arith,
  digits_from_fuel (m * 10 + d) (suc m) m,
  (let q : (m * 10 + d) / 10 ≡ m = omega arith in q),
  (let r : (m * 10 + d) % 10 ≡ d = omega arith in r),
)

read-digits_from : (f n : ℕ) → n < f → read_digits 0 (digits_from f n) ≡ n
unfolding digits_from read_digits
read-digits_from zero n h = elim h [ ]
read-digits_from (suc f) n h = ground (
  arith,
  read_digits-append 0 (digits_from f (n / 10)) ((b'0' + n % 10) ∷ []),
  read-digits_from f (n / 10),
)

-- Reading what was printed gives the number back.
pub read-print : (n : ℕ) → read_digits 0 (print_digits n) ≡ n
unfolding print_digits
read-print n = read-digits_from (suc n) n (omega arith)

-- Printing a number read behind a positive one appends the digits.
print-read_from :
    (acc : ℕ) (cs : Text)
    → 0 < acc
    → all is_digit cs ≡ true
    → print_digits (read_digits acc cs) ≡ print_digits acc ++ cs
unfolding read_digits
print-read_from acc [] h k = sym (append-nil (print_digits acc))
print-read_from acc (c ∷ cs) h k = ground (
  arith,
  print-read_from (acc * 10 + (c - b'0')) cs,
  print_digits_step acc (c - b'0'),
  append_assoc (print_digits acc) (c ∷ []) cs,
)

-- Printing what was read from a canonical string gives the string back.
pub print-read : (s : Text) → is_canonical s ≡ true → print_digits (read_digits 0 s) ≡ s
unfolding is_canonical read_digits
print-read [] h = cc
print-read (c ∷ []) h = ground (arith, print_digits_small (c - b'0'))
print-read (c ∷ d ∷ cs) h =
    ground (arith, print_digits_small (c - b'0'), print-read_from (c - b'0') (d ∷ cs))

-- A positive number's digits: the first is not zero.
abbrev is_leading : Text → Bool
is_leading [] = false
is_leading (c ∷ cs) = leb b'1' c && leb c b'9' && all is_digit cs

all-append_digit :
    (xs : Text) (d : ℕ)
    → all is_digit xs ≡ true
    → is_digit d ≡ true
    → all is_digit (xs ++ d ∷ []) ≡ true
all-append_digit [] d h k = ground arith
all-append_digit (x ∷ xs) d h k = ground (arith, all-append_digit xs d)

is_leading-append :
    (xs : Text) (d : ℕ)
    → is_leading xs ≡ true
    → is_digit d ≡ true
    → is_leading (xs ++ d ∷ []) ≡ true
is_leading-append [] d h k = cc
is_leading-append (x ∷ xs) d h k = ground (arith, all-append_digit xs d)

is_leading-digits_from : (f n : ℕ) → n < f → 0 < n → is_leading (digits_from f n) ≡ true
unfolding digits_from
is_leading-digits_from zero n h k = elim h [ ]
is_leading-digits_from (suc f) n h k = ground (
  arith,
  is_leading-digits_from f (n / 10),
  is_leading-append (digits_from f (n / 10)) (b'0' + n % 10),
)

is_leading-is_canonical : (s : Text) → is_leading s ≡ true → is_canonical s ≡ true
unfolding is_canonical
is_leading-is_canonical [] h = cc
is_leading-is_canonical (c ∷ []) h = ground arith
is_leading-is_canonical (c ∷ d ∷ cs) h = h

-- What is printed is a canonical string.
pub print-is_canonical : (n : ℕ) → is_canonical (print_digits n) ≡ true
unfolding print_digits
print-is_canonical zero = unfold digits_from is_canonical in refl
print-is_canonical (suc n) =
    is_leading-is_canonical _
      (is_leading-digits_from (suc (suc n)) (suc n) (omega arith) (omega arith))

-- Every printed code point is a digit.
pub print-is_digit : (n : ℕ) → all is_digit (print_digits n) ≡ true
unfolding is_canonical
print-is_digit n = go (print_digits n) (print-is_canonical n)
  where
    go : (s : Text) → is_canonical s ≡ true → all is_digit s ≡ true
    go [] h = refl
    go (c ∷ []) h = ground arith
    go (c ∷ d ∷ s) h = ground arith
