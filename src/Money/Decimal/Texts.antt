-- ===== src/Money/Decimal/Texts.antt =====
-- Lemmas on the texts of decimal strings (src/lib/money.ts): padding, trimming and splitting.
use fiberpassbackend.Prelude.{
  ℕ, zero, suc, ◌+◌, ◌-◌, ◌*◌, ◌^◌, ◌≤◌, ◌≡◌, refl, ap, Bool, true, ◌||◌, [], ◌∷◌, ◌++◌, arith,
  reverse, ◌==◌, Text, length, take, drop, replicate, all,
}
use mathlib.Core.List.{reverse-append, reverse-reverse}
use native.Mathlib.Nat.{pow-suc}
use fiberpassbackend.Money.{read_digits, is_digit}
use fiberpassbackend.Money.Decimal.{
  trim_zeros, drop_spaces, trim, before_point, after_point, is_point_free,
}

-- A digit or a point.
abbrev pub is_part : ℕ → Bool
is_part c = is_digit c || c == b'.'

pub all-append :
    (p : ℕ → Bool) (s t : Text) → all p s ≡ true → all p t ≡ true → all p (s ++ t) ≡ true
all-append p [] t h k = k
all-append p (c ∷ s) t h k = ground (arith, all-append p s t)

all-reverse : (p : ℕ → Bool) (s : Text) → all p s ≡ true → all p (reverse s) ≡ true
all-reverse p [] h = refl
all-reverse p (c ∷ s) h =
    rw (reverse-append (c ∷ []) s)
      (all-append p (reverse s) (c ∷ []) (all-reverse p s (ground arith)) (ground arith))

pub all-take : (p : ℕ → Bool) (n : ℕ) (s : Text) → all p s ≡ true → all p (take n s) ≡ true
all-take p zero s h = refl
all-take p (suc n) [] h = refl
all-take p (suc n) (c ∷ s) h = ground (arith, all-take p n s)

pub all-drop : (p : ℕ → Bool) (n : ℕ) (s : Text) → all p s ≡ true → all p (drop n s) ≡ true
all-drop p zero s h = h
all-drop p (suc n) [] h = refl
all-drop p (suc n) (c ∷ s) h = ground (arith, all-drop p n s)

pub all-is_part : (s : Text) → all is_digit s ≡ true → all is_part s ≡ true
all-is_part [] h = refl
all-is_part (c ∷ s) h = ground (arith, all-is_part s)

pub all-is_point_free : (s : Text) → all is_digit s ≡ true → is_point_free s ≡ true
all-is_point_free [] h = refl
all-is_point_free (c ∷ s) h = ground (arith, all-is_point_free s)

drop_spaces_part : (s : Text) → all is_part s ≡ true → drop_spaces s ≡ s
unfolding drop_spaces
drop_spaces_part [] h = refl
drop_spaces_part (c ∷ s) h = ground arith

pub trim_part : (s : Text) → all is_part s ≡ true → trim s ≡ s
unfolding trim
trim_part s h =
    rw (drop_spaces_part s h)
      (rw (drop_spaces_part (reverse s) (all-reverse is_part s h)) (reverse-reverse s))

pub before_point_whole : (s t : Text) → all is_digit s ≡ true → before_point (s ++ b'.' ∷ t) ≡ s
unfolding before_point
before_point_whole [] t h = refl
before_point_whole (c ∷ s) t h = ground (arith, before_point_whole s t)

pub after_point_whole : (s t : Text) → all is_digit s ≡ true → after_point (s ++ b'.' ∷ t) ≡ t
unfolding after_point
after_point_whole [] t h = refl
after_point_whole (c ∷ s) t h = ground (arith, after_point_whole s t)

pub before_point_free : (s : Text) → all is_digit s ≡ true → before_point s ≡ s
unfolding before_point
before_point_free [] h = refl
before_point_free (c ∷ s) h = ground (arith, before_point_free s)

pub after_point_free : (s : Text) → all is_digit s ≡ true → after_point s ≡ []
unfolding after_point
after_point_free [] h = refl
after_point_free (c ∷ s) h = ground (arith, after_point_free s)

pub all-trim_zeros : (p : ℕ → Bool) (s : Text) → all p s ≡ true → all p (trim_zeros s) ≡ true
unfolding trim_zeros
all-trim_zeros p [] h = refl
all-trim_zeros p (c ∷ s) h = ground (arith, all-trim_zeros p s)

pub length-trim_zeros : (s : Text) → length (trim_zeros s) ≤ length s
unfolding trim_zeros
length-trim_zeros [] = omega arith
length-trim_zeros (c ∷ s) = ground (arith, length-trim_zeros s)

-- Zeros behind a fraction that lost its last zeros bring it back.
pub take-trim_zeros :
    (s : Text) (k : ℕ) → length s ≤ k → take (length s) (trim_zeros s ++ replicate k b'0') ≡ s
unfolding trim_zeros
take-trim_zeros [] k h = refl
take-trim_zeros (c ∷ s) zero h = elim h [ ]
take-trim_zeros (c ∷ s) (suc k) h = ground (arith, take-trim_zeros s k, take-trim_zeros s (suc k))

pub take-append : (s t : Text) → take (length s) (s ++ t) ≡ s
take-append [] t = refl
take-append (c ∷ s) t = ap (λ r. c ∷ r) (take-append s t)

pub drop-all : (n : ℕ) (s : Text) → length s ≤ n → drop n s ≡ []
drop-all zero [] h = refl
drop-all zero (c ∷ s) h = elim h [ ]
drop-all (suc n) [] h = refl
drop-all (suc n) (c ∷ s) h = drop-all n s (omega arith)

pub read-zeros : (k : ℕ) (s : Text) → read_digits 0 (replicate k b'0' ++ s) ≡ read_digits 0 s
unfolding read_digits
read-zeros zero s = refl
read-zeros (suc k) s = read-zeros k s

pub all-zeros : (k : ℕ) → all is_digit (replicate k b'0') ≡ true
all-zeros zero = refl
all-zeros (suc k) = all-zeros k

-- Digits read behind a number shift it by their count.
pub read-shift : (acc : ℕ) (s : Text) → read_digits acc s ≡ acc * 10 ^ length s + read_digits 0 s
unfolding read_digits
read-shift acc [] = omega arith
read-shift acc (c ∷ s) =
    rw (read-shift (acc * 10 + (c - b'0')) s, read-shift (0 * 10 + (c - b'0')) s, pow-suc)
      (omega arith)
