-- ===== src/Money/Decimal/RoundTrip.antt =====
-- A formatted amount parses back (src/lib/money.ts): `formatAtomicAmount`, then
-- `majorToAtomicAmount` with the same currency.
use fiberpassbackend.Prelude.{
  ℕ, zero, suc, ◌+◌, ◌-◌, ◌*◌, ◌^◌, ◌≤◌, ◌<◌, ◌≡◌, refl, sym, ap, ◌∙◌, Bool, true, false, [], ◌∷◌,
  ◌++◌, arith, ok, Text, length, take, drop, replicate, all, length-append, length-drop,
  length-replicate, take-append-drop, if◌then◌else◌, subst,
}
use fiberpassbackend.Money.{max_atomic_value, print_digits, read_digits, is_digit}
use fiberpassbackend.Money.Digits.{read-print, print-is_digit, read_digits-append}
use fiberpassbackend.Money.Laws.{parse-print}
use fiberpassbackend.Money.Decimal.{
  Currency, decimals_of, get_currency_metadata, pad_start, join_point, trim_zeros, trim, is_digits,
  is_decimal, before_point, after_point, format_atomic_amount, major_to_atomic_amount,
}
use fiberpassbackend.Money.Decimal.Texts.{
  is_part, all-append, all-take, all-drop, all-is_part, all-is_point_free, trim_part,
  before_point_whole, after_point_whole, before_point_free, after_point_free, all-trim_zeros,
  length-trim_zeros, take-trim_zeros, take-append, drop-all, read-zeros, all-zeros, read-shift,
}

-- The parts that the decimal parser takes from such a text.
pub record Splits (raw whole fraction : Text) : Type 0 where
  pub trimmed : trim raw ≡ raw
  pub decimal : is_decimal raw ≡ true
  pub before : before_point raw ≡ whole
  pub after : after_point raw ≡ fraction

digits-all : (s : Text) → is_digits s ≡ true → all is_digit s ≡ true
digits-all [] h = refl
digits-all (c ∷ s) h = h

join_point-Splits :
    (whole fraction : Text)
    → is_digits whole ≡ true
    → all is_digit fraction ≡ true
    → Splits (join_point whole fraction) whole fraction
unfolding is_decimal
join_point-Splits whole [] w f =
    let a = digits-all whole w in
    record {
      trimmed = trim_part whole (all-is_part whole a);
      decimal = rw (before_point_free whole a, w, all-is_point_free whole a);
      before = before_point_free whole a;
      after = after_point_free whole a;
    }
join_point-Splits whole (c ∷ cs) w f =
    let a = digits-all whole w in
    let b = before_point_whole whole (c ∷ cs) a in
    let e = after_point_whole whole (c ∷ cs) a in
    record {
      trimmed =
          trim_part (whole ++ b'.' ∷ c ∷ cs) (
            all-append is_part whole (b'.' ∷ c ∷ cs) (all-is_part whole a)
              (all-is_part (c ∷ cs) f));
      decimal = ground (arith, b, e);
      before = b;
      after = e;
    }

-- The digits of n, padded to more than d digits and split before the last d.
module _ (n d : ℕ) where
  abbrev padded : Text
  padded = pad_start (d + 1) (print_digits n)

  abbrev whole_part : Text
  whole_part = take (length padded - d) padded

  abbrev fraction_part : Text
  fraction_part = drop (length padded - d) padded

  length-padded : d < length padded
  length-padded = omega (
    arith,
    length-append (replicate (d + 1 - length (print_digits n)) b'0') (print_digits n),
    length-replicate {A = ℕ} (d + 1 - length (print_digits n)) b'0',
  )

  length-fraction_part : length fraction_part ≡ d
  length-fraction_part = omega (arith, length-drop (length padded - d) padded, length-padded)

  padded-is_digit : all is_digit padded ≡ true
  padded-is_digit =
      all-append is_digit (replicate (d + 1 - length (print_digits n)) b'0') (print_digits n)
        (all-zeros (d + 1 - length (print_digits n))) (print-is_digit n)

  whole_part-is_digits : is_digits whole_part ≡ true
  whole_part-is_digits =
      go (length padded - d) padded (omega (arith, length-padded)) (omega (arith, length-padded))
        padded-is_digit
    where
      go :
          (k : ℕ) (s : Text)
          → 0 < k
          → 0 < length s
          → all is_digit s ≡ true
          → is_digits (take k s) ≡ true
      go zero s h l a = elim h [ ]
      go (suc k) [] h l a = elim l [ ]
      go (suc k) (c ∷ s) h l a = ground (arith, all-take is_digit k s)

  fraction_part-is_digit : all is_digit fraction_part ≡ true
  fraction_part-is_digit = all-drop is_digit (length padded - d) padded padded-is_digit

  parts_value : read_digits 0 whole_part * 10 ^ d + read_digits 0 fraction_part ≡ n
  parts_value =
      sym (
        ap (λ k. read_digits 0 whole_part * 10 ^ k + read_digits 0 fraction_part)
          length-fraction_part)
      ∙ sym (read-shift (read_digits 0 whole_part) fraction_part)
      ∙ sym (read_digits-append 0 whole_part fraction_part)
      ∙ ap (read_digits 0) (take-append-drop (length padded - d) padded)
      ∙ read-zeros (d + 1 - length (print_digits n)) (print_digits n)
      ∙ read-print n

-- The fraction that is printed, with or without its last zeros, is filled up again.
fraction_filled :
    (trimming : Bool) (fraction : Text) (d : ℕ)
    → length fraction ≡ d
    → take d ((if trimming then trim_zeros fraction else fraction) ++ replicate d b'0') ≡ fraction
fraction_filled true fraction d h =
    subst (λ k. take k (trim_zeros fraction ++ replicate d b'0') ≡ fraction) h
      (take-trim_zeros fraction d (omega arith))
fraction_filled false fraction d h =
    subst (λ k. take k (fraction ++ replicate d b'0') ≡ fraction) h
      (take-append fraction (replicate d b'0'))

fraction_bounded :
    (trimming : Bool) (fraction : Text) (d : ℕ)
    → length fraction ≡ d
    → drop d (if trimming then trim_zeros fraction else fraction) ≡ []
fraction_bounded true fraction d h =
    drop-all d (trim_zeros fraction) (omega (arith, length-trim_zeros fraction))
fraction_bounded false fraction d h = drop-all d fraction (omega arith)

fraction_digits :
    (trimming : Bool) (fraction : Text)
    → all is_digit fraction ≡ true
    → all is_digit (if trimming then trim_zeros fraction else fraction) ≡ true
fraction_digits true fraction h = all-trim_zeros is_digit fraction h
fraction_digits false fraction h = h

decimals_bounds : (asset : Currency) → (0 < decimals_of asset) × (decimals_of asset ≤ 30)
unfolding decimals_of
decimals_bounds Currency.btc = omega arith
decimals_bounds Currency.usdc = omega arith
decimals_bounds Currency.ckb = omega arith

-- The text that is printed for n.
abbrev pub decimal_text : ℕ → ℕ → Bool → Text
decimal_text n d trimming =
    join_point (whole_part n d)
      (if trimming then trim_zeros (fraction_part n d) else fraction_part n d)

pub format_decimal :
    (n d : ℕ) (trimming : Bool)
    → n ≤ max_atomic_value
    → 0 < d
    → d ≤ 30
    → format_atomic_amount (print_digits n) d trimming ≡ ok (decimal_text n d trimming)
unfolding format_atomic_amount
format_decimal n d trimming h k l = rw (parse-print n h) (ground arith)

-- Formatting an amount of at most 256 bits with the decimals of a supported currency succeeds, with
-- the last zeros kept or trimmed, and the string that results, given with a name of that currency,
-- parses to the same amount.
pub major-format :
    (name : Text) (asset : Currency) (n : ℕ) (trimming : Bool)
    → get_currency_metadata name ≡ ok asset
    → n ≤ max_atomic_value
    → (raw : Text) × (format_atomic_amount (print_digits n) (decimals_of asset) trimming ≡ ok raw)
      × (major_to_atomic_amount raw name ≡ ok (print_digits n))
unfolding major_to_atomic_amount
major-format name asset n trimming known h =
    let d = decimals_of asset in
    let (some_decimals, at_most) = decimals_bounds asset in
    let s =
      join_point-Splits (whole_part n d)
        (if trimming then trim_zeros (fraction_part n d) else fraction_part n d)
        (whole_part-is_digits n d)
        (fraction_digits trimming (fraction_part n d) (fraction_part-is_digit n d)) in
    let filled = fraction_filled trimming (fraction_part n d) d (length-fraction_part n d) in
    let bounded = fraction_bounded trimming (fraction_part n d) d (length-fraction_part n d) in
    (
      decimal_text n d trimming,
      format_decimal n d trimming h some_decimals at_most,
      rw known (
          rw (s.trimmed)
            (rw (s.decimal, s.before, s.after, bounded, filled, parts_value n d) (ground arith))),
    )
