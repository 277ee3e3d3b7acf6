-- ===== src/Money/Tests.antt =====
-- The arithmetic of src/lib/money.ts on small amounts.
use fiberpassbackend.Prelude.{
  ◌-◌, ◌≤◌, ◌≡◌, refl, ◌∷◌, [], ◌↔◌, codes, ltb, sum, map, if◌then◌else◌, Text, true, ok, err,
  arith, text_eq,
}
use fiberpassbackend.Money.{
  MoneyError, max_atomic_value, text, parse_atomic_amount, print_digits, add_atomic_amounts,
  subtract_atomic_amounts,
}
use fiberpassbackend.Money.Laws.{
  parse_atomic_amount_iff, add_atomic_amounts-print, subtract_atomic_amounts-print,
}
use fiberpassbackend.Money.Decimal.{
  Currency, decimals_of, get_currency_metadata, format_atomic_amount, major_to_atomic_amount,
}
use fiberpassbackend.Money.Decimal.RoundTrip.{major-format}

parse_atomic_amount_iff_example :
    (parse_atomic_amount (text (codes "1050")) ≡ ok 1050)
    ↔ ((1050 ≤ max_atomic_value) × (print_digits 1050 ≡ codes "1050"))
parse_atomic_amount_iff_example = parse_atomic_amount_iff (codes "1050") 1050

add_atomic_amounts-print_example : add_atomic_amounts (map print_digits (7 ∷ 95 ∷ 0 ∷ [])) ≡ (
    if ltb max_atomic_value (sum (7 ∷ 95 ∷ 0 ∷ []))
    then err MoneyError.amount_too_large
    else ok (print_digits (sum (7 ∷ 95 ∷ 0 ∷ []))))
add_atomic_amounts-print_example =
    add_atomic_amounts-print (7 ∷ 95 ∷ 0 ∷ []) (omega arith, (omega arith, (omega arith, tt)))

subtract_atomic_amounts-print_example :
    subtract_atomic_amounts (print_digits 12) (print_digits 5)
    ≡ (if ltb 12 5 then err MoneyError.negative_amount else ok (print_digits (12 - 5)))
subtract_atomic_amounts-print_example =
    subtract_atomic_amounts-print 12 5 (omega arith) (omega arith)

ckb_known : get_currency_metadata (codes "ckb") ≡ ok Currency.ckb
unfolding get_currency_metadata text_eq
ckb_known = refl

major-format_example :
    (raw : Text) × (format_atomic_amount (print_digits 150000000) (decimals_of Currency.ckb) true
      ≡ ok raw)
    × (major_to_atomic_amount raw (codes "ckb") ≡ ok (print_digits 150000000))
major-format_example =
    major-format (codes "ckb") Currency.ckb 150000000 true ckb_known (omega arith)
