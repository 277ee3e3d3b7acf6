-- ===== src/Receipts/Tests.antt =====
-- A fee of 10 over three settlements.
use fiberpassbackend.Prelude.{◌≡◌, refl, List, [], ◌∷◌, map, sum, length, ok, codes, Text}
use fiberpassbackend.Money.{read_digits, print_digits}
use fiberpassbackend.Receipts.{allocate_atomic_fee, fee_shares, shares_of, distribute}
use fiberpassbackend.Receipts.Laws.{allocate_atomic_fee-sum}

abbrev amounts : List Text
amounts = codes "1" ∷ codes "1" ∷ codes "1" ∷ []

abbrev fee_of_ten : List Text
fee_of_ten = codes "4" ∷ codes "3" ∷ codes "3" ∷ []

ten_allocated : allocate_atomic_fee (codes "10") amounts ≡ ok fee_of_ten
unfolding allocate_atomic_fee fee_shares shares_of distribute read_digits print_digits
ten_allocated = refl

allocate_atomic_fee-sum_example :
    (sum (map (read_digits 0) fee_of_ten) ≡ read_digits 0 (codes "10"))
    × (length fee_of_ten ≡ length amounts)
allocate_atomic_fee-sum_example =
    allocate_atomic_fee-sum (codes "10") (codes "1") (codes "1" ∷ codes "1" ∷ []) ten_allocated
