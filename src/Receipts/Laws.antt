-- ===== src/Receipts/Laws.antt =====
-- The shares of `allocateAtomicFee` (src/domain/receipt.ts) add up to the fee.
use fiberpassbackend.Prelude.{
  ℕ, zero, suc, ◌+◌, ◌-◌, ◌*◌, ◌/◌, ◌%◌, ◌≤◌, ◌<◌, ◌≡◌, refl, sym, ap, ◌∙◌, subst, not, ◌||◌, List,
  [], ◌∷◌, map, sum, length, any, ◌==◌, arith, ok, reject_if-bind, Text,
}
use native.Mathlib.Nat.{mod-lt, add-mul, mul-add, div-mul-le_self, le_of_mul-le-mul_right}
use fiberpassbackend.Money.{read_digits, print_digits}
use fiberpassbackend.Money.Digits.{read-print}
use fiberpassbackend.Receipts.{
  FeeError, is_unsigned, add_one, distribute, shares_of, fee_shares, allocate_atomic_fee,
}

length-add_one : (i : ℕ) (l : List ℕ) → length (add_one i l) ≡ length l
length-add_one i [] = refl
length-add_one zero (s ∷ l) = refl
length-add_one (suc i) (s ∷ l) = omega (arith, length-add_one i l)

sum-add_one : (i : ℕ) (l : List ℕ) → i < length l → sum (add_one i l) ≡ suc (sum l)
sum-add_one i [] h = omega arith
sum-add_one zero (s ∷ l) h = omega arith
sum-add_one (suc i) (s ∷ l) h = omega (arith, sum-add_one i l (omega arith))

length-distribute : (r i : ℕ) (l : List ℕ) → length (distribute r i l) ≡ length l
unfolding distribute
length-distribute zero i l = refl
length-distribute (suc r) i l =
    length-distribute r ((i + 1) % length l) (add_one i l) ∙ length-add_one i l

sum-distribute : (r i : ℕ) (l : List ℕ) → i < length l → sum (distribute r i l) ≡ sum l + r
unfolding distribute
sum-distribute zero i l h = omega arith
sum-distribute (suc r) i l h =
    let n = length-add_one i l in
    let next : (i + 1) % length l < length (add_one i l) =
      subst (λ k. (i + 1) % length l < k) (sym n) (mod-lt (i + 1) (omega arith)) in
    omega (arith, sum-distribute r ((i + 1) % length l) (add_one i l) next, sum-add_one i l h)

length-shares_of : (f t : ℕ) (l : List ℕ) → length (shares_of f t l) ≡ length l
unfolding shares_of
length-shares_of f t [] = refl
length-shares_of f t (a ∷ l) = ap suc (length-shares_of f t l)

-- Rounding down never gives out more than the fee.
shares_of-le : (f t : ℕ) (l : List ℕ) → sum (shares_of f t l) * t ≤ f * sum l
unfolding shares_of
shares_of-le f t [] = omega arith
shares_of-le f t (a ∷ l) = omega (
  arith,
  shares_of-le f t l,
  add-mul (f * a / t) (sum (shares_of f t l)) t,
  mul-add f a (sum l),
  div-mul-le_self (f * a) t,
)

pub fee_shares-sum : (f : ℕ) (l : List ℕ) → 0 < sum l → 0 < length l → sum (fee_shares f l) ≡ f
unfolding fee_shares
fee_shares-sum f l positive some_amount =
    let at_most = le_of_mul-le-mul_right (shares_of-le f (sum l) l) positive in
    let n = length-shares_of f (sum l) l in
    omega (
      arith,
      at_most,
      sum-distribute (f - sum (shares_of f (sum l) l)) 0 (shares_of f (sum l) l) (omega (arith, n)),
    )

length-fee_shares : (f : ℕ) (l : List ℕ) → length (fee_shares f l) ≡ length l
unfolding fee_shares
length-fee_shares f l =
    length-distribute (f - sum (shares_of f (sum l) l)) 0 (shares_of f (sum l) l)
    ∙ length-shares_of f (sum l) l

read-print_all : (l : List ℕ) → map (read_digits 0) (map print_digits l) ≡ l
read-print_all [] = refl
read-print_all (n ∷ l) = rw (read-print n, read-print_all l)

length-map : {A B : Type 0} (f : A → B) (l : List A) → length (map f l) ≡ length l
length-map f [] = refl
length-map f (a ∷ l) = ap suc (length-map f l)

-- When a fee is allocated to at least one amount, there is one share for each amount, and the shares
-- add up to exactly the fee.
pub allocate_atomic_fee-sum :
    (fee amount : Text) (amounts : List Text) {shares : List Text}
    → allocate_atomic_fee fee (amount ∷ amounts) ≡ ok shares
    → (sum (map (read_digits 0) shares) ≡ read_digits 0 fee)
      × (length shares ≡ length (amount ∷ amounts))
unfolding allocate_atomic_fee
allocate_atomic_fee-sum fee amount amounts {shares} h =
    let f = read_digits 0 fee in
    let l = map (read_digits 0) (amount ∷ amounts) in
    let (_, h1) =
      reject_if-bind (not (is_unsigned fee) || any (λ a. not (is_unsigned a)) (amount ∷ amounts))
        FeeError.not_unsigned _ h in
    let (positive, h2) = reject_if-bind (sum l == 0) FeeError.no_settlement_total _ h1 in
    let is : map print_digits (fee_shares f l) ≡ shares = cc h2 in
    (
      ap (λ x. sum (map (read_digits 0) x)) (sym is)
          ∙ ap sum (read-print_all (fee_shares f l))
          ∙ fee_shares-sum f l (ground arith) (omega arith),
      ap length (sym is)
          ∙ length-map print_digits (fee_shares f l)
          ∙ length-fee_shares f l
          ∙ length-map (read_digits 0) (amount ∷ amounts),
    )
