-- ===== src/Receipts.antt =====
-- The fee shares of a settlement (`allocateAtomicFee` of src/domain/receipt.ts).
pub mod Laws
mod Tests
use fiberpassbackend.Prelude.{
  ℕ, zero, suc, ◌+◌, ◌-◌, ◌*◌, ◌/◌, ◌%◌, Bool, true, false, not, ◌&&◌, ◌||◌, List, [], ◌∷◌, map,
  sum, length, any, all, ◌==◌, if◌then◌else◌, Outcome, ok, err, ◌>>=◌, ◌>>◌, reject_if, Text,
}
use fiberpassbackend.Money.{is_digit, read_digits, print_digits}

pub data FeeError : Type 0 where
  not_unsigned no_settlement_total : FeeError

-- /^\d+$/
abbrev pub is_unsigned : Text → Bool
is_unsigned [] = false
is_unsigned (c ∷ s) = all is_digit (c ∷ s)

-- `shares[index] += 1n`, which changes nothing out of range.
abbrev pub add_one : ℕ → List ℕ → List ℕ
add_one index [] = []
add_one zero (s ∷ l) = suc s ∷ l
add_one (suc index) (s ∷ l) = s ∷ add_one index l

-- The loop: each round adds 1 at the index, takes 1 from the remainder, and moves the index on.
unfoldable pub distribute : (remainder index : ℕ) → List ℕ → List ℕ
distribute zero index shares = shares
distribute (suc remainder) index shares =
    distribute remainder ((index + 1) % length shares) (add_one index shares)

unfoldable pub shares_of : (total_fee total_amount : ℕ) → List ℕ → List ℕ
shares_of total_fee total_amount [] = []
shares_of total_fee total_amount (amount ∷ l) =
    total_fee * amount / total_amount ∷ shares_of total_fee total_amount l

unfoldable pub fee_shares : ℕ → List ℕ → List ℕ
unfolding shares_of distribute
fee_shares total_fee amounts =
    let shares = shares_of total_fee (sum amounts) amounts in
    distribute (total_fee - sum shares) 0 shares

is_empty : List Text → Bool
is_empty [] = true
is_empty (_ ∷ _) = false

unfoldable pub allocate_atomic_fee : Text → List Text → Outcome FeeError (List Text)
unfolding fee_shares is_empty
allocate_atomic_fee total_fee_atomic amount_atomics = do
  reject_if (not (is_unsigned total_fee_atomic) || any (λ a. not (is_unsigned a)) amount_atomics)
      FeeError.not_unsigned
  let amounts = map (read_digits 0) amount_atomics
  if is_empty amount_atomics then ok [] else (do
    reject_if (sum amounts == 0) FeeError.no_settlement_total
    ok (map print_digits (fee_shares (read_digits 0 total_fee_atomic) amounts)))
