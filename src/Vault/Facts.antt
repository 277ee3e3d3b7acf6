-- ===== src/Vault/Facts.antt =====
-- What the single checks of src/domain/vaultV2.ts establish when they pass.
use fiberpassbackend.Prelude.{
  ℕ, ◌≤◌, ◌<◌, ◌≡◌, false, Option, none, some, arith, ok, err, Text, text_eq, text_eq→eq, List, [],
  ◌∷◌, any, not, inl, inr, ◌⊎◌,
}
use fiberpassbackend.Money.{max_atomic_value, max_safe_integer, read_digits, print_digits}
use fiberpassbackend.Money.Laws.{parse-print, parse-eq-ok, parse_cases, as_atomic_amount_lem}
use fiberpassbackend.Vault.Types.{Number, nat, other, Policy, State, Transition, Code}
use fiberpassbackend.Vault.Checks.{
  Values, check_expiry, amount, integer, validate_policy, validate_state, validate_common,
}

-- The number that a digit string stands for.
abbrev pub value_of : Text → ℕ
value_of = read_digits 0

-- The integer that a number is, and 0 for other values.
abbrev pub num_value : Number → ℕ
num_value (nat n) = n
num_value other = 0

abbrev pub IsSafe : Number → Type 0
IsSafe x = (x ≡ nat (num_value x)) × (num_value x ≤ max_safe_integer)

abbrev pub IsAmount : Text → Type 0
IsAmount s = (amount s ≡ ok (value_of s)) × (value_of s ≤ max_atomic_value)

pub amount-print : (n : ℕ) → n ≤ max_atomic_value → amount (print_digits n) ≡ ok n
unfolding amount
amount-print n h =
    rw (as_atomic_amount_lem (print_digits n), parse-print n h) (rw (parse-print n h))

-- Either an amount is refused, or its value is that of its digits and has at most 256 bits.
pub amount_cases : (s : Text) → (amount s ≡ err Code.invalid_amount) ⊎ IsAmount s
unfolding amount
amount_cases s = elim (parse_cases s) [
  | inl (e, bound) ↦ inr (rw (as_atomic_amount_lem s, e) (rw e), bound)
  | inr (x, e) ↦ inl (rw (as_atomic_amount_lem s, e))
]

-- An accepted amount is the printed form of its value.
pub amount-print_value : (s : Text) {n : ℕ} → amount s ≡ ok n → print_digits n ≡ s
unfolding amount
amount-print_value s {n} h = elim (parse_cases s) [
  | inl (e, bound) ↦ (parse-eq-ok s (ground (arith, as_atomic_amount_lem s))).1
  | inr (x, e) ↦ cc (as_atomic_amount_lem s)
]

pub integer_cases :
    (x : Number)
    → (integer x ≡ err Code.invalid_integer) ⊎ ((integer x ≡ ok (num_value x)) × IsSafe x)
unfolding integer
integer_cases (nat k) = ground arith
integer_cases other = ground arith

-- A state that `validate_state` accepts.
pub record ValidState (policy : Policy) (state : State) : Type 0 where
  pub committed : state.policy_hash ≡ policy.policy_hash
  pub amount_remaining : amount state.remaining_atomic ≡ ok (value_of state.remaining_atomic)
  pub within_cap : value_of state.remaining_atomic ≤ value_of policy.total_cap_atomic
  pub count_safe : IsSafe state.occurrence_count
  pub next_safe : IsSafe state.next_valid_after_seconds
  pub nonce_safe : IsSafe state.nonce

pub validate_state-eq-ok :
    (p : Policy) (s : State) {u : Unit {0}} → validate_state p s ≡ ok u → ValidState p s
unfolding validate_state
validate_state-eq-ok p s h = ground (
  arith,
  text_eq→eq s.policy_hash p.policy_hash,
  amount_cases s.remaining_atomic,
  amount_cases p.total_cap_atomic,
  integer_cases s.occurrence_count,
  integer_cases s.next_valid_after_seconds,
  integer_cases s.nonce,
)

abbrev pub ExpirySafe : Option Number → Type 0
ExpirySafe none = Unit
ExpirySafe (some e) = IsSafe e

check_expiry-eq-ok : (o : Option Number) → check_expiry o ≡ ok tt → ExpirySafe o
check_expiry-eq-ok none h = tt
check_expiry-eq-ok (some e) h = ground (arith, integer_cases e)

-- A policy that `validate_policy` accepts, as far as its numbers go.
pub record ValidPolicy (policy : Policy) : Type 0 where
  pub total_amount : IsAmount policy.total_cap_atomic
  pub payment_amount : IsAmount policy.per_payment_cap_atomic
  pub ceiling_amount : IsAmount policy.fee_ceiling_shannons
  pub payment_positive : 0 < value_of policy.per_payment_cap_atomic
  pub payment_within_total :
      value_of policy.per_payment_cap_atomic ≤ value_of policy.total_cap_atomic
  pub cadence_safe : IsSafe policy.cadence_seconds
  pub limit_safe : IsSafe policy.occurrence_limit
  pub limit_positive : 0 < num_value policy.occurrence_limit
  pub expiry_safe : ExpirySafe policy.expiry_seconds

pub validate_policy-eq-ok : (p : Policy) {u : Unit {0}} → validate_policy p ≡ ok u → ValidPolicy p
unfolding validate_policy
validate_policy-eq-ok p h = ground (
  arith,
  amount_cases p.total_cap_atomic,
  amount_cases p.per_payment_cap_atomic,
  amount_cases p.fee_ceiling_shannons,
  integer_cases p.cadence_seconds,
  integer_cases p.occurrence_limit,
  check_expiry-eq-ok p.expiry_seconds,
)

-- Every consumed cell belongs to the committed pass, and there is one.
abbrev pub AllEqual : Text → List Text → Type 0
AllEqual t [] = Unit
AllEqual t (s ∷ ss) = (s ≡ t) × AllEqual t ss

all_equal : (t : Text) (ss : List Text) → any (λ s. not (text_eq s t)) ss ≡ false → AllEqual t ss
all_equal t [] h = tt
all_equal t (s ∷ ss) h = ground (arith, all_equal t ss, text_eq→eq s t)

pub record CommonOk (p : Policy) (s : State) (t : Transition) (v : Values) : Type 0 where
  pub policy : ValidPolicy p
  pub state : ValidState p s
  pub passes : AllEqual p.pass_id_hash t.input_pass_id_hashes
  pub input_value : v.input ≡ value_of t.input_vault_asset_atomic
  pub output_value : v.output ≡ value_of t.output_vault_asset_atomic
  pub recipient_value : v.recipient ≡ value_of t.recipient_asset_atomic
  pub owner_net_value : v.owner_net ≡ value_of t.owner_net_asset_atomic
  pub top_up_value : v.top_up ≡ value_of t.top_up_atomic
  pub fee_value : v.fee ≡ value_of t.fee_shannons
  pub input_remaining : v.input ≡ value_of s.remaining_atomic
  pub fee_within : v.fee ≤ value_of p.fee_ceiling_shannons

pub validate_common-eq-ok :
    (p : Policy) (s : State) (t : Transition) {v : Values}
    → validate_common p s t ≡ ok v
    → CommonOk p s t v
unfolding validate_common
validate_common-eq-ok p s t {v} h = ground (
  arith,
  validate_policy-eq-ok p {u = tt},
  validate_state-eq-ok p s {u = tt},
  all_equal p.pass_id_hash t.input_pass_id_hashes,
  amount_cases t.input_vault_asset_atomic,
  amount_cases t.output_vault_asset_atomic,
  amount_cases t.recipient_asset_atomic,
  amount_cases t.owner_net_asset_atomic,
  amount_cases t.top_up_atomic,
  amount_cases t.fee_shannons,
  amount_cases s.remaining_atomic,
  amount_cases p.fee_ceiling_shannons,
)
