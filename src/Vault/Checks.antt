-- ===== src/Vault/Checks.antt =====
-- The checks that every vault transition passes first (src/domain/vaultV2.ts, up to
-- `requireVerifiedTime`).
use fiberpassbackend.Prelude.{
  ℕ, ◌+◌, ◌-◌, ◌^◌, ◌%◌, Bool, true, false, not, ◌&&◌, ◌||◌, Option, none, some, List, [], ◌∷◌, ltb,
  leb, ◌==◌, if◌then◌else◌, Outcome, ok, err, ◌>>=◌, ◌>>◌, require, reject_if, Text, text_eq,
  length, all, any,
}
use fiberpassbackend.Money.{
  MoneyError, max_safe_integer, text, parse_atomic_amount, as_atomic_amount,
}
use fiberpassbackend.Vault.Types.{
  Asset, native_ckb, udt, Number, nat, other, Status, active, revoked, Policy, State, Transition,
  Code,
}

abbrev pub is_hex : ℕ → Bool
is_hex c = leb b'0' c && leb c b'9' || leb b'a' c && leb c b'f'

-- /^0x[0-9a-f]{64}$/
abbrev pub is_hash : Text → Bool
is_hash [] = false
is_hash (c ∷ []) = false
is_hash (c ∷ d ∷ s) = c == b'0' && d == b'x' && length s == 64 && all is_hex s

unfoldable pub hash : Text → Outcome Code (Unit {0})
hash value = require (is_hash value) Code.invalid_hash

abbrev pub or_invalid : Outcome MoneyError ℕ → Outcome Code ℕ
or_invalid (ok n) = ok n
or_invalid (err _) = err Code.invalid_amount

unfoldable pub amount : Text → Outcome Code ℕ
amount value = or_invalid (do parse_atomic_amount (text (← as_atomic_amount (text value))))

unfoldable pub integer : Number → Outcome Code ℕ
integer (nat n) = if leb n max_safe_integer then ok n else err Code.invalid_integer
integer other = err Code.invalid_integer

-- Sums and comparisons of numbers, which the code makes on values that `integer` accepted; the
-- clauses for other values are never reached. A sum is exact up to 2 ^ 53, and from there up to
-- 2 ^ 54 it is rounded to a neighbour that is even, on a tie to the multiple of 4.
unfoldable pub js_add : Number → Number → Number
js_add (nat a) (nat b) =
    if leb (a + b) (2 ^ 53) || (a + b) % 2 == 0
    then nat (a + b)
    else if (a + b) % 4 == 1
    then nat (a + b - 1)
    else nat (a + b + 1)
js_add _ _ = other

abbrev pub num_eq : Number → Number → Bool
num_eq (nat a) (nat b) = a == b
num_eq _ _ = false

abbrev pub num_ltb : Number → Number → Bool
num_ltb (nat a) (nat b) = ltb a b
num_ltb _ _ = false

abbrev pub num_leb : Number → Number → Bool
num_leb (nat a) (nat b) = leb a b
num_leb _ _ = false

abbrev pub num_max : Number → Number → Number
num_max (nat a) (nat b) = if leb a b then nat b else nat a
num_max _ _ = other

abbrev pub is_active : Status → Bool
is_active active = true
is_active revoked = false

abbrev pub opt_eq : Option Text → Text → Bool
opt_eq none t = false
opt_eq (some s) t = text_eq s t

abbrev pub check_asset : Asset → Outcome Code (Unit {0})
check_asset native_ckb = ok tt
check_asset (udt type_hash) = hash type_hash

abbrev pub check_expiry : Option Number → Outcome Code (Unit {0})
check_expiry none = ok tt
check_expiry (some e) = do integer e; ok tt

unfoldable pub validate_policy : Policy → Outcome Code (Unit {0})
validate_policy policy = do
  hash policy.policy_hash
  hash policy.pass_id_hash
  hash policy.owner_lock_hash
  hash policy.operator_lock_hash
  hash policy.recipient_lock_hash
  check_asset policy.asset
  total ← amount policy.total_cap_atomic
  per_payment ← amount policy.per_payment_cap_atomic
  reject_if (total == 0 || per_payment == 0 || ltb total per_payment) Code.invalid_cap
  integer policy.cadence_seconds
  limit ← integer policy.occurrence_limit
  reject_if (ltb limit 1) Code.invalid_occurrence_limit
  check_expiry policy.expiry_seconds
  amount policy.fee_ceiling_shannons
  ok tt

unfoldable pub validate_state : Policy → State → Outcome Code (Unit {0})
validate_state policy state = do
  require (text_eq state.policy_hash policy.policy_hash) Code.policy_hash_mismatch
  remaining ← amount state.remaining_atomic
  total ← amount policy.total_cap_atomic
  reject_if (ltb total remaining) Code.total_cap_exceeded
  integer state.occurrence_count
  integer state.next_valid_after_seconds
  integer state.nonce
  ok tt

unfoldable pub require_auth : Transition → Text → Code → Outcome Code (Unit {0})
require_auth transition expected code =
    require (any (λ lock. text_eq lock expected) transition.auth_lock_hashes) code

unfoldable pub check_output_state : Policy → State → Option State → Outcome Code State
check_output_state policy before none = err Code.output_state_required
check_output_state policy before (some output) = do
  validate_state policy output
  require (text_eq output.policy_hash before.policy_hash) Code.policy_mutation
  require (num_eq output.nonce (js_add before.nonce (nat 1))) Code.nonce_invalid
  ok output

unfoldable pub require_output_state : Policy → State → Transition → Outcome Code State
require_output_state policy before transition =
    check_output_state policy before transition.output_state

abbrev pub is_none : Option Text → Bool
is_none none = true
is_none (some _) = false

unfoldable pub check_asset_type : Asset → Transition → Outcome Code (Unit {0})
check_asset_type native_ckb transition =
    require (is_none transition.observed_asset_type_hash) Code.unexpected_type_script
check_asset_type (udt type_hash) transition = do
  require (opt_eq transition.observed_asset_type_hash type_hash) Code.asset_type_mismatch
  delta ← amount transition.state_capacity_delta_shannons
  require (delta == 0) Code.udt_state_capacity_changed

unfoldable pub validate_asset : Policy → Transition → Outcome Code (Unit {0})
validate_asset policy transition = check_asset_type policy.asset transition

-- The amounts that `validateCommon` returns.
pub record Values : Type 0 where
  pub input : ℕ
  pub output : ℕ
  pub recipient : ℕ
  pub owner_net : ℕ
  pub top_up : ℕ
  pub fee : ℕ

abbrev pub is_empty : List Text → Bool
is_empty [] = true
is_empty (_ ∷ _) = false

unfoldable pub validate_common : Policy → State → Transition → Outcome Code Values
validate_common policy before transition = do
  validate_policy policy
  validate_state policy before
  reject_if
      (is_empty transition.input_pass_id_hashes
        || any (λ pass_id. not (text_eq pass_id policy.pass_id_hash))
            transition.input_pass_id_hashes)
      Code.pass_cell_mixing
  validate_asset policy transition
  input ← amount transition.input_vault_asset_atomic
  output ← amount transition.output_vault_asset_atomic
  recipient ← amount transition.recipient_asset_atomic
  owner_net ← amount transition.owner_net_asset_atomic
  top_up ← amount transition.top_up_atomic
  fee ← amount transition.fee_shannons
  remaining ← amount before.remaining_atomic
  require (input == remaining) Code.input_state_asset_mismatch
  ceiling ← amount policy.fee_ceiling_shannons
  reject_if (ltb ceiling fee) Code.fee_ceiling_exceeded
  ok (record {
    input = input;
    output = output;
    recipient = recipient;
    owner_net = owner_net;
    top_up = top_up;
    fee = fee;
  })

-- `policy.expirySeconds != null && now >= policy.expirySeconds`
abbrev pub is_expired : Option Number → Number → Bool
is_expired none now = false
is_expired (some expiry) now = num_leb expiry now

unfoldable pub check_time : Policy → State → Option Number → Outcome Code Number
check_time policy before none = err Code.time_evidence_required
check_time policy before (some now) = do
  integer now
  reject_if (num_ltb now before.next_valid_after_seconds) Code.cadence_not_reached
  reject_if (is_expired policy.expiry_seconds now) Code.vault_expired
  ok now

unfoldable pub require_verified_time : Policy → State → Transition → Outcome Code Number
require_verified_time policy before transition =
    check_time policy before transition.verified_time_seconds
