-- ===== src/Vault/Actions.antt =====
-- The five actions of a vault and their dispatch (src/domain/vaultV2.ts, from
-- `validateOperatorPayout`).
use fiberpassbackend.Prelude.{
  ℕ, ◌+◌, ◌-◌, Bool, true, false, not, ◌&&◌, ◌||◌, Option, none, some, [], ◌∷◌, ltb, leb, ◌==◌,
  Outcome, ok, err, ◌>>=◌, ◌>>◌, require, reject_if, Text, text_eq,
}
use fiberpassbackend.Vault.Types.{
  Action, Asset, native_ckb, udt, Number, nat, Policy, State, Transition, Code,
}
use fiberpassbackend.Vault.Checks.{
  Values, hash, amount, js_add, num_eq, num_leb, num_max, is_active, opt_eq, require_auth,
  require_output_state, validate_common, require_verified_time,
}

-- `policy.asset.kind === 'native_ckb' ? values.fee : 0n`
abbrev pub native_fee : Asset → ℕ → ℕ
native_fee native_ckb fee = fee
native_fee (udt _) fee = 0

-- The amounts of a payout, from the payment cap to the conservation of assets; what the vault keeps.
unfoldable pub check_payment : Policy → State → Transition → Values → Outcome Code ℕ
check_payment policy before transition values = do
  reject_if (values.recipient == 0) Code.payment_cap_exceeded
  cap ← amount policy.per_payment_cap_atomic
  reject_if (ltb cap values.recipient) Code.payment_cap_exceeded
  reject_if (ltb values.input values.recipient) Code.insufficient_remaining
  require (opt_eq transition.recipient_lock_hash policy.recipient_lock_hash) Code.recipient_mismatch
  require (values.owner_net == 0) Code.owner_output_forbidden
  require (values.top_up == 0) Code.top_up_forbidden
  reject_if (num_leb policy.occurrence_limit before.occurrence_count) Code.occurrence_limit_reached
  let fee = native_fee policy.asset values.fee
  let expected = values.input - values.recipient - fee
  reject_if (ltb (values.input - values.recipient) fee || not (values.output == expected))
      Code.asset_conservation_failed
  ok expected

-- The output state of a payout at the verified time `now` that leaves `expected`.
unfoldable pub check_payout_output : Policy → State → Number → ℕ → State → Outcome Code State
check_payout_output policy before now expected output = do
  remaining ← amount output.remaining_atomic
  require (remaining == expected) Code.state_remaining_mismatch
  require (num_eq output.occurrence_count (js_add before.occurrence_count (nat 1)))
      Code.occurrence_count_invalid
  require (is_active output.status) Code.status_invalid
  let expected_next = js_add (num_max before.next_valid_after_seconds now) policy.cadence_seconds
  require (num_eq output.next_valid_after_seconds expected_next) Code.next_cadence_invalid
  ok output

unfoldable pub validate_operator_payout : Policy → State → Transition → Values → Outcome Code State
validate_operator_payout policy before transition values = do
  require_auth transition policy.operator_lock_hash Code.operator_auth_required
  require (is_active before.status) Code.vault_revoked
  now ← require_verified_time policy before transition
  expected ← check_payment policy before transition values
  output ← require_output_state policy before transition
  check_payout_output policy before now expected output

unfoldable pub validate_owner_top_up : Policy → State → Transition → Values → Outcome Code State
validate_owner_top_up policy before transition values = do
  require_auth transition policy.owner_lock_hash Code.owner_auth_required
  require (is_active before.status) Code.vault_revoked
  reject_if (values.top_up == 0) Code.top_up_required
  require (values.recipient == 0) Code.recipient_output_forbidden
  require (values.owner_net == 0) Code.owner_output_forbidden
  require (values.fee == 0) Code.external_fee_required
  let expected = values.input + values.top_up
  total ← amount policy.total_cap_atomic
  reject_if (ltb total expected || not (values.output == expected)) Code.total_cap_exceeded
  output ← require_output_state policy before transition
  remaining ← amount output.remaining_atomic
  require
      (remaining == expected
        && num_eq output.occurrence_count before.occurrence_count
        && num_eq output.next_valid_after_seconds before.next_valid_after_seconds
        && is_active output.status)
      Code.top_up_state_invalid
  ok output

unfoldable pub validate_owner_revoke : Policy → State → Transition → Values → Outcome Code State
validate_owner_revoke policy before transition values = do
  require_auth transition policy.owner_lock_hash Code.owner_auth_required
  require (values.recipient == 0) Code.recipient_output_forbidden
  require (values.owner_net == 0) Code.owner_output_forbidden
  require (values.top_up == 0) Code.top_up_forbidden
  require (values.fee == 0) Code.external_fee_required
  require (values.output == values.input) Code.asset_conservation_failed
  output ← require_output_state policy before transition
  require
      (text_eq output.remaining_atomic before.remaining_atomic
        && num_eq output.occurrence_count before.occurrence_count
        && num_eq output.next_valid_after_seconds before.next_valid_after_seconds
        && not (is_active output.status))
      Code.revoke_state_invalid
  ok output

-- The lock that receives the assets of an exit.
unfoldable pub check_migration_target : Option Text → Option Text → Outcome Code (Unit {0})
check_migration_target none recipient = err Code.migration_target_required
check_migration_target (some []) recipient = err Code.migration_target_required
check_migration_target (some (c ∷ s)) recipient = do
  hash (c ∷ s)
  require (opt_eq recipient (c ∷ s)) Code.migration_target_mismatch

unfoldable pub check_recipient : Bool → Policy → Transition → Outcome Code (Unit {0})
check_recipient true policy transition =
    check_migration_target transition.migration_target_lock_hash transition.recipient_lock_hash
check_recipient false policy transition =
    require (opt_eq transition.recipient_lock_hash policy.owner_lock_hash)
      Code.owner_recipient_mismatch

abbrev is_absent : Option State → Bool
is_absent none = true
is_absent (some _) = false

unfoldable pub validate_owner_exit :
    Policy → Transition → Values → Bool → Outcome Code (Option State)
validate_owner_exit policy transition values migration = do
  require_auth transition policy.owner_lock_hash Code.owner_auth_required
  require (is_absent transition.output_state) Code.state_output_forbidden
  require (values.output == 0) Code.vault_change_forbidden
  require (values.recipient == 0) Code.recipient_output_forbidden
  require (values.top_up == 0) Code.top_up_forbidden
  let fee = native_fee policy.asset values.fee
  require (leb fee values.input && values.owner_net == values.input - fee)
      Code.owner_conservation_failed
  check_recipient migration policy transition
  ok none

abbrev pub continuing : Outcome Code State → Outcome Code (Option State)
continuing (ok s) = ok (some s)
continuing (err e) = err e

-- The `switch` of `validateVaultV2Transition`.
unfoldable pub validate_action :
    Action → Policy → State → Transition → Values → Outcome Code (Option State)
validate_action Action.operator_payout policy before transition values =
    continuing (validate_operator_payout policy before transition values)
validate_action Action.owner_top_up policy before transition values =
    continuing (validate_owner_top_up policy before transition values)
validate_action Action.owner_revoke policy before transition values =
    continuing (validate_owner_revoke policy before transition values)
validate_action Action.owner_reclaim policy before transition values =
    validate_owner_exit policy transition values false
validate_action Action.owner_migrate policy before transition values =
    validate_owner_exit policy transition values true

unfoldable pub validate_vault_v2_transition :
    Policy → State → Transition → Outcome Code (Option State)
validate_vault_v2_transition policy before transition = do
  values ← validate_common policy before transition
  validate_action transition.action policy before transition values
