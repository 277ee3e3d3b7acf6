-- ===== src/Vault/Tests.antt =====
-- A vault at work: a payout, a top-up, a revocation and exits that `validateVaultV2Transition` of
-- src/domain/vaultV2.ts accepts.
use fiberpassbackend.Prelude.{
  ℕ, ◌*◌, ◌≤◌, ◌≡◌, refl, none, some, [], ◌∷◌, ◌++◌, codes, Text, replicate, text_eq, ok,
}
use fiberpassbackend.Money.{parse_atomic_amount, as_atomic_amount}
use fiberpassbackend.Vault.Types.{
  Action, native_ckb, nat, Policy, State, Transition, active, revoked,
}
use fiberpassbackend.Vault.Checks.{
  validate_common, validate_policy, validate_state, validate_asset, check_asset_type, hash, amount,
  integer, js_add, require_auth, require_output_state, check_output_state, require_verified_time,
  check_time,
}
use fiberpassbackend.Vault.Actions.{
  validate_vault_v2_transition, validate_action, validate_operator_payout, check_payment,
  check_payout_output, validate_owner_top_up, validate_owner_revoke, validate_owner_exit,
  check_recipient, check_migration_target,
}
use fiberpassbackend.Vault.Spec.{terms, view}
use fiberpassbackend.Vault.Owner.{ExitOk}
use fiberpassbackend.Vault.Exit.{
  Receiver, reclaim, reclaim_accepted, validate_vault_v2_transition-Exit,
}
use fiberpassbackend.Vault.Refinement.{Continues, validate_vault_v2_transition-Continues}
use fiberpassbackend.Vault.History.{
  replay, events, paid, Ledger, replay-Ledger, paid-le-cap_limit, Revoked,
  validate_vault_v2_transition-Revoked,
}

abbrev hash_of : ℕ → Text
hash_of c = codes "0x" ++ replicate 64 c

abbrev weekly : Policy
weekly = record {
  policy_hash = hash_of 48;
  pass_id_hash = hash_of 49;
  owner_lock_hash = hash_of 50;
  operator_lock_hash = hash_of 51;
  recipient_lock_hash = hash_of 52;
  asset = native_ckb;
  total_cap_atomic = codes "100";
  per_payment_cap_atomic = codes "30";
  cadence_seconds = nat 60;
  occurrence_limit = nat 3;
  expiry_seconds = some (nat 1000);
  fee_ceiling_shannons = codes "5";
}

abbrev state_with : Text → ℕ → ℕ → ℕ → State
state_with remaining count next nonce = record {
  policy_hash = hash_of 48;
  remaining_atomic = remaining;
  occurrence_count = nat count;
  next_valid_after_seconds = nat next;
  nonce = nat nonce;
  status = active;
}

abbrev opened : State
opened = state_with (codes "90") 0 100 7

abbrev paid_once : State
paid_once = state_with (codes "68") 1 180 8

abbrev pay : Transition
pay = record {
  action = Action.operator_payout;
  auth_lock_hashes = hash_of 51 ∷ [];
  input_pass_id_hashes = hash_of 49 ∷ [];
  observed_asset_type_hash = none;
  input_vault_asset_atomic = codes "90";
  output_vault_asset_atomic = codes "68";
  recipient_lock_hash = some (hash_of 52);
  recipient_asset_atomic = codes "20";
  owner_net_asset_atomic = codes "0";
  top_up_atomic = codes "0";
  fee_shannons = codes "2";
  state_capacity_delta_shannons = codes "0";
  verified_time_seconds = some (nat 120);
  output_state = some paid_once;
  migration_target_lock_hash = none;
}

pay_accepted : validate_vault_v2_transition weekly opened pay ≡ ok (some paid_once)
unfolding validate_vault_v2_transition validate_common validate_policy validate_state validate_asset
    check_asset_type hash amount integer js_add require_auth require_output_state check_output_state
    require_verified_time check_time validate_action validate_operator_payout check_payment
    check_payout_output text_eq as_atomic_amount parse_atomic_amount
pay_accepted = refl

validate_vault_v2_transition-Continues_example :
    Continues weekly opened Action.operator_payout pay paid_once
validate_vault_v2_transition-Continues_example =
    validate_vault_v2_transition-Continues weekly opened pay pay_accepted

abbrev added_to : State
added_to = state_with (codes "78") 1 180 9

abbrev add : Transition
add = record pay {
  action = Action.owner_top_up;
  auth_lock_hashes = hash_of 50 ∷ [];
  input_vault_asset_atomic = codes "68";
  output_vault_asset_atomic = codes "78";
  recipient_lock_hash = none;
  recipient_asset_atomic = codes "0";
  top_up_atomic = codes "10";
  fee_shannons = codes "0";
  verified_time_seconds = none;
  output_state = some added_to;
}

two_accepted : replay weekly opened (pay ∷ add ∷ []) ≡ some added_to
unfolding validate_vault_v2_transition validate_common validate_policy validate_state validate_asset
    check_asset_type hash amount integer js_add require_auth require_output_state check_output_state
    require_verified_time check_time validate_action validate_operator_payout check_payment
    check_payout_output text_eq as_atomic_amount parse_atomic_amount validate_owner_top_up
    validate_owner_revoke validate_owner_exit check_recipient check_migration_target replay
two_accepted = refl

replay-Ledger_example :
    Ledger (terms weekly) (view opened) (events weekly (pay ∷ add ∷ [])) (view added_to)
replay-Ledger_example = replay-Ledger weekly opened (pay ∷ add ∷ []) two_accepted

paid-le-cap_limit_example :
    paid (events weekly (pay ∷ add ∷ [])) ≤ (terms weekly).limit * (terms weekly).payment_cap
paid-le-cap_limit_example = paid-le-cap_limit weekly opened (pay ∷ add ∷ []) two_accepted

abbrev closed : State
closed = record added_to { status = revoked }

abbrev closed_again : State
closed_again = record closed { nonce = nat 10 }

abbrev revoke_again : Transition
revoke_again = record add {
  action = Action.owner_revoke;
  input_vault_asset_atomic = codes "78";
  top_up_atomic = codes "0";
  output_state = some closed_again;
}

revoked_twice : validate_vault_v2_transition weekly closed revoke_again ≡ ok (some closed_again)
unfolding validate_vault_v2_transition validate_common validate_policy validate_state validate_asset
    check_asset_type hash amount integer js_add require_auth require_output_state check_output_state
    require_verified_time check_time validate_action text_eq as_atomic_amount parse_atomic_amount
    validate_owner_revoke
revoked_twice = refl

validate_vault_v2_transition-Revoked_example :
    Revoked weekly closed revoke_again (some closed_again)
validate_vault_v2_transition-Revoked_example =
    validate_vault_v2_transition-Revoked weekly closed revoke_again (some closed_again) refl
      revoked_twice

weekly_valid : validate_policy weekly ≡ ok tt
unfolding validate_policy hash amount integer as_atomic_amount parse_atomic_amount
weekly_valid = refl

closed_valid : validate_state weekly closed ≡ ok tt
unfolding validate_state amount integer as_atomic_amount parse_atomic_amount text_eq
closed_valid = refl

reclaim_accepted_example :
    validate_vault_v2_transition weekly closed (reclaim weekly closed) ≡ ok none
reclaim_accepted_example = reclaim_accepted weekly closed weekly_valid closed_valid

validate_vault_v2_transition-Exit_example :
    Receiver Action.owner_reclaim weekly (reclaim weekly closed)
    × ExitOk weekly closed (reclaim weekly closed)
validate_vault_v2_transition-Exit_example =
    validate_vault_v2_transition-Exit weekly closed (reclaim weekly closed)
      (reclaim_accepted weekly closed weekly_valid closed_valid)
