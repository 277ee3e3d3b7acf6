-- ===== src/Vault/Types.antt =====
-- The data of src/domain/vaultV2.ts: policy, state, transition and error codes. Hashes and atomic
-- amounts are strings, as in the source.
use fiberpassbackend.Prelude.{ℕ, List, Option, Text}

-- `VaultV2Action`
pub data Action : Type 0 where
  operator_payout owner_top_up owner_revoke owner_reclaim owner_migrate : Action

-- `VaultV2Asset`
pub data Asset : Type 0 where
  native_ckb : Asset
  udt : Text → Asset

-- A JavaScript number: a non-negative integer, or any other value (negative, fractional, infinite or
-- not a number), which `integer` refuses.
pub data Number : Type 0 where
  nat : ℕ → Number
  other : Number

pub data Status : Type 0 where
  active revoked : Status

-- `VaultV2Policy`
pub record Policy : Type 0 where
  pub policy_hash : Text
  pub pass_id_hash : Text
  pub owner_lock_hash : Text
  pub operator_lock_hash : Text
  pub recipient_lock_hash : Text
  pub asset : Asset
  pub total_cap_atomic : Text
  pub per_payment_cap_atomic : Text
  pub cadence_seconds : Number
  pub occurrence_limit : Number
  pub expiry_seconds : Option Number
  pub fee_ceiling_shannons : Text

-- `VaultV2State`
pub record State : Type 0 where
  pub policy_hash : Text
  pub remaining_atomic : Text
  pub occurrence_count : Number
  pub next_valid_after_seconds : Number
  pub nonce : Number
  pub status : Status

-- `VaultV2Transition`
pub record Transition : Type 0 where
  pub action : Action
  pub auth_lock_hashes : List Text
  pub input_pass_id_hashes : List Text
  pub observed_asset_type_hash : Option Text
  pub input_vault_asset_atomic : Text
  pub output_vault_asset_atomic : Text
  pub recipient_lock_hash : Option Text
  pub recipient_asset_atomic : Text
  pub owner_net_asset_atomic : Text
  pub top_up_atomic : Text
  pub fee_shannons : Text
  pub state_capacity_delta_shannons : Text
  pub verified_time_seconds : Option Number
  pub output_state : Option State
  pub migration_target_lock_hash : Option Text

-- The `code` of a `VaultV2ModelError`.
pub data Code : Type 0 where
  invalid_hash invalid_amount invalid_integer invalid_cap invalid_occurrence_limit : Code
  policy_hash_mismatch total_cap_exceeded output_state_required policy_mutation nonce_invalid : Code
  unexpected_type_script asset_type_mismatch udt_state_capacity_changed pass_cell_mixing : Code
  input_state_asset_mismatch fee_ceiling_exceeded time_evidence_required cadence_not_reached : Code
  vault_expired operator_auth_required vault_revoked payment_cap_exceeded : Code
  insufficient_remaining recipient_mismatch owner_output_forbidden top_up_forbidden : Code
  occurrence_limit_reached asset_conservation_failed state_remaining_mismatch : Code
  occurrence_count_invalid status_invalid next_cadence_invalid owner_auth_required : Code
  top_up_required recipient_output_forbidden external_fee_required top_up_state_invalid : Code
  revoke_state_invalid state_output_forbidden vault_change_forbidden : Code
  owner_conservation_failed migration_target_required migration_target_mismatch : Code
  owner_recipient_mismatch : Code
