-- ===== src/Vault/Owner.antt =====
-- The owner's actions of src/domain/vaultV2.ts: top-up, revocation, reclaim and migration.
use fiberpassbackend.Prelude.{◌+◌, ◌≤◌, ◌≡◌, ap, Bool, Option, none, some, arith, ok, text_eq→eq}
use fiberpassbackend.Vault.Types.{Policy, State, Transition, Code}
use fiberpassbackend.Vault.Checks.{Values}
use fiberpassbackend.Vault.Actions.{
  native_fee, validate_owner_top_up, validate_owner_revoke, validate_owner_exit, check_recipient,
}
use fiberpassbackend.Vault.Facts.{value_of, amount_cases, ValidState, CommonOk}
use fiberpassbackend.Vault.Spec.{terms, view, TopUp, Revoke, Contains}
use fiberpassbackend.Vault.Guards.{require_output_state-eq-ok, require_auth-eq-ok}

pub record OwnerOk (p : Policy) (s : State) (t : Transition) (u : State) : Type 0 where
  pub output : t.output_state ≡ some u
  pub valid : ValidState p u
  pub authorised : Contains p.owner_lock_hash t.auth_lock_hashes

pub validate_owner_top_up-eq-ok :
    (p : Policy) (s : State) (t : Transition) (v : Values) {u : State}
    → CommonOk p s t v
    → validate_owner_top_up p s t v ≡ ok u
    → OwnerOk p s t u × TopUp (terms p) (view s) (view u) v.top_up
unfolding validate_owner_top_up
validate_owner_top_up-eq-ok p s t v {u} c h = ground (
  arith,
  c.state.count_safe,
  c.state.next_safe,
  c.input_remaining,
  amount_cases p.total_cap_atomic,
  amount_cases u.remaining_atomic,
  require_auth-eq-ok t p.owner_lock_hash Code.owner_auth_required {u = tt},
  require_output_state-eq-ok p s t {u = u},
)

pub validate_owner_revoke-eq-ok :
    (p : Policy) (s : State) (t : Transition) (v : Values) {u : State}
    → CommonOk p s t v
    → validate_owner_revoke p s t v ≡ ok u
    → OwnerOk p s t u × Revoke (view s) (view u)
unfolding validate_owner_revoke
validate_owner_revoke-eq-ok p s t v {u} c h = ground (
  arith,
  c.state.count_safe,
  c.state.next_safe,
  text_eq→eq u.remaining_atomic s.remaining_atomic,
  require_auth-eq-ok t p.owner_lock_hash Code.owner_auth_required {u = tt},
  require_output_state-eq-ok p s t {u = u},
)

-- A full exit: nothing stays in the vault, and the owner receives what it held, less a native fee.
pub record ExitOk (p : Policy) (s : State) (t : Transition) : Type 0 where
  pub authorised : Contains p.owner_lock_hash t.auth_lock_hashes
  pub no_state : t.output_state ≡ none
  pub nothing_left : value_of t.output_vault_asset_atomic ≡ 0
  pub nothing_paid : value_of t.recipient_asset_atomic ≡ 0
  pub conserved :
      value_of t.owner_net_asset_atomic + native_fee p.asset (value_of t.fee_shannons)
      ≡ value_of s.remaining_atomic
  pub fee_capped : value_of t.fee_shannons ≤ value_of p.fee_ceiling_shannons

pub validate_owner_exit-eq-ok :
    (p : Policy) (s : State) (t : Transition) (v : Values) (migration : Bool) {r : Option State}
    → CommonOk p s t v
    → validate_owner_exit p t v migration ≡ ok r
    → (r ≡ none) × ExitOk p s t × (check_recipient migration p t ≡ ok tt)
unfolding validate_owner_exit
validate_owner_exit-eq-ok p s t v migration {r} c h = ground (
  arith,
  ap (native_fee p.asset) c.fee_value,
  require_auth-eq-ok t p.owner_lock_hash Code.owner_auth_required {u = tt},
)
