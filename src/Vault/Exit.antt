-- ===== src/Vault/Exit.antt =====
-- Full exits of src/domain/vaultV2.ts: what an accepted one guarantees, and that the owner always has
-- one.
use fiberpassbackend.Prelude.{
  ◌≡◌, refl, true, false, Option, none, some, [], ◌∷◌, arith, Outcome, ok, err, >>=-eq-ok,
  require-eq-ok, ◌≢◌, Text, text_eq_refl,
}
use fiberpassbackend.Money.{print_digits}
use fiberpassbackend.Vault.Types.{Action, Asset, native_ckb, udt, Policy, State, Transition, Code}
use fiberpassbackend.Vault.Checks.{
  Values, hash, amount, validate_policy, validate_state, validate_asset, check_asset_type,
  validate_common, require_auth,
}
use fiberpassbackend.Vault.Actions.{
  continuing, native_fee, check_migration_target, check_recipient, validate_owner_exit,
  validate_action, validate_vault_v2_transition,
}
use fiberpassbackend.Vault.Facts.{
  value_of, amount-print, CommonOk, validate_common-eq-ok, validate_state-eq-ok,
  validate_policy-eq-ok,
}
use fiberpassbackend.Vault.Guards.{opt_eq-eq}
use fiberpassbackend.Vault.Owner.{ExitOk, validate_owner_exit-eq-ok}

-- The assets go to the owner's lock, or, for a migration, to the target that the transition names.
abbrev pub Receiver : Action → Policy → Transition → Type 0
Receiver Action.owner_reclaim p t = t.recipient_lock_hash ≡ some p.owner_lock_hash
Receiver Action.owner_migrate p t =
    (target : Text) × (t.migration_target_lock_hash ≡ some target)
    × (t.recipient_lock_hash ≡ some target)
    × (hash target ≡ ok tt)
Receiver _ p t = ⊥

check_migration_target-eq-ok :
    (o r : Option Text)
    → check_migration_target o r ≡ ok tt
    → (target : Text) × (o ≡ some target) × (r ≡ some target) × (hash target ≡ ok tt)
unfolding check_migration_target
check_migration_target-eq-ok none r h = cc
check_migration_target-eq-ok (some []) r h = cc
check_migration_target-eq-ok (some (c ∷ s)) r h =
    let (_, hashed, h1) = >>=-eq-ok (hash (c ∷ s)) _ h in
    (c ∷ s, refl, opt_eq-eq r (c ∷ s) (require-eq-ok _ Code.migration_target_mismatch h1), hashed)

continuing-ne-none : (m : Outcome Code State) → continuing m ≢ ok none
continuing-ne-none (ok u) h = cc
continuing-ne-none (err e) h = cc

action-Exit :
    (a : Action) (p : Policy) (s : State) (t : Transition) (v : Values)
    → CommonOk p s t v
    → validate_action a p s t v ≡ ok none
    → Receiver a p t × ExitOk p s t
unfolding validate_action
action-Exit Action.operator_payout p s t v c h = absurd (continuing-ne-none _ h)
action-Exit Action.owner_top_up p s t v c h = absurd (continuing-ne-none _ h)
action-Exit Action.owner_revoke p s t v c h = absurd (continuing-ne-none _ h)
action-Exit Action.owner_reclaim p s t v c h =
    let (_, exit, receiver) = validate_owner_exit-eq-ok p s t v false c h in
    (
      opt_eq-eq _ _
          (unfold check_recipient in require-eq-ok _ Code.owner_recipient_mismatch receiver),
      exit,
    )
action-Exit Action.owner_migrate p s t v c h =
    let (_, exit, receiver) = validate_owner_exit-eq-ok p s t v true c h in
    (check_migration_target-eq-ok _ _ (unfold check_recipient in receiver), exit)

-- An accepted transition that returns no state is a reclaim or a migration with the owner's lock
-- among its authorisations; it leaves no output state and no assets in the vault, pays no service
-- recipient, and the owner's net amount with a native fee is exactly what the vault held. A reclaim
-- goes to the owner's lock, and a migration to the target that it names, a canonical hash.
pub validate_vault_v2_transition-Exit :
    (p : Policy) (s : State) (t : Transition)
    → validate_vault_v2_transition p s t ≡ ok none
    → Receiver t.action p t × ExitOk p s t
unfolding validate_vault_v2_transition
validate_vault_v2_transition-Exit p s t h =
    let (v, common, h1) = >>=-eq-ok (validate_common p s t) _ h in
    action-Exit t.action p s t v (validate_common-eq-ok p s t common) h1

-- The reclaim that asks no fee of the vault: everything goes to the owner's lock.
abbrev observed_type : Asset → Option Text
observed_type native_ckb = none
observed_type (udt type_hash) = some type_hash

abbrev pub reclaim : Policy → State → Transition
reclaim p s = record {
  action = Action.owner_reclaim;
  auth_lock_hashes = p.owner_lock_hash ∷ [];
  input_pass_id_hashes = p.pass_id_hash ∷ [];
  observed_asset_type_hash = observed_type p.asset;
  input_vault_asset_atomic = s.remaining_atomic;
  output_vault_asset_atomic = print_digits 0;
  recipient_lock_hash = some p.owner_lock_hash;
  recipient_asset_atomic = print_digits 0;
  owner_net_asset_atomic = s.remaining_atomic;
  top_up_atomic = print_digits 0;
  fee_shannons = print_digits 0;
  state_capacity_delta_shannons = print_digits 0;
  verified_time_seconds = none;
  output_state = none;
  migration_target_lock_hash = none;
}

amount-zero : amount (print_digits 0) ≡ ok 0
amount-zero = amount-print 0 (omega arith)

reclaim_asset_type :
    (a : Asset) (t : Transition)
    → t.observed_asset_type_hash ≡ observed_type a
    → t.state_capacity_delta_shannons ≡ print_digits 0
    → check_asset_type a t ≡ ok tt
unfolding check_asset_type
reclaim_asset_type native_ckb t h k = rw h
reclaim_asset_type (udt type_hash) t h k = rw (h, k) (rw (text_eq_refl type_hash, amount-zero))

native_fee-zero : (a : Asset) → native_fee a 0 ≡ 0
native_fee-zero native_ckb = refl
native_fee-zero (udt _) = refl

reclaim_values : State → Values
reclaim_values s = record {
  input = value_of s.remaining_atomic;
  output = 0;
  recipient = 0;
  owner_net = value_of s.remaining_atomic;
  top_up = 0;
  fee = 0;
}

reclaim_asset : (p : Policy) (s : State) → validate_asset p (reclaim p s) ≡ ok tt
unfolding validate_asset
reclaim_asset p s = reclaim_asset_type p.asset (reclaim p s) refl refl

ceiling_amount :
    (p : Policy)
    → validate_policy p ≡ ok tt
    → amount p.fee_ceiling_shannons ≡ ok (value_of p.fee_ceiling_shannons)
ceiling_amount p vp = (validate_policy-eq-ok p vp).ceiling_amount.0

reclaim_common :
    (p : Policy) (s : State)
    → validate_policy p ≡ ok tt
    → validate_state p s ≡ ok tt
    → validate_common p s (reclaim p s) ≡ ok (reclaim_values s)
unfolding validate_common reclaim_values
reclaim_common p s vp vs =
    rw (vp, vs, text_eq_refl p.pass_id_hash, reclaim_asset p s)
      (rw ((validate_state-eq-ok p s vs).amount_remaining, amount-zero)
        (rw (ceiling_amount p vp) (ground arith)))

reclaim_exit :
    (p : Policy) (s : State)
    → validate_owner_exit p (reclaim p s) (reclaim_values s) false ≡ ok none
unfolding validate_owner_exit require_auth check_recipient reclaim_values
reclaim_exit p s = rw (text_eq_refl p.owner_lock_hash, native_fee-zero p.asset) (ground arith)

-- For every policy and state that the model accepts, active or revoked and whatever the time, a
-- reclaim by the owner of everything that remains is accepted.
pub reclaim_accepted :
    (p : Policy) (s : State)
    → validate_policy p ≡ ok tt
    → validate_state p s ≡ ok tt
    → validate_vault_v2_transition p s (reclaim p s) ≡ ok none
unfolding validate_vault_v2_transition validate_action
reclaim_accepted p s vp vs = rw (reclaim_common p s vp vs) (reclaim_exit p s)
