-- ===== src/Vault/Spec.antt =====
-- What a vault promises, in numbers: the steps of an abstract vault that the transitions accepted by
-- src/domain/vaultV2.ts are meant to be.
use fiberpassbackend.Prelude.{
  ℕ, suc, ◌+◌, ◌≤◌, ◌<◌, ◌≡◌, Option, none, some, Text, List, [], ◌∷◌, ◌⊎◌,
}
use fiberpassbackend.Vault.Types.{
  Action, Number, Policy, State, Transition, Status, active, revoked,
}
use fiberpassbackend.Vault.Actions.{native_fee}
use fiberpassbackend.Vault.Facts.{value_of, num_value}

-- The numbers of a policy.
pub record Terms : Type 0 where
  pub total_cap : ℕ
  pub payment_cap : ℕ
  pub cadence : ℕ
  pub limit : ℕ
  pub expiry : Option ℕ
  pub fee_ceiling : ℕ

abbrev pub expiry_of : Option Number → Option ℕ
expiry_of none = none
expiry_of (some e) = some (num_value e)

abbrev pub terms : Policy → Terms
terms p = record {
  total_cap = value_of p.total_cap_atomic;
  payment_cap = value_of p.per_payment_cap_atomic;
  cadence = num_value p.cadence_seconds;
  limit = num_value p.occurrence_limit;
  expiry = expiry_of p.expiry_seconds;
  fee_ceiling = value_of p.fee_ceiling_shannons;
}

-- The numbers of a state.
pub record View : Type 0 where
  pub remaining : ℕ
  pub count : ℕ
  pub next_valid_after : ℕ
  pub nonce : ℕ
  pub status : Status

abbrev pub view : State → View
view s = record {
  remaining = value_of s.remaining_atomic;
  count = num_value s.occurrence_count;
  next_valid_after = num_value s.next_valid_after_seconds;
  nonce = num_value s.nonce;
  status = s.status;
}

abbrev pub Before : ℕ → Option ℕ → Type 0
Before now none = Unit
Before now (some e) = now < e

-- A payout of `paid`, with `fee` taken from the vault, at the verified time `now`.
pub record Payout (p : Terms) (s u : View) (paid fee now : ℕ) : Type 0 where
  pub was_active : s.status ≡ active
  pub positive : 0 < paid
  pub capped : paid ≤ p.payment_cap
  pub fee_capped : fee ≤ p.fee_ceiling
  pub due : s.next_valid_after ≤ now
  pub not_expired : Before now p.expiry
  pub occurrence_left : s.count < p.limit
  pub conserved : u.remaining + paid + fee ≡ s.remaining
  pub counted : u.count ≡ suc s.count
  pub next_due : u.next_valid_after ≡ now + p.cadence
  pub next_nonce : u.nonce ≡ suc s.nonce
  pub still_active : u.status ≡ active

-- A top-up changes only the amount and the nonce, and stays within the cap.
pub record TopUp (p : Terms) (s u : View) (added : ℕ) : Type 0 where
  pub was_active : s.status ≡ active
  pub positive : 0 < added
  pub conserved : u.remaining ≡ s.remaining + added
  pub capped : u.remaining ≤ p.total_cap
  pub same_count : u.count ≡ s.count
  pub same_due : u.next_valid_after ≡ s.next_valid_after
  pub next_nonce : u.nonce ≡ suc s.nonce
  pub still_active : u.status ≡ active

-- A revocation changes only the status and the nonce.
pub record Revoke (s u : View) : Type 0 where
  pub conserved : u.remaining ≡ s.remaining
  pub same_count : u.count ≡ s.count
  pub same_due : u.next_valid_after ≡ s.next_valid_after
  pub next_nonce : u.nonce ≡ suc s.nonce
  pub now_revoked : u.status ≡ revoked

-- What a transition asks for, in numbers.
pub data Event : Type 0 where
  payout : ℕ → ℕ → ℕ → Event
  top_up : ℕ → Event
  revoke exit : Event

abbrev pub time_of : Option Number → ℕ
time_of none = 0
time_of (some now) = num_value now

abbrev pub event_for : Action → Policy → Transition → Event
event_for Action.operator_payout p t =
    payout (value_of t.recipient_asset_atomic) (native_fee p.asset (value_of t.fee_shannons))
      (time_of t.verified_time_seconds)
event_for Action.owner_top_up p t = top_up (value_of t.top_up_atomic)
event_for Action.owner_revoke p t = revoke
event_for Action.owner_reclaim p t = exit
event_for Action.owner_migrate p t = exit

abbrev pub event_of : Policy → Transition → Event
event_of p t = event_for t.action p t

-- The steps that leave a vault behind; an exit leaves none.
abbrev pub Step : Terms → View → Event → View → Type 0
Step p s (payout paid fee now) u = Payout p s u paid fee now
Step p s (top_up added) u = TopUp p s u added
Step p s revoke u = Revoke s u
Step p s exit u = ⊥

-- The lock that must authorise an action.
abbrev pub authority : Action → Policy → Text
authority Action.operator_payout p = p.operator_lock_hash
authority Action.owner_top_up p = p.owner_lock_hash
authority Action.owner_revoke p = p.owner_lock_hash
authority Action.owner_reclaim p = p.owner_lock_hash
authority Action.owner_migrate p = p.owner_lock_hash

abbrev pub Contains : Text → List Text → Type 0
Contains t [] = ⊥
Contains t (s ∷ ss) = (s ≡ t) ⊎ Contains t ss
