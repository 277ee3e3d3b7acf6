-- ===== src/Vault/Refinement.antt =====
-- The actions of src/domain/vaultV2.ts refine the abstract vault.
use fiberpassbackend.Prelude.{
  ◌≡◌, refl, sym, ap, subst, ◌∙◌, subst₂, true, false, Option, some, arith, Outcome, ok, err,
  >>=-eq-ok,
}
use fiberpassbackend.Vault.Types.{Action, Policy, State, Transition, Code}
use fiberpassbackend.Vault.Checks.{Values, validate_common}
use fiberpassbackend.Vault.Actions.{
  native_fee, continuing, validate_operator_payout, validate_owner_top_up, validate_owner_revoke,
  validate_action, validate_vault_v2_transition,
}
use fiberpassbackend.Vault.Facts.{ValidState, CommonOk, validate_common-eq-ok}
use fiberpassbackend.Vault.Spec.{
  terms, view, Payout, TopUp, event_for, time_of, Step, Contains, authority,
}
use fiberpassbackend.Vault.Payout.{PayoutOk, validate_operator_payout-eq-ok}
use fiberpassbackend.Vault.Owner.{
  validate_owner_top_up-eq-ok, validate_owner_revoke-eq-ok, validate_owner_exit-eq-ok,
}

-- A transition that leaves a vault behind.
pub record Continues (p : Policy) (s : State) (a : Action) (t : Transition) (u : State)
    : Type 0 where
  pub step : Step (terms p) (view s) (event_for a p t) (view u)
  pub output : t.output_state ≡ some u
  pub valid : ValidState p u
  pub authorised : Contains (authority a p) t.auth_lock_hashes

continuing-eq-ok :
    (m : Outcome Code State) {r : Option State}
    → continuing m ≡ ok r
    → (u : State) × (m ≡ ok u) × (r ≡ some u)
continuing-eq-ok (ok u) h = (u, refl, ground arith)
continuing-eq-ok (err e) h = cc

some-inj : {s u : State} → some s ≡ some u → s ≡ u
some-inj h = cc

payout-Continues :
    (p : Policy) (s : State) (t : Transition) (v : Values) {u : State}
    → CommonOk p s t v
    → PayoutOk p s t v u
    → Continues p s Action.operator_payout t u
payout-Continues p s t v {u} c o = record {
  step =
      subst₂
        (λ paid fee.
          Payout (terms p) (view s) (view u) paid (native_fee p.asset fee)
            (time_of t.verified_time_seconds))
        c.recipient_value c.fee_value o.step;
  output = o.output;
  valid = o.valid;
  authorised = o.authorised;
}

action-Continues :
    (a : Action) (p : Policy) (s : State) (t : Transition) (v : Values) {u : State}
    → CommonOk p s t v
    → validate_action a p s t v ≡ ok (some u)
    → Continues p s a t u
unfolding validate_action
action-Continues Action.operator_payout p s t v {u} c h =
    let (o, accepted, same) = continuing-eq-ok (validate_operator_payout p s t v) h in
    payout-Continues p s t v c
      (validate_operator_payout-eq-ok p s t v c (accepted ∙ ap ok (sym (some-inj same))))
action-Continues Action.owner_top_up p s t v {u} c h =
    let (o, accepted, same) = continuing-eq-ok (validate_owner_top_up p s t v) h in
    let (ok_u, step) =
      validate_owner_top_up-eq-ok p s t v {u = u} c (accepted ∙ ap ok (sym (some-inj same))) in
    record {
      step = subst (TopUp (terms p) (view s) (view u)) c.top_up_value step;
      output = ok_u.output;
      valid = ok_u.valid;
      authorised = ok_u.authorised;
    }
action-Continues Action.owner_revoke p s t v {u} c h =
    let (o, accepted, same) = continuing-eq-ok (validate_owner_revoke p s t v) h in
    let (ok_u, step) =
      validate_owner_revoke-eq-ok p s t v {u = u} c (accepted ∙ ap ok (sym (some-inj same))) in
    record { step = step; output = ok_u.output; valid = ok_u.valid; authorised = ok_u.authorised }
action-Continues Action.owner_reclaim p s t v c h =
    cc (validate_owner_exit-eq-ok p s t v false c h).0
action-Continues Action.owner_migrate p s t v c h =
    cc (validate_owner_exit-eq-ok p s t v true c h).0

-- Every accepted transition that returns a state is a step of the abstract vault: for a payout, a
-- top-up or a revocation the numbers of the policy, of both states and of the transition stand in the
-- relation `Payout`, `TopUp` or `Revoke`. The state returned is the transition's output state, it is
-- valid for the policy, and the transition carries the lock that must authorise its action: the
-- operator's for a payout, the owner's otherwise.
pub validate_vault_v2_transition-Continues :
    (p : Policy) (s : State) (t : Transition) {u : State}
    → validate_vault_v2_transition p s t ≡ ok (some u)
    → Continues p s t.action t u
unfolding validate_vault_v2_transition
validate_vault_v2_transition-Continues p s t h =
    let (v, common, h1) = >>=-eq-ok (validate_common p s t) _ h in
    action-Continues t.action p s t v (validate_common-eq-ok p s t common) h1
