-- ===== src/Vault/Payout.antt =====
-- `validateOperatorPayout` of src/domain/vaultV2.ts: an accepted payout is a payout of the abstract
-- vault.
use fiberpassbackend.Prelude.{
  ℕ, suc, ◌+◌, ◌≤◌, ◌<◌, ◌≡◌, refl, sym, ap, subst, true, some, arith, ok, require, require-eq-ok,
  >>=-eq-ok,
}
use fiberpassbackend.Vault.Types.{
  Number, nat, Policy, State, Transition, Code, Status, active, revoked,
}
use fiberpassbackend.Vault.Checks.{
  Values, num_max, is_active, require_auth, require_output_state, require_verified_time,
}
use fiberpassbackend.Vault.Actions.{
  native_fee, validate_operator_payout, check_payment, check_payout_output,
}
use fiberpassbackend.Vault.Facts.{
  value_of, num_value, IsSafe, amount_cases, ValidPolicy, ValidState, CommonOk,
}
use fiberpassbackend.Vault.Spec.{terms, view, Before, expiry_of, Payout, time_of, Contains}
use fiberpassbackend.Vault.Guards.{
  js_add_exact, OutputOk, require_output_state-eq-ok, TimeOk, require_verified_time-eq-ok,
  require_auth-eq-ok, native_fee-le, opt_eq-eq,
}

pub record PaymentOk (p : Policy) (s : State) (t : Transition) (v : Values) (expected : ℕ)
    : Type 0 where
  pub positive : 0 < v.recipient
  pub capped : v.recipient ≤ value_of p.per_payment_cap_atomic
  pub recipient : t.recipient_lock_hash ≡ some p.recipient_lock_hash
  pub no_owner : v.owner_net ≡ 0
  pub no_top_up : v.top_up ≡ 0
  pub occurrence_left : num_value s.occurrence_count < num_value p.occurrence_limit
  pub conserved : expected + v.recipient + native_fee p.asset v.fee ≡ v.input
  pub output : v.output ≡ expected

check_payment-eq-ok :
    (p : Policy) (s : State) (t : Transition) (v : Values) {expected : ℕ}
    → ValidPolicy p
    → ValidState p s
    → check_payment p s t v ≡ ok expected
    → PaymentOk p s t v expected
unfolding check_payment
check_payment-eq-ok p s t v vp vs h = ground (
  arith,
  vp.limit_safe,
  vs.count_safe,
  amount_cases p.per_payment_cap_atomic,
  opt_eq-eq t.recipient_lock_hash p.recipient_lock_hash,
)

record PayoutOutputOk (p : Policy) (s : State) (now : Number) (expected : ℕ) (u : State)
    : Type 0 where
  remaining : value_of u.remaining_atomic ≡ expected
  count : num_value u.occurrence_count ≡ suc (num_value s.occurrence_count)
  next_due : num_value u.next_valid_after_seconds ≡ num_value now + num_value p.cadence_seconds
  still_active : u.status ≡ active

check_payout_output-eq-ok :
    (p : Policy) (s : State) (now : Number) (expected : ℕ) (o : State) {u : State}
    → ValidState p s
    → ValidState p o
    → IsSafe now
    → num_value s.next_valid_after_seconds ≤ num_value now
    → check_payout_output p s now expected o ≡ ok u
    → (u ≡ o) × PayoutOutputOk p s now expected o
unfolding check_payout_output
check_payout_output-eq-ok p s now expected o vs vo safe due h = ground (
  arith,
  amount_cases o.remaining_atomic,
  js_add_exact o.occurrence_count s.occurrence_count (nat 1),
  js_add_exact o.next_valid_after_seconds (num_max s.next_valid_after_seconds now)
      p.cadence_seconds,
)

-- What an accepted payout establishes besides its step.
pub record PayoutOk (p : Policy) (s : State) (t : Transition) (v : Values) (u : State)
    : Type 0 where
  pub output : t.output_state ≡ some u
  pub valid : ValidState p u
  pub authorised : Contains p.operator_lock_hash t.auth_lock_hashes
  pub payment : PaymentOk p s t v (value_of u.remaining_atomic)
  pub step :
      Payout
        (terms p)
        (view s)
        (view u)
        v.recipient
        (native_fee p.asset v.fee)
        (time_of t.verified_time_seconds)

is_active-eq : (s : Status) → is_active s ≡ true → s ≡ active
is_active-eq active h = refl
is_active-eq revoked h = cc

-- The step that the facts of the single checks make together.
payout_parts :
    (p : Policy) (s : State) (t : Transition) (v : Values) (now : Number) (expected : ℕ) (o : State)
    {u : State}
    → CommonOk p s t v
    → Contains p.operator_lock_hash t.auth_lock_hashes
    → s.status ≡ active
    → TimeOk p s t.verified_time_seconds now
    → PaymentOk p s t v expected
    → (t.output_state ≡ some o) × OutputOk p s o
    → check_payout_output p s now expected o ≡ ok u
    → PayoutOk p s t v u
payout_parts p s t v now expected o {u} c auth was_active time payment (given, out) h =
    let (same, left) =
      check_payout_output-eq-ok p s now expected o c.state out.valid time.safe time.due h in
    let at_time : time_of t.verified_time_seconds ≡ num_value now = ap time_of time.given in
    let fee_le = native_fee-le p.asset v.fee in
    subst (PayoutOk p s t v) (sym same) (record {
      output = given;
      valid = out.valid;
      authorised = auth;
      payment = subst (PaymentOk p s t v) (sym left.remaining) payment;
      step = record {
        was_active = was_active;
        positive = payment.positive;
        capped = payment.capped;
        fee_capped = omega (arith, c.fee_within, fee_le);
        due = omega (arith, time.due, at_time);
        not_expired =
            subst (λ k. Before k (expiry_of p.expiry_seconds)) (sym at_time) time.not_expired;
        occurrence_left = payment.occurrence_left;
        conserved = omega (arith, payment.conserved, left.remaining, c.input_remaining);
        counted = left.count;
        next_due = omega (arith, left.next_due, at_time);
        next_nonce = out.nonce;
        still_active = left.still_active;
      };
    })

pub validate_operator_payout-eq-ok :
    (p : Policy) (s : State) (t : Transition) (v : Values) {u : State}
    → CommonOk p s t v
    → validate_operator_payout p s t v ≡ ok u
    → PayoutOk p s t v u
unfolding validate_operator_payout
validate_operator_payout-eq-ok p s t v {u} c h =
    let code = Code.operator_auth_required in
    let (_, auth, h1) = >>=-eq-ok (require_auth t p.operator_lock_hash code) _ h in
    let (_, was_active, h2) = >>=-eq-ok (require (is_active s.status) Code.vault_revoked) _ h1 in
    let (now, timed, h3) = >>=-eq-ok (require_verified_time p s t) _ h2 in
    let (expected, paid, h4) = >>=-eq-ok (check_payment p s t v) _ h3 in
    let (o, given, h5) = >>=-eq-ok (require_output_state p s t) _ h4 in
    payout_parts p s t v now expected o c (require_auth-eq-ok t p.operator_lock_hash code auth)
      (is_active-eq s.status (require-eq-ok _ Code.vault_revoked was_active))
      (require_verified_time-eq-ok p s t c.policy c.state timed)
      (check_payment-eq-ok p s t v c.policy c.state paid) (require_output_state-eq-ok p s t given)
      h5
