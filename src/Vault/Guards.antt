-- ===== src/Vault/Guards.antt =====
-- What the checks shared by several actions of src/domain/vaultV2.ts establish: authorisation,
-- verified time and the output state.
use fiberpassbackend.Prelude.{
  ℕ, suc, ◌+◌, ◌≤◌, ◌≡◌, ap, true, false, Option, none, some, List, [], ◌∷◌, arith, ok,
  require-eq-ok, Text, text_eq, text_eq→eq, any, inl, inr, Bool-cases,
}
use fiberpassbackend.Money.{max_safe_integer}
use fiberpassbackend.Vault.Types.{
  Asset, native_ckb, udt, Number, nat, other, Policy, State, Transition, Code,
}
use fiberpassbackend.Vault.Checks.{
  opt_eq, is_expired, js_add, num_eq, require_auth, check_output_state, require_output_state,
  check_time, require_verified_time,
}
use fiberpassbackend.Vault.Actions.{native_fee}
use fiberpassbackend.Vault.Facts.{
  num_value, IsSafe, integer_cases, ValidPolicy, ValidState, validate_state-eq-ok, ExpirySafe,
}
use fiberpassbackend.Vault.Spec.{Before, expiry_of, Contains}

-- A checked sum that equals a safe integer is exact.
pub js_add_exact :
    (r a b : Number)
    → num_eq r (js_add a b) ≡ true
    → num_value r ≤ max_safe_integer
    → num_value r ≡ num_value a + num_value b
unfolding js_add
js_add_exact (nat r) (nat a) (nat b) h k = ground arith
js_add_exact (nat r) (nat a) other h k = cc
js_add_exact (nat r) other b h k = cc
js_add_exact other a b h k = cc

pub record OutputOk (p : Policy) (s : State) (u : State) : Type 0 where
  pub valid : ValidState p u
  pub nonce : num_value u.nonce ≡ suc (num_value s.nonce)

pub check_output_state-eq-ok :
    (p : Policy) (s : State) (o : Option State) {u : State}
    → check_output_state p s o ≡ ok u
    → (o ≡ some u) × OutputOk p s u
unfolding check_output_state
check_output_state-eq-ok p s none h = cc
check_output_state-eq-ok p s (some o) h =
    ground (arith, validate_state-eq-ok p o {u = tt}, js_add_exact o.nonce s.nonce (nat 1))

pub require_output_state-eq-ok :
    (p : Policy) (s : State) (t : Transition) {u : State}
    → require_output_state p s t ≡ ok u
    → (t.output_state ≡ some u) × OutputOk p s u
unfolding require_output_state
require_output_state-eq-ok p s t h = check_output_state-eq-ok p s t.output_state h

pub not_expired_lem :
    (e : Option Number) (now : Number)
    → ExpirySafe e
    → IsSafe now
    → is_expired e now ≡ false
    → Before (num_value now) (expiry_of e)
not_expired_lem none now k l h = tt
not_expired_lem (some (nat e)) (nat now) k l h = ground arith
not_expired_lem (some (nat e)) other k l h = cc
not_expired_lem (some other) now k l h = cc

pub record TimeOk (p : Policy) (s : State) (o : Option Number) (now : Number) : Type 0 where
  pub given : o ≡ some now
  pub safe : IsSafe now
  pub due : num_value s.next_valid_after_seconds ≤ num_value now
  pub not_expired : Before (num_value now) (expiry_of p.expiry_seconds)

pub check_time-eq-ok :
    (p : Policy) (s : State) (o : Option Number) {now : Number}
    → ValidPolicy p
    → ValidState p s
    → check_time p s o ≡ ok now
    → TimeOk p s o now
unfolding check_time
check_time-eq-ok p s none vp vs h = cc
check_time-eq-ok p s (some x) {now} vp vs h =
    ground (arith, integer_cases x, not_expired_lem p.expiry_seconds x vp.expiry_safe)

pub require_verified_time-eq-ok :
    (p : Policy) (s : State) (t : Transition) {now : Number}
    → ValidPolicy p
    → ValidState p s
    → require_verified_time p s t ≡ ok now
    → TimeOk p s t.verified_time_seconds now
unfolding require_verified_time
require_verified_time-eq-ok p s t vp vs h = check_time-eq-ok p s t.verified_time_seconds vp vs h

pub Contains-any : (t : Text) (ss : List Text) → any (λ s. text_eq s t) ss ≡ true → Contains t ss
Contains-any t [] h = cc
Contains-any t (s ∷ ss) h = elim (Bool-cases (text_eq s t)) [
  | inl same ↦ inl (text_eq→eq s t same)
  | inr differs ↦ inr (Contains-any t ss (ground arith))
]

pub require_auth-eq-ok :
    (t : Transition) (lock : Text) (code : Code) {u : Unit {0}}
    → require_auth t lock code ≡ ok u
    → Contains lock t.auth_lock_hashes
unfolding require_auth
require_auth-eq-ok t lock code h = Contains-any lock t.auth_lock_hashes (require-eq-ok _ code h)

pub native_fee-le : (a : Asset) (fee : ℕ) → native_fee a fee ≤ fee
native_fee-le native_ckb fee = omega arith
native_fee-le (udt h) fee = omega arith

pub opt_eq-eq : (o : Option Text) (t : Text) → opt_eq o t ≡ true → o ≡ some t
opt_eq-eq none t h = cc
opt_eq-eq (some s) t h = ap some (text_eq→eq s t h)
