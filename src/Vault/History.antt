-- ===== src/Vault/History.antt =====
-- Sequences of transitions accepted one after the other by `validateVaultV2Transition` of
-- src/domain/vaultV2.ts, from any state.
use fiberpassbackend.Prelude.{
  ℕ, suc, ◌+◌, ◌-◌, ◌*◌, ◌≤◌, ◌≡◌, refl, subst, Option, none, some, List, [], ◌∷◌, arith, Outcome,
  ok, err, Option-cases, inl, inr, length,
}
use native.Mathlib.Nat.{le_trans, mul-le-mul_right}
use fiberpassbackend.Vault.Types.{Action, Policy, State, Transition, Code, revoked}
use fiberpassbackend.Vault.Actions.{validate_vault_v2_transition}
use fiberpassbackend.Vault.Spec.{
  Terms, terms, View, view, Payout, TopUp, Revoke, Event, payout, top_up, revoke, exit, event_of,
  Step, event_for, Contains, authority,
}
use fiberpassbackend.Vault.Owner.{ExitOk}
use fiberpassbackend.Vault.Exit.{Receiver, validate_vault_v2_transition-Exit}
use fiberpassbackend.Vault.Refinement.{validate_vault_v2_transition-Continues}

abbrev pub state_left : Outcome Code (Option State) → Option State
state_left (ok r) = r
state_left (err _) = none

-- The state after all transitions were accepted in turn; `none` when one was refused or was an exit.
unfoldable pub replay : Policy → State → List Transition → Option State
replay p s [] = some s
replay p s (t ∷ ts) = elim (state_left (validate_vault_v2_transition p s t)) [
  | none ↦ none
  | some u ↦ replay p u ts
]

abbrev pub events : Policy → List Transition → List Event
events p [] = []
events p (t ∷ ts) = event_of p t ∷ events p ts

-- Totals over a history.
pub paid : List Event → ℕ
paid [] = 0
paid (payout n fee now ∷ es) = n + paid es
paid (top_up n ∷ es) = paid es
paid (revoke ∷ es) = paid es
paid (exit ∷ es) = paid es

pub fees : List Event → ℕ
fees [] = 0
fees (payout n fee now ∷ es) = fee + fees es
fees (top_up n ∷ es) = fees es
fees (revoke ∷ es) = fees es
fees (exit ∷ es) = fees es

pub added : List Event → ℕ
added [] = 0
added (payout n fee now ∷ es) = added es
added (top_up n ∷ es) = n + added es
added (revoke ∷ es) = added es
added (exit ∷ es) = added es

pub payouts : List Event → ℕ
payouts [] = 0
payouts (payout n fee now ∷ es) = suc (payouts es)
payouts (top_up n ∷ es) = payouts es
payouts (revoke ∷ es) = payouts es
payouts (exit ∷ es) = payouts es

-- The steps of the abstract vault, one for each event.
pub data Steps (k : Terms) : View → List Event → View → Type 0 where
  done : {s : View} → Steps k s [] s
  step :
      {s u w : View} {e : Event} {es : List Event}
      → Step k s e u
      → Steps k u es w
      → Steps k s (e ∷ es) w

state_left-eq-some :
    (r : Outcome Code (Option State)) {u : State} → state_left r ≡ some u → r ≡ ok (some u)
state_left-eq-some (ok (some o)) h = cc
state_left-eq-some (ok none) h = cc
state_left-eq-some (err e) h = cc

pub replay-Steps :
    (p : Policy) (s : State) (ts : List Transition) {u : State}
    → replay p s ts ≡ some u
    → Steps (terms p) (view s) (events p ts) (view u)
unfolding replay
replay-Steps p s [] {u} h =
    let same : s ≡ u = cc h in subst (λ (w : State). Steps (terms p) (view s) [] (view w)) same done
replay-Steps p s (t ∷ ts) {u} h =
    elim (Option-cases (state_left (validate_vault_v2_transition p s t))) [
      | inl e ↦ cc (rw (e, replay) at h)
      | inr (o, e) ↦
          step (validate_vault_v2_transition-Continues p s t (state_left-eq-some _ e)).step
            (replay-Steps p o ts (rw (e, replay) at h))
    ]

-- What a sequence of steps does to the numbers of a vault.
pub record Ledger (k : Terms) (s : View) (es : List Event) (u : View) : Type 0 where
  pub conserved : u.remaining + paid es + fees es ≡ s.remaining + added es
  pub counted : u.count ≡ s.count + payouts es
  pub nonces : u.nonce ≡ s.nonce + length es
  pub paid_capped : paid es ≤ payouts es * k.payment_cap
  pub fees_capped : fees es ≤ payouts es * k.fee_ceiling
  pub spaced : s.next_valid_after + payouts es * k.cadence ≤ u.next_valid_after
  pub limited : payouts es ≤ k.limit - s.count

payout-Ledger :
    (k : Terms) (s u w : View) (n fee now : ℕ) (es : List Event)
    → Payout k s u n fee now
    → Ledger k u es w
    → Ledger k s (payout n fee now ∷ es) w
unfolding paid fees added payouts
payout-Ledger k s u w n fee now es d l = omega arith

top_up-Ledger :
    (k : Terms) (s u w : View) (n : ℕ) (es : List Event)
    → TopUp k s u n
    → Ledger k u es w
    → Ledger k s (top_up n ∷ es) w
unfolding paid fees added payouts
top_up-Ledger k s u w n es d l = ground arith

revoke-Ledger :
    (k : Terms) (s u w : View) (es : List Event)
    → Revoke s u
    → Ledger k u es w
    → Ledger k s (revoke ∷ es) w
unfolding paid fees added payouts
revoke-Ledger k s u w es d l = ground arith

pub Steps-Ledger : {k : Terms} {s u : View} {es : List Event} → Steps k s es u → Ledger k s es u
unfolding paid fees added payouts
Steps-Ledger done = omega arith
Steps-Ledger (step {e = payout n fee now} d rest) =
    payout-Ledger _ _ _ _ n fee now _ d (Steps-Ledger rest)
Steps-Ledger (step {e = top_up n} d rest) = top_up-Ledger _ _ _ _ n _ d (Steps-Ledger rest)
Steps-Ledger (step {e = revoke} d rest) = revoke-Ledger _ _ _ _ _ d (Steps-Ledger rest)
Steps-Ledger (step {e = exit} d rest) = absurd d

-- Over any sequence of transitions accepted in turn: what remains, what was paid and the fees taken
-- make up what there was and what was added; the occurrence counter rises by the number of payouts
-- and the nonce by the number of transitions; the payouts number at most the occurrences that were
-- left, each of at most the payment cap and the fee ceiling, and each moves the next valid time on by
-- the cadence.
pub replay-Ledger :
    (p : Policy) (s : State) (ts : List Transition) {u : State}
    → replay p s ts ≡ some u
    → Ledger (terms p) (view s) (events p ts) (view u)
replay-Ledger p s ts h = Steps-Ledger (replay-Steps p s ts h)

-- Whatever transitions are accepted in turn, the sum of all payouts is at most the payment cap times
-- the occurrence limit.
pub paid-le-cap_limit :
    (p : Policy) (s : State) (ts : List Transition) {u : State}
    → replay p s ts ≡ some u
    → paid (events p ts) ≤ (terms p).limit * (terms p).payment_cap
paid-le-cap_limit p s ts h =
    let l = replay-Ledger p s ts h in
    le_trans l.paid_capped (mul-le-mul_right (terms p).payment_cap (omega (arith, l.limited)))

-- What an accepted transition of a revoked vault can be.
abbrev pub Revoked : Policy → State → Transition → Option State → Type 0
Revoked p s t none = Receiver t.action p t × ExitOk p s t
Revoked p s t (some u) =
    (t.action ≡ Action.owner_revoke)
    × Revoke (view s) (view u)
    × Contains p.owner_lock_hash t.auth_lock_hashes

revoked-step :
    (a : Action) (k : Terms) {s u : View} (p : Policy) (t : Transition)
    → Step k s (event_for a p t) u
    → s.status ≡ revoked
    → (a ≡ Action.owner_revoke) × Revoke s u
revoked-step Action.operator_payout k p t d r = cc d.was_active
revoked-step Action.owner_top_up k p t d r = cc d.was_active
revoked-step Action.owner_revoke k p t d r = (refl, d)
revoked-step Action.owner_reclaim k p t d r = absurd d
revoked-step Action.owner_migrate k p t d r = absurd d

-- In a revoked vault, a transition that is accepted is either another revocation, which the owner's lock
-- authorises and which leaves the amount, the occurrence counter, the next valid time and the revoked
-- status as they are, or a reclaim or a migration, which the owner's lock authorises too, which leaves
-- nothing in the vault and of which the owner's net amount with a native fee is what the vault held. No
-- payout and no top-up is accepted.
pub validate_vault_v2_transition-Revoked :
    (p : Policy) (s : State) (t : Transition) (r : Option State)
    → s.status ≡ revoked
    → validate_vault_v2_transition p s t ≡ ok r
    → Revoked p s t r
validate_vault_v2_transition-Revoked p s t none closed h = validate_vault_v2_transition-Exit p s t h
validate_vault_v2_transition-Revoked p s t (some u) closed h =
    let c = validate_vault_v2_transition-Continues p s t h in
    let (revokes, same) = revoked-step t.action (terms p) p t c.step closed in
    (revokes, same, subst (λ a. Contains (authority a p) t.auth_lock_hashes) revokes c.authorised)
