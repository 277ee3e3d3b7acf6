-- ===== src/Metered/Grants.antt =====
-- The creation of a grant (`createMeteredGrant` of src/services/meteredPayment.service.ts), after its
-- check that the app is active. The asset of the input is valid, networks are in lower case, and the
-- permissions that BTCPay requires are a parameter.
use fiberpassbackend.Prelude.{
  ℕ, ◌+◌, min, Bool, true, false, ◌&&◌, ◌||◌, not, Option, none, some, List, ◌==◌, leb, ltb,
  Outcome, ok, err, ◌>>=◌, ◌>>◌, require, reject_if, all, any,
}
use fiberpassbackend.Prelude.Store.{find_where}
use fiberpassbackend.Prelude.Documents.{given, create}
use fiberpassbackend.Money.{Unknown}
use fiberpassbackend.Funding.Domain.{is_some}
use fiberpassbackend.Charges.Records.{PaymentRail}
use fiberpassbackend.Metered.Records.{
  MeteredGrantStatus, MeteredExecutor, MeteredGrantRecord, DestinationKind,
  PaymentDestinationRecord, ScopeType, NwcConnectionRecord, BtcpayConnectionRecord, MeteredDb,
  MeteredError,
}
use fiberpassbackend.Metered.Amounts.{
  LimitError, assert_metered_grant_limits, exact_metered_amount, session_limit,
}
use fiberpassbackend.Metered.Usage.{
  MeteredActor, assert_owner_bound_session, is_owned_session, same_option,
}
use fiberpassbackend.Metered.Run.{same_rail}

pub record CreateMeteredGrantInput : Type 0 where
  pub session_id : ℕ
  pub recipient_id : ℕ
  pub destination_id : ℕ
  pub rail : PaymentRail
  pub network : ℕ
  pub asset_id : ℕ
  pub executor : MeteredExecutor
  pub connection_id : Option ℕ
  pub max_per_event_atomic : Unknown
  pub total_limit_atomic : Unknown
  pub rate_limit_count : ℕ
  pub rate_limit_window_seconds : ℕ
  pub immediate_threshold_atomic : Unknown
  pub max_batch_atomic : Unknown
  pub max_batch_events : ℕ
  pub settlement_delay_ms : ℕ
  pub expires_at : Option ℕ

-- The rail fits the executor, and every executor but Fiber has a connection.
unfoldable pub validate_rail : PaymentRail → MeteredExecutor → Outcome MeteredError (Unit {0})
validate_rail PaymentRail.lightning MeteredExecutor.nwc = ok tt
validate_rail PaymentRail.lightning MeteredExecutor.btcpay = ok tt
validate_rail PaymentRail.lightning MeteredExecutor.fiber = err MeteredError.executor_mismatch
validate_rail PaymentRail.fiber MeteredExecutor.fiber = ok tt
validate_rail PaymentRail.fiber _ = err MeteredError.executor_mismatch
validate_rail _ executor = err MeteredError.rail_unsupported

abbrev is_fiber : MeteredExecutor → Bool
is_fiber MeteredExecutor.fiber = true
is_fiber _ = false

unfoldable pub validate_grant_executor :
    PaymentRail → MeteredExecutor → Option ℕ → Outcome MeteredError (Unit {0})
unfolding validate_rail
validate_grant_executor rail executor connection_id = do
  validate_rail rail executor
  reject_if (not (is_fiber executor) && not (is_some connection_id))
      MeteredError.connection_required

abbrev connection_scope_matches : ScopeType → ℕ → MeteredActor → (session_id : ℕ) → Bool
connection_scope_matches ScopeType.wallet id actor session_id = id == actor.owner_wallet_id
connection_scope_matches ScopeType.pass id actor session_id = id == session_id
connection_scope_matches ScopeType.app id actor session_id = id == actor.app_id

abbrev includes : List ℕ → ℕ → Bool
includes l a = any (λ b. b == a) l

-- 'pay_invoice' and 'lookup_invoice'
abbrev pay_invoice : ℕ
pay_invoice = 0

abbrev lookup_invoice : ℕ
lookup_invoice = 1

abbrev is_nwc_of : CreateMeteredGrantInput → MeteredActor → NwcConnectionRecord → Bool
is_nwc_of input actor c =
    same_option c.connection_id input.connection_id
    && c.owner_wallet_id == actor.owner_wallet_id
    && c.is_active

unfoldable pub validate_nwc :
    MeteredActor
    → CreateMeteredGrantInput
    → (max_batch total_limit : ℕ) → NwcConnectionRecord
    → Outcome MeteredError (Unit {0})
validate_nwc actor input max_batch total_limit c = do
  require (connection_scope_matches c.scope_type c.scope_id actor input.session_id)
      MeteredError.connection_scope_invalid
  reject_if
      (not (c.network == input.network)
        || not (c.asset_id == input.asset_id)
        || not c.is_unattended
        || not c.allowance_enforced
        || not (is_some c.allowance_proof_event_id)
        || not (includes c.methods pay_invoice)
        || not (includes c.methods lookup_invoice))
      MeteredError.nwc_capability_invalid
  reject_if (ltb c.allowance_atomic (c.allowance_used_atomic + min max_batch total_limit))
      MeteredError.nwc_allowance_insufficient

abbrev is_btcpay_of : CreateMeteredGrantInput → MeteredActor → BtcpayConnectionRecord → Bool
is_btcpay_of input actor c =
    same_option c.connection_id input.connection_id
    && c.owner_wallet_id == actor.owner_wallet_id
    && c.is_active

abbrev pub is_grant_destination :
    CreateMeteredGrantInput → MeteredActor → PaymentDestinationRecord → Bool
is_grant_destination input actor d =
    d.destination_id == input.destination_id
    && d.recipient_id == input.recipient_id
    && d.owner_wallet_id == actor.owner_wallet_id
    && d.is_active
    && d.reusable

abbrev pub is_single_use : DestinationKind → Bool
is_single_use DestinationKind.invoice = true
is_single_use DestinationKind.address = true
is_single_use _ = false

abbrev pub limits_of : Outcome LimitError (Unit {0}) → Outcome MeteredError (Unit {0})
limits_of (ok u) = ok u
limits_of (err e) = err MeteredError.grant_limits_invalid

abbrev pub outlives : ℕ → Option ℕ → Bool
outlives t none = false
outlives t (some e) = ltb e t

pub record GrantLimits : Type 0 where
  pub max_per_event : ℕ
  pub total_limit : ℕ
  pub immediate_threshold : ℕ
  pub max_batch : ℕ

unfoldable pub grant_limits : CreateMeteredGrantInput → Outcome MeteredError GrantLimits
unfolding exact_metered_amount assert_metered_grant_limits
grant_limits input = do
  max_per_event ← exact_metered_amount input.max_per_event_atomic true
  total_limit ← exact_metered_amount input.total_limit_atomic true
  threshold ← exact_metered_amount input.immediate_threshold_atomic true
  max_batch ← exact_metered_amount input.max_batch_atomic true
  limits_of (assert_metered_grant_limits max_per_event total_limit threshold max_batch)
  ok (record {
    max_per_event = max_per_event;
    total_limit = total_limit;
    immediate_threshold = threshold;
    max_batch = max_batch;
  })

abbrev pub new_grant :
    MeteredActor
    → CreateMeteredGrantInput
    → GrantLimits
    → (grant_id expires_at : ℕ) → MeteredGrantRecord
new_grant actor input limits grant_id expires_at = record {
  grant_id = grant_id;
  owner_wallet_id = actor.owner_wallet_id;
  app_id = actor.app_id;
  session_id = input.session_id;
  recipient_id = input.recipient_id;
  destination_id = input.destination_id;
  rail = input.rail;
  network = input.network;
  asset_id = input.asset_id;
  executor = input.executor;
  connection_id = input.connection_id;
  status = MeteredGrantStatus.active;
  max_per_event_atomic = limits.max_per_event;
  total_limit_atomic = limits.total_limit;
  reserved_atomic = 0;
  spent_atomic = 0;
  rate_limit_count = input.rate_limit_count;
  rate_limit_window_seconds = input.rate_limit_window_seconds;
  immediate_threshold_atomic = limits.immediate_threshold;
  max_batch_atomic = limits.max_batch;
  max_batch_events = input.max_batch_events;
  settlement_delay_ms = input.settlement_delay_ms;
  expires_at = expires_at;
  revoked_at = none;
}

module _ (required_btcpay_permissions : (store_id : ℕ) → List ℕ) where
  unfoldable pub validate_executor_connection :
      MeteredExecutor
      → MeteredActor
      → CreateMeteredGrantInput
      → GrantLimits
      → MeteredDb
      → Outcome MeteredError (Unit {0})
  unfolding validate_nwc
  validate_executor_connection MeteredExecutor.fiber actor input limits db = ok tt
  validate_executor_connection MeteredExecutor.nwc actor input limits db = do
    c ←
        given (find_where (is_nwc_of input actor) db.nwc_connections)
          MeteredError.connection_scope_invalid
    validate_nwc actor input limits.max_batch limits.total_limit c
  validate_executor_connection MeteredExecutor.btcpay actor input limits db = do
    c ←
        given (find_where (is_btcpay_of input actor) db.btcpay_connections)
          MeteredError.connection_scope_invalid
    require (connection_scope_matches c.scope_type c.scope_id actor input.session_id)
        MeteredError.connection_scope_invalid
    reject_if
        (not (c.network == input.network)
          || not (all (includes c.permissions) (required_btcpay_permissions c.store_id)))
        MeteredError.btcpay_capability_invalid

  -- The checks on the session and the destination.
  unfoldable pub check_grant_targets :
      MeteredActor
      → CreateMeteredGrantInput
      → GrantLimits
      → (expires_at now : ℕ) → MeteredDb
      → Outcome MeteredError (Unit {0})
  unfolding assert_owner_bound_session
  check_grant_targets actor input limits expires_at now db = do
    session ←
        given (find_where (is_owned_session input.session_id actor.owner_wallet_id) db.sessions)
          MeteredError.session_not_found
    assert_owner_bound_session session actor now
    reject_if (outlives expires_at session.expiry_at) MeteredError.grant_expiry_invalid
    d ←
        given (find_where (is_grant_destination input actor) db.destinations)
          MeteredError.destination_not_found
    reject_if (is_single_use d.kind) MeteredError.reusable_destination_required
    require
        (same_rail d.rail input.rail && d.network == input.network && d.asset_id == input.asset_id)
        MeteredError.destination_mismatch
    require (session.asset_id == input.asset_id) MeteredError.session_asset_mismatch
    reject_if (ltb (session_limit session) limits.total_limit) MeteredError.grant_above_session

  unfoldable pub create_metered_grant :
      MeteredActor
      → CreateMeteredGrantInput
      → (grant_id now : ℕ) → MeteredDb
      → Outcome MeteredError (MeteredGrantRecord × MeteredDb)
  unfolding grant_limits validate_grant_executor check_grant_targets validate_executor_connection
  create_metered_grant actor input grant_id now db = do
    require actor.is_wallet MeteredError.grant_owner_required
    limits ← grant_limits input
    validate_grant_executor input.rail input.executor input.connection_id
    expires_at ← given input.expires_at MeteredError.grant_expiry_invalid
    reject_if (leb expires_at now) MeteredError.grant_expiry_invalid
    check_grant_targets actor input limits expires_at now db
    validate_executor_connection input.executor actor input limits db
    let grant = new_grant actor input limits grant_id expires_at
    grants ← create (λ g. g.grant_id == grant_id) MeteredError.duplicate_key grant db.grants
    ok (grant, record db { grants = grants })
