-- ===== src/Metered/Usage.antt =====
-- The acceptance of usage events (`acceptUsageEventOnce`, `submitUsageEvent` of
-- src/services/meteredPayment.service.ts). The SHA-256 digests of a batch's identity and of a request
-- are parameters; texts are taken after trimming.
use fiberpassbackend.Prelude.{
  ℕ, ◌+◌, Bool, true, false, ◌&&◌, ◌||◌, not, Option, none, some, List, [], ◌∷◌, ◌++◌, ◌==◌, leb,
  ltb, if◌then◌else◌, Outcome, ok, err, ◌>>=◌, ◌>>◌, require, reject_if,
}
use fiberpassbackend.Prelude.Store.{find_where}
use fiberpassbackend.Prelude.Documents.{given, save}
use fiberpassbackend.Money.{Unknown}
use fiberpassbackend.Charges.Records.{SessionStatus, PaymentRail}
use fiberpassbackend.Metered.Records.{
  MeteredGrantStatus, MeteredExecutor, MeteredGrantRecord, UsageEventRecord,
  MeteredRateCounterRecord, SessionRecord, MeteredDb, MeteredError,
}
use fiberpassbackend.Metered.Amounts.{
  RateWindow, next_rate_window, session_limit, session_spent, session_reserved,
  metered_grant_remaining, exceeds,
}

pub record MeteredActor : Type 0 where
  pub app_id : ℕ
  pub owner_wallet_id : ℕ
  pub is_wallet : Bool

pub record SubmitUsageEventInput : Type 0 where
  pub grant_id : ℕ
  pub external_id : ℕ
  pub amount_atomic : Unknown
  pub event_type : Option ℕ
  pub policy_reference : Option ℕ

-- What the fingerprint of a request covers.
pub record UsageRequest : Type 0 where
  pub app_id : ℕ
  pub grant_id : ℕ
  pub external_id : ℕ
  pub amount_atomic : ℕ
  pub event_type : ℕ
  pub policy_reference : ℕ

pub record MeteredBatchIdentity : Type 0 where
  pub owner_wallet_id : ℕ
  pub app_id : ℕ
  pub grant_id : ℕ
  pub session_id : ℕ
  pub recipient_id : ℕ
  pub destination_id : ℕ
  pub rail : PaymentRail
  pub network : ℕ
  pub asset_id : ℕ
  pub executor : MeteredExecutor
  pub connection_id : Option ℕ

-- The ids that a call draws at random.
pub record NewIds : Type 0 where
  pub batch_id : ℕ
  pub event_id : ℕ
  pub receipt_id : ℕ

-- 'Metered usage'
abbrev pub default_type : ℕ
default_type = 0

abbrev pub is_active_grant : MeteredGrantStatus → Bool
is_active_grant MeteredGrantStatus.active = true
is_active_grant _ = false

abbrev is_active_session : SessionStatus → Bool
is_active_session SessionStatus.active = true
is_active_session _ = false

abbrev pub same_option : ℕ → Option ℕ → Bool
same_option a none = false
same_option a (some b) = b == a

abbrev expired_at : ℕ → Option ℕ → Bool
expired_at now none = false
expired_at now (some t) = leb t now

unfoldable pub assert_owner_bound_session :
    SessionRecord → MeteredActor → (now : ℕ) → Outcome MeteredError (Unit {0})
assert_owner_bound_session s actor now =
    reject_if
      (not (is_active_session s.status)
        || not (same_option actor.app_id s.app_id)
        || not (same_option actor.owner_wallet_id s.app_grant_owner_wallet_id)
        || not s.may_create_charges
        || not s.auto_micro_charges
        || expired_at now s.expiry_at)
      MeteredError.app_grant_invalid

abbrev pub is_event_for : (app external : ℕ) → UsageEventRecord → Bool
is_event_for app external e = e.app_id == app && e.external_id == external

abbrev pub is_actor_grant : MeteredActor → ℕ → MeteredGrantRecord → Bool
is_actor_grant actor id g =
    g.grant_id == id && g.app_id == actor.app_id && g.owner_wallet_id == actor.owner_wallet_id

abbrev pub is_owned_session : (id owner : ℕ) → SessionRecord → Bool
is_owned_session id owner s = s.public_id == id && s.owner_wallet_id == owner

-- An error aborts the transaction: what it has written is rolled back.
abbrev pub abort : {A : Type 0} → MeteredDb → MeteredError → Outcome MeteredError A
abort written e = err e

unfoldable pub reject_expired :
    MeteredActor → MeteredGrantRecord → (now : ℕ) → MeteredDb → Outcome MeteredError (Unit {0})
reject_expired actor grant now db =
    if leb grant.expires_at now
    then abort
        (record db {
          grants =
              save (is_actor_grant actor grant.grant_id)
                (record grant { status = MeteredGrantStatus.expired }) db.grants;
        })
        MeteredError.grant_expired
    else ok tt

-- The grant and the session, with what the session then holds in reserve.
unfoldable pub check_usage :
    MeteredActor
    → (grant_id amount now : ℕ) → MeteredDb
    → Outcome MeteredError (MeteredGrantRecord × SessionRecord)
unfolding reject_expired assert_owner_bound_session
check_usage actor grant_id amount now db = do
  grant ← given (find_where (is_actor_grant actor grant_id) db.grants) MeteredError.grant_not_found
  require (is_active_grant grant.status) MeteredError.grant_inactive
  reject_expired actor grant now db
  reject_if (ltb grant.max_per_event_atomic amount) MeteredError.per_event_limit_exceeded
  reject_if (exceeds amount (metered_grant_remaining grant)) MeteredError.grant_limit_exceeded
  session ←
      given (find_where (is_owned_session grant.session_id actor.owner_wallet_id) db.sessions)
        MeteredError.session_not_found
  assert_owner_bound_session session actor now
  reject_if
      (ltb (session_limit session) (session_spent session + (session_reserved session + amount)))
      MeteredError.session_limit_exceeded
  ok (grant, session)

abbrev pub is_counter : (grant start : ℕ) → MeteredRateCounterRecord → Bool
is_counter grant start c = c.grant_id == grant && c.window_start == start

abbrev pub counted : MeteredRateCounterRecord → MeteredRateCounterRecord
counted c = record c { count = c.count + 1 }

abbrev pub new_counter : ℕ → RateWindow → MeteredRateCounterRecord
new_counter grant w = record {
  grant_id = grant;
  window_start = w.start;
  window_end = w.end;
  count = 0;
}

-- A counter is created where the window has none, and then counts the event.
unfoldable pub count_from :
    Option MeteredRateCounterRecord
    → MeteredGrantRecord
    → RateWindow
    → List MeteredRateCounterRecord
    → Outcome MeteredError (List MeteredRateCounterRecord)
count_from (some c) grant w counters = do
  reject_if (leb grant.rate_limit_count c.count) MeteredError.rate_limit_exceeded
  ok (save (is_counter grant.grant_id w.start) (counted c) counters)
count_from none grant w counters =
    let c = new_counter grant.grant_id w in
    do
      reject_if (leb grant.rate_limit_count c.count) MeteredError.rate_limit_exceeded
      ok (counters ++ (counted c ∷ []))

unfoldable pub count_event :
    MeteredGrantRecord
    → (now : ℕ) → List MeteredRateCounterRecord
    → Outcome MeteredError (List MeteredRateCounterRecord)
unfolding next_rate_window count_from
count_event grant now counters =
    let w = next_rate_window now grant.rate_limit_window_seconds in
    count_from (find_where (is_counter grant.grant_id w.start) counters) grant w counters
