-- ===== src/Metered/Release.antt =====
-- The release of a batch's reservation (`releaseMeteredBatchReservation` of
-- src/services/meteredPayment.service.ts) and the revocation of a grant (`revokeMeteredGrant`).
use fiberpassbackend.Prelude.{
  ℕ, ◌-◌, Bool, true, false, ◌&&◌, ◌||◌, not, Option, none, some, List, [], ◌∷◌, ◌==◌, ltb,
  if◌then◌else◌, Outcome, ok, err, ◌>>=◌, ◌>>◌, reject_if,
}
use fiberpassbackend.Prelude.Store.{find_where, total, update_where}
use fiberpassbackend.Prelude.Documents.{given, save, update_many, filter}
use fiberpassbackend.Funding.Domain.{is_some}
use fiberpassbackend.Charges.Records.{
  Attempt, ChargeAttemptStatus, ChargeReserveStatus, ChargeProviderStatus,
}
use fiberpassbackend.Charges.Execution.{is_reserved}
use fiberpassbackend.Metered.Records.{
  MeteredGrantStatus, UsageEventStatus, MeteredBatchStatus, MeteredGrantRecord, UsageEventRecord,
  MeteredBatchRecord, SessionRecord, MeteredDb, MeteredError,
}
use fiberpassbackend.Metered.Amounts.{session_reserved, set_session_reserved}
use fiberpassbackend.Metered.Usage.{MeteredActor, is_active_grant, is_actor_grant}
use fiberpassbackend.Metered.Batches.{has_batch_id}

abbrev pub is_open : UsageEventStatus → Bool
is_open UsageEventStatus.reserved = true
is_open UsageEventStatus.settling = true
is_open _ = false

abbrev pub is_open_in : ℕ → UsageEventRecord → Bool
is_open_in batch e = e.batch_id == batch && is_open e.status

abbrev pub amount_of : UsageEventRecord → ℕ
amount_of e = e.amount_atomic

abbrev pub open_events : ℕ → MeteredDb → List UsageEventRecord
open_events batch db = filter (is_open_in batch) db.events

abbrev pub has_grant_id : ℕ → MeteredGrantRecord → Bool
has_grant_id id g = g.grant_id == id

abbrev pub has_session_id : ℕ → SessionRecord → Bool
has_session_id id s = s.public_id == id

abbrev pub is_final_batch : MeteredBatchStatus → Bool
is_final_batch MeteredBatchStatus.succeeded = true
is_final_batch MeteredBatchStatus.released = true
is_final_batch MeteredBatchStatus.failed = true
is_final_batch _ = false

-- `eventIds.includes(attemptId)`
abbrev pub contains_event : ℕ → List UsageEventRecord → Bool
contains_event id [] = false
contains_event id (e ∷ l) = e.event_id == id || contains_event id l

abbrev pub is_held_for : List UsageEventRecord → Attempt → Bool
is_held_for events a = contains_event a.attempt_id events && is_reserved a.reserve_status

-- The status that a release leaves: 'released' or 'failed'.
pub data FinalStatus : Type 0 where
  released failed : FinalStatus

abbrev pub event_status_of : FinalStatus → UsageEventStatus
event_status_of FinalStatus.released = UsageEventStatus.released
event_status_of FinalStatus.failed = UsageEventStatus.failed

abbrev batch_status_of : FinalStatus → MeteredBatchStatus
batch_status_of FinalStatus.released = MeteredBatchStatus.released
batch_status_of FinalStatus.failed = MeteredBatchStatus.failed

abbrev pub release_event : FinalStatus → (code now : ℕ) → UsageEventRecord → UsageEventRecord
release_event final code now e = record e {
  status = event_status_of final;
  released_at = some now;
  failure_code = some code;
}

abbrev pub release_attempt : (code now : ℕ) → Attempt → Attempt
release_attempt code now a = record a {
  status = ChargeAttemptStatus.failed;
  reserve_status = ChargeReserveStatus.released;
  provider_status = ChargeProviderStatus.failed;
  failure_code = some code;
  finalized_at = some now;
}

abbrev pub release_batch : FinalStatus → (code now : ℕ) → MeteredBatchRecord → MeteredBatchRecord
release_batch final code now b = record b {
  status = batch_status_of final;
  accepting = false;
  completed_at = some now;
  failure_code = some code;
  lease_expires_at = some now;
  lease_id = none;
}

-- `eventId` is unique, so the update by the ids of the open events is one of the open events.
unfoldable pub release_open :
    MeteredBatchRecord → FinalStatus → (code now : ℕ) → MeteredDb → Outcome MeteredError MeteredDb
unfolding set_session_reserved
release_open b final code now db = do
  let events = open_events b.batch_id db
  let amount = total amount_of events
  grant ← given (find_where (has_grant_id b.grant_id) db.grants) MeteredError.owner_state_missing
  session ←
      given (find_where (has_session_id b.session_id) db.sessions) MeteredError.owner_state_missing
  reject_if (ltb grant.reserved_atomic amount || ltb (session_reserved session) amount)
      MeteredError.counters_inconsistent
  session' ← set_session_reserved (session_reserved session - amount) session
  ok (record db {
    grants =
        save (has_grant_id b.grant_id)
          (record grant { reserved_atomic = grant.reserved_atomic - amount }) db.grants;
    sessions = save (has_session_id b.session_id) session' db.sessions;
    events = update_many (is_open_in b.batch_id) (release_event final code now) db.events;
    attempts = update_many (is_held_for events) (release_attempt code now) db.attempts;
    batches = save (has_batch_id b.batch_id) (release_batch final code now b) db.batches;
  })

unfoldable pub release_found :
    Option MeteredBatchRecord
    → FinalStatus
    → (code now : ℕ) → MeteredDb
    → Outcome MeteredError MeteredDb
unfolding release_open
release_found none final code now db = ok db
release_found (some b) final code now db =
    if is_final_batch b.status then ok db else release_open b final code now db

unfoldable pub release_metered_batch_reservation :
    (batch_id : ℕ) → FinalStatus → (code now : ℕ) → MeteredDb → Outcome MeteredError MeteredDb
unfolding release_found
release_metered_batch_reservation batch_id final code now db =
    release_found (find_where (has_batch_id batch_id) db.batches) final code now db

-- The batches that a revocation releases: not submitted, and still waiting.
abbrev is_waiting : MeteredBatchStatus → Bool
is_waiting MeteredBatchStatus.collecting = true
is_waiting MeteredBatchStatus.queued = true
is_waiting MeteredBatchStatus.retrying = true
is_waiting _ = false

abbrev pub is_releasable : ℕ → MeteredBatchRecord → Bool
is_releasable grant b = b.grant_id == grant && not (is_some b.submitted_at) && is_waiting b.status

-- 'METERED_GRANT_REVOKED'
abbrev pub revoked_code : ℕ
revoked_code = 1

-- Each release is a transaction of its own: the first that throws ends the loop, and what the earlier
-- ones have written stands.
unfoldable pub release_each :
    List MeteredBatchRecord → (now : ℕ) → MeteredDb → Outcome MeteredError (Unit {0}) × MeteredDb
unfolding release_metered_batch_reservation
release_each [] now db = (ok tt, db)
release_each (b ∷ l) now db =
    elim (release_metered_batch_reservation b.batch_id FinalStatus.released revoked_code now db) [
      | ok db' ↦ release_each l now db'
      | err e ↦ (err e, db)
    ]

abbrev pub can_revoke : MeteredActor → ℕ → MeteredGrantRecord → Bool
can_revoke actor id g = is_actor_grant actor id g && is_active_grant g.status

abbrev pub revoke : (now : ℕ) → MeteredGrantRecord → MeteredGrantRecord
revoke now g = record g { status = MeteredGrantStatus.revoked; revoked_at = some now }

unfoldable pub revoke_found :
    Option (MeteredGrantRecord × List MeteredGrantRecord)
    → MeteredActor
    → (grant_id now : ℕ) → MeteredDb
    → Outcome MeteredError (Unit {0}) × MeteredDb
unfolding release_each
revoke_found (some (g, grants)) actor grant_id now db =
    release_each (filter (is_releasable grant_id) db.batches) now (record db { grants = grants })
revoke_found none actor grant_id now db =
    if is_some (find_where (is_actor_grant actor grant_id) db.grants)
    then (ok tt, db)
    else (err MeteredError.grant_not_found, db)

unfoldable pub revoke_metered_grant :
    MeteredActor → (grant_id now : ℕ) → MeteredDb → Outcome MeteredError (Unit {0}) × MeteredDb
unfolding revoke_found
revoke_metered_grant actor grant_id now db =
    if not actor.is_wallet
    then (err MeteredError.grant_owner_required, db)
    else revoke_found (update_where (can_revoke actor grant_id) (revoke now) db.grants) actor
        grant_id now db
