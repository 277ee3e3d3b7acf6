-- ===== src/Workers/Leases.antt =====
-- `acquireWorkerLease` and `releaseWorkerLease` of src/services/workerRuntime.service.ts. Keys and owners
-- are numbers.
use fiberpassbackend.Prelude.{
  ℕ, ◌+◌, max, Bool, true, false, ◌&&◌, ◌||◌, Option, none, some, List, [], ◌∷◌, ◌++◌, any, ◌==◌,
  leb, if◌then◌else◌,
}
use fiberpassbackend.Prelude.Store.{update_where}

pub record WorkerLeaseRecord : Type 0 where
  pub lease_key : ℕ
  pub owner_id : ℕ
  pub acquired_at : ℕ
  pub expires_at : ℕ

pub record AcquireInput : Type 0 where
  pub lease_key : ℕ
  pub owner_id : ℕ
  pub ttl_ms : ℕ
  pub now : ℕ

abbrev pub has_key : ℕ → WorkerLeaseRecord → Bool
has_key key l = l.lease_key == key

abbrev pub can_acquire : AcquireInput → WorkerLeaseRecord → Bool
can_acquire input l =
    has_key input.lease_key l && (l.owner_id == input.owner_id || leb l.expires_at input.now)

abbrev pub expiry : AcquireInput → ℕ
expiry input = input.now + max 1000 input.ttl_ms

abbrev pub acquire : AcquireInput → WorkerLeaseRecord → WorkerLeaseRecord
acquire input l = record l {
  owner_id = input.owner_id;
  acquired_at = input.now;
  expires_at = expiry input;
}

abbrev pub new_lease : AcquireInput → WorkerLeaseRecord
new_lease input = record {
  lease_key = input.lease_key;
  owner_id = input.owner_id;
  acquired_at = input.now;
  expires_at = expiry input;
}

-- The upsert: where no document passes the filter one is inserted, which the unique key rejects when the
-- lease is held.
unfoldable pub upsert :
    Option (WorkerLeaseRecord × List WorkerLeaseRecord)
    → AcquireInput
    → List WorkerLeaseRecord
    → Bool × List WorkerLeaseRecord
upsert (some (lease, leases')) input leases = (lease.owner_id == input.owner_id, leases')
upsert none input leases =
    if any (has_key input.lease_key) leases
    then (false, leases)
    else (true, leases ++ (new_lease input ∷ []))

unfoldable pub acquire_worker_lease :
    AcquireInput → List WorkerLeaseRecord → Bool × List WorkerLeaseRecord
unfolding upsert
acquire_worker_lease input leases =
    upsert (update_where (can_acquire input) (acquire input) leases) input leases

abbrev pub is_held_by : (key owner : ℕ) → WorkerLeaseRecord → Bool
is_held_by key owner l = has_key key l && l.owner_id == owner

abbrev pub expire : WorkerLeaseRecord → WorkerLeaseRecord
expire l = record l { expires_at = 0 }

abbrev pub update_one :
    Option (WorkerLeaseRecord × List WorkerLeaseRecord)
    → List WorkerLeaseRecord
    → List WorkerLeaseRecord
update_one none leases = leases
update_one (some (l, leases')) leases = leases'

unfoldable pub release_worker_lease :
    (lease_key owner_id : ℕ) → List WorkerLeaseRecord → List WorkerLeaseRecord
release_worker_lease lease_key owner_id leases =
    update_one (update_where (is_held_by lease_key owner_id) expire leases) leases
