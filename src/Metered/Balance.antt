-- ===== src/Metered/Balance.antt =====
-- What grants hold in reserve (src/services/meteredPayment.service.ts), and their open usage events.
use fiberpassbackend.Prelude.{
  ℕ, ◌+◌, ◌-◌, ◌≤◌, ◌≡◌, refl, sym, Bool, false, ◌&&◌, some, List, [], ◌∷◌, arith, ◌==◌,
  if◌then◌else◌, Bool-cases, inl, inr, subst,
}
use fiberpassbackend.Prelude.Store.{total}
use fiberpassbackend.Prelude.Documents.{only, update_many, total-update_many, total-filter, filter}
use fiberpassbackend.Metered.Records.{
  MeteredGrantRecord, UsageEventRecord, MeteredBatchRecord, SessionRecord, MeteredDb,
}
use fiberpassbackend.Metered.Amounts.{
  session_limit, session_spent, session_reserved, session_atomic,
}
use fiberpassbackend.Metered.Release.{is_open, is_open_in, amount_of}
use fiberpassbackend.Metered.Linked.{batch_grant, is_batch, stray}

abbrev pub booked : ℕ → MeteredGrantRecord → ℕ
booked grant g = if g.grant_id == grant then g.reserved_atomic else 0

abbrev pub held : ℕ → UsageEventRecord → ℕ
held grant e = if e.grant_id == grant && is_open e.status then e.amount_atomic else 0

-- By how much a grant has spent and reserved more than its total.
abbrev pub excess : MeteredGrantRecord → ℕ
excess g = g.spent_atomic + g.reserved_atomic - g.total_limit_atomic

-- The same of a session and its limit.
abbrev pub overdraft : SessionRecord → ℕ
overdraft s = session_spent s + session_reserved s - session_limit s

-- A session with another reserve.
pub overdraft-reserve :
    (s : SessionRecord) (value : ℕ)
    → overdraft (record s { reserved_atomic = some value; reserved_minor = some value })
      ≡ session_spent s + value - session_limit s
unfolding session_atomic
overdraft-reserve s value = refl

pub record Held (db : MeteredDb) : Type 0 where
  pub per_grant : (grant : ℕ) → total (booked grant) db.grants ≡ total (held grant) db.events
  pub within_grants : total excess db.grants ≡ 0
  pub within_sessions : total overdraft db.sessions ≡ 0
  pub at_home : total (stray db.batches) db.events ≡ 0
  pub unique : (i : ℕ) → total (is_batch i) db.batches ≤ 1

-- The open events of a batch are events of the batch's grant.
batch_share :
    (batch grant i : ℕ) (batches : List MeteredBatchRecord) (events : List UsageEventRecord)
    → batch_grant batch batches ≡ some grant
    → total (stray batches) events ≡ 0
    → total (only (is_open_in batch) (held i)) events
      ≡ (if grant == i then total (only (is_open_in batch) amount_of) events else 0)
batch_share batch grant i batches [] b s = ground arith
batch_share batch grant i batches (e ∷ l) b s =
    let rest = batch_share batch grant i batches l b (omega (arith, s)) in
    elim (Bool-cases (is_open_in batch e)) [
      | inl yes_in ↦
          let its_batch : e.batch_id ≡ batch = ground arith in
          let found : batch_grant e.batch_id batches ≡ some grant =
            subst (λ k. batch_grant k batches ≡ some grant) (sym its_batch) b in
          let its_grant : grant ≡ e.grant_id = ground arith in ground arith
      | inr not_in ↦ ground arith
    ]

total-none :
    (w : UsageEventRecord → ℕ) (l : List UsageEventRecord)
    → ((e : UsageEventRecord) → w e ≡ 0)
    → total w l ≡ 0
total-none w [] z = refl
total-none w (e ∷ l) z = omega (arith, z e, total-none w l z)

-- Closing the open events of a batch takes their amount from what its grant holds.
pub close-held :
    (batch grant i : ℕ) (change : UsageEventRecord → UsageEventRecord)
    (batches : List MeteredBatchRecord) (events : List UsageEventRecord)
    → batch_grant batch batches ≡ some grant
    → total (stray batches) events ≡ 0
    → ((e : UsageEventRecord) → is_open (change e).status ≡ false)
    → total (held i) (update_many (is_open_in batch) change events)
        + (if grant == i then total amount_of (filter (is_open_in batch) events) else 0)
      ≡ total (held i) events
close-held batch grant i change batches events b s closed =
    let nothing : total (only (is_open_in batch) (λ e. held i (change e))) events ≡ 0 =
      total-none (only (is_open_in batch) (λ e. held i (change e))) events
        (λ e. ground (arith, closed e)) in
    let share = batch_share batch grant i batches events b s in
    let moved = total-update_many (held i) (is_open_in batch) change events in
    ground (arith, total-filter amount_of (is_open_in batch) events)

-- A change of events that keeps their batch and grant strays nowhere.
pub update-stray :
    (p : UsageEventRecord → Bool) (change : UsageEventRecord → UsageEventRecord)
    (batches : List MeteredBatchRecord) (events : List UsageEventRecord)
    → ((e : UsageEventRecord) → stray batches (change e) ≡ stray batches e)
    → total (stray batches) (update_many p change events) ≡ total (stray batches) events
update-stray p change batches [] same = refl
update-stray p change batches (e ∷ l) same =
    ground (arith, same e, update-stray p change batches l same)
