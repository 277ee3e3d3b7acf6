-- ===== src/Workers/Exclusion.antt =====
-- Leases and other owners (src/services/workerRuntime.service.ts).
use fiberpassbackend.Prelude.{
  ℕ, ◌+◌, ◌-◌, ◌≤◌, ◌<◌, ◌≡◌, refl, sym, ap, Bool, true, false, not, ◌&&◌, Option, none, some, List,
  [], ◌∷◌, ◌++◌, any, all, arith, ◌==◌, leb, ltb, if◌then◌else◌, Bool-cases, inl, inr, ==_iff,
}
use fiberpassbackend.Prelude.Store.{total, update_where, update_where-eq-some, find_where}
use fiberpassbackend.Prelude.Documents.{find-weight, total-append}
use fiberpassbackend.Workers.Leases.{
  WorkerLeaseRecord, AcquireInput, has_key, can_acquire, acquire, expiry, new_lease, upsert,
  acquire_worker_lease, is_held_by, expire, update_one, release_worker_lease,
}

-- 1 for a document of the key, and for the owner's lease of it until a time.
abbrev pub of_key : ℕ → WorkerLeaseRecord → ℕ
of_key key l = if has_key key l then 1 else 0

abbrev holding : (key owner until : ℕ) → WorkerLeaseRecord → ℕ
holding key owner until l = if is_held_by key owner l && leb until l.expires_at then 1 else 0

-- A document of the key that is not that lease.
abbrev rest : (key owner until : ℕ) → WorkerLeaseRecord → ℕ
rest key owner until l = of_key key l - holding key owner until l

record Held (key owner until : ℕ) (leases : List WorkerLeaseRecord) : Type 0 where
  one : total (of_key key) leases ≤ 1
  lease : 1 ≤ total (holding key owner until) leases

total-rest :
    (key owner until : ℕ) (leases : List WorkerLeaseRecord)
    → total (rest key owner until) leases + total (holding key owner until) leases
      ≡ total (of_key key) leases
total-rest key owner until [] = refl
total-rest key owner until (l ∷ leases) = ground (arith, total-rest key owner until leases)

-- While the lease is held, a document that an update finds is of another key or is the lease.
found-rest :
    (key owner until : ℕ) (p : WorkerLeaseRecord → Bool) (leases : List WorkerLeaseRecord)
    {l : WorkerLeaseRecord}
    → Held key owner until leases
    → find_where p leases ≡ some l
    → rest key owner until l ≡ 0
found-rest key owner until p leases h f = omega (
  arith,
  find-weight (rest key owner until) p leases f,
  total-rest key owner until leases,
  h.one,
  h.lease,
)

any-key :
    (key : ℕ) (leases : List WorkerLeaseRecord)
    → any (has_key key) leases ≡ false
    → total (of_key key) leases ≡ 0
any-key key [] h = refl
any-key key (l ∷ leases) h = ground (arith, any-key key leases)

-- What another worker does: an acquisition before the lease expires or a release, by another owner or of
-- another key.
pub data Step : Type 0 where
  acquired : AcquireInput → Step
  released : (lease_key owner_id : ℕ) → Step

abbrev pub is_other : (key owner until : ℕ) → Step → Bool
is_other key owner until (Step.acquired input) =
    not (input.lease_key == key && input.owner_id == owner) && ltb input.now until
is_other key owner until (Step.released k o) = not (k == key && o == owner)

unfoldable pub perform : Step → List WorkerLeaseRecord → List WorkerLeaseRecord
unfolding acquire_worker_lease release_worker_lease
perform (Step.acquired input) leases = (acquire_worker_lease input leases).1
perform (Step.released key owner) leases = release_worker_lease key owner leases

unfoldable pub perform_all : List Step → List WorkerLeaseRecord → List WorkerLeaseRecord
unfolding perform
perform_all [] leases = leases
perform_all (s ∷ steps) leases = perform_all steps (perform s leases)

-- While the lease is held there is a document of its key, so one that is inserted is of another key.
fresh-other :
    (key owner until k : ℕ) (l : WorkerLeaseRecord) (leases : List WorkerLeaseRecord)
    → Held key owner until leases
    → total (of_key k) leases ≡ 0
    → l.lease_key ≡ k
    → of_key key l ≡ 0
fresh-other key owner until k l leases h empty its = elim (Bool-cases (k == key)) [
  | inl same ↦
      let e : k ≡ key = (==_iff k key).0 same in
      let none_there : total (of_key key) leases ≡ 0 = rw (sym e) empty in
      ground (arith, total-rest key owner until leases, h.lease)
  | inr different ↦ ground (arith, its)
]

updated-Held :
    (key owner until : ℕ) (p : WorkerLeaseRecord → Bool) (f : WorkerLeaseRecord → WorkerLeaseRecord)
    (leases leases' : List WorkerLeaseRecord) (l : WorkerLeaseRecord)
    → update_where p f leases ≡ some (l, leases')
    → ((x : WorkerLeaseRecord) → of_key key (f x) ≡ of_key key x)
    → ((x : WorkerLeaseRecord)
        → p x ≡ true
        → rest key owner until x ≡ 0
        → holding key owner until (f x) ≡ holding key owner until x)
    → Held key owner until leases
    → Held key owner until leases'
updated-Held key owner until p f leases leases' l e keeps same h =
    let u = update_where-eq-some p f leases e in
    let free = found-rest key owner until p leases h u.first in
    record {
      one = omega (arith, u.sums (of_key key), keeps u.before, h.one);
      lease = omega (arith, u.sums (holding key owner until), same u.before u.passes free, h.lease);
    }

acquired-Held :
    (key owner until : ℕ) (input : AcquireInput) (leases : List WorkerLeaseRecord)
    (o : Option (WorkerLeaseRecord × List WorkerLeaseRecord))
    → update_where (can_acquire input) (acquire input) leases ≡ o
    → is_other key owner until (Step.acquired input) ≡ true
    → Held key owner until leases
    → Held key owner until (upsert o input leases).1
unfolding upsert
acquired-Held key owner until input leases (some (l, leases')) e other h =
    updated-Held key owner until (can_acquire input) (acquire input) leases leases' l e (λ x. refl)
      (λ x passes free. ground arith) h
acquired-Held key owner until input leases none e other h =
    elim (Bool-cases (any (has_key input.lease_key) leases)) [
      | inl yes_there ↦ rw yes_there h
      | inr not_there ↦
          let empty = any-key input.lease_key leases not_there in
          let other_key : of_key key (new_lease input) ≡ 0 =
            fresh-other key owner until input.lease_key (new_lease input) leases h empty refl in
          rw not_there (record {
            one =
                omega (arith, total-append (of_key key) leases (new_lease input), other_key, h.one);
            lease =
                omega
                  (arith, total-append (holding key owner until) leases (new_lease input), h.lease);
          })
    ]

released-Held :
    (key owner until k r : ℕ) (leases : List WorkerLeaseRecord)
    (o : Option (WorkerLeaseRecord × List WorkerLeaseRecord))
    → update_where (is_held_by k r) expire leases ≡ o
    → is_other key owner until (Step.released k r) ≡ true
    → Held key owner until leases
    → Held key owner until (update_one o leases)
released-Held key owner until k r leases none e other h = h
released-Held key owner until k r leases (some (l, leases')) e other h =
    updated-Held key owner until (is_held_by k r) expire leases leases' l e (λ x. refl)
      (λ x passes free. ground arith) h

perform-Held :
    (key owner until : ℕ) (s : Step) (leases : List WorkerLeaseRecord)
    → is_other key owner until s ≡ true
    → Held key owner until leases
    → Held key owner until (perform s leases)
unfolding perform acquire_worker_lease release_worker_lease
perform-Held key owner until (Step.acquired input) leases other h =
    acquired-Held key owner until input leases
      (update_where (can_acquire input) (acquire input) leases) refl other h
perform-Held key owner until (Step.released k o) leases other h =
    released-Held key owner until k o leases (update_where (is_held_by k o) expire leases) refl
      other h

perform_all-Held :
    (key owner until : ℕ) (steps : List Step) (leases : List WorkerLeaseRecord)
    → all (is_other key owner until) steps ≡ true
    → Held key owner until leases
    → Held key owner until (perform_all steps leases)
unfolding perform_all
perform_all-Held key owner until [] leases other h = h
perform_all-Held key owner until (s ∷ steps) leases other h =
    perform_all-Held key owner until steps (perform s leases) (ground arith)
      (perform-Held key owner until s leases (ground arith) h)

-- An acquisition that succeeds leaves its owner with the lease.
upsert-Held :
    (input : AcquireInput) (leases leases' : List WorkerLeaseRecord)
    (o : Option (WorkerLeaseRecord × List WorkerLeaseRecord))
    → update_where (can_acquire input) (acquire input) leases ≡ o
    → total (of_key input.lease_key) leases ≤ 1
    → upsert o input leases ≡ (true, leases')
    → Held input.lease_key input.owner_id (expiry input) leases'
unfolding upsert
upsert-Held input leases leases' (some (l, m)) e one h =
    let u = update_where-eq-some (can_acquire input) (acquire input) leases e in
    let same : m ≡ leases' = ap (λ (x : Bool × List WorkerLeaseRecord). x.1) h in
    let w = holding input.lease_key input.owner_id (expiry input) in
    let now_held : w (acquire input u.before) ≡ 1 = ground (arith, u.passes) in
    let before = find-weight w (can_acquire input) leases u.first in
    rw (sym same) (record {
      one = omega (arith, u.sums (of_key input.lease_key), one);
      lease = omega (arith, u.sums w, now_held, before);
    })
upsert-Held input leases leases' none e one h =
    elim (Bool-cases (any (has_key input.lease_key) leases)) [
      | inl yes_there ↦
          let refused : (false, leases) ≡ (true, leases') = rw yes_there at h in
          let never : false ≡ true = ap (λ (x : Bool × List WorkerLeaseRecord). x.0) refused in cc
      | inr not_there ↦
          let empty = any-key input.lease_key leases not_there in
          let made : (true, leases ++ (new_lease input ∷ [])) ≡ (true, leases') =
            rw not_there at h in
          let same = ap (λ (x : Bool × List WorkerLeaseRecord). x.1) made in
          let w = holding input.lease_key input.owner_id (expiry input) in
          let now_held : w (new_lease input) ≡ 1 = ground arith in
          let of_it : of_key input.lease_key (new_lease input) ≡ 1 = ground arith in
          rw (sym same) (record {
            one = omega (
              arith,
              total-append (of_key input.lease_key) leases (new_lease input),
              empty,
              of_it,
            );
            lease = omega (arith, total-append w leases (new_lease input), now_held);
          })
    ]

-- While a lease is held, an acquisition by another owner fails.
rival-fails :
    (key owner until : ℕ) (rival : AcquireInput) (leases : List WorkerLeaseRecord)
    (o : Option (WorkerLeaseRecord × List WorkerLeaseRecord))
    → update_where (can_acquire rival) (acquire rival) leases ≡ o
    → rival.lease_key ≡ key
    → (rival.owner_id == owner) ≡ false
    → rival.now < until
    → Held key owner until leases
    → (upsert o rival leases).0 ≡ false
unfolding upsert
rival-fails key owner until rival leases (some (l, m)) e same_key other early h =
    let u = update_where-eq-some (can_acquire rival) (acquire rival) leases e in
    let free = found-rest key owner until (can_acquire rival) leases h u.first in
    let passes = u.passes in ground arith
rival-fails key owner until rival leases none e same_key other early h =
    elim (Bool-cases (any (has_key rival.lease_key) leases)) [
      | inl yes_there ↦ rw yes_there refl
      | inr not_there ↦
          let empty = any-key rival.lease_key leases not_there in
          let none_there : total (of_key key) leases ≡ 0 = rw (sym same_key) empty in
          ground (arith, total-rest key owner until leases, h.lease)
    ]

-- When a worker has acquired a lease of which there was at most one document, then whatever other owners
-- do before it expires, and whatever anyone does with other leases, an acquisition of it by another
-- owner before that time fails.
pub acquire_worker_lease-excludes :
    (input rival : AcquireInput) (leases leases' : List WorkerLeaseRecord) (steps : List Step)
    → total (of_key input.lease_key) leases ≤ 1
    → acquire_worker_lease input leases ≡ (true, leases')
    → all (is_other input.lease_key input.owner_id (expiry input)) steps ≡ true
    → rival.lease_key ≡ input.lease_key
    → (rival.owner_id == input.owner_id) ≡ false
    → rival.now < expiry input
    → (acquire_worker_lease rival (perform_all steps leases')).0 ≡ false
unfolding acquire_worker_lease
acquire_worker_lease-excludes input rival leases leases' steps one h others same other early =
    let held =
      upsert-Held input leases leases' (update_where (can_acquire input) (acquire input) leases)
        refl one h in
    rival-fails input.lease_key input.owner_id (expiry input) rival (perform_all steps leases')
      (update_where (can_acquire rival) (acquire rival) (perform_all steps leases')) refl same other
      early
      (perform_all-Held input.lease_key input.owner_id (expiry input) steps leases' others held)
