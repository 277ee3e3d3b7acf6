-- ===== src/Funding/Release.antt =====
-- `releaseFundingAllocation` of src/services/fundingSource.service.ts releases an allocation once.
use fiberpassbackend.Prelude.{
  ℕ, ◌+◌, ◌-◌, ◌≡◌, sym, ap, ◌∙◌, Option, some, arith, ltb, ◌==◌, Outcome, ok, >>=-eq-ok,
  reject_if-bind, if◌then◌else◌, Option-cases, Bool-cases, inl, inr,
}
use fiberpassbackend.Prelude.Store.{key-find, find-put}
use fiberpassbackend.Funding.Domain.{FundingError, released, allocation_remaining_minor}
use fiberpassbackend.Funding.Records.{Allocation, FundingDb}
use fiberpassbackend.Funding.Sources.{find_source}
use fiberpassbackend.Funding.Allocations.{
  find_allocation, is_active, release_allocation, release_funding_allocation, found,
  unreserve_source, write_back,
}
use fiberpassbackend.Funding.Operations.{write_back-eq-ok}
use fiberpassbackend.Funding.Refresh.{remaining-eq-ok}

-- The allocation and the amount after a release.
release_allocation-State :
    (a : Allocation) (now : ℕ) (db : FundingDb) {n : ℕ} {db' : FundingDb}
    → release_allocation a now db ≡ ok (n, db')
    → (n ≡ a.authorized_minor - a.spent_minor - a.released_minor)
      × (b : Allocation) × (b.state ≡ released)
      × (b.session_id ≡ a.session_id)
      × (find_allocation a.session_id db' ≡ some b)
unfolding release_allocation
release_allocation-State a now db {n} {db'} h =
    let (rem, rem_ok, h2) =
      >>=-eq-ok (allocation_remaining_minor a.authorized_minor a.spent_minor a.released_minor) _
        h in
    let (s, fs, h4) =
      >>=-eq-ok (found (find_source a.source_id db) FundingError.source_missing) _ h2 in
    let (s1, debit, h5) = >>=-eq-ok (unreserve_source s.mode rem s) _ h4 in
    let (auth, h6) =
      reject_if-bind (ltb s1.authorized_minor rem) FundingError.authorization_short _ h5 in
    let (d, saved, h7) =
      >>=-eq-ok
        (write_back now (λ a. a)
          (record a {
            released_minor = a.released_minor + rem;
            state = released;
            released_at = some now;
          })
          (record s1 {
            authorized_minor = s1.authorized_minor - rem;
            released_minor = s1.released_minor + rem;
          })
          db)
        _ h6 in
    let w = write_back-eq-ok now (λ a. a) _ _ db saved in
    let left = remaining-eq-ok a.authorized_minor a.spent_minor a.released_minor rem_ok in
    (
      released_amount rem d h7 ∙ left.0,
      w.allocation,
      w.refreshed_allocation.same_state,
      w.refreshed_allocation.same_session,
      ap (find_allocation a.session_id) (sym (released_db rem d h7) ∙ w.result)
          ∙ find-put Allocation.session_id a.session_id w.allocation db.allocations
          ∙ own_key a.session_id w.allocation _ w.refreshed_allocation.same_session,
    )
  where
    released_amount :
        (x : ℕ) (d : FundingDb)
        → ◌≡◌ {A = Outcome FundingError (ℕ × FundingDb)} (ok (x, d)) (ok (n, db'))
        → n ≡ x
    released_amount x d e = cc

    released_db :
        (x : ℕ) (d : FundingDb)
        → ◌≡◌ {A = Outcome FundingError (ℕ × FundingDb)} (ok (x, d)) (ok (n, db'))
        → d ≡ db'
    released_db x d e = cc

    own_key :
        (k : ℕ) (b : Allocation) (o : Option Allocation)
        → b.session_id ≡ k
        → (if b.session_id == k then some b else o) ≡ some b
    own_key k b o e = ground arith

-- When a release succeeds, releasing the same session again at any time succeeds, returns 0 and
-- changes nothing.
pub release-release :
    (session now later : ℕ) (db : FundingDb) {n : ℕ} {db' : FundingDb}
    → release_funding_allocation session now db ≡ ok (n, db')
    → release_funding_allocation session later db' ≡ ok (0, db')
unfolding release_funding_allocation
release-release session now later db {n} {db'} h =
    elim (Option-cases (find_allocation session db)) [
      | inl absent ↦ ground arith
      | inr (a, is) ↦ elim (Bool-cases (is_active a.state)) [
        | inl yes_active ↦
            let r = release_allocation-State a now db {n = n} {db' = db'} (ground arith) in
            let same = key-find Allocation.session_id session db.allocations is in
            let there : find_allocation session db' ≡ some r.1 =
              ap (λ k. find_allocation k db') (sym same) ∙ r.4 in
            let state_is = r.2 in ground arith
        | inr not_active ↦ ground arith
      ]
    ]
