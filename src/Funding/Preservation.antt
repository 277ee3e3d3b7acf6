-- ===== src/Funding/Preservation.antt =====
-- The operations of src/services/fundingSource.service.ts that change allocations keep the invariant.
use fiberpassbackend.Prelude.{
  ℕ, ◌+◌, ◌-◌, ◌≤◌, ◌≡◌, sym, ap, ◌∙◌, Bool, true, false, some, arith, ltb, Outcome, ok, >>=-eq-ok,
  require, reject_if-bind, subst,
}
use fiberpassbackend.Prelude.Store.{key-find}
use fiberpassbackend.Funding.Domain.{FundingError, released, allocation_remaining_minor}
use fiberpassbackend.Funding.Records.{Source, Allocation, FundingDb}
use fiberpassbackend.Funding.Sources.{find_source}
use fiberpassbackend.Funding.Allocations.{
  find_allocation, is_active, found, write_back, exhaust, reserve_source, spend_source,
  unreserve_source, spend_allocation, release_allocation, top_up_active,
}
use fiberpassbackend.Funding.Refresh.{
  Refreshed, RefreshedAllocation, remaining-eq-ok, by_mode, Shifted, reserve_source-Shifted,
  spend_source-Shifted, unreserve_source-Shifted,
}
use fiberpassbackend.Funding.Balance.{Moves, moved}
use fiberpassbackend.Funding.Operations.{
  found-eq-ok, exhaust_lem, spend-Moves, release-Moves, top_up-Moves, write_back-eq-ok, WithinAt,
  FundingInv, moved-Inv,
}

-- Where the old allocation and its source stand, and what becomes of them.
place :
    (db : FundingDb) (a a' : Allocation) (s s' : Source) {db' : FundingDb}
    → find_allocation a.session_id db ≡ some a
    → find_source a.source_id db ≡ some s
    → a'.session_id ≡ a.session_id
    → a'.source_id ≡ a.source_id
    → Moves (some a) a' s s'
    → a'.spent_minor + a'.released_minor ≤ a'.authorized_minor
    → db' ≡ moved db a' s'
    → FundingInv db
    → FundingInv db'
place db a a' s s' fa fs es ei m w e inv = subst FundingInv (sym e) (
    moved-Inv db (some a) a' s s' m w (ap (λ k. find_allocation k db) es ∙ fa)
      (ap (λ k. find_source k db) ei ∙ fs) inv)

ok-inj : {A : Type 0} {x y : A} → ◌≡◌ {A = Outcome FundingError A} (ok x) (ok y) → x ≡ y
ok-inj h = cc

exhaust-within :
    (now : ℕ) (a : Allocation)
    → a.spent_minor + a.released_minor ≤ a.authorized_minor
    → (exhaust now a).spent_minor + (exhaust now a).released_minor
      ≤ (exhaust now a).authorized_minor
exhaust-within now a h = ground (arith, exhaust_lem now a)

spend_parts :
    (a : Allocation) (amount now : ℕ) (db : FundingDb) (rem : ℕ) (s s1 : Source) (db' : FundingDb)
    {r : Bool × FundingDb}
    → find_allocation a.session_id db ≡ some a
    → FundingInv db
    → allocation_remaining_minor a.authorized_minor a.spent_minor a.released_minor ≡ ok rem
    → ltb rem amount ≡ false
    → find_source a.source_id db ≡ some s
    → spend_source s.mode amount s ≡ ok s1
    → ltb s1.authorized_minor amount ≡ false
    → write_back now
        (exhaust now)
        (record a { spent_minor = a.spent_minor + amount })
        (record s1 {
          authorized_minor = s1.authorized_minor - amount;
          spent_minor = s1.spent_minor + amount;
        })
        db
      ≡ ok db'
    → (true, db') ≡ r
    → FundingInv r.1
spend_parts a amount now db rem s s1 db' fa inv rem_ok cover fs debit auth saved e =
    let w = write_back-eq-ok now (exhaust now) _ _ db saved in
    let left = remaining-eq-ok a.authorized_minor a.spent_minor a.released_minor rem_ok in
    let same = exhaust_lem now w.allocation in
    let m : Moves (some a) (exhaust now w.allocation) s w.source =
      spend-Moves amount now a w.allocation s s1 w.source left.1 (ground (arith, left))
        (key-find Source.source_id a.source_id db.sources fs)
        (spend_source-Shifted s.mode amount s debit) (ground arith) w.refreshed_allocation
        w.refreshed_source in
    subst (λ (x : Bool × FundingDb). FundingInv x.1) e
      (place db a (exhaust now w.allocation) s w.source fa fs
        (same.0 ∙ w.refreshed_allocation.same_session) (same.1 ∙ w.refreshed_allocation.same_source)
        m (exhaust-within now w.allocation w.refreshed_allocation.within) w.result inv)

pub spend_allocation-Inv :
    (a : Allocation) (amount now : ℕ) (db : FundingDb) {r : Bool × FundingDb}
    → find_allocation a.session_id db ≡ some a
    → FundingInv db
    → spend_allocation a amount now db ≡ ok r
    → FundingInv r.1
unfolding spend_allocation
spend_allocation-Inv a amount now db {r} fa inv h =
    let (_, _, h1) = >>=-eq-ok (require (is_active a.state) FundingError.allocation_inactive) _ h in
    let (rem, rem_ok, h2) =
      >>=-eq-ok (allocation_remaining_minor a.authorized_minor a.spent_minor a.released_minor) _
        h1 in
    let (cover, h3) = reject_if-bind (ltb rem amount) FundingError.allocation_short _ h2 in
    let (s, fs, h4) =
      >>=-eq-ok (found (find_source a.source_id db) FundingError.source_missing) _ h3 in
    let (s1, debit, h5) = >>=-eq-ok (spend_source s.mode amount s) _ h4 in
    let (auth, h6) =
      reject_if-bind (ltb s1.authorized_minor amount) FundingError.authorization_short _ h5 in
    let (db', saved, h7) =
      >>=-eq-ok
        (write_back now (exhaust now) (record a { spent_minor = a.spent_minor + amount })
          (record s1 {
            authorized_minor = s1.authorized_minor - amount;
            spent_minor = s1.spent_minor + amount;
          })
          db)
        _ h6 in
    spend_parts a amount now db rem s s1 db' fa inv rem_ok cover
      (found-eq-ok _ FundingError.source_missing fs) debit auth saved (ok-inj h7)

release_parts :
    (a : Allocation) (now : ℕ) (db : FundingDb) (rem : ℕ) (s s1 : Source) (db' : FundingDb)
    {r : ℕ × FundingDb}
    → find_allocation a.session_id db ≡ some a
    → FundingInv db
    → allocation_remaining_minor a.authorized_minor a.spent_minor a.released_minor ≡ ok rem
    → find_source a.source_id db ≡ some s
    → unreserve_source s.mode rem s ≡ ok s1
    → ltb s1.authorized_minor rem ≡ false
    → write_back now
        (λ a. a)
        (record a {
          released_minor = a.released_minor + rem;
          state = released;
          released_at = some now;
        })
        (record s1 {
          authorized_minor = s1.authorized_minor - rem;
          released_minor = s1.released_minor + rem;
        })
        db
      ≡ ok db'
    → (rem, db') ≡ r
    → FundingInv r.1
release_parts a now db rem s s1 db' {r} fa inv rem_ok fs debit auth saved e =
    let left = remaining-eq-ok a.authorized_minor a.spent_minor a.released_minor rem_ok in
    let w = write_back-eq-ok now (λ a. a) _ _ db saved in
    subst (λ (x : ℕ × FundingDb). FundingInv x.1) e
      (place db a w.allocation s w.source fa fs w.refreshed_allocation.same_session
        w.refreshed_allocation.same_source
        (release-Moves now a w.allocation s s1 w.source left.1
          (key-find Source.source_id a.source_id db.sources fs)
          (subst (λ n. Shifted s s1 0 (by_mode s.mode n)) left.0
            (unreserve_source-Shifted s.mode rem s debit))
          (ground (arith, left))
          (subst
            (λ n.
              RefreshedAllocation
                (record a {
                  released_minor = a.released_minor + n;
                  state = released;
                  released_at = some now;
                })
                w.allocation)
            left.0 w.refreshed_allocation)
          (subst
            (λ n.
              Refreshed
                (record s1 {
                  authorized_minor = s1.authorized_minor - n;
                  released_minor = s1.released_minor + n;
                })
                w.source)
            left.0 w.refreshed_source))
        w.refreshed_allocation.within w.result inv)

top_up_parts :
    (a : Allocation) (amount now : ℕ) (db : FundingDb) (s s1 : Source) (db' : FundingDb)
    {r : Unit {0} × FundingDb}
    → find_allocation a.session_id db ≡ some a
    → FundingInv db
    → find_source a.source_id db ≡ some s
    → reserve_source s.mode amount now s ≡ ok s1
    → write_back now
        (λ a. a)
        (record a { authorized_minor = a.authorized_minor + amount })
        (record s1 { authorized_minor = s1.authorized_minor + amount })
        db
      ≡ ok db'
    → (tt, db') ≡ r
    → FundingInv r.1
top_up_parts a amount now db s s1 db' fa inv fs credit saved e =
    let w = write_back-eq-ok now (λ a. a) _ _ db saved in
    subst (λ (x : Unit {0} × FundingDb). FundingInv x.1) e
      (place db a w.allocation s w.source fa fs w.refreshed_allocation.same_session
        w.refreshed_allocation.same_source
        (top_up-Moves amount a w.allocation s s1 w.source
          (key-find Source.source_id a.source_id db.sources fs)
          (reserve_source-Shifted s.mode amount now s credit)
          (subst WithinAt fa (inv.within a.session_id)) w.refreshed_allocation w.refreshed_source)
        w.refreshed_allocation.within w.result inv)

pub release_allocation-Inv :
    (a : Allocation) (now : ℕ) (db : FundingDb) {r : ℕ × FundingDb}
    → find_allocation a.session_id db ≡ some a
    → FundingInv db
    → release_allocation a now db ≡ ok r
    → FundingInv r.1
unfolding release_allocation
release_allocation-Inv a now db {r} fa inv h =
    let (rem, rem_ok, h2) =
      >>=-eq-ok (allocation_remaining_minor a.authorized_minor a.spent_minor a.released_minor) _
        h in
    let (s, fs, h4) =
      >>=-eq-ok (found (find_source a.source_id db) FundingError.source_missing) _ h2 in
    let (s1, debit, h5) = >>=-eq-ok (unreserve_source s.mode rem s) _ h4 in
    let (auth, h6) =
      reject_if-bind (ltb s1.authorized_minor rem) FundingError.authorization_short _ h5 in
    let (db', saved, h7) =
      >>=-eq-ok
        (write_back now (λ a. a)
          (record a {
            released_minor = a.released_minor + rem;
            state = released;
            released_at = some now;
          })
          (record s1 {
            authorized_minor = s1.authorized_minor - rem;
            released_minor = s1.released_minor + rem;
          })
          db)
        _ h6 in
    release_parts a now db rem s s1 db' fa inv rem_ok (found-eq-ok _ FundingError.source_missing fs)
      debit auth saved (ok-inj h7)

pub top_up_active-Inv :
    (a : Allocation) (amount now : ℕ) (db : FundingDb) {r : Unit {0} × FundingDb}
    → find_allocation a.session_id db ≡ some a
    → FundingInv db
    → top_up_active a amount now db ≡ ok r
    → FundingInv r.1
unfolding top_up_active
top_up_active-Inv a amount now db {r} fa inv h =
    let (s, fs, h4) =
      >>=-eq-ok (found (find_source a.source_id db) FundingError.source_missing) _ h in
    let (s1, credit, h5) = >>=-eq-ok (reserve_source s.mode amount now s) _ h4 in
    let (db', saved, h7) =
      >>=-eq-ok
        (write_back now (λ a. a) (record a { authorized_minor = a.authorized_minor + amount })
          (record s1 { authorized_minor = s1.authorized_minor + amount }) db)
        _ h5 in
    top_up_parts a amount now db s s1 db' fa inv (found-eq-ok _ FundingError.source_missing fs)
      credit saved (ok-inj h7)
