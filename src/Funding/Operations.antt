-- ===== src/Funding/Operations.antt =====
-- Every operation of src/services/fundingSource.service.ts keeps the sources' counters in agreement
-- with the allocations.
use fiberpassbackend.Prelude.{
  ℕ, ◌+◌, ◌-◌, ◌≤◌, ◌≡◌, sym, Bool, true, false, Option, none, some, arith, ◌==◌, ok, >>=-eq-ok,
  if◌then◌else◌, subst,
}
use fiberpassbackend.Prelude.Store.{find-put}
use fiberpassbackend.Funding.Domain.{FundingError, released}
use fiberpassbackend.Funding.Records.{
  Source, Allocation, FundingDb, refresh_source_amounts, refresh_allocation_amounts,
}
use fiberpassbackend.Funding.Sources.{find_source}
use fiberpassbackend.Funding.Allocations.{find_allocation, found, save_both, write_back, exhaust}
use fiberpassbackend.Funding.Refresh.{
  Refreshed, refresh_source_amounts-Refreshed, RefreshedAllocation,
  refresh_allocation_amounts-Refreshed, outstanding, by_mode, Shifted,
}
use fiberpassbackend.Funding.Balance.{Balanced, Moves, moved, Moves-Balanced}

pub save_both-eq-ok :
    (s : Source) (a : Allocation) (db : FundingDb) {db' : FundingDb}
    → save_both s a db ≡ ok db'
    → db' ≡ moved db a s
unfolding save_both
save_both-eq-ok s a db h = ground arith

pub found-eq-ok :
    {A : Type 0} (o : Option A) (e : FundingError) {a : A} → found o e ≡ ok a → o ≡ some a
found-eq-ok none e h = cc
found-eq-ok (some a) e h = cc

pub exhaust_lem :
    (now : ℕ) (a : Allocation)
    → ((exhaust now a).session_id ≡ a.session_id)
      × ((exhaust now a).source_id ≡ a.source_id)
      × (outstanding (exhaust now a) ≡ outstanding a)
      × ((exhaust now a).spent_minor ≡ a.spent_minor)
      × ((exhaust now a).released_minor ≡ a.released_minor)
      × ((exhaust now a).authorized_minor ≡ a.authorized_minor)
exhaust_lem now a = ground arith

-- The source and the allocation of a finalized spend.
pub spend-Moves :
    (amount now : ℕ) (a a1 : Allocation) (s s1 s2 : Source)
    → a.spent_minor + a.released_minor ≤ a.authorized_minor
    → amount ≤ outstanding a
    → s.source_id ≡ a.source_id
    → Shifted s s1 0 (by_mode s.mode amount)
    → amount ≤ s1.authorized_minor
    → RefreshedAllocation (record a { spent_minor = a.spent_minor + amount }) a1
    → Refreshed
        (record s1 {
          authorized_minor = s1.authorized_minor - amount;
          spent_minor = s1.spent_minor + amount;
        })
        s2
    → Moves (some a) (exhaust now a1) s s2
spend-Moves amount now a a1 s s1 s2 within cover id sh auth ra rs =
    ground (arith, exhaust_lem now a1)

pub release-Moves :
    (now : ℕ) (a a1 : Allocation) (s s1 s2 : Source)
    → a.spent_minor + a.released_minor ≤ a.authorized_minor
    → s.source_id ≡ a.source_id
    → Shifted s s1 0 (by_mode s.mode (outstanding a))
    → outstanding a ≤ s1.authorized_minor
    → RefreshedAllocation
        (record a {
          released_minor = a.released_minor + outstanding a;
          state = released;
          released_at = some now;
        })
        a1
    → Refreshed
        (record s1 {
          authorized_minor = s1.authorized_minor - outstanding a;
          released_minor = s1.released_minor + outstanding a;
        })
        s2
    → Moves (some a) a1 s s2
release-Moves now a a1 s s1 s2 within id sh auth ra rs = ground arith

pub top_up-Moves :
    (amount : ℕ) (a a1 : Allocation) (s s1 s2 : Source)
    → s.source_id ≡ a.source_id
    → Shifted s s1 (by_mode s.mode amount) 0
    → a.spent_minor + a.released_minor ≤ a.authorized_minor
    → RefreshedAllocation (record a { authorized_minor = a.authorized_minor + amount }) a1
    → Refreshed (record s1 { authorized_minor = s1.authorized_minor + amount }) s2
    → Moves (some a) a1 s s2
top_up-Moves amount a a1 s s1 s2 id sh within ra rs = ground arith

-- No allocation has spent and released more than its authorization.
abbrev pub WithinAt : Option Allocation → Type 0
WithinAt none = Unit
WithinAt (some a) = a.spent_minor + a.released_minor ≤ a.authorized_minor

pub record FundingInv (db : FundingDb) : Type 0 where
  pub balanced : Balanced db
  pub within : (session : ℕ) → WithinAt (find_allocation session db)

if_WithinAt :
    (b : Bool) (o : Option Allocation) (a : Allocation)
    → WithinAt o
    → a.spent_minor + a.released_minor ≤ a.authorized_minor
    → WithinAt (if b then some a else o)
if_WithinAt true o a h k = k
if_WithinAt false o a h k = h

pub moved-within :
    (db : FundingDb) (a : Allocation) (s : Source)
    → a.spent_minor + a.released_minor ≤ a.authorized_minor
    → ((session : ℕ) → WithinAt (find_allocation session db))
    → (session : ℕ) → WithinAt (find_allocation session (moved db a s))
moved-within db a s ok_a h session =
    subst WithinAt (sym (find-put Allocation.session_id session a db.allocations))
      (if_WithinAt (a.session_id == session) _ a (h session) ok_a)

pub record Written (finish : Allocation → Allocation) (a : Allocation) (s : Source)
    (db db' : FundingDb) : Type 0 where
  pub allocation : Allocation
  pub source : Source
  pub refreshed_allocation : RefreshedAllocation a allocation
  pub refreshed_source : Refreshed s source
  pub result : db' ≡ moved db (finish allocation) source

pub write_back-eq-ok :
    (now : ℕ) (finish : Allocation → Allocation) (a : Allocation) (s : Source) (db : FundingDb)
    {db' : FundingDb}
    → write_back now finish a s db ≡ ok db'
    → Written finish a s db db'
unfolding write_back
write_back-eq-ok now finish a s db h =
    let (a1, ra, h1) = >>=-eq-ok (refresh_allocation_amounts a) _ h in
    let (s2, rs, h2) = >>=-eq-ok (refresh_source_amounts now s) _ h1 in
    record {
      allocation = a1;
      source = s2;
      refreshed_allocation = refresh_allocation_amounts-Refreshed a ra;
      refreshed_source = refresh_source_amounts-Refreshed now s rs;
      result = save_both-eq-ok s2 (finish a1) db h2;
    }

-- Both parts of the invariant after an allocation and its source have moved together.
pub moved-Inv :
    (db : FundingDb) (old : Option Allocation) (a : Allocation) (s s' : Source)
    → Moves old a s s'
    → a.spent_minor + a.released_minor ≤ a.authorized_minor
    → find_allocation a.session_id db ≡ old
    → find_source a.source_id db ≡ some s
    → FundingInv db
    → FundingInv (moved db a s')
moved-Inv db old a s s' m w fa fs inv = record {
  balanced = Moves-Balanced db old a s s' m fa fs inv.balanced;
  within = moved-within db a s' w inv.within;
}
