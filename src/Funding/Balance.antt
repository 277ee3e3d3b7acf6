-- ===== src/Funding/Balance.antt =====
-- The counters of a source agree with its allocations (src/services/fundingSource.service.ts): the
-- invariant, and how the two collections change together.
use fiberpassbackend.Prelude.{
  ℕ, ◌+◌, ◌≡◌, refl, sym, ◌∙◌, Bool, true, false, Option, none, some, arith, ◌==◌, if◌then◌else◌,
  Bool-cases, inl, inr, ==_iff, subst, ◌≢◌,
}
use fiberpassbackend.Prelude.Store.{put, find-put, total, weight, total-put}
use fiberpassbackend.Funding.Domain.{connected_wallet, secured_autopay}
use fiberpassbackend.Funding.Records.{Source, Allocation, FundingDb}
use fiberpassbackend.Funding.Sources.{find_source, save_source}
use fiberpassbackend.Funding.Allocations.{find_allocation, save_allocation}
use fiberpassbackend.Funding.Refresh.{outstanding, by_mode}

-- What the allocations of the source j leave, have spent and have released.
abbrev pub outstanding_of : ℕ → Allocation → ℕ
outstanding_of j a = if a.source_id == j then outstanding a else 0

abbrev pub spent_of : ℕ → Allocation → ℕ
spent_of j a = if a.source_id == j then a.spent_minor else 0

abbrev pub released_of : ℕ → Allocation → ℕ
released_of j a = if a.source_id == j then a.released_minor else 0

-- A source's counters are these sums; where there is no source the sums are 0.
abbrev pub Agrees : Option Source → ℕ → ℕ → ℕ → Type 0
Agrees none held spent released = (held ≡ 0) × (spent ≡ 0) × (released ≡ 0)
Agrees (some s) held spent released =
    (s.authorized_minor ≡ held)
    × (s.reserved_minor ≡ by_mode s.mode held)
    × (s.spent_minor ≡ spent)
    × (s.released_minor ≡ released)

abbrev pub AgreesAt : ℕ → FundingDb → Type 0
AgreesAt j db =
    Agrees (find_source j db) (total (outstanding_of j) db.allocations)
      (total (spent_of j) db.allocations) (total (released_of j) db.allocations)

abbrev pub Balanced : FundingDb → Type 0
Balanced db = (j : ℕ) → AgreesAt j db

abbrev pub SameSource : Option Allocation → Allocation → Type 0
SameSource none a = Unit
SameSource (some o) a = o.source_id ≡ a.source_id

-- An allocation, new or in the place of an old one, and its source change by the same amounts.
pub record Moves (old : Option Allocation) (a : Allocation) (s s' : Source) : Type 0 where
  pub same_source : SameSource old a
  pub source : s'.source_id ≡ a.source_id
  pub mode : s'.mode ≡ s.mode
  pub authorized : weight outstanding old + s'.authorized_minor ≡ outstanding a + s.authorized_minor
  pub reserved :
      by_mode s.mode (weight outstanding old) + s'.reserved_minor
      ≡ by_mode s.mode (outstanding a) + s.reserved_minor
  pub spent : weight Allocation.spent_minor old + s'.spent_minor ≡ a.spent_minor + s.spent_minor
  pub released :
      weight Allocation.released_minor old + s'.released_minor ≡ a.released_minor + s.released_minor

if_true : {A : Type 0} {b : Bool} {x : A} (y : A) → b ≡ true → (if b then x else y) ≡ x
if_true y h = rw h

if_false : {A : Type 0} {b : Bool} {y : A} (x : A) → b ≡ false → (if b then x else y) ≡ y
if_false x h = rw h

abbrev pub moved : FundingDb → Allocation → Source → FundingDb
moved db a s' = save_allocation a (save_source s' db)

-- The sums of the source j after the change; `w` is one of the weights.
total-moved :
    (w : Allocation → ℕ) (db : FundingDb) (old : Option Allocation) (a : Allocation)
    → find_allocation a.session_id db ≡ old
    → total w (put Allocation.session_id a db.allocations) + weight w old
      ≡ total w db.allocations + w a
total-moved w db old a h =
    subst
      (λ (o : Option Allocation).
        total w (put Allocation.session_id a db.allocations) + weight w o
        ≡ total w db.allocations + w a)
      h (total-put Allocation.session_id w a db.allocations)

module _ (db : FundingDb) (a : Allocation) (s s' : Source) (j : ℕ) where
  Moves-same :
      (old : Option Allocation)
      → Moves old a s s'
      → find_allocation a.session_id db ≡ old
      → find_source a.source_id db ≡ some s
      → AgreesAt j db
      → a.source_id ≡ j
      → AgreesAt j (moved db a s')
  Moves-same none m fa fs b e =
      let fs' = subst (λ k. find_source k db ≡ some s) e fs in
      let b' =
        subst
          (λ (o : Option Source).
            Agrees o (total (outstanding_of j) db.allocations) (total (spent_of j) db.allocations)
              (total (released_of j) db.allocations))
          fs' b in
      ground (
        arith,
        find-put Source.source_id j s' db.sources,
        total-moved (outstanding_of j) db none a fa,
        total-moved (spent_of j) db none a fa,
        total-moved (released_of j) db none a fa,
      )
  Moves-same (some o) m fa fs b e =
      let fs' = subst (λ k. find_source k db ≡ some s) e fs in
      let b' =
        subst
          (λ (o : Option Source).
            Agrees o (total (outstanding_of j) db.allocations) (total (spent_of j) db.allocations)
              (total (released_of j) db.allocations))
          fs' b in
      ground (
        arith,
        find-put Source.source_id j s' db.sources,
        total-moved (outstanding_of j) db (some o) a fa,
        total-moved (spent_of j) db (some o) a fa,
        total-moved (released_of j) db (some o) a fa,
      )

  Moves-other :
      (old : Option Allocation)
      → Moves old a s s'
      → find_allocation a.session_id db ≡ old
      → AgreesAt j db
      → a.source_id ≢ j
      → AgreesAt j (moved db a s')
  Moves-other none m fa b e = ground (
    arith,
    find-put Source.source_id j s' db.sources,
    total-moved (outstanding_of j) db none a fa,
    total-moved (spent_of j) db none a fa,
    total-moved (released_of j) db none a fa,
  )
  Moves-other (some o) m fa b e = ground (
    arith,
    find-put Source.source_id j s' db.sources,
    total-moved (outstanding_of j) db (some o) a fa,
    total-moved (spent_of j) db (some o) a fa,
    total-moved (released_of j) db (some o) a fa,
  )

-- The change keeps every source's counters in agreement.
pub Moves-Balanced :
    (db : FundingDb) (old : Option Allocation) (a : Allocation) (s s' : Source)
    → Moves old a s s'
    → find_allocation a.session_id db ≡ old
    → find_source a.source_id db ≡ some s
    → Balanced db
    → Balanced (moved db a s')
Moves-Balanced db old a s s' m fa fs b j = elim (Bool-cases (a.source_id == j)) [
  | inl same ↦ Moves-same db a s s' j old m fa fs (b j) ((==_iff a.source_id j).0 same)
  | inr other ↦ Moves-other db a s s' j old m fa (b j) (λ e. cc ((==_iff a.source_id j).1 e))
]

abbrev AgreesFor : FundingDb → ℕ → Option Source → Type 0
AgreesFor db j o =
    Agrees o (total (outstanding_of j) db.allocations) (total (spent_of j) db.allocations)
      (total (released_of j) db.allocations)

-- A source alone changes, and not in its counters; or a new source with empty counters is added.
abbrev pub SameCounters : Option Source → Source → Type 0
SameCounters none s' =
    (s'.authorized_minor ≡ 0)
    × (s'.reserved_minor ≡ 0)
    × (s'.spent_minor ≡ 0)
    × (s'.released_minor ≡ 0)
SameCounters (some s) s' =
    (s'.authorized_minor ≡ s.authorized_minor)
    × (s'.reserved_minor ≡ s.reserved_minor)
    × (s'.spent_minor ≡ s.spent_minor)
    × (s'.released_minor ≡ s.released_minor)
    × (s'.mode ≡ s.mode)

SameCounters-Agrees :
    (o : Option Source) (s' : Source) (h p r : ℕ)
    → SameCounters o s'
    → Agrees o h p r
    → Agrees (some s') h p r
SameCounters-Agrees none s' h p r c g =
    elim s'.mode as (λ m. m ≡ s'.mode → Agrees (some s') h p r) [
      | connected_wallet ↦ λ e. ground arith
      | secured_autopay ↦ λ e. ground arith
    ]
      refl
SameCounters-Agrees (some s) s' h p r c g = ground arith

pub SameCounters-Balanced :
    (db : FundingDb) (o : Option Source) (s' : Source)
    → find_source s'.source_id db ≡ o
    → SameCounters o s'
    → Balanced db
    → Balanced (save_source s' db)
SameCounters-Balanced db o s' f c b j = elim (Bool-cases (s'.source_id == j)) [
  | inl same ↦
      let at_j = (==_iff s'.source_id j).0 same in
      let there : find_source j db ≡ o = subst (λ k. find_source k db ≡ o) at_j f in
      subst (AgreesFor db j) (sym (find-put Source.source_id j s' db.sources ∙ if_true _ same))
        (SameCounters-Agrees o s' _ _ _ c (subst (AgreesFor db j) there (b j)))
  | inr other ↦
      subst (AgreesFor db j) (sym (find-put Source.source_id j s' db.sources ∙ if_false _ other))
        (b j)
]
