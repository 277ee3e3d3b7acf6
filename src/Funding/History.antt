-- ===== src/Funding/History.antt =====
-- Sequences of funding operations (src/services/fundingSource.service.ts), from empty collections: all
-- operations that change a source or an allocation but the observation of a secured source's balance,
-- `recordSecuredFundingBalance`. One that throws leaves the collections as its transaction found them.
use fiberpassbackend.Prelude.{
  ℕ, ◌≡◌, refl, ap, ◌∙◌, Bool, Option, some, List, [], ◌∷◌, arith, Outcome, ok, err, subst,
  Option-cases, Bool-cases, inl, inr,
}
use fiberpassbackend.Prelude.Store.{key-find, total}
use fiberpassbackend.Funding.Domain.{FundingMode, FundingError}
use fiberpassbackend.Funding.Records.{Source, Allocation, FundingDb}
use fiberpassbackend.Funding.Sources.{
  find_source, ensure_connected_wallet_source, record_connected_wallet_balance,
  record_secured_funding_proof,
}
use fiberpassbackend.Funding.Allocations.{
  find_allocation, is_active, allocate_funding_for_session, top_up_funding_allocation,
  spend_funding_allocation, release_funding_allocation,
}
use fiberpassbackend.Funding.Refresh.{by_mode}
use fiberpassbackend.Funding.Balance.{outstanding_of, spent_of, released_of, Agrees}
use fiberpassbackend.Funding.Operations.{FundingInv}
use fiberpassbackend.Funding.Preservation.{
  spend_allocation-Inv, release_allocation-Inv, top_up_active-Inv,
}
use fiberpassbackend.Funding.Opening.{allocate-Inv, ensure-Inv, observe-Inv, proof-Inv}

-- The operations, with their arguments in the order of the definitions.
pub data Operation : Type 0 where
  ensure : (owner address rail asset : ℕ) → Operation
  observe : (owner address rail asset available_minor observed_at now : ℕ) → Operation
  prove : (owner reference amount proof_id proof_type observed_at now : ℕ) → Bool → Operation
  allocate : (id source : ℕ) → FundingMode → (owner session amount now : ℕ) → Operation
  top_up : (session amount now : ℕ) → Operation
  spend : (session amount now : ℕ) → Operation
  release : (session now : ℕ) → Operation

-- What is in the collections after an operation in a transaction.
abbrev pub after : {A : Type 0} → FundingDb → Outcome FundingError (A × FundingDb) → FundingDb
after db (ok (_, db')) = db'
after db (err _) = db

after-Inv :
    {A : Type 0} (db : FundingDb) (o : Outcome FundingError (A × FundingDb))
    → FundingInv db
    → ((r : A × FundingDb) → o ≡ ok r → FundingInv r.1)
    → FundingInv (after db o)
after-Inv db (ok r) inv h = h r refl
after-Inv db (err e) inv h = inv

top_up-Inv :
    (session amount now : ℕ) (db : FundingDb) {r : Unit {0} × FundingDb}
    → FundingInv db
    → top_up_funding_allocation session amount now db ≡ ok r
    → FundingInv r.1
unfolding top_up_funding_allocation
top_up-Inv session amount now db {r} inv h = elim (Option-cases (find_allocation session db)) [
  | inl absent ↦ subst FundingInv (ground arith) inv
  | inr (a, is) ↦ elim (Bool-cases (is_active a.state)) [
    | inl yes_active ↦
        top_up_active-Inv a amount now db {r = r}
          (ap (λ k. find_allocation k db) (key-find Allocation.session_id session db.allocations is)
            ∙ is)
          inv (ground arith)
    | inr not_active ↦ subst FundingInv (ground arith) inv
  ]
]

spend-Inv :
    (session amount now : ℕ) (db : FundingDb) {r : Bool × FundingDb}
    → FundingInv db
    → spend_funding_allocation session amount now db ≡ ok r
    → FundingInv r.1
unfolding spend_funding_allocation
spend-Inv session amount now db {r} inv h = elim (Option-cases (find_allocation session db)) [
  | inl absent ↦ subst FundingInv (ground arith) inv
  | inr (a, is) ↦
      spend_allocation-Inv a amount now db {r = r}
        (ap (λ k. find_allocation k db) (key-find Allocation.session_id session db.allocations is)
          ∙ is)
        inv (ground arith)
]

release-Inv :
    (session now : ℕ) (db : FundingDb) {r : ℕ × FundingDb}
    → FundingInv db
    → release_funding_allocation session now db ≡ ok r
    → FundingInv r.1
unfolding release_funding_allocation
release-Inv session now db {r} inv h = elim (Option-cases (find_allocation session db)) [
  | inl absent ↦ subst FundingInv (ground arith) inv
  | inr (a, is) ↦ elim (Bool-cases (is_active a.state)) [
    | inl yes_active ↦
        release_allocation-Inv a now db {r = r}
          (ap (λ k. find_allocation k db) (key-find Allocation.session_id session db.allocations is)
            ∙ is)
          inv (ground arith)
    | inr not_active ↦ subst FundingInv (ground arith) inv
  ]
]

module _ (stable_id : List ℕ → ℕ) where
  unfoldable pub perform : Operation → FundingDb → FundingDb
  perform (ensure owner address rail asset) db =
      (ensure_connected_wallet_source stable_id owner address rail asset db).1
  perform (observe owner address rail asset available_minor observed_at now) db =
      (record_connected_wallet_balance stable_id owner address rail asset available_minor
        observed_at now db).1
  perform (prove owner reference amount proof_id proof_type observed_at now legacy) db = after db (
      record_secured_funding_proof stable_id owner reference amount proof_id proof_type observed_at
        now legacy db)
  perform (allocate id source mode owner session amount now) db =
      after db (allocate_funding_for_session id source mode owner session amount now db)
  perform (top_up session amount now) db =
      after db (top_up_funding_allocation session amount now db)
  perform (spend session amount now) db = after db (spend_funding_allocation session amount now db)
  perform (release session now) db = after db (release_funding_allocation session now db)

  unfoldable pub perform_all : List Operation → FundingDb → FundingDb
  perform_all [] db = db
  perform_all (o ∷ l) db = perform_all l (perform o db)

  -- Whatever `Operation` is performed, and whether it succeeds or throws: if before it every source's
  -- authorized, reserved, spent and released amounts agree with the allocations, and no allocation has
  -- spent and released more than its authorization, the same holds after it.
  pub perform-Inv : (o : Operation) (db : FundingDb) → FundingInv db → FundingInv (perform o db)
  unfolding perform
  perform-Inv (ensure owner address rail asset) db inv =
      ensure-Inv stable_id owner address rail asset db inv
  perform-Inv (observe owner address rail asset available_minor observed_at now) db inv =
      observe-Inv stable_id owner address rail asset available_minor observed_at now db inv
  perform-Inv (prove owner reference amount proof_id proof_type at now legacy) db inv =
      after-Inv db _ inv (λ r e.
        proof-Inv stable_id owner reference amount proof_id proof_type at now legacy db {r = r} inv
          e)
  perform-Inv (allocate id source mode owner session amount now) db inv =
      after-Inv db _ inv
        (λ r e. allocate-Inv id source mode owner session amount now db {r = r} inv e)
  perform-Inv (top_up session amount now) db inv =
      after-Inv db _ inv (λ r e. top_up-Inv session amount now db {r = r} inv e)
  perform-Inv (spend session amount now) db inv =
      after-Inv db _ inv (λ r e. spend-Inv session amount now db {r = r} inv e)
  perform-Inv (release session now) db inv =
      after-Inv db _ inv (λ r e. release-Inv session now db {r = r} inv e)

  perform_all-Inv :
      (l : List Operation) (db : FundingDb) → FundingInv db → FundingInv (perform_all l db)
  unfolding perform_all
  perform_all-Inv [] db inv = inv
  perform_all-Inv (o ∷ l) db inv = perform_all-Inv l (perform o db) (perform-Inv o db inv)

  -- The collections after a sequence of operations from empty ones.
  unfoldable pub reached : List Operation → FundingDb
  unfolding perform_all
  reached l = perform_all l (record { sources = []; allocations = [] })

  pub reached-Inv : (l : List Operation) → FundingInv (reached l)
  unfolding reached
  reached-Inv l =
      perform_all-Inv l (record { sources = []; allocations = [] })
        (record { balanced = λ j. (refl, refl, refl); within = λ session. tt })

  -- After any sequence of operations from empty collections, a stored source is authorized for exactly
  -- what its allocations leave unspent, has spent and released exactly what they did, and reserves that
  -- outstanding amount when it is secured and nothing when it is a connected wallet.
  pub reached-counters :
      (l : List Operation) (id : ℕ) {s : Source}
      → find_source id (reached l) ≡ some s
      → (s.authorized_minor ≡ total (outstanding_of id) (reached l).allocations)
        × (s.reserved_minor ≡ by_mode s.mode (total (outstanding_of id) (reached l).allocations))
        × (s.spent_minor ≡ total (spent_of id) (reached l).allocations)
        × (s.released_minor ≡ total (released_of id) (reached l).allocations)
  reached-counters l id {s} h =
      subst
        (λ (o : Option Source).
          Agrees o (total (outstanding_of id) (reached l).allocations)
            (total (spent_of id) (reached l).allocations)
            (total (released_of id) (reached l).allocations))
        h ((reached-Inv l).balanced id)
