-- ===== src/Funding/Opening.antt =====
-- `allocateFundingForSession` and the operations on sources alone (src/services/fundingSource.service.ts)
-- keep the invariant.
use fiberpassbackend.Prelude.{
  ℕ, ◌+◌, ◌≡◌, refl, sym, ap, ◌∙◌, Bool, false, Option, none, some, List, arith, Outcome, ok, err,
  >>=-eq-ok, reject_if-bind, Option-cases, inl, inr, subst,
}
use fiberpassbackend.Prelude.Store.{key-find, find-put}
use fiberpassbackend.Funding.Domain.{FundingMode, FundingGuarantee, FundingError, is_some}
use fiberpassbackend.Funding.Records.{
  Source, Allocation, AllocationAtomics, FundingDb, minor_atomic, allocation_hook, source_hook,
  refresh_source_amounts,
}
use fiberpassbackend.Funding.Sources.{
  find_source, save_source, connected_funding_source_id, secured_funding_source_id,
  ensure_connected_wallet_source, record_connected_wallet_balance, insert_new, new_connected_source,
  observe, save_observed, source_freshness_ms, insert_secured, add_proof,
  record_secured_funding_proof,
}
use fiberpassbackend.Funding.Allocations.{
  find_allocation, found, reserve_source, selected, new_allocation, allocate_funding_for_session,
}
use fiberpassbackend.Funding.Refresh.{
  Refreshed, refresh_source_amounts-Refreshed, by_mode, Shifted, reserve_source-Shifted,
}
use fiberpassbackend.Funding.Balance.{Moves, SameCounters, SameCounters-Balanced}
use fiberpassbackend.Funding.Operations.{found-eq-ok, FundingInv, moved-Inv}

pub selected-eq-some :
    (id owner : ℕ) (mode : FundingMode) (db : FundingDb) {s : Source}
    → selected id owner mode db ≡ some s
    → find_source id db ≡ some s
unfolding selected
selected-eq-some id owner mode db h = ground arith

opening-Moves :
    (id session owner amount now : ℕ) (atomics : AllocationAtomics) (s s1 s2 : Source)
    → Shifted s s1 (by_mode s.mode amount) 0
    → Refreshed (record s1 { authorized_minor = s1.authorized_minor + amount }) s2
    → Moves none (new_allocation id s2 session owner amount atomics now) s s2
opening-Moves id session owner amount now atomics s s1 s2 sh rs = ground arith

is_some-eq-false : {A : Type 0} (o : Option A) → is_some o ≡ false → o ≡ none
is_some-eq-false none h = refl
is_some-eq-false (some a) h = cc

ok-inj : {A : Type 0} {x y : A} → ◌≡◌ {A = Outcome FundingError A} (ok x) (ok y) → x ≡ y
ok-inj h = cc

pub allocate-Inv :
    (id chosen : ℕ) (mode : FundingMode) (owner session amount now : ℕ) (db : FundingDb)
    {r : Unit {0} × FundingDb}
    → FundingInv db
    → allocate_funding_for_session id chosen mode owner session amount now db ≡ ok r
    → FundingInv r.1
unfolding allocate_funding_for_session
allocate-Inv id chosen mode owner session amount now db {r} inv h =
    let (s, fs, h1) =
      >>=-eq-ok (found (selected chosen owner mode db) FundingError.source_disappeared) _ h in
    let (s1, reserved, h2) = >>=-eq-ok (reserve_source s.mode amount now s) _ h1 in
    let (s2, refreshed, h3) =
      >>=-eq-ok
        (refresh_source_amounts now (record s1 { authorized_minor = s1.authorized_minor + amount }))
        _ h2 in
    let (_, _, h4) = >>=-eq-ok (source_hook s2) _ h3 in
    let (x, _, h5) = >>=-eq-ok (minor_atomic amount) _ h4 in
    let (z, _, h6) = >>=-eq-ok (minor_atomic 0) _ h5 in
    let atomics : AllocationAtomics = record {
      authorized = x;
      spent = z;
      released = z;
      remaining = x;
    } in
    let a : Allocation = new_allocation id s2 session owner amount atomics now in
    let (_, _, h7) = >>=-eq-ok (allocation_hook a) _ h6 in
    let (fresh, h8) =
      reject_if-bind (is_some (find_allocation session db)) FundingError.duplicate_session _ h7 in
    let rs = refresh_source_amounts-Refreshed now _ refreshed in
    let sh = reserve_source-Shifted s.mode amount now s reserved in
    let here =
      selected-eq-some chosen owner mode db (found-eq-ok _ FundingError.source_disappeared fs) in
    let same : s2.source_id ≡ chosen =
      rs.same_id ∙ sh.same_id ∙ key-find Source.source_id chosen db.sources here in
    subst (λ (y : Unit {0} × FundingDb). FundingInv y.1) (ok-inj h8)
      (moved-Inv db none a s s2 (opening-Moves id session owner amount now atomics s s1 s2 sh rs)
        (omega arith) (is_some-eq-false (find_allocation session db) fresh)
        (ap (λ k. find_source k db) same ∙ here) inv)

sources-Inv :
    (db : FundingDb) (o : Option Source) (s : Source)
    → find_source s.source_id db ≡ o
    → SameCounters o s
    → FundingInv db
    → FundingInv (save_source s db)
sources-Inv db o s f c inv = record {
  balanced = SameCounters-Balanced db o s f c inv.balanced;
  within = inv.within;
}

insert_new-Inv :
    (o : Option Source) (new : Source) (db : FundingDb)
    → find_source new.source_id db ≡ o
    → SameCounters none new
    → FundingInv db
    → FundingInv (insert_new o new db).1
insert_new-Inv none new db f c inv = sources-Inv db none new f c inv
insert_new-Inv (some s) new db f c inv = inv

-- What an observation saves is an update of the ensured source.
insert_new-found :
    (o : Option Source) (new : Source) (db : FundingDb) {s : Source}
    → find_source new.source_id db ≡ o
    → s ≡ (insert_new o new db).0
    → find_source s.source_id (insert_new o new db).1 ≡ some s
insert_new-found none new db {s} f e =
    ground (arith, find-put Source.source_id s.source_id new db.sources)
insert_new-found (some t) new db {s} f e =
    let is = key-find Source.source_id new.source_id db.sources f in
    subst (λ (x : Source). find_source x.source_id db ≡ some x) (sym e)
      (ap (λ k. find_source k db) is ∙ f)

observe-SameCounters :
    (s : Source) (available_minor observed_at now : ℕ) {t : Source}
    → observe s available_minor observed_at now ≡ ok t
    → SameCounters (some s) t × (t.source_id ≡ s.source_id)
unfolding observe
observe-SameCounters s available_minor observed_at now {t} h =
    let (r, rs, h1) =
      >>=-eq-ok
        (refresh_source_amounts now (record s {
          available_minor = available_minor;
          guarantee = FundingGuarantee.balance_observed;
          balance_observed_at = some observed_at;
          stale_at = some (observed_at + source_freshness_ms);
          failure_code = none;
        }))
        _ h in
    let (_, _, h2) = >>=-eq-ok (source_hook r) _ h1 in
    let rf = refresh_source_amounts-Refreshed now _ rs in ground (arith, rf)

save_observed-Inv :
    (s : Source) (available_minor observed_at now : ℕ) (o : Outcome FundingError Source)
    (db : FundingDb)
    → observe s available_minor observed_at now ≡ o
    → find_source s.source_id db ≡ some s
    → FundingInv db
    → FundingInv (save_observed o db).1
save_observed-Inv s available_minor observed_at now (err e) db h f inv = inv
save_observed-Inv s available_minor observed_at now (ok t) db h f inv =
    let same = observe-SameCounters s available_minor observed_at now h in
    sources-Inv db (some s) t (ap (λ k. find_source k db) same.1 ∙ f) same.0 inv

module _ (stable_id : List ℕ → ℕ) where
  pub ensure-Inv :
      (owner address rail asset : ℕ) (db : FundingDb)
      → FundingInv db
      → FundingInv (ensure_connected_wallet_source stable_id owner address rail asset db).1
  unfolding ensure_connected_wallet_source
  ensure-Inv owner address rail asset db inv =
      insert_new-Inv _
        (new_connected_source (connected_funding_source_id stable_id owner rail asset) owner
          address)
        db refl (refl, refl, refl, refl) inv

  pub observe-Inv :
      (owner address rail asset available_minor observed_at now : ℕ) (db : FundingDb)
      → FundingInv db
      → FundingInv
          (record_connected_wallet_balance stable_id owner address rail asset available_minor
            observed_at now db).1
  unfolding record_connected_wallet_balance ensure_connected_wallet_source
  observe-Inv owner address rail asset available_minor observed_at now db inv =
      let new =
        new_connected_source (connected_funding_source_id stable_id owner rail asset) owner
          address in
      save_observed-Inv (ensure_connected_wallet_source stable_id owner address rail asset db).0
        available_minor observed_at now _ _ refl
        (insert_new-found (find_source new.source_id db) new db refl refl)
        (ensure-Inv owner address rail asset db inv)

insert_secured-Inv :
    (id owner reference amount proof_id proof_type at : ℕ) (legacy : Bool) (db : FundingDb)
    {r : ℕ × FundingDb}
    → find_source id db ≡ none
    → FundingInv db
    → insert_secured id owner reference amount proof_id proof_type at legacy db ≡ ok r
    → FundingInv r.1
unfolding insert_secured
insert_secured-Inv id owner reference amount proof_id proof_type at legacy db f inv h =
    let (x, _, h1) = >>=-eq-ok (minor_atomic amount) _ h in
    let (_, _, h2) = >>=-eq-ok (source_hook _) _ h1 in
    subst (λ (y : ℕ × FundingDb). FundingInv y.1) (ok-inj h2)
      (sources-Inv db none _ f (refl, refl, refl, refl) inv)

add_proof-Inv :
    (amount proof_id proof_type at now : ℕ) (s : Source) (db : FundingDb) {r : ℕ × FundingDb}
    → find_source s.source_id db ≡ some s
    → FundingInv db
    → add_proof amount proof_id proof_type at now s db ≡ ok r
    → FundingInv r.1
unfolding add_proof
add_proof-Inv amount proof_id proof_type at now s db f inv h =
    let (t, rs, h1) = >>=-eq-ok (refresh_source_amounts now _) _ h in
    let (_, _, h2) = >>=-eq-ok (source_hook t) _ h1 in
    let rf = refresh_source_amounts-Refreshed now _ rs in
    subst (λ (y : ℕ × FundingDb). FundingInv y.1) (ok-inj h2)
      (sources-Inv db (some s) t (ap (λ k. find_source k db) rf.same_id ∙ f)
        (rf.same_authorized, rf.same_reserved, rf.same_spent, rf.same_released, rf.same_mode) inv)

pub proof-Inv :
    (stable_id : List ℕ → ℕ) (owner reference amount proof_id proof_type at now : ℕ) (legacy : Bool)
    (db : FundingDb) {r : ℕ × FundingDb}
    → FundingInv db
    → record_secured_funding_proof stable_id owner reference amount proof_id proof_type at now
        legacy db
      ≡ ok r
    → FundingInv r.1
unfolding record_secured_funding_proof
proof-Inv stable_id owner reference amount proof_id proof_type at now legacy db {r} inv h =
    let id = secured_funding_source_id stable_id owner reference in
    elim (Option-cases (find_source id db)) [
      | inl absent ↦
          insert_secured-Inv id owner reference amount proof_id proof_type at legacy db {r = r}
            absent inv (ground arith)
      | inr (s, is) ↦
          add_proof-Inv amount proof_id proof_type at now s db {r = r}
            (ap (λ k. find_source k db) (key-find Source.source_id id db.sources is) ∙ is) inv
            (ground arith)
    ]
