-- ===== src/Funding/Sources.antt =====
-- The operations of src/services/fundingSource.service.ts on funding sources: creation, observation
-- and selection.
use fiberpassbackend.Prelude.{
  ℕ, ◌+◌, ◌*◌, Bool, ◌&&◌, Option, none, some, List, [], ◌∷◌, ltb, ◌==◌, if◌then◌else◌, Outcome, ok,
  err, ◌>>=◌, ◌>>◌, codes,
}
use fiberpassbackend.Prelude.Store.{find, put, find_where}
use fiberpassbackend.Funding.Domain.{
  connected_wallet, secured_autopay, FundingSourceKind, FundingGuarantee, FundingRiskLabel,
  available, unverified, insufficient, FundingError,
}
use fiberpassbackend.Funding.Records.{
  Source, SourceAtomics, FundingDb, Funding, minor_atomic, is_secured, refresh_source_amounts,
  source_hook,
}

-- `SOURCE_FRESHNESS_MS`
abbrev pub source_freshness_ms : ℕ
source_freshness_ms = 5 * 60 * 1000

-- `amountFields(prefix, 0)` for every amount of a new source.
abbrev pub zero_atomics : SourceAtomics
zero_atomics = record {
  available = codes "0";
  authorized = codes "0";
  locked = codes "0";
  reserved = codes "0";
  spent = codes "0";
  released = codes "0";
  reclaimable = codes "0";
}

abbrev pub find_source : ℕ → FundingDb → Option Source
find_source id db = find Source.source_id id db.sources

abbrev pub save_source : Source → FundingDb → FundingDb
save_source s db = record db { sources = put Source.source_id s db.sources }

-- The failure code SECURED_FUNDING_AGGREGATE_INSUFFICIENT.
abbrev aggregate_insufficient : ℕ
aggregate_insufficient = 1

abbrev pub new_connected_source : ℕ → ℕ → ℕ → Source
new_connected_source id owner address = record {
  source_id = id;
  owner_wallet_id = owner;
  mode = connected_wallet;
  source_kind = FundingSourceKind.external_wallet;
  source_reference = address;
  guarantee = FundingGuarantee.authorization_only;
  risk_label = FundingRiskLabel.no_risk;
  state = unverified;
  available_minor = 0;
  authorized_minor = 0;
  locked_minor = 0;
  reserved_minor = 0;
  spent_minor = 0;
  released_minor = 0;
  reclaimable_minor = 0;
  atomics = zero_atomics;
  network_proof_id = none;
  network_proof_type = none;
  proof_observed_at = none;
  balance_observed_at = none;
  stale_at = none;
  failure_code = none;
}

abbrev pub insert_new : Option Source → Source → FundingDb → Source × FundingDb
insert_new (some s) new db = (s, db)
insert_new none new db = (new, save_source new db)

unfoldable pub observe :
    Source → (available_minor observed_at now : ℕ) → Outcome FundingError Source
observe ensured available_minor observed_at now = do
  s ← refresh_source_amounts now (record ensured {
    available_minor = available_minor;
    guarantee = FundingGuarantee.balance_observed;
    balance_observed_at = some observed_at;
    stale_at = some (observed_at + source_freshness_ms);
    failure_code = none;
  })
  source_hook s
  ok s

abbrev pub save_observed :
    Outcome FundingError Source → FundingDb → Outcome FundingError (Unit {0}) × FundingDb
save_observed (ok s) db = (ok tt, save_source s db)
save_observed (err e) db = (err e, db)

abbrev pub new_secured_source :
    (id owner reference amount proof_id proof_type at : ℕ) → Bool → SourceAtomics → Source
new_secured_source id owner reference amount proof_id proof_type at legacy atomics = record {
  source_id = id;
  owner_wallet_id = owner;
  mode = secured_autopay;
  source_kind =
      if legacy
      then FundingSourceKind.legacy_operator_vault
      else FundingSourceKind.network_contract;
  source_reference = reference;
  guarantee = FundingGuarantee.network_locked_operator_controlled;
  risk_label =
      if legacy
      then FundingRiskLabel.legacy_operator_vault
      else FundingRiskLabel.unaudited_operator_contract;
  state = available;
  available_minor = amount;
  authorized_minor = 0;
  locked_minor = amount;
  reserved_minor = 0;
  spent_minor = 0;
  released_minor = 0;
  reclaimable_minor = amount;
  atomics = atomics;
  network_proof_id = some proof_id;
  network_proof_type = some proof_type;
  proof_observed_at = some at;
  balance_observed_at = some at;
  stale_at = some (at + source_freshness_ms);
  failure_code = none;
}

unfoldable pub insert_secured :
    (id owner reference amount_minor proof_id proof_type observed_at : ℕ) → Bool → Funding ℕ
insert_secured id owner reference amount_minor proof_id proof_type observed_at legacy db = do
  atomic ← minor_atomic amount_minor
  let atomics : SourceAtomics = record zero_atomics {
    available = atomic;
    locked = atomic;
    reclaimable = atomic;
  }
  let new : Source =
      new_secured_source id owner reference amount_minor proof_id proof_type observed_at legacy
        atomics
  source_hook new
  ok (id, save_source new db)

unfoldable pub add_proof :
    (amount_minor proof_id proof_type observed_at now : ℕ) → Source → Funding ℕ
add_proof amount_minor proof_id proof_type observed_at now source db = do
  let locked_minor = source.locked_minor + amount_minor
  s ← refresh_source_amounts now (record source {
    locked_minor = locked_minor;
    available_minor = locked_minor;
    network_proof_id = some proof_id;
    network_proof_type = some proof_type;
    proof_observed_at = some observed_at;
    balance_observed_at = some observed_at;
    stale_at = some (observed_at + source_freshness_ms);
    failure_code = none;
  })
  source_hook s
  ok (s.source_id, save_source s db)

-- `stableId` hashes the parts of an identity; the hash is a parameter. The words "secured" and
-- "connected" are 0 and 1.
module _ (stable_id : List ℕ → ℕ) where
  unfoldable pub secured_funding_source_id : ℕ → ℕ → ℕ
  secured_funding_source_id owner reference = stable_id (0 ∷ owner ∷ reference ∷ [])

  unfoldable pub connected_funding_source_id : ℕ → ℕ → ℕ → ℕ
  connected_funding_source_id owner rail asset = stable_id (1 ∷ owner ∷ rail ∷ asset ∷ [])

  -- The upsert inserts a new source where none has the id, and the read behind it finds one.
  unfoldable pub ensure_connected_wallet_source :
      (owner address rail asset : ℕ) → FundingDb → Source × FundingDb
  unfolding connected_funding_source_id
  ensure_connected_wallet_source owner address rail asset db =
      let id = connected_funding_source_id owner rail asset in
      insert_new (find_source id db) (new_connected_source id owner address) db

  -- The source is ensured first, and stays when the refresh throws.
  unfoldable pub record_connected_wallet_balance :
      (owner address rail asset available_minor observed_at now : ℕ)
      → FundingDb
      → Outcome FundingError (Unit {0}) × FundingDb
  unfolding ensure_connected_wallet_source observe
  record_connected_wallet_balance owner address rail asset available_minor observed_at now db =
      let (ensured, db') = ensure_connected_wallet_source owner address rail asset db in
      save_observed (observe ensured available_minor observed_at now) db'

  unfoldable pub record_secured_funding_proof :
      (owner reference amount_minor proof_id proof_type observed_at now : ℕ) → Bool → Funding ℕ
  unfolding secured_funding_source_id insert_secured add_proof
  record_secured_funding_proof owner reference amount_minor proof_id proof_type observed_at now
        legacy db =
      let id = secured_funding_source_id owner reference in
      elim (find_source id db) [
        | none ↦
            insert_secured id owner reference amount_minor proof_id proof_type observed_at legacy db
        | some source ↦ add_proof amount_minor proof_id proof_type observed_at now source db
      ]

abbrev pub is_secured_reference : ℕ → ℕ → Source → Bool
is_secured_reference owner reference s =
    s.owner_wallet_id == owner && is_secured s.mode && s.source_reference == reference

-- The amounts of an observation that finds less than the allocations hold.
unfoldable pub observe_short : Source → Outcome FundingError Source
observe_short s = do
  zero_atomic ← minor_atomic 0
  let atomics : SourceAtomics = record s.atomics { reclaimable = zero_atomic }
  ok (record s {
    reclaimable_minor = 0;
    atomics = atomics;
    state = insufficient;
    failure_code = some aggregate_insufficient;
  })

unfoldable pub observe_locked : (locked_minor observed_at now : ℕ) → Source → Funding (Unit {0})
unfolding observe_short
observe_locked locked_minor observed_at now source db = do
  atomic ← minor_atomic locked_minor
  let atomics : SourceAtomics = record source.atomics { locked = atomic; available = atomic }
  let observed : Source = record source {
    locked_minor = locked_minor;
    available_minor = locked_minor;
    atomics = atomics;
    balance_observed_at = some observed_at;
    stale_at = some (observed_at + source_freshness_ms);
  }
  s ←
      if ltb locked_minor source.reserved_minor
      then observe_short observed
      else refresh_source_amounts now (record observed { failure_code = none })
  source_hook s
  ok (tt, save_source s db)

-- An owner's secured source with that reference.
unfoldable pub record_secured_funding_balance :
    (owner reference locked_minor observed_at now : ℕ) → Funding (Unit {0})
record_secured_funding_balance owner reference locked_minor observed_at now db =
    elim (find_where (is_secured_reference owner reference) db.sources) [
      | none ↦ ok (tt, db)
      | some source ↦ observe_locked locked_minor observed_at now source db
    ]
