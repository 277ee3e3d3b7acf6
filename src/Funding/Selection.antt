-- ===== src/Funding/Selection.antt =====
-- Choosing a source for a pass, and whether a pass can execute now (`resolveFundingSelection` and
-- `fundingExecutionStatus` of src/services/fundingSource.service.ts).
use fiberpassbackend.Prelude.{
  ℕ, ◌-◌, Bool, true, false, not, ◌&&◌, ◌||◌, Option, none, some, List, [], ◌∷◌, ltb, leb, ◌==◌,
  if◌then◌else◌, Outcome, ok, err, ◌>>=◌,
}
use fiberpassbackend.Prelude.Store.{find_where}
use fiberpassbackend.Funding.Domain.{
  FundingMode, connected_wallet, secured_autopay, FundingSourceState, available, unverified,
  insufficient, failed, revoked, FundingGuarantee, FundingRiskLabel, FundingError, is_stale,
  is_some,
}
use fiberpassbackend.Funding.Records.{Source, FundingDb, is_secured}
use fiberpassbackend.Funding.Sources.{find_source, ensure_connected_wallet_source}
use fiberpassbackend.Funding.Allocations.{find_allocation, is_active}

-- The codes that a selection or a status reports.
pub data Failure : Type 0 where
  stored : ℕ → Failure
  proof_required proof_stale connected_wallet_execution_unavailable : Failure
  allocation_insufficient source_not_found secured_insufficient : Failure
  balance_unverified balance_stale liquidity_insufficient : Failure

pub record FundingSelection : Type 0 where
  pub source_id : ℕ
  pub mode : FundingMode
  pub guarantee : FundingGuarantee
  pub risk_label : FundingRiskLabel
  pub execution_ready : Bool
  pub failure_code : Option Failure

abbrev is_available : FundingSourceState → Bool
is_available available = true
is_available _ = false

abbrev is_blocked : FundingSourceState → Bool
is_blocked unverified = true
is_blocked insufficient = true
is_blocked failed = true
is_blocked revoked = true
is_blocked _ = false

-- `staleAt: { $gt: now }`
abbrev is_fresh : Option ℕ → ℕ → Bool
is_fresh none now = false
is_fresh (some at) now = ltb now at

-- The query for a secured source with enough unallocated value. The difference in the database may be
-- negative, and is then below every amount.
abbrev is_candidate : (owner amount now : ℕ) → Source → Bool
is_candidate owner amount now s =
    s.owner_wallet_id == owner
    && is_secured s.mode
    && is_some s.network_proof_id
    && is_available s.state
    && is_fresh s.stale_at now
    && leb s.reserved_minor s.locked_minor
    && leb amount (s.locked_minor - s.reserved_minor)

-- The order of the labels as strings: "legacy_operator_vault", "none", "unaudited_operator_contract".
abbrev rank : FundingRiskLabel → ℕ
rank FundingRiskLabel.legacy_operator_vault = 0
rank FundingRiskLabel.no_risk = 1
rank FundingRiskLabel.unaudited_operator_contract = 2

better : Source → Option Source → Source
better s none = s
better s (some t) = if ltb (rank t.risk_label) (rank s.risk_label) then t else s

-- `sort({ riskLabel: 1, createdAt: 1 })`, the first: the sources stand in the order of creation.
unfoldable pub first_candidate : (owner amount now : ℕ) → List Source → Option Source
unfolding better
first_candidate owner amount now [] = none
first_candidate owner amount now (s ∷ l) =
    let rest = first_candidate owner amount now l in
    if is_candidate owner amount now s then some (better s rest) else rest

abbrev is_owned : ℕ → ℕ → Source → Bool
is_owned id owner s = s.source_id == id && s.owner_wallet_id == owner

abbrev same_mode : FundingMode → FundingMode → Bool
same_mode connected_wallet connected_wallet = true
same_mode secured_autopay secured_autopay = true
same_mode _ _ = false

abbrev mode_agrees : Option FundingMode → Source → Bool
mode_agrees none s = true
mode_agrees (some mode) s = same_mode s.mode mode

abbrev stored_failure : Option ℕ → Option Failure
stored_failure none = none
stored_failure (some code) = some (Failure.stored code)

abbrev secured_failure : Source → ℕ → Option Failure
secured_failure s now =
    if not (is_some s.network_proof_id)
    then some Failure.proof_required
    else if is_stale s.stale_at now
    then some Failure.proof_stale
    else stored_failure s.failure_code

unfoldable pub selection_of : Source → ℕ → FundingSelection
selection_of s now = record {
  source_id = s.source_id;
  mode = s.mode;
  guarantee = s.guarantee;
  risk_label = s.risk_label;
  execution_ready =
      is_secured s.mode
      && is_some s.network_proof_id
      && not (is_stale s.stale_at now)
      && not (is_blocked s.state);
  failure_code =
      if is_secured s.mode
      then secured_failure s now
      else some Failure.connected_wallet_execution_unavailable;
}

-- The source that was asked for or found, before the connected wallet is taken in its place.
unfoldable pub requested_source :
    (owner amount now : ℕ)
    → Option FundingMode
    → Option ℕ
    → List Source
    → Outcome FundingError (Option Source)
requested_source owner amount now mode (some id) sources =
    elim (find_where (is_owned id owner) sources) [
      | none ↦ err FundingError.source_not_found
      | some s ↦ if mode_agrees mode s then ok (some s) else err FundingError.mode_mismatch
    ]
requested_source owner amount now none none sources = ok (first_candidate owner amount now sources)
requested_source owner amount now (some connected_wallet) none sources = ok none
requested_source owner amount now (some secured_autopay) none sources =
    elim (first_candidate owner amount now sources) [
      | none ↦ err FundingError.insufficient_funds
      | some s ↦ ok (some s)
    ]

unfoldable pub resolve_funding_selection :
    (stable_id : List ℕ → ℕ) (owner address rail asset amount now : ℕ)
    → Option FundingMode
    → Option ℕ
    → FundingDb
    → Outcome FundingError (FundingSelection × FundingDb)
unfolding requested_source
resolve_funding_selection stable_id owner address rail asset amount now mode source_id db = do
  source ← requested_source owner amount now mode source_id db.sources
  elim source [
    | some s ↦ ok (selection_of s now, db)
    | none ↦
        let (s, db') = ensure_connected_wallet_source stable_id owner address rail asset db in
        ok (selection_of s now, db')
  ]

-- `undefined` when the pass can execute, or the code of what stands in the way.
abbrev secured_status : Source → (amount now : ℕ) → Option Failure
secured_status s amount now =
    if not (is_some s.network_proof_id)
    then some Failure.proof_required
    else if is_stale s.stale_at now
    then some Failure.proof_stale
    else if ltb s.locked_minor s.reserved_minor
        || ltb s.locked_minor amount
        || ltb s.reserved_minor amount
    then some Failure.secured_insufficient
    else none

abbrev connected_status : Source → (amount now : ℕ) → Option Failure
connected_status s amount now =
    if not (is_some s.balance_observed_at)
    then some Failure.balance_unverified
    else if is_stale s.stale_at now
    then some Failure.balance_stale
    else if ltb s.available_minor amount
    then some Failure.liquidity_insufficient
    else none

unfoldable pub source_status : Source → (amount now : ℕ) → Option Failure
source_status s amount now = elim s.failure_code [
  | some code ↦ some (Failure.stored code)
  | none ↦ if is_secured s.mode then secured_status s amount now else connected_status s amount now
]

unfoldable pub funding_execution_status : (session amount now : ℕ) → FundingDb → Option Failure
funding_execution_status session amount now db = elim (find_allocation session db) [
  | none ↦ none
  | some a ↦
      if not (is_active a.state) || ltb a.remaining_minor amount
      then some Failure.allocation_insufficient
      else elim (find_source a.source_id db) [
        | none ↦ some Failure.source_not_found
        | some s ↦ source_status s amount now
      ]
]
