-- ===== src/Metered/Linked.antt =====
-- Usage events, their batches and the grants of these (src/services/meteredPayment.service.ts).
use fiberpassbackend.Prelude.{
  ℕ, ◌≤◌, ◌≡◌, refl, sym, ◌∙◌, ap, Bool, false, ◌||◌, Option, none, some, List, [], ◌∷◌, ◌++◌,
  arith, ◌==◌, if◌then◌else◌, Bool-cases, Option-cases, inl, inr, any, ==_iff,
}
use fiberpassbackend.Prelude.Store.{find_where, total}
use fiberpassbackend.Prelude.Documents.{save, find-weight, total-append, total-save_same}
use fiberpassbackend.Metered.Records.{UsageEventRecord, MeteredBatchRecord}

-- The grant of the batch with an id.
abbrev pub batch_grant : ℕ → List MeteredBatchRecord → Option ℕ
batch_grant i [] = none
batch_grant i (b ∷ l) = if b.batch_id == i then some b.grant_id else batch_grant i l

abbrev pub is_batch : ℕ → MeteredBatchRecord → ℕ
is_batch i b = if b.batch_id == i then 1 else 0

abbrev pub differs : Option ℕ → ℕ → ℕ
differs none g = 1
differs (some h) g = if h == g then 0 else 1

-- 1 for an event whose batch is missing or of another grant.
abbrev pub stray : List MeteredBatchRecord → UsageEventRecord → ℕ
stray batches e = differs (batch_grant e.batch_id batches) e.grant_id

pub batch_grant-save :
    (i : ℕ) (p : MeteredBatchRecord → Bool) (a : MeteredBatchRecord) (l : List MeteredBatchRecord)
    {b : MeteredBatchRecord}
    → find_where p l ≡ some b
    → a.batch_id ≡ b.batch_id
    → a.grant_id ≡ b.grant_id
    → batch_grant i (save p a l) ≡ batch_grant i l
batch_grant-save i p a [] f hi hg = cc
batch_grant-save i p a (c ∷ l) {b} f hi hg = elim (Bool-cases (p c)) [
  | inl passes ↦ let same : c ≡ b = ground arith in ground arith
  | inr fails ↦ ground (arith, batch_grant-save i p a l {b = b} (ground arith) hi hg)
]

pub batch_grant-append :
    (i : ℕ) (l : List MeteredBatchRecord) (a : MeteredBatchRecord) {g : ℕ}
    → batch_grant i l ≡ some g
    → batch_grant i (l ++ (a ∷ [])) ≡ some g
batch_grant-append i [] a h = cc
batch_grant-append i (b ∷ l) a {g} h = ground (arith, batch_grant-append i l a {g = g})

pub batch_grant-fresh :
    (l : List MeteredBatchRecord) (a : MeteredBatchRecord)
    → total (is_batch a.batch_id) l ≡ 0
    → batch_grant a.batch_id (l ++ (a ∷ [])) ≡ some a.grant_id
batch_grant-fresh [] a h = ground arith
batch_grant-fresh (b ∷ l) a h = ground (arith, batch_grant-fresh l a)

pub fresh-none :
    (id : ℕ) (q : MeteredBatchRecord → Bool) (l : List MeteredBatchRecord)
    → any (λ b. b.batch_id == id || q b) l ≡ false
    → total (is_batch id) l ≡ 0
fresh-none id q [] h = refl
fresh-none id q (b ∷ l) h = ground (arith, fresh-none id q l)

-- With unique ids, a batch that some query finds is the one with its id.
pub batch_grant_unique :
    (p : MeteredBatchRecord → Bool) (l : List MeteredBatchRecord) {b : MeteredBatchRecord}
    → find_where p l ≡ some b
    → total (is_batch b.batch_id) l ≤ 1
    → batch_grant b.batch_id l ≡ some b.grant_id
batch_grant_unique p [] f u = cc
batch_grant_unique p (c ∷ l) {b} f u = elim (Bool-cases (p c)) [
  | inl passes ↦ let same : c ≡ b = ground arith in ground arith
  | inr fails ↦
      let later : find_where p l ≡ some b = ground arith in
      let one : is_batch b.batch_id b ≤ total (is_batch b.batch_id) l =
        find-weight (is_batch b.batch_id) p l later in
      ground (arith, batch_grant_unique p l {b = b} later)
]

-- What may happen to the batches: none is lost or changes its grant, and the ids stay unique.
pub record Follows (l l' : List MeteredBatchRecord) : Type 0 where
  pub stays : (i : ℕ) {g : ℕ} → batch_grant i l ≡ some g → batch_grant i l' ≡ some g
  pub unique : ((i : ℕ) → total (is_batch i) l ≤ 1) → (i : ℕ) → total (is_batch i) l' ≤ 1

pub Follows-trans :
    {l l' l'' : List MeteredBatchRecord} → Follows l l' → Follows l' l'' → Follows l l''
Follows-trans f f' = record {
  stays = λ i h. f'.stays i (f.stays i h);
  unique = λ u. f'.unique (f.unique u);
}

pub save-Follows :
    (p : MeteredBatchRecord → Bool) (a : MeteredBatchRecord) (l : List MeteredBatchRecord)
    {b : MeteredBatchRecord}
    → find_where p l ≡ some b
    → a.batch_id ≡ b.batch_id
    → a.grant_id ≡ b.grant_id
    → Follows l (save p a l)
save-Follows p a l f hi hg = record {
  stays = λ i h. batch_grant-save i p a l f hi hg ∙ h;
  unique = λ u i.
      omega
        (arith, u i, total-save_same (is_batch i) p a l f (ap (λ k. if k == i then 1 else 0) hi));
}

pub append-Follows :
    (l : List MeteredBatchRecord) (a : MeteredBatchRecord)
    → total (is_batch a.batch_id) l ≡ 0
    → Follows l (l ++ (a ∷ []))
append-Follows l a fresh = record {
  stays = λ i h. batch_grant-append i l a h;
  unique = λ u i. elim (Bool-cases (a.batch_id == i)) [
    | inl same ↦
        let e : a.batch_id ≡ i = (==_iff a.batch_id i).0 same in
        let none_yet : total (is_batch i) l ≡ 0 = rw (sym e) fresh in
        ground (arith, total-append (is_batch i) l a)
    | inr other ↦ ground (arith, total-append (is_batch i) l a, u i)
  ];
}

stray_mono :
    (l l' : List MeteredBatchRecord) (e : UsageEventRecord) → Follows l l' → stray l' e ≤ stray l e
stray_mono l l' e f = elim (Option-cases (batch_grant e.batch_id l)) [
  | inl absent ↦ ground arith
  | inr (g, is) ↦
      let still : batch_grant e.batch_id l' ≡ some g = f.stays e.batch_id is in ground arith
]

pub total-stray :
    (l l' : List MeteredBatchRecord) (events : List UsageEventRecord)
    → Follows l l'
    → total (stray l') events ≤ total (stray l) events
total-stray l l' [] f = omega arith
total-stray l l' (e ∷ events) f = omega (arith, stray_mono l l' e f, total-stray l l' events f)
