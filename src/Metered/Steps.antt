-- ===== src/Metered/Steps.antt =====
-- The steps of the worker on batches and events (src/services/meteredPaymentWorker.service.ts), and what
-- grants hold in reserve.
use fiberpassbackend.Prelude.{
  ℕ, ◌≡◌, refl, sym, ◌∙◌, ap, subst, Bool, Option, none, some, List, [], ◌∷◌, arith, ◌==◌,
  if◌then◌else◌, Bool-cases, Option-cases, inl, inr,
}
use fiberpassbackend.Prelude.Store.{total, update_where, update_where-eq-some, keep_first-eq-some}
use fiberpassbackend.Prelude.Documents.{update_many}
use fiberpassbackend.Metered.Records.{UsageEventRecord, MeteredBatchRecord, MeteredDb}
use fiberpassbackend.Metered.Batches.{has_batch_id}
use fiberpassbackend.Metered.Worker.{
  claim, claim_metered_batch, first_claimable, updated, update_one, is_leased, retried,
  retry_metered_batch, retry_delay, is_reserved_in, settling_from, mark_settling, submitted_with,
  mark_submitted,
}
use fiberpassbackend.Metered.Linked.{batch_grant, is_batch, Follows, total-stray}
use fiberpassbackend.Metered.Balance.{held, Held, update-stray}

-- A change of a batch that keeps its id and its grant.
abbrev pub Keeps : (MeteredBatchRecord → MeteredBatchRecord) → Type 0
Keeps f = (b : MeteredBatchRecord) → ((f b).batch_id ≡ b.batch_id) × ((f b).grant_id ≡ b.grant_id)

batch_grant-update :
    (i : ℕ) (p : MeteredBatchRecord → Bool) (f : MeteredBatchRecord → MeteredBatchRecord)
    (l : List MeteredBatchRecord) {b : MeteredBatchRecord} {l' : List MeteredBatchRecord}
    → Keeps f
    → update_where p f l ≡ some (b, l')
    → batch_grant i l' ≡ batch_grant i l
batch_grant-update i p f [] k h = cc
batch_grant-update i p f (a ∷ l) {b} {l'} k h = elim (Bool-cases (p a)) [
  | inl yes_first ↦ let is : l' ≡ f a ∷ l = ground arith in rw is (ground (arith, (k a).0, (k a).1))
  | inr not_first ↦
      let (m, hm, is) =
        keep_first-eq-some a (update_where p f l) {b = b} {l' = l'} (ground arith) in
      rw is (ground (arith, batch_grant-update i p f l {b = b} {l' = m} k hm))
]

pub update-Follows :
    (p : MeteredBatchRecord → Bool) (f : MeteredBatchRecord → MeteredBatchRecord)
    (l : List MeteredBatchRecord) {b : MeteredBatchRecord} {l' : List MeteredBatchRecord}
    → Keeps f
    → update_where p f l ≡ some (b, l')
    → Follows l l'
update-Follows p f l {b} {l'} k h =
    let u = update_where-eq-some p f l h in
    record {
      stays = λ i g. batch_grant-update i p f l k h ∙ g;
      unique = λ n i.
          let same : is_batch i (f u.before) ≡ is_batch i u.before =
            ap (λ j. if j == i then 1 else 0) (k u.before).0 in
          omega (arith, u.sums (is_batch i), same, n i);
    }

pub batches-Held :
    (db : MeteredDb) (l : List MeteredBatchRecord)
    → Follows db.batches l
    → Held db
    → Held (record db { batches = l })
batches-Held db l f h = record {
  per_grant = h.per_grant;
  within_grants = h.within_grants;
  within_sessions = h.within_sessions;
  at_home = omega (arith, total-stray db.batches l db.events f, h.at_home);
  unique = f.unique h.unique;
}

updated-Held :
    (p : MeteredBatchRecord → Bool) (f : MeteredBatchRecord → MeteredBatchRecord) (db : MeteredDb)
    (o : Option (MeteredBatchRecord × List MeteredBatchRecord))
    → Keeps f
    → update_where p f db.batches ≡ o
    → Held db
    → Held (updated o db).1
updated-Held p f db none k e h = h
updated-Held p f db (some (b, l)) k e h = batches-Held db l (update-Follows p f db.batches k e) h

pub claim_metered_batch-Held :
    (lease now : ℕ) (db : MeteredDb) → Held db → Held (claim_metered_batch lease now db).1
unfolding claim_metered_batch
claim_metered_batch-Held lease now db h = elim (Option-cases (first_claimable now db.batches)) [
  | inl absent ↦ rw (absent, claim_metered_batch) h
  | inr (b, is) ↦
      rw (is, claim_metered_batch)
        (updated-Held (has_batch_id b.batch_id) (claim lease now) db
          (update_where (has_batch_id b.batch_id) (claim lease now) db.batches) (λ c. (refl, refl))
          refl h)
]

pub update_one-Held :
    (p : MeteredBatchRecord → Bool) (f : MeteredBatchRecord → MeteredBatchRecord) (db : MeteredDb)
    → Keeps f
    → Held db
    → Held (record db { batches = update_one p f db.batches })
update_one-Held p f db k h = elim (Option-cases (update_where p f db.batches)) [
  | inl absent ↦
      subst (λ l. Held (record db { batches = l })) (sym (rw (absent, update_one) refl)) h
  | inr ((b, l), is) ↦
      subst (λ m. Held (record db { batches = m })) (sym (rw (is, update_one) refl))
        (batches-Held db l (update-Follows p f db.batches k is) h)
]

pub retry_metered_batch-Held :
    (b : MeteredBatchRecord) (submitted : Bool) (code now : ℕ) (db : MeteredDb)
    → Held db
    → Held (retry_metered_batch b submitted code now db)
unfolding retry_metered_batch
retry_metered_batch-Held b submitted code now db h =
    update_one-Held (is_leased b) (retried submitted code (retry_delay b.attempts) now) db
      (λ c. (refl, refl)) h

pub mark_submitted-Held :
    (b : MeteredBatchRecord) (id : Option ℕ) (now : ℕ) (db : MeteredDb)
    → Held db
    → Held (mark_submitted b id now db)
unfolding mark_submitted
mark_submitted-Held b id now db h =
    update_one-Held (is_leased b) (submitted_with id now) db (λ c. (refl, refl)) h

settling-held :
    (i batch now : ℕ) (l : List UsageEventRecord)
    → total (held i) (update_many (is_reserved_in batch) (settling_from now) l) ≡ total (held i) l
settling-held i batch now [] = refl
settling-held i batch now (e ∷ l) = elim (Bool-cases (is_reserved_in batch e)) [
  | inl yes_held ↦
      let same : held i (settling_from now e) ≡ held i e = ground arith in
      ground (arith, settling-held i batch now l)
  | inr not_held ↦ ground (arith, settling-held i batch now l)
]

pub mark_settling-Held :
    (batch now : ℕ) (db : MeteredDb) → Held db → Held (mark_settling batch now db)
unfolding mark_settling
mark_settling-Held batch now db h = record {
  per_grant = λ i. h.per_grant i ∙ sym (settling-held i batch now db.events);
  within_grants = h.within_grants;
  within_sessions = h.within_sessions;
  at_home =
      update-stray (is_reserved_in batch) (settling_from now) db.batches db.events (λ e. refl)
      ∙ h.at_home;
  unique = h.unique;
}
