-- ===== src/Metered/Placement.antt =====
-- Where a usage event goes (`acceptUsageEventOnce` of src/services/meteredPayment.service.ts).
use fiberpassbackend.Prelude.{
  ℕ, ◌+◌, ◌≤◌, ◌≡◌, refl, sym, ◌∙◌, ap, subst, Bool, true, false, ◌&&◌, some, List, [], ◌∷◌, ◌++◌,
  arith, ◌==◌, Bool-cases, Option-cases, inl, inr, ok, >>=-eq-ok,
}
use fiberpassbackend.Prelude.Store.{find_where, total}
use fiberpassbackend.Prelude.Documents.{save, create, create-eq-ok}
use fiberpassbackend.Charges.Preservation.{find_where-passes}
use fiberpassbackend.Metered.Records.{MeteredGrantRecord, MeteredBatchRecord, MeteredError}
use fiberpassbackend.Metered.Amounts.{atomic}
use fiberpassbackend.Metered.Batches.{
  has_batch_id, collects, batch_clash, is_full, queued_now, new_batch, with_event, add_to,
  open_batch, collect_in, place_event, closes, is_immediate,
}
use fiberpassbackend.Metered.Linked.{
  batch_grant, is_batch, Follows, Follows-trans, save-Follows, append-Follows, batch_grant_unique,
  fresh-none,
}

-- A batch that was found or opened for a grant among batches with unique ids.
pub record Placed (grant : ℕ) (l l' : List MeteredBatchRecord) (b : MeteredBatchRecord)
    : Type 0 where
  pub follows : Follows l l'
  pub home : ((i : ℕ) → total (is_batch i) l ≤ 1) → batch_grant b.batch_id l' ≡ some grant

with_event-id :
    (grant : MeteredGrantRecord) (immediate : Bool) (sum now : ℕ) (b : MeteredBatchRecord)
    → ((with_event grant immediate sum now b).batch_id ≡ b.batch_id)
      × ((with_event grant immediate sum now b).grant_id ≡ b.grant_id)
with_event-id grant immediate sum now b =
    elim (Bool-cases (closes grant immediate sum (b.event_count + 1))) [
      | inl yes_closed ↦ (rw yes_closed, rw yes_closed)
      | inr not_closed ↦ (rw not_closed, rw not_closed)
    ]

add_to-Placed :
    (p : MeteredBatchRecord → Bool) (grant : MeteredGrantRecord) (immediate : Bool) (amount now : ℕ)
    (b : MeteredBatchRecord) (l : List MeteredBatchRecord)
    {r : MeteredBatchRecord × List MeteredBatchRecord}
    → find_where p l ≡ some b
    → b.grant_id ≡ grant.grant_id
    → add_to p grant immediate amount now b l ≡ ok r
    → Placed grant.grant_id l r.1 r.0
unfolding add_to
add_to-Placed p grant immediate amount now b l {r} f own h =
    let (sum, hs, h1) = >>=-eq-ok (atomic (b.total_atomic + amount)) _ h in
    let next = with_event grant immediate sum now b in
    let (same_id, same_grant) = with_event-id grant immediate sum now b in
    let follows : Follows l (save p next l) = save-Follows p next l f same_id same_grant in
    let is : (next, save p next l) ≡ r = cc in
    subst (λ (x : MeteredBatchRecord × List MeteredBatchRecord). Placed grant.grant_id l x.1 x.0) is
      (record {
        follows = follows;
        home = λ u. follows.stays next.batch_id (
            subst (λ k. batch_grant k l ≡ some grant.grant_id) (sym same_id)
              (batch_grant_unique p l f (u b.batch_id) ∙ ap some own));
      })

find-append :
    (i : ℕ) (l : List MeteredBatchRecord) (a : MeteredBatchRecord)
    → total (is_batch a.batch_id) l ≡ 0
    → find_where (has_batch_id a.batch_id) (l ++ (a ∷ [])) ≡ some a
find-append i [] a h = ground arith
find-append i (b ∷ l) a h = ground (arith, find-append i l a)

open_batch-Placed :
    (grant : MeteredGrantRecord) (id key : ℕ) (immediate : Bool) (amount now : ℕ)
    (l : List MeteredBatchRecord) {r : MeteredBatchRecord × List MeteredBatchRecord}
    → open_batch grant id key immediate amount now l ≡ ok r
    → Placed grant.grant_id l r.1 r.0
unfolding open_batch
open_batch-Placed grant id key immediate amount now l {r} h =
    let b = new_batch grant id key immediate now in
    let (created, hc, h1) = >>=-eq-ok (create (batch_clash b) MeteredError.duplicate_key b l) _ h in
    let (free, is) = create-eq-ok (batch_clash b) MeteredError.duplicate_key b l hc in
    let fresh : total (is_batch id) l ≡ 0 =
      fresh-none id (λ c. b.accepting && c.accepting && c.batch_key == key) l free in
    let opened = append-Follows l b fresh in
    let placed =
      add_to-Placed (has_batch_id id) grant immediate amount now b (l ++ (b ∷ [])) {r = r}
        (find-append id l b fresh) refl
        (subst (λ x. add_to (has_batch_id id) grant immediate amount now b x ≡ ok r) is h1) in
    record {
      follows = Follows-trans opened placed.follows;
      home = λ u. placed.home (opened.unique u);
    }

collect_in-Placed :
    (grant : MeteredGrantRecord) (id key amount now : ℕ) (l : List MeteredBatchRecord)
    {r : MeteredBatchRecord × List MeteredBatchRecord}
    → collect_in (find_where (collects key grant.grant_id) l) grant id key amount now l ≡ ok r
    → Placed grant.grant_id l r.1 r.0
unfolding collect_in
collect_in-Placed grant id key amount now l {r} h =
    elim (Option-cases (find_where (collects key grant.grant_id) l)) [
      | inl absent ↦
          open_batch-Placed grant id key false amount now l
            (subst (λ o. collect_in o grant id key amount now l ≡ ok r) absent h)
      | inr (b, f) ↦
          let h1 : collect_in (some b) grant id key amount now l ≡ ok r =
            subst (λ o. collect_in o grant id key amount now l ≡ ok r) f h in
          let passes = find_where-passes (collects key grant.grant_id) l f in
          let own : b.grant_id ≡ grant.grant_id = ground arith in
          elim (Bool-cases (is_full grant amount b)) [
            | inl yes_full ↦
                let closed =
                  save-Follows (collects key grant.grant_id) (queued_now now b) l f refl refl in
                let placed =
                  open_batch-Placed grant id key false amount now
                    (save (collects key grant.grant_id) (queued_now now b) l) {r = r}
                    (rw yes_full at h1) in
                record {
                  follows = Follows-trans closed placed.follows;
                  home = λ u. placed.home (closed.unique u);
                }
            | inr not_full ↦
                add_to-Placed (collects key grant.grant_id) grant false amount now b l f own
                  (rw not_full at h1)
          ]
    ]

pub place_event-Placed :
    (grant : MeteredGrantRecord) (id key amount now : ℕ) (l : List MeteredBatchRecord)
    {r : MeteredBatchRecord × List MeteredBatchRecord}
    → place_event grant id key amount now l ≡ ok r
    → Placed grant.grant_id l r.1 r.0
unfolding place_event
place_event-Placed grant id key amount now l {r} h = elim (Bool-cases (is_immediate grant amount)) [
  | inl yes_now ↦ open_batch-Placed grant id key true amount now l (rw yes_now at h)
  | inr not_now ↦ collect_in-Placed grant id key amount now l (rw not_now at h)
]
