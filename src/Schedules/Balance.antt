-- ===== src/Schedules/Balance.antt =====
-- What passes hold in reserve, and the occurrences that are reserved
-- (src/services/paymentSchedule.service.ts).
use fiberpassbackend.Prelude.{
  ℕ, ◌+◌, ◌-◌, ◌≡◌, refl, sym, subst, true, false, not, ◌&&◌, ◌||◌, Option, none, some, List, [],
  ◌∷◌, arith, ◌==◌, ltb, if◌then◌else◌, Bool-cases, inl, inr, ==_iff,
}
use fiberpassbackend.Prelude.Store.{find_where, total}
use fiberpassbackend.Prelude.Documents.{save, total-save, find-weight, find-save}
use fiberpassbackend.Charges.Preservation.{find_where-passes}
use fiberpassbackend.Metered.Records.{SessionRecord}
use fiberpassbackend.Schedules.Records.{ScheduledOccurrenceRecord, ScheduleDb}
use fiberpassbackend.Schedules.Budget.{
  has_occurrence_id, has_session_id, is_reserved, limit_of, spent_of, reserved_of, exact,
  reserve_session, reserve_in, reserve_found, hold, free, is_active, ended, is_spent, set_reserved,
  release_session, release_found,
}

abbrev pub held : ℕ → ScheduledOccurrenceRecord → ℕ
held session o =
    if o.session_id == session && is_reserved o.reservation_state then o.amount_atomic else 0

pub own_occurrence :
    (id : ℕ) (l : List ScheduledOccurrenceRecord) {o : ScheduledOccurrenceRecord}
    → find_where (has_occurrence_id id) l ≡ some o
    → find_where (has_occurrence_id o.occurrence_id) l ≡ some o
own_occurrence id l {o} h =
    let same : o.occurrence_id ≡ id =
      (==_iff o.occurrence_id id).0 (find_where-passes (has_occurrence_id id) l h) in
    subst (λ i. find_where (has_occurrence_id i) l ≡ some o) (sym same) h

pub held-idle :
    (session : ℕ) (o : ScheduledOccurrenceRecord)
    → is_reserved o.reservation_state ≡ false
    → held session o ≡ 0
held-idle session o new = ground (arith, new)

pub held-own :
    (o : ScheduledOccurrenceRecord)
    → is_reserved o.reservation_state ≡ true
    → held o.session_id o ≡ o.amount_atomic
held-own o live = rw ((==_iff o.session_id o.session_id).1 refl) (rw live refl)

-- A session that is saved is found by its own id only.
find-save_other :
    (i j : ℕ) (a : SessionRecord) (l : List SessionRecord)
    → a.public_id ≡ i
    → (i == j) ≡ false
    → find_where (has_session_id j) (save (has_session_id i) a l) ≡ find_where (has_session_id j) l
find-save_other i j a [] its other = refl
find-save_other i j a (c ∷ l) its other = elim (Bool-cases (c.public_id == i)) [
  | inl here ↦
      let same : c.public_id ≡ i = (==_iff c.public_id i).0 here in
      rw here (rw same (rw its (rw other refl)))
  | inr there ↦ rw there (ground (arith, find-save_other i j a l its other))
]

module _ (limit_display spent_display : SessionRecord → ℕ) where
  abbrev pub booked : Option SessionRecord → ℕ
  booked none = 0
  booked (some s) = reserved_of limit_display spent_display s

  module _ (other : (session : ℕ) → ℕ) where
    -- In every pass, what it holds in reserve is the amount of its reserved occurrences, and what else
    -- is held in it (for charges and usage events).
    pub record Held (db : ScheduleDb) : Type 0 where
      pub per_session :
          (session : ℕ)
          → booked (find_where (has_session_id session) db.sessions)
            ≡ total (held session) db.occurrences + other session

    -- A change of one pass and one occurrence of it together.
    pub together-Held :
        (db db' : ScheduleDb) (s s' : SessionRecord) (o o' : ScheduledOccurrenceRecord)
        → find_where (has_session_id o.session_id) db.sessions ≡ some s
        → find_where (has_occurrence_id o.occurrence_id) db.occurrences ≡ some o
        → db'.sessions ≡ save (has_session_id o.session_id) s' db.sessions
        → db'.occurrences ≡ save (has_occurrence_id o.occurrence_id) o' db.occurrences
        → s'.public_id ≡ o.session_id
        → o'.session_id ≡ o.session_id
        → booked (some s') + held o.session_id o ≡ booked (some s) + held o.session_id o'
        → Held db
        → Held db'
    unfolding exact
    together-Held db db' s s' o o' fs fo hs ho its keeps both h =
        let kept =
          find-save (has_session_id o.session_id) s' db.sessions fs
            ((==_iff s'.public_id o.session_id).1 its) in
        let agreed : booked (some s)
            ≡ total (held o.session_id) db.occurrences + other o.session_id =
          subst (λ x. booked x ≡ total (held o.session_id) db.occurrences + other o.session_id) fs
            (h.per_session o.session_id) in
        let changed =
          total-save (held o.session_id) (has_occurrence_id o.occurrence_id) o' db.occurrences fo in
        let own : booked (find_where (has_session_id o.session_id) db'.sessions)
            ≡ total (held o.session_id) db'.occurrences + other o.session_id =
          rw hs (rw ho (rw kept (omega (arith, agreed, changed, both)))) in
        record {
          per_session = λ i.
              let changed =
                total-save (held i) (has_occurrence_id o.occurrence_id) o' db.occurrences fo in
              let agreed = h.per_session i in
              elim (Bool-cases (o.session_id == i)) [
                | inl here ↦
                    subst
                      (λ k.
                        booked (find_where (has_session_id k) db'.sessions)
                        ≡ total (held k) db'.occurrences + other k)
                      ((==_iff o.session_id i).0 here) own
                | inr there ↦
                    let same = find-save_other o.session_id i s' db.sessions its there in
                    let idle : held i o ≡ 0 = rw there refl in
                    let idle' : held i o' ≡ 0 = rw keeps (rw there refl) in
                    rw hs (rw ho (rw same (omega (arith, agreed, changed, idle, idle'))))
              ];
        }

    pub reserve_in-Held :
        (so : Option SessionRecord) (o : ScheduledOccurrenceRecord) (now : ℕ) (db : ScheduleDb)
        → find_where (has_session_id o.session_id) db.sessions ≡ so
        → find_where (has_occurrence_id o.occurrence_id) db.occurrences ≡ some o
        → is_reserved o.reservation_state ≡ false
        → Held db
        → Held (reserve_in limit_display spent_display so o now db).1
    unfolding reserve_in exact
    reserve_in-Held none o now db fs fo new h = h
    reserve_in-Held (some s) o now db fs fo new h =
        let its : s.public_id ≡ o.session_id =
          (==_iff s.public_id o.session_id).0
            (find_where-passes (has_session_id o.session_id) db.sessions fs) in
        elim (Bool-cases (not (is_active s.status) || ended now s.expiry_at)) [
          | inl closed ↦ rw closed h
          | inr usable ↦
              elim (Bool-cases (
                ltb (limit_of limit_display spent_display s) (
                  spent_of limit_display spent_display s
                  + reserved_of limit_display spent_display s
                  + o.amount_atomic))) [
                    | inl over ↦ rw usable (rw over h)
                    | inr fits ↦ rw usable (
                        rw fits (
                          together-Held db
                            (record db {
                              sessions =
                                  save (has_session_id o.session_id)
                                    (reserve_session limit_display spent_display o.amount_atomic s)
                                    db.sessions;
                              occurrences =
                                  save (has_occurrence_id o.occurrence_id) (hold now o)
                                    db.occurrences;
                            })
                            s (reserve_session limit_display spent_display o.amount_atomic s) o
                            (hold now o) fs fo refl refl its refl
                            (let idle = held-idle o.session_id o new in
                              let live = held-own (hold now o) refl in omega (arith, idle, live))
                            h))
                  ]
        ]

    pub reserve_found-Held :
        (o : Option ScheduledOccurrenceRecord) (id now : ℕ) (db : ScheduleDb)
        → find_where (has_occurrence_id id) db.occurrences ≡ o
        → Held db
        → Held (reserve_found limit_display spent_display o now db).1
    unfolding reserve_found
    reserve_found-Held none id now db fo h = h
    reserve_found-Held (some o) id now db fo h =
        elim (Bool-cases (is_reserved o.reservation_state || is_spent o.reservation_state)) [
          | inl held_already ↦ rw held_already h
          | inr new ↦ rw new (
              reserve_in-Held (find_where (has_session_id o.session_id) db.sessions) o now db refl
                (own_occurrence id db.occurrences fo) (ground arith) h)
        ]

    -- The pass of a reserved occurrence.
    released-Held :
        (so : Option SessionRecord) (o : ScheduledOccurrenceRecord) (db : ScheduleDb)
        → find_where (has_session_id o.session_id) db.sessions ≡ so
        → find_where (has_occurrence_id o.occurrence_id) db.occurrences ≡ some o
        → is_reserved o.reservation_state ≡ true
        → Held db
        → Held (record db {
          sessions = release_session limit_display spent_display so o db.sessions;
          occurrences = save (has_occurrence_id o.occurrence_id) (free o) db.occurrences;
        })
    unfolding release_session exact
    released-Held none o db fs fo live h =
        let nothing : 0 ≡ total (held o.session_id) db.occurrences + other o.session_id =
          subst (λ x. booked x ≡ total (held o.session_id) db.occurrences + other o.session_id) fs
            (h.per_session o.session_id) in
        let mine = held-own o live in
        let most =
          find-weight (held o.session_id) (has_occurrence_id o.occurrence_id) db.occurrences fo in
        let empty : o.amount_atomic ≡ 0 = omega (arith, nothing, mine, most) in
        record {
          per_session = λ i.
              let changed =
                total-save (held i) (has_occurrence_id o.occurrence_id) (free o) db.occurrences
                  fo in
              let idle : held i o ≡ 0 = ground (arith, empty) in
              let idle' = held-idle i (free o) refl in
              omega (arith, h.per_session i, changed, idle, idle');
        }
    released-Held (some s) o db fs fo live h =
        let its : s.public_id ≡ o.session_id =
          (==_iff s.public_id o.session_id).0
            (find_where-passes (has_session_id o.session_id) db.sessions fs) in
        let agreed : booked (some s)
            ≡ total (held o.session_id) db.occurrences + other o.session_id =
          subst (λ x. booked x ≡ total (held o.session_id) db.occurrences + other o.session_id) fs
            (h.per_session o.session_id) in
        let mine = held-own o live in
        let most =
          find-weight (held o.session_id) (has_occurrence_id o.occurrence_id) db.occurrences fo in
        together-Held db
          (record db {
            sessions =
                save (has_session_id o.session_id)
                  (set_reserved (reserved_of limit_display spent_display s - o.amount_atomic) s)
                  db.sessions;
            occurrences = save (has_occurrence_id o.occurrence_id) (free o) db.occurrences;
          })
          s (set_reserved (reserved_of limit_display spent_display s - o.amount_atomic) s) o
          (free o) fs fo refl refl its refl
          (let idle = held-idle o.session_id (free o) refl in
            omega (arith, agreed, mine, most, idle))
          h

    pub release_found-Held :
        (o : Option ScheduledOccurrenceRecord) (id : ℕ) (db : ScheduleDb)
        → find_where (has_occurrence_id id) db.occurrences ≡ o
        → Held db
        → Held (release_found limit_display spent_display o db)
    unfolding release_found
    release_found-Held none id db fo h = h
    release_found-Held (some o) id db fo h =
        elim (Bool-cases (not (is_reserved o.reservation_state))) [
          | inl idle ↦ rw idle h
          | inr reserved ↦ rw reserved (
              released-Held (find_where (has_session_id o.session_id) db.sessions) o db refl
                (own_occurrence id db.occurrences fo) (ground arith) h)
        ]
