-- ===== src/Metered/Bounds.antt =====
-- Bounds of metered payments: the limits of a grant, the rate window, the counter of a window and the
-- delay of a retry (src/domain/meteredPayment.ts, src/services/meteredPayment.service.ts and
-- src/services/meteredPaymentWorker.service.ts).
use fiberpassbackend.Prelude.{
  ℕ, ◌+◌, ◌-◌, ◌*◌, ◌/◌, ◌%◌, ◌^◌, ◌≤◌, ◌<◌, ◌≡◌, ◌↔◌, refl, sym, Option, none, some, List, arith,
  leb, ok, reject_if-bind, min,
}
use native.Mathlib.Nat.{div-mul-le_self, lt-div-mul-add, mul-mod_left, pow-le-pow_right}
use fiberpassbackend.Prelude.Store.{find_where}
use fiberpassbackend.Prelude.Documents.{ok-same, find-save, find_where-append}
use fiberpassbackend.Charges.Preservation.{find_where-passes}
use fiberpassbackend.Metered.Records.{MeteredGrantRecord, MeteredRateCounterRecord, MeteredError}
use fiberpassbackend.Metered.Amounts.{assert_metered_grant_limits, RateWindow, next_rate_window}
use fiberpassbackend.Metered.Usage.{is_counter, counted, count_from, count_event, new_counter}
use fiberpassbackend.Metered.Worker.{retry_delay}

abbrev pub counted_before : Option MeteredRateCounterRecord → ℕ
counted_before none = 0
counted_before (some c) = c.count

-- The limits of a grant are accepted just when all four are positive, an event is at most the total and
-- the batch limit, and the immediate threshold is at most the batch limit.
pub assert_metered_grant_limits_iff :
    (per_event sum threshold batch : ℕ)
    → (assert_metered_grant_limits per_event sum threshold batch ≡ ok tt) ↔ (
        (1 ≤ per_event)
        × (1 ≤ threshold)
        × (per_event ≤ sum)
        × (per_event ≤ batch)
        × (threshold ≤ batch))
unfolding assert_metered_grant_limits
assert_metered_grant_limits_iff per_event sum threshold batch =
    (λ h. (ground arith, ground arith, ground arith, ground arith, ground arith), λ h. ground arith)

-- For windows of at least a second: the window of a time contains it, is as long as the grant says, and
-- starts at a multiple of its length.
pub next_rate_window-contains :
    (now seconds : ℕ)
    → 1 ≤ seconds
    → ((next_rate_window now seconds).start ≤ now)
      × (now < (next_rate_window now seconds).end)
      × ((next_rate_window now seconds).end ≡ (next_rate_window now seconds).start + seconds * 1000)
      × ((next_rate_window now seconds).start % (seconds * 1000) ≡ 0)
unfolding next_rate_window
next_rate_window-contains now seconds h = (
  div-mul-le_self now (seconds * 1000),
  lt-div-mul-add (omega arith),
  refl,
  mul-mod_left (now / (seconds * 1000)) (seconds * 1000),
)

-- A retry waits at least a second and at most a minute.
pub retry_delay-bounds :
    (attempts : ℕ) → (1000 ≤ retry_delay attempts) × (retry_delay attempts ≤ 60000)
unfolding retry_delay
retry_delay-bounds attempts =
    let power : 2 ^ 0 ≤ 2 ^ min (attempts - 1) 6 =
      pow-le-pow_right {n = 2} (omega arith) {i = 0} {j = min (attempts - 1) 6} (omega arith) in
    (omega (arith, power), omega arith)

counted-lookup :
    (o : Option MeteredRateCounterRecord) (g : MeteredGrantRecord) (w : RateWindow)
    (l : List MeteredRateCounterRecord) {l' : List MeteredRateCounterRecord}
    → find_where (is_counter g.grant_id w.start) l ≡ o
    → count_from o g w l ≡ ok l'
    → (c : MeteredRateCounterRecord) × (find_where (is_counter g.grant_id w.start) l' ≡ some c)
      × (c.count ≡ counted_before o + 1)
      × (c.count ≤ g.rate_limit_count)
unfolding count_from
counted-lookup (some c) g w l {l'} f h =
    let (room, h1) =
      reject_if-bind (leb g.rate_limit_count c.count) MeteredError.rate_limit_exceeded _ h in
    let passes = find_where-passes (is_counter g.grant_id w.start) l f in
    (
      counted c,
      rw (sym (ok-same h1)) (find-save (is_counter g.grant_id w.start) (counted c) l f passes),
      refl,
      ground arith,
    )
counted-lookup none g w l {l'} f h =
    let c = new_counter g.grant_id w in
    let (room, h1) =
      reject_if-bind (leb g.rate_limit_count c.count) MeteredError.rate_limit_exceeded _ h in
    (
      counted c,
      rw (sym (ok-same h1))
          (find_where-append (is_counter g.grant_id w.start) l (counted c) f (ground arith)),
      refl,
      ground arith,
    )

-- When an event is counted, the counter of its window holds one more than before, which is nothing where
-- there was no counter, and at most the rate limit of the grant.
pub count_event-bound :
    (g : MeteredGrantRecord) (now : ℕ) (l l' : List MeteredRateCounterRecord)
    → count_event g now l ≡ ok l'
    → (c : MeteredRateCounterRecord) × (find_where
          (is_counter g.grant_id (next_rate_window now g.rate_limit_window_seconds).start)
          l'
        ≡ some c)
      × (c.count
          ≡ counted_before (
              find_where
                (is_counter g.grant_id (next_rate_window now g.rate_limit_window_seconds).start)
                l)
            + 1)
      × (c.count ≤ g.rate_limit_count)
unfolding count_event
count_event-bound g now l l' h =
    counted-lookup _ g (next_rate_window now g.rate_limit_window_seconds) l refl h
