-- ===== src/Schedules/Calendar.antt =====
-- `nextOccurrenceAfter` of src/domain/schedule.ts. The Temporal library is a parameter: the local date and
-- time of an instant in a time zone and back, and the addition of days and months. The checks of the
-- time zone's name and that a date is finite are left out.
use fiberpassbackend.Prelude.{
  ℕ, ◌+◌, ◌*◌, ◌≤◌, ◌≡◌, sym, ◌∙◌, min, ◌||◌, Option, none, some, arith, ltb, Outcome, ok, ◌>>=◌,
  ◌>>◌, reject_if, reject_if-bind, >>=-eq-ok,
}
use fiberpassbackend.Prelude.Documents.{given, given-eq-ok, ok-same}
use fiberpassbackend.Charges.Receipts.{or_else}
use fiberpassbackend.Charges.Preservation.{same-some}
use fiberpassbackend.Schedules.Records.{ScheduleCadence, CalendarSchedule, ScheduleError}

-- A date and time of a calendar; months are counted through the years.
pub record LocalDateTime : Type 0 where
  pub month : ℕ
  pub day : ℕ
  pub time : ℕ

pub record Calendar : Type 0 where
  pub to_local : (time_zone instant : ℕ) → LocalDateTime
  pub from_local : (time_zone : ℕ) → LocalDateTime → ℕ
  pub add_days : ℕ → LocalDateTime → LocalDateTime
  pub add_months : ℕ → LocalDateTime → LocalDateTime
  pub with_day : ℕ → LocalDateTime → LocalDateTime
  pub days_in_month : LocalDateTime → ℕ
  pub day_number : LocalDateTime → ℕ

-- What is documented of the Temporal library: days are counted from 1, a day beyond the end of the month
-- is taken as its last, and the addition of months to the first of a month leads to a first.
pub record Laws (c : Calendar) : Type 0 where
  pub local_day : (zone t : ℕ) → 1 ≤ (c.to_local zone t).day
  pub later_day :
      (n : ℕ) (l : LocalDateTime) → 1 ≤ l.day → c.day_number (c.add_days n l) ≡ c.day_number l + n
  pub same_time : (n : ℕ) (l : LocalDateTime) → (c.add_days n l).time ≡ l.time
  pub with_day :
      (d : ℕ) (l : LocalDateTime)
      → 1 ≤ d
      → ((c.with_day d l).month ≡ l.month)
        × ((c.with_day d l).day ≡ min d (c.days_in_month l))
        × ((c.with_day d l).time ≡ l.time)
  pub add_months :
      (n : ℕ) (l : LocalDateTime)
      → l.day ≡ 1
      → ((c.add_months n l).month ≡ l.month + n) × ((c.add_months n l).time ≡ l.time)
  pub month_length : (l : LocalDateTime) → 1 ≤ c.days_in_month l
  pub same_length :
      (l l' : LocalDateTime) → l.month ≡ l'.month → c.days_in_month l ≡ c.days_in_month l'

module _ (calendar : Calendar) where
  -- The first of the next month, and in it the anchor day or else the last day.
  unfoldable pub next_monthly : (anchor_day : ℕ) → LocalDateTime → LocalDateTime
  next_monthly anchor_day l =
      let next_month = calendar.add_months 1 (calendar.with_day 1 l) in
      calendar.with_day (min anchor_day (calendar.days_in_month next_month)) next_month

  unfoldable pub next_by :
      ScheduleCadence → (current : ℕ) → CalendarSchedule → Outcome ScheduleError (Option ℕ)
  unfolding next_monthly
  next_by ScheduleCadence.once current schedule = ok none
  next_by ScheduleCadence.custom current schedule = do
    interval ← given schedule.custom_interval_seconds ScheduleError.bad_interval
    reject_if (ltb interval 1 || ltb 31536000 interval) ScheduleError.bad_interval
    ok (some (current + interval * 1000))
  next_by ScheduleCadence.daily current schedule =
      let l = calendar.to_local schedule.time_zone current in
      ok (some (calendar.from_local schedule.time_zone (calendar.add_days 1 l)))
  next_by ScheduleCadence.weekly current schedule =
      let l = calendar.to_local schedule.time_zone current in
      ok (some (calendar.from_local schedule.time_zone (calendar.add_days 7 l)))
  next_by ScheduleCadence.monthly current schedule =
      let l = calendar.to_local schedule.time_zone current in
      let day = or_else schedule.anchor_day l.day in
      do
        reject_if (ltb day 1 || ltb 31 day) ScheduleError.bad_anchor_day
        ok (some (calendar.from_local schedule.time_zone (next_monthly day l)))

  unfoldable pub next_occurrence_after :
      (current : ℕ) → CalendarSchedule → Outcome ScheduleError (Option ℕ)
  unfolding next_by
  next_occurrence_after current schedule = next_by schedule.cadence current schedule

  -- The instant of a local time so many days later, at the same time of the day.
  abbrev pub DaysLater : (days current next : ℕ) → CalendarSchedule → Type 0
  DaysLater days current next schedule =
      (l : LocalDateTime) × (next ≡ calendar.from_local schedule.time_zone l)
      × (calendar.day_number l
          ≡ calendar.day_number (calendar.to_local schedule.time_zone current) + days)
      × (l.time ≡ (calendar.to_local schedule.time_zone current).time)

  -- The instant of a local time in the next month, on the anchor day or on the month's last day.
  abbrev pub MonthLater : (anchor_day current next : ℕ) → CalendarSchedule → Type 0
  MonthLater anchor_day current next schedule =
      (l : LocalDateTime) × (next ≡ calendar.from_local schedule.time_zone l)
      × (l.month ≡ (calendar.to_local schedule.time_zone current).month + 1)
      × (l.day ≡ min anchor_day (calendar.days_in_month l))
      × (l.time ≡ (calendar.to_local schedule.time_zone current).time)

  abbrev pub Next : ScheduleCadence → (current next : ℕ) → CalendarSchedule → Type 0
  Next ScheduleCadence.once current next schedule = ⊥
  Next ScheduleCadence.custom current next schedule =
      (interval : ℕ) × (schedule.custom_interval_seconds ≡ some interval)
      × (1 ≤ interval)
      × (interval ≤ 31536000)
      × (next ≡ current + interval * 1000)
  Next ScheduleCadence.daily current next schedule = DaysLater 1 current next schedule
  Next ScheduleCadence.weekly current next schedule = DaysLater 7 current next schedule
  Next ScheduleCadence.monthly current next schedule =
      MonthLater (or_else schedule.anchor_day (calendar.to_local schedule.time_zone current).day)
        current next schedule

  module _ (laws : Laws calendar) where
    next_monthly-month :
        (anchor_day : ℕ) (l : LocalDateTime)
        → 1 ≤ anchor_day
        → ((next_monthly anchor_day l).month ≡ l.month + 1)
          × ((next_monthly anchor_day l).day
              ≡ min anchor_day (calendar.days_in_month (next_monthly anchor_day l)))
          × ((next_monthly anchor_day l).time ≡ l.time)
    unfolding next_monthly
    next_monthly-month anchor_day l h =
        let first = calendar.with_day 1 l in
        let next_month = calendar.add_months 1 first in
        let length = calendar.days_in_month next_month in
        let chosen = calendar.with_day (min anchor_day length) next_month in
        let (same_month, day_one, time_one) = laws.with_day 1 l (omega arith) in
        let some_days = laws.month_length l in
        let (one_later, time_two) = laws.add_months 1 first (omega (arith, day_one, some_days)) in
        let next_days = laws.month_length next_month in
        let (same_next, day_next, time_next) =
          laws.with_day (min anchor_day length) next_month (omega (arith, h, next_days)) in
        let same = laws.same_length chosen next_month same_next in
        (
          omega (arith, same_next, one_later, same_month),
          omega (arith, day_next, same),
          time_next ∙ time_two ∙ time_one,
        )

    next_by-Next :
        (c : ScheduleCadence) (current next : ℕ) (schedule : CalendarSchedule)
        → next_by c current schedule ≡ ok (some next)
        → Next c current next schedule
    unfolding next_by
    next_by-Next ScheduleCadence.once current next schedule h =
        let never : none ≡ some next = ok-same h in cc
    next_by-Next ScheduleCadence.custom current next schedule h =
        let (interval, hi, h1) =
          >>=-eq-ok (given schedule.custom_interval_seconds ScheduleError.bad_interval) _ h in
        let (fits, h2) =
          reject_if-bind (ltb interval 1 || ltb 31536000 interval) ScheduleError.bad_interval _
            h1 in
        (
          interval,
          given-eq-ok schedule.custom_interval_seconds ScheduleError.bad_interval hi,
          ground (arith, fits),
          ground (arith, fits),
          sym (same-some (ok-same h2)),
        )
    next_by-Next ScheduleCadence.daily current next schedule h =
        let l = calendar.to_local schedule.time_zone current in
        (
          calendar.add_days 1 l,
          sym (same-some (ok-same h)),
          laws.later_day 1 l (laws.local_day schedule.time_zone current),
          laws.same_time 1 l,
        )
    next_by-Next ScheduleCadence.weekly current next schedule h =
        let l = calendar.to_local schedule.time_zone current in
        (
          calendar.add_days 7 l,
          sym (same-some (ok-same h)),
          laws.later_day 7 l (laws.local_day schedule.time_zone current),
          laws.same_time 7 l,
        )
    next_by-Next ScheduleCadence.monthly current next schedule h =
        let l = calendar.to_local schedule.time_zone current in
        let day = or_else schedule.anchor_day l.day in
        let (fits, h1) =
          reject_if-bind (ltb day 1 || ltb 31 day) ScheduleError.bad_anchor_day _ h in
        let (month, on_day, at_time) = next_monthly-month day l (ground (arith, fits)) in
        (next_monthly day l, sym (same-some (ok-same h1)), month, on_day, at_time)

    -- For a calendar with the documented laws: the next occurrence of a daily or weekly schedule is the
    -- instant of the local time one or seven days later at the same time of the day. That of a monthly
    -- schedule is the instant of the local time in the month after the current one, at the same time of
    -- the day, on the anchor day, or on the month's last day where the month is shorter, whatever the
    -- current day is; without an anchor day the current day stands for it. That of a custom schedule is
    -- the interval later, which is between a second and 365 days. A schedule without repetition has none.
    pub next_occurrence_after-Next :
        (current next : ℕ) (schedule : CalendarSchedule)
        → next_occurrence_after current schedule ≡ ok (some next)
        → Next schedule.cadence current next schedule
    unfolding next_occurrence_after
    next_occurrence_after-Next current next schedule h =
        next_by-Next schedule.cadence current next schedule h
