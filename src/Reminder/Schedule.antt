-- ===== src/Reminder/Schedule.antt =====
-- pkg/reminder/cron.go. A parsed schedule is a parameter: github.com/robfig/cron/v3 parses it and
-- gives its occurrences, in a location. A zero time is none.
pub mod FixedDelay
pub mod Calendar
use gin_bot.Base.{
  ℕ, zero, suc, ◌+◌, ◌-◌, ◌*◌, ◌/◌, ◌%◌, ◌^◌, Bool, true, false, Option, none, some, if◌then◌else◌,
  ltb,
}
use gin_bot.Base.Int.{max_i64}
use gin_bot.Base.Result.{Result, ok, err, ◌>>=◌, ◌>>◌, refuse}
use gin_bot.Base.Text.{Text}
use gin_bot.Reminder.{second, minute, hour}

pub record Schedule (Loc : Type 0) : Type 0 where
  -- schedule.Next(t.In(loc))
  pub next : Loc → ℕ → Option ℕ
  -- The delay of a cron.ConstantDelaySchedule, as a nonnegative duration; none for the others.
  pub delay : Option ℕ

pub data ScheduleError : Type 0 where
  invalid_schedule never_fires fires_once too_frequent never_fires_again : ScheduleError

abbrev min_interval_public : ℕ
min_interval_public = 12 * hour

abbrev pub min_interval_dm : ℕ
min_interval_dm = 10 * minute

abbrev min_interval : Bool → ℕ
min_interval true = min_interval_dm
min_interval false = min_interval_public

abbrev pub max_schedule_advance_steps : ℕ
max_schedule_advance_steps = 30 * 24 * 6

-- time.Date(2000, 1, 1, 0, 0, 0, 0, time.UTC), counted from the zero time, 1 January of year 1
abbrev interval_sample_base : ℕ
interval_sample_base = 63082281600 * second

abbrev pub parsed : {A : Type 0} → ScheduleError → Option A → Result ScheduleError A
parsed e none = err e
parsed e (some a) = ok a

-- `fixed.Delay <= 0` is no constant delay.
abbrev pub constant_delay : Option ℕ → Option ℕ
constant_delay none = none
constant_delay (some d) = if ltb 0 d then some d else none

-- anchor.Add(delay - anchor.Nanosecond())
unfoldable pub first_by_delay : ℕ → ℕ → ℕ
first_by_delay anchor delay = anchor + delay - anchor % second

-- now.Sub(first), which saturates
abbrev pub saturating_sub : ℕ → ℕ → ℕ
saturating_sub now first = if ltb max_i64 (now - first) then max_i64 else now - first

-- first.Add(product) tested by `After(now)`: the product is an int64, and one that wraps to a
-- negative duration gives a time before `first`, which is not after `now`.
unfoldable pub add_product : ℕ → ℕ → ℕ → Option ℕ
add_product first now product =
    let wrapped = product % 2 ^ 64 in
    if ltb wrapped (2 ^ 63)
    then (if ltb now (first + wrapped) then some (first + wrapped) else none)
    else none

unfoldable pub advance_by_delay : ℕ → ℕ → ℕ → Option ℕ
unfolding first_by_delay add_product
advance_by_delay anchor now delay =
    let first = first_by_delay anchor delay in
    if ltb now first
    then some first
    else add_product first now ((saturating_sub now first / delay + 1) * delay)

-- The occurrence after now, with the anchor's phase lost.
abbrev pub lost : Option ℕ → Result ScheduleError (ℕ × Bool)
lost none = err never_fires_again
lost (some t) = ok (t, true)

module _ {Loc : Type 0} where
  unfoldable pub advance_from_now : Schedule Loc → Loc → ℕ → Result ScheduleError (ℕ × Bool)
  advance_from_now s loc now = lost (s.next loc now)

  -- The loop of at most `rounds` steps.
  unfoldable pub advance_steps : ℕ → Schedule Loc → Loc → ℕ → ℕ → Result ScheduleError (ℕ × Bool)
  unfolding advance_from_now
  advance_steps zero s loc t now = advance_from_now s loc now
  advance_steps (suc rounds) s loc t now = elim (s.next loc t) [
    | none ↦ err never_fires_again
    | some u ↦
        let rest = advance_steps rounds s loc u now in if ltb now u then ok (u, false) else rest
  ]

  abbrev pub by_delay : Schedule Loc → Loc → ℕ → Option ℕ → Result ScheduleError (ℕ × Bool)
  by_delay s loc now (some t) = ok (t, false)
  by_delay s loc now none = advance_from_now s loc now

  abbrev pub advance_from : Schedule Loc → Loc → ℕ → ℕ → Option ℕ → Result ScheduleError (ℕ × Bool)
  advance_from s loc anchor now (some delay) =
      by_delay s loc now (advance_by_delay anchor now delay)
  advance_from s loc anchor now none = advance_steps max_schedule_advance_steps s loc anchor now

  unfoldable pub advance_schedule : Schedule Loc → Loc → ℕ → ℕ → Result ScheduleError (ℕ × Bool)
  advance_schedule s loc anchor now = advance_from s loc anchor now (constant_delay s.delay)

-- `parse` is cron.ParseStandard; a nil location is UTC.
module _ {Loc : Type 0} (parse : Text → Option (Schedule Loc)) (utc : Loc) where
  abbrev or_utc : Option Loc → Loc
  or_utc none = utc
  or_utc (some loc) = loc

  unfoldable parse_cron : Text → Result ScheduleError (Schedule Loc)
  parse_cron spec = parsed invalid_schedule (parse spec)

  unfoldable pub validate_repeat_interval : Text → Bool → Result ScheduleError (Unit {0})
  unfolding parse_cron
  validate_repeat_interval spec is_dm = do
    schedule ← parse_cron spec
    first ← parsed never_fires (schedule.next utc interval_sample_base)
    after ← parsed fires_once (schedule.next utc first)
    refuse (ltb after (first + min_interval is_dm)) too_frequent

  unfoldable next_occurrence : Text → ℕ → Option Loc → Result ScheduleError ℕ
  unfolding parse_cron
  next_occurrence spec after loc = do
    schedule ← parse_cron spec
    parsed never_fires_again (schedule.next (or_utc loc) after)

  unfoldable pub next_occurrence_after : Text → ℕ → ℕ → Option Loc → Result ScheduleError (ℕ × Bool)
  unfolding parse_cron advance_schedule
  next_occurrence_after spec anchor now loc = do
    schedule ← parse_cron spec
    advance_schedule schedule (or_utc loc) anchor now
