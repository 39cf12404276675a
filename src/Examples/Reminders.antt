-- ===== src/Examples/Reminders.antt =====
-- pkg/reminder at concrete texts and schedules.
use gin_bot.Base.{
  inl, inr, ℕ, ◌+◌, ◌*◌, ◌/◌, ◌≤◌, ◌<◌, ◌⊎◌, some-eq, false, [], ◌∷◌, none, some, ◌≡◌, refl, arith,
}
use gin_bot.Base.Int.{max_i64}
use gin_bot.Base.Result.{ok}
use gin_bot.Base.Text.{codes}
use gin_bot.Reminder.{second, minute, hour}
use gin_bot.Reminder.Duration.{parse_duration}
use gin_bot.Reminder.Duration.Complete.{
  Segment, IsSegment, spell, total_worth, parse_duration-spell,
}
use gin_bot.Reminder.Duration.Sound.{Spelled, parse_duration-Spelled}
use gin_bot.Reminder.Schedule.{
  Schedule, advance_steps, advance_by_delay, first_by_delay, advance_schedule, min_interval_dm,
}
use gin_bot.Reminder.Schedule.FixedDelay.{IsNextOf, advance_by_delay-IsNextOf}
use gin_bot.Reminder.Schedule.Calendar.{
  FirstAfter, advance_schedule-FirstAfter, advance_schedule_in_phase,
}

abbrev two_hours : Segment
two_hours = record { digits = codes "2"; unit = b'h'; unit_dur = hour }

two_hours-IsSegment : IsSegment two_hours
two_hours-IsSegment = record {
  all_digits = (refl, tt);
  nonempty = cc;
  unit_known = inr (inr (inl (refl, refl)));
}

parse_duration-spell_example :
    parse_duration (spell (two_hours ∷ [])) ≡ ok (total_worth (two_hours ∷ []))
parse_duration-spell_example =
    parse_duration-spell (two_hours ∷ []) (two_hours-IsSegment, tt) (tt, tt) (omega arith)
      (omega arith)

parse_duration-Spelled_example : Spelled 0 [] (codes "2h") (2 * hour)
parse_duration-Spelled_example = parse_duration-Spelled (codes "2h") (unfold parse_duration in refl)

advance_by_delay-IsNextOf_example :
    ((n : ℕ) × (advance_by_delay 0 (90 * second) minute ≡ some n)
      × IsNextOf (first_by_delay 0 minute) minute (90 * second) n)
    ⊎ ((advance_by_delay 0 (90 * second) minute ≡ none)
        × (first_by_delay 0 minute + max_i64 < 90 * second + minute))
advance_by_delay-IsNextOf_example =
    advance_by_delay-IsNextOf 0 (90 * second) minute (omega arith) (omega arith)

-- Every full hour, in one location.
abbrev hourly : Schedule (Unit {0})
hourly = record { next = λ loc t. some ((t / hour + 1) * hour); delay = none }

advance_schedule-FirstAfter_example : FirstAfter hourly tt (90 * minute) 0 (2 * hour)
advance_schedule-FirstAfter_example =
    advance_schedule-FirstAfter hourly tt 0 (90 * minute) refl
      (unfold advance_schedule advance_steps in refl)

an_hour_apart :
    (t u v : ℕ) → hourly.next tt t ≡ some u → hourly.next tt u ≡ some v → u + min_interval_dm ≤ v
an_hour_apart t u v e e' =
    let first : (t / hour + 1) * hour ≡ u = some-eq e in
    let second_one : (u / hour + 1) * hour ≡ v = some-eq e' in omega arith

advance_schedule_in_phase_example :
    (n : ℕ) × (advance_schedule hourly tt 5 (90 * minute) ≡ ok (n, false))
    × FirstAfter hourly tt (90 * minute) 5 n
advance_schedule_in_phase_example =
    advance_schedule_in_phase hourly tt 5 (90 * minute) refl
      (λ t. ((t / hour + 1) * hour, refl, omega arith)) an_hour_apart (omega arith)
