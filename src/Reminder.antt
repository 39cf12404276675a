-- ===== src/Reminder.antt =====
-- pkg/reminder: durations that a user types, and the schedules of repeating reminders. An instant
-- is a number of nanoseconds since the zero time.
pub mod Duration
pub mod Schedule
pub mod Table
use gin_bot.Base.{ℕ, ◌*◌}

abbrev pub second : ℕ
second = 1000000000

abbrev pub minute : ℕ
minute = 60 * second

abbrev pub hour : ℕ
hour = 60 * minute

abbrev pub day : ℕ
day = 24 * hour

abbrev pub week : ℕ
week = 7 * day

-- The approximation of a calendar month.
abbrev pub month : ℕ
month = 30 * day
