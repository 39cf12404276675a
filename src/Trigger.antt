-- ===== src/Trigger.antt =====
-- pkg/trigger: the matching engine of the auto-responders. The constants of trigger.go and the
-- trigger modes; a child module for each of the other files.
pub mod Chance
pub mod Limiter
pub mod Cache
pub mod Pattern
pub mod Table
pub mod Select
pub mod Spoiler
use gin_bot.Base.{ℕ, ◌*◌}

-- TriggerMode of proto/ginbot/v1/trigger.proto
pub data Mode : Type 0 where
  unspecified any exact regex : Mode

abbrev pub default_chance : ℕ
default_chance = 5

abbrev pub exact_chance_multiplier : ℕ
exact_chance_multiplier = 3

abbrev pub max_chance : ℕ
max_chance = 100

abbrev pub max_candidates : ℕ
max_candidates = 500

-- 60 * time.Second, in nanoseconds
abbrev pub forced_interval : ℕ
forced_interval = 60 * 1000000000
