-- ===== src/Trigger/Limiter.antt =====
-- pkg/trigger/limiter.go. A time is a number of nanoseconds. `now.Sub(last) < ForcedInterval` is
-- `now < last + ForcedInterval`: `Sub` saturates far outside the interval, so it keeps the test,
-- and a clock that steps back is a refusal in both. `last.Before(now.Add(-ForcedInterval))` is
-- `last + ForcedInterval < now`. The mutex makes each call one step.
pub mod Spacing
use gin_bot.Base.{
  ℕ, ◌+◌, ◌≤◌, ◌<◌, ◌≡◌, refl, ◌≢◌, Bool, true, false, not, List, [], ◌∷◌, Option, none, some,
  arith, ltb, if◌then◌else◌, list_beq, list_beq_iff, list_eq,
}
use gin_bot.Base.Dict.{Dict, get, put, retain, guarded, IsMap, get-put, get-retain}
use gin_bot.Base.Text.{Text}
use gin_bot.Trigger.{forced_interval}

pub record ForcedLimiter : Type 0 where
  pub last : Dict Text ℕ

unfoldable pub new_forced_limiter : ForcedLimiter
new_forced_limiter = record { last = [] }

-- The recorded time is inside the interval before `now`.
abbrev pub is_recent : ℕ → Option ℕ → Bool
is_recent now none = false
is_recent now (some last) = ltb now (last + forced_interval)

unfoldable pub allow : ForcedLimiter → Text → ℕ → ForcedLimiter × Bool
allow l [] now = (l, false)
allow l (c ∷ s) now =
    if is_recent now (get l.last (c ∷ s))
    then (l, false)
    else (record { last = put l.last (c ∷ s) now }, true)

unfoldable pub prune : ForcedLimiter → ℕ → ForcedLimiter
prune l now = record { last = retain (λ last. not (ltb (last + forced_interval) now)) l.last }

-- What one call does to an author's record, for every author: a permitted attempt stores its time
-- under its own key, and a refused one changes nothing at all.
pub get-allow :
    (l : ForcedLimiter) (author other : Text) (now : ℕ)
    → get (allow l author now).0.last other ≡ (
        if (allow l author now).1
        then (if list_beq author other then some now else get l.last other)
        else get l.last other)
unfolding allow
get-allow l [] other now = refl
get-allow l (c ∷ s) other now = ground (arith, get-put l.last (c ∷ s) now other)

-- The next attempt of the same author is refused until a minute has passed, and permitted from
-- then on, whatever the clock read before.
allow-allow :
    (l : ForcedLimiter) (author : Text) (t u : ℕ)
    → author ≢ []
    → (allow l author t).1 ≡ true
    → (allow (allow l author t).0 author u).1 ≡ not (ltb u (t + forced_interval))
unfolding allow
allow-allow l [] t u h a = absurd (h refl)
allow-allow l (c ∷ s) t u h a =
    ground (arith, get-put l.last (c ∷ s) t (c ∷ s), list_beq_iff (c ∷ s) (c ∷ s))
