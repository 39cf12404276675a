-- ===== src/Trigger/Chance.antt =====
-- pkg/trigger/chance.go. An int32 is an integer; the multiplication wraps.
use gin_bot.Base.{ℕ, ◌*◌, ◌^◌, ◌<◌, arith, ltb, if◌then◌else◌}
use gin_bot.Base.Int.{ℤ, pos, negsuc, pos_part, ◌≤ℤ◌, ltb_ℤ, wrap32}
use gin_bot.Trigger.{
  Mode, unspecified, any, exact, regex, default_chance, exact_chance_multiplier, max_chance,
}

-- `stored < 0` and `stored == 0` both lead to the default.
unfoldable pub resolved : ℤ → ℕ
resolved (pos n) = if ltb 0 n then n else default_chance
resolved (negsuc n) = default_chance

unfoldable scaled : Mode → ℕ → ℤ
scaled exact n = wrap32 (exact_chance_multiplier * n)
scaled _ n = pos n

unfoldable pub effective_chance : ℤ → Mode → ℤ
unfolding resolved scaled
effective_chance stored mode =
    let chance = scaled mode (resolved stored) in
    if ltb_ℤ (pos max_chance) chance then pos max_chance else chance

-- A percentage that can fire: between 1 and 100.
abbrev IsPercentage : ℤ → Type 0
IsPercentage c = (pos 1 ≤ℤ c) × (c ≤ℤ pos 100)

-- For every stored chance whose triple fits an int32, and every mode, the result is a percentage
-- between 1 and 100.
effective_chance-IsPercentage :
    (stored : ℤ) (mode : Mode)
    → exact_chance_multiplier * pos_part stored < 2 ^ 31
    → IsPercentage (effective_chance stored mode)
unfolding effective_chance
effective_chance-IsPercentage (pos n) unspecified h = ground arith
effective_chance-IsPercentage (pos n) any h = ground arith
effective_chance-IsPercentage (pos n) exact h = ground arith
effective_chance-IsPercentage (pos n) regex h = ground arith
effective_chance-IsPercentage (negsuc n) unspecified h = ground arith
effective_chance-IsPercentage (negsuc n) any h = ground arith
effective_chance-IsPercentage (negsuc n) exact h = ground arith
effective_chance-IsPercentage (negsuc n) regex h = ground arith
