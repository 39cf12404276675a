-- ===== src/Trigger/Limiter/Spacing.antt =====
-- The limiter over whole histories of attempts and prunes.
use gin_bot.Base.{
  ℕ, ◌+◌, ◌≤◌, ◌≡◌, refl, true, false, not, ◌&&◌, List, [], ◌∷◌, Option, none, some, arith, ltb,
  if◌then◌else◌, list_beq, list_beq_iff, list_eq, Bool-cases, inl, inr,
}
use gin_bot.Base.Dict.{get, guarded, IsMap, put-IsMap, retain-IsMap, get-retain}
use gin_bot.Base.Text.{Text}
use gin_bot.Trigger.{forced_interval}
use gin_bot.Trigger.Limiter.{ForcedLimiter, new_forced_limiter, is_recent, allow, prune, get-allow}

is_recent-guarded :
    (o : Option ℕ) (t u : ℕ)
    → t ≤ u
    → is_recent u (guarded (λ last. not (ltb (last + forced_interval) t)) o) ≡ is_recent u o
is_recent-guarded none t u h = refl
is_recent-guarded (some v) t u h = ground arith

is_recent-prune :
    (l : ForcedLimiter) (author : Text) (t u : ℕ)
    → IsMap l.last
    → t ≤ u
    → is_recent u (get (prune l t).last author) ≡ is_recent u (get l.last author)
unfolding prune
is_recent-prune l author t u m h =
    let stays = λ (last : ℕ). not (ltb (last + forced_interval) t) in
    ground (arith, get-retain stays l.last author m, is_recent-guarded (get l.last author) t u h)

-- A prune changes no later decision: whatever the map held, an attempt at the time of the prune or
-- after it is permitted exactly when it would have been without the prune.
prune-allow :
    (l : ForcedLimiter) (author : Text) (t u : ℕ)
    → IsMap l.last
    → t ≤ u
    → (allow (prune l t) author u).1 ≡ (allow l author u).1
unfolding allow
prune-allow l [] t u m h = refl
prune-allow l (c ∷ s) t u m h = ground (arith, is_recent-prune l (c ∷ s) t u m h)

-- A call of the limiter with the clock's reading.
pub data Call : Type 0 where
  attempt : Text → ℕ → Call
  sweep : ℕ → Call

abbrev call_time : Call → ℕ
call_time (attempt author t) = t
call_time (sweep t) = t

-- The clock does not step back.
abbrev IsOrdered : ℕ → List Call → Type 0
IsOrdered now [] = Unit
IsOrdered now (c ∷ cs) = (now ≤ call_time c) × IsOrdered (call_time c) cs

-- The times at which the attempts of one author are permitted.
pub grants : Text → ForcedLimiter → List Call → List ℕ
grants a l [] = []
grants a l (attempt b t ∷ cs) =
    let rest = grants a (allow l b t).0 cs in
    if (allow l b t).1 && list_beq b a then t ∷ rest else rest
grants a l (sweep t ∷ cs) = grants a (prune l t) cs

-- Each time is at least the bound, and the next ones at least a forced interval after it.
abbrev pub IsSpaced : ℕ → List ℕ → Type 0
IsSpaced bound [] = Unit
IsSpaced bound (t ∷ ts) = (bound ≤ t) × IsSpaced (t + forced_interval) ts

-- From `now` on, no attempt of the author is permitted before the bound.
abbrev Blocks : Text → ForcedLimiter → ℕ → ℕ → Type 0
Blocks a l now bound = (u : ℕ) → now ≤ u → is_recent u (get l.last a) ≡ false → bound ≤ u

allow-IsMap : (l : ForcedLimiter) (b : Text) (t : ℕ) → IsMap l.last → IsMap (allow l b t).0.last
unfolding allow
allow-IsMap l [] t m = m
allow-IsMap l (c ∷ s) t m = elim (Bool-cases (is_recent t (get l.last (c ∷ s)))) [
  | inl e ↦ rw e m
  | inr e ↦ rw e (put-IsMap l.last (c ∷ s) t m)
]

prune-IsMap : (l : ForcedLimiter) (t : ℕ) → IsMap l.last → IsMap (prune l t).last
unfolding prune
prune-IsMap l t m = retain-IsMap (λ last. not (ltb (last + forced_interval) t)) l.last m

allowed_not_recent :
    (l : ForcedLimiter) (a : Text) (t : ℕ)
    → (allow l a t).1 ≡ true
    → is_recent t (get l.last a) ≡ false
unfolding allow
allowed_not_recent l [] t h = cc
allowed_not_recent l (c ∷ s) t h = ground arith

allow-Blocks :
    (a b : Text) (l : ForcedLimiter) (now t bound : ℕ)
    → now ≤ t
    → Blocks a l now bound
    → ((allow l b t).1 && list_beq b a) ≡ false
    → Blocks a (allow l b t).0 t bound
allow-Blocks a b l now t bound h blocks refused u tu e =
    blocks u (omega arith) (ground (arith, get-allow l b a t))

grant-Blocks :
    (a b : Text) (l : ForcedLimiter) (t : ℕ)
    → ((allow l b t).1 && list_beq b a) ≡ true
    → Blocks a (allow l b t).0 t (t + forced_interval)
grant-Blocks a b l t granted u tu e = ground (arith, get-allow l b a t)

grant_in_bound :
    (a b : Text) (l : ForcedLimiter) (now t bound : ℕ)
    → now ≤ t
    → Blocks a l now bound
    → ((allow l b t).1 && list_beq b a) ≡ true
    → bound ≤ t
grant_in_bound a b l now t bound h blocks granted =
    blocks t h (ground (arith, allowed_not_recent l b t, list_beq_iff b a))

IsSpaced-from :
    (a : Text) (l : ForcedLimiter) (cs : List Call) (now bound : ℕ)
    → IsMap l.last
    → IsOrdered now cs
    → Blocks a l now bound
    → IsSpaced bound (grants a l cs)
unfolding grants
IsSpaced-from a l [] now bound m o blocks = tt
IsSpaced-from a l (attempt b t ∷ cs) now bound m (h, o) blocks =
    elim (Bool-cases ((allow l b t).1 && list_beq b a)) [
      | inl granted ↦ rw granted (
        grant_in_bound a b l now t bound h blocks granted,
        IsSpaced-from a (allow l b t).0 cs t (t + forced_interval) (allow-IsMap l b t m) o
            (grant-Blocks a b l t granted),
      )
      | inr refused ↦ rw refused (
          IsSpaced-from a (allow l b t).0 cs t bound (allow-IsMap l b t m) o
            (allow-Blocks a b l now t bound h blocks refused))
    ]
IsSpaced-from a l (sweep t ∷ cs) now bound m (h, o) blocks =
    IsSpaced-from a (prune l t) cs t bound (prune-IsMap l t m) o
      (λ u tu e. blocks u (omega arith) (ground (arith, is_recent-prune l a t u m tu)))

-- In every history of attempts by any authors and of prunes, started from an empty limiter with a
-- clock that does not step back, two permitted attempts of one author are at least the forced
-- interval apart.
pub grants-IsSpaced :
    (a : Text) (cs : List Call) → IsOrdered 0 cs → IsSpaced 0 (grants a new_forced_limiter cs)
unfolding new_forced_limiter
grants-IsSpaced a cs o = IsSpaced-from a new_forced_limiter cs 0 0 tt o (λ u h e. omega arith)
