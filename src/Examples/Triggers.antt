-- ===== src/Examples/Triggers.antt =====
-- pkg/trigger at concrete messages, clocks and caches.
use gin_bot.Base.{
  ℕ, ◌+◌, true, false, ◌&&◌, [], ◌∷◌, some, list_eq, nat_eq, ◌≡◌, ◌≢◌, refl, arith, inl, ◌⊎◌, Elem,
  All, List, inr, take, zero, suc,
}
use gin_bot.Base.Dict.{get}
use gin_bot.Base.Int.{pos, negsuc}
use gin_bot.Base.Result.{Result, ok, err}
use gin_bot.Base.Text.{Text, codes}
use gin_bot.Trigger.{exact, forced_interval, max_candidates}
use gin_bot.Trigger.Limiter.{ForcedLimiter, new_forced_limiter}
use gin_bot.Trigger.Limiter.Spacing.{attempt, sweep, grants, IsSpaced, grants-IsSpaced}
use gin_bot.Trigger.Cache.{Cache, IsCoherent}
use gin_bot.Trigger.Select.{Candidate, Roller, select, match_string, is_exact}
use gin_bot.Trigger.Select.Choice.{select_sound, select_total}
use gin_bot.Trigger.Spoiler.{strip_spoilers, cut_marker, fields, join_spaces}
use gin_bot.Trigger.Spoiler.Hidden.{strip_spoilers-hidden, spelled, shown}

abbrev ann : Text
ann = codes "ann"

abbrev one_fire : ForcedLimiter
one_fire = record { last = (ann, 5) ∷ [] }

grants-IsSpaced_example : IsSpaced 0 (
    grants ann new_forced_limiter
      (attempt ann 5 ∷ sweep 6 ∷ attempt ann (5 + forced_interval) ∷ []))
grants-IsSpaced_example =
    grants-IsSpaced ann (attempt ann 5 ∷ sweep 6 ∷ attempt ann (5 + forced_interval) ∷ [])
      (omega arith)

abbrev load : ℕ → Result ℕ ℕ
load zero = err 404
load (suc i) = ok i

abbrev cached : Cache ℕ
cached = record { set = (1, 0) ∷ [] }

cached-IsCoherent : IsCoherent load cached
unfolding get
cached-IsCoherent zero c h = absurd (ground arith)
cached-IsCoherent (suc zero) c h = ground arith
cached-IsCoherent (suc (suc i)) c h = ground arith

abbrev changed : ℕ → Result ℕ ℕ
changed zero = err 404
changed (suc zero) = ok 7
changed (suc (suc i)) = ok (suc i)

changed_same : (j : ℕ) → j ≢ 1 → changed j ≡ load j
changed_same zero h = refl
changed_same (suc zero) h = absurd (h refl)
changed_same (suc (suc j)) h = refl

abbrev hello : Candidate
hello = record { id = codes "1"; mode = exact; chance = pos 0; pattern = some (λ s. true) }

abbrev bad_roller : Roller
bad_roller n = negsuc 4

select_sound_example :
    Elem hello (take max_candidates (hello ∷ []))
    × (match_string hello.pattern (strip_spoilers (codes "hello")) ≡ true)
    × ((hello.mode ≡ exact)
        ⊎ All
            (λ d.
              (match_string d.pattern (strip_spoilers (codes "hello")) && is_exact d.mode) ≡ false)
            (take max_candidates (hello ∷ [])))
select_sound_example =
    select_sound (codes "hello") (hello ∷ []) bad_roller {c = hello} (unfold select in refl)

select_total_example : (d : Candidate) × (select (codes "hello") (hello ∷ []) bad_roller ≡ some d)
select_total_example =
    select_total (codes "hello") (hello ∷ []) bad_roller hello (unfold strip_spoilers in cc)
      (inl refl) refl

abbrev two_spans : List (Text × Text)
two_spans = (codes "say ", codes "it") ∷ (codes " and ", codes "more") ∷ []

strip_spoilers-hidden_example :
    strip_spoilers (spelled two_spans (codes " now ||open"))
    ≡ join_spaces (fields (shown two_spans (codes " now ||open")))
strip_spoilers-hidden_example =
    strip_spoilers-hidden two_spans (codes " now ||open")
      (unfold cut_marker in ((refl, refl), ((refl, refl), tt)))
      (unfold cut_marker in inr ((codes " now ", codes "open"), refl, refl))
