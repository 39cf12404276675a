-- ===== src/Trigger/Select.antt =====
-- pkg/trigger/select.go. A compiled pattern is the test that its `MatchString` makes; a nil
-- pattern is none. The roller is the caller's function: any integer may come back from it.
pub mod Choice
use gin_bot.Base.{
  ℕ, zero, suc, ◌+◌, ◌≤◌, ◌<◌, ◌≡◌, refl, ◌≢◌, ap, Bool, true, false, ◌&&◌, List, [], ◌∷◌, ◌++◌,
  Option, none, some, arith, ltb, length, get_elem?, get_elem?-some, take, keep, Elem,
  if◌then◌else◌, ◌⊎◌, inl, inr,
}
use gin_bot.Base.Int.{ℤ, pos, negsuc, ltb_ℤ}
use gin_bot.Base.Text.{Text}
use gin_bot.Trigger.{Mode, unspecified, any, exact, regex, max_candidates, max_chance}
use gin_bot.Trigger.Chance.{effective_chance}
use gin_bot.Trigger.Spoiler.{strip_spoilers}

pub record Candidate : Type 0 where
  pub id : Text
  pub mode : Mode
  pub chance : ℤ
  pub pattern : Option (Text → Bool)

abbrev pub Roller : Type 0
Roller = ℕ → ℤ

abbrev pub match_string : Option (Text → Bool) → Text → Bool
match_string none s = false
match_string (some p) s = p s

abbrev pub is_exact : Mode → Bool
is_exact exact = true
is_exact _ = false

-- The two lists that the loop appends to.
unfoldable pub scan :
    Text → List Candidate → List Candidate → List Candidate → List Candidate × List Candidate
scan message matched exact_matched [] = (matched, exact_matched)
scan message matched exact_matched (c ∷ cs) =
    let hit = match_string c.pattern message in
    scan message (if hit then matched ++ (c ∷ []) else matched)
      (if hit && is_exact c.mode then exact_matched ++ (c ∷ []) else exact_matched) cs

abbrev pub is_empty : {A : Type 0} → List A → Bool
is_empty [] = true
is_empty (x ∷ xs) = false

-- The index, with a bad roller's value replaced by 0.
unfoldable pub roll_index : Roller → ℕ → ℕ
roll_index roll n = elim (roll n) [ pos i ↦ if ltb i n then i else 0 | negsuc i ↦ 0 ]

unfoldable pub pick : Roller → List Candidate → Option Candidate
unfolding roll_index
pick roll [] = none
pick roll (c ∷ cs) = get_elem? (c ∷ cs) (roll_index roll (length (c ∷ cs)))

unfoldable pub pool : Text → List Candidate → List Candidate
unfolding scan
pool message cs =
    let (matched, exact_matched) = scan message [] [] (take max_candidates cs) in
    if is_empty exact_matched then matched else exact_matched

unfoldable pub select : Text → List Candidate → Roller → Option Candidate
unfolding strip_spoilers pool pick
select message cs roll =
    let normalised = strip_spoilers message in
    if is_empty normalised then none else pick roll (pool normalised cs)

unfoldable pub fires : Candidate → Roller → Bool
unfolding effective_chance
fires c roll = ltb_ℤ (roll max_chance) (effective_chance c.chance c.mode)
