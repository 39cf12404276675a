-- ===== src/Trigger/Pattern.antt =====
-- pkg/trigger/pattern.go. The regular-expression engine, its quoting and the Unicode tables are
-- parameters; a compiled pattern is the test that its `MatchString` makes.
use gin_bot.Base.{
  ℕ, ◌==◌, Bool, true, false, ◌||◌, [], ◌∷◌, ◌++◌, Option, none, some, ltb, if◌then◌else◌,
}
use gin_bot.Base.Result.{Result, ok, err}
use gin_bot.Base.Text.{Text, codes, byte_len, trim_space}
use gin_bot.Trigger.{Mode, exact, regex}

abbrev max_pattern_length : ℕ
max_pattern_length = 200

pub data PatternError : Type 0 where
  empty_phrase pattern_too_long not_compiled : PatternError

-- regexp.QuoteMeta, regexp.Compile, and membership in the classes L, N and M.
pub record Engine : Type 0 where
  pub quote_meta : Text → Text
  pub compile_regexp : Text → Option (Text → Bool)
  pub is_class_rune : ℕ → Bool

abbrev non_word_class : Text
non_word_class = codes "[^\\p{L}\\p{N}\\p{M}_]"

abbrev last_rune : Text → Option ℕ
last_rune [] = none
last_rune (c ∷ s) = elim (last_rune s) [ none ↦ some c | some last ↦ some last ]

abbrev first_rune : Text → Option ℕ
first_rune [] = none
first_rune (c ∷ s) = some c

abbrev is_empty_text : Text → Bool
is_empty_text [] = true
is_empty_text (c ∷ s) = false

module _ (engine : Engine) where
  -- An empty text decodes to U+FFFD, which is in none of the classes.
  abbrev is_word_rune : Option ℕ → Bool
  is_word_rune none = false
  is_word_rune (some r) = engine.is_class_rune r || r == b'_'

  unfoldable word_boundary_before : Text → Text
  word_boundary_before phrase =
      if is_word_rune (first_rune phrase)
      then codes "(?:^|" ++ (non_word_class ++ codes ")")
      else []

  unfoldable word_boundary_after : Text → Text
  word_boundary_after phrase =
      if is_word_rune (last_rune phrase) then codes "(?:$|" ++ (non_word_class ++ codes ")") else []

  unfoldable build_pattern : Text → Mode → Text
  unfolding word_boundary_before word_boundary_after
  build_pattern phrase regex = codes "(?i)" ++ phrase
  build_pattern phrase exact = codes "(?i)^" ++ (engine.quote_meta phrase ++ codes "$")
  build_pattern phrase _ =
      codes "(?i)"
      ++ (word_boundary_before phrase ++ (engine.quote_meta phrase ++ word_boundary_after phrase))

  abbrev or_not_compiled : Option (Text → Bool) → Result PatternError (Text → Bool)
  or_not_compiled none = err not_compiled
  or_not_compiled (some pattern) = ok pattern

  unfoldable pub compile : Text → Mode → Result PatternError (Text → Bool)
  unfolding trim_space build_pattern
  compile phrase mode =
      if is_empty_text (trim_space phrase)
      then err empty_phrase
      else if ltb max_pattern_length (byte_len phrase)
      then err pattern_too_long
      else or_not_compiled (engine.compile_regexp (build_pattern phrase mode))
