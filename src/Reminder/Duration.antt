-- ===== src/Reminder/Duration.antt =====
-- pkg/reminder/parse.go: ParseDuration. The outer loop runs on fuel; each round reads at least one
-- digit. A time.Duration is an int64, which the overflow tests keep from wrapping.
pub mod Complete
pub mod Sound
use gin_bot.Base.{
  ℕ, zero, suc, ◌+◌, ◌-◌, ◌*◌, ◌/◌, Bool, true, false, ◌&&◌, ◌||◌, not, List, [], ◌∷◌, Option, none,
  some, if◌then◌else◌, leb, ltb, ◌==◌, length, ◌≡◌, refl,
}
use gin_bot.Base.Int.{max_i64}
use gin_bot.Base.Result.{Result, ok, err, ◌>>=◌, ◌>>◌, refuse}
use gin_bot.Base.Text.{Text, codes}
use gin_bot.Reminder.{second, minute, hour, day, week, month}

pub data DurationError : Type 0 where
  missing_number duration_overflow no_unit unknown_unit unit_repeated not_positive : DurationError

abbrev pub is_digit : ℕ → Bool
is_digit c = leb b'0' c && leb c b'9'

abbrev pub add_digit : ℕ → Text × Text → Text × Text
add_digit c (ds, rest) = (c ∷ ds, rest)

-- The inner loop over `i`: the digits at the front, and what follows.
unfoldable pub span_digits : Text → Text × Text
span_digits [] = ([], [])
span_digits (c ∷ s) =
    let more = add_digit c (span_digits s) in if is_digit c then more else ([], c ∷ s)

-- The loop over the digits.
unfoldable pub read_value : ℕ → Text → Result DurationError ℕ
read_value value [] = ok value
read_value value (r ∷ ds) =
    let digit = r - b'0' in
    let rest = read_value (value * 10 + digit) ds in
    if ltb ((max_i64 - digit) / 10) value then err duration_overflow else rest

unfoldable pub unit_of : ℕ → Option ℕ
unit_of u =
    if u == b'M'
    then some month
    else if u == b'w'
    then some week
    else if u == b'd'
    then some day
    else if u == b'h'
    then some hour
    else if u == b'm'
    then some minute
    else if u == b's'
    then some second
    else none

-- The switch over the unit.
abbrev pub known : Option ℕ → Result DurationError ℕ
known none = err unknown_unit
known (some d) = ok d

unfoldable pub seen_unit : List ℕ → ℕ → Bool
seen_unit [] u = false
seen_unit (v ∷ seen) u = v == u || seen_unit seen u

-- part := time.Duration(value) * unitDur, behind its test
unfoldable pub part_of : ℕ → ℕ → Result DurationError ℕ
part_of value unit_dur =
    if not (value == 0) && ltb (max_i64 / value) unit_dur
    then err duration_overflow
    else ok (value * unit_dur)

-- total += part, behind its test
unfoldable pub add_part : ℕ → ℕ → Result DurationError ℕ
add_part total part =
    if ltb 0 part && ltb (max_i64 - part) total then err duration_overflow else ok (total + part)

abbrev pub is_empty : Text → Bool
is_empty [] = true
is_empty (c ∷ s) = false

-- The unit behind a number, and the round's new total, with the unit.
unfoldable pub add_unit : ℕ → ℕ → List ℕ → ℕ → Result DurationError ℕ
unfolding unit_of seen_unit part_of add_part
add_unit total value seen unit = do
  unit_dur ← known (unit_of unit)
  refuse (seen_unit seen unit) unit_repeated
  part ← part_of value unit_dur
  add_part total part

abbrev pub finish : ℕ → Result DurationError ℕ
finish total = if total == 0 then err not_positive else ok total

-- What follows the number: the unit, and the rounds after it.
abbrev pub behind_number :
    (ℕ → List ℕ → Text → Result DurationError ℕ) → ℕ → ℕ → List ℕ → Text → Result DurationError ℕ
behind_number continue total value seen [] = err no_unit
behind_number continue total value seen (unit ∷ rest) = do
  total' ← add_unit total value seen unit
  continue total' (unit ∷ seen) rest

unfoldable pub duration_from : ℕ → ℕ → List ℕ → Text → Result DurationError ℕ
duration_from zero total seen s = err missing_number
duration_from (suc fuel) total seen [] = finish total
duration_from (suc fuel) total seen (c ∷ s) = do
  let (ds, behind) = span_digits (c ∷ s)
  refuse (is_empty ds) missing_number
  value ← read_value 0 ds
  behind_number (duration_from fuel) total value seen behind

unfoldable pub parse_duration : Text → Result DurationError ℕ
unfolding duration_from span_digits read_value add_unit
parse_duration input = duration_from (suc (length input)) 0 [] input

parse_duration_test :
    parse_duration (codes "4M2d8h30s") ≡ ok (4 * month + 2 * day + 8 * hour + 30 * second)
unfolding parse_duration
parse_duration_test = refl
