-- ===== src/Reminder/Duration/Complete.antt =====
-- Which durations are accepted, and with which value.
use gin_bot.Base.{
  ℕ, zero, suc, ◌+◌, ◌-◌, ◌*◌, ◌≤◌, ◌<◌, true, false, List, [], ◌∷◌, ◌++◌, some, length,
  length-append, ◌≡◌, ◌≢◌, refl, ◌∙◌, ap, arith, All, ==_iff, ◌⊎◌,
}
use native.Mathlib.Nat.{le-div_iff_mul-le}
use gin_bot.Base.Int.{max_i64}
use gin_bot.Base.Result.{ok, ◌>>=◌}
use gin_bot.Base.Text.{Text}
use gin_bot.Reminder.Duration.{
  is_digit, span_digits, read_value, unit_of, seen_unit, part_of, add_part, add_unit, duration_from,
  parse_duration,
}

-- A number and its unit.
pub record Segment : Type 0 where
  pub digits : Text
  pub unit : ℕ
  pub unit_dur : ℕ

-- The number that digits spell behind `n`, with no bound.
abbrev pub value_from : ℕ → Text → ℕ
value_from n [] = n
value_from n (c ∷ ds) = value_from (n * 10 + (c - b'0')) ds

abbrev worth : Segment → ℕ
worth g = value_from 0 g.digits * g.unit_dur

abbrev pub total_worth : List Segment → ℕ
total_worth [] = 0
total_worth (g ∷ gs) = worth g + total_worth gs

abbrev pub spell : List Segment → Text
spell [] = []
spell (g ∷ gs) = g.digits ++ (g.unit ∷ spell gs)

-- The unit letters with their nanoseconds: a month is thirty days.
abbrev IsUnit : ℕ → ℕ → Type 0
IsUnit u d =
    ((u ≡ b's') × (d ≡ 1000000000))
    ⊎ ((u ≡ b'm') × (d ≡ 60000000000))
    ⊎ ((u ≡ b'h') × (d ≡ 3600000000000))
    ⊎ ((u ≡ b'd') × (d ≡ 86400000000000))
    ⊎ ((u ≡ b'w') × (d ≡ 604800000000000))
    ⊎ ((u ≡ b'M') × (d ≡ 2592000000000000))

pub unit_of-IsUnit : (u : ℕ) {d : ℕ} → unit_of u ≡ some d → IsUnit u d
unfolding unit_of
unit_of-IsUnit u h = ground arith

unit_of-some : (u d : ℕ) → IsUnit u d → unit_of u ≡ some d
unfolding unit_of
unit_of-some u d h = ground arith

pub record IsSegment (g : Segment) : Type 0 where
  pub all_digits : All (λ c. is_digit c ≡ true) g.digits
  pub nonempty : g.digits ≢ []
  pub unit_known : IsUnit g.unit g.unit_dur

-- No unit occurs twice, nor among the seen ones.
abbrev pub Distinct : List ℕ → List Segment → Type 0
Distinct seen [] = Unit
Distinct seen (g ∷ gs) = All (λ u. u ≢ g.unit) seen × Distinct (g.unit ∷ seen) gs

pub seen_unit-false : (seen : List ℕ) (u : ℕ) → seen_unit seen u ≡ false → All (λ v. v ≢ u) seen
unfolding seen_unit
seen_unit-false [] u h = tt
seen_unit-false (v ∷ seen) u h =
    (λ e. ground (arith, ==_iff v u), seen_unit-false seen u (ground arith))

seen_unit-All : (seen : List ℕ) (u : ℕ) → All (λ v. v ≢ u) seen → seen_unit seen u ≡ false
unfolding seen_unit
seen_unit-All [] u h = refl
seen_unit-All (v ∷ seen) u (ne, h) = ground (arith, ==_iff v u, seen_unit-All seen u h)

span_digits-append :
    (ds : Text) (u : ℕ) (rest : Text)
    → All (λ c. is_digit c ≡ true) ds
    → is_digit u ≡ false
    → span_digits (ds ++ (u ∷ rest)) ≡ (ds, u ∷ rest)
unfolding span_digits
span_digits-append [] u rest h k = rw k
span_digits-append (c ∷ ds) u rest (hc, h) k = rw (hc, span_digits-append ds u rest h k)

le-value_from : (n : ℕ) (ds : Text) → n ≤ value_from n ds
le-value_from n [] = omega arith
le-value_from n (c ∷ ds) = omega (arith, le-value_from (n * 10 + (c - b'0')) ds)

read_value-ok :
    (n : ℕ) (ds : Text)
    → All (λ c. is_digit c ≡ true) ds
    → value_from n ds ≤ max_i64
    → read_value n ds ≡ ok (value_from n ds)
unfolding read_value
read_value-ok n [] h fits = refl
read_value-ok n (c ∷ ds) (hc, h) fits =
    ground
      (arith, read_value-ok (n * 10 + (c - b'0')) ds h fits, le-value_from (n * 10 + (c - b'0')) ds)

unit_of_not_digit : (u : ℕ) {d : ℕ} → unit_of u ≡ some d → is_digit u ≡ false
unfolding unit_of
unit_of_not_digit u h = ground arith

unit_of_pos : (u : ℕ) {d : ℕ} → unit_of u ≡ some d → 0 < d
unfolding unit_of
unit_of_pos u h = ground arith

le-mul : (v d : ℕ) → 0 < d → v ≤ v * d
le-mul v d h = grind arith

part_of-ok : (v d : ℕ) → v * d ≤ max_i64 → part_of v d ≡ ok (v * d)
unfolding part_of
part_of-ok zero d h = refl
part_of-ok (suc v) d h =
    let within =
      (le-div_iff_mul-le {k = suc v} {x = d} {y = max_i64} (omega arith)).1 (omega arith) in
    ground arith

add_part-ok : (t p : ℕ) → t + p ≤ max_i64 → add_part t p ≡ ok (t + p)
unfolding add_part
add_part-ok t p h = ground arith

add_unit-ok :
    (t : ℕ) (seen : List ℕ) (g : Segment)
    → IsSegment g
    → seen_unit seen g.unit ≡ false
    → t + worth g ≤ max_i64
    → add_unit t (value_from 0 g.digits) seen g.unit ≡ ok (t + worth g)
unfolding add_unit
add_unit-ok t seen g s fresh fits = rw (
  unit_of-some g.unit g.unit_dur s.unit_known,
  fresh,
  part_of-ok (value_from 0 g.digits) g.unit_dur (omega arith),
  add_part-ok t (worth g) fits,
)

-- One round on a number and a unit.
duration_from_step :
    (f t : ℕ) (seen : List ℕ) (ds : Text) (u : ℕ) (rest : Text)
    → ds ≢ []
    → All (λ c. is_digit c ≡ true) ds
    → is_digit u ≡ false
    → duration_from (suc f) t seen (ds ++ (u ∷ rest)) ≡ (
        read_value 0 ds >>= λ value.
        add_unit t value seen u >>= λ total'. duration_from f total' (u ∷ seen) rest)
unfolding duration_from
duration_from_step f t seen [] u rest ne h k = absurd (ne refl)
duration_from_step f t seen (c ∷ ds) u rest ne h k = rw (span_digits-append (c ∷ ds) u rest h k)

duration_from-spell :
    (f t : ℕ) (seen : List ℕ) (gs : List Segment)
    → length (spell gs) < f
    → All IsSegment gs
    → Distinct seen gs
    → t + total_worth gs ≤ max_i64
    → 0 < t + total_worth gs
    → duration_from f t seen (spell gs) ≡ ok (t + total_worth gs)
duration_from-spell zero t seen gs fuel s d fits positive = absurd (omega arith)
duration_from-spell (suc f) t seen [] fuel s d fits positive = unfold duration_from in ground arith
duration_from-spell (suc f) t seen (g ∷ gs) fuel (s, ss) (fresh, d) fits positive =
    let short : length (spell gs) < f = omega (arith, length-append g.digits (g.unit ∷ spell gs)) in
    rw
      (
        duration_from_step f t seen g.digits g.unit (spell gs) s.nonempty s.all_digits
            (unit_of_not_digit g.unit (unit_of-some g.unit g.unit_dur s.unit_known)),
        read_value-ok 0 g.digits s.all_digits (
            omega (
              arith,
              le-mul (value_from 0 g.digits) g.unit_dur
                  (unit_of_pos g.unit (unit_of-some g.unit g.unit_dur s.unit_known)),
            )),
        add_unit-ok t seen g s (seen_unit-All seen g.unit fresh) (omega arith),
        duration_from-spell f (t + worth g) (g.unit ∷ seen) gs short ss d (omega arith)
            (omega arith),
      )
      (ap ok (omega arith))

-- Numbers with units in any order, no unit twice, whose sum is positive and fits an int64, are
-- accepted, and the result is exactly that sum: nothing overflows on the way.
pub parse_duration-spell :
    (gs : List Segment)
    → All IsSegment gs
    → Distinct [] gs
    → total_worth gs ≤ max_i64
    → 0 < total_worth gs
    → parse_duration (spell gs) ≡ ok (total_worth gs)
unfolding parse_duration
parse_duration-spell gs s d fits positive =
    duration_from-spell (suc (length (spell gs))) 0 [] gs (omega arith) s d (omega arith)
      (omega arith)
    ∙ ap ok (omega arith)
