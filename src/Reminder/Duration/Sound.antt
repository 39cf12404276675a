-- ===== src/Reminder/Duration/Sound.antt =====
-- What an accepted duration says.
use gin_bot.Base.{
  ℕ, zero, suc, ◌+◌, ◌-◌, ◌*◌, ◌/◌, ◌≤◌, ◌<◌, true, false, List, [], ◌∷◌, ◌++◌, Option, none, some,
  length, ltb, ◌≡◌, ◌≢◌, refl, sym, ◌∙◌, ap, arith, All, Bool-cases, inl, inr,
}
use native.Mathlib.Nat.{le-div_iff_mul-le}
use gin_bot.Base.Int.{max_i64}
use gin_bot.Base.Result.{ok, >>=-eq-ok, refuse-eq-ok, ok-injective}
use gin_bot.Base.Text.{Text}
use gin_bot.Reminder.Duration.{
  missing_number, unit_repeated, is_digit, add_digit, span_digits, read_value, unit_of, known,
  seen_unit, part_of, add_part, is_empty, add_unit, finish, behind_number, duration_from,
  parse_duration,
}
use gin_bot.Reminder.Duration.Complete.{
  Segment, IsSegment, Distinct, spell, value_from, total_worth, seen_unit-false, unit_of-IsUnit,
}

add_digit-append :
    (c : ℕ) (p : Text × Text) → (add_digit c p).0 ++ (add_digit c p).1 ≡ c ∷ (p.0 ++ p.1)
add_digit-append c (ds, rest) = refl

span_digits_whole : (s : Text) → (span_digits s).0 ++ (span_digits s).1 ≡ s
unfolding span_digits
span_digits_whole [] = refl
span_digits_whole (c ∷ s) = elim (Bool-cases (is_digit c)) [
  | inl e ↦ rw e (add_digit-append c (span_digits s) ∙ ap (λ t. c ∷ t) (span_digits_whole s))
  | inr e ↦ rw e
]

span_digits-All : (s : Text) → All (λ c. is_digit c ≡ true) (span_digits s).0
unfolding span_digits
span_digits-All [] = tt
span_digits-All (c ∷ s) = elim (Bool-cases (is_digit c)) [
  | inl e ↦ rw e (e, span_digits-All s)
  | inr e ↦ rw e tt
]

read_value-eq : (n : ℕ) (ds : Text) {v : ℕ} → read_value n ds ≡ ok v → value_from n ds ≡ v
unfolding read_value
read_value-eq n [] h = ok-injective h
read_value-eq n (c ∷ ds) h = elim (Bool-cases (ltb ((max_i64 - (c - b'0')) / 10) n)) [
  | inl e ↦ absurd (ground arith)
  | inr e ↦ read_value-eq (n * 10 + (c - b'0')) ds (rw e at h)
]

part_of-eq : (v d : ℕ) {p : ℕ} → part_of v d ≡ ok p → (p ≡ v * d) × (p ≤ max_i64)
unfolding part_of
part_of-eq zero d h = ground arith
part_of-eq (suc v) d h =
    let within = (le-div_iff_mul-le {k = suc v} {x = d} {y = max_i64} (omega arith)).0 in
    ground arith

add_part-eq :
    (t p : ℕ) {t' : ℕ}
    → t ≤ max_i64
    → p ≤ max_i64
    → add_part t p ≡ ok t'
    → (t' ≡ t + p) × (t' ≤ max_i64)
unfolding add_part
add_part-eq t p b c h = ground arith

known-eq : (o : Option ℕ) {d : ℕ} → known o ≡ ok d → o ≡ some d
known-eq none h = absurd (cc)
known-eq (some d) h = ap some (ok-injective h)

-- A round adds the value times its unit, which was not seen before, and stays an int64.
add_unit-eq :
    (t v : ℕ) (seen : List ℕ) (u : ℕ) {t' : ℕ}
    → t ≤ max_i64
    → add_unit t v seen u ≡ ok t'
    → (d : ℕ) × (unit_of u ≡ some d)
      × (seen_unit seen u ≡ false)
      × (t' ≡ t + v * d)
      × (t' ≤ max_i64)
unfolding add_unit
add_unit-eq t v seen u {t'} b h =
    let (d, isunit, h1) = >>=-eq-ok (known (unit_of u)) _ {b = t'} h in
    let (fresh, h2) = refuse-eq-ok (seen_unit seen u) unit_repeated _ h1 in
    let (p, ispart, h3) = >>=-eq-ok (part_of v d) (add_part t) {b = t'} h2 in
    let (eq, small) = part_of-eq v d ispart in
    let (eq', small') = add_part-eq t p b small h3 in
    (d, known-eq (unit_of u) isunit, fresh, eq' ∙ ap (λ x. t + x) eq, small')

-- What a round that is accepted has read.
record Round (f t : ℕ) (seen : List ℕ) (s : Text) (d : ℕ) : Type 0 where
  value : ℕ
  total' : ℕ
  unit : ℕ
  rest : Text
  nonempty : is_empty (span_digits s).0 ≡ false
  read : read_value 0 (span_digits s).0 ≡ ok value
  after : (span_digits s).1 ≡ unit ∷ rest
  added : add_unit t value seen unit ≡ ok total'
  continued : duration_from f total' (unit ∷ seen) rest ≡ ok d

behind_number-eq :
    (f t value : ℕ) (seen : List ℕ) (behind : Text) {d : ℕ}
    → behind_number (duration_from f) t value seen behind ≡ ok d
    → (unit : ℕ) × (rest : Text) × (t' : ℕ) × (behind ≡ unit ∷ rest)
      × (add_unit t value seen unit ≡ ok t')
      × (duration_from f t' (unit ∷ seen) rest ≡ ok d)
behind_number-eq f t value seen [] h = absurd (cc)
behind_number-eq f t value seen (unit ∷ rest) {d} h =
    let (t', added, continued) =
      >>=-eq-ok (add_unit t value seen unit) (λ x. duration_from f x (unit ∷ seen) rest) {b = d}
        h in
    (unit, rest, t', refl, added, continued)

duration_from-Round :
    (f t : ℕ) (seen : List ℕ) (c : ℕ) (s : Text) {d : ℕ}
    → duration_from (suc f) t seen (c ∷ s) ≡ ok d
    → Round f t seen (c ∷ s) d
unfolding duration_from
duration_from-Round f t seen c s {d} h =
    let ds = (span_digits (c ∷ s)).0 in
    let behind = (span_digits (c ∷ s)).1 in
    let (nonempty, h1) = refuse-eq-ok (is_empty ds) missing_number _ h in
    let (value, read, h2) =
      >>=-eq-ok (read_value 0 ds) (λ v. behind_number (duration_from f) t v seen behind) {b = d}
        h1 in
    let (unit, rest, total', after, added, continued) = behind_number-eq f t value seen behind h2 in
    record {
      value = value;
      total' = total';
      unit = unit;
      rest = rest;
      nonempty = nonempty;
      read = read;
      after = after;
      added = added;
      continued = continued;
    }

-- The text as numbers with units, none of them seen or repeated, and the value as their sum.
abbrev pub Spelled : ℕ → List ℕ → Text → ℕ → Type 0
Spelled t seen s d =
    (gs : List Segment) × (spell gs ≡ s)
    × All IsSegment gs
    × Distinct seen gs
    × (d ≡ t + total_worth gs)
    × (0 < d)
    × (d ≤ max_i64)

finish-eq : (t : ℕ) {d : ℕ} → finish t ≡ ok d → (d ≡ t) × (0 < d)
finish-eq t h = ground arith

nonempty_ne : (ds : Text) → is_empty ds ≡ false → ds ≢ []
nonempty_ne [] h e = absurd (cc)
nonempty_ne (c ∷ ds) h e = cc

duration_from-Spelled :
    (f t : ℕ) (seen : List ℕ) (s : Text) {d : ℕ}
    → t ≤ max_i64
    → duration_from f t seen s ≡ ok d
    → Spelled t seen s d
duration_from-Spelled zero t seen s b h = absurd (unfold duration_from in cc)
duration_from-Spelled (suc f) t seen [] {d} b h =
    let (eq, positive) = finish-eq t {d = d} (unfold duration_from in h) in
    ([], refl, tt, tt, omega arith, positive, omega arith)
duration_from-Spelled (suc f) t seen (c ∷ s) {d} b h =
    let r = duration_from-Round f t seen c s h in
    let (unit_dur, isunit, fresh, eq, small) = add_unit-eq t r.value seen r.unit b r.added in
    let (gs, spelled, segs, distinct, sum, positive, fits) =
      duration_from-Spelled f r.total' (r.unit ∷ seen) r.rest small r.continued in
    let g : Segment = record {
      digits = (span_digits (c ∷ s)).0;
      unit = r.unit;
      unit_dur = unit_dur;
    } in
    let value = read_value-eq 0 (span_digits (c ∷ s)).0 r.read in
    (
      g ∷ gs,
      ap (λ x. (span_digits (c ∷ s)).0 ++ x) (ap (λ x. r.unit ∷ x) spelled ∙ sym r.after)
          ∙ span_digits_whole (c ∷ s),
      (
        record {
          all_digits = span_digits-All (c ∷ s);
          nonempty = nonempty_ne (span_digits (c ∷ s)).0 r.nonempty;
          unit_known = unit_of-IsUnit r.unit isunit;
        },
        segs,
      ),
      (seen_unit-false seen r.unit fresh, distinct),
      omega (arith, sum, eq, ap (λ (x : ℕ). x * unit_dur) value),
      positive,
      fits,
    )

-- An accepted duration is positive and fits an int64; its text is numbers with units, no unit
-- twice, and its value is exactly their sum.
pub parse_duration-Spelled : (s : Text) {d : ℕ} → parse_duration s ≡ ok d → Spelled 0 [] s d
unfolding parse_duration
parse_duration-Spelled s h = duration_from-Spelled (suc (length s)) 0 [] s (omega arith) h
