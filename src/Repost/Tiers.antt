-- ===== src/Repost/Tiers.antt =====
-- pkg/repost/repost.go: Tiers, Normalise and Grade. A Go int is an integer.
use gin_bot.Base.{ℕ, ◌≤◌, ◌≡◌, Bool, true, false, ◌||◌, arith, if◌then◌else◌, ◌↔◌}
use gin_bot.Base.Int.{ℤ, pos, ◌≤ℤ◌, ltb_ℤ, leb_ℤ}
use gin_bot.Repost.{max_distance}

pub record Tiers : Type 0 where
  pub identical : ℤ
  pub high : ℤ
  pub probable : ℤ

pub data Confidence : Type 0 where
  unspecified identical high probable : Confidence

unfoldable pub default_tiers : Tiers
default_tiers = record { identical = pos 0; high = pos 3; probable = pos max_distance }

-- The closure `clamp`: the value in range, and whether it had to change.
unfoldable clamp : ℤ → ℤ × Bool
clamp v =
    if ltb_ℤ v (pos 0)
    then (pos 0, true)
    else if ltb_ℤ (pos max_distance) v
    then (pos max_distance, true)
    else (v, false)

-- `if hi < lo { hi = lo; changed = true }`
unfoldable widen : ℤ → ℤ → ℤ × Bool
widen lo hi = if ltb_ℤ hi lo then (lo, true) else (hi, false)

unfoldable normalise : Tiers → Tiers × Bool
unfolding clamp widen
normalise t =
    let (i, c1) = clamp t.identical in
    let (h, c2) = clamp t.high in
    let (p, c3) = clamp t.probable in
    let (h', c4) = widen i h in
    let (p', c5) = widen h' p in
    (record { identical = i; high = h'; probable = p' }, c1 || c2 || c3 || c4 || c5)

unfoldable grade : Tiers → ℤ → Confidence
grade t distance =
    if leb_ℤ distance t.identical
    then Confidence.identical
    else if leb_ℤ distance t.high
    then Confidence.high
    else if leb_ℤ distance t.probable
    then Confidence.probable
    else Confidence.unspecified

-- The bounds ascend within 0 and the widest distance that the index covers.
pub record IsNormal (t : Tiers) : Type 0 where
  pub lowest : pos 0 ≤ℤ t.identical
  pub ascending : t.identical ≤ℤ t.high
  pub ascending' : t.high ≤ℤ t.probable
  pub highest : t.probable ≤ℤ pos max_distance

clamp_bounds : (v : ℤ) → (pos 0 ≤ℤ (clamp v).0) × ((clamp v).0 ≤ℤ pos max_distance)
unfolding clamp
clamp_bounds v = ground arith

widen_bounds :
    (lo hi : ℤ)
    → lo ≤ℤ pos max_distance
    → hi ≤ℤ pos max_distance
    → (lo ≤ℤ (widen lo hi).0) × ((widen lo hi).0 ≤ℤ pos max_distance)
unfolding widen
widen_bounds lo hi h k = ground arith

clamp_same : (v : ℤ) → pos 0 ≤ℤ v → v ≤ℤ pos max_distance → clamp v ≡ (v, false)
unfolding clamp
clamp_same v h k = ground arith

widen_same : (lo hi : ℤ) → lo ≤ℤ hi → widen lo hi ≡ (hi, false)
unfolding widen
widen_same lo hi h = ground arith

-- Whatever integers the configuration holds, normalising them gives ascending bounds within the
-- range that the index covers.
normalise-IsNormal : (t : Tiers) → IsNormal (normalise t).0
unfolding normalise
normalise-IsNormal t =
    let i = (clamp t.identical).0 in
    let h = (clamp t.high).0 in
    let p = (clamp t.probable).0 in
    let (lowest, top) = clamp_bounds t.identical in
    let (ascending, top') = widen_bounds i h top (clamp_bounds t.high).1 in
    let (ascending', highest) = widen_bounds (widen i h).0 p top' (clamp_bounds t.probable).1 in
    record { lowest = lowest; ascending = ascending; ascending' = ascending'; highest = highest }

-- Bounds that are in order already are left as they are, and no change is reported.
normalise_same : (t : Tiers) → IsNormal t → normalise t ≡ (t, false)
unfolding normalise
normalise_same t n = rw (
  clamp_same t.identical n.lowest (omega arith),
  clamp_same t.high (omega arith) (omega arith),
  clamp_same t.probable (omega arith) n.highest,
  widen_same t.identical t.high n.ascending,
  widen_same t.high t.probable n.ascending',
)

clamp_unchanged : (v : ℤ) → (clamp v).1 ≡ false → (clamp v).0 ≡ v
unfolding clamp
clamp_unchanged v h = ground arith

widen_unchanged : (lo hi : ℤ) → (widen lo hi).1 ≡ false → (widen lo hi).0 ≡ hi
unfolding widen
widen_unchanged lo hi h = ground arith

-- No change is reported only for bounds that were in order: a report of `false` means that the
-- result is the input.
normalise_unchanged : (t : Tiers) → (normalise t).1 ≡ false → (normalise t).0 ≡ t
unfolding normalise
normalise_unchanged t h = ground (
  arith,
  clamp_unchanged t.identical,
  clamp_unchanged t.high,
  clamp_unchanged t.probable,
  widen_unchanged (clamp t.identical).0 (clamp t.high).0,
  widen_unchanged (widen (clamp t.identical).0 (clamp t.high).0).0 (clamp t.probable).0,
)

abbrev strength : Confidence → ℕ
strength Confidence.identical = 3
strength Confidence.high = 2
strength Confidence.probable = 1
strength Confidence.unspecified = 0

-- A smaller distance never gets a weaker grade.
grade_antitone : (t : Tiers) (d e : ℤ) → d ≤ℤ e → strength (grade t e) ≤ strength (grade t d)
unfolding grade
grade_antitone t d e h = ground arith

-- Under normalised bounds a distance is graded exactly when it is at most the probable bound, so
-- none above seven is, for which the index promises no candidates.
grade_unspecified_iff :
    (t : Tiers) (d : ℤ)
    → IsNormal t
    → ((grade t d ≡ Confidence.unspecified) ↔ ¬ (d ≤ℤ t.probable))
      × (¬ (d ≤ℤ pos max_distance) → grade t d ≡ Confidence.unspecified)
unfolding grade
grade_unspecified_iff t d n = (((λ h. ground arith), (λ h. ground arith)), (λ h. ground arith))
