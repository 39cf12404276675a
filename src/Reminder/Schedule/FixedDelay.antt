-- ===== src/Reminder/Schedule/FixedDelay.antt =====
-- The arithmetic path of `@every` schedules.
use gin_bot.Base.{
  ℕ, ◌+◌, ◌-◌, ◌*◌, ◌/◌, ◌^◌, ◌≤◌, ◌<◌, none, some, some-eq, ltb, leb, ltb→lt, ltb→ge, ◌≡◌, refl,
  arith, ◌⊎◌, inl, inr, Bool-cases, Option-cases,
}
use native.Mathlib.Nat.{div-mul-le_self, lt-div-mul-add}
use gin_bot.Base.Int.{max_i64}
use gin_bot.Reminder.Schedule.{first_by_delay, saturating_sub, add_product, advance_by_delay}

-- `n` is the first time after `now` of those that begin with `first` and lie `delay` apart.
abbrev pub IsNextOf : ℕ → ℕ → ℕ → ℕ → Type 0
IsNextOf first delay now n =
    (k : ℕ) × (n ≡ first + k * delay) × (now < n) × ((k ≡ 0) ⊎ (n ≤ now + delay))

-- The number of delays up to the last time at or before `now`.
quotient_bounds :
    (d delay : ℕ) → 0 < delay → (d / delay * delay ≤ d) × (d < (d / delay + 1) * delay)
quotient_bounds d delay h = (div-mul-le_self d delay, omega (arith, lt-div-mul-add {a = d} h))

add_product-some :
    (first now product : ℕ) {n : ℕ}
    → product < 2 ^ 64
    → add_product first now product ≡ some n
    → (n ≡ first + product) × (now < n)
unfolding add_product
add_product-some first now product h e = ground arith

add_product-fits :
    (first now product : ℕ)
    → product ≤ max_i64
    → now < first + product
    → add_product first now product ≡ some (first + product)
unfolding add_product
add_product-fits first now product h e = ground arith

saturating_sub-le : (now first : ℕ) → saturating_sub now first ≤ now - first
saturating_sub-le now first = ground arith

-- What the multiplication is given: it stays below 2 ^ 64, and is exact unless `Sub` saturates.
product-bounds :
    (first now delay : ℕ)
    → 0 < delay
    → delay ≤ max_i64
    → let product = (saturating_sub now first / delay + 1) * delay in
      (product < 2 ^ 64)
      × (product ≤ saturating_sub now first + delay)
      × (saturating_sub now first < product)
product-bounds first now delay h k =
    let (low, high) = quotient_bounds (saturating_sub now first) delay h in
    let small : saturating_sub now first ≤ max_i64 = ground arith in
    (omega arith, omega arith, high)

-- A result is the first time after `now` among the anchor's.
some-IsNextOf :
    (anchor now delay : ℕ) {n : ℕ}
    → 0 < delay
    → delay ≤ max_i64
    → advance_by_delay anchor now delay ≡ some n
    → IsNextOf (first_by_delay anchor delay) delay now n
unfolding advance_by_delay
some-IsNextOf anchor now delay {n} h k e =
    let first = first_by_delay anchor delay in
    let q = saturating_sub now first / delay + 1 in
    elim (Bool-cases (ltb now first)) [
      | inl early ↦
          let same : first ≡ n = some-eq (rw early at e) in
          (0, omega arith, omega (arith, ltb→lt now first early), inl refl)
      | inr late ↦
          let reached : add_product first now (q * delay) ≡ some n = rw late at e in
          let (below, near, past) = product-bounds first now delay h k in
          let (eq, after) = add_product-some first now (q * delay) below reached in
          (q, eq, after, inr (omega (arith, ltb→ge now first late, saturating_sub-le now first)))
    ]

-- Within the range of a time.Duration there is always a result: the phase of an `@every` reminder
-- is lost only at an anchor some 292 years away.
advance_by_delay_total :
    (anchor now delay : ℕ)
    → 0 < delay
    → delay ≤ max_i64
    → now + delay ≤ first_by_delay anchor delay + max_i64
    → (n : ℕ) × (advance_by_delay anchor now delay ≡ some n)
unfolding advance_by_delay
advance_by_delay_total anchor now delay h k range =
    let first = first_by_delay anchor delay in
    let q = saturating_sub now first / delay + 1 in
    elim (Bool-cases (ltb now first)) [
      | inl early ↦ (first, rw early)
      | inr late ↦
          let (below, near, past) = product-bounds first now delay h k in
          let exact : saturating_sub now first ≡ now - first = ground arith in
          (
            first + q * delay,
            rw late (add_product-fits first now (q * delay) (omega arith) (omega arith)),
          )
    ]

-- The advance by a delay gives the first time after `now` among the anchor's, or gives none, and
-- gives none only when `now`, with a delay added, is more than the range of a time.Duration later
-- than the first time.
pub advance_by_delay-IsNextOf :
    (anchor now delay : ℕ)
    → 0 < delay
    → delay ≤ max_i64
    → ((n : ℕ) × (advance_by_delay anchor now delay ≡ some n)
        × IsNextOf (first_by_delay anchor delay) delay now n)
      ⊎ ((advance_by_delay anchor now delay ≡ none)
          × (first_by_delay anchor delay + max_i64 < now + delay))
advance_by_delay-IsNextOf anchor now delay h k =
    elim (Option-cases (advance_by_delay anchor now delay)) [
      | inr (n, e) ↦ inl (n, e, some-IsNextOf anchor now delay h k e)
      | inl e ↦ inr (
        e,
        elim (Bool-cases (leb (now + delay) (first_by_delay anchor delay + max_i64))) [
          | inl near ↦
              let (n, found) = advance_by_delay_total anchor now delay h k (ground arith) in
              absurd (cc)
          | inr far ↦ ground arith
        ],
      )
    ]
