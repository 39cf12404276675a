-- ===== src/Reminder/Schedule/Calendar.antt =====
-- The stepping path, and the advance as a whole.
use gin_bot.Base.{
  ℕ, zero, suc, ◌+◌, ◌*◌, ◌≤◌, ◌<◌, Bool, true, false, Option, none, some, if◌then◌else◌, ltb,
  ltb→lt, ltb→ge, lt→ltb, ◌≡◌, refl, sym, ◌∙◌, ap, arith, inl, inr, Bool-cases, Option-cases,
}
use gin_bot.Base.Result.{ok, err, ok-injective}
use gin_bot.Reminder.{day}
use gin_bot.Reminder.Schedule.{
  Schedule, never_fires_again, max_schedule_advance_steps, constant_delay, lost, advance_from_now,
  advance_steps, by_delay, advance_from, advance_by_delay, advance_schedule, min_interval_dm,
}

module _ {Loc : Type 0} (s : Schedule Loc) (loc : Loc) where
  -- `n` is the first occurrence after `now`, counted on from `t` one occurrence at a time.
  pub data FirstAfter (now : ℕ) : ℕ → ℕ → Type 0 where
    hit : {t n : ℕ} → s.next loc t ≡ some n → now < n → FirstAfter now t n
    skip : {t u n : ℕ} → s.next loc t ≡ some u → u ≤ now → FirstAfter now u n → FirstAfter now t n

  -- A step of the loop by what the schedule says.
  steps_none :
      (k t now : ℕ)
      → s.next loc t ≡ none
      → advance_steps (suc k) s loc t now ≡ err never_fires_again
  unfolding advance_steps
  steps_none k t now h = rw (h, advance_steps)

  steps_some :
      (k t now u : ℕ)
      → s.next loc t ≡ some u
      → advance_steps (suc k) s loc t now
        ≡ (if ltb now u then ok (u, false) else advance_steps k s loc u now)
  unfolding advance_steps
  steps_some k t now u h = rw (h, advance_steps)

  lost-kept : (o : Option ℕ) {n : ℕ} → ¬ (lost o ≡ ok (n, false))
  lost-kept none h = absurd (cc)
  lost-kept (some t) h = absurd (ground arith)

  steps-FirstAfter :
      (k t now : ℕ) {n : ℕ} → advance_steps k s loc t now ≡ ok (n, false) → FirstAfter now t n
  steps-FirstAfter zero t now {n} h =
      absurd (lost-kept (s.next loc now) {n = n} (unfold advance_steps in h))
  steps-FirstAfter (suc k) t now {n} h = elim (Option-cases (s.next loc t)) [
    | inl e ↦ absurd (ground (arith, steps_none k t now e))
    | inr (u, e) ↦
        let at = sym (steps_some k t now u e) ∙ h in
        elim (Bool-cases (ltb now u)) [
          | inl after ↦
              let same : u ≡ n = ap (λ (p : ℕ × Bool). p.0) (ok-injective (rw after at at)) in
              hit (e ∙ ap some same) (rw (← same) (ltb→lt now u after))
          | inr before ↦ skip e (ltb→ge now u before) (steps-FirstAfter k u now (rw before at at))
        ]
  ]

  -- Occurrences that lie a gap apart catch up with the clock within the steps.
  steps_in_phase :
      (gap : ℕ)
      → ((t : ℕ) → (u : ℕ) × (s.next loc t ≡ some u) × (t < u))
      → ((t u v : ℕ) → s.next loc t ≡ some u → s.next loc u ≡ some v → u + gap ≤ v)
      → (k t u now : ℕ) → s.next loc t ≡ some u
      → now < u + k * gap
      → (n : ℕ) × (advance_steps (suc k) s loc t now ≡ ok (n, false))
  steps_in_phase gap fires far zero t u now e h =
      (u, steps_some zero t now u e ∙ rw (lt→ltb now u (omega arith)))
  steps_in_phase gap fires far (suc k) t u now e h = elim (Bool-cases (ltb now u)) [
    | inl after ↦ (u, steps_some (suc k) t now u e ∙ rw after)
    | inr before ↦
        let (v, next, later) = fires u in
        let (n, found) =
          steps_in_phase gap fires far k u v now next (omega (arith, far t u v e next)) in
        (n, steps_some (suc k) t now u e ∙ rw before found)
  ]

  steps_total :
      ((t : ℕ) → (u : ℕ) × (s.next loc t ≡ some u))
      → (k t now : ℕ) → (r : ℕ × Bool) × (advance_steps k s loc t now ≡ ok r)
  steps_total fires zero t now = let (u, e) = fires now in ((u, true), unfold advance_steps in rw e)
  steps_total fires (suc k) t now =
      let (u, e) = fires t in
      elim (Bool-cases (ltb now u)) [
        | inl after ↦ ((u, false), steps_some k t now u e ∙ rw after)
        | inr before ↦
            let (r, found) = steps_total fires k u now in
            (r, steps_some k t now u e ∙ rw before found)
      ]

-- A calendar schedule that keeps its phase is advanced to the first occurrence after now among
-- those that follow the anchor one by one, so none after now is passed over.
pub advance_schedule-FirstAfter :
    {Loc : Type 0} (s : Schedule Loc) (loc : Loc) (anchor now : ℕ) {n : ℕ}
    → constant_delay s.delay ≡ none
    → advance_schedule s loc anchor now ≡ ok (n, false)
    → FirstAfter s loc now anchor n
unfolding advance_schedule
advance_schedule-FirstAfter s loc anchor now c h =
    steps-FirstAfter s loc max_schedule_advance_steps anchor now (rw c at h)

-- The step bound is wide enough: a calendar schedule whose occurrences never end, and lie at least
-- the direct-message floor apart from one to the next, keeps its phase at every anchor that is
-- younger than thirty days by that floor or more, and is advanced to the first occurrence after
-- now of those that follow the anchor.
pub advance_schedule_in_phase :
    {Loc : Type 0} (s : Schedule Loc) (loc : Loc) (anchor now : ℕ)
    → constant_delay s.delay ≡ none
    → ((t : ℕ) → (u : ℕ) × (s.next loc t ≡ some u) × (t < u))
    → ((t u v : ℕ) → s.next loc t ≡ some u → s.next loc u ≡ some v → u + min_interval_dm ≤ v)
    → now + min_interval_dm ≤ anchor + 30 * day
    → (n : ℕ) × (advance_schedule s loc anchor now ≡ ok (n, false)) × FirstAfter s loc now anchor n
unfolding advance_schedule
advance_schedule_in_phase s loc anchor now c fires far recent =
    let (u, e, later) = fires anchor in
    let (n, found) =
      steps_in_phase s loc min_interval_dm fires far 4319 anchor u now e (omega arith) in
    let whole : advance_schedule s loc anchor now ≡ ok (n, false) = rw c found in
    (n, whole, advance_schedule-FirstAfter s loc anchor now c whole)

by_delay_total :
    {Loc : Type 0} (s : Schedule Loc) (loc : Loc) (now : ℕ) (o : Option ℕ)
    → ((t : ℕ) → (u : ℕ) × (s.next loc t ≡ some u))
    → (r : ℕ × Bool) × (by_delay s loc now o ≡ ok r)
by_delay_total s loc now (some t) fires = ((t, false), refl)
by_delay_total s loc now none fires =
    let (u, e) = fires now in ((u, true), unfold advance_from_now in rw e)

advance_from_total :
    {Loc : Type 0} (s : Schedule Loc) (loc : Loc) (anchor now : ℕ) (o : Option ℕ)
    → ((t : ℕ) → (u : ℕ) × (s.next loc t ≡ some u))
    → (r : ℕ × Bool) × (advance_from s loc anchor now o ≡ ok r)
advance_from_total s loc anchor now (some delay) fires =
    by_delay_total s loc now (advance_by_delay anchor now delay) fires
advance_from_total s loc anchor now none fires =
    steps_total s loc fires max_schedule_advance_steps anchor now

-- A repeat is never stuck behind a stale anchor: a schedule that always has a next occurrence is
-- advanced to some time, whatever the anchor and the clock.
advance_schedule_total :
    {Loc : Type 0} (s : Schedule Loc) (loc : Loc) (anchor now : ℕ)
    → ((t : ℕ) → (u : ℕ) × (s.next loc t ≡ some u))
    → (r : ℕ × Bool) × (advance_schedule s loc anchor now ≡ ok r)
unfolding advance_schedule
advance_schedule_total s loc anchor now fires =
    advance_from_total s loc anchor now (constant_delay s.delay) fires
