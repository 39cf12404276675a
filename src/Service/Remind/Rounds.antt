-- ===== src/Service/Remind/Rounds.antt =====
-- pkg/cron/cronjob/remind.go: rounds of the job that follow each other with no confirmation between.
use gin_bot.Base.{
  ℕ, ◌+◌, ◌*◌, ◌≤◌, ◌<◌, ◌==◌, ◌≡◌, Bool, true, false, not, ◌&&◌, ◌||◌, List, [], ◌∷◌, Option, none,
  some, inl, inr, All, arith, Bool-cases, leb, if◌then◌else◌, All-map, All-weaken,
}
use native.Mathlib.Nat.{mul-le-mul_right}
use gin_bot.Base.Table.{update_where-All}
use gin_bot.Base.Text.{Text}
use gin_bot.Access.{Platform}
use gin_bot.Reminder.Table.{
  Row, Database, Status, status_number, unspecified, pending, sent, delivered, failed, Faults,
  reclaiming, claiming, is_due, is_stale, claim, reclaim, claim_due_reminders,
  reclaim_stale_reminders, stale_claim_grace,
}
use gin_bot.Reminder.Table.Rows.{Fits, IsCoherent}
use gin_bot.Service.Remind.{System, remind}
use gin_bot.Service.Remind.Rows.{
  next_row, remind_rows, next_row-IsCoherent, claim-IsCoherent, reclaim-IsCoherent,
}
use gin_bot.Service.Remind.Attempts.{
  is_outstanding, IsPaid, claim-IsPaid, reclaim-IsPaid, next_row-IsPaid,
}

-- When a round runs, and which of its calls fail.
pub record Round : Type 0 where
  pub at : ℕ
  pub faults : Faults

abbrev is_clean : Round → Bool
is_clean r = not (r.faults reclaiming || r.faults claiming)

-- The time of the last round that no call failed in.
abbrev pub last_clean : ℕ → List Round → ℕ
last_clean last [] = last
last_clean last (r ∷ later) = last_clean (if is_clean r then r.at else last) later

-- Every round runs from the start on, and at most `step` after the last one that no call failed in.
abbrev pub IsPaced : ℕ → ℕ → ℕ → List Round → Type 0
IsPaced start step last [] = Unit
IsPaced start step last (r ∷ later) =
    (start ≤ r.at)
    × (r.at ≤ last + step)
    × IsPaced start step (if is_clean r then r.at else last) later

-- Live, due by the first round, and still to be delivered or confirmed.
abbrev pub is_unfinished : ℕ → Row → Bool
is_unfinished start r = not r.deleted && leb r.datetime start && is_outstanding r

abbrev pub IsClaimedBy : ℕ → Row → Type 0
IsClaimedBy start r = (t : ℕ) → r.claimed_at ≡ some t → t ≤ start

abbrev IsOpen : ℕ → ℕ → ℕ → Row → Type 0
IsOpen start step last r =
    IsCoherent r × IsPaid start (start + step) (stale_claim_grace + step) (last + step) r

module _ (start step last now : ℕ) where
  -- A call that acts, in a round whatever else fails.
  reclaim_rows-IsOpen :
      (faults : Faults) (s : Database)
      → All (IsOpen start step last) s.reminders
      → All (IsOpen start step last) (reclaim_stale_reminders faults now s).0.reminders
  unfolding reclaim_stale_reminders
  reclaim_rows-IsOpen faults s each = elim (Bool-cases (faults reclaiming)) [
    | inl e ↦ rw e each
    | inr e ↦ rw e (
        update_where-All (IsOpen start step last) (is_stale now) reclaim s.reminders
          (λ r stale (fits, paid). (
            reclaim-IsCoherent now r stale fits,
            reclaim-IsPaid start (start + step) (stale_claim_grace + step) (last + step) now r stale
                paid,
          ))
          each)
  ]

  claim_rows-IsOpen :
      (places : ℕ → Option (Platform × Option Text)) (owners : Option Text → Platform → Option Text)
      (faults : Faults) (s : Database)
      → now ≤ last + step
      → All (IsOpen start step last) s.reminders
      → All (IsOpen start step last) (claim_due_reminders places owners faults now s).0.reminders
  unfolding claim_due_reminders
  claim_rows-IsOpen places owners faults s early each = elim (Bool-cases (faults claiming)) [
    | inl e ↦ rw e each
    | inr e ↦ rw e (
        update_where-All (IsOpen start step last) (is_due now) (claim now) s.reminders
          (λ r due (fits, paid). (
            claim-IsCoherent now r due fits,
            claim-IsPaid start (start + step) (stale_claim_grace + step) (last + step) now
                (last + step) r due early (omega arith) paid,
          ))
          each)
  ]

open_attempts :
    (status : Status) (claimed : Option ℕ) (n : ℕ)
    → Fits status claimed n
    → ((status_number status == 1) || (status_number status == 2)) ≡ true
    → n ≤ 5
open_attempts pending none n h e = omega arith
open_attempts pending (some t) n h e = absurd h
open_attempts sent none n h e = absurd h
open_attempts sent (some t) n h e = h.1
open_attempts unspecified claimed n h e = absurd (cc)
open_attempts delivered claimed n h e = absurd (cc)
open_attempts failed claimed n h e = absurd (cc)

-- Five periods after the start an outstanding row has no attempt left to pay with.
worn_out :
    (start step last : ℕ) (r : Row)
    → start + 5 * (stale_claim_grace + step) < last
    → IsOpen start step last r
    → is_unfinished start r ≡ false
worn_out start step last r late (fits, paid) = elim (Bool-cases (is_unfinished start r)) [
  | inr done ↦ done
  | inl waits ↦
      let outstanding : is_outstanding r ≡ true = ground arith in
      let few = open_attempts r.status r.claimed_at r.delivery_attempts fits outstanding in
      let (enough, each) = paid (ground arith) (ground arith) outstanding in
      let most = mul-le-mul_right (stale_claim_grace + step) few in absurd (omega arith)
]

claimed_attempts :
    (status : Status) (claimed : Option ℕ) (n : ℕ)
    → Fits status claimed n
    → (t : ℕ) → claimed ≡ some t
    → 1 ≤ n
claimed_attempts sent (some t) n h u e = h.0
claimed_attempts sent none n h u e = absurd h
claimed_attempts pending (some t) n h u e = absurd h
claimed_attempts pending none n h u e = absurd (cc)
claimed_attempts delivered (some t) n h u e = absurd h
claimed_attempts delivered none n h u e = h.0
claimed_attempts failed (some t) n h u e = absurd h
claimed_attempts failed none n h u e = h.0
claimed_attempts unspecified (some t) n h u e = absurd h
claimed_attempts unspecified none n h u e = absurd h

first-IsOpen :
    (start step : ℕ) (r : Row) → IsCoherent r → IsClaimedBy start r → IsOpen start step start r
first-IsOpen start step r fits old = (
  fits,
  λ live soon outstanding. (
    omega arith,
    λ t e.
        let tried = claimed_attempts r.status r.claimed_at r.delivery_attempts fits t e in
        let paid = mul-le-mul_right (stale_claim_grace + step) tried in
        omega (arith, old t e, paid),
  ),
)

module _ (places : ℕ → Option (Platform × Option Text))
    (owners : Option Text → Platform → Option Text) where
  -- Rounds of the job, with no call to the service between them.
  unfoldable pub rounds : List Round → System → System
  unfolding remind
  rounds [] s = s
  rounds (r ∷ later) s = rounds later (remind places owners r.faults r.at s)

  remind-IsOpen :
      (start step last : ℕ) (r : Round) (s : System)
      → start ≤ r.at
      → r.at ≤ last + step
      → All (IsOpen start step last) s.database.reminders
      → All
          (IsOpen start step (if is_clean r then r.at else last))
          (remind places owners r.faults r.at s).database.reminders
  unfolding remind
  remind-IsOpen start step last r s le early each = elim (Bool-cases (is_clean r)) [
    | inl clean ↦
        rw (clean, remind_rows places owners r.faults r.at s (ground arith) (ground arith))
          (All-map (IsOpen start step r.at) (next_row r.at) s.database.reminders
            (λ q (fits, paid). (
              next_row-IsCoherent r.at q fits,
              next_row-IsPaid start (start + step) step (last + step) r.at q le early fits paid,
            ))
            each)
    | inr faulty ↦ rw faulty (
        claim_rows-IsOpen start step last r.at places owners r.faults
          (reclaim_stale_reminders r.faults r.at s.database).0 early
          (reclaim_rows-IsOpen start step last r.at r.faults s.database each))
  ]

  rounds-IsOpen :
      (start step last : ℕ) (rs : List Round) (s : System)
      → IsPaced start step last rs
      → All (IsOpen start step last) s.database.reminders
      → All (IsOpen start step (last_clean last rs)) (rounds rs s).database.reminders
  unfolding rounds
  rounds-IsOpen start step last [] s paced each = each
  rounds-IsOpen start step last (r ∷ later) s (le, early, paced) each =
      rounds-IsOpen start step (if is_clean r then r.at else last) later
        (remind places owners r.faults r.at s) paced
        (remind-IsOpen start step last r s le early each)

  -- A reminder that nobody confirms is given up. Rounds run from the start on, at any times, each at
  -- most `step` after the last round that no call failed in, and calls of the others may fail. Rows
  -- are coherent at first, and no claim lies in the future. Once a round that no call failed in runs
  -- more than five times the grace and the step after the start, no live reminder that was due at
  -- the start is still pending or sent.
  pub rounds-Terminates :
      (start step : ℕ) (rs : List Round) (s : System)
      → All (λ r. IsCoherent r × IsClaimedBy start r) s.database.reminders
      → IsPaced start step start rs
      → start + 5 * (stale_claim_grace + step) < last_clean start rs
      → All (λ r. is_unfinished start r ≡ false) (rounds rs s).database.reminders
  rounds-Terminates start step rs s each paced late =
      All-weaken (IsOpen start step (last_clean start rs)) (λ r. is_unfinished start r ≡ false)
        (rounds rs s).database.reminders
        (λ r waits. worn_out start step (last_clean start rs) r late waits)
        (rounds-IsOpen start step start rs s paced (
          All-weaken (λ r. IsCoherent r × IsClaimedBy start r) (IsOpen start step start)
            s.database.reminders (λ r (fits, old). first-IsOpen start step r fits old) each))
