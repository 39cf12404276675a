-- ===== src/Examples/Ticks.antt =====
-- The reminder job on its ticker, with calls that fail again and again.
use gin_bot.Base.{
  ℕ, zero, suc, ◌+◌, ◌*◌, ◌%◌, ◌==◌, ◌≤◌, ◌≡◌, ap, not, ◌||◌, if◌then◌else◌, false, List, [], ◌∷◌,
  none, All, arith, Bool-cases, inl, inr,
}
use gin_bot.Base.Text.{codes}
use gin_bot.Reminder.Table.{Faults}
use gin_bot.Service.Remind.{System}
use gin_bot.Service.Remind.Rounds.{
  Round, last_clean, IsPaced, rounds, rounds-Terminates, is_unfinished,
}
use gin_bot.Reminder.Table.{Row, pending}

abbrev one_second : ℕ
one_second = 1000000000

-- A tick each second from `now` on; every call of every third round fails.
abbrev every_third : ℕ → Faults
every_third n call = n % 3 == 0

ticks : ℕ → ℕ → List Round
ticks zero now = []
ticks (suc n) now = record { at = now; faults = every_third n } ∷ ticks n (now + one_second)

-- The ticks keep the pace of two seconds, and the last good one is among the last two.
ticks-IsPaced :
    (n start last now : ℕ)
    → start ≤ now
    → now ≤ last + 2 * one_second
    → (n % 3 ≡ 1 → now ≤ last + one_second)
    → IsPaced start (2 * one_second) last (ticks n now)
      × (now + n * one_second ≤ last_clean last (ticks n now) + 2 * one_second)
unfolding ticks
ticks-IsPaced zero start last now le near next = (tt, omega arith)
ticks-IsPaced (suc n) start last now le near next = elim (Bool-cases (n % 3 == 0)) [
  | inl faulty ↦
      let soon = next (ground arith) in
      let (paced, reached) =
        ticks-IsPaced n start last (now + one_second) (omega arith) (omega arith)
          (λ e. absurd (ground arith)) in
      let same : last_clean last (ticks (suc n) now)
          ≡ last_clean last (ticks n (now + one_second)) =
        ap (λ b. last_clean (if not (b || b) then now else last) (ticks n (now + one_second)))
          faulty in
      (rw faulty (le, near, paced), omega (arith, reached, same))
  | inr good ↦
      let (paced, reached) =
        ticks-IsPaced n start now (now + one_second) (omega arith) (omega arith)
          (λ e. omega arith) in
      let same : last_clean last (ticks (suc n) now) ≡ last_clean now (ticks n (now + one_second)) =
        ap (λ b. last_clean (if not (b || b) then now else last) (ticks n (now + one_second)))
          good in
      (rw good (le, near, paced), omega (arith, reached, same))
]

abbrev tea : Row
tea = record {
  id = codes "a";
  ref = 1;
  datetime = 5;
  timezone = [];
  repeat_cron = none;
  destination_id = 1;
  status = pending;
  user_id = none;
  message = none;
  parent_id = none;
  deleted = false;
  claimed_at = none;
  delivery_attempts = 0;
}

abbrev start : System
start = record {
  database = record { reminders = tea ∷ []; actions = [] };
  server = record { clients = []; next_id = 1; is_done = false };
}

rounds-Terminates_example :
    All
      (λ r. is_unfinished 5 r ≡ false)
      (rounds
        (λ destination_id. none)
        (λ user platform. none)
        (ticks 613 5)
        start).database.reminders
rounds-Terminates_example =
    let (paced, late) = ticks-IsPaced 613 5 5 5 (omega arith) (omega arith) (λ e. omega arith) in
    rounds-Terminates (λ destination_id. none) (λ user platform. none) 5 (2 * one_second)
      (ticks 613 5) start ((omega arith, λ t e. absurd (cc)), tt) paced (omega (arith, late))
