-- ===== src/Service/Remind/Rows.antt =====
-- pkg/cron/cronjob/remind.go: what a round does to one row, and to all of them.
use gin_bot.Base.{
  ℕ, ◌<◌, ◌≡◌, refl, true, false, List, [], ◌∷◌, Option, none, some, inl, inr, arith, Bool-cases,
  if◌then◌else◌, leb, map, ◌==◌, ap,
}
use gin_bot.Base.Table.{update_where, update_where-All}
use gin_bot.Base.Text.{Text}
use gin_bot.Access.{Platform}
use gin_bot.Reminder.Table.{
  Row, Status, status_number, max_delivery_attempts, unspecified, pending, sent, delivered, failed,
  Database, Faults, claiming, reclaiming, is_due, is_stale, claim, reclaim, claim_due_reminders,
  reclaim_stale_reminders,
}
use gin_bot.Reminder.Table.Rows.{Fits, IsCoherent}
use gin_bot.Reminder.Table.Keys.{update_where-IsKeyed}
use gin_bot.Reminder.Table.Changes.{IsValid, sent-Fits}
use gin_bot.Service.Remind.{System, remind}

pending-Fits :
    (status : Status) (claimed : Option ℕ) (n : ℕ)
    → (status_number status == 1) ≡ true
    → Fits status claimed n
    → n < 5
pending-Fits pending none n e h = h
pending-Fits pending (some t) n e h = absurd h
pending-Fits unspecified claimed n e h = absurd (cc)
pending-Fits sent claimed n e h = absurd (cc)
pending-Fits delivered claimed n e h = absurd (cc)
pending-Fits failed claimed n e h = absurd (cc)

pub claim-IsCoherent :
    (now : ℕ) (r : Row) → is_due now r ≡ true → IsCoherent r → IsCoherent (claim now r)
claim-IsCoherent now r due h =
    let few = pending-Fits r.status r.claimed_at r.delivery_attempts (ground arith) h in
    (omega arith, omega arith)

pub reclaim-IsCoherent :
    (now : ℕ) (r : Row) → is_stale now r ≡ true → IsCoherent r → IsCoherent (reclaim r)
reclaim-IsCoherent now r stale h =
    let some_tried = sent-Fits r.status r.claimed_at r.delivery_attempts (ground arith) h in
    elim (Bool-cases (leb max_delivery_attempts r.delivery_attempts)) [
      | inl e ↦ rw e some_tried
      | inr e ↦ rw e (ground arith)
    ]

reclaim-IsValid :
    (faults : Faults) (now : ℕ) (s : Database)
    → IsValid s.reminders
    → IsValid (reclaim_stale_reminders faults now s).0.reminders
unfolding reclaim_stale_reminders
reclaim-IsValid faults now s (each, keyed) = elim (Bool-cases (faults reclaiming)) [
  | inl e ↦ rw e (each, keyed)
  | inr e ↦ rw e (
    update_where-All IsCoherent (is_stale now) reclaim s.reminders (reclaim-IsCoherent now) each,
    update_where-IsKeyed (is_stale now) reclaim s.reminders (λ r. (refl, refl, refl)) keyed,
  )
]

module _ (places : ℕ → Option (Platform × Option Text))
    (owners : Option Text → Platform → Option Text) where
  claim-IsValid :
      (faults : Faults) (now : ℕ) (s : Database)
      → IsValid s.reminders
      → IsValid (claim_due_reminders places owners faults now s).0.reminders
  unfolding claim_due_reminders
  claim-IsValid faults now s (each, keyed) = elim (Bool-cases (faults claiming)) [
    | inl e ↦ rw e (each, keyed)
    | inr e ↦ rw e (
      update_where-All IsCoherent (is_due now) (claim now) s.reminders (claim-IsCoherent now) each,
      update_where-IsKeyed (is_due now) (claim now) s.reminders (λ r. (refl, refl, refl)) keyed,
    )
  ]

  pub remind-IsValid :
      (faults : Faults) (now : ℕ) (s : System)
      → IsValid s.database.reminders
      → IsValid (remind places owners faults now s).database.reminders
  unfolding remind
  remind-IsValid faults now s valid =
      claim-IsValid faults now (reclaim_stale_reminders faults now s.database).0
        (reclaim-IsValid faults now s.database valid)

-- A row after a round of the job that no call failed in.
abbrev pub reclaimed_row : ℕ → Row → Row
reclaimed_row now r = if is_stale now r then reclaim r else r

abbrev pub next_row : ℕ → Row → Row
next_row now r = let q = reclaimed_row now r in if is_due now q then claim now q else q

claimed_row-IsCoherent :
    (now : ℕ) (q : Row) → IsCoherent q → IsCoherent (if is_due now q then claim now q else q)
claimed_row-IsCoherent now q h = elim (Bool-cases (is_due now q)) [
  | inl e ↦ rw e (claim-IsCoherent now q e h)
  | inr e ↦ rw e h
]

pub next_row-IsCoherent : (now : ℕ) (r : Row) → IsCoherent r → IsCoherent (next_row now r)
next_row-IsCoherent now r h =
    let first : IsCoherent (reclaimed_row now r) = (elim (Bool-cases (is_stale now r)) [
      | inl e ↦ rw e (reclaim-IsCoherent now r e h)
      | inr e ↦ rw e h
    ]) in
    claimed_row-IsCoherent now (reclaimed_row now r) first

update_twice :
    (now : ℕ) (rows : List Row)
    → update_where (is_due now) (claim now) (update_where (is_stale now) reclaim rows)
      ≡ map (next_row now) rows
unfolding update_where
update_twice now [] = refl
update_twice now (r ∷ rows) = ap (λ rest. next_row now r ∷ rest) (update_twice now rows)

pub remind_rows :
    (places : ℕ → Option (Platform × Option Text)) (owners : Option Text → Platform → Option Text)
    (faults : Faults) (now : ℕ) (s : System)
    → faults reclaiming ≡ false
    → faults claiming ≡ false
    → (remind places owners faults now s).database.reminders
      ≡ map (next_row now) s.database.reminders
unfolding remind reclaim_stale_reminders claim_due_reminders
remind_rows places owners faults now s e f = rw (e, f) (update_twice now s.database.reminders)
