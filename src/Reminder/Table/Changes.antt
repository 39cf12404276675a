-- ===== src/Reminder/Table/Changes.antt =====
-- pkg/db/reminder.go: what each statement may do to the reminder table.
use gin_bot.Base.{
  ℕ, ◌+◌, ◌≤◌, ◌==◌, All-append, ◌≡◌, refl, Bool, true, not, ◌&&◌, List, [], ◌∷◌, ◌++◌, Option,
  none, some, inl, inr, All, arith, list_beq_iff, Bool-cases, leb,
}
use gin_bot.Base.Effect.{IsPreorder, Keeps}
use gin_bot.Base.Result.{ok}
use gin_bot.Base.Table.{update_where, any_where, update_where-All}
use gin_bot.Base.Text.{Text}
use gin_bot.Reminder.Table.{
  Row, Status, status_number, unspecified, pending, sent, delivered, failed, deleting, updating,
  creating, advancing, rescheduling, recording, Database, Faults, Action, NewReminder,
  ReminderUpdate, owned_by, has_id, is_sent, is_own, edit, rearm, new_row, max_ref, count_active,
  create_reminder, get_reminder, get_reminder_by_ref, advance_reminder_status_if_sent,
  reschedule_reminder_if_sent, soft_delete_reminder_by_user, update_reminder_by_user,
  create_action_record,
}
use gin_bot.Reminder.Table.Rows.{
  Fits, IsCoherent, IsKeyed, Frame, Frame-refl, Frame-trans, update_where-Frame, append-Frame,
}
use gin_bot.Reminder.Table.Keys.{
  KeepsKeys, HasOwner, update_where-IsKeyed, append-IsKeyed, find_where-HasOwner,
}

abbrev pub IsValid : List Row → Type 0
IsValid rows = All IsCoherent rows × IsKeyed rows

-- A call of the user's: from a valid table it reaches a valid one and keeps the others' rows.
abbrev pub Serves : Text → Database → Database → Type 0
Serves user s t = IsValid s.reminders → Frame user s.reminders t.reminders × IsValid t.reminders

pub Serves-IsPreorder : (user : Text) → IsPreorder (Serves user)
Serves-IsPreorder user = record {
  stays = λ s valid. (Frame-refl user s.reminders, valid);
  joins = λ {s} {t} {u} first second valid.
      let (frame, middle) = first valid in
      let (next, last) = second middle in
      (Frame-trans user s.reminders t.reminders u.reminders frame next, last);
}

-- An update of the user's rows that keeps the keys and the columns coherent.
update-Serves :
    (user : Text) (test : Row → Bool) (change : Row → Row) (rows : List Row)
    → KeepsKeys change
    → ((r : Row) → test r ≡ true → IsCoherent r → IsCoherent (change r))
    → All (λ r. test r ≡ true → owned_by user r.user_id ≡ true) rows
    → IsValid rows
    → Frame user rows (update_where test change rows) × IsValid (update_where test change rows)
update-Serves user test change rows keys coherent own (each, keyed) = (
  update_where-Frame user test change rows keys own,
  (
    update_where-All IsCoherent test change rows coherent each,
    update_where-IsKeyed test change rows keys keyed,
  ),
)

own_rows :
    (id user : Text) (rows : List Row)
    → All (λ r. is_own id user r ≡ true → owned_by user r.user_id ≡ true) rows
own_rows id user [] = tt
own_rows id user (r ∷ rows) = (λ h. ground arith, own_rows id user rows)

pub delete-Serves :
    (faults : Faults) (id user : Text)
    → Keeps (Serves user) (soft_delete_reminder_by_user faults id user)
unfolding soft_delete_reminder_by_user
delete-Serves faults id user s valid = elim (Bool-cases (faults deleting)) [
  | inl e ↦ rw e (Frame-refl user s.reminders, valid)
  | inr e ↦ rw e (
      update-Serves user (is_own id user) (λ r. record r { deleted = true }) s.reminders
        (λ r. (refl, refl, refl)) (λ r test h. h) (own_rows id user s.reminders) valid)
]

pub edit-Serves :
    (faults : Faults) (u : ReminderUpdate)
    → Keeps (Serves u.user_id) (update_reminder_by_user faults u)
unfolding update_reminder_by_user
edit-Serves faults u s valid = elim (Bool-cases (faults updating)) [
  | inl e ↦ rw e (Frame-refl u.user_id s.reminders, valid)
  | inr e ↦ rw e (
      update-Serves u.user_id (is_own u.id u.user_id) (edit u) s.reminders (λ r. (refl, refl, refl))
        (λ r test h. omega arith) (own_rows u.id u.user_id s.reminders) valid)
]

-- A row that is sent may be closed.
abbrev Closes : Status → Type 0
Closes status = (n : ℕ) → (1 ≤ n) × (n ≤ 5) → Fits status none n

pub sent-Fits :
    (status : Status) (claimed : Option ℕ) (n : ℕ)
    → (status_number status == 2) ≡ true
    → Fits status claimed n
    → (1 ≤ n) × (n ≤ 5)
sent-Fits sent none n e h = absurd h
sent-Fits sent (some t) n e h = h
sent-Fits unspecified claimed n e h = absurd (cc)
sent-Fits pending claimed n e h = absurd (cc)
sent-Fits delivered claimed n e h = absurd (cc)
sent-Fits failed claimed n e h = absurd (cc)

sent_rows :
    (id user : Text) (owner : Option Text) (rows : List Row)
    → owned_by user owner ≡ true
    → All (HasOwner id owner) rows
    → All (λ r. is_sent id r ≡ true → owned_by user r.user_id ≡ true) rows
sent_rows id user owner [] own h = tt
sent_rows id user owner (r ∷ rows) own (here, h) = (
  λ test. let same : r.user_id ≡ owner = here (ground arith) in rw same own,
  sent_rows id user owner rows own h,
)

module _ (faults : Faults) (id user : Text) (owner : Option Text) (s : Database)
    (own : owned_by user owner ≡ true) (same_id : All (HasOwner id owner) s.reminders) where
  pub advance-Serves :
      (status : Status)
      → Closes status
      → Serves user s (advance_reminder_status_if_sent faults id status s).0
  unfolding advance_reminder_status_if_sent
  advance-Serves status close valid = elim (Bool-cases (faults advancing)) [
    | inl e ↦ rw e (Frame-refl user s.reminders, valid)
    | inr e ↦ rw e (
        update-Serves user (is_sent id) (λ r. record r { status = status; claimed_at = none })
          s.reminders (λ r. (refl, refl, refl))
          (λ r test h.
            close r.delivery_attempts
              (sent-Fits r.status r.claimed_at r.delivery_attempts (ground arith) h))
          (sent_rows id user owner s.reminders own same_id) valid)
  ]

  pub reschedule-Serves :
      (next : ℕ) → Serves user s (reschedule_reminder_if_sent faults id next s).0
  unfolding reschedule_reminder_if_sent
  reschedule-Serves next valid = elim (Bool-cases (faults rescheduling)) [
    | inl e ↦ rw e (Frame-refl user s.reminders, valid)
    | inr e ↦ rw e (
        update-Serves user (is_sent id) (rearm next) s.reminders (λ r. (refl, refl, refl))
          (λ r test h. omega arith) (sent_rows id user owner s.reminders own same_id) valid)
  ]

All-append-one :
    (rows : List Row) (r : Row)
    → All IsCoherent rows
    → IsCoherent r
    → All IsCoherent (rows ++ (r ∷ []))
All-append-one rows r h one = All-append IsCoherent rows (r ∷ []) h (one, tt)

pub create-Serves :
    (faults : Faults) (id : Text) (req : NewReminder) (user : Text) (destination_id max_active : ℕ)
    → Keeps (Serves user) (create_reminder faults id req user destination_id max_active)
unfolding create_reminder
create-Serves faults id req user destination_id max_active s (each, keyed) =
    elim (Bool-cases (faults creating)) [
      | inl e ↦ rw e (Frame-refl user s.reminders, (each, keyed))
      | inr e ↦ elim (Bool-cases (leb max_active (count_active user s.reminders))) [
        | inl full ↦ rw (e, full) (Frame-refl user s.reminders, (each, keyed))
        | inr room ↦ elim (Bool-cases (any_where (has_id id) s.reminders)) [
          | inl taken ↦ rw (e, room, taken) (Frame-refl user s.reminders, (each, keyed))
          | inr fresh ↦
              let row : Row = new_row id (max_ref user s.reminders + 1) req user destination_id in
              let own : owned_by user (some user) ≡ true = (list_beq_iff user user).1 refl in
              rw (e, room, fresh)
                (
                  append-Frame user s.reminders row own,
                  (
                    All-append-one s.reminders row each (omega arith),
                    append-IsKeyed row user s.reminders refl refl fresh keyed,
                  ),
                )
        ]
      ]
    ]

pub record-Serves :
    (faults : Faults) (action : Action) (actor user : Text)
    → Keeps (Serves user) (create_action_record faults action actor)
unfolding create_action_record
record-Serves faults action actor user s valid = elim (Bool-cases (faults recording)) [
  | inl e ↦ rw e (Frame-refl user s.reminders, valid)
  | inr e ↦ rw e (Frame-refl user s.reminders, valid)
]

pub get-stays : (faults : Faults) (id : Text) (s : Database) → (get_reminder faults id s).0 ≡ s
unfolding get_reminder
get-stays faults id s = ground arith

pub get_by_ref-stays :
    (faults : Faults) (user : Text) (ref : ℕ) (s : Database)
    → (get_reminder_by_ref faults user ref s).0 ≡ s
unfolding get_reminder_by_ref
get_by_ref-stays faults user ref s = ground arith

pub get-HasOwner :
    (faults : Faults) (id : Text) (s : Database) (row : Row)
    → IsKeyed s.reminders
    → (get_reminder faults id s).1 ≡ ok row
    → All (HasOwner id row.user_id) s.reminders
unfolding get_reminder
get-HasOwner faults id s row keyed e =
    find_where-HasOwner id (λ r. has_id id r && not r.deleted) s.reminders row (λ q h. ground arith)
      keyed (ground arith)
