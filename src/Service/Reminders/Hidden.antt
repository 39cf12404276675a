-- ===== src/Service/Reminders/Hidden.antt =====
-- pkg/grpc/server/reminder.go: what a caller learns of the reminders of others, and the cap on a
-- caller's own.
use gin_bot.Base.{
  ℕ, ◌+◌, ◌≤◌, ◌<◌, ◌⊎◌, ◌≡◌, refl, true, false, not, ◌&&◌, List, [], ◌∷◌, none, some, inl, inr,
  arith, Bool-cases, All, Option-cases, list_beq_iff, leb, ◌++◌,
}
use gin_bot.Base.Effect.{◌>>=◌, ◌>>◌}
use gin_bot.Base.Result.{Result, ok, err}
use gin_bot.Base.Table.{any_where, find_where, select_where}
use gin_bot.Base.Text.{Text}
use gin_bot.Access.{not_found}
use gin_bot.Access.Clearance.{Context}
use gin_bot.Command.Bind.{parse_int}
use gin_bot.Reminder.Table.{
  Row, Database, DbError, missing, cap_reached, unavailable, Faults, getting, deleting, creating,
  has_id, owned_by, is_own, get_reminder, soft_delete_reminder_by_user, is_active, count_active,
  create_reminder, NewReminder, new_row, max_ref,
}
use gin_bot.Service.{User, caller_user}
use gin_bot.Service.Reminders.{
  get_reminder_handler, delete_reminder_handler, delete_reminder_as, resolve_reminder_id,
}

-- No live row with the id is the caller's: it is missing, deleted or another's.
abbrev IsHidden : Text → Text → Row → Type 0
IsHidden id user r = is_own id user r ≡ false

any_hidden :
    (id user : Text) (rows : List Row)
    → All (IsHidden id user) rows
    → any_where (is_own id user) rows ≡ false
unfolding any_where
any_hidden id user [] h = refl
any_hidden id user (r ∷ rows) (here, h) = let rest = any_hidden id user rows h in ground arith

delete_hidden :
    (faults : Faults) (id user : Text) (s : Database)
    → faults deleting ≡ false
    → All (IsHidden id user) s.reminders
    → (soft_delete_reminder_by_user faults id user s).1 ≡ err missing
unfolding soft_delete_reminder_by_user
delete_hidden faults id user s fine h =
    let none_own = any_hidden id user s.reminders h in ground arith

find_hidden :
    (id user : Text) (rows : List Row) (r : Row)
    → All (IsHidden id user) rows
    → find_where (λ q. has_id id q && not q.deleted) rows ≡ some r
    → owned_by user r.user_id ≡ false
unfolding find_where
find_hidden id user [] r h e = absurd (cc)
find_hidden id user (q ∷ rows) r (here, h) e = elim (Bool-cases (has_id id q && not q.deleted)) [
  | inl hit ↦ let same : q ≡ r = ground arith in rw (← same) (ground arith)
  | inr miss ↦ find_hidden id user rows r h (rw miss at e)
]

get_not_found :
    {D : Type 0} (destinations : ℕ → Result DbError D) (ctx : Context User) (u : User)
    (faults : Faults) (id : Text) (s : Database)
    → ctx.caller ≡ some u
    → parse_int id ≡ none
    → faults getting ≡ false
    → All (IsHidden id u.id) s.reminders
    → get_reminder_handler destinations ctx faults (some id) s ≡ (s, err not_found)
unfolding get_reminder_handler caller_user resolve_reminder_id get_reminder ◌>>=◌ ◌>>◌
get_not_found destinations ctx u faults id s e name get h =
    elim (Option-cases (find_where (λ r. has_id id r && not r.deleted) s.reminders)) [
      | inl missed ↦ rw (e, name, get, missed) refl
      | inr (r, found) ↦ rw (e, name, get, found, find_hidden id u.id s.reminders r h found) refl
    ]

delete_not_found :
    (ctx : Context User) (u : User) (faults : Faults) (id : Text) (s : Database)
    → ctx.caller ≡ some u
    → parse_int id ≡ none
    → faults deleting ≡ false
    → All (IsHidden id u.id) s.reminders
    → (delete_reminder_handler ctx faults (some id) s).1 ≡ err not_found
unfolding delete_reminder_handler delete_reminder_as caller_user resolve_reminder_id ◌>>=◌ ◌>>◌
delete_not_found ctx u faults id s e name del h =
    rw (e, name, delete_hidden faults id u.id s del h) refl

-- A read and a deletion of an id that the caller has no live reminder under answer NotFound alike,
-- whether the reminder is missing, deleted or another's.
pub hidden_not_found :
    {D : Type 0} (destinations : ℕ → Result DbError D) (ctx : Context User) (u : User)
    (faults : Faults) (id : Text) (s : Database)
    → ctx.caller ≡ some u
    → parse_int id ≡ none
    → faults getting ≡ false
    → faults deleting ≡ false
    → All (IsHidden id u.id) s.reminders
    → (get_reminder_handler destinations ctx faults (some id) s ≡ (s, err not_found))
      × ((delete_reminder_handler ctx faults (some id) s).1 ≡ err not_found)
hidden_not_found destinations ctx u faults id s e name get del h = (
  get_not_found destinations ctx u faults id s e name get h,
  delete_not_found ctx u faults id s e name del h,
)

-- The user's pending reminders, one more after an insert.
count_append :
    (user : Text) (rows : List Row) (r : Row)
    → is_active user r ≡ true
    → count_active user (rows ++ (r ∷ [])) ≡ count_active user rows + 1
unfolding count_active select_where
count_append user [] r active = rw active (omega arith)
count_append user (q ∷ rows) r active = elim (Bool-cases (is_active user q)) [
  | inl e ↦ rw e (let rest = count_append user rows r active in omega (arith, rest))
  | inr e ↦ rw e (count_append user rows r active)
]

-- An insert succeeds below the cap only, answers with the id and the owner's next number, and then
-- counts as one more pending reminder. A refused insert leaves the table as it is, and is refused
-- because the call failed or the generated id is taken, with `unavailable`, or because the owner
-- has as many pending reminders as the cap allows, with `cap_reached`.
pub create_reminder-cap :
    (faults : Faults) (id : Text) (req : NewReminder) (user : Text) (destination_id max_active : ℕ)
    (s : Database)
    → (((create_reminder faults id req user destination_id max_active s).1
          ≡ ok (id, max_ref user s.reminders + 1))
        × (count_active user s.reminders < max_active)
        × (count_active user
              (create_reminder faults id req user destination_id max_active s).0.reminders
            ≡ count_active user s.reminders + 1))
      ⊎ ((e : DbError) × ((create_reminder faults id req user destination_id max_active s).1
            ≡ err e)
          × ((create_reminder faults id req user destination_id max_active s).0 ≡ s)
          × (((faults creating ≡ true) × (e ≡ unavailable))
              ⊎ (((max_active ≤ count_active user s.reminders) × (e ≡ cap_reached))
                  ⊎ ((any_where (has_id id) s.reminders ≡ true) × (e ≡ unavailable)))))
unfolding create_reminder
create_reminder-cap faults id req user destination_id max_active s =
    elim (Bool-cases (faults creating)) [
      | inl e ↦ rw e (inr (unavailable, refl, refl, inl (refl, refl)))
      | inr e ↦ elim (Bool-cases (leb max_active (count_active user s.reminders))) [
        | inl full ↦
            let many : max_active ≤ count_active user s.reminders = ground arith in
            rw (e, full) (inr (cap_reached, refl, refl, inr (inl (many, refl))))
        | inr room ↦ elim (Bool-cases (any_where (has_id id) s.reminders)) [
          | inl taken ↦ rw (e, room, taken) (inr (unavailable, refl, refl, inr (inr (refl, refl))))
          | inr fresh ↦
              let few : count_active user s.reminders < max_active = ground arith in
              let self = (list_beq_iff user user).1 refl in
              rw (e, room, fresh)
                (inl (
                  refl,
                  few,
                  count_append user s.reminders
                      (new_row id (max_ref user s.reminders + 1) req user destination_id)
                      (rw self refl),
                ))
        ]
      ]
    ]
