-- ===== src/Service/Reminders/Owner.antt =====
-- pkg/grpc/server/reminder.go: the handlers and the rows of their caller.
use gin_bot.Base.{
  ℕ, suc, ◌≡◌, refl, Bool, true, false, not, Option, none, some, [], ◌∷◌, All, arith, zero,
}
use gin_bot.Access.{CallError, not_found}
use gin_bot.Base.Effect.{
  Preserves, stop_if-Keeps, >>-Keeps, >>=-Preserves, >>-Preserves, read-Preserves,
  get_or_fail-Preserves, lift, stop_if, ◌>>◌, Effect, ◌>>=◌, return, IsPreorder, >>=-Keeps,
  with_error,
}
use gin_bot.Base.Int.{ℤ, pos, negsuc}
use gin_bot.Base.Result.{Result, ok, err}
use gin_bot.Base.Text.{Text}
use gin_bot.Access.Clearance.{Context}
use gin_bot.Command.Bind.{parse_int}
use gin_bot.Reminder.Schedule.{Schedule, ScheduleError, next_occurrence_after}
use gin_bot.Reminder.Table.{
  Row, delivered, failed, Database, DbError, Faults, owned_by, get_reminder, get_reminder_by_ref,
  advance_reminder_status_if_sent,
}
use gin_bot.Reminder.Table.Rows.{IsKeyed}
use gin_bot.Reminder.Table.Keys.{HasOwner}
use gin_bot.Reminder.Table.Changes.{
  Serves, Serves-IsPreorder, delete-Serves, edit-Serves, advance-Serves, reschedule-Serves,
  create-Serves, record-Serves, get-stays, get_by_ref-stays, get-HasOwner,
}
use gin_bot.Service.{User, caller_user}
use gin_bot.Service.Reminders.{
  Destination, CreateReminderReq, UpdateReminderReq, ConfirmDeliveryReq, resolve_reminder_id,
  resolve_number, resolved_row, write_error, or_default, delete_reminder_as, create_reminder_as,
  update_reminder_as, confirm_delivery_as, settle, settle_next, confirm_row, note_delivery,
  reminder_location, read_error,
}

abbrev Stays : Database → Database → Type 0
Stays s t = t ≡ s

Stays-IsPreorder : IsPreorder Stays
Stays-IsPreorder = record { stays = λ s. refl; joins = λ first second. cc }

by_ref-Stays :
    (faults : Faults) (user : Text) (ref : ℕ)
    → Preserves Stays (resolved_row (with_error read_error (get_reminder_by_ref faults user ref)))
by_ref-Stays faults user ref =
    >>=-Preserves _ (λ row. return row.id) Stays-IsPreorder
      (record { keeps = get_by_ref-stays faults user ref }) λ row. record { keeps = λ s. refl }

resolve_number-Stays :
    (ctx : Context User) (faults : Faults) (raw : Text) (n : Option ℤ)
    → Preserves Stays (resolve_number ctx faults raw n)
resolve_number-Stays ctx faults raw none = record { keeps = λ s. refl }
resolve_number-Stays ctx faults raw (some (negsuc n)) = record { keeps = λ s. refl }
resolve_number-Stays ctx faults raw (some (pos zero)) = record { keeps = λ s. refl }
resolve_number-Stays ctx faults raw (some (pos (suc n))) =
    >>=-Preserves _ _ Stays-IsPreorder (record { keeps = λ s. refl })
      λ caller. by_ref-Stays faults caller.id (suc n)

resolve-Stays :
    (ctx : Context User) (faults : Faults) (raw : Text) (s : Database)
    → (resolve_reminder_id ctx faults raw s).0 ≡ s
unfolding resolve_reminder_id
resolve-Stays ctx faults raw s = (resolve_number-Stays ctx faults raw (parse_int raw)).keeps s

-- A handler that acts for the caller of its context.
pub caller-Serves :
    {A : Type 0} (ctx : Context User) (u : User) (act : User → Effect Database CallError A)
    (s : Database)
    → ctx.caller ≡ some u
    → Preserves (Serves u.id) (act u)
    → Serves u.id s ((lift (caller_user ctx) >>= act) s).0
unfolding caller_user ◌>>=◌
caller-Serves ctx u act s e act_Serves = rw e (act_Serves.keeps s)

pub delete_as-Serves :
    (ctx : Context User) (faults : Faults) (id : Option Text) (u : User)
    → Preserves (Serves u.id) (delete_reminder_as ctx faults id u)
unfolding delete_reminder_as
delete_as-Serves ctx faults id u =
    let order = Serves-IsPreorder u.id in
    >>=-Preserves _ _ order (get_or_fail-Preserves _ _ order) λ raw.
      >>=-Preserves _ _ order (read-Preserves _ order (resolve-Stays ctx faults raw))
        λ key. record { keeps = delete-Serves faults key u.id }

module _ {Loc : Type 0} (parse : Text → Option (Schedule Loc)) (utc : Loc)
    (load_location : Text → Option Loc)
    (get_or_create_destination : Option Destination → Result DbError ℕ) (faults : Faults)
    (u : User) where
  pub create_as-Serves :
      (uuid : Text) (req : CreateReminderReq)
      → Preserves
          (Serves u.id)
          (create_reminder_as parse utc load_location get_or_create_destination faults uuid req u)
  unfolding create_reminder_as
  create_as-Serves uuid req =
      let order = Serves-IsPreorder u.id in
      >>-Preserves _ _ order (record { keeps = order.stays })
        (>>-Preserves _ _ order (record { keeps = order.stays })
          (>>-Preserves _ _ order (record { keeps = order.stays })
            (>>=-Preserves _ _ order (record { keeps = order.stays })
              λ destination.
                >>=-Preserves _ _ order
                  (record { keeps = create-Serves faults uuid _ u.id destination _ })
                  λ created.
                    >>-Preserves _ _ order (record { keeps = record-Serves faults _ u.id u.id })
                      (record { keeps = order.stays }))))

  pub update_as-Serves :
      (ctx : Context User) (now : ℕ) (req : UpdateReminderReq)
      → Preserves (Serves u.id) (
          update_reminder_as parse utc load_location get_or_create_destination ctx faults now req u)
  unfolding update_reminder_as
  update_as-Serves ctx now req =
      let order = Serves-IsPreorder u.id in
      >>=-Preserves _ _ order (get_or_fail-Preserves _ _ order) λ raw.
        >>-Preserves _ _ order (record { keeps = order.stays })
          (>>-Preserves _ _ order (record { keeps = order.stays })
            (>>-Preserves _ _ order (record { keeps = order.stays })
              (>>=-Preserves _ _ order (read-Preserves _ order (resolve-Stays ctx faults raw)) λ id.
                >>-Preserves _ _ order (record { keeps = order.stays })
                  (>>=-Preserves _ _ order (record { keeps = order.stays })
                    λ destination. record { keeps = edit-Serves faults _ }))))

  module _ (now : ℕ) (id : Text) (row : Row) (s : Database) (own : owned_by u.id row.user_id ≡ true)
      (same_id : All (HasOwner id row.user_id) s.reminders) where
    settle_next-Serves :
        (next : Result ScheduleError (ℕ × Bool))
        → Serves u.id s
            (settle_next parse utc load_location get_or_create_destination faults id next s).0
    settle_next-Serves (err e) =
        advance-Serves faults id u.id row.user_id s own same_id delivered (λ n h. h)
    settle_next-Serves (ok (next, lost)) =
        reschedule-Serves faults id u.id row.user_id s own same_id next

    settle-Serves :
        (cron : Option Text)
        → Serves u.id s
            (settle parse utc load_location get_or_create_destination faults now id row cron s).0
    settle-Serves none =
        advance-Serves faults id u.id row.user_id s own same_id delivered (λ n h. h)
    settle-Serves (some []) =
        advance-Serves faults id u.id row.user_id s own same_id delivered (λ n h. h)
    settle-Serves (some (c ∷ cron)) = settle_next-Serves (
        next_occurrence_after parse utc (c ∷ cron) row.datetime now
          (some (reminder_location parse utc load_location get_or_create_destination row.timezone)))

    note_delivery-Serves :
        (owner : Text) (advanced : Bool)
        → Preserves
            (Serves u.id)
            (note_delivery parse utc load_location get_or_create_destination faults owner advanced)
    note_delivery-Serves owner false = record { keeps = (Serves-IsPreorder u.id).stays }
    note_delivery-Serves owner true = record { keeps = record-Serves faults _ owner u.id }

    confirm_row-Serves :
        (is_delivered : Bool)
        → Serves u.id s
            (confirm_row parse utc load_location get_or_create_destination faults now id row
              is_delivered s).0
    confirm_row-Serves false =
        >>-Keeps _ _ s (Serves-IsPreorder u.id)
          (advance-Serves faults id u.id row.user_id s own same_id failed (λ n h. h))
          ((Serves-IsPreorder u.id).stays (advance_reminder_status_if_sent faults id failed s).0)
    confirm_row-Serves true =
        >>=-Keeps {R = Serves u.id}
          (with_error write_error (
            settle parse utc load_location get_or_create_destination faults now id row
              row.repeat_cron))
          _ s (Serves-IsPreorder u.id) (settle-Serves row.repeat_cron)
          λ advanced e. (note_delivery-Serves (or_default [] row.user_id) advanced).keeps _

  confirm_found :
      (now : ℕ) (is_delivered : Bool) (id : Text) (row : Row) (s : Database)
      → IsKeyed s.reminders
      → (get_reminder faults id s).1 ≡ ok row
      → Serves u.id s
          ((stop_if (not (owned_by u.id row.user_id)) not_found
              >> confirm_row parse utc load_location get_or_create_destination faults now id row
                  is_delivered)
            s).0
  confirm_found now is_delivered id row s keyed found =
      stop_if-Keeps {R = Serves u.id} _ _ _ s (Serves-IsPreorder u.id) λ mine.
        confirm_row-Serves now id row s (ground arith) (get-HasOwner faults id s row keyed found)
          is_delivered

  pub confirm_as-Serves :
      (now : ℕ) (req : ConfirmDeliveryReq)
      → Preserves
          (Serves u.id)
          (confirm_delivery_as parse utc load_location get_or_create_destination faults now req u)
  unfolding confirm_delivery_as
  confirm_as-Serves now req =
      let order = Serves-IsPreorder u.id in
      >>=-Preserves _ _ order (get_or_fail-Preserves _ _ order) λ id. record {
        keeps = λ s valid.
            >>=-Keeps {R = Serves u.id} (with_error read_error (get_reminder faults id)) _ s order
              (rw (get-stays faults id s) (order.stays s))
              (λ row e.
                rw (get-stays faults id s)
                  (confirm_found now req.delivered id row s valid.1 (ground arith)))
              valid;
      }
