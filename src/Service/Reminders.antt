-- ===== src/Service/Reminders.antt =====
-- pkg/grpc/server/reminder.go. A request's field is none where the source's HasX is false. The cron
-- parser, the zones, the clock's reading, the generated uuid and the tables of destinations are
-- parameters. A call whose failure is only logged is `best_effort`.
pub mod Owner
pub mod Confirm
pub mod Hidden
use gin_bot.Base.{
  ℕ, suc, ◌≡◌, refl, Bool, true, false, not, ◌&&◌, ◌||◌, [], ◌∷◌, Option, none, some, if◌then◌else◌,
  ltb, list_eq,
}
use gin_bot.Base.Dict.{Dict, get}
use gin_bot.Base.Effect.{
  Effect, ◌>>=◌, ◌>>◌, return, lift, stop_if, get_or_fail, map_error, with_error, best_effort,
}
use gin_bot.Base.Int.{ℤ, pos, negsuc}
use gin_bot.Base.Result.{Result, ok, err}
use gin_bot.Base.Text.{Text, codes}
use gin_bot.Access.{Platform, CallError, invalid_argument, failed_precondition, not_found, internal}
use gin_bot.Access.Clearance.{Context}
use gin_bot.Command.Bind.{parse_int}
use gin_bot.Reminder.Schedule.{
  Schedule, ScheduleError, validate_repeat_interval, next_occurrence_after,
}
use gin_bot.Reminder.Table.{
  Row, Status, delivered, failed, Database, DbError, missing, cap_reached, unavailable, Faults,
  Action, reminder_created, reminder_delivered, NewReminder, ReminderUpdate, owned_by,
  create_reminder, get_reminder, get_reminder_by_ref, advance_reminder_status_if_sent,
  reschedule_reminder_if_sent, soft_delete_reminder_by_user, update_reminder_by_user,
  create_action_record,
}
use gin_bot.Service.{User, caller_user}

abbrev max_active_reminders_per_user : ℕ
max_active_reminders_per_user = 100

-- pb.ReminderDestination of a request
pub record Destination : Type 0 where
  pub platform_enum : Option Platform
  pub instance_fields : Option (Dict Text Text)
  pub destination_fields : Option (Dict Text Text)

abbrev is_set : {A : Type 0} → Option A → Bool
is_set none = false
is_set (some a) = true

abbrev pub or_default : {A : Type 0} → A → Option A → A
or_default a none = a
or_default a (some b) = b

abbrev is_complete : Option Destination → Bool
is_complete none = false
is_complete (some d) =
    is_set d.platform_enum && is_set d.instance_fields && is_set d.destination_fields

abbrev is_blank_value : Option Text → Bool
is_blank_value none = true
is_blank_value (some []) = true
is_blank_value (some (c ∷ s)) = false

abbrev has_no_instance : Option (Dict Text Text) → Bool
has_no_instance none = true
has_no_instance (some meta) = is_blank_value (get meta (codes "instance_uid"))

unfoldable is_dm_destination : Option Destination → Bool
is_dm_destination none = true
is_dm_destination (some d) = has_no_instance d.instance_fields

-- How a handler answers an error of the database.
abbrev pub read_error : DbError → CallError
read_error missing = not_found
read_error _ = internal

abbrev pub write_error : DbError → CallError
write_error _ = internal

abbrev pub create_error : DbError → CallError
create_error cap_reached = failed_precondition
create_error _ = internal

abbrev pub resolved_row : Effect Database CallError Row → Effect Database CallError Text
resolved_row reading = do row ← reading; return row.id

-- A positive number is a ref of the caller's, anything else an id.
abbrev pub resolve_number : Context User → Faults → Text → Option ℤ → Effect Database CallError Text
resolve_number ctx faults raw (some (pos (suc n))) = do
  caller ← lift (caller_user ctx)
  resolved_row (with_error read_error (get_reminder_by_ref faults caller.id (suc n)))
resolve_number ctx faults raw _ = return raw

unfoldable pub resolve_reminder_id : Context User → Faults → Text → Effect Database CallError Text
unfolding parse_int caller_user get_reminder_by_ref
resolve_reminder_id ctx faults raw = resolve_number ctx faults raw (parse_int raw)

pub record CreateReminderReq : Type 0 where
  pub datetime : Option ℕ
  pub timezone : Option Text
  pub destination : Option Destination
  pub repeat_cron : Option Text
  pub message : Option Text
  pub parent_id : Option Text

pub record UpdateReminderReq : Type 0 where
  pub id : Option Text
  pub datetime : Option ℕ
  pub timezone : Option Text
  pub destination : Option Destination
  pub repeat_cron : Option Text
  pub message : Option Text

pub record ConfirmDeliveryReq : Type 0 where
  pub id : Option Text
  pub delivered : Bool

abbrev optional_destination : {D : Type 0} → Result DbError D → Result CallError (Option D)
optional_destination (ok d) = ok (some d)
optional_destination (err missing) = ok none
optional_destination (err _) = err internal

module _ {D : Type 0} (destinations : ℕ → Result DbError D) where
  unfoldable pub get_reminder_handler :
      Context User → Faults → Option Text → Effect Database CallError (Row × Option D)
  unfolding caller_user resolve_reminder_id get_reminder
  get_reminder_handler ctx faults request_id = do
    caller ← lift (caller_user ctx)
    raw ← get_or_fail invalid_argument request_id
    id ← resolve_reminder_id ctx faults raw
    row ← with_error read_error (get_reminder faults id)
    stop_if (not (owned_by caller.id row.user_id)) not_found
    destination ← lift (optional_destination (destinations row.destination_id))
    return (row, destination)

-- What the handler does for its caller.
unfoldable pub delete_reminder_as :
    Context User → Faults → Option Text → User → Effect Database CallError (Unit {0})
unfolding resolve_reminder_id soft_delete_reminder_by_user
delete_reminder_as ctx faults request_id caller = do
  raw ← get_or_fail invalid_argument request_id
  id ← resolve_reminder_id ctx faults raw
  with_error read_error (soft_delete_reminder_by_user faults id caller.id)

unfoldable pub delete_reminder_handler :
    Context User → Faults → Option Text → Effect Database CallError (Unit {0})
unfolding caller_user delete_reminder_as
delete_reminder_handler ctx faults request_id = do
  caller ← lift (caller_user ctx)
  delete_reminder_as ctx faults request_id caller

module _ {Loc : Type 0} (parse : Text → Option (Schedule Loc)) (utc : Loc)
    (load_location : Text → Option Loc)
    (get_or_create_destination : Option Destination → Result DbError ℕ) where
  abbrev bad_schedule : ScheduleError → CallError
  bad_schedule e = invalid_argument

  abbrev check_repeat : Option Text → Bool → Result CallError (Unit {0})
  check_repeat none is_dm = ok tt
  check_repeat (some cron) is_dm =
      map_error bad_schedule (validate_repeat_interval parse utc cron is_dm)

  -- An update may clear the schedule by an empty one.
  abbrev check_new_repeat : Option Text → Bool → Result CallError (Unit {0})
  check_new_repeat (some (c ∷ cron)) is_dm =
      map_error bad_schedule (validate_repeat_interval parse utc (c ∷ cron) is_dm)
  check_new_repeat _ is_dm = ok tt

  -- What the handler does for its caller.
  unfoldable pub create_reminder_as :
      Faults → Text → CreateReminderReq → User → Effect Database CallError (Text × ℕ)
  unfolding validate_repeat_interval is_dm_destination create_reminder create_action_record
  create_reminder_as faults uuid req caller = do
    stop_if (not (is_set req.datetime) || not (is_set req.timezone)) invalid_argument
    stop_if (not (is_complete req.destination)) invalid_argument
    lift (check_repeat req.repeat_cron (is_dm_destination req.destination))
    destination_id ← lift (map_error write_error (get_or_create_destination req.destination))
    created ← with_error create_error (
        create_reminder faults uuid
          (record {
            datetime = or_default 0 req.datetime;
            timezone = or_default [] req.timezone;
            repeat_cron = or_default [] req.repeat_cron;
            message = or_default [] req.message;
            parent_id = or_default [] req.parent_id;
          })
          caller.id destination_id max_active_reminders_per_user)
    best_effort (create_action_record faults reminder_created caller.id)
    return created

  unfoldable pub create_reminder_handler :
      Context User → Faults → Text → CreateReminderReq → Effect Database CallError (Text × ℕ)
  unfolding caller_user create_reminder_as
  create_reminder_handler ctx faults uuid req = do
    caller ← lift (caller_user ctx)
    create_reminder_as faults uuid req caller

  -- What the handler does for its caller.
  unfoldable pub update_reminder_as :
      Context User → Faults → ℕ → UpdateReminderReq → User → Effect Database CallError (Unit {0})
  unfolding resolve_reminder_id validate_repeat_interval is_dm_destination update_reminder_by_user
  update_reminder_as ctx faults now req caller = do
    raw ← get_or_fail invalid_argument req.id
    stop_if (not (is_set req.datetime) || not (is_set req.timezone)) invalid_argument
    stop_if (not (is_complete req.destination)) invalid_argument
    stop_if (not (ltb now (or_default 0 req.datetime))) invalid_argument
    id ← resolve_reminder_id ctx faults raw
    lift (check_new_repeat req.repeat_cron (is_dm_destination req.destination))
    destination_id ← lift (map_error write_error (get_or_create_destination req.destination))
    with_error read_error (
        update_reminder_by_user faults (record {
          id = id;
          user_id = caller.id;
          datetime = or_default 0 req.datetime;
          timezone = or_default [] req.timezone;
          destination_id = destination_id;
          update_message = is_set req.message;
          message = or_default [] req.message;
          update_repeat = is_set req.repeat_cron;
          repeat_cron = or_default [] req.repeat_cron;
        }))

  unfoldable pub update_reminder_handler :
      Context User → Faults → ℕ → UpdateReminderReq → Effect Database CallError (Unit {0})
  unfolding caller_user update_reminder_as
  update_reminder_handler ctx faults now req = do
    caller ← lift (caller_user ctx)
    update_reminder_as ctx faults now req caller

  abbrev or_utc_zone : Option Loc → Loc
  or_utc_zone none = utc
  or_utc_zone (some loc) = loc

  unfoldable pub reminder_location : Text → Loc
  reminder_location [] = utc
  reminder_location (c ∷ zone) = or_utc_zone (load_location (c ∷ zone))

  abbrev pub settle_next :
      Faults → Text → Result ScheduleError (ℕ × Bool) → Effect Database DbError Bool
  settle_next faults id (err e) = advance_reminder_status_if_sent faults id delivered
  settle_next faults id (ok (next, phase_lost)) = reschedule_reminder_if_sent faults id next

  -- The delivered branch: a repeat is rescheduled, or closed out where it has no next occurrence.
  abbrev pub settle : Faults → ℕ → Text → Row → Option Text → Effect Database DbError Bool
  settle faults now id row (some (c ∷ cron)) = settle_next faults id (
      next_occurrence_after parse utc (c ∷ cron) row.datetime now
        (some (reminder_location row.timezone)))
  settle faults now id row _ = advance_reminder_status_if_sent faults id delivered

  abbrev pub note_delivery : Faults → Text → Bool → Effect Database CallError (Unit {0})
  note_delivery faults owner false = return tt
  note_delivery faults owner true =
      best_effort (create_action_record faults reminder_delivered owner)

  abbrev pub confirm_row : Faults → ℕ → Text → Row → Bool → Effect Database CallError (Unit {0})
  confirm_row faults now id row false = do
    with_error write_error (advance_reminder_status_if_sent faults id failed)
    return tt
  confirm_row faults now id row true = do
    advanced ← with_error write_error (settle faults now id row row.repeat_cron)
    note_delivery faults (or_default [] row.user_id) advanced

  -- What the handler does for its caller.
  unfoldable pub confirm_delivery_as :
      Faults → ℕ → ConfirmDeliveryReq → User → Effect Database CallError (Unit {0})
  unfolding get_reminder reminder_location next_occurrence_after advance_reminder_status_if_sent
      reschedule_reminder_if_sent create_action_record
  confirm_delivery_as faults now req caller = do
    id ← get_or_fail invalid_argument req.id
    row ← with_error read_error (get_reminder faults id)
    stop_if (not (owned_by caller.id row.user_id)) not_found
    confirm_row faults now id row req.delivered

  unfoldable pub confirm_delivery_handler :
      Context User → Faults → ℕ → ConfirmDeliveryReq → Effect Database CallError (Unit {0})
  unfolding caller_user confirm_delivery_as
  confirm_delivery_handler ctx faults now req = do
    caller ← lift (caller_user ctx)
    confirm_delivery_as faults now req caller
