-- ===== src/Service/History.antt =====
-- The reminder handlers and the reminder job together: a history is a list of calls, each with the
-- database faults it meets, in the order in which they reach the database.
use gin_bot.Base.{ℕ, ◌≡◌, refl, inl, inr, Option-cases, List, [], ◌∷◌, Option, none, some}
use gin_bot.Base.Effect.{◌>>=◌}
use gin_bot.Base.Result.{Result}
use gin_bot.Base.Text.{Text}
use gin_bot.Access.{Platform}
use gin_bot.Access.Clearance.{Context}
use gin_bot.Reminder.Schedule.{Schedule}
use gin_bot.Reminder.Table.{Database, DbError, Faults}
use gin_bot.Reminder.Table.Rows.{Frame}
use gin_bot.Reminder.Table.Changes.{IsValid, Serves}
use gin_bot.Service.{User, caller_user}
use gin_bot.Service.Remind.{System, remind}
use gin_bot.Service.Remind.Rows.{remind-IsValid}
use gin_bot.Service.Reminders.{
  Destination, CreateReminderReq, UpdateReminderReq, ConfirmDeliveryReq, delete_reminder_handler,
  create_reminder_handler, update_reminder_handler, confirm_delivery_handler, create_reminder_as,
  update_reminder_as, delete_reminder_as, confirm_delivery_as,
}
use gin_bot.Service.Reminders.Owner.{
  caller-Serves, delete_as-Serves, create_as-Serves, update_as-Serves, confirm_as-Serves,
}

-- What the service uses of other packages: the cron parser, the zones, and the tables joined.
pub record Outside (Loc : Type 0) : Type 0 where
  pub parse : Text → Option (Schedule Loc)
  pub utc : Loc
  pub load_location : Text → Option Loc
  pub get_or_create_destination : Option Destination → Result DbError ℕ
  pub places : ℕ → Option (Platform × Option Text)
  pub owners : Option Text → Platform → Option Text

-- A request, with the clock's reading or the generated id that its handler uses.
pub data Request : Type 0 where
  creates : Text → CreateReminderReq → Request
  deletes : Option Text → Request
  updates : ℕ → UpdateReminderReq → Request
  confirms : ℕ → ConfirmDeliveryReq → Request

pub data Event : Type 0 where
  asked : Context User → Request → Event
  ticked : ℕ → Event

module _ {Loc : Type 0} (out : Outside Loc) where
  unfoldable pub served : Context User → Faults → Request → Database → Database
  unfolding create_reminder_handler delete_reminder_handler update_reminder_handler
      confirm_delivery_handler
  served ctx faults (creates uuid req) s =
      (create_reminder_handler out.parse out.utc out.load_location out.get_or_create_destination ctx
        faults uuid req s).0
  served ctx faults (deletes id) s = (delete_reminder_handler ctx faults id s).0
  served ctx faults (updates now req) s =
      (update_reminder_handler out.parse out.utc out.load_location out.get_or_create_destination ctx
        faults now req s).0
  served ctx faults (confirms now req) s =
      (confirm_delivery_handler out.parse out.utc out.load_location out.get_or_create_destination
        ctx faults now req s).0

  unfoldable happens : Faults → Event → System → System
  unfolding served remind
  happens faults (asked ctx request) s = record s {
    database = served ctx faults request s.database;
  }
  happens faults (ticked now) s = remind out.places out.owners faults now s

  unfoldable pub history : List (Faults × Event) → System → System
  unfolding happens
  history [] s = s
  history ((faults, event) ∷ later) s = history later (happens faults event s)

  served-Serves :
      (ctx : Context User) (u : User) (faults : Faults) (request : Request) (s : Database)
      → ctx.caller ≡ some u
      → Serves u.id s (served ctx faults request s)
  unfolding served create_reminder_handler delete_reminder_handler update_reminder_handler
      confirm_delivery_handler
  served-Serves ctx u faults (creates uuid req) s e =
      caller-Serves ctx u
        (create_reminder_as out.parse out.utc out.load_location out.get_or_create_destination faults
          uuid req)
        s e
        (create_as-Serves out.parse out.utc out.load_location out.get_or_create_destination faults u
          uuid req)
  served-Serves ctx u faults (deletes id) s e =
      caller-Serves ctx u (delete_reminder_as ctx faults id) s e (delete_as-Serves ctx faults id u)
  served-Serves ctx u faults (updates now req) s e =
      caller-Serves ctx u
        (update_reminder_as out.parse out.utc out.load_location out.get_or_create_destination ctx
          faults now req)
        s e
        (update_as-Serves out.parse out.utc out.load_location out.get_or_create_destination faults u
          ctx now req)
  served-Serves ctx u faults (confirms now req) s e =
      caller-Serves ctx u
        (confirm_delivery_as out.parse out.utc out.load_location out.get_or_create_destination
          faults now req)
        s e
        (confirm_as-Serves out.parse out.utc out.load_location out.get_or_create_destination faults
          u now req)

  -- From a valid table, a request of a caller leaves every row of another owner as it is and in its
  -- place, changes no row's id, ref or owner, removes none, and adds only rows of the caller's.
  pub served-Frame :
      (ctx : Context User) (u : User) (faults : Faults) (request : Request) (s : Database)
      → ctx.caller ≡ some u
      → IsValid s.reminders
      → Frame u.id s.reminders (served ctx faults request s).reminders
  served-Frame ctx u faults request s e valid = (served-Serves ctx u faults request s e valid).0

  anonymous :
      (ctx : Context User) (faults : Faults) (request : Request) (s : Database)
      → ctx.caller ≡ none
      → served ctx faults request s ≡ s
  unfolding served create_reminder_handler delete_reminder_handler update_reminder_handler
      confirm_delivery_handler ◌>>=◌ caller_user
  anonymous ctx faults (creates uuid req) s e = rw e refl
  anonymous ctx faults (deletes id) s e = rw e refl
  anonymous ctx faults (updates now req) s e = rw e refl
  anonymous ctx faults (confirms now req) s e = rw e refl

  happens-IsValid :
      (faults : Faults) (event : Event) (s : System)
      → IsValid s.database.reminders
      → IsValid (happens faults event s).database.reminders
  unfolding happens
  happens-IsValid faults (asked ctx request) s valid = elim (Option-cases ctx.caller) [
    | inl nobody ↦ rw (anonymous ctx faults request s.database nobody) valid
    | inr (u, e) ↦ (served-Serves ctx u faults request s.database e valid).1
  ]
  happens-IsValid faults (ticked now) s valid =
      remind-IsValid out.places out.owners faults now s valid

  -- Every history of requests and rounds of the job, with any faults, keeps the table valid: a
  -- pending reminder has no claim and under five attempts, a sent one a claim and one to five, a
  -- delivered or failed one no claim and one to five, and no two rows share an id, nor two of one
  -- owner a ref.
  pub history-IsValid :
      (events : List (Faults × Event)) (s : System)
      → IsValid s.database.reminders
      → IsValid (history events s).database.reminders
  unfolding history
  history-IsValid [] s valid = valid
  history-IsValid ((faults, event) ∷ later) s valid =
      history-IsValid later (happens faults event s) (happens-IsValid faults event s valid)
