-- ===== src/Examples/Services.antt =====
-- The reminder service at concrete tables, requests and rounds.
use gin_bot.Base.{
  ℕ, ◌+◌, ◌≡◌, refl, Bool, true, false, List, [], ◌∷◌, Option, none, some, arith, ◌<◌, ◌≤◌, ◌⊎◌,
}
use gin_bot.Base.Int.{pos}
use gin_bot.Base.Result.{Result, ok, err}
use gin_bot.Base.Text.{Text, codes}
use gin_bot.Base.Table.{any_where}
use gin_bot.Base.Effect.{◌>>=◌, ◌>>◌}
use gin_bot.Access.{discord, not_found}
use gin_bot.Access.Clearance.{Context}
use gin_bot.Command.Bind.{parse_int}
use gin_bot.Reminder.Schedule.{Schedule}
use gin_bot.Reminder.Table.{
  Row, NewReminder, create_reminder, count_active, Database, DbError, Faults, pending, sent,
  missing, cap_reached, unavailable, has_id, max_ref,
}
use gin_bot.Reminder.Table.Rows.{Frame}
use gin_bot.Reminder.Table.Changes.{IsValid}
use gin_bot.Service.{User}
use gin_bot.Service.Reminders.{
  Destination, CreateReminderReq, get_reminder_handler, delete_reminder_handler,
  confirm_delivery_handler,
}
use gin_bot.Service.Reminders.Confirm.{confirm-twice}
use gin_bot.Service.Reminders.Hidden.{create_reminder-cap, hidden_not_found}
use gin_bot.Service.Remind.{System}
use gin_bot.Service.History.{
  Outside, Event, creates, deletes, confirms, asked, ticked, served, history, served-Frame,
  history-IsValid,
}

abbrev no_cron : Text → Option (Schedule (Unit {0}))
no_cron text = none

abbrev no_zone : Text → Option (Unit {0})
no_zone name = none

abbrev first_destination : Option Destination → Result DbError ℕ
first_destination destination = ok 1

abbrev outside : Outside (Unit {0})
outside = record {
  parse = no_cron;
  utc = tt;
  load_location = no_zone;
  get_or_create_destination = first_destination;
  places = λ destination_id. some (discord, some (codes "channel"));
  owners = λ user platform. none;
}

abbrev gin : User
gin = record { id = codes "gin"; clearance = pos 10 }

abbrev as_gin : Context User
as_gin = record { origin = none; meta = none; caller = some gin }

abbrev healthy : Faults
healthy call = false

abbrev tea : Row
tea = record {
  id = codes "a";
  ref = 1;
  datetime = 5;
  timezone = [];
  repeat_cron = none;
  destination_id = 1;
  status = pending;
  user_id = some (codes "gin");
  message = none;
  parent_id = none;
  deleted = false;
  claimed_at = none;
  delivery_attempts = 0;
}

abbrev one_row : Database
one_row = record { reminders = tea ∷ []; actions = [] }

one_row-IsValid : IsValid (tea ∷ [])
one_row-IsValid = ((omega arith, tt), (tt, tt))

abbrev start : System
start = record {
  database = one_row;
  server = record { clients = []; next_id = 1; is_done = false };
}

abbrev anywhere : Destination
anywhere = record {
  platform_enum = some discord;
  instance_fields = some [];
  destination_fields = some [];
}

abbrev ask : CreateReminderReq
ask = record {
  datetime = some 9;
  timezone = some [];
  destination = some anywhere;
  repeat_cron = none;
  message = none;
  parent_id = none;
}

abbrev events : List (Faults × Event)
events =
    (healthy, asked as_gin (creates (codes "b") ask))
    ∷ (healthy, ticked 7)
    ∷ (healthy, asked as_gin (confirms 8 (record { id = some (codes "a"); delivered = true })))
    ∷ []

history-IsValid_example : IsValid (history outside events start).database.reminders
history-IsValid_example = history-IsValid outside events start one_row-IsValid

served-Frame_example :
    Frame
      (codes "gin")
      (tea ∷ [])
      (served outside as_gin healthy (deletes (some (codes "a"))) one_row).reminders
served-Frame_example =
    served-Frame outside as_gin gin healthy (deletes (some (codes "a"))) one_row refl
      one_row-IsValid

-- The row after a round of the job at 7.
abbrev sent_tea : Row
sent_tea = record tea { status = sent; claimed_at = some 7; delivery_attempts = 1 }

abbrev claimed_row : Database
claimed_row = record { reminders = sent_tea ∷ []; actions = [] }

abbrev confirmed : Bool → Database → Database
confirmed is_delivered s =
    (confirm_delivery_handler no_cron tt no_zone first_destination as_gin healthy 8
      (record { id = some (codes "a"); delivered = is_delivered }) s).0

confirm-twice_example : confirmed false (confirmed true claimed_row) ≡ confirmed true claimed_row
unfolding gin_bot.Reminder.Table.uuid_of
confirm-twice_example =
    confirm-twice no_cron tt no_zone first_destination as_gin as_gin healthy healthy 8 8 (codes "a")
      true false claimed_row
      (unfold confirm_delivery_handler in unfold ◌>>=◌ in unfold ◌>>◌ in refl)

abbrev nowhere : ℕ → Result DbError (Unit {0})
nowhere destination_id = err missing

abbrev stranger : Context User
stranger = record as_gin { caller = some (record gin { id = codes "rum" }) }

hidden_not_found_example :
    (get_reminder_handler nowhere stranger healthy (some (codes "a")) one_row
      ≡ (one_row, err not_found))
    × ((delete_reminder_handler stranger healthy (some (codes "a")) one_row).1 ≡ err not_found)
unfolding gin_bot.Reminder.Table.uuid_of
hidden_not_found_example =
    hidden_not_found nowhere stranger (record gin { id = codes "rum" }) healthy (codes "a") one_row
      refl (unfold parse_int in refl) refl refl (refl, tt)

abbrev new_tea : NewReminder
new_tea = record { datetime = 9; timezone = []; repeat_cron = []; message = []; parent_id = [] }

abbrev created : Database × Result DbError (Text × ℕ)
created = create_reminder healthy (codes "b") new_tea (codes "gin") 1 100 one_row

create_reminder-cap_example :
    ((created.1 ≡ ok (codes "b", max_ref (codes "gin") (tea ∷ []) + 1))
      × (count_active (codes "gin") (tea ∷ []) < 100)
      × (count_active (codes "gin") created.0.reminders
          ≡ count_active (codes "gin") (tea ∷ []) + 1))
    ⊎ ((e : DbError) × (created.1 ≡ err e)
        × (created.0 ≡ one_row)
        × (((false ≡ true) × (e ≡ unavailable))
            ⊎ (((100 ≤ count_active (codes "gin") (tea ∷ [])) × (e ≡ cap_reached))
                ⊎ ((any_where (has_id (codes "b")) (tea ∷ []) ≡ true) × (e ≡ unavailable)))))
create_reminder-cap_example =
    create_reminder-cap healthy (codes "b") new_tea (codes "gin") 1 100 one_row
