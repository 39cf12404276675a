-- ===== src/Service/Remind.antt =====
-- pkg/cron/cronjob/remind.go: one round of the reminder job. It reclaims the lost reminders, claims
-- the due ones and queues each for the clients of its platform. The tables that a claim joins are
-- parameters.
pub mod Rows
pub mod Attempts
pub mod Rounds
use gin_bot.Base.{ℕ, Bool, List, [], ◌∷◌, Option, none, some}
use gin_bot.Base.Result.{Result, ok, err}
use gin_bot.Base.Text.{Text}
use gin_bot.Access.{Platform}
use gin_bot.Reminder.Table.{
  Database, DbError, Faults, ClaimedReminder, claim_due_reminders, reclaim_stale_reminders,
}
use gin_bot.Reverse.{ReverseServer, send_action}

-- pb.ReminderDelivery
pub record Delivery : Type 0 where
  pub reminder_id : Text
  pub message : Text
  pub destination_uid : Text
  pub owner_uid : Text

-- What the job changes: the database, and the queues of the connected clients.
pub record System : Type 0 where
  pub database : Database
  pub server : ReverseServer Delivery

abbrev deref : Option Text → Text
deref none = []
deref (some s) = s

abbrev delivery_of : ClaimedReminder → Delivery
delivery_of c = record {
  reminder_id = c.id;
  message = deref c.message;
  destination_uid = deref c.destination_uid;
  owner_uid = deref c.owner_platform_uid;
}

unfoldable push_all : List ClaimedReminder → ReverseServer Delivery → ReverseServer Delivery
unfolding send_action
push_all [] server = server
push_all (c ∷ claimed) server =
    push_all claimed (send_action server c.platform_enum (delivery_of c))

abbrev push_claimed :
    Result DbError (List ClaimedReminder) → ReverseServer Delivery → ReverseServer Delivery
push_claimed (err e) server = server
push_claimed (ok claimed) server = push_all claimed server

module _ (places : ℕ → Option (Platform × Option Text))
    (owners : Option Text → Platform → Option Text) where
  unfoldable pub remind : Faults → ℕ → System → System
  unfolding reclaim_stale_reminders claim_due_reminders push_all
  remind faults now s =
      let reclaimed = (reclaim_stale_reminders faults now s.database).0 in
      let claimed = claim_due_reminders places owners faults now reclaimed in
      record { database = claimed.0; server = push_claimed claimed.1 s.server }
