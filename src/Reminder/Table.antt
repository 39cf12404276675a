-- ===== src/Reminder/Table.antt =====
-- pkg/db/reminder.go and the row of internal/model/model.go: the reminder table and its statements.
-- A statement acts on the rows it selects at once, as PostgreSQL runs it. `faults` says which calls
-- of the database fail: such a call was not carried out. Instants are nanoseconds. The other
-- tables that a claim joins are read through `places` and `owners`.
pub mod Rows
pub mod Keys
pub mod Changes
pub mod Attempts
use gin_bot.Base.{
  ℕ, ◌+◌, ◌*◌, ◌≡◌, refl, Bool, true, false, not, ◌&&◌, ◌||◌, List, [], ◌∷◌, ◌++◌, Option, none,
  some, if◌then◌else◌, leb, ltb, ◌==◌, list_beq, length,
}
use gin_bot.Base.Result.{Result, ok, err}
use gin_bot.Base.Effect.{Effect}
use gin_bot.Base.Table.{update_where, select_where, find_where, any_where}
use gin_bot.Base.Text.{Text}
use gin_bot.Access.{Platform}

-- ReminderStatus of proto/ginbot/v1/reminder.proto
pub data Status : Type 0 where
  unspecified pending sent delivered failed : Status

abbrev pub status_number : Status → ℕ
status_number unspecified = 0
status_number pending = 1
status_number sent = 2
status_number delivered = 3
status_number failed = 4

-- model.Reminder; the column defaults of an insert are those of `new_row`.
pub record Row : Type 0 where
  pub id : Text
  pub ref : ℕ
  pub datetime : ℕ
  pub timezone : Text
  pub repeat_cron : Option Text
  pub destination_id : ℕ
  pub status : Status
  pub user_id : Option Text
  pub message : Option Text
  pub parent_id : Option Text
  pub deleted : Bool
  pub claimed_at : Option ℕ
  pub delivery_attempts : ℕ

-- The action records that the handlers write.
pub data Action : Type 0 where
  reminder_created reminder_delivered : Action

pub record Database : Type 0 where
  pub reminders : List Row
  pub actions : List (Action × Option Text)

pub data DbError : Type 0 where
  missing cap_reached unavailable : DbError

-- The calls of the database that can fail.
pub data Call : Type 0 where
  creating getting getting_by_ref claiming reclaiming advancing rescheduling deleting updating
        recording :
      Call

abbrev pub Faults : Type 0
Faults = Call → Bool

-- 2 * time.Minute, in nanoseconds
abbrev pub stale_claim_grace : ℕ
stale_claim_grace = 120 * 1000000000

abbrev pub max_delivery_attempts : ℕ
max_delivery_attempts = 5

abbrev pub owned_by : Text → Option Text → Bool
owned_by user none = false
owned_by user (some owner) = list_beq owner user

abbrev pub has_status : Status → Row → Bool
has_status s r = status_number r.status == status_number s

abbrev null_str : Text → Option Text
null_str [] = none
null_str (c ∷ s) = some (c ∷ s)

-- A call that fails by a fault, or else acts.
abbrev unless_fault :
    {A : Type 0} → Bool → (Database → Database × Result DbError A) → Effect Database DbError A
unless_fault true call s = (s, err unavailable)
unless_fault false call s = call s

abbrev pub is_active : Text → Row → Bool
is_active user r = owned_by user r.user_id && has_status pending r && not r.deleted

-- activeReminderCountSQL
unfoldable pub count_active : Text → List Row → ℕ
unfolding select_where
count_active user rows = length (select_where (is_active user) rows)

-- SELECT COALESCE(MAX(ref), 0) of the user's rows, deleted ones included
unfoldable pub max_ref : Text → List Row → ℕ
max_ref user [] = 0
max_ref user (r ∷ rows) =
    let rest = max_ref user rows in
    if owned_by user r.user_id && ltb rest r.ref then r.ref else rest

abbrev lower_hex : ℕ → ℕ
lower_hex c = if leb b'A' c && leb c b'F' then c + 32 else c

-- A uuid as the database reads it: a text may spell its letters in either case.
unfoldable pub uuid_of : Text → Text
uuid_of [] = []
uuid_of (c ∷ id) = lower_hex c ∷ uuid_of id

abbrev pub same_id : Text → Text → Bool
same_id a b = list_beq (uuid_of a) (uuid_of b)

abbrev pub has_id : Text → Row → Bool
has_id id r = same_id r.id id

-- The columns that an insert takes from the request.
pub record NewReminder : Type 0 where
  pub datetime : ℕ
  pub timezone : Text
  pub repeat_cron : Text
  pub message : Text
  pub parent_id : Text

abbrev pub new_row : Text → ℕ → NewReminder → Text → ℕ → Row
new_row id ref req user destination_id = record {
  id = id;
  ref = ref;
  datetime = req.datetime;
  timezone = req.timezone;
  repeat_cron = null_str req.repeat_cron;
  destination_id = destination_id;
  status = pending;
  user_id = some user;
  message = null_str req.message;
  parent_id = null_str req.parent_id;
  deleted = false;
  claimed_at = none;
  delivery_attempts = 0;
}

-- The transaction under the owner's lock; `id` is the generated uuid, and the primary key refuses
-- one that is taken.
unfoldable pub create_reminder :
    Faults → Text → NewReminder → Text → ℕ → ℕ → Effect Database DbError (Text × ℕ)
unfolding count_active max_ref any_where
create_reminder faults id req user destination_id max_active = unless_fault (faults creating) (λ s.
    if leb max_active (count_active user s.reminders)
    then (s, err cap_reached)
    else if any_where (has_id id) s.reminders
    then (s, err unavailable)
    else (
      record s {
        reminders =
            s.reminders ++ (new_row id (max_ref user s.reminders + 1) req user destination_id ∷ []);
      },
      ok (id, max_ref user s.reminders + 1),
    ))

abbrev or_missing : {A : Type 0} → Option A → Result DbError A
or_missing none = err missing
or_missing (some a) = ok a

unfoldable pub get_reminder : Faults → Text → Effect Database DbError Row
unfolding find_where
get_reminder faults id =
    unless_fault (faults getting)
      (λ s. (s, or_missing (find_where (λ r. has_id id r && not r.deleted) s.reminders)))

unfoldable pub get_reminder_by_ref : Faults → Text → ℕ → Effect Database DbError Row
unfolding find_where
get_reminder_by_ref faults user ref = unless_fault (faults getting_by_ref) (λ s. (
  s,
  or_missing
      (find_where (λ r. owned_by user r.user_id && r.ref == ref && not r.deleted) s.reminders),
))

-- What a claim returns of a reminder.
pub record ClaimedReminder : Type 0 where
  pub id : Text
  pub message : Option Text
  pub platform_enum : Platform
  pub destination_uid : Option Text
  pub owner_platform_uid : Option Text

abbrev pub is_due : ℕ → Row → Bool
is_due now r = leb r.datetime now && has_status pending r && not r.deleted

abbrev pub claim : ℕ → Row → Row
claim now r = record r {
  status = sent;
  claimed_at = some now;
  delivery_attempts = r.delivery_attempts + 1;
}

-- The join_row tables: a destination's platform and uid, and a user's uid on a platform.
module _ (places : ℕ → Option (Platform × Option Text))
    (owners : Option Text → Platform → Option Text) where
  abbrev join_row :
      Row → Option (Platform × Option Text) → List ClaimedReminder → List ClaimedReminder
  join_row r none claimed = claimed
  join_row r (some (platform, uid)) claimed =
      record {
        id = r.id;
        message = r.message;
        platform_enum = platform;
        destination_uid = uid;
        owner_platform_uid = owners r.user_id platform;
      }
      ∷ claimed

  unfoldable join_rows : List Row → List ClaimedReminder
  join_rows [] = []
  join_rows (r ∷ rows) = join_row r (places r.destination_id) (join_rows rows)

  unfoldable pub claim_due_reminders : Faults → ℕ → Effect Database DbError (List ClaimedReminder)
  unfolding update_where select_where join_rows
  claim_due_reminders faults now = unless_fault (faults claiming) (λ s. (
    record s { reminders = update_where (is_due now) (claim now) s.reminders },
    ok (join_rows (select_where (is_due now) s.reminders)),
  ))

abbrev pub is_before : Option ℕ → ℕ → Bool
is_before none cutoff = false
is_before (some t) now = leb (t + stale_claim_grace) now

-- claimed_at <= now - staleClaimGrace
abbrev pub is_stale : ℕ → Row → Bool
is_stale now r = has_status sent r && not r.deleted && is_before r.claimed_at now

abbrev pub reclaim : Row → Row
reclaim r = record r {
  status = if leb max_delivery_attempts r.delivery_attempts then failed else pending;
  claimed_at = none;
}

pub record ReclaimOutcome : Type 0 where
  pub retried : ℕ
  pub failed_out : ℕ

abbrev is_spent : Row → Bool
is_spent r = leb max_delivery_attempts r.delivery_attempts

unfoldable pub reclaim_stale_reminders : Faults → ℕ → Effect Database DbError ReclaimOutcome
unfolding update_where select_where
reclaim_stale_reminders faults now = unless_fault (faults reclaiming) (λ s. (
  record s { reminders = update_where (is_stale now) reclaim s.reminders },
  ok (record {
    retried = length (select_where (λ r. is_stale now r && not (is_spent r)) s.reminders);
    failed_out = length (select_where (λ r. is_stale now r && is_spent r) s.reminders);
  }),
))

abbrev pub is_sent : Text → Row → Bool
is_sent id r = has_id id r && has_status sent r && not r.deleted

unfoldable pub advance_reminder_status_if_sent :
    Faults → Text → Status → Effect Database DbError Bool
unfolding update_where any_where
advance_reminder_status_if_sent faults id status = unless_fault (faults advancing) (λ s. (
  record s {
    reminders =
        update_where (is_sent id) (λ r. record r { status = status; claimed_at = none })
          s.reminders;
  },
  ok (any_where (is_sent id) s.reminders),
))

abbrev pub rearm : ℕ → Row → Row
rearm next r = record r {
  datetime = next;
  status = pending;
  claimed_at = none;
  delivery_attempts = 0;
}

unfoldable pub reschedule_reminder_if_sent : Faults → Text → ℕ → Effect Database DbError Bool
unfolding update_where any_where
reschedule_reminder_if_sent faults id next = unless_fault (faults rescheduling) (λ s. (
  record s { reminders = update_where (is_sent id) (rearm next) s.reminders },
  ok (any_where (is_sent id) s.reminders),
))

abbrev pub is_own : Text → Text → Row → Bool
is_own id user r = has_id id r && owned_by user r.user_id && not r.deleted

abbrev affected : Bool → Result DbError (Unit {0})
affected true = ok tt
affected false = err missing

unfoldable pub soft_delete_reminder_by_user :
    Faults → Text → Text → Effect Database DbError (Unit {0})
unfolding update_where any_where
soft_delete_reminder_by_user faults id user = unless_fault (faults deleting) (λ s. (
  record s {
    reminders = update_where (is_own id user) (λ r. record r { deleted = true }) s.reminders;
  },
  affected (any_where (is_own id user) s.reminders),
))

pub record ReminderUpdate : Type 0 where
  pub id : Text
  pub user_id : Text
  pub datetime : ℕ
  pub timezone : Text
  pub destination_id : ℕ
  pub update_message : Bool
  pub message : Text
  pub update_repeat : Bool
  pub repeat_cron : Text

abbrev pub edit : ReminderUpdate → Row → Row
edit u r = record r {
  datetime = u.datetime;
  timezone = u.timezone;
  message = if u.update_message then null_str u.message else r.message;
  destination_id = u.destination_id;
  repeat_cron = if u.update_repeat then null_str u.repeat_cron else r.repeat_cron;
  status = pending;
  claimed_at = none;
  delivery_attempts = 0;
}

unfoldable pub update_reminder_by_user :
    Faults → ReminderUpdate → Effect Database DbError (Unit {0})
unfolding update_where any_where
update_reminder_by_user faults u = unless_fault (faults updating) (λ s. (
  record s { reminders = update_where (is_own u.id u.user_id) (edit u) s.reminders },
  affected (any_where (is_own u.id u.user_id) s.reminders),
))

-- CreateActionRecord of pkg/db/analytics.go
unfoldable pub create_action_record : Faults → Action → Text → Effect Database DbError (Unit {0})
create_action_record faults action actor =
    unless_fault (faults recording)
      (λ s. (record s { actions = (action, null_str actor) ∷ s.actions }, ok tt))
