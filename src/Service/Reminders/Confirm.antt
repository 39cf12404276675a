-- ===== src/Service/Reminders/Confirm.antt =====
-- pkg/grpc/server/reminder.go: ConfirmDelivery for a delivery that was confirmed before.
use gin_bot.Base.{
  ℕ, ◌≡◌, refl, Bool, true, false, List, [], ◌∷◌, Option, none, some, inl, inr, arith, Bool-cases,
  ◌==◌,
}
use gin_bot.Base.Effect.{
  Effect, map_error-ok, with_error, Ensures, Preserves, IsPreorder, >>=-Ensures, >>-Ensures,
  Ensures->>=, Ensures->>, given-Ensures, given-Preserves, >>=-Preserves, >>-Preserves, >>=-Keeps,
  read-Preserves,
}
use gin_bot.Base.Result.{Result, ok, err}
use gin_bot.Base.Table.{update_where, any_where}
use gin_bot.Base.Text.{Text}
use gin_bot.Access.{invalid_argument}
use gin_bot.Access.Clearance.{Context}
use gin_bot.Reminder.Schedule.{Schedule, ScheduleError}
use gin_bot.Reminder.Table.{
  Row, Status, status_number, delivered, failed, Database, DbError, Faults, is_sent, rearm,
  advancing, rescheduling, recording, create_action_record, advance_reminder_status_if_sent,
  reschedule_reminder_if_sent,
}
use gin_bot.Reminder.Table.Changes.{get-stays}
use gin_bot.Service.{User}
use gin_bot.Service.Reminders.{
  Destination, confirm_delivery_handler, confirm_row, settle, settle_next, write_error, or_default,
  note_delivery, confirm_delivery_as,
}

-- No live row with the id waits for a confirmation.
abbrev IsSettled : Text → Database → Type 0
IsSettled id s = any_where (is_sent id) s.reminders ≡ false

update_settled :
    (id : Text) (change : Row → Row) (rows : List Row)
    → ((r : Row) → is_sent id (change r) ≡ false)
    → any_where (is_sent id) (update_where (is_sent id) change rows) ≡ false
unfolding any_where update_where
update_settled id change [] closed = refl
update_settled id change (r ∷ rows) closed = elim (Bool-cases (is_sent id r)) [
  | inl e ↦ rw (e, closed r, update_settled id change rows closed) refl
  | inr e ↦ rw (e, update_settled id change rows closed) (rw e refl)
]

update_where-settled :
    (id : Text) (change : Row → Row) (rows : List Row)
    → any_where (is_sent id) rows ≡ false
    → update_where (is_sent id) change rows ≡ rows
unfolding any_where update_where
update_where-settled id change [] h = refl
update_where-settled id change (r ∷ rows) h = elim (Bool-cases (is_sent id r)) [
  | inl e ↦ absurd (ground arith)
  | inr e ↦ let rest = update_where-settled id change rows (ground arith) in rw (e, rest) refl
]

-- A status that is not SENT closes every row of the id.
not_sent :
    (id : Text) (status : Status) (r : Row)
    → (status_number status == 2) ≡ false
    → is_sent id (record r { status = status; claimed_at = none }) ≡ false
not_sent id status r e = ground arith

advance-IsSettled :
    (faults : Faults) (id : Text) (status : Status) (s : Database) (done : Bool)
    → (status_number status == 2) ≡ false
    → (advance_reminder_status_if_sent faults id status s).1 ≡ ok done
    → IsSettled id (advance_reminder_status_if_sent faults id status s).0
unfolding advance_reminder_status_if_sent
advance-IsSettled faults id status s done other e = elim (Bool-cases (faults advancing)) [
  | inl bad ↦ absurd (ground arith)
  | inr fine ↦ rw fine (
      update_settled id (λ r. record r { status = status; claimed_at = none }) s.reminders
        (λ r. not_sent id status r other))
]

reschedule-IsSettled :
    (faults : Faults) (id : Text) (next : ℕ) (s : Database) (done : Bool)
    → (reschedule_reminder_if_sent faults id next s).1 ≡ ok done
    → IsSettled id (reschedule_reminder_if_sent faults id next s).0
unfolding reschedule_reminder_if_sent
reschedule-IsSettled faults id next s done e = elim (Bool-cases (faults rescheduling)) [
  | inl bad ↦ absurd (ground arith)
  | inr fine ↦ rw fine (update_settled id (rearm next) s.reminders (λ r. ground arith))
]

-- Settling a row that is settled changes nothing, and reports that nothing was advanced.
abbrev LeavesSettled : Text → Effect Database DbError Bool → Type 0
LeavesSettled id call =
    (s : Database)
    → IsSettled id s
    → ((call s).0 ≡ s) × ((done : Bool) → (call s).1 ≡ ok done → done ≡ false)

advance_settled :
    (faults : Faults) (id : Text) (status : Status)
    → LeavesSettled id (advance_reminder_status_if_sent faults id status)
unfolding advance_reminder_status_if_sent
advance_settled faults id status s h = elim (Bool-cases (faults advancing)) [
  | inl bad ↦ rw bad (refl, λ done e. absurd (cc))
  | inr fine ↦
      rw
        (
          fine,
          update_where-settled id (λ r. record r { status = status; claimed_at = none }) s.reminders
              h,
        )
        (refl, λ done e. ground arith)
]

reschedule_settled :
    (faults : Faults) (id : Text) (next : ℕ)
    → LeavesSettled id (reschedule_reminder_if_sent faults id next)
unfolding reschedule_reminder_if_sent
reschedule_settled faults id next s h = elim (Bool-cases (faults rescheduling)) [
  | inl bad ↦ rw bad (refl, λ done e. absurd (cc))
  | inr fine ↦
      rw (fine, update_where-settled id (rearm next) s.reminders h) (refl, λ done e. ground arith)
]

module _ {Loc : Type 0} (parse : Text → Option (Schedule Loc)) (utc : Loc)
    (load_location : Text → Option Loc)
    (get_or_create_destination : Option Destination → Result DbError ℕ) where
  settle_next-Ensures :
      (faults : Faults) (id : Text) (next : Result ScheduleError (ℕ × Bool))
      → Ensures
          (IsSettled id)
          (settle_next parse utc load_location get_or_create_destination faults id next)
  settle_next-Ensures faults id (err e) = record {
    holds = λ s done h. advance-IsSettled faults id delivered s done refl h;
  }
  settle_next-Ensures faults id (ok (next, lost)) = record {
    holds = λ s done h. reschedule-IsSettled faults id next s done h;
  }

  settle-Ensures :
      (faults : Faults) (now : ℕ) (id : Text) (row : Row) (cron : Option Text)
      → Ensures
          (IsSettled id)
          (settle parse utc load_location get_or_create_destination faults now id row cron)
  settle-Ensures faults now id row none = record {
    holds = λ s done h. advance-IsSettled faults id delivered s done refl h;
  }
  settle-Ensures faults now id row (some []) = record {
    holds = λ s done h. advance-IsSettled faults id delivered s done refl h;
  }
  settle-Ensures faults now id row (some (c ∷ cron)) = settle_next-Ensures faults id _

  with_error-Ensures :
      {Q : Database → Type 0} {A : Type 0} (call : Effect Database DbError A)
      → Ensures Q call
      → Ensures Q (with_error write_error call)
  with_error-Ensures call once = record {
    holds = λ s a done. once.holds s a (map_error-ok write_error (call s).1 a done);
  }

  note_delivery-keeps :
      (faults : Faults) (id owner : Text) (advanced : Bool)
      → Preserves
          (λ s t. IsSettled id s → IsSettled id t)
          (note_delivery parse utc load_location get_or_create_destination faults owner advanced)
  unfolding create_action_record
  note_delivery-keeps faults id owner false = record { keeps = λ s h. h }
  note_delivery-keeps faults id owner true = record {
    keeps = λ s h. elim (Bool-cases (faults recording)) [ inl e ↦ rw e h | inr e ↦ rw e h ];
  }

  confirm_row-Ensures :
      (faults : Faults) (now : ℕ) (id : Text) (row : Row) (is_delivered : Bool)
      → Ensures (IsSettled id) (
          confirm_row parse utc load_location get_or_create_destination faults now id row
            is_delivered)
  confirm_row-Ensures faults now id row false =
      Ensures->> _ _
        (with_error-Ensures _
          (record { holds = λ s done h. advance-IsSettled faults id failed s done refl h }))
        (record { keeps = λ s h. h })
  confirm_row-Ensures faults now id row true =
      Ensures->>= _ _ (with_error-Ensures _ (settle-Ensures faults now id row row.repeat_cron))
        λ advanced. note_delivery-keeps faults id (or_default [] row.user_id) advanced

  confirm_as-Ensures :
      (faults : Faults) (now : ℕ) (id : Text) (is_delivered : Bool) (u : User)
      → Ensures (IsSettled id) (
          confirm_delivery_as parse utc load_location get_or_create_destination faults now
            (record { id = some id; delivered = is_delivered })
            u)
  unfolding confirm_delivery_as
  confirm_as-Ensures faults now id is_delivered u =
      given-Ensures invalid_argument id _
        (>>=-Ensures _ _ λ row. >>-Ensures _ _ (confirm_row-Ensures faults now id row is_delivered))

  -- From a settled row on.
  abbrev LeavesAll : Text → Database → Database → Type 0
  LeavesAll id s t = IsSettled id s → t ≡ s

  LeavesAll-IsPreorder : (id : Text) → IsPreorder (LeavesAll id)
  LeavesAll-IsPreorder id = record {
    stays = λ s h. refl;
    joins = λ first second h. let same = first h in let next = second (rw same h) in cc;
  }

  settle_next_leaves :
      (faults : Faults) (id : Text) (next : Result ScheduleError (ℕ × Bool))
      → LeavesSettled id
          (settle_next parse utc load_location get_or_create_destination faults id next)
  settle_next_leaves faults id (err e) = advance_settled faults id delivered
  settle_next_leaves faults id (ok (next, lost)) = reschedule_settled faults id next

  settle_leaves :
      (faults : Faults) (now : ℕ) (id : Text) (row : Row) (cron : Option Text)
      → LeavesSettled id
          (settle parse utc load_location get_or_create_destination faults now id row cron)
  settle_leaves faults now id row none = advance_settled faults id delivered
  settle_leaves faults now id row (some []) = advance_settled faults id delivered
  settle_leaves faults now id row (some (c ∷ cron)) = settle_next_leaves faults id _

  confirm_row_leaves :
      (faults : Faults) (now : ℕ) (id : Text) (row : Row) (is_delivered : Bool)
      → Preserves (LeavesAll id) (
          confirm_row parse utc load_location get_or_create_destination faults now id row
            is_delivered)
  confirm_row_leaves faults now id row false =
      >>-Preserves _ _ (LeavesAll-IsPreorder id)
        (record { keeps = λ s h. (advance_settled faults id failed s h).0 })
        (record { keeps = λ s h. refl })
  confirm_row_leaves faults now id row true = record {
    keeps = λ s h.
        >>=-Keeps {R = LeavesAll id}
          (with_error write_error (
            settle parse utc load_location get_or_create_destination faults now id row
              row.repeat_cron))
          _ s (LeavesAll-IsPreorder id)
          (λ settled. (settle_leaves faults now id row row.repeat_cron s settled).0)
          (λ advanced e settled.
            rw
              ((settle_leaves faults now id row row.repeat_cron s h).1 advanced
                (map_error-ok write_error _ advanced e))
              refl)
          h;
  }

  confirm_as_leaves :
      (faults : Faults) (now : ℕ) (id : Text) (is_delivered : Bool) (u : User)
      → Preserves (LeavesAll id) (
          confirm_delivery_as parse utc load_location get_or_create_destination faults now
            (record { id = some id; delivered = is_delivered })
            u)
  unfolding confirm_delivery_as
  confirm_as_leaves faults now id is_delivered u =
      let order = LeavesAll-IsPreorder id in
      given-Preserves invalid_argument id _ (
        >>=-Preserves _ _ order (read-Preserves _ order (get-stays faults id)) λ row.
          >>-Preserves _ _ order (record { keeps = order.stays })
            (confirm_row_leaves faults now id row is_delivered))

  confirm_handler-Ensures :
      (ctx : Context User) (faults : Faults) (now : ℕ) (id : Text) (is_delivered : Bool)
      → Ensures (IsSettled id) (
          confirm_delivery_handler parse utc load_location get_or_create_destination ctx faults now
            (record { id = some id; delivered = is_delivered }))
  unfolding confirm_delivery_handler
  confirm_handler-Ensures ctx faults now id is_delivered =
      >>=-Ensures _ _ λ u. confirm_as-Ensures faults now id is_delivered u

  confirm_handler_leaves :
      (ctx : Context User) (faults : Faults) (now : ℕ) (id : Text) (is_delivered : Bool)
      → Preserves (LeavesAll id) (
          confirm_delivery_handler parse utc load_location get_or_create_destination ctx faults now
            (record { id = some id; delivered = is_delivered }))
  unfolding confirm_delivery_handler
  confirm_handler_leaves ctx faults now id is_delivered =
      let order = LeavesAll-IsPreorder id in
      >>=-Preserves _ _ order (record { keeps = order.stays })
        λ u. confirm_as_leaves faults now id is_delivered u

  -- After a confirmation that succeeded, another of the same reminder, by any caller, at any time
  -- and with any outcome, leaves the database as it is: no status, no schedule and no action record
  -- changes.
  pub confirm-twice :
      (ctx later_ctx : Context User) (faults later_faults : Faults) (now later : ℕ) (id : Text)
      (is_delivered is_delivered_later : Bool) (s : Database)
      → (confirm_delivery_handler parse utc load_location get_or_create_destination ctx faults now
          (record { id = some id; delivered = is_delivered })
          s).1
        ≡ ok tt
      → (confirm_delivery_handler parse utc load_location get_or_create_destination later_ctx
          later_faults later
          (record { id = some id; delivered = is_delivered_later })
          (confirm_delivery_handler parse utc load_location get_or_create_destination ctx faults now
            (record { id = some id; delivered = is_delivered })
            s).0).0
        ≡ (confirm_delivery_handler parse utc load_location get_or_create_destination ctx faults now
            (record { id = some id; delivered = is_delivered })
            s).0
  confirm-twice ctx later_ctx faults later_faults now later id is_delivered is_delivered_later s
        done =
      (confirm_handler_leaves later_ctx later_faults later id is_delivered_later).keeps _
        ((confirm_handler-Ensures ctx faults now id is_delivered).holds s tt done)
