-- ===== src/Service/Triggers/Handlers.antt =====
-- pkg/grpc/server/trigger.go: TryTrigger, ExecTrigger, GetTrigger, CreateTrigger, UpdateTrigger and
-- DeleteTrigger, and how a call finds its instance and its trigger.
use gin_bot.Base.{
  ℕ, suc, ◌==◌, Bool, true, false, ◌&&◌, ◌||◌, List, [], ◌∷◌, ◌++◌, Option, none, some,
  if◌then◌else◌,
}
use gin_bot.Base.Effect.{Effect, ◌>>=◌, return, map_error}
use gin_bot.Base.Int.{ℤ, pos, ltb_ℤ}
use gin_bot.Base.Result.{Result, ok, err}
use gin_bot.Base.Text.{Text}
use gin_bot.Access.{
  Platform, Origin, Caller, CallError, invalid_argument, failed_precondition, not_found, internal,
}
use gin_bot.Access.Clearance.{Context}
use gin_bot.Access.Origins.{instance_meta}
use gin_bot.Command.Bind.{parse_int}
use gin_bot.Service.{User, get_metadata}
use gin_bot.Service.Triggers.{
  TriggerInstance, TriggerServer, Outside, TryTriggerResp, read_error, on_tables,
  regex_clearance_floor,
}
use gin_bot.Trigger.{Mode, unspecified, any, regex}
use gin_bot.Trigger.Table.{
  Row, is_among, TableError, missing, Faults, get_trigger, get_trigger_by_ref,
}

abbrev pub is_given : {A : Type 0} → Option A → Bool
is_given none = false
is_given (some a) = true

abbrev pub is_empty : Text → Bool
is_empty [] = true
is_empty (c ∷ s) = false

abbrev pub or_any : Option Mode → Mode
or_any none = any
or_any (some unspecified) = any
or_any (some mode) = mode

abbrev is_regex : Mode → Bool
is_regex regex = true
is_regex _ = false

abbrev pub may_not_use : User → Mode → Bool
may_not_use caller mode = is_regex mode && ltb_ℤ caller.clearance regex_clearance_floor

abbrev pub is_bad_chance : ℤ → Bool
is_bad_chance chance = ltb_ℤ chance (pos 0) || ltb_ℤ (pos 100) chance

-- A positive number is a ref, anything else an id.
abbrev pub resolve_trigger_number : Faults → Text → Option ℤ → Effect TriggerServer CallError Text
resolve_trigger_number faults raw (some (pos (suc n))) = do
  row ← on_tables read_error (get_trigger_by_ref faults (suc n))
  return row.id
resolve_trigger_number faults raw _ = return raw

unfoldable pub resolve_trigger_id : Faults → Text → Effect TriggerServer CallError Text
unfolding parse_int get_trigger_by_ref
resolve_trigger_id faults raw = resolve_trigger_number faults raw (parse_int raw)

abbrev ok_or_none : {A : Type 0} → Result TableError A → Option A
ok_or_none (ok a) = some a
ok_or_none (err e) = none

module _ {File : Type 0} (out : Outside File) where
  abbrev resolve_found : Option Platform → Option (List (Text × Text)) → Result CallError ℕ
  resolve_found (some platform) (some meta) =
      map_error read_error (out.instance_by_meta platform meta)
  resolve_found _ _ = err invalid_argument

  unfoldable pub resolve_instance : TriggerInstance → Result CallError ℕ
  resolve_instance requested = resolve_found requested.platform_enum requested.instance_fields

  abbrev origin_instance : Option Origin → Result CallError Caller → Option ℕ
  origin_instance (some origin) (ok meta) =
      ok_or_none (out.instance_by_meta meta.platform_enum (instance_meta origin))
  origin_instance _ _ = none

  unfoldable pub caller_origin_instance_id : Context User → Option ℕ
  unfolding get_metadata
  caller_origin_instance_id ctx = origin_instance ctx.origin (get_metadata ctx)

  abbrev pub same_instance : ℕ → Result CallError ℕ → Result CallError ℕ
  same_instance origin_id (err e) = err e
  same_instance origin_id (ok requested_id) =
      if requested_id == origin_id then ok origin_id else err not_found

  unfoldable pub scoped_to : Option ℕ → Option TriggerInstance → Result CallError ℕ
  unfolding resolve_instance
  scoped_to none requested = err failed_precondition
  scoped_to (some origin_id) none = ok origin_id
  scoped_to (some origin_id) (some requested) = same_instance origin_id (resolve_instance requested)

  unfoldable pub caller_scoped_instance : Context User → Option TriggerInstance → Result CallError ℕ
  unfolding caller_origin_instance_id scoped_to
  caller_scoped_instance ctx requested = scoped_to (caller_origin_instance_id ctx) requested

  abbrev add_instance : Result CallError ℕ → List ℕ → List ℕ × Result CallError (Unit {0})
  add_instance (err e) ids = (ids, err e)
  add_instance (ok i) ids = (if is_among i ids then ids else ids ++ (i ∷ []), ok tt)

  unfoldable gather : Context User → List TriggerInstance → List ℕ → Result CallError (List ℕ)
  unfolding caller_scoped_instance
  gather ctx [] ids = ok ids
  gather ctx (requested ∷ more) ids =
      let (next, outcome) = add_instance (caller_scoped_instance ctx (some requested)) ids in
      let rest = gather ctx more next in elim outcome [ ok done ↦ rest | err e ↦ err e ]

  abbrev alone : Result CallError ℕ → Result CallError (List ℕ)
  alone (err e) = err e
  alone (ok i) = ok (i ∷ [])

  unfoldable pub resolve_scope_instances :
      Context User → List TriggerInstance → Result CallError (List ℕ)
  unfolding caller_scoped_instance gather
  resolve_scope_instances ctx [] = alone (caller_scoped_instance ctx none)
  resolve_scope_instances ctx (requested ∷ more) = gather ctx (requested ∷ more) []

  abbrev pub is_instance : Option TriggerInstance → Bool
  is_instance none = false
  is_instance (some requested) =
      is_given requested.platform_enum && is_given requested.instance_fields

  abbrev pub nothing : TryTriggerResp File
  nothing = record { id = none; reply = none; file = none }

  abbrev pub file_resp : Text → Result CallError File → Result CallError (TryTriggerResp File)
  file_resp id (err e) = err e
  file_resp id (ok file) = ok (record { id = some id; reply = none; file = some file })

  abbrev pub row_resp : Row → Option Text → Option Text → Result CallError (TryTriggerResp File)
  row_resp row (some (c ∷ reply)) file_id =
      ok (record { id = some row.id; reply = some (c ∷ reply); file = none })
  row_resp row reply (some (c ∷ file_id)) = file_resp row.id (out.load_file (c ∷ file_id))
  row_resp row reply file_id = ok nothing

  abbrev pub resp_of : Result TableError Row → Result CallError (TryTriggerResp File)
  resp_of (ok row) = row_resp row row.reply row.file_id
  resp_of (err missing) = ok nothing
  resp_of (err e) = err internal

  unfoldable pub build_try_trigger_resp :
      Faults → Text → Effect TriggerServer CallError (TryTriggerResp File)
  unfolding get_trigger
  build_try_trigger_resp faults id s = (
    record s { tables = (get_trigger faults id s.tables).0 },
    resp_of (get_trigger faults id s.tables).1,
  )
