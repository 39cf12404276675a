-- ===== src/Service/Triggers/Calls.antt =====
-- pkg/grpc/server/trigger.go: the handlers TryTrigger, ExecTrigger, GetTrigger, CreateTrigger,
-- UpdateTrigger and DeleteTrigger.
use gin_bot.Base.{
  ℕ, Bool, true, false, not, ◌&&◌, ◌||◌, List, [], ◌∷◌, Option, none, some, if◌then◌else◌,
}
use gin_bot.Base.Effect.{Effect, ◌>>=◌, ◌>>◌, return, lift, stop_if, get_or_fail, map_error}
use gin_bot.Base.Int.{ℤ}
use gin_bot.Base.Result.{Result, ok, err}
use gin_bot.Base.Text.{Text}
use gin_bot.Access.{CallError, invalid_argument, permission_denied, not_found}
use gin_bot.Access.Clearance.{Context}
use gin_bot.Service.{User, caller_user}
use gin_bot.Service.Triggers.{
  TriggerInstance, TriggerServer, Outside, TryTriggerResp, TryTriggerReq, CreateTriggerReq,
  UpdateTriggerReq, read_error, write_error, create_error, any_error, bad_pattern, on_tables,
  log_attempt, cached_candidates, invalidate_scopes, allow_forced,
}
use gin_bot.Service.Triggers.Handlers.{
  is_given, is_empty, or_any, may_not_use, is_bad_chance, resolve_trigger_id,
  caller_origin_instance_id, caller_scoped_instance, resolve_scope_instances, is_instance, nothing,
  build_try_trigger_resp,
}
use gin_bot.Trigger.{Mode}
use gin_bot.Trigger.Pattern.{compile}
use gin_bot.Trigger.Select.{Candidate, Roller, select, fires}
use gin_bot.Trigger.Table.{
  Row, is_among, Faults, Fire, occurred, called, TriggerUpdate, CreateTriggerParams, is_user,
  if_given, create_trigger, update_trigger_by_user, soft_delete_trigger_by_user, get_trigger,
  list_trigger_instance_ids, get_trigger_instances, record_trigger_fire,
}

abbrev pub create_params : User → CreateTriggerReq → Text → List ℕ → CreateTriggerParams
create_params caller req file_id instance_ids = record {
  phrase = if_given req.phrase [];
  reply = req.reply;
  file_id = file_id;
  user_id = caller.id;
  chance = req.chance;
  mode = or_any req.mode;
  instance_ids = instance_ids;
}

abbrev given_mode : Option Mode → Option Mode
given_mode none = none
given_mode (some mode) = some (or_any (some mode))

abbrev pub update_of : User → UpdateTriggerReq → Text → Option Text → TriggerUpdate
update_of caller req id file_id = record {
  id = id;
  user_id = caller.id;
  phrase = req.phrase;
  reply = req.reply;
  file_id = file_id;
  chance = req.chance;
  mode = given_mode req.mode;
}

module _ {File : Type 0} (out : Outside File) (faults : Faults) where
  -- The response, and the record of the fire when it can be written.
  unfoldable pub fire_trigger :
      Fire → Text → Text → Effect TriggerServer CallError (TryTriggerResp File)
  unfolding build_try_trigger_resp record_trigger_fire
  fire_trigger fire id actor = do
    resp ← build_try_trigger_resp out faults id
    log_attempt (record_trigger_fire faults fire id actor)
    return resp

  unfoldable pub try_allowed :
      Fire → Text → Text → Bool → Effect TriggerServer CallError (TryTriggerResp File)
  unfolding fire_trigger
  try_allowed fire id actor true = fire_trigger fire id actor
  try_allowed fire id actor false = return (nothing out)

  unfoldable pub try_forced :
      Bool → Roller → ℕ → Text → Candidate → Effect TriggerServer CallError (TryTriggerResp File)
  unfolding fires allow_forced try_allowed
  try_forced true roll now actor c = do
    permitted ← allow_forced actor now
    try_allowed called c.id actor permitted
  try_forced false roll now actor c = try_allowed occurred c.id actor (fires c roll)

  unfoldable pub try_selected :
      Option Candidate
      → Bool
      → Roller
      → ℕ
      → Text
      → Effect TriggerServer CallError (TryTriggerResp File)
  unfolding try_forced
  try_selected none forced roll now actor = return (nothing out)
  try_selected (some c) forced roll now actor = try_forced forced roll now actor c

  -- `pick_roll` is the roller in the selection, `fire_roll` in the chance of the selected trigger.
  unfoldable pub try_trigger :
      Context User
      → Roller
      → Roller
      → ℕ
      → TryTriggerReq
      → Effect TriggerServer CallError (TryTriggerResp File)
  unfolding caller_user caller_scoped_instance cached_candidates select try_selected
  try_trigger ctx pick_roll fire_roll now req = do
    caller ← lift (caller_user ctx)
    stop_if (not (is_instance out req.instance_of_call)) invalid_argument
    stop_if (is_empty req.phrase) invalid_argument
    instance_id ← lift (caller_scoped_instance out ctx req.instance_of_call)
    found ← cached_candidates out.engine faults instance_id
    try_selected (select req.phrase found pick_roll) req.forced fire_roll now caller.id

  unfoldable pub exec_trigger :
      Context User
      → Option Text
      → Option TriggerInstance
      → Effect TriggerServer CallError (TryTriggerResp File)
  unfolding caller_user caller_scoped_instance resolve_trigger_id get_trigger
      list_trigger_instance_ids fire_trigger
  exec_trigger ctx request_id requested = do
    caller ← lift (caller_user ctx)
    raw ← get_or_fail invalid_argument request_id
    stop_if (not (is_instance out requested)) invalid_argument
    instance_id ← lift (caller_scoped_instance out ctx requested)
    id ← resolve_trigger_id faults raw
    row ← on_tables read_error (get_trigger faults id)
    scoped_ids ← on_tables any_error (list_trigger_instance_ids faults row.id)
    stop_if (not (is_among instance_id scoped_ids)) not_found
    fire_trigger called row.id caller.id

  abbrev in_origin : Option ℕ → List ℕ → Bool
  in_origin none ids = false
  in_origin (some i) ids = is_among i ids

  abbrev file_of : Option Text → Result CallError (Option File)
  file_of (some (c ∷ id)) = elim (out.load_file (c ∷ id)) [
    | ok file ↦ ok (some file)
    | err e ↦ err e
  ]
  file_of _ = ok none

  -- The row, its file and its instances.
  unfoldable pub get_trigger_handler :
      Context User
      → Option Text
      → Effect TriggerServer CallError (Row × (Option File × List TriggerInstance))
  unfolding caller_user caller_origin_instance_id resolve_trigger_id get_trigger
      list_trigger_instance_ids get_trigger_instances
  get_trigger_handler ctx request_id = do
    caller ← lift (caller_user ctx)
    raw ← get_or_fail invalid_argument request_id
    id ← resolve_trigger_id faults raw
    row ← on_tables read_error (get_trigger faults id)
    scoped_ids ← on_tables any_error (list_trigger_instance_ids faults row.id)
    stop_if
        (not (
          is_user caller.id row.user_id
          || in_origin (caller_origin_instance_id out ctx) scoped_ids))
        not_found
    file ← lift (file_of row.file_id)
    instances ← on_tables any_error (get_trigger_instances out.live_instance faults row.id)
    return (row, (file, instances))

  abbrev stored_file : Text → Result CallError Text
  stored_file [] = ok []
  stored_file (c ∷ url) = out.store_file (c ∷ url)

  unfoldable pub create_trigger_handler :
      Context User → Text → CreateTriggerReq → Effect TriggerServer CallError (Text × ℕ)
  unfolding caller_user compile resolve_scope_instances create_trigger
  create_trigger_handler ctx uuid req = do
    caller ← lift (caller_user ctx)
    stop_if (is_empty (if_given req.phrase [])) invalid_argument
    stop_if (is_empty req.reply && is_empty req.file_url) invalid_argument
    stop_if (may_not_use caller (or_any req.mode)) permission_denied
    lift (map_error bad_pattern (compile out.engine (if_given req.phrase []) (or_any req.mode)))
    stop_if (is_bad_chance req.chance) invalid_argument
    file_id ← lift (stored_file req.file_url)
    instance_ids ← lift (resolve_scope_instances out ctx req.instances)
    created ←
        on_tables create_error (
          create_trigger out.same_phrase faults uuid
            (create_params caller req file_id instance_ids))
    invalidate_scopes instance_ids
    return created

  abbrev bad_given_chance : Option ℤ → Bool
  bad_given_chance none = false
  bad_given_chance (some chance) = is_bad_chance chance

  -- The phrase and the mode that will be stored together are checked when one of them is given.
  unfoldable check_combination : User → Bool → Text → Mode → Result CallError (Unit {0})
  unfolding compile
  check_combination caller false phrase mode = ok tt
  check_combination caller true phrase mode =
      if may_not_use caller mode
      then err permission_denied
      else elim (map_error bad_pattern (compile out.engine phrase mode)) [
        | ok pattern ↦ ok tt
        | err e ↦ err e
      ]

  abbrev updated_file : Option Text → Result CallError (Option Text)
  updated_file (some (c ∷ url)) = elim (out.store_file (c ∷ url)) [
    | ok id ↦ ok (some id)
    | err e ↦ err e
  ]
  updated_file _ = ok none

  unfoldable pub update_trigger_handler :
      Context User → UpdateTriggerReq → Effect TriggerServer CallError (Unit {0})
  unfolding caller_user resolve_trigger_id get_trigger check_combination list_trigger_instance_ids
      update_trigger_by_user
  update_trigger_handler ctx req = do
    caller ← lift (caller_user ctx)
    raw ← get_or_fail invalid_argument req.id
    id ← resolve_trigger_id faults raw
    current ← on_tables read_error (get_trigger faults id)
    stop_if (not (is_user caller.id current.user_id)) not_found
    stop_if (bad_given_chance req.chance) invalid_argument
    lift (
        check_combination caller (is_given req.phrase || is_given req.mode)
          (if_given req.phrase current.phrase) (if_given (given_mode req.mode) current.mode))
    file_id ← lift (updated_file req.file_url)
    scoped_ids ← on_tables any_error (list_trigger_instance_ids faults id)
    on_tables write_error
        (update_trigger_by_user out.same_phrase faults (update_of caller req id file_id))
    invalidate_scopes scoped_ids

  unfoldable pub delete_trigger_handler :
      Context User → Option Text → Effect TriggerServer CallError (Unit {0})
  unfolding caller_user resolve_trigger_id list_trigger_instance_ids soft_delete_trigger_by_user
  delete_trigger_handler ctx request_id = do
    caller ← lift (caller_user ctx)
    raw ← get_or_fail invalid_argument request_id
    id ← resolve_trigger_id faults raw
    scoped_ids ← on_tables any_error (list_trigger_instance_ids faults id)
    on_tables read_error (soft_delete_trigger_by_user faults id caller.id)
    invalidate_scopes scoped_ids
