-- ===== src/Service/Triggers/Run.antt =====
-- pkg/grpc/server/trigger.go: the requests of the trigger service in the order in which they reach
-- the server, each with the faults of the database that it meets.
use gin_bot.Base.{ℕ, List, [], ◌∷◌, Option}
use gin_bot.Base.Text.{Text}
use gin_bot.Access.Clearance.{Context}
use gin_bot.Service.{User}
use gin_bot.Service.Triggers.{
  TriggerInstance, TriggerServer, Outside, TryTriggerReq, CreateTriggerReq, UpdateTriggerReq,
}
use gin_bot.Service.Triggers.Calls.{
  try_trigger, exec_trigger, get_trigger_handler, create_trigger_handler, update_trigger_handler,
  delete_trigger_handler,
}
use gin_bot.Service.Triggers.Coherence.{IsSound}
use gin_bot.Service.Triggers.Kept.{
  try-IsSound, exec-IsSound, get_handler-IsSound, create_handler-IsSound, update_handler-IsSound,
  delete_handler-IsSound,
}
use gin_bot.Trigger.Select.{Roller}
use gin_bot.Trigger.Table.{Faults}

-- A request, with the rollers, the clock's reading or the generated id that its handler uses.
pub data Request : Type 0 where
  tries : Roller → Roller → ℕ → TryTriggerReq → Request
  executes : Option Text → Option TriggerInstance → Request
  gets : Option Text → Request
  creates : Text → CreateTriggerReq → Request
  updates : UpdateTriggerReq → Request
  deletes : Option Text → Request

module _ {File : Type 0} (out : Outside File) where
  unfoldable pub answered : Context User → Faults → Request → TriggerServer → TriggerServer
  unfolding try_trigger exec_trigger get_trigger_handler create_trigger_handler
      update_trigger_handler delete_trigger_handler
  answered ctx faults (tries pick_roll fire_roll now req) s =
      (try_trigger out faults ctx pick_roll fire_roll now req s).0
  answered ctx faults (executes id requested) s = (exec_trigger out faults ctx id requested s).0
  answered ctx faults (gets id) s = (get_trigger_handler out faults ctx id s).0
  answered ctx faults (creates uuid req) s = (create_trigger_handler out faults ctx uuid req s).0
  answered ctx faults (updates req) s = (update_trigger_handler out faults ctx req s).0
  answered ctx faults (deletes id) s = (delete_trigger_handler out faults ctx id s).0

  unfoldable pub run : List (Context User × (Faults × Request)) → TriggerServer → TriggerServer
  unfolding answered
  run [] s = s
  run ((ctx, (faults, request)) ∷ later) s = run later (answered ctx faults request s)

  answered-IsSound :
      (ctx : Context User) (faults : Faults) (request : Request) (s : TriggerServer)
      → IsSound out.engine s
      → IsSound out.engine (answered ctx faults request s)
  unfolding answered
  answered-IsSound ctx faults (tries pick_roll fire_roll now req) s h =
      (try-IsSound out faults ctx pick_roll fire_roll now req).keeps s h
  answered-IsSound ctx faults (executes id requested) s h =
      (exec-IsSound out faults ctx id requested).keeps s h
  answered-IsSound ctx faults (gets id) s h = (get_handler-IsSound out faults ctx id).keeps s h
  answered-IsSound ctx faults (creates uuid req) s h =
      (create_handler-IsSound out faults ctx uuid req).keeps s h
  answered-IsSound ctx faults (updates req) s h =
      (update_handler-IsSound out faults ctx req).keeps s h
  answered-IsSound ctx faults (deletes id) s h =
      (delete_handler-IsSound out faults ctx id).keeps s h

  -- From a sound server, every run of requests by any callers, with any faults of the database,
  -- ends in a sound one: a cached candidate set is what a load without faults returns, and every
  -- scope belongs to a trigger.
  pub run-IsSound :
      (requests : List (Context User × (Faults × Request))) (s : TriggerServer)
      → IsSound out.engine s
      → IsSound out.engine (run requests s)
  unfolding run
  run-IsSound [] s h = h
  run-IsSound ((ctx, (faults, request)) ∷ later) s h =
      run-IsSound later (answered ctx faults request s) (answered-IsSound ctx faults request s h)
