-- ===== src/Service/Triggers.antt =====
-- pkg/grpc/server/trigger.go: the handlers that match, run and change triggers. A request's field is
-- none where the source's HasX is false. Parameters are the regular-expression engine, the
-- comparison of phrases, the table of instances, the file storage, the roller and the clock.
pub mod Handlers
pub mod Calls
pub mod Coherence
pub mod Sound
pub mod Kept
pub mod Run
pub mod Local
pub mod Answer
pub mod Exec
use gin_bot.Base.{
  ℕ, suc, ◌==◌, Bool, true, false, not, ◌&&◌, ◌||◌, List, [], ◌∷◌, Option, none, some,
  if◌then◌else◌,
}
use gin_bot.Base.Dict.{Dict}
use gin_bot.Base.Effect.{
  Effect, ◌>>=◌, ◌>>◌, return, lift, stop_if, get_or_fail, map_error, with_error, best_effort,
}
use gin_bot.Base.Int.{ℤ, pos, negsuc, ltb_ℤ}
use gin_bot.Base.Result.{Result, ok, err}
use gin_bot.Base.Text.{Text, codes}
use gin_bot.Access.{
  Platform, Origin, Caller, CallError, invalid_argument, failed_precondition, permission_denied,
  already_exists, not_found, internal,
}
use gin_bot.Access.Clearance.{Context}
use gin_bot.Access.Origins.{instance_meta}
use gin_bot.Command.Bind.{parse_int}
use gin_bot.Service.{User, caller_user, get_metadata}
use gin_bot.Trigger.{Mode, unspecified, any, exact, regex}
use gin_bot.Trigger.Cache.{Cache, candidates, invalidate}
use gin_bot.Trigger.Limiter.{ForcedLimiter, allow}
use gin_bot.Trigger.Pattern.{Engine, PatternError, compile}
use gin_bot.Trigger.Select.{Candidate, Roller, select, fires}
use gin_bot.Trigger.Table.{
  Row, Tables, TableError, missing, phrase_taken, unavailable, Faults, Fire, occurred, called,
  CreateTriggerParams, TriggerUpdate, is_user, create_trigger, update_trigger_by_user,
  soft_delete_trigger_by_user, get_trigger, get_trigger_by_ref, list_trigger_instance_ids,
  list_active_triggers_by_instance, record_trigger_fire, mode_number,
}

abbrev pub regex_clearance_floor : ℤ
regex_clearance_floor = pos 20

pub record TriggerInstance : Type 0 where
  pub platform_enum : Option Platform
  pub instance_fields : Option (Dict Text Text)

-- The database and what the server holds in memory.
pub record TriggerServer : Type 0 where
  pub tables : Tables
  pub cache : Cache (List Candidate)
  pub limiter : ForcedLimiter

pub record Outside (File : Type 0) : Type 0 where
  pub engine : Engine
  pub same_phrase : Text → Text → Bool
  -- The row of an instance that is not deleted, which GetTriggerInstances joins.
  pub live_instance : ℕ → Option TriggerInstance
  pub instance_by_meta : Platform → Dict Text Text → Result TableError ℕ
  -- fetchAndStoreFile and buildTriggerFile
  pub store_file : Text → Result CallError Text
  pub load_file : Text → Result CallError File

pub record TryTriggerResp (File : Type 0) : Type 0 where
  pub id : Option Text
  pub reply : Option Text
  pub file : Option File

pub record TryTriggerReq : Type 0 where
  pub instance_of_call : Option TriggerInstance
  pub phrase : Text
  pub forced : Bool

pub record CreateTriggerReq : Type 0 where
  pub phrase : Option Text
  pub reply : Text
  pub file_url : Text
  pub mode : Option Mode
  pub chance : ℤ
  pub instances : List TriggerInstance

pub record UpdateTriggerReq : Type 0 where
  pub id : Option Text
  pub phrase : Option Text
  pub reply : Option Text
  pub file_url : Option Text
  pub mode : Option Mode
  pub chance : Option ℤ

-- How a handler answers an error of the database.
abbrev pub read_error : TableError → CallError
read_error missing = not_found
read_error _ = internal

abbrev pub write_error : TableError → CallError
write_error missing = not_found
write_error phrase_taken = already_exists
write_error unavailable = internal

abbrev pub create_error : TableError → CallError
create_error phrase_taken = already_exists
create_error _ = internal

abbrev pub any_error : TableError → CallError
any_error _ = internal

abbrev pub bad_pattern : PatternError → CallError
bad_pattern e = invalid_argument

-- A call of the database from a handler.
abbrev pub on_tables :
    {A : Type 0}
    → (TableError → CallError)
    → Effect Tables TableError A
    → Effect TriggerServer CallError A
on_tables f call s = (record s { tables = (call s.tables).0 }, map_error f (call s.tables).1)

abbrev pub log_attempt :
    {A : Type 0} → Effect Tables TableError A → Effect TriggerServer CallError (Unit {0})
log_attempt call s = (record s { tables = (call s.tables).0 }, ok tt)

-- A trigger whose pattern does not compile is left out.
abbrev with_pattern : Row → Result PatternError (Text → Bool) → List Candidate → List Candidate
with_pattern r (err e) rest = rest
with_pattern r (ok pattern) rest =
    record { id = r.id; mode = r.mode; chance = r.chance; pattern = some pattern } ∷ rest

unfoldable pub compile_all : Engine → List Row → List Candidate
unfolding compile
compile_all engine [] = []
compile_all engine (r ∷ rows) =
    with_pattern r (compile engine r.phrase r.mode) (compile_all engine rows)

abbrev map_ok : {A B : Type 0} → (A → B) → Result TableError A → Result TableError B
map_ok f (err e) = err e
map_ok f (ok a) = ok (f a)

unfoldable pub load_candidates : Engine → Faults → Tables → ℕ → Result TableError (List Candidate)
unfolding list_active_triggers_by_instance compile_all
load_candidates engine faults s i =
    map_ok (compile_all engine) (list_active_triggers_by_instance faults i s).1

unfoldable pub cached_candidates :
    Engine → Faults → ℕ → Effect TriggerServer CallError (List Candidate)
unfolding candidates load_candidates
cached_candidates engine faults i s =
    let found = candidates (load_candidates engine faults s.tables) s.cache i in
    (record s { cache = found.0 }, map_error any_error found.1)

abbrev pub invalidate_each : List ℕ → Cache (List Candidate) → Cache (List Candidate)
invalidate_each [] c = c
invalidate_each (i ∷ is) c = invalidate_each is (invalidate c i)

abbrev pub invalidate_scopes : List ℕ → Effect TriggerServer CallError (Unit {0})
invalidate_scopes ids s = (record s { cache = invalidate_each ids s.cache }, ok tt)

unfoldable pub allow_forced : Text → ℕ → Effect TriggerServer CallError Bool
unfolding allow
allow_forced author now s =
    let permitted = allow s.limiter author now in
    (record s { limiter = permitted.0 }, ok permitted.1)
