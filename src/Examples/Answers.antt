-- ===== src/Examples/Answers.antt =====
-- The trigger service at concrete servers and requests.
use gin_bot.Base.{ℕ, ◌≡◌, refl, true, false, List, [], ◌∷◌, none, some, list_beq}
use gin_bot.Base.Dict.{get}
use gin_bot.Base.Table.{any_where}
use gin_bot.Base.Effect.{◌>>=◌, ◌>>◌}
use gin_bot.Base.Int.{pos}
use gin_bot.Base.Result.{ok}
use gin_bot.Base.Text.{Text, codes}
use gin_bot.Access.{discord}
use gin_bot.Access.Clearance.{Context}
use gin_bot.Service.{User}
use gin_bot.Service.Triggers.{
  TriggerInstance, TriggerServer, Outside, TryTriggerReq, TryTriggerResp, CreateTriggerReq,
}
use gin_bot.Service.Triggers.Coherence.{IsSound, healthy}
use gin_bot.Command.Bind.{parse_int}
use gin_bot.Service.Triggers.Exec.{exec_trigger-IsLocal}
use gin_bot.Service.Triggers.Answer.{try_trigger-IsLocal}
use gin_bot.Service.Triggers.Calls.{try_trigger, exec_trigger}
use gin_bot.Service.Triggers.Handlers.{caller_origin_instance_id}
use gin_bot.Service.Triggers.Local.{IsLocal}
use gin_bot.Service.Triggers.Run.{Request, tries, creates, deletes, run, run-IsSound}
use gin_bot.Trigger.{any}
use gin_bot.Trigger.Pattern.{Engine}
use gin_bot.Trigger.Select.{Roller}
use gin_bot.Trigger.Table.{Faults, Row}

-- An engine whose patterns match every text.
abbrev any_engine : Engine
any_engine = record {
  quote_meta = λ s. s;
  compile_regexp = λ s. some (λ message. true);
  is_class_rune = λ r. false;
}

abbrev outside : Outside Text
outside = record {
  engine = any_engine;
  same_phrase = list_beq;
  instance_by_meta = λ platform meta. ok 7;
  store_file = λ url. ok url;
  load_file = λ id. ok id;
  live_instance = λ i. none;
}

abbrev gin : User
gin = record { id = codes "gin"; clearance = pos 10 }

abbrev as_gin : Context User
as_gin = record {
  caller = some gin;
  meta = some (record { platform_enum = discord; platform_uid = some (codes "1") });
  origin = some (record { instance_uid = codes "guild"; destination_uid = codes "channel" });
}

abbrev tea : Row
tea = record {
  id = codes "a";
  ref = 1;
  phrase = codes "tea";
  reply = some (codes "hot");
  file_id = none;
  user_id = some (codes "gin");
  chance = pos 100;
  mode = any;
  deleted = false;
}

abbrev server : TriggerServer
server = record {
  tables = record {
    triggers = tea ∷ [];
    scopes = (codes "a", 7) ∷ [];
    next_ref = 2;
    fire_log = [];
  };
  cache = record { set = [] };
  limiter = record { last = [] };
}

abbrev here : TriggerInstance
here = record { platform_enum = some discord; instance_fields = some [] }

abbrev ask : TryTriggerReq
ask = record { instance_of_call = some here; phrase = codes "tea"; forced = false }

abbrev new_one : CreateTriggerReq
new_one = record {
  phrase = some (codes "rum");
  reply = codes "cold";
  file_url = [];
  mode = none;
  chance = pos 0;
  instances = [];
}

abbrev requests : List (Context User × (Faults × Request))
requests =
    (as_gin, (healthy, tries (λ n. pos 0) (λ n. pos 0) 3 ask))
    ∷ (as_gin, (healthy, creates (codes "b") new_one))
    ∷ (as_gin, (healthy, deletes (some (codes "a"))))
    ∷ []

server-IsSound : IsSound any_engine server
unfolding get any_where
server-IsSound = (λ i cached found. absurd (cc), (refl, tt))

run-IsSound_example : IsSound any_engine (run outside requests server)
run-IsSound_example = run-IsSound outside requests server server-IsSound

abbrev answer : TryTriggerResp Text
answer = record { id = some (codes "a"); reply = some (codes "hot"); file = none }

abbrev zero_roll : Roller
zero_roll n = pos 0

tried : (try_trigger outside healthy as_gin zero_roll zero_roll 3 ask server).1 ≡ ok answer
unfolding try_trigger ◌>>=◌ ◌>>◌ get
tried = refl

try_trigger-IsLocal_example :
    (i : ℕ) × ((caller_origin_instance_id outside as_gin ≡ some i)
      × IsLocal server.tables i (codes "a"))
try_trigger-IsLocal_example =
    try_trigger-IsLocal outside healthy as_gin zero_roll zero_roll 3 ask server answer (codes "a")
      server-IsSound tried refl

executed : (exec_trigger outside healthy as_gin (some (codes "a")) (some here) server).1 ≡ ok answer
unfolding exec_trigger ◌>>=◌ ◌>>◌ parse_int
executed = refl

exec_trigger-IsLocal_example :
    (i : ℕ) × ((caller_origin_instance_id outside as_gin ≡ some i)
      × IsLocal server.tables i (codes "a"))
exec_trigger-IsLocal_example =
    exec_trigger-IsLocal outside healthy as_gin (some (codes "a")) (some here) server answer
      (codes "a") executed refl
