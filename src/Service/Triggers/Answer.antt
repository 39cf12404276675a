-- ===== src/Service/Triggers/Answer.antt =====
-- pkg/grpc/server/trigger.go: what a successful TryTrigger has answered with.
use gin_bot.Base.{
  ℕ, ◌≡◌, refl, sym, ap, ◌∙◌, Bool, true, false, List, [], ◌∷◌, Option, none, some, inl, inr, arith,
  Bool-cases, list_beq_iff, take, All,
}
use gin_bot.Base.Effect.{return, >>=-ok, >>-ok, map_error-ok}
use gin_bot.Base.Result.{Result, ok, err}
use gin_bot.Base.Table.{find_where}
use gin_bot.Base.Text.{Text}
use gin_bot.Access.{CallError}
use gin_bot.Access.Clearance.{Context}
use gin_bot.Service.{User}
use gin_bot.Service.Triggers.{
  TriggerInstance, TriggerServer, Outside, TryTriggerResp, TryTriggerReq, cached_candidates,
  load_candidates, compile_all, any_error, allow_forced,
}
use gin_bot.Service.Triggers.Calls.{
  fire_trigger, try_allowed, try_forced, try_selected, try_trigger,
}
use gin_bot.Service.Triggers.Coherence.{IsSound, healthy, fresh_load}
use gin_bot.Service.Triggers.Handlers.{
  build_try_trigger_resp, resp_of, row_resp, file_resp, caller_scoped_instance, scoped_to,
  caller_origin_instance_id, same_instance, resolve_instance,
}
use gin_bot.Service.Triggers.Local.{IsLocal, All-Elem, All-take, compiled-IsLocal}
use gin_bot.Trigger.{max_candidates}
use gin_bot.Trigger.Pattern.{Engine}
use gin_bot.Trigger.Cache.{candidates-found}
use gin_bot.Trigger.Select.{Candidate, Roller, select, fires}
use gin_bot.Trigger.Select.Choice.{select_sound}
use gin_bot.Trigger.Table.{
  Row, Tables, TableError, missing, phrase_taken, unavailable, Faults, Fire, occurred, called,
  is_live, get_trigger, list_active_triggers_by_instance, actives_of,
}

pub find_live :
    (key : Text) (rows : List Row) (row : Row)
    → find_where (is_live key) rows ≡ some row
    → row.id ≡ key
unfolding find_where
find_live key [] row e = absurd (cc)
find_live key (q ∷ rows) row e = elim (Bool-cases (is_live key q)) [
  | inl hit ↦
      let same : q ≡ row = ground arith in
      let is_key = (list_beq_iff q.id key).0 (ground arith) in (ap (λ r. r.id) (sym same) ∙ is_key)
  | inr missed ↦ find_live key rows row (rw missed at e)
]

pub ok-eq :
    {E A : Type 0} (outcome : Result E A) {a b : A} → outcome ≡ ok a → outcome ≡ ok b → a ≡ b
ok-eq outcome e h = cc

module _ {File : Type 0} (out : Outside File) where
  file_resp-id :
      (id : Text) (file : Result CallError File) (resp : TryTriggerResp File) (answer : Text)
      → file_resp out id file ≡ ok resp
      → resp.id ≡ some answer
      → id ≡ answer
  file_resp-id id (ok file) resp answer e h = ground arith
  file_resp-id id (err f) resp answer e h = absurd (cc)

  row_resp-id :
      (row : Row) (reply file : Option Text) (resp : TryTriggerResp File) (answer : Text)
      → row_resp out row reply file ≡ ok resp
      → resp.id ≡ some answer
      → row.id ≡ answer
  row_resp-id row (some (c ∷ reply)) file resp answer e h = ground arith
  row_resp-id row none (some (c ∷ file)) resp answer e h =
      file_resp-id row.id (out.load_file (c ∷ file)) resp answer e h
  row_resp-id row (some []) (some (c ∷ file)) resp answer e h =
      file_resp-id row.id (out.load_file (c ∷ file)) resp answer e h
  row_resp-id row none none resp answer e h = absurd (ground arith)
  row_resp-id row (some []) none resp answer e h = absurd (ground arith)
  row_resp-id row none (some []) resp answer e h = absurd (ground arith)
  row_resp-id row (some []) (some []) resp answer e h = absurd (ground arith)

  resp_of-id :
      (key : Text) (found : Result TableError Row) (resp : TryTriggerResp File) (answer : Text)
      → ((row : Row) → found ≡ ok row → row.id ≡ key)
      → resp_of out found ≡ ok resp
      → resp.id ≡ some answer
      → key ≡ answer
  resp_of-id key (ok row) resp answer same e h =
      sym (same row refl) ∙ row_resp-id row row.reply row.file_id resp answer e h
  resp_of-id key (err missing) resp answer same e h = absurd (ground arith)
  resp_of-id key (err phrase_taken) resp answer same e h = absurd (cc)
  resp_of-id key (err unavailable) resp answer same e h = absurd (cc)

  get_trigger-id :
      (faults : Faults) (key : Text) (s : Tables) (row : Row)
      → (get_trigger faults key s).1 ≡ ok row
      → row.id ≡ key
  unfolding get_trigger
  get_trigger-id faults key s row e = find_live key s.triggers row (ground arith)

  build-id :
      (faults : Faults) (key : Text) (s : TriggerServer) (resp : TryTriggerResp File)
      (answer : Text)
      → (build_try_trigger_resp out faults key s).1 ≡ ok resp
      → resp.id ≡ some answer
      → key ≡ answer
  unfolding build_try_trigger_resp
  build-id faults key s resp answer e h =
      resp_of-id key (get_trigger faults key s.tables).1 resp answer
        (λ row. get_trigger-id faults key s.tables row) e h

  pub fire-id :
      (faults : Faults) (fire : Fire) (key actor : Text) (s : TriggerServer)
      (resp : TryTriggerResp File) (answer : Text)
      → (fire_trigger out faults fire key actor s).1 ≡ ok resp
      → resp.id ≡ some answer
      → key ≡ answer
  unfolding fire_trigger
  fire-id faults fire key actor s resp answer e h =
      let (built, (made, logged)) = >>=-ok (build_try_trigger_resp out faults key) _ s resp e in
      let same : built ≡ resp = ok-eq (ok built) refl (>>-ok _ (return built) _ resp logged) in
      build-id faults key s built answer made (rw same h)

  allowed-id :
      (faults : Faults) (fire : Fire) (key actor : Text) (permitted : Bool) (s : TriggerServer)
      (resp : TryTriggerResp File) (answer : Text)
      → (try_allowed out faults fire key actor permitted s).1 ≡ ok resp
      → resp.id ≡ some answer
      → key ≡ answer
  unfolding try_allowed
  allowed-id faults fire key actor true s resp answer e h =
      fire-id faults fire key actor s resp answer e h
  allowed-id faults fire key actor false s resp answer e h = absurd (ground arith)

  selected-id :
      (faults : Faults) (found : Option Candidate) (forced : Bool) (roll : Roller) (now : ℕ)
      (actor : Text) (s : TriggerServer) (resp : TryTriggerResp File) (answer : Text)
      → (try_selected out faults found forced roll now actor s).1 ≡ ok resp
      → resp.id ≡ some answer
      → (c : Candidate) × ((found ≡ some c) × (c.id ≡ answer))
  unfolding try_selected try_forced
  selected-id faults none forced roll now actor s resp answer e h = absurd (ground arith)
  selected-id faults (some c) true roll now actor s resp answer e h =
      let (permitted, (asked, rest)) =
        >>=-ok (allow_forced actor now)
          (λ permitted. try_allowed out faults called c.id actor permitted) s resp e in
      (c, (refl, allowed-id faults called c.id actor permitted _ resp answer rest h))
  selected-id faults (some c) false roll now actor s resp answer e h =
      (c, (refl, allowed-id faults occurred c.id actor (fires c roll) s resp answer e h))

-- What a handler finds in the cache is what the table holds.
cached-found :
    (engine : Engine) (faults : Faults) (i : ℕ) (s : TriggerServer) (found : List Candidate)
    → IsSound engine s
    → (cached_candidates engine faults i s).1 ≡ ok found
    → load_candidates engine healthy s.tables i ≡ ok found
unfolding cached_candidates
cached-found engine faults i s found sound e =
    candidates-found (load_candidates engine healthy s.tables)
      (load_candidates engine faults s.tables) s.cache i found sound.0
      (λ loaded. fresh_load engine faults s.tables i loaded) (map_error-ok any_error _ found e)

found-IsLocal :
    (engine : Engine) (s : Tables) (i : ℕ) (found : List Candidate)
    → load_candidates engine healthy s i ≡ ok found
    → All (λ c. IsLocal s i c.id) found
unfolding load_candidates list_active_triggers_by_instance
found-IsLocal engine s i found e =
    let same : compile_all engine (actives_of i s) ≡ found =
      ok-eq (load_candidates engine healthy s i) refl e in
    rw (← same) (compiled-IsLocal engine s i)

same_instance-origin :
    {File : Type 0} (out : Outside File) (j : ℕ) (requested : Result CallError ℕ) (i : ℕ)
    → same_instance out j requested ≡ ok i
    → some j ≡ some i
same_instance-origin out j (err f) i e = absurd (cc)
same_instance-origin out j (ok k) i e = ground arith

-- A request for an instance is served for the origin only.
pub scoped-origin :
    {File : Type 0} (out : Outside File) (origin : Option ℕ) (requested : Option TriggerInstance)
    (i : ℕ)
    → scoped_to out origin requested ≡ ok i
    → origin ≡ some i
unfolding scoped_to
scoped-origin out none requested i e = absurd (cc)
scoped-origin out (some j) none i e = ground arith
scoped-origin out (some j) (some requested) i e =
    same_instance-origin out j (resolve_instance out requested) i e

-- From a sound server, where each cached set is what the database would load, when TryTrigger
-- answers with a trigger, the caller's origin is a known instance, the trigger is live and it is
-- scoped to that instance: whatever the request names, the rollers return and the database fails
-- at, no trigger of another instance is answered with.
pub try_trigger-IsLocal :
    {File : Type 0} (out : Outside File) (faults : Faults) (ctx : Context User)
    (pick_roll fire_roll : Roller) (now : ℕ) (req : TryTriggerReq) (s : TriggerServer)
    (resp : TryTriggerResp File) (id : Text)
    → IsSound out.engine s
    → (try_trigger out faults ctx pick_roll fire_roll now req s).1 ≡ ok resp
    → resp.id ≡ some id
    → (i : ℕ) × ((caller_origin_instance_id out ctx ≡ some i) × IsLocal s.tables i id)
unfolding try_trigger caller_scoped_instance cached_candidates
try_trigger-IsLocal out faults ctx pick_roll fire_roll now req s resp id sound e h =
    let (caller, (who, known)) = >>=-ok _ _ s resp e in
    let named = >>-ok _ _ s resp known in
    let worded = >>-ok _ _ s resp named in
    let (i, (scoped, listed)) = >>=-ok _ _ s resp worded in
    let (found, (held, chosen)) = >>=-ok _ _ s resp listed in
    let (c, (picked, same)) =
      selected-id out faults (select req.phrase found pick_roll) req.forced fire_roll now caller.id
        _ resp id chosen h in
    let local =
      All-Elem (λ d. IsLocal s.tables i d.id) (take max_candidates found) c
        (All-take (λ d. IsLocal s.tables i d.id) max_candidates found
          (found-IsLocal out.engine s.tables i found
            (cached-found out.engine faults i s found sound held)))
        (select_sound req.phrase found pick_roll picked).0 in
    (
      i,
      (
        scoped-origin out (caller_origin_instance_id out ctx) req.instance_of_call i scoped,
        rw (← same) local,
      ),
    )
