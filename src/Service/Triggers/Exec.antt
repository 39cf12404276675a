-- ===== src/Service/Triggers/Exec.antt =====
-- pkg/grpc/server/trigger.go: what a successful ExecTrigger has answered with.
use gin_bot.Base.{
  ℕ, zero, suc, ◌==◌, ◌≡◌, refl, subst, ap, ◌∙◌, Bool, true, false, not, List, [], ◌∷◌, Option,
  none, some, inl, inr, arith, Bool-cases, list_beq,
}
use gin_bot.Base.Effect.{
  Effect, ◌>>=◌, ◌>>◌, return, continue_with, get_or_fail, stop_if, >>=-ok, >>-ok, map_error-ok,
}
use gin_bot.Base.Int.{ℤ, pos, negsuc}
use gin_bot.Base.Result.{Result, ok, err}
use gin_bot.Base.Table.{any_where, find_where}
use gin_bot.Base.Text.{Text}
use gin_bot.Access.{invalid_argument, not_found}
use gin_bot.Access.Clearance.{Context}
use gin_bot.Command.Bind.{parse_int}
use gin_bot.Service.{User}
use gin_bot.Service.Triggers.{
  TriggerInstance, TriggerServer, Outside, TryTriggerResp, any_error, read_error, on_tables,
}
use gin_bot.Service.Triggers.Calls.{exec_trigger, fire_trigger}
use gin_bot.Service.Triggers.Handlers.{
  caller_scoped_instance, caller_origin_instance_id, resolve_trigger_id, resolve_trigger_number,
}
use gin_bot.Service.Triggers.Local.{IsLocal}
use gin_bot.Service.Triggers.Answer.{fire-id, scoped-origin, find_live}
use gin_bot.Trigger.Table.{
  Row, Tables, Faults, called, getting, getting_by_ref, is_live, is_among, has_scope, instances_of,
  get_trigger, get_trigger_by_ref, list_trigger_instance_ids,
}

get_or_fail-same : {S E A : Type 0} (e : E) (o : Option A) (s : S) → (get_or_fail e o s).0 ≡ s
get_or_fail-same e none s = refl
get_or_fail-same e (some a) s = refl

get_trigger-same : (faults : Faults) (key : Text) (s : Tables) → (get_trigger faults key s).0 ≡ s
unfolding get_trigger
get_trigger-same faults key s = elim (Bool-cases (faults getting)) [
  | inl e ↦ rw e refl
  | inr e ↦ rw e refl
]

by_ref-same : (faults : Faults) (ref : ℕ) (s : Tables) → (get_trigger_by_ref faults ref s).0 ≡ s
unfolding get_trigger_by_ref
by_ref-same faults ref s = elim (Bool-cases (faults getting_by_ref)) [
  | inl e ↦ rw e refl
  | inr e ↦ rw e refl
]

live_row :
    (key : Text) (rows : List Row) (row : Row)
    → find_where (is_live key) rows ≡ some row
    → any_where (is_live key) rows ≡ true
unfolding find_where any_where
live_row key [] row e = absurd (cc)
live_row key (q ∷ rows) row e = elim (Bool-cases (is_live key q)) [
  | inl hit ↦ ground arith
  | inr missed ↦ let later = live_row key rows row (rw missed at e) in ground arith
]

get_trigger-IsLive :
    (faults : Faults) (key : Text) (s : Tables) (row : Row)
    → (get_trigger faults key s).1 ≡ ok row
    → (row.id ≡ key) × (any_where (is_live key) s.triggers ≡ true)
unfolding get_trigger
get_trigger-IsLive faults key s row e =
    let found : find_where (is_live key) s.triggers ≡ some row = ground arith in
    (find_live key s.triggers row found, live_row key s.triggers row found)

among_scopes :
    (id : Text) (i : ℕ) (scopes : List (Text × ℕ))
    → is_among i (instances_of id scopes) ≡ true
    → has_scope id i scopes ≡ true
unfolding instances_of
among_scopes id i [] h = absurd (cc)
among_scopes id i ((t, j) ∷ scopes) h = elim (Bool-cases (list_beq t id)) [
  | inl same ↦ elim (Bool-cases (j == i)) [
    | inl here ↦ ground arith
    | inr there ↦ let later = among_scopes id i scopes (ground arith) in ground arith
  ]
  | inr other ↦ let later = among_scopes id i scopes (rw other at h) in ground arith
]

listed_ids :
    (faults : Faults) (id : Text) (s : Tables) (ids : List ℕ)
    → (list_trigger_instance_ids faults id s).1 ≡ ok ids
    → ids ≡ instances_of id s.scopes
unfolding list_trigger_instance_ids
listed_ids faults id s ids e = ground arith

ended-same :
    {S E A B : Type 0} (f : A → B) (p : S × Result E A)
    → (continue_with (λ a. return (f a)) p).0 ≡ p.0
ended-same f (s, ok a) = refl
ended-same f (s, err e) = refl

resolve_number-same :
    (faults : Faults) (raw : Text) (n : Option ℤ) (s : TriggerServer)
    → (resolve_trigger_number faults raw n s).0.tables ≡ s.tables
unfolding ◌>>=◌
resolve_number-same faults raw none s = refl
resolve_number-same faults raw (some (negsuc n)) s = refl
resolve_number-same faults raw (some (pos zero)) s = refl
resolve_number-same faults raw (some (pos (suc n))) s =
    ap (λ (t : TriggerServer). t.tables) (ended-same (λ row. row.id) _)
    ∙ by_ref-same faults (suc n) s.tables

resolve-same :
    (faults : Faults) (raw : Text) (s : TriggerServer)
    → (resolve_trigger_id faults raw s).0.tables ≡ s.tables
unfolding resolve_trigger_id
resolve-same faults raw s = resolve_number-same faults raw (parse_int raw) s

stop_if-passed :
    {S E A : Type 0} (b : Bool) (e : E) (next : Effect S E A) (s : S) (a : A)
    → ((stop_if (not b) e >> next) s).1 ≡ ok a
    → b ≡ true
unfolding ◌>>◌
stop_if-passed true e next s a h = refl
stop_if-passed false e next s a h = absurd (cc)

module _ {File : Type 0} (out : Outside File) (faults : Faults) where
  -- The call behind the resolved id.
  called-IsLocal :
      (actor key : Text) (i : ℕ) (s : TriggerServer) (resp : TryTriggerResp File) (id : Text)
      → ((on_tables read_error (get_trigger faults key) >>= λ row.
            on_tables any_error (list_trigger_instance_ids faults row.id) >>= λ ids.
            stop_if (not (is_among i ids)) not_found >> fire_trigger out faults called row.id actor)
          s).1
        ≡ ok resp
      → resp.id ≡ some id
      → IsLocal s.tables i id
  called-IsLocal actor key i s resp id e h =
      let (row, (read, listed)) =
        >>=-ok (on_tables read_error (get_trigger faults key)) _ s resp e in
      let (ids, (held, checked)) =
        >>=-ok (on_tables any_error (list_trigger_instance_ids faults row.id)) _ _ resp listed in
      let among = stop_if-passed (is_among i ids) not_found _ _ resp checked in
      let fired = >>-ok _ _ _ resp checked in
      let same = fire-id out faults called row.id actor _ resp id fired h in
      let (is_key, live) =
        get_trigger-IsLive faults key s.tables row (map_error-ok read_error _ row read) in
      let still = get_trigger-same faults key s.tables in
      let every = listed_ids faults row.id _ ids (map_error-ok any_error _ ids held) in
      let scoped : has_scope row.id i s.tables.scopes ≡ true =
        among_scopes row.id i s.tables.scopes (rw (← still) (rw every at among)) in
      (rw (← same) scoped, rw (← same, is_key) live)

  -- The steps from the scope on.
  resolved-IsLocal :
      (actor raw : Text) (i : ℕ) (s : TriggerServer) (resp : TryTriggerResp File) (id : Text)
      → ((resolve_trigger_id faults raw >>= λ key.
            on_tables read_error (get_trigger faults key) >>= λ row.
            on_tables any_error (list_trigger_instance_ids faults row.id) >>= λ ids.
            stop_if (not (is_among i ids)) not_found >> fire_trigger out faults called row.id actor)
          s).1
        ≡ ok resp
      → resp.id ≡ some id
      → IsLocal s.tables i id
  resolved-IsLocal actor raw i s resp id e h =
      let (key, (resolved, got)) = >>=-ok (resolve_trigger_id faults raw) _ s resp e in
      rw (← resolve-same faults raw s) (called-IsLocal actor key i _ resp id got h)

-- When ExecTrigger answers with a trigger, the caller's origin is a known instance, the trigger is
-- live and it is scoped to that instance: whatever id or ref and whatever instance the request
-- names, and whatever the database fails at, nobody calls a trigger of another instance.
pub exec_trigger-IsLocal :
    {File : Type 0} (out : Outside File) (faults : Faults) (ctx : Context User)
    (request_id : Option Text) (requested : Option TriggerInstance) (s : TriggerServer)
    (resp : TryTriggerResp File) (id : Text)
    → (exec_trigger out faults ctx request_id requested s).1 ≡ ok resp
    → resp.id ≡ some id
    → (i : ℕ) × ((caller_origin_instance_id out ctx ≡ some i) × IsLocal s.tables i id)
unfolding exec_trigger caller_scoped_instance
exec_trigger-IsLocal out faults ctx request_id requested s resp id e h =
    let (caller, (who, known)) = >>=-ok _ _ s resp e in
    let (raw, (given, named)) = >>=-ok _ _ s resp known in
    let worded = >>-ok _ _ _ resp named in
    let (i, (scoped, asked)) = >>=-ok _ _ _ resp worded in
    let local = resolved-IsLocal out faults caller.id raw i _ resp id asked h in
    (
      i,
      (
        scoped-origin out (caller_origin_instance_id out ctx) requested i scoped,
        subst (λ (t : TriggerServer). IsLocal t.tables i id)
            (get_or_fail-same invalid_argument request_id s) local,
      ),
    )
