-- ===== src/Service/Triggers/Kept.antt =====
-- pkg/grpc/server/trigger.go: the cache and the table through each handler.
use gin_bot.Base.{ℕ, suc, Bool, true, false, Option, none, some, inl, inr, arith, Bool-cases, zero}
use gin_bot.Base.Effect.{
  return, Preserves, >>=-Preserves, >>-Preserves, read-Preserves, get_or_fail-Preserves,
}
use gin_bot.Base.Int.{ℤ, pos, negsuc}
use gin_bot.Base.Text.{Text}
use gin_bot.Access.Clearance.{Context}
use gin_bot.Command.Bind.{parse_int}
use gin_bot.Service.{User}
use gin_bot.Service.Triggers.{
  TriggerInstance, Outside, TryTriggerReq, CreateTriggerReq, UpdateTriggerReq, load_candidates,
  on_tables, log_attempt, allow_forced, any_error, read_error,
}
use gin_bot.Service.Triggers.Calls.{
  create_params, update_of, fire_trigger, try_allowed, try_forced, try_selected, try_trigger,
  exec_trigger, get_trigger_handler, create_trigger_handler, update_trigger_handler,
  delete_trigger_handler,
}
use gin_bot.Service.Triggers.Coherence.{
  KeepsSound, KeepsSound-IsPreorder, cached_candidates-IsSound,
}
use gin_bot.Service.Triggers.Handlers.{
  resolve_trigger_id, resolve_trigger_number, build_try_trigger_resp,
}
use gin_bot.Service.Triggers.Sound.{delete-IsSound, update-IsSound, create-IsSound}
use gin_bot.Trigger.Pattern.{Engine}
use gin_bot.Trigger.Select.{Candidate, Roller, fires}
use gin_bot.Trigger.Table.{
  Faults, Fire, occurred, called, firing, get_trigger, get_trigger_by_ref,
  list_trigger_instance_ids, get_trigger_instances, record_trigger_fire, actives_of,
  list_active_triggers_by_instance,
}

module _ (engine : Engine) (faults : Faults) where
  get-IsSound :
      (id : Text) → Preserves (KeepsSound engine) (on_tables read_error (get_trigger faults id))
  unfolding get_trigger
  get-IsSound id = read-Preserves _ (KeepsSound-IsPreorder engine) (λ s. ground arith)

  list-IsSound :
      (id : Text)
      → Preserves (KeepsSound engine) (on_tables any_error (list_trigger_instance_ids faults id))
  unfolding list_trigger_instance_ids
  list-IsSound id = read-Preserves _ (KeepsSound-IsPreorder engine) (λ s. ground arith)

  describe-IsSound :
      {I : Type 0} (live_instance : ℕ → Option I) (id : Text)
      → Preserves
          (KeepsSound engine)
          (on_tables any_error (get_trigger_instances live_instance faults id))
  unfolding get_trigger_instances
  describe-IsSound live_instance id =
      read-Preserves _ (KeepsSound-IsPreorder engine) (λ s. ground arith)

  by_ref-IsSound :
      (ref : ℕ)
      → Preserves (KeepsSound engine) (on_tables read_error (get_trigger_by_ref faults ref))
  unfolding get_trigger_by_ref
  by_ref-IsSound ref = read-Preserves _ (KeepsSound-IsPreorder engine) (λ s. ground arith)

  resolve_number-IsSound :
      (raw : Text) (n : Option ℤ)
      → Preserves (KeepsSound engine) (resolve_trigger_number faults raw n)
  resolve_number-IsSound raw none = record { keeps = λ s h. h }
  resolve_number-IsSound raw (some (negsuc n)) = record { keeps = λ s h. h }
  resolve_number-IsSound raw (some (pos zero)) = record { keeps = λ s h. h }
  resolve_number-IsSound raw (some (pos (suc n))) =
      >>=-Preserves _ (λ row. return row.id) (KeepsSound-IsPreorder engine) (by_ref-IsSound (suc n))
        λ row. record { keeps = λ s h. h }

  resolve-IsSound : (raw : Text) → Preserves (KeepsSound engine) (resolve_trigger_id faults raw)
  unfolding resolve_trigger_id
  resolve-IsSound raw = resolve_number-IsSound raw (parse_int raw)

  record_fire-IsSound :
      (fire : Fire) (id actor : Text)
      → Preserves (KeepsSound engine) (log_attempt (record_trigger_fire faults fire id actor))
  unfolding record_trigger_fire load_candidates list_active_triggers_by_instance actives_of
  record_fire-IsSound fire id actor = record {
    keeps = λ s h. elim (Bool-cases (faults firing)) [ inl e ↦ rw e h | inr e ↦ rw e h ];
  }

module _ {File : Type 0} (out : Outside File) (faults : Faults) where
  resp-IsSound :
      (id : Text) → Preserves (KeepsSound out.engine) (build_try_trigger_resp out faults id)
  unfolding build_try_trigger_resp get_trigger
  resp-IsSound id = read-Preserves _ (KeepsSound-IsPreorder out.engine) (λ s. ground arith)

  fire-IsSound :
      (fire : Fire) (id actor : Text)
      → Preserves (KeepsSound out.engine) (fire_trigger out faults fire id actor)
  unfolding fire_trigger
  fire-IsSound fire id actor =
      let order = KeepsSound-IsPreorder out.engine in
      >>=-Preserves _ _ order (resp-IsSound id) λ resp.
        >>-Preserves _ (return resp) order (record_fire-IsSound out.engine faults fire id actor)
          (record { keeps = λ s h. h })

  allowed-IsSound :
      (fire : Fire) (id actor : Text) (permitted : Bool)
      → Preserves (KeepsSound out.engine) (try_allowed out faults fire id actor permitted)
  unfolding try_allowed
  allowed-IsSound fire id actor true = fire-IsSound fire id actor
  allowed-IsSound fire id actor false = record { keeps = λ s h. h }

  allow-IsSound :
      (author : Text) (now : ℕ) → Preserves (KeepsSound out.engine) (allow_forced author now)
  unfolding allow_forced
  allow-IsSound author now = record { keeps = λ s h. h }

  selected-IsSound :
      (found : Option Candidate) (forced : Bool) (roll : Roller) (now : ℕ) (actor : Text)
      → Preserves (KeepsSound out.engine) (try_selected out faults found forced roll now actor)
  unfolding try_selected try_forced
  selected-IsSound none forced roll now actor = record { keeps = λ s h. h }
  selected-IsSound (some c) true roll now actor =
      >>=-Preserves (allow_forced actor now)
        (λ permitted. try_allowed out faults called c.id actor permitted)
        (KeepsSound-IsPreorder out.engine) (allow-IsSound actor now)
        (λ permitted. allowed-IsSound called c.id actor permitted)
  selected-IsSound (some c) false roll now actor =
      allowed-IsSound occurred c.id actor (fires c roll)

  pub try-IsSound :
      (ctx : Context User) (pick_roll fire_roll : Roller) (now : ℕ) (req : TryTriggerReq)
      → Preserves (KeepsSound out.engine) (try_trigger out faults ctx pick_roll fire_roll now req)
  unfolding try_trigger
  try-IsSound ctx pick_roll fire_roll now req =
      let order = KeepsSound-IsPreorder out.engine in
      >>=-Preserves _ _ order (record { keeps = order.stays })
        λ caller.
          >>-Preserves _ _ order (record { keeps = order.stays })
            (>>-Preserves _ _ order (record { keeps = order.stays })
              (>>=-Preserves _ _ order (record { keeps = order.stays })
                λ instance_id.
                  >>=-Preserves _ _ order (cached_candidates-IsSound out.engine faults instance_id)
                    λ found. selected-IsSound _ req.forced fire_roll now caller.id))

  pub exec-IsSound :
      (ctx : Context User) (id : Option Text) (requested : Option TriggerInstance)
      → Preserves (KeepsSound out.engine) (exec_trigger out faults ctx id requested)
  unfolding exec_trigger
  exec-IsSound ctx id requested =
      let order = KeepsSound-IsPreorder out.engine in
      >>=-Preserves _ _ order (record { keeps = order.stays })
        λ caller. >>=-Preserves _ _ order (get_or_fail-Preserves _ _ order) λ raw.
          >>-Preserves _ _ order (record { keeps = order.stays })
            (>>=-Preserves _ _ order (record { keeps = order.stays })
              λ instance_id. >>=-Preserves _ _ order (resolve-IsSound out.engine faults raw) λ key.
                >>=-Preserves _ _ order (get-IsSound out.engine faults key) λ row.
                  >>=-Preserves _ _ order (list-IsSound out.engine faults row.id) λ ids.
                    >>-Preserves _ _ order (record { keeps = order.stays })
                      (fire-IsSound called row.id caller.id))

  pub get_handler-IsSound :
      (ctx : Context User) (id : Option Text)
      → Preserves (KeepsSound out.engine) (get_trigger_handler out faults ctx id)
  unfolding get_trigger_handler
  get_handler-IsSound ctx id =
      let order = KeepsSound-IsPreorder out.engine in
      >>=-Preserves _ _ order (record { keeps = order.stays })
        λ caller. >>=-Preserves _ _ order (get_or_fail-Preserves _ _ order) λ raw.
          >>=-Preserves _ _ order (resolve-IsSound out.engine faults raw) λ key.
            >>=-Preserves _ _ order (get-IsSound out.engine faults key) λ row.
              >>=-Preserves _ _ order (list-IsSound out.engine faults row.id) λ ids.
                >>-Preserves _ _ order (record { keeps = order.stays })
                  (>>=-Preserves _ _ order (record { keeps = order.stays })
                    λ file.
                      >>=-Preserves _ (λ described. return (row, (file, described))) order
                        (describe-IsSound out.engine faults out.live_instance row.id)
                        λ described. record { keeps = order.stays })

  pub create_handler-IsSound :
      (ctx : Context User) (uuid : Text) (req : CreateTriggerReq)
      → Preserves (KeepsSound out.engine) (create_trigger_handler out faults ctx uuid req)
  unfolding create_trigger_handler
  create_handler-IsSound ctx uuid req =
      let order = KeepsSound-IsPreorder out.engine in
      >>=-Preserves _ _ order (record { keeps = order.stays })
        λ caller.
          >>-Preserves _ _ order (record { keeps = order.stays })
            (>>-Preserves _ _ order (record { keeps = order.stays })
              (>>-Preserves _ _ order (record { keeps = order.stays })
                (>>-Preserves _ _ order (record { keeps = order.stays })
                  (>>-Preserves _ _ order (record { keeps = order.stays })
                    (>>=-Preserves _ _ order (record { keeps = order.stays })
                      λ file_id.
                        >>=-Preserves _ _ order (record { keeps = order.stays })
                          λ ids.
                            create-IsSound out.engine out.same_phrase faults uuid
                              (create_params caller req file_id ids))))))

  pub update_handler-IsSound :
      (ctx : Context User) (req : UpdateTriggerReq)
      → Preserves (KeepsSound out.engine) (update_trigger_handler out faults ctx req)
  unfolding update_trigger_handler
  update_handler-IsSound ctx req =
      let order = KeepsSound-IsPreorder out.engine in
      >>=-Preserves _ _ order (record { keeps = order.stays })
        λ caller. >>=-Preserves _ _ order (get_or_fail-Preserves _ _ order) λ raw.
          >>=-Preserves _ _ order (resolve-IsSound out.engine faults raw) λ key.
            >>=-Preserves _ _ order (get-IsSound out.engine faults key) λ current.
              >>-Preserves _ _ order (record { keeps = order.stays })
                (>>-Preserves _ _ order (record { keeps = order.stays })
                  (>>-Preserves _ _ order (record { keeps = order.stays })
                    (>>=-Preserves _ _ order (record { keeps = order.stays })
                      λ file_id.
                        update-IsSound out.engine out.same_phrase faults
                          (update_of caller req key file_id))))

  pub delete_handler-IsSound :
      (ctx : Context User) (id : Option Text)
      → Preserves (KeepsSound out.engine) (delete_trigger_handler out faults ctx id)
  unfolding delete_trigger_handler
  delete_handler-IsSound ctx id =
      let order = KeepsSound-IsPreorder out.engine in
      >>=-Preserves _ _ order (record { keeps = order.stays })
        λ caller. >>=-Preserves _ _ order (get_or_fail-Preserves _ _ order) λ raw.
          >>=-Preserves _ _ order (resolve-IsSound out.engine faults raw)
            λ key. delete-IsSound out.engine faults key caller.id
