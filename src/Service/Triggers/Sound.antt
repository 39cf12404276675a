-- ===== src/Service/Triggers/Sound.antt =====
-- pkg/grpc/server/trigger.go: each write of a handler, together with the invalidations behind it.
use gin_bot.Base.{
  ℕ, ◌+◌, ◌≡◌, refl, Bool, true, false, List, [], ◌∷◌, ◌++◌, inl, inr, ◌⊎◌, arith, list_beq,
  Bool-cases,
}
use gin_bot.Base.Effect.{Effect, ◌>>=◌, ◌>>◌, return, Preserves}
use gin_bot.Base.Result.{Result, ok, err}
use gin_bot.Base.Table.{update_where, any_where, update_where-none}
use gin_bot.Base.Text.{Text}
use gin_bot.Access.{CallError}
use gin_bot.Service.Triggers.{
  TriggerServer, on_tables, invalidate_scopes, invalidate_each, any_error, read_error, write_error,
  create_error,
}
use gin_bot.Service.Triggers.Coherence.{
  IsSound, KeepsSound, invalidate_each-IsCoherent, update-IsReferenced, insert-IsReferenced,
  has_scope-fresh,
}
use gin_bot.Trigger.Pattern.{Engine}
use gin_bot.Trigger.Table.{
  Row, Tables, Faults, scoping, deleting, updating, creating, TableError, missing, phrase_taken,
  unavailable, CreateTriggerParams, TriggerUpdate, is_live_own, edit_trigger, breaks_check,
  breaks_index, takes_phrase, is_allowed, new_trigger, insert_row, instances_of, add_scopes,
  create_trigger, update_trigger_by_user, soft_delete_trigger_by_user, list_trigger_instance_ids,
}
use gin_bot.Trigger.Table.Scopes.{actives_of-update, actives_of-insert}

-- The rows of one id change, and the entries of its instances are dropped.
edited-IsSound :
    (engine : Engine) (id : Text) (test : Row → Bool) (change : Row → Row) (s : TriggerServer)
    → ((r : Row) → test r ≡ true → list_beq r.id id ≡ true)
    → ((r : Row) → (change r).id ≡ r.id)
    → IsSound engine s
    → IsSound engine (record s {
      tables = record s.tables { triggers = update_where test change s.tables.triggers };
      cache = invalidate_each (instances_of id s.tables.scopes) s.cache;
    })
edited-IsSound engine id test change s hits keeps (coherent, referenced) = (
  invalidate_each-IsCoherent engine s.tables
      (record s.tables { triggers = update_where test change s.tables.triggers })
      (instances_of id s.tables.scopes) s.cache
      (λ j apart. actives_of-update id test change j s.tables hits keeps apart) coherent,
  update-IsReferenced test change s.tables.triggers s.tables.scopes keeps referenced,
)

List-cases : {A : Type 0} (l : List A) → (l ≡ []) ⊎ ((a : A) × (rest : List A) × (l ≡ a ∷ rest))
List-cases [] = inl refl
List-cases (a ∷ rest) = inr (a, rest, refl)

-- A statement either fails and changes nothing, or succeeds with this result.
abbrev Ends : {A : Type 0} → Tables × Result TableError A → Tables → Tables × A → Type 0
Ends outcome before done =
    ((e : TableError) × (outcome ≡ (before, err e))) ⊎ (outcome ≡ (done.0, ok done.1))

list_ids-Ends :
    (faults : Faults) (id : Text) (s : Tables)
    → Ends (list_trigger_instance_ids faults id s) s (s, instances_of id s.scopes)
unfolding list_trigger_instance_ids
list_ids-Ends faults id s = elim (Bool-cases (faults scoping)) [
  | inl e ↦ rw e (inl (unavailable, refl))
  | inr e ↦ rw e (inr refl)
]

soft_delete-Ends :
    (faults : Faults) (id user : Text) (s : Tables)
    → Ends (soft_delete_trigger_by_user faults id user s) s (
      record s {
        triggers = update_where (is_live_own id user) (λ r. record r { deleted = true }) s.triggers;
      },
      tt,
    )
unfolding soft_delete_trigger_by_user
soft_delete-Ends faults id user s = elim (Bool-cases (faults deleting)) [
  | inl f ↦ rw f (inl (unavailable, refl))
  | inr f ↦ elim (Bool-cases (any_where (is_live_own id user) s.triggers)) [
    | inl some_row ↦ rw (f, some_row) (inr refl)
    | inr no_row ↦
        rw
          (
            f,
            no_row,
            update_where-none (is_live_own id user) (λ r. record r { deleted = true }) s.triggers
                no_row,
          )
          (inl (missing, refl))
  ]
]

update-Ends :
    (same_phrase : Text → Text → Bool) (faults : Faults) (u : TriggerUpdate) (s : Tables)
    → Ends (update_trigger_by_user same_phrase faults u s) s (
      record s { triggers = update_where (is_live_own u.id u.user_id) (edit_trigger u) s.triggers },
      tt,
    )
unfolding update_trigger_by_user
update-Ends same_phrase faults u s = elim (Bool-cases (faults updating)) [
  | inl f ↦ rw f (inl (unavailable, refl))
  | inr f ↦ elim (Bool-cases (any_where (breaks_check same_phrase u) s.triggers)) [
    | inl bad ↦ rw (f, bad) (inl (unavailable, refl))
    | inr good ↦ elim (Bool-cases (any_where (breaks_index same_phrase u s.triggers) s.triggers)) [
      | inl taken ↦ rw (f, good, taken) (inl (phrase_taken, refl))
      | inr free ↦ elim (Bool-cases (any_where (is_live_own u.id u.user_id) s.triggers)) [
        | inl some_row ↦ rw (f, good, free, some_row) (inr refl)
        | inr no_row ↦
            rw
              (
                f,
                good,
                free,
                no_row,
                update_where-none (is_live_own u.id u.user_id) (edit_trigger u) s.triggers no_row,
              )
              (inl (missing, refl))
      ]
    ]
  ]
]

-- The scope is read before the write, and its entries are dropped after it.
scoped_write-IsSound :
    (engine : Engine) (faults : Faults) (id : Text) (test : Row → Bool) (change : Row → Row)
    (write : Effect Tables TableError (Unit {0})) (f : TableError → CallError)
    → ((s : Tables)
        → Ends (write s) s (record s { triggers = update_where test change s.triggers }, tt))
    → ((r : Row) → test r ≡ true → list_beq r.id id ≡ true)
    → ((r : Row) → (change r).id ≡ r.id)
    → Preserves (KeepsSound engine) (
        on_tables any_error (list_trigger_instance_ids faults id) >>= λ ids.
        on_tables f write >> invalidate_scopes ids)
unfolding ◌>>=◌ ◌>>◌
scoped_write-IsSound engine faults id test change write f ends hits keeps = record {
  keeps = λ s sound. elim (list_ids-Ends faults id s.tables) [
    | inl (e, failed) ↦ rw failed sound
    | inr listed ↦ elim (ends s.tables) [
      | inl (e, failed) ↦ rw (listed, failed) sound
      | inr written ↦ rw (listed, written) (edited-IsSound engine id test change s hits keeps sound)
    ]
  ];
}

pub delete-IsSound :
    (engine : Engine) (faults : Faults) (id user : Text)
    → Preserves (KeepsSound engine) (
        on_tables any_error (list_trigger_instance_ids faults id) >>= λ ids.
        on_tables read_error (soft_delete_trigger_by_user faults id user) >> invalidate_scopes ids)
delete-IsSound engine faults id user =
    scoped_write-IsSound engine faults id (is_live_own id user) (λ r. record r { deleted = true })
      (soft_delete_trigger_by_user faults id user) read_error (soft_delete-Ends faults id user)
      (λ r h. ground arith) (λ r. refl)

module _ (engine : Engine) (same_phrase : Text → Text → Bool) (faults : Faults) where
  pub update-IsSound :
      (u : TriggerUpdate)
      → Preserves (KeepsSound engine) (
          on_tables any_error (list_trigger_instance_ids faults u.id) >>= λ ids.
          on_tables write_error (update_trigger_by_user same_phrase faults u)
          >> invalidate_scopes ids)
  update-IsSound u =
      scoped_write-IsSound engine faults u.id (is_live_own u.id u.user_id) (edit_trigger u)
        (update_trigger_by_user same_phrase faults u) write_error (update-Ends same_phrase faults u)
        (λ r h. ground arith) (λ r. refl)

  inserted-IsSound :
      (r : Row) (is : List ℕ) (s : TriggerServer)
      → any_where (λ q. list_beq q.id r.id) s.tables.triggers ≡ false
      → IsSound engine s
      → IsSound engine (record s {
        tables = record s.tables {
          triggers = s.tables.triggers ++ (r ∷ []);
          scopes = add_scopes r.id is s.tables.scopes;
          next_ref = s.tables.next_ref + 1;
        };
        cache = invalidate_each is s.cache;
      })
  inserted-IsSound r is s fresh (coherent, referenced) = (
    invalidate_each-IsCoherent engine s.tables
        (record s.tables {
          triggers = s.tables.triggers ++ (r ∷ []);
          scopes = add_scopes r.id is s.tables.scopes;
          next_ref = s.tables.next_ref + 1;
        })
        is s.cache
        (λ j apart.
          actives_of-insert r is j (s.tables.next_ref + 1) s.tables
            (has_scope-fresh s.tables.triggers r.id j s.tables.scopes fresh referenced) apart)
        coherent,
    insert-IsReferenced s.tables.triggers r is s.tables.scopes referenced,
  )

  abbrev inserted : Row → List ℕ → Tables → Tables
  inserted r is s = record s {
    triggers = s.triggers ++ (r ∷ []);
    scopes = add_scopes r.id is s.scopes;
    next_ref = s.next_ref + 1;
  }

  -- An insert fails and changes nothing, or it writes a row with a new id.
  abbrev Inserts : Row → List ℕ → Tables × Result TableError (Text × ℕ) → Tables → Type 0
  Inserts r is outcome s =
      ((e : TableError) × (outcome ≡ (s, err e)))
      ⊎ ((any_where (λ q. list_beq q.id r.id) s.triggers ≡ false)
          × (outcome ≡ (inserted r is s, ok (r.id, r.ref))))

  insert_row-Inserts :
      (r : Row) (is : List ℕ) (s : Tables) → Inserts r is (insert_row same_phrase r is s) s
  insert_row-Inserts r is s =
      elim (Bool-cases (any_where (takes_phrase same_phrase r) s.triggers)) [
        | inl taken ↦ rw taken (inl (phrase_taken, refl))
        | inr free ↦ elim (Bool-cases (any_where (λ q. list_beq q.id r.id) s.triggers)) [
          | inl old ↦ rw (free, old) (inl (unavailable, refl))
          | inr fresh ↦ elim (Bool-cases (is_allowed r)) [
            | inl allowed ↦ inr (fresh, ground (arith))
            | inr refused ↦ inl (unavailable, ground (arith))
          ]
        ]
      ]

  create-Inserts :
      (id : Text) (params : CreateTriggerParams) (s : Tables)
      → Inserts
          (new_trigger id s.next_ref params)
          params.instance_ids
          (create_trigger same_phrase faults id params s)
          s
  unfolding create_trigger
  create-Inserts id params s = elim (List-cases params.instance_ids) [
    | inl none_given ↦ rw none_given (inl (unavailable, refl))
    | inr (i, is, given) ↦ elim (Bool-cases (faults creating)) [
      | inl bad ↦ rw (given, bad) (inl (unavailable, refl))
      | inr fine ↦
          rw (given, fine) (insert_row-Inserts (new_trigger id s.next_ref params) (i ∷ is) s)
    ]
  ]

  pub create-IsSound :
      (id : Text) (params : CreateTriggerParams)
      → Preserves (KeepsSound engine) (
          on_tables create_error (create_trigger same_phrase faults id params) >>= λ made.
          invalidate_scopes params.instance_ids >> return made)
  unfolding ◌>>=◌ ◌>>◌
  create-IsSound id params = record {
    keeps = λ s sound. elim (create-Inserts id params s.tables) [
      | inl (e, failed) ↦ rw failed sound
      | inr (fresh, written) ↦ rw written (
          inserted-IsSound (new_trigger id s.tables.next_ref params) params.instance_ids s fresh
            sound)
    ];
  }
