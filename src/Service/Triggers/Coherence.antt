-- ===== src/Service/Triggers/Coherence.antt =====
-- pkg/grpc/server/trigger.go: the cache of candidates and what the database would load.
use gin_bot.Base.{
  ℕ, ◌==◌, ◌≡◌, refl, ◌∙◌, Bool, true, false, List, [], ◌∷◌, ◌++◌, some, inl, inr, All, All-append,
  arith, nat_eq, list_beq, list_beq_iff, Bool-cases,
}
use gin_bot.Base.Dict.{get, get-delete}
use gin_bot.Base.Effect.{IsPreorder, Preserves}
use gin_bot.Base.Result.{ok}
use gin_bot.Base.Table.{update_where, any_where}
use gin_bot.Base.Text.{Text}
use gin_bot.Service.Triggers.{TriggerServer, load_candidates, invalidate_each, cached_candidates}
use gin_bot.Trigger.Cache.{Cache, IsCoherent, candidates, invalidate, candidates-IsCoherent}
use gin_bot.Trigger.Pattern.{Engine}
use gin_bot.Trigger.Select.{Candidate}
use gin_bot.Trigger.Table.{
  Row, Tables, Faults, listing, is_among, has_scope, add_scope, add_scopes, actives_of,
  list_active_triggers_by_instance,
}

abbrev pub healthy : Faults
healthy call = false

abbrev IsReferenced : List Row → Text × ℕ → Type 0
IsReferenced rows scope = any_where (λ q. list_beq q.id scope.0) rows ≡ true

-- Every cached set is what a load that no fault meets returns now, and every scope is a trigger's.
abbrev pub IsSound : Engine → TriggerServer → Type 0
IsSound engine s =
    IsCoherent (load_candidates engine healthy s.tables) s.cache
    × All (IsReferenced s.tables.triggers) s.tables.scopes

abbrev pub KeepsSound : Engine → TriggerServer → TriggerServer → Type 0
KeepsSound engine s t = IsSound engine s → IsSound engine t

pub KeepsSound-IsPreorder : (engine : Engine) → IsPreorder (KeepsSound engine)
KeepsSound-IsPreorder engine = record {
  stays = λ s h. h;
  joins = λ first second h. second (first h);
}

load-actives :
    (engine : Engine) (s t : Tables) (i : ℕ)
    → actives_of i t ≡ actives_of i s
    → load_candidates engine healthy t i ≡ load_candidates engine healthy s i
unfolding load_candidates list_active_triggers_by_instance
load-actives engine s t i same = rw same refl

dropped :
    (i : ℕ) (ids : List ℕ) (c : Cache (List Candidate)) (j : ℕ) (cached : List Candidate)
    → is_among j ids ≡ false
    → get (invalidate c i).set j ≡ some cached
    → (is_among j (i ∷ ids) ≡ false) × (get c.set j ≡ some cached)
unfolding invalidate
dropped i ids c j cached apart kept =
    let found = get-delete c.set i j in
    elim (Bool-cases (i == j)) [
      | inl e ↦ absurd (ground arith)
      | inr e ↦ (ground arith, ground arith)
    ]

-- What is cached after the invalidations was cached before, of another instance.
invalidate_each-get :
    (ids : List ℕ) (c : Cache (List Candidate)) (j : ℕ) (cached : List Candidate)
    → get (invalidate_each ids c).set j ≡ some cached
    → (is_among j ids ≡ false) × (get c.set j ≡ some cached)
invalidate_each-get [] c j cached found = (refl, found)
invalidate_each-get (i ∷ ids) c j cached found =
    let (apart, kept) = invalidate_each-get ids (invalidate c i) j cached found in
    dropped i ids c j cached apart kept

pub invalidate_each-IsCoherent :
    (engine : Engine) (s t : Tables) (ids : List ℕ) (c : Cache (List Candidate))
    → ((j : ℕ) → is_among j ids ≡ false → actives_of j t ≡ actives_of j s)
    → IsCoherent (load_candidates engine healthy s) c
    → IsCoherent (load_candidates engine healthy t) (invalidate_each ids c)
invalidate_each-IsCoherent engine s t ids c same coherent = λ j cached found.
    let (apart, kept) = invalidate_each-get ids c j cached found in
    load-actives engine s t j (same j apart) ∙ coherent j cached kept

pub fresh_load :
    (engine : Engine) (faults : Faults) (s : Tables) (i : ℕ) (found : List Candidate)
    → load_candidates engine faults s i ≡ ok found
    → load_candidates engine healthy s i ≡ ok found
unfolding load_candidates list_active_triggers_by_instance
fresh_load engine faults s i found e = elim (Bool-cases (faults listing)) [
  | inl bad ↦ absurd (ground arith)
  | inr fine ↦ ground arith
]

-- The lookup of a handler, whatever faults it meets.
pub cached_candidates-IsSound :
    (engine : Engine) (faults : Faults) (i : ℕ)
    → Preserves (KeepsSound engine) (cached_candidates engine faults i)
unfolding load_candidates list_active_triggers_by_instance cached_candidates candidates
cached_candidates-IsSound engine faults i = record {
  keeps = λ s (coherent, referenced). (
    candidates-IsCoherent (load_candidates engine healthy s.tables)
        (load_candidates engine faults s.tables) s.cache i
        (λ found e. fresh_load engine faults s.tables i found e) coherent,
    referenced,
  );
}

-- A new id has no scope yet.
pub has_scope-fresh :
    (rows : List Row) (id : Text) (i : ℕ) (scopes : List (Text × ℕ))
    → any_where (λ q. list_beq q.id id) rows ≡ false
    → All (IsReferenced rows) scopes
    → has_scope id i scopes ≡ false
has_scope-fresh rows id i [] fresh referenced = refl
has_scope-fresh rows id i ((t, j) ∷ scopes) fresh (here, referenced) =
    elim (Bool-cases (list_beq t id)) [
      | inl e ↦
          let same : t ≡ id = (list_beq_iff t id).0 e in
          let taken : any_where (λ q. list_beq q.id id) rows ≡ true = (rw same at here) in
          absurd (cc)
      | inr e ↦ rw (e, has_scope-fresh rows id i scopes fresh referenced) refl
    ]

any_id-update :
    (test : Row → Bool) (change : Row → Row) (t : Text) (rows : List Row)
    → ((r : Row) → (change r).id ≡ r.id)
    → any_where (λ q. list_beq q.id t) (update_where test change rows)
      ≡ any_where (λ q. list_beq q.id t) rows
unfolding any_where update_where
any_id-update test change t [] keeps = refl
any_id-update test change t (r ∷ rows) keeps = elim (Bool-cases (test r)) [
  | inl e ↦ rw (e, keeps r, any_id-update test change t rows keeps) refl
  | inr e ↦ rw (e, any_id-update test change t rows keeps) refl
]

pub update-IsReferenced :
    (test : Row → Bool) (change : Row → Row) (rows : List Row) (scopes : List (Text × ℕ))
    → ((r : Row) → (change r).id ≡ r.id)
    → All (IsReferenced rows) scopes
    → All (IsReferenced (update_where test change rows)) scopes
update-IsReferenced test change rows [] keeps referenced = tt
update-IsReferenced test change rows ((t, i) ∷ scopes) keeps (here, referenced) = (
  any_id-update test change t rows keeps ∙ here,
  update-IsReferenced test change rows scopes keeps referenced,
)

any_id-append :
    (t : Text) (rows : List Row) (r : Row)
    → any_where (λ q. list_beq q.id t) rows ≡ true
    → any_where (λ q. list_beq q.id t) (rows ++ (r ∷ [])) ≡ true
unfolding any_where
any_id-append t [] r h = absurd (cc)
any_id-append t (q ∷ rows) r h = elim (Bool-cases (list_beq q.id t)) [
  | inl e ↦ rw e refl
  | inr e ↦ rw e (any_id-append t rows r (rw e at h))
]

any_id-last :
    (rows : List Row) (r : Row) → any_where (λ q. list_beq q.id r.id) (rows ++ (r ∷ [])) ≡ true
unfolding any_where
any_id-last [] r = let self = (list_beq_iff r.id r.id).1 refl in rw self refl
any_id-last (q ∷ rows) r = let rest = any_id-last rows r in ground (arith)

append-IsReferenced :
    (rows : List Row) (r : Row) (scopes : List (Text × ℕ))
    → All (IsReferenced rows) scopes
    → All (IsReferenced (rows ++ (r ∷ []))) scopes
append-IsReferenced rows r [] referenced = tt
append-IsReferenced rows r ((t, i) ∷ scopes) (here, referenced) =
    (any_id-append t rows r here, append-IsReferenced rows r scopes referenced)

add_scope-IsReferenced :
    (rows : List Row) (id : Text) (i : ℕ) (scopes : List (Text × ℕ))
    → IsReferenced rows (id, i)
    → All (IsReferenced rows) scopes
    → All (IsReferenced rows) (add_scope id i scopes)
add_scope-IsReferenced rows id i scopes known referenced =
    elim (Bool-cases (has_scope id i scopes)) [
      | inl e ↦ rw e referenced
      | inr e ↦ rw e (All-append (IsReferenced rows) scopes ((id, i) ∷ []) referenced (known, tt))
    ]

add_scopes-IsReferenced :
    (rows : List Row) (id : Text) (is : List ℕ) (scopes : List (Text × ℕ))
    → any_where (λ q. list_beq q.id id) rows ≡ true
    → All (IsReferenced rows) scopes
    → All (IsReferenced rows) (add_scopes id is scopes)
unfolding add_scopes
add_scopes-IsReferenced rows id [] scopes known referenced = referenced
add_scopes-IsReferenced rows id (i ∷ is) scopes known referenced =
    add_scopes-IsReferenced rows id is (add_scope id i scopes) known
      (add_scope-IsReferenced rows id i scopes known referenced)

pub insert-IsReferenced :
    (rows : List Row) (r : Row) (is : List ℕ) (scopes : List (Text × ℕ))
    → All (IsReferenced rows) scopes
    → All (IsReferenced (rows ++ (r ∷ []))) (add_scopes r.id is scopes)
insert-IsReferenced rows r is scopes referenced =
    add_scopes-IsReferenced (rows ++ (r ∷ [])) r.id is scopes (any_id-last rows r)
      (append-IsReferenced rows r scopes referenced)
