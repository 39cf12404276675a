-- ===== src/Trigger/Table.antt =====
-- pkg/db/trigger.go and the row of internal/model/model.go: the trigger table, the scopes of the
-- triggers and the records of their fires, with the statements of the handlers. `faults` says which
-- calls of the database fail: such a call was not carried out. The comparison of phrases in lower
-- case is a parameter.
pub mod Scopes
use gin_bot.Base.{
  ℕ, suc, ◌+◌, ◌==◌, Bool, true, false, not, ◌&&◌, ◌||◌, List, [], ◌∷◌, ◌++◌, Option, none, some,
  if◌then◌else◌, ltb, list_beq, take,
}
use gin_bot.Base.Effect.{Effect}
use gin_bot.Base.Int.{ℤ, pos, leb_ℤ}
use gin_bot.Base.Result.{Result, ok, err}
use gin_bot.Base.Table.{update_where, select_where, find_where, any_where}
use gin_bot.Base.Text.{Text}
use gin_bot.Trigger.{Mode, unspecified, any, exact, regex, max_candidates}

-- slices.Contains
abbrev pub is_among : ℕ → List ℕ → Bool
is_among i [] = false
is_among i (j ∷ is) = i == j || is_among i is

pub record Row : Type 0 where
  pub id : Text
  pub ref : ℕ
  pub phrase : Text
  pub reply : Option Text
  pub file_id : Option Text
  pub user_id : Option Text
  pub chance : ℤ
  pub mode : Mode
  pub deleted : Bool

pub data Fire : Type 0 where
  occurred called : Fire

-- The triggers, the rows of trigger_instance, the sequence of the refs, and the fires with their
-- actor and their trigger.
pub record Tables : Type 0 where
  pub triggers : List Row
  pub scopes : List (Text × ℕ)
  pub next_ref : ℕ
  pub fire_log : List (Fire × (Option Text × Option Text))

pub data TableError : Type 0 where
  missing phrase_taken unavailable : TableError

pub data Call : Type 0 where
  listing scoping describing getting getting_by_ref creating updating deleting firing : Call

abbrev pub Faults : Type 0
Faults = Call → Bool

abbrev unless_refused :
    {A : Type 0} → Bool → (Tables → Tables × Result TableError A) → Effect Tables TableError A
unless_refused true call s = (s, err unavailable)
unless_refused false call s = call s

abbrev null_text : Text → Option Text
null_text [] = none
null_text (c ∷ s) = some (c ∷ s)

abbrev pub mode_number : Mode → ℕ
mode_number unspecified = 0
mode_number exact = 1
mode_number any = 2
mode_number regex = 3

abbrev pub is_user : Text → Option Text → Bool
is_user user none = false
is_user user (some owner) = list_beq owner user

abbrev pub is_live : Text → Row → Bool
is_live id r = list_beq r.id id && not r.deleted

abbrev pub is_live_own : Text → Text → Row → Bool
is_live_own id user r = list_beq r.id id && is_user user r.user_id && not r.deleted

-- chk_reply_or_file and the check of the column chance
abbrev is_stored : {A : Type 0} → Option A → Bool
is_stored none = false
is_stored (some a) = true

abbrev pub is_allowed : Row → Bool
is_allowed r =
    (is_stored r.reply || is_stored r.file_id) && leb_ℤ (pos 0) r.chance && leb_ℤ r.chance (pos 100)

pub record CreateTriggerParams : Type 0 where
  pub phrase : Text
  pub reply : Text
  pub file_id : Text
  pub user_id : Text
  pub chance : ℤ
  pub mode : Mode
  pub instance_ids : List ℕ

pub record TriggerUpdate : Type 0 where
  pub id : Text
  pub user_id : Text
  pub phrase : Option Text
  pub reply : Option Text
  pub file_id : Option Text
  pub chance : Option ℤ
  pub mode : Option Mode

abbrev pub new_trigger : Text → ℕ → CreateTriggerParams → Row
new_trigger id ref params = record {
  id = id;
  ref = ref;
  phrase = params.phrase;
  reply = null_text params.reply;
  file_id = null_text params.file_id;
  user_id = null_text params.user_id;
  chance = params.chance;
  mode = params.mode;
  deleted = false;
}

-- INSERT INTO trigger_instance ... ON CONFLICT DO NOTHING
abbrev pub has_scope : Text → ℕ → List (Text × ℕ) → Bool
has_scope id i [] = false
has_scope id i ((t, j) ∷ scopes) = (list_beq t id && j == i) || has_scope id i scopes

abbrev pub add_scope : Text → ℕ → List (Text × ℕ) → List (Text × ℕ)
add_scope id i scopes = if has_scope id i scopes then scopes else scopes ++ ((id, i) ∷ [])

unfoldable pub add_scopes : Text → List ℕ → List (Text × ℕ) → List (Text × ℕ)
add_scopes id [] scopes = scopes
add_scopes id (i ∷ is) scopes = add_scopes id is (add_scope id i scopes)

abbrev pub if_given : {A : Type 0} → Option A → A → A
if_given none a = a
if_given (some b) a = b

abbrev null_given : Option Text → Option Text → Option Text
null_given none a = a
null_given (some s) a = null_text s

abbrev pub edit_trigger : TriggerUpdate → Row → Row
edit_trigger u r = record r {
  phrase = if_given u.phrase r.phrase;
  reply = null_given u.reply r.reply;
  file_id = null_given u.file_id r.file_id;
  chance = if_given u.chance r.chance;
  mode = if_given u.mode r.mode;
}

abbrev pub affected : Bool → Result TableError (Unit {0})
affected true = ok tt
affected false = err missing

-- The unique index on lower(phrase) over the live rows of mode exact, for a row to be written.
module _ (same_phrase : Text → Text → Bool) where
  abbrev pub takes_phrase : Row → Row → Bool
  takes_phrase r q =
      mode_number r.mode == 1
      && not r.deleted
      && mode_number q.mode == 1
      && not q.deleted
      && not (list_beq q.id r.id)
      && same_phrase q.phrase r.phrase

  abbrev pub insert_row : Row → List ℕ → Tables → Tables × Result TableError (Text × ℕ)
  insert_row r instance_ids s =
      if any_where (takes_phrase r) s.triggers
      then (s, err phrase_taken)
      else if any_where (λ q. list_beq q.id r.id) s.triggers || not (is_allowed r)
      then (s, err unavailable)
      else (
        record s {
          triggers = s.triggers ++ (r ∷ []);
          scopes = add_scopes r.id instance_ids s.scopes;
          next_ref = s.next_ref + 1;
        },
        ok (r.id, r.ref),
      )

  unfoldable pub create_trigger :
      Faults → Text → CreateTriggerParams → Effect Tables TableError (Text × ℕ)
  unfolding any_where add_scopes
  create_trigger faults id params s = elim params.instance_ids [
    | [] ↦ (s, err unavailable)
    | ◌∷◌ i is ↦
        unless_refused (faults creating)
          (insert_row (new_trigger id s.next_ref params) params.instance_ids) s
  ]

  -- A row that the statement would write against a constraint or the index.
  abbrev pub breaks_check : TriggerUpdate → Row → Bool
  breaks_check u r = is_live_own u.id u.user_id r && not (is_allowed (edit_trigger u r))

  abbrev pub breaks_index : TriggerUpdate → List Row → Row → Bool
  breaks_index u rows r =
      is_live_own u.id u.user_id r && any_where (takes_phrase (edit_trigger u r)) rows

  unfoldable pub update_trigger_by_user :
      Faults → TriggerUpdate → Effect Tables TableError (Unit {0})
  unfolding update_where any_where
  update_trigger_by_user faults u = unless_refused (faults updating) (λ s.
      if any_where (breaks_check u) s.triggers
      then (s, err unavailable)
      else if any_where (breaks_index u s.triggers) s.triggers
      then (s, err phrase_taken)
      else (
        record s {
          triggers = update_where (is_live_own u.id u.user_id) (edit_trigger u) s.triggers;
        },
        affected (any_where (is_live_own u.id u.user_id) s.triggers),
      ))

unfoldable pub soft_delete_trigger_by_user :
    Faults → Text → Text → Effect Tables TableError (Unit {0})
unfolding update_where any_where
soft_delete_trigger_by_user faults id user = unless_refused (faults deleting) (λ s. (
  record s {
    triggers = update_where (is_live_own id user) (λ r. record r { deleted = true }) s.triggers;
  },
  affected (any_where (is_live_own id user) s.triggers),
))

abbrev found_or_missing : Option Row → Result TableError Row
found_or_missing none = err missing
found_or_missing (some r) = ok r

unfoldable pub get_trigger : Faults → Text → Effect Tables TableError Row
unfolding find_where
get_trigger faults id =
    unless_refused (faults getting)
      (λ s. (s, found_or_missing (find_where (is_live id) s.triggers)))

unfoldable pub get_trigger_by_ref : Faults → ℕ → Effect Tables TableError Row
unfolding find_where
get_trigger_by_ref faults ref =
    unless_refused (faults getting_by_ref)
      (λ s. (s, found_or_missing (find_where (λ r. r.ref == ref && not r.deleted) s.triggers)))

unfoldable pub instances_of : Text → List (Text × ℕ) → List ℕ
instances_of id [] = []
instances_of id ((t, i) ∷ scopes) =
    let rest = instances_of id scopes in if list_beq t id then i ∷ rest else rest

abbrev with_instance : {I : Type 0} → Option I → List I → List I
with_instance none rest = rest
with_instance (some i) rest = i ∷ rest

unfoldable pub list_trigger_instance_ids : Faults → Text → Effect Tables TableError (List ℕ)
unfolding instances_of
list_trigger_instance_ids faults id =
    unless_refused (faults scoping) (λ s. (s, ok (instances_of id s.scopes)))

-- The instances that are described, in the order of the ids; `live_instance` is the row of an
-- instance that is not deleted.
unfoldable pub described : {I : Type 0} → (ℕ → Option I) → List ℕ → List I
described live_instance [] = []
described live_instance (i ∷ ids) =
    let rest = described live_instance ids in with_instance (live_instance i) rest

unfoldable pub get_trigger_instances :
    {I : Type 0} → (ℕ → Option I) → Faults → Text → Effect Tables TableError (List I)
unfolding instances_of described
get_trigger_instances live_instance faults id =
    unless_refused (faults describing)
      (λ s. (s, ok (described live_instance (instances_of id s.scopes))))

-- ORDER BY trigger.id
abbrev pub text_leb : Text → Text → Bool
text_leb [] t = true
text_leb (a ∷ s) [] = false
text_leb (a ∷ s) (b ∷ t) = ltb a b || (a == b && text_leb s t)

unfoldable pub insert_by_id : Row → List Row → List Row
insert_by_id r [] = r ∷ []
insert_by_id r (q ∷ rows) =
    let rest = insert_by_id r rows in if text_leb r.id q.id then r ∷ q ∷ rows else q ∷ rest

unfoldable pub sort_by_id : List Row → List Row
unfolding insert_by_id
sort_by_id [] = []
sort_by_id (r ∷ rows) = insert_by_id r (sort_by_id rows)

unfoldable pub actives_of : ℕ → Tables → List Row
unfolding select_where sort_by_id
actives_of i s =
    take max_candidates
      (sort_by_id (select_where (λ r. has_scope r.id i s.scopes && not r.deleted) s.triggers))

unfoldable pub list_active_triggers_by_instance : Faults → ℕ → Effect Tables TableError (List Row)
unfolding actives_of
list_active_triggers_by_instance faults i =
    unless_refused (faults listing) (λ s. (s, ok (actives_of i s)))

unfoldable pub record_trigger_fire :
    Faults → Fire → Text → Text → Effect Tables TableError (Unit {0})
record_trigger_fire faults fire id actor =
    unless_refused (faults firing)
      (λ s. (record s { fire_log = (fire, (null_text actor, null_text id)) ∷ s.fire_log }, ok tt))
