-- ===== src/Service/Triggers/Local.antt =====
-- pkg/grpc/server/trigger.go: the candidates of an instance and the triggers they come from.
use gin_bot.Base.{
  ℕ, zero, suc, ◌≡◌, refl, Bool, true, not, ◌&&◌, ◌||◌, List, [], ◌∷◌, inl, inr, All, All-weaken,
  Elem, arith, list_beq_iff, Bool-cases, take,
}
use gin_bot.Base.Result.{Result, ok, err}
use gin_bot.Base.Table.{select_where, any_where}
use gin_bot.Base.Text.{Text}
use gin_bot.Trigger.{max_candidates}
use gin_bot.Trigger.Pattern.{Engine, PatternError, compile}
use gin_bot.Trigger.Select.{Candidate}
use gin_bot.Trigger.Table.{
  Row, Tables, is_live, has_scope, actives_of, sort_by_id, insert_by_id, text_leb,
}
use gin_bot.Service.Triggers.{with_pattern, compile_all}

-- A live trigger with the id is scoped to the instance.
abbrev pub IsLocal : Tables → ℕ → Text → Type 0
IsLocal s i id = (has_scope id i s.scopes ≡ true) × (any_where (is_live id) s.triggers ≡ true)

All-insert :
    (P : Row → Type 0) (r : Row) (rows : List Row) → P r → All P rows → All P (insert_by_id r rows)
unfolding insert_by_id
All-insert P r [] here all = (here, tt)
All-insert P r (q ∷ rows) here (first, all) = elim (Bool-cases (text_leb r.id q.id)) [
  | inl e ↦ rw e (here, (first, all))
  | inr e ↦ rw e (first, All-insert P r rows here all)
]

All-sort : (P : Row → Type 0) (rows : List Row) → All P rows → All P (sort_by_id rows)
unfolding sort_by_id
All-sort P [] all = tt
All-sort P (r ∷ rows) (here, all) = All-insert P r (sort_by_id rows) here (All-sort P rows all)

pub All-take : {A : Type 0} (P : A → Type 0) (n : ℕ) (xs : List A) → All P xs → All P (take n xs)
All-take P zero xs all = tt
All-take P (suc n) [] all = tt
All-take P (suc n) (x ∷ xs) (here, all) = (here, All-take P n xs all)

pub All-Elem : {A : Type 0} (P : A → Type 0) (xs : List A) (a : A) → All P xs → Elem a xs → P a
All-Elem P [] a all h = absurd h
All-Elem P (x ∷ xs) a (here, all) (inl e) = rw e here
All-Elem P (x ∷ xs) a (here, all) (inr h) = All-Elem P xs a all h

-- The rows of an instance, within a longer table.
select_local :
    (scopes : List (Text × ℕ)) (i : ℕ) (rows : List Row)
    → All
        (λ r. (has_scope r.id i scopes ≡ true) × (any_where (is_live r.id) rows ≡ true))
        (select_where (λ r. has_scope r.id i scopes && not r.deleted) rows)
unfolding select_where any_where
select_local scopes i [] = tt
select_local scopes i (q ∷ rows) =
    let later : All
        (λ r.
          (has_scope r.id i scopes ≡ true)
          × ((is_live r.id q || any_where (is_live r.id) rows) ≡ true))
        (select_where (λ r. has_scope r.id i scopes && not r.deleted) rows) =
      (All-weaken (λ r. (has_scope r.id i scopes ≡ true) × (any_where (is_live r.id) rows ≡ true)) _
        _ (λ r (scoped, live). (scoped, ground arith)) (select_local scopes i rows)) in
    elim (Bool-cases (has_scope q.id i scopes && not q.deleted)) [
      | inl e ↦
          let self = (list_beq_iff q.id q.id).1 refl in rw e ((ground arith, ground arith), later)
      | inr e ↦ rw e later
    ]

actives-IsLocal : (s : Tables) (i : ℕ) → All (λ r. IsLocal s i r.id) (actives_of i s)
unfolding actives_of
actives-IsLocal s i =
    All-take (λ r. IsLocal s i r.id) max_candidates _
      (All-sort (λ r. IsLocal s i r.id) _ (select_local s.scopes i s.triggers))

with_pattern-All :
    (P : Text → Type 0) (r : Row) (pattern : Result PatternError (Text → Bool))
    (rest : List Candidate)
    → P r.id
    → All (λ c. P c.id) rest
    → All (λ c. P c.id) (with_pattern r pattern rest)
with_pattern-All P r (err e) rest here all = all
with_pattern-All P r (ok pattern) rest here all = (here, all)

compile_all-All :
    (P : Text → Type 0) (engine : Engine) (rows : List Row)
    → All (λ r. P r.id) rows
    → All (λ c. P c.id) (compile_all engine rows)
unfolding compile_all
compile_all-All P engine [] all = tt
compile_all-All P engine (r ∷ rows) (here, all) =
    with_pattern-All P r (compile engine r.phrase r.mode) (compile_all engine rows) here
      (compile_all-All P engine rows all)

pub compiled-IsLocal :
    (engine : Engine) (s : Tables) (i : ℕ)
    → All (λ c. IsLocal s i c.id) (compile_all engine (actives_of i s))
compiled-IsLocal engine s i =
    compile_all-All (IsLocal s i) engine (actives_of i s) (actives-IsLocal s i)
