-- ===== src/Base/Table.antt =====
-- A table of a database as the list of its rows, with the statements that the queries use.
use mathlib.Core.Path.{◌≡◌, refl}
use mathlib.Core.Logic.{inl, inr}
use mathlib.Core.Bool.{Bool, true, false, ◌||◌}
use mathlib.Core.Option.{Option, none, some}
use mathlib.Core.List.{List, [], ◌∷◌, ◌++◌}
use native.Mathlib.Omega.{arith}
use gin_bot.Base.Tests.{if◌then◌else◌, Bool-cases}
use gin_bot.Base.Lists.{All, length}

module _ {R : Type 0} where
  -- UPDATE ... SET change WHERE test
  unfoldable pub update_where : (R → Bool) → (R → R) → List R → List R
  update_where test change [] = []
  update_where test change (r ∷ rows) =
      (if test r then change r else r) ∷ update_where test change rows

  -- The rows that a statement with the test affects.
  unfoldable pub select_where : (R → Bool) → List R → List R
  select_where test [] = []
  select_where test (r ∷ rows) =
      let rest = select_where test rows in if test r then r ∷ rest else rest

  -- The row of a query that has at most one.
  unfoldable pub find_where : (R → Bool) → List R → Option R
  find_where test [] = none
  find_where test (r ∷ rows) = let rest = find_where test rows in if test r then some r else rest

  -- RowsAffected() > 0
  unfoldable pub any_where : (R → Bool) → List R → Bool
  any_where test [] = false
  any_where test (r ∷ rows) = test r || any_where test rows

  pub update_where-All :
      (P : R → Type 0) (test : R → Bool) (change : R → R) (rows : List R)
      → ((r : R) → test r ≡ true → P r → P (change r))
      → All P rows
      → All P (update_where test change rows)
  unfolding update_where
  update_where-All P test change [] keep h = tt
  update_where-All P test change (r ∷ rows) keep (here, h) = elim (Bool-cases (test r)) [
    | inl e ↦ rw e (keep r e here, update_where-All P test change rows keep h)
    | inr e ↦ rw e (here, update_where-All P test change rows keep h)
  ]

  pub find_where-some :
      (P : R → Type 0) (test : R → Bool) (rows : List R) {r : R}
      → All P rows
      → find_where test rows ≡ some r
      → P r × (test r ≡ true)
  unfolding find_where
  find_where-some P test [] h e = absurd (cc)
  find_where-some P test (q ∷ rows) {r} (here, h) e = elim (Bool-cases (test q)) [
    | inl hit ↦ let same : q ≡ r = ground arith in rw (← same) (here, hit)
    | inr miss ↦ find_where-some P test rows h (rw miss at e)
  ]

  length-update_where :
      (test : R → Bool) (change : R → R) (rows : List R)
      → length (update_where test change rows) ≡ length rows
  unfolding update_where
  length-update_where test change [] = refl
  length-update_where test change (r ∷ rows) = omega (arith, length-update_where test change rows)

  pub update_where-none :
      (test : R → Bool) (change : R → R) (rows : List R)
      → any_where test rows ≡ false
      → update_where test change rows ≡ rows
  unfolding any_where update_where
  update_where-none test change [] h = refl
  update_where-none test change (r ∷ rows) h = elim (Bool-cases (test r)) [
    | inl e ↦ absurd (ground arith)
    | inr e ↦ let rest = update_where-none test change rows (ground arith) in rw (e, rest) refl
  ]

  -- A selection that holds of no row that an update changes, before or after.
  pub select_where-update :
      (chosen test : R → Bool) (change : R → R) (rows : List R)
      → ((r : R) → test r ≡ true → (chosen r ≡ false) × (chosen (change r) ≡ false))
      → select_where chosen (update_where test change rows) ≡ select_where chosen rows
  unfolding select_where update_where
  select_where-update chosen test change [] apart = refl
  select_where-update chosen test change (r ∷ rows) apart = elim (Bool-cases (test r)) [
    | inl e ↦
        let rest = select_where-update chosen test change rows apart in
        let (before, afterwards) = apart r e in rw (e, before, afterwards, rest) refl
    | inr e ↦ let rest = select_where-update chosen test change rows apart in rw (e, rest) refl
  ]

  pub select_where-same :
      (chosen other : R → Bool) (rows : List R)
      → ((r : R) → chosen r ≡ other r)
      → select_where chosen rows ≡ select_where other rows
  unfolding select_where
  select_where-same chosen other [] same = refl
  select_where-same chosen other (r ∷ rows) same =
      let rest = select_where-same chosen other rows same in rw (same r, rest) refl

  pub select_where-append :
      (chosen : R → Bool) (rows : List R) (r : R)
      → chosen r ≡ false
      → select_where chosen (rows ++ (r ∷ [])) ≡ select_where chosen rows
  unfolding select_where
  select_where-append chosen [] r h = rw h refl
  select_where-append chosen (q ∷ rows) r h =
      let rest = select_where-append chosen rows r h in rw rest refl
