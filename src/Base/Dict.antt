-- ===== src/Base/Dict.antt =====
-- Go's `map[K]V` as an association list behind its laws. `put` removes the key first, so the
-- number of entries is that of the keys.
use Prim.Native.Nat.{◌+◌, ◌≤◌}
use mathlib.Core.Path.{◌≡◌, refl}
use mathlib.Core.Bool.{Bool, true, false}
use mathlib.Core.Option.{Option, none, some}
use mathlib.Core.List.{List, [], ◌∷◌}
use native.Mathlib.Omega.{arith}
use gin_bot.Base.Tests.{if◌then◌else◌}
use gin_bot.Base.Lists.{length}
use gin_bot.Base.Equality.{Eq}

abbrev pub Dict {ℓ κ} : Type ℓ → Type κ → Type (ℓ ⊔ κ)
Dict K V = List (K × V)

beq_refl {ℓ} : {K : Type ℓ} ⦃e : Eq K⦄ (k : K) → e.beq k k ≡ true
beq_refl ⦃e⦄ k = (e.beq_iff k k).1 refl

-- A value under a test, as an option.
abbrev pub guarded {ℓ} : {V : Type ℓ} → (V → Bool) → Option V → Option V
guarded p none = none
guarded p (some v) = if p v then some v else none

module _ {ℓ κ} {K : Type ℓ} {V : Type κ} ⦃e : Eq K⦄ where
  -- v, ok := m[k]
  unfoldable pub get : Dict K V → K → Option V
  get [] k = none
  get ((j, v) ∷ m) k = if e.beq j k then some v else get m k

  -- delete(m, k)
  unfoldable pub delete : Dict K V → K → Dict K V
  delete [] k = []
  delete ((j, v) ∷ m) k = let rest = delete m k in if e.beq j k then rest else (j, v) ∷ rest

  -- m[k] = v
  unfoldable pub put : Dict K V → K → V → Dict K V
  unfolding delete
  put m k v = (k, v) ∷ delete m k

  -- The deletions of a loop over the map: the entries that pass the test stay.
  unfoldable pub retain : (V → Bool) → Dict K V → Dict K V
  retain p [] = []
  retain p ((j, v) ∷ m) = let rest = retain p m in if p v then (j, v) ∷ rest else rest

  pub get-delete :
      (m : Dict K V) (k j : K) → get (delete m k) j ≡ (if e.beq k j then none else get m j)
  unfolding get delete
  get-delete [] k j = ground arith
  get-delete ((i, v) ∷ m) k j =
      ground (arith, get-delete m k j, e.beq_iff i k, e.beq_iff i j, e.beq_iff k j)

  pub get-put :
      (m : Dict K V) (k : K) (v : V) (j : K)
      → get (put m k v) j ≡ (if e.beq k j then some v else get m j)
  unfolding get put
  get-put m k v j = ground (arith, get-delete m k j)

  pub get-put_self : (m : Dict K V) (k : K) (v : V) → get (put m k v) k ≡ some v
  get-put_self m k v = ground (arith, get-put m k v k, beq_refl k)

  pub length-delete : (m : Dict K V) (k : K) → length (delete m k) ≤ length m
  unfolding delete
  length-delete [] k = omega arith
  length-delete ((j, v) ∷ m) k = ground (arith, length-delete m k)

  pub length-delete_present :
      (m : Dict K V) (k : K) {v : V} → get m k ≡ some v → length (delete m k) + 1 ≤ length m
  unfolding get delete
  length-delete_present [] k h = absurd (cc)
  length-delete_present ((j, w) ∷ m) k {v} h =
      elim (e.beq j k)
          as (λ b.
            (if b then some w else get m k) ≡ some v
            → length (if b then delete m k else (j, w) ∷ delete m k) + 1 ≤ length ((j, w) ∷ m)) [
              | true ↦ λ found. omega (arith, length-delete m k)
              | false ↦ λ found. omega (arith, length-delete_present m k found)
            ]
        h

  pub length-put : (m : Dict K V) (k : K) (v : V) → length (put m k v) ≤ length m + 1
  unfolding put
  length-put m k v = ground (arith, length-delete m k)

pub get-nil {ℓ κ} : {K : Type ℓ} {V : Type κ} ⦃e : Eq K⦄ (k : K) → get {V = V} [] k ≡ none
unfolding get
get-nil k = refl

-- No key has two entries, as in every Go map.
module _ {ℓ κ} {K : Type ℓ} {V : Type κ} ⦃e : Eq K⦄ where
  abbrev pub IsMap : Dict K V → Type κ
  IsMap [] = Unit
  IsMap ((k, v) ∷ m) = (get m k ≡ none) × IsMap m

  get-retain-none :
      (p : V → Bool) (m : Dict K V) (k : K) → get m k ≡ none → get (retain p m) k ≡ none
  unfolding get retain
  get-retain-none p [] k h = refl
  get-retain-none p ((j, v) ∷ m) k h = ground (arith, get-retain-none p m k)

  pub get-retain :
      (p : V → Bool) (m : Dict K V) (k : K) → IsMap m → get (retain p m) k ≡ guarded p (get m k)
  unfolding get retain
  get-retain p [] k h = refl
  get-retain p ((j, v) ∷ m) k (fresh, h) =
      ground (arith, get-retain p m k h, get-retain-none p m j fresh, e.beq_iff j k)

  pub retain-IsMap : (p : V → Bool) (m : Dict K V) → IsMap m → IsMap (retain p m)
  unfolding retain
  retain-IsMap p [] h = tt
  retain-IsMap p ((j, v) ∷ m) (fresh, h) =
      elim (p v) as (λ b. IsMap (if b then (j, v) ∷ retain p m else retain p m)) [
        | true ↦ (get-retain-none p m j fresh, retain-IsMap p m h)
        | false ↦ retain-IsMap p m h
      ]

  pub delete-IsMap : (m : Dict K V) (k : K) → IsMap m → IsMap (delete m k)
  unfolding delete
  delete-IsMap [] k h = tt
  delete-IsMap ((j, v) ∷ m) k (fresh, h) =
      elim (e.beq j k) as (λ b. IsMap (if b then delete m k else (j, v) ∷ delete m k)) [
        | true ↦ delete-IsMap m k h
        | false ↦ (ground (arith, get-delete m k j, fresh), delete-IsMap m k h)
      ]

  pub put-IsMap : (m : Dict K V) (k : K) (v : V) → IsMap m → IsMap (put m k v)
  unfolding put
  put-IsMap m k v h = (ground (arith, get-delete m k k, beq_refl k), delete-IsMap m k h)
