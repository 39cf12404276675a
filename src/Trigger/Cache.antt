-- ===== src/Trigger/Cache.antt =====
-- pkg/trigger/cache.go. The loader is the code behind the cache: what it returns for an instance
-- at the time of a call is a function. The lock is held across a load, so a call is one step.
use gin_bot.Base.{ℕ, ◌≡◌, refl, ◌≢◌, [], Option, none, some, arith, ==_iff, nat_eq}
use gin_bot.Base.Result.{Result, ok, err}
use gin_bot.Base.Dict.{Dict, get, put, delete, get-put, get-delete}

-- The candidate sets per instance.
pub record Cache (A : Type 0) : Type 0 where
  pub set : Dict ℕ A

unfoldable new_cache : {A : Type 0} → Cache A
new_cache = record { set = [] }

module _ {A E : Type 0} where
  -- The miss: load, and keep the result unless it is an error.
  abbrev fill : Cache A → ℕ → Result E A → Cache A × Result E A
  fill c i (ok loaded) = (record { set = put c.set i loaded }, ok loaded)
  fill c i (err e) = (c, err e)

  abbrev serve : Cache A → ℕ → Result E A → Option A → Cache A × Result E A
  serve c i fresh (some cached) = (c, ok cached)
  serve c i fresh none = fill c i fresh

  unfoldable pub candidates : (ℕ → Result E A) → Cache A → ℕ → Cache A × Result E A
  candidates load c i = serve c i (load i) (get c.set i)

module _ {A : Type 0} where
  unfoldable pub invalidate : Cache A → ℕ → Cache A
  invalidate c i = record { set = delete c.set i }

  unfoldable invalidate_all : Cache A → Cache A
  invalidate_all c = record { set = [] }

module _ {A E : Type 0} where
  -- Every cached set is what the loader returns now.
  abbrev pub IsCoherent : (ℕ → Result E A) → Cache A → Type 0
  IsCoherent load c = (i : ℕ) (cached : A) → get c.set i ≡ some cached → load i ≡ ok cached

  candidates_result :
      (load : ℕ → Result E A) (c : Cache A) (i : ℕ) (found : Option A)
      → ((cached : A) → found ≡ some cached → load i ≡ ok cached)
      → (serve c i (load i) found).1 ≡ load i
  candidates_result load c i (some cached) h = ground (arith, h cached)
  candidates_result load c i none h = ground arith

  fill-IsCoherent :
      (load : ℕ → Result E A) (c : Cache A) (i : ℕ) (fresh : Result E A)
      → load i ≡ fresh
      → IsCoherent load c
      → IsCoherent load (fill c i fresh).0
  fill-IsCoherent load c i (err e) h coherent = coherent
  fill-IsCoherent load c i (ok loaded) h coherent =
      λ j cached found. ground (arith, get-put c.set i loaded j, ==_iff i j, coherent j cached)

  serve-IsCoherent :
      (load : ℕ → Result E A) (c : Cache A) (i : ℕ) (found : Option A)
      → IsCoherent load c
      → IsCoherent load (serve c i (load i) found).0
  serve-IsCoherent load c i (some cached) coherent = coherent
  serve-IsCoherent load c i none coherent = fill-IsCoherent load c i (load i) refl coherent

  -- A lookup whose load fails, or returns what the loader returns, keeps the cache coherent.
  serve_fresh-IsCoherent :
      (load : ℕ → Result E A) (c : Cache A) (i : ℕ) (fresh : Result E A) (found : Option A)
      → ((a : A) → fresh ≡ ok a → load i ≡ ok a)
      → IsCoherent load c
      → IsCoherent load (serve c i fresh found).0
  serve_fresh-IsCoherent load c i fresh (some cached) same coherent = coherent
  serve_fresh-IsCoherent load c i (err e) none same coherent = coherent
  serve_fresh-IsCoherent load c i (ok a) none same coherent =
      fill-IsCoherent load c i (ok a) (same a refl) coherent

  pub candidates-IsCoherent :
      (load fresh : ℕ → Result E A) (c : Cache A) (i : ℕ)
      → ((a : A) → fresh i ≡ ok a → load i ≡ ok a)
      → IsCoherent load c
      → IsCoherent load (candidates fresh c i).0
  unfolding candidates
  candidates-IsCoherent load fresh c i same coherent =
      serve_fresh-IsCoherent load c i (fresh i) (get c.set i) same coherent

  fill-found :
      (load : ℕ → Result E A) (c : Cache A) (i : ℕ) (fresh : Result E A) (found : A)
      → ((a : A) → fresh ≡ ok a → load i ≡ ok a)
      → (fill c i fresh).1 ≡ ok found
      → load i ≡ ok found
  fill-found load c i (ok a) found same h = same found h
  fill-found load c i (err e) found same h = absurd (cc)

  serve-found :
      (load : ℕ → Result E A) (c : Cache A) (i : ℕ) (fresh : Result E A) (held : Option A)
      (found : A)
      → ((a : A) → held ≡ some a → load i ≡ ok a)
      → ((a : A) → fresh ≡ ok a → load i ≡ ok a)
      → (serve c i fresh held).1 ≡ ok found
      → load i ≡ ok found
  serve-found load c i fresh (some cached) found kept same h = ground (arith, kept cached)
  serve-found load c i fresh none found kept same h = fill-found load c i fresh found same h

  -- Whatever fails in a lookup, the set that it finds on a coherent cache is the loader's.
  pub candidates-found :
      (load fresh : ℕ → Result E A) (c : Cache A) (i : ℕ) (found : A)
      → IsCoherent load c
      → ((a : A) → fresh i ≡ ok a → load i ≡ ok a)
      → (candidates fresh c i).1 ≡ ok found
      → load i ≡ ok found
  unfolding candidates
  candidates-found load fresh c i found coherent same h =
      serve-found load c i (fresh i) (get c.set i) found (coherent i) same h

  -- On a coherent cache a lookup returns exactly what the loader returns, errors included, and
  -- leaves the cache coherent.
  candidates_lem :
      (load : ℕ → Result E A) (c : Cache A) (i : ℕ)
      → IsCoherent load c
      → ((candidates load c i).1 ≡ load i) × IsCoherent load (candidates load c i).0
  unfolding candidates
  candidates_lem load c i coherent = (
    candidates_result load c i (get c.set i) (coherent i),
    serve-IsCoherent load c i (get c.set i) coherent,
  )

  -- When the triggers of one instance change and its entry is then invalidated, the cache is
  -- coherent with the new triggers.
  invalidate-IsCoherent :
      (load load' : ℕ → Result E A) (c : Cache A) (i : ℕ)
      → ((j : ℕ) → j ≢ i → load' j ≡ load j)
      → IsCoherent load c
      → IsCoherent load' (invalidate c i)
  unfolding invalidate
  invalidate-IsCoherent load load' c i same coherent =
      λ j cached found. ground (arith, get-delete c.set i j, ==_iff i j, coherent j cached, same j)

  -- A second lookup does not load: after a lookup that succeeded, it returns the same set whatever
  -- the loader has become.
  candidates_cached :
      (load later : ℕ → Result E A) (c : Cache A) (i : ℕ) {cached : A}
      → (candidates load c i).1 ≡ ok cached
      → candidates later (candidates load c i).0 i ≡ ((candidates load c i).0, ok cached)
  unfolding candidates
  candidates_cached load later c i {cached} h = ground (arith, get-put c.set i cached i, ==_iff i i)
