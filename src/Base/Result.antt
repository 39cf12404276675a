-- ===== src/Base/Result.antt =====
-- A value or an error, for Go's pair of a result and an error.
use mathlib.Core.Path.{◌≡◌, refl}
use mathlib.Core.Bool.{Bool, true, false}

pub data Result (E A : Type 0) : Type 0 where
  ok : A → Result E A
  err : E → Result E A

module _ {E : Type 0} where
  infixl 5 ◌>>=◌ ◌>>◌
  abbrev pub ◌>>=◌ : {A B : Type 0} → Result E A → (A → Result E B) → Result E B
  err failure >>= next = err failure
  ok value >>= next = next value

  abbrev pub ◌>>◌ : {B : Type 0} → Result E (Unit {0}) → Result E B → Result E B
  checked >> rest = checked >>= λ done. rest

  -- `if bad { return err }`
  abbrev pub refuse : Bool → E → Result E (Unit {0})
  refuse true e = err e
  refuse false e = ok tt

  pub >>=-eq-ok :
      {A B : Type 0} (first : Result E A) (next : A → Result E B) {b : B}
      → (first >>= next) ≡ ok b
      → (value : A) × (first ≡ ok value) × (next value ≡ ok b)
  >>=-eq-ok (err failure) next h = absurd (cc)
  >>=-eq-ok (ok value) next h = (value, refl, h)

  pub refuse-eq-ok :
      {B : Type 0} (b : Bool) (e : E) (k : Result E B) {x : B}
      → (refuse b e >> k) ≡ ok x
      → (b ≡ false) × (k ≡ ok x)
  refuse-eq-ok true e k h = absurd (cc)
  refuse-eq-ok false e k h = (refl, h)

  pub ok-injective : {A : Type 0} {a b : A} → ◌≡◌ {A = Result E A} (ok a) (ok b) → a ≡ b
  ok-injective h = cc
