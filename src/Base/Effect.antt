-- ===== src/Base/Effect.antt =====
-- Calls that change a state and may end in an error, which leaves what was written before it.
use mathlib.Core.Path.{◌≡◌, refl}
use mathlib.Core.Bool.{Bool, true, false}
use gin_bot.Base.Tests.{if◌then◌else◌}
use mathlib.Core.Option.{Option, none, some}
use gin_bot.Base.Result.{Result, ok, err}

-- A call: from a state to the state afterwards and the outcome.
abbrev pub Effect : Type 0 → Type 0 → Type 0 → Type 0
Effect S E A = S → S × Result E A

pub record IsPreorder {S : Type 0} (R : S → S → Type 0) : Type 0 where
  pub stays : (s : S) → R s s
  pub joins : {s t u : S} → R s t → R t u → R s u

-- The errors of one layer as those of the layer above.
abbrev pub map_error : {E F A : Type 0} → (E → F) → Result E A → Result F A
map_error f (ok value) = ok value
map_error f (err failure) = err (f failure)

pub map_error-ok :
    {E F A : Type 0} (f : E → F) (result : Result E A) (a : A)
    → map_error f result ≡ ok a
    → result ≡ ok a
map_error-ok f (ok b) a e = cc
map_error-ok f (err b) a e = absurd (cc)

module _ {S E : Type 0} where
  abbrev pub continue_with : {A B : Type 0} → (A → Effect S E B) → S × Result E A → S × Result E B
  continue_with next (s, err failure) = (s, err failure)
  continue_with next (s, ok value) = next value s

  infixl 5 ◌>>=◌ ◌>>◌
  unfoldable pub ◌>>=◌ : {A B : Type 0} → Effect S E A → (A → Effect S E B) → Effect S E B
  ◌>>=◌ first next s = continue_with next (first s)

  unfoldable pub ◌>>◌ : {A B : Type 0} → Effect S E A → Effect S E B → Effect S E B
  ◌>>◌ first next s = continue_with (λ done. next) (first s)

  abbrev pub return : {A : Type 0} → A → Effect S E A
  return value s = (s, ok value)

  abbrev fail : {A : Type 0} → E → Effect S E A
  fail failure s = (s, err failure)

  -- A computation that reads no state.
  abbrev pub lift : {A : Type 0} → Result E A → Effect S E A
  lift outcome s = (s, outcome)

  abbrev pub stop_if : Bool → E → Effect S E (Unit {0})
  stop_if bad failure s = (s, if bad then err failure else ok tt)

  abbrev pub get_or_fail : {A : Type 0} → E → Option A → Effect S E A
  get_or_fail failure none s = (s, err failure)
  get_or_fail failure (some value) s = (s, ok value)

  -- What a call may do to the state.
  abbrev pub Keeps : {A : Type 0} → (S → S → Type 0) → Effect S E A → Type 0
  Keeps R call = (s : S) → R s (call s).0

  continue_with-Keeps :
      {A B : Type 0} {R : S → S → Type 0} (s : S) (next : A → Effect S E B) (p : S × Result E A)
      → IsPreorder R
      → R s p.0
      → ((a : A) → p.1 ≡ ok a → R p.0 (next a p.0).0)
      → R s (continue_with next p).0
  continue_with-Keeps s next (t, err failure) order first rest = first
  continue_with-Keeps s next (t, ok value) order first rest = order.joins first (rest value refl)

  -- The rule for a sequence: the second call starts where the first, with that outcome, ended.
  pub >>=-Keeps :
      {A B : Type 0} {R : S → S → Type 0} (first : Effect S E A) (next : A → Effect S E B) (s : S)
      → IsPreorder R
      → R s (first s).0
      → ((a : A) → (first s).1 ≡ ok a → R (first s).0 (next a (first s).0).0)
      → R s ((first >>= next) s).0
  unfolding ◌>>=◌
  >>=-Keeps first next s order once rest = continue_with-Keeps s next (first s) order once rest

  pub >>-Keeps :
      {A B : Type 0} {R : S → S → Type 0} (first : Effect S E A) (next : Effect S E B) (s : S)
      → IsPreorder R
      → R s (first s).0
      → R (first s).0 (next (first s).0).0
      → R s ((first >> next) s).0
  unfolding ◌>>◌
  >>-Keeps first next s order once rest =
      continue_with-Keeps s (λ a. next) (first s) order once (λ a e. rest)

  -- A guard, and what it guards.
  pub stop_if-Keeps :
      {B : Type 0} {R : S → S → Type 0} (bad : Bool) (failure : E) (next : Effect S E B) (s : S)
      → IsPreorder R
      → (bad ≡ false → R s (next s).0)
      → R s ((stop_if bad failure >> next) s).0
  unfolding ◌>>◌
  stop_if-Keeps true failure next s order rest = order.stays s
  stop_if-Keeps false failure next s order rest = rest refl

module _ {S E F : Type 0} where
  abbrev pub with_error : {A : Type 0} → (E → F) → Effect S E A → Effect S F A
  with_error f call s = ((call s).0, map_error f (call s).1)

  -- A call whose failure is logged and otherwise ignored.
  abbrev pub best_effort : Effect S E (Unit {0}) → Effect S F (Unit {0})
  best_effort call s = ((call s).0, ok tt)

-- What a call may do to the state, from every state.
pub record Preserves {S E A : Type 0} (R : S → S → Type 0) (call : Effect S E A) : Type 0 where
  pub keeps : (s : S) → R s (call s).0

module _ {S E : Type 0} {R : S → S → Type 0} where
  pub >>=-Preserves :
      {A B : Type 0} (first : Effect S E A) (next : A → Effect S E B)
      → IsPreorder R
      → Preserves R first
      → ((a : A) → Preserves R (next a))
      → Preserves R (first >>= next)
  >>=-Preserves first next order once rest = record {
    keeps = λ s. >>=-Keeps first next s order (once.keeps s) (λ a e. (rest a).keeps (first s).0);
  }

  pub >>-Preserves :
      {A B : Type 0} (first : Effect S E A) (next : Effect S E B)
      → IsPreorder R
      → Preserves R first
      → Preserves R next
      → Preserves R (first >> next)
  unfolding ◌>>◌
  >>-Preserves first next order once rest = record {
    keeps = λ s. >>-Keeps first next s order (once.keeps s) (rest.keeps (first s).0);
  }

  -- A call that leaves the state as it was.
  pub read-Preserves :
      {A : Type 0} (call : Effect S E A)
      → IsPreorder R
      → ((s : S) → (call s).0 ≡ s)
      → Preserves R call
  read-Preserves call order same = record { keeps = λ s. rw (same s) (order.stays s) }

  pub get_or_fail-Preserves :
      {A : Type 0} (failure : E) (value : Option A)
      → IsPreorder R
      → Preserves R (get_or_fail failure value)
  get_or_fail-Preserves failure none order = record { keeps = order.stays }
  get_or_fail-Preserves failure (some a) order = record { keeps = order.stays }

-- What holds of the state after a call that succeeds.
pub record Ensures {S E A : Type 0} (Q : S → Type 0) (call : Effect S E A) : Type 0 where
  pub holds : (s : S) (a : A) → (call s).1 ≡ ok a → Q (call s).0

continue_with-Ensures :
    {S E A B : Type 0} (Q : S → Type 0) (next : A → Effect S E B) (p : S × Result E A) (b : B)
    → ((a : A) → p.1 ≡ ok a → (next a p.0).1 ≡ ok b → Q (next a p.0).0)
    → (continue_with next p).1 ≡ ok b
    → Q (continue_with next p).0
continue_with-Ensures Q next (s, err e) b rest done = absurd (cc)
continue_with-Ensures Q next (s, ok a) b rest done = rest a refl done

module _ {S E : Type 0} {Q : S → Type 0} where
  -- The last call ensures it.
  pub >>=-Ensures :
      {A B : Type 0} (first : Effect S E A) (next : A → Effect S E B)
      → ((a : A) → Ensures Q (next a))
      → Ensures Q (first >>= next)
  unfolding ◌>>=◌
  >>=-Ensures first next rest = record {
    holds = λ s b done.
        continue_with-Ensures Q next (first s) b (λ a e. (rest a).holds (first s).0 b) done;
  }

  pub >>-Ensures :
      {A B : Type 0} (first : Effect S E A) (next : Effect S E B)
      → Ensures Q next
      → Ensures Q (first >> next)
  unfolding ◌>>◌
  >>-Ensures first next rest = record {
    holds = λ s b done.
        continue_with-Ensures Q (λ a. next) (first s) b (λ a e. rest.holds (first s).0 b) done;
  }

  -- The first call ensures it, and what follows keeps it.
  pub Ensures->>= :
      {A B : Type 0} (first : Effect S E A) (next : A → Effect S E B)
      → Ensures Q first
      → ((a : A) → Preserves (λ s t. Q s → Q t) (next a))
      → Ensures Q (first >>= next)
  unfolding ◌>>=◌
  Ensures->>= first next once rest = record {
    holds = λ s b done.
        continue_with-Ensures Q next (first s) b
          (λ a e more. (rest a).keeps (first s).0 (once.holds s a e)) done;
  }

  pub Ensures->> :
      {A B : Type 0} (first : Effect S E A) (next : Effect S E B)
      → Ensures Q first
      → Preserves (λ s t. Q s → Q t) next
      → Ensures Q (first >> next)
  unfolding ◌>>◌
  Ensures->> first next once rest = record {
    holds = λ s b done.
        continue_with-Ensures Q (λ a. next) (first s) b
          (λ a e more. rest.keeps (first s).0 (once.holds s a e)) done;
  }

  pub given-Ensures :
      {A B : Type 0} (failure : E) (a : A) (next : A → Effect S E B)
      → Ensures Q (next a)
      → Ensures Q (get_or_fail failure (some a) >>= next)
  unfolding ◌>>=◌
  given-Ensures failure a next rest = record { holds = λ s b done. rest.holds s b done }

pub given-Preserves :
    {S E A B : Type 0} {R : S → S → Type 0} (failure : E) (a : A) (next : A → Effect S E B)
    → Preserves R (next a)
    → Preserves R (get_or_fail failure (some a) >>= next)
unfolding ◌>>=◌
given-Preserves failure a next rest = record { keeps = λ s. rest.keeps s }

-- A sequence that succeeds: its first call did, and then the second.
module _ {S E A B : Type 0} where
  continue_with-ok :
      (next : A → Effect S E B) (p : S × Result E A) (b : B)
      → (continue_with next p).1 ≡ ok b
      → (a : A) × ((p.1 ≡ ok a) × ((next a p.0).1 ≡ ok b))
  continue_with-ok next (s, err e) b h = absurd (cc)
  continue_with-ok next (s, ok a) b h = (a, (refl, h))

  pub >>=-ok :
      (first : Effect S E A) (next : A → Effect S E B) (s : S) (b : B)
      → ((first >>= next) s).1 ≡ ok b
      → (a : A) × (((first s).1 ≡ ok a) × ((next a (first s).0).1 ≡ ok b))
  unfolding ◌>>=◌
  >>=-ok first next s b h = continue_with-ok next (first s) b h

  pub >>-ok :
      (first : Effect S E A) (next : Effect S E B) (s : S) (b : B)
      → ((first >> next) s).1 ≡ ok b
      → (next (first s).0).1 ≡ ok b
  unfolding ◌>>◌
  >>-ok first next s b h = (continue_with-ok (λ a. next) (first s) b h).1.1
