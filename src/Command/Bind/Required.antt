-- ===== src/Command/Bind/Required.antt =====
-- What a handler may rely on in the arguments that it is given.
use gin_bot.Base.{
  true, List, [], ◌∷◌, Option, none, some, list_beq, list_eq, ◌≡◌, arith, Bool-cases, inl, inr,
  Elem, subst,
}
use gin_bot.Base.Dict.{Dict, get, put, get-put, get-put_self}
use gin_bot.Base.Result.{ok, >>=-eq-ok, ok-injective}
use gin_bot.Base.Text.{Text}
use gin_bot.Command.{Arg, Command, Value}
use gin_bot.Command.Bind.{Invocation, bind_one, bind_loop, bind_named, supply, bind, coerce_arg}

-- A key keeps a value, perhaps another one.
abbrev Has : Dict Text Value → Text → Type 0
Has m k = (v : Value) × (get m k ≡ some v)

put-Has : (m : Dict Text Value) (j k : Text) (v : Value) → Has m k → Has (put m j v) k
put-Has m j k v (w, h) = elim (Bool-cases (list_beq j k)) [
  | inl same ↦ (v, ground (arith, get-put m j v k))
  | inr other ↦ (w, ground (arith, get-put m j v k))
]

bind_one-Has :
    (bound : Dict Text Value) (arg : Arg) (found : Option Value) (k : Text)
    {bound' : Dict Text Value}
    → bind_one bound arg found ≡ ok bound'
    → Has bound k
    → Has bound' k
bind_one-Has bound arg none k h has = elim (Bool-cases arg.is_required) [
  | inl r ↦ absurd (ground arith)
  | inr o ↦ subst (λ m. Has m k) (ok-injective (rw o at h)) has
]
bind_one-Has bound arg (some value) k {bound'} h has =
    let (typed, coerced, eq) =
      >>=-eq-ok (coerce_arg arg value) (λ v. ok (put bound arg.name v)) {b = bound'} h in
    subst (λ m. Has m k) (ok-injective eq) (put-Has bound arg.name k typed has)

bind_one_required :
    (bound : Dict Text Value) (arg : Arg) (found : Option Value) {bound' : Dict Text Value}
    → bind_one bound arg found ≡ ok bound'
    → arg.is_required ≡ true
    → Has bound' arg.name
bind_one_required bound arg none h r = absurd (ground arith)
bind_one_required bound arg (some value) {bound'} h r =
    let (typed, coerced, eq) =
      >>=-eq-ok (coerce_arg arg value) (λ v. ok (put bound arg.name v)) {b = bound'} h in
    subst (λ m. Has m arg.name) (ok-injective eq) (typed, get-put_self bound arg.name typed)

bind_loop-Has :
    (supplied bound : Dict Text Value) (specs : Dict Text Arg) (args : List Arg) (k : Text)
    {inv : Invocation}
    → bind_loop supplied bound specs args ≡ ok inv
    → Has bound k
    → Has inv.args k
unfolding bind_loop
bind_loop-Has supplied bound specs [] k h has =
    subst (λ (i : Invocation). Has i.args k) (ok-injective h) has
bind_loop-Has supplied bound specs (arg ∷ args) k {inv} h has =
    let (bound', one, rest) =
      >>=-eq-ok (bind_one bound arg (get supplied arg.name))
        (λ b. bind_loop supplied b (put specs arg.name arg) args) {b = inv} h in
    bind_loop-Has supplied bound' (put specs arg.name arg) args k rest
      (bind_one-Has bound arg (get supplied arg.name) k one has)

bind_loop_required :
    (supplied bound : Dict Text Value) (specs : Dict Text Arg) (args : List Arg) (arg : Arg)
    {inv : Invocation}
    → bind_loop supplied bound specs args ≡ ok inv
    → Elem arg args
    → arg.is_required ≡ true
    → Has inv.args arg.name
unfolding bind_loop
bind_loop_required supplied bound specs [] arg h e r = absurd e
bind_loop_required supplied bound specs (a ∷ args) arg {inv} h e r =
    let (bound', one, rest) =
      >>=-eq-ok (bind_one bound a (get supplied a.name))
        (λ b. bind_loop supplied b (put specs a.name a) args) {b = inv} h in
    elim e [
      | inl same ↦ rw same (
          bind_loop-Has supplied bound' (put specs a.name a) args a.name rest
            (bind_one_required bound a (get supplied a.name) one (rw same at r)))
      | inr later ↦ bind_loop_required supplied bound' (put specs a.name a) args arg rest later r
    ]

-- When the binding of a chat command's raw arguments succeeds, every required argument of the
-- command has a value.
pub bind_required :
    {H : Type 0} (cmd : Command H) (raw : List Text) (arg : Arg) {inv : Invocation}
    → bind cmd raw ≡ ok inv
    → Elem arg cmd.args
    → arg.is_required ≡ true
    → (v : Value) × (get inv.args arg.name ≡ some v)
unfolding bind
bind_required cmd raw arg {inv} h e r =
    let (supplied, parsed, bound) =
      >>=-eq-ok (supply [] cmd.args raw) (bind_named cmd) {b = inv} h in
    bind_loop_required supplied [] [] cmd.args arg bound e r
