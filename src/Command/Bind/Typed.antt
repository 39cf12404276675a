-- ===== src/Command/Bind/Typed.antt =====
-- The types of the bound arguments.
use gin_bot.Base.{
  List, [], ◌∷◌, Option, none, some, list_beq, list_beq_iff, list_eq, ◌≡◌, refl, sym, ◌∙◌, arith,
  Bool-cases, inl, inr, Elem, subst, some-eq,
}
use gin_bot.Base.Dict.{Dict, get, put, get-put, get-nil}
use gin_bot.Base.Result.{ok, >>=-eq-ok, ok-injective}
use gin_bot.Base.Text.{Text}
use gin_bot.Command.{
  Arg, Command, Value, string, int64, bool, ArgType, arg_string, arg_int, arg_bool, unknown,
}
use gin_bot.Command.Bind.{
  Invocation, BindError, bind_one, bind_loop, bind_named, coerce_arg, coerce_value, to_string,
  to_int64, to_bool, or_error,
}

-- The dynamic type that a declared type stands for.
abbrev HasType : ArgType → Value → Type 0
HasType arg_string (string s) = Unit
HasType arg_int (int64 n) = Unit
HasType arg_bool (bool b) = Unit
HasType _ _ = ⊥

or_error-ok :
    {A : Type 0} (f : A → Value) (e : BindError) (o : Option A) {w : Value}
    → or_error f e o ≡ ok w
    → (a : A) × (f a ≡ w)
or_error-ok f e none h = absurd (cc)
or_error-ok f e (some a) h = (a, ok-injective h)

coerce_value-HasType :
    (t : ArgType) (name : Text) (v : Value) {w : Value} → coerce_value t name v ≡ ok w → HasType t w
unfolding coerce_value
coerce_value-HasType arg_string name v h =
    let (s, eq) = or_error-ok string (BindError.wrong_type name) (to_string v) h in
    subst (HasType arg_string) eq tt
coerce_value-HasType arg_int name v h =
    let (n, eq) = or_error-ok int64 (BindError.wrong_type name) (to_int64 v) h in
    subst (HasType arg_int) eq tt
coerce_value-HasType arg_bool name v h =
    let (b, eq) = or_error-ok bool (BindError.wrong_type name) (to_bool v) h in
    subst (HasType arg_bool) eq tt
coerce_value-HasType unknown name v h = absurd (cc)

-- Every value belongs to a declared argument of its name and has that argument's type.
abbrev pub IsTyped : List Arg → Dict Text Value → Type 0
IsTyped declared m =
    (k : Text) (v : Value)
    → get m k ≡ some v
    → (arg : Arg) × Elem arg declared × (arg.name ≡ k) × HasType arg.type v

bind_one-IsTyped :
    (declared : List Arg) (bound : Dict Text Value) (arg : Arg) (found : Option Value)
    {bound' : Dict Text Value}
    → Elem arg declared
    → bind_one bound arg found ≡ ok bound'
    → IsTyped declared bound
    → IsTyped declared bound'
bind_one-IsTyped declared bound arg none e h typed = elim (Bool-cases arg.is_required) [
  | inl r ↦ absurd (ground arith)
  | inr o ↦ subst (IsTyped declared) (ok-injective (rw o at h)) typed
]
bind_one-IsTyped declared bound arg (some value) {bound'} e h typed =
    let (w, coerced, eq) =
      >>=-eq-ok (coerce_arg arg value) (λ v. ok (put bound arg.name v)) {b = bound'} h in
    subst (IsTyped declared) (ok-injective eq) λ k v found.
      elim (Bool-cases (list_beq arg.name k)) [
        | inl same ↦
            let there : some w ≡ some v = rw same at (sym (get-put bound arg.name w k) ∙ found) in
            (
              arg,
              e,
              (list_beq_iff arg.name k).0 same,
              subst (HasType arg.type) (some-eq there)
                  (unfold coerce_arg in coerce_value-HasType arg.type arg.name value coerced),
            )
        | inr differs ↦ typed k v (rw differs at (sym (get-put bound arg.name w k) ∙ found))
      ]

bind_loop-IsTyped :
    (declared : List Arg) (supplied bound : Dict Text Value) (specs : Dict Text Arg)
    (args : List Arg) {inv : Invocation}
    → ((a : Arg) → Elem a args → Elem a declared)
    → bind_loop supplied bound specs args ≡ ok inv
    → IsTyped declared bound
    → IsTyped declared inv.args
unfolding bind_loop
bind_loop-IsTyped declared supplied bound specs [] sub h typed =
    subst (λ (i : Invocation). IsTyped declared i.args) (ok-injective h) typed
bind_loop-IsTyped declared supplied bound specs (arg ∷ args) {inv} sub h typed =
    let (bound', one, rest) =
      >>=-eq-ok (bind_one bound arg (get supplied arg.name))
        (λ b. bind_loop supplied b (put specs arg.name arg) args) {b = inv} h in
    bind_loop-IsTyped declared supplied bound' (put specs arg.name arg) args (λ a e. sub a (inr e))
      rest
      (bind_one-IsTyped declared bound arg (get supplied arg.name) (sub arg (inl refl)) one typed)

-- Whatever values a platform supplies, under whatever names, a successful binding holds only
-- values of declared arguments, each of the type that a declared argument of that name has.
pub bind_named-IsTyped :
    {H : Type 0} (cmd : Command H) (supplied : Dict Text Value) {inv : Invocation}
    → bind_named cmd supplied ≡ ok inv
    → IsTyped cmd.args inv.args
unfolding bind_named
bind_named-IsTyped cmd supplied h =
    bind_loop-IsTyped cmd.args supplied [] [] cmd.args (λ a e. e) h
      (λ k v found. absurd (ground (arith, get-nil {V = Value} k)))
