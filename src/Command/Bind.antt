-- ===== src/Command/Bind.antt =====
-- pkg/command: Bind and BindNamed of parse.go, Invocation and its accessors of command.go.
-- `strconv.ParseInt(raw, 10, 64)` and `strconv.ParseBool` are written out.
pub mod Required
pub mod Typed
use gin_bot.Base.{
  ℕ, ◌+◌, ◌-◌, ◌*◌, ◌^◌, Bool, true, false, ◌&&◌, ◌||◌, not, List, [], ◌∷◌, Option, none, some,
  if◌then◌else◌, leb, ltb, ◌==◌, list_beq, list_eq, ◌≡◌, refl,
}
use gin_bot.Base.Dict.{Dict, get, put}
use gin_bot.Base.Int.{ℤ, pos, negsuc}
use gin_bot.Base.Result.{Result, ok, err, ◌>>=◌}
use gin_bot.Base.Text.{Text, codes}
use gin_bot.Command.{
  ArgType, arg_string, arg_int, arg_bool, unknown, Value, nil, string, int64, int, int32, bool,
  other, Arg, Command,
}
use gin_bot.Command.Registry.{is_some}

-- The errors, with the argument's name: invalid_argument except `unknown_type`, which is internal.
pub data BindError : Type 0 where
  required not_whole_number not_boolean unknown_type wrong_type : Text → BindError

pub record Invocation : Type 0 where
  pub args : Dict Text Value
  pub specs : Dict Text Arg

abbrev pub is_digit : ℕ → Bool
is_digit c = leb b'0' c && leb c b'9'

-- The value of a text of decimal digits, behind `n`.
unfoldable digits_from : ℕ → Text → Option ℕ
digits_from n [] = some n
digits_from n (c ∷ s) =
    let rest = digits_from (n * 10 + (c - b'0')) s in if is_digit c then rest else none

unfoldable pub digits : Text → Option ℕ
unfolding digits_from
digits [] = none
digits (c ∷ s) = digits_from 0 (c ∷ s)

abbrev pub positive : Option ℕ → Option ℤ
positive none = none
positive (some n) = if ltb n (2 ^ 63) then some (pos n) else none

abbrev minus : ℕ → ℤ
minus n = if n == 0 then pos 0 else negsuc (n - 1)

abbrev negative : Option ℕ → Option ℤ
negative none = none
negative (some n) = if leb n (2 ^ 63) then some (minus n) else none

unfoldable pub parse_int : Text → Option ℤ
unfolding digits
parse_int [] = none
parse_int (c ∷ s) =
    if c == b'-'
    then negative (digits s)
    else if c == b'+'
    then positive (digits s)
    else positive (digits (c ∷ s))

abbrev is_one_of : List Text → Text → Bool
is_one_of [] s = false
is_one_of (t ∷ ts) s = list_beq t s || is_one_of ts s

unfoldable parse_bool : Text → Option Bool
parse_bool s =
    if is_one_of
      (codes "1" ∷ codes "t" ∷ codes "T" ∷ codes "TRUE" ∷ codes "true" ∷ codes "True" ∷ []) s
    then some true
    else if is_one_of
        (codes "0" ∷ codes "f" ∷ codes "F" ∷ codes "FALSE" ∷ codes "false" ∷ codes "False" ∷ []) s
    then some false
    else none

-- The value or the error of a parse that may fail.
abbrev pub or_error : {A : Type 0} → (A → Value) → BindError → Option A → Result BindError Value
or_error f e none = err e
or_error f e (some a) = ok (f a)

unfoldable parse_value : ArgType → Text → Text → Result BindError Value
unfolding parse_int parse_bool
parse_value arg_string name raw = ok (string raw)
parse_value arg_int name raw = or_error int64 (not_whole_number name) (parse_int raw)
parse_value arg_bool name raw = or_error bool (not_boolean name) (parse_bool raw)
parse_value unknown name raw = err (unknown_type name)

unfoldable parse_arg : Arg → Text → Result BindError Value
unfolding parse_value
parse_arg arg raw = parse_value arg.type arg.name raw

unfoldable pub to_int64 : Value → Option ℤ
to_int64 (int64 n) = some n
to_int64 (int n) = some n
to_int64 (int32 n) = some n
to_int64 _ = none

unfoldable pub to_string : Value → Option Text
to_string (string s) = some s
to_string _ = none

unfoldable pub to_bool : Value → Option Bool
to_bool (bool b) = some b
to_bool _ = none

unfoldable pub coerce_value : ArgType → Text → Value → Result BindError Value
unfolding to_int64 to_string to_bool
coerce_value arg_string name v = or_error string (wrong_type name) (to_string v)
coerce_value arg_int name v = or_error int64 (wrong_type name) (to_int64 v)
coerce_value arg_bool name v = or_error bool (wrong_type name) (to_bool v)
coerce_value unknown name v = err (unknown_type name)

unfoldable pub coerce_arg : Arg → Value → Result BindError Value
unfolding coerce_value
coerce_arg arg v = coerce_value arg.type arg.name v

-- What the loop of `BindNamed` does with one argument: the bound arguments after it.
abbrev pub bind_one : Dict Text Value → Arg → Option Value → Result BindError (Dict Text Value)
bind_one bound arg none = if arg.is_required then err (required arg.name) else ok bound
bind_one bound arg (some value) = do typed ← coerce_arg arg value; ok (put bound arg.name typed)

unfoldable pub bind_loop :
    Dict Text Value → Dict Text Value → Dict Text Arg → List Arg → Result BindError Invocation
unfolding coerce_arg
bind_loop supplied bound specs [] = ok (record { args = bound; specs = specs })
bind_loop supplied bound specs (arg ∷ args) = do
  bound' ← bind_one bound arg (get supplied arg.name)
  bind_loop supplied bound' (put specs arg.name arg) args

unfoldable pub bind_named : {H : Type 0} → Command H → Dict Text Value → Result BindError Invocation
unfolding bind_loop
bind_named cmd args = bind_loop args [] [] cmd.args

-- The loop of `Bind`; it ends with the declared or with the raw arguments.
unfoldable pub supply : Dict Text Value → List Arg → List Text → Result BindError (Dict Text Value)
unfolding parse_arg
supply supplied [] raw = ok supplied
supply supplied (arg ∷ args) [] = ok supplied
supply supplied (arg ∷ args) (r ∷ raw) = do
  value ← parse_arg arg r
  supply (put supplied arg.name value) args raw

unfoldable pub bind : {H : Type 0} → Command H → List Text → Result BindError Invocation
unfolding supply bind_named
bind cmd raw = do supplied ← supply [] cmd.args raw; bind_named cmd supplied

-- The accessors: the supplied value of the type, else the default of the type, else zero.
abbrev default_of : Option Arg → Value
default_of none = nil
default_of (some arg) = arg.default

abbrev value_of : Option Value → Value
value_of none = nil
value_of (some v) = v

abbrev or_else : {A : Type 0} → Option A → Option A → A → A
or_else (some a) second z = a
or_else none (some a) z = a
or_else none none z = z

unfoldable string_of : Invocation → Text → Text
unfolding to_string
string_of inv name =
    or_else (to_string (value_of (get inv.args name))) (to_string (default_of (get inv.specs name)))
      []

unfoldable int_of : Invocation → Text → ℤ
unfolding to_int64
int_of inv name =
    or_else (to_int64 (value_of (get inv.args name))) (to_int64 (default_of (get inv.specs name)))
      (pos 0)

unfoldable bool_of : Invocation → Text → Bool
unfolding to_bool
bool_of inv name =
    or_else (to_bool (value_of (get inv.args name))) (to_bool (default_of (get inv.specs name)))
      false

unfoldable pub has : Invocation → Text → Bool
has inv name = is_some (get inv.args name)
