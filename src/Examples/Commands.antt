-- ===== src/Examples/Commands.antt =====
-- pkg/command at concrete commands and messages.
use gin_bot.Base.{
  ℕ, ◌+◌, true, false, ◌&&◌, [], ◌∷◌, ◌++◌, some, if◌then◌else◌, leb, list_eq, ◌≡◌, refl, inl, inr,
  arith,
}
use gin_bot.Base.Dict.{get, put, delete}
use gin_bot.Base.Int.{pos}
use gin_bot.Base.Result.{ok}
use gin_bot.Base.Text.{codes}
use gin_bot.Command.{Command, Arg, arg_int, Value, nil, int, int64, fold}
use gin_bot.Command.Registry.{
  Registry, new_registry, register, accept, validate_args, validate_grouping, collect_keys,
  check_keys, check_group, put_keys, add_member, write, lookup, resolve_chat,
}
use gin_bot.Command.Registry.WellFormed.{IsWellFormed, new_registry-IsWellFormed}
use gin_bot.Command.Registry.Names.{
  register-IsWellFormed, lookup-register, lookup-register_kept, register_taken,
}
use gin_bot.Command.Registry.Groups.{resolve_chat-register}
use gin_bot.Command.Chat.{match_prefix, parse_chat}
use gin_bot.Command.Chat.Tokens.{spell, parse_chat-spell}
use gin_bot.Command.Bind.{Invocation, bind, bind_named}
use gin_bot.Command.Bind.Required.{bind_required}
use gin_bot.Command.Bind.Typed.{bind_named-IsTyped, IsTyped}

abbrev ascii_lower : ℕ → ℕ
ascii_lower c = if leb b'A' c && leb c b'Z' then c + 32 else c

abbrev sides : Arg
sides = record {
  name = codes "sides";
  description = [];
  type = arg_int;
  is_required = true;
  default = nil;
}

abbrev roll : Command (Unit {0})
roll = record {
  name = codes "Roll";
  aliases = codes "dice" ∷ [];
  description = [];
  args = sides ∷ [];
  group = codes "fun";
  sub = codes "roll";
  clearance = pos 0;
  is_slow = false;
  is_ephemeral = false;
  handler = some tt;
}

abbrev coin : Command (Unit {0})
coin = record roll { name = codes "coin"; aliases = []; sub = codes "coin" }

abbrev one_command : Registry (Unit {0})
one_command = write ascii_lower new_registry roll (codes "roll" ∷ codes "dice" ∷ [])

abbrev two_commands : Registry (Unit {0})
two_commands = write ascii_lower one_command coin (codes "coin" ∷ [])

roll_registered : register ascii_lower new_registry roll ≡ ok one_command
unfolding register accept validate_args validate_grouping collect_keys check_keys check_group fold
    get new_registry
roll_registered = refl

register-IsWellFormed_example : IsWellFormed ascii_lower one_command
register-IsWellFormed_example =
    register-IsWellFormed ascii_lower new_registry one_command roll
      (new_registry-IsWellFormed ascii_lower) roll_registered

lookup-register_example : lookup ascii_lower one_command (codes " DICE") ≡ some roll
lookup-register_example =
    lookup-register ascii_lower new_registry one_command roll (codes "dice") (codes " DICE")
      roll_registered (inr (inl refl)) (unfold fold in refl)

resolve_chat-register_example :
    resolve_chat ascii_lower one_command (codes "fun") (codes "roll" ∷ codes "6" ∷ [])
    ≡ some (roll, codes "6" ∷ [])
resolve_chat-register_example =
    resolve_chat-register ascii_lower new_registry one_command roll (codes "6" ∷ [])
      (new_registry-IsWellFormed ascii_lower) roll_registered (unfold fold in refl)

coin_registered : register ascii_lower one_command coin ≡ ok two_commands
unfolding register write get put new_registry accept fold validate_args validate_grouping
    collect_keys check_keys put_keys add_member check_group
coin_registered = refl

lookup-register_kept_example : lookup ascii_lower two_commands (codes "dice") ≡ some roll
lookup-register_kept_example =
    lookup-register_kept ascii_lower one_command two_commands coin roll (codes "dice")
      register-IsWellFormed_example coin_registered
      (unfold lookup write put_keys put fold get new_registry in refl)

register_taken_example : ¬ (register ascii_lower one_command roll ≡ ok two_commands)
register_taken_example =
    register_taken ascii_lower one_command two_commands roll roll (codes "dice")
      (unfold lookup write put_keys put fold get new_registry in refl) (inr (inl refl))

parse_chat-spell_example :
    parse_chat (codes "?" ++ spell (codes "roll" ∷ codes "two words" ∷ [])) (codes "?" ∷ [])
    ≡ some (codes "roll", codes "two words" ∷ [])
parse_chat-spell_example =
    parse_chat-spell (codes "?" ∷ []) (codes "?") b'r' (codes "oll") (codes "two words" ∷ [])
      (unfold match_prefix in refl) (omega arith)

abbrev six : Invocation
six = record { args = (codes "sides", int64 (pos 6)) ∷ []; specs = (codes "sides", sides) ∷ [] }

bind_required_example : (v : Value) × (get six.args (codes "sides") ≡ some v)
bind_required_example =
    bind_required roll (codes "6" ∷ []) sides {inv = six} (unfold bind put delete get in refl)
      (inl refl) refl

bind_named-IsTyped_example : IsTyped (sides ∷ []) six.args
bind_named-IsTyped_example =
    bind_named-IsTyped roll ((codes "sides", int (pos 6)) ∷ []) {inv = six}
      (unfold bind_named put delete get in refl)
