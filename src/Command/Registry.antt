-- ===== src/Command/Registry.antt =====
-- pkg/command/command.go: Registry. `Register` writes only behind its last early return, so it is
-- a function to a result: an error leaves the registry that the caller has.
pub mod WellFormed
pub mod Kept
pub mod Names
pub mod Groups
use gin_bot.Base.{
  ℕ, Bool, true, false, ◌&&◌, ◌||◌, not, List, [], ◌∷◌, map, Option, none, some, if◌then◌else◌,
  list_beq, list_eq,
}
use gin_bot.Base.Dict.{Dict, get, put}
use gin_bot.Base.Result.{Result, ok, err, ◌>>=◌, ◌>>◌, refuse}
use gin_bot.Base.Text.{Text, trim_space}
use gin_bot.Command.{ArgType, arg_string, arg_int, arg_bool, unknown, Arg, Command, fold}

pub record CommandGroup : Type 0 where
  pub name : Text
  pub members : Dict Text Text

pub record Registry (H : Type 0) : Type 0 where
  pub commands : Dict Text (Command H)
  pub canonical : Dict Text Text
  pub groups : Dict Text CommandGroup

-- One constructor for each message of `Register` and of the two validations.
pub data RegisterError : Type 0 where
  empty_name no_handler : RegisterError
  unnamed_argument duplicate_argument unknown_type required_after_optional : RegisterError
  sub_without_group group_without_sub blank_group blank_sub : RegisterError
  empty_alias already_registered declared_twice already_group own_group : RegisterError
  group_is_command sub_taken : RegisterError

unfoldable pub new_registry : {H : Type 0} → Registry H
new_registry = record { commands = []; canonical = []; groups = [] }

abbrev pub is_blank : Text → Bool
is_blank [] = true
is_blank (c ∷ s) = false

abbrev pub is_none : {A : Type 0} → Option A → Bool
is_none none = true
is_none (some a) = false

abbrev pub is_some : {A : Type 0} → Option A → Bool
is_some o = not (is_none o)

-- The key is in the set `seen`.
unfoldable pub contains : List Text → Text → Bool
contains [] k = false
contains (x ∷ xs) k = list_beq x k || contains xs k

abbrev is_unknown : ArgType → Bool
is_unknown unknown = true
is_unknown _ = false

module _ (lower : ℕ → ℕ) where
  unfoldable validate_args_from : List Text → Bool → List Arg → Result RegisterError (Unit {0})
  unfolding contains fold
  validate_args_from seen optional_seen [] = ok tt
  validate_args_from seen optional_seen (arg ∷ args) = do
    let name = fold lower arg.name
    refuse (is_blank name) unnamed_argument
    refuse (contains seen name) duplicate_argument
    refuse (is_unknown arg.type) unknown_type
    refuse (arg.is_required && optional_seen) required_after_optional
    validate_args_from (name ∷ seen) (not arg.is_required || optional_seen) args

module _ (lower : ℕ → ℕ) {H : Type 0} where
  unfoldable pub validate_args : Command H → Result RegisterError (Unit {0})
  unfolding validate_args_from
  validate_args cmd = validate_args_from lower [] false cmd.args

  unfoldable pub validate_grouping : Command H → Result RegisterError (Unit {0})
  unfolding fold
  validate_grouping cmd = if is_blank cmd.group && is_blank cmd.sub then ok tt else do
    refuse (is_blank cmd.group) sub_without_group
    refuse (is_blank cmd.sub) group_without_sub
    refuse (is_blank (fold lower cmd.group)) blank_group
    refuse (is_blank (fold lower cmd.sub)) blank_sub

-- The loop over the aliases.
module _ (lower : ℕ → ℕ) where
  unfoldable pub collect_keys : List Text → Result RegisterError (List Text)
  unfolding fold
  collect_keys [] = ok []
  collect_keys (alias ∷ aliases) = do
    let folded = fold lower alias
    refuse (is_blank folded) empty_alias
    keys ← collect_keys aliases
    ok (folded ∷ keys)

-- The members of a group, and of a missing one none.
abbrev pub members_of : Option CommandGroup → Dict Text Text
members_of none = []
members_of (some g) = g.members

-- for _, key := range keys { r.canonical[key] = name }
unfoldable pub put_keys : List Text → Text → Dict Text Text → Dict Text Text
put_keys [] name m = m
put_keys (key ∷ keys) name m = put_keys keys name (put m key name)

module _ {H : Type 0} where
  -- The loop over the keys, with the set `seen`.
  unfoldable pub check_keys :
      Registry H → Text → List Text → List Text → Result RegisterError (Unit {0})
  unfolding contains
  check_keys r group seen [] = ok tt
  check_keys r group seen (key ∷ keys) = do
    refuse (is_some (get r.canonical key)) already_registered
    refuse (contains seen key) declared_twice
    refuse (is_some (get r.groups key)) already_group
    refuse (list_beq key group) own_group
    check_keys r group (key ∷ seen) keys

  unfoldable pub check_group : Registry H → Text → Text → Result RegisterError (Unit {0})
  check_group r group sub = if is_blank group then ok tt else do
    refuse (is_some (get r.canonical group)) group_is_command
    refuse (is_some (get (members_of (get r.groups group)) sub)) sub_taken

  abbrev pub group_of : Command H → Option CommandGroup → CommandGroup
  group_of cmd none = record { name = trim_space cmd.group; members = [] }
  group_of cmd (some g) = g

  unfoldable pub add_member : Registry H → Command H → Text → Text → Text → Dict Text CommandGroup
  add_member r cmd group sub name =
      let existing = group_of cmd (get r.groups group) in
      if is_blank group
      then r.groups
      else put r.groups group (record existing { members = put existing.members sub name })

module _ (lower : ℕ → ℕ) {H : Type 0} where
  -- Everything above the first write: the keys of a command that may be registered.
  unfoldable pub accept : Registry H → Command H → Result RegisterError (List Text)
  accept r cmd = do
    let name = fold lower cmd.name
    refuse (is_blank name) empty_name
    refuse (is_none cmd.handler) no_handler
    validate_args lower cmd
    validate_grouping lower cmd
    aliases ← collect_keys lower cmd.aliases
    check_keys r (fold lower cmd.group) [] (name ∷ aliases)
    check_group r (fold lower cmd.group) (fold lower cmd.sub)
    ok (name ∷ aliases)

  unfoldable pub write : Registry H → Command H → List Text → Registry H
  write r cmd keys =
      let name = fold lower cmd.name in
      record {
        commands = put r.commands name cmd;
        canonical = put_keys keys name r.canonical;
        groups = add_member r cmd (fold lower cmd.group) (fold lower cmd.sub) name;
      }

  unfoldable pub register : Registry H → Command H → Result RegisterError (Registry H)
  register r cmd = do keys ← accept r cmd; ok (write r cmd keys)

  abbrev find_command : Registry H → Option Text → Option (Command H)
  find_command r none = none
  find_command r (some canonical) = get r.commands canonical

  unfoldable pub lookup : Registry H → Text → Option (Command H)
  lookup r name = find_command r (get r.canonical (fold lower name))

  abbrev with_args : List Text → Option (Command H) → Option (Command H × List Text)
  with_args args none = none
  with_args args (some cmd) = some (cmd, args)

  -- The path behind a missing flat name: a group, then a consumed sub token.
  abbrev resolve_group :
      Registry H → Option CommandGroup → List Text → Option (Command H × List Text)
  resolve_group r none args = none
  resolve_group r (some group) [] = none
  resolve_group r (some group) (sub ∷ args) =
      with_args args (find_command r (get group.members (fold lower sub)))

  abbrev resolve_from :
      Registry H → Option (Command H) → Text → List Text → Option (Command H × List Text)
  resolve_from r (some cmd) name args = some (cmd, args)
  resolve_from r none name args = resolve_group r (get r.groups (fold lower name)) args

  unfoldable pub resolve_chat : Registry H → Text → List Text → Option (Command H × List Text)
  resolve_chat r name args = resolve_from r (lookup r name) name args
