-- ===== src/Command.antt =====
-- pkg/command: the platform-neutral command catalogue. This file has the data of command.go; the
-- children have the registry, the chat parser and the binding of arguments.
pub mod Registry
pub mod Chat
pub mod Bind
use gin_bot.Base.{Bool, List, map, Option, ℕ}
use gin_bot.Base.Int.{ℤ}
use gin_bot.Base.Text.{Text, trim_space}

-- `unknown` is every int beside the three constants.
pub data ArgType : Type 0 where
  arg_string arg_int arg_bool unknown : ArgType

-- The dynamic types of a value `any` that the package tells apart.
pub data Value : Type 0 where
  nil : Value
  string : Text → Value
  int64 : ℤ → Value
  int : ℤ → Value
  int32 : ℤ → Value
  bool : Bool → Value
  other : Value

pub record Arg : Type 0 where
  pub name : Text
  pub description : Text
  pub type : ArgType
  pub is_required : Bool
  pub default : Value

-- `H` is the type of handlers; a nil handler is none.
pub record Command (H : Type 0) : Type 0 where
  pub name : Text
  pub aliases : List Text
  pub description : Text
  pub args : List Arg
  pub group : Text
  pub sub : Text
  pub clearance : ℤ
  pub is_slow : Bool
  pub is_ephemeral : Bool
  pub handler : Option H

-- strings.ToLower(strings.TrimSpace(name)); `lower` is unicode.ToLower, a table of the platform.
unfoldable pub fold : (ℕ → ℕ) → Text → Text
unfolding trim_space
fold lower name = map lower (trim_space name)
