-- ===== src/Service.antt =====
-- pkg/grpc/server: the handlers of the RPCs. The types and checks of common.go.
pub mod Reminders
pub mod Remind
pub mod History
pub mod Triggers
use gin_bot.Base.{Option, none, some, Bool, true, false}
use gin_bot.Base.Int.{ℤ}
use gin_bot.Base.Result.{Result, ok, err}
use gin_bot.Base.Text.{Text}
use gin_bot.Access.{Caller, CallError, internal}
use gin_bot.Access.Clearance.{Context}

-- What the handlers read of model.User.
pub record User : Type 0 where
  pub id : Text
  pub clearance : ℤ

abbrev or_internal : {A : Type 0} → Option A → Result CallError A
or_internal none = err internal
or_internal (some a) = ok a

unfoldable get_metadata : Context User → Result CallError Caller
get_metadata ctx = or_internal ctx.meta

unfoldable pub caller_user : Context User → Result CallError User
caller_user ctx = or_internal ctx.caller
