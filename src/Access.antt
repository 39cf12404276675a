-- ===== src/Access.antt =====
-- The path of a call into the server: pkg/grpc/callermeta writes and reads the headers,
-- pkg/grpc/interceptor resolves the caller, checks the clearance and records the origin. Here the
-- types that the two share.
pub mod Metadata
pub mod Clearance
pub mod Origins
use gin_bot.Base.{
  ℕ, ◌≡◌, refl, List, [], ◌∷◌, Option, none, some, Bool, if◌then◌else◌, list_beq, list_eq, arith,
}
use gin_bot.Base.Dict.{Dict, get, put, get-put}
use gin_bot.Base.Text.{Text, codes}

-- Platform of proto/ginbot/v1/platform.proto
pub data Platform : Type 0 where
  unspecified discord matrix_protocol telegram line email snail_mail : Platform

-- Platform.String
unfoldable pub platform_name : Platform → Text
platform_name unspecified = codes "PLATFORM_UNSPECIFIED"
platform_name discord = codes "PLATFORM_DISCORD"
platform_name matrix_protocol = codes "PLATFORM_MATRIX_PROTOCOL"
platform_name telegram = codes "PLATFORM_TELEGRAM"
platform_name line = codes "PLATFORM_LINE"
platform_name email = codes "PLATFORM_EMAIL"
platform_name snail_mail = codes "PLATFORM_SNAIL_MAIL"

abbrev platforms : List Platform
platforms = unspecified ∷ discord ∷ matrix_protocol ∷ telegram ∷ line ∷ email ∷ snail_mail ∷ []

abbrev named_in : List Platform → Text → Option Platform
named_in [] name = none
named_in (p ∷ ps) name =
    let rest = named_in ps name in if list_beq (platform_name p) name then some p else rest

-- Platform_value
unfoldable pub platform_value : Text → Option Platform
unfolding platform_name
platform_value name = named_in platforms name

pub platform_value-platform_name : (p : Platform) → platform_value (platform_name p) ≡ some p
unfolding platform_value
platform_value-platform_name unspecified = refl
platform_value-platform_name discord = refl
platform_value-platform_name matrix_protocol = refl
platform_value-platform_name telegram = refl
platform_value-platform_name line = refl
platform_value-platform_name email = refl
platform_value-platform_name snail_mail = refl

pub record Caller : Type 0 where
  pub platform_enum : Platform
  -- none when the call was made without a user
  pub platform_uid : Option Text

pub record Origin : Type 0 where
  pub instance_uid : Text
  pub destination_uid : Text

-- The codes of connect.Error that the interceptors and the handlers answer with.
pub data CallError : Type 0 where
  invalid_argument failed_precondition permission_denied not_found already_exists internal :
      CallError

-- A request's header: the values of the names that are set.
abbrev pub Header : Type 0
Header = Dict Text Text

abbrev or_blank : Option Text → Text
or_blank none = []
or_blank (some v) = v

-- http.Header.Get: the empty string for a name that is not set
unfoldable pub header_get : Header → Text → Text
header_get h name = or_blank (get h name)

-- http.Header.Set
unfoldable pub header_set : Header → Text → Text → Header
header_set h name value = put h name value

abbrev pub header_platform_enum : Text
header_platform_enum = codes "ginbot-platform-enum"

abbrev pub header_user_id : Text
header_user_id = codes "ginbot-user-id"

abbrev pub header_instance_uid : Text
header_instance_uid = codes "ginbot-instance-uid"

abbrev pub header_destination_uid : Text
header_destination_uid = codes "ginbot-destination-uid"

pub header_get-header_set :
    (h : Header) (name value other : Text)
    → header_get (header_set h name value) other
      ≡ (if list_beq name other then value else header_get h other)
unfolding header_get header_set
header_get-header_set h name value other = ground (arith, get-put h name value other)
