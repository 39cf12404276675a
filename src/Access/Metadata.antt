-- ===== src/Access/Metadata.antt =====
-- pkg/grpc/callermeta/callermeta.go: a caller's identity and origin as request headers.
use gin_bot.Base.{
  ◌≡◌, ◌≢◌, refl, ◌∙◌, Bool, true, false, [], ◌∷◌, Option, none, some, if◌then◌else◌, arith,
  list_beq, list_eq, Bool-cases, inl, inr,
}
use gin_bot.Base.Dict.{get}
use gin_bot.Base.Result.{Result, ok, err, ◌>>=◌, ◌>>◌, refuse}
use gin_bot.Base.Text.{Text}
use gin_bot.Access.{
  Platform, unspecified, platform_name, platform_value, platform_value-platform_name, Caller,
  Origin, CallError, invalid_argument, Header, header_get, header_set, header_platform_enum,
  header_user_id, header_instance_uid, header_destination_uid, header_get-header_set,
}

-- What an outgoing context carries for these headers.
pub record Outgoing : Type 0 where
  pub caller : Option (Platform × Text)
  pub origin : Option Origin

unfoldable pub new_outgoing_context : Outgoing → Platform → Text → Outgoing
new_outgoing_context ctx platform platform_uid = record ctx {
  caller = some (platform, platform_uid);
}

abbrev pub is_empty : Text → Bool
is_empty [] = true
is_empty (c ∷ s) = false

unfoldable new_outgoing_origin : Outgoing → Origin → Outgoing
new_outgoing_origin ctx origin =
    if is_empty origin.instance_uid then ctx else record ctx { origin = some origin }

abbrev set_nonempty : Header → Text → Text → Header
set_nonempty h name value = if is_empty value then h else header_set h name value

abbrev write_caller : Option (Platform × Text) → Header → Header
write_caller none h = h
write_caller (some (platform, uid)) h =
    set_nonempty (header_set h header_platform_enum (platform_name platform)) header_user_id uid

abbrev write_origin : Option Origin → Header → Header
write_origin none h = h
write_origin (some origin) h =
    set_nonempty (header_set h header_instance_uid origin.instance_uid) header_destination_uid
      origin.destination_uid

unfoldable pub write_header : Outgoing → Header → Header
write_header ctx h = write_origin ctx.origin (write_caller ctx.caller h)

abbrev pub nonempty : Text → Option Text
nonempty [] = none
nonempty (c ∷ s) = some (c ∷ s)

abbrev known_platform : Option Platform → Result CallError Platform
known_platform none = err invalid_argument
known_platform (some unspecified) = err invalid_argument
known_platform (some platform) = ok platform

unfoldable pub from_header : Header → Result CallError Caller
from_header header = do
  refuse (is_empty (header_get header header_platform_enum)) invalid_argument
  platform ← known_platform (platform_value (header_get header header_platform_enum))
  ok (record {
    platform_enum = platform;
    platform_uid = nonempty (header_get header header_user_id);
  })

unfoldable pub origin_from_header : Header → Option Origin
origin_from_header header =
    if is_empty (header_get header header_instance_uid)
    then none
    else some (record {
      instance_uid = header_get header header_instance_uid;
      destination_uid = header_get header header_destination_uid;
    })

get-set_nonempty :
    (h : Header) (name value other : Text)
    → header_get (set_nonempty h name value) other ≡ (
        if list_beq name other
        then (if is_empty value then header_get h other else value)
        else header_get h other)
get-set_nonempty h name value other = ground (arith, header_get-header_set h name value other)

header_get-nil : (name : Text) → header_get [] name ≡ []
unfolding header_get get
header_get-nil name = refl

get-write_origin :
    (o : Option Origin) (h : Header) (name : Text)
    → list_beq header_instance_uid name ≡ false
    → list_beq header_destination_uid name ≡ false
    → header_get (write_origin o h) name ≡ header_get h name
get-write_origin none h name p q = refl
get-write_origin (some o) h name p q =
    rw
      (
        get-set_nonempty (header_set h header_instance_uid o.instance_uid) header_destination_uid
            o.destination_uid name,
        q,
        header_get-header_set h header_instance_uid o.instance_uid name,
        p,
      )
      refl

get-write_caller :
    (c : Option (Platform × Text)) (h : Header) (name : Text)
    → list_beq header_platform_enum name ≡ false
    → list_beq header_user_id name ≡ false
    → header_get (write_caller c h) name ≡ header_get h name
get-write_caller none h name p q = refl
get-write_caller (some (platform, uid)) h name p q =
    rw
      (
        get-set_nonempty (header_set h header_platform_enum (platform_name platform)) header_user_id
            uid name,
        q,
        header_get-header_set h header_platform_enum (platform_name platform) name,
        p,
      )
      refl

if_empty : (s : Text) → (if is_empty s then [] else s) ≡ s
if_empty [] = refl
if_empty (c ∷ s) = refl

platform_written :
    (platform : Platform) (uid : Text)
    → header_get (write_caller (some (platform, uid)) []) header_platform_enum
      ≡ platform_name platform
platform_written platform uid =
    get-set_nonempty (header_set [] header_platform_enum (platform_name platform)) header_user_id
      uid header_platform_enum
    ∙ header_get-header_set [] header_platform_enum (platform_name platform) header_platform_enum

user_written :
    (platform : Platform) (uid : Text)
    → header_get (write_caller (some (platform, uid)) []) header_user_id ≡ uid
user_written platform uid =
    rw
      (
        get-set_nonempty (header_set [] header_platform_enum (platform_name platform))
            header_user_id uid header_user_id,
        header_get-header_set [] header_platform_enum (platform_name platform) header_user_id,
        header_get-nil header_user_id,
      )
      (if_empty uid)

known_name :
    (p : Platform)
    → p ≢ unspecified
    → (is_empty (platform_name p) ≡ false) × (known_platform (some p) ≡ ok p)
unfolding platform_name
known_name unspecified h = absurd (h refl)
known_name _ h = (refl, refl)

-- A platform other than the unspecified one and a user, written by the client, are read back by
-- the server, whatever origin is written with them; an empty user is read as none.
pub from_header-write_header :
    (ctx : Outgoing) (platform : Platform) (uid : Text)
    → platform ≢ unspecified
    → from_header (write_header (new_outgoing_context ctx platform uid) [])
      ≡ ok (record { platform_enum = platform; platform_uid = nonempty uid })
unfolding from_header write_header new_outgoing_context
from_header-write_header ctx platform uid h =
    let (filled, known) = known_name platform h in
    rw
      (
        get-write_origin ctx.origin (write_caller (some (platform, uid)) []) header_platform_enum
            refl refl,
        get-write_origin ctx.origin (write_caller (some (platform, uid)) []) header_user_id refl
            refl,
        platform_written platform uid,
        user_written platform uid,
        filled,
        platform_value-platform_name platform,
        known,
      )
      refl

instance_written :
    (o : Origin) (h : Header)
    → header_get (write_origin (some o) h) header_instance_uid ≡ o.instance_uid
instance_written o h =
    get-set_nonempty (header_set h header_instance_uid o.instance_uid) header_destination_uid
      o.destination_uid header_instance_uid
    ∙ header_get-header_set h header_instance_uid o.instance_uid header_instance_uid

destination_written :
    (o : Origin) (h : Header)
    → header_get h header_destination_uid ≡ []
    → header_get (write_origin (some o) h) header_destination_uid ≡ o.destination_uid
destination_written o h e =
    rw
      (
        get-set_nonempty (header_set h header_instance_uid o.instance_uid) header_destination_uid
            o.destination_uid header_destination_uid,
        header_get-header_set h header_instance_uid o.instance_uid header_destination_uid,
        e,
      )
      (if_empty o.destination_uid)

caller_elsewhere :
    (c : Option (Platform × Text)) (name : Text)
    → list_beq header_platform_enum name ≡ false
    → list_beq header_user_id name ≡ false
    → header_get (write_caller c []) name ≡ []
caller_elsewhere c name p q = get-write_caller c [] name p q ∙ header_get-nil name

-- An origin with an instance is read back, its destination possibly empty; without an instance
-- none is written.
origin_from_header-write_header :
    (ctx : Outgoing) (origin : Origin)
    → ctx.origin ≡ none
    → origin_from_header (write_header (new_outgoing_origin ctx origin) [])
      ≡ (if is_empty origin.instance_uid then none else some origin)
unfolding origin_from_header write_header new_outgoing_origin
origin_from_header-write_header ctx origin h = elim (Bool-cases (is_empty origin.instance_uid)) [
  | inl e ↦ rw (e, h, caller_elsewhere ctx.caller header_instance_uid refl refl) refl
  | inr e ↦
      rw
        (
          e,
          instance_written origin (write_caller ctx.caller []),
          destination_written origin (write_caller ctx.caller [])
              (caller_elsewhere ctx.caller header_destination_uid refl refl),
          e,
        )
        refl
]
