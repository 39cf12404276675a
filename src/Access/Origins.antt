-- ===== src/Access/Origins.antt =====
-- pkg/grpc/interceptor/origin.go: the origin of a call, and the cache of origins whose rows are
-- written. `order` is the order in which a range over the set of keys visits them, `resolve`
-- whether the upsert of the rows succeeds. The mutex makes each call of the cache one step.
pub mod Cache
pub mod Key
pub mod Once
use gin_bot.Base.{
  ℕ, zero, suc, ◌/◌, ◌==◌, Bool, true, false, not, ◌&&◌, List, [], ◌∷◌, ◌++◌, Option, none, some,
  if◌then◌else◌, leb, length, list_eq,
}
use gin_bot.Base.Dict.{Dict, get, put, delete}
use gin_bot.Base.Text.{Text, codes}
use gin_bot.Access.{Platform, platform_name, Caller, Origin, Header}
use gin_bot.Access.Metadata.{is_empty, origin_from_header}
use gin_bot.Access.Clearance.{Context}

abbrev pub origin_cache_max_entries : ℕ
origin_cache_max_entries = 4096

abbrev pub origin_cache_evict_divisor : ℕ
origin_cache_evict_divisor = 4

pub record OriginCache : Type 0 where
  pub seen : Dict Text (Unit {0})

unfoldable pub new_origin_cache : OriginCache
new_origin_cache = record { seen = [] }

abbrev pub is_present : Option (Unit {0}) → Bool
is_present none = false
is_present (some u) = true

unfoldable pub known : OriginCache → Text → Bool
known c key = is_present (get c.seen key)

unfoldable pub delete_first : ℕ → List Text → Dict Text (Unit {0}) → Dict Text (Unit {0})
delete_first zero keys m = m
delete_first (suc n) [] m = m
delete_first (suc n) (key ∷ keys) m = delete_first n keys (delete m key)

abbrev pub at_least_one : ℕ → ℕ
at_least_one n = if n == 0 then 1 else n

module _ (order : Dict Text (Unit {0}) → List Text) where
  unfoldable pub evict : OriginCache → OriginCache
  unfolding delete_first
  evict c = record {
    seen =
        delete_first (at_least_one (length c.seen / origin_cache_evict_divisor)) (order c.seen)
          c.seen;
  }

  unfoldable pub remember : OriginCache → Text → OriginCache
  unfolding evict
  remember c key =
      let kept = if leb origin_cache_max_entries (length c.seen) then evict c else c in
      record { seen = put kept.seen key tt }

-- strings.Join on NUL
unfoldable pub origin_key : Platform → Origin → Text
origin_key platform origin =
    platform_name platform ++ (0 ∷ (origin.instance_uid ++ (0 ∷ origin.destination_uid)))

-- Origin.InstanceMeta
abbrev pub instance_meta : Origin → Dict Text Text
instance_meta o = (codes "instance_uid", o.instance_uid) ∷ []

-- Origin.DestinationMeta
abbrev destination_meta : Origin → Dict Text Text
destination_meta o = (codes "destination_uid", o.destination_uid) ∷ []

pub record ReminderDestination : Type 0 where
  pub platform_enum : Platform
  pub instance_meta : Dict Text Text
  pub destination_meta : Dict Text Text

abbrev pub OriginResolver : Type 0
OriginResolver = ReminderDestination → Bool

abbrev pub destination_of : Platform → Origin → ReminderDestination
destination_of platform origin = record {
  platform_enum = platform;
  instance_meta = instance_meta origin;
  destination_meta = destination_meta origin;
}

-- The cache and the context afterwards, and the destinations that the resolver was called with.
pub record Bootstrapped (User : Type 0) : Type 0 where
  pub cache : OriginCache
  pub context : Context User
  pub calls : List ReminderDestination

module _ {User : Type 0} (order : Dict Text (Unit {0}) → List Text) where
  abbrev unresolved : OriginCache → Context User → Bootstrapped User
  unresolved c ctx = record { cache = c; context = ctx; calls = [] }

  -- The last statement of bootstrap.
  abbrev pub write_once :
      OriginResolver → OriginCache → Context User → Platform → Origin → Bootstrapped User
  write_once resolve c ctx platform origin =
      if known c (origin_key platform origin) then unresolved c ctx else record {
        cache =
            if resolve (destination_of platform origin)
            then remember order c (origin_key platform origin)
            else c;
        context = ctx;
        calls = destination_of platform origin ∷ [];
      }

  abbrev pub write_for :
      Option OriginResolver
      → OriginCache
      → Context User
      → Origin
      → Option Caller
      → Bootstrapped User
  write_for none c ctx origin meta = unresolved c ctx
  write_for (some resolve) c ctx origin none = unresolved c ctx
  write_for (some resolve) c ctx origin (some meta) =
      if is_empty origin.destination_uid
      then unresolved c ctx
      else write_once resolve c ctx meta.platform_enum origin

  abbrev bootstrap_origin :
      Option OriginResolver → OriginCache → Context User → Option Origin → Bootstrapped User
  bootstrap_origin resolve c ctx none = unresolved c ctx
  bootstrap_origin resolve c ctx (some origin) =
      write_for resolve c (record ctx { origin = some origin }) origin ctx.meta

  abbrev pub bootstrap_for :
      Option OriginResolver → OriginCache → Context User → Header → Option User → Bootstrapped User
  bootstrap_for resolve c ctx header none = unresolved c ctx
  bootstrap_for resolve c ctx header (some user) =
      bootstrap_origin resolve c ctx (origin_from_header header)

  unfoldable pub bootstrap :
      Option OriginResolver → OriginCache → Context User → Header → Bootstrapped User
  unfolding known remember origin_key
  bootstrap resolve c ctx header = bootstrap_for resolve c ctx header ctx.caller
