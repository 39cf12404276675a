-- ===== src/Examples/Calls.antt =====
-- pkg/grpc/callermeta and pkg/grpc/interceptor at concrete headers and callers.
use gin_bot.Base.{
  ◌≡◌, ◌≤◌, refl, arith, Bool, true, List, [], ◌∷◌, Option, none, some, list_eq, length,
  list_beq_iff, All,
}
use gin_bot.Base.Dict.{Dict, get, put, delete}
use gin_bot.Base.Int.{ℤ, pos}
use gin_bot.Base.Result.{Result, ok}
use gin_bot.Base.Text.{Text, codes}
use gin_bot.Access.{
  Platform, discord, platform_name, platform_value, Caller, Origin, CallError, Header, header_get,
  header_set,
}
use gin_bot.Access.Metadata.{
  Outgoing, new_outgoing_context, write_header, from_header, origin_from_header,
  from_header-write_header,
}
use gin_bot.Access.Clearance.{ResolveError, Context, ClearanceInterceptor, IsEntitled}
use gin_bot.Access.Clearance.Gate.{wrap_unary_closed, wrap_unary_entitled}
use gin_bot.Access.Origins.{
  new_origin_cache, known, remember, ReminderDestination, destination_of, bootstrap,
}
use gin_bot.Access.Origins.Cache.{IsRange, remember-bounded}
use gin_bot.Access.Origins.Once.{IsFirstContact, bootstrap_called, bootstrap_once}

abbrev nobody : Outgoing
nobody = record { caller = none; origin = none }

abbrev guild : Origin
guild = record { instance_uid = codes "g1"; destination_uid = codes "c1" }

abbrev by_ann : Header
by_ann = write_header (record { caller = some (discord, codes "ann"); origin = some guild }) []

from_header-write_header_example :
    from_header (write_header (new_outgoing_context nobody discord (codes "ann")) [])
    ≡ ok (record { platform_enum = discord; platform_uid = some (codes "ann") })
from_header-write_header_example = from_header-write_header nobody discord (codes "ann") (cc)

-- A user is a clearance; everyone is a moderator.
abbrev clearance : ℤ → ℤ
clearance u = u

abbrev everyone : Platform → Text → Result ResolveError (Option ℤ)
everyone platform uid = ok (some (pos 20))

abbrev gate : ClearanceInterceptor ℤ
gate = record { reqs = (codes "CreateTrigger", pos 1) ∷ []; resolve = some everyone }

abbrev fresh : Context ℤ
fresh = record { caller = none; meta = none; origin = none }

abbrev answer : Context ℤ → Result CallError (Option ℤ)
answer ctx = ok ctx.caller

ann-IsEntitled : IsEntitled clearance gate (pos 1) by_ann (pos 20)
ann-IsEntitled = (
  everyone,
  discord,
  codes "ann",
  refl,
  unfold from_header write_header header_get header_set platform_name platform_value get put
        delete in
      refl,
  refl,
  refl,
)

wrap_unary_closed_example :
    (user : ℤ) × (ctx' : Context ℤ) × IsEntitled clearance gate (pos 1) by_ann user
    × (ctx'.caller ≡ some user)
    × (answer ctx' ≡ ok (some (pos 20)))
wrap_unary_closed_example =
    wrap_unary_closed clearance gate answer fresh (codes "CreateTrigger") by_ann {minimum = pos 1}
      {response = some (pos 20)} (unfold get in refl)
      (wrap_unary_entitled clearance gate answer fresh (codes "CreateTrigger") by_ann (pos 20)
        {minimum = pos 1} (unfold get in refl) ann-IsEntitled)

-- The order of the association list.
abbrev in_order : Dict Text (Unit {0}) → List Text
in_order [] = []
in_order ((key, u) ∷ m) = key ∷ in_order m

length-in_order : (m : Dict Text (Unit {0})) → length (in_order m) ≡ length m
length-in_order [] = refl
length-in_order ((key, u) ∷ m) = omega (arith, length-in_order m)

in_order_head :
    (m : Dict Text (Unit {0})) (key : Text) (u : Unit {0}) → get ((key, u) ∷ m) key ≡ some u
unfolding get
in_order_head m key u = ground (arith, list_beq_iff key key)

in_order_present :
    (m : Dict Text (Unit {0})) (key : Text) (u : Unit {0}) (keys : List Text)
    → All (λ k. get m k ≡ some tt) keys
    → All (λ k. get ((key, u) ∷ m) k ≡ some tt) keys
unfolding get
in_order_present m key u [] h = tt
in_order_present m key u (k ∷ keys) (here, h) = (ground arith, in_order_present m key u keys h)

in_order-All : (m : Dict Text (Unit {0})) → All (λ key. get m key ≡ some tt) (in_order m)
in_order-All [] = tt
in_order-All ((key, u) ∷ m) =
    (in_order_head m key u, in_order_present m key u (in_order m) (in_order-All m))

in_order-IsRange : IsRange in_order
in_order-IsRange = λ m. (length-in_order m, in_order-All m)

abbrev ann_context : Context ℤ
ann_context = record {
  caller = some (pos 20);
  meta = some (record { platform_enum = discord; platform_uid = some (codes "ann") });
  origin = none;
}

abbrev upserts : ReminderDestination → Bool
upserts d = true

first_contact :
    IsFirstContact in_order new_origin_cache ann_context by_ann
      (pos 20)
      (record { platform_enum = discord; platform_uid = some (codes "ann") })
      guild
first_contact = (
  refl,
  refl,
  unfold origin_from_header write_header header_get header_set platform_name get put delete in refl,
  refl,
  unfold known new_origin_cache get in refl,
)

bootstrap_once_example :
    let first = bootstrap in_order (some upserts) new_origin_cache ann_context by_ann in
    (first.calls ≡ destination_of discord guild ∷ [])
    × ((bootstrap in_order (some upserts) first.cache ann_context by_ann).calls ≡ [])
bootstrap_once_example =
    bootstrap_once in_order upserts new_origin_cache ann_context by_ann (pos 20)
      (record { platform_enum = discord; platform_uid = some (codes "ann") }) guild first_contact

bootstrap_called_example :
    (user : ℤ) × (m : Caller) × (origin : Origin) × IsFirstContact in_order new_origin_cache
      ann_context by_ann user m origin
    × (destination_of discord guild ≡ destination_of m.platform_enum origin)
    × (◌≡◌ {A = List ReminderDestination} [] [])
bootstrap_called_example =
    bootstrap_called in_order (some upserts) new_origin_cache ann_context by_ann
      bootstrap_once_example.0

remember-bounded_example : length (remember in_order new_origin_cache (codes "a")).seen ≤ 4096
remember-bounded_example =
    remember-bounded in_order new_origin_cache (codes "a") in_order-IsRange
      (unfold new_origin_cache in omega arith)
