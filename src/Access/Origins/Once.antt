-- ===== src/Access/Origins/Once.antt =====
-- When the rows of an origin are written.
use gin_bot.Base.{
  ◌≡◌, refl, sym, false, List, [], ◌∷◌, Option, none, some, if◌then◌else◌, Bool-cases, inl, inr,
  list_eq,
}
use gin_bot.Base.Dict.{Dict}
use gin_bot.Base.Text.{Text}
use gin_bot.Access.{Platform, Caller, Origin, Header}
use gin_bot.Access.Metadata.{is_empty, origin_from_header}
use gin_bot.Access.Clearance.{Context}
use gin_bot.Access.Origins.{
  OriginCache, known, origin_key, OriginResolver, ReminderDestination, destination_of, write_once,
  write_for, bootstrap_for, bootstrap,
}
use gin_bot.Access.Origins.Cache.{known-remember}

no_call : {A : Type 0} {a : A} {rest : List A} → [] ≡ a ∷ rest → ⊥
no_call h = cc

module _ {User : Type 0} (order : Dict Text (Unit {0}) → List Text) where
  -- The calls for which rows are to be written: those of a resolved caller whose header names an
  -- origin with a destination that is not known yet.
  abbrev pub IsFirstContact : OriginCache → Context User → Header → User → Caller → Origin → Type 0
  IsFirstContact c ctx header user meta origin =
      (ctx.caller ≡ some user)
      × (ctx.meta ≡ some meta)
      × (origin_from_header header ≡ some origin)
      × (is_empty origin.destination_uid ≡ false)
      × (known c (origin_key meta.platform_enum origin) ≡ false)

  write_once-called :
      (resolve : OriginResolver) (c : OriginCache) (ctx : Context User) (p : Platform) (o : Origin)
      {d : ReminderDestination} {ds : List ReminderDestination}
      → (write_once order resolve c ctx p o).calls ≡ d ∷ ds
      → (known c (origin_key p o) ≡ false) × (d ≡ destination_of p o) × (ds ≡ [])
  write_once-called resolve c ctx p o h = elim (Bool-cases (known c (origin_key p o))) [
    | inl e ↦ absurd (no_call (rw e at h))
    | inr e ↦ let made = rw e at h in (e, sym (cc), sym (cc))
  ]

  write_for-called :
      (resolve : Option OriginResolver) (c : OriginCache) (ctx : Context User) (o : Origin)
      (meta : Option Caller) {d : ReminderDestination} {ds : List ReminderDestination}
      → (write_for order resolve c ctx o meta).calls ≡ d ∷ ds
      → (m : Caller) × (meta ≡ some m)
        × (is_empty o.destination_uid ≡ false)
        × (known c (origin_key m.platform_enum o) ≡ false)
        × (d ≡ destination_of m.platform_enum o)
        × (ds ≡ [])
  write_for-called none c ctx o meta h = absurd (no_call h)
  write_for-called (some resolve) c ctx o none h = absurd (no_call h)
  write_for-called (some resolve) c ctx o (some m) h =
      elim (Bool-cases (is_empty o.destination_uid)) [
        | inl e ↦ absurd (no_call (rw e at h))
        | inr e ↦
            let (new, called, once) =
              write_once-called resolve c ctx m.platform_enum o (rw e at h) in
            (m, refl, e, new, called, once)
      ]

  bootstrap_for-called :
      (resolve : Option OriginResolver) (c : OriginCache) (ctx : Context User) (header : Header)
      (caller : Option User) (found : Option Origin) {d : ReminderDestination}
      {ds : List ReminderDestination}
      → ctx.caller ≡ caller
      → origin_from_header header ≡ found
      → (bootstrap_for order resolve c ctx header caller).calls ≡ d ∷ ds
      → (user : User) × (m : Caller) × (origin : Origin) × IsFirstContact c ctx header user m origin
        × (d ≡ destination_of m.platform_enum origin)
        × (ds ≡ [])
  bootstrap_for-called resolve c ctx header none found e f h = absurd (no_call h)
  bootstrap_for-called resolve c ctx header (some user) none e f h = absurd (no_call (rw f at h))
  bootstrap_for-called resolve c ctx header (some user) (some origin) e f h =
      let (m, meta, filled, new, called, once) =
        write_for-called resolve c (record ctx { origin = some origin }) origin ctx.meta
          (rw f at h) in
      (user, m, origin, (e, meta, f, filled, new), called, once)

  -- The resolver is called only for the first contact of a resolved caller, which an anonymous
  -- call is not, and once in a call, with the platform and the origin that the headers name.
  pub bootstrap_called :
      (resolve : Option OriginResolver) (c : OriginCache) (ctx : Context User) (header : Header)
      {d : ReminderDestination} {ds : List ReminderDestination}
      → (bootstrap order resolve c ctx header).calls ≡ d ∷ ds
      → (user : User) × (m : Caller) × (origin : Origin) × IsFirstContact c ctx header user m origin
        × (d ≡ destination_of m.platform_enum origin)
        × (ds ≡ [])
  unfolding bootstrap
  bootstrap_called resolve c ctx header h =
      bootstrap_for-called resolve c ctx header ctx.caller (origin_from_header header) refl refl h

  -- On first contact the resolver is called, and after it succeeded the same call makes it run no
  -- more; after it failed, the same call tries again.
  pub bootstrap_once :
      (resolve : OriginResolver) (c : OriginCache) (ctx : Context User) (header : Header)
      (user : User) (m : Caller) (origin : Origin)
      → IsFirstContact c ctx header user m origin
      → let first = bootstrap order (some resolve) c ctx header in
        (first.calls ≡ destination_of m.platform_enum origin ∷ [])
        × ((bootstrap order (some resolve) first.cache ctx header).calls
            ≡ (if resolve (destination_of m.platform_enum origin) then [] else first.calls))
  unfolding bootstrap
  bootstrap_once resolve c ctx header user m origin (caller, meta, found, filled, new) =
      elim (Bool-cases (resolve (destination_of m.platform_enum origin))) [
        | inl e ↦ (
          rw (caller, found, meta, filled, new) refl,
          rw
              (
                caller,
                found,
                meta,
                filled,
                new,
                e,
                known-remember order c (origin_key m.platform_enum origin),
              )
              refl,
        )
        | inr e ↦ (
          rw (caller, found, meta, filled, new) refl,
          rw (caller, found, meta, filled, new, e, new) refl,
        )
      ]
