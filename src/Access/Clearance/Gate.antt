-- ===== src/Access/Clearance/Gate.antt =====
-- Who passes the clearance interceptor.
use gin_bot.Base.{◌≡◌, refl, false, Option, none, some, list_eq, sym, ap}
use gin_bot.Base.Dict.{get}
use gin_bot.Base.Int.{ℤ, ltb_ℤ}
use gin_bot.Base.Result.{Result, ok, err, ◌>>◌, refuse, >>=-eq-ok, refuse-eq-ok, ok-injective}
use gin_bot.Base.Text.{Text}
use gin_bot.Access.{Platform, Caller, CallError, permission_denied, Header}
use gin_bot.Access.Metadata.{from_header}
use gin_bot.Access.Clearance.{
  not_found, unreachable, ResolveError, Context, CallerResolver, ClearanceInterceptor, with_meta,
  resolved, resolve_uid, resolve_caller, check_with, check_guarded, admit, wrap_unary, IsEntitled,
}

module _ {User : Type 0} where
  resolved-ok :
      (r : Result ResolveError (Option User)) {user : User}
      → resolved r ≡ ok user
      → r ≡ ok (some user)
  resolved-ok (err not_found) h = absurd (cc)
  resolved-ok (err unreachable) h = absurd (cc)
  resolved-ok (ok none) h = absurd (cc)
  resolved-ok (ok (some u)) h = cc

  resolve_uid-ok :
      (resolve : CallerResolver User) (p : Platform) (o : Option Text) {user : User}
      → resolve_uid resolve p o ≡ ok user
      → (uid : Text) × (o ≡ some uid) × (resolve p uid ≡ ok (some user))
  resolve_uid-ok resolve p none h = absurd (cc)
  resolve_uid-ok resolve p (some uid) h = (uid, refl, resolved-ok (resolve p uid) h)

module _ {User : Type 0} (clearance : User → ℤ) where
  -- What the checks of a configured interceptor establish.
  Passed : ClearanceInterceptor User → ℤ → Result CallError Caller → Context User → Type 0
  Passed i minimum meta ctx =
      (user : User) × (resolve : CallerResolver User) × (m : Caller) × (uid : Text) × (i.resolve
        ≡ some resolve)
      × (meta ≡ ok m)
      × (m.platform_uid ≡ some uid)
      × (resolve m.platform_enum uid ≡ ok (some user))
      × (ltb_ℤ (clearance user) minimum ≡ false)
      × (ctx.caller ≡ some user)

  check_with-ok :
      (i : ClearanceInterceptor User) (o : Option (CallerResolver User)) (minimum : ℤ)
      (ctx : Context User) (meta : Result CallError Caller) {ctx' : Context User}
      → i.resolve ≡ o
      → check_with clearance o minimum ctx meta ≡ ok ctx'
      → Passed i minimum meta ctx'
  unfolding resolve_caller Passed
  check_with-ok i none minimum ctx meta e h = absurd (cc)
  check_with-ok i (some resolve) minimum ctx meta {ctx'} e h =
      let (user, found, k) =
        >>=-eq-ok (resolve_caller resolve meta)
          (λ user.
            refuse (ltb_ℤ (clearance user) minimum) permission_denied
            >> ok (record ctx { caller = some user }))
          {b = ctx'} h in
      let (enough, done) =
        refuse-eq-ok (ltb_ℤ (clearance user) minimum) permission_denied
          (ok (record ctx { caller = some user })) {x = ctx'} k in
      let (m, read, named) =
        >>=-eq-ok meta (λ m. resolve_uid resolve m.platform_enum m.platform_uid) {b = user} found in
      let (uid, given, known) = resolve_uid-ok resolve m.platform_enum m.platform_uid named in
      (
        user,
        resolve,
        m,
        uid,
        e,
        read,
        given,
        known,
        enough,
        ap (λ c. c.caller) (sym (ok-injective done)),
      )

  -- A guarded procedure is closed to everyone but the entitled: when a call of it returns a
  -- response, the header names a user that the configured resolver knows, with at least the
  -- minimum clearance, and the response is the handler's in a context with that caller.
  pub wrap_unary_closed :
      {Response : Type 0} (i : ClearanceInterceptor User)
      (handler : Context User → Result CallError Response) (ctx : Context User) (procedure : Text)
      (header : Header) {minimum : ℤ} {response : Response}
      → get i.reqs procedure ≡ some minimum
      → wrap_unary clearance i handler ctx procedure header ≡ ok response
      → (user : User) × (ctx' : Context User) × IsEntitled clearance i minimum header user
        × (ctx'.caller ≡ some user)
        × (handler ctx' ≡ ok response)
  unfolding wrap_unary admit Passed
  wrap_unary_closed i handler ctx procedure header {minimum} {response} guarded h =
      let meta = from_header header in
      let (ctx', admitted, answered) =
        >>=-eq-ok (check_guarded clearance i (get i.reqs procedure) (with_meta ctx meta) meta)
          handler {b = response} h in
      let (user, resolve, m, uid, set, read, given, known, enough, there) =
        check_with-ok i i.resolve minimum (with_meta ctx meta) meta {ctx' = ctx'} refl
          (rw guarded at admitted) in
      (
        user,
        ctx',
        (resolve, m.platform_enum, uid, set, rw (← given) read, known, enough),
        there,
        answered,
      )

  -- An entitled caller reaches the handler.
  pub wrap_unary_entitled :
      {Response : Type 0} (i : ClearanceInterceptor User)
      (handler : Context User → Result CallError Response) (ctx : Context User) (procedure : Text)
      (header : Header) (user : User) {minimum : ℤ}
      → get i.reqs procedure ≡ some minimum
      → IsEntitled clearance i minimum header user
      → wrap_unary clearance i handler ctx procedure header
        ≡ handler (record (with_meta ctx (from_header header)) { caller = some user })
  unfolding wrap_unary admit resolve_caller
  wrap_unary_entitled i handler ctx procedure header user guarded
        (resolve, p, uid, set, read, known, enough) =
      rw (guarded, set, read, known, enough) refl
