-- ===== src/Access/Clearance.antt =====
-- pkg/grpc/interceptor/clearance.go. A handler takes the context and answers with a result. The
-- unary and the streaming wrapper have the same checks in the same order, here `admit`, before
-- their handlers. The parameters stand for the store's users, of which only the clearance is read.
pub mod Gate
use gin_bot.Base.{
  ◌≡◌, Bool, true, false, List, [], ◌∷◌, Option, none, some, if◌then◌else◌, arith, list_eq,
}
use gin_bot.Base.Dict.{Dict, get}
use gin_bot.Base.Int.{ℤ, ltb_ℤ}
use gin_bot.Base.Result.{Result, ok, err, ◌>>=◌, ◌>>◌, refuse}
use gin_bot.Base.Text.{Text}
use gin_bot.Access.{
  Platform, Caller, Origin, CallError, invalid_argument, failed_precondition, permission_denied,
  internal, Header,
}
use gin_bot.Access.Metadata.{from_header}

-- How a CallerResolver fails: db.ErrNotFound, or any other error.
pub data ResolveError : Type 0 where
  not_found unreachable : ResolveError

module _ (User : Type 0) where
  -- The values that the interceptors put into a context.
  pub record Context : Type 0 where
    pub caller : Option User
    pub meta : Option Caller
    pub origin : Option Origin

  abbrev pub CallerResolver : Type 0
  CallerResolver = Platform → Text → Result ResolveError (Option User)

  -- Requirements: the minimum clearance of each guarded procedure; the others are public.
  pub record ClearanceInterceptor : Type 0 where
    pub reqs : Dict Text ℤ
    pub resolve : Option CallerResolver

module _ {User : Type 0} where
  abbrev pub with_meta : Context User → Result CallError Caller → Context User
  with_meta ctx (err e) = ctx
  with_meta ctx (ok m) = record ctx { meta = some m }

  -- The answers of a resolver; an absent user without an error is none.
  abbrev pub resolved : Result ResolveError (Option User) → Result CallError User
  resolved (err not_found) = err failed_precondition
  resolved (err unreachable) = err internal
  resolved (ok none) = err failed_precondition
  resolved (ok (some user)) = ok user

  abbrev pub resolve_uid : CallerResolver User → Platform → Option Text → Result CallError User
  resolve_uid resolve platform none = err invalid_argument
  resolve_uid resolve platform (some uid) = resolved (resolve platform uid)

  unfoldable pub resolve_caller :
      CallerResolver User → Result CallError Caller → Result CallError User
  resolve_caller resolve meta = do m ← meta; resolve_uid resolve m.platform_enum m.platform_uid

module _ {User : Type 0} (clearance : User → ℤ) where
  abbrev pub check_with :
      Option (CallerResolver User)
      → ℤ
      → Context User
      → Result CallError Caller
      → Result CallError (Context User)
  check_with none minimum ctx meta = err internal
  check_with (some resolve) minimum ctx meta = do
    user ← resolve_caller resolve meta
    refuse (ltb_ℤ (clearance user) minimum) permission_denied
    ok (record ctx { caller = some user })

  abbrev pub check_guarded :
      ClearanceInterceptor User
      → Option ℤ
      → Context User
      → Result CallError Caller
      → Result CallError (Context User)
  check_guarded i none ctx meta = ok ctx
  check_guarded i (some minimum) ctx meta = check_with i.resolve minimum ctx meta

  -- The part of both wrappers before the handler: the context that it is called with.
  unfoldable pub admit :
      ClearanceInterceptor User → Context User → Text → Header → Result CallError (Context User)
  unfolding resolve_caller
  admit i ctx procedure header =
      check_guarded i (get i.reqs procedure) (with_meta ctx (from_header header))
        (from_header header)

  unfoldable pub wrap_unary :
      {Response : Type 0}
      → ClearanceInterceptor User
      → (Context User → Result CallError Response)
      → Context User
      → Text
      → Header
      → Result CallError Response
  unfolding admit
  wrap_unary i handler ctx procedure header = do ctx' ← admit i ctx procedure header; handler ctx'

  -- Who may call a guarded procedure, without reference to the code: the header names a platform
  -- and a user that the configured resolver knows, with at least the minimum clearance.
  abbrev pub IsEntitled : ClearanceInterceptor User → ℤ → Header → User → Type 0
  IsEntitled i minimum header user =
      (resolve : CallerResolver User) × (platform : Platform) × (uid : Text) × (i.resolve
        ≡ some resolve)
      × (from_header header ≡ ok (record { platform_enum = platform; platform_uid = some uid }))
      × (resolve platform uid ≡ ok (some user))
      × (ltb_ℤ (clearance user) minimum ≡ false)
