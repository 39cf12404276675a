-- ===== src/Reverse/Client.antt =====
-- pkg/grpc/client/reverse.go: the stream of actions on the client's side. An attempt is what its
-- calls answer: the registration, the first send, and the receives in order, of which a last one
-- without an error leaves the stream open. Delays are nanoseconds.
pub mod Backoff
use gin_bot.Base.{
  ℕ, ◌+◌, ◌*◌, ◌≤◌, ◌≡◌, refl, Bool, true, false, List, [], ◌∷◌, ◌++◌, Option, none, some,
  if◌then◌else◌, ltb,
}
use gin_bot.Base.Result.{Result, ok, err}

abbrev pub reconnect_min_backoff : ℕ
reconnect_min_backoff = 1 * 1000000000

abbrev pub reconnect_max_backoff : ℕ
reconnect_max_backoff = 30 * 1000000000

pub data StreamOutcome : Type 0 where
  stream_unreachable stream_established stream_rejected : StreamOutcome

-- connect.Code
pub data Code : Type 0 where
  canceled unknown invalid_argument deadline_exceeded not_found already_exists permission_denied :
      Code
  resource_exhausted failed_precondition aborted out_of_range unimplemented internal : Code
  unavailable data_loss unauthenticated : Code

-- A failed Receive: io.EOF or an error with a code.
pub data Failure : Type 0 where
  eof : Failure
  failed : Code → Failure

unfoldable pub next_backoff : ℕ → StreamOutcome → ℕ
next_backoff current stream_established = reconnect_min_backoff
next_backoff current _ =
    if ltb reconnect_max_backoff (current * 2) then reconnect_max_backoff else current * 2

unfoldable pub recv_outcome : Code → StreamOutcome
recv_outcome resource_exhausted = stream_rejected
recv_outcome permission_denied = stream_rejected
recv_outcome unimplemented = stream_rejected
recv_outcome failed_precondition = stream_rejected
recv_outcome _ = stream_established

-- ensureRegistered: an account that exists already is a success.
unfoldable pub ensure_registered : Option Code → Option Code
ensure_registered none = none
ensure_registered (some already_exists) = none
ensure_registered (some code) = some code

module _ (Action : Type 0) where
  pub record Attempt : Type 0 where
    pub register : Option Code
    pub send : Option Code
    pub receives : List (Result Failure Action)

module _ {Action Handler : Type 0} (handlers : Action → Option Handler) where
  abbrev pub call_with : Action → Option Handler → List (Handler × Action)
  call_with action none = []
  call_with action (some handler) = (handler, action) ∷ []

  -- The handler called for an action, if there is one.
  unfoldable pub dispatch : Action → List (Handler × Action)
  dispatch action = call_with action (handlers action)

  abbrev pub behind :
      List (Handler × Action)
      → List (Handler × Action) × Option StreamOutcome
      → List (Handler × Action) × Option StreamOutcome
  behind called (more, outcome) = (called ++ more, outcome)

  -- The receive loop: the handlers called, in order, and the outcome once the stream has failed.
  unfoldable pub pump :
      List (Result Failure Action) → List (Handler × Action) × Option StreamOutcome
  unfolding dispatch recv_outcome
  pump [] = ([], none)
  pump (err eof ∷ receives) = ([], some stream_established)
  pump (err (failed code) ∷ receives) = ([], some (recv_outcome code))
  pump (ok action ∷ receives) = behind (dispatch action) (pump receives)

  abbrev pub sent :
      Option Code → List (Result Failure Action) → List (Handler × Action) × Option StreamOutcome
  sent (some code) receives = ([], some stream_unreachable)
  sent none receives = pump receives

  abbrev registered :
      Option Code
      → Option Code
      → List (Result Failure Action)
      → List (Handler × Action) × Option StreamOutcome
  registered (some code) send receives = ([], some stream_unreachable)
  registered none send receives = sent send receives

  unfoldable pub run_once : Attempt Action → List (Handler × Action) × Option StreamOutcome
  unfolding pump ensure_registered
  run_once a = registered (ensure_registered a.register) a.send a.receives

  abbrev pub retry : ℕ → (ℕ → List ℕ) → Option StreamOutcome → List ℕ
  retry backoff continue none = []
  retry backoff continue (some outcome) =
      next_backoff backoff outcome ∷ continue (next_backoff backoff outcome)

  -- The reconnect loop until the context is cancelled: the delays it waits, one after each attempt
  -- that ended.
  unfoldable pub run_client_action_stream : ℕ → List (Attempt Action) → List ℕ
  unfolding run_once next_backoff
  run_client_action_stream backoff [] = []
  run_client_action_stream backoff (a ∷ attempts) =
      retry backoff (λ b. run_client_action_stream b attempts) (run_once a).1
