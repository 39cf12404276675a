-- ===== src/Reverse/Client/Backoff.antt =====
-- The delays of the reconnect loop, and what a stream's actions call.
use gin_bot.Base.{
  ℕ, zero, suc, ◌*◌, ◌^◌, ◌≤◌, ◌≡◌, refl, List, [], ◌∷◌, ◌++◌, Option, none, some, if◌then◌else◌,
  ltb, arith, All, inl, inr, length, map, ◌⊎◌,
}
use native.Mathlib.Nat.{pow-suc}
use gin_bot.Base.Result.{Result, ok, err}
use gin_bot.Reverse.Client.{
  reconnect_min_backoff, reconnect_max_backoff, StreamOutcome, stream_unreachable,
  stream_established, stream_rejected, Code, Failure, failed, next_backoff, recv_outcome, Attempt,
  call_with, dispatch, pump, run_once, retry, run_client_action_stream,
}

-- A delay between one second and thirty.
abbrev IsDelay : ℕ → Type 0
IsDelay d = (reconnect_min_backoff ≤ d) × (d ≤ reconnect_max_backoff)

next_backoff-IsDelay :
    (current : ℕ) (o : StreamOutcome) → IsDelay current → IsDelay (next_backoff current o)
unfolding next_backoff
next_backoff-IsDelay current stream_established h = (omega arith, omega arith)
next_backoff-IsDelay current stream_unreachable h = ground arith
next_backoff-IsDelay current stream_rejected h = ground arith

-- Two to the power of k seconds, and thirty where that is more.
abbrev pub doubled : ℕ → ℕ
doubled k = if ltb 30 (2 ^ k) then 30 * 1000000000 else 2 ^ k * 1000000000

abbrev doublings : ℕ → ℕ → List ℕ
doublings zero k = []
doublings (suc n) k = doubled (suc k) ∷ doublings n (suc k)

next-doubled :
    (k : ℕ)
    → (if ltb reconnect_max_backoff (doubled k * 2) then reconnect_max_backoff else doubled k * 2)
      ≡ doubled (suc k)
next-doubled k = ground (arith, pow-suc 2 k)

module _ {Action Handler : Type 0} (handlers : Action → Option Handler) where
  retry-IsDelay :
      (backoff : ℕ) (continue : ℕ → List ℕ) (o : Option StreamOutcome)
      → ((b : ℕ) → IsDelay b → All IsDelay (continue b))
      → IsDelay backoff
      → All IsDelay (retry handlers backoff continue o)
  retry-IsDelay backoff continue none h d = tt
  retry-IsDelay backoff continue (some o) h d =
      let next = next_backoff-IsDelay backoff o d in (next, h (next_backoff backoff o) next)

  run-IsDelay :
      (backoff : ℕ) (attempts : List (Attempt Action))
      → IsDelay backoff
      → All IsDelay (run_client_action_stream handlers backoff attempts)
  unfolding run_client_action_stream
  run-IsDelay backoff [] d = tt
  run-IsDelay backoff (a ∷ attempts) d =
      retry-IsDelay backoff (λ b. run_client_action_stream handlers b attempts)
        (run_once handlers a).1 (λ b. run-IsDelay b attempts) d

  -- Whatever happens to the attempts, every delay before a reconnection is between one second and
  -- thirty.
  run_client_action_stream-IsDelay :
      (attempts : List (Attempt Action))
      → All IsDelay (run_client_action_stream handlers reconnect_min_backoff attempts)
  run_client_action_stream-IsDelay attempts =
      run-IsDelay reconnect_min_backoff attempts (omega arith, omega arith)

  -- No attempt's stream was dropped after it was established.
  abbrev IsRefused : Attempt Action → Type 0
  IsRefused a =
      ((run_once handlers a).1 ≡ some stream_unreachable)
      ⊎ ((run_once handlers a).1 ≡ some stream_rejected)

  retry_doubles :
      (k : ℕ) (a : Attempt Action) (continue : ℕ → List ℕ)
      → IsRefused a
      → retry handlers (doubled k) continue (run_once handlers a).1
        ≡ doubled (suc k) ∷ continue (doubled (suc k))
  unfolding next_backoff
  retry_doubles k a continue (inl e) = rw (e, ← next-doubled k) refl
  retry_doubles k a continue (inr e) = rw (e, ← next-doubled k) refl

  -- While every attempt is refused or does not reach the server, the delay after the k-th of them
  -- is two to the power of k seconds, and thirty from then on where that is more: a refusal on an
  -- opened stream does not reset it.
  pub run_client_action_stream_refused :
      (k : ℕ) (attempts : List (Attempt Action))
      → All IsRefused attempts
      → run_client_action_stream handlers (doubled k) attempts ≡ doublings (length attempts) k
  unfolding run_client_action_stream
  run_client_action_stream_refused k [] h = refl
  run_client_action_stream_refused k (a ∷ attempts) (refused, h) =
      rw
        (
          retry_doubles k a (λ b. run_client_action_stream handlers b attempts) refused,
          run_client_action_stream_refused (suc k) attempts h,
        )
        refl

  -- The specification of a stream's calls: every handled action before the failure, in order.
  abbrev pub handled : List Action → List (Handler × Action)
  handled [] = []
  handled (action ∷ actions) = call_with handlers action (handlers action) ++ handled actions

  -- A stream that delivers any actions and then fails calls the handlers of exactly those actions,
  -- in the order of delivery, and a refusal is told from a drop by the code alone.
  pump_failed :
      (actions : List Action) (code : Code) (later : List (Result Failure Action))
      → pump handlers (map ok actions ++ (err (failed code) ∷ later))
        ≡ (handled actions, some (recv_outcome code))
  unfolding pump dispatch
  pump_failed [] code later = refl
  pump_failed (action ∷ actions) code later = rw (pump_failed actions code later) refl
