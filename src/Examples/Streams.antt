-- ===== src/Examples/Streams.antt =====
-- pkg/grpc/server/reverse.go and pkg/grpc/client/reverse.go at concrete histories.
use gin_bot.Base.{ℕ, ◌≡◌, refl, arith, List, [], ◌∷◌, Option, none, some, nat_eq, inl, inr}
use gin_bot.Base.Dict.{get, put, delete}
use gin_bot.Base.Result.{err}
use gin_bot.Access.{discord, matrix_protocol}
use gin_bot.Reverse.{
  StreamClient, new_reverse_server, register, Step, registers, sends, takes, after, run, new_client,
}
use gin_bot.Reverse.Bounds.{IsBounded, run-IsBounded}
use gin_bot.Reverse.Identity.{register-run_fresh}
use gin_bot.Reverse.Client.{
  Attempt, run_once, run_client_action_stream, resource_exhausted, unavailable, failed, pump,
  recv_outcome, ensure_registered,
}
use gin_bot.Reverse.Client.Backoff.{doubled, run_client_action_stream_refused}

abbrev calls : List (Step ℕ)
calls = registers discord ∷ sends discord 7 ∷ takes 1 ∷ []

abbrev newcomer : StreamClient ℕ
newcomer = new_client 2 matrix_protocol

run-IsBounded_example : IsBounded (run new_reverse_server calls)
run-IsBounded_example = run-IsBounded calls

register-run_fresh_example :
    (get (run new_reverse_server calls).clients 2 ≡ none)
    × (get (register (run new_reverse_server calls) matrix_protocol).0.clients 2 ≡ some newcomer)
register-run_fresh_example =
    register-run_fresh calls matrix_protocol {c = newcomer} (omega arith)
      (unfold run register new_reverse_server put get delete after in refl)

abbrev handlers : ℕ → Option ℕ
handlers action = some action

abbrev refusals : List (Attempt ℕ)
refusals =
    record { register = none; send = none; receives = err (failed resource_exhausted) ∷ [] }
    ∷ record { register = some unavailable; send = none; receives = [] }
    ∷ []

run_client_action_stream_refused_example :
    run_client_action_stream handlers (doubled 0) refusals ≡ 2000000000 ∷ 4000000000 ∷ []
run_client_action_stream_refused_example = run_client_action_stream_refused handlers 0 refusals (
  inr (unfold run_once pump recv_outcome ensure_registered in refl),
  (inl (unfold run_once ensure_registered in refl), tt),
)
