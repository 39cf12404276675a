-- ===== src/Reverse/Bounds.antt =====
-- The bounds of the registry and of the buffers, over every history.
use gin_bot.Base.{
  ℕ, ◌≤◌, ◌<◌, ◌≡◌, refl, List, [], ◌∷◌, Option, none, some, leb, ltb, length, length-append, arith,
  nat_eq, Bool-cases, inl, inr, ◌==◌, some-eq, ltb→lt,
}
use gin_bot.Base.Dict.{Dict, get, put, delete, length-put, length-delete, length-delete_present}
use gin_bot.Access.{Platform}
use gin_bot.Reverse.{
  client_send_buffer, max_stream_clients, StreamClient, ReverseServer, new_reverse_server, register,
  deregister, bumped, new_client, send_all, send_action, is_for, offer, tail, take_from,
  take_action, shutdown, Step, registers, deregisters, sends, takes, shuts_down, after, run,
}

module _ {Action : Type 0} where
  -- No client has more queued actions than its buffer holds.
  abbrev AllBuffered : Dict ℕ (StreamClient Action) → Type 0
  AllBuffered [] = Unit
  AllBuffered ((id, c) ∷ m) = (length c.actions ≤ client_send_buffer) × AllBuffered m

  abbrev pub IsBounded : ReverseServer Action → Type 0
  IsBounded s = (length s.clients ≤ max_stream_clients) × AllBuffered s.clients

  delete-AllBuffered :
      (m : Dict ℕ (StreamClient Action)) (id : ℕ) → AllBuffered m → AllBuffered (delete m id)
  unfolding delete
  delete-AllBuffered [] id h = tt
  delete-AllBuffered ((j, c) ∷ m) id (here, h) = elim (Bool-cases (j == id)) [
    | inl e ↦ rw e (delete-AllBuffered m id h)
    | inr e ↦ rw e (here, delete-AllBuffered m id h)
  ]

  put-AllBuffered :
      (m : Dict ℕ (StreamClient Action)) (id : ℕ) (c : StreamClient Action)
      → length c.actions ≤ client_send_buffer
      → AllBuffered m
      → AllBuffered (put m id c)
  unfolding put
  put-AllBuffered m id c here h = (here, delete-AllBuffered m id h)

  get-AllBuffered :
      (m : Dict ℕ (StreamClient Action)) (id : ℕ) {c : StreamClient Action}
      → AllBuffered m
      → get m id ≡ some c
      → length c.actions ≤ client_send_buffer
  unfolding get
  get-AllBuffered [] id h e = absurd (cc)
  get-AllBuffered ((j, d) ∷ m) id {c} (here, h) e = elim (Bool-cases (j == id)) [
    | inl q ↦ let same : d ≡ c = some-eq (rw q at e) in rw (← same) here
    | inr q ↦ get-AllBuffered m id h (rw q at e)
  ]

  offer-buffered :
      (action : Action) (c : StreamClient Action)
      → length c.actions ≤ client_send_buffer
      → length (offer action c).actions ≤ client_send_buffer
  offer-buffered action c h = elim (Bool-cases (ltb (length c.actions) client_send_buffer)) [
    | inl e ↦ rw e (
        omega (
          arith,
          length-append c.actions (action ∷ []),
          ltb→lt (length c.actions) client_send_buffer e,
        ))
    | inr e ↦ rw e h
  ]

  send_all-AllBuffered :
      (p : Platform) (action : Action) (m : Dict ℕ (StreamClient Action))
      → AllBuffered m
      → AllBuffered (send_all p action m).clients
  unfolding send_all
  send_all-AllBuffered p action [] h = tt
  send_all-AllBuffered p action ((id, c) ∷ m) (here, h) = elim (Bool-cases (is_for p c)) [
    | inl e ↦ rw e (offer-buffered action c here, send_all-AllBuffered p action m h)
    | inr e ↦ rw e (here, send_all-AllBuffered p action m h)
  ]

  length-send_all :
      (p : Platform) (action : Action) (m : Dict ℕ (StreamClient Action))
      → length (send_all p action m).clients ≡ length m
  unfolding send_all
  length-send_all p action [] = refl
  length-send_all p action ((id, c) ∷ m) = elim (Bool-cases (is_for p c)) [
    | inl e ↦ rw e (omega (arith, length-send_all p action m))
    | inr e ↦ rw e (omega (arith, length-send_all p action m))
  ]

  length-tail :
      (queued : List Action)
      → length queued ≤ client_send_buffer
      → length (tail queued) ≤ client_send_buffer
  length-tail [] h = h
  length-tail (a ∷ rest) h = omega arith

  take_from-IsBounded :
      (m : Dict ℕ (StreamClient Action)) (id : ℕ) (o : Option (StreamClient Action))
      → get m id ≡ o
      → length m ≤ max_stream_clients
      → AllBuffered m
      → (length (take_from m id o) ≤ max_stream_clients) × AllBuffered (take_from m id o)
  take_from-IsBounded m id none e h k = (h, k)
  take_from-IsBounded m id (some c) e h k = (
    unfold put in omega (arith, length-delete_present m id e),
    put-AllBuffered m id (record c { actions = tail c.actions })
        (length-tail c.actions (get-AllBuffered m id k e)) k,
  )

  register-IsBounded :
      (s : ReverseServer Action) (p : Platform) → IsBounded s → IsBounded (register s p).0
  unfolding register
  register-IsBounded s p (h, k) = elim (Bool-cases (leb max_stream_clients (length s.clients))) [
    | inl e ↦ rw e (h, k)
    | inr e ↦
        let room : length s.clients < max_stream_clients = ground arith in
        rw e (
          omega (
            arith,
            room,
            length-put s.clients (bumped s.next_id) (new_client (bumped s.next_id) p),
          ),
          put-AllBuffered s.clients (bumped s.next_id) (new_client (bumped s.next_id) p)
              (omega arith) k,
        )
  ]

  after-IsBounded :
      (s : ReverseServer Action) (step : Step Action) → IsBounded s → IsBounded (after s step)
  unfolding after deregister send_action take_action shutdown
  after-IsBounded s (registers p) h = register-IsBounded s p h
  after-IsBounded s (deregisters id) (h, k) =
      (omega (arith, length-delete s.clients id), delete-AllBuffered s.clients id k)
  after-IsBounded s (sends p a) (h, k) =
      (omega (arith, length-send_all p a s.clients), send_all-AllBuffered p a s.clients k)
  after-IsBounded s (takes id) (h, k) = take_from-IsBounded s.clients id (get s.clients id) refl h k
  after-IsBounded s shuts_down (h, k) = (h, k)

  run-IsBounded_from :
      (s : ReverseServer Action) (steps : List (Step Action))
      → IsBounded s
      → IsBounded (run s steps)
  unfolding run
  run-IsBounded_from s [] h = h
  run-IsBounded_from s (step ∷ steps) h =
      run-IsBounded_from (after s step) steps (after-IsBounded s step h)

  -- However the calls and the sending goroutines are interleaved, the server never holds more than
  -- 64 clients, nor any client more than 64 queued actions.
  pub run-IsBounded : (steps : List (Step Action)) → IsBounded (run new_reverse_server steps)
  unfolding new_reverse_server
  run-IsBounded steps = run-IsBounded_from new_reverse_server steps (omega arith, tt)
