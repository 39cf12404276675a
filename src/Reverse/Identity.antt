-- ===== src/Reverse/Identity.antt =====
-- The identity of clients, and what an action reaches.
use gin_bot.Base.{
  ℕ, ◌+◌, ◌^◌, ◌≤◌, ◌<◌, ◌≡◌, refl, ◌∙◌, List, [], ◌∷◌, Option, none, some, some-eq, if◌then◌else◌,
  leb, length, arith, nat_eq, Bool-cases, inl, inr, ◌==◌, ==_iff,
}
use gin_bot.Base.Dict.{Dict, get, get-put, get-delete, get-nil}
use gin_bot.Access.{Platform}
use gin_bot.Reverse.{
  max_stream_clients, StreamClient, ReverseServer, new_reverse_server, register, deregister, bumped,
  new_client, send_all, send_action, is_for, offer, take_from, take_action, shutdown, Step,
  registers, deregisters, sends, takes, shuts_down, after, run, tail,
}

none-some : {A : Type 0} {a : A} → none ≡ some a → ⊥
none-some h = cc

module _ {Action : Type 0} where
  -- No client has an id above the counter.
  abbrev IsNumbered : ReverseServer Action → Type 0
  IsNumbered s = (id : ℕ) → s.next_id < id → get s.clients id ≡ none

  abbrev offered : Platform → Action → Option (StreamClient Action) → Option (StreamClient Action)
  offered p action none = none
  offered p action (some c) = if is_for p c then some (offer action c) else some c

  get-send_all :
      (p : Platform) (action : Action) (m : Dict ℕ (StreamClient Action)) (id : ℕ)
      → get (send_all p action m).clients id ≡ offered p action (get m id)
  unfolding get send_all
  get-send_all p action [] id = refl
  get-send_all p action ((j, c) ∷ m) id = elim (Bool-cases (is_for p c)) [
    | inl e ↦ elim (Bool-cases (j == id)) [
      | inl q ↦ rw (e, q) (rw e refl)
      | inr q ↦ rw (e, q) (get-send_all p action m id)
    ]
    | inr e ↦ elim (Bool-cases (j == id)) [
      | inl q ↦ rw (e, q) (rw e refl)
      | inr q ↦ rw (e, q) (get-send_all p action m id)
    ]
  ]

  -- What an action does to every client: one of its platform has it appended to the queue unless
  -- the queue is full, and every other client is as it was.
  get-send_action :
      (s : ReverseServer Action) (p : Platform) (action : Action) (id : ℕ)
      → get (send_action s p action).clients id ≡ offered p action (get s.clients id)
  unfolding send_action
  get-send_action s p action id = get-send_all p action s.clients id

  register-next :
      (s : ReverseServer Action) (p : Platform)
      → s.next_id + 1 < 2 ^ 64
      → IsNumbered s
      → ((register s p).0.next_id ≤ s.next_id + 1) × IsNumbered (register s p).0
  unfolding register
  register-next s p small numbered = elim (Bool-cases (leb max_stream_clients (length s.clients))) [
    | inl e ↦ rw e (omega arith, numbered)
    | inr e ↦
        let exact : bumped s.next_id ≡ s.next_id + 1 = omega arith in
        rw (e, exact)
          (
            omega arith,
            λ id h. ground (
              arith,
              get-put s.clients (s.next_id + 1) (new_client (s.next_id + 1) p) id,
              numbered id,
            ),
          )
  ]

  offered-none :
      (p : Platform) (action : Action) (o : Option (StreamClient Action))
      → o ≡ none
      → offered p action o ≡ none
  offered-none p action none h = refl
  offered-none p action (some c) h = absurd (cc)

  get-take_from :
      (m : Dict ℕ (StreamClient Action)) (id : ℕ) (o : Option (StreamClient Action)) (j : ℕ)
      → get m id ≡ o
      → get m j ≡ none
      → get (take_from m id o) j ≡ none
  get-take_from m id none j e h = h
  get-take_from m id (some c) j e h =
      ground (arith, get-put m id (record c { actions = tail c.actions }) j, ==_iff id j)

  after-next :
      (s : ReverseServer Action) (step : Step Action)
      → s.next_id + 1 < 2 ^ 64
      → IsNumbered s
      → ((after s step).next_id ≤ s.next_id + 1) × IsNumbered (after s step)
  unfolding after deregister send_action take_action shutdown
  after-next s (registers p) small numbered = register-next s p small numbered
  after-next s (deregisters id) small numbered =
      (omega arith, λ j h. ground (arith, get-delete s.clients id j, numbered j h))
  after-next s (sends p a) small numbered = (
    omega arith,
    λ j h. get-send_all p a s.clients j ∙ offered-none p a (get s.clients j) (numbered j h),
  )
  after-next s (takes id) small numbered =
      (omega arith, λ j h. get-take_from s.clients id (get s.clients id) j refl (numbered j h))
  after-next s shuts_down small numbered = (omega arith, numbered)

  run-next :
      (s : ReverseServer Action) (steps : List (Step Action))
      → s.next_id + length steps < 2 ^ 64
      → IsNumbered s
      → ((run s steps).next_id ≤ s.next_id + length steps) × IsNumbered (run s steps)
  unfolding run
  run-next s [] small numbered = (omega arith, numbered)
  run-next s (step ∷ steps) small numbered =
      let (near, kept) = after-next s step (omega arith) numbered in
      let (far, all_kept) = run-next (after s step) steps (omega arith) kept in
      (omega arith, all_kept)

  register-fresh :
      (s : ReverseServer Action) (p : Platform) {c : StreamClient Action}
      → s.next_id + 1 < 2 ^ 64
      → IsNumbered s
      → (register s p).1 ≡ some c
      → (get s.clients c.id ≡ none) × (get (register s p).0.clients c.id ≡ some c)
  unfolding register
  register-fresh s p {c} small numbered h =
      elim (Bool-cases (leb max_stream_clients (length s.clients))) [
        | inl e ↦ absurd (none-some (rw e at h))
        | inr e ↦
            let exact : bumped s.next_id ≡ s.next_id + 1 = omega arith in
            let same : new_client (bumped s.next_id) p ≡ c = some-eq (rw e at h) in
            rw (← same) (
              rw e (
                rw exact (numbered (s.next_id + 1) (omega arith)),
                ground (
                  arith,
                  get-put s.clients (bumped s.next_id) (new_client (bumped s.next_id) p)
                      (bumped s.next_id),
                ),
              ))
      ]

  -- In every history short of the counter's range, a client that is admitted gets an id that no
  -- other client has, and is found under it: no client is displaced.
  pub register-run_fresh :
      (steps : List (Step Action)) (p : Platform) {c : StreamClient Action}
      → length steps + 1 < 2 ^ 64
      → (register (run new_reverse_server steps) p).1 ≡ some c
      → (get (run new_reverse_server steps).clients c.id ≡ none)
        × (get (register (run new_reverse_server steps) p).0.clients c.id ≡ some c)
  unfolding new_reverse_server
  register-run_fresh steps p {c} small h =
      let (near, numbered) =
        run-next new_reverse_server steps (omega arith)
          (λ id k. get-nil {V = StreamClient Action} id) in
      register-fresh (run new_reverse_server steps) p {c = c} (omega arith) numbered h
