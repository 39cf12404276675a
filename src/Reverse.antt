-- ===== src/Reverse.antt =====
-- pkg/grpc/server/reverse.go: the registry of the platform clients that receive actions. The lock
-- makes each call one step. A buffered channel is the list of its queued actions, first in first
-- out; the goroutine that sends them takes the first. A client's removal closes its channel.
pub mod Client
pub mod Bounds
pub mod Identity
use gin_bot.Base.{
  ℕ, ◌+◌, ◌%◌, ◌^◌, Bool, true, false, List, [], ◌∷◌, ◌++◌, Option, none, some, if◌then◌else◌, leb,
  ltb, length, nat_eq, not, ◌==◌,
}
use gin_bot.Base.Dict.{Dict, get, put, delete}
use gin_bot.Access.{
  Platform, unspecified, discord, matrix_protocol, telegram, line, email, snail_mail,
}

abbrev pub client_send_buffer : ℕ
client_send_buffer = 64

abbrev pub max_stream_clients : ℕ
max_stream_clients = 64

-- The number of a platform on the wire; equality of platforms is that of the numbers.
abbrev number_of : Platform → ℕ
number_of unspecified = 0
number_of discord = 1
number_of matrix_protocol = 2
number_of telegram = 3
number_of line = 4
number_of email = 5
number_of snail_mail = 6

module _ (Action : Type 0) where
  pub record StreamClient : Type 0 where
    pub id : ℕ
    pub platform : Platform
    pub actions : List Action

  pub record ReverseServer : Type 0 where
    pub clients : Dict ℕ StreamClient
    pub next_id : ℕ
    pub is_done : Bool

  -- The clients afterwards, and how many actions were delivered and dropped.
  pub record Sent : Type 0 where
    pub clients : Dict ℕ StreamClient
    pub delivered : ℕ
    pub dropped : ℕ

  -- A call or a goroutine's round.
  pub data Step : Type 0 where
    registers : Platform → Step
    deregisters : ℕ → Step
    sends : Platform → Action → Step
    takes : ℕ → Step
    shuts_down : Step

abbrev count_one : Bool → ℕ
count_one true = 1
count_one false = 0

-- s.nextID++ on a uint64
abbrev pub bumped : ℕ → ℕ
bumped n = (n + 1) % 2 ^ 64

module _ {Action : Type 0} where
  unfoldable pub new_reverse_server : ReverseServer Action
  new_reverse_server = record { clients = []; next_id = 0; is_done = false }

  unfoldable pub shutdown : ReverseServer Action → ReverseServer Action
  shutdown s = record s { is_done = true }

  abbrev pub new_client : ℕ → Platform → StreamClient Action
  new_client id platform = record { id = id; platform = platform; actions = [] }

  unfoldable pub register :
      ReverseServer Action → Platform → ReverseServer Action × Option (StreamClient Action)
  register s platform = if leb max_stream_clients (length s.clients) then (s, none) else (
    record s {
      clients = put s.clients (bumped s.next_id) (new_client (bumped s.next_id) platform);
      next_id = bumped s.next_id;
    },
    some (new_client (bumped s.next_id) platform),
  )

  unfoldable pub deregister : ReverseServer Action → ℕ → ReverseServer Action
  deregister s id = record s { clients = delete s.clients id }

  abbrev pub is_for : Platform → StreamClient Action → Bool
  is_for target c = number_of c.platform == number_of target

  -- The arm of the select: queue the action, or drop it when the buffer is full.
  abbrev pub offer : Action → StreamClient Action → StreamClient Action
  offer action c =
      if ltb (length c.actions) client_send_buffer
      then record c { actions = c.actions ++ (action ∷ []) }
      else c

  unfoldable pub send_all : Platform → Action → Dict ℕ (StreamClient Action) → Sent Action
  send_all target action [] = record { clients = []; delivered = 0; dropped = 0 }
  send_all target action ((id, c) ∷ m) =
      let rest = send_all target action m in
      let has_room = ltb (length c.actions) client_send_buffer in
      if is_for target c
      then record {
        clients = (id, offer action c) ∷ rest.clients;
        delivered = count_one has_room + rest.delivered;
        dropped = count_one (not has_room) + rest.dropped;
      }
      else record rest { clients = (id, c) ∷ rest.clients }

  unfoldable pub send_action : ReverseServer Action → Platform → Action → ReverseServer Action
  unfolding send_all
  send_action s target action = record s { clients = (send_all target action s.clients).clients }

  abbrev pub tail : List Action → List Action
  tail [] = []
  tail (a ∷ rest) = rest

  abbrev pub take_from :
      Dict ℕ (StreamClient Action) → ℕ → Option (StreamClient Action) → Dict ℕ (StreamClient Action)
  take_from m id none = m
  take_from m id (some c) = put m id (record c { actions = tail c.actions })

  -- One round of the sending goroutine of a client.
  unfoldable pub take_action : ReverseServer Action → ℕ → ReverseServer Action
  take_action s id = record s { clients = take_from s.clients id (get s.clients id) }

  unfoldable pub after : ReverseServer Action → Step Action → ReverseServer Action
  unfolding register deregister send_action take_action shutdown
  after s (registers p) = (register s p).0
  after s (deregisters id) = deregister s id
  after s (sends p a) = send_action s p a
  after s (takes id) = take_action s id
  after s shuts_down = shutdown s

  unfoldable pub run : ReverseServer Action → List (Step Action) → ReverseServer Action
  unfolding after
  run s [] = s
  run s (step ∷ steps) = run (after s step) steps
