-- ===== src/Peer/Manager.antt =====
-- src/core/peer/peer_manager.rs: the connections to the peers of a torrent, each in a task of its own.
-- A sender in `peer_senders` is the number of its task. `tasks` are the tasks that have been spawned,
-- each with what is in its two channels, and `forwarded` is what they have handed to the download
-- manager, in order. A task's connection keeps the log of the events that it has sent. A channel that
-- is full makes its sender wait: here a send is the moment in which it is done.
pub mod Order
pub mod Steps
pub mod Turns
pub mod Routes
use motte_seed.Prelude.{
  ℕ, zero, suc, Bool, true, false, Option, none, some, List, [], ◌∷◌, ◌++◌, if◌then◌else◌, length,
}
use motte_seed.Bytes.{Bytes, bytes_eq}
use motte_seed.Peer.Block.{PeerIp}
use motte_seed.Peer.Connection.{PeerEvent, ManagerCommand}

-- A connection that is being made, one that runs, and one that has failed or ended.
pub data Stage : Type 0 where
  connecting running ended : Stage

pub record Task (F : Type 0) : Type 0 where
  pub ip : PeerIp
  pub bitfield : Option Bytes
  pub stage : Stage
  pub commands : List ManagerCommand
  pub emitted : List (PeerEvent F)
  pub events : List (PeerEvent F)
  -- Whether the loop that passes the events on has not ended.
  pub forwarding : Bool

pub record PeerManager (F : Type 0) : Type 0 where
  pub peer_senders : List (PeerIp × ℕ)
  pub peer_id : Bytes
  pub info_hash : Bytes
  pub tasks : List (Task F)
  pub forwarded : List (PeerEvent F × PeerIp)

unfoldable pub find_sender : List (PeerIp × ℕ) → PeerIp → Option ℕ
find_sender [] ip = none
find_sender ((k, n) ∷ m) ip = if bytes_eq k ip then some n else find_sender m ip

unfoldable pub insert_sender : List (PeerIp × ℕ) → PeerIp → ℕ → List (PeerIp × ℕ)
insert_sender [] ip n = (ip, n) ∷ []
insert_sender ((k, i) ∷ m) ip n =
    if bytes_eq k ip then (k, n) ∷ m else (k, i) ∷ insert_sender m ip n

-- A change to the task with a number.
unfoldable pub update : {A : Type 0} → List A → ℕ → (A → A) → List A
update [] n f = []
update (t ∷ l) zero f = f t ∷ l
update (t ∷ l) (suc n) f = t ∷ update l n f

unfoldable pub new : {F : Type 0} → Bytes → Bytes → PeerManager F
new peer_id info_hash = record {
  peer_senders = [];
  peer_id = peer_id;
  info_hash = info_hash;
  tasks = [];
  forwarded = [];
}

unfoldable pub new_task : {F : Type 0} → PeerIp → Option Bytes → Task F
new_task peer_ip bitfield = record {
  ip = peer_ip;
  bitfield = bitfield;
  stage = connecting;
  commands = [];
  emitted = [];
  events = [];
  forwarding = true;
}

unfoldable pub add_peer : {F : Type 0} → PeerManager F → PeerIp → Option Bytes → PeerManager F
add_peer m peer_ip bitfield = record m {
  peer_senders = insert_sender m.peer_senders peer_ip (length m.tasks);
  tasks = m.tasks ++ (new_task peer_ip bitfield ∷ []);
}

unfoldable pub get_peer_sender : {F : Type 0} → PeerManager F → PeerIp → Option ℕ
get_peer_sender m peer_ip = find_sender m.peer_senders peer_ip

-- A command in the channel of a task; a connection that has ended has dropped its end of it.
unfoldable pub push_command : {F : Type 0} → ManagerCommand → Task F → Task F
push_command command t = elim t.stage [
  | ended ↦ t
  | _ ↦ record t { commands = t.commands ++ (command ∷ []) }
]

unfoldable pub send_to_peer : {F : Type 0} → PeerManager F → PeerIp → ManagerCommand → PeerManager F
send_to_peer m peer_ip command = elim (find_sender m.peer_senders peer_ip) [
  | none ↦ m
  | some n ↦ record m { tasks = update m.tasks n (push_command command) }
]

-- The first part of a task: the connection is made, or the task returns.
unfoldable pub connect : {F : Type 0} → Bool → Task F → Task F
connect made t =
    if made then record t { stage = running } else record t { stage = ended; forwarding = false }

-- One turn of the loop that passes events on; `receiving` tells whether the download manager still
-- holds its end of the channel. With an empty channel the loop ends if the connection has.
unfoldable pub forward : {F : Type 0} → Bool → Task F → Task F × List (PeerEvent F × PeerIp)
forward receiving t = elim t.events [
  | [] ↦ elim t.stage [ ended ↦ (record t { forwarding = false }, []) | _ ↦ (t, []) ]
  | event ∷ rest ↦
      let taken : Task _ = record t { events = rest } in
      if receiving then (taken, (event, t.ip) ∷ []) else (record taken { forwarding = false }, [])
]
