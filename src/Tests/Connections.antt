-- ===== src/Tests/Connections.antt =====
-- The theorems about the connections at concrete inputs.
use Prim.Native.String.{String}
use motte_seed.Prelude.{
  ℕ, ◌≡◌, ◌≤◌, refl, true, false, All, List, [], ◌∷◌, ◌++◌, none, arith, length, ok, Result, take,
  drop, replicate,
}
use motte_seed.Prelude.Text.{codes}
use motte_seed.Bytes.{Bytes, IsU8, list_buf, bytes_eq, has}
use motte_seed.Peer.Block.{PeerIp}
use motte_seed.Peer.State
use motte_seed.Peer.State.{Float}
use motte_seed.Peer.Message
use motte_seed.Peer.Handshake
use motte_seed.Peer.Id.{get_peer_id, get_peer_id_lem}
use motte_seed.Peer.Connection
use motte_seed.Peer.Connection.{PeerConnection, PeerEvent, peer_unchoked}
use motte_seed.Peer.Connection.Loop.{Running, starts, turns, received}
use motte_seed.Peer.Connection.View.{known, view_from, start_view, run-known}
use motte_seed.Peer.Manager as Connections
use motte_seed.Peer.Manager.{PeerManager, Task, running, add_peer, update}
use motte_seed.Peer.Manager.Steps.{
  IsOrdered, Reached, created, after, adds, connects, emits, forwards,
}
use motte_seed.Peer.Manager.Routes.{behind, change, send_to_peer-change}
use motte_seed.Peer.Manager.Order.{Reached-IsOrdered}

drawn : (i : ℕ) → (33 ≤ 40) × (40 ≤ 126)
drawn i = (omega arith, omega arith)

get_peer_id_lem_example :
    (length (get_peer_id (λ i. 40)) ≡ 20)
    × All IsU8 (get_peer_id (λ i. 40))
    × All (λ b. (33 ≤ b) × (b ≤ 126)) (get_peer_id (λ i. 40))
    × (take 8 (get_peer_id (λ i. 40)) ≡ codes "-MS0100-")
    × (drop 8 (get_peer_id (λ i. 40)) ≡ replicate 12 40)
get_peer_id_lem_example = get_peer_id_lem (λ i. 40) drawn

abbrev pub F : Type 0
F = Unit {0}

abbrev pub ip : PeerIp
ip = 10 ∷ 0 ∷ 0 ∷ 1 ∷ 4 ∷ 5 ∷ []

-- A peer is added and connects, its connection sends an event, and the event is passed on.
abbrev empty : PeerManager F
empty = Connections.new [] []

abbrev one_task : Task F
one_task = record {
  ip = ip;
  bitfield = none;
  stage = running;
  commands = [];
  emitted = peer_unchoked ∷ [];
  events = peer_unchoked ∷ [];
  forwarding = true;
}

abbrev manager_of : List (Task F) → List (PeerEvent F × PeerIp) → PeerManager F
manager_of tasks forwarded = record {
  peer_senders = (ip, 0) ∷ [];
  peer_id = [];
  info_hash = [];
  tasks = tasks;
  forwarded = forwarded;
}

abbrev passed : Task F
passed = record one_task { events = [] }

reaches : Reached [] [] (manager_of (passed ∷ []) ((peer_unchoked, ip) ∷ []))
unfolding Connections.new Connections.add_peer Connections.insert_sender Connections.new_task
    Connections.update Connections.connect Connections.forward has
reaches =
    after
      (after (after (after created (adds empty ip none refl)) (connects _ 0 true))
        (emits _ 0 peer_unchoked refl refl refl))
      (forwards _ 0 true refl refl)

Reached-IsOrdered_example : All (IsOrdered ((peer_unchoked, ip) ∷ [])) (passed ∷ [])
Reached-IsOrdered_example =
    Reached-IsOrdered (manager_of (passed ∷ []) ((peer_unchoked, ip) ∷ [])) reaches

send_to_peer-change_example :
    Connections.send_to_peer
      (manager_of (passed ∷ []) ((peer_unchoked, ip) ∷ []))
      ip
      Connection.interested
    ≡ manager_of (change ip (behind Connection.interested) (passed ∷ [])) ((peer_unchoked, ip) ∷ [])
send_to_peer-change_example =
    send_to_peer-change (manager_of (passed ∷ []) ((peer_unchoked, ip) ∷ [])) ip
      Connection.interested reaches

abbrev float : Float
float = record {
  F64 = F;
  zero_rate = tt;
  of_u64 = λ n. tt;
  as_secs = λ n. tt;
  at_least_one = λ x. true;
  divide = λ a b. tt;
}

-- The peer sends its handshake and a frame.
abbrev frame : Bytes
frame = 0 ∷ 0 ∷ 0 ∷ 5 ∷ 0 ∷ 0 ∷ 0 ∷ 1 ∷ 1 ∷ []

abbrev connect_to : Bytes × ℕ → Result Bytes String
connect_to addr = ok (Handshake.request (replicate 20 8) (replicate 20 7) ++ frame)

abbrev connected : PeerConnection F
connected = record {
  state = State.new float none 3;
  buf = [];
  written = Handshake.request (replicate 20 9) (replicate 20 7);
  events = [];
}

connects_to :
    Connection.new float connect_to ip (replicate 20 9) (replicate 20 7) 3 ≡ ok (connected, frame)
unfolding Connection.new Connection.socket_addr Handshake.handshake Handshake.response
    Handshake.request bytes_eq
connects_to = refl

reads_frame :
    Connection.read_message list_buf frame ≡ (ok Message.un_choke, 0 ∷ 0 ∷ 0 ∷ 1 ∷ 1 ∷ [], [])
unfolding Connection.read_message Message.deserialize
reads_frame = refl

abbrev unchoked : PeerConnection F
unchoked =
    Connection.handle_message float (record connected { buf = 0 ∷ 0 ∷ 0 ∷ 1 ∷ 1 ∷ [] })
      Message.un_choke 4

runs : Running list_buf float connected none frame (unchoked, [])
unfolding Connection.send_bitfield
runs =
    turns starts
      (received connected frame 4 Message.un_choke (0 ∷ 0 ∷ 0 ∷ 1 ∷ 1 ∷ []) [] reads_frame)

run-known_example :
    (known unchoked.state ≡ view_from start_view unchoked.events)
    × ((unchoked.state).am_choking ≡ true)
    × ((unchoked.state).am_interested ≡ false)
run-known_example =
    run-known list_buf float connect_to ip (replicate 20 9) (replicate 20 7) 3 connected unchoked
      none frame [] connects_to runs
