-- ===== src/Peer/Connection.antt =====
-- src/core/peer/peer_connection.rs: the commands to a peer, the events from it, and what a connection
-- does with each. A connection has its peer's state, its buffer, the bytes it has written to the
-- stream and the events it has sent. A failed write or a closed channel ends it, with an error of
-- the runtime; here both succeed. The stream's bytes are an argument where it is read.
pub mod Frames
pub mod Misread
pub mod Loop
pub mod View
use Prim.Native.String.{String}
use motte_seed.Prelude.{
  ℕ, ◌+◌, ◌%◌, ◌^◌, true, false, Option, none, some, List, [], ◌∷◌, ◌++◌, Result, ok, err, ltb,
  if◌then◌else◌, length, take, drop,
}
use motte_seed.Bytes.{Bytes, BufMut, u16_at, u32_at}
use motte_seed.Peer.Block.{PeerIp}
use motte_seed.Peer.State
use motte_seed.Peer.State.{Float, PeerState}
use motte_seed.Peer.Handshake.{HandShakeError, handshake}
use motte_seed.Peer.Message.{Message, MessageError, serialize_into, deserialize}

pub data PeerEvent (F : Type 0) : Type 0 where
  peer_choked peer_unchoked peer_interested peer_not_interested : PeerEvent F
  received_have : ℕ → PeerEvent F
  received_bitfield : Bytes → PeerEvent F
  requested_block : ℕ → ℕ → ℕ → PeerEvent F
  received_piece : ℕ → ℕ → Bytes → PeerEvent F
  peer_disconnected : PeerEvent F
  download_rate : F → PeerEvent F

pub data ManagerCommand : Type 0 where
  keep_alive choke unchoke interested not_interested : ManagerCommand
  have_piece : ℕ → ManagerCommand
  request_block cancel_block : ℕ → ℕ → ℕ → ManagerCommand
  disconnect : ManagerCommand

-- `Io` with its text, and of a stream that ends early.
pub data ConnectionError : Type 0 where
  io : String → ConnectionError
  unexpected_eof : ConnectionError
  handshake_failed : HandShakeError → ConnectionError
  message : MessageError → ConnectionError

pub record PeerConnection (F : Type 0) : Type 0 where
  pub state : PeerState F
  pub buf : Bytes
  pub written : Bytes
  pub events : List (PeerEvent F)

-- The message for a command; `Disconnect` has none.
unfoldable pub to_message : ManagerCommand → Option Message
to_message ManagerCommand.keep_alive = some Message.keep_alive
to_message ManagerCommand.choke = some Message.choke
to_message ManagerCommand.unchoke = some Message.un_choke
to_message ManagerCommand.interested = some Message.interested
to_message ManagerCommand.not_interested = some Message.not_interested
to_message (ManagerCommand.have_piece index) = some (Message.have index)
to_message (ManagerCommand.request_block index begin len) = some (Message.request index begin len)
to_message (ManagerCommand.cancel_block index begin len) = some (Message.cancel index begin len)
to_message ManagerCommand.disconnect = none

module _ (lib : BufMut) where
  -- The result, what is left in the buffer, and the rest of the stream.
  unfoldable pub read_message : Bytes → Result Message ConnectionError × Bytes × Bytes
  read_message stream =
      if ltb (length stream) 4
      then (err unexpected_eof, [], [])
      else let len = u32_at stream 0 in
        let rest = drop 4 stream in
        if ltb (length rest) len
        then (err unexpected_eof, rest, [])
        else let (result, left) = deserialize lib (take len rest) in
          elim result [
            | ok m ↦ (ok m, left, drop len rest)
            | err e ↦ (err (message e), left, drop len rest)
          ]

  -- The buffer is not cleared: the message comes behind what is in it, and all of it is written.
  unfoldable pub send : {F : Type 0} → PeerConnection F → Message → PeerConnection F
  send c m =
      let buf = serialize_into lib m c.buf in record c { buf = buf; written = c.written ++ buf }

  unfoldable pub handle_manager_command :
      {F : Type 0} → PeerConnection F → ManagerCommand → PeerConnection F
  unfolding send
  handle_manager_command c command = elim (to_message command) [ some m ↦ send c m | none ↦ c ]

  unfoldable pub send_bitfield : {F : Type 0} → PeerConnection F → Option Bytes → PeerConnection F
  unfolding send
  send_bitfield c none = c
  send_bitfield c (some bytes) = send c (Message.bitfield bytes)

-- The IPv4 address and the port in the six bytes of a peer.
unfoldable pub socket_addr : PeerIp → Bytes × ℕ
socket_addr ip = (take 4 ip, u16_at ip 4)

module _ (float : Float) where
  open float use {F64}

  -- A connection with the rest of its stream; `connect` gives what the peer sends. The channels are
  -- left out.
  unfoldable pub new :
      (Bytes × ℕ → Result Bytes String)
      → PeerIp
      → Bytes
      → Bytes
      → ℕ
      → Result (PeerConnection F64 × Bytes) ConnectionError
  new connect ip peer_id info_hash now = elim (connect (socket_addr ip)) [
    | err text ↦ err (io text)
    | ok stream ↦
        let (result, written, rest) = handshake stream peer_id info_hash in
        elim result [
          | err e ↦ err (handshake_failed e)
          | ok _ ↦ ok (
            record { state = State.new float none now; buf = []; written = written; events = [] },
            rest,
          )
        ]
  ]

  unfoldable pub emit : PeerConnection F64 → PeerEvent F64 → PeerConnection F64
  emit c event = record c { events = c.events ++ (event ∷ []) }

  -- The piece is announced before its bytes are counted and the rate after.
  unfoldable pub handle_piece : PeerConnection F64 → ℕ → ℕ → Bytes → ℕ → PeerConnection F64
  unfolding emit
  handle_piece c index begin block now =
      let c1 = emit c (received_piece index begin block) in
      let counted = record (c1.state) {
        downloaded = ((c1.state).downloaded + length block) % 2 ^ 64;
      } in
      let s = State.update_download_rate float counted now in
      emit (record c1 { state = s }) (download_rate s.download_rate)

  unfoldable pub handle_message : PeerConnection F64 → Message → ℕ → PeerConnection F64
  unfolding handle_piece emit
  handle_message c Message.keep_alive now = c
  handle_message c Message.choke now =
      emit (record c { state = record (c.state) { peer_choking = true } }) peer_choked
  handle_message c Message.un_choke now =
      emit (record c { state = record (c.state) { peer_choking = false } }) peer_unchoked
  handle_message c Message.interested now =
      emit (record c { state = record (c.state) { peer_interested = true } }) peer_interested
  handle_message c Message.not_interested now =
      emit (record c { state = record (c.state) { peer_interested = false } }) peer_not_interested
  handle_message c (Message.have index) now = emit c (received_have index)
  handle_message c (Message.bitfield bytes) now =
      emit (record c { state = record (c.state) { bitfield = some bytes } })
        (received_bitfield bytes)
  handle_message c (Message.request index begin len) now = emit c (requested_block index begin len)
  handle_message c (Message.piece index begin block) now = handle_piece c index begin block now
  handle_message c (Message.cancel index begin len) now = c
  handle_message c (Message.port p) now = c
