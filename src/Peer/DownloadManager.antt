-- ===== src/Peer/DownloadManager.antt =====
-- src/core/peer/download_manager.rs: the events of the peers, the pieces, and the commands to the peers.
-- A handler returns the manager after it, with the commands that it has handed to the peers'
-- channels in `sent` (a channel that is closed is ignored, as the code does). A peer is in `peers`
-- with the bitfield last seen. The clock is an argument, and `none` means, as in `Piece`, that a
-- loop does not end.
pub mod Bitfield
pub mod Have
pub mod Handlers
pub mod Unchoke
pub mod Reach
pub mod Loop
pub mod Runs
pub mod Silent
pub mod Progress
pub mod Finish
pub mod Delivered
pub mod Kept
pub mod Handled
pub mod Events
pub mod Start
pub mod Download
pub mod Created
pub mod EndToEnd
pub mod Checked
use motte_seed.Prelude.{
  ℕ, zero, suc, ◌+◌, ◌-◌, ◌*◌, ◌/◌, ◌%◌, ◌^◌, Bool, true, false, Option, none, some, List, [], ◌∷◌,
  ◌++◌, ltb, if◌then◌else◌, length, set,
}
use motte_seed.Prelude.Assoc.{HashOrder}
use motte_seed.Bytes.{Bytes, bytes_eq, at}
use motte_seed.Torrent.{Info}
use motte_seed.Disk
use motte_seed.Disk.{DiskIo, FileSystem}
use motte_seed.Peer.Block.{Block, PeerIp}
use motte_seed.Peer.State.{has_bit}
use motte_seed.Peer.Connection.{
  PeerEvent, ManagerCommand, interested, have_piece, request_block, received_bitfield,
  received_have, peer_unchoked, received_piece, peer_disconnected,
}
use motte_seed.Peer.PieceManager
use motte_seed.Peer.PieceManager.{
  PieceManager, get_next_piece_to_download, get_next_block_for_piece, get_piece_data,
  mark_piece_written, is_download_complete,
}

-- The bitfield of each registered peer.
abbrev pub Peers : Type 0
Peers = List (PeerIp × Option Bytes)

unfoldable pub find_peer : Peers → PeerIp → Option (Option Bytes)
find_peer [] ip = none
find_peer ((k, v) ∷ m) ip = if bytes_eq k ip then some v else find_peer m ip

unfoldable pub insert_peer : Peers → PeerIp → Option Bytes → Peers
insert_peer [] ip v = (ip, v) ∷ []
insert_peer ((k, w) ∷ m) ip v = if bytes_eq k ip then (k, v) ∷ m else (k, w) ∷ insert_peer m ip v

unfoldable pub delete_peer : Peers → PeerIp → Peers
delete_peer [] ip = []
delete_peer ((k, w) ∷ m) ip = if bytes_eq k ip then m else (k, w) ∷ delete_peer m ip

pub record DownloadManager : Type 0 where
  pub piece_manager : PieceManager
  pub peers : Peers
  pub disk_io : Option DiskIo
  pub sent : List (PeerIp × ManagerCommand)

unfoldable pub new : Info → ℕ → Option DownloadManager
new info block_size = elim (PieceManager.new info block_size) [
  | none ↦ none
  | some m ↦ some (record { piece_manager = m; peers = []; disk_io = none; sent = [] })
]

unfoldable pub set_disk_io : DownloadManager → DiskIo → DownloadManager
set_disk_io d disk_io = record d { disk_io = some disk_io }

unfoldable pub add_peer : DownloadManager → PeerIp → DownloadManager
add_peer d peer_ip = record d { peers = insert_peer d.peers peer_ip none }

unfoldable pub remove_peer : DownloadManager → PeerIp → DownloadManager
remove_peer d peer_ip = record d { peers = delete_peer d.peers peer_ip }

-- A command for a registered peer.
unfoldable pub send : DownloadManager → PeerIp → ManagerCommand → DownloadManager
send d peer_ip command = elim (find_peer d.peers peer_ip) [
  | none ↦ d
  | some _ ↦ record d { sent = d.sent ++ ((peer_ip, command) ∷ []) }
]

-- The pieces of one byte of a bitfield, from a bit on, for as many bits as are left.
unfoldable pub byte_pieces : ℕ → ℕ → ℕ → ℕ → List ℕ
byte_pieces byte_index byte bit_index zero = []
byte_pieces byte_index byte bit_index (suc n) =
    let rest = byte_pieces byte_index byte (bit_index + 1) n in
    if has_bit byte (7 - bit_index) then (byte_index * 8 + bit_index) % 2 ^ 32 ∷ rest else rest

unfoldable pub bitfield_pieces : ℕ → Bytes → List ℕ
bitfield_pieces byte_index [] = []
bitfield_pieces byte_index (byte ∷ bytes) =
    byte_pieces byte_index byte 0 8 ++ bitfield_pieces (byte_index + 1) bytes

unfoldable pub get_peer_available_pieces : DownloadManager → PeerIp → List ℕ
get_peer_available_pieces d peer_ip = elim (find_peer d.peers peer_ip) [
  | some (some bitfield) ↦ bitfield_pieces 0 bitfield
  | _ ↦ []
]

unfoldable pub peer_has_needed_pieces : DownloadManager → PeerIp → Bool
peer_has_needed_pieces d peer_ip =
    elim (get_next_piece_to_download d.piece_manager (get_peer_available_pieces d peer_ip)) [
      | some _ ↦ true
      | none ↦ false
    ]

-- A write through `get_mut`.
unfoldable pub store_bitfield : DownloadManager → PeerIp → Bytes → DownloadManager
store_bitfield d peer_ip bitfield = elim (find_peer d.peers peer_ip) [
  | none ↦ d
  | some _ ↦ record d { peers = insert_peer d.peers peer_ip (some bitfield) }
]

unfoldable pub handle_bitfield : DownloadManager → PeerIp → Bytes → DownloadManager
handle_bitfield d peer_ip bitfield =
    let stored = store_bitfield d peer_ip bitfield in
    if peer_has_needed_pieces stored peer_ip then send stored peer_ip interested else stored

-- `byte |= 1 << k`
unfoldable pub set_bit : ℕ → ℕ → ℕ
set_bit byte k = if has_bit byte k then byte else byte + 2 ^ k

-- The bitfield with one more piece, if it has a bit for it.
unfoldable pub mark_have : Bytes → ℕ → Bytes
mark_have bitfield piece_index =
    let byte_index = piece_index / 8 in
    if ltb byte_index (length bitfield % 2 ^ 32)
    then set bitfield byte_index (set_bit (at bitfield byte_index) (7 - piece_index % 8))
    else bitfield

unfoldable pub handle_have : DownloadManager → PeerIp → ℕ → DownloadManager
handle_have d peer_ip piece_index = elim (find_peer d.peers peer_ip) [
  | some (some bitfield) ↦ record d {
    peers = insert_peer d.peers peer_ip (some (mark_have bitfield piece_index));
  }
  | _ ↦ d
]

module _ (order : HashOrder Block) where
  unfoldable pub request_next_block_for_piece : DownloadManager → PeerIp → ℕ → ℕ → DownloadManager
  request_next_block_for_piece d peer_ip piece_index now =
      elim (get_next_block_for_piece order d.piece_manager piece_index) [
        | none ↦ d
        | some (offset, len) ↦
            send
              (record d {
                piece_manager =
                    PieceManager.request_block d.piece_manager piece_index offset peer_ip now;
              })
              peer_ip (request_block piece_index (offset % 2 ^ 32) len)
      ]

  unfoldable pub request_pieces_from_peer : DownloadManager → PeerIp → ℕ → DownloadManager
  request_pieces_from_peer d peer_ip now =
      elim (get_next_piece_to_download d.piece_manager (get_peer_available_pieces d peer_ip)) [
        | none ↦ d
        | some piece_index ↦ request_next_block_for_piece d peer_ip piece_index now
      ]

  unfoldable pub handle_unchoke : DownloadManager → PeerIp → ℕ → DownloadManager
  handle_unchoke d peer_ip now = request_pieces_from_peer d peer_ip now

-- `peer_order` is the order in which the iterator of the map visits the peers.
unfoldable pub send_all : Peers → ManagerCommand → List (PeerIp × ManagerCommand)
send_all [] command = []
send_all ((ip, _) ∷ m) command = (ip, command) ∷ send_all m command

unfoldable pub broadcast_have : (Peers → Peers) → DownloadManager → ℕ → DownloadManager
broadcast_have peer_order d piece_index = record d {
  sent = d.sent ++ send_all (peer_order d.peers) (have_piece piece_index);
}

module _ (sha1 : Bytes → Bytes) (fs : FileSystem) (peer_order : Peers → Peers) where
  -- A piece that is complete goes to the disk.
  unfoldable pub store_piece : DownloadManager → DiskIo → ℕ → Bytes → DownloadManager
  store_piece d disk piece_index bytes =
      let (files, error) = Disk.write_piece fs disk piece_index bytes in
      let stored = record d { disk_io = some (record disk { files = files }) } in
      elim error [
        | some _ ↦ stored
        | none ↦
            broadcast_have peer_order
              (record stored { piece_manager = mark_piece_written d.piece_manager piece_index })
              piece_index
      ]

  unfoldable pub finish_piece : DownloadManager → ℕ → Option DownloadManager
  finish_piece d piece_index = elim d.disk_io [
    | none ↦ some d
    | some disk ↦ elim (get_piece_data d.piece_manager piece_index) [
      | none ↦ none
      | some none ↦ some d
      | some (some bytes) ↦ some (store_piece d disk piece_index bytes)
    ]
  ]

  unfoldable pub handle_recieve_piece : DownloadManager → ℕ → ℕ → Bytes → Option DownloadManager
  handle_recieve_piece d piece_index begin block =
      elim (PieceManager.receive_block sha1 d.piece_manager piece_index begin block) [
        | none ↦ none
        | some (m, piece_complete) ↦
            let received = record d { piece_manager = m } in
            let finished = finish_piece received piece_index in
            if piece_complete then finished else some received
      ]

  -- The body of the loop of `run` for one event.
  unfoldable pub handle_event :
      {F : Type 0}
      → HashOrder Block
      → DownloadManager
      → PeerEvent F
      → PeerIp
      → ℕ
      → Option DownloadManager
  handle_event order d event peer_ip now = elim event [
    | received_bitfield bitfield ↦ some (handle_bitfield d peer_ip bitfield)
    | received_have piece_index ↦ some (handle_have d peer_ip piece_index)
    | peer_unchoked ↦ some (handle_unchoke order d peer_ip now)
    | received_piece index begin block ↦ handle_recieve_piece d index begin block
    | peer_disconnected ↦ some (remove_peer d peer_ip)
    | _ ↦ some d
  ]

  -- `run` over the events that arrive, each with its peer and its time. The flag is true if it has
  -- left its loop, which it does after an event with which the download is complete, and false if it
  -- has not: all these events are handled, and it waits for the next one.
  unfoldable pub run :
      {F : Type 0}
      → HashOrder Block
      → DownloadManager
      → List (PeerEvent F × PeerIp × ℕ)
      → Option (DownloadManager × Bool)
  run order d [] = some (d, false)
  run order d ((event, peer_ip, now) ∷ rest) = elim (handle_event order d event peer_ip now) [
    | none ↦ none
    | some e ↦
        let more = run order e rest in
        if is_download_complete e.piece_manager then some (e, true) else more
  ]

-- The loop of `run` when the channel of the events is closed, on fuel: a round receives nothing, and
-- only looks whether the download is complete.
unfoldable pub run_closed : ℕ → DownloadManager → Option DownloadManager
run_closed zero d = none
run_closed (suc rounds) d =
    let more = run_closed rounds d in if is_download_complete d.piece_manager then some d else more
