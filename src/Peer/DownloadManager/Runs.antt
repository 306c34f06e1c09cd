-- ===== src/Peer/DownloadManager/Runs.antt =====
-- What the handlers of a download manager do to its piece manager, and that they end.
use motte_seed.Prelude.{
  ℕ, ◌^◌, ◌≡◌, ◌≢◌, ◌<◌, refl, ap, ◌∙◌, Bool, none, some, ◌⊎◌, inl, inr, Option-cases, Bool-cases,
  arith, length,
}
use motte_seed.Prelude.Assoc.{HashOrder}
use motte_seed.Bytes.{Bytes}
use motte_seed.Torrent.{Info}
use motte_seed.Disk.{FileSystem, write_piece}
use motte_seed.Peer.Block.{Block, PeerIp}
use motte_seed.Peer.Connection.{PeerEvent, received_piece}
use motte_seed.Peer.PieceManager
use motte_seed.Peer.PieceManager.{
  PieceManager, mark_piece_written, get_piece_data, get_next_piece_to_download,
  get_next_block_for_piece,
}
use motte_seed.Peer.PieceManager.Genuine.{AllGenuine}
use motte_seed.Peer.PieceManager.Data.{get_piece_data-ends}
use motte_seed.Peer.DownloadManager.{
  DownloadManager, Peers, send, store_bitfield, handle_bitfield, handle_have, handle_unchoke,
  request_pieces_from_peer, request_next_block_for_piece, broadcast_have, store_piece, finish_piece,
  handle_recieve_piece, finish_piece, find_peer, get_peer_available_pieces,
}

-- A block that comes in a message has fewer than 2^32 bytes.
abbrev pub IsShort : {F : Type 0} → PeerEvent F → Type 0
IsShort (received_piece index begin block) = length block < 2 ^ 32
IsShort _ = Unit {0}

-- What a handler leaves as the piece manager, where it requests nothing.
pub handle_bitfield-pieces :
    (d : DownloadManager) (ip : PeerIp) (bitfield : Bytes)
    → (handle_bitfield d ip bitfield).piece_manager ≡ d.piece_manager
unfolding handle_bitfield store_bitfield send
handle_bitfield-pieces d ip bitfield = ground arith

pub handle_have-pieces :
    (d : DownloadManager) (ip : PeerIp) (index : ℕ)
    → (handle_have d ip index).piece_manager ≡ d.piece_manager
unfolding handle_have
handle_have-pieces d ip index = ground arith

pub handle_unchoke-pieces :
    (order : HashOrder Block) (d : DownloadManager) (ip : PeerIp) (now : ℕ)
    → ((handle_unchoke order d ip now).piece_manager ≡ d.piece_manager)
      ⊎ ((index : ℕ) × (offset : ℕ) × (len : ℕ) × (get_next_block_for_piece order d.piece_manager
              index
            ≡ some (offset, len))
          × ((handle_unchoke order d ip now).piece_manager
              ≡ PieceManager.request_block d.piece_manager index offset ip now))
unfolding handle_unchoke request_pieces_from_peer request_next_block_for_piece send
handle_unchoke-pieces order d ip now =
    let m : PieceManager = d.piece_manager in
    elim (Option-cases (get_next_piece_to_download m (get_peer_available_pieces d ip))) [
      | inl n ↦ inl (ground (arith, n))
      | inr (i, s) ↦ elim (Option-cases (get_next_block_for_piece order m i)) [
        | inl n ↦ inl (ground (arith, n, s))
        | inr ((offset, len), b) ↦ elim (Option-cases (find_peer d.peers ip)) [
          | inl n ↦ inr (i, offset, len, b, ground (arith, n, s, b))
          | inr (v, f) ↦ inr (i, offset, len, b, ground (arith, f, s, b))
        ]
      ]
    ]

module _ (sha1 : Bytes → Bytes) (fs : FileSystem) (peer_order : Peers → Peers) where
  finish_piece-pieces :
      (d e : DownloadManager) (index : ℕ)
      → finish_piece sha1 fs peer_order d index ≡ some e
      → (e.piece_manager ≡ d.piece_manager)
        ⊎ (e.piece_manager ≡ mark_piece_written d.piece_manager index)
  unfolding finish_piece store_piece broadcast_have
  finish_piece-pieces d e index h = elim (Option-cases d.disk_io) [
    | inl n ↦ inl (ground (arith, n))
    | inr (disk, k) ↦ elim (Option-cases (get_piece_data d.piece_manager index)) [
      | inl n ↦ absurd (ground (arith, n, k))
      | inr (none, g) ↦ inl (ground (arith, g, k))
      | inr (some bytes, g) ↦
          let same : e ≡ store_piece sha1 fs peer_order d disk index bytes = ground (arith, g, k) in
          elim (Option-cases ((write_piece fs disk index bytes).1)) [
            | inl n ↦
                inr (ap (λ (x : DownloadManager). x.piece_manager) same ∙ rw (n, store_piece) refl)
            | inr (x, n) ↦
                inl (ap (λ (y : DownloadManager). y.piece_manager) same ∙ rw (n, store_piece) refl)
          ]
    ]
  ]

  pub handle_recieve_piece-pieces :
      (d e : DownloadManager) (index begin : ℕ) (block : Bytes)
      → handle_recieve_piece sha1 fs peer_order d index begin block ≡ some e
      → (m : PieceManager) × (done : Bool) × (PieceManager.receive_block sha1 d.piece_manager index
            begin block
          ≡ some (m, done))
        × ((e.piece_manager ≡ m) ⊎ (e.piece_manager ≡ mark_piece_written m index))
  unfolding handle_recieve_piece
  handle_recieve_piece-pieces d e index begin block h =
      elim (Option-cases (PieceManager.receive_block sha1 d.piece_manager index begin block)) [
        | inl n ↦ absurd (ground (arith, n))
        | inr ((m, done), r) ↦ (
          m,
          done,
          r,
          elim (Bool-cases done) [
            | inl t ↦
                finish_piece-pieces (record d { piece_manager = m }) e index
                  (rw (r, t, handle_recieve_piece) at h)
            | inr t ↦ inl (ground (arith, t, r))
          ],
        )
      ]

  pub finish_piece-ends :
      (info : Info) (d : DownloadManager) (index : ℕ)
      → AllGenuine sha1 info d.piece_manager
      → finish_piece sha1 fs peer_order d index ≢ none
  unfolding finish_piece
  finish_piece-ends info d index a h =
      let ends : get_piece_data d.piece_manager index ≢ none =
        get_piece_data-ends sha1 info d.piece_manager index a in
      ground (arith, ends)
