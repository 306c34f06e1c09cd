-- ===== src/Peer/DownloadManager/Reach.antt =====
-- A download manager after any sequence of calls and events, as a relation; what holds of every
-- manager that is reached.
use mathlib.Core.Path.{subst}
use motte_seed.Prelude.{
  ℕ, ◌/◌, ◌^◌, ◌≡◌, ◌≢◌, ◌≤◌, ◌<◌, refl, sym, none, some, List, ◌++◌, ◌⊎◌, inl, inr, Option-cases,
  Bool-cases, length,
}
use motte_seed.Prelude.Assoc.{HashOrder}
use motte_seed.Bytes.{Bytes}
use motte_seed.Torrent.{Info}
use motte_seed.Disk.{DiskIo, FileSystem, write_piece}
use motte_seed.Peer.Block.{Block, PeerIp}
use motte_seed.Peer.Connection.{
  PeerEvent, received_bitfield, received_have, peer_unchoked, received_piece, peer_disconnected,
  have_piece, peer_choked, peer_interested, peer_not_interested, requested_block, download_rate,
}
use motte_seed.Peer.PieceManager
use motte_seed.Peer.PieceManager.{PieceManager, mark_piece_written, is_download_complete}
use motte_seed.Peer.PieceManager.Genuine.{
  AllGenuine, new-AllGenuine, request_block-AllGenuine, mark_piece_written-AllGenuine,
  receive_block-AllGenuine,
}
use motte_seed.Peer.PieceManager.Data.{IsPieceData, get_piece_data-IsPieceData, receive_block-ends}
use motte_seed.Peer.DownloadManager.{
  DownloadManager, Peers, new, set_disk_io, add_peer, remove_peer, handle_bitfield, handle_have,
  handle_unchoke, handle_recieve_piece, handle_event, send_all,
}
use motte_seed.Peer.DownloadManager.Handlers.{handle_recieve_piece_lem}
use motte_seed.Peer.DownloadManager.Runs.{
  IsShort, handle_bitfield-pieces, handle_have-pieces, handle_unchoke-pieces,
  handle_recieve_piece-pieces, finish_piece-ends,
}

module _ (sha1 : Bytes → Bytes) (fs : FileSystem) (peer_order : Peers → Peers)
    (order : HashOrder Block) (info : Info) where
  handle_unchoke-AllGenuine :
      (d : DownloadManager) (ip : PeerIp) (now : ℕ)
      → AllGenuine sha1 info d.piece_manager
      → AllGenuine sha1 info ((handle_unchoke order d ip now).piece_manager)
  handle_unchoke-AllGenuine d ip now a = elim (handle_unchoke-pieces order d ip now) [
    | inl same ↦ subst (AllGenuine sha1 info) (sym same) a
    | inr (index, offset, len, b, same) ↦
        subst (AllGenuine sha1 info) (sym same)
          (request_block-AllGenuine sha1 info d.piece_manager index offset ip now a)
  ]

  handle_recieve_piece-AllGenuine :
      (d e : DownloadManager) (index begin : ℕ) (block : Bytes)
      → length block < 2 ^ 32
      → handle_recieve_piece sha1 fs peer_order d index begin block ≡ some e
      → AllGenuine sha1 info d.piece_manager
      → AllGenuine sha1 info e.piece_manager
  handle_recieve_piece-AllGenuine d e index begin block short h a =
      let (m, done, r, out) =
        handle_recieve_piece-pieces sha1 fs peer_order d e index begin block h in
      let b = receive_block-AllGenuine sha1 info d.piece_manager index begin block short r a in
      elim out [
        | inl same ↦ subst (AllGenuine sha1 info) (sym same) b
        | inr same ↦
            subst (AllGenuine sha1 info) (sym same)
              (mark_piece_written-AllGenuine sha1 info m index b)
      ]

  kept :
      (d x e : DownloadManager)
      → AllGenuine sha1 info d.piece_manager
      → x.piece_manager ≡ d.piece_manager
      → some x ≡ some e
      → AllGenuine sha1 info e.piece_manager
  kept d x e a same h =
      let p : d.piece_manager ≡ e.piece_manager = cc (same, h) in subst (AllGenuine sha1 info) p a

  handle_event-AllGenuine :
      {F : Type 0} (d e : DownloadManager) (event : PeerEvent F) (ip : PeerIp) (now : ℕ)
      → IsShort event
      → handle_event sha1 fs peer_order order d event ip now ≡ some e
      → AllGenuine sha1 info d.piece_manager
      → AllGenuine sha1 info e.piece_manager
  unfolding handle_event remove_peer
  handle_event-AllGenuine d e (received_bitfield bitfield) ip now short h a =
      kept d (handle_bitfield d ip bitfield) e a (handle_bitfield-pieces d ip bitfield) h
  handle_event-AllGenuine d e (received_have index) ip now short h a =
      kept d (handle_have d ip index) e a (handle_have-pieces d ip index) h
  handle_event-AllGenuine d e peer_unchoked ip now short h a =
      let same : handle_unchoke order d ip now ≡ e = cc h in
      subst (λ (x : DownloadManager). AllGenuine sha1 info x.piece_manager) same
        (handle_unchoke-AllGenuine d ip now a)
  handle_event-AllGenuine d e (received_piece index begin block) ip now short h a =
      handle_recieve_piece-AllGenuine d e index begin block short h a
  handle_event-AllGenuine d e peer_disconnected ip now short h a =
      kept d (remove_peer d ip) e a refl h
  handle_event-AllGenuine d e peer_choked ip now short h a = kept d d e a refl h
  handle_event-AllGenuine d e peer_interested ip now short h a = kept d d e a refl h
  handle_event-AllGenuine d e peer_not_interested ip now short h a = kept d d e a refl h
  handle_event-AllGenuine d e (requested_block i b n) ip now short h a = kept d d e a refl h
  handle_event-AllGenuine d e (download_rate r) ip now short h a = kept d d e a refl h

  pub handle_event-ends :
      {F : Type 0} (d : DownloadManager) (event : PeerEvent F) (ip : PeerIp) (now : ℕ)
      → IsShort event
      → AllGenuine sha1 info d.piece_manager
      → handle_event sha1 fs peer_order order d event ip now ≢ none
  unfolding handle_event handle_recieve_piece
  handle_event-ends d (received_piece index begin block) ip now short a h =
      elim (Option-cases (PieceManager.receive_block sha1 d.piece_manager index begin block)) [
        | inl n ↦ receive_block-ends sha1 info d.piece_manager index begin block a short n
        | inr ((m, done), r) ↦
            let b =
              receive_block-AllGenuine sha1 info d.piece_manager index begin block short r a in
            let ends =
              finish_piece-ends sha1 fs peer_order info (record d { piece_manager = m }) index b in
            elim (Bool-cases done) [
              | inl t ↦ ends (rw (r, t, handle_recieve_piece) at h)
              | inr t ↦ cc (rw (r, t, handle_recieve_piece) at h)
            ]
      ]
  handle_event-ends d _ ip now short a h = cc h

  -- What a download manager can come to: one that is created, with peers and a disk given to it,
  -- that handles events.
  pub data Reached (F : Type 0) (block_size : ℕ) : DownloadManager → Type 0 where
    created : {d : DownloadManager} → new info block_size ≡ some d → Reached F block_size d
    with_peer :
        {d : DownloadManager} (ip : PeerIp)
        → Reached F block_size d
        → Reached F block_size (add_peer d ip)
    with_disk :
        {d : DownloadManager} (disk : DiskIo)
        → Reached F block_size d
        → Reached F block_size (set_disk_io d disk)
    handled :
        {d e : DownloadManager} (event : PeerEvent F) (ip : PeerIp) (now : ℕ)
        → IsShort event
        → handle_event sha1 fs peer_order order d event ip now ≡ some e
        → Reached F block_size d
        → Reached F block_size e

  module _ (block_size : ℕ) (wide : 0 < block_size) (narrow : block_size < 2 ^ 32)
      (short : info.piece_length < 2 ^ 32) (few : length info.raw_pieces / 20 ≤ 2 ^ 32)
      {F : Type 0} where
    pub Reached-AllGenuine :
        (d : DownloadManager) → Reached F block_size d → AllGenuine sha1 info d.piece_manager
    unfolding new add_peer set_disk_io
    Reached-AllGenuine d (created h) = elim (Option-cases (PieceManager.new info block_size)) [
      | inl n ↦ cc (rw (n, new) at h)
      | inr (m, e) ↦
          let same : m ≡ d.piece_manager = cc (rw (e, new) at h) in
          subst (AllGenuine sha1 info) same
            (new-AllGenuine sha1 info block_size wide narrow short few e)
    ]
    Reached-AllGenuine d (with_peer {d = c} ip r) = Reached-AllGenuine c r
    Reached-AllGenuine d (with_disk {d = c} disk r) = Reached-AllGenuine c r
    Reached-AllGenuine d (handled {d = c} event ip now small h r) =
        handle_event-AllGenuine c d event ip now small h (Reached-AllGenuine c r)

    -- For a piece length and a block size that fit in 32 bits, and at most 2^32 pieces: a block that
    -- comes in a message to a manager that is reached is handled; and either nothing is sent, or the
    -- piece is announced to every peer, and then its data have the digest that the torrent has for
    -- the piece and the torrent's piece length, and have been written to the disk without an error.
    pub handle_event-announces :
        (d : DownloadManager) (index begin : ℕ) (block : Bytes) (ip : PeerIp) (now : ℕ)
        → Reached F block_size d
        → length block < 2 ^ 32
        → (e : DownloadManager) × (handle_event sha1 fs peer_order {F = F} order d
              (received_piece index begin block)
              ip
              now
            ≡ some e)
          × ((e.sent ≡ d.sent)
              ⊎ ((disk : DiskIo) × (bytes : Bytes) × (files : List Bytes) × (d.disk_io ≡ some disk)
                  × IsPieceData sha1 info index bytes
                  × (write_piece fs disk index bytes ≡ (files, none))
                  × (e.sent ≡ d.sent ++ send_all (peer_order d.peers) (have_piece index))))
    unfolding handle_event
    handle_event-announces d index begin block ip now r small =
        let event : PeerEvent F = received_piece index begin block in
        let a = Reached-AllGenuine d r in
        elim (Option-cases (handle_event sha1 fs peer_order order d event ip now)) [
          | inl n ↦ absurd (handle_event-ends d event ip now small a n)
          | inr (e, h) ↦
              let (m, done, got, out) =
                handle_recieve_piece_lem sha1 fs peer_order d e index begin block h in
              let b =
                receive_block-AllGenuine sha1 info d.piece_manager index begin block small got a in
              elim out [
                | inl same ↦ (e, h, inl same)
                | inr (disk, bytes, files, t, k, g, w, p, o) ↦ (
                  e,
                  h,
                  inr (
                    disk,
                    bytes,
                    files,
                    k,
                    get_piece_data-IsPieceData sha1 info m index bytes b g,
                    w,
                    o,
                  ),
                )
              ]
        ]
