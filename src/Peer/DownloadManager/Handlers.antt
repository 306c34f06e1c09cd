-- ===== src/Peer/DownloadManager/Handlers.antt =====
-- What the handlers of the peers' events send, and when.
use motte_seed.Prelude.{
  ℕ, ◌≡◌, refl, ap, ◌∙◌, Bool, true, Option, none, some, List, [], ◌∷◌, ◌++◌, ◌⊎◌, inl, inr, All,
  Option-cases, Bool-cases, arith,
}
use motte_seed.Bytes.{Bytes, bytes_eq_refl}
use motte_seed.Disk
use motte_seed.Disk.{DiskIo, FileSystem, write_piece}
use motte_seed.Peer.Block.{PeerIp}
use motte_seed.Peer.Connection.{ManagerCommand, interested, have_piece}
use motte_seed.Peer.PieceManager
use motte_seed.Peer.PieceManager.{
  PieceManager, get_next_piece_to_download, get_next_block_for_piece, get_piece_data,
  mark_piece_written,
}
use motte_seed.Peer.PieceManager.Selection.{OneOf, IsWanted, get_next_piece_to_download_lem}
use motte_seed.Peer.DownloadManager.{
  DownloadManager, Peers, find_peer, insert_peer, send, send_all, bitfield_pieces,
  get_peer_available_pieces, peer_has_needed_pieces, store_bitfield, handle_bitfield,
  broadcast_have, store_piece, finish_piece, handle_recieve_piece,
}

pub find_peer-insert_peer :
    (m : Peers) (ip : PeerIp) (v : Option Bytes) → find_peer (insert_peer m ip v) ip ≡ some v
unfolding find_peer insert_peer
find_peer-insert_peer [] ip v = rw (bytes_eq_refl ip) refl
find_peer-insert_peer ((k, w) ∷ m) ip v = ground (arith, find_peer-insert_peer m ip v)

-- What is sent for a bitfield, by the piece that is selected.
interest : DownloadManager → PeerIp → Option ℕ → List (PeerIp × ManagerCommand)
interest d ip none = d.sent
interest d ip (some i) = d.sent ++ ((ip, interested) ∷ [])

handle_bitfield-interest :
    (d : DownloadManager) (ip : PeerIp) (old : Option Bytes) (bitfield : Bytes)
    → find_peer d.peers ip ≡ some old
    → (handle_bitfield d ip bitfield).sent
      ≡ interest d ip (get_next_piece_to_download d.piece_manager (bitfield_pieces 0 bitfield))
unfolding handle_bitfield store_bitfield peer_has_needed_pieces get_peer_available_pieces send
    interest
handle_bitfield-interest d ip old bitfield e =
    ground (arith, find_peer-insert_peer d.peers ip (some bitfield))

absent :
    (m : PieceManager) (i : ℕ) (l : List ℕ)
    → OneOf i l
    → All (λ j. ¬ IsWanted m j) l
    → ¬ IsWanted m i
absent m i [] o a = elim o [ ]
absent m i (j ∷ l) (inl e) (n, a) = rw e n
absent m i (j ∷ l) (inr o) (n, a) = absent m i l o a

-- A bitfield from a registered peer is answered with `Interested` exactly if one of its pieces is
-- wanted, and with nothing otherwise.
handle_bitfield_lem :
    (d : DownloadManager) (ip : PeerIp) (old : Option Bytes) (bitfield : Bytes)
    → find_peer d.peers ip ≡ some old
    → ((i : ℕ)
        → OneOf i (bitfield_pieces 0 bitfield)
        → IsWanted d.piece_manager i
        → (handle_bitfield d ip bitfield).sent ≡ d.sent ++ ((ip, interested) ∷ []))
      × (All (λ i. ¬ IsWanted d.piece_manager i) (bitfield_pieces 0 bitfield)
          → (handle_bitfield d ip bitfield).sent ≡ d.sent)
unfolding interest
handle_bitfield_lem d ip old bitfield e =
    let m : PieceManager = d.piece_manager in
    let l : List ℕ = bitfield_pieces 0 bitfield in
    let (pick, none_left) = get_next_piece_to_download_lem m l in
    let out = handle_bitfield-interest d ip old bitfield e in
    elim (Option-cases (get_next_piece_to_download m l)) [
      | inl n ↦
          ((λ i o w. absurd (absent m i l o (none_left n) w)), λ a. out ∙ ap (interest d ip) n)
      | inr (i, s) ↦
          let (o, w) = pick i s in
          ((λ j p v. out ∙ ap (interest d ip) s), λ a. absurd (absent m i l o a w))
    ]

module _ (sha1 : Bytes → Bytes) (fs : FileSystem) (peer_order : Peers → Peers) where
  -- What sends an announcement: the verified data, written without an error.
  abbrev Announced : DownloadManager → ℕ → DownloadManager → Type 0
  Announced d index e =
      (disk : DiskIo) × (bytes : Bytes) × (files : List Bytes) × (d.disk_io ≡ some disk)
      × (get_piece_data d.piece_manager index ≡ some (some bytes))
      × (write_piece fs disk index bytes ≡ (files, none))
      × (e.piece_manager ≡ mark_piece_written d.piece_manager index)
      × (e.sent ≡ d.sent ++ send_all (peer_order d.peers) (have_piece index))

  finish_piece-Announced :
      (d e : DownloadManager) (index : ℕ)
      → finish_piece sha1 fs peer_order d index ≡ some e
      → (e.sent ≡ d.sent) ⊎ Announced d index e
  unfolding finish_piece store_piece broadcast_have
  finish_piece-Announced d e index h = elim (Option-cases d.disk_io) [
    | inl n ↦ inl (ground (arith, n))
    | inr (disk, k) ↦ elim (Option-cases (get_piece_data d.piece_manager index)) [
      | inl n ↦ absurd (ground (arith, n, k))
      | inr (none, g) ↦ inl (ground (arith, g, k))
      | inr (some bytes, g) ↦
          let w : List Bytes × Option Disk.DiskError = write_piece fs disk index bytes in
          let same : e ≡ store_piece sha1 fs peer_order d disk index bytes = ground (arith, g, k) in
          elim (Option-cases (w.1)) [
            | inl n ↦ inr (
              disk,
              bytes,
              w.0,
              k,
              g,
              ap (λ x. (w.0, x)) n,
              ap (λ (x : DownloadManager). x.piece_manager) same ∙ rw (n, store_piece) refl,
              ap (λ (x : DownloadManager). x.sent) same ∙ rw (n, store_piece) refl,
            )
            | inr (x, n) ↦
                inl (ap (λ (y : DownloadManager). y.sent) same ∙ rw (n, store_piece) refl)
          ]
    ]
  ]

  -- A block that arrives makes the manager announce the piece, to each peer that the map's iterator
  -- visits, only if the piece counts as complete with it, its verified data are there and have been
  -- written to the disk without an error; then the piece is marked as written. Otherwise nothing is
  -- sent.
  pub handle_recieve_piece_lem :
      (d e : DownloadManager) (index begin : ℕ) (block : Bytes)
      → handle_recieve_piece sha1 fs peer_order d index begin block ≡ some e
      → (m : PieceManager) × (done : Bool) × (PieceManager.receive_block sha1 d.piece_manager index
            begin block
          ≡ some (m, done))
        × ((e.sent ≡ d.sent)
            ⊎ ((disk : DiskIo) × (bytes : Bytes) × (files : List Bytes) × (done ≡ true)
                × (d.disk_io ≡ some disk)
                × (get_piece_data m index ≡ some (some bytes))
                × (write_piece fs disk index bytes ≡ (files, none))
                × (e.piece_manager ≡ mark_piece_written m index)
                × (e.sent ≡ d.sent ++ send_all (peer_order d.peers) (have_piece index))))
  unfolding handle_recieve_piece
  handle_recieve_piece_lem d e index begin block h =
      elim (Option-cases (PieceManager.receive_block sha1 d.piece_manager index begin block)) [
        | inl n ↦ absurd (ground (arith, n))
        | inr ((m, done), r) ↦ (
          m,
          done,
          r,
          elim (Bool-cases done) [
            | inl t ↦
                elim (finish_piece-Announced (record d { piece_manager = m }) e index
                  (rw (r, t, handle_recieve_piece) at h)) [
                    | inl same ↦ inl same
                    | inr (disk, bytes, files, k, g, w, p, o) ↦
                        inr (disk, bytes, files, t, k, g, w, p, o)
                  ]
            | inr t ↦ inl (ground (arith, t, r))
          ],
        )
      ]
