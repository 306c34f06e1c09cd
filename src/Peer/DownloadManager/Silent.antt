-- ===== src/Peer/DownloadManager/Silent.antt =====
-- A download manager to which no peer has been given.
use mathlib.Core.Path.{subst}
use motte_seed.Prelude.{
  ℕ, ◌≡◌, refl, sym, ap, ◌∙◌, Bool, none, some, List, [], ◌∷◌, append-nil, inl, inr, Option-cases,
  Bool-cases,
}
use motte_seed.Prelude.Assoc.{HashOrder}
use motte_seed.Bytes.{Bytes}
use motte_seed.Disk.{DiskIo, FileSystem, write_piece}
use motte_seed.Peer.Block.{Block, PeerIp}
use motte_seed.Peer.Connection.{
  PeerEvent, received_bitfield, received_have, peer_unchoked, received_piece, peer_disconnected,
  peer_choked, peer_interested, peer_not_interested, requested_block, download_rate, ManagerCommand,
  interested,
}
use motte_seed.Peer.PieceManager
use motte_seed.Peer.PieceManager.{
  PieceManager, get_piece_data, get_next_piece_to_download, get_next_block_for_piece,
  is_download_complete,
}
use motte_seed.Peer.DownloadManager.{
  DownloadManager, Peers, find_peer, delete_peer, remove_peer, send, store_bitfield,
  handle_bitfield, handle_have, handle_unchoke, request_pieces_from_peer, broadcast_have,
  store_piece, finish_piece, handle_recieve_piece, handle_event, run, send_all,
  get_peer_available_pieces, peer_has_needed_pieces,
}

-- What does not change while no peer is registered.
record Same (d e : DownloadManager) : Type 0 where
  peers : e.peers ≡ d.peers
  sent : e.sent ≡ d.sent

here : (d : DownloadManager) → Same d d
here d = record { peers = refl; sent = refl }

module _ (d : DownloadManager) (alone : d.peers ≡ []) where
  find_none : (ip : PeerIp) → find_peer d.peers ip ≡ none
  unfolding find_peer
  find_none ip = rw alone refl

  send-alone : (ip : PeerIp) (command : ManagerCommand) → send d ip command ≡ d
  unfolding send
  send-alone ip command = rw (find_none ip, send) refl

  handle_bitfield-alone : (ip : PeerIp) (bitfield : Bytes) → handle_bitfield d ip bitfield ≡ d
  unfolding handle_bitfield store_bitfield
  handle_bitfield-alone ip bitfield =
      let stored : store_bitfield d ip bitfield ≡ d = rw (find_none ip, store_bitfield) refl in
      elim (Bool-cases (peer_has_needed_pieces d ip)) [
        | inl t ↦ rw (stored, handle_bitfield, t) (send-alone ip interested)
        | inr t ↦ rw (stored, handle_bitfield, t) refl
      ]

  handle_have-alone : (ip : PeerIp) (index : ℕ) → handle_have d ip index ≡ d
  unfolding handle_have
  handle_have-alone ip index = rw (find_none ip, handle_have) refl

  remove_peer-alone : (ip : PeerIp) → Same d (remove_peer d ip)
  unfolding remove_peer delete_peer
  remove_peer-alone ip = record { peers = rw alone refl; sent = refl }

  handle_unchoke-alone :
      (order : HashOrder Block) (ip : PeerIp) (now : ℕ) → handle_unchoke order d ip now ≡ d
  unfolding handle_unchoke request_pieces_from_peer get_peer_available_pieces
      get_next_piece_to_download
  handle_unchoke-alone order ip now =
      rw (find_none ip, handle_unchoke, request_pieces_from_peer, get_peer_available_pieces) refl

module _ (sha1 : Bytes → Bytes) (fs : FileSystem) (peer_order : Peers → Peers)
    (visits_none : peer_order [] ≡ []) where
  given : (d x e : DownloadManager) → Same d x → some x ≡ some e → Same d e
  given d x e s h = let same : x ≡ e = cc h in subst (Same d) same s

  store_piece-alone :
      (d : DownloadManager) (disk : DiskIo) (index : ℕ) (bytes : Bytes)
      → d.peers ≡ []
      → Same d (store_piece sha1 fs peer_order d disk index bytes)
  unfolding store_piece broadcast_have send_all
  store_piece-alone d disk index bytes alone =
      elim (Option-cases ((write_piece fs disk index bytes).1)) [
        | inl n ↦ record {
          peers = rw (n, store_piece) refl;
          sent = rw (n, store_piece, alone, visits_none, send_all) (append-nil d.sent);
        }
        | inr (x, n) ↦ record { peers = rw (n, store_piece) refl; sent = rw (n, store_piece) refl }
      ]

  finish_piece-alone :
      (d e : DownloadManager) (index : ℕ)
      → d.peers ≡ []
      → finish_piece sha1 fs peer_order d index ≡ some e
      → Same d e
  unfolding finish_piece
  finish_piece-alone d e index alone h = elim (Option-cases d.disk_io) [
    | inl n ↦ given d d e (here d) (rw (n, finish_piece) at h)
    | inr (disk, k) ↦ elim (Option-cases (get_piece_data d.piece_manager index)) [
      | inl n ↦ cc (rw (k, n, finish_piece) at h)
      | inr (none, g) ↦ given d d e (here d) (rw (k, g, finish_piece) at h)
      | inr (some bytes, g) ↦
          given d (store_piece sha1 fs peer_order d disk index bytes) e
            (store_piece-alone d disk index bytes alone) (rw (k, g, finish_piece) at h)
    ]
  ]

  handle_recieve_piece-alone :
      (d e : DownloadManager) (index begin : ℕ) (block : Bytes)
      → d.peers ≡ []
      → handle_recieve_piece sha1 fs peer_order d index begin block ≡ some e
      → Same d e
  unfolding handle_recieve_piece
  handle_recieve_piece-alone d e index begin block alone h =
      elim (Option-cases (PieceManager.receive_block sha1 d.piece_manager index begin block)) [
        | inl n ↦ cc (rw (n, handle_recieve_piece) at h)
        | inr ((m, done), r) ↦
            let got : DownloadManager = record d { piece_manager = m } in
            elim (Bool-cases done) [
              | inl t ↦
                  let s =
                    finish_piece-alone got e index alone (rw (r, t, handle_recieve_piece) at h) in
                  record { peers = s.peers; sent = s.sent }
              | inr t ↦
                  given d got e (record { peers = refl; sent = refl })
                    (rw (r, t, handle_recieve_piece) at h)
            ]
      ]

  module _ {F : Type 0} (order : HashOrder Block) where
    handle_event-alone :
        (d e : DownloadManager) (event : PeerEvent F) (ip : PeerIp) (now : ℕ)
        → d.peers ≡ []
        → handle_event sha1 fs peer_order order d event ip now ≡ some e
        → Same d e
    unfolding handle_event
    handle_event-alone d e (received_bitfield bitfield) ip now alone h =
        given d d e (here d) (rw (handle_bitfield-alone d alone ip bitfield, handle_event) at h)
    handle_event-alone d e (received_have index) ip now alone h =
        given d d e (here d) (rw (handle_have-alone d alone ip index, handle_event) at h)
    handle_event-alone d e peer_unchoked ip now alone h =
        given d d e (here d) (rw (handle_unchoke-alone d alone order ip now, handle_event) at h)
    handle_event-alone d e (received_piece index begin block) ip now alone h =
        handle_recieve_piece-alone d e index begin block alone h
    handle_event-alone d e peer_disconnected ip now alone h =
        given d (remove_peer d ip) e (remove_peer-alone d alone ip) h
    handle_event-alone d e peer_choked ip now alone h = given d d e (here d) h
    handle_event-alone d e peer_interested ip now alone h = given d d e (here d) h
    handle_event-alone d e peer_not_interested ip now alone h = given d d e (here d) h
    handle_event-alone d e (requested_block i b n) ip now alone h = given d d e (here d) h
    handle_event-alone d e (download_rate r) ip now alone h = given d d e (here d) h

    pub run-alone :
        (events : List (PeerEvent F × PeerIp × ℕ)) (d e : DownloadManager) (left : Bool)
        → d.peers ≡ []
        → run sha1 fs peer_order order d events ≡ some (e, left)
        → e.sent ≡ d.sent
    unfolding run
    run-alone [] d e left alone h =
        let same : d ≡ e = cc h in ap (λ (x : DownloadManager). x.sent) (sym same)
    run-alone ((event, ip, now) ∷ rest) d e left alone h =
        elim (Option-cases (handle_event sha1 fs peer_order order d event ip now)) [
          | inl n ↦ cc (rw (n, run) at h)
          | inr (c, k) ↦
              let s = handle_event-alone d c event ip now alone k in
              elim (Bool-cases (is_download_complete c.piece_manager)) [
                | inl q ↦
                    let same : c ≡ e = cc (rw (k, q, run) at h) in
                    ap (λ (x : DownloadManager). x.sent) (sym same) ∙ s.sent
                | inr q ↦ run-alone rest c e left (s.peers ∙ alone) (rw (k, q, run) at h) ∙ s.sent
              ]
        ]
