-- ===== src/Peer/DownloadManager/Kept.antt =====
-- What leaves the pieces and the disk alone, and an unchoke, which asks for a block, leave a download on
-- its way.
use motte_seed.Prelude.{ℕ, ◌≡◌, ◌∙◌, refl, sym, ap, some, length, inl, inr, arith}
use motte_seed.Prelude.Assoc.{HashOrder, insert}
use motte_seed.Prelude.Rows.{Rows-map, Rows, Rows-get, adjust-insert, length-insert_known}
use motte_seed.Bytes.{Bytes}
use motte_seed.Peer.Block.{Block, PeerIp}
use motte_seed.Peer.Piece
use motte_seed.Peer.Piece.{Piece}
use motte_seed.Peer.Piece.NextBlock.{get_next_missing_block_lem}
use motte_seed.Peer.PieceManager
use motte_seed.Peer.PieceManager.Selection.{get_next_block_for_piece-some}
use motte_seed.Peer.PieceManager.{
  is_download_complete, PieceManager, get_next_piece_to_download, get_next_block_for_piece,
}
use motte_seed.Peer.DownloadManager.{
  DownloadManager, handle_bitfield, handle_have, handle_unchoke, request_pieces_from_peer,
  request_next_block_for_piece, send, store_bitfield,
}
use motte_seed.Peer.DownloadManager.Runs.{handle_unchoke-pieces}
use motte_seed.Peer.DownloadManager.Progress.{IsDownloading, IsRow, Rows-change, KeepsRequested}
use mathlib.Core.Path.{subst}

handle_unchoke-disk :
    (order : HashOrder Block) (d : DownloadManager) (ip : PeerIp) (now : ℕ)
    → (handle_unchoke order d ip now).disk_io ≡ d.disk_io
unfolding handle_unchoke request_pieces_from_peer request_next_block_for_piece send
handle_unchoke-disk order d ip now = ground arith

pub handle_bitfield-disk :
    (d : DownloadManager) (ip : PeerIp) (bitfield : Bytes)
    → (handle_bitfield d ip bitfield).disk_io ≡ d.disk_io
unfolding handle_bitfield store_bitfield send
handle_bitfield-disk d ip bitfield = ground arith

pub handle_have-disk :
    (d : DownloadManager) (ip : PeerIp) (index : ℕ) → (handle_have d ip index).disk_io ≡ d.disk_io
unfolding handle_have
handle_have-disk d ip index = ground arith

module _ (len n : ℕ) (Part : ℕ → Bytes → Type 0) (Known Later : ℕ → Piece → Type 0)
    (passes : (j : ℕ) (p : Piece) → Known j p → Later j p) (requests : KeepsRequested Later)
    (d : DownloadManager) (w : IsDownloading len n Part Known d) where
  passed : Rows (IsRow len n Part Later w.file) 0 d.piece_manager.pieces
  passed =
      Rows-map (IsRow len n Part Known w.file) (IsRow len n Part Later w.file) 0
        d.piece_manager.pieces (λ j p l (h, v, f). (h, passes j p v, f)) w.rows

  -- What leaves the pieces and the disk alone leaves the download.
  pub kept :
      (e : DownloadManager)
      → e.piece_manager ≡ d.piece_manager
      → e.disk_io ≡ d.disk_io
      → IsDownloading len n Part Later e
  kept e m i = record {
    disk = w.disk;
    file = w.file;
    disk_is = i ∙ w.disk_is;
    single = w.single;
    piece_length_is = w.piece_length_is;
    total_is = w.total_is;
    size = w.size;
    rows =
        subst (λ (x : PieceManager). Rows (IsRow len n Part Later w.file) 0 x.pieces) (sym m)
          passed;
    count = ap (λ (x : PieceManager). length x.pieces) m ∙ w.count;
  }

  requested :
      (order : HashOrder Block) (e : DownloadManager) (k o size : ℕ) (ip : PeerIp) (now : ℕ)
      → get_next_block_for_piece order d.piece_manager k ≡ some (o, size)
      → e.piece_manager ≡ PieceManager.request_block d.piece_manager k o ip now
      → e.disk_io ≡ d.disk_io
      → IsDownloading len n Part Later e
  unfolding PieceManager.request_block Piece.request_from_peer
  requested order e k o size ip now chosen m i =
      let (p, known, next) = get_next_block_for_piece-some order d.piece_manager k o size chosen in
      let (b, entry, lacking) = (get_next_missing_block_lem order p).0 o next in
      let (inside, v, on_disk) =
        Rows-get (IsRow len n Part Later w.file) 0 d.piece_manager.pieces k passed known in
      let q : Piece = Piece.request_from_peer p o ip now in
      let moved : PieceManager.request_block d.piece_manager k o ip now
          ≡ record (d.piece_manager) { pieces = insert d.piece_manager.pieces k q } =
        ap (λ x. record (d.piece_manager) { pieces = x })
          (adjust-insert d.piece_manager.pieces k (λ x. Piece.request_from_peer x o ip now)
            known) in
      record {
        disk = w.disk;
        file = w.file;
        disk_is = i ∙ w.disk_is;
        single = w.single;
        piece_length_is = w.piece_length_is;
        total_is = w.total_is;
        size = w.size;
        rows =
            subst (λ (x : PieceManager). Rows (IsRow len n Part Later w.file) 0 x.pieces)
              (sym (m ∙ moved))
              (Rows-change len n Part Later Later w.file w.file k (λ j x ne h. h) (λ j ne l. refl)
                d.piece_manager.pieces q passed known
                (inside, requests k p o b ip now entry lacking v, on_disk));
        count =
            ap (λ (x : PieceManager). length x.pieces) (m ∙ moved)
            ∙ length-insert_known d.piece_manager.pieces k q known
            ∙ w.count;
      }

  pub unchoked :
      (order : HashOrder Block) (ip : PeerIp) (now : ℕ)
      → IsDownloading len n Part Later (handle_unchoke order d ip now)
  unchoked order ip now = elim (handle_unchoke-pieces order d ip now) [
    | inl same ↦ kept (handle_unchoke order d ip now) same (handle_unchoke-disk order d ip now)
    | inr (k, o, size, chosen, m) ↦
        requested order (handle_unchoke order d ip now) k o size ip now chosen m
          (handle_unchoke-disk order d ip now)
  ]
