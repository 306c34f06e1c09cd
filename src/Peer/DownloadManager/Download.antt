-- ===== src/Peer/DownloadManager/Download.antt =====
-- A whole download: the loop of `run` over the blocks of a torrent, until its data are in the file.
use motte_seed.Prelude.{
  ℕ, ◌*◌, ◌≡◌, ◌<◌, true, false, some, [], ◌∷◌, length, all, arith, inl, inr, Bool-cases,
}
use motte_seed.Prelude.Assoc.{HashMap}
use motte_seed.Prelude.Rows.{Rows, Rows-map, Rows-all, Rows-and, Rows-covers}
use motte_seed.Bytes.{Bytes}
use motte_seed.Disk.{DiskIo}
use motte_seed.Disk.Single.{IsSingle}
use motte_seed.Disk.Whole.{piece_bytes}
use motte_seed.Peer.Piece
use motte_seed.Peer.Piece.{Piece, is_fully_downloaded}
use motte_seed.Peer.Piece.Delivery.{all_served}
use motte_seed.Peer.Piece.OnTheWay.{IsDone}
use motte_seed.Peer.PieceManager.{is_download_complete}
use motte_seed.Peer.DownloadManager.{DownloadManager}
use motte_seed.Peer.DownloadManager.Progress.{IsDownloading, IsRow}
use motte_seed.Peer.DownloadManager.Finish.{state_cases, is_complete-IsDone}
use motte_seed.Peer.DownloadManager.Events.{OnTheWay, IsPart}

-- The disk of a manager has one file with these bytes.
abbrev pub Holds : DownloadManager → Bytes → Type 0
Holds d bytes = (disk : DiskIo) × (d.disk_io ≡ some disk) × (disk.files ≡ bytes ∷ [])

-- A piece that counts as complete is done.
pub is_complete-to-IsDone : (p : Piece) → Piece.is_complete p ≡ true → IsDone p.state
is_complete-to-IsDone p c = elim (state_cases p) [
  | inl e ↦ inl e
  | inr (inl e) ↦ inr e
  | inr (inr (n, _)) ↦ cc (c, n)
]

-- When every piece is complete, each part of the file is the piece's.
pub complete-parts :
    (len n : ℕ) (Part : ℕ → Bytes → Type 0) (Known : ℕ → Piece → Type 0) (d : DownloadManager)
    (w : IsDownloading len n Part Known d)
    → is_download_complete d.piece_manager ≡ true
    → (j : ℕ) → j < n
    → Part j (piece_bytes w.file len j)
unfolding is_download_complete
complete-parts len n Part Known d w c j h =
    let done =
      Rows-and (IsRow len n Part Known w.file) Piece.is_complete 0 d.piece_manager.pieces w.rows
        c in
    let (p, ((_, _, f), e)) =
      Rows-covers (λ i p. IsRow len n Part Known w.file i p × (Piece.is_complete p ≡ true)) 0
        d.piece_manager.pieces j done (omega arith) (omega (arith, w.count)) in
    f (is_complete-to-IsDone p e)

-- Some piece is missing at the start.
not_yet :
    (P : ℕ → Piece → Type 0) (m : HashMap Piece) (n : ℕ)
    → 0 < n
    → length m ≡ n
    → Rows (λ i p. P i p × (p.state ≡ Piece.missing)) 0 m
    → all (λ e. Piece.is_complete (e.1)) m ≡ false
not_yet P m n pos count r = elim (Bool-cases (all (λ e. Piece.is_complete (e.1)) m)) [
  | inr c ↦ c
  | inl c ↦
      let both = Rows-and (λ i p. P i p × (p.state ≡ Piece.missing)) Piece.is_complete 0 m r c in
      let (p, ((_, e), d)) =
        Rows-covers (λ i p. (P i p × (p.state ≡ Piece.missing)) × (Piece.is_complete p ≡ true)) 0 m
          0 both (omega arith) (omega arith) in
      elim (is_complete-to-IsDone p d) [ inl x ↦ cc (x, e) | inr x ↦ cc (x, e) ]
]

-- A manager with new pieces, and a disk with a file of the torrent's size.
pub new-IsDownloading :
    (len n : ℕ) (Part : ℕ → Bytes → Type 0) (Known : ℕ → Piece → Type 0) (d : DownloadManager)
    (disk : DiskIo) (file : Bytes)
    → 0 < n
    → d.disk_io ≡ some disk
    → IsSingle disk file
    → disk.piece_length ≡ len
    → disk.total_size ≡ n * len
    → length file ≡ n * len
    → Rows (λ i p. ((i < n) × Known i p) × (p.state ≡ Piece.missing)) 0 d.piece_manager.pieces
    → length d.piece_manager.pieces ≡ n
    → IsDownloading len n Part Known d × (is_download_complete d.piece_manager ≡ false)
unfolding is_download_complete
new-IsDownloading len n Part Known d disk file pos disk_is single piece_length_is total_is size rows
      many =
    (
      record {
        disk = disk;
        file = file;
        disk_is = disk_is;
        single = single;
        piece_length_is = piece_length_is;
        total_is = total_is;
        size = size;
        rows =
            Rows-map _ (IsRow len n Part Known file) 0 d.piece_manager.pieces
              (λ j p l ((h, v), e).
                (h, v, λ x. absurd (elim x [ inl y ↦ cc (y, e) | inr y ↦ cc (y, e) ])))
              rows;
        count = many;
      },
      not_yet (λ i p. (i < n) × Known i p) d.piece_manager.pieces n pos many rows,
    )

-- When nothing is to come, every piece is complete.
pub nothing_left :
    (F : Type 0) (sha1 : Bytes → Bytes) (torrent : Bytes) (len s n : ℕ) (d : DownloadManager)
    → IsDownloading len n (IsPart torrent len) (OnTheWay {F = F} sha1 torrent len s []) d
    → is_download_complete d.piece_manager ≡ true
unfolding is_download_complete is_fully_downloaded
nothing_left F sha1 torrent len s n d w =
    Rows-all (IsRow len n (IsPart torrent len) (OnTheWay {F = F} sha1 torrent len s []) w.file)
      Piece.is_complete 0 d.piece_manager.pieces
      (λ j p (_, v, _). is_complete-IsDone p (
        v.finished
          (all_served (piece_bytes torrent len j) p.block_size p.length p.blocks v.served)))
      w.rows
