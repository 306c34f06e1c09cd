-- ===== src/Peer/DownloadManager/Progress.antt =====
-- How far a download is: each piece of the manager, and its part of the file. What is known of a piece
-- is a parameter, as is what its part of the file holds once the piece is done.
use motte_seed.Prelude.{ℕ, ◌*◌, ◌≡◌, ◌≢◌, ◌<◌, some, none, length, Bool, false}
use motte_seed.Prelude.Assoc.{HashMap, get, insert}
use motte_seed.Prelude.Rows.{Rows, Rows-insert, Rows-absent}
use motte_seed.Bytes.{Bytes}
use motte_seed.Disk.{DiskIo}
use motte_seed.Disk.Single.{IsSingle}
use motte_seed.Disk.Whole.{piece_bytes}
use motte_seed.Peer.Block
use motte_seed.Peer.Block.{Block, PeerIp}
use motte_seed.Peer.Piece
use motte_seed.Peer.Piece.{Piece, complete, written}
use motte_seed.Peer.Piece.NextBlock.{IsEntry}
use motte_seed.Peer.Piece.OnTheWay.{IsDone}
use motte_seed.Peer.DownloadManager.{DownloadManager}

module _ (len n : ℕ) (Part : ℕ → Bytes → Type 0) where
  -- What is known of a piece, and of its part of the file once it is done.
  abbrev pub IsRow : (ℕ → Piece → Type 0) → Bytes → ℕ → Piece → Type 0
  IsRow Known file i p = (i < n) × Known i p × (IsDone p.state → Part i (piece_bytes file len i))

  pub record IsDownloading (Known : ℕ → Piece → Type 0) (d : DownloadManager) : Type 0 where
    pub disk : DiskIo
    pub file : Bytes
    pub disk_is : d.disk_io ≡ some disk
    pub single : IsSingle disk file
    pub piece_length_is : disk.piece_length ≡ len
    pub total_is : disk.total_size ≡ n * len
    pub size : length file ≡ n * len
    pub rows : Rows (IsRow Known file) 0 d.piece_manager.pieces
    pub count : length d.piece_manager.pieces ≡ n

  -- A block is received by a piece: the piece counts as written only if it was, and where it is
  -- complete it hands out its part.
  abbrev pub Receives : (Bytes → Bytes) → (ℕ → Piece → Type 0) → ℕ → ℕ → Bytes → Piece → Type 0
  Receives sha1 Known k o block p =
      (r : Piece × Bool) × (Piece.receive_block sha1 p o block ≡ some r)
      × Known k r.0
      × (r.0.state ≡ written → p.state ≡ written)
      × (r.0.state ≡ complete
          → (bytes : Bytes) × (Piece.get_piece_data r.0 ≡ some (some bytes))
            × (length bytes ≡ len)
            × Part k bytes)

  module _ (Known Later : ℕ → Piece → Type 0) (file after : Bytes) (k : ℕ)
      (moves : (j : ℕ) (p : Piece) → j ≢ k → Known j p → Later j p)
      (kept : (j : ℕ) → j ≢ k → j < n → piece_bytes after len j ≡ piece_bytes file len j) where
    other_row : (j : ℕ) (p : Piece) → j ≢ k → IsRow Known file j p → IsRow Later after j p
    other_row j p ne (l, w, f) = (l, moves j p ne w, λ d. rw (kept j ne l) (f d))

    -- One piece moves on.
    pub Rows-change :
        (m : HashMap Piece) {p : Piece} (q : Piece)
        → Rows (IsRow Known file) 0 m
        → get m k ≡ some p
        → IsRow Later after k q
        → Rows (IsRow Later after) 0 (insert m k q)
    Rows-change m q r e new =
        Rows-insert (IsRow Known file) (IsRow Later after) 0 m k q other_row r e new

    pub Rows-pass :
        (m : HashMap Piece)
        → Rows (IsRow Known file) 0 m
        → get m k ≡ none
        → Rows (IsRow Later after) 0 m
    Rows-pass m r e = Rows-absent (IsRow Known file) (IsRow Later after) 0 m k other_row r e

-- What the handlers ask of the knowledge about pieces.
abbrev pub KeepsMarked : (ℕ → Piece → Type 0) → Type 0
KeepsMarked Known =
    (k : ℕ) (q : Piece) → Known k q → IsDone q.state → Known k (Piece.mask_written q)

abbrev pub KeepsRequested : (ℕ → Piece → Type 0) → Type 0
KeepsRequested Known =
    (k : ℕ) (p : Piece) (o : ℕ) (b : Block) (ip : PeerIp) (now : ℕ)
    → IsEntry (o, b) p.blocks
    → Block.is_complete b ≡ false
    → Known k p
    → Known k (Piece.request_from_peer p o ip now)
