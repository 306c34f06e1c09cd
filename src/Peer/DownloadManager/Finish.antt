-- ===== src/Peer/DownloadManager/Finish.antt =====
-- What a download manager does after a block, by the state of the piece.
use motte_seed.Prelude.{
  Option, Option-cases, Bool-cases, ℕ, ◌≡◌, ◌<◌, ◌∙◌, ap, Bool, true, false, none, some, List, [],
  ◌∷◌, refl, arith, ◌==◌, ◌⊎◌, inl, inr,
}
use motte_seed.Prelude.Assoc.{HashMap, get, insert, get-insert}
use motte_seed.Prelude.Rows.{adjust-insert, insert-insert}
use motte_seed.Bytes.{Bytes}
use motte_seed.Disk.{DiskError, DiskIo, FileSystem, write_at, write_piece, piece_offset}
use motte_seed.Disk.Single.{IsSingle}
use motte_seed.Disk.Whole.{NeverFails, write_piece-NeverFails}
use motte_seed.Peer.Piece
use motte_seed.Peer.Piece.{Piece, PieceState, complete, written}
use motte_seed.Peer.Piece.OnTheWay.{IsDone}
use motte_seed.Peer.PieceManager
use motte_seed.Peer.PieceManager.{PieceManager, get_piece_data, mark_piece_written}
use motte_seed.Peer.DownloadManager.{
  DownloadManager, Peers, finish_piece, store_piece, broadcast_have, handle_recieve_piece,
}

kinds :
    (state : PieceState)
    → (state ≡ complete)
      ⊎ ((state ≡ written) ⊎ ((state ≡ Piece.missing) ⊎ (state ≡ Piece.incomplete)))
kinds complete = inl refl
kinds written = inr (inl refl)
kinds Piece.missing = inr (inr (inl refl))
kinds Piece.incomplete = inr (inr (inr refl))

pub state_cases :
    (p : Piece)
    → (p.state ≡ complete)
      ⊎ ((p.state ≡ written) ⊎ ((Piece.is_complete p ≡ false) × (IsDone p.state → ⊥)))
unfolding Piece.is_complete
state_cases p = elim (kinds p.state) [
  | inl e ↦ inl e
  | inr (inl e) ↦ inr (inl e)
  | inr (inr (inl e)) ↦
      inr (inr (rw (e, Piece.is_complete), λ d. elim d [ inl x ↦ cc (x, e) | inr x ↦ cc (x, e) ]))
  | inr (inr (inr e)) ↦
      inr (inr (rw (e, Piece.is_complete), λ d. elim d [ inl x ↦ cc (x, e) | inr x ↦ cc (x, e) ]))
]

pub is_complete-IsDone : (p : Piece) → IsDone p.state → Piece.is_complete p ≡ true
unfolding Piece.is_complete
is_complete-IsDone p (inl e) = rw (e, Piece.is_complete)
is_complete-IsDone p (inr e) = rw (e, Piece.is_complete)

pub get_piece_data-written : (p : Piece) → p.state ≡ written → Piece.get_piece_data p ≡ some none
unfolding Piece.get_piece_data Piece.is_verified
get_piece_data-written p e = rw (e, Piece.get_piece_data) refl

-- The piece manager with a piece replaced.
abbrev pub with_piece : PieceManager → ℕ → Piece → PieceManager
with_piece m k q = record m { pieces = insert m.pieces k q }

get_same : {V : Type 0} (m : HashMap V) (k : ℕ) (v : V) → get (insert m k v) k ≡ some v
get_same m k v = let q : (k == k) ≡ true = ground arith in get-insert m k k v ∙ rw q

pub receive_block-with_piece :
    (sha1 : Bytes → Bytes) (m : PieceManager) (k o : ℕ) (block : Bytes) {p : Piece}
    (r : Piece × Bool)
    → get m.pieces k ≡ some p
    → Piece.receive_block sha1 p o block ≡ some r
    → PieceManager.receive_block sha1 m k o block ≡ some (with_piece m k r.0, Piece.is_complete r.0)
unfolding PieceManager.receive_block
receive_block-with_piece sha1 m k o block r e f = rw (e, f, PieceManager.receive_block) refl

receive_block-absent :
    (sha1 : Bytes → Bytes) (m : PieceManager) (k o : ℕ) (block : Bytes)
    → get m.pieces k ≡ none
    → PieceManager.receive_block sha1 m k o block ≡ some (m, false)
unfolding PieceManager.receive_block
receive_block-absent sha1 m k o block e = rw (e, PieceManager.receive_block) refl

mark_piece_written-with_piece :
    (m : PieceManager) (k : ℕ) (q : Piece)
    → mark_piece_written (with_piece m k q) k ≡ with_piece m k (Piece.mask_written q)
unfolding mark_piece_written
mark_piece_written-with_piece m k q =
    ap (λ x. record m { pieces = x })
      (adjust-insert (insert m.pieces k q) k Piece.mask_written (get_same m.pieces k q)
        ∙ insert-insert m.pieces k q (Piece.mask_written q))

get_piece_data-with_piece :
    (m : PieceManager) (k : ℕ) (q : Piece)
    → get_piece_data (with_piece m k q) k ≡ Piece.get_piece_data q
unfolding get_piece_data
get_piece_data-with_piece m k q = rw (get_same m.pieces k q, get_piece_data) refl

module _ (sha1 : Bytes → Bytes) (fs : FileSystem) (peer_order : Peers → Peers) where
  finish_nothing :
      (d : DownloadManager) (k : ℕ)
      → get_piece_data d.piece_manager k ≡ some none
      → finish_piece sha1 fs peer_order d k ≡ some d
  unfolding finish_piece
  finish_nothing d k g = elim (Option-cases d.disk_io) [
    | inl n ↦ ground (arith, n)
    | inr (disk, n) ↦ ground (arith, n, g)
  ]

  finish_writes :
      (d : DownloadManager) (disk : DiskIo) (file : Bytes) (k : ℕ) (bytes : Bytes)
      → d.disk_io ≡ some disk
      → IsSingle disk file
      → NeverFails fs
      → piece_offset disk.piece_length k < disk.total_size
      → get_piece_data d.piece_manager k ≡ some (some bytes)
      → finish_piece sha1 fs peer_order d k ≡ some (store_piece sha1 fs peer_order d disk k bytes)
  unfolding finish_piece
  finish_writes d disk file k bytes di single ok inside g = ground (arith, di, g)

  store_writes :
      (d : DownloadManager) (disk : DiskIo) (file : Bytes) (k : ℕ) (bytes : Bytes)
      → IsSingle disk file
      → NeverFails fs
      → piece_offset disk.piece_length k < disk.total_size
      → store_piece sha1 fs peer_order d disk k bytes
        ≡ broadcast_have peer_order
            (record d {
              piece_manager = mark_piece_written d.piece_manager k;
              disk_io = some (record disk {
                files = write_at file (piece_offset disk.piece_length k) bytes ∷ [];
              });
            })
            k
  unfolding store_piece
  store_writes d disk file k bytes single ok inside =
      let w = write_piece-NeverFails fs disk file k bytes ok single inside in
      let good : (write_piece fs disk k bytes).1 ≡ none = ap (λ x. x.1) w in
      rw (good, store_piece)
        (ap
          (λ (x : List Bytes × Option DiskError).
            broadcast_have peer_order
              (record d {
                piece_manager = mark_piece_written d.piece_manager k;
                disk_io = some (record disk { files = x.0 });
              })
              k)
          w)

  -- A piece that is not done, or that has been written before, is stored and no more.
  pub handle_recieve_piece-with_piece :
      (d : DownloadManager) (k o : ℕ) (block : Bytes) (q : Piece)
      → PieceManager.receive_block sha1 d.piece_manager k o block
        ≡ some (with_piece d.piece_manager k q, Piece.is_complete q)
      → (Piece.is_complete q ≡ false) ⊎ (Piece.get_piece_data q ≡ some none)
      → handle_recieve_piece sha1 fs peer_order d k o block
        ≡ some (record d { piece_manager = with_piece d.piece_manager k q })
  unfolding handle_recieve_piece
  handle_recieve_piece-with_piece d k o block q e c = elim c [
    | inl n ↦ rw (e, n, handle_recieve_piece) refl
    | inr g ↦
        let none_there : get_piece_data (with_piece d.piece_manager k q) k ≡ some none =
          get_piece_data-with_piece d.piece_manager k q ∙ g in
        elim (Bool-cases (Piece.is_complete q)) [
          | inr n ↦ rw (e, n, handle_recieve_piece) refl
          | inl y ↦
              rw (e, y, handle_recieve_piece)
                (finish_nothing (record d { piece_manager = with_piece d.piece_manager k q }) k
                  none_there)
        ]
  ]

  -- A complete piece goes to its place in the file, and counts as written.
  pub handle_recieve_piece-written :
      (d : DownloadManager) (disk : DiskIo) (file : Bytes) (k o : ℕ) (block bytes : Bytes)
      (q : Piece)
      → d.disk_io ≡ some disk
      → IsSingle disk file
      → NeverFails fs
      → piece_offset disk.piece_length k < disk.total_size
      → PieceManager.receive_block sha1 d.piece_manager k o block
        ≡ some (with_piece d.piece_manager k q, Piece.is_complete q)
      → Piece.is_complete q ≡ true
      → Piece.get_piece_data q ≡ some (some bytes)
      → handle_recieve_piece sha1 fs peer_order d k o block
        ≡ some (
            broadcast_have peer_order
              (record d {
                piece_manager = with_piece d.piece_manager k (Piece.mask_written q);
                disk_io = some (record disk {
                  files = write_at file (piece_offset disk.piece_length k) bytes ∷ [];
                });
              })
              k)
  unfolding handle_recieve_piece
  handle_recieve_piece-written d disk file k o block bytes q di single ok inside e c g =
      let there : get_piece_data (with_piece d.piece_manager k q) k ≡ some (some bytes) =
        get_piece_data-with_piece d.piece_manager k q ∙ g in
      let next : DownloadManager = record d { piece_manager = with_piece d.piece_manager k q } in
      let m = mark_piece_written-with_piece d.piece_manager k q in
      rw (e, c, handle_recieve_piece)
        (finish_writes next disk file k bytes di single ok inside there)
      ∙ ap some (store_writes next disk file k bytes single ok inside)
      ∙ ap
          (λ x. some (
            broadcast_have peer_order
              (record d {
                piece_manager = x;
                disk_io = some (record disk {
                  files = write_at file (piece_offset disk.piece_length k) bytes ∷ [];
                });
              })
              k))
          m

  pub handle_recieve_piece-absent :
      (d : DownloadManager) (k o : ℕ) (block : Bytes)
      → get d.piece_manager.pieces k ≡ none
      → handle_recieve_piece sha1 fs peer_order d k o block ≡ some d
  unfolding handle_recieve_piece
  handle_recieve_piece-absent d k o block e =
      rw (receive_block-absent sha1 d.piece_manager k o block e, handle_recieve_piece) refl
