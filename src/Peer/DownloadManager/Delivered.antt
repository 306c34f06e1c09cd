-- ===== src/Peer/DownloadManager/Delivered.antt =====
-- A block that comes to a manager whose download is on its way.
use motte_seed.Prelude.{
  ℕ, ◌*◌, ◌%◌, ◌^◌, ◌≡◌, ◌≢◌, ◌<◌, ◌∙◌, refl, ap, none, some, [], ◌∷◌, length, inl, inr, arith,
  Option-cases,
}
use motte_seed.Prelude.Assoc.{get}
use motte_seed.Prelude.Rows.{Rows-get, length-insert_known}
use motte_seed.Bytes.{Bytes}
use motte_seed.Disk.{FileSystem, write_at, piece_offset}
use motte_seed.Disk.WriteAt.{mul_gap}
use motte_seed.Disk.Whole.{NeverFails, length-written, piece_bytes-written, piece_bytes-other}
use motte_seed.Peer.Piece
use motte_seed.Peer.Piece.{Piece, complete, written}
use motte_seed.Peer.DownloadManager.{DownloadManager, Peers, broadcast_have, handle_recieve_piece}
use motte_seed.Peer.DownloadManager.Progress.{
  IsDownloading, IsRow, Rows-change, Rows-pass, Receives, KeepsMarked,
}
use motte_seed.Peer.DownloadManager.Finish.{
  state_cases, is_complete-IsDone, with_piece, receive_block-with_piece,
  handle_recieve_piece-absent, get_piece_data-written, handle_recieve_piece-with_piece,
  handle_recieve_piece-written,
}

module _ (sha1 : Bytes → Bytes) (fs : FileSystem) (peer_order : Peers → Peers)
    (never : NeverFails fs) (len n : ℕ) (small : n * len < 2 ^ 32) (wide : 0 < len)
    (Part : ℕ → Bytes → Type 0) (Known Later : ℕ → Piece → Type 0) (d : DownloadManager)
    (w : IsDownloading len n Part Known d) (k o : ℕ) (block : Bytes)
    (moves : (j : ℕ) (p : Piece) → j ≢ k → Known j p → Later j p)
    (receives : (p : Piece) → k < n → Known k p → Receives len n Part sha1 Later k o block p)
    (marks : KeepsMarked Later) where
  -- No piece stands there.
  absent : get d.piece_manager.pieces k ≡ none → IsDownloading len n Part Later d
  absent e = record {
    disk = w.disk;
    file = w.file;
    disk_is = w.disk_is;
    single = w.single;
    piece_length_is = w.piece_length_is;
    total_is = w.total_is;
    size = w.size;
    rows =
        Rows-pass len n Part Known Later w.file w.file k moves (λ j ne l. refl)
          d.piece_manager.pieces w.rows e;
    count = w.count;
  }

  offset_lem : k < n → piece_offset (w.disk).piece_length k ≡ k * len
  offset_lem inside =
      ap (λ x. k * x % 2 ^ 32) w.piece_length_is ∙ omega (arith, mul_gap k n len inside)

  in_file : k < n → piece_offset (w.disk).piece_length k < (w.disk).total_size
  in_file inside = omega (arith, offset_lem inside, w.total_is, mul_gap k n len inside)

  module _ (p : Piece) (known : get d.piece_manager.pieces k ≡ some p) where
    row : IsRow len n Part Known w.file k p
    row = Rows-get (IsRow len n Part Known w.file) 0 d.piece_manager.pieces k w.rows known

    -- The piece is replaced, the disk stays.
    replaced :
        (q : Piece)
        → IsRow len n Part Later w.file k q
        → IsDownloading len n Part Later
            (record d { piece_manager = with_piece d.piece_manager k q })
    replaced q new = record {
      disk = w.disk;
      file = w.file;
      disk_is = w.disk_is;
      single = w.single;
      piece_length_is = w.piece_length_is;
      total_is = w.total_is;
      size = w.size;
      rows =
          Rows-change len n Part Known Later w.file w.file k moves (λ j ne l. refl)
            d.piece_manager.pieces q w.rows known new;
      count = length-insert_known d.piece_manager.pieces k q known ∙ w.count;
    }

    -- The piece is written.
    finished :
        (q : Piece) (bytes : Bytes)
        → Later k q
        → q.state ≡ complete
        → length bytes ≡ len
        → Part k bytes
        → IsDownloading len n Part Later (
            broadcast_have peer_order
              (record d {
                piece_manager = with_piece d.piece_manager k (Piece.mask_written q);
                disk_io = some (record (w.disk) {
                  files = write_at w.file (piece_offset (w.disk).piece_length k) bytes ∷ [];
                });
              })
              k)
    unfolding broadcast_have
    finished q bytes v c full own =
        let (inside, _, _) = row in
        let (m, one, only) = w.single in
        record {
          disk = record (w.disk) {
            files = write_at w.file (piece_offset (w.disk).piece_length k) bytes ∷ [];
          };
          file = write_at w.file (k * len) bytes;
          disk_is = refl;
          single = (m, one, ap (λ x. write_at w.file x bytes ∷ []) (offset_lem inside));
          piece_length_is = w.piece_length_is;
          total_is = w.total_is;
          size = length-written w.file bytes len n k w.size inside full;
          rows =
              Rows-change len n Part Known Later w.file (write_at w.file (k * len) bytes) k moves
                (λ j ne l. piece_bytes-other w.file bytes len n k w.size inside full j ne l)
                d.piece_manager.pieces (Piece.mask_written q) w.rows known
                (
                  inside,
                  marks k q v (inl c),
                  λ done. rw (piece_bytes-written w.file bytes len n k w.size inside full) own,
                );
          count =
              length-insert_known d.piece_manager.pieces k (Piece.mask_written q) known ∙ w.count;
        }

    arrives :
        (e : DownloadManager) × (handle_recieve_piece sha1 fs peer_order d k o block ≡ some e)
        × IsDownloading len n Part Later e
    arrives =
        let (inside, v, on_disk) = row in
        let (r, e, u, was, handed) = receives p inside v in
        let got = receive_block-with_piece sha1 d.piece_manager k o block r known e in
        elim (state_cases r.0) [
          | inl c ↦
              let (bytes, data_is, full, own) = handed c in
              (
                _,
                handle_recieve_piece-written sha1 fs peer_order d w.disk w.file k o block bytes r.0
                    w.disk_is w.single never (in_file inside) got (is_complete-IsDone r.0 (inl c))
                    data_is,
                finished r.0 bytes u c full own,
              )
          | inr (inl c) ↦ (
            _,
            handle_recieve_piece-with_piece sha1 fs peer_order d k o block r.0 got
                (inr (get_piece_data-written r.0 c)),
            replaced r.0 (inside, u, λ x. on_disk (inr (was c))),
          )
          | inr (inr (c, not_done)) ↦ (
            _,
            handle_recieve_piece-with_piece sha1 fs peer_order d k o block r.0 got (inl c),
            replaced r.0 (inside, u, λ x. absurd (not_done x)),
          )
        ]

  -- The block is handled, and the download goes on without it.
  pub received-IsDownloading :
      (e : DownloadManager) × (handle_recieve_piece sha1 fs peer_order d k o block ≡ some e)
      × IsDownloading len n Part Later e
  received-IsDownloading = elim (Option-cases (get d.piece_manager.pieces k)) [
    | inl e ↦ (d, handle_recieve_piece-absent sha1 fs peer_order d k o block e, absent e)
    | inr (p, known) ↦ arrives p known
  ]
