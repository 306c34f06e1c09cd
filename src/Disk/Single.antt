-- ===== src/Disk/Single.antt =====
-- Pieces of a torrent with one file: what is written is read back, and no other piece changes.
use motte_seed.Prelude.{
  inr, inl, ◌⊎◌, ◌≢◌, ℕ, ◌+◌, ◌*◌, ◌%◌, ◌^◌, ◌≡◌, ◌≤◌, ◌<◌, sym, ap, ◌∙◌, none, List, [], ◌∷◌, ok,
  arith, length, take, drop,
}
use native.Mathlib.Nat.{add-mul, one-mul, le-mul_of_pos_right}
use motte_seed.Bytes.{Bytes}
use motte_seed.Torrent.{single_file}
use motte_seed.Disk.{
  read_single, write_single, DiskIo, FileSystem, write_at, write_piece, read_piece, piece_size,
  piece_offset,
}
use motte_seed.Disk.WriteAt.{write_at_inside, write_at_elsewhere, mul_gap}

-- The index and the offset of a piece, and those of the next, fit 32 bits.
abbrev pub Fits : DiskIo → ℕ → Type 0
Fits d i = (0 < d.piece_length) × ((i + 1) * d.piece_length < 2 ^ 32)

piece_offset_lem :
    (d : DiskIo) (i : ℕ)
    → Fits d i
    → (piece_offset d.piece_length i ≡ i * d.piece_length)
      × (piece_offset d.piece_length ((i + 1) % 2 ^ 32) ≡ i * d.piece_length + d.piece_length)
piece_offset_lem d i (pos, h) =
    let l : ℕ = d.piece_length in
    let small : i + 1 ≤ (i + 1) * l = le-mul_of_pos_right (i + 1) pos in
    let m : (i + 1) % 2 ^ 32 ≡ i + 1 = omega arith in
    let e : (i + 1) * l ≡ i * l + l = omega (arith, add-mul i 1 l, one-mul l) in
    (omega arith, rw m (omega arith))

pub piece_size_le : (d : DiskIo) (j : ℕ) → Fits d j → piece_size d j ≤ d.piece_length
unfolding piece_size
piece_size_le d j f = ground (arith, piece_offset_lem d j f)

-- Two pieces do not overlap.
pub pieces_apart :
    (d : DiskIo) (i j m : ℕ)
    → i ≢ j
    → Fits d i
    → Fits d j
    → m ≤ d.piece_length
    → (piece_offset d.piece_length j + piece_size d j ≤ piece_offset d.piece_length i)
      ⊎ (piece_offset d.piece_length i + m ≤ piece_offset d.piece_length j)
pieces_apart d i j m ne fi fj size =
    let size_j = piece_size_le d j fj in
    let (at_i, _) = piece_offset_lem d i fi in
    let (at_j, _) = piece_offset_lem d j fj in
    let either : (i < j) ⊎ (j < i) = omega arith in
    elim either [
      | inl lt ↦ inr (omega (arith, mul_gap i j d.piece_length lt))
      | inr gt ↦ inl (omega (arith, mul_gap j i d.piece_length gt))
    ]

-- A torrent with one file, which has this content.
abbrev pub IsSingle : DiskIo → Bytes → Type 0
IsSingle d file = (n : ℕ) × (d.file_details ≡ single_file n) × (d.files ≡ file ∷ [])

module _ (fs : FileSystem) where
  open fs use {write_all, write_all_lem, read_exact, read_exact_lem}

  pub written_file :
      (d : DiskIo) (file : Bytes) (piece_index : ℕ) (bytes : Bytes) (files : List Bytes)
      → IsSingle d file
      → write_piece fs d piece_index bytes ≡ (files, none)
      → files ≡ write_at file (piece_offset d.piece_length piece_index) bytes ∷ []
  unfolding write_piece write_single
  written_file d file piece_index bytes files (n, one, only) w =
      let result = write_all_lem file (piece_offset d.piece_length piece_index) bytes in
      ground (arith, result)

  pub read_bytes :
      (d : DiskIo) (file : Bytes) (piece_index : ℕ) (got : Bytes)
      → IsSingle d file
      → read_piece fs d piece_index ≡ ok got
      → (0 < piece_size d piece_index
          → piece_offset d.piece_length piece_index + piece_size d piece_index ≤ length file)
        × (got
            ≡ take (piece_size d piece_index) (drop (piece_offset d.piece_length piece_index) file))
  unfolding read_piece read_single
  read_bytes d file piece_index got (n, one, only) r =
      let result =
        read_exact_lem file (piece_offset d.piece_length piece_index) (piece_size d piece_index)
          got in
      ground (arith, result)

  -- On a torrent with one file: a piece that was written without an error is what a reading of the
  -- same piece gives, where it has no error, if the data have the size of the piece.
  pub read_piece-write_piece :
      (d : DiskIo) (file : Bytes) (piece_index : ℕ) (bytes : Bytes) (files : List Bytes)
      (got : Bytes)
      → IsSingle d file
      → length bytes ≡ piece_size d piece_index
      → write_piece fs d piece_index bytes ≡ (files, none)
      → read_piece fs (record d { files = files }) piece_index ≡ ok got
      → got ≡ bytes
  unfolding piece_size
  read_piece-write_piece d file piece_index bytes files got s size w r =
      let offset : ℕ = piece_offset d.piece_length piece_index in
      let (n, one, only) = s in
      let now = written_file d file piece_index bytes files s w in
      let (_, e) =
        read_bytes (record d { files = files }) (write_at file offset bytes) piece_index got
          (n, one, now) r in
      e
      ∙ ap (λ k. take k (drop offset (write_at file offset bytes))) (sym size)
      ∙ write_at_inside file bytes offset

  -- On a torrent with one file: writing a piece of full size without an error leaves every other
  -- piece as it was. Where a reading of it has no error before and after, both give the same bytes, if
  -- the offsets of both pieces and their ends fit 32 bits.
  pub read_piece_other :
      (d : DiskIo) (file : Bytes) (i j : ℕ) (bytes : Bytes) (files : List Bytes)
      (before after : Bytes)
      → IsSingle d file
      → i ≢ j
      → Fits d i
      → Fits d j
      → length bytes ≤ d.piece_length
      → write_piece fs d i bytes ≡ (files, none)
      → read_piece fs d j ≡ ok before
      → read_piece fs (record d { files = files }) j ≡ ok after
      → after ≡ before
  unfolding piece_size
  read_piece_other d file i j bytes files before after s ne fi fj size w r q =
      let offset : ℕ = piece_offset d.piece_length i in
      let (n, one, only) = s in
      let now = written_file d file i bytes files s w in
      let (g, b) = read_bytes d file j before s r in
      let (_, a) =
        read_bytes (record d { files = files }) (write_at file offset bytes) j after (n, one, now)
          q in
      let either : (piece_size d j ≡ 0) ⊎ (0 < piece_size d j) = omega arith in
      elim either [
        | inl z ↦
            a
            ∙ ap (λ k. take k (drop (piece_offset d.piece_length j) (write_at file offset bytes))) z
            ∙ sym (b ∙ ap (λ k. take k (drop (piece_offset d.piece_length j) file)) z)
        | inr pos ↦
            a
            ∙ write_at_elsewhere file bytes offset (piece_offset d.piece_length j) (piece_size d j)
                (g pos) (pieces_apart d i j (length bytes) ne fi fj size)
            ∙ sym b
      ]
