-- ===== src/Disk/Store.antt =====
-- The disk of a torrent with one file as a store of pieces, over any sequence of writes.
use mathlib.Core.Path.{subst}
use motte_seed.Prelude.{
  ℕ, ◌+◌, ◌≡◌, ◌≢◌, ◌≤◌, refl, sym, ap, ◌∙◌, Option, none, some, List, [], ◌∷◌, ok, All, ◌==◌,
  if◌then◌else◌, length, take, drop, arith, Option-cases, Bool-cases, inl, inr,
}
use motte_seed.Bytes.{Bytes}
use motte_seed.Disk.{
  DiskIo, FileSystem, write_at, write_piece, read_piece, piece_size, piece_offset,
}
use motte_seed.Disk.Single.{IsSingle, Fits, piece_size_le, pieces_apart, written_file, read_bytes}
use motte_seed.Disk.WriteAt.{length-write_at, write_at_inside, write_at_elsewhere}

-- The piece in a file.
abbrev pub content : DiskIo → Bytes → ℕ → Bytes
content d file j = take (piece_size d j) (drop (piece_offset d.piece_length j) file)

-- What a store of pieces holds after some writes, from what it held.
abbrev pub stored : List (ℕ × Bytes) → (ℕ → Bytes) → ℕ → Bytes
stored [] held j = held j
stored ((i, bytes) ∷ writes) held j = stored writes (λ k. if i == k then bytes else held k) j

stored-ext :
    (writes : List (ℕ × Bytes)) (f g : ℕ → Bytes) (j : ℕ)
    → f j ≡ g j
    → stored writes f j ≡ stored writes g j
stored-ext [] f g j h = h
stored-ext ((i, bytes) ∷ writes) f g j h =
    stored-ext writes (λ k. if i == k then bytes else f k) (λ k. if i == k then bytes else g k) j
      (ap (λ x. if i == j then bytes else x) h)

module _ (fs : FileSystem) where
  -- One write after the other, each without an error.
  abbrev pub write_pieces : DiskIo → List (ℕ × Bytes) → Option DiskIo
  write_pieces d [] = some d
  write_pieces d ((i, bytes) ∷ writes) =
      let (files, error) = write_piece fs d i bytes in
      let rest = write_pieces (record d { files = files }) writes in
      elim error [ some _ ↦ none | none ↦ rest ]

  -- A full piece, with offsets that fit 32 bits.
  abbrev pub IsFull : DiskIo → ℕ × Bytes → Type 0
  IsFull d (i, bytes) = Fits d i × (length bytes ≡ piece_size d i)

  content-write_at :
      (d : DiskIo) (file : Bytes) (i j : ℕ) (bytes : Bytes)
      → IsFull d (i, bytes)
      → Fits d j
      → piece_offset d.piece_length j + piece_size d j ≤ length file
      → content d (write_at file (piece_offset d.piece_length i) bytes) j
        ≡ (if i == j then bytes else content d file j)
  content-write_at d file i j bytes (fit, full) fj inside = elim (Bool-cases (i == j)) [
    | inl q ↦
        let same : i ≡ j = ground arith in
        rw q (
          subst (λ k. content d (write_at file (piece_offset d.piece_length i) bytes) k ≡ bytes)
            same
            (ap
                (λ n. take n (
                  drop (piece_offset d.piece_length i)
                    (write_at file (piece_offset d.piece_length i) bytes)))
                (sym full)
              ∙ write_at_inside file bytes (piece_offset d.piece_length i)))
    | inr q ↦
        let ne : i ≢ j = ground arith in
        rw q (
          write_at_elsewhere file bytes (piece_offset d.piece_length i)
            (piece_offset d.piece_length j) (piece_size d j) inside
            (pieces_apart d i j (length bytes) ne fit fj (rw full (piece_size_le d i fit))))
  ]

  write_pieces-content :
      (writes : List (ℕ × Bytes)) (d e : DiskIo) (file : Bytes) (j : ℕ)
      → IsSingle d file
      → All (IsFull d) writes
      → Fits d j
      → piece_offset d.piece_length j + piece_size d j ≤ length file
      → write_pieces d writes ≡ some e
      → (end : Bytes) × IsSingle e end
        × (e.piece_length ≡ d.piece_length)
        × (e.total_size ≡ d.total_size)
        × (content d end j ≡ stored writes (content d file) j)
  unfolding piece_size
  write_pieces-content [] d e file j s full fj inside h =
      let same : d ≡ e = cc h in
      (
        file,
        subst (λ x. IsSingle x file) same s,
        ap (λ (x : DiskIo). x.piece_length) (sym same),
        ap (λ (x : DiskIo). x.total_size) (sym same),
        refl,
      )
  write_pieces-content ((i, bytes) ∷ writes) d e file j s (f, full) fj inside h =
      let result : List Bytes × _ = write_piece fs d i bytes in
      elim (Option-cases (result.1)) [
        | inr (x, q) ↦ cc (rw (q, write_pieces) at h)
        | inl q ↦
            let next : DiskIo = record d { files = result.0 } in
            let now = written_file fs d file i bytes result.0 s (ap (λ x. (result.0, x)) q) in
            let changed : Bytes = write_at file (piece_offset d.piece_length i) bytes in
            let (n, one, only) = s in
            let within : piece_offset d.piece_length j + piece_size next j ≤ length file = inside in
            let longer : piece_offset d.piece_length j + piece_size next j ≤ length changed =
              omega (arith, within, length-write_at file bytes (piece_offset d.piece_length i)) in
            let (end, t, pl, ts, c) =
              write_pieces-content writes next e changed j (n, one, now) full fj longer
                (rw (q, write_pieces) at h) in
            (
              end,
              t,
              pl,
              ts,
              c ∙ stored-ext writes _ _ j (content-write_at d file i j bytes f fj inside),
            )
      ]

  -- On a torrent with one file, after any sequence of writes of full pieces that have no error, the
  -- file is a store of pieces: a reading of a piece that lies in the file, where it has no error, gives
  -- the bytes of the last write of that piece, and where there was none, what the file had at the
  -- start; if the offsets of the pieces and their ends fit 32 bits.
  pub read_piece-write_pieces :
      (writes : List (ℕ × Bytes)) (d e : DiskIo) (file : Bytes) (j : ℕ) (got : Bytes)
      → IsSingle d file
      → All (IsFull d) writes
      → Fits d j
      → piece_offset d.piece_length j + piece_size d j ≤ length file
      → write_pieces d writes ≡ some e
      → read_piece fs e j ≡ ok got
      → got ≡ stored writes (content d file) j
  unfolding piece_size
  read_piece-write_pieces writes d e file j got s full fj inside h r =
      let (end, t, pl, ts, c) = write_pieces-content writes d e file j s full fj inside h in
      let (_, bytes) = read_bytes fs e end j got t r in
      let same : content e end j ≡ content d end j = rw (pl, ts) refl in bytes ∙ same ∙ c
