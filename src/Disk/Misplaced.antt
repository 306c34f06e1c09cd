-- ===== src/Disk/Misplaced.antt =====
-- Where a piece of a torrent with two files is written, if it lies in the second file.
use motte_seed.Prelude.{
  ℕ, zero, suc, ◌+◌, ◌%◌, ◌^◌, ◌≡◌, ◌≤◌, ◌<◌, refl, sym, ap, ◌∙◌, min, true, false, none, List, [],
  ◌∷◌, arith, length, take, ltb, ◌==◌, inl, inr, Option-cases,
}
use motte_seed.Bytes.{Bytes}
use motte_seed.Torrent.{FileEntry}
use motte_seed.Disk.{
  Option, DiskIo, DiskError, FileSystem, write_at, locate, write_files, write_multi_file_piece,
  piece_offset, sub64,
}

pub take_all : (n : ℕ) (xs : Bytes) → length xs ≤ n → take n xs ≡ xs
take_all zero [] h = refl
take_all zero (x ∷ xs) h = absurd (omega arith)
take_all (suc n) [] h = refl
take_all (suc n) (x ∷ xs) h = ap (λ t. x ∷ t) (take_all n xs (omega arith))

locate_second :
    (a b : FileEntry) (offset : ℕ)
    → a.length + b.length < 2 ^ 64
    → a.length ≤ offset
    → offset < a.length + b.length
    → locate (a ∷ b ∷ []) offset 0 0 ≡ (1, a.length)
unfolding locate
locate_second a b offset h l u =
    let m : (0 + a.length) % 2 ^ 64 ≡ a.length = omega arith in
    let n : (a.length + b.length) % 2 ^ 64 ≡ a.length + b.length = omega arith in
    let p : ltb offset a.length ≡ false = ground arith in
    let q : ltb offset (a.length + b.length) ≡ true = ground arith in rw (m, p, n, q) refl

module _ (fs : FileSystem) where
  open fs use {write_all, write_all_lem}

  write_last :
      (b : FileEntry) (f g : Bytes) (offset start : ℕ) (bytes : Bytes) (files : List Bytes)
      → 0 < length bytes
      → length bytes ≤ sub64 b.length start
      → write_files fs (b ∷ []) offset 1 start bytes (f ∷ g ∷ []) ≡ (files, none)
      → files ≡ f ∷ write_at g offset bytes ∷ []
  unfolding write_files
  write_last b f g offset start bytes files pos fit w =
      let n : min (length bytes) (sub64 b.length start) ≡ length bytes = omega arith in
      let z : (length bytes == 0) ≡ false = ground arith in
      let t = take_all (length bytes) bytes (omega arith) in
      let chunk : take (min (length bytes) (sub64 b.length start)) bytes ≡ bytes =
        ap (λ k. take k bytes) n ∙ t in
      elim (Option-cases ((write_all g offset bytes).1)) [
        | inl e ↦
            let done = rw (z, n, t, e, write_files) at w in
            sym (ap (λ (x : List Bytes × Option DiskError). x.0) done)
            ∙ ap (λ c. f ∷ (write_all g offset c).0 ∷ []) chunk
            ∙ ap (λ k. f ∷ k ∷ []) (write_all_lem g offset bytes e)
        | inr (text, e) ↦ cc (rw (z, n, t, e, write_files) at w)
      ]

  -- Data that lie in the second of two files, at least one byte, are written into that file, where
  -- the writing has no error, but at the piece's offset in the whole torrent and not at its offset in
  -- the file; the first file stays. The two lengths are together below 2^64.
  write_second_file :
      (d : DiskIo) (a b : FileEntry) (f g : Bytes) (piece_index : ℕ) (bytes : Bytes)
      (files : List Bytes)
      → d.files ≡ f ∷ g ∷ []
      → a.length + b.length < 2 ^ 64
      → a.length ≤ piece_offset d.piece_length piece_index
      → 0 < length bytes
      → piece_offset d.piece_length piece_index + length bytes ≤ a.length + b.length
      → write_multi_file_piece fs d piece_index bytes (a ∷ b ∷ []) ≡ (files, none)
      → files ≡ f ∷ write_at g (piece_offset d.piece_length piece_index) bytes ∷ []
  unfolding write_multi_file_piece
  write_second_file d a b f g piece_index bytes files two h l pos u w =
      let offset : ℕ = piece_offset d.piece_length piece_index in
      let found = locate_second a b offset h l (omega arith) in
      write_last b f g offset (sub64 offset a.length) bytes files pos (omega arith)
        (rw (found, two, write_multi_file_piece) at w)
