-- ===== src/Disk/Within.antt =====
-- Where a piece of a torrent with several files is written, if it lies in one of them.
use motte_seed.Prelude.{
  suc, ℕ, ◌+◌, ◌-◌, ◌^◌, ◌≡◌, ◌≤◌, ◌<◌, refl, sym, ap, ◌∙◌, min, false, none, List, [], ◌∷◌, arith,
  length, take, drop, leb, ◌==◌, inl, inr, Option-cases, get_or, set, drop_all,
}
use motte_seed.Prelude.{zero, suc, length-append}
use motte_seed.Bytes.{Bytes}
use motte_seed.Torrent.{FileEntry}
use motte_seed.Disk.{
  Option, DiskIo, DiskError, FileSystem, write_at, locate, write_files, write_multi_file_piece,
  piece_offset, sub64,
}
use motte_seed.Disk.Misplaced.{take_all}
use motte_seed.Disk.Multi.{IsLaidOut, concat}
use motte_seed.Prelude.{ltb, true, ◌%◌}
use mathlib.Core.Path.{ap₂}

-- The entry and the file at an index.
entry_at :
    (entries : List FileEntry) (files : List Bytes) (k : ℕ)
    → IsLaidOut entries files
    → k < length entries
    → (e : FileEntry) × (es : List FileEntry) × (drop k entries ≡ e ∷ es)
      × (length (get_or files k []) ≡ e.length)
      × (length (get_or files k []) ≤ length (concat (drop k files)))
entry_at [] files k l h = absurd (omega arith)
entry_at (e ∷ es) [] k l h = elim l [ ]
entry_at (e ∷ es) (f ∷ files) zero l h =
    (e, es, refl, l.0, omega (arith, length-append f (concat files)))
entry_at (e ∷ es) (f ∷ files) (suc k) l h = entry_at es files k l.1 (omega arith)

length-laid :
    (entries : List FileEntry) (files : List Bytes)
    → IsLaidOut entries files
    → length entries ≡ length files
length-laid [] [] l = refl
length-laid [] (f ∷ files) l = elim l [ ]
length-laid (e ∷ es) [] l = elim l [ ]
length-laid (e ∷ es) (f ∷ files) l = ap suc (length-laid es files l.1)

length-drop-concat :
    (files : List Bytes) (j : ℕ)
    → length (concat (take j files)) + length (concat (drop j files)) ≡ length (concat files)
length-drop-concat files zero = omega arith
length-drop-concat [] (suc j) = omega arith
length-drop-concat (f ∷ files) (suc j) = omega (
  arith,
  length-drop-concat files j,
  length-append f (concat (take j files)),
  length-append f (concat files),
)

-- The search finds the file in which the offset lies: it starts where the files before it end.
locate-at :
    (entries : List FileEntry) (files : List Bytes) (offset current k j : ℕ)
    → IsLaidOut entries files
    → current + length (concat files) < 2 ^ 64
    → j < length files
    → current + length (concat (take j files)) ≤ offset
    → offset < current + length (concat (take j files)) + length (get_or files j [])
    → locate entries offset current k ≡ (k + j, current + length (concat (take j files)))
unfolding locate
locate-at [] [] offset current k j l b h c o = absurd (omega arith)
locate-at [] (f ∷ files) offset current k j l b h c o = elim l [ ]
locate-at (e ∷ es) [] offset current k j l b h c o = elim l [ ]
locate-at (e ∷ es) (f ∷ files) offset current k zero (len, l) b h c o =
    let sum = length-append f (concat files) in
    let m : (current + e.length) % 2 ^ 64 ≡ current + e.length = omega arith in
    let t : ltb offset (current + e.length) ≡ true = ground arith in
    rw (m, t, locate) (ap₂ (λ x y. (x, y)) (omega arith) (omega arith))
locate-at (e ∷ es) (f ∷ files) offset current k (suc j) (len, l) b h c o =
    let sum = length-append f (concat files) in
    let part = length-append f (concat (take j files)) in
    let m : (current + e.length) % 2 ^ 64 ≡ current + e.length = omega arith in
    let t : ltb offset (current + e.length) ≡ false = ground arith in
    rw (m, t, locate)
      (locate-at es files offset (current + e.length) (k + 1) j l (omega arith) (omega arith)
          (omega arith) (omega arith)
        ∙ ap₂ (λ x y. (x, y)) (omega arith) (omega arith))

module _ (fs : FileSystem) where
  open fs use {write_all, write_all_lem}

  -- Without bytes left, the loop ends.
  write_files_done :
      (entries : List FileEntry) (offset k : ℕ) (files : List Bytes)
      → write_files fs entries offset k 0 [] files ≡ (files, none)
  unfolding write_files
  write_files_done [] offset k files = refl
  write_files_done (e ∷ es) offset k files = refl

  write_files-next :
      (e : FileEntry) (es : List FileEntry) (offset k start : ℕ) (bytes : Bytes)
      (files : List Bytes)
      → 0 < length bytes
      → let m : ℕ = min (length bytes) (sub64 e.length start) in
        let (file, error) = write_all (get_or files k []) offset (take m bytes) in
        error ≡ none
        → write_files fs (e ∷ es) offset k start bytes files
          ≡ write_files fs es offset (k + 1) 0 (drop m bytes) (set files k file)
  unfolding write_files
  write_files-next e es offset k start bytes files pos q =
      let z : (length bytes == 0) ≡ false = ground arith in rw (z, q, write_files) refl

  write_files_error :
      (e : FileEntry) (es : List FileEntry) (offset k start : ℕ) (bytes : Bytes)
      (files after : List Bytes)
      → 0 < length bytes
      → write_files fs (e ∷ es) offset k start bytes files ≡ (after, none)
      → (write_all
          (get_or files k [])
          offset
          (take (min (length bytes) (sub64 e.length start)) bytes)).1
        ≡ none
  unfolding write_files
  write_files_error e es offset k start bytes files after pos w =
      let z : (length bytes == 0) ≡ false = ground arith in
      let piece : Bytes = take (min (length bytes) (sub64 e.length start)) bytes in
      elim (Option-cases ((write_all (get_or files k []) offset piece).1)) [
        | inl q ↦ q
        | inr (text, q) ↦ cc (rw (z, q, write_files) at w)
      ]

  write_files-within :
      (e : FileEntry) (es : List FileEntry) (offset k start : ℕ) (bytes : Bytes)
      (files after : List Bytes)
      → 0 < length bytes
      → length bytes ≤ sub64 e.length start
      → write_files fs (e ∷ es) offset k start bytes files ≡ (after, none)
      → after ≡ set files k (write_at (get_or files k []) offset bytes)
  write_files-within e es offset k start bytes files after pos fit w =
      let m : ℕ = min (length bytes) (sub64 e.length start) in
      let n : m ≡ length bytes = omega arith in
      let all_of : take m bytes ≡ bytes =
        ap (λ j. take j bytes) n ∙ take_all (length bytes) bytes (omega arith) in
      let no_more : drop m bytes ≡ [] =
        ap (λ j. drop j bytes) n ∙ drop_all (length bytes) bytes (omega arith) in
      let q = write_files_error e es offset k start bytes files after pos w in
      let written : List Bytes =
        set files k (write_all (get_or files k []) offset (take m bytes)).0 in
      let done =
        sym w
        ∙ write_files-next e es offset k start bytes files pos q
        ∙ ap (λ b. write_files fs es offset (k + 1) 0 b written) no_more
        ∙ write_files_done es offset (k + 1) written in
      ap (λ (x : List Bytes × Option DiskError). x.0) done
      ∙ ap (set files k) (
          write_all_lem (get_or files k []) offset (take m bytes) q
          ∙ ap (write_at (get_or files k []) offset) all_of)

  -- Data of at least one byte whose place in the torrent lies in one of several files, the one with
  -- index `j`, are written into that file, where the writing has no error, and into no other, but at
  -- the piece's offset in the whole torrent and not at its offset in the file. Every file has the
  -- length that the torrent says, all together below 2^64 bytes.
  pub write_multi_file_piece-within :
      (d : DiskIo) (entries : List FileEntry) (piece_index : ℕ) (bytes : Bytes) (after : List Bytes)
      (j : ℕ)
      → IsLaidOut entries d.files
      → length (concat d.files) < 2 ^ 64
      → j < length d.files
      → 0 < length bytes
      → length (concat (take j d.files)) ≤ piece_offset d.piece_length piece_index
      → piece_offset d.piece_length piece_index + length bytes
        ≤ length (concat (take j d.files)) + length (get_or d.files j [])
      → write_multi_file_piece fs d piece_index bytes entries ≡ (after, none)
      → after
        ≡ set d.files j
            (write_at (get_or d.files j []) (piece_offset d.piece_length piece_index) bytes)
  unfolding write_multi_file_piece
  write_multi_file_piece-within d entries piece_index bytes after j laid bound inside pos from fit
        w =
      let offset : ℕ = piece_offset d.piece_length piece_index in
      let start : ℕ = length (concat (take j d.files)) in
      let at : locate entries offset 0 0 ≡ (j, start) =
        locate-at entries d.files offset 0 0 j laid (omega arith) inside (omega arith) (omega arith)
        ∙ ap₂ (λ x y. (x, y)) (omega arith) (omega arith) in
      let (e, es, here, len, part) =
        entry_at entries d.files j laid (omega (arith, length-laid entries d.files laid)) in
      let known : leb (length entries) j ≡ false =
        ground (arith, length-laid entries d.files laid) in
      let total = length-drop-concat d.files j in
      let sub : sub64 offset start ≡ offset - start = omega arith in
      let fits : length bytes ≤ sub64 e.length (sub64 offset start) =
        omega (arith, len, sub, part, total) in
      write_files-within e es offset j (sub64 offset start) bytes d.files after pos fits
        (rw (at, known, here, write_multi_file_piece) at w)
