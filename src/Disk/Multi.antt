-- ===== src/Disk/Multi.antt =====
-- Reading a piece of a torrent with several files, against the files one after the other.
use motte_seed.Prelude.{
  length-drop, Result-cases, false, ℕ, zero, suc, ◌+◌, ◌-◌, ◌%◌, ◌^◌, ◌≡◌, ◌≤◌, ◌<◌, refl, sym, ap,
  ◌∙◌, min, List, [], ◌∷◌, ◌++◌, ok, arith, length, take, drop, get_or, length-append, inl, inr,
  Bool-cases, ltb, leb, ◌==◌, ltb→lt, ltb_false→le,
}
use motte_seed.Bytes.{Bytes}
use motte_seed.Torrent.{FileEntry}
use motte_seed.Disk.{
  sub64, DiskIo, FileSystem, locate, read_files, read_multi_file_piece, piece_offset,
}
use motte_seed.Disk.WriteAt.{drop-append_le, drop-append_add}

abbrev pub concat : List Bytes → Bytes
concat [] = []
concat (f ∷ fs) = f ++ concat fs

-- Every file has the length that the torrent says.
abbrev pub IsLaidOut : List FileEntry → List Bytes → Type 0
IsLaidOut [] [] = Unit {0}
IsLaidOut (e ∷ es) (f ∷ fs) = (length f ≡ e.length) × IsLaidOut es fs
IsLaidOut _ _ = ⊥

take-append : (n : ℕ) (xs ys : Bytes) → take n (xs ++ ys) ≡ take n xs ++ take (n - length xs) ys
take-append zero xs ys = let e : 0 ≡ 0 - length xs = omega arith in ap (λ k. take k ys) e
take-append (suc n) [] ys = let e : suc n ≡ suc n - 0 = omega arith in ap (λ k. take k ys) e
take-append (suc n) (x ∷ xs) ys =
    let e : n - length xs ≡ suc n - suc (length xs) = omega arith in
    rw (take-append n xs ys) (ap (λ k. x ∷ (take n xs ++ take k ys)) e)

take-min : (n : ℕ) (xs : Bytes) → take (min n (length xs)) xs ≡ take n xs
take-min zero xs = let e : min 0 (length xs) ≡ 0 = omega arith in ap (λ k. take k xs) e
take-min (suc n) [] = let e : min (suc n) 0 ≡ 0 = omega arith in ap (λ k. take {A = ℕ} k []) e
take-min (suc n) (x ∷ xs) =
    let e : min (suc n) (suc (length xs)) ≡ suc (min n (length xs)) = omega arith in
    ap (λ k. take k (x ∷ xs)) e ∙ ap (λ t. x ∷ t) (take-min n xs)

-- A range that starts in the first part is what that part has of it, and the rest of the second.
join :
    (n m offset : ℕ) (f rest : Bytes) {bytes tail : Bytes}
    → offset ≤ length f
    → m ≡ min n (length f - offset)
    → bytes ≡ take m (drop offset f)
    → tail ≡ take (n - m) rest
    → bytes ++ tail ≡ take n (drop offset (f ++ rest))
join n m offset f rest {bytes = bytes} {tail = tail} le size head back =
    let x : Bytes = drop offset f in
    let lx : length x ≡ length f - offset = length-drop offset f in
    let e : m ≡ min n (length x) = omega arith in
    let g : n - m ≡ n - length x = omega arith in
    let first : bytes ≡ take n x = head ∙ ap (λ k. take k x) e ∙ take-min n x in
    let second : tail ≡ take (n - length x) rest = back ∙ ap (λ k. take k rest) g in
    rw (first, second) (sym (ap (take n) (drop-append_le offset f rest le) ∙ take-append n x rest))

-- The file at an index, and those behind it.
at_index :
    (files : List Bytes) (k : ℕ) (f : Bytes) (fs : List Bytes)
    → drop k files ≡ f ∷ fs
    → (get_or files k [] ≡ f) × (drop (k + 1) files ≡ fs)
at_index [] zero f fs h = cc
at_index [] (suc k) f fs h = cc
at_index (g ∷ files) zero f fs h = (cc, cc)
at_index (g ∷ files) (suc k) f fs h =
    let e : suc k + 1 ≡ suc (k + 1) = omega arith in
    let (a, b) = at_index files k f fs h in (a, ap (λ m. drop m (g ∷ files)) e ∙ b)

-- The offset is in the first file.
abbrev pub StartsIn : ℕ → List FileEntry → Type 0
StartsIn offset [] = Unit {0}
StartsIn offset (e ∷ es) = offset ≤ e.length

starts : (entries : List FileEntry) → StartsIn 0 entries
starts [] = tt
starts (e ∷ es) = omega arith

module _ (fs : FileSystem) where
  open fs use {read_exact, read_exact_lem}

  -- What a round of the loop has read, where it reads at all.
  round :
      (e : FileEntry) (es : List FileEntry) (k offset n : ℕ) (files : List Bytes) (got : Bytes)
      → (n == 0) ≡ false
      → read_files fs (e ∷ es) k offset n files ≡ ok got
      → let m : ℕ = min n (sub64 e.length offset) in
        (bytes more : Bytes) × (read_exact (get_or files k []) offset m ≡ ok bytes)
        × (read_files fs es (k + 1) 0 (n - m) files ≡ ok more)
        × (got ≡ bytes ++ more)
  unfolding read_files
  round e es k offset n files got z r =
      let m : ℕ = min n (sub64 e.length offset) in
      elim (Result-cases (read_exact (get_or files k []) offset m)) [
        | inr (text, q) ↦ cc (rw (z, q, read_files) at r)
        | inl (bytes, q) ↦ elim (Result-cases (read_files fs es (k + 1) 0 (n - m) files)) [
          | inr (error, u) ↦ cc (rw (z, q, u, read_files) at r)
          | inl (more, u) ↦ (bytes, more, q, u, cc (rw (z, q, u, read_files) at r))
        ]
      ]

  read_files-concat :
      (entries : List FileEntry) (k offset n : ℕ) (files rest : List Bytes) (got : Bytes)
      → drop k files ≡ rest
      → IsLaidOut entries rest
      → length (concat rest) < 2 ^ 64
      → StartsIn offset entries
      → offset + n ≤ length (concat rest)
      → read_files fs entries k offset n files ≡ ok got
      → got ≡ take n (drop offset (concat rest))
  unfolding read_files
  read_files-concat [] k offset n files [] got a l b s h r =
      let e : n ≡ 0 = omega arith in rw e (cc (rw (e, read_files) at r))
  read_files-concat [] k offset n files (f ∷ rest) got a l b s h r = elim l [ ]
  read_files-concat (e ∷ es) k offset n files [] got a l b s h r = elim l [ ]
  read_files-concat (e ∷ es) k offset n files (f ∷ more) got a (len, l) b s h r =
      elim (Bool-cases (n == 0)) [
        | inl z ↦ let e : n ≡ 0 = ground arith in rw e (cc (rw (z, read_files) at r))
        | inr z ↦
            let (bytes, tail, q, u, joined) = round e es k offset n files got z r in
            let (here, next) = at_index files k f more a in
            let (_, cut) =
              read_exact_lem f offset (min n (sub64 e.length offset)) bytes (rw here at q) in
            let sum = length-append f (concat more) in
            let ih =
              read_files-concat es (k + 1) 0 (n - min n (sub64 e.length offset)) files more tail
                next l (omega arith) (starts es) (omega arith) u in
            joined
            ∙ join n (min n (sub64 e.length offset)) offset f (concat more) (omega arith)
                (omega arith) cut ih
      ]

-- Where the search ends: at the file that has the offset, and what is behind the offset is the same.
abbrev pub Found : List FileEntry → List Bytes → ℕ → ℕ → ℕ → Type 0
Found es fs offset current k =
    (j : ℕ) × (start : ℕ) × (locate es offset current k ≡ (k + j, start))
    × (j < length es)
    × IsLaidOut (drop j es) (drop j fs)
    × (start ≤ offset)
    × StartsIn (offset - start) (drop j es)
    × (start + length (concat (drop j fs)) ≡ current + length (concat fs))
    × (drop (offset - start) (concat (drop j fs)) ≡ drop (offset - current) (concat fs))

Found-next :
    (e : FileEntry) (es : List FileEntry) (f : Bytes) (fs : List Bytes) (offset current k : ℕ)
    → length f ≡ e.length
    → (current + e.length) % 2 ^ 64 ≡ current + e.length
    → ltb offset (current + e.length) ≡ false
    → current + e.length ≤ offset
    → Found es fs offset (current + e.length) (k + 1)
    → Found (e ∷ es) (f ∷ fs) offset current k
unfolding locate
Found-next e es f fs offset current k len m t ge
      (j, start, at, bound, laid, le, inside, total, same) =
    let sum = length-append f (concat fs) in
    let behind : ℕ = offset - (current + e.length) in
    let index : k + 1 + j ≡ k + suc j = omega arith in
    let split : offset - current ≡ length f + behind = omega arith in
    (
      suc j,
      start,
      rw (m, t, locate) (at ∙ ap (λ x. (x, start)) index),
      omega arith,
      laid,
      le,
      inside,
      omega arith,
      same ∙ sym (ap (λ x. drop x (f ++ concat fs)) split ∙ drop-append_add behind f (concat fs)),
    )

pub locate-Found :
    (es : List FileEntry) (fs : List Bytes) (offset current k : ℕ)
    → IsLaidOut es fs
    → current + length (concat fs) < 2 ^ 64
    → current ≤ offset
    → offset < current + length (concat fs)
    → Found es fs offset current k
unfolding locate
locate-Found [] [] offset current k l b c o = absurd (omega arith)
locate-Found [] (f ∷ fs) offset current k l b c o = elim l [ ]
locate-Found (e ∷ es) [] offset current k l b c o = elim l [ ]
locate-Found (e ∷ es) (f ∷ fs) offset current k (len, l) b c o =
    let sum = length-append f (concat fs) in
    let m : (current + e.length) % 2 ^ 64 ≡ current + e.length = omega arith in
    elim (Bool-cases (ltb offset (current + e.length))) [
      | inl t ↦
          let lt = ltb→lt _ _ t in
          (
            0,
            current,
            rw (m, t, locate) (ap (λ x. (x, current)) (omega arith)),
            omega arith,
            (len, l),
            c,
            omega arith,
            refl,
            refl,
          )
      | inr t ↦
          let ge = ltb_false→le _ _ t in
          let next : Found es fs offset (current + e.length) (k + 1) =
            locate-Found es fs offset (current + e.length) (k + 1) l (omega arith) ge
              (omega arith) in
          Found-next e es f fs offset current k len m t ge next
    ]

-- Reading a piece gives the bytes at its offset of the files one after the other, where it has no
-- error: every file has the length that the torrent says, all together less than 2^64 bytes, and the
-- piece lies in them and starts before their end.
pub read_multi_file_piece_lem :
    (fs : FileSystem) (d : DiskIo) (entries : List FileEntry) (piece_index size : ℕ) (got : Bytes)
    → IsLaidOut entries d.files
    → length (concat d.files) < 2 ^ 64
    → piece_offset d.piece_length piece_index < length (concat d.files)
    → piece_offset d.piece_length piece_index + size ≤ length (concat d.files)
    → read_multi_file_piece fs d piece_index size entries ≡ ok got
    → got ≡ take size (drop (piece_offset d.piece_length piece_index) (concat d.files))
unfolding read_multi_file_piece
read_multi_file_piece_lem fs d entries piece_index size got laid bound start stop r =
    let offset : ℕ = piece_offset d.piece_length piece_index in
    let (j, begin, at, inside, rest, le, first, total, same) =
      locate-Found entries d.files offset 0 0 laid (omega arith) (omega arith) (omega arith) in
    let index : 0 + j ≡ j = omega arith in
    let here : locate entries offset 0 0 ≡ (j, begin) = at ∙ ap (λ x. (x, begin)) index in
    let small = length-drop j d.files in
    let sub : sub64 offset begin ≡ offset - begin = omega arith in
    let found : leb (length entries) j ≡ false = ground arith in
    let zero_off : offset - 0 ≡ offset = omega arith in
    read_files-concat fs (drop j entries) j (offset - begin) size d.files (drop j d.files) got refl
      rest (omega arith) first (omega arith) (rw (here, found, sub, read_multi_file_piece) at r)
    ∙ ap (take size) (same ∙ ap (λ x. drop x (concat d.files)) zero_off)
