-- ===== src/Disk/Whole.antt =====
-- The one file of a torrent, and its pieces of equal length, with a file system that never fails to
use motte_seed.Prelude.{refl}
-- write.
use motte_seed.Prelude.{
  ℕ, zero, suc, ◌+◌, ◌*◌, ◌-◌, ◌≡◌, ◌≢◌, ◌≤◌, ◌<◌, sym, ap, ◌∙◌, none, [], ◌∷◌, ◌++◌, arith, length,
  take, drop, length-append, length-take, length-drop, take-append-drop, drop_all, drop-drop, inl,
  inr, ◌⊎◌, leb, false, replicate, length-replicate,
}
use native.Mathlib.Nat.{add-mul, one-mul}
use motte_seed.Bytes.{Bytes}
use motte_seed.Disk.{DiskIo, FileSystem, write_at, write_piece, write_single, piece_offset}
use motte_seed.Disk.Single.{IsSingle}
use motte_seed.Disk.WriteAt.{mul_gap, write_at_inside, write_at_elsewhere}

-- The bytes of one of the pieces.
abbrev pub piece_bytes : Bytes → ℕ → ℕ → Bytes
piece_bytes file len i = take len (drop (i * len) file)

pub length-piece_bytes :
    (file : Bytes) (len n i : ℕ)
    → length file ≡ n * len
    → i < n
    → length (piece_bytes file len i) ≡ len
length-piece_bytes file len n i h l =
    omega
      (arith, mul_gap i n len l, length-take len (drop (i * len) file), length-drop (i * len) file)

-- Two files of the same length whose pieces agree are the same.
pieces_agree :
    (f g : Bytes) (len n k i : ℕ)
    → length f ≡ n * len
    → length g ≡ n * len
    → i + k ≡ n
    → ((j : ℕ) → j < n → piece_bytes f len j ≡ piece_bytes g len j)
    → drop (i * len) f ≡ drop (i * len) g
pieces_agree f g len n zero i lf lg e same =
    let at : i ≡ n = omega arith in
    let size : i * len ≡ n * len = ap (λ x. x * len) at in
    drop_all (i * len) f (omega arith) ∙ sym (drop_all (i * len) g (omega arith))
pieces_agree f g len n (suc k) i lf lg e same =
    let next : i * len + len ≡ (i + 1) * len = omega (arith, add-mul i 1 len, one-mul len) in
    let ih = pieces_agree f g len n k (i + 1) lf lg (omega arith) same in
    let step = λ (h : Bytes). drop-drop len (i * len) h ∙ ap (λ x. drop x h) next in
    sym (take-append-drop len (drop (i * len) f))
    ∙ ap (λ x. x ++ drop len (drop (i * len) f)) (same i (omega arith))
    ∙ ap (λ x. piece_bytes g len i ++ x) (step f ∙ ih ∙ sym (step g))
    ∙ take-append-drop len (drop (i * len) g)

pub pieces-determine :
    (f g : Bytes) (len n : ℕ)
    → length f ≡ n * len
    → length g ≡ n * len
    → ((j : ℕ) → j < n → piece_bytes f len j ≡ piece_bytes g len j)
    → f ≡ g
pieces-determine f g len n lf lg same =
    let z : 0 * len ≡ 0 = omega arith in
    ap (λ x. drop x f) (sym z)
    ∙ pieces_agree f g len n n 0 lf lg (omega arith) same
    ∙ ap (λ x. drop x g) z

pub length-write_at_inside :
    (file bytes : Bytes) (offset : ℕ)
    → offset + length bytes ≤ length file
    → length (write_at file offset bytes) ≡ length file
length-write_at_inside file [] offset h = refl
length-write_at_inside file (b ∷ more) offset h =
    let bytes : Bytes = b ∷ more in
    let front : Bytes = take offset (file ++ replicate (offset - length file) 0) in
    omega (
      arith,
      length-append front (bytes ++ drop (offset + length bytes) file),
      length-append bytes (drop (offset + length bytes) file),
      length-drop (offset + length bytes) file,
      length-take offset (file ++ replicate (offset - length file) 0),
      length-append file (replicate (offset - length file) 0),
      length-replicate {A = ℕ} (offset - length file) 0,
    )

module _ (file bytes : Bytes) (len n i : ℕ) (size : length file ≡ n * len) (inside : i < n)
    (full : length bytes ≡ len) where
  pub length-written : length (write_at file (i * len) bytes) ≡ n * len
  length-written =
      length-write_at_inside file bytes (i * len) (omega (arith, mul_gap i n len inside)) ∙ size

  pub piece_bytes-written : piece_bytes (write_at file (i * len) bytes) len i ≡ bytes
  piece_bytes-written =
      ap (λ k. take k (drop (i * len) (write_at file (i * len) bytes))) (sym full)
      ∙ write_at_inside file bytes (i * len)

  pub piece_bytes-other :
      (j : ℕ)
      → j ≢ i
      → j < n
      → piece_bytes (write_at file (i * len) bytes) len j ≡ piece_bytes file len j
  piece_bytes-other j ne l =
      let either : (i < j) ⊎ (j < i) = omega arith in
      write_at_elsewhere file bytes (i * len) (j * len) len (omega (arith, mul_gap j n len l))
        (elim either [
          | inl lt ↦ inr (omega (arith, mul_gap i j len lt))
          | inr gt ↦ inl (omega (arith, mul_gap j i len gt))
        ])

module _ (fs : FileSystem) where
  open fs use {write_all, write_all_lem}

  -- Every write succeeds.
  abbrev pub NeverFails : Type 0
  NeverFails = (file : Bytes) (offset : ℕ) (bytes : Bytes) → (write_all file offset bytes).1 ≡ none

  pub write_piece-NeverFails :
      (d : DiskIo) (file : Bytes) (i : ℕ) (bytes : Bytes)
      → NeverFails
      → IsSingle d file
      → piece_offset d.piece_length i < d.total_size
      → write_piece fs d i bytes ≡ (write_at file (piece_offset d.piece_length i) bytes ∷ [], none)
  unfolding write_piece write_single
  write_piece-NeverFails d file i bytes ok (n, one, only) inside =
      let offset : ℕ = piece_offset d.piece_length i in
      let early : leb d.total_size offset ≡ false = ground arith in
      let e = ok file offset bytes in
      let w = write_all_lem file offset bytes e in ground (arith, early, e, w, one, only)
