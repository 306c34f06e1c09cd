-- ===== src/Disk/Created.antt =====
-- The disk of a torrent with one file, when it has been created.
use Prim.Native.String.{String}
use motte_seed.Prelude.{
  ℕ, ◌≡◌, refl, Bool, Option, List, [], ◌∷◌, ok, length, Result-cases, Option-cases, inl, inr, ◌++◌,
}
use motte_seed.Prelude.Text.{codes}
use motte_seed.Bytes.{Bytes}
use motte_seed.Torrent.{single_file}
use motte_seed.Disk.{DiskIo, FileSystem, new, prepare}
use motte_seed.Disk.Single.{IsSingle}
use mathlib.Core.Path.{subst}

module _ (fs : FileSystem) where
  open fs use {open_file, set_len}

  -- `set_len` has the effect that the standard library documents: the file then has this size.
  abbrev pub SetsLength : Type 0
  SetsLength = (file : Bytes) (n : ℕ) (sized : Bytes) → set_len file n ≡ ok sized → length sized ≡ n

  prepare-length :
      (path : List Bytes) (n : ℕ) (sized : Bytes)
      → SetsLength
      → prepare fs path n ≡ ok sized
      → length sized ≡ n
  unfolding prepare
  prepare-length path n sized law h = elim (Result-cases (open_file path)) [
    | inr (e, q) ↦ cc (rw (q, prepare) at h)
    | inl (file, q) ↦ elim (Result-cases (set_len file n)) [
      | inr (e, r) ↦ cc (rw (q, r, prepare) at h)
      | inl (s, r) ↦
          let same : s ≡ sized = cc (rw (q, r, prepare) at h) in
          subst (λ x. length x ≡ n) same (law file n s r)
    ]
  ]

  -- What `DiskIO::new` makes for a torrent with one file.
  pub new-IsSingle :
      (is_utf8 : Bytes → Bool) (created : Option String) (base_path : List Bytes)
      (n piece_length : ℕ) (d : DiskIo)
      → SetsLength
      → new fs is_utf8 created base_path (single_file n) piece_length ≡ ok d
      → (file : Bytes) × IsSingle d file
        × (d.piece_length ≡ piece_length)
        × (d.total_size ≡ n)
        × (length file ≡ n)
  unfolding new
  new-IsSingle is_utf8 created base_path n piece_length d law h =
      let path : List Bytes = base_path ++ (codes "data" ∷ []) in
      elim (Option-cases created) [
        | inr (text, c) ↦ cc (rw (c, new) at h)
        | inl c ↦ elim (Result-cases (prepare fs path n)) [
          | inr (e, q) ↦ cc (rw (c, q, new) at h)
          | inl (file, q) ↦
              let made : DiskIo = record {
                base_path = base_path;
                file_details = single_file n;
                piece_length = piece_length;
                files = file ∷ [];
                total_size = n;
              } in
              let same : made ≡ d = cc (rw (c, q, new) at h) in
              subst
                (λ (x : DiskIo).
                  (f : Bytes) × IsSingle x f
                  × (x.piece_length ≡ piece_length)
                  × (x.total_size ≡ n)
                  × (length f ≡ n))
                same (file, (n, refl, refl), refl, refl, prepare-length path n file law q)
        ]
      ]
