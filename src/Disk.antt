-- ===== src/Disk.antt =====
-- src/core/disk_io.rs: the files of a torrent, and the pieces written to and read from them.
-- A file is its content, and `files` are the contents of the open files in order. A method returns
-- the contents after it with its error, or `none` for `Ok(())`. The locks and the awaits are left out:
-- one call runs to its end.
pub mod WriteAt
pub mod Single
pub mod Multi
pub mod Misplaced
pub mod Within
pub mod Whole
pub mod Created
pub mod Store
use Prim.Native.String.{String}
use motte_seed.Prelude.{
  all, not, Bool, ℕ, ◌+◌, ◌-◌, ◌*◌, ◌%◌, ◌^◌, ◌≡◌, ◌≤◌, ◌<◌, min, Option, none, some, List, [], ◌∷◌,
  ◌++◌, Result, ok, err, ltb, leb, ◌==◌, if◌then◌else◌, length, get_or, set, take, drop, replicate,
}
use motte_seed.Prelude.Text.{codes}
use motte_seed.Bytes.{Bytes}
use motte_seed.Torrent.{FileEntry, FileDetails, single_file, multi_file}

pub data DiskError : Type 0 where
  io_error : String → DiskError
  path_error : String → DiskError
  -- The text names the piece index.
  invalid_piece : ℕ → DiskError
  other : String → DiskError

-- The content with bytes at an offset: a gap behind the old end reads as zeros.
abbrev pub put_at : Bytes → ℕ → Bytes → Bytes
put_at file offset bytes =
    take offset (file ++ replicate (offset - length file) 0)
    ++ (bytes ++ drop (offset + length bytes) file)

-- The content after a write at an offset. Writing nothing changes nothing, also behind the end.
abbrev pub write_at : Bytes → ℕ → Bytes → Bytes
write_at file offset [] = file
write_at file offset (b ∷ bytes) = put_at file offset (b ∷ bytes)

-- The file operations of the standard library with their documented effect: a seek with
-- `write_all`, a seek with `read_exact`, and what an error leaves behind is not known.
pub record FileSystem : Type 0 where
  -- The content of the file that `open` with `create` finds or makes under a path, with the
  -- directories made before it.
  pub open_file : List Bytes → Result Bytes String
  pub set_len : Bytes → ℕ → Result Bytes String
  pub write_all : Bytes → ℕ → Bytes → Bytes × Option String
  pub read_exact : Bytes → ℕ → ℕ → Result Bytes String
  pub write_all_lem :
      (file : Bytes) (offset : ℕ) (bytes : Bytes)
      → (write_all file offset bytes).1 ≡ none
      → (write_all file offset bytes).0 ≡ write_at file offset bytes
  pub read_exact_lem :
      (file : Bytes) (offset n : ℕ) (bytes : Bytes)
      → read_exact file offset n ≡ ok bytes
      → (0 < n → offset + n ≤ length file) × (bytes ≡ take n (drop offset file))

pub record DiskIo : Type 0 where
  pub base_path : List Bytes
  pub file_details : FileDetails
  pub piece_length : ℕ
  pub files : List Bytes
  pub total_size : ℕ

-- `piece_index * self.piece_length` on u32
abbrev pub piece_offset : ℕ → ℕ → ℕ
piece_offset piece_length piece_index = piece_index * piece_length % 2 ^ 32

unfoldable pub piece_size : DiskIo → ℕ → ℕ
piece_size d piece_index =
    if ltb d.total_size (piece_offset d.piece_length ((piece_index + 1) % 2 ^ 32))
    then d.total_size - piece_offset d.piece_length piece_index
    else d.piece_length

-- `a - b` on u64
abbrev pub sub64 : ℕ → ℕ → ℕ
sub64 a b = (a + 2 ^ 64 - b) % 2 ^ 64

-- The first file that ends behind the offset, from `file_index` on, and where it starts.
unfoldable pub locate : List FileEntry → ℕ → ℕ → ℕ → ℕ × ℕ
locate [] offset current file_index = (file_index, current)
locate (e ∷ es) offset current file_index =
    let next = (current + e.length) % 2 ^ 64 in
    if ltb offset next then (file_index, current) else locate es offset next (file_index + 1)

module _ (fs : FileSystem) where
  open fs use {open_file, set_len, write_all, read_exact}

  -- The second loop of the two methods, over the file entries that are left.
  unfoldable pub write_files :
      List FileEntry → ℕ → ℕ → ℕ → Bytes → List Bytes → List Bytes × Option DiskError
  write_files [] offset file_index file_offset bytes files = (files, none)
  write_files (e ∷ es) offset file_index file_offset bytes files =
      let n = min (length bytes) (sub64 e.length file_offset) in
      let (file, error) = write_all (get_or files file_index []) offset (take n bytes) in
      let written = set files file_index file in
      let rest = write_files es offset (file_index + 1) 0 (drop n bytes) written in
      if length bytes == 0
      then (files, none)
      else elim error [ some text ↦ (written, some (io_error text)) | none ↦ rest ]

  unfoldable pub read_files : List FileEntry → ℕ → ℕ → ℕ → List Bytes → Result Bytes DiskError
  read_files [] file_index file_offset remaining files = ok (replicate remaining 0)
  read_files (e ∷ es) file_index file_offset remaining files =
      let n = min remaining (sub64 e.length file_offset) in
      let rest = read_files es (file_index + 1) 0 (remaining - n) files in
      if remaining == 0
      then ok []
      else elim (read_exact (get_or files file_index []) file_offset n) [
        | err text ↦ err (io_error text)
        | ok bytes ↦ elim rest [ err e ↦ err e | ok more ↦ ok (bytes ++ more) ]
      ]

  unfoldable pub write_multi_file_piece :
      DiskIo → ℕ → Bytes → List FileEntry → List Bytes × Option DiskError
  write_multi_file_piece d piece_index bytes entries =
      let offset = piece_offset d.piece_length piece_index in
      let (file_index, current) = locate entries offset 0 0 in
      if leb (length entries) file_index
      then (d.files, some (invalid_piece piece_index))
      else write_files (drop file_index entries) offset file_index (sub64 offset current) bytes
          d.files

  unfoldable pub read_multi_file_piece : DiskIo → ℕ → ℕ → List FileEntry → Result Bytes DiskError
  read_multi_file_piece d piece_index size entries =
      let offset = piece_offset d.piece_length piece_index in
      let (file_index, current) = locate entries offset 0 0 in
      if leb (length entries) file_index
      then err (invalid_piece piece_index)
      else read_files (drop file_index entries) file_index (sub64 offset current) size d.files

  write_single : DiskIo → ℕ → Bytes → List Bytes × Option DiskError
  write_single d offset bytes =
      let (file, error) = write_all (get_or d.files 0 []) offset bytes in
      (set d.files 0 file, elim error [ some text ↦ some (io_error text) | none ↦ none ])

  unfoldable pub write_piece : DiskIo → ℕ → Bytes → List Bytes × Option DiskError
  unfolding write_single
  write_piece d piece_index bytes =
      let offset = piece_offset d.piece_length piece_index in
      if leb d.total_size offset
      then (d.files, some (invalid_piece piece_index))
      else elim d.file_details [
        | single_file _ ↦ write_single d offset bytes
        | multi_file entries ↦ write_multi_file_piece d piece_index bytes entries
      ]

  read_single : DiskIo → ℕ → ℕ → Result Bytes DiskError
  read_single d offset size = elim (read_exact (get_or d.files 0 []) offset size) [
    | err text ↦ err (io_error text)
    | ok bytes ↦ ok bytes
  ]

  unfoldable pub read_piece : DiskIo → ℕ → Result Bytes DiskError
  unfolding read_single
  read_piece d piece_index =
      let offset = piece_offset d.piece_length piece_index in
      if leb d.total_size offset then err (invalid_piece piece_index) else elim d.file_details [
        | single_file _ ↦ read_single d offset (piece_size d piece_index)
        | multi_file entries ↦
            read_multi_file_piece d piece_index (piece_size d piece_index) entries
      ]

  -- The file under a path, with its length set.
  prepare : List Bytes → ℕ → Result Bytes DiskError
  prepare path n = elim (open_file path) [
    | err text ↦ err (io_error text)
    | ok file ↦ elim (set_len file n) [ err text ↦ err (io_error text) | ok sized ↦ ok sized ]
  ]

  -- The loop over the files of a torrent with several.
  prepare_files : (Bytes → Bool) → List Bytes → List FileEntry → Result (List Bytes × ℕ) DiskError
  unfolding prepare
  prepare_files is_utf8 base_path [] = ok ([], 0)
  prepare_files is_utf8 base_path (e ∷ es) =
      let rest = prepare_files is_utf8 base_path es in
      if not (all is_utf8 e.path)
      then err (path_error "Invalid UTF-8 in path")
      else elim (prepare (base_path ++ e.path) e.length) [
        | err error ↦ err error
        | ok file ↦ elim rest [
          | err error ↦ err error
          | ok (files, total) ↦ ok (file ∷ files, (e.length + total) % 2 ^ 64)
        ]
      ]

  -- `is_utf8` is the test of `from_utf8`, and `created` the result of `create_dir_all` for the base.
  unfoldable pub new :
      (Bytes → Bool) → Option String → List Bytes → FileDetails → ℕ → Result DiskIo DiskError
  unfolding prepare_files
  new is_utf8 created base_path file_details piece_length =
      let build = λ (opened : List Bytes × ℕ). ok (record {
        base_path = base_path;
        file_details = file_details;
        piece_length = piece_length;
        files = opened.0;
        total_size = opened.1;
      }) in
      elim created [
        | some text ↦ err (io_error text)
        | none ↦ elim file_details [
          | single_file n ↦ elim (prepare (base_path ++ (codes "data" ∷ [])) n) [
            | err error ↦ err error
            | ok file ↦ build (file ∷ [], n)
          ]
          | multi_file entries ↦ elim (prepare_files is_utf8 base_path entries) [
            | err error ↦ err error
            | ok opened ↦ build opened
          ]
        ]
      ]
