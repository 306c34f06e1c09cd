-- ===== src/Tests/Disks.antt =====
-- The theorems about the disk at concrete inputs, with files that never fail.
use Prim.Native.String.{String}
use motte_seed.Prelude.{
  ◌||◌, ◌==◌, ◌<◌, ℕ, ◌≡◌, ◌+◌, ◌≤◌, refl, [], ◌∷◌, List, ok, err, none, Result, arith, leb,
  if◌then◌else◌, length, take, drop,
}
use motte_seed.Prelude.{◌++◌, replicate, length-take, length-append, length-replicate, ap}
use motte_seed.Disk.Created.{SetsLength}
use motte_seed.Bytes.{Bytes}
use motte_seed.Torrent.{FileEntry, single_file, multi_file}
use motte_seed.Disk.{
  DiskIo, FileSystem, write_at, write_piece, read_piece, piece_size, read_multi_file_piece,
  read_files, locate, write_multi_file_piece, write_files,
}
use motte_seed.Disk.Within.{write_multi_file_piece-within}
use motte_seed.Disk.Multi.{read_multi_file_piece_lem}

abbrev pub read_memory : Bytes → ℕ → ℕ → Result Bytes String
read_memory file offset n =
    if leb (offset + n) (length file) || (n == 0) then ok (take n (drop offset file)) else err "eof"

pub read_memory_lem :
    (file : Bytes) (offset n : ℕ) (bytes : Bytes)
    → read_memory file offset n ≡ ok bytes
    → (0 < n → offset + n ≤ length file) × (bytes ≡ take n (drop offset file))
read_memory_lem file offset n bytes h = ((λ pos. ground arith), ground arith)

abbrev pub memory : FileSystem
memory = record {
  open_file = λ path. ok [];
  set_len = λ file n. ok (take n (file ++ replicate n 0));
  write_all = λ file offset bytes. (write_at file offset bytes, none);
  read_exact = read_memory;
  write_all_lem = λ file offset bytes e. refl;
  read_exact_lem = read_memory_lem;
}

pub memory-SetsLength : SetsLength memory
memory-SetsLength file n sized h =
    let same : take n (file ++ replicate n 0) ≡ sized = cc h in
    omega (
      arith,
      ap length same,
      length-take n (file ++ replicate n 0),
      length-append file (replicate n 0),
      length-replicate {A = ℕ} n 0,
    )

abbrev pub disk_of : Bytes → DiskIo
disk_of file = record {
  base_path = [];
  file_details = single_file 4;
  piece_length = 2;
  files = file ∷ [];
  total_size = 4;
}

abbrev pub empty_disk : DiskIo
empty_disk = disk_of (0 ∷ 0 ∷ 0 ∷ 0 ∷ [])

writes_second : write_piece memory empty_disk 1 (5 ∷ 6 ∷ []) ≡ ((0 ∷ 0 ∷ 5 ∷ 6 ∷ []) ∷ [], none)
unfolding write_piece
writes_second = refl

reads_second : read_piece memory (disk_of (0 ∷ 0 ∷ 5 ∷ 6 ∷ [])) 1 ≡ ok (5 ∷ 6 ∷ [])
unfolding read_piece piece_size
reads_second = refl

size_second : 2 ≡ piece_size empty_disk 1
unfolding piece_size
size_second = refl

reads_first : (file : Bytes) → read_piece memory (disk_of (1 ∷ 2 ∷ file)) 0 ≡ ok (1 ∷ 2 ∷ [])
unfolding read_piece piece_size
reads_first file = ground arith

writes_behind :
    write_piece memory (disk_of (1 ∷ 2 ∷ 0 ∷ 0 ∷ [])) 1 (5 ∷ 6 ∷ [])
    ≡ ((1 ∷ 2 ∷ 5 ∷ 6 ∷ []) ∷ [], none)
unfolding write_piece
writes_behind = refl

abbrev entries : List FileEntry
entries = record { length = 3; path = [] } ∷ record { length = 2; path = [] } ∷ []

abbrev two_files : DiskIo
two_files = record {
  base_path = [];
  file_details = multi_file entries;
  piece_length = 2;
  files = (1 ∷ 2 ∷ 3 ∷ []) ∷ (4 ∷ 5 ∷ []) ∷ [];
  total_size = 5;
}

reads_across : read_multi_file_piece memory two_files 1 2 entries ≡ ok (3 ∷ 4 ∷ [])
unfolding read_multi_file_piece locate read_files
reads_across = refl

read_multi_file_piece_lem_example :
    ◌≡◌ {A = Bytes} (3 ∷ 4 ∷ []) (take 2 (drop 2 (1 ∷ 2 ∷ 3 ∷ 4 ∷ 5 ∷ [])))
read_multi_file_piece_lem_example =
    read_multi_file_piece_lem memory two_files entries 1 2 (3 ∷ 4 ∷ []) (refl, (refl, tt))
      (omega arith) (omega arith) (omega arith) reads_across

abbrev two_empty : DiskIo
two_empty = record two_files { files = (1 ∷ 2 ∷ 3 ∷ []) ∷ (0 ∷ 0 ∷ []) ∷ [] }

-- The fourth byte of the torrent comes to the fourth place of the second file.
misplaces :
    write_multi_file_piece memory (record two_empty { piece_length = 3 }) 1 (9 ∷ []) entries
    ≡ ((1 ∷ 2 ∷ 3 ∷ []) ∷ (0 ∷ 0 ∷ 0 ∷ 9 ∷ []) ∷ [], none)
unfolding write_multi_file_piece locate write_files
misplaces = refl

write_multi_file_piece-within_example :
    ◌≡◌ {A = List Bytes}
      ((1 ∷ 2 ∷ 3 ∷ []) ∷ (0 ∷ 0 ∷ 0 ∷ 9 ∷ []) ∷ [])
      ((1 ∷ 2 ∷ 3 ∷ []) ∷ write_at (0 ∷ 0 ∷ []) 3 (9 ∷ []) ∷ [])
write_multi_file_piece-within_example =
    write_multi_file_piece-within memory (record two_empty { piece_length = 3 }) entries 1 (9 ∷ [])
      ((1 ∷ 2 ∷ 3 ∷ []) ∷ (0 ∷ 0 ∷ 0 ∷ 9 ∷ []) ∷ []) 1 (refl, (refl, tt)) (omega arith)
      (omega arith) (omega arith) (omega arith) (omega arith) misplaces
