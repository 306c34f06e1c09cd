-- ===== src/Torrent.antt =====
-- src/core/torrent/torrent.rs: the metadata of a torrent, decoded from bencode.
-- `sha1` and `lossy` are the digest of the `sha1` crate and `String::from_utf8_lossy`.
pub mod Hashes
pub mod Decoding
pub mod Written
pub mod Fields
pub mod ReadBack
use Prim.Native.String.{String}
use motte_seed.Prelude.{
  ◌^◌, Result, ℕ, ◌+◌, ◌*◌, ◌%◌, Option, none, some, List, [], ◌∷◌, ok, err, ◌>>=◌, map_err, not,
  leb, ◌==◌, if◌then◌else◌, length, take, drop,
}
use motte_seed.Prelude.Text.{codes}
use motte_seed.Bytes.{Bytes}
use motte_seed.Util.Bencode.{
  BencodeDecodableError, Crate, Decoded, other, get_u64, get_str, get_string, get_struct, get_list,
  get_struct_value, get_struct_value_from_bytestring,
}

pub record FileEntry : Type 0 where
  pub length : ℕ
  pub path : List Bytes

pub data FileDetails : Type 0 where
  single_file : ℕ → FileDetails
  multi_file : List FileEntry → FileDetails

pub record Info : Type 0 where
  pub name : String
  pub piece_length : ℕ
  pub raw_pieces : Bytes
  pub file_details : FileDetails
  pub private : Option ℕ
  pub source : Option Bytes

pub record Torrent : Type 0 where
  pub announce : Bytes
  pub info : Info
  pub info_hash : Bytes
  pub comment : Option Bytes
  pub created_by : Option Bytes
  pub creation_date : Option ℕ
  pub encoding : Option Bytes
  pub announce_list : Option (List (List Bytes))

-- On `usize` the product and the sum wrap in a release build. A slice of 20 bytes is always an array
-- of 20. If only the sum wraps, the slice ends before it starts, and the code panics if the end is in
-- range: the model has `none` there.
unfoldable pub piece_hash : Info → ℕ → Option Bytes
piece_hash info index =
    let start = index * 20 % 2 ^ 64 in
    let end = (start + 20) % 2 ^ 64 in
    if leb end (length info.raw_pieces)
    then (if leb start end then some (take 20 (drop start info.raw_pieces)) else none)
    else none

-- `.ok()`
abbrev pub to_option {ℓ} : {A : Type ℓ} → Decoded A → Option A
to_option (ok a) = some a
to_option (err e) = none

abbrev pub length_key : Bytes
length_key = codes "length"

abbrev pub path_key : Bytes
path_key = codes "path"

module _ (crate : Crate) where
  open crate use {Bencode, view, to_bytes, from_buffer}

  unfoldable pub decode_path : List Bencode → Decoded (List Bytes)
  decode_path [] = ok []
  decode_path (item ∷ items) = do
    component ← get_str crate item
    rest ← decode_path items
    ok (component ∷ rest)

  unfoldable pub decode_file_entry : Bencode → Decoded FileEntry
  unfolding decode_path
  decode_file_entry b = do
    dict ← get_struct crate b
    length_value ← get_struct_value_from_bytestring length_key dict
    length ← get_u64 crate length_value
    path_value ← get_struct_value_from_bytestring path_key dict
    path_list ← get_list crate path_value
    path ← decode_path path_list
    ok (record { length = length; path = path })

  unfoldable pub decode_files : List Bencode → Decoded (List FileEntry)
  decode_files [] = ok []
  decode_files (item ∷ items) = do
    file ← decode_file_entry item
    rest ← decode_files items
    ok (file ∷ rest)

  -- A `length` key, whatever its value, makes it a torrent of one file.
  unfoldable pub decode_file_details : List (Bytes × Bencode) → Decoded FileDetails
  decode_file_details dict = elim (get_struct_value "length" dict) [
    | ok value ↦ (do length ← get_u64 crate value; ok (single_file length))
    | err _ ↦ (do
      value ← get_struct_value "files" dict
      file_list ← get_list crate value
      files ← decode_files file_list
      ok (multi_file files))
  ]

  abbrev optional {ℓ} :
      {A : Type ℓ} → String → (Bencode → Decoded A) → List (Bytes × Bencode) → Option A
  optional key read dict = to_option (get_struct_value key dict >>= read)

  unfoldable pub decode_info : (Bytes → String) → Bencode → Decoded Info
  decode_info lossy b = do
    dict ← get_struct crate b
    name_value ← get_struct_value "name" dict
    name ← get_string crate lossy name_value
    piece_length_value ← get_struct_value "piece length" dict
    piece_length ← get_u64 crate piece_length_value
    pieces_value ← get_struct_value "pieces" dict
    raw_pieces ← get_str crate pieces_value
    if not (length raw_pieces % 20 == 0) then err (other "Invalid pieces length") else do
      file_details ← decode_file_details dict
      ok (record {
        name = name;
        piece_length = piece_length;
        raw_pieces = raw_pieces;
        file_details = file_details;
        private = optional "private" (get_u64 crate) dict;
        source = optional "source" (get_str crate) dict;
      })

  -- `filter_map` with `.ok()`.
  filter_ok {ℓ} : {A : Type ℓ} → (Bencode → Decoded A) → List Bencode → List A
  filter_ok read [] = []
  filter_ok read (item ∷ items) =
      let rest = filter_ok read items in elim (read item) [ ok a ↦ a ∷ rest | err _ ↦ rest ]

  decode_tier : Bencode → Decoded (List Bytes)
  unfolding filter_ok
  decode_tier b = do urls ← get_list crate b; ok (filter_ok (get_str crate) urls)

  unfoldable pub decode_tiers : Bencode → Decoded (List (List Bytes))
  unfolding filter_ok decode_tier
  decode_tiers b = do tiers ← get_list crate b; ok (filter_ok decode_tier tiers)

  unfoldable pub decode_torrent : (Bytes → Bytes) → (Bytes → String) → Bencode → Decoded Torrent
  unfolding decode_tiers
  decode_torrent sha1 lossy b = do
    dict ← get_struct crate b
    announce_value ← get_struct_value "announce" dict
    announce ← get_str crate announce_value
    info_dict ← get_struct_value "info" dict
    info ← decode_info lossy info_dict
    info_bytes ← map_err other (to_bytes info_dict)
    ok (record {
      announce = announce;
      info = info;
      info_hash = sha1 info_bytes;
      comment = optional "comment" (get_str crate) dict;
      created_by = optional "created by" (get_str crate) dict;
      creation_date = optional "creation date" (get_u64 crate) dict;
      encoding = optional "encoding" (get_str crate) dict;
      announce_list = optional "announce-list" decode_tiers dict;
    })

pub data ReadTorrentError : Type 0 where
  streaming : String → ReadTorrentError
  bencode_decodable : BencodeDecodableError → ReadTorrentError
  io : String → ReadTorrentError

module _ (crate : Crate) (sha1 : Bytes → Bytes) (lossy : Bytes → String) where
  open crate use {from_buffer}

  unfoldable pub from_bytes : Bytes → Result Torrent ReadTorrentError
  from_bytes bytes = do
    bencode ← map_err streaming (from_buffer bytes)
    map_err bencode_decodable (decode_torrent crate sha1 lossy bencode)

  -- `content` is what `fs::read` returns.
  unfoldable pub from_file : Result Bytes String → Result Torrent ReadTorrentError
  unfolding from_bytes
  from_file content = do bytes ← map_err io content; from_bytes bytes
