-- ===== src/Tests/Torrents.antt =====
-- The theorems about the metadata at concrete inputs.
use Prim.Native.String.{String}
use motte_seed.Prelude.{
  ◌+◌, arith, ◌^◌, get_or, ℕ, ◌≡◌, ◌≤◌, ◌<◌, ◌/◌, refl, List, [], ◌∷◌, ok, none, some, length,
  replicate, take,
}
use motte_seed.Prelude.Int.{pos}
use motte_seed.Prelude.Text.{codes}
use motte_seed.Bytes.{Bytes, bytes_eq}
use motte_seed.Util.Bencode.{
  Crate, View, number, byte_string, dict, find, get_u64, get_str, get_struct, get_string,
  get_struct_value,
}
use motte_seed.Torrent.{
  Info, Torrent, single_file, piece_hash, decode_info, decode_torrent, decode_file_details,
}
use motte_seed.Torrent.Hashes.{join_hashes, piece_hash_iff, join_hashes-raw_pieces}
use motte_seed.Torrent.Decoding.{decode_torrent-info}

abbrev pub hashes : Bytes
hashes = replicate 20 3

abbrev info_dict : List (Bytes × ℕ)
info_dict =
    (codes "length", 4) ∷ (codes "name", 1) ∷ (codes "piece length", 4) ∷ (codes "pieces", 3) ∷ []

abbrev torrent_dict : List (Bytes × ℕ)
torrent_dict = (codes "announce", 1) ∷ (codes "info", 2) ∷ []

-- Two peers.
abbrev pub peers_bytes : Bytes
peers_bytes = 10 ∷ 0 ∷ 0 ∷ 1 ∷ 4 ∷ 5 ∷ 10 ∷ 0 ∷ 0 ∷ 2 ∷ 4 ∷ 5 ∷ []

abbrev pub answer_dict : List (Bytes × ℕ)
answer_dict = (codes "interval", 4) ∷ (codes "peers", 7) ∷ []

-- Values are numbers: 0 the torrent, 2 its info, 5 an empty dictionary, 6 the answer of a tracker.
abbrev pub node : ℕ → View ℕ
node n =
    get_or
      (dict torrent_dict
        ∷ byte_string (104 ∷ [])
        ∷ dict info_dict
        ∷ byte_string hashes
        ∷ number (pos 16)
        ∷ dict []
        ∷ dict answer_dict
        ∷ byte_string peers_bytes
        ∷ [])
      n (dict [])

-- The torrent's file is empty here.
abbrev pub crate : Crate
crate = record {
  Bencode = ℕ;
  view = node;
  to_bytes = λ v. ok (v ∷ []);
  from_buffer = λ bytes. elim bytes [ [] ↦ ok 0 | _ ∷ _ ↦ ok 6 ];
}

abbrev pub lossy : Bytes → String
lossy bytes = "name"

abbrev pub digest : Bytes → Bytes
digest bytes = take 1 bytes

abbrev pub an_info : Info
an_info = record {
  name = "name";
  piece_length = 16;
  raw_pieces = hashes;
  file_details = single_file 16;
  private = none;
  source = none;
}

abbrev pub a_torrent : Torrent
a_torrent = record {
  announce = 104 ∷ [];
  info = an_info;
  info_hash = 2 ∷ [];
  comment = none;
  created_by = none;
  creation_date = none;
  encoding = none;
  announce_list = none;
}

decodes_info : decode_info crate lossy 2 ≡ ok an_info
unfolding decode_info decode_file_details get_struct get_struct_value get_u64 get_str get_string
    find bytes_eq
decodes_info = refl

decodes_torrent : decode_torrent crate digest lossy 0 ≡ ok a_torrent
unfolding decode_torrent decode_info decode_file_details get_struct get_struct_value get_u64 get_str
    get_string find bytes_eq
decodes_torrent = refl

decode_torrent-info_example :
    (m : List (Bytes × ℕ)) × (v : ℕ) × (bytes : Bytes) × (node 0 ≡ dict m)
    × (find m (codes "info") ≡ some v)
    × (decode_info crate lossy v ≡ ok an_info)
    × (crate.to_bytes v ≡ ok bytes)
    × (2 ∷ [] ≡ digest bytes)
decode_torrent-info_example = decode_torrent-info crate digest lossy 0 a_torrent decodes_torrent

piece_hash_iff_example :
    ((hash : Bytes)
      → piece_hash an_info 0 ≡ some hash
      → (0 < length hashes / 20) × (length hash ≡ 20))
    × (piece_hash an_info 0 ≡ none → length hashes / 20 ≤ 0)
    × (piece_hash an_info (0 + 2 ^ 62) ≡ piece_hash an_info 0)
piece_hash_iff_example = piece_hash_iff an_info 0 (omega arith)

join_hashes-raw_pieces_example : join_hashes an_info 0 (length hashes / 20) ≡ hashes
join_hashes-raw_pieces_example = join_hashes-raw_pieces an_info (omega arith) refl
