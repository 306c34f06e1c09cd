-- ===== src/Tests/Writers.antt =====
-- A torrent of two files, written and read back over concrete values.

use motte_seed.Prelude.{arith, ℕ, ◌≡◌, refl, ap, none, some, List, [], ◌∷◌, ok}
use motte_seed.Prelude.Int.{pos}
use motte_seed.Prelude.Text.{codes}
use motte_seed.Bytes.{Bytes}
use motte_seed.Util.Bencode.{Crate, View, number, byte_string, list, dict, find}
use motte_seed.Torrent.{from_file, multi_file, Torrent}
use motte_seed.Torrent.Written.{encode_torrent, Writer}
use motte_seed.Torrent.ReadBack.{from_file-encode_torrent}
use motte_seed.Tests.Torrents.{digest, hashes}

mutual
  data Value : Type 0 where
    a_number : ℕ → Value
    a_string : Bytes → Value
    a_list : Values → Value
    a_dict : Fields → Value

  data Values : Type 0 where
    no_value : Values
    one_value : Value → Values → Values

  data Fields : Type 0 where
    no_field : Fields
    one_field : Bytes → Value → Fields → Fields

abbrev elements : Values → List Value
elements no_value = []
elements (one_value v vs) = v ∷ elements vs

abbrev gathered : List Value → Values
gathered [] = no_value
gathered (v ∷ vs) = one_value v (gathered vs)

elements-gathered : (vs : List Value) → elements (gathered vs) ≡ vs
elements-gathered [] = refl
elements-gathered (v ∷ vs) = ap (λ l. v ∷ l) (elements-gathered vs)

abbrev entries_of : Fields → List (Bytes × Value)
entries_of no_field = []
entries_of (one_field k v fs) = (k, v) ∷ entries_of fs

abbrev shape : Value → View Value
shape (a_number n) = number (pos n)
shape (a_string bytes) = byte_string bytes
shape (a_list vs) = list (elements vs)
shape (a_dict fs) = dict (entries_of fs)

abbrev two_files : Torrent
two_files = record {
  announce = codes "udp://t:80";
  info = record {
    name = "dir";
    piece_length = 16;
    raw_pieces = hashes;
    file_details = multi_file (
        record { length = 10; path = codes "a" ∷ [] }
        ∷ record { length = 6; path = codes "b" ∷ codes "c" ∷ [] }
        ∷ []);
    private = some 1;
    source = none;
  };
  info_hash = 5 ∷ [];
  comment = none;
  created_by = some (codes "me");
  creation_date = some 7;
  encoding = none;
  announce_list = some ((codes "udp://t:80" ∷ []) ∷ [] ∷ []);
}

-- A value is written as 5, and any bytes are read as the value that is given.
module _ (value : Value) where
  abbrev over : Crate
  over = record {
    Bencode = Value;
    view = shape;
    to_bytes = λ v. ok (5 ∷ []);
    from_buffer = λ bytes. ok value;
  }

  abbrev writes : Writer over
  writes = record {
    Map = Fields;
    new_map = no_field;
    insert = λ m k v. one_field k v m;
    entries = entries_of;
    of_map = a_dict;
    of_list = λ l. a_list (gathered l);
    of_bytes = a_string;
    of_number = a_number;
    map_is = λ m. refl;
    list_is = λ l. ap list (elements-gathered l);
    bytes_is = λ bytes. refl;
    number_is = λ n h. refl;
    find-new = λ j. unfold find in refl;
    find-insert = λ m k v j. unfold find in refl;
  }

abbrev written_value : Value
written_value = encode_torrent (writes (a_number 0)) (codes "dir") two_files

from_file-encode_torrent_example :
    from_file (over written_value) digest (λ bytes. "dir") (ok (1 ∷ [])) ≡ ok two_files
from_file-encode_torrent_example =
    from_file-encode_torrent (writes written_value) digest (λ bytes. "dir") (codes "dir") (5 ∷ [])
      (1 ∷ []) two_files refl refl (omega arith) (omega arith, (omega arith, tt)) (omega arith)
      (omega arith) refl refl refl
