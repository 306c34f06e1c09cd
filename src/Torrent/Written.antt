-- ===== src/Torrent/Written.antt =====
-- The file of a torrent, as BEP 3 describes it, written from the values that src/core/torrent/torrent.rs
-- reads: the inverse that the decoders are held against.

use motte_seed.Prelude.{ℕ, ◌^◌, ◌<◌, ◌≡◌, Option, none, some, List, [], ◌∷◌, if◌then◌else◌, All}
use motte_seed.Prelude.Int.{pos}
use motte_seed.Prelude.Text.{codes}
use motte_seed.Bytes.{Bytes, bytes_eq}
use motte_seed.Util.Bencode.{Crate, number, byte_string, list, dict, find}
use motte_seed.Torrent.{FileEntry, FileDetails, single_file, multi_file, Info, Torrent}
use mathlib.Core.Option
use mathlib.Core.List

-- How values of the `bencode` crate are made: its variants, with the maps of `BTreeMap::new` and
-- `BTreeMap::insert`.
pub record Writer (crate : Crate) : Type 1 where
  pub Map : Type 0
  pub new_map : Map
  pub insert : Map → Bytes → crate.Bencode → Map
  pub entries : Map → List (Bytes × crate.Bencode)
  pub of_map : Map → crate.Bencode
  pub of_list : List crate.Bencode → crate.Bencode
  pub of_bytes : Bytes → crate.Bencode
  pub of_number : ℕ → crate.Bencode
  pub map_is : (m : Map) → crate.view (of_map m) ≡ dict (entries m)
  pub list_is : (l : List crate.Bencode) → crate.view (of_list l) ≡ list l
  pub bytes_is : (bytes : Bytes) → crate.view (of_bytes bytes) ≡ byte_string bytes
  pub number_is : (n : ℕ) → n < 2 ^ 63 → crate.view (of_number n) ≡ number (pos n)
  pub find-new : (j : Bytes) → find (entries new_map) j ≡ none
  pub find-insert :
      (m : Map) (k : Bytes) (v : crate.Bencode) (j : Bytes)
      → find (entries (insert m k v)) j ≡ (if bytes_eq k j then some v else find (entries m) j)

module _ {crate : Crate} (w : Writer crate) where
  -- The map of the fields that are there.
  abbrev pub built : List (Bytes × Option crate.Bencode) → w.Map
  built [] = w.new_map
  built ((k, none) ∷ fields) = built fields
  built ((k, some v) ∷ fields) = w.insert (built fields) k v

  abbrev pub encode_strings : List Bytes → crate.Bencode
  encode_strings strings = w.of_list (List.map w.of_bytes strings)

  abbrev pub encode_file : FileEntry → crate.Bencode
  encode_file f = w.of_map (
      built (
        (codes "length", some (w.of_number f.length))
        ∷ (codes "path", some (encode_strings f.path))
        ∷ []))

  abbrev pub details_fields : FileDetails → List (Bytes × Option crate.Bencode)
  details_fields (single_file n) = (codes "length", some (w.of_number n)) ∷ []
  details_fields (multi_file files) =
      (codes "files", some (w.of_list (List.map encode_file files))) ∷ []

  -- The name's bytes are given, since the program keeps it as text.
  abbrev pub info_fields : Bytes → Info → List (Bytes × Option crate.Bencode)
  info_fields name info =
      (codes "name", some (w.of_bytes name))
      ∷ (codes "piece length", some (w.of_number info.piece_length))
      ∷ (codes "pieces", some (w.of_bytes info.raw_pieces))
      ∷ (codes "private", Option.map w.of_number info.private)
      ∷ (codes "source", Option.map w.of_bytes info.source)
      ∷ details_fields info.file_details

  abbrev pub encode_info : Bytes → Info → crate.Bencode
  encode_info name info = w.of_map (built (info_fields name info))

  abbrev pub torrent_fields : Bytes → Torrent → List (Bytes × Option crate.Bencode)
  torrent_fields name t =
      (codes "announce", some (w.of_bytes t.announce))
      ∷ (
        codes "announce-list",
        Option.map (λ tiers. w.of_list (List.map encode_strings tiers)) t.announce_list,
      )
      ∷ (codes "comment", Option.map w.of_bytes t.comment)
      ∷ (codes "created by", Option.map w.of_bytes t.created_by)
      ∷ (codes "creation date", Option.map w.of_number t.creation_date)
      ∷ (codes "encoding", Option.map w.of_bytes t.encoding)
      ∷ (codes "info", some (encode_info name t.info))
      ∷ []

  abbrev pub encode_torrent : Bytes → Torrent → crate.Bencode
  encode_torrent name t = w.of_map (built (torrent_fields name t))

-- Numbers are those of an `i64`.
abbrev pub IsNumber : Option ℕ → Type 0
IsNumber none = Unit {0}
IsNumber (some n) = n < 2 ^ 63

abbrev pub IsMeasured : FileDetails → Type 0
IsMeasured (single_file n) = n < 2 ^ 63
IsMeasured (multi_file files) = All (λ (f : FileEntry). f.length < 2 ^ 63) files
