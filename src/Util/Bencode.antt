-- ===== src/Util/Bencode.antt =====
-- src/util/bencode/bencode_decodable.rs: the accessors that every decoder uses.
-- The values are those of the `bencode` crate, a parameter: `view` is what a `match` on a value sees.
use Prim.Native.String.{String}
use motte_seed.Prelude.{
  arith, ◌≡◌, ℕ, Option, none, some, List, [], ◌∷◌, Result, ok, err, ◌>>=◌, if◌then◌else◌,
}
use motte_seed.Prelude.Int.{ℤ, pos}
use motte_seed.Prelude.Text.{codes}
use motte_seed.Bytes.{Bytes, bytes_eq}

pub data BencodeDecodableError : Type 0 where
  key_not_found : Bytes → BencodeDecodableError
  wrong_type : String → BencodeDecodableError
  other : String → BencodeDecodableError

-- The variants that the code matches on. A `BTreeMap` is the list of its entries.
pub data View (V : Type 0) : Type 0 where
  number : ℤ → View V
  byte_string : Bytes → View V
  list : List V → View V
  dict : List (Bytes × V) → View V
  empty : View V

pub record Crate : Type 1 where
  pub Bencode : Type 0
  pub view : Bencode → View Bencode
  -- `to_bytes`, with the error as text.
  pub to_bytes : Bencode → Result Bytes String
  -- `from_buffer`, with the error of the streaming parser as text.
  pub from_buffer : Bytes → Result Bencode String

abbrev pub Decoded {ℓ} : Type ℓ → Type ℓ
Decoded A = Result A BencodeDecodableError

module _ {V : Type 0} where
  -- `BTreeMap::get`
  unfoldable pub find : List (Bytes × V) → Bytes → Option V
  find [] key = none
  find ((k, v) ∷ m) key = if bytes_eq k key then some v else find m key

  unfoldable pub get_struct_value_from_bytestring : Bytes → List (Bytes × V) → Decoded V
  get_struct_value_from_bytestring key dict_map = elim (find dict_map key) [
    | some v ↦ ok v
    | none ↦ err (key_not_found key)
  ]

  unfoldable pub get_struct_value : String → List (Bytes × V) → Decoded V
  unfolding get_struct_value_from_bytestring
  get_struct_value key dict_map = get_struct_value_from_bytestring (codes key) dict_map

module _ (crate : Crate) where
  open crate use {Bencode, view}

  -- The variant and the sign decide; an `i64` that is not negative fits `u64`.
  unfoldable pub get_u64 : Bencode → Decoded ℕ
  get_u64 b = elim (view b) [ number (pos n) ↦ ok n | _ ↦ err (wrong_type "Expected a Number") ]

  unfoldable pub get_str : Bencode → Decoded Bytes
  get_str b = elim (view b) [
    | byte_string bytes ↦ ok bytes
    | _ ↦ err (wrong_type "Expected a ByteString")
  ]

  unfoldable pub get_struct : Bencode → Decoded (List (Bytes × Bencode))
  get_struct b = elim (view b) [ dict m ↦ ok m | _ ↦ err (wrong_type "Expected a dictionary") ]

  unfoldable pub get_list : Bencode → Decoded (List Bencode)
  get_list b = elim (view b) [ list l ↦ ok l | _ ↦ err (wrong_type "Expected a list") ]

  -- `lossy` is `String::from_utf8_lossy`.
  unfoldable pub get_string : (Bytes → String) → Bencode → Decoded String
  unfolding get_str
  get_string lossy b = do bytes ← get_str b; ok (lossy bytes)

  pub get_struct-ok :
      (b : Bencode) {m : List (Bytes × Bencode)} → get_struct b ≡ ok m → view b ≡ dict m
  unfolding get_struct
  get_struct-ok b h = ground arith

pub get_struct_value-ok :
    {V : Type 0} (key : String) (m : List (Bytes × V)) {v : V}
    → get_struct_value key m ≡ ok v
    → find m (codes key) ≡ some v
unfolding get_struct_value
get_struct_value-ok key m h = ground arith
