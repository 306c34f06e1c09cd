-- ===== src/Torrent/Fields.antt =====
-- What the accessors of src/util/bencode/bencode_decodable.rs give for a dictionary that was written.
use Prim.Native.String.{String}
use motte_seed.Prelude.{
  ℕ, ◌^◌, ◌<◌, ◌≡◌, ◌∙◌, refl, ap, Bool-cases, Option, none, some, List, [], ◌∷◌, if◌then◌else◌, ok,
  err, ◌>>=◌, arith, inl, inr,
}
use motte_seed.Prelude.Text.{codes}
use motte_seed.Bytes.{Bytes, bytes_eq}
use motte_seed.Util.Bencode.{
  key_not_found, Crate, Decoded, find, get_u64, get_str, get_struct, get_list, get_struct_value,
}
use motte_seed.Torrent.{to_option}
use motte_seed.Torrent.Written.{Writer, built}
use mathlib.Core.Option

-- The first value under a key, of the fields that are there.
abbrev pub field : {V : Type 0} → List (Bytes × Option V) → Bytes → Option V
field [] j = none
field ((k, o) ∷ fields) j =
    if bytes_eq k j then elim o [ some v ↦ some v | none ↦ field fields j ] else field fields j

module _ {crate : Crate} (w : Writer crate) where
  pub find-built :
      (fields : List (Bytes × Option crate.Bencode)) (j : Bytes)
      → find (w.entries (built w fields)) j ≡ field fields j
  find-built [] j = w.find-new j
  find-built ((k, none) ∷ fields) j = elim (Bool-cases (bytes_eq k j)) [
    | inl e ↦ rw e (find-built fields j)
    | inr e ↦ rw e (find-built fields j)
  ]
  find-built ((k, some v) ∷ fields) j =
      w.find-insert (built w fields) k v j
      ∙ ap (λ o. if bytes_eq k j then some v else o) (find-built fields j)

  pub get_str-bytes : (bytes : Bytes) → get_str crate (w.of_bytes bytes) ≡ ok bytes
  unfolding get_str
  get_str-bytes bytes = rw (w.bytes_is bytes, get_str) refl

  pub get_u64-number : (n : ℕ) → n < 2 ^ 63 → get_u64 crate (w.of_number n) ≡ ok n
  unfolding get_u64
  get_u64-number n h = rw (w.number_is n h, get_u64) refl

  pub get_list-list : (l : List crate.Bencode) → get_list crate (w.of_list l) ≡ ok l
  unfolding get_list
  get_list-list l = rw (w.list_is l, get_list) refl

  pub get_struct-built :
      (fields : List (Bytes × Option crate.Bencode))
      → get_struct crate (w.of_map (built w fields)) ≡ ok (w.entries (built w fields))
  unfolding get_struct
  get_struct-built fields = rw (w.map_is (built w fields), get_struct) refl

  pub get_struct_value-field :
      (key : String) (fields : List (Bytes × Option crate.Bencode)) (v : crate.Bencode)
      → field fields (codes key) ≡ some v
      → get_struct_value key (w.entries (built w fields)) ≡ ok v
  unfolding get_struct_value
  get_struct_value-field key fields v e = ground (arith, find-built fields (codes key))

  pub get_struct_value-missing :
      (key : String) (fields : List (Bytes × Option crate.Bencode))
      → field fields (codes key) ≡ none
      → get_struct_value key (w.entries (built w fields)) ≡ err (key_not_found (codes key))
  unfolding get_struct_value
  get_struct_value-missing key fields e = ground (arith, find-built fields (codes key), e)

  -- A field that may be missing.
  pub optional-field :
      {A : Type 0} (key : String) (fields : List (Bytes × Option crate.Bencode)) (o : Option A)
      (f : A → crate.Bencode) (read : crate.Bencode → Decoded A)
      → field fields (codes key) ≡ Option.map f o
      → ((a : A) → o ≡ some a → read (f a) ≡ ok a)
      → to_option (get_struct_value key (w.entries (built w fields)) >>= read) ≡ o
  unfolding get_struct_value
  optional-field key fields none f read e h = ground (arith, find-built fields (codes key), e)
  optional-field key fields (some a) f read e h =
      rw (get_struct_value-field key fields (f a) e) (rw (h a refl) refl)

  pub else_none :
      (o x : Option crate.Bencode) → x ≡ none → elim o [ some v ↦ some v | none ↦ x ] ≡ o
  else_none none x e = e
  else_none (some v) x e = refl
