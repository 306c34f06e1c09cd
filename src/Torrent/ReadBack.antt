-- ===== src/Torrent/ReadBack.antt =====
-- The decoders of src/core/torrent/torrent.rs read back the torrents that are written.
use Prim.Native.String.{String}
use motte_seed.Prelude.{
  ℕ, ◌%◌, ◌^◌, ◌<◌, ◌≡◌, refl, sym, ap, true, false, Option, none, some, List, [], ◌∷◌, All, length,
  ok, arith, ◌==◌,
}
use motte_seed.Prelude.Text.{codes}
use motte_seed.Bytes.{Bytes, bytes_eq}
use motte_seed.Util.Bencode.{Crate, Decoded, get_u64, get_str, get_string, get_struct_value}
use motte_seed.Torrent.{
  from_bytes, from_file, FileEntry, FileDetails, single_file, multi_file, Info, Torrent,
  decode_path, decode_file_entry, decode_files, decode_file_details, decode_info, decode_tier,
  filter_ok, decode_tiers, decode_torrent,
}
use motte_seed.Torrent.Written.{
  Writer, built, encode_strings, encode_file, details_fields, info_fields, encode_info,
  torrent_fields, encode_torrent, IsNumber, IsMeasured,
}
use mathlib.Core.Option
use mathlib.Core.List
use motte_seed.Torrent.Fields.{
  get_str-bytes, get_u64-number, get_list-list, get_struct-built, get_struct_value-field,
  get_struct_value-missing, optional-field, else_none, field,
}

module _ {crate : Crate} (w : Writer crate) where
  decode_path-strings : (path : List Bytes) → decode_path crate (List.map w.of_bytes path) ≡ ok path
  unfolding decode_path
  decode_path-strings [] = refl
  decode_path-strings (s ∷ path) =
      rw (get_str-bytes w s, decode_path) (rw (decode_path-strings path) refl)

  decode_file_entry-file :
      (f : FileEntry) → f.length < 2 ^ 63 → decode_file_entry crate (encode_file w f) ≡ ok f
  unfolding decode_file_entry get_struct_value bytes_eq
  decode_file_entry-file f h =
      let fields : List (Bytes × Option crate.Bencode) =
        (codes "length", some (w.of_number f.length))
        ∷ (codes "path", some (encode_strings w f.path))
        ∷ [] in
      let n = get_struct_value-field w "length" fields (w.of_number f.length) refl in
      let p = get_struct_value-field w "path" fields (encode_strings w f.path) refl in
      rw (get_struct-built w fields, n, decode_file_entry)
        (rw (get_u64-number w f.length h, p, decode_file_entry)
          (rw
            (
              get_list-list w (List.map w.of_bytes f.path),
              decode_path-strings f.path,
              decode_file_entry,
            )
            refl))

  decode_files-written :
      (files : List FileEntry)
      → All (λ (f : FileEntry). f.length < 2 ^ 63) files
      → decode_files crate (List.map (encode_file w) files) ≡ ok files
  unfolding decode_files
  decode_files-written [] h = refl
  decode_files-written (f ∷ files) h =
      rw (decode_file_entry-file f h.0, decode_files) (rw (decode_files-written files h.1) refl)

  no_detail :
      (d : FileDetails) (j : Bytes)
      → bytes_eq (codes "length") j ≡ false
      → bytes_eq (codes "files") j ≡ false
      → field (details_fields w d) j ≡ none
  no_detail (single_file n) j l f = rw l refl
  no_detail (multi_file files) j l f = rw f refl

  -- Two fields at the front say nothing about the details.
  decode_file_details-written :
      (fields : List (Bytes × Option crate.Bencode)) (d : FileDetails)
      → field fields (codes "length") ≡ field (details_fields w d) (codes "length")
      → field fields (codes "files") ≡ field (details_fields w d) (codes "files")
      → IsMeasured d
      → decode_file_details crate (w.entries (built w fields)) ≡ ok d
  unfolding decode_file_details bytes_eq get_struct_value
  decode_file_details-written fields (single_file n) l f h =
      let e = get_struct_value-field w "length" fields (w.of_number n) l in
      rw (e, decode_file_details) (rw (get_u64-number w n h) refl)
  decode_file_details-written fields (multi_file files) l f h =
      let v = w.of_list (List.map (encode_file w) files) in
      let e = get_struct_value-field w "files" fields v f in
      rw (get_struct_value-missing w "length" fields l, e, decode_file_details)
        ((rw (get_list-list w (List.map (encode_file w) files), decode_files-written files h) refl))

  IsNumber-some : (o : Option ℕ) (n : ℕ) → IsNumber o → o ≡ some n → n < 2 ^ 63
  IsNumber-some none n h e = cc e
  IsNumber-some (some m) n h e = ground (arith, h, e)

  decode_info-written :
      (lossy : Bytes → String) (name : Bytes) (info : Info)
      → lossy name ≡ info.name
      → length info.raw_pieces % 20 ≡ 0
      → info.piece_length < 2 ^ 63
      → IsMeasured info.file_details
      → IsNumber info.private
      → decode_info crate lossy (encode_info w name info) ≡ ok info
  unfolding decode_info bytes_eq get_string
  decode_info-written lossy name info called whole p d private_number =
      let fields : List (Bytes × Option crate.Bencode) = info_fields w name info in
      let n = get_struct_value-field w "name" fields (w.of_bytes name) refl in
      let pl =
        get_struct_value-field w "piece length" fields (w.of_number info.piece_length) refl in
      let pc = get_struct_value-field w "pieces" fields (w.of_bytes info.raw_pieces) refl in
      let digests : (length info.raw_pieces % 20 == 0) ≡ true = ground arith in
      let details = decode_file_details-written fields info.file_details refl refl d in
      let private =
        optional-field w "private" fields info.private w.of_number (get_u64 crate)
          (else_none w (Option.map w.of_number info.private) _
            (no_detail info.file_details (codes "private") refl refl))
          (λ a e. get_u64-number w a (IsNumber-some info.private a private_number e)) in
      let source =
        optional-field w "source" fields info.source w.of_bytes (get_str crate)
          (else_none w (Option.map w.of_bytes info.source) _
            (no_detail info.file_details (codes "source") refl refl))
          (λ a e. get_str-bytes w a) in
      rw (get_struct-built w fields, n, decode_info)
        (rw (get_str-bytes w name, pl, decode_info)
          (rw (get_u64-number w info.piece_length p, pc, decode_info)
            (rw (get_str-bytes w info.raw_pieces, digests, decode_info)
              (rw (details, private, source, called) refl))))

  filter_ok-written :
      {A : Type 0} (read : crate.Bencode → Decoded A) (f : A → crate.Bencode)
      → ((a : A) → read (f a) ≡ ok a)
      → (l : List A) → filter_ok crate read (List.map f l) ≡ l
  unfolding filter_ok
  filter_ok-written read f h [] = refl
  filter_ok-written read f h (a ∷ l) =
      rw (h a, filter_ok) (ap (λ x. a ∷ x) (filter_ok-written read f h l))

  decode_tier-written : (urls : List Bytes) → decode_tier crate (encode_strings w urls) ≡ ok urls
  unfolding decode_tier
  decode_tier-written urls =
      rw (get_list-list w (List.map w.of_bytes urls), decode_tier)
        (ap ok (filter_ok-written (get_str crate) w.of_bytes (get_str-bytes w) urls))

  decode_tiers-written :
      (tiers : List (List Bytes))
      → decode_tiers crate (w.of_list (List.map (encode_strings w) tiers)) ≡ ok tiers
  unfolding decode_tiers
  decode_tiers-written tiers =
      rw (get_list-list w (List.map (encode_strings w) tiers), decode_tiers)
        (ap ok (filter_ok-written (decode_tier crate) (encode_strings w) decode_tier-written tiers))

  decode_torrent-written :
      (sha1 : Bytes → Bytes) (lossy : Bytes → String) (name bytes : Bytes) (t : Torrent)
      → decode_info crate lossy (encode_info w name t.info) ≡ ok t.info
      → crate.to_bytes (encode_info w name t.info) ≡ ok bytes
      → t.info_hash ≡ sha1 bytes
      → IsNumber t.creation_date
      → decode_torrent crate sha1 lossy (encode_torrent w name t) ≡ ok t
  unfolding decode_torrent bytes_eq
  decode_torrent-written sha1 lossy name bytes t decoded written hashed dated =
      let fields : List (Bytes × Option crate.Bencode) = torrent_fields w name t in
      let announce = get_struct_value-field w "announce" fields (w.of_bytes t.announce) refl in
      let info = get_struct_value-field w "info" fields (encode_info w name t.info) refl in
      let comment =
        optional-field w "comment" fields t.comment w.of_bytes (get_str crate)
          (else_none w _ none refl) (λ a e. get_str-bytes w a) in
      let created_by =
        optional-field w "created by" fields t.created_by w.of_bytes (get_str crate)
          (else_none w _ none refl) (λ a e. get_str-bytes w a) in
      let creation_date =
        optional-field w "creation date" fields t.creation_date w.of_number (get_u64 crate)
          (else_none w _ none refl)
          (λ a e. get_u64-number w a (IsNumber-some t.creation_date a dated e)) in
      let encoding =
        optional-field w "encoding" fields t.encoding w.of_bytes (get_str crate)
          (else_none w _ none refl) (λ a e. get_str-bytes w a) in
      let announce_list =
        optional-field w "announce-list" fields t.announce_list
          (λ tiers. w.of_list (List.map (encode_strings w) tiers)) (decode_tiers crate)
          (else_none w _ none refl) (λ a e. decode_tiers-written a) in
      rw (get_struct-built w fields, announce, decode_torrent)
        (rw (get_str-bytes w t.announce, info, decode_torrent)
          (rw (decoded, written, decode_torrent)
            (rw (comment, created_by, creation_date)
              (rw (encoding, announce_list, sym hashed) refl))))

-- A torrent with whole digests, whose name is the text of the given bytes, whose numbers fit an `i64`,
-- and whose info hash is the digest of the bytes of its info. If the file's bytes parse to the value
-- that BEP 3 gives for it, then `from_file` reads exactly this torrent, with the optional fields, the
-- announce list and the files of a torrent of many.
pub from_file-encode_torrent :
    {crate : Crate} (w : Writer crate) (sha1 : Bytes → Bytes) (lossy : Bytes → String)
    (name bytes text : Bytes) (t : Torrent)
    → lossy name ≡ t.info.name
    → length t.info.raw_pieces % 20 ≡ 0
    → t.info.piece_length < 2 ^ 63
    → IsMeasured t.info.file_details
    → IsNumber t.info.private
    → IsNumber t.creation_date
    → crate.to_bytes (encode_info w name t.info) ≡ ok bytes
    → t.info_hash ≡ sha1 bytes
    → crate.from_buffer text ≡ ok (encode_torrent w name t)
    → from_file crate sha1 lossy (ok text) ≡ ok t
unfolding from_file from_bytes
from_file-encode_torrent {crate = crate} w sha1 lossy name bytes text t called whole narrow measured
      private_number dated written hashed parsed =
    let info =
      decode_info-written w lossy name t.info called whole narrow measured private_number in
    rw (parsed, from_file)
      (rw (decode_torrent-written w sha1 lossy name bytes t info written hashed dated) refl)
