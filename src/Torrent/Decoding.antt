-- ===== src/Torrent/Decoding.antt =====
-- What a decoded torrent is, and the errors of the decoders.

use Prim.Native.String.{String}
use motte_seed.Prelude.{
  ◌%◌, ◌≡◌, none, some, List, ok, err, ◌>>=◌, map_err, >>=-ok, map_err-ok, ok-injective, ap, sym,
  ◌∙◌, arith, length,
}
use motte_seed.Prelude.Text.{codes}
use motte_seed.Bytes.{Bytes}
use motte_seed.Util.Bencode.{
  Crate, dict, key_not_found, other, find, get_u64, get_str, get_struct, get_struct-ok,
  get_struct_value-ok, get_struct_value,
}
use motte_seed.Torrent.{
  single_file, Info, Torrent, decode_file_details, decode_info, decode_torrent,
}

module _ (crate : Crate) (sha1 : Bytes → Bytes) (lossy : Bytes → String) where
  open crate use {Bencode, view, to_bytes}

  -- A decoded `info` has whole digests, of 20 bytes each.
  pub decode_info-whole :
      (b : Bencode) (info : Info)
      → decode_info crate lossy b ≡ ok info
      → length info.raw_pieces % 20 ≡ 0
  unfolding decode_info
  decode_info-whole b info e = ground arith

  -- A decoded torrent has the value under `info` in its dictionary, decoded, and the digest of
  -- the same value's bytes.
  pub decode_torrent-info :
      (b : Bencode) (t : Torrent)
      → decode_torrent crate sha1 lossy b ≡ ok t
      → (m : List (Bytes × Bencode)) × (v : Bencode) × (bytes : Bytes) × (view b ≡ dict m)
        × (find m (codes "info") ≡ some v)
        × (decode_info crate lossy v ≡ ok t.info)
        × (to_bytes v ≡ ok bytes)
        × (t.info_hash ≡ sha1 bytes)
  unfolding decode_torrent
  decode_torrent-info b t e =
      let (m, p1, r1) = >>=-ok (get_struct crate b) _ e in
      let (_, _, r2) = >>=-ok (get_struct_value "announce" m) _ r1 in
      let (_, _, r3) = >>=-ok (get_str crate _) _ r2 in
      let (v, p4, r4) = >>=-ok (get_struct_value "info" m) _ r3 in
      let (info, p5, r5) = >>=-ok (decode_info crate lossy v) _ r4 in
      let (bytes, p6, r6) = >>=-ok (map_err other (to_bytes v)) _ r5 in
      let last = ok-injective r6 in
      (
        m,
        v,
        bytes,
        get_struct-ok crate b p1,
        get_struct_value-ok "info" m p4,
        p5 ∙ ap (λ (x : Torrent). ok x.info) last,
        map_err-ok other _ p6,
        sym (ap (λ (x : Torrent). x.info_hash) last),
      )

  -- A torrent without one of the keys that it must have is refused, and the error names the first
  -- that is missing: `announce`, or else `info` where the announce URL is a byte string.
  decode_torrent_missing :
      (b : Bencode) (m : List (Bytes × Bencode))
      → view b ≡ dict m
      → (find m (codes "announce") ≡ none
          → decode_torrent crate sha1 lossy b ≡ err (key_not_found (codes "announce")))
        × ((v : Bencode) (url : Bytes)
            → find m (codes "announce") ≡ some v
            → get_str crate v ≡ ok url
            → find m (codes "info") ≡ none
            → decode_torrent crate sha1 lossy b ≡ err (key_not_found (codes "info")))
  unfolding decode_torrent get_struct get_struct_value
  decode_torrent_missing b m d = (λ e. ground arith, λ v url e u i. ground arith)

  -- A `length` key decides for a single file: where its value is no number the decoder fails, also
  -- if there is a list of files.
  pub decode_file_details_length :
      (m : List (Bytes × Bencode)) (v : Bencode)
      → find m (codes "length") ≡ some v
      → decode_file_details crate m ≡ (get_u64 crate v >>= λ n. ok (single_file n))
  unfolding decode_file_details get_struct_value
  decode_file_details_length m v e = ground arith
