-- ===== src/Torrent/Hashes.antt =====
-- The digests of a torrent's pieces: `Info::piece_hash` against the concatenated digests.
use motte_seed.Prelude.{
  refl, ◌^◌, ℕ, zero, suc, ◌+◌, ◌*◌, ◌/◌, ◌%◌, ◌<◌, ◌≤◌, ◌≡◌, sym, ap, ◌∙◌, none, some, [], ◌++◌,
  arith, le→leb, drop-drop, drop_all, take-append-drop, length, take, drop, length-take,
  length-drop,
}
use motte_seed.Bytes.{Bytes}
use motte_seed.Torrent.{Info, piece_hash}

-- The digests from one index on, one after the other.
abbrev pub join_hashes : Info → ℕ → ℕ → Bytes
join_hashes info index zero = []
join_hashes info index (suc n) = elim (piece_hash info index) [
  | some hash ↦ hash ++ join_hashes info (index + 1) n
  | none ↦ []
]

in_range :
    (info : Info) (index : ℕ)
    → index * 20 + 20 < 2 ^ 64
    → index * 20 + 20 ≤ length info.raw_pieces
    → piece_hash info index ≡ some (take 20 (drop (index * 20) info.raw_pieces))
unfolding piece_hash
in_range info index b h =
    let s : index * 20 % 2 ^ 64 ≡ index * 20 = omega arith in
    let e : (index * 20 + 20) % 2 ^ 64 ≡ index * 20 + 20 = omega arith in
    rw
      (
        s,
        e,
        le→leb (index * 20 + 20) (length info.raw_pieces) h,
        le→leb (index * 20) (index * 20 + 20) (omega arith),
      )
      refl

-- For an index whose digest would end before 2^64: a digest is found exactly if the index is below
-- the number of whole digests, and has 20 bytes. But 2^62 more than such an index finds the same,
-- since its multiple of 20 wraps around.
pub piece_hash_iff :
    (info : Info) (index : ℕ)
    → index * 20 + 20 < 2 ^ 64
    → ((hash : Bytes)
        → piece_hash info index ≡ some hash
        → (index < length info.raw_pieces / 20) × (length hash ≡ 20))
      × (piece_hash info index ≡ none → length info.raw_pieces / 20 ≤ index)
      × (piece_hash info (index + 2 ^ 62) ≡ piece_hash info index)
unfolding piece_hash
piece_hash_iff info index b = (
  (λ hash e. ground (
    arith,
    length-take 20 (drop (index * 20) info.raw_pieces),
    length-drop (index * 20) info.raw_pieces,
  )),
  (λ e. ground arith),
  let s : (index + 2 ^ 62) * 20 % 2 ^ 64 ≡ index * 20 % 2 ^ 64 = omega arith in rw s refl,
)

join_hashes-drop :
    (info : Info) (n index : ℕ)
    → length info.raw_pieces < 2 ^ 64
    → (index + n) * 20 ≡ length info.raw_pieces
    → join_hashes info index n ≡ drop (index * 20) info.raw_pieces
unfolding piece_hash
join_hashes-drop info zero index b e = sym (drop_all (index * 20) info.raw_pieces (omega arith))
join_hashes-drop info (suc n) index b e =
    let raw : Bytes = info.raw_pieces in
    let step : drop ((index + 1) * 20) raw ≡ drop 20 (drop (index * 20) raw) =
      ap (λ k. drop k raw) (omega arith) ∙ sym (drop-drop 20 (index * 20) raw) in
    rw (in_range info index (omega arith) (omega arith), join_hashes)
      (ap (λ t. take 20 (drop (index * 20) raw) ++ t)
          (join_hashes-drop info n (index + 1) b (omega arith) ∙ step)
        ∙ take-append-drop 20 (drop (index * 20) raw))

-- Where the digests fill whole groups of 20 bytes, fewer than 2^64 in all, `piece_hash` cuts them without loss: its results
-- for all indices, one after the other, are the bytes of the `pieces` key.
pub join_hashes-raw_pieces :
    (info : Info)
    → length info.raw_pieces < 2 ^ 64
    → length info.raw_pieces % 20 ≡ 0
    → join_hashes info 0 (length info.raw_pieces / 20) ≡ info.raw_pieces
join_hashes-raw_pieces info b e =
    join_hashes-drop info (length info.raw_pieces / 20) 0 b (omega arith)
