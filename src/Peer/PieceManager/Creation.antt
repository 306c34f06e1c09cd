-- ===== src/Peer/PieceManager/Creation.antt =====
-- The pieces of a new manager: one for each digest, all of the torrent's piece length.
use motte_seed.Prelude.{
  ℕ, zero, suc, ◌+◌, ◌/◌, ◌%◌, ◌^◌, ◌≤◌, ◌<◌, ◌≡◌, ◌∙◌, none, some, [], ◌⊎◌, inl, inr, arith,
  Option-cases, length,
}
use motte_seed.Prelude.Assoc.{HashMap, get, insert, get-insert}
use motte_seed.Bytes.{Bytes}
use motte_seed.Torrent.{Info, piece_hash}
use motte_seed.Torrent.Hashes.{piece_hash_iff}
use motte_seed.Peer.Piece
use motte_seed.Peer.Piece.{Piece}
use motte_seed.Peer.PieceManager.{PieceManager, new_pieces, new}

-- What the map holds for one digest.
abbrev HasPiece : Info → ℕ → HashMap Piece → ℕ → Type 0
HasPiece info block_size pieces i =
    (hash : Bytes)
    → piece_hash info i ≡ some hash
    → (p : Piece) × (Piece.new i info.piece_length hash block_size ≡ some p)
      × (get pieces i ≡ some p)

module _ (info : Info) (block_size : ℕ) where
  mod_small : (i : ℕ) → i < 2 ^ 32 → i % 2 ^ 32 ≡ i
  mod_small i h = omega arith

  le_cases : (a b : ℕ) → a ≤ b → (a + 1 ≤ b) ⊎ (a ≡ b)
  le_cases a b h = omega arith

  abbrev IsExtended : ℕ → ℕ → HashMap Piece → HashMap Piece → Type 0
  IsExtended n index pieces r =
      ((i : ℕ) → (i < index) ⊎ (index + n ≤ i) → get r i ≡ get pieces i)
      × ((i : ℕ) → index ≤ i → i < index + n → HasPiece info block_size r i)

  IsExtended-step :
      (n index : ℕ) (pieces r : HashMap Piece) {hash : Bytes} {p : Piece}
      → piece_hash info index ≡ some hash
      → Piece.new index info.piece_length hash block_size ≡ some p
      → IsExtended n (index + 1) (insert pieces index p) r
      → IsExtended (suc n) index pieces r
  IsExtended-step n index pieces r {p = p} e k (outside, inside) = (
    (λ i o. elim o [
      | inl l ↦ outside i (inl (omega arith)) ∙ ground (arith, get-insert pieces index i p)
      | inr g ↦ outside i (inr (omega arith)) ∙ ground (arith, get-insert pieces index i p)
    ]),
    λ i l g hash q. elim (le_cases index i l) [
      | inl s ↦ inside i (omega arith) (omega arith) hash q
      | inr s ↦ (
        p,
        cc (s, e, k, q),
        outside i (inl (omega arith)) ∙ ground (arith, get-insert pieces index i p),
      )
    ],
  )

  new_pieces-IsExtended :
      (n index : ℕ) (pieces r : HashMap Piece)
      → index + n ≤ 2 ^ 32
      → new_pieces n index info block_size pieces ≡ some r
      → IsExtended n index pieces r
  unfolding new_pieces
  new_pieces-IsExtended zero index pieces r b h =
      ((λ i o. ground arith), λ i l g. absurd (omega arith))
  new_pieces-IsExtended (suc n) index pieces r b h = elim (Option-cases (piece_hash info index)) [
    | inl e ↦
        let ih =
          new_pieces-IsExtended n (index + 1) pieces r (omega arith) (rw (e, new_pieces) at h) in
        (
          (λ i o. ih.0 i (elim o [ inl l ↦ inl (omega arith) | inr g ↦ inr (omega arith) ])),
          λ i l g hash q. elim (le_cases index i l) [
            | inl s ↦ ih.1 i (omega arith) (omega arith) hash q
            | inr s ↦ absurd (cc)
          ],
        )
    | inr (hash, e) ↦ elim (Option-cases (Piece.new index info.piece_length hash block_size)) [
      | inl k ↦ cc (rw (e, mod_small index (omega arith), k, new_pieces) at h)
      | inr (p, k) ↦
          let ih = new_pieces-IsExtended n (index + 1) (insert pieces index p) r (omega arith) (
            rw (mod_small index (omega arith)) at
              (rw (e, mod_small index (omega arith), k, new_pieces) at h)) in
          IsExtended-step n index pieces r e k ih
    ]
  ]

-- A new manager holds, for each digest of the torrent, the piece that `Piece::new` makes of it under
-- the digest's index, always with the full piece length, and no piece elsewhere, if the torrent has
-- no more than 2^32 digests of 20 bytes.
pub new-HasPiece :
    (info : Info) (block_size : ℕ) {m : PieceManager}
    → length info.raw_pieces / 20 ≤ 2 ^ 32
    → new info block_size ≡ some m
    → (i : ℕ)
    → (i < length info.raw_pieces / 20
        → (hash : Bytes) × (p : Piece) × (piece_hash info i ≡ some hash)
          × (Piece.new i info.piece_length hash block_size ≡ some p)
          × (get m.pieces i ≡ some p))
      × (length info.raw_pieces / 20 ≤ i → get m.pieces i ≡ none)
unfolding new get
new-HasPiece info block_size {m = m} b h i =
    elim (Option-cases (new_pieces (length info.raw_pieces / 20) 0 info block_size [])) [
      | inl e ↦ cc (rw (e, new) at h)
      | inr (r, e) ↦
          let x =
            new_pieces-IsExtended info block_size (length info.raw_pieces / 20) 0 [] r (omega arith)
              e in
          let pe : m.pieces ≡ r = cc (rw (e, new) at h) in
          rw pe (
            (λ l. elim (Option-cases (piece_hash info i)) [
              | inl q ↦ let g = (piece_hash_iff info i (omega arith)).1 q in absurd (omega arith)
              | inr (hash, q) ↦
                  let (p, k, o) = x.1 i (omega arith) (omega arith) hash q in (hash, p, q, k, o)
            ]),
            λ g. x.0 i (inr (omega arith)),
          )
    ]
