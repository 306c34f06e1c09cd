-- ===== src/Peer/PieceManager/Selection.antt =====
-- What the manager selects for download, and when it says that the download is complete.
use motte_seed.Prelude.{
  ◌⊎◌, ℕ, ◌≡◌, true, false, none, some, List, [], ◌∷◌, All, Bool-cases, Option-cases, sym, all→All,
  All→all, inl, inr, arith, ◌↔◌,
}
use motte_seed.Prelude.Assoc.{get, HashMap}
use motte_seed.Prelude.{◌==◌, refl}
use motte_seed.Peer.Block
use motte_seed.Peer.Piece.NextBlock.{IsEntry, get_next_missing_block_lem}
use motte_seed.Peer.Piece
use motte_seed.Peer.Piece.{
  Piece, PieceState, missing, incomplete, get_next_missing_block, is_fully_downloaded,
}
use motte_seed.Prelude.{Option-cases, inl, inr, ap, ◌∙◌}
use motte_seed.Peer.Piece
use motte_seed.Peer.Block.{Block}
use motte_seed.Peer.PieceManager.{
  HashOrder, get_next_block_for_piece, block_at, PieceManager, wanted_at,
  get_next_piece_to_download, is_download_complete,
}

-- A piece that is there, and is neither verified nor written.
abbrev pub IsWanted : PieceManager → ℕ → Type 0
IsWanted m index = (p : Piece) × (get m.pieces index ≡ some p) × (Piece.is_complete p ≡ false)

abbrev pub OneOf : ℕ → List ℕ → Type 0
OneOf i [] = ⊥
OneOf i (j ∷ l) = (i ≡ j) ⊎ OneOf i l

wanted_at-IsWanted :
    (m : PieceManager) (index : ℕ) → wanted_at (get m.pieces index) ≡ true → IsWanted m index
unfolding wanted_at Piece.is_complete
wanted_at-IsWanted m index h = elim (Option-cases (get m.pieces index)) [
  | inl n ↦ cc (rw (n, wanted_at) at h)
  | inr (p, e) ↦ (p, e, ground arith)
]

not-IsWanted :
    (m : PieceManager) (index : ℕ) → wanted_at (get m.pieces index) ≡ false → ¬ IsWanted m index
unfolding wanted_at Piece.is_complete
not-IsWanted m index h (p, e, c) = ground arith

-- The choice is one of the available pieces and is wanted; where there is none, no available
-- piece is wanted.
pub get_next_piece_to_download_lem :
    (m : PieceManager) (available : List ℕ)
    → ((i : ℕ) → get_next_piece_to_download m available ≡ some i → OneOf i available × IsWanted m i)
      × (get_next_piece_to_download m available ≡ none → All (λ i. ¬ IsWanted m i) available)
unfolding get_next_piece_to_download
get_next_piece_to_download_lem m [] = ((λ i e. cc), λ e. tt)
get_next_piece_to_download_lem m (j ∷ l) = elim (Bool-cases (wanted_at (get m.pieces j))) [
  | inl w ↦ rw w (
    (λ i e. let q : j ≡ i = cc (e) in (inl (sym q), rw q at (wanted_at-IsWanted m j w))),
    λ e. cc,
  )
  | inr w ↦ rw w (
    (λ i e. let (o, k) = (get_next_piece_to_download_lem m l).0 i e in (inr o, k)),
    λ e. (not-IsWanted m j w, (get_next_piece_to_download_lem m l).1 e),
  )
]

-- The download counts as complete exactly if no piece is left that is missing or incomplete.
pub is_download_complete_lem :
    (m : PieceManager)
    → (is_download_complete m ≡ true) ↔ All (λ e. Piece.is_complete (e.1) ≡ true) m.pieces
unfolding is_download_complete
is_download_complete_lem m = (all→All _ m.pieces, All→all _ m.pieces)

block_at-some :
    (p : Piece) (o offset len : ℕ) → block_at p (some o) ≡ some (offset, len) → o ≡ offset
unfolding block_at
block_at-some p o offset len h = elim (Option-cases (get p.blocks o)) [
  | inl g ↦ cc (rw (g, block_at) at h)
  | inr (b, g) ↦ cc (rw (g, block_at) at h)
]

-- The block that is given is one of the piece under the index, and the piece chooses it.
pub get_next_block_for_piece-some :
    (order : HashOrder Block) (m : PieceManager) (index offset len : ℕ)
    → get_next_block_for_piece order m index ≡ some (offset, len)
    → (p : Piece) × (get m.pieces index ≡ some p)
      × (Piece.get_next_missing_block order p ≡ some offset)
unfolding get_next_block_for_piece block_at
get_next_block_for_piece-some order m index offset len h =
    elim (Option-cases (get m.pieces index)) [
      | inl e ↦ cc (rw (e, get_next_block_for_piece) at h)
      | inr (p, e) ↦ elim (Option-cases (Piece.get_next_missing_block order p)) [
        | inl n ↦ cc (rw (e, n, get_next_block_for_piece) at h)
        | inr (o, n) ↦
            let same = block_at-some p o offset len (rw (e, n, get_next_block_for_piece) at h) in
            (p, e, n ∙ ap some same)
      ]
    ]

get-IsEntry :
    (m : HashMap Block) (o : ℕ) (b : Block) → IsEntry (o, b) m → (c : Block) × (get m o ≡ some c)
unfolding get
get-IsEntry [] o b e = elim e [ ]
get-IsEntry ((k, c) ∷ m) o b e = elim (Bool-cases (k == o)) [
  | inl q ↦ (c, rw q refl)
  | inr q ↦ elim e [
    | inl x ↦ let y : o ≡ k = ap (λ (z : ℕ × Block). z.0) x in absurd (ground (arith, y))
    | inr x ↦ let (d, g) = get-IsEntry m o b x in (d, rw q g)
  ]
]

-- The block that is chosen of a piece, or that there is none to choose.
pub get_next_block_for_piece-cases :
    (order : HashOrder Block) (m : PieceManager) (i : ℕ) (p : Piece)
    → get m.pieces i ≡ some p
    → ((is_fully_downloaded p ≡ true) × (get_next_block_for_piece order m i ≡ none))
      ⊎ ((offset : ℕ) × (b c : Block) × IsEntry (offset, b) p.blocks
          × (Block.is_complete b ≡ false)
          × (get p.blocks offset ≡ some c)
          × (get_next_block_for_piece order m i ≡ some (offset, c.length)))
unfolding get_next_block_for_piece block_at
get_next_block_for_piece-cases order m i p known =
    let (chosen, full) = get_next_missing_block_lem order p in
    elim (Option-cases (get_next_missing_block order p)) [
      | inl n ↦ inl (full n, rw (known, n, get_next_block_for_piece) refl)
      | inr (offset, n) ↦
          let (b, entry, lacking) = chosen offset n in
          let (c, g) = get-IsEntry p.blocks offset b entry in
          inr (
            offset,
            b,
            c,
            entry,
            lacking,
            g,
            rw (known, n, get_next_block_for_piece) (rw (g, block_at) refl),
          )
    ]
