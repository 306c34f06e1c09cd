-- ===== src/Peer/Piece/NextBlock.antt =====
-- Which block of a piece is asked for next.
use motte_seed.Prelude.{
  ℕ, ◌≡◌, refl, true, false, none, some, [], ◌∷◌, ◌⊎◌, inl, inr, All, Bool-cases, All→all,
}
use motte_seed.Prelude.Assoc.{HashMap, HashOrder}
use motte_seed.Peer.Block
use motte_seed.Peer.Block.{Block}
use motte_seed.Peer.Piece.{Piece, first_missing, get_next_missing_block, is_fully_downloaded}

abbrev pub IsEntry : ℕ × Block → HashMap Block → Type 0
IsEntry e [] = ⊥
IsEntry e (f ∷ m) = (e ≡ f) ⊎ IsEntry e m

weaken :
    (f : ℕ × Block) (m l : HashMap Block)
    → All (λ e. IsEntry e m) l
    → All (λ e. IsEntry e (f ∷ m)) l
weaken f m [] a = tt
weaken f m (e ∷ l) (i, a) = (inr i, weaken f m l a)

All-entries : (m : HashMap Block) → All (λ e. IsEntry e m) m
All-entries [] = tt
All-entries (e ∷ m) = (inl refl, weaken e m m (All-entries m))

first_missing-some :
    (m l : HashMap Block) (offset : ℕ)
    → All (λ e. IsEntry e m) l
    → first_missing l ≡ some offset
    → (b : Block) × IsEntry (offset, b) m × (Block.is_complete b ≡ false)
unfolding first_missing
first_missing-some m [] offset a h = cc
first_missing-some m ((o, b) ∷ l) offset (i, a) h = elim (Bool-cases (Block.is_complete b)) [
  | inl t ↦ first_missing-some m l offset a (rw (t, first_missing) at h)
  | inr t ↦ let same : o ≡ offset = cc (rw (t, first_missing) at h) in (b, rw same at i, t)
]

first_missing-none :
    (l : HashMap Block) → first_missing l ≡ none → All (λ e. Block.is_complete (e.1) ≡ true) l
unfolding first_missing
first_missing-none [] h = tt
first_missing-none ((o, b) ∷ l) h = elim (Bool-cases (Block.is_complete b)) [
  | inl t ↦ (t, first_missing-none l (rw (t, first_missing) at h))
  | inr t ↦ cc (rw (t, first_missing) at h)
]

-- The offset that is chosen is that of a block of the piece that has not been received or written
-- (it may have been requested already), and none is chosen only if the piece is fully downloaded,
-- whatever the order in which the map is visited.
pub get_next_missing_block_lem :
    (order : HashOrder Block) (p : Piece)
    → ((offset : ℕ)
        → get_next_missing_block order p ≡ some offset
        → (b : Block) × IsEntry (offset, b) p.blocks × (Block.is_complete b ≡ false))
      × (get_next_missing_block order p ≡ none → is_fully_downloaded p ≡ true)
unfolding get_next_missing_block is_fully_downloaded
get_next_missing_block_lem order p =
    let m : HashMap Block = p.blocks in
    (
      (λ offset h.
          first_missing-some m (order.iter m) offset (order.visits_only _ m (All-entries m)) h),
      λ h. All→all _ m (order.visits_all _ m (first_missing-none (order.iter m) h)),
    )
