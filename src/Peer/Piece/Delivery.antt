-- ===== src/Peer/Piece/Delivery.antt =====
-- A piece that is sent all its blocks, in any order and some of them repeatedly, by peers that hold
-- its data.
use motte_seed.Prelude.{
  length-drop, length-take, ◌⊎◌, ℕ, ◌+◌, ◌-◌, ◌^◌, ◌<◌, ◌≡◌, refl, min, true, none, some, List, [],
  ◌∷◌, ◌++◌, take, drop, length, All, arith, sym, ap, ◌∙◌,
}
use motte_seed.Prelude.Assoc.{HashMap, get, adjust}
use motte_seed.Bytes.{Bytes}
use motte_seed.Peer.Block
use motte_seed.Peer.Block.{Block, BlockState}
use motte_seed.Peer.Piece.{false, received_bytes}
use motte_seed.Peer.Piece.Tiles.{Tiles}
use motte_seed.Peer.Piece.Contents.{contents, contents-some}
use motte_seed.Prelude.{
  length-take, length-drop, drop_all, drop-drop, ◌==◌, ◌≢◌, take-append-drop, all, Bool-cases, inl,
  inr, ◌⊎◌,
}
use mathlib.Core.Option
use motte_seed.Peer.Piece.Layout.{IsMissing}

abbrev pub IsListed : ℕ → List ℕ → Type 0
IsListed k [] = ⊥
IsListed k (j ∷ js) = (k ≡ j) ⊎ IsListed k js

-- The bytes of the data that lie in the block at an offset.
abbrev pub slice : Bytes → ℕ → ℕ → ℕ → Bytes
slice payload block_size len offset = take (min block_size (len - offset)) (drop offset payload)

-- A block that holds its slice, or waits for one of the offsets to come.
abbrev pub Holds : Bytes → ℕ → List ℕ → BlockState → Type 0
Holds s k rest (BlockState.received bytes) = bytes ≡ s
Holds s k rest BlockState.written = ⊥
Holds s k rest BlockState.missing = IsListed k rest
Holds s k rest (BlockState.requested ip now) = IsListed k rest

abbrev pub IsServed : Bytes → ℕ → ℕ → List ℕ → ℕ × Block → Type 0
IsServed payload s len rest (k, b) =
    (k < len) × (b.length ≡ min s (len - k)) × Holds (slice payload s len k) k rest b.state

module _ (payload : Bytes) (s len : ℕ) (wide : 0 < s) (short : len < 2 ^ 32)
    (covers : length payload ≡ len) where
  pub length-slice : (k : ℕ) → k < len → length (slice payload s len k) ≡ min s (len - k)
  length-slice k h =
      omega (arith, length-take (min s (len - k)) (drop k payload), length-drop k payload)

  Holds-skip :
      (t : Bytes) (k o : ℕ) (os : List ℕ) (st : BlockState)
      → k ≢ o
      → Holds t k (o ∷ os) st
      → Holds t k os st
  Holds-skip t k o os st l h = ground arith

  IsServed-later :
      (offset o : ℕ) (os : List ℕ) (m : HashMap Block)
      → o < offset
      → Tiles s len offset m
      → All (IsServed payload s len (o ∷ os)) m
      → All (IsServed payload s len os) m
  IsServed-later offset o os [] l t h = tt
  IsServed-later offset o os ((k, b) ∷ m) l t h = (
    ground (
      arith,
      Holds-skip (slice payload s len k) k o os b.state (λ e. omega arith) h.0.2,
      h.0,
      t.0,
    ),
    IsServed-later (offset + min s (len - offset)) o os m (omega arith) t.4 h.1,
  )

  IsServed-receive :
      (k o : ℕ) (os : List ℕ) (b : Block)
      → k ≡ o
      → IsServed payload s len (o ∷ os) (k, b)
      → IsServed payload s len os (k, Block.receive_data b (slice payload s len o))
  unfolding Block.receive_data
  IsServed-receive k o os b e (l, n, h) =
      let at : slice payload s len o ≡ slice payload s len k = ap (slice payload s len) (sym e) in
      ground (arith, length-slice k l, at)

  held :
      (t : Bytes) (k : ℕ) (rest : List ℕ) (b : Block)
      → Block.is_complete b ≡ true
      → Holds t k rest b.state
      → received_bytes (some b) ≡ some t
  unfolding Block.is_complete
  held t k rest b c h = ground arith

  front_back :
      (offset n : ℕ)
      → take n (drop offset payload) ++ drop (offset + n) payload ≡ drop offset payload
  front_back offset n =
      ap (λ r. take n (drop offset payload) ++ r) (sym (drop-drop n offset payload))
      ∙ take-append-drop n (drop offset payload)

  -- Full and served, the blocks hold the data.
  pub whole :
      (offset : ℕ) (rest : List ℕ) (m : HashMap Block)
      → Tiles s len offset m
      → All (IsServed payload s len rest) m
      → all (λ e. Block.is_complete (e.1)) m ≡ true
      → contents m ≡ some (drop offset payload)
  whole offset rest [] t h c = ap some (sym (drop_all offset payload (omega arith)))
  whole offset rest ((k, b) ∷ m) t h c =
      let n : ℕ = min s (len - offset) in
      contents-some k b m (slice payload s len k) (held _ k rest b (ground arith) h.0.2)
      ∙ ap (Option.map (λ r. slice payload s len k ++ r))
          (whole (offset + n) rest m t.4 h.1 (ground arith))
      ∙ ap some
          (ap (λ j. slice payload s len j ++ drop (offset + n) payload) t.0 ∙ front_back offset n)

  pub IsServed-adjust :
      (offset o : ℕ) (os : List ℕ) (m : HashMap Block)
      → Tiles s len offset m
      → All (IsServed payload s len (o ∷ os)) m
      → All
          (IsServed payload s len os)
          (adjust m o (λ b. Block.receive_data b (slice payload s len o)))
  unfolding adjust
  IsServed-adjust offset o os [] t h = tt
  IsServed-adjust offset o os ((k, b) ∷ m) t h = elim (Bool-cases (k == o)) [
    | inl e ↦ rw e (
      IsServed-receive k o os b (ground arith) h.0,
      IsServed-later (offset + min s (len - offset)) o os m (ground arith) t.4 h.1,
    )
    | inr e ↦ rw e (
      (h.0.0, h.0.1, Holds-skip (slice payload s len k) k o os b.state (λ q. ground arith) h.0.2),
      IsServed-adjust (offset + min s (len - offset)) o os m t.4 h.1,
    )
  ]

pub adjust_absent :
    (m : HashMap Block) (k : ℕ) (f : Block → Block) → get m k ≡ none → adjust m k f ≡ m
unfolding get adjust
adjust_absent [] k f h = refl
adjust_absent ((j, b) ∷ m) k f h = ground (arith, adjust_absent m k f)

pub all_served :
    (payload : Bytes) (s len : ℕ) (m : HashMap Block)
    → All (IsServed payload s len []) m
    → all (λ e. Block.is_complete (e.1)) m ≡ true
unfolding Block.is_complete
all_served payload s len [] h = refl
all_served payload s len ((k, b) ∷ m) h = ground (arith, h.0.2, all_served payload s len m h.1)

pub fresh-IsServed :
    (payload : Bytes) (s len offset : ℕ) (os : List ℕ) (m : HashMap Block)
    → Tiles s len offset m
    → All IsMissing m
    → All (λ e. IsListed e.0 os) m
    → All (IsServed payload s len os) m
fresh-IsServed payload s len offset os [] t a l = tt
fresh-IsServed payload s len offset os ((k, b) ∷ m) t a l = (
  ground (arith, a.0, l.0, t),
  fresh-IsServed payload s len (offset + min s (len - offset)) os m t.4 a.1 l.1,
)

pub not_yet_full :
    (s len : ℕ) (m : HashMap Block)
    → 0 < len
    → Tiles s len 0 m
    → All IsMissing m
    → all (λ e. Block.is_complete (e.1)) m ≡ false
unfolding Block.is_complete
not_yet_full s len [] h t a = absurd (omega arith)
not_yet_full s len ((k, b) ∷ m) h t a = ground (arith, a.0)
