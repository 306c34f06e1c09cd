-- ===== src/Peer/Piece/Contents.antt =====
-- The two loops that gather a piece's bytes, over blocks that lie end to end.
use motte_seed.Prelude.{
  ℕ, zero, suc, ◌+◌, ◌-◌, ◌%◌, ◌^◌, ◌<◌, ◌≤◌, ◌≡◌, refl, min, Option, none, some, [], ◌∷◌, ◌++◌,
  arith, append_assoc, append-nil, sym, Option-cases, ap, ◌∙◌, All, inl, inr, lt→ltb, le→ltb_false,
}
use motte_seed.Prelude.Assoc.{HashMap, get}
use motte_seed.Bytes.{Bytes}
use motte_seed.Peer.Block.{Block, BlockState}
use motte_seed.Peer.Piece.{Piece, combine, collect, received_bytes}
use motte_seed.Peer.Piece.Tiles.{front_grows, Tiles, get-front}
use mathlib.Core.Option

-- The bytes of all blocks, one after the other, if each has been received.
abbrev pub contents : HashMap Block → Option Bytes
contents [] = some []
contents ((k, b) ∷ m) = elim (received_bytes (some b)) [
  | none ↦ none
  | some bytes ↦ Option.map (λ r. bytes ++ r) (contents m)
]

append-Option :
    (a b : Bytes) (o : Option Bytes)
    → Option.map (λ r. (a ++ b) ++ r) o ≡ Option.map (λ r. a ++ r) (Option.map (λ r. b ++ r) o)
append-Option a b none = refl
append-Option a b (some r) = ap some (append_assoc a b r)

pub contents-none :
    (k : ℕ) (b : Block) (m : HashMap Block)
    → received_bytes (some b) ≡ none
    → contents ((k, b) ∷ m) ≡ none
contents-none k b m e = rw (e, contents)

pub contents-some :
    (k : ℕ) (b : Block) (m : HashMap Block) (bytes : Bytes)
    → received_bytes (some b) ≡ some bytes
    → contents ((k, b) ∷ m) ≡ Option.map (λ r. bytes ++ r) (contents m)
contents-some k b m bytes e = rw (e, contents)

received_state :
    (b : Block) (bytes : Bytes)
    → received_bytes (some b) ≡ some bytes
    → b.state ≡ BlockState.received bytes
received_state b bytes h = ground arith

-- What is gathered from a block and the others behind it.
pub contents_inv :
    (k : ℕ) (b : Block) (m : HashMap Block) {bytes : Bytes}
    → contents ((k, b) ∷ m) ≡ some bytes
    → (front back : Bytes) × (b.state ≡ BlockState.received front)
      × (contents m ≡ some back)
      × (bytes ≡ front ++ back)
contents_inv k b m e = elim (Option-cases (received_bytes (some b))) [
  | inl r ↦ cc (e, contents-none k b m r)
  | inr (front, r) ↦
      let gather = sym e ∙ contents-some k b m front r in
      elim (Option-cases (contents m)) [
        | inl n ↦ cc (rw n at gather)
        | inr (back, q) ↦ (front, back, received_state b front r, q, cc (rw q at gather))
      ]
]

module _ (p : Piece) (narrow : p.length < 2 ^ 32) where
  clip :
      (offset : ℕ)
      → offset < p.length
      → min offset p.length + min p.block_size (p.length - min offset p.length)
        ≡ min (offset + p.block_size) p.length
  clip offset h = omega arith

  gathered :
      (k : ℕ) (b : Block) (m : HashMap Block) (buf bytes : Bytes)
      → received_bytes (some b) ≡ some bytes
      → ◌≡◌ {A = Option (Option Bytes)}
          (some (Option.map (λ r. (buf ++ bytes) ++ r) (contents m)))
          (some (Option.map (λ r. buf ++ r) (contents ((k, b) ∷ m))))
  gathered k b m buf bytes r = ap some (
      append-Option buf bytes (contents m)
      ∙ ap (Option.map (λ r. buf ++ r)) (sym (contents-some k b m bytes r)))

  get_at :
      (front : HashMap Block) (k : ℕ) (b : Block) (m : HashMap Block) (offset : ℕ)
      → p.blocks ≡ front ++ ((k, b) ∷ m)
      → All (λ e. e.0 < offset) front
      → k ≡ offset
      → get p.blocks offset ≡ some b
  unfolding get
  get_at front k b m offset e hf hk =
      rw e (get-front front ((k, b) ∷ m) offset offset hf (omega arith) ∙ ground arith)

  combine_end :
      (fuel offset : ℕ) (buf : Bytes)
      → p.length ≤ offset
      → combine (suc fuel) p offset buf ≡ some (some buf)
  unfolding combine
  combine_end fuel offset buf h = rw (le→ltb_false offset p.length h)

  combine-none :
      (fuel offset : ℕ) (buf : Bytes) (b : Block)
      → offset < p.length
      → get p.blocks offset ≡ some b
      → received_bytes (some b) ≡ none
      → combine (suc fuel) p offset buf ≡ some none
  unfolding combine
  combine-none fuel offset buf b h e r = rw (lt→ltb offset p.length h, e) (rw (r, combine))

  combine-some :
      (fuel offset : ℕ) (buf : Bytes) (b : Block) (bytes : Bytes)
      → p.block_size < 2 ^ 32
      → offset < p.length
      → get p.blocks offset ≡ some b
      → received_bytes (some b) ≡ some bytes
      → combine (suc fuel) p offset buf ≡ combine fuel p (offset + p.block_size) (buf ++ bytes)
  unfolding combine
  combine-some fuel offset buf b bytes hs h e r =
      let small : (offset + p.block_size) % 2 ^ 64 ≡ offset + p.block_size = omega arith in
      rw (lt→ltb offset p.length h, e) (rw (r, combine) (rw (small, combine)))

  -- The loop of `verify` gathers the bytes of all blocks, or finds one that has not been received.
  pub combine-contents :
      (fuel : ℕ) (front m : HashMap Block) (offset : ℕ) (buf : Bytes)
      → p.blocks ≡ front ++ m
      → All (λ e. e.0 < offset) front
      → 0 < p.block_size
      → p.block_size < 2 ^ 32
      → Tiles p.block_size p.length (min offset p.length) m
      → p.length - offset < fuel
      → combine fuel p offset buf ≡ some (Option.map (λ r. buf ++ r) (contents m))
  combine-contents zero front m offset buf e hf hs hb t f = absurd (omega arith)
  combine-contents (suc fuel) front [] offset buf e hf hs hb t f =
      combine_end fuel offset buf (omega arith) ∙ ap (λ b. some (some b)) (sym (append-nil buf))
  combine-contents (suc fuel) front ((k, b) ∷ m) offset buf e hf hs hb (tk, to, tl, tn, tr) f =
      let at = get_at front k b m offset e hf (omega arith) in
      elim (Option-cases (received_bytes (some b))) [
        | inl r ↦ combine-none fuel offset buf b (omega arith) at r ∙ rw (contents-none k b m r)
        | inr (bytes, r) ↦
            combine-some fuel offset buf b bytes hb (omega arith) at r
            ∙ combine-contents fuel (front ++ ((k, b) ∷ [])) m (offset + p.block_size)
                (buf ++ bytes) (e ∙ sym (append_assoc front ((k, b) ∷ []) m))
                (front_grows front offset k (offset + p.block_size) b (omega arith) (omega arith)
                  hf)
                hs hb (rw (clip offset (omega arith)) at tr) (omega arith)
            ∙ gathered k b m buf bytes r
      ]

  collect_end :
      (fuel offset : ℕ) (acc : Bytes)
      → p.length ≤ offset
      → collect (suc fuel) p offset acc ≡ some (some acc)
  unfolding collect
  collect_end fuel offset acc h = rw (le→ltb_false offset p.length h)

  collect-none :
      (fuel offset : ℕ) (acc : Bytes) (b : Block)
      → offset < p.length
      → get p.blocks offset ≡ some b
      → received_bytes (some b) ≡ none
      → collect (suc fuel) p offset acc ≡ some none
  unfolding collect
  collect-none fuel offset acc b h e r = rw (lt→ltb offset p.length h, e) (ground arith)

  collect-some :
      (fuel offset : ℕ) (acc : Bytes) (b : Block) (bytes : Bytes)
      → b.length ≡ min p.block_size (p.length - offset)
      → offset < p.length
      → get p.blocks offset ≡ some b
      → received_bytes (some b) ≡ some bytes
      → collect (suc fuel) p offset acc
        ≡ collect fuel p (offset + min p.block_size (p.length - offset)) (acc ++ bytes)
  unfolding collect
  collect-some fuel offset acc b bytes n h e r =
      let small : (offset + b.length) % 2 ^ 64 ≡ offset + min p.block_size (p.length - offset) =
        omega arith in
      rw (lt→ltb offset p.length h, e)
        (rw (received_state b bytes r, collect) (rw (small, collect)))

  -- So does the loop of `get_piece_data`.
  pub collect-contents :
      (fuel : ℕ) (front m : HashMap Block) (offset : ℕ) (acc : Bytes)
      → p.blocks ≡ front ++ m
      → All (λ e. e.0 < offset) front
      → 0 < p.block_size
      → Tiles p.block_size p.length offset m
      → p.length - offset < fuel
      → collect fuel p offset acc ≡ some (Option.map (λ r. acc ++ r) (contents m))
  collect-contents zero front m offset acc e hf hs t f = absurd (omega arith)
  collect-contents (suc fuel) front [] offset acc e hf hs t f =
      collect_end fuel offset acc (omega arith) ∙ ap (λ b. some (some b)) (sym (append-nil acc))
  collect-contents (suc fuel) front ((k, b) ∷ m) offset acc e hf hs (tk, to, tl, tn, tr) f =
      let at = get_at front k b m offset e hf tk in
      let next : ℕ = offset + min p.block_size (p.length - offset) in
      elim (Option-cases (received_bytes (some b))) [
        | inl r ↦ collect-none fuel offset acc b tl at r ∙ rw (contents-none k b m r)
        | inr (bytes, r) ↦
            collect-some fuel offset acc b bytes tn tl at r
            ∙ collect-contents fuel (front ++ ((k, b) ∷ [])) m next (acc ++ bytes)
                (e ∙ sym (append_assoc front ((k, b) ∷ []) m))
                (front_grows front offset k next b (omega arith) (omega arith) hf) hs tr
                (omega arith)
            ∙ gathered k b m acc bytes r
      ]

nothing_in_front : (o : Option Bytes) → Option.map (λ r. [] ++ r) o ≡ o
nothing_in_front none = refl
nothing_in_front (some r) = refl

module _ (p : Piece) (narrow : p.length < 2 ^ 32) (wide : 0 < p.block_size)
    (tiled : Tiles p.block_size p.length 0 p.blocks) where
  -- Enough rounds for either loop are one for each byte, and one to see the end.
  pub combine-all : p.block_size < 2 ^ 32 → combine (suc p.length) p 0 [] ≡ some (contents p.blocks)
  combine-all block_narrow =
      let start : min 0 p.length ≡ 0 = omega arith in
      combine-contents p narrow (suc p.length) [] p.blocks 0 [] refl tt wide block_narrow
        (rw start tiled) (omega arith)
      ∙ ap some (nothing_in_front (contents p.blocks))

  pub collect-all : collect (suc p.length) p 0 [] ≡ some (contents p.blocks)
  collect-all =
      collect-contents p narrow (suc p.length) [] p.blocks 0 [] refl tt wide tiled (omega arith)
      ∙ ap some (nothing_in_front (contents p.blocks))
