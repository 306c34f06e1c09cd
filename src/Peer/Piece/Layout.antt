-- ===== src/Peer/Piece/Layout.antt =====
-- `Piece::new` cuts a piece shorter than 2^32 bytes into blocks that lie end to end, and does not
-- end on a longer one.
use motte_seed.Prelude.{
  ℕ, zero, suc, ◌+◌, ◌-◌, ◌%◌, ◌^◌, ◌<◌, ◌≤◌, ◌≡◌, refl, none, some, [], ◌∷◌, ◌++◌, ltb,
  if◌then◌else◌, arith, append_assoc, append-nil, ap, ◌∙◌, All, Bool-cases, inl, inr, ltb→lt,
}
use motte_seed.Prelude.Assoc.{HashMap, insert}
use motte_seed.Bytes.{Bytes, IsU64}
use motte_seed.Peer.Block
use motte_seed.Peer.Block.{Block}
use motte_seed.Peer.Piece.{Piece, missing, new, new_blocks, block_length}
use motte_seed.Peer.Piece.Tiles.{front_grows, Tiles}

insert_behind :
    (m : HashMap Block) (k : ℕ) (b : Block)
    → All (λ e. e.0 < k) m
    → insert m k b ≡ m ++ ((k, b) ∷ [])
unfolding insert
insert_behind [] k b h = refl
insert_behind ((j, c) ∷ m) k b h = ground (arith, insert_behind m k b)

module _ (index length block_size : ℕ) where
  -- The blocks from an offset on.
  pub tiling : ℕ → ℕ → HashMap Block
  tiling zero offset = []
  tiling (suc fuel) offset =
      let n = block_length block_size length offset in
      let rest = tiling fuel (offset + n) in
      if ltb offset length then (offset, Block.new index offset n) ∷ rest else []

  tiling-Tiles :
      (fuel offset : ℕ)
      → 0 < block_size
      → length < 2 ^ 32
      → offset ≤ length
      → length - offset < fuel
      → Tiles block_size length offset (tiling fuel offset)
  unfolding tiling Block.new
  tiling-Tiles zero offset hs hl ho hf = absurd (omega arith)
  tiling-Tiles (suc fuel) offset hs hl ho hf =
      ground (arith, tiling-Tiles fuel (offset + block_length block_size length offset))

  -- One round of the loop, from what the rest of it returns.
  new_blocks-tiling_step :
      (fuel offset : ℕ) (blocks : HashMap Block)
      → let n : ℕ = block_length block_size length offset in
        let b : Block = Block.new index offset n in
        length < 2 ^ 32
        → offset < length
        → All (λ e. e.0 < offset) blocks
        → new_blocks fuel index length block_size (offset + n) (blocks ++ ((offset, b) ∷ []))
          ≡ some ((blocks ++ ((offset, b) ∷ [])) ++ tiling fuel (offset + n))
        → new_blocks fuel index length block_size ((offset + n) % 2 ^ 64) (insert blocks offset b)
          ≡ some (blocks ++ ((offset, b) ∷ tiling fuel (offset + n)))
  new_blocks-tiling_step fuel offset blocks hl lt hb ih =
      let n : ℕ = block_length block_size length offset in
      let small : (offset + n) % 2 ^ 64 ≡ offset + n = omega arith in
      rw (small, insert_behind blocks offset (Block.new index offset n) hb)
        (ih ∙ ap some (append_assoc blocks _ _))

  new_blocks-tiling :
      (fuel offset : ℕ) (blocks : HashMap Block)
      → 0 < block_size
      → length < 2 ^ 32
      → offset ≤ length
      → length - offset < fuel
      → All (λ e. e.0 < offset) blocks
      → new_blocks fuel index length block_size offset blocks ≡ some (blocks ++ tiling fuel offset)
  unfolding new_blocks tiling
  new_blocks-tiling zero offset blocks hs hl ho hf hb = absurd (omega arith)
  new_blocks-tiling (suc fuel) offset blocks hs hl ho hf hb =
      let n : ℕ = block_length block_size length offset in
      elim (Bool-cases (ltb offset length)) [
        | inl e ↦ rw e (
            new_blocks-tiling_step fuel offset blocks hl (ltb→lt _ _ e) hb (
              new_blocks-tiling fuel (offset + n)
                (blocks ++ ((offset, Block.new index offset n) ∷ [])) hs hl (ground arith)
                (ground arith)
                (front_grows blocks offset offset (offset + n) _ (ground arith) (ground arith) hb)))
        | inr e ↦ rw (e, append-nil)
      ]

  -- A piece of 2^32 bytes or more: the loop has 2^32 bytes left or more whenever it tests, so it
  -- never ends.
  pub new_blocks_endless :
      (fuel offset : ℕ) (blocks : HashMap Block)
      → IsU64 length
      → offset + 2 ^ 32 ≤ length
      → new_blocks fuel index length block_size offset blocks ≡ none
  unfolding new_blocks
  new_blocks_endless zero offset blocks hl h = refl
  new_blocks_endless (suc fuel) offset blocks hl h =
      let n : ℕ = block_length block_size length offset in
      ground (
        arith,
        new_blocks_endless fuel ((offset + n) % 2 ^ 64)
            (insert blocks offset (Block.new index offset n)),
      )

abbrev pub IsMissing : ℕ × Block → Type 0
IsMissing e = e.1.state ≡ Block.missing

tiling-IsMissing :
    (index length block_size fuel offset : ℕ)
    → All IsMissing (tiling index length block_size fuel offset)
unfolding tiling Block.new
tiling-IsMissing i l s zero offset = tt
tiling-IsMissing i l s (suc fuel) offset =
    ground (arith, tiling-IsMissing i l s fuel (offset + block_length s l offset))

-- What `Piece::new` promises.
pub record IsFresh (length : ℕ) (hash : Bytes) (block_size : ℕ) (p : Piece) : Type 0 where
  pub length_is : p.length ≡ length
  pub hash_is : p.hash ≡ hash
  pub block_size_is : p.block_size ≡ block_size
  pub state_is : p.state ≡ missing
  pub tiled : Tiles block_size length 0 p.blocks
  pub all_missing : All IsMissing p.blocks

-- With blocks of one byte or more and a piece of fewer than 2^32 bytes, `Piece::new` ends, and its
-- blocks are missing, lie end to end from 0 to the piece's length, and have the block size or, at
-- the end, what is left.
pub new-IsFresh :
    (index length : ℕ) (hash : Bytes) (block_size : ℕ)
    → 0 < block_size
    → length < 2 ^ 32
    → (p : Piece) × (new index length hash block_size ≡ some p) × IsFresh length hash block_size p
unfolding new
new-IsFresh index length hash block_size hs hl =
    let e =
      new_blocks-tiling index length block_size (suc length) 0 [] hs hl (omega arith) (omega arith)
        tt in
    (
      record {
        index = index;
        length = length;
        hash = hash;
        blocks = tiling index length block_size (suc length) 0;
        state = missing;
        block_size = block_size;
        priority = 1;
      },
      rw (e, new),
      record {
        length_is = refl;
        hash_is = refl;
        block_size_is = refl;
        state_is = refl;
        tiled =
            tiling-Tiles index length block_size (suc length) 0 hs hl (omega arith) (omega arith);
        all_missing = tiling-IsMissing index length block_size (suc length) 0;
      },
    )
