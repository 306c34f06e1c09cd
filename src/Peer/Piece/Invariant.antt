-- ===== src/Peer/Piece/Invariant.antt =====
-- What holds of every piece that `Piece::new` and the methods can make.
use mathlib.Core.Option
use motte_seed.Prelude.{
  length-append, ◌∙◌, sym, ℕ, ◌+◌, ◌-◌, ◌^◌, ◌<◌, ◌≡◌, refl, min, true, none, some, [], ◌∷◌, ◌++◌,
  ◌==◌, all, arith, length, ap, All, Bool-cases, inl, inr, Option-cases,
}
use motte_seed.Prelude.Assoc.{HashMap, adjust, map_values}
use motte_seed.Bytes.{Bytes}
use motte_seed.Peer.Block
use motte_seed.Peer.Block.{Block, BlockState, PeerIp}
use motte_seed.Peer.Piece.{Piece, complete, received_bytes}
use motte_seed.Peer.Piece.Tiles.{Tiles}
use motte_seed.Peer.Piece.Contents.{contents, contents-none, contents-some, contents_inv}

-- A block that has been received has its length in bytes.
abbrev pub Fits : ℕ × Block → Type 0
Fits (k, b) = (bytes : Bytes) → b.state ≡ BlockState.received bytes → length bytes ≡ b.length

-- The blocks cover the piece, and each that has been received has its length.
pub record IsLaidOut (p : Piece) : Type 0 where
  pub wide : 0 < p.block_size
  pub block_narrow : p.block_size < 2 ^ 32
  pub narrow : p.length < 2 ^ 32
  pub tiled : Tiles p.block_size p.length 0 p.blocks
  pub fits : All Fits p.blocks

-- A piece that counts as complete does not hold bytes with another digest.
abbrev pub IsChecked : (Bytes → Bytes) → Piece → Type 0
IsChecked sha1 p =
    p.state ≡ complete → (bytes : Bytes) → contents p.blocks ≡ some bytes → sha1 bytes ≡ p.hash

pub All-adjust {ℓ} :
    {V : Type 0} (P : ℕ × V → Type ℓ) (m : HashMap V) (k : ℕ) (f : V → V)
    → ((j : ℕ) (v : V) → P (j, v) → P (j, f v))
    → All P m
    → All P (adjust m k f)
unfolding adjust
All-adjust P [] k f h a = a
All-adjust P ((j, v) ∷ m) k f h a = ground (arith, h j v, All-adjust P m k f h)

pub All-map_values {ℓ} :
    {V : Type 0} (P : ℕ × V → Type ℓ) (m : HashMap V) (f : V → V)
    → ((j : ℕ) (v : V) → P (j, v) → P (j, f v))
    → All P m
    → All P (map_values f m)
unfolding map_values
All-map_values P [] f h a = a
All-map_values P ((j, v) ∷ m) f h a = (h j v a.0, All-map_values P m f h a.1)

pub Fits-receive :
    (d : Bytes)
    → length d < 2 ^ 32
    → (k : ℕ) (b : Block) → Fits (k, b)
    → Fits (k, Block.receive_data b d)
unfolding Block.receive_data
Fits-receive d h k b f bytes e = ground (arith, f bytes)

pub Fits-request :
    (ip : PeerIp) (now k : ℕ) (b : Block) → Fits (k, b) → Fits (k, Block.request_from_peer b ip now)
unfolding Block.request_from_peer
Fits-request ip now k b f bytes e = cc

pub Fits-cancle : (k : ℕ) (b : Block) → Fits (k, b) → Fits (k, Block.cancle b)
unfolding Block.cancle
Fits-cancle k b f bytes e = cc

pub Fits-reset : (now k : ℕ) (b : Block) → Fits (k, b) → Fits (k, (Block.reset b now).0)
unfolding Block.reset
Fits-reset now k b f bytes e = ground (arith, f bytes)

-- What the methods do to the gathered bytes.
pub contents-adjust_lost :
    (m : HashMap Block) (k : ℕ) (f : Block → Block) (bytes : Bytes)
    → ((b : Block) → received_bytes (some (f b)) ≡ none)
    → contents (adjust m k f) ≡ some bytes
    → contents m ≡ some bytes
unfolding adjust
contents-adjust_lost [] k f bytes h e = e
contents-adjust_lost ((j, b) ∷ m) k f bytes h e = elim (Bool-cases (j == k)) [
  | inl q ↦ cc (rw (q, contents-none j (f b) m (h b)) at e)
  | inr q ↦
      let kept : contents ((j, b) ∷ adjust m k f) ≡ some bytes = rw q at e in
      let (front, back, r, p, z) = contents_inv j b (adjust m k f) kept in
      contents-some j b m front (rw (r, received_bytes))
      ∙ ap (Option.map (λ t. front ++ t)) (contents-adjust_lost m k f back h p)
      ∙ ap some (sym z)
]

pub contents-map_values :
    (m : HashMap Block) (f : Block → Block)
    → ((b : Block) → received_bytes (some (f b)) ≡ received_bytes (some b))
    → contents (map_values f m) ≡ contents m
unfolding map_values
contents-map_values [] f h = refl
contents-map_values ((k, b) ∷ m) f h = elim (Option-cases (received_bytes (some b))) [
  | inl r ↦ contents-none k (f b) (map_values f m) (h b ∙ r) ∙ sym (contents-none k b m r)
  | inr (x, r) ↦
      contents-some k (f b) (map_values f m) x (h b ∙ r)
      ∙ ap (Option.map (λ t. x ++ t)) (contents-map_values m f h)
      ∙ sym (contents-some k b m x r)
]

pub contents_full :
    (m : HashMap Block) (bytes : Bytes)
    → contents m ≡ some bytes
    → all (λ e. Block.is_complete (e.1)) m ≡ true
unfolding Block.is_complete
contents_full [] bytes e = refl
contents_full ((k, b) ∷ m) bytes e =
    let (front, back, r, q, _) = contents_inv k b m e in ground (arith, r, contents_full m back q)

pub length-contents :
    (block_size len offset : ℕ) (m : HashMap Block) (bytes : Bytes)
    → Tiles block_size len offset m
    → All Fits m
    → contents m ≡ some bytes
    → length bytes + offset ≡ len
length-contents s len o [] bytes t f e = ground arith
length-contents s len o ((k, b) ∷ m) bytes t f e =
    let (front, back, r, q, z) = contents_inv k b m e in
    omega (
      arith,
      f.0 front r,
      length-contents s len (o + min s (len - o)) m back t.4 f.1 q,
      ap length z,
      length-append front back,
    )
