-- ===== src/Peer/Piece/Tiles.antt =====
-- Blocks that lie end to end over a piece.
use motte_seed.Prelude.{All, ℕ, ◌+◌, ◌-◌, ◌<◌, ◌≤◌, ◌≡◌, refl, min, [], ◌∷◌, ◌++◌, arith}
use motte_seed.Prelude.Assoc.{HashMap, get, adjust, map_values}
use motte_seed.Bytes.{Bytes}
use motte_seed.Peer.Block
use motte_seed.Peer.Block.{PeerIp, Block}

-- From `offset` to `length` the entries lie end to end, each under its own offset and as long as the
-- block size or, at the end, as what is left.
abbrev pub Tiles : ℕ → ℕ → ℕ → HashMap Block → Type 0
Tiles block_size length offset [] = offset ≡ length
Tiles block_size length offset ((k, b) ∷ m) =
    (k ≡ offset)
    × (b.offset ≡ offset)
    × (offset < length)
    × (b.length ≡ min block_size (length - offset))
    × Tiles block_size length (offset + min block_size (length - offset)) m

-- A change of a block that leaves its place alone.
abbrev pub KeepsPlace : (Block → Block) → Type 0
KeepsPlace f = (b : Block) → ((f b).length ≡ b.length) × ((f b).offset ≡ b.offset)

pub Tiles-adjust :
    (block_size length offset : ℕ) (m : HashMap Block) (k : ℕ) (f : Block → Block)
    → KeepsPlace f
    → Tiles block_size length offset m
    → Tiles block_size length offset (adjust m k f)
unfolding adjust
Tiles-adjust s l o [] k f h t = t
Tiles-adjust s l o ((j, b) ∷ m) k f h t =
    ground (arith, h b, Tiles-adjust s l (o + min s (l - o)) m k f h)

pub Tiles-map_values :
    (block_size length offset : ℕ) (m : HashMap Block) (f : Block → Block)
    → KeepsPlace f
    → Tiles block_size length offset m
    → Tiles block_size length offset (map_values f m)
unfolding map_values
Tiles-map_values s l o [] f h t = t
Tiles-map_values s l o ((j, b) ∷ m) f h t =
    ground (arith, h b, Tiles-map_values s l (o + min s (l - o)) m f h)

pub keeps-request : (ip : PeerIp) (now : ℕ) → KeepsPlace (λ b. Block.request_from_peer b ip now)
unfolding Block.request_from_peer
keeps-request ip now b = (refl, refl)

pub keeps-receive : (bytes : Bytes) → KeepsPlace (λ b. Block.receive_data b bytes)
unfolding Block.receive_data
keeps-receive bytes b = ground arith

pub keeps-cancle : KeepsPlace Block.cancle
unfolding Block.cancle
keeps-cancle b = (refl, refl)

pub keeps-reset : (now : ℕ) → KeepsPlace (λ b. (Block.reset b now).0)
unfolding Block.reset
keeps-reset now b = ground arith

-- The entries in front end where those behind begin.
pub get-front :
    (front m : HashMap Block) (offset k : ℕ)
    → All (λ e. e.0 < offset) front
    → offset ≤ k
    → get (front ++ m) k ≡ get m k
unfolding get
get-front [] m offset k h l = refl
get-front ((j, b) ∷ front) m offset k h l = ground (arith, get-front front m offset k)

-- A front grows by an entry that stands under its end.
pub front_grows :
    (m : HashMap Block) (offset k j : ℕ) (b : Block)
    → k < j
    → offset ≤ j
    → All (λ e. e.0 < offset) m
    → All (λ e. e.0 < j) (m ++ ((k, b) ∷ []))
front_grows [] offset k j b l o h = omega arith
front_grows ((i, c) ∷ m) offset k j b l o h = (omega arith, front_grows m offset k j b l o h.1)
