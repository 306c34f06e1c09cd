-- ===== src/Peer/Piece.antt =====
-- src/core/peer/piece/piece.rs: a piece, the map of its blocks, and its check against the hash.
-- `sha1` is the digest of the `sha1` crate. A loop over offsets takes fuel, and `none` says that
-- it ran out; `get_piece_data` and `verify` give theirs one round for each byte.
pub mod Tiles
pub mod Layout
pub mod NextBlock
pub mod Contents
pub mod Invariant
pub mod Check
pub mod Steps
pub mod Integrity
pub mod Delivery
pub mod OnTheWay
pub mod Asked
pub mod Checked
pub mod Arrival
use motte_seed.Prelude.{
  ℕ, zero, suc, ◌+◌, ◌-◌, ◌%◌, ◌^◌, min, Bool, true, false, Option, none, some, [], ◌∷◌, ◌++◌, not,
  ltb, if◌then◌else◌, all,
}
use motte_seed.Prelude.Assoc.{HashMap, HashOrder, get, insert, adjust, map_values}
use motte_seed.Bytes.{Bytes, bytes_eq}
use motte_seed.Peer.Block
use motte_seed.Peer.Block.{Block, BlockState, PeerIp}

pub data PieceState : Type 0 where
  missing incomplete complete written : PieceState

pub record Piece : Type 0 where
  pub index : ℕ
  pub length : ℕ
  pub hash : Bytes
  pub blocks : HashMap Block
  pub state : PieceState
  pub block_size : ℕ
  pub priority : ℕ

-- `(length - offset) as u32`, cut to the block size.
abbrev pub block_length : ℕ → ℕ → ℕ → ℕ
block_length block_size length offset = min block_size ((length - offset) % 2 ^ 32)

unfoldable pub new_blocks : ℕ → ℕ → ℕ → ℕ → ℕ → HashMap Block → Option (HashMap Block)
new_blocks zero index length block_size offset blocks = none
new_blocks (suc fuel) index length block_size offset blocks =
    let n = block_length block_size length offset in
    let rest =
      new_blocks fuel index length block_size ((offset + n) % 2 ^ 64)
        (insert blocks offset (Block.new index offset n)) in
    if ltb offset length then rest else some blocks

unfoldable pub new : ℕ → ℕ → Bytes → ℕ → Option Piece
new index length hash block_size = elim (new_blocks (suc length) index length block_size 0 []) [
  | none ↦ none
  | some blocks ↦ some (record {
    index = index;
    length = length;
    hash = hash;
    blocks = blocks;
    state = missing;
    block_size = block_size;
    priority = 1;
  })
]

unfoldable pub request_from_peer : Piece → ℕ → PeerIp → ℕ → Piece
request_from_peer p offset peer_ip now = record p {
  blocks = adjust p.blocks offset (λ b. Block.request_from_peer b peer_ip now);
}

unfoldable pub is_fully_downloaded : Piece → Bool
is_fully_downloaded p = all (λ e. Block.is_complete (e.1)) p.blocks

-- The bytes of a block that has been received.
abbrev pub received_bytes : Option Block → Option Bytes
received_bytes none = none
received_bytes (some b) = elim b.state [ BlockState.received bytes ↦ some bytes | _ ↦ none ]

-- The loop of `verify`, which steps by the block size: `some none` is its `return false`.
unfoldable pub combine : ℕ → Piece → ℕ → Bytes → Option (Option Bytes)
combine zero p offset buf = none
combine (suc fuel) p offset buf =
    let step =
      λ (bytes : Bytes). combine fuel p ((offset + p.block_size) % 2 ^ 64) (buf ++ bytes) in
    if ltb offset p.length
    then elim (received_bytes (get p.blocks offset)) [ none ↦ some none | some bytes ↦ step bytes ]
    else some (some buf)

module _ (sha1 : Bytes → Bytes) where
  unfoldable pub check_hash : Piece → Option Bytes → Piece × Bool
  check_hash p none = (p, false)
  check_hash p (some buf) =
      if bytes_eq (sha1 buf) p.hash
      then (record p { state = complete }, true)
      else (record p { blocks = map_values Block.cancle p.blocks; state = missing }, false)

  unfoldable pub verify : Piece → Option (Piece × Bool)
  unfolding check_hash
  verify p = elim (combine (suc p.length) p 0 []) [ none ↦ none | some r ↦ some (check_hash p r) ]

  unfoldable pub verify_if_full : Piece → Option (Piece × Bool)
  verify_if_full p =
      if is_fully_downloaded p
      then elim (verify p) [ none ↦ none | some r ↦ some (r.0, true) ]
      else some (p, true)

  unfoldable pub receive_block : Piece → ℕ → Bytes → Option (Piece × Bool)
  unfolding verify_if_full
  receive_block p offset bytes = elim (get p.blocks offset) [
    | none ↦ some (p, false)
    | some _ ↦
        verify_if_full
          (record p { blocks = adjust p.blocks offset (λ b. Block.receive_data b bytes) })
  ]

unfoldable pub mask_written : Piece → Piece
mask_written p = record p { state = written }

first_missing : HashMap Block → Option ℕ
first_missing [] = none
first_missing ((offset, b) ∷ m) = if not (Block.is_complete b) then some offset else first_missing m

unfoldable pub get_next_missing_block : HashOrder Block → Piece → Option ℕ
unfolding first_missing
get_next_missing_block order p = first_missing (order.iter p.blocks)

reset_ips : HashMap Block → ℕ → HashMap PeerIp
reset_ips [] now = []
reset_ips ((offset, b) ∷ m) now =
    let rest = reset_ips m now in
    elim ((Block.reset b now).1) [ some ip ↦ (offset, ip) ∷ rest | none ↦ rest ]

unfoldable pub reset_timeout_requests : Piece → ℕ → Piece × HashMap PeerIp
unfolding reset_ips
reset_timeout_requests p now =
    (record p { blocks = map_values (λ b. (Block.reset b now).0) p.blocks }, reset_ips p.blocks now)

is_done : PieceState → Bool
is_done complete = true
is_done written = true
is_done _ = false

unfoldable pub is_complete : Piece → Bool
unfolding is_done
is_complete p = is_done p.state

-- The loop of `get_piece_data`, which steps by each block's own length.
unfoldable pub collect : ℕ → Piece → ℕ → Bytes → Option (Option Bytes)
collect zero p offset acc = none
collect (suc fuel) p offset acc =
    let step =
      λ (b : Block) (bytes : Bytes). collect fuel p ((offset + b.length) % 2 ^ 64) (acc ++ bytes) in
    if ltb offset p.length
    then elim (get p.blocks offset) [
      | none ↦ some none
      | some b ↦ elim b.state [ BlockState.received bytes ↦ step b bytes | _ ↦ some none ]
    ]
    else some (some acc)

unfoldable pub is_verified : PieceState → Bool
is_verified complete = true
is_verified _ = false

unfoldable pub get_piece_data : Piece → Option (Option Bytes)
unfolding is_verified
get_piece_data p = if is_verified p.state then collect (suc p.length) p 0 [] else some none
