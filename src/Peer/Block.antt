-- ===== src/Peer/Block.antt =====
-- src/core/peer/piece/block.rs: a block of a piece and the state of its download.
-- `&mut self` methods return the new block. Where the code reads `Instant::now()` the model takes
-- the time as an argument, in nanoseconds.
use motte_seed.Prelude.{
  ℕ, ◌-◌, ◌*◌, ◌%◌, ◌^◌, Bool, true, false, Option, none, some, ltb, ◌==◌, if◌then◌else◌, length,
}
use motte_seed.Bytes.{Bytes}

-- Four bytes of IPv4 address and two of port.
abbrev pub PeerIp : Type 0
PeerIp = Bytes

pub data BlockState : Type 0 where
  missing : BlockState
  requested : PeerIp → ℕ → BlockState
  received : Bytes → BlockState
  written : BlockState

pub record Block : Type 0 where
  pub index : ℕ
  pub offset : ℕ
  pub length : ℕ
  pub state : BlockState

-- 120 seconds.
abbrev pub timeout : ℕ
timeout = 120 * 10 ^ 9

unfoldable pub new : ℕ → ℕ → ℕ → Block
new index offset length = record {
  index = index;
  offset = offset;
  length = length;
  state = missing;
}

unfoldable pub request_from_peer : Block → PeerIp → ℕ → Block
request_from_peer b peer_ip now = record b { state = requested peer_ip now }

unfoldable pub cancle : Block → Block
cancle b = record b { state = missing }

expired : BlockState → ℕ → Option PeerIp
expired (requested peer_ip instant) now = if ltb timeout (now - instant) then some peer_ip else none
expired _ now = none

unfoldable pub reset : Block → ℕ → Block × Option PeerIp
unfolding expired cancle
reset b now = elim (expired b.state now) [
  | some peer_ip ↦ (cancle b, some peer_ip)
  | none ↦ (b, none)
]

-- `bytes.len() as u32 == self.length`
unfoldable pub receive_data : Block → Bytes → Block
receive_data b bytes =
    if length bytes % 2 ^ 32 == b.length then record b { state = received bytes } else b

unfoldable pub mask_written : Block → Block
mask_written b = record b { state = written }

is_done : BlockState → Bool
is_done (received bytes) = true
is_done written = true
is_done _ = false

unfoldable pub is_complete : Block → Bool
unfolding is_done
is_complete b = is_done b.state
