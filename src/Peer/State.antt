-- ===== src/Peer/State.antt =====
-- src/core/peer/peer_state.rs: what is known of one peer, and which pieces it has.
-- `f64` is a type with the operations that the code uses of it. The clock is an argument, in
-- nanoseconds.
use motte_seed.Prelude.{
  ℕ, ◌+◌, ◌-◌, ◌/◌, ◌%◌, ◌^◌, Bool, true, false, ◌&&◌, Option, none, some, List, [], ltb, ◌==◌,
  if◌then◌else◌, length,
}
use motte_seed.Bytes.{Bytes, at}

pub record Float : Type 1 where
  pub F64 : Type 0
  pub zero_rate : F64
  -- `as f64` of a `u64`, `as_secs_f64` of a duration, and the two tests and the quotient.
  pub of_u64 : ℕ → F64
  pub as_secs : ℕ → F64
  pub at_least_one : F64 → Bool
  pub divide : F64 → F64 → F64

pub record PeerState (F : Type 0) : Type 0 where
  pub am_choking : Bool
  pub am_interested : Bool
  pub peer_choking : Bool
  pub peer_interested : Bool
  pub bitfield : Option Bytes
  pub requested_blocks : List (ℕ × ℕ × ℕ)
  pub downloaded : ℕ
  pub uploaded : ℕ
  pub download_rate : F
  pub upload_rate : F
  pub last_download_calc : ℕ
  pub last_upload_calc : ℕ
  pub prev_downloaded : ℕ
  pub prev_uploaded : ℕ

-- `byte & (1 << k) != 0`
unfoldable pub has_bit : ℕ → ℕ → Bool
has_bit byte k = byte / 2 ^ k % 2 == 1

-- `bitfield` at a piece's bit, the highest bit of a byte first.
unfoldable pub bit_of : Bytes → ℕ → Bool
bit_of bitfield index =
    ltb (index / 8) (length bitfield) && has_bit (at bitfield (index / 8)) (7 - index % 8)

-- `a - b` on u64
abbrev pub sub64 : ℕ → ℕ → ℕ
sub64 a b = (a + 2 ^ 64 - b) % 2 ^ 64

module _ (float : Float) where
  open float use {F64, zero_rate, of_u64, as_secs, at_least_one, divide}

  unfoldable pub new : Option Bytes → ℕ → PeerState F64
  new bitfield now = record {
    am_choking = true;
    am_interested = false;
    peer_choking = true;
    peer_interested = false;
    bitfield = bitfield;
    requested_blocks = [];
    downloaded = 0;
    uploaded = 0;
    download_rate = zero_rate;
    upload_rate = zero_rate;
    last_download_calc = now;
    last_upload_calc = now;
    prev_downloaded = 0;
    prev_uploaded = 0;
  }

  unfoldable pub update_download_rate : PeerState F64 → ℕ → PeerState F64
  update_download_rate s now =
      let elapsed = as_secs (now - s.last_download_calc) in
      if at_least_one elapsed
      then record s {
        download_rate = divide (of_u64 (sub64 s.downloaded s.prev_downloaded)) elapsed;
        prev_downloaded = s.downloaded;
        last_download_calc = now;
      }
      else s

  unfoldable pub update_upload_rate : PeerState F64 → ℕ → PeerState F64
  update_upload_rate s now =
      let elapsed = as_secs (now - s.last_upload_calc) in
      if at_least_one elapsed
      then record s {
        upload_rate = divide (of_u64 (sub64 s.uploaded s.prev_uploaded)) elapsed;
        prev_uploaded = s.uploaded;
        last_upload_calc = now;
      }
      else s

  unfoldable pub has_piece : PeerState F64 → ℕ → Bool
  has_piece s index = elim s.bitfield [ some bitfield ↦ bit_of bitfield index | none ↦ false ]
