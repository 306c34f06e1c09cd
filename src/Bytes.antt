-- ===== src/Bytes.antt =====
-- Byte strings, the big-endian conversions of Rust's integers, and what the code uses of the
-- `bytes` crate (src/core/peer/message.rs, src/core/peer/peer_connection.rs).
pub mod Distinct
use motte_seed.Prelude.{
  Option, none, some, if◌then◌else◌, false, ◌&&◌, ◌||◌, ◌==◌, true, Bool, ℕ, ◌+◌, ◌*◌, ◌/◌, ◌%◌,
  ◌^◌, ◌≤◌, ◌<◌, ◌≡◌, refl, List, [], ◌∷◌, ◌++◌, arith, length, get_or, take, drop,
}

-- `Bytes`, `Vec<u8>`, `&[u8]` and `[u8; n]`.
abbrev pub Bytes : Type 0
Bytes = List ℕ

abbrev pub IsU8 : ℕ → Type 0
IsU8 n = n < 2 ^ 8

abbrev pub IsU16 : ℕ → Type 0
IsU16 n = n < 2 ^ 16

abbrev pub IsU32 : ℕ → Type 0
IsU32 n = n < 2 ^ 32

abbrev pub IsU64 : ℕ → Type 0
IsU64 n = n < 2 ^ 64

-- `to_be_bytes` of an unsigned integer.
abbrev pub be16 : ℕ → Bytes
be16 n = n / 2 ^ 8 % 256 ∷ n % 256 ∷ []

abbrev pub be32 : ℕ → Bytes
be32 n = n / 2 ^ 24 % 256 ∷ n / 2 ^ 16 % 256 ∷ n / 2 ^ 8 % 256 ∷ n % 256 ∷ []

-- `from_be_bytes`.
abbrev pub from_be16 : ℕ → ℕ → ℕ
from_be16 a b = a * 2 ^ 8 + b

abbrev pub from_be32 : ℕ → ℕ → ℕ → ℕ → ℕ
from_be32 a b c d = a * 2 ^ 24 + b * 2 ^ 16 + c * 2 ^ 8 + d

-- An index below the length; where the code indexes it has tested that.
abbrev pub at : Bytes → ℕ → ℕ
at bytes i = get_or bytes i 0

abbrev pub u16_at : Bytes → ℕ → ℕ
u16_at bytes i = from_be16 (at bytes i) (at bytes (i + 1))

abbrev pub u32_at : Bytes → ℕ → ℕ
u32_at bytes i = from_be32 (at bytes i) (at bytes (i + 1)) (at bytes (i + 2)) (at bytes (i + 3))

-- The operations of `BytesMut`, on the bytes that a buffer holds, with their documented effect.
pub record BufMut : Type 0 where
  pub put_u8 : Bytes → ℕ → Bytes
  pub put_u16 : Bytes → ℕ → Bytes
  pub put_u32 : Bytes → ℕ → Bytes
  pub put_slice : Bytes → Bytes → Bytes
  -- The bytes that stay in the buffer, and those that are split off.
  pub split_off : Bytes → ℕ → Bytes × Bytes
  pub put_u8_lem : (buf : Bytes) (n : ℕ) → IsU8 n → put_u8 buf n ≡ buf ++ (n ∷ [])
  pub put_u16_lem : (buf : Bytes) (n : ℕ) → IsU16 n → put_u16 buf n ≡ buf ++ be16 n
  pub put_u32_lem : (buf : Bytes) (n : ℕ) → IsU32 n → put_u32 buf n ≡ buf ++ be32 n
  pub put_slice_lem : (buf bytes : Bytes) → put_slice buf bytes ≡ buf ++ bytes
  pub split_off_lem :
      (buf : Bytes) (n : ℕ) → n ≤ length buf → split_off buf n ≡ (take n buf, drop n buf)

-- A buffer that meets the laws.
abbrev pub list_buf : BufMut
list_buf = record {
  put_u8 = λ buf n. buf ++ (n ∷ []);
  put_u16 = λ buf n. buf ++ be16 n;
  put_u32 = λ buf n. buf ++ be32 n;
  put_slice = λ buf bytes. buf ++ bytes;
  split_off = λ buf n. (take n buf, drop n buf);
  put_u8_lem = λ buf n h. refl;
  put_u16_lem = λ buf n h. refl;
  put_u32_lem = λ buf n h. refl;
  put_slice_lem = λ buf bytes. refl;
  split_off_lem = λ buf n h. refl;
}

-- `==` on slices.
unfoldable pub bytes_eq : Bytes → Bytes → Bool
bytes_eq [] [] = true
bytes_eq (a ∷ r) (b ∷ bs) = a == b && bytes_eq r bs
bytes_eq _ _ = false

pub bytes_eq_sound : (a b : Bytes) → bytes_eq a b ≡ true → a ≡ b
unfolding bytes_eq
bytes_eq_sound [] [] h = refl
bytes_eq_sound [] (b ∷ bs) h = cc
bytes_eq_sound (a ∷ r) [] h = cc
bytes_eq_sound (a ∷ r) (b ∷ bs) h = ground (arith, bytes_eq_sound r bs)

pub bytes_eq_refl : (a : Bytes) → bytes_eq a a ≡ true
unfolding bytes_eq
bytes_eq_refl [] = refl
bytes_eq_refl (a ∷ r) = ground (arith, bytes_eq_refl r)

-- `strip_prefix` and `starts_with`.
unfoldable pub strip_prefix : Bytes → Bytes → Option Bytes
strip_prefix [] bytes = some bytes
strip_prefix (p ∷ prefix) [] = none
strip_prefix (p ∷ prefix) (b ∷ bytes) =
    let rest = strip_prefix prefix bytes in if p == b then rest else none

unfoldable pub starts_with : Bytes → Bytes → Bool
starts_with bytes [] = true
starts_with [] (p ∷ prefix) = false
starts_with (b ∷ bytes) (p ∷ prefix) = b == p && starts_with bytes prefix

pub strip_prefix-starts_with :
    (prefix bytes : Bytes)
    → starts_with bytes prefix ≡ true
    → (rest : Bytes) × (strip_prefix prefix bytes ≡ some rest) × (prefix ++ rest ≡ bytes)
unfolding strip_prefix starts_with
strip_prefix-starts_with [] bytes h = (bytes, refl, refl)
strip_prefix-starts_with (p ∷ prefix) [] h = cc
strip_prefix-starts_with (p ∷ prefix) (b ∷ bytes) h =
    let (rest, e, f) = strip_prefix-starts_with prefix bytes (ground arith) in
    (rest, ground (arith, e), ground (arith, f))

-- Whether a string is among others: `contains` of a `HashSet`.
unfoldable pub has : List Bytes → Bytes → Bool
has [] bytes = false
has (b ∷ l) bytes = bytes_eq b bytes || has l bytes
