-- ===== src/Peer/DownloadManager/Bitfield.antt =====
-- The list of the pieces in a bitfield, against the test of one bit.
use motte_seed.Prelude.{
  ℕ, zero, suc, ◌+◌, ◌-◌, ◌*◌, ◌/◌, ◌%◌, ◌^◌, ◌≡◌, ◌≤◌, ◌<◌, refl, Bool, true, false, List, [], ◌∷◌,
  ◌++◌, ◌⊎◌, inl, inr, ◌↔◌, ◌&&◌, Bool-cases, arith, ltb→lt, lt→ltb, ltb, length,
}
use motte_seed.Bytes.{Bytes, at}
use motte_seed.Peer.State.{bit_of, has_bit}
use motte_seed.Peer.PieceManager.Selection.{OneOf}
use motte_seed.Peer.DownloadManager.{bitfield_pieces, byte_pieces}

OneOf-append : (i : ℕ) (xs ys : List ℕ) → OneOf i (xs ++ ys) → OneOf i xs ⊎ OneOf i ys
OneOf-append i [] ys o = inr o
OneOf-append i (x ∷ xs) ys (inl e) = inl (inl e)
OneOf-append i (x ∷ xs) ys (inr o) = elim (OneOf-append i xs ys o) [
  | inl l ↦ inl (inr l)
  | inr r ↦ inr r
]

OneOf-left : (i : ℕ) (xs ys : List ℕ) → OneOf i xs → OneOf i (xs ++ ys)
OneOf-left i [] ys o = elim o [ ]
OneOf-left i (x ∷ xs) ys (inl e) = inl e
OneOf-left i (x ∷ xs) ys (inr o) = inr (OneOf-left i xs ys o)

OneOf-right : (i : ℕ) (xs ys : List ℕ) → OneOf i ys → OneOf i (xs ++ ys)
OneOf-right i [] ys o = o
OneOf-right i (x ∷ xs) ys o = inr (OneOf-right i xs ys o)

-- A piece of the byte with this index, by the bits from one on.
abbrev HasBit : ℕ → ℕ → ℕ → ℕ → ℕ → Type 0
HasBit index byte b n i =
    (index * 8 + b ≤ i) × (i < index * 8 + b + n) × (has_bit byte (7 - (i - index * 8)) ≡ true)

byte_pieces-HasBit :
    (index byte b n i : ℕ)
    → index * 8 + b + n ≤ 2 ^ 32
    → OneOf i (byte_pieces index byte b n)
    → HasBit index byte b n i
unfolding byte_pieces
byte_pieces-HasBit index byte b zero i h o = elim o [ ]
byte_pieces-HasBit index byte b (suc n) i h o = elim (Bool-cases (has_bit byte (7 - b))) [
  | inl t ↦ elim (rw (t, byte_pieces) at o) [
    | inl e ↦
        let here : i ≡ index * 8 + b = omega arith in
        let bit : b ≡ i - index * 8 = omega arith in (omega arith, omega arith, rw bit at t)
    | inr r ↦
        let (l, u, s) = byte_pieces-HasBit index byte (b + 1) n i (omega arith) r in
        (omega arith, omega arith, s)
  ]
  | inr t ↦
      let (l, u, s) =
        byte_pieces-HasBit index byte (b + 1) n i (omega arith) (rw (t, byte_pieces) at o) in
      (omega arith, omega arith, s)
]

HasBit-byte_pieces :
    (index byte b n i : ℕ)
    → index * 8 + b + n ≤ 2 ^ 32
    → HasBit index byte b n i
    → OneOf i (byte_pieces index byte b n)
unfolding byte_pieces
HasBit-byte_pieces index byte b zero i h (l, u, s) = absurd (omega arith)
HasBit-byte_pieces index byte b (suc n) i h (l, u, s) =
    let later : (index * 8 + (b + 1) ≤ i) → OneOf i (byte_pieces index byte (b + 1) n) =
      λ g. HasBit-byte_pieces index byte (b + 1) n i (omega arith) (g, omega arith, s) in
    let which : (i ≡ index * 8 + b) ⊎ (index * 8 + (b + 1) ≤ i) = omega arith in
    elim (Bool-cases (has_bit byte (7 - b))) [
      | inl t ↦
          rw (t, byte_pieces) (elim which [ inl e ↦ inl (omega arith) | inr g ↦ inr (later g) ])
      | inr t ↦
          rw (t, byte_pieces)
            (elim which [
              | inl e ↦ let bit : i - index * 8 ≡ b = omega arith in absurd (cc (t, rw bit at s))
              | inr g ↦ later g
            ])
    ]

-- A piece of the bytes that start at this index.
abbrev IsIn : ℕ → Bytes → ℕ → Type 0
IsIn index bytes i =
    (index * 8 ≤ i)
    × (i < (index + length bytes) * 8)
    × (has_bit (at bytes (i / 8 - index)) (7 - i % 8) ≡ true)

bitfield_pieces-IsIn :
    (index : ℕ) (bytes : Bytes) (i : ℕ)
    → (index + length bytes) * 8 ≤ 2 ^ 32
    → OneOf i (bitfield_pieces index bytes)
    → IsIn index bytes i
unfolding bitfield_pieces
bitfield_pieces-IsIn index [] i h o = elim o [ ]
bitfield_pieces-IsIn index (byte ∷ bytes) i h o =
    elim (OneOf-append i (byte_pieces index byte 0 8) (bitfield_pieces (index + 1) bytes) o) [
      | inl r ↦
          let (l, u, s) = byte_pieces-HasBit index byte 0 8 i (omega arith) r in
          let here : i / 8 - index ≡ 0 = omega arith in
          let bit : i - index * 8 ≡ i % 8 = omega arith in
          (omega arith, omega arith, rw here (rw bit at s))
      | inr r ↦
          let (l, u, s) = bitfield_pieces-IsIn (index + 1) bytes i (omega arith) r in
          let there : i / 8 - index ≡ suc (i / 8 - (index + 1)) = omega arith in
          (omega arith, omega arith, rw there s)
    ]

IsIn-bitfield_pieces :
    (index : ℕ) (bytes : Bytes) (i : ℕ)
    → (index + length bytes) * 8 ≤ 2 ^ 32
    → IsIn index bytes i
    → OneOf i (bitfield_pieces index bytes)
unfolding bitfield_pieces
IsIn-bitfield_pieces index [] i h (l, u, s) = absurd (omega arith)
IsIn-bitfield_pieces index (byte ∷ bytes) i h (l, u, s) =
    let which : (i < (index + 1) * 8) ⊎ ((index + 1) * 8 ≤ i) = omega arith in
    elim which [
      | inl g ↦
          let here : i / 8 - index ≡ 0 = omega arith in
          let bit : i % 8 ≡ i - index * 8 = omega arith in
          OneOf-left i _ _ (
            HasBit-byte_pieces index byte 0 8 i (omega arith)
              (omega arith, omega arith, rw bit at (rw here at s)))
      | inr g ↦
          let there : i / 8 - index ≡ suc (i / 8 - (index + 1)) = omega arith in
          OneOf-right i (byte_pieces index byte 0 8) _ (
            IsIn-bitfield_pieces (index + 1) bytes i (omega arith)
              (omega arith, omega arith, rw there at s))
    ]

both : {a b : Bool} → (a && b) ≡ true → (a ≡ true) × (b ≡ true)
both {a = true} h = (refl, h)
both {a = false} h = cc

-- The download manager's list of the pieces in a bitfield has exactly those of which the test
-- of one bit, as `PeerState::has_piece` makes it, says that they are there, for a bitfield of
-- at most 2^29 bytes.
pub bitfield_pieces-bit_of :
    (bitfield : Bytes) (i : ℕ)
    → length bitfield ≤ 2 ^ 29
    → OneOf i (bitfield_pieces 0 bitfield) ↔ (bit_of bitfield i ≡ true)
unfolding bit_of
bitfield_pieces-bit_of bitfield i h =
    let start : i / 8 - 0 ≡ i / 8 = omega arith in
    (
      (λ o.
          let (l, u, s) = bitfield_pieces-IsIn 0 bitfield i (omega arith) o in
          let low : i / 8 < length bitfield = omega arith in
          rw (lt→ltb _ _ low, rw start at s) refl),
      λ e.
          let (lo, s) = both {a = ltb (i / 8) (length bitfield)} e in
          let low : i / 8 < length bitfield = ltb→lt (i / 8) (length bitfield) lo in
          IsIn-bitfield_pieces 0 bitfield i (omega arith) (omega arith, omega arith, rw start s),
    )
