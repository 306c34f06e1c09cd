-- ===== src/Tracker/Http/Encoding.antt =====
-- The percent encoding of the HTTP tracker against a decoder.
use motte_seed.Prelude.{
  ℕ, zero, suc, ◌+◌, ◌-◌, ◌*◌, ◌/◌, ◌%◌, ◌≡◌, ◌<◌, refl, true, false, Option, none, some, [], ◌∷◌,
  ◌&&◌, leb, ◌==◌, if◌then◌else◌, length, All, Bool-cases, inl, inr, arith,
}
use motte_seed.Bytes.{Bytes, IsU8}
use motte_seed.Tracker.Http.{is_unreserved, hex_digit, url_encode}

-- The value of an upper case hexadecimal digit.
abbrev pub hex_value : ℕ → Option ℕ
hex_value c =
    if leb 48 c && leb c 57
    then some (c - 48)
    else if leb 65 c && leb c 70
    then some (c - 55)
    else none

-- The two digits behind a `%`, before what the rest decodes to.
abbrev escaped : Option ℕ → Option ℕ → Option Bytes → Option Bytes
escaped (some high) (some low) (some bytes) = some ((high * 16 + low) ∷ bytes)
escaped _ _ _ = none

abbrev cons_some : ℕ → Option Bytes → Option Bytes
cons_some b none = none
cons_some b (some bytes) = some (b ∷ bytes)

-- Percent decoding, as RFC 3986 has it, for texts in which only unreserved bytes stand for
-- themselves. The number bounds the bytes that are left.
abbrev pub url_decode : ℕ → Bytes → Option Bytes
url_decode zero text = none
url_decode (suc n) [] = some []
url_decode (suc n) (c ∷ text) =
    let plain = cons_some c (url_decode n text) in
    let escape : Option Bytes = elim text [
      | h ∷ more ↦ elim more [
        | l ∷ rest ↦ escaped (hex_value h) (hex_value l) (url_decode n rest)
        | [] ↦ none
      ]
      | [] ↦ none
    ] in
    if c == 37 then escape else if is_unreserved c then plain else none

hex_value-hex_digit : (d : ℕ) → d < 16 → hex_value (hex_digit d) ≡ some d
unfolding hex_digit
hex_value-hex_digit d h = ground arith

unreserved-ne_percent : (b : ℕ) → is_unreserved b ≡ true → (b == 37) ≡ false
unfolding is_unreserved
unreserved-ne_percent b h = ground arith

-- Decoding gives back what was encoded, for bytes of 8 bits.
pub url_decode-url_encode :
    (bytes : Bytes) (n : ℕ)
    → All IsU8 bytes
    → length bytes < n
    → url_decode n (url_encode bytes) ≡ some bytes
unfolding url_encode
url_decode-url_encode bytes zero a h = absurd (omega arith)
url_decode-url_encode [] (suc n) a h = refl
url_decode-url_encode (b ∷ bytes) (suc n) (small, a) h =
    let rest = url_decode-url_encode bytes n a (omega arith) in
    elim (Bool-cases (is_unreserved b)) [
      | inl q ↦ rw (q, url_encode, unreserved-ne_percent b q, rest, q) refl
      | inr q ↦
          let high = hex_value-hex_digit (b / 16) (omega arith) in
          let low = hex_value-hex_digit (b % 16) (omega arith) in
          let whole : b / 16 * 16 + b % 16 ≡ b = omega arith in
          rw (q, url_encode, high, low, rest, whole) refl
    ]
