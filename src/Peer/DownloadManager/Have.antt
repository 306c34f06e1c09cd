-- ===== src/Peer/DownloadManager/Have.antt =====
-- What a `Have` message changes in a peer's bitfield.
use motte_seed.Prelude.{
  le→ltb_false, lt→ltb, ℕ, zero, suc, ◌-◌, ◌*◌, ◌/◌, ◌%◌, ◌^◌, ◌≡◌, ◌≢◌, ◌≤◌, ◌<◌, refl, sym, ap,
  ◌∙◌, true, [], ◌∷◌, ◌⊎◌, inl, inr, ◌==◌, ltb, arith, length, set, Bool-cases, ◌&&◌,
}
use motte_seed.Bytes.{Bytes, at}
use motte_seed.Peer.State.{has_bit, bit_of}
use motte_seed.Peer.DownloadManager.{set_bit, mark_have}
use native.Mathlib.Nat.{pow-suc, mul_comm, div-div-eq-div-mul}

half_bit : (b k : ℕ) → b / 2 ^ suc k ≡ b / 2 / 2 ^ k
half_bit b k =
    let p : 2 ^ suc k ≡ 2 * 2 ^ k = pow-suc 2 k ∙ mul_comm (2 ^ k) 2 in
    ap (λ x. b / x) p ∙ sym (div-div-eq-div-mul b 2 (2 ^ k))

has_bit-suc : (b k : ℕ) → has_bit b (suc k) ≡ has_bit (b / 2) k
unfolding has_bit
has_bit-suc b k = ap (λ x. x % 2 == 1) (half_bit b k)

set_bit-half :
    (b k : ℕ) → (set_bit b (suc k) / 2 ≡ set_bit (b / 2) k) × (set_bit b (suc k) % 2 ≡ b % 2)
unfolding set_bit
set_bit-half b k =
    let p : 2 ^ suc k ≡ 2 ^ k * 2 = pow-suc 2 k in
    elim (Bool-cases (has_bit (b / 2) k)) [
      | inl t ↦ rw (has_bit-suc b k, t) (refl, refl)
      | inr t ↦ rw (has_bit-suc b k, t) (omega arith, omega arith)
    ]

set_bit-zero : (b : ℕ) → (set_bit b 0 / 2 ≡ b / 2) × (set_bit b 0 % 2 ≡ 1)
unfolding set_bit has_bit
set_bit-zero b = ground arith

low_true : (b : ℕ) → b % 2 ≡ 1 → has_bit b 0 ≡ true
unfolding has_bit
low_true b h = let e : b / 1 % 2 ≡ 1 = omega arith in ap (λ x. x == 1) e

has_bit-set_bit : (k b : ℕ) → has_bit (set_bit b k) k ≡ true
unfolding has_bit
has_bit-set_bit zero b = low_true (set_bit b 0) (set_bit-zero b).1
has_bit-set_bit (suc k) b =
    has_bit-suc (set_bit b (suc k)) k
    ∙ ap (λ x. has_bit x k) (set_bit-half b k).0
    ∙ has_bit-set_bit k (b / 2)

low_bit : (b c : ℕ) → b % 2 ≡ c % 2 → has_bit b 0 ≡ has_bit c 0
unfolding has_bit
low_bit b c h = let e : b / 1 % 2 ≡ c / 1 % 2 = omega arith in ap (λ x. x == 1) e

has_bit-set_bit_other : (k j b : ℕ) → k ≢ j → has_bit (set_bit b k) j ≡ has_bit b j
has_bit-set_bit_other zero zero b h = absurd (h refl)
has_bit-set_bit_other zero (suc j) b h =
    has_bit-suc (set_bit b 0) j ∙ ap (λ x. has_bit x j) (set_bit-zero b).0 ∙ sym (has_bit-suc b j)
has_bit-set_bit_other (suc k) zero b h = low_bit (set_bit b (suc k)) b (set_bit-half b k).1
has_bit-set_bit_other (suc k) (suc j) b h =
    has_bit-suc (set_bit b (suc k)) j
    ∙ ap (λ x. has_bit x j) (set_bit-half b k).0
    ∙ has_bit-set_bit_other k j (b / 2) (λ e. h (ap suc e))
    ∙ sym (has_bit-suc b j)

length-set : (xs : Bytes) (i v : ℕ) → length (set xs i v) ≡ length xs
length-set [] i v = refl
length-set (x ∷ xs) zero v = refl
length-set (x ∷ xs) (suc i) v = ap suc (length-set xs i v)

at-set : (xs : Bytes) (i v : ℕ) → i < length xs → at (set xs i v) i ≡ v
at-set [] i v h = absurd (omega arith)
at-set (x ∷ xs) zero v h = refl
at-set (x ∷ xs) (suc i) v h = at-set xs i v (omega arith)

at-set_other : (xs : Bytes) (i j v : ℕ) → i ≢ j → at (set xs i v) j ≡ at xs j
at-set_other [] i j v h = refl
at-set_other (x ∷ xs) zero zero v h = absurd (h refl)
at-set_other (x ∷ xs) zero (suc j) v h = refl
at-set_other (x ∷ xs) (suc i) zero v h = refl
at-set_other (x ∷ xs) (suc i) (suc j) v h = at-set_other xs i j v (λ e. h (ap suc e))

other_bit :
    (bitfield : Bytes) (i j : ℕ)
    → i / 8 < length bitfield
    → i ≢ j
    → has_bit
        (at (set bitfield (i / 8) (set_bit (at bitfield (i / 8)) (7 - i % 8))) (j / 8))
        (7 - j % 8)
      ≡ has_bit (at bitfield (j / 8)) (7 - j % 8)
other_bit bitfield i j h ne =
    let new : ℕ = set_bit (at bitfield (i / 8)) (7 - i % 8) in
    let which : (i / 8 ≡ j / 8) ⊎ (i / 8 ≢ j / 8) = omega arith in
    elim which [
      | inl e ↦
          let apart : 7 - i % 8 ≢ 7 - j % 8 = omega arith in
          ap (λ x. has_bit (at (set bitfield (i / 8) new) x) (7 - j % 8)) (sym e)
          ∙ ap (λ x. has_bit x (7 - j % 8)) (at-set bitfield (i / 8) new h)
          ∙ has_bit-set_bit_other (7 - i % 8) (7 - j % 8) (at bitfield (i / 8)) apart
          ∙ ap (λ x. has_bit (at bitfield x) (7 - j % 8)) e
      | inr n ↦ ap (λ x. has_bit x (7 - j % 8)) (at-set_other bitfield (i / 8) (j / 8) new n)
    ]

-- After a `Have` for a piece that the bitfield has a bit for, that piece is there, and every other
-- piece is there exactly if it was before; for a piece behind the end of the bitfield nothing
-- changes. The bitfield has fewer than 2^32 bytes.
pub mark_have-bit_of :
    (bitfield : Bytes) (i : ℕ)
    → length bitfield < 2 ^ 32
    → (i / 8 < length bitfield
        → (bit_of (mark_have bitfield i) i ≡ true)
          × ((j : ℕ) → i ≢ j → bit_of (mark_have bitfield i) j ≡ bit_of bitfield j))
      × (length bitfield ≤ i / 8 → mark_have bitfield i ≡ bitfield)
unfolding mark_have bit_of
mark_have-bit_of bitfield i short =
    let small : length bitfield % 2 ^ 32 ≡ length bitfield = omega arith in
    let new : ℕ = set_bit (at bitfield (i / 8)) (7 - i % 8) in
    (
      (λ h.
          let inside = lt→ltb (i / 8) (length bitfield) h in
          let size = length-set bitfield (i / 8) new in
          rw (small, inside, mark_have)
            (
              rw (size, inside, at-set bitfield (i / 8) new h)
                  (has_bit-set_bit (7 - i % 8) (at bitfield (i / 8))),
              λ j ne.
                  rw size
                    (ap (λ x. ltb (j / 8) (length bitfield) && x) (other_bit bitfield i j h ne)),
            )),
      λ h. rw (small, le→ltb_false (i / 8) (length bitfield) h) refl,
    )
