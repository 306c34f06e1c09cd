-- ===== src/Bytes/Distinct.antt =====
-- Lists of byte strings without duplicates, as the elements of a `HashSet`.
use motte_seed.Prelude.{
  ℕ, zero, suc, take, ◌≡◌, refl, false, true, All, ◌||◌, List, [], ◌∷◌, ◌++◌, arith, Bool-cases,
  inl, inr,
}
use motte_seed.Bytes.{Bytes, bytes_eq, bytes_eq_refl, bytes_eq_sound, has}

abbrev pub IsDistinct : List Bytes → Type 0
IsDistinct [] = Unit {0}
IsDistinct (b ∷ l) = (has l b ≡ false) × IsDistinct l

pub bytes_eq_sym : (a b : Bytes) → bytes_eq a b ≡ false → bytes_eq b a ≡ false
bytes_eq_sym a b h = elim (Bool-cases (bytes_eq b a)) [
  | inl q ↦ let same : b ≡ a = bytes_eq_sound b a q in cc (h, bytes_eq_refl a, same)
  | inr q ↦ q
]

pub has-append : (a b : List Bytes) (x : Bytes) → has (a ++ b) x ≡ (has a x || has b x)
unfolding has
has-append [] b x = refl
has-append (p ∷ a) b x = ground (arith, has-append a b x)

pub has-snoc : (l : List Bytes) (b x : Bytes) → has (l ++ (b ∷ [])) x ≡ (has l x || bytes_eq b x)
unfolding has
has-snoc l b x = ground (arith, has-append l (b ∷ []) x)

pub IsDistinct-snoc :
    (l : List Bytes) (ip : Bytes) → has l ip ≡ false → IsDistinct l → IsDistinct (l ++ (ip ∷ []))
unfolding has
IsDistinct-snoc [] ip h d = (refl, tt)
IsDistinct-snoc (k ∷ l) ip h d = (
  ground (arith, has-snoc l ip k, bytes_eq_sym k ip, d.0),
  IsDistinct-snoc l ip (ground arith) d.1,
)

pub IsDistinct-append_middle :
    (l : List Bytes) (b : Bytes) (r : List Bytes) → IsDistinct (l ++ (b ∷ r)) → has l b ≡ false
unfolding has
IsDistinct-append_middle [] b r d = refl
IsDistinct-append_middle (k ∷ l) b r (h, d) =
    ground (arith, has-append l (b ∷ r) k, bytes_eq_sym b k, IsDistinct-append_middle l b r d)

has-take : (n : ℕ) (l : List Bytes) (b : Bytes) → has l b ≡ false → has (take n l) b ≡ false
unfolding has
has-take zero l b h = refl
has-take (suc n) [] b h = refl
has-take (suc n) (k ∷ l) b h = ground (arith, has-take n l b)

pub IsDistinct-take : (n : ℕ) (l : List Bytes) → IsDistinct l → IsDistinct (take n l)
IsDistinct-take zero l d = tt
IsDistinct-take (suc n) [] d = tt
IsDistinct-take (suc n) (k ∷ l) (h, d) = (has-take n l k h, IsDistinct-take n l d)

has-grown :
    (k : Bytes) (l r : List Bytes) → All (λ b. has l b ≡ true) r → All (λ b. has (k ∷ l) b ≡ true) r
unfolding has
has-grown k l [] a = tt
has-grown k l (b ∷ r) (h, a) = (ground arith, has-grown k l r a)

-- The elements at the front are elements.
pub take-has : (n : ℕ) (l : List Bytes) → All (λ b. has l b ≡ true) (take n l)
unfolding has
take-has zero l = tt
take-has (suc n) [] = tt
take-has (suc n) (k ∷ l) =
    (ground (arith, bytes_eq_refl k), has-grown k l (take n l) (take-has n l))
