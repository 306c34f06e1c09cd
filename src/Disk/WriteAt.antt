-- ===== src/Disk/WriteAt.antt =====
-- The bytes of a file after a write at an offset.
use motte_seed.Prelude.{
  inr, inl, ◌⊎◌, ℕ, zero, suc, ◌+◌, ◌-◌, ◌*◌, ◌≡◌, ◌≤◌, ◌<◌, refl, sym, ap, ◌∙◌, List, [], ◌∷◌,
  ◌++◌, arith, length, take, drop, replicate, length-append, length-take, length-drop,
  length-replicate, take-append_left, drop-append_left, drop-drop,
}
use native.Mathlib.Nat.{add-mul, one-mul, mul-le-mul_right}
use motte_seed.Bytes.{Bytes}
use motte_seed.Disk.{put_at, write_at}

module _ {A : Type 0} where
  pub take-append_le : (n : ℕ) (xs ys : List A) → n ≤ length xs → take n (xs ++ ys) ≡ take n xs
  take-append_le zero xs ys h = refl
  take-append_le (suc n) [] ys h = absurd (omega arith)
  take-append_le (suc n) (x ∷ xs) ys h = rw (take-append_le n xs ys (omega arith))

  pub drop-append_add : (n : ℕ) (xs ys : List A) → drop (length xs + n) (xs ++ ys) ≡ drop n ys
  drop-append_add n xs ys =
      sym (drop-drop n (length xs) (xs ++ ys)) ∙ ap (drop n) (drop-append_left xs ys)

  pub drop-append_le :
      (n : ℕ) (xs ys : List A) → n ≤ length xs → drop n (xs ++ ys) ≡ drop n xs ++ ys
  drop-append_le zero xs ys h = refl
  drop-append_le (suc n) [] ys h = absurd (omega arith)
  drop-append_le (suc n) (x ∷ xs) ys h = drop-append_le n xs ys (omega arith)

  pub take-take : (n m : ℕ) (xs : List A) → n ≤ m → take n (take m xs) ≡ take n xs
  take-take zero m xs h = refl
  take-take (suc n) zero xs h = absurd (omega arith)
  take-take (suc n) (suc m) [] h = refl
  take-take (suc n) (suc m) (x ∷ xs) h = rw (take-take n m xs (omega arith))

  take_nil : (n : ℕ) → take {A = A} n [] ≡ []
  take_nil zero = refl
  take_nil (suc n) = refl

  pub take-drop : (n m : ℕ) (xs : List A) → take n (drop m xs) ≡ drop m (take (m + n) xs)
  take-drop n zero xs = ap (λ k. take k xs) (omega arith)
  take-drop n (suc m) [] = take_nil n ∙ sym (ap (drop (suc m)) (take_nil (suc m + n)))
  take-drop n (suc m) (x ∷ xs) =
      let e : suc (m + n) ≡ suc m + n = omega arith in
      take-drop n m xs ∙ ap (λ k. drop (suc m) (take k (x ∷ xs))) e

padded : Bytes → ℕ → Bytes
padded file offset = take offset (file ++ replicate (offset - length file) 0)

length-padded : (file : Bytes) (offset : ℕ) → length (padded file offset) ≡ offset
unfolding padded
length-padded file offset = omega (
  arith,
  length-take offset (file ++ replicate (offset - length file) 0),
  length-append file (replicate (offset - length file) 0),
  length-replicate {A = ℕ} (offset - length file) 0,
)

-- No write makes a file shorter.
length-put_at : (file bytes : Bytes) (offset : ℕ) → length file ≤ length (put_at file offset bytes)
unfolding padded
length-put_at file bytes offset = omega (
  arith,
  length-append (padded file offset) (bytes ++ drop (offset + length bytes) file),
  length-append bytes (drop (offset + length bytes) file),
  length-drop (offset + length bytes) file,
  length-padded file offset,
)

drop-put_at :
    (file bytes : Bytes) (offset k : ℕ)
    → drop (offset + k) (put_at file offset bytes)
      ≡ drop k (bytes ++ drop (offset + length bytes) file)
unfolding padded
drop-put_at file bytes offset k =
    ap (λ m. drop (m + k) (put_at file offset bytes)) (sym (length-padded file offset))
    ∙ drop-append_add k (padded file offset) (bytes ++ drop (offset + length bytes) file)

-- The bytes written are found where they were written.
put_at_inside :
    (file bytes : Bytes) (offset : ℕ)
    → take (length bytes) (drop offset (put_at file offset bytes)) ≡ bytes
put_at_inside file bytes offset =
    ap (λ k. take (length bytes) (drop k (put_at file offset bytes))) (omega arith)
    ∙ ap (take (length bytes)) (drop-put_at file bytes offset 0)
    ∙ take-append_left bytes (drop (offset + length bytes) file)

take-put_at :
    (file bytes : Bytes) (offset k : ℕ)
    → k ≤ offset
    → k ≤ length file
    → take k (put_at file offset bytes) ≡ take k file
unfolding padded
take-put_at file bytes offset k h g =
    take-append_le k (padded file offset) (bytes ++ drop (offset + length bytes) file)
      (omega (arith, length-padded file offset))
    ∙ take-take k offset (file ++ replicate (offset - length file) 0) h
    ∙ take-append_le k file (replicate (offset - length file) 0) g

-- No byte before them or behind them changes.
put_at_before :
    (file bytes : Bytes) (offset o n : ℕ)
    → o + n ≤ offset
    → o + n ≤ length file
    → take n (drop o (put_at file offset bytes)) ≡ take n (drop o file)
put_at_before file bytes offset o n h g =
    take-drop n o (put_at file offset bytes)
    ∙ ap (drop o) (take-put_at file bytes offset (o + n) h g)
    ∙ sym (take-drop n o file)

put_at_after :
    (file bytes : Bytes) (offset o : ℕ)
    → offset + length bytes ≤ o
    → drop o (put_at file offset bytes) ≡ drop o file
put_at_after file bytes offset o h =
    let k : ℕ = o - offset - length bytes in
    ap (λ m. drop m (put_at file offset bytes)) (omega arith)
    ∙ drop-put_at file bytes offset (length bytes + k)
    ∙ drop-append_add k bytes (drop (offset + length bytes) file)
    ∙ drop-drop k (offset + length bytes) file
    ∙ ap (λ m. drop m file) (omega arith)

-- Neither do those of a range apart from them.
put_at_elsewhere :
    (file bytes : Bytes) (offset o n : ℕ)
    → o + n ≤ length file
    → (o + n ≤ offset) ⊎ (offset + length bytes ≤ o)
    → take n (drop o (put_at file offset bytes)) ≡ take n (drop o file)
put_at_elsewhere file bytes offset o n g (inl h) = put_at_before file bytes offset o n h g
put_at_elsewhere file bytes offset o n g (inr h) = ap (take n) (put_at_after file bytes offset o h)

-- A write of nothing leaves the file, and any other puts its bytes there.
pub length-write_at :
    (file bytes : Bytes) (offset : ℕ) → length file ≤ length (write_at file offset bytes)
length-write_at file [] offset = omega arith
length-write_at file (b ∷ bytes) offset = length-put_at file (b ∷ bytes) offset

pub write_at_inside :
    (file bytes : Bytes) (offset : ℕ)
    → take (length bytes) (drop offset (write_at file offset bytes)) ≡ bytes
write_at_inside file [] offset = refl
write_at_inside file (b ∷ bytes) offset = put_at_inside file (b ∷ bytes) offset

pub write_at_elsewhere :
    (file bytes : Bytes) (offset o n : ℕ)
    → o + n ≤ length file
    → (o + n ≤ offset) ⊎ (offset + length bytes ≤ o)
    → take n (drop o (write_at file offset bytes)) ≡ take n (drop o file)
write_at_elsewhere file [] offset o n g h = refl
write_at_elsewhere file (b ∷ bytes) offset o n g h =
    put_at_elsewhere file (b ∷ bytes) offset o n g h

pub mul_gap : (a b l : ℕ) → a < b → a * l + l ≤ b * l
mul_gap a b l h =
    let le : (a + 1) * l ≤ b * l = mul-le-mul_right l (omega arith) in
    omega (arith, add-mul a 1 l, one-mul l)
