-- ===== src/Prelude/Rows.antt =====
-- Maps whose entries stand under consecutive keys, and what holds of each of them.
use Prim.Native.Nat.{ℕ, ◌+◌, ◌≤◌, ◌<◌}
use mathlib.Core.Path.{◌≡◌, refl, ap, subst}
use mathlib.Core.Logic.{◌≢◌, inl, inr}
use mathlib.Core.Bool.{Bool, true, false}
use mathlib.Core.List.{[], ◌∷◌}
use mathlib.Core.Option.{none, some}
use native.Mathlib.Omega.{arith}
use motte_seed.Prelude.Tests.{◌==◌, Bool-cases}
use motte_seed.Prelude.Lists.{length, all}
use motte_seed.Prelude.Assoc.{HashMap, get, insert, adjust}

module _ {V : Type 0} where
  abbrev pub Rows : (ℕ → V → Type 0) → ℕ → HashMap V → Type 0
  Rows P i [] = Unit {0}
  Rows P i ((k, v) ∷ m) = (k ≡ i) × P i v × Rows P (i + 1) m

  pub adjust-insert :
      (m : HashMap V) (k : ℕ) (f : V → V) {v : V}
      → get m k ≡ some v
      → adjust m k f ≡ insert m k (f v)
  unfolding get adjust insert
  adjust-insert [] k f e = cc
  adjust-insert ((j, w) ∷ m) k f {v = v} e = elim (Bool-cases (j == k)) [
    | inl q ↦
        let same : j ≡ k = ground arith in
        let val : w ≡ v = cc (rw (q, get) at e) in rw q (cc (same, val))
    | inr q ↦ rw q (ap (λ r. (j, w) ∷ r) (adjust-insert m k f (rw (q, get) at e)))
  ]

  pub insert-insert : (m : HashMap V) (k : ℕ) (v w : V) → insert (insert m k v) k w ≡ insert m k w
  unfolding insert
  insert-insert [] k v w = ground arith
  insert-insert ((j, x) ∷ m) k v w = ground (arith, insert-insert m k v w)

  pub Rows-map :
      (P Q : ℕ → V → Type 0) (i : ℕ) (m : HashMap V)
      → ((j : ℕ) (v : V) → i ≤ j → P j v → Q j v)
      → Rows P i m
      → Rows Q i m
  Rows-map P Q i [] f r = tt
  Rows-map P Q i ((k, v) ∷ m) f (e, p, r) =
      (e, f i v (omega arith) p, Rows-map P Q (i + 1) m (λ j w h. f j w (omega arith)) r)

  pub Rows-get :
      (P : ℕ → V → Type 0) (i : ℕ) (m : HashMap V) (k : ℕ) {v : V}
      → Rows P i m
      → get m k ≡ some v
      → P k v
  unfolding get
  Rows-get P i [] k r e = cc
  Rows-get P i ((j, w) ∷ m) k {v = v} (a, p, r) e = elim (Bool-cases (j == k)) [
    | inl q ↦
        let same : i ≡ k = ground arith in
        let val : w ≡ v = cc (rw (q, get) at e) in subst (P k) val (subst (λ x. P x w) same p)
    | inr q ↦ Rows-get P (i + 1) m k r (rw (q, get) at e)
  ]

  -- A row changes, and the others know that they are not it.
  pub Rows-insert :
      (P Q : ℕ → V → Type 0) (i : ℕ) (m : HashMap V) (k : ℕ) {v : V} (w : V)
      → ((j : ℕ) (x : V) → j ≢ k → P j x → Q j x)
      → Rows P i m
      → get m k ≡ some v
      → Q k w
      → Rows Q i (insert m k w)
  unfolding get insert
  Rows-insert P Q i [] k w f r e new = cc
  Rows-insert P Q i ((j, x) ∷ m) k w f (a, p, r) e new = elim (Bool-cases (j == k)) [
    | inl q ↦
        let same : k ≡ i = ground arith in
        rw (q, insert)
          (
            same,
            subst (λ y. Q y w) same new,
            Rows-map P Q (i + 1) m (λ y z h. f y z (λ u. omega arith)) r,
          )
    | inr q ↦
        rw (q, insert)
          (a, f i x (λ u. ground arith) p, Rows-insert P Q (i + 1) m k w f r (rw (q, get) at e) new)
  ]

  pub Rows-absent :
      (P Q : ℕ → V → Type 0) (i : ℕ) (m : HashMap V) (k : ℕ)
      → ((j : ℕ) (x : V) → j ≢ k → P j x → Q j x)
      → Rows P i m
      → get m k ≡ none
      → Rows Q i m
  unfolding get
  Rows-absent P Q i [] k f r e = tt
  Rows-absent P Q i ((j, x) ∷ m) k f (a, p, r) e = elim (Bool-cases (j == k)) [
    | inl q ↦ cc (rw (q, get) at e)
    | inr q ↦ (a, f i x (λ u. ground arith) p, Rows-absent P Q (i + 1) m k f r (rw (q, get) at e))
  ]

  pub Rows-append :
      (P : ℕ → V → Type 0) (i : ℕ) (m : HashMap V) (k : ℕ) (w : V)
      → i + length m ≡ k
      → Rows P i m
      → P k w
      → Rows P i (insert m k w) × (length (insert m k w) ≡ length m + 1)
  unfolding insert
  Rows-append P i [] k w e r new =
      let same : k ≡ i = omega arith in ((same, subst (λ y. P y w) same new, tt), refl)
  Rows-append P i ((j, x) ∷ m) k w e (a, p, r) new =
      let q : (j == k) ≡ false = ground arith in
      let (s, l) = Rows-append P (i + 1) m k w (omega arith) r new in
      rw (q, insert) ((a, p, s), omega arith)

  pub Rows-all :
      (P : ℕ → V → Type 0) (f : V → Bool) (i : ℕ) (m : HashMap V)
      → ((j : ℕ) (v : V) → P j v → f v ≡ true)
      → Rows P i m
      → all (λ e. f (e.1)) m ≡ true
  Rows-all P f i [] g r = refl
  Rows-all P f i ((k, v) ∷ m) g (a, p, r) = ground (arith, g i v p, Rows-all P f (i + 1) m g r)

  pub length-insert_known :
      (m : HashMap V) (k : ℕ) (w : V) {v : V} → get m k ≡ some v → length (insert m k w) ≡ length m
  unfolding get insert
  length-insert_known [] k w e = cc
  length-insert_known ((j, x) ∷ m) k w {v = v} e = ground (arith, length-insert_known m k w {v = v})

  pub Rows-covers :
      (P : ℕ → V → Type 0) (i : ℕ) (m : HashMap V) (j : ℕ)
      → Rows P i m
      → i ≤ j
      → j < i + length m
      → (v : V) × P j v
  Rows-covers P i [] j r l h = absurd (omega arith)
  Rows-covers P i ((k, v) ∷ m) j (e, p, r) l h = elim (Bool-cases (i == j)) [
    | inl q ↦ let same : i ≡ j = ground arith in (v, subst (λ x. P x v) same p)
    | inr q ↦ Rows-covers P (i + 1) m j r (ground arith) (omega arith)
  ]

  pub Rows-and :
      (P : ℕ → V → Type 0) (f : V → Bool) (i : ℕ) (m : HashMap V)
      → Rows P i m
      → all (λ e. f (e.1)) m ≡ true
      → Rows (λ j v. P j v × (f v ≡ true)) i m
  Rows-and P f i [] r h = tt
  Rows-and P f i ((k, v) ∷ m) (a, p, r) h =
      (a, (p, ground arith), Rows-and P f (i + 1) m r (ground arith))
