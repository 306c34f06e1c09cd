-- ===== src/Prelude/Assoc.antt =====
-- A `HashMap` with integer keys as the list of its entries. `HashOrder` is the order in which a
-- map's iterator visits them, of which nothing is known but that it visits each entry.
use Prim.Native.Nat.{ℕ}
use mathlib.Core.Path.{◌≡◌, refl}
use mathlib.Core.List.{List, [], ◌∷◌}
use mathlib.Core.Option.{Option, none, some}
use native.Mathlib.Omega.{arith}
use motte_seed.Prelude.Tests.{◌==◌, if◌then◌else◌}
use motte_seed.Prelude.Lists.{All}
use mathlib.Core.Option

abbrev pub HashMap {ℓ} : Type ℓ → Type ℓ
HashMap V = List (ℕ × V)

module _ {ℓ} {V : Type ℓ} where
  unfoldable pub get : HashMap V → ℕ → Option V
  get [] k = none
  get ((j, v) ∷ m) k = if j == k then some v else get m k

  unfoldable pub insert : HashMap V → ℕ → V → HashMap V
  insert [] k v = (k, v) ∷ []
  insert ((j, w) ∷ m) k v = if j == k then (k, v) ∷ m else (j, w) ∷ insert m k v

  -- A write through `get_mut`.
  unfoldable pub adjust : HashMap V → ℕ → (V → V) → HashMap V
  adjust [] k f = []
  adjust ((j, v) ∷ m) k f = if j == k then (j, f v) ∷ m else (j, v) ∷ adjust m k f

  -- A write to every value, through `values_mut` or `iter_mut`.
  unfoldable pub map_values : (V → V) → HashMap V → HashMap V
  map_values f [] = []
  map_values f ((j, v) ∷ m) = (j, f v) ∷ map_values f m

  pub get-insert :
      (m : HashMap V) (k j : ℕ) (v : V)
      → get (insert m k v) j ≡ (if k == j then some v else get m j)
  unfolding get insert
  get-insert [] k j v = refl
  get-insert ((i, w) ∷ m) k j v = ground (arith, get-insert m k j v)

  pub get-adjust :
      (m : HashMap V) (k j : ℕ) (f : V → V)
      → get (adjust m k f) j ≡ (if k == j then Option.map f (get m j) else get m j)
  unfolding get adjust
  get-adjust [] k j f = ground arith
  get-adjust ((i, w) ∷ m) k j f = ground (arith, get-adjust m k j f)

  pub get-map_values :
      (m : HashMap V) (j : ℕ) (f : V → V) → get (map_values f m) j ≡ Option.map f (get m j)
  unfolding get map_values
  get-map_values [] j f = refl
  get-map_values ((i, w) ∷ m) j f = ground (arith, get-map_values m j f)

pub record HashOrder (V : Type 0) : Type 1 where
  pub iter : HashMap V → HashMap V
  pub visits_only : (P : ℕ × V → Type 0) (m : HashMap V) → All P m → All P (iter m)
  pub visits_all : (P : ℕ × V → Type 0) (m : HashMap V) → All P (iter m) → All P m
