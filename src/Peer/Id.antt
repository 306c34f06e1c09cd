-- ===== src/Peer/Id.antt =====
-- src/core/peer/peer_id.rs: the id of this client. `draws` are the bytes that the generator draws, in
-- turn; it is asked for numbers from 33 to 126.
use motte_seed.Prelude.{
  ℕ, zero, suc, ◌+◌, ◌≡◌, ◌≤◌, [], ◌∷◌, ◌++◌, arith, length, take, drop, set, replicate, All,
  All-map, refl,
}
use motte_seed.Prelude.Text.{codes}
use motte_seed.Bytes.{Bytes, IsU8}

-- The bytes from the i-th on are drawn: `skip(i)`, with the number of the next draw.
unfoldable pub fill : (ℕ → ℕ) → ℕ → ℕ → Bytes → Bytes
fill draws i next [] = []
fill draws zero next (b ∷ id) = draws next ∷ fill draws zero (next + 1) id
fill draws (suc i) next (b ∷ id) = b ∷ fill draws i next id

abbrev pub prefixed : Bytes → Bytes
prefixed id0 =
    let id1 = set id0 0 45 in
    let id2 = set id1 1 77 in
    let id3 = set id2 2 83 in
    let id4 = set id3 3 48 in
    let id5 = set id4 4 49 in let id6 = set id5 5 48 in let id7 = set id6 6 48 in set id7 7 45

unfoldable pub get_peer_id : (ℕ → ℕ) → Bytes
unfolding fill
get_peer_id draws = fill draws 8 0 (prefixed (replicate 20 0))

abbrev pub IsPrintable : ℕ → Type 0
IsPrintable b = (33 ≤ b) × (b ≤ 126)

fill-All :
    (draws : ℕ → ℕ)
    → ((i : ℕ) → IsPrintable (draws i))
    → (id : Bytes) (next : ℕ) → All IsPrintable (fill draws zero next id)
unfolding fill
fill-All draws h [] next = tt
fill-All draws h (b ∷ id) next = (h next, fill-All draws h id (next + 1))

-- The first eight bytes are printable.
lead : (rest : Bytes) → All IsPrintable rest → All IsPrintable (codes "-MS0100-" ++ rest)
lead rest a =
    let p : (b : ℕ) → 33 ≤ b → b ≤ 126 → IsPrintable b = λ b l u. (l, u) in
    (
      p 45 (omega arith) (omega arith),
      (
        p 77 (omega arith) (omega arith),
        (
          p 83 (omega arith) (omega arith),
          (
            p 48 (omega arith) (omega arith),
            (
              p 49 (omega arith) (omega arith),
              (
                p 48 (omega arith) (omega arith),
                (p 48 (omega arith) (omega arith), (p 45 (omega arith) (omega arith), a)),
              ),
            ),
          ),
        ),
      ),
    )

printable :
    (draws : ℕ → ℕ) → ((i : ℕ) → IsPrintable (draws i)) → All IsPrintable (get_peer_id draws)
unfolding get_peer_id fill
printable draws h = lead (fill draws 0 0 (replicate 12 0)) (fill-All draws h (replicate 12 0) 0)

-- For numbers that are drawn from 33 to 126, the id is an array of 20 bytes of 8 bits, all printable:
-- first `-MS0100-`, then the twelve numbers in turn.
pub get_peer_id_lem :
    (draws : ℕ → ℕ)
    → ((i : ℕ) → (33 ≤ draws i) × (draws i ≤ 126))
    → (length (get_peer_id draws) ≡ 20)
      × All IsU8 (get_peer_id draws)
      × All (λ b. (33 ≤ b) × (b ≤ 126)) (get_peer_id draws)
      × (take 8 (get_peer_id draws) ≡ codes "-MS0100-")
      × (drop 8 (get_peer_id draws)
          ≡ draws 0
            ∷ draws 1
            ∷ draws 2
            ∷ draws 3
            ∷ draws 4
            ∷ draws 5
            ∷ draws 6
            ∷ draws 7
            ∷ draws 8
            ∷ draws 9
            ∷ draws 10
            ∷ draws 11
            ∷ [])
unfolding get_peer_id fill
get_peer_id_lem draws h =
    let a = printable draws h in
    (
      refl,
      All-map IsPrintable IsU8 (λ b p. omega (arith, p.1)) (get_peer_id draws) a,
      a,
      refl,
      refl,
    )
