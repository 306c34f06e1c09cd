-- ===== src/Peer/DownloadManager/Start.antt =====
-- A new manager for a torrent: each piece is missing, and waits for all its blocks.
use motte_seed.Prelude.{
  ℕ, zero, suc, ◌*◌, ◌+◌, ◌-◌, ◌/◌, ◌%◌, ◌^◌, ◌≡◌, ◌≤◌, ◌<◌, ◌∙◌, refl, sym, ap, some, List, [],
  ◌∷◌, length, min, All, arith, inl, inr, ◌⊎◌,
}
use motte_seed.Prelude.Assoc.{HashMap, insert}
use motte_seed.Prelude.Rows.{Rows, Rows-append}
use motte_seed.Bytes.{Bytes}
use motte_seed.Torrent.{Info, piece_hash}
use motte_seed.Disk.WriteAt.{mul_gap}
use motte_seed.Disk.Whole.{piece_bytes, length-piece_bytes}
use motte_seed.Peer.Block.{Block}
use motte_seed.Peer.Piece
use motte_seed.Peer.Piece.{Piece, missing}
use motte_seed.Peer.Piece.Tiles.{Tiles}
use motte_seed.Peer.Piece.Layout.{IsFresh, new-IsFresh}
use motte_seed.Peer.Piece.Delivery.{IsListed}
use motte_seed.Peer.Piece.Arrival.{starts}
use motte_seed.Peer.PieceManager.{PieceManager, new_pieces, new}
use motte_seed.Peer.DownloadManager.Events.{offsets, OnTheWay}
use motte_seed.Peer.Connection.{PeerEvent}
use motte_seed.Peer.Block.{PeerIp}
use native.Mathlib.Nat.{add-mul, one-mul, le-mul_of_pos_right}
use mathlib.Core.Path.{subst}

Tiles-end :
    (s len : ℕ) (os : List ℕ) (m : HashMap Block) → Tiles s len len m → All (λ e. IsListed e.0 os) m
Tiles-end s len os [] t = tt
Tiles-end s len os ((k, b) ∷ m) t = absurd (let h = t.2 in omega arith)

-- The offsets of the blocks are the multiples of the block size.
Tiles-IsListed :
    (s len j from : ℕ) (os : List ℕ) (m : HashMap Block)
    → from ≡ j * s
    → ((i : ℕ) → i * s < len → IsListed (i * s) os)
    → Tiles s len from m
    → All (λ e. IsListed e.0 os) m
Tiles-IsListed s len j from os [] e f t = tt
Tiles-IsListed s len j from os ((k, b) ∷ m) e f (at, _, inside, _, t) =
    let here : k ≡ j * s = at ∙ e in
    let either : (s ≤ len - from) ⊎ (from + min s (len - from) ≡ len) = omega arith in
    (
      subst (λ x. IsListed x os) (sym here) (f j (omega arith)),
      elim either [
        | inl fits ↦
            let next : from + min s (len - from) ≡ (j + 1) * s =
              omega (arith, add-mul j 1 s, one-mul s) in
            Tiles-IsListed s len (j + 1) (from + min s (len - from)) os m next f t
        | inr end ↦ Tiles-end s len os m (subst (λ x. Tiles s len x m) end t)
      ],
    )

new_pieces-next :
    (k index : ℕ) (info : Info) (s : ℕ) (pieces : HashMap Piece) (hash : Bytes) (p : Piece)
    → index % 2 ^ 32 ≡ index
    → piece_hash info index ≡ some hash
    → Piece.new index info.piece_length hash s ≡ some p
    → new_pieces (suc k) index info s pieces
      ≡ new_pieces k (index + 1) info s (insert pieces index p)
unfolding new_pieces
new_pieces-next k index info s pieces hash p fits e made =
    rw (e, fits, made, new_pieces) (rw fits refl)

new-all :
    (n : ℕ) (info : Info) (s : ℕ) (r : HashMap Piece)
    → length info.raw_pieces / 20 ≡ n
    → new_pieces n 0 info s [] ≡ some r
    → new info s ≡ some (record { pieces = r; block_size = s })
unfolding new
new-all n info s r count h = rw (count, h, new) refl

-- A new manager has a piece for each digest, in their order.
module _ (info : Info) (s n : ℕ) (hashes : ℕ → Bytes)
    (found : (i : ℕ) → i < n → piece_hash info i ≡ some (hashes i))
    (small : n * info.piece_length < 2 ^ 32) (wide : 0 < info.piece_length) (block_wide : 0 < s)
    (P : ℕ → Piece → Type 0)
    (start : (i : ℕ) (p : Piece)
      → i < n
      → Piece.new i info.piece_length (hashes i) s ≡ some p
      → P i p) where
  new_pieces-Rows :
      (k index : ℕ) (pieces : HashMap Piece)
      → index + k ≡ n
      → Rows P 0 pieces
      → length pieces ≡ index
      → (r : HashMap Piece) × (new_pieces k index info s pieces ≡ some r)
        × Rows P 0 r
        × (length r ≡ n)
  unfolding new_pieces
  new_pieces-Rows zero index pieces e rows l = (pieces, refl, rows, omega arith)
  new_pieces-Rows (suc k) index pieces e rows l =
      let inside : index < n = omega arith in
      let gap = mul_gap index n info.piece_length inside in
      let fits : index % 2 ^ 32 ≡ index = omega (arith, gap, le-mul_of_pos_right index wide) in
      let (p, made, _) =
        new-IsFresh index info.piece_length (hashes index) s block_wide (omega arith) in
      let (rows', l') =
        Rows-append P 0 pieces index p (omega arith) rows (start index p inside made) in
      let (r, h, done, size) =
        new_pieces-Rows k (index + 1) (insert pieces index p) (omega arith) rows' (omega arith) in
      (
        r,
        new_pieces-next k index info s pieces (hashes index) p fits (found index inside) made ∙ h,
        done,
        size,
      )

  pub new-Rows :
      length info.raw_pieces / 20 ≡ n
      → (m : PieceManager) × (new info s ≡ some m) × Rows P 0 m.pieces × (length m.pieces ≡ n)
  new-Rows count =
      let (r, h, done, size) = new_pieces-Rows n 0 [] (omega arith) tt refl in
      (record { pieces = r; block_size = s }, new-all n info s r count h, done, size)

module _ {F : Type 0} (sha1 : Bytes → Bytes) (torrent : Bytes) (len s n : ℕ)
    (whole : length torrent ≡ n * len) (small : n * len < 2 ^ 32) (wide : 0 < len)
    (block_wide : 0 < s) (block_narrow : s < 2 ^ 32) (events : List (PeerEvent F × PeerIp × ℕ))
    (listed : (i j : ℕ) → i < n → j * s < len → IsListed (j * s) (offsets events i)) where
  -- A new piece waits for all its blocks.
  pub new-OnTheWay :
      (i : ℕ) (p : Piece)
      → i < n
      → Piece.new i len (sha1 (piece_bytes torrent len i)) s ≡ some p
      → OnTheWay sha1 torrent len s events i p × (p.state ≡ missing)
  new-OnTheWay i p inside made =
      let piece : Bytes = piece_bytes torrent len i in
      let size : length piece ≡ len = length-piece_bytes torrent len n i whole inside in
      let gap = mul_gap i n len inside in
      let (q, m, f) = new-IsFresh i len (sha1 piece) s block_wide (omega arith) in
      let same : q ≡ p = cc (m, made) in
      let f' : IsFresh len (sha1 piece) s p = subst (IsFresh len (sha1 piece) s) same f in
      (
        starts sha1 piece i s (offsets events i) p block_wide block_narrow (omega arith)
            (omega arith) (ap (λ x. Piece.new i x (sha1 piece) s) size ∙ made)
            (Tiles-IsListed s len 0 0 (offsets events i) p.blocks (omega arith)
              (λ j. listed i j inside) f'.tiled),
        f'.state_is,
      )
