-- ===== src/Peer/PieceManager/Genuine.antt =====
-- What holds of every piece of a manager, through all its operations: it is sound, and it stands
-- under the index of its digest in the torrent.
use mathlib.Core.Path.{subst}
use motte_seed.Prelude.{
  ℕ, zero, suc, ◌+◌, ◌/◌, ◌%◌, ◌^◌, ◌≡◌, ◌≤◌, ◌<◌, sym, ap, ◌∙◌, Bool, some, [], ◌∷◌, inl, inr, All,
  Option-cases, Bool-cases, arith, length, ◌==◌,
}
use motte_seed.Prelude.Assoc.{HashMap, get, insert}
use motte_seed.Bytes.{Bytes}
use motte_seed.Torrent.{Info, piece_hash}
use motte_seed.Peer.Block.{PeerIp}
use motte_seed.Peer.Piece
use motte_seed.Peer.Piece.{Piece}
use motte_seed.Peer.Piece.Layout.{new-IsFresh}
use motte_seed.Peer.Piece.Invariant.{All-adjust}
use motte_seed.Peer.Piece.Steps.{
  Step, IsSound, Step-IsSound, IsFresh-IsSound, request, receive, write,
}
use motte_seed.Peer.PieceManager.{
  PieceManager, new_pieces, new, request_block, receive_block, mark_piece_written,
}

module _ {V : Type 0} (P : ℕ × V → Type 0) where
  pub All-get : (m : HashMap V) (k : ℕ) {v : V} → All P m → get m k ≡ some v → P (k, v)
  unfolding get
  All-get [] k a e = cc
  All-get ((j, w) ∷ m) k {v = v} a e = elim (Bool-cases (j == k)) [
    | inl q ↦
        let same : j ≡ k = ground arith in
        let val : w ≡ v = cc (rw (q, get) at e) in
        subst P (ap (λ x. (x, w)) same ∙ ap (λ x. (k, x)) val) a.0
    | inr q ↦ All-get m k a.1 (rw (q, get) at e)
  ]

  pub All-insert : (m : HashMap V) (k : ℕ) (v : V) → All P m → P (k, v) → All P (insert m k v)
  unfolding insert
  All-insert [] k v a p = (p, tt)
  All-insert ((j, w) ∷ m) k v a p = elim (Bool-cases (j == k)) [
    | inl q ↦ rw (q, insert) (p, a.1)
    | inr q ↦ rw (q, insert) (a.0, All-insert m k v a.1 p)
  ]

module _ (sha1 : Bytes → Bytes) (info : Info) where
  -- A sound piece that has the digest and the length that the torrent gives it.
  abbrev pub IsGenuine : ℕ × Piece → Type 0
  IsGenuine (index, p) =
      IsSound sha1 p × (piece_hash info index ≡ some p.hash) × (p.length ≡ info.piece_length)

  abbrev pub AllGenuine : PieceManager → Type 0
  AllGenuine m = All IsGenuine m.pieces

  Step-IsGenuine :
      (index : ℕ) {p q : Piece} → Step sha1 p q → IsGenuine (index, p) → IsGenuine (index, q)
  Step-IsGenuine index st (s, h, l) =
      let (t, n) = Step-IsSound sha1 st s in (t, h ∙ ap some (sym n.hash), n.length ∙ l)

  made-IsGenuine :
      (block_size index : ℕ) (hash : Bytes) {p : Piece}
      → 0 < block_size
      → block_size < 2 ^ 32
      → info.piece_length < 2 ^ 32
      → piece_hash info index ≡ some hash
      → Piece.new index info.piece_length hash block_size ≡ some p
      → IsGenuine (index, p)
  made-IsGenuine block_size index hash {p = p} wide narrow short e made =
      let (q, m, f) = new-IsFresh index info.piece_length hash block_size wide short in
      let same : q ≡ p = cc (m, made) in
      subst (λ x. IsGenuine (index, x)) same
        (
          IsFresh-IsSound sha1 info.piece_length hash block_size q wide narrow short f,
          e ∙ ap some (sym f.hash_is),
          f.length_is,
        )

  module _ (block_size : ℕ) (wide : 0 < block_size) (narrow : block_size < 2 ^ 32)
      (short : info.piece_length < 2 ^ 32) where
    new_pieces-AllGenuine :
        (n index : ℕ) (pieces : HashMap Piece) {r : HashMap Piece}
        → index + n ≤ 2 ^ 32
        → All IsGenuine pieces
        → new_pieces n index info block_size pieces ≡ some r
        → All IsGenuine r
    unfolding new_pieces
    new_pieces-AllGenuine zero index pieces b a h = subst (All IsGenuine) (cc (h)) a
    new_pieces-AllGenuine (suc n) index pieces {r = r} b a h =
        elim (Option-cases (piece_hash info index)) [
          | inl e ↦
              new_pieces-AllGenuine n (index + 1) pieces (omega arith) a (rw (e, new_pieces) at h)
          | inr (hash, e) ↦
              let small : index % 2 ^ 32 ≡ index = omega arith in
              elim (Option-cases (Piece.new index info.piece_length hash block_size)) [
                | inl k ↦ cc (rw (e, small, k, new_pieces) at h)
                | inr (p, k) ↦
                    new_pieces-AllGenuine n (index + 1) (insert pieces index p) (omega arith)
                      (All-insert IsGenuine pieces index p a
                        (made-IsGenuine block_size index hash wide narrow short e k))
                      (rw small at (rw (e, small, k, new_pieces) at h))
              ]
        ]

    pub new-AllGenuine :
        {m : PieceManager}
        → length info.raw_pieces / 20 ≤ 2 ^ 32
        → new info block_size ≡ some m
        → AllGenuine m
    unfolding new
    new-AllGenuine {m = m} b h =
        elim (Option-cases (new_pieces (length info.raw_pieces / 20) 0 info block_size [])) [
          | inl e ↦ cc (rw (e, new) at h)
          | inr (r, e) ↦
              let same : r ≡ m.pieces = cc (rw (e, new) at h) in
              subst (All IsGenuine) same
                (new_pieces-AllGenuine (length info.raw_pieces / 20) 0 [] (omega arith) tt e)
        ]

  pub request_block-AllGenuine :
      (m : PieceManager) (index offset : ℕ) (ip : PeerIp) (now : ℕ)
      → AllGenuine m
      → AllGenuine (request_block m index offset ip now)
  unfolding request_block
  request_block-AllGenuine m index offset ip now a =
      All-adjust IsGenuine m.pieces index (λ p. Piece.request_from_peer p offset ip now)
        (λ j p g. Step-IsGenuine j (request p offset ip now) g) a

  pub mark_piece_written-AllGenuine :
      (m : PieceManager) (index : ℕ) → AllGenuine m → AllGenuine (mark_piece_written m index)
  unfolding mark_piece_written
  mark_piece_written-AllGenuine m index a =
      All-adjust IsGenuine m.pieces index Piece.mask_written (λ j p g. Step-IsGenuine j (write p) g)
        a

  pub receive_block-AllGenuine :
      (m : PieceManager) (index offset : ℕ) (bytes : Bytes) {e : PieceManager} {done : Bool}
      → length bytes < 2 ^ 32
      → receive_block sha1 m index offset bytes ≡ some (e, done)
      → AllGenuine m
      → AllGenuine e
  unfolding receive_block
  receive_block-AllGenuine m index offset bytes {e = e} short h a =
      elim (Option-cases (get m.pieces index)) [
        | inl n ↦ let same : m ≡ e = cc (rw (n, receive_block) at h) in subst AllGenuine same a
        | inr (p, k) ↦ elim (Option-cases (Piece.receive_block sha1 p offset bytes)) [
          | inl n ↦ cc (rw (k, n, receive_block) at h)
          | inr ((q, stored), r) ↦
              let same : record m { pieces = insert m.pieces index q } ≡ e =
                cc (rw (k, r, receive_block) at h) in
              subst AllGenuine same (
                All-insert IsGenuine m.pieces index q a (
                  Step-IsGenuine index (receive p offset bytes short r)
                    (All-get IsGenuine m.pieces index a k)))
        ]
      ]
