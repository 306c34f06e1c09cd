-- ===== src/Peer/Piece/Asked.antt =====
-- A piece on the way that is asked for a block, or has been written.
use motte_seed.Prelude.{
  ap, ℕ, ◌≡◌, true, false, List, inl, inr, all, All, Bool-cases, ◌+◌, ◌-◌, min, [], ◌∷◌, ◌==◌, ◌<◌,
  arith, refl,
}
use motte_seed.Prelude.Assoc.{HashMap, adjust}
use motte_seed.Bytes.{Bytes}
use motte_seed.Peer.Block
use motte_seed.Peer.Block.{Block, PeerIp}
use motte_seed.Peer.Piece.{Piece, request_from_peer, mask_written, is_fully_downloaded}
use motte_seed.Peer.Piece.Tiles.{Tiles, Tiles-adjust, keeps-request}
use motte_seed.Peer.Piece.NextBlock.{IsEntry}
use motte_seed.Peer.Piece.Invariant.{All-adjust, Fits, Fits-request}
use motte_seed.Peer.Piece.Delivery.{IsServed, Holds, slice, IsListed}
use motte_seed.Peer.Piece.OnTheWay.{IsOnTheWay, IsDone}

-- The entries behind an offset are not that of a block before it.
entry_later :
    (s len from : ℕ) (m : HashMap Block) (o : ℕ) (b : Block)
    → 0 < s
    → Tiles s len from m
    → o < from
    → IsEntry (o, b) m
    → ⊥
entry_later s len from [] o b wide t l e = e
entry_later s len from ((k, c) ∷ m) o b wide t l (inl e) =
    let q : o ≡ k = ap (λ (x : ℕ × Block). x.0) e in absurd (omega (arith, t.0))
entry_later s len from ((k, c) ∷ m) o b wide t l (inr e) =
    entry_later s len (from + min s (len - from)) m o b wide t.4 (omega arith) e

pub not_full :
    (m : HashMap Block) (o : ℕ) (b : Block)
    → IsEntry (o, b) m
    → Block.is_complete b ≡ false
    → all (λ e. Block.is_complete (e.1)) m ≡ true
    → ⊥
not_full [] o b e i h = elim e [ ]
not_full ((k, c) ∷ m) o b (inl e) i h =
    let q : b ≡ c = ap (λ (x : ℕ × Block). x.1) e in
    let j : Block.is_complete c ≡ false = cc (q, i) in absurd (ground (arith, j))
not_full ((k, c) ∷ m) o b (inr e) i h = not_full m o b e i (ground arith)

pub full-request :
    (m : HashMap Block) (o : ℕ) (ip : PeerIp) (now : ℕ)
    → all (λ e. Block.is_complete (e.1)) (adjust m o (λ b. Block.request_from_peer b ip now)) ≡ true
    → all (λ e. Block.is_complete (e.1)) m ≡ true
unfolding Block.is_complete Block.request_from_peer adjust
full-request [] o ip now h = refl
full-request ((k, b) ∷ m) o ip now h = ground (arith, full-request m o ip now)

open_request :
    (payload : Bytes) (s len k : ℕ) (rest : List ℕ) (c : Block) (ip : PeerIp) (now : ℕ)
    → Block.is_complete c ≡ false
    → Holds (slice payload s len k) k rest c.state
    → IsListed k rest
unfolding Block.is_complete
open_request payload s len k rest c ip now j h = ground arith

IsServed-request :
    (payload : Bytes) (s len from : ℕ) (rest : List ℕ) (m : HashMap Block) (o : ℕ) (b : Block)
    (ip : PeerIp) (now : ℕ)
    → 0 < s
    → Tiles s len from m
    → IsEntry (o, b) m
    → Block.is_complete b ≡ false
    → All (IsServed payload s len rest) m
    → All (IsServed payload s len rest) (adjust m o (λ b. Block.request_from_peer b ip now))
unfolding adjust Block.request_from_peer Block.is_complete
IsServed-request payload s len from rest [] o b ip now wide t e i h = elim e [ ]
IsServed-request payload s len from rest ((k, c) ∷ m) o b ip now wide t e i h =
    elim (Bool-cases (k == o)) [
      | inl q ↦
          let j : Block.is_complete c ≡ false = elim e [
            | inl x ↦ cc (ap (λ (y : ℕ × Block). y.1) x, i)
            | inr x ↦
                absurd
                  (entry_later s len (from + min s (len - from)) m o b wide t.4 (ground arith) x)
          ] in
          rw (q, adjust) ((h.0.0, h.0.1, open_request payload s len k rest c ip now j h.0.2), h.1)
      | inr q ↦ elim e [
        | inl x ↦ let y : o ≡ k = ap (λ (y : ℕ × Block). y.0) x in absurd (ground arith)
        | inr x ↦
            rw (q, adjust)
              (
                h.0,
                IsServed-request payload s len (from + min s (len - from)) rest m o b ip now wide
                    t.4 x i h.1,
              )
      ]
    ]

module _ (sha1 : Bytes → Bytes) (payload : Bytes) (s : ℕ) (rest : List ℕ) (p : Piece)
    (w : IsOnTheWay sha1 payload s rest p) where
  -- Asked for a block that it does not have, the piece stays on the way.
  pub request-IsOnTheWay :
      (o : ℕ) (b : Block) (ip : PeerIp) (now : ℕ)
      → IsEntry (o, b) p.blocks
      → Block.is_complete b ≡ false
      → IsOnTheWay sha1 payload s rest (request_from_peer p o ip now)
  unfolding request_from_peer is_fully_downloaded
  request-IsOnTheWay o b ip now e i = record {
    laid = record {
      wide = w.laid.wide;
      block_narrow = w.laid.block_narrow;
      narrow = w.laid.narrow;
      tiled =
          Tiles-adjust _ _ _ p.blocks o (λ b. Block.request_from_peer b ip now)
            (keeps-request ip now) w.laid.tiled;
      fits =
          All-adjust Fits p.blocks o (λ b. Block.request_from_peer b ip now) (Fits-request ip now)
            w.laid.fits;
    };
    covers = w.covers;
    sized = w.sized;
    genuine = w.genuine;
    served =
        IsServed-request payload p.block_size p.length 0 rest p.blocks o b ip now w.laid.wide
          w.laid.tiled e i w.served;
    finished = λ f. w.finished (full-request p.blocks o ip now f);
    full = λ d. absurd (not_full p.blocks o b e i (w.full d));
  }

  pub mask_written-IsOnTheWay : IsDone p.state → IsOnTheWay sha1 payload s rest (mask_written p)
  unfolding mask_written is_fully_downloaded
  mask_written-IsOnTheWay d = record {
    laid = record {
      wide = w.laid.wide;
      block_narrow = w.laid.block_narrow;
      narrow = w.laid.narrow;
      tiled = w.laid.tiled;
      fits = w.laid.fits;
    };
    covers = w.covers;
    sized = w.sized;
    genuine = w.genuine;
    served = w.served;
    finished = λ f. inr refl;
    full = λ e. w.full d;
  }
