-- ===== src/Peer/Piece/OnTheWay.antt =====
-- A piece whose blocks come from the piece's own data: what the methods do to it.
use motte_seed.Prelude.{
  ℕ, ◌-◌, ◌^◌, ◌<◌, ◌≡◌, refl, min, Bool, true, false, some, List, [], ◌∷◌, length, All, arith,
  length-take, drop, sym, Bool-cases, Option-cases, inl, inr,
}
use motte_seed.Prelude.Assoc.{get}
use motte_seed.Bytes.{Bytes, bytes_eq_refl}
use motte_seed.Peer.Piece.{
  get_piece_data, is_verified, Piece, complete, receive_block, is_fully_downloaded, check_hash,
}
use motte_seed.Peer.Piece.Contents.{contents}
use motte_seed.Peer.Piece.Invariant.{IsLaidOut}
use motte_seed.Peer.Piece.Check.{
  get_piece_data_lem, stored, stored-IsLaidOut, settled, receive_block_known, receive_block_unknown,
}
use motte_seed.Peer.Piece.Delivery.{IsServed, slice, whole, IsServed-adjust, adjust_absent}
use mathlib.Core.Path.{subst}
use motte_seed.Prelude.{◌∙◌}
use motte_seed.Peer.Block
use motte_seed.Peer.Block.{Block, PeerIp}
use motte_seed.Peer.Piece.{PieceState, written}
use motte_seed.Prelude.{all, ◌⊎◌}
use motte_seed.Prelude.Assoc.{HashMap, adjust}

-- The state of a piece that has been checked.
abbrev pub IsDone : PieceState → Type 0
IsDone state = (state ≡ complete) ⊎ (state ≡ written)

-- A piece on the way: its blocks hold their bytes or are still to come.
-- It counts as done exactly when it has all of them.
pub record IsOnTheWay (sha1 : Bytes → Bytes) (payload : Bytes) (block_size : ℕ) (rest : List ℕ)
    (p : Piece) : Type 0 where
  pub laid : IsLaidOut p
  pub covers : length payload ≡ p.length
  pub sized : p.block_size ≡ block_size
  pub genuine : sha1 payload ≡ p.hash
  pub served : All (IsServed payload p.block_size p.length rest) p.blocks
  pub finished : is_fully_downloaded p ≡ true → IsDone p.state
  pub full : IsDone p.state → is_fully_downloaded p ≡ true

pub full-receive :
    (m : HashMap Block) (o : ℕ) (bytes : Bytes)
    → all (λ e. Block.is_complete (e.1)) m ≡ true
    → all (λ e. Block.is_complete (e.1)) (adjust m o (λ b. Block.receive_data b bytes)) ≡ true
unfolding Block.is_complete Block.receive_data adjust
full-receive [] o bytes h = refl
full-receive ((k, b) ∷ m) o bytes h = ground (arith, full-receive m o bytes)

settled_full :
    (sha1 : Bytes → Bytes) (p : Piece) (laid : IsLaidOut p) (o : ℕ) (bytes payload : Bytes)
    (small : length bytes < 2 ^ 32)
    → is_fully_downloaded (stored p o bytes) ≡ true
    → contents (stored p o bytes).blocks ≡ some payload
    → sha1 payload ≡ p.hash
    → settled sha1 p laid o bytes small ≡ (record (stored p o bytes) { state = complete })
unfolding check_hash
settled_full sha1 p laid o bytes payload small f c h =
    rw f (rw c (rw h (rw (bytes_eq_refl p.hash))))

settled_partial :
    (sha1 : Bytes → Bytes) (p : Piece) (laid : IsLaidOut p) (o : ℕ) (bytes : Bytes)
    (small : length bytes < 2 ^ 32)
    → is_fully_downloaded (stored p o bytes) ≡ false
    → settled sha1 p laid o bytes small ≡ stored p o bytes
settled_partial sha1 p laid o bytes small f = rw f

module _ (sha1 : Bytes → Bytes) (payload : Bytes) (s : ℕ) where
  module _ (o : ℕ) (os : List ℕ) (p : Piece) (w : IsOnTheWay sha1 payload s (o ∷ os) p) where
    abbrev part : Bytes
    part = slice payload p.block_size p.length o

    part_small : length part < 2 ^ 32
    part_small =
        let narrow = w.laid.block_narrow in
        omega (arith, length-take (min p.block_size (p.length - o)) (drop o payload))

    stored-IsServed : All (IsServed payload p.block_size p.length os) (stored p o part).blocks
    stored-IsServed =
        IsServed-adjust payload p.block_size p.length w.laid.wide w.laid.narrow w.covers 0 o os
          p.blocks w.laid.tiled w.served

    laid : IsLaidOut (stored p o part)
    laid = stored-IsLaidOut sha1 p w.laid o part part_small

    full_contents :
        is_fully_downloaded (stored p o part) ≡ true
        → contents (stored p o part).blocks ≡ some payload
    unfolding is_fully_downloaded
    full_contents f =
        whole payload p.block_size p.length w.laid.wide w.laid.narrow w.covers 0 os
          (stored p o part).blocks laid.tiled stored-IsServed f

    full_stored : is_fully_downloaded p ≡ true → is_fully_downloaded (stored p o part) ≡ true
    unfolding is_fully_downloaded
    full_stored f = full-receive p.blocks o part f

    completed :
        is_fully_downloaded (stored p o part) ≡ true
        → IsOnTheWay sha1 payload s os (record (stored p o part) { state = complete })
    unfolding is_fully_downloaded
    completed f = record {
      laid = record {
        wide = w.laid.wide;
        block_narrow = w.laid.block_narrow;
        narrow = w.laid.narrow;
        tiled = laid.tiled;
        fits = laid.fits;
      };
      covers = w.covers;
      sized = w.sized;
      genuine = w.genuine;
      served = stored-IsServed;
      finished = λ g. inl refl;
      full = λ g. f;
    }

    arrives : IsOnTheWay sha1 payload s os (settled sha1 p w.laid o part part_small)
    arrives = elim (Bool-cases (is_fully_downloaded (stored p o part))) [
      | inl f ↦
          subst (IsOnTheWay sha1 payload s os)
            (sym
              (settled_full sha1 p w.laid o part payload part_small f (full_contents f) w.genuine))
            (completed f)
      | inr f ↦
          subst (IsOnTheWay sha1 payload s os)
            (sym (settled_partial sha1 p w.laid o part part_small f))
            (record {
              laid = laid;
              covers = w.covers;
              sized = w.sized;
              genuine = w.genuine;
              served = stored-IsServed;
              finished = λ g. cc (f, g);
              full = λ g. full_stored (w.full g);
            })
    ]

    settled_written : (settled sha1 p w.laid o part part_small).state ≡ written → p.state ≡ written
    settled_written e = elim (Bool-cases (is_fully_downloaded (stored p o part))) [
      | inl f ↦
          cc (e, settled_full sha1 p w.laid o part payload part_small f (full_contents f) w.genuine)
      | inr f ↦ rw (settled_partial sha1 p w.laid o part part_small f) at e
    ]

    -- A block of the data: the piece stays on the way, and only a piece that was written is.
    pub receive-IsOnTheWay :
        (r : Piece × Bool) × (receive_block sha1 p o part ≡ some r)
        × IsOnTheWay sha1 payload s os r.0
        × (r.0.state ≡ written → p.state ≡ written)
    receive-IsOnTheWay = elim (Option-cases (get p.blocks o)) [
      | inl n ↦ (
        (p, false),
        receive_block_unknown sha1 p w.laid o part part_small n,
        record {
          laid = w.laid;
          covers = w.covers;
          sized = w.sized;
          genuine = w.genuine;
          served =
              subst (All (IsServed payload p.block_size p.length os)) (adjust_absent p.blocks o _ n)
                stored-IsServed;
          finished = w.finished;
          full = w.full;
        },
        λ e. e,
      )
      | inr (b, k) ↦ (
        (settled sha1 p w.laid o part part_small, true),
        receive_block_known sha1 p w.laid o part part_small b k,
        arrives,
        settled_written,
      )
    ]

  -- What the piece hands out, once it counts as complete.
  pub get_piece_data-complete :
      (rest : List ℕ) (p : Piece)
      → IsOnTheWay sha1 payload s rest p
      → p.state ≡ complete
      → get_piece_data p ≡ some (some payload)
  unfolding is_verified is_fully_downloaded
  get_piece_data-complete rest p w state =
      let gathered : contents p.blocks ≡ some payload =
        whole payload p.block_size p.length w.laid.wide w.laid.narrow w.covers 0 rest p.blocks
          w.laid.tiled w.served (w.full (inl state)) in
      get_piece_data_lem sha1 p w.laid ∙ rw (state, is_verified) (rw (gathered))
