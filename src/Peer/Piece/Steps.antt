-- ===== src/Peer/Piece/Steps.antt =====
-- The calls of a piece's methods as steps, and that each step keeps a piece sound.
use motte_seed.Prelude.{
  ℕ, ◌^◌, ◌<◌, ◌≡◌, refl, Bool, true, Option, none, some, [], ◌∷◌, arith, length, ap, ◌∙◌, sym, All,
  Bool-cases, inl, inr, Option-cases,
}
use motte_seed.Prelude.Assoc.{HashMap, get}
use motte_seed.Bytes.{Bytes}
use motte_seed.Peer.Block
use motte_seed.Peer.Block.{Block, BlockState, PeerIp}
use mathlib.Core.Path.{subst, subst₂}
use motte_seed.Peer.Piece.{
  received_bytes, Piece, check_hash, verify, receive_block, request_from_peer, mask_written,
  reset_timeout_requests, is_fully_downloaded,
}
use motte_seed.Peer.Piece.Tiles.{Tiles, Tiles-adjust, Tiles-map_values, keeps-request, keeps-reset}
use motte_seed.Peer.Piece.Contents.{contents}
use motte_seed.Peer.Piece.Layout.{IsFresh, IsMissing}
use motte_seed.Peer.Piece.Invariant.{
  Fits, IsLaidOut, IsChecked, All-adjust, All-map_values, Fits-request, Fits-reset,
  contents-adjust_lost, contents-map_values, contents_full,
}
use motte_seed.Peer.Piece.Check.{
  verify_lem, check_hash-IsLaidOut, check_hash-IsChecked, stored, stored-IsLaidOut, settled,
  receive_block_known, receive_block_unknown,
}

first_eq :
    {a c : Piece} {b d : Bool} → ◌≡◌ {A = Option (Piece × Bool)} (some (a, b)) (some (c, d)) → a ≡ c
first_eq {a} e = ap (λ (o : Option (Piece × Bool)). elim o [ none ↦ a | some r ↦ r.0 ]) e

received-reset :
    (now : ℕ) (b : Block) → received_bytes (some (Block.reset b now).0) ≡ received_bytes (some b)
unfolding Block.reset
received-reset now b = ground arith

full_of_contents :
    (p : Piece) (bytes : Bytes) → contents p.blocks ≡ some bytes → is_fully_downloaded p ≡ true
unfolding is_fully_downloaded
full_of_contents p bytes e = contents_full p.blocks bytes e

missing-Fits : (m : HashMap Block) → All IsMissing m → All Fits m
missing-Fits [] h = tt
missing-Fits ((k, b) ∷ m) h = ((λ bytes e. cc (h.0, e)), missing-Fits m h.1)

module _ (sha1 : Bytes → Bytes) where
  -- One call of a method. A received block comes from a message, so it is shorter than 2^32.
  pub data Step : Piece → Piece → Type 0 where
    request :
        (p : Piece) (offset : ℕ) (ip : PeerIp) (now : ℕ)
        → Step p (request_from_peer p offset ip now)
    receive :
        (p : Piece) (offset : ℕ) (bytes : Bytes) {q : Piece} {stored : Bool}
        → length bytes < 2 ^ 32
        → receive_block sha1 p offset bytes ≡ some (q, stored)
        → Step p q
    check : (p : Piece) {q : Piece} {passed : Bool} → verify sha1 p ≡ some (q, passed) → Step p q
    write : (p : Piece) → Step p (mask_written p)
    time_out : (p : Piece) (now : ℕ) → Step p (reset_timeout_requests p now).0

  pub data Reach (p : Piece) : Piece → Type 0 where
    here : Reach p p
    next : {q r : Piece} → Reach p q → Step q r → Reach p r

  pub record IsSound (p : Piece) : Type 0 where
    pub laid : IsLaidOut p
    pub checked : IsChecked sha1 p

  -- What no method changes.
  pub record SameName (p q : Piece) : Type 0 where
    pub hash : q.hash ≡ p.hash
    pub length : q.length ≡ p.length

  abbrev Kept : Piece → Piece → Type 0
  Kept p q = IsSound q × SameName p q

  check_hash-SameName : (p : Piece) (o : Option Bytes) → SameName p (check_hash sha1 p o).0
  unfolding check_hash
  check_hash-SameName p o = ground arith

  settled-IsSound :
      (p : Piece) (offset : ℕ) (bytes : Bytes) (short : length bytes < 2 ^ 32)
      → (s : IsSound p)
      → IsSound (settled sha1 p s.laid offset bytes short)
        × SameName p (settled sha1 p s.laid offset bytes short)
  settled-IsSound p offset bytes short s =
      let q : Piece = stored p offset bytes in
      let l : IsLaidOut q = stored-IsLaidOut sha1 p s.laid offset bytes short in
      elim (Bool-cases (is_fully_downloaded q)) [
        | inl e ↦ rw e (
          record {
            laid = check_hash-IsLaidOut sha1 q l (contents q.blocks);
            checked = check_hash-IsChecked sha1 q l;
          },
          let n = check_hash-SameName q (contents q.blocks) in
              record { hash = n.hash; length = n.length },
        )
        | inr e ↦ rw e (
          record { laid = l; checked = λ c b f. cc (full_of_contents q b f, e) },
          record { hash = refl; length = refl },
        )
      ]

  request-IsSound :
      (p : Piece) (offset : ℕ) (ip : PeerIp) (now : ℕ)
      → IsSound p
      → IsSound (request_from_peer p offset ip now) × SameName p (request_from_peer p offset ip now)
  unfolding request_from_peer
  request-IsSound p offset ip now s =
      let f : Block → Block = λ b. Block.request_from_peer b ip now in
      (
        record {
          laid = record {
            wide = s.laid.wide;
            block_narrow = s.laid.block_narrow;
            narrow = s.laid.narrow;
            tiled = Tiles-adjust _ _ _ p.blocks offset f (keeps-request ip now) s.laid.tiled;
            fits = All-adjust Fits p.blocks offset f (Fits-request ip now) s.laid.fits;
          };
          checked = λ c bytes e. s.checked c bytes (
              contents-adjust_lost p.blocks offset f bytes
                (λ b. unfold Block.request_from_peer in refl) e);
        },
        record { hash = refl; length = refl },
      )

  time_out-IsSound :
      (p : Piece) (now : ℕ)
      → IsSound p
      → IsSound (reset_timeout_requests p now).0 × SameName p (reset_timeout_requests p now).0
  unfolding reset_timeout_requests
  time_out-IsSound p now s =
      let f : Block → Block = λ b. (Block.reset b now).0 in
      (
        record {
          laid = record {
            wide = s.laid.wide;
            block_narrow = s.laid.block_narrow;
            narrow = s.laid.narrow;
            tiled = Tiles-map_values _ _ _ p.blocks f (keeps-reset now) s.laid.tiled;
            fits = All-map_values Fits p.blocks f (Fits-reset now) s.laid.fits;
          };
          checked = λ c bytes e.
              s.checked c bytes (sym (contents-map_values p.blocks f (received-reset now)) ∙ e);
        },
        record { hash = refl; length = refl },
      )

  write-IsSound : (p : Piece) → IsSound p → IsSound (mask_written p) × SameName p (mask_written p)
  unfolding mask_written
  write-IsSound p s = (
    record {
      laid = record {
        wide = s.laid.wide;
        block_narrow = s.laid.block_narrow;
        narrow = s.laid.narrow;
        tiled = s.laid.tiled;
        fits = s.laid.fits;
      };
      checked = λ c bytes e. cc;
    },
    record { hash = refl; length = refl },
  )

  pub Step-IsSound : {p q : Piece} → Step p q → IsSound p → IsSound q × SameName p q
  Step-IsSound (request p offset ip now) s = request-IsSound p offset ip now s
  Step-IsSound (receive p offset bytes short e) s = elim (Option-cases (get p.blocks offset)) [
    | inl n ↦
        subst (Kept p)
          (first_eq (sym (receive_block_unknown sha1 p s.laid offset bytes short n) ∙ e))
          (s, record { hash = refl; length = refl })
    | inr (b, k) ↦
        subst (Kept p)
          (first_eq (sym (receive_block_known sha1 p s.laid offset bytes short b k) ∙ e))
          (settled-IsSound p offset bytes short s)
  ]
  Step-IsSound (check p e) s = subst (Kept p) (first_eq (sym (verify_lem sha1 p s.laid) ∙ e)) (
    record {
      laid = check_hash-IsLaidOut sha1 p s.laid (contents p.blocks);
      checked = check_hash-IsChecked sha1 p s.laid;
    },
    check_hash-SameName p (contents p.blocks),
  )
  Step-IsSound (write p) s = write-IsSound p s
  Step-IsSound (time_out p now) s = time_out-IsSound p now s

  pub Reach-IsSound : {p q : Piece} → Reach p q → IsSound p → IsSound q × SameName p q
  Reach-IsSound here s = (s, record { hash = refl; length = refl })
  Reach-IsSound (next r st) s =
      let (s', n) = Reach-IsSound r s in
      let (s'', m) = Step-IsSound st s' in
      (s'', record { hash = m.hash ∙ n.hash; length = m.length ∙ n.length })

  pub IsFresh-IsSound :
      (len : ℕ) (hash : Bytes) (block_size : ℕ) (p : Piece)
      → 0 < block_size
      → block_size < 2 ^ 32
      → len < 2 ^ 32
      → IsFresh len hash block_size p
      → IsSound p
  IsFresh-IsSound len hash block_size p wide narrow short f = record {
    laid = record {
      wide = omega (arith, f.block_size_is);
      block_narrow = omega (arith, f.block_size_is);
      narrow = omega (arith, f.length_is);
      tiled = subst₂ (λ s l. Tiles s l 0 p.blocks) (sym f.block_size_is) (sym f.length_is) f.tiled;
      fits = missing-Fits p.blocks f.all_missing;
    };
    checked = λ c bytes e. cc (f.state_is, c);
  }
