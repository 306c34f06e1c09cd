-- ===== src/Peer/Piece/Checked.antt =====
-- A piece whose blocks come from anyone: once it counts as done it has all its blocks, and what it hands
-- out has its digest.
use motte_seed.Prelude.{
  ℕ, ◌^◌, ◌≡◌, ◌≢◌, ◌<◌, true, some, [], ◌∷◌, length, all, All, Option-cases, Bool-cases, inl, inr,
  arith, refl, ◌∙◌, ap, ◌++◌, Bool, false,
}
use motte_seed.Prelude.Assoc.{HashMap, get}
use motte_seed.Bytes.{Bytes, bytes_eq}
use motte_seed.Peer.Block
use motte_seed.Peer.Block.{Block, BlockState, PeerIp}
use motte_seed.Peer.Piece.{
  request_from_peer, mask_written, get_piece_data, receive_block, complete, is_verified, Piece,
  written, check_hash, is_fully_downloaded, received_bytes,
}
use motte_seed.Peer.Piece.Contents.{contents, contents-some}
use motte_seed.Peer.Piece.Invariant.{length-contents, All-adjust, All-map_values}
use motte_seed.Peer.Piece.Check.{
  receive_block_known, receive_block_unknown, get_piece_data_lem, stored, settled,
}
use motte_seed.Peer.Piece.Steps.{Step, Step-IsSound, IsFresh-IsSound, IsSound}
use motte_seed.Peer.Piece.Layout.{IsFresh, IsMissing}
use motte_seed.Peer.Piece.NextBlock.{IsEntry}
use motte_seed.Peer.Piece.Asked.{not_full}
use motte_seed.Peer.Piece.OnTheWay.{IsDone, full-receive}
use mathlib.Core.Option

-- No block is ever put into the state `Written`.
abbrev IsUnwritten : ℕ × Block → Type 0
IsUnwritten (k, b) = b.state ≢ BlockState.written

pub record IsHonest (sha1 : Bytes → Bytes) (len : ℕ) (p : Piece) : Type 0 where
  pub sound : IsSound sha1 p
  pub sized : p.length ≡ len
  pub unwritten : All IsUnwritten p.blocks
  pub full : IsDone p.state → is_fully_downloaded p ≡ true

received-some :
    (b : Block)
    → Block.is_complete b ≡ true
    → b.state ≢ BlockState.written
    → (bytes : Bytes) × (received_bytes (some b) ≡ some bytes)
unfolding Block.is_complete
received-some b c n = elim (Option-cases (received_bytes (some b))) [
  | inr r ↦ r
  | inl e ↦ absurd (ground (arith, n))
]

-- A full piece has its bytes.
contents_of_full :
    (m : HashMap Block)
    → All IsUnwritten m
    → all (λ e. Block.is_complete (e.1)) m ≡ true
    → (bytes : Bytes) × (contents m ≡ some bytes)
contents_of_full [] n c = ([], refl)
contents_of_full ((k, b) ∷ m) n c =
    let (front, e) = received-some b (ground arith) n.0 in
    let (back, g) = contents_of_full m n.1 (ground arith) in
    (front ++ back, contents-some k b m front e ∙ ap (Option.map (λ r. front ++ r)) g)

receive-IsUnwritten :
    (bytes : Bytes) (k : ℕ) (b : Block)
    → IsUnwritten (k, b)
    → IsUnwritten (k, Block.receive_data b bytes)
unfolding Block.receive_data
receive-IsUnwritten bytes k b n = ground (arith, n)

cancle-IsUnwritten : (k : ℕ) (b : Block) → IsUnwritten (k, b) → IsUnwritten (k, Block.cancle b)
unfolding Block.cancle
cancle-IsUnwritten k b n e = cc e

request-IsUnwritten :
    (ip : PeerIp) (now k : ℕ) (b : Block)
    → IsUnwritten (k, b)
    → IsUnwritten (k, Block.request_from_peer b ip now)
unfolding Block.request_from_peer
request-IsUnwritten ip now k b n e = cc e

missing-IsUnwritten : (m : HashMap Block) → All IsMissing m → All IsUnwritten m
missing-IsUnwritten [] h = tt
missing-IsUnwritten ((k, b) ∷ m) h = ((λ e. cc (h.0, e)), missing-IsUnwritten m h.1)

-- What becomes of a piece by a block: its blocks are not `Written`, it counts as done only with all of
-- them, and as written only if it was.
record IsSettled (p q : Piece) : Type 0 where
  unwritten : All IsUnwritten q.blocks
  full : IsDone q.state → is_fully_downloaded q ≡ true
  was : q.state ≡ written → p.state ≡ written

module _ (sha1 : Bytes → Bytes) (len : ℕ) (p : Piece) (w : IsHonest sha1 len p) where
  check-IsSettled :
      (q : Piece) (buf : Bytes)
      → All IsUnwritten q.blocks
      → is_fully_downloaded q ≡ true
      → IsSettled p (check_hash sha1 q (some buf)).0
  unfolding check_hash is_fully_downloaded
  check-IsSettled q buf n f = elim (Bool-cases (bytes_eq (sha1 buf) q.hash)) [
    | inl e ↦ rw e (record { unwritten = n; full = λ d. f; was = λ x. cc x })
    | inr e ↦ rw e (record {
      unwritten = All-map_values IsUnwritten q.blocks Block.cancle cancle-IsUnwritten n;
      full = λ d. elim d [ inl x ↦ cc x | inr x ↦ cc x ];
      was = λ x. cc x;
    })
  ]

  settled-IsSettled :
      (o : ℕ) (bytes : Bytes) (short : length bytes < 2 ^ 32)
      → IsSettled p (settled sha1 p w.sound.laid o bytes short)
  unfolding is_fully_downloaded
  settled-IsSettled o bytes short =
      let q : Piece = stored p o bytes in
      let n : All IsUnwritten q.blocks =
        All-adjust IsUnwritten p.blocks o (λ b. Block.receive_data b bytes)
          (receive-IsUnwritten bytes) w.unwritten in
      elim (Bool-cases (is_fully_downloaded q)) [
        | inl f ↦
            let (buf, c) = contents_of_full q.blocks n f in rw f (rw c (check-IsSettled q buf n f))
        | inr f ↦ rw f (record {
          unwritten = n;
          full = λ d. full-receive p.blocks o bytes (w.full d);
          was = λ x. x;
        })
      ]

  -- A block comes, whatever its bytes are.
  pub receive-IsHonest :
      (o : ℕ) (bytes : Bytes)
      → length bytes < 2 ^ 32
      → (r : Piece × Bool) × (receive_block sha1 p o bytes ≡ some r)
        × IsHonest sha1 len r.0
        × (r.0.hash ≡ p.hash)
        × (r.0.state ≡ written → p.state ≡ written)
  receive-IsHonest o bytes short = elim (Option-cases (get p.blocks o)) [
    | inl n ↦
        ((p, false), receive_block_unknown sha1 p w.sound.laid o bytes short n, w, refl, λ x. x)
    | inr (b, k) ↦
        let q : Piece = settled sha1 p w.sound.laid o bytes short in
        let got = receive_block_known sha1 p w.sound.laid o bytes short b k in
        let (sound, name) = Step-IsSound sha1 (Step.receive p o bytes short got) w.sound in
        let z = settled-IsSettled o bytes short in
        (
          (q, true),
          got,
          record {
            sound = sound;
            sized = name.length ∙ w.sized;
            unwritten = z.unwritten;
            full = z.full;
          },
          name.hash,
          z.was,
        )
  ]

  -- What a complete piece hands out.
  pub get_piece_data-checked :
      p.state ≡ complete
      → (bytes : Bytes) × (get_piece_data p ≡ some (some bytes))
        × (length bytes ≡ len)
        × (sha1 bytes ≡ p.hash)
  unfolding is_verified is_fully_downloaded
  get_piece_data-checked c =
      let (bytes, e) = contents_of_full p.blocks w.unwritten (w.full (inl c)) in
      (
        bytes,
        get_piece_data_lem sha1 p w.sound.laid ∙ rw (c, is_verified) (rw e refl),
        omega (
          arith,
          length-contents p.block_size p.length 0 p.blocks bytes w.sound.laid.tiled
              w.sound.laid.fits e,
          w.sized,
        ),
        w.sound.checked c bytes e,
      )

  -- Asked for a block that it does not have.
  pub request-IsHonest :
      (o : ℕ) (b : Block) (ip : PeerIp) (now : ℕ)
      → IsEntry (o, b) p.blocks
      → Block.is_complete b ≡ false
      → IsHonest sha1 len (request_from_peer p o ip now)
  unfolding request_from_peer is_fully_downloaded
  request-IsHonest o b ip now e i = record {
    sound = (Step-IsSound sha1 (Step.request p o ip now) w.sound).0;
    sized = w.sized;
    unwritten =
        All-adjust IsUnwritten p.blocks o (λ b. Block.request_from_peer b ip now)
          (request-IsUnwritten ip now) w.unwritten;
    full = λ d. absurd (not_full p.blocks o b e i (w.full d));
  }

  pub mask_written-IsHonest : IsDone p.state → IsHonest sha1 len (mask_written p)
  unfolding mask_written is_fully_downloaded
  mask_written-IsHonest d = record {
    sound = (Step-IsSound sha1 (Step.write p) w.sound).0;
    sized = w.sized;
    unwritten = w.unwritten;
    full = λ e. w.full d;
  }

pub new-IsHonest :
    (sha1 : Bytes → Bytes) (len : ℕ) (hash : Bytes) (block_size : ℕ) (p : Piece)
    → 0 < block_size
    → block_size < 2 ^ 32
    → len < 2 ^ 32
    → IsFresh len hash block_size p
    → IsHonest sha1 len p
new-IsHonest sha1 len hash block_size p wide narrow short f = record {
  sound = IsFresh-IsSound sha1 len hash block_size p wide narrow short f;
  sized = f.length_is;
  unwritten = missing-IsUnwritten p.blocks f.all_missing;
  full = λ d. elim d [ inl x ↦ cc (x, f.state_is) | inr x ↦ cc (x, f.state_is) ];
}
