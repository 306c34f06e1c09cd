-- ===== src/Peer/Piece/Arrival.antt =====
-- The methods of a piece that peers with its data serve: it completes, and hands the data out.
use motte_seed.Prelude.{
  ℕ, ◌^◌, ◌<◌, ◌≡◌, refl, true, false, Option, none, some, List, [], ◌∷◌, length, All, arith, sym,
  inl, inr,
}
use motte_seed.Bytes.{Bytes}
use motte_seed.Peer.Piece.{
  Piece, complete, new, receive_block, is_fully_downloaded, get_piece_data, is_complete,
}
use motte_seed.Peer.Piece.Layout.{IsFresh, new-IsFresh}
use motte_seed.Peer.Piece.Steps.{IsFresh-IsSound}
use motte_seed.Peer.Piece.Delivery.{IsListed, slice, all_served, fresh-IsServed, not_yet_full}
use mathlib.Core.Path.{subst}
use motte_seed.Prelude.{ap}
use motte_seed.Peer.Piece.{written}
use motte_seed.Peer.Piece.OnTheWay.{IsOnTheWay, receive-IsOnTheWay, get_piece_data-complete}

-- The block at each offset in turn arrives, with its bytes of the data.
unfoldable pub deliver : (Bytes → Bytes) → Bytes → List ℕ → Piece → Option Piece
deliver sha1 payload [] p = some p
deliver sha1 payload (o ∷ os) p =
    elim (receive_block sha1 p o (slice payload p.block_size p.length o)) [
      | none ↦ none
      | some r ↦ deliver sha1 payload os r.0
    ]

module _ (sha1 : Bytes → Bytes) (payload : Bytes) (s : ℕ) where
  deliver-IsOnTheWay :
      (os : List ℕ) (p : Piece)
      → IsOnTheWay sha1 payload s os p
      → (q : Piece) × (deliver sha1 payload os p ≡ some q)
        × IsOnTheWay sha1 payload s [] q
        × (q.state ≡ written → p.state ≡ written)
  unfolding deliver
  deliver-IsOnTheWay [] p w = (p, refl, w, λ e. e)
  deliver-IsOnTheWay (o ∷ os) p w =
      let (r, e, v, was) = receive-IsOnTheWay sha1 payload s o os p w in
      let (q, d, u, before) = deliver-IsOnTheWay os r.0 v in
      (q, rw (e, deliver) d, u, λ x. was (before x))

  arrived :
      (p : Piece)
      → IsOnTheWay sha1 payload s [] p
      → (p.state ≡ written → ⊥)
      → (is_complete p ≡ true) × (get_piece_data p ≡ some (some payload))
  unfolding is_complete is_fully_downloaded
  arrived p w unwritten =
      let full : is_fully_downloaded p ≡ true =
        all_served payload p.block_size p.length p.blocks w.served in
      let state : p.state ≡ complete = elim (w.finished full) [
        | inl e ↦ e
        | inr e ↦ absurd (unwritten e)
      ] in
      (rw (state, is_complete), get_piece_data-complete sha1 payload s [] p w state)

module _ (sha1 : Bytes → Bytes) (payload : Bytes) where
  module _ (index block_size : ℕ) (os : List ℕ) (fresh : Piece) (wide : 0 < block_size)
      (narrow : block_size < 2 ^ 32) (some_bytes : 0 < length payload)
      (short : length payload < 2 ^ 32)
      (made : new index (length payload) (sha1 payload) block_size ≡ some fresh)
      (listed : All (λ e. IsListed e.0 os) fresh.blocks) where
    pub starts : IsOnTheWay sha1 payload block_size os fresh
    unfolding is_fully_downloaded
    starts =
        let (q, m, f) = new-IsFresh index (length payload) (sha1 payload) block_size wide short in
        let same : q ≡ fresh = cc (m, made) in
        let f' : IsFresh (length payload) (sha1 payload) block_size fresh =
          subst (IsFresh (length payload) (sha1 payload) block_size) same f in
        let sound =
          IsFresh-IsSound sha1 (length payload) (sha1 payload) block_size fresh wide narrow short
            f' in
        let not_full : is_fully_downloaded fresh ≡ false =
          not_yet_full fresh.block_size fresh.length fresh.blocks (omega (arith, f'.length_is))
            sound.laid.tiled f'.all_missing in
        record {
          laid = sound.laid;
          covers = sym f'.length_is;
          sized = f'.block_size_is;
          genuine = sym f'.hash_is;
          served =
              fresh-IsServed payload fresh.block_size fresh.length 0 os fresh.blocks
                sound.laid.tiled f'.all_missing listed;
          finished = λ full. cc (full, not_full);
          full = λ e. elim e [ inl c ↦ cc (c, f'.state_is) | inr c ↦ cc (c, f'.state_is) ];
        }

    unwritten : fresh.state ≡ written → ⊥
    unwritten e =
        let (q, m, f) = new-IsFresh index (length payload) (sha1 payload) block_size wide short in
        let same : q ≡ fresh = cc (m, made) in cc (e, f.state_is, ap (λ (x : Piece). x.state) same)

    -- A piece that `Piece::new` makes from the digest and the length of some data, of 1 to 2^32 - 1
    -- bytes, with blocks of 1 to 2^32 - 1 bytes: whatever list of offsets the bytes of the data are
    -- then received for, in any order, repeatedly and where no block is, if the offset of each block
    -- is among them the piece is complete in the end, and `get_piece_data` returns the data.
    pub deliver-completes :
        (p : Piece) × (deliver sha1 payload os fresh ≡ some p)
        × (is_complete p ≡ true)
        × (get_piece_data p ≡ some (some payload))
    deliver-completes =
        let (p, d, w, was) = deliver-IsOnTheWay sha1 payload block_size os fresh starts in
        let (c, g) = arrived sha1 payload block_size p w (λ e. unwritten (was e)) in (p, d, c, g)
