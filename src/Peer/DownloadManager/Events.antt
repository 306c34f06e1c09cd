-- ===== src/Peer/DownloadManager/Events.antt =====
-- The events of peers that hold the torrent's data, and how the pieces follow them.
use motte_seed.Prelude.{
  ℕ, ◌*◌, ◌≡◌, ◌≢◌, ◌<◌, ◌∙◌, refl, sym, ap, false, true, List, [], ◌∷◌, ◌++◌, length, ◌==◌,
  if◌then◌else◌, arith,
}
use motte_seed.Bytes.{Bytes}
use motte_seed.Disk.Whole.{piece_bytes, length-piece_bytes}
use motte_seed.Peer.Block.{PeerIp}
use motte_seed.Peer.Piece
use motte_seed.Peer.Piece.{Piece}
use motte_seed.Peer.Piece.Delivery.{slice}
use motte_seed.Peer.Piece.Asked.{request-IsOnTheWay, mask_written-IsOnTheWay}
use motte_seed.Peer.Piece.OnTheWay.{IsOnTheWay, receive-IsOnTheWay, get_piece_data-complete}
use motte_seed.Peer.Connection.{
  PeerEvent, received_bitfield, received_have, peer_unchoked, received_piece, peer_disconnected,
  peer_choked, peer_interested, peer_not_interested, requested_block, download_rate,
}
use motte_seed.Peer.DownloadManager.Progress.{Receives}
use motte_seed.Peer.DownloadManager.Handled.{Follows}
use mathlib.Core.Path.{subst}

-- The offsets at which blocks of a piece come in one event, and in all.
abbrev pub begins : {F : Type 0} → ℕ → PeerEvent F → List ℕ
begins i (received_piece k begin block) = if k == i then begin ∷ [] else []
begins i _ = []

abbrev pub offsets : {F : Type 0} → List (PeerEvent F × PeerIp × ℕ) → ℕ → List ℕ
offsets [] i = []
offsets ((event, ip, now) ∷ events) i = begins i event ++ offsets events i

-- A block that comes has the bytes of the torrent's data at its place; any other event is as it is.
abbrev pub IsFrom : {F : Type 0} → Bytes → ℕ → ℕ → PeerEvent F → Type 0
IsFrom torrent len s (received_piece k begin block) =
    block ≡ slice (piece_bytes torrent len k) s len begin
IsFrom torrent len s _ = Unit {0}

-- A piece is on the way to its part of the data, with the blocks that are still to come.
abbrev pub OnTheWay :
    {F : Type 0}
    → (Bytes → Bytes)
    → Bytes
    → ℕ
    → ℕ
    → List (PeerEvent F × PeerIp × ℕ)
    → ℕ
    → Piece
    → Type 0
OnTheWay sha1 torrent len s events i p =
    IsOnTheWay sha1 (piece_bytes torrent len i) s (offsets events i) p

abbrev pub IsPart : Bytes → ℕ → ℕ → Bytes → Type 0
IsPart torrent len i bytes = bytes ≡ piece_bytes torrent len i

module _ {F : Type 0} (sha1 : Bytes → Bytes) (torrent : Bytes) (len s n : ℕ)
    (whole : length torrent ≡ n * len) where
  begins-other :
      (event : PeerEvent F) (j : ℕ)
      → ((k o : ℕ) (block : Bytes) → event ≡ received_piece k o block → j ≢ k)
      → begins j event ≡ []
  begins-other (received_piece k o block) j f =
      let ne : j ≢ k = f k o block refl in let q : (k == j) ≡ false = ground arith in rw q refl
  begins-other peer_unchoked j f = refl
  begins-other (received_bitfield bitfield) j f = refl
  begins-other (received_have index) j f = refl
  begins-other peer_disconnected j f = refl
  begins-other peer_choked j f = refl
  begins-other peer_interested j f = refl
  begins-other peer_not_interested j f = refl
  begins-other (requested_block i b m) j f = refl
  begins-other (download_rate r) j f = refl

  Receives-IsPart :
      (k o : ℕ) (block : Bytes) (ip : PeerIp) (now : ℕ) (rest : List (PeerEvent F × PeerIp × ℕ))
      (p : Piece)
      → block ≡ slice (piece_bytes torrent len k) s len o
      → k < n
      → OnTheWay sha1 torrent len s ((received_piece k o block, ip, now) ∷ rest) k p
      → Receives len n (IsPart torrent len) sha1 (OnTheWay sha1 torrent len s rest) k o block p
  Receives-IsPart k o block ip now rest p from inside v0 =
      let piece : Bytes = piece_bytes torrent len k in
      let mine : (k == k) ≡ true = ground arith in
      let v : IsOnTheWay sha1 piece s (o ∷ offsets rest k) p = rw mine at v0 in
      let (r, e, u, was) = receive-IsOnTheWay sha1 piece s o (offsets rest k) p v in
      let size : length piece ≡ len = length-piece_bytes torrent len n k whole inside in
      let p_len : p.length ≡ len = sym v.covers ∙ size in
      let as_asked : block ≡ slice piece p.block_size p.length o =
        from
        ∙ ap (λ x. slice piece x len o) (sym v.sized)
        ∙ ap (λ x. slice piece p.block_size x o) (sym p_len) in
      (
        r,
        ap (Piece.receive_block sha1 p o) as_asked ∙ e,
        u,
        was,
        λ c. (piece, get_piece_data-complete sha1 piece s (offsets rest k) r.0 u c, size, refl),
      )

  pub offsets-Follows :
      Follows {F = F} sha1 len n
        (IsPart torrent len)
        (IsFrom torrent len s)
        (OnTheWay sha1 torrent len s)
  offsets-Follows = record {
    moves = λ event ip now rest j p f v.
        subst (λ l. IsOnTheWay sha1 (piece_bytes torrent len j) s (l ++ offsets rest j) p)
          (begins-other event j f) v;
    receives = Receives-IsPart;
    marks = λ rest k q v d.
        mask_written-IsOnTheWay sha1 (piece_bytes torrent len k) s (offsets rest k) q v d;
    requests = λ rest k p o b ip now e i v.
        request-IsOnTheWay sha1 (piece_bytes torrent len k) s (offsets rest k) p v o b ip now e i;
  }
