-- ===== src/Peer/DownloadManager/Handled.antt =====
-- What each event does to a download that is on its way.
use motte_seed.Prelude.{
  ◌≢◌, Bool, Bool-cases, All, ℕ, ◌*◌, ◌^◌, ◌≡◌, ◌<◌, refl, false, true, some, List, [], ◌∷◌, inl,
  inr,
}
use motte_seed.Prelude.Assoc.{HashOrder}
use motte_seed.Bytes.{Bytes}
use motte_seed.Disk.{FileSystem}
use motte_seed.Disk.Whole.{NeverFails}
use motte_seed.Peer.Block.{Block, PeerIp}
use motte_seed.Peer.Piece.{Piece}
use motte_seed.Peer.PieceManager.{is_download_complete}
use motte_seed.Peer.Connection.{
  PeerEvent, received_bitfield, received_have, peer_unchoked, received_piece, peer_disconnected,
  peer_choked, peer_interested, peer_not_interested, requested_block, download_rate,
}
use motte_seed.Peer.DownloadManager.{
  run, DownloadManager, Peers, handle_bitfield, handle_have, handle_unchoke, handle_event,
  remove_peer,
}
use motte_seed.Peer.DownloadManager.Runs.{handle_bitfield-pieces, handle_have-pieces}
use motte_seed.Peer.DownloadManager.Progress.{IsDownloading, Receives, KeepsMarked, KeepsRequested}
use motte_seed.Peer.DownloadManager.Delivered.{received-IsDownloading}
use motte_seed.Peer.DownloadManager.Kept.{kept, unchoked, handle_bitfield-disk, handle_have-disk}

-- What is known of the pieces when some events are still to come, and how it follows the events.
pub record Follows {F : Type 0} (sha1 : Bytes → Bytes) (len n : ℕ) (Part : ℕ → Bytes → Type 0)
    (From : PeerEvent F → Type 0) (Known : List (PeerEvent F × PeerIp × ℕ) → ℕ → Piece → Type 0)
    : Type 0 where
  pub moves :
      (event : PeerEvent F) (ip : PeerIp) (now : ℕ) (rest : List (PeerEvent F × PeerIp × ℕ)) (j : ℕ)
      (p : Piece)
      → ((k o : ℕ) (block : Bytes) → event ≡ received_piece k o block → j ≢ k)
      → Known ((event, ip, now) ∷ rest) j p
      → Known rest j p
  pub receives :
      (k o : ℕ) (block : Bytes) (ip : PeerIp) (now : ℕ) (rest : List (PeerEvent F × PeerIp × ℕ))
      (p : Piece)
      → From (received_piece k o block)
      → k < n
      → Known ((received_piece k o block, ip, now) ∷ rest) k p
      → Receives len n Part sha1 (Known rest) k o block p
  pub marks : (rest : List (PeerEvent F × PeerIp × ℕ)) → KeepsMarked (Known rest)
  pub requests : (rest : List (PeerEvent F × PeerIp × ℕ)) → KeepsRequested (Known rest)

-- An event that brings no block.
abbrev IsOther : {F : Type 0} → PeerEvent F → Type 0
IsOther {F = F} event = (k o : ℕ) (block : Bytes) → event ≡ received_piece k o block → ⊥

module _ {F : Type 0} (sha1 : Bytes → Bytes) (fs : FileSystem) (peer_order : Peers → Peers)
    (order : HashOrder Block) (never : NeverFails fs) (len n : ℕ) (small : n * len < 2 ^ 32)
    (wide : 0 < len) (Part : ℕ → Bytes → Type 0) (From : PeerEvent F → Type 0)
    (Known : List (PeerEvent F × PeerIp × ℕ) → ℕ → Piece → Type 0)
    (laws : Follows sha1 len n Part From Known) where
  module _ (event : PeerEvent F) (ip : PeerIp) (now : ℕ) (rest : List (PeerEvent F × PeerIp × ℕ))
      (d : DownloadManager) (w : IsDownloading len n Part (Known ((event, ip, now) ∷ rest)) d)
      (other : IsOther event) where
    passes : (j : ℕ) (p : Piece) → Known ((event, ip, now) ∷ rest) j p → Known rest j p
    passes j p = laws.moves event ip now rest j p (λ k o block e. absurd (other k o block e))

    unrelated :
        (e : DownloadManager)
        → e.piece_manager ≡ d.piece_manager
        → e.disk_io ≡ d.disk_io
        → IsDownloading len n Part (Known rest) e
    unrelated e m i =
        kept len n Part (Known ((event, ip, now) ∷ rest)) (Known rest) passes (laws.requests rest) d
          w e m i

  -- Every event is handled, and the download goes on with the events behind it.
  pub handle_event-IsDownloading :
      (event : PeerEvent F) (ip : PeerIp) (now : ℕ) (rest : List (PeerEvent F × PeerIp × ℕ))
      (d : DownloadManager)
      → From event
      → IsDownloading len n Part (Known ((event, ip, now) ∷ rest)) d
      → (e : DownloadManager) × (handle_event sha1 fs peer_order order d event ip now ≡ some e)
        × IsDownloading len n Part (Known rest) e
  unfolding handle_event remove_peer
  handle_event-IsDownloading (received_piece k o block) ip now rest d from w =
      received-IsDownloading sha1 fs peer_order never len n small wide Part
        (Known ((received_piece k o block, ip, now) ∷ rest)) (Known rest) d w k o block
        (λ j p ne.
          laws.moves (received_piece k o block) ip now rest j p (λ i x b e same. ne (cc (e, same))))
        (λ p. laws.receives k o block ip now rest p from) (laws.marks rest)
  handle_event-IsDownloading peer_unchoked ip now rest d from w = (
    handle_unchoke order d ip now,
    refl,
    unchoked len n Part (Known ((peer_unchoked, ip, now) ∷ rest)) (Known rest)
        (passes peer_unchoked ip now rest d w (λ k o b e. cc e)) (laws.requests rest) d w order ip
        now,
  )
  handle_event-IsDownloading (received_bitfield bitfield) ip now rest d from w =
      let e : DownloadManager = handle_bitfield d ip bitfield in
      (
        e,
        refl,
        unrelated (received_bitfield bitfield) ip now rest d w (λ k o b e. cc e) e
            (handle_bitfield-pieces d ip bitfield) (handle_bitfield-disk d ip bitfield),
      )
  handle_event-IsDownloading (received_have index) ip now rest d from w =
      let e : DownloadManager = handle_have d ip index in
      (
        e,
        refl,
        unrelated (received_have index) ip now rest d w (λ k o b e. cc e) e
            (handle_have-pieces d ip index) (handle_have-disk d ip index),
      )
  handle_event-IsDownloading peer_disconnected ip now rest d from w = (
    remove_peer d ip,
    refl,
    unrelated peer_disconnected ip now rest d w (λ k o b e. cc e) (remove_peer d ip) refl refl,
  )
  handle_event-IsDownloading peer_choked ip now rest d from w =
      (d, refl, unrelated peer_choked ip now rest d w (λ k o b e. cc e) d refl refl)
  handle_event-IsDownloading peer_interested ip now rest d from w =
      (d, refl, unrelated peer_interested ip now rest d w (λ k o b e. cc e) d refl refl)
  handle_event-IsDownloading peer_not_interested ip now rest d from w =
      (d, refl, unrelated peer_not_interested ip now rest d w (λ k o b e. cc e) d refl refl)
  handle_event-IsDownloading (requested_block i b m) ip now rest d from w =
      (d, refl, unrelated (requested_block i b m) ip now rest d w (λ k o b e. cc e) d refl refl)
  handle_event-IsDownloading (download_rate r) ip now rest d from w =
      (d, refl, unrelated (download_rate r) ip now rest d w (λ k o b e. cc e) d refl refl)

  -- The whole loop: it ends, and leaves exactly if the download has become complete.
  pub run-IsDownloading :
      (events : List (PeerEvent F × PeerIp × ℕ)) (d : DownloadManager)
      → All (λ e. From e.0) events
      → IsDownloading len n Part (Known events) d
      → is_download_complete d.piece_manager ≡ false
      → (e : DownloadManager) × (left : Bool) × (rest : List (PeerEvent F × PeerIp × ℕ)) × (run sha1
            fs peer_order order d events
          ≡ some (e, left))
        × IsDownloading len n Part (Known rest) e
        × (is_download_complete e.piece_manager ≡ left)
        × (left ≡ false → rest ≡ [])
  unfolding run
  run-IsDownloading [] d a w c = (d, false, [], refl, w, c, λ h. refl)
  run-IsDownloading ((event, ip, now) ∷ rest) d (from, a) w c =
      let (x, h, v) = handle_event-IsDownloading event ip now rest d from w in
      elim (Bool-cases (is_download_complete x.piece_manager)) [
        | inl q ↦ (x, true, rest, rw (h, q, run) refl, v, q, λ h. cc h)
        | inr q ↦
            let (e, left, later, g, y, z, u) = run-IsDownloading rest x a v q in
            (e, left, later, rw (h, q, run) g, y, z, u)
      ]
