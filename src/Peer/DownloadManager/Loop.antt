-- ===== src/Peer/DownloadManager/Loop.antt =====
-- When the loop of the download manager ends, and when it goes on.
use motte_seed.Prelude.{
  ℕ, zero, suc, ◌/◌, ◌^◌, ◌≡◌, ◌≤◌, ◌<◌, refl, ap, true, false, none, some, List, [], ◌∷◌, ◌++◌,
  ◌⊎◌, inl, inr, All, Option-cases, Bool-cases, length,
}
use motte_seed.Prelude.Assoc.{HashOrder}
use motte_seed.Bytes.{Bytes}
use motte_seed.Torrent.{Info}
use motte_seed.Disk.{FileSystem}
use motte_seed.Peer.Block.{Block, PeerIp}
use motte_seed.Peer.Connection.{PeerEvent}
use motte_seed.Peer.PieceManager.{is_download_complete}
use motte_seed.Peer.DownloadManager.{DownloadManager, Peers, handle_event, run, run_closed}
use motte_seed.Peer.DownloadManager.Runs.{IsShort}
use motte_seed.Peer.DownloadManager.Reach.{Reached, handled, Reached-AllGenuine, handle_event-ends}

-- With a download that is not complete no number of rounds ends the loop on a closed channel.
run_closed_lem :
    (rounds : ℕ) (d : DownloadManager)
    → is_download_complete d.piece_manager ≡ false
    → run_closed rounds d ≡ none
unfolding run_closed
run_closed_lem zero d h = refl
run_closed_lem (suc rounds) d h = rw (h, run_closed) (run_closed_lem rounds d h)

module _ (sha1 : Bytes → Bytes) (fs : FileSystem) (peer_order : Peers → Peers)
    (order : HashOrder Block) where
  -- The events are handled one after the other, and the download is not complete after any of them.
  pub data Handles (F : Type 0)
      : DownloadManager → List (PeerEvent F × PeerIp × ℕ) → DownloadManager → Type 0 where
    waits : {d : DownloadManager} → Handles F d [] d
    goes_on :
        {d c e : DownloadManager} (event : PeerEvent F) (ip : PeerIp) (now : ℕ)
        {rest : List (PeerEvent F × PeerIp × ℕ)}
        → handle_event sha1 fs peer_order order d event ip now ≡ some c
        → is_download_complete c.piece_manager ≡ false
        → Handles F c rest e
        → Handles F d ((event, ip, now) ∷ rest) e

  module _ (info : Info) (block_size : ℕ) (wide : 0 < block_size) (narrow : block_size < 2 ^ 32)
      (short : info.piece_length < 2 ^ 32) (few : length info.raw_pieces / 20 ≤ 2 ^ 32)
      {F : Type 0} where
    -- For a piece length and a block size that fit in 32 bits, and at most 2^32 pieces, a manager that
    -- is reached and whose download is not complete, and events that come in messages: `run` never
    -- fails to handle an event, and the manager that it comes to is reached again. Either it has left
    -- its loop, and then at the first event after which the download is complete, the events behind it
    -- being left unhandled. Or it has handled all events, the download is not complete after any of
    -- them, it has not left its loop, and if the channel of the events is then closed, it does not
    -- leave it in any number of further rounds.
    pub run_leaves :
        (events : List (PeerEvent F × PeerIp × ℕ)) (d : DownloadManager)
        → Reached sha1 fs peer_order order info F block_size d
        → is_download_complete d.piece_manager ≡ false
        → All (λ x. IsShort x.0) events
        → (e : DownloadManager) × Reached sha1 fs peer_order order info F block_size e
          × (((run sha1 fs peer_order order d events ≡ some (e, true))
                × (is_download_complete e.piece_manager ≡ true)
                × (front rest : List (PeerEvent F × PeerIp × ℕ)) × (c : DownloadManager)
                × (event : PeerEvent F) × (ip : PeerIp) × (now : ℕ) × (events
                    ≡ front ++ (event, ip, now) ∷ rest)
                × Handles F d front c
                × (handle_event sha1 fs peer_order order c event ip now ≡ some e))
              ⊎ ((run sha1 fs peer_order order d events ≡ some (e, false))
                  × Handles F d events e
                  × (is_download_complete e.piece_manager ≡ false)
                  × ((rounds : ℕ) → run_closed rounds e ≡ none)))
    unfolding run
    run_leaves [] d r w a = (d, r, inr (refl, waits, w, λ rounds. run_closed_lem rounds d w))
    run_leaves ((event, ip, now) ∷ rest) d r w (small, a) =
        elim (Option-cases (handle_event sha1 fs peer_order order d event ip now)) [
          | inl n ↦ absurd (
              handle_event-ends sha1 fs peer_order order info d event ip now small
                (Reached-AllGenuine sha1 fs peer_order order info block_size wide narrow short few d
                  r)
                n)
          | inr (c, h) ↦
              let s : Reached sha1 fs peer_order order info F block_size c =
                handled event ip now small h r in
              elim (Bool-cases (is_download_complete c.piece_manager)) [
                | inl q ↦ (
                  c,
                  s,
                  inl (rw (h, q, run) refl, q, [], rest, d, event, ip, now, refl, waits, h),
                )
                | inr q ↦
                    let (e, t, out) = run_leaves rest c s q a in
                    elim out [
                      | inl (g, full, front, back, x, last, from, at_last, parts, before, ends) ↦ (
                        e,
                        t,
                        inl (
                          rw (h, q, run) g,
                          full,
                          (event, ip, now) ∷ front,
                          back,
                          x,
                          last,
                          from,
                          at_last,
                          ap (λ l. (event, ip, now) ∷ l) parts,
                          goes_on event ip now h q before,
                          ends,
                        ),
                      )
                      | inr (g, all_of, open_still, closed) ↦ (
                        e,
                        t,
                        inr (rw (h, q, run) g, goes_on event ip now h q all_of, open_still, closed),
                      )
                    ]
              ]
        ]
