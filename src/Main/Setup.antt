-- ===== src/Main/Setup.antt =====
-- What `main` has when it enters the loop of the download manager.
use motte_seed.Prelude.{
  ℕ, zero, suc, ◌%◌, ◌^◌, ◌≡◌, refl, sym, ap, ◌∙◌, Bool, min, none, some, List, [], ◌∷◌, ◌++◌, ok,
  length, take, Result-cases, Option-cases, arith, inl, inr, append-nil, append_assoc, List-cases,
}
use motte_seed.Prelude.Assoc.{HashOrder}
use motte_seed.Prelude.Text.{codes}
use motte_seed.Prelude.{All, true, length-take}
use motte_seed.Tracker.Manager.{poll_all_trackers}
use motte_seed.Bytes.{Bytes, has}
use motte_seed.Torrent
use motte_seed.Torrent.{Torrent}
use motte_seed.Util.Bencode.{Crate}
use motte_seed.Disk
use motte_seed.Disk.{DiskIo, FileSystem}
use motte_seed.Tracker.Http.{Web}
use motte_seed.Tracker.Udp.Client.{Net}
use motte_seed.Peer.Id.{get_peer_id}
use motte_seed.Peer.Block.{Block, PeerIp}
use motte_seed.Peer.Connection.{PeerEvent}
use motte_seed.Peer.PieceManager
use motte_seed.Peer.DownloadManager
use motte_seed.Peer.DownloadManager.{DownloadManager, Peers, set_disk_io, run}
use motte_seed.Peer.DownloadManager.Silent.{run-alone}
use motte_seed.Peer.Manager as Connections
use motte_seed.Peer.Manager.{PeerManager, Task, add_peer, new_task}
use motte_seed.Peer.Manager.Steps.{ips, Reached, after, adds, created}
use motte_seed.Bytes.Distinct.{IsDistinct, IsDistinct-append_middle, IsDistinct-take, take-has}
use mathlib.Core.Path.{subst}
use motte_seed.Tracker.Manager
use motte_seed.Tracker.Manager.Pool.{poll_all_trackers-pool}
use motte_seed.Peer.Manager.Order.{ips-append}
use motte_seed.Main.{total_size, World, started, add_peers, find_peers, start_download, start}

module _ {F : Type 0} where
  ips-add_peers :
      (m : PeerManager F) (l : List PeerIp) → ips (add_peers m l).tasks ≡ ips m.tasks ++ l
  unfolding add_peers add_peer new_task
  ips-add_peers m [] = sym (append-nil (ips m.tasks))
  ips-add_peers m (ip ∷ l) =
      ips-add_peers (add_peer m ip none) l
      ∙ ap (λ k. k ++ l) (ips-append m.tasks (new_task ip none))
      ∙ append_assoc (ips m.tasks) (ip ∷ []) l

  add_peers-Reached :
      {peer_id info_hash : Bytes} (m : PeerManager F) (l : List PeerIp)
      → IsDistinct (ips m.tasks ++ l)
      → Reached peer_id info_hash m
      → Reached peer_id info_hash (add_peers m l)
  unfolding add_peers add_peer new_task
  add_peers-Reached m [] d r = r
  add_peers-Reached m (ip ∷ l) d r =
      let grown : ips (add_peer m ip none).tasks ++ l ≡ ips m.tasks ++ (ip ∷ l) =
        ap (λ k. k ++ l) (ips-append m.tasks (new_task ip none))
        ∙ append_assoc (ips m.tasks) (ip ∷ []) l in
      add_peers-Reached (add_peer m ip none) l (subst IsDistinct (sym grown) d)
        (after r (adds m ip none (IsDistinct-append_middle (ips m.tasks) ip l d)))

take-min : {A : Type 0} (n : ℕ) (l : List A) → take (min (length l) n) l ≡ take n l
take-min zero l = let e : min (length l) 0 ≡ 0 = omega arith in rw e refl
take-min (suc n) [] = let e : min 0 (suc n) ≡ 0 = omega arith in rw e refl
take-min (suc n) (x ∷ l) =
    let e : min (suc (length l)) (suc n) ≡ suc (min (length l) n) = omega arith in
    rw (e, take-min n l) refl

-- What the iterator visits is in the set.
All-iter :
    (order : Manager.SetOrder) (set l : List PeerIp)
    → All (λ ip. has (order.iter set) ip ≡ true) l
    → All (λ ip. has set ip ≡ true) l
All-iter order set [] a = tt
All-iter order set (ip ∷ l) (h, a) = (sym (order.has-iter set ip) ∙ h, All-iter order set l a)

module _ (web : Web) (crate : Crate) (net : Net) where
  -- The pool of the torrent's trackers after they have been asked.
  abbrev pub pool : World web crate net → Torrent → List PeerIp
  pool w torrent =
      (poll_all_trackers web crate net w.polls (
        Manager.new web crate net w.creates torrent.announce none torrent.info_hash
          (get_peer_id w.draws) (total_size (torrent.info).file_details) 6881)).peer_pool

  find_peers-pool :
      (w : World web crate net) (torrent : Torrent)
      → find_peers web crate net w torrent ≡ (w.pool_order).iter (pool w torrent)
  unfolding find_peers Manager.get_all_peers_vec
  find_peers-pool w torrent = refl

  find_peers-IsDistinct :
      (w : World web crate net) (torrent : Torrent)
      → IsDistinct (find_peers web crate net w torrent)
  unfolding find_peers Manager.new Manager.get_all_peers_vec
  find_peers-IsDistinct w torrent = (w.pool_order).iter-IsDistinct (pool w torrent) (
      (poll_all_trackers-pool web crate net w.polls (
          Manager.new web crate net w.creates torrent.announce none torrent.info_hash
            (get_peer_id w.draws) (total_size (torrent.info).file_details) 6881)).1
        tt)

module _ (web : Web) (crate : Crate) (net : Net) (fs : FileSystem) {F : Type 0} where
  -- A manager that has no peer and has sent nothing, and a task for each of the first ten peers that
  -- the iterator of the pool gives.
  record IsStarted (w : World web crate net) (torrent : Torrent) (d : DownloadManager)
      (p : PeerManager F) : Type 0 where
    peers_empty : d.peers ≡ []
    sent_empty : d.sent ≡ []
    tasks_are : ips p.tasks ≡ take 10 (find_peers web crate net w torrent)
    connections : Reached (get_peer_id w.draws) torrent.info_hash p

  start_download_lem :
      (w : World web crate net) (torrent : Torrent) (peers : List PeerIp) (d : DownloadManager)
      (p : PeerManager F)
      → find_peers web crate net w torrent ≡ peers
      → start_download web crate net fs w torrent peers ≡ started d p
      → IsStarted w torrent d p
  unfolding start_download DownloadManager.new set_disk_io Connections.new
  start_download_lem w torrent peers d p same h =
      elim (Result-cases (
        Disk.new fs w.is_utf8 w.created (codes "." ∷ codes "downloads" ∷ [])
          (torrent.info).file_details ((torrent.info).piece_length % 2 ^ 32))) [
            | inr (e, k) ↦ cc (rw (k, start_download) at h)
            | inl (disk, k) ↦ elim (Option-cases (PieceManager.new torrent.info 16384)) [
              | inl e ↦ cc (rw (k, e, DownloadManager.new, start_download) at h)
              | inr (m, e) ↦
                  let d0 : DownloadManager = record {
                    piece_manager = m;
                    peers = [];
                    disk_io = some disk;
                    sent = [];
                  } in
                  let p0 : PeerManager F =
                    add_peers (Connections.new (get_peer_id w.draws) torrent.info_hash)
                      (take (min (length peers) 10) peers) in
                  let both : started d0 p0 ≡ started d p =
                    rw (k, e, DownloadManager.new, start_download) at h in
                  let manager : d0 ≡ d = cc both in
                  let added : p0 ≡ p = cc both in
                  record {
                    peers_empty = ap (λ (x : DownloadManager). x.peers) (sym manager);
                    sent_empty = ap (λ (x : DownloadManager). x.sent) (sym manager);
                    tasks_are =
                        ap (λ (x : PeerManager F). ips x.tasks) (sym added)
                        ∙ ips-add_peers _ (take (min (length peers) 10) peers)
                        ∙ take-min 10 peers
                        ∙ ap (take 10) (sym same);
                    connections = subst (Reached (get_peer_id w.draws) torrent.info_hash) added (
                        add_peers-Reached (Connections.new (get_peer_id w.draws) torrent.info_hash)
                          (take (min (length peers) 10) peers)
                          (IsDistinct-take (min (length peers) 10) peers
                            (subst IsDistinct same (find_peers-IsDistinct web crate net w torrent)))
                          created);
                  }
            ]
          ]

  start_lem :
      (w : World web crate net) (d : DownloadManager) (p : PeerManager F)
      → start web crate net fs w ≡ started d p
      → (torrent : Torrent) × (Torrent.from_file crate w.sha1 w.lossy w.content ≡ ok torrent)
        × IsStarted w torrent d p
  unfolding start
  start_lem w d p h = elim (Result-cases (Torrent.from_file crate w.sha1 w.lossy w.content)) [
    | inr (e, k) ↦ cc (rw (k, start) at h)
    | inl (torrent, k) ↦ elim (List-cases (find_peers web crate net w torrent)) [
      | inl e ↦ cc (rw (k, e, start) at h)
      | inr (ip, rest, e) ↦
          (torrent, k, start_download_lem w torrent (ip ∷ rest) d p e (rw (k, e, start) at h))
    ]
  ]

  -- When `main` enters its loop, it has read the torrent, and there are as many tasks as the pool of
  -- its trackers has peers, but at most ten, each for a peer of the pool, no two for the same, whatever
  -- the order of the pool's iterator is; and the peer manager is one that is reached by adding each
  -- address once.
  pub start-tasks :
      (w : World web crate net) (d : DownloadManager) (p : PeerManager F)
      → start web crate net fs w ≡ started d p
      → (torrent : Torrent) × (Torrent.from_file crate w.sha1 w.lossy w.content ≡ ok torrent)
        × (length (ips p.tasks) ≡ min (length (pool web crate net w torrent)) 10)
        × All (λ ip. has (pool web crate net w torrent) ip ≡ true) (ips p.tasks)
        × IsDistinct (ips p.tasks)
        × Reached (get_peer_id w.draws) torrent.info_hash p
  start-tasks w d p h =
      let (torrent, e, s) = start_lem w d p h in
      let order : Manager.SetOrder = w.pool_order in
      let set : List PeerIp = pool web crate net w torrent in
      let visited : List PeerIp = order.iter set in
      let front : ips p.tasks ≡ take 10 visited =
        s.tasks_are ∙ ap (take 10) (find_peers-pool web crate net w torrent) in
      (
        torrent,
        e,
        ap length front ∙ omega (arith, length-take 10 visited, order.length-iter set),
        subst (All (λ ip. has set ip ≡ true)) (sym front)
            (All-iter order set (take 10 visited) (take-has 10 visited)),
        subst IsDistinct (sym front) (
            IsDistinct-take 10 visited (
              subst IsDistinct (find_peers-pool web crate net w torrent)
                (find_peers-IsDistinct web crate net w torrent))),
        s.connections,
      )

  -- Whatever events the peers send, the loop that `main` enters sends no command to any peer, so that
  -- it requests no block: `main` gives its peers to the peer manager and none to the download
  -- manager. The iterator of an empty map visits nothing.
  pub start-run :
      (w : World web crate net) (peer_order : Peers → Peers) (order : HashOrder Block)
      (d e : DownloadManager) (p : PeerManager F) (events : List (PeerEvent F × PeerIp × ℕ))
      (left : Bool)
      → peer_order [] ≡ []
      → start web crate net fs w ≡ started d p
      → run w.sha1 fs peer_order order d events ≡ some (e, left)
      → e.sent ≡ []
  start-run w peer_order order d e p events left visits h r =
      let (torrent, read, s) = start_lem w d p h in
      run-alone w.sha1 fs peer_order visits order events d e left s.peers_empty r ∙ s.sent_empty
