-- ===== src/Tracker/Manager.antt =====
-- src/core/tracker/tracker_manager.rs: the trackers of a torrent and the pool of their peers.
-- A `HashSet` is the list of its elements; the order of its iterator is a parameter. The world
-- answers each call in its own way: `moments` counts the calls.
pub mod Pool
use motte_seed.Prelude.{
  ℕ, ◌+◌, Bool, true, false, ◌||◌, Option, none, some, List, [], ◌∷◌, ◌++◌, Result, ok, err,
  if◌then◌else◌,
}
use motte_seed.Prelude.{◌≡◌, length}
use motte_seed.Bytes.{has, Bytes, bytes_eq}
use motte_seed.Bytes.Distinct.{IsDistinct}
use motte_seed.Stats
use motte_seed.Stats.{TorrentStats}
use motte_seed.Util.Bencode.{Crate}
use motte_seed.Tracker.Http.{Web}
use motte_seed.Tracker.Udp.Client.{Net}
use motte_seed.Tracker.Factory
use motte_seed.Tracker.Factory.{Tracker, AnyTracker, Moment, create_tracker}

-- The order in which the iterator of a set visits its elements, each of them once.
pub record SetOrder : Type 0 where
  pub iter : List Bytes → List Bytes
  pub has-iter : (set : List Bytes) (b : Bytes) → has (iter set) b ≡ has set b
  pub length-iter : (set : List Bytes) → length (iter set) ≡ length set
  pub iter-IsDistinct : (set : List Bytes) → IsDistinct set → IsDistinct (iter set)

-- `HashSet::insert`.
unfoldable pub insert : List Bytes → Bytes → List Bytes
insert pool peer = if has pool peer then pool else peer ∷ pool

unfoldable pub insert_all : List Bytes → List Bytes → List Bytes
insert_all pool [] = pool
insert_all pool (peer ∷ peers) = insert_all (insert pool peer) peers

abbrev pub concat : List (List Bytes) → List Bytes
concat [] = []
concat (urls ∷ lists) = urls ++ concat lists

-- The URLs in the order in which the loops visit them.
unfoldable pub announce_urls : Bytes → Option (List (List Bytes)) → List Bytes
announce_urls announce_url none = announce_url ∷ []
announce_urls announce_url (some lists) = announce_url ∷ concat lists

pub record TrackerManager (A : Type 0) : Type 0 where
  pub trackers : List (Tracker A)
  pub stats : TorrentStats
  pub peer_pool : List Bytes
  pub info_hash : Bytes
  pub peer_id : Bytes
  pub port : ℕ

unfoldable pub get_all_peers_vec : {A : Type 0} → SetOrder → TrackerManager A → List Bytes
get_all_peers_vec order m = order.iter m.peer_pool

-- The set itself.
unfoldable pub get_all_peers_hash : {A : Type 0} → TrackerManager A → List Bytes
get_all_peers_hash m = m.peer_pool

module _ (web : Web) (crate : Crate) (net : Net) where
  open net use {SocketAddr}

  -- The trackers that can be created, from the i-th call on.
  unfoldable pub create_all :
      (ℕ → Moment web crate net)
      → ℕ
      → List Bytes
      → Bytes
      → Bytes
      → TorrentStats
      → ℕ
      → List (Tracker SocketAddr)
  create_all moments i [] info_hash peer_id stats port = []
  create_all moments i (url ∷ urls) info_hash peer_id stats port =
      let rest = create_all moments (i + 1) urls info_hash peer_id stats port in
      elim (create_tracker web crate net (moments i) url info_hash peer_id stats port) [
        | ok tracker ↦ tracker ∷ rest
        | err _ ↦ rest
      ]

  unfoldable pub new :
      (ℕ → Moment web crate net)
      → Bytes
      → Option (List (List Bytes))
      → Bytes
      → Bytes
      → ℕ
      → ℕ
      → TrackerManager SocketAddr
  new moments announce_url announce_url_list info_hash peer_id total_size port = record {
    trackers =
        create_all moments 0 (announce_urls announce_url announce_url_list) info_hash peer_id
          (Stats.new total_size) port;
    stats = Stats.new total_size;
    peer_pool = [];
    info_hash = info_hash;
    peer_id = peer_id;
    port = port;
  }

  -- The trackers after their calls, from the i-th on, and the pool; an error is passed over.
  unfoldable pub poll :
      (ℕ → Moment web crate net)
      → ℕ
      → List (Tracker SocketAddr)
      → TorrentStats
      → List Bytes
      → List (Tracker SocketAddr) × List Bytes
  poll moments i [] stats pool = ([], pool)
  poll moments i (t ∷ trackers) stats pool =
      let (u, result) = Factory.get_peers web crate net (moments i) t stats in
      elim result [
        | ok peers ↦
            let (us, rest) = poll moments (i + 1) trackers stats (insert_all pool peers) in
            (u ∷ us, rest)
        | err _ ↦ let (us, rest) = poll moments (i + 1) trackers stats pool in (u ∷ us, rest)
      ]

  unfoldable pub poll_all_trackers :
      (ℕ → Moment web crate net) → TrackerManager SocketAddr → TrackerManager SocketAddr
  poll_all_trackers moments m =
      let (trackers, pool) = poll moments 0 m.trackers m.stats m.peer_pool in
      record m { trackers = trackers; peer_pool = pool }
