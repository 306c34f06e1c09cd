-- ===== src/Tracker/Factory.antt =====
-- src/core/tracker/tracker.rs, src/core/tracker/tracker_factory.rs: a tracker of either protocol, by
-- its URL.
use motte_seed.Prelude.{ℕ, List, Result, ok, ◌>>=◌, if◌then◌else◌}
use motte_seed.Prelude.Text.{codes}
use motte_seed.Bytes.{Bytes, starts_with}
use motte_seed.Stats.{TorrentStats}
use motte_seed.Util.Bencode.{Crate}
use motte_seed.Tracker.Error.{TrackerError}
use motte_seed.Tracker.Http
use motte_seed.Tracker.Http.{Web, TrackerHttp, Fetch}
use motte_seed.Tracker.Udp.{Round}
use motte_seed.Tracker.Udp.Client
use motte_seed.Tracker.Udp.Client.{Net, TrackerUdp}

pub data TrackerType : Type 0 where
  http udp : TrackerType

unfoldable pub determine_type : Bytes → TrackerType
determine_type url = if starts_with url (codes "udp://") then udp else http

-- What implements the trait `Tracker`.
pub data Tracker (A : Type 0) : Type 0 where
  http_tracker : TrackerHttp → Tracker A
  udp_tracker : TrackerUdp A → Tracker A

module _ (web : Web) (crate : Crate) (net : Net) where
  abbrev pub AnyTracker : Type 0
  AnyTracker = Tracker net.SocketAddr

  -- What the world answers to one call: the network of both protocols, the number that the generator
  -- draws, and the clock before and after.
  pub record Moment : Type 0 where
    pub fetch : Fetch web crate
    pub connects : net.SocketAddr → ℕ → Round
    pub announces : net.SocketAddr → ℕ → Round
    pub key : ℕ
    pub now : ℕ
    pub later : ℕ

  unfoldable pub create_tracker :
      Moment → Bytes → Bytes → Bytes → TorrentStats → ℕ → Result AnyTracker TrackerError
  create_tracker w announce_url info_hash peer_id stats port = elim (determine_type announce_url) [
    | http ↦ (do
      t ← Http.new web crate w.fetch announce_url info_hash peer_id stats port w.later
      ok (http_tracker t))
    | udp ↦ (do
      t ← Client.new net announce_url info_hash peer_id port w.key w.connects w.announces w.later
      ok (udp_tracker t))
  ]

  -- A call through the trait object.
  unfoldable pub get_peers :
      Moment → AnyTracker → TorrentStats → AnyTracker × Result (List Bytes) TrackerError
  get_peers w (http_tracker t) stats =
      let (u, result) = Http.get_peers web crate w.fetch t stats w.now w.later in
      (http_tracker u, result)
  get_peers w (udp_tracker t) stats =
      let (u, result) = Client.get_peers t w.connects w.announces w.now w.later in
      (udp_tracker u, result)
