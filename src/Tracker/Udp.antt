-- ===== src/Tracker/Udp.antt =====
-- src/core/tracker/tracker_udp.rs: the UDP tracker protocol, its retries and its intervals.
-- The network is what happens in each round: the transaction id that is drawn, whether the send
-- fails, and the reply. The clock is an argument, in nanoseconds.
pub mod Client
pub mod Request
pub mod Response
pub mod Retry
pub mod Url
pub mod Interval
use Prim.Native.String.{String}
use motte_seed.Prelude.{
  ℕ, zero, suc, ◌+◌, ◌-◌, ◌*◌, ◌/◌, ◌%◌, ◌^◌, Bool, Option, none, some, List, [], ◌∷◌, ◌++◌, not,
  ◌&&◌, Result, ok, err, ltb, leb, ◌==◌, if◌then◌else◌, length, take, drop,
}
use motte_seed.Bytes.{Bytes, be16, be32, at, u32_at}
use motte_seed.Stats.{TorrentStats}
use motte_seed.Tracker.Error.{TrackerError, stream_error, other}

abbrev pub max_retries : ℕ
max_retries = 3

abbrev pub connection_expiry : ℕ
connection_expiry = 120 * 10 ^ 9

-- `to_be_bytes` of a `u64`, and `from_be_bytes`.
abbrev pub be64 : ℕ → Bytes
be64 n = be32 (n / 2 ^ 32) ++ be32 (n % 2 ^ 32)

abbrev pub u64_at : Bytes → ℕ → ℕ
u64_at bytes i = u32_at bytes i * 2 ^ 32 + u32_at bytes (i + 4)

pub record AnnounceRequest : Type 0 where
  pub info_hash : Bytes
  pub peer_id : Bytes
  pub event : ℕ
  pub ip_address : ℕ
  pub key : ℕ
  pub num_want : ℕ
  pub port : ℕ

-- `key` is drawn by the generator.
unfoldable pub new_request : Bytes → Bytes → ℕ → ℕ → AnnounceRequest
new_request info_hash peer_id port key = record {
  info_hash = info_hash;
  peer_id = peer_id;
  event = 0;
  ip_address = 0;
  key = key;
  num_want = 50;
  port = port;
}

-- The fields fill the 98 bytes in order; digest and id are arrays of 20.
unfoldable pub to_bytes : AnnounceRequest → TorrentStats → ℕ → ℕ → Bytes
to_bytes r stats connection_id transaction_id =
    be64 connection_id
    ++ (be32 1
        ++ (be32 transaction_id
            ++ (r.info_hash
                ++ (r.peer_id
                    ++ (be64 stats.downloaded
                        ++ (be64 stats.left
                            ++ (be64 stats.uploaded
                                ++ (be32 r.event
                                    ++ (be32 r.ip_address
                                        ++ (be32 r.key ++ (be32 r.num_want ++ be16 r.port)))))))))))

unfoldable pub create_connect_request : ℕ → Bytes
create_connect_request transaction_id = be64 0x41727101980 ++ (be32 0 ++ be32 transaction_id)

pub record AnnounceResponse : Type 0 where
  pub action : ℕ
  pub transaction_id : ℕ
  pub interval : ℕ
  pub leechers : ℕ
  pub seeders : ℕ
  pub peers : List Bytes

-- `chunks_exact(6)`, for as many chunks as are left.
unfoldable pub chunks : ℕ → Bytes → List Bytes
chunks zero bytes = []
chunks (suc n) bytes = take 6 bytes ∷ chunks n (drop 6 bytes)

unfoldable pub announce_from_bytes : Bytes → Result AnnounceResponse TrackerError
announce_from_bytes bytes =
    let peer_data = drop 20 bytes in
    if ltb (length bytes) 20
    then err (other "Response too short")
    else if not (length peer_data % 6 == 0)
    then err (other "Invalid peer data length")
    else ok (record {
      action = u32_at bytes 0;
      transaction_id = u32_at bytes 4;
      interval = u32_at bytes 8;
      leechers = u32_at bytes 12;
      seeders = u32_at bytes 16;
      peers = chunks (length peer_data / 6) peer_data;
    })

pub record ConnectionResponse : Type 0 where
  pub action : ℕ
  pub transaction_id : ℕ
  pub connection_id : ℕ

unfoldable pub connection_from_bytes : Bytes → ConnectionResponse
connection_from_bytes bytes = record {
  action = u32_at bytes 0;
  transaction_id = u32_at bytes 4;
  connection_id = u64_at bytes 8;
}

-- What a receive gives within the timeout.
pub data Reply : Type 0 where
  timed_out : Reply
  failed : String → Reply
  datagram : Bytes → Reply

-- What the world gives to one round: the transaction id that is drawn, the statistics as they then
-- are, what becomes of a datagram that is sent, and what is received after it.
pub record Round : Type 0 where
  pub transaction_id : ℕ
  pub stats : TorrentStats
  pub send_error : Bytes → Option String
  pub reply : Bytes → Reply

-- The receive buffer has 1024 bytes, and what is longer is cut. The text of the error is left out.
unfoldable pub recv_conn_id_response : Bytes → Result ConnectionResponse TrackerError
recv_conn_id_response bytes =
    let received = take 1024 bytes in
    if not (length received == 16)
    then err (other "Invalid tracker response length")
    else ok (connection_from_bytes received)

unfoldable pub recv_announce_response : Bytes → Result AnnounceResponse TrackerError
recv_announce_response bytes =
    let received = take 1024 bytes in
    if ltb (length received) 20
    then err (other "Invalid tracker response length")
    else announce_from_bytes received

-- The loop of both exchanges, from a round on, for as many tries as are left: `message` is the
-- request of a round, `recv` reads a datagram, and `matches` is the test of its action and
-- its transaction id.
module _ {R : Type 0} (message : Round → Bytes) (recv : Bytes → Result R TrackerError)
    (matches : R → ℕ → Bool) where
  unfoldable pub exchange : ℕ → ℕ → (ℕ → Round) → Result R TrackerError
  exchange zero i rounds = err (other "Max Retries Exceeded")
  exchange (suc tries) i rounds =
      let again = exchange tries (i + 1) rounds in
      let request : Bytes = message (rounds i) in
      elim ((rounds i).send_error request) [
        | some text ↦ err (stream_error text)
        | none ↦ elim ((rounds i).reply request) [
          | timed_out ↦ again
          | failed text ↦ err (stream_error text)
          | datagram bytes ↦ elim (recv bytes) [
            | err e ↦ err e
            | ok response ↦
                if matches response ((rounds i).transaction_id) then ok response else again
          ]
        ]
      ]

abbrev pub is_connection : ConnectionResponse → ℕ → Bool
is_connection r transaction_id = r.action == 0 && r.transaction_id == transaction_id

abbrev pub is_announce : AnnounceResponse → ℕ → Bool
is_announce r transaction_id = r.action == 1 && r.transaction_id == transaction_id

abbrev pub connect_message : Round → Bytes
connect_message round = create_connect_request round.transaction_id

-- Each try reads the statistics again.
abbrev pub announce_message : AnnounceRequest → ℕ → Round → Bytes
announce_message request connection_id round =
    to_bytes request round.stats connection_id round.transaction_id

unfoldable pub get_connection_id : (ℕ → Round) → Result ℕ TrackerError
get_connection_id rounds =
    elim (exchange connect_message recv_conn_id_response is_connection max_retries 0 rounds) [
      | err e ↦ err e
      | ok r ↦ ok r.connection_id
    ]

unfoldable pub announce : AnnounceRequest → ℕ → (ℕ → Round) → Result AnnounceResponse TrackerError
announce request connection_id rounds =
    exchange (announce_message request connection_id) recv_announce_response is_announce max_retries
      0 rounds
