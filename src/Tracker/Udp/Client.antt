-- ===== src/Tracker/Udp/Client.antt =====
-- src/core/tracker/tracker_udp.rs: a UDP tracker, from its URL to its peers. The lookup of a host, the
-- reading of UTF-8 and the socket are the runtime's: `Net` has what the code calls of them. The
-- statistics that the trackers share are read in each try, so that they are in its `Round`.
use Prim.Native.String.{String}
use motte_seed.Prelude.{
  ℕ, ◌-◌, ◌/◌, ◌^◌, Bool, Option, none, some, List, [], ◌∷◌, Result, ok, err, ◌>>=◌, map_err, ltb,
  leb, ◌==◌, if◌then◌else◌,
}
use motte_seed.Prelude.Text.{codes}
use motte_seed.Bytes.{Bytes, strip_prefix}
use motte_seed.Tracker.Error.{TrackerError, stream_error, utf8_error, other}
use motte_seed.Tracker.Udp.{
  AnnounceRequest, AnnounceResponse, Round, new_request, get_connection_id, announce,
  connection_expiry,
}

pub record Net : Type 1 where
  pub SocketAddr : Type 0
  pub is_ipv4 : SocketAddr → Bool
  pub from_utf8 : Bytes → Result Bytes String
  pub lookup_host : Bytes → Result (List SocketAddr) String
  -- The error of binding a socket.
  pub bind : Option String

pub record TrackerUdp (SocketAddr : Type 0) : Type 0 where
  pub server_addr : SocketAddr
  pub connection_id : ℕ
  pub connection_time : ℕ
  pub announce_request : AnnounceRequest
  pub last_announce : ℕ
  pub announce_response : AnnounceResponse

-- The text up to the first `/`.
unfoldable pub before_slash : Bytes → Bytes
before_slash [] = []
before_slash (b ∷ text) = let rest = before_slash text in if b == 47 then [] else b ∷ rest

module _ (net : Net) where
  open net use {SocketAddr, is_ipv4, from_utf8, lookup_host, bind}

  unfoldable pub first_ipv4 : List SocketAddr → Result SocketAddr TrackerError
  first_ipv4 [] = err (other "No IPv4 address found for tracker")
  first_ipv4 (addr ∷ addrs) = let rest = first_ipv4 addrs in if is_ipv4 addr then ok addr else rest

  -- The text of the error of the lookup is left out.
  unfoldable pub parse_udp_url : Bytes → Result SocketAddr TrackerError
  parse_udp_url url = elim (strip_prefix (codes "udp://") url) [
    | none ↦ err (other "Invalid UDP URL format")
    | some host_port ↦ elim (lookup_host (before_slash host_port)) [
      | err _ ↦ err (other "DNS resolve error")
      | ok addrs ↦ first_ipv4 addrs
    ]
  ]

  unfoldable pub bind_socket : Result (Unit {0}) TrackerError
  bind_socket = elim bind [ some text ↦ err (stream_error text) | none ↦ ok tt ]

  -- `connects` and `announces` are the rounds of the two exchanges with an address, `key` is drawn by
  -- the generator, and the clock is read after both exchanges.
  unfoldable pub new :
      Bytes
      → Bytes
      → Bytes
      → ℕ
      → ℕ
      → (SocketAddr → ℕ → Round)
      → (SocketAddr → ℕ → Round)
      → ℕ
      → Result (TrackerUdp SocketAddr) TrackerError
  new announce_url info_hash peer_id port key connects announces now = do
    text ← map_err utf8_error (from_utf8 announce_url)
    addr ← parse_udp_url text
    _ ← bind_socket
    id ← get_connection_id (connects addr)
    response ← announce (new_request info_hash peer_id port key) id (announces addr)
    ok (record {
      server_addr = addr;
      connection_id = id;
      connection_time = now;
      announce_request = new_request info_hash peer_id port key;
      last_announce = now;
      announce_response = response;
    })

-- A method returns the tracker after it with its result.
module _ {A : Type 0} where
  unfoldable pub refresh_connection :
      TrackerUdp A → (A → ℕ → Round) → TrackerUdp A × Option TrackerError
  refresh_connection t connects = elim (get_connection_id (connects t.server_addr)) [
    | err e ↦ (t, some e)
    | ok id ↦ (record t { connection_id = id }, none)
  ]

  unfoldable pub current_connection :
      TrackerUdp A → (A → ℕ → Round) → ℕ → TrackerUdp A × Option TrackerError
  current_connection t connects now =
      if leb connection_expiry (now - t.connection_time)
      then refresh_connection t connects
      else (t, none)

  -- `now` is the clock at the test of the connection, and `later` after the exchange.
  unfoldable pub announce_again :
      TrackerUdp A
      → (A → ℕ → Round)
      → (A → ℕ → Round)
      → ℕ
      → ℕ
      → TrackerUdp A × Result AnnounceResponse TrackerError
  announce_again t connects announces now later =
      let (connected, error) = current_connection t connects now in
      elim error [
        | some e ↦ (connected, err e)
        | none ↦
            elim (announce t.announce_request connected.connection_id (announces t.server_addr)) [
              | err e ↦ (connected, err e)
              | ok response ↦ (record connected { last_announce = later }, ok response)
            ]
      ]

  -- The elapsed time counts in whole seconds.
  unfoldable pub get_peers :
      TrackerUdp A
      → (A → ℕ → Round)
      → (A → ℕ → Round)
      → ℕ
      → ℕ
      → TrackerUdp A × Result (List Bytes) TrackerError
  get_peers t connects announces now later =
      let (announced, result) = announce_again t connects announces now later in
      if ltb (t.announce_response).interval ((now - t.last_announce) / 10 ^ 9)
      then elim result [
        | err e ↦ (announced, err e)
        | ok response ↦ (record announced { announce_response = response }, ok response.peers)
      ]
      else (t, ok (t.announce_response).peers)
