-- ===== src/Tracker/Http.antt =====
-- src/core/tracker/tracker_http.rs: the HTTP tracker protocol.
-- A string is its bytes. The crate `http` and the connection are parameters: `Web` has what the code
-- calls of them, with their documented behaviour. The statistics that the trackers share are an
-- argument where they are read, and so is the clock, in nanoseconds.
pub mod Answers
pub mod Encoding
pub mod Query
use Prim.Native.String.{String}
use motte_seed.Prelude.{
  ℕ, ◌+◌, ◌-◌, ◌/◌, ◌%◌, ◌^◌, Bool, true, false, Option, none, some, List, [], ◌∷◌, ◌++◌, not, ◌&&◌,
  ◌||◌, Result, ok, err, ◌>>=◌, map_err, ltb, leb, ◌==◌, if◌then◌else◌, length, All, ◌≡◌,
}
use motte_seed.Prelude.Text.{codes}
use motte_seed.Bytes.{Bytes}
use motte_seed.Stats.{TorrentStats}
use motte_seed.Util.Bencode.{Crate, Decoded, get_u64, get_str, get_struct, get_struct_value}
use motte_seed.Util.Bencode
use motte_seed.Tracker.Error.{
  TrackerError, invalid_uri, utf8_error, invalid_uri_parts, bencode_error, streaming_error, other,
}
use motte_seed.Tracker.Udp.{chunks}

-- `is_ascii_alphanumeric`
abbrev pub is_ascii_alphanumeric : ℕ → Bool
is_ascii_alphanumeric b =
    (leb 48 b && leb b 57) || ((leb 65 b && leb b 90) || (leb 97 b && leb b 122))

-- The bytes that `url_encode` leaves: letters, digits, `-`, `_`, `.` and `~`.
unfoldable pub is_unreserved : ℕ → Bool
is_unreserved b = is_ascii_alphanumeric b || ((b == 45) || ((b == 95) || ((b == 46) || (b == 126))))

-- `char::from_digit` to the base 16, then `to_ascii_uppercase`; a nibble always is a digit.
unfoldable pub hex_digit : ℕ → ℕ
hex_digit digit =
    let lower = if ltb digit 10 then 48 + digit else 97 + (digit - 10) in
    if leb 97 lower && leb lower 122 then lower - 32 else lower

unfoldable pub url_encode : Bytes → Bytes
url_encode [] = []
url_encode (b ∷ bytes) =
    let rest = url_encode bytes in
    if is_unreserved b then b ∷ rest else 37 ∷ hex_digit (b / 16) ∷ hex_digit (b % 16) ∷ rest

-- What the code uses of `http`, `itoa`, `hyper` and the runtime.
pub record Web : Type 1 where
  pub Uri : Type 0
  pub Parts : Type 0
  pub PathAndQuery : Type 0
  pub from_utf8 : Bytes → Result Bytes String
  pub parse : Bytes → Result Uri String
  pub into_parts : Uri → Parts
  pub path_and_query : Parts → Option PathAndQuery
  pub set_path_and_query : Parts → PathAndQuery → Parts
  pub path : PathAndQuery → Bytes
  pub query : PathAndQuery → Option Bytes
  pub path_and_query_from : Bytes → Result PathAndQuery String
  pub from_parts : Parts → Result Uri String
  pub host : Uri → Option Bytes
  pub port_u16 : Uri → Option ℕ
  -- A URI that has a host has an authority.
  pub authority : Uri → Bytes
  -- The decimal digits of a number.
  pub format : ℕ → Bytes
  -- A path ends where the query starts.
  pub path_lem : (p : PathAndQuery) → All (λ b. (b == 63) ≡ false) (path p)
  pub format_lem : (n : ℕ) → All (λ b. (leb 48 b && leb b 57) ≡ true) (format n)

pub record AnnounceRequestHttp : Type 0 where
  pub tracker : Bytes
  pub url_info_hash : Bytes
  pub url_peer_id : Bytes
  pub port : ℕ
  pub compact : Bool

pub record AnnounceResponseHttp : Type 0 where
  pub interval : ℕ
  pub peers : List Bytes

pub record TrackerHttp : Type 0 where
  pub request : AnnounceRequestHttp
  pub last_announce : ℕ
  pub response : AnnounceResponseHttp

-- `contains` of a character.
unfoldable pub contains : Bytes → ℕ → Bool
contains [] c = false
contains (b ∷ bytes) c = b == c || contains bytes c

-- The parameters, from `info_hash=` on.
unfoldable pub query_string : (ℕ → Bytes) → AnnounceRequestHttp → TorrentStats → Bytes
query_string format r stats =
    codes "info_hash="
    ++ (r.url_info_hash
        ++ (codes "&peer_id="
            ++ (r.url_peer_id
                ++ (codes "&port="
                    ++ (format r.port
                        ++ (codes "&uploaded="
                            ++ (format stats.uploaded
                                ++ (codes "&downloaded="
                                    ++ (format stats.downloaded
                                        ++ (codes "&left="
                                            ++ (format stats.left
                                                ++ (codes "&compact="
                                                    ++ (if r.compact
                                                        then 49 ∷ []
                                                        else 48 ∷ [])))))))))))))

-- The response, if the peers fill whole chunks of six bytes. The text of the error is left out.
unfoldable pub to_peers : ℕ → Bytes → Decoded AnnounceResponseHttp
to_peers interval peers_bytes =
    if not (length peers_bytes % 6 == 0)
    then err (Bencode.other "Peer data length is not a multiple of 6.")
    else ok (record { interval = interval; peers = chunks (length peers_bytes / 6) peers_bytes })

module _ (web : Web) where
  open web use {
    Uri, PathAndQuery, from_utf8, parse, into_parts, path_and_query, set_path_and_query, path,
    path_and_query_from, from_parts, host, port_u16, authority, format,
  }

  unfoldable pub new_request :
      Bytes → Bytes → Bytes → ℕ → Bool → Result AnnounceRequestHttp TrackerError
  new_request tracker info_hash peer_id port compact = do
    text ← map_err utf8_error (from_utf8 tracker)
    ok (record {
      tracker = text;
      url_info_hash = url_encode info_hash;
      url_peer_id = url_encode peer_id;
      port = port;
      compact = compact;
    })

  -- The path that the parts of a URI have, or `/`.
  unfoldable pub base_path : Option PathAndQuery → Bytes
  base_path none = codes "/"
  base_path (some p) = path p

  -- The text that becomes the path and the query.
  unfoldable pub path_and_query_text : Bytes → AnnounceRequestHttp → TorrentStats → Bytes
  path_and_query_text p r stats =
      p ++ ((if contains p 63 then 38 ∷ [] else 63 ∷ []) ++ query_string format r stats)

  unfoldable pub build_url : AnnounceRequestHttp → TorrentStats → Result Uri TrackerError
  build_url r stats = do
    uri ← map_err invalid_uri (parse r.tracker)
    p ← map_err invalid_uri (
        path_and_query_from
          (path_and_query_text (base_path (path_and_query (into_parts uri))) r stats))
    map_err invalid_uri_parts (from_parts (set_path_and_query (into_parts uri) p))

  module _ (crate : Crate) where
    open crate use {Bencode, from_buffer}

    unfoldable pub decode_response : Bencode → Decoded AnnounceResponseHttp
    decode_response b = do
      dict ← get_struct crate b
      interval_value ← get_struct_value "interval" dict
      interval ← get_u64 crate interval_value
      peers_value ← get_struct_value "peers" dict
      peers_bytes ← get_str crate peers_value
      to_peers interval peers_bytes

    -- `fetch` is the network in one call: a connection to a host and a port, and the body of the answer
    -- to a request for a URI with a host header.
    abbrev pub Fetch : Type 0
    Fetch = Bytes → ℕ → Uri → Bytes → Result Bytes TrackerError

    unfoldable pub fetch_from : Fetch → Uri → Result Bytes TrackerError
    fetch_from fetch url = elim (host url) [
      | none ↦ err (other "Missing host in tracker URL")
      | some h ↦ elim (port_u16 url) [
        | some p ↦ fetch h p url (authority url)
        | none ↦ fetch h 6969 url (authority url)
      ]
    ]

    unfoldable pub announce :
        Fetch → AnnounceRequestHttp → TorrentStats → Result Bencode TrackerError
    announce fetch r stats = do
      url ← build_url r stats
      body ← fetch_from fetch url
      map_err streaming_error (from_buffer body)

    unfoldable pub new :
        Fetch → Bytes → Bytes → Bytes → TorrentStats → ℕ → ℕ → Result TrackerHttp TrackerError
    new fetch tracker info_hash peer_id stats port now = do
      request ← new_request tracker info_hash peer_id port true
      answer ← announce fetch request stats
      response ← map_err bencode_error (decode_response answer)
      ok (record { request = request; last_announce = now; response = response })

    -- A method returns the tracker after it with its result; `later` is the clock after the answer.
    unfoldable pub announce_again :
        Fetch → TrackerHttp → TorrentStats → ℕ → TrackerHttp × Result Bencode TrackerError
    announce_again fetch t stats later = elim (announce fetch t.request stats) [
      | err e ↦ (t, err e)
      | ok answer ↦ (record t { last_announce = later }, ok answer)
    ]

    unfoldable pub get_peers :
        Fetch → TrackerHttp → TorrentStats → ℕ → ℕ → TrackerHttp × Result (List Bytes) TrackerError
    get_peers fetch t stats now later =
        let (announced, result) = announce_again fetch t stats later in
        if ltb (t.response).interval ((now - t.last_announce) / 10 ^ 9)
        then elim result [
          | err e ↦ (announced, err e)
          | ok answer ↦ elim (decode_response answer) [
            | err e ↦ (announced, err (bencode_error e))
            | ok response ↦ (record announced { response = response }, ok response.peers)
          ]
        ]
        else (t, ok (t.response).peers)
