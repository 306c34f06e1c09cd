-- ===== src/Tests/Http.antt =====
-- The theorems about the trackers and the HTTP protocol at concrete inputs.

use motte_seed.Tracker.Http.{announce, decode_response}
use motte_seed.Tracker.Error.{bencode_error}
use motte_seed.Util.Bencode.{BencodeDecodableError}
use motte_seed.Prelude.{
  ℕ, ◌+◌, ◌*◌, ◌%◌, ◌^◌, ◌≡◌, refl, true, ◌||◌, All, List, [], ◌∷◌, ◌++◌, none, some, arith, length,
  replicate, ok, err, Result, leb, ◌&&◌, ◌==◌, take, drop,
}
use motte_seed.Prelude.Int.{pos}
use motte_seed.Prelude.Text.{codes}
use motte_seed.Bytes.{Bytes, has, bytes_eq, u16_at, u32_at}
use motte_seed.Bytes.Distinct.{IsDistinct}
use motte_seed.Stats.{TorrentStats}
use motte_seed.Util.Bencode.{
  find, number, byte_string, dict, get_u64, get_str, get_struct, get_struct_value,
}
use motte_seed.Tracker.Error.{TrackerError}
use motte_seed.Tracker.Http
use motte_seed.Tracker.Http.{
  Web, Fetch, AnnounceRequestHttp, TrackerHttp, AnnounceResponseHttp, url_encode, is_unreserved,
  hex_digit, path_and_query_text, base_path, decode_response, to_peers, get_peers, announce_again,
  announce, build_url, fetch_from,
}
use motte_seed.Tracker.Http.Encoding.{url_decode}
use motte_seed.Tracker.Http.Query.{cut, parse_query, path_and_query_text-parse_query}
use motte_seed.Prelude.{◌⊎◌}
use motte_seed.Tracker.Error.{other}
use motte_seed.Tracker.Http.Answers.{decode_response-ok, get_peers_again}
use motte_seed.Tracker.Udp.{Round, datagram, chunks, AnnounceRequest, to_bytes, u64_at}
use motte_seed.Tracker.Udp.Request.{IsFitting, to_bytes-fields}
use motte_seed.Tracker.Udp.Response.{join}
use motte_seed.Tracker.Udp.Client.{Net, parse_udp_url}
use motte_seed.Tracker.Udp.Url.{IsFirst, parse_udp_url_lem}
use motte_seed.Tracker.Factory.{Moment, determine_type, udp, http_tracker}
use motte_seed.Tracker.Manager.{TrackerManager, poll_all_trackers}
use motte_seed.Tracker.Manager.Pool.{answered, poll_all_trackers-pool}
use motte_seed.Tests.Torrents.{crate, node}

-- The last decimal digit.
abbrev last_digit : ℕ → Bytes
last_digit n = (48 + n % 10) ∷ []

pub is_digit : (n : ℕ) → All (λ b. (leb 48 b && leb b 57) ≡ true) (last_digit n)
is_digit n = (ground arith, tt)

-- A URI is its bytes, and its path is `/`.
abbrev pub web : Web
web = record {
  Uri = Bytes;
  Parts = Bytes;
  PathAndQuery = Bytes;
  from_utf8 = λ bytes. ok bytes;
  parse = λ text. ok text;
  into_parts = λ uri. uri;
  path_and_query = λ parts. none;
  set_path_and_query = λ parts p. parts;
  path = λ p. 47 ∷ [];
  query = λ p. none;
  path_and_query_from = λ text. ok text;
  from_parts = λ parts. ok parts;
  host = λ uri. some uri;
  port_u16 = λ uri. none;
  authority = λ uri. uri;
  format = last_digit;
  path_lem = λ p. (refl, tt);
  format_lem = is_digit;
}

abbrev pub net : Net
net = record {
  SocketAddr = ℕ;
  is_ipv4 = λ a. a == 4;
  from_utf8 = λ bytes. ok bytes;
  lookup_host = λ host. ok (6 ∷ 4 ∷ []);
  bind = none;
}

abbrev pub fetched : Fetch web crate
fetched host port uri authority = ok (1 ∷ [])

abbrev lost : Fetch web crate
lost host port uri authority = err (other "lost")

abbrev stats : TorrentStats
stats = record { downloaded = 1; uploaded = 2; left = 3 }

abbrev never : ℕ → ℕ → Round
never addr i = record {
  transaction_id = i;
  stats = stats;
  send_error = λ m. none;
  reply = λ m. datagram [];
}

abbrev pub moment : Moment web crate net
moment = record {
  fetch = fetched;
  connects = never;
  announces = never;
  key = 1;
  now = 0;
  later = 20;
}

abbrev request : AnnounceRequestHttp
request = record {
  tracker = codes "http://t";
  url_info_hash = codes "%00%FF";
  url_peer_id = codes "-M";
  port = 6881;
  compact = true;
}

makes_request :
    Http.new_request web (codes "http://t") (0 ∷ 255 ∷ []) (45 ∷ 77 ∷ []) 6881 true ≡ ok request
unfolding Http.new_request url_encode is_unreserved hex_digit
makes_request = refl

path_and_query_text-parse_query_example :
    (hash id query : Bytes) × (cut 63 (path_and_query_text web (base_path web none) request stats)
      ≡ (base_path web none, some query))
    × (parse_query query
        ≡ (codes "info_hash", some hash)
          ∷ (codes "peer_id", some id)
          ∷ (codes "port", some (last_digit 6881))
          ∷ (codes "uploaded", some (last_digit 2))
          ∷ (codes "downloaded", some (last_digit 1))
          ∷ (codes "left", some (last_digit 3))
          ∷ (codes "compact", some (49 ∷ []))
          ∷ [])
    × (url_decode 3 hash ≡ some (0 ∷ 255 ∷ []))
    × (url_decode 3 id ≡ some (45 ∷ 77 ∷ []))
path_and_query_text-parse_query_example =
    path_and_query_text-parse_query web (codes "http://t") (0 ∷ 255 ∷ []) (45 ∷ 77 ∷ []) 6881 true
      stats request none (omega arith, (omega arith, tt)) (omega arith, (omega arith, tt))
      makes_request

abbrev answer : AnnounceResponseHttp
answer = record {
  interval = 16;
  peers = (10 ∷ 0 ∷ 0 ∷ 1 ∷ 4 ∷ 5 ∷ []) ∷ (10 ∷ 0 ∷ 0 ∷ 2 ∷ 4 ∷ 5 ∷ []) ∷ [];
}

decodes_response : decode_response web crate 6 ≡ ok answer
unfolding decode_response get_struct get_struct_value find bytes_eq get_u64 get_str to_peers chunks
decodes_response = refl

decode_response-ok_example :
    (m : List (Bytes × ℕ)) × (interval peers : ℕ) × (node 6 ≡ dict m)
    × (find m (codes "interval") ≡ some interval)
    × (node interval ≡ number (pos 16))
    × (find m (codes "peers") ≡ some peers)
    × (node peers ≡ byte_string (join answer.peers))
    × All (λ p. length p ≡ 6) answer.peers
decode_response-ok_example = decode_response-ok web crate 6 answer decodes_response

abbrev tracker : TrackerHttp
tracker = record { request = request; last_announce = 0; response = answer }

-- Twenty seconds later.
abbrev asked : TrackerHttp
asked = record { request = request; last_announce = 21 * 10 ^ 9; response = answer }

asks :
    get_peers web crate fetched tracker stats (20 * 10 ^ 9) (21 * 10 ^ 9) ≡ (asked, ok answer.peers)
unfolding get_peers announce_again announce build_url fetch_from decode_response get_struct
    get_struct_value find bytes_eq get_u64 get_str to_peers chunks
asks = refl

abbrev Peers : Type 0
Peers = Result (List Bytes) TrackerError

get_peers_again_example :
    ((e : TrackerError) × (announce web crate fetched request stats ≡ err e)
      × (◌≡◌ {A = Peers} (ok answer.peers) (err e))
      × (asked ≡ tracker))
    ⊎ ((value : ℕ) × (announce web crate fetched request stats ≡ ok value)
        × (request ≡ request)
        × (get_peers web crate lost asked stats (30 * 10 ^ 9) (31 * 10 ^ 9)
            ≡ (asked, ok answer.peers))
        × (((decode_response web crate value ≡ ok answer)
              × (◌≡◌ {A = Peers} (ok answer.peers) (ok answer.peers)))
            ⊎ ((e : BencodeDecodableError) × (decode_response web crate value ≡ err e)
                × (◌≡◌ {A = Peers} (ok answer.peers) (err (bencode_error e)))
                × (answer ≡ answer))))
get_peers_again_example =
    get_peers_again web crate fetched lost tracker asked stats stats (20 * 10 ^ 9) (21 * 10 ^ 9)
      (30 * 10 ^ 9) (31 * 10 ^ 9) (ok answer.peers) (omega arith) asks (omega arith)

abbrev trackers : TrackerManager ℕ
trackers = record {
  trackers = http_tracker tracker ∷ [];
  stats = stats;
  peer_pool = [];
  info_hash = [];
  peer_id = [];
  port = 6881;
}

poll_all_trackers-pool_example :
    ((peer : Bytes)
      → has (poll_all_trackers web crate net (λ i. moment) trackers).peer_pool peer ≡ (
          has (answered web crate net (λ i. moment) 0 trackers.trackers stats) peer || has [] peer))
    × (IsDistinct []
        → IsDistinct (poll_all_trackers web crate net (λ i. moment) trackers).peer_pool)
poll_all_trackers-pool_example = poll_all_trackers-pool web crate net (λ i. moment) trackers

parse_udp_url_lem_example :
    (determine_type (codes "udp://" ++ (codes "t:80" ++ codes "/announce")) ≡ udp)
    × ((addr : ℕ)
        → parse_udp_url net (codes "udp://" ++ (codes "t:80" ++ codes "/announce")) ≡ ok addr
        → (addrs : List ℕ) × (net.lookup_host (codes "t:80") ≡ ok addrs) × IsFirst net addr addrs)
    × ((addrs : List ℕ) (addr : ℕ)
        → net.lookup_host (codes "t:80") ≡ ok addrs
        → IsFirst net addr addrs
        → parse_udp_url net (codes "udp://" ++ (codes "t:80" ++ codes "/announce")) ≡ ok addr)
parse_udp_url_lem_example =
    parse_udp_url_lem net (codes "t:80") (codes "/announce") (refl, (refl, (refl, (refl, tt)))) refl

abbrev udp_request : AnnounceRequest
udp_request = record {
  info_hash = replicate 20 7;
  peer_id = replicate 20 8;
  event = 0;
  ip_address = 0;
  key = 9;
  num_want = 50;
  port = 6881;
}

fits : IsFitting udp_request stats
fits = record {
  info_hash = refl;
  peer_id = refl;
  downloaded = omega arith;
  left = omega arith;
  uploaded = omega arith;
  event = omega arith;
  ip_address = omega arith;
  key = omega arith;
  num_want = omega arith;
  port = omega arith;
}

to_bytes-fields_example :
    (length (to_bytes udp_request stats 5 6) ≡ 98)
    × (u64_at (to_bytes udp_request stats 5 6) 0 ≡ 5)
    × (u32_at (to_bytes udp_request stats 5 6) 8 ≡ 1)
    × (u32_at (to_bytes udp_request stats 5 6) 12 ≡ 6)
    × (take 20 (drop 16 (to_bytes udp_request stats 5 6)) ≡ replicate 20 7)
    × (take 20 (drop 36 (to_bytes udp_request stats 5 6)) ≡ replicate 20 8)
    × (u64_at (drop 56 (to_bytes udp_request stats 5 6)) 0 ≡ 1)
    × (u64_at (drop 64 (to_bytes udp_request stats 5 6)) 0 ≡ 3)
    × (u64_at (drop 72 (to_bytes udp_request stats 5 6)) 0 ≡ 2)
    × (u32_at (drop 80 (to_bytes udp_request stats 5 6)) 0 ≡ 0)
    × (u32_at (drop 84 (to_bytes udp_request stats 5 6)) 0 ≡ 0)
    × (u32_at (drop 88 (to_bytes udp_request stats 5 6)) 0 ≡ 9)
    × (u32_at (drop 92 (to_bytes udp_request stats 5 6)) 0 ≡ 50)
    × (u16_at (drop 96 (to_bytes udp_request stats 5 6)) 0 ≡ 6881)
to_bytes-fields_example = to_bytes-fields udp_request stats 5 6 fits (omega arith) (omega arith)
