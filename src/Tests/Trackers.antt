-- ===== src/Tests/Trackers.antt =====
-- The theorems about trackers and statistics at concrete inputs.
use motte_seed.Prelude.{
  ◌*◌, ℕ, zero, suc, ◌≡◌, ◌≤◌, ◌<◌, refl, All, [], ◌∷◌, ok, none, arith, length, drop, ◌^◌,
}
use motte_seed.Bytes.{Bytes}
use motte_seed.Stats.{TorrentStats}
use motte_seed.Tracker.Udp.Interval.{IsConnected, IsRefused, get_peers_next}
use motte_seed.Tracker.Udp.{
  AnnounceRequest, new_request, to_bytes, AnnounceResponse, Round, timed_out, datagram, announce,
  exchange, recv_announce_response, announce_from_bytes, chunks,
}
use motte_seed.Tracker.Udp.Client.{TrackerUdp, get_peers, announce_again, current_connection}
use motte_seed.Tracker.Error.{TrackerError}
use motte_seed.Bytes.{u32_at}
use motte_seed.Prelude.{take, List, Result, err, ◌⊎◌}
use motte_seed.Tracker.Udp.{announce_message}
use motte_seed.Tracker.Udp.Response.{join, announce_from_bytes-ok}
use motte_seed.Tracker.Udp.Retry.{IsLost, announce-Answers, announce_lost}

abbrev answer : Bytes
answer =
    0 ∷ 0 ∷ 0 ∷ 1 ∷ 0 ∷ 0 ∷ 0 ∷ 7 ∷ 0 ∷ 0 ∷ 0 ∷ 9 ∷ 0 ∷ 0 ∷ 0 ∷ 2 ∷ 0 ∷ 0 ∷ 0 ∷ 3 ∷ 10 ∷ 0 ∷ 0 ∷ 1
    ∷ 4 ∷ 5 ∷ []

abbrev response : AnnounceResponse
response = record {
  action = 1;
  transaction_id = 7;
  interval = 9;
  leechers = 2;
  seeders = 3;
  peers = (10 ∷ 0 ∷ 0 ∷ 1 ∷ 4 ∷ 5 ∷ []) ∷ [];
}

abbrev some_stats : TorrentStats
some_stats = record { downloaded = 0; uploaded = 0; left = 5 }

-- The first answer is lost.
abbrev rounds : ℕ → Round
rounds zero = record {
  transaction_id = 4;
  stats = some_stats;
  send_error = λ m. none;
  reply = λ m. timed_out;
}
rounds (suc i) = record {
  transaction_id = 7;
  stats = some_stats;
  send_error = λ m. none;
  reply = λ m. datagram answer;
}

decodes_answer : announce_from_bytes answer ≡ ok response
unfolding announce_from_bytes chunks
decodes_answer = refl

receives_answer : recv_announce_response answer ≡ ok response
unfolding recv_announce_response announce_from_bytes chunks
receives_answer = refl

announce_from_bytes-ok_example :
    (20 ≤ length answer)
    × (join response.peers ≡ drop 20 answer)
    × All (λ p. length p ≡ 6) response.peers
announce_from_bytes-ok_example = announce_from_bytes-ok answer response decodes_answer

abbrev a_request : AnnounceRequest
a_request = new_request [] [] 6881 1

IsLost-first : (j : ℕ) → j < 1 → IsLost (announce_message a_request 5) (rounds j)
IsLost-first zero h = (refl, refl)
IsLost-first (suc j) h = absurd (omega arith)

announce_lost_example : announce a_request 5 rounds ≡ ok response
announce_lost_example =
    announce_lost a_request 5 1 rounds response (omega arith) IsLost-first
      (answer, refl, refl, receives_answer, refl)

announces : announce a_request 5 rounds ≡ ok response
unfolding announce exchange recv_announce_response announce_from_bytes chunks
announces = refl

announce-Answers_example :
    (j : ℕ) × (bytes : Bytes) × (j < 3)
    × ((rounds j).reply (to_bytes a_request (rounds j).stats 5 (rounds j).transaction_id)
        ≡ datagram bytes)
    × (announce_from_bytes (take 1024 bytes) ≡ ok response)
    × (u32_at bytes 0 ≡ 1)
    × (u32_at bytes 4 ≡ (rounds j).transaction_id)
announce-Answers_example = announce-Answers a_request 5 rounds response announces

abbrev tracker : TrackerUdp (Unit {0})
tracker = record {
  server_addr = tt;
  connection_id = 5;
  connection_time = 0;
  announce_request = a_request;
  last_announce = 0;
  announce_response = response;
}

abbrev network : Unit {0} → ℕ → Round
network a = rounds

-- No answer comes.
abbrev silent : Unit {0} → ℕ → Round
silent a i = record {
  transaction_id = i;
  stats = some_stats;
  send_error = λ m. none;
  reply = λ m. timed_out;
}

-- Ten seconds after the last answer, when nine was the interval.
abbrev after : TrackerUdp (Unit {0})
after = record tracker { last_announce = 11 * 10 ^ 9 }

asks : get_peers tracker network network (10 * 10 ^ 9) (11 * 10 ^ 9) ≡ (after, ok response.peers)
unfolding get_peers announce_again current_connection announce exchange recv_announce_response
    announce_from_bytes chunks
asks = refl

get_peers_next_example :
    (after.connection_time ≡ tracker.connection_time)
    × (((peers : List Bytes) × (◌≡◌ {A = Result (List Bytes) TrackerError}
            (ok response.peers)
            (ok peers))
          × (get_peers after silent silent (20 * 10 ^ 9) (21 * 10 ^ 9) ≡ (after, ok peers))
          × IsConnected tracker network (10 * 10 ^ 9) after
          × (announce tracker.announce_request after.connection_id (network tracker.server_addr)
              ≡ ok after.announce_response)
          × (peers ≡ (after.announce_response).peers))
        ⊎ ((e : TrackerError) × (◌≡◌ {A = Result (List Bytes) TrackerError}
              (ok response.peers)
              (err e))
            × (after.last_announce ≡ tracker.last_announce)
            × (after.announce_response ≡ tracker.announce_response)
            × (IsRefused tracker network (10 * 10 ^ 9) e
                ⊎ (IsConnected tracker network (10 * 10 ^ 9) after
                    × (announce tracker.announce_request after.connection_id
                          (network tracker.server_addr)
                        ≡ err e)))))
get_peers_next_example =
    get_peers_next tracker after network network silent silent (10 * 10 ^ 9) (11 * 10 ^ 9)
      (20 * 10 ^ 9) (21 * 10 ^ 9) (ok response.peers) (omega arith) asks (omega arith)
