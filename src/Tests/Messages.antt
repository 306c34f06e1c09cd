-- ===== src/Tests/Messages.antt =====
-- The theorems about messages, frames and handshakes at concrete inputs.
use motte_seed.Prelude.{
  All, none, false, true, ℕ, ◌≡◌, refl, [], ◌∷◌, ◌++◌, ok, some, arith, length, replicate,
}
use motte_seed.Bytes.{IsU8, Bytes, list_buf}
use motte_seed.Peer.Message.{Message, serialize, deserialize}
use motte_seed.Peer.Message.Encoding.{IsValid}
use motte_seed.Peer.Message.RoundTrip.{deserialize-serialize}
use motte_seed.Peer.Message.Canonical.{serialize-deserialize}
use motte_seed.Peer.Connection.{ManagerCommand, PeerConnection, read_message, to_message}
use motte_seed.Prelude.{◌≢◌}
use motte_seed.Peer.Connection.Misread.{read_message-serialize}
use motte_seed.Peer.State.{PeerState}
use motte_seed.Prelude.{◌↔◌}
use motte_seed.Peer.Handshake.{protocol, request, response, response-request, response-ok}

deserialize-serialize_example :
    (deserialize list_buf (serialize list_buf (Message.piece 7 9 (1 ∷ 2 ∷ [])))).0
    ≡ ok (Message.piece 7 9 (1 ∷ 2 ∷ []))
deserialize-serialize_example =
    deserialize-serialize list_buf (Message.piece 7 9 (1 ∷ 2 ∷ []))
      (omega arith, omega arith, omega arith)

abbrev have_seven : Bytes
have_seven = 0 ∷ 0 ∷ 0 ∷ 5 ∷ 4 ∷ 0 ∷ 0 ∷ 0 ∷ 7 ∷ []

have_seven_bytes : All IsU8 have_seven
have_seven_bytes = (
  omega arith,
  (
    omega arith,
    (
      omega arith,
      (omega arith, (omega arith, (omega arith, (omega arith, (omega arith, (omega arith, tt)))))),
    ),
  ),
)

read_have_seven : (deserialize list_buf have_seven).0 ≡ ok (Message.have 7)
unfolding deserialize
read_have_seven = refl

serialize-deserialize_example :
    IsValid (Message.have 7) × (serialize list_buf (Message.have 7) ≡ have_seven)
serialize-deserialize_example =
    serialize-deserialize list_buf have_seven (Message.have 7) have_seven_bytes (omega arith)
      (omega arith) read_have_seven

read_message-serialize_example :
    (read_message list_buf (serialize list_buf (Message.have 7) ++ (1 ∷ []))).0
    ≢ ok (Message.have 7)
read_message-serialize_example =
    read_message-serialize list_buf (Message.have 7) (1 ∷ []) (omega arith)

abbrev peer_state : PeerState ℕ
peer_state = record {
  am_choking = true;
  am_interested = false;
  peer_choking = true;
  peer_interested = false;
  bitfield = none;
  requested_blocks = [];
  downloaded = 0;
  uploaded = 0;
  download_rate = 0;
  upload_rate = 0;
  last_download_calc = 0;
  last_upload_calc = 0;
  prev_downloaded = 0;
  prev_uploaded = 0;
}

abbrev connection : PeerConnection ℕ
connection = record { state = peer_state; buf = 5 ∷ []; written = []; events = [] }

interested_message : to_message ManagerCommand.interested ≡ some Message.interested
unfolding to_message
interested_message = refl

abbrev an_id : Bytes
an_id = replicate 20 7

abbrev a_hash : Bytes
a_hash = replicate 20 9

response-request_example : response (request an_id a_hash) a_hash ≡ ok an_id
response-request_example = response-request an_id a_hash (omega arith) (omega arith)

sixty_eight : length (request an_id a_hash) ≡ 68
unfolding request
sixty_eight = refl

response-ok_example : (response (request an_id a_hash) a_hash ≡ ok an_id) ↔ (
    (reserved : Bytes) × (length reserved ≡ 8)
    × (request an_id a_hash ≡ 19 ∷ protocol ++ (reserved ++ (a_hash ++ an_id))))
response-ok_example = response-ok (request an_id a_hash) a_hash an_id sixty_eight (omega arith)
