-- ===== src/Peer/Connection/Frames.antt =====
-- What a connection reads from the frames that `Message::serialize` makes, and what it writes for
-- commands.
use motte_seed.Prelude.{
  ℕ, ◌/◌, ◌%◌, ◌^◌, ◌≡◌, ◌<◌, refl, ap, ◌∙◌, ◌++◌, ◌∷◌, ltb, false, length-append, take-append_left,
  Result-cases, inl, inr, map_err, some, err, arith, length,
}
use motte_seed.Bytes.{Bytes, BufMut, IsU32, from_be32}
use motte_seed.Peer.Message.{Message, message_too_short, deserialize, serialize}
use motte_seed.Peer.Message.Encoding.{IsValid, payload, encoding, serialize_into_lem, serialize_lem}
use motte_seed.Peer.Message.Framing.{deserialize_short}
use motte_seed.Peer.Connection.{
  false, PeerConnection, ManagerCommand, message, to_message, read_message, handle_manager_command,
}

from_be32_lem :
    (n : ℕ)
    → IsU32 n
    → from_be32 (n / 2 ^ 24 % 256) (n / 2 ^ 16 % 256) (n / 2 ^ 8 % 256) (n % 256) ≡ n
from_be32_lem n h = omega arith

module _ (lib : BufMut) where
  read_frame :
      (a b c d : ℕ) (p rest : Bytes)
      → from_be32 a b c d ≡ length p
      → (read_message lib (a ∷ b ∷ c ∷ d ∷ (p ++ rest))).0 ≡ map_err message ((deserialize lib p).0)
  unfolding read_message
  read_frame a b c d p rest size =
      let long : ltb (length (a ∷ b ∷ c ∷ d ∷ (p ++ rest))) 4 ≡ false = ground arith in
      let enough : ltb (length (p ++ rest)) (length p) ≡ false =
        ground (arith, length-append p rest) in
      elim (Result-cases ((deserialize lib p).0)) [
        | inl (m, e) ↦ rw (size, long, enough, take-append_left p rest, e) refl
        | inr (m, e) ↦ rw (size, long, enough, take-append_left p rest, e) refl
      ]

  -- The length prefix is taken off before the message is decoded.
  pub read_message-encoding :
      (m : Message) (rest : Bytes)
      → length (payload m) < 2 ^ 32
      → (read_message lib (encoding m ++ rest)).0
        ≡ map_err message ((deserialize lib (payload m)).0)
  read_message-encoding m rest h =
      read_frame _ _ _ _ (payload m) rest (from_be32_lem (length (payload m)) h)

  pub too_short :
      (bytes : Bytes) → length bytes < 4 → (deserialize lib bytes).0 ≡ err message_too_short
  too_short bytes h = elim (deserialize_short lib bytes (omega arith)) [
    | inl e ↦ e
    | inr (n, _, _) ↦ absurd (omega arith)
  ]

  -- A frame with fewer than four bytes behind its length prefix, as `serialize` writes it for a
  -- keep-alive and for the four messages without a payload, is never read as its message: reading it
  -- ends the connection with the error for a short message.
  read_message-serialize_short :
      (m : Message) (rest : Bytes)
      → IsValid m
      → length (payload m) < 4
      → (read_message lib (serialize lib m ++ rest)).0 ≡ err (message message_too_short)
  read_message-serialize_short m rest v h =
      rw (serialize_lem lib m v) (
        read_message-encoding m rest (omega arith) ∙ ap (map_err message) (too_short (payload m) h))

  -- For a command that has a message, the connection writes what is still in its buffer and then the
  -- message, and keeps both in the buffer.
  handle_manager_command_lem :
      {F : Type 0} (c : PeerConnection F) (command : ManagerCommand) (m : Message)
      → to_message command ≡ some m
      → IsValid m
      → ((handle_manager_command lib c command).buf ≡ c.buf ++ encoding m)
        × ((handle_manager_command lib c command).written ≡ c.written ++ (c.buf ++ encoding m))
        × ((handle_manager_command lib c command).events ≡ c.events)
  unfolding handle_manager_command
  handle_manager_command_lem c command m e v =
      rw (e, handle_manager_command)
        (
          serialize_into_lem lib m c.buf v,
          ap (λ b. c.written ++ b) (serialize_into_lem lib m c.buf v),
          refl,
        )
