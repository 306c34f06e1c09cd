-- ===== src/Peer/Connection/Misread.antt =====
-- The frames that `Message::serialize` makes, as a connection reads them.
use motte_seed.Prelude.{
  ℕ, ◌^◌, ◌≡◌, ◌≢◌, ◌≤◌, ◌<◌, ap, ok, ◌++◌, ◌∷◌, [], arith, length, drop, length-drop, map_err, sym,
  ◌∙◌, Result-cases, inl, inr,
}
use motte_seed.Bytes.{Bytes, BufMut}
use motte_seed.Peer.Message.{
  Message, keep_alive, choke, un_choke, interested, not_interested, have, bitfield, request, piece,
  cancel, port, deserialize, serialize,
}
use motte_seed.Peer.Message.Encoding.{IsValid, payload, serialize_lem}
use motte_seed.Peer.Message.Inversion.{have_inv, bitfield_inv, request_inv, cancel_inv, port_inv}
use motte_seed.Peer.Connection.{message, read_message}
use motte_seed.Peer.Connection.Frames.{read_message-encoding, too_short}

module _ (lib : BufMut) where
  -- A piece that is read has what stands behind 13 bytes.
  piece_tail :
      (bytes : Bytes) (k b : ℕ) (block : Bytes)
      → (deserialize lib bytes).0 ≡ ok (piece k b block)
      → (13 ≤ length bytes) × (block ≡ drop 13 bytes)
  unfolding deserialize
  piece_tail bytes k b block h = ground (arith, lib.split_off_lem bytes 13)

  not_itself : (m : Message) → IsValid m → (deserialize lib (payload m)).0 ≢ ok m
  not_itself keep_alive v h = cc (h, too_short lib [] (omega arith))
  not_itself choke v h = cc (h, too_short lib (0 ∷ []) (omega arith))
  not_itself un_choke v h = cc (h, too_short lib (1 ∷ []) (omega arith))
  not_itself interested v h = cc (h, too_short lib (2 ∷ []) (omega arith))
  not_itself not_interested v h = cc (h, too_short lib (3 ∷ []) (omega arith))
  not_itself (have k) v h = let (_, l, _) = have_inv lib (payload (have k)) k h in omega arith
  not_itself (bitfield bits) v h =
      let (_, l, e) = bitfield_inv lib (payload (bitfield bits)) bits h in
      omega (arith, ap length e, length-drop 5 (payload (bitfield bits)))
  not_itself (request k b n) v h =
      let (_, l, _, _, _) = request_inv lib (payload (request k b n)) k b n h in omega arith
  not_itself (cancel k b n) v h =
      let (_, l, _, _, _) = cancel_inv lib (payload (cancel k b n)) k b n h in omega arith
  not_itself (piece k b block) v h =
      let (l, e) = piece_tail (payload (piece k b block)) k b block h in
      omega (arith, ap length e, length-drop 13 (payload (piece k b block)))
  not_itself (port p) v h = let (_, l, _) = port_inv lib (payload (port p)) p h in omega arith

  small : (m : Message) → IsValid m → length (payload m) < 2 ^ 32
  small (have k) v = omega arith
  small (bitfield bits) v = omega arith
  small (request k b n) v = omega arith
  small (cancel k b n) v = omega arith
  small (piece k b block) v = omega arith
  small (port p) v = omega arith
  small _ v = omega arith

  -- The connection never reads a message as the one that was sent: whatever valid message `serialize`
  -- makes a frame of, and whatever comes behind it, `read_message` does not give that message.
  pub read_message-serialize :
      (m : Message) (rest : Bytes)
      → IsValid m
      → (read_message lib (serialize lib m ++ rest)).0 ≢ ok m
  read_message-serialize m rest v h =
      let framed : map_err message ((deserialize lib (payload m)).0) ≡ ok m =
        sym (read_message-encoding lib m rest (small m v))
        ∙ ap (λ b. (read_message lib (b ++ rest)).0) (sym (serialize_lem lib m v))
        ∙ h in
      elim (Result-cases ((deserialize lib (payload m)).0)) [
        | inl (x, e) ↦ not_itself m v (cc (rw e at framed, e))
        | inr (x, e) ↦ cc (rw e at framed)
      ]
