-- ===== src/Peer/Message/Framing.antt =====
-- What `deserialize` accepts and refuses, on any bytes.
use motte_seed.Prelude.{ℕ, ◌<◌, ◌≤◌, ◌≡◌, ◌≢◌, ◌⊎◌, ◌↔◌, ok, err, arith, length}
use motte_seed.Bytes.{Bytes, BufMut, u32_at, at}
use motte_seed.Peer.Message.{keep_alive, invalid_type, message_too_short, deserialize}

module _ (lib : BufMut) where
  -- A buffer of fewer than 5 bytes yields a keep-alive or the error for a short message.
  pub deserialize_short :
      (bytes : Bytes)
      → length bytes < 5
      → ((deserialize lib bytes).0 ≡ err message_too_short)
        ⊎ ((4 ≤ length bytes) × (u32_at bytes 0 ≡ 0) × ((deserialize lib bytes).0 ≡ ok keep_alive))
  unfolding deserialize
  deserialize_short bytes h = ground arith

  -- The error for an unknown type is given exactly to a buffer of 5 bytes or more whose length
  -- prefix is not 0 and whose id is 10 or more, and it names that id.
  pub deserialize-invalid_type_iff :
      (bytes : Bytes) (i : ℕ)
      → ((deserialize lib bytes).0 ≡ err (invalid_type i))
        ↔ ((5 ≤ length bytes) × (u32_at bytes 0 ≢ 0) × (at bytes 4 ≡ i) × (10 ≤ i))
  unfolding deserialize
  deserialize-invalid_type_iff bytes i = (λ h. ground arith, λ h. ground arith)
