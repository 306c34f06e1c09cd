-- ===== src/Peer/Connection/Loop.antt =====
-- src/core/peer/peer_connection.rs: the loop of `run`. Each turn handles a command or a message,
-- whichever the runtime's `select!` takes. A command that is taken while a message is being read drops
-- that read with the bytes that it has taken from the stream. `run` ends with the channel of the
-- commands, or with the error of a read.
use motte_seed.Prelude.{
  ℕ, ◌+◌, ◌-◌, ◌≤◌, ◌<◌, ◌≡◌, ◌⊎◌, Option, ◌++◌, ok, ltb, if◌then◌else◌, length, take, drop,
}
use motte_seed.Bytes.{Bytes, BufMut, u32_at}
use motte_seed.Peer.State.{Float}
use motte_seed.Peer.Message.{Message}
use motte_seed.Peer.Connection.{
  PeerConnection, ManagerCommand, read_message, handle_manager_command, send_bitfield,
  handle_message,
}

-- The buffer where a read is dropped that has taken a number of bytes: the prefix of four bytes is
-- read elsewhere; then the buffer has the length of the message, with what has been read of it and,
-- behind that, what was in memory.
unfoldable pub interrupted : {F : Type 0} → PeerConnection F → Bytes → ℕ → Bytes → PeerConnection F
interrupted c stream taken memory = if ltb taken 4 then c else record c {
  buf = take (taken - 4) (drop 4 stream) ++ take (u32_at stream 0 + 4 - taken) memory;
}

module _ (lib : BufMut) (float : Float) where
  open float use {F64}

  -- One turn, of the connection and the rest of its stream.
  pub data Turn : PeerConnection F64 × Bytes → PeerConnection F64 × Bytes → Type 0 where
    commanded :
        (c : PeerConnection F64) (stream : Bytes) (command : ManagerCommand) (taken : ℕ)
        (memory : Bytes)
        → taken ≤ length stream
        → (taken < 4) ⊎ (taken < 4 + u32_at stream 0)
        → Turn
            (c, stream)
            (
              handle_manager_command lib (interrupted c stream taken memory) command,
              drop taken stream,
            )
    received :
        (c : PeerConnection F64) (stream : Bytes) (now : ℕ) (m : Message) (left rest : Bytes)
        → read_message lib stream ≡ (ok m, left, rest)
        → Turn (c, stream) (handle_message float (record c { buf = left }) m now, rest)

  -- What `run` comes to with a connection, a bitfield and a stream.
  pub data Running (c : PeerConnection F64) (bitfield : Option Bytes) (stream : Bytes)
      : PeerConnection F64 × Bytes → Type 0 where
    starts : Running c bitfield stream (send_bitfield lib c bitfield, stream)
    turns :
        {s t : PeerConnection F64 × Bytes}
        → Running c bitfield stream s
        → Turn s t
        → Running c bitfield stream t
