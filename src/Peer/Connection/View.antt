-- ===== src/Peer/Connection/View.antt =====
-- What a connection knows of its peer, against the events that it has sent.
use Prim.Native.String.{String}
use mathlib.Core.Path.{subst}
use motte_seed.Prelude.{
  ℕ, ◌+◌, ◌%◌, ◌^◌, ◌≡◌, refl, sym, ap, ◌∙◌, Bool, true, false, Option, none, some, List, [], ◌∷◌,
  ◌++◌, Result, ok, length, arith, Result-cases, inl, inr,
}
use motte_seed.Bytes.{Bytes, BufMut}
use motte_seed.Peer.Block.{PeerIp}
use motte_seed.Peer.State
use motte_seed.Peer.State.{Float, PeerState, update_download_rate}
use motte_seed.Peer.Handshake.{handshake}
use motte_seed.Peer.Message.{Message}
use motte_seed.Peer.Connection.{
  PeerConnection, PeerEvent, ManagerCommand, received_bitfield, received_have, peer_unchoked,
  received_piece, peer_disconnected, peer_choked, peer_interested, peer_not_interested,
  requested_block, download_rate, new, handle_manager_command, send_bitfield, handle_message,
  handle_piece, emit, send, socket_addr,
}
use motte_seed.Peer.Connection.Loop.{interrupted, Turn, Running, commanded, received, starts, turns}

-- The peer as its events tell it: whether it chokes and is interested, its bitfield, and the bytes
-- of the blocks that it has sent, as a `u64`.
pub record View : Type 0 where
  pub choking : Bool
  pub interested : Bool
  pub bitfield : Option Bytes
  pub downloaded : ℕ

abbrev pub seen : {F : Type 0} → View → PeerEvent F → View
seen v peer_choked = record v { choking = true }
seen v peer_unchoked = record v { choking = false }
seen v peer_interested = record v { interested = true }
seen v peer_not_interested = record v { interested = false }
seen v (received_bitfield bytes) = record v { bitfield = some bytes }
seen v (received_piece index begin block) = record v {
  downloaded = (v.downloaded + length block) % 2 ^ 64;
}
seen v (received_have index) = v
seen v (requested_block index begin len) = v
seen v peer_disconnected = v
seen v (download_rate rate) = v

abbrev pub view_from : {F : Type 0} → View → List (PeerEvent F) → View
view_from v [] = v
view_from v (event ∷ events) = view_from (seen v event) events

abbrev pub start_view : View
start_view = record { choking = true; interested = false; bitfield = none; downloaded = 0 }

-- The same from the state that the connection keeps.
abbrev pub known : {F : Type 0} → PeerState F → View
known s = record {
  choking = s.peer_choking;
  interested = s.peer_interested;
  bitfield = s.bitfield;
  downloaded = s.downloaded;
}

view_from-append :
    {F : Type 0} (v : View) (a b : List (PeerEvent F))
    → view_from v (a ++ b) ≡ view_from (view_from v a) b
view_from-append v [] b = refl
view_from-append v (event ∷ a) b = view_from-append (seen v event) a b

-- What is kept of a connection.
record IsTrue {F : Type 0} (c : PeerConnection F) : Type 0 where
  view : known c.state ≡ view_from start_view c.events
  choking : (c.state).am_choking ≡ true
  interest : (c.state).am_interested ≡ false

module _ (lib : BufMut) (float : Float) where
  open float use {F64}

  update_download_rate-known :
      (s : PeerState F64) (now : ℕ)
      → (known (update_download_rate float s now) ≡ known s)
        × ((update_download_rate float s now).am_choking ≡ s.am_choking)
        × ((update_download_rate float s now).am_interested ≡ s.am_interested)
  unfolding update_download_rate
  update_download_rate-known s now = (ground arith, ground arith, ground arith)

  told :
      (c d : PeerConnection F64) (event : PeerEvent F64)
      → d.events ≡ c.events ++ (event ∷ [])
      → known d.state ≡ seen (known c.state) event
      → (d.state).am_choking ≡ (c.state).am_choking
      → (d.state).am_interested ≡ (c.state).am_interested
      → IsTrue c
      → IsTrue d
  told c d event events state choking interest s = record {
    view =
        state
        ∙ ap (λ v. seen v event) s.view
        ∙ sym
            (ap (view_from start_view) events ∙ view_from-append start_view c.events (event ∷ []));
    choking = choking ∙ s.choking;
    interest = interest ∙ s.interest;
  }

  handle_piece-IsTrue :
      (c : PeerConnection F64) (index begin : ℕ) (block : Bytes) (now : ℕ)
      → IsTrue c
      → IsTrue (handle_piece float c index begin block now)
  unfolding handle_piece emit
  handle_piece-IsTrue c index begin block now s =
      let counted : PeerState F64 = record (c.state) {
        downloaded = ((c.state).downloaded + length block) % 2 ^ 64;
      } in
      let event : PeerEvent F64 = received_piece index begin block in
      let got : PeerConnection F64 = record c {
        state = counted;
        events = c.events ++ (event ∷ []);
      } in
      let (same, choking, interest) = update_download_rate-known counted now in
      told got (handle_piece float c index begin block now)
        (download_rate (update_download_rate float counted now).download_rate) refl same choking
        interest (told c got event refl refl refl refl s)

  handle_message-IsTrue :
      (c : PeerConnection F64) (m : Message) (now : ℕ)
      → IsTrue c
      → IsTrue (handle_message float c m now)
  unfolding handle_message emit
  handle_message-IsTrue c Message.keep_alive now s = s
  handle_message-IsTrue c Message.choke now s = told c _ peer_choked refl refl refl refl s
  handle_message-IsTrue c Message.un_choke now s = told c _ peer_unchoked refl refl refl refl s
  handle_message-IsTrue c Message.interested now s = told c _ peer_interested refl refl refl refl s
  handle_message-IsTrue c Message.not_interested now s =
      told c _ peer_not_interested refl refl refl refl s
  handle_message-IsTrue c (Message.have index) now s =
      told c _ (received_have index) refl refl refl refl s
  handle_message-IsTrue c (Message.bitfield bytes) now s =
      told c _ (received_bitfield bytes) refl refl refl refl s
  handle_message-IsTrue c (Message.request index begin len) now s =
      told c _ (requested_block index begin len) refl refl refl refl s
  handle_message-IsTrue c (Message.piece index begin block) now s =
      handle_piece-IsTrue c index begin block now s
  handle_message-IsTrue c (Message.cancel index begin len) now s = s
  handle_message-IsTrue c (Message.port p) now s = s

  -- What leaves the state and the events.
  same-IsTrue :
      (c d : PeerConnection F64) → d.state ≡ c.state → d.events ≡ c.events → IsTrue c → IsTrue d
  same-IsTrue c d state events s = record {
    view = ap known state ∙ s.view ∙ sym (ap (view_from start_view) events);
    choking = ap (λ (x : PeerState F64). x.am_choking) state ∙ s.choking;
    interest = ap (λ (x : PeerState F64). x.am_interested) state ∙ s.interest;
  }

  handle_manager_command-kept :
      (c : PeerConnection F64) (command : ManagerCommand)
      → ((handle_manager_command lib c command).state ≡ c.state)
        × ((handle_manager_command lib c command).events ≡ c.events)
  unfolding handle_manager_command send
  handle_manager_command-kept c command = (ground arith, ground arith)

  interrupted-kept :
      (c : PeerConnection F64) (stream : Bytes) (taken : ℕ) (memory : Bytes)
      → ((interrupted c stream taken memory).state ≡ c.state)
        × ((interrupted c stream taken memory).events ≡ c.events)
  unfolding interrupted
  interrupted-kept c stream taken memory = (ground arith, ground arith)

  Turn-IsTrue :
      {s t : PeerConnection F64 × Bytes} → Turn lib float s t → IsTrue (s.0) → IsTrue (t.0)
  Turn-IsTrue (commanded c stream command taken memory long within) s =
      let (e, f) = interrupted-kept c stream taken memory in
      let (g, h) = handle_manager_command-kept (interrupted c stream taken memory) command in
      same-IsTrue c _ (g ∙ e) (h ∙ f) s
  Turn-IsTrue (received c stream now m left rest read) s =
      handle_message-IsTrue (record c { buf = left }) m now (same-IsTrue c _ refl refl s)

  Running-IsTrue :
      {c : PeerConnection F64} {bitfield : Option Bytes} {stream : Bytes}
      {s : PeerConnection F64 × Bytes}
      → IsTrue c
      → Running lib float c bitfield stream s
      → IsTrue (s.0)
  unfolding send_bitfield send
  Running-IsTrue {c = c} {bitfield = none} s starts = s
  Running-IsTrue {c = c} {bitfield = some bytes} s starts = same-IsTrue c _ refl refl s
  Running-IsTrue s (turns r turn) = Turn-IsTrue turn (Running-IsTrue s r)

  new-IsTrue :
      (connect : Bytes × ℕ → Result Bytes String) (ip : PeerIp) (peer_id info_hash : Bytes)
      (now : ℕ) {c : PeerConnection F64} {stream : Bytes}
      → new float connect ip peer_id info_hash now ≡ ok (c, stream)
      → IsTrue c
  unfolding new State.new
  new-IsTrue connect ip peer_id info_hash now {c = c} h =
      elim (Result-cases (connect (socket_addr ip))) [
        | inr (text, k) ↦ cc (rw (k, new) at h)
        | inl (sent, k) ↦ elim (Result-cases ((handshake sent peer_id info_hash).0)) [
          | inr (e, q) ↦ cc (rw (k, q, new) at h)
          | inl (id, q) ↦
              let made : PeerConnection F64 = record {
                state = State.new float none now;
                buf = [];
                written = (handshake sent peer_id info_hash).1;
                events = [];
              } in
              let same : made ≡ c = cc (rw (k, q, new) at h) in
              subst (IsTrue {F = F64}) same
                (record { view = refl; choking = refl; interest = refl })
        ]
      ]

  -- A connection that has been made and runs, whatever the order of the commands and the messages, and
  -- with reads that commands interrupt: what its state says of the peer, whether it chokes and is
  -- interested, its bitfield and the bytes downloaded, is exactly what the events that it has sent to
  -- the manager tell, in their order, from a peer that chokes and is not interested. Its own two
  -- flags never change: it stays choking and not interested, whatever it sends.
  pub run-known :
      (connect : Bytes × ℕ → Result Bytes String) (ip : PeerIp) (peer_id info_hash : Bytes)
      (now : ℕ) (c d : PeerConnection F64) (bitfield : Option Bytes) (stream rest : Bytes)
      → new float connect ip peer_id info_hash now ≡ ok (c, stream)
      → Running lib float c bitfield stream (d, rest)
      → (known d.state ≡ view_from start_view d.events)
        × ((d.state).am_choking ≡ true)
        × ((d.state).am_interested ≡ false)
  run-known connect ip peer_id info_hash now c d bitfield stream rest h r =
      let s = Running-IsTrue (new-IsTrue connect ip peer_id info_hash now h) r in
      (s.view, s.choking, s.interest)
