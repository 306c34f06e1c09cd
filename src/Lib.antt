-- ===== src/Lib.antt =====
-- MotteSeed, a BitTorrent client in Rust: its core, modelled and verified.
--
-- The program's parts and how they interact. A torrent file is decoded into its metadata
-- (src/core/torrent, over src/util/bencode). The trackers of the torrent, HTTP or UDP, tell the
-- addresses of peers, which the tracker manager collects in a pool (src/core/tracker). The peer
-- manager runs a task for each peer and passes its events on (src/core/peer/peer_manager.rs). A peer's
-- connection (src/core/peer/peer_connection.rs) starts with a handshake and then exchanges messages;
-- it turns messages into events for the download manager and the manager's commands into messages. The
-- download manager chooses pieces and blocks through the piece manager, which holds a piece for each
-- digest of the torrent; a piece collects its blocks and checks them against its digest; a verified
-- piece is written to the files of the torrent (src/core/disk_io.rs) and announced to the peers.
-- src/main.rs puts the parts together.
--
-- The files, each beside the source that it is about:
--   Util.Bencode        src/util/bencode/bencode_decodable.rs
--   Torrent             src/core/torrent/torrent.rs; its children: Hashes, the digests of the pieces;
--                       Decoding, what a decoded torrent is; Written, Fields and ReadBack, the
--                       file of a torrent as BEP 3 has it, and what the decoders make of it
--   Disk                src/core/disk_io.rs; WriteAt, a file after a write; Single and
--                       Multi, torrents of one file and of several; Misplaced and
--                       Within, a write to one of several; Store, sequences of writes;
--                       Whole and Created, the pieces of one file
--   Peer.Message        src/core/peer/message.rs; Encoding, the wire format; RoundTrip, Canonical and
--                       Framing, what is read back, written back and refused
--   Peer.Handshake      src/core/peer/handshake.rs
--   Peer.State          src/core/peer/peer_state.rs
--   Peer.Connection     src/core/peer/peer_connection.rs; Frames and Misread, what it reads
--                       and writes; Loop, the turns of its loop; View, its state against its events
--   Peer.Manager        src/core/peer/peer_manager.rs; Steps, what can happen to it; Turns and Order,
--                       the order of the events; Routes, where a command goes
--   Peer.Id             src/core/peer/peer_id.rs
--   Peer.Block          src/core/peer/piece/block.rs
--   Peer.Piece          src/core/peer/piece/piece.rs; Tiles and Layout, the blocks of a new piece;
--                       Contents, the bytes that the blocks hold; Invariant and Check, that the
--                       checking methods keep; NextBlock, which block is next; Steps and
--                       Integrity, sequences of calls; Delivery, OnTheWay, Asked and Arrival,
--                       the data in any order; Checked, blocks from anyone
--   Peer.PieceManager   src/core/peer/piece/piece_manager.rs; Creation and Selection;
--                       Genuine and Data, an invariant of all pieces and what it gives
--   Peer.DownloadManager  src/core/peer/download_manager.rs; Bitfield, Have,
--                       Handlers and Unchoke; Runs and Reach, sequences of events; Loop, when the
--                       loop over them is left and when it goes on; Silent, a manager
--                       without peers; Progress, Finish, Delivered, Kept and Handled, how far a
--                       download is; Start, Download and Created, from its creation to
--                       its end; Events and EndToEnd, peers that have the data; Checked,
--                       peers that send anything
--   Stats               src/core/torrent_stats.rs
--   Tracker.Error       src/core/tracker/tracker_error.rs
--   Tracker.Udp         src/core/tracker/tracker_udp.rs; Client, a tracker from its URL to its peers;
--                       Url, Request, Response, Retry and Interval
--   Tracker.Http        src/core/tracker/tracker_http.rs; Encoding, Query and Answers
--   Tracker.Factory     src/core/tracker/tracker_factory.rs, src/core/tracker/tracker.rs
--   Tracker.Manager     src/core/tracker/tracker_manager.rs; Pool
--   Main                src/main.rs; Setup, what it has when it enters its loop
-- Prelude and Bytes hold what these share: lists, maps and tests over the native numbers, and the
-- byte strings with their conversions. Tests holds concrete runs.
--
-- How state and operations correspond to the code. A struct is a record with the source's fields, an
-- enum a data type with its variants, a function has the source's name in this notation. A method that
-- changes `self` takes the record and returns the new one; what it sends or writes is in the result: a
-- log of commands or events, or the contents of the files. A `Result` is `Result` or a pair of the
-- state with an optional error, where the state changes also on an error. A `HashMap` is a list of
-- entries; the order of its iterator is a parameter, `HashOrder`. A `HashSet` is a list too, with
-- `SetOrder` for its iterator, of which only that it visits each element once is used. An unsigned
-- integer is a natural number, and the arithmetic that can leave its range is written out with its
-- wrap-around, as in a release build (a debug build stops there).
--
-- Bounds and fuel. The loops of `Piece::new`, `verify` and `get_piece_data` go over offsets. They
-- take one round for each byte of the piece and one more, and `none` says that the rounds ran
-- out. With blocks of at least one byte and pieces below 2^32 bytes they do not; a longer piece
-- can make the code loop for ever, and then the model gives `none` for every number of rounds.
-- The loop of the download manager goes over the events that arrive, and its result says whether it has
-- been left or waits for more; on a closed channel it waits for nothing and takes rounds, which
-- `run_closed` counts. The tries of a UDP tracker are the source's constant, and each has its own
-- transaction id, statistics, time and replies. All other loops go over lists.
--
-- Concurrency. A handler of the download manager runs to its end before the next event. The loop of
-- a connection is a step relation: each turn takes a command or a message, and a command can interrupt
-- a read. The tasks of the peer manager are a step relation too: any task can take the next step,
-- and a connection can fail or end at any time. A channel holds what is sent; one that is full makes
-- its sender wait, which is a later step.
--
-- Parameters, each code of a library or of the machine: the digest of the sha1 crate, the buffers
-- of the bytes crate (`BufMut`), the values of the bencode crate (`Crate`), the lossy decoding of
-- UTF-8, the file operations (`FileSystem`, with their documented effect), `f64` (`Float`), the URIs of
-- the http crate with the digits of the itoa crate (`Web`), the lookup of hosts and the sockets
-- (`Net`), the clock, the numbers that the generator draws, and the replies of the network, which may
-- differ from call to call. The torrents that are written to be read back are made with the
-- variants and the maps of the bencode crate (`Writer`).
--
-- Not modelled: the runtime's scheduler, locks and logs; what src/main.rs prints; src/util/errors.rs, a
-- newtype around an error of the bencode crate; and errors in writing to a peer's stream or in handing
-- an event to the manager, which end a connection.
pub mod Prelude
pub mod Bytes
pub mod Util
pub mod Torrent
pub mod Disk
pub mod Peer
pub mod Stats
pub mod Main
pub mod Tracker
mod Tests
