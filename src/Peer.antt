-- ===== src/Peer.antt =====
-- src/core/peer: the peer protocol, its connections, and the pieces that are downloaded.
pub mod Message
pub mod Block
pub mod State
pub mod Connection
pub mod DownloadManager
pub mod Handshake
pub mod Piece
pub mod PieceManager
pub mod Manager
pub mod Id
