-- ===== src/Peer/DownloadManager/Unchoke.antt =====
-- What an unchoke makes the manager request.
use motte_seed.Prelude.{
  ℕ, ◌%◌, ◌^◌, ◌≡◌, ap, ◌∙◌, true, none, some, List, [], ◌∷◌, ◌++◌, ◌⊎◌, inl, inr, All,
  Option-cases, arith,
}
use motte_seed.Prelude.Assoc.{HashOrder}
use motte_seed.Peer.Block.{Block, PeerIp}
use motte_seed.Peer.Connection.{request_block}
use motte_seed.Peer.PieceManager
use motte_seed.Peer.PieceManager.{
  PieceManager, get_next_piece_to_download, get_next_block_for_piece, get_piece_data,
  mark_piece_written,
}
use motte_seed.Peer.PieceManager.Selection.{OneOf, IsWanted, get_next_piece_to_download_lem}
use motte_seed.Peer.DownloadManager.{
  DownloadManager, find_peer, send, get_peer_available_pieces, handle_unchoke,
  request_pieces_from_peer, request_next_block_for_piece,
}
use motte_seed.Prelude.{false}
use motte_seed.Peer.PieceManager.Selection.{get_next_block_for_piece-cases}
use motte_seed.Prelude.Rows.{adjust-insert}
use motte_seed.Prelude.Assoc.{get, insert, adjust}
use motte_seed.Peer.Block
use motte_seed.Peer.Block.{requested}
use motte_seed.Peer.Piece
use motte_seed.Peer.Piece.{Piece, get_next_missing_block, is_fully_downloaded}
use motte_seed.Peer.Piece.NextBlock.{IsEntry}

-- Only a registered peer has pieces.
unregistered :
    (d : DownloadManager) (ip : PeerIp) (i : ℕ)
    → find_peer d.peers ip ≡ none
    → OneOf i (get_peer_available_pieces d ip)
    → ⊥
unfolding get_peer_available_pieces
unregistered d ip i n o = rw (n, get_peer_available_pieces) at o

-- An unchoke makes the manager request a block, unless the peer has nothing that it can: it does nothing
-- if no piece of the peer's bitfield is wanted. Otherwise it takes one that is. If that piece has all its
-- blocks, it does nothing; if not, it sends one request to the same peer, for a block of that piece
-- that has not been received, with its offset cut to 32 bits and with its length; and the block, and
-- no other, is then marked as requested from the peer at this time.
pub handle_unchoke_lem :
    (order : HashOrder Block) (d : DownloadManager) (ip : PeerIp) (now : ℕ)
    → (All (λ i. ¬ IsWanted d.piece_manager i) (get_peer_available_pieces d ip)
        × (handle_unchoke order d ip now ≡ d))
      ⊎ ((i : ℕ) × (p : Piece) × OneOf i (get_peer_available_pieces d ip)
          × (get d.piece_manager.pieces i ≡ some p)
          × (Piece.is_complete p ≡ false)
          × (((is_fully_downloaded p ≡ true) × (handle_unchoke order d ip now ≡ d))
              ⊎ ((offset : ℕ) × (b c : Block) × IsEntry (offset, b) p.blocks
                  × (Block.is_complete b ≡ false)
                  × (get p.blocks offset ≡ some c)
                  × ((handle_unchoke order d ip now).sent
                      ≡ d.sent ++ ((ip, request_block i (offset % 2 ^ 32) c.length) ∷ []))
                  × ((handle_unchoke order d ip now).piece_manager.pieces
                      ≡ insert d.piece_manager.pieces i (record p {
                        blocks =
                            adjust p.blocks offset (λ x. record x { state = requested ip now });
                      })))))
unfolding handle_unchoke request_pieces_from_peer request_next_block_for_piece send
    PieceManager.request_block Piece.request_from_peer Block.request_from_peer
handle_unchoke_lem order d ip now =
    let m : PieceManager = d.piece_manager in
    let l : List ℕ = get_peer_available_pieces d ip in
    let (pick, without) = get_next_piece_to_download_lem m l in
    elim (Option-cases (get_next_piece_to_download m l)) [
      | inl n ↦ inl (without n, ground (arith, n))
      | inr (i, s) ↦
          let (o, (p, known, open_still)) = pick i s in
          let out = get_next_block_for_piece-cases order m i p known in
          inr (
            i,
            p,
            o,
            known,
            open_still,
            elim out [
              | inl (full, n) ↦ inl (full, ground (arith, n, s))
              | inr (offset, b, c, entry, lacking, g, n) ↦
                  elim (Option-cases (find_peer d.peers ip)) [
                    | inl x ↦ absurd (unregistered d ip i x o)
                    | inr (v, f) ↦
                        let now_at : (handle_unchoke order d ip now).piece_manager ≡ record m {
                          pieces = adjust m.pieces i (λ x. Piece.request_from_peer x offset ip now);
                        } =
                          ground (arith, f, s, n) in
                        inr (
                          offset,
                          b,
                          c,
                          entry,
                          lacking,
                          g,
                          ground (arith, f, s, n),
                          ap (λ x. x.pieces) now_at
                              ∙ adjust-insert m.pieces i
                                  (λ x. Piece.request_from_peer x offset ip now) known,
                        )
                  ]
            ],
          )
    ]
