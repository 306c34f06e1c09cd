-- ===== src/Peer/DownloadManager/Checked.antt =====
-- Runs with peers that send anything: what the manager counts as complete is in the file and has its digest.
use Prim.Native.String.{String}
use native.Mathlib.Nat.{le-mul_of_pos_right}
use motte_seed.Prelude.{
  ℕ, ◌*◌, ◌/◌, ◌^◌, ◌≡◌, ◌<◌, ◌∙◌, sym, ap, true, Bool, Option, none, some, ok, List, [], length,
  All, arith, inl, inr, Option-cases,
}
use motte_seed.Prelude.Assoc.{HashOrder, get}
use motte_seed.Prelude.Rows.{Rows-get}
use motte_seed.Bytes.{Bytes}
use motte_seed.Torrent.{Info, single_file, piece_hash}
use motte_seed.Torrent.Hashes.{piece_hash_iff}
use motte_seed.Disk
use motte_seed.Disk.{DiskIo, FileSystem}
use motte_seed.Disk.WriteAt.{mul_gap}
use motte_seed.Disk.Created.{SetsLength}
use motte_seed.Disk.Whole.{NeverFails, piece_bytes}
use motte_seed.Peer.Block.{Block, PeerIp}
use motte_seed.Peer.Piece
use motte_seed.Peer.Piece.{Piece}
use motte_seed.Peer.Piece.Layout.{IsFresh, new-IsFresh}
use motte_seed.Peer.Piece.Checked.{
  IsHonest, receive-IsHonest, get_piece_data-checked, request-IsHonest, mask_written-IsHonest,
  new-IsHonest,
}
use motte_seed.Peer.Connection.{PeerEvent, received_piece}
use motte_seed.Peer.DownloadManager.{DownloadManager, Peers, new, set_disk_io, run}
use motte_seed.Peer.DownloadManager.Progress.{IsDownloading, IsRow, Receives}
use motte_seed.Peer.DownloadManager.Handled.{Follows}
use motte_seed.Peer.DownloadManager.Download.{Holds, is_complete-to-IsDone}
use motte_seed.Peer.DownloadManager.Created.{add_peers, run-created}
use mathlib.Core.Path.{subst}

-- A block comes in a message, so it is shorter than 2^32 bytes.
abbrev pub IsShort : {F : Type 0} → PeerEvent F → Type 0
IsShort (received_piece k begin block) = length block < 2 ^ 32
IsShort _ = Unit {0}

-- A part of the file has the digest that the torrent gives for it.
abbrev pub IsGenuine : (Bytes → Bytes) → Info → ℕ → Bytes → Type 0
IsGenuine sha1 info i bytes = piece_hash info i ≡ some (sha1 bytes)

abbrev IsNamed : (Bytes → Bytes) → Info → ℕ → Piece → Type 0
IsNamed sha1 info i p = (piece_hash info i ≡ some p.hash) × IsHonest sha1 info.piece_length p

module _ (sha1 : Bytes → Bytes) (info : Info) (n : ℕ) where
  Receives-IsNamed :
      (k o : ℕ) (block : Bytes) (p : Piece)
      → length block < 2 ^ 32
      → IsNamed sha1 info k p
      → Receives info.piece_length n (IsGenuine sha1 info) sha1 (IsNamed sha1 info) k o block p
  Receives-IsNamed k o block p short (h, w) =
      let (r, e, v, same, was) = receive-IsHonest sha1 info.piece_length p w o block short in
      let named : piece_hash info k ≡ some (r.0).hash = h ∙ ap some (sym same) in
      (
        r,
        e,
        (named, v),
        was,
        λ c.
            let (bytes, g, l, s) = get_piece_data-checked sha1 info.piece_length r.0 v c in
            (bytes, g, l, named ∙ ap some (sym s)),
      )

  IsNamed-Follows :
      {F : Type 0}
      → Follows {F = F} sha1 info.piece_length n
          (IsGenuine sha1 info)
          IsShort
          (λ rest. IsNamed sha1 info)
  unfolding Piece.mask_written Piece.request_from_peer
  IsNamed-Follows = record {
    moves = λ event ip now rest j p f v. v;
    receives = λ k o block ip now rest p short inside v. Receives-IsNamed k o block p short v;
    marks = λ rest k q (h, v) d. (h, mask_written-IsHonest sha1 info.piece_length q v d);
    requests = λ rest k p o b ip now e i (h, v).
        (h, request-IsHonest sha1 info.piece_length p v o b ip now e i);
  }

-- The digest of a piece, for an index that has one.
digest : Info → ℕ → Bytes
digest info i = elim (piece_hash info i) [ none ↦ [] | some hash ↦ hash ]

digest_lem :
    (info : Info) (n i : ℕ)
    → length info.raw_pieces / 20 ≡ n
    → n < 2 ^ 32
    → i < n
    → piece_hash info i ≡ some (digest info i)
unfolding digest
digest_lem info n i count few inside = elim (Option-cases (piece_hash info i)) [
  | inl e ↦ let h = (piece_hash_iff info i (omega arith)).1 e in absurd (omega arith)
  | inr (hash, e) ↦ rw (e, digest)
]

new-IsNamed :
    (sha1 : Bytes → Bytes) (info : Info) (s n i : ℕ) (p : Piece)
    → length info.raw_pieces / 20 ≡ n
    → 0 < s
    → s < 2 ^ 32
    → n * info.piece_length < 2 ^ 32
    → n < 2 ^ 32
    → i < n
    → Piece.new i info.piece_length (digest info i) s ≡ some p
    → IsNamed sha1 info i p × (p.state ≡ Piece.missing)
new-IsNamed sha1 info s n i p count wide narrow small few inside made =
    let gap = mul_gap i n info.piece_length inside in
    let (q, m, f) = new-IsFresh i info.piece_length (digest info i) s wide (omega arith) in
    let same : q ≡ p = cc (m, made) in
    let f' : IsFresh info.piece_length (digest info i) s p =
      subst (IsFresh info.piece_length (digest info i) s) same f in
    (
      (
        digest_lem info n i count few inside ∙ ap some (sym f'.hash_is),
        new-IsHonest sha1 info.piece_length (digest info i) s p wide narrow (omega arith) f',
      ),
      f'.state_is,
    )

module _ (sha1 : Bytes → Bytes) (fs : FileSystem) (peer_order : Peers → Peers)
    (order : HashOrder Block) {F : Type 0} where
  -- A torrent of one file, of `n` pieces, at least one, all of the full piece length, together fewer
  -- than 2^32 bytes; blocks of 1 to 2^32 - 1 bytes; a file system where no write fails. The disk and
  -- the download manager are created for it, and some peers are added. Then `run` has handled any
  -- events, from peers that send any blocks below 2^32 bytes. If a piece of the manager then counts
  -- as complete, the one file on the disk has kept its size, and the part of it at the piece's place
  -- has the digest that the torrent gives for the piece.
  pub run-IsGenuine :
      (info : Info) (block_size n : ℕ) (ips : List PeerIp) (disk : DiskIo) (is_utf8 : Bytes → Bool)
      (created : Option String) (base_path : List Bytes) (events : List (PeerEvent F × PeerIp × ℕ))
      (d e : DownloadManager) (left : Bool) (i : ℕ) (p : Piece)
      → NeverFails fs
      → SetsLength fs
      → 0 < n
      → 0 < info.piece_length
      → 0 < block_size
      → block_size < 2 ^ 32
      → n * info.piece_length < 2 ^ 32
      → length info.raw_pieces / 20 ≡ n
      → Disk.new fs is_utf8 created base_path
          (single_file (n * info.piece_length))
          info.piece_length
        ≡ ok disk
      → All (λ e. IsShort e.0) events
      → new info block_size ≡ some d
      → run sha1 fs peer_order order (set_disk_io (add_peers d ips) disk) events ≡ some (e, left)
      → get e.piece_manager.pieces i ≡ some p
      → Piece.is_complete p ≡ true
      → (file : Bytes) × Holds e file
        × (length file ≡ n * info.piece_length)
        × IsGenuine sha1 info i (piece_bytes file info.piece_length i)
  run-IsGenuine info s n ips disk is_utf8 created base_path events d e left i p never law pos wide
        block_wide block_narrow small count opened from made ran known done =
      let few : n < 2 ^ 32 = omega (arith, small, le-mul_of_pos_right n wide) in
      let (d', e', left', made', ran', (rest, w, c, u)) =
        run-created sha1 fs peer_order order info s n (digest info) (IsGenuine sha1 info) IsShort
          (λ rest. IsNamed sha1 info) (IsNamed-Follows sha1 info n) ips disk is_utf8 created
          base_path events never law pos wide block_wide small count
          (λ i inside. digest_lem info n i count few inside)
          (λ i p inside made.
            new-IsNamed sha1 info s n i p count block_wide block_narrow small few inside made)
          opened from in
      let same_start : d' ≡ d = cc (made, made') in
      let same : e' ≡ e = cc (
        ran',
        subst
            (λ x.
              run sha1 fs peer_order order (set_disk_io (add_peers x ips) disk) events
              ≡ some (e, left))
            (sym same_start) ran,
      ) in
      let v : IsDownloading info.piece_length n (IsGenuine sha1 info) (IsNamed sha1 info) e =
        subst (IsDownloading info.piece_length n (IsGenuine sha1 info) (IsNamed sha1 info)) same
          w in
      let (inside, h, on_disk) =
        Rows-get (IsRow info.piece_length n (IsGenuine sha1 info) (IsNamed sha1 info) v.file) 0
          e.piece_manager.pieces i v.rows known in
      let (m, one, only) = v.single in
      (v.file, (v.disk, v.disk_is, only), v.size, on_disk (is_complete-to-IsDone p done))
