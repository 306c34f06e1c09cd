-- ===== src/Tracker/Udp/Request.antt =====
-- The announce request of the UDP tracker against a reader of its fields.
use motte_seed.Prelude.{
  ℕ, ◌+◌, ◌/◌, ◌%◌, ◌^◌, ◌≡◌, ◌<◌, sym, ap, ◌∙◌, [], ◌++◌, length, take, drop, length-append,
  take-append_left, drop-append_left, drop-drop, arith,
}
use motte_seed.Bytes.{Bytes, be16, be32, u16_at, u32_at, IsU16, IsU32, IsU64}
use motte_seed.Stats.{TorrentStats}
use motte_seed.Tracker.Udp.{AnnounceRequest, be64, u64_at, to_bytes}

u32_at-be32 : (n : ℕ) (rest : Bytes) → IsU32 n → u32_at (be32 n ++ rest) 0 ≡ n
u32_at-be32 n rest h = omega arith

u16_at-be16 : (n : ℕ) → IsU16 n → u16_at (be16 n) 0 ≡ n
u16_at-be16 n h = omega arith

u64_at-be64 : (n : ℕ) (rest : Bytes) → IsU64 n → u64_at (be64 n ++ rest) 0 ≡ n
u64_at-be64 n rest h =
    let high : n / 2 ^ 32 < 2 ^ 32 = omega arith in
    let low : n % 2 ^ 32 < 2 ^ 32 = omega arith in
    omega (
      arith,
      u32_at-be32 (n / 2 ^ 32) (be32 (n % 2 ^ 32) ++ rest) high,
      u32_at-be32 (n % 2 ^ 32) rest low,
    )

-- The fields behind the digest and the id.
abbrev tail : AnnounceRequest → TorrentStats → Bytes
tail r stats =
    be64 stats.downloaded
    ++ (be64 stats.left
        ++ (be64 stats.uploaded
            ++ (be32 r.event
                ++ (be32 r.ip_address ++ (be32 r.key ++ (be32 r.num_want ++ be16 r.port))))))

-- The values fit their fields.
pub record IsFitting (r : AnnounceRequest) (stats : TorrentStats) : Type 0 where
  pub info_hash : length r.info_hash ≡ 20
  pub peer_id : length r.peer_id ≡ 20
  pub downloaded : IsU64 stats.downloaded
  pub left : IsU64 stats.left
  pub uploaded : IsU64 stats.uploaded
  pub event : IsU32 r.event
  pub ip_address : IsU32 r.ip_address
  pub key : IsU32 r.key
  pub num_want : IsU32 r.num_want
  pub port : IsU16 r.port

behind_hash :
    (r : AnnounceRequest) (stats : TorrentStats) (connection_id transaction_id : ℕ)
    → length r.info_hash ≡ 20
    → drop 36 (to_bytes r stats connection_id transaction_id) ≡ r.peer_id ++ tail r stats
unfolding to_bytes
behind_hash r stats connection_id transaction_id h =
    ap (λ k. drop k (r.info_hash ++ (r.peer_id ++ tail r stats))) (sym h)
    ∙ drop-append_left r.info_hash (r.peer_id ++ tail r stats)

behind_id :
    (r : AnnounceRequest) (stats : TorrentStats) (connection_id transaction_id : ℕ)
    → length r.info_hash ≡ 20
    → length r.peer_id ≡ 20
    → drop 56 (to_bytes r stats connection_id transaction_id) ≡ tail r stats
behind_id r stats connection_id transaction_id h i =
    let whole : Bytes = to_bytes r stats connection_id transaction_id in
    sym (drop-drop 20 36 whole)
    ∙ ap (drop 20) (behind_hash r stats connection_id transaction_id h)
    ∙ ap (λ k. drop k (r.peer_id ++ tail r stats)) (sym i)
    ∙ drop-append_left r.peer_id (tail r stats)

take_exactly : (n : ℕ) (a b : Bytes) → length a ≡ n → take n (a ++ b) ≡ a
take_exactly n a b h = ap (λ k. take k (a ++ b)) (sym h) ∙ take-append_left a b

module _ (r : AnnounceRequest) (stats : TorrentStats) (connection_id transaction_id : ℕ)
    (f : IsFitting r stats) where
  later :
      (k : ℕ)
      → drop (56 + k) (to_bytes r stats connection_id transaction_id) ≡ drop k (tail r stats)
  later k =
      sym (drop-drop k 56 (to_bytes r stats connection_id transaction_id))
      ∙ ap (drop k) (behind_id r stats connection_id transaction_id f.info_hash f.peer_id)

  size : length (to_bytes r stats connection_id transaction_id) ≡ 98
  unfolding to_bytes
  size = omega (
    arith,
    length-append r.info_hash (r.peer_id ++ tail r stats),
    length-append r.peer_id (tail r stats),
    f.info_hash,
    f.peer_id,
  )

  -- Where its values fit their fields, an announce request has 98 bytes, and a reader that follows the
  -- protocol finds each value at its place: the connection id, the action 1, the transaction id, the
  -- digest, the peer id, what is downloaded, left and uploaded, the event, the address, the key, the
  -- number of peers and the port.
  pub to_bytes-fields :
      IsU64 connection_id
      → IsU32 transaction_id
      → (length (to_bytes r stats connection_id transaction_id) ≡ 98)
        × (u64_at (to_bytes r stats connection_id transaction_id) 0 ≡ connection_id)
        × (u32_at (to_bytes r stats connection_id transaction_id) 8 ≡ 1)
        × (u32_at (to_bytes r stats connection_id transaction_id) 12 ≡ transaction_id)
        × (take 20 (drop 16 (to_bytes r stats connection_id transaction_id)) ≡ r.info_hash)
        × (take 20 (drop 36 (to_bytes r stats connection_id transaction_id)) ≡ r.peer_id)
        × (u64_at (drop 56 (to_bytes r stats connection_id transaction_id)) 0 ≡ stats.downloaded)
        × (u64_at (drop 64 (to_bytes r stats connection_id transaction_id)) 0 ≡ stats.left)
        × (u64_at (drop 72 (to_bytes r stats connection_id transaction_id)) 0 ≡ stats.uploaded)
        × (u32_at (drop 80 (to_bytes r stats connection_id transaction_id)) 0 ≡ r.event)
        × (u32_at (drop 84 (to_bytes r stats connection_id transaction_id)) 0 ≡ r.ip_address)
        × (u32_at (drop 88 (to_bytes r stats connection_id transaction_id)) 0 ≡ r.key)
        × (u32_at (drop 92 (to_bytes r stats connection_id transaction_id)) 0 ≡ r.num_want)
        × (u16_at (drop 96 (to_bytes r stats connection_id transaction_id)) 0 ≡ r.port)
  unfolding to_bytes
  to_bytes-fields c t = (
    size,
    u64_at-be64 connection_id [] c,
    omega arith,
    u32_at-be32 transaction_id [] t,
    take_exactly 20 r.info_hash (r.peer_id ++ tail r stats) f.info_hash,
    ap (take 20) (behind_hash r stats connection_id transaction_id f.info_hash)
        ∙ take_exactly 20 r.peer_id (tail r stats) f.peer_id,
    ap (λ x. u64_at x 0) (later 0) ∙ u64_at-be64 stats.downloaded [] f.downloaded,
    ap (λ x. u64_at x 0) (later 8) ∙ u64_at-be64 stats.left [] f.left,
    ap (λ x. u64_at x 0) (later 16) ∙ u64_at-be64 stats.uploaded [] f.uploaded,
    ap (λ x. u32_at x 0) (later 24) ∙ u32_at-be32 r.event [] f.event,
    ap (λ x. u32_at x 0) (later 28) ∙ u32_at-be32 r.ip_address [] f.ip_address,
    ap (λ x. u32_at x 0) (later 32) ∙ u32_at-be32 r.key [] f.key,
    ap (λ x. u32_at x 0) (later 36) ∙ u32_at-be32 r.num_want [] f.num_want,
    ap (λ x. u16_at x 0) (later 40) ∙ u16_at-be16 r.port f.port,
  )
