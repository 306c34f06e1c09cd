-- ===== src/Stats.antt =====
-- src/core/torrent_stats.rs: how much of a torrent is transferred. The sums wrap as `u64` does in a
-- release build.
use motte_seed.Prelude.{ℕ, ◌+◌, ◌-◌, ◌%◌, ◌^◌, ◌≡◌, ◌≤◌, List, [], ◌∷◌, arith}
use motte_seed.Bytes.{IsU64}

pub record TorrentStats : Type 0 where
  pub downloaded : ℕ
  pub uploaded : ℕ
  pub left : ℕ

unfoldable pub new : ℕ → TorrentStats
new total_size = record { downloaded = 0; uploaded = 0; left = total_size }

-- `saturating_sub` is the subtraction of ℕ.
unfoldable pub update_downloaded : TorrentStats → ℕ → TorrentStats
update_downloaded s bytes = record s {
  downloaded = (s.downloaded + bytes) % 2 ^ 64;
  left = s.left - bytes;
}

unfoldable pub update_uploaded : TorrentStats → ℕ → TorrentStats
update_uploaded s bytes = record s { uploaded = (s.uploaded + bytes) % 2 ^ 64 }

unfoldable pub updated_left : TorrentStats → ℕ → TorrentStats
updated_left s bytes = record s { left = (s.left + bytes) % 2 ^ 64 }

unfoldable pub download_all : TorrentStats → List ℕ → TorrentStats
download_all s [] = s
download_all s (n ∷ l) = download_all (update_downloaded s n) l

abbrev pub total : List ℕ → ℕ
total [] = 0
total (n ∷ l) = n + total l

sum_kept :
    (s : TorrentStats) (l : List ℕ)
    → IsU64 (s.downloaded + s.left)
    → total l ≤ s.left
    → (download_all s l).downloaded + (download_all s l).left ≡ s.downloaded + s.left
unfolding download_all update_downloaded
sum_kept s [] h g = omega arith
sum_kept s (n ∷ l) h g =
    let t : TorrentStats = update_downloaded s n in
    let d : t.downloaded ≡ s.downloaded + n = omega arith in
    let r : t.left ≡ s.left - n = omega arith in
    omega (arith, sum_kept t l (omega arith) (omega arith))

-- Downloads that are together no more than the torrent's size keep the sum of what is downloaded and
-- what is left at that size.
pub download_all-new :
    (size : ℕ) (l : List ℕ)
    → IsU64 size
    → total l ≤ size
    → (download_all (new size) l).downloaded + (download_all (new size) l).left ≡ size
unfolding new
download_all-new size l h g =
    let kept = sum_kept (new size) l (omega arith) (omega arith) in omega (arith, kept)
