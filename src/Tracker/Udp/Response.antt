-- ===== src/Tracker/Udp/Response.antt =====
-- The peers of a tracker's answer against the bytes that it has.
use motte_seed.Prelude.{
  ℕ, zero, suc, ◌*◌, ◌/◌, ◌%◌, ◌≡◌, ◌≤◌, refl, ap, ◌∙◌, List, [], ◌∷◌, ◌++◌, All, ok, arith, length,
  take, drop, length-take, length-drop, take-append-drop,
}
use motte_seed.Bytes.{Bytes}
use motte_seed.Tracker.Udp.{AnnounceResponse, chunks, announce_from_bytes}

abbrev pub join : List Bytes → Bytes
join [] = []
join (p ∷ ps) = p ++ join ps

pub join-chunks : (n : ℕ) (bytes : Bytes) → length bytes ≡ n * 6 → join (chunks n bytes) ≡ bytes
unfolding chunks
join-chunks zero [] h = refl
join-chunks zero (b ∷ bytes) h = absurd (omega arith)
join-chunks (suc n) bytes h =
    let rest = join-chunks n (drop 6 bytes) (omega (arith, length-drop 6 bytes)) in
    ap (λ t. take 6 bytes ++ t) rest ∙ take-append-drop 6 bytes

pub chunks-sizes :
    (n : ℕ) (bytes : Bytes) → length bytes ≡ n * 6 → All (λ p. length p ≡ 6) (chunks n bytes)
unfolding chunks
chunks-sizes zero bytes h = tt
chunks-sizes (suc n) bytes h = (
  omega (arith, length-take 6 bytes),
  chunks-sizes n (drop 6 bytes) (omega (arith, length-drop 6 bytes)),
)

accepted :
    (bytes : Bytes) (r : AnnounceResponse)
    → announce_from_bytes bytes ≡ ok r
    → (20 ≤ length bytes)
      × (length (drop 20 bytes) % 6 ≡ 0)
      × (r.peers ≡ chunks (length (drop 20 bytes) / 6) (drop 20 bytes))
unfolding announce_from_bytes
accepted bytes r h = (ground arith, ground arith, ground arith)

-- An answer that is accepted has at least 20 bytes, and its peers, of six bytes each, are one after
-- the other all the bytes behind the first 20: none is lost and none is made up.
pub announce_from_bytes-ok :
    (bytes : Bytes) (r : AnnounceResponse)
    → announce_from_bytes bytes ≡ ok r
    → (20 ≤ length bytes) × (join r.peers ≡ drop 20 bytes) × All (λ p. length p ≡ 6) r.peers
announce_from_bytes-ok bytes r h =
    let (long, whole, e) = accepted bytes r h in
    let n : length (drop 20 bytes) ≡ length (drop 20 bytes) / 6 * 6 = omega arith in
    (long, ap join e ∙ join-chunks _ (drop 20 bytes) n, rw e (chunks-sizes _ (drop 20 bytes) n))
