-- ===== src/Peer/Handshake.antt =====
-- src/core/peer/handshake.rs: the first message in both directions.
-- The function writes `request` and reads 68 bytes, which `response` here takes. What the peer sends is
-- an argument; a write does not fail here.
use motte_seed.Prelude.{
  ltb, ℕ, zero, suc, ◌≡◌, refl, sym, ap, ◌∙◌, Bool, true, false, not, ◌||◌, [], ◌∷◌, ◌++◌, Result,
  ok, err, ◌==◌, if◌then◌else◌, length, take, drop, replicate, arith, ◌≤◌, take-append_left,
  drop-append_left, take-append-drop, drop-drop, length-take, length-drop, length-append, ◌↔◌,
}
use motte_seed.Prelude.Text.{codes}
use motte_seed.Bytes.{Bytes, bytes_eq, at, bytes_eq_sound, bytes_eq_refl}

pub data HandShakeError : Type 0 where
  -- `Io` of a stream that ends early.
  unexpected_eof : HandShakeError
  invalid_handshake invalid_info_hash : HandShakeError

abbrev pub protocol : Bytes
protocol = codes "BitTorrent protocol"

-- The bytes that are sent.
unfoldable pub request : Bytes → Bytes → Bytes
request peer_id info_hash = 19 ∷ protocol ++ (replicate 8 0 ++ (info_hash ++ peer_id))

-- A range of the buffer.
abbrev pub slice : Bytes → ℕ → ℕ → Bytes
slice buf start n = take n (drop start buf)

unfoldable pub response : Bytes → Bytes → Result Bytes HandShakeError
response buf info_hash =
    if not (at buf 0 == 19) || not (bytes_eq (slice buf 1 19) protocol)
    then err invalid_handshake
    else if not (bytes_eq (slice buf 28 20) info_hash)
    then err invalid_info_hash
    else ok (slice buf 48 20)

-- The result with the bytes that are written and the rest of the stream.
unfoldable pub handshake : Bytes → Bytes → Bytes → Result Bytes HandShakeError × Bytes × Bytes
handshake stream peer_id info_hash = (
  if ltb (length stream) 68 then err unexpected_eof else response (take 68 stream) info_hash,
  request peer_id info_hash,
  drop 68 stream,
)

take_all : (n : ℕ) (xs : Bytes) → length xs ≤ n → take n xs ≡ xs
take_all zero [] h = refl
take_all zero (x ∷ xs) h = absurd (omega arith)
take_all (suc n) [] h = refl
take_all (suc n) (x ∷ xs) h = rw (take_all n xs (omega arith)) refl

-- Two clients that speak of the same torrent accept each other's handshake, and each learns the
-- other's id, where ids and digests have 20 bytes.
pub response-request :
    (peer_id info_hash : Bytes)
    → length peer_id ≡ 20
    → length info_hash ≡ 20
    → response (request peer_id info_hash) info_hash ≡ ok peer_id
unfolding response request bytes_eq
response-request peer_id info_hash p i =
    let hash : take 20 (info_hash ++ peer_id) ≡ info_hash =
      ap (λ k. take k (info_hash ++ peer_id)) (sym i) ∙ take-append_left info_hash peer_id in
    let rest : drop 20 (info_hash ++ peer_id) ≡ peer_id =
      ap (λ k. drop k (info_hash ++ peer_id)) (sym i) ∙ drop-append_left info_hash peer_id in
    let id : take 20 peer_id ≡ peer_id = take_all 20 peer_id (omega arith) in
    rw (hash, bytes_eq_refl info_hash, rest, id) refl

gate :
    (a b c : Bool) (id peer_id : Bytes)
    → ◌≡◌ {A = Result Bytes HandShakeError}
        (if not a || not b
          then err invalid_handshake
          else if not c
          then err invalid_info_hash
          else ok id)
        (ok peer_id)
    → (a ≡ true) × (b ≡ true) × (c ≡ true) × (id ≡ peer_id)
gate true true true id peer_id h = (refl, refl, refl, cc)
gate true true false id peer_id h = cc
gate true false c id peer_id h = cc
gate false b c id peer_id h = cc

accepted :
    (b : ℕ) (t info_hash peer_id : Bytes)
    → response (b ∷ t) info_hash ≡ ok peer_id
    → (b ≡ 19)
      × (take 19 t ≡ protocol)
      × (take 20 (drop 27 t) ≡ info_hash)
      × (take 20 (drop 47 t) ≡ peer_id)
unfolding response
accepted b t info_hash peer_id h =
    let (x, y, z, w) =
      gate (b == 19) (bytes_eq (take 19 t) protocol) (bytes_eq (take 20 (drop 27 t)) info_hash)
        (take 20 (drop 47 t)) peer_id h in
    (ground (arith, x), bytes_eq_sound _ _ y, bytes_eq_sound _ _ z, w)

accepted-handshake :
    (buf info_hash peer_id : Bytes)
    → length buf ≡ 68
    → response buf info_hash ≡ ok peer_id
    → (reserved : Bytes) × (length reserved ≡ 8)
      × (buf ≡ 19 ∷ protocol ++ (reserved ++ (info_hash ++ peer_id)))
accepted-handshake [] info_hash peer_id n h = absurd (omega arith)
accepted-handshake (b ∷ t) info_hash peer_id n h =
    let (first, name, hash, id) = accepted b t info_hash peer_id h in
    let len : length (drop 47 t) ≡ 20 = omega (arith, length-drop 47 t) in
    let last : drop 47 t ≡ peer_id = sym (take_all 20 (drop 47 t) (omega arith)) ∙ id in
    let third : drop 27 t ≡ info_hash ++ peer_id =
      sym (take-append-drop 20 (drop 27 t))
      ∙ rw hash (ap (λ x. info_hash ++ x) (drop-drop 20 27 t ∙ last)) in
    let second : drop 19 t ≡ take 8 (drop 19 t) ++ (info_hash ++ peer_id) =
      sym (take-append-drop 8 (drop 19 t))
      ∙ ap (λ x. take 8 (drop 19 t) ++ x) (drop-drop 8 19 t ∙ third) in
    let whole : t ≡ protocol ++ (take 8 (drop 19 t) ++ (info_hash ++ peer_id)) =
      sym (take-append-drop 19 t) ∙ rw name (ap (λ x. protocol ++ x) second) in
    (
      take 8 (drop 19 t),
      omega (arith, length-take 8 (drop 19 t), length-drop 19 t),
      rw first (ap (λ x. 19 ∷ x) whole),
    )

take_front : (n : ℕ) (xs ys : Bytes) → length xs ≡ n → take n (xs ++ ys) ≡ xs
take_front n xs ys e = ap (λ k. take k (xs ++ ys)) (sym e) ∙ take-append_left xs ys

drop_front : (n : ℕ) (xs ys : Bytes) → length xs ≡ n → drop n (xs ++ ys) ≡ ys
drop_front n xs ys e = ap (λ k. drop k (xs ++ ys)) (sym e) ∙ drop-append_left xs ys

handshake-accepted :
    (reserved info_hash peer_id : Bytes)
    → length reserved ≡ 8
    → length info_hash ≡ 20
    → length peer_id ≡ 20
    → response (19 ∷ protocol ++ (reserved ++ (info_hash ++ peer_id))) info_hash ≡ ok peer_id
unfolding response bytes_eq
handshake-accepted reserved info_hash peer_id r i p =
    let behind : drop 8 (reserved ++ (info_hash ++ peer_id)) ≡ info_hash ++ peer_id =
      drop_front 8 reserved (info_hash ++ peer_id) r in
    let later : drop 28 (reserved ++ (info_hash ++ peer_id)) ≡ peer_id =
      sym (drop-drop 20 8 (reserved ++ (info_hash ++ peer_id)))
      ∙ ap (drop 20) behind
      ∙ drop_front 20 info_hash peer_id i in
    rw
      (
        behind,
        take_front 20 info_hash peer_id i,
        bytes_eq_refl info_hash,
        later,
        take_all 20 peer_id (omega arith),
      )
      refl

-- A response of 68 bytes to a client of a torrent, whose digest has 20 bytes, is accepted with an id
-- exactly if it is the handshake of a client with this id for this torrent, whatever its eight
-- reserved bytes are.
pub response-ok :
    (buf info_hash peer_id : Bytes)
    → length buf ≡ 68
    → length info_hash ≡ 20
    → (response buf info_hash ≡ ok peer_id) ↔ (
        (reserved : Bytes) × (length reserved ≡ 8)
        × (buf ≡ 19 ∷ protocol ++ (reserved ++ (info_hash ++ peer_id))))
response-ok buf info_hash peer_id n i = (
  accepted-handshake buf info_hash peer_id n,
  λ (reserved, r, e).
      let whole : length (reserved ++ (info_hash ++ peer_id)) ≡ 48 =
        omega
          (arith, ap length e, n, length-append protocol (reserved ++ (info_hash ++ peer_id))) in
      let size : length peer_id ≡ 20 = omega (
        arith,
        whole,
        length-append reserved (info_hash ++ peer_id),
        length-append info_hash peer_id,
      ) in
      rw e (handshake-accepted reserved info_hash peer_id r i size),
)
