-- ===== src/Tracker/Http/Query.antt =====
-- The URL that the HTTP tracker is asked at, against a reader of query strings.
use motte_seed.Prelude.{
  ℕ, ◌+◌, ◌/◌, ◌%◌, ◌≡◌, ◌<◌, refl, sym, Bool, true, false, Option, none, some, List, [], ◌∷◌, ◌++◌,
  ◌&&◌, leb, ◌==◌, if◌then◌else◌, length, All, Bool-cases, inl, inr, arith, ok, Result-cases,
}
use motte_seed.Prelude.Text.{codes}
use motte_seed.Bytes.{Bytes, IsU8}
use motte_seed.Stats.{TorrentStats}
use motte_seed.Tracker.Http.{
  Web, AnnounceRequestHttp, is_unreserved, hex_digit, url_encode, contains, query_string,
  new_request, base_path, path_and_query_text,
}
use motte_seed.Tracker.Http.Encoding.{url_decode, url_decode-url_encode}

-- The text before the first `c`, and behind it.
abbrev pub cut : ℕ → Bytes → Bytes × Option Bytes
cut c [] = ([], none)
cut c (b ∷ text) =
    let (before, rest) = cut c text in if b == c then ([], some text) else (b ∷ before, rest)

abbrev cons_head : ℕ → List Bytes → List Bytes
cons_head b [] = (b ∷ []) ∷ []
cons_head b (part ∷ parts) = (b ∷ part) ∷ parts

-- The parts between the `&`.
abbrev pub fields : Bytes → List Bytes
fields [] = [] ∷ []
fields (b ∷ text) = let rest = fields text in if b == 38 then [] ∷ rest else cons_head b rest

abbrev cut_all : List Bytes → List (Bytes × Option Bytes)
cut_all [] = []
cut_all (part ∷ parts) = cut 61 part ∷ cut_all parts

-- The keys and values of a query.
abbrev pub parse_query : Bytes → List (Bytes × Option Bytes)
parse_query text = cut_all (fields text)

-- No byte is `c`.
abbrev Without : ℕ → Bytes → Type 0
Without c bytes = All (λ b. (b == c) ≡ false) bytes

fields-append :
    (part text : Bytes) → Without 38 part → fields (part ++ (38 ∷ text)) ≡ part ∷ fields text
fields-append [] text w = refl
fields-append (b ∷ part) text (n, w) = rw (n, fields-append part text w) refl

cut-append :
    (c : ℕ) (part text : Bytes) → Without c part → cut c (part ++ (c ∷ text)) ≡ (part, some text)
cut-append c [] text w = let same : (c == c) ≡ true = ground arith in rw same refl
cut-append c (b ∷ part) text (n, w) = rw (n, cut-append c part text w) refl

contains-Without : (c : ℕ) (bytes : Bytes) → Without c bytes → contains bytes c ≡ false
unfolding contains
contains-Without c [] w = refl
contains-Without c (b ∷ bytes) (n, w) = rw (n, contains, contains-Without c bytes w) refl

hex_digit-plain : (d : ℕ) → d < 16 → (hex_digit d == 38) ≡ false
unfolding hex_digit
hex_digit-plain d h = ground arith

unreserved-plain : (b : ℕ) → is_unreserved b ≡ true → (b == 38) ≡ false
unfolding is_unreserved
unreserved-plain b h = ground arith

-- No `&` in an encoded text.
url_encode-plain : (bytes : Bytes) → All IsU8 bytes → Without 38 (url_encode bytes)
unfolding url_encode
url_encode-plain [] a = tt
url_encode-plain (b ∷ bytes) (small, a) = elim (Bool-cases (is_unreserved b)) [
  | inl q ↦ rw (q, url_encode) (unreserved-plain b q, url_encode-plain bytes a)
  | inr q ↦
      rw (q, url_encode)
        (
          refl,
          (
            hex_digit-plain (b / 16) (omega arith),
            (hex_digit-plain (b % 16) (omega arith), url_encode-plain bytes a),
          ),
        )
]

digits-plain : (l : Bytes) → All (λ b. (leb 48 b && leb b 57) ≡ true) l → Without 38 l
digits-plain [] a = tt
digits-plain (b ∷ l) (d, a) = (ground arith, digits-plain l a)

fields-flag :
    (compact : Bool)
    → fields (if compact then 49 ∷ [] else 48 ∷ []) ≡ (if compact then 49 ∷ [] else 48 ∷ []) ∷ []
fields-flag true = refl
fields-flag false = refl

parse_query-query_string :
    (format : ℕ → Bytes) (r : AnnounceRequestHttp) (stats : TorrentStats)
    → ((n : ℕ) → Without 38 (format n))
    → Without 38 r.url_info_hash
    → Without 38 r.url_peer_id
    → parse_query (query_string format r stats)
      ≡ (codes "info_hash", some r.url_info_hash)
        ∷ (codes "peer_id", some r.url_peer_id)
        ∷ (codes "port", some (format r.port))
        ∷ (codes "uploaded", some (format stats.uploaded))
        ∷ (codes "downloaded", some (format stats.downloaded))
        ∷ (codes "left", some (format stats.left))
        ∷ (codes "compact", some (if r.compact then 49 ∷ [] else 48 ∷ []))
        ∷ []
unfolding query_string
parse_query-query_string format r stats digits hash id =
    rw
      (
        query_string,
        fields-append r.url_info_hash _ hash,
        fields-append r.url_peer_id _ id,
        fields-append (format r.port) _ (digits r.port),
        fields-append (format stats.uploaded) _ (digits stats.uploaded),
        fields-append (format stats.downloaded) _ (digits stats.downloaded),
        fields-append (format stats.left) _ (digits stats.left),
        fields-flag r.compact,
      )
      refl

module _ (web : Web) where
  base_path-Without : (p : Option (web.PathAndQuery)) → Without 63 (base_path web p)
  unfolding base_path
  base_path-Without none = (refl, tt)
  base_path-Without (some p) = web.path_lem p

  -- A request for a digest and a peer id of 8-bit bytes is sent for the path that the tracker's URL
  -- has, with its own query in place of any that the URL has: split at the `&` and at the `=`, it
  -- has the seven parameters of the protocol in this order, and the first two are percent-decoded to
  -- the digest and the peer id.
  pub path_and_query_text-parse_query :
      (tracker info_hash peer_id : Bytes) (port : ℕ) (compact : Bool) (stats : TorrentStats)
      (r : AnnounceRequestHttp) (p : Option (web.PathAndQuery))
      → All IsU8 info_hash
      → All IsU8 peer_id
      → new_request web tracker info_hash peer_id port compact ≡ ok r
      → (hash id query : Bytes) × (cut 63 (path_and_query_text web (base_path web p) r stats)
          ≡ (base_path web p, some query))
        × (parse_query query
            ≡ (codes "info_hash", some hash)
              ∷ (codes "peer_id", some id)
              ∷ (codes "port", some (web.format port))
              ∷ (codes "uploaded", some (web.format stats.uploaded))
              ∷ (codes "downloaded", some (web.format stats.downloaded))
              ∷ (codes "left", some (web.format stats.left))
              ∷ (codes "compact", some (if compact then 49 ∷ [] else 48 ∷ []))
              ∷ [])
        × (url_decode (length info_hash + 1) hash ≡ some info_hash)
        × (url_decode (length peer_id + 1) id ≡ some peer_id)
  unfolding new_request path_and_query_text
  path_and_query_text-parse_query tracker info_hash peer_id port compact stats r p small_hash
        small_id h =
      elim (Result-cases (web.from_utf8 tracker)) [
        | inr (e, k) ↦ cc (rw (k, new_request) at h)
        | inl (text, k) ↦
            let made : AnnounceRequestHttp = record {
              tracker = text;
              url_info_hash = url_encode info_hash;
              url_peer_id = url_encode peer_id;
              port = port;
              compact = compact;
            } in
            let same : made ≡ r = cc (rw (k, new_request) at h) in
            let parsed =
              parse_query-query_string web.format made stats
                (λ n. digits-plain (web.format n) (web.format_lem n))
                (url_encode-plain info_hash small_hash) (url_encode-plain peer_id small_id) in
            let text_cut =
              cut-append 63 (base_path web p) (query_string web.format made stats)
                (base_path-Without p) in
            let none_in = contains-Without 63 (base_path web p) (base_path-Without p) in
            (
              url_encode info_hash,
              url_encode peer_id,
              query_string web.format made stats,
              rw (sym same, path_and_query_text, none_in) text_cut,
              parsed,
              url_decode-url_encode info_hash (length info_hash + 1) small_hash (omega arith),
              url_decode-url_encode peer_id (length peer_id + 1) small_id (omega arith),
            )
      ]
