-- ===== src/Tracker/Http/Answers.antt =====
-- The answers of an HTTP tracker, and when it is asked.
use mathlib.Core.Path.{subst}
use motte_seed.Prelude.{◌<◌, ◌⊎◌, inl, inr, refl, ltb, true, false, Result-cases}
use motte_seed.Tracker.Http.{announce}
use motte_seed.Prelude.{
  ℕ, ◌-◌, ◌*◌, ◌/◌, ◌%◌, ◌^◌, ◌≡◌, ◌≤◌, ap, ◌∙◌, sym, some, List, length, All, arith, Result, ok,
  err, >>=-ok,
}
use motte_seed.Prelude.Text.{codes}
use motte_seed.Prelude.Int.{pos}
use motte_seed.Bytes.{Bytes}
use motte_seed.Stats.{TorrentStats}
use motte_seed.Util.Bencode.{
  Crate, find, get_struct, get_u64, get_str, get_struct_value, get_struct-ok, get_struct_value-ok,
  number, byte_string, dict, BencodeDecodableError,
}
use motte_seed.Tracker.Udp.{chunks}
use motte_seed.Tracker.Udp.Response.{join, join-chunks, chunks-sizes}
use motte_seed.Tracker.Error.{TrackerError, bencode_error}
use motte_seed.Tracker.Http.{
  Web, TrackerHttp, AnnounceResponseHttp, Fetch, to_peers, decode_response, announce_again,
  get_peers,
}

to_peers-ok :
    (interval : ℕ) (bytes : Bytes) {r : AnnounceResponseHttp}
    → to_peers interval bytes ≡ ok r
    → (r.interval ≡ interval) × (join r.peers ≡ bytes) × All (λ p. length p ≡ 6) r.peers
unfolding to_peers
to_peers-ok interval bytes {r = r} h =
    let whole : length bytes % 6 ≡ 0 = ground arith in
    let n : length bytes ≡ length bytes / 6 * 6 = omega arith in
    let e : r.peers ≡ chunks (length bytes / 6) bytes = ground arith in
    (ground arith, ap join e ∙ join-chunks _ bytes n, rw e (chunks-sizes _ bytes n))

module _ (web : Web) (crate : Crate) where
  open crate use {Bencode, view}

  get_u64-ok : (b : Bencode) {n : ℕ} → get_u64 crate b ≡ ok n → view b ≡ number (pos n)
  unfolding get_u64
  get_u64-ok b h = ground arith

  get_str-ok :
      (b : Bencode) {bytes : Bytes} → get_str crate b ≡ ok bytes → view b ≡ byte_string bytes
  unfolding get_str
  get_str-ok b h = ground arith

  -- An answer that is accepted is a dictionary with a number that is not negative under `interval`,
  -- which is the interval, and a byte string under `peers`, which the peers, of six bytes each, give
  -- back one after the other.
  pub decode_response-ok :
      (b : Bencode) (r : AnnounceResponseHttp)
      → decode_response web crate b ≡ ok r
      → (m : List (Bytes × Bencode)) × (interval peers : Bencode) × (view b ≡ dict m)
        × (find m (codes "interval") ≡ some interval)
        × (view interval ≡ number (pos r.interval))
        × (find m (codes "peers") ≡ some peers)
        × (view peers ≡ byte_string (join r.peers))
        × All (λ p. length p ≡ 6) r.peers
  unfolding decode_response
  decode_response-ok b r h =
      let (m, e, h1) = >>=-ok (get_struct crate b) _ h in
      let (iv, e1, h2) = >>=-ok (get_struct_value "interval" m) _ h1 in
      let (n, e2, h3) = >>=-ok (get_u64 crate iv) _ h2 in
      let (pv, e3, h4) = >>=-ok (get_struct_value "peers" m) _ h3 in
      let (bytes, e4, h5) = >>=-ok (get_str crate pv) _ h4 in
      let (same, joined, sizes) = to_peers-ok n bytes h5 in
      (
        m,
        iv,
        pv,
        get_struct-ok crate b e,
        get_struct_value-ok "interval" m e1,
        get_u64-ok iv e2 ∙ ap (λ k. number (pos k)) (sym same),
        get_struct_value-ok "peers" m e3,
        get_str-ok pv e4 ∙ ap byte_string (sym joined),
        sizes,
      )

  -- What `get_peers` makes of an announce.
  abbrev settle :
      TrackerHttp × Result Bencode TrackerError → TrackerHttp × Result (List Bytes) TrackerError
  settle p = elim p.1 [
    | err e ↦ (p.0, err e)
    | ok answer ↦ elim (decode_response web crate answer) [
      | err e ↦ (p.0, err (bencode_error e))
      | ok response ↦ (record (p.0) { response = response }, ok response.peers)
    ]
  ]

  get_peers-within :
      (fetch : Fetch web crate) (t : TrackerHttp) (stats : TorrentStats) (now later : ℕ)
      → (now - t.last_announce) / 10 ^ 9 ≤ (t.response).interval
      → get_peers web crate fetch t stats now later ≡ (t, ok (t.response).peers)
  unfolding get_peers
  get_peers-within fetch t stats now later h =
      let q : ltb (t.response).interval ((now - t.last_announce) / 10 ^ 9) ≡ false = ground arith in
      rw (q, get_peers) refl

  -- What a call that asks the tracker leaves: nothing new without an answer; the response and its
  -- time with one; only its time with one that cannot be decoded.
  abbrev IsAsked :
      Fetch web crate
      → TrackerHttp
      → TorrentStats
      → ℕ
      → TrackerHttp × Result (List Bytes) TrackerError
      → Type 0
  IsAsked fetch t stats later (u, result) =
      ((e : TrackerError) × (announce web crate fetch t.request stats ≡ err e)
        × (result ≡ err e)
        × (u ≡ t))
      ⊎ ((answer : Bencode) × (announce web crate fetch t.request stats ≡ ok answer)
          × (u.request ≡ t.request)
          × (u.last_announce ≡ later)
          × (((decode_response web crate answer ≡ ok u.response) × (result ≡ ok (u.response).peers))
              ⊎ ((e : BencodeDecodableError) × (decode_response web crate answer ≡ err e)
                  × (result ≡ err (bencode_error e))
                  × (u.response ≡ t.response))))

  get_peers-IsAsked :
      (fetch : Fetch web crate) (t : TrackerHttp) (stats : TorrentStats) (now later : ℕ)
      → (t.response).interval < (now - t.last_announce) / 10 ^ 9
      → IsAsked fetch t stats later (get_peers web crate fetch t stats now later)
  unfolding get_peers announce_again
  get_peers-IsAsked fetch t stats now later passed =
      let q : ltb (t.response).interval ((now - t.last_announce) / 10 ^ 9) ≡ true = ground arith in
      let passes : get_peers web crate fetch t stats now later
          ≡ settle (announce_again web crate fetch t stats later) =
        rw (q, get_peers) refl in
      let at : TrackerHttp × Result (List Bytes) TrackerError → Type 0 =
        IsAsked fetch t stats later in
      elim (Result-cases (announce web crate fetch t.request stats)) [
        | inr (e, g) ↦
            let a : announce_again web crate fetch t stats later ≡ (t, err e) =
              rw (g, announce_again) refl in
            subst at (sym (passes ∙ ap settle a)) (inl (e, g, refl, refl))
        | inl (answer, g) ↦
            let y : TrackerHttp = record t { last_announce = later } in
            let a : announce_again web crate fetch t stats later ≡ (y, ok answer) =
              rw (g, announce_again) refl in
            elim (Result-cases (decode_response web crate answer)) [
              | inr (e, d) ↦
                  let b : settle (y, ok answer) ≡ (y, err (bencode_error e)) =
                    rw (d, settle) refl in
                  subst at (sym (passes ∙ ap settle a ∙ b))
                    (inr (answer, g, refl, refl, inr (e, d, refl, refl)))
              | inl (r, d) ↦
                  let b : settle (y, ok answer) ≡ (record y { response = r }, ok r.peers) =
                    rw (d, settle) refl in
                  subst at (sym (passes ∙ ap settle a ∙ b))
                    (inr (answer, g, refl, refl, inl (d, refl)))
            ]
      ]

  -- A call after the interval has passed, and any other call within the interval of the response that
  -- is then held, counted from the end of the first. Either the announce of the first fails; then the
  -- first fails with its error, and leaves the tracker as it was. Or it has an answer, and then the
  -- other call gives the peers of the response that is held and leaves the tracker, whatever the
  -- network does then. The response that is held is the answer's, and the first call gives its peers;
  -- or the answer cannot be decoded, the first fails with the decoder's error, and it is the older one.
  pub get_peers_again :
      (fetch fetch' : Fetch web crate) (t u : TrackerHttp) (stats stats' : TorrentStats)
      (now later now' later' : ℕ) (result : Result (List Bytes) TrackerError)
      → (t.response).interval < (now - t.last_announce) / 10 ^ 9
      → get_peers web crate fetch t stats now later ≡ (u, result)
      → (now' - later) / 10 ^ 9 ≤ (u.response).interval
      → ((e : TrackerError) × (announce web crate fetch t.request stats ≡ err e)
          × (result ≡ err e)
          × (u ≡ t))
        ⊎ ((answer : Bencode) × (announce web crate fetch t.request stats ≡ ok answer)
            × (u.request ≡ t.request)
            × (get_peers web crate fetch' u stats' now' later' ≡ (u, ok (u.response).peers))
            × (((decode_response web crate answer ≡ ok u.response)
                  × (result ≡ ok (u.response).peers))
                ⊎ ((e : BencodeDecodableError) × (decode_response web crate answer ≡ err e)
                    × (result ≡ err (bencode_error e))
                    × (u.response ≡ t.response))))
  get_peers_again fetch fetch' t u stats stats' now later now' later' result passed h within =
      elim (subst (IsAsked fetch t stats later) h
        (get_peers-IsAsked fetch t stats now later passed)) [
          | inl failed ↦ inl failed
          | inr (answer, came, request, last, out) ↦ inr (
            answer,
            came,
            request,
            get_peers-within fetch' u stats' now' later'
                (subst (λ x. (now' - x) / 10 ^ 9 ≤ (u.response).interval) (sym last) within),
            out,
          )
        ]
