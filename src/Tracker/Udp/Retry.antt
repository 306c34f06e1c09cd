-- ===== src/Tracker/Udp/Retry.antt =====
-- The tries of an exchange with the tracker.
use motte_seed.Prelude.{
  ℕ, zero, suc, ◌+◌, ◌≡◌, ◌≤◌, ◌<◌, refl, ap, ◌∙◌, Bool, true, none, ok, Result, ◌⊎◌, inl, inr,
  arith, Bool-cases, Option-cases, Result-cases,
}
use motte_seed.Bytes.{Bytes}
use motte_seed.Tracker.Error.{TrackerError}
use motte_seed.Tracker.Udp.{
  AnnounceResponse, Round, Reply, timed_out, failed, datagram, exchange, announce,
  recv_announce_response, is_announce, max_retries, AnnounceRequest, to_bytes, announce_message,
  announce_from_bytes,
}
use motte_seed.Bytes.{u32_at, at}
use motte_seed.Prelude.{take, [], ◌∷◌, ltb, length, sym}

-- A round in which no answer to this request comes in time.
abbrev pub IsLost : (Round → Bytes) → Round → Type 0
IsLost message round =
    (round.send_error (message round) ≡ none) × (round.reply (message round) ≡ timed_out)

module _ {R : Type 0} (message : Round → Bytes) (recv : Bytes → Result R TrackerError)
    (matches : R → ℕ → Bool) where
  -- A round that gives this answer to the request.
  abbrev pub Answers : Round → R → Type 0
  Answers round response =
      (bytes : Bytes) × (round.send_error (message round) ≡ none)
      × (round.reply (message round) ≡ datagram bytes)
      × (recv bytes ≡ ok response)
      × (matches response round.transaction_id ≡ true)

  Reply-cases :
      (r : Reply)
      → (r ≡ timed_out)
        ⊎ (((text : _) × (r ≡ failed text)) ⊎ ((bytes : Bytes) × (r ≡ datagram bytes)))
  Reply-cases timed_out = inl refl
  Reply-cases (failed text) = inr (inl (text, refl))
  Reply-cases (datagram bytes) = inr (inr (bytes, refl))

  exchange-Answers :
      (tries i : ℕ) (rounds : ℕ → Round) (response : R)
      → exchange message recv matches tries i rounds ≡ ok response
      → (j : ℕ) × (i ≤ j) × (j < i + tries) × Answers (rounds j) response
  unfolding exchange
  exchange-Answers zero i rounds response h = cc
  exchange-Answers (suc tries) i rounds response h =
      let later : (exchange message recv matches tries (i + 1) rounds ≡ ok response)
          → (j : ℕ) × (i ≤ j) × (j < i + suc tries) × Answers (rounds j) response =
        λ e.
          let (j, l, u, a) = exchange-Answers tries (i + 1) rounds response e in
          (j, omega arith, omega arith, a) in
      elim (Option-cases ((rounds i).send_error (message (rounds i)))) [
        | inr (x, s) ↦ cc (rw (s, exchange) at h)
        | inl s ↦ elim (Reply-cases ((rounds i).reply (message (rounds i)))) [
          | inl t ↦ later (rw (s, t, exchange) at h)
          | inr (inl (x, t)) ↦ cc (rw (s, t, exchange) at h)
          | inr (inr (bytes, t)) ↦ elim (Result-cases (recv bytes)) [
            | inr (e, q) ↦ cc (rw (s, t, q, exchange) at h)
            | inl (r, q) ↦ elim (Bool-cases (matches r ((rounds i).transaction_id))) [
              | inl m ↦
                  let same : r ≡ response = cc (rw (s, t, q, m, exchange) at h) in
                  (i, omega arith, omega arith, (bytes, s, t, q ∙ ap ok same, rw same at m))
              | inr m ↦ later (rw (s, t, q, m, exchange) at h)
            ]
          ]
        ]
      ]

  exchange-lost :
      (k tries i : ℕ) (rounds : ℕ → Round) (response : R)
      → k < tries
      → ((j : ℕ) → i ≤ j → j < i + k → IsLost message (rounds j))
      → Answers (rounds (i + k)) response
      → exchange message recv matches tries i rounds ≡ ok response
  unfolding exchange
  exchange-lost k zero i rounds response h l a = absurd (omega arith)
  exchange-lost zero (suc tries) i rounds response h l a =
      let e : i + 0 ≡ i = omega arith in
      let (bytes, s, t, q, m) = rw e at a in rw (s, t, q, m, exchange) refl
  exchange-lost (suc k) (suc tries) i rounds response h l a =
      let (s, t) = l i (omega arith) (omega arith) in
      let e : i + suc k ≡ i + 1 + k = omega arith in
      rw (s, t, exchange)
        (exchange-lost k tries (i + 1) rounds response (omega arith)
          (λ j g u. l j (omega arith) (omega arith)) (rw e at a))

at-take : (bytes : Bytes) (n i : ℕ) → i < n → at (take n bytes) i ≡ at bytes i
at-take bytes zero i h = absurd (omega arith)
at-take [] (suc n) i h = refl
at-take (b ∷ bytes) (suc n) zero h = refl
at-take (b ∷ bytes) (suc n) (suc i) h = at-take bytes n i (omega arith)

u32_at-take : (bytes : Bytes) (n i : ℕ) → i + 3 < n → u32_at (take n bytes) i ≡ u32_at bytes i
u32_at-take bytes n i h =
    rw
      (
        at-take bytes n i (omega arith),
        at-take bytes n (i + 1) (omega arith),
        at-take bytes n (i + 2) (omega arith),
        at-take bytes n (i + 3) (omega arith),
      )
      refl

announce_from_bytes-ids :
    (bytes : Bytes) (response : AnnounceResponse)
    → announce_from_bytes bytes ≡ ok response
    → (response.action ≡ u32_at bytes 0) × (response.transaction_id ≡ u32_at bytes 4)
unfolding announce_from_bytes
announce_from_bytes-ids bytes response h = ground arith

recv-announce_from_bytes :
    (bytes : Bytes) (response : AnnounceResponse)
    → recv_announce_response bytes ≡ ok response
    → announce_from_bytes (take 1024 bytes) ≡ ok response
unfolding recv_announce_response
recv-announce_from_bytes bytes response h = elim (Bool-cases (ltb (length (take 1024 bytes)) 20)) [
  | inl q ↦ cc (rw (q, recv_announce_response) at h)
  | inr q ↦ rw (q, recv_announce_response) at h
]

received :
    (bytes : Bytes) (response : AnnounceResponse) (transaction_id : ℕ)
    → recv_announce_response bytes ≡ ok response
    → is_announce response transaction_id ≡ true
    → (announce_from_bytes (take 1024 bytes) ≡ ok response)
      × (u32_at bytes 0 ≡ 1)
      × (u32_at bytes 4 ≡ transaction_id)
received bytes response transaction_id q m =
    let decoded = recv-announce_from_bytes bytes response q in
    let (a, t) = announce_from_bytes-ids (take 1024 bytes) response decoded in
    let action : response.action ≡ 1 = ground arith in
    let transaction : response.transaction_id ≡ transaction_id = ground arith in
    (
      decoded,
      sym (u32_at-take bytes 1024 0 (omega arith)) ∙ sym a ∙ action,
      sym (u32_at-take bytes 1024 4 (omega arith)) ∙ sym t ∙ transaction,
    )

-- An announce that succeeds has its response from one of at most three rounds: it is the decoded
-- datagram, cut to 1024 bytes, that came in that round after the request with the round's transaction
-- id, and the datagram starts with the action 1 and the same transaction id, as 32-bit numbers.
pub announce-Answers :
    (request : AnnounceRequest) (id : ℕ) (rounds : ℕ → Round) (response : AnnounceResponse)
    → announce request id rounds ≡ ok response
    → (j : ℕ) × (bytes : Bytes) × (j < 3)
      × ((rounds j).reply (to_bytes request (rounds j).stats id (rounds j).transaction_id)
          ≡ datagram bytes)
      × (announce_from_bytes (take 1024 bytes) ≡ ok response)
      × (u32_at bytes 0 ≡ 1)
      × (u32_at bytes 4 ≡ (rounds j).transaction_id)
unfolding announce
announce-Answers request id rounds response h =
    let (j, l, u, (bytes, s, t, q, m)) =
      exchange-Answers (announce_message request id) recv_announce_response is_announce max_retries
        0 rounds response h in
    let (decoded, action, transaction) = received bytes response (rounds j).transaction_id q m in
    (j, bytes, omega arith, t, decoded, action, transaction)

-- One or two answers that do not come in time do no harm: where the first rounds time out, fewer than
-- three, and the next gives an answer that fits its request, the announce succeeds with it.
pub announce_lost :
    (request : AnnounceRequest) (id k : ℕ) (rounds : ℕ → Round) (response : AnnounceResponse)
    → k < 3
    → ((j : ℕ) → j < k → IsLost (announce_message request id) (rounds j))
    → Answers (announce_message request id) recv_announce_response is_announce (rounds k) response
    → announce request id rounds ≡ ok response
unfolding announce
announce_lost request id k rounds response h l a =
    let e : k ≡ 0 + k = omega arith in
    exchange-lost (announce_message request id) recv_announce_response is_announce k max_retries 0
      rounds response (omega arith) (λ j g u. l j (omega arith)) (rw e at a)
