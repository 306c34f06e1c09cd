-- ===== src/Tracker/Udp/Interval.antt =====
-- When a tracker is asked again, and what that changes.
use mathlib.Core.Path.{ap, subst}
use motte_seed.Prelude.{
  ◌*◌, leb, Bool-cases, none, some, ◌∙◌, sym, Result-cases, inl, inr, Option-cases, err, true, ◌⊎◌,
  ◌<◌, List, Result, ℕ, ◌-◌, ◌/◌, ◌^◌, ◌≡◌, ◌≤◌, ok, arith, refl, ltb, false,
}
use motte_seed.Tracker.Udp.{
  AnnounceResponse, announce, get_connection_id, connection_expiry, TrackerError, Bytes, Round,
}
use motte_seed.Tracker.Udp.Client.{
  refresh_connection, current_connection, announce_again, TrackerUdp, get_peers,
}

-- The peers that are held, within the interval.
get_peers-within :
    {A : Type 0} (t : TrackerUdp A) (connects announces : A → ℕ → Round) (now later : ℕ)
    → (now - t.last_announce) / 10 ^ 9 ≤ (t.announce_response).interval
    → get_peers t connects announces now later ≡ (t, ok (t.announce_response).peers)
unfolding get_peers
get_peers-within t connects announces now later h =
    let q : ltb (t.announce_response).interval ((now - t.last_announce) / 10 ^ 9) ≡ false =
      ground arith in
    rw (q, get_peers) refl

-- A refreshed connection keeps its time, the last announce and the response.
current_connection_lem :
    {A : Type 0} (t : TrackerUdp A) (connects : A → ℕ → Round) (now : ℕ)
    → ((current_connection t connects now).0.connection_time ≡ t.connection_time)
      × ((current_connection t connects now).0.last_announce ≡ t.last_announce)
      × ((current_connection t connects now).0.announce_response ≡ t.announce_response)
unfolding current_connection refresh_connection
current_connection_lem t connects now = ground arith

-- The connection id that is held is used for two minutes, and then a new one is asked for.
abbrev pub IsConnected : {A : Type 0} → TrackerUdp A → (A → ℕ → Round) → ℕ → TrackerUdp A → Type 0
IsConnected t connects now u =
    ((now - t.connection_time < 120 * 10 ^ 9) × (u.connection_id ≡ t.connection_id))
    ⊎ ((120 * 10 ^ 9 ≤ now - t.connection_time)
        × (get_connection_id (connects t.server_addr) ≡ ok u.connection_id))

abbrev pub IsRefused : {A : Type 0} → TrackerUdp A → (A → ℕ → Round) → ℕ → TrackerError → Type 0
IsRefused t connects now e =
    (120 * 10 ^ 9 ≤ now - t.connection_time) × (get_connection_id (connects t.server_addr) ≡ err e)

current_connection-cases :
    {A : Type 0} (t : TrackerUdp A) (connects : A → ℕ → Round) (now : ℕ)
    → ((current_connection t connects now).1 ≡ none
        → IsConnected t connects now ((current_connection t connects now).0))
      × ((e : TrackerError)
          → (current_connection t connects now).1 ≡ some e
          → IsRefused t connects now e)
unfolding current_connection refresh_connection
current_connection-cases t connects now =
    elim (Bool-cases (leb connection_expiry (now - t.connection_time))) [
      | inr q ↦ rw (q, current_connection) ((λ h. inl (ground arith, refl)), λ e h. cc h)
      | inl q ↦
          let old : 120 * 10 ^ 9 ≤ now - t.connection_time = ground arith in
          elim (Result-cases (get_connection_id (connects t.server_addr))) [
            | inl (id, g) ↦
                rw (q, g, current_connection, refresh_connection)
                  ((λ h. inr (old, refl)), λ e h. cc h)
            | inr (x, g) ↦
                rw (q, g, current_connection, refresh_connection)
                  ((λ h. cc h), λ e h. let same : x ≡ e = cc h in (old, ap err same))
          ]
    ]

-- What `get_peers` makes of an announce.
abbrev settle :
    {A : Type 0}
    → TrackerUdp A × Result AnnounceResponse TrackerError
    → TrackerUdp A × Result (List Bytes) TrackerError
settle p = elim p.1 [
  | err e ↦ (p.0, err e)
  | ok response ↦ (record (p.0) { announce_response = response }, ok response.peers)
]

-- What a call that asks the tracker leaves.
module _ {A : Type 0} (t : TrackerUdp A) (connects announces : A → ℕ → Round) (now : ℕ) where
  abbrev IsAnswered : TrackerUdp A → ℕ → Result (List Bytes) TrackerError → Type 0
  IsAnswered u later result =
      (u.connection_time ≡ t.connection_time)
      × (((result ≡ ok (u.announce_response).peers)
            × (u.last_announce ≡ later)
            × IsConnected t connects now u
            × (announce t.announce_request u.connection_id (announces t.server_addr)
                ≡ ok u.announce_response))
          ⊎ ((e : TrackerError) × (result ≡ err e)
              × (u.last_announce ≡ t.last_announce)
              × (u.announce_response ≡ t.announce_response)
              × (IsRefused t connects now e
                  ⊎ (IsConnected t connects now u
                      × (announce t.announce_request u.connection_id (announces t.server_addr)
                          ≡ err e)))))

  kept :
      {u v : TrackerUdp A} {later : ℕ} {result answer : Result (List Bytes) TrackerError}
      → ◌≡◌ {A = TrackerUdp A × Result (List Bytes) TrackerError} (v, answer) (u, result)
      → IsAnswered v later answer
      → IsAnswered u later result
  kept {later = later} e a =
      subst (λ (z : TrackerUdp A × Result (List Bytes) TrackerError). IsAnswered z.0 later z.1) e a

  get_peers-asked :
      (u : TrackerUdp A) (later : ℕ) (result : Result (List Bytes) TrackerError)
      → (t.announce_response).interval < (now - t.last_announce) / 10 ^ 9
      → get_peers t connects announces now later ≡ (u, result)
      → IsAnswered u later result
  unfolding get_peers announce_again
  get_peers-asked u later result passed h =
      let q : ltb (t.announce_response).interval ((now - t.last_announce) / 10 ^ 9) ≡ true =
        ground arith in
      let (time, last, response) = current_connection_lem t connects now in
      let passes : get_peers t connects announces now later
          ≡ settle (announce_again t connects announces now later) =
        rw (q, get_peers) refl in
      let x = current_connection t connects now in
      let out = current_connection-cases t connects now in
      elim (Option-cases x.1) [
        | inr (e, c) ↦
            let a : announce_again t connects announces now later ≡ (x.0, err e) =
              rw (c, announce_again) refl in
            let b : get_peers t connects announces now later ≡ (x.0, err e) =
              passes ∙ ap settle a in
            kept (sym b ∙ h) (time, inr (e, refl, last, response, inl (out.1 e c)))
        | inl c ↦
            elim (Result-cases
              (announce t.announce_request (x.0).connection_id (announces t.server_addr))) [
                | inr (e, g) ↦
                    let a : announce_again t connects announces now later ≡ (x.0, err e) =
                      rw (c, g, announce_again) refl in
                    let b : get_peers t connects announces now later ≡ (x.0, err e) =
                      passes ∙ ap settle a in
                    kept (sym b ∙ h) (time, inr (e, refl, last, response, inr (out.0 c, g)))
                | inl (r, g) ↦
                    let y : TrackerUdp A = record (x.0) { last_announce = later } in
                    let a : announce_again t connects announces now later ≡ (y, ok r) =
                      rw (c, g, announce_again) refl in
                    let b : get_peers t connects announces now later
                        ≡ (record y { announce_response = r }, ok r.peers) =
                      passes ∙ ap settle a in
                    kept (sym b ∙ h) (time, inl (refl, refl, out.0 c, g))
              ]
      ]

-- A call after the interval has passed, and any other call within the interval of the response that
-- is then held, counted from the end of the first. Either the first call gives the peers of the answer
-- to its announce, and then the other gives the same peers and leaves the tracker, whatever the
-- network does then. Or it fails, with the error of its announce or of the request for a new connection
-- id, and then the time and the response are the old ones. The announce has the connection id that is
-- held, if two minutes have not passed since the time of the connection, and a new one otherwise.
-- That time stays in either case, also with a new connection id.
pub get_peers_next :
    {A : Type 0} (t u : TrackerUdp A) (connects announces connects' announces' : A → ℕ → Round)
    (now later now' later' : ℕ) (result : Result (List Bytes) TrackerError)
    → (t.announce_response).interval < (now - t.last_announce) / 10 ^ 9
    → get_peers t connects announces now later ≡ (u, result)
    → (now' - later) / 10 ^ 9 ≤ (u.announce_response).interval
    → (u.connection_time ≡ t.connection_time)
      × (((peers : List Bytes) × (result ≡ ok peers)
            × (get_peers u connects' announces' now' later' ≡ (u, ok peers))
            × IsConnected t connects now u
            × (announce t.announce_request u.connection_id (announces t.server_addr)
                ≡ ok u.announce_response)
            × (peers ≡ (u.announce_response).peers))
          ⊎ ((e : TrackerError) × (result ≡ err e)
              × (u.last_announce ≡ t.last_announce)
              × (u.announce_response ≡ t.announce_response)
              × (IsRefused t connects now e
                  ⊎ (IsConnected t connects now u
                      × (announce t.announce_request u.connection_id (announces t.server_addr)
                          ≡ err e)))))
get_peers_next t u connects announces connects' announces' now later now' later' result passed h
      within =
    let (time, out) = get_peers-asked t connects announces now u later result passed h in
    (
      time,
      elim out [
        | inl (answered, last, connected, came) ↦ inl (
          (u.announce_response).peers,
          answered,
          get_peers-within u connects' announces' now' later'
              (subst (λ x. (now' - x) / 10 ^ 9 ≤ (u.announce_response).interval) (sym last) within),
          connected,
          came,
          refl,
        )
        | inr failed ↦ inr failed
      ],
    )
