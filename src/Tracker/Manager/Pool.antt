-- ===== src/Tracker/Manager/Pool.antt =====
-- The pool of peers against the answers of the trackers.
use motte_seed.Prelude.{
  ℕ, ◌+◌, ◌≡◌, refl, ap, sym, ◌∙◌, Bool, ◌||◌, List, [], ◌∷◌, ◌++◌, ok, err, arith, Bool-cases,
  Result-cases, inl, inr,
}
use motte_seed.Bytes.{has, Bytes, bytes_eq, bytes_eq_sound}
use motte_seed.Bytes.Distinct.{IsDistinct, has-append}
use motte_seed.Stats.{TorrentStats}
use motte_seed.Util.Bencode.{Crate}
use motte_seed.Tracker.Http.{Web}
use motte_seed.Tracker.Udp.Client.{Net}
use motte_seed.Tracker.Factory
use motte_seed.Tracker.Factory.{Tracker, Moment}
use motte_seed.Tracker.Manager.{TrackerManager, insert, insert_all, poll, poll_all_trackers}

has-insert :
    (pool : List Bytes) (p peer : Bytes)
    → has (insert pool p) peer ≡ (bytes_eq p peer || has pool peer)
unfolding insert has
has-insert pool p peer = elim (Bool-cases (has pool p)) [
  | inr q ↦ rw (q, insert) refl
  | inl q ↦ elim (Bool-cases (bytes_eq p peer)) [
    | inl e ↦ let same : p ≡ peer = bytes_eq_sound p peer e in ground (arith, same)
    | inr e ↦ rw (q, insert, e) refl
  ]
]

has-insert_all :
    (peers pool : List Bytes) (peer : Bytes)
    → has (insert_all pool peers) peer ≡ (has peers peer || has pool peer)
unfolding insert_all has
has-insert_all [] pool peer = refl
has-insert_all (p ∷ peers) pool peer =
    ground (arith, has-insert_all peers (insert pool p) peer, has-insert pool p peer)

insert_all-kept : (peers pool : List Bytes) → IsDistinct pool → IsDistinct (insert_all pool peers)
unfolding insert_all insert
insert_all-kept [] pool s = s
insert_all-kept (p ∷ peers) pool s =
    insert_all-kept peers (insert pool p)
      (elim (Bool-cases (has pool p)) [ inl q ↦ rw (q, insert) s | inr q ↦ rw (q, insert) (q, s) ])

or_swap : (a b c : Bool) → (b || (a || c)) ≡ ((a || b) || c)
or_swap a b c = ground arith

module _ (web : Web) (crate : Crate) (net : Net) (moments : ℕ → Moment web crate net) where
  -- All the peers that the trackers give, from the i-th call on.
  abbrev pub answered : ℕ → List (Tracker net.SocketAddr) → TorrentStats → List Bytes
  answered i [] stats = []
  answered i (t ∷ trackers) stats =
      let rest = answered (i + 1) trackers stats in
      elim (Factory.get_peers web crate net (moments i) t stats).1 [
        | ok peers ↦ peers ++ rest
        | err _ ↦ rest
      ]

  poll-has :
      (i : ℕ) (trackers : List (Tracker net.SocketAddr)) (stats : TorrentStats) (pool : List Bytes)
      (peer : Bytes)
      → has (poll web crate net moments i trackers stats pool).1 peer
        ≡ (has (answered i trackers stats) peer || has pool peer)
  unfolding poll has
  poll-has i [] stats pool peer = refl
  poll-has i (t ∷ trackers) stats pool peer =
      elim (Result-cases ((Factory.get_peers web crate net (moments i) t stats).1)) [
        | inl (peers, e) ↦
            let rest = poll-has (i + 1) trackers stats (insert_all pool peers) peer in
            let ans : List Bytes = answered (i + 1) trackers stats in
            rw (poll, answered, e)
              (rest
                ∙ ap (λ x. has ans peer || x) (has-insert_all peers pool peer)
                ∙ or_swap (has peers peer) (has ans peer) (has pool peer)
                ∙ ap (λ x. x || has pool peer) (sym (has-append peers ans peer)))
        | inr (x, e) ↦ rw (poll, answered, e) (poll-has (i + 1) trackers stats pool peer)
      ]

  poll-IsDistinct :
      (i : ℕ) (trackers : List (Tracker net.SocketAddr)) (stats : TorrentStats) (pool : List Bytes)
      → IsDistinct pool
      → IsDistinct (poll web crate net moments i trackers stats pool).1
  unfolding poll
  poll-IsDistinct i [] stats pool s = s
  poll-IsDistinct i (t ∷ trackers) stats pool s =
      elim (Result-cases ((Factory.get_peers web crate net (moments i) t stats).1)) [
        | inl (peers, e) ↦
            rw (e, poll)
              (poll-IsDistinct (i + 1) trackers stats (insert_all pool peers)
                (insert_all-kept peers pool s))
        | inr (x, e) ↦ rw (e, poll) (poll-IsDistinct (i + 1) trackers stats pool s)
      ]

  -- After all trackers have been polled, a peer is in the pool exactly if it was there before or some
  -- tracker has given it, whatever the other trackers answered; and a pool without duplicates has
  -- none then.
  pub poll_all_trackers-pool :
      (m : TrackerManager (net.SocketAddr))
      → ((peer : Bytes)
          → has (poll_all_trackers web crate net moments m).peer_pool peer
            ≡ (has (answered 0 m.trackers m.stats) peer || has m.peer_pool peer))
        × (IsDistinct m.peer_pool
            → IsDistinct (poll_all_trackers web crate net moments m).peer_pool)
  unfolding poll_all_trackers
  poll_all_trackers-pool m = (
    (λ peer. poll-has 0 m.trackers m.stats m.peer_pool peer),
    λ s. poll-IsDistinct 0 m.trackers m.stats m.peer_pool s,
  )
