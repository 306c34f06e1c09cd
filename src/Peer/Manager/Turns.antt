-- ===== src/Peer/Manager/Turns.antt =====
-- One turn of a task's loop, and the order of the events.
use mathlib.Core.Path.{subst}
use motte_seed.Prelude.{
  ℕ, zero, suc, ◌≡◌, refl, sym, ◌∙◌, Bool, true, false, some, List, [], ◌∷◌, ◌++◌, All, arith,
  Bool-cases, inl, inr, append_assoc, append-nil, get_elem?, ◌⊎◌, List-cases,
}
use motte_seed.Bytes.{bytes_eq, bytes_eq_refl, has}
use motte_seed.Peer.Block.{PeerIp}
use motte_seed.Peer.Connection.{PeerEvent}
use motte_seed.Peer.Manager.{Task, update, forward}
use motte_seed.Bytes.Distinct.{IsDistinct, bytes_eq_sym}
use motte_seed.Peer.Manager.Steps.{ips, from_peer, IsOrdered}

module _ {F : Type 0} where
  from_peer-append :
      (ip : PeerIp) (a b : List (PeerEvent F × PeerIp))
      → from_peer ip (a ++ b) ≡ from_peer ip a ++ from_peer ip b
  from_peer-append ip [] b = refl
  from_peer-append ip ((event, k) ∷ a) b = elim (Bool-cases (bytes_eq k ip)) [
    | inl q ↦ rw (q, from_peer-append ip a b) refl
    | inr q ↦ rw (q, from_peer-append ip a b) refl
  ]

  has-get_elem? :
      (tasks : List (Task F)) (n : ℕ) {t : Task F} (ip : PeerIp)
      → get_elem? tasks n ≡ some t
      → has (ips tasks) ip ≡ false
      → bytes_eq t.ip ip ≡ false
  unfolding has
  has-get_elem? [] n ip e h = cc e
  has-get_elem? (u ∷ tasks) zero {t = t} ip e h =
      let same : u ≡ t = cc e in
      subst (λ (x : Task F). bytes_eq x.ip ip ≡ false) same (ground arith)
  has-get_elem? (u ∷ tasks) (suc n) ip e h = has-get_elem? tasks n ip e (ground arith)

  module _ (receiving : Bool) where
    -- What one turn does.
    pub forward_turn :
        (t : Task F)
        → ((forward receiving t).0.ip ≡ t.ip)
          × ((forward receiving t).0.emitted ≡ t.emitted)
          × ((((forward receiving t).1 ≡ [])
                × ((forward receiving t).0.forwarding ≡ true
                    → (forward receiving t).0.events ≡ t.events))
              ⊎ ((event : PeerEvent F) × (rest : List (PeerEvent F)) × (t.events ≡ event ∷ rest)
                  × ((forward receiving t).0.events ≡ rest)
                  × ((forward receiving t).1 ≡ (event, t.ip) ∷ [])))
    unfolding forward
    forward_turn t = (
      ground arith,
      ground arith,
      elim (List-cases t.events) [
        | inl e ↦ inl (ground arith, λ h. ground arith)
        | inr (event, rest, e) ↦ elim (Bool-cases receiving) [
          | inl r ↦ inr (event, rest, e, ground arith, ground arith)
          | inr r ↦ inl (ground arith, λ h. ground arith)
        ]
      ],
    )

    forward-other :
        (log : List (PeerEvent F × PeerIp)) (t u : Task F)
        → bytes_eq t.ip u.ip ≡ false
        → IsOrdered log u
        → IsOrdered (log ++ (forward receiving t).1) u
    forward-other log t u d s =
        let (ip, emitted, turn) = forward_turn t in
        let same : from_peer u.ip (log ++ (forward receiving t).1) ≡ from_peer u.ip log =
          elim turn [
            | inl (e, h) ↦ rw (e, append-nil log) refl
            | inr (event, rest, e, q, out) ↦
                rw (out, from_peer-append u.ip log ((event, t.ip) ∷ []), d)
                  (append-nil (from_peer u.ip log))
          ] in
        let (rest, p) = s.prefix in
        record { prefix = (rest, rw same p); waiting = λ h. rw same (s.waiting h) }

    forward-IsOrdered :
        (log : List (PeerEvent F × PeerIp)) (t : Task F)
        → t.forwarding ≡ true
        → IsOrdered log t
        → IsOrdered (log ++ (forward receiving t).1) (forward receiving t).0
    forward-IsOrdered log t f s =
        let (ip, emitted, turn) = forward_turn t in
        let u : Task F = (forward receiving t).0 in
        elim turn [
          | inl (e, h) ↦
              let same : log ++ (forward receiving t).1 ≡ log = rw e (append-nil log) in
              let (rest, p) = s.prefix in
              subst (λ l. IsOrdered l u) (sym same)
                (record {
                  prefix = (rest, rw (ip, emitted) p);
                  waiting = λ k. rw (ip, emitted, h k) (s.waiting f);
                })
          | inr (event, rest, e, q, out) ↦
              let own : bytes_eq t.ip t.ip ≡ true = bytes_eq_refl t.ip in
              let grown : from_peer t.ip (log ++ (forward receiving t).1)
                  ≡ from_peer t.ip log ++ (event ∷ []) =
                rw (out, from_peer-append t.ip log ((event, t.ip) ∷ []), own) refl in
              let whole : (from_peer t.ip log ++ (event ∷ [])) ++ rest ≡ t.emitted =
                append_assoc (from_peer t.ip log) (event ∷ []) rest ∙ (rw e at (s.waiting f)) in
              record {
                prefix = (rest, rw (ip, emitted, grown) whole);
                waiting = λ k. rw (ip, emitted, q, grown) whole;
              }
        ]

    others :
        (log : List (PeerEvent F × PeerIp)) (tasks : List (Task F)) (t : Task F)
        → has (ips tasks) t.ip ≡ false
        → All (IsOrdered log) tasks
        → All (IsOrdered (log ++ (forward receiving t).1)) tasks
    unfolding has
    others log [] t d a = tt
    others log (u ∷ tasks) t d a = (
      forward-other log t u (bytes_eq_sym u.ip t.ip (ground arith)) a.0,
      others log tasks t (ground arith) a.1,
    )

    pub turn-IsOrdered :
        (log : List (PeerEvent F × PeerIp)) (tasks : List (Task F)) (n : ℕ) (t : Task F)
        → get_elem? tasks n ≡ some t
        → t.forwarding ≡ true
        → IsDistinct (ips tasks)
        → All (IsOrdered log) tasks
        → All
            (IsOrdered (log ++ (forward receiving t).1))
            (update tasks n (λ u. (forward receiving u).0))
    unfolding update
    turn-IsOrdered log [] n t e f d a = tt
    turn-IsOrdered log (u ∷ tasks) zero t e f d a =
        let same : u ≡ t = cc e in
        let out : List (PeerEvent F × PeerIp) = (forward receiving t).1 in
        (
          rw same (forward-IsOrdered log t f (subst (IsOrdered log) same a.0)),
          others log tasks t (subst (λ (x : Task F). has (ips tasks) x.ip ≡ false) same d.0) a.1,
        )
    turn-IsOrdered log (u ∷ tasks) (suc n) t e f d a = (
      forward-other log t u (has-get_elem? tasks n u.ip e d.0) a.0,
      turn-IsOrdered log tasks n t e f d.1 a.1,
    )
