-- ===== src/Peer/Manager/Order.antt =====
-- The order in which the events of the peers reach the download manager.
use mathlib.Core.Path.{subst}
use motte_seed.Prelude.{
  ℕ, zero, suc, ◌≡◌, refl, sym, ap, ◌∙◌, Bool, true, false, Option, some, List, [], ◌∷◌, ◌++◌, All,
  arith, Bool-cases, Option-cases, inl, inr, append_assoc, get_elem?, All-append, All-map,
}
use motte_seed.Bytes.{Bytes, bytes_eq, bytes_eq_refl, bytes_eq_sound, has}
use motte_seed.Peer.Block.{PeerIp}
use motte_seed.Peer.Connection.{PeerEvent, ManagerCommand}
use motte_seed.Peer.Manager.{
  PeerManager, Task, update, new, new_task, add_peer, push_command, send_to_peer, find_sender,
  connect, forward,
}
use motte_seed.Bytes.Distinct.{IsDistinct, has-snoc, IsDistinct-snoc}
use motte_seed.Peer.Manager.Steps.{
  ips, from_peer, emit, end, Step, Reached, IsOrdered, adds, sends, connects, emits, ends, forwards,
  created, after,
}
use motte_seed.Peer.Manager.Turns.{turn-IsOrdered, forward_turn}

module _ {F : Type 0} where
  pub record IsSound (m : PeerManager F) : Type 0 where
    ordered : All (IsOrdered m.forwarded) m.tasks
    pub distinct : IsDistinct (ips m.tasks)
    known : All (λ (x : PeerEvent F × PeerIp). has (ips m.tasks) x.1 ≡ true) m.forwarded

  All-update :
      (P : Task F → Type 0) (f : Task F → Task F)
      → ((t : Task F) → P t → P (f t))
      → (tasks : List (Task F)) (n : ℕ) → All P tasks
      → All P (update tasks n f)
  unfolding update
  All-update P f g [] n a = a
  All-update P f g (t ∷ tasks) zero a = (g t a.0, a.1)
  All-update P f g (t ∷ tasks) (suc n) a = (a.0, All-update P f g tasks n a.1)

  pub ips-update :
      (f : Task F → Task F)
      → ((t : Task F) → (f t).ip ≡ t.ip)
      → (tasks : List (Task F)) (n : ℕ) → ips (update tasks n f) ≡ ips tasks
  unfolding update
  ips-update f g [] n = refl
  ips-update f g (t ∷ tasks) zero = ap (λ k. k ∷ ips tasks) (g t)
  ips-update f g (t ∷ tasks) (suc n) = ap (λ l. t.ip ∷ l) (ips-update f g tasks n)

  from_peer-unknown :
      (ip : PeerIp) (l : List PeerIp) (log : List (PeerEvent F × PeerIp))
      → has l ip ≡ false
      → All (λ (x : PeerEvent F × PeerIp). has l x.1 ≡ true) log
      → from_peer ip log ≡ []
  from_peer-unknown ip l [] h a = refl
  from_peer-unknown ip l ((event, k) ∷ log) h (known, a) = elim (Bool-cases (bytes_eq k ip)) [
    | inl q ↦ let same : k ≡ ip = bytes_eq_sound k ip q in cc (h, rw same at known)
    | inr q ↦ rw q (from_peer-unknown ip l log h a)
  ]

  kept :
      (m : PeerManager F) (n : ℕ) (f : Task F → Task F)
      → ((t : Task F) → (f t).ip ≡ t.ip)
      → ((t : Task F) → IsOrdered m.forwarded t → IsOrdered m.forwarded (f t))
      → IsSound m
      → IsSound (record m { tasks = update m.tasks n f })
  kept m n f same g s =
      let e = ips-update f same m.tasks n in
      record {
        ordered = All-update (IsOrdered m.forwarded) f g m.tasks n s.ordered;
        distinct = rw e s.distinct;
        known = rw e s.known;
      }

  connect-IsOrdered :
      (made : Bool) (log : List (PeerEvent F × PeerIp)) (t : Task F)
      → IsOrdered log t
      → IsOrdered log (connect made t)
  unfolding connect
  connect-IsOrdered true log t s = record { prefix = s.prefix; waiting = s.waiting }
  connect-IsOrdered false log t s = record { prefix = s.prefix; waiting = λ h. cc h }

  emit-IsOrdered :
      (event : PeerEvent F) (log : List (PeerEvent F × PeerIp)) (t : Task F)
      → IsOrdered log t
      → IsOrdered log (emit event t)
  emit-IsOrdered event log t s =
      let (rest, p) = s.prefix in
      record {
        prefix = (
          rest ++ (event ∷ []),
          sym (append_assoc (from_peer t.ip log) rest (event ∷ [])) ∙ ap (λ l. l ++ (event ∷ [])) p,
        );
        waiting = λ h.
            sym (append_assoc (from_peer t.ip log) t.events (event ∷ []))
            ∙ ap (λ l. l ++ (event ∷ [])) (s.waiting h);
      }

  -- What the order depends on.
  same-IsOrdered :
      (log : List (PeerEvent F × PeerIp)) (t u : Task F)
      → u.ip ≡ t.ip
      → u.emitted ≡ t.emitted
      → u.events ≡ t.events
      → (u.forwarding ≡ true → t.forwarding ≡ true)
      → IsOrdered log t
      → IsOrdered log u
  same-IsOrdered log t u ip emitted events forwarding s =
      let (rest, p) = s.prefix in
      record {
        prefix = (rest, rw (ip, emitted) p);
        waiting = λ h. rw (ip, emitted, events) (s.waiting (forwarding h));
      }

  push_command-IsOrdered :
      (command : ManagerCommand) (log : List (PeerEvent F × PeerIp)) (t : Task F)
      → IsOrdered log t
      → IsOrdered log (push_command command t)
  unfolding push_command
  push_command-IsOrdered command log t s =
      same-IsOrdered log t (push_command command t) (ground arith) (ground arith) (ground arith)
        (λ h. ground arith) s

  pub ips-append : (a : List (Task F)) (t : Task F) → ips (a ++ (t ∷ [])) ≡ ips a ++ (t.ip ∷ [])
  ips-append [] t = refl
  ips-append (u ∷ a) t = ap (λ l. u.ip ∷ l) (ips-append a t)

  has-own :
      (tasks : List (Task F)) (n : ℕ) {t : Task F}
      → get_elem? tasks n ≡ some t
      → has (ips tasks) t.ip ≡ true
  unfolding has
  has-own [] n e = cc e
  has-own (u ∷ tasks) zero {t = t} e =
      let same : u ≡ t = cc e in
      subst (λ (x : Task F). has (ips (u ∷ tasks)) x.ip ≡ true) same
        (ground (arith, bytes_eq_refl u.ip))
  has-own (u ∷ tasks) (suc n) e = ground (arith, has-own tasks n e)

  new_task-IsOrdered :
      (log : List (PeerEvent F × PeerIp)) (tasks : List (Task F)) (ip : PeerIp)
      (bitfield : Option Bytes)
      → has (ips tasks) ip ≡ false
      → All (λ (x : PeerEvent F × PeerIp). has (ips tasks) x.1 ≡ true) log
      → IsOrdered log (new_task ip bitfield)
  unfolding new_task
  new_task-IsOrdered log tasks ip bitfield h a =
      let none : from_peer ip log ≡ [] = from_peer-unknown ip (ips tasks) log h a in
      record { prefix = ([], rw none refl); waiting = λ k. rw none refl }

  add_peer-IsSound :
      (m : PeerManager F) (ip : PeerIp) (bitfield : Option Bytes)
      → has (ips m.tasks) ip ≡ false
      → IsSound m
      → IsSound (add_peer m ip bitfield)
  unfolding add_peer new_task
  add_peer-IsSound m ip bitfield h s =
      let e = ips-append m.tasks (new_task ip bitfield) in
      record {
        ordered =
            All-append (IsOrdered m.forwarded) m.tasks _ s.ordered
              (new_task-IsOrdered m.forwarded m.tasks ip bitfield h s.known, tt);
        distinct = rw e (IsDistinct-snoc (ips m.tasks) ip h s.distinct);
        known =
            All-map _ _ (λ x k. rw (e, has-snoc (ips m.tasks) _ x.1, k) refl) m.forwarded s.known;
      }

  out-known :
      (m : PeerManager F) (n : ℕ) (receiving : Bool) {t : Task F}
      → get_elem? m.tasks n ≡ some t
      → All (λ (x : PeerEvent F × PeerIp). has (ips m.tasks) x.1 ≡ true) (forward receiving t).1
  out-known m n receiving {t = t} e = elim (forward_turn receiving t).2 [
    | inl (none_out, h) ↦ rw none_out tt
    | inr (event, rest, q, r, out) ↦ rw out (has-own m.tasks n e, tt)
  ]

  forward-IsSound :
      (m : PeerManager F) (n : ℕ) (receiving : Bool) (t : Task F)
      → get_elem? m.tasks n ≡ some t
      → t.forwarding ≡ true
      → IsSound m
      → IsSound (record m {
        tasks = update m.tasks n (λ u. (forward receiving u).0);
        forwarded = m.forwarded ++ (forward receiving t).1;
      })
  forward-IsSound m n receiving t e f s =
      let same =
        ips-update (λ u. (forward receiving u).0) (λ u. (forward_turn receiving u).0) m.tasks n in
      record {
        ordered = turn-IsOrdered receiving m.forwarded m.tasks n t e f s.distinct s.ordered;
        distinct = rw same s.distinct;
        known = rw same (All-append _ m.forwarded _ s.known (out-known m n receiving e));
      }

  send_to_peer-IsSound :
      (m : PeerManager F) (ip : PeerIp) (command : ManagerCommand)
      → IsSound m
      → IsSound (send_to_peer m ip command)
  unfolding send_to_peer push_command
  send_to_peer-IsSound m ip command s = elim (Option-cases (find_sender m.peer_senders ip)) [
    | inl e ↦ rw (e, send_to_peer) s
    | inr (n, e) ↦
        rw (e, send_to_peer)
          (kept m n (push_command command) (λ t. ground arith)
            (push_command-IsOrdered command m.forwarded) s)
  ]

  Step-IsSound : {m n : PeerManager F} → Step m n → IsSound m → IsSound n
  unfolding connect
  Step-IsSound (adds m ip bitfield h) s = add_peer-IsSound m ip bitfield h s
  Step-IsSound (sends m ip command) s = send_to_peer-IsSound m ip command s
  Step-IsSound (connects m n made) s =
      kept m n (connect made) (λ t. ground arith) (connect-IsOrdered made m.forwarded) s
  Step-IsSound (emits m n event e r f) s =
      kept m n (emit event) (λ t. refl) (emit-IsOrdered event m.forwarded) s
  Step-IsSound (ends m n) s =
      kept m n end (λ t. refl) (λ t o. record { prefix = o.prefix; waiting = o.waiting }) s
  Step-IsSound (forwards m n receiving {t = t} e f) s = forward-IsSound m n receiving t e f s

  pub reached :
      {peer_id info_hash : Bytes} {m : PeerManager F} → Reached peer_id info_hash m → IsSound m
  unfolding new
  reached created = record { ordered = tt; distinct = tt; known = tt }
  reached (after r st) = Step-IsSound st (reached r)

  -- Whatever the order in which the tasks run, connections fail or end, and commands are sent, where
  -- each address is added once: of the events that a peer's connection has sent, those that have been
  -- handed to the download manager are a first part, in the order in which they were sent, and as
  -- long as the task's loop runs the rest waits in its channel: none is lost or repeated.
  pub Reached-IsOrdered :
      {peer_id info_hash : Bytes} (m : PeerManager F)
      → Reached peer_id info_hash m
      → All (IsOrdered m.forwarded) m.tasks
  Reached-IsOrdered m r = (reached r).ordered
