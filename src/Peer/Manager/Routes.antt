-- ===== src/Peer/Manager/Routes.antt =====
-- Which task gets a command.
use mathlib.Core.Path.{subst}
use mathlib.Core.Option
use motte_seed.Prelude.{
  ℕ, suc, ◌≡◌, refl, sym, ap, ◌∙◌, true, false, Option, none, some, List, [], ◌∷◌, ◌++◌, arith,
  Bool-cases, Option-cases, inl, inr, if◌then◌else◌, length,
}
use motte_seed.Bytes.{Bytes, bytes_eq, bytes_eq_refl, bytes_eq_sound, has}
use motte_seed.Peer.Block.{PeerIp}
use motte_seed.Peer.Connection.{ManagerCommand}
use motte_seed.Prelude.{append-nil}
use motte_seed.Peer.Manager.{
  Stage, connecting, running, ended, PeerManager, Task, update, new, new_task, add_peer,
  push_command, send_to_peer, find_sender, insert_sender, connect, forward,
}
use motte_seed.Bytes.Distinct.{IsDistinct}
use motte_seed.Peer.Manager.Steps.{
  ips, emit, end, Step, Reached, adds, sends, connects, emits, ends, forwards, created, after,
}
use motte_seed.Peer.Manager.Turns.{forward_turn}
use motte_seed.Peer.Manager.Order.{ips-update, ips-append, reached}

abbrev position : List PeerIp → PeerIp → Option ℕ
position [] ip = none
position (k ∷ l) ip = if bytes_eq k ip then some 0 else Option.map suc (position l ip)

-- A change to the task of one address, which leaves every other task as it is.
abbrev pub change : {F : Type 0} → PeerIp → (Task F → Task F) → List (Task F) → List (Task F)
change ip f [] = []
change ip f (t ∷ tasks) = (if bytes_eq t.ip ip then f t else t) ∷ change ip f tasks

-- The command as the last in the channel, unless the connection has ended.
abbrev pub received_by : Stage → ManagerCommand → List ManagerCommand
received_by ended command = []
received_by _ command = command ∷ []

abbrev pub behind : {F : Type 0} → ManagerCommand → Task F → Task F
behind command t = record t { commands = t.commands ++ received_by t.stage command }

-- Equal to one of two different addresses, it is not the other.
apart : (j ip k : PeerIp) → bytes_eq j ip ≡ false → bytes_eq j k ≡ true → bytes_eq ip k ≡ false
apart j ip k q r = elim (Bool-cases (bytes_eq ip k)) [
  | inr e ↦ e
  | inl e ↦
      let a : ip ≡ k = bytes_eq_sound ip k e in
      let b : j ≡ k = bytes_eq_sound j k r in
      let c : bytes_eq j ip ≡ bytes_eq ip ip = cc (a, b) in cc (c, bytes_eq_refl ip, q)
]

find-insert_sender :
    (s : List (PeerIp × ℕ)) (ip k : PeerIp) (n : ℕ)
    → find_sender (insert_sender s ip n) k ≡ (if bytes_eq ip k then some n else find_sender s k)
unfolding find_sender insert_sender
find-insert_sender [] ip k n = refl
find-insert_sender ((j, i) ∷ s) ip k n = elim (Bool-cases (bytes_eq j ip)) [
  | inl q ↦
      let same : bytes_eq j k ≡ bytes_eq ip k = ap (λ x. bytes_eq x k) (bytes_eq_sound j ip q) in
      ground (arith, q, same)
  | inr q ↦ elim (Bool-cases (bytes_eq j k)) [
    | inl r ↦ let e = apart j ip k q r in rw (q, r, e) refl
    | inr r ↦ ground (arith, q, r, find-insert_sender s ip k n)
  ]
]

position-snoc :
    (l : List PeerIp) (ip k : PeerIp)
    → has l ip ≡ false
    → position (l ++ (ip ∷ [])) k ≡ (if bytes_eq ip k then some (length l) else position l k)
unfolding has
position-snoc [] ip k h = refl
position-snoc (j ∷ l) ip k h =
    let q : bytes_eq j ip ≡ false = ground arith in
    let ih = position-snoc l ip k (ground arith) in
    elim (Bool-cases (bytes_eq j k)) [
      | inl r ↦ let e = apart j ip k q r in rw (r, e) refl
      | inr r ↦ elim (Bool-cases (bytes_eq ip k)) [
        | inl e ↦
            let step : position (l ++ (ip ∷ [])) k ≡ some (length l) = rw e at ih in
            rw (r, e) (ap (Option.map suc) step)
        | inr e ↦
            let step : position (l ++ (ip ∷ [])) k ≡ position l k = rw e at ih in
            rw (r, e) (ap (Option.map suc) step)
      ]
    ]

module _ {F : Type 0} where
  length-ips : (tasks : List (Task F)) → length (ips tasks) ≡ length tasks
  length-ips [] = refl
  length-ips (t ∷ tasks) = ap suc (length-ips tasks)

  change-absent :
      (tasks : List (Task F)) (ip : PeerIp) (f : Task F → Task F)
      → has (ips tasks) ip ≡ false
      → change ip f tasks ≡ tasks
  unfolding has
  change-absent [] ip f h = refl
  change-absent (t ∷ tasks) ip f h = ground (arith, change-absent tasks ip f)

  update-change :
      (tasks : List (Task F)) (ip : PeerIp) (f : Task F → Task F)
      → IsDistinct (ips tasks)
      → (position (ips tasks) ip ≡ none → tasks ≡ change ip f tasks)
        × ((n : ℕ) → position (ips tasks) ip ≡ some n → update tasks n f ≡ change ip f tasks)
  unfolding update has
  update-change [] ip f d = (λ h. refl, λ n h. refl)
  update-change (t ∷ tasks) ip f d = elim (Bool-cases (bytes_eq t.ip ip)) [
    | inl q ↦
        let same : t.ip ≡ ip = bytes_eq_sound t.ip ip q in
        let rest : change ip f tasks ≡ tasks =
          change-absent tasks ip f (subst (λ x. has (ips tasks) x ≡ false) same d.0) in
        rw (q, rest)
          (
            (λ h. cc h),
            λ n h. let z : 0 ≡ n = cc h in subst (λ k. update (t ∷ tasks) k f ≡ f t ∷ tasks) z refl,
          )
    | inr q ↦
        let (without, with) = update-change tasks ip f d.1 in
        rw q (elim (Option-cases (position (ips tasks) ip)) [
          | inl e ↦ ((λ h. ap (λ x. t ∷ x) (without e)), λ n h. cc (rw e at h))
          | inr (i, e) ↦ (
            (λ h. cc (rw e at h)),
            λ n h.
                let z : suc i ≡ n = cc (rw e at h) in
                subst (λ k. update (t ∷ tasks) k f ≡ t ∷ change ip f tasks) z
                  (ap (λ x. t ∷ x) (with i e)),
          )
        ])
  ]

  -- The sender under an address is that of the task that has it.
  abbrev Agrees : PeerManager F → Type 0
  Agrees m = (ip : PeerIp) → find_sender m.peer_senders ip ≡ position (ips m.tasks) ip

  add_peer-Agrees :
      (m : PeerManager F) (ip : PeerIp) (bitfield : Option Bytes)
      → has (ips m.tasks) ip ≡ false
      → Agrees m
      → Agrees (add_peer m ip bitfield)
  unfolding add_peer new_task
  add_peer-Agrees m ip bitfield h a k =
      find-insert_sender m.peer_senders ip k (length m.tasks)
      ∙ ap (λ x. if bytes_eq ip k then some (length m.tasks) else x) (a k)
      ∙ ap (λ x. if bytes_eq ip k then some x else position (ips m.tasks) k)
          (sym (length-ips m.tasks))
      ∙ sym (position-snoc (ips m.tasks) ip k h)
      ∙ ap (λ l. position l k) (sym (ips-append m.tasks (new_task ip bitfield)))

  update-Agrees :
      (m : PeerManager F) (n : ℕ) (f : Task F → Task F)
      → ((t : Task F) → (f t).ip ≡ t.ip)
      → Agrees m
      → Agrees (record m { tasks = update m.tasks n f })
  update-Agrees m n f same a k = a k ∙ ap (λ l. position l k) (sym (ips-update f same m.tasks n))

  send_to_peer-Agrees :
      (m : PeerManager F) (ip : PeerIp) (command : ManagerCommand)
      → Agrees m
      → Agrees (send_to_peer m ip command)
  unfolding send_to_peer push_command
  send_to_peer-Agrees m ip command a = elim (Option-cases (find_sender m.peer_senders ip)) [
    | inl e ↦ rw (e, send_to_peer) a
    | inr (n, e) ↦
        rw (e, send_to_peer) (update-Agrees m n (push_command command) (λ t. ground arith) a)
  ]

  Step-Agrees : {m n : PeerManager F} → Step m n → Agrees m → Agrees n
  unfolding connect
  Step-Agrees (adds m ip bitfield h) a = add_peer-Agrees m ip bitfield h a
  Step-Agrees (sends m ip command) a = send_to_peer-Agrees m ip command a
  Step-Agrees (connects m n made) a = update-Agrees m n (connect made) (λ t. ground arith) a
  Step-Agrees (emits m n event e r f) a = update-Agrees m n (emit event) (λ t. refl) a
  Step-Agrees (ends m n) a = update-Agrees m n end (λ t. refl) a
  Step-Agrees (forwards m n receiving e f) a =
      update-Agrees m n (λ u. (forward receiving u).0) (λ u. (forward_turn receiving u).0) a

  agrees : {peer_id info_hash : Bytes} {m : PeerManager F} → Reached peer_id info_hash m → Agrees m
  unfolding new find_sender
  agrees created = λ ip. refl
  agrees (after r st) = Step-Agrees st (agrees r)

  by_stage :
      (command : ManagerCommand) (t : Task F) (s : Stage)
      → ◌≡◌ {A = Task F}
          (elim s [ ended ↦ t | _ ↦ record t { commands = t.commands ++ (command ∷ []) } ])
          (record t { commands = t.commands ++ received_by s command })
  by_stage command t connecting = refl
  by_stage command t running = refl
  by_stage command t ended = ap (λ l. record t { commands = l }) (sym (append-nil t.commands))

  push_command-behind :
      (command : ManagerCommand) (t : Task F) → push_command command t ≡ behind command t
  unfolding push_command
  push_command-behind command t = by_stage command t t.stage

  change-behind :
      (ip : PeerIp) (command : ManagerCommand) (tasks : List (Task F))
      → change ip (push_command command) tasks ≡ change ip (behind command) tasks
  change-behind ip command [] = refl
  change-behind ip command (t ∷ tasks) = rw (push_command-behind command t) (
      ap (λ l. (if bytes_eq t.ip ip then behind command t else t) ∷ l)
        (change-behind ip command tasks))

  -- In every manager that is reached, where each address is added once: a command for an address is
  -- put behind the others in the channel of the one task for it, if its connection has not ended, and
  -- nothing else changes, wherever the task stands; for an address without a task nothing changes.
  pub send_to_peer-change :
      {peer_id info_hash : Bytes} (m : PeerManager F) (ip : PeerIp) (command : ManagerCommand)
      → Reached peer_id info_hash m
      → send_to_peer m ip command ≡ (record m { tasks = change ip (behind command) m.tasks })
  unfolding send_to_peer
  send_to_peer-change m ip command r =
      let (without, with) = update-change m.tasks ip (push_command command) (reached r).distinct in
      let named = ap (λ x. record m { tasks = x }) (change-behind ip command m.tasks) in
      elim (Option-cases (find_sender m.peer_senders ip)) [
        | inl e ↦
            rw (e, send_to_peer)
              (ap (λ x. record m { tasks = x }) (without (sym (agrees r ip) ∙ e)) ∙ named)
        | inr (n, e) ↦
            rw (e, send_to_peer)
              (ap (λ x. record m { tasks = x }) (with n (sym (agrees r ip) ∙ e)) ∙ named)
      ]
