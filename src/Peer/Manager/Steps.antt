-- ===== src/Peer/Manager/Steps.antt =====
-- What can happen to a peer manager, whatever the runtime's scheduler does: the steps of the program
-- and of its tasks.

use motte_seed.Prelude.{
  ℕ, ◌≡◌, Bool, true, false, Option, some, List, [], ◌∷◌, ◌++◌, if◌then◌else◌, get_elem?,
}
use motte_seed.Bytes.{Bytes, bytes_eq, has}
use motte_seed.Peer.Block.{PeerIp}
use motte_seed.Peer.Connection.{PeerEvent, ManagerCommand}
use motte_seed.Peer.Manager.{
  PeerManager, Task, running, ended, update, new, add_peer, send_to_peer, connect, forward,
}

module _ {F : Type 0} where
  abbrev pub ips : List (Task F) → List PeerIp
  ips [] = []
  ips (t ∷ tasks) = t.ip ∷ ips tasks

  -- The events of one peer in what has been forwarded.
  abbrev pub from_peer : PeerIp → List (PeerEvent F × PeerIp) → List (PeerEvent F)
  from_peer ip [] = []
  from_peer ip ((event, k) ∷ log) =
      let rest = from_peer ip log in if bytes_eq k ip then event ∷ rest else rest

  -- A running connection sends an event.
  abbrev pub emit : PeerEvent F → Task F → Task F
  emit event t = record t { emitted = t.emitted ++ (event ∷ []); events = t.events ++ (event ∷ []) }

  abbrev pub end : Task F → Task F
  end t = record t { stage = ended }

  -- One step of the program or of one of the tasks; each address is added once.
  pub data Step : PeerManager F → PeerManager F → Type 0 where
    adds :
        (m : PeerManager F) (ip : PeerIp) (bitfield : Option Bytes)
        → has (ips m.tasks) ip ≡ false
        → Step m (add_peer m ip bitfield)
    sends :
        (m : PeerManager F) (ip : PeerIp) (command : ManagerCommand)
        → Step m (send_to_peer m ip command)
    connects :
        (m : PeerManager F) (n : ℕ) (made : Bool)
        → Step m (record m { tasks = update m.tasks n (connect made) })
    emits :
        (m : PeerManager F) (n : ℕ) (event : PeerEvent F) {t : Task F}
        → get_elem? m.tasks n ≡ some t
        → t.stage ≡ running
        → t.forwarding ≡ true
        → Step m (record m { tasks = update m.tasks n (emit event) })
    ends : (m : PeerManager F) (n : ℕ) → Step m (record m { tasks = update m.tasks n end })
    forwards :
        (m : PeerManager F) (n : ℕ) (receiving : Bool) {t : Task F}
        → get_elem? m.tasks n ≡ some t
        → t.forwarding ≡ true
        → Step m (record m {
          tasks = update m.tasks n (λ u. (forward receiving u).0);
          forwarded = m.forwarded ++ (forward receiving t).1;
        })

  pub data Reached (peer_id info_hash : Bytes) : PeerManager F → Type 0 where
    created : Reached peer_id info_hash (new peer_id info_hash)
    after :
        {m n : PeerManager F} → Reached peer_id info_hash m → Step m n → Reached peer_id info_hash n

  -- What has been forwarded of a task's events comes first among those sent, and while the task
  -- forwards, all the rest waits in its channel.
  pub record IsOrdered (log : List (PeerEvent F × PeerIp)) (t : Task F) : Type 0 where
    pub prefix : (rest : List (PeerEvent F)) × (from_peer t.ip log ++ rest ≡ t.emitted)
    pub waiting : t.forwarding ≡ true → from_peer t.ip log ++ t.events ≡ t.emitted
