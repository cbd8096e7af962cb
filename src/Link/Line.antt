-- ===== src/Link/Line.antt =====
-- One direction of a link in time: a device's transmitter (model/custom-p2p-net-device.cc), the calls of
-- `SendFrom`, the device's settings, and the simulator, which runs what was scheduled.
use p4simulator.Base.{
  ℕ, zero, suc, ◌+◌, ◌≤◌, ◌≡◌, Bool, true, false, Option, none, some, List, [], ◌∷◌, ◌++◌, map,
  if◌then◌else◌,
}
use p4simulator.CustomHeader.{CustomHeader}
use p4simulator.Link.{
  Library, Device, ready, set_data_rate, set_interframe_gap, set_custom_header,
  set_with_custom_header,
}
use p4simulator.Link.Channel.{P4P2PChannel, Reception}
use p4simulator.Link.Channel
use p4simulator.Link.Transmit.{Scheduled, with_headers, send_from, transmit_complete}

-- What the simulator's queues promise: they are first in, first out, and a queue that refuses a packet
-- keeps what it has.
pub record QueueLaws (L : Library) : Type 0 where
  pub contents : L.Queue → List L.Packet
  pub accepts :
      (q : L.Queue) (p : L.Packet)
      → (L.enqueue q p).1 ≡ true
      → contents (L.enqueue q p).0 ≡ contents q ++ (p ∷ [])
  pub refuses :
      (q : L.Queue) (p : L.Packet)
      → (L.enqueue q p).1 ≡ false
      → contents (L.enqueue q p).0 ≡ contents q
  pub yields :
      (q : L.Queue) (p : L.Packet) (ps : List L.Packet)
      → contents q ≡ p ∷ ps
      → ((L.dequeue q).1 ≡ some p) × (contents (L.dequeue q).0 ≡ ps)
  pub lacks :
      (q : L.Queue) → contents q ≡ [] → ((L.dequeue q).1 ≡ none) × (contents (L.dequeue q).0 ≡ [])
  pub holds :
      (q : L.Queue) (p : L.Packet) (ps : List L.Packet) → contents q ≡ p ∷ ps → L.is_empty q ≡ false

-- A channel carries from one device to another with a delay.
abbrev pub Carries : Type 0 → P4P2PChannel → ℕ → ℕ → ℕ → Type 0
Carries Packet channel self other delay =
    (p : Packet) (tx_time : ℕ)
    → Channel.transmit_start channel p self tx_time
      ≡ some (record { after = tx_time + delay; receiver = other; packet = p })

-- The time, the device, when its `TransmitComplete`s are to run, the receptions so far, each with the
-- time when it is to run, and the packets that the queue has accepted, the oldest first.
pub record Line (L : Library) : Type 0 where
  pub now : ℕ
  pub device : Device L
  pub pending : List ℕ
  pub sent : List (Reception L.Packet)
  pub accepted : List L.Packet

abbrev pub at_time {ℓ} : {Packet : Type ℓ} → ℕ → Reception Packet → Reception Packet
at_time now r = record r { after = now + r.after }

abbrev pub NotBefore : ℕ → List ℕ → Type 0
NotBefore t [] = Unit
NotBefore t (c ∷ cs) = (t ≤ c) × NotBefore t cs

module _ (L : Library) (channel : P4P2PChannel) (self : ℕ) where
  abbrev pub later : Line L → ℕ → Scheduled L → Line L
  later w t s = record {
    now = t;
    device = s.device;
    pending = w.pending ++ map (λ c. t + c) s.completions;
    sent = w.sent ++ map (at_time t) s.receptions;
    accepted = w.accepted;
  }

  abbrev pub taken : Line L → ℕ → L.Packet → Option (Scheduled L × Bool) → Option (Line L)
  taken w t p none = none
  taken w t p (some (s, accepted)) =
      some (record (later w t s) {
        accepted = if accepted then w.accepted ++ (p ∷ []) else w.accepted;
      })

  -- A call of `SendFrom` at a time.
  abbrev pub send_at : Line L → ℕ → L.Packet → L.Address → L.Address → ℕ → Option (Line L)
  send_at w t p source dest protocol =
      taken w t (with_headers L w.device p source dest protocol)
        (send_from L channel self w.device p source dest protocol)

  abbrev pub completed : Line L → ℕ → Option (Scheduled L) → Option (Line L)
  completed w t none = none
  completed w t (some s) = some (later w t s)

  abbrev pub fire_first : Line L → List ℕ → Option (Line L)
  fire_first w [] = none
  fire_first w (t ∷ rest) =
      completed (record w { pending = rest }) t (transmit_complete L channel self w.device)

  -- The simulator runs the first `TransmitComplete` that is scheduled.
  abbrev pub fire : Line L → Option (Line L)
  fire w = fire_first w w.pending

  -- A packet is sent before what is scheduled for later, a transmission is completed, or a setting is
  -- changed.
  pub data Step (w w' : Line L) : Type 0 where
    send :
        (t : ℕ) (p : L.Packet) (source dest : L.Address) (protocol : ℕ)
        → w.now ≤ t
        → NotBefore t w.pending
        → send_at w t p source dest protocol ≡ some w'
        → Step w w'
    complete : fire w ≡ some w' → Step w w'
    rate : (bps : L.DataRate) → w' ≡ record w { device = set_data_rate w.device bps } → Step w w'
    gap : (t : ℕ) → w' ≡ record w { device = set_interframe_gap w.device t } → Step w w'
    header :
        (h : CustomHeader) → w' ≡ record w { device = set_custom_header w.device h } → Step w w'
    with_header :
        (b : Bool) → w' ≡ record w { device = set_with_custom_header w.device b } → Step w w'

  pub data Reach (w : Line L) : Line L → Type 0 where
    here : Reach w w
    next : {u v : Line L} → Reach w u → Step u v → Reach w v

  abbrev pub start : Device L → Line L
  start d = record { now = 0; device = d; pending = []; sent = []; accepted = [] }

  -- The simulator runs a number of completions.
  abbrev pub drain : ℕ → Line L → Option (Line L)
  drain zero w = some w
  drain (suc n) w = elim (fire w) [ none ↦ none | some w' ↦ drain n w' ]

-- A device that is up and idle.
pub record Fresh (L : Library) (Q : QueueLaws L) (d : Device L) : Type 0 where
  pub up : d.link_up ≡ true
  pub idle : d.tx_machine_state ≡ ready
  pub empty : Q.contents d.queue ≡ []
