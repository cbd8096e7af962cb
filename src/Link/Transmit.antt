-- ===== src/Link/Transmit.antt =====
-- model/custom-p2p-net-device.cc, class CustomP2PNetDevice: the transmitter, with the queue behind it,
-- and the receiver. `none` stands for a failed assertion.
use p4simulator.Base.{
  ℕ, ◌+◌, Bool, true, false, not, Option, none, some, List, [], ◌∷◌, ◌&&◌, if◌then◌else◌,
}
use p4simulator.Link.{Library, Device, TxMachineState, ready, busy}
use p4simulator.Link.Channel.{P4P2PChannel, Reception, get_remote}
use p4simulator.Link.Channel
use p4simulator.Link.Headers.{add_header, add_ethernet_header}
use p4simulator.Link.Restore.{process_header}

unfoldable pub is_ready : TxMachineState → Bool
is_ready ready = true
is_ready busy = false

unfoldable pub has_packet : {Packet : Type 0} → Option Packet → Bool
has_packet none = false
has_packet (some p) = true

module _ (L : Library) where
  -- A device, and what it has asked the simulator for: the times until its `TransmitComplete`s, and the
  -- receptions of the packets that it put on the channel.
  pub record Scheduled : Type 0 where
    pub device : Device L
    pub completions : List ℕ
    pub receptions : List (Reception L.Packet)

  unfoldable pub unscheduled : Device L → Scheduled
  unscheduled d = record { device = d; completions = []; receptions = [] }

  unfoldable pub started : Device L → ℕ → Option (Reception L.Packet) → Option Scheduled
  started d complete none = none
  started d complete (some r) =
      some (record { device = d; completions = complete ∷ []; receptions = r ∷ [] })

  -- The channel's `TransmitStart` returns true where it returns.
  unfoldable pub transmit_start : P4P2PChannel → ℕ → Device L → L.Packet → Option Scheduled
  transmit_start channel self d p =
      let tx_time : ℕ = L.calculate_bytes_tx_time d.bps (L.get_size p) in
      if is_ready d.tx_machine_state
      then started (record d { tx_machine_state = busy; current_pkt = some p })
          (tx_time + d.interframe_gap) (Channel.transmit_start channel p self tx_time)
      else none

  unfoldable pub start_next :
      P4P2PChannel → ℕ → Device L → L.Queue × Option L.Packet → Option Scheduled
  start_next channel self d (q, none) = some (unscheduled (record d { queue = q }))
  start_next channel self d (q, some p) = transmit_start channel self (record d { queue = q }) p

  unfoldable pub transmit_complete : P4P2PChannel → ℕ → Device L → Option Scheduled
  transmit_complete channel self d =
      if not (is_ready d.tx_machine_state) && has_packet d.current_pkt
      then start_next channel self (record d { tx_machine_state = ready; current_pkt = none })
          (L.dequeue d.queue)
      else none

  unfoldable pub with_headers : Device L → L.Packet → L.Address → L.Address → ℕ → L.Packet
  with_headers d p source dest protocol =
      if d.need_process_header
      then add_header L d p source dest protocol
      else add_ethernet_header L p source dest protocol

  -- The packet taken out of a queue that is not empty.
  unfoldable pub start_dequeued :
      P4P2PChannel → ℕ → Device L → L.Queue × Option L.Packet → Option Scheduled
  start_dequeued channel self d (q, none) = none
  start_dequeued channel self d (q, some p) =
      transmit_start channel self (record d { queue = q; current_pkt = some p }) p

  unfoldable pub returning : Bool → Option Scheduled → Option (Scheduled × Bool)
  returning b none = none
  returning b (some s) = some (s, b)

  unfoldable pub enqueued : P4P2PChannel → ℕ → Device L → L.Queue × Bool → Option (Scheduled × Bool)
  enqueued channel self d (q, accepted) =
      if accepted
      then (if is_ready d.tx_machine_state && not (L.is_empty q)
          then returning true (start_dequeued channel self (record d { queue = q }) (L.dequeue q))
          else some (unscheduled (record d { queue = q }), true))
      else some (unscheduled (record d { queue = q }), false)

  unfoldable pub send_from :
      P4P2PChannel → ℕ → Device L → L.Packet → L.Address → L.Address → ℕ → Option (Scheduled × Bool)
  send_from channel self d p source dest protocol =
      if d.link_up
      then enqueued channel self d (L.enqueue d.queue (with_headers d p source dest protocol))
      else none

  unfoldable pub send :
      P4P2PChannel → ℕ → Device L → L.Packet → L.Address → ℕ → Option (Scheduled × Bool)
  send channel self d p dest protocol = send_from channel self d p d.address dest protocol

  -- What `Receive` passes up: nothing, or the packet and its protocol with the sender's device, to the
  -- promiscuous callback, where there is one, and to the receive callback.
  pub data Upcall : Type 0 where
    promisc_callback rx_callback : L.Packet → ℕ → ℕ → Upcall

  unfoldable pub passed_up : Bool → Option (L.Packet × ℕ) → Option ℕ → Option (List Upcall)
  passed_up promisc none remote = none
  passed_up promisc (some (p, protocol)) none = none
  passed_up promisc (some (p, protocol)) (some remote) = some (
      if promisc
      then promisc_callback p protocol remote ∷ rx_callback p protocol remote ∷ []
      else rx_callback p protocol remote ∷ [])

  unfoldable pub receive : ℕ → P4P2PChannel → ℕ → Device L → Bool → L.Packet → Option (List Upcall)
  receive fuel channel self d promisc p =
      if d.has_error_model && L.is_corrupt p
      then some []
      else passed_up promisc (process_header L fuel d p 0) (get_remote channel self)
