-- ===== src/Link/Begun.antt =====
-- model/custom-p2p-net-device.cc, `SendFrom` and `TransmitComplete`: how each ends, by the transmitter's
-- state and the queue.
use p4simulator.Base.{
  ℕ, ◌+◌, ◌≡◌, ◌≢◌, refl, ap, ◌∙◌, Bool, true, false, Option, none, some, [], ◌∷◌, Option-cases,
  inl, inr, not, ◌&&◌, if_true,
}
use p4simulator.Link.{Library, Device, ready, busy}
use p4simulator.Link.Channel.{P4P2PChannel}
use p4simulator.Link.Transmit.{
  Scheduled, with_headers, send_from, transmit_complete, transmit_start, unscheduled, is_ready,
  started, enqueued, start_dequeued, start_next, returning, has_packet,
}
use p4simulator.Link.Line.{QueueLaws, Carries}

module _ (L : Library) (Q : QueueLaws L) (channel : P4P2PChannel) (self other delay : ℕ)
    (carries : Carries L.Packet channel self other delay) where
  -- A device whose transmission of a packet begins, with what it schedules.
  abbrev pub begun : Device L → L.Queue → L.Packet → Scheduled L
  begun d q p = record {
    device = record d { queue = q; tx_machine_state = busy; current_pkt = some p };
    completions = (L.calculate_bytes_tx_time d.bps (L.get_size p) + d.interframe_gap) ∷ [];
    receptions =
        (record {
          after = L.calculate_bytes_tx_time d.bps (L.get_size p) + delay;
          receiver = other;
          packet = p;
        })
        ∷ [];
  }

  pub transmit_start-begun :
      (d : Device L) (p : L.Packet)
      → d.tx_machine_state ≡ ready
      → transmit_start L channel self d p ≡ some (begun d d.queue p)
  unfolding transmit_start started is_ready
  transmit_start-begun d p e =
      rw (e, carries p (L.calculate_bytes_tx_time d.bps (L.get_size p))) refl

  pub start_dequeued-begun :
      (d : Device L) (r : L.Queue × Option L.Packet) (p : L.Packet)
      → d.tx_machine_state ≡ ready
      → r.1 ≡ some p
      → start_dequeued L channel self d r ≡ some (begun d r.0 p)
  unfolding start_dequeued
  start_dequeued-begun d (q, o) p e f =
      ap (λ o. start_dequeued L channel self d (q, o)) f
      ∙ transmit_start-begun (record d { queue = q; current_pkt = some p }) p e

  pub start_next-begun :
      (d : Device L) (r : L.Queue × Option L.Packet) (p : L.Packet)
      → d.tx_machine_state ≡ ready
      → r.1 ≡ some p
      → start_next L channel self d r ≡ some (begun d r.0 p)
  unfolding start_next
  start_next-begun d (q, o) p e f =
      ap (λ o. start_next L channel self d (q, o)) f
      ∙ transmit_start-begun (record d { queue = q }) p e

  pub start_next-idle :
      (d : Device L) (r : L.Queue × Option L.Packet)
      → r.1 ≡ none
      → start_next L channel self d r ≡ some (unscheduled L (record d { queue = r.0 }))
  unfolding start_next
  start_next-idle d (q, o) f = ap (λ o. start_next L channel self d (q, o)) f

  -- A busy device with its packet takes the next one.
  pub transmit_complete-busy :
      (d : Device L)
      → d.tx_machine_state ≡ busy
      → d.current_pkt ≢ none
      → transmit_complete L channel self d
        ≡ start_next L channel self
            (record d { tx_machine_state = ready; current_pkt = none })
            (L.dequeue d.queue)
  unfolding transmit_complete is_ready has_packet
  transmit_complete-busy d e f = elim (Option-cases d.current_pkt) [
    | inl g ↦ absurd (f g)
    | inr (p, g) ↦ rw (e, g) refl
  ]

  pub enqueued-begun :
      (d : Device L) (r : L.Queue × Bool) (p : L.Packet)
      → r.1 ≡ true
      → d.tx_machine_state ≡ ready
      → Q.contents r.0 ≡ p ∷ []
      → enqueued L channel self d r ≡ some (begun d (L.dequeue r.0).0 p, true)
  unfolding enqueued is_ready returning
  enqueued-begun d (q, b) p e f g =
      if_true b _ _ e
      ∙ if_true (is_ready d.tx_machine_state && not (L.is_empty q)) _ _
          (rw (f, Q.holds q p [] g) refl)
      ∙ ap (returning L true)
          (start_dequeued-begun (record d { queue = q }) (L.dequeue q) p f (Q.yields q p [] g).0)

  module _ (d : Device L) (p : L.Packet) (source dest : L.Address) (protocol : ℕ)
      (up : d.link_up ≡ true) where
    -- The queue when the packet was offered to it.
    abbrev pub offered : L.Queue × Bool
    offered = L.enqueue d.queue (with_headers L d p source dest protocol)

    send_from-enqueued :
        send_from L channel self d p source dest protocol ≡ enqueued L channel self d offered
    unfolding send_from
    send_from-enqueued = rw up refl

    pub send_from-refused :
        offered.1 ≡ false
        → send_from L channel self d p source dest protocol
          ≡ some (unscheduled L (record d { queue = offered.0 }), false)
    unfolding enqueued
    send_from-refused e = send_from-enqueued ∙ rw e refl

    pub send_from-busy :
        offered.1 ≡ true
        → d.tx_machine_state ≡ busy
        → send_from L channel self d p source dest protocol
          ≡ some (unscheduled L (record d { queue = offered.0 }), true)
    unfolding enqueued is_ready
    send_from-busy e f = send_from-enqueued ∙ rw (e, f) refl

    pub send_from-ready :
        offered.1 ≡ true
        → d.tx_machine_state ≡ ready
        → Q.contents offered.0 ≡ with_headers L d p source dest protocol ∷ []
        → send_from L channel self d p source dest protocol
          ≡ some (begun d (L.dequeue offered.0).0 (with_headers L d p source dest protocol), true)
    send_from-ready e f g = send_from-enqueued ∙ enqueued-begun d offered _ e f g
