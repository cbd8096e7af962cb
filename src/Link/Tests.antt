-- ===== src/Link/Tests.antt =====
-- Two hosts: the headers of what one sends to the other, and the transmissions on the link.
use p4simulator.Base.{ℕ, ◌≤◌, ◌≡◌, ◌≢◌, refl, none, some, [], ◌∷◌, arith, ◌⊎◌, inl}
use p4simulator.CustomHeader.{
  get_protocol_number, layer_3, add_before, init, set_protocol_field_number,
}
use p4simulator.Link.{busy}
use p4simulator.Link.Channel.{P4P2PChannel, joined, transmit-joined}
use p4simulator.Link.Channel
use p4simulator.Link.Channel.{Reception}
use p4simulator.Link.Transmit.{
  send_from, enqueued, is_ready, returning, start_dequeued, transmit_start, started, unscheduled,
  with_headers,
}
use p4simulator.Link.Restored.{process_header-add_header}
use p4simulator.Link.Restore.{process_header, restore_headers, is_after_transport}
use p4simulator.Link.Headers.{
  add_header, add_for_port, get_dst_port, port_behind, transport_port, add_custom_header,
  handle_layer_3, ethernet_header,
}
use p4simulator.Link.Line.{
  NotBefore, Carries, Line, Reach, here, next, send, start, Fresh, send_at, fire, drain,
}
use p4simulator.Link.LineKept.{Kept}
use p4simulator.Link.Drain.{Drained, Reach-Kept, never_refused, drained}
use p4simulator.Link.Rounds.{GetsToOne, loop_start}
use p4simulator.Link.Ending.{restore_headers-ends}
use p4simulator.Link.Endless.{process_header-icmp}
use p4simulator.Link.Packets.{
  ethernet, ipv4, arp, udp, tcp, raw, custom, Packet, ethernet_of, ipv4_of, arp_of, udp_of, tcp_of,
  read_custom, library, custom_header, host, reads, laws, shrinks, custom_again, queue_laws,
}

transmit-joined_example :
    (Channel.attach (Channel.init 5) 1 ≡ some (Channel.half 5 1))
    × (Channel.attach (Channel.half 5 1) 2 ≡ some (joined 5 1 2))
    × (Channel.attach (joined 5 1 2) 3 ≡ none)
    × (Channel.transmit_start {Packet = ℕ} (Channel.half 5 1) 9 1 4 ≡ none)
    × (Channel.transmit_start {Packet = ℕ} (joined 5 1 2) 9 1 4
        ≡ some (record { after = 9; receiver = 2; packet = 9 }))
    × (Channel.transmit_start {Packet = ℕ} (joined 5 1 2) 9 2 4
        ≡ some (record { after = 9; receiver = 1; packet = 9 }))
    × (Channel.get_remote (joined 5 1 2) 1 ≡ some 2)
    × (Channel.get_remote (joined 5 1 2) 2 ≡ some 1)
transmit-joined_example = transmit-joined 5 1 2 3 4 9 (λ e. omega (arith, e))

-- A datagram to port 10500, and the packet that the other host gets.
process_header-add_header_example :
    process_header library 3 host
      (add_header library host (ipv4 0x11 ∷ udp 10500 ∷ raw 100 ∷ []) 1 2 0x0800)
      0
    ≡ some (ipv4 0x11 ∷ udp 10500 ∷ raw 100 ∷ [], 0x0800)
unfolding is_after_transport init set_protocol_field_number get_protocol_number
process_header-add_header_example =
    process_header-add_header library laws host (raw 100 ∷ []) 10500 0x11 refl refl host 1 2
      custom_header 0 refl (inl (refl, refl))
      (reads (init layer_3 add_before) _ 8 custom read_custom custom_header custom_header
        (omega arith) refl refl)
      refl

-- The same datagram on the wire.
on_the_wire :
    add_header library host (ipv4 0x11 ∷ udp 10500 ∷ raw 100 ∷ []) 1 2 0x0800
    ≡ ethernet (record { source = 1; destination = 2; length_type = 0xDC })
      ∷ custom custom_header
      ∷ ipv4 0x11
      ∷ udp 10500
      ∷ raw 100
      ∷ []
unfolding add_header add_for_port get_dst_port port_behind transport_port add_custom_header
    set_protocol_field_number init handle_layer_3 ethernet_header
on_the_wire = refl

process_header-icmp_example :
    process_header library 1000 host (add_header library host (ipv4 1 ∷ raw 64 ∷ []) 1 2 0x0800) 0
    ≡ none
process_header-icmp_example =
    process_header-icmp library laws host host (raw 64 ∷ []) 1 1 2 refl 1000 (omega arith) refl

restore_headers-ends_example :
    ((q : Packet) × (restore_headers library 300 host (ipv4 0x11 ∷ udp 9 ∷ raw 100 ∷ []) ≡ some q))
    ⊎ (GetsToOne library host (loop_start library host (ipv4 0x11 ∷ udp 9 ∷ raw 100 ∷ []))
        × ((fuel : ℕ)
            → restore_headers library fuel host (ipv4 0x11 ∷ udp 9 ∷ raw 100 ∷ []) ≡ none))
restore_headers-ends_example =
    restore_headers-ends library (shrinks 0 20 ipv4 (λ x into. ipv4_of x) (λ x h r e. e))
      (shrinks 0 28 arp (λ x into. arp_of x) (λ x h r e. e))
      (shrinks 0 8 udp (λ x into. udp_of x) (λ x h r e. e))
      (shrinks 0 20 tcp (λ x into. tcp_of x) (λ x h r e. e))
      (shrinks (init layer_3 add_before) 8 custom read_custom custom_again)
      (shrinks (record { source = 0; destination = 0; length_type = 0 }) 14 ethernet
        (λ x into. ethernet_of x) (λ x h r e. e))
      300 host (ipv4 0x11 ∷ udp 9 ∷ raw 100 ∷ []) (omega arith)

carries : Carries Packet (joined 5 1 2) 1 2 5
carries p tx_time = (transmit-joined 5 1 2 3 tx_time p (λ e. omega (arith, e))).4

fresh : Fresh library queue_laws host
unfolding queue_laws
fresh = record { up = refl; idle = refl; empty = refl }

abbrev frame : ℕ → Packet
frame n = ethernet (record { source = 1; destination = 2; length_type = 0x0800 }) ∷ raw n ∷ []

abbrev idle_line : Line library
idle_line = start library (joined 5 1 2) 1 host

abbrev first_on_wire : Reception Packet
first_on_wire = record { after = 31; receiver = 2; packet = frame 9 }

abbrev one_sent : Line library
one_sent = record {
  now = 2;
  device = record host { tx_machine_state = busy; current_pkt = some (frame 9) };
  pending = 29 ∷ [];
  sent = first_on_wire ∷ [];
  accepted = frame 9 ∷ [];
}

-- Two packets were sent, at times 2 and 4: the first is on the wire, the second is queued.
abbrev two_sent : Line library
two_sent = record {
  now = 4;
  device = record host {
    tx_machine_state = busy;
    current_pkt = some (frame 9);
    queue = record { items = frame 19 ∷ [] };
  };
  pending = 29 ∷ [];
  sent = first_on_wire ∷ [];
  accepted = frame 9 ∷ frame 19 ∷ [];
}

sends :
    (send_at library (joined 5 1 2) 1 idle_line 2 (raw 9 ∷ []) 1 2 0x0800 ≡ some one_sent)
    × (send_at library (joined 5 1 2) 1 one_sent 4 (raw 19 ∷ []) 1 2 0x0800 ≡ some two_sent)
unfolding send_from init enqueued is_ready returning start_dequeued transmit_start started
    Channel.transmit_start Channel.is_initializing Channel.is_source Channel.schedule_receive
    unscheduled with_headers add_header add_for_port get_dst_port port_behind ethernet_header
sends = (refl, refl)

two_sent-Reach : Reach library (joined 5 1 2) 1 idle_line two_sent
two_sent-Reach =
    next (next here (send 2 (raw 9 ∷ []) 1 2 0x0800 (omega arith) tt sends.0))
      (send 4 (raw 19 ∷ []) 1 2 0x0800 (omega arith) (omega arith, tt) sends.1)

Reach-Kept_example : Kept library queue_laws 5 2 two_sent
Reach-Kept_example =
    Reach-Kept library queue_laws (joined 5 1 2) 1 2 5 carries host two_sent fresh two_sent-Reach

never_refused_example :
    ((t : ℕ) (p : Packet) (source dest protocol : ℕ)
      → 4 ≤ t
      → NotBefore t (29 ∷ [])
      → send_at library (joined 5 1 2) 1 two_sent t p source dest protocol ≢ none)
    × (two_sent.pending ≢ [] → fire library (joined 5 1 2) 1 two_sent ≢ none)
never_refused_example =
    never_refused library queue_laws (joined 5 1 2) 1 2 5 carries host two_sent fresh two_sent-Reach

drained_example :
    (w' : Line library) × (drain library (joined 5 1 2) 1 2 two_sent ≡ some w')
    × Drained library queue_laws (joined 5 1 2) 1 2 5 carries two_sent w'
unfolding queue_laws
drained_example =
    drained library queue_laws (joined 5 1 2) 1 2 5 carries host two_sent fresh two_sent-Reach
