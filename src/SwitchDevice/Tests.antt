-- ===== src/SwitchDevice/Tests.antt =====
-- A switch of three ports, devices 10, 11 and 12, on the link of the examples.
use p4simulator.Base.{ℕ, ◌≡◌, refl, Bool, true, false, some, [], ◌∷◌, arith, inr, ◌==◌}
use p4simulator.Base.Int.{pos}
use p4simulator.Link.{Device}
use p4simulator.Link.Headers.{add_ethernet_header}
use p4simulator.Link.Restore.{process_header}
use p4simulator.Link.Transmit.{with_headers}
use p4simulator.Link.Packets.{ipv4, raw, library, host, laws}
use p4simulator.SwitchDevice.{
  SwitchDevice, Core, through, nothing, null_device, receive_from_device, with_ethernet,
  send_ns3_packet, core_of,
}
use p4simulator.SwitchDevice.{out_to, get_bridge_port, through_port, without_ethernet}
use p4simulator.SwitchDevice.Ports.{told, told-receive_from_device}
use p4simulator.SwitchDevice.Forwarding.{send_ns3_packet-forwards}

abbrev switch : SwitchDevice library
switch = record {
  switch_arch = 0;
  channel_type = 1;
  address = 99;
  ports = 10 ∷ 11 ∷ 12 ∷ [];
  has_promisc_callback = true;
}

abbrev port_device : Device library
port_device = record host { need_process_header = false }

abbrev same : ℕ → ℕ → Bool
same a b = a == b

-- A packet that comes in by device 12, the third port.
told-receive_from_device_example :
    told library (receive_from_device library same switch 12 (ipv4 1 ∷ raw 5 ∷ []) 0x0800 1 2)
    ≡ pos 0 ∷ []
unfolding core_of
told-receive_from_device_example =
    told-receive_from_device library same switch Core.v1model 12 (ipv4 1 ∷ raw 5 ∷ []) 0x0800 1 2
      (λ e. cc) refl

-- A port that the switch does not have.
no_such_port : send_ns3_packet library switch (some (raw 5 ∷ [])) 600 0x0800 7 ≡ null_device
unfolding send_ns3_packet out_to get_bridge_port through_port without_ethernet
no_such_port = refl

dropped : send_ns3_packet library switch (some (raw 5 ∷ [])) 511 0x0800 7 ≡ nothing
unfolding send_ns3_packet out_to without_ethernet
dropped = refl

send_ns3_packet-forwards_example :
    (process_header library 0 port_device
        (add_ethernet_header library (ipv4 1 ∷ raw 5 ∷ []) 3 4 0x0800)
        0
      ≡ some (ipv4 1 ∷ raw 5 ∷ [], 0x0800))
    × (send_ns3_packet library switch
          (some (with_ethernet library switch (ipv4 1 ∷ raw 5 ∷ []) 0x0800 1 2))
          2
          6
          8
        ≡ through 12 (ipv4 1 ∷ raw 5 ∷ []) 8 0x0800)
    × (with_headers library port_device (ipv4 1 ∷ raw 5 ∷ []) 7 8 0x0800
        ≡ add_ethernet_header library (ipv4 1 ∷ raw 5 ∷ []) 7 8 0x0800)
send_ns3_packet-forwards_example =
    send_ns3_packet-forwards library laws 0 switch port_device port_device (ipv4 1 ∷ raw 5 ∷ []) 3 4
      1 2 8 0x0800 6 2 12 refl refl (omega arith) (inr refl) (λ e. omega (arith, e)) refl
