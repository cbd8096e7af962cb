-- ===== src/SwitchDevice/Forwarding.antt =====
-- model/p4-switch-net-device.cc between the devices of two of its ports, model/custom-p2p-net-device.cc:
-- a frame that goes through the switch.
use p4simulator.Base.{
  ℕ, ◌^◌, ◌<◌, ◌≡◌, ◌≢◌, refl, ap, ◌∙◌, ◌⊎◌, inl, inr, false, some, get_elem?, arith, ==-false,
  if_false,
}
use p4simulator.Link.{Library, Device}
use p4simulator.Link.Headers.{ethernet_header, add_ethernet_header}
use p4simulator.Link.Restore.{process_header, without_outer}
use p4simulator.Link.Transmit.{with_headers}
use p4simulator.Link.Added.{HeaderLaws}
use p4simulator.SwitchDevice.{
  SwitchDevice, channel_csma, channel_p2p, with_ethernet, without_ethernet, send_ns3_packet,
  through,
}
use p4simulator.SwitchDevice.Ports.{stripped, send_ns3_packet-through}

module _ (L : Library) (laws : HeaderLaws L) where
  process_header-plain :
      (n : ℕ) (e : Device L) (p : L.Packet) (source dest : L.Address) (protocol : ℕ)
      → e.need_process_header ≡ false
      → protocol < 2 ^ 16
      → process_header L n e (add_ethernet_header L p source dest protocol) 0 ≡ some (p, protocol)
  unfolding process_header without_outer add_ethernet_header ethernet_header
  process_header-plain n e p source dest protocol plain small =
      let h : L.EthernetHeader = ethernet_header L source dest protocol in
      let r = laws.ethernet_reads h in
      if_false e.need_process_header _ _ plain
      ∙ ap some (
          ap (λ x. without_outer L (L.ethernet.add_header p h) x 0) (r.peeks p)
          ∙ rw
              (
                ==-false r.bytes 0 (λ f. omega (arith, f, r.some_bytes)),
                r.removes_again p,
                laws.type_set _ protocol small,
              )
              refl)

  stripped-with_ethernet :
      (p : L.Packet) (source dest : L.Address) (protocol other : ℕ)
      → protocol < 2 ^ 16
      → stripped L (L.ethernet.add_header p (ethernet_header L source dest protocol)) other
        ≡ (p, protocol)
  unfolding without_ethernet ethernet_header
  stripped-with_ethernet p source dest protocol other small =
      let h : L.EthernetHeader = ethernet_header L source dest protocol in
      let r = laws.ethernet_reads h in
      ap (λ x. without_ethernet L (L.ethernet.add_header p h) x other) (r.peeks p)
      ∙ rw
          (
            ==-false r.bytes 0 (λ f. omega (arith, f, r.some_bytes)),
            r.removes_again p,
            laws.type_set _ protocol small,
          )
          refl

  with_ethernet-added :
      (d : SwitchDevice L) (p : L.Packet) (protocol : ℕ) (src dst : L.Address)
      → (d.channel_type ≡ channel_csma) ⊎ (d.channel_type ≡ channel_p2p)
      → with_ethernet L d p protocol src dst
        ≡ L.ethernet.add_header p (ethernet_header L src dst protocol)
  unfolding with_ethernet
  with_ethernet-added d p protocol src dst (inl e) = rw e refl
  with_ethernet-added d p protocol src dst (inr e) = rw e refl

  -- A frame through the switch: what a port's device takes off the wire is the packet and its protocol;
  -- the switch puts it behind a new Ethernet header for the core; and when the core sends that packet, as
  -- it is, to a port, whatever protocol the core remembers, the port's device puts the same packet on its
  -- wire, with the same protocol. The ports' devices do not process custom headers.
  pub send_ns3_packet-forwards :
      (n : ℕ) (d : SwitchDevice L) (incoming outgoing : Device L) (p : L.Packet)
      (source dest src dst destination : L.Address) (protocol other out_port port : ℕ)
      → incoming.need_process_header ≡ false
      → outgoing.need_process_header ≡ false
      → protocol < 2 ^ 16
      → (d.channel_type ≡ channel_csma) ⊎ (d.channel_type ≡ channel_p2p)
      → out_port ≢ 511
      → get_elem? d.ports out_port ≡ some port
      → (process_header L n incoming (add_ethernet_header L p source dest protocol) 0
          ≡ some (p, protocol))
        × (send_ns3_packet L d
              (some (with_ethernet L d p protocol src dst))
              out_port
              other
              destination
            ≡ through port p destination protocol)
        × (with_headers L outgoing p outgoing.address destination protocol
            ≡ add_ethernet_header L p outgoing.address destination protocol)
  unfolding with_headers
  send_ns3_packet-forwards n d incoming outgoing p source dest src dst destination protocol other
        out_port port plain_in plain_out small channel ne there =
      (
        process_header-plain n incoming p source dest protocol plain_in small,
        send_ns3_packet-through L d (with_ethernet L d p protocol src dst) out_port other
              destination port ne there
            ∙ ap (λ r. through port r.0 destination r.1)
                (ap (λ q. stripped L q other) (with_ethernet-added d p protocol src dst channel)
                  ∙ stripped-with_ethernet p src dst protocol other small),
        if_false outgoing.need_process_header _ _ plain_out,
      )
