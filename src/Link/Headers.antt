-- ===== src/Link/Headers.antt =====
-- model/custom-p2p-net-device.cc, class CustomP2PNetDevice: the headers that a device adds to what it
-- sends. The source passes the numbers of protocols to `SetProtocolFieldNumber`, which takes the index
-- of a field; the model does as well.
use p4simulator.Base.{ℕ, Bool, true, false, ltb, ◌==◌, ◌||◌, if◌then◌else◌}
use p4simulator.CustomHeader.{
  CustomHeader, layer_2, layer_3, layer_4, layer_5, add_before, replace, add_after,
  set_protocol_field_number,
}
use p4simulator.Link.{HeaderClass, Library, Device, p4_protocol_number}

module _ (L : Library) where
  unfoldable pub transport_port : L.Packet → ℕ → ℕ
  transport_port p protocol =
      if protocol == 0x11
      then L.udp_destination_port (L.udp.peek_header p L.udp.new).1
      else if protocol == 0x06
      then L.tcp_destination_port (L.tcp.peek_header p L.tcp.new).1
      else 0

  unfoldable pub port_behind : L.Packet × ℕ × L.Ipv4Header → L.Packet × ℕ
  port_behind (p, n, ip_hd) =
      if n == 0
      then (p, 0)
      else (L.ipv4.add_header p ip_hd, transport_port p (L.get_protocol ip_hd))

  -- The packet, whose IPv4 header was taken off and put back, and the port.
  unfoldable pub get_dst_port : L.Packet → L.Packet × ℕ
  get_dst_port p = port_behind (L.ipv4.remove_header p L.ipv4.new)

  unfoldable pub around :
      {H : Type 0} → HeaderClass L.Packet H → L.Packet → CustomHeader → Bool → L.Packet
  around c p cus_hd remove =
      if remove
      then L.custom.add_header (c.remove_header p c.new).0 cus_hd
      else c.add_header (L.custom.add_header p cus_hd) c.new

  -- With any other protocol the packet is left alone; only log messages read the result.
  unfoldable pub handle_transport_layer_header : L.Packet → CustomHeader → ℕ → Bool → L.Packet
  handle_transport_layer_header p cus_hd protocol remove =
      if protocol == 0x11
      then around L.udp p cus_hd remove
      else if protocol == 0x06
      then around L.tcp p cus_hd remove
      else p

  unfoldable pub handle_layer_2 : L.Packet → CustomHeader → L.EthernetHeader → L.Packet
  handle_layer_2 p cus_hd eeh = elim cus_hd.op [
    | add_before ↦
        L.custom.add_header (L.ethernet.add_header p eeh) (set_protocol_field_number cus_hd 0x1)
    | replace ↦ L.custom.add_header p (set_protocol_field_number cus_hd 0x0800)
    | add_after ↦
        L.ethernet.add_header (L.custom.add_header p (set_protocol_field_number cus_hd 0x0800))
          (L.set_length_type eeh p4_protocol_number)
  ]

  -- `ADD_AFTER` writes the IPv4 header's protocol before it reads it.
  unfoldable pub after_ipv4 :
      L.Packet × ℕ × L.Ipv4Header → CustomHeader → L.EthernetHeader → L.Packet
  after_ipv4 (p, n, ip_hd) cus_hd eeh =
      if n == 0
      then p
      else (let ip_hd : L.Ipv4Header = L.set_protocol ip_hd p4_protocol_number in
          L.ethernet.add_header
            (L.ipv4.add_header
              (L.custom.add_header p (set_protocol_field_number cus_hd (L.get_protocol ip_hd)))
              ip_hd)
            eeh)

  unfoldable pub instead_of_ipv4 :
      L.Packet × ℕ × L.Ipv4Header → CustomHeader → L.EthernetHeader → L.Packet
  instead_of_ipv4 (p, n, ip_hd) cus_hd eeh =
      if n == 0
      then p
      else L.ethernet.add_header
          (L.custom.add_header p (set_protocol_field_number cus_hd (L.get_protocol ip_hd)))
          (L.set_length_type eeh p4_protocol_number)

  unfoldable pub handle_layer_3 : L.Packet → CustomHeader → L.EthernetHeader → L.Packet
  handle_layer_3 p cus_hd eeh = elim cus_hd.op [
    | add_before ↦
        L.ethernet.add_header (L.custom.add_header p (set_protocol_field_number cus_hd 0x0800))
          (L.set_length_type eeh p4_protocol_number)
    | replace ↦ instead_of_ipv4 (L.ipv4.remove_header p L.ipv4.new) cus_hd eeh
    | add_after ↦ after_ipv4 (L.ipv4.remove_header p L.ipv4.new) cus_hd eeh
  ]

  -- The packet under its IPv4 header, and the IPv4 header to put back.
  unfoldable pub below_ipv4 : L.Packet → L.Ipv4Header → CustomHeader → L.Packet × L.Ipv4Header
  below_ipv4 p ip_hd cus_hd = elim cus_hd.op [
    | add_before ↦ (
      L.custom.add_header p (set_protocol_field_number cus_hd (L.get_protocol ip_hd)),
      L.set_protocol ip_hd p4_protocol_number,
    )
    | replace ↦ (handle_transport_layer_header p cus_hd (L.get_protocol ip_hd) true, ip_hd)
    | add_after ↦ (handle_transport_layer_header p cus_hd (L.get_protocol ip_hd) false, ip_hd)
  ]

  unfoldable pub with_ipv4 : L.Packet × L.Ipv4Header → L.EthernetHeader → L.Packet
  with_ipv4 (p, ip_hd) eeh = L.ethernet.add_header (L.ipv4.add_header p ip_hd) eeh

  unfoldable pub within_ipv4 :
      L.Packet × ℕ × L.Ipv4Header → CustomHeader → L.EthernetHeader → L.Packet
  within_ipv4 (p, n, ip_hd) cus_hd eeh =
      if n == 0 then p else with_ipv4 (below_ipv4 p ip_hd (set_protocol_field_number cus_hd 0)) eeh

  unfoldable pub handle_layer_4 : L.Packet → CustomHeader → L.EthernetHeader → L.Packet
  handle_layer_4 p cus_hd eeh = within_ipv4 (L.ipv4.remove_header p L.ipv4.new) cus_hd eeh

  unfoldable pub ethernet_header : L.Address → L.Address → ℕ → L.EthernetHeader
  ethernet_header source dest protocol =
      L.set_length_type (L.set_destination (L.set_source L.ethernet.new source) dest) protocol

  unfoldable pub add_ethernet_header : L.Packet → L.Address → L.Address → ℕ → L.Packet
  add_ethernet_header p source dest protocol =
      L.ethernet.add_header p (ethernet_header source dest protocol)

  -- The custom header by its layer. In layer 5 nothing is added, and no Ethernet header either.
  unfoldable pub add_custom_header : L.Packet → CustomHeader → L.EthernetHeader → L.Packet
  add_custom_header p cus_hd eeh = elim cus_hd.layer [
    | layer_2 ↦ handle_layer_2 p cus_hd eeh
    | layer_3 ↦ handle_layer_3 p cus_hd eeh
    | layer_4 ↦ handle_layer_4 p cus_hd eeh
    | layer_5 ↦ p
  ]

  unfoldable pub add_for_port : Device L → L.Packet × ℕ → L.EthernetHeader → L.Packet
  add_for_port d (p, dst_port) eeh =
      if ltb dst_port d.custom_dst_port_min || ltb d.custom_dst_port_max dst_port
      then L.ethernet.add_header p eeh
      else add_custom_header p (set_protocol_field_number d.header 0) eeh

  unfoldable pub add_header : Device L → L.Packet → L.Address → L.Address → ℕ → L.Packet
  add_header d p source dest protocol =
      add_for_port d (get_dst_port p) (ethernet_header source dest protocol)
