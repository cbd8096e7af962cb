-- ===== src/Link/Restore.antt =====
-- model/custom-p2p-net-device.cc, class CustomP2PNetDevice: what a device does to the headers of a
-- packet that it receives.
use p4simulator.Base.{
  ℕ, zero, suc, Bool, true, false, Option, none, some, List, [], ◌∷◌, ◌==◌, ltb, if◌then◌else◌,
}
use p4simulator.CustomHeader.{
  CustomHeader, layer_2, layer_3, layer_4, layer_5, add_before, replace, add_after,
  get_protocol_number,
}
use p4simulator.Link.{HeaderClass, Library, Device, p4_protocol_number}

module _ {Packet H : Type 0} where
  unfoldable pub removed : Packet × ℕ × H → Packet × H × Bool
  removed (p, n, h) = (p, h, true)

  unfoldable pub remove_if : HeaderClass Packet H → Packet → ℕ × H → Packet × H × Bool
  remove_if c p (n, h) = if n == 0 then (p, h, false) else removed (c.remove_header p h)

  -- What the `CheckIf...Header` methods have in common: a header that is there is removed. The Boolean
  -- tells whether it was there.
  unfoldable pub check : HeaderClass Packet H → Packet → H → Packet × H × Bool
  check c p h = remove_if c p (c.peek_header p h)

-- Whether the custom header stands behind the transport header.
unfoldable pub is_after_transport : CustomHeader → Bool
is_after_transport h = elim h.layer [
  | layer_2 ↦ false
  | layer_3 ↦ false
  | layer_4 ↦ elim h.op [ add_before ↦ false | replace ↦ false | add_after ↦ true ]
  | layer_5 ↦ false
]

module _ (L : Library) where
  -- The packet and the headers that `RestoreHeaders` takes off it. What a method returns is kept beside
  -- them: the number of the next protocol, 0 for none.
  pub record Parsed : Type 0 where
    pub packet : L.Packet
    pub eeh_hd : L.EthernetHeader
    pub ip_hd : L.Ipv4Header
    pub arp_hd : L.ArpHeader
    pub udp_hd : L.UdpHeader
    pub tcp_hd : L.TcpHeader

  unfoldable pub check_if_ethernet_header : Parsed → Parsed × ℕ
  check_if_ethernet_header s =
      let (p, h, found) = check L.ethernet s.packet s.eeh_hd in
      (record s { packet = p; eeh_hd = h }, if found then L.get_length_type h else 0)

  unfoldable pub check_if_ipv4_header : Parsed → Parsed × ℕ
  check_if_ipv4_header s =
      let (p, h, found) = check L.ipv4 s.packet s.ip_hd in
      (record s { packet = p; ip_hd = h }, if found then L.get_protocol h else 0)

  unfoldable pub check_if_arp_header : Parsed → Parsed × ℕ
  check_if_arp_header s =
      let (p, h, found) = check L.arp s.packet s.arp_hd in (record s { packet = p; arp_hd = h }, 0)

  unfoldable pub check_if_udp_header : Parsed → Parsed × ℕ
  check_if_udp_header s =
      let (p, h, found) = check L.udp s.packet s.udp_hd in (record s { packet = p; udp_hd = h }, 0)

  unfoldable pub check_if_tcp_header : Parsed → Parsed × ℕ
  check_if_tcp_header s =
      let (p, h, found) = check L.tcp s.packet s.tcp_hd in (record s { packet = p; tcp_hd = h }, 0)

  unfoldable pub check_if_custom_header : Device L → Parsed → Parsed × ℕ
  check_if_custom_header d s =
      let (p, h, found) = check L.custom s.packet d.header in
      (record s { packet = p }, if found then get_protocol_number h else 0)

  unfoldable pub then_custom : CustomHeader → Parsed × ℕ → Parsed × ℕ
  then_custom h (s, protocol) = (s, if is_after_transport h then p4_protocol_number else protocol)

  -- The `switch` of the parsing loop.
  unfoldable pub parse_step : Device L → Parsed → ℕ → Parsed × ℕ
  parse_step d s protocol =
      if protocol == 0x1
      then (s, protocol)
      else if protocol == 0x0800
      then check_if_ipv4_header s
      else if protocol == 0x0806
      then check_if_arp_header s
      else if protocol == 0x86DD
      then (s, 0)
      else if protocol == 0x11
      then then_custom d.header (check_if_udp_header s)
      else if protocol == 0x06
      then then_custom d.header (check_if_tcp_header s)
      else if protocol == p4_protocol_number
      then check_if_custom_header d s
      else (s, 0)

  -- The parsing loop, on fuel: the headers, and the stack of the protocols. A loop that has not ended
  -- when the fuel is used up is `none`.
  unfoldable pub parse : ℕ → Device L → Parsed × ℕ → List ℕ → Option (Parsed × List ℕ)
  parse zero d (s, protocol) stack = if protocol == 0 then some (s, stack) else none
  parse (suc fuel) d (s, protocol) stack =
      let rest : Option (Parsed × List ℕ) =
        parse fuel d (parse_step d s protocol) (protocol ∷ stack) in
      if protocol == 0 then some (s, stack) else rest

  -- The `switch` of the reverse loop.
  unfoldable pub put_back : Parsed → ℕ → Parsed
  put_back s protocol =
      if protocol == p4_protocol_number
      then s
      else if protocol == 0x11
      then record s { packet = L.udp.add_header s.packet s.udp_hd }
      else if protocol == 0x06
      then record s { packet = L.tcp.add_header s.packet s.tcp_hd }
      else if protocol == 0x0800
      then record s { packet = L.ipv4.add_header s.packet s.ip_hd }
      else if protocol == 0x1
      then record s { packet = L.ethernet.add_header s.packet s.eeh_hd }
      else s

  unfoldable pub reverse : Parsed → List ℕ → L.Packet
  reverse s [] = s.packet
  reverse s (protocol ∷ stack) = reverse (put_back s protocol) stack

  -- Without an Ethernet header the custom header is looked for at the front.
  unfoldable pub without_ethernet : Device L → Parsed × ℕ → Parsed × ℕ
  without_ethernet d (s, protocol) =
      if protocol == 0 then check_if_custom_header d s else (s, protocol)

  unfoldable pub new_headers : L.Packet → Parsed
  new_headers p = record {
    packet = p;
    eeh_hd = L.ethernet.new;
    ip_hd = L.ipv4.new;
    arp_hd = L.arp.new;
    udp_hd = L.udp.new;
    tcp_hd = L.tcp.new;
  }

  unfoldable pub reversed : Option (Parsed × List ℕ) → Option L.Packet
  reversed none = none
  reversed (some (s, stack)) = some (reverse s stack)

  unfoldable pub restore_headers : ℕ → Device L → L.Packet → Option L.Packet
  restore_headers fuel d p =
      reversed (parse fuel d (without_ethernet d (check_if_ethernet_header (new_headers p))) [])

  -- The protocol of a restored packet: IPv4, ARP, or the parameter as it was.
  unfoldable pub inner_protocol : L.Packet → ℕ → ℕ
  inner_protocol p param =
      if ltb 0 (L.ipv4.peek_header p L.ipv4.new).0
      then 0x0800
      else if ltb 0 (L.arp.peek_header p L.arp.new).0
      then 0x0806
      else param

  unfoldable pub with_inner : Option L.Packet → ℕ → Option (L.Packet × ℕ)
  with_inner none param = none
  with_inner (some p) param = some (p, inner_protocol p param)

  unfoldable pub without_outer : L.Packet → ℕ × L.EthernetHeader → ℕ → L.Packet × ℕ
  without_outer p (n, eth) param =
      if n == 0 then (p, param) else ((L.ethernet.remove_header p eth).0, L.get_length_type eth)

  -- The packet and the protocol's number. The result of the method is always true.
  unfoldable pub process_header : ℕ → Device L → L.Packet → ℕ → Option (L.Packet × ℕ)
  process_header fuel d p param =
      if d.need_process_header
      then with_inner (restore_headers fuel d p) param
      else some (without_outer p (L.ethernet.peek_header p L.ethernet.new) param)
