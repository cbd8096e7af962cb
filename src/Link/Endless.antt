-- ===== src/Link/Endless.antt =====
-- model/custom-p2p-net-device.cc, `RestoreHeaders`: a packet that its parsing loop never gets past.
use p4simulator.Base.{
  ℕ, zero, suc, ◌<◌, ◌≡◌, refl, ap, ◌∙◌, true, none, List, [], ◌∷◌, arith, if_true, ==-false,
  lt→ltb,
}
use p4simulator.Link.{Library, Device}
use p4simulator.Link.Headers.{
  add_header, get_dst_port, port_behind, transport_port, add_for_port, ethernet_header,
}
use p4simulator.Link.Restore.{
  Parsed, parse_step, parse, new_headers, reversed, restore_headers, with_inner, process_header,
}
use p4simulator.Link.Added.{HeaderLaws, behind-ethernet, ipv4-added}
use p4simulator.Link.Rounds.{parse-endless}

module _ (L : Library) (laws : HeaderLaws L) (e d : Device L) (rest : L.Packet) (ip : L.Ipv4Header)
    (source dest : L.Address) (icmp : L.get_protocol ip ≡ 1) where
  abbrev echo : L.Packet
  echo = L.ipv4.add_header rest ip

  -- The sender finds no port, and adds an Ethernet header only.
  echo-added :
      0 < d.custom_dst_port_min
      → add_header L d echo source dest 0x0800
        ≡ L.ethernet.add_header echo (ethernet_header L source dest 0x0800)
  unfolding add_header get_dst_port port_behind transport_port add_for_port
  echo-added ports =
      ap (λ r. add_for_port L d (port_behind L r) (ethernet_header L source dest 0x0800))
        ((laws.ipv4_reads ip).removes rest)
      ∙ rw
          (
            ==-false (laws.ipv4_reads ip).bytes 0
                (λ h. omega (arith, h, (laws.ipv4_reads ip).some_bytes)),
            icmp,
            lt→ltb 0 d.custom_dst_port_min ports,
          )
          refl

  echo-parsed :
      (fuel : ℕ) (s : Parsed L) (stack : List ℕ)
      → parse L fuel e (record s { packet = echo; ip_hd = L.ipv4.new }, 0x0800) stack ≡ none
  unfolding parse parse_step
  echo-parsed zero s stack = refl
  echo-parsed (suc n) s stack =
      ap (λ r. parse L n e r (0x0800 ∷ stack))
        (ipv4-added L laws s rest ip ∙ ap (λ m. (record s { packet = rest; ip_hd = ip }, m)) icmp)
      ∙ parse-endless L n e (record s { packet = rest; ip_hd = ip }) (0x0800 ∷ stack)

  -- The simulator hangs on a ping: a device that processes custom headers never gets the headers of an
  -- IPv4 packet of protocol 1, ICMP, restored, however often the parsing loop runs, when another device,
  -- whose ports for custom headers start above 0, sends the packet from its own stack.
  pub process_header-icmp :
      (fuel : ℕ)
      → 0 < d.custom_dst_port_min
      → e.need_process_header ≡ true
      → process_header L fuel e (add_header L d echo source dest 0x0800) 0 ≡ none
  unfolding process_header with_inner new_headers ethernet_header reversed
  process_header-icmp fuel ports need =
      if_true e.need_process_header _ _ need
      ∙ ap (λ o. with_inner L o 0)
          (ap (restore_headers L fuel e) (echo-added ports)
            ∙ behind-ethernet L laws e fuel 0x0800 echo (ethernet_header L source dest 0x0800)
                (λ h. omega (arith, h)) (laws.type_set _ 0x0800 (omega arith))
            ∙ ap (reversed L) (
                echo-parsed fuel
                  (record (new_headers L echo) { eeh_hd = ethernet_header L source dest 0x0800 })
                  []))
