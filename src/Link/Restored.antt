-- ===== src/Link/Restored.antt =====
-- model/custom-p2p-net-device.cc: what a device gets back from the headers that another one added.
use p4simulator.Base.{
  ℕ, suc, ◌≡◌, refl, sym, ap, subst, ◌∙◌, Bool, true, false, some, List, [], ◌∷◌, ltb, ◌==◌, ◌||◌,
  if◌then◌else◌, arith, Bool-cases, if_true, inl, inr, ◌⊎◌, length, lt→ltb, ==-false,
}
use p4simulator.CustomHeader.{
  CustomHeader, layer_2, layer_3, add_before, add_after, get_protocol_number,
  set_protocol_field_number,
}
use p4simulator.Link.{Library, Device, p4_protocol_number}
use p4simulator.Link.Headers.{
  add_header, get_dst_port, port_behind, transport_port, add_for_port, add_custom_header,
  handle_layer_2, handle_layer_3, ethernet_header,
}
use p4simulator.Link.Restore.{
  Parsed, then_custom, is_after_transport, parse_step, parse, put_back, reverse, reversed,
  new_headers, restore_headers, inner_protocol, with_inner, process_header,
}
use p4simulator.Link.Added.{
  Readable, HeaderLaws, parse-next, parse-done, ipv4-added, udp-added, custom-added,
  behind-ethernet,
}

-- The custom header is put between the Ethernet header and the packet.
abbrev pub BetweenEthernet : CustomHeader → Type 0
BetweenEthernet h =
    ((h.layer ≡ layer_3) × (h.op ≡ add_before)) ⊎ ((h.layer ≡ layer_2) × (h.op ≡ add_after))

BetweenEthernet-set :
    (h : CustomHeader) (i : ℕ) → BetweenEthernet h → BetweenEthernet (set_protocol_field_number h i)
unfolding set_protocol_field_number
BetweenEthernet-set h i b = elim (Bool-cases ((length h.fields == 0) || ltb i (length h.fields))) [
  | inl e ↦ rw e b
  | inr e ↦ rw e b
]

module _ (L : Library) (laws : HeaderLaws L) where
  -- What is sent with a custom header between the Ethernet header and the packet.
  abbrev between : L.Packet → CustomHeader → L.EthernetHeader → L.Packet
  between p h eeh =
      L.ethernet.add_header (L.custom.add_header p (set_protocol_field_number h 0x0800))
        (L.set_length_type eeh p4_protocol_number)

  abbrev AddsBetween : L.Packet → L.EthernetHeader → CustomHeader → Type 0
  AddsBetween p eeh h = add_custom_header L p h eeh ≡ between p h eeh

  add_between-fields :
      (p : L.Packet) (eeh : L.EthernetHeader) (h : CustomHeader)
      → AddsBetween p eeh (record h { layer = layer_3; op = add_before })
        × AddsBetween p eeh (record h { layer = layer_2; op = add_after })
  unfolding add_custom_header handle_layer_2 handle_layer_3
  add_between-fields p eeh h = (refl, refl)

  add_between :
      (p : L.Packet) (h : CustomHeader) (eeh : L.EthernetHeader)
      → BetweenEthernet h
      → add_custom_header L p h eeh ≡ between p h eeh
  add_between p h eeh (inl (e, f)) =
      subst (λ layer. AddsBetween p eeh (record h { layer = layer })) (sym e)
        (subst (λ op. AddsBetween p eeh (record h { layer = layer_3; op = op })) (sym f)
          (add_between-fields p eeh h).0)
  add_between p h eeh (inr (e, f)) =
      subst (λ layer. AddsBetween p eeh (record h { layer = layer })) (sym e)
        (subst (λ op. AddsBetween p eeh (record h { layer = layer_2; op = op })) (sym f)
          (add_between-fields p eeh h).1)

  module _ (e : Device L) (rest : L.Packet) (u : L.UdpHeader) (ip : L.Ipv4Header)
      (is_udp : L.get_protocol ip ≡ 0x11) (no_more : is_after_transport e.header ≡ false) where
    -- The packet of an IPv4 and a UDP header.
    abbrev datagram : L.Packet
    datagram = L.ipv4.add_header (L.udp.add_header rest u) ip

    done_after : (s : Parsed L) → then_custom L e.header (s, 0) ≡ (s, 0)
    unfolding then_custom
    done_after s = rw no_more refl

    parse-datagram :
        (n : ℕ) (s : Parsed L) (stack : List ℕ)
        → parse L
            (suc (suc n))
            e
            (record s { packet = datagram; ip_hd = L.ipv4.new; udp_hd = L.udp.new }, 0x0800)
            stack
          ≡ some (record s { packet = rest; ip_hd = ip; udp_hd = u }, 0x11 ∷ 0x0800 ∷ stack)
    unfolding parse_step
    parse-datagram n s stack =
        parse-next L (suc n) e _ 0x0800 stack (λ h. omega (arith, h))
        ∙ ap (λ r. parse L (suc n) e r (0x0800 ∷ stack))
            (ipv4-added L laws (record s { udp_hd = L.udp.new }) (L.udp.add_header rest u) ip
              ∙ ap
                  (λ protocol. (
                    record s { packet = L.udp.add_header rest u; ip_hd = ip; udp_hd = L.udp.new },
                    protocol,
                  ))
                  is_udp)
        ∙ parse-next L n e _ 0x11 (0x0800 ∷ stack) (λ h. omega (arith, h))
        ∙ ap (λ r. parse L n e r (0x11 ∷ 0x0800 ∷ stack))
            (ap (then_custom L e.header) (udp-added L laws (record s { ip_hd = ip }) rest u)
              ∙ done_after (record s { packet = rest; ip_hd = ip; udp_hd = u }))
        ∙ parse-done L n e (record s { packet = rest; ip_hd = ip; udp_hd = u })
            (0x11 ∷ 0x0800 ∷ stack)

    restore-plain :
        (n : ℕ) (h : L.EthernetHeader)
        → L.get_length_type h ≡ 0x0800
        → restore_headers L (suc (suc n)) e (L.ethernet.add_header datagram h) ≡ some datagram
    unfolding new_headers reversed reverse put_back
    restore-plain n h t =
        behind-ethernet L laws e (suc (suc n)) 0x0800 datagram h (λ f. omega (arith, f)) t
        ∙ ap (reversed L) (parse-datagram n (record (new_headers L datagram) { eeh_hd = h }) [])

    restore-custom :
        (n : ℕ) (h : L.EthernetHeader) (cus read : CustomHeader)
        → L.get_length_type h ≡ p4_protocol_number
        → Readable L.custom cus e.header read
        → get_protocol_number read ≡ 0x0800
        → restore_headers L
            (suc (suc (suc n)))
            e
            (L.ethernet.add_header (L.custom.add_header datagram cus) h)
          ≡ some datagram
    unfolding new_headers reversed reverse put_back parse_step
    restore-custom n h cus read t reads next =
        behind-ethernet L laws e (suc (suc (suc n))) 0xDC (L.custom.add_header datagram cus) h
          (λ f. omega (arith, f)) t
        ∙ ap (reversed L) (
            parse-next L (suc (suc n)) e _ 0xDC [] (λ f. omega (arith, f))
            ∙ ap (λ r. parse L (suc (suc n)) e r (0xDC ∷ []))
                (custom-added L laws e (record (new_headers L datagram) { eeh_hd = h }) datagram cus
                    read reads
                  ∙ ap (λ m. (record (new_headers L datagram) { eeh_hd = h }, m)) next)
            ∙ parse-datagram n (record (new_headers L datagram) { eeh_hd = h }) (0xDC ∷ []))

    -- The port that the sender finds.
    datagram-port : get_dst_port L datagram ≡ (datagram, L.udp_destination_port u)
    unfolding get_dst_port port_behind transport_port
    datagram-port =
        ap (port_behind L) ((laws.ipv4_reads ip).removes (L.udp.add_header rest u))
        ∙ rw
            (
              ==-false (laws.ipv4_reads ip).bytes 0
                  (λ h. omega (arith, h, (laws.ipv4_reads ip).some_bytes)),
              is_udp,
              (laws.udp_reads u).peeks rest,
            )
            refl

    -- The port decides what the sender adds.
    added :
        (d : Device L) (source dest : L.Address) (q : L.Packet)
        → (let eeh : L.EthernetHeader = ethernet_header L source dest 0x0800 in
            let is_out : Bool =
              ltb (L.udp_destination_port u) d.custom_dst_port_min
              || ltb d.custom_dst_port_max (L.udp_destination_port u) in
            (if is_out
              then L.ethernet.add_header datagram eeh
              else add_custom_header L datagram (set_protocol_field_number d.header 0) eeh)
            ≡ q)
        → add_header L d datagram source dest 0x0800 ≡ q
    unfolding add_header add_for_port
    added d source dest q h =
        ap (λ r. add_for_port L d r (ethernet_header L source dest 0x0800)) datagram-port ∙ h

    processed :
        (n : ℕ) (p : L.Packet)
        → e.need_process_header ≡ true
        → restore_headers L n e p ≡ some datagram
        → process_header L n e p 0 ≡ some (datagram, 0x0800)
    unfolding process_header with_inner inner_protocol
    processed n p need h =
        if_true e.need_process_header _ _ need
        ∙ ap (λ o. with_inner L o 0) h
        ∙ rw
            (
              (laws.ipv4_reads ip).peeks (L.udp.add_header rest u),
              lt→ltb 0 (laws.ipv4_reads ip).bytes (laws.ipv4_reads ip).some_bytes,
            )
            refl

    -- A UDP datagram over IPv4 that one device sends from its own stack, another one restores to the
    -- packet and its protocol, IPv4, whether the port is one of those that get the custom header or not:
    -- if the sender's custom header is put between the Ethernet header and the packet; if the receiver
    -- processes headers, and the custom header that it looks for does not stand behind the transport
    -- header; and if the receiver reads the custom header back with 0x0800 for the protocol number.
    pub process_header-add_header :
        (d : Device L) (source dest : L.Address) (read : CustomHeader) (n : ℕ)
        → e.need_process_header ≡ true
        → BetweenEthernet d.header
        → Readable L.custom
            (set_protocol_field_number (set_protocol_field_number d.header 0) 0x0800)
            e.header
            read
        → get_protocol_number read ≡ 0x0800
        → process_header L (suc (suc (suc n))) e (add_header L d datagram source dest 0x0800) 0
          ≡ some (datagram, 0x0800)
    unfolding ethernet_header
    process_header-add_header d source dest read n need placed reads next =
        let sent : CustomHeader = set_protocol_field_number d.header 0 in
        let cus : CustomHeader = set_protocol_field_number sent 0x0800 in
        let eeh : L.EthernetHeader = ethernet_header L source dest 0x0800 in
        processed (suc (suc (suc n))) (add_header L d datagram source dest 0x0800) need
          (elim (Bool-cases (
            ltb (L.udp_destination_port u) d.custom_dst_port_min
            || ltb d.custom_dst_port_max (L.udp_destination_port u))) [
              | inl out ↦
                  ap (restore_headers L (suc (suc (suc n))) e)
                    (added d source dest (L.ethernet.add_header datagram eeh) (rw out refl))
                  ∙ restore-plain (suc n) eeh (laws.type_set _ 0x0800 (omega arith))
              | inr within ↦
                  ap (restore_headers L (suc (suc (suc n))) e) (
                    added d source dest
                      (L.ethernet.add_header (L.custom.add_header datagram cus)
                        (L.set_length_type eeh p4_protocol_number))
                      (rw within
                        (add_between datagram sent eeh (BetweenEthernet-set d.header 0 placed))))
                  ∙ restore-custom n (L.set_length_type eeh p4_protocol_number) cus read
                      (laws.type_set eeh 0xDC (omega arith)) reads next
            ])
