-- ===== src/Link/Added.antt =====
-- model/custom-p2p-net-device.cc: headers that were just added are found and taken off again.
use p4simulator.Base.{
  ℕ, zero, suc, ◌^◌, ◌<◌, ◌≡◌, ◌≢◌, refl, ap, ◌∙◌, true, some, List, [], ◌∷◌, arith, ==-false,
}
use p4simulator.CustomHeader.{CustomHeader, get_protocol_number}
use p4simulator.Link.{HeaderClass, Library, Device}
use p4simulator.Link.Restore.{
  Parsed, check, remove_if, removed, check_if_ethernet_header, check_if_ipv4_header,
  check_if_udp_header, check_if_custom_header, parse_step, parse, reversed, without_ethernet,
  new_headers, restore_headers,
}

-- What the packet library promises of a header that was just added: it is read back, into any object of
-- the class as `read` of it, and what it was added to is left.
pub record Readable {Packet Header : Type 0} (c : HeaderClass Packet Header) (h into : Header)
    (read : Header) : Type 0 where
  pub bytes : ℕ
  pub some_bytes : 0 < bytes
  pub peeks : (p : Packet) → c.peek_header (c.add_header p h) into ≡ (bytes, read)
  pub removes : (p : Packet) → c.remove_header (c.add_header p h) into ≡ (p, bytes, read)
  pub removes_again : (p : Packet) → c.remove_header (c.add_header p h) read ≡ (p, bytes, read)

pub check-added :
    {Packet Header : Type 0} (c : HeaderClass Packet Header) (h into read : Header) (p : Packet)
    → Readable c h into read
    → check c (c.add_header p h) into ≡ (p, read, true)
unfolding check remove_if removed
check-added c h into read p r =
    ap (remove_if c (c.add_header p h)) (r.peeks p)
    ∙ rw (==-false r.bytes 0 (λ e. omega (arith, e, r.some_bytes)), r.removes_again p) refl

module _ (L : Library) where
  pub parse-done :
      (n : ℕ) (d : Device L) (s : Parsed L) (stack : List ℕ)
      → parse L n d (s, 0) stack ≡ some (s, stack)
  unfolding parse
  parse-done zero d s stack = refl
  parse-done (suc n) d s stack = refl

  pub parse-next :
      (n : ℕ) (d : Device L) (s : Parsed L) (protocol : ℕ) (stack : List ℕ)
      → protocol ≢ 0
      → parse L (suc n) d (s, protocol) stack
        ≡ parse L n d (parse_step L d s protocol) (protocol ∷ stack)
  unfolding parse
  parse-next n d s protocol stack ne = rw (==-false protocol 0 ne) refl

-- The packet library's promises for the headers that the simulator has.
pub record HeaderLaws (L : Library) : Type 0 where
  pub ethernet_reads : (h : L.EthernetHeader) → Readable L.ethernet h L.ethernet.new h
  pub ipv4_reads : (h : L.Ipv4Header) → Readable L.ipv4 h L.ipv4.new h
  pub udp_reads : (h : L.UdpHeader) → Readable L.udp h L.udp.new h
  pub type_set :
      (h : L.EthernetHeader) (n : ℕ) → n < 2 ^ 16 → L.get_length_type (L.set_length_type h n) ≡ n

module _ (L : Library) (laws : HeaderLaws L) where
  pub ethernet-added :
      (s : Parsed L) (p : L.Packet) (h : L.EthernetHeader)
      → check_if_ethernet_header L
          (record s { packet = L.ethernet.add_header p h; eeh_hd = L.ethernet.new })
        ≡ (record s { packet = p; eeh_hd = h }, L.get_length_type h)
  unfolding check_if_ethernet_header
  ethernet-added s p h =
      rw (check-added L.ethernet h L.ethernet.new h p (laws.ethernet_reads h)) refl

  pub ipv4-added :
      (s : Parsed L) (p : L.Packet) (h : L.Ipv4Header)
      → check_if_ipv4_header L (record s { packet = L.ipv4.add_header p h; ip_hd = L.ipv4.new })
        ≡ (record s { packet = p; ip_hd = h }, L.get_protocol h)
  unfolding check_if_ipv4_header
  ipv4-added s p h = rw (check-added L.ipv4 h L.ipv4.new h p (laws.ipv4_reads h)) refl

  pub udp-added :
      (s : Parsed L) (p : L.Packet) (h : L.UdpHeader)
      → check_if_udp_header L (record s { packet = L.udp.add_header p h; udp_hd = L.udp.new })
        ≡ (record s { packet = p; udp_hd = h }, 0)
  unfolding check_if_udp_header
  udp-added s p h = rw (check-added L.udp h L.udp.new h p (laws.udp_reads h)) refl

  pub custom-added :
      (d : Device L) (s : Parsed L) (p : L.Packet) (h read : CustomHeader)
      → Readable L.custom h d.header read
      → check_if_custom_header L d (record s { packet = L.custom.add_header p h })
        ≡ (record s { packet = p }, get_protocol_number read)
  unfolding check_if_custom_header
  custom-added d s p h read r = rw (check-added L.custom h d.header read p r) refl

  -- What `RestoreHeaders` parses behind an Ethernet header.
  pub behind-ethernet :
      (e : Device L) (n protocol : ℕ) (p : L.Packet) (h : L.EthernetHeader)
      → protocol ≢ 0
      → L.get_length_type h ≡ protocol
      → restore_headers L n e (L.ethernet.add_header p h)
        ≡ reversed L (parse L n e (record (new_headers L p) { eeh_hd = h }, protocol) [])
  unfolding restore_headers new_headers without_ethernet
  behind-ethernet e n protocol p h ne t =
      ap (λ r. reversed L (parse L n e (without_ethernet L e r) []))
        (ethernet-added (new_headers L p) p h
          ∙ ap (λ t. (record (new_headers L p) { eeh_hd = h }, t)) t)
      ∙ rw (==-false protocol 0 ne) refl
