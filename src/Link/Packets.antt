-- ===== src/Link/Packets.antt =====
-- For the examples, a link over packets that are lists of headers: an IPv4 header is its protocol, a UDP or TCP header its
-- destination port, and the queue holds two packets.
use p4simulator.Base.{
  ℕ, suc, ◌+◌, ◌<◌, ◌≡◌, refl, sym, ap, Bool, true, false, Option, none, some, List, [], ◌∷◌, ◌++◌,
  ltb, length, arith, Option-cases, ◌∙◌, inl, inr,
}
use p4simulator.CustomHeader.{CustomHeader, layer_3, add_before, init}
use p4simulator.Link.{Library, HeaderClass, Device, ready}
use p4simulator.Link.Added.{Readable, HeaderLaws}
use p4simulator.Link.Line.{QueueLaws}
use mathlib.Core.Option.{none-ne-some, some-injective}
use p4simulator.Link.Rounds.{Shrinks}

pub record Ethernet : Type 0 where
  pub source : ℕ
  pub destination : ℕ
  pub length_type : ℕ

pub data Part : Type 0 where
  ethernet : Ethernet → Part
  ipv4 arp udp tcp raw : ℕ → Part
  custom : CustomHeader → Part

abbrev pub bytes : Part → ℕ
bytes (ethernet h) = 14
bytes (ipv4 h) = 20
bytes (arp h) = 28
bytes (udp h) = 8
bytes (tcp h) = 20
bytes (raw n) = suc n
bytes (custom h) = 8

abbrev pub Packet : Type 0
Packet = List Part

abbrev pub total : Packet → ℕ
total [] = 0
total (x ∷ xs) = bytes x + total xs

abbrev pub read_as : {H : Type 0} → ℕ → Part → Packet → H → Option H → Packet × ℕ × H
read_as n x xs h none = (x ∷ xs, 0, h)
read_as n x xs h (some r) = (xs, n, r)

-- A class whose headers are read off a packet's first part.
abbrev pub reading : {H : Type 0} → ℕ → (Part → H → Option H) → Packet → H → Packet × ℕ × H
reading n read [] h = ([], 0, h)
reading n read (x ∷ xs) h = read_as n x xs h (read x h)

abbrev pub class : {H : Type 0} → H → ℕ → (H → Part) → (Part → H → Option H) → HeaderClass Packet H
class new n make read = record {
  new = new;
  add_header = λ p h. make h ∷ p;
  peek_header = λ p h. ((reading n read p h).1, (reading n read p h).2);
  remove_header = λ p h. reading n read p h;
}

abbrev pub ethernet_of : Part → Option Ethernet
ethernet_of (ethernet h) = some h
ethernet_of (ipv4 h) = none
ethernet_of (arp h) = none
ethernet_of (udp h) = none
ethernet_of (tcp h) = none
ethernet_of (raw n) = none
ethernet_of (custom h) = none

abbrev pub ipv4_of : Part → Option ℕ
ipv4_of (ethernet h) = none
ipv4_of (ipv4 h) = some h
ipv4_of (arp h) = none
ipv4_of (udp h) = none
ipv4_of (tcp h) = none
ipv4_of (raw n) = none
ipv4_of (custom h) = none

abbrev pub arp_of : Part → Option ℕ
arp_of (ethernet h) = none
arp_of (ipv4 h) = none
arp_of (arp h) = some h
arp_of (udp h) = none
arp_of (tcp h) = none
arp_of (raw n) = none
arp_of (custom h) = none

abbrev pub udp_of : Part → Option ℕ
udp_of (ethernet h) = none
udp_of (ipv4 h) = none
udp_of (arp h) = none
udp_of (udp h) = some h
udp_of (tcp h) = none
udp_of (raw n) = none
udp_of (custom h) = none

abbrev pub tcp_of : Part → Option ℕ
tcp_of (ethernet h) = none
tcp_of (ipv4 h) = none
tcp_of (arp h) = none
tcp_of (udp h) = none
tcp_of (tcp h) = some h
tcp_of (raw n) = none
tcp_of (custom h) = none

abbrev pub custom_of : Part → Option CustomHeader
custom_of (custom h) = some h
custom_of (ethernet h) = none
custom_of (ipv4 h) = none
custom_of (arp h) = none
custom_of (udp h) = none
custom_of (tcp h) = none
custom_of (raw n) = none

abbrev pub into_layout : CustomHeader → Option CustomHeader → Option CustomHeader
into_layout into none = none
into_layout into (some h) = some (record into { fields = h.fields })

-- The object that the header is read into knows the layout; the fields' values are the packet's.
abbrev pub read_custom : Part → CustomHeader → Option CustomHeader
read_custom x into = into_layout into (custom_of x)

pub record Queue : Type 0 where
  pub items : List Packet

abbrev pub dequeue_items : List Packet → Queue × Option Packet
dequeue_items [] = (record { items = [] }, none)
dequeue_items (p ∷ ps) = (record { items = ps }, some p)

abbrev pub offer : Bool → Queue → Packet → Queue × Bool
offer true q p = (record { items = q.items ++ (p ∷ []) }, true)
offer false q p = (q, false)

abbrev pub is_nil : List Packet → Bool
is_nil [] = true
is_nil (p ∷ ps) = false

abbrev pub library : Library
library = record {
  Packet = Packet;
  Address = ℕ;
  EthernetHeader = Ethernet;
  Ipv4Header = ℕ;
  ArpHeader = ℕ;
  UdpHeader = ℕ;
  TcpHeader = ℕ;
  Queue = Queue;
  DataRate = ℕ;
  get_size = total;
  ethernet =
      class (record { source = 0; destination = 0; length_type = 0 }) 14 ethernet
        (λ x into. ethernet_of x);
  set_source = λ h a. record h { source = a };
  set_destination = λ h a. record h { destination = a };
  set_length_type = λ h n. record h { length_type = n };
  get_length_type = λ h. h.length_type;
  ipv4 = class 0 20 ipv4 (λ x into. ipv4_of x);
  set_protocol = λ h n. n;
  get_protocol = λ h. h;
  arp = class 0 28 arp (λ x into. arp_of x);
  udp = class 0 8 udp (λ x into. udp_of x);
  udp_destination_port = λ h. h;
  tcp = class 0 20 tcp (λ x into. tcp_of x);
  tcp_destination_port = λ h. h;
  custom = class (init layer_3 add_before) 8 custom read_custom;
  enqueue = λ q p. offer (ltb (length q.items) 2) q p;
  dequeue = λ q. dequeue_items q.items;
  is_empty = λ q. is_nil q.items;
  calculate_bytes_tx_time = λ rate n. n;
  is_corrupt = λ p. false;
}

abbrev pub custom_header : CustomHeader
custom_header = record (init layer_3 add_before) {
  fields = record { name = []; bit_width = 16; value = 0x0800 } ∷ [];
}

abbrev pub host : Device library
host = record {
  tx_machine_state = ready;
  current_pkt = none;
  queue = record { items = [] };
  link_up = true;
  need_process_header = true;
  header = custom_header;
  custom_dst_port_min = 10000;
  custom_dst_port_max = 12000;
  bps = 1;
  interframe_gap = 3;
  has_error_model = false;
  address = 7;
  mtu = 1500;
  if_index = 0;
}

pub reads :
    {H : Type 0} (new h : H) (n : ℕ) (make : H → Part) (read : Part → H → Option H) (into r : H)
    → 0 < n
    → read (make h) into ≡ some r
    → read (make h) r ≡ some r
    → Readable (class new n make read) h into r
reads new h n make read into r lt e f = record {
  bytes = n;
  some_bytes = lt;
  peeks = λ p. ap (λ o. ((read_as n (make h) p into o).1, (read_as n (make h) p into o).2)) e;
  removes = λ p. ap (read_as n (make h) p into) e;
  removes_again = λ p. ap (read_as n (make h) p r) f;
}

pub laws : HeaderLaws library
laws = record {
  ethernet_reads = λ h. reads _ h 14 ethernet (λ x into. ethernet_of x) _ h (omega arith) refl refl;
  ipv4_reads = λ h. reads 0 h 20 ipv4 (λ x into. ipv4_of x) 0 h (omega arith) refl refl;
  udp_reads = λ h. reads 0 h 8 udp (λ x into. udp_of x) 0 h (omega arith) refl refl;
  type_set = λ h n lt. refl;
}

pub bytes-positive : (x : Part) → 0 < bytes x
bytes-positive (ethernet h) = omega arith
bytes-positive (ipv4 h) = omega arith
bytes-positive (arp h) = omega arith
bytes-positive (udp h) = omega arith
bytes-positive (tcp h) = omega arith
bytes-positive (raw n) = omega arith
bytes-positive (custom h) = omega arith

pub shrinks :
    {H : Type 0} (new : H) (n : ℕ) (make : H → Part) (read : Part → H → Option H)
    → ((x : Part) (h r : H) → read x h ≡ some r → read x r ≡ some r)
    → Shrinks library (class new n make read)
shrinks new n make read again [] h ne = absurd (ne refl)
shrinks new n make read again (x ∷ xs) h ne = elim (Option-cases (read x h)) [
  | inl e ↦ absurd (ne (rw e refl))
  | inr (r, e) ↦ rw e (rw (again x h r e) (omega (arith, bytes-positive x)))
]

pub custom_again :
    (x : Part) (h r : CustomHeader) → read_custom x h ≡ some r → read_custom x r ≡ some r
custom_again x h r e = elim (Option-cases (custom_of x)) [
  | inl f ↦ absurd (none-ne-some _ (sym (ap (into_layout h) f) ∙ e))
  | inr (c, f) ↦
      let same : record h { fields = c.fields } ≡ r =
        some-injective _ _ (sym (ap (into_layout h) f) ∙ e) in
      ap (into_layout r) f
      ∙ ap some (ap (λ (k : CustomHeader). record k { fields = c.fields }) (sym same) ∙ same)
]

pub offer-cases :
    (b : Bool) (q : Queue) (p : Packet)
    → ((offer b q p).1 ≡ true → (offer b q p).0.items ≡ q.items ++ (p ∷ []))
      × ((offer b q p).1 ≡ false → (offer b q p).0.items ≡ q.items)
offer-cases true q p = (λ e. refl, λ e. cc)
offer-cases false q p = (λ e. cc, λ e. refl)

unfoldable pub queue_laws : QueueLaws library
queue_laws = record {
  contents = λ q. q.items;
  accepts = λ q p e. (offer-cases (ltb (length q.items) 2) q p).0 e;
  refuses = λ q p e. (offer-cases (ltb (length q.items) 2) q p).1 e;
  yields = λ q p ps e. rw e (refl, refl);
  lacks = λ q e. rw e (refl, refl);
  holds = λ q p ps e. rw e refl;
}
