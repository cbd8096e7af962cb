-- ===== src/SwitchDevice/Ports.antt =====
-- model/p4-switch-net-device.cc: which port a packet comes in by, and which it goes out by.
use p4simulator.Base.{
  ℕ, zero, suc, ◌<◌, ◌≡◌, ◌≢◌, refl, ◌∙◌, Bool, true, false, some, List, [], ◌∷◌, ◌++◌, leb,
  if◌then◌else◌, length, get_elem?, arith, ==-false, Bool-cases, inl, inr,
}
use p4simulator.Base.Int.{ℤ, pos}
use p4simulator.Link.{Library}
use p4simulator.SwitchDevice.{
  SwitchDevice, Core, is_port, core_of, to_int, port_loop, get_port_number, get_n_bridge_ports,
  Event, promisc_rx_callback, rx_callback, receive_packet, receive_from_device, to_core,
  with_ethernet, get_bridge_port, through, through_port, out_to, without_ethernet, send_ns3_packet,
}

some_ports : (ports : List ℕ) → ports ≢ [] → length ports ≢ 0
some_ports [] ne e = ne refl
some_ports (p ∷ ps) ne e = omega (arith, e)

leb-false : (a b : ℕ) → b < a → leb a b ≡ false
leb-false a b h = ground arith

get_elem?-lt : (ports : List ℕ) (i p : ℕ) → get_elem? ports i ≡ some p → i < length ports
get_elem?-lt [] i p e = cc
get_elem?-lt (x ∷ xs) zero p e = omega arith
get_elem?-lt (x ∷ xs) (suc i) p e = omega (arith, get_elem?-lt xs i p e)

module _ (L : Library) where
  -- The in-ports that the cores are told.
  abbrev pub told : List (Event L) → List ℤ
  told [] = []
  told (promisc_rx_callback p protocol src dst ∷ es) = told es
  told (rx_callback p protocol src ∷ es) = told es
  told (receive_packet core p in_port protocol dst ∷ es) = in_port ∷ told es

  port_loop-first : (d : SwitchDevice L) (port n : ℕ) → n ≢ 0 → port_loop L d port 0 n ≡ 0
  unfolding port_loop
  port_loop-first d port zero ne = absurd (ne refl)
  port_loop-first d port (suc n) ne = elim (Bool-cases (is_port L (get_bridge_port L d 0) port)) [
    | inl e ↦ rw e refl
    | inr e ↦ rw e refl
  ]

  get_port_number-first :
      (d : SwitchDevice L) (port : ℕ) → d.ports ≢ [] → to_int (get_port_number L d port) ≡ pos 0
  unfolding get_port_number get_n_bridge_ports to_int
  get_port_number-first d port ne =
      rw (port_loop-first d port (length d.ports) (some_ports d.ports ne)) refl

  told_after :
      (b : Bool) (e : Event L) (es : List (Event L)) (ns : List ℤ)
      → told (e ∷ es) ≡ told es
      → told es ≡ ns
      → told ((if b then e ∷ [] else []) ++ es) ≡ ns
  told_after true e es ns f h = f ∙ h
  told_after false e es ns f h = h

  -- Whichever port a packet comes in by, the core is told number 0: on a device with ports, and with one
  -- of the four architectures, a reception calls the core's `ReceivePacket` once, with in-port 0.
  pub told-receive_from_device :
      (same : L.Address → L.Address → Bool) (d : SwitchDevice L) (core : Core) (incoming : ℕ)
      (p : L.Packet) (protocol : ℕ) (src dst : L.Address)
      → d.ports ≢ []
      → core_of d.switch_arch ≡ some core
      → told (receive_from_device L same d incoming p protocol src dst) ≡ pos 0 ∷ []
  unfolding receive_from_device to_core
  told-receive_from_device same d core incoming p protocol src dst ne arch =
      let last : told (
            to_core L (core_of d.switch_arch) (with_ethernet L d p protocol src dst)
              (to_int (get_port_number L d incoming)) protocol dst)
          ≡ pos 0 ∷ [] =
        rw (arch, get_port_number-first d incoming ne) refl in
      told_after d.has_promisc_callback _ _ _ refl (told_after (same dst d.address) _ _ _ refl last)

  -- The packet without its Ethernet header, and the header's type; the given protocol where there is none.
  abbrev pub stripped : L.Packet → ℕ → L.Packet × ℕ
  stripped p protocol = without_ethernet L p (L.ethernet.peek_header p L.ethernet.new) protocol

  pub send_ns3_packet-through :
      (d : SwitchDevice L) (p : L.Packet) (out_port protocol : ℕ) (dst : L.Address) (port : ℕ)
      → out_port ≢ 511
      → get_elem? d.ports out_port ≡ some port
      → send_ns3_packet L d (some p) out_port protocol dst
        ≡ through port (stripped p protocol).0 dst (stripped p protocol).1
  unfolding send_ns3_packet out_to get_bridge_port through_port
  send_ns3_packet-through d p out_port protocol dst port ne e =
      rw
        (
          ==-false out_port 511 ne,
          leb-false (length d.ports) out_port (get_elem?-lt d.ports out_port port e),
          e,
        )
        refl
