-- ===== src/SwitchDevice.antt =====
-- model/p4-switch-net-device.cc, class P4SwitchNetDevice: the device that bridges the ports of a switch
-- and hands packets to the core of its architecture. A port is the number of its device.
pub mod Ports
pub mod Forwarding
mod Tests
use p4simulator.Base.{
  ℕ, zero, suc, ◌+◌, ◌-◌, ◌^◌, Bool, true, false, not, Option, none, some, List, [], ◌∷◌, ◌++◌, map,
  ltb, leb, ◌==◌, if◌then◌else◌, length, get_elem?,
}
use p4simulator.Base.Int.{ℤ, pos, negsuc}
use p4simulator.Link.{Library}
use p4simulator.Link.Headers.{ethernet_header}

abbrev pub channel_csma : ℕ
channel_csma = 0

abbrev pub channel_p2p : ℕ
channel_p2p = 1

abbrev pub arch_v1model : ℕ
arch_v1model = 0

abbrev pub arch_psa : ℕ
arch_psa = 1

abbrev pub arch_pna : ℕ
arch_pna = 2

abbrev pub arch_pipeline : ℕ
arch_pipeline = 3

pub record SwitchDevice (L : Library) : Type 0 where
  pub switch_arch : ℕ
  pub channel_type : ℕ
  pub address : L.Address
  pub ports : List ℕ
  pub has_promisc_callback : Bool

-- The value of 32 bits, read as an `int`.
unfoldable pub to_int : ℕ → ℤ
to_int n = if ltb n (2 ^ 31) then pos n else negsuc (2 ^ 32 - 1 - n)

-- The cores of the four architectures.
pub data Core : Type 0 where
  v1model psa pna pipeline : Core

unfoldable pub core_of : ℕ → Option Core
core_of arch =
    if arch == arch_v1model
    then some v1model
    else if arch == arch_psa
    then some psa
    else if arch == arch_pna
    then some pna
    else if arch == arch_pipeline
    then some pipeline
    else none

module _ (L : Library) where
  -- What a reception leads to: the callbacks of the device's own stack, and the core's `ReceivePacket`.
  pub data Event : Type 0 where
    promisc_rx_callback : L.Packet → ℕ → L.Address → L.Address → Event
    rx_callback : L.Packet → ℕ → L.Address → Event
    receive_packet : Core → L.Packet → ℤ → ℕ → L.Address → Event

  unfoldable pub get_n_bridge_ports : SwitchDevice L → ℕ
  get_n_bridge_ports d = length d.ports

  unfoldable pub get_bridge_port : SwitchDevice L → ℕ → Option ℕ
  get_bridge_port d n = if leb (length d.ports) n then none else get_elem? d.ports n

  unfoldable pub is_port : Option ℕ → ℕ → Bool
  is_port none port = false
  is_port (some device) port = device == port

  -- The loop from `i` on, with the count of the rounds that are left. The test governs the log message
  -- only, and the round returns after it. After the loop -1 is returned, as 32 bits.
  unfoldable pub port_loop : SwitchDevice L → ℕ → ℕ → ℕ → ℕ
  port_loop d port i zero = 2 ^ 32 - 1
  port_loop d port i (suc left) = if is_port (get_bridge_port d i) port then i else i

  unfoldable pub get_port_number : SwitchDevice L → ℕ → ℕ
  get_port_number d port = port_loop d port 0 (get_n_bridge_ports d)

  -- With another type of channel no header is added.
  unfoldable pub with_ethernet : SwitchDevice L → L.Packet → ℕ → L.Address → L.Address → L.Packet
  with_ethernet d p protocol src dst =
      if d.channel_type == channel_csma
      then L.ethernet.add_header p (ethernet_header L src dst protocol)
      else if d.channel_type == channel_p2p
      then L.ethernet.add_header p (ethernet_header L src dst protocol)
      else p

  unfoldable pub to_core : Option Core → L.Packet → ℤ → ℕ → L.Address → List Event
  to_core none p in_port protocol dst = []
  to_core (some core) p in_port protocol dst = receive_packet core p in_port protocol dst ∷ []

  unfoldable pub receive_from_device :
      (L.Address → L.Address → Bool)
      → SwitchDevice L
      → ℕ
      → L.Packet
      → ℕ
      → L.Address
      → L.Address
      → List Event
  receive_from_device same d incoming p protocol src dst =
      (if d.has_promisc_callback then promisc_rx_callback p protocol src dst ∷ [] else [])
      ++ ((if same dst d.address then rx_callback p protocol src ∷ [] else [])
          ++ to_core (core_of d.switch_arch) (with_ethernet d p protocol src dst)
              (to_int (get_port_number d incoming)) protocol dst)

  -- A port: whether its address is one of 48 bits, and whether it supports `SendFrom`.
  pub record Port : Type 0 where
    pub device : ℕ
    pub address : L.Address
    pub is_mac48 : Bool
    pub supports_send_from : Bool

  -- `none` stands for a failed assertion or a fatal error; `is_unset` tests for the default address.
  unfoldable pub add_bridge_port :
      (L.Address → Bool) → SwitchDevice L → ℕ → Port → Option (SwitchDevice L)
  add_bridge_port is_unset d self port =
      if port.device == self
      then none
      else if not port.is_mac48
      then none
      else if not port.supports_send_from
      then none
      else some (record d {
        address = if is_unset d.address then port.address else d.address;
        ports = d.ports ++ (port.device ∷ []);
      })

  -- A call of `SendFrom` of a port's device.
  pub record Flooded : Type 0 where
    pub port : ℕ
    pub packet : L.Packet
    pub source : L.Address
    pub destination : L.Address
    pub protocol : ℕ

  unfoldable pub flood : List ℕ → L.Packet → L.Address → L.Address → ℕ → List Flooded
  flood [] p src dst protocol = []
  flood (port ∷ ports) p src dst protocol =
      record { port = port; packet = p; source = src; destination = dst; protocol = protocol }
      ∷ flood ports p src dst protocol

  unfoldable pub send_from : SwitchDevice L → L.Packet → L.Address → L.Address → ℕ → List Flooded
  send_from d p src dst protocol = flood d.ports p src dst protocol

  unfoldable pub send : SwitchDevice L → L.Packet → L.Address → ℕ → List Flooded
  send d p dst protocol = send_from d p d.address dst protocol

  -- What `SendNs3Packet` does: nothing, a call of `Send` of a port's device, or a call of a device that is
  -- not there.
  pub data Output : Type 0 where
    nothing null_device : Output
    through : ℕ → L.Packet → L.Address → ℕ → Output

  unfoldable pub through_port : Option ℕ → L.Packet → L.Address → ℕ → Output
  through_port none p dst protocol = null_device
  through_port (some port) p dst protocol = through port p dst protocol

  -- The header that was looked at is read again where it is removed.
  unfoldable pub without_ethernet : L.Packet → ℕ × L.EthernetHeader → ℕ → L.Packet × ℕ
  without_ethernet p (n, eeh) protocol =
      ((L.ethernet.remove_header p eeh).0, if n == 0 then protocol else L.get_length_type eeh)

  unfoldable pub out_to : SwitchDevice L → ℕ → L.Address → L.Packet × ℕ → Output
  out_to d out_port dst (p, protocol) =
      if out_port == 511 then nothing else through_port (get_bridge_port d out_port) p dst protocol

  -- The number of a port is not negative.
  unfoldable pub send_ns3_packet : SwitchDevice L → Option L.Packet → ℕ → ℕ → L.Address → Output
  send_ns3_packet d none out_port protocol dst = nothing
  send_ns3_packet d (some p) out_port protocol dst =
      out_to d out_port dst (without_ethernet p (L.ethernet.peek_header p L.ethernet.new) protocol)
