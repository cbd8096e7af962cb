-- ===== src/Link.antt =====
-- model/custom-p2p-net-device.cc, class CustomP2PNetDevice, and model/p4-p2p-channel.cc: a link of two
-- devices. What they call of the packet library and of the simulator is the record `Library`.
pub mod Channel
pub mod Headers
pub mod Restore
pub mod Transmit
pub mod Restored
pub mod Rounds
pub mod Ending
pub mod Endless
pub mod Line
mod Begun
mod Transmitting
pub mod Added
pub mod Packets
pub mod LineKept
pub mod Drain
mod Tests
use p4simulator.Base.{ℕ, Bool, true, false, Option, none}
use p4simulator.CustomHeader.{CustomHeader}

-- A class of headers in a packet's bytes. To read a header is to read it into an object of the class;
-- the number is the count of the bytes read, 0 where there is no such header.
pub record HeaderClass (Packet Header : Type 0) : Type 0 where
  pub new : Header
  pub add_header : Packet → Header → Packet
  pub peek_header : Packet → Header → ℕ × Header
  pub remove_header : Packet → Header → Packet × ℕ × Header

-- The simulator's packets, headers, queues, data rates and error models.
pub record Library : Type 1 where
  pub Packet : Type 0
  pub Address : Type 0
  pub EthernetHeader : Type 0
  pub Ipv4Header : Type 0
  pub ArpHeader : Type 0
  pub UdpHeader : Type 0
  pub TcpHeader : Type 0
  pub Queue : Type 0
  pub DataRate : Type 0
  pub get_size : Packet → ℕ
  pub ethernet : HeaderClass Packet EthernetHeader
  pub set_source : EthernetHeader → Address → EthernetHeader
  pub set_destination : EthernetHeader → Address → EthernetHeader
  pub set_length_type : EthernetHeader → ℕ → EthernetHeader
  pub get_length_type : EthernetHeader → ℕ
  pub ipv4 : HeaderClass Packet Ipv4Header
  pub set_protocol : Ipv4Header → ℕ → Ipv4Header
  pub get_protocol : Ipv4Header → ℕ
  pub arp : HeaderClass Packet ArpHeader
  pub udp : HeaderClass Packet UdpHeader
  pub udp_destination_port : UdpHeader → ℕ
  pub tcp : HeaderClass Packet TcpHeader
  pub tcp_destination_port : TcpHeader → ℕ
  pub custom : HeaderClass Packet CustomHeader
  pub enqueue : Queue → Packet → Queue × Bool
  pub dequeue : Queue → Queue × Option Packet
  pub is_empty : Queue → Bool
  pub calculate_bytes_tx_time : DataRate → ℕ → ℕ
  pub is_corrupt : Packet → Bool

pub data TxMachineState : Type 0 where
  ready busy : TxMachineState

-- The attributes and the state. `has_error_model` tells whether the receiver has an error model.
pub record Device (L : Library) : Type 0 where
  pub tx_machine_state : TxMachineState
  pub current_pkt : Option L.Packet
  pub queue : L.Queue
  pub link_up : Bool
  pub need_process_header : Bool
  pub header : CustomHeader
  pub custom_dst_port_min : ℕ
  pub custom_dst_port_max : ℕ
  pub bps : L.DataRate
  pub interframe_gap : ℕ
  pub has_error_model : Bool
  pub address : L.Address
  pub mtu : ℕ
  pub if_index : ℕ

-- The number that announces a custom header, in the type of an Ethernet header or the protocol of an
-- IPv4 header.
abbrev pub p4_protocol_number : ℕ
p4_protocol_number = 0xDC

module _ {L : Library} where
  unfoldable pub set_custom_header : Device L → CustomHeader → Device L
  set_custom_header d header = record d { header = header; need_process_header = true }

  unfoldable pub set_with_custom_header : Device L → Bool → Device L
  set_with_custom_header d with_header = record d { need_process_header = with_header }

  unfoldable pub set_data_rate : Device L → L.DataRate → Device L
  set_data_rate d bps = record d { bps = bps }

  unfoldable pub set_interframe_gap : Device L → ℕ → Device L
  set_interframe_gap d t = record d { interframe_gap = t }

  unfoldable pub notify_link_up : Device L → Device L
  notify_link_up d = record d { link_up = true }
