-- ===== src/V1model.antt =====
-- model/p4-core-v1model.cc, class P4CoreV1model: the switch of the v1model architecture. What it
-- calls of the packet library and of the network simulator is the record `Library`.
pub mod Ingress
pub mod Egress
pub mod Control
mod InputKept
mod SentKept
pub mod Stalled
pub mod Returning
pub mod Waiting
pub mod Statistics
pub mod Sending
mod Tests
mod ResubmitTests
use p4simulator.Base.{ℕ, ◌+◌, ◌-◌, ◌%◌, Bool, Option, List, [], ◌∷◌, ◌++◌, leb, if◌then◌else◌}
use p4simulator.Registers.{RegisterFile, clear_all, packet_length_reg_idx}
use p4simulator.InputBuffer.{InputBuffer}
use p4simulator.EgressQueue.{Logic, push_front}
use p4simulator.EgressQueue.Pop.{size}
use p4simulator.SwitchCore.{get_time_stamp}
use p4simulator.SwitchCore.Mirroring.{Sessions}
use p4simulator.SwitchCore.Addresses.{AddressClass, AddressTable}

-- The fields that the code names, `header.field` written with `_`.
pub data MetaField : Type 0 where
  standard_metadata_ingress_port standard_metadata_packet_length standard_metadata_instance_type
        standard_metadata_parser_error standard_metadata_checksum_error
        standard_metadata_egress_spec standard_metadata_egress_port
        intrinsic_metadata_ingress_global_timestamp intrinsic_metadata_egress_global_timestamp
        intrinsic_metadata_mcast_grp intrinsic_metadata_egress_rid intrinsic_metadata_priority
        queueing_metadata_enq_timestamp queueing_metadata_enq_qdepth queueing_metadata_deq_timedelta
        queueing_metadata_deq_qdepth queueing_metadata_qid :
      MetaField

pub data PktInstanceTypeV1model : Type 0 where
  normal ingress_clone egress_clone coalesced recirc replication resubmit : PktInstanceTypeV1model

-- The value of the enumerator.
abbrev pub instance_type : PktInstanceTypeV1model → ℕ
instance_type normal = 0
instance_type ingress_clone = 1
instance_type egress_clone = 2
instance_type coalesced = 3
instance_type recirc = 4
instance_type replication = 5
instance_type resubmit = 6

-- `McSimplePreLAG::McOut`
pub record McOut : Type 0 where
  pub out_port : ℕ
  pub rid : ℕ

-- `bm::Packet` with its header vector, the P4 program's parser, pipelines and deparser, which work on
-- the state `World` of the program, and the simulator's packets.
pub record Library : Type 1 where
  pub Packet : Type 0
  pub NsPacket : Type 0
  pub World : Type 0
  pub Saved : Type 0
  pub address_class : AddressClass
  pub registers : RegisterFile Packet
  pub has_field : MetaField → Bool
  pub get_field : Packet → MetaField → ℕ
  pub set_field : Packet → MetaField → ℕ → Packet
  pub reset_metadata : Packet → Packet
  pub get_data_size : Packet → ℕ
  pub get_ingress_port : Packet → ℕ
  pub set_ingress_port : Packet → ℕ → Packet
  pub set_egress_port : Packet → ℕ → Packet
  pub set_ingress_length : Packet → ℕ → Packet
  pub get_error_code : Packet → ℕ
  pub get_checksum_error : Packet → Bool
  pub reset_exit : Packet → Packet
  pub save_buffer_state : Packet → Saved
  pub restore_buffer_state : Packet → Saved → Packet
  pub clone_no_phv_ptr : Packet → Packet
  pub clone_with_phv_ptr : Packet → Packet
  pub clone_with_phv_reset_metadata_ptr : Packet → Packet
  pub copy_fields : ℕ → Packet → Packet → Packet
  pub parse : World → Packet → Packet
  pub apply_ingress : World → Packet → World × Packet
  pub apply_egress : World → Packet → World × Packet
  pub deparse : Packet → Packet
  pub learn : World → ℕ → Packet → World
  pub replicate : World → ℕ → List McOut
  pub convert_to_bm_packet : NsPacket → ℕ → Packet
  pub convert_to_ns3_packet : Packet → NsPacket

-- What the simulator is asked to call later.
pub data Event : Type 0 where
  egress_timer_event egress_pipeline packets_per_second : Event

module _ (l : Library) where
  open l use {Packet, NsPacket, World, address_class, registers}
  open address_class use {Address}

  -- A call of `SendNs3Packet`.
  pub record Sent : Type 0 where
    pub ns_packet : NsPacket
    pub port : ℕ
    pub protocol : ℕ
    pub destination : Option Address

  -- The tracing counters, all `uint64_t`.
  pub record Counters : Type 0 where
    pub input_bps : ℕ
    pub input_bp : ℕ
    pub input_pps : ℕ
    pub input_pp : ℕ
    pub egress_bps : ℕ
    pub egress_bp : ℕ
    pub egress_pps : ℕ
    pub egress_pp : ℕ

  -- The object, with what it has sent and the events it has asked for, the last in front.
  pub record Core : Type 0 where
    pub world : World
    pub input_buffer : InputBuffer Packet
    pub egress_buffer : Logic Packet
    pub sessions : Sessions
    pub addresses : AddressTable address_class
    pub counters : Counters
    pub enable_tracing : Bool
    pub enable_queueing_metadata : Bool
    pub nb_queues_per_port : ℕ
    pub drop_port : ℕ
    pub start_timestamp : ℕ
    pub switch_rate : ℕ
    pub egress_time_ref : ℕ
    pub time_interval : ℕ
    pub first_packet : Bool
    pub sent : List Sent
    pub events : List (ℕ × Event)

  -- The packet as it is put into the egress buffer.
  unfoldable pub stamped : Core → ℕ → ℕ → Packet → Packet
  stamped c now egress_port packet =
      if c.enable_queueing_metadata
      then l.set_field
          (l.set_field p queueing_metadata_enq_timestamp (get_time_stamp now c.start_timestamp))
          queueing_metadata_enq_qdepth (size c.egress_buffer egress_port)
      else p
    where
      p : Packet
      p = l.set_egress_port packet egress_port

  -- The field, or 0 for a program without it.
  unfoldable pub priority_of : Packet → ℕ
  priority_of p =
      if l.has_field intrinsic_metadata_priority
      then l.get_field p intrinsic_metadata_priority
      else 0

  unfoldable pub enqueue : Core → ℕ → ℕ → Packet → Core
  enqueue c now egress_port packet =
      if leb c.nb_queues_per_port (priority_of p) then c else record c {
        egress_buffer =
            (push_front c.egress_buffer now egress_port (c.nb_queues_per_port - 1 - priority_of p)
              p).0;
      }
    where
      p : Packet
      p = stamped c now egress_port packet

  unfoldable pub copy_field_list : Packet → Packet → PktInstanceTypeV1model → ℕ → Packet
  copy_field_list packet packet_copy copy_type field_list_id =
      l.set_field (l.copy_fields field_list_id packet (l.reset_metadata packet_copy))
        standard_metadata_instance_type (instance_type copy_type)

  -- The copy for one of the ports: no register is left but that of the length.
  unfoldable pub replica : Packet → ℕ → Packet
  replica packet packet_size =
      registers.set_register (clear_all registers (l.clone_with_phv_ptr packet))
        packet_length_reg_idx packet_size

  -- The loop of `MulticastPacket`, which writes the replica's number into the packet itself.
  unfoldable pub replicate_on : Core → ℕ → Packet → ℕ → List McOut → Core × Packet
  replicate_on c now packet packet_size [] = (c, packet)
  replicate_on c now packet packet_size (out ∷ outs) =
      replicate_on (enqueue c now out.out_port (replica p packet_size)) now p packet_size outs
    where
      p : Packet
      p = l.set_field packet intrinsic_metadata_egress_rid out.rid

  unfoldable pub multicast_packet : Core → ℕ → Packet → ℕ → Core × Packet
  multicast_packet c now packet mgid =
      replicate_on c now packet (registers.get_register packet packet_length_reg_idx)
        (l.replicate c.world mgid)
