-- ===== src/V1model/Ingress.antt =====
-- model/p4-core-v1model.cc, `ReceivePacket` and `HandleIngressPipeline`.
use p4simulator.Base.{
  ℕ, zero, suc, ◌*◌, bit_and, Option, none, some, ltb, ◌==◌, if◌then◌else◌, size_inc, size_add,
}
use p4simulator.Base.Int.{pos}
use p4simulator.Registers.{
  clear_all, packet_length_reg_idx, get_clone_mirror_session_id, set_clone_mirror_session_id,
  get_clone_field_list, set_clone_field_list, get_lf_field_list, get_resubmit_flag,
  set_resubmit_flag, set_ns_protocol, set_ns_address,
}
use p4simulator.InputBuffer.{InputBuffer, push_front, pop_back, Pushed, pushed, dropped, blocked}
use p4simulator.InputBuffer
use p4simulator.SwitchCore.{get_time_stamp}
use p4simulator.SwitchCore.Mirroring.{MirroringSessionConfig, get_session}
use p4simulator.SwitchCore.Addresses.{AddressTable, get_address_index}
use p4simulator.V1model.{
  Library, Core, MetaField, standard_metadata_ingress_port, standard_metadata_packet_length,
  standard_metadata_instance_type, standard_metadata_parser_error, standard_metadata_checksum_error,
  standard_metadata_egress_spec, intrinsic_metadata_ingress_global_timestamp,
  intrinsic_metadata_mcast_grp, normal, ingress_clone, replication, resubmit, instance_type,
  enqueue, copy_field_list, multicast_packet,
}

abbrev pub mirror_session_id_mask : ℕ
mirror_session_id_mask = 0x7fff

module _ (l : Library) where
  open l use {Packet, NsPacket, Saved, address_class, registers, has_field, get_field, set_field}
  open address_class use {Address}

  -- `has_field(f) ? set : nothing`
  unfoldable pub set_if_has : Packet → MetaField → ℕ → Packet
  set_if_has p f v = if has_field f then set_field p f v else p

  -- From the parser to the end of the ingress pipeline.
  unfoldable pub parsed : Core l → Packet → Packet
  parsed c packet = set_if_has with_error standard_metadata_checksum_error checksum_error
    where
      p : Packet
      p = l.parse c.world packet

      with_error : Packet
      with_error = set_if_has p standard_metadata_parser_error (l.get_error_code p)

      checksum_error : ℕ
      checksum_error = if l.get_checksum_error with_error then 1 else 0

  -- The copy that is parsed anew for a clone.
  unfoldable pub cloned : Core l → Packet → ℕ → ℕ → ℕ → Packet
  cloned c packet ingress_port packet_size field_list_id =
      copy_field_list l packet
        (l.parse c.world (set_field copy standard_metadata_ingress_port ingress_port)) ingress_clone
        field_list_id
    where
      copy : Packet
      copy =
          registers.set_register (clear_all registers (l.clone_no_phv_ptr packet))
            packet_length_reg_idx packet_size

  -- A clone goes to a multicast group, to a port, or to both.
  unfoldable pub send_clone : Core l → ℕ → MirroringSessionConfig → Packet → Core l
  send_clone c now config copy =
      if config.egress_port_valid
      then enqueue l replicated.0 now config.egress_port replicated.1
      else replicated.0
    where
      replicated : Core l × Packet
      replicated =
          if config.mgid_valid then multicast_packet l c now copy config.mgid else (c, copy)

  -- The packet with the two registers of the request cleared.
  unfoldable pub request_cleared : Packet → Packet
  request_cleared p = set_clone_field_list registers (set_clone_mirror_session_id registers p 0) 0

  unfoldable pub clone_by :
      Core l → ℕ → Packet → Saved → ℕ → ℕ → ℕ → Option MirroringSessionConfig → Core l × Packet
  clone_by c now packet packet_in_state ingress_port packet_size field_list_id none = (c, packet)
  clone_by c now packet packet_in_state ingress_port packet_size field_list_id (some config) = (
    send_clone c now config (cloned c back_in ingress_port packet_size field_list_id),
    l.restore_buffer_state back_in (l.save_buffer_state packet),
  )
    where
      back_in : Packet
      back_in = l.restore_buffer_state packet packet_in_state

  -- The part under INGRESS CLONING.
  unfoldable pub ingress_cloning : Core l → ℕ → Packet → Saved → ℕ → ℕ → Core l × Packet
  unfolding clone_by
  ingress_cloning c now packet packet_in_state ingress_port packet_size =
      if session_id == 0
      then (c, packet)
      else clone_by c now (request_cleared packet) packet_in_state ingress_port packet_size
          (get_clone_field_list registers packet)
          (get_session c.sessions (pos (bit_and session_id mirror_session_id_mask)))
    where
      session_id : ℕ
      session_id = get_clone_mirror_session_id registers packet

  -- The part under LEARNING.
  unfoldable pub learning : Core l → Packet → ℕ → Core l
  learning c packet learn_id =
      if ltb 0 learn_id then record c { world = l.learn c.world learn_id packet } else c

  -- The packet that goes to the front of the ingress pipeline again.
  unfoldable pub resubmitted : Packet → Saved → ℕ → ℕ → Packet
  resubmitted packet packet_in_state packet_size field_list_id =
      set_field
        (registers.set_register (clear_all registers copy) packet_length_reg_idx packet_size)
        standard_metadata_packet_length packet_size
    where
      p : Packet
      p = set_resubmit_flag registers (l.restore_buffer_state packet packet_in_state) 0

      copy : Packet
      copy = copy_field_list l p (l.clone_no_phv_ptr p) resubmit field_list_id

  -- How one run of the handler ends: it returns, or it calls itself.
  pub data Ended : Type 0 where
    over : Core l → Ended
    again : Core l → Ended

  -- The parts under RESUBMIT and MULTICAST, and the rest.
  unfoldable pub dispatch : Core l → ℕ → Packet → Saved → ℕ → ℕ → ℕ → Ended
  dispatch c now packet packet_in_state packet_size mgid egress_spec =
      if flag == 0
      then over (
          if mgid == 0
          then (if egress_spec == c.drop_port
              then c
              else enqueue l c now egress_spec
                  (set_field packet standard_metadata_instance_type (instance_type normal)))
          else (multicast_packet l c now
              (set_field packet standard_metadata_instance_type (instance_type replication))
              mgid).0)
      else again (record c {
        input_buffer =
            (push_front c.input_buffer InputBuffer.resubmit
              (resubmitted packet packet_in_state packet_size flag)).0;
      })
    where
      flag : ℕ
      flag = get_resubmit_flag registers packet

  -- The ingress pipeline on a packet that has left the input buffer.
  unfoldable pub ingress_on : Core l → ℕ → Packet → Ended
  ingress_on c now packet =
      dispatch (learning clones.0 clones.1 (get_lf_field_list registers p)) now clones.1
        (l.save_buffer_state packet) packet_size mgid (get_field p standard_metadata_egress_spec)
    where
      packet_size : ℕ
      packet_size = registers.get_register packet packet_length_reg_idx

      applied : l.World × Packet
      applied = l.apply_ingress c.world (parsed c packet)

      p : Packet
      p = l.reset_exit applied.1

      mgid : ℕ
      mgid =
          if has_field intrinsic_metadata_mcast_grp
          then get_field p intrinsic_metadata_mcast_grp
          else 0

      clones : Core l × Packet
      clones =
          ingress_cloning (record c { world = applied.0 }) now p (l.save_buffer_state packet)
            (l.get_ingress_port packet) packet_size

  unfoldable pub ingress_popped : Core l → ℕ → InputBuffer Packet × Option Packet → Ended
  ingress_popped c now (b, none) = over c
  ingress_popped c now (b, some packet) = ingress_on (record c { input_buffer = b }) now packet

  -- One run of `HandleIngressPipeline`; it does nothing on an empty input buffer.
  unfoldable pub ingress_once : Core l → ℕ → Ended
  ingress_once c now = ingress_popped c now (pop_back c.input_buffer)

  unfoldable pub next_run : (Core l → Option (Core l)) → Ended → Option (Core l)
  next_run call (over c) = some c
  next_run call (again c) = call c

  -- `HandleIngressPipeline` with as many runs as the fuel allows; `none` where it would go on.
  unfoldable pub handle_ingress_pipeline : ℕ → Core l → ℕ → Option (Core l)
  handle_ingress_pipeline zero c now = none
  handle_ingress_pipeline (suc fuel) c now =
      next_run (λ d. handle_ingress_pipeline fuel d now) (ingress_once c now)

  -- The packet as `ReceivePacket` gives it to the input buffer.
  unfoldable pub received : Core l → ℕ → NsPacket → ℕ → ℕ → ℕ → Packet
  received c now packet_in in_port protocol addr_index =
      set_if_has
        (set_field
          (set_field
            (registers.set_register (set_field with_ns standard_metadata_ingress_port in_port)
              packet_length_reg_idx (l.get_data_size p))
            standard_metadata_packet_length (l.get_data_size p))
          standard_metadata_instance_type (instance_type normal))
        intrinsic_metadata_ingress_global_timestamp (get_time_stamp now c.start_timestamp)
    where
      p : Packet
      p = l.convert_to_bm_packet packet_in in_port

      with_ns : Packet
      with_ns =
          set_ns_address registers
            (set_ns_protocol registers
              (clear_all registers (l.reset_metadata (l.set_ingress_port p in_port))) protocol)
            addr_index

  unfoldable pub count_input : Core l → ℕ → Core l
  count_input c len =
      if c.enable_tracing
      then record c {
        counters = record c.counters {
          input_pps = size_inc c.counters.input_pps;
          input_bps = size_add c.counters.input_bps (len * 8);
        };
      }
      else c

  -- What `ReceivePacket` comes to: the core when it returns, a wait for room in the input buffer,
  -- or more runs of the ingress pipeline than the fuel allows.
  pub data Reception : Type 0 where
    returned : Core l → Reception
    waits : Reception
    unended : Reception

  unfoldable pub ended_by : Option (Core l) → Reception
  ended_by none = unended
  ended_by (some c) = returned c

  -- After the push into the input buffer.
  unfoldable pub handed_over : ℕ → ℕ → Core l → InputBuffer Packet × Pushed → Reception
  handed_over fuel now c (b, pushed) =
      ended_by (handle_ingress_pipeline fuel (record c { input_buffer = b }) now)
  handed_over fuel now c (b, dropped) =
      ended_by (handle_ingress_pipeline fuel (record c { input_buffer = b }) now)
  handed_over fuel now c (b, blocked) = waits

  unfoldable pub receive_packet : ℕ → Core l → ℕ → NsPacket → ℕ → ℕ → Address → Reception
  receive_packet fuel c now packet_in in_port protocol destination =
      handed_over fuel now (record counted { addresses = indexed.0 })
        (push_front c.input_buffer InputBuffer.normal
          (received c now packet_in in_port protocol indexed.1))
    where
      counted : Core l
      counted = count_input c (l.get_data_size (l.convert_to_bm_packet packet_in in_port))

      indexed : AddressTable address_class × ℕ
      indexed = get_address_index address_class c.addresses destination
