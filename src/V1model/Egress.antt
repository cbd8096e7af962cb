-- ===== src/V1model/Egress.antt =====
-- model/p4-core-v1model.cc, `HandleEgressPipeline`.
use p4simulator.Base.{
  ℕ, zero, suc, ◌-◌, ◌*◌, bit_and, Bool, true, false, Option, none, some, ◌∷◌, ltb, leb, ◌==◌,
  if◌then◌else◌, size_inc, size_add, size_sub, get_elem?,
}
use p4simulator.Base.Int.{pos}
use p4simulator.Registers.{
  clear_all, packet_length_reg_idx, get_clone_mirror_session_id, get_clone_field_list,
  get_recirculate_flag, set_recirculate_flag, get_ns_protocol, get_ns_address,
}
use p4simulator.InputBuffer.{push_front, recirculate}
use p4simulator.EgressQueue.{Logic, Popped, nothing, taken, thrown}
use p4simulator.EgressQueue.Pop.{pop_back, size}
use p4simulator.SwitchCore.{get_time_stamp}
use p4simulator.SwitchCore.Mirroring.{MirroringSessionConfig, get_session}
use p4simulator.V1model.{
  Library, Core, Event, egress_timer_event, egress_pipeline, standard_metadata_egress_port,
  standard_metadata_packet_length, standard_metadata_instance_type, standard_metadata_egress_spec,
  intrinsic_metadata_egress_global_timestamp, queueing_metadata_enq_timestamp,
  queueing_metadata_deq_timedelta, queueing_metadata_deq_qdepth, queueing_metadata_qid,
  egress_clone, recirc, instance_type, priority_of,
}
use p4simulator.V1model.Ingress.{mirror_session_id_mask, request_cleared, send_clone, set_if_has}

-- `SSWITCH_VIRTUAL_QUEUE_NUM_V1MODEL`
abbrev pub queue_number : ℕ
queue_number = 8

module _ (l : Library) where
  open l use {Packet, registers, get_field, set_field}

  -- Whether a port below `n` has a packet.
  unfoldable pub some_waiting : Logic Packet → ℕ → Bool
  some_waiting b zero = false
  some_waiting b (suc n) =
      let lower : Bool = some_waiting b n in if ltb 0 (size b n) then true else lower

  unfoldable pub count_egress : Core l → ℕ → Core l
  count_egress c len =
      if c.enable_tracing
      then record c {
        counters = record c.counters {
          egress_pps = size_inc c.counters.egress_pps;
          egress_bps = size_add c.counters.egress_bps (len * 8);
        };
      }
      else c

  -- The queueing metadata, or nothing for a priority out of range.
  unfoldable pub dequeued : Core l → ℕ → ℕ → Packet → Option Packet
  dequeued c now port packet =
      if c.enable_queueing_metadata
      then (if leb c.nb_queues_per_port (priority_of l timed)
          then none
          else some (
              set_if_has l
                (set_field timed queueing_metadata_deq_qdepth (size c.egress_buffer port))
                queueing_metadata_qid (c.nb_queues_per_port - 1 - priority_of l timed)))
      else some packet
    where
      timed : Packet
      timed = set_field packet queueing_metadata_deq_timedelta (
          size_sub (get_time_stamp now c.start_timestamp)
            (get_field packet queueing_metadata_enq_timestamp))

  -- The standard metadata of the egress pipeline.
  unfoldable pub egress_metadata : ℕ → Packet → Packet
  egress_metadata port packet =
      set_field
        (set_field (set_field packet standard_metadata_egress_port port)
          standard_metadata_egress_spec 0)
        standard_metadata_packet_length (registers.get_register packet packet_length_reg_idx)

  -- The copy for a clone.
  unfoldable pub egress_cloned : Packet → ℕ → Packet
  egress_cloned packet field_list_id =
      registers.set_register (clear_all registers copy) packet_length_reg_idx
        (registers.get_register packet packet_length_reg_idx)
    where
      copy : Packet
      copy =
          set_field
            (l.copy_fields field_list_id packet (l.clone_with_phv_reset_metadata_ptr packet))
            standard_metadata_instance_type (instance_type egress_clone)

  unfoldable pub egress_clone_by : Core l → ℕ → Packet → ℕ → Option MirroringSessionConfig → Core l
  egress_clone_by c now packet field_list_id none = c
  egress_clone_by c now packet field_list_id (some config) =
      send_clone l c now config (egress_cloned packet field_list_id)

  -- The part under EGRESS CLONING.
  unfoldable pub egress_cloning : Core l → ℕ → Packet → Core l × Packet
  unfolding egress_clone_by
  egress_cloning c now packet = if session_id == 0 then (c, packet) else (
    egress_clone_by c now (request_cleared l packet) (get_clone_field_list registers packet)
        (get_session c.sessions (pos (bit_and session_id mirror_session_id_mask))),
    request_cleared l packet,
  )
    where
      session_id : ℕ
      session_id = get_clone_mirror_session_id registers packet

  -- The packet that goes back to the input buffer.
  unfoldable pub recirculated : Packet → ℕ → Packet
  recirculated packet field_list_id =
      l.set_ingress_length
        (set_field
          (registers.set_register (clear_all registers copy) packet_length_reg_idx
            (l.get_data_size copy))
          standard_metadata_packet_length (l.get_data_size copy))
        (l.get_data_size copy)
    where
      p : Packet
      p = set_recirculate_flag registers packet 0

      copy : Packet
      copy =
          set_field (l.copy_fields field_list_id p (l.reset_metadata (l.clone_no_phv_ptr p)))
            standard_metadata_instance_type (instance_type recirc)

  -- A call of `SendNs3Packet`.
  unfoldable pub send_ns3_packet : Core l → ℕ → Packet → Core l
  send_ns3_packet c port packet = record c {
    sent =
        record {
          ns_packet = l.convert_to_ns3_packet packet;
          port = port;
          protocol = get_ns_protocol registers packet;
          destination = get_elem? c.addresses.destination_list (get_ns_address registers packet);
        }
        ∷ c.sent;
  }

  -- From the deparser to the end.
  unfoldable pub leave : Core l → ℕ → Packet → Core l
  leave c port packet = if flag == 0 then send_ns3_packet c port p else record c {
    input_buffer = (push_front c.input_buffer recirculate (recirculated p flag)).0;
  }
    where
      p : Packet
      p = l.deparse packet

      flag : ℕ
      flag = get_recirculate_flag registers p

  unfoldable pub drop_or_leave : ℕ → Core l × Packet → Core l
  drop_or_leave port (c, packet) =
      if get_field packet standard_metadata_egress_spec == c.drop_port
      then c
      else leave c port packet

  -- The egress pipeline on a packet that has its metadata.
  unfoldable pub egress_on : Core l → ℕ → ℕ → Packet → Core l
  unfolding drop_or_leave
  egress_on c now port packet =
      drop_or_leave port (egress_cloning (record c { world = applied.0 }) now applied.1)
    where
      applied : l.World × Packet
      applied = l.apply_egress c.world (egress_metadata port packet)

  unfoldable pub with_metadata : Core l → ℕ → ℕ → Option Packet → Core l
  with_metadata c now port none = c
  with_metadata c now port (some packet) = egress_on c now port packet

  -- The handler on a packet that has left the egress buffer.
  unfoldable pub egress_taken : Core l → ℕ → Packet → ℕ → Core l
  unfolding with_metadata
  egress_taken c now packet port = with_metadata counted now port (dequeued counted now port p)
    where
      counted : Core l
      counted = count_egress c (l.get_data_size packet)

      p : Packet
      p =
          set_if_has l packet intrinsic_metadata_egress_global_timestamp
            (get_time_stamp now c.start_timestamp)

  unfoldable pub popped : Core l → ℕ → Popped Packet → Core l × Option Bool
  popped c now nothing = (c, some false)
  popped c now (taken packet port priority) = (egress_taken c now packet port, some true)
  popped c now thrown = (c, none)

  -- What the handler returns, or `none` for an exception of the egress buffer.
  unfoldable pub handle_egress_pipeline : Core l → ℕ → ℕ → Core l × Option Bool
  unfolding popped
  handle_egress_pipeline c now worker_id =
      if some_waiting c.egress_buffer queue_number
      then popped (record c { egress_buffer = left.0 }) now left.1
      else (c, some false)
    where
      left : Logic Packet × Popped Packet
      left = pop_back c.egress_buffer now worker_id

  abbrev schedule : Core l → ℕ → Event → Core l
  schedule c delay e = record c { events = (delay, e) ∷ c.events }

  -- `SetEgressTimerEvent` after the handler's return.
  unfoldable pub timer_after : Core l → Bool → Core l
  timer_after c checkflag =
      if c.first_packet
      then (if checkflag then d else schedule d 10 egress_pipeline)
      else if checkflag
      then record d { first_packet = true }
      else d
    where
      d : Core l
      d = schedule c c.egress_time_ref egress_timer_event

  unfoldable pub timer_on : Core l × Option Bool → Option (Core l)
  unfolding timer_after
  timer_on (c, none) = none
  timer_on (c, some checkflag) = some (timer_after c checkflag)

  unfoldable pub set_egress_timer_event : Core l → ℕ → Option (Core l)
  unfolding timer_on
  set_egress_timer_event c now = timer_on (handle_egress_pipeline c now 0)
