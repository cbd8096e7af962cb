-- ===== src/V1model/Control.antt =====
-- model/p4-core-v1model.cc: the start of the switch, its statistics, and the settings of its queues.
use p4simulator.Base.{ℕ, ◌/◌, ◌%◌, [], true, false, ◌==◌, Bool, ◌∷◌, if◌then◌else◌, size_add}
use p4simulator.InputBuffer
use p4simulator.EgressQueue
use p4simulator.EgressQueue.{Logic}
use p4simulator.EgressQueue.Settings.{
  set_capacity, set_capacity_of_priority, set_capacity_for_all, set_rate, set_rate_of_priority,
  set_rate_for_all,
}
use p4simulator.SwitchCore.{QueueingFields, check_queueing_metadata}
use p4simulator.SwitchCore.Addresses
use p4simulator.SwitchCore.Mirroring.{none_at}
use p4simulator.V1model.{Library, Core, Counters, egress_timer_event, packets_per_second}

-- `m_nbEgressThreads`
abbrev pub nb_egress_threads : ℕ
nb_egress_threads = 1

-- `EgressThreadMapper`
abbrev pub egress_thread : ℕ → ℕ
egress_thread egress_port = egress_port % nb_egress_threads

module _ (l : Library) where
  -- `CalculateScheduleTime`: the time between two packets in nanoseconds.
  unfoldable pub calculate_schedule_time : Core l → Core l
  calculate_schedule_time c = record c {
    egress_buffer = set_rate_for_all c.egress_buffer c.switch_rate;
    egress_time_ref = 1_000_000_000 / c.switch_rate;
  }

  -- The constructor. The sizes of the input buffer are passed on in the order they are given in;
  -- the counters, set to zero for tracing, are not read without it.
  unfoldable pub init : l.World → (ℕ → ℕ) → Bool → ℕ → ℕ → ℕ → ℕ → ℕ → ℕ → ℕ → Core l
  init world seconds_per enable_tracing packet_rate input_buffer_size_low input_buffer_size_high
        queue_buffer_size nb_queues_per_port drop_port now =
      calculate_schedule_time (record {
        world = world;
        input_buffer = InputBuffer.init input_buffer_size_low input_buffer_size_high;
        egress_buffer =
            EgressQueue.init nb_egress_threads queue_buffer_size egress_thread nb_queues_per_port
              seconds_per;
        sessions = none_at;
        addresses = Addresses.empty l.address_class;
        counters = record {
          input_bps = 0;
          input_bp = 0;
          input_pps = 0;
          input_pp = 0;
          egress_bps = 0;
          egress_bp = 0;
          egress_pps = 0;
          egress_pp = 0;
        };
        enable_tracing = enable_tracing;
        enable_queueing_metadata = true;
        nb_queues_per_port = nb_queues_per_port;
        drop_port = drop_port;
        start_timestamp = now;
        switch_rate = packet_rate;
        egress_time_ref = 0;
        time_interval = if enable_tracing then 1_000_000_000 else 0;
        first_packet = false;
        sent = [];
        events = [];
      })

  -- `start_and_return_`
  unfoldable pub start_and_return : Core l → QueueingFields → Core l
  start_and_return c fields =
      if timed.enable_tracing
      then record timed { events = (timed.time_interval, packets_per_second) ∷ timed.events }
      else timed
    where
      checked : Core l
      checked = record c { enable_queueing_metadata = check_queueing_metadata fields }

      timed : Core l
      timed = if checked.egress_time_ref == 0 then checked else record checked {
        events = (checked.egress_time_ref, egress_timer_event) ∷ checked.events;
      }

  -- `swap_notify_`
  unfoldable pub swap_notify : Core l → QueueingFields → Core l
  swap_notify c fields = record c { enable_queueing_metadata = check_queueing_metadata fields }

  -- The totals so far.
  unfoldable pub totals : Counters l → Counters l
  totals n = record n {
    input_bp = size_add n.input_bp n.input_bps;
    input_pp = size_add n.input_pp n.input_pps;
    egress_bp = size_add n.egress_bp n.egress_bp;
    egress_pp = size_add n.egress_pp n.egress_pps;
  }

  -- The counts of an interval start from zero again.
  unfoldable pub next_interval : Counters l → Counters l
  next_interval n = record n { input_bps = 0; input_pps = 0; egress_bps = 0; egress_pps = 0 }

  -- `CalculatePacketsPerSecond`, which ends early, and for good, where the log file is not open.
  unfoldable pub calculate_packets_per_second : Core l → Bool → Core l
  calculate_packets_per_second c log_open =
      if log_open
      then record c {
        counters = next_interval (totals c.counters);
        events = (c.time_interval, packets_per_second) ∷ c.events;
      }
      else record c { counters = totals c.counters }

  unfoldable pub set_egress_priority_queue_depth : Core l → ℕ → ℕ → ℕ → ℕ → Core l × Bool
  set_egress_priority_queue_depth c now port priority depth_pkts =
      (record c { egress_buffer = changed.0 }, changed.1)
    where
      changed : Logic l.Packet × Bool
      changed = set_capacity_of_priority c.egress_buffer now port priority depth_pkts

  unfoldable pub set_egress_queue_depth : Core l → ℕ → ℕ → ℕ → Core l
  set_egress_queue_depth c now port depth_pkts = record c {
    egress_buffer = set_capacity c.egress_buffer now port depth_pkts;
  }

  unfoldable pub set_all_egress_queue_depths : Core l → ℕ → Core l
  set_all_egress_queue_depths c depth_pkts = record c {
    egress_buffer = set_capacity_for_all c.egress_buffer depth_pkts;
  }

  unfoldable pub set_egress_priority_queue_rate : Core l → ℕ → ℕ → ℕ → ℕ → Core l × Bool
  set_egress_priority_queue_rate c now port priority rate_pps =
      (record c { egress_buffer = changed.0 }, changed.1)
    where
      changed : Logic l.Packet × Bool
      changed = set_rate_of_priority c.egress_buffer now port priority rate_pps

  unfoldable pub set_egress_queue_rate : Core l → ℕ → ℕ → ℕ → Core l
  set_egress_queue_rate c now port rate_pps = record c {
    egress_buffer = set_rate c.egress_buffer now port rate_pps;
  }

  unfoldable pub set_all_egress_queue_rates : Core l → ℕ → Core l
  set_all_egress_queue_rates c rate_pps = record c {
    egress_buffer = set_rate_for_all c.egress_buffer rate_pps;
  }
