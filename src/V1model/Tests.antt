-- ===== src/V1model/Tests.antt =====
-- A switch over packets that are arrays of cells: the registers from cell 0, the metadata from cell
-- 10, the number of bytes in cell 100.
use p4simulator.Base.{
  ℕ, ◌+◌, ◌%◌, ◌^◌, ◌<◌, ◌≤◌, ◌≡◌, ◌≢◌, refl, ap, true, false, List, [], ◌∷◌, update, ◌==◌, ==_iff,
  arith, some, none,
}
use p4simulator.Registers.{
  RegisterFile, get_ns_protocol, get_ns_address, read_bits, mask_16, mask_32,
}
use p4simulator.InputBuffer
use p4simulator.EgressQueue
use p4simulator.SwitchCore.Mirroring.{none_at}
use p4simulator.SwitchCore.Addresses.{AddressClass}
use p4simulator.V1model.{
  Library, Core, MetaField, standard_metadata_ingress_port, standard_metadata_packet_length,
  standard_metadata_instance_type, standard_metadata_parser_error, standard_metadata_checksum_error,
  standard_metadata_egress_spec, standard_metadata_egress_port,
  intrinsic_metadata_ingress_global_timestamp, intrinsic_metadata_egress_global_timestamp,
  intrinsic_metadata_mcast_grp, intrinsic_metadata_egress_rid, intrinsic_metadata_priority,
  queueing_metadata_enq_timestamp, queueing_metadata_enq_qdepth, queueing_metadata_deq_timedelta,
  queueing_metadata_deq_qdepth, queueing_metadata_qid, stamped, replica,
}
use p4simulator.V1model.Ingress.{receive_packet, returned, waits, received}
use p4simulator.EgressQueue.Pop.{size}
use p4simulator.EgressQueue.Service.{held}
use p4simulator.EgressQueue.History.{init-Inv}
use p4simulator.V1model.Stalled.{handle_egress_ends}
use p4simulator.V1model.Egress.{queue_number, handle_egress_pipeline, egress_taken}
use p4simulator.V1model.Waiting.{waiting, receive-waiting}
use p4simulator.V1model.Statistics.{
  comes, goes, interval_ends, Tick, count, total_in, total_bits_in, total_out, packets_in, bits_in,
  packets_out, count_totals,
}
use p4simulator.V1model.SentKept.{KeepsNs}
use p4simulator.V1model.Sending.{SendsAs, outbox, replica-SendsAs, received-SendsAs}

pub cells-lt : (p : ℕ → ℕ) (i : ℕ) → p i % 2 ^ 64 < 2 ^ 64
cells-lt p i = omega arith

pub cells-set_self : (p : ℕ → ℕ) (i v : ℕ) → v < 2 ^ 64 → update p i v i % 2 ^ 64 ≡ v
cells-set_self p i v h = ground arith

pub cells-set_ne : (p : ℕ → ℕ) (i j v : ℕ) → i ≢ j → update p i v j % 2 ^ 64 ≡ p j % 2 ^ 64
cells-set_ne p i j v h = ground arith

abbrev pub cells : RegisterFile (ℕ → ℕ)
cells = record {
  get_register = λ p i. p i % 2 ^ 64;
  set_register = update;
  get-lt = cells-lt;
  get-set_self = cells-set_self;
  get-set_ne = cells-set_ne;
}

abbrev pub cell_of : MetaField → ℕ
cell_of standard_metadata_ingress_port = 10
cell_of standard_metadata_packet_length = 11
cell_of standard_metadata_instance_type = 12
cell_of standard_metadata_parser_error = 13
cell_of standard_metadata_checksum_error = 14
cell_of standard_metadata_egress_spec = 15
cell_of standard_metadata_egress_port = 16
cell_of intrinsic_metadata_ingress_global_timestamp = 17
cell_of intrinsic_metadata_egress_global_timestamp = 18
cell_of intrinsic_metadata_mcast_grp = 19
cell_of intrinsic_metadata_egress_rid = 20
cell_of intrinsic_metadata_priority = 21
cell_of queueing_metadata_enq_timestamp = 22
cell_of queueing_metadata_enq_qdepth = 23
cell_of queueing_metadata_deq_timedelta = 24
cell_of queueing_metadata_deq_qdepth = 25
cell_of queueing_metadata_qid = 26

cell_of-ge : (f : MetaField) → 10 ≤ cell_of f
cell_of-ge f = ground arith

abbrev numbered : AddressClass
numbered = record { Address = ℕ; same = ◌==◌; same_iff = ==_iff }

-- The program sends every packet to port 1.
abbrev pub library : Library
library = record {
  Packet = ℕ → ℕ;
  NsPacket = ℕ;
  World = ℕ;
  Saved = ℕ;
  address_class = numbered;
  registers = cells;
  has_field = λ f. true;
  get_field = λ p f. p (cell_of f);
  set_field = λ p f v. update p (cell_of f) v;
  reset_metadata = λ p. p;
  get_data_size = λ p. p 100;
  get_ingress_port = λ p. p 101;
  set_ingress_port = λ p v. update p 101 v;
  set_egress_port = λ p v. update p 102 v;
  set_ingress_length = λ p v. update p 103 v;
  get_error_code = λ p. 0;
  get_checksum_error = λ p. false;
  reset_exit = λ p. p;
  save_buffer_state = λ p. p 100;
  restore_buffer_state = λ p v. update p 100 v;
  clone_no_phv_ptr = λ p. p;
  clone_with_phv_ptr = λ p. p;
  clone_with_phv_reset_metadata_ptr = λ p. p;
  copy_fields = λ id source target. target;
  parse = λ w p. p;
  apply_ingress = λ w p. (w, update p (cell_of standard_metadata_egress_spec) 1);
  apply_egress = λ w p. (w, p);
  deparse = λ p. p;
  learn = λ w id p. w;
  replicate = λ w mgid. [];
  convert_to_bm_packet = λ n port. update (λ i. 0) 100 n;
  convert_to_ns3_packet = λ p. p 100;
}

abbrev pub switch : Core library
switch = record {
  world = 0;
  input_buffer = InputBuffer.init 4 4;
  egress_buffer = EgressQueue.init 1 4 (λ p. 0) 8 (λ pps. 1_000_000);
  sessions = none_at;
  addresses = record { address_map = (7, 0) ∷ []; destination_list = 7 ∷ [] };
  counters = record {
    input_bps = 0;
    input_bp = 0;
    input_pps = 0;
    input_pp = 0;
    egress_bps = 0;
    egress_bp = 0;
    egress_pps = 0;
    egress_pp = 0;
  };
  enable_tracing = true;
  enable_queueing_metadata = true;
  nb_queues_per_port = 8;
  drop_port = 511;
  start_timestamp = 0;
  switch_rate = 1000;
  egress_time_ref = 1_000_000;
  time_interval = 1_000_000_000;
  first_packet = false;
  sent = [];
  events = [];
}

receive-waiting_example :
    ((d : Core library)
      → receive_packet library 1 switch 5 60 2 0x0800 7 ≡ returned d
      → waiting d.input_buffer ≤ waiting switch.input_buffer)
    × (waiting switch.input_buffer ≡ 0
        → 0 < switch.input_buffer.capacity_lo
        → receive_packet library 1 switch 5 60 2 0x0800 7 ≢ waits)
receive-waiting_example = receive-waiting library 1 switch 5 60 2 0x0800 7

abbrev ticks : List Tick
ticks = comes 60 ∷ goes 60 ∷ interval_ends ∷ comes 100 ∷ goes 100 ∷ []

count_totals_example :
    (total_in library (count library switch ticks).counters % 2 ^ 64
      ≡ (total_in library switch.counters + packets_in library ticks) % 2 ^ 64)
    × (total_bits_in library (count library switch ticks).counters % 2 ^ 64
        ≡ (total_bits_in library switch.counters + bits_in library ticks) % 2 ^ 64)
    × (total_out library (count library switch ticks).counters % 2 ^ 64
        ≡ (total_out library switch.counters + packets_out library ticks) % 2 ^ 64)
    × (switch.counters.egress_bp ≡ 0 → (count library switch ticks).counters.egress_bp ≡ 0)
count_totals_example = count_totals library ticks switch refl

apart : (p : ℕ → ℕ) (i v : ℕ) → 10 ≤ i → update p i v 2 ≡ p 2
apart p i v h = ground arith

fields_apart :
    (p : ℕ → ℕ) (i v : ℕ)
    → 10 ≤ i
    → ◌≡◌ {A = ℕ × ℕ}
        (get_ns_protocol cells (update p i v), get_ns_address cells (update p i v))
        (get_ns_protocol cells p, get_ns_address cells p)
unfolding get_ns_protocol get_ns_address
fields_apart p i v h =
    ap (λ t. (read_bits (t % 2 ^ 64) mask_16 16, read_bits (t % 2 ^ 64) mask_32 32)) (apart p i v h)

library-KeepsNs : KeepsNs library
library-KeepsNs = record {
  fields = λ p f v. fields_apart p (cell_of f) v (cell_of-ge f);
  egress_port = λ p v. fields_apart p 102 v (omega arith);
  deparsed = λ p. refl;
  egress_applied = λ w p. refl;
}

abbrev pub frame : ℕ → ℕ
frame i = 64

replica-SendsAs_example :
    SendsAs library
      (outbox library switch)
      (egress_taken library switch 9 (stamped library switch 5 1 (replica library frame 64)) 1).sent
      1
      (0, 0)
replica-SendsAs_example = replica-SendsAs library library-KeepsNs switch switch 5 9 1 frame 64

received-SendsAs_example :
    SendsAs library
      (outbox library switch)
      (egress_taken library switch 9 (received library switch 5 60 2 0x0800 0) 1).sent
      1
      (0x0800, 0)
received-SendsAs_example =
    received-SendsAs library library-KeepsNs switch switch 5 9 60 2 0x0800 0 1
      (received library switch 5 60 2 0x0800 0) (omega arith) (omega arith) refl

there : 0 < switch.egress_buffer.nb_workers
unfolding EgressQueue.init
there = omega arith

few : held switch.egress_buffer 0 < 2 ^ 64
unfolding EgressQueue.init
few = omega arith

handle_egress_ends_example :
    (((p : ℕ) → p < queue_number → size switch.egress_buffer p ≡ 0)
      → handle_egress_pipeline library switch 9 0 ≡ (switch, some false))
    × ((handle_egress_pipeline library switch 9 0).1 ≢ none)
handle_egress_ends_example =
    handle_egress_ends library switch 9 0 (init-Inv 1 4 (λ p. 0) 8 (λ pps. 1_000_000)) there few
