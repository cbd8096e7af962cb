-- ===== src/V1model/ResubmitTests.antt =====
-- A P4 program that resubmits every packet once.
use p4simulator.Base.{
  ℕ, ◌<◌, ◌≤◌, ◌≡◌, refl, ap, ◌^◌, ◌%◌, ◌∙◌, some, [], ◌∷◌, update, ◌==◌, if◌then◌else◌, arith,
}
use p4simulator.Registers.{get_resubmit_flag, set_resubmit_flag}
use p4simulator.Registers.Fields.{resubmit_flag, get-set_field}
use p4simulator.V1model.{Library, Core}
use p4simulator.V1model.Ingress.{handle_ingress_pipeline, parsed, set_if_has}
use p4simulator.V1model.Returning.{ResubmitsOnce, handle-returns}
use p4simulator.V1model.Tests.{library, switch, cells, frame}

-- The flag of a packet that comes with this type of instance.
abbrev flag_for : ℕ → ℕ
flag_for t = if t == 6 then 0 else 1

abbrev resubmitting : Library
resubmitting = record library {
  apply_ingress = λ w p. (w, set_resubmit_flag cells (update p 15 1) (flag_for (p 12)));
}

abbrev one_waiting : Core resubmitting
one_waiting = record {
  world = 0;
  input_buffer = record { capacity_hi = 4; capacity_lo = 4; queue_hi = []; queue_lo = frame ∷ [] };
  egress_buffer = switch.egress_buffer;
  sessions = switch.sessions;
  addresses = switch.addresses;
  counters = record {
    input_bps = 0;
    input_bp = 0;
    input_pps = 0;
    input_pp = 0;
    egress_bps = 0;
    egress_bp = 0;
    egress_pps = 0;
    egress_pp = 0;
  };
  enable_tracing = switch.enable_tracing;
  enable_queueing_metadata = switch.enable_queueing_metadata;
  nb_queues_per_port = 8;
  drop_port = 511;
  start_timestamp = 0;
  switch_rate = 1000;
  egress_time_ref = 1_000_000;
  time_interval = 1_000_000_000;
  first_packet = switch.first_packet;
  sent = [];
  events = [];
}

apart_12 : (p : ℕ → ℕ) (i v : ℕ) → i ≤ 2 → update p i v 12 ≡ p 12
apart_12 p i v h = ground arith

apart_100 : (p : ℕ → ℕ) (v i : ℕ) → i ≤ 2 → update p 100 v i ≡ p i
apart_100 p v i h = ground arith

flag_for-lt : (t : ℕ) → flag_for t < 2 ^ 16
flag_for-lt t = ground arith

flag_zero :
    (q : ℕ → ℕ)
    → q 12 ≡ 6
    → get_resubmit_flag cells (set_resubmit_flag cells (update q 15 1) (flag_for (q 12))) ≡ 0
flag_zero q h =
    get-set_field cells resubmit_flag (update q 15 1) (flag_for (q 12)) (flag_for-lt (q 12))
    ∙ ap flag_for h

parsed_type : (c : Core resubmitting) (p : ℕ → ℕ) → parsed resubmitting c p 12 ≡ p 12
unfolding parsed set_if_has
parsed_type c p = refl

resubmitting-ResubmitsOnce : ResubmitsOnce resubmitting
resubmitting-ResubmitsOnce = record {
  marked = λ p. refl;
  length_apart = λ p v. refl;
  registers_apart = λ p i v h. apart_12 p i v h;
  restored = λ p s i h. ap (λ t. t % 2 ^ 64) (apart_100 p s i h);
  once = λ c p h. flag_zero (parsed resubmitting c p) (parsed_type c p ∙ h);
}

handle-returns_example :
    (d : Core resubmitting) × (handle_ingress_pipeline resubmitting 2 one_waiting 5 ≡ some d)
handle-returns_example =
    handle-returns resubmitting resubmitting-ResubmitsOnce 2 one_waiting 5 (omega arith)
