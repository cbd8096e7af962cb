-- ===== src/PipelineCore/Tests.antt =====
-- model/p4-core-pipeline.cc: a program that sends every packet to port 1. A packet is its cells: registers
-- from 20 on, fields by their numbers.
use p4simulator.Base.{
  ℕ, ◌+◌, ◌%◌, ◌^◌, ◌<◌, ◌≡◌, ◌≢◌, ◌==◌, refl, sym, ap, true, false, some, [], ◌∷◌, update, if_true,
  if_false, ==-refl, ==-false, ==_iff, arith,
}
use p4simulator.Registers.{RegisterFile}
use p4simulator.SwitchCore.Addresses.{AddressClass}
use p4simulator.V1model.{
  Library, MetaField, standard_metadata_ingress_port, standard_metadata_packet_length,
  standard_metadata_instance_type, standard_metadata_egress_spec, standard_metadata_egress_port,
}
use p4simulator.PipelineCore.{
  PipelineCore, accepted, ingress_done, learned, for_egress, egress_sent, after_ingress,
  receive_packet,
}
use p4simulator.PipelineCore.Metadata.{
  number, FieldLaws, ParserSees, EgressSees, receive_packet-stages,
}

cells-lt : (p : ℕ → ℕ) (i : ℕ) → p (i + 20) % 2 ^ 64 < 2 ^ 64
cells-lt p i = omega arith

cells-set_self : (p : ℕ → ℕ) (i v : ℕ) → v < 2 ^ 64 → update p (i + 20) v (i + 20) % 2 ^ 64 ≡ v
cells-set_self p i v h = ground arith

cells-set_ne :
    (p : ℕ → ℕ) (i j v : ℕ) → i ≢ j → update p (i + 20) v (j + 20) % 2 ^ 64 ≡ p (j + 20) % 2 ^ 64
cells-set_ne p i j v h = ground arith

abbrev cells : RegisterFile (ℕ → ℕ)
cells = record {
  get_register = λ p i. p (i + 20) % 2 ^ 64;
  set_register = λ p i v. update p (i + 20) v;
  get-lt = cells-lt;
  get-set_self = cells-set_self;
  get-set_ne = cells-set_ne;
}

abbrev numbered : AddressClass
numbered = record { Address = ℕ; same = ◌==◌; same_iff = ==_iff }

abbrev library : Library
library = record {
  Packet = ℕ → ℕ;
  NsPacket = ℕ;
  World = ℕ;
  Saved = ℕ;
  address_class = numbered;
  registers = cells;
  has_field = λ f. true;
  get_field = λ p f. p (number f) % 2 ^ 16;
  set_field = λ p f v. update p (number f) v;
  reset_metadata = λ p. p;
  get_data_size = λ p. p 10;
  get_ingress_port = λ p. p 11;
  set_ingress_port = λ p v. update p 11 v;
  set_egress_port = λ p v. update p 12 v;
  set_ingress_length = λ p v. update p 13 v;
  get_error_code = λ p. 0;
  get_checksum_error = λ p. false;
  reset_exit = λ p. p;
  save_buffer_state = λ p. p 10;
  restore_buffer_state = λ p v. update p 10 v;
  clone_no_phv_ptr = λ p. p;
  clone_with_phv_ptr = λ p. p;
  clone_with_phv_reset_metadata_ptr = λ p. p;
  copy_fields = λ id source target. target;
  parse = λ w p. p;
  apply_ingress = λ w p. (w, update p (number standard_metadata_egress_spec) 1);
  apply_egress = λ w p. (w, p);
  deparse = λ p. p;
  learn = λ w id p. w;
  replicate = λ w mgid. [];
  convert_to_bm_packet = λ n port. update (λ i. 0) 10 n;
  convert_to_ns3_packet = λ p. p 10;
}

number-small : (f : MetaField) → number f < 20
number-small f = elim f as (λ k. number k < 20) [
  | standard_metadata_ingress_port ↦ omega arith
  | standard_metadata_packet_length ↦ omega arith
  | standard_metadata_instance_type ↦ omega arith
  | standard_metadata_egress_spec ↦ omega arith
  | standard_metadata_egress_port ↦ omega arith
  | _ ↦ omega arith
]

field_laws : FieldLaws library
field_laws = record {
  width = λ f. 16;
  same_width = refl;
  bound = λ p f. omega arith;
  get-set = λ p f v.
      ap (λ n. n % 2 ^ 16) (if_true (number f == number f) v (p (number f)) (==-refl (number f)));
  get-set_other = λ p f g v ne.
      ap (λ n. n % 2 ^ 16)
        (if_false (number g == number f) v (p (number g))
          (==-false (number g) (number f) (λ e. ne (sym e))));
  register_kept = λ p f v i.
      ap (λ n. n % 2 ^ 64)
        (if_false (i + 20 == number f) v (p (i + 20))
          (==-false (i + 20) (number f) (omega (arith, number-small f))));
  field_kept = λ p i v f.
      ap (λ n. n % 2 ^ 16)
        (if_false (number f == i + 20) v (p (number f))
          (==-false (number f) (i + 20) (omega (arith, number-small f))));
}

abbrev start : PipelineCore library
start = record { world = 0; sent = [] }

abbrev after_one : PipelineCore library
after_one = receive_packet library start 60 3 2048 7

sent_to_port_1 :
    after_one.sent ≡ record { ns_packet = 60; port = 1; protocol = 2048; destination = some 7 } ∷ []
unfolding receive_packet after_ingress egress_sent ingress_done accepted for_egress
sent_to_port_1 = refl

receive_packet-stages_example :
    (a q p : ℕ → ℕ) × ParserSees library field_laws 60 3 a
    × (q ≡ (ingress_done library 0 a).1)
    × EgressSees library field_laws q p
    × ((receive_packet library start 60 3 2048 7).sent
        ≡ record {
          ns_packet = library.convert_to_ns3_packet (
              library.deparse
                (library.apply_egress (learned library (ingress_done library 0 a).0 q) p).1);
          port = library.get_field q standard_metadata_egress_spec;
          protocol = 2048;
          destination = some 7;
        }
          ∷ [])
receive_packet-stages_example = receive_packet-stages library field_laws start 60 3 2048 7
