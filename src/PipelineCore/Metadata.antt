-- ===== src/PipelineCore/Metadata.antt =====
-- model/p4-core-pipeline.cc, `ReceivePacket`: the metadata that the stages of the program see.
use p4simulator.Base.{ℕ, ◌%◌, ◌^◌, ◌<◌, ◌≡◌, ◌≢◌, refl, ap, ◌∙◌, ◌∷◌, some, arith}
use native.Mathlib.Nat.{mod-eq_of_lt, zero-mod}
use p4simulator.Registers.{packet_length_reg_idx}
use p4simulator.V1model.{
  Library, MetaField, standard_metadata_ingress_port, standard_metadata_packet_length,
  standard_metadata_instance_type, standard_metadata_egress_spec, standard_metadata_egress_port,
}
use p4simulator.PipelineCore.{
  PipelineCore, accepted, ingress_done, learned, for_egress, egress_sent, after_ingress,
  receive_packet,
}

-- The fields that this switch names are told apart by their numbers.
abbrev pub number : MetaField → ℕ
number f = elim f [
  | standard_metadata_ingress_port ↦ 1
  | standard_metadata_packet_length ↦ 2
  | standard_metadata_instance_type ↦ 3
  | standard_metadata_egress_spec ↦ 4
  | standard_metadata_egress_port ↦ 5
  | _ ↦ 0
]

-- A field keeps what is set, cut to its width, and no other field or register is changed by it.
pub record FieldLaws (l : Library) : Type 0 where
  pub width : MetaField → ℕ
  pub same_width : width standard_metadata_egress_port ≡ width standard_metadata_egress_spec
  pub bound : (p : l.Packet) (f : MetaField) → l.get_field p f < 2 ^ width f
  pub get-set :
      (p : l.Packet) (f : MetaField) (v : ℕ) → l.get_field (l.set_field p f v) f ≡ v % 2 ^ width f
  pub get-set_other :
      (p : l.Packet) (f g : MetaField) (v : ℕ)
      → number f ≢ number g
      → l.get_field (l.set_field p f v) g ≡ l.get_field p g
  pub register_kept :
      (p : l.Packet) (f : MetaField) (v i : ℕ)
      → l.registers.get_register (l.set_field p f v) i ≡ l.registers.get_register p i
  pub field_kept :
      (p : l.Packet) (i v : ℕ) (f : MetaField)
      → l.get_field (l.registers.set_register p i v) f ≡ l.get_field p f

module _ (l : Library) (k : FieldLaws l) where
  -- What the parser is to see of a packet that came in by `in_port`.
  pub record ParserSees (packet_in : l.NsPacket) (in_port : ℕ) (p : l.Packet) : Type 0 where
    pub ingress_port :
        l.get_field p standard_metadata_ingress_port
        ≡ in_port % 2 ^ k.width standard_metadata_ingress_port
    pub packet_length :
        l.get_field p standard_metadata_packet_length
        ≡ l.get_data_size (l.convert_to_bm_packet packet_in in_port)
          % 2 ^ 32
          % 2 ^ k.width standard_metadata_packet_length
    pub normal_type : l.get_field p standard_metadata_instance_type ≡ 0
    pub length_register :
        l.registers.get_register p packet_length_reg_idx
        ≡ l.get_data_size (l.convert_to_bm_packet packet_in in_port) % 2 ^ 32

  -- What the egress pipeline is to see of a packet `q` that the ingress pipeline left.
  pub record EgressSees (q p : l.Packet) : Type 0 where
    pub egress_port :
        l.get_field p standard_metadata_egress_port ≡ l.get_field q standard_metadata_egress_spec
    pub egress_spec : l.get_field p standard_metadata_egress_spec ≡ 0
    pub packet_length :
        l.get_field p standard_metadata_packet_length
        ≡ l.registers.get_register q packet_length_reg_idx
          % 2 ^ k.width standard_metadata_packet_length

  accepted-ParserSees :
      (packet_in : l.NsPacket) (in_port : ℕ)
      → ParserSees packet_in in_port (accepted l packet_in in_port)
  unfolding accepted
  accepted-ParserSees packet_in in_port = record {
    ingress_port =
        k.get-set_other _ standard_metadata_instance_type standard_metadata_ingress_port _
          (omega arith)
        ∙ k.get-set_other _ standard_metadata_packet_length standard_metadata_ingress_port _
            (omega arith)
        ∙ k.field_kept _ _ _ standard_metadata_ingress_port
        ∙ k.get-set _ standard_metadata_ingress_port _;
    packet_length =
        k.get-set_other _ standard_metadata_instance_type standard_metadata_packet_length _
          (omega arith)
        ∙ k.get-set _ standard_metadata_packet_length _;
    normal_type =
        k.get-set _ standard_metadata_instance_type _
        ∙ zero-mod (2 ^ k.width standard_metadata_instance_type);
    length_register =
        k.register_kept _ standard_metadata_instance_type _ _
        ∙ k.register_kept _ standard_metadata_packet_length _ _
        ∙ l.registers.get-set_self _ _ _ (omega arith);
  }

  for_egress-EgressSees : (q : l.Packet) → EgressSees q (for_egress l q)
  unfolding for_egress
  for_egress-EgressSees q = record {
    egress_port =
        k.get-set_other _ standard_metadata_packet_length standard_metadata_egress_port _
          (omega arith)
        ∙ k.get-set_other _ standard_metadata_egress_spec standard_metadata_egress_port _
            (omega arith)
        ∙ k.get-set _ standard_metadata_egress_port _
        ∙ ap (λ w. l.get_field q standard_metadata_egress_spec % 2 ^ w) k.same_width
        ∙ mod-eq_of_lt (k.bound q standard_metadata_egress_spec);
    egress_spec =
        k.get-set_other _ standard_metadata_packet_length standard_metadata_egress_spec _
          (omega arith)
        ∙ k.get-set _ standard_metadata_egress_spec _
        ∙ zero-mod (2 ^ k.width standard_metadata_egress_spec);
    packet_length =
        k.get-set _ standard_metadata_packet_length _
        ∙ ap (λ n. n % 2 ^ k.width standard_metadata_packet_length)
            (k.register_kept _ standard_metadata_egress_spec _ _
              ∙ k.register_kept _ standard_metadata_egress_port _ _);
  }

  -- One packet that comes in makes one call of `SendNs3Packet`, of what the egress pipeline made of it,
  -- to the port that the ingress pipeline chose, with the protocol and destination it came with. The
  -- parser sees the port it came in by, its length and the type of a normal packet; the egress
  -- pipeline sees the port that was chosen, no choice that is left, and the length that the ingress
  -- pipeline left in the register. Fields are assumed to keep what is set.
  pub receive_packet-stages :
      (c : PipelineCore l) (packet_in : l.NsPacket) (in_port protocol : ℕ)
      (destination : l.address_class.Address)
      → (a q p : l.Packet) × ParserSees packet_in in_port a
        × (q ≡ (ingress_done l c.world a).1)
        × EgressSees q p
        × ((receive_packet l c packet_in in_port protocol destination).sent
            ≡ record {
              ns_packet =
                  l.convert_to_ns3_packet
                    (l.deparse (l.apply_egress (learned l (ingress_done l c.world a).0 q) p).1);
              port = l.get_field q standard_metadata_egress_spec;
              protocol = protocol;
              destination = some destination;
            }
              ∷ c.sent)
  unfolding receive_packet after_ingress egress_sent
  receive_packet-stages c packet_in in_port protocol destination =
      let a : l.Packet = accepted l packet_in in_port in
      let q : l.Packet = (ingress_done l c.world a).1 in
      (
        a,
        q,
        for_egress l q,
        accepted-ParserSees packet_in in_port,
        refl,
        for_egress-EgressSees q,
        refl,
      )
