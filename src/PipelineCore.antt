-- ===== src/PipelineCore.antt =====
-- model/p4-core-pipeline.cc, class P4CorePipeline: the switch without queues. The packet library is that
-- of V1model.
mod Metadata
mod Tests
use p4simulator.Base.{ℕ, ◌%◌, ◌^◌, some, List, [], ◌∷◌, ltb, if◌then◌else◌}
use p4simulator.Registers.{packet_length_reg_idx, get_lf_field_list}
use p4simulator.V1model.{
  Library, Sent, MetaField, standard_metadata_ingress_port, standard_metadata_packet_length,
  standard_metadata_instance_type, standard_metadata_egress_spec, standard_metadata_egress_port,
  normal, instance_type,
}

module _ (l : Library) where
  open l use {Packet, NsPacket, World, address_class, registers, get_field, set_field}
  open address_class use {Address}

  -- The object, with what it has sent, the last in front.
  pub record PipelineCore : Type 0 where
    pub world : World
    pub sent : List (Sent l)

  -- The packet that the parser gets: its metadata is reset, then set.
  unfoldable pub accepted : NsPacket → ℕ → Packet
  accepted packet_in in_port =
      set_field
        (set_field
          (registers.set_register
            (set_field (l.reset_metadata (l.set_ingress_port converted in_port))
              standard_metadata_ingress_port in_port)
            packet_length_reg_idx len)
          standard_metadata_packet_length len)
        standard_metadata_instance_type (instance_type normal)
    where
      converted : Packet
      converted = l.convert_to_bm_packet packet_in in_port

      len : ℕ
      len = l.get_data_size converted % 2 ^ 32

  -- After the parser and the ingress pipeline.
  unfoldable pub ingress_done : World → Packet → World × Packet
  ingress_done w packet = let (v, p) = l.apply_ingress w (l.parse w packet) in (v, l.reset_exit p)

  unfoldable pub learned : World → Packet → World
  learned w packet =
      if ltb 0 (get_lf_field_list registers packet)
      then l.learn w (get_lf_field_list registers packet) packet
      else w

  -- The packet that the egress pipeline gets.
  unfoldable pub for_egress : Packet → Packet
  for_egress packet =
      set_field spec_cleared standard_metadata_packet_length
        (registers.get_register spec_cleared packet_length_reg_idx)
    where
      spec_cleared : Packet
      spec_cleared =
          set_field
            (set_field packet standard_metadata_egress_port
              (get_field packet standard_metadata_egress_spec))
            standard_metadata_egress_spec 0

  -- Egress, deparser and the call of `SendNs3Packet`.
  unfoldable pub egress_sent : PipelineCore → World × Packet → ℕ → ℕ → Address → PipelineCore
  egress_sent c (w, packet) egress_spec protocol destination = record {
    world = w;
    sent =
        record {
          ns_packet = l.convert_to_ns3_packet (l.deparse packet);
          port = egress_spec;
          protocol = protocol;
          destination = some destination;
        }
        ∷ c.sent;
  }

  unfoldable pub after_ingress : PipelineCore → World × Packet → ℕ → Address → PipelineCore
  after_ingress c (w, packet) protocol destination =
      egress_sent c (l.apply_egress (learned w packet) (for_egress packet))
        (get_field packet standard_metadata_egress_spec) protocol destination

  unfoldable pub receive_packet : PipelineCore → NsPacket → ℕ → ℕ → Address → PipelineCore
  receive_packet c packet_in in_port protocol destination =
      after_ingress c (ingress_done c.world (accepted packet_in in_port)) protocol destination
