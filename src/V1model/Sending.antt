-- ===== src/V1model/Sending.antt =====
-- model/p4-core-v1model.cc: the protocol and the destination with which a packet leaves the switch.
use p4simulator.Base.{
  ℕ, ◌^◌, ◌<◌, ◌≡◌, refl, ap, sym, ◌∙◌, subst, ◌⊎◌, inl, inr, Bool-cases, none, some, List, ◌∷◌,
  leb, ◌==◌, get_elem?, size_sub, arith,
}
use p4simulator.Registers.{
  get_ns_protocol, get_ns_address, get_recirculate_flag, packet_length_reg_idx, read_bits, mask_16,
  mask_32,
}
use p4simulator.Registers.Fields.{
  get-set_other, get-set_field, clear_all_lem, ns_protocol, ns_address,
}
use p4simulator.SwitchCore.{get_time_stamp}
use p4simulator.V1model.{
  Library, Core, Sent, MetaField, stamped, replica, priority_of, queueing_metadata_deq_timedelta,
  queueing_metadata_enq_timestamp, standard_metadata_egress_spec,
  intrinsic_metadata_egress_global_timestamp,
}
use p4simulator.V1model.SentKept.{both, ns, KeepsNs, egress_cloning_sent}
use p4simulator.V1model.Ingress.{received, set_if_has}
use p4simulator.V1model.Egress.{
  count_egress, dequeued, egress_metadata, egress_cloning, leave, drop_or_leave, egress_on,
  with_metadata, egress_taken, send_ns3_packet,
}

module _ (l : Library) where
  open l use {Packet, registers, set_field}

  -- The calls of `SendNs3Packet` so far, and the destinations that have an index.
  abbrev pub Outbox : Type 0
  Outbox = List (Sent l) × List l.address_class.Address

  abbrev pub outbox : Core l → Outbox
  outbox c = (c.sent, c.addresses.destination_list)

  -- One call more at most, with what the registers say.
  abbrev pub SendsAs : Outbox → List (Sent l) → ℕ → ℕ × ℕ → Type 0
  SendsAs (sent, destinations) after port (protocol, address) =
      (after ≡ sent)
      ⊎ ((packet : l.NsPacket) × (after
            ≡ record {
              ns_packet = packet;
              port = port;
              protocol = protocol;
              destination = get_elem? destinations address;
            }
              ∷ sent))

  sends_same :
      (d : List (Sent l)) (port : ℕ) {o o' : Outbox} {q q' : ℕ × ℕ}
      → o ≡ o'
      → q ≡ q'
      → SendsAs o d port q
      → SendsAs o' d port q'
  sends_same d port {o} {o'} {q} {q'} p r h =
      subst (λ t. SendsAs t d port q') p (subst (λ t. SendsAs o d port t) r h)

  module _ (k : KeepsNs l) where
    ns-set_if_has : (p : Packet) (f : MetaField) (v : ℕ) → ns l (set_if_has l p f v) ≡ ns l p
    unfolding set_if_has
    ns-set_if_has p f v = elim (Bool-cases (l.has_field f)) [
      | inl e ↦ rw e (k.fields p f v)
      | inr e ↦ rw e refl
    ]

    leave-SendsAs :
        (c : Core l) (port : ℕ) (p : Packet)
        → SendsAs (outbox c) (leave l c port p).sent port (ns l p)
    unfolding leave send_ns3_packet
    leave-SendsAs c port p = elim (Bool-cases (get_recirculate_flag registers (l.deparse p) == 0)) [
      | inl e ↦ rw e (
          inr (
            l.convert_to_ns3_packet (l.deparse p),
            ap
                (λ (q : ℕ × ℕ).
                  ◌∷◌
                    (record {
                      ns_packet = l.convert_to_ns3_packet (l.deparse p);
                      port = port;
                      protocol = q.0;
                      destination = get_elem? c.addresses.destination_list q.1;
                    })
                    c.sent)
                (k.deparsed p),
          ))
      | inr e ↦ rw e (inl refl)
    ]

    drop_or_leave-SendsAs :
        (c : Core l) (port : ℕ) (p : Packet)
        → SendsAs (outbox c) (drop_or_leave l port (c, p)).sent port (ns l p)
    unfolding drop_or_leave
    drop_or_leave-SendsAs c port p =
        elim (Bool-cases (l.get_field p standard_metadata_egress_spec == c.drop_port)) [
          | inl e ↦ rw e (inl refl)
          | inr e ↦ rw e (leave-SendsAs c port p)
        ]

    ns-egress_metadata : (port : ℕ) (p : Packet) → ns l (egress_metadata l port p) ≡ ns l p
    unfolding egress_metadata
    ns-egress_metadata port p = k.fields _ _ _ ∙ k.fields _ _ _ ∙ k.fields _ _ _

    egress_on-SendsAs :
        (c : Core l) (now port : ℕ) (p : Packet)
        → SendsAs (outbox c) (egress_on l c now port p).sent port (ns l p)
    unfolding egress_on
    egress_on-SendsAs c now port p =
        let applied : l.World × Packet = l.apply_egress c.world (egress_metadata l port p) in
        let c₁ : Core l = record c { world = applied.0 } in
        let (s, a, n) = egress_cloning_sent l c₁ now applied.1 in
        sends_same _ port (both s (ap (λ t. t.destination_list) a))
          (n ∙ k.egress_applied c.world (egress_metadata l port p) ∙ ns-egress_metadata port p)
          (drop_or_leave-SendsAs (egress_cloning l c₁ now applied.1).0 port
            (egress_cloning l c₁ now applied.1).1)

    ns-dequeued :
        (c : Core l) (now port : ℕ) (p : Packet)
        → (dequeued l c now port p ≡ none)
          ⊎ ((q : Packet) × (dequeued l c now port p ≡ some q) × (ns l q ≡ ns l p))
    unfolding dequeued
    ns-dequeued c now port p = elim (Bool-cases c.enable_queueing_metadata) [
      | inr e ↦ rw e (inr (p, refl, refl))
      | inl e ↦
          elim (Bool-cases (
            leb c.nb_queues_per_port (
              priority_of l (
                set_field p queueing_metadata_deq_timedelta (
                  size_sub (get_time_stamp now c.start_timestamp)
                    (l.get_field p queueing_metadata_enq_timestamp)))))) [
                      | inl o ↦ rw (e, o) (inl refl)
                      | inr o ↦
                          rw (e, o)
                            (inr (_, refl, ns-set_if_has _ _ _ ∙ k.fields _ _ _ ∙ k.fields _ _ _))
                    ]
    ]

    count_egress_out : (c : Core l) (len : ℕ) → outbox (count_egress l c len) ≡ outbox c
    unfolding count_egress
    count_egress_out c len = elim (Bool-cases c.enable_tracing) [
      | inl e ↦ rw e refl
      | inr e ↦ rw e refl
    ]

    -- The egress pipeline sends a packet at most once, to the port it was queued for, with the
    -- protocol in its registers and the destination whose index they hold.
    pub egress_taken-SendsAs :
        (c : Core l) (now port : ℕ) (p : Packet)
        → SendsAs (outbox c) (egress_taken l c now p port).sent port (ns l p)
    unfolding egress_taken with_metadata
    egress_taken-SendsAs c now port p =
        let c₁ : Core l = count_egress l c (l.get_data_size p) in
        let start : Packet =
          set_if_has l p intrinsic_metadata_egress_global_timestamp
            (get_time_stamp now c.start_timestamp) in
        elim (ns-dequeued c₁ now port start) [
          | inl e ↦ inl (
              ap (λ o. (with_metadata l c₁ now port o).sent) e
              ∙ ap (λ o. o.0) (count_egress_out c (l.get_data_size p)))
          | inr (q, e, n) ↦
              subst (λ o. SendsAs (outbox c) (with_metadata l c₁ now port o).sent port (ns l p))
                (sym e)
                (sends_same (egress_on l c₁ now port q).sent port
                  (count_egress_out c (l.get_data_size p)) (n ∙ ns-set_if_has _ _ _)
                  (egress_on-SendsAs c₁ now port q))
        ]

    ns-stamped : (c : Core l) (now port : ℕ) (p : Packet) → ns l (stamped l c now port p) ≡ ns l p
    unfolding stamped
    ns-stamped c now port p = elim (Bool-cases c.enable_queueing_metadata) [
      | inl e ↦ rw e (k.fields _ _ _ ∙ k.fields _ _ _ ∙ k.egress_port p port)
      | inr e ↦ rw e (k.egress_port p port)
    ]

    -- A register that is not the simulator's.
    ns-set_register :
        (p : Packet) (v : ℕ) → ns l (registers.set_register p packet_length_reg_idx v) ≡ ns l p
    unfolding get_ns_protocol get_ns_address
    ns-set_register p v =
        let apart : registers.get_register (registers.set_register p packet_length_reg_idx v) 2
            ≡ registers.get_register p 2 =
          registers.get-set_ne p packet_length_reg_idx 2 v (omega arith) in
        both (ap (λ t. read_bits t mask_16 16) apart) (ap (λ t. read_bits t mask_32 32) apart)

    ns-replica : (p : Packet) (size : ℕ) → ns l (replica l p size) ≡ (0, 0)
    unfolding replica
    ns-replica p size =
        ns-set_register _ size
        ∙ both (clear_all_lem registers ns_protocol (l.clone_with_phv_ptr p)).0
            (clear_all_lem registers ns_address (l.clone_with_phv_ptr p)).0

    -- The copies that `MulticastPacket` puts into the egress buffer leave the switch, if they leave
    -- it, with the protocol 0 and the first destination that was ever met, whatever the packet was.
    pub replica-SendsAs :
        (c d : Core l) (now later port : ℕ) (p : Packet) (size : ℕ)
        → SendsAs
            (outbox d)
            (egress_taken l d later (stamped l c now port (replica l p size)) port).sent
            port
            (0, 0)
    replica-SendsAs c d now later port p size =
        sends_same _ port refl (ns-stamped c now port _ ∙ ns-replica p size)
          (egress_taken-SendsAs d later port (stamped l c now port (replica l p size)))

    ns-received :
        (c : Core l) (now : ℕ) (packet_in : l.NsPacket) (in_port protocol index : ℕ)
        → protocol < 2 ^ 16
        → index < 2 ^ 16
        → ns l (received l c now packet_in in_port protocol index) ≡ (protocol, index)
    unfolding received
    ns-received c now packet_in in_port protocol index p i =
        ns-set_if_has _ _ _
        ∙ k.fields _ _ _
        ∙ k.fields _ _ _
        ∙ ns-set_register _ _
        ∙ k.fields _ _ _
        ∙ both
            (get-set_other registers ns_address ns_protocol _ index (cc)
              ∙ get-set_field registers ns_protocol _ protocol p)
            (get-set_field registers ns_address _ index i)

    -- A packet that has kept the simulator's part of its registers since its reception leaves the
    -- switch, if it leaves it, with the protocol it came with, and the destination that has its
    -- index, for a protocol and an index of 16 bits.
    pub received-SendsAs :
        (c d : Core l) (now later : ℕ) (packet_in : l.NsPacket) (in_port protocol index port : ℕ)
        (p : Packet)
        → protocol < 2 ^ 16
        → index < 2 ^ 16
        → ns l p ≡ ns l (received l c now packet_in in_port protocol index)
        → SendsAs (outbox d) (egress_taken l d later p port).sent port (protocol, index)
    received-SendsAs c d now later packet_in in_port protocol index port p small few kept =
        sends_same _ port refl (kept ∙ ns-received c now packet_in in_port protocol index small few)
          (egress_taken-SendsAs d later port p)
