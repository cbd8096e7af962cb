-- ===== src/V1model/SentKept.antt =====
-- model/p4-core-v1model.cc: what has been sent, the destinations, and the simulator's part of a packet's
-- registers, as cloning and multicast leave them.
use p4simulator.Base.{
  ℕ, ◌≡◌, refl, ◌∙◌, inl, inr, Bool-cases, List, [], ◌∷◌, leb, ◌==◌, Option-cases, bit_and, arith,
}
use p4simulator.Base.Int.{pos}
use p4simulator.Registers.{get_ns_protocol, get_ns_address, get_clone_mirror_session_id}
use p4simulator.Registers.Fields.{
  get-set_other, clone_mirror_session_id, clone_field_list, ns_protocol, ns_address,
}
use p4simulator.SwitchCore.Mirroring.{MirroringSessionConfig, get_session}
use p4simulator.V1model.{
  Library, Core, MetaField, McOut, enqueue, replicate_on, multicast_packet, stamped, priority_of,
}
use p4simulator.V1model.Ingress.{request_cleared, send_clone, mirror_session_id_mask}
use p4simulator.V1model.Egress.{egress_cloning, egress_clone_by}

pub both {ℓ} : {A B : Type ℓ} {a b : A} {c d : B} → a ≡ b → c ≡ d → ◌≡◌ {A = A × B} (a, c) (b, d)
both p q = rw (p, q) refl

module _ (l : Library) where
  open l use {Packet, registers, set_field}

  -- What the simulator's own register says of a packet.
  abbrev pub ns : Packet → ℕ × ℕ
  ns p = (get_ns_protocol registers p, get_ns_address registers p)

  -- Writing metadata, setting the egress port, deparsing and the P4 program's egress pipeline leave
  -- the simulator's part of a packet's registers alone.
  pub record KeepsNs : Type 0 where
    pub fields : (p : Packet) (f : MetaField) (v : ℕ) → ns (set_field p f v) ≡ ns p
    pub egress_port : (p : Packet) (v : ℕ) → ns (l.set_egress_port p v) ≡ ns p
    pub deparsed : (p : Packet) → ns (l.deparse p) ≡ ns p
    pub egress_applied : (w : l.World) (p : Packet) → ns (l.apply_egress w p).1 ≡ ns p

  enqueue_sent :
      (c : Core l) (now port : ℕ) (p : Packet)
      → ((enqueue l c now port p).sent ≡ c.sent)
        × ((enqueue l c now port p).addresses ≡ c.addresses)
  unfolding enqueue
  enqueue_sent c now port p =
      elim (Bool-cases (leb c.nb_queues_per_port (priority_of l (stamped l c now port p)))) [
        | inl e ↦ rw e (refl, refl)
        | inr e ↦ rw e (refl, refl)
      ]

  replicate_on_sent :
      (outs : List McOut) (c : Core l) (now : ℕ) (p : Packet) (n : ℕ)
      → ((replicate_on l c now p n outs).0.sent ≡ c.sent)
        × ((replicate_on l c now p n outs).0.addresses ≡ c.addresses)
  unfolding replicate_on
  replicate_on_sent [] c now p n = (refl, refl)
  replicate_on_sent (o ∷ outs) c now p n =
      let (a, b) = enqueue_sent c now o.out_port _ in
      let (d, e) = replicate_on_sent outs _ now _ n in (d ∙ a, e ∙ b)

  multicast_sent :
      (c : Core l) (now : ℕ) (p : Packet) (mgid : ℕ)
      → ((multicast_packet l c now p mgid).0.sent ≡ c.sent)
        × ((multicast_packet l c now p mgid).0.addresses ≡ c.addresses)
  unfolding multicast_packet
  multicast_sent c now p mgid = replicate_on_sent _ c now p _

  send_clone_sent :
      (c : Core l) (now : ℕ) (config : MirroringSessionConfig) (p : Packet)
      → ((send_clone l c now config p).sent ≡ c.sent)
        × ((send_clone l c now config p).addresses ≡ c.addresses)
  unfolding send_clone
  send_clone_sent c now config p = elim (Bool-cases config.mgid_valid) [
    | inl e ↦ ground (
      arith,
      multicast_sent c now p config.mgid,
      enqueue_sent (multicast_packet l c now p config.mgid).0 now config.egress_port
          (multicast_packet l c now p config.mgid).1,
    )
    | inr e ↦ ground (arith, enqueue_sent c now config.egress_port p)
  ]

  ns-request_cleared : (p : Packet) → ns (request_cleared l p) ≡ ns p
  unfolding request_cleared
  ns-request_cleared p =
      both
        (get-set_other registers clone_field_list ns_protocol _ 0 (cc)
          ∙ get-set_other registers clone_mirror_session_id ns_protocol p 0 cc)
        (get-set_other registers clone_field_list ns_address _ 0 (cc)
          ∙ get-set_other registers clone_mirror_session_id ns_address p 0 cc)

  pub egress_cloning_sent :
      (c : Core l) (now : ℕ) (p : Packet)
      → ((egress_cloning l c now p).0.sent ≡ c.sent)
        × ((egress_cloning l c now p).0.addresses ≡ c.addresses)
        × (ns (egress_cloning l c now p).1 ≡ ns p)
  unfolding egress_cloning egress_clone_by
  egress_cloning_sent c now p = elim (Bool-cases (get_clone_mirror_session_id registers p == 0)) [
    | inl e ↦ rw e (refl, refl, refl)
    | inr e ↦
        elim (Option-cases (
          get_session c.sessions
            (pos (bit_and (get_clone_mirror_session_id registers p) mirror_session_id_mask)))) [
              | inl n ↦ rw (e, n) (refl, refl, ns-request_cleared p)
              | inr (config, n) ↦
                  rw (e, n)
                    (
                      (send_clone_sent c now config _).0,
                      (send_clone_sent c now config _).1,
                      ns-request_cleared p,
                    )
            ]
  ]
