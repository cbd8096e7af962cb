-- ===== src/V1model/InputKept.antt =====
-- model/p4-core-v1model.cc: cloning, multicast, learning and the egress buffer leave the input buffer
-- alone.
use p4simulator.Base.{
  ℕ, ◌≡◌, refl, ◌∙◌, Bool-cases, inl, inr, List, [], ◌∷◌, ltb, ◌==◌, Option-cases, bit_and, arith,
}
use p4simulator.SwitchCore.Mirroring.{MirroringSessionConfig, get_session}
use p4simulator.Base.Int.{pos}
use p4simulator.Registers.{get_clone_mirror_session_id}
use p4simulator.V1model.{Library, Core, McOut, enqueue, replicate_on, multicast_packet}
use p4simulator.V1model.Ingress.{
  mirror_session_id_mask, send_clone, clone_by, ingress_cloning, learning,
}

module _ (l : Library) where
  pub enqueue-input :
      (c : Core l) (now port : ℕ) (p : l.Packet)
      → (enqueue l c now port p).input_buffer ≡ c.input_buffer
  unfolding enqueue
  enqueue-input c now port p = ground arith

  pub replicate_on-input :
      (outs : List McOut) (c : Core l) (now : ℕ) (p : l.Packet) (n : ℕ)
      → (replicate_on l c now p n outs).0.input_buffer ≡ c.input_buffer
  unfolding replicate_on
  replicate_on-input [] c now p n = refl
  replicate_on-input (o ∷ outs) c now p n =
      replicate_on-input outs _ now _ n ∙ enqueue-input c now o.out_port _

  pub multicast-input :
      (c : Core l) (now : ℕ) (p : l.Packet) (mgid : ℕ)
      → (multicast_packet l c now p mgid).0.input_buffer ≡ c.input_buffer
  unfolding multicast_packet
  multicast-input c now p mgid = replicate_on-input _ c now p _

  pub send_clone-input :
      (c : Core l) (now : ℕ) (config : MirroringSessionConfig) (p : l.Packet)
      → (send_clone l c now config p).input_buffer ≡ c.input_buffer
  unfolding send_clone
  send_clone-input c now config p = elim (Bool-cases config.mgid_valid) [
    | inl e ↦ ground (
      arith,
      multicast-input c now p config.mgid,
      enqueue-input (multicast_packet l c now p config.mgid).0 now config.egress_port
          (multicast_packet l c now p config.mgid).1,
    )
    | inr e ↦ ground (arith, enqueue-input c now config.egress_port p)
  ]

  pub ingress_cloning-input :
      (c : Core l) (now : ℕ) (p : l.Packet) (s : l.Saved) (port size : ℕ)
      → (ingress_cloning l c now p s port size).0.input_buffer ≡ c.input_buffer
  unfolding ingress_cloning clone_by
  ingress_cloning-input c now p s port size =
      elim (Bool-cases (get_clone_mirror_session_id l.registers p == 0)) [
        | inl e ↦ rw e refl
        | inr e ↦
            elim (Option-cases (
              get_session c.sessions (
                pos
                  (bit_and (get_clone_mirror_session_id l.registers p) mirror_session_id_mask)))) [
                    | inl n ↦ rw (e, n) refl
                    | inr (config, n) ↦ rw (e, n) (send_clone-input c now config _)
                  ]
      ]

  pub learning-input :
      (c : Core l) (p : l.Packet) (id : ℕ) → (learning l c p id).input_buffer ≡ c.input_buffer
  unfolding learning
  learning-input c p id = elim (Bool-cases (ltb 0 id)) [ inl e ↦ rw e refl | inr e ↦ rw e refl ]
