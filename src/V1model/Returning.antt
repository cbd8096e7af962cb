-- ===== src/V1model/Returning.antt =====
-- model/p4-core-v1model.cc: `HandleIngressPipeline` returns, for a P4 program that resubmits a packet
-- once at most.
use p4simulator.Base.{
  ℕ, zero, suc, ◌+◌, ◌≤◌, ◌<◌, ◌≡◌, refl, ap, sym, subst, ◌∙◌, ◌⊎◌, Bool-cases, inl, inr, none,
  some, List, [], ◌∷◌, length, ◌==◌, ==_iff, Option-cases, bit_and, if◌then◌else◌, arith,
}
use p4simulator.Base.Int.{pos}
use p4simulator.InputBuffer.{InputBuffer, push_front, push_lane, pop_back, back}
use p4simulator.InputBuffer
use p4simulator.Registers.{
  get_resubmit_flag, clear_all, get_clone_mirror_session_id, read_bits, mask_48,
}
use p4simulator.Registers.Fields.{
  get-set_other, clone_mirror_session_id, clone_field_list, resubmit_flag,
}
use p4simulator.SwitchCore.Mirroring.{get_session}
use p4simulator.V1model.{
  Library, Core, standard_metadata_instance_type, standard_metadata_packet_length, copy_field_list,
}
use p4simulator.V1model.InputKept.{ingress_cloning-input, learning-input}
use p4simulator.V1model.Ingress.{
  mirror_session_id_mask, Ended, over, again, request_cleared, clone_by, ingress_cloning, parsed,
  resubmitted, dispatch, ingress_on, ingress_once, ingress_popped, next_run,
  handle_ingress_pipeline,
}

module _ (l : Library) where
  open l use {Packet, registers, get_field, set_field}

  -- Metadata and the registers in use are apart, and restoring a packet's bytes leaves these alone. The
  -- program resubmits no packet that is marked as resubmitted.
  pub record ResubmitsOnce : Type 0 where
    pub marked :
        (p : Packet)
        → get_field (set_field p standard_metadata_instance_type 6) standard_metadata_instance_type
          ≡ 6
    pub length_apart :
        (p : Packet) (v : ℕ)
        → get_field (set_field p standard_metadata_packet_length v) standard_metadata_instance_type
          ≡ get_field p standard_metadata_instance_type
    pub registers_apart :
        (p : Packet) (i v : ℕ)
        → i ≤ 2
        → get_field (registers.set_register p i v) standard_metadata_instance_type
          ≡ get_field p standard_metadata_instance_type
    pub restored :
        (p : Packet) (s : l.Saved) (i : ℕ)
        → i ≤ 2
        → registers.get_register (l.restore_buffer_state p s) i ≡ registers.get_register p i
    pub once :
        (c : Core l) (p : Packet)
        → get_field p standard_metadata_instance_type ≡ 6
        → get_resubmit_flag registers (l.reset_exit (l.apply_ingress c.world (parsed l c p)).1) ≡ 0

  -- The packets that may be resubmitted yet.
  abbrev pub fresh : Packet → ℕ
  fresh p = if get_field p standard_metadata_instance_type == 6 then 0 else 1

  abbrev pub fresh_in : List Packet → ℕ
  fresh_in [] = 0
  fresh_in (p ∷ ps) = fresh p + fresh_in ps

  abbrev pub fresh_waiting : InputBuffer Packet → ℕ
  fresh_waiting b = fresh_in b.queue_hi + fresh_in b.queue_lo

  back-fresh :
      (xs : List Packet)
      → ((xs ≡ []) × (back xs ≡ none))
        ⊎ ((r : List Packet) × (a : Packet) × (back xs ≡ some (r, a))
            × (fresh_in xs ≡ fresh a + fresh_in r)
            × (length xs ≡ suc (length r)))
  unfolding back
  back-fresh [] = inl (refl, refl)
  back-fresh (x ∷ []) = inr ([], x, refl, refl, refl)
  back-fresh (x ∷ y ∷ ys) = elim (back-fresh (y ∷ ys)) [
    | inl (e, _) ↦ absurd (cc)
    | inr (r, a, e, n, len) ↦ inr (x ∷ r, a, ground arith, omega (arith, n), ap suc len)
  ]

  pop_back-fresh :
      (b : InputBuffer Packet)
      → (pop_back b ≡ (b, none))
        ⊎ ((d : InputBuffer Packet) × (a : Packet) × (pop_back b ≡ (d, some a))
            × (fresh_waiting b ≡ fresh a + fresh_waiting d))
  unfolding pop_back
  pop_back-fresh b = elim (back-fresh b.queue_hi) [
    | inl (e, _) ↦ elim (back-fresh b.queue_lo) [
      | inl (f, _) ↦ inl (ground arith)
      | inr (r, a, f, n, len) ↦ inr (record b { queue_lo = r }, a, ground arith, ground arith)
    ]
    | inr (r, a, e, n, len) ↦ inr (record b { queue_hi = r }, a, ground arith, omega (arith, n))
  ]

  push_front-fresh :
      (b : InputBuffer Packet) (p : Packet)
      → fresh p ≡ 0
      → fresh_waiting (push_front b InputBuffer.resubmit p).0 ≤ fresh_waiting b
  unfolding push_front push_lane
  push_front-fresh b p h = ground arith

  module _ (k : ResubmitsOnce) where
    fresh-resubmitted :
        (p : Packet) (s : l.Saved) (size id : ℕ) → fresh (resubmitted l p s size id) ≡ 0
    unfolding resubmitted copy_field_list clear_all
    fresh-resubmitted p s size id =
        ap (λ t. if t == 6 then 0 else 1)
          (k.length_apart _ size
            ∙ k.registers_apart _ _ _ (omega arith)
            ∙ k.registers_apart _ _ _ (omega arith)
            ∙ k.registers_apart _ _ _ (omega arith)
            ∙ k.marked _)

    cleared :
        (q : Packet)
        → get_resubmit_flag registers (request_cleared l q) ≡ get_resubmit_flag registers q
    unfolding request_cleared
    cleared q =
        get-set_other registers clone_field_list resubmit_flag _ 0 (cc)
        ∙ get-set_other registers clone_mirror_session_id resubmit_flag q 0 (cc)

    restored_flag :
        (q : Packet) (t : l.Saved)
        → get_resubmit_flag registers (l.restore_buffer_state q t) ≡ get_resubmit_flag registers q
    unfolding get_resubmit_flag
    restored_flag q t = ap (λ w. read_bits w mask_48 48) (k.restored q t 1 (omega arith))

    -- Cloning leaves the flag as the program has set it.
    ingress_cloning_flag :
        (c : Core l) (now : ℕ) (p : Packet) (s : l.Saved) (port size : ℕ)
        → get_resubmit_flag registers (ingress_cloning l c now p s port size).1
          ≡ get_resubmit_flag registers p
    unfolding ingress_cloning clone_by
    ingress_cloning_flag c now p s port size =
        elim (Bool-cases (get_clone_mirror_session_id registers p == 0)) [
          | inl e ↦ rw e refl
          | inr e ↦
              elim (Option-cases (
                get_session c.sessions (
                  pos
                    (bit_and (get_clone_mirror_session_id registers p) mirror_session_id_mask)))) [
                      | inl n ↦ rw (e, n) (cleared p)
                      | inr (config, n) ↦
                          rw (e, n) (restored_flag _ _ ∙ restored_flag _ _ ∙ cleared p)
                    ]
        ]

    -- A run returns, or took a packet that was not yet resubmitted and put back one that is.
    abbrev Shrinks : ℕ → Ended l → Type 0
    Shrinks n e =
        ((d : Core l) × (e ≡ over d))
        ⊎ ((d : Core l) × (e ≡ again d) × (fresh_waiting d.input_buffer < n))

    dispatch-Shrinks :
        (c : Core l) (now : ℕ) (p : Packet) (s : l.Saved) (size mgid spec n : ℕ)
        → fresh_waiting c.input_buffer ≤ n
        → (get_resubmit_flag registers p ≡ 0) ⊎ (fresh_waiting c.input_buffer < n)
        → Shrinks n (dispatch l c now p s size mgid spec)
    unfolding dispatch
    dispatch-Shrinks c now p s size mgid spec n h less =
        elim (Bool-cases (get_resubmit_flag registers p == 0)) [
          | inl e ↦ rw e (inl (_, refl))
          | inr e ↦ rw e (
              inr (
                _,
                refl,
                elim less [
                  | inl z ↦ absurd (ground arith)
                  | inr lt ↦ omega (
                    arith,
                    push_front-fresh c.input_buffer _
                        (fresh-resubmitted p s size (get_resubmit_flag registers p)),
                    lt,
                  )
                ],
              ))
        ]

    same_le : {a b n : ℕ} → a ≡ b → b ≤ n → a ≤ n
    same_le e h = omega (arith, e, h)

    ingress_on-Shrinks :
        (c : Core l) (now : ℕ) (p : Packet)
        → Shrinks (fresh p + fresh_waiting c.input_buffer) (ingress_on l c now p)
    unfolding ingress_on
    ingress_on-Shrinks c now p =
        elim (Bool-cases (get_field p standard_metadata_instance_type == 6)) [
          | inl e ↦
              dispatch-Shrinks _ now _ _ _ _ _ _
                (same_le
                  (ap fresh_waiting
                    (learning-input l _ _ _ ∙ ingress_cloning-input l _ now _ _ _ _))
                  (omega arith))
                (inl (ingress_cloning_flag _ now _ _ _ _ ∙ k.once c p ((==_iff _ 6).0 e)))
          | inr e ↦
              dispatch-Shrinks _ now _ _ _ _ _ _
                (same_le
                  (ap fresh_waiting
                    (learning-input l _ _ _ ∙ ingress_cloning-input l _ now _ _ _ _))
                  (omega arith))
                (inr (
                  same_le
                    (ap (λ b. suc (fresh_waiting b))
                      (learning-input l _ _ _ ∙ ingress_cloning-input l _ now _ _ _ _))
                    (rw e (omega arith))))
        ]

    ingress_once-Shrinks :
        (c : Core l) (now : ℕ) → Shrinks (fresh_waiting c.input_buffer) (ingress_once l c now)
    unfolding ingress_once ingress_popped
    ingress_once-Shrinks c now = elim (pop_back-fresh c.input_buffer) [
      | inl e ↦ inl (c, ap (ingress_popped l c now) e)
      | inr (d, a, e, n) ↦
          subst (λ t. Shrinks (fresh_waiting c.input_buffer) (ingress_popped l c now t)) (sym e)
            (subst (λ m. Shrinks m (ingress_on l (record c { input_buffer = d }) now a)) (sym n)
              (ingress_on-Shrinks (record c { input_buffer = d }) now a))
    ]

    -- For a P4 program that resubmits no packet twice, `HandleIngressPipeline` returns: it runs once
    -- more at most than there are packets waiting that were not yet resubmitted.
    pub handle-returns :
        (fuel : ℕ) (c : Core l) (now : ℕ)
        → fresh_waiting c.input_buffer < fuel
        → (d : Core l) × (handle_ingress_pipeline l fuel c now ≡ some d)
    unfolding handle_ingress_pipeline next_run
    handle-returns zero c now h = absurd (omega arith)
    handle-returns (suc fuel) c now h = elim (ingress_once-Shrinks c now) [
      | inl (d, e) ↦ (d, ap (next_run l (λ b. handle_ingress_pipeline l fuel b now)) e)
      | inr (d, e, less) ↦
          let rest : (f : Core l) × (handle_ingress_pipeline l fuel d now ≡ some f) =
            handle-returns fuel d now (omega (arith, h, less)) in
          (rest.0, ap (next_run l (λ b. handle_ingress_pipeline l fuel b now)) e ∙ rest.1)
    ]
