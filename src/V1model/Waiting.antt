-- ===== src/V1model/Waiting.antt =====
-- model/p4-core-v1model.cc: what waits in the input buffer after a reception.
use p4simulator.Base.{
  ℕ, zero, suc, ◌+◌, ◌-◌, ◌≤◌, ◌<◌, ◌≡◌, refl, ap, sym, ◌∙◌, ◌≢◌, ◌⊎◌, Bool-cases, inl, inr, Option,
  none, some, List, [], ◌∷◌, length, ◌==◌, subst, arith,
}
use p4simulator.InputBuffer.{
  InputBuffer, Pushed, pushed, dropped, blocked, push_front, push_lane, pop_back, back,
}
use p4simulator.InputBuffer
use p4simulator.Registers.{get_resubmit_flag}
use p4simulator.V1model.{Library, Core}
use p4simulator.V1model.InputKept.{
  enqueue-input, multicast-input, learning-input, ingress_cloning-input,
}
use p4simulator.V1model.Ingress.{
  Ended, over, again, resubmitted, dispatch, ingress_on, ingress_once, ingress_popped, next_run,
  handle_ingress_pipeline, Reception, returned, waits, receive_packet, handed_over, ended_by,
}

abbrev pub waiting {ℓ} : {A : Type ℓ} → InputBuffer A → ℕ
waiting b = length b.queue_hi + length b.queue_lo

back_cases {ℓ} :
    {A : Type ℓ} (xs : List A)
    → ((xs ≡ []) × (back xs ≡ none))
      ⊎ ((r : List A) × (a : A) × (back xs ≡ some (r, a)) × (length xs ≡ suc (length r)))
unfolding back
back_cases [] = inl (refl, refl)
back_cases (x ∷ []) = inr ([], x, refl, refl)
back_cases (x ∷ y ∷ ys) = elim (back_cases (y ∷ ys)) [
  | inl (e, _) ↦ absurd (cc)
  | inr (r, a, e, n) ↦ inr (x ∷ r, a, ground arith, ap suc n)
]

pop_back-waiting {ℓ} :
    {A : Type ℓ} (b : InputBuffer A)
    → ((waiting b ≡ 0) × (pop_back b ≡ (b, none)))
      ⊎ ((d : InputBuffer A) × (a : A) × (pop_back b ≡ (d, some a)) × (waiting b ≡ suc (waiting d)))
unfolding pop_back
pop_back-waiting b = elim (back_cases b.queue_hi) [
  | inl (e, _) ↦ elim (back_cases b.queue_lo) [
    | inl (f, _) ↦ inl (ground arith, ground arith)
    | inr (r, a, f, n) ↦ inr (record b { queue_lo = r }, a, ground arith, ground arith)
  ]
  | inr (r, a, e, n) ↦ inr (record b { queue_hi = r }, a, ground arith, ground arith)
]

push_front-waiting {ℓ} :
    {A : Type ℓ} (b : InputBuffer A) (x : A)
    → (waiting (push_front b InputBuffer.resubmit x).0 ≤ suc (waiting b))
unfolding push_front push_lane
push_front-waiting b x = ground arith

some_inj {ℓ} : {A : Type ℓ} {a b : A} → some a ≡ some b → a ≡ b
some_inj e = cc

module _ (l : Library) where
  -- What a run of the handler leaves waiting, when it took a packet from `n + 1`.
  abbrev LeavesAtMost : ℕ → Ended l → Type 0
  LeavesAtMost n (over d) = waiting d.input_buffer ≡ n
  LeavesAtMost n (again d) = waiting d.input_buffer ≤ suc n

  dispatch-LeavesAtMost :
      (c : Core l) (now : ℕ) (p : l.Packet) (s : l.Saved) (size mgid spec n : ℕ)
      → waiting c.input_buffer ≡ n
      → LeavesAtMost n (dispatch l c now p s size mgid spec)
  unfolding dispatch
  dispatch-LeavesAtMost c now p s size mgid spec n h =
      elim (Bool-cases (get_resubmit_flag l.registers p == 0)) [
        | inr e ↦ rw e (
            omega (
              arith,
              push_front-waiting c.input_buffer
                  (resubmitted l p s size (get_resubmit_flag l.registers p)),
            ))
        | inl e ↦ elim (Bool-cases (mgid == 0)) [
          | inr m ↦ rw (e, m) (ap waiting (multicast-input l c now _ mgid) ∙ h)
          | inl m ↦ elim (Bool-cases (spec == c.drop_port)) [
            | inl d ↦ rw (e, m, d) h
            | inr d ↦ rw (e, m, d) (ap waiting (enqueue-input l c now spec _) ∙ h)
          ]
        ]
      ]

  ingress_on-LeavesAtMost :
      (c : Core l) (now : ℕ) (p : l.Packet) (n : ℕ)
      → waiting c.input_buffer ≡ n
      → LeavesAtMost n (ingress_on l c now p)
  unfolding ingress_on
  ingress_on-LeavesAtMost c now p n h =
      dispatch-LeavesAtMost _ now _ _ _ _ _ n (
        ap waiting (learning-input l _ _ _)
        ∙ ap waiting (ingress_cloning-input l _ now _ _ _ _)
        ∙ h)

  -- A run takes one packet, and may put one back.
  ingress_once-LeavesAtMost :
      (c : Core l) (now : ℕ)
      → ((waiting c.input_buffer ≡ 0) × (ingress_once l c now ≡ over c))
        ⊎ ((n : ℕ) × (waiting c.input_buffer ≡ suc n) × LeavesAtMost n (ingress_once l c now))
  unfolding ingress_once ingress_popped
  ingress_once-LeavesAtMost c now = elim (pop_back-waiting c.input_buffer) [
    | inl (none_left, e) ↦ inl (none_left, ap (ingress_popped l c now) e)
    | inr (d, a, e, n) ↦ inr (
      waiting d,
      n,
      subst (λ t. LeavesAtMost (waiting d) (ingress_popped l c now t)) (sym e)
          (ingress_on-LeavesAtMost (record c { input_buffer = d }) now a (waiting d) refl),
    )
  ]

  leaves :
      (fuel now n : ℕ) (d : Core l) (e : Ended l)
      → ((c : Core l)
          → handle_ingress_pipeline l fuel c now ≡ some d
          → waiting d.input_buffer ≤ waiting c.input_buffer - 1)
      → LeavesAtMost n e
      → next_run l (λ c. handle_ingress_pipeline l fuel c now) e ≡ some d
      → waiting d.input_buffer ≤ n
  unfolding next_run
  leaves fuel now n d (over c) ih h r =
      let same : c ≡ d = cc in omega (arith, h, ap (λ t. waiting t.input_buffer) same)
  leaves fuel now n d (again c) ih h r = omega (arith, h, ih c r)

  -- The handler leaves at least one packet fewer than there were.
  handle-waiting :
      (fuel : ℕ) (c d : Core l) (now : ℕ)
      → handle_ingress_pipeline l fuel c now ≡ some d
      → waiting d.input_buffer ≤ waiting c.input_buffer - 1
  unfolding handle_ingress_pipeline next_run
  handle-waiting zero c d now r = absurd cc
  handle-waiting (suc fuel) c d now r = elim (ingress_once-LeavesAtMost c now) [
    | inl (z, e) ↦
        let same : c ≡ d =
          some_inj (sym (ap (next_run l (λ b. handle_ingress_pipeline l fuel b now)) e) ∙ r) in
        omega (arith, z, ap (λ t. waiting t.input_buffer) same)
    | inr (n, z, h) ↦ omega (
      arith,
      leaves fuel now n d (ingress_once l c now) (λ b q. handle-waiting fuel b d now q) h r,
      z,
    )
  ]

  push_front-normal :
      (b : InputBuffer l.Packet) (p : l.Packet)
      → ((push_front b InputBuffer.normal p ≡ (b, blocked)) × (length b.queue_lo ≡ b.capacity_lo))
        ⊎ (push_front b InputBuffer.normal p ≡ (record b { queue_lo = p ∷ b.queue_lo }, pushed))
  unfolding push_front push_lane
  push_front-normal b p = elim (Bool-cases (length b.queue_lo == b.capacity_lo)) [
    | inl e ↦ inl (rw e refl, ground arith)
    | inr e ↦ inr (rw e refl)
  ]

  ended-waiting :
      (o : Option (Core l)) (d : Core l) (n : ℕ)
      → ((c : Core l) → o ≡ some c → waiting c.input_buffer ≤ n)
      → ended_by l o ≡ returned d
      → waiting d.input_buffer ≤ n
  unfolding ended_by
  ended-waiting none d n h r = absurd cc
  ended-waiting (some c) d n h r = h d (let same : c ≡ d = cc in ap some same)

  returns_not_waits : {r : Reception l} {d : Core l} → r ≡ waits → r ≡ returned d → ⊥
  returns_not_waits a b = cc

  ended-waits : (o : Option (Core l)) → ended_by l o ≡ waits → ⊥
  unfolding ended_by
  ended-waits none r = cc
  ended-waits (some c) r = cc

  handed_over-waiting :
      (fuel now : ℕ) (c : Core l) (b : InputBuffer l.Packet) (p : l.Packet)
      → ((d : Core l)
          → handed_over l fuel now c (push_front b InputBuffer.normal p) ≡ returned d
          → waiting d.input_buffer ≤ waiting b)
        × (waiting b ≡ 0
            → 0 < b.capacity_lo
            → handed_over l fuel now c (push_front b InputBuffer.normal p) ≢ waits)
  unfolding handed_over
  handed_over-waiting fuel now c b p = elim (push_front-normal b p) [
    | inl (e, all) ↦ (
      λ d r. absurd (returns_not_waits (ap (handed_over l fuel now c) e) r),
      λ z room r. omega (arith, all, z, room),
    )
    | inr e ↦ (
      λ d r.
          ended-waiting
            (handle_ingress_pipeline l fuel
              (record c { input_buffer = record b { queue_lo = p ∷ b.queue_lo } }) now)
            d (waiting b)
            (λ a q. omega (
              arith,
              handle-waiting fuel
                  (record c { input_buffer = record b { queue_lo = p ∷ b.queue_lo } }) a now q,
            ))
            (sym (ap (handed_over l fuel now c) e) ∙ r),
      λ z room r. ended-waits _ (sym (ap (handed_over l fuel now c) e) ∙ r),
    )
  ]

  -- A reception that returns leaves no more packets waiting than it found, and with nothing waiting
  -- and room for a packet in the low queue no reception waits for room.
  pub receive-waiting :
      (fuel : ℕ) (c : Core l) (now : ℕ) (packet_in : l.NsPacket) (in_port protocol : ℕ)
      (destination : l.address_class.Address)
      → ((d : Core l)
          → receive_packet l fuel c now packet_in in_port protocol destination ≡ returned d
          → waiting d.input_buffer ≤ waiting c.input_buffer)
        × (waiting c.input_buffer ≡ 0
            → 0 < c.input_buffer.capacity_lo
            → receive_packet l fuel c now packet_in in_port protocol destination ≢ waits)
  unfolding receive_packet
  receive-waiting fuel c now packet_in in_port protocol destination =
      handed_over-waiting fuel now _ c.input_buffer _
