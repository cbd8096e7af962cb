-- ===== src/Link/Drain.antt =====
-- The transmitter of model/custom-p2p-net-device.cc over time: every reachable line, and the end of it.
use p4simulator.Base.{
  ℕ, zero, suc, ◌≤◌, ◌≡◌, ◌≢◌, refl, sym, ap, subst, ◌∙◌, Option, none, some, [], ◌++◌, inl, inr,
  length, arith,
}
use mathlib.Core.Option.{some-injective, none-ne-some}
use p4simulator.Link.{
  Library, Device, TxMachineState, ready, busy, set_data_rate, set_interframe_gap,
  set_custom_header, set_with_custom_header,
}
use p4simulator.Link.Channel.{P4P2PChannel}
use p4simulator.Link.Line.{
  QueueLaws, Carries, Line, Step, send, complete, rate, gap, header, with_header, Reach, here, next,
  start, Fresh, NotBefore, send_at, fire, fire_first, drain,
}
use p4simulator.Link.LineKept.{Kept, StateKept, packets, List-cases, append_nil}
use p4simulator.Link.Transmitting.{state-cases, complete-ends, send-ends}

module _ (L : Library) (Q : QueueLaws L) (channel : P4P2PChannel) (self other delay : ℕ)
    (carries : Carries L.Packet channel self other delay) where
  state-configured :
      (st : TxMachineState) (w : Line L) (d : Device L)
      → d.queue ≡ w.device.queue
      → d.current_pkt ≡ w.device.current_pkt
      → StateKept L Q delay other st w
      → StateKept L Q delay other st (record w { device = d })
  state-configured ready w d f g (a, b, c) = (ap Q.contents f ∙ a, b, c)
  state-configured busy w d f g (a, t, b, le, c) = (λ e. a (sym g ∙ e), t, b, le, c)

  -- A change of the settings leaves the transmitter and the queue alone.
  configured :
      (w : Line L) (d : Device L)
      → d.link_up ≡ w.device.link_up
      → d.queue ≡ w.device.queue
      → d.current_pkt ≡ w.device.current_pkt
      → d.tx_machine_state ≡ w.device.tx_machine_state
      → Kept L Q delay other w
      → Kept L Q delay other (record w { device = d })
  configured w d up e f g k = record {
    up = up ∙ k.up;
    order = ap (λ q. packets w.sent ++ Q.contents q) e ∙ k.order;
    times = k.times;
    state =
        subst (λ st. StateKept L Q delay other st (record w { device = d })) (sym g)
          (state-configured w.device.tx_machine_state w d e f k.state);
  }

  Step-Kept :
      (w w' : Line L) → Step L channel self w w' → Kept L Q delay other w → Kept L Q delay other w'
  unfolding set_data_rate set_interframe_gap set_custom_header set_with_custom_header
  Step-Kept w w' (send t p source dest protocol le nb e) k =
      let (u, f, ku) =
        send-ends L Q channel self other delay carries w t p source dest protocol k le nb in
      subst (Kept L Q delay other) (some-injective _ _ (sym f ∙ e)) ku
  Step-Kept w w' (complete e) k = elim (List-cases w.pending) [
    | inl empty ↦ absurd (none-ne-some _ (sym (ap (fire_first L channel self w) empty) ∙ e))
    | inr (t, ts, full) ↦
        let (u, f, ku, cs) = complete-ends L Q channel self other delay carries w k (λ h. cc) in
        subst (Kept L Q delay other) (some-injective _ _ (sym f ∙ e)) ku
  ]
  Step-Kept w w' (rate bps e) k =
      subst (Kept L Q delay other) (sym e)
        (configured w (set_data_rate w.device bps) refl refl refl refl k)
  Step-Kept w w' (gap t e) k =
      subst (Kept L Q delay other) (sym e)
        (configured w (set_interframe_gap w.device t) refl refl refl refl k)
  Step-Kept w w' (header h e) k =
      subst (Kept L Q delay other) (sym e)
        (configured w (set_custom_header w.device h) refl refl refl refl k)
  Step-Kept w w' (with_header b e) k =
      subst (Kept L Q delay other) (sym e)
        (configured w (set_with_custom_header w.device b) refl refl refl refl k)

  start-Kept : (d : Device L) → Fresh L Q d → Kept L Q delay other (start L channel self d)
  start-Kept d fresh = record {
    up = fresh.up;
    order = fresh.empty;
    times = tt;
    state =
        subst (λ st. StateKept L Q delay other st (start L channel self d)) (sym fresh.idle)
          (fresh.empty, refl, tt);
  }

  -- From an idle device, whatever is sent, completed and set in whatever order: an idle transmitter has
  -- nothing queued and nothing scheduled, a busy one has a packet and exactly one completion scheduled;
  -- what the queue accepted is what was put on the channel followed by what is queued, in the same
  -- order; and the receptions are all at the channel's other end, in the order of their times.
  pub Reach-Kept :
      (d : Device L) (w : Line L)
      → Fresh L Q d
      → Reach L channel self (start L channel self d) w
      → Kept L Q delay other w
  Reach-Kept d w fresh here = start-Kept d fresh
  Reach-Kept d w fresh (next r s) = Step-Kept _ w s (Reach-Kept d _ fresh r)

  -- No assertion of `SendFrom`, `TransmitStart`, `TransmitComplete` or the channel fails: from an idle
  -- device, on every reachable line, a packet can be sent at any time up to the completion that is
  -- scheduled, and a completion that is scheduled can run.
  pub never_refused :
      (d : Device L) (w : Line L)
      → Fresh L Q d
      → Reach L channel self (start L channel self d) w
      → ((t : ℕ) (p : L.Packet) (source dest : L.Address) (protocol : ℕ)
          → w.now ≤ t
          → NotBefore t w.pending
          → send_at L channel self w t p source dest protocol ≢ none)
        × (w.pending ≢ [] → fire L channel self w ≢ none)
  never_refused d w fresh r =
      let k = Reach-Kept d w fresh r in
      (
        λ t p source dest protocol le nb e.
            let (u, f, ku) =
              send-ends L Q channel self other delay carries w t p source dest protocol k le nb in
            none-ne-some _ (sym e ∙ f),
        λ some_left e.
            let (u, f, ku, cs) = complete-ends L Q channel self other delay carries w k some_left in
            none-ne-some _ (sym e ∙ f),
      )

  -- How many completions until the transmitter is idle, when nothing more is sent.
  abbrev pub completions_left : TxMachineState → ℕ → ℕ
  completions_left ready queued = 0
  completions_left busy queued = suc queued

  abbrev pub Drained : Line L → Line L → Type 0
  Drained w w' =
      (w'.device.tx_machine_state ≡ ready)
      × (w'.pending ≡ [])
      × (w'.accepted ≡ w.accepted)
      × (packets w'.sent ≡ w.accepted)

  Kept-Drained :
      (w : Line L) → Kept L Q delay other w → w.device.tx_machine_state ≡ ready → Drained w w
  Kept-Drained w k e =
      let (a, b, c) = subst (λ st. StateKept L Q delay other st w) e k.state in
      (
        e,
        b,
        refl,
        sym (append_nil (packets w.sent)) ∙ ap (λ l. packets w.sent ++ l) (sym a) ∙ k.order,
      )

  drain-fire :
      (n : ℕ) (w u : Line L)
      → fire L channel self w ≡ some u
      → drain L channel self (suc n) w ≡ drain L channel self n u
  drain-fire n w u f =
      ap (λ (o : Option (Line L)). elim o [ none ↦ none | some w' ↦ drain L channel self n w' ]) f

  busy-Drained :
      (n : ℕ) (w : Line L)
      → Kept L Q delay other w
      → w.device.tx_machine_state ≡ busy
      → n ≡ length (Q.contents w.device.queue)
      → (w' : Line L) × (drain L channel self (suc n) w ≡ some w') × Drained w w'
  busy-Drained zero w k e le =
      let (some_left, t, b, c, d) = subst (λ st. StateKept L Q delay other st w) e k.state in
      let (u, f, ku, cs) = complete-ends L Q channel self other delay carries w k (λ h. cc) in
      elim cs.1 [
        | inl (empty, idle) ↦
            let (r, none_left, same, all) = Kept-Drained u ku idle in
            (u, drain-fire zero w u f, (r, none_left, cs.0, all ∙ cs.0))
        | inr (p, ps, full, rest, still) ↦ absurd (omega (arith, le, ap length full))
      ]
  busy-Drained (suc n) w k e le =
      let (some_left, t, b, c, d) = subst (λ st. StateKept L Q delay other st w) e k.state in
      let (u, f, ku, cs) = complete-ends L Q channel self other delay carries w k (λ h. cc) in
      elim cs.1 [
        | inl (empty, idle) ↦ absurd (omega (arith, le, ap length empty))
        | inr (p, ps, full, rest, still) ↦
            let (v, g, dv) =
              busy-Drained n u ku still (omega (arith, le, ap length full, ap length rest)) in
            (v, drain-fire (suc n) w u f ∙ g, (dv.0, dv.1, dv.2 ∙ cs.0, dv.3 ∙ cs.0))
      ]

  -- When nothing more is sent, one completion for each packet that is queued and one for the packet that
  -- is on the wire leave the transmitter idle, with everything that was accepted put on the channel, in
  -- its order: from an idle device, on every reachable line.
  pub drained :
      (d : Device L) (w : Line L)
      → Fresh L Q d
      → Reach L channel self (start L channel self d) w
      → (w' : Line L) × (drain L channel self
            (completions_left w.device.tx_machine_state (length (Q.contents w.device.queue)))
            w
          ≡ some w')
        × Drained w w'
  drained d w fresh r =
      let k = Reach-Kept d w fresh r in
      let n : ℕ = length (Q.contents w.device.queue) in
      let Ends = λ (st : TxMachineState).
        (w' : Line L) × (drain L channel self (completions_left st n) w ≡ some w') × Drained w w' in
      elim (state-cases L Q channel self other delay carries w.device.tx_machine_state w k.state) [
        | inl (e, a) ↦ subst Ends (sym e) (w, refl, Kept-Drained w k e)
        | inr (e, a) ↦ subst Ends (sym e) (busy-Drained n w k e refl)
      ]
