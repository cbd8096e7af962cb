-- ===== src/Link/Transmitting.antt =====
-- model/custom-p2p-net-device.cc: a call of `SendFrom` and a completion, with the simulator around them.
use p4simulator.Base.{
  ℕ, ◌+◌, ◌≤◌, ◌≡◌, ◌≢◌, refl, subst, sym, ap, ◌∙◌, Bool, true, none, some, List, [], ◌∷◌, ◌++◌,
  arith, Bool-cases, inl, inr, ◌⊎◌,
}
use p4simulator.Link.{Library, Device, TxMachineState, ready, busy}
use p4simulator.Link.Channel.{P4P2PChannel}
use p4simulator.Link.Transmit.{unscheduled, with_headers}
use p4simulator.Link.Begun.{
  begun, start_next-begun, start_next-idle, transmit_complete-busy, send_from-refused,
  send_from-busy, send_from-ready,
}
use p4simulator.Link.Line.{
  QueueLaws, Carries, Line, send_at, fire, later, fire_first, completed, NotBefore, taken,
}
use p4simulator.Link.LineKept.{
  InOrder, Until, InOrder-append, Until-append, Until-mono, packets, packets-append, append_assoc,
  append_nil, List-cases, StateKept, Kept,
}

module _ (L : Library) (Q : QueueLaws L) (channel : P4P2PChannel) (self other delay : ℕ)
    (carries : Carries L.Packet channel self other delay) where
  -- A line at a later time, with a device that has scheduled nothing.
  abbrev quiet : Line L → ℕ → Device L → List L.Packet → Line L
  quiet w t d accepted = record {
    now = t;
    device = d;
    pending = w.pending;
    sent = w.sent;
    accepted = accepted;
  }

  later-quiet :
      (w : Line L) (t : ℕ) (d : Device L) (accepted : List L.Packet)
      → record (later L channel self w t (unscheduled L d)) { accepted = accepted }
        ≡ quiet w t d accepted
  unfolding unscheduled
  later-quiet w t d accepted = rw (append_nil w.pending, append_nil w.sent) refl

  begun-Kept :
      (w : Line L) (t : ℕ) (d : Device L) (q : L.Queue) (p : L.Packet) (accepted : List L.Packet)
      → d.link_up ≡ true
      → w.pending ≡ []
      → InOrder other 0 w.sent
      → Until (t + delay) w.sent
      → packets w.sent ++ (p ∷ Q.contents q) ≡ accepted
      → Kept L Q delay other
          (record (later L channel self w t (begun L Q channel self other delay carries d q p)) {
            accepted = accepted;
          })
  begun-Kept w t d q p accepted up none_left times until order = record {
    up = up;
    order =
        ap (λ l. l ++ Q.contents q) (packets-append w.sent _)
        ∙ append_assoc (packets w.sent) (p ∷ []) (Q.contents q)
        ∙ order;
    times =
        InOrder-append other 0 (t + delay) w.sent _ times until (omega arith) (omega arith) refl;
    state = (
      λ e. cc,
      t + (L.calculate_bytes_tx_time d.bps (L.get_size p) + d.interframe_gap),
      ap
          (λ l.
            l ++ ((t + (L.calculate_bytes_tx_time d.bps (L.get_size p) + d.interframe_gap)) ∷ []))
          none_left,
      omega arith,
      Until-append (t + delay) _ w.sent _ until (omega arith) (omega arith),
    );
  }

  pub state-cases :
      (st : TxMachineState) (w : Line L)
      → StateKept L Q delay other st w
      → ((st ≡ ready) × StateKept L Q delay other ready w)
        ⊎ ((st ≡ busy) × StateKept L Q delay other busy w)
  state-cases ready w k = inl (refl, k)
  state-cases busy w k = inr (refl, k)

  -- A completion ends idle, or busy with the packet that was first in the queue.
  abbrev pub Completes : Line L → Line L → Type 0
  Completes w w' =
      (w'.accepted ≡ w.accepted)
      × (((Q.contents w.device.queue ≡ []) × (w'.device.tx_machine_state ≡ ready))
          ⊎ ((p : L.Packet) × (ps : List L.Packet) × (Q.contents w.device.queue ≡ p ∷ ps)
              × (Q.contents w'.device.queue ≡ ps)
              × (w'.device.tx_machine_state ≡ busy)))

  -- A completion runs, from a busy transmitter, and what holds is kept.
  pub complete-ends :
      (w : Line L)
      → Kept L Q delay other w
      → w.pending ≢ []
      → (w' : Line L) × (fire L channel self w ≡ some w') × Kept L Q delay other w' × Completes w w'
  unfolding unscheduled
  complete-ends w k some_left = elim (state-cases w.device.tx_machine_state w k.state) [
    | inl (e, (none_queued, none_left, until)) ↦ absurd (some_left none_left)
    | inr (e, (current, t, one_left, le, until)) ↦
        let left : Line L = record w { pending = [] } in
        let idle : Device L = record w.device { tx_machine_state = ready; current_pkt = none } in
        let q : L.Queue = (L.dequeue w.device.queue).0 in
        let fires =
          ap (fire_first L channel self w) one_left
          ∙ ap (completed L channel self left t)
              (transmit_complete-busy L Q channel self other delay carries w.device e current) in
        elim (List-cases (Q.contents w.device.queue)) [
          | inl empty ↦ (
            later L channel self left t (unscheduled L (record idle { queue = q })),
            fires
                ∙ ap (completed L channel self left t) (
                    start_next-idle L Q channel self other delay carries idle _
                      (Q.lacks _ empty).0),
            subst (Kept L Q delay other)
                (sym (later-quiet left t (record idle { queue = q }) w.accepted))
                (record {
                  up = k.up;
                  order = ap (λ l. packets w.sent ++ l) ((Q.lacks _ empty).1 ∙ sym empty) ∙ k.order;
                  times = k.times;
                  state = ((Q.lacks _ empty).1, refl, until);
                }),
            (refl, inl (empty, refl)),
          )
          | inr (p, ps, full) ↦ (
            later L channel self left t (begun L Q channel self other delay carries idle q p),
            fires
                ∙ ap (completed L channel self left t) (
                    start_next-begun L Q channel self other delay carries idle _ p refl
                      (Q.yields _ p ps full).0),
            begun-Kept left t idle q p w.accepted k.up refl k.times until (
                ap (λ l. packets w.sent ++ l) (ap (λ l. p ∷ l) (Q.yields _ p ps full).1 ∙ sym full)
                ∙ k.order),
            (refl, inr (p, ps, full, (Q.yields _ p ps full).1, refl)),
          )
        ]
  ]

  busy-later :
      (w : Line L) (t : ℕ) (q : L.Queue) (accepted : List L.Packet)
      → NotBefore t w.pending
      → StateKept L Q delay other busy w
      → StateKept L Q delay other busy (quiet w t (record w.device { queue = q }) accepted)
  busy-later w t q accepted nb (current, c, one_left, after, until) =
      (current, c, one_left, (subst (NotBefore t) one_left nb).0, until)

  state-later :
      (st : TxMachineState) (w : Line L) (t : ℕ) (q : L.Queue) (accepted : List L.Packet)
      → w.now ≤ t
      → NotBefore t w.pending
      → Q.contents q ≡ Q.contents w.device.queue
      → StateKept L Q delay other st w
      → StateKept L Q delay other st (quiet w t (record w.device { queue = q }) accepted)
  state-later ready w t q accepted le nb e (none_queued, none_left, until) =
      (e ∙ none_queued, none_left, Until-mono _ _ w.sent until (omega arith))
  state-later busy w t q accepted le nb e k = busy-later w t q accepted nb k

  -- A call of `SendFrom` returns, whatever it is given, and what holds is kept.
  pub send-ends :
      (w : Line L) (t : ℕ) (p : L.Packet) (source dest : L.Address) (protocol : ℕ)
      → Kept L Q delay other w
      → w.now ≤ t
      → NotBefore t w.pending
      → (w' : Line L) × (send_at L channel self w t p source dest protocol ≡ some w')
        × Kept L Q delay other w'
  send-ends w t p source dest protocol k le nb =
      let hp : L.Packet = with_headers L w.device p source dest protocol in
      let offer : L.Queue × Bool = L.enqueue w.device.queue hp in
      let alone = λ (none_queued : Q.contents w.device.queue ≡ []) (accepted : offer.1 ≡ true).
        Q.accepts _ hp accepted ∙ ap (λ l. l ++ (hp ∷ [])) none_queued in
      elim (Bool-cases offer.1) [
        | inr refused ↦ (
          record (later L channel self w t (unscheduled L (record w.device { queue = offer.0 }))) {
            accepted = w.accepted;
          },
          ap (taken L channel self w t hp) (
              send_from-refused L Q channel self other delay carries w.device p source dest protocol
                k.up refused),
          subst (Kept L Q delay other) (sym (later-quiet w t _ w.accepted)) (record {
            up = k.up;
            order = ap (λ l. packets w.sent ++ l) (Q.refuses _ hp refused) ∙ k.order;
            times = k.times;
            state =
                state-later w.device.tx_machine_state w t offer.0 w.accepted le nb
                  (Q.refuses _ hp refused) k.state;
          }),
        )
        | inl accepted ↦ elim (state-cases w.device.tx_machine_state w k.state) [
          | inl (e, (none_queued, none_left, until)) ↦ (
            record (later L channel self w t
                (begun L Q channel self other delay carries w.device (L.dequeue offer.0).0 hp)) {
                  accepted = w.accepted ++ (hp ∷ []);
                },
            ap (taken L channel self w t hp) (
                send_from-ready L Q channel self other delay carries w.device p source dest protocol
                  k.up accepted e (alone none_queued accepted)),
            begun-Kept w t w.device _ hp _ k.up none_left k.times
                (Until-mono _ _ w.sent until (omega arith))
                (ap (λ l. packets w.sent ++ (hp ∷ l))
                    (Q.yields _ hp [] (alone none_queued accepted)).1
                  ∙ ap (λ l. l ++ (hp ∷ []))
                      (sym (append_nil (packets w.sent))
                        ∙ ap (λ l. packets w.sent ++ l) (sym none_queued)
                        ∙ k.order)),
          )
          | inr (e, (current, c, one_left, after, until)) ↦ (
            record (later L channel self w t
                (unscheduled L (record w.device { queue = offer.0 }))) {
                  accepted = w.accepted ++ (hp ∷ []);
                },
            ap (taken L channel self w t hp) (
                send_from-busy L Q channel self other delay carries w.device p source dest protocol
                  k.up accepted e),
            subst (Kept L Q delay other)
                (sym
                  (later-quiet w t (record w.device { queue = offer.0 }) (w.accepted ++ (hp ∷ []))))
                (record {
                  up = k.up;
                  order =
                      ap (λ l. packets w.sent ++ l) (Q.accepts _ hp accepted)
                      ∙ sym (append_assoc (packets w.sent) (Q.contents w.device.queue) (hp ∷ []))
                      ∙ ap (λ l. l ++ (hp ∷ [])) k.order;
                  times = k.times;
                  state =
                      subst
                        (λ st. StateKept L Q delay other st (
                          quiet w t (record w.device { queue = offer.0 })
                            (w.accepted ++ (hp ∷ []))))
                        (sym e)
                        (busy-later w t offer.0 (w.accepted ++ (hp ∷ [])) nb
                          (current, c, one_left, after, until));
                }),
          )
        ]
      ]
