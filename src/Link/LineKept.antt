-- ===== src/Link/LineKept.antt =====
-- The transmitter of model/custom-p2p-net-device.cc over time: what every reachable line satisfies.
use p4simulator.Base.{
  ℕ, ◌+◌, ◌≤◌, ◌≡◌, ◌≢◌, refl, ap, true, none, List, [], ◌∷◌, ◌++◌, map, arith, inl, inr, ◌⊎◌,
}
use p4simulator.Link.{Library, TxMachineState, ready, busy}
use p4simulator.Link.Channel.{Reception}
use p4simulator.Link.Line.{QueueLaws, Line}

-- The receptions are in the order of their times from `lo` on, all at `other`.
abbrev pub InOrder {ℓ} : {Packet : Type ℓ} → ℕ → ℕ → List (Reception Packet) → Type 0
InOrder other lo [] = Unit
InOrder other lo (r ∷ rs) = (r.receiver ≡ other) × (lo ≤ r.after) × InOrder other r.after rs

abbrev pub Until {ℓ} : {Packet : Type ℓ} → ℕ → List (Reception Packet) → Type 0
Until t [] = Unit
Until t (r ∷ rs) = (r.after ≤ t) × Until t rs

pub InOrder-append {ℓ} :
    {Packet : Type ℓ} (other lo t : ℕ) (rs : List (Reception Packet)) (r : Reception Packet)
    → InOrder other lo rs
    → Until t rs
    → lo ≤ t
    → t ≤ r.after
    → r.receiver ≡ other
    → InOrder other lo (rs ++ (r ∷ []))
InOrder-append other lo t [] r a b c d e = (e, omega arith, tt)
InOrder-append other lo t (q ∷ rs) r (a1, a2, a3) (b1, b2) c d e =
    (a1, a2, InOrder-append other q.after t rs r a3 b2 b1 d e)

pub Until-append {ℓ} :
    {Packet : Type ℓ} (t u : ℕ) (rs : List (Reception Packet)) (r : Reception Packet)
    → Until t rs
    → t ≤ u
    → r.after ≤ u
    → Until u (rs ++ (r ∷ []))
Until-append t u [] r a b c = (c, tt)
Until-append t u (q ∷ rs) r (a, ac) b c = (omega arith, Until-append t u rs r ac b c)

pub Until-mono {ℓ} :
    {Packet : Type ℓ} (t u : ℕ) (rs : List (Reception Packet)) → Until t rs → t ≤ u → Until u rs
Until-mono t u [] a b = tt
Until-mono t u (q ∷ rs) (a, ac) b = (omega arith, Until-mono t u rs ac b)

abbrev pub packets {ℓ} : {Packet : Type ℓ} → List (Reception Packet) → List Packet
packets = map (λ r. r.packet)

pub packets-append {ℓ} :
    {Packet : Type ℓ} (rs : List (Reception Packet)) (r : Reception Packet)
    → packets (rs ++ (r ∷ [])) ≡ packets rs ++ (r.packet ∷ [])
packets-append [] r = refl
packets-append (q ∷ rs) r = ap (λ l. q.packet ∷ l) (packets-append rs r)

pub append_assoc {ℓ} : {A : Type ℓ} (xs ys zs : List A) → (xs ++ ys) ++ zs ≡ xs ++ (ys ++ zs)
append_assoc [] ys zs = refl
append_assoc (x ∷ xs) ys zs = ap (λ l. x ∷ l) (append_assoc xs ys zs)

pub List-cases {ℓ} :
    {A : Type ℓ} (xs : List A) → (xs ≡ []) ⊎ ((x : A) × (ys : List A) × (xs ≡ x ∷ ys))
List-cases [] = inl refl
List-cases (x ∷ xs) = inr (x, xs, refl)

module _ (L : Library) (Q : QueueLaws L) (delay other : ℕ) where
  -- An idle transmitter has nothing queued and nothing scheduled; a busy one has a packet and exactly
  -- one completion scheduled, which is not before the time it is. No reception is later than the next
  -- one that can be scheduled.
  abbrev pub StateKept : TxMachineState → Line L → Type 0
  StateKept ready w =
      (Q.contents w.device.queue ≡ []) × (w.pending ≡ []) × Until (w.now + delay) w.sent
  StateKept busy w =
      (w.device.current_pkt ≢ none)
      × (t : ℕ) × (w.pending ≡ t ∷ [])
      × (w.now ≤ t)
      × Until (t + delay) w.sent

  -- What was accepted is what was sent followed by what is queued; the receptions are at the other
  -- device, in the order of their times.
  pub record Kept (w : Line L) : Type 0 where
    pub up : w.device.link_up ≡ true
    pub order : packets w.sent ++ Q.contents w.device.queue ≡ w.accepted
    pub times : InOrder other 0 w.sent
    pub state : StateKept w.device.tx_machine_state w

pub append_nil {ℓ} : {A : Type ℓ} (xs : List A) → xs ++ [] ≡ xs
append_nil [] = refl
append_nil (x ∷ xs) = ap (λ l. x ∷ l) (append_nil xs)
