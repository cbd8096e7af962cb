-- ===== src/V1model/Statistics.antt =====
-- model/p4-core-v1model.cc: what the tracing counters come to over time.
use p4simulator.Base.{ℕ, suc, ◌+◌, ◌*◌, ◌%◌, ◌^◌, ◌≡◌, refl, ◌∙◌, true, List, [], ◌∷◌, arith}
use p4simulator.V1model.{Library, Core, Counters}
use p4simulator.V1model.Ingress.{count_input}
use p4simulator.V1model.Egress.{count_egress}
use p4simulator.V1model.Control.{next_interval, totals, calculate_packets_per_second}

-- A packet of so many bytes comes in or is taken for the egress pipeline, or an interval ends, with the log
-- open.
pub data Tick : Type 0 where
  comes : ℕ → Tick
  goes : ℕ → Tick
  interval_ends : Tick

module _ (l : Library) where
  unfoldable pub count : Core l → List Tick → Core l
  count c [] = c
  count c (comes len ∷ ts) = count (count_input l c len) ts
  count c (goes len ∷ ts) = count (count_egress l c len) ts
  count c (interval_ends ∷ ts) = count (calculate_packets_per_second l c true) ts

  -- The packets and the bits of each direction.
  abbrev pub packets_in : List Tick → ℕ
  packets_in [] = 0
  packets_in (comes len ∷ ts) = suc (packets_in ts)
  packets_in (goes len ∷ ts) = packets_in ts
  packets_in (interval_ends ∷ ts) = packets_in ts

  abbrev pub bits_in : List Tick → ℕ
  bits_in [] = 0
  bits_in (comes len ∷ ts) = len * 8 + bits_in ts
  bits_in (goes len ∷ ts) = bits_in ts
  bits_in (interval_ends ∷ ts) = bits_in ts

  abbrev pub packets_out : List Tick → ℕ
  packets_out [] = 0
  packets_out (comes len ∷ ts) = packets_out ts
  packets_out (goes len ∷ ts) = suc (packets_out ts)
  packets_out (interval_ends ∷ ts) = packets_out ts

  abbrev pub total_in : Counters l → ℕ
  total_in n = n.input_pp + n.input_pps

  abbrev pub total_bits_in : Counters l → ℕ
  total_bits_in n = n.input_bp + n.input_bps

  abbrev pub total_out : Counters l → ℕ
  total_out n = n.egress_pp + n.egress_pps

  count_input_lem :
      (c : Core l) (len : ℕ)
      → c.enable_tracing ≡ true
      → let n = (count_input l c len).counters in
        (count_input l c len).enable_tracing ≡ true
        × (n.input_bps ≡ (c.counters.input_bps + len * 8) % 2 ^ 64)
        × (n.input_bp ≡ c.counters.input_bp)
        × (n.input_pps ≡ (c.counters.input_pps + 1) % 2 ^ 64)
        × (n.input_pp ≡ c.counters.input_pp)
        × (n.egress_bp ≡ c.counters.egress_bp)
        × (n.egress_pps ≡ c.counters.egress_pps)
        × (n.egress_pp ≡ c.counters.egress_pp)
  unfolding count_input
  count_input_lem c len on = rw on (refl, refl, refl, refl, refl, refl, refl, refl)

  count_egress_lem :
      (c : Core l) (len : ℕ)
      → c.enable_tracing ≡ true
      → let n = (count_egress l c len).counters in
        (count_egress l c len).enable_tracing ≡ true
        × (n.input_bps ≡ c.counters.input_bps)
        × (n.input_bp ≡ c.counters.input_bp)
        × (n.input_pps ≡ c.counters.input_pps)
        × (n.input_pp ≡ c.counters.input_pp)
        × (n.egress_bp ≡ c.counters.egress_bp)
        × (n.egress_pps ≡ (c.counters.egress_pps + 1) % 2 ^ 64)
        × (n.egress_pp ≡ c.counters.egress_pp)
  unfolding count_egress
  count_egress_lem c len on = rw on (refl, refl, refl, refl, refl, refl, refl, refl)

  -- With tracing on and the log open, the total and the interval together count every packet that came in, its bits,
  -- and every packet that was taken for the egress pipeline, up to a wrap at 2^64; a total of egress
  -- bits that starts at 0 is 0 after any traffic.
  pub count_totals :
      (ts : List Tick) (c : Core l)
      → c.enable_tracing ≡ true
      → (total_in (count c ts).counters % 2 ^ 64 ≡ (total_in c.counters + packets_in ts) % 2 ^ 64)
        × (total_bits_in (count c ts).counters % 2 ^ 64
            ≡ (total_bits_in c.counters + bits_in ts) % 2 ^ 64)
        × (total_out (count c ts).counters % 2 ^ 64
            ≡ (total_out c.counters + packets_out ts) % 2 ^ 64)
        × (c.counters.egress_bp ≡ 0 → (count c ts).counters.egress_bp ≡ 0)
  unfolding count calculate_packets_per_second next_interval totals
  count_totals [] c on = (omega arith, omega arith, omega arith, λ z. z)
  count_totals (comes len ∷ ts) c on =
      let (still, bps, bp, pps, pp, ebp, epps, epp) = count_input_lem c len on in
      let (a, b, o, z) = count_totals ts (count_input l c len) still in
      (omega arith, omega arith, omega arith, λ h. z (ebp ∙ h))
  count_totals (goes len ∷ ts) c on =
      let (still, bps, bp, pps, pp, ebp, epps, epp) = count_egress_lem c len on in
      let (a, b, o, z) = count_totals ts (count_egress l c len) still in
      (omega arith, omega arith, omega arith, λ h. z (ebp ∙ h))
  count_totals (interval_ends ∷ ts) c on =
      let (a, b, o, z) = count_totals ts (calculate_packets_per_second l c true) on in
      (omega arith, omega arith, omega arith, λ h. z (omega (arith, h)))
