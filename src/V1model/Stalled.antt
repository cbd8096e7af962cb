-- ===== src/V1model/Stalled.antt =====
-- model/p4-core-v1model.cc: when `HandleEgressPipeline` takes a packet.
use p4simulator.Base.{
  ℕ, zero, suc, ◌^◌, ◌<◌, ◌≡◌, ◌≢◌, refl, false, Bool-cases, inl, inr, none, some, arith,
}
use p4simulator.EgressQueue.{Logic}
use p4simulator.EgressQueue.Pop.{size}
use p4simulator.EgressQueue.Counts.{Inv}
use p4simulator.EgressQueue.Service.{held, pop_back-Serves}
use p4simulator.V1model.{Library, Core}
use p4simulator.V1model.Egress.{queue_number, some_waiting, popped, handle_egress_pipeline}

module _ (l : Library) where
  some_waiting-none :
      (b : Logic l.Packet) (n : ℕ) → ((p : ℕ) → p < n → size b p ≡ 0) → some_waiting l b n ≡ false
  unfolding some_waiting
  some_waiting-none b zero h = refl
  some_waiting-none b (suc n) h =
      ground (arith, h n (omega arith), some_waiting-none b n (λ p q. h p (omega arith)))

  -- The handler does nothing while the ports from 0 to 7 have no packet, whatever waits at higher
  -- ports; and it never meets an exception, for a worker that there is, where the sizes of the egress
  -- buffer are right and its entries fewer than 2^64.
  pub handle_egress_ends :
      (c : Core l) (now worker_id : ℕ)
      → Inv c.egress_buffer
      → worker_id < c.egress_buffer.nb_workers
      → held c.egress_buffer worker_id < 2 ^ 64
      → (((p : ℕ) → p < queue_number → size c.egress_buffer p ≡ 0)
          → handle_egress_pipeline l c now worker_id ≡ (c, some false))
        × ((handle_egress_pipeline l c now worker_id).1 ≢ none)
  unfolding handle_egress_pipeline popped
  handle_egress_ends c now worker_id v there few = (
    λ h. rw (some_waiting-none c.egress_buffer queue_number h) refl,
    elim (Bool-cases (some_waiting l c.egress_buffer queue_number)) [
      | inr e ↦ rw e (λ h. cc)
      | inl e ↦ elim (pop_back-Serves c.egress_buffer now worker_id v there few) [
        | inl (r, _) ↦ rw (e, r) (λ h. cc)
        | inr (p, x, rest, q, r, _, _, _, _, _) ↦ rw (e, r) (λ h. cc)
      ]
    ],
  )
