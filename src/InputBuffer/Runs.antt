-- ===== src/InputBuffer/Runs.antt =====
-- utils/p4-queue.h, class InputBuffer: any calls, against two queues of limited length.
use p4simulator.Base.{ℕ, ◌≡◌, refl, Option, List, [], ◌∷◌, arith}
use p4simulator.InputBuffer.{
  PacketType, InputBuffer, Pushed, pushed, dropped, blocked, push_front, pop_back, init,
}
use p4simulator.InputBuffer.Lanes.{
  Lanes, IsBounded, lanes, join, leave, lane_of, refusal, push_front-join, pop_back-leave,
}

module _ {ℓ} (A : Type ℓ) where
  pub data Op : Type ℓ where
    puts : PacketType → A → Op
    takes : Op

  pub data Reply : Type ℓ where
    answered : Pushed → Reply
    gave : Option A → Reply

module _ {ℓ} {A : Type ℓ} where
  -- What the calls return, in order. A call that waits is the last.
  after_push : Pushed → List (Reply A) → List (Reply A)
  after_push pushed later = answered pushed ∷ later
  after_push dropped later = answered dropped ∷ later
  after_push blocked later = answered blocked ∷ []

  unfoldable pub run : InputBuffer A → List (Op A) → List (Reply A)
  unfolding after_push
  run b [] = []
  run b (puts t x ∷ ops) = let (b', r) = push_front b t x in after_push r (run b' ops)
  run b (takes ∷ ops) = let (b', r) = pop_back b in gave r ∷ run b' ops

  unfoldable pub run_lanes : Lanes A → List (Op A) → List (Reply A)
  unfolding after_push
  run_lanes s [] = []
  run_lanes s (puts t x ∷ ops) =
      let (s', r) = join s (lane_of t) (refusal t) x in after_push r (run_lanes s' ops)
  run_lanes s (takes ∷ ops) = let (s', r) = leave s in gave r ∷ run_lanes s' ops

  run-run_lanes :
      (ops : List (Op A)) (b : InputBuffer A) → IsBounded b → run b ops ≡ run_lanes (lanes b) ops
  unfolding run run_lanes
  run-run_lanes [] b v = refl
  run-run_lanes (puts t x ∷ ops) b v =
      rw (run-run_lanes ops _ (push_front-join b t x v).1, ← (push_front-join b t x v).0)
  run-run_lanes (takes ∷ ops) b v =
      rw (run-run_lanes ops _ (pop_back-leave b v).1, ← (pop_back-leave b v).0)

  init-IsBounded : (hi lo : ℕ) → IsBounded (init {A = A} hi lo)
  unfolding init
  init-IsBounded hi lo = omega arith

  -- No calls on a new input buffer tell it from two queues, each first in, first out and within its
  -- capacity, of which the high one is served first: normal packets wait at a full low queue,
  -- resubmitted and recirculated ones are dropped at a full high queue, and a sentinel waits there.
  pub run_refines :
      (hi lo : ℕ) (ops : List (Op A))
      → run (init hi lo) ops
        ≡ run_lanes (record { room_hi = hi; room_lo = lo; in_hi = []; in_lo = [] }) ops
  unfolding init
  run_refines hi lo ops = run-run_lanes ops _ (init-IsBounded hi lo)
