-- ===== src/CustomHeader/Loops.antt =====
-- model/custom-header.cc: the two loops over the bits of one field.
use p4simulator.Base.{
  ℕ, zero, suc, ◌+◌, ◌-◌, ◌/◌, ◌%◌, ◌^◌, ◌≤◌, ◌<◌, ◌≡◌, List, ℕ_discrete, lt→ltb, arith,
}
use p4simulator.CustomHeader.Wire.{Writer, write_chunk, write_bits, read_bits, bits_now, read_chunk}
use p4simulator.Base.Bits.{pow_pos}
use native.Mathlib.Nat.{mod-lt, div-one}
use p4simulator.CustomHeader.Digits.{bit_and-mask}
use p4simulator.CustomHeader.Chunks.{
  Begun, Holds, position, stored, flush-Begun, flush-position, flush-Holds, read_chunk_lem,
}

-- A round of both loops.
record Round (w v : Writer) (value bits now : ℕ) : Type 0 where
  pub stays : Begun v
  pub moves : position v ≡ position w + now
  pub reads :
      (buffer : List ℕ)
      → Holds v buffer
      → Holds w buffer
        × (read_chunk buffer (position w) (value / 2 ^ bits) now ≡ value / 2 ^ (bits - now))

round :
    (w : Writer) (value bits now : ℕ)
    → Begun w
    → now ≤ bits
    → now ≤ 8 - w.current_bit
    → value < 2 ^ 64
    → Round w (write_chunk w value bits now) value bits now
unfolding write_chunk
round w value bits now g less room small =
    let s : ℕ = 8 - w.current_bit - now in
    let c : ℕ = value / 2 ^ (bits - now) % 2 ^ now in
    let hc : c < 2 ^ now = mod-lt (value / 2 ^ (bits - now)) (pow_pos now) in
    let parts : w.current_bit + now + s ≡ 8 = let p = g.partly in omega arith in
    rw (bit_and-mask now (value / 2 ^ (bits - now)), stored w g c now s hc parts)
      (record {
        stays = flush-Begun w g c now s hc parts;
        moves = flush-position w g c now s hc parts;
        reads = λ buffer h.
            let back : _ = flush-Holds w g c now s hc parts buffer h in
            (back.0, read_chunk_lem w buffer value bits now s parts g.partly less small back.1);
      })

pub record Loop (fuel : ℕ) (w v : Writer) (value bits : ℕ) : Type 0 where
  pub stays : Begun v
  pub moves : position v ≡ position w + bits
  pub reads :
      (buffer : List ℕ)
      → Holds v buffer
      → Holds w buffer
        × (position w + bits < 2 ^ 32
            → read_bits fuel buffer (position w) (value / 2 ^ bits) bits ≡ value)

Loop-over :
    (fuel : ℕ) (w : Writer) (value bits : ℕ)
    → Begun w
    → bits ≡ 0
    → Loop fuel w (write_bits fuel w value bits) value bits
unfolding write_bits read_bits
Loop-over fuel w value bits g none_left =
    rw none_left (elim fuel as (λ k. Loop k w (write_bits k w value 0) value 0) [
      | zero ↦ record {
        stays = g;
        moves = omega arith;
        reads = λ buffer h. (h, λ p. div-one value);
      }
      | suc k ↦ record {
        stays = g;
        moves = omega arith;
        reads = λ buffer h. (h, λ p. div-one value);
      }
    ])

pub loop :
    (fuel : ℕ) (w : Writer) (value bits : ℕ)
    → Begun w
    → bits ≤ fuel
    → value < 2 ^ 64
    → Loop fuel w (write_bits fuel w value bits) value bits
unfolding write_bits read_bits
loop zero w value bits g enough small = Loop-over zero w value bits g (omega arith)
loop (suc fuel) w value bits g enough small = elim (ℕ_discrete bits 0) [
  | yes over ↦ Loop-over (suc fuel) w value bits g over
  | no more ↦ rw (lt→ltb 0 bits (omega arith)) (
      let now : ℕ = bits_now w.current_bit bits in
      let part : w.current_bit < 8 = g.partly in
      let r : Round w (write_chunk w value bits now) value bits now =
        round w value bits now g (omega arith) (omega arith) small in
      let rest : Loop fuel (write_chunk w value bits now)
          (write_bits fuel (write_chunk w value bits now) value (bits - now)) value (bits - now) =
        loop fuel (write_chunk w value bits now) value (bits - now) r.stays (omega arith) small in
      let at : position w % 8 ≡ w.current_bit = omega arith in
      record {
        stays = rest.stays;
        moves = let m₁ = r.moves in let m₂ = rest.moves in omega arith;
        reads = λ buffer h.
            let back : _ = rest.reads buffer h in
            let here : _ = r.reads buffer back.0 in
            (
              here.0,
              λ p.
                  let next : (position w + now) % 2 ^ 32 ≡ position (write_chunk w value bits now) =
                    let m₁ = r.moves in omega arith in
                  rw (lt→ltb 0 bits (omega arith), at, here.1, next)
                    (back.1 (let m₁ = r.moves in omega arith)),
            );
      })
]
