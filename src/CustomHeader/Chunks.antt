-- ===== src/CustomHeader/Chunks.antt =====
-- model/custom-header.cc: one round of the inner loops of `Serialize` and `Deserialize`.
use p4simulator.Base.{
  ℕ, zero, suc, ◌+◌, ◌-◌, ◌*◌, ◌/◌, ◌%◌, ◌^◌, ◌≤◌, ◌<◌, ◌≡◌, refl, ap, sym, ◌∙◌, subst, bit_or,
  List, [], ◌∷◌, ◌++◌, length, length-append, ℕ_discrete, ==-false, lt→ltb, ltb, false, arith,
}
use p4simulator.Base.Bits.{pow_pos}
use native.Mathlib.Nat.{
  mul_assoc, mul_comm, mul-lt-mul_of_pos_right, zero-div, div-le_self, mod-lt, mul-div_cancel,
  mul-add-div_right, div-eq_of_lt, mul-add-mod_self_right, mod-eq_of_lt, div-div-eq-div-mul,
}
use p4simulator.CustomHeader.Wire.{Writer, flush_full, finish, byte_at, read_chunk}
use p4simulator.CustomHeader.Digits.{
  pow_add, bit_and-mask, bit_or-under, bit_or_low, div_pieces, append_lt,
}

-- The bits of the byte that is begun.
abbrev pub top : Writer → ℕ
top w = w.current_byte / 2 ^ (8 - w.current_bit)

abbrev pub position : Writer → ℕ
position w = length w.bytes * 8 + w.current_bit

pub record Begun (w : Writer) : Type 0 where
  pub partly : w.current_bit < 8
  pub fits : top w < 2 ^ w.current_bit
  pub padded : w.current_byte ≡ top w * 2 ^ (8 - w.current_bit)

-- The bytes go on from what the writer has.
pub record Holds (w : Writer) (buffer : List ℕ) : Type 0 where
  pub before : (i : ℕ) → i < length w.bytes → byte_at buffer i ≡ byte_at w.bytes i
  pub begun : byte_at buffer (length w.bytes) / 2 ^ (8 - w.current_bit) ≡ top w

pub byte_at-append :
    (bs cs : List ℕ) (i : ℕ)
    → (i < length bs → byte_at (bs ++ cs) i ≡ byte_at bs i)
      × (byte_at (bs ++ cs) (length bs + i) ≡ byte_at cs i)
byte_at-append [] cs i = (λ h. absurd (omega arith), ap (byte_at cs) (omega arith))
byte_at-append (b ∷ bs) cs zero = (
  λ h. refl,
  ap (byte_at (b ∷ bs ++ cs)) {x = suc (length bs) + 0} {y = suc (length bs + 0)} (omega arith)
      ∙ (byte_at-append bs cs 0).1,
)
byte_at-append (b ∷ bs) cs (suc i) = (
  λ h. (byte_at-append bs cs i).0 (omega arith),
  ap (byte_at (b ∷ bs ++ cs)) {x = suc (length bs) + suc i} {y = suc (length bs + suc i)}
        (omega arith)
      ∙ (byte_at-append bs cs (suc i)).1,
)

pub byte_at_past : (bs : List ℕ) (i : ℕ) → length bs ≤ i → byte_at bs i ≡ 0
byte_at_past [] i h = refl
byte_at_past (b ∷ bs) zero h = absurd (omega arith)
byte_at_past (b ∷ bs) (suc i) h = byte_at_past bs i (omega arith)

-- The byte after a chunk `c` of `m` bits, which leaves room for `s` more.
module _ (w : Writer) (g : Begun w) (c m s : ℕ) (hc : c < 2 ^ m)
    (room : w.current_bit + m + s ≡ 8) where
  split : 2 ^ (8 - w.current_bit) ≡ 2 ^ m * 2 ^ s
  split = let left : 8 - w.current_bit ≡ m + s = omega arith in rw left (pow_add m s)

  byte_after : bit_or w.current_byte (c * 2 ^ s) ≡ (top w * 2 ^ m + c) * 2 ^ s
  byte_after =
      let moved : w.current_byte ≡ top w * 2 ^ m * 2 ^ s =
        g.padded ∙ ap (λ t. top w * t) split ∙ sym (mul_assoc (top w) (2 ^ m) (2 ^ s)) in
      ap (λ t. bit_or t (c * 2 ^ s)) moved ∙ bit_or-under (top w) c m s hc

  top_lt : top w * 2 ^ m + c < 2 ^ (w.current_bit + m)
  top_lt = append_lt (top w) c w.current_bit m g.fits hc

  after_lt : (top w * 2 ^ m + c) * 2 ^ s < 2 ^ 8
  after_lt =
      let scaled : (top w * 2 ^ m + c) * 2 ^ s < 2 ^ (w.current_bit + m) * 2 ^ s =
        mul-lt-mul_of_pos_right top_lt (pow_pos s) in
      subst (λ t. (top w * 2 ^ m + c) * 2 ^ s < t)
        (sym (pow_add (w.current_bit + m) s) ∙ ap (λ t. 2 ^ t) room) scaled

  pub stored : bit_or w.current_byte (c * 2 ^ s) % 2 ^ 8 ≡ (top w * 2 ^ m + c) * 2 ^ s
  stored = ap (λ t. t % 2 ^ 8) byte_after ∙ mod-eq_of_lt after_lt

  read_back :
      (b : ℕ)
      → b / 2 ^ s ≡ top w * 2 ^ m + c
      → (b / 2 ^ (8 - w.current_bit) ≡ top w) × (b / 2 ^ s % 2 ^ m ≡ c)
  read_back b e = (
    ap (λ t. b / t) (split ∙ mul_comm (2 ^ m) (2 ^ s))
        ∙ sym (div-div-eq-div-mul b (2 ^ s) (2 ^ m))
        ∙ ap (λ t. t / 2 ^ m) e
        ∙ mul-add-div_right (pow_pos m) (top w) c
        ∙ ap (λ t. top w + t) (div-eq_of_lt hc)
        ∙ omega arith,
    ap (λ t. t % 2 ^ m) e ∙ mul-add-mod_self_right (top w) (2 ^ m) c ∙ mod-eq_of_lt hc,
  )

  abbrev written : Writer
  written = record w { current_byte = (top w * 2 ^ m + c) * 2 ^ s; current_bit = w.current_bit + m }

  top-written : (8 - (w.current_bit + m) ≡ s) × (top written ≡ top w * 2 ^ m + c)
  top-written =
      let left : 8 - (w.current_bit + m) ≡ s = omega arith in
      (
        left,
        ap (λ t. (top w * 2 ^ m + c) * 2 ^ s / 2 ^ t) left
            ∙ mul-div_cancel (top w * 2 ^ m + c) (pow_pos s),
      )

  pub flush-Begun : Begun (flush_full written)
  unfolding flush_full
  flush-Begun = elim (ℕ_discrete (w.current_bit + m) 8) [
    | yes full ↦ rw full (record { partly = omega arith; fits = omega arith; padded = omega arith })
    | no ne ↦ rw (==-false (w.current_bit + m) 8 ne) (record {
      partly = omega arith;
      fits = rw top-written.1 top_lt;
      padded = rw (top-written.1, top-written.0) refl;
    })
  ]

  pub flush-position : position (flush_full written) ≡ position w + m
  unfolding flush_full
  flush-position = elim (ℕ_discrete (w.current_bit + m) 8) [
    | yes full ↦ rw full (omega (arith, length-append w.bytes ((top w * 2 ^ m + c) * 2 ^ s ∷ [])))
    | no ne ↦ rw (==-false (w.current_bit + m) 8 ne) (omega arith)
  ]

  Holds-full :
      (buffer : List ℕ)
      → Holds
          (record {
            bytes = w.bytes ++ ((top w * 2 ^ m + c) * 2 ^ s ∷ []);
            current_byte = 0;
            current_bit = 0;
          })
          buffer
      → Holds w buffer × (byte_at buffer (length w.bytes) / 2 ^ s % 2 ^ m ≡ c)
  Holds-full buffer h =
      let one : List ℕ = (top w * 2 ^ m + c) * 2 ^ s ∷ [] in
      let long : length (w.bytes ++ one) ≡ suc (length w.bytes) =
        omega (arith, length-append w.bytes one) in
      let last : byte_at buffer (length w.bytes) ≡ (top w * 2 ^ m + c) * 2 ^ s =
        h.before (length w.bytes) (omega arith)
        ∙ ap (byte_at (w.bytes ++ one)) {x = length w.bytes} {y = length w.bytes + 0} (omega arith)
        ∙ (byte_at-append w.bytes one 0).1 in
      let back : _ =
        read_back (byte_at buffer (length w.bytes))
          (ap (λ t. t / 2 ^ s) last ∙ mul-div_cancel (top w * 2 ^ m + c) (pow_pos s)) in
      (
        record {
          before = λ i p. h.before i (omega arith) ∙ (byte_at-append w.bytes one i).0 p;
          begun = back.0;
        },
        back.1,
      )

  Holds-partly :
      (buffer : List ℕ)
      → Holds written buffer
      → Holds w buffer × (byte_at buffer (length w.bytes) / 2 ^ s % 2 ^ m ≡ c)
  Holds-partly buffer h =
      let begun : byte_at buffer (length w.bytes) / 2 ^ s ≡ top w * 2 ^ m + c =
        ap (λ t. byte_at buffer (length w.bytes) / 2 ^ t) (sym top-written.0)
        ∙ h.begun
        ∙ top-written.1 in
      let back : _ = read_back (byte_at buffer (length w.bytes)) begun in
      (record { before = h.before; begun = back.0 }, back.1)

  -- What holds the bytes afterwards holds them before, and the chunk at its place.
  pub flush-Holds :
      (buffer : List ℕ)
      → Holds (flush_full written) buffer
      → Holds w buffer × (byte_at buffer (length w.bytes) / 2 ^ s % 2 ^ m ≡ c)
  unfolding flush_full
  flush-Holds buffer = elim (ℕ_discrete (w.current_bit + m) 8) [
    | yes full ↦ rw full (λ h. Holds-full buffer h)
    | no ne ↦ rw (==-false (w.current_bit + m) 8 ne) (λ h. Holds-partly buffer h)
  ]

-- The bytes in the end are held to by the writer that ends them.
pub finish-Holds : (w : Writer) → Begun w → Holds w (finish w)
unfolding finish
finish-Holds w g = elim (ℕ_discrete w.current_bit 0) [
  | yes e ↦
      let none_begun : top w ≡ 0 =
        let small : top w < 2 ^ 0 = subst (λ t. top w < 2 ^ t) e g.fits in omega arith in
      let off : ltb 0 w.current_bit ≡ false = ap (ltb 0) e in
      rw off (record {
        before = λ i p. refl;
        begun =
            ap (λ t. t / 2 ^ (8 - w.current_bit))
              (byte_at_past w.bytes (length w.bytes) (omega arith))
            ∙ zero-div (2 ^ (8 - w.current_bit))
            ∙ sym none_begun;
      })
  | no ne ↦ rw (lt→ltb 0 w.current_bit (omega arith)) (record {
    before = λ i p. (byte_at-append w.bytes (w.current_byte ∷ []) i).0 p;
    begun =
        ap (λ t. t / 2 ^ (8 - w.current_bit))
          (ap (byte_at (w.bytes ++ (w.current_byte ∷ []))) {x = length w.bytes}
              {y = length w.bytes + 0} (omega arith)
            ∙ (byte_at-append w.bytes (w.current_byte ∷ []) 0).1);
  })
]

-- The reader's round at the writer's place.
pub read_chunk_lem :
    (w : Writer) (buffer : List ℕ) (value bits now s : ℕ)
    → w.current_bit + now + s ≡ 8
    → w.current_bit < 8
    → now ≤ bits
    → value < 2 ^ 64
    → byte_at buffer (length w.bytes) / 2 ^ s % 2 ^ now ≡ value / 2 ^ (bits - now) % 2 ^ now
    → read_chunk buffer (position w) (value / 2 ^ bits) now ≡ value / 2 ^ (bits - now)
unfolding read_chunk
read_chunk_lem w buffer value bits now s room part less small same_bits =
    let index : position w / 8 ≡ length w.bytes = omega arith in
    let bit : position w % 8 ≡ w.current_bit = omega arith in
    let left : 8 - w.current_bit - now ≡ s = omega arith in
    let all : now + (bits - now) ≡ bits = omega arith in
    let v : ℕ = value / 2 ^ bits in
    let c : ℕ = value / 2 ^ (bits - now) % 2 ^ now in
    let whole : v * 2 ^ now + c ≡ value / 2 ^ (bits - now) =
      ap (λ t. value / 2 ^ t * 2 ^ now + c) (sym all) ∙ div_pieces value now (bits - now) in
    let fits : v * 2 ^ now < 2 ^ 64 = omega (arith, div-le_self value (2 ^ (bits - now))) in
    let high : v * 2 ^ now % 2 ^ 64 ≡ v * 2 ^ now = mod-eq_of_lt fits in
    rw
      (
        index,
        bit,
        left,
        bit_and-mask now (byte_at buffer (length w.bytes) / 2 ^ s),
        same_bits,
        high,
      )
      (bit_or_low v c now (mod-lt (value / 2 ^ (bits - now)) (pow_pos now)) ∙ whole)
