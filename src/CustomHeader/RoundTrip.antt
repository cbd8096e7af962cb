-- ===== src/CustomHeader/RoundTrip.antt =====
-- model/custom-header.cc: `Deserialize` reads what `Serialize` has written.
use p4simulator.Base.{
  ℕ, ◌+◌, ◌/◌, ◌%◌, ◌^◌, ◌≤◌, ◌<◌, ◌≡◌, refl, ap, sym, ◌∙◌, List, [], ◌∷◌, ◌++◌, length,
  length-append, ℕ_discrete, lt→ltb, ltb, false, arith,
}
use p4simulator.CustomHeader.{Field, CustomHeader}
use p4simulator.CustomHeader.Wire.{
  Writer, write_bits, write_fields, read_fields, read_u8s, read_bits, finish, serialize,
  deserialize, total_bits, get_serialized_size, start,
}
use p4simulator.CustomHeader.Chunks.{Begun, Holds, position, finish-Holds}
use p4simulator.CustomHeader.Loops.{Loop, loop}
use native.Mathlib.Nat.{div-eq_of_lt, pow-le-pow_right}

-- What `AddField` and `SetField` keep to.
abbrev pub FieldFits : Field → Type 0
FieldFits f = (f.bit_width ≤ 64) × (f.value < 2 ^ f.bit_width)

abbrev pub Fit : List Field → Type 0
Fit [] = Unit
Fit (f ∷ fs) = FieldFits f × Fit fs

-- The same names and widths; the values may differ.
abbrev pub SameShape : List Field → List Field → Type 0
SameShape [] [] = Unit
SameShape [] (g ∷ gs) = ⊥
SameShape (f ∷ fs) [] = ⊥
SameShape (f ∷ fs) (g ∷ gs) = (f.name ≡ g.name) × (f.bit_width ≡ g.bit_width) × SameShape fs gs

abbrev pub bits_of : List Field → ℕ
bits_of [] = 0
bits_of (f ∷ fs) = f.bit_width + bits_of fs

record Carried (w v : Writer) (gs fs : List Field) : Type 0 where
  stays : Begun v
  moves : position v ≡ position w + bits_of fs
  reads :
      (buffer : List ℕ)
      → Holds v buffer
      → Holds w buffer × (read_fields buffer (position w) gs ≡ fs)

carry :
    (gs fs : List Field) (w : Writer)
    → Begun w
    → Fit fs
    → SameShape gs fs
    → position w + bits_of fs < 2 ^ 32
    → Carried w (write_fields w fs) gs fs
unfolding write_fields read_fields
carry [] [] w b fit shape small = record {
  stays = b;
  moves = omega arith;
  reads = λ buffer h. (h, refl);
}
carry [] (f ∷ fs) w b fit shape small = absurd shape
carry (g ∷ gs) [] w b fit shape small = absurd shape
carry (g ∷ gs) (f ∷ fs) w b ((narrow, fits), fit) (en, eb, shape) small =
    let within : f.value < 2 ^ 64 =
      omega (arith, fits, pow-le-pow_right {n = 2} (omega arith) narrow) in
    let v : Writer = write_bits f.bit_width w f.value f.bit_width in
    let one : Loop f.bit_width w v f.value f.bit_width =
      loop f.bit_width w f.value f.bit_width b (omega arith) within in
    let m₁ = one.moves in
    let more : Carried v (write_fields v fs) gs fs =
      carry gs fs v one.stays fit shape (omega arith) in
    let m₂ = more.moves in
    let next : (position w + f.bit_width) % 2 ^ 32 ≡ position v = omega arith in
    record {
      stays = more.stays;
      moves = omega arith;
      reads = λ buffer h.
          let back : _ = more.reads buffer h in
          let here : _ = one.reads buffer back.0 in
          let nothing_yet : f.value / 2 ^ f.bit_width ≡ 0 = div-eq_of_lt fits in
          let read : read_bits f.bit_width buffer (position w) 0 f.bit_width ≡ f.value =
            ap (λ t. read_bits f.bit_width buffer (position w) t f.bit_width) (sym nothing_yet)
            ∙ here.1 (omega arith) in
          (
            here.0,
            rw (eb, read, next)
                (ap (λ t. t ∷ read_fields buffer (position v) gs) (rw en refl)
                  ∙ ap (λ t. f ∷ t) back.1),
          );
    }

total_bits_lem : (fs : List Field) → bits_of fs < 2 ^ 32 → total_bits fs ≡ bits_of fs
unfolding total_bits
total_bits_lem [] p = refl
total_bits_lem (f ∷ fs) p = omega (arith, total_bits_lem fs (omega arith))

same_bits : (gs fs : List Field) → SameShape gs fs → bits_of gs ≡ bits_of fs
same_bits [] [] s = refl
same_bits [] (f ∷ fs) s = absurd s
same_bits (g ∷ gs) [] s = absurd s
same_bits (g ∷ gs) (f ∷ fs) (en, eb, s) = omega (arith, eb, same_bits gs fs s)

pub same_shape : (fs : List Field) → SameShape fs fs
same_shape [] = tt
same_shape (f ∷ fs) = (refl, refl, same_shape fs)

length-finish : (w : Writer) → w.current_bit < 8 → length (finish w) ≡ (position w + 7) / 8
unfolding finish
length-finish w p = elim (ℕ_discrete w.current_bit 0) [
  | yes e ↦ let off : ltb 0 w.current_bit ≡ false = ap (ltb 0) e in rw off (omega arith)
  | no ne ↦
      rw (lt→ltb 0 w.current_bit (omega arith))
        (omega (arith, length-append w.bytes (w.current_byte ∷ [])))
]

read_u8s_lem : (bs rest : List ℕ) → read_u8s (length bs) (bs ++ rest) ≡ bs
unfolding read_u8s
read_u8s_lem [] rest = refl
read_u8s_lem (b ∷ bs) rest = ap (λ t. b ∷ t) (read_u8s_lem bs rest)

start-Begun : Begun start
start-Begun = record { partly = omega arith; fits = omega arith; padded = refl }

-- `Serialize` writes as many bytes as `GetSerializedSize` says, whenever the fields fit their
-- widths and the header has fewer than 2^32 - 7 bits.
pub length-serialize :
    (h : CustomHeader)
    → Fit h.fields
    → bits_of h.fields + 7 < 2 ^ 32
    → length (serialize h) ≡ get_serialized_size h
unfolding serialize get_serialized_size
length-serialize h fit small =
    let c : Carried start (write_fields start h.fields) h.fields h.fields =
      carry h.fields h.fields start start-Begun fit (same_shape h.fields) (omega arith) in
    let m = c.moves in
    let s : Begun (write_fields start h.fields) = c.stays in
    omega (
      arith,
      m,
      length-finish (write_fields start h.fields) s.partly,
      total_bits_lem h.fields (omega arith),
    )

-- A header that has the names and the widths of another reads, at the front of whatever follows,
-- the values that the other has written, and takes exactly the bytes the other wrote, whenever the
-- other's fields fit their widths and have fewer than 2^32 - 7 bits.
pub deserialize-serialize :
    (g h : CustomHeader) (payload : List ℕ)
    → SameShape g.fields h.fields
    → Fit h.fields
    → bits_of h.fields + 7 < 2 ^ 32
    → deserialize g (serialize h ++ payload)
      ≡ (record g { fields = h.fields }, length (serialize h))
unfolding deserialize serialize get_serialized_size
deserialize-serialize g h payload shape fit small =
    let size : get_serialized_size g ≡ length (serialize h) = omega (
      arith,
      same_bits g.fields h.fields shape,
      total_bits_lem g.fields (omega (arith, same_bits g.fields h.fields shape)),
      total_bits_lem h.fields (omega arith),
      length-serialize h fit small,
    ) in
    let c : Carried start (write_fields start h.fields) g.fields h.fields =
      carry g.fields h.fields start start-Begun fit shape (omega arith) in
    let held : Holds (write_fields start h.fields) (serialize h) =
      finish-Holds (write_fields start h.fields) c.stays in
    rw (size, read_u8s_lem (serialize h) payload, (c.reads (serialize h) held).1) refl
