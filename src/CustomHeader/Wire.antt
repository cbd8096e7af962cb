-- ===== src/CustomHeader/Wire.antt =====
-- model/custom-header.cc, `Serialize`, `Deserialize` and `GetSerializedSize`: the fields' bits, the
-- highest first, without gaps. The inner loops run on fuel, the number of bits at their start.
use p4simulator.Base.{
  ℕ, zero, suc, ◌+◌, ◌-◌, ◌*◌, ◌/◌, ◌%◌, ◌^◌, min, bit_and, bit_or, List, [], ◌∷◌, ◌++◌, ltb, ◌==◌,
  if◌then◌else◌,
}
use p4simulator.CustomHeader.{Field, CustomHeader}

-- What `Serialize` keeps between two fields: the bytes given to `start`, and the byte begun.
pub record Writer : Type 0 where
  pub bytes : List ℕ
  pub current_byte : ℕ
  pub current_bit : ℕ

-- `start.WriteU8`, and the next byte, where the byte is full.
unfoldable pub flush_full : Writer → Writer
flush_full w =
    if w.current_bit == 8
    then record { bytes = w.bytes ++ (w.current_byte ∷ []); current_byte = 0; current_bit = 0 }
    else w

-- One round of the inner loop writes `now` of the `bits` that are left.
unfoldable pub write_chunk : Writer → ℕ → ℕ → ℕ → Writer
write_chunk w value bits now = flush_full (record w {
  current_byte =
      bit_or w.current_byte
        (bit_and (value / 2 ^ (bits - now)) (2 ^ now - 1) * 2 ^ (8 - w.current_bit - now))
      % 2 ^ 8;
  current_bit = w.current_bit + now;
})

-- `bitsToWriteNow`, and `bitsToReadNow` of the reader.
abbrev pub bits_now : ℕ → ℕ → ℕ
bits_now at bits = min (8 - at) bits

unfoldable pub write_bits : ℕ → Writer → ℕ → ℕ → Writer
write_bits zero w value bits = w
write_bits (suc fuel) w value bits =
    let now : ℕ = bits_now w.current_bit bits in
    let rest : Writer = write_bits fuel (write_chunk w value bits now) value (bits - now) in
    if ltb 0 bits then rest else w

unfoldable pub write_fields : Writer → List Field → Writer
write_fields w [] = w
write_fields w (f ∷ fs) = write_fields (write_bits f.bit_width w f.value f.bit_width) fs

-- The last byte may be part of one.
unfoldable pub finish : Writer → List ℕ
finish w = if ltb 0 w.current_bit then w.bytes ++ (w.current_byte ∷ []) else w.bytes

abbrev pub start : Writer
start = record { bytes = []; current_byte = 0; current_bit = 0 }

unfoldable pub serialize : CustomHeader → List ℕ
serialize h = finish (write_fields start h.fields)

-- `totalBits`, a `uint32_t`.
unfoldable pub total_bits : List Field → ℕ
total_bits [] = 0
total_bits (f ∷ fs) = (f.bit_width + total_bits fs) % 2 ^ 32

unfoldable pub get_serialized_size : CustomHeader → ℕ
get_serialized_size h = (total_bits h.fields + 7) % 2 ^ 32 / 8

-- A byte of the vector `buffer`, in which nothing is read beyond its end.
abbrev pub byte_at : List ℕ → ℕ → ℕ
byte_at [] i = 0
byte_at (b ∷ bs) zero = b
byte_at (b ∷ bs) (suc i) = byte_at bs i

-- The first bytes that `start.ReadU8` gives.
unfoldable pub read_u8s : ℕ → List ℕ → List ℕ
read_u8s zero bs = []
read_u8s (suc n) [] = []
read_u8s (suc n) (b ∷ bs) = b ∷ read_u8s n bs

-- One round of the inner loop.
unfoldable pub read_chunk : List ℕ → ℕ → ℕ → ℕ → ℕ
read_chunk buffer current_bit value now =
    bit_or (value * 2 ^ now % 2 ^ 64)
      (bit_and (byte_at buffer (current_bit / 8) / 2 ^ (8 - current_bit % 8 - now)) (2 ^ now - 1))

unfoldable pub read_bits : ℕ → List ℕ → ℕ → ℕ → ℕ → ℕ
read_bits zero buffer current_bit value bits = value
read_bits (suc fuel) buffer current_bit value bits =
    let now : ℕ = bits_now (current_bit % 8) bits in
    let rest : ℕ =
      read_bits fuel buffer ((current_bit + now) % 2 ^ 32) (read_chunk buffer current_bit value now)
        (bits - now) in
    if ltb 0 bits then rest else value

unfoldable pub read_fields : List ℕ → ℕ → List Field → List Field
read_fields buffer current_bit [] = []
read_fields buffer current_bit (f ∷ fs) =
    record f { value = read_bits f.bit_width buffer current_bit 0 f.bit_width }
    ∷ read_fields buffer ((current_bit + f.bit_width) % 2 ^ 32) fs

-- The header read, and the number of bytes it took.
unfoldable pub deserialize : CustomHeader → List ℕ → CustomHeader × ℕ
deserialize h bytes = (
  record h { fields = read_fields (read_u8s (get_serialized_size h) bytes) 0 h.fields },
  get_serialized_size h,
)
