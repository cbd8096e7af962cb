-- ===== src/CustomHeader/Tests.antt =====
-- Runs of CustomHeader: two fields that share a byte, and a third.
use p4simulator.Base.{ℕ, ◌≡◌, ◌^◌, ◌<◌, ◌≤◌, ◌≢◌, refl, [], ◌∷◌, ◌++◌, length, some, arith}
use p4simulator.Base.Text.{Text}
use p4simulator.CustomHeader.{
  CustomHeader, Field, layer_2, add_after, done, invalid_argument, out_of_range, undefined,
  set_field, get_field, set_in, kept, with_fields,
}
use p4simulator.CustomHeader.Wire.{
  serialize, deserialize, get_serialized_size, write_fields, write_bits, write_chunk, flush_full,
  finish,
}
use p4simulator.CustomHeader.RoundTrip.{Fit, SameShape, deserialize-serialize, length-serialize}
use p4simulator.CustomHeader.Names.{named, replaced, set_field_ends, get-set_field_by_name}

abbrev version : Text
version = 118 ∷ []

abbrev kind : Text
kind = 107 ∷ []

abbrev checksum : Text
checksum = 99 ∷ []

abbrev with_values : ℕ → ℕ → ℕ → CustomHeader
with_values a b c = record {
  layer = layer_2;
  op = add_after;
  protocol_index = 0;
  fields =
      record { name = version; bit_width = 4; value = a }
      ∷ record { name = kind; bit_width = 10; value = b }
      ∷ record { name = checksum; bit_width = 16; value = c }
      ∷ [];
  offset_bytes = 0;
}

serialized : serialize (with_values 0xa 0x2cd 0x1234) ≡ (0xab ∷ 0x34 ∷ 0x48 ∷ 0xd0 ∷ [])
unfolding serialize write_fields write_bits write_chunk flush_full finish
serialized = refl

values-Fit : Fit (with_values 0xa 0x2cd 0x1234).fields
values-Fit =
    ((omega arith, omega arith), ((omega arith, omega arith), ((omega arith, omega arith), tt)))

length-serialize_example :
    length (serialize (with_values 0xa 0x2cd 0x1234))
    ≡ get_serialized_size (with_values 0xa 0x2cd 0x1234)
length-serialize_example = length-serialize (with_values 0xa 0x2cd 0x1234) values-Fit (omega arith)

deserialize-serialize_example :
    deserialize (with_values 0 0 0) (serialize (with_values 0xa 0x2cd 0x1234) ++ (7 ∷ 8 ∷ []))
    ≡ (with_values 0xa 0x2cd 0x1234, length (serialize (with_values 0xa 0x2cd 0x1234)))
deserialize-serialize_example =
    deserialize-serialize (with_values 0 0 0) (with_values 0xa 0x2cd 0x1234) (7 ∷ 8 ∷ [])
      (refl, refl, (refl, refl, (refl, refl, tt))) values-Fit (omega arith)

set_kind : set_field (with_values 1 2 3) kind 1023 ≡ done (with_values 1 1023 3)
unfolding set_field set_in kept with_fields
set_kind = refl

set_field_ends_example :
    (get_field (with_values 1 2 3) kind ≡ invalid_argument
      → set_field (with_values 1 2 3) kind 1024 ≡ invalid_argument)
    × ((f : Field)
        → named (with_values 1 2 3).fields kind ≡ some f
        → (64 ≤ f.bit_width → set_field (with_values 1 2 3) kind 1024 ≡ undefined)
          × (f.bit_width < 64
              → 2 ^ f.bit_width ≤ 1024
              → set_field (with_values 1 2 3) kind 1024 ≡ out_of_range)
          × (f.bit_width < 64
              → 1024 < 2 ^ f.bit_width
              → set_field (with_values 1 2 3) kind 1024
                ≡ done (record (with_values 1 2 3) {
                  fields = replaced (with_values 1 2 3).fields kind 1024;
                })))
set_field_ends_example = set_field_ends (with_values 1 2 3) kind 1024

get-set_field_by_name_example :
    (get_field (with_values 1 1023 3) kind ≡ done 1023)
    × ((other : Text)
        → other ≢ kind
        → get_field (with_values 1 1023 3) other ≡ get_field (with_values 1 2 3) other)
    × SameShape (with_values 1 1023 3).fields (with_values 1 2 3).fields
    × (Fit (with_values 1 2 3).fields → Fit (with_values 1 1023 3).fields)
get-set_field_by_name_example =
    get-set_field_by_name (with_values 1 2 3) (with_values 1 1023 3) kind 1023 set_kind
