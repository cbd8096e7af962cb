-- ===== src/CustomHeader.antt =====
-- model/custom-header.cc, class CustomHeader: a header whose fields are told at run time, each of
-- up to 64 bits.
pub mod Wire
mod Digits
mod Chunks
mod Loops
pub mod RoundTrip
pub mod Names
mod Tests
use p4simulator.Base.{
  ℕ, ◌+◌, ◌-◌, ◌^◌, ◌<◌, ◌≤◌, ◌≡◌, Bool, true, false, Option, none, some, List, [], ◌∷◌, ◌++◌, ltb,
  leb, ◌==◌, ◌||◌, if◌then◌else◌, length, get_elem?,
}
use p4simulator.Base.Text.{Text, same}

pub data HeaderLayer : Type 0 where
  layer_2 layer_3 layer_4 layer_5 : HeaderLayer

pub data HeaderLayerOperator : Type 0 where
  add_before replace add_after : HeaderLayerOperator

pub record Field : Type 0 where
  pub name : Text
  pub bit_width : ℕ
  pub value : ℕ

pub record CustomHeader : Type 0 where
  pub layer : HeaderLayer
  pub op : HeaderLayerOperator
  pub protocol_index : ℕ
  pub fields : List Field
  pub offset_bytes : ℕ

-- How a call ends: as it should, by an exception, or in a shift that C++ leaves undefined.
pub data Result {ℓ} (A : Type ℓ) : Type ℓ where
  done : A → Result A
  invalid_argument : Result A
  out_of_range : Result A
  undefined : Result A

-- The constructor leaves the layer and the operator as the memory has them.
unfoldable pub init : HeaderLayer → HeaderLayerOperator → CustomHeader
init layer op = record { layer = layer; op = op; protocol_index = 0; fields = []; offset_bytes = 0 }

unfoldable pub calculate_header_insert_offset : HeaderLayer → HeaderLayerOperator → ℕ
calculate_header_insert_offset layer_2 add_before = 0
calculate_header_insert_offset layer_2 replace = 14
calculate_header_insert_offset layer_2 add_after = 14
calculate_header_insert_offset layer_3 add_before = 14
calculate_header_insert_offset layer_3 replace = 14 + 20
calculate_header_insert_offset layer_3 add_after = 14 + 20
calculate_header_insert_offset layer_4 add_before = 14 + 20
calculate_header_insert_offset layer_4 replace = 14 + 20 + 8
calculate_header_insert_offset layer_4 add_after = 14 + 20 + 8
calculate_header_insert_offset layer_5 add_before = 14 + 20 + 8
calculate_header_insert_offset layer_5 replace = 14 + 20 + 8
calculate_header_insert_offset layer_5 add_after = 14 + 20 + 8

unfoldable pub add_field : CustomHeader → Text → ℕ → Result CustomHeader
add_field h name bit_width =
    if ltb 64 bit_width
    then invalid_argument
    else done (record h {
      fields = h.fields ++ (record { name = name; bit_width = bit_width; value = 0 } ∷ []);
    })

-- The fields before the one that is set stay in front.
unfoldable pub kept : Field → Result (List Field) → Result (List Field)
kept f (done fs) = done (f ∷ fs)
kept f invalid_argument = invalid_argument
kept f out_of_range = out_of_range
kept f undefined = undefined

-- The loop of `SetField`; `1ULL << 64` is undefined.
unfoldable pub set_in : List Field → Text → ℕ → Result (List Field)
unfolding kept
set_in [] name value = invalid_argument
set_in (f ∷ fs) name value =
    let rest : Result (List Field) = set_in fs name value in
    if same f.name name
    then (if leb 64 f.bit_width
        then undefined
        else if leb (2 ^ f.bit_width) value
        then out_of_range
        else done (record f { value = value } ∷ fs))
    else kept f rest

unfoldable pub with_fields : CustomHeader → Result (List Field) → Result CustomHeader
with_fields h (done fs) = done (record h { fields = fs })
with_fields h invalid_argument = invalid_argument
with_fields h out_of_range = out_of_range
with_fields h undefined = undefined

unfoldable pub set_field : CustomHeader → Text → ℕ → Result CustomHeader
unfolding with_fields
set_field h name value = with_fields h (set_in h.fields name value)

-- The loop of `GetField`.
unfoldable pub get_in : List Field → Text → Result ℕ
get_in [] name = invalid_argument
get_in (f ∷ fs) name =
    let rest : Result ℕ = get_in fs name in if same f.name name then done f.value else rest

unfoldable pub get_field : CustomHeader → Text → Result ℕ
get_field h name = get_in h.fields name

-- A header without fields takes any number.
unfoldable pub set_protocol_field_number : CustomHeader → ℕ → CustomHeader
set_protocol_field_number h id =
    if (length h.fields == 0) || ltb id (length h.fields)
    then record h { protocol_index = id }
    else h

-- The value of the field found, or 0.
value_of : Option Field → ℕ
value_of none = 0
value_of (some f) = f.value

unfoldable pub get_protocol_number : CustomHeader → ℕ
unfolding value_of
get_protocol_number h = value_of (get_elem? h.fields h.protocol_index)

unfoldable pub set_layer : CustomHeader → HeaderLayer → CustomHeader
set_layer h layer = record h { layer = layer }

unfoldable pub set_operator : CustomHeader → HeaderLayerOperator → CustomHeader
set_operator h op = record h { op = op }
