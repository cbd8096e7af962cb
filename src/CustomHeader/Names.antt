-- ===== src/CustomHeader/Names.antt =====
-- model/custom-header.cc: fields by their names, `AddField`, `SetField` and `GetField`.
use p4simulator.Base.{
  ℕ, ◌^◌, ◌≤◌, ◌<◌, ◌≡◌, ◌≢◌, refl, ap, sym, ◌∙◌, List, [], ◌∷◌, Bool-cases, inl, inr, leb,
  if◌then◌else◌, Option, Option-cases, none, some, arith,
}
use p4simulator.Base.Text.{Text, same, same_iff}
use p4simulator.CustomHeader.{
  Field, CustomHeader, Result, done, invalid_argument, out_of_range, undefined, kept, set_in,
  get_in, with_fields, set_field, get_field,
}
use p4simulator.CustomHeader.RoundTrip.{Fit, SameShape, same_shape}

-- The first field of a name.
abbrev pub named : List Field → Text → Option Field
named [] name = none
named (f ∷ fs) name = if same f.name name then some f else named fs name

-- The fields after `SetField`.
abbrev pub replaced : List Field → Text → ℕ → List Field
replaced [] name value = []
replaced (f ∷ fs) name value =
    if same f.name name then record f { value = value } ∷ fs else (f ∷ replaced fs name value)

-- How `SetField` ends, from the field it finds.
abbrev pub outcome : Option Field → ℕ → List Field → Result (List Field)
outcome none value after = invalid_argument
outcome (some f) value after =
    if leb 64 f.bit_width
    then undefined
    else if leb (2 ^ f.bit_width) value
    then out_of_range
    else done after

kept-outcome :
    (f : Field) (o : Option Field) (value : ℕ) (after : List Field)
    → kept f (outcome o value after) ≡ outcome o value (f ∷ after)
unfolding kept
kept-outcome f none value after = refl
kept-outcome f (some g) value after = ground arith

set_in_lem :
    (fs : List Field) (name : Text) (value : ℕ)
    → set_in fs name value ≡ outcome (named fs name) value (replaced fs name value)
unfolding set_in
set_in_lem [] name value = refl
set_in_lem (f ∷ fs) name value =
    ground (
      arith,
      set_in_lem fs name value,
      kept-outcome f (named fs name) value (replaced fs name value),
    )

-- What is read by a name.
abbrev pub read : Option Field → Result ℕ
read none = invalid_argument
read (some f) = done f.value

get_in_lem : (fs : List Field) (name : Text) → get_in fs name ≡ read (named fs name)
unfolding get_in
get_in_lem [] name = refl
get_in_lem (f ∷ fs) name = ground (arith, get_in_lem fs name)

-- The field that was found has the value, and no other changes.
abbrev pub Replaces : List Field → Text → ℕ → Type 0
Replaces fs name value =
    ((f : Field) → named fs name ≡ some f → get_in (replaced fs name value) name ≡ done value)
    × ((other : Text) → other ≢ name → get_in (replaced fs name value) other ≡ get_in fs other)
    × SameShape (replaced fs name value) fs

replaced-Replaces : (fs : List Field) (name : Text) (value : ℕ) → Replaces fs name value
unfolding get_in
replaced-Replaces [] name value = (λ f h. cc, λ other h. refl, tt)
replaced-Replaces (f ∷ fs) name value =
    let (found, others, shape) = replaced-Replaces fs name value in
    (
      λ g h. ground (arith, found g),
      λ other h. ground (arith, others other h, same_iff f.name name, same_iff f.name other),
      elim (Bool-cases (same f.name name)) [
        | inl e ↦ rw e (refl, refl, same_shape fs)
        | inr e ↦ rw e (refl, refl, shape)
      ],
    )

-- A value that `SetField` takes fits.
replaced-Fit :
    (fs : List Field) (name : Text) (value : ℕ)
    → ((f : Field) → named fs name ≡ some f → value < 2 ^ f.bit_width)
    → Fit fs
    → Fit (replaced fs name value)
replaced-Fit [] name value small fit = tt
replaced-Fit (f ∷ fs) name value small ((narrow, fits), fit) =
    elim (Bool-cases (same f.name name)) [
      | inl e ↦ rw e ((narrow, small f (rw e refl)), fit)
      | inr e ↦ rw e ((narrow, fits), replaced-Fit fs name value (λ g h. small g (rw e h)) fit)
    ]

set_fields :
    (h : CustomHeader) (name : Text) (value : ℕ)
    → set_field h name value
      ≡ with_fields h (outcome (named h.fields name) value (replaced h.fields name value))
unfolding set_field
set_fields h name value = ap (with_fields h) (set_in_lem h.fields name value)

-- `SetField` throws `std::invalid_argument` where `GetField` does. Where it finds a field, the first
-- of that name, its end depends on that field's width: a shift that is undefined for 64 bits, and
-- for less `std::out_of_range` just for a value that the width does not hold.
pub set_field_ends :
    (h : CustomHeader) (name : Text) (value : ℕ)
    → (get_field h name ≡ invalid_argument → set_field h name value ≡ invalid_argument)
      × ((f : Field)
          → named h.fields name ≡ some f
          → (64 ≤ f.bit_width → set_field h name value ≡ undefined)
            × (f.bit_width < 64 → 2 ^ f.bit_width ≤ value → set_field h name value ≡ out_of_range)
            × (f.bit_width < 64
                → value < 2 ^ f.bit_width
                → set_field h name value
                  ≡ done (record h { fields = replaced h.fields name value })))
unfolding get_field with_fields
set_field_ends h name value = (
  λ e. ground (
    arith,
    set_fields h name value,
    get_in_lem h.fields name,
    Option-cases (named h.fields name),
  ),
  λ f e.
      let ends : set_field h name value
          ≡ with_fields h (outcome (some f) value (replaced h.fields name value)) =
        set_fields h name value
        ∙ ap (λ o. with_fields h (outcome o value (replaced h.fields name value))) e in
      (
        λ wide. ends ∙ ground arith,
        λ narrow large. ends ∙ ground arith,
        λ narrow small. ends ∙ ground arith,
      ),
)

record Returned (h after : CustomHeader) (name : Text) (value : ℕ) : Type 0 where
  field : Field
  found : named h.fields name ≡ some field
  small : value < 2 ^ field.bit_width
  same_as : after ≡ record h { fields = replaced h.fields name value }

returned :
    (h after : CustomHeader) (name : Text) (value : ℕ)
    → set_field h name value ≡ done after
    → Returned h after name value
unfolding with_fields
returned h after name value r = elim (Option-cases (named h.fields name)) [
  | inl e ↦ absurd (ground (arith, set_fields h name value))
  | inr (f, e) ↦ record {
    field = f;
    found = e;
    small = ground (arith, set_fields h name value);
    same_as = ground (arith, set_fields h name value);
  }
]

-- Where `SetField` returns, the field reads as the value, every other name reads as before, and
-- fields that fitted their widths fit them still.
pub get-set_field_by_name :
    (h after : CustomHeader) (name : Text) (value : ℕ)
    → set_field h name value ≡ done after
    → (get_field after name ≡ done value)
      × ((other : Text) → other ≢ name → get_field after other ≡ get_field h other)
      × SameShape after.fields h.fields
      × (Fit h.fields → Fit after.fields)
unfolding get_field with_fields
get-set_field_by_name h after name value returns =
    let t : Returned h after name value = returned h after name value returns in
    let (found, others, shape) = replaced-Replaces h.fields name value in
    rw t.same_as (
      found t.field t.found,
      others,
      shape,
      replaced-Fit h.fields name value (λ f e.
          let same_field : some f ≡ some t.field = sym e ∙ t.found in
          let s = t.small in ground arith),
    )
