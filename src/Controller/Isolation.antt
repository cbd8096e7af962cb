-- ===== src/Controller/Isolation.antt =====
-- model/p4-controller.cc: what a method does to the switch of its index, and to the others.
use p4simulator.Base.{
  ℕ, zero, suc, ◌≤◌, ◌<◌, ◌≡◌, ◌≢◌, refl, sym, ap, ◌∙◌, ◌⊎◌, inl, inr, Bool, true, false, ◌==◌, leb,
  if◌then◌else◌, Option, none, some, List, [], ◌∷◌, length, get_elem?, update, arith, ==-refl,
  ==-false, Option-cases, Bool-cases, if_true, if_false,
}
use mathlib.Core.Option.{some-injective, none-ne-some}
use p4simulator.Controller.{
  Controller, Told, invalid_index, no_core, undefined, told, has_core, call_core, on_switch,
  on_core, early, or_else,
}

-- There is no switch of the index, or it has no v1model core.
abbrev pub Absent : {S : Type 0} → ℕ → Controller S → Type 0
Absent i c =
    (length c.switches ≤ i) ⊎ ((sw : ℕ) × (get_elem? c.switches i ≡ some sw) × (c.cores sw ≡ none))

abbrev pub is_defined : {A : Type 0} → Told A → Bool
is_defined undefined = false
is_defined invalid_index = true
is_defined no_core = true
is_defined (told a) = true

-- A method on the switch `i`: it registers no switch, leaves the cores of other switches alone, does not
-- go beyond the vector or through a null pointer, changes nothing where there is no core, and what
-- becomes of the core depends on the core alone.
pub record Isolates {S A : Type 0} (i : ℕ) (f : Controller S → Controller S × Told A) : Type 0 where
  pub same_switches : (c : Controller S) → (f c).0.switches ≡ c.switches
  pub others :
      (c : Controller S) (sw : ℕ) → get_elem? c.switches i ≢ some sw → (f c).0.cores sw ≡ c.cores sw
  pub defined : (c : Controller S) → is_defined (f c).1 ≡ true
  pub absent : (c : Controller S) → Absent i c → (f c).0 ≡ c
  pub alone :
      (c d : Controller S) (sw : ℕ)
      → get_elem? c.switches i ≡ some sw
      → get_elem? d.switches i ≡ some sw
      → c.cores sw ≡ d.cores sw
      → (f c).0.cores sw ≡ (f d).0.cores sw

get_elem?-there : (xs : List ℕ) (i : ℕ) → i < length xs → (x : ℕ) × (get_elem? xs i ≡ some x)
get_elem?-there [] i lt = absurd (omega (arith, lt))
get_elem?-there (x ∷ xs) zero lt = (x, refl)
get_elem?-there (x ∷ xs) (suc i) lt = get_elem?-there xs i (omega (arith, lt))

get_elem?-beyond : (xs : List ℕ) (i : ℕ) → length xs ≤ i → get_elem? xs i ≡ none
get_elem?-beyond [] i le = refl
get_elem?-beyond (x ∷ xs) zero le = absurd (omega (arith, le))
get_elem?-beyond (x ∷ xs) (suc i) le = get_elem?-beyond xs i (omega (arith, le))

leb-le : (m n : ℕ) → leb m n ≡ true → m ≤ n
leb-le m n e = ground (arith, e)

leb-lt : (m n : ℕ) → leb m n ≡ false → n < m
leb-lt m n e = ground (arith, e)

leb-within : (m n : ℕ) → n < m → leb m n ≡ false
leb-within m n lt = ground (arith, lt)

module _ {S A : Type 0} (i : ℕ) (f : S → S × A) (c : Controller S) where
  -- The three ways in which a method ends.
  abbrev Refused : Type 0
  Refused = (length c.switches ≤ i) × (on_core i f c ≡ (c, invalid_index))

  abbrev Coreless : Type 0
  Coreless =
      (sw : ℕ) × (get_elem? c.switches i ≡ some sw)
      × (c.cores sw ≡ none)
      × (on_core i f c ≡ (c, no_core))

  abbrev Called : Type 0
  Called =
      (sw : ℕ) × (s : S) × (get_elem? c.switches i ≡ some sw)
      × (c.cores sw ≡ some s)
      × (on_core i f c ≡ (record c { cores = update c.cores sw (some (f s).0) }, told (f s).1))

  on_switch-at :
      (sw : ℕ)
      → i < length c.switches
      → get_elem? c.switches i ≡ some sw
      → on_core i f c ≡ on_switch f c (some sw)
  unfolding on_core
  on_switch-at sw lt at = rw (leb-within (length c.switches) i lt) (ap (on_switch f c) at)

  on_switch-ends :
      (sw : ℕ) → i < length c.switches → get_elem? c.switches i ≡ some sw → Coreless ⊎ Called
  unfolding on_switch call_core
  on_switch-ends sw lt at = elim (Option-cases (c.cores sw)) [
    | inl gone ↦ inl (
      sw,
      at,
      gone,
      on_switch-at sw lt at
          ∙ ap (λ o. if has_core o then call_core f c sw o else (c, no_core)) gone,
    )
    | inr (s, is_s) ↦ inr (
      sw,
      s,
      at,
      is_s,
      on_switch-at sw lt at
          ∙ ap (λ o. if has_core o then call_core f c sw o else (c, no_core)) is_s,
    )
  ]

  on_core-ends : Refused ⊎ (Coreless ⊎ Called)
  unfolding on_core
  on_core-ends = elim (Bool-cases (leb (length c.switches) i)) [
    | inl beyond ↦ inl (leb-le (length c.switches) i beyond, rw beyond refl)
    | inr within ↦
        let lt : i < length c.switches = leb-lt (length c.switches) i within in
        let (sw, at) = get_elem?-there c.switches i lt in inr (on_switch-ends sw lt at)
  ]

some-same : (a b : ℕ) → some a ≡ some b → a ≡ b
some-same a b e = some-injective a b e

module _ {S A : Type 0} (i : ℕ) (f : S → S × A) where
  on_core-switches : (c : Controller S) → (on_core i f c).0.switches ≡ c.switches
  on_core-switches c = elim (on_core-ends i f c) [
    | inl (le, e) ↦ ap (λ r. r.0.switches) e
    | inr (inl (sw, at, gone, e)) ↦ ap (λ r. r.0.switches) e
    | inr (inr (sw, s, at, is_s, e)) ↦ ap (λ r. r.0.switches) e
  ]

  on_core-defined : (c : Controller S) → is_defined (on_core i f c).1 ≡ true
  on_core-defined c = elim (on_core-ends i f c) [
    | inl (le, e) ↦ ap (λ r. is_defined r.1) e
    | inr (inl (sw, at, gone, e)) ↦ ap (λ r. is_defined r.1) e
    | inr (inr (sw, s, at, is_s, e)) ↦ ap (λ r. is_defined r.1) e
  ]

  on_core-others :
      (c : Controller S) (sw : ℕ)
      → get_elem? c.switches i ≢ some sw
      → (on_core i f c).0.cores sw ≡ c.cores sw
  on_core-others c sw ne = elim (on_core-ends i f c) [
    | inl (le, e) ↦ ap (λ r. r.0.cores sw) e
    | inr (inl (sw', at, gone, e)) ↦ ap (λ r. r.0.cores sw) e
    | inr (inr (sw', s, at, is_s, e)) ↦
        ap (λ r. r.0.cores sw) e
        ∙ if_false (sw == sw') (some (f s).0) (c.cores sw)
            (==-false sw sw' (λ same. ne (at ∙ ap some (sym same))))
  ]

  on_core-Absent : (c : Controller S) → Absent i c → (on_core i f c).0 ≡ c
  on_core-Absent c gone = elim (on_core-ends i f c) [
    | inl (le, e) ↦ ap (λ r. r.0) e
    | inr (inl (sw, at, none_there, e)) ↦ ap (λ r. r.0) e
    | inr (inr (sw, s, at, is_s, e)) ↦ elim gone [
      | inl le ↦ absurd (none-ne-some sw (sym (get_elem?-beyond c.switches i le) ∙ at))
      | inr (sw', at', empty) ↦
          absurd (none-ne-some s (sym empty ∙ ap c.cores (some-same sw' sw (sym at' ∙ at)) ∙ is_s))
    ]
  ]

  -- What becomes of a core.
  abbrev after : Option S → Option S
  after none = none
  after (some s) = some (f s).0

  on_core-after :
      (c : Controller S) (sw : ℕ)
      → get_elem? c.switches i ≡ some sw
      → (on_core i f c).0.cores sw ≡ after (c.cores sw)
  on_core-after c sw here = elim (on_core-ends i f c) [
    | inl (le, e) ↦ absurd (none-ne-some sw (sym (get_elem?-beyond c.switches i le) ∙ here))
    | inr (inl (sw', at, gone, e)) ↦
        let empty : c.cores sw ≡ none = ap c.cores (some-same sw sw' (sym here ∙ at)) ∙ gone in
        ap (λ r. r.0.cores sw) e ∙ empty ∙ sym (ap after empty)
    | inr (inr (sw', s, at, is_s, e)) ↦
        let same : sw ≡ sw' = some-same sw sw' (sym here ∙ at) in
        ap (λ r. r.0.cores sw) e
        ∙ if_true (sw == sw') (some (f s).0) (c.cores sw)
            (ap (λ n. sw == n) (sym same) ∙ ==-refl sw)
        ∙ sym (ap after (ap c.cores same ∙ is_s))
  ]

  pub on_core-Isolates : Isolates i (on_core i f)
  on_core-Isolates = record {
    same_switches = on_core-switches;
    others = on_core-others;
    defined = on_core-defined;
    absent = on_core-Absent;
    alone = λ c d sw at at' e. on_core-after c sw at ∙ ap after e ∙ sym (on_core-after d sw at');
  }

early-defined :
    {A : Type 0} (a : A) (r : Told A) → is_defined r ≡ true → is_defined (early a r) ≡ true
early-defined a invalid_index e = refl
early-defined a no_core e = refl
early-defined a undefined e = e
early-defined a (told b) e = refl

module _ {S A : Type 0} (a : A) where
  or_else-controller : (p : Controller S × Told A) → (or_else a p).0 ≡ p.0
  unfolding or_else
  or_else-controller (c, r) = refl

  or_else-defined :
      (p : Controller S × Told A) → is_defined p.1 ≡ true → is_defined (or_else a p).1 ≡ true
  unfolding or_else
  or_else-defined (c, r) e = early-defined a r e

pub or_else-Isolates :
    {S A : Type 0} (i : ℕ) (a : A) (f : Controller S → Controller S × Told A)
    → Isolates i f
    → Isolates i (λ c. or_else a (f c))
or_else-Isolates i a f h = record {
  same_switches = λ c. ap (λ d. d.switches) (or_else-controller a (f c)) ∙ h.same_switches c;
  others = λ c sw ne. ap (λ d. d.cores sw) (or_else-controller a (f c)) ∙ h.others c sw ne;
  defined = λ c. or_else-defined a (f c) (h.defined c);
  absent = λ c gone. or_else-controller a (f c) ∙ h.absent c gone;
  alone = λ c d sw at at' e.
      ap (λ b. b.cores sw) (or_else-controller a (f c))
      ∙ h.alone c d sw at at' e
      ∙ sym (ap (λ b. b.cores sw) (or_else-controller a (f d)));
}
