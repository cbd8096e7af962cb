-- ===== src/Controller/Independence.antt =====
-- model/p4-controller.cc: sequences of calls of a controller, on several switches.
use p4simulator.Base.{
  ℕ, ◌≡◌, ◌≢◌, refl, sym, ap, ◌∙◌, Bool, true, false, if◌then◌else◌, Option, none, some, List, [],
  ◌∷◌, ◌++◌, ◌==◌, get_elem?, ℕ_discrete, ==-refl, ==-false, inl, inr, if_true, if_false, ◌⊎◌,
}
use mathlib.Core.Option.{some-injective, none-ne-some}
use p4simulator.Runtime.{Types, Runtime}
use p4simulator.Controller.{Controller, register_switch}
use p4simulator.Controller.Handling.{handle, Action, adds, asks, act, act_all}
use p4simulator.Controller.Isolation.{Isolates}
use p4simulator.Controller.Safety.{handle-Isolates}

abbrev is_switch : Option ℕ → ℕ → Bool
is_switch none sw = false
is_switch (some other) sw = other == sw

is_switch-cases :
    (o : Option ℕ) (sw : ℕ)
    → ((is_switch o sw ≡ true) × (o ≡ some sw)) ⊎ ((is_switch o sw ≡ false) × (o ≢ some sw))
is_switch-cases none sw = inr (refl, λ e. none-ne-some sw e)
is_switch-cases (some other) sw = elim (ℕ_discrete other sw) [
  | yes e ↦ inl (ap (λ n. n == sw) e ∙ ==-refl sw, ap some e)
  | no ne ↦ inr (==-false other sw ne, λ e. ne (some-injective other sw e))
]

module _ {T : Types} (R : Runtime T) where
  -- The calls that have to do with one switch: every registration, and the requests whose index is that
  -- of the switch when they are made.
  unfoldable pub for_switch : ℕ → List ℕ → List (Action R) → List (Action R)
  for_switch sw switches [] = []
  for_switch sw switches (adds new ∷ rest) = adds new ∷ for_switch sw (switches ++ (new ∷ [])) rest
  for_switch sw switches (asks i r ∷ rest) =
      let others : List (Action R) = for_switch sw switches rest in
      if is_switch (get_elem? switches i) sw then asks i r ∷ others else others

  act_all-agrees :
      (sw : ℕ) (calls : List (Action R)) (c d : Controller R.State)
      → c.switches ≡ d.switches
      → c.cores sw ≡ d.cores sw
      → (act_all R calls c).cores sw ≡ (act_all R (for_switch sw c.switches calls) d).cores sw
  unfolding act_all act for_switch
  act_all-agrees sw [] c d same e = e
  act_all-agrees sw (adds new ∷ rest) c d same e =
      act_all-agrees sw rest (register_switch new c) (register_switch new d)
        (ap (λ xs. xs ++ (new ∷ [])) same) e
  act_all-agrees sw (asks i r ∷ rest) c d same e =
      let h : Isolates i (handle R i r) = handle-Isolates R i r in
      elim (is_switch-cases (get_elem? c.switches i) sw) [
        | inl (own, at) ↦
            act_all-agrees sw rest (handle R i r c).0 (handle R i r d).0
              (h.same_switches c ∙ same ∙ sym (h.same_switches d))
              (h.alone c d sw at (ap (λ xs. get_elem? xs i) (sym same) ∙ at) e)
            ∙ ap (λ xs. (act_all R (for_switch sw xs rest) (handle R i r d).0).cores sw)
                (h.same_switches c)
            ∙ sym (
                ap (λ calls. (act_all R calls d).cores sw)
                  (if_true (is_switch (get_elem? c.switches i) sw) _ _ own))
        | inr (other, ne) ↦
            act_all-agrees sw rest (handle R i r c).0 d (h.same_switches c ∙ same)
              (h.others c sw ne ∙ e)
            ∙ ap (λ xs. (act_all R (for_switch sw xs rest) d).cores sw) (h.same_switches c)
            ∙ sym (
                ap (λ calls. (act_all R calls d).cores sw)
                  (if_false (is_switch (get_elem? c.switches i) sw) _ _ other))
      ]

  -- A switch is affected by no requests but its own: whatever is asked of other switches, and however the
  -- calls are interleaved, registrations among them, its core becomes what the registrations and the
  -- requests at its own indices, in their order, make of it; a switch may be registered more than once.
  pub act_all-for_switch :
      (sw : ℕ) (calls : List (Action R)) (c : Controller R.State)
      → (act_all R calls c).cores sw ≡ (act_all R (for_switch sw c.switches calls) c).cores sw
  act_all-for_switch sw calls c = act_all-agrees sw calls c c refl refl
