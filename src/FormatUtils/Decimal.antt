-- ===== src/FormatUtils/Decimal.antt =====
-- utils/format-utils.cc: a number printed by `UintToString` is read back by `StrToInt`.
use p4simulator.Base.{
  ℕ, zero, suc, ◌+◌, ◌*◌, ◌/◌, ◌%◌, ◌^◌, ◌≤◌, ◌<◌, ◌≡◌, refl, ap, sym, ◌∙◌, Bool-cases, inl, inr,
  Option, none, some, [], ◌∷◌, ◌++◌, ltb, Option-cases, arith,
}
use native.Mathlib.Nat.{pow-suc}
use p4simulator.Base.Text.{Text}
use p4simulator.FormatUtils.{is_digit, after_prefix, hex_mark, binary_mark}
use p4simulator.FormatUtils.Numbers.{
  digits_from, decimal_digit, or_zero, str_to_int, str_to_int_by, decimal, uint_to_string,
}

-- A digit at the end.
pub digits_from-snoc :
    (base : ℕ) (digit : ℕ → Option ℕ) (cs : Text) (res n c d : ℕ)
    → digits_from base digit res cs ≡ some n
    → digit c ≡ some d
    → digits_from base digit res (cs ++ (c ∷ [])) ≡ some ((n * base + d) % 2 ^ 32)
unfolding digits_from
digits_from-snoc base digit [] res n c d h e = let same : res ≡ n = cc in rw (e, same) refl
digits_from-snoc base digit (x ∷ cs) res n c d h e = elim (Option-cases (digit x)) [
  | inl bad ↦
      let step : digits_from base digit res (x ∷ cs) ≡ none = rw (bad, digits_from) refl in
      absurd (cc)
  | inr (v, ev) ↦
      let step : digits_from base digit res (x ∷ cs)
          ≡ digits_from base digit ((res * base + v) % 2 ^ 32) cs =
        rw (ev, digits_from) refl in
      rw (ev, digits_from)
        (digits_from-snoc base digit cs ((res * base + v) % 2 ^ 32) n c d (sym step ∙ h) e)
]

decimal_digit_lem : (d : ℕ) → d < 10 → decimal_digit (48 + d) ≡ some d
unfolding decimal_digit is_digit
decimal_digit_lem d h = ground arith

-- Digits whose number fits are read as it.
decimal-digits_from :
    (fuel n : ℕ)
    → n < 10 ^ fuel
    → n < 2 ^ 32
    → digits_from 10 decimal_digit 0 (decimal fuel n) ≡ some n
unfolding decimal digits_from
decimal-digits_from zero n h small = ap some (omega arith)
decimal-digits_from (suc fuel) n h small = elim (Bool-cases (ltb n 10)) [
  | inl e ↦ rw e (
      digits_from-snoc 10 decimal_digit [] 0 0 (48 + n) n refl (decimal_digit_lem n (ground arith))
      ∙ ap some (ground arith))
  | inr e ↦ rw e (
      digits_from-snoc 10 decimal_digit (decimal fuel (n / 10)) 0 (n / 10) (48 + n % 10) (n % 10)
        (decimal-digits_from fuel (n / 10) (omega (arith, pow-suc 10 fuel)) (omega arith))
        (decimal_digit_lem (n % 10) (omega arith))
      ∙ ap some (omega arith))
]

-- Characters that are no letters.
abbrev Letterless : Text → Type 0
Letterless [] = Unit
Letterless (c ∷ cs) = (c < 58) × Letterless cs

Letterless-snoc : (cs : Text) (c : ℕ) → Letterless cs → c < 58 → Letterless (cs ++ (c ∷ []))
Letterless-snoc [] c h p = (p, tt)
Letterless-snoc (x ∷ cs) c (hx, h) p = (hx, Letterless-snoc cs c h p)

decimal-Letterless : (fuel n : ℕ) → Letterless (decimal fuel n)
unfolding decimal
decimal-Letterless zero n = tt
decimal-Letterless (suc fuel) n = elim (Bool-cases (ltb n 10)) [
  | inl e ↦ rw e (ground arith, tt)
  | inr e ↦ rw e (
      Letterless-snoc (decimal fuel (n / 10)) (48 + n % 10) (decimal-Letterless fuel (n / 10))
        (omega arith))
]

after_prefix-Letterless :
    (mark : ℕ) (cs : Text) → 58 ≤ mark → Letterless cs → after_prefix mark cs ≡ none
unfolding after_prefix
after_prefix-Letterless mark [] h l = refl
after_prefix-Letterless mark (a ∷ []) h l = refl
after_prefix-Letterless mark (a ∷ b ∷ cs) h (ha, (hb, l)) = ground arith

-- `StrToInt` reads what `UintToString` prints, for every `unsigned int`.
pub str_to_int-uint_to_string : (n : ℕ) → n < 2 ^ 32 → str_to_int (uint_to_string n) ≡ n
unfolding str_to_int str_to_int_by uint_to_string or_zero
str_to_int-uint_to_string n small =
    rw
      (
        after_prefix-Letterless hex_mark (decimal 10 n) (omega arith) (decimal-Letterless 10 n),
        after_prefix-Letterless binary_mark (decimal 10 n) (omega arith) (decimal-Letterless 10 n),
        decimal-digits_from 10 n (omega arith) small,
      )
      refl
