-- ===== src/SwitchCore/Mirroring.antt =====
-- model/p4-switch-core.cc, class MirroringSessions: the sessions that clones are sent by.
use p4simulator.Base.{
  ℕ, ◌≤◌, ◌≡◌, ◌↔◌, refl, ap, ◌∙◌, Bool-cases, inl, inr, Bool, true, false, Option, none, some,
  List, [], ◌∷◌, leb, if◌then◌else◌, arith,
}
use p4simulator.Base.Int.{ℤ, pos, negsuc, ◌==ℤ◌, ==ℤ_iff}

pub record MirroringSessionConfig : Type 0 where
  pub egress_port : ℕ
  pub egress_port_valid : Bool
  pub mgid : ℕ
  pub mgid_valid : Bool

-- `sessions_map`
abbrev pub Sessions : Type 0
Sessions = ℤ → Option MirroringSessionConfig

abbrev pub max_mirror_session_id : ℕ
max_mirror_session_id = 32767

in_range : ℤ → Bool
in_range (pos n) = leb n max_mirror_session_id
in_range (negsuc n) = false

-- A new switch has none.
abbrev pub none_at : Sessions
none_at j = none

unfoldable pub add_session : Sessions → ℤ → MirroringSessionConfig → Sessions × Bool
unfolding in_range
add_session s mirror_id config =
    if in_range mirror_id
    then ((λ j. if j ==ℤ mirror_id then some config else s j), true)
    else (s, false)

-- Whether there was a session to erase.
erased : Option MirroringSessionConfig → Bool
erased none = false
erased (some c) = true

unfoldable pub delete_session : Sessions → ℤ → Sessions × Bool
unfolding in_range erased
delete_session s mirror_id =
    if in_range mirror_id
    then ((λ j. if j ==ℤ mirror_id then none else s j), erased (s mirror_id))
    else (s, false)

-- The configuration, or `false`.
unfoldable pub get_session : Sessions → ℤ → Option MirroringSessionConfig
get_session s mirror_id = s mirror_id

-- Calls of `AddMirroringSession` and `DeleteMirroringSession`.
pub data Call : Type 0 where
  add : ℤ → MirroringSessionConfig → Call
  delete : ℤ → Call

unfoldable pub run : Sessions → List Call → Sessions
run s [] = s
run s (add id config ∷ cs) = run (add_session s id config).0 cs
run s (delete id ∷ cs) = run (delete_session s id).0 cs

-- What the calls, the last of them first, say of a session.
abbrev pub told : ℤ → Option MirroringSessionConfig → List Call → Option MirroringSessionConfig
told id before [] = before
told id before (add j config ∷ cs) = told id (if id ==ℤ j then some config else before) cs
told id before (delete j ∷ cs) = told id (if id ==ℤ j then none else before) cs

abbrev pub InRange : ℤ → Type 0
InRange (pos n) = n ≤ max_mirror_session_id
InRange (negsuc n) = ⊥

in_range_iff : (id : ℤ) → (in_range id ≡ true) ↔ InRange id
unfolding in_range
in_range_iff (pos n) = (λ h. ground arith, λ h. ground arith)
in_range_iff (negsuc n) = (λ h. cc, λ h. absurd h)

-- A session of a valid number is as the call says, and no call touches another.
change :
    (s : Sessions) (id j : ℤ) (new : Option MirroringSessionConfig) (b : Bool)
    → (InRange id
        → (if in_range j
              then (let t : Sessions × Bool = ((λ k. if k ==ℤ j then new else s k), b) in t)
              else (s, false)).0
            id
          ≡ (if id ==ℤ j then new else s id))
      × (¬ InRange id
          → (if in_range j
                then (let t : Sessions × Bool = ((λ k. if k ==ℤ j then new else s k), b) in t)
                else (s, false)).0
              id
            ≡ s id)
change s id j new b = elim (Bool-cases (id ==ℤ j)) [
  | inl e ↦ (
    λ h. rw (← (==ℤ_iff id j).0 e, (in_range_iff id).1 h),
    λ out. elim (Bool-cases (in_range id)) [
      | inl within ↦ absurd (out ((in_range_iff id).0 within))
      | inr outside ↦ rw (← (==ℤ_iff id j).0 e, outside)
    ],
  )
  | inr ne ↦ (λ h. ground arith, λ h. ground arith)
]

run_from :
    (cs : List Call) (s : Sessions) (id : ℤ)
    → (InRange id → get_session (run s cs) id ≡ told id (s id) cs)
      × (¬ InRange id → get_session (run s cs) id ≡ s id)
unfolding run get_session add_session delete_session
run_from [] s id = (λ h. refl, λ h. refl)
run_from (add j config ∷ cs) s id = (
  λ h.
      (run_from cs (add_session s j config).0 id).0 h
      ∙ ap (λ o. told id o cs) ((change s id j (some config) true).0 h),
  λ h. (run_from cs (add_session s j config).0 id).1 h ∙ (change s id j (some config) true).1 h,
)
run_from (delete j ∷ cs) s id = (
  λ h.
      (run_from cs (delete_session s j).0 id).0 h
      ∙ ap (λ o. told id o cs) ((change s id j none (erased (s j))).0 h),
  λ h. (run_from cs (delete_session s j).0 id).1 h ∙ (change s id j none (erased (s j))).1 h,
)

-- After any calls of `AddMirroringSession` and `DeleteMirroringSession` on a new switch, a session
-- whose number is between 0 and 32767 is as the last call for it says, and there is none of any
-- other number.
pub run-told :
    (cs : List Call) (id : ℤ)
    → (InRange id → get_session (run none_at cs) id ≡ told id none cs)
      × (¬ InRange id → get_session (run none_at cs) id ≡ none)
run-told cs id = run_from cs none_at id
