-- ===== src/Controller.antt =====
-- model/p4-controller.cc: the controller, with the switches that are registered. A switch is a pointer,
-- here the number of a device; the v1model core that a device has, if any, is kept apart, so that a switch
-- which is registered twice has one core. A null pointer is not registered.
pub mod Tables
pub mod Profiles
pub mod Indirect
pub mod Entries
pub mod Counters
pub mod Registers
pub mod Requests
pub mod Handling
pub mod Isolation
pub mod Safety
pub mod Independence
mod Tests
use p4simulator.Base.{
  ℕ, Bool, true, false, if◌then◌else◌, Option, none, some, List, [], ◌∷◌, ◌++◌, length, leb,
  get_elem?, update,
}
use p4simulator.Runtime.{Types, Runtime, Reply}

pub record Controller (S : Type 0) : Type 0 where
  pub switches : List ℕ
  pub cores : ℕ → Option S

-- How a method ends: with an early return, with what the core's call tells, or with an access beyond the
-- vector of switches or through a null pointer, which C++ leaves undefined.
pub data Told (A : Type 0) : Type 0 where
  invalid_index no_core undefined : Told A
  told : A → Told A

abbrev pub register_switch : {S : Type 0} → ℕ → Controller S → Controller S
register_switch sw c = record c { switches = c.switches ++ (sw ∷ []) }

abbrev get_n : {S : Type 0} → Controller S → ℕ
get_n c = length c.switches

abbrev pub has_core : {S : Type 0} → Option S → Bool
has_core none = false
has_core (some s) = true

-- The call through the pointer to the core.
unfoldable pub call_core :
    {S A : Type 0} → (S → S × A) → Controller S → ℕ → Option S → Controller S × Told A
call_core f c sw none = (c, undefined)
call_core f c sw (some s) = (record c { cores = update c.cores sw (some (f s).0) }, told (f s).1)

-- From `m_connectedSwitches[index]` on.
unfoldable pub on_switch :
    {S A : Type 0} → (S → S × A) → Controller S → Option ℕ → Controller S × Told A
on_switch f c none = (c, undefined)
on_switch f c (some sw) =
    if has_core (c.cores sw) then call_core f c sw (c.cores sw) else (c, no_core)

-- What the methods have in common: the two guards, and the call of the core's method.
unfoldable pub on_core : {S A : Type 0} → ℕ → (S → S × A) → Controller S → Controller S × Told A
on_core i f c =
    if leb (length c.switches) i then (c, invalid_index) else on_switch f c (get_elem? c.switches i)

-- A method that returns an `int` returns -1 early, one that returns a vector an empty one.
abbrev pub early : {A : Type 0} → A → Told A → Told A
early a invalid_index = told a
early a no_core = told a
early a undefined = undefined
early a (told b) = told b

unfoldable pub or_else : {S A : Type 0} → A → Controller S × Told A → Controller S × Told A
or_else a (c, r) = (c, early a r)
