-- ===== src/Controller/Tests.antt =====
-- model/p4-controller.cc: a controller of three switches; a core is its registers, of one name.
use p4simulator.Base.{
  ℕ, ◌≡◌, refl, true, false, if◌then◌else◌, Option, none, some, List, [], ◌∷◌, update, ◌==◌,
}
use p4simulator.Base.Int.{pos}
use p4simulator.Runtime.{Types, Runtime, Ran, Command, status}
use p4simulator.Controller.{Controller, told, on_core, on_switch, call_core}
use p4simulator.Controller.Requests as Asked
use p4simulator.Controller.Handling.{handle, handle_registers, Action, adds, asks, act, act_all}
use p4simulator.Controller.Independence.{for_switch, act_all-for_switch}

abbrev types : Types
types = record {
  Name = ℕ;
  MatchKey = ℕ;
  ActionData = ℕ;
  RateConfigs = ℕ;
  ByteContainer = ℕ;
  Value = ℕ;
}

abbrev ran_on : Command types → (ℕ → ℕ) → Ran types (ℕ → ℕ)
ran_on c s = elim c [
  | Command.register_write context name place v ↦ record {
    after = update s place v;
    success = true;
    out = none;
  }
  | Command.register_read context name place ↦ record {
    after = s;
    success = true;
    out = some (s place);
  }
  | _ ↦ record { after = s; success = false; out = none }
]

abbrev registers_only : Runtime types
registers_only = record {
  State = ℕ → ℕ;
  run = ran_on;
  mt_get_num_entries = λ context name s. (false, 0);
  read = λ c s. none;
  get = λ c s. 0;
}

abbrev blank : ℕ → ℕ
blank i = 0

abbrev kept_core : ℕ → Option (ℕ → ℕ)
kept_core sw = if sw == 41 then none else some blank

-- Device 40 is registered twice, and device 41 has no v1model core.
abbrev three_switches : Controller (ℕ → ℕ)
three_switches = record { switches = 40 ∷ 41 ∷ 40 ∷ []; cores = kept_core }

abbrev write_request : ℕ → Asked.Request types
write_request v = Asked.Request.registers (Asked.RegistersRequest.register_write 7 2 v)

abbrev read_request : Asked.Request types
read_request = Asked.Request.registers (Asked.RegistersRequest.register_read 7 2)

abbrev interleaved : List (Action registers_only)
interleaved =
    asks 2 (write_request 8) ∷ adds 42 ∷ asks 3 (write_request 5) ∷ asks 0 read_request ∷ []

-- The register is read by the other index of the device.
read_back :
    (handle registers_only 0 read_request (act_all registers_only interleaved three_switches)).1
    ≡ told (status (pos 0) (some 8))
unfolding handle handle_registers act_all act on_core on_switch call_core
read_back = refl

own_calls :
    for_switch registers_only 40 three_switches.switches interleaved
    ≡ asks 2 (write_request 8) ∷ adds 42 ∷ asks 0 read_request ∷ []
unfolding for_switch
own_calls = refl

act_all-for_switch_example :
    (act_all registers_only interleaved three_switches).cores 40
    ≡ (act_all registers_only
          (for_switch registers_only 40 three_switches.switches interleaved)
          three_switches).cores
        40
act_all-for_switch_example = act_all-for_switch registers_only 40 interleaved three_switches
