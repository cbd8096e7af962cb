-- ===== src/Controller/Entries.antt =====
-- model/p4-controller.cc: retrieval of entries.
use p4simulator.Base.{ℕ}
use p4simulator.Base.Int.{ℤ, pos}
use p4simulator.Runtime.{Types, Runtime, Reply}
use p4simulator.Runtime.Entries as Core
use p4simulator.Controller.{Controller, Told, on_core}

-- The priority of a key, where the caller names none.
abbrev default_priority : ℤ
default_priority = pos 1

module _ {T : Types} (R : Runtime T) where
  abbrev pub print_flow_entries :
      ℕ → T.Name → Controller R.State → Controller R.State × Told (Reply T)
  print_flow_entries i name c = on_core i (Core.get_flow_entries R name) c

  abbrev pub print_indirect_flow_entries :
      ℕ → T.Name → Controller R.State → Controller R.State × Told (Reply T)
  print_indirect_flow_entries i name c = on_core i (Core.get_indirect_flow_entries R name) c

  abbrev pub print_indirect_ws_flow_entries :
      ℕ → T.Name → Controller R.State → Controller R.State × Told (Reply T)
  print_indirect_ws_flow_entries i name c = on_core i (Core.get_indirect_ws_flow_entries R name) c

  abbrev pub print_entry : ℕ → T.Name → ℕ → Controller R.State → Controller R.State × Told (Reply T)
  print_entry i name handle c = on_core i (Core.get_entry R name handle) c

  abbrev pub print_default_entry :
      ℕ → T.Name → Controller R.State → Controller R.State × Told (Reply T)
  print_default_entry i name c = on_core i (Core.get_default_entry R name) c

  abbrev pub print_indirect_default_entry :
      ℕ → T.Name → Controller R.State → Controller R.State × Told (Reply T)
  print_indirect_default_entry i name c = on_core i (Core.get_indirect_default_entry R name) c

  abbrev pub print_indirect_ws_default_entry :
      ℕ → T.Name → Controller R.State → Controller R.State × Told (Reply T)
  print_indirect_ws_default_entry i name c = on_core i (Core.get_indirect_ws_default_entry R name) c

  abbrev pub print_entry_from_key :
      ℕ → T.Name → T.MatchKey → Controller R.State → Controller R.State × Told (Reply T)
  print_entry_from_key i name key c =
      on_core i (Core.get_entry_from_key R name key default_priority) c

  abbrev pub print_indirect_entry_from_key :
      ℕ → T.Name → T.MatchKey → Controller R.State → Controller R.State × Told (Reply T)
  print_indirect_entry_from_key i name key c =
      on_core i (Core.get_indirect_entry_from_key R name key default_priority) c

  abbrev pub print_indirect_ws_entry_from_key :
      ℕ → T.Name → T.MatchKey → Controller R.State → Controller R.State × Told (Reply T)
  print_indirect_ws_entry_from_key i name key c =
      on_core i (Core.get_indirect_ws_entry_from_key R name key default_priority) c
