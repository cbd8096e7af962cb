-- ===== src/Controller/Indirect.antt =====
-- model/p4-controller.cc: indirect tables.
use p4simulator.Base.{ℕ}
use p4simulator.Base.Int.{ℤ}
use p4simulator.Runtime.{Types, Runtime, Reply}
use p4simulator.Runtime.Indirect as Core
use p4simulator.Controller.{Controller, Told, on_core}

module _ {T : Types} (R : Runtime T) where
  abbrev pub add_indirect_entry :
      ℕ → T.Name → T.MatchKey → ℕ → ℤ → Controller R.State → Controller R.State × Told (Reply T)
  add_indirect_entry i name key member priority c =
      on_core i (Core.add_indirect_entry R name key member priority) c

  abbrev pub modify_indirect_entry :
      ℕ → T.Name → ℕ → ℕ → Controller R.State → Controller R.State × Told (Reply T)
  modify_indirect_entry i name handle member c =
      on_core i (Core.modify_indirect_entry R name handle member) c

  abbrev pub delete_indirect_entry :
      ℕ → T.Name → ℕ → Controller R.State → Controller R.State × Told (Reply T)
  delete_indirect_entry i name handle c = on_core i (Core.delete_indirect_entry R name handle) c

  abbrev pub set_indirect_entry_ttl :
      ℕ → T.Name → ℕ → ℕ → Controller R.State → Controller R.State × Told (Reply T)
  set_indirect_entry_ttl i name handle ttl_ms c =
      on_core i (Core.set_indirect_entry_ttl R name handle ttl_ms) c

  abbrev pub set_indirect_default_member :
      ℕ → T.Name → ℕ → Controller R.State → Controller R.State × Told (Reply T)
  set_indirect_default_member i name member c =
      on_core i (Core.set_indirect_default_member R name member) c

  abbrev pub reset_indirect_default_entry :
      ℕ → T.Name → Controller R.State → Controller R.State × Told (Reply T)
  reset_indirect_default_entry i name c = on_core i (Core.reset_indirect_default_entry R name) c

  abbrev pub add_indirect_ws_entry :
      ℕ → T.Name → T.MatchKey → ℕ → ℤ → Controller R.State → Controller R.State × Told (Reply T)
  add_indirect_ws_entry i name key group priority c =
      on_core i (Core.add_indirect_ws_entry R name key group priority) c

  abbrev pub modify_indirect_ws_entry :
      ℕ → T.Name → ℕ → ℕ → Controller R.State → Controller R.State × Told (Reply T)
  modify_indirect_ws_entry i name handle group c =
      on_core i (Core.modify_indirect_ws_entry R name handle group) c

  abbrev pub set_indirect_ws_default_group :
      ℕ → T.Name → ℕ → Controller R.State → Controller R.State × Told (Reply T)
  set_indirect_ws_default_group i name group c =
      on_core i (Core.set_indirect_ws_default_group R name group) c
