-- ===== src/Controller/Tables.antt =====
-- model/p4-controller.cc: tables of flow entries.
use p4simulator.Base.{ℕ, Bool}
use p4simulator.Base.Int.{ℤ, negsuc}
use p4simulator.Runtime.{Types, Runtime, Reply, num}
use p4simulator.Runtime.Tables as Core
use p4simulator.Controller.{Controller, Told, on_core, or_else}

module _ {T : Types} (R : Runtime T) where
  abbrev pub get_table_entry_count :
      ℕ → T.Name → Controller R.State → Controller R.State × Told (Reply T)
  get_table_entry_count i name c =
      or_else (num (negsuc 0)) (on_core i (Core.get_num_entries R name) c)

  abbrev pub print_table_entry_count :
      ℕ → T.Name → Controller R.State → Controller R.State × Told (Reply T)
  print_table_entry_count i name c = on_core i (Core.get_num_entries R name) c

  abbrev pub clear_flow_table_entries :
      ℕ → T.Name → Bool → Controller R.State → Controller R.State × Told (Reply T)
  clear_flow_table_entries i name reset_default c =
      on_core i (Core.clear_flow_table_entries R name reset_default) c

  abbrev pub add_flow_entry :
      ℕ
      → T.Name
      → T.MatchKey
      → T.Name
      → T.ActionData
      → ℤ
      → Controller R.State
      → Controller R.State × Told (Reply T)
  add_flow_entry i name key action action_data priority c =
      on_core i (Core.add_flow_entry R name key action action_data priority) c

  abbrev pub set_default_action :
      ℕ → T.Name → T.Name → T.ActionData → Controller R.State → Controller R.State × Told (Reply T)
  set_default_action i name action action_data c =
      on_core i (Core.set_default_action R name action action_data) c

  abbrev pub reset_default_entry :
      ℕ → T.Name → Controller R.State → Controller R.State × Told (Reply T)
  reset_default_entry i name c = on_core i (Core.reset_default_entry R name) c

  abbrev pub delete_flow_entry :
      ℕ → T.Name → ℕ → Controller R.State → Controller R.State × Told (Reply T)
  delete_flow_entry i name handle c = on_core i (Core.delete_flow_entry R name handle) c

  abbrev pub modify_flow_entry :
      ℕ
      → T.Name
      → ℕ
      → T.Name
      → T.ActionData
      → Controller R.State
      → Controller R.State × Told (Reply T)
  modify_flow_entry i name handle action action_data c =
      on_core i (Core.modify_flow_entry R name handle action action_data) c

  abbrev pub set_entry_ttl :
      ℕ → T.Name → ℕ → ℕ → Controller R.State → Controller R.State × Told (Reply T)
  set_entry_ttl i name handle ttl_ms c = on_core i (Core.set_entry_ttl R name handle ttl_ms) c
