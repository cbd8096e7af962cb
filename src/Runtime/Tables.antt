-- ===== src/Runtime/Tables.antt =====
-- model/p4-core-v1model.cc: tables of flow entries.
use p4simulator.Base.{ℕ, ◌%◌, ◌^◌, Bool, true, false}
use p4simulator.Base.Int.{ℤ, negsuc}
use p4simulator.Runtime.{Types, Runtime, Reply, num, coded, Command}
use p4simulator.SwitchDevice.{to_int}

module _ {T : Types} (R : Runtime T) where
  abbrev counted : Bool × ℕ → ℤ
  counted (false, n) = negsuc 0
  counted (true, n) = to_int (n % 2 ^ 32)

  abbrev pub get_num_entries : T.Name → R.State → R.State × Reply T
  get_num_entries name s = (s, num (counted (R.mt_get_num_entries 0 name s)))

  abbrev pub clear_flow_table_entries : T.Name → Bool → R.State → R.State × Reply T
  clear_flow_table_entries name reset_default s =
      coded R (Command.mt_clear_entries 0 name reset_default) s

  abbrev pub add_flow_entry :
      T.Name → T.MatchKey → T.Name → T.ActionData → ℤ → R.State → R.State × Reply T
  add_flow_entry name key action action_data priority s =
      coded R (Command.mt_add_entry 0 name key action action_data priority) s

  abbrev pub set_default_action : T.Name → T.Name → T.ActionData → R.State → R.State × Reply T
  set_default_action name action action_data s =
      coded R (Command.mt_set_default_action 0 name action action_data) s

  abbrev pub reset_default_entry : T.Name → R.State → R.State × Reply T
  reset_default_entry name s = coded R (Command.mt_reset_default_entry 0 name) s

  abbrev pub delete_flow_entry : T.Name → ℕ → R.State → R.State × Reply T
  delete_flow_entry name handle s = coded R (Command.mt_delete_entry 0 name handle) s

  abbrev pub modify_flow_entry : T.Name → ℕ → T.Name → T.ActionData → R.State → R.State × Reply T
  modify_flow_entry name handle action action_data s =
      coded R (Command.mt_modify_entry 0 name handle action action_data) s

  abbrev pub set_entry_ttl : T.Name → ℕ → ℕ → R.State → R.State × Reply T
  set_entry_ttl name handle ttl_ms s = coded R (Command.mt_set_entry_ttl 0 name handle ttl_ms) s
