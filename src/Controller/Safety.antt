-- ===== src/Controller/Safety.antt =====
-- model/p4-controller.cc: what every method may do.
use p4simulator.Base.{ℕ}
use p4simulator.Runtime.{Types, Runtime}
use p4simulator.Controller.{Controller}
use p4simulator.Controller.Requests.{
  TablesRequest, ProfilesRequest, IndirectRequest, EntriesRequest, CountersRequest,
  RegistersRequest, Request, get_table_entry_count, print_table_entry_count,
  clear_flow_table_entries, add_flow_entry, set_default_action, reset_default_entry,
  delete_flow_entry, modify_flow_entry, set_entry_ttl, add_action_profile_member,
  delete_action_profile_member, modify_action_profile_member, create_action_profile_group,
  delete_action_profile_group, add_member_to_group, remove_member_from_group,
  get_action_profile_members, print_action_profile_members, get_action_profile_member,
  print_action_profile_groups, get_action_profile_groups, get_action_profile_group,
  add_indirect_entry, modify_indirect_entry, delete_indirect_entry, set_indirect_entry_ttl,
  set_indirect_default_member, reset_indirect_default_entry, add_indirect_ws_entry,
  modify_indirect_ws_entry, set_indirect_ws_default_group, print_flow_entries,
  print_indirect_flow_entries, print_indirect_ws_flow_entries, print_entry, print_default_entry,
  print_indirect_default_entry, print_indirect_ws_default_entry, print_entry_from_key,
  print_indirect_entry_from_key, print_indirect_ws_entry_from_key, read_counters, reset_counters,
  write_counters, read_counter, reset_counter, write_counter, set_meter_rates,
  set_indexed_meter_rates, get_meter_rates, get_indexed_meter_rates, reset_meter_rates,
  reset_indexed_meter_rates, set_meter_array_rates, register_read, register_write,
  register_read_all, register_write_range, register_reset, parse_vset_add, parse_vset_remove,
  parse_vset_get, parse_vset_clear, reset_state, serialize, load_new_config, swap_configs,
  get_config, get_config_md5, tables, profiles, indirect, entries, counters, registers,
}
use p4simulator.Controller.Handling.{
  handle_tables, handle_profiles, handle_indirect, handle_entries, handle_counters,
  handle_registers, handle,
}
use p4simulator.Controller.Isolation.{Isolates, on_core-Isolates, or_else-Isolates}

module _ {T : Types} (R : Runtime T) where
  handle_tables-Isolates : (i : ℕ) (r : TablesRequest T) → Isolates i (handle_tables R i r)
  unfolding handle_tables
  handle_tables-Isolates i (get_table_entry_count name) =
      or_else-Isolates i _ _ (on_core-Isolates i _)
  handle_tables-Isolates i (print_table_entry_count name) = on_core-Isolates i _
  handle_tables-Isolates i (clear_flow_table_entries name reset_default) = on_core-Isolates i _
  handle_tables-Isolates i (add_flow_entry name key action action_data priority) =
      on_core-Isolates i _
  handle_tables-Isolates i (set_default_action name action action_data) = on_core-Isolates i _
  handle_tables-Isolates i (reset_default_entry name) = on_core-Isolates i _
  handle_tables-Isolates i (delete_flow_entry name handle) = on_core-Isolates i _
  handle_tables-Isolates i (modify_flow_entry name handle action action_data) = on_core-Isolates i _
  handle_tables-Isolates i (set_entry_ttl name handle ttl_ms) = on_core-Isolates i _

  handle_profiles-Isolates : (i : ℕ) (r : ProfilesRequest T) → Isolates i (handle_profiles R i r)
  unfolding handle_profiles
  handle_profiles-Isolates i (add_action_profile_member name action action_data) =
      on_core-Isolates i _
  handle_profiles-Isolates i (delete_action_profile_member name member) = on_core-Isolates i _
  handle_profiles-Isolates i (modify_action_profile_member name member action action_data) =
      on_core-Isolates i _
  handle_profiles-Isolates i (create_action_profile_group name) = on_core-Isolates i _
  handle_profiles-Isolates i (delete_action_profile_group name group) = on_core-Isolates i _
  handle_profiles-Isolates i (add_member_to_group name member group) = on_core-Isolates i _
  handle_profiles-Isolates i (remove_member_from_group name member group) = on_core-Isolates i _
  handle_profiles-Isolates i (get_action_profile_members name) =
      or_else-Isolates i _ _ (on_core-Isolates i _)
  handle_profiles-Isolates i (print_action_profile_members name) = on_core-Isolates i _
  handle_profiles-Isolates i (get_action_profile_member name member) = on_core-Isolates i _
  handle_profiles-Isolates i (print_action_profile_groups name) = on_core-Isolates i _
  handle_profiles-Isolates i (get_action_profile_groups name) = on_core-Isolates i _
  handle_profiles-Isolates i (get_action_profile_group name group) = on_core-Isolates i _

  handle_indirect-Isolates : (i : ℕ) (r : IndirectRequest T) → Isolates i (handle_indirect R i r)
  unfolding handle_indirect
  handle_indirect-Isolates i (add_indirect_entry name key member priority) = on_core-Isolates i _
  handle_indirect-Isolates i (modify_indirect_entry name handle member) = on_core-Isolates i _
  handle_indirect-Isolates i (delete_indirect_entry name handle) = on_core-Isolates i _
  handle_indirect-Isolates i (set_indirect_entry_ttl name handle ttl_ms) = on_core-Isolates i _
  handle_indirect-Isolates i (set_indirect_default_member name member) = on_core-Isolates i _
  handle_indirect-Isolates i (reset_indirect_default_entry name) = on_core-Isolates i _
  handle_indirect-Isolates i (add_indirect_ws_entry name key group priority) = on_core-Isolates i _
  handle_indirect-Isolates i (modify_indirect_ws_entry name handle group) = on_core-Isolates i _
  handle_indirect-Isolates i (set_indirect_ws_default_group name group) = on_core-Isolates i _

  handle_entries-Isolates : (i : ℕ) (r : EntriesRequest T) → Isolates i (handle_entries R i r)
  unfolding handle_entries
  handle_entries-Isolates i (print_flow_entries name) = on_core-Isolates i _
  handle_entries-Isolates i (print_indirect_flow_entries name) = on_core-Isolates i _
  handle_entries-Isolates i (print_indirect_ws_flow_entries name) = on_core-Isolates i _
  handle_entries-Isolates i (print_entry name handle) = on_core-Isolates i _
  handle_entries-Isolates i (print_default_entry name) = on_core-Isolates i _
  handle_entries-Isolates i (print_indirect_default_entry name) = on_core-Isolates i _
  handle_entries-Isolates i (print_indirect_ws_default_entry name) = on_core-Isolates i _
  handle_entries-Isolates i (print_entry_from_key name key) = on_core-Isolates i _
  handle_entries-Isolates i (print_indirect_entry_from_key name key) = on_core-Isolates i _
  handle_entries-Isolates i (print_indirect_ws_entry_from_key name key) = on_core-Isolates i _

  handle_counters-Isolates : (i : ℕ) (r : CountersRequest T) → Isolates i (handle_counters R i r)
  unfolding handle_counters
  handle_counters-Isolates i (read_counters name handle) = on_core-Isolates i _
  handle_counters-Isolates i (reset_counters name) = on_core-Isolates i _
  handle_counters-Isolates i (write_counters name handle bytes packets) = on_core-Isolates i _
  handle_counters-Isolates i (read_counter name place) = on_core-Isolates i _
  handle_counters-Isolates i (reset_counter name) = on_core-Isolates i _
  handle_counters-Isolates i (write_counter name place bytes packets) = on_core-Isolates i _
  handle_counters-Isolates i (set_meter_rates name handle configs) = on_core-Isolates i _
  handle_counters-Isolates i (set_indexed_meter_rates name handle configs) = on_core-Isolates i _
  handle_counters-Isolates i (get_meter_rates name handle) = on_core-Isolates i _
  handle_counters-Isolates i (get_indexed_meter_rates name handle) = on_core-Isolates i _
  handle_counters-Isolates i (reset_meter_rates name handle) = on_core-Isolates i _
  handle_counters-Isolates i (reset_indexed_meter_rates name handle) = on_core-Isolates i _
  handle_counters-Isolates i (set_meter_array_rates name configs) = on_core-Isolates i _

  handle_registers-Isolates : (i : ℕ) (r : RegistersRequest T) → Isolates i (handle_registers R i r)
  unfolding handle_registers
  handle_registers-Isolates i (register_read name place) = on_core-Isolates i _
  handle_registers-Isolates i (register_write name place value) = on_core-Isolates i _
  handle_registers-Isolates i (register_read_all name) = on_core-Isolates i _
  handle_registers-Isolates i (register_write_range name start stop value) = on_core-Isolates i _
  handle_registers-Isolates i (register_reset name) = on_core-Isolates i _
  handle_registers-Isolates i (parse_vset_add name bytes) = on_core-Isolates i _
  handle_registers-Isolates i (parse_vset_remove name bytes) = on_core-Isolates i _
  handle_registers-Isolates i (parse_vset_get name) = on_core-Isolates i _
  handle_registers-Isolates i (parse_vset_clear name) = on_core-Isolates i _
  handle_registers-Isolates i reset_state = on_core-Isolates i _
  handle_registers-Isolates i serialize = on_core-Isolates i _
  handle_registers-Isolates i (load_new_config config) = on_core-Isolates i _
  handle_registers-Isolates i swap_configs = on_core-Isolates i _
  handle_registers-Isolates i get_config = on_core-Isolates i _
  handle_registers-Isolates i get_config_md5 = on_core-Isolates i _

  pub handle-Isolates : (i : ℕ) (r : Request T) → Isolates i (handle R i r)
  unfolding handle
  handle-Isolates i (tables r) = handle_tables-Isolates i r
  handle-Isolates i (profiles r) = handle_profiles-Isolates i r
  handle-Isolates i (indirect r) = handle_indirect-Isolates i r
  handle-Isolates i (entries r) = handle_entries-Isolates i r
  handle-Isolates i (counters r) = handle_counters-Isolates i r
  handle-Isolates i (registers r) = handle_registers-Isolates i r
