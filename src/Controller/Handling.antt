-- ===== src/Controller/Handling.antt =====
-- model/p4-controller.cc: what a request does to the switches.
use p4simulator.Base.{ℕ, List, [], ◌∷◌}
use p4simulator.Runtime.{Types, Runtime, Reply}
use p4simulator.Controller.{Controller, Told, register_switch}
use p4simulator.Controller.Requests.{
  TablesRequest, ProfilesRequest, IndirectRequest, EntriesRequest, CountersRequest,
  RegistersRequest, Request, get_table_entry_count, print_table_entry_count,
  clear_flow_table_entries, add_flow_entry, set_default_action, reset_default_entry,
  delete_flow_entry, modify_flow_entry, set_entry_ttl, add_action_profile_member,
  delete_action_profile_member, modify_action_profile_member, create_action_profile_group,
  delete_action_profile_group, add_member_to_group, remove_member_from_group,
  get_action_profile_members, print_action_profile_members, get_action_profile_member,
  print_action_profile_groups, get_action_profile_groups, get_action_profile_group,
  add_indirect_entry, modify_indirect_entry, delete_indirect_entry, set_indirect_entry_ttl,
  set_indirect_default_member, reset_indirect_default_entry, add_indirect_ws_entry,
  modify_indirect_ws_entry, set_indirect_ws_default_group, print_flow_entries,
  print_indirect_flow_entries, print_indirect_ws_flow_entries, print_entry, print_default_entry,
  print_indirect_default_entry, print_indirect_ws_default_entry, print_entry_from_key,
  print_indirect_entry_from_key, print_indirect_ws_entry_from_key, read_counters, reset_counters,
  write_counters, read_counter, reset_counter, write_counter, set_meter_rates,
  set_indexed_meter_rates, get_meter_rates, get_indexed_meter_rates, reset_meter_rates,
  reset_indexed_meter_rates, set_meter_array_rates, register_read, register_write,
  register_read_all, register_write_range, register_reset, parse_vset_add, parse_vset_remove,
  parse_vset_get, parse_vset_clear, reset_state, serialize, load_new_config, swap_configs,
  get_config, get_config_md5, tables, profiles, indirect, entries, counters, registers,
}
use p4simulator.Controller.Tables as OnTables
use p4simulator.Controller.Profiles as OnProfiles
use p4simulator.Controller.Indirect as OnIndirect
use p4simulator.Controller.Entries as OnEntries
use p4simulator.Controller.Counters as OnCounters
use p4simulator.Controller.Registers as OnRegisters

module _ {T : Types} (R : Runtime T) where
  unfoldable pub handle_tables :
      ℕ → TablesRequest T → Controller R.State → Controller R.State × Told (Reply T)
  handle_tables i (get_table_entry_count name) c = OnTables.get_table_entry_count R i name c
  handle_tables i (print_table_entry_count name) c = OnTables.print_table_entry_count R i name c
  handle_tables i (clear_flow_table_entries name reset_default) c =
      OnTables.clear_flow_table_entries R i name reset_default c
  handle_tables i (add_flow_entry name key action action_data priority) c =
      OnTables.add_flow_entry R i name key action action_data priority c
  handle_tables i (set_default_action name action action_data) c =
      OnTables.set_default_action R i name action action_data c
  handle_tables i (reset_default_entry name) c = OnTables.reset_default_entry R i name c
  handle_tables i (delete_flow_entry name handle) c = OnTables.delete_flow_entry R i name handle c
  handle_tables i (modify_flow_entry name handle action action_data) c =
      OnTables.modify_flow_entry R i name handle action action_data c
  handle_tables i (set_entry_ttl name handle ttl_ms) c =
      OnTables.set_entry_ttl R i name handle ttl_ms c

  unfoldable pub handle_profiles :
      ℕ → ProfilesRequest T → Controller R.State → Controller R.State × Told (Reply T)
  handle_profiles i (add_action_profile_member name action action_data) c =
      OnProfiles.add_action_profile_member R i name action action_data c
  handle_profiles i (delete_action_profile_member name member) c =
      OnProfiles.delete_action_profile_member R i name member c
  handle_profiles i (modify_action_profile_member name member action action_data) c =
      OnProfiles.modify_action_profile_member R i name member action action_data c
  handle_profiles i (create_action_profile_group name) c =
      OnProfiles.create_action_profile_group R i name c
  handle_profiles i (delete_action_profile_group name group) c =
      OnProfiles.delete_action_profile_group R i name group c
  handle_profiles i (add_member_to_group name member group) c =
      OnProfiles.add_member_to_group R i name member group c
  handle_profiles i (remove_member_from_group name member group) c =
      OnProfiles.remove_member_from_group R i name member group c
  handle_profiles i (get_action_profile_members name) c =
      OnProfiles.get_action_profile_members R i name c
  handle_profiles i (print_action_profile_members name) c =
      OnProfiles.print_action_profile_members R i name c
  handle_profiles i (get_action_profile_member name member) c =
      OnProfiles.get_action_profile_member R i name member c
  handle_profiles i (print_action_profile_groups name) c =
      OnProfiles.print_action_profile_groups R i name c
  handle_profiles i (get_action_profile_groups name) c =
      OnProfiles.get_action_profile_groups R i name c
  handle_profiles i (get_action_profile_group name group) c =
      OnProfiles.get_action_profile_group R i name group c

  unfoldable pub handle_indirect :
      ℕ → IndirectRequest T → Controller R.State → Controller R.State × Told (Reply T)
  handle_indirect i (add_indirect_entry name key member priority) c =
      OnIndirect.add_indirect_entry R i name key member priority c
  handle_indirect i (modify_indirect_entry name handle member) c =
      OnIndirect.modify_indirect_entry R i name handle member c
  handle_indirect i (delete_indirect_entry name handle) c =
      OnIndirect.delete_indirect_entry R i name handle c
  handle_indirect i (set_indirect_entry_ttl name handle ttl_ms) c =
      OnIndirect.set_indirect_entry_ttl R i name handle ttl_ms c
  handle_indirect i (set_indirect_default_member name member) c =
      OnIndirect.set_indirect_default_member R i name member c
  handle_indirect i (reset_indirect_default_entry name) c =
      OnIndirect.reset_indirect_default_entry R i name c
  handle_indirect i (add_indirect_ws_entry name key group priority) c =
      OnIndirect.add_indirect_ws_entry R i name key group priority c
  handle_indirect i (modify_indirect_ws_entry name handle group) c =
      OnIndirect.modify_indirect_ws_entry R i name handle group c
  handle_indirect i (set_indirect_ws_default_group name group) c =
      OnIndirect.set_indirect_ws_default_group R i name group c

  unfoldable pub handle_entries :
      ℕ → EntriesRequest T → Controller R.State → Controller R.State × Told (Reply T)
  handle_entries i (print_flow_entries name) c = OnEntries.print_flow_entries R i name c
  handle_entries i (print_indirect_flow_entries name) c =
      OnEntries.print_indirect_flow_entries R i name c
  handle_entries i (print_indirect_ws_flow_entries name) c =
      OnEntries.print_indirect_ws_flow_entries R i name c
  handle_entries i (print_entry name handle) c = OnEntries.print_entry R i name handle c
  handle_entries i (print_default_entry name) c = OnEntries.print_default_entry R i name c
  handle_entries i (print_indirect_default_entry name) c =
      OnEntries.print_indirect_default_entry R i name c
  handle_entries i (print_indirect_ws_default_entry name) c =
      OnEntries.print_indirect_ws_default_entry R i name c
  handle_entries i (print_entry_from_key name key) c = OnEntries.print_entry_from_key R i name key c
  handle_entries i (print_indirect_entry_from_key name key) c =
      OnEntries.print_indirect_entry_from_key R i name key c
  handle_entries i (print_indirect_ws_entry_from_key name key) c =
      OnEntries.print_indirect_ws_entry_from_key R i name key c

  unfoldable pub handle_counters :
      ℕ → CountersRequest T → Controller R.State → Controller R.State × Told (Reply T)
  handle_counters i (read_counters name handle) c = OnCounters.read_counters R i name handle c
  handle_counters i (reset_counters name) c = OnCounters.reset_counters R i name c
  handle_counters i (write_counters name handle bytes packets) c =
      OnCounters.write_counters R i name handle bytes packets c
  handle_counters i (read_counter name place) c = OnCounters.read_counter R i name place c
  handle_counters i (reset_counter name) c = OnCounters.reset_counter R i name c
  handle_counters i (write_counter name place bytes packets) c =
      OnCounters.write_counter R i name place bytes packets c
  handle_counters i (set_meter_rates name handle configs) c =
      OnCounters.set_meter_rates R i name handle configs c
  handle_counters i (set_indexed_meter_rates name handle configs) c =
      OnCounters.set_indexed_meter_rates R i name handle configs c
  handle_counters i (get_meter_rates name handle) c = OnCounters.get_meter_rates R i name handle c
  handle_counters i (get_indexed_meter_rates name handle) c =
      OnCounters.get_indexed_meter_rates R i name handle c
  handle_counters i (reset_meter_rates name handle) c =
      OnCounters.reset_meter_rates R i name handle c
  handle_counters i (reset_indexed_meter_rates name handle) c =
      OnCounters.reset_indexed_meter_rates R i name handle c
  handle_counters i (set_meter_array_rates name configs) c =
      OnCounters.set_meter_array_rates R i name configs c

  unfoldable pub handle_registers :
      ℕ → RegistersRequest T → Controller R.State → Controller R.State × Told (Reply T)
  handle_registers i (register_read name place) c = OnRegisters.register_read R i name place c
  handle_registers i (register_write name place value) c =
      OnRegisters.register_write R i name place value c
  handle_registers i (register_read_all name) c = OnRegisters.register_read_all R i name c
  handle_registers i (register_write_range name start stop value) c =
      OnRegisters.register_write_range R i name start stop value c
  handle_registers i (register_reset name) c = OnRegisters.register_reset R i name c
  handle_registers i (parse_vset_add name bytes) c = OnRegisters.parse_vset_add R i name bytes c
  handle_registers i (parse_vset_remove name bytes) c =
      OnRegisters.parse_vset_remove R i name bytes c
  handle_registers i (parse_vset_get name) c = OnRegisters.parse_vset_get R i name c
  handle_registers i (parse_vset_clear name) c = OnRegisters.parse_vset_clear R i name c
  handle_registers i reset_state c = OnRegisters.reset_state R i c
  handle_registers i serialize c = OnRegisters.serialize R i c
  handle_registers i (load_new_config config) c = OnRegisters.load_new_config R i config c
  handle_registers i swap_configs c = OnRegisters.swap_configs R i c
  handle_registers i get_config c = OnRegisters.get_config R i c
  handle_registers i get_config_md5 c = OnRegisters.get_config_md5 R i c

  unfoldable pub handle : ℕ → Request T → Controller R.State → Controller R.State × Told (Reply T)
  handle i (tables r) c = handle_tables i r c
  handle i (profiles r) c = handle_profiles i r c
  handle i (indirect r) c = handle_indirect i r c
  handle i (entries r) c = handle_entries i r c
  handle i (counters r) c = handle_counters i r c
  handle i (registers r) c = handle_registers i r c

  -- The calls of a controller, and a sequence of them.
  pub data Action : Type 0 where
    adds : ℕ → Action
    asks : ℕ → Request T → Action

  unfoldable pub act : Action → Controller R.State → Controller R.State
  act (adds sw) c = register_switch sw c
  act (asks i r) c = (handle i r c).0

  unfoldable pub act_all : List Action → Controller R.State → Controller R.State
  act_all [] c = c
  act_all (a ∷ rest) c = act_all rest (act a c)
