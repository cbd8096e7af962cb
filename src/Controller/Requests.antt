-- ===== src/Controller/Requests.antt =====
-- model/p4-controller.cc: the methods that a caller may call on one switch.
use p4simulator.Base.{ℕ, Bool}
use p4simulator.Base.Int.{ℤ}
use p4simulator.Runtime.{Types}

pub data TablesRequest (T : Types) : Type 0 where
  get_table_entry_count : T.Name → TablesRequest T
  print_table_entry_count : T.Name → TablesRequest T
  clear_flow_table_entries : T.Name → Bool → TablesRequest T
  add_flow_entry : T.Name → T.MatchKey → T.Name → T.ActionData → ℤ → TablesRequest T
  set_default_action : T.Name → T.Name → T.ActionData → TablesRequest T
  reset_default_entry : T.Name → TablesRequest T
  delete_flow_entry : T.Name → ℕ → TablesRequest T
  modify_flow_entry : T.Name → ℕ → T.Name → T.ActionData → TablesRequest T
  set_entry_ttl : T.Name → ℕ → ℕ → TablesRequest T

pub data ProfilesRequest (T : Types) : Type 0 where
  add_action_profile_member : T.Name → T.Name → T.ActionData → ProfilesRequest T
  delete_action_profile_member : T.Name → ℕ → ProfilesRequest T
  modify_action_profile_member : T.Name → ℕ → T.Name → T.ActionData → ProfilesRequest T
  create_action_profile_group : T.Name → ProfilesRequest T
  delete_action_profile_group : T.Name → ℕ → ProfilesRequest T
  add_member_to_group : T.Name → ℕ → ℕ → ProfilesRequest T
  remove_member_from_group : T.Name → ℕ → ℕ → ProfilesRequest T
  get_action_profile_members : T.Name → ProfilesRequest T
  print_action_profile_members : T.Name → ProfilesRequest T
  get_action_profile_member : T.Name → ℕ → ProfilesRequest T
  print_action_profile_groups : T.Name → ProfilesRequest T
  get_action_profile_groups : T.Name → ProfilesRequest T
  get_action_profile_group : T.Name → ℕ → ProfilesRequest T

pub data IndirectRequest (T : Types) : Type 0 where
  add_indirect_entry : T.Name → T.MatchKey → ℕ → ℤ → IndirectRequest T
  modify_indirect_entry : T.Name → ℕ → ℕ → IndirectRequest T
  delete_indirect_entry : T.Name → ℕ → IndirectRequest T
  set_indirect_entry_ttl : T.Name → ℕ → ℕ → IndirectRequest T
  set_indirect_default_member : T.Name → ℕ → IndirectRequest T
  reset_indirect_default_entry : T.Name → IndirectRequest T
  add_indirect_ws_entry : T.Name → T.MatchKey → ℕ → ℤ → IndirectRequest T
  modify_indirect_ws_entry : T.Name → ℕ → ℕ → IndirectRequest T
  set_indirect_ws_default_group : T.Name → ℕ → IndirectRequest T

pub data EntriesRequest (T : Types) : Type 0 where
  print_flow_entries : T.Name → EntriesRequest T
  print_indirect_flow_entries : T.Name → EntriesRequest T
  print_indirect_ws_flow_entries : T.Name → EntriesRequest T
  print_entry : T.Name → ℕ → EntriesRequest T
  print_default_entry : T.Name → EntriesRequest T
  print_indirect_default_entry : T.Name → EntriesRequest T
  print_indirect_ws_default_entry : T.Name → EntriesRequest T
  print_entry_from_key : T.Name → T.MatchKey → EntriesRequest T
  print_indirect_entry_from_key : T.Name → T.MatchKey → EntriesRequest T
  print_indirect_ws_entry_from_key : T.Name → T.MatchKey → EntriesRequest T

pub data CountersRequest (T : Types) : Type 0 where
  read_counters : T.Name → ℕ → CountersRequest T
  reset_counters : T.Name → CountersRequest T
  write_counters : T.Name → ℕ → ℕ → ℕ → CountersRequest T
  read_counter : T.Name → ℕ → CountersRequest T
  reset_counter : T.Name → CountersRequest T
  write_counter : T.Name → ℕ → ℕ → ℕ → CountersRequest T
  set_meter_rates : T.Name → ℕ → T.RateConfigs → CountersRequest T
  set_indexed_meter_rates : T.Name → ℕ → T.RateConfigs → CountersRequest T
  get_meter_rates : T.Name → ℕ → CountersRequest T
  get_indexed_meter_rates : T.Name → ℕ → CountersRequest T
  reset_meter_rates : T.Name → ℕ → CountersRequest T
  reset_indexed_meter_rates : T.Name → ℕ → CountersRequest T
  set_meter_array_rates : T.Name → T.RateConfigs → CountersRequest T

pub data RegistersRequest (T : Types) : Type 0 where
  register_read : T.Name → ℕ → RegistersRequest T
  register_write : T.Name → ℕ → T.Value → RegistersRequest T
  register_read_all : T.Name → RegistersRequest T
  register_write_range : T.Name → ℕ → ℕ → T.Value → RegistersRequest T
  register_reset : T.Name → RegistersRequest T
  parse_vset_add : T.Name → T.ByteContainer → RegistersRequest T
  parse_vset_remove : T.Name → T.ByteContainer → RegistersRequest T
  parse_vset_get : T.Name → RegistersRequest T
  parse_vset_clear : T.Name → RegistersRequest T
  reset_state : RegistersRequest T
  serialize : RegistersRequest T
  load_new_config : T.Name → RegistersRequest T
  swap_configs : RegistersRequest T
  get_config : RegistersRequest T
  get_config_md5 : RegistersRequest T

pub data Request (T : Types) : Type 0 where
  tables : TablesRequest T → Request T
  profiles : ProfilesRequest T → Request T
  indirect : IndirectRequest T → Request T
  entries : EntriesRequest T → Request T
  counters : CountersRequest T → Request T
  registers : RegistersRequest T → Request T
