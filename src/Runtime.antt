-- ===== src/Runtime.antt =====
-- model/p4-core-v1model.cc: the run-time calls of a v1model core. The packet library's run-time interface is
-- a parameter; a core's call hands one command to it and turns its error code into 0 or -1.
pub mod Tables
pub mod Profiles
pub mod Indirect
pub mod Entries
pub mod Counters
pub mod Registers
use p4simulator.Base.{ℕ, Bool, true, false, if◌then◌else◌, Option, none, some, List, []}
use p4simulator.Base.Int.{ℤ, pos, negsuc}

-- The library's types: texts, match keys, action data, meter rates, byte containers, and what it reads out.
pub record Types : Type 1 where
  pub Name : Type 0
  pub MatchKey : Type 0
  pub ActionData : Type 0
  pub RateConfigs : Type 0
  pub ByteContainer : Type 0
  pub Value : Type 0

-- The calls of the interface; the first number is the context.
pub data Command (T : Types) : Type 0 where
  mt_clear_entries : ℕ → T.Name → Bool → Command T
  mt_add_entry : ℕ → T.Name → T.MatchKey → T.Name → T.ActionData → ℤ → Command T
  mt_set_default_action : ℕ → T.Name → T.Name → T.ActionData → Command T
  mt_reset_default_entry : ℕ → T.Name → Command T
  mt_delete_entry : ℕ → T.Name → ℕ → Command T
  mt_modify_entry : ℕ → T.Name → ℕ → T.Name → T.ActionData → Command T
  mt_set_entry_ttl : ℕ → T.Name → ℕ → ℕ → Command T
  mt_act_prof_add_member : ℕ → T.Name → T.Name → T.ActionData → Command T
  mt_act_prof_delete_member : ℕ → T.Name → ℕ → Command T
  mt_act_prof_modify_member : ℕ → T.Name → ℕ → T.Name → T.ActionData → Command T
  mt_act_prof_create_group : ℕ → T.Name → Command T
  mt_act_prof_delete_group : ℕ → T.Name → ℕ → Command T
  mt_act_prof_add_member_to_group : ℕ → T.Name → ℕ → ℕ → Command T
  mt_act_prof_remove_member_from_group : ℕ → T.Name → ℕ → ℕ → Command T
  mt_act_prof_get_members : ℕ → T.Name → Command T
  mt_act_prof_get_member : ℕ → T.Name → ℕ → Command T
  mt_act_prof_get_groups : ℕ → T.Name → Command T
  mt_act_prof_get_group : ℕ → T.Name → ℕ → Command T
  mt_indirect_add_entry : ℕ → T.Name → T.MatchKey → ℕ → ℤ → Command T
  mt_indirect_modify_entry : ℕ → T.Name → ℕ → ℕ → Command T
  mt_indirect_delete_entry : ℕ → T.Name → ℕ → Command T
  mt_indirect_set_entry_ttl : ℕ → T.Name → ℕ → ℕ → Command T
  mt_indirect_set_default_member : ℕ → T.Name → ℕ → Command T
  mt_indirect_reset_default_entry : ℕ → T.Name → Command T
  mt_indirect_ws_add_entry : ℕ → T.Name → T.MatchKey → ℕ → ℤ → Command T
  mt_indirect_ws_modify_entry : ℕ → T.Name → ℕ → ℕ → Command T
  mt_indirect_ws_set_default_group : ℕ → T.Name → ℕ → Command T
  mt_get_entries : ℕ → T.Name → Command T
  mt_indirect_get_entries : ℕ → T.Name → Command T
  mt_indirect_ws_get_entries : ℕ → T.Name → Command T
  mt_get_entry : ℕ → T.Name → ℕ → Command T
  mt_indirect_get_entry : ℕ → T.Name → ℕ → Command T
  mt_indirect_ws_get_entry : ℕ → T.Name → ℕ → Command T
  mt_get_default_entry : ℕ → T.Name → Command T
  mt_indirect_get_default_entry : ℕ → T.Name → Command T
  mt_indirect_ws_get_default_entry : ℕ → T.Name → Command T
  mt_get_entry_from_key : ℕ → T.Name → T.MatchKey → ℤ → Command T
  mt_indirect_get_entry_from_key : ℕ → T.Name → T.MatchKey → ℤ → Command T
  mt_indirect_ws_get_entry_from_key : ℕ → T.Name → T.MatchKey → ℤ → Command T
  mt_read_counters : ℕ → T.Name → ℕ → Command T
  mt_reset_counters : ℕ → T.Name → Command T
  mt_write_counters : ℕ → T.Name → ℕ → ℕ → ℕ → Command T
  read_counters : ℕ → T.Name → ℕ → Command T
  reset_counters : ℕ → T.Name → Command T
  write_counters : ℕ → T.Name → ℕ → ℕ → ℕ → Command T
  mt_set_meter_rates : ℕ → T.Name → ℕ → T.RateConfigs → Command T
  mt_get_meter_rates : ℕ → T.Name → ℕ → Command T
  mt_reset_meter_rates : ℕ → T.Name → ℕ → Command T
  meter_array_set_rates : ℕ → T.Name → T.RateConfigs → Command T
  meter_set_rates : ℕ → T.Name → ℕ → T.RateConfigs → Command T
  meter_get_rates : ℕ → T.Name → ℕ → Command T
  meter_reset_rates : ℕ → T.Name → ℕ → Command T
  register_read : ℕ → T.Name → ℕ → Command T
  register_write : ℕ → T.Name → ℕ → T.Value → Command T
  register_read_all : ℕ → T.Name → Command T
  register_write_range : ℕ → T.Name → ℕ → ℕ → T.Value → Command T
  register_reset : ℕ → T.Name → Command T
  parse_vset_add : ℕ → T.Name → T.ByteContainer → Command T
  parse_vset_remove : ℕ → T.Name → T.ByteContainer → Command T
  parse_vset_get : ℕ → T.Name → Command T
  parse_vset_clear : ℕ → T.Name → Command T
  reset_state : Command T
  serialize : Command T
  load_new_config : T.Name → Command T
  swap_configs : Command T
  get_config : Command T
  get_config_md5 : Command T

-- What a call leaves: the state, whether its error code is SUCCESS, and what it wrote to its out-parameters.
pub record Ran (T : Types) (State : Type 0) : Type 0 where
  pub after : State
  pub success : Bool
  pub out : Option T.Value

-- A list is `none` when the library throws an exception.
pub record Runtime (T : Types) : Type 1 where
  pub State : Type 0
  pub run : Command T → State → Ran T State
  pub mt_get_num_entries : ℕ → T.Name → State → Bool × ℕ
  pub read : Command T → State → Option (List T.Value)
  pub get : Command T → State → T.Value

-- What a core's call returns: a status with what was written out, a number, a list, or an exception.
pub data Reply (T : Types) : Type 0 where
  status : ℤ → Option T.Value → Reply T
  num : ℤ → Reply T
  listed : List T.Value → Reply T
  thrown : Reply T

module _ {T : Types} (R : Runtime T) where
  abbrev told_by : Ran T R.State → R.State × Reply T
  told_by ran = (ran.after, status (if ran.success then pos 0 else negsuc 0) ran.out)

  abbrev pub coded : Command T → R.State → R.State × Reply T
  coded c s = told_by (R.run c s)

  -- An exception passes on.
  abbrev pub listed_or_thrown : Command T → R.State → R.State × Reply T
  listed_or_thrown c s = (s, elim (R.read c s) [ none ↦ thrown | some l ↦ listed l ])

  -- An exception is caught.
  abbrev pub listed_or_empty : Command T → R.State → R.State × Reply T
  listed_or_empty c s = (s, elim (R.read c s) [ none ↦ listed [] | some l ↦ listed l ])

  -- `false` for a null pointer to the text.
  abbrev pub got : Bool → Command T → R.State → R.State × Reply T
  got false c s = (s, status (negsuc 0) none)
  got true c s = (s, status (pos 0) (some (R.get c s)))
