-- ===== src/Runtime/Profiles.antt =====
-- model/p4-core-v1model.cc: action profiles.
use p4simulator.Base.{ℕ}
use p4simulator.Runtime.{Types, Runtime, Reply, coded, listed_or_thrown, Command}

module _ {T : Types} (R : Runtime T) where
  abbrev pub add_action_profile_member :
      T.Name → T.Name → T.ActionData → R.State → R.State × Reply T
  add_action_profile_member name action action_data s =
      coded R (Command.mt_act_prof_add_member 0 name action action_data) s

  abbrev pub delete_action_profile_member : T.Name → ℕ → R.State → R.State × Reply T
  delete_action_profile_member name member s =
      coded R (Command.mt_act_prof_delete_member 0 name member) s

  abbrev pub modify_action_profile_member :
      T.Name → ℕ → T.Name → T.ActionData → R.State → R.State × Reply T
  modify_action_profile_member name member action action_data s =
      coded R (Command.mt_act_prof_modify_member 0 name member action action_data) s

  abbrev pub create_action_profile_group : T.Name → R.State → R.State × Reply T
  create_action_profile_group name s = coded R (Command.mt_act_prof_create_group 0 name) s

  abbrev pub delete_action_profile_group : T.Name → ℕ → R.State → R.State × Reply T
  delete_action_profile_group name group s =
      coded R (Command.mt_act_prof_delete_group 0 name group) s

  abbrev pub add_member_to_group : T.Name → ℕ → ℕ → R.State → R.State × Reply T
  add_member_to_group name member group s =
      coded R (Command.mt_act_prof_add_member_to_group 0 name member group) s

  abbrev pub remove_member_from_group : T.Name → ℕ → ℕ → R.State → R.State × Reply T
  remove_member_from_group name member group s =
      coded R (Command.mt_act_prof_remove_member_from_group 0 name member group) s

  abbrev pub get_action_profile_members : T.Name → R.State → R.State × Reply T
  get_action_profile_members name s = listed_or_thrown R (Command.mt_act_prof_get_members 0 name) s

  abbrev pub get_action_profile_member : T.Name → ℕ → R.State → R.State × Reply T
  get_action_profile_member name member s = coded R (Command.mt_act_prof_get_member 0 name member) s

  abbrev pub get_action_profile_groups : T.Name → R.State → R.State × Reply T
  get_action_profile_groups name s = listed_or_thrown R (Command.mt_act_prof_get_groups 0 name) s

  abbrev pub get_action_profile_group : T.Name → ℕ → R.State → R.State × Reply T
  get_action_profile_group name group s = coded R (Command.mt_act_prof_get_group 0 name group) s
