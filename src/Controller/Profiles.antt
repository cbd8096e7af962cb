-- ===== src/Controller/Profiles.antt =====
-- model/p4-controller.cc: action profiles.
use p4simulator.Base.{ℕ, []}
use p4simulator.Runtime.{Types, Runtime, Reply, listed}
use p4simulator.Runtime.Profiles as Core
use p4simulator.Controller.{Controller, Told, on_core, or_else}

module _ {T : Types} (R : Runtime T) where
  abbrev pub add_action_profile_member :
      ℕ → T.Name → T.Name → T.ActionData → Controller R.State → Controller R.State × Told (Reply T)
  add_action_profile_member i name action action_data c =
      on_core i (Core.add_action_profile_member R name action action_data) c

  abbrev pub delete_action_profile_member :
      ℕ → T.Name → ℕ → Controller R.State → Controller R.State × Told (Reply T)
  delete_action_profile_member i name member c =
      on_core i (Core.delete_action_profile_member R name member) c

  abbrev pub modify_action_profile_member :
      ℕ
      → T.Name
      → ℕ
      → T.Name
      → T.ActionData
      → Controller R.State
      → Controller R.State × Told (Reply T)
  modify_action_profile_member i name member action action_data c =
      on_core i (Core.modify_action_profile_member R name member action action_data) c

  abbrev pub create_action_profile_group :
      ℕ → T.Name → Controller R.State → Controller R.State × Told (Reply T)
  create_action_profile_group i name c = on_core i (Core.create_action_profile_group R name) c

  abbrev pub delete_action_profile_group :
      ℕ → T.Name → ℕ → Controller R.State → Controller R.State × Told (Reply T)
  delete_action_profile_group i name group c =
      on_core i (Core.delete_action_profile_group R name group) c

  abbrev pub add_member_to_group :
      ℕ → T.Name → ℕ → ℕ → Controller R.State → Controller R.State × Told (Reply T)
  add_member_to_group i name member group c =
      on_core i (Core.add_member_to_group R name member group) c

  abbrev pub remove_member_from_group :
      ℕ → T.Name → ℕ → ℕ → Controller R.State → Controller R.State × Told (Reply T)
  remove_member_from_group i name member group c =
      on_core i (Core.remove_member_from_group R name member group) c

  abbrev pub get_action_profile_members :
      ℕ → T.Name → Controller R.State → Controller R.State × Told (Reply T)
  get_action_profile_members i name c =
      or_else (listed []) (on_core i (Core.get_action_profile_members R name) c)

  abbrev pub print_action_profile_members :
      ℕ → T.Name → Controller R.State → Controller R.State × Told (Reply T)
  print_action_profile_members i name c = on_core i (Core.get_action_profile_members R name) c

  abbrev pub get_action_profile_member :
      ℕ → T.Name → ℕ → Controller R.State → Controller R.State × Told (Reply T)
  get_action_profile_member i name member c =
      on_core i (Core.get_action_profile_member R name member) c

  abbrev pub print_action_profile_groups :
      ℕ → T.Name → Controller R.State → Controller R.State × Told (Reply T)
  print_action_profile_groups i name c = on_core i (Core.get_action_profile_groups R name) c

  abbrev pub get_action_profile_groups :
      ℕ → T.Name → Controller R.State → Controller R.State × Told (Reply T)
  get_action_profile_groups i name c = on_core i (Core.get_action_profile_groups R name) c

  abbrev pub get_action_profile_group :
      ℕ → T.Name → ℕ → Controller R.State → Controller R.State × Told (Reply T)
  get_action_profile_group i name group c = on_core i (Core.get_action_profile_group R name group) c
