-- ===== src/Runtime/Indirect.antt =====
-- model/p4-core-v1model.cc: indirect tables.
use p4simulator.Base.{ℕ}
use p4simulator.Base.Int.{ℤ}
use p4simulator.Runtime.{Types, Runtime, Reply, coded, Command}

module _ {T : Types} (R : Runtime T) where
  abbrev pub add_indirect_entry : T.Name → T.MatchKey → ℕ → ℤ → R.State → R.State × Reply T
  add_indirect_entry name key member priority s =
      coded R (Command.mt_indirect_add_entry 0 name key member priority) s

  abbrev pub modify_indirect_entry : T.Name → ℕ → ℕ → R.State → R.State × Reply T
  modify_indirect_entry name handle member s =
      coded R (Command.mt_indirect_modify_entry 0 name handle member) s

  abbrev pub delete_indirect_entry : T.Name → ℕ → R.State → R.State × Reply T
  delete_indirect_entry name handle s = coded R (Command.mt_indirect_delete_entry 0 name handle) s

  abbrev pub set_indirect_entry_ttl : T.Name → ℕ → ℕ → R.State → R.State × Reply T
  set_indirect_entry_ttl name handle ttl_ms s =
      coded R (Command.mt_indirect_set_entry_ttl 0 name handle ttl_ms) s

  abbrev pub set_indirect_default_member : T.Name → ℕ → R.State → R.State × Reply T
  set_indirect_default_member name member s =
      coded R (Command.mt_indirect_set_default_member 0 name member) s

  abbrev pub reset_indirect_default_entry : T.Name → R.State → R.State × Reply T
  reset_indirect_default_entry name s = coded R (Command.mt_indirect_reset_default_entry 0 name) s

  abbrev pub add_indirect_ws_entry : T.Name → T.MatchKey → ℕ → ℤ → R.State → R.State × Reply T
  add_indirect_ws_entry name key group priority s =
      coded R (Command.mt_indirect_ws_add_entry 0 name key group priority) s

  abbrev pub modify_indirect_ws_entry : T.Name → ℕ → ℕ → R.State → R.State × Reply T
  modify_indirect_ws_entry name handle group s =
      coded R (Command.mt_indirect_ws_modify_entry 0 name handle group) s

  abbrev pub set_indirect_ws_default_group : T.Name → ℕ → R.State → R.State × Reply T
  set_indirect_ws_default_group name group s =
      coded R (Command.mt_indirect_ws_set_default_group 0 name group) s
