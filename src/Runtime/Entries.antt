-- ===== src/Runtime/Entries.antt =====
-- model/p4-core-v1model.cc: retrieval of entries.
use p4simulator.Base.{ℕ}
use p4simulator.Base.Int.{ℤ}
use p4simulator.Runtime.{Types, Runtime, Reply, coded, listed_or_empty, Command}

module _ {T : Types} (R : Runtime T) where
  abbrev pub get_flow_entries : T.Name → R.State → R.State × Reply T
  get_flow_entries name s = listed_or_empty R (Command.mt_get_entries 0 name) s

  abbrev pub get_indirect_flow_entries : T.Name → R.State → R.State × Reply T
  get_indirect_flow_entries name s = listed_or_empty R (Command.mt_indirect_get_entries 0 name) s

  abbrev pub get_indirect_ws_flow_entries : T.Name → R.State → R.State × Reply T
  get_indirect_ws_flow_entries name s =
      listed_or_empty R (Command.mt_indirect_ws_get_entries 0 name) s

  abbrev pub get_entry : T.Name → ℕ → R.State → R.State × Reply T
  get_entry name handle s = coded R (Command.mt_get_entry 0 name handle) s

  abbrev get_indirect_entry : T.Name → ℕ → R.State → R.State × Reply T
  get_indirect_entry name handle s = coded R (Command.mt_indirect_get_entry 0 name handle) s

  abbrev get_indirect_ws_entry : T.Name → ℕ → R.State → R.State × Reply T
  get_indirect_ws_entry name handle s = coded R (Command.mt_indirect_ws_get_entry 0 name handle) s

  abbrev pub get_default_entry : T.Name → R.State → R.State × Reply T
  get_default_entry name s = coded R (Command.mt_get_default_entry 0 name) s

  abbrev pub get_indirect_default_entry : T.Name → R.State → R.State × Reply T
  get_indirect_default_entry name s = coded R (Command.mt_indirect_get_default_entry 0 name) s

  abbrev pub get_indirect_ws_default_entry : T.Name → R.State → R.State × Reply T
  get_indirect_ws_default_entry name s = coded R (Command.mt_indirect_ws_get_default_entry 0 name) s

  abbrev pub get_entry_from_key : T.Name → T.MatchKey → ℤ → R.State → R.State × Reply T
  get_entry_from_key name key priority s =
      coded R (Command.mt_get_entry_from_key 0 name key priority) s

  abbrev pub get_indirect_entry_from_key : T.Name → T.MatchKey → ℤ → R.State → R.State × Reply T
  get_indirect_entry_from_key name key priority s =
      coded R (Command.mt_indirect_get_entry_from_key 0 name key priority) s

  abbrev pub get_indirect_ws_entry_from_key : T.Name → T.MatchKey → ℤ → R.State → R.State × Reply T
  get_indirect_ws_entry_from_key name key priority s =
      coded R (Command.mt_indirect_ws_get_entry_from_key 0 name key priority) s
