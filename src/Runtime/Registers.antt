-- ===== src/Runtime/Registers.antt =====
-- model/p4-core-v1model.cc: registers, parser value sets and configurations.
use p4simulator.Base.{ℕ, Bool}
use p4simulator.Runtime.{Types, Runtime, Reply, coded, listed_or_thrown, got, Command}

module _ {T : Types} (R : Runtime T) where
  abbrev pub register_read : T.Name → ℕ → R.State → R.State × Reply T
  register_read name place s = coded R (Command.register_read 0 name place) s

  abbrev pub register_write : T.Name → ℕ → T.Value → R.State → R.State × Reply T
  register_write name place value s = coded R (Command.register_write 0 name place value) s

  abbrev pub register_read_all : T.Name → R.State → R.State × Reply T
  register_read_all name s = listed_or_thrown R (Command.register_read_all 0 name) s

  abbrev pub register_write_range : T.Name → ℕ → ℕ → T.Value → R.State → R.State × Reply T
  register_write_range name start stop value s =
      coded R (Command.register_write_range 0 name start stop value) s

  abbrev pub register_reset : T.Name → R.State → R.State × Reply T
  register_reset name s = coded R (Command.register_reset 0 name) s

  abbrev pub parse_vset_add : T.Name → T.ByteContainer → R.State → R.State × Reply T
  parse_vset_add name bytes s = coded R (Command.parse_vset_add 0 name bytes) s

  abbrev pub parse_vset_remove : T.Name → T.ByteContainer → R.State → R.State × Reply T
  parse_vset_remove name bytes s = coded R (Command.parse_vset_remove 0 name bytes) s

  abbrev pub parse_vset_get : T.Name → R.State → R.State × Reply T
  parse_vset_get name s = coded R (Command.parse_vset_get 0 name) s

  abbrev pub parse_vset_clear : T.Name → R.State → R.State × Reply T
  parse_vset_clear name s = coded R (Command.parse_vset_clear 0 name) s

  abbrev pub reset_state : R.State → R.State × Reply T
  reset_state s = coded R Command.reset_state s

  abbrev pub serialize : R.State → R.State × Reply T
  serialize s = coded R Command.serialize s

  abbrev pub load_new_config : T.Name → R.State → R.State × Reply T
  load_new_config config s = coded R (Command.load_new_config config) s

  abbrev pub swap_configs : R.State → R.State × Reply T
  swap_configs s = coded R Command.swap_configs s

  abbrev pub get_config : Bool → R.State → R.State × Reply T
  get_config given s = got R given Command.get_config s

  abbrev pub get_config_md5 : Bool → R.State → R.State × Reply T
  get_config_md5 given s = got R given Command.get_config_md5 s
