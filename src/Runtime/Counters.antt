-- ===== src/Runtime/Counters.antt =====
-- model/p4-core-v1model.cc: counters and meters.
use p4simulator.Base.{ℕ}
use p4simulator.Runtime.{Types, Runtime, Reply, coded, Command}

module _ {T : Types} (R : Runtime T) where
  abbrev pub read_table_counters : T.Name → ℕ → R.State → R.State × Reply T
  read_table_counters name handle s = coded R (Command.mt_read_counters 0 name handle) s

  abbrev pub reset_table_counters : T.Name → R.State → R.State × Reply T
  reset_table_counters name s = coded R (Command.mt_reset_counters 0 name) s

  abbrev pub write_table_counters : T.Name → ℕ → ℕ → ℕ → R.State → R.State × Reply T
  write_table_counters name handle bytes packets s =
      coded R (Command.mt_write_counters 0 name handle bytes packets) s

  abbrev pub read_counter : T.Name → ℕ → R.State → R.State × Reply T
  read_counter name place s = coded R (Command.read_counters 0 name place) s

  abbrev pub reset_counter : T.Name → R.State → R.State × Reply T
  reset_counter name s = coded R (Command.reset_counters 0 name) s

  abbrev pub write_counter : T.Name → ℕ → ℕ → ℕ → R.State → R.State × Reply T
  write_counter name place bytes packets s =
      coded R (Command.write_counters 0 name place bytes packets) s

  abbrev pub set_meter_rates : T.Name → ℕ → T.RateConfigs → R.State → R.State × Reply T
  set_meter_rates name handle configs s =
      coded R (Command.mt_set_meter_rates 0 name handle configs) s

  abbrev pub get_meter_rates : T.Name → ℕ → R.State → R.State × Reply T
  get_meter_rates name handle s = coded R (Command.mt_get_meter_rates 0 name handle) s

  abbrev pub reset_meter_rates : T.Name → ℕ → R.State → R.State × Reply T
  reset_meter_rates name handle s = coded R (Command.mt_reset_meter_rates 0 name handle) s

  abbrev pub set_meter_array_rates : T.Name → T.RateConfigs → R.State → R.State × Reply T
  set_meter_array_rates name configs s = coded R (Command.meter_array_set_rates 0 name configs) s

  abbrev meter_set_rates : T.Name → ℕ → T.RateConfigs → R.State → R.State × Reply T
  meter_set_rates name place configs s = coded R (Command.meter_set_rates 0 name place configs) s

  abbrev meter_get_rates : T.Name → ℕ → R.State → R.State × Reply T
  meter_get_rates name place s = coded R (Command.meter_get_rates 0 name place) s

  abbrev meter_reset_rates : T.Name → ℕ → R.State → R.State × Reply T
  meter_reset_rates name place s = coded R (Command.meter_reset_rates 0 name place) s
