-- ===== src/Controller/Counters.antt =====
-- model/p4-controller.cc: counters and meters.
use p4simulator.Base.{ℕ}
use p4simulator.Runtime.{Types, Runtime, Reply}
use p4simulator.Runtime.Counters as Core
use p4simulator.Controller.{Controller, Told, on_core}

module _ {T : Types} (R : Runtime T) where
  abbrev pub read_counters :
      ℕ → T.Name → ℕ → Controller R.State → Controller R.State × Told (Reply T)
  read_counters i name handle c = on_core i (Core.read_table_counters R name handle) c

  abbrev pub reset_counters : ℕ → T.Name → Controller R.State → Controller R.State × Told (Reply T)
  reset_counters i name c = on_core i (Core.reset_table_counters R name) c

  abbrev pub write_counters :
      ℕ → T.Name → ℕ → ℕ → ℕ → Controller R.State → Controller R.State × Told (Reply T)
  write_counters i name handle bytes packets c =
      on_core i (Core.write_table_counters R name handle bytes packets) c

  abbrev pub read_counter :
      ℕ → T.Name → ℕ → Controller R.State → Controller R.State × Told (Reply T)
  read_counter i name place c = on_core i (Core.read_counter R name place) c

  abbrev pub reset_counter : ℕ → T.Name → Controller R.State → Controller R.State × Told (Reply T)
  reset_counter i name c = on_core i (Core.reset_counter R name) c

  abbrev pub write_counter :
      ℕ → T.Name → ℕ → ℕ → ℕ → Controller R.State → Controller R.State × Told (Reply T)
  write_counter i name place bytes packets c =
      on_core i (Core.write_counter R name place bytes packets) c

  abbrev pub set_meter_rates :
      ℕ → T.Name → ℕ → T.RateConfigs → Controller R.State → Controller R.State × Told (Reply T)
  set_meter_rates i name handle configs c = on_core i (Core.set_meter_rates R name handle configs) c

  abbrev pub set_indexed_meter_rates :
      ℕ → T.Name → ℕ → T.RateConfigs → Controller R.State → Controller R.State × Told (Reply T)
  set_indexed_meter_rates i name handle configs c =
      on_core i (Core.set_meter_rates R name handle configs) c

  abbrev pub get_meter_rates :
      ℕ → T.Name → ℕ → Controller R.State → Controller R.State × Told (Reply T)
  get_meter_rates i name handle c = on_core i (Core.get_meter_rates R name handle) c

  abbrev pub get_indexed_meter_rates :
      ℕ → T.Name → ℕ → Controller R.State → Controller R.State × Told (Reply T)
  get_indexed_meter_rates i name handle c = on_core i (Core.get_meter_rates R name handle) c

  abbrev pub reset_meter_rates :
      ℕ → T.Name → ℕ → Controller R.State → Controller R.State × Told (Reply T)
  reset_meter_rates i name handle c = on_core i (Core.reset_meter_rates R name handle) c

  abbrev pub reset_indexed_meter_rates :
      ℕ → T.Name → ℕ → Controller R.State → Controller R.State × Told (Reply T)
  reset_indexed_meter_rates i name handle c = on_core i (Core.reset_meter_rates R name handle) c

  abbrev pub set_meter_array_rates :
      ℕ → T.Name → T.RateConfigs → Controller R.State → Controller R.State × Told (Reply T)
  set_meter_array_rates i name configs c = on_core i (Core.set_meter_array_rates R name configs) c
