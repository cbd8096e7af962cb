-- ===== src/Controller/Registers.antt =====
-- model/p4-controller.cc: registers, parser value sets and configurations.
use p4simulator.Base.{ℕ, true}
use p4simulator.Runtime.{Types, Runtime, Reply}
use p4simulator.Runtime.Registers as Core
use p4simulator.Controller.{Controller, Told, on_core}

module _ {T : Types} (R : Runtime T) where
  abbrev pub register_read :
      ℕ → T.Name → ℕ → Controller R.State → Controller R.State × Told (Reply T)
  register_read i name place c = on_core i (Core.register_read R name place) c

  abbrev pub register_write :
      ℕ → T.Name → ℕ → T.Value → Controller R.State → Controller R.State × Told (Reply T)
  register_write i name place value c = on_core i (Core.register_write R name place value) c

  abbrev pub register_read_all :
      ℕ → T.Name → Controller R.State → Controller R.State × Told (Reply T)
  register_read_all i name c = on_core i (Core.register_read_all R name) c

  abbrev pub register_write_range :
      ℕ → T.Name → ℕ → ℕ → T.Value → Controller R.State → Controller R.State × Told (Reply T)
  register_write_range i name start stop value c =
      on_core i (Core.register_write_range R name start stop value) c

  abbrev pub register_reset : ℕ → T.Name → Controller R.State → Controller R.State × Told (Reply T)
  register_reset i name c = on_core i (Core.register_reset R name) c

  abbrev pub parse_vset_add :
      ℕ → T.Name → T.ByteContainer → Controller R.State → Controller R.State × Told (Reply T)
  parse_vset_add i name bytes c = on_core i (Core.parse_vset_add R name bytes) c

  abbrev pub parse_vset_remove :
      ℕ → T.Name → T.ByteContainer → Controller R.State → Controller R.State × Told (Reply T)
  parse_vset_remove i name bytes c = on_core i (Core.parse_vset_remove R name bytes) c

  abbrev pub parse_vset_get : ℕ → T.Name → Controller R.State → Controller R.State × Told (Reply T)
  parse_vset_get i name c = on_core i (Core.parse_vset_get R name) c

  abbrev pub parse_vset_clear :
      ℕ → T.Name → Controller R.State → Controller R.State × Told (Reply T)
  parse_vset_clear i name c = on_core i (Core.parse_vset_clear R name) c

  abbrev pub reset_state : ℕ → Controller R.State → Controller R.State × Told (Reply T)
  reset_state i c = on_core i (Core.reset_state R) c

  abbrev pub serialize : ℕ → Controller R.State → Controller R.State × Told (Reply T)
  serialize i c = on_core i (Core.serialize R) c

  abbrev pub load_new_config : ℕ → T.Name → Controller R.State → Controller R.State × Told (Reply T)
  load_new_config i config c = on_core i (Core.load_new_config R config) c

  abbrev pub swap_configs : ℕ → Controller R.State → Controller R.State × Told (Reply T)
  swap_configs i c = on_core i (Core.swap_configs R) c

  abbrev pub get_config : ℕ → Controller R.State → Controller R.State × Told (Reply T)
  get_config i c = on_core i (Core.get_config R true) c

  abbrev pub get_config_md5 : ℕ → Controller R.State → Controller R.State × Told (Reply T)
  get_config_md5 i c = on_core i (Core.get_config_md5 R true) c
