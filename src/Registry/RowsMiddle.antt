-- ===== src/Registry/RowsMiddle.antt =====
-- The rows of components/ot_registry/include/registry_generated.h, the second third of OT_ENTITIES.
use opentherm_thermostat_fir.Prelude.{true, false, List, [], ◌∷◌, none, some}
use opentherm_thermostat_fir.Prelude.Int.{pos, negsuc}
use opentherm_thermostat_fir.Policy.Text.{bytes}
use opentherm_thermostat_fir.Frame.Numbers.{Numbers}
use opentherm_thermostat_fir.Registry.Types.{Entity, EntityKind, CodecKind, row}

abbrev pub entities_24 : (fl : Numbers) → List (Entity fl)
entities_24 fl =
    row (bytes "flame_low_signal_count") (bytes "Flame failures") EntityKind.sensor (pos 114)
      CodecKind.u16 false 0 true false 0 (negsuc 0) (negsuc 0) none none
      (some (bytes "total_increasing")) (some (bytes "mdi:fire-off")) (some (bytes "diagnostic"))
      none fl.nan fl.nan fl.nan
    ∷ row (bytes "burner_starts") (bytes "Burner starts") EntityKind.sensor (pos 116) CodecKind.u16
        false 0 true false 0 (negsuc 0) (negsuc 0) none none (some (bytes "total_increasing"))
        (some (bytes "mdi:fire")) (some (bytes "diagnostic")) none fl.nan fl.nan fl.nan
    ∷ row (bytes "ch_pump_starts") (bytes "CH pump starts") EntityKind.sensor (pos 117)
        CodecKind.u16 false 0 true false 0 (negsuc 0) (negsuc 0) none none
        (some (bytes "total_increasing")) (some (bytes "mdi:pump")) (some (bytes "diagnostic")) none
        fl.nan fl.nan fl.nan
    ∷ row (bytes "dhw_pump_starts") (bytes "Hot water pump starts") EntityKind.sensor (pos 118)
        CodecKind.u16 false 0 true false 0 (negsuc 0) (negsuc 0) none none
        (some (bytes "total_increasing")) (some (bytes "mdi:pump")) (some (bytes "diagnostic")) none
        fl.nan fl.nan fl.nan
    ∷ row (bytes "dhw_burner_starts") (bytes "Hot water burner starts") EntityKind.sensor (pos 119)
        CodecKind.u16 false 0 true false 0 (negsuc 0) (negsuc 0) none none
        (some (bytes "total_increasing")) (some (bytes "mdi:fire")) (some (bytes "diagnostic")) none
        fl.nan fl.nan fl.nan
    ∷ row (bytes "burner_hours") (bytes "Burner hours") EntityKind.sensor (pos 120) CodecKind.u16
        false 0 true false 0 (negsuc 0) (negsuc 0) (some (bytes "h")) (some (bytes "duration"))
        (some (bytes "total_increasing")) (some (bytes "mdi:clock-outline"))
        (some (bytes "diagnostic")) none fl.nan fl.nan fl.nan
    ∷ []

abbrev pub entities_30 : (fl : Numbers) → List (Entity fl)
entities_30 fl =
    row (bytes "ch_pump_hours") (bytes "CH pump hours") EntityKind.sensor (pos 121) CodecKind.u16
      false 0 true false 0 (negsuc 0) (negsuc 0) (some (bytes "h")) (some (bytes "duration"))
      (some (bytes "total_increasing")) (some (bytes "mdi:clock-outline"))
      (some (bytes "diagnostic")) none fl.nan fl.nan fl.nan
    ∷ row (bytes "dhw_pump_hours") (bytes "Hot water pump hours") EntityKind.sensor (pos 122)
        CodecKind.u16 false 0 true false 0 (negsuc 0) (negsuc 0) (some (bytes "h"))
        (some (bytes "duration")) (some (bytes "total_increasing"))
        (some (bytes "mdi:clock-outline")) (some (bytes "diagnostic")) none fl.nan fl.nan fl.nan
    ∷ row (bytes "dhw_burner_hours") (bytes "Hot water burner hours") EntityKind.sensor (pos 123)
        CodecKind.u16 false 0 true false 0 (negsuc 0) (negsuc 0) (some (bytes "h"))
        (some (bytes "duration")) (some (bytes "total_increasing"))
        (some (bytes "mdi:clock-outline")) (some (bytes "diagnostic")) none fl.nan fl.nan fl.nan
    ∷ row (bytes "master_ot_version") (bytes "Master OpenTherm version") EntityKind.number (pos 124)
        CodecKind.f88 false 0 false true 0 (negsuc 0) (negsuc 0) none none none
        (some (bytes "mdi:tag")) (some (bytes "diagnostic")) none (fl.of_int (pos 0))
        (fl.of_int (pos 255)) (fl.tenths (pos 22))
    ∷ row (bytes "slave_ot_version") (bytes "Boiler OpenTherm version") EntityKind.sensor (pos 125)
        CodecKind.f88 false 0 true false 0 (negsuc 0) (negsuc 0) none none none
        (some (bytes "mdi:tag")) (some (bytes "diagnostic")) none fl.nan fl.nan fl.nan
    ∷ row (bytes "master_product_version") (bytes "Master product version") EntityKind.number
        (pos 126) CodecKind.u16 false 0 false true 0 (negsuc 0) (negsuc 0) none none none
        (some (bytes "mdi:tag")) (some (bytes "diagnostic")) none (fl.of_int (pos 0))
        (fl.of_int (pos 65535)) (fl.of_int (pos 1))
    ∷ []

abbrev pub entities_36 : (fl : Numbers) → List (Entity fl)
entities_36 fl =
    row (bytes "slave_product_type") (bytes "Boiler product type") EntityKind.sensor (pos 127)
      CodecKind.u8_hb false 0 true false 0 (negsuc 0) (negsuc 0) none none none
      (some (bytes "mdi:tag")) (some (bytes "diagnostic")) none fl.nan fl.nan fl.nan
    ∷ row (bytes "slave_product_version") (bytes "Boiler product version") EntityKind.sensor
        (pos 127) CodecKind.u8_lb false 0 true false 0 (negsuc 0) (negsuc 0) none none none
        (some (bytes "mdi:tag")) (some (bytes "diagnostic")) none fl.nan fl.nan fl.nan
    ∷ row (bytes "fault") (bytes "Fault") EntityKind.binary (pos 0) CodecKind.flag false 0 true
        false 0 (negsuc 0) (negsuc 0) none (some (bytes "problem")) none (some (bytes "mdi:alert"))
        none none fl.nan fl.nan fl.nan
    ∷ row (bytes "ch_active") (bytes "Central heating active") EntityKind.binary (pos 0)
        CodecKind.flag false 1 true false 0 (negsuc 0) (negsuc 0) none (some (bytes "heat")) none
        (some (bytes "mdi:radiator")) none none fl.nan fl.nan fl.nan
    ∷ row (bytes "dhw_active") (bytes "Hot water active") EntityKind.binary (pos 0) CodecKind.flag
        false 2 true false 0 (negsuc 0) (negsuc 0) none (some (bytes "heat")) none
        (some (bytes "mdi:water-boiler")) none none fl.nan fl.nan fl.nan
    ∷ row (bytes "flame") (bytes "Flame on") EntityKind.binary (pos 0) CodecKind.flag false 3 true
        false 0 (negsuc 0) (negsuc 0) none (some (bytes "heat")) none (some (bytes "mdi:fire")) none
        none fl.nan fl.nan fl.nan
    ∷ []

abbrev pub entities_42 : (fl : Numbers) → List (Entity fl)
entities_42 fl =
    row (bytes "cooling_active") (bytes "Cooling active") EntityKind.binary (pos 0) CodecKind.flag
      false 4 true false 0 (negsuc 0) (negsuc 0) none (some (bytes "cold")) none
      (some (bytes "mdi:snowflake")) (some (bytes "diagnostic")) none fl.nan fl.nan fl.nan
    ∷ row (bytes "diagnostic_indication") (bytes "Service needed") EntityKind.binary (pos 0)
        CodecKind.flag false 6 true false 0 (negsuc 0) (negsuc 0) none (some (bytes "problem")) none
        (some (bytes "mdi:wrench")) (some (bytes "diagnostic")) none fl.nan fl.nan fl.nan
    ∷ row (bytes "dhw_present") (bytes "Hot water present") EntityKind.binary (pos 3) CodecKind.flag
        true 0 true false 0 (negsuc 0) (negsuc 0) none none none (some (bytes "mdi:water"))
        (some (bytes "diagnostic")) none fl.nan fl.nan fl.nan
    ∷ row (bytes "control_type_on_off") (bytes "On/off control") EntityKind.binary (pos 3)
        CodecKind.flag true 1 true false 0 (negsuc 0) (negsuc 0) none none none
        (some (bytes "mdi:toggle-switch")) (some (bytes "diagnostic")) none fl.nan fl.nan fl.nan
    ∷ row (bytes "cooling_supported") (bytes "Cooling supported") EntityKind.binary (pos 3)
        CodecKind.flag true 2 true false 0 (negsuc 0) (negsuc 0) none none none
        (some (bytes "mdi:snowflake")) (some (bytes "diagnostic")) none fl.nan fl.nan fl.nan
    ∷ row (bytes "dhw_storage_tank") (bytes "Hot water storage tank") EntityKind.binary (pos 3)
        CodecKind.flag true 3 true false 0 (negsuc 0) (negsuc 0) none none none
        (some (bytes "mdi:storage-tank")) (some (bytes "diagnostic")) none fl.nan fl.nan fl.nan
    ∷ []
