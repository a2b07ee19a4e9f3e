-- ===== src/Registry/RowsLow.antt =====
-- The rows of components/ot_registry/include/registry_generated.h, the first third of OT_ENTITIES.
use opentherm_thermostat_fir.Prelude.{true, false, List, [], ◌∷◌, none, some}
use opentherm_thermostat_fir.Prelude.Int.{pos, negsuc}
use opentherm_thermostat_fir.Policy.Text.{bytes}
use opentherm_thermostat_fir.Frame.Numbers.{Numbers}
use opentherm_thermostat_fir.Registry.Types.{Entity, EntityKind, CodecKind, row}

abbrev pub entities_0 : (fl : Numbers) → List (Entity fl)
entities_0 fl =
    row (bytes "ch_setpoint") (bytes "CH setpoint") EntityKind.number (pos 1) CodecKind.f88 false 0
      false true 2 (negsuc 0) (negsuc 0) (some (194 ∷ 176 ∷ bytes "C")) (some (bytes "temperature"))
      none (some (bytes "mdi:thermometer")) none none (fl.of_int (pos 10)) (fl.of_int (pos 90))
      (fl.of_int (pos 40))
    ∷ row (bytes "member_id") (bytes "Manufacturer member ID") EntityKind.sensor (pos 3)
        CodecKind.u8_lb false 0 true false 0 (negsuc 0) (negsuc 0) none none none
        (some (bytes "mdi:identifier")) (some (bytes "diagnostic")) none fl.nan fl.nan fl.nan
    ∷ row (bytes "oem_fault_code") (bytes "OEM fault code") EntityKind.sensor (pos 5)
        CodecKind.u8_lb false 0 true false 0 (negsuc 0) (negsuc 0) none none none
        (some (bytes "mdi:numeric")) (some (bytes "diagnostic")) none fl.nan fl.nan fl.nan
    ∷ row (bytes "remote_override_setpoint") (bytes "Remote room setpoint") EntityKind.sensor
        (pos 9) CodecKind.f88 false 0 true false 0 (negsuc 0) (negsuc 0)
        (some (194 ∷ 176 ∷ bytes "C")) (some (bytes "temperature")) (some (bytes "measurement"))
        (some (bytes "mdi:thermostat")) (some (bytes "diagnostic")) none fl.nan fl.nan fl.nan
    ∷ row (bytes "max_relative_modulation") (bytes "Max relative modulation") EntityKind.number
        (pos 14) CodecKind.f88 false 0 false true 0 (negsuc 0) (negsuc 0) (some (bytes "%")) none
        none (some (bytes "mdi:speedometer")) none none (fl.of_int (pos 0)) (fl.of_int (pos 100))
        (fl.of_int (pos 100))
    ∷ row (bytes "max_capacity") (bytes "Max capacity") EntityKind.sensor (pos 15) CodecKind.u8_hb
        false 0 true false 0 (negsuc 0) (negsuc 0) (some (bytes "kW")) (some (bytes "power")) none
        (some (bytes "mdi:lightning-bolt")) (some (bytes "diagnostic")) none fl.nan fl.nan fl.nan
    ∷ []

abbrev pub entities_6 : (fl : Numbers) → List (Entity fl)
entities_6 fl =
    row (bytes "min_modulation") (bytes "Min modulation") EntityKind.sensor (pos 15) CodecKind.u8_lb
      false 0 true false 0 (negsuc 0) (negsuc 0) (some (bytes "%")) none none
      (some (bytes "mdi:speedometer-slow")) (some (bytes "diagnostic")) none fl.nan fl.nan fl.nan
    ∷ row (bytes "room_setpoint") (bytes "Room setpoint") EntityKind.number (pos 16) CodecKind.f88
        false 0 false true 0 (negsuc 0) (negsuc 0) (some (194 ∷ 176 ∷ bytes "C"))
        (some (bytes "temperature")) none (some (bytes "mdi:home-thermometer")) none none
        (fl.of_int (pos 5)) (fl.of_int (pos 30)) (fl.of_int (pos 20))
    ∷ row (bytes "modulation") (bytes "Modulation level") EntityKind.sensor (pos 17) CodecKind.f88
        false 0 true false 0 (negsuc 0) (negsuc 0) (some (bytes "%")) none
        (some (bytes "measurement")) (some (bytes "mdi:speedometer")) none none fl.nan fl.nan fl.nan
    ∷ row (bytes "ch_pressure") (bytes "CH water pressure") EntityKind.sensor (pos 18) CodecKind.f88
        false 0 true false 0 (negsuc 0) (negsuc 0) (some (bytes "bar")) (some (bytes "pressure"))
        (some (bytes "measurement")) (some (bytes "mdi:gauge")) none none fl.nan fl.nan fl.nan
    ∷ row (bytes "dhw_flow_rate") (bytes "Hot water flow rate") EntityKind.sensor (pos 19)
        CodecKind.f88 false 0 true false 0 (negsuc 0) (negsuc 0) (some (bytes "L/min")) none
        (some (bytes "measurement")) (some (bytes "mdi:waves-arrow-right")) none none fl.nan fl.nan
        fl.nan
    ∷ row (bytes "room_temperature") (bytes "Room temperature") EntityKind.number (pos 24)
        CodecKind.f88 false 0 false true 0 (negsuc 0) (negsuc 0) (some (194 ∷ 176 ∷ bytes "C"))
        (some (bytes "temperature")) none (some (bytes "mdi:home-thermometer")) none none
        (fl.of_int (negsuc 39)) (fl.of_int (pos 60)) fl.nan
    ∷ []

abbrev pub entities_12 : (fl : Numbers) → List (Entity fl)
entities_12 fl =
    row (bytes "flow_temperature") (bytes "Flow temperature") EntityKind.sensor (pos 25)
      CodecKind.f88 false 0 true false 0 (negsuc 0) (negsuc 0) (some (194 ∷ 176 ∷ bytes "C"))
      (some (bytes "temperature")) (some (bytes "measurement")) (some (bytes "mdi:thermometer"))
      none none fl.nan fl.nan fl.nan
    ∷ row (bytes "dhw_temperature") (bytes "Hot water temperature") EntityKind.sensor (pos 26)
        CodecKind.f88 false 0 true false 0 (negsuc 0) (negsuc 0) (some (194 ∷ 176 ∷ bytes "C"))
        (some (bytes "temperature")) (some (bytes "measurement"))
        (some (bytes "mdi:water-thermometer")) none none fl.nan fl.nan fl.nan
    ∷ row (bytes "outside_temperature") (bytes "Outside temperature") EntityKind.sensor (pos 27)
        CodecKind.f88 false 0 true false 0 (negsuc 0) (negsuc 0) (some (194 ∷ 176 ∷ bytes "C"))
        (some (bytes "temperature")) (some (bytes "measurement")) (some (bytes "mdi:thermometer"))
        none none fl.nan fl.nan fl.nan
    ∷ row (bytes "return_temperature") (bytes "Return temperature") EntityKind.sensor (pos 28)
        CodecKind.f88 false 0 true false 0 (negsuc 0) (negsuc 0) (some (194 ∷ 176 ∷ bytes "C"))
        (some (bytes "temperature")) (some (bytes "measurement"))
        (some (bytes "mdi:thermometer-minus")) none none fl.nan fl.nan fl.nan
    ∷ row (bytes "exhaust_temperature") (bytes "Exhaust temperature") EntityKind.sensor (pos 33)
        CodecKind.s16 false 0 true false 0 (negsuc 0) (negsuc 0) (some (194 ∷ 176 ∷ bytes "C"))
        (some (bytes "temperature")) (some (bytes "measurement")) (some (bytes "mdi:smoke"))
        (some (bytes "diagnostic")) none fl.nan fl.nan fl.nan
    ∷ row (bytes "dhw_setpoint_max") (bytes "Hot water setpoint max") EntityKind.sensor (pos 48)
        CodecKind.s8_hb false 0 true false 0 (negsuc 0) (negsuc 0) (some (194 ∷ 176 ∷ bytes "C"))
        (some (bytes "temperature")) none (some (bytes "mdi:arrow-collapse-up"))
        (some (bytes "diagnostic")) none fl.nan fl.nan fl.nan
    ∷ []

abbrev pub entities_18 : (fl : Numbers) → List (Entity fl)
entities_18 fl =
    row (bytes "dhw_setpoint_min") (bytes "Hot water setpoint min") EntityKind.sensor (pos 48)
      CodecKind.s8_lb false 0 true false 0 (negsuc 0) (negsuc 0) (some (194 ∷ 176 ∷ bytes "C"))
      (some (bytes "temperature")) none (some (bytes "mdi:arrow-collapse-down"))
      (some (bytes "diagnostic")) none fl.nan fl.nan fl.nan
    ∷ row (bytes "ch_setpoint_max_bound") (bytes "CH setpoint max") EntityKind.sensor (pos 49)
        CodecKind.s8_hb false 0 true false 0 (negsuc 0) (negsuc 0) (some (194 ∷ 176 ∷ bytes "C"))
        (some (bytes "temperature")) none (some (bytes "mdi:arrow-collapse-up"))
        (some (bytes "diagnostic")) none fl.nan fl.nan fl.nan
    ∷ row (bytes "ch_setpoint_min_bound") (bytes "CH setpoint min") EntityKind.sensor (pos 49)
        CodecKind.s8_lb false 0 true false 0 (negsuc 0) (negsuc 0) (some (194 ∷ 176 ∷ bytes "C"))
        (some (bytes "temperature")) none (some (bytes "mdi:arrow-collapse-down"))
        (some (bytes "diagnostic")) none fl.nan fl.nan fl.nan
    ∷ row (bytes "dhw_setpoint") (bytes "Hot water setpoint") EntityKind.number (pos 56)
        CodecKind.f88 false 0 true true 4 (negsuc 0) (pos 48) (some (194 ∷ 176 ∷ bytes "C"))
        (some (bytes "temperature")) none (some (bytes "mdi:water-thermometer")) none none
        (fl.of_int (pos 30)) (fl.of_int (pos 80)) (fl.of_int (pos 55))
    ∷ row (bytes "max_ch_setpoint") (bytes "Max CH setpoint") EntityKind.number (pos 57)
        CodecKind.f88 false 0 true true 0 (negsuc 0) (pos 49) (some (194 ∷ 176 ∷ bytes "C"))
        (some (bytes "temperature")) none (some (bytes "mdi:arrow-collapse-up")) none none
        (fl.of_int (pos 30)) (fl.of_int (pos 90)) (fl.of_int (pos 70))
    ∷ row (bytes "unsuccessful_burner_starts") (bytes "Unsuccessful burner starts")
        EntityKind.sensor (pos 113) CodecKind.u16 false 0 true false 0 (negsuc 0) (negsuc 0) none
        none (some (bytes "total_increasing")) (some (bytes "mdi:fire-alert"))
        (some (bytes "diagnostic")) none fl.nan fl.nan fl.nan
    ∷ []
