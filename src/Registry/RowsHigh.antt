-- ===== src/Registry/RowsHigh.antt =====
-- The rows of components/ot_registry/include/registry_generated.h, the last third of OT_ENTITIES.
use opentherm_thermostat_fir.Prelude.{true, false, List, [], ◌∷◌, none, some}
use opentherm_thermostat_fir.Prelude.Int.{pos, negsuc}
use opentherm_thermostat_fir.Policy.Text.{bytes}
use opentherm_thermostat_fir.Frame.Numbers.{Numbers}
use opentherm_thermostat_fir.Registry.Types.{Entity, EntityKind, CodecKind, row}

abbrev pub entities_48 : (fl : Numbers) → List (Entity fl)
entities_48 fl =
    row (bytes "pump_control_allowed") (bytes "Pump control allowed") EntityKind.binary (pos 3)
      CodecKind.flag true 4 true false 0 (negsuc 0) (negsuc 0) none none none
      (some (bytes "mdi:pump")) (some (bytes "diagnostic")) none fl.nan fl.nan fl.nan
    ∷ row (bytes "service_request") (bytes "Service request") EntityKind.binary (pos 5)
        CodecKind.flag true 0 true false 0 (negsuc 0) (negsuc 0) none (some (bytes "problem")) none
        (some (bytes "mdi:wrench")) none none fl.nan fl.nan fl.nan
    ∷ row (bytes "lockout_reset") (bytes "Lockout reset needed") EntityKind.binary (pos 5)
        CodecKind.flag true 1 true false 0 (negsuc 0) (negsuc 0) none (some (bytes "problem")) none
        (some (bytes "mdi:lock-reset")) none none fl.nan fl.nan fl.nan
    ∷ row (bytes "low_water_pressure") (bytes "Low water pressure") EntityKind.binary (pos 5)
        CodecKind.flag true 2 true false 0 (negsuc 0) (negsuc 0) none (some (bytes "problem")) none
        (some (bytes "mdi:gauge-low")) none none fl.nan fl.nan fl.nan
    ∷ row (bytes "flame_fault") (bytes "Flame fault") EntityKind.binary (pos 5) CodecKind.flag true
        3 true false 0 (negsuc 0) (negsuc 0) none (some (bytes "problem")) none
        (some (bytes "mdi:fire-off")) none none fl.nan fl.nan fl.nan
    ∷ row (bytes "air_pressure_fault") (bytes "Air pressure fault") EntityKind.binary (pos 5)
        CodecKind.flag true 4 true false 0 (negsuc 0) (negsuc 0) none (some (bytes "problem")) none
        (some (bytes "mdi:weather-windy")) none none fl.nan fl.nan fl.nan
    ∷ []

abbrev pub entities_54 : (fl : Numbers) → List (Entity fl)
entities_54 fl =
    row (bytes "water_over_temperature") (bytes "Water over-temperature") EntityKind.binary (pos 5)
      CodecKind.flag true 5 true false 0 (negsuc 0) (negsuc 0) none (some (bytes "problem")) none
      (some (bytes "mdi:thermometer-alert")) none none fl.nan fl.nan fl.nan
    ∷ row (bytes "dhw_setpoint_transfer_enabled") (bytes "Hot water setpoint transfer enabled")
        EntityKind.binary (pos 6) CodecKind.flag true 0 true false 0 (negsuc 0) (negsuc 0) none none
        none (some (bytes "mdi:import")) (some (bytes "diagnostic")) none fl.nan fl.nan fl.nan
    ∷ row (bytes "max_ch_setpoint_transfer_enabled") (bytes "Max CH setpoint transfer enabled")
        EntityKind.binary (pos 6) CodecKind.flag true 1 true false 0 (negsuc 0) (negsuc 0) none none
        none (some (bytes "mdi:import")) (some (bytes "diagnostic")) none fl.nan fl.nan fl.nan
    ∷ row (bytes "dhw_setpoint_writable") (bytes "Hot water setpoint writable") EntityKind.binary
        (pos 6) CodecKind.flag false 0 true false 0 (negsuc 0) (negsuc 0) none none none
        (some (bytes "mdi:pencil")) (some (bytes "diagnostic")) none fl.nan fl.nan fl.nan
    ∷ row (bytes "max_ch_setpoint_writable") (bytes "Max CH setpoint writable") EntityKind.binary
        (pos 6) CodecKind.flag false 1 true false 0 (negsuc 0) (negsuc 0) none none none
        (some (bytes "mdi:pencil")) (some (bytes "diagnostic")) none fl.nan fl.nan fl.nan
    ∷ row (bytes "override_manual_priority") (bytes "Manual override priority") EntityKind.binary
        (pos 100) CodecKind.flag false 0 true false 0 (negsuc 0) (negsuc 0) none none none
        (some (bytes "mdi:hand-back-right")) (some (bytes "diagnostic")) none fl.nan fl.nan fl.nan
    ∷ []

abbrev pub entities_60 : (fl : Numbers) → List (Entity fl)
entities_60 fl =
    row (bytes "override_program_priority") (bytes "Program override priority") EntityKind.binary
      (pos 100) CodecKind.flag false 1 true false 0 (negsuc 0) (negsuc 0) none none none
      (some (bytes "mdi:calendar-clock")) (some (bytes "diagnostic")) none fl.nan fl.nan fl.nan
    ∷ row (bytes "ch_enable") (bytes "Central heating enabled") EntityKind.switch (negsuc 0)
        CodecKind.none false 0 false true 1 (negsuc 0) (negsuc 0) none none none
        (some (bytes "mdi:radiator")) none none fl.nan fl.nan fl.nan
    ∷ row (bytes "dhw_enable") (bytes "Hot water enabled") EntityKind.switch (negsuc 0)
        CodecKind.none false 0 false true 3 (negsuc 0) (negsuc 0) none none none
        (some (bytes "mdi:water-boiler")) none none fl.nan fl.nan fl.nan
    ∷ row (bytes "heating_season") (bytes "Heating season") EntityKind.switch (negsuc 0)
        CodecKind.none false 0 false true 5 (negsuc 0) (negsuc 0) none none none
        (some (bytes "mdi:sun-snowflake-variant")) none none fl.nan fl.nan fl.nan
    ∷ row (bytes "control_mode") (bytes "Control mode") EntityKind.enum (negsuc 0) CodecKind.none
        false 0 false false 0 (negsuc 0) (negsuc 0) none (some (bytes "enum")) none
        (some (bytes "mdi:account-switch")) none (some (bytes "local|ha")) fl.nan fl.nan fl.nan
    ∷ row (bytes "control_state") (bytes "Control state") EntityKind.enum (negsuc 0) CodecKind.none
        false 0 false false 0 (negsuc 0) (negsuc 0) none (some (bytes "enum")) none
        (some (bytes "mdi:state-machine")) none
        (some (bytes "season_off|boost|local|ha_waiting|failsafe|ha")) fl.nan fl.nan fl.nan
    ∷ []

abbrev pub entities_66 : (fl : Numbers) → List (Entity fl)
entities_66 fl =
    row (bytes "ch_setpoint_effective") (bytes "Effective CH setpoint") EntityKind.sensor (negsuc 0)
      CodecKind.none false 0 false false 0 (negsuc 0) (negsuc 0) (some (194 ∷ 176 ∷ bytes "C"))
      (some (bytes "temperature")) (some (bytes "measurement")) (some (bytes "mdi:thermometer"))
      none none fl.nan fl.nan fl.nan
    ∷ row (bytes "room_temperature_effective") (bytes "Room temperature") EntityKind.sensor
        (negsuc 0) CodecKind.none false 0 false false 0 (negsuc 0) (negsuc 0)
        (some (194 ∷ 176 ∷ bytes "C")) (some (bytes "temperature")) (some (bytes "measurement"))
        (some (bytes "mdi:home-thermometer")) none none fl.nan fl.nan fl.nan
    ∷ row (bytes "room_source") (bytes "Room source") EntityKind.enum (negsuc 0) CodecKind.none
        false 0 false false 0 (negsuc 0) (negsuc 0) none none none (some (bytes "mdi:home-search"))
        none (some (bytes "none|shield|mqtt")) fl.nan fl.nan fl.nan
    ∷ row (bytes "ch_enable_effective") (bytes "Heat demand to boiler") EntityKind.binary (negsuc 0)
        CodecKind.none false 0 false false 0 (negsuc 0) (negsuc 0) none none none
        (some (bytes "mdi:radiator")) none none fl.nan fl.nan fl.nan
    ∷ row (bytes "failsafe_count") (bytes "Failsafe entries") EntityKind.sensor (negsuc 0)
        CodecKind.none false 0 false false 0 (negsuc 0) (negsuc 0) none none
        (some (bytes "total_increasing")) (some (bytes "mdi:shield-alert"))
        (some (bytes "diagnostic")) none fl.nan fl.nan fl.nan
    ∷ row (bytes "last_failsafe_duration_s") (bytes "Last failsafe duration") EntityKind.sensor
        (negsuc 0) CodecKind.none false 0 false false 0 (negsuc 0) (negsuc 0) (some (bytes "s"))
        (some (bytes "duration")) (some (bytes "measurement"))
        (some (bytes "mdi:timer-alert-outline")) (some (bytes "diagnostic")) none fl.nan fl.nan
        fl.nan
    ∷ []
