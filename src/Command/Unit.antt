-- ===== src/Command/Unit.antt =====
-- The unit of a command of components/ot_command/ot_command_check.c, told by clauses.
use opentherm_thermostat_fir.Prelude.{ℕ, ◌≡◌, ◌≢◌, arith, true, false, some}
use opentherm_thermostat_fir.Prelude.Int.{ℤ, pos, negsuc}
use opentherm_thermostat_fir.Frame.Numbers.{Numbers}
use opentherm_thermostat_fir.Control.Types.{Cmd}
use opentherm_thermostat_fir.Command.Check.{cmd_of, to_control_value, is_temperature}

-- The number by which the list of entities names a command.
abbrev pub number_of_cmd : Cmd → ℕ
number_of_cmd Cmd.ch_enable = 1
number_of_cmd Cmd.ch_setpoint = 2
number_of_cmd Cmd.dhw_enable = 3
number_of_cmd Cmd.dhw_setpoint = 4
number_of_cmd Cmd.season = 5
number_of_cmd (Cmd.unknown n) = n

-- The value in the unit of the command: tenths of a degree for the two setpoints, the number
-- itself for the switches.
abbrev pub own_unit : (fl : Numbers) → Cmd → fl.Float → fl.Float
own_unit fl Cmd.ch_setpoint value = fl.mul_10 value
own_unit fl Cmd.dhw_setpoint value = fl.mul_10 value
own_unit fl _ value = value

-- The integer `v` is the value in the unit of the command: of a finite number, rounded to the
-- nearest tenth for a setpoint, whole for a switch, and inside the range of an int16_t.
pub record IsInUnit (fl : Numbers) (cmd : Cmd) (value : fl.Float) (v : ℤ) : Type 0 where
  pub finite : fl.isfinite value ≡ true
  pub rounded : v ≡ fl.lroundf (own_unit fl cmd value)
  pub whole :
      cmd ≢ Cmd.ch_setpoint → cmd ≢ Cmd.dhw_setpoint → fl.equal value (fl.floorf value) ≡ true
  pub above : fl.at_most (own_unit fl cmd value) (fl.halves (negsuc 65536)) ≡ false
  pub below : fl.at_most (fl.halves (pos 65535)) (own_unit fl cmd value) ≡ false

pub converted-IsInUnit :
    (fl : Numbers) (cmd : Cmd) (value : fl.Float) (v : ℤ)
    → to_control_value fl cmd value ≡ some v
    → IsInUnit fl cmd value v
unfolding to_control_value is_temperature
converted-IsInUnit fl Cmd.ch_enable value v h = ground (arith, h)
converted-IsInUnit fl Cmd.ch_setpoint value v h = ground (arith, h)
converted-IsInUnit fl Cmd.dhw_enable value v h = ground (arith, h)
converted-IsInUnit fl Cmd.dhw_setpoint value v h = ground (arith, h)
converted-IsInUnit fl Cmd.season value v h = ground (arith, h)
converted-IsInUnit fl (Cmd.unknown n) value v h = ground (arith, h)

-- A command is named by its number alone.
pub cmd_of-number : (n : ℕ) → number_of_cmd (cmd_of n) ≡ n
unfolding cmd_of
cmd_of-number n = ground arith
