-- ===== src/Command/Accepted.antt =====
-- What ot_command_check() hands to the executor: the unit and the early answer of the executor's
-- own check.
use opentherm_thermostat_fir.Prelude.{
  ℕ, ◌≡◌, ◌≢◌, ◌∙◌, refl, sym, ap, arith, Bool, true, false, List, Option, none, some,
  if◌then◌else◌,
}
use opentherm_thermostat_fir.Prelude.Int.{ℤ, pos, leb_ℤ}
use opentherm_thermostat_fir.Frame.Numbers.{Numbers}
use opentherm_thermostat_fir.Registry.Types.{Entity}
use opentherm_thermostat_fir.Registry.Lookup.{by_key}
use opentherm_thermostat_fir.State.Model.{State}
use opentherm_thermostat_fir.State.Virtual.{is_unsupported}
use opentherm_thermostat_fir.Control.Types.{Cfg, Origin, Cmd, ControlErr}
use opentherm_thermostat_fir.Control.Command
use opentherm_thermostat_fir.Command.Unit.{
  number_of_cmd, IsInUnit, converted-IsInUnit, cmd_of-number,
}
use opentherm_thermostat_fir.Command.Limits.{write_target, write_id-write_target}
use opentherm_thermostat_fir.Command.Legal.{MaySend, entity-MaySend, encode_of}
use opentherm_thermostat_fir.Command.Encode.{Encoded, encoded, encode, write_id}
use opentherm_thermostat_fir.Command.Check.{
  Judged, control, cmd_of, to_control_value, from_control, as_frame, as_control, after_encode,
  check_command, check_entity, check_found, check, is_dhw_setpoint, is_ch_setpoint,
}

-- The boiler would take the DHW setpoint that will be stored.
abbrev pub Encodes : Encoded → Type 0
Encodes (Encoded.refused err) = ⊥
Encodes (encoded id raw) = Unit

control_of :
    (cfg : Cfg) (origin : Origin) (cmd cmd' : Cmd) (v v' : ℤ)
    → as_control cfg origin cmd v ≡ control cmd' v'
    → (Command.check cfg origin cmd v ≡ ControlErr.ok) × (cmd' ≡ cmd) × (v' ≡ v)
unfolding as_control from_control
control_of cfg origin cmd cmd' v v' e = ground (arith, e)

agreed :
    (answer : Encoded) (next : Judged) (cmd : Cmd) (v : ℤ)
    → after_encode answer next ≡ control cmd v
    → Encodes answer × (next ≡ control cmd v)
unfolding after_encode
agreed (Encoded.refused err) next cmd v e = ground (arith, e)
agreed (encoded id raw) next cmd v e = ground (arith, e)

taken :
    (b : Bool) (answer : Encoded) (next : Judged) (cmd : Cmd) (v : ℤ)
    → (if b then after_encode answer next else next) ≡ control cmd v
    → (b ≡ true → Encodes answer) × (next ≡ control cmd v)
taken true answer next cmd v e = let a = agreed answer next cmd v e in (λ t. a.0, a.1)
taken false answer next cmd v e = (λ t. ground (arith, t), e)

dhw_is_dhw : (cmd : Cmd) → cmd ≡ Cmd.dhw_setpoint → is_dhw_setpoint cmd ≡ true
dhw_is_dhw cmd e = ground (arith, e)

not_ch_setpoint : (cmd : Cmd) → cmd ≢ Cmd.ch_setpoint → is_ch_setpoint cmd ≡ false
not_ch_setpoint cmd n = ground (arith, n)

module _ {fl : Numbers} where
  -- What a command may be handed over for.
  pub record MayApply (table : List (Entity fl)) (s : State fl) (key : List ℕ) (value : fl.Float)
      (origin : Origin) (cfg : Cfg) (cmd : Cmd) (v : ℤ) (e : Entity fl) : Type 0 where
    pub is_input : e.control ≢ 0
    pub own_command : e.control ≡ number_of_cmd cmd
    pub writable : e.writable ≡ true
    pub supported :
        cmd ≢ Cmd.ch_setpoint
        → leb_ℤ (pos 0) e.data_id ≡ true
        → is_unsupported s (write_target e) ≡ false
    pub in_unit : IsInUnit fl cmd value v
    pub accepted : Command.check cfg origin cmd v ≡ ControlErr.ok
    pub boiler_agrees :
        cmd ≡ Cmd.dhw_setpoint → (id : ℕ) × MaySend table s key (fl.div_10 (fl.of_int v)) e id

  Encodes-MaySend :
      (table : List (Entity fl)) (s : State fl) (key : List ℕ) (e : Entity fl) (value : fl.Float)
      (answer : Encoded)
      → by_key table (some key) ≡ some e
      → encode table s key value ≡ answer
      → Encodes answer
      → (id : ℕ) × MaySend table s key value e id
  Encodes-MaySend table s key e value (Encoded.refused err) g sent w = elim w [ ]
  Encodes-MaySend table s key e value (encoded id raw) g sent w = (
    id,
    entity-MaySend table s key e value id raw g (sym (encode_of table s key e value g) ∙ sent),
  )

  command_of :
      (table : List (Entity fl)) (s : State fl) (key : List ℕ) (origin : Origin) (cfg : Cfg)
      (cmd cmd' : Cmd) (found : Option ℤ) (v : ℤ)
      → check_command table s key origin cfg cmd found ≡ control cmd' v
      → (found ≡ some v)
        × (cmd' ≡ cmd)
        × (Command.check cfg origin cmd v ≡ ControlErr.ok)
        × (cmd ≡ Cmd.dhw_setpoint → Encodes (encode table s key (fl.div_10 (fl.of_int v))))
  unfolding check_command
  command_of table s key origin cfg cmd cmd' none v h = ground (arith, h)
  command_of table s key origin cfg cmd cmd' (some w) v h =
      let next = as_control cfg origin cmd w in
      let answer = encode table s key (fl.div_10 (fl.of_int w)) in
      let t = taken (is_dhw_setpoint cmd) answer next cmd' v h in
      let c = control_of cfg origin cmd cmd' w v t.1 in
      let same : v ≡ w = c.2 in
      (ap some (sym same), c.1, rw same c.0, rw same (λ d. t.0 (dhw_is_dhw cmd d)))

  control_from :
      (table : List (Entity fl)) (s : State fl) (key : List ℕ) (e : Entity fl) (value : fl.Float)
      (origin : Origin) (cfg : Cfg) (cmd : Cmd) (v : ℤ)
      → check_entity table s key e value origin cfg ≡ control cmd v
      → (e.writable ≡ true)
        × (e.control ≢ 0)
        × (cmd_of e.control ≢ Cmd.ch_setpoint
            → leb_ℤ (pos 0) e.data_id ≡ true
            → is_unsupported s (write_id e) ≡ false)
        × (check_command table s key origin cfg
              (cmd_of e.control)
              (to_control_value fl (cmd_of e.control) value)
            ≡ control cmd v)
  unfolding check_entity as_frame
  control_from table s key e value origin cfg cmd v h = (
    ground (arith, h),
    λ z. ground (arith, h, z),
    λ n w. ground (arith, h, w, not_ch_setpoint (cmd_of e.control) n),
    ground (arith, h),
  )

  entity-MayApply :
      (table : List (Entity fl)) (s : State fl) (key : List ℕ) (e : Entity fl) (value : fl.Float)
      (origin : Origin) (cfg : Cfg) (cmd : Cmd) (v : ℤ)
      → by_key table (some key) ≡ some e
      → check_entity table s key e value origin cfg ≡ control cmd v
      → MayApply table s key value origin cfg cmd v e
  entity-MayApply table s key e value origin cfg cmd v g h =
      let from = control_from table s key e value origin cfg cmd v h in
      let own = cmd_of e.control in
      let (converts, same, passed, boiler) =
        command_of table s key origin cfg own cmd (to_control_value fl own value) v from.3 in
      record {
        is_input = from.1;
        own_command = sym (ap number_of_cmd same ∙ cmd_of-number e.control);
        writable = from.0;
        supported =
            rw same λ n w. sym (ap (is_unsupported s) (write_id-write_target e)) ∙ from.2 n w;
        in_unit = rw same (converted-IsInUnit fl own value v converts);
        accepted = rw same passed;
        boiler_agrees = λ d.
            Encodes-MaySend table s key e (fl.div_10 (fl.of_int v))
              (encode table s key (fl.div_10 (fl.of_int v))) g refl (boiler (sym same ∙ d));
      }

  found-MayApply :
      (table : List (Entity fl)) (s : State fl) (key : List ℕ) (found : Option (Entity fl))
      (value : fl.Float) (origin : Origin) (cfg : Cfg) (cmd : Cmd) (v : ℤ)
      → by_key table (some key) ≡ found
      → check_found table s key found value origin cfg ≡ control cmd v
      → (e : Entity fl) × (by_key table (some key) ≡ some e)
        × MayApply table s key value origin cfg cmd v e
  unfolding check_found
  found-MayApply table s key none value origin cfg cmd v g h = ground (arith, h)
  found-MayApply table s key (some e) value origin cfg cmd v g h =
      (e, g, entity-MayApply table s key e value origin cfg cmd v g h)

  -- A command is handed over only in its own unit and only where ot_control_check() accepts it now:
  -- a write that ot_command_check() lets through as a command is for a writable entity that
  -- is an input of the executor, under that entity's command number; unless it is the CH setpoint
  -- or has no Data-ID, the boiler has not refused the entity's write identifier twice; its value is a
  -- finite number, in tenths of a degree for the two setpoints and a whole number for every other
  -- command, in the range of an int16_t; ot_control_check() accepts it from that
  -- sender under that configuration, which is the early answer and not the final one; and a DHW
  -- setpoint is also lawful as a frame to the boiler, its bounds included, judged on the value that
  -- will be stored.
  pub command_passes_on :
      (table : List (Entity fl)) (s : State fl) (key : List ℕ) (value : fl.Float) (origin : Origin)
      (cfg : Cfg) (cmd : Cmd) (v : ℤ)
      → check table s key value origin cfg ≡ control cmd v
      → (e : Entity fl) × (by_key table (some key) ≡ some e)
        × MayApply table s key value origin cfg cmd v e
  unfolding check
  command_passes_on table s key value origin cfg cmd v h =
      found-MayApply table s key (by_key table (some key)) value origin cfg cmd v refl h
