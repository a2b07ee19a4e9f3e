-- ===== src/Room/Select.antt =====
-- components/ot_room/ot_room.c: the slots and the two selections.
use opentherm_thermostat_fir.Prelude.{
  ℕ, zero, suc, ◌+◌, Bool, true, false, not, ◌&&◌, if◌then◌else◌, List, [], ◌∷◌, take, map,
}
use opentherm_thermostat_fir.Prelude.Int.{ℤ, pos, negsuc}
use opentherm_thermostat_fir.Room.Floats.{Floats}
use opentherm_thermostat_fir.Room.Sensor
use opentherm_thermostat_fir.Room.Sensor.{Sensor, Freshness, fresh, stale, state, reading}

abbrev pub max_slots : ℕ
max_slots = 4

-- `ot_room_role_t`.
pub data Role : Type 0 where
  ambient room : Role

-- `ot_room_slot_cfg_t`.
pub record SlotCfg : Type 0 where
  pub role : Role
  pub ha_forwarded : Bool
  pub stale_after_ms : ℕ

-- The sensor and the configuration at one index; `ot_room_t` is the list of its first `count`
-- slots, the only ones that are read.
pub record Slot (fl : Floats) : Type 0 where
  pub sensor : Sensor fl
  pub cfg : SlotCfg

-- `ot_room_steer_t`.
pub record SteerOut : Type 0 where
  pub fresh : Bool
  pub value_dc : ℤ
  pub active_slot : ℤ
  pub ha_forwarded_stale : Bool

-- `ot_room_display_t`.
pub record DisplayOut : Type 0 where
  pub have : Bool
  pub value_dc : ℤ
  pub active_slot : ℤ
  pub active_role : Role

abbrev pub is_room : Role → Bool
is_room room = true
is_room ambient = false

abbrev pub is_fresh : Freshness → Bool
is_fresh Freshness.fresh = true
is_fresh _ = false

abbrev pub is_stale : Freshness → Bool
is_stale Freshness.stale = true
is_stale _ = false

abbrev pub same_role : Role → Role → Bool
same_role room r = is_room r
same_role ambient r = not (is_room r)

-- What the panel shows when there is nothing to show.
abbrev pub blank_display : DisplayOut
blank_display = record {
  have = false;
  value_dc = pos 0;
  active_slot = negsuc 0;
  active_role = ambient;
}

module _ (fl : Floats) where
  -- A value that has passed the filter is a few hundred in tenths: the cast to int16_t keeps it.
  unfoldable pub to_dc : fl.Float → ℤ
  to_dc celsius = fl.lroundf (fl.times celsius fl.ten)

  unfoldable pub init : List SlotCfg → List (Slot fl)
  init cfgs =
      map (λ c. record { sensor = Sensor.init fl c.stale_after_ms; cfg = c }) (take max_slots cfgs)

  -- The assignment to one slot.
  unfoldable pub submit : List (Slot fl) → ℕ → fl.Float → ℕ → List (Slot fl) × Bool
  submit [] slot celsius now_ms = ([], false)
  submit (r ∷ rs) zero celsius now_ms =
      let (s, taken) = Sensor.update fl r.sensor celsius now_ms in
      (record r { sensor = s } ∷ rs, taken)
  submit (r ∷ rs) (suc slot) celsius now_ms =
      let (rest, taken) = submit rs slot celsius now_ms in (r ∷ rest, taken)

  unfoldable pub tick_slot : ℕ → Slot fl → Slot fl
  tick_slot now_ms r = record r { sensor = Sensor.tick fl r.sensor now_ms }

  unfoldable pub tick : List (Slot fl) → ℕ → List (Slot fl)
  tick rs now_ms = map (tick_slot now_ms) rs

  unfoldable pub mark_stale : Slot fl → SteerOut → SteerOut
  mark_stale r out =
      if r.cfg.ha_forwarded && is_stale (state fl r.sensor)
      then record out { ha_forwarded_stale = true }
      else out

  unfoldable pub pick : Slot fl → ℕ → SteerOut → SteerOut
  pick r i out =
      if not out.fresh && is_fresh (state fl r.sensor)
      then record out { fresh = true; value_dc = to_dc (reading fl r.sensor); active_slot = pos i }
      else out

  -- The loop of ot_room_select_steer() from index `i` on.
  unfoldable pub steer_from : ℕ → List (Slot fl) → SteerOut → SteerOut
  steer_from i [] out = out
  steer_from i (r ∷ rs) out =
      steer_from (i + 1) rs (if not (is_room r.cfg.role) then out else pick r i (mark_stale r out))

  unfoldable pub select_steer : List (Slot fl) → SteerOut
  select_steer rs =
      steer_from 0 rs record {
        fresh = false;
        value_dc = pos 0;
        active_slot = negsuc 0;
        ha_forwarded_stale = false;
      }

  -- pick_fresh_by_role() from index `i` on.
  unfoldable pub pick_fresh_by_role : ℕ → List (Slot fl) → Role → DisplayOut → DisplayOut × Bool
  pick_fresh_by_role i [] want out = (out, false)
  pick_fresh_by_role i (r ∷ rs) want out =
      let rest = pick_fresh_by_role (i + 1) rs want out in
      if not (same_role want r.cfg.role)
      then rest
      else if is_fresh (state fl r.sensor)
      then (
        record {
          have = true;
          value_dc = to_dc (reading fl r.sensor);
          active_slot = pos i;
          active_role = r.cfg.role;
        },
        true,
      )
      else rest

  unfoldable pub select_display : List (Slot fl) → DisplayOut
  select_display rs =
      let (out, found) = pick_fresh_by_role 0 rs room blank_display in
      if found then out else (pick_fresh_by_role 0 rs ambient out).0
