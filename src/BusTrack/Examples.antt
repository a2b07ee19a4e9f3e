-- ===== src/BusTrack/Examples.antt =====
-- Runs of the bookkeeping around an exchange.
use opentherm_thermostat_fir.Prelude.{◌≡◌, true, false, [], ◌∷◌, some, arith}
use opentherm_thermostat_fir.BusSched
use opentherm_thermostat_fir.BusSched.{Sched, BusStep, talk}
use opentherm_thermostat_fir.BusTrack.{Bus, done}
use opentherm_thermostat_fir.BusTrack.Race.{writes, last_write, no_write_lost}

-- A bus whose write of ID 1 is on the wire; the generation is about to wrap.
abbrev sending : Bus
sending = record {
  track = record { gen = 4294967295; id1_seq = 0; id1_raw = 0 };
  sched = record (BusSched.write (BusSched.init (some (25 ∷ [])) 1) 1 12800) {
    status_turn_done = true;
  };
}

no_write_lost_example :
    let b' =
      done
        (writes sending ((1, 10240) ∷ (56, 11520) ∷ []))
        (BusSched.slot sending.sched false)
        sending.track.gen
        true
        1000
        1100 in
    (b'.sched.write_pending ≡ true)
    × ((b'.sched.write_id, b'.sched.write_value) ≡ last_write (1, 10240) ((56, 11520) ∷ []))
no_write_lost_example =
    no_write_lost sending (BusSched.slot sending.sched false) (1, 10240) ((56, 11520) ∷ []) true
      1000 1100 (omega arith) (omega arith)
