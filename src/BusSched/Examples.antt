-- ===== src/BusSched/Examples.antt =====
-- Runs of the bus scheduler.
use opentherm_thermostat_fir.Prelude.{◌⊎◌, true, List, [], ◌∷◌, some, arith, refl}
use opentherm_thermostat_fir.BusSched.{Sched, init, step, slot, done, disable, write, turn}
use opentherm_thermostat_fir.BusSched.Timing.{InOrder}
use opentherm_thermostat_fir.BusSched.Turns.{
  BusOp, queue, forbid, sweep, converse, Mandatory, IsValid, run, react, reachable-IsValid,
  status_every_second,
}

abbrev ring : Sched
ring = init (some (25 ∷ 26 ∷ 17 ∷ [])) 3

-- The ring after one exchange, which ended just before the clock wraps.
abbrev spoken : Sched
spoken = record ring {
  started = true;
  last_start_ms = 4294966796;
  last_end_ms = 4294966996;
  status_turn_done = true;
  next = 1;
}

spoken-InOrder : InOrder spoken 100
spoken-InOrder = record {
  word = omega arith;
  start_word = omega arith;
  end_word = omega arith;
  gap = omega arith;
  recent = omega arith;
}

abbrev calls : List BusOp
calls = forbid 25 ∷ converse 100 100 150 ∷ sweep 20 10 ∷ converse 1050 1050 1100 ∷ []

reachable-IsValid_example : IsValid (run (init (some (25 ∷ 26 ∷ 17 ∷ [])) 3) calls)
reachable-IsValid_example = reachable-IsValid (some (25 ∷ 26 ∷ 17 ∷ [])) 3 calls

status_every_second_example :
    let s' = run (done spoken (step spoken 450) 450 550) (queue 1 12800 ∷ forbid 26 ∷ []) in
    Mandatory spoken (step spoken 450) ⊎ Mandatory s' (step s' 1400)
unfolding init step run done slot react disable write turn
status_every_second_example =
    status_every_second spoken 450 450 550 1400 (queue 1 12800 ∷ forbid 26 ∷ []) (tt, (tt, tt)) refl
      refl
