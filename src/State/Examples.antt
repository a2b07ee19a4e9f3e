-- ===== src/State/Examples.antt =====
-- Runs of the state over the list of the firmware.
use opentherm_thermostat_fir.Prelude.{
  ◌≡◌, ◌≢◌, ◌&&◌, refl, arith, false, ltb, List, [], ◌∷◌, none, some,
}
use opentherm_thermostat_fir.Prelude.Int.{pos}
use opentherm_thermostat_fir.Policy.Text.{bytes}
use opentherm_thermostat_fir.Frame.{read_ack, data_invalid, unknown_dataid}
use opentherm_thermostat_fir.Frame.Fixed.{fixed}
use opentherm_thermostat_fir.Registry.Lookup.{get_elem?, scan, reads_id, first_for_id, next_for_id}
use opentherm_thermostat_fir.Registry.Visits.{for_each_of_id, walk}
use opentherm_thermostat_fir.Registry.Table.{entities}
use opentherm_thermostat_fir.State.Model.{
  reset, apply_dataid, note_streak, availability_of, ok, invalid, fill_all, keep_bounds, fill,
  fill_found, store, set_at,
}
use opentherm_thermostat_fir.State.Refine.{MarkOp, changed, takes, answered, promised, marks_refine}
use opentherm_thermostat_fir.State.Reading.{meaning, shown}
use opentherm_thermostat_fir.State.Applied.{apply_fills}
use opentherm_thermostat_fir.State.Unsupported.{
  Answer, refusals, has_pair, run_answers, unsupported_iff_twice,
}
use opentherm_thermostat_fir.State.Virtual.{is_unsupported}
use opentherm_thermostat_fir.State.Sources.{
  StateOp, answers, sets, run_ops, answers_only, IsWire, wire_only,
}
use opentherm_thermostat_fir.State.NoValue.{no_value_unless_ok}

abbrev some_marks : List MarkOp
some_marks = changed 33 ∷ takes 0 (pos 33) ∷ takes 0 (pos 33) ∷ takes 1 (pos 33) ∷ []

marks_refine_example : answered 72 (λ c w. 0) some_marks ≡ promised 72 (λ c i. false) some_marks
marks_refine_example = marks_refine 72 some_marks

apply_fills_example :
    (apply_dataid (entities fixed) reset 25 read_ack 12800 7000).values 12
    ≡ shown
        (get_elem? (entities fixed) 12)
        25
        (meaning {fl = fixed} reset 25 read_ack)
        12800
        7000
        (reset.values 12)
apply_fills_example =
    apply_fills (entities fixed) reset 25 read_ack 12800 7000 12 (omega arith) (omega arith)

abbrev two_refusals : List Answer
two_refusals =
    record { data_id = 27; type = unknown_dataid; raw = 0; now_ms = 1000 }
    ∷ record { data_id = 25; type = read_ack; raw = 12800; now_ms = 2000 }
    ∷ record { data_id = 27; type = unknown_dataid; raw = 0; now_ms = 3000 }
    ∷ []

unsupported_iff_twice_example :
    is_unsupported (run_answers (entities fixed) reset two_refusals) 27
    ≡ (ltb 27 128 && has_pair (refusals 27 two_refusals))
unsupported_iff_twice_example = unsupported_iff_twice (entities fixed) two_refusals 27

abbrev both_writers : List (StateOp fixed)
both_writers =
    answers (record { data_id = 25; type = read_ack; raw = 12800; now_ms = 2000 })
    ∷ sets (some (bytes "failsafe_count")) (fixed.of_int (pos 3)) 2500
    ∷ answers (record { data_id = 25; type = data_invalid; raw = 0; now_ms = 3000 })
    ∷ []

twelfth-IsWire : IsWire (entities fixed) 12
unfolding get_elem?
twelfth-IsWire e g = ground (arith, g)

wire_only_example :
    (run_ops (entities fixed) reset both_writers).values 12
    ≡ (run_answers (entities fixed) reset (answers_only both_writers)).values 12
wire_only_example = wire_only (entities fixed) 12 both_writers twelfth-IsWire

abbrev one_refusal : Answer
one_refusal = record { data_id = 27; type = data_invalid; raw = 65535; now_ms = 3000 }

answer_invalid :
    ((run_ops (entities fixed) reset (answers one_refusal ∷ [])).values 14).availability ≡ invalid
unfolding run_ops apply_dataid note_streak availability_of fill_all keep_bounds fill fill_found
    store for_each_of_id walk first_for_id next_for_id scan reads_id get_elem? set_at
answer_invalid = refl

refused : ((run_ops (entities fixed) reset (answers one_refusal ∷ [])).values 14).availability ≢ ok
refused = ground (arith, answer_invalid)

no_value_unless_ok_example :
    let v = (run_ops (entities fixed) reset (answers one_refusal ∷ [])).values 14 in
    (v.number ≡ none) × (v.boolean ≡ false)
no_value_unless_ok_example =
    no_value_unless_ok (entities fixed) (answers one_refusal ∷ []) 14 refused
