-- ===== src/BusSched/Turns.antt =====
-- The turns of the bus: the mandatory status, the queued write and the invariant, over every
-- sequence of calls.
use opentherm_thermostat_fir.Prelude.{
  ℕ, ◌+◌, ◌*◌, ◌≤◌, ◌<◌, ◌≡◌, ◌⊎◌, true, false, List, [], ◌∷◌, Option, none, some, All, arith, refl,
  length, take, min, zero, suc, not, inl, inr, ap, ◌∙◌, Bool-cases,
}
use opentherm_thermostat_fir.BusSched.{
  Sched, BusStep, wait, talk, init, write, set_status, compact, disable, scan, scan_stop, slot,
  step, turn, done,
}

-- The calls that the tasks make. A conversation asks for the step at `now_ms` and, if it is time to
-- talk, is finished with the moments of its start and its end.
pub data BusOp : Type 0 where
  queue : ℕ → ℕ → BusOp
  status : ℕ → BusOp
  forbid : ℕ → BusOp
  sweep : ℕ → ℕ → BusOp
  stop_sweep : BusOp
  converse : ℕ → ℕ → ℕ → BusOp

unfoldable pub finish : Sched → BusStep → ℕ → ℕ → Sched
finish s st start_ms end_ms = elim st.verb [ wait ↦ s | talk ↦ done s st start_ms end_ms ]

unfoldable pub react : Sched → BusOp → Sched
react s (queue data_id value) = write s data_id value
react s (status high) = set_status s high
react s (forbid data_id) = disable s data_id
react s (sweep from to) = scan s from to
react s stop_sweep = scan_stop s
react s (converse now_ms start_ms end_ms) = finish s (step s now_ms) start_ms end_ms

unfoldable pub run : Sched → List BusOp → Sched
run s [] = s
run s (o ∷ os) = run (react s o) os

-- The position lies in the ring, the ring in its array, and the sweep between its bounds.
pub record IsValid (s : Sched) : Type 0 where
  pub position : (s.next < length s.poll) ⊎ ((s.next ≡ 0) × (length s.poll ≡ 0))
  pub fits : length s.poll ≤ 32
  pub sweep_from : s.scan_active ≡ true → s.scan_from ≤ s.scan_next
  pub sweep_to : s.scan_active ≡ true → s.scan_next ≤ s.scan_to

length-take : (n : ℕ) (xs : List ℕ) → length (take n xs) ≤ n
length-take zero xs = omega arith
length-take (suc n) [] = omega arith
length-take (suc n) (x ∷ xs) = omega (arith, length-take n xs)

length-compact : (a next i : ℕ) (ps : List ℕ) → length (compact a next i ps).0 ≤ length ps
unfolding compact
length-compact a next i [] = omega arith
length-compact a next i (p ∷ ps) = ground (arith, length-compact a next (i + 1) ps)

position_of : (n : ℕ) → (0 < n) ⊎ (◌≡◌ {A = ℕ} 0 0 × (n ≡ 0))
position_of zero = inr (refl, refl)
position_of (suc n) = inl (omega arith)

init-IsValid : (poll_table : Option (List ℕ)) (count : ℕ) → IsValid (init poll_table count)
unfolding init
init-IsValid none count = ground arith
init-IsValid (some l) count =
    let n = length-take (min count 32) l in
    record {
      position = position_of (length (take (min count 32) l));
      fits = omega (arith, n);
      sweep_from = λ e. cc;
      sweep_to = λ e. cc;
    }

disable-IsValid : (s : Sched) (a : ℕ) → IsValid s → IsValid (disable s a)
unfolding disable
disable-IsValid s a v = ground (arith, length-compact a s.next 0 s.poll)

done-IsValid :
    (s : Sched) (st : BusStep) (start_ms end_ms : ℕ)
    → IsValid s
    → IsValid (done s st start_ms end_ms)
unfolding done turn
done-IsValid s st start_ms end_ms v = ground arith

react-IsValid : (s : Sched) (o : BusOp) → IsValid s → IsValid (react s o)
unfolding react finish
react-IsValid s (queue data_id value) v = unfold write in ground arith
react-IsValid s (status high) v = unfold set_status in ground arith
react-IsValid s (forbid data_id) v = disable-IsValid s data_id v
react-IsValid s (sweep from to) v = unfold scan in ground arith
react-IsValid s stop_sweep v = unfold scan_stop in ground arith
react-IsValid s (converse now_ms start_ms end_ms) v =
    ground (arith, done-IsValid s (step s now_ms) start_ms end_ms v)

run-IsValid : (s : Sched) (os : List BusOp) → IsValid s → IsValid (run s os)
unfolding run
run-IsValid s [] v = v
run-IsValid s (o ∷ os) v = run-IsValid (react s o) os (react-IsValid s o v)

-- After a start and any calls, in any order, the scheduler is well formed: no poll index outside
-- the ring, no ring longer than its array, no sweep outside its bounds.
pub reachable-IsValid :
    (poll_table : Option (List ℕ)) (count : ℕ) (os : List BusOp)
    → IsValid (run (init poll_table count) os)
reachable-IsValid poll_table count os =
    run-IsValid (init poll_table count) os (init-IsValid poll_table count)

abbrev pub NoTalk : BusOp → Type 0
NoTalk (converse _ _ _) = ⊥
NoTalk _ = Unit

-- The mandatory status frame of a state: ID 0, a read, the master's flags in the high byte.
abbrev pub Mandatory : Sched → BusStep → Type 0
Mandatory s st = (st.data_id ≡ 0) × (st.is_write ≡ false) × (st.value ≡ s.status_high * 256)

slot-Mandatory :
    (s : Sched) (now_ms : ℕ)
    → (step s now_ms).verb ≡ talk
    → s.status_turn_done ≡ false
    → Mandatory s (step s now_ms)
unfolding step slot
slot-Mandatory s now_ms t d = ground arith

done-flips :
    (s : Sched) (st : BusStep) (start_ms end_ms : ℕ)
    → (done s st start_ms end_ms).status_turn_done ≡ not s.status_turn_done
unfolding done turn
done-flips s st start_ms end_ms = ground arith

react-turn : (s : Sched) (o : BusOp) → NoTalk o → (react s o).status_turn_done ≡ s.status_turn_done
unfolding react write set_status disable scan scan_stop
react-turn s (converse now_ms start_ms end_ms) n = absurd n
react-turn s (queue data_id value) n = refl
react-turn s (status high) n = refl
react-turn s (forbid data_id) n = refl
react-turn s (sweep from to) n = refl
react-turn s stop_sweep n = refl

run-turn :
    (s : Sched) (os : List BusOp) → All NoTalk os → (run s os).status_turn_done ≡ s.status_turn_done
unfolding run
run-turn s [] n = refl
run-turn s (o ∷ os) n = run-turn (react s o) os n.1 ∙ react-turn s o n.0

-- Of any two conversations in a row one is the mandatory status, which carries the flags of its
-- own moment: writes, disabled identifiers, sweeps and an empty ring between them do not matter.
pub status_every_second :
    (s : Sched) (now_ms start_ms end_ms now' : ℕ) (os : List BusOp)
    → All NoTalk os
    → (step s now_ms).verb ≡ talk
    → let s' = run (done s (step s now_ms) start_ms end_ms) os in
      (step s' now').verb ≡ talk → Mandatory s (step s now_ms) ⊎ Mandatory s' (step s' now')
status_every_second s now_ms start_ms end_ms now' os n t t' =
    let s1 = done s (step s now_ms) start_ms end_ms in
    elim (Bool-cases s.status_turn_done) [
      | inr first ↦ inl (slot-Mandatory s now_ms t first)
      | inl second ↦ inr (
          slot-Mandatory (run s1 os) now' t'
            (run-turn s1 os n ∙ done-flips s (step s now_ms) start_ms end_ms ∙ ap not second))
    ]
