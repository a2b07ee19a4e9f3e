-- ===== src/BusSched.antt =====
-- components/ot_bus_sched/ot_bus_sched.c: what to ask the boiler, and when.
-- `poll` holds the first `poll_count` bytes of the source's array, the only ones that it reads.
pub mod Timing
pub mod Ring
pub mod Turns
pub mod Scan
mod Examples
use opentherm_thermostat_fir.Prelude.{
  ℕ, ◌+◌, ◌-◌, ◌*◌, ◌%◌, Bool, true, false, not, ◌&&◌, ◌||◌, Option, none, some, List, [], ◌∷◌, ltb,
  leb, ◌==◌, if◌then◌else◌, length, get_or, take, min,
}
use opentherm_thermostat_fir.Prelude.Word.{sub32}

abbrev pub period_ms : ℕ
period_ms = 950

abbrev pub min_gap_ms : ℕ
min_gap_ms = 100

abbrev pub deadline_ms : ℕ
deadline_ms = 1150

abbrev pub max_poll : ℕ
max_poll = 32

pub data Verb : Type 0 where
  wait talk : Verb

-- `ot_bus_step_t`.
pub record BusStep : Type 0 where
  pub verb : Verb
  pub delay_ms : ℕ
  pub data_id : ℕ
  pub is_write : Bool
  pub value : ℕ
  pub overdue : Bool

-- `ot_bus_sched_t`.
pub record Sched : Type 0 where
  pub scan_active : Bool
  pub scan_from : ℕ
  pub scan_to : ℕ
  pub scan_next : ℕ
  pub poll : List ℕ
  pub next : ℕ
  pub write_pending : Bool
  pub write_id : ℕ
  pub write_value : ℕ
  pub last_start_ms : ℕ
  pub last_end_ms : ℕ
  pub started : Bool
  pub status_turn_done : Bool
  pub status_high : ℕ

-- `poll_table` is what `poll` points to, or none for NULL.
unfoldable pub init : Option (List ℕ) → ℕ → Sched
init poll_table count = record {
  scan_active = false;
  scan_from = 0;
  scan_to = 0;
  scan_next = 0;
  poll = elim poll_table [ none ↦ [] | some l ↦ take (min count max_poll) l ];
  next = 0;
  write_pending = false;
  write_id = 0;
  write_value = 0;
  last_start_ms = 0;
  last_end_ms = 0;
  started = false;
  status_turn_done = false;
  status_high = 0;
}

unfoldable pub write : Sched → ℕ → ℕ → Sched
write s data_id value = record s { write_pending = true; write_id = data_id; write_value = value }

unfoldable pub set_status : Sched → ℕ → Sched
set_status s high = record s { status_high = high }

-- The loop of ot_bus_sched_disable() from index `i`: what is kept, and how many entries to the left
-- of `next` are dropped.
unfoldable pub compact : ℕ → ℕ → ℕ → List ℕ → List ℕ × ℕ
compact data_id next i [] = ([], 0)
compact data_id next i (p ∷ ps) =
    let (kept, dropped) = compact data_id next (i + 1) ps in
    if not (p == data_id)
    then (p ∷ kept, dropped)
    else (kept, (if ltb i next then dropped + 1 else dropped))

unfoldable pub disable : Sched → ℕ → Sched
disable s data_id =
    let (kept, dropped) = compact data_id s.next 0 s.poll in
    let moved = s.next - dropped in
    record s {
      poll = kept;
      next = if length kept == 0 || leb (length kept) moved then 0 else moved;
    }

abbrev pub waiting : ℕ → BusStep
waiting delay = record {
  verb = wait;
  delay_ms = delay;
  data_id = 0;
  is_write = false;
  value = 0;
  overdue = false;
}

abbrev pub talking : Bool → ℕ → Bool → ℕ → BusStep
talking late data_id' is_write' value' = record {
  verb = talk;
  delay_ms = 0;
  data_id = data_id';
  is_write = is_write';
  value = value';
  overdue = late;
}

-- The slots of ot_bus_sched_step(), in their order.
unfoldable pub slot : Sched → Bool → BusStep
slot s late =
    if not s.status_turn_done
    then talking late 0 false (s.status_high * 256)
    else if s.write_pending
    then talking late s.write_id true s.write_value
    else if s.scan_active
    then talking late s.scan_next false 0
    else if ltb 0 (length s.poll)
    then talking late (get_or s.poll (s.next % length s.poll) 0) false 0
    else talking late 0 false (s.status_high * 256)

unfoldable pub step : Sched → ℕ → BusStep
step s now_ms =
    let by_period = sub32 now_ms s.last_start_ms in
    let by_gap = sub32 now_ms s.last_end_ms in
    if not s.started
    then slot s false
    else if ltb by_period period_ms
    then waiting (
        if ltb by_gap min_gap_ms && ltb (period_ms - by_period) (min_gap_ms - by_gap)
        then min_gap_ms - by_gap
        else period_ms - by_period)
    else if ltb by_gap min_gap_ms
    then waiting (min_gap_ms - by_gap)
    else slot s (ltb deadline_ms by_period)

-- A pair of bounds in the wrong order is swapped.
unfoldable pub scan : Sched → ℕ → ℕ → Sched
scan s from to =
    let low = if ltb to from then to else from in
    let high = if ltb to from then from else to in
    record s { scan_from = low; scan_to = high; scan_next = low; scan_active = true }

unfoldable pub scan_stop : Sched → Sched
scan_stop s = record s { scan_active = false }

-- The pair `*done`, `*total`.
unfoldable pub scan_progress : Sched → ℕ × ℕ
scan_progress s =
    if not s.scan_active
    then (0, 0)
    else ((s.scan_next + 65536 - s.scan_from) % 65536, (s.scan_to + 65537 - s.scan_from) % 65536)

-- The meaningful slot is over.
unfoldable pub turn : Sched → BusStep → Sched
turn s st =
    if s.scan_active && not st.is_write
    then (if leb s.scan_to s.scan_next
        then record s { scan_active = false }
        else record s { scan_next = s.scan_next + 1 })
    else if st.is_write
    then record s { write_pending = false }
    else if ltb 0 (length s.poll)
    then record s { next = (s.next + 1) % length s.poll }
    else s

unfoldable pub done : Sched → BusStep → ℕ → ℕ → Sched
done s st start_ms end_ms =
    let timed = record s { started = true; last_start_ms = start_ms; last_end_ms = end_ms } in
    if not timed.status_turn_done
    then record timed { status_turn_done = true }
    else turn (record timed { status_turn_done = false }) st
