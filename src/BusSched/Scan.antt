-- ===== src/BusSched/Scan.antt =====
-- The sweep of the Data-IDs and the queued write, turn by turn.
use opentherm_thermostat_fir.Prelude.{
  ℕ, zero, suc, ◌+◌, ◌≤◌, ◌<◌, ◌≡◌, true, false, List, [], ◌∷◌, arith, refl, ap, ap₂, if◌then◌else◌,
}
use opentherm_thermostat_fir.BusSched.{Sched, write, scan, slot, turn, done}

-- A full turn of the bus: the status conversation, then the meaningful one, which asks for `id`.
unfoldable pub round : Sched → Sched × ℕ
round s =
    let s1 = done s (slot s false) 0 0 in let st = slot s1 false in (done s1 st 0 0, st.data_id)

-- The identifiers that the meaningful slots of `n` full turns ask for.
unfoldable pub asked : ℕ → Sched → List ℕ
asked zero s = []
asked (suc n) s = let (s', data_id) = round s in data_id ∷ asked n s'

unfoldable pub after : ℕ → Sched → Sched
after zero s = s
after (suc n) s = after n (round s).0

-- `n` numbers from `a` on.
unfoldable pub count_up : ℕ → ℕ → List ℕ
count_up a zero = []
count_up a (suc n) = a ∷ count_up (a + 1) n

-- A sweep at `at` with the last identifier `to`, before the status slot, and no write queued.
abbrev pub Sweeping : Sched → ℕ → ℕ → Type 0
Sweeping s at to =
    (s.scan_active ≡ true)
    × (s.scan_next ≡ at)
    × (s.scan_to ≡ to)
    × (s.write_pending ≡ false)
    × (s.status_turn_done ≡ false)

round-middle :
    (s : Sched) (at to : ℕ)
    → Sweeping s at to
    → at < to
    → ((round s).1 ≡ at) × Sweeping (round s).0 (at + 1) to
unfolding round done slot turn
round-middle s at to w h = ground arith

round-last :
    (s : Sched) (at to : ℕ)
    → Sweeping s at to
    → to ≤ at
    → ((round s).1 ≡ at) × ((round s).0.scan_active ≡ false)
unfolding round done slot turn
round-last s at to w h = ground arith

sweep_runs :
    (n : ℕ) (s : Sched) (at to : ℕ)
    → Sweeping s at to
    → at + n ≡ to
    → (asked (suc n) s ≡ count_up at (suc n)) × ((after (suc n) s).scan_active ≡ false)
unfolding asked after count_up
sweep_runs zero s at to w e =
    let r = round-last s at to w (omega arith) in (ap (λ a. a ∷ []) r.0, r.1)
sweep_runs (suc n) s at to w e =
    let r = round-middle s at to w (omega arith) in
    let ih = sweep_runs n (round s).0 (at + 1) to r.1 (omega arith) in (ap₂ ◌∷◌ r.0 ih.0, ih.1)

scan_up :
    (s : Sched) (from n : ℕ)
    → s.write_pending ≡ false
    → s.status_turn_done ≡ false
    → Sweeping (scan s from (from + n)) from (from + n)
unfolding scan
scan_up s from n w t = ground arith

scan_down :
    (s : Sched) (from n : ℕ)
    → s.write_pending ≡ false
    → s.status_turn_done ≡ false
    → Sweeping (scan s (from + n) from) from (from + n)
unfolding scan
scan_down s from n w t = ground arith

-- A sweep asks every identifier from the lower to the upper bound exactly once and in order, one a
-- turn, whichever bound is named first, and is over after the last: with no write queued, the
-- meaningful slots of the next (upper - lower + 1) turns ask for these and nothing else.
pub scan_covers :
    (s : Sched) (from n : ℕ)
    → s.write_pending ≡ false
    → s.status_turn_done ≡ false
    → (asked (suc n) (scan s from (from + n)) ≡ count_up from (suc n))
      × (asked (suc n) (scan s (from + n) from) ≡ count_up from (suc n))
      × ((after (suc n) (scan s from (from + n))).scan_active ≡ false)
scan_covers s from n w t =
    let up = sweep_runs n (scan s from (from + n)) from (from + n) (scan_up s from n w t) refl in
    let down =
      sweep_runs n (scan s (from + n) from) from (from + n) (scan_down s from n w t) refl in
    (up.0, down.0, up.1)

-- A queued write goes out in the next meaningful slot, before a sweep or the polling ring, and
-- once: of the two conversations after it, the one that is not the status carries it, and after
-- both nothing is pending.
pub write_goes_next :
    (s : Sched) (data_id value start1 end1 start2 end2 : ℕ)
    → let s0 = write s data_id value in
      let a = slot s0 false in
      let s1 = done s0 a start1 end1 in
      let b = slot s1 false in
      let s2 = done s1 b start2 end2 in
      let sent = if s.status_turn_done then a else b in
      (sent.is_write ≡ true)
      × (sent.data_id ≡ data_id)
      × (sent.value ≡ value)
      × (s2.write_pending ≡ false)
unfolding write slot done turn
write_goes_next s data_id value start1 end1 start2 end2 = ground arith
