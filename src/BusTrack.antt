-- ===== src/BusTrack.antt =====
-- components/ot_bus_track/ot_bus_track.c: the bookkeeping of the writes around the queue of one.
pub mod Race
mod Examples
use opentherm_thermostat_fir.Prelude.{ℕ, ◌+◌, Bool, true, not, ◌&&◌, ◌==◌, if◌then◌else◌}
use opentherm_thermostat_fir.Prelude.Word.{u32}
use opentherm_thermostat_fir.BusSched
use opentherm_thermostat_fir.BusSched.{Sched, BusStep}

-- `ot_bus_track_t`.
pub record Track : Type 0 where
  pub gen : ℕ
  pub id1_seq : ℕ
  pub id1_raw : ℕ

-- The two structs that the caller holds under one lock.
pub record Bus : Type 0 where
  pub track : Track
  pub sched : Sched

unfoldable pub write : Bus → ℕ → ℕ → Bus
write b data_id value = record {
  track = record (b.track) { gen = u32 (b.track.gen + 1) };
  sched = BusSched.write b.sched data_id value;
}

unfoldable pub write_if_idle : Bus → ℕ → ℕ → Bus × Bool
write_if_idle b data_id value =
    let idle = not b.sched.write_pending in ((if idle then write b data_id value else b), idle)

-- An answered ID 1 write is counted, with the value that went out.
unfoldable pub count_id1 : Track → BusStep → Bool → Track
count_id1 t st answered =
    if st.is_write && (answered && (st.data_id == 1))
    then record t { id1_seq = u32 (t.id1_seq + 1); id1_raw = st.value }
    else t

unfoldable pub done : Bus → BusStep → ℕ → Bool → ℕ → ℕ → Bus
done b st gen_at_step answered start_ms end_ms =
    let finished = BusSched.done b.sched st start_ms end_ms in
    record {
      track = count_id1 b.track st answered;
      sched =
          if not (b.track.gen == gen_at_step)
          then record finished { write_pending = true }
          else finished;
    }
