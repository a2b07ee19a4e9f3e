-- ===== src/BusTrack/Race.antt =====
-- The race that the generation closes: a write queued while an exchange is on the wire.
use opentherm_thermostat_fir.Prelude.{
  ℕ, ◌+◌, ◌<◌, ◌≡◌, ◌≢◌, Bool, true, false, List, [], ◌∷◌, arith, refl, length,
}
use opentherm_thermostat_fir.Prelude.Word.{u32, u32_mod}
use opentherm_thermostat_fir.BusSched
use opentherm_thermostat_fir.BusSched.{Sched, BusStep, turn}
use opentherm_thermostat_fir.BusTrack.{Bus, write, done}

-- The writes that other tasks queue during an exchange, in their order.
unfoldable pub writes : Bus → List (ℕ × ℕ) → Bus
writes b [] = b
writes b ((data_id, value) ∷ ws) = writes (write b data_id value) ws

-- The last of them.
unfoldable pub last_write : ℕ × ℕ → List (ℕ × ℕ) → ℕ × ℕ
last_write w [] = w
last_write w (v ∷ ws) = last_write v ws

writes-gen :
    (b : Bus) (ws : List (ℕ × ℕ))
    → b.track.gen < u32_mod
    → (writes b ws).track.gen ≡ u32 (b.track.gen + length ws)
unfolding writes write
writes-gen b [] h = omega arith
writes-gen b ((data_id, value) ∷ ws) h =
    omega (arith, writes-gen (write b data_id value) ws (omega arith))

writes-queue :
    (b : Bus) (w : ℕ × ℕ) (ws : List (ℕ × ℕ))
    → let s = (writes b (w ∷ ws)).sched in (s.write_id, s.write_value) ≡ last_write w ws
unfolding writes write last_write BusSched.write
writes-queue b (data_id, value) [] = refl
writes-queue b (data_id, value) (v ∷ ws) = writes-queue (write b data_id value) v ws

done-queue :
    (s : Sched) (st : BusStep) (start_ms end_ms : ℕ)
    → let s' = BusSched.done s st start_ms end_ms in
      (s'.write_id ≡ s.write_id) × (s'.write_value ≡ s.write_value)
unfolding BusSched.done turn
done-queue s st start_ms end_ms = ground arith

-- A write queued during an exchange is never lost: whatever the exchange was, after it the last of
-- the writes queued meanwhile, fewer than 2^32, is pending with its identifier and its value.
pub no_write_lost :
    (b : Bus) (st : BusStep) (w : ℕ × ℕ) (ws : List (ℕ × ℕ)) (answered : Bool) (start_ms end_ms : ℕ)
    → b.track.gen < u32_mod
    → length (w ∷ ws) < u32_mod
    → let b' = done (writes b (w ∷ ws)) st b.track.gen answered start_ms end_ms in
      (b'.sched.write_pending ≡ true)
      × ((b'.sched.write_id, b'.sched.write_value) ≡ last_write w ws)
unfolding done
no_write_lost b st w ws answered start_ms end_ms word few =
    let during = writes b (w ∷ ws) in
    let moved : during.track.gen ≢ b.track.gen =
      λ e. omega (arith, e, writes-gen b (w ∷ ws) word) in
    let kept = done-queue during.sched st start_ms end_ms in
    (ground (arith, moved), ground (arith, kept, writes-queue b w ws))

-- And none is sent twice: with nothing queued meanwhile, a write whose exchange is over is no
-- longer pending, and an exchange that was none leaves the queue as it was.
pub no_write_repeated :
    (b : Bus) (st : BusStep) (answered : Bool) (start_ms end_ms : ℕ)
    → b.sched.status_turn_done ≡ true
    → let b' = done b st b.track.gen answered start_ms end_ms in
      (st.is_write ≡ true → b'.sched.write_pending ≡ false)
      × (st.is_write ≡ false → b'.sched.write_pending ≡ b.sched.write_pending)
unfolding done BusSched.done turn
no_write_repeated b st answered start_ms end_ms d = ground arith
