-- ===== src/State/Unsupported.antt =====
-- When a Data-ID counts as unsupported.
use opentherm_thermostat_fir.Prelude.{
  ℕ, ◌<◌, ◌≡◌, refl, ap, arith, Bool, false, ◌&&◌, ◌||◌, ltb, leb, ◌==◌, List, [], ◌∷◌, Option,
  none, some, if◌then◌else◌,
}
use opentherm_thermostat_fir.Frame.{MsgType}
use opentherm_thermostat_fir.Frame.Numbers.{Numbers}
use opentherm_thermostat_fir.Registry.Types.{Entity}
use opentherm_thermostat_fir.Registry.Visits.{visits_keep}
use opentherm_thermostat_fir.State.Model.{
  State, Availability, data_ids, set_at, store, reset, note_streak, availability_of, keep_bounds,
  fill, fill_found, fill_all, apply_dataid, is_unknown_dataid,
}
use opentherm_thermostat_fir.State.Virtual.{is_unsupported}

-- What a call of ot_state_apply_dataid() is given.
pub record Answer : Type 0 where
  pub data_id : ℕ
  pub type : MsgType
  pub raw : ℕ
  pub now_ms : ℕ

-- For each answer about the Data-ID, whether it was unknown-dataid.
unfoldable pub refusals : ℕ → List Answer → List Bool
refusals id [] = []
refusals id (a ∷ rest) =
    if a.data_id == id then is_unknown_dataid a.type ∷ refusals id rest else refusals id rest

-- Two in a row.
unfoldable pub has_pair : List Bool → Bool
has_pair [] = false
has_pair (x ∷ []) = false
has_pair (x ∷ y ∷ rest) = x && y || has_pair (y ∷ rest)

after_none : (xs : List Bool) → has_pair (false ∷ xs) ≡ has_pair xs
unfolding has_pair
after_none [] = refl
after_none (x ∷ xs) = refl

-- The counts that the loop over the entities leaves alone.
abbrev SameCounts : {fl : Numbers} → State fl → State fl → Type 0
SameCounts s t = (t.unknown_streak ≡ s.unknown_streak) × (t.unsupported ≡ s.unsupported)

module _ {fl : Numbers} (table : List (Entity fl)) where
  fill-SameCounts :
      (avail : Availability) (raw now_ms j : ℕ) (s t : State fl)
      → SameCounts s t
      → SameCounts s (fill table avail raw now_ms j t)
  unfolding fill fill_found store
  fill-SameCounts avail raw now_ms j s t h = ground (arith, h)

  keep_bounds-SameCounts :
      (s : State fl) (data_id : ℕ) (avail : Availability) (raw : ℕ)
      → SameCounts s (keep_bounds s data_id avail raw)
  unfolding keep_bounds
  keep_bounds-SameCounts s data_id avail raw = ground arith

  pub fill_all-SameCounts :
      (s : State fl) (data_id : ℕ) (avail : Option Availability) (raw now_ms : ℕ)
      → SameCounts s (fill_all table s data_id avail raw now_ms)
  unfolding fill_all
  fill_all-SameCounts s data_id none raw now_ms = (refl, refl)
  fill_all-SameCounts s data_id (some avail) raw now_ms =
      visits_keep (SameCounts s) table data_id (fill table avail raw now_ms)
        (keep_bounds s data_id avail raw) (λ j t h. fill-SameCounts avail raw now_ms j s t h)
        (keep_bounds-SameCounts s data_id avail raw)

  unfoldable pub run_answers : State fl → List Answer → State fl
  run_answers s [] = s
  run_answers s (a ∷ rest) = run_answers (apply_dataid table s a.data_id a.type a.raw a.now_ms) rest

  noted :
      (s : State fl) (a : Answer) (id : ℕ)
      → let t = note_streak s a.data_id a.type in
        (t.unsupported id ≡ (
          if a.data_id == id
          then (if is_unknown_dataid a.type
              then leb 1 (s.unknown_streak id) || s.unsupported id
              else s.unsupported id)
          else s.unsupported id))
        × (leb 1 (t.unknown_streak id)
            ≡ (if a.data_id == id then is_unknown_dataid a.type else leb 1 (s.unknown_streak id)))
  unfolding note_streak set_at
  noted s a id = ground arith

  apply-noted :
      (s : State fl) (a : Answer) (id : ℕ)
      → let t = apply_dataid table s a.data_id a.type a.raw a.now_ms in
        let n = note_streak s a.data_id a.type in
        let past = leb data_ids a.data_id in
        (t.unsupported id ≡ (if past then s.unsupported id else n.unsupported id))
        × (t.unknown_streak id ≡ (if past then s.unknown_streak id else n.unknown_streak id))
  unfolding apply_dataid
  apply-noted s a id =
      let n = note_streak s a.data_id a.type in
      let kept =
        fill_all-SameCounts n a.data_id (availability_of n a.data_id a.type) a.raw a.now_ms in
      ground (arith, ap (λ f. f id) kept.0, ap (λ f. f id) kept.1)

  run-refusals :
      (s : State fl) (answers : List Answer) (id : ℕ)
      → id < data_ids
      → (run_answers s answers).unsupported id
        ≡ (s.unsupported id || has_pair (leb 1 (s.unknown_streak id) ∷ refusals id answers))
  unfolding run_answers refusals has_pair
  run-refusals s [] id h = ground arith
  run-refusals s (a ∷ rest) id h =
      let t = apply_dataid table s a.data_id a.type a.raw a.now_ms in
      ground (arith, run-refusals t rest id h, apply-noted s a id, h, noted s a id)

  fresh :
      (answers : List Answer) (id : ℕ)
      → let s : State fl = reset in
        (s.unsupported id ≡ false)
        × (has_pair (leb 1 (s.unknown_streak id) ∷ refusals id answers)
            ≡ has_pair (refusals id answers))
  unfolding reset
  fresh answers id = (refl, after_none (refusals id answers))

  -- A Data-ID is unsupported exactly when the boiler has answered unknown-dataid twice in a row:
  -- from the reset on, after any answers, two consecutive answers about that Data-ID were
  -- unknown-dataid, whatever was answered about others between them and about it since.
  pub unsupported_iff_twice :
      (answers : List Answer) (id : ℕ)
      → is_unsupported (run_answers reset answers) id
        ≡ (ltb id data_ids && has_pair (refusals id answers))
  unfolding is_unsupported
  unsupported_iff_twice answers id = ground (arith, run-refusals reset answers id, fresh answers id)
