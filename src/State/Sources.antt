-- ===== src/State/Sources.antt =====
-- The two writers of the values do not touch each other's entities.
use opentherm_thermostat_fir.Prelude.{
  ℕ, ◌≡◌, ◌∙◌, refl, sym, ap, arith, true, List, [], ◌∷◌, Option, none, some,
}
use opentherm_thermostat_fir.Prelude.Int.{pos, leb_ℤ}
use opentherm_thermostat_fir.Frame.{MsgType}
use opentherm_thermostat_fir.Frame.Numbers.{Numbers}
use opentherm_thermostat_fir.Registry.Types.{Entity}
use opentherm_thermostat_fir.Registry.Lookup.{get_elem?, index_of}
use opentherm_thermostat_fir.State.Model.{
  State, Availability, set_at, store, reset, note_streak, availability_of, fill_all, apply_dataid,
}
use opentherm_thermostat_fir.State.Fill.{value_after, fill_all-value}
use opentherm_thermostat_fir.State.Unsupported.{Answer, fill_all-SameCounts, run_answers}
use opentherm_thermostat_fir.State.Virtual.{set_virtual, set_found, set_index, set_entity}

-- A call of one of the two writers.
pub data StateOp (fl : Numbers) : Type 0 where
  answers : Answer → StateOp fl
  sets : Option (List ℕ) → fl.Float → ℕ → StateOp fl

-- The entity at the position is one of the boiler's.
abbrev pub IsWire : {fl : Numbers} → List (Entity fl) → ℕ → Type 0
IsWire {fl} table i = (e : Entity fl) → get_elem? table i ≡ some e → leb_ℤ (pos 0) e.data_id ≡ true

module _ {fl : Numbers} where
  unfoldable pub answers_only : List (StateOp fl) → List Answer
  answers_only [] = []
  answers_only (answers a ∷ os) = a ∷ answers_only os
  answers_only (sets key value now_ms ∷ os) = answers_only os

  unfoldable pub run_ops : List (Entity fl) → State fl → List (StateOp fl) → State fl
  run_ops table s [] = s
  run_ops table s (answers a ∷ os) =
      run_ops table (apply_dataid table s a.data_id a.type a.raw a.now_ms) os
  run_ops table s (sets key value now_ms ∷ os) =
      run_ops table (set_virtual table s key value now_ms).0 os

  -- What the answers depend on and what they decide, for position `i`.
  abbrev pub Agree : ℕ → State fl → State fl → Type 0
  Agree i s t =
      (s.values i ≡ t.values i)
      × (s.unknown_streak ≡ t.unknown_streak)
      × (s.unsupported ≡ t.unsupported)

  note_streak-Agree :
      (i : ℕ) (s t : State fl) (data_id : ℕ) (type : MsgType)
      → Agree i s t
      → Agree i (note_streak s data_id type) (note_streak t data_id type)
  unfolding note_streak
  note_streak-Agree i s t data_id type h = ground (arith, h)

  same_availability :
      (s t : State fl) (data_id : ℕ) (type : MsgType)
      → s.unsupported ≡ t.unsupported
      → availability_of s data_id type ≡ availability_of t data_id type
  unfolding availability_of
  same_availability s t data_id type h = ground (arith, ap (λ f. f data_id) h)

  fill_all-Agree :
      (table : List (Entity fl)) (i : ℕ) (s t : State fl) (data_id : ℕ)
      (avail : Option Availability) (raw now_ms : ℕ)
      → Agree i s t
      → Agree i
          (fill_all table s data_id avail raw now_ms)
          (fill_all table t data_id avail raw now_ms)
  unfolding fill_all
  fill_all-Agree table i s t data_id none raw now_ms h = h
  fill_all-Agree table i s t data_id (some avail) raw now_ms h =
      let cs = fill_all-SameCounts table s data_id (some avail) raw now_ms in
      let ct = fill_all-SameCounts table t data_id (some avail) raw now_ms in
      (
        fill_all-value table data_id avail raw now_ms s i
            ∙ ap (value_after table data_id avail raw now_ms i) h.0
            ∙ sym (fill_all-value table data_id avail raw now_ms t i),
        cs.0 ∙ h.1 ∙ sym ct.0,
        cs.1 ∙ h.2 ∙ sym ct.1,
      )

  apply-Agree :
      (table : List (Entity fl)) (i : ℕ) (s t : State fl) (a : Answer)
      → Agree i s t
      → Agree i
          (apply_dataid table s a.data_id a.type a.raw a.now_ms)
          (apply_dataid table t a.data_id a.type a.raw a.now_ms)
  unfolding apply_dataid
  apply-Agree table i s t a h =
      let ns = note_streak s a.data_id a.type in
      let nt = note_streak t a.data_id a.type in
      let noted = note_streak-Agree i s t a.data_id a.type h in
      let filled =
        fill_all-Agree table i ns nt a.data_id (availability_of ns a.data_id a.type) a.raw a.now_ms
          noted in
      let same = same_availability ns nt a.data_id a.type noted.2 in
      let agreed : Agree i
          (fill_all table ns a.data_id (availability_of ns a.data_id a.type) a.raw a.now_ms)
          (fill_all table nt a.data_id (availability_of nt a.data_id a.type) a.raw a.now_ms) =
        rw (sym same) filled in
      ground (arith, h, agreed)

  set_entity-Agree :
      (i j : ℕ) (s t : State fl) (e : Entity fl) (value : fl.Float) (now_ms : ℕ)
      → (i ≡ j → leb_ℤ (pos 0) e.data_id ≡ true)
      → Agree i s t
      → Agree i (set_entity s j e value now_ms).0 t
  unfolding set_entity store set_at
  set_entity-Agree i j s t e value now_ms w h = ground (arith, w, h)

  set_found-Agree :
      (table : List (Entity fl)) (i : ℕ) (s t : State fl) (value : fl.Float) (now_ms j : ℕ)
      (found : Option (Entity fl))
      → get_elem? table j ≡ found
      → IsWire table i
      → Agree i s t
      → Agree i (set_found s j found value now_ms).0 t
  unfolding set_found
  set_found-Agree table i s t value now_ms j none g w h = h
  set_found-Agree table i s t value now_ms j (some e) g w h =
      set_entity-Agree i j s t e value now_ms (λ same. w e (ap (get_elem? table) same ∙ g)) h

  set_index-Agree :
      (table : List (Entity fl)) (i : ℕ) (s t : State fl) (index : Option ℕ) (value : fl.Float)
      (now_ms : ℕ)
      → IsWire table i
      → Agree i s t
      → Agree i (set_index table s index value now_ms).0 t
  unfolding set_index
  set_index-Agree table i s t none value now_ms w h = h
  set_index-Agree table i s t (some j) value now_ms w h =
      set_found-Agree table i s t value now_ms j (get_elem? table j) refl w h

  run-Agree :
      (table : List (Entity fl)) (i : ℕ) (s t : State fl) (os : List (StateOp fl))
      → IsWire table i
      → Agree i s t
      → (run_ops table s os).values i ≡ (run_answers table t (answers_only os)).values i
  unfolding run_ops run_answers answers_only set_virtual
  run-Agree table i s t [] w h = h.0
  run-Agree table i s t (answers a ∷ os) w h =
      run-Agree table i (apply_dataid table s a.data_id a.type a.raw a.now_ms)
        (apply_dataid table t a.data_id a.type a.raw a.now_ms) os w (apply-Agree table i s t a h)
  run-Agree table i s t (sets key value now_ms ∷ os) w h =
      run-Agree table i (set_virtual table s key value now_ms).0 t os w
        (set_index-Agree table i s t (index_of table key) value now_ms w h)

  -- The value of a boiler's entity comes from the wire alone: after any answers and any settings of
  -- virtual values, in any order and for any keys, its availability, its value and its moment are
  -- those that the answers alone leave.
  pub wire_only :
      (table : List (Entity fl)) (i : ℕ) (os : List (StateOp fl))
      → IsWire table i
      → (run_ops table reset os).values i ≡ (run_answers table reset (answers_only os)).values i
  wire_only table i os w = run-Agree table i reset reset os w (refl, refl, refl)
