-- ===== src/Room/Steer.antt =====
-- The selections against what they are for: the first fresh room source steers, and no ambient one.
use opentherm_thermostat_fir.Prelude.{
  ℕ, ◌+◌, ◌≡◌, ◌⊎◌, inl, inr, Bool, true, false, not, ◌&&◌, ◌||◌, Option, none, some, List, [], ◌∷◌,
  arith, refl, if◌then◌else◌, ap, ap₂, sym, ◌∙◌,
}
use opentherm_thermostat_fir.Prelude.Int.{pos, negsuc}
use opentherm_thermostat_fir.Room.Floats.{Floats}
use opentherm_thermostat_fir.Room.Sensor.{state, reading}
use opentherm_thermostat_fir.Room.Select.{
  Role, Slot, SteerOut, DisplayOut, ambient, room, is_room, is_fresh, is_stale, same_role, to_dc,
  mark_stale, pick, steer_from, select_steer, pick_fresh_by_role, select_display, blank_display,
}

role_same : (r q : Role) → same_role r q ≡ true → q ≡ r
role_same room room e = refl
role_same room ambient e = cc
role_same ambient ambient e = refl
role_same ambient room e = cc

module _ (fl : Floats) where
  -- The first fresh source of a role, with its index counted from `i`.
  unfoldable pub first_fresh : Role → ℕ → List (Slot fl) → Option (ℕ × Slot fl)
  first_fresh want i [] = none
  first_fresh want i (r ∷ rs) =
      let rest = first_fresh want (i + 1) rs in
      if same_role want r.cfg.role && is_fresh (state fl r.sensor) then some (i, r) else rest

  unfoldable pub blind_forward : List (Slot fl) → Bool
  blind_forward [] = false
  blind_forward (r ∷ rs) =
      (is_room r.cfg.role && (r.cfg.ha_forwarded && is_stale (state fl r.sensor)))
      || blind_forward rs

  -- The result when the pick is `found`, and none was made before.
  unfoldable pub steer_of : Option (ℕ × Slot fl) → Bool → SteerOut
  steer_of none blind = record {
    fresh = false;
    value_dc = pos 0;
    active_slot = negsuc 0;
    ha_forwarded_stale = blind;
  }
  steer_of (some (i, r)) blind = record {
    fresh = true;
    value_dc = to_dc fl (reading fl r.sensor);
    active_slot = pos i;
    ha_forwarded_stale = blind;
  }

  -- Once a slot is picked, the loop only looks for a stale forwarded one.
  steer_kept :
      (i : ℕ) (rs : List (Slot fl)) (out : SteerOut)
      → out.fresh ≡ true
      → steer_from fl i rs out
        ≡ record out { ha_forwarded_stale = out.ha_forwarded_stale || blind_forward rs }
  unfolding steer_from blind_forward pick mark_stale
  steer_kept i [] out f = ground arith
  steer_kept i (r ∷ rs) out f =
      let kept = if not (is_room r.cfg.role) then out else pick fl r i (mark_stale fl r out) in
      ground (arith, steer_kept (i + 1) rs kept)

  steer_open :
      (i : ℕ) (rs : List (Slot fl)) (blind : Bool)
      → steer_from fl i rs (steer_of none blind)
        ≡ steer_of (first_fresh room i rs) (blind || blind_forward rs)
  unfolding steer_from blind_forward pick mark_stale first_fresh steer_of
  steer_open i [] blind = ground arith
  steer_open i (r ∷ rs) blind =
      let marked =
        blind || (is_room r.cfg.role && (r.cfg.ha_forwarded && is_stale (state fl r.sensor))) in
      ground
        (arith, steer_open (i + 1) rs marked, steer_kept (i + 1) rs (steer_of (some (i, r)) marked))

  -- What steers is the first fresh source in a room, in the order of the slots, with its value in
  -- tenths; without one nothing steers. Whether a source forwarded by Home Assistant is stale is
  -- told of every slot in a room, wherever it stands.
  pub steer_is_first :
      (rs : List (Slot fl))
      → select_steer fl rs ≡ steer_of (first_fresh room 0 rs) (blind_forward rs)
  unfolding select_steer steer_of
  steer_is_first rs = steer_open 0 rs false

  -- Two lists of slots that differ in ambient slots only.
  unfoldable pub SameRooms : List (Slot fl) → List (Slot fl) → Type 0
  SameRooms [] [] = Unit
  SameRooms [] (q ∷ qs) = ⊥
  SameRooms (r ∷ rs) [] = ⊥
  SameRooms (r ∷ rs) (q ∷ qs) =
      ((r ≡ q) ⊎ ((r.cfg.role ≡ ambient) × (q.cfg.role ≡ ambient))) × SameRooms rs qs

  first_fresh-same :
      (i : ℕ) (rs qs : List (Slot fl))
      → SameRooms rs qs
      → (first_fresh room i rs ≡ first_fresh room i qs) × (blind_forward rs ≡ blind_forward qs)
  unfolding first_fresh blind_forward SameRooms
  first_fresh-same i [] [] h = (refl, refl)
  first_fresh-same i [] (q ∷ qs) h = absurd h
  first_fresh-same i (r ∷ rs) [] h = absurd h
  first_fresh-same i (r ∷ rs) (q ∷ qs) h =
      let ih = first_fresh-same (i + 1) rs qs h.1 in
      elim h.0 [ inl same ↦ ground (arith, ih, same) | inr both ↦ ground (arith, ih, both) ]

  -- An ambient source never steers: whatever the ambient slots hold, and whatever they are
  -- configured to but their role, the steering selection is the same.
  pub ambient_never_steers :
      (rs qs : List (Slot fl)) → SameRooms rs qs → select_steer fl rs ≡ select_steer fl qs
  ambient_never_steers rs qs h =
      let e = first_fresh-same 0 rs qs h in
      steer_is_first rs ∙ ap₂ steer_of e.0 e.1 ∙ sym (steer_is_first qs)

  -- What a scan by role shows.
  unfoldable pub shown : Role → Option (ℕ × Slot fl) → DisplayOut → DisplayOut × Bool
  shown want none out = (out, false)
  shown want (some (i, r)) out = (
    record {
      have = true;
      value_dc = to_dc fl (reading fl r.sensor);
      active_slot = pos i;
      active_role = want;
    },
    true,
  )

  pick-first :
      (i : ℕ) (rs : List (Slot fl)) (want : Role) (out : DisplayOut)
      → pick_fresh_by_role fl i rs want out ≡ shown want (first_fresh want i rs) out
  unfolding pick_fresh_by_role first_fresh shown
  pick-first i [] want out = refl
  pick-first i (r ∷ rs) want out =
      ground (arith, pick-first (i + 1) rs want out, role_same want r.cfg.role)

  -- The two scans of the display, after what the first of them finds.
  in_order :
      (found : Option (ℕ × Slot fl)) (blind : Bool) (rs : List (Slot fl))
      → let blank : DisplayOut = record {
        have = false;
        value_dc = pos 0;
        active_slot = negsuc 0;
        active_role = ambient;
      } in
        let (out, have) = shown room found blank_display in
        let steer = steer_of found blind in
        let display = if have then out else (pick_fresh_by_role fl 0 rs ambient out).0 in
        (steer.fresh ≡ true
          → display ≡ record {
            have = true;
            value_dc = steer.value_dc;
            active_slot = steer.active_slot;
            active_role = room;
          })
        × (steer.fresh ≡ false
            → display ≡ (shown ambient (first_fresh ambient 0 rs) blank_display).0)
  unfolding shown steer_of
  in_order none blind rs = ((λ e. cc), λ e. ap (λ p. p.0) (pick-first 0 rs ambient blank_display))
  in_order (some (i, r)) blind rs = ((λ e. refl), λ e. cc)

  -- The panel and the loop agree where the loop has a source: what steers is what is shown, as a
  -- room reading; and only where nothing steers is the first fresh ambient source shown, if any.
  pub display_prefers_room :
      (rs : List (Slot fl))
      → let steer = select_steer fl rs in
        let display = select_display fl rs in
        (steer.fresh ≡ true
          → display ≡ record {
            have = true;
            value_dc = steer.value_dc;
            active_slot = steer.active_slot;
            active_role = room;
          })
        × (steer.fresh ≡ false
            → display ≡ (shown ambient (first_fresh ambient 0 rs) blank_display).0)
  unfolding select_display shown steer_of
  display_prefers_room rs =
      rw (steer_is_first rs, pick-first 0 rs room blank_display)
        (in_order (first_fresh room 0 rs) (blind_forward rs) rs)
