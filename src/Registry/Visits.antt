-- ===== src/Registry/Visits.antt =====
-- The traversal of the entities of one Data-ID, `for (i = first_for_id(id); i >= 0; i =
-- next_for_id(id, i))`, as the loops of ot_state.c and ot_observe.c write it.
use opentherm_thermostat_fir.Prelude.{
  ℕ, zero, suc, ◌≤◌, ◌≡◌, refl, arith, Bool, true, false, length, drop, List, [], ◌∷◌, Option, none,
  some, if◌then◌else◌,
}
use opentherm_thermostat_fir.Frame.Numbers.{Numbers}
use opentherm_thermostat_fir.Registry.Types.{Entity}
use opentherm_thermostat_fir.Registry.Lookup.{reads_id, scan, first_for_id, next_for_id}

drop-next {ℓ} :
    {A : Type ℓ} (xs : List A) (i : ℕ) (y : A) (ys : List A)
    → drop i xs ≡ y ∷ ys
    → drop (suc i) xs ≡ ys
drop-next [] zero y ys e = ground (arith, e)
drop-next [] (suc i) y ys e = ground (arith, e)
drop-next (x ∷ xs) zero y ys e = ground (arith, e)
drop-next (x ∷ xs) (suc i) y ys e = drop-next xs i y ys e

module _ {ℓ} {fl : Numbers} {S : Type ℓ} where
  -- The loop with its body, on fuel.
  unfoldable pub walk : ℕ → List (Entity fl) → ℕ → (ℕ → S → S) → Option ℕ → S → S
  walk zero table data_id body i s = s
  walk (suc n) table data_id body none s = s
  walk (suc n) table data_id body (some i) s =
      walk n table data_id body (next_for_id table data_id i) (body i s)

  unfoldable pub for_each_of_id : List (Entity fl) → ℕ → (ℕ → S → S) → S → S
  for_each_of_id table data_id body s =
      walk (length table) table data_id body (first_for_id table data_id) s

  -- One pass over the list, from position `i` on.
  unfoldable pub over_all : List (Entity fl) → ℕ → (ℕ → S → S) → ℕ → S → S
  over_all [] data_id body i s = s
  over_all (e ∷ es) data_id body i s =
      over_all es data_id body (suc i) (if reads_id e data_id then body i s else s)

  at_entity :
      (hit : Bool) (es table : List (Entity fl)) (data_id n i : ℕ) (body : ℕ → S → S) (s : S)
      → drop (suc i) table ≡ es
      → ((m : ℕ) (t : S)
          → length es ≤ m
          → walk m table data_id body (scan es data_id (suc i)) t
            ≡ over_all es data_id body (suc i) t)
      → length es ≤ n
      → walk (suc n) table data_id body (if hit then some i else scan es data_id (suc i)) s
        ≡ over_all es data_id body (suc i) (if hit then body i s else s)
  unfolding walk next_for_id
  at_entity true es table data_id n i body s d rest h = rw d (rest n (body i s) h)
  at_entity false es table data_id n i body s d rest h = rest (suc n) s (omega (arith, h))

  walk-over_all :
      (es table : List (Entity fl)) (data_id n i : ℕ) (body : ℕ → S → S) (s : S)
      → drop i table ≡ es
      → length es ≤ n
      → walk n table data_id body (scan es data_id i) s ≡ over_all es data_id body i s
  unfolding walk over_all scan
  walk-over_all [] table data_id zero i body s d h = refl
  walk-over_all [] table data_id (suc n) i body s d h = refl
  walk-over_all (e ∷ es) table data_id zero i body s d h = absurd (omega (arith, h))
  walk-over_all (e ∷ es) table data_id (suc n) i body s d h =
      let next = drop-next table i e es d in
      at_entity (reads_id e data_id) es table data_id n i body s next
        (λ m t g. walk-over_all es table data_id m (suc i) body t next g) (omega (arith, h))

  -- The two iterators visit every entity of a Data-ID once, in the order of the list, and no other
  -- entity: the loop over them runs its body as one pass over the list does, for any body, and the
  -- length of the list is fuel enough.
  pub visits_each :
      (table : List (Entity fl)) (data_id : ℕ) (body : ℕ → S → S) (s : S)
      → for_each_of_id table data_id body s ≡ over_all table data_id body 0 s
  unfolding for_each_of_id first_for_id
  visits_each table data_id body s =
      walk-over_all table table data_id (length table) 0 body s refl (omega arith)

  walk_keeps {κ} :
      (P : S → Type κ) (n : ℕ) (table : List (Entity fl)) (data_id : ℕ) (body : ℕ → S → S)
      (i : Option ℕ) (s : S)
      → ((j : ℕ) (t : S) → P t → P (body j t))
      → P s
      → P (walk n table data_id body i s)
  unfolding walk
  walk_keeps P zero table data_id body i s k p = p
  walk_keeps P (suc n) table data_id body none s k p = p
  walk_keeps P (suc n) table data_id body (some i) s k p =
      walk_keeps P n table data_id body (next_for_id table data_id i) (body i s) k (k i s p)

  -- What the body keeps the loop keeps.
  pub visits_keep {κ} :
      (P : S → Type κ) (table : List (Entity fl)) (data_id : ℕ) (body : ℕ → S → S) (s : S)
      → ((j : ℕ) (t : S) → P t → P (body j t))
      → P s
      → P (for_each_of_id table data_id body s)
  unfolding for_each_of_id
  visits_keep P table data_id body s k p =
      walk_keeps P (length table) table data_id body (first_for_id table data_id) s k p
