-- ===== src/Registry/Polls.antt =====
-- The ring of the polls against the list of the entities.
use opentherm_thermostat_fir.Prelude.{
  ℕ, zero, suc, ◌<◌, ◌≡◌, ◌≢◌, ◌↔◌, ◌⊎◌, inl, inr, ◌∙◌, refl, sym, ap, arith, Bool, true, false,
  ◌&&◌, ◌||◌, ◌==◌, length, get_or, List, [], ◌∷◌, some, if◌then◌else◌,
}
use opentherm_thermostat_fir.Prelude.Int.{pos_part}
use opentherm_thermostat_fir.Frame.Numbers.{Numbers}
use opentherm_thermostat_fir.Registry.Types.{Entity}
use opentherm_thermostat_fir.Registry.Lookup.{get_elem?, reads_id}
use opentherm_thermostat_fir.Registry.Table.{entities, poll_ids, poll_count, poll_at}

unfoldable among : ℕ → List ℕ → Bool
among id [] = false
among id (x ∷ xs) = x == id || among id xs

among-at : (xs : List ℕ) (k : ℕ) → k < length xs → among (get_or xs k 0) xs ≡ true
unfolding among
among-at [] k h = absurd (omega (arith, h))
among-at (x ∷ xs) zero h = ground arith
among-at (x ∷ xs) (suc k) h = ground (arith, among-at xs k (omega (arith, h)))

place :
    (id : ℕ) (xs : List ℕ) → among id xs ≡ true → (k : ℕ) × (k < length xs) × (get_or xs k 0 ≡ id)
unfolding among
place id [] h = ground (arith, h)
place id (x ∷ xs) h =
    elim (x == id)
        as (λ b.
          b || among id xs ≡ true
          → x == id ≡ b
          → (k : ℕ) × (k < suc (length xs)) × (get_or (x ∷ xs) k 0 ≡ id)) [
            | true ↦ λ g e. (zero, omega arith, ground (arith, e))
            | false ↦ λ g e. let (k, below, at) = place id xs g in (suc k, omega (arith, below), at)
          ]
      h refl

unfoldable subset : List ℕ → List ℕ → Bool
subset [] ys = true
subset (x ∷ xs) ys = among x ys && subset xs ys

subset-among :
    (id : ℕ) (xs ys : List ℕ) → subset xs ys ≡ true → among id xs ≡ true → among id ys ≡ true
unfolding subset among
subset-among id [] ys s m = ground (arith, m)
subset-among id (x ∷ xs) ys s m =
    let rest = subset-among id xs ys (ground (arith, s)) in
    let here : x ≡ id → among id ys ≡ true =
      λ e. ap (λ y. among y ys) (sym e) ∙ ground (arith, s) in
    ground (arith, m, rest, here)

module _ {fl : Numbers} where
  -- The Data-IDs of the rows that take part in the poll.
  unfoldable readable_ids : List (Entity fl) → List ℕ
  readable_ids [] = []
  readable_ids (e ∷ es) =
      let rest = readable_ids es in
      if e.readable && reads_id e (pos_part e.data_id) then pos_part e.data_id ∷ rest else rest

  row_is_read :
      (es : List (Entity fl)) (i id : ℕ) (e : Entity fl)
      → get_elem? es i ≡ some e
      → e.readable ≡ true
      → reads_id e id ≡ true
      → among id (readable_ids es) ≡ true
  unfolding readable_ids among get_elem? reads_id
  row_is_read [] i id e g r d = ground (arith, g)
  row_is_read (x ∷ es) zero id e g r d = ground (arith, g, r, d)
  row_is_read (x ∷ es) (suc i) id e g r d =
      ground (arith, row_is_read es i id e g r (unfold reads_id in d))

  abbrev pub IsRead : List (Entity fl) → ℕ → Type 0
  IsRead es id =
      (i : ℕ) × (e : Entity fl) × (get_elem? es i ≡ some e)
      × (e.readable ≡ true)
      × (reads_id e id ≡ true)

  here_or_later :
      (x : Entity fl) (es : List (Entity fl)) (id : ℕ)
      → among id (readable_ids (x ∷ es)) ≡ true
      → ((x.readable ≡ true) × (reads_id x id ≡ true)) ⊎ (among id (readable_ids es) ≡ true)
  unfolding readable_ids among reads_id
  here_or_later x es id m = ground (arith, m)

  found_row : (es : List (Entity fl)) (id : ℕ) → among id (readable_ids es) ≡ true → IsRead es id
  unfolding readable_ids among get_elem?
  found_row [] id m = ground (arith, m)
  found_row (x ∷ es) id m = elim (here_or_later x es id m) [
    | inl (r, d) ↦ (zero, x, refl, r, d)
    | inr later ↦ let (i, e, g, r, d) = found_row es id later in (suc i, e, g, r, d)
  ]

unfoldable nonzero : List ℕ → List ℕ
nonzero [] = []
nonzero (x ∷ xs) = let rest = nonzero xs in if x == 0 then rest else x ∷ rest

among-nonzero :
    (id : ℕ) (xs : List ℕ) → (among id (nonzero xs) ≡ true) ↔ ((among id xs ≡ true) × (id ≢ 0))
unfolding among nonzero
among-nonzero id [] = ground arith
among-nonzero id (x ∷ xs) = ground (arith, among-nonzero id xs)

polls_subset : (fl : Numbers) → subset poll_ids (nonzero (readable_ids (entities fl))) ≡ true
unfolding subset nonzero readable_ids among reads_id
polls_subset fl = refl

reads_subset : (fl : Numbers) → subset (nonzero (readable_ids (entities fl))) poll_ids ≡ true
unfolding subset nonzero readable_ids among reads_id
reads_subset fl = refl

-- The ring of the polls holds the Data-IDs that the entities are read from, each of them and no
-- other, but for ID 0, which the scheduler sends on every second step.
pub polls_cover :
    (fl : Numbers) (id : ℕ)
    → ((k : ℕ) × (k < poll_count) × (poll_at k ≡ id)) ↔ (IsRead (entities fl) id × (id ≢ 0))
unfolding poll_count poll_at
polls_cover fl id =
    let ids = readable_ids (entities fl) in
    (
      λ (k, below, at).
          let listed : among id poll_ids ≡ true =
            ap (λ y. among y poll_ids) (sym at ∙ ground (arith, below))
            ∙ among-at poll_ids k below in
          let read =
            (among-nonzero id ids).0
              (subset-among id poll_ids (nonzero ids) (polls_subset fl) listed) in
          (found_row (entities fl) id read.0, read.1),
      λ ((i, e, g, r, d), n).
          let listed =
            subset-among id (nonzero ids) poll_ids (reads_subset fl)
              ((among-nonzero id ids).1 (row_is_read (entities fl) i id e g r d, n)) in
          let (k, below, at) = place id poll_ids listed in (k, below, ground (arith, below, at)),
    )
