-- ===== src/Registry/Lookup.antt =====
-- components/ot_registry/ot_registry.c: the lookups in the list of entities. The list is an
-- argument, and a position in it is the C index.
use opentherm_thermostat_fir.Prelude.{
  ℕ, zero, suc, ◌+◌, ◌%◌, Bool, true, false, not, ◌&&◌, ◌==◌, drop, List, [], ◌∷◌, Option, none,
  some, if◌then◌else◌,
}
use opentherm_thermostat_fir.Prelude.Int.{pos, eqb_ℤ, leb_ℤ}
use opentherm_thermostat_fir.Frame.Numbers.{Numbers}
use opentherm_thermostat_fir.Policy.Text.{same}
use opentherm_thermostat_fir.Registry.Types.{Entity, EntityKind, option_sep, is_enum}

module _ {ℓ} {A : Type ℓ} where
  unfoldable pub get_elem? : List A → ℕ → Option A
  get_elem? [] i = none
  get_elem? (x ∷ xs) zero = some x
  get_elem? (x ∷ xs) (suc i) = get_elem? xs i

-- The separators of the loop, modulo the width of uint8_t.
unfoldable pub separators : List ℕ → ℕ
separators [] = 0
separators (c ∷ cs) = if c == option_sep then suc (separators cs) else separators cs

-- strchr(): what stands from the first separator on.
unfoldable pub strchr : List ℕ → ℕ → Option (List ℕ)
strchr [] c = none
strchr (x ∷ xs) c = if x == c then some (x ∷ xs) else strchr xs c

-- The loop over the options before `index`.
unfoldable pub skip_options : ℕ → List ℕ → Option (List ℕ)
skip_options zero p = some p
skip_options (suc index) p = elim (strchr p option_sep) [
  | none ↦ none
  | some found ↦ skip_options index (drop 1 found)
]

-- The characters before the next separator, which `end - p` counts.
unfoldable pub upto_sep : List ℕ → List ℕ
upto_sep [] = []
upto_sep (c ∷ cs) = if c == option_sep then [] else c ∷ upto_sep cs

module _ {fl : Numbers} where
  -- The loop from position `i` on; `none` for -1.
  unfoldable pub find_key : List (Entity fl) → List ℕ → ℕ → Option ℕ
  find_key [] key i = none
  find_key (e ∷ es) key i = if same e.key key then some i else find_key es key (suc i)

  -- `none` for a NULL key.
  unfoldable pub index_of : List (Entity fl) → Option (List ℕ) → Option ℕ
  index_of table none = none
  index_of table (some key) = find_key table key 0

  unfoldable pub by_key : List (Entity fl) → Option (List ℕ) → Option (Entity fl)
  by_key table key = elim (index_of table key) [ none ↦ none | some i ↦ get_elem? table i ]

  unfoldable pub reads_id : Entity fl → ℕ → Bool
  reads_id e data_id = leb_ℤ (pos 0) e.data_id && eqb_ℤ e.data_id (pos data_id)

  -- The loop of both iterators from position `i` on.
  unfoldable pub scan : List (Entity fl) → ℕ → ℕ → Option ℕ
  scan [] data_id i = none
  scan (e ∷ es) data_id i = if reads_id e data_id then some i else scan es data_id (suc i)

  unfoldable pub first_for_id : List (Entity fl) → ℕ → Option ℕ
  first_for_id table data_id = scan table data_id 0

  unfoldable pub next_for_id : List (Entity fl) → ℕ → ℕ → Option ℕ
  next_for_id table data_id after = scan (drop (suc after) table) data_id (suc after)

  unfoldable pub is_boolean : Entity fl → Bool
  is_boolean e = elim e.kind [ EntityKind.binary ↦ true | EntityKind.switch ↦ true | _ ↦ false ]

  unfoldable pub option_count : Entity fl → ℕ
  option_count e = elim e.options [
    | none ↦ 0
    | some text ↦ if not (is_enum e.kind) then 0 else (1 + separators text) % 256
  ]

  -- The text that the returned pointer and `*len` delimit; `none` for NULL.
  unfoldable pub option : Entity fl → ℕ → Option (List ℕ)
  option e index = elim e.options [
    | none ↦ none
    | some text ↦
        if not (is_enum e.kind)
        then none
        else elim (skip_options index text) [ none ↦ none | some p ↦ some (upto_sep p) ]
  ]
