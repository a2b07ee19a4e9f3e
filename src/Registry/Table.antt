-- ===== src/Registry/Table.antt =====
-- components/ot_registry: the list of the entities of this firmware and the ring of its polls.
use opentherm_thermostat_fir.Prelude.{ℕ, ltb, length, get_or, List, [], ◌∷◌, ◌++◌, if◌then◌else◌}
use opentherm_thermostat_fir.Frame.Numbers.{Numbers}
use opentherm_thermostat_fir.Registry.Types.{Entity}
use opentherm_thermostat_fir.Registry.RowsLow
use opentherm_thermostat_fir.Registry.RowsMiddle
use opentherm_thermostat_fir.Registry.RowsHigh

-- OT_ENTITIES.
abbrev pub entities : (fl : Numbers) → List (Entity fl)
entities fl =
    RowsLow.entities_0 fl
    ++ RowsLow.entities_6 fl
    ++ RowsLow.entities_12 fl
    ++ RowsLow.entities_18 fl
    ++ RowsMiddle.entities_24 fl
    ++ RowsMiddle.entities_30 fl
    ++ RowsMiddle.entities_36 fl
    ++ RowsMiddle.entities_42 fl
    ++ RowsHigh.entities_48 fl
    ++ RowsHigh.entities_54 fl
    ++ RowsHigh.entities_60 fl
    ++ RowsHigh.entities_66 fl

-- OT_POLL_IDS.
abbrev pub poll_ids : List ℕ
poll_ids =
    3 ∷ 5 ∷ 6 ∷ 9 ∷ 15 ∷ 17 ∷ 18 ∷ 19 ∷ 25 ∷ 26 ∷ 27 ∷ 28 ∷ 33 ∷ 48 ∷ 49 ∷ 56 ∷ 57 ∷ 100 ∷ 113 ∷ 114
    ∷ 116 ∷ 117 ∷ 118 ∷ 119 ∷ 120 ∷ 121 ∷ 122 ∷ 123 ∷ 125 ∷ 127 ∷ []

unfoldable pub poll_count : ℕ
poll_count = length poll_ids

unfoldable pub poll_at : ℕ → ℕ
poll_at index = if ltb index poll_count then get_or poll_ids index 0 else 0
