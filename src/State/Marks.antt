-- ===== src/State/Marks.antt =====
-- components/ot_state/ot_state.c: the marks of the consumers, in words of 32 bits.
use opentherm_thermostat_fir.Prelude.{
  ℕ, zero, suc, ◌-◌, ◌/◌, ◌%◌, ◌^◌, Bool, false, not, ◌&&◌, ◌||◌, leb, ◌==◌, if◌then◌else◌,
}
use opentherm_thermostat_fir.Prelude.Word.{u32_max}
use opentherm_thermostat_fir.Prelude.Bits.{bit_and, bit_or}
use opentherm_thermostat_fir.Prelude.Int.{ℤ, pos, negsuc}

-- OT_CONSUMER_COUNT: the web interface is 0 and MQTT is 1.
abbrev pub consumer_count : ℕ
consumer_count = 2

-- `s_dirty[consumer][word]`.
abbrev pub Dirty : Type 0
Dirty = ℕ → ℕ → ℕ

unfoldable pub set_word : Dirty → ℕ → ℕ → ℕ → Dirty
set_word d consumer word value c w = if c == consumer && w == word then value else d c w

-- The body of the loop: `s_dirty[c][index / 32] |= 1u << (index % 32)`.
unfoldable pub mark : Dirty → ℕ → ℕ → Dirty
mark d index c = set_word d c (index / 32) (bit_or (d c (index / 32)) (2 ^ (index % 32)))

-- The loop with `n` consumers to go.
unfoldable pub mark_from : ℕ → Dirty → ℕ → ℕ → Dirty
mark_from zero d index c = d
mark_from (suc n) d index c = mark_from n (mark d index c) index (suc c)

unfoldable pub mark_dirty : Dirty → ℕ → Dirty
mark_dirty d index = mark_from consumer_count d index 0

-- The mark of the index, taken from its word.
unfoldable pub take_mark : Dirty → ℕ → ℕ → Dirty × Bool
take_mark d consumer index =
    let mask = 2 ^ (index % 32) in
    let word = d consumer (index / 32) in
    (set_word d consumer (index / 32) (bit_and word (u32_max - mask)), not (bit_and word mask == 0))

-- The `int` index is an integer; `count` is OT_ENTITY_COUNT.
unfoldable pub take_dirty : ℕ → Dirty → ℕ → ℤ → Dirty × Bool
take_dirty count d consumer (negsuc index) = (d, false)
take_dirty count d consumer (pos index) =
    if leb consumer_count consumer || leb count index
    then (d, false)
    else take_mark d consumer index
