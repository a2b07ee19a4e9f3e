-- ===== src/Ticket.antt =====
-- components/ot_ticket/ot_ticket.c: the one-shot tickets of the WebSocket.
-- A C string is the list of its bytes without the terminator, and none for NULL.
pub mod Once
pub mod Good
mod Examples
use opentherm_thermostat_fir.Prelude.{
  ℕ, zero, suc, ◌+◌, Bool, true, false, not, ◌&&◌, ◌||◌, ltb, ◌==◌, length, Option, none, some,
  List, [], ◌∷◌, if◌then◌else◌,
}
use opentherm_thermostat_fir.Prelude.Word.{sub32}
use opentherm_thermostat_fir.Prelude.Bits.{bit_or, bit_xor}

abbrev pub slots : ℕ
slots = 14

abbrev pub ticket_len : ℕ
ticket_len = 32

abbrev pub ttl_ms : ℕ
ttl_ms = 30000

-- `ot_ticket_slot_t`.
pub record TicketSlot : Type 0 where
  pub value : List ℕ
  pub issued_ms : ℕ
  pub live : Bool

unfoldable pub repeat {ℓ} : {A : Type ℓ} → ℕ → A → List A
repeat zero x = []
repeat (suc n) x = x ∷ repeat n x

-- The table of zeroes.
unfoldable pub reset : List TicketSlot
reset = repeat slots record { value = repeat ticket_len 0; issued_ms = 0; live = false }

unfoldable pub expired : TicketSlot → ℕ → Bool
expired s now_ms = ltb ttl_ms (sub32 now_ms s.issued_ms)

unfoldable pub well_formed : Option (List ℕ) → Bool
well_formed none = false
well_formed (some value) = length value == ticket_len

-- The slot that takes the new value.
abbrev pub filled : List ℕ → ℕ → TicketSlot
filled value' now_ms = record { value = value'; issued_ms = now_ms; live = true }

-- The first free slot takes the value; the flag is false if there is none.
unfoldable pub take_free : List TicketSlot → TicketSlot → ℕ → List TicketSlot × Bool
take_free [] new now_ms = ([], false)
take_free (s ∷ ss) new now_ms =
    let (rest, taken) = take_free ss new now_ms in
    if not s.live || expired s now_ms then (new ∷ ss, true) else (s ∷ rest, taken)

-- The index of the oldest slot: the first of those that have the greatest age. `i` is the index of
-- the slots still to come, `chosen` the best before them and `age` its age.
unfoldable pub oldest : ℕ → ℕ → ℕ → List TicketSlot → ℕ → ℕ
oldest i chosen age [] now_ms = chosen
oldest i chosen age (s ∷ ss) now_ms =
    let here = sub32 now_ms s.issued_ms in
    oldest (i + 1) (if ltb age here then i else chosen) (if ltb age here then here else age) ss
      now_ms

unfoldable pub put : ℕ → TicketSlot → List TicketSlot → List TicketSlot
put i new [] = []
put zero new (s ∷ ss) = new ∷ ss
put (suc i) new (s ∷ ss) = s ∷ put i new ss

-- All slots are live: the oldest is evicted.
unfoldable pub evict : List TicketSlot → TicketSlot → ℕ → List TicketSlot
evict [] new now_ms = []
evict (s ∷ ss) new now_ms = put (oldest 1 0 (sub32 now_ms s.issued_ms) ss now_ms) new (s ∷ ss)

unfoldable pub issue_value : List TicketSlot → List ℕ → ℕ → List TicketSlot
issue_value t value now_ms =
    let (t', taken) = take_free t (filled value now_ms) now_ms in
    if taken then t' else evict t (filled value now_ms) now_ms

unfoldable pub issue : List TicketSlot → Option (List ℕ) → ℕ → List TicketSlot × Bool
issue t none now_ms = (t, false)
issue t (some value) now_ms =
    if not (well_formed (some value)) then (t, false) else (issue_value t value now_ms, true)

-- The comparison with no early exit.
unfoldable pub difference : ℕ → List ℕ → List ℕ → ℕ
difference diff [] bs = diff
difference diff (a ∷ rest) [] = diff
difference diff (a ∷ rest) (b ∷ bs) = difference (bit_or diff (bit_xor a b)) rest bs

unfoldable pub spend : List TicketSlot → List ℕ → ℕ → List TicketSlot × Bool
spend [] value now_ms = ([], false)
spend (s ∷ ss) value now_ms =
    let (rest, spent) = spend ss value now_ms in
    if not s.live || expired s now_ms
    then (s ∷ rest, spent)
    else if difference 0 s.value value == 0
    then (record s { live = false } ∷ ss, true)
    else (s ∷ rest, spent)

unfoldable pub redeem : List TicketSlot → Option (List ℕ) → ℕ → List TicketSlot × Bool
redeem t none now_ms = (t, false)
redeem t (some value) now_ms =
    if not (well_formed (some value)) then (t, false) else spend t value now_ms
