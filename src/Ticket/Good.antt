-- ===== src/Ticket/Good.antt =====
-- An issued ticket is good for its time.
use opentherm_thermostat_fir.Prelude.{
  ℕ, zero, suc, ◌+◌, ◌≤◌, ◌<◌, ◌≡◌, Bool, true, false, not, ◌&&◌, ◌||◌, ◌==◌, length, some, List,
  [], ◌∷◌, arith, refl, if◌then◌else◌, ltb,
}
use opentherm_thermostat_fir.Prelude.Word.{sub32}
use opentherm_thermostat_fir.Prelude.Bits.{bit_xor_self, or_nothing}
use opentherm_thermostat_fir.Ticket.{
  TicketSlot, expired, well_formed, filled, take_free, oldest, put, evict, issue_value, issue,
  difference, spend, redeem,
}

difference_self : (v : List ℕ) → difference 0 v v ≡ 0
unfolding difference
difference_self [] = refl
difference_self (x ∷ v) = rw (bit_xor_self x, or_nothing 0) (difference_self v)

-- A slot that the value opens now.
abbrev pub opens : List ℕ → ℕ → TicketSlot → Bool
opens v now_ms s = (s.live && not (expired s now_ms)) && difference 0 s.value v == 0

unfoldable pub any_opens : List ℕ → ℕ → List TicketSlot → Bool
any_opens v now_ms [] = false
any_opens v now_ms (s ∷ ss) = opens v now_ms s || any_opens v now_ms ss

spend_iff :
    (v : List ℕ) (t : List TicketSlot) (now_ms : ℕ) → (spend t v now_ms).1 ≡ any_opens v now_ms t
unfolding spend any_opens
spend_iff v [] now_ms = refl
spend_iff v (s ∷ ss) now_ms = ground (arith, spend_iff v ss now_ms)

take_free-opens :
    (v : List ℕ) (t : List TicketSlot) (new : TicketSlot) (now_ms later : ℕ)
    → opens v later new ≡ true
    → (take_free t new now_ms).1 ≡ true
    → any_opens v later (take_free t new now_ms).0 ≡ true
unfolding take_free any_opens
take_free-opens v [] new now_ms later o e = cc
take_free-opens v (s ∷ ss) new now_ms later o e =
    ground (arith, take_free-opens v ss new now_ms later o)

put-opens :
    (v : List ℕ) (i : ℕ) (new : TicketSlot) (t : List TicketSlot) (later : ℕ)
    → opens v later new ≡ true
    → i < length t
    → any_opens v later (put i new t) ≡ true
unfolding put any_opens
put-opens v i new [] later o h = absurd (omega arith)
put-opens v zero new (s ∷ ss) later o h = ground (arith, o)
put-opens v (suc i) new (s ∷ ss) later o h =
    ground (arith, put-opens v i new ss later o (omega arith))

oldest_inside :
    (i chosen age : ℕ) (ss : List TicketSlot) (now_ms : ℕ)
    → chosen < i
    → oldest i chosen age ss now_ms < i + length ss
unfolding oldest
oldest_inside i chosen age [] now_ms h = omega arith
oldest_inside i chosen age (s ∷ ss) now_ms h =
    let here = sub32 now_ms s.issued_ms in
    let next = if ltb age here then i else chosen in
    let inside : next < i + 1 = ground arith in
    omega (arith, oldest_inside (i + 1) next (if ltb age here then here else age) ss now_ms inside)

evict-opens :
    (v : List ℕ) (t : List TicketSlot) (new : TicketSlot) (now_ms later : ℕ)
    → opens v later new ≡ true
    → 0 < length t
    → any_opens v later (evict t new now_ms) ≡ true
unfolding evict
evict-opens v [] new now_ms later o h = absurd (omega arith)
evict-opens v (s ∷ ss) new now_ms later o h =
    let inside = oldest_inside 1 0 (sub32 now_ms s.issued_ms) ss now_ms (omega arith) in
    put-opens v _ new (s ∷ ss) later o (omega (arith, inside))

-- A ticket that was just issued is accepted for thirty seconds, however full the table was and
-- across the wrap of the clock.
pub issued_is_accepted :
    (v : List ℕ) (t : List TicketSlot) (now_ms later : ℕ)
    → length v ≡ 32
    → 0 < length t
    → sub32 later now_ms ≤ 30000
    → ((issue t (some v) now_ms).1 ≡ true)
      × ((redeem (issue t (some v) now_ms).0 (some v) later).1 ≡ true)
unfolding issue redeem well_formed issue_value expired
issued_is_accepted v t now_ms later l some_slot young =
    let new = filled v now_ms in
    let o : opens v later new ≡ true = ground (arith, difference_self v, young) in
    ground (
      arith,
      l,
      spend_iff v (issue_value t v now_ms) later,
      take_free-opens v t new now_ms later o,
      evict-opens v t new now_ms later o some_slot,
    )
