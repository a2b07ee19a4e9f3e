-- ===== src/Ticket/Once.antt =====
-- A ticket is spent at most once: redemptions against issues, over every sequence of calls.
use opentherm_thermostat_fir.Prelude.{
  ℕ, zero, suc, ◌+◌, ◌≤◌, ◌<◌, ◌≡◌, Bool, true, false, ◌&&◌, ◌==◌, length, Option, none, some, List,
  [], ◌∷◌, arith, refl, if◌then◌else◌,
}
use opentherm_thermostat_fir.Prelude.Bits.{bit_or, bit_xor, or_zero, xor_same}
use opentherm_thermostat_fir.Policy.Text.{same}
use opentherm_thermostat_fir.Policy.Access.{same_iff}
use opentherm_thermostat_fir.Ticket.{
  TicketSlot, repeat, reset, well_formed, filled, take_free, put, evict, issue_value, issue,
  difference, spend, redeem,
}

difference-zero :
    (diff : ℕ) (a b : List ℕ) → length a ≡ length b → difference diff a b ≡ 0 → (diff ≡ 0) × (a ≡ b)
unfolding difference
difference-zero diff [] [] l e = (e, refl)
difference-zero diff [] (y ∷ b) l e = absurd (omega arith)
difference-zero diff (x ∷ a) [] l e = absurd (omega arith)
difference-zero diff (x ∷ a) (y ∷ b) l e =
    let ih = difference-zero (bit_or diff (bit_xor x y)) a b (omega arith) e in
    let both = or_zero diff (bit_xor x y) ih.0 in ground (arith, both, ih, xor_same x y both.1)

-- Whether a slot can be spent by a value.
abbrev pub holds : List ℕ → TicketSlot → ℕ
holds v s = if s.live && difference 0 s.value v == 0 then 1 else 0

unfoldable pub count : List ℕ → List TicketSlot → ℕ
count v [] = 0
count v (s ∷ ss) = holds v s + count v ss

count-take_free :
    (v : List ℕ) (t : List TicketSlot) (new : TicketSlot) (now_ms : ℕ)
    → count v (take_free t new now_ms).0 ≤ count v t + holds v new
unfolding count take_free
count-take_free v [] new now_ms = omega arith
count-take_free v (s ∷ ss) new now_ms = ground (arith, count-take_free v ss new now_ms)

count-put :
    (v : List ℕ) (i : ℕ) (new : TicketSlot) (t : List TicketSlot)
    → count v (put i new t) ≤ count v t + holds v new
unfolding count put
count-put v i new [] = omega arith
count-put v zero new (s ∷ ss) = omega arith
count-put v (suc i) new (s ∷ ss) = omega (arith, count-put v i new ss)

count-evict :
    (v : List ℕ) (t : List TicketSlot) (new : TicketSlot) (now_ms : ℕ)
    → count v (evict t new now_ms) ≤ count v t + holds v new
unfolding evict
count-evict v [] new now_ms = omega arith
count-evict v (s ∷ ss) new now_ms = count-put v _ new (s ∷ ss)

count-issue_value :
    (v : List ℕ) (t : List TicketSlot) (value : List ℕ) (now_ms : ℕ)
    → count v (issue_value t value now_ms) ≤ count v t + holds v (filled value now_ms)
unfolding issue_value
count-issue_value v t value now_ms = ground (
  arith,
  count-take_free v t (filled value now_ms) now_ms,
  count-evict v t (filled value now_ms) now_ms,
)

-- What spending one value does to the slots of another, or of the same.
count-spend :
    (v w : List ℕ) (t : List TicketSlot) (now_ms : ℕ)
    → (count v (spend t w now_ms).0 ≤ count v t)
      × ((spend t v now_ms).1 ≡ true → count v (spend t v now_ms).0 < count v t)
unfolding count spend
count-spend v w [] now_ms = ground arith
count-spend v w (s ∷ ss) now_ms = ground (arith, count-spend v w ss now_ms)

-- The calls of the web server.
pub data TicketOp : Type 0 where
  issued presented : Option (List ℕ) → ℕ → TicketOp

unfoldable pub apply_op : List TicketSlot → TicketOp → List TicketSlot
apply_op t (issued value now_ms) = (issue t value now_ms).0
apply_op t (presented value now_ms) = (redeem t value now_ms).0

abbrev pub one_if : Bool → ℕ
one_if b = if b then 1 else 0

-- The value that a call names is `v`.
abbrev pub names : List ℕ → Option (List ℕ) → Bool
names v none = false
names v (some w) = same w v

-- How often a presented `v` is accepted.
unfoldable pub accepted : List ℕ → List TicketSlot → List TicketOp → ℕ
accepted v t [] = 0
accepted v t (issued value now_ms ∷ ops) = accepted v (apply_op t (issued value now_ms)) ops
accepted v t (presented value now_ms ∷ ops) =
    one_if (names v value && (redeem t value now_ms).1)
    + accepted v (apply_op t (presented value now_ms)) ops

-- How often `v` is issued.
unfoldable pub handed_out : List ℕ → List TicketOp → ℕ
handed_out v [] = 0
handed_out v (issued value now_ms ∷ ops) = one_if (names v value) + handed_out v ops
handed_out v (presented value now_ms ∷ ops) = handed_out v ops

count-issue :
    (v : List ℕ) (t : List TicketSlot) (value : Option (List ℕ)) (now_ms : ℕ)
    → length v ≡ 32
    → count v (issue t value now_ms).0 ≤ count v t + one_if (names v value)
unfolding issue well_formed
count-issue v t none now_ms l = omega arith
count-issue v t (some w) now_ms l =
    ground (arith, l, count-issue_value v t w now_ms, difference-zero 0 w v, same_iff w v)

count-redeem :
    (v : List ℕ) (t : List TicketSlot) (value : Option (List ℕ)) (now_ms : ℕ)
    → count v (redeem t value now_ms).0 + one_if (names v value && (redeem t value now_ms).1)
      ≤ count v t
unfolding redeem
count-redeem v t none now_ms = omega arith
count-redeem v t (some w) now_ms = ground (arith, count-spend v w t now_ms, same_iff w v)

accepted_bound :
    (v : List ℕ) (t : List TicketSlot) (ops : List TicketOp)
    → length v ≡ 32
    → accepted v t ops ≤ count v t + handed_out v ops
unfolding accepted handed_out apply_op
accepted_bound v t [] l = omega arith
accepted_bound v t (issued value now_ms ∷ ops) l =
    omega (arith, count-issue v t value now_ms l, accepted_bound v (issue t value now_ms).0 ops l)
accepted_bound v t (presented value now_ms ∷ ops) l =
    omega (arith, count-redeem v t value now_ms, accepted_bound v (redeem t value now_ms).0 ops l)

none_at_first : (v : List ℕ) → count v reset ≡ 0
unfolding count reset repeat
none_at_first v = refl

-- No ticket is good twice: over any sequence of calls after a reset, a value of 32 characters is
-- accepted at most as often as it was issued, whatever else is issued and presented, and however
-- the slots are freed and evicted.
pub never_more_than_issued :
    (v : List ℕ) (ops : List TicketOp) → length v ≡ 32 → accepted v reset ops ≤ handed_out v ops
never_more_than_issued v ops l = omega (arith, accepted_bound v reset ops l, none_at_first v)
