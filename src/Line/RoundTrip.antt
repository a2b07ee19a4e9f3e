-- ===== src/Line/RoundTrip.antt =====
-- A word that is sent is received: ot_encode_frame() and the sampled line through ot_decode_push().
use mathlib.Core.List.{append_assoc}
use opentherm_thermostat_fir.Prelude.{
  ℕ, zero, suc, ◌+◌, ◌*◌, ◌/◌, ◌%◌, ◌^◌, ◌≤◌, ◌<◌, ◌≡◌, ◌⊎◌, inl, inr, ◌∙◌, sym, ap, Bool, true,
  false, not, List, [], ◌∷◌, ◌++◌, arith, refl,
}
use opentherm_thermostat_fir.Prelude.Bits.{bit_and, bit_or, and_mask, or_fields}
use opentherm_thermostat_fir.Line.Encode.{framed, bit_at, emit, encode_frame}
use opentherm_thermostat_fir.Line.Decode.{
  Decoder, busy, done, push, push_idle, sample, reset, payload,
}
use opentherm_thermostat_fir.Line.Ending.{sample_app, sample-frozen}
use opentherm_thermostat_fir.Line.Sampling.{
  held, sampled, Paced, AfterMiddle, Arrived, hold_level, middle, next_other, next_same,
  bit_at-digit,
}

same_or_other : (b c : Bool) → (b ≡ c) ⊎ (b ≡ not c)
same_or_other true true = inl refl
same_or_other true false = inr refl
same_or_other false true = inr refl
same_or_other false false = inl refl

not_twice : (b : Bool) → not (not b) ≡ b
not_twice true = refl
not_twice false = refl

-- From the middle of one bit to the middle of the next: the rest of the second half, the first
-- half of the next bit, and the transition.
next_bit :
    (d : Decoder) (b : Bool) (n v j h : ℕ)
    → AfterMiddle d b (suc n) v
    → v < 2 ^ 34
    → 3 ≤ j
    → j ≤ 5
    → 4 ≤ h
    → h ≤ 6
    → 8 ≤ j + h
    → let c = bit_at v n in Arrived (sample d (held j (not b) ++ (held h c ++ (not c ∷ [])))) c n v
next_bit d b n v j zero a small j3 j5 h4 h6 full = absurd (omega arith)
next_bit d b n v j (suc i) a small j3 j5 h4 h6 full = elim (same_or_other b (bit_at v n)) [
  | inl same ↦ rw same (next_same d n v j i (rw same at a) small j3 j5 (omega arith) (omega arith))
  | inr other ↦
      rw (other, not_twice (bit_at v n))
        (next_other d n v j (suc i) (rw other at a) small full (omega arith)
          (a.level ∙ ap not other ∙ not_twice (bit_at v n)))
]

-- The samples of the next bit, cut behind its middle.
cut_middle :
    (j h k : ℕ) (x c : Bool) (ls : List Bool)
    → held j x ++ (held h c ++ (held (suc k) (not c) ++ ls))
      ≡ (held j x ++ (held h c ++ (not c ∷ []))) ++ (held k (not c) ++ ls)
unfolding held
cut_middle j h k x c ls =
    let inner = append_assoc (held h c) (not c ∷ []) (held k (not c) ++ ls) in
    let outer = append_assoc (held j x) (held h c ++ (not c ∷ [])) (held k (not c) ++ ls) in
    ap (λ t. held j x ++ t) (sym inner) ∙ sym outer

odd_last : (v : ℕ) → v % 2 ≡ 1 → bit_at v 0 ≡ true
odd_last v odd = ground (arith, bit_at-digit 0 v)

-- The bits that are still to come, from behind the middle of the last one.
rest_received :
    (n : ℕ) (d : Decoder) (b : Bool) (v j : ℕ) (ds : List (ℕ × ℕ))
    → AfterMiddle d b (suc n) v
    → v < 2 ^ 34
    → v % 2 ≡ 1
    → 3 ≤ j
    → j ≤ 5
    → Paced (suc n) (suc j) ds
    → let d' = sample d (held j (not b) ++ sampled (emit (suc n) v) ds) in
      (d'.status ≡ done) × (d'.shift ≡ v)
unfolding Paced emit sampled
rest_received n d b v j [] a small odd j3 j5 p = absurd p
rest_received n d b v j ((h, zero) ∷ ds) a small odd j3 j5 p = absurd (omega (arith, p.2))
rest_received zero d b v j ((h, suc k) ∷ ds) a small odd j3 j5 p =
    let (h4, h6, k4, k6, gap, after) = p in
    let c = bit_at v zero in
    let seen = next_bit d b zero v j h a small j3 j5 h4 h6 (omega arith) in
    let over = seen.1 refl (odd_last v odd) in
    let d2 = sample d (held j (not b) ++ (held h c ++ (not c ∷ []))) in
    rw
      (
        cut_middle j h k (not b) c (sampled (emit zero v) ds),
        sample_app d (held j (not b) ++ (held h c ++ (not c ∷ [])))
            (held k (not c) ++ sampled (emit zero v) ds),
        sample-frozen d2 (held k (not c) ++ sampled (emit zero v) ds) (inl over.0),
      )
      over
rest_received (suc n) d b v j ((h, suc k) ∷ ds) a small odd j3 j5 p =
    let (h4, h6, k4, k6, gap, after) = p in
    let c = bit_at v (suc n) in
    let seen = next_bit d b (suc n) v j h a small j3 j5 h4 h6 (omega arith) in
    let d2 = sample d (held j (not b) ++ (held h c ++ (not c ∷ []))) in
    rw
      (
        cut_middle j h k (not b) c (sampled (emit (suc n) v) ds),
        sample_app d (held j (not b) ++ (held h c ++ (not c ∷ [])))
            (held k (not c) ++ sampled (emit (suc n) v) ds),
      )
      (rest_received n d2 c v k ds (seen.0 (omega arith)) small odd (omega arith) (omega arith)
        after)

-- An idle line arms the machine and changes nothing else.
idle_line :
    (n : ℕ) (ls : List Bool)
    → sample reset (held (suc n) false ++ ls) ≡ sample (record reset { armed = true }) ls
unfolding sample held push push_idle reset
idle_line zero ls = refl
idle_line (suc n) ls = idle_line n ls

-- The leading edge and the middle of the start bit.
start_received :
    (n v h : ℕ)
    → n ≡ 33
    → v < 2 ^ 34
    → bit_at v n ≡ true
    → 3 ≤ h
    → h ≤ 5
    → Arrived (sample (record reset { armed = true }) (held (suc h) true ++ (false ∷ []))) true n v
unfolding sample held push push_idle reset
start_received n v h last small one h3 h5 =
    let d1 = record reset { armed = true; status = busy; last_level = true } in
    let d2 = record d1 { since = 0 + h } in
    let first = hold_level h d1 true (false ∷ []) refl refl (omega arith) in
    let width : 34 ≡ suc n = omega (arith, last) in
    let nothing : 0 ≡ v / 2 ^ 34 = omega arith in
    let none_yet : 0 ≡ v / 2 ^ suc n = nothing ∙ ap (λ m. v / 2 ^ m) width in
    let arrived =
      middle d2 n v refl (inr (refl, omega arith, omega arith)) (sym one) (omega (arith, last))
        none_yet small in
    rw first (rw one at arrived)

line_received :
    (n v before : ℕ) (ds : List (ℕ × ℕ))
    → n ≡ 32
    → v < 2 ^ 34
    → v % 2 ≡ 1
    → bit_at v (suc n) ≡ true
    → Paced (suc (suc n)) 6 ds
    → let d' = sample reset (held (suc before) false ++ sampled (emit (suc (suc n)) v) ds) in
      (d'.status ≡ done) × (d'.shift ≡ v)
unfolding Paced emit sampled sample held
line_received n v before [] last small odd one p = absurd p
line_received n v before ((zero, k) ∷ ds) last small odd one p = absurd (omega (arith, p.0))
line_received n v before ((suc h, zero) ∷ ds) last small odd one p = absurd (omega (arith, p.2))
line_received n v before ((suc h, suc k) ∷ ds) last small odd one p =
    let (h4, h6, k4, k6, gap, after) = p in
    let rest = sampled (emit (suc n) v) ds in
    let ready = record reset { armed = true } in
    let start =
      start_received (suc n) v h (omega (arith, last)) small one (omega arith) (omega arith) in
    let d2 = sample ready (held (suc h) true ++ (false ∷ [])) in
    rw
      (
        one,
        idle_line before (held (suc h) true ++ (held (suc k) false ++ rest)),
        cut_middle 0 (suc h) k true true rest,
        sample_app ready (held (suc h) true ++ (false ∷ [])) (held k false ++ rest),
      )
      (rest_received n d2 true v k ds (start.0 (omega arith)) small odd (omega arith) (omega arith)
        after)

framed-sum : (p : ℕ) → p < 4294967296 → framed p ≡ 8589934592 + p * 2 + 1
unfolding framed
framed-sum p h =
    let inner : bit_or (2 ^ 33) (p * 2) ≡ (4294967296 + p) * 2 ^ 1 =
      or_fields 33 1 (p * 2) (omega arith) ∙ omega arith in
    rw inner (or_fields 1 (4294967296 + p) 1 (omega arith) ∙ omega arith)

framed-start : (p : ℕ) → p < 4294967296 → bit_at (framed p) 33 ≡ true
framed-start p h = ground (arith, framed-sum p h, bit_at-digit 33 (framed p))

-- Every 32-bit word that ot_encode_frame() puts on an idle line is received by ot_decode_push():
-- the machine ends in DONE with that word as its payload, wherever the sampling begins in the idle
-- time, as long as each half-bit is seen for 4 to 6 samples and the second half of a bit together
-- with the first half of the next for at least 9.
pub payload_received :
    (p before : ℕ) (ds : List (ℕ × ℕ))
    → p < 4294967296
    → Paced 34 6 ds
    → let d = sample reset (held (suc before) false ++ sampled (encode_frame p) ds) in
      (d.status ≡ done) × (payload d ≡ p)
unfolding encode_frame payload
payload_received p before ds small paced =
    let v = framed p in
    let e = framed-sum p small in
    let received =
      line_received 32 v before ds refl (omega (arith, e)) (omega (arith, e)) (framed-start p small)
        paced in
    (
      received.0,
      omega (
        arith,
        received.1,
        e,
        and_mask 32 (v / 2),
        ap (λ s. bit_and (s / 2) 4294967295) received.1,
      ),
    )
